-- ===== src/Files/Safe.antt =====
-- What may be the name of a file, whatever a server says.
use adp_pro.Prelude.{
  ℕ, ◌≡◌, refl, ◌==◌, nat_eq, Bool, false, not, ◌||◌, [], ◌∷◌, if_rule, any, filter, arith,
}
use adp_pro.Files.Names.{
  Text, lstrip, is_empty, rstrip, strip, last_segment, is_allowed, is_reserved, stem, upper,
  is_dots, is_dot_or_space, cleaned, sanitize_filename,
}

-- A name that is one entry of a folder on every system: characters that are allowed, at least one,
-- not dots alone, and no device.
pub record IsSafe (up : ℕ → Text) (s : Text) : Type 0 where
  pub allowed : any (λ c. not (is_allowed c)) s ≡ false
  pub some_character : is_empty s ≡ false
  pub no_dots : is_dots s ≡ false
  pub no_device : is_reserved (upper up (stem s)) ≡ false

abbrev AllAllowed : Text → Type 0
AllAllowed s = any (λ c. not (is_allowed c)) s ≡ false

module _ (bad : ℕ → Bool) where
  lstrip-any : (p : ℕ → Bool) (s : Text) → any bad s ≡ false → any bad (lstrip p s) ≡ false
  unfolding lstrip
  lstrip-any p [] h = refl
  lstrip-any p (c ∷ s) h = ground (arith, h, lstrip-any p s (ground (arith, h)))

  rstrip-any : (p : ℕ → Bool) (s : Text) → any bad s ≡ false → any bad (rstrip p s) ≡ false
  unfolding rstrip
  rstrip-any p [] h = refl
  rstrip-any p (c ∷ s) h = ground (arith, h, rstrip-any p s (ground (arith, h)))

filter-any : (s : Text) → any (λ c. not (is_allowed c)) (filter is_allowed s) ≡ false
filter-any [] = refl
filter-any (c ∷ s) =
    if_rule AllAllowed (is_allowed c) _ _ (λ e. ground (arith, e, filter-any s)) λ e. filter-any s

cleaned-AllAllowed : (is_space : ℕ → Bool) (name : Text) → AllAllowed (cleaned is_space name)
unfolding cleaned strip
cleaned-AllAllowed is_space name =
    let kept : Text =
      filter is_allowed
        (last_segment (strip is_space (strip (λ c. c == 34) (strip is_space name)))) in
    let bad : ℕ → Bool = λ c. not (is_allowed c) in
    rstrip-any bad is_space (lstrip is_space (rstrip is_dot_or_space kept)) (
      lstrip-any bad is_space (rstrip is_dot_or_space kept) (
        rstrip-any bad is_dot_or_space kept (
          filter-any (last_segment (strip is_space (strip (λ c. c == 34) (strip is_space name)))))))

underscored : (t : Text) → is_reserved (95 ∷ t) ≡ false
underscored [] = refl
underscored (b ∷ []) = refl
underscored (b ∷ c ∷ []) = refl
underscored (b ∷ c ∷ d ∷ []) = refl
underscored (b ∷ c ∷ d ∷ e ∷ t) = refl

-- With a safe fallback, and an upper case that leaves the underscore alone, what a server names
-- becomes a safe name.
pub sanitize_filename-IsSafe :
    (is_space : ℕ → Bool) (up : ℕ → Text) (name fallback : Text)
    → up 95 ≡ 95 ∷ []
    → IsSafe up fallback
    → IsSafe up (sanitize_filename is_space up name fallback)
unfolding sanitize_filename
sanitize_filename-IsSafe is_space up name fallback u f =
    let s : Text = cleaned is_space name in
    if_rule (IsSafe up) (is_empty s || is_dots s) _ _ (λ e. f)
      λ e.
        if_rule (IsSafe up) (is_reserved (upper up (stem s))) (95 ∷ s) s
          (λ r. record {
            allowed = cleaned-AllAllowed is_space name;
            some_character = refl;
            no_dots = refl;
            no_device = unfold stem upper in rw u (underscored (upper up (stem s)));
          })
          λ r. record {
            allowed = cleaned-AllAllowed is_space name;
            some_character = ground (arith, e);
            no_dots = ground (arith, e);
            no_device = r;
          }
