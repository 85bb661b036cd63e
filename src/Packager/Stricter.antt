-- ===== src/Packager/Stricter.antt =====
-- project_packager.py: rules that exclude more ship less.
use mathlib.Core.List.{Memᴰ}
use mathlib.Core.List.Memᴰ
use adp_pro.Prelude.{
  ◌==◌, ◌≡◌, ◌↔◌, refl, sym, subst, inl, inr, Bool, false, ◌||◌, none, List, [], ◌∷◌, ◌++◌, any,
  arith,
}
use adp_pro.Files.Names.{Text, rstrip}
use adp_pro.Packager.Paths.{codes, text_eq}
use adp_pro.Packager.Rules.{
  Rules, Fnmatch, matches_any_pattern, matches_path_pattern, should_exclude_dir,
  should_exclude_file, is_slash,
}

-- Each rule of the one is a rule of the other, which includes the same.
pub record IsStricter (r' r : Rules) : Type 0 where
  pub dir_names : (t : Text) → Memᴰ t r.dir_names → Memᴰ t r'.dir_names
  pub dir_patterns : (t : Text) → Memᴰ t r.dir_patterns → Memᴰ t r'.dir_patterns
  pub file_patterns : (t : Text) → Memᴰ t r.file_patterns → Memᴰ t r'.file_patterns
  pub path_patterns : (t : Text) → Memᴰ t r.path_patterns → Memᴰ t r'.path_patterns
  pub include_patterns : r'.include_patterns ≡ r.include_patterns

module _ {ℓ} {A : Type ℓ} (f : A → Bool) where
  any-false : (xs : List A) (a : A) → any f xs ≡ false → Memᴰ a xs → f a ≡ false
  any-false [] a h m = absurd (Memᴰ.not-nil m)
  any-false (x ∷ xs) a h m = elim (Memᴰ.cases_cons m) [
    | inl e ↦ subst (λ y. f y ≡ false) (sym e) (ground arith)
    | inr later ↦ any-false xs a (ground arith) later
  ]

  false-any : (xs : List A) → ((a : A) → Memᴰ a xs → f a ≡ false) → any f xs ≡ false
  false-any [] h = refl
  false-any (x ∷ xs) h =
      let first = h x (Memᴰ.head refl) in
      let rest = false-any xs (λ a m. h a (Memᴰ.tail m)) in ground arith

  any-fewer :
      (big small : List A)
      → ((a : A) → Memᴰ a small → Memᴰ a big)
      → any f big ≡ false
      → any f small ≡ false
  any-fewer big small sub h = false-any small (λ a m. any-false big a h (sub a m))

matches_any_pattern-any :
    (fnmatch : Fnmatch) (name : Text) (ps : List Text)
    → (matches_any_pattern fnmatch name ps ≡ none) ↔ (any (fnmatch name) ps ≡ false)
unfolding matches_any_pattern
matches_any_pattern-any fnmatch name [] = ground arith
matches_any_pattern-any fnmatch name (p ∷ ps) =
    let rest = matches_any_pattern-any fnmatch name ps in ground arith

abbrev under : Fnmatch → Text → Text → Bool
under fnmatch rel p =
    let clean = rstrip is_slash p in fnmatch rel clean || fnmatch rel (clean ++ codes "/*")

matches_path_pattern-any :
    (fnmatch : Fnmatch) (rel : Text) (ps : List Text)
    → (matches_path_pattern fnmatch rel ps ≡ none) ↔ (any (under fnmatch rel) ps ≡ false)
unfolding matches_path_pattern
matches_path_pattern-any fnmatch rel [] = ground arith
matches_path_pattern-any fnmatch rel (p ∷ ps) =
    let rest = matches_path_pattern-any fnmatch rel ps in ground arith

module _ (fnmatch : Fnmatch) (r' r : Rules) (name rel : Text) (more : IsStricter r' r) where
  any_pattern-fewer :
      (big small : List Text)
      → ((t : Text) → Memᴰ t small → Memᴰ t big)
      → matches_any_pattern fnmatch name big ≡ none
      → matches_any_pattern fnmatch name small ≡ none
  any_pattern-fewer big small sub h =
      (matches_any_pattern-any fnmatch name small).1
        (any-fewer (fnmatch name) big small sub ((matches_any_pattern-any fnmatch name big).0 h))

  path_pattern-fewer :
      matches_path_pattern fnmatch rel r'.path_patterns ≡ none
      → matches_path_pattern fnmatch rel r.path_patterns ≡ none
  path_pattern-fewer h = (matches_path_pattern-any fnmatch rel r.path_patterns).1 (
      any-fewer (under fnmatch rel) r'.path_patterns r.path_patterns more.path_patterns
        ((matches_path_pattern-any fnmatch rel r'.path_patterns).0 h))

  pub dir-stricter :
      should_exclude_dir fnmatch r' name rel ≡ none → should_exclude_dir fnmatch r name rel ≡ none
  unfolding should_exclude_dir
  dir-stricter h =
      let names = any-fewer (λ n. n == name) r'.dir_names r.dir_names more.dir_names in
      let patterns = any_pattern-fewer r'.dir_patterns r.dir_patterns more.dir_patterns in
      let paths = path_pattern-fewer in ground arith

  pub file-stricter :
      should_exclude_file fnmatch r' name rel ≡ none → should_exclude_file fnmatch r name rel ≡ none
  unfolding should_exclude_file
  file-stricter h =
      let patterns = any_pattern-fewer r'.file_patterns r.file_patterns more.file_patterns in
      let paths = path_pattern-fewer in ground arith
