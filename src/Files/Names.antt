-- ===== src/Files/Names.antt =====
-- src/adp/utils/url_utils.py: the name of a file from what a server says. A text is its code points.
-- What `strip` takes for white space, and the upper case of a character, are Python's.
use adp_pro.Prelude.{
  ℕ, ◌==◌, nat_eq, Bool, true, false, not, ◌&&◌, ◌||◌, List, [], ◌∷◌, ◌++◌, if◌then◌else◌, leb, any,
  filter,
}

abbrev pub Text : Type 0
Text = List ℕ

unfoldable pub lstrip : (ℕ → Bool) → Text → Text
lstrip p [] = []
lstrip p (c ∷ s) = let rest = lstrip p s in if p c then rest else c ∷ s

abbrev pub is_empty : Text → Bool
is_empty [] = true
is_empty (c ∷ s) = false

unfoldable pub rstrip : (ℕ → Bool) → Text → Text
rstrip p [] = []
rstrip p (c ∷ s) = let rest = rstrip p s in if p c && is_empty rest then [] else c ∷ rest

unfoldable pub strip : (ℕ → Bool) → Text → Text
strip p s = rstrip p (lstrip p s)

-- / and \
abbrev pub is_separator : ℕ → Bool
is_separator c = c == 47 || c == 92

-- `replace` and `rsplit`: what stands behind the last separator.
unfoldable pub last_segment : Text → Text
last_segment [] = []
last_segment (c ∷ s) =
    let rest = last_segment s in
    if any is_separator s then rest else if is_separator c then s else c ∷ s

-- < > : " / \ | ? *
abbrev pub illegal : Text
illegal = 60 ∷ 62 ∷ 58 ∷ 34 ∷ 47 ∷ 92 ∷ 124 ∷ 63 ∷ 42 ∷ []

abbrev pub is_allowed : ℕ → Bool
is_allowed c = not (any (λ i. i == c) illegal) && leb 32 c

abbrev pub same : Text → Text → Bool
same [] [] = true
same [] (d ∷ t) = false
same (c ∷ s) [] = false
same (c ∷ s) (d ∷ t) = c == d && same s t

-- CON, PRN, AUX, NUL, and COM1 to COM9, LPT1 to LPT9.
abbrev pub is_numbered : Text → Bool
is_numbered (a ∷ b ∷ c ∷ d ∷ []) =
    (same (a ∷ b ∷ c ∷ []) (67 ∷ 79 ∷ 77 ∷ []) || same (a ∷ b ∷ c ∷ []) (76 ∷ 80 ∷ 84 ∷ []))
    && leb 49 d
    && leb d 57
is_numbered _ = false

abbrev pub is_reserved : Text → Bool
is_reserved s =
    same s (67 ∷ 79 ∷ 78 ∷ [])
    || same s (80 ∷ 82 ∷ 78 ∷ [])
    || same s (65 ∷ 85 ∷ 88 ∷ [])
    || same s (78 ∷ 85 ∷ 76 ∷ [])
    || is_numbered s

-- `split(".", 1)[0]`
unfoldable pub stem : Text → Text
stem [] = []
stem (c ∷ s) = let rest = stem s in if c == 46 then [] else c ∷ rest

unfoldable pub upper : (ℕ → Text) → Text → Text
upper up [] = []
upper up (c ∷ s) = up c ++ upper up s

-- `set(name) == {"."}` of a name that is not empty.
abbrev pub is_dots : Text → Bool
is_dots s = not (any (λ c. not (c == 46)) s)

abbrev pub is_dot_or_space : ℕ → Bool
is_dot_or_space c = c == 46 || c == 32

-- The name before the last two tests. A name that is None counts as empty.
unfoldable pub cleaned : (ℕ → Bool) → Text → Text
cleaned is_space name =
    let bare = strip is_space (strip (λ c. c == 34) (strip is_space name)) in
    let kept = filter is_allowed (last_segment bare) in strip is_space (rstrip is_dot_or_space kept)

unfoldable pub sanitize_filename : (ℕ → Bool) → (ℕ → Text) → Text → Text → Text
sanitize_filename is_space up name fallback =
    let s = cleaned is_space name in
    if is_empty s || is_dots s
    then fallback
    else if is_reserved (upper up (stem s))
    then 95 ∷ s
    else s
