-- ===== src/Packager/Paths.antt =====
-- project_packager.py: texts as code points, and paths as the names on the way.
use Prim.Native.Char.{code}
use adp_pro.Prelude.{
  String, Key, ◌≡◌, ◌↔◌, ◌==◌, nat_eq, Bool, true, false, ◌&&◌, List, [], ◌∷◌, ◌++◌, arith,
}
use adp_pro.Files.Names.{Text, same}

abbrev pub codes : String → Text
codes String.[] = []
codes (String.◌∷◌ c s) = code c ∷ codes s

pub same_iff : (s t : Text) → (same s t ≡ true) ↔ (s ≡ t)
same_iff [] [] = ground arith
same_iff [] (d ∷ t) = ground arith
same_iff (c ∷ s) [] = ground arith
same_iff (c ∷ s) (d ∷ t) = ground (arith, same_iff s t, nat_eq.is_same_iff c d)

instance abbrev pub text_eq : Key Text
text_eq = record { is_same = same; is_same_iff = same_iff }

-- Relative to the project.
abbrev pub RelPath : Type 0
RelPath = List Text

abbrev pub same_path : RelPath → RelPath → Bool
same_path [] [] = true
same_path [] (m ∷ q) = false
same_path (n ∷ p) [] = false
same_path (n ∷ p) (m ∷ q) = n == m && same_path p q

pub same_path_iff : (p q : RelPath) → (same_path p q ≡ true) ↔ (p ≡ q)
same_path_iff [] [] = ground arith
same_path_iff [] (m ∷ q) = ground arith
same_path_iff (n ∷ p) [] = ground arith
same_path_iff (n ∷ p) (m ∷ q) = ground (arith, same_path_iff p q, same_iff n m)

instance abbrev pub path_eq : Key RelPath
path_eq = record { is_same = same_path; is_same_iff = same_path_iff }

-- `normalise_rel`: with / between the names.
unfoldable pub normalise_rel : RelPath → Text
normalise_rel [] = []
normalise_rel (n ∷ []) = n
normalise_rel (n ∷ m ∷ p) = n ++ 47 ∷ normalise_rel (m ∷ p)

-- The path is the folder or inside it.
abbrev pub is_inside : RelPath → RelPath → Bool
is_inside p [] = true
is_inside [] (m ∷ q) = false
is_inside (n ∷ p) (m ∷ q) = n == m && is_inside p q

unfoldable pub ends_with_slash : Text → Bool
ends_with_slash [] = false
ends_with_slash (c ∷ []) = c == 47
ends_with_slash (c ∷ d ∷ s) = ends_with_slash (d ∷ s)
