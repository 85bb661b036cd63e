-- ===== src/Settings/Merged.antt =====
-- A stored setting wins over its default, and a default stays where nothing is stored, at any depth.
use adp_pro.Prelude.{
  String, ◌==◌, string_eq, ◌≡◌, refl, ◌∙◌, sym, ap, subst, Bool, true, false, Option, none, some,
  List, [], ◌∷◌, if◌then◌else◌, arith, Bool-cases, Option-cases, inl, inr,
}
use adp_pro.Settings.Store.{
  Json, null, boolean, number, text, array, object, Members, no_members, member, lookup, assign,
  merge_value, deep_merge, load, holds,
}

-- No object names a key twice.
unfoldable mutual
  pub IsDeep : Json → Type 0
  IsDeep (object m) = AreDeep m
  IsDeep null = Unit
  IsDeep (boolean b) = Unit
  IsDeep (number n) = Unit
  IsDeep (text s) = Unit
  IsDeep (array n) = Unit

  pub AreDeep : Members → Type 0
  AreDeep no_members = Unit
  AreDeep (member k v rest) = (lookup k rest ≡ none) × IsDeep v × AreDeep rest

-- The value at a path of keys.
abbrev pub and_at : (Json → Option Json) → Option Json → Option Json
and_at f none = none
and_at f (some v) = f v

abbrev pub at : List String → Json → Option Json
at [] v = some v
at (k ∷ ks) (object m) = and_at (at ks) (lookup k m)
at (k ∷ ks) _ = none

abbrev pub is_object : Json → Bool
is_object (object m) = true
is_object _ = false

abbrev pub or_silent : (Json → Bool) → Option Json → Bool
or_silent f none = true
or_silent f (some v) = f v

-- Nothing is stored at the path or in place of what it goes through.
abbrev pub is_silent : List String → Json → Bool
is_silent [] v = false
is_silent (k ∷ ks) (object m) = or_silent (is_silent ks) (lookup k m)
is_silent (k ∷ ks) _ = false

lookup-assign :
    (k j : String) (v : Json) (m : Members)
    → lookup j (assign k v m) ≡ (if k == j then some v else lookup j m)
unfolding lookup assign
lookup-assign k j v no_members = refl
lookup-assign k j v (member i w m) = ground (
  arith,
  lookup-assign k j v m,
  string_eq.is_same_iff i k,
  string_eq.is_same_iff i j,
  string_eq.is_same_iff k j,
)

abbrev merged : Option Json → Option Json → Option Json
merged none old = old
merged (some v) old = some (merge_value v old)

merged-assign :
    (k j : String) (v : Json) (stored : Option Json) (base : Members)
    → (j ≡ k → stored ≡ none)
    → merged stored (lookup k (assign j (merge_value v (lookup j base)) base))
      ≡ merged (if j == k then some v else stored) (lookup k base)
merged-assign k j v stored base absent = elim (Bool-cases (j == k)) [
  | inl e ↦
      let same : j ≡ k = (string_eq.is_same_iff j k).0 e in
      rw (lookup-assign j k (merge_value v (lookup j base)) base, e, absent same)
        (ap (λ i. some (merge_value v (lookup i base))) same)
  | inr e ↦ rw (lookup-assign j k (merge_value v (lookup j base)) base, e) refl
]

lookup-deep_merge :
    (k : String) (o base : Members)
    → AreDeep o
    → lookup k (deep_merge o base) ≡ merged (lookup k o) (lookup k base)
unfolding lookup deep_merge AreDeep
lookup-deep_merge k no_members base d = refl
lookup-deep_merge k (member j v rest) base d =
    lookup-deep_merge k rest (assign j (merge_value v (lookup j base)) base) d.2
    ∙ merged-assign k j v (lookup k rest) base λ same. subst (λ i. lookup i rest ≡ none) same d.0

lookup-IsDeep : (k : String) (m : Members) (v : Json) → AreDeep m → lookup k m ≡ some v → IsDeep v
unfolding lookup AreDeep
lookup-IsDeep k no_members v d e = absurd (ground arith)
lookup-IsDeep k (member j w rest) v d e = elim (Bool-cases (j == k)) [
  | inl s ↦ subst IsDeep (ground (arith, e, s)) d.1
  | inr s ↦ lookup-IsDeep k rest v d.2 (ground (arith, e, s))
]

leaf-merge_value : (v : Json) (old : Option Json) → is_object v ≡ false → merge_value v old ≡ v
unfolding merge_value
leaf-merge_value null old h = refl
leaf-merge_value (boolean b) old h = refl
leaf-merge_value (number n) old h = refl
leaf-merge_value (text s) old h = refl
leaf-merge_value (array n) old h = refl
leaf-merge_value (object m) old h = absurd (ground arith)

-- An object over anything is that object, or merged with it.
object-merge_value {ℓ} :
    (P : Json → Type ℓ) (m : Members) (old : Option Json)
    → P (object m)
    → ((b : Members) → P (object (deep_merge m b)))
    → P (merge_value (object m) old)
unfolding merge_value
object-merge_value P m none x f = x
object-merge_value P m (some null) x f = x
object-merge_value P m (some (boolean b)) x f = x
object-merge_value P m (some (number n)) x f = x
object-merge_value P m (some (text s)) x f = x
object-merge_value P m (some (array n)) x f = x
object-merge_value P m (some (object b)) x f = f b

-- What is found behind a key that is found.
at-inside :
    (k : String) (ks : List String) (m : Members) (v : Json)
    → at (k ∷ ks) (object m) ≡ some v
    → (u : Json) × (lookup k m ≡ some u) × (at ks u ≡ some v)
at-inside k ks m v e = elim (Option-cases (lookup k m)) [
  | inl n ↦ absurd (ground (arith, e, n))
  | inr (u, n) ↦ (u, n, rw (ap (and_at (at ks)) n) at e)
]

stored-at :
    (path : List String) (u v : Json) (old : Option Json)
    → IsDeep u
    → at path u ≡ some v
    → is_object v ≡ false
    → at path (merge_value u old) ≡ some v
stored-at [] u v old d e h =
    let same : u ≡ v = cc in
    ap some (leaf-merge_value u old (subst (λ j. is_object j ≡ false) (sym same) h)) ∙ e
stored-at (k ∷ ks) null v old d e h = absurd (ground arith)
stored-at (k ∷ ks) (boolean b) v old d e h = absurd (ground arith)
stored-at (k ∷ ks) (number n) v old d e h = absurd (ground arith)
stored-at (k ∷ ks) (text s) v old d e h = absurd (ground arith)
stored-at (k ∷ ks) (array n) v old d e h = absurd (ground arith)
stored-at (k ∷ ks) (object m) v old d e h =
    let (u, found, inside) = at-inside k ks m v e in
    let deep : AreDeep m = unfold IsDeep in d in
    object-merge_value (λ j. at (k ∷ ks) j ≡ some v) m old e
      λ b.
        ap (and_at (at ks)) (lookup-deep_merge k m b deep ∙ ap (λ o. merged o (lookup k b)) found)
        ∙ stored-at ks u v (lookup k b) (lookup-IsDeep k m u deep found) inside h

silent-at :
    (path : List String) (u old v : Json)
    → IsDeep u
    → is_silent path u ≡ true
    → at path old ≡ some v
    → at path (merge_value u (some old)) ≡ some v
unfolding merge_value
silent-at [] u old v d q e = absurd (ground (arith, q))
silent-at (k ∷ ks) null old v d q e = absurd (ground (arith, q))
silent-at (k ∷ ks) (boolean b) old v d q e = absurd (ground (arith, q))
silent-at (k ∷ ks) (number n) old v d q e = absurd (ground (arith, q))
silent-at (k ∷ ks) (text s) old v d q e = absurd (ground (arith, q))
silent-at (k ∷ ks) (array n) old v d q e = absurd (ground (arith, q))
silent-at (k ∷ ks) (object m) null v d q e = absurd (ground (arith, e))
silent-at (k ∷ ks) (object m) (boolean b) v d q e = absurd (ground (arith, e))
silent-at (k ∷ ks) (object m) (number n) v d q e = absurd (ground (arith, e))
silent-at (k ∷ ks) (object m) (text s) v d q e = absurd (ground (arith, e))
silent-at (k ∷ ks) (object m) (array n) v d q e = absurd (ground (arith, e))
silent-at (k ∷ ks) (object m) (object b) v d q e =
    let deep : AreDeep m = unfold IsDeep in d in
    ap (and_at (at ks)) (lookup-deep_merge k m b deep) ∙ elim (Option-cases (lookup k m)) [
      | inl n ↦ rw n e
      | inr (u, n) ↦
          let (w, found, inside) = at-inside k ks b v e in
          rw (n, found)
            (silent-at ks u w v (lookup-IsDeep k m u deep n)
              (rw (ap (or_silent (is_silent ks)) n) at q) inside)
    ]

abbrev pub loaded_at : List String → Option Members → Option Json
loaded_at path none = none
loaded_at path (some m) = at path (object m)

-- What the settings should have at a path: the stored value, or the default where nothing is stored.
abbrev pub effective : List String → Members → Members → Option Json
effective path stored defaults =
    if is_silent path (object stored) then at path (object defaults) else at path (object stored)

-- Where the stored settings name no key twice, a load gives each single setting, at any depth, its
-- stored value, and its default where nothing is stored for it.
pub load-effective :
    (path : List String) (stored defaults : Members) (v : Json)
    → AreDeep stored
    → is_object v ≡ false
    → effective path stored defaults ≡ some v
    → loaded_at path (load defaults (holds (object stored))) ≡ some v
unfolding load
load-effective path stored defaults v d h e =
    let deep : IsDeep (object stored) = unfold IsDeep in d in
    let P : Json → Type 0 = λ j. at path j ≡ some v in
    unfold merge_value in
    elim (Bool-cases (is_silent path (object stored))) [
      | inl q ↦ silent-at path (object stored) (object defaults) v deep q (ground (arith, e, q))
      | inr q ↦
          stored-at path (object stored) v (some (object defaults)) deep (ground (arith, e, q)) h
    ]
