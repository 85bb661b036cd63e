-- ===== src/Search/Merged.antt =====
-- Duplicates: each identity that is found, once, with all that was found of it.
use adp_pro.Prelude.{
  ◌==◌, beq_refl, string_eq, ◌≡◌, refl, ap, ◌∙◌, sym, Bool, true, false, ◌||◌, Option, none, some,
  List, [], ◌∷◌, ◌++◌, if◌then◌else◌, if_rule, any, filter, All, subst, map, arith, Bool-cases, inl,
  inr,
}
use adp_pro.Prelude.Dict.{Dict, get, put, contains, keys, values, get-put}
use adp_pro.Search.Models.{SearchResult, Identity}
use adp_pro.Search.Service.{identity_eq, merge, absorbed, absorb, absorb_all, dedupe}

-- The specification, which has no table: the identities in the order in which they are first seen.
abbrev pub see : Identity → List Identity → List Identity
see k ks = if any (λ j. j == k) ks then ks else ks ++ k ∷ []

abbrev pub first_seen : List Identity → List Identity → List Identity
first_seen seen [] = seen
first_seen seen (k ∷ ks) = first_seen (see k seen) ks

-- All the results of a list, in their order, as one.
abbrev pub merge_onto : Option SearchResult → List SearchResult → Option SearchResult
merge_onto o [] = o
merge_onto none (r ∷ rs) = merge_onto (some r) rs
merge_onto (some existing) (r ∷ rs) = merge_onto (some (merge existing r)) rs

abbrev pub with_some {ℓ} : {A : Type ℓ} → Option A → List A → List A
with_some none xs = xs
with_some (some x) xs = x ∷ xs

abbrev pub the_somes {ℓ κ} : {A : Type ℓ} {B : Type κ} → (A → Option B) → List A → List B
the_somes f [] = []
the_somes f (x ∷ xs) = with_some (f x) (the_somes f xs)

abbrev pub grouped : (SearchResult → Identity) → List SearchResult → List SearchResult
grouped identity_of results =
    the_somes (λ k. merge_onto none (filter (λ r. identity_of r == k) results))
      (first_seen [] (map identity_of results))

any-keys :
    (d : Dict Identity SearchResult) (k : Identity) → any (λ j. j == k) (keys d) ≡ contains d k
unfolding get
any-keys [] k = refl
any-keys ((j, r) ∷ d) k = ground (arith, any-keys d k)

keys-put :
    (d : Dict Identity SearchResult) (k : Identity) (r : SearchResult)
    → keys (put d k r) ≡ see k (keys d)
unfolding put
keys-put [] k r = refl
keys-put ((j, s) ∷ d) k r = ground (arith, keys-put d k r)

onto-absorbed :
    (r : SearchResult) (o : Option SearchResult) → merge_onto o (r ∷ []) ≡ some (absorbed r o)
onto-absorbed r none = refl
onto-absorbed r (some x) = refl

onto-onto :
    (o : Option SearchResult) (r : SearchResult) (rs : List SearchResult)
    → merge_onto (some (absorbed r o)) rs ≡ merge_onto o (r ∷ rs)
onto-onto none r rs = refl
onto-onto (some x) r rs = refl

if_under {ℓ κ} :
    {A : Type ℓ} {B : Type κ} (f : A → B) (b : Bool) (x y : A)
    → f (if b then x else y) ≡ (if b then f x else f y)
if_under f true x y = refl
if_under f false x y = refl

module _ (identity_of : SearchResult → Identity) where
  keys-absorb_all :
      (rs : List SearchResult) (d : Dict Identity SearchResult)
      → keys (absorb_all identity_of rs d) ≡ first_seen (keys d) (map identity_of rs)
  unfolding absorb_all absorb
  keys-absorb_all [] d = refl
  keys-absorb_all (r ∷ rs) d =
      keys-absorb_all rs (absorb identity_of r d)
      ∙ ap (λ ks. first_seen ks (map identity_of rs))
          (keys-put d (identity_of r) (absorbed r (get d (identity_of r))))

  get-absorb :
      (r : SearchResult) (rs : List SearchResult) (d : Dict Identity SearchResult) (k : Identity)
      → merge_onto (get (absorb identity_of r d) k) rs
        ≡ (if identity_of r == k then merge_onto (get d k) (r ∷ rs) else merge_onto (get d k) rs)
  unfolding absorb
  get-absorb r rs d k = elim (Bool-cases (identity_of r == k)) [
    | inl s ↦
        let i : identity_of r ≡ k = (identity_eq.is_same_iff (identity_of r) k).0 s in
        rw (get-put d (identity_of r) k (absorbed r (get d (identity_of r))), s, i)
          (onto-onto (get d k) r rs)
    | inr n ↦ rw (get-put d (identity_of r) k (absorbed r (get d (identity_of r))), n) refl
  ]

  get-absorb_all :
      (rs : List SearchResult) (d : Dict Identity SearchResult) (k : Identity)
      → get (absorb_all identity_of rs d) k
        ≡ merge_onto (get d k) (filter (λ r. identity_of r == k) rs)
  unfolding absorb_all
  get-absorb_all [] d k = refl
  get-absorb_all (r ∷ rs) d k =
      get-absorb_all rs (absorb identity_of r d) k
      ∙ get-absorb r (filter (λ r. identity_of r == k) rs) d k
      ∙ sym (if_under (merge_onto (get d k)) (identity_of r == k) _ _)

abbrev AreDistinct : List Identity → Type 0
AreDistinct [] = Unit
AreDistinct (k ∷ ks) = (any (λ j. j == k) ks ≡ false) × AreDistinct ks

the_somes-ext {ℓ κ} :
    {A : Type ℓ} {B : Type κ} (f g : A → Option B) (xs : List A)
    → All (λ x. f x ≡ g x) xs
    → the_somes f xs ≡ the_somes g xs
the_somes-ext f g [] h = refl
the_somes-ext f g (x ∷ xs) h = rw (h.0, the_somes-ext f g xs h.1) refl

others-get :
    (k : Identity) (r : SearchResult) (d : Dict Identity SearchResult) (ks : List Identity)
    → any (λ j. j == k) ks ≡ false
    → All (λ j. get d j ≡ get ((k, r) ∷ d) j) ks
unfolding get
others-get k r d [] n = tt
others-get k r d (j ∷ ks) n = (
  ground (arith, n, identity_eq.is_same_iff k j, identity_eq.is_same_iff j k),
  others-get k r d ks (ground (arith, n)),
)

-- A table without two entries of a key is what its keys look up.
values-get :
    (d : Dict Identity SearchResult) → AreDistinct (keys d) → values d ≡ the_somes (get d) (keys d)
values-get [] h = refl
values-get ((k, r) ∷ d) h =
    let first : get ((k, r) ∷ d) k ≡ some r = unfold get in rw (beq_refl k) refl in
    rw first (
      ap (λ (xs : List SearchResult). r ∷ xs)
        (values-get d h.1
          ∙ the_somes-ext (get d) (get ((k, r) ∷ d)) (keys d) (others-get k r d (keys d) h.0)))

any-append :
    (k j : Identity) (ks : List Identity)
    → any (λ i. i == k) (ks ++ j ∷ []) ≡ any (λ i. i == k) ks || j == k
any-append k j [] = ground arith
any-append k j (i ∷ ks) = ground (arith, any-append k j ks)

append-AreDistinct :
    (k : Identity) (ks : List Identity)
    → any (λ j. j == k) ks ≡ false
    → AreDistinct ks
    → AreDistinct (ks ++ k ∷ [])
append-AreDistinct k [] n h = (refl, tt)
append-AreDistinct k (j ∷ ks) n h = (
  ground
      (arith, any-append j k ks, n, h.0, identity_eq.is_same_iff j k, identity_eq.is_same_iff k j),
  append-AreDistinct k ks (ground (arith, n)) h.1,
)

see-AreDistinct : (k : Identity) (ks : List Identity) → AreDistinct ks → AreDistinct (see k ks)
see-AreDistinct k ks h =
    if_rule AreDistinct (any (λ j. j == k) ks) _ _ (λ e. h) λ n. append-AreDistinct k ks n h

first_seen-AreDistinct :
    (ks seen : List Identity) → AreDistinct seen → AreDistinct (first_seen seen ks)
first_seen-AreDistinct [] seen h = h
first_seen-AreDistinct (k ∷ ks) seen h =
    first_seen-AreDistinct ks (see k seen) (see-AreDistinct k seen h)

-- The results without duplicates are those of the specification: each identity once, in the order
-- in which it was first seen, with everything merged that has it.
pub dedupe-grouped :
    (identity_of : SearchResult → Identity) (results : List SearchResult)
    → dedupe identity_of results ≡ grouped identity_of results
unfolding dedupe get
dedupe-grouped identity_of results =
    let d : Dict Identity SearchResult = absorb_all identity_of results [] in
    let ks = keys-absorb_all identity_of results [] in
    values-get d
      (subst AreDistinct (sym ks) (first_seen-AreDistinct (map identity_of results) [] tt))
    ∙ (ap (λ f. the_somes f (keys d)) (λ i k. get-absorb_all identity_of results [] k i)
        ∙ ap (the_somes (λ k. merge_onto none (filter (λ r. identity_of r == k) results))) ks)
