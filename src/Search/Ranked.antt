-- ===== src/Search/Ranked.antt =====
-- The results come ranked, and not more of them than the query's limit.
use adp_pro.Prelude.{
  ℕ, zero, suc, ◌≤◌, String, string_eq, ◌≡◌, subst, sym, Bool, true, false, Option, some, List, [],
  ◌∷◌, if_rule, take, length, length-take, arith,
}
use adp_pro.Search.Models.{SearchResult, SearchQuery, new_query, identity}
use adp_pro.Search.Service.{insert_ranked, rank, Providers, run_search, dedupe}
use adp_pro.Search.Isolated.{search-results, raw_results}

module _ {ℓ} {A : Type ℓ} (ahead : A → A → Bool) where
  -- Nothing stands behind what should follow it.
  abbrev pub IsAfter : A → List A → Type 0
  IsAfter x [] = Unit
  IsAfter x (y ∷ ys) = ahead y x ≡ false

  abbrev pub IsRanked : List A → Type 0
  IsRanked [] = Unit
  IsRanked (x ∷ xs) = IsAfter x xs × IsRanked xs

  insert_ranked-IsAfter :
      (x y : A) (ys : List A)
      → ahead x y ≡ false
      → IsAfter y ys
      → IsAfter y (insert_ranked ahead x ys)
  unfolding insert_ranked
  insert_ranked-IsAfter x y [] n h = n
  insert_ranked-IsAfter x y (z ∷ ys) n h = if_rule (IsAfter y) (ahead z x) _ _ (λ e. h) λ e. n

  insert_ranked-IsRanked :
      ((a b : A) → ahead a b ≡ true → ahead b a ≡ false)
      → (x : A) (ys : List A) → IsRanked ys
      → IsRanked (insert_ranked ahead x ys)
  unfolding insert_ranked
  insert_ranked-IsRanked asym x [] h = (tt, tt)
  insert_ranked-IsRanked asym x (y ∷ ys) h =
      if_rule IsRanked (ahead y x) _ _
        (λ e. (insert_ranked-IsAfter x y ys (asym y x e) h.0, insert_ranked-IsRanked asym x ys h.1))
        λ e. (e, h)

  rank-IsRanked :
      ((a b : A) → ahead a b ≡ true → ahead b a ≡ false) → (xs : List A) → IsRanked (rank ahead xs)
  unfolding rank
  rank-IsRanked asym [] = tt
  rank-IsRanked asym (x ∷ xs) =
      insert_ranked-IsRanked asym x (rank ahead xs) (rank-IsRanked asym xs)

  take-IsAfter : (n : ℕ) (x : A) (xs : List A) → IsAfter x xs → IsAfter x (take n xs)
  take-IsAfter zero x xs h = tt
  take-IsAfter (suc n) x [] h = tt
  take-IsAfter (suc n) x (y ∷ xs) h = h

  take-IsRanked : (n : ℕ) (xs : List A) → IsRanked xs → IsRanked (take n xs)
  take-IsRanked zero xs h = tt
  take-IsRanked (suc n) [] h = tt
  take-IsRanked (suc n) (x ∷ xs) h = (take-IsAfter n x xs h.0, take-IsRanked n xs h.1)

limit_le :
    (strip : String → String) (text : String) (category : Option String) (providers : List String)
    (n : ℕ) (q : SearchQuery)
    → new_query strip text category providers n ≡ some q
    → q.limit ≤ 200
unfolding new_query
limit_le strip text category providers n q e = ground arith

-- The results of a query that was accepted are at most 200 and at most its limit, and where the
-- ranker's comparison is asymmetric, none stands behind one that it is ahead of.
search-IsRanked :
    (p : Providers) (strip : String → String) (text : String) (category : Option String)
    (providers : List String) (n : ℕ) (q : SearchQuery)
    → ((a b : SearchResult) → p.ahead a b ≡ true → p.ahead b a ≡ false)
    → new_query strip text category providers n ≡ some q
    → IsRanked p.ahead (run_search p q).results
      × (length (run_search p q).results ≤ q.limit)
      × (length (run_search p q).results ≤ 200)
search-IsRanked p strip text category providers n q asym e =
    let all : List SearchResult = dedupe (identity p.normal) (raw_results p q) in
    let k : length (take q.limit (rank p.ahead all)) ≤ q.limit =
      omega (arith, length-take q.limit (rank p.ahead all)) in
    subst (λ rs. IsRanked p.ahead rs × (length rs ≤ q.limit) × (length rs ≤ 200))
      (sym (search-results p q))
      (
        take-IsRanked p.ahead q.limit (rank p.ahead all) (rank-IsRanked p.ahead asym all),
        k,
        omega (arith, k, limit_le strip text category providers n q e),
      )
