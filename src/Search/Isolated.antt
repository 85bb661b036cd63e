-- ===== src/Search/Isolated.antt =====
-- A provider that fails costs its own results and no others; the results are limited and ranked.
use adp_pro.Prelude.{
  ℕ, zero, suc, String, ◌==◌, string_eq, ◌≡◌, refl, ap, ◌∙◌, sym, Bool, true, false, ◌&&◌, not,
  Option, none, some, List, [], ◌∷◌, ◌++◌, if◌then◌else◌, any, filter, take, arith, Bool-cases, inl,
  inr,
}
use adp_pro.Prelude.Dict.{Dict, get, get-put}
use adp_pro.Search.Models.{SearchResult, SearchQuery, identity}
use adp_pro.Search.Service.{
  Setting, enabled_names, enabled_providers, wanted, Answer, found, provider_error, unexpected,
  SearchOutcome, note, gather, dedupe, rank, Providers, providers_for, no_results, ask, run_search,
  search, absorb_all,
}

abbrev pub is_found : Answer → Bool
is_found (found rs) = true
is_found _ = false

abbrev pub message_of : Answer → Option String
message_of (found rs) = none
message_of (provider_error m) = some m
message_of (unexpected m) = some m

-- The providers that answer, asked alone.
abbrev pub without_failing : SearchQuery → Providers → Providers
without_failing q p = record p { registered = λ n. p.registered n && is_found (p.answer q n) }

abbrev pub those_found : (String → Answer) → List String → List String
those_found answer names = filter (λ n. is_found (answer n)) names

enabled-found :
    (registered : String → Bool) (answer : String → Answer) (settings : Dict String Setting)
    → enabled_names (λ n. registered n && is_found (answer n)) settings
      ≡ those_found answer (enabled_names registered settings)
unfolding enabled_names
enabled-found registered answer [] = refl
enabled-found registered answer ((n, s) ∷ rest) =
    ground (arith, enabled-found registered answer rest)

filter_comm {ℓ} :
    {A : Type ℓ} (f g : A → Bool) (xs : List A) → filter f (filter g xs) ≡ filter g (filter f xs)
filter_comm f g [] = refl
filter_comm f g (x ∷ xs) = ground (arith, filter_comm f g xs)

wanted-found :
    (q : SearchQuery) (answer : String → Answer) (names : List String)
    → wanted q (those_found answer names) ≡ those_found answer (wanted q names)
unfolding wanted
wanted-found q answer names = go q.providers
  where
    go :
        (ps : List String)
        → elim ps as (λ x. List String) [
          | [] ↦ those_found answer names
          | n ∷ ns ↦ filter (λ name. any (λ m. m == name) (n ∷ ns)) (those_found answer names)
        ]
          ≡ those_found answer (elim ps as (λ x. List String) [
            | [] ↦ names
            | n ∷ ns ↦ filter (λ name. any (λ m. m == name) (n ∷ ns)) names
          ])
    go [] = refl
    go (n ∷ ns) =
        filter_comm (λ name. any (λ m. m == name) (n ∷ ns)) (λ n. is_found (answer n)) names

note-found :
    (answer : String → Answer) (a : Answer) (n : String) (ks ns : List String)
    (o o' : SearchOutcome)
    → answer n ≡ a
    → o'.results ≡ o.results
    → ((u u' : SearchOutcome)
        → u'.results ≡ u.results
        → (gather answer ks u').results ≡ (gather answer ns u).results)
    → (gather answer (if is_found a then n ∷ ks else ks) o').results
      ≡ (gather answer ns (note n a o)).results
unfolding gather note
note-found answer (found rs) n ks ns o o' e h go =
    rw e (go (note n (found rs) o) (note n (found rs) o') (ap (λ xs. xs ++ rs) h))
note-found answer (provider_error m) n ks ns o o' e h go = go (note n (provider_error m) o) o' h
note-found answer (unexpected m) n ks ns o o' e h go = go (note n (unexpected m) o) o' h

gather-found :
    (answer : String → Answer) (names : List String) (o o' : SearchOutcome)
    → o'.results ≡ o.results
    → (gather answer (those_found answer names) o').results ≡ (gather answer names o).results
unfolding gather
gather-found answer [] o o' e = e
gather-found answer (n ∷ ns) o o' e =
    note-found answer (answer n) n (those_found answer ns) ns o o' refl e
      λ u u' h. gather-found answer ns u u' h

note-errors :
    (a : Answer) (name n : String) (o : SearchOutcome)
    → get (note name a o).errors n
      ≡ (if name == n && not (is_found a) then message_of a else get o.errors n)
unfolding note
note-errors (found rs) name n o = ground arith
note-errors (provider_error m) name n o = ground (arith, get-put o.errors name n m)
note-errors (unexpected m) name n o = ground (arith, get-put o.errors name n m)

gather-errors :
    (answer : String → Answer) (names : List String) (o : SearchOutcome) (n : String)
    → get (gather answer names o).errors n ≡ (
        if any (λ m. m == n) names && not (is_found (answer n))
        then message_of (answer n)
        else get o.errors n)
unfolding gather
gather-errors answer [] o n = refl
gather-errors answer (name ∷ names) o n = elim (Bool-cases (name == n)) [
  | inl e ↦
      let same : name ≡ n = (string_eq.is_same_iff name n).0 e in
      ground (
        arith,
        e,
        same,
        gather-errors answer names (note name (answer name) o) n,
        note-errors (answer name) name n o,
        ap answer same,
      )
  | inr e ↦ ground (
    arith,
    e,
    gather-errors answer names (note name (answer name) o) n,
    note-errors (answer name) name n o,
  )
]

take-none {ℓ} : {A : Type ℓ} (n : ℕ) → take {A = A} n [] ≡ []
take-none zero = refl
take-none (suc n) = refl

abbrev pub raw_results : Providers → SearchQuery → List SearchResult
raw_results p q = (gather (p.answer q) (providers_for p q) (no_results [])).results

note-results :
    (a : Answer) (name : String) (o o' : SearchOutcome)
    → o'.results ≡ o.results
    → (note name a o').results ≡ (note name a o).results
unfolding note
note-results (found rs) name o o' e = ap (λ xs. xs ++ rs) e
note-results (provider_error m) name o o' e = e
note-results (unexpected m) name o o' e = e

gather-results :
    (answer : String → Answer) (names : List String) (o o' : SearchOutcome)
    → o'.results ≡ o.results
    → (gather answer names o').results ≡ (gather answer names o).results
unfolding gather
gather-results answer [] o o' e = e
gather-results answer (n ∷ ns) o o' e =
    gather-results answer ns (note n (answer n) o) (note n (answer n) o')
      (note-results (answer n) n o o' e)

ask-results :
    (p : Providers) (q : SearchQuery) (names sorted : List String)
    → (ask p q names (no_results sorted)).results
      ≡ take q.limit (
          rank p.ahead
            (dedupe (identity p.normal) (gather (p.answer q) names (no_results [])).results))
unfolding ask
ask-results p q [] sorted = unfold gather dedupe absorb_all rank in sym (take-none q.limit)
ask-results p q (n ∷ ns) sorted =
    ap (λ rs. take q.limit (rank p.ahead (dedupe (identity p.normal) rs)))
      (gather-results (p.answer q) (n ∷ ns) (no_results []) (no_results sorted) refl)

pub search-results :
    (p : Providers) (q : SearchQuery)
    → (run_search p q).results
      ≡ take q.limit (rank p.ahead (dedupe (identity p.normal) (raw_results p q)))
unfolding run_search
search-results p q = ask-results p q (providers_for p q) (rank p.name_ahead (providers_for p q))

ask-errors :
    (p : Providers) (q : SearchQuery) (names : List String) (o : SearchOutcome)
    → (ask p q names o).errors ≡ (gather (p.answer q) names o).errors
unfolding ask
ask-errors p q [] o = unfold gather in refl
ask-errors p q (n ∷ ns) o = refl

raw_results-found :
    (p : Providers) (q : SearchQuery) → raw_results (without_failing q p) q ≡ raw_results p q
unfolding providers_for
raw_results-found p q =
    ap (λ names. (gather (p.answer q) names (no_results [])).results)
      (ap (wanted q) (enabled-found p.registered (p.answer q) p.settings)
        ∙ wanted-found q (p.answer q) (enabled_names p.registered p.settings))
    ∙ gather-found (p.answer q) (providers_for p q) (no_results []) (no_results []) refl

run_search-isolates :
    (p : Providers) (q : SearchQuery) (n : String)
    → ((run_search p q).results ≡ (run_search (without_failing q p) q).results)
      × (get (run_search p q).errors n ≡ (
          if any (λ m. m == n) (providers_for p q) && not (is_found (p.answer q n))
          then message_of (p.answer q n)
          else none))
run_search-isolates p q n = (
  search-results p q
      ∙ ap (λ rs. take q.limit (rank p.ahead (dedupe (identity p.normal) rs)))
          (sym (raw_results-found p q))
      ∙ sym (search-results (without_failing q p) q),
  unfold run_search get in
      ap (λ d. get d n)
        (ask-errors p q (providers_for p q) (no_results (rank p.name_ahead (providers_for p q))))
      ∙ gather-errors (p.answer q) (providers_for p q)
          (no_results (rank p.name_ahead (providers_for p q))) n,
)

any-those_found :
    (f : String → Bool) (answer : String → Answer) (names : List String)
    → any f names ≡ false
    → any f (those_found answer names) ≡ false
any-those_found f answer [] h = refl
any-those_found f answer (n ∷ ns) h = let rest = any-those_found f answer ns in ground arith

-- A search is carried out unless the construction of an enabled provider raises.
search-some :
    (p : Providers) (q : SearchQuery) (o : SearchOutcome)
    → search p q ≡ some o
    → (any (λ name. not (p.is_made name)) (enabled_names p.registered p.settings) ≡ false)
      × (run_search p q ≡ o)
unfolding search enabled_providers
search-some p q o h =
    elim (Bool-cases (any (λ name. not (p.is_made name)) (enabled_names p.registered p.settings))) [
      | inl bad ↦ ground arith
      | inr good ↦ ground arith
    ]

-- Where all enabled providers can be made, a provider whose search fails fails alone: the results are
-- those of the same search without the failing providers, and the errors have the message of each
-- provider that was asked and failed, and no other.
pub search-isolates :
    (p : Providers) (q : SearchQuery) (n : String) (o : SearchOutcome)
    → search p q ≡ some o
    → ((o' : SearchOutcome) × (search (without_failing q p) q ≡ some o') × (o.results ≡ o'.results))
      × (get o.errors n ≡ (
          if any (λ m. m == n) (providers_for p q) && not (is_found (p.answer q n))
          then message_of (p.answer q n)
          else none))
unfolding search enabled_providers
search-isolates p q n o h =
    let (made, e) = search-some p q o h in
    let alone = run_search-isolates p q n in
    let made' =
      any-those_found (λ name. not (p.is_made name)) (p.answer q)
        (enabled_names p.registered p.settings) made in
    let enabled = enabled-found p.registered (p.answer q) p.settings in
    let made'' = ap (any (λ name. not (p.is_made name))) enabled ∙ made' in
    (
      (
        run_search (without_failing q p) q,
        ground (arith, made''),
        ap (λ (u : SearchOutcome). u.results) (sym e) ∙ alone.0,
      ),
      ap (λ (u : SearchOutcome). get u.errors n) (sym e) ∙ alone.1,
    )
