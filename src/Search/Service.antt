-- ===== src/Search/Service.antt =====
-- src/adp/search/service.py: the providers that are asked, what becomes of their answers, and the
-- removal of duplicates. The requests are outside: a provider answers. The comparison of the ranker,
-- on floats of `math`, is given.
use adp_pro.Prelude.{
  max, String, ◌==◌, Key, string_eq, ◌≡◌, ap, ◌↔◌, arith, Bool, true, false, Option, none, some,
  not, List, [], ◌∷◌, ◌++◌, if◌then◌else◌, any, filter, take,
}
use adp_pro.Prelude.Dict.{Dict, get, put, values}
use adp_pro.Search.Models.{
  SearchResult, SearchQuery, or_text, or_number, or_date, Identity, hash, title, identity,
}

-- The settings of a provider: no dictionary, or its `enabled`.
pub data Setting : Type 0 where
  no_dict : Setting
  enabled : Bool → Setting

abbrev pub is_enabled : Setting → Bool
is_enabled no_dict = false
is_enabled (enabled b) = b

-- The names of the providers that are enabled and registered.
unfoldable pub enabled_names : (String → Bool) → Dict String Setting → List String
enabled_names registered [] = []
enabled_names registered ((name, s) ∷ rest) =
    let later = enabled_names registered rest in
    if is_enabled s then (if registered name then name ∷ later else later) else later

-- Those that the query names, if it names any.
unfoldable pub wanted : SearchQuery → List String → List String
wanted q names = elim q.providers [
  | [] ↦ names
  | n ∷ ns ↦ filter (λ name. any (λ m. m == name) (n ∷ ns)) names
]

-- What the search of a provider returns, or the exception that it raises.
pub data Answer : Type 0 where
  found : List SearchResult → Answer
  provider_error unexpected : String → Answer

pub record SearchOutcome : Type 0 where
  pub results : List SearchResult
  pub providers_queried : List String
  pub errors : Dict String String

unfoldable pub note : String → Answer → SearchOutcome → SearchOutcome
note name (found rs) o = record o { results = o.results ++ rs }
note name (provider_error message) o = record o { errors = put o.errors name message }
note name (unexpected message) o = record o { errors = put o.errors name message }

unfoldable pub gather : (String → Answer) → List String → SearchOutcome → SearchOutcome
gather answer [] o = o
gather answer (name ∷ names) o = gather answer names (note name (answer name) o)

-- The later result goes into the earlier one.
unfoldable pub merge : SearchResult → SearchResult → SearchResult
merge existing r = record existing {
  sources = existing.sources ++ r.sources;
  seeders = max existing.seeders r.seeders;
  leechers = max existing.leechers r.leechers;
  magnet = or_text existing.magnet r.magnet;
  size_bytes = or_number existing.size_bytes r.size_bytes;
  published = or_date existing.published r.published;
  category = or_text existing.category r.category;
}

abbrev pub identity_same : Identity → Identity → Bool
identity_same (hash a) (hash b) = a == b
identity_same (title a) (title b) = a == b
identity_same _ _ = false

pub identity_same_iff : (a b : Identity) → (identity_same a b ≡ true) ↔ (a ≡ b)
identity_same_iff (hash a) (hash b) =
    ((λ e. ap hash ((string_eq.is_same_iff a b).0 e)), λ e. (string_eq.is_same_iff a b).1 (cc))
identity_same_iff (title a) (title b) =
    ((λ e. ap title ((string_eq.is_same_iff a b).0 e)), λ e. (string_eq.is_same_iff a b).1 (cc))
identity_same_iff (hash a) (title b) = ground arith
identity_same_iff (title a) (hash b) = ground arith

instance abbrev pub identity_eq : Key Identity
identity_eq = record { is_same = identity_same; is_same_iff = identity_same_iff }

abbrev pub absorbed : SearchResult → Option SearchResult → SearchResult
absorbed r none = r
absorbed r (some existing) = merge existing r

unfoldable pub absorb :
    (SearchResult → Identity)
    → SearchResult
    → Dict Identity SearchResult
    → Dict Identity SearchResult
absorb identity r merged = put merged (identity r) (absorbed r (get merged (identity r)))

unfoldable pub absorb_all :
    (SearchResult → Identity)
    → List SearchResult
    → Dict Identity SearchResult
    → Dict Identity SearchResult
absorb_all identity [] merged = merged
absorb_all identity (r ∷ rest) merged = absorb_all identity rest (absorb identity r merged)

unfoldable pub dedupe : (SearchResult → Identity) → List SearchResult → List SearchResult
dedupe identity results = values (absorb_all identity results [])

-- Python's stable `sorted`, by what stands ahead of what.
unfoldable pub insert_ranked {ℓ} : {A : Type ℓ} → (A → A → Bool) → A → List A → List A
insert_ranked ahead x [] = x ∷ []
insert_ranked ahead x (y ∷ ys) =
    let rest = insert_ranked ahead x ys in if ahead y x then y ∷ rest else x ∷ y ∷ ys

unfoldable pub rank {ℓ} : {A : Type ℓ} → (A → A → Bool) → List A → List A
rank ahead [] = []
rank ahead (x ∷ xs) = insert_ranked ahead x (rank ahead xs)

-- What a search is given: the registry, the constructors, the settings, the answers, and two comparisons, of results
-- and of names.
pub record Providers : Type 0 where
  pub registered : String → Bool
  -- The construction of the provider from its settings raises nothing.
  pub is_made : String → Bool
  pub settings : Dict String Setting
  pub answer : SearchQuery → String → Answer
  pub normal : String → String
  pub ahead : SearchResult → SearchResult → Bool
  pub name_ahead : String → String → Bool

unfoldable pub providers_for : Providers → SearchQuery → List String
providers_for p q = wanted q (enabled_names p.registered p.settings)

abbrev pub no_results : List String → SearchOutcome
no_results names = record { results = []; providers_queried = names; errors = [] }

-- Without providers nothing is asked.
unfoldable pub ask : Providers → SearchQuery → List String → SearchOutcome → SearchOutcome
ask p q [] o = o
ask p q (n ∷ ns) o =
    let o' = gather (p.answer q) (n ∷ ns) o in
    record o' { results = take q.limit (rank p.ahead (dedupe (identity p.normal) o'.results)) }

unfoldable pub run_search : Providers → SearchQuery → SearchOutcome
run_search p q =
    let names = providers_for p q in ask p q names (no_results (rank p.name_ahead names))

-- The providers that are enabled, all of them made: an error in the construction of one is raised.
unfoldable pub enabled_providers : Providers → Option (List String)
enabled_providers p =
    let names = enabled_names p.registered p.settings in
    if any (λ name. not (p.is_made name)) names then none else some names

-- What is raised by the construction ends the search.
unfoldable pub search : Providers → SearchQuery → Option SearchOutcome
search p q = elim (enabled_providers p) [ none ↦ none | some names ↦ some (run_search p q) ]
