-- ===== src/Search/Tests.antt =====
-- A concrete search: two providers report one torrent, a third one fails.
use adp_pro.Prelude.{
  ℕ, ◌≡◌, refl, String, string_eq, Bool, true, false, none, some, [], ◌∷◌, arith, ltb, ◌==◌,
  if◌then◌else◌,
}
use adp_pro.Prelude.Dict.{get, put}
use adp_pro.Search.Models.{SearchResult, SearchQuery, identity}
use adp_pro.Search.Service.{
  enabled, no_dict, Answer, found, provider_error, Providers, dedupe, absorb_all, absorb, merge,
  run_search, search, SearchOutcome, providers_for, enabled_names, enabled_providers, wanted, ask,
  gather, note, rank, insert_ranked,
}
use adp_pro.Search.Merged.{grouped, dedupe-grouped}
use adp_pro.Search.Isolated.{without_failing, search-isolates}

abbrev film : ℕ → SearchResult
film n = record {
  title = "Film";
  infohash = some "abc";
  magnet = none;
  size_bytes = some n;
  published = none;
  category = none;
  seeders = n;
  leechers = 2;
  sources = [];
}

abbrev song : SearchResult
song = record (film 9) { title = "Song"; infohash = none }

abbrev by_seeders : SearchResult → SearchResult → Bool
by_seeders a b = ltb b.seeders a.seeders

abbrev answer : SearchQuery → String → Answer
answer q name =
    if name == "one"
    then found (film 4 ∷ song ∷ [])
    else if name == "two"
    then found (film 7 ∷ [])
    else provider_error "down"

abbrev providers : Providers
providers = record {
  registered = λ name. true;
  is_made = λ name. true;
  settings =
      ("one", enabled true) ∷ ("bad", enabled true) ∷ ("two", enabled true) ∷ ("off", no_dict) ∷ [];
  answer = answer;
  normal = λ t. t;
  ahead = by_seeders;
  name_ahead = λ a b. false;
}

abbrev query : SearchQuery
query = record { text = "film"; category = none; providers = []; limit = 50 }

-- The film is there once, with the greater number of seeders.
search_found : (run_search providers query).results ≡ song ∷ record (film 4) { seeders = 7 } ∷ []
unfolding run_search providers_for enabled_names wanted ask gather note dedupe absorb_all absorb
    identity merge rank insert_ranked get put
search_found = refl

dedupe-grouped_example :
    dedupe (identity (λ t. t)) (film 4 ∷ song ∷ film 7 ∷ [])
    ≡ grouped (identity (λ t. t)) (film 4 ∷ song ∷ film 7 ∷ [])
dedupe-grouped_example = dedupe-grouped (identity (λ t. t)) (film 4 ∷ song ∷ film 7 ∷ [])

search-isolates_example :
    ((o' : SearchOutcome) × (search (without_failing query providers) query ≡ some o')
      × ((run_search providers query).results ≡ o'.results))
    × (get (run_search providers query).errors "bad" ≡ some "down")
unfolding providers_for enabled_names wanted search enabled_providers
search-isolates_example = search-isolates providers query "bad" (run_search providers query) refl

by_seeders_asym : (a b : SearchResult) → by_seeders a b ≡ true → by_seeders b a ≡ false
by_seeders_asym a b h = ground arith
