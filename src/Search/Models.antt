-- ===== src/Search/Models.antt =====
-- src/adp/search/models.py. A date is a number of seconds. Titles are normalised, and texts stripped,
-- by Python's own functions, which are given.
use adp_pro.Prelude.{
  ℕ, zero, suc, String, ◌==◌, string_eq, Option, none, some, List, if◌then◌else◌, min, max,
}

pub record SourceHit : Type 0 where
  pub provider : String
  pub tracker : Option String
  pub seeders : Option ℕ
  pub leechers : Option ℕ
  pub details_url : Option String

pub record SearchResult : Type 0 where
  pub title : String
  pub infohash : Option String
  pub magnet : Option String
  pub size_bytes : Option ℕ
  pub published : Option ℕ
  pub category : Option String
  pub seeders : ℕ
  pub leechers : ℕ
  pub sources : List SourceHit

pub record SearchQuery : Type 0 where
  pub text : String
  pub category : Option String
  pub providers : List String
  pub limit : ℕ

-- `__post_init__`: none where it raises. A negative limit counts as 0.
unfoldable pub new_query :
    (String → String) → String → Option String → List String → ℕ → Option SearchQuery
new_query strip text category providers limit =
    if strip text == ""
    then none
    else some (record {
      text = strip text;
      category = category;
      providers = providers;
      limit = max 1 (min limit 200);
    })

-- `a or b`: an empty text and a zero do not count.
abbrev pub or_text : Option String → Option String → Option String
or_text none b = b
or_text (some s) b = if s == "" then b else some s

abbrev pub or_number : Option ℕ → Option ℕ → Option ℕ
or_number none b = b
or_number (some zero) b = b
or_number (some (suc n)) b = some (suc n)

abbrev pub or_date : Option ℕ → Option ℕ → Option ℕ
or_date none b = b
or_date (some t) b = some t

-- `identity`: a hash, or a normalised title.
pub data Identity : Type 0 where
  hash title : String → Identity

unfoldable pub identity : (String → String) → SearchResult → Identity
identity normal r = elim r.infohash [
  | none ↦ title (normal r.title)
  | some h ↦ if h == "" then title (normal r.title) else hash h
]

-- The link is built by its caller's `link`: "magnet:?xt=urn:btih:" and the hash.
unfoldable pub ensure_magnet : (String → String) → SearchResult → Option String
ensure_magnet link r = elim (or_text r.magnet none) [
  | some m ↦ some m
  | none ↦ elim (or_text r.infohash none) [ none ↦ none | some h ↦ some (link h) ]
]
