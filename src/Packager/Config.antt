-- ===== src/Packager/Config.antt =====
-- project_packager.py: validate_check_config, over TOML values. Whether a pattern compiles is given.
use adp_pro.Prelude.{
  ℕ, ltb, ◌==◌, nat_eq, Bool, true, false, not, ◌&&◌, ◌||◌, Option, none, some, List, [], ◌∷◌,
  if◌then◌else◌,
}
use adp_pro.Files.Names.{Text}
use adp_pro.Packager.Paths.{codes, text_eq}

-- A value. An integer is a number from 0 on, or less than that; dates and fractions are of no use here.
mutual
  pub data Value : Type 0 where
    string : Text → Value
    boolean : Bool → Value
    integer below_zero : ℕ → Value
    array : Values → Value
    table : Table → Value
    other : Value

  pub data Values : Type 0 where
    nil : Values
    cons : Value → Values → Values

  -- A table names each key once.
  pub data Table : Type 0 where
    empty : Table
    with_key : Text → Value → Table → Table

pub data Expected : Type 0 where
  str bool int list_str dict_list_str dict_regex : Expected

pub record Known : Type 0 where
  pub key : Text
  pub expected : Expected

pub record Section : Type 0 where
  pub name : Text
  pub keys : List Known

abbrev known : Text → Expected → Known
known k e = record { key = k; expected = e }

abbrev section : Text → List Known → Section
section n ks = record { name = n; keys = ks }

abbrev pub config_schema : List Section
config_schema =
    section (codes "version") (known (codes "target") str ∷ known (codes "files") list_str ∷ [])
    ∷ section (codes "forbidden") (
        known (codes "allow_files") list_str
        ∷ known (codes "patterns") dict_regex
        ∷ known (codes "contains") dict_list_str
        ∷ [])
    ∷ section (codes "required")
        (known (codes "files") list_str ∷ known (codes "contains") dict_list_str ∷ [])
    ∷ section (codes "banned") (known (codes "paths") list_str ∷ [])
    ∷ section (codes "requirements")
        (known (codes "file") str ∷ known (codes "forbidden") list_str ∷ [])
    ∷ section (codes "wheel") (
        known (codes "build") bool
        ∷ known (codes "timeout") int
        ∷ known (codes "must_contain") list_str
        ∷ [])
    ∷ []

-- The names of the schema with their keys, and the keys with what they expect.
unfoldable pub find_section : Text → List Section → Option (List Known)
find_section n [] = none
find_section n (s ∷ ss) =
    let later = find_section n ss in if s.name == n then some s.keys else later

unfoldable pub find_key : Text → List Known → Option Expected
find_key k [] = none
find_key k (d ∷ ds) = let later = find_key k ds in if d.key == k then some d.expected else later

abbrev pub is_string : Value → Bool
is_string (string t) = true
is_string _ = false

abbrev pub are_strings : Values → Bool
are_strings nil = true
are_strings (cons v vs) = is_string v && are_strings vs

abbrev pub is_list_str : Value → Bool
is_list_str (array vs) = are_strings vs
is_list_str _ = false

abbrev pub each_list_str : Table → Bool
each_list_str empty = true
each_list_str (with_key k v t) = is_list_str v && each_list_str t

abbrev pub is_regex : (Text → Bool) → Value → Bool
is_regex compiles (string t) = compiles t
is_regex compiles _ = false

abbrev pub each_regex : (Text → Bool) → Table → Bool
each_regex compiles empty = true
each_regex compiles (with_key k v t) = is_regex compiles v && each_regex compiles t

-- The value passes, or the configuration is an error.
unfoldable pub check_type : (Text → Bool) → Expected → Value → Bool
check_type compiles str v = is_string v
check_type compiles bool (boolean b) = true
check_type compiles bool v = false
check_type compiles int (integer n) = true
check_type compiles int (below_zero n) = true
check_type compiles int v = false
check_type compiles list_str v = is_list_str v
check_type compiles dict_list_str (table t) = each_list_str t
check_type compiles dict_list_str v = false
check_type compiles dict_regex (table t) = each_regex compiles t
check_type compiles dict_regex v = false

unfoldable pub check_key : (Text → Bool) → Option Expected → Value → Bool
check_key compiles none v = false
check_key compiles (some e) v = check_type compiles e v

unfoldable pub check_keys : (Text → Bool) → List Known → Table → Bool
check_keys compiles ks empty = true
check_keys compiles ks (with_key k v t) =
    check_key compiles (find_key k ks) v && check_keys compiles ks t

unfoldable pub check_section : (Text → Bool) → Option (List Known) → Value → Bool
check_section compiles none v = false
check_section compiles (some ks) (table t) = check_keys compiles ks t
check_section compiles (some ks) v = false

abbrev pub schema_version : Text
schema_version = codes "schema_version"

unfoldable pub check_sections : (Text → Bool) → Table → Bool
check_sections compiles empty = true
check_sections compiles (with_key n v t) =
    (n == schema_version || check_section compiles (find_section n config_schema) v)
    && check_sections compiles t

-- `config.get("schema_version", 1)`
unfoldable pub declared : Table → Value
declared empty = integer 1
declared (with_key n v t) = let later = declared t in if n == schema_version then v else later

-- The version that this build understands is 1.
unfoldable pub is_understood : Value → Bool
is_understood (integer n) = not (ltb 1 n) && not (ltb n 1)
is_understood _ = false

unfoldable pub validate_check_config : (Text → Bool) → Table → Bool
validate_check_config compiles t = is_understood (declared t) && check_sections compiles t
