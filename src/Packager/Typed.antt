-- ===== src/Packager/Typed.antt =====
-- project_packager.py: a configuration that is accepted, section by section.
use adp_pro.Prelude.{
  ℕ, ◌==◌, nat_eq, ◌≡◌, refl, ap, ◌∙◌, ◌⊎◌, inl, inr, Bool, true, false, ◌&&◌, ◌||◌, Option, none,
  some, List, [], ◌∷◌, arith, Bool-cases,
}
use adp_pro.Files.Names.{Text}
use adp_pro.Packager.Paths.{text_eq, same_iff}
use adp_pro.Packager.Config.{
  Value, string, boolean, integer, below_zero, array, table, other, Values, nil, cons, Table, empty,
  with_key, Expected, str, bool, int, list_str, dict_list_str, dict_regex, Known, config_schema,
  find_section, find_key, is_string, are_strings, is_list_str, each_list_str, is_regex, each_regex,
  check_type, check_key, check_keys, check_section, schema_version, check_sections, declared,
  is_understood, validate_check_config,
}

abbrev pub strings : List Text → Values
strings [] = nil
strings (t ∷ ts) = cons (string t) (strings ts)

-- What holds of each entry of a table.
abbrev pub Each : (Text → Value → Type 0) → Table → Type 0
Each P empty = Unit
Each P (with_key k v t) = P k v × Each P t

abbrev pub IsListOfStrings : Value → Type 0
IsListOfStrings v = (ts : List Text) × (v ≡ array (strings ts))

-- The value is what a check takes it for.
abbrev pub HasType : (Text → Bool) → Expected → Value → Type 0
HasType compiles str v = (t : Text) × (v ≡ string t)
HasType compiles bool v = (b : Bool) × (v ≡ boolean b)
HasType compiles int v = ((n : ℕ) × (v ≡ integer n)) ⊎ ((n : ℕ) × (v ≡ below_zero n))
HasType compiles list_str v = IsListOfStrings v
HasType compiles dict_list_str v = (t : Table) × (v ≡ table t) × Each (λ k w. IsListOfStrings w) t
HasType compiles dict_regex v =
    (t : Table) × (v ≡ table t) × Each (λ k w. (p : Text) × (w ≡ string p) × (compiles p ≡ true)) t

is_string-string : (v : Value) → is_string v ≡ true → (t : Text) × (v ≡ string t)
is_string-string (string t) h = (t, refl)
is_string-string (boolean b) h = ground arith
is_string-string (integer n) h = ground arith
is_string-string (below_zero n) h = ground arith
is_string-string (array vs) h = ground arith
is_string-string (table t) h = ground arith
is_string-string other h = ground arith

both : (b c : Bool) → b && c ≡ true → (b ≡ true) × (c ≡ true)
both true c h = (refl, h)
both false c h = ground arith

either : (b c : Bool) → b || c ≡ true → b ≡ false → c ≡ true
either true c h k = ground arith
either false c h k = h

are_strings-strings : (vs : Values) → are_strings vs ≡ true → (ts : List Text) × (vs ≡ strings ts)
are_strings-strings nil h = ([], refl)
are_strings-strings (cons v vs) h =
    let (first, rest) = both (is_string v) (are_strings vs) h in
    let (t, e) = is_string-string v first in
    let (ts, e') = are_strings-strings vs rest in
    (t ∷ ts, ap (λ w. cons w vs) e ∙ ap (cons (string t)) e')

is_list_str-strings : (v : Value) → is_list_str v ≡ true → IsListOfStrings v
is_list_str-strings (array vs) h = let (ts, e) = are_strings-strings vs h in (ts, ap array e)
is_list_str-strings (string t) h = ground arith
is_list_str-strings (boolean b) h = ground arith
is_list_str-strings (integer n) h = ground arith
is_list_str-strings (below_zero n) h = ground arith
is_list_str-strings (table t) h = ground arith
is_list_str-strings other h = ground arith

each_list_str-Each : (t : Table) → each_list_str t ≡ true → Each (λ k w. IsListOfStrings w) t
each_list_str-Each empty h = tt
each_list_str-Each (with_key k v t) h =
    let (first, rest) = both (is_list_str v) (each_list_str t) h in
    (is_list_str-strings v first, each_list_str-Each t rest)

module _ (compiles : Text → Bool) where
  is_regex-string :
      (v : Value) → is_regex compiles v ≡ true → (p : Text) × (v ≡ string p) × (compiles p ≡ true)
  is_regex-string (string p) h = (p, refl, h)
  is_regex-string (boolean b) h = ground arith
  is_regex-string (integer n) h = ground arith
  is_regex-string (below_zero n) h = ground arith
  is_regex-string (array vs) h = ground arith
  is_regex-string (table t) h = ground arith
  is_regex-string other h = ground arith

  each_regex-Each :
      (t : Table)
      → each_regex compiles t ≡ true
      → Each (λ k w. (p : Text) × (w ≡ string p) × (compiles p ≡ true)) t
  each_regex-Each empty h = tt
  each_regex-Each (with_key k v t) h =
      let (first, rest) = both (is_regex compiles v) (each_regex compiles t) h in
      (is_regex-string v first, each_regex-Each t rest)

  check_type-HasType :
      (e : Expected) (v : Value) → check_type compiles e v ≡ true → HasType compiles e v
  unfolding check_type
  check_type-HasType str v h = is_string-string v h
  check_type-HasType list_str v h = is_list_str-strings v h
  check_type-HasType bool (boolean b) h = (b, refl)
  check_type-HasType bool (string t) h = ground arith
  check_type-HasType bool (integer n) h = ground arith
  check_type-HasType bool (below_zero n) h = ground arith
  check_type-HasType bool (array vs) h = ground arith
  check_type-HasType bool (table t) h = ground arith
  check_type-HasType bool other h = ground arith
  check_type-HasType int (integer n) h = inl (n, refl)
  check_type-HasType int (below_zero n) h = inr (n, refl)
  check_type-HasType int (boolean b) h = ground arith
  check_type-HasType int (string t) h = ground arith
  check_type-HasType int (array vs) h = ground arith
  check_type-HasType int (table t) h = ground arith
  check_type-HasType int other h = ground arith
  check_type-HasType dict_list_str (table t) h = (t, refl, each_list_str-Each t h)
  check_type-HasType dict_list_str (boolean b) h = ground arith
  check_type-HasType dict_list_str (string t) h = ground arith
  check_type-HasType dict_list_str (integer n) h = ground arith
  check_type-HasType dict_list_str (below_zero n) h = ground arith
  check_type-HasType dict_list_str (array vs) h = ground arith
  check_type-HasType dict_list_str other h = ground arith
  check_type-HasType dict_regex (table t) h = (t, refl, each_regex-Each t h)
  check_type-HasType dict_regex (boolean b) h = ground arith
  check_type-HasType dict_regex (string t) h = ground arith
  check_type-HasType dict_regex (integer n) h = ground arith
  check_type-HasType dict_regex (below_zero n) h = ground arith
  check_type-HasType dict_regex (array vs) h = ground arith
  check_type-HasType dict_regex other h = ground arith

  check_key-HasType :
      (o : Option Expected) (v : Value)
      → check_key compiles o v ≡ true
      → (e : Expected) × (o ≡ some e) × HasType compiles e v
  unfolding check_key
  check_key-HasType none v h = ground arith
  check_key-HasType (some e) v h = (e, refl, check_type-HasType e v h)

  -- The keys of one section, each known and of its type.
  abbrev pub HasKeys : List Known → Table → Type 0
  HasKeys ks t = Each (λ k v. (e : Expected) × (find_key k ks ≡ some e) × HasType compiles e v) t

  check_keys-Each : (ks : List Known) (t : Table) → check_keys compiles ks t ≡ true → HasKeys ks t
  unfolding check_keys
  check_keys-Each ks empty h = tt
  check_keys-Each ks (with_key k v t) h =
      let (first, rest) =
        both (check_key compiles (find_key k ks) v) (check_keys compiles ks t) h in
      (check_key-HasType (find_key k ks) v first, check_keys-Each ks t rest)

  -- A section that is known, with its keys.
  abbrev pub IsSection : Option (List Known) → Value → Type 0
  IsSection o v = (ks : List Known) × (t : Table) × (o ≡ some ks) × (v ≡ table t) × HasKeys ks t

  check_section-IsSection :
      (o : Option (List Known)) (v : Value) → check_section compiles o v ≡ true → IsSection o v
  unfolding check_section
  check_section-IsSection none v h = ground arith
  check_section-IsSection (some ks) (table t) h = (ks, t, refl, refl, check_keys-Each ks t h)
  check_section-IsSection (some ks) (boolean b) h = ground arith
  check_section-IsSection (some ks) (string t) h = ground arith
  check_section-IsSection (some ks) (integer n) h = ground arith
  check_section-IsSection (some ks) (below_zero n) h = ground arith
  check_section-IsSection (some ks) (array vs) h = ground arith
  check_section-IsSection (some ks) other h = ground arith

  check_sections-Each :
      (t : Table)
      → check_sections compiles t ≡ true
      → Each (λ n v. (n ≡ schema_version) ⊎ IsSection (find_section n config_schema) v) t
  unfolding check_sections
  check_sections-Each empty h = tt
  check_sections-Each (with_key n v t) h =
      let (first, rest) =
        both (n == schema_version || check_section compiles (find_section n config_schema) v)
          (check_sections compiles t) h in
      (
        elim (Bool-cases (n == schema_version)) [
          | inl same ↦ inl ((same_iff n schema_version).0 same)
          | inr differs ↦ inr (
              check_section-IsSection (find_section n config_schema) v (
                either (n == schema_version)
                  (check_section compiles (find_section n config_schema) v) first differs))
        ],
        check_sections-Each t rest,
      )

is_understood-one : (v : Value) → is_understood v ≡ true → v ≡ integer 1
unfolding is_understood
is_understood-one (integer n) h = ap integer (ground arith)
is_understood-one (string t) h = ground arith
is_understood-one (boolean b) h = ground arith
is_understood-one (below_zero n) h = ground arith
is_understood-one (array vs) h = ground arith
is_understood-one (table t) h = ground arith
is_understood-one other h = ground arith

pub validate_check_config-Each :
    (compiles : Text → Bool) (t : Table)
    → validate_check_config compiles t ≡ true
    → (declared t ≡ integer 1)
      × Each (λ n v. (n ≡ schema_version) ⊎ IsSection compiles (find_section n config_schema) v) t
unfolding validate_check_config
validate_check_config-Each compiles t h =
    let (version, sections) = both (is_understood (declared t)) (check_sections compiles t) h in
    (is_understood-one (declared t) version, check_sections-Each compiles t sections)
