-- ===== src/Packager/Reads.antt =====
-- project_packager.py: what run_config_checks reads of a configuration that validate_check_config has
-- accepted.
use mathlib.Core.List.{Memᴰ}
use mathlib.Core.List.Memᴰ
use adp_pro.Prelude.{
  ◌≢◌, sym, ◌≡◌, refl, ap, subst, ◌⊎◌, inl, inr, Bool, true, none, some, List, [], ◌∷◌, All, arith,
}
use adp_pro.Files.Names.{Text}
use adp_pro.Packager.Paths.{codes}
use adp_pro.Packager.Config.{
  Value, integer, table, Table, empty, with_key, Expected, str, bool, int, list_str, dict_list_str,
  dict_regex, Known, config_schema, find_section, find_key, schema_version, declared,
  validate_check_config,
}
use adp_pro.Packager.Typed.{Each, HasType, HasKeys, validate_check_config-Each}

-- A value that the checks look up, and what they use it as.
pub record Read : Type 0 where
  pub section : Text
  pub key : Text
  pub used_as : Expected

abbrev pub read_at : Text → Text → Expected → Read
read_at n k e = record { section = n; key = k; used_as = e }

-- The values that the checks look up, in their order: a text that is searched or joined to a path, a
-- list of such texts, a table of such lists, the patterns that are compiled, a flag that is tested,
-- and a timeout that goes through `int`.
abbrev pub reads : List Read
reads =
    read_at (codes "version") (codes "target") str
    ∷ read_at (codes "version") (codes "files") list_str
    ∷ read_at (codes "forbidden") (codes "patterns") dict_regex
    ∷ read_at (codes "forbidden") (codes "allow_files") list_str
    ∷ read_at (codes "required") (codes "files") list_str
    ∷ read_at (codes "required") (codes "contains") dict_list_str
    ∷ read_at (codes "forbidden") (codes "contains") dict_list_str
    ∷ read_at (codes "banned") (codes "paths") list_str
    ∷ read_at (codes "requirements") (codes "forbidden") list_str
    ∷ read_at (codes "requirements") (codes "file") str
    ∷ read_at (codes "wheel") (codes "build") bool
    ∷ read_at (codes "wheel") (codes "timeout") int
    ∷ read_at (codes "wheel") (codes "must_contain") list_str
    ∷ []

-- The schema has the value, at the type that it is used as.
IsInSchema : Read → Type 0
IsInSchema r =
    (ks : List Known) × (find_section r.section config_schema ≡ some ks)
    × (find_key r.key ks ≡ some r.used_as)

reads-IsInSchema : All IsInSchema reads
unfolding IsInSchema find_section find_key
reads-IsInSchema = (
  (_, refl, refl),
  (
    (_, refl, refl),
    (
      (_, refl, refl),
      (
        (_, refl, refl),
        (
          (_, refl, refl),
          (
            (_, refl, refl),
            (
              (_, refl, refl),
              (
                (_, refl, refl),
                (
                  (_, refl, refl),
                  ((_, refl, refl), ((_, refl, refl), ((_, refl, refl), ((_, refl, refl), tt)))),
                ),
              ),
            ),
          ),
        ),
      ),
    ),
  ),
)

-- The table has that value at that key.
abbrev pub Holds : Text → Value → Table → Type 0
Holds k v empty = ⊥
Holds k v (with_key j w t) = ((j ≡ k) × (w ≡ v)) ⊎ Holds k v t

Each-Holds :
    (P : Text → Value → Type 0) (k : Text) (v : Value) (t : Table) → Each P t → Holds k v t → P k v
Each-Holds P k v empty h e = absurd e
Each-Holds P k v (with_key j w t) h (inl (same_key, same_value)) =
    subst (λ i. P i v) same_key (subst (λ x. P j x) same_value h.0)
Each-Holds P k v (with_key j w t) h (inr later) = Each-Holds P k v t h.1 later

All-Memᴰ {ℓ κ} : {A : Type ℓ} (P : A → Type κ) (a : A) (xs : List A) → All P xs → Memᴰ a xs → P a
All-Memᴰ P a [] h e = absurd (Memᴰ.not-nil e)
All-Memᴰ P a (x ∷ xs) h e = elim (Memᴰ.cases_cons e) [
  | inl same ↦ subst P (sym same) h.0
  | inr later ↦ All-Memᴰ P a xs h.1 later
]

-- No section that is read is the version of the schema.
section-schema_version : (r : Read) → IsInSchema r → r.section ≢ schema_version
unfolding IsInSchema
section-schema_version r (ks, at, found) e =
    let moved = ap (λ s. find_section s config_schema) e in
    let nowhere : find_section schema_version config_schema ≡ none = unfold find_section in refl in
    absurd (ground (arith, moved))

-- A value that was checked against the schema has the type of the read.
checked-HasType :
    (compiles : Text → Bool) (r : Read) (ks : List Known) (v : Value)
    → IsInSchema r
    → find_section r.section config_schema ≡ some ks
    → (e : Expected) × (find_key r.key ks ≡ some e) × HasType compiles e v
    → HasType compiles r.used_as v
unfolding IsInSchema
checked-HasType compiles r ks v (ks', at', found') at (e, found, typed) =
    let same_keys : ks' ≡ ks = cc in
    let looked_up : find_key r.key ks' ≡ find_key r.key ks = cc in
    let same_type : e ≡ r.used_as = cc in subst (λ x. HasType compiles x v) same_type typed

-- A configuration that is accepted declares version 1, or none, and each value in it that
-- run_config_checks looks up has the type that the checks use it as: a text, a flag, a whole number
-- for `int`, a list of texts, a table of such lists, or a table of patterns that compile.
pub validate_check_config-HasType :
    (compiles : Text → Bool) (t s : Table) (r : Read) (v : Value)
    → validate_check_config compiles t ≡ true
    → Memᴰ r reads
    → Holds r.section (table s) t
    → Holds r.key v s
    → (declared t ≡ integer 1) × HasType compiles r.used_as v
validate_check_config-HasType compiles t s r v accepted is_read in_config in_section =
    let (version, sections) = validate_check_config-Each compiles t accepted in
    let in_schema = All-Memᴰ IsInSchema r reads reads-IsInSchema is_read in
    elim (Each-Holds _ r.section (table s) t sections in_config) [
      | inl e ↦ absurd (section-schema_version r in_schema e)
      | inr (ks, s', at, is_table, keys) ↦
          let same : s' ≡ s = cc in
          let here = subst (HasKeys compiles ks) same keys in
          (
            version,
            checked-HasType compiles r ks v in_schema at (Each-Holds _ r.key v s here in_section),
          )
    ]
