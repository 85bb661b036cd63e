-- ===== src/Api/Named.antt =====
-- src/adp/api/controller.py: what the arguments of an update name.
use adp_pro.Prelude.{
  ℕ, ◌*◌, ◌≡◌, refl, ap, sym, subst, ◌⊎◌, Bool, inl, inr, String, string_eq, nat_eq, Option, none,
  some, arith,
}
use adp_pro.Torrent.Panel.{TorrentRecord}
use adp_pro.Torrent.Session.{with_properties}
use adp_pro.Api.Updates.{
  Arguments, Changes, validate_torrent_update, merge, or_old, Value, absent, negative, nan, other,
  text, flag, whole, thousandths, Checked, invalid, omitted, given, and_then, check_category,
  check_limit, check_ratio, check_flag,
}

-- The argument is absent and the setting stays, or it is of the form that the setting takes and the
-- setting becomes its value.
abbrev pub Follows {ℓ} : {A : Type 0} → (Value → A → Type ℓ) → Value → A → A → Type ℓ
Follows {A} Means v old new = ((v ≡ absent) × (new ≡ old)) ⊎ Means v new

abbrev pub IsText : (String → String) → Value → String → Type 0
IsText strip v new = (s : String) × (v ≡ text s) × (new ≡ strip s)

abbrev pub IsWhole : Value → ℕ → Type 0
IsWhole v new = v ≡ whole new

-- In thousandths.
abbrev pub IsRatio : Value → ℕ → Type 0
IsRatio v new = ((n : ℕ) × (v ≡ whole n) × (new ≡ 1000 * n)) ⊎ (v ≡ thousandths new)

abbrev pub IsFlag : Value → Bool → Type 0
IsFlag v new = v ≡ flag new

-- The record after an update with these arguments.
pub record IsUpdated (strip : String → String) (a : Arguments) (r n : TorrentRecord) : Type 0 where
  pub category : Follows (IsText strip) a.category r.category n.category
  pub download_limit : Follows IsWhole a.download_limit r.download_limit n.download_limit
  pub upload_limit : Follows IsWhole a.upload_limit r.upload_limit n.upload_limit
  pub seed_ratio_limit : Follows IsRatio a.seed_ratio_limit r.seed_ratio_limit n.seed_ratio_limit
  pub keep_seeding : Follows IsFlag a.keep_seeding r.keep_seeding n.keep_seeding
  pub others : n ≡ record r {
    category = n.category;
    download_limit = n.download_limit;
    upload_limit = n.upload_limit;
    seed_ratio_limit = n.seed_ratio_limit;
    keep_seeding = n.keep_seeding;
  }

Chosen : {A : Type 0} → Checked A → Option A → Type 0
Chosen {A} x o = ((x ≡ omitted) × (o ≡ none)) ⊎ ((v : A) × (x ≡ given v) × (o ≡ some v))

and_then-Chosen :
    {A B : Type 0} (x : Checked A) (f : Option A → Option B) (b : B)
    → and_then x f ≡ some b
    → (o : Option A) × Chosen x o × (f o ≡ some b)
unfolding Chosen
and_then-Chosen invalid f b h = ground arith
and_then-Chosen omitted f b h = (none, inl (refl, refl), h)
and_then-Chosen (given v) f b h = (some v, inr (v, refl, refl), h)

Chosen-Follows :
    {A : Type 0} (Means : Value → A → Type 0) (check : Value → Checked A) (v : Value) (o : Option A)
    (old : A)
    → (check v ≡ omitted → v ≡ absent)
    → ((b : A) → check v ≡ given b → Means v b)
    → Chosen (check v) o
    → Follows Means v old (or_old o old)
unfolding Chosen
Chosen-Follows Means check v o old none_there means (inl (e, f)) =
    inl (none_there e, ap (λ x. or_old x old) f)
Chosen-Follows Means check v o old none_there means (inr (b, e, f)) =
    inr (subst (λ x. Means v (or_old x old)) (sym f) (means b e))

category-omitted :
    (strip : String → String) (v : Value) → check_category strip v ≡ omitted → v ≡ absent
unfolding check_category
category-omitted strip absent h = refl
category-omitted strip negative h = ground arith
category-omitted strip nan h = ground arith
category-omitted strip other h = ground arith
category-omitted strip (text s) h = ground arith
category-omitted strip (flag t) h = ground arith
category-omitted strip (whole n) h = ground arith
category-omitted strip (thousandths n) h = ground arith

category-given :
    (strip : String → String) (v : Value) (b : String)
    → check_category strip v ≡ given b
    → IsText strip v b
unfolding check_category
category-given strip absent b h = ground arith
category-given strip negative b h = ground arith
category-given strip nan b h = ground arith
category-given strip other b h = ground arith
category-given strip (text s) b h = (s, refl, ground arith)
category-given strip (flag t) b h = ground arith
category-given strip (whole n) b h = ground arith
category-given strip (thousandths n) b h = ground arith

limit-omitted : (v : Value) → check_limit v ≡ omitted → v ≡ absent
unfolding check_limit
limit-omitted absent h = refl
limit-omitted negative h = ground arith
limit-omitted nan h = ground arith
limit-omitted other h = ground arith
limit-omitted (text s) h = ground arith
limit-omitted (flag t) h = ground arith
limit-omitted (whole n) h = ground arith
limit-omitted (thousandths n) h = ground arith

limit-given : (v : Value) (b : ℕ) → check_limit v ≡ given b → IsWhole v b
unfolding check_limit
limit-given absent b h = ground arith
limit-given negative b h = ground arith
limit-given nan b h = ground arith
limit-given other b h = ground arith
limit-given (text s) b h = ground arith
limit-given (flag t) b h = ground arith
limit-given (whole n) b h = ground arith
limit-given (thousandths n) b h = ground arith

ratio-omitted : (v : Value) → check_ratio v ≡ omitted → v ≡ absent
unfolding check_ratio
ratio-omitted absent h = refl
ratio-omitted negative h = ground arith
ratio-omitted nan h = ground arith
ratio-omitted other h = ground arith
ratio-omitted (text s) h = ground arith
ratio-omitted (flag t) h = ground arith
ratio-omitted (whole n) h = ground arith
ratio-omitted (thousandths n) h = ground arith

IsRatio-given : (v : Value) (b : ℕ) → check_ratio v ≡ given b → IsRatio v b
unfolding check_ratio
IsRatio-given absent b h = ground arith
IsRatio-given negative b h = ground arith
IsRatio-given nan b h = ground arith
IsRatio-given other b h = ground arith
IsRatio-given (text s) b h = ground arith
IsRatio-given (flag t) b h = ground arith
IsRatio-given (whole n) b h = inl (n, refl, ground arith)
IsRatio-given (thousandths n) b h = inr (ground arith)

flag_value-omitted : (v : Value) → check_flag v ≡ omitted → v ≡ absent
unfolding check_flag
flag_value-omitted absent h = refl
flag_value-omitted negative h = ground arith
flag_value-omitted nan h = ground arith
flag_value-omitted other h = ground arith
flag_value-omitted (text s) h = ground arith
flag_value-omitted (flag t) h = ground arith
flag_value-omitted (whole n) h = ground arith
flag_value-omitted (thousandths n) h = ground arith

IsFlag-value-given : (v : Value) (b : Bool) → check_flag v ≡ given b → IsFlag v b
unfolding check_flag
IsFlag-value-given absent b h = ground arith
IsFlag-value-given negative b h = ground arith
IsFlag-value-given nan b h = ground arith
IsFlag-value-given other b h = ground arith
IsFlag-value-given (text s) b h = ground arith
IsFlag-value-given (flag t) b h = ground arith
IsFlag-value-given (whole n) b h = ground arith
IsFlag-value-given (thousandths n) b h = ground arith

pub validated-IsUpdated :
    (strip : String → String) (a : Arguments) (c : Changes) (r : TorrentRecord)
    → validate_torrent_update strip a ≡ some c
    → IsUpdated strip a r (with_properties (merge c r) r)
unfolding validate_torrent_update merge
validated-IsUpdated strip a c r v =
    let (o1, x1, v1) = and_then-Chosen (check_category strip a.category) _ c v in
    let (o2, x2, v2) = and_then-Chosen (check_limit a.download_limit) _ c v1 in
    let (o3, x3, v3) = and_then-Chosen (check_limit a.upload_limit) _ c v2 in
    let (o4, x4, v4) = and_then-Chosen (check_ratio a.seed_ratio_limit) _ c v3 in
    let (o5, x5, v5) = and_then-Chosen (check_flag a.keep_seeding) _ c v4 in
    let same : record {
      category = o1;
      download_limit = o2;
      upload_limit = o3;
      seed_ratio_limit = o4;
      keep_seeding = o5;
    }
        ≡ c =
      ground arith in
    subst (λ (d : Changes). IsUpdated strip a r (with_properties (merge d r) r)) same
      (record {
        category =
            Chosen-Follows (IsText strip) (check_category strip) a.category o1 r.category
              (category-omitted strip a.category) (category-given strip a.category) x1;
        download_limit =
            Chosen-Follows IsWhole check_limit a.download_limit o2 r.download_limit
              (limit-omitted a.download_limit) (limit-given a.download_limit) x2;
        upload_limit =
            Chosen-Follows IsWhole check_limit a.upload_limit o3 r.upload_limit
              (limit-omitted a.upload_limit) (limit-given a.upload_limit) x3;
        seed_ratio_limit =
            Chosen-Follows IsRatio check_ratio a.seed_ratio_limit o4 r.seed_ratio_limit
              (ratio-omitted a.seed_ratio_limit) (IsRatio-given a.seed_ratio_limit) x4;
        keep_seeding =
            Chosen-Follows IsFlag check_flag a.keep_seeding o5 r.keep_seeding
              (flag_value-omitted a.keep_seeding) (IsFlag-value-given a.keep_seeding) x5;
        others = refl;
      })
