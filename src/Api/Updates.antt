-- ===== src/Api/Updates.antt =====
-- src/adp/api/controller.py: the validation of an update of a torrent's settings. The arguments
-- come from MCP callers with whatever type they have.
use adp_pro.Prelude.{
  ℕ, ◌*◌, String, ◌==◌, string_eq, Bool, not, ◌&&◌, Option, none, some, if◌then◌else◌, is_some,
}
use adp_pro.Torrent.Panel.{TorrentRecord}
use adp_pro.Torrent.Session.{Properties}

-- A Python value: None, a str, a bool, an int from 0 on, a float from 0 on in thousandths, a
-- negative number, NaN, or anything else.
pub data Value : Type 0 where
  absent negative nan other : Value
  text : String → Value
  flag : Bool → Value
  whole thousandths : ℕ → Value

pub record Arguments : Type 0 where
  pub category : Value
  pub download_limit : Value
  pub upload_limit : Value
  pub seed_ratio_limit : Value
  pub keep_seeding : Value

-- The dictionary of changes: only the keys that are given.
pub record Changes : Type 0 where
  pub category : Option String
  pub download_limit : Option ℕ
  pub upload_limit : Option ℕ
  pub seed_ratio_limit : Option ℕ
  pub keep_seeding : Option Bool

-- An argument that is refused, one that is omitted, or its value.
pub data Checked (A : Type 0) : Type 0 where
  invalid omitted : Checked A
  given : A → Checked A

unfoldable pub check_category : (String → String) → Value → Checked String
check_category strip absent = omitted
check_category strip (text s) = if strip s == "" then invalid else given (strip s)
check_category strip _ = invalid

unfoldable pub check_limit : Value → Checked ℕ
check_limit absent = omitted
check_limit (whole n) = given n
check_limit _ = invalid

unfoldable pub check_ratio : Value → Checked ℕ
check_ratio absent = omitted
check_ratio (whole n) = given (1000 * n)
check_ratio (thousandths n) = given n
check_ratio _ = invalid

unfoldable pub check_flag : Value → Checked Bool
check_flag absent = omitted
check_flag (flag b) = given b
check_flag _ = invalid

-- The next argument is looked at unless one before it was refused.
abbrev pub and_then {ℓ} : {A : Type 0} {B : Type ℓ} → Checked A → (Option A → Option B) → Option B
and_then invalid f = none
and_then omitted f = f none
and_then (given a) f = f (some a)

abbrev pub is_empty : Changes → Bool
is_empty c =
    not (is_some c.category)
    && not (is_some c.download_limit)
    && not (is_some c.upload_limit)
    && not (is_some c.seed_ratio_limit)
    && not (is_some c.keep_seeding)

-- `_validate_torrent_update`: none where it raises. `strip` is that of Python.
unfoldable pub validate_torrent_update : (String → String) → Arguments → Option Changes
validate_torrent_update strip a = and_then (check_category strip a.category) λ category.
    and_then (check_limit a.download_limit) λ download.
      and_then (check_limit a.upload_limit) λ upload.
        and_then (check_ratio a.seed_ratio_limit) λ ratio.
          and_then (check_flag a.keep_seeding) λ keep.
            let c : Changes = record {
              category = category;
              download_limit = download;
              upload_limit = upload;
              seed_ratio_limit = ratio;
              keep_seeding = keep;
            } in
            if is_empty c then none else some c

abbrev pub or_old {ℓ} : {A : Type ℓ} → Option A → A → A
or_old none a = a
or_old (some b) a = b

-- `merged.update(changes)`
unfoldable pub merge : Changes → TorrentRecord → Properties
merge c r = record {
  category = or_old c.category r.category;
  download_limit = or_old c.download_limit r.download_limit;
  upload_limit = or_old c.upload_limit r.upload_limit;
  seed_ratio_limit = or_old c.seed_ratio_limit r.seed_ratio_limit;
  keep_seeding = or_old c.keep_seeding r.keep_seeding;
}
