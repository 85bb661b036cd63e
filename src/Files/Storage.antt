-- ===== src/Files/Storage.antt =====
-- src/adp/core/storage.py: where files go, and whether they fit. What the operating system tells of
-- its volumes is given.
use adp_pro.Prelude.{
  ℕ, zero, suc, ◌+◌, ◌*◌, String, ◌==◌, string_eq, nat_eq, Bool, true, Option, none, some,
  if◌then◌else◌, leb,
}

pub record Disk : Type 0 where
  pub exists : String → Bool
  pub dirname : String → String
  pub absolute : String → String
  -- `disk_usage(path).free` and `stat(path).st_dev`; none where they raise.
  pub free : String → Option ℕ
  pub device : String → Option ℕ
  -- `makedirs`: whether the folder is there afterwards.
  pub makes : String → Bool
  pub expand : String → String

-- The folder, or the configured one that is not usable; and the fallback's error.
pub data Resolved : Type 0 where
  resolved : String → Resolved
  unavailable : String → Resolved
  not_made : Resolved

-- A configured text comes stripped; none stands for no text.
unfoldable pub resolve_dir : Disk → Option String → String → Resolved
resolve_dir d none fallback = if d.makes fallback then resolved fallback else not_made
resolve_dir d (some configured) fallback =
    if configured == ""
    then (if d.makes fallback then resolved fallback else not_made)
    else if d.makes (d.expand configured)
    then resolved (d.expand configured)
    else unavailable (d.expand configured)

-- The rounds of `free_space_bytes`, with those left first.
unfoldable pub probe_free : Disk → ℕ → String → Option ℕ
probe_free d zero probe = none
probe_free d (suc rounds) probe =
    let rest = probe_free d rounds (d.dirname probe) in
    if d.exists probe then d.free probe else if d.dirname probe == probe then none else rest

abbrev pub or_here : String → String
or_here path = if path == "" then "." else path

unfoldable pub free_space_bytes : Disk → String → Option ℕ
free_space_bytes d path = probe_free d 64 (d.absolute (or_here path))

-- The rounds of `_existing_ancestor`.
unfoldable pub probe_existing : Disk → ℕ → String → Option String
probe_existing d zero probe = none
probe_existing d (suc rounds) probe =
    let rest = probe_existing d rounds (d.dirname probe) in
    if d.exists probe then some probe else if d.dirname probe == probe then none else rest

unfoldable pub existing_ancestor : Disk → String → Option String
existing_ancestor d path = probe_existing d 64 (d.absolute (or_here path))

abbrev pub same_number : Option ℕ → Option ℕ → Option Bool
same_number (some a) (some b) = some (a == b)
same_number _ _ = none

abbrev pub same_device : Disk → Option String → Option String → Option Bool
same_device d (some a) (some b) =
    if a == "" then none else if b == "" then none else same_number (d.device a) (d.device b)
same_device d _ _ = none

-- None: it could not be determined.
unfoldable pub same_volume : Disk → String → String → Option Bool
same_volume d a b = same_device d (existing_ancestor d a) (existing_ancestor d b)

-- 512 MiB
abbrev pub default_headroom : ℕ
default_headroom = 512 * (1024 * 1024)

abbrev pub fits_in : ℕ → Option ℕ → Bool
fits_in needed none = true
fits_in needed (some free) = leb needed free

pub record SpaceCheck : Type 0 where
  pub fits : Bool
  pub free_bytes : Option ℕ
  pub needed_bytes : ℕ
  pub headroom_bytes : ℕ

unfoldable pub check_space : Disk → String → ℕ → ℕ → SpaceCheck
check_space d path needed headroom =
    let free = free_space_bytes d path in
    record {
      fits = fits_in (needed + headroom) free;
      free_bytes = free;
      needed_bytes = needed;
      headroom_bytes = headroom;
    }
