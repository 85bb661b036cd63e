-- ===== src/Packager/Profiles.antt =====
-- project_packager.py: the ignore file, and the rules of one run. A set that is added to is a list with
-- what is added at its end.
use adp_pro.Prelude.{
  ℕ, nat_eq, Bool, not, ◌||◌, Option, none, some, List, [], ◌∷◌, ◌++◌, map, filter, if◌then◌else◌,
}
use adp_pro.Files.Names.{Text, is_empty, lstrip, rstrip, strip}
use adp_pro.Packager.Paths.{codes, ends_with_slash}
use adp_pro.Packager.Rules.{Rules, is_slash, has_slash, normalise_pattern, starts_with}
use adp_pro.Packager.Excluded.{
  backup_exclude_dir_names, default_exclude_dir_names, default_exclude_dir_patterns,
  default_exclude_file_patterns, strict_exclude_dir_names, strict_exclude_file_patterns,
}

-- The ignore file as it is found: its lines where it is text.
pub data IgnoreFile : Type 0 where
  missing not_regular not_utf8 unreadable : IgnoreFile
  lines : List Text → IgnoreFile

unfoldable pub patterns_of : (ℕ → Bool) → List Text → List Text
patterns_of is_space [] = []
patterns_of is_space (raw ∷ rest) =
    let line = strip is_space raw in
    let later = patterns_of is_space rest in
    if is_empty line || starts_with line (codes "#") then later else line ∷ later

-- No file is no pattern; a file that cannot be read is an error.
unfoldable pub load_ignore_file : (ℕ → Bool) → IgnoreFile → Option (List Text)
load_ignore_file is_space missing = some []
load_ignore_file is_space (lines ls) = some (patterns_of is_space ls)
load_ignore_file is_space _ = none

pub data Profile : Type 0 where
  share release backup : Profile

abbrev pub no_rules : Rules
no_rules = record {
  dir_names = [];
  dir_patterns = [];
  file_patterns = [];
  path_patterns = [];
  include_patterns = [];
}

abbrev pub add_path : Text → Rules → Rules
add_path p r = record r { path_patterns = r.path_patterns ++ p ∷ [] }

abbrev pub add_file : Text → Rules → Rules
add_file p r = record r { file_patterns = r.file_patterns ++ p ∷ [] }

abbrev pub add_dir : Text → Rules → Rules
add_dir p r = record r { dir_patterns = r.dir_patterns ++ p ∷ [] }

abbrev pub add_dir_names : List Text → Rules → Rules
add_dir_names ns r = record r { dir_names = r.dir_names ++ ns }

-- A pattern with / is one of paths.
unfoldable pub add_patterns : List Text → Rules → Rules
add_patterns [] r = r
add_patterns (p ∷ ps) r = add_patterns ps (if has_slash p then add_path p r else add_file p r)

unfoldable pub profile_rules : Profile → Rules
profile_rules backup =
    add_file (codes "*.pyo")
      (add_file (codes "*.pyc") (add_dir_names backup_exclude_dir_names no_rules))
profile_rules _ =
    let named = add_dir_names default_exclude_dir_names no_rules in
    add_patterns default_exclude_file_patterns
      (record named { dir_patterns = named.dir_patterns ++ default_exclude_dir_patterns })

unfoldable pub strict_rules : Rules → Rules
strict_rules r =
    add_patterns strict_exclude_file_patterns (add_dir_names strict_exclude_dir_names r)

-- What a pattern adds, once a / at its start is taken off.
unfoldable pub add_pattern : Bool → Text → Rules → Rules
add_pattern anchored p r =
    let clean = rstrip is_slash p in
    if ends_with_slash p
    then (if anchored || has_slash clean then add_path clean r else add_dir clean r)
    else if anchored || has_slash p
    then add_path p r
    else add_dir p (add_file p r)

unfoldable pub add_raw_pattern : (ℕ → Bool) → Text → Rules → Rules
add_raw_pattern is_space raw r =
    let pattern = normalise_pattern is_space raw in
    let anchored = starts_with pattern (codes "/") in
    let p = if anchored then lstrip is_slash pattern else pattern in
    if is_empty pattern || is_empty p then r else add_pattern anchored p r

unfoldable pub add_raw_patterns : (ℕ → Bool) → List Text → Rules → Rules
add_raw_patterns is_space [] r = r
add_raw_patterns is_space (p ∷ ps) r = add_raw_patterns is_space ps (add_raw_pattern is_space p r)

unfoldable pub build_rules : (ℕ → Bool) → Profile → Bool → List Text → List Text → List Text → Rules
build_rules is_space profile strict ignore extra include =
    let base = if strict then strict_rules (profile_rules profile) else profile_rules profile in
    let r = add_raw_patterns is_space (ignore ++ extra) base in
    record r {
      include_patterns =
          r.include_patterns
          ++ filter (λ p. not (is_empty p)) (map (normalise_pattern is_space) include);
    }
