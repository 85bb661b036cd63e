-- ===== src/Packager/Scan.antt =====
-- project_packager.py: scan_project. A folder has its files and its folders, each sorted by name, with
-- what `is_symlink` says of them; `os.walk` goes through them from the top.
use adp_pro.Prelude.{
  ◌==◌, Bool, true, false, Option, none, some, List, [], ◌∷◌, ◌++◌, if◌then◌else◌, is_some, any,
}
use adp_pro.Files.Names.{Text}
use adp_pro.Packager.Paths.{codes, text_eq, RelPath, path_eq, normalise_rel, is_inside}
use adp_pro.Packager.Rules.{
  Rules, Fnmatch, matches_any_pattern, is_force_included, include_may_reopen_dir, Reason,
  output_directory, reserved_output, symlink_directory, symlink_file, should_exclude_dir,
  should_exclude_file,
}

pub record File : Type 0 where
  pub name : Text
  pub is_symlink : Bool

mutual
  pub data Folder : Type 0 where
    folder : List File → Folders → Folder

  pub data Folders : Type 0 where
    no_more : Folders
    and_folder : Text → Bool → Folder → Folders → Folders

pub record Decision : Type 0 where
  pub rel_path : RelPath
  pub reason : Reason

pub record ScanResult : Type 0 where
  pub included_files : List RelPath
  pub excluded : List Decision
  pub clean_dirs : List RelPath
  pub clean_files : List RelPath
  pub force_included : List RelPath
  pub skipped_symlinks : List Decision

abbrev pub no_result : ScanResult
no_result = record {
  included_files = [];
  excluded = [];
  clean_dirs = [];
  clean_files = [];
  force_included = [];
  skipped_symlinks = [];
}

-- Where the archive is written, seen from the project: in it, in a folder that it lies in, or elsewhere.
pub data OutputDir : Type 0 where
  within : RelPath → OutputDir
  above elsewhere : OutputDir

-- One call: the output directory and the names that are reserved in it.
pub record Scan : Type 0 where
  pub fnmatch : Fnmatch
  pub rules : Rules
  pub output_dir : OutputDir
  pub reserved : List RelPath

-- The archive, its sidecar, and the two temporary forms.
unfoldable pub reserved_output_paths : OutputDir → Text → List RelPath
reserved_output_paths (within p) name =
    (p ++ name ∷ [])
    ∷ (p ++ (name ++ codes ".sha256") ∷ [])
    ∷ (p ++ (name ++ codes ".part") ∷ [])
    ∷ (p ++ (name ++ codes ".tmp") ∷ [])
    ∷ []
reserved_output_paths _ name = []

-- The folder is the output directory or inside it, unless that is the project itself.
unfoldable pub is_pruned : OutputDir → RelPath → Bool
is_pruned (within []) at = false
is_pruned (within (n ∷ p)) at = is_inside at (n ∷ p)
is_pruned above at = true
is_pruned elsewhere at = false

abbrev pub clean_dir_names : List Text
clean_dir_names =
    codes "__pycache__" ∷ codes ".pytest_cache" ∷ codes ".mypy_cache" ∷ codes ".ruff_cache" ∷ []

abbrev pub clean_file_patterns : List Text
clean_file_patterns = codes "*.pyc" ∷ codes "*.pyo" ∷ []

-- What becomes of a folder in the walk. One that an include reopened passes its reason on.
pub data DirVerdict : Type 0 where
  dir_symlink kept : DirVerdict
  dir_excluded reopened : Reason → DirVerdict

unfoldable pub judge_dir : Scan → RelPath → Text → Bool → DirVerdict
judge_dir s at name is_symlink =
    if is_symlink
    then dir_symlink
    else elim (should_exclude_dir s.fnmatch s.rules name (normalise_rel at)) [
      | none ↦ kept
      | some r ↦
          if is_some (include_may_reopen_dir s.fnmatch (normalise_rel at) s.rules.include_patterns)
          then reopened r
          else dir_excluded r
    ]

abbrev pub decided : RelPath → Reason → Decision
decided at r = record { rel_path = at; reason = r }

unfoldable pub note_dir : DirVerdict → RelPath → Text → ScanResult → ScanResult
note_dir dir_symlink at name o = record o {
  skipped_symlinks = o.skipped_symlinks ++ decided at symlink_directory ∷ [];
}
note_dir v at name o =
    let o' =
      if any (λ n. n == name) clean_dir_names
      then record o { clean_dirs = o.clean_dirs ++ at ∷ [] }
      else o in
    elim v [ dir_excluded r ↦ record o' { excluded = o'.excluded ++ decided at r ∷ [] } | _ ↦ o' ]

unfoldable pub note_dirs : Scan → RelPath → Folders → ScanResult → ScanResult
note_dirs s at no_more o = o
note_dirs s at (and_folder name is_symlink g rest) o =
    let below = at ++ name ∷ [] in
    note_dirs s at rest (note_dir (judge_dir s below name is_symlink) below name o)

-- What becomes of a file.
pub data FileVerdict : Type 0 where
  linked archived forced shipped : FileVerdict
  file_excluded : Reason → FileVerdict

abbrev pub by_reason : Option Reason → FileVerdict
by_reason none = shipped
by_reason (some r) = file_excluded r

-- The first exclusion that there is.
abbrev pub or_reason : Option Reason → Option Reason → Option Reason
or_reason none next = next
or_reason (some r) next = some r

unfoldable pub judge_file : Scan → Option Reason → RelPath → File → FileVerdict
judge_file s suppressed at f =
    if f.is_symlink
    then linked
    else if any (λ p. p == at) s.reserved
    then archived
    else if is_some (is_force_included s.fnmatch f.name (normalise_rel at) s.rules.include_patterns)
    then forced
    else by_reason
        (or_reason suppressed (should_exclude_file s.fnmatch s.rules f.name (normalise_rel at)))

abbrev pub note_clean : Scan → RelPath → File → ScanResult → ScanResult
note_clean s at f o =
    if is_some (matches_any_pattern s.fnmatch f.name clean_file_patterns)
    then record o { clean_files = o.clean_files ++ at ∷ [] }
    else o

unfoldable pub note_file : Scan → FileVerdict → RelPath → File → ScanResult → ScanResult
note_file s linked at f o = record o {
  skipped_symlinks = o.skipped_symlinks ++ decided at symlink_file ∷ [];
}
note_file s archived at f o = record o { excluded = o.excluded ++ decided at reserved_output ∷ [] }
note_file s forced at f o =
    let o' = note_clean s at f o in
    record o' {
      included_files = o'.included_files ++ at ∷ [];
      force_included = o'.force_included ++ at ∷ [];
    }
note_file s (file_excluded r) at f o =
    let o' = note_clean s at f o in record o' { excluded = o'.excluded ++ decided at r ∷ [] }
note_file s shipped at f o =
    let o' = note_clean s at f o in record o' { included_files = o'.included_files ++ at ∷ [] }

unfoldable pub note_files : Scan → Option Reason → RelPath → List File → ScanResult → ScanResult
note_files s suppressed at [] o = o
note_files s suppressed at (f ∷ fs) o =
    let below = at ++ f.name ∷ [] in
    note_files s suppressed at fs (note_file s (judge_file s suppressed below f) below f o)

abbrev pub is_walked : DirVerdict → Bool
is_walked kept = true
is_walked (reopened r) = true
is_walked _ = false

-- `inherited_exclusion`: the reason of the nearest folder that was reopened.
abbrev pub inherited : DirVerdict → Option Reason → Option Reason
inherited (reopened r) suppressed = some r
inherited _ suppressed = suppressed

-- A folder, then the folders in it that are kept.
unfoldable mutual
  pub walk : Scan → Option Reason → RelPath → Folder → ScanResult → ScanResult
  walk s suppressed at (folder files dirs) o =
      let here = note_files s suppressed at files (note_dirs s at dirs o) in
      let all = walk_each s suppressed at dirs here in
      if is_pruned s.output_dir at
      then record o { excluded = o.excluded ++ decided at output_directory ∷ [] }
      else all

  pub walk_each : Scan → Option Reason → RelPath → Folders → ScanResult → ScanResult
  walk_each s suppressed at no_more o = o
  walk_each s suppressed at (and_folder name is_symlink g rest) o =
      let below = at ++ name ∷ [] in
      let v = judge_dir s below name is_symlink in
      let inside = walk s (inherited v suppressed) below g o in
      walk_each s suppressed at rest (if is_walked v then inside else o)

unfoldable pub scan_project : Scan → Folder → ScanResult
scan_project s project = walk s none [] project no_result
