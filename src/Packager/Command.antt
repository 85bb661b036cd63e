-- ===== src/Packager/Command.antt =====
-- project_packager.py: cmd_package. The file system and the clock are given; what a run prints, and
-- the folder it opens at the end, are left out.
use adp_pro.Prelude.{
  ℕ, ◌+◌, ltb, leb, Bool, true, false, not, ◌&&◌, ◌||◌, Option, none, some, List, [], ◌∷◌,
  if◌then◌else◌, is_some, length,
}
use adp_pro.Files.Names.{Text}
use adp_pro.Packager.Paths.{RelPath}
use adp_pro.Packager.Rules.{Rules, Fnmatch}
use adp_pro.Packager.Scan.{Folder, ScanResult, OutputDir, reserved_output_paths, scan_project}
use adp_pro.Packager.Digest.{Manifest, Libraries}
use adp_pro.Packager.Archive.{
  Disk, build_manifest, Failure, Result, created, refused, Allowed, Shelf, Outcome,
  has_reserved_collision, create_zip,
}
use adp_pro.Packager.Archive as Archive
use adp_pro.Packager.Verify.{
  Exit, ok, bad_project, output_exists, os_error, secrets, checks_failed, reserved_name, bad_config,
  containment,
}
use adp_pro.Packager.Profiles.{
  Profile, share, release, backup, IgnoreFile, load_ignore_file, build_rules,
}
use adp_pro.Packager.Secrets.{
  Decoder, Matches, Probe, SecretScanResult, scan_for_secrets, unscanned_text_files,
}

pub record Args : Type 0 where
  pub profile : Profile
  pub strict : Bool
  pub clean : Bool
  pub no_scan : Bool
  pub check : Bool
  pub force : Bool
  pub overwrite : Bool
  pub dry_run : Bool
  pub no_manifest : Bool
  pub exclude : List Text
  pub include : List Text

-- What a profile makes of the options.
pub record Presets : Type 0 where
  pub strict : Bool
  pub clean : Bool
  pub scan_secrets : Bool
  pub fail_on_secrets : Bool
  pub run_checks_first : Bool

abbrev given : Args → Presets
given a = record {
  strict = a.strict;
  clean = a.clean;
  scan_secrets = not a.no_scan;
  fail_on_secrets = a.strict;
  run_checks_first = a.check;
}

unfoldable pub for_profile : Profile → Presets → Presets
for_profile share pre = pre
for_profile release pre = record pre {
  strict = true;
  clean = true;
  fail_on_secrets = true;
  run_checks_first = true;
}
for_profile backup pre = record pre { scan_secrets = false; fail_on_secrets = false }

unfoldable pub presets : Args → Presets
presets a = for_profile a.profile (given a)

-- The project's side of the file system: P is its state.
pub record System (P : Type 0) (B : Type 0) : Type 0 where
  pub exists : P → Bool
  pub is_dir : P → Bool
  -- `run_all_checks`: its failures, none for a configuration error, and the project that it leaves. The
  -- build of a wheel writes in the project.
  pub run_all_checks : P → P × Option ℕ
  pub ignore_file : P → IgnoreFile
  pub tree : P → Folder
  pub disk : P → Disk B
  pub probe : P → RelPath → Probe
  -- A file or a folder is there; it is deleted, unless the system refuses.
  pub is_there : P → RelPath → Bool
  pub unlink : RelPath → P → Option P
  pub rmtree : RelPath → P → Option P
  pub decoder : Decoder
  pub matches : Matches
  pub fnmatch : Fnmatch
  pub is_space : ℕ → Bool
  pub libraries : Libraries B
  pub allowed : Allowed
  pub output_dir : OutputDir
  pub zip_name : Text
  pub project_name : Text
  pub now : Text

pub record World (P : Type 0) (B : Type 0) : Type 0 where
  pub project : P
  pub shelf : Shelf B

pub record Done (P : Type 0) (B : Type 0) : Type 0 where
  pub exit : Exit
  pub world : World P B

abbrev pub stop : {P B : Type 0} → World P B → Exit → Done P B
stop w e = record { exit = e; world = w }

-- The exit that is decided, or the run that goes on.
abbrev pub or_go_on : {P B : Type 0} → World P B → Option Exit → Done P B → Done P B
or_go_on w none d = d
or_go_on w (some e) d = stop w e

-- What a removal leaves, and how many it counts.
pub record Removed (P : Type 0) : Type 0 where
  pub project : P
  pub count : ℕ

-- What is not there is passed over, and so is what the system refuses to delete.
unfoldable pub remove_each :
    {P : Type 0}
    → (P → RelPath → Bool)
    → (RelPath → P → Option P)
    → Bool
    → List RelPath
    → P
    → Removed P
remove_each is_there delete dry_run [] project = record { project = project; count = 0 }
remove_each is_there delete dry_run (p ∷ ps) project =
    let skipped = remove_each is_there delete dry_run ps project in
    if not (is_there project p)
    then skipped
    else if dry_run
    then record skipped { count = 1 + skipped.count }
    else elim (delete p project) [
      | none ↦ skipped
      | some project' ↦
          let rest = remove_each is_there delete dry_run ps project' in
          record rest { count = 1 + rest.count }
    ]

-- Deepest first, and in the order of the walk at one depth.
unfoldable pub insert_deepest : RelPath → List RelPath → List RelPath
insert_deepest p [] = p ∷ []
insert_deepest p (q ∷ qs) =
    let rest = insert_deepest p qs in if leb (length q) (length p) then p ∷ q ∷ qs else q ∷ rest

unfoldable pub deepest_first : List RelPath → List RelPath
deepest_first [] = []
deepest_first (p ∷ ps) = insert_deepest p (deepest_first ps)

-- The files, then the folders.
unfoldable pub remove_clean_targets :
    {P B : Type 0} → System P B → ScanResult → Bool → P → Removed P
remove_clean_targets env scan dry_run project =
    let files = remove_each env.is_there env.unlink dry_run scan.clean_files project in
    let dirs =
      remove_each env.is_there env.rmtree dry_run (deepest_first scan.clean_dirs) files.project in
    record dirs { count = files.count + dirs.count }

abbrev pub scan_of : {P B : Type 0} → System P B → Rules → P → ScanResult
scan_of env rules project =
    scan_project
      (record {
        fnmatch = env.fnmatch;
        rules = rules;
        output_dir = env.output_dir;
        reserved = reserved_output_paths env.output_dir env.zip_name;
      })
      (env.tree project)

abbrev pub rules_of : {P B : Type 0} → System P B → Args → List Text → Rules
rules_of env a ignore =
    build_rules env.is_space a.profile (presets a).strict ignore a.exclude a.include

-- The checks before packaging, if there are any.
unfoldable pub checked : {P B : Type 0} → System P B → Args → P → P × Option ℕ
checked env a project =
    if (presets a).run_checks_first then env.run_all_checks project else (project, some 0)

unfoldable pub check_gate : Args → Option ℕ → Option Exit
check_gate a none = some bad_config
check_gate a (some failures) = if ltb 0 failures && not a.force then some checks_failed else none

abbrev pub after_checks : {P B : Type 0} → System P B → Args → World P B → World P B
after_checks env a w = record w { project = (checked env a w.project).0 }

abbrev pub secrets_of : {P B : Type 0} → System P B → Args → ScanResult → P → SecretScanResult
secrets_of env a scan project =
    if (presets a).scan_secrets
    then scan_for_secrets env.decoder env.matches (env.probe project) scan.included_files
    else record { findings = []; unscanned = [] }

abbrev pub is_nil {ℓ} : {A : Type ℓ} → List A → Bool
is_nil [] = true
is_nil (x ∷ xs) = false

-- A finding, or a text file that was not read.
unfoldable pub has_blocking : SecretScanResult → Bool
has_blocking r = not (is_nil r.findings && is_nil (unscanned_text_files r))

-- The refusals, once the project is scanned: nothing has been changed so far.
unfoldable pub refusal : {P B : Type 0} → System P B → Args → ScanResult → World P B → Option Exit
refusal env a scan w =
    let gate = (presets a).fail_on_secrets && not a.force in
    if a.overwrite && gate
    then some output_exists
    else if not (presets a).scan_secrets && gate
    then some secrets
    else if has_blocking (secrets_of env a scan w.project) && gate
    then some secrets
    else if has_reserved_collision scan.included_files
    then some reserved_name
    else if is_some w.shelf.archive && not a.overwrite && not a.dry_run
    then some output_exists
    else none

unfoldable pub exit_of : Failure → Exit
exit_of Archive.output_exists = output_exists
exit_of Archive.reserved_name = reserved_name
exit_of Archive.containment = containment
exit_of Archive.os_error = os_error

-- The exit once create_zip is done: an archive that nothing vouches for is a failure.
unfoldable pub exit_after : Args → Result → Exit
exit_after a (refused f) = exit_of f
exit_after a (created total digest sidecar_written) =
    if not sidecar_written && (a.no_manifest || (presets a).fail_on_secrets && not a.force)
    then os_error
    else ok

abbrev pub manifest_of : {P B : Type 0} → System P B → Args → P → List RelPath → Option Manifest
manifest_of env a project included =
    if a.no_manifest
    then none
    else some (build_manifest env.libraries (env.disk project) env.now env.project_name included)

abbrev pub zip_of : {P B : Type 0} → System P B → Args → P → List RelPath → Shelf B → Outcome B
zip_of env a project included shelf =
    create_zip env.libraries env.allowed env.zip_name (env.disk project) included a.overwrite
      (manifest_of env a project included) shelf

-- The archive is written.
unfoldable pub write_archive :
    {P B : Type 0} → System P B → Args → P → List RelPath → Shelf B → Done P B
write_archive env a project included shelf =
    let o = zip_of env a project included shelf in
    record { exit = exit_after a o.result; world = record { project = project; shelf = o.shelf } }

-- Cleaning, and the scan again where something was deleted.
unfoldable pub package_scanned :
    {P B : Type 0} → System P B → Args → Rules → ScanResult → World P B → Done P B
package_scanned env a rules scan w =
    let cleaned = remove_clean_targets env scan a.dry_run w.project in
    if a.dry_run
    then record {
      exit = ok;
      world = record w { project = if (presets a).clean then cleaned.project else w.project };
    }
    else if not (presets a).clean
    then write_archive env a w.project scan.included_files w.shelf
    else write_archive env a cleaned.project
        (if ltb 0 cleaned.count
          then (scan_of env rules cleaned.project).included_files
          else scan.included_files)
        w.shelf

unfoldable pub package_rules : {P B : Type 0} → System P B → Args → Rules → World P B → Done P B
package_rules env a rules w =
    let scan = scan_of env rules w.project in
    or_go_on w (refusal env a scan w) (package_scanned env a rules scan w)

unfoldable pub package_checked : {P B : Type 0} → System P B → Args → World P B → Done P B
package_checked env a w = elim (load_ignore_file env.is_space (env.ignore_file w.project)) [
  | none ↦ stop w bad_config
  | some ignore ↦ package_rules env a (rules_of env a ignore) w
]

unfoldable pub cmd_package : {P B : Type 0} → System P B → Args → World P B → Done P B
cmd_package env a w =
    if not (env.exists w.project && env.is_dir w.project)
    then stop w bad_project
    else let w' = after_checks env a w in
      or_go_on w' (check_gate a (checked env a w.project).1) (package_checked env a w')
