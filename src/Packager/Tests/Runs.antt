-- ===== src/Packager/Tests/Runs.antt =====
-- Runs of cmd_package on the same project: a release, a dry run and a missing project.
use mathlib.Core.List.{Memᴰ}
use adp_pro.Prelude.{◌==◌, ◌≡◌, refl, ◌⊎◌, inl, inr, Bool, true, false, none, some, List, [], All}
use adp_pro.Files.Names.{Text, rstrip}
use adp_pro.Packager.Paths.{codes, text_eq, normalise_rel}
use adp_pro.Packager.Rules.{
  matches_any_pattern, matches_path_pattern, is_force_included, include_may_reopen_dir,
  should_exclude_dir, should_exclude_file,
}
use adp_pro.Packager.Scan.{
  elsewhere, reserved_output_paths, is_pruned, judge_dir, note_dir, note_dirs, judge_file,
  note_file, note_files, walk, scan_project,
}
use adp_pro.Packager.Archive.{
  create_zip, has_reserved_collision, write_members, write_each, write_manifest, is_contained,
  sorted, insert, path_before, text_before, entries_of, build_manifest, seal,
}
use adp_pro.Packager.Verify.{ok, exits, verify_archive}
use adp_pro.Packager.Profiles.{
  Profile, share, release, missing, load_ignore_file, add_patterns, profile_rules, strict_rules,
  add_pattern, add_raw_pattern, add_raw_patterns, build_rules,
}
use adp_pro.Packager.Secrets.{
  decoded, looks_binary, evens, sniff_utf16, bom_of, as_utf_8, detect_text_encoding,
  decode_text_strict, read_text_safe, note_scan, scan_file, scan_for_secrets, unscanned_text_files,
}
use adp_pro.Packager.Gate.{IsRead, IsBinary}
use adp_pro.Packager.Command.{
  Args, presets, for_profile, System, World, scan_of, rules_of, remove_each, insert_deepest,
  deepest_first, remove_clean_targets, check_gate, checked, after_checks, has_blocking, refusal,
  exit_after, write_archive, package_scanned, package_rules, package_checked, cmd_package,
}
use adp_pro.Packager.Released.{
  is_early, cmd_package-is_early, cmd_package-secrets, cmd_package-verify_archive,
}
use adp_pro.Packager.Strict.{with_profile, build_rules-scan_project}
use adp_pro.Packager.Tests.{
  Blob, blobs, blobs-IsDocumented, project, disk, allowed, no_archive, is_blank, request, note,
}

-- A state says whether the project is there.
abbrev env : System Bool Blob
env = record {
  exists = λ p. p;
  is_dir = λ p. p;
  run_all_checks = λ p. (p, some 0);
  ignore_file = λ p. missing;
  tree = λ p. project;
  disk = λ p. disk;
  probe = λ p q. record { size = some 2; content = some (codes "hi") };
  is_there = λ p q. false;
  unlink = λ q p. none;
  rmtree = λ q p. none;
  decoder = λ c bytes. decoded bytes;
  matches = λ q t. [];
  fnmatch = λ n p. n == p;
  is_space = is_blank;
  libraries = blobs;
  allowed = allowed;
  output_dir = elsewhere;
  zip_name = codes "home.zip";
  project_name = codes "home";
  now = codes "now";
}

abbrev options : Profile → Bool → Args
options profile dry_run = record {
  profile = profile;
  strict = false;
  clean = false;
  no_scan = false;
  check = false;
  force = false;
  overwrite = false;
  dry_run = dry_run;
  no_manifest = false;
  exclude = [];
  include = [];
}

abbrev world : Bool → World Bool Blob
world p = record { project = p; shelf = no_archive }

cmd_package-is_early_example :
    let r = (cmd_package env (options release false) (world false)).world in
    (r ≡ world false) ⊎ (r ≡ after_checks env (options release false) (world false))
unfolding cmd_package is_early
cmd_package-is_early_example = cmd_package-is_early env (options release false) (world false) (refl)

release-ok : (cmd_package env (options release false) (world true)).exit ≡ ok
unfolding cmd_package check_gate checked presets for_profile package_checked load_ignore_file
    package_rules package_scanned remove_clean_targets remove_each deepest_first insert_deepest
    refusal has_blocking exit_after write_archive build_rules add_raw_patterns add_raw_pattern
    add_pattern strict_rules profile_rules add_patterns scan_project walk note_files note_file
    judge_file note_dirs note_dir judge_dir is_pruned reserved_output_paths should_exclude_file
    should_exclude_dir matches_any_pattern matches_path_pattern is_force_included
    include_may_reopen_dir normalise_rel rstrip create_zip has_reserved_collision write_members
    write_each write_manifest is_contained sorted insert path_before text_before entries_of
    build_manifest seal scan_for_secrets scan_file note_scan read_text_safe decode_text_strict
    detect_text_encoding bom_of sniff_utf16 evens as_utf_8 looks_binary unscanned_text_files
release-ok = refl

cmd_package-secrets_example :
    (ignore : List Text) × (load_ignore_file env.is_space (env.ignore_file true) ≡ some ignore)
    × All
        (λ p.
          IsRead env.decoder env.matches p (env.probe true p)
          ⊎ IsBinary env.decoder (env.probe true p))
        (scan_of env (rules_of env (options release false) ignore) true).included_files
unfolding checked presets for_profile
cmd_package-secrets_example =
    cmd_package-secrets env (options release false) (world true) (inl refl) refl release-ok

cmd_package-verify_archive_example :
    verify_archive blobs (cmd_package env (options release false) (world true)).world.shelf
    ≡ exits ok
cmd_package-verify_archive_example =
    cmd_package-verify_archive env (options release false) (world true) blobs-IsDocumented refl refl
      (inr refl) release-ok

note-strict :
    Memᴰ note
      (scan_project (with_profile request is_blank share [] [] [] true) project).included_files
unfolding build_rules add_raw_patterns strict_rules profile_rules add_patterns scan_project walk
    note_files note_file judge_file note_dirs note_dir judge_dir is_pruned should_exclude_file
    should_exclude_dir matches_any_pattern matches_path_pattern is_force_included
    include_may_reopen_dir normalise_rel rstrip
note-strict = Memᴰ.head refl

build_rules-scan_project_example :
    Memᴰ note
      (scan_project (with_profile request is_blank share [] [] [] false) project).included_files
build_rules-scan_project_example =
    build_rules-scan_project request is_blank share [] [] [] project note note-strict
