-- ===== src/Packager/Released.antt =====
-- project_packager.py: what the exit of cmd_package promises.
use adp_pro.Prelude.{
  ℕ, ◌≡◌, refl, ◌∙◌, sym, ap, subst, ◌⊎◌, inl, inr, Bool, true, false, not, ◌&&◌, ◌||◌, Option,
  none, some, List, [], ◌∷◌, if◌then◌else◌, if_rule, is_some, All, arith,
}
use adp_pro.Files.Names.{Text}
use adp_pro.Packager.Paths.{RelPath}
use adp_pro.Packager.Rules.{Rules}
use adp_pro.Packager.Scan.{ScanResult}
use adp_pro.Packager.Digest.{IsDocumented, Manifest}
use adp_pro.Packager.Archive.{
  Shelf, Failure, Result, created, refused, absent, has_reserved_collision, build_manifest,
  create_zip,
}
use adp_pro.Packager.Archive as Archive
use adp_pro.Packager.Verify.{
  Exit, ok, bad_project, secrets, checks_failed, bad_config, output_exists, os_error, reserved_name,
  exits, verify_archive,
}
use adp_pro.Packager.Roundtrip.{create_zip-verify_archive}
use adp_pro.Packager.Profiles.{load_ignore_file, share, release}
use adp_pro.Packager.Secrets.{SecretScanResult, scan_for_secrets, unscanned_text_files}
use adp_pro.Packager.Gate.{IsRead, IsBinary, Passes, scan_for_secrets-All}
use adp_pro.Packager.Command.{
  Args, presets, System, World, Done, Removed, remove_each, remove_clean_targets, scan_of, rules_of,
  secrets_of, is_nil, has_blocking, refusal, exit_of, exit_after, zip_of, write_archive,
  package_scanned, cmd_package, deepest_first, for_profile, after_checks,
}
use adp_pro.Packager.Stopped.{cmd_package-cases, package_scanned-cases}

unfoldable pub is_early : Exit → Bool
is_early bad_project = true
is_early checks_failed = true
is_early bad_config = true
is_early secrets = true
is_early _ = false

exit_after-late : (a : Args) (r : Result) → is_early (exit_after a r) ≡ false
unfolding is_early exit_after exit_of
exit_after-late a (refused Archive.output_exists) = refl
exit_after-late a (refused Archive.reserved_name) = refl
exit_after-late a (refused Archive.containment) = refl
exit_after-late a (refused Archive.os_error) = refl
exit_after-late a (created total digest sidecar_written) =
    if_rule (λ e. is_early e ≡ false) _ os_error ok (λ _. refl) (λ _. refl)

package_scanned-late :
    {P B : Type 0} (env : System P B) (a : Args) (rules : Rules) (scan : ScanResult) (w : World P B)
    → is_early (package_scanned env a rules scan w).exit ≡ false
unfolding write_archive
package_scanned-late {P} {B} env a rules scan w = elim (package_scanned-cases env a rules scan w) [
  | inl (_, e) ↦ ap is_early e ∙ unfold is_early in refl
  | inr (_, (project, included, e)) ↦
      ap (λ (d : Done P B). is_early d.exit) e
      ∙ exit_after-late a (zip_of env a project included w.shelf).result
]

-- A run that exits because the project is missing, fails its checks, is badly configured or may hold
-- secrets has cleaned nothing and written no archive: the archive and the sidecar are as before, and
-- the project is as before, or as the checks left it where they were asked for.
pub cmd_package-is_early :
    {P B : Type 0} (env : System P B) (a : Args) (w : World P B)
    → is_early (cmd_package env a w).exit ≡ true
    → ((cmd_package env a w).world ≡ w) ⊎ ((cmd_package env a w).world ≡ after_checks env a w)
cmd_package-is_early {P} {B} env a w h = elim (cmd_package-cases env a w) [
  | inl (inl stopped) ↦ inl stopped.1
  | inl (inr stopped) ↦ inr stopped.1
  | inr (ignore, loaded, free, e) ↦
      let late =
        package_scanned-late env a (rules_of env a ignore)
          (scan_of env (rules_of env a ignore) (after_checks env a w).project)
          (after_checks env a w) in
      let late' = ap (λ (d : Done P B). is_early d.exit) e ∙ late in ground arith
]

-- Nothing but the counts comes of a dry run.
remove_each-dry :
    {P : Type 0} (is_there : P → RelPath → Bool) (delete : RelPath → P → Option P)
    (ps : List RelPath) (project : P)
    → (remove_each is_there delete true ps project).project ≡ project
unfolding remove_each
remove_each-dry is_there delete [] project = refl
remove_each-dry {P} is_there delete (p ∷ ps) project =
    let rest = remove_each-dry is_there delete ps project in
    if_rule (λ (r : Removed P). r.project ≡ project) (not (is_there project p)) _ _ (λ _. rest)
      (λ _. rest)

remove_clean_targets-dry :
    {P B : Type 0} (env : System P B) (scan : ScanResult) (project : P)
    → (remove_clean_targets env scan true project).project ≡ project
unfolding remove_clean_targets
remove_clean_targets-dry env scan project =
    let files = remove_each env.is_there env.unlink true scan.clean_files project in
    remove_each-dry env.is_there env.rmtree (deepest_first scan.clean_dirs) files.project
    ∙ remove_each-dry env.is_there env.unlink scan.clean_files project

package_scanned-dry :
    {P B : Type 0} (env : System P B) (a : Args) (rules : Rules) (scan : ScanResult) (w : World P B)
    → a.dry_run ≡ true
    → (package_scanned env a rules scan w).world ≡ w
unfolding package_scanned
package_scanned-dry {P} {B} env a rules scan w dry =
    let same =
      subst (λ b. (remove_clean_targets env scan b w.project).project ≡ w.project) (sym dry)
        (remove_clean_targets-dry env scan w.project) in
    if_rule (λ (d : Done P B). d.world ≡ w) a.dry_run _ _
      (λ _.
        ap (λ q. record w { project = q })
          (if_rule (λ q. q ≡ w.project) (presets a).clean _ _ (λ _. same) (λ _. refl)))
      (λ wet. ground arith)

-- A dry run changes nothing, but by its checks.
cmd_package-dry_run :
    {P B : Type 0} (env : System P B) (a : Args) (w : World P B)
    → a.dry_run ≡ true
    → ((cmd_package env a w).world ≡ w) ⊎ ((cmd_package env a w).world ≡ after_checks env a w)
cmd_package-dry_run {P} {B} env a w dry = elim (cmd_package-cases env a w) [
  | inl (inl stopped) ↦ inl stopped.1
  | inl (inr stopped) ↦ inr stopped.1
  | inr (ignore, loaded, free, e) ↦
      let w' = after_checks env a w in
      inr (
        ap (λ (d : Done P B). d.world) e
        ∙ package_scanned-dry env a (rules_of env a ignore)
            (scan_of env (rules_of env a ignore) w'.project) w' dry)
]

stops-none :
    (b c d e f : Bool)
    → (if b
        then some output_exists
        else if c
        then some secrets
        else if d
        then some secrets
        else if e
        then some reserved_name
        else if f
        then some output_exists
        else none)
      ≡ none
    → (c ≡ false) × (d ≡ false)
stops-none true c d e f h = ground arith
stops-none false true d e f h = ground arith
stops-none false false true e f h = ground arith
stops-none false false false e f h = (refl, refl)

is_nil-empty {ℓ} : {A : Type ℓ} (xs : List A) → is_nil xs ≡ true → xs ≡ []
is_nil-empty [] h = refl
is_nil-empty (x ∷ xs) h = ground arith

has_blocking-Passes : (r : SecretScanResult) → has_blocking r ≡ false → Passes r
unfolding has_blocking
has_blocking-Passes r h =
    (is_nil-empty r.findings (ground arith), is_nil-empty (unscanned_text_files r) (ground arith))

opened :
    (x fails force : Bool)
    → x && (fails && not force) ≡ false
    → fails ≡ true
    → force ≡ false
    → x ≡ false
opened true fails force h f g = ground arith
opened false fails force h f g = refl

refusal-Passes :
    {P B : Type 0} (env : System P B) (a : Args) (scan : ScanResult) (w : World P B)
    → (presets a).fail_on_secrets ≡ true
    → a.force ≡ false
    → refusal env a scan w ≡ none
    → Passes (scan_for_secrets env.decoder env.matches (env.probe w.project) scan.included_files)
unfolding refusal
refusal-Passes env a scan w fails no_force h =
    let gate = (presets a).fail_on_secrets && not a.force in
    let (no_scan, blocked) =
      stops-none (a.overwrite && gate) (not (presets a).scan_secrets && gate)
        (has_blocking (secrets_of env a scan w.project) && gate)
        (has_reserved_collision scan.included_files)
        (is_some w.shelf.archive && not a.overwrite && not a.dry_run) h in
    let scans =
      opened (not (presets a).scan_secrets) (presets a).fail_on_secrets a.force no_scan fails
        no_force in
    let passes = has_blocking-Passes (secrets_of env a scan w.project) (
      opened (has_blocking (secrets_of env a scan w.project)) (presets a).fail_on_secrets a.force
        blocked fails no_force) in
    let scans_on : (presets a).scan_secrets ≡ true = ground arith in
    subst Passes
      (ap
        (λ b.
          if b
          then scan_for_secrets env.decoder env.matches (env.probe w.project) scan.included_files
          else record { findings = []; unscanned = [] })
        scans_on)
      passes

-- The options that turn the gate on: release, or strict with the profile share. Strict with the
-- profile backup does not.
abbrev pub IsGated : Args → Type 0
IsGated a = (a.profile ≡ release) ⊎ ((a.strict ≡ true) × (a.profile ≡ share))

gated-fails : (a : Args) → IsGated a → (presets a).fail_on_secrets ≡ true
unfolding presets for_profile
gated-fails a (inl e) = ground arith
gated-fails a (inr (s, e)) = ground arith

-- A run with the profile release, or strict with the profile share, without force, that exits with OK
-- has scanned the files for secrets: each file that the scan of the project included, as the checks
-- left it, was read whole and nothing matched in it, or it is binary by its signature or its control
-- bytes.
pub cmd_package-secrets :
    {P B : Type 0} (env : System P B) (a : Args) (w : World P B)
    → IsGated a
    → a.force ≡ false
    → (cmd_package env a w).exit ≡ ok
    → let project = (after_checks env a w).project in
      (ignore : List Text) × (load_ignore_file env.is_space (env.ignore_file project) ≡ some ignore)
      × All
          (λ p.
            IsRead env.decoder env.matches p (env.probe project p)
            ⊎ IsBinary env.decoder (env.probe project p))
          (scan_of env (rules_of env a ignore) project).included_files
cmd_package-secrets env a w gated no_force h = elim (cmd_package-cases env a w) [
  | inl (inl stopped) ↦ absurd (stopped.0 h)
  | inl (inr stopped) ↦ absurd (stopped.0 h)
  | inr (ignore, loaded, free, e) ↦
      let w' = after_checks env a w in
      let scan = scan_of env (rules_of env a ignore) w'.project in
      (
        ignore,
        loaded,
        scan_for_secrets-All env.decoder env.matches (env.probe w'.project) scan.included_files
            (refusal-Passes env a scan w' (gated-fails a gated) no_force free),
      )
]

must_seal :
    (is_written no_manifest fails force : Bool)
    → (if not is_written && (no_manifest || fails && not force) then os_error else ok) ≡ ok
    → fails ≡ true
    → force ≡ false
    → is_written ≡ true
must_seal true n f o h g k = refl
must_seal false n f o h g k = ground arith

exit_after-ok :
    (a : Args) (r : Result)
    → exit_after a r ≡ ok
    → (total : ℕ) × (digest : Text) × (is_written : Bool) × (r ≡ created total digest is_written)
      × ((presets a).fail_on_secrets ≡ true → a.force ≡ false → is_written ≡ true)
unfolding exit_after exit_of
exit_after-ok a (refused Archive.output_exists) h = ground arith
exit_after-ok a (refused Archive.reserved_name) h = ground arith
exit_after-ok a (refused Archive.containment) h = ground arith
exit_after-ok a (refused Archive.os_error) h = ground arith
exit_after-ok a (created total digest is_written) h = (
  total,
  digest,
  is_written,
  refl,
  must_seal is_written a.no_manifest (presets a).fail_on_secrets a.force h,
)

zip_of-verify_archive :
    {P B : Type 0} (env : System P B) (a : Args) (project : P) (included : List RelPath)
    (shelf : Shelf B) (total : ℕ) (digest : Text) (is_written : Bool)
    → IsDocumented env.libraries
    → a.no_manifest ≡ false
    → (is_written ≡ true) ⊎ (shelf.sidecar ≡ absent)
    → (zip_of env a project included shelf).result ≡ created total digest is_written
    → verify_archive env.libraries (zip_of env a project included shelf).shelf ≡ exits ok
zip_of-verify_archive env a project included shelf total digest is_written d embeds s =
    let zip = λ (m : Option Manifest).
      create_zip env.libraries env.allowed env.zip_name (env.disk project) included a.overwrite m
        shelf in
    if_rule
      (λ (m : Option Manifest).
        (zip m).result ≡ created total digest is_written
        → verify_archive env.libraries (zip m).shelf ≡ exits ok)
      a.no_manifest none
      (some (build_manifest env.libraries (env.disk project) env.now env.project_name included))
      (λ left_out. ground arith)
      (λ _. λ made.
        create_zip-verify_archive env.libraries env.allowed env.zip_name env.now env.project_name
          (env.disk project) included a.overwrite shelf total digest is_written d made s)

-- A run that packages, embeds the manifest and exits with OK leaves an archive that verify_archive
-- accepts, with the profile release, or strict with the profile share, without force, or where no
-- older sidecar lies beside the archive.
pub cmd_package-verify_archive :
    {P B : Type 0} (env : System P B) (a : Args) (w : World P B)
    → IsDocumented env.libraries
    → a.dry_run ≡ false
    → a.no_manifest ≡ false
    → (IsGated a × (a.force ≡ false)) ⊎ (w.shelf.sidecar ≡ absent)
    → (cmd_package env a w).exit ≡ ok
    → verify_archive env.libraries (cmd_package env a w).world.shelf ≡ exits ok
unfolding write_archive
cmd_package-verify_archive {P} {B} env a w d wet embeds sealed h =
    elim (cmd_package-cases env a w) [
      | inl (inl stopped) ↦ absurd (stopped.0 h)
      | inl (inr stopped) ↦ absurd (stopped.0 h)
      | inr (ignore, loaded, free, e) ↦
          elim (package_scanned-cases env a (rules_of env a ignore)
            (scan_of env (rules_of env a ignore) (after_checks env a w).project)
            (after_checks env a w)) [
              | inl (dry, _) ↦ ground arith
              | inr (_, (project, included, e')) ↦
                  let o = zip_of env a project included w.shelf in
                  let is_ok = subst (λ (x : Done P B). x.exit ≡ ok) (e ∙ e') h in
                  let (total, digest, is_written, made, seals) = exit_after-ok a o.result is_ok in
                  let sidecar : (is_written ≡ true) ⊎ (w.shelf.sidecar ≡ absent) = elim sealed [
                    | inl (gated, no_force) ↦ inl (seals (gated-fails a gated) no_force)
                    | inr none_there ↦ inr none_there
                  ] in
                  subst (λ (x : Done P B). verify_archive env.libraries x.world.shelf ≡ exits ok)
                    (sym (e ∙ e'))
                    (zip_of-verify_archive env a project included w.shelf total digest is_written d
                      embeds sidecar made)
            ]
    ]
