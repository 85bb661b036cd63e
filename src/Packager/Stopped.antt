-- ===== src/Packager/Stopped.antt =====
-- project_packager.py: a run of cmd_package stops before anything is changed, or is refused nothing.
use adp_pro.Prelude.{
  ℕ, ltb, ◌≡◌, ◌≢◌, refl, ◌∙◌, sym, ap, subst, ◌⊎◌, inl, inr, Bool, true, false, not, ◌&&◌, Option,
  none, some, List, if◌then◌else◌, if_rule, is_some, arith, Bool-cases,
}
use adp_pro.Files.Names.{Text}
use adp_pro.Packager.Paths.{RelPath}
use adp_pro.Packager.Rules.{Rules}
use adp_pro.Packager.Scan.{ScanResult}
use adp_pro.Packager.Archive.{has_reserved_collision}
use adp_pro.Packager.Verify.{
  Exit, ok, bad_project, secrets, bad_config, output_exists, reserved_name,
}
use adp_pro.Packager.Profiles.{load_ignore_file}
use adp_pro.Packager.Command.{
  Args, presets, System, World, Done, stop, or_go_on, remove_clean_targets, scan_of, rules_of,
  check_gate, checked, after_checks, secrets_of, has_blocking, refusal, write_archive,
  package_scanned, package_rules, package_checked, cmd_package,
}

-- The run, with the project as the checks left it, went on to cleaning and writing.
abbrev pub Reaches : {P B : Type 0} → System P B → Args → World P B → Done P B → Type 0
Reaches env a w d =
    (ignore : List Text) × (load_ignore_file env.is_space (env.ignore_file w.project) ≡ some ignore)
    × (refusal env a (scan_of env (rules_of env a ignore) w.project) w ≡ none)
    × (d
        ≡ package_scanned env a (rules_of env a ignore)
            (scan_of env (rules_of env a ignore) w.project) w)

-- It stopped before, and nothing is changed.
abbrev pub Stopped : {P B : Type 0} → World P B → Done P B → Type 0
Stopped w d = (d.exit ≢ ok) × (d.world ≡ w)

or_go_on-cases :
    {P B : Type 0} (w : World P B) (x : Option Exit) (d : Done P B)
    → x ≢ some ok
    → Stopped w (or_go_on w x d) ⊎ ((x ≡ none) × (or_go_on w x d ≡ d))
or_go_on-cases w none d h = inr (refl, refl)
or_go_on-cases w (some e) d h = inl (λ is_ok. h (ap some is_ok), refl)

stops :
    (b c d e f : Bool)
    → (if b
        then some output_exists
        else if c
        then some secrets
        else if d
        then some secrets
        else if e
        then some reserved_name
        else if f
        then some output_exists
        else none)
      ≢ some ok
stops true c d e f h = ground arith
stops false true d e f h = ground arith
stops false false true e f h = ground arith
stops false false false true f h = ground arith
stops false false false false true h = ground arith
stops false false false false false h = ground arith

refusal-not-ok :
    {P B : Type 0} (env : System P B) (a : Args) (scan : ScanResult) (w : World P B)
    → refusal env a scan w ≢ some ok
unfolding refusal
refusal-not-ok env a scan w =
    let gate = (presets a).fail_on_secrets && not a.force in
    stops (a.overwrite && gate) (not (presets a).scan_secrets && gate)
      (has_blocking (secrets_of env a scan w.project) && gate)
      (has_reserved_collision scan.included_files)
      (is_some w.shelf.archive && not a.overwrite && not a.dry_run)

check_gate-not-ok : (a : Args) (failures : Option ℕ) → check_gate a failures ≢ some ok
unfolding check_gate
check_gate-not-ok a none h = ground arith
check_gate-not-ok a (some n) h = ground arith

package_checked-cases :
    {P B : Type 0} (env : System P B) (a : Args) (w : World P B)
    → Stopped w (package_checked env a w)
      ⊎ ((ignore : List Text) × (load_ignore_file env.is_space (env.ignore_file w.project)
            ≡ some ignore)
          × (package_checked env a w ≡ package_rules env a (rules_of env a ignore) w))
unfolding package_checked
package_checked-cases {P} {B} env a w =
    loaded (load_ignore_file env.is_space (env.ignore_file w.project))
  where
    loaded :
        (x : Option (List Text))
        → Stopped w (elim x [
          | none ↦ stop w bad_config
          | some ignore ↦ package_rules env a (rules_of env a ignore) w
        ])
          ⊎ ((ignore : List Text) × (x ≡ some ignore)
              × (elim x [
                | none ↦ stop w bad_config
                | some ignore ↦ package_rules env a (rules_of env a ignore) w
              ]
                  ≡ package_rules env a (rules_of env a ignore) w))
    loaded none = inl (ground arith, refl)
    loaded (some ignore) = inr (ignore, refl, refl)

package_rules-cases :
    {P B : Type 0} (env : System P B) (a : Args) (w : World P B)
    → Stopped w (package_checked env a w) ⊎ Reaches env a w (package_checked env a w)
unfolding package_rules
package_rules-cases env a w = elim (package_checked-cases env a w) [
  | inl stopped ↦ inl stopped
  | inr (ignore, loaded, e) ↦
      let scan = scan_of env (rules_of env a ignore) w.project in
      elim (or_go_on-cases w (refusal env a scan w)
        (package_scanned env a (rules_of env a ignore) scan w) (refusal-not-ok env a scan w)) [
          | inl stopped ↦ inl (subst (Stopped w) (sym e) stopped)
          | inr (free, e') ↦ inr (ignore, loaded, free, e ∙ e')
        ]
]

-- A run that stops early leaves all as it was, or as the checks left it; the others were refused
-- nothing.
pub cmd_package-cases :
    {P B : Type 0} (env : System P B) (a : Args) (w : World P B)
    → let w' = after_checks env a w in
      let d = cmd_package env a w in (Stopped w d ⊎ Stopped w' d) ⊎ Reaches env a w' d
unfolding cmd_package
cmd_package-cases {P} {B} env a w =
    let w' = after_checks env a w in
    let gate = check_gate a (checked env a w.project).1 in
    if_rule (λ (d : Done P B). (Stopped w d ⊎ Stopped w' d) ⊎ Reaches env a w' d)
      (not (env.exists w.project && env.is_dir w.project)) (stop w bad_project)
      (or_go_on w' gate (package_checked env a w')) (λ missing. inl (inl (ground arith, refl)))
      (λ found.
        elim (or_go_on-cases w' gate (package_checked env a w')
          (check_gate-not-ok a (checked env a w.project).1)) [
            | inl stopped ↦ inl (inr stopped)
            | inr (_, e) ↦ elim (package_rules-cases env a w') [
              | inl stopped ↦ inl (inr (subst (Stopped w') (sym e) stopped))
              | inr reached ↦ inr (subst (Reaches env a w') (sym e) reached)
            ]
          ])

-- Past the refusals: a dry run, or a write.
pub package_scanned-cases :
    {P B : Type 0} (env : System P B) (a : Args) (rules : Rules) (scan : ScanResult) (w : World P B)
    → ((a.dry_run ≡ true) × ((package_scanned env a rules scan w).exit ≡ ok))
      ⊎ ((a.dry_run ≡ false)
          × ((project : P) × (included : List RelPath) × (package_scanned env a rules scan w
                ≡ write_archive env a project included w.shelf)))
unfolding package_scanned
package_scanned-cases {P} {B} env a rules scan w = elim (Bool-cases a.dry_run) [
  | inl dry ↦ inl (dry, ground arith)
  | inr wet ↦ elim (Bool-cases (presets a).clean) [
    | inr as_is ↦ inr (wet, (w.project, scan.included_files, ground arith))
    | inl cleans ↦
        let cleaned = remove_clean_targets env scan a.dry_run w.project in
        inr (
          wet,
          (
            cleaned.project,
            (if ltb 0 cleaned.count
                then (scan_of env rules cleaned.project).included_files
                else scan.included_files),
            ground arith,
          ),
        )
  ]
]
