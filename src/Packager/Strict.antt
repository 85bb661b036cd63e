-- ===== src/Packager/Strict.antt =====
-- project_packager.py: strict mode ships no file that the same run ships without it.
use mathlib.Core.List.{Memᴰ}
use mathlib.Core.List.Memᴰ
use adp_pro.Prelude.{
  ℕ, ◌≡◌, refl, sym, ap, subst, ◌∙◌, inl, inr, Bool, true, false, not, ◌||◌, Option, none, some,
  List, [], ◌∷◌, ◌++◌, if◌then◌else◌, if_rule, filter, map, is_some, arith, Option-cases,
}
use adp_pro.Files.Names.{Text, rstrip, is_empty}
use adp_pro.Packager.Paths.{RelPath, normalise_rel, ends_with_slash}
use adp_pro.Packager.Rules.{
  Rules, Reason, is_slash, has_slash, normalise_pattern, is_force_included, include_may_reopen_dir,
  should_exclude_dir,
}
use adp_pro.Packager.Scan.{Scan, Folder, folder, scan_project}
use adp_pro.Packager.Ships.{Ships, at_file, in_folder, IsWanted, Opens}
use adp_pro.Packager.Shipped.{scan_project-Ships}
use adp_pro.Packager.Profiles.{
  Profile, add_path, add_file, add_dir, add_dir_names, add_patterns, profile_rules, strict_rules,
  add_pattern, add_raw_pattern, add_raw_patterns, build_rules,
}
use adp_pro.Packager.Excluded.{strict_exclude_dir_names, strict_exclude_file_patterns}
use adp_pro.Packager.Stricter.{IsStricter, dir-stricter, file-stricter}

abbrev pub with_rules : Scan → Rules → Scan
with_rules s r = record s { rules = r }

module _ (s : Scan) (r' r : Rules) (more : IsStricter r' r) where
  IsWanted-fewer :
      (sup' sup : Option Reason) (at : RelPath) (f : _)
      → (sup' ≡ none → sup ≡ none)
      → IsWanted (with_rules s r') sup' at f
      → IsWanted (with_rules s r) sup at f
  IsWanted-fewer sup' sup at f h (inl forced) = inl (
      subst (λ ps. is_some (is_force_included s.fnmatch f.name (normalise_rel at) ps) ≡ true)
        more.include_patterns forced)
  IsWanted-fewer sup' sup at f h (inr (free, e)) =
      inr (h free, file-stricter s.fnmatch r' r f.name (normalise_rel at) more e)

  Opens-fewer :
      (at : RelPath) (name : Text) (sup' sup inner' : Option Reason)
      → (sup' ≡ none → sup ≡ none)
      → Opens (with_rules s r') at name sup' inner'
      → (inner : Option Reason) × Opens (with_rules s r) at name sup inner
        × (inner' ≡ none → inner ≡ none)
  Opens-fewer at name sup' sup inner' h (inl (e, same)) = (
    sup,
    inl (dir-stricter s.fnmatch r' r name (normalise_rel at) more e, refl),
    λ free. h (sym same ∙ free),
  )
  Opens-fewer at name sup' sup inner' h (inr (q, e, reopen, same)) =
      elim (Option-cases (should_exclude_dir s.fnmatch r name (normalise_rel at))) [
        | inl free ↦ (sup, inl (free, refl), λ none_there. ground arith)
        | inr (k, found) ↦ (
          some k,
          inr (
            k,
            found,
            subst (λ ps. is_some (include_may_reopen_dir s.fnmatch (normalise_rel at) ps) ≡ true)
                more.include_patterns reopen,
            refl,
          ),
          λ none_there. ground arith,
        )
      ]

  Ships-fewer :
      (p : RelPath) (sup' sup : Option Reason) (at : RelPath) (g : Folder)
      → (sup' ≡ none → sup ≡ none)
      → Ships (with_rules s r') p sup' at g
      → Ships (with_rules s r) p sup at g
  Ships-fewer p sup' sup at (folder files dirs) h (at_file f free found e real new wanted) =
      at_file f free found e real new (IsWanted-fewer sup' sup _ f h wanted)
  Ships-fewer p sup' sup at (folder files dirs) h (in_folder name g inner' free found opens ships) =
      let (inner, opens', h') = Opens-fewer (at ++ name ∷ []) name sup' sup inner' h opens in
      in_folder name g inner free found opens'
        (Ships-fewer p inner' inner (at ++ name ∷ []) g h' ships)

-- Added to both, or only to the stricter.
append-fewer :
    (xs big small : List Text)
    → ((t : Text) → Memᴰ t small → Memᴰ t big)
    → (t : Text) → Memᴰ t (small ++ xs)
    → Memᴰ t (big ++ xs)
append-fewer xs big small sub t m = elim (Memᴰ.append_cases small m) [
  | inl old ↦ Memᴰ.append_left xs (sub t old)
  | inr new ↦ Memᴰ.append_right big new
]

module _ (p : Text) (r' r : Rules) (h : IsStricter r' r) where
  add_path-IsStricter : IsStricter (add_path p r') (add_path p r)
  add_path-IsStricter = record {
    dir_names = h.dir_names;
    dir_patterns = h.dir_patterns;
    file_patterns = h.file_patterns;
    path_patterns = append-fewer (p ∷ []) r'.path_patterns r.path_patterns h.path_patterns;
    include_patterns = h.include_patterns;
  }

  add_file-IsStricter : IsStricter (add_file p r') (add_file p r)
  add_file-IsStricter = record {
    dir_names = h.dir_names;
    dir_patterns = h.dir_patterns;
    file_patterns = append-fewer (p ∷ []) r'.file_patterns r.file_patterns h.file_patterns;
    path_patterns = h.path_patterns;
    include_patterns = h.include_patterns;
  }

  add_dir-IsStricter : IsStricter (add_dir p r') (add_dir p r)
  add_dir-IsStricter = record {
    dir_names = h.dir_names;
    dir_patterns = append-fewer (p ∷ []) r'.dir_patterns r.dir_patterns h.dir_patterns;
    file_patterns = h.file_patterns;
    path_patterns = h.path_patterns;
    include_patterns = h.include_patterns;
  }

  add_path-more : IsStricter (add_path p r') r
  add_path-more = record {
    dir_names = h.dir_names;
    dir_patterns = h.dir_patterns;
    file_patterns = h.file_patterns;
    path_patterns = λ t m. Memᴰ.append_left (p ∷ []) (h.path_patterns t m);
    include_patterns = h.include_patterns;
  }

  add_file-more : IsStricter (add_file p r') r
  add_file-more = record {
    dir_names = h.dir_names;
    dir_patterns = h.dir_patterns;
    file_patterns = λ t m. Memᴰ.append_left (p ∷ []) (h.file_patterns t m);
    path_patterns = h.path_patterns;
    include_patterns = h.include_patterns;
  }

if-IsStricter :
    (c : Bool) (x' x y' y : Rules)
    → IsStricter x' x
    → IsStricter y' y
    → IsStricter (if c then x' else y') (if c then x else y)
if-IsStricter true x' x y' y h k = h
if-IsStricter false x' x y' y h k = k

add_patterns-more :
    (ps : List Text) (r' r : Rules) → IsStricter r' r → IsStricter (add_patterns ps r') r
unfolding add_patterns
add_patterns-more [] r' r h = h
add_patterns-more (p ∷ ps) r' r h =
    add_patterns-more ps (if has_slash p then add_path p r' else add_file p r') r (
      if_rule (λ x. IsStricter x r) (has_slash p) _ _ (λ _. add_path-more p r' r h)
        (λ _. add_file-more p r' r h))

strict_rules-more : (r : Rules) → IsStricter (strict_rules r) r
unfolding strict_rules
strict_rules-more r =
    add_patterns-more strict_exclude_file_patterns (add_dir_names strict_exclude_dir_names r) r
      (record {
        dir_names = λ t m. Memᴰ.append_left strict_exclude_dir_names m;
        dir_patterns = λ t m. m;
        file_patterns = λ t m. m;
        path_patterns = λ t m. m;
        include_patterns = refl;
      })

module _ (r' r : Rules) (h : IsStricter r' r) where
  add_pattern-IsStricter :
      (anchored : Bool) (p : Text)
      → IsStricter (add_pattern anchored p r') (add_pattern anchored p r)
  unfolding add_pattern
  add_pattern-IsStricter anchored p =
      let clean = rstrip is_slash p in
      if-IsStricter (ends_with_slash p) _ _ _ _
        (if-IsStricter (anchored || has_slash clean) _ _ _ _ (add_path-IsStricter clean r' r h)
          (add_dir-IsStricter clean r' r h))
        (if-IsStricter (anchored || has_slash p) _ _ _ _ (add_path-IsStricter p r' r h)
          (add_dir-IsStricter p (add_file p r') (add_file p r) (add_file-IsStricter p r' r h)))

  add_raw_pattern-IsStricter :
      (is_space : ℕ → Bool) (raw : Text)
      → IsStricter (add_raw_pattern is_space raw r') (add_raw_pattern is_space raw r)
  unfolding add_raw_pattern
  add_raw_pattern-IsStricter is_space raw = if-IsStricter _ _ _ _ _ h (add_pattern-IsStricter _ _)

add_raw_patterns-IsStricter :
    (is_space : ℕ → Bool) (ps : List Text) (r' r : Rules)
    → IsStricter r' r
    → IsStricter (add_raw_patterns is_space ps r') (add_raw_patterns is_space ps r)
unfolding add_raw_patterns
add_raw_patterns-IsStricter is_space [] r' r h = h
add_raw_patterns-IsStricter is_space (p ∷ ps) r' r h =
    add_raw_patterns-IsStricter is_space ps (add_raw_pattern is_space p r')
      (add_raw_pattern is_space p r) (add_raw_pattern-IsStricter r' r h is_space p)

build_rules-IsStricter :
    (is_space : ℕ → Bool) (profile : Profile) (ignore extra include : List Text)
    → IsStricter
        (build_rules is_space profile true ignore extra include)
        (build_rules is_space profile false ignore extra include)
unfolding build_rules
build_rules-IsStricter is_space profile ignore extra include =
    let more =
      add_raw_patterns-IsStricter is_space (ignore ++ extra) _ _
        (strict_rules-more (profile_rules profile)) in
    record {
      dir_names = more.dir_names;
      dir_patterns = more.dir_patterns;
      file_patterns = more.file_patterns;
      path_patterns = more.path_patterns;
      include_patterns =
          ap (λ ps. ps ++ filter (λ p. not (is_empty p)) (map (normalise_pattern is_space) include))
            more.include_patterns;
    }

abbrev pub with_profile :
    Scan → (ℕ → Bool) → Profile → List Text → List Text → List Text → Bool → Scan
with_profile s is_space profile ignore extra include strict =
    with_rules s (build_rules is_space profile strict ignore extra include)

-- With strict mode on, and all else the same, no file ships that would not ship without it: whatever
-- the profile, the ignore file, the excludes and the includes say.
pub build_rules-scan_project :
    (s : Scan) (is_space : ℕ → Bool) (profile : Profile) (ignore extra include : List Text)
    (project : Folder) (p : RelPath)
    → Memᴰ p
        (scan_project
          (with_profile s is_space profile ignore extra include true)
          project).included_files
    → Memᴰ p
        (scan_project
          (with_profile s is_space profile ignore extra include false)
          project).included_files
build_rules-scan_project s is_space profile ignore extra include project p m =
    let strict = build_rules is_space profile true ignore extra include in
    let plain = build_rules is_space profile false ignore extra include in
    let more = build_rules-IsStricter is_space profile ignore extra include in
    (scan_project-Ships (with_rules s plain) project p).1 (
      Ships-fewer s strict plain more p none none [] project (λ h. h)
        ((scan_project-Ships (with_rules s strict) project p).0 m))
