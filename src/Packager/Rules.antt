-- ===== src/Packager/Rules.antt =====
-- project_packager.py: the rules of one run, and what they exclude. `fnmatch` is Python's, given, and
-- so is what `strip` takes for white space. The patterns of a set come in some order.
use adp_pro.Prelude.{
  ℕ, ◌==◌, nat_eq, Bool, true, false, ◌&&◌, ◌||◌, Option, none, some, List, [], ◌∷◌, ◌++◌, map,
  if◌then◌else◌, is_some, any,
}
use adp_pro.Files.Names.{Text, rstrip, strip}
use adp_pro.Packager.Paths.{codes, text_eq}

pub record Rules : Type 0 where
  pub dir_names : List Text
  pub dir_patterns : List Text
  pub file_patterns : List Text
  pub path_patterns : List Text
  pub include_patterns : List Text

-- `fnmatch.fnmatch(name, pattern)`
abbrev pub Fnmatch : Type 0
Fnmatch = Text → Text → Bool

abbrev pub is_slash : ℕ → Bool
is_slash c = c == 47

abbrev pub has_slash : Text → Bool
has_slash s = any is_slash s

unfoldable pub matches_any_pattern : Fnmatch → Text → List Text → Option Text
matches_any_pattern fnmatch name [] = none
matches_any_pattern fnmatch name (p ∷ ps) =
    let rest = matches_any_pattern fnmatch name ps in if fnmatch name p then some p else rest

-- The path itself, or anything beneath it.
unfoldable pub matches_path_pattern : Fnmatch → Text → List Text → Option Text
matches_path_pattern fnmatch rel [] = none
matches_path_pattern fnmatch rel (p ∷ ps) =
    let clean = rstrip is_slash p in
    let rest = matches_path_pattern fnmatch rel ps in
    if fnmatch rel clean || fnmatch rel (clean ++ codes "/*") then some p else rest

unfoldable pub normalise_pattern : (ℕ → Bool) → Text → Text
normalise_pattern is_space p = strip is_space (map (λ c. if c == 92 then 47 else c) p)

unfoldable pub is_force_included : Fnmatch → Text → Text → List Text → Option Text
is_force_included fnmatch name rel [] = none
is_force_included fnmatch name rel (p ∷ ps) =
    let rest = is_force_included fnmatch name rel ps in
    if has_slash p
    then (if is_some (matches_path_pattern fnmatch rel (p ∷ [])) then some p else rest)
    else if fnmatch name p
    then some p
    else rest

abbrev pub starts_with : Text → Text → Bool
starts_with s [] = true
starts_with [] (d ∷ t) = false
starts_with (c ∷ s) (d ∷ t) = c == d && starts_with s t

-- `split("/")[0]`
unfoldable pub first_segment : Text → Text
first_segment [] = []
first_segment (c ∷ s) = let rest = first_segment s in if is_slash c then [] else c ∷ rest

abbrev pub has_wildcard : Text → Bool
has_wildcard s = any (λ c. c == 42 || c == 63) s

-- The pattern keeps the folder open: it lies beneath, or a wildcard may lead there.
unfoldable pub reopens : Fnmatch → Text → Text → Bool
reopens fnmatch rel p =
    let prefix = rstrip is_slash rel ++ 47 ∷ [] in
    let clean = rstrip is_slash p in
    let head = first_segment clean in
    has_slash p
    && (starts_with clean prefix
        || fnmatch (rstrip is_slash prefix) clean
        || has_wildcard head && fnmatch (first_segment rel) head)

unfoldable pub include_may_reopen_dir : Fnmatch → Text → List Text → Option Text
include_may_reopen_dir fnmatch rel [] = none
include_may_reopen_dir fnmatch rel (p ∷ ps) =
    let rest = include_may_reopen_dir fnmatch rel ps in
    if reopens fnmatch rel p then some p else rest

pub data Reason : Type 0 where
  directory_exclusion directory_pattern file_pattern path_pattern : Text → Reason
  output_directory reserved_output symlink_directory symlink_file : Reason

-- A match by one list of patterns, or what the next test finds.
abbrev pub or_else {ℓ} : {A : Type ℓ} → (Text → A) → Option Text → Option A → Option A
or_else f none next = next
or_else f (some p) next = some (f p)

unfoldable pub should_exclude_dir : Fnmatch → Rules → Text → Text → Option Reason
should_exclude_dir fnmatch r name rel =
    if any (λ n. n == name) r.dir_names
    then some (directory_exclusion name)
    else or_else directory_pattern (matches_any_pattern fnmatch name r.dir_patterns)
        (or_else path_pattern (matches_path_pattern fnmatch rel r.path_patterns) none)

unfoldable pub should_exclude_file : Fnmatch → Rules → Text → Text → Option Reason
should_exclude_file fnmatch r name rel =
    or_else file_pattern (matches_any_pattern fnmatch name r.file_patterns)
      (or_else path_pattern (matches_path_pattern fnmatch rel r.path_patterns) none)
