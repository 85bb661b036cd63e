-- ===== src/Packager/Ships.antt =====
-- project_packager.py: what is archived, said for one path, without the walk.
use mathlib.Core.List.{Memᴰ}
use adp_pro.Prelude.{
  ◌==◌, ◌≡◌, ◌⊎◌, Bool, true, false, Option, none, some, List, [], ◌∷◌, ◌++◌, is_some, any, arith,
}
use adp_pro.Files.Names.{Text}
use adp_pro.Packager.Paths.{text_eq, RelPath, path_eq, normalise_rel}
use adp_pro.Packager.Rules.{
  Reason, is_force_included, include_may_reopen_dir, should_exclude_dir, should_exclude_file,
}
use adp_pro.Packager.Scan.{
  File, Folder, folder, Folders, and_folder, Scan, is_pruned, judge_dir, FileVerdict, forced,
  shipped, judge_file, is_walked, inherited,
}

-- The file is asked for by name, or no rule excludes it and it lies in no reopened folder.
abbrev pub IsWanted : Scan → Option Reason → RelPath → File → Type 0
IsWanted s suppressed at f =
    (is_some (is_force_included s.fnmatch f.name (normalise_rel at) s.rules.include_patterns)
      ≡ true)
    ⊎ ((suppressed ≡ none)
        × (should_exclude_file s.fnmatch s.rules f.name (normalise_rel at) ≡ none))

-- The folder is not excluded, or reopened; and what then suppresses the files in it.
abbrev pub Opens : Scan → RelPath → Text → Option Reason → Option Reason → Type 0
Opens s at name outer inner =
    ((should_exclude_dir s.fnmatch s.rules name (normalise_rel at) ≡ none) × (inner ≡ outer))
    ⊎ ((r : Reason) × (should_exclude_dir s.fnmatch s.rules name (normalise_rel at) ≡ some r)
        × (is_some (include_may_reopen_dir s.fnmatch (normalise_rel at) s.rules.include_patterns)
            ≡ true)
        × (inner ≡ some r))

pub data HasFolder (name : Text) (is_symlink : Bool) (g : Folder) : Folders → Type 0 where
  here : {rest : Folders} → HasFolder name is_symlink g (and_folder name is_symlink g rest)
  there :
      {n : Text} {b : Bool} {h : Folder} {rest : Folders}
      → HasFolder name is_symlink g rest
      → HasFolder name is_symlink g (and_folder n b h rest)

-- The path leads, by folders that are no links and are open, outside of the output directory, to a
-- file that is no link, is not the output and is wanted.
pub data Ships (s : Scan) (p : RelPath) : Option Reason → RelPath → Folder → Type 0 where
  at_file :
      {suppressed : Option Reason} {at : RelPath} {files : List File} {dirs : Folders} (f : File)
      → is_pruned s.output_dir at ≡ false
      → Memᴰ f files
      → p ≡ at ++ f.name ∷ []
      → f.is_symlink ≡ false
      → any (λ q. q == at ++ f.name ∷ []) s.reserved ≡ false
      → IsWanted s suppressed (at ++ f.name ∷ []) f
      → Ships s p suppressed at (folder files dirs)
  in_folder :
      {suppressed : Option Reason} {at : RelPath} {files : List File} {dirs : Folders} (name : Text)
      (g : Folder) (inner : Option Reason)
      → is_pruned s.output_dir at ≡ false
      → HasFolder name false g dirs
      → Opens s (at ++ name ∷ []) name suppressed inner
      → Ships s p inner (at ++ name ∷ []) g
      → Ships s p suppressed at (folder files dirs)

abbrev pub takes : FileVerdict → Bool
takes forced = true
takes shipped = true
takes _ = false

pub takes-IsWanted :
    (s : Scan) (suppressed : Option Reason) (at : RelPath) (f : File)
    → takes (judge_file s suppressed at f) ≡ true
    → (f.is_symlink ≡ false) × (any (λ q. q == at) s.reserved ≡ false) × IsWanted s suppressed at f
unfolding judge_file
takes-IsWanted s suppressed at f h = ground arith

pub IsWanted-takes :
    (s : Scan) (suppressed : Option Reason) (at : RelPath) (f : File)
    → f.is_symlink ≡ false
    → any (λ q. q == at) s.reserved ≡ false
    → IsWanted s suppressed at f
    → takes (judge_file s suppressed at f) ≡ true
unfolding judge_file
IsWanted-takes s suppressed at f l r w = ground arith

pub walked-Opens :
    (s : Scan) (at : RelPath) (name : Text) (b : Bool) (outer : Option Reason)
    → is_walked (judge_dir s at name b) ≡ true
    → (b ≡ false) × Opens s at name outer (inherited (judge_dir s at name b) outer)
unfolding judge_dir
walked-Opens s at name b outer h = ground arith

pub Opens-walked :
    (s : Scan) (at : RelPath) (name : Text) (outer inner : Option Reason)
    → Opens s at name outer inner
    → (is_walked (judge_dir s at name false) ≡ true)
      × (inner ≡ inherited (judge_dir s at name false) outer)
unfolding judge_dir
Opens-walked s at name outer inner h = ground arith
