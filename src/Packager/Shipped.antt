-- ===== src/Packager/Shipped.antt =====
-- project_packager.py: the walk of scan_project archives what ships.
use mathlib.Core.List.{Memᴰ}
use mathlib.Core.List.Memᴰ
use adp_pro.Prelude.{
  ◌≡◌, refl, ◌∙◌, sym, subst, ◌↔◌, ◌⊎◌, inl, inr, Bool, true, false, Option, none, List, [], ◌∷◌,
  ◌++◌, if◌then◌else◌, if_rule, arith,
}
use adp_pro.Files.Names.{Text}
use adp_pro.Packager.Paths.{text_eq, RelPath, path_eq}
use adp_pro.Packager.Rules.{Reason}
use adp_pro.Packager.Scan.{
  File, Folder, folder, Folders, no_more, and_folder, ScanResult, no_result, Scan, is_pruned,
  DirVerdict, dir_symlink, kept, dir_excluded, reopened, judge_dir, note_dir, note_dirs,
  FileVerdict, judge_file, note_file, note_files, is_walked, inherited, walk, walk_each,
  scan_project,
}
use adp_pro.Packager.Ships.{
  Opens, HasFolder, here, there, Ships, at_file, in_folder, takes, takes-IsWanted, IsWanted-takes,
  walked-Opens, Opens-walked,
}

note_dir-included :
    (v : DirVerdict) (at : RelPath) (name : Text) (o : ScanResult)
    → (note_dir v at name o).included_files ≡ o.included_files
unfolding note_dir
note_dir-included dir_symlink at name o = refl
note_dir-included kept at name o =
    if_rule (λ (x : ScanResult). x.included_files ≡ o.included_files) _ _ _ (λ _. refl) (λ _. refl)
note_dir-included (dir_excluded r) at name o =
    if_rule (λ (x : ScanResult). x.included_files ≡ o.included_files) _ _ _ (λ _. refl) (λ _. refl)
note_dir-included (reopened r) at name o =
    if_rule (λ (x : ScanResult). x.included_files ≡ o.included_files) _ _ _ (λ _. refl) (λ _. refl)

note_dirs-included :
    (s : Scan) (at : RelPath) (dirs : Folders) (o : ScanResult)
    → (note_dirs s at dirs o).included_files ≡ o.included_files
unfolding note_dirs
note_dirs-included s at no_more o = refl
note_dirs-included s at (and_folder name b g rest) o =
    let below = at ++ name ∷ [] in
    let v = judge_dir s below name b in
    note_dirs-included s at rest (note_dir v below name o) ∙ note_dir-included v below name o

note_file-included :
    (s : Scan) (v : FileVerdict) (at : RelPath) (f : File) (o : ScanResult)
    → (note_file s v at f o).included_files
      ≡ (if takes v then o.included_files ++ at ∷ [] else o.included_files)
unfolding note_file
note_file-included s v at f o = ground arith

-- What an append under a test adds.
appended :
    (b : Bool) (p q : RelPath) (l : List RelPath)
    → Memᴰ p (if b then l ++ q ∷ [] else l) ↔ (Memᴰ p l ⊎ ((p ≡ q) × (b ≡ true)))
appended true p q l = (
  λ m. elim (Memᴰ.append_cases l m) [
    | inl old ↦ inl old
    | inr new ↦ inr (Memᴰ.eq_of_singleton new, refl)
  ],
  λ m. elim m [ inl old ↦ Memᴰ.append_left _ old | inr (e, _) ↦ Memᴰ.append_right l (Memᴰ.head e) ],
)
appended false p q l = (inl, λ m. elim m [ inl old ↦ old | inr (_, h) ↦ ground arith ])

-- What a first step and then the others add, put together.
chained {ℓ} :
    {later first old new rest all : Type ℓ}
    → later ↔ (first ⊎ rest)
    → first ↔ (old ⊎ new)
    → (new ⊎ rest) ↔ all
    → later ↔ (old ⊎ all)
chained f g h = (
  λ m. elim (f.0 m) [
    | inl x ↦ elim (g.0 x) [ inl o ↦ inl o | inr n ↦ inr (h.0 (inl n)) ]
    | inr r ↦ inr (h.0 (inr r))
  ],
  λ m. elim m [
    | inl o ↦ f.1 (inl (g.1 (inl o)))
    | inr a ↦ elim (h.1 a) [ inl n ↦ f.1 (inl (g.1 (inr n))) | inr r ↦ f.1 (inr r) ]
  ],
)

abbrev IsNew : Scan → RelPath → Option Reason → RelPath → File → Type 0
IsNew s p suppressed at f =
    (p ≡ at ++ f.name ∷ []) × (takes (judge_file s suppressed (at ++ f.name ∷ []) f) ≡ true)

abbrev Taken : Scan → RelPath → Option Reason → RelPath → List File → Type 0
Taken s p suppressed at files = (f : File) × Memᴰ f files × IsNew s p suppressed at f

Taken-cons :
    (s : Scan) (p : RelPath) (suppressed : Option Reason) (at : RelPath) (f : File) (fs : List File)
    → (IsNew s p suppressed at f ⊎ Taken s p suppressed at fs) ↔ Taken s p suppressed at (f ∷ fs)
Taken-cons s p suppressed at f fs = (
  λ m. elim m [
    | inl new ↦ (f, Memᴰ.head refl, new)
    | inr (g, later, new) ↦ (g, Memᴰ.tail later, new)
  ],
  λ (g, found, new). elim (Memᴰ.cases_cons found) [
    | inl e ↦ inl (subst (IsNew s p suppressed at) e new)
    | inr later ↦ inr (g, later, new)
  ],
)

-- The files of one folder, and what the walk has included before.
files-included :
    (s : Scan) (p : RelPath) (suppressed : Option Reason) (at : RelPath) (files : List File)
    (o : ScanResult)
    → Memᴰ p (note_files s suppressed at files o).included_files
      ↔ (Memᴰ p o.included_files ⊎ Taken s p suppressed at files)
unfolding note_files
files-included s p suppressed at [] o =
    (inl, λ m. elim m [ inl old ↦ old | inr (f, none_there, _) ↦ absurd (Memᴰ.not-nil none_there) ])
files-included s p suppressed at (f ∷ fs) o =
    let below = at ++ f.name ∷ [] in
    let v = judge_file s suppressed below f in
    chained (files-included s p suppressed at fs (note_file s v below f o))
      (subst (λ l. Memᴰ p l ↔ (Memᴰ p o.included_files ⊎ IsNew s p suppressed at f))
        (sym (note_file-included s v below f o)) (appended (takes v) p below o.included_files))
      (Taken-cons s p suppressed at f fs)

-- In one of the folders.
abbrev Below : Scan → RelPath → Option Reason → RelPath → Folders → Type 0
Below s p suppressed at dirs =
    (name : Text) × (g : Folder) × (inner : Option Reason) × HasFolder name false g dirs
    × Opens s (at ++ name ∷ []) name suppressed inner
    × Ships s p inner (at ++ name ∷ []) g

HasFolder-not-no_more : {name : Text} {b : Bool} {g : Folder} → ¬ HasFolder name b g no_more
HasFolder-not-no_more h = elim h [ ]

abbrev Walked : Scan → RelPath → Option Reason → RelPath → Text → Bool → Folder → Type 0
Walked s p suppressed at name b g =
    let v = judge_dir s (at ++ name ∷ []) name b in
    (is_walked v ≡ true) × Ships s p (inherited v suppressed) (at ++ name ∷ []) g

Below-first :
    {s : Scan} {p : RelPath} {suppressed inner : Option Reason} (at : RelPath) {n name : Text}
    {b : Bool} {h g : Folder} {rest : Folders}
    → HasFolder n false h (and_folder name b g rest)
    → Opens s (at ++ n ∷ []) n suppressed inner
    → Ships s p inner (at ++ n ∷ []) h
    → Walked s p suppressed at name b g ⊎ Below s p suppressed at rest
Below-first {s} {p} {suppressed} {inner} at {n} {h} here opens ships =
    let (w, e) = Opens-walked s (at ++ n ∷ []) n suppressed inner opens in
    inl (w, subst (λ i. Ships s p i (at ++ n ∷ []) h) e ships)
Below-first {inner} at {n} {h} (there m) opens ships = inr (n, h, inner, m, opens, ships)

Below-cons :
    (s : Scan) (p : RelPath) (suppressed : Option Reason) (at : RelPath) (name : Text) (b : Bool)
    (g : Folder) (rest : Folders)
    → (Walked s p suppressed at name b g ⊎ Below s p suppressed at rest)
      ↔ Below s p suppressed at (and_folder name b g rest)
Below-cons s p suppressed at name b g rest = (
  λ m. elim m [
    | inl (w, ships) ↦
        let (real, opens) = walked-Opens s (at ++ name ∷ []) name b suppressed w in
        (
          name,
          g,
          inherited (judge_dir s (at ++ name ∷ []) name b) suppressed,
          subst (λ c. HasFolder name c g (and_folder name b g rest)) real here,
          opens,
          ships,
        )
    | inr (n, h, inner, found, opens, ships) ↦ (n, h, inner, there found, opens, ships)
  ],
  λ (n, h, inner, found, opens, ships). Below-first at found opens ships,
)

Taken-at_file :
    (s : Scan) (p : RelPath) (suppressed : Option Reason) (at : RelPath) (files : List File)
    (dirs : Folders)
    → is_pruned s.output_dir at ≡ false
    → Taken s p suppressed at files
    → Ships s p suppressed at (folder files dirs)
Taken-at_file s p suppressed at files dirs h (f, found, (e, taken)) =
    let (real, free, wanted) = takes-IsWanted s suppressed (at ++ f.name ∷ []) f taken in
    at_file f h found e real free wanted

Ships-inversion :
    {s : Scan} {p : RelPath} {suppressed : Option Reason} {at : RelPath} {files : List File}
    {dirs : Folders}
    → Ships s p suppressed at (folder files dirs)
    → (is_pruned s.output_dir at ≡ false)
      × (Taken s p suppressed at files ⊎ Below s p suppressed at dirs)
Ships-inversion {s} {suppressed} {at} (at_file f h found e real free wanted) =
    (h, inl (f, found, (e, IsWanted-takes s suppressed (at ++ f.name ∷ []) f real free wanted)))
Ships-inversion (in_folder name g inner h found opens ships) =
    (h, inr (name, g, inner, found, opens, ships))

Ships-cases :
    (s : Scan) (p : RelPath) (suppressed : Option Reason) (at : RelPath) (files : List File)
    (dirs : Folders)
    → is_pruned s.output_dir at ≡ false
    → (Taken s p suppressed at files ⊎ Below s p suppressed at dirs)
      ↔ Ships s p suppressed at (folder files dirs)
Ships-cases s p suppressed at files dirs h = (
  λ m. elim m [
    | inl taken ↦ Taken-at_file s p suppressed at files dirs h taken
    | inr (name, g, inner, found, opens, ships) ↦ in_folder name g inner h found opens ships
  ],
  λ m. (Ships-inversion m).1,
)

is_pruned-not-Ships :
    {s : Scan} {p : RelPath} {suppressed : Option Reason} {at : RelPath} {files : List File}
    {dirs : Folders}
    → is_pruned s.output_dir at ≡ true
    → ¬ Ships s p suppressed at (folder files dirs)
is_pruned-not-Ships h ships = let free = (Ships-inversion ships).0 in ground arith

mutual
  unfolding walk

  walk-included :
      (s : Scan) (p : RelPath) (suppressed : Option Reason) (at : RelPath) (g : Folder)
      (o : ScanResult)
      → Memᴰ p (walk s suppressed at g o).included_files
        ↔ (Memᴰ p o.included_files ⊎ Ships s p suppressed at g)
  walk-included s p suppressed at (folder files dirs) o =
      let here = note_files s suppressed at files (note_dirs s at dirs o) in
      let files' =
        subst (λ l. Memᴰ p here.included_files ↔ (Memᴰ p l ⊎ Taken s p suppressed at files))
          (note_dirs-included s at dirs o)
          (files-included s p suppressed at files (note_dirs s at dirs o)) in
      let dirs' = each-included s p suppressed at dirs here in
      if_rule
        (λ (r : ScanResult).
          Memᴰ p r.included_files
          ↔ (Memᴰ p o.included_files ⊎ Ships s p suppressed at (folder files dirs)))
        (is_pruned s.output_dir at) _ _
        (λ h.
          (inl, λ m. elim m [ inl old ↦ old | inr ships ↦ absurd (is_pruned-not-Ships h ships) ]))
        (λ h. chained dirs' files' (Ships-cases s p suppressed at files dirs h))

  each-included :
      (s : Scan) (p : RelPath) (suppressed : Option Reason) (at : RelPath) (dirs : Folders)
      (o : ScanResult)
      → Memᴰ p (walk_each s suppressed at dirs o).included_files
        ↔ (Memᴰ p o.included_files ⊎ Below s p suppressed at dirs)
  each-included s p suppressed at no_more o = (
    inl,
    λ m. elim m [
      | inl old ↦ old
      | inr (name, g, inner, none_there, _, _) ↦ absurd (HasFolder-not-no_more none_there)
    ],
  )
  each-included s p suppressed at (and_folder name b g rest) o =
      let below = at ++ name ∷ [] in
      let v = judge_dir s below name b in
      let inside = walk s (inherited v suppressed) below g o in
      let deeper = walk-included s p (inherited v suppressed) below g o in
      chained (each-included s p suppressed at rest (if is_walked v then inside else o))
        (if_rule
          (λ (r : ScanResult).
            Memᴰ p r.included_files ↔ (Memᴰ p o.included_files ⊎ Walked s p suppressed at name b g))
          (is_walked v) inside o
          (λ w. (
            λ m. elim (deeper.0 m) [ inl old ↦ inl old | inr ships ↦ inr (w, ships) ],
            λ m. elim m [ inl old ↦ deeper.1 (inl old) | inr (_, ships) ↦ deeper.1 (inr ships) ],
          ))
          (λ w. (inl, λ m. elim m [ inl old ↦ old | inr (w', _) ↦ ground arith ])))
        (Below-cons s p suppressed at name b g rest)

-- A path is in the archive exactly when it ships: no rule of the walk is left out, and none added.
pub scan_project-Ships :
    (s : Scan) (project : Folder) (p : RelPath)
    → Memᴰ p (scan_project s project).included_files ↔ Ships s p none [] project
unfolding scan_project
scan_project-Ships s project p =
    let all = walk-included s p none [] project no_result in
    (
      λ m. elim (all.0 m) [ inl none_there ↦ absurd (Memᴰ.not-nil none_there) | inr ships ↦ ships ],
      λ ships. all.1 (inr ships),
    )
