-- ===== src/Packager/Archive.antt =====
-- project_packager.py: create_zip and what it calls. A folder holds the archive and its sidecar.
use adp_pro.Prelude.{
  ℕ, ◌+◌, ◌==◌, nat_eq, Bool, true, false, not, ◌&&◌, ◌||◌, Option, none, some, List, [], ◌∷◌, ◌++◌,
  if◌then◌else◌, is_some, any, ltb, length,
}
use adp_pro.Files.Names.{Text}
use adp_pro.Packager.Paths.{text_eq, RelPath, normalise_rel, is_inside}
use adp_pro.Packager.Digest.{manifest_arcname, Entry, Manifest, Member, whole, Libraries}

-- A project as one pass finds it. Nothing is read where the system refuses.
pub record Disk (B : Type 0) : Type 0 where
  pub project_dir : RelPath
  pub is_symlink : RelPath → Bool
  -- `resolve(strict=True)`
  pub resolve : RelPath → Option RelPath
  pub read : RelPath → Option B

-- `sorted`: by the names, each by its code points.
unfoldable pub text_before : Text → Text → Bool
text_before [] t = true
text_before (c ∷ s) [] = false
text_before (c ∷ s) (d ∷ t) = ltb c d || c == d && text_before s t

unfoldable pub path_before : RelPath → RelPath → Bool
path_before [] q = true
path_before (n ∷ p) [] = false
path_before (n ∷ p) (m ∷ q) = if n == m then path_before p q else text_before n m

unfoldable pub insert : RelPath → List RelPath → List RelPath
insert p [] = p ∷ []
insert p (q ∷ qs) = let rest = insert p qs in if path_before p q then p ∷ q ∷ qs else q ∷ rest

unfoldable pub sorted : List RelPath → List RelPath
sorted [] = []
sorted (p ∷ ps) = insert p (sorted ps)

-- A file that cannot be read has no entry.
unfoldable pub entries_of : {B : Type 0} → Libraries B → Disk B → List RelPath → List Entry
entries_of l disk [] = []
entries_of l disk (p ∷ ps) =
    let rest = entries_of l disk ps in
    elim (disk.read p) [
      | none ↦ rest
      | some b ↦ record { path = normalise_rel p; size = l.size b; sha256 = l.hash b } ∷ rest
    ]

abbrev pub total_of : List Entry → ℕ
total_of [] = 0
total_of (e ∷ es) = e.size + total_of es

unfoldable pub build_manifest :
    {B : Type 0} → Libraries B → Disk B → Text → Text → List RelPath → Manifest
build_manifest l disk created project included =
    let entries = entries_of l disk (sorted included) in
    record {
      created_utc = created;
      project = project;
      file_count = length entries;
      total_bytes = total_of entries;
      files = entries;
    }

pub data Failure : Type 0 where
  output_exists reserved_name containment os_error : Failure

-- `assert_no_reserved_collision`
unfoldable pub has_reserved_collision : List RelPath → Bool
has_reserved_collision included = any (λ p. normalise_rel p == manifest_arcname) included

-- `assert_contained`
unfoldable pub is_contained : {B : Type 0} → Disk B → RelPath → Bool
is_contained disk p =
    if disk.is_symlink p
    then false
    else elim (disk.resolve p) [ none ↦ false | some q ↦ is_inside q disk.project_dir ]

-- What a write of the members leaves: those written before the failure, if there is one.
pub record Written (B : Type 0) : Type 0 where
  pub members : List (Member B)
  pub total_bytes : ℕ
  pub failure : Option Failure

abbrev pub stopped : {B : Type 0} → Failure → Written B
stopped f = record { members = []; total_bytes = 0; failure = some f }

abbrev pub member : {B : Type 0} → Text → B → Member B
member name b = record { name = name; content = whole b }

abbrev pub after_member : {B : Type 0} → Libraries B → Text → B → Written B → Written B
after_member l name b w = record {
  members = member name b ∷ w.members;
  total_bytes = l.size b + w.total_bytes;
  failure = w.failure;
}

-- At the end, the manifest.
unfoldable pub write_manifest : {B : Type 0} → Libraries B → Option Manifest → List Text → Written B
write_manifest l none written = record { members = []; total_bytes = 0; failure = none }
write_manifest l (some m) written =
    if any (λ n. n == manifest_arcname) written then stopped reserved_name else record {
      members = member manifest_arcname (l.encode m) ∷ [];
      total_bytes = 0;
      failure = none;
    }

unfoldable pub write_each :
    {B : Type 0} → Libraries B → Disk B → Option Manifest → List Text → List RelPath → Written B
write_each l disk m written [] = write_manifest l m written
write_each l disk m written (p ∷ ps) =
    let name = normalise_rel p in
    let rest = write_each l disk m (name ∷ written) ps in
    if any (λ n. n == name) written
    then stopped reserved_name
    else if not (is_contained disk p)
    then stopped containment
    else elim (disk.read p) [ none ↦ stopped os_error | some b ↦ after_member l name b rest ]

-- `_write_members`
unfoldable pub write_members :
    {B : Type 0} → Libraries B → Disk B → List RelPath → Option Manifest → Written B
write_members l disk included m = write_each l disk m [] (sorted included)

-- The sidecar as it is found: a text, or bytes that are no UTF-8, or refused.
pub data Sidecar : Type 0 where
  absent unreadable undecodable : Sidecar
  text : Text → Sidecar

-- The archive and its sidecar.
pub record Shelf (B : Type 0) : Type 0 where
  pub archive : Option B
  pub sidecar : Sidecar

-- What the system allows in the folder of the archive.
pub record Allowed : Type 0 where
  -- The folder is made and the archive opened for writing.
  pub opens : Bool
  pub unlinks : Bool
  -- The archive is read again, for its digest.
  pub reads_back : Bool
  pub writes_sidecar : Bool

-- What create_zip returns, or raises, and what it leaves.
pub data Result : Type 0 where
  created : ℕ → Text → Bool → Result
  refused : Failure → Result

pub record Outcome (B : Type 0) : Type 0 where
  pub result : Result
  pub shelf : Shelf B

-- With the zip written whole: its digest and its sidecar.
unfoldable pub seal : {B : Type 0} → Libraries B → Allowed → Text → Shelf B → B → ℕ → Outcome B
seal l allowed name shelf zip total =
    let stored = record shelf { archive = some zip } in
    if not allowed.reads_back
    then record { result = refused os_error; shelf = stored }
    else if allowed.writes_sidecar
    then record {
      result = created total (l.hash zip) true;
      shelf = record stored { sidecar = text (l.hash zip ++ (32 ∷ 32 ∷ (name ++ 10 ∷ []))) };
    }
    else record { result = created total (l.hash zip) false; shelf = stored }

-- A partial archive is removed for a name or a containment error, and stays for an error of the system.
unfoldable pub after_failure :
    {B : Type 0} → Libraries B → Allowed → Shelf B → List (Member B) → Failure → Shelf B
after_failure l allowed shelf members os_error = record shelf { archive = some (l.pack members) }
after_failure l allowed shelf members f = record shelf {
  archive = if allowed.unlinks then none else some (l.pack members);
}

unfoldable pub create_zip :
    {B : Type 0}
    → Libraries B
    → Allowed
    → Text
    → Disk B
    → List RelPath
    → Bool
    → Option Manifest
    → Shelf B
    → Outcome B
create_zip l allowed name disk included overwrite m shelf =
    if is_some shelf.archive && not overwrite
    then record { result = refused output_exists; shelf = shelf }
    else if has_reserved_collision included
    then record { result = refused reserved_name; shelf = shelf }
    else if not allowed.opens
    then record { result = refused os_error; shelf = shelf }
    else let w = write_members l disk included m in
      elim w.failure [
        | some f ↦ record { result = refused f; shelf = after_failure l allowed shelf w.members f }
        | none ↦ seal l allowed name shelf (l.pack w.members) w.total_bytes
      ]
