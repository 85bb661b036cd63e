-- ===== src/Packager/Tests.antt =====
-- The packager's theorems at a project with a note and a cache.
mod Runs
mod Configs
use mathlib.Core.List.{Memᴰ}
use mathlib.Core.List.Memᴰ
use adp_pro.Prelude.{
  ℕ, ◌==◌, ◌≡◌, ◌↔◌, refl, ◌∙◌, ap, nat_eq, not, ◌&&◌, ◌⊎◌, inl, inr, Bool, true, false, Option,
  none, some, List, [], ◌∷◌, ◌++◌, All, if◌then◌else◌, any, map, is_some,
}
use adp_pro.Files.Names.{Text}
use adp_pro.Packager.Paths.{codes, text_eq, RelPath, normalise_rel}
use adp_pro.Packager.Profiles.{no_rules}
use adp_pro.Packager.Scan.{
  File, Folder, folder, no_more, and_folder, Scan, ScanResult, elsewhere, scan_project,
}
use adp_pro.Packager.Ships.{Ships}
use adp_pro.Packager.Shipped.{scan_project-Ships}
use adp_pro.Packager.Digest.{
  Entry, Manifest, Named, named, Member, Content, whole, damaged, unsupported, Decoded, not_json,
  listed, Libraries, IsDocumented, has_no_space,
}
use adp_pro.Packager.Archive.{
  Disk, build_manifest, create_zip, created, has_reserved_collision, write_members, write_each,
  write_manifest, is_contained, sorted, insert, path_before, text_before, entries_of, seal, Shelf,
  absent, Allowed,
}
use adp_pro.Packager.Verify.{ok, exits, verify_archive}
use adp_pro.Packager.Verified.{IsVerified, verify_archive-IsVerified}
use adp_pro.Packager.Roundtrip.{create_zip-verify_archive}

-- Files whose bytes are a text, a manifest or an archive.
mutual
  data Blob : Type 0 where
    raw : Text → Blob
    json : Manifest → Blob
    zipped : Blobs → Blob

  data Blobs : Type 0 where
    empty : Blobs
    member_of : Text → Blob → Blobs → Blobs
    bad_member odd_member : Text → Blobs → Blobs

abbrev put : Text → Content Blob → Blobs → Blobs
put n damaged bs = bad_member n bs
put n unsupported bs = odd_member n bs
put n (whole b) bs = member_of n b bs

abbrev to_blobs : List (Member Blob) → Blobs
to_blobs [] = empty
to_blobs (m ∷ ms) = put m.name m.content (to_blobs ms)

abbrev of_blobs : Blobs → List (Member Blob)
of_blobs empty = []
of_blobs (member_of n b bs) = record { name = n; content = whole b } ∷ of_blobs bs
of_blobs (bad_member n bs) = record { name = n; content = damaged } ∷ of_blobs bs
of_blobs (odd_member n bs) = record { name = n; content = unsupported } ∷ of_blobs bs

of_blobs-put :
    (n : Text) (c : Content Blob) (bs : Blobs)
    → of_blobs (put n c bs) ≡ record { name = n; content = c } ∷ of_blobs bs
of_blobs-put n damaged bs = refl
of_blobs-put n unsupported bs = refl
of_blobs-put n (whole b) bs = refl

of_blobs-to_blobs : (ms : List (Member Blob)) → of_blobs (to_blobs ms) ≡ ms
of_blobs-to_blobs [] = refl
of_blobs-to_blobs (m ∷ ms) =
    of_blobs-put m.name m.content (to_blobs ms)
    ∙ ap (λ (r : List (Member Blob)). m ∷ r) (of_blobs-to_blobs ms)

abbrev digest_of : Blob → Text
digest_of (raw t) = codes "aa"
digest_of (json m) = codes "bb"
digest_of (zipped bs) = codes "cc"

abbrev read_json : Blob → Decoded
read_json (json m) = listed (map named m.files)
read_json _ = not_json

abbrev read_zip : Blob → Option (List (Member Blob))
read_zip (zipped bs) = some (of_blobs bs)
read_zip _ = none

abbrev is_blank : ℕ → Bool
is_blank c = any (λ d. d == c) (32 ∷ 10 ∷ [])

abbrev blobs : Libraries Blob
blobs = record {
  hash = digest_of;
  size = λ b. 2;
  encode = json;
  decode = read_json;
  pack = λ ms. zipped (to_blobs ms);
  unpack = read_zip;
  is_space = is_blank;
  lower = λ t. t;
}

digest_of-word : (b : Blob) → has_no_space is_blank (digest_of b) ≡ true
digest_of-word (raw t) = refl
digest_of-word (json m) = refl
digest_of-word (zipped bs) = refl

digest_of-starts : (b : Blob) → (c : ℕ) × (s : Text) × (digest_of b ≡ c ∷ s)
digest_of-starts (raw t) = (_, _, refl)
digest_of-starts (json m) = (_, _, refl)
digest_of-starts (zipped bs) = (_, _, refl)

blobs-IsDocumented : IsDocumented blobs
blobs-IsDocumented = record {
  decode-encode = λ m. refl;
  unpack-pack = λ ms. ap some (of_blobs-to_blobs ms);
  blank = refl;
  hash-word = digest_of-word;
  hash-starts = digest_of-starts;
  hash-lower = λ b. refl;
}

abbrev note : RelPath
note = codes "a.txt" ∷ []

-- A note and a cache.
abbrev project : Folder
project = folder (record { name = codes "a.txt"; is_symlink = false } ∷ []) (
    and_folder (codes "__pycache__") false
      (folder (record { name = codes "a.pyc"; is_symlink = false } ∷ []) no_more) no_more)

abbrev request : Scan
request = record {
  fnmatch = λ n p. n == p;
  rules = no_rules;
  output_dir = elsewhere;
  reserved = [];
}

scan_project-Ships_example :
    Memᴰ note (scan_project request project).included_files ↔ Ships request note none [] project
scan_project-Ships_example = scan_project-Ships request project note

abbrev disk : Disk Blob
disk = record {
  project_dir = codes "home" ∷ [];
  is_symlink = λ p. false;
  resolve = λ p. some (codes "home" ∷ p);
  read = λ p. some (raw (codes "hello"));
}

abbrev allowed : Allowed
allowed = record { opens = true; unlinks = true; reads_back = true; writes_sidecar = true }

abbrev no_archive : Shelf Blob
no_archive = record { archive = none; sidecar = absent }

note_zip-created :
    (create_zip blobs allowed
      (codes "home.zip")
      disk
      (note ∷ [])
      false
      (some (build_manifest blobs disk (codes "now") (codes "home") (note ∷ [])))
      no_archive).result
    ≡ created 2 (codes "cc") true
unfolding create_zip has_reserved_collision write_members write_each write_manifest is_contained
    sorted insert path_before text_before normalise_rel entries_of build_manifest seal
note_zip-created = refl

create_zip-verify_archive_example :
    verify_archive blobs
      (create_zip blobs allowed
        (codes "home.zip")
        disk
        (note ∷ [])
        false
        (some (build_manifest blobs disk (codes "now") (codes "home") (note ∷ [])))
        no_archive).shelf
    ≡ exits ok
create_zip-verify_archive_example =
    create_zip-verify_archive blobs allowed (codes "home.zip") (codes "now") (codes "home") disk
      (note ∷ []) false no_archive 2 (codes "cc") true blobs-IsDocumented note_zip-created
      (inl refl)

-- What create_zip leaves of the note, with its sidecar.
abbrev note_shelf : Shelf Blob
note_shelf =
    (create_zip blobs allowed (codes "home.zip") disk (note ∷ []) false
      (some (build_manifest blobs disk (codes "now") (codes "home") (note ∷ []))) no_archive).shelf

verify_archive-IsVerified_example :
    (verify_archive blobs note_shelf ≡ exits ok) ↔ IsVerified blobs note_shelf
verify_archive-IsVerified_example = verify_archive-IsVerified blobs note_shelf
