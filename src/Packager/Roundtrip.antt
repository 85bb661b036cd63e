-- ===== src/Packager/Roundtrip.antt =====
-- project_packager.py: an archive that create_zip made, given to verify_archive.
use adp_pro.Prelude.{
  ℕ, ◌==◌, beq_refl, ◌≡◌, refl, ◌∙◌, sym, ap, subst, ◌⊎◌, inl, inr, Bool, true, not, ◌&&◌, none,
  some, List, [], ◌∷◌, ◌++◌, map, if◌then◌else◌, is_some, arith, Bool-cases, Option-cases,
}
use adp_pro.Files.Names.{Text}
use adp_pro.Packager.Paths.{text_eq, RelPath}
use adp_pro.Packager.Digest.{Manifest, named, Libraries, IsDocumented, first_word-hash}
use adp_pro.Packager.Archive.{
  Disk, sorted, build_manifest, created, Allowed, Sidecar, absent, text, Shelf, Outcome,
  has_reserved_collision, write_members, seal, create_zip,
}
use adp_pro.Packager.Verify.{
  ok, exits, matched, mismatched, no_evidence, check_sidecar, verify_archive,
}
use adp_pro.Packager.Vouched.{Unopposed, verify_archive-ok}
use adp_pro.Packager.Sealed.{write_each-Whole}

-- The sidecar as `sha256sum` writes it.
abbrev sidecar_line : {B : Type 0} → Libraries B → B → Text → Text
sidecar_line l zip name = l.hash zip ++ (32 ∷ 32 ∷ (name ++ 10 ∷ []))

sidecar_line-matched :
    {B : Type 0} (l : Libraries B) (zip : B) (name : Text)
    → IsDocumented l
    → check_sidecar l zip (text (sidecar_line l zip name)) ≡ matched
unfolding check_sidecar
sidecar_line-matched l zip name d =
    let word = first_word-hash l zip (32 ∷ (name ++ 10 ∷ [])) d in
    let lower = d.hash-lower zip in
    let same = subst (λ x. (x == l.hash zip) ≡ true) (sym lower) (beq_refl (l.hash zip)) in
    subst
      (λ x.
        elim x [
          | none ↦ no_evidence
          | some w ↦ if l.lower w == l.hash zip then matched else mismatched
        ]
        ≡ matched)
      (sym word) (ground arith)

module _ {B : Type 0} (l : Libraries B) (allowed : Allowed) (name : Text) (disk : Disk B)
    (included : List RelPath) (overwrite : Bool) (m : Manifest) (shelf : Shelf B) where
  -- What is left of an archive that is written whole.
  create_zip-created :
      (total : ℕ) (digest : Text) (is_written : Bool)
      → (create_zip l allowed name disk included overwrite (some m) shelf).result
        ≡ created total digest is_written
      → let w = write_members l disk included (some m) in
        (w.failure ≡ none)
        × (create_zip l allowed name disk included overwrite (some m) shelf
            ≡ seal l allowed name shelf (l.pack w.members) w.total_bytes)
  unfolding create_zip
  create_zip-created total digest is_written h =
      elim (Bool-cases (is_some shelf.archive && not overwrite)) [
        | inl e ↦ ground arith
        | inr e ↦ elim (Bool-cases (has_reserved_collision included)) [
          | inl e' ↦ ground arith
          | inr e' ↦ elim (Bool-cases allowed.opens) [
            | inr shut ↦ ground arith
            | inl opens ↦ elim (Option-cases (write_members l disk included (some m)).failure) [
              | inl whole ↦ ground arith
              | inr (f, bad) ↦ ground arith
            ]
          ]
        ]
      ]

  seal-created :
      (zip : B) (n total : ℕ) (digest : Text) (is_written : Bool)
      → (seal l allowed name shelf zip n).result ≡ created total digest is_written
      → (is_written ≡ true) ⊎ (shelf.sidecar ≡ absent)
      → ((seal l allowed name shelf zip n).shelf.archive ≡ some zip)
        × (((seal l allowed name shelf zip n).shelf.sidecar ≡ text (sidecar_line l zip name))
            ⊎ ((seal l allowed name shelf zip n).shelf.sidecar ≡ absent))
  unfolding seal
  seal-created zip n total digest is_written h s = elim (Bool-cases allowed.reads_back) [
    | inr e ↦ ground arith
    | inl e ↦ elim (Bool-cases allowed.writes_sidecar) [
      | inl e' ↦ ground arith
      | inr e' ↦ ground arith
    ]
  ]

sidecar-Unopposed :
    {B : Type 0} (l : Libraries B) (zip : B) (name : Text) (s : Sidecar)
    → IsDocumented l
    → (s ≡ text (sidecar_line l zip name)) ⊎ (s ≡ absent)
    → Unopposed (check_sidecar l zip s)
sidecar-Unopposed l zip name s d (inl e) =
    inl (ap (check_sidecar l zip) e ∙ sidecar_line-matched l zip name d)
sidecar-Unopposed l zip name s d (inr e) =
    inr (ap (check_sidecar l zip) e ∙ unfold check_sidecar in refl)

-- An archive that is made with a manifest is verified: verify_archive exits with OK, unless an older
-- sidecar is left in place because the new one could not be written.
pub create_zip-verify_archive :
    {B : Type 0} (l : Libraries B) (allowed : Allowed) (name now project : Text) (disk : Disk B)
    (included : List RelPath) (overwrite : Bool) (shelf : Shelf B) (total : ℕ) (digest : Text)
    (is_written : Bool)
    → IsDocumented l
    → let o =
        create_zip l allowed name disk included overwrite
          (some (build_manifest l disk now project included))
          shelf in
      o.result ≡ created total digest is_written
      → (is_written ≡ true) ⊎ (shelf.sidecar ≡ absent)
      → verify_archive l o.shelf ≡ exits ok
create_zip-verify_archive {B} l allowed name now project disk included overwrite shelf total digest
      is_written d made s =
    let m = build_manifest l disk now project included in
    let w = write_members l disk included (some m) in
    let zip = l.pack w.members in
    let (whole, e) =
      create_zip-created l allowed name disk included overwrite m shelf total digest is_written
        made in
    let result = subst (λ (x : Outcome B). x.result ≡ created total digest is_written) e made in
    let (stored, sidecar) =
      seal-created l allowed name disk included overwrite m shelf zip w.total_bytes total digest
        is_written result s in
    let all = write_each-Whole l disk m [] (sorted included) (unfold write_members in whole) in
    subst (λ (x : Outcome B). verify_archive l x.shelf ≡ exits ok) (sym e)
      ((verify_archive-ok l (seal l allowed name shelf zip w.total_bytes).shelf).1 (
        zip,
        w.members,
        l.encode m,
        map named m.files,
        stored,
        sidecar-Unopposed l zip name _ d sidecar,
        d.unpack-pack w.members,
        unfold write_members in all.manifest,
        d.decode-encode m,
        unfold write_members build_manifest in all.vouched,
      ))
