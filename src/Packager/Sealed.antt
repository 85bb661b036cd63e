-- ===== src/Packager/Sealed.antt =====
-- project_packager.py: what create_zip writes is what verify_archive accepts.
use adp_pro.Prelude.{
  ◌==◌, nat_eq, beq_refl, ◌≡◌, refl, sym, ap, subst, inl, inr, true, false, Option, none, some,
  List, [], ◌∷◌, map, if_rule, any, arith, Bool-cases, Option-cases,
}
use adp_pro.Files.Names.{Text}
use adp_pro.Packager.Paths.{text_eq, RelPath, normalise_rel}
use adp_pro.Packager.Digest.{
  manifest_arcname, Manifest, Named, named, Member, Content, whole, Libraries,
}
use adp_pro.Packager.Archive.{
  Disk, entries_of, is_contained, Written, member, after_member, write_manifest, write_each,
  stopped, reserved_name,
}
use adp_pro.Packager.Verify.{read_member, is_named, or_empty}
use adp_pro.Packager.Vouched.{All-imp, IsVouched}

abbrev Holds : Text → List Text → Type 0
Holds n written = any (λ k. k == n) written ≡ true

-- A name that is held is not one that is not held.
held-differs :
    (n name : Text) (written : List Text)
    → Holds n written
    → any (λ k. k == name) written ≡ false
    → (name == n) ≡ false
held-differs n name written held free = elim (Bool-cases (name == n)) [
  | inr differs ↦ differs
  | inl equal ↦
      let same = (text_eq.is_same_iff name n).0 equal in
      let free' = subst (λ x. any (λ k. k == x) written ≡ false) same free in ground arith
]

-- What a whole write leaves: the entries vouch for the members, which have new names, and the
-- manifest is read back.
pub record Whole {B : Type 0} (l : Libraries B) (m : Manifest) (written : List Text)
    (es : List Named) (ms : List (Member B)) : Type 0 where
  pub vouched : IsVouched l ms es
  pub fresh : (n : Text) → Holds n written → read_member ms n ≡ none
  pub manifest : read_member ms manifest_arcname ≡ some (whole (l.encode m))

write_manifest-Whole :
    {B : Type 0} (l : Libraries B) (m : Manifest) (written : List Text)
    → (write_manifest l (some m) written).failure ≡ none
    → Whole l m written [] (write_manifest l (some m) written).members
unfolding write_manifest is_named read_member
write_manifest-Whole {B} l m written h =
    if_rule (λ (r : Written B). r.failure ≡ none → Whole l m written [] r.members)
      (any (λ n. n == manifest_arcname) written) (stopped reserved_name)
      (record {
        members = member manifest_arcname (l.encode m) ∷ [];
        total_bytes = 0;
        failure = none;
      })
      (λ taken. λ no_failure. ground arith)
      (λ free. λ no_failure. record {
        vouched = (tt, (refl, tt));
        fresh = λ n held.
            let differs = held-differs n manifest_arcname written held free in ground arith;
        manifest = refl;
      })
      h

-- A file is written: the tests it passed, and what the others leave.
write_each-cons :
    {B : Type 0} (l : Libraries B) (disk : Disk B) (m : Option Manifest) (written : List Text)
    (p : RelPath) (ps : List RelPath)
    → (write_each l disk m written (p ∷ ps)).failure ≡ none
    → (b : B) × (disk.read p ≡ some b)
      × (any (λ n. n == normalise_rel p) written ≡ false)
      × ((write_each l disk m (normalise_rel p ∷ written) ps).failure ≡ none)
      × (write_each l disk m written (p ∷ ps)
          ≡ after_member l (normalise_rel p) b (write_each l disk m (normalise_rel p ∷ written) ps))
unfolding write_each
write_each-cons l disk m written p ps h =
    elim (Bool-cases (any (λ n. n == normalise_rel p) written)) [
      | inl taken ↦ ground arith
      | inr free ↦ elim (Bool-cases (is_contained disk p)) [
        | inr outside ↦ ground arith
        | inl inside ↦ elim (Option-cases (disk.read p)) [
          | inl gone ↦ ground arith
          | inr (b, found) ↦ ground arith
        ]
      ]
    ]

module _ {B : Type 0} (k : Member B) (ms : List (Member B)) (n : Text) where
  read-later : (x : Content B) → read_member ms n ≡ some x → read_member (k ∷ ms) n ≡ some x
  unfolding read_member
  read-later x h = ground arith

  read-first :
      read_member ms n ≡ none → (k.name == n) ≡ true → read_member (k ∷ ms) n ≡ some k.content
  unfolding read_member
  read-first h e = ground arith

  read-other : read_member ms n ≡ none → (k.name == n) ≡ false → read_member (k ∷ ms) n ≡ none
  unfolding read_member
  read-other h e = ground arith

abbrev entry : {B : Type 0} → Libraries B → Text → B → Named
entry l name b = record { path = some name; sha256 = some (l.hash b) }

Whole-cons :
    {B : Type 0} (l : Libraries B) (m : Manifest) (written : List Text) (name : Text) (b : B)
    (es : List Named) (ms : List (Member B))
    → any (λ k. k == name) written ≡ false
    → Whole l m (name ∷ written) es ms
    → Whole l m written (entry l name b ∷ es) (member name b ∷ ms)
unfolding is_named
Whole-cons l m written name b es ms free w = record {
  vouched = (
    (
      (
        b,
        read-first (member name b) ms name (w.fresh name (ground (arith, beq_refl name)))
            (beq_refl name),
        beq_refl (l.hash b),
      ),
      All-imp
          (λ e (c, found, same).
            (c, read-later (member name b) ms (or_empty e.path) (whole c) found, same))
          es w.vouched.0,
    ),
    (ground (arith, beq_refl name), All-imp (λ k h. ground arith) ms w.vouched.1),
  );
  fresh = λ n held.
      read-other (member name b) ms n (w.fresh n (ground arith))
        (held-differs n name written held free);
  manifest = read-later (member name b) ms manifest_arcname (whole (l.encode m)) w.manifest;
}

entries_of-cons :
    {B : Type 0} (l : Libraries B) (disk : Disk B) (p : RelPath) (ps : List RelPath) (b : B)
    → disk.read p ≡ some b
    → map named (entries_of l disk (p ∷ ps))
      ≡ entry l (normalise_rel p) b ∷ map named (entries_of l disk ps)
unfolding entries_of
entries_of-cons {B} l disk p ps b found =
    ap
      (λ (x : Option B). map named (elim x [
        | none ↦ entries_of l disk ps
        | some c ↦
            record { path = normalise_rel p; size = l.size c; sha256 = l.hash c }
            ∷ entries_of l disk ps
      ]))
      found

pub write_each-Whole :
    {B : Type 0} (l : Libraries B) (disk : Disk B) (m : Manifest) (written : List Text)
    (ps : List RelPath)
    → (write_each l disk (some m) written ps).failure ≡ none
    → Whole l m written
        (map named (entries_of l disk ps))
        (write_each l disk (some m) written ps).members
write_each-Whole l disk m written [] h =
    unfold write_each entries_of in write_manifest-Whole l m written h
write_each-Whole {B} l disk m written (p ∷ ps) h =
    let (b, found, free, later, e) = write_each-cons l disk (some m) written p ps h in
    let rest = write_each-Whole l disk m (normalise_rel p ∷ written) ps later in
    let rest' =
      Whole-cons l m written (normalise_rel p) b (map named (entries_of l disk ps))
        (write_each l disk (some m) (normalise_rel p ∷ written) ps).members free rest in
    subst (λ es. Whole l m written es (write_each l disk (some m) written (p ∷ ps)).members)
      (sym (entries_of-cons l disk p ps b found))
      (subst
        (λ (x : Written B).
          Whole l m written (entry l (normalise_rel p) b ∷ map named (entries_of l disk ps))
            x.members)
        (sym e) rest')
