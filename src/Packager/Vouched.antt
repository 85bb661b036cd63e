-- ===== src/Packager/Vouched.antt =====
-- project_packager.py: when verify_archive exits with OK, in the words of its own tests.
use adp_pro.Prelude.{
  ℕ, zero, suc, ◌==◌, nat_eq, ◌≡◌, ◌≢◌, refl, sym, subst, ◌↔◌, ◌⊎◌, inl, inr, Bool, true, false,
  not, ◌&&◌, Option, none, some, List, [], ◌∷◌, if◌then◌else◌, any, length, All, arith,
  Option-cases,
}
use adp_pro.Files.Names.{Text}
use adp_pro.Packager.Paths.{text_eq}
use adp_pro.Packager.Digest.{
  manifest_arcname, Named, Decoded, not_json, odd, listed, Member, Content, whole, damaged,
  unsupported, Libraries,
}
use adp_pro.Packager.Archive.{Shelf}
use adp_pro.Packager.Verify.{
  ok, problems, exits, Evidence, matched, mismatched, no_evidence, crashed, check_sidecar,
  read_member, or_empty, is_digest, Checked, fine, failed, aborted, raised, Tally, counted, handled,
  escaped, and_extras, check_entry, after_entry, check_entries, is_extra, extras, check_manifest,
  of_evidence, of_manifest, verify_manifest, verify_unpacked, verify_contents, verify_archive,
}

pub All-imp {ℓ κ λ'} :
    {A : Type ℓ} {P : A → Type κ} {Q : A → Type λ'}
    → ((a : A) → P a → Q a)
    → (xs : List A) → All P xs
    → All Q xs
All-imp f [] h = tt
All-imp f (x ∷ xs) h = (f x h.0, All-imp f xs h.1)

-- The member of that name is there, and its digest is the entry's.
abbrev pub Vouches : {B : Type 0} → Libraries B → List (Member B) → Named → Type 0
Vouches {B} l ms e =
    (b : B) × (read_member ms (or_empty e.path) ≡ some (whole b))
    × (is_digest (l.hash b) e.sha256 ≡ true)

-- Each entry is vouched for, and each member is named, or the manifest, or a folder.
abbrev pub IsVouched : {B : Type 0} → Libraries B → List (Member B) → List Named → Type 0
IsVouched l ms es = All (Vouches l ms) es × All (λ m. is_extra es m.name ≡ false) ms

check_entry-Vouches :
    {B : Type 0} (l : Libraries B) (ms : List (Member B)) (e : Named)
    → (check_entry l ms e ≡ fine) ↔ Vouches l ms e
unfolding check_entry
check_entry-Vouches l ms e = elim (Option-cases (read_member ms (or_empty e.path))) [
  | inl h ↦ ground arith
  | inr (damaged, h) ↦ ground arith
  | inr (unsupported, h) ↦ ground arith
  | inr (whole b, h) ↦ ground arith
]

after_entry-zero :
    (c : Checked) (rest : Tally)
    → (after_entry c rest ≡ counted 0) ↔ ((c ≡ fine) × (rest ≡ counted 0))
after_entry-zero fine rest = ground arith
after_entry-zero aborted rest = ground arith
after_entry-zero raised rest = ground arith
after_entry-zero failed (counted n) = ground arith
after_entry-zero failed handled = ground arith
after_entry-zero failed escaped = ground arith

check_entries-All :
    {B : Type 0} (l : Libraries B) (ms : List (Member B)) (es : List Named)
    → (check_entries l ms es ≡ counted 0) ↔ All (Vouches l ms) es
unfolding check_entries
check_entries-All l ms [] = (λ h. tt, λ h. refl)
check_entries-All l ms (e ∷ es) =
    let first = check_entry-Vouches l ms e in
    let rest = check_entries-All l ms es in
    let both = after_entry-zero (check_entry l ms e) (check_entries l ms es) in
    (λ h. (first.0 (both.0 h).0, rest.0 (both.0 h).1), λ h. both.1 (first.1 h.0, rest.1 h.1))

first_extra :
    (x : Bool) (n : Text) (rest : List Text)
    → (length (if x && not (any (λ k. k == n) rest) then n ∷ rest else rest) ≡ 0)
      ↔ ((x ≡ false) × (length rest ≡ 0))
first_extra x n [] = ground arith
first_extra x n (k ∷ ks) = ground arith

extras-none :
    {B : Type 0} (es : List Named) (ms : List (Member B))
    → (length (extras es ms) ≡ 0) ↔ All (λ m. is_extra es m.name ≡ false) ms
unfolding extras
extras-none es [] = (λ h. tt, λ h. refl)
extras-none es (m ∷ ms) =
    let first = first_extra (is_extra es m.name) m.name (extras es ms) in
    let rest = extras-none es ms in
    (λ h. ((first.0 h).0, rest.0 (first.0 h).1), λ h. first.1 (h.0, rest.1 h.1))

and_extras-zero : (k : ℕ) (t : Tally) → (and_extras k t ≡ counted 0) ↔ ((t ≡ counted 0) × (k ≡ 0))
and_extras-zero zero (counted zero) = ground arith
and_extras-zero (suc k) (counted zero) = ground arith
and_extras-zero k (counted (suc n)) = ground arith
and_extras-zero k handled = ground arith
and_extras-zero k escaped = ground arith

check_manifest-IsVouched :
    {B : Type 0} (l : Libraries B) (ms : List (Member B)) (es : List Named)
    → (check_manifest l ms es ≡ counted 0) ↔ IsVouched l ms es
unfolding check_manifest
check_manifest-IsVouched l ms es =
    let both = and_extras-zero (length (extras es ms)) (check_entries l ms es) in
    let entries = check_entries-All l ms es in
    let members = extras-none es ms in
    (
      λ h. (entries.0 (both.0 h).0, members.0 (both.0 h).1),
      λ h. both.1 (entries.1 h.0, members.1 h.1),
    )

-- No sidecar speaks against the archive, and none crashes the check.
abbrev pub Unopposed : Evidence → Type 0
Unopposed e = (e ≡ matched) ⊎ (e ≡ no_evidence)

-- The archive holds a manifest that is read as these entries, and they vouch for it.
abbrev pub IsAccepted : {B : Type 0} → Libraries B → Shelf B → Type 0
IsAccepted {B} l shelf =
    (zip : B) × (ms : List (Member B)) × (b : B) × (es : List Named) × (shelf.archive ≡ some zip)
    × Unopposed (check_sidecar l zip shelf.sidecar)
    × (l.unpack zip ≡ some ms)
    × (read_member ms manifest_arcname ≡ some (whole b))
    × (l.decode b ≡ listed es)
    × IsVouched l ms es

Decoded-cases : (d : Decoded) → (d ≡ not_json) ⊎ (d ≡ odd) ⊎ ((es : List Named) × (d ≡ listed es))
Decoded-cases not_json = inl refl
Decoded-cases odd = inr (inl refl)
Decoded-cases (listed es) = inr (inr (es, refl))

of_manifest-ok :
    (e : Evidence) (t : Tally) → (of_manifest e t ≡ exits ok) ↔ ((e ≢ mismatched) × (t ≡ counted 0))
of_manifest-ok e escaped = ground arith
of_manifest-ok e handled = ground arith
of_manifest-ok mismatched (counted n) = ground arith
of_manifest-ok matched (counted zero) = ground arith
of_manifest-ok matched (counted (suc n)) = ground arith
of_manifest-ok no_evidence (counted zero) = ground arith
of_manifest-ok no_evidence (counted (suc n)) = ground arith
of_manifest-ok crashed (counted zero) = ground arith
of_manifest-ok crashed (counted (suc n)) = ground arith

of_evidence-not-ok : (e : Evidence) → of_evidence e ≢ ok
of_evidence-not-ok matched = ground arith
of_evidence-not-ok mismatched = ground arith
of_evidence-not-ok no_evidence = ground arith
of_evidence-not-ok crashed = ground arith

Unopposed-cases : (e : Evidence) → e ≢ crashed → e ≢ mismatched → Unopposed e
Unopposed-cases matched c m = ground arith
Unopposed-cases mismatched c m = ground arith
Unopposed-cases no_evidence c m = ground arith
Unopposed-cases crashed c m = ground arith

Unopposed-fair : (e : Evidence) → Unopposed e → (e ≢ crashed) × (e ≢ mismatched)
Unopposed-fair matched u = ground arith
Unopposed-fair mismatched u = ground arith
Unopposed-fair no_evidence u = ground arith
Unopposed-fair crashed u = ground arith

-- With the manifest's member at hand.
abbrev Read : {B : Type 0} → Libraries B → Evidence → List (Member B) → Option (Content B) → Type 0
Read {B} l e ms r =
    (b : B) × (es : List Named) × (r ≡ some (whole b))
    × (l.decode b ≡ listed es)
    × (e ≢ mismatched)
    × IsVouched l ms es

verify_manifest-Read :
    {B : Type 0} (l : Libraries B) (e : Evidence) (ms : List (Member B)) (r : Option (Content B))
    → verify_manifest l e ms r ≡ exits ok
    → Read l e ms r
unfolding verify_manifest
verify_manifest-Read l e ms none h = let no = of_evidence-not-ok e in ground arith
verify_manifest-Read l e ms (some damaged) h = ground arith
verify_manifest-Read l e ms (some unsupported) h = ground arith
verify_manifest-Read l e ms (some (whole b)) h = elim (Decoded-cases (l.decode b)) [
  | inl d ↦ ground arith
  | inr (inl d) ↦ ground arith
  | inr (inr (es, d)) ↦
      let good = of_manifest-ok e (check_manifest l ms es) in
      let vouched = check_manifest-IsVouched l ms es in
      let is_ok : of_manifest e (check_manifest l ms es) ≡ exits ok = ground arith in
      let (fair, zero_failures) = good.0 is_ok in (b, es, refl, d, fair, vouched.0 zero_failures)
]

Read-verify_manifest :
    {B : Type 0} (l : Libraries B) (e : Evidence) (ms : List (Member B)) (r : Option (Content B))
    → Read l e ms r
    → verify_manifest l e ms r ≡ exits ok
unfolding verify_manifest
Read-verify_manifest l e ms r (b, es, found, d, fair, vouched) =
    let good =
      (of_manifest-ok e (check_manifest l ms es)).1
        (fair, (check_manifest-IsVouched l ms es).1 vouched) in
    subst (λ x. verify_manifest l e ms x ≡ exits ok) (sym found) (ground arith)

verify_unpacked-ok :
    {B : Type 0} (l : Libraries B) (e : Evidence) (u : Option (List (Member B)))
    → verify_unpacked l e u ≡ exits ok
    → (ms : List (Member B)) × (u ≡ some ms)
      × (verify_manifest l e ms (read_member ms manifest_arcname) ≡ exits ok)
unfolding verify_unpacked
verify_unpacked-ok l e none h = ground arith
verify_unpacked-ok l e (some ms) h = (ms, refl, h)

verify_contents-ok :
    {B : Type 0} (l : Libraries B) (e : Evidence) (zip : B)
    → (verify_contents l e zip ≡ exits ok)
      ↔ ((e ≢ crashed) × (verify_unpacked l e (l.unpack zip) ≡ exits ok))
unfolding verify_contents
verify_contents-ok l crashed zip = ground arith
verify_contents-ok l matched zip = ground arith
verify_contents-ok l mismatched zip = ground arith
verify_contents-ok l no_evidence zip = ground arith

pub verify_archive-ok :
    {B : Type 0} (l : Libraries B) (shelf : Shelf B)
    → (verify_archive l shelf ≡ exits ok) ↔ IsAccepted l shelf
unfolding verify_archive verify_unpacked
verify_archive-ok l shelf = (sound shelf.archive refl, complete)
  where
    sound :
        (a : Option _)
        → a ≡ shelf.archive
        → verify_archive l (record shelf { archive = a }) ≡ exits ok
        → IsAccepted l shelf
    sound none e h = ground arith
    sound (some zip) e h =
        let (c, opened) = (verify_contents-ok l (check_sidecar l zip shelf.sidecar) zip).0 h in
        let (ms, u, m) =
          verify_unpacked-ok l (check_sidecar l zip shelf.sidecar) (l.unpack zip) opened in
        let (b, es, r, d, fair, vouched) =
          verify_manifest-Read l (check_sidecar l zip shelf.sidecar) ms
            (read_member ms manifest_arcname) m in
        (
          zip,
          ms,
          b,
          es,
          sym e,
          Unopposed-cases (check_sidecar l zip shelf.sidecar) c fair,
          u,
          r,
          d,
          vouched,
        )

    complete : IsAccepted l shelf → verify_archive l shelf ≡ exits ok
    complete (zip, ms, b, es, a, u, opened, r, d, vouched) =
        let e = check_sidecar l zip shelf.sidecar in
        let (c, fair) = Unopposed-fair e u in
        let m =
          Read-verify_manifest l e ms (read_member ms manifest_arcname)
            (b, es, r, d, fair, vouched) in
        subst
          (λ x.
            elim x [
              | none ↦ exits problems
              | some z ↦ verify_contents l (check_sidecar l z shelf.sidecar) z
            ]
            ≡ exits ok)
          (sym a)
          ((verify_contents-ok l e zip).1
            (c, subst (λ x. verify_unpacked l e x ≡ exits ok) (sym opened) m))
