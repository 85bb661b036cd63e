-- ===== src/Packager/Verify.antt =====
-- project_packager.py: verify_archive, and the exit codes.
use adp_pro.Prelude.{
  ℕ, zero, suc, ◌+◌, ◌==◌, nat_eq, Bool, false, not, ◌&&◌, ◌||◌, Option, none, some, List, [], ◌∷◌,
  if◌then◌else◌, any, length,
}
use adp_pro.Files.Names.{Text}
use adp_pro.Packager.Paths.{text_eq, ends_with_slash}
use adp_pro.Packager.Digest.{
  manifest_arcname, Named, not_json, odd, listed, Member, Content, whole, damaged, unsupported,
  Libraries, first_word,
}
use adp_pro.Packager.Archive.{Sidecar, absent, unreadable, undecodable, text, Shelf}

pub data Exit : Type 0 where
  ok problems bad_project output_exists os_error secrets checks_failed partial reserved_name
        bad_config containment :
      Exit

-- A call of a command: it exits, or something is raised that no handler names.
pub data Ended : Type 0 where
  exits : Exit → Ended
  raises : Ended

-- What the sidecar shows. A sidecar that cannot be read shows nothing.
pub data Evidence : Type 0 where
  matched mismatched no_evidence crashed : Evidence

unfoldable pub check_sidecar : {B : Type 0} → Libraries B → B → Sidecar → Evidence
check_sidecar l zip absent = no_evidence
check_sidecar l zip unreadable = no_evidence
check_sidecar l zip undecodable = crashed
check_sidecar l zip (text t) = elim (first_word l.is_space t) [
  | none ↦ no_evidence
  | some w ↦ if l.lower w == l.hash zip then matched else mismatched
]

-- The last member of that name, as `zipfile` reads it.
unfoldable pub read_member : {B : Type 0} → List (Member B) → Text → Option (Content B)
read_member [] n = none
read_member (m ∷ ms) n =
    let later = read_member ms n in
    elim later [ some b ↦ some b | none ↦ if m.name == n then some m.content else none ]

abbrev pub or_empty : Option Text → Text
or_empty none = []
or_empty (some t) = t

abbrev pub is_digest : Text → Option Text → Bool
is_digest d none = false
is_digest d (some t) = t == d

-- What one entry shows. A damaged member ends the check, and so does an error that is not handled.
pub data Checked : Type 0 where
  fine failed aborted raised : Checked

unfoldable pub check_entry : {B : Type 0} → Libraries B → List (Member B) → Named → Checked
check_entry l ms e = elim (read_member ms (or_empty e.path)) [
  | none ↦ failed
  | some damaged ↦ aborted
  | some unsupported ↦ raised
  | some (whole b) ↦ if is_digest (l.hash b) e.sha256 then fine else failed
]

-- The failures that were counted, unless an error ended the check.
pub data Tally : Type 0 where
  counted : ℕ → Tally
  handled escaped : Tally

abbrev pub after_entry : Checked → Tally → Tally
after_entry aborted rest = handled
after_entry raised rest = escaped
after_entry fine rest = rest
after_entry failed (counted n) = counted (suc n)
after_entry failed handled = handled
after_entry failed escaped = escaped

unfoldable pub check_entries : {B : Type 0} → Libraries B → List (Member B) → List Named → Tally
check_entries l ms [] = counted 0
check_entries l ms (e ∷ es) = after_entry (check_entry l ms e) (check_entries l ms es)

unfoldable pub is_named : List Named → Text → Bool
is_named [] n = false
is_named (e ∷ es) n = is_digest n e.path || is_named es n

-- The name of a file that the manifest leaves out.
abbrev pub is_extra : List Named → Text → Bool
is_extra es n = not (is_named es n) && not (n == manifest_arcname) && not (ends_with_slash n)

-- Each name once: `names` is a set.
unfoldable pub extras : {B : Type 0} → List Named → List (Member B) → List Text
extras es [] = []
extras es (m ∷ ms) =
    let rest = extras es ms in
    if is_extra es m.name && not (any (λ n. n == m.name) rest) then m.name ∷ rest else rest

abbrev pub has_member : {B : Type 0} → Text → List (Member B) → Bool
has_member n ms = any (λ m. m.name == n) ms

-- The failures in the manifest's check.
abbrev pub and_extras : ℕ → Tally → Tally
and_extras k (counted n) = counted (n + k)
and_extras k handled = handled
and_extras k escaped = escaped

unfoldable pub check_manifest : {B : Type 0} → Libraries B → List (Member B) → List Named → Tally
check_manifest l ms es = and_extras (length (extras es ms)) (check_entries l ms es)

abbrev pub of_evidence : Evidence → Exit
of_evidence matched = partial
of_evidence _ = problems

-- With the manifest read: an error that is handled counts as a failure.
abbrev pub of_manifest : Evidence → Tally → Ended
of_manifest e escaped = raises
of_manifest e handled = exits problems
of_manifest mismatched (counted n) = exits problems
of_manifest e (counted zero) = exits ok
of_manifest e (counted (suc n)) = exits problems

unfoldable pub verify_manifest :
    {B : Type 0} → Libraries B → Evidence → List (Member B) → Option (Content B) → Ended
verify_manifest l e ms none = exits (of_evidence e)
verify_manifest l e ms (some damaged) = exits problems
verify_manifest l e ms (some unsupported) = raises
verify_manifest l e ms (some (whole b)) = elim (l.decode b) [
  | not_json ↦ exits problems
  | odd ↦ raises
  | listed es ↦ of_manifest e (check_manifest l ms es)
]

unfoldable pub verify_unpacked :
    {B : Type 0} → Libraries B → Evidence → Option (List (Member B)) → Ended
verify_unpacked l e none = exits problems
verify_unpacked l e (some ms) = verify_manifest l e ms (read_member ms manifest_arcname)

-- A sidecar that is no UTF-8 ends the check with an error that nothing handles.
unfoldable pub verify_contents : {B : Type 0} → Libraries B → Evidence → B → Ended
verify_contents l crashed zip = raises
verify_contents l e zip = verify_unpacked l e (l.unpack zip)

unfoldable pub verify_archive : {B : Type 0} → Libraries B → Shelf B → Ended
verify_archive l shelf = elim shelf.archive [
  | none ↦ exits problems
  | some zip ↦ verify_contents l (check_sidecar l zip shelf.sidecar) zip
]
