-- ===== src/Packager/Verified.antt =====
-- project_packager.py: when verify_archive exits with OK, in terms of the archive's members, the
-- entries of its manifest and the sidecar.
use mathlib.Core.List.{Memᴰ}
use mathlib.Core.List.Memᴰ
use adp_pro.Prelude.{
  ◌==◌, nat_eq, ◌≡◌, ◌≢◌, refl, sym, ap, ◌∙◌, ◌↔◌, ◌⊎◌, inl, inr, true, false, Option, none, some,
  List, [], ◌∷◌, ◌++◌, All, arith, Bool-cases, Option-cases,
}
use adp_pro.Files.Names.{Text}
use adp_pro.Packager.Paths.{text_eq, same_iff, ends_with_slash}
use adp_pro.Packager.Digest.{
  manifest_arcname, Named, listed, Member, Content, whole, Libraries, first_word,
}
use adp_pro.Packager.Archive.{Sidecar, absent, unreadable, undecodable, text, Shelf}
use adp_pro.Packager.Verify.{
  ok, exits, check_sidecar, read_member, or_empty, is_digest, is_named, is_extra, verify_archive,
}
use adp_pro.Packager.Vouched.{All-imp, Vouches, Unopposed, verify_archive-ok}

-- The last member of that name has that content.
abbrev pub IsLast : {B : Type 0} → List (Member B) → Text → Content B → Type 0
IsLast [] n c = ⊥
IsLast (m ∷ ms) n c = IsLast ms n c ⊎ ((m.name ≡ n) × (m.content ≡ c) × All (λ k. k.name ≢ n) ms)

-- The last member of the entry's name is whole, and its digest is the entry's.
abbrev pub IsIntact : {B : Type 0} → Libraries B → List (Member B) → Named → Type 0
IsIntact {B} l ms e = (b : B) × IsLast ms (or_empty e.path) (whole b) × (e.sha256 ≡ some (l.hash b))

-- An entry has that name, or it is the manifest's, or a folder's.
abbrev pub IsAccounted : List Named → Text → Type 0
IsAccounted es n =
    ((e : Named) × Memᴰ e es × (e.path ≡ some n))
    ⊎ (n ≡ manifest_arcname)
    ⊎ ((s : Text) × (n ≡ s ++ 47 ∷ []))

-- There is no sidecar, or it is not readable, or it has no word, or its first word is the digest.
abbrev pub Agrees : {B : Type 0} → Libraries B → B → Sidecar → Type 0
Agrees l zip absent = Unit
Agrees l zip unreadable = Unit
Agrees l zip undecodable = ⊥
Agrees l zip (text t) =
    (first_word l.is_space t ≡ none)
    ⊎ ((w : Text) × (first_word l.is_space t ≡ some w) × (l.lower w ≡ l.hash zip))

abbrev pub IsVerified : {B : Type 0} → Libraries B → Shelf B → Type 0
IsVerified {B} l shelf =
    (zip : B) × (ms : List (Member B)) × (b : B) × (es : List Named) × (shelf.archive ≡ some zip)
    × Agrees l zip shelf.sidecar
    × (l.unpack zip ≡ some ms)
    × IsLast ms manifest_arcname (whole b)
    × (l.decode b ≡ listed es)
    × All (IsIntact l ms) es
    × All (λ m. IsAccounted es m.name) ms

read_member-none :
    {B : Type 0} (ms : List (Member B)) (n : Text)
    → (read_member ms n ≡ none) ↔ All (λ k. k.name ≢ n) ms
unfolding read_member
read_member-none [] n = (λ h. tt, λ h. refl)
read_member-none (m ∷ ms) n =
    let rest = read_member-none ms n in
    let same = same_iff m.name n in
    elim (Option-cases (read_member ms n)) [
      | inr (c, e) ↦ (λ h. ground arith, λ h. absurd (ground (arith, rest.1 h.1)))
      | inl e ↦ elim (Bool-cases (m.name == n)) [
        | inl t ↦ (λ h. ground arith, λ h. absurd (h.0 (same.0 t)))
        | inr f ↦ (λ h. (λ s. ground (arith, same.1 s), rest.0 e), λ h. ground arith)
      ]
    ]

read_member-IsLast :
    {B : Type 0} (ms : List (Member B)) (n : Text) (c : Content B)
    → (read_member ms n ≡ some c) ↔ IsLast ms n c
unfolding read_member
read_member-IsLast [] n c = (λ h. ground arith, λ h. absurd h)
read_member-IsLast (m ∷ ms) n c =
    let rest = read_member-IsLast ms n c in
    let gone = read_member-none ms n in
    let same = same_iff m.name n in
    elim (Option-cases (read_member ms n)) [
      | inr (d, e) ↦ (
        λ h. inl (rest.0 (ground arith)),
        λ h. elim h [
          | inl later ↦ ground (arith, rest.1 later)
          | inr (_, _, free) ↦ absurd (ground (arith, gone.1 free))
        ],
      )
      | inl e ↦ elim (Bool-cases (m.name == n)) [
        | inl t ↦ (
          λ h. inr (same.0 t, ground arith, gone.0 e),
          λ h. elim h [
            | inl later ↦ absurd (ground (arith, rest.1 later))
            | inr (_, found, _) ↦ ground arith
          ],
        )
        | inr f ↦ (
          λ h. absurd (ground arith),
          λ h. elim h [
            | inl later ↦ absurd (ground (arith, rest.1 later))
            | inr (named, _, _) ↦ absurd (ground (arith, same.1 named))
          ],
        )
      ]
    ]

is_digest_iff : (d : Text) (o : Option Text) → (is_digest d o ≡ true) ↔ (o ≡ some d)
is_digest_iff d none = ground arith
is_digest_iff d (some t) =
    let same = same_iff t d in (λ h. ap some (same.0 h), λ h. same.1 (ground arith))

is_named_iff :
    (es : List Named) (n : Text)
    → (is_named es n ≡ true) ↔ ((e : Named) × Memᴰ e es × (e.path ≡ some n))
unfolding is_named
is_named_iff [] n = (λ h. ground arith, λ h. absurd (Memᴰ.not-nil h.1))
is_named_iff (e ∷ es) n =
    let first = is_digest_iff n e.path in
    let rest = is_named_iff es n in
    (
      λ h. elim (Bool-cases (is_digest n e.path)) [
        | inl t ↦ (e, Memᴰ.head refl, first.0 t)
        | inr f ↦ let (k, found, named) = rest.0 (ground arith) in (k, Memᴰ.tail found, named)
      ],
      λ (k, found, named). elim (Memᴰ.cases_cons found) [
        | inl here ↦
            let hit = first.1 (ap (λ (x : Named). x.path) (sym here) ∙ named) in ground arith
        | inr later ↦ let hit = rest.1 (k, later, named) in ground arith
      ],
    )

ends_with_slash_iff : (n : Text) → (ends_with_slash n ≡ true) ↔ ((s : Text) × (n ≡ s ++ 47 ∷ []))
unfolding ends_with_slash
ends_with_slash_iff [] = (λ h. ground arith, λ h. absurd (no_slash h.0 h.1))
  where
    no_slash : (s : Text) → [] ≢ s ++ 47 ∷ []
    no_slash [] e = ground arith
    no_slash (c ∷ s) e = ground arith
ends_with_slash_iff (c ∷ []) = (λ h. ([], ground arith), λ h. only h.0 h.1)
  where
    only : (s : Text) → c ∷ [] ≡ s ++ 47 ∷ [] → c == 47 ≡ true
    only [] e = ground arith
    only (d ∷ []) e = ground arith
    only (d ∷ b ∷ s) e = ground arith
ends_with_slash_iff (c ∷ d ∷ s) =
    let rest = ends_with_slash_iff (d ∷ s) in
    (λ h. let (r, e) = rest.0 h in (c ∷ r, ap (λ x. c ∷ x) e), λ h. rest.1 (shorter h.0 h.1))
  where
    shorter : (r : Text) → c ∷ d ∷ s ≡ r ++ 47 ∷ [] → (q : Text) × (d ∷ s ≡ q ++ 47 ∷ [])
    shorter [] e = absurd (ground arith)
    shorter (b ∷ r) e = (r, ground arith)

is_extra_iff : (es : List Named) (n : Text) → (is_extra es n ≡ false) ↔ IsAccounted es n
is_extra_iff es n =
    let in_entries = is_named_iff es n in
    let is_manifest = same_iff n manifest_arcname in
    let is_folder = ends_with_slash_iff n in
    elim (Bool-cases (is_named es n)) [
      | inl t ↦ (λ h. inl (in_entries.0 t), λ h. ground arith)
      | inr f ↦ elim (Bool-cases (n == manifest_arcname)) [
        | inl t ↦ (λ h. inr (inl (is_manifest.0 t)), λ h. ground arith)
        | inr f' ↦ elim (Bool-cases (ends_with_slash n)) [
          | inl t ↦ (λ h. inr (inr (is_folder.0 t)), λ h. ground arith)
          | inr f'' ↦ (
            λ h. ground arith,
            λ h. elim h [
              | inl x ↦ absurd (ground (arith, in_entries.1 x))
              | inr (inl x) ↦ absurd (ground (arith, is_manifest.1 x))
              | inr (inr x) ↦ absurd (ground (arith, is_folder.1 x))
            ],
          )
        ]
      ]
    ]

check_sidecar-Agrees :
    {B : Type 0} (l : Libraries B) (zip : B) (s : Sidecar)
    → Unopposed (check_sidecar l zip s) ↔ Agrees l zip s
unfolding check_sidecar
check_sidecar-Agrees l zip absent = (λ h. tt, λ h. inr refl)
check_sidecar-Agrees l zip unreadable = (λ h. tt, λ h. inr refl)
check_sidecar-Agrees l zip undecodable = ground arith
check_sidecar-Agrees l zip (text t) = elim (Option-cases (first_word l.is_space t)) [
  | inl e ↦ (λ h. inl e, λ h. inr (ground arith))
  | inr (w, e) ↦
      let same = same_iff (l.lower w) (l.hash zip) in
      elim (Bool-cases (l.lower w == l.hash zip)) [
        | inl t ↦ (λ h. inr (w, e, same.0 t), λ h. inl (ground arith))
        | inr f ↦ (
          λ h. ground arith,
          λ h. elim h [
            | inl gone ↦ ground arith
            | inr (v, e', agrees) ↦
                let v_is_w : v ≡ w = cc in
                absurd (ground (arith, same.1 (ap l.lower (sym v_is_w) ∙ agrees)))
          ],
        )
      ]
]

Vouches-IsIntact :
    {B : Type 0} (l : Libraries B) (ms : List (Member B)) (e : Named)
    → Vouches l ms e ↔ IsIntact l ms e
Vouches-IsIntact l ms e = (
  λ (b, found, same). (
    b,
    (read_member-IsLast ms (or_empty e.path) (whole b)).0 found,
    (is_digest_iff (l.hash b) e.sha256).0 same,
  ),
  λ (b, found, same). (
    b,
    (read_member-IsLast ms (or_empty e.path) (whole b)).1 found,
    (is_digest_iff (l.hash b) e.sha256).1 same,
  ),
)

-- verify_archive exits with OK exactly when: the archive is readable; its last member of the
-- manifest's name is whole and decodes to a list of entries; for each entry, the last member of its
-- name is whole and has the digest that the entry names; each member's name is one of the entries', or
-- the manifest's, or ends in a slash; and there is no sidecar, or it cannot be opened, or it is text
-- with no word in it, or its first word, in lower case, is the digest of the archive.
pub verify_archive-IsVerified :
    {B : Type 0} (l : Libraries B) (shelf : Shelf B)
    → (verify_archive l shelf ≡ exits ok) ↔ IsVerified l shelf
verify_archive-IsVerified l shelf = (
  λ h.
      let (zip, ms, b, es, stored, side, opened, manifest, read, (intact, accounted)) =
        (verify_archive-ok l shelf).0 h in
      (
        zip,
        ms,
        b,
        es,
        stored,
        (check_sidecar-Agrees l zip shelf.sidecar).0 side,
        opened,
        (read_member-IsLast ms manifest_arcname (whole b)).0 manifest,
        read,
        All-imp (λ e. (Vouches-IsIntact l ms e).0) es intact,
        All-imp (λ m. (is_extra_iff es m.name).0) ms accounted,
      ),
  λ (zip, ms, b, es, stored, side, opened, manifest, read, intact, accounted).
      (verify_archive-ok l shelf).1 (
        zip,
        ms,
        b,
        es,
        stored,
        (check_sidecar-Agrees l zip shelf.sidecar).1 side,
        opened,
        (read_member-IsLast ms manifest_arcname (whole b)).1 manifest,
        read,
        (
          All-imp (λ e. (Vouches-IsIntact l ms e).1) es intact,
          All-imp (λ m. (is_extra_iff es m.name).1) ms accounted,
        ),
      ),
)
