-- ===== src/Packager/Gate.antt =====
-- project_packager.py: what a secret scan that blocks nothing shows of each file.
use adp_pro.Prelude.{
  ℕ, ◌≡◌, refl, ◌⊎◌, inl, inr, Bool, true, false, not, ◌&&◌, ◌||◌, Option, none, some, List, [],
  ◌∷◌, ◌++◌, if◌then◌else◌, ltb, All, take, is_some, arith,
}
use adp_pro.Files.Names.{Text}
use adp_pro.Packager.Paths.{RelPath}
use adp_pro.Packager.Secrets.{
  Bytes, Decoder, looks_binary, detect_text_encoding, decode_text_strict, Probe, read_text_safe,
  UnscannedKind, binary, text_like, unreadable, has_binary_magic, classify_bytes, classified,
  classify_unscannable, Matches, or_text_like, note_scan, scan_file, scan_for_secrets,
  SecretScanResult, secret_scan_max_bytes, unscanned_text_files,
}

-- It was read as a text, whole, and no pattern matches in it.
abbrev pub IsRead : Decoder → Matches → RelPath → Probe → Type 0
IsRead decode matches p f = (t : Text) × (read_text_safe decode f ≡ some t) × (matches p t ≡ [])

-- It opens with the signature of a binary file, or is no text and has many control bytes.
abbrev pub IsBinary : Decoder → Probe → Type 0
IsBinary decode f =
    (bytes : Bytes) × (f.content ≡ some bytes)
    × ((has_binary_magic (take 8192 bytes) ≡ true)
        ⊎ ((detect_text_encoding decode (take 8192 bytes) ≡ none)
            × (looks_binary (take 8192 bytes) ≡ true)))

module _ (magic is_text control big readable : Bool) where
  abbrev judged : Option UnscannedKind
  judged =
      if magic || not is_text && control
      then some binary
      else if big || not readable
      then some text_like
      else none

  judged-binary : judged ≡ some binary → (magic ≡ true) ⊎ ((is_text ≡ false) × (control ≡ true))
  judged-binary h = ground arith

is_some-none {ℓ} : {A : Type ℓ} (o : Option A) → is_some o ≡ false → o ≡ none
is_some-none none h = refl
is_some-none (some a) h = ground arith

classify_bytes-binary :
    (decode : Decoder) (size : ℕ) (bytes : Bytes)
    → classify_bytes decode size bytes ≡ some binary
    → (has_binary_magic (take 8192 bytes) ≡ true)
      ⊎ ((detect_text_encoding decode (take 8192 bytes) ≡ none)
          × (looks_binary (take 8192 bytes) ≡ true))
unfolding classify_bytes
classify_bytes-binary decode size bytes h =
    let found =
      judged-binary (has_binary_magic (take 8192 bytes))
        (is_some (detect_text_encoding decode (take 8192 bytes))) (looks_binary (take 8192 bytes))
        (ltb secret_scan_max_bytes size) (is_some (decode_text_strict decode bytes)) h in
    elim found [
      | inl magic ↦ inl magic
      | inr (no_text, control) ↦ inr (is_some-none _ no_text, control)
    ]

classified-binary :
    (decode : Decoder) (size : Option ℕ) (content : Option Bytes)
    → classified decode size content ≡ some binary
    → (bytes : Bytes) × (content ≡ some bytes)
      × ((has_binary_magic (take 8192 bytes) ≡ true)
          ⊎ ((detect_text_encoding decode (take 8192 bytes) ≡ none)
              × (looks_binary (take 8192 bytes) ≡ true)))
unfolding classified
classified-binary decode none c h = ground arith
classified-binary decode (some n) none h = ground arith
classified-binary decode (some n) (some bytes) h =
    (bytes, refl, classify_bytes-binary decode n bytes h)

-- A scan that blocks nothing has no finding, and no file that could hold one and was not read.
abbrev pub Passes : SecretScanResult → Type 0
Passes r = (r.findings ≡ []) × (unscanned_text_files r ≡ [])

append-empty {ℓ} : {A : Type ℓ} (xs ys : List A) → xs ++ ys ≡ [] → (xs ≡ []) × (ys ≡ [])
append-empty [] ys h = (refl, h)
append-empty (x ∷ xs) ys h = ground arith

note_scan-Passes :
    (matches : Matches) (p : RelPath) (text : Option Text) (k : UnscannedKind)
    (later : SecretScanResult)
    → Passes (note_scan matches p text k later)
    → (((t : Text) × (text ≡ some t) × (matches p t ≡ [])) ⊎ ((text ≡ none) × (k ≡ binary)))
      × Passes later
unfolding note_scan unscanned_text_files
note_scan-Passes matches p (some t) k later (h, u) =
    let (here, there) = append-empty (matches p t) later.findings h in
    (inl (t, refl, here), (there, u))
note_scan-Passes matches p none binary later h = (inr (refl, refl), h)
note_scan-Passes matches p none text_like later h = ground arith
note_scan-Passes matches p none unreadable later h = ground arith

or_text_like-binary : (k : Option UnscannedKind) → or_text_like k ≡ binary → k ≡ some binary
or_text_like-binary none h = ground arith
or_text_like-binary (some k) h = ground arith

scan_file-Passes :
    (decode : Decoder) (matches : Matches) (p : RelPath) (f : Probe) (later : SecretScanResult)
    → Passes (scan_file decode matches p f later)
    → (IsRead decode matches p f ⊎ IsBinary decode f) × Passes later
unfolding scan_file
scan_file-Passes decode matches p f later h =
    let k = classify_unscannable decode f in
    let (shown, rest) =
      note_scan-Passes matches p (read_text_safe decode f) (or_text_like k) later h in
    (
      elim shown [
        | inl read ↦ inl read
        | inr (_, e) ↦ inr (classified-binary decode f.size f.content (or_text_like-binary k e))
      ],
      rest,
    )

-- Nothing slips through: where the scan blocks nothing, each file was read whole with no match, or is
-- binary by its signature or by its control bytes.
pub scan_for_secrets-All :
    (decode : Decoder) (matches : Matches) (probe : RelPath → Probe) (ps : List RelPath)
    → Passes (scan_for_secrets decode matches probe ps)
    → All (λ p. IsRead decode matches p (probe p) ⊎ IsBinary decode (probe p)) ps
unfolding scan_for_secrets
scan_for_secrets-All decode matches probe [] h = tt
scan_for_secrets-All decode matches probe (p ∷ ps) h =
    let (first, rest) =
      scan_file-Passes decode matches p (probe p) (scan_for_secrets decode matches probe ps) h in
    (first, scan_for_secrets-All decode matches probe ps rest)
