-- ===== src/Packager/Secrets.antt =====
-- project_packager.py: which files the secret scan can read, and what it says of the others. The
-- decoders and the patterns of secrets are given. A ratio is compared by its products: the quotients of
-- samples this small lie on the same side of 0.05, 0.1 and 0.3 as floating point numbers.
use adp_pro.Prelude.{
  ℕ, ◌+◌, ◌*◌, ◌/◌, min, ◌==◌, nat_eq, ltb, Bool, true, false, not, ◌&&◌, ◌||◌, Option, none, some,
  List, [], ◌∷◌, ◌++◌, if◌then◌else◌, any, filter, length, take, is_some,
}
use adp_pro.Files.Names.{Text}
use adp_pro.Packager.Paths.{RelPath}
use adp_pro.Packager.Rules.{starts_with}
use adp_pro.Packager.Signatures.{
  Codec, utf_8, utf_16_le, utf_16_be, Bom, text_boms, binary_magic_signatures,
}

abbrev pub Bytes : Type 0
Bytes = List ℕ

-- A strict decoding: the text, or where it fails.
pub data Decoding : Type 0 where
  decoded : Text → Decoding
  fails_at : ℕ → Decoding

abbrev pub Decoder : Type 0
Decoder = Codec → Bytes → Decoding

abbrev pub is_odd_byte : ℕ → Bool
is_odd_byte c = ltb c 32 && not (any (λ d. d == c) (9 ∷ 10 ∷ 11 ∷ 12 ∷ 13 ∷ 27 ∷ [])) || c == 127

-- `binary_control_ratio(sample) > 0.05`
unfoldable pub looks_binary : Bytes → Bool
looks_binary sample = ltb (length sample) (20 * length (filter is_odd_byte sample))

-- The bytes at even places, and at odd ones.
unfoldable mutual
  pub evens : Bytes → Bytes
  evens [] = []
  evens (c ∷ s) = c ∷ odds s

  pub odds : Bytes → Bytes
  odds [] = []
  odds (c ∷ s) = evens s

abbrev pub nuls : Bytes → ℕ
nuls s = length (filter (λ c. c == 0) s)

unfoldable pub sniff_utf16 : Bytes → Option Codec
sniff_utf16 sample =
    let pairs = min (length (evens sample)) (length (odds sample)) in
    let even = nuls (take pairs (evens sample)) in
    let odd = nuls (take pairs (odds sample)) in
    if ltb (length sample) 8
    then none
    else if ltb (3 * pairs) (10 * odd) && ltb (10 * even) pairs
    then some utf_16_le
    else if ltb (3 * pairs) (10 * even) && ltb (10 * odd) pairs
    then some utf_16_be
    else none

unfoldable pub bom_of : Bytes → List Bom → Option Codec
bom_of sample [] = none
bom_of sample (b ∷ bs) =
    let later = bom_of sample bs in if starts_with sample b.bytes then some b.codec else later

abbrev pub is_decoded : Decoding → Bool
is_decoded (decoded t) = true
is_decoded (fails_at n) = false

-- UTF-8, where it fails only in the last bytes, as a sample that ends within a character does.
abbrev pub fails_early : Bytes → Decoding → Bool
fails_early sample (decoded t) = false
fails_early sample (fails_at n) = ltb (n + 4) (length sample)

unfoldable pub as_utf_8 : Decoder → Bytes → Option Codec
as_utf_8 decode sample =
    if fails_early sample (decode utf_8 sample) || looks_binary sample then none else some utf_8

unfoldable pub detect_text_encoding : Decoder → Bytes → Option Codec
detect_text_encoding decode sample = elim (bom_of sample text_boms) [
  | some codec ↦ some codec
  | none ↦ elim (sniff_utf16 sample) [
    | none ↦ as_utf_8 decode sample
    | some guess ↦
        if is_decoded (decode guess (take (length sample / 2 * 2) sample))
        then some guess
        else as_utf_8 decode sample
  ]
]

abbrev pub text_of : Decoding → Option Text
text_of (decoded t) = some t
text_of (fails_at n) = none

unfoldable pub decode_text_strict : Decoder → Bytes → Option Text
decode_text_strict decode whole = elim (detect_text_encoding decode (take 8192 whole)) [
  | none ↦ none
  | some codec ↦ text_of (decode codec whole)
]

abbrev pub secret_scan_max_bytes : ℕ
secret_scan_max_bytes = 1048576

-- A file as the scan finds it: its size and its bytes, where the system gives them.
pub record Probe : Type 0 where
  pub size : Option ℕ
  pub content : Option Bytes

unfoldable pub read_text_safe : Decoder → Probe → Option Text
read_text_safe decode f = elim f.size [
  | none ↦ none
  | some n ↦
      if ltb secret_scan_max_bytes n
      then none
      else elim f.content [ none ↦ none | some bytes ↦ decode_text_strict decode bytes ]
]

pub data UnscannedKind : Type 0 where
  binary text_like unreadable : UnscannedKind

unfoldable pub has_binary_magic : Bytes → Bool
has_binary_magic sample = any (starts_with sample) binary_magic_signatures

-- With the file's size and bytes at hand.
unfoldable pub classify_bytes : Decoder → ℕ → Bytes → Option UnscannedKind
classify_bytes decode size bytes =
    let sample = take 8192 bytes in
    if has_binary_magic sample
      || not (is_some (detect_text_encoding decode sample)) && looks_binary sample
    then some binary
    else if ltb secret_scan_max_bytes size || not (is_some (decode_text_strict decode bytes))
    then some text_like
    else none

unfoldable pub classified : Decoder → Option ℕ → Option Bytes → Option UnscannedKind
classified decode none content = some unreadable
classified decode (some size) none = some unreadable
classified decode (some size) (some bytes) = classify_bytes decode size bytes

abbrev pub classify_unscannable : Decoder → Probe → Option UnscannedKind
classify_unscannable decode f = classified decode f.size f.content

pub record UnscannedFile : Type 0 where
  pub path : RelPath
  pub kind : UnscannedKind

pub record Finding : Type 0 where
  pub rel_path : RelPath
  pub line : ℕ
  pub label : Text

pub record SecretScanResult : Type 0 where
  pub findings : List Finding
  pub unscanned : List UnscannedFile

-- The matches of the patterns in a text: the line of each, and its label.
abbrev pub Matches : Type 0
Matches = RelPath → Text → List Finding

abbrev pub or_text_like : Option UnscannedKind → UnscannedKind
or_text_like none = text_like
or_text_like (some k) = k

unfoldable pub note_scan :
    Matches → RelPath → Option Text → UnscannedKind → SecretScanResult → SecretScanResult
note_scan matches p none k later = record later {
  unscanned = record { path = p; kind = k } ∷ later.unscanned;
}
note_scan matches p (some t) k later = record later { findings = matches p t ++ later.findings }

unfoldable pub scan_file : Decoder → Matches → RelPath → Probe → SecretScanResult → SecretScanResult
scan_file decode matches p f later =
    note_scan matches p (read_text_safe decode f) (or_text_like (classify_unscannable decode f))
      later

unfoldable pub scan_for_secrets :
    Decoder → Matches → (RelPath → Probe) → List RelPath → SecretScanResult
scan_for_secrets decode matches probe [] = record { findings = []; unscanned = [] }
scan_for_secrets decode matches probe (p ∷ ps) =
    scan_file decode matches p (probe p) (scan_for_secrets decode matches probe ps)

abbrev pub could_hold_secret : UnscannedKind → Bool
could_hold_secret binary = false
could_hold_secret _ = true

unfoldable pub unscanned_text_files : SecretScanResult → List UnscannedFile
unscanned_text_files r = filter (λ u. could_hold_secret u.kind) r.unscanned
