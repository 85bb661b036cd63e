-- ===== src/Packager/Digest.antt =====
-- project_packager.py: the bytes of files, their digests, and what the libraries say of them: hashlib,
-- json and zipfile. The bytes and the libraries are given, with what the packager relies on.
use adp_pro.Prelude.{
  ℕ, nat_eq, ◌≡◌, Bool, true, not, ◌&&◌, Option, none, some, List, [], ◌∷◌, ◌++◌, if◌then◌else◌,
  map, arith, sym, subst,
}
use adp_pro.Files.Names.{Text}
use adp_pro.Packager.Paths.{codes, text_eq}

abbrev pub manifest_arcname : Text
manifest_arcname = codes "PACKAGE_MANIFEST.json"

pub record Entry : Type 0 where
  pub path : Text
  pub size : ℕ
  pub sha256 : Text

-- The manifest that is embedded, less the names of the tool and its version.
pub record Manifest : Type 0 where
  pub created_utc : Text
  pub project : Text
  pub file_count : ℕ
  pub total_bytes : ℕ
  pub files : List Entry

-- An entry as it is read back: what `get` finds.
pub record Named : Type 0 where
  pub path : Option Text
  pub sha256 : Option Text

abbrev pub named : Entry → Named
named e = record { path = some e.path; sha256 = some e.sha256 }

-- What `json.loads` and the first `get` make of bytes: `odd` raises something other than a JSON error,
-- as a text that is not UTF-8 does, and a value that is no object.
pub data Decoded : Type 0 where
  not_json odd : Decoded
  listed : List Named → Decoded

-- What `read` gives of a member: its bytes, a BadZipFile, or an error that verify does not handle, as
-- for a broken stream or an encrypted member.
pub data Content (B : Type 0) : Type 0 where
  whole : B → Content B
  damaged unsupported : Content B

pub record Member (B : Type 0) : Type 0 where
  pub name : Text
  pub content : Content B

pub record Libraries (B : Type 0) : Type 0 where
  -- `hashlib.sha256(b).hexdigest()`
  pub hash : B → Text
  pub size : B → ℕ
  pub encode : Manifest → B
  pub decode : B → Decoded
  pub pack : List (Member B) → B
  pub unpack : B → Option (List (Member B))
  -- White space for `split`.
  pub is_space : ℕ → Bool
  pub lower : Text → Text

-- `split()[0]`: the characters up to the next white space, and none where there is only white space.
abbrev pub until_space : (ℕ → Bool) → Text → Text
until_space is_space [] = []
until_space is_space (c ∷ s) =
    let rest = until_space is_space s in if is_space c then [] else c ∷ rest

unfoldable pub first_word : (ℕ → Bool) → Text → Option Text
first_word is_space [] = none
first_word is_space (c ∷ s) =
    let later = first_word is_space s in
    if is_space c then later else some (c ∷ until_space is_space s)

abbrev pub has_no_space : (ℕ → Bool) → Text → Bool
has_no_space is_space [] = true
has_no_space is_space (c ∷ s) = not (is_space c) && has_no_space is_space s

-- What the packager relies on: json and zipfile read back what they wrote, and a hexadecimal digest
-- is one word in small letters.
pub record IsDocumented {B : Type 0} (l : Libraries B) : Type 0 where
  pub decode-encode : (m : Manifest) → l.decode (l.encode m) ≡ listed (map named m.files)
  pub unpack-pack : (ms : List (Member B)) → l.unpack (l.pack ms) ≡ some ms
  pub blank : l.is_space 32 ≡ true
  pub hash-word : (b : B) → has_no_space l.is_space (l.hash b) ≡ true
  pub hash-starts : (b : B) → (c : ℕ) × (s : Text) × (l.hash b ≡ c ∷ s)
  pub hash-lower : (b : B) → l.lower (l.hash b) ≡ l.hash b

until_space-word :
    (is_space : ℕ → Bool) (s t : Text)
    → has_no_space is_space s ≡ true
    → is_space 32 ≡ true
    → until_space is_space (s ++ 32 ∷ t) ≡ s
until_space-word is_space [] t h blank = ground arith
until_space-word is_space (c ∷ s) t h blank =
    let rest = until_space-word is_space s t in ground arith

first_word-word :
    (is_space : ℕ → Bool) (c : ℕ) (s t : Text)
    → has_no_space is_space (c ∷ s) ≡ true
    → is_space 32 ≡ true
    → first_word is_space (c ∷ s ++ 32 ∷ t) ≡ some (c ∷ s)
unfolding first_word
first_word-word is_space c s t h blank = let later = until_space-word is_space s t in ground arith

-- The digest is read back from the line that the sidecar holds.
pub first_word-hash :
    {B : Type 0} (l : Libraries B) (b : B) (t : Text)
    → IsDocumented l
    → first_word l.is_space (l.hash b ++ 32 ∷ t) ≡ some (l.hash b)
unfolding first_word
first_word-hash l b t d =
    let (c, s, e) = d.hash-starts b in
    let word = subst (λ x. has_no_space l.is_space x ≡ true) e (d.hash-word b) in
    subst (λ x. first_word l.is_space (x ++ 32 ∷ t) ≡ some x) (sym e)
      (first_word-word l.is_space c s t word d.blank)
