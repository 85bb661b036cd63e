-- ===== src/Core/Models.antt =====
-- src/adp/core/models.py: the status of a download, and the category of a file name.
use Prim.Native.Char.{code}
use adp_pro.Prelude.{
  ℕ, ◌+◌, ◌-◌, String, Bool, true, false, ◌&&◌, ◌||◌, List, [], ◌∷◌, ◌==◌, nat_eq, leb, length,
  drop, any, if◌then◌else◌, nat_beq,
}
use adp_pro.Prelude.Dict.{Dict}

pub data Status : Type 0 where
  pending queued starting downloading paused stopped completed error verifying : Status

-- The values that `auto()` gives.
unfoldable pub value : Status → ℕ
value pending = 1
value queued = 2
value starting = 3
value downloading = 4
value paused = 5
value stopped = 6
value completed = 7
value error = 8
value verifying = 9

-- `a == b` on members of the enum.
unfoldable pub status_eq : Status → Status → Bool
unfolding value
status_eq a b = nat_beq (value a) (value b)

unfoldable pub is_terminal : Status → Bool
unfolding status_eq
is_terminal s = status_eq s completed || status_eq s error || status_eq s stopped

unfoldable pub is_active : Status → Bool
unfolding status_eq
is_active s = status_eq s starting || status_eq s downloading || status_eq s verifying

abbrev codes : String → List ℕ
codes String.[] = []
codes (String.◌∷◌ c s) = code c ∷ codes s

-- `str.lower` on ASCII letters.
lower_code : ℕ → ℕ
lower_code c = if leb b'A' c && leb c b'Z' then c + 32 else c

unfoldable pub lower : List ℕ → List ℕ
unfolding lower_code
lower [] = []
lower (c ∷ s) = lower_code c ∷ lower s

list_eq : List ℕ → List ℕ → Bool
list_eq [] [] = true
list_eq (a ∷ s) (b ∷ t) = a == b && list_eq s t
list_eq _ _ = false

-- `s.endswith(t)`: the last `len(t)` characters of `s` are `t`.
ends_with : List ℕ → List ℕ → Bool
unfolding list_eq
ends_with s t = leb (length t) (length s) && list_eq (drop (length s - length t) s) t

abbrev pub default_category : String
default_category = "General"

abbrev pub category_rules : Dict String (List String)
category_rules =
    (
      "Documents",
      ".pdf" ∷ ".doc" ∷ ".docx" ∷ ".txt" ∷ ".xls" ∷ ".xlsx" ∷ ".ppt" ∷ ".pptx" ∷ ".csv" ∷ [],
    )
    ∷ ("Archives", ".zip" ∷ ".rar" ∷ ".7z" ∷ ".tar" ∷ ".gz" ∷ ".xz" ∷ ".bz2" ∷ [])
    ∷ ("Video", ".mp4" ∷ ".mkv" ∷ ".avi" ∷ ".mov" ∷ ".webm" ∷ ".flv" ∷ [])
    ∷ ("Audio", ".mp3" ∷ ".wav" ∷ ".flac" ∷ ".aac" ∷ ".ogg" ∷ ".m4a" ∷ [])
    ∷ ("Images", ".jpg" ∷ ".jpeg" ∷ ".png" ∷ ".gif" ∷ ".bmp" ∷ ".svg" ∷ ".webp" ∷ [])
    ∷ ("Software", ".exe" ∷ ".msi" ∷ ".dmg" ∷ ".pkg" ∷ ".deb" ∷ ".rpm" ∷ ".appimage" ∷ [])
    ∷ []

-- The loop over the rules: the first category one of whose extensions ends the name.
first_category : List ℕ → Dict String (List String) → String
unfolding ends_with
first_category name [] = default_category
first_category name ((category, extensions) ∷ rules) =
    if any (λ ext. ends_with name (codes ext)) extensions
    then category
    else first_category name rules

unfoldable pub category_for_filename : String → String
unfolding lower first_category
category_for_filename filename = first_category (lower (codes filename)) category_rules
