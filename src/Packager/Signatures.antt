-- ===== src/Packager/Signatures.antt =====
-- project_packager.py: the signatures of binary files, and the marks of Unicode texts, in bytes.
use adp_pro.Prelude.{ℕ, List, [], ◌∷◌}

-- The codecs that a text is decoded with.
pub data Codec : Type 0 where
  utf_8 utf_8_sig utf_16 utf_32 utf_16_le utf_16_be : Codec

pub record Bom : Type 0 where
  pub bytes : List ℕ
  pub codec : Codec

abbrev pub text_boms : List Bom
text_boms =
    record { bytes = 255 ∷ 254 ∷ 0 ∷ 0 ∷ []; codec = utf_32 }
    ∷ record { bytes = 0 ∷ 0 ∷ 254 ∷ 255 ∷ []; codec = utf_32 }
    ∷ record { bytes = 239 ∷ 187 ∷ 191 ∷ []; codec = utf_8_sig }
    ∷ record { bytes = 255 ∷ 254 ∷ []; codec = utf_16 }
    ∷ record { bytes = 254 ∷ 255 ∷ []; codec = utf_16 }
    ∷ []

-- In order: PNG, JPEG, GIF, BMP, RIFF, PDF, ZIP, gzip, bzip2, xz, 7z, RAR, ELF, PE, Java class, Mach-O,
-- Ogg, FLAC, MP3, TrueType, OpenType, WOFF, RPM, SQLite.
abbrev pub binary_magic_signatures : List (List ℕ)
binary_magic_signatures =
    (137 ∷ 80 ∷ 78 ∷ 71 ∷ 13 ∷ 10 ∷ 26 ∷ 10 ∷ [])
    ∷ (255 ∷ 216 ∷ 255 ∷ [])
    ∷ (71 ∷ 73 ∷ 70 ∷ 56 ∷ 55 ∷ 97 ∷ [])
    ∷ (71 ∷ 73 ∷ 70 ∷ 56 ∷ 57 ∷ 97 ∷ [])
    ∷ (66 ∷ 77 ∷ [])
    ∷ (82 ∷ 73 ∷ 70 ∷ 70 ∷ [])
    ∷ (37 ∷ 80 ∷ 68 ∷ 70 ∷ 45 ∷ [])
    ∷ (80 ∷ 75 ∷ 3 ∷ 4 ∷ [])
    ∷ (80 ∷ 75 ∷ 5 ∷ 6 ∷ [])
    ∷ (80 ∷ 75 ∷ 7 ∷ 8 ∷ [])
    ∷ (31 ∷ 139 ∷ [])
    ∷ (66 ∷ 90 ∷ 104 ∷ [])
    ∷ (253 ∷ 55 ∷ 122 ∷ 88 ∷ 90 ∷ 0 ∷ [])
    ∷ (55 ∷ 122 ∷ 188 ∷ 175 ∷ 39 ∷ 28 ∷ [])
    ∷ (82 ∷ 97 ∷ 114 ∷ 33 ∷ 26 ∷ 7 ∷ [])
    ∷ (127 ∷ 69 ∷ 76 ∷ 70 ∷ [])
    ∷ (77 ∷ 90 ∷ [])
    ∷ (202 ∷ 254 ∷ 186 ∷ 190 ∷ [])
    ∷ (207 ∷ 250 ∷ 237 ∷ 254 ∷ [])
    ∷ (79 ∷ 103 ∷ 103 ∷ 83 ∷ [])
    ∷ (102 ∷ 76 ∷ 97 ∷ 67 ∷ [])
    ∷ (73 ∷ 68 ∷ 51 ∷ [])
    ∷ (0 ∷ 1 ∷ 0 ∷ 0 ∷ 0 ∷ [])
    ∷ (79 ∷ 84 ∷ 84 ∷ 79 ∷ [])
    ∷ (119 ∷ 79 ∷ 70 ∷ 70 ∷ [])
    ∷ (119 ∷ 79 ∷ 70 ∷ 50 ∷ [])
    ∷ (237 ∷ 171 ∷ 238 ∷ 219 ∷ [])
    ∷ (83 ∷ 81 ∷ 76 ∷ 105 ∷ 116 ∷ 101 ∷ 32 ∷ 102 ∷ 111 ∷ 114 ∷ 109 ∷ 97 ∷ 116 ∷ 32 ∷ 51 ∷ 0 ∷ [])
    ∷ []
