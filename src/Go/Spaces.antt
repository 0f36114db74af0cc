-- ===== src/Go/Spaces.antt =====
-- strings.TrimSpace on UTF-8 text.
pub mod Encodings
pub mod Trims
pub mod Comments
use sec_compile_option.Base.{List, [], if◌then◌else◌, length, map, suc, zero, ℕ, ◌++◌, ◌∷◌}
use sec_compile_option.Go.Strings.{Bytes, has_prefix}

-- The encodings of the runes of unicode.IsSpace.
abbrev pub space_encodings : List Bytes
space_encodings =
    (9 ∷ [])
    ∷ (10 ∷ [])
    ∷ (11 ∷ [])
    ∷ (12 ∷ [])
    ∷ (13 ∷ [])
    ∷ (32 ∷ [])
    ∷ (0xc2 ∷ 0x85 ∷ [])
    ∷ (0xc2 ∷ 0xa0 ∷ [])
    ∷ (0xe1 ∷ 0x9a ∷ 0x80 ∷ [])
    ∷ (0xe2 ∷ 0x80 ∷ 0x80 ∷ [])
    ∷ (0xe2 ∷ 0x80 ∷ 0x81 ∷ [])
    ∷ (0xe2 ∷ 0x80 ∷ 0x82 ∷ [])
    ∷ (0xe2 ∷ 0x80 ∷ 0x83 ∷ [])
    ∷ (0xe2 ∷ 0x80 ∷ 0x84 ∷ [])
    ∷ (0xe2 ∷ 0x80 ∷ 0x85 ∷ [])
    ∷ (0xe2 ∷ 0x80 ∷ 0x86 ∷ [])
    ∷ (0xe2 ∷ 0x80 ∷ 0x87 ∷ [])
    ∷ (0xe2 ∷ 0x80 ∷ 0x88 ∷ [])
    ∷ (0xe2 ∷ 0x80 ∷ 0x89 ∷ [])
    ∷ (0xe2 ∷ 0x80 ∷ 0x8a ∷ [])
    ∷ (0xe2 ∷ 0x80 ∷ 0xa8 ∷ [])
    ∷ (0xe2 ∷ 0x80 ∷ 0xa9 ∷ [])
    ∷ (0xe2 ∷ 0x80 ∷ 0xaf ∷ [])
    ∷ (0xe2 ∷ 0x81 ∷ 0x9f ∷ [])
    ∷ (0xe3 ∷ 0x80 ∷ 0x80 ∷ [])
    ∷ []

-- The length of the first of the encodings that the text begins with, or 0.
abbrev pub front_width : List Bytes → Bytes → ℕ
front_width [] s = 0
front_width (e ∷ es) s = if has_prefix s e then length e else front_width es s

-- The text without the encodings in front, where so many bytes of one are still to be skipped.
unfoldable pub strip : List Bytes → ℕ → Bytes → Bytes
unfolding has_prefix
strip es n [] = []
strip es (suc n) (c ∷ s) = strip es n s
strip es zero (c ∷ s) = elim (front_width es (c ∷ s)) [ zero ↦ c ∷ s | suc n ↦ strip es n s ]

unfoldable pub reversed : Bytes → Bytes
reversed [] = []
reversed (c ∷ s) = reversed s ++ c ∷ []

-- From the end, the runes are decoded backwards.
abbrev pub backwards : List Bytes
backwards = map reversed space_encodings

unfoldable pub trim_space : Bytes → Bytes
unfolding strip reversed
trim_space s = reversed (strip backwards 0 (reversed (strip space_encodings 0 s)))
