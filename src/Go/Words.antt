-- ===== src/Go/Words.antt =====
-- uint64 and int64. An int64 is carried by its 64-bit pattern, so that a conversion between the
-- two changes nothing; the signed order compares the patterns with the sign bit turned over.
use sec_compile_option.Base.{Bool, leb, ltb, ℕ, ◌%◌, ◌+◌, ◌-◌, ◌^◌}

abbrev pub two64 : ℕ
two64 = 2 ^ 64

abbrev pub two63 : ℕ
two63 = 2 ^ 63

abbrev pub add64 : ℕ → ℕ → ℕ
add64 a b = (a + b) % two64

abbrev pub sub64 : ℕ → ℕ → ℕ
sub64 a b = (a + two64 - b) % two64

abbrev pub is_negative : ℕ → Bool
is_negative a = leb two63 a

-- a <= b and a < b as int64.
abbrev pub sle : ℕ → ℕ → Bool
sle a b = leb (add64 a two63) (add64 b two63)

abbrev pub slt : ℕ → ℕ → Bool
slt a b = ltb (add64 a two63) (add64 b two63)
