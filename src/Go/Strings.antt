-- ===== src/Go/Strings.antt =====
-- Go strings and byte slices as lists of bytes, with the functions of `strings`, `bytes` and `sort`
-- that the program calls.
use mathlib.Core.Option
use Prim.Native.Char.{code}
use Prim.Native.String.{String}
use sec_compile_option.Base.{
  All, Bool, List, Option, [], any, arith, false, if◌then◌else◌, length, length-replicate, ltb,
  none, refl, replicate, some, suc, true, zero, ℕ, ◌%◌, ◌&&◌, ◌++◌, ◌+◌, ◌/◌, ◌==◌, ◌||◌, ◌↔◌, ◌∷◌,
  ◌≡◌, ◌≢◌,
}

abbrev pub Bytes : Type 0
Bytes = List ℕ

-- The code points of a literal; these are its bytes when the text is ASCII.
abbrev pub codes : String → Bytes
codes String.[] = []
codes (String.◌∷◌ c s) = code c ∷ codes s

unfoldable pub eq_bytes : Bytes → Bytes → Bool
eq_bytes [] [] = true
eq_bytes (x ∷ xs) (y ∷ ys) = x == y && eq_bytes xs ys
eq_bytes _ _ = false

pub eq_bytes_iff : (a b : Bytes) → (eq_bytes a b ≡ true) ↔ (a ≡ b)
unfolding eq_bytes
eq_bytes_iff (x ∷ a) (y ∷ b) = ground (arith, eq_bytes_iff a b)
eq_bytes_iff _ _ = ground arith

-- strings.HasPrefix(s, prefix)
unfoldable pub has_prefix : Bytes → Bytes → Bool
has_prefix s [] = true
has_prefix [] (p ∷ ps) = false
has_prefix (c ∷ s) (p ∷ ps) = c == p && has_prefix s ps

-- strings.HasSuffix(s, suffix): some tail of s is the suffix.
unfoldable pub has_suffix : Bytes → Bytes → Bool
unfolding eq_bytes
has_suffix [] t = eq_bytes [] t
has_suffix (c ∷ s) t = eq_bytes (c ∷ s) t || has_suffix s t

-- strings.Contains(s, part) and bytes.Contains.
unfoldable pub contains : Bytes → Bytes → Bool
unfolding has_prefix
contains [] t = has_prefix [] t
contains (c ∷ s) t = has_prefix (c ∷ s) t || contains s t

-- strings.IndexByte(s, b) and bytes.IndexByte; none stands for -1.
unfoldable pub index_byte : Bytes → ℕ → Option ℕ
index_byte [] b = none
index_byte (c ∷ s) b = let rest = index_byte s b in if c == b then some 0 else Option.map suc rest

-- strings.TrimPrefix and strings.TrimSuffix.
unfoldable pub trim_matched : Bytes → Bytes → Option Bytes
trim_matched s [] = some s
trim_matched [] (p ∷ ps) = none
trim_matched (c ∷ s) (p ∷ ps) = let rest = trim_matched s ps in if c == p then rest else none

unfoldable pub trim_prefix : Bytes → Bytes → Bytes
unfolding trim_matched
trim_prefix s p = elim (trim_matched s p) [ none ↦ s | some r ↦ r ]

unfoldable pub trim_suffix : Bytes → Bytes → Bytes
unfolding eq_bytes
trim_suffix [] t = []
trim_suffix (c ∷ s) t = if eq_bytes (c ∷ s) t then [] else c ∷ trim_suffix s t

-- strings.Split(s, sep) for a separator of one byte.
unfoldable pub push_first : ℕ → List Bytes → List Bytes
push_first c [] = (c ∷ []) ∷ []
push_first c (p ∷ ps) = (c ∷ p) ∷ ps

unfoldable pub split : ℕ → Bytes → List Bytes
unfolding push_first
split b [] = [] ∷ []
split b (c ∷ s) = let rest = split b s in if c == b then [] ∷ rest else push_first c rest

-- strings.Join(parts, sep)
unfoldable pub join : Bytes → List Bytes → Bytes
join sep [] = []
join sep (p ∷ []) = p
join sep (p ∷ q ∷ ps) = p ++ (sep ++ join sep (q ∷ ps))

-- The byte does not occur.
abbrev pub Lacks : ℕ → Bytes → Type 0
Lacks b = All (λ c. c ≢ b)

-- A test that a byte does not occur.
pub Lacks-any : (b : ℕ) (s : Bytes) → any (λ c. c == b) s ≡ false → Lacks b s
Lacks-any b [] h = tt
Lacks-any b (c ∷ s) h = (ground arith, Lacks-any b s (ground arith))

-- strconv.Itoa of a count, and %d.
unfoldable pub decimal : ℕ → ℕ → Bytes → Bytes
decimal zero n acc = acc
decimal (suc fuel) n acc = elim (ltb n 10) [
  | true ↦ (48 + n) ∷ acc
  | false ↦ decimal fuel (n / 10) ((48 + n % 10) ∷ acc)
]

unfoldable pub itoa : ℕ → Bytes
unfolding decimal
itoa n = decimal (suc n) n []

-- strings.Repeat of one byte.
abbrev pub repeat : ℕ → ℕ → Bytes
repeat b n = replicate n b

pub length-repeat : (b n : ℕ) → length (repeat b n) ≡ n
length-repeat b n = length-replicate n b

pub index_byte-Lacks :
    (s rest : Bytes) (b : ℕ) → Lacks b s → index_byte (s ++ b ∷ rest) b ≡ some (length s)
unfolding index_byte
index_byte-Lacks [] rest b h = ground arith
index_byte-Lacks (c ∷ s) rest b (hc, hs) = ground (arith, index_byte-Lacks s rest b hs)

pub index_byte-none : (s : Bytes) (b : ℕ) → Lacks b s → index_byte s b ≡ none
unfolding index_byte
index_byte-none [] b h = refl
index_byte-none (c ∷ s) b (hc, hs) = ground (arith, index_byte-none s b hs)
