-- ===== src/Dyn/Text.antt =====
-- `cstrAt`: strings in a string table.
use native.Mathlib.Decide.{ℕ_discrete}
use sec_compile_option.Base.{
  ==_iff, Option-cases, [], ap, arith, drop, drop-append, false, if◌then◌else◌, inl, inr, leb,
  length, length-append, ne→==_false, none, refl, some, take, take-append, ℕ, ◌++◌, ◌<◌, ◌==◌, ◌∷◌,
  ◌≡◌, ◌≢◌, ◌⊎◌,
}
use sec_compile_option.Dyn.{cstr_at}
use sec_compile_option.Go.Strings.{Bytes, Lacks, index_byte, index_byte-Lacks}

-- The offset lies in the table, and the table holds there the string and its NUL, or the string to
-- its very end; the string holds no NUL.
pub record IsStringAt (str : Bytes) (off : ℕ) (s : Bytes) : Type 0 where
  pub in_table : off < length str
  pub no_nul : Lacks 0 s
  pub spelled : (drop off str ≡ s) ⊎ ((rest : Bytes) × (drop off str ≡ s ++ 0 ∷ rest))

-- What `cstrAt` returns from the part of the table behind the offset.
abbrev cut : Bytes → Bytes
cut tail = elim (index_byte tail 0) [ none ↦ tail | some end ↦ take end tail ]

cut-cons : (c : ℕ) (s : Bytes) → cut (c ∷ s) ≡ (if c == 0 then [] else c ∷ cut s)
unfolding index_byte
cut-cons c s = elim (Option-cases (index_byte s 0)) [
  | inl q ↦ ground (arith, q)
  | inr (i, q) ↦ ground (arith, q)
]

-- `s` is the text up to its first NUL, or all of it.
abbrev IsCut : Bytes → Bytes → Type 0
IsCut tail s = Lacks 0 s × ((tail ≡ s) ⊎ ((rest : Bytes) × (tail ≡ s ++ 0 ∷ rest)))

IsCut-cons : (c : ℕ) (tail s : Bytes) → c ≢ 0 → IsCut tail s → IsCut (c ∷ tail) (c ∷ s)
IsCut-cons c tail s h (l, inl e) = ((h, l), inl (ap (◌∷◌ c) e))
IsCut-cons c tail s h (l, inr (rest, e)) = ((h, l), inr (rest, ap (◌∷◌ c) e))

IsCut-nul : (c : ℕ) (s : Bytes) → c ≡ 0 → IsCut (c ∷ s) []
IsCut-nul c s h = (tt, inr (s, ap (λ x. x ∷ s) h))

IsCut-nil : IsCut [] (cut [])
unfolding index_byte
IsCut-nil = (tt, inl refl)

cut-IsCut : (tail : Bytes) → IsCut tail (cut tail)
cut-IsCut [] = IsCut-nil
cut-IsCut (c ∷ s) = elim (ℕ_discrete c 0) [
  | yes z ↦ rw (cut-cons, (==_iff c 0).1 z) (IsCut-nul c s z)
  | no nz ↦ rw (cut-cons, ne→==_false c 0 nz) (IsCut-cons c s (cut s) nz (cut-IsCut s))
]

-- A string that `cstrAt` returns stands in the table at the offset, up to its NUL or the end.
pub cstr_at-IsStringAt :
    (str : Bytes) (off : ℕ) {s : Bytes} → cstr_at str off ≡ some s → IsStringAt str off s
unfolding cstr_at
cstr_at-IsStringAt str off {s} h =
    let inside : off < length str = ground arith in
    let e : cut (drop off str) ≡ s = ground arith in
    let (l, spelled) = cut-IsCut (drop off str) in
    record { in_table = inside; no_nul = rw e at l; spelled = rw e at spelled }

-- A NUL-free string that an encoder wrote between any two parts of a table is read back at its
-- offset.
pub cstr_at-append :
    (before s rest : Bytes)
    → Lacks 0 s
    → cstr_at (before ++ (s ++ 0 ∷ rest)) (length before) ≡ some s
unfolding cstr_at
cstr_at-append before s rest h =
    let len = length-append before (s ++ 0 ∷ rest) in
    let len' = length-append s (0 ∷ rest) in
    let inside : leb (length (before ++ (s ++ 0 ∷ rest))) (length before) ≡ false = ground arith in
    rw (inside, drop-append, index_byte-Lacks s rest 0 h, drop-append, take-append)
