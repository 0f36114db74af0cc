-- ===== src/Output/Xml/Escapes.antt =====
-- What xml.EscapeText writes.
use sec_compile_option.Base.{
  All, All-append, Bool, Bool-cases, Option, [], any, arith, false, if◌then◌else◌, inl, inr, leb,
  ltb, none, refl, some, suc, true, zero, ℕ, ◌<◌, ◌==◌, ◌||◌, ◌∷◌, ◌≡◌, ◌≢◌, ◌≤◌,
}
use sec_compile_option.Go.Strings.{Bytes, codes}
use sec_compile_option.Output.Xml.{
  Pending, copy_tail, escape_ascii, escape_from, escape_text, four_bytes, noncharacter, plain_ascii,
  replacement, rune_tail, skip_tail, three_bytes, two_bytes,
}

-- The next bytes are none of ASCII.
abbrev pub IsTail : ℕ → Bytes → Type 0
IsTail zero s = Unit
IsTail (suc n) [] = Unit
IsTail (suc n) (c ∷ s) = (128 ≤ c) × IsTail n s

two_bytes-IsTail : (c : ℕ) (s : Bytes) → two_bytes c s ≡ true → (128 ≤ c) × IsTail 1 s
two_bytes-IsTail c [] h = absurd (cc)
two_bytes-IsTail c (a ∷ s) h = ground arith

three_bytes-IsTail : (c : ℕ) (s : Bytes) → three_bytes c s ≡ true → (128 ≤ c) × IsTail 2 s
three_bytes-IsTail c [] h = absurd (cc)
three_bytes-IsTail c (a ∷ []) h = absurd (cc)
three_bytes-IsTail c (a ∷ b ∷ s) h = ground arith

four_bytes-IsTail : (c : ℕ) (s : Bytes) → four_bytes c s ≡ true → (128 ≤ c) × IsTail 3 s
four_bytes-IsTail c [] h = absurd (cc)
four_bytes-IsTail c (a ∷ []) h = absurd (cc)
four_bytes-IsTail c (a ∷ b ∷ []) h = absurd (cc)
four_bytes-IsTail c (a ∷ b ∷ d ∷ s) h = ground arith

-- What a rune is: a byte of ASCII, or a byte above with a tail of such bytes.
abbrev pub IsRune : ℕ → Bytes → Option ℕ → Type 0
IsRune c s none = 128 ≤ c
IsRune c s (some zero) = c < 128
IsRune c s (some (suc n)) = (128 ≤ c) × IsTail (suc n) s

pub rune_tail-IsRune : (c : ℕ) (s : Bytes) → IsRune c s (rune_tail c s)
unfolding rune_tail
rune_tail-IsRune c s = elim (Bool-cases (ltb c 0x80)) [
  | inl e ↦ rw e (ground arith)
  | inr e ↦ elim (Bool-cases (two_bytes c s)) [
    | inl t ↦ rw (e, t) (two_bytes-IsTail c s t)
    | inr t ↦ elim (Bool-cases (three_bytes c s)) [
      | inl u ↦ rw (e, t, u) (three_bytes-IsTail c s u)
      | inr u ↦ elim (Bool-cases (four_bytes c s)) [
        | inl v ↦ rw (e, t, u, v) (four_bytes-IsTail c s v)
        | inr v ↦ rw (e, t, u, v) (ground arith)
      ]
    ]
  ]
]

abbrev pub IsPending : Pending → Bytes → Type 0
IsPending (copy_tail n) s = IsTail n s
IsPending (skip_tail n) s = Unit

module _ (ascii : ℕ → Bytes) (P : ℕ → Type 0) (replaced : All P replacement)
    (high : (c : ℕ) → 128 ≤ c → P c) (low : (c : ℕ) → c < 128 → All P (ascii c)) where
  at_rune :
      (c : ℕ) (s : Bytes) (o : Option ℕ)
      → rune_tail c s ≡ o
      → IsRune c s o
      → ((p : Pending) → IsPending p s → All P (escape_from ascii p s))
      → All P (escape_from ascii (copy_tail 0) (c ∷ s))
  unfolding escape_from
  at_rune c s none e h ih =
      rw (escape_from, e) (All-append P replacement _ replaced (ih (copy_tail 0) tt))
  at_rune c s (some zero) e h ih =
      rw (escape_from, e) (All-append P (ascii c) _ (low c h) (ih (copy_tail 0) tt))
  at_rune c s (some (suc n)) e (h, t) ih = elim (Bool-cases (noncharacter c s)) [
    | inl b ↦
        rw (escape_from, e, b) (All-append P replacement _ replaced (ih (skip_tail (suc n)) tt))
    | inr b ↦ rw (escape_from, e, b) (high c h, ih (copy_tail (suc n)) t)
  ]

  -- A property of all bytes above ASCII, and of what is written for ASCII.
  escape_from-All : (p : Pending) (s : Bytes) → IsPending p s → All P (escape_from ascii p s)
  unfolding escape_from
  escape_from-All p [] h = tt
  escape_from-All (copy_tail (suc n)) (c ∷ s) (h, hs) =
      (high c h, escape_from-All (copy_tail n) s hs)
  escape_from-All (skip_tail (suc n)) (c ∷ s) h = escape_from-All (skip_tail n) s tt
  escape_from-All (copy_tail zero) (c ∷ s) h =
      at_rune c s (rune_tail c s) refl (rune_tail-IsRune c s) (λ q. escape_from-All q s)
  escape_from-All (skip_tail zero) (c ∷ s) h =
      at_rune c s (rune_tail c s) refl (rune_tail-IsRune c s) (λ q. escape_from-All q s)

-- No quote and no angle bracket.
abbrev pub IsInert : ℕ → Type 0
IsInert c = (c ≢ 34) × ((c ≢ 60) × (c ≢ 62))

-- A literal text without them.
IsInert-any : (s : Bytes) → any (λ c. c == 34 || (c == 60 || c == 62)) s ≡ false → All IsInert s
IsInert-any [] h = tt
IsInert-any (c ∷ s) h = (ground arith, IsInert-any s (ground arith))

All-if :
    (b : Bool) (x y : Bytes)
    → All IsInert x
    → (b ≡ false → All IsInert y)
    → All IsInert (if b then x else y)
All-if true x y hx hy = hx
All-if false x y hx hy = hy refl

plain_ascii-IsInert :
    (c : ℕ)
    → (c == 34) ≡ false
    → (c == 60) ≡ false
    → (c == 62) ≡ false
    → All IsInert (plain_ascii c)
plain_ascii-IsInert c a b d = elim (Bool-cases (leb 32 c || (c == 9 || (c == 10 || c == 13)))) [
  | inl e ↦ rw e ((ground arith, tt))
  | inr e ↦ rw e (IsInert-any replacement refl)
]

escape_ascii-IsInert : (c : ℕ) → c < 128 → All IsInert (escape_ascii c)
unfolding escape_ascii
escape_ascii-IsInert c h = All-if (c == 34) _ _ (IsInert-any (codes "&#34;") refl) (λ a.
    All-if (c == 39) _ _ (IsInert-any (codes "&#39;") refl) (λ _.
      All-if (c == 38) _ _ (IsInert-any (codes "&amp;") refl) (λ _.
        All-if (c == 60) _ _ (IsInert-any (codes "&lt;") refl) (λ b.
          All-if (c == 62) _ _ (IsInert-any (codes "&gt;") refl) (λ d.
            All-if (c == 9) _ _ (IsInert-any (codes "&#x9;") refl) (λ _.
              All-if (c == 10) _ _ (IsInert-any (codes "&#xA;") refl) (λ _.
                All-if (c == 13) _ _ (IsInert-any (codes "&#xD;") refl)
                  (λ _. plain_ascii-IsInert c a b d))))))))

-- Whatever the text, what is written for it has no quote and no angle bracket.
pub escape_text-IsInert : (s : Bytes) → All IsInert (escape_text s)
unfolding escape_text
escape_text-IsInert s =
    escape_from-All escape_ascii IsInert (IsInert-any replacement refl) (λ c h. ground arith)
      escape_ascii-IsInert (copy_tail 0) s tt
