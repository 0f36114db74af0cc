-- ===== src/Output/Xml/Rounds.antt =====
-- The text of the XML that is written, read back.
use sec_compile_option.Base.{
  ==_iff, Bool, Bool-cases, Option, [], ap, arith, false, if◌then◌else◌, inl, inr, leb, none, refl,
  some, suc, true, zero, ℕ, ◌++◌, ◌==◌, ◌||◌, ◌∙◌, ◌∷◌, ◌≡◌, ◌≤◌,
}
use sec_compile_option.Go.Strings.{Bytes, has_prefix}
use sec_compile_option.Output.Xml.{
  Pending, copy_tail, escape_ascii, escape_from, escape_text, noncharacter, plain_ascii,
  replacement, rune_tail, skip_tail,
}
use sec_compile_option.Output.Xml.Escapes.{IsPending, IsRune, rune_tail-IsRune}
use sec_compile_option.Output.Xml.Reader.{reference, representable, unescape, unescape_from}

reference-none : (c : ℕ) (s : Bytes) → (c == 38) ≡ false → reference (c ∷ s) ≡ none
unfolding has_prefix
reference-none c s e = rw e refl

-- A byte that begins no reference is read as it is.
bare_byte :
    (c : ℕ) (s : Bytes) → (c == 38) ≡ false → unescape_from 0 (c ∷ s) ≡ c ∷ unescape_from 0 s
unfolding unescape_from
bare_byte c s e = rw (unescape_from, reference-none c s e) refl

high_byte : (c : ℕ) (s : Bytes) → 128 ≤ c → unescape_from 0 (c ∷ s) ≡ c ∷ unescape_from 0 s
high_byte c s h = bare_byte c s (ground arith)

module _ (c : ℕ) (rest : Bytes) where
  IsReadAs : Bytes → Type 0
  IsReadAs w = unescape_from 0 (w ++ rest) ≡ plain_ascii c ++ unescape_from 0 rest

  if-IsReadAs :
      (b : Bool) (x y : Bytes)
      → (b ≡ true → IsReadAs x)
      → (b ≡ false → IsReadAs y)
      → IsReadAs (if b then x else y)
  if-IsReadAs true x y hx hy = hx refl
  if-IsReadAs false x y hx hy = hy refl

  plain-IsReadAs : (c == 38) ≡ false → IsReadAs (plain_ascii c)
  unfolding IsReadAs
  plain-IsReadAs a = elim (Bool-cases (leb 32 c || (c == 9 || (c == 10 || c == 13)))) [
    | inl e ↦ rw e (bare_byte c rest a)
    | inr e ↦ rw e (unfold unescape_from has_prefix in refl)
  ]

  -- What is written for a byte of ASCII is read as the byte, or as the replacement.
  escape_ascii-IsReadAs : IsReadAs (escape_ascii c)
  unfolding escape_ascii IsReadAs unescape_from has_prefix
  escape_ascii-IsReadAs =
      if-IsReadAs (c == 34) _ _ (λ e. rw ((==_iff c 34).0 e) refl)
        (λ _.
          if-IsReadAs (c == 39) _ _ (λ e. rw ((==_iff c 39).0 e) refl)
            (λ _.
              if-IsReadAs (c == 38) _ _ (λ e. rw ((==_iff c 38).0 e) refl)
                (λ a.
                  if-IsReadAs (c == 60) _ _ (λ e. rw ((==_iff c 60).0 e) refl)
                    (λ _.
                      if-IsReadAs (c == 62) _ _ (λ e. rw ((==_iff c 62).0 e) refl)
                        (λ _.
                          if-IsReadAs (c == 9) _ _ (λ e. rw ((==_iff c 9).0 e) refl)
                            (λ _.
                              if-IsReadAs (c == 10) _ _ (λ e. rw ((==_iff c 10).0 e) refl)
                                (λ _.
                                  if-IsReadAs (c == 13) _ _ (λ e. rw ((==_iff c 13).0 e) refl)
                                    (λ _. plain-IsReadAs a))))))))

IsReadBack : Pending → Bytes → Type 0
IsReadBack p s = unescape_from 0 (escape_from escape_ascii p s) ≡ escape_from plain_ascii p s

replacement_byte :
    (s : Bytes) → unescape_from 0 (replacement ++ s) ≡ replacement ++ unescape_from 0 s
unfolding unescape_from has_prefix
replacement_byte s = refl

read_rune :
    (c : ℕ) (s : Bytes) (o : Option ℕ)
    → rune_tail c s ≡ o
    → IsRune c s o
    → ((p : Pending) → IsPending p s → IsReadBack p s)
    → IsReadBack (copy_tail 0) (c ∷ s)
unfolding IsReadBack escape_from unescape_from IsReadAs
read_rune c s none e h ih =
    rw (escape_from, e)
      (replacement_byte (escape_from escape_ascii (copy_tail 0) s)
        ∙ ap (λ t. replacement ++ t) (ih (copy_tail 0) tt))
read_rune c s (some zero) e h ih =
    rw (escape_from, e)
      (escape_ascii-IsReadAs c (escape_from escape_ascii (copy_tail 0) s)
        ∙ ap (λ t. plain_ascii c ++ t) (ih (copy_tail 0) tt))
read_rune c s (some (suc n)) e (h, t) ih = elim (Bool-cases (noncharacter c s)) [
  | inl b ↦
      rw (escape_from, e, b)
        (replacement_byte (escape_from escape_ascii (skip_tail (suc n)) s)
          ∙ ap (λ t. replacement ++ t) (ih (skip_tail (suc n)) tt))
  | inr b ↦
      rw (escape_from, e, b)
        (high_byte c (escape_from escape_ascii (copy_tail (suc n)) s) h
          ∙ ap (◌∷◌ c) (ih (copy_tail (suc n)) t))
]

read_back : (p : Pending) (s : Bytes) → IsPending p s → IsReadBack p s
unfolding IsReadBack escape_from
read_back p [] h = unfold unescape_from in refl
read_back (copy_tail (suc n)) (c ∷ s) (h, hs) =
    high_byte c (escape_from escape_ascii (copy_tail n) s) h
    ∙ ap (◌∷◌ c) (read_back (copy_tail n) s hs)
read_back (skip_tail (suc n)) (c ∷ s) h = read_back (skip_tail n) s tt
read_back (copy_tail zero) (c ∷ s) h =
    read_rune c s (rune_tail c s) refl (rune_tail-IsRune c s) (λ q. read_back q s)
read_back (skip_tail zero) (c ∷ s) h =
    read_rune c s (rune_tail c s) refl (rune_tail-IsRune c s) (λ q. read_back q s)

-- Resolving the references of an escaped text gives the text back, with U+FFFD in the place of bytes
-- that are no UTF-8 and of the runes that XML does not allow.
pub unescape-escape_text : (s : Bytes) → unescape (escape_text s) ≡ representable s
unfolding escape_text representable IsReadBack
unescape-escape_text s = read_back (copy_tail 0) s tt
