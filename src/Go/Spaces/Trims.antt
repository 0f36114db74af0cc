-- ===== src/Go/Spaces/Trims.antt =====
-- What strings.TrimSpace leaves of a text with spaces around it.
use mathlib.Core.List.{flatten}
use sec_compile_option.Base.{
  All, All-map, Bool, List, [], ap, append-nil, arith, false, if◌then◌else◌, length, refl, suc, sym,
  true, ℕ, ◌++◌, ◌∙◌, ◌∷◌, ◌≡◌,
}
use sec_compile_option.Go.Spaces.{
  backwards, front_width, reversed, space_encodings, strip, trim_space,
}
use sec_compile_option.Go.Spaces.Encodings.{
  AreSpaces, IsSeen-behind, IsSeen-in_front, IsSpace, IsStart, continues, encodings-IsSpace,
  reversed-reversed, spaces-IsStart, spaces_of, strip-append, strip-reversed, strip_stop,
}
use sec_compile_option.Go.Strings.{Bytes, has_prefix}

-- An encoding does not reach into a text that starts a rune.
within :
    (s t e : Bytes)
    → IsStart t
    → All (λ b. continues b ≡ true) e
    → has_prefix (s ++ t) e ≡ true
    → has_prefix s e ≡ true
unfolding has_prefix
within s t [] st h p = refl
within [] [] (x ∷ e) st h p = p
within [] (d ∷ t) (x ∷ e) st (h, hs) p = ground arith
within (c ∷ s) t (x ∷ e) st (h, hs) p = ground (arith, within s t e st hs)

reach :
    (c : ℕ) (s t : Bytes) (x : ℕ) (e : Bytes)
    → IsStart t
    → All (λ b. continues b ≡ true) e
    → has_prefix (c ∷ s) (x ∷ e) ≡ false
    → has_prefix (c ∷ (s ++ t)) (x ∷ e) ≡ false
unfolding has_prefix
reach c s t x e st h p = ground (arith, within s t e st h)

if_zero : (b : Bool) (n m : ℕ) → (if b then suc n else m) ≡ 0 → (b ≡ false) × (m ≡ 0)
if_zero true n m h = absurd (omega arith)
if_zero false n m h = (refl, h)

width_within :
    (es : List Bytes) (c : ℕ) (s t : Bytes)
    → All IsSpace es
    → IsStart t
    → front_width es (c ∷ s) ≡ 0
    → front_width es (c ∷ (s ++ t)) ≡ 0
width_within [] c s t h st w = refl
width_within ([] ∷ es) c s t (h, hs) st w = absurd h
width_within ((x ∷ e) ∷ es) c s t (h, hs) st w =
    let (p, v) = if_zero (has_prefix (c ∷ s) (x ∷ e)) (length e) (front_width es (c ∷ s)) w in
    rw (reach c s t x e st h.3 p) (width_within es c s t hs st v)

pub trim_space_path :
    (indent : List Bytes) (c : ℕ) (s : Bytes) (trail : List Bytes)
    → AreSpaces indent
    → AreSpaces trail
    → front_width space_encodings (c ∷ s) ≡ 0
    → front_width backwards (reversed (c ∷ s)) ≡ 0
    → trim_space (flatten indent ++ (c ∷ (s ++ flatten trail))) ≡ c ∷ s
unfolding trim_space
trim_space_path indent c s trail i t f b =
    let front = spaces_of indent i in
    let back = spaces_of trail t in
    let left : strip space_encodings 0 (flatten indent ++ (c ∷ (s ++ flatten trail)))
        ≡ c ∷ (s ++ flatten trail) =
      strip-append space_encodings indent (c ∷ (s ++ flatten trail))
        (All-map IsSeen-in_front indent front)
      ∙ strip_stop space_encodings c (s ++ flatten trail) (
          width_within space_encodings c s (flatten trail) encodings-IsSpace
            (spaces-IsStart trail back) f) in
    ap (λ r. reversed (strip backwards 0 (reversed r))) left
    ∙ (ap reversed (strip-reversed trail (c ∷ s) (All-map IsSeen-behind trail back))
        ∙ (ap reversed (whole (reversed (c ∷ s)) b) ∙ reversed-reversed (c ∷ s)))
  where
    whole : (r : Bytes) → front_width backwards r ≡ 0 → strip backwards 0 r ≡ r
    whole [] h = unfold strip in refl
    whole (d ∷ r) h = strip_stop backwards d r h

pub trim_space_blank : (pads : List Bytes) → AreSpaces pads → trim_space (flatten pads) ≡ []
unfolding trim_space
trim_space_blank pads h =
    ap (λ r. reversed (strip backwards 0 (reversed r)))
      (ap (strip space_encodings 0) (sym (append-nil (flatten pads)))
        ∙ strip-append space_encodings pads [] (All-map IsSeen-in_front pads (spaces_of pads h)))
    ∙ unfold strip reversed in refl
