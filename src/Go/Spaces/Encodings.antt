-- ===== src/Go/Spaces/Encodings.antt =====
-- The encodings of spaces: each is seen whole, from both sides.
use mathlib.Core.List.{flatten}
use mathlib.Core.Path.{subst}
use sec_compile_option.Base.{
  All, Bool, Bool-cases, List, [], any, ap, append-nil, append_assoc, false, inl, inr, leb, length,
  ltb, refl, suc, sym, true, ℕ, ◌&&◌, ◌++◌, ◌||◌, ◌∙◌, ◌∷◌, ◌≡◌,
}
use sec_compile_option.Go.Spaces.{backwards, front_width, reversed, space_encodings, strip}
use sec_compile_option.Go.Strings.{Bytes, eq_bytes, eq_bytes_iff, has_prefix}

-- In front of any text, the encoding is seen whole.
abbrev IsSeen : List Bytes → Bytes → Type 0
IsSeen es [] = ⊥
IsSeen es (c ∷ e) = (t : Bytes) → front_width es (c ∷ (e ++ t)) ≡ suc (length e)

skip_past : (es : List Bytes) (e t : Bytes) → strip es (length e) (e ++ t) ≡ strip es 0 t
unfolding strip
skip_past es [] t = refl
skip_past es (c ∷ e) t = skip_past es e t

strip_one : (es : List Bytes) (e t : Bytes) → IsSeen es e → strip es 0 (e ++ t) ≡ strip es 0 t
unfolding strip
strip_one es [] t h = absurd h
strip_one es (c ∷ e) t h = rw (strip, h t) (skip_past es e t)

pub strip-append :
    (es pads : List Bytes) (s : Bytes)
    → All (IsSeen es) pads
    → strip es 0 (flatten pads ++ s) ≡ strip es 0 s
unfolding flatten
strip-append es [] s h = refl
strip-append es (e ∷ pads) s (h, hs) =
    ap (strip es 0) (append_assoc e (flatten pads) s)
    ∙ (strip_one es e (flatten pads ++ s) h ∙ strip-append es pads s hs)

pub strip_stop :
    (es : List Bytes) (c : ℕ) (s : Bytes) → front_width es (c ∷ s) ≡ 0 → strip es 0 (c ∷ s) ≡ c ∷ s
unfolding strip
strip_stop es c s h = rw (strip, h) refl

pub reversed-append : (s t : Bytes) → reversed (s ++ t) ≡ reversed t ++ reversed s
unfolding reversed
reversed-append [] t = sym (append-nil (reversed t))
reversed-append (c ∷ s) t =
    ap (λ r. r ++ c ∷ []) (reversed-append s t) ∙ append_assoc (reversed t) (reversed s) (c ∷ [])

pub reversed-reversed : (s : Bytes) → reversed (reversed s) ≡ s
unfolding reversed
reversed-reversed [] = refl
reversed-reversed (c ∷ s) = reversed-append (reversed s) (c ∷ []) ∙ ap (◌∷◌ c) (reversed-reversed s)

-- Spaces at the end, stripped backwards.
pub strip-reversed :
    (pads : List Bytes) (s : Bytes)
    → All (λ e. IsSeen backwards (reversed e)) pads
    → strip backwards 0 (reversed (s ++ flatten pads)) ≡ strip backwards 0 (reversed s)
unfolding flatten
strip-reversed [] s h = ap (λ t. strip backwards 0 (reversed t)) (append-nil s)
strip-reversed (e ∷ pads) s (h, hs) =
    ap (λ t. strip backwards 0 (reversed t)) (sym (append_assoc s e (flatten pads)))
    ∙ (strip-reversed pads (s ++ e) hs
        ∙ (ap (strip backwards 0) (reversed-append s e)
            ∙ strip_one backwards (reversed e) (reversed s) h))

-- A byte that continues a rune.
abbrev pub continues : ℕ → Bool
continues b = leb 128 b && ltb b 192

abbrev pub IsStart : Bytes → Type 0
IsStart [] = Unit
IsStart (d ∷ t) = continues d ≡ false

-- What an encoding of a space is: it is seen from both sides, and only its first byte starts a rune.
abbrev pub IsSpace : Bytes → Type 0
IsSpace [] = ⊥
IsSpace (c ∷ e) =
    IsSeen space_encodings (c ∷ e)
    × IsSeen backwards (reversed (c ∷ e))
    × (continues c ≡ false)
    × All (λ b. continues b ≡ true) e

pub encodings-IsSpace : All IsSpace space_encodings
unfolding has_prefix reversed
encodings-IsSpace = (
  (λ t. refl, λ t. refl, refl, tt),
  (
    (λ t. refl, λ t. refl, refl, tt),
    (
      (λ t. refl, λ t. refl, refl, tt),
      (
        (λ t. refl, λ t. refl, refl, tt),
        (
          (λ t. refl, λ t. refl, refl, tt),
          (
            (λ t. refl, λ t. refl, refl, tt),
            (
              (λ t. refl, λ t. refl, refl, (refl, tt)),
              (
                (λ t. refl, λ t. refl, refl, (refl, tt)),
                (
                  (λ t. refl, λ t. refl, refl, (refl, (refl, tt))),
                  (
                    (λ t. refl, λ t. refl, refl, (refl, (refl, tt))),
                    (
                      (λ t. refl, λ t. refl, refl, (refl, (refl, tt))),
                      (
                        (λ t. refl, λ t. refl, refl, (refl, (refl, tt))),
                        (
                          (λ t. refl, λ t. refl, refl, (refl, (refl, tt))),
                          (
                            (λ t. refl, λ t. refl, refl, (refl, (refl, tt))),
                            (
                              (λ t. refl, λ t. refl, refl, (refl, (refl, tt))),
                              (
                                (λ t. refl, λ t. refl, refl, (refl, (refl, tt))),
                                (
                                  (λ t. refl, λ t. refl, refl, (refl, (refl, tt))),
                                  (
                                    (λ t. refl, λ t. refl, refl, (refl, (refl, tt))),
                                    (
                                      (λ t. refl, λ t. refl, refl, (refl, (refl, tt))),
                                      (
                                        (λ t. refl, λ t. refl, refl, (refl, (refl, tt))),
                                        (
                                          (λ t. refl, λ t. refl, refl, (refl, (refl, tt))),
                                          (
                                            (λ t. refl, λ t. refl, refl, (refl, (refl, tt))),
                                            (
                                              (λ t. refl, λ t. refl, refl, (refl, (refl, tt))),
                                              (
                                                (λ t. refl, λ t. refl, refl, (refl, (refl, tt))),
                                                (
                                                  (λ t. refl, λ t. refl, refl, (refl, (refl, tt))),
                                                  tt,
                                                ),
                                              ),
                                            ),
                                          ),
                                        ),
                                      ),
                                    ),
                                  ),
                                ),
                              ),
                            ),
                          ),
                        ),
                      ),
                    ),
                  ),
                ),
              ),
            ),
          ),
        ),
      ),
    ),
  ),
)

All-test :
    (P : Bytes → Type 0) (xs : List Bytes)
    → All P xs
    → (e : Bytes) → any (λ x. eq_bytes e x) xs ≡ true
    → P e
All-test P [] h e t = absurd (cc)
All-test P (x ∷ xs) (h, hs) e t = elim (Bool-cases (eq_bytes e x)) [
  | inl q ↦ subst P (sym ((eq_bytes_iff e x).0 q)) h
  | inr q ↦ All-test P xs hs e (sym (ap (λ b. b || any (λ x. eq_bytes e x) xs) q) ∙ t)
]

-- Encodings of spaces.
abbrev pub AreSpaces : List Bytes → Type 0
AreSpaces = All (λ e. any (λ x. eq_bytes e x) space_encodings ≡ true)

pub spaces_of : (pads : List Bytes) → AreSpaces pads → All IsSpace pads
spaces_of [] h = tt
spaces_of (e ∷ pads) (h, hs) =
    (All-test IsSpace space_encodings encodings-IsSpace e h, spaces_of pads hs)

pub IsSeen-in_front : (e : Bytes) → IsSpace e → IsSeen space_encodings e
IsSeen-in_front [] h = absurd h
IsSeen-in_front (c ∷ e) h = h.0

pub IsSeen-behind : (e : Bytes) → IsSpace e → IsSeen backwards (reversed e)
IsSeen-behind [] h = absurd h
IsSeen-behind (c ∷ e) h = h.1

pub spaces-IsStart : (pads : List Bytes) → All IsSpace pads → IsStart (flatten pads)
unfolding flatten
spaces-IsStart [] h = tt
spaces-IsStart ([] ∷ pads) (h, hs) = absurd h
spaces-IsStart ((c ∷ e) ∷ pads) (h, hs) = h.2
