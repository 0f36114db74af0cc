-- ===== src/Go/Spaces/Comments.antt =====
-- What strings.TrimSpace leaves of a comment still starts with #.
use mathlib.Core.List.{flatten}
use sec_compile_option.Base.{
  All, All-map, Bool-cases, List, [], any, ap, arith, both_false, false, inl, inr, length, refl,
  suc, true, zero, ℕ, ◌++◌, ◌==◌, ◌∙◌, ◌∷◌, ◌≡◌, ◌≤◌, ◌⊎◌,
}
use sec_compile_option.Go.Spaces.{
  backwards, front_width, reversed, space_encodings, strip, trim_space,
}
use sec_compile_option.Go.Spaces.Encodings.{
  AreSpaces, IsSeen-in_front, reversed-append, spaces_of, strip-append, strip_stop,
}
use sec_compile_option.Go.Strings.{Bytes, Lacks, Lacks-any, has_prefix}

prefix_bound :
    (s e : Bytes) → Lacks b'#' e → has_prefix (s ++ b'#' ∷ []) e ≡ true → length e ≤ length s
unfolding has_prefix
prefix_bound s [] h p = omega arith
prefix_bound [] (x ∷ e) (h, hs) p = ground arith
prefix_bound (c ∷ s) (x ∷ e) (h, hs) p = ground (arith, prefix_bound s e hs)

width_bound :
    (es : List Bytes) (s : Bytes) → All (Lacks b'#') es → front_width es (s ++ b'#' ∷ []) ≤ length s
width_bound [] s h = omega arith
width_bound (e ∷ es) s (h, hs) = elim (Bool-cases (has_prefix (s ++ b'#' ∷ []) e)) [
  | inl p ↦ rw p (prefix_bound s e h p)
  | inr p ↦ rw p (width_bound es s hs)
]

lack-All : (es : List Bytes) → any (any (λ c. c == b'#')) es ≡ false → All (Lacks b'#') es
lack-All [] h = tt
lack-All (e ∷ es) h =
    let (a, b) = both_false (any (λ c. c == b'#') e) _ h in (Lacks-any b'#' e a, lack-All es b)

backwards-Lacks : All (Lacks b'#') backwards
unfolding reversed
backwards-Lacks = lack-All backwards refl

width_cases : (n : ℕ) → (n ≡ 0) ⊎ ((m : ℕ) × (n ≡ suc m))
width_cases zero = inl refl
width_cases (suc n) = inr (n, refl)

-- Stripping spaces from the end keeps a sign # at the start.
sign_kept :
    (s : Bytes) (n : ℕ)
    → n ≤ length s
    → (t : Bytes) × (strip backwards n (s ++ b'#' ∷ []) ≡ t ++ b'#' ∷ [])
unfolding strip
sign_kept [] zero h =
    ([], strip_stop backwards b'#' [] (omega (arith, width_bound backwards [] backwards-Lacks)))
sign_kept [] (suc n) h = absurd (omega arith)
sign_kept (c ∷ s) (suc n) h = sign_kept s n (omega arith)
sign_kept (c ∷ s) zero h = elim (width_cases (front_width backwards (c ∷ (s ++ b'#' ∷ [])))) [
  | inl e ↦ (c ∷ s, strip_stop backwards c (s ++ b'#' ∷ []) e)
  | inr (m, e) ↦
      let (t, q) =
        sign_kept s m (omega (arith, width_bound backwards (c ∷ s) backwards-Lacks, e)) in
      (t, rw (strip, e) q)
]

pub trim_space_comment :
    (indent : List Bytes) (text : Bytes)
    → AreSpaces indent
    → (rest : Bytes) × (trim_space (flatten indent ++ b'#' ∷ text) ≡ b'#' ∷ rest)
unfolding trim_space reversed
trim_space_comment indent text h =
    let left : strip space_encodings 0 (flatten indent ++ b'#' ∷ text) ≡ b'#' ∷ text =
      strip-append space_encodings indent (b'#' ∷ text)
        (All-map IsSeen-in_front indent (spaces_of indent h))
      ∙ strip_stop space_encodings b'#' text (unfold has_prefix in refl) in
    let (t, q) = sign_kept (reversed text) 0 (omega arith) in
    (
      reversed t,
      ap (λ r. reversed (strip backwards 0 (reversed r))) left
          ∙ (ap reversed q ∙ reversed-append t (b'#' ∷ [])),
    )
