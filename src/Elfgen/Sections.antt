-- ===== src/Elfgen/Sections.antt =====
-- The sections of the image: where `place` puts them, and what copying one does.
use mathlib.Core.Path.{subst}
use sec_compile_option.Base.{
  [], ap, append_assoc, arith, false, inl, inr, length, length-append, length-replicate,
  ne→==_false, refl, suc, sym, zero, ℕ, ◌%◌, ◌++◌, ◌+◌, ◌-◌, ◌==◌, ◌∙◌, ◌∷◌, ◌≡◌, ◌⊎◌,
}
use sec_compile_option.Elfgen.Image.{Section, align8, copy_section, place}
use sec_compile_option.Elfgen.Loops.{zeros, zeros-add}
use sec_compile_option.Go.Buffers.{copy_at, copy_at-append}
use sec_compile_option.Go.Run.{done}
use sec_compile_option.Go.Strings.{Bytes}

abbrev pub padded : Bytes → Bytes
padded content = content ++ zeros (align8 (length content) - length content)

-- What holds of an offset and a section of `len` bytes that is placed there.
pub record IsPlaced (len off : ℕ) (r : Section × ℕ) : Type 0 where
  pub sized : r.0.size ≡ len
  pub standing : (len ≡ 0) ⊎ (r.0.offset ≡ off)
  pub next : r.1 ≡ off + align8 len
  pub aligned : r.1 % 8 ≡ 0

pub place-IsPlaced : (len off : ℕ) → off % 8 ≡ 0 → IsPlaced len off (place len off)
unfolding place
place-IsPlaced zero off h = record {
  sized = refl;
  standing = inl refl;
  next = omega arith;
  aligned = h;
}
place-IsPlaced (suc n) off h =
    rw (ne→==_false (suc n) 0 (omega arith))
      (record { sized = refl; standing = inr refl; next = omega arith; aligned = omega arith })

pub length-zeros : (n : ℕ) → length (zeros n) ≡ n
length-zeros n = length-replicate n 0

pub length-padded : (content : Bytes) → length (padded content) ≡ align8 (length content)
length-padded content = omega (
  arith,
  length-append content (zeros (align8 (length content) - length content)),
  length-zeros (align8 (length content) - length content),
)

-- The zeros of a section are its bytes and its padding.
pub zeros-padded :
    (content : Bytes)
    → zeros (align8 (length content))
      ≡ zeros (length content) ++ zeros (align8 (length content) - length content)
zeros-padded content =
    let e : align8 (length content) ≡ length content + (align8 (length content) - length content) =
      omega arith in
    ap zeros e ∙ zeros-add (length content) (align8 (length content) - length content)

-- Content that is copied to where its zeros begin is the section.
pub copy_at-padded :
    (front content rest : Bytes) (off : ℕ)
    → length front ≡ off
    → copy_at (front ++ (zeros (align8 (length content)) ++ rest)) off content
      ≡ done (front ++ (padded content ++ rest))
copy_at-padded front content rest off h =
    let pad = zeros (align8 (length content) - length content) in
    ap (λ z. copy_at (front ++ z) off content)
      (ap (λ z. z ++ rest) (zeros-padded content) ∙ append_assoc (zeros (length content)) pad rest)
    ∙ (copy_at-append front (zeros (length content)) content (pad ++ rest) off h
          (length-zeros (length content))
        ∙ ap (λ z. done (front ++ z)) (sym (append_assoc content pad rest)))

copy_section-cons :
    (front content rest : Bytes) (sec : Section)
    → (sec.size == 0) ≡ false
    → length front ≡ sec.offset
    → copy_section (front ++ (zeros (align8 (length content)) ++ rest)) sec content
      ≡ done (front ++ (padded content ++ rest))
unfolding copy_section
copy_section-cons front content rest sec n h = rw n (copy_at-padded front content rest sec.offset h)

pub copy_section-IsPlaced :
    (front content rest : Bytes) (r : Section × ℕ)
    → IsPlaced (length content) (length front) r
    → copy_section (front ++ (zeros (align8 (length content)) ++ rest)) r.0 content
      ≡ done (front ++ (padded content ++ rest))
copy_section-IsPlaced front [] rest r p = unfold copy_section in rw (p.sized) refl
copy_section-IsPlaced front (c ∷ content) rest r p = elim p.standing [
  | inl e ↦ absurd (omega arith)
  | inr e ↦ copy_section-cons front (c ∷ content) rest r.0 (ground (arith, p.sized)) (sym e)
]

-- The same with the offset named.
pub copy_section_at :
    (front content rest : Bytes) (sec : Section) (off next : ℕ)
    → length front ≡ off
    → IsPlaced (length content) off (sec, next)
    → copy_section (front ++ (zeros (align8 (length content)) ++ rest)) sec content
      ≡ done (front ++ (padded content ++ rest))
copy_section_at front content rest sec off next h p =
    copy_section-IsPlaced front content rest (sec, next)
      (subst (λ o. IsPlaced (length content) o (sec, next)) (sym h) p)
