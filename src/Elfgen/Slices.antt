-- ===== src/Elfgen/Slices.antt =====
-- The sections of the image of a layout, cut out at the offsets of the plan.
use sec_compile_option.Base.{
  [], ap, append-nil, append_assoc, arith, drop, inl, inr, length, length-append, refl, sym, take,
  ℕ, ◌++◌, ◌+◌, ◌-◌, ◌∙◌, ◌∷◌, ◌≡◌,
}
use sec_compile_option.Elfgen.{Layout, phdr_count, strings_of}
use sec_compile_option.Elfgen.Assembly.{IsPlan-in_bytes, final_entries, image_of}
use sec_compile_option.Elfgen.Dynamic.{
  after_dynamic, before_dynamic, image_of_parts, length-before_dynamic, slice-append,
}
use sec_compile_option.Elfgen.Image.{Section, align8, interp_text, phdrs_of, plan_of}
use sec_compile_option.Elfgen.Loops.{zeros}
use sec_compile_option.Elfgen.Sections.{IsPlaced, length-padded, padded}
use sec_compile_option.Elfgen.Writes.{concat_map, entry_bytes, header_bytes, phdr_bytes, sym_bytes}
use sec_compile_option.Go.Strings.{Bytes}

-- A section without its padding.
padded_slice :
    (front content rest : Bytes) (off : ℕ)
    → length front ≡ off
    → take (length content) (drop off (front ++ (padded content ++ rest))) ≡ content
padded_slice front content rest off h =
    let pad = zeros (align8 (length content) - length content) in
    ap (λ t. take (length content) (drop off (front ++ t))) (append_assoc content pad rest)
    ∙ slice-append front content (pad ++ rest) off (length content) h refl

-- The same for a section that was placed, which may have no bytes.
placed_slice :
    (front content rest image : Bytes) (sec : Section) (off next : ℕ)
    → image ≡ front ++ (padded content ++ rest)
    → length front ≡ off
    → IsPlaced (length content) off (sec, next)
    → take sec.size (drop sec.offset image) ≡ content
placed_slice front content rest image sec off next e h p = elim p.standing [
  | inl n ↦ rw (p.sized, n) (sym (empty_of_length content n))
  | inr o ↦ rw (p.sized, e) (padded_slice front content rest sec.offset (h ∙ sym o))
]
  where
    empty_of_length : (b : Bytes) → length b ≡ 0 → b ≡ []
    empty_of_length [] n = refl
    empty_of_length (x ∷ b) n = absurd (omega arith)

module _ (l : Layout) where
  abbrev table_bytes : Bytes
  table_bytes = concat_map phdr_bytes (phdrs_of l (plan_of l (strings_of l)))

  abbrev entries_bytes : Bytes
  entries_bytes = concat_map entry_bytes (final_entries l)

  abbrev symbols_bytes : Bytes
  symbols_bytes = concat_map sym_bytes (strings_of l).syms

  abbrev in_front : Bytes
  in_front = header_bytes l (phdr_count l (strings_of l)) ++ table_bytes

  pub interp_slice :
      (let sec = (plan_of l (strings_of l)).interp_sec in
        take sec.size (drop sec.offset (image_of l)) ≡ interp_text l)
  interp_slice =
      let s = strings_of l in
      let plan = IsPlan-in_bytes l in
      let h = header_bytes l (phdr_count l s) in
      let rest = padded entries_bytes ++ after_dynamic l in
      placed_slice in_front (interp_text l) rest (image_of l) (plan_of l s).interp_sec
        (64 + length table_bytes) _
        (sym (append_assoc h table_bytes (padded (interp_text l) ++ rest)))
        (length-append h table_bytes) plan.interp_placed

  abbrev before_symbols : Bytes
  before_symbols = before_dynamic l ++ padded entries_bytes

  length-before_symbols :
      length before_symbols
      ≡ 64 + length table_bytes + align8 (length (interp_text l)) + align8 (length entries_bytes)
  length-before_symbols = omega (
    arith,
    length-append (before_dynamic l) (padded entries_bytes),
    length-before_dynamic l,
    length-padded entries_bytes,
  )

  image_of-symbols : image_of l ≡ before_symbols ++ after_dynamic l
  image_of-symbols =
      image_of_parts l
      ∙ sym (append_assoc (before_dynamic l) (padded entries_bytes) (after_dynamic l))

  pub symbols_slice :
      (let sec = (plan_of l (strings_of l)).sym_sec in
        take sec.size (drop sec.offset (image_of l)) ≡ symbols_bytes)
  symbols_slice =
      let s = strings_of l in
      let plan = IsPlan-in_bytes l in
      placed_slice before_symbols symbols_bytes (padded s.str_buf) (image_of l)
        (plan_of l s).sym_sec _ _ image_of-symbols length-before_symbols plan.sym_placed

  abbrev before_strings : Bytes
  before_strings = before_symbols ++ padded symbols_bytes

  length-before_strings : length before_strings ≡ (plan_of l (strings_of l)).str_start
  length-before_strings =
      let plan = IsPlan-in_bytes l in
      omega (
        arith,
        length-append before_symbols (padded symbols_bytes),
        length-before_symbols,
        length-padded symbols_bytes,
        plan.str_placed,
      )

  image_of-strings : image_of l ≡ before_strings ++ padded (strings_of l).str_buf
  image_of-strings =
      image_of-symbols
      ∙ sym (append_assoc before_symbols (padded symbols_bytes) (padded (strings_of l).str_buf))

  pub strings_slice :
      (let s = strings_of l in
        take (length s.str_buf) (drop (plan_of l s).str_start (image_of l)) ≡ s.str_buf)
  strings_slice =
      let s = strings_of l in
      let p = plan_of l s in
      ap (λ b. take (length s.str_buf) (drop p.str_start b))
        (image_of-strings ∙ ap (λ t. before_strings ++ t) (sym (append-nil (padded s.str_buf))))
      ∙ padded_slice before_strings s.str_buf [] p.str_start length-before_strings

  -- The image is as long as planned.
  pub length-image_of : length (image_of l) ≡ (plan_of l (strings_of l)).total
  length-image_of =
      let s = strings_of l in
      let plan = IsPlan-in_bytes l in
      ap length image_of-strings
      ∙ omega (
        arith,
        length-append before_strings (padded s.str_buf),
        length-before_strings,
        length-padded s.str_buf,
        plan.str_placed,
        plan.totalled,
      )
