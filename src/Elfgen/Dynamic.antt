-- ===== src/Elfgen/Dynamic.antt =====
-- The dynamic section of the image, found and parsed through the program headers.
use mathlib.Core.List.{map-append}
use sec_compile_option.Base.{
  List, [], ap, append_assoc, arith, drop, length, length-append, not, refl, sym, take, true, ℕ,
  ◌++◌, ◌+◌, ◌-◌, ◌==◌, ◌∙◌, ◌∷◌, ◌≡◌,
}
use sec_compile_option.Dyn.{DynEntry}
use sec_compile_option.Dyn.Entries.{
  drop-append_of_length, put_entries, put_entry, take-append_of_length,
}
use sec_compile_option.Elf.{dt_null, little}
use sec_compile_option.Elfgen.{
  Layout, entry, non_empty, patched, phdr_count, strings_of, tmp_dyn, wanted_entries,
}
use sec_compile_option.Elfgen.Assembly.{IsPlan-in_bytes, final_entries, image_of}
use sec_compile_option.Elfgen.Headers.{live_entries, section_bound}
use sec_compile_option.Elfgen.Image.{align8, interp_text, phdrs_of, plan_of}
use sec_compile_option.Elfgen.Loops.{zeros}
use sec_compile_option.Elfgen.Sections.{length-padded, padded}
use sec_compile_option.Elfgen.Writes.{concat_map, entry_bytes, header_bytes, phdr_bytes, sym_bytes}
use sec_compile_option.Go.Strings.{Bytes}

-- What stands in front of the dynamic section, and behind it.
abbrev pub before_dynamic : Layout → Bytes
before_dynamic l =
    let s = strings_of l in
    header_bytes l (phdr_count l s)
    ++ (concat_map phdr_bytes (phdrs_of l (plan_of l s)) ++ padded (interp_text l))

abbrev pub after_dynamic : Layout → Bytes
after_dynamic l = let s = strings_of l in padded (concat_map sym_bytes s.syms) ++ padded s.str_buf

pub image_of_parts :
    (l : Layout)
    → image_of l
      ≡ before_dynamic l ++ (padded (concat_map entry_bytes (final_entries l)) ++ after_dynamic l)
image_of_parts l =
    let s = strings_of l in
    let h = header_bytes l (phdr_count l s) in
    let ph = concat_map phdr_bytes (phdrs_of l (plan_of l s)) in
    let rest = padded (concat_map entry_bytes (final_entries l)) ++ after_dynamic l in
    sym (
      append_assoc h (ph ++ padded (interp_text l)) rest
      ∙ ap (λ t. h ++ t) (append_assoc ph (padded (interp_text l)) rest))

pub length-before_dynamic :
    (l : Layout)
    → length (before_dynamic l)
      ≡ 64
        + length (concat_map phdr_bytes (phdrs_of l (plan_of l (strings_of l))))
        + align8 (length (interp_text l))
length-before_dynamic l =
    let s = strings_of l in
    let ph = concat_map phdr_bytes (phdrs_of l (plan_of l s)) in
    omega (
      arith,
      length-append (header_bytes l (phdr_count l s)) (ph ++ padded (interp_text l)),
      length-append ph (padded (interp_text l)),
      length-padded (interp_text l),
    )

-- The bytes between two parts.
pub slice-append :
    (front part rest : Bytes) (off n : ℕ)
    → length front ≡ off
    → length part ≡ n
    → take n (drop off (front ++ (part ++ rest))) ≡ part
slice-append front part rest off n h k =
    rw (drop-append_of_length off front (part ++ rest) h) (take-append_of_length n part rest k)

-- Where the plan has a dynamic section, the image has the entries there.
pub dynamic_slice :
    (l : Layout)
    → (let p = plan_of l (strings_of l) in
        not (p.dyn_sec.size == 0) ≡ true
        → take p.dyn_sec.size (drop p.dyn_sec.offset (image_of l))
          ≡ concat_map entry_bytes (final_entries l))
dynamic_slice l n =
    let s = strings_of l in
    let p = plan_of l s in
    let plan = IsPlan-in_bytes l in
    let content = concat_map entry_bytes (final_entries l) in
    let (_, stands) =
      section_bound _ _ p.total p.dyn_sec _ plan.dyn_placed (omega (arith, plan.totalled)) n in
    let at_offset : length (before_dynamic l) ≡ p.dyn_sec.offset =
      length-before_dynamic l ∙ sym stands in
    let pad = zeros (align8 (length content) - length content) in
    ap (λ b. take p.dyn_sec.size (drop p.dyn_sec.offset b))
      (image_of_parts l
        ∙ ap (λ t. before_dynamic l ++ t) (append_assoc content pad (after_dynamic l)))
    ∙ slice-append (before_dynamic l) content (pad ++ after_dynamic l) p.dyn_sec.offset
        p.dyn_sec.size at_offset (sym plan.dyn_placed.sized)

concat_map-append :
    (xs ys : List DynEntry)
    → concat_map entry_bytes (xs ++ ys) ≡ concat_map entry_bytes xs ++ concat_map entry_bytes ys
concat_map-append [] ys = refl
concat_map-append (x ∷ xs) ys = ap (λ t. entry_bytes x ++ t) (concat_map-append xs ys)

concat_map-put_entries : (es : List DynEntry) → concat_map entry_bytes es ≡ put_entries little 8 es
concat_map-put_entries [] = refl
concat_map-put_entries (e ∷ es) = ap (λ t. entry_bytes e ++ t) (concat_map-put_entries es)

-- The entries with their terminator, if there is any.
final_entries_lem :
    (l : Layout)
    → non_empty (wanted_entries l (strings_of l)) ≡ true
    → final_entries l ≡ live_entries l ++ entry dt_null 0 ∷ []
unfolding tmp_dyn patched
final_entries_lem l n = rw n (map-append _ (wanted_entries l (strings_of l)) (entry dt_null 0 ∷ []))

pub dynamic_encoded :
    (l : Layout)
    → non_empty (wanted_entries l (strings_of l)) ≡ true
    → concat_map entry_bytes (final_entries l)
      ≡ put_entries little 8 (live_entries l) ++ (put_entry little 8 (entry dt_null 0) ++ [])
dynamic_encoded l n =
    ap (concat_map entry_bytes) (final_entries_lem l n)
    ∙ (concat_map-append (live_entries l) (entry dt_null 0 ∷ [])
        ∙ ap (λ t. t ++ (put_entry little 8 (entry dt_null 0) ++ []))
            (concat_map-put_entries (live_entries l)))
