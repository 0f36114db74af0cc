-- ===== src/Elfgen/Contents.antt =====
-- What a reader of ELF files finds in the image that `Build` returns, by the fields of the layout.
use mathlib.Core.List.{map-append}
use sec_compile_option.Base.{
  Bool, List, [], ap, append-nil, append_assoc, false, if◌then◌else◌, length, map, not, refl,
  replicate, sym, take, true, ℕ, ◌%◌, ◌++◌, ◌==◌, ◌||◌, ◌∙◌, ◌∷◌, ◌≡◌,
}
use sec_compile_option.Dyn.{DynEntry}
use sec_compile_option.Dyn.Entries.{put_entries, put_entry, take-append_of_length}
use sec_compile_option.Elf.{Prog, little, pt_dynamic, pt_interp}
use sec_compile_option.Elfgen.{
  Layout, entry, has_interp, non_empty, patched, strings_of, wanted_entries, when,
}
use sec_compile_option.Elfgen.Assembly.{build-image_of, image_of}
use sec_compile_option.Elfgen.Counts.{interp_size}
use sec_compile_option.Elfgen.Dynamic.{dynamic_encoded, dynamic_slice}
use sec_compile_option.Elfgen.Headers.{IsSmall, live_entries, read_elf-image_of}
use sec_compile_option.Elfgen.Image.{
  Phdr, build, from_start, in_file, interp_text, machine_of, phdrs_of, plan_of, stack_header,
  vaddr_of,
}
use sec_compile_option.Elfgen.Listed.{listed_entries, live_entries-listed, map-when}
use sec_compile_option.Elfgen.Parsed.{dyn_planned}
use sec_compile_option.Elfgen.Plans.{plan_of-IsPlan}
use sec_compile_option.Elfgen.Reader.{read_elf}
use sec_compile_option.Elfgen.Segments.{segment_of}
use sec_compile_option.Elfgen.Slices.{interp_slice, length-image_of}
use sec_compile_option.Go.Run.{done}
use sec_compile_option.Go.Strings.{Bytes, codes}

-- The dynamic section: the entries of the layout and the terminator, for a 64-bit little endian
-- file.
abbrev pub dynamic_bytes : Layout → Bytes
dynamic_bytes l = put_entries little 8 (listed_entries l ++ entry 0 0 ∷ [])

-- Type, flags and content of each segment.
abbrev pub listed_segments : Layout → Bytes → List (ℕ × ℕ × Bytes)
listed_segments l image =
    (1, 5, image)
    ∷ ((if l.interp || l.pie
          then (3, 4, codes "/lib64/ld-linux-x86-64.so.2" ++ 0 ∷ []) ∷ []
          else [])
        ++ ((if non_empty (listed_entries l) then (2, 6, dynamic_bytes l) ∷ [] else [])
            ++ ((if l.relro then (0x6474e552, 4, image) ∷ [] else [])
                ++ ((if l.retguard then (0x6788fc60, 4, []) ∷ [] else [])
                    ++ (if l.no_stack
                        then []
                        else (0x6474e551, if l.gnu_stack_x then 7 else 6, []) ∷ [])))))

abbrev pub content_of : Prog → ℕ × ℕ × Bytes
content_of q = (q.ptype, q.flags, q.payload)

when-cong {ℓ} :
    {A : Type ℓ} (c d : Bool) (x y : A)
    → c ≡ d
    → (c ≡ true → x ≡ y)
    → when c (x ∷ []) ≡ when d (y ∷ [])
when-cong true true x y e h = ap (λ z. z ∷ []) (h refl)
when-cong true false x y e h = absurd (cc)
when-cong false true x y e h = absurd (cc)
when-cong false false x y e h = refl

when-not {ℓ} : {A : Type ℓ} (c : Bool) (x : A) → when (not c) (x ∷ []) ≡ (if c then [] else x ∷ [])
when-not true x = refl
when-not false x = refl

take-all : (b : Bytes) (n : ℕ) → length b ≡ n → take n b ≡ b
take-all b n h = ap (take n) (sym (append-nil b)) ∙ take-append_of_length n b [] h

put_entries-append :
    (es fs : List DynEntry)
    → put_entries little 8 (es ++ fs) ≡ put_entries little 8 es ++ put_entries little 8 fs
put_entries-append [] fs = refl
put_entries-append (e ∷ es) fs =
    ap (λ t. put_entry little 8 e ++ t) (put_entries-append es fs)
    ∙ sym (append_assoc (put_entry little 8 e) (put_entries little 8 es) (put_entries little 8 fs))

non_empty-map {ℓ κ} :
    {A : Type ℓ} {B : Type κ} (f : A → B) (xs : List A) → non_empty (map f xs) ≡ non_empty xs
non_empty-map f [] = refl
non_empty-map f (x ∷ xs) = refl

map-map {ℓ κ ν} :
    {A : Type ℓ} {B : Type κ} {C : Type ν} (g : B → C) (f : A → B) (xs : List A)
    → map g (map f xs) ≡ map (λ x. g (f x)) xs
map-map g f [] = refl
map-map g f (x ∷ xs) = ap (◌∷◌ (g (f x))) (map-map g f xs)

module _ (l : Layout) where
  abbrev seen : Phdr → ℕ × ℕ × Bytes
  seen h = content_of (segment_of (image_of l) h)

  whole : (t fl : ℕ) → seen (from_start t fl (plan_of l (strings_of l)).total) ≡ (t, fl, image_of l)
  whole t fl =
      ap (λ b. (t, fl, b))
        (take-all (image_of l) (plan_of l (strings_of l)).total (length-image_of l))

  has_entries : not ((plan_of l (strings_of l)).dyn_sec.size == 0) ≡ non_empty (listed_entries l)
  has_entries =
      let s = strings_of l in
      let p = plan_of l s in
      dyn_planned l
      ∙ (sym (
            non_empty-map (patched s (vaddr_of p.sym_sec.offset) (vaddr_of p.str_start))
              (wanted_entries l s))
          ∙ ap non_empty (live_entries-listed l))

  dynamic_seen :
      not ((plan_of l (strings_of l)).dyn_sec.size == 0) ≡ true
      → seen (in_file pt_dynamic 6 (plan_of l (strings_of l)).dyn_sec) ≡ (2, 6, dynamic_bytes l)
  dynamic_seen n =
      ap (λ (b : Bytes). (2, 6, b))
        (dynamic_slice l n
          ∙ (dynamic_encoded l (sym (dyn_planned l) ∙ n)
              ∙ (sym (put_entries-append (live_entries l) (entry 0 0 ∷ []))
                  ∙ ap (λ es. put_entries little 8 (es ++ entry 0 0 ∷ []))
                      (live_entries-listed l))))

  has_interp_section : not ((plan_of l (strings_of l)).interp_sec.size == 0) ≡ (l.interp || l.pie)
  unfolding has_interp
  has_interp_section = ap (λ n. not (n == 0)) (plan_of-IsPlan l).interp_placed.sized ∙ interp_size l

  interp_seen :
      (l.interp || l.pie) ≡ true
      → seen (in_file pt_interp 4 (plan_of l (strings_of l)).interp_sec)
        ≡ (3, 4, codes "/lib64/ld-linux-x86-64.so.2" ++ 0 ∷ [])
  unfolding interp_text has_interp
  interp_seen n = ap (λ (b : Bytes). (3, 4, b)) (interp_slice l ∙ rw n refl)

  segments_seen : map seen (phdrs_of l (plan_of l (strings_of l))) ≡ listed_segments l (image_of l)
  unfolding phdrs_of
  segments_seen =
      let p = plan_of l (strings_of l) in
      let stack : when (not l.no_stack) (seen (stack_header l.gnu_stack_x) ∷ [])
          ≡ (if l.no_stack then [] else (0x6474e551, if l.gnu_stack_x then 7 else 6, []) ∷ []) =
        when-not l.no_stack (seen (stack_header l.gnu_stack_x)) in
      simp (map-append, map-when)
        (rw
          (
            when-cong (not (p.interp_sec.size == 0)) (l.interp || l.pie)
                (seen (in_file pt_interp 4 p.interp_sec))
                (3, 4, codes "/lib64/ld-linux-x86-64.so.2" ++ 0 ∷ []) has_interp_section
                (λ h. interp_seen (sym has_interp_section ∙ h)),
            when-cong (not (p.dyn_sec.size == 0)) (non_empty (listed_entries l))
                (seen (in_file pt_dynamic 6 p.dyn_sec)) (2, 6, dynamic_bytes l) has_entries
                dynamic_seen,
            stack,
            whole 1 5,
            whole 0x6474e552 4,
          )
          refl)

-- If the planned image of a layout is below 4 GiB, `Build` returns an image that starts with the
-- magic number of ELF, class 2 (64 bits), data 1 (little endian) and version 1, and nine zeros. A
-- reader of ELF files finds in it type 3 for `PIE` or `ETDyn` and else 2, the machine of the layout
-- modulo 2^16 (62 if it has none), and these segments by type, flags and content, in this order:
-- PT_LOAD with the whole image; PT_INTERP with the interpreter for `Interp` or `PIE`; PT_DYNAMIC
-- with the entries and their terminator if there is any entry; then, as the layout has them,
-- PT_GNU_RELRO with the whole image, the retguard segment and PT_GNU_STACK without content, the
-- last executable exactly for `GNUStackX`.
pub build-read_elf :
    (l : Layout)
    → IsSmall l
    → (image : Bytes) × (build l ≡ done image)
      × (take 16 image ≡ 0x7f ∷ b'E' ∷ b'L' ∷ b'F' ∷ 2 ∷ 1 ∷ 1 ∷ replicate 9 0)
      × ((read_elf image).ftype ≡ (if l.pie || l.et_dyn then 3 else 2))
      × ((read_elf image).machine ≡ (if l.machine == 0 then 62 else l.machine) % 65536)
      × (map content_of (read_elf image).progs ≡ listed_segments l image)
unfolding machine_of
build-read_elf l small =
    let r = read_elf-image_of l small in
    (
      image_of l,
      build-image_of l,
      refl,
      r.typed,
      r.machined,
      ap (map content_of) r.segments
          ∙ (map-map content_of (segment_of (image_of l)) (phdrs_of l (plan_of l (strings_of l)))
              ∙ segments_seen l),
    )
