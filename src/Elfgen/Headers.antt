-- ===== src/Elfgen/Headers.antt =====
-- The ELF header and the program headers of the image, read back.
use mathlib.Core.Path.{subst}
use sec_compile_option.Base.{
  All, All-append, Bool, List, [], ap, arith, false, if◌then◌else◌, inl, inr, length, map, not,
  refl, true, ℕ, ◌%◌, ◌++◌, ◌+◌, ◌<◌, ◌==◌, ◌^◌, ◌||◌, ◌∷◌, ◌≡◌, ◌≤◌,
}
use sec_compile_option.Checks.Rpath.{start}
use sec_compile_option.Checks.Stack.{retguard_segment_type}
use sec_compile_option.Dyn.{DynEntry}
use sec_compile_option.Elf.{File, et_dyn, pt_dynamic, pt_gnu_relro, pt_interp, pt_load}
use sec_compile_option.Elfgen.{
  Layout, Strings, patched, phdr_count, strings_of, wanted_entries, when,
}
use sec_compile_option.Elfgen.Assembly.{final_entries, image_of, length-phdrs}
use sec_compile_option.Elfgen.Image.{
  Phdr, Plan, Section, align8, et_exec, from_start, in_file, interp_text, machine_of, phdrs_of,
  plan_of, stack_header, vaddr_of,
}
use sec_compile_option.Elfgen.Plans.{IsPlan, plan_of-IsPlan}
use sec_compile_option.Elfgen.Reader.{read_elf}
use sec_compile_option.Elfgen.Sections.{IsPlaced, padded}
use sec_compile_option.Elfgen.Segments.{IsWords, read_elf-progs, segment_of}
use sec_compile_option.Elfgen.Writes.{concat_map, entry_bytes, header_bytes, phdr_bytes, sym_bytes}
use sec_compile_option.Go.Strings.{Bytes}

-- The image is below 4 GiB.
abbrev pub IsSmall : Layout → Type 0
IsSmall l = (plan_of l (strings_of l)).total < 2 ^ 32

-- The entries of the dynamic section, without the terminator.
abbrev pub live_entries : Layout → List DynEntry
live_entries l =
    let s = strings_of l in
    let p = plan_of l s in
    map (patched s (vaddr_of p.sym_sec.offset) (vaddr_of p.str_start)) (wanted_entries l s)

-- The headers in front of PT_DYNAMIC, and those behind.
abbrev pub front_headers : Plan → List Phdr
front_headers p =
    from_start pt_load 5 p.total
    ∷ when (not (p.interp_sec.size == 0)) (in_file pt_interp 4 p.interp_sec ∷ [])

abbrev pub back_headers : Layout → Plan → List Phdr
back_headers l p =
    when l.relro (from_start pt_gnu_relro 4 p.total ∷ [])
    ++ (when l.retguard (from_start retguard_segment_type 4 0 ∷ [])
        ++ when (not l.no_stack) (stack_header l.gnu_stack_x ∷ []))

pub phdrs_of_parts :
    (l : Layout) (p : Plan)
    → phdrs_of l p
      ≡ front_headers p
        ++ (when (not (p.dyn_sec.size == 0)) (in_file pt_dynamic 6 p.dyn_sec ∷ [])
            ++ back_headers l p)
unfolding phdrs_of
phdrs_of_parts l p = refl

module _ {ℓ κ} {A : Type ℓ} (P : A → Type κ) where
  pub All-when : (c : Bool) (x : A) → (c ≡ true → P x) → All P (when c (x ∷ []))
  All-when true x h = (h refl, tt)
  All-when false x h = tt

in_file-IsWords :
    (t fl limit : ℕ) (sec : Section)
    → t < 256 ^ 4
    → fl < 256 ^ 4
    → limit < 2 ^ 32
    → sec.offset + sec.size ≤ limit
    → IsWords (in_file t fl sec)
in_file-IsWords t fl limit sec ht hf hl hs = record {
  type_fits = ht;
  flags_fit = hf;
  off_fits = omega arith;
  vaddr_fits = omega arith;
  filesz_fits = omega arith;
}

from_start-IsWords :
    (t fl size : ℕ) → t < 256 ^ 4 → fl < 256 ^ 4 → size < 2 ^ 32 → IsWords (from_start t fl size)
from_start-IsWords t fl size ht hf hs = record {
  type_fits = ht;
  flags_fit = hf;
  off_fits = omega arith;
  vaddr_fits = omega arith;
  filesz_fits = omega arith;
}

stack_header-IsWords : (b : Bool) → IsWords (stack_header b)
stack_header-IsWords b = record {
  type_fits = omega arith;
  flags_fit = ground arith;
  off_fits = omega arith;
  vaddr_fits = omega arith;
  filesz_fits = omega arith;
}

-- A section that has bytes stands where it was placed, below the end of the image.
pub section_bound :
    (len off limit : ℕ) (sec : Section) (next : ℕ)
    → IsPlaced len off (sec, next)
    → off + align8 len ≤ limit
    → not (sec.size == 0) ≡ true
    → (sec.offset + sec.size ≤ limit) × (sec.offset ≡ off)
section_bound len off limit sec next p h n = elim p.standing [
  | inl e ↦ ground (arith, p.sized)
  | inr e ↦ (omega (arith, p.sized), e)
]

phdrs-IsWords :
    (l : Layout) (p : Plan) (start i d y t : ℕ)
    → IsPlan p start i d y t
    → p.total < 2 ^ 32
    → All IsWords (phdrs_of l p)
unfolding phdrs_of
phdrs-IsWords l p start i d y t plan small = (
  from_start-IsWords pt_load 5 p.total (omega arith) (omega arith) small,
  All-append IsWords (when (not (p.interp_sec.size == 0)) (in_file pt_interp 4 p.interp_sec ∷ [])) _
      (All-when IsWords (not (p.interp_sec.size == 0)) (in_file pt_interp 4 p.interp_sec) (λ n.
        in_file-IsWords pt_interp 4 p.total p.interp_sec (omega arith) (omega arith) small
          (section_bound i start p.total p.interp_sec _ plan.interp_placed
            (omega (arith, plan.totalled)) n).0))
      (All-append IsWords (when (not (p.dyn_sec.size == 0)) (in_file pt_dynamic 6 p.dyn_sec ∷ [])) _
        (All-when IsWords (not (p.dyn_sec.size == 0)) (in_file pt_dynamic 6 p.dyn_sec) (λ n.
          in_file-IsWords pt_dynamic 6 p.total p.dyn_sec (omega arith) (omega arith) small
            (section_bound d (start + align8 i) p.total p.dyn_sec _ plan.dyn_placed
              (omega (arith, plan.totalled)) n).0))
        (All-append IsWords (when l.relro (from_start pt_gnu_relro 4 p.total ∷ [])) _
          (All-when IsWords l.relro (from_start pt_gnu_relro 4 p.total)
            (λ n. from_start-IsWords pt_gnu_relro 4 p.total (omega arith) (omega arith) small))
          (All-append IsWords (when l.retguard (from_start retguard_segment_type 4 0 ∷ [])) _
            (All-when IsWords l.retguard (from_start retguard_segment_type 4 0) (λ n.
              from_start-IsWords retguard_segment_type 4 0 (omega arith) (omega arith)
                (omega arith)))
            (All-when IsWords (not l.no_stack) (stack_header l.gnu_stack_x)
              (λ n. stack_header-IsWords l.gnu_stack_x))))),
)

phdr_count_small : (l : Layout) (s : Strings) → phdr_count l s < 65536
unfolding phdr_count
phdr_count_small l s = ground arith

-- The parts of the image behind the program headers.
abbrev pub sections_of : Layout → Bytes
sections_of l =
    let s = strings_of l in
    padded (interp_text l)
    ++ (padded (concat_map entry_bytes (final_entries l))
        ++ (padded (concat_map sym_bytes s.syms) ++ padded s.str_buf))

-- What is read of the image of a layout.
pub record IsRead (l : Layout) (image : Bytes) (f : File) : Type 0 where
  pub segments : f.progs ≡ map (segment_of image) (phdrs_of l (plan_of l (strings_of l)))
  pub typed : f.ftype ≡ (if l.pie || l.et_dyn then et_dyn else et_exec)
  pub machined : f.machine ≡ machine_of l % 65536

-- What a reader of ELF files finds in an image below 4 GiB: the program headers of the layout, each
-- with its bytes of the image, and the type and the machine of the layout (modulo 2^16).
pub read_elf-image_of : (l : Layout) → IsSmall l → IsRead l (image_of l) (read_elf (image_of l))
read_elf-image_of l small =
    let s = strings_of l in
    let hs = phdrs_of l (plan_of l s) in
    let table = concat_map phdr_bytes hs ++ sections_of l in
    let count = length-phdrs l in
    let parts =
      read_elf-progs l hs (sections_of l) (rw count (phdr_count_small l s))
        (phdrs-IsWords l (plan_of l s) _ _ _ _ _ (plan_of-IsPlan l) small) in
    let same : header_bytes l (length hs) ++ table ≡ image_of l =
      ap (λ n. header_bytes l n ++ table) count in
    subst (λ image. IsRead l image (read_elf image)) same
      (record { segments = parts.0; typed = parts.1; machined = parts.2 })
