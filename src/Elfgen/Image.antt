-- ===== src/Elfgen/Image.antt =====
-- internal/elfgen/elfgen.go: `Build`, from the placement of the sections to the image.
use sec_compile_option.Base.{
  Bool, List, [], if◌then◌else◌, length, map, not, replicate, ℕ, ◌*◌, ◌++◌, ◌+◌, ◌/◌, ◌==◌, ◌||◌,
  ◌∷◌,
}
use sec_compile_option.Checks.Position.{symbols}
use sec_compile_option.Checks.Stack.{retguard_segment_type}
use sec_compile_option.Command.Targets.{elf_magic}
use sec_compile_option.Dyn.{DynEntry}
use sec_compile_option.Elf.{et_dyn, pt_dynamic, pt_gnu_relro, pt_gnu_stack, pt_interp, pt_load}
use sec_compile_option.Elfgen.{
  GenSym, Layout, Strings, base_vaddr, has_interp, patched, phdr_count, strings_of, tmp_dyn, when,
}
use sec_compile_option.Go.Buffers.{copy_at, put_u16, put_u32, put_u64, put_u8}
use sec_compile_option.Go.Run.{Run, done, ◌>>=◌}
use sec_compile_option.Go.Strings.{Bytes, codes}
use sec_compile_option.Go.Words.{add64}

abbrev pub align8 : ℕ → ℕ
align8 n = (n + 7) / 8 * 8

-- Where a section stands in the file. One with no bytes is Go's zero value.
pub record Section : Type 0 where
  pub offset : ℕ
  pub size : ℕ

-- The section at `off` if it has bytes, and the offset behind it.
unfoldable pub place : ℕ → ℕ → Section × ℕ
place len off =
    if len == 0
    then (record { offset = 0; size = 0 }, off)
    else (record { offset = off; size = len }, align8 (off + len))

pub record Plan : Type 0 where
  pub interp_sec : Section
  pub dyn_sec : Section
  pub sym_sec : Section
  pub str_start : ℕ
  pub total : ℕ

unfoldable pub interp_text : Layout → Bytes
unfolding has_interp
interp_text l = if has_interp l then codes "/lib64/ld-linux-x86-64.so.2" ++ 0 ∷ [] else []

unfoldable pub plan_of : Layout → Strings → Plan
plan_of l s =
    let (interp, off1) = place (length (interp_text l)) (64 + phdr_count l s * 56) in
    let (dynamic, off2) = place (length (tmp_dyn l s) * 16) off1 in
    let (symbols, off3) = place (length s.syms * 24) off2 in
    record {
      interp_sec = interp;
      dyn_sec = dynamic;
      sym_sec = symbols;
      str_start = off3;
      total = align8 (off3 + length s.str_buf);
    }

abbrev pub vaddr_of : ℕ → ℕ
vaddr_of off = add64 base_vaddr off

abbrev pub et_exec : ℕ
et_exec = 2

-- elf.EM_X86_64 where the layout has no machine.
unfoldable pub machine_of : Layout → ℕ
machine_of l = if l.machine == 0 then 62 else l.machine

unfoldable pub write_header : Layout → ℕ → Bytes → Run Bytes
write_header l count buf = do
  buf ← copy_at buf 0 elf_magic
  buf ← put_u8 buf 4 2
  buf ← put_u8 buf 5 1
  buf ← put_u8 buf 6 1
  buf ← put_u16 buf 16 et_exec
  buf ← (if l.pie || l.et_dyn then put_u16 buf 16 et_dyn else done buf)
  buf ← put_u16 buf 18 (machine_of l)
  buf ← put_u32 buf 20 1
  buf ← put_u64 buf 24 base_vaddr
  buf ← put_u64 buf 32 64
  buf ← put_u64 buf 40 0
  buf ← put_u32 buf 48 64
  buf ← put_u16 buf 52 64
  buf ← put_u16 buf 54 56
  buf ← put_u16 buf 56 count
  buf ← put_u16 buf 58 0
  buf ← put_u16 buf 60 0
  put_u16 buf 62 0

-- The loop that fills the dynamic symbol table, from the i-th symbol on.
unfoldable pub write_syms : List GenSym → ℕ → Bytes → Run Bytes
write_syms [] i content = done content
write_syms (d ∷ ds) i content = do
  content ← put_u32 content (i * 24) d.name_off
  content ← put_u8 content (i * 24 + 4) d.sym_info
  content ← put_u16 content (i * 24 + 6) 0
  write_syms ds (i + 1) content

-- The calls of `writeDyn`, from index `di` on.
unfoldable pub write_dyns : List DynEntry → ℕ → Bytes → Run Bytes
write_dyns [] di content = done content
write_dyns (e ∷ es) di content = do
  content ← put_u64 content (di * 16) e.tag
  content ← put_u64 content (di * 16 + 8) e.val
  write_dyns es (di + 1) content

-- The arguments of `writePh`.
pub record Phdr : Type 0 where
  pub ptype : ℕ
  pub flags : ℕ
  pub off : ℕ
  pub vaddr : ℕ
  pub filesz : ℕ
  pub memsz : ℕ

-- The calls of `writePh`, from index `pi` on.
unfoldable pub write_phdrs : List Phdr → ℕ → Bytes → Run Bytes
write_phdrs [] pi ph = done ph
write_phdrs (h ∷ hs) pi ph = do
  ph ← put_u32 ph (pi * 56) h.ptype
  ph ← put_u32 ph (pi * 56 + 4) h.flags
  ph ← put_u64 ph (pi * 56 + 8) h.off
  ph ← put_u64 ph (pi * 56 + 16) h.vaddr
  ph ← put_u64 ph (pi * 56 + 24) h.vaddr
  ph ← put_u64 ph (pi * 56 + 32) h.filesz
  ph ← put_u64 ph (pi * 56 + 40) h.memsz
  ph ← put_u64 ph (pi * 56 + 48) 0x1000
  write_phdrs hs (pi + 1) ph

abbrev pub in_file : ℕ → ℕ → Section → Phdr
in_file t fl s = record {
  ptype = t;
  flags = fl;
  off = s.offset;
  vaddr = vaddr_of s.offset;
  filesz = s.size;
  memsz = s.size;
}

-- A header over the first `size` bytes of the file.
abbrev pub from_start : ℕ → ℕ → ℕ → Phdr
from_start t fl size = record {
  ptype = t;
  flags = fl;
  off = 0;
  vaddr = base_vaddr;
  filesz = size;
  memsz = size;
}

abbrev pub stack_header : Bool → Phdr
stack_header executable = record {
  ptype = pt_gnu_stack;
  flags = if executable then 7 else 6;
  off = 0;
  vaddr = 0;
  filesz = 0;
  memsz = 0;
}

-- The program headers in the order of the calls.
unfoldable pub phdrs_of : Layout → Plan → List Phdr
phdrs_of l p =
    from_start pt_load 5 p.total
    ∷ (when (not (p.interp_sec.size == 0)) (in_file pt_interp 4 p.interp_sec ∷ [])
        ++ (when (not (p.dyn_sec.size == 0)) (in_file pt_dynamic 6 p.dyn_sec ∷ [])
            ++ (when l.relro (from_start pt_gnu_relro 4 p.total ∷ [])
                ++ (when l.retguard (from_start retguard_segment_type 4 0 ∷ [])
                    ++ when (not l.no_stack) (stack_header l.gnu_stack_x ∷ [])))))

-- `if sec.data != nil { copy(buf[sec.offset:], sec.data) }`
unfoldable pub copy_section : Bytes → Section → Bytes → Run Bytes
copy_section buf s content = if s.size == 0 then done buf else copy_at buf s.offset content

unfoldable pub build : Layout → Run Bytes
unfolding strings_of plan_of write_header write_syms write_dyns write_phdrs copy_section copy_at
    patched phdrs_of
build l = do
  let s = strings_of l
  let p = plan_of l s
  buf ← write_header l (phdr_count l s) (replicate p.total 0)
  symbol_bytes ← write_syms s.syms 0 (replicate (length s.syms * 24) 0)
  dynamic_bytes ←
      write_dyns (map (patched s (vaddr_of p.sym_sec.offset) (vaddr_of p.str_start)) (tmp_dyn l s))
        0 (replicate (length (tmp_dyn l s) * 16) 0)
  buf ← copy_section buf p.interp_sec (interp_text l)
  buf ← copy_section buf p.dyn_sec dynamic_bytes
  buf ← copy_section buf p.sym_sec symbol_bytes
  buf ← copy_at buf p.str_start s.str_buf
  ph ← write_phdrs (phdrs_of l p) 0 (replicate (phdr_count l s * 56) 0)
  copy_at buf 64 ph
