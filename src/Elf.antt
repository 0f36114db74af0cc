-- ===== src/Elf.antt =====
-- What the checks read of an ELF file: the constants of debug/elf, and a parsed file as the answers
-- that debug/elf gives (its fields, and the results of its methods). Of the host: the largest
-- allocation that the runtime grants, and the file system as the program asks it.
use Prim.Native.Nat.{bit_and}
use sec_compile_option.Base.{Bool, List, Option, not, ℕ, ◌==◌}
use sec_compile_option.Go.Io.{Outcome}
use sec_compile_option.Go.Strings.{Bytes}

pub data Class : Type 0 where
  class_none class32 class64 : Class

pub data ByteOrder : Type 0 where
  little big : ByteOrder

-- A program header, with what p.ReadAt(make([]byte, p.Filesz), 0) reads and its error.
pub record Prog : Type 0 where
  pub ptype : ℕ
  pub flags : ℕ
  pub off : ℕ
  pub vaddr : ℕ
  pub filesz : ℕ
  pub payload : Bytes
  pub outcome : Outcome

pub record Symbol : Type 0 where
  pub name : Bytes
  pub info : ℕ

-- An *elf.File. Methods that may return an error are options; a section is `none` if it is missing
-- and `some none` if its data cannot be read.
pub record File : Type 0 where
  pub class : Class
  pub byte_order : ByteOrder
  pub ftype : ℕ
  pub machine : ℕ
  pub progs : List Prog
  pub symbols : Option (List Symbol)
  pub dynamic_symbols : Option (List Symbol)
  pub dyn_value : ℕ → Option (List ℕ)
  pub dyn_string : ℕ → Option (List Bytes)
  pub section : Bytes → Option (Option Bytes)

pub record FileInfo : Type 0 where
  pub is_dir : Bool
  pub perm : ℕ

-- A value, or the text of an error.
pub data Answer {ℓ} (A : Type ℓ) : Type ℓ where
  failure : Bytes → Answer A
  success : A → Answer A

-- The machine that runs the program: os.Stat (`none` for an error), filepath.Glob, os.Getenv,
-- runtime.GOOS, the length above which `make` panics, os.Open with the file's content, and
-- elf.NewFile on that content.
pub record Host : Type 0 where
  pub max_alloc : ℕ
  pub goos : Bytes
  pub stat : Bytes → Option FileInfo
  pub glob : Bytes → List Bytes
  pub getenv : Bytes → Bytes
  pub open_file : Bytes → Answer Bytes
  pub new_file : Bytes → Answer File

abbrev pub pt_load : ℕ
pt_load = 1

abbrev pub pt_dynamic : ℕ
pt_dynamic = 2

abbrev pub pt_interp : ℕ
pt_interp = 3

abbrev pub pt_gnu_stack : ℕ
pt_gnu_stack = 0x6474e551

abbrev pub pt_gnu_relro : ℕ
pt_gnu_relro = 0x6474e552

abbrev pub pf_x : ℕ
pf_x = 1

abbrev pub et_rel : ℕ
et_rel = 1

abbrev pub et_dyn : ℕ
et_dyn = 3

abbrev pub em_aarch64 : ℕ
em_aarch64 = 183

abbrev pub dt_null : ℕ
dt_null = 0

abbrev pub dt_needed : ℕ
dt_needed = 1

abbrev pub dt_strtab : ℕ
dt_strtab = 5

abbrev pub dt_symtab : ℕ
dt_symtab = 6

abbrev pub dt_strsz : ℕ
dt_strsz = 10

abbrev pub dt_syment : ℕ
dt_syment = 11

abbrev pub dt_rpath : ℕ
dt_rpath = 15

abbrev pub dt_textrel : ℕ
dt_textrel = 22

abbrev pub dt_bind_now : ℕ
dt_bind_now = 24

abbrev pub dt_runpath : ℕ
dt_runpath = 29

abbrev pub dt_flags : ℕ
dt_flags = 30

abbrev pub dt_flags_1 : ℕ
dt_flags_1 = 0x6ffffffb

abbrev pub df_textrel : ℕ
df_textrel = 4

abbrev pub df_bind_now : ℕ
df_bind_now = 8

abbrev pub df_1_now : ℕ
df_1_now = 1

abbrev pub df_1_pie : ℕ
df_1_pie = 0x8000000

abbrev pub stt_notype : ℕ
stt_notype = 0

abbrev pub stt_func : ℕ
stt_func = 2

-- v & mask != 0
unfoldable pub has_flag : ℕ → ℕ → Bool
has_flag v mask = not (bit_and v mask == 0)

-- elf.SymType(info & 0x0f)
unfoldable pub sym_type : ℕ → ℕ
sym_type info = bit_and info 0x0f
