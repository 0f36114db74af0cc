-- ===== src/Elfgen/Reader.antt =====
-- What debug/elf reads of a 64-bit little endian image without section headers: the type and the
-- machine of the ELF header, the program headers, and the bytes of their segments in the file.
-- Without sections it knows no symbols and no dynamic values.
use sec_compile_option.Base.{
  List, [], drop, if◌then◌else◌, length, none, some, suc, take, zero, ℕ, ◌==◌, ◌∷◌,
}
use sec_compile_option.Dyn.{uint_le}
use sec_compile_option.Elf.{File, Prog, class64, little}
use sec_compile_option.Go.Io.{eof, ok}
use sec_compile_option.Go.Strings.{Bytes}
use sec_compile_option.Output.Table.{table}

abbrev pub field_at : ℕ → ℕ → Bytes → ℕ
field_at off w bytes = uint_le (take w (drop off bytes))

-- The program header in front of the bytes.
abbrev pub prog_at : Bytes → Bytes → Prog
prog_at image table =
    let got = take (field_at 32 8 table) (drop (field_at 8 8 table) image) in
    record {
      ptype = field_at 0 4 table;
      flags = field_at 4 4 table;
      off = field_at 8 8 table;
      vaddr = field_at 16 8 table;
      filesz = field_at 32 8 table;
      payload = got;
      outcome = if length got == field_at 32 8 table then ok else eof;
    }

-- So many program headers of 56 bytes, one behind the other.
abbrev pub progs_at : Bytes → ℕ → Bytes → List Prog
progs_at image zero table = []
progs_at image (suc n) table = prog_at image table ∷ progs_at image n (drop 56 table)

abbrev pub read_elf : Bytes → File
read_elf image = record {
  class = class64;
  byte_order = little;
  ftype = field_at 16 2 image;
  machine = field_at 18 2 image;
  progs = progs_at image (field_at 56 2 image) (drop (field_at 32 8 image) image);
  symbols = none;
  dynamic_symbols = none;
  dyn_value = λ t. some [];
  dyn_string = λ t. some [];
  section = λ n. none;
}
