-- ===== src/Tests/Samples.antt =====
-- A position independent executable with a PT_DYNAMIC segment, a host that serves it, and a host
-- with nothing on it.
use sec_compile_option.Base.{
  List, Option, [], if◌then◌else◌, length, none, some, ℕ, ◌++◌, ◌+◌, ◌^◌, ◌∷◌,
}
use sec_compile_option.Checks.{na_result, ok_result}
use sec_compile_option.Checks.Stack.{pacibsp_encoding}
use sec_compile_option.Command.Targets.{FileSystem}
use sec_compile_option.Dyn.{DynEntry}
use sec_compile_option.Dyn.Entries.{put_entries, put_entry}
use sec_compile_option.Elf.{
  File, FileInfo, Host, Prog, Symbol, class64, df_1_now, df_1_pie, dt_flags_1, em_aarch64, et_dyn,
  failure, little, pt_dynamic, pt_gnu_relro, pt_gnu_stack, pt_interp, pt_load, success,
}
use sec_compile_option.Go.Io.{ok}
use sec_compile_option.Go.Strings.{Bytes, codes, eq_bytes}
use sec_compile_option.Report.{FileReport}
use sec_compile_option.Report.Link.{Checks}
use sec_compile_option.Report.Verdicts.{checked_report}

abbrev pub no_info : Bytes → Option FileInfo
no_info p = none

-- DT_FLAGS = DF_BIND_NOW and DT_FLAGS_1 = DF_1_NOW | DF_1_PIE, as 64-bit little endian words.
abbrev pub dynamic_entries : List DynEntry
dynamic_entries =
    record { tag = 30; val = 8 } ∷ record { tag = dt_flags_1; val = df_1_now + df_1_pie } ∷ []

abbrev pub dynamic_payload : Bytes
dynamic_payload =
    put_entries little 8 dynamic_entries ++ put_entry little 8 (record { tag = 0; val = 0 })

abbrev pub segment : ℕ → ℕ → Bytes → Prog
segment t fl content = record {
  ptype = t;
  flags = fl;
  off = 0;
  vaddr = 0;
  filesz = length content;
  payload = content;
  outcome = ok;
}

abbrev pub symbol : Bytes → Symbol
symbol n = record { name = n; info = 18 }

-- A stripped file: no sections, so debug/elf answers no dynamic values.
abbrev pub sample_file : File
sample_file = record {
  class = class64;
  byte_order = little;
  ftype = et_dyn;
  machine = em_aarch64;
  progs =
      segment pt_load 5 (codes "code" ++ pacibsp_encoding)
      ∷ segment pt_interp 4 (codes "ld.so")
      ∷ segment pt_dynamic 6 dynamic_payload
      ∷ segment pt_gnu_relro 4 []
      ∷ segment pt_gnu_stack 6 []
      ∷ [];
  symbols = none;
  dynamic_symbols = some (symbol (codes "__printf_chk") ∷ symbol (codes "memcpy") ∷ []);
  dyn_value = λ t. some [];
  dyn_string = λ t. some [];
  section = λ n. none;
}

abbrev pub sample_host : Host
sample_host = record {
  max_alloc = 2 ^ 48;
  goos = codes "linux";
  stat = no_info;
  glob = λ p. [];
  getenv = λ v. [];
  open_file = λ p. if eq_bytes p (codes "a.out") then success [] else failure (codes "no file");
  new_file = λ c. success sample_file;
}

abbrev pub sample_checks : Checks
sample_checks =
    (codes "relro", ok_result (codes "Full RELRO"))
    ∷ (codes "canary", ok_result (codes "Covered by PAC CFI"))
    ∷ (codes "ohos_retguard", ok_result (codes "Covered by PAC CFI"))
    ∷ (codes "pac_cfi", ok_result (codes "PAC CFI enabled"))
    ∷ (codes "nx", ok_result (codes "NX enabled"))
    ∷ (codes "pie", ok_result (codes "PIE enabled"))
    ∷ (codes "pic", ok_result (codes "PIC enabled (no text relocations)"))
    ∷ (codes "bind_now", ok_result (codes "Bind now"))
    ∷ (codes "rpath", ok_result (codes "No RPATH"))
    ∷ (codes "runpath", ok_result (codes "No RUNPATH"))
    ∷ (codes "symbols", ok_result (codes "No symbols (stripped)"))
    ∷ (codes "fortify", na_result (codes "N/A"))
    ∷ (codes "fortified", na_result (codes "N/A"))
    ∷ (codes "fortifiable", na_result (codes "N/A"))
    ∷ []

abbrev pub sample_report : FileReport
sample_report = checked_report (codes "a.out") sample_checks

abbrev pub empty_disk : FileSystem
empty_disk = record { walk_root = λ p. none; read_file = λ p. none }
