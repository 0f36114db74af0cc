-- ===== src/Tests/Sections.antt =====
-- The theorems on dynamic sections at concrete inputs.
use sec_compile_option.Base.{List, [], arith, length, refl, some, ◌++◌, ◌↔◌, ◌∷◌, ◌≡◌, ◌≢◌, ◌≤◌}
use sec_compile_option.Checks.{ok_result}
use sec_compile_option.Checks.Binding.{bind_now, first_value}
use sec_compile_option.Checks.Stack.{pacibsp_encoding}
use sec_compile_option.Checks.Stripped.{bind_now-HasDynamic}
use sec_compile_option.Dyn.{
  DynEntry, covers, cstr_at, dyn_tag, dynamic_strings, file_offset, is_failure, parse_dyn_entries,
  parse_pt_dynamic, string_table,
}
use sec_compile_option.Dyn.Entries.{
  parse_dyn_entries-put, parse_dyn_entries-put_unterminated, put_entries, put_entry,
}
use sec_compile_option.Dyn.Offsets.{IsMapped, file_offset-IsMapped}
use sec_compile_option.Dyn.Rounds.{
  ReachesTable, phdr_symbol_names-ends, size_of_symbol, symbols_from-panic_iff,
}
use sec_compile_option.Dyn.Segment.{HasDynamic, parse_pt_dynamic-HasDynamic}
use sec_compile_option.Dyn.Symbols.{phdr_symbol_names, symbols_from, syment_of}
use sec_compile_option.Dyn.Text.{cstr_at-append}
use sec_compile_option.Elf.{
  Prog, big, class32, class64, dt_strsz, dt_strtab, dt_syment, dt_symtab, little, pt_dynamic,
  pt_gnu_relro, pt_gnu_stack, pt_interp, pt_load,
}
use sec_compile_option.Go.Io.{eof, read_at}
use sec_compile_option.Go.Run.{done, out_of_fuel, panic}
use sec_compile_option.Go.Strings.{Lacks-any, codes, index_byte}
use sec_compile_option.Go.Words.{two63}
use sec_compile_option.Tests.Samples.{
  dynamic_entries, dynamic_payload, sample_file, sample_host, segment,
}

parse_dyn_entries-put_example :
    parse_dyn_entries
      (put_entries little 8 dynamic_entries
        ++ (put_entry little 8 (record { tag = 0; val = 5 }) ++ codes "rest"))
      class64
      little
    ≡ dynamic_entries
parse_dyn_entries-put_example =
    parse_dyn_entries-put class64 little dynamic_entries 5 (codes "rest")
      ((omega arith, omega arith, omega arith), ((omega arith, omega arith, omega arith), tt))
      (omega arith)

parse_dyn_entries-put_unterminated_example :
    parse_dyn_entries (put_entries big 4 dynamic_entries ++ codes "cut off") class32 big
    ≡ dynamic_entries
parse_dyn_entries-put_unterminated_example =
    parse_dyn_entries-put_unterminated class32 big dynamic_entries (codes "cut off")
      ((omega arith, omega arith, omega arith), ((omega arith, omega arith, omega arith), tt))
      (omega arith)

-- A file whose dynamic section gives the symbols the size 2^63.
abbrev huge_syment : List DynEntry
huge_syment =
    record { tag = dt_symtab; val = 0 }
    ∷ record { tag = dt_strtab; val = 0 }
    ∷ record { tag = dt_strsz; val = 4 }
    ∷ record { tag = dt_syment; val = two63 }
    ∷ []

huge_syment-ReachesTable : ReachesTable sample_file (some (codes "codecode")) huge_syment
unfolding dyn_tag dynamic_strings file_offset string_table covers read_at
huge_syment-ReachesTable = record {
  symtab = 0;
  str = codes "code";
  sym_off = 0;
  has_symtab = refl;
  has_strings = refl;
  has_offset = refl;
}

huge_syment_size : size_of_symbol sample_file huge_syment ≡ two63
unfolding syment_of dyn_tag
huge_syment_size = refl

symbols_from-panic_iff_example :
    (symbols_from sample_file (some (codes "codecode")) huge_syment ≡ panic)
    ↔ (two63 ≤ size_of_symbol sample_file huge_syment)
symbols_from-panic_iff_example =
    symbols_from-panic_iff sample_file (some (codes "codecode")) huge_syment
      huge_syment-ReachesTable (omega (arith, huge_syment_size))

read_at_three : cstr_at (codes "libc.so") 3 ≡ some (codes "c.so")
unfolding cstr_at index_byte
read_at_three = refl

phdr_symbol_names-ends_example : phdr_symbol_names sample_host sample_file (some []) ≢ out_of_fuel
phdr_symbol_names-ends_example = phdr_symbol_names-ends sample_host sample_file (some [])

cstr_at-append_example :
    cstr_at (codes "libm" ++ (codes "c" ++ 0 ∷ codes "x")) (length (codes "libm"))
    ≡ some (codes "c")
cstr_at-append_example =
    cstr_at-append (codes "libm") (codes "c") (codes "x") (Lacks-any 0 (codes "c") refl)

sample-HasDynamic : HasDynamic sample_host sample_file dynamic_entries
unfolding is_failure
sample-HasDynamic = record {
  front =
      segment pt_load 5 (codes "code" ++ pacibsp_encoding)
      ∷ segment pt_interp 4 (codes "ld.so")
      ∷ [];
  prog = segment pt_dynamic 6 dynamic_payload;
  back = segment pt_gnu_relro 4 [] ∷ segment pt_gnu_stack 6 [] ∷ [];
  value = 0;
  rest = [];
  splits = refl;
  front_lacks = (ground arith, (ground arith, tt));
  back_lacks = (ground arith, (ground arith, tt));
  is_dynamic = refl;
  is_read = refl;
  granted = omega arith;
  sized = refl;
  encoded = refl;
  fit = ((omega arith, omega arith, omega arith), ((omega arith, omega arith, omega arith), tt));
  value_fits = omega arith;
}

bind_now-HasDynamic_example :
    bind_now sample_host (some sample_file) ≡ done (ok_result (codes "Bind now"))
unfolding first_value
bind_now-HasDynamic_example =
    bind_now-HasDynamic sample_host sample_file dynamic_entries (λ t. refl) sample-HasDynamic

parse_pt_dynamic-HasDynamic_example :
    parse_pt_dynamic sample_host sample_file ≡ done dynamic_entries
parse_pt_dynamic-HasDynamic_example =
    parse_pt_dynamic-HasDynamic sample_host sample_file dynamic_entries sample-HasDynamic

-- A segment of 100 bytes at 4096 in memory and at 64 in the file.
abbrev mapped : List Prog
mapped =
    segment pt_gnu_stack 6 []
    ∷ (record {
      ptype = pt_load;
      flags = 5;
      off = 64;
      vaddr = 4096;
      filesz = 100;
      payload = [];
      outcome = eof;
    })
    ∷ []

mapped_offset : file_offset mapped 4106 ≡ some 74
unfolding file_offset covers
mapped_offset = refl

file_offset-IsMapped_example : IsMapped mapped 4106 74
file_offset-IsMapped_example =
    file_offset-IsMapped mapped 4106 ((omega arith, omega arith), ((omega arith, omega arith), tt))
      mapped_offset
