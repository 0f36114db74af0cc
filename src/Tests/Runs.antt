-- ===== src/Tests/Runs.antt =====
-- Runs of the program on the sample.
use sec_compile_option.Base.{Bool, List, [], false, refl, some, true, ◌∷◌, ◌≡◌}
use sec_compile_option.Checks.{has_segment, ok_result, status_text}
use sec_compile_option.Checks.Binding.{
  bind_now, bind_now_of, first_value, no_progs, relro, relro_verdict, signals_now,
}
use sec_compile_option.Checks.Position.{
  flags_1, has_text_relocations, pic, pie, pie_verdict, symbols,
}
use sec_compile_option.Checks.Rpath.{
  classify_runpath_entry, classify_stat, dynamic_strings_for, rpath, rpath_verdict, runpath,
  runpath_verdict, summarize_rpath_strict, summarize_runpath, survey_entries, survey_entry,
  survey_paths, with_reason,
}
use sec_compile_option.Checks.Stack.{
  canary, find_stack, is_canary_symbol, nx, nx_verdict, ohos_retguard, pac_cfi, pac_scan,
  pac_verdict, scan_executable,
}
use sec_compile_option.Command.{check_all, check_paths, gate, has_failures, is_format}
use sec_compile_option.Compliance.{
  bind_now_rule, compliance, no_rpath_rule, nx_rule, pie_rule, relro_rule, stack_rule,
  stripped_rule,
}
use sec_compile_option.Dyn.{
  covers, cstr_at, dyn_string_ph, dyn_tag, dynamic_strings, file_offset, is_failure,
  parse_dyn_entries, parse_pt_dynamic, pt_dynamic_entries, read_prog, scan_entries, string_table,
  tag_strings,
}
use sec_compile_option.Dyn.Symbols.{
  add_name, add_names, all_symbol_names, clamp_limit, covering_limit, default_syment,
  fallback_names, imported_names, info_index, nonempty_names, phdr_symbol_names, symbol_loop,
  symbol_name, symbol_table, symbols_from, syment_of, table_names,
}
use sec_compile_option.Elf.{has_flag, sym_type}
use sec_compile_option.Fortify.{
  add_chk, add_chks, base_symbol_name, binary_funcs, callable_names, callable_table, chk_bases,
  fortified_chk_names, fortify, fortify_base_name, fortify_counts, fortify_dynamic, fortify_static,
  is_fortify_chk_name, unprotected,
}
use sec_compile_option.Fortify.Libc.{
  find_host_libc, first_match, needed_libraries, needs_libc, resolve_libc_flag,
}
use sec_compile_option.Go.Io.{read_at}
use sec_compile_option.Go.Maps.{has_key, insert, lookup}
use sec_compile_option.Go.Run.{done}
use sec_compile_option.Go.Sort.{insert_sorted, sort_strings}
use sec_compile_option.Go.Strings.{
  Bytes, codes, contains, decimal, eq_bytes, has_prefix, has_suffix, index_byte, itoa, join,
  push_first, split, trim_matched, trim_prefix, trim_suffix,
}
use sec_compile_option.Report.{
  FileReport, any_good, check_content, check_file, cover_others, get_check, header_name,
  initial_checks, link_from, link_stack_protection, run_checks, stack_protection_passed,
}
use sec_compile_option.Report.Verdicts.{not_opened}
use sec_compile_option.Tests.Samples.{sample_file, sample_host, sample_report}

abbrev pub always_written : Bytes → List FileReport → Bool
always_written format reports = true

pub sample_checked : check_file sample_host (codes "a.out") ≡ done sample_report
unfolding header_name any_good cover_others link_from link_stack_protection initial_checks
    run_checks check_content check_file status_text has_segment first_value signals_now bind_now_of
    bind_now relro_verdict no_progs relro is_canary_symbol canary ohos_retguard scan_executable
    pac_verdict pac_scan pac_cfi find_stack nx_verdict nx flags_1 pie_verdict pie
    has_text_relocations pic symbols classify_stat classify_runpath_entry survey_entry
    survey_entries survey_paths with_reason runpath_verdict summarize_runpath rpath_verdict
    summarize_rpath_strict dynamic_strings_for rpath runpath scan_entries parse_dyn_entries
    read_prog is_failure pt_dynamic_entries parse_pt_dynamic dyn_tag covers file_offset string_table
    dynamic_strings cstr_at tag_strings dyn_string_ph default_syment syment_of covering_limit
    clamp_limit info_index symbol_name symbol_loop symbol_table symbols_from phdr_symbol_names
    fallback_names add_name add_names table_names all_symbol_names nonempty_names imported_names
    is_fortify_chk_name base_symbol_name fortify_base_name add_chk add_chks callable_names
    callable_table fortified_chk_names fortify_static binary_funcs chk_bases unprotected
    fortify_counts fortify_dynamic fortify needs_libc needed_libraries first_match find_host_libc
    resolve_libc_flag has_flag sym_type read_at lookup insert has_key eq_bytes has_prefix has_suffix
    contains index_byte trim_matched trim_prefix trim_suffix push_first split join decimal itoa
    get_check
sample_checked = refl

missing_file :
    check_file sample_host (codes "b.out") ≡ done (not_opened (codes "b.out") (codes "no file"))
unfolding check_file eq_bytes
missing_file = refl

sample_compliance : ((compliance sample_report).pass ≡ 7) × ((compliance sample_report).fail ≡ 0)
unfolding compliance get_check no_rpath_rule eq_bytes stripped_rule nx_rule bind_now_rule relro_rule
    stack_rule stack_protection_passed pie_rule
sample_compliance = (refl, refl)

pub sample_relro : relro sample_host (some sample_file) ≡ done (ok_result (codes "Full RELRO"))
unfolding relro relro_verdict has_segment no_progs bind_now_of parse_pt_dynamic has_flag
sample_relro = refl

pub sample_bind_now : bind_now sample_host (some sample_file) ≡ done (ok_result (codes "Bind now"))
unfolding bind_now bind_now_of parse_pt_dynamic has_flag
sample_bind_now = refl

pub sample_recovered : fallback_names sample_host sample_file (some []) ≡ done []
unfolding fallback_names
sample_recovered = refl

pub sample_fortified :
    fortified_chk_names sample_host sample_file (some []) ≡ done (codes "__printf_chk" ∷ [])
unfolding fortified_chk_names add_chks add_chk sort_strings insert_sorted callable_table
    callable_names
sample_fortified = refl

pub json_format : is_format (codes "json") ≡ true
unfolding is_format eq_bytes
json_format = refl

pub json_plain : has_prefix (codes "json") (codes "compliance") ≡ false
unfolding has_prefix
json_plain = refl

pub sample_exit :
    check_paths sample_host (always_written (codes "json")) (codes "json") (codes "a.out" ∷ [])
    ≡ done 0
unfolding check_paths check_all gate has_failures eq_bytes get_check lookup stack_protection_passed
    any_good has_prefix
sample_exit = rw sample_checked refl
