-- ===== src/Tests/Examples.antt =====
-- The theorems on checks, reports and tables at concrete inputs.
use sec_compile_option.Base.{
  All, [], any, arith, false, if◌then◌else◌, length, map, not, refl, some, true, ◌&&◌, ◌++◌, ◌+◌,
  ◌||◌, ◌∷◌, ◌≡◌,
}
use sec_compile_option.Checks.{bad, bad_result, has_segment, is_bad, ok_result}
use sec_compile_option.Checks.Agree.{canary-any, relro-bind_now}
use sec_compile_option.Checks.Binding.{no_progs}
use sec_compile_option.Checks.Rpath.{start, summarize_rpath_strict, summarize_runpath, survey_paths}
use sec_compile_option.Checks.Rpath.Grade.{
  IsSurvey, entries_of, status_at, summarize_runpath-status, survey_paths-IsSurvey, worst_rank,
}
use sec_compile_option.Checks.Rpath.Verbatim.{
  Shows, summarize_rpath_strict-Shows, summarize_runpath-Shows,
}
use sec_compile_option.Checks.Stack.{canary, is_canary_symbol}
use sec_compile_option.Command.{has_failures}
use sec_compile_option.Compliance.{compliance, compliance_rules}
use sec_compile_option.Compliance.Count.{IsTally, compliance-IsTally, item_of}
use sec_compile_option.Compliance.Gates.{fails_but_stripped, has_failures-compliance}
use sec_compile_option.Dyn.Symbols.{fallback_names, table_names}
use sec_compile_option.Elf.{pt_gnu_relro}
use sec_compile_option.Fortify.Names.{IsNameList, fortified_chk_names-IsNameList}
use sec_compile_option.Go.Maps.{has_key}
use sec_compile_option.Go.Run.{done, ◌>>=◌}
use sec_compile_option.Go.Strings.{codes, eq_bytes, join}
use sec_compile_option.Output.Table.{error_row, separator, table_lines}
use sec_compile_option.Output.Table.Aligned.{error_row-misaligned, line_width, table_lines-aligned}
use sec_compile_option.Report.{check_order, get_check, link_stack_protection, stack_protection_keys}
use sec_compile_option.Report.Keys.{check_file-keys}
use sec_compile_option.Report.Link.{Checks, covered_by, first_good, link_stack_protection-get_check}
use sec_compile_option.Report.Verdicts.{IsChecked, check_file-IsChecked}
use sec_compile_option.Tests.Runs.{
  sample_bind_now, sample_checked, sample_fortified, sample_recovered, sample_relro,
}
use sec_compile_option.Tests.Samples.{sample_file, sample_host, sample_report}

has_failures-compliance_example : has_failures (sample_report ∷ []) ≡ (
    fails_but_stripped (compliance sample_report).items
    || is_bad (get_check sample_report.checks (codes "pic")).status)
has_failures-compliance_example =
    has_failures-compliance sample_host (codes "a.out") sample_report sample_checked refl

abbrev before_linking : Checks
before_linking =
    (codes "canary", bad_result (codes "No canary found"))
    ∷ (codes "pac_cfi", ok_result (codes "PAC CFI enabled"))
    ∷ []

link_stack_protection-get_check_example :
    get_check (link_stack_protection before_linking) (codes "canary") ≡ (
      if any (λ k. eq_bytes k (codes "canary")) stack_protection_keys
      then covered_by
          (first_good before_linking stack_protection_keys)
          (get_check before_linking (codes "canary"))
      else get_check before_linking (codes "canary"))
link_stack_protection-get_check_example =
    link_stack_protection-get_check before_linking (codes "canary")

check_file-IsChecked_example : IsChecked sample_host (codes "a.out") sample_report
check_file-IsChecked_example = check_file-IsChecked sample_host (codes "a.out") sample_checked refl

check_file-keys_example : All (λ k. has_key k sample_report.checks ≡ true) check_order
check_file-keys_example = check_file-keys sample_host (codes "a.out") sample_checked

compliance-IsTally_example :
    IsTally (compliance sample_report)
    × ((compliance sample_report).items ≡ map (item_of sample_report) compliance_rules)
    × ((compliance sample_report).pass
          + (compliance sample_report).fail
          + (compliance sample_report).not_applicable
        ≡ 7)
compliance-IsTally_example = compliance-IsTally sample_report

table_lines-aligned_example :
    All
      (λ l. length l ≡ line_width (sample_report ∷ sample_report ∷ []))
      (table_lines false (sample_report ∷ sample_report ∷ []))
table_lines-aligned_example =
    table_lines-aligned (sample_report ∷ sample_report ∷ []) (refl, (refl, tt))

error_row-misaligned_example :
    length (error_row false (12 ∷ 9 ∷ 8 ∷ []) (codes "cannot open"))
    ≡ length (separator (12 ∷ 9 ∷ 8 ∷ [])) + 2
error_row-misaligned_example =
    error_row-misaligned (12 ∷ 9 ∷ 8 ∷ []) (codes "cannot open") (omega arith)

summarize_runpath-status_example :
    (summarize_runpath sample_host (codes "RUNPATH") (codes "/usr/lib:lib" ∷ [])).status
    ≡ status_at (worst_rank sample_host (entries_of (codes "/usr/lib:lib" ∷ [])))
summarize_runpath-status_example =
    summarize_runpath-status sample_host (codes "RUNPATH") (codes "/usr/lib:lib") []

survey_paths-IsSurvey_example :
    IsSurvey sample_host
      (entries_of (codes "/usr/lib:" ∷ codes "lib" ∷ []))
      (survey_paths sample_host start (codes "/usr/lib:" ∷ codes "lib" ∷ []))
survey_paths-IsSurvey_example =
    survey_paths-IsSurvey sample_host (codes "/usr/lib:" ∷ codes "lib" ∷ [])

summarize_rpath_strict-Shows_example :
    ((summarize_rpath_strict sample_host (codes "/opt:lib" ∷ [])).status ≡ bad)
    × Shows
        (codes "RPATH")
        (join (codes ":") (codes "/opt:lib" ∷ []))
        (summarize_rpath_strict sample_host (codes "/opt:lib" ∷ []))
summarize_rpath_strict-Shows_example =
    summarize_rpath_strict-Shows sample_host (codes "/opt:lib") []

summarize_runpath-Shows_example :
    Shows
      (codes "RUNPATH")
      (join (codes ":") (codes "/opt" ∷ codes "lib" ∷ []))
      (summarize_runpath sample_host (codes "RUNPATH") (codes "/opt" ∷ codes "lib" ∷ []))
summarize_runpath-Shows_example =
    summarize_runpath-Shows sample_host (codes "RUNPATH") (codes "/opt") (codes "lib" ∷ [])

relro-bind_now_example :
    (true ≡ (has_segment pt_gnu_relro sample_file.progs && true))
    × (false ≡ not (no_progs sample_file.progs || has_segment pt_gnu_relro sample_file.progs))
relro-bind_now_example = relro-bind_now sample_host sample_file sample_relro sample_bind_now

canary-any_example : canary sample_host (some sample_file) (some []) ≡ (
    fallback_names sample_host sample_file (some []) >>= λ recovered. done (
      if any is_canary_symbol
        (table_names sample_file.symbols ++ (table_names sample_file.dynamic_symbols ++ recovered))
      then ok_result (codes "Canary found")
      else bad_result (codes "No canary found")))
canary-any_example = canary-any sample_host sample_file (some [])

fortified_chk_names-IsNameList_example : IsNameList sample_file [] (codes "__printf_chk" ∷ [])
fortified_chk_names-IsNameList_example =
    fortified_chk_names-IsNameList sample_host sample_file (some []) sample_recovered
      sample_fortified
