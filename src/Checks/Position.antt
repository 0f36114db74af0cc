-- ===== src/Checks/Position.antt =====
-- internal/checksec/pie.go, pic.go and symbols.go: position independence, and the symbol table.
use sec_compile_option.Base.{
  Bool, List, Option, false, if◌then◌else◌, length, ltb, none, not, some, true, ℕ, ◌&&◌, ◌++◌, ◌==◌,
  ◌||◌,
}
use sec_compile_option.Checks.{
  Result, bad_result, err_result, has_segment, info_result, na_result, ok_result, warn_result,
}
use sec_compile_option.Checks.Binding.{first_value}
use sec_compile_option.Dyn.{DynEntry, dyn_tag, parse_pt_dynamic}
use sec_compile_option.Elf.{
  File, Host, df_1_pie, df_textrel, dt_flags, dt_flags_1, dt_textrel, et_dyn, et_rel, has_flag,
  pt_interp,
}
use sec_compile_option.Go.Run.{Run, done, ◌>>=◌}
use sec_compile_option.Go.Strings.{codes, itoa}

-- DT_FLAGS_1 through f.DynValue, or else through the program headers; 0 if it is missing.
unfoldable pub flags_1 : Host → File → Run ℕ
unfolding first_value dyn_tag
flags_1 host f = elim (first_value (f.dyn_value dt_flags_1)) [
  | some v ↦ done v
  | none ↦ do
    dyns ← parse_pt_dynamic host f
    done (elim (dyn_tag dyns dt_flags_1) [ some v ↦ v | none ↦ 0 ])
]

unfoldable pub pie_verdict : ℕ → Bool → Bool → Result
pie_verdict ftype has_pie_flag has_interp =
    if ftype == et_dyn
    then (if has_pie_flag && not has_interp
        then ok_result (codes "Static PIE")
        else if has_pie_flag || has_interp
        then ok_result (codes "PIE enabled")
        else info_result (codes "DSO (shared library)"))
    else if ftype == et_rel
    then warn_result (codes "REL (relocatable object)")
    else bad_result (codes "PIE disabled")

unfoldable pub pie : Host → Option File → Run Result
unfolding flags_1 pie_verdict has_segment has_flag
pie host none = done (err_result (codes "PIE"))
pie host (some f) = do
  flags1 ← flags_1 host f
  done (pie_verdict f.ftype (has_flag flags1 df_1_pie) (has_segment pt_interp f.progs))

-- DT_TEXTREL, or DF_TEXTREL in DT_FLAGS.
unfoldable pub has_text_relocations : List DynEntry → Bool
unfolding dyn_tag has_flag
has_text_relocations dyns = elim (dyn_tag dyns dt_textrel) [
  | some v ↦ true
  | none ↦ elim (dyn_tag dyns dt_flags) [ none ↦ false | some v ↦ has_flag v df_textrel ]
]

unfoldable pub pic : Host → Option File → Run Result
unfolding has_text_relocations
pic host none = done (err_result (codes "pic"))
pic host (some f) = if not (f.ftype == et_dyn) then done (na_result (codes "N/A")) else do
  dyns ← parse_pt_dynamic host f
  done (
      if has_text_relocations dyns
      then bad_result (codes "Text relocations (not PIC)")
      else ok_result (codes "PIC enabled (no text relocations)"))

unfoldable pub symbols : Option File → Result
unfolding itoa
symbols none = err_result (codes "symbols")
symbols (some f) = elim f.symbols [
  | none ↦ ok_result (codes "No symbols (stripped)")
  | some syms ↦
      if ltb 0 (length syms)
      then bad_result (itoa (length syms) ++ codes " symbols")
      else ok_result (codes "No symbols (stripped)")
]
