-- ===== src/Checks/Stack.antt =====
-- internal/checksec/canary.go, ohos_retguard.go, pac_cfi.go and nx.go: the protection of the return
-- address, and of the stack.
use sec_compile_option.Base.{
  Bool, List, Option, [], any, false, if◌then◌else◌, ltb, none, not, some, true, ℕ, ◌&&◌, ◌+◌, ◌==◌,
  ◌||◌, ◌∷◌,
}
use sec_compile_option.Checks.{
  Result, bad_result, err_result, has_segment, na_result, ok_result, warn_result,
}
use sec_compile_option.Dyn.{read_prog}
use sec_compile_option.Dyn.Symbols.{all_symbol_names}
use sec_compile_option.Elf.{File, Host, Prog, em_aarch64, has_flag, pf_x, pt_gnu_stack, pt_load}
use sec_compile_option.Go.Io.{Outcome, ok}
use sec_compile_option.Go.Run.{Run, done, ◌>>=◌}
use sec_compile_option.Go.Strings.{Bytes, codes, contains, has_prefix}

abbrev canary_prefixes : List Bytes
canary_prefixes =
    codes "__stack_chk_fail"
    ∷ codes "__stack_chk_guard"
    ∷ codes "__intel_security_cookie"
    ∷ codes "__intel_security_check_cookie"
    ∷ []

unfoldable pub is_canary_symbol : Bytes → Bool
unfolding has_prefix
is_canary_symbol name = any (λ p. has_prefix name p) canary_prefixes

unfoldable pub canary : Host → Option File → Option Bytes → Run Result
unfolding is_canary_symbol
canary host none raw = done (err_result (codes "canary"))
canary host (some f) raw = do
  names ← all_symbol_names host f raw
  done (
      if any is_canary_symbol names
      then ok_result (codes "Canary found")
      else bad_result (codes "No canary found"))

abbrev pub retguard_segment_type : ℕ
retguard_segment_type = 0x6788FC60

abbrev has_section : Option (Option Bytes) → Bool
has_section none = false
has_section (some s) = true

unfoldable pub ohos_retguard : Option File → Result
unfolding has_segment
ohos_retguard none = err_result (codes "ohos_retguard")
ohos_retguard (some f) =
    if not (f.machine == em_aarch64)
    then na_result (codes "N/A (not AArch64)")
    else if has_section (f.section (codes ".ohos.randomdata"))
    then ok_result (codes "Retguard enabled")
    else if has_segment retguard_segment_type f.progs
    then ok_result (codes "Retguard enabled")
    else bad_result (codes "No retguard")

-- 0xD503237F in memory order.
abbrev pub pacibsp_encoding : Bytes
pacibsp_encoding = 0x7f ∷ 0x23 ∷ 0x03 ∷ 0xd5 ∷ []

abbrev is_ok : Outcome → Bool
is_ok ok = true
is_ok _ = false

-- The scan of the executable PT_LOAD segments.
unfoldable pub scan_executable : Host → List Prog → Run Bool
unfolding read_prog contains has_flag
scan_executable host [] = done false
scan_executable host (p ∷ ps) =
    let rest = scan_executable host ps in
    if not (p.ptype == pt_load) || not (has_flag p.flags pf_x) then rest else do
      bytes ← read_prog host p
      if is_ok p.outcome && contains bytes pacibsp_encoding then done true else rest

unfoldable pub pac_verdict : Bool → Result
pac_verdict b = if b then ok_result (codes "PAC CFI enabled") else bad_result (codes "No PAC CFI")

-- With a readable .text the verdict is that of .text alone.
unfoldable pub pac_scan : Host → List Prog → Option (Option Bytes) → Run Result
unfolding scan_executable pac_verdict
pac_scan host progs (some (some text)) = done (pac_verdict (contains text pacibsp_encoding))
pac_scan host progs _ = do found ← scan_executable host progs; done (pac_verdict found)

unfoldable pub pac_cfi : Host → Option File → Run Result
unfolding pac_scan
pac_cfi host none = done (err_result (codes "pac_cfi"))
pac_cfi host (some f) =
    if not (f.machine == em_aarch64)
    then done (na_result (codes "N/A (not AArch64)"))
    else pac_scan host f.progs (f.section (codes ".text"))

-- The search of `NX`: the flags of the first PT_GNU_STACK, or an error past index 10000.
pub data StackSegment : Type 0 where
  absent : StackSegment
  present : ℕ → StackSegment
  absurd_count : StackSegment

unfoldable pub find_stack : ℕ → List Prog → StackSegment
find_stack i [] = absent
find_stack i (p ∷ ps) =
    if ltb 10000 i
    then absurd_count
    else if p.ptype == pt_gnu_stack
    then present p.flags
    else find_stack (i + 1) ps

unfoldable pub nx_verdict : StackSegment → Result
nx_verdict absurd_count = err_result (codes "NX")
nx_verdict absent = warn_result (codes "NX unknown (no GNU_STACK)")
nx_verdict (present flags) =
    if not (has_flag flags pf_x)
    then ok_result (codes "NX enabled")
    else bad_result (codes "NX disabled")

unfoldable pub nx : Option File → Result
unfolding find_stack nx_verdict
nx none = err_result (codes "NX")
nx (some f) = nx_verdict (find_stack 0 f.progs)
