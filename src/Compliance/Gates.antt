-- ===== src/Compliance/Gates.antt =====
-- The two gates of the program: `hasFailures` for the plain formats, and the failed rules of
-- `Compliance` for the compliance formats, on the report of one checked file.
use mathlib.Core.Path.{subst}
use sec_compile_option.Base.{
  Bool, List, [], and_false, and_true, any, arith, false, if-or, not, or_false, some, true, ◌&&◌,
  ◌||◌, ◌∷◌, ◌≡◌,
}
use sec_compile_option.Checks.{Result, is_bad}
use sec_compile_option.Checks.Binding.{bind_now, relro}
use sec_compile_option.Checks.Position.{pic, pie}
use sec_compile_option.Checks.Stack.{StackSegment, find_stack, nx, nx_verdict}
use sec_compile_option.Command.{has_failures}
use sec_compile_option.Compliance.{
  ComplianceItem, bind_now_rule, compliance, no_rpath_rule, nx_rule, pie_rule, relro_rule,
  stack_rule,
}
use sec_compile_option.Compliance.Count.{compliance-items}
use sec_compile_option.Elf.{File, Host}
use sec_compile_option.Go.Run.{done}
use sec_compile_option.Go.Strings.{Bytes, codes, eq_bytes}
use sec_compile_option.Report.{FileReport, check_file, get_check, stack_protection_passed}
use sec_compile_option.Report.Verdicts.{check_file-IsChecked}

module _ (host : Host) (f : File) where
  relro_rule-agrees :
      {c : Result} → relro host (some f) ≡ done c → is_bad (relro_rule c).status ≡ is_bad c.status
  unfolding relro relro_rule eq_bytes
  relro_rule-agrees h = ground arith

  bind_now_rule-agrees :
      {c : Result}
      → bind_now host (some f) ≡ done c
      → is_bad (bind_now_rule c).status ≡ is_bad c.status
  unfolding bind_now bind_now_rule eq_bytes
  bind_now_rule-agrees h = ground arith

  pie_rule-agrees :
      {c : Result} (pic : Result)
      → pie host (some f) ≡ done c
      → (is_bad (pie_rule c pic).status || is_bad pic.status)
        ≡ (is_bad c.status || is_bad pic.status)
  unfolding pie pie_rule eq_bytes
  pie_rule-agrees pic h = ground arith

nx_verdict-agrees :
    (s : StackSegment) → is_bad (nx_rule (nx_verdict s)).status ≡ is_bad (nx_verdict s).status
unfolding nx_verdict nx_rule
nx_verdict-agrees s = ground arith

nx_rule-agrees :
    (f : File) {c : Result} → nx (some f) ≡ c → is_bad (nx_rule c).status ≡ is_bad c.status
unfolding nx
nx_rule-agrees f h =
    subst (λ c. is_bad (nx_rule c).status ≡ is_bad c.status) h
      (nx_verdict-agrees (find_stack 0 f.progs))

no_rpath_rule-agrees : (c : Result) → is_bad (no_rpath_rule c).status ≡ is_bad c.status
unfolding no_rpath_rule
no_rpath_rule-agrees c = ground arith

stack_rule-agrees :
    (r : FileReport) → is_bad (stack_rule r).status ≡ not (stack_protection_passed r)
unfolding stack_rule
stack_rule-agrees r = ground arith

-- A rule other than the one on stripped symbols fails.
abbrev pub fails_but_stripped : List ComplianceItem → Bool
fails_but_stripped = any (λ i. is_bad i.result.status && not (eq_bytes i.id (codes "stripped")))

-- The tests of `hasFailures` on one report without an error, written out.
has_failures_single :
    (r : FileReport)
    → r.error ≡ []
    → has_failures (r ∷ []) ≡ (
        is_bad (get_check r.checks (codes "relro")).status
        || (not (stack_protection_passed r)
            || (is_bad (get_check r.checks (codes "nx")).status
                || (is_bad (get_check r.checks (codes "pie")).status
                    || (is_bad (get_check r.checks (codes "pic")).status
                        || (is_bad (get_check r.checks (codes "bind_now")).status
                            || is_bad (get_check r.checks (codes "rpath")).status))))))
unfolding has_failures eq_bytes
has_failures_single r e = simp (e, if-or, or_false)

fails_but_stripped_items :
    (r : FileReport)
    → fails_but_stripped (compliance r).items ≡ (
        is_bad
          (pie_rule (get_check r.checks (codes "pie")) (get_check r.checks (codes "pic"))).status
        || (is_bad (stack_rule r).status
            || (is_bad (relro_rule (get_check r.checks (codes "relro"))).status
                || (is_bad (bind_now_rule (get_check r.checks (codes "bind_now"))).status
                    || (is_bad (nx_rule (get_check r.checks (codes "nx"))).status
                        || is_bad (no_rpath_rule (get_check r.checks (codes "rpath"))).status)))))
unfolding eq_bytes
fails_but_stripped_items r = rw (compliance-items r) (simp (and_true, and_false, or_false))

regroup :
    (r s n p c b h p' : Bool)
    → (p' || c) ≡ (p || c)
    → (r || (s || (n || (p || (c || (b || h)))))) ≡ ((p' || (s || (r || (b || (n || h))))) || c)
regroup r s n p true b h p' e = ground arith
regroup r s n p false b h p' e = ground arith

-- The report of a checked file fails the plain gate exactly if a compliance rule other than the one
-- on stripped symbols fails, or the check of text relocations does.
pub has_failures-compliance :
    (host : Host) (path : Bytes) (r : FileReport)
    → check_file host path ≡ done r
    → r.error ≡ []
    → has_failures (r ∷ []) ≡ (
        fails_but_stripped (compliance r).items || is_bad (get_check r.checks (codes "pic")).status)
has_failures-compliance host path r h e =
    let checked = check_file-IsChecked host path h e in
    let from = checked.reported in
    let f = checked.file in
    let at = λ (k : Bytes). get_check r.checks k in
    let fails = λ (k : Bytes). is_bad (at k).status in
    let pie_fails = is_bad (pie_rule (at (codes "pie")) (at (codes "pic"))).status in
    rw (has_failures_single r e, fails_but_stripped_items r)
      (rw
        (
          relro_rule-agrees host f from.from_relro,
          bind_now_rule-agrees host f from.from_bind_now,
          nx_rule-agrees f from.from_nx,
          no_rpath_rule-agrees,
          stack_rule-agrees r,
        )
        (regroup (fails (codes "relro")) (not (stack_protection_passed r)) (fails (codes "nx"))
          (fails (codes "pie")) (fails (codes "pic")) (fails (codes "bind_now"))
          (fails (codes "rpath")) pie_fails
          (pie_rule-agrees host f (at (codes "pic")) from.from_pie)))
