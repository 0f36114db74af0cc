-- ===== src/Compliance.antt =====
-- internal/checksec/compliance.go: the verdicts of the secure-compile specification.
use sec_compile_option.Base.{List, [], if◌then◌else◌, ℕ, ◌++◌, ◌+◌, ◌||◌, ◌∷◌}
use sec_compile_option.Checks.{
  Result, Status, bad, bad_result, good, is_bad, is_good, na, na_result, ok_result, warn,
}
use sec_compile_option.Checks.Binding.{relro}
use sec_compile_option.Checks.Position.{pic, pie}
use sec_compile_option.Go.Strings.{Bytes, codes, eq_bytes}
use sec_compile_option.Report.{FileReport, get_check, stack_protection_passed}
pub mod Count
pub mod Gates

pub record ComplianceItem : Type 0 where
  pub id : Bytes
  pub name : Bytes
  pub require : Bytes
  pub result : Result

pub record ComplianceSummary : Type 0 where
  pub name : Bytes
  pub pass : ℕ
  pub fail : ℕ
  pub not_applicable : ℕ
  pub items : List ComplianceItem

pub record ComplianceRule : Type 0 where
  pub id : Bytes
  pub name : Bytes
  pub require : Bytes
  pub verdict : FileReport → Result

abbrev pub passed : Result
passed = ok_result (codes "pass")

abbrev pub failed_rule : Result
failed_rule = bad_result (codes "fail")

unfoldable pub pie_rule : Result → Result → Result
pie_rule pie pic =
    if eq_bytes pie.value (codes "PIE enabled") || eq_bytes pie.value (codes "Static PIE")
    then passed
    else if eq_bytes pie.value (codes "DSO (shared library)")
    then (if is_bad pic.status then bad_result (codes "fail (text relocations)") else passed)
    else if eq_bytes pie.value (codes "REL (relocatable object)")
    then na_result (codes "n/a (object file)")
    else failed_rule

unfoldable pub stack_rule : FileReport → Result
stack_rule r = if stack_protection_passed r then passed else failed_rule

unfoldable pub relro_rule : Result → Result
relro_rule relro =
    if eq_bytes relro.value (codes "Full RELRO") || eq_bytes relro.value (codes "Partial RELRO")
    then passed
    else if eq_bytes relro.value (codes "N/A")
    then na_result (codes "n/a")
    else failed_rule

unfoldable pub bind_now_rule : Result → Result
bind_now_rule c =
    if eq_bytes c.value (codes "Bind now")
    then passed
    else if eq_bytes c.value (codes "error checking bind_now")
    then na_result (codes "n/a")
    else failed_rule

nx_rule_on : Status → Result
nx_rule_on good = passed
nx_rule_on warn = na_result (codes "unknown (no GNU_STACK)")
nx_rule_on na = na_result (codes "n/a")
nx_rule_on _ = failed_rule

unfoldable pub nx_rule : Result → Result
unfolding nx_rule_on
nx_rule c = nx_rule_on c.status

unfoldable pub stripped_rule : Result → Result
stripped_rule c = if is_good c.status then passed else failed_rule

unfoldable pub no_rpath_rule : Result → Result
no_rpath_rule c =
    if is_good c.status
    then passed
    else if is_bad c.status
    then failed_rule
    else na_result (codes "n/a")

abbrev pub compliance_rules : List ComplianceRule
compliance_rules =
    record {
      id = codes "pie";
      name = codes "Position independent";
      require = codes "-fPIE -pie (executables) / -fPIC (shared libraries)";
      verdict = λ r. pie_rule (get_check r.checks (codes "pie")) (get_check r.checks (codes "pic"));
    }
    ∷ record {
      id = codes "stack_protector";
      name = codes "Stack protector";
      require = codes "-fstack-protector-all / -strong, or ohos_retguard / PAC CFI (AArch64)";
      verdict = stack_rule;
    }
    ∷ record {
      id = codes "relro";
      name = codes "GOT read-only after relocation";
      require = codes "-Wl,-z,relro (partial) / -Wl,-z,relro,-z,now (full)";
      verdict = λ r. relro_rule (get_check r.checks (codes "relro"));
    }
    ∷ record {
      id = codes "bind_now";
      name = codes "Immediate binding";
      require = codes "-Wl,-z,now";
      verdict = λ r. bind_now_rule (get_check r.checks (codes "bind_now"));
    }
    ∷ record {
      id = codes "nx";
      name = codes "Non-executable stack";
      require = codes "-Wl,-z,noexecstack";
      verdict = λ r. nx_rule (get_check r.checks (codes "nx"));
    }
    ∷ record {
      id = codes "stripped";
      name = codes "Stripped symbols";
      require = codes "-s (link) or strip before release";
      verdict = λ r. stripped_rule (get_check r.checks (codes "symbols"));
    }
    ∷ record {
      id = codes "no_rpath";
      name = codes "No rpath";
      require = codes "rpath prohibited (-Wl,--disable-new-dtags,--rpath must not be used)";
      verdict = λ r. no_rpath_rule (get_check r.checks (codes "rpath"));
    }
    ∷ []

-- One round of the loop of `Compliance`.
unfoldable pub tally : ComplianceSummary → ComplianceItem → ComplianceSummary
tally s item = elim item.result.status [
  | good ↦ record s { pass = s.pass + 1; items = s.items ++ item ∷ [] }
  | bad ↦ record s { fail = s.fail + 1; items = s.items ++ item ∷ [] }
  | _ ↦ record s { not_applicable = s.not_applicable + 1; items = s.items ++ item ∷ [] }
]

unfoldable pub apply_rules :
    FileReport → ComplianceSummary → List ComplianceRule → ComplianceSummary
unfolding tally
apply_rules r s [] = s
apply_rules r s (rule ∷ rules) =
    let item : ComplianceItem = record {
      id = rule.id;
      name = rule.name;
      require = rule.require;
      result = rule.verdict r;
    } in
    apply_rules r (tally s item) rules

unfoldable pub compliance : FileReport → ComplianceSummary
unfolding apply_rules
compliance r =
    apply_rules r (record { name = r.name; pass = 0; fail = 0; not_applicable = 0; items = [] })
      compliance_rules
