-- ===== src/Output/Compliance/Cells.antt =====
-- What the cells of the compliance table say.
use sec_compile_option.Base.{[], ap, map, refl, ◌∷◌, ◌≡◌}
use sec_compile_option.Compliance.{ComplianceItem, ComplianceRule, compliance, compliance_rules}
use sec_compile_option.Compliance.Count.{compliance-items, item_of}
use sec_compile_option.Go.Maps.{has_key, insert, lookup}
use sec_compile_option.Go.Strings.{eq_bytes}
use sec_compile_option.Output.Compliance.{
  by_id, compliance_cells, compliance_rule_ids, counts_text, verdict_cell, verdict_text,
}
use sec_compile_option.Report.{FileReport}

-- The rules of every report are the same.
pub compliance_rule_ids_lem :
    (r : FileReport)
    → compliance_rule_ids r ≡ map (λ (rule : ComplianceRule). rule.id) compliance_rules
unfolding compliance_rule_ids
compliance_rule_ids_lem r = ap (map (λ (it : ComplianceItem). it.id)) (compliance-items r)

-- The cells of the rules, from the verdicts of the report.
verdict_cells :
    (r : FileReport)
    → map
        (verdict_cell (by_id [] (map (item_of r) compliance_rules)))
        (map (λ (rule : ComplianceRule). rule.id) compliance_rules)
      ≡ map (λ (rule : ComplianceRule). verdict_text (rule.verdict r).status) compliance_rules
unfolding verdict_cell by_id eq_bytes insert lookup has_key
verdict_cells r = refl

pub cells_verdicts :
    (sample r : FileReport)
    → compliance_cells (compliance_rule_ids sample) r
      ≡ r.name
        ∷ counts_text (compliance r)
        ∷ map (λ (rule : ComplianceRule). verdict_text (rule.verdict r).status) compliance_rules
unfolding compliance_cells
cells_verdicts sample r =
    ap (λ cs. r.name ∷ counts_text (compliance r) ∷ cs)
      (rw (compliance_rule_ids_lem sample, compliance-items r) (verdict_cells r))
