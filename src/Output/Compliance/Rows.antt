-- ===== src/Output/Compliance/Rows.antt =====
-- The rows of the compliance table as they are printed without colors.
use sec_compile_option.Base.{
  Bool-cases, List, [], ap, arith, false, if◌then◌else◌, inl, inr, length, map, refl, sym, ℕ, ◌++◌,
  ◌∙◌, ◌∷◌, ◌≡◌,
}
use sec_compile_option.Checks.{Status, bad, good, info, is_bad, is_good, na, unset, warn}
use sec_compile_option.Compliance.{ComplianceRule, compliance, compliance_rules}
use sec_compile_option.Go.Strings.{Bytes, codes, eq_bytes, itoa}
use sec_compile_option.Output.Compliance.{
  compliance_cells, compliance_row, compliance_rule_ids, counts_text, row_statuses, verdict_text,
  with_statuses,
}
use sec_compile_option.Output.Compliance.Aligned.{length-compliance_cells, length-row_statuses}
use sec_compile_option.Output.Compliance.Cells.{cells_verdicts}
use sec_compile_option.Output.Table.{colorize, plain_cells, row_body, styled, write_row}
use sec_compile_option.Report.{FileReport}

uncolored :
    (ws : List ℕ) (cs : List Bytes) (ss : List Status)
    → length cs ≡ length ss
    → row_body false ws (with_statuses cs ss) ≡ row_body false ws (plain_cells cs)
unfolding row_body styled colorize
uncolored ws [] [] h = refl
uncolored ws [] (s ∷ ss) h = absurd (omega arith)
uncolored ws (c ∷ cs) [] h = absurd (omega arith)
uncolored [] (c ∷ cs) (s ∷ ss) h = refl
uncolored (w ∷ ws) (c ∷ cs) (s ∷ ss) h = rw (uncolored ws cs ss (omega arith)) refl

-- The cell of a rule that was judged with the status.
abbrev pub judged : Status → Bytes
judged s = if is_good s then codes "PASS" else if is_bad s then codes "FAIL" else codes "n/a"

verdict_text-judged : (s : Status) → verdict_text s ≡ judged s
unfolding verdict_text
verdict_text-judged good = refl
verdict_text-judged warn = refl
verdict_text-judged bad = refl
verdict_text-judged info = refl
verdict_text-judged na = refl
verdict_text-judged unset = refl

-- The cells of a report.
abbrev pub judged_cells : FileReport → List Bytes
judged_cells r =
    let s = compliance r in
    r.name
    ∷ (itoa s.pass
        ++ (codes " pass / "
            ++ (itoa s.fail ++ (codes " fail / " ++ (itoa s.not_applicable ++ codes " n/a")))))
    ∷ map (λ (rule : ComplianceRule). judged (rule.verdict r).status) compliance_rules

pub cells_judged :
    (sample r : FileReport) → compliance_cells (compliance_rule_ids sample) r ≡ judged_cells r
unfolding counts_text
cells_judged sample r =
    cells_verdicts sample r
    ∙ ap (λ cs. r.name ∷ counts_text (compliance r) ∷ cs)
        (map-cong (λ (rule : ComplianceRule). verdict_text-judged (rule.verdict r).status)
          compliance_rules)
  where
    map-cong :
        {f g : ComplianceRule → Bytes}
        → ((x : ComplianceRule) → f x ≡ g x)
        → (xs : List ComplianceRule) → map f xs ≡ map g xs
    map-cong h [] = refl
    map-cong h (x ∷ xs) = rw (h x, map-cong h xs) refl

row_no_error :
    (sample r : FileReport) (ws : List ℕ)
    → write_row false ws (
        with_statuses
          (compliance_cells (compliance_rule_ids sample) r)
          (row_statuses (compliance r)))
      ≡ write_row false ws (plain_cells (judged_cells r))
unfolding write_row
row_no_error sample r ws = ap (◌∷◌ b'|') (
    uncolored ws (compliance_cells (compliance_rule_ids sample) r) (row_statuses (compliance r))
      (length-compliance_cells sample r ∙ sym (length-row_statuses r))
    ∙ ap (λ cs. row_body false ws (plain_cells cs)) (cells_judged sample r))

-- What is printed for a report without colors, in columns of any widths that come from any report:
-- with no error, a row of its name, its counts of passed, failed and other rules, and for each of
-- the seven rules in order PASS, FAIL or n/a as the rule judges the report good, bad or neither; with
-- an error, its name and the error.
pub compliance_row-judged_cells :
    (sample r : FileReport) (ws : List ℕ)
    → compliance_row false (compliance_rule_ids sample) ws r ≡ (
        if eq_bytes r.error []
        then write_row false ws (plain_cells (judged_cells r))
        else b'|' ∷ b' ' ∷ (r.name ++ (codes ": " ++ (r.error ++ b'\n' ∷ []))))
unfolding compliance_row
compliance_row-judged_cells sample r ws = elim (Bool-cases (eq_bytes r.error [])) [
  | inl e ↦ rw (compliance_row, e) (row_no_error sample r ws)
  | inr e ↦ rw (compliance_row, e) refl
]
