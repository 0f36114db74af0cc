-- ===== src/Output/Compliance/Aligned.antt =====
-- The lines of the compliance table without colors.
use sec_compile_option.Base.{
  All, All-append, All-map-All, All-of_map, List, [], ap, arith, false, length, map, refl, sym, ℕ,
  ◌+◌, ◌∙◌, ◌∷◌, ◌≡◌,
}
use sec_compile_option.Checks.{Status}
use sec_compile_option.Compliance.{compliance}
use sec_compile_option.Compliance.Count.{compliance-items}
use sec_compile_option.Go.Strings.{Bytes, eq_bytes}
use sec_compile_option.Output.Compliance.{
  compliance_cells, compliance_headers, compliance_lines, compliance_row, compliance_rule_ids,
  compliance_widths, row_statuses, with_statuses,
}
use sec_compile_option.Output.Compliance.Cells.{cells_verdicts, compliance_rule_ids_lem}
use sec_compile_option.Output.Table.{plain_cells, separator, sum_widths}
use sec_compile_option.Output.Table.Aligned.{
  length-separator, length-write_row, texts, texts-plain_cells,
}
use sec_compile_option.Output.Table.Widths.{
  FitsColumns, lengths-FitsColumns, widen_rows-All, widen_rows-FitsColumns,
}
use sec_compile_option.Report.{FileReport}

texts-with_statuses :
    (cs : List Bytes) (ss : List Status) → length cs ≡ length ss → texts (with_statuses cs ss) ≡ cs
texts-with_statuses [] [] h = refl
texts-with_statuses [] (s ∷ ss) h = absurd (omega arith)
texts-with_statuses (c ∷ cs) [] h = absurd (omega arith)
texts-with_statuses (c ∷ cs) (s ∷ ss) h = ap (◌∷◌ c) (texts-with_statuses cs ss (omega arith))

pub length-compliance_cells :
    (sample r : FileReport) → length (compliance_cells (compliance_rule_ids sample) r) ≡ 9
length-compliance_cells sample r = ap length (cells_verdicts sample r)

pub length-row_statuses : (r : FileReport) → length (row_statuses (compliance r)) ≡ 9
unfolding row_statuses
length-row_statuses r = rw (compliance-items r) refl

-- The row of a report without an error.
length-compliance_row :
    (sample r : FileReport) (ws : List ℕ)
    → r.error ≡ []
    → FitsColumns ws (compliance_cells (compliance_rule_ids sample) r)
    → length (compliance_row false (compliance_rule_ids sample) ws r) ≡ sum_widths ws + 2
unfolding compliance_row eq_bytes
length-compliance_row sample r ws e f =
    let cells = compliance_cells (compliance_rule_ids sample) r in
    let statuses = row_statuses (compliance r) in
    simp e (
      length-write_row ws (with_statuses cells statuses) (
        rw
          (texts-with_statuses cells statuses
            (length-compliance_cells sample r ∙ sym (length-row_statuses r)))
          f))

compliance_rows-aligned :
    (sample : FileReport) (ws : List ℕ) (rs : List FileReport)
    → All (λ r. r.error ≡ []) rs
    → All (λ r. FitsColumns ws (compliance_cells (compliance_rule_ids sample) r)) rs
    → All
        (λ l. length l ≡ sum_widths ws + 2)
        (map (compliance_row false (compliance_rule_ids sample) ws) rs)
compliance_rows-aligned sample ws [] e f = tt
compliance_rows-aligned sample ws (r ∷ rs) (e, es) (f, fs) =
    (length-compliance_row sample r ws e f, compliance_rows-aligned sample ws rs es fs)

length-compliance_headers :
    (sample : FileReport)
    → length (map length (compliance_headers (compliance_rule_ids sample))) ≡ 9
unfolding compliance_headers
length-compliance_headers sample = rw (compliance_rule_ids_lem sample) refl

-- The widths fit the cells of all reports.
pub compliance_rows-Fit :
    (sample : FileReport) (reports : List FileReport)
    → (let ids = compliance_rule_ids sample in
        All (λ r. FitsColumns (compliance_widths ids reports) (compliance_cells ids r)) reports)
unfolding compliance_widths
compliance_rows-Fit sample reports =
    let ids = compliance_rule_ids sample in
    All-of_map (FitsColumns (compliance_widths ids reports)) (compliance_cells ids) reports (
      widen_rows-All (map length (compliance_headers ids)) (map (compliance_cells ids) reports) (
        All-map-All (λ c. length (map length (compliance_headers ids)) ≡ length c)
          (compliance_cells ids)
          (λ r. length-compliance_headers sample ∙ sym (length-compliance_cells sample r)) reports))

-- The width of the lines, the line feed included.
abbrev pub compliance_line_width : FileReport → List FileReport → ℕ
compliance_line_width r rs = sum_widths (compliance_widths (compliance_rule_ids r) (r ∷ rs)) + 2

-- Without colors, and if no report has an error, all lines of the compliance table of one or more
-- reports are equally long, whatever names and verdicts the reports hold.
pub compliance_lines-aligned :
    (r : FileReport) (rs : List FileReport)
    → All (λ x. x.error ≡ []) (r ∷ rs)
    → All (λ l. length l ≡ compliance_line_width r rs) (compliance_lines false (r ∷ rs))
unfolding compliance_lines
compliance_lines-aligned r rs e =
    let ids = compliance_rule_ids r in
    let ws = compliance_widths ids (r ∷ rs) in
    let P = λ (l : Bytes). length l ≡ sum_widths ws + 2 in
    let bar = length-separator ws in
    let head_fits : FitsColumns ws (compliance_headers ids) =
      unfold compliance_widths in
      widen_rows-FitsColumns (map length (compliance_headers ids))
        (map (compliance_cells ids) (r ∷ rs)) (compliance_headers ids)
        (lengths-FitsColumns (compliance_headers ids)) in
    (
      bar,
      (
        length-write_row ws (plain_cells (compliance_headers ids))
            (rw (texts-plain_cells (compliance_headers ids)) head_fits),
        (
          bar,
          All-append P (map (compliance_row false ids ws) (r ∷ rs)) (separator ws ∷ [])
              (compliance_rows-aligned r ws (r ∷ rs) e (compliance_rows-Fit r (r ∷ rs))) (bar, tt),
        ),
      ),
    )
