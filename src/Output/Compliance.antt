-- ===== src/Output/Compliance.antt =====
-- internal/output/printer.go: `Compliance`.
pub mod Cells
pub mod Aligned
pub mod Rows
pub mod Exits
use mathlib.Core.List.{flatten}
use sec_compile_option.Base.{
  Bool, List, Option, [], if◌then◌else◌, length, ltb, map, not, some, ℕ, ◌++◌, ◌∷◌,
}
use sec_compile_option.Checks.{Status, bad, good, info, na, unset}
use sec_compile_option.Compliance.{ComplianceItem, ComplianceSummary, compliance}
use sec_compile_option.Go.Maps.{has_key, insert, lookup}
use sec_compile_option.Go.Strings.{Bytes, codes, eq_bytes, itoa}
use sec_compile_option.Output.Table.{plain_cells, separator, widen_rows, write_row}
use sec_compile_option.Report.{FileReport}

-- The identifiers of the rules, from the summary of a sample.
unfoldable pub compliance_rule_ids : FileReport → List Bytes
compliance_rule_ids sample = map (λ (it : ComplianceItem). it.id) (compliance sample).items

abbrev pub zero_item : ComplianceItem
zero_item = record {
  id = [];
  name = [];
  require = [];
  result = record { value = []; status = unset };
}

-- `byID[item.ID] = item` for each item.
unfoldable pub by_id :
    List (Bytes × ComplianceItem) → List ComplianceItem → List (Bytes × ComplianceItem)
by_id m [] = m
by_id m (item ∷ items) = by_id (insert item.id item m) items

-- `v := "n/a"` and the switch on the status.
unfoldable pub verdict_text : Status → Bytes
verdict_text good = codes "PASS"
verdict_text bad = codes "FAIL"
verdict_text _ = codes "n/a"

unfoldable pub verdict_cell : List (Bytes × ComplianceItem) → Bytes → Bytes
unfolding verdict_text
verdict_cell items id =
    if has_key id items then verdict_text (lookup id zero_item items).result.status else codes "n/a"

-- "%d pass / %d fail / %d n/a"
unfoldable pub counts_text : ComplianceSummary → Bytes
unfolding itoa
counts_text s =
    itoa s.pass
    ++ (codes " pass / "
        ++ (itoa s.fail ++ (codes " fail / " ++ (itoa s.not_applicable ++ codes " n/a"))))

unfoldable pub compliance_cells : List Bytes → FileReport → List Bytes
unfolding by_id verdict_cell counts_text
compliance_cells ids r =
    let s = compliance r in r.name ∷ counts_text s ∷ map (verdict_cell (by_id [] s.items)) ids

unfoldable pub compliance_headers : List Bytes → List Bytes
compliance_headers ids = codes "Name" ∷ codes "Result" ∷ ids

-- The status that colors the cell of an item.
unfoldable pub item_status : Status → Status
item_status good = good
item_status bad = bad
item_status _ = na

unfoldable pub row_statuses : ComplianceSummary → List Status
unfolding item_status
row_statuses s =
    info
    ∷ (if ltb 0 s.fail then bad else good)
    ∷ map (λ (it : ComplianceItem). item_status it.result.status) s.items

-- Each cell with its status.
abbrev pub with_statuses : List Bytes → List Status → List (Bytes × Option Status)
with_statuses (c ∷ cs) (s ∷ ss) = (c, some s) ∷ with_statuses cs ss
with_statuses _ _ = []

unfoldable pub compliance_row : Bool → List Bytes → List ℕ → FileReport → Bytes
compliance_row colors ids ws r =
    if not (eq_bytes r.error [])
    then b'|' ∷ b' ' ∷ (r.name ++ (codes ": " ++ (r.error ++ b'\n' ∷ [])))
    else write_row colors ws (with_statuses (compliance_cells ids r) (row_statuses (compliance r)))

unfoldable pub compliance_widths : List Bytes → List FileReport → List ℕ
unfolding widen_rows compliance_headers compliance_cells
compliance_widths ids reports =
    widen_rows (map length (compliance_headers ids)) (map (compliance_cells ids) reports)

-- The lines of the table, in order.
unfoldable pub compliance_lines : Bool → List FileReport → List Bytes
compliance_lines colors [] = []
compliance_lines colors (r ∷ rs) =
    let ids = compliance_rule_ids r in
    let ws = compliance_widths ids (r ∷ rs) in
    separator ws
    ∷ write_row colors ws (plain_cells (compliance_headers ids))
    ∷ separator ws
    ∷ (map (compliance_row colors ids ws) (r ∷ rs) ++ separator ws ∷ [])

unfoldable pub compliance_table : Bool → List FileReport → Bytes
compliance_table colors reports = flatten (compliance_lines colors reports)
