-- ===== src/Output/Table.antt =====
-- internal/output/printer.go: `colorize` and `Table`.
pub mod Widths
pub mod Aligned
use mathlib.Core.List.{flatten}
use sec_compile_option.Base.{
  Bool, List, Option, [], if◌then◌else◌, length, ltb, map, none, not, some, ℕ, ◌++◌, ◌+◌, ◌-◌, ◌∷◌,
}
use sec_compile_option.Checks.{Status, bad, good, info, na, unset, warn}
use sec_compile_option.Go.Strings.{Bytes, codes, eq_bytes, repeat}
use sec_compile_option.Report.{FileReport, check_order, get_check, header_name}

-- The escape sequence of a status; a status that the map lacks has none.
unfoldable pub status_color : Status → Bytes
status_color good = 27 ∷ codes "[32m"
status_color warn = 27 ∷ codes "[33m"
status_color bad = 27 ∷ codes "[31m"
status_color info = []
status_color na = 27 ∷ codes "[2m"
status_color unset = []

abbrev pub color_reset : Bytes
color_reset = 27 ∷ codes "[0m"

unfoldable pub colorize : Bool → Status → Bytes → Bytes
unfolding status_color
colorize colors s v =
    if not colors
    then v
    else if not (eq_bytes (status_color s) [])
    then status_color s ++ (v ++ color_reset)
    else v

-- The columns, with the name in front when there are several reports.
unfoldable pub headers : Bool → List Bytes
headers show_name =
    if show_name then codes "Name" ∷ map header_name check_order else map header_name check_order

unfoldable pub row_cells : Bool → FileReport → List Bytes
row_cells show_name r =
    let values = map (λ k. (get_check r.checks k).value) check_order in
    if show_name then r.name ∷ values else values

-- `if len(cell) > widths[j] { widths[j] = len(cell) }` along a row.
unfoldable pub widen : List ℕ → List Bytes → List ℕ
widen [] cells = []
widen (w ∷ ws) [] = w ∷ ws
widen (w ∷ ws) (c ∷ cs) = (if ltb w (length c) then length c else w) ∷ widen ws cs

unfoldable pub widen_rows : List ℕ → List (List Bytes) → List ℕ
unfolding widen
widen_rows ws [] = ws
widen_rows ws (r ∷ rs) = widen_rows (widen ws r) rs

unfoldable pub separator : List ℕ → Bytes
separator [] = b'+' ∷ b'\n' ∷ []
separator (w ∷ ws) = b'+' ∷ (repeat b'-' (w + 2) ++ separator ws)

-- A cell with a status is colored by it.
unfoldable pub styled : Bool → Option Status → Bytes → Bytes
unfolding colorize
styled colors none cell = cell
styled colors (some s) cell = colorize colors s cell

-- The cells of a row with the column's width; " %s%s |" for each.
unfoldable pub row_body : Bool → List ℕ → List (Bytes × Option Status) → Bytes
unfolding styled
row_body colors ws [] = b'\n' ∷ []
row_body colors [] ((cell, status) ∷ cells) = b'\n' ∷ []
row_body colors (w ∷ ws) ((cell, status) ∷ cells) =
    let val = styled colors status cell in
    b' ' ∷ (val ++ (repeat b' ' (w - length cell) ++ (b' ' ∷ b'|' ∷ row_body colors ws cells)))

unfoldable pub write_row : Bool → List ℕ → List (Bytes × Option Status) → Bytes
unfolding row_body
write_row colors ws cells = b'|' ∷ row_body colors ws cells

abbrev pub plain_cells : List Bytes → List (Bytes × Option Status)
plain_cells = map (λ c. (c, none))

-- The name is not colored, each verdict by its status.
unfoldable pub report_cells : Bool → FileReport → List (Bytes × Option Status)
report_cells show_name r =
    let verdicts =
      map (λ k. ((get_check r.checks k).value, some (get_check r.checks k).status)) check_order in
    if show_name then (r.name, none) ∷ verdicts else verdicts

abbrev pub sum_widths : List ℕ → ℕ
sum_widths [] = 0
sum_widths (w ∷ ws) = w + 3 + sum_widths ws

-- A report with an error is one message across the row.
unfoldable pub error_row : Bool → List ℕ → Bytes → Bytes
unfolding colorize
error_row colors ws err =
    let total = length ws - 1 + sum_widths ws in
    b'|'
    ∷ b' '
    ∷ (colorize colors bad err ++ (repeat b' ' (total - length err - 2) ++ (b'|' ∷ b'\n' ∷ [])))

unfoldable pub report_row : Bool → Bool → List ℕ → FileReport → Bytes
report_row colors show_name ws r =
    if not (eq_bytes r.error [])
    then error_row colors ws r.error
    else write_row colors ws (report_cells show_name r)

unfoldable pub table_widths : Bool → List FileReport → List ℕ
unfolding widen_rows headers row_cells
table_widths show_name reports =
    widen_rows (map length (headers show_name)) (map (row_cells show_name) reports)

-- The lines of the table, in order.
unfoldable pub table_lines : Bool → List FileReport → List Bytes
table_lines colors [] = []
table_lines colors (r ∷ rs) =
    let show_name = ltb 1 (length (r ∷ rs)) in
    let ws = table_widths show_name (r ∷ rs) in
    separator ws
    ∷ write_row colors ws (plain_cells (headers show_name))
    ∷ separator ws
    ∷ (map (report_row colors show_name ws) (r ∷ rs) ++ separator ws ∷ [])

unfoldable pub table : Bool → List FileReport → Bytes
table colors reports = flatten (table_lines colors reports)
