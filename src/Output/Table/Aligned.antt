-- ===== src/Output/Table/Aligned.antt =====
-- The lines of `Table` without colors.
use sec_compile_option.Base.{
  All, All-append, Bool, List, Option, [], ap, arith, false, length, length-append, ltb, map, none,
  refl, some, true, ℕ, ◌++◌, ◌+◌, ◌-◌, ◌∷◌, ◌≡◌, ◌≤◌,
}
use sec_compile_option.Checks.{Status}
use sec_compile_option.Go.Strings.{Bytes, eq_bytes, length-repeat, repeat}
use sec_compile_option.Output.Table.{
  colorize, error_row, headers, plain_cells, report_cells, report_row, row_body, row_cells,
  separator, styled, sum_widths, table_lines, table_widths, write_row,
}
use sec_compile_option.Output.Table.Widths.{FitsColumns, headers-FitsColumns, rows-Fit}
use sec_compile_option.Report.{FileReport}

pub length-separator : (ws : List ℕ) → length (separator ws) ≡ sum_widths ws + 2
unfolding separator
length-separator [] = refl
length-separator (w ∷ ws) = omega (
  arith,
  length-append (repeat b'-' (w + 2)) (separator ws),
  length-repeat b'-' (w + 2),
  length-separator ws,
)

-- The texts of the cells of a row.
abbrev pub texts : List (Bytes × Option Status) → List Bytes
texts [] = []
texts ((c, s) ∷ cells) = c ∷ texts cells

styled_plain : (s : Option Status) (c : Bytes) → styled false s c ≡ c
unfolding styled
styled_plain none c = refl
styled_plain (some s) c = refl

length-row_body :
    (ws : List ℕ) (cells : List (Bytes × Option Status))
    → FitsColumns ws (texts cells)
    → length (row_body false ws cells) ≡ sum_widths ws + 1
unfolding row_body
length-row_body [] [] f = refl
length-row_body [] ((c, s) ∷ cells) f = absurd f
length-row_body (w ∷ ws) [] f = absurd f
length-row_body (w ∷ ws) ((c, s) ∷ cells) (h, f) = rw (styled_plain s c) (
    omega (
      arith,
      length-append c (repeat b' ' (w - length c) ++ (b' ' ∷ b'|' ∷ row_body false ws cells)),
      length-append (repeat b' ' (w - length c)) (b' ' ∷ b'|' ∷ row_body false ws cells),
      length-repeat b' ' (w - length c),
      length-row_body ws cells f,
    ))

pub length-write_row :
    (ws : List ℕ) (cells : List (Bytes × Option Status))
    → FitsColumns ws (texts cells)
    → length (write_row false ws cells) ≡ sum_widths ws + 2
length-write_row ws cells f = unfold write_row in omega (arith, length-row_body ws cells f)

pub texts-plain_cells : (cs : List Bytes) → texts (plain_cells cs) ≡ cs
texts-plain_cells [] = refl
texts-plain_cells (c ∷ cs) = ap (◌∷◌ c) (texts-plain_cells cs)

texts-report_cells :
    (show_name : Bool) (r : FileReport) → texts (report_cells show_name r) ≡ row_cells show_name r
unfolding report_cells row_cells
texts-report_cells true r = refl
texts-report_cells false r = refl

-- The row of a report without an error.
length-report_row :
    (show_name : Bool) (ws : List ℕ) (r : FileReport)
    → r.error ≡ []
    → FitsColumns ws (row_cells show_name r)
    → length (report_row false show_name ws r) ≡ sum_widths ws + 2
unfolding report_row eq_bytes
length-report_row show_name ws r e f =
    simp e (length-write_row ws (report_cells show_name r) (rw (texts-report_cells show_name r) f))

-- The row of an error whose text fits into the row is not as long as the other lines of the table:
-- it is longer by one less than the number of columns.
pub error_row-misaligned :
    (ws : List ℕ) (err : Bytes)
    → length err + 2 ≤ length ws - 1 + sum_widths ws
    → length (error_row false ws err) ≡ length (separator ws) + (length ws - 1)
unfolding error_row colorize
error_row-misaligned ws err h =
    let pad = length ws - 1 + sum_widths ws - length err - 2 in
    omega (
      arith,
      length-separator ws,
      length-append err (repeat b' ' pad ++ (b'|' ∷ b'\n' ∷ [])),
      length-append (repeat b' ' pad) (b'|' ∷ b'\n' ∷ []),
      length-repeat b' ' pad,
    )

rows-aligned :
    (show_name : Bool) (ws : List ℕ) (rs : List FileReport)
    → All (λ r. r.error ≡ []) rs
    → All (λ r. FitsColumns ws (row_cells show_name r)) rs
    → All (λ l. length l ≡ sum_widths ws + 2) (map (report_row false show_name ws) rs)
rows-aligned show_name ws [] e f = tt
rows-aligned show_name ws (r ∷ rs) (e, es) (f, fs) =
    (length-report_row show_name ws r e f, rows-aligned show_name ws rs es fs)

-- The width of the lines of a table, the line feed included.
abbrev pub line_width : List FileReport → ℕ
line_width reports = sum_widths (table_widths (ltb 1 (length reports)) reports) + 2

-- Without colors, and if no report has an error, all lines of the table are equally long, whatever
-- names and values the reports hold.
pub table_lines-aligned :
    (reports : List FileReport)
    → All (λ r. r.error ≡ []) reports
    → All (λ l. length l ≡ line_width reports) (table_lines false reports)
unfolding table_lines
table_lines-aligned [] e = tt
table_lines-aligned (r ∷ rs) e =
    let show_name = ltb 1 (length (r ∷ rs)) in
    let ws = table_widths show_name (r ∷ rs) in
    let P = λ (l : Bytes). length l ≡ sum_widths ws + 2 in
    let bar = length-separator ws in
    (
      bar,
      (
        length-write_row ws (plain_cells (headers show_name))
            (rw (texts-plain_cells (headers show_name)) (headers-FitsColumns show_name (r ∷ rs))),
        (
          bar,
          All-append P (map (report_row false show_name ws) (r ∷ rs)) (separator ws ∷ [])
              (rows-aligned show_name ws (r ∷ rs) e (rows-Fit show_name (r ∷ rs))) (bar, tt),
        ),
      ),
    )
