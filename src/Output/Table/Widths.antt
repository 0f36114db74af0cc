-- ===== src/Output/Table/Widths.antt =====
-- The column widths of `Table`.
use sec_compile_option.Base.{
  All, All-map, All-map-All, All-of_map, Bool, List, [], ap, arith, false, length, map, refl, suc,
  true, ℕ, ◌∙◌, ◌∷◌, ◌≡◌, ◌≤◌,
}
use sec_compile_option.Go.Strings.{Bytes}
use sec_compile_option.Output.Table.{headers, row_cells, table_widths, widen, widen_rows}
use sec_compile_option.Report.{FileReport}

-- Each cell is at most as long as its column is wide, and there is a column for each cell.
abbrev pub FitsColumns : List ℕ → List Bytes → Type 0
FitsColumns [] [] = Unit
FitsColumns [] (c ∷ cs) = ⊥
FitsColumns (w ∷ ws) [] = ⊥
FitsColumns (w ∷ ws) (c ∷ cs) = (length c ≤ w) × FitsColumns ws cs

widen-Fits_self :
    (ws : List ℕ) (cs : List Bytes) → length ws ≡ length cs → FitsColumns (widen ws cs) cs
unfolding widen
widen-Fits_self [] [] h = tt
widen-Fits_self [] (c ∷ cs) h = absurd (omega arith)
widen-Fits_self (w ∷ ws) [] h = absurd (omega arith)
widen-Fits_self (w ∷ ws) (c ∷ cs) h = (ground arith, widen-Fits_self ws cs (omega arith))

widen-FitsColumns :
    (ws : List ℕ) (row cs : List Bytes) → FitsColumns ws cs → FitsColumns (widen ws row) cs
unfolding widen
widen-FitsColumns [] row [] f = tt
widen-FitsColumns [] row (c ∷ cs) f = absurd f
widen-FitsColumns (w ∷ ws) row [] f = absurd f
widen-FitsColumns (w ∷ ws) [] (c ∷ cs) f = f
widen-FitsColumns (w ∷ ws) (r ∷ row) (c ∷ cs) (h, f) = (ground arith, widen-FitsColumns ws row cs f)

length-widen : (ws : List ℕ) (row : List Bytes) → length (widen ws row) ≡ length ws
unfolding widen
length-widen [] row = refl
length-widen (w ∷ ws) [] = refl
length-widen (w ∷ ws) (r ∷ row) = ap suc (length-widen ws row)

pub widen_rows-FitsColumns :
    (ws : List ℕ) (rows : List (List Bytes)) (cs : List Bytes)
    → FitsColumns ws cs
    → FitsColumns (widen_rows ws rows) cs
unfolding widen_rows
widen_rows-FitsColumns ws [] cs f = f
widen_rows-FitsColumns ws (r ∷ rows) cs f =
    widen_rows-FitsColumns (widen ws r) rows cs (widen-FitsColumns ws r cs f)

pub widen_rows-All :
    (ws : List ℕ) (rows : List (List Bytes))
    → All (λ r. length ws ≡ length r) rows
    → All (FitsColumns (widen_rows ws rows)) rows
unfolding widen_rows
widen_rows-All ws [] h = tt
widen_rows-All ws (r ∷ rows) (h, hs) = (
  widen_rows-FitsColumns (widen ws r) rows r (widen-Fits_self ws r h),
  widen_rows-All (widen ws r) rows (All-map (λ x e. length-widen ws r ∙ e) rows hs),
)

pub lengths-FitsColumns : (cs : List Bytes) → FitsColumns (map length cs) cs
lengths-FitsColumns [] = tt
lengths-FitsColumns (c ∷ cs) = (omega arith, lengths-FitsColumns cs)

-- The widths of a table fit its headers.
pub headers-FitsColumns :
    (show_name : Bool) (reports : List FileReport)
    → FitsColumns (table_widths show_name reports) (headers show_name)
unfolding table_widths
headers-FitsColumns show_name reports =
    widen_rows-FitsColumns _ (map (row_cells show_name) reports) (headers show_name)
      (lengths-FitsColumns (headers show_name))

length-row_cells :
    (show_name : Bool) (r : FileReport)
    → length (map length (headers show_name)) ≡ length (row_cells show_name r)
unfolding headers row_cells
length-row_cells true r = refl
length-row_cells false r = refl

-- The widths of a table fit the cells of all its reports.
pub rows-Fit :
    (show_name : Bool) (reports : List FileReport)
    → All (λ r. FitsColumns (table_widths show_name reports) (row_cells show_name r)) reports
unfolding table_widths
rows-Fit show_name reports =
    All-of_map (FitsColumns (table_widths show_name reports)) (row_cells show_name) reports (
      widen_rows-All _ (map (row_cells show_name) reports) (
        All-map-All (λ c. length (map length (headers show_name)) ≡ length c) (row_cells show_name)
          (λ r. length-row_cells show_name r) reports))
