-- ===== src/Output/Compliance/Exits.antt =====
-- The exit code of the compliance formats and the rows of the compliance table.
use mathlib.Core.Path.{subst}
use sec_compile_option.Base.{
  All, Bool, Bool-cases, List, [], any, ap, append_assoc, arith, drop, false, if-or, if◌then◌else◌,
  inl, inr, length, length-append, ltb, map, refl, suc, sym, take, ℕ, ◌++◌, ◌+◌, ◌-◌, ◌∙◌, ◌∷◌, ◌≡◌,
  ◌≤◌,
}
use sec_compile_option.Checks.{Status, bad, good, info, is_bad, na, unset, warn}
use sec_compile_option.Command.{gate, has_violations}
use sec_compile_option.Compliance.{ComplianceItem, ComplianceRule, compliance, compliance_rules}
use sec_compile_option.Compliance.Count.{compliance-IsTally, count_items, item_of}
use sec_compile_option.Dyn.Entries.{drop-append_of_length, take-append_of_length}
use sec_compile_option.Go.Strings.{Bytes, codes, eq_bytes_iff, has_prefix, length-repeat, repeat}
use sec_compile_option.Output.Compliance.{
  compliance_cells, compliance_row, compliance_rule_ids, compliance_widths,
}
use sec_compile_option.Output.Compliance.Aligned.{compliance_rows-Fit}
use sec_compile_option.Output.Compliance.Rows.{
  cells_judged, compliance_row-judged_cells, judged, judged_cells,
}
use sec_compile_option.Output.Table.{plain_cells, row_body, styled, write_row}
use sec_compile_option.Output.Table.Widths.{FitsColumns}
use sec_compile_option.Report.{FileReport}

-- The cells of a printed row, by the widths of the columns, each with its padding.
abbrev pub read_row : List ℕ → Bytes → List Bytes
read_row [] s = []
read_row (w ∷ ws) s = take w (drop 1 s) ∷ read_row ws (drop (w + 3) s)

-- A cell behind the name and the counts starts with FAIL.
abbrev pub shows_fail : List ℕ → Bytes → Bool
shows_fail ws line = any (λ c. has_prefix c (codes "FAIL")) (drop 2 (read_row ws (drop 1 line)))

abbrev pad : ℕ → Bytes → Bytes
pad w c = c ++ repeat b' ' (w - length c)

abbrev pad_cells : List ℕ → List Bytes → List Bytes
pad_cells (w ∷ ws) (c ∷ cs) = pad w c ∷ pad_cells ws cs
pad_cells _ _ = []

length-pad : (w : ℕ) (c : Bytes) → length c ≤ w → length (pad w c) ≡ w
length-pad w c h =
    omega (arith, length-append c (repeat b' ' (w - length c)), length-repeat b' ' (w - length c))

read_row-row_body :
    (ws : List ℕ) (cs : List Bytes)
    → FitsColumns ws cs
    → read_row ws (row_body false ws (plain_cells cs)) ≡ pad_cells ws cs
unfolding row_body styled
read_row-row_body [] [] f = refl
read_row-row_body [] (c ∷ cs) f = absurd f
read_row-row_body (w ∷ ws) [] f = absurd f
read_row-row_body (w ∷ ws) (c ∷ cs) (h, f) =
    let rest = row_body false ws (plain_cells cs) in
    let behind : Bytes = b' ' ∷ b'|' ∷ rest in
    let joined : c ++ (repeat b' ' (w - length c) ++ behind) ≡ pad w c ++ behind =
      sym (append_assoc c (repeat b' ' (w - length c)) behind) in
    let long : length (b' ' ∷ (pad w c ++ b' ' ∷ b'|' ∷ [])) ≡ w + 3 =
      omega (arith, length-append (pad w c) (b' ' ∷ b'|' ∷ []), length-pad w c h) in
    let dropped : drop (w + 3) (b' ' ∷ (pad w c ++ behind)) ≡ rest =
      ap (λ t. drop (w + 3) (b' ' ∷ t)) (sym (append_assoc (pad w c) (b' ' ∷ b'|' ∷ []) rest))
      ∙ drop-append_of_length (w + 3) (b' ' ∷ (pad w c ++ b' ' ∷ b'|' ∷ [])) rest long in
    rw joined (
      rw
        (
          take-append_of_length w (pad w c) behind (length-pad w c h),
          dropped,
          read_row-row_body ws cs f,
        )
        refl)

any_bad :
    (is : List ComplianceItem)
    → ltb 0 (count_items is_bad is) ≡ any (λ (i : ComplianceItem). is_bad i.result.status) is
any_bad [] = refl
any_bad (i ∷ is) = elim (Bool-cases (is_bad i.result.status)) [
  | inl e ↦ rw e (ground arith)
  | inr e ↦ rw e (ap (ltb 0) (omega arith) ∙ any_bad is)
]

any_fail :
    (r : FileReport) (ws : List ℕ) (rules : List ComplianceRule)
    → length ws ≡ length rules
    → any
        (λ c. has_prefix c (codes "FAIL"))
        (pad_cells ws (map (λ (rule : ComplianceRule). judged (rule.verdict r).status) rules))
      ≡ any (λ (i : ComplianceItem). is_bad i.result.status) (map (item_of r) rules)
any_fail r [] [] h = refl
any_fail r [] (rule ∷ rules) h = absurd (omega arith)
any_fail r (w ∷ ws) [] h = absurd (omega arith)
any_fail r (w ∷ ws) (rule ∷ rules) h =
    rw (fail_padded w (rule.verdict r).status, any_fail r ws rules (omega arith)) refl
  where
    fail_padded : (w : ℕ) (s : Status) → has_prefix (pad w (judged s)) (codes "FAIL") ≡ is_bad s
    fail_padded w good = unfold has_prefix in refl
    fail_padded w warn = unfold has_prefix in refl
    fail_padded w bad = unfold has_prefix in refl
    fail_padded w info = unfold has_prefix in refl
    fail_padded w na = unfold has_prefix in refl
    fail_padded w unset = unfold has_prefix in refl

length-Fits : (ws : List ℕ) (cs : List Bytes) → FitsColumns ws cs → length ws ≡ length cs
length-Fits [] [] f = refl
length-Fits [] (c ∷ cs) f = absurd f
length-Fits (w ∷ ws) [] f = absurd f
length-Fits (w ∷ ws) (c ∷ cs) (h, f) = ap suc (length-Fits ws cs f)

-- The cells of the rules stand behind the first two.
fail_cells :
    (r : FileReport) (ws : List ℕ)
    → FitsColumns ws (judged_cells r)
    → any (λ c. has_prefix c (codes "FAIL")) (drop 2 (pad_cells ws (judged_cells r)))
      ≡ any (λ (i : ComplianceItem). is_bad i.result.status) (map (item_of r) compliance_rules)
fail_cells r [] f = absurd f
fail_cells r (w ∷ []) f = absurd (f.1)
fail_cells r (v ∷ w ∷ ws) f = any_fail r ws compliance_rules (
    length-Fits ws
      (map (λ (rule : ComplianceRule). judged (rule.verdict r).status) compliance_rules) f.1.1)

fail-shows_fail :
    (sample r : FileReport) (ws : List ℕ)
    → r.error ≡ []
    → FitsColumns ws (compliance_cells (compliance_rule_ids sample) r)
    → ltb 0 (compliance r).fail
      ≡ shows_fail ws (compliance_row false (compliance_rule_ids sample) ws r)
fail-shows_fail sample r ws e f =
    let (t, items, _) = compliance-IsTally r in
    let fits : FitsColumns ws (judged_cells r) = subst (FitsColumns ws) (cells_judged sample r) f in
    let row : compliance_row false (compliance_rule_ids sample) ws r
        ≡ write_row false ws (plain_cells (judged_cells r)) =
      compliance_row-judged_cells sample r ws
      ∙ ap
          (λ b.
            if b
            then write_row false ws (plain_cells (judged_cells r))
            else b'|' ∷ b' ' ∷ (r.name ++ (codes ": " ++ (r.error ++ b'\n' ∷ []))))
          ((eq_bytes_iff r.error []).1 e) in
    ap (ltb 0) (t.fails ∙ ap (count_items is_bad) items)
    ∙ (any_bad (map (item_of r) compliance_rules)
        ∙ (sym (fail_cells r ws fits)
            ∙ (ap (λ cs. any (λ c. has_prefix c (codes "FAIL")) (drop 2 cs))
                  (sym (read_row-row_body ws (judged_cells r) fits))
                ∙ (unfold write_row in ap (shows_fail ws) (sym row)))))

has_violations-shows_fail :
    (sample : FileReport) (ws : List ℕ) (rs : List FileReport)
    → All (λ r. r.error ≡ []) rs
    → All (λ r. FitsColumns ws (compliance_cells (compliance_rule_ids sample) r)) rs
    → has_violations rs
      ≡ any (shows_fail ws) (map (compliance_row false (compliance_rule_ids sample) ws) rs)
unfolding has_violations
has_violations-shows_fail sample ws [] e f = refl
has_violations-shows_fail sample ws (r ∷ rs) (e, es) (f, fs) =
    let shown = λ (x : FileReport). compliance_row false (compliance_rule_ids sample) ws x in
    rw (fail-shows_fail sample r ws e f, has_violations-shows_fail sample ws rs es fs)
      (if-or (shows_fail ws (shown r)) (any (shows_fail ws) (map shown rs)))

-- In the compliance format, if no report has an error and the table is printed without colors: the
-- exit code is 2 exactly if some row that is printed, cut at the widths of the columns, has a cell
-- that starts with FAIL behind its name and its counts, and 0 otherwise.
pub gate-shows_fail :
    (r : FileReport) (rs : List FileReport)
    → All (λ x. x.error ≡ []) (r ∷ rs)
    → (let ids = compliance_rule_ids r in
        let ws = compliance_widths ids (r ∷ rs) in
        gate (codes "compliance") (r ∷ rs)
        ≡ (if any (shows_fail ws) (map (compliance_row false ids ws) (r ∷ rs)) then 2 else 0))
unfolding gate has_prefix
gate-shows_fail r rs e =
    ap (λ b. if b then 2 else 0)
      (has_violations-shows_fail r (compliance_widths (compliance_rule_ids r) (r ∷ rs)) (r ∷ rs) e
        (compliance_rows-Fit r (r ∷ rs)))
