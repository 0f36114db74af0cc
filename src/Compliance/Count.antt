-- ===== src/Compliance/Count.antt =====
-- `Compliance`: the counts of a summary and its items.
use sec_compile_option.Base.{
  Bool, List, [], ap, append-nil, append_assoc, arith, if◌then◌else◌, length, map, not, sym, ℕ,
  ◌++◌, ◌+◌, ◌||◌, ◌∙◌, ◌∷◌, ◌≡◌,
}
use sec_compile_option.Checks.{Status, is_bad, is_good}
use sec_compile_option.Compliance.{
  ComplianceItem, ComplianceRule, ComplianceSummary, apply_rules, compliance, compliance_rules,
  tally,
}
use sec_compile_option.Report.{FileReport}

-- How many items have a status that the test accepts.
abbrev pub count_items : (Status → Bool) → List ComplianceItem → ℕ
count_items p [] = 0
count_items p (i ∷ is) = (if p i.result.status then 1 else 0) + count_items p is

abbrev pub is_other : Status → Bool
is_other s = not (is_good s || is_bad s)

-- The item of a rule for a report.
abbrev pub item_of : FileReport → ComplianceRule → ComplianceItem
item_of r rule = record {
  id = rule.id;
  name = rule.name;
  require = rule.require;
  result = rule.verdict r;
}

-- The counts are those of the items.
pub record IsTally (s : ComplianceSummary) : Type 0 where
  pub passes : s.pass ≡ count_items is_good s.items
  pub fails : s.fail ≡ count_items is_bad s.items
  pub others : s.not_applicable ≡ count_items is_other s.items

count_items-append :
    (p : Status → Bool) (xs ys : List ComplianceItem)
    → count_items p (xs ++ ys) ≡ count_items p xs + count_items p ys
count_items-append p [] ys = omega arith
count_items-append p (x ∷ xs) ys = omega (arith, count_items-append p xs ys)

tally-IsTally : (s : ComplianceSummary) (i : ComplianceItem) → IsTally s → IsTally (tally s i)
unfolding tally
tally-IsTally s i t = ground (
  arith,
  count_items-append is_good s.items (i ∷ []),
  count_items-append is_bad s.items (i ∷ []),
  count_items-append is_other s.items (i ∷ []),
)

tally-items : (s : ComplianceSummary) (i : ComplianceItem) → (tally s i).items ≡ s.items ++ i ∷ []
unfolding tally
tally-items s i = ground arith

apply_rules-IsTally :
    (r : FileReport) (s : ComplianceSummary) (rules : List ComplianceRule)
    → IsTally s
    → IsTally (apply_rules r s rules)
unfolding apply_rules
apply_rules-IsTally r s [] t = t
apply_rules-IsTally r s (rule ∷ rules) t =
    apply_rules-IsTally r (tally s (item_of r rule)) rules (tally-IsTally s (item_of r rule) t)

apply_rules-items :
    (r : FileReport) (s : ComplianceSummary) (rules : List ComplianceRule)
    → (apply_rules r s rules).items ≡ s.items ++ map (item_of r) rules
unfolding apply_rules
apply_rules-items r s [] = sym (append-nil s.items)
apply_rules-items r s (rule ∷ rules) =
    apply_rules-items r (tally s (item_of r rule)) rules
    ∙ rw (tally-items s (item_of r rule))
        (append_assoc s.items (item_of r rule ∷ []) (map (item_of r) rules))

count_items-total :
    (is : List ComplianceItem)
    → count_items is_good is + count_items is_bad is + count_items is_other is ≡ length is
count_items-total [] = omega arith
count_items-total (i ∷ is) = ground (arith, count_items-total is)

abbrev no_items : FileReport → ComplianceSummary
no_items r = record { name = r.name; pass = 0; fail = 0; not_applicable = 0; items = [] }

pub compliance-items : (r : FileReport) → (compliance r).items ≡ map (item_of r) compliance_rules
unfolding compliance
compliance-items r = apply_rules-items r (no_items r) compliance_rules

-- The summary has one item for each rule, in the order of the rules; its counts are the numbers of
-- items that pass, that fail, and of the others, and they add up to the seven rules.
pub compliance-IsTally :
    (r : FileReport)
    → IsTally (compliance r)
      × ((compliance r).items ≡ map (item_of r) compliance_rules)
      × ((compliance r).pass + (compliance r).fail + (compliance r).not_applicable ≡ 7)
unfolding compliance
compliance-IsTally r =
    let t =
      apply_rules-IsTally r (no_items r) compliance_rules
        (record { passes = omega arith; fails = omega arith; others = omega arith }) in
    (
      t,
      compliance-items r,
      omega (arith, t, count_items-total (compliance r).items, ap length (compliance-items r)),
    )
