-- ===== src/Report/Link.antt =====
-- `linkStackProtection`: what it leaves of the three verdicts.
use sec_compile_option.Base.{
  List, Option, [], any, arith, if◌then◌else◌, none, refl, some, true, ◌++◌, ◌||◌, ◌∷◌, ◌≡◌,
}
use sec_compile_option.Checks.{Result, is_good, ok_result}
use sec_compile_option.Go.Maps.{insert, lookup-insert}
use sec_compile_option.Go.Strings.{Bytes, codes, eq_bytes, eq_bytes_iff}
use sec_compile_option.Report.{
  cover_others, get_check, header_name, link_from, link_stack_protection, stack_protection_keys,
  zero_result,
}

abbrev pub Checks : Type 0
Checks = List (Bytes × Result)

-- The key of the first of the three checks that passed.
abbrev pub first_good : Checks → List Bytes → Option Bytes
first_good c [] = none
first_good c (k ∷ ks) = if is_good (get_check c k).status then some k else first_good c ks

abbrev pub covered_by : Option Bytes → Result → Result
covered_by none r = r
covered_by (some k) r =
    if is_good r.status then r else ok_result (codes "Covered by " ++ header_name k)

pub get_check-insert :
    (k j : Bytes) (v : Result) (c : Checks)
    → get_check (insert k v c) j ≡ (if eq_bytes k j then v else get_check c j)
unfolding get_check
get_check-insert k j v c = lookup-insert k j v zero_result c

-- One round of the loop over the other keys.
abbrev cover_one : Bytes → Bytes → Checks → Checks
cover_one w k c =
    if eq_bytes k w || is_good (get_check c k).status
    then c
    else insert k (ok_result (codes "Covered by " ++ header_name w)) c

get_check-cover_one :
    (w k : Bytes) (c : Checks) (j : Bytes)
    → is_good (get_check c w).status ≡ true
    → get_check (cover_one w k c) j
      ≡ (if eq_bytes k j then covered_by (some w) (get_check c j) else get_check c j)
get_check-cover_one w k c j g = ground (
  arith,
  eq_bytes_iff k j,
  eq_bytes_iff k w,
  get_check-insert k j (ok_result (codes "Covered by " ++ header_name w)) c,
)

covered_by_idem : (w : Option Bytes) (r : Result) → covered_by w (covered_by w r) ≡ covered_by w r
covered_by_idem none r = refl
covered_by_idem (some w) r = ground arith

get_check-cover :
    (w : Bytes) (keys : List Bytes) (c : Checks) (j : Bytes)
    → is_good (get_check c w).status ≡ true
    → get_check (cover_others w keys c) j ≡ (
        if any (λ k. eq_bytes k j) keys then covered_by (some w) (get_check c j) else get_check c j)
unfolding cover_others
get_check-cover w [] c j g = refl
get_check-cover w (k ∷ ks) c j g =
    let still : is_good (get_check (cover_one w k c) w).status ≡ true =
      ground (arith, get_check-cover_one w k c w g) in
    let ih = get_check-cover w ks (cover_one w k c) j still in
    ground (arith, ih, get_check-cover_one w k c j g, covered_by_idem (some w) (get_check c j))

link_from-get_check :
    (ks : List Bytes) (c : Checks) (j : Bytes)
    → get_check (link_from ks c) j ≡ (
        if any (λ k. eq_bytes k j) stack_protection_keys
        then covered_by (first_good c ks) (get_check c j)
        else get_check c j)
unfolding link_from
link_from-get_check [] c j = ground arith
link_from-get_check (k ∷ ks) c j =
    ground (arith, link_from-get_check ks c j, get_check-cover k stack_protection_keys c j)

-- After linking, a key that is none of the three reads as before. One of the three reads as before
-- if no check passed or if it passed itself, and otherwise as passed, "Covered by" the header of
-- the first of the three that passed.
pub link_stack_protection-get_check :
    (c : Checks) (j : Bytes)
    → get_check (link_stack_protection c) j ≡ (
        if any (λ k. eq_bytes k j) stack_protection_keys
        then covered_by (first_good c stack_protection_keys) (get_check c j)
        else get_check c j)
unfolding link_stack_protection
link_stack_protection-get_check c j = link_from-get_check stack_protection_keys c j
