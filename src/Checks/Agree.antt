-- ===== src/Checks/Agree.antt =====
-- RELRO and immediate binding, and the stack canary, against descriptions of their own.
use sec_compile_option.Base.{
  Bool, Bool-cases, List, Option, [], any, ap, arith, false, if◌then◌else◌, inl, inr, not, or_false,
  refl, some, sym, true, ◌&&◌, ◌++◌, ◌||◌, ◌∙◌, ◌∷◌, ◌≡◌,
}
use sec_compile_option.Checks.{Result, bad_result, has_segment, is_bad, is_good, ok_result}
use sec_compile_option.Checks.Binding.{bind_now, no_progs, relro, relro_verdict}
use sec_compile_option.Checks.Stack.{canary, is_canary_symbol}
use sec_compile_option.Dyn.Symbols.{
  add_name, add_names, all_symbol_names, fallback_names, table_names,
}
use sec_compile_option.Elf.{File, Host, pt_gnu_relro}
use sec_compile_option.Go.Run.{Run, done, out_of_fuel, panic, ◌>>=◌}
use sec_compile_option.Go.Strings.{Bytes, codes, eq_bytes, eq_bytes_iff}

-- The RELRO and the BIND_NOW verdict of a file, where both are reached, agree: RELRO passes exactly if the file has a
-- PT_GNU_RELRO segment and BIND_NOW passes, and fails exactly if there are program headers and none
-- is a PT_GNU_RELRO segment.
pub relro-bind_now :
    (host : Host) (f : File) {r b : Result}
    → relro host (some f) ≡ done r
    → bind_now host (some f) ≡ done b
    → (is_good r.status ≡ (has_segment pt_gnu_relro f.progs && is_good b.status))
      × (is_bad r.status ≡ not (no_progs f.progs || has_segment pt_gnu_relro f.progs))
unfolding relro relro_verdict bind_now has_segment no_progs
relro-bind_now host f h k = ground arith

absorb : (a b : Bool) → ((a || b) || a) ≡ (a || b)
absorb a b = ground arith

or_assoc : (a b c : Bool) → ((a || b) || c) ≡ (a || (b || c))
or_assoc a b c = ground arith

module _ (p : Bytes → Bool) where
  any-append : (xs ys : List Bytes) → any p (xs ++ ys) ≡ (any p xs || any p ys)
  any-append [] ys = refl
  any-append (x ∷ xs) ys = ground (arith, any-append xs ys)

  any_repeated :
      (n : Bytes) (xs : List Bytes)
      → any (λ m. eq_bytes m n) xs ≡ true
      → (any p xs || p n) ≡ any p xs
  any_repeated n [] h = absurd (cc)
  any_repeated n (x ∷ xs) h = elim (Bool-cases (eq_bytes x n)) [
    | inl q ↦ rw ((eq_bytes_iff x n).0 q) (absorb (p n) (any p xs))
    | inr q ↦ rw (or_assoc (p x) (any p xs) (p n), any_repeated n xs (ground (arith, q, h))) refl
  ]

  module _ (empty : p [] ≡ false) where
    any-add_name :
        (names : List Bytes) (n : Bytes) → any p (add_name names n) ≡ (any p names || p n)
    unfolding add_name
    any-add_name names n = elim (Bool-cases (eq_bytes n [])) [
      | inl q ↦ rw ((eq_bytes_iff n []).0 q, empty) (sym (or_false (any p names)))
      | inr q ↦ elim (Bool-cases (any (λ m. eq_bytes m n) names)) [
        | inl d ↦ rw (q, d, any_repeated n names d) refl
        | inr d ↦ rw (q, d, any-append names (n ∷ []), or_false (p n)) refl
      ]
    ]

    any-add_names : (names ns : List Bytes) → any p (add_names names ns) ≡ (any p names || any p ns)
    unfolding add_names
    any-add_names names [] = sym (or_false (any p names))
    any-add_names names (n ∷ ns) =
        any-add_names (add_name names n) ns
        ∙ rw (any-add_name names n, or_assoc (any p names) (p n) (any p ns)) refl

abbrev canary_verdict : Bool → Result
canary_verdict b =
    if b then ok_result (codes "Canary found") else bad_result (codes "No canary found")

canary_search :
    (static dynamic : List Bytes) (m : Run (List Bytes))
    → ((m >>= λ r. done (add_names (add_names (add_names [] static) dynamic) r)) >>= λ names.
        done (canary_verdict (any is_canary_symbol names)))
      ≡ (m >>= λ r. done (canary_verdict (any is_canary_symbol (static ++ (dynamic ++ r)))))
canary_search static dynamic panic = refl
canary_search static dynamic out_of_fuel = refl
canary_search static dynamic (done r) =
    let p = is_canary_symbol in
    let empty : p [] ≡ false = unfold is_canary_symbol in refl in
    ap (λ b. done (canary_verdict b))
      (rw
        (
          any-add_names p empty (add_names (add_names [] static) dynamic) r,
          any-add_names p empty (add_names [] static) dynamic,
          any-add_names p empty [] static,
          any-append p static (dynamic ++ r),
          any-append p dynamic r,
        )
        (or_assoc (any p static) (any p dynamic) (any p r)))

-- The canary is found exactly if a name of one of the two symbol tables, or one that is recovered
-- through the program headers, starts like one of the canary's symbols: leaving out empty and
-- repeated names changes nothing.
pub canary-any :
    (host : Host) (f : File) (raw : Option Bytes)
    → canary host (some f) raw ≡ (
        fallback_names host f raw >>= λ recovered. done (
          if any is_canary_symbol
            (table_names f.symbols ++ (table_names f.dynamic_symbols ++ recovered))
          then ok_result (codes "Canary found")
          else bad_result (codes "No canary found")))
unfolding canary all_symbol_names
canary-any host f raw =
    canary_search (table_names f.symbols) (table_names f.dynamic_symbols)
      (fallback_names host f raw)
