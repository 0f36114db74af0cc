-- ===== src/Dyn/Rounds.antt =====
-- The loop of `phdrSymbolNames`: it ends, and the sizes of a symbol at which it panics.
use native.Mathlib.Decide.{dec_lt}
use sec_compile_option.Base.{
  Bool-cases, List, Option, Option-cases, [], arith, inl, inr, leb→le, none, refl, some, suc, true,
  zero, ℕ, ◌+◌, ◌<◌, ◌^◌, ◌↔◌, ◌∷◌, ◌≡◌, ◌≢◌, ◌≤◌, ◌⊎◌,
}
use sec_compile_option.Dyn.{
  DynEntry, dyn_tag, dynamic_strings, parse_pt_dynamic, pt_dynamic_entries, vaddr_to_file_offset,
}
use sec_compile_option.Dyn.Symbols.{
  clamp_limit, covering_limit, phdr_symbol_names, symbol_loop, symbol_table, symbols_from,
  syment_of,
}
use sec_compile_option.Elf.{
  Class, File, Host, Prog, class32, class64, class_none, dt_syment, dt_symtab,
}
use sec_compile_option.Go.Run.{done, ends-bind, out_of_fuel, panic}
use sec_compile_option.Go.Strings.{Bytes}
use sec_compile_option.Go.Words.{add64, is_negative, sle, two63, two64}

-- What holds of `off` at the test of each round.
record IsRound (syment limit off : ℕ) : Type 0 where
  positive : 0 < limit
  capped : limit ≤ 2 ^ 24
  size : 0 < syment
  within : off ≤ limit
  moved : (off ≡ 0) ⊎ (syment ≤ limit)

clamp_limit_bounds : (n : ℕ) → n < two64 → (0 < clamp_limit n) × (clamp_limit n ≤ 2 ^ 24)
unfolding clamp_limit
clamp_limit_bounds n h = ground arith

covering_limit-lt : (ps : List Prog) (v : ℕ) → covering_limit ps v < two64
unfolding covering_limit
covering_limit-lt [] v = omega arith
covering_limit-lt (p ∷ ps) v = ground (arith, covering_limit-lt ps v)

syment_of-pos : (c : Class) (o : Option ℕ) → 0 < syment_of c o
unfolding syment_of
syment_of-pos class32 none = omega arith
syment_of-pos class64 none = omega arith
syment_of-pos class_none none = omega arith
syment_of-pos class32 (some n) = ground arith
syment_of-pos class64 (some n) = ground arith
syment_of-pos class_none (some n) = ground arith

-- A round that passes the test with a size that is not negative moves `off` by that size.
next_off :
    (syment limit off : ℕ)
    → IsRound syment limit off
    → syment < two63
    → sle (add64 off syment) limit ≡ true
    → (add64 off syment ≡ off + syment) × (off + syment ≤ limit)
next_off syment limit off r h t = omega (arith, leb→le _ _ t)

next-IsRound :
    (syment limit off : ℕ)
    → IsRound syment limit off
    → syment < two63
    → sle (add64 off syment) limit ≡ true
    → IsRound syment limit (add64 off syment)
next-IsRound syment limit off r h t = omega (arith, next_off syment limit off r h t)

symbol_loop-ends :
    (f : File) (raw : Option Bytes) (str : Bytes) (sym_off syment limit fuel off : ℕ)
    → IsRound syment limit off
    → limit < off + fuel
    → symbol_loop f raw str sym_off syment limit fuel off ≢ out_of_fuel
unfolding symbol_loop
symbol_loop-ends f raw str sym_off syment limit zero off r h = absurd (omega arith)
symbol_loop-ends f raw str sym_off syment limit (suc fuel) off r h =
    elim (Bool-cases (sle (add64 off syment) limit)) [
      | inr stop ↦ ground (arith, stop)
      | inl t ↦ elim (Bool-cases (is_negative syment)) [
        | inl negative ↦ ground (arith, t, negative)
        | inr nn ↦
            let small : syment < two63 = ground arith in
            let next = next_off syment limit off r small t in
            let ih =
              symbol_loop-ends f raw str sym_off syment limit fuel (add64 off syment)
                (next-IsRound syment limit off r small t) (omega (arith, next)) in
            ground (arith, ih)
      ]
    ]

symbol_table-ends :
    (f : File) (raw : Option Bytes) (symtab : ℕ) (str : Bytes) (syment sym_off : ℕ)
    → 0 < syment
    → symbol_table f raw symtab str syment sym_off ≢ out_of_fuel
unfolding symbol_table
symbol_table-ends f raw symtab str syment sym_off h =
    let limit = clamp_limit (covering_limit f.progs symtab) in
    let (positive, capped) = clamp_limit_bounds _ (covering_limit-lt f.progs symtab) in
    symbol_loop-ends f raw str sym_off syment limit (suc limit) 0
      (record {
        positive = positive;
        capped = capped;
        size = h;
        within = omega arith;
        moved = inl refl;
      })
      (omega arith)

-- What `symbols_from` does where the dynamic section leads to a table.
pub record ReachesTable (f : File) (raw : Option Bytes) (dyns : List DynEntry) : Type 0 where
  pub symtab : ℕ
  pub str : Bytes
  pub sym_off : ℕ
  pub has_symtab : dyn_tag dyns dt_symtab ≡ some symtab
  pub has_strings : dynamic_strings f raw dyns ≡ some str
  pub has_offset : vaddr_to_file_offset f symtab ≡ some sym_off

pt_dynamic_entries-ends :
    (host : Host) (f : File) (ps : List Prog) → pt_dynamic_entries host f ps ≢ out_of_fuel
unfolding pt_dynamic_entries
pt_dynamic_entries-ends host f [] = ground arith
pt_dynamic_entries-ends host f (p ∷ ps) = ground (arith, pt_dynamic_entries-ends host f ps)

pub parse_pt_dynamic-ends : (host : Host) (f : File) → parse_pt_dynamic host f ≢ out_of_fuel
parse_pt_dynamic-ends host f = unfold parse_pt_dynamic in pt_dynamic_entries-ends host f f.progs

symbol_loop-no_panic :
    (f : File) (raw : Option Bytes) (str : Bytes) (sym_off syment limit fuel off : ℕ)
    → syment < two63
    → symbol_loop f raw str sym_off syment limit fuel off ≢ panic
unfolding symbol_loop
symbol_loop-no_panic f raw str sym_off syment limit zero off h = ground arith
symbol_loop-no_panic f raw str sym_off syment limit (suc fuel) off h =
    ground (arith, symbol_loop-no_panic f raw str sym_off syment limit fuel (add64 off syment) h)

symbol_loop_panic :
    (f : File) (raw : Option Bytes) (str : Bytes) (sym_off syment limit fuel : ℕ)
    → 0 < limit
    → limit ≤ 2 ^ 24
    → two63 ≤ syment
    → syment < two64
    → symbol_loop f raw str sym_off syment limit (suc fuel) 0 ≡ panic
unfolding symbol_loop
symbol_loop_panic f raw str sym_off syment limit fuel hp hc h w =
    let t : sle (add64 0 syment) limit ≡ true = ground arith in
    let neg : is_negative syment ≡ true = ground arith in ground (arith, t, neg)

-- The size of a symbol, as `phdrSymbolNames` takes it from the dynamic section.
abbrev pub size_of_symbol : File → List DynEntry → ℕ
size_of_symbol f dyns = syment_of f.class (dyn_tag dyns dt_syment)

symbols_from_cases :
    (f : File) (raw : Option Bytes) (dyns : List DynEntry)
    → (symbols_from f raw dyns ≡ done []) ⊎ ReachesTable f raw dyns
unfolding symbols_from
symbols_from_cases f raw dyns = elim (Option-cases (dyn_tag dyns dt_symtab)) [
  | inl e ↦ inl (ground (arith, e))
  | inr (symtab, e) ↦ elim (Option-cases (dynamic_strings f raw dyns)) [
    | inl e' ↦ inl (ground (arith, e, e'))
    | inr (str, e') ↦ elim (Option-cases (vaddr_to_file_offset f symtab)) [
      | inl q ↦ inl (ground (arith, e, e', q))
      | inr (sym_off, q) ↦ inr (record {
        symtab = symtab;
        str = str;
        sym_off = sym_off;
        has_symtab = e;
        has_strings = e';
        has_offset = q;
      })
    ]
  ]
]

symbols_from_table :
    (f : File) (raw : Option Bytes) (dyns : List DynEntry) (t : ReachesTable f raw dyns)
    → symbols_from f raw dyns ≡ symbol_table f raw t.symtab t.str (size_of_symbol f dyns) t.sym_off
unfolding symbols_from
symbols_from_table f raw dyns t = ground (arith, t.has_symtab, t.has_strings, t.has_offset)

symbols_from-ends :
    (f : File) (raw : Option Bytes) (dyns : List DynEntry) → symbols_from f raw dyns ≢ out_of_fuel
symbols_from-ends f raw dyns = elim (symbols_from_cases f raw dyns) [
  | inl e ↦ ground (arith, e)
  | inr t ↦
      rw (symbols_from_table f raw dyns t)
        (symbol_table-ends f raw t.symtab t.str _ t.sym_off (syment_of-pos f.class _))
]

-- The fuel of the loop always suffices: `phdrSymbolNames` ends on every file.
pub phdr_symbol_names-ends :
    (host : Host) (f : File) (raw : Option Bytes) → phdr_symbol_names host f raw ≢ out_of_fuel
unfolding phdr_symbol_names parse_pt_dynamic
phdr_symbol_names-ends host f raw =
    ends-bind (parse_pt_dynamic host f) _ (parse_pt_dynamic-ends host f) (symbols_from-ends f raw)

symbol_table-panic_iff :
    (f : File) (raw : Option Bytes) (symtab : ℕ) (str : Bytes) (syment sym_off : ℕ)
    → syment < two64
    → (symbol_table f raw symtab str syment sym_off ≡ panic) ↔ (two63 ≤ syment)
unfolding symbol_table
symbol_table-panic_iff f raw symtab str syment sym_off w =
    let limit = clamp_limit (covering_limit f.progs symtab) in
    let (positive, capped) = clamp_limit_bounds _ (covering_limit-lt f.progs symtab) in
    (
      λ e. elim (dec_lt syment two63) [
        | yes small ↦
            absurd (symbol_loop-no_panic f raw str sym_off syment limit (suc limit) 0 small e)
        | no large ↦ omega arith
      ],
      λ h. symbol_loop_panic f raw str sym_off syment limit limit positive capped h w,
    )

-- Where the dynamic section leads to a symbol table and DT_SYMENT is a uint64, the scan of the table
-- panics exactly if the size of a symbol is 2^63 or more.
pub symbols_from-panic_iff :
    (f : File) (raw : Option Bytes) (dyns : List DynEntry)
    → ReachesTable f raw dyns
    → size_of_symbol f dyns < two64
    → (symbols_from f raw dyns ≡ panic) ↔ (two63 ≤ size_of_symbol f dyns)
symbols_from-panic_iff f raw dyns t w =
    rw (symbols_from_table f raw dyns t) (symbol_table-panic_iff f raw t.symtab t.str _ t.sym_off w)
