-- ===== src/Dyn/Symbols.antt =====
-- internal/checksec/dyn.go: `phdrSymbolNames`, `allSymbolNames` and `importedNames`.
use sec_compile_option.Base.{
  List, Option, [], any, false, get_or, if◌then◌else◌, ltb, none, not, some, suc, take, true, zero,
  ℕ, ◌++◌, ◌==◌, ◌^◌, ◌||◌, ◌∷◌,
}
use sec_compile_option.Dyn.{
  DynEntry, covers, cstr_at, dyn_tag, dynamic_strings, file_offset, parse_pt_dynamic, uint,
  vaddr_to_file_offset,
}
use sec_compile_option.Elf.{
  Class, File, Host, Prog, Symbol, class32, class64, dt_syment, dt_symtab, stt_func, sym_type,
}
use sec_compile_option.Go.Io.{fill, ok, read_at}
use sec_compile_option.Go.Run.{Run, done, out_of_fuel, panic, ◌>>=◌}
use sec_compile_option.Go.Strings.{Bytes, eq_bytes}
use sec_compile_option.Go.Words.{add64, is_negative, sle, slt, sub64}

-- The size of a symbol: DT_SYMENT if it is there and not 0.
unfoldable pub default_syment : Class → ℕ
default_syment class32 = 16
default_syment _ = 24

unfoldable pub syment_of : Class → Option ℕ → ℕ
unfolding default_syment
syment_of class none = default_syment class
syment_of class (some n) = if n == 0 then default_syment class else n

-- What is left of the first PT_LOAD that covers the table, in int64; 0 if none does.
unfoldable pub covering_limit : List Prog → ℕ → ℕ
unfolding covers
covering_limit [] symtab = 0
covering_limit (p ∷ ps) symtab =
    if covers p symtab then sub64 (add64 p.vaddr p.filesz) symtab else covering_limit ps symtab

unfoldable pub clamp_limit : ℕ → ℕ
clamp_limit limit =
    let positive = if sle limit 0 then 2 ^ 20 else limit in
    if slt (2 ^ 24) positive then 2 ^ 24 else positive

-- buf[4] or buf[12].
unfoldable pub info_index : Class → ℕ
info_index class64 = 4
info_index _ = 12

-- The name that one symbol adds: of an STT_FUNC, found in the string table, and not empty.
unfoldable pub symbol_name : File → Bytes → Bytes → List Bytes
unfolding info_index sym_type cstr_at
symbol_name f str buf =
    if not (sym_type (get_or buf (info_index f.class) 0) == stt_func)
    then []
    else elim (cstr_at str (uint f.byte_order (take 4 buf))) [
      | none ↦ []
      | some [] ↦ []
      | some (c ∷ s) ↦ (c ∷ s) ∷ []
    ]

-- The loop over the table. `off`, `limit` and `syment` are int64: a negative `syment` passes the
-- test and then slices buf[:n] with a negative n, which panics.
unfoldable pub symbol_loop : File → Option Bytes → Bytes → ℕ → ℕ → ℕ → ℕ → ℕ → Run (List Bytes)
unfolding read_at symbol_name
symbol_loop f raw str sym_off syment limit zero off = out_of_fuel
symbol_loop f raw str sym_off syment limit (suc fuel) off = elim (sle (add64 off syment) limit) [
  | false ↦ done []
  | true ↦ elim (is_negative syment) [
    | true ↦ panic
    | false ↦
        let n = if ltb 24 syment then 24 else syment in
        let r = read_at raw n (add64 sym_off off) in
        elim r.outcome [
          | ok ↦ do
            rest ← symbol_loop f raw str sym_off syment limit fuel (add64 off syment)
            done (symbol_name f str (fill 24 r.buf) ++ rest)
          | _ ↦ done []
        ]
  ]
]

-- Every round moves `off` by at least one and `limit` is positive, so limit + 1 rounds are enough.
unfoldable pub symbol_table : File → Option Bytes → ℕ → Bytes → ℕ → ℕ → Run (List Bytes)
unfolding covering_limit clamp_limit symbol_loop
symbol_table f raw symtab str syment sym_off =
    let limit = clamp_limit (covering_limit f.progs symtab) in
    symbol_loop f raw str sym_off syment limit (suc limit) 0

-- What `phdrSymbolNames` does with the entries of the dynamic section.
unfoldable pub symbols_from : File → Option Bytes → List DynEntry → Run (List Bytes)
symbols_from f raw dyns = elim (dyn_tag dyns dt_symtab) [
  | none ↦ done []
  | some symtab ↦ elim (dynamic_strings f raw dyns) [
    | none ↦ done []
    | some str ↦
        let syment = syment_of f.class (dyn_tag dyns dt_syment) in
        elim (vaddr_to_file_offset f symtab) [
          | none ↦ done []
          | some sym_off ↦ symbol_table f raw symtab str syment sym_off
        ]
  ]
]

unfoldable pub phdr_symbol_names : Host → File → Option Bytes → Run (List Bytes)
unfolding parse_pt_dynamic symbols_from dyn_tag dynamic_strings syment_of file_offset symbol_table
phdr_symbol_names host f raw = do dyns ← parse_pt_dynamic host f; symbols_from f raw dyns

-- `if raw != nil { … phdrSymbolNames(f, raw) … }`
unfoldable pub fallback_names : Host → File → Option Bytes → Run (List Bytes)
unfolding phdr_symbol_names
fallback_names host f none = done []
fallback_names host f (some content) = phdr_symbol_names host f (some content)

-- `add` of `allSymbolNames`; `seen` holds the names that are in the list.
unfoldable pub add_name : List Bytes → Bytes → List Bytes
unfolding eq_bytes
add_name names n = if eq_bytes n [] || any (λ m. eq_bytes m n) names then names else names ++ n ∷ []

unfoldable pub add_names : List Bytes → List Bytes → List Bytes
unfolding add_name
add_names names [] = names
add_names names (n ∷ ns) = add_names (add_name names n) ns

-- The names of a table; none if the table cannot be read.
unfoldable pub table_names : Option (List Symbol) → List Bytes
table_names none = []
table_names (some []) = []
table_names (some (s ∷ ss)) = s.name ∷ table_names (some ss)

unfoldable pub all_symbol_names : Host → File → Option Bytes → Run (List Bytes)
unfolding add_names table_names fallback_names
all_symbol_names host f raw = do
  let static = add_names [] (table_names f.symbols)
  let dynamic = add_names static (table_names f.dynamic_symbols)
  recovered ← fallback_names host f raw
  done (add_names dynamic recovered)

unfoldable pub nonempty_names : List Symbol → List Bytes
unfolding eq_bytes
nonempty_names [] = []
nonempty_names (s ∷ ss) =
    if not (eq_bytes s.name []) then s.name ∷ nonempty_names ss else nonempty_names ss

unfoldable pub imported_names : File → List Bytes
unfolding nonempty_names
imported_names f = elim f.dynamic_symbols [ none ↦ [] | some syms ↦ nonempty_names syms ]
