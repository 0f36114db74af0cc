-- ===== src/Fortify.antt =====
-- internal/checksec/fortify.go: FORTIFY_SOURCE coverage. The table of functions is in Fortify/Table,
-- internal/checksec/libc.go in Fortify/Libc.
mod Table
pub mod Libc
pub mod Ends
pub mod Names
pub use Table.{supported_chk_funcs}
use sec_compile_option.Base.{
  Bool, List, Option, [], any, false, if◌then◌else◌, length, ltb, map, none, not, some, take, ℕ,
  ◌++◌, ◌+◌, ◌==◌, ◌||◌, ◌∷◌,
}
use sec_compile_option.Checks.{Result, err_result, info_result, na_result, ok_result, warn_result}
use sec_compile_option.Dyn.Symbols.{add_names, fallback_names, imported_names}
use sec_compile_option.Elf.{File, Host, Symbol, stt_func, stt_notype, sym_type}
use sec_compile_option.Fortify.Table.{supported_chk_funcs}
use sec_compile_option.Go.Run.{Run, done, ◌>>=◌}
use sec_compile_option.Go.Sort.{sort_strings}
use sec_compile_option.Go.Strings.{
  Bytes, codes, eq_bytes, has_prefix, has_suffix, index_byte, itoa, trim_prefix, trim_suffix,
}

-- A fortified variant: the prefix __ and the suffix _chk or _chkieee128.
unfoldable pub is_fortify_chk_name : Bytes → Bool
unfolding has_prefix has_suffix
is_fortify_chk_name name =
    if not (has_prefix name (codes "__"))
    then false
    else has_suffix name (codes "_chk") || has_suffix name (codes "_chkieee128")

-- The name without its version: what stands before the first @.
unfoldable pub base_symbol_name : Bytes → Bytes
unfolding index_byte
base_symbol_name n = elim (index_byte n b'@') [ none ↦ n | some i ↦ take i n ]

unfoldable pub fortify_base_name : Bytes → Bytes
unfolding trim_prefix trim_suffix
fortify_base_name chk = trim_suffix (trim_prefix chk (codes "__")) (codes "_chk")

-- `add` of `fortifiedChkNames`; `seen` holds the names that are in the list.
unfoldable pub add_chk : List Bytes → Bytes → List Bytes
unfolding base_symbol_name is_fortify_chk_name
add_chk out n =
    let name = base_symbol_name n in
    if eq_bytes name [] || any (λ m. eq_bytes m name) out || not (is_fortify_chk_name name)
    then out
    else out ++ name ∷ []

unfoldable pub add_chks : List Bytes → List Bytes → List Bytes
unfolding add_chk
add_chks out [] = out
add_chks out (n ∷ ns) = add_chks (add_chk out n) ns

abbrev is_func_or_notype : ℕ → Bool
is_func_or_notype t = t == stt_func || t == stt_notype

unfoldable pub callable_names : List Symbol → List Bytes
unfolding sym_type
callable_names [] = []
callable_names (s ∷ ss) =
    if eq_bytes s.name [] || not (is_func_or_notype (sym_type s.info))
    then callable_names ss
    else s.name ∷ callable_names ss

unfoldable pub callable_table : Option (List Symbol) → List Bytes
unfolding callable_names
callable_table none = []
callable_table (some syms) = callable_names syms

unfoldable pub fortified_chk_names : Host → File → Option Bytes → Run (List Bytes)
unfolding add_chks callable_table fallback_names sort_strings
fortified_chk_names host f raw = do
  let dynamic = add_chks [] (callable_table f.dynamic_symbols)
  let static = add_chks dynamic (callable_table f.symbols)
  recovered ← fallback_names host f raw
  done (sort_strings (add_chks static recovered))

pub record FortifyResult : Type 0 where
  pub summary : Result
  pub fortified : Result
  pub fortifiable : Result

abbrev pub not_applicable : Result
not_applicable = na_result (codes "N/A")

unfoldable pub fortify_static : Host → File → Option Bytes → Run FortifyResult
fortify_static host f raw = elim f.symbols [
  | none ↦ done (record {
    summary = not_applicable;
    fortified = not_applicable;
    fortifiable = not_applicable;
  })
  | some syms ↦ do
    names ← fortified_chk_names host f raw
    done (
        if ltb 0 (length names)
        then record {
          summary = ok_result (codes "Fortified calls found");
          fortified = info_result (itoa (length names));
          fortifiable = not_applicable;
        }
        else record {
          summary = info_result (codes "No fortified calls");
          fortified = info_result (codes "0");
          fortifiable = not_applicable;
        })
]

-- The keys of the map `binaryFuncs`.
unfoldable pub binary_funcs : Host → File → Option Bytes → Run (List Bytes)
unfolding base_symbol_name imported_names fallback_names
binary_funcs host f raw = do
  recovered ← fallback_names host f raw
  done (map base_symbol_name (imported_names f) ++ map base_symbol_name recovered)

-- The keys of the map `chkBase`, each once.
unfoldable pub chk_bases : List Bytes → List Bytes
unfolding add_names fortify_base_name
chk_bases chks = add_names [] (map fortify_base_name chks)

-- The bases that the binary references.
unfoldable pub unprotected : List Bytes → List Bytes → List Bytes
unprotected funcs [] = []
unprotected funcs (base ∷ bases) =
    let rest = unprotected funcs bases in
    if any (λ m. eq_bytes m base) funcs then base ∷ rest else rest

unfoldable pub fortify_counts : ℕ → ℕ → FortifyResult
fortify_counts fortified fortifiable = record {
  summary =
      if ltb 0 fortified
      then ok_result (codes "Yes")
      else if ltb 0 fortifiable
      then warn_result (codes "No")
      else info_result (codes "No fortifiable calls");
  fortified = info_result (itoa fortified);
  fortifiable = info_result (itoa fortifiable);
}

unfoldable pub fortify_dynamic : Host → File → Option Bytes → Run FortifyResult
unfolding fortify_counts
fortify_dynamic host f raw = do
  funcs ← binary_funcs host f raw
  fortified_list ← fortified_chk_names host f raw
  let bases = chk_bases (sort_strings supported_chk_funcs)
  let fortified = length fortified_list
  done (fortify_counts fortified (fortified + length (unprotected funcs bases)))

unfoldable pub fortify : Host → Option File → Option Bytes → Bytes → Run FortifyResult
unfolding fortify_static fortify_dynamic
fortify host none raw libc_path = done (record {
  summary = err_result (codes "fortify");
  fortified = not_applicable;
  fortifiable = not_applicable;
})
fortify host (some f) raw libc_path =
    if eq_bytes libc_path (codes "none")
    then fortify_static host f raw
    else fortify_dynamic host f raw
