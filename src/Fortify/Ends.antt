-- ===== src/Fortify/Ends.antt =====
-- FORTIFY analysis ends, for every file.
use sec_compile_option.Base.{Bool-cases, Option, arith, inl, inr, none, some, ◌≢◌}
use sec_compile_option.Checks.Ends.{fallback_names-ends}
use sec_compile_option.Dyn.Rounds.{parse_pt_dynamic-ends}
use sec_compile_option.Dyn.Symbols.{fallback_names}
use sec_compile_option.Elf.{File, Host}
use sec_compile_option.Fortify.{
  binary_funcs, fortified_chk_names, fortify, fortify_dynamic, fortify_static,
}
use sec_compile_option.Fortify.Libc.{resolve_libc_flag}
use sec_compile_option.Go.Run.{ends-bind, out_of_fuel}
use sec_compile_option.Go.Strings.{Bytes, codes, eq_bytes}

module _ (host : Host) where
  fortified_chk_names-ends :
      (f : File) (raw : Option Bytes) → fortified_chk_names host f raw ≢ out_of_fuel
  unfolding fortified_chk_names
  fortified_chk_names-ends f raw =
      ends-bind (fallback_names host f raw) _ (fallback_names-ends host f raw) λ ns. λ e. cc

  binary_funcs-ends : (f : File) (raw : Option Bytes) → binary_funcs host f raw ≢ out_of_fuel
  unfolding binary_funcs
  binary_funcs-ends f raw =
      ends-bind (fallback_names host f raw) _ (fallback_names-ends host f raw) λ ns. λ e. cc

  fortify_dynamic-ends : (f : File) (raw : Option Bytes) → fortify_dynamic host f raw ≢ out_of_fuel
  unfolding fortify_dynamic
  fortify_dynamic-ends f raw =
      ends-bind (binary_funcs host f raw) _ (binary_funcs-ends f raw) λ funcs.
        ends-bind (fortified_chk_names host f raw) _ (fortified_chk_names-ends f raw) λ ns. λ e. cc

  fortify_static-ends : (f : File) (raw : Option Bytes) → fortify_static host f raw ≢ out_of_fuel
  unfolding fortify_static
  fortify_static-ends f raw = ground (arith, fortified_chk_names-ends f raw)

  pub fortify-ends :
      (f : Option File) (raw : Option Bytes) (libc : Bytes) → fortify host f raw libc ≢ out_of_fuel
  fortify-ends none raw libc = λ e. unfold fortify in cc
  fortify-ends (some f) raw libc = elim (Bool-cases (eq_bytes libc (codes "none"))) [
    | inl e ↦ unfold fortify in rw e (fortify_static-ends f raw)
    | inr e ↦ unfold fortify in rw e (fortify_dynamic-ends f raw)
  ]

  pub resolve_libc_flag-ends :
      (f : File) (raw : Option Bytes) → resolve_libc_flag host f raw ≢ out_of_fuel
  unfolding resolve_libc_flag
  resolve_libc_flag-ends f raw = ground (arith, parse_pt_dynamic-ends host f)
