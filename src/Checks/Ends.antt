-- ===== src/Checks/Ends.antt =====
-- Every check ends: the only loop with fuel is that of `phdrSymbolNames`.
use sec_compile_option.Base.{List, Option, [], arith, none, some, ℕ, ◌∷◌, ◌≢◌}
use sec_compile_option.Checks.Binding.{bind_now, bind_now_of, relro}
use sec_compile_option.Checks.Position.{pic, pie}
use sec_compile_option.Checks.Rpath.{dynamic_strings_for, rpath, runpath}
use sec_compile_option.Checks.Stack.{canary, pac_cfi, scan_executable}
use sec_compile_option.Dyn.Rounds.{parse_pt_dynamic-ends, phdr_symbol_names-ends}
use sec_compile_option.Dyn.Symbols.{all_symbol_names, fallback_names}
use sec_compile_option.Elf.{File, Host, Prog, dt_rpath, dt_runpath}
use sec_compile_option.Go.Run.{out_of_fuel}
use sec_compile_option.Go.Strings.{Bytes}

module _ (host : Host) where
  bind_now_of-ends : (f : File) → bind_now_of host f ≢ out_of_fuel
  unfolding bind_now_of
  bind_now_of-ends f = ground (arith, parse_pt_dynamic-ends host f)

  pub bind_now-ends : (f : Option File) → bind_now host f ≢ out_of_fuel
  unfolding bind_now
  bind_now-ends none = ground arith
  bind_now-ends (some f) = ground (arith, bind_now_of-ends f)

  pub relro-ends : (f : Option File) → relro host f ≢ out_of_fuel
  unfolding relro
  relro-ends none = ground arith
  relro-ends (some f) = ground (arith, bind_now_of-ends f)

  pub fallback_names-ends :
      (f : File) (raw : Option Bytes) → fallback_names host f raw ≢ out_of_fuel
  fallback_names-ends f none = unfold fallback_names in ground arith
  fallback_names-ends f (some content) =
      unfold fallback_names in phdr_symbol_names-ends host f (some content)

  pub canary-ends : (f : Option File) (raw : Option Bytes) → canary host f raw ≢ out_of_fuel
  unfolding canary all_symbol_names
  canary-ends none raw = ground arith
  canary-ends (some f) raw = ground (arith, fallback_names-ends f raw)

  scan_executable-ends : (ps : List Prog) → scan_executable host ps ≢ out_of_fuel
  unfolding scan_executable
  scan_executable-ends [] = ground arith
  scan_executable-ends (p ∷ ps) = ground (arith, scan_executable-ends ps)

  pub pac_cfi-ends : (f : Option File) → pac_cfi host f ≢ out_of_fuel
  unfolding pac_cfi
  pac_cfi-ends none = ground arith
  pac_cfi-ends (some f) = ground (arith, scan_executable-ends f.progs)

  pub pie-ends : (f : Option File) → pie host f ≢ out_of_fuel
  unfolding pie
  pie-ends none = ground arith
  pie-ends (some f) = ground (arith, parse_pt_dynamic-ends host f)

  pub pic-ends : (f : Option File) → pic host f ≢ out_of_fuel
  unfolding pic
  pic-ends none = ground arith
  pic-ends (some f) = ground (arith, parse_pt_dynamic-ends host f)

  dynamic_strings_for-ends :
      (f : File) (raw : Option Bytes) (t : ℕ) → dynamic_strings_for host f raw t ≢ out_of_fuel
  unfolding dynamic_strings_for
  dynamic_strings_for-ends f raw t = ground (arith, parse_pt_dynamic-ends host f)

  pub rpath-ends : (f : Option File) (raw : Option Bytes) → rpath host f raw ≢ out_of_fuel
  unfolding rpath
  rpath-ends none raw = ground arith
  rpath-ends (some f) raw = ground (arith, dynamic_strings_for-ends f raw dt_rpath)

  pub runpath-ends : (f : Option File) (raw : Option Bytes) → runpath host f raw ≢ out_of_fuel
  unfolding runpath
  runpath-ends none raw = ground arith
  runpath-ends (some f) raw = ground (arith, dynamic_strings_for-ends f raw dt_runpath)
