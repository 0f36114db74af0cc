-- ===== src/Checks/Binding.antt =====
-- internal/checksec/bindnow.go, relro.go: immediate binding and RELRO.
use sec_compile_option.Base.{
  Bool, List, Option, [], false, if◌then◌else◌, none, some, true, ℕ, ◌||◌, ◌∷◌,
}
use sec_compile_option.Checks.{
  Result, bad_result, err_result, has_segment, na_result, ok_result, warn_result,
}
use sec_compile_option.Dyn.{dyn_tag, parse_pt_dynamic}
use sec_compile_option.Elf.{
  File, Host, Prog, df_1_now, df_bind_now, dt_bind_now, dt_flags, dt_flags_1, has_flag,
  pt_gnu_relro,
}
use sec_compile_option.Go.Run.{Run, done, ◌>>=◌}
use sec_compile_option.Go.Strings.{codes}

-- The first value of an integer tag, as f.DynValue gives it: `err == nil && len(v) > 0`.
unfoldable pub first_value : Option (List ℕ) → Option ℕ
first_value (some (v ∷ vs)) = some v
first_value _ = none

abbrev pub flag_set : Option ℕ → ℕ → Bool
flag_set none mask = false
flag_set (some v) mask = has_flag v mask

abbrev pub is_some : Option ℕ → Bool
is_some none = false
is_some (some v) = true

-- The three signals, from any reading of the dynamic section.
unfoldable pub signals_now : (ℕ → Option ℕ) → Bool
signals_now read =
    is_some (read dt_bind_now)
    || flag_set (read dt_flags) df_bind_now
    || flag_set (read dt_flags_1) df_1_now

unfoldable pub bind_now_of : Host → File → Run Bool
unfolding signals_now first_value dyn_tag
bind_now_of host f =
    if signals_now (λ t. first_value (f.dyn_value t))
    then done true
    else do dyns ← parse_pt_dynamic host f; done (signals_now (dyn_tag dyns))

unfoldable pub bind_now : Host → Option File → Run Result
unfolding bind_now_of
bind_now host none = done (err_result (codes "bind_now"))
bind_now host (some f) = do
  now ← bind_now_of host f
  done (if now then ok_result (codes "Bind now") else bad_result (codes "Lazy binding"))

unfoldable pub relro_verdict : Host → File → Run Result
unfolding bind_now_of has_segment
relro_verdict host f =
    if has_segment pt_gnu_relro f.progs
    then (do
      now ← bind_now_of host f
      done (if now then ok_result (codes "Full RELRO") else warn_result (codes "Partial RELRO")))
    else done (bad_result (codes "No RELRO"))

unfoldable pub no_progs : List Prog → Bool
no_progs [] = true
no_progs (p ∷ ps) = false

unfoldable pub relro : Host → Option File → Run Result
unfolding relro_verdict no_progs
relro host none = done (na_result (codes "N/A"))
relro host (some f) =
    if no_progs f.progs then done (na_result (codes "N/A")) else relro_verdict host f
