-- ===== src/Command/Ends.antt =====
-- `run` ends, with one of the exit codes of the usage text.
use sec_compile_option.Base.{
  Bool, Bool-cases, List, Option, Option-cases, [], arith, if◌then◌else◌, inl, inr, none, refl,
  some, ℕ, ◌∷◌, ◌≢◌, ◌≤◌,
}
use sec_compile_option.Command.{
  Cmd, check_all, check_paths, command_of, dir_cmd, file_cmd, gate, help_cmd, is_format, list_cmd,
  run, run_command, run_parsed, run_targets, targets, version_cmd,
}
use sec_compile_option.Command.Flags.{
  Parsed, Settings, common_flags, dir_flags, flag_error, parse_flags, parsed, reorder_args,
}
use sec_compile_option.Command.Flags.Items.{written}
use sec_compile_option.Command.Targets.{FileSystem}
use sec_compile_option.Elf.{Host}
use sec_compile_option.Go.Run.{Run, done, ends-bind, out_of_fuel, panic, ◌>>=◌}
use sec_compile_option.Go.Strings.{Bytes}
use sec_compile_option.Report.{FileReport, check_file}
use sec_compile_option.Report.Keys.{check_file-ends}

-- The run ends: with an exit code from 0 to 2, or with a panic.
pub data IsExit : Run ℕ → Type 0 where
  exited : {n : ℕ} → n ≤ 2 → IsExit (done n)
  panicked : IsExit panic

IsExit-bind {ℓ} :
    {A : Type ℓ} (m : Run A) (f : A → ℕ)
    → m ≢ out_of_fuel
    → ((a : A) → f a ≤ 2)
    → IsExit (do a ← m; done (f a))
IsExit-bind (done a) f h k = exited (k a)
IsExit-bind panic f h k = panicked
IsExit-bind out_of_fuel f h k = absurd (h refl)

check_all-ends : (host : Host) (paths : List Bytes) → check_all host paths ≢ out_of_fuel
unfolding check_all
check_all-ends host [] = λ e. cc
check_all-ends host (p ∷ ps) =
    ends-bind (check_file host p) _ (check_file-ends host p)
      λ r. ends-bind (check_all host ps) _ (check_all-ends host ps) λ rs. λ e. cc

exit_code :
    (b : Bool) (format : Bytes) (reports : List FileReport)
    → (if b then gate format reports else 1) ≤ 2
unfolding gate
exit_code b format reports = ground arith

check_paths-IsExit :
    (host : Host) (written : List FileReport → Bool) (format : Bytes) (paths : List Bytes)
    → IsExit (check_paths host written format paths)
unfolding check_paths
check_paths-IsExit host written format [] = exited (omega arith)
check_paths-IsExit host written format (p ∷ ps) =
    IsExit-bind (check_all host (p ∷ ps))
      (λ reports. if written reports then gate format reports else 1) (check_all-ends host (p ∷ ps))
      (λ reports. exit_code (written reports) format reports)

module _ (host : Host) (fs : FileSystem) (written : Bytes → List FileReport → Bool) where
  run_targets-IsExit :
      (cmd : Cmd) (settings : Settings) (rest : List Bytes)
      → IsExit (run_targets host fs written cmd settings rest)
  unfolding run_targets
  run_targets-IsExit cmd settings rest = elim (Option-cases (targets fs cmd settings rest)) [
    | inl e ↦ rw (run_targets, e) (exited (omega arith))
    | inr (paths, e) ↦
        rw (run_targets, e)
          (check_paths-IsExit host (written settings.format) settings.format paths)
  ]

  run_parsed-IsExit : (cmd : Cmd) (p : Parsed) → IsExit (run_parsed host fs written cmd p)
  unfolding run_parsed
  run_parsed-IsExit cmd flag_error = exited (omega arith)
  run_parsed-IsExit cmd (parsed settings []) = exited (omega arith)
  run_parsed-IsExit cmd (parsed settings (t ∷ rest)) =
      elim (Bool-cases (is_format settings.format)) [
        | inl e ↦ rw e (run_targets-IsExit cmd settings (t ∷ rest))
        | inr e ↦ rw e (exited (omega arith))
      ]

  run_command-IsExit :
      (cmd : Option Cmd) (args : List Bytes) → IsExit (run_command host fs written cmd args)
  unfolding run_command
  run_command-IsExit none args = exited (omega arith)
  run_command-IsExit (some version_cmd) args = exited (omega arith)
  run_command-IsExit (some help_cmd) args = exited (omega arith)
  run_command-IsExit (some dir_cmd) args =
      run_parsed-IsExit dir_cmd (parse_flags dir_flags (reorder_args dir_flags args))
  run_command-IsExit (some file_cmd) args =
      run_parsed-IsExit file_cmd (parse_flags common_flags (reorder_args common_flags args))
  run_command-IsExit (some list_cmd) args =
      run_parsed-IsExit list_cmd (parse_flags common_flags (reorder_args common_flags args))

  -- For all arguments, files and hosts the program ends: no loop runs out of its fuel. If it does not
  -- panic, its exit code is 0, 1 or 2.
  pub run-IsExit : (args : List Bytes) → IsExit (run host fs written args)
  unfolding run
  run-IsExit [] = exited (omega arith)
  run-IsExit (cmd ∷ args) = run_command-IsExit (command_of cmd) args
