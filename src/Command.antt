-- ===== src/Command.antt =====
-- cmd/scc/main.go: the command line and the exit code of the program. `reorderArgs` and the flags
-- are in Command/Flags, `collectDir` and `readList` in Command/Targets.
pub mod Flags
pub mod Targets
pub mod Gate
pub mod Ends
use sec_compile_option.Base.{
  Bool, List, Option, [], any, false, if◌then◌else◌, ltb, none, not, some, true, ℕ, ◌||◌, ◌∷◌,
}
use sec_compile_option.Checks.{is_bad}
use sec_compile_option.Command.Flags.{
  Parsed, Settings, common_flags, dir_flags, flag_error, parse_flags, parsed, reorder_args,
}
use sec_compile_option.Command.Targets.{FileSystem, collect_dir, read_list}
use sec_compile_option.Compliance.{compliance}
use sec_compile_option.Elf.{Host}
use sec_compile_option.Go.Run.{Run, done, ◌>>=◌}
use sec_compile_option.Go.Strings.{Bytes, codes, eq_bytes, has_prefix}
use sec_compile_option.Report.{FileReport, check_file, get_check, stack_protection_passed}

abbrev pub fail_keys : List Bytes
fail_keys =
    codes "relro"
    ∷ codes "canary"
    ∷ codes "nx"
    ∷ codes "pie"
    ∷ codes "pic"
    ∷ codes "bind_now"
    ∷ codes "rpath"
    ∷ []

unfoldable pub fails_on : FileReport → List Bytes → Bool
fails_on r [] = false
fails_on r (k ∷ ks) =
    let rest = fails_on r ks in
    if eq_bytes k (codes "canary")
    then (if not (stack_protection_passed r) then true else rest)
    else if is_bad (get_check r.checks k).status
    then true
    else rest

unfoldable pub has_failures : List FileReport → Bool
unfolding fails_on
has_failures [] = false
has_failures (r ∷ rs) =
    let rest = has_failures rs in
    if not (eq_bytes r.error []) then true else if fails_on r fail_keys then true else rest

unfoldable pub has_violations : List FileReport → Bool
has_violations [] = false
has_violations (r ∷ rs) =
    let rest = has_violations rs in if ltb 0 (compliance r).fail then true else rest

unfoldable pub check_all : Host → List Bytes → Run (List FileReport)
check_all host [] = done []
check_all host (p ∷ ps) = do r ← check_file host p; rs ← check_all host ps; done (r ∷ rs)

-- The exit code once the reports are printed; `written` is whether the printer had no error.
unfoldable pub gate : Bytes → List FileReport → ℕ
unfolding has_failures has_violations
gate format reports =
    if has_prefix format (codes "compliance")
    then (if has_violations reports then 2 else 0)
    else if has_failures reports
    then 2
    else 0

-- From the list of paths to the exit code.
unfoldable pub check_paths : Host → (List FileReport → Bool) → Bytes → List Bytes → Run ℕ
unfolding gate check_all
check_paths host written format [] = done 0
check_paths host written format (p ∷ ps) = do
  reports ← check_all host (p ∷ ps)
  done (if written reports then gate format reports else 1)

abbrev pub formats : List Bytes
formats =
    codes "table"
    ∷ codes "json"
    ∷ codes "csv"
    ∷ codes "xml"
    ∷ codes "compliance"
    ∷ codes "compliance-json"
    ∷ []

unfoldable pub is_format : Bytes → Bool
is_format format = any (λ f. eq_bytes format f) formats

pub data Cmd : Type 0 where
  file_cmd dir_cmd list_cmd version_cmd help_cmd : Cmd

unfoldable pub command_of : Bytes → Option Cmd
command_of s =
    if eq_bytes s (codes "file")
    then some file_cmd
    else if eq_bytes s (codes "dir")
    then some dir_cmd
    else if eq_bytes s (codes "list")
    then some list_cmd
    else if eq_bytes s (codes "version")
        || eq_bytes s (codes "--version")
        || eq_bytes s (codes "-v")
    then some version_cmd
    else if eq_bytes s (codes "help") || eq_bytes s (codes "--help") || eq_bytes s (codes "-h")
    then some help_cmd
    else none

-- The paths that a command names; none for an IO error.
unfoldable pub targets : FileSystem → Cmd → Settings → List Bytes → Option (List Bytes)
unfolding collect_dir read_list
targets fs dir_cmd settings (t ∷ rest) = collect_dir fs t settings.recursive
targets fs list_cmd settings (t ∷ rest) = read_list fs t
targets fs _ settings rest = some rest

unfoldable pub run_targets :
    Host → FileSystem → (Bytes → List FileReport → Bool) → Cmd → Settings → List Bytes → Run ℕ
unfolding targets check_paths
run_targets host fs written cmd settings rest = elim (targets fs cmd settings rest) [
  | none ↦ done 1
  | some paths ↦ check_paths host (written settings.format) settings.format paths
]

unfoldable pub run_parsed :
    Host → FileSystem → (Bytes → List FileReport → Bool) → Cmd → Parsed → Run ℕ
unfolding run_targets is_format
run_parsed host fs written cmd flag_error = done 1
run_parsed host fs written cmd (parsed settings []) = done 1
run_parsed host fs written cmd (parsed settings (t ∷ rest)) =
    if not (is_format settings.format)
    then done 1
    else run_targets host fs written cmd settings (t ∷ rest)

unfoldable pub run_command :
    Host → FileSystem → (Bytes → List FileReport → Bool) → Option Cmd → List Bytes → Run ℕ
unfolding run_parsed reorder_args parse_flags
run_command host fs written none args = done 1
run_command host fs written (some version_cmd) args = done 0
run_command host fs written (some help_cmd) args = done 0
run_command host fs written (some dir_cmd) args =
    run_parsed host fs written dir_cmd (parse_flags dir_flags (reorder_args dir_flags args))
run_command host fs written (some cmd) args =
    run_parsed host fs written cmd (parse_flags common_flags (reorder_args common_flags args))

-- `run`: the exit code for the arguments. `written format reports` tells whether the printer
-- writes the reports with no error.
unfoldable pub run : Host → FileSystem → (Bytes → List FileReport → Bool) → List Bytes → Run ℕ
unfolding run_command command_of
run host fs written [] = done 1
run host fs written (cmd ∷ args) = run_command host fs written (command_of cmd) args
