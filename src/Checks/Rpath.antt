-- ===== src/Checks/Rpath.antt =====
-- internal/checksec/rpath.go: RPATH and RUNPATH.
pub mod Grade
pub mod Verbatim
use sec_compile_option.Base.{
  Bool, List, Option, [], false, if◌then◌else◌, ltb, none, not, some, true, ℕ, ◌&&◌, ◌++◌, ◌||◌,
  ◌∷◌,
}
use sec_compile_option.Checks.{Result, bad_result, err_result, info_result, ok_result, warn_result}
use sec_compile_option.Dyn.{dyn_string_ph, parse_pt_dynamic}
use sec_compile_option.Elf.{File, FileInfo, Host, dt_rpath, dt_runpath, has_flag}
use sec_compile_option.Go.Run.{Run, done, ◌>>=◌}
use sec_compile_option.Go.Strings.{Bytes, codes, contains, has_prefix, join, split}

pub data RunpathRisk : Type 0 where
  rp_safe rp_warn rp_insecure : RunpathRisk

-- The value of the iota constant, by which the risks are compared.
abbrev pub rank : RunpathRisk → ℕ
rank rp_safe = 0
rank rp_warn = 1
rank rp_insecure = 2

-- The verdict on a path that os.Stat was asked for.
unfoldable pub classify_stat : Option FileInfo → RunpathRisk × Bytes
unfolding has_flag
classify_stat none = (rp_warn, codes "dir not found on this host")
classify_stat (some fi) =
    if fi.is_dir && has_flag fi.perm 0o002
    then (rp_insecure, codes "world-writable")
    else (rp_safe, [])

abbrev is_empty : Bytes → Bool
is_empty [] = true
is_empty (c ∷ s) = false

unfoldable pub classify_runpath_entry : Host → Bytes → RunpathRisk × Bytes
unfolding contains has_prefix classify_stat
classify_runpath_entry host entry =
    if is_empty entry
    then (rp_insecure, codes "empty entry = cwd")
    else if contains entry (codes "$ORIGIN") || contains entry (codes "${ORIGIN}")
    then (rp_warn, codes "$ORIGIN-relative")
    else if not (has_prefix entry (codes "/"))
    then (rp_insecure, codes "relative path")
    else classify_stat (host.stat entry)

-- The variables of the loops of `summarizeRunpath` and `summarizeRpathStrict`.
pub record Survey : Type 0 where
  pub worst : RunpathRisk
  pub reason : Bytes
  pub entries : List Bytes

abbrev pub start : Survey
start = record { worst = rp_safe; reason = []; entries = [] }

unfoldable pub survey_entry : Host → Survey → Bytes → Survey
survey_entry host s e =
    let (r, reason) = classify_runpath_entry host e in
    if ltb (rank s.worst) (rank r)
    then record { worst = r; reason = reason; entries = s.entries ++ e ∷ [] }
    else record s { entries = s.entries ++ e ∷ [] }

unfoldable pub survey_entries : Host → Survey → List Bytes → Survey
unfolding survey_entry
survey_entries host s [] = s
survey_entries host s (e ∷ es) = survey_entries host (survey_entry host s e) es

unfoldable pub survey_paths : Host → Survey → List Bytes → Survey
unfolding survey_entries split
survey_paths host s [] = s
survey_paths host s (p ∷ ps) = survey_paths host (survey_entries host s (split b':' p)) ps

-- "label [joined] (reason)"
unfoldable pub with_reason : Bytes → Bytes → Bytes → Bytes
with_reason label joined reason =
    label ++ (codes " [" ++ (joined ++ (codes "] (" ++ (reason ++ codes ")"))))

unfoldable pub runpath_verdict : Bytes → Survey → Result
unfolding with_reason join
runpath_verdict label s =
    let joined = join (codes ":") s.entries in
    elim s.worst [
      | rp_insecure ↦ bad_result (with_reason label joined s.reason)
      | rp_warn ↦ warn_result (with_reason label joined s.reason)
      | rp_safe ↦ info_result (label ++ (codes " [" ++ (joined ++ codes "]")))
    ]

unfoldable pub summarize_runpath : Host → Bytes → List Bytes → Result
unfolding runpath_verdict survey_paths
summarize_runpath host label [] = ok_result (codes "No " ++ label)
summarize_runpath host label (p ∷ ps) = runpath_verdict label (survey_paths host start (p ∷ ps))

unfoldable pub rpath_verdict : Survey → Result
unfolding with_reason join
rpath_verdict s =
    let joined = join (codes ":") s.entries in
    if is_empty s.reason
    then bad_result (codes "RPATH [" ++ (joined ++ codes "] (prohibited by secure-compile specs)"))
    else bad_result
        (codes "RPATH [" ++ (joined ++ (codes "] (prohibited; " ++ (s.reason ++ codes ")"))))

unfoldable pub summarize_rpath_strict : Host → List Bytes → Result
unfolding rpath_verdict survey_paths
summarize_rpath_strict host [] = ok_result (codes "No RPATH")
summarize_rpath_strict host (p ∷ ps) = rpath_verdict (survey_paths host start (p ∷ ps))

abbrev nonempty : Option (List Bytes) → Option (List Bytes)
nonempty (some (v ∷ vs)) = some (v ∷ vs)
nonempty _ = none

-- f.DynString where it gives something, or else the program headers.
unfoldable pub dynamic_strings_for : Host → File → Option Bytes → ℕ → Run (List Bytes)
unfolding dyn_string_ph
dynamic_strings_for host f raw t = elim (nonempty (f.dyn_string t)) [
  | some v ↦ done v
  | none ↦ do dyns ← parse_pt_dynamic host f; done (dyn_string_ph f raw dyns t)
]

unfoldable pub rpath : Host → Option File → Option Bytes → Run Result
unfolding dynamic_strings_for summarize_rpath_strict
rpath host none raw = done (err_result (codes "RPATH"))
rpath host (some f) raw = do
  paths ← dynamic_strings_for host f raw dt_rpath
  done (summarize_rpath_strict host paths)

unfoldable pub runpath : Host → Option File → Option Bytes → Run Result
unfolding dynamic_strings_for summarize_runpath
runpath host none raw = done (err_result (codes "RUNPATH"))
runpath host (some f) raw = do
  paths ← dynamic_strings_for host f raw dt_runpath
  done (summarize_runpath host (codes "RUNPATH") paths)
