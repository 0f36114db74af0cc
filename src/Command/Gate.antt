-- ===== src/Command/Gate.antt =====
-- `run` and the exit code: what the exit code 0 of a plain format says of every file.
use sec_compile_option.Base.{
  All, Bool, List, [], ap, arith, both_false, false, if◌then◌else◌, not, refl, sym, true, ℕ, ◌||◌,
  ◌∙◌, ◌∷◌, ◌≡◌,
}
use sec_compile_option.Checks.{is_bad}
use sec_compile_option.Command.{
  check_all, check_paths, command_of, fail_keys, fails_on, gate, has_failures, is_format, run,
  run_command, run_parsed, run_targets, targets,
}
use sec_compile_option.Command.Flags.{common_flags, default_settings}
use sec_compile_option.Command.Flags.Items.{
  IsItem, Item, command_line, parse_flags-reorder_args, settings_of, targets_of, written,
}
use sec_compile_option.Command.Targets.{FileSystem}
use sec_compile_option.Compliance.{compliance}
use sec_compile_option.Compliance.Gates.{fails_but_stripped, has_failures-compliance}
use sec_compile_option.Elf.{Host}
use sec_compile_option.Go.Run.{done, done-injective, when_done}
use sec_compile_option.Go.Strings.{Bytes, codes, eq_bytes, eq_bytes_iff, has_prefix}
use sec_compile_option.Report.{FileReport, check_file, get_check}

-- A file that passes the plain gate: it was opened, parsed and checked, fails no compliance rule but
-- perhaps the one on stripped symbols, and has no text relocations.
pub record IsClean (host : Host) (path : Bytes) : Type 0 where
  pub report : FileReport
  pub checked : check_file host path ≡ done report
  pub no_error : report.error ≡ []
  pub complies : fails_but_stripped (compliance report).items ≡ false
  pub relocated : is_bad (get_check report.checks (codes "pic")).status ≡ false

or_last :
    (a b c : Bool)
    → (if a then true else if b then true else c)
      ≡ ((if a then true else if b then true else false) || c)
or_last a b c = ground arith

not_first : (a b : Bool) → (if not a then true else b) ≡ false → a ≡ true
not_first a b h = ground arith

has_failures-cons :
    (r : FileReport) (rs : List FileReport)
    → has_failures (r ∷ rs) ≡ (has_failures (r ∷ []) || has_failures rs)
unfolding has_failures
has_failures-cons r rs =
    or_last (not (eq_bytes r.error [])) (fails_on r fail_keys) (has_failures rs)

has_failures_error : (r : FileReport) → has_failures (r ∷ []) ≡ false → r.error ≡ []
unfolding has_failures
has_failures_error r h = (eq_bytes_iff r.error []).0 (not_first _ _ h)

check_file-IsClean :
    (host : Host) (p : Bytes) (r : FileReport)
    → check_file host p ≡ done r
    → has_failures (r ∷ []) ≡ false
    → IsClean host p
check_file-IsClean host p r h e =
    let no_error = has_failures_error r e in
    let (c, t) = both_false _ _ (sym (has_failures-compliance host p r h no_error) ∙ e) in
    record { report = r; checked = h; no_error = no_error; complies = c; relocated = t }

check_all-IsClean :
    (host : Host) (ps : List Bytes) {rs : List FileReport}
    → check_all host ps ≡ done rs
    → has_failures rs ≡ false
    → All (IsClean host) ps
unfolding check_all
check_all-IsClean host [] h e = tt
check_all-IsClean host (p ∷ ps) h e = when_done (check_file host p) _ h λ r hr h'.
    when_done (check_all host ps) _ h' λ rs hrs h''.
      let same = done-injective h'' in
      let (first, others) =
        both_false _ _ (sym (has_failures-cons r rs) ∙ (ap has_failures same ∙ e)) in
      (check_file-IsClean host p r hr first, check_all-IsClean host ps hrs others)

abbrev exit_code : Bool → Bool → ℕ
exit_code w f = if w then if f then 2 else 0 else 1

exit_zero : (w f : Bool) → exit_code w f ≡ 0 → f ≡ false
exit_zero w f h = ground arith

check_paths-IsClean :
    (host : Host) (written : List FileReport → Bool) (format : Bytes) (paths : List Bytes)
    → has_prefix format (codes "compliance") ≡ false
    → check_paths host written format paths ≡ done 0
    → All (IsClean host) paths
unfolding check_paths gate
check_paths-IsClean host written format [] plain h = tt
check_paths-IsClean host written format (p ∷ ps) plain h =
    when_done (check_all host (p ∷ ps)) _ h λ rs hr h'.
      let code : exit_code (written rs) (has_failures rs) ≡ 0 =
        ground (arith, plain, done-injective h') in
      check_all-IsClean host (p ∷ ps) hr (exit_zero (written rs) (has_failures rs) code)

pub run_file :
    (host : Host) (fs : FileSystem) (written : Bytes → List FileReport → Bool) (is : List Item)
    {t : Bytes} {ts : List Bytes}
    → All (IsItem common_flags) is
    → targets_of is ≡ t ∷ ts
    → is_format (settings_of default_settings is).format ≡ true
    → run host fs written (codes "file" ∷ command_line is)
      ≡ check_paths host
          (written (settings_of default_settings is).format)
          (settings_of default_settings is).format
          (targets_of is)
unfolding run run_command command_of run_parsed run_targets targets eq_bytes
run_file host fs written is h e k = rw (parse_flags-reorder_args common_flags is h, e, k) refl

-- The reports are what `CheckFile` returns for the paths, one for each, in order.
abbrev pub AreReports : Host → List Bytes → List FileReport → Type 0
AreReports host [] [] = Unit
AreReports host [] (r ∷ rs) = ⊥
AreReports host (p ∷ ps) [] = ⊥
AreReports host (p ∷ ps) (r ∷ rs) = (check_file host p ≡ done r) × AreReports host ps rs

-- A report of an error, or with a failing check that counts.
abbrev pub fails_alone : FileReport → Bool
fails_alone r = not (eq_bytes r.error []) || fails_on r fail_keys

-- If `scc file`, with a well-formed mix of at least one target and flags, exits with 0, and the
-- format is a known one other than the two of compliance, then every target is clean: it was opened,
-- parsed and checked, fails no compliance rule but perhaps the one on stripped symbols, and has no
-- text relocations.
pub run_file-IsClean :
    (host : Host) (fs : FileSystem) (written : Bytes → List FileReport → Bool) (is : List Item)
    {t : Bytes} {ts : List Bytes}
    → All (IsItem common_flags) is
    → targets_of is ≡ t ∷ ts
    → is_format (settings_of default_settings is).format ≡ true
    → has_prefix (settings_of default_settings is).format (codes "compliance") ≡ false
    → run host fs written (codes "file" ∷ command_line is) ≡ done 0
    → All (IsClean host) (targets_of is)
run_file-IsClean host fs written is h e k plain z =
    check_paths-IsClean host _ _ (targets_of is) plain (sym (run_file host fs written is h e k) ∙ z)
