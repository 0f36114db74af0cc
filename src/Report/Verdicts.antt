-- ===== src/Report/Verdicts.antt =====
-- `CheckFile`: where a report comes from.
use mathlib.Core.Path.{subst}
use sec_compile_option.Base.{[], inl, inr, refl, sym, ◌++◌, ◌∙◌, ◌≡◌, ◌⊎◌}
use sec_compile_option.Elf.{Answer, File, Host, failure, success}
use sec_compile_option.Go.Run.{done, done-injective, when_done, ◌>>=◌}
use sec_compile_option.Go.Strings.{Bytes, codes}
use sec_compile_option.Report.{
  FileReport, check_content, check_file, check_order, initial_checks, run_checks,
}
use sec_compile_option.Report.Link.{Checks}
use sec_compile_option.Report.Results.{IsReportOf, run_checks-IsReportOf}

pub Answer-cases {ℓ} :
    {A : Type ℓ} (a : Answer A) → ((e : Bytes) × (a ≡ failure e)) ⊎ ((x : A) × (a ≡ success x))
Answer-cases (failure e) = inl (e, refl)
Answer-cases (success x) = inr (x, refl)

-- A report with no error is about a file that was opened and parsed.
pub record IsChecked (host : Host) (path : Bytes) (r : FileReport) : Type 0 where
  pub content : Bytes
  pub file : File
  pub opened : host.open_file path ≡ success content
  pub parsed_file : host.new_file content ≡ success file
  pub named : r.name ≡ path
  pub reported : IsReportOf host file content r.checks

-- The report on a parsed file, and the two reports of an error.
abbrev pub unrun : Checks
unrun = initial_checks check_order []

abbrev pub checked_report : Bytes → Checks → FileReport
checked_report path c = record { name = path; error = []; checks = c }

abbrev pub not_elf : Bytes → Bytes → FileReport
not_elf path e = record { name = path; error = codes "not an ELF file: " ++ e; checks = unrun }

abbrev pub not_opened : Bytes → Bytes → FileReport
not_opened path e = record { name = path; error = codes "cannot open: " ++ e; checks = unrun }

module _ (host : Host) (path : Bytes) where
  pub check_content_success :
      (content : Bytes) {f : File}
      → host.new_file content ≡ success f
      → check_content host path content
        ≡ (run_checks host f content unrun >>= λ c. done (checked_report path c))
  unfolding check_content
  check_content_success content p = rw (p, check_content)

  pub check_content_failure :
      (content : Bytes) {e : Bytes}
      → host.new_file content ≡ failure e
      → check_content host path content ≡ done (not_elf path e)
  unfolding check_content
  check_content_failure content p = rw (p, check_content)

  pub check_file_success :
      {content : Bytes}
      → host.open_file path ≡ success content
      → check_file host path ≡ check_content host path content
  unfolding check_file
  check_file_success p = rw (p, check_file)

  pub check_file_failure :
      {e : Bytes}
      → host.open_file path ≡ failure e
      → check_file host path ≡ done (not_opened path e)
  unfolding check_file
  check_file_failure p = rw (p, check_file)

  -- Why a report is what it is: the file could not be opened, or not be parsed, or was checked.
  pub data Origin : FileReport → Type 0 where
    unopened : {e : Bytes} → host.open_file path ≡ failure e → Origin (not_opened path e)
    unparsed :
        {content e : Bytes}
        → host.open_file path ≡ success content
        → host.new_file content ≡ failure e
        → Origin (not_elf path e)
    checked :
        {content : Bytes} {f : File} {c : Checks}
        → host.open_file path ≡ success content
        → host.new_file content ≡ success f
        → run_checks host f content unrun ≡ done c
        → Origin (checked_report path c)

  check_content-Origin :
      (content : Bytes) {r : FileReport}
      → host.open_file path ≡ success content
      → check_content host path content ≡ done r
      → Origin r
  check_content-Origin content o h = elim (Answer-cases (host.new_file content)) [
    | inl (x, p) ↦
        subst Origin (done-injective (sym (check_content_failure content p) ∙ h)) (unparsed o p)
    | inr (f, p) ↦
        when_done (run_checks host f content unrun) _ (sym (check_content_success content p) ∙ h)
          λ c q k. subst Origin (done-injective k) (checked o p q)
  ]

  pub check_file-Origin : {r : FileReport} → check_file host path ≡ done r → Origin r
  check_file-Origin h = elim (Answer-cases (host.open_file path)) [
    | inl (x, o) ↦ subst Origin (done-injective (sym (check_file_failure o) ∙ h)) (unopened o)
    | inr (content, o) ↦ check_content-Origin content o (sym (check_file_success o) ∙ h)
  ]

  Origin-IsChecked : {r : FileReport} → Origin r → r.error ≡ [] → IsChecked host path r
  Origin-IsChecked (unopened o) e = absurd (cc)
  Origin-IsChecked (unparsed o p) e = absurd (cc)
  Origin-IsChecked (checked {content} {f} o p q) e = record {
    content = content;
    file = f;
    opened = o;
    parsed_file = p;
    named = refl;
    reported = run_checks-IsReportOf host f content unrun q;
  }

-- A report with no error holds, for a file that was opened and parsed, the result of every check:
-- the three of stack protection as linking leaves them, and the three of FORTIFY with the libc that
-- the lookup finds.
pub check_file-IsChecked :
    (host : Host) (path : Bytes) {r : FileReport}
    → check_file host path ≡ done r
    → r.error ≡ []
    → IsChecked host path r
check_file-IsChecked host path h = Origin-IsChecked host path (check_file-Origin host path h)
