-- ===== src/Report.antt =====
-- internal/checksec/report.go: the report of one binary, and the link between the three stack
-- protection checks of canary.go.
pub mod Link
pub mod Results
pub mod Verdicts
pub mod Keys
use sec_compile_option.Base.{Bool, List, [], false, if◌then◌else◌, not, some, true, ◌++◌, ◌||◌, ◌∷◌}
use sec_compile_option.Checks.{Result, err_result, is_good, ok_result, unset}
use sec_compile_option.Checks.Binding.{bind_now, relro}
use sec_compile_option.Checks.Position.{pic, pie, symbols}
use sec_compile_option.Checks.Rpath.{rpath, runpath}
use sec_compile_option.Checks.Stack.{canary, nx, ohos_retguard, pac_cfi}
use sec_compile_option.Elf.{File, Host, failure, success}
use sec_compile_option.Fortify.{fortify}
use sec_compile_option.Fortify.Libc.{resolve_libc_flag}
use sec_compile_option.Go.Maps.{insert, lookup}
use sec_compile_option.Go.Run.{Run, done, ◌>>=◌}
use sec_compile_option.Go.Strings.{Bytes, codes, eq_bytes}

pub record FileReport : Type 0 where
  pub name : Bytes
  pub error : Bytes
  pub checks : List (Bytes × Result)

abbrev pub check_order : List Bytes
check_order =
    codes "relro"
    ∷ codes "canary"
    ∷ codes "ohos_retguard"
    ∷ codes "pac_cfi"
    ∷ codes "nx"
    ∷ codes "pie"
    ∷ codes "pic"
    ∷ codes "bind_now"
    ∷ codes "rpath"
    ∷ codes "runpath"
    ∷ codes "symbols"
    ∷ codes "fortify"
    ∷ codes "fortified"
    ∷ codes "fortifiable"
    ∷ []

abbrev header_names : List (Bytes × Bytes)
header_names =
    (codes "relro", codes "RELRO")
    ∷ (codes "canary", codes "SP")
    ∷ (codes "ohos_retguard", codes "Retguard")
    ∷ (codes "pac_cfi", codes "PAC CFI")
    ∷ (codes "nx", codes "NX")
    ∷ (codes "pie", codes "PIE")
    ∷ (codes "pic", codes "PIC")
    ∷ (codes "bind_now", codes "BIND_NOW")
    ∷ (codes "rpath", codes "RPATH")
    ∷ (codes "runpath", codes "RUNPATH")
    ∷ (codes "symbols", codes "Strip")
    ∷ (codes "fortify", codes "FORTIFY")
    ∷ (codes "fortified", codes "Fortified")
    ∷ (codes "fortifiable", codes "Fortifiable")
    ∷ []

unfoldable pub header_name : Bytes → Bytes
unfolding lookup
header_name k = lookup k [] header_names

-- The zero Result, which a map gives for a key that it lacks.
abbrev pub zero_result : Result
zero_result = record { value = []; status = unset }

unfoldable pub get_check : List (Bytes × Result) → Bytes → Result
unfolding lookup
get_check checks k = lookup k zero_result checks

abbrev pub stack_protection_keys : List Bytes
stack_protection_keys = codes "canary" ∷ codes "ohos_retguard" ∷ codes "pac_cfi" ∷ []

unfoldable pub any_good : List (Bytes × Result) → List Bytes → Bool
any_good checks [] = false
any_good checks (k ∷ ks) = if is_good (get_check checks k).status then true else any_good checks ks

unfoldable pub stack_protection_passed : FileReport → Bool
unfolding any_good
stack_protection_passed r = any_good r.checks stack_protection_keys

-- The inner loop of `linkStackProtection`.
unfoldable pub cover_others : Bytes → List Bytes → List (Bytes × Result) → List (Bytes × Result)
cover_others k [] checks = checks
cover_others k (other ∷ others) checks =
    let covered = insert other (ok_result (codes "Covered by " ++ header_name k)) checks in
    cover_others k others
      (if eq_bytes other k || is_good (get_check checks other).status then checks else covered)

unfoldable pub link_from : List Bytes → List (Bytes × Result) → List (Bytes × Result)
unfolding cover_others
link_from [] checks = checks
link_from (k ∷ ks) checks =
    if not (is_good (get_check checks k).status)
    then link_from ks checks
    else cover_others k stack_protection_keys checks

unfoldable pub link_stack_protection : List (Bytes × Result) → List (Bytes × Result)
unfolding link_from
link_stack_protection checks = link_from stack_protection_keys checks

-- Every key with the result of a check that could not run.
unfoldable pub initial_checks : List Bytes → List (Bytes × Result) → List (Bytes × Result)
initial_checks [] checks = checks
initial_checks (k ∷ ks) checks = initial_checks ks (insert k (err_result k) checks)

-- The checks of a file that was opened and parsed, in the order in which they are stored.
unfoldable pub run_checks :
    Host → File → Bytes → List (Bytes × Result) → Run (List (Bytes × Result))
run_checks host f content c0 = do
  let raw = some content
  r ← relro host (some f)
  let c1 = insert (codes "relro") r c0
  r ← canary host (some f) raw
  let c2 = insert (codes "canary") r c1
  let c3 = insert (codes "ohos_retguard") (ohos_retguard (some f)) c2
  r ← pac_cfi host (some f)
  let c4 = link_stack_protection (insert (codes "pac_cfi") r c3)
  let c5 = insert (codes "nx") (nx (some f)) c4
  r ← pie host (some f)
  let c6 = insert (codes "pie") r c5
  r ← pic host (some f)
  let c7 = insert (codes "pic") r c6
  r ← bind_now host (some f)
  let c8 = insert (codes "bind_now") r c7
  r ← rpath host (some f) raw
  let c9 = insert (codes "rpath") r c8
  r ← runpath host (some f) raw
  let c10 = insert (codes "runpath") r c9
  let c11 = insert (codes "symbols") (symbols (some f)) c10
  libc ← resolve_libc_flag host f raw
  fr ← fortify host (some f) raw libc
  let c12 = insert (codes "fortify") fr.summary c11
  let c13 = insert (codes "fortified") fr.fortified c12
  done (insert (codes "fortifiable") fr.fortifiable c13)

-- The report on the content of an opened file.
unfoldable pub check_content : Host → Bytes → Bytes → Run FileReport
check_content host path content =
    let unrun = initial_checks check_order [] in
    elim (host.new_file content) [
      | failure err ↦
          done (record { name = path; error = codes "not an ELF file: " ++ err; checks = unrun })
      | success f ↦ do
        checks ← run_checks host f content unrun
        done (record { name = path; error = []; checks = checks })
    ]

unfoldable pub check_file : Host → Bytes → Run FileReport
check_file host path = elim (host.open_file path) [
  | failure err ↦ done (record {
    name = path;
    error = codes "cannot open: " ++ err;
    checks = initial_checks check_order [];
  })
  | success content ↦ check_content host path content
]
