-- ===== src/Report/Results.antt =====
-- `CheckFile`: which check each entry of a report comes from.
use mathlib.Core.Path.{subst}
use sec_compile_option.Base.{All, some, ◌≡◌}
use sec_compile_option.Checks.{Result}
use sec_compile_option.Checks.Binding.{bind_now, relro}
use sec_compile_option.Checks.Position.{pic, pie, symbols}
use sec_compile_option.Checks.Rpath.{rpath, runpath}
use sec_compile_option.Checks.Stack.{canary, nx, ohos_retguard, pac_cfi}
use sec_compile_option.Elf.{File, Host}
use sec_compile_option.Fortify.{FortifyResult, fortify}
use sec_compile_option.Fortify.Libc.{resolve_libc_flag}
use sec_compile_option.Go.Maps.{insert}
use sec_compile_option.Go.Run.{done, done-injective, when_done}
use sec_compile_option.Go.Strings.{Bytes, codes, eq_bytes}
use sec_compile_option.Report.{get_check, link_stack_protection, run_checks, stack_protection_keys}
use sec_compile_option.Report.Link.{Checks, get_check-insert, link_stack_protection-get_check}

-- The checks of a report hold what each check returned for the file; the three stack protection
-- checks hold it as `linkStackProtection` leaves it.
pub record IsReportOf (host : Host) (f : File) (content : Bytes) (c : Checks) : Type 0 where
  pub stack_results : Checks
  pub from_relro : relro host (some f) ≡ done (get_check c (codes "relro"))
  pub from_nx : nx (some f) ≡ get_check c (codes "nx")
  pub from_pie : pie host (some f) ≡ done (get_check c (codes "pie"))
  pub from_pic : pic host (some f) ≡ done (get_check c (codes "pic"))
  pub from_bind_now : bind_now host (some f) ≡ done (get_check c (codes "bind_now"))
  pub from_rpath : rpath host (some f) (some content) ≡ done (get_check c (codes "rpath"))
  pub from_runpath : runpath host (some f) (some content) ≡ done (get_check c (codes "runpath"))
  pub from_symbols : symbols (some f) ≡ get_check c (codes "symbols")
  pub from_canary :
      canary host (some f) (some content) ≡ done (get_check stack_results (codes "canary"))
  pub from_retguard : ohos_retguard (some f) ≡ get_check stack_results (codes "ohos_retguard")
  pub from_pac_cfi : pac_cfi host (some f) ≡ done (get_check stack_results (codes "pac_cfi"))
  pub linked :
      All
        (λ j. get_check c j ≡ get_check (link_stack_protection stack_results) j)
        stack_protection_keys
  pub libc : Bytes
  pub fortify_result : FortifyResult
  pub from_libc : resolve_libc_flag host f (some content) ≡ done libc
  pub from_fortify : fortify host (some f) (some content) libc ≡ done fortify_result
  pub from_summary : fortify_result.summary ≡ get_check c (codes "fortify")
  pub from_fortified : fortify_result.fortified ≡ get_check c (codes "fortified")
  pub from_fortifiable : fortify_result.fortifiable ≡ get_check c (codes "fortifiable")

-- What the map holds once everything is stored, from the results of the checks.
abbrev stack_stored : Checks → Result → Result → Result → Result → Checks
stack_stored c0 relro canary retguard pac = insert (codes "pac_cfi") pac (
    insert (codes "ohos_retguard") retguard
      (insert (codes "canary") canary (insert (codes "relro") relro c0)))

module _ (host : Host) (f : File) (content : Bytes) (c0 : Checks)
    (r_relro r_canary r_pac r_pie r_pic r_now r_rpath r_runpath : Result) (libc : Bytes)
    (fr : FortifyResult) where
  at_stack : Checks
  at_stack = stack_stored c0 r_relro r_canary (ohos_retguard (some f)) r_pac

  at_end : Checks
  at_end = insert (codes "fortifiable") fr.fortifiable (
      insert (codes "fortified") fr.fortified (
        insert (codes "fortify") fr.summary (
          insert (codes "symbols") (symbols (some f)) (
            insert (codes "runpath") r_runpath (
              insert (codes "rpath") r_rpath (
                insert (codes "bind_now") r_now (
                  insert (codes "pic") r_pic (
                    insert (codes "pie") r_pie
                      (insert (codes "nx") (nx (some f)) (link_stack_protection at_stack))))))))))

  at_end-linked :
      All
        (λ j. get_check at_end j ≡ get_check (link_stack_protection at_stack) j)
        stack_protection_keys
  unfolding at_end eq_bytes
  at_end-linked = (simp get_check-insert, (simp get_check-insert, (simp get_check-insert, tt)))

  at_end-IsReportOf :
      relro host (some f) ≡ done r_relro
      → canary host (some f) (some content) ≡ done r_canary
      → pac_cfi host (some f) ≡ done r_pac
      → pie host (some f) ≡ done r_pie
      → pic host (some f) ≡ done r_pic
      → bind_now host (some f) ≡ done r_now
      → rpath host (some f) (some content) ≡ done r_rpath
      → runpath host (some f) (some content) ≡ done r_runpath
      → resolve_libc_flag host f (some content) ≡ done libc
      → fortify host (some f) (some content) libc ≡ done fr
      → IsReportOf host f content at_end
  unfolding at_end at_stack eq_bytes
  at_end-IsReportOf e1 e2 e4 e6 e7 e8 e9 e10 e11 e12 = record {
    stack_results = at_stack;
    from_relro = simp (get_check-insert, link_stack_protection-get_check) e1;
    from_nx = simp (get_check-insert);
    from_pie = simp (get_check-insert) e6;
    from_pic = simp (get_check-insert) e7;
    from_bind_now = simp (get_check-insert) e8;
    from_rpath = simp (get_check-insert) e9;
    from_runpath = simp (get_check-insert) e10;
    from_symbols = simp (get_check-insert);
    from_canary = simp (get_check-insert) e2;
    from_retguard = simp (get_check-insert);
    from_pac_cfi = simp (get_check-insert) e4;
    linked = at_end-linked;
    libc = libc;
    fortify_result = fr;
    from_libc = e11;
    from_fortify = e12;
    from_summary = simp (get_check-insert);
    from_fortified = simp (get_check-insert);
    from_fortifiable = simp (get_check-insert);
  }

pub run_checks-IsReportOf :
    (host : Host) (f : File) (content : Bytes) (c0 : Checks) {c : Checks}
    → run_checks host f content c0 ≡ done c
    → IsReportOf host f content c
unfolding run_checks at_end at_stack
run_checks-IsReportOf host f content c0 {c} h = when_done (relro host (some f)) _ h λ r1 e1 h1.
    when_done (canary host (some f) (some content)) _ h1 λ r2 e2 h2.
      when_done (pac_cfi host (some f)) _ h2 λ r4 e4 h4.
        when_done (pie host (some f)) _ h4 λ r6 e6 h6.
          when_done (pic host (some f)) _ h6 λ r7 e7 h7.
            when_done (bind_now host (some f)) _ h7 λ r8 e8 h8.
              when_done (rpath host (some f) (some content)) _ h8 λ r9 e9 h9.
                when_done (runpath host (some f) (some content)) _ h9 λ r10 e10 h10.
                  when_done (resolve_libc_flag host f (some content)) _ h10 λ l e11 h11.
                    when_done (fortify host (some f) (some content) l) _ h11 λ fr e12 h12.
                      subst (IsReportOf host f content) (done-injective h12) (
                        at_end-IsReportOf host f content c0 r1 r2 r4 r6 r7 r8 r9 r10 l fr e1 e2 e4
                          e6 e7 e8 e9 e10 e11 e12)
