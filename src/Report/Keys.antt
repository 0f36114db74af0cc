-- ===== src/Report/Keys.antt =====
-- `CheckFile`: the keys of a report, and that it ends.
use mathlib.Core.Path.{subst}
use sec_compile_option.Base.{
  All, All-map, List, Option, [], arith, inl, inr, some, true, ◌++◌, ◌∷◌, ◌≡◌, ◌≢◌,
}
use sec_compile_option.Checks.{Result, ok_result}
use sec_compile_option.Checks.Binding.{bind_now, relro}
use sec_compile_option.Checks.Ends.{
  bind_now-ends, canary-ends, pac_cfi-ends, pic-ends, pie-ends, relro-ends, rpath-ends,
  runpath-ends,
}
use sec_compile_option.Checks.Position.{pic, pie}
use sec_compile_option.Checks.Rpath.{rpath, runpath}
use sec_compile_option.Checks.Stack.{canary, pac_cfi}
use sec_compile_option.Elf.{File, Host}
use sec_compile_option.Fortify.{fortify}
use sec_compile_option.Fortify.Ends.{fortify-ends, resolve_libc_flag-ends}
use sec_compile_option.Fortify.Libc.{resolve_libc_flag}
use sec_compile_option.Go.Maps.{has_key, has_key-insert, insert}
use sec_compile_option.Go.Run.{done, done-injective, ends-bind, out_of_fuel, when_done}
use sec_compile_option.Go.Strings.{Bytes, codes, eq_bytes}
use sec_compile_option.Report.{
  FileReport, check_file, check_order, cover_others, header_name, initial_checks, link_from,
  link_stack_protection, run_checks, stack_protection_keys,
}
use sec_compile_option.Report.Link.{Checks}
use sec_compile_option.Report.Verdicts.{
  Answer-cases, Origin, check_content_failure, check_content_success, check_file-Origin,
  check_file_failure, check_file_success, checked, unopened, unparsed, unrun,
}

abbrev IsKeyOf : Bytes → Checks → Type 0
IsKeyOf k c = has_key k c ≡ true

has_key-kept : (k j : Bytes) (v : Result) (c : Checks) → IsKeyOf k c → IsKeyOf k (insert j v c)
has_key-kept k j v c h = ground (arith, has_key-insert j k v c, h)

has_key-cover :
    (k w : Bytes) (keys : List Bytes) (c : Checks) → IsKeyOf k c → IsKeyOf k (cover_others w keys c)
unfolding cover_others
has_key-cover k w [] c h = h
has_key-cover k w (o ∷ os) c h =
    let v = ok_result (codes "Covered by " ++ header_name w) in
    has_key-cover k w os _ (ground (arith, has_key-kept k o v c h))

has_key-link : (k : Bytes) (ks : List Bytes) (c : Checks) → IsKeyOf k c → IsKeyOf k (link_from ks c)
unfolding link_from
has_key-link k [] c h = h
has_key-link k (j ∷ js) c h =
    ground (arith, has_key-link k js c h, has_key-cover k j stack_protection_keys c h)

has_key-linked : (k : Bytes) (c : Checks) → IsKeyOf k c → IsKeyOf k (link_stack_protection c)
unfolding link_stack_protection
has_key-linked k c h = has_key-link k stack_protection_keys c h

run_checks-has_key :
    (host : Host) (f : File) (content : Bytes) (c0 : Checks) {c : Checks} (k : Bytes)
    → run_checks host f content c0 ≡ done c
    → IsKeyOf k c0
    → IsKeyOf k c
unfolding run_checks
run_checks-has_key host f content c0 {c} k h has = when_done (relro host (some f)) _ h λ r1 e1 h1.
    when_done (canary host (some f) (some content)) _ h1 λ r2 e2 h2.
      when_done (pac_cfi host (some f)) _ h2 λ r4 e4 h4.
        when_done (pie host (some f)) _ h4 λ r6 e6 h6.
          when_done (pic host (some f)) _ h6 λ r7 e7 h7.
            when_done (bind_now host (some f)) _ h7 λ r8 e8 h8.
              when_done (rpath host (some f) (some content)) _ h8 λ r9 e9 h9.
                when_done (runpath host (some f) (some content)) _ h9 λ r10 e10 h10.
                  when_done (resolve_libc_flag host f (some content)) _ h10 λ l e11 h11.
                    when_done (fortify host (some f) (some content) l) _ h11 λ fr e12 h12.
                      subst (IsKeyOf k) (done-injective h12) (
                        has_key-kept _ _ _ _ (
                          has_key-kept _ _ _ _ (
                            has_key-kept _ _ _ _ (
                              has_key-kept _ _ _ _ (
                                has_key-kept _ _ _ _ (
                                  has_key-kept _ _ _ _ (
                                    has_key-kept _ _ _ _ (
                                      has_key-kept _ _ _ _ (
                                        has_key-kept _ _ _ _ (
                                          has_key-kept _ _ _ _ (
                                            has_key-linked _ _ (
                                              has_key-kept _ _ _ _ (
                                                has_key-kept _ _ _ _ (
                                                  has_key-kept _ _ _ _
                                                    (has_key-kept _ _ _ _ has)))))))))))))))

run_checks-ends :
    (host : Host) (f : File) (content : Bytes) (c0 : Checks)
    → run_checks host f content c0 ≢ out_of_fuel
unfolding run_checks
run_checks-ends host f content c0 =
    let raw : Option Bytes = some content in
    ends-bind (relro host (some f)) _ (relro-ends host (some f)) λ r1.
      ends-bind (canary host (some f) raw) _ (canary-ends host (some f) raw) λ r2.
        ends-bind (pac_cfi host (some f)) _ (pac_cfi-ends host (some f)) λ r4.
          ends-bind (pie host (some f)) _ (pie-ends host (some f)) λ r6.
            ends-bind (pic host (some f)) _ (pic-ends host (some f)) λ r7.
              ends-bind (bind_now host (some f)) _ (bind_now-ends host (some f)) λ r8.
                ends-bind (rpath host (some f) raw) _ (rpath-ends host (some f) raw) λ r9.
                  ends-bind (runpath host (some f) raw) _ (runpath-ends host (some f) raw) λ r10.
                    ends-bind (resolve_libc_flag host f raw) _ (resolve_libc_flag-ends host f raw)
                      λ l.
                        ends-bind (fortify host (some f) raw l) _ (fortify-ends host (some f) raw l)
                          λ fr. λ e. cc

-- `CheckFile` ends on every path and every content of the file: no loop runs out of its fuel.
pub check_file-ends : (host : Host) (path : Bytes) → check_file host path ≢ out_of_fuel
check_file-ends host path = elim (Answer-cases (host.open_file path)) [
  | inl (x, o) ↦ rw (check_file_failure host path o) (λ e. cc)
  | inr (content, o) ↦
      rw (check_file_success host path o) (elim (Answer-cases (host.new_file content)) [
        | inl (x, p) ↦ rw (check_content_failure host path content p) (λ e. cc)
        | inr (f, p) ↦ rw (check_content_success host path content p) (
            ends-bind (run_checks host f content unrun) _ (run_checks-ends host f content unrun)
              λ c. λ e. cc)
      ])
]

unrun-keys : All (λ k. IsKeyOf k unrun) check_order
unfolding initial_checks insert has_key eq_bytes
unrun-keys = search (tt) depth 20

-- Every report has every key of `CheckOrder`, on the error paths too.
pub check_file-keys :
    (host : Host) (path : Bytes) {r : FileReport}
    → check_file host path ≡ done r
    → All (λ k. has_key k r.checks ≡ true) check_order
check_file-keys host path h = keys_of (check_file-Origin host path h)
  where
    keys_of : {r : FileReport} → Origin host path r → All (λ k. IsKeyOf k r.checks) check_order
    keys_of (unopened o) = unrun-keys
    keys_of (unparsed o p) = unrun-keys
    keys_of (checked {content} {f} o p q) =
        All-map (λ k. run_checks-has_key host f content unrun k q) check_order unrun-keys
