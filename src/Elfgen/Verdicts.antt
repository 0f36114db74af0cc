-- ===== src/Elfgen/Verdicts.antt =====
-- What the checks report on the image of a layout.
use sec_compile_option.Base.{
  ap, if◌then◌else◌, not, refl, some, ◌%◌, ◌&&◌, ◌==◌, ◌||◌, ◌∙◌, ◌≡◌, ◌≤◌,
}
use sec_compile_option.Checks.{
  bad_result, has_segment, info_result, na_result, ok_result, warn_result,
}
use sec_compile_option.Checks.Binding.{
  bind_now, bind_now_of, first_value, no_progs, relro, signals_now,
}
use sec_compile_option.Checks.Position.{has_text_relocations, pic, pie, symbols}
use sec_compile_option.Checks.Stack.{
  find_stack, nx, nx_verdict, ohos_retguard, retguard_segment_type,
}
use sec_compile_option.Dyn.{dyn_tag}
use sec_compile_option.Elf.{File, Host, em_aarch64, et_dyn, has_flag, pt_gnu_relro, pt_interp}
use sec_compile_option.Elfgen.{Layout, flags_val, has_interp, strings_of}
use sec_compile_option.Elfgen.Assembly.{build-image_of, image_of}
use sec_compile_option.Elfgen.Counts.{interp_size}
use sec_compile_option.Elfgen.Headers.{IsSmall, live_entries, read_elf-image_of}
use sec_compile_option.Elfgen.Image.{build, machine_of, phdrs_of, plan_of}
use sec_compile_option.Elfgen.Parsed.{parse_pt_dynamic-image_of}
use sec_compile_option.Elfgen.Plans.{plan_of-IsPlan}
use sec_compile_option.Elfgen.Queries.{
  find_stack-phdrs_of, has_segment-interp, has_segment-relro, has_segment-retguard,
}
use sec_compile_option.Elfgen.Reader.{read_elf}
use sec_compile_option.Elfgen.Readings.{
  flags_1_of, nx_table, pic_of, pie_of, relro_of, retguard_of, signals_table, text_table, typed_dyn,
}
use sec_compile_option.Elfgen.Tags.{tag-bind_now, tag-flags, tag-flags_1, tag-textrel}
use sec_compile_option.Go.Run.{done}
use sec_compile_option.Go.Strings.{Bytes, codes}

module _ (l : Layout) where
  signals_now-live_entries : signals_now (dyn_tag (live_entries l)) ≡ (l.bind_now || l.flags_bind)
  unfolding signals_now flags_val
  signals_now-live_entries =
      rw (tag-bind_now l, tag-flags l, tag-flags_1 l)
        (signals_table l.bind_now l.flags_bind l.flags_text_rel l.flags1_pie)

  has_text_relocations-live_entries :
      has_text_relocations (live_entries l) ≡ (l.text_rel || l.flags_text_rel)
  unfolding flags_val
  has_text_relocations-live_entries =
      text_table l.text_rel l.flags_text_rel l.flags_bind (live_entries l) (tag-textrel l)
        (tag-flags l)

-- What the layout asks for is what the checks report of the file.
pub record IsReported (host : Host) (l : Layout) (f : File) : Type 0 where
  pub bound :
      bind_now host (some f)
      ≡ done (
          if l.bind_now || l.flags_bind
          then ok_result (codes "Bind now")
          else bad_result (codes "Lazy binding"))
  pub relocated :
      relro host (some f)
      ≡ done (
          if l.relro
          then (if l.bind_now || l.flags_bind
              then ok_result (codes "Full RELRO")
              else warn_result (codes "Partial RELRO"))
          else bad_result (codes "No RELRO"))
  pub text_relocated :
      pic host (some f)
      ≡ done (
          if l.pie || l.et_dyn
          then (if l.text_rel || l.flags_text_rel
              then bad_result (codes "Text relocations (not PIC)")
              else ok_result (codes "PIC enabled (no text relocations)"))
          else na_result (codes "N/A"))
  pub independent :
      pie host (some f)
      ≡ done (
          if l.pie || l.et_dyn
          then (if l.flags1_pie && not (l.interp || l.pie)
              then ok_result (codes "Static PIE")
              else if l.flags1_pie || (l.interp || l.pie)
              then ok_result (codes "PIE enabled")
              else info_result (codes "DSO (shared library)"))
          else bad_result (codes "PIE disabled"))
  pub stack : nx (some f) ≡ (
      if l.no_stack
      then warn_result (codes "NX unknown (no GNU_STACK)")
      else if l.gnu_stack_x
      then bad_result (codes "NX disabled")
      else ok_result (codes "NX enabled"))
  pub guarded : ohos_retguard (some f) ≡ (
      if not (machine_of l % 65536 == em_aarch64)
      then na_result (codes "N/A (not AArch64)")
      else if l.retguard
      then ok_result (codes "Retguard enabled")
      else bad_result (codes "No retguard"))
  pub stripped : symbols (some f) ≡ ok_result (codes "No symbols (stripped)")

module _ (host : Host) (l : Layout) (small : IsSmall l)
    (granted : (plan_of l (strings_of l)).total ≤ host.max_alloc) where
  abbrev file : File
  file = read_elf (image_of l)

  bind_now_of-image : bind_now_of host file ≡ done (l.bind_now || l.flags_bind)
  unfolding bind_now_of signals_now first_value has_flag
  bind_now_of-image =
      rw (parse_pt_dynamic-image_of host l small granted) (ap done (signals_now-live_entries l))

  bound_lem :
      bind_now host (some file)
      ≡ done (
          if l.bind_now || l.flags_bind
          then ok_result (codes "Bind now")
          else bad_result (codes "Lazy binding"))
  unfolding bind_now
  bound_lem = rw bind_now_of-image refl

  image_of-IsReported : IsReported host l file
  unfolding no_progs phdrs_of first_value has_interp nx symbols
  image_of-IsReported =
      let p = plan_of l (strings_of l) in
      let image = image_of l in
      let tags = live_entries l in
      let read = read_elf-image_of l small in
      let parsed = parse_pt_dynamic-image_of host l small granted in
      let with_interp : has_segment pt_interp file.progs ≡ has_interp l =
        ap (has_segment pt_interp) read.segments
        ∙ (has_segment-interp image l p
            ∙ (ap (λ n. not (n == 0)) (plan_of-IsPlan l).interp_placed.sized ∙ interp_size l)) in
      record {
        bound = bound_lem;
        relocated =
            relro_of host file l.relro (l.bind_now || l.flags_bind) (ap no_progs read.segments)
              (ap (has_segment pt_gnu_relro) read.segments ∙ has_segment-relro image l p)
              bind_now_of-image;
        text_relocated =
            pic_of host file (l.pie || l.et_dyn) (l.text_rel || l.flags_text_rel) tags
              (ap (λ n. n == et_dyn) read.typed ∙ typed_dyn (l.pie || l.et_dyn)) parsed
              (has_text_relocations-live_entries l);
        independent =
            pie_of host file (l.pie || l.et_dyn) l.flags1_pie (l.interp || l.pie) read.typed
              (flags_1_of host file l.flags1_pie tags refl parsed (tag-flags_1 l)) with_interp;
        stack =
            ap (λ ps. nx_verdict (find_stack 0 ps)) read.segments
            ∙ (ap nx_verdict (find_stack-phdrs_of image l p) ∙ nx_table l.no_stack l.gnu_stack_x);
        guarded =
            retguard_of host file l.retguard refl (
              ap (has_segment retguard_segment_type) read.segments ∙ has_segment-retguard image l p)
            ∙ ap
                (λ m.
                  if not (m == em_aarch64)
                  then na_result (codes "N/A (not AArch64)")
                  else if l.retguard
                  then ok_result (codes "Retguard enabled")
                  else bad_result (codes "No retguard"))
                read.machined;
        stripped = refl;
      }

-- Where the image is below 4 GiB and the host can allocate it, `Build` returns an image on which
-- BIND_NOW, RELRO, PIC, PIE, NX, the retguard and the symbol table are reported as the fields of the
-- layout say: each verdict is written out as a table over those fields.
pub build-IsReported :
    (host : Host) (l : Layout)
    → IsSmall l
    → (plan_of l (strings_of l)).total ≤ host.max_alloc
    → (image : Bytes) × (build l ≡ done image) × IsReported host l (read_elf image)
build-IsReported host l small granted =
    (image_of l, build-image_of l, image_of-IsReported host l small granted)
