-- ===== src/Elfgen/Readings.antt =====
-- What the checks report, from what is read of a file.
use Prim.Native.Nat.{bit_or}
use sec_compile_option.Base.{
  Bool, List, false, if◌then◌else◌, none, not, refl, some, true, ◌&&◌, ◌==◌, ◌||◌, ◌≡◌,
}
use sec_compile_option.Checks.{
  bad_result, has_segment, info_result, na_result, ok_result, warn_result,
}
use sec_compile_option.Checks.Binding.{
  bind_now_of, first_value, flag_set, is_some, no_progs, relro, relro_verdict,
}
use sec_compile_option.Checks.Position.{flags_1, has_text_relocations, pic, pie, pie_verdict}
use sec_compile_option.Checks.Stack.{
  absent, nx_verdict, ohos_retguard, present, retguard_segment_type,
}
use sec_compile_option.Dyn.{DynEntry, dyn_tag, parse_pt_dynamic}
use sec_compile_option.Elf.{
  File, Host, df_1_now, df_1_pie, df_bind_now, df_textrel, dt_flags, dt_flags_1, dt_textrel,
  em_aarch64, et_dyn, has_flag, pt_gnu_relro, pt_interp,
}
use sec_compile_option.Elfgen.Image.{et_exec}
use sec_compile_option.Go.Run.{done}
use sec_compile_option.Go.Strings.{codes}

pub signals_table :
    (now fb ft pie : Bool)
    → (let v = bit_or (if fb then df_bind_now else 0) (if ft then df_textrel else 0) in
        is_some (if now then some 0 else none)
        || flag_set (if not (v == 0) then some v else none) df_bind_now
        || flag_set (if pie then some df_1_pie else none) df_1_now)
      ≡ (now || fb)
unfolding has_flag
signals_table true fb ft pie = refl
signals_table false true true pie = refl
signals_table false true false pie = refl
signals_table false false true true = refl
signals_table false false true false = refl
signals_table false false false true = refl
signals_table false false false false = refl

pub text_table :
    (text ft fb : Bool) (tags : List DynEntry)
    → dyn_tag tags dt_textrel ≡ (if text then some 0 else none)
    → (let v = bit_or (if fb then df_bind_now else 0) (if ft then df_textrel else 0) in
        dyn_tag tags dt_flags ≡ (if not (v == 0) then some v else none))
    → has_text_relocations tags ≡ (text || ft)
unfolding has_text_relocations has_flag
text_table true ft fb tags t f = rw (has_text_relocations, t) refl
text_table false true true tags t f = rw (has_text_relocations, t, f) refl
text_table false true false tags t f = rw (has_text_relocations, t, f) refl
text_table false false true tags t f = rw (has_text_relocations, t, f) refl
text_table false false false tags t f = rw (has_text_relocations, t, f) refl

pie_flag_table : (b : Bool) → has_flag (if b then df_1_pie else 0) df_1_pie ≡ b
unfolding has_flag
pie_flag_table true = refl
pie_flag_table false = refl

pub nx_table :
    (without executable : Bool)
    → nx_verdict (if not without then present (if executable then 7 else 6) else absent) ≡ (
        if without
        then warn_result (codes "NX unknown (no GNU_STACK)")
        else if executable
        then bad_result (codes "NX disabled")
        else ok_result (codes "NX enabled"))
unfolding nx_verdict has_flag
nx_table true executable = refl
nx_table false true = refl
nx_table false false = refl

-- The checks of one file, from what is read of it.
module _ (host : Host) (f : File) where
  pub flags_1_of :
      (b : Bool) (tags : List DynEntry)
      → first_value (f.dyn_value dt_flags_1) ≡ none
      → parse_pt_dynamic host f ≡ done tags
      → dyn_tag tags dt_flags_1 ≡ (if b then some df_1_pie else none)
      → flags_1 host f ≡ done (if b then df_1_pie else 0)
  unfolding flags_1
  flags_1_of true tags v p t = rw (flags_1, v, p, t) refl
  flags_1_of false tags v p t = rw (flags_1, v, p, t) refl

  pub pic_of :
      (b t : Bool) (tags : List DynEntry)
      → (f.ftype == et_dyn) ≡ b
      → parse_pt_dynamic host f ≡ done tags
      → has_text_relocations tags ≡ t
      → pic host (some f)
        ≡ done (
            if b
            then (if t
                then bad_result (codes "Text relocations (not PIC)")
                else ok_result (codes "PIC enabled (no text relocations)"))
            else na_result (codes "N/A"))
  unfolding pic
  pic_of true t tags e p h = rw (e, p, h) refl
  pic_of false t tags e p h = rw e refl

  pub relro_of :
      (b now : Bool)
      → no_progs f.progs ≡ false
      → has_segment pt_gnu_relro f.progs ≡ b
      → bind_now_of host f ≡ done now
      → relro host (some f)
        ≡ done (
            if b
            then (if now
                then ok_result (codes "Full RELRO")
                else warn_result (codes "Partial RELRO"))
            else bad_result (codes "No RELRO"))
  unfolding relro relro_verdict
  relro_of true now e h n = rw (h, n, e) refl
  relro_of false now e h n = rw (h, e) refl

  pub pie_of :
      (b flagged with_interp : Bool)
      → f.ftype ≡ (if b then et_dyn else et_exec)
      → flags_1 host f ≡ done (if flagged then df_1_pie else 0)
      → has_segment pt_interp f.progs ≡ with_interp
      → pie host (some f)
        ≡ done (
            if b
            then (if flagged && not with_interp
                then ok_result (codes "Static PIE")
                else if flagged || with_interp
                then ok_result (codes "PIE enabled")
                else info_result (codes "DSO (shared library)"))
            else bad_result (codes "PIE disabled"))
  unfolding pie pie_verdict
  pie_of true flagged with_interp t g i = rw (g, i, t, pie_flag_table flagged) refl
  pie_of false flagged with_interp t g i = rw (g, i, t) refl

  pub retguard_of :
      (g : Bool)
      → f.section (codes ".ohos.randomdata") ≡ none
      → has_segment retguard_segment_type f.progs ≡ g
      → ohos_retguard (some f) ≡ (
          if not (f.machine == em_aarch64)
          then na_result (codes "N/A (not AArch64)")
          else if g
          then ok_result (codes "Retguard enabled")
          else bad_result (codes "No retguard"))
  unfolding ohos_retguard
  retguard_of g e h = rw (ohos_retguard, e, h) refl

pub typed_dyn : (b : Bool) → ((if b then et_dyn else et_exec) == et_dyn) ≡ b
typed_dyn true = refl
typed_dyn false = refl
