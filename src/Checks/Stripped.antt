-- ===== src/Checks/Stripped.antt =====
-- The checks of a file without section headers, for which debug/elf answers no dynamic value.
use Prim.Native.Nat.{bit_and}
use sec_compile_option.Base.{
  Bool, Bool-cases, List, [], any, ap, false, if◌then◌else◌, inl, inr, none, not, refl, some, ℕ,
  ◌==◌, ◌||◌, ◌∷◌, ◌≡◌,
}
use sec_compile_option.Checks.{bad_result, ok_result}
use sec_compile_option.Checks.Binding.{
  bind_now, bind_now_of, first_value, flag_set, is_some, signals_now,
}
use sec_compile_option.Dyn.{DynEntry, dyn_tag}
use sec_compile_option.Dyn.Segment.{HasDynamic, parse_pt_dynamic-HasDynamic}
use sec_compile_option.Elf.{File, Host, dt_bind_now, dt_flags, dt_flags_1, has_flag}
use sec_compile_option.Go.Run.{done}
use sec_compile_option.Go.Strings.{codes}

-- Some entry has the tag.
abbrev pub has_tag : ℕ → List DynEntry → Bool
has_tag t es = any (λ (e : DynEntry). e.tag == t) es

-- The first entry with the tag has a bit of the mask.
abbrev pub first_has : ℕ → ℕ → List DynEntry → Bool
first_has t mask [] = false
first_has t mask (e ∷ es) =
    if e.tag == t then not (bit_and e.val mask == 0) else first_has t mask es

tag_present : (t : ℕ) (es : List DynEntry) → is_some (dyn_tag es t) ≡ has_tag t es
unfolding dyn_tag
tag_present t [] = refl
tag_present t (e ∷ es) = elim (Bool-cases (e.tag == t)) [
  | inl h ↦ rw h refl
  | inr h ↦ rw h (tag_present t es)
]

bits_present :
    (t mask : ℕ) (es : List DynEntry) → flag_set (dyn_tag es t) mask ≡ first_has t mask es
unfolding dyn_tag has_flag
bits_present t mask [] = refl
bits_present t mask (e ∷ es) = elim (Bool-cases (e.tag == t)) [
  | inl h ↦ rw h refl
  | inr h ↦ rw h (bits_present t mask es)
]

-- BIND_NOW on a file for which debug/elf answers no dynamic value, and whose one PT_DYNAMIC segment
-- was written by an encoder and can be read whole, is reported exactly if one of three holds of the
-- encoded entries: there is a DT_BIND_NOW (24), the first DT_FLAGS (30) has the bit 8, or the first
-- DT_FLAGS_1 (0x6ffffffb) has the bit 1.
pub bind_now-HasDynamic :
    (host : Host) (f : File) (es : List DynEntry)
    → ((t : ℕ) → first_value (f.dyn_value t) ≡ none)
    → HasDynamic host f es
    → bind_now host (some f)
      ≡ done (
          if has_tag 24 es || first_has 30 8 es || first_has 0x6ffffffb 1 es
          then ok_result (codes "Bind now")
          else bad_result (codes "Lazy binding"))
unfolding bind_now bind_now_of
bind_now-HasDynamic host f es n h =
    let silent : signals_now (λ t. first_value (f.dyn_value t)) ≡ false =
      unfold signals_now in rw (n dt_bind_now, n dt_flags, n dt_flags_1) refl in
    let loud : signals_now (dyn_tag es)
        ≡ (has_tag 24 es || first_has 30 8 es || first_has 0x6ffffffb 1 es) =
      unfold signals_now in
      rw (tag_present 24 es, bits_present 30 8 es, bits_present 0x6ffffffb 1 es) refl in
    rw (silent, parse_pt_dynamic-HasDynamic host f es h)
      (ap
        (λ b. done (if b then ok_result (codes "Bind now") else bad_result (codes "Lazy binding")))
        loud)
