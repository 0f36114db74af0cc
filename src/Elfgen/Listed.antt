-- ===== src/Elfgen/Listed.antt =====
-- The dynamic section that `Build` writes, written out by the fields of the layout.
use Prim.Native.Nat.{bit_or}
use mathlib.Core.List.{map-append}
use sec_compile_option.Base.{
  Bool, List, [], false, if◌then◌else◌, length, map, refl, true, ℕ, ◌%◌, ◌++◌, ◌+◌, ◌^◌, ◌||◌, ◌∙◌,
  ◌∷◌, ◌≡◌,
}
use sec_compile_option.Dyn.{DynEntry}
use sec_compile_option.Elf.{df_bind_now, df_textrel}
use sec_compile_option.Elfgen.{
  Layout, add_gen_syms, entry, flags_val, join_paths, non_empty, patched, strings_of,
  wanted_entries, when,
}
use sec_compile_option.Elfgen.Counts.{flags_val_lem, non_empty-append}
use sec_compile_option.Elfgen.Headers.{live_entries}
use sec_compile_option.Elfgen.Image.{plan_of}
use sec_compile_option.Go.Strings.{Bytes}

-- `Elfgen.tmpDyn` after the patches, with the numbers of the gABI, for symbols and strings at the
-- offsets `sym_at` and `str_at` of the file.
abbrev pub listed_at : Layout → ℕ → ℕ → List DynEntry
listed_at l sym_at str_at =
    let s = strings_of l in
    (if non_empty l.dyn_syms || non_empty l.object_syms
      then entry 1 s.needed_off
        ∷ entry 6 ((0x400000 + sym_at) % 2 ^ 64)
        ∷ entry 5 ((0x400000 + str_at) % 2 ^ 64)
        ∷ entry 10 (length s.str_buf)
        ∷ entry 11 24
        ∷ []
      else [])
    ++ ((if non_empty (join_paths [] l.rpath) then entry 15 s.rpath_off ∷ [] else [])
        ++ ((if non_empty (join_paths [] l.runpath) then entry 29 s.runpath_off ∷ [] else [])
            ++ ((if l.bind_now then entry 24 0 ∷ [] else [])
                ++ ((if l.text_rel then entry 22 0 ∷ [] else [])
                    ++ ((if l.flags_bind || l.flags_text_rel
                          then entry 30 (
                              (if l.flags_bind then 8 else 0) + (if l.flags_text_rel then 4 else 0))
                            ∷ []
                          else [])
                        ++ (if l.flags1_pie then entry 0x6ffffffb 0x8000000 ∷ [] else []))))))

abbrev pub listed_entries : Layout → List DynEntry
listed_entries l = let p = plan_of l (strings_of l) in listed_at l p.sym_sec.offset p.str_start

pub map-when {ℓ κ} :
    {A : Type ℓ} {B : Type κ} (f : A → B) (c : Bool) (xs : List A)
    → map f (when c xs) ≡ when c (map f xs)
map-when f true xs = refl
map-when f false xs = refl

non_empty-add_gen_syms :
    (i : ℕ) (ss : List Bytes) (buf : Bytes) → non_empty (add_gen_syms i ss buf).0 ≡ non_empty ss
unfolding add_gen_syms
non_empty-add_gen_syms i [] buf = refl
non_empty-add_gen_syms i (s ∷ ss) buf = refl

non_empty-syms :
    (l : Layout) → non_empty (strings_of l).syms ≡ (non_empty l.dyn_syms || non_empty l.object_syms)
unfolding strings_of
non_empty-syms l =
    let funcs = add_gen_syms 0x12 l.dyn_syms (0 ∷ []) in
    non_empty-append funcs.0 (add_gen_syms 0x11 l.object_syms funcs.1).0
    ∙ rw
        (
          non_empty-add_gen_syms 0x12 l.dyn_syms (0 ∷ []),
          non_empty-add_gen_syms 0x11 l.object_syms funcs.1,
        )
        refl

flags_sum :
    (b t : Bool)
    → bit_or (if b then df_bind_now else 0) (if t then df_textrel else 0)
      ≡ (if b then 8 else 0) + (if t then 4 else 0)
flags_sum true true = refl
flags_sum true false = refl
flags_sum false true = refl
flags_sum false false = refl

flags_val_sum :
    (l : Layout)
    → flags_val l ≡ (if l.flags_bind then 8 else 0) + (if l.flags_text_rel then 4 else 0)
unfolding flags_val
flags_val_sum l = flags_sum l.flags_bind l.flags_text_rel

pub live_entries-listed : (l : Layout) → live_entries l ≡ listed_entries l
unfolding wanted_entries patched strings_of
live_entries-listed l =
    simp (map-append, map-when, flags_val_lem) (rw (← non_empty-syms l, ← flags_val_sum l) refl)
