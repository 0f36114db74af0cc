-- ===== src/Elfgen/Entries.antt =====
-- The entries that are written fit in their words, and keep their tags.
use sec_compile_option.Base.{
  All, All-append, All-to_map, Bool, Bool-cases, List, [], arith, false, inl, inr, length, not,
  true, ℕ, ◌++◌, ◌<◌, ◌==◌, ◌^◌, ◌∷◌, ◌≡◌,
}
use sec_compile_option.Dyn.{DynEntry}
use sec_compile_option.Dyn.Entries.{Fits}
use sec_compile_option.Elf.{
  df_1_pie, dt_bind_now, dt_flags, dt_flags_1, dt_needed, dt_rpath, dt_runpath, dt_strsz, dt_strtab,
  dt_syment, dt_symtab, dt_textrel,
}
use sec_compile_option.Elfgen.{
  Layout, Strings, entry, flags_val, non_empty, patched, str_off_if, strings_of, wanted_entries,
  when,
}
use sec_compile_option.Elfgen.Headers.{All-when, IsSmall, live_entries}
use sec_compile_option.Elfgen.Image.{plan_of, vaddr_of}
use sec_compile_option.Elfgen.Plans.{plan_of-IsPlan}
use sec_compile_option.Go.Strings.{Bytes}
use sec_compile_option.Go.Words.{two64}

-- The offsets of the strings are uint64.
pub record AreWords (s : Strings) : Type 0 where
  pub needed : s.needed_off < two64
  pub rpath : s.rpath_off < two64
  pub runpath : s.runpath_off < two64

str_off_if-lt : (b : Bool) (s buf : Bytes) → (str_off_if b s buf).0 < two64
unfolding str_off_if
str_off_if-lt true s buf = omega arith
str_off_if-lt false s buf = omega arith

pub strings_of-AreWords : (l : Layout) → AreWords (strings_of l)
strings_of-AreWords l =
    unfold strings_of in
    record {
      needed = str_off_if-lt _ _ _;
      rpath = str_off_if-lt _ _ _;
      runpath = str_off_if-lt _ _ _;
    }

pub patched_tag : (s : Strings) (a b : ℕ) (e : DynEntry) → (patched s a b e).tag ≡ e.tag
unfolding patched
patched_tag s a b e = ground arith

patched-Fits :
    (s : Strings) (a b : ℕ) (e : DynEntry)
    → AreWords s
    → length s.str_buf < two64
    → a < two64
    → b < two64
    → Fits 8 e
    → Fits 8 (patched s a b e)
unfolding patched
patched-Fits s a b e w n ha hb f = ground arith

All-when_list :
    (P : DynEntry → Type 0) (c : Bool) (es : List DynEntry) → All P es → All P (when c es)
All-when_list P true es h = h
All-when_list P false es h = tt

flags_val-lt : (l : Layout) → flags_val l < 2 ^ 63
unfolding flags_val
flags_val-lt l = elim (Bool-cases l.flags_bind) [
  | inl b ↦ elim (Bool-cases l.flags_text_rel) [
    | inl t ↦ rw (b, t) (omega arith)
    | inr t ↦ rw (b, t) (omega arith)
  ]
  | inr b ↦ elim (Bool-cases l.flags_text_rel) [
    | inl t ↦ rw (b, t) (omega arith)
    | inr t ↦ rw (b, t) (omega arith)
  ]
]

All-flag :
    (P : DynEntry → Type 0) (c : Bool) (e : DynEntry) (es : List DynEntry)
    → P e
    → All P es
    → All P (when c (e ∷ []) ++ es)
All-flag P true e es h hs = (h, hs)
All-flag P false e es h hs = hs

entries-All :
    (P : DynEntry → Type 0) (l : Layout) (s : Strings)
    → ((t v : ℕ) → 0 < t → t < 2 ^ 63 → v < 2 ^ 63 → P (entry t v))
    → All P (wanted_entries l s)
unfolding wanted_entries
entries-All P l s h =
    let p = λ (t : ℕ) (a : 0 < t) (b : t < 2 ^ 63). h t 0 a b (omega arith) in
    let flagged = flags_val-lt l in
    let table : All P (
        when (non_empty s.syms) (
          entry dt_needed 0
          ∷ entry dt_symtab 0
          ∷ entry dt_strtab 0
          ∷ entry dt_strsz 0
          ∷ entry dt_syment 24
          ∷ [])) =
      All-when_list P (non_empty s.syms) _ (
        p dt_needed (omega arith) (omega arith),
        (
          p dt_symtab (omega arith) (omega arith),
          (
            p dt_strtab (omega arith) (omega arith),
            (
              p dt_strsz (omega arith) (omega arith),
              (h dt_syment 24 (omega arith) (omega arith) (omega arith), tt),
            ),
          ),
        ),
      ) in
    let one = λ (t v : ℕ). entry t v ∷ [] in
    let pies = when l.flags1_pie (one dt_flags_1 df_1_pie) in
    let flags = when (not (flags_val l == 0)) (one dt_flags (flags_val l)) ++ pies in
    let texts = when l.text_rel (one dt_textrel 0) ++ flags in
    let binds = when l.bind_now (one dt_bind_now 0) ++ texts in
    let runpaths = when (non_empty s.runpath_str) (one dt_runpath 0) ++ binds in
    let rpaths = when (non_empty s.rpath_str) (one dt_rpath 0) ++ runpaths in
    All-append P _ rpaths table (
      All-flag P (non_empty s.rpath_str) _ runpaths (p dt_rpath (omega arith) (omega arith)) (
        All-flag P (non_empty s.runpath_str) _ binds (p dt_runpath (omega arith) (omega arith)) (
          All-flag P l.bind_now _ texts (p dt_bind_now (omega arith) (omega arith)) (
            All-flag P l.text_rel _ flags (p dt_textrel (omega arith) (omega arith)) (
              All-flag P (not (flags_val l == 0)) _ pies
                (h dt_flags (flags_val l) (omega arith) (omega arith) flagged)
                (All-when P l.flags1_pie (entry dt_flags_1 df_1_pie)
                  (λ c. h dt_flags_1 df_1_pie (omega arith) (omega arith) (omega arith))))))))

pub live_entries-Fits : (l : Layout) → IsSmall l → All (Fits 8) (live_entries l)
live_entries-Fits l small =
    let s = strings_of l in
    let p = plan_of l s in
    let plan = plan_of-IsPlan l in
    let f = patched s (vaddr_of p.sym_sec.offset) (vaddr_of p.str_start) in
    let short : length s.str_buf < two64 = omega (arith, plan.totalled) in
    All-to_map (Fits 8) f (wanted_entries l s) (
      entries-All (λ e. Fits 8 (f e)) l s
        (λ t v a b c.
          patched-Fits s (vaddr_of p.sym_sec.offset) (vaddr_of p.str_start) (entry t v)
            (strings_of-AreWords l) short (omega arith) (omega arith)
            (omega arith, omega arith, omega arith)))
