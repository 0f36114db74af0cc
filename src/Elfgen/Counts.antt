-- ===== src/Elfgen/Counts.antt =====
-- `phdrCount` is the number of program headers that `Build` writes.
use Prim.Native.Nat.{bit_or}
use sec_compile_option.Base.{
  Bool, Bool-cases, List, [], ap, arith, false, if◌then◌else◌, inl, inr, length, length-append,
  ne→==_false, not, refl, suc, true, ℕ, ◌*◌, ◌++◌, ◌==◌, ◌||◌, ◌∙◌, ◌∷◌, ◌≡◌,
}
use sec_compile_option.Elf.{df_bind_now, df_textrel, dt_null}
use sec_compile_option.Elfgen.{
  Layout, Strings, entry, flags_val, has_dyn, has_interp, non_empty, one_if, phdr_count, tmp_dyn,
  wanted_entries, when,
}
use sec_compile_option.Elfgen.Image.{Plan, interp_text, phdrs_of}

pub non_empty-append {ℓ} :
    {A : Type ℓ} (xs ys : List A) → non_empty (xs ++ ys) ≡ (non_empty xs || non_empty ys)
non_empty-append [] ys = refl
non_empty-append (x ∷ xs) ys = refl

non_empty-when {ℓ} : {A : Type ℓ} (c : Bool) (x : A) (xs : List A) → non_empty (when c (x ∷ xs)) ≡ c
non_empty-when true x xs = refl
non_empty-when false x xs = refl

length-when {ℓ} : {A : Type ℓ} (c : Bool) (x : A) → length (when c (x ∷ [])) ≡ one_if c
length-when true x = refl
length-when false x = refl

non_empty-length {ℓ} : {A : Type ℓ} (xs : List A) → not (length xs == 0) ≡ non_empty xs
non_empty-length [] = refl
non_empty-length (x ∷ xs) = rw (ne→==_false (suc (length xs)) 0 (omega arith)) refl

pub flags_val_lem : (l : Layout) → not (flags_val l == 0) ≡ (l.flags_bind || l.flags_text_rel)
unfolding flags_val
flags_val_lem l = flags_lem l.flags_bind l.flags_text_rel
  where
    flags_lem :
        (b t : Bool)
        → not (bit_or (if b then df_bind_now else 0) (if t then df_textrel else 0) == 0) ≡ (b || t)
    flags_lem true true = refl
    flags_lem true false = refl
    flags_lem false true = refl
    flags_lem false false = refl

reordered :
    (a b c d e f g h : Bool)
    → (a || (b || (c || (d || (e || ((f || g) || h))))))
      ≡ (a || (d || (h || (f || (e || (g || (b || c)))))))
reordered true b c d e f g h = refl
reordered false b c true e f g h = ground arith
reordered false b c false e f g true = ground arith
reordered false b c false e true g false = ground arith
reordered false b c false e false g false = ground arith

pub non_empty-wanted_entries :
    (l : Layout) (s : Strings) → non_empty (wanted_entries l s) ≡ has_dyn l s
unfolding wanted_entries has_dyn
non_empty-wanted_entries l s =
    simp (non_empty-append, non_empty-when, flags_val_lem)
      (reordered (non_empty s.syms) (non_empty s.rpath_str) (non_empty s.runpath_str) l.bind_now
        l.text_rel l.flags_bind l.flags_text_rel l.flags1_pie)

pub non_empty-tmp_dyn : (l : Layout) (s : Strings) → non_empty (tmp_dyn l s) ≡ has_dyn l s
unfolding tmp_dyn
non_empty-tmp_dyn l s =
    non_empty-append (wanted_entries l s)
      (when (non_empty (wanted_entries l s)) (entry dt_null 0 ∷ []))
    ∙ (ap (λ b. non_empty (wanted_entries l s) || b)
          (non_empty-when (non_empty (wanted_entries l s)) (entry dt_null 0) [])
        ∙ (twice (non_empty (wanted_entries l s)) ∙ non_empty-wanted_entries l s))
  where
    twice : (b : Bool) → (b || b) ≡ b
    twice true = refl
    twice false = refl

pub interp_size : (l : Layout) → not (length (interp_text l) == 0) ≡ has_interp l
unfolding interp_text
interp_size l = elim (Bool-cases (has_interp l)) [ inl e ↦ rw e refl | inr e ↦ rw e refl ]

times16 : (n : ℕ) → not (n * 16 == 0) ≡ not (n == 0)
times16 n = ground arith

pub dyn_size : (l : Layout) (s : Strings) → not (length (tmp_dyn l s) * 16 == 0) ≡ has_dyn l s
dyn_size l s =
    times16 (length (tmp_dyn l s)) ∙ (non_empty-length (tmp_dyn l s) ∙ non_empty-tmp_dyn l s)

pub length-phdrs_of :
    (l : Layout) (s : Strings) (p : Plan)
    → p.interp_sec.size ≡ length (interp_text l)
    → p.dyn_sec.size ≡ length (tmp_dyn l s) * 16
    → length (phdrs_of l p) ≡ phdr_count l s
unfolding phdrs_of phdr_count
length-phdrs_of l s p hi hd =
    rw (hi, hd, interp_size l, dyn_size l s) (simp (length-append {0}, length-when) (omega arith))
