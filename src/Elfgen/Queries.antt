-- ===== src/Elfgen/Queries.antt =====
-- Which segments the checks find among the program headers of an image.
use sec_compile_option.Base.{
  Bool, List, [], ap, arith, false, if◌then◌else◌, le→ltb_false, map, not, or_false, refl, true, ℕ,
  ◌++◌, ◌+◌, ◌==◌, ◌||◌, ◌∙◌, ◌∷◌, ◌≡◌, ◌≤◌,
}
use sec_compile_option.Checks.{has_segment}
use sec_compile_option.Checks.Stack.{absent, find_stack, present, retguard_segment_type}
use sec_compile_option.Elf.{Prog, pt_dynamic, pt_gnu_relro, pt_gnu_stack, pt_interp}
use sec_compile_option.Elfgen.{Layout, one_if, when}
use sec_compile_option.Elfgen.Image.{Phdr, Plan, from_start, in_file, phdrs_of, stack_header}
use sec_compile_option.Elfgen.Segments.{segment_of}
use sec_compile_option.Go.Strings.{Bytes}

module _ (image : Bytes) where
  abbrev segs : List Phdr → List Prog
  segs hs = map (segment_of image) hs

  module _ (t : ℕ) where
    -- Headers of another type are passed over.
    pass :
        (c : Bool) (h : Phdr) (rest : List Phdr)
        → (h.ptype == t) ≡ false
        → has_segment t (segs (when c (h ∷ []) ++ rest)) ≡ has_segment t (segs rest)
    unfolding has_segment
    pass true h rest e = rw e refl
    pass false h rest e = refl

    found :
        (c : Bool) (h : Phdr) (rest : List Phdr)
        → (h.ptype == t) ≡ true
        → has_segment t (segs (when c (h ∷ []) ++ rest)) ≡ (c || has_segment t (segs rest))
    unfolding has_segment
    found true h rest e = rw e refl
    found false h rest e = refl

    missed :
        (c : Bool) (h : Phdr)
        → (h.ptype == t) ≡ false
        → has_segment t (segs (when c (h ∷ []))) ≡ false
    unfolding has_segment
    missed true h e = rw e refl
    missed false h e = refl

  -- The search for the stack passes over a header of another type.
  step_stack :
      (i : ℕ) (c : Bool) (h : Phdr) (rest : List Phdr)
      → i ≤ 10000
      → (h.ptype == pt_gnu_stack) ≡ false
      → find_stack i (segs (when c (h ∷ []) ++ rest)) ≡ find_stack (i + one_if c) (segs rest)
  unfolding find_stack
  step_stack i true h rest small e = rw (le→ltb_false 10000 i small, e) refl
  step_stack i false h rest small e = ap (λ n. find_stack n (segs rest)) (omega arith)

  last_stack :
      (i : ℕ) (c x : Bool)
      → i ≤ 10000
      → find_stack i (segs (when c (stack_header x ∷ [])))
        ≡ (if c then present (if x then 7 else 6) else absent)
  unfolding find_stack
  last_stack i true x small = rw (le→ltb_false 10000 i small) refl
  last_stack i false x small = refl

  module _ (l : Layout) (p : Plan) where
    abbrev stack_part : List Phdr
    stack_part = when (not l.no_stack) (stack_header l.gnu_stack_x ∷ [])

    abbrev retguard_part : List Phdr
    retguard_part = when l.retguard (from_start retguard_segment_type 4 0 ∷ []) ++ stack_part

    abbrev relro_part : List Phdr
    relro_part = when l.relro (from_start pt_gnu_relro 4 p.total ∷ []) ++ retguard_part

    abbrev dyn_part : List Phdr
    dyn_part = when (not (p.dyn_sec.size == 0)) (in_file pt_dynamic 6 p.dyn_sec ∷ []) ++ relro_part

    pub has_segment-interp :
        has_segment pt_interp (segs (phdrs_of l p)) ≡ not (p.interp_sec.size == 0)
    unfolding phdrs_of has_segment
    has_segment-interp =
        found pt_interp (not (p.interp_sec.size == 0)) (in_file pt_interp 4 p.interp_sec) dyn_part
          refl
        ∙ (ap (λ b. not (p.interp_sec.size == 0) || b)
              (pass pt_interp (not (p.dyn_sec.size == 0)) (in_file pt_dynamic 6 p.dyn_sec)
                  relro_part refl
                ∙ (pass pt_interp l.relro (from_start pt_gnu_relro 4 p.total) retguard_part refl
                    ∙ (pass pt_interp l.retguard (from_start retguard_segment_type 4 0) stack_part
                          refl
                        ∙ missed pt_interp (not l.no_stack) (stack_header l.gnu_stack_x) refl)))
            ∙ or_false (not (p.interp_sec.size == 0)))

    pub has_segment-relro : has_segment pt_gnu_relro (segs (phdrs_of l p)) ≡ l.relro
    unfolding phdrs_of has_segment
    has_segment-relro =
        pass pt_gnu_relro (not (p.interp_sec.size == 0)) (in_file pt_interp 4 p.interp_sec) dyn_part
          refl
        ∙ (pass pt_gnu_relro (not (p.dyn_sec.size == 0)) (in_file pt_dynamic 6 p.dyn_sec) relro_part
              refl
            ∙ (found pt_gnu_relro l.relro (from_start pt_gnu_relro 4 p.total) retguard_part refl
                ∙ (ap (λ b. l.relro || b)
                      (pass pt_gnu_relro l.retguard (from_start retguard_segment_type 4 0)
                          stack_part refl
                        ∙ missed pt_gnu_relro (not l.no_stack) (stack_header l.gnu_stack_x) refl)
                    ∙ or_false l.relro)))

    pub has_segment-retguard : has_segment retguard_segment_type (segs (phdrs_of l p)) ≡ l.retguard
    unfolding phdrs_of has_segment
    has_segment-retguard =
        pass retguard_segment_type (not (p.interp_sec.size == 0)) (in_file pt_interp 4 p.interp_sec)
          dyn_part refl
        ∙ (pass retguard_segment_type (not (p.dyn_sec.size == 0)) (in_file pt_dynamic 6 p.dyn_sec)
              relro_part refl
            ∙ (pass retguard_segment_type l.relro (from_start pt_gnu_relro 4 p.total) retguard_part
                  refl
                ∙ (found retguard_segment_type l.retguard (from_start retguard_segment_type 4 0)
                      stack_part refl
                    ∙ (ap (λ b. l.retguard || b)
                          (missed retguard_segment_type (not l.no_stack)
                            (stack_header l.gnu_stack_x) refl)
                        ∙ or_false l.retguard))))

    pub find_stack-phdrs_of :
        find_stack 0 (segs (phdrs_of l p))
        ≡ (if not l.no_stack then present (if l.gnu_stack_x then 7 else 6) else absent)
    unfolding phdrs_of find_stack
    find_stack-phdrs_of =
        let i = 1 + one_if (not (p.interp_sec.size == 0)) in
        let d = i + one_if (not (p.dyn_sec.size == 0)) in
        step_stack 1 (not (p.interp_sec.size == 0)) (in_file pt_interp 4 p.interp_sec) dyn_part
          (omega arith) refl
        ∙ (step_stack i (not (p.dyn_sec.size == 0)) (in_file pt_dynamic 6 p.dyn_sec) relro_part
              (ground arith) refl
            ∙ (step_stack d l.relro (from_start pt_gnu_relro 4 p.total) retguard_part (ground arith)
                  refl
                ∙ (step_stack (d + one_if l.relro) l.retguard (from_start retguard_segment_type 4 0)
                      stack_part (ground arith) refl
                    ∙ last_stack (d + one_if l.relro + one_if l.retguard) (not l.no_stack)
                        l.gnu_stack_x (ground arith))))
