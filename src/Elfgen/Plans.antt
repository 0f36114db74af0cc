-- ===== src/Elfgen/Plans.antt =====
-- Where the plan of a layout puts the sections.
use mathlib.Core.Path.{subst}
use sec_compile_option.Base.{ap, arith, length, refl, sym, ℕ, ◌%◌, ◌*◌, ◌+◌, ◌∙◌, ◌≡◌}
use sec_compile_option.Checks.Rpath.{start}
use sec_compile_option.Elfgen.{Layout, phdr_count, strings_of, tmp_dyn}
use sec_compile_option.Elfgen.Image.{Plan, Section, align8, interp_text, place, plan_of}
use sec_compile_option.Elfgen.Sections.{IsPlaced, place-IsPlaced}

-- The three placements, from the start of the sections on.
pub record IsPlan (p : Plan) (start interp dynamic symbols strings : ℕ) : Type 0 where
  pub interp_placed : IsPlaced interp start (p.interp_sec, start + align8 interp)
  pub dyn_placed :
      IsPlaced dynamic (start + align8 interp) (p.dyn_sec, start + align8 interp + align8 dynamic)
  pub sym_placed :
      IsPlaced symbols
        (start + align8 interp + align8 dynamic)
        (p.sym_sec, start + align8 interp + align8 dynamic + align8 symbols)
  pub str_placed : p.str_start ≡ start + align8 interp + align8 dynamic + align8 symbols
  pub totalled : p.total ≡ start + align8 interp + align8 dynamic + align8 symbols + align8 strings

moved :
    (len off : ℕ) (r : Section × ℕ) → IsPlaced len off r → IsPlaced len off (r.0, off + align8 len)
moved len off r p = record {
  sized = p.sized;
  standing = p.standing;
  next = refl;
  aligned = ap (λ n. n % 8) (sym p.next) ∙ p.aligned;
}

-- Three sections placed one behind the other.
record IsChain (start a d y : ℕ) : Type 0 where
  first : IsPlaced a start (place a start)
  second : IsPlaced d (start + align8 a) (place d (place a start).1)
  third : IsPlaced y (start + align8 a + align8 d) (place y (place d (place a start).1).1)

place-IsChain : (start a d y : ℕ) → start % 8 ≡ 0 → IsChain start a d y
place-IsChain start a d y h =
    let off1 = (place a start).1 in
    let p1 = place-IsPlaced a start h in
    let p2 = subst (λ o. IsPlaced d o (place d off1)) p1.next (place-IsPlaced d off1 p1.aligned) in
    let off2 = (place d off1).1 in
    record {
      first = p1;
      second = p2;
      third = subst (λ o. IsPlaced y o (place y off2)) p2.next (place-IsPlaced y off2 p2.aligned);
    }

pub plan_of-IsPlan :
    (l : Layout)
    → let s = strings_of l in
      IsPlan
        (plan_of l s)
        (64 + phdr_count l s * 56)
        (length (interp_text l))
        (length (tmp_dyn l s) * 16)
        (length s.syms * 24)
        (length s.str_buf)
unfolding plan_of
plan_of-IsPlan l =
    let s = strings_of l in
    let c =
      place-IsChain (64 + phdr_count l s * 56) (length (interp_text l)) (length (tmp_dyn l s) * 16)
        (length s.syms * 24) (omega arith) in
    record {
      interp_placed = moved _ _ _ c.first;
      dyn_placed = moved _ _ _ c.second;
      sym_placed = moved _ _ _ c.third;
      str_placed = c.third.next;
      totalled = omega (arith, c.third.next, c.third.aligned);
    }
