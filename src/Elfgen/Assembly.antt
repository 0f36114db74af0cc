-- ===== src/Elfgen/Assembly.antt =====
-- `Build` makes its image from the parts, one behind the other.
use sec_compile_option.Base.{
  List, [], ap, append-nil, append_assoc, arith, length, length-append, map, refl, suc, sym, ℕ, ◌*◌,
  ◌++◌, ◌+◌, ◌∙◌, ◌∷◌, ◌≡◌,
}
use sec_compile_option.Dyn.{DynEntry}
use sec_compile_option.Elfgen.{Layout, patched, phdr_count, strings_of, tmp_dyn}
use sec_compile_option.Elfgen.Counts.{length-phdrs_of}
use sec_compile_option.Elfgen.Image.{
  Phdr, Plan, align8, build, copy_section, interp_text, phdrs_of, plan_of, vaddr_of, write_dyns,
  write_phdrs,
}
use sec_compile_option.Elfgen.Loops.{
  length-concat_map, write_dyns_lem, write_phdrs_lem, write_syms_lem, zeros, zeros_total,
}
use sec_compile_option.Elfgen.Plans.{IsPlan, plan_of-IsPlan}
use sec_compile_option.Elfgen.Sections.{
  copy_at-padded, copy_section_at, length-padded, length-zeros, padded,
}
use sec_compile_option.Elfgen.Writes.{
  concat_map, entry_bytes, header_bytes, phdr_bytes, sym_bytes, write_header_lem,
}
use sec_compile_option.Go.Buffers.{copy_at, copy_at-append}
use sec_compile_option.Go.Run.{done, ◌>>=◌}
use sec_compile_option.Go.Strings.{Bytes}

-- The entries as they are written out.
abbrev pub final_entries : Layout → List DynEntry
final_entries l =
    let s = strings_of l in
    let p = plan_of l s in
    map (patched s (vaddr_of p.sym_sec.offset) (vaddr_of p.str_start)) (tmp_dyn l s)

-- The image: header, program headers, then the interpreter, the dynamic section, the symbols and
-- the strings, each filled up to a multiple of 8 bytes.
abbrev pub image_of : Layout → Bytes
image_of l =
    let s = strings_of l in
    header_bytes l (phdr_count l s)
    ++ (concat_map phdr_bytes (phdrs_of l (plan_of l s))
        ++ (padded (interp_text l)
            ++ (padded (concat_map entry_bytes (final_entries l))
                ++ (padded (concat_map sym_bytes s.syms) ++ padded s.str_buf))))

pub length-map {ℓ κ} :
    {A : Type ℓ} {B : Type κ} (f : A → B) (xs : List A) → length (map f xs) ≡ length xs
length-map f [] = refl
length-map f (x ∷ xs) = ap suc (length-map f xs)

-- The copies of `Build` into a buffer with the ELF header `h` in front, where the zeros of a part
-- are as many as the bytes that are copied there.
module _ (h interp dynamic symbols strings ph : Bytes) (p : Plan) (headed : length h ≡ 64) where
  assemble :
      IsPlan p (64 + length ph) (length interp) (length dynamic) (length symbols) (length strings)
      → (do
        buf ←
            copy_section
              (h
                ++ (zeros (length ph)
                    ++ (zeros (align8 (length interp))
                        ++ (zeros (align8 (length dynamic))
                            ++ (zeros (align8 (length symbols))
                                ++ zeros (align8 (length strings)))))))
              p.interp_sec
              interp
        buf ← copy_section buf p.dyn_sec dynamic
        buf ← copy_section buf p.sym_sec symbols
        buf ← copy_at buf p.str_start strings
        copy_at buf 64 ph)
        ≡ done
            (h ++ (ph ++ (padded interp ++ (padded dynamic ++ (padded symbols ++ padded strings)))))
  assemble plan =
      let z = λ (b : Bytes). zeros (align8 (length b)) in
      let front1 = h ++ zeros (length ph) in
      let front2 = front1 ++ padded interp in
      let front3 = front2 ++ padded dynamic in
      let front4 = front3 ++ padded symbols in
      let n1 : length front1 ≡ 64 + length ph =
        omega (arith, headed, length-append h (zeros (length ph)), length-zeros (length ph)) in
      let n2 : length front2 ≡ 64 + length ph + align8 (length interp) =
        omega (arith, n1, length-append front1 (padded interp), length-padded interp) in
      let n3 : length front3 ≡ 64 + length ph + align8 (length interp) + align8 (length dynamic) =
        omega (arith, n2, length-append front2 (padded dynamic), length-padded dynamic) in
      let n4 : length front4 ≡ p.str_start = omega (
        arith,
        n3,
        plan.str_placed,
        length-append front3 (padded symbols),
        length-padded symbols,
      ) in
      let e1 =
        copy_section_at front1 interp (z dynamic ++ (z symbols ++ z strings)) p.interp_sec
          (64 + length ph) _ n1 plan.interp_placed in
      let e2 =
        copy_section_at front2 dynamic (z symbols ++ z strings) p.dyn_sec
          (64 + length ph + align8 (length interp)) _ n2 plan.dyn_placed in
      let e3 =
        copy_section_at front3 symbols (z strings) p.sym_sec
          (64 + length ph + align8 (length interp) + align8 (length dynamic)) _ n3
          plan.sym_placed in
      let e4 = copy_at-padded front4 strings [] p.str_start n4 in
      let e5 =
        copy_at-append h (zeros (length ph)) ph
          (padded interp ++ (padded dynamic ++ (padded symbols ++ padded strings))) 64 headed
          (length-zeros (length ph)) in
      let zero_ph = zeros (length ph) in
      let unnested : front4 ++ (padded strings ++ [])
          ≡ h
            ++ (zero_ph
                ++ (padded interp ++ (padded dynamic ++ (padded symbols ++ padded strings)))) =
        ap (λ t. front4 ++ t) (append-nil (padded strings))
        ∙ (append_assoc front3 (padded symbols) (padded strings)
            ∙ (append_assoc front2 (padded dynamic) (padded symbols ++ padded strings)
                ∙ (append_assoc front1 (padded interp)
                      (padded dynamic ++ (padded symbols ++ padded strings))
                    ∙ append_assoc h zero_ph (
                        padded interp
                        ++ (padded dynamic ++ (padded symbols ++ padded strings)))))) in
      rw
        (
          ← append_assoc h zero_ph (z interp ++ (z dynamic ++ (z symbols ++ z strings))),
          e1,
          ← append_assoc front1 (padded interp) (z dynamic ++ (z symbols ++ z strings)),
          e2,
          ← append_assoc front2 (padded dynamic) (z symbols ++ z strings),
          e3,
          ← append_assoc front3 (padded symbols) (z strings),
          ← append-nil (z strings),
          e4,
          unnested,
          e5,
        )
        refl

write_dyns-map :
    (f : DynEntry → DynEntry) (es : List DynEntry)
    → write_dyns (map f es) 0 (zeros (length es * 16)) ≡ done (concat_map entry_bytes (map f es))
write_dyns-map f es =
    ap (λ n. write_dyns (map f es) 0 (zeros (n * 16))) (sym (length-map f es))
    ∙ write_dyns_lem (map f es)

write_phdrs_of :
    (ps : List Phdr) (count : ℕ)
    → length ps ≡ count
    → write_phdrs ps 0 (zeros (count * 56)) ≡ done (concat_map phdr_bytes ps)
write_phdrs_of ps count h = ap (λ n. write_phdrs ps 0 (zeros (n * 56))) (sym h) ∙ write_phdrs_lem ps

-- The program headers are as many as were counted.
pub length-phdrs :
    (l : Layout) → length (phdrs_of l (plan_of l (strings_of l))) ≡ phdr_count l (strings_of l)
length-phdrs l =
    let plan = plan_of-IsPlan l in
    length-phdrs_of l (strings_of l) (plan_of l (strings_of l)) plan.interp_placed.sized
      plan.dyn_placed.sized

-- The plan in terms of the bytes that are copied.
pub IsPlan-in_bytes :
    (l : Layout)
    → let s = strings_of l in
      IsPlan
        (plan_of l s)
        (64 + length (concat_map phdr_bytes (phdrs_of l (plan_of l s))))
        (length (interp_text l))
        (length (concat_map entry_bytes (final_entries l)))
        (length (concat_map sym_bytes s.syms))
        (length s.str_buf)
IsPlan-in_bytes l =
    let s = strings_of l in
    let p = plan_of l s in
    let ph : length (concat_map phdr_bytes (phdrs_of l p)) ≡ phdr_count l s * 56 =
      length-concat_map 56 phdr_bytes (λ h. refl) (phdrs_of l p)
      ∙ ap (λ n. n * 56) (length-phdrs l) in
    let dyn : length (concat_map entry_bytes (final_entries l)) ≡ length (tmp_dyn l s) * 16 =
      length-concat_map 16 entry_bytes (λ e. refl) (final_entries l)
      ∙ ap (λ n. n * 16)
          (length-map (patched s (vaddr_of p.sym_sec.offset) (vaddr_of p.str_start))
            (tmp_dyn l s)) in
    let syms : length (concat_map sym_bytes s.syms) ≡ length s.syms * 24 =
      length-concat_map 24 sym_bytes (λ d. refl) s.syms in
    rw (ph, dyn, syms) (plan_of-IsPlan l)

-- `Build` panics on no layout: no write leaves its buffer. It returns the ELF header, the program
-- headers, and then the interpreter, the dynamic entries, the symbols and the strings, each filled
-- up with zeros to a multiple of 8 bytes; the writes overlap nowhere.
pub build-image_of : (l : Layout) → build l ≡ done (image_of l)
unfolding build
build-image_of l =
    let s = strings_of l in
    let p = plan_of l s in
    let plan = IsPlan-in_bytes l in
    let count = phdr_count l s in
    let ph = concat_map phdr_bytes (phdrs_of l p) in
    let dynamic = concat_map entry_bytes (final_entries l) in
    let symbols = concat_map sym_bytes s.syms in
    let z = λ (b : Bytes). zeros (align8 (length b)) in
    let rest =
      zeros (length ph) ++ (z (interp_text l) ++ (z dynamic ++ (z symbols ++ z s.str_buf))) in
    rw
      (
        zeros_total (length ph) (align8 (length (interp_text l))) (align8 (length dynamic))
            (align8 (length symbols)) (align8 (length s.str_buf)) p.total plan.totalled,
        write_header_lem l count rest,
        write_syms_lem s.syms,
        write_dyns-map (patched s (vaddr_of p.sym_sec.offset) (vaddr_of p.str_start)) (tmp_dyn l s),
        write_phdrs_of (phdrs_of l p) count (length-phdrs l),
      )
      (assemble (header_bytes l count) (interp_text l) dynamic symbols s.str_buf ph p refl plan)
