-- ===== src/Elfgen/Parsed.antt =====
-- `parsePTDynamic` on the image of a layout reads the entries of the layout.
use mathlib.Core.List.{map-append}
use sec_compile_option.Base.{
  All, All-append, All-to_map, Bool, Bool-cases, List, [], ap, arith, false, inl, inr, length, map,
  not, refl, sym, true, ◌++◌, ◌==◌, ◌∙◌, ◌∷◌, ◌≡◌, ◌≢◌, ◌≤◌,
}
use sec_compile_option.Dyn.{DynEntry, is_failure, parse_pt_dynamic, pt_dynamic_entries}
use sec_compile_option.Dyn.Segment.{
  HasDynamic, parse_pt_dynamic-HasDynamic, pt_dynamic_entries_other,
}
use sec_compile_option.Elf.{Host, pt_dynamic}
use sec_compile_option.Elfgen.{Layout, non_empty, patched, strings_of, wanted_entries, when}
use sec_compile_option.Elfgen.Assembly.{IsPlan-in_bytes, image_of}
use sec_compile_option.Elfgen.Counts.{dyn_size, non_empty-wanted_entries}
use sec_compile_option.Elfgen.Dynamic.{dynamic_encoded, dynamic_slice}
use sec_compile_option.Elfgen.Entries.{live_entries-Fits}
use sec_compile_option.Elfgen.Headers.{
  All-when, IsSmall, back_headers, front_headers, live_entries, phdrs_of_parts, read_elf-image_of,
  section_bound,
}
use sec_compile_option.Elfgen.Image.{Phdr, Plan, in_file, plan_of, vaddr_of}
use sec_compile_option.Elfgen.Plans.{plan_of-IsPlan}
use sec_compile_option.Elfgen.Reader.{read_elf}
use sec_compile_option.Elfgen.Segments.{segment_of}
use sec_compile_option.Go.Run.{done}
use sec_compile_option.Go.Strings.{Bytes}

module _ (l : Layout) (image : Bytes) where
  front_lacks :
      (p : Plan) → All (λ q. q.ptype ≢ pt_dynamic) (map (segment_of image) (front_headers p))
  front_lacks p =
      All-to_map (λ q. q.ptype ≢ pt_dynamic) (segment_of image) (front_headers p)
        (ground arith, All-when (λ h. h.ptype ≢ pt_dynamic) _ _ (λ c. ground arith))

  back_lacks :
      (p : Plan) → All (λ q. q.ptype ≢ pt_dynamic) (map (segment_of image) (back_headers l p))
  back_lacks p =
      All-to_map (λ q. q.ptype ≢ pt_dynamic) (segment_of image) (back_headers l p)
        (All-append (λ h. h.ptype ≢ pt_dynamic) _ _
          (All-when (λ h. h.ptype ≢ pt_dynamic) l.relro _ (λ c. ground arith))
          (All-append (λ h. h.ptype ≢ pt_dynamic) _ _
            (All-when (λ h. h.ptype ≢ pt_dynamic) l.retguard _ (λ c. ground arith))
            (All-when (λ h. h.ptype ≢ pt_dynamic) (not l.no_stack) _ (λ c. ground arith))))

segment_of_read : (image : Bytes) (h : Phdr) → is_failure (segment_of image h).outcome ≡ false
unfolding is_failure
segment_of_read image h = ground arith

none_wanted : (es : List DynEntry) → non_empty es ≡ false → es ≡ []
none_wanted [] h = refl
none_wanted (e ∷ es) h = absurd (cc)

-- Whether there is a dynamic section, by the plan and by the entries.
pub dyn_planned :
    (l : Layout)
    → let s = strings_of l in not ((plan_of l s).dyn_sec.size == 0) ≡ non_empty (wanted_entries l s)
dyn_planned l =
    let s = strings_of l in
    ap (λ n. not (n == 0)) (plan_of-IsPlan l).dyn_placed.sized
    ∙ (dyn_size l s ∙ sym (non_empty-wanted_entries l s))

module _ (host : Host) (l : Layout) (small : IsSmall l) where
  parts_read :
      (c : Bool)
      → not ((plan_of l (strings_of l)).dyn_sec.size == 0) ≡ c
      → (let p = plan_of l (strings_of l) in
          (read_elf (image_of l)).progs
          ≡ map (segment_of (image_of l)) (front_headers p)
            ++ (map (segment_of (image_of l)) (when c (in_file pt_dynamic 6 p.dyn_sec ∷ []))
                ++ map (segment_of (image_of l)) (back_headers l p)))
  parts_read c e =
      let p = plan_of l (strings_of l) in
      let seg = segment_of (image_of l) in
      (read_elf-image_of l small).segments
      ∙ (ap (map seg) (phdrs_of_parts l p)
          ∙ rw (e, map-append seg (front_headers p), map-append seg (when c _) (back_headers l p))
              refl)

  -- With a dynamic section, the file has it as an encoder writes it.
  image_of-HasDynamic :
      (plan_of l (strings_of l)).total ≤ host.max_alloc
      → not ((plan_of l (strings_of l)).dyn_sec.size == 0) ≡ true
      → HasDynamic host (read_elf (image_of l)) (live_entries l)
  image_of-HasDynamic granted e =
      let p = plan_of l (strings_of l) in
      let image = image_of l in
      let plan = IsPlan-in_bytes l in
      let slice = dynamic_slice l e in
      let (bound, _) =
        section_bound _ _ p.total p.dyn_sec _ plan.dyn_placed (omega (arith, plan.totalled)) e in
      record {
        front = map (segment_of image) (front_headers p);
        prog = segment_of image (in_file pt_dynamic 6 p.dyn_sec);
        back = map (segment_of image) (back_headers l p);
        value = 0;
        rest = [];
        splits = parts_read true e;
        front_lacks = front_lacks l image p;
        back_lacks = back_lacks l image p;
        is_dynamic = refl;
        is_read = segment_of_read image (in_file pt_dynamic 6 p.dyn_sec);
        granted = omega arith;
        sized = ap length slice ∙ sym plan.dyn_placed.sized;
        encoded = slice ∙ dynamic_encoded l (sym (dyn_planned l) ∙ e);
        fit = live_entries-Fits l small;
        value_fits = omega arith;
      }

  none_read :
      not ((plan_of l (strings_of l)).dyn_sec.size == 0) ≡ false
      → parse_pt_dynamic host (read_elf (image_of l)) ≡ done []
  unfolding parse_pt_dynamic
  none_read e =
      let p = plan_of l (strings_of l) in
      let image = image_of l in
      let f = read_elf image in
      ap (pt_dynamic_entries host f) (parts_read false e)
      ∙ pt_dynamic_entries_other host f
          (map (segment_of image) (front_headers p) ++ map (segment_of image) (back_headers l p))
          (All-append (λ q. q.ptype ≢ pt_dynamic) (map (segment_of image) (front_headers p)) _
            (front_lacks l image p) (back_lacks l image p))

  -- For an image below 4 GiB on a host that can allocate it, `parsePTDynamic` reads exactly the
  -- dynamic entries of the layout, in their order, without the terminator.
  pub parse_pt_dynamic-image_of :
      (plan_of l (strings_of l)).total ≤ host.max_alloc
      → parse_pt_dynamic host (read_elf (image_of l)) ≡ done (live_entries l)
  parse_pt_dynamic-image_of granted =
      let s = strings_of l in
      let p = plan_of l s in
      elim (Bool-cases (not (p.dyn_sec.size == 0))) [
        | inl e ↦
            parse_pt_dynamic-HasDynamic host (read_elf (image_of l)) (live_entries l)
              (image_of-HasDynamic granted e)
        | inr e ↦
            none_read e
            ∙ ap
                (λ es. done (map (patched s (vaddr_of p.sym_sec.offset) (vaddr_of p.str_start)) es))
                (sym (none_wanted (wanted_entries l s) (sym (dyn_planned l) ∙ e)))
      ]
