-- ===== src/Elfgen/Tags.antt =====
-- What the entries of a layout's image say under each tag that a check reads.
use sec_compile_option.Base.{
  All, Bool, List, [], false, if◌then◌else◌, map, none, not, refl, some, true, ℕ, ◌++◌, ◌==◌, ◌∙◌,
  ◌∷◌, ◌≡◌,
}
use sec_compile_option.Dyn.{DynEntry, dyn_tag}
use sec_compile_option.Elf.{
  df_1_pie, dt_bind_now, dt_flags, dt_flags_1, dt_needed, dt_rpath, dt_runpath, dt_strsz, dt_strtab,
  dt_syment, dt_symtab, dt_textrel,
}
use sec_compile_option.Elfgen.{
  Layout, entry, flags_val, non_empty, patched, strings_of, wanted_entries, when,
}
use sec_compile_option.Elfgen.Entries.{patched_tag}
use sec_compile_option.Elfgen.Headers.{live_entries}
use sec_compile_option.Elfgen.Image.{plan_of, vaddr_of}

module _ (f : DynEntry → DynEntry) (keeps : (e : DynEntry) → (f e).tag ≡ e.tag) (t : ℕ) where
  -- Entries with other tags are passed over.
  pass :
      (es rest : List DynEntry)
      → All (λ e. (e.tag == t) ≡ false) es
      → dyn_tag (map f (es ++ rest)) t ≡ dyn_tag (map f rest) t
  unfolding dyn_tag
  pass [] rest h = refl
  pass (e ∷ es) rest (h, hs) = rw (keeps e, h) (pass es rest hs)

  pass_when :
      (c : Bool) (es rest : List DynEntry)
      → All (λ e. (e.tag == t) ≡ false) es
      → dyn_tag (map f (when c es ++ rest)) t ≡ dyn_tag (map f rest) t
  pass_when true es rest h = pass es rest h
  pass_when false es rest h = refl

  -- An entry with the tag is found.
  found_when :
      (c : Bool) (e : DynEntry) (rest : List DynEntry)
      → (e.tag == t) ≡ true
      → dyn_tag (map f (when c (e ∷ []) ++ rest)) t
        ≡ (if c then some (f e).val else dyn_tag (map f rest) t)
  unfolding dyn_tag
  found_when true e rest h = rw (keeps e, h) refl
  found_when false e rest h = refl

  found_last :
      (c : Bool) (e : DynEntry)
      → (e.tag == t) ≡ true
      → dyn_tag (map f (when c (e ∷ []))) t ≡ (if c then some (f e).val else none)
  unfolding dyn_tag
  found_last true e h = rw (keeps e, h) refl
  found_last false e h = refl

  missed_last :
      (c : Bool) (e : DynEntry) → (e.tag == t) ≡ false → dyn_tag (map f (when c (e ∷ []))) t ≡ none
  unfolding dyn_tag
  missed_last true e h = rw (keeps e, h) refl
  missed_last false e h = refl

-- The entries behind the tables of strings and symbols.
abbrev flag_entries : Layout → List DynEntry
flag_entries l =
    when l.bind_now (entry dt_bind_now 0 ∷ [])
    ++ (when l.text_rel (entry dt_textrel 0 ∷ [])
        ++ (when (not (flags_val l == 0)) (entry dt_flags (flags_val l) ∷ [])
            ++ when l.flags1_pie (entry dt_flags_1 df_1_pie ∷ [])))

module _ (l : Layout) where
  abbrev patch : DynEntry → DynEntry
  patch =
      let s = strings_of l in
      let p = plan_of l s in patched s (vaddr_of p.sym_sec.offset) (vaddr_of p.str_start)

  keeps : (e : DynEntry) → (patch e).tag ≡ e.tag
  keeps e =
      let s = strings_of l in
      let p = plan_of l s in patched_tag s (vaddr_of p.sym_sec.offset) (vaddr_of p.str_start) e

  -- The tables have no tag of the flags.
  to_flags :
      (t : ℕ)
      → All
          (λ j. (j == t) ≡ false)
          (dt_needed ∷ dt_symtab ∷ dt_strtab ∷ dt_strsz ∷ dt_syment ∷ dt_rpath ∷ dt_runpath ∷ [])
      → dyn_tag (live_entries l) t ≡ dyn_tag (map patch (flag_entries l)) t
  unfolding wanted_entries
  to_flags t (a, (b, (c, (d, (e, (r, (u, _))))))) =
      let s = strings_of l in
      let runpaths = when (non_empty s.runpath_str) (entry dt_runpath 0 ∷ []) ++ flag_entries l in
      let rpaths = when (non_empty s.rpath_str) (entry dt_rpath 0 ∷ []) ++ runpaths in
      let table =
        entry dt_needed 0
        ∷ entry dt_symtab 0
        ∷ entry dt_strtab 0
        ∷ entry dt_strsz 0
        ∷ entry dt_syment 24
        ∷ [] in
      pass_when patch keeps t (non_empty s.syms) table rpaths (a, (b, (c, (d, (e, tt)))))
      ∙ (pass_when patch keeps t (non_empty s.rpath_str) (entry dt_rpath 0 ∷ []) runpaths (r, tt)
          ∙ pass_when patch keeps t (non_empty s.runpath_str) (entry dt_runpath 0 ∷ [])
              (flag_entries l) (u, tt))

  abbrev flags_tail : List DynEntry
  flags_tail = when l.flags1_pie (entry dt_flags_1 df_1_pie ∷ [])

  abbrev flags_entry : List DynEntry
  flags_entry = when (not (flags_val l == 0)) (entry dt_flags (flags_val l) ∷ [])

  pub tag-bind_now : dyn_tag (live_entries l) dt_bind_now ≡ (if l.bind_now then some 0 else none)
  unfolding patched
  tag-bind_now =
      to_flags dt_bind_now (refl, (refl, (refl, (refl, (refl, (refl, (refl, tt)))))))
      ∙ (found_when patch keeps dt_bind_now l.bind_now (entry dt_bind_now 0)
            (when l.text_rel (entry dt_textrel 0 ∷ []) ++ (flags_entry ++ flags_tail)) refl
          ∙ rw
              (
                pass_when patch keeps dt_bind_now l.text_rel (entry dt_textrel 0 ∷ [])
                    (flags_entry ++ flags_tail) (refl, tt),
                pass_when patch keeps dt_bind_now (not (flags_val l == 0))
                    (entry dt_flags (flags_val l) ∷ []) flags_tail (refl, tt),
                missed_last patch keeps dt_bind_now l.flags1_pie (entry dt_flags_1 df_1_pie) refl,
              )
              refl)

  pub tag-textrel : dyn_tag (live_entries l) dt_textrel ≡ (if l.text_rel then some 0 else none)
  unfolding patched
  tag-textrel =
      to_flags dt_textrel (refl, (refl, (refl, (refl, (refl, (refl, (refl, tt)))))))
      ∙ (pass_when patch keeps dt_textrel l.bind_now (entry dt_bind_now 0 ∷ [])
            (when l.text_rel (entry dt_textrel 0 ∷ []) ++ (flags_entry ++ flags_tail)) (refl, tt)
          ∙ (found_when patch keeps dt_textrel l.text_rel (entry dt_textrel 0)
                (flags_entry ++ flags_tail) refl
              ∙ rw
                  (
                    pass_when patch keeps dt_textrel (not (flags_val l == 0))
                        (entry dt_flags (flags_val l) ∷ []) flags_tail (refl, tt),
                    missed_last patch keeps dt_textrel l.flags1_pie (entry dt_flags_1 df_1_pie)
                        refl,
                  )
                  refl))

  to_flags_entry :
      (t : ℕ)
      → All
          (λ j. (j == t) ≡ false)
          (dt_needed ∷ dt_symtab ∷ dt_strtab ∷ dt_strsz ∷ dt_syment ∷ dt_rpath ∷ dt_runpath ∷ [])
      → (dt_bind_now == t) ≡ false
      → (dt_textrel == t) ≡ false
      → dyn_tag (live_entries l) t ≡ dyn_tag (map patch (flags_entry ++ flags_tail)) t
  to_flags_entry t h b x =
      to_flags t h
      ∙ (pass_when patch keeps t l.bind_now (entry dt_bind_now 0 ∷ [])
            (when l.text_rel (entry dt_textrel 0 ∷ []) ++ (flags_entry ++ flags_tail)) (b, tt)
          ∙ pass_when patch keeps t l.text_rel (entry dt_textrel 0 ∷ []) (flags_entry ++ flags_tail)
              (x, tt))

  pub tag-flags :
      dyn_tag (live_entries l) dt_flags
      ≡ (if not (flags_val l == 0) then some (flags_val l) else none)
  unfolding patched
  tag-flags =
      to_flags_entry dt_flags (refl, (refl, (refl, (refl, (refl, (refl, (refl, tt))))))) refl refl
      ∙ (found_when patch keeps dt_flags (not (flags_val l == 0)) (entry dt_flags (flags_val l))
            flags_tail refl
          ∙ rw (missed_last patch keeps dt_flags l.flags1_pie (entry dt_flags_1 df_1_pie) refl)
              refl)

  pub tag-flags_1 :
      dyn_tag (live_entries l) dt_flags_1 ≡ (if l.flags1_pie then some df_1_pie else none)
  unfolding patched
  tag-flags_1 =
      to_flags_entry dt_flags_1 (refl, (refl, (refl, (refl, (refl, (refl, (refl, tt))))))) refl refl
      ∙ (pass_when patch keeps dt_flags_1 (not (flags_val l == 0))
            (entry dt_flags (flags_val l) ∷ []) flags_tail (refl, tt)
          ∙ found_last patch keeps dt_flags_1 l.flags1_pie (entry dt_flags_1 df_1_pie) refl)
