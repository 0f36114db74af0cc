-- ===== src/Dyn/Segment.antt =====
-- `parsePTDynamic` on a file whose PT_DYNAMIC segment was written by an encoder.
use sec_compile_option.Base.{
  All, List, [], ap, append-nil, arith, false, le→ltb_false, length, ne→==_false, refl, sym, take,
  take-append, ℕ, ◌++◌, ◌-◌, ◌<◌, ◌^◌, ◌∙◌, ◌∷◌, ◌≡◌, ◌≢◌, ◌≤◌,
}
use sec_compile_option.Dyn.{
  DynEntry, is_failure, parse_dyn_entries, parse_pt_dynamic, pt_dynamic_entries, read_prog,
}
use sec_compile_option.Dyn.Entries.{Fits, parse_dyn_entries-put, put_entries, put_entry, word_size}
use sec_compile_option.Elf.{File, Host, Prog, pt_dynamic}
use sec_compile_option.Go.Io.{fill}
use sec_compile_option.Go.Run.{done}
use sec_compile_option.Go.Strings.{Bytes}

-- One segment of the file is PT_DYNAMIC: it is read whole, `make` grants its size, and it holds the
-- entries, ended by DT_NULL with any value and followed by anything.
pub record HasDynamic (host : Host) (f : File) (es : List DynEntry) : Type 0 where
  pub front : List Prog
  pub prog : Prog
  pub back : List Prog
  pub value : ℕ
  pub rest : Bytes
  pub splits : f.progs ≡ front ++ prog ∷ back
  pub front_lacks : All (λ p. p.ptype ≢ pt_dynamic) front
  pub back_lacks : All (λ p. p.ptype ≢ pt_dynamic) back
  pub is_dynamic : prog.ptype ≡ pt_dynamic
  pub is_read : is_failure prog.outcome ≡ false
  pub granted : prog.filesz ≤ host.max_alloc
  pub sized : length prog.payload ≡ prog.filesz
  pub encoded :
      prog.payload
      ≡ put_entries f.byte_order (word_size f.class) es
        ++ (put_entry f.byte_order (word_size f.class) (record { tag = 0; val = value }) ++ rest)
  pub fit : All (Fits (word_size f.class)) es
  pub value_fits : value < 256 ^ word_size f.class

fill_whole : (bytes : Bytes) → fill (length bytes) bytes ≡ bytes
fill_whole bytes =
    let whole : take (length bytes) bytes ≡ bytes =
      ap (take (length bytes)) (sym (append-nil bytes)) ∙ take-append bytes [] in
    let none_left : length bytes - length bytes ≡ 0 = omega arith in
    rw (whole, none_left) (append-nil bytes)

pub pt_dynamic_entries_other :
    (host : Host) (f : File) (ps : List Prog)
    → All (λ p. p.ptype ≢ pt_dynamic) ps
    → pt_dynamic_entries host f ps ≡ done []
unfolding pt_dynamic_entries
pt_dynamic_entries_other host f [] t = refl
pt_dynamic_entries_other host f (p ∷ ps) (n, ns) =
    rw (ne→==_false p.ptype pt_dynamic n) (pt_dynamic_entries_other host f ps ns)

pt_dynamic_entries-append :
    (host : Host) (f : File) (front ps : List Prog)
    → All (λ p. p.ptype ≢ pt_dynamic) front
    → pt_dynamic_entries host f (front ++ ps) ≡ pt_dynamic_entries host f ps
unfolding pt_dynamic_entries
pt_dynamic_entries-append host f [] ps t = refl
pt_dynamic_entries-append host f (p ∷ front) ps (n, ns) =
    rw (ne→==_false p.ptype pt_dynamic n) (pt_dynamic_entries-append host f front ps ns)

pt_dynamic_entries_segment :
    (host : Host) (f : File) (p : Prog) (back : List Prog)
    → p.ptype ≡ pt_dynamic
    → is_failure p.outcome ≡ false
    → p.filesz ≤ host.max_alloc
    → length p.payload ≡ p.filesz
    → pt_dynamic_entries host f back ≡ done []
    → pt_dynamic_entries host f (p ∷ back) ≡ done (parse_dyn_entries p.payload f.class f.byte_order)
unfolding pt_dynamic_entries read_prog
pt_dynamic_entries_segment host f p back d r g s b =
    let whole : fill p.filesz p.payload ≡ p.payload =
      ap (λ n. fill n p.payload) (sym s) ∙ fill_whole p.payload in
    rw (d, le→ltb_false host.max_alloc p.filesz g, r, b, whole)
      (ap done (append-nil (parse_dyn_entries p.payload f.class f.byte_order)))

-- The entries of a file whose one PT_DYNAMIC segment was written by an encoder, is read whole and
-- is not too large for `make`, are read from the program headers alone.
pub parse_pt_dynamic-HasDynamic :
    (host : Host) (f : File) (es : List DynEntry)
    → HasDynamic host f es
    → parse_pt_dynamic host f ≡ done es
unfolding parse_pt_dynamic
parse_pt_dynamic-HasDynamic host f es h =
    ap (pt_dynamic_entries host f) h.splits
    ∙ (pt_dynamic_entries-append host f h.front (h.prog ∷ h.back) h.front_lacks
        ∙ (pt_dynamic_entries_segment host f h.prog h.back h.is_dynamic h.is_read h.granted h.sized
              (pt_dynamic_entries_other host f h.back h.back_lacks)
            ∙ ap done (
                ap (λ b. parse_dyn_entries b f.class f.byte_order) h.encoded
                ∙ parse_dyn_entries-put f.class f.byte_order es h.value h.rest h.fit h.value_fits)))
