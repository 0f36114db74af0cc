-- ===== src/Elfgen/Writes.antt =====
-- The parts of the image as bytes one behind the other, and that the writes of `Build` make them.
use sec_compile_option.Base.{
  Bool-cases, List, [], ap, arith, if◌then◌else◌, inl, inr, length, refl, replicate, suc, zero, ℕ,
  ◌*◌, ◌++◌, ◌+◌, ◌||◌, ◌∙◌, ◌∷◌, ◌≡◌,
}
use sec_compile_option.Command.Targets.{elf_magic}
use sec_compile_option.Dyn.{DynEntry}
use sec_compile_option.Elf.{et_dyn}
use sec_compile_option.Elfgen.{GenSym, Layout, base_vaddr}
use sec_compile_option.Elfgen.Image.{
  Phdr, et_exec, machine_of, write_dyns, write_header, write_phdrs, write_syms,
}
use sec_compile_option.Go.Buffers.{copy, copy_at, prepend, put_le, write_at}
use sec_compile_option.Go.Run.{Run, done}
use sec_compile_option.Go.Strings.{Bytes}

abbrev pub header_bytes : Layout → ℕ → Bytes
header_bytes l count =
    elf_magic
    ++ (2
        ∷ 1
        ∷ 1
        ∷ (replicate 9 0
            ++ (put_le 2 (if l.pie || l.et_dyn then et_dyn else et_exec)
                ++ (put_le 2 (machine_of l)
                    ++ (put_le 4 1
                        ++ (put_le 8 base_vaddr
                            ++ (put_le 8 64
                                ++ (put_le 8 0
                                    ++ (put_le 4 64
                                        ++ (put_le 2 64
                                            ++ (put_le 2 56
                                                ++ (put_le 2 count ++ replicate 6 0))))))))))))

abbrev pub phdr_bytes : Phdr → Bytes
phdr_bytes h =
    put_le 4 h.ptype
    ++ (put_le 4 h.flags
        ++ (put_le 8 h.off
            ++ (put_le 8 h.vaddr
                ++ (put_le 8 h.vaddr
                    ++ (put_le 8 h.filesz ++ (put_le 8 h.memsz ++ put_le 8 0x1000))))))

abbrev pub sym_bytes : GenSym → Bytes
sym_bytes d = put_le 4 d.name_off ++ d.sym_info ∷ replicate 19 0

abbrev pub entry_bytes : DynEntry → Bytes
entry_bytes e = put_le 8 e.tag ++ put_le 8 e.val

abbrev pub concat_map {ℓ} : {A : Type ℓ} → (A → Bytes) → List A → Bytes
concat_map f [] = []
concat_map f (x ∷ xs) = f x ++ concat_map f xs

-- A write behind a prefix.
abbrev pub prefixed : Bytes → Run Bytes → Run Bytes
prefixed [] m = m
prefixed (b ∷ front) m = prepend b (prefixed front m)

write_at-prefixed :
    (front buf vs : Bytes) (off j : ℕ)
    → off ≡ length front + j
    → write_at (front ++ buf) off vs ≡ prefixed front (write_at buf j vs)
unfolding write_at
write_at-prefixed [] buf vs off j h = ap (λ o. write_at buf o vs) (h ∙ omega arith)
write_at-prefixed (b ∷ front) buf vs zero j h = absurd (omega arith)
write_at-prefixed (b ∷ front) buf vs (suc off) j h =
    ap (prepend b) (write_at-prefixed front buf vs off j (omega arith))

prefixed_done : (front bs : Bytes) → prefixed front (done bs) ≡ done (front ++ bs)
prefixed_done [] bs = refl
prefixed_done (b ∷ front) bs = ap (prepend b) (prefixed_done front bs)

-- The same with the result of the write at hand.
write_behind :
    (front buf vs : Bytes) {buf' : Bytes} (off j : ℕ)
    → off ≡ length front + j
    → write_at buf j vs ≡ done buf'
    → write_at (front ++ buf) off vs ≡ done (front ++ buf')
write_behind front buf vs {buf'} off j h e =
    write_at-prefixed front buf vs off j h ∙ (ap (prefixed front) e ∙ prefixed_done front buf')

pub write_header_lem :
    (l : Layout) (count : ℕ) (rest : Bytes)
    → write_header l count (replicate 64 0 ++ rest) ≡ done (header_bytes l count ++ rest)
unfolding write_header write_at copy_at copy
write_header_lem l count rest = elim (Bool-cases (l.pie || l.et_dyn)) [
  | inl e ↦ rw e refl
  | inr e ↦ rw e refl
]

pub write_dyn_round :
    (e : DynEntry) (es : List DynEntry) (di : ℕ) (front rest : Bytes)
    → length front ≡ di * 16
    → write_dyns (e ∷ es) di (front ++ (replicate 16 0 ++ rest))
      ≡ write_dyns es (di + 1) (front ++ (entry_bytes e ++ rest))
unfolding write_dyns write_at
write_dyn_round e es di front rest h =
    rw
      (
        write_behind front (replicate 16 0 ++ rest) (put_le 8 e.tag) (di * 16) 0 (omega arith) refl,
        write_behind front (put_le 8 e.tag ++ (replicate 8 0 ++ rest)) (put_le 8 e.val)
            (di * 16 + 8) 8 (omega arith) refl,
      )
      refl

pub write_sym_round :
    (d : GenSym) (ds : List GenSym) (i : ℕ) (front rest : Bytes)
    → length front ≡ i * 24
    → write_syms (d ∷ ds) i (front ++ (replicate 24 0 ++ rest))
      ≡ write_syms ds (i + 1) (front ++ (sym_bytes d ++ rest))
unfolding write_syms write_at
write_sym_round d ds i front rest h =
    let name = put_le 4 d.name_off in
    let info = d.sym_info in
    rw
      (
        write_behind front (replicate 24 0 ++ rest) name (i * 24) 0 (omega arith) refl,
        write_behind front (name ++ (replicate 20 0 ++ rest)) (info ∷ []) (i * 24 + 4) 4
            (omega arith) refl,
        write_behind front (name ++ info ∷ (replicate 19 0 ++ rest)) (0 ∷ 0 ∷ []) (i * 24 + 6) 6
            (omega arith) refl,
      )
      refl

pub write_phdr_round :
    (p : Phdr) (ps : List Phdr) (k : ℕ) (front rest : Bytes)
    → length front ≡ k * 56
    → write_phdrs (p ∷ ps) k (front ++ (replicate 56 0 ++ rest))
      ≡ write_phdrs ps (k + 1) (front ++ (phdr_bytes p ++ rest))
unfolding write_phdrs write_at
write_phdr_round p ps k front rest h =
    let blank = λ (n : ℕ). replicate n 0 ++ rest in
    let after1 = λ (r : Bytes). put_le 4 p.ptype ++ r in
    let after2 = λ (r : Bytes). after1 (put_le 4 p.flags ++ r) in
    let after3 = λ (r : Bytes). after2 (put_le 8 p.off ++ r) in
    let after4 = λ (r : Bytes). after3 (put_le 8 p.vaddr ++ r) in
    let after5 = λ (r : Bytes). after4 (put_le 8 p.vaddr ++ r) in
    let after6 = λ (r : Bytes). after5 (put_le 8 p.filesz ++ r) in
    let after7 = λ (r : Bytes). after6 (put_le 8 p.memsz ++ r) in
    let at = λ (j : ℕ). k * 56 + j in
    rw
      (
        write_behind front (blank 56) (put_le 4 p.ptype) (k * 56) 0 (omega arith) refl,
        write_behind front (after1 (blank 52)) (put_le 4 p.flags) (at 4) 4 (omega arith) refl,
        write_behind front (after2 (blank 48)) (put_le 8 p.off) (at 8) 8 (omega arith) refl,
        write_behind front (after3 (blank 40)) (put_le 8 p.vaddr) (at 16) 16 (omega arith) refl,
        write_behind front (after4 (blank 32)) (put_le 8 p.vaddr) (at 24) 24 (omega arith) refl,
        write_behind front (after5 (blank 24)) (put_le 8 p.filesz) (at 32) 32 (omega arith) refl,
        write_behind front (after6 (blank 16)) (put_le 8 p.memsz) (at 40) 40 (omega arith) refl,
        write_behind front (after7 (blank 8)) (put_le 8 0x1000) (at 48) 48 (omega arith) refl,
      )
      refl
