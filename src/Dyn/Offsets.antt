-- ===== src/Dyn/Offsets.antt =====
-- `vaddrToFileOffset` on segments whose ends do not wrap around.
use sec_compile_option.Base.{
  All, Bool-cases, List, [], ap, arith, false, inl, inr, refl, some, true, ℕ, ◌++◌, ◌+◌, ◌<◌, ◌∷◌,
  ◌≡◌, ◌≤◌,
}
use sec_compile_option.Dyn.{covers, file_offset}
use sec_compile_option.Elf.{Prog, pt_load}
use sec_compile_option.Go.Words.{add64, sub64, two64}

-- The segment ends below 2^64, in memory and in the file.
abbrev pub IsBounded : Prog → Type 0
IsBounded p = (p.vaddr + p.filesz < two64) × (p.off + p.filesz < two64)

-- `o` is where the first PT_LOAD segment around the address has the byte at the address.
pub record IsMapped (ps : List Prog) (v o : ℕ) : Type 0 where
  pub front : List Prog
  pub segment : Prog
  pub back : List Prog
  pub splits : ps ≡ front ++ segment ∷ back
  pub loaded : segment.ptype ≡ pt_load
  pub start : segment.vaddr ≤ v
  pub end : v < segment.vaddr + segment.filesz
  pub placed : o + segment.vaddr ≡ segment.off + v
  pub in_file : o < segment.off + segment.filesz
  pub first : All (λ p. covers p v ≡ false) front

covers_bounds :
    (p : Prog) (v : ℕ)
    → p.vaddr + p.filesz < two64
    → covers p v ≡ true
    → (p.ptype ≡ pt_load) × (p.vaddr ≤ v) × (v < p.vaddr + p.filesz)
unfolding covers
covers_bounds p v h e = ground arith

offset_exact :
    (a z o v : ℕ)
    → a + z < two64
    → o + z < two64
    → a ≤ v
    → v < a + z
    → (add64 (sub64 v a) o + a ≡ o + v) × (add64 (sub64 v a) o < o + z)
offset_exact a z o v h k l m = (omega arith, omega arith)

-- If no segment ends at or above 2^64, in memory or in the file, an offset that
-- `vaddrToFileOffset` returns lies inside the file's bytes of the first PT_LOAD
-- segment around the address, as far behind their start as the address is behind the segment's.
pub file_offset-IsMapped :
    (ps : List Prog) (v : ℕ) {o : ℕ}
    → All IsBounded ps
    → file_offset ps v ≡ some o
    → IsMapped ps v o
unfolding file_offset
file_offset-IsMapped [] v h e = absurd (cc)
file_offset-IsMapped (p ∷ ps) v {o} ((h, k), hs) e = elim (Bool-cases (covers p v)) [
  | inl c ↦
      let (loaded, start, end) = covers_bounds p v h c in
      let same : add64 (sub64 v p.vaddr) p.off ≡ o = ground (arith, e, c) in
      let (placed, in_file) = offset_exact p.vaddr p.filesz p.off v h k start end in
      record {
        front = [];
        segment = p;
        back = ps;
        splits = refl;
        loaded = loaded;
        start = start;
        end = end;
        placed = rw same at placed;
        in_file = rw same at in_file;
        first = tt;
      }
  | inr c ↦
      let rest = file_offset-IsMapped ps v hs (ground (arith, e, c)) in
      record {
        front = p ∷ rest.front;
        segment = rest.segment;
        back = rest.back;
        splits = ap (◌∷◌ p) rest.splits;
        loaded = rest.loaded;
        start = rest.start;
        end = rest.end;
        placed = rest.placed;
        in_file = rest.in_file;
        first = (c, rest.first);
      }
]
