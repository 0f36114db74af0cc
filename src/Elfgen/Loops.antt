-- ===== src/Elfgen/Loops.antt =====
-- The loops of `Build` that fill the tables: each makes its entries one behind the other.
use sec_compile_option.Base.{
  List, [], ap, append_assoc, arith, length, length-append, refl, replicate, suc, sym, zero, ℕ, ◌*◌,
  ◌++◌, ◌+◌, ◌∙◌, ◌∷◌, ◌≡◌,
}
use sec_compile_option.Dyn.{DynEntry}
use sec_compile_option.Elfgen.{GenSym}
use sec_compile_option.Elfgen.Image.{Phdr, write_dyns, write_phdrs, write_syms}
use sec_compile_option.Elfgen.Writes.{
  concat_map, entry_bytes, phdr_bytes, sym_bytes, write_dyn_round, write_phdr_round,
  write_sym_round,
}
use sec_compile_option.Go.Run.{Run, done}
use sec_compile_option.Go.Strings.{Bytes}

abbrev pub zeros : ℕ → Bytes
zeros n = replicate n 0

pub zeros-add : (m n : ℕ) → zeros (m + n) ≡ zeros m ++ zeros n
zeros-add zero n = ap zeros (omega arith)
zeros-add (suc m) n =
    let e : suc m + n ≡ suc (m + n) = omega arith in rw e (ap (◌∷◌ 0) (zeros-add m n))

-- The zeros for one more entry.
zeros_cons : (n w : ℕ) → zeros (suc n * w) ≡ zeros w ++ zeros (n * w)
zeros_cons n w = let e : suc n * w ≡ w + n * w = grind arith in ap zeros e ∙ zeros-add w (n * w)

module _ {ℓ} {A : Type ℓ} (w : ℕ) (entry : A → Bytes) (sized : (a : A) → length (entry a) ≡ w) where
  pub length-concat_map : (xs : List A) → length (concat_map entry xs) ≡ length xs * w
  length-concat_map [] = grind arith
  length-concat_map (x ∷ xs) =
      let n : suc (length xs) * w ≡ w + length xs * w = grind arith in
      omega (arith, length-append (entry x) (concat_map entry xs), sized x, length-concat_map xs, n)

  -- A loop that fills one entry of the zeros in each round fills them all.
  fill_loop :
      (loop : List A → ℕ → Bytes → Run Bytes)
      → ((i : ℕ) (bytes : Bytes) → loop [] i bytes ≡ done bytes)
      → ((x : A) (xs : List A) (i : ℕ) (front rest : Bytes)
          → length front ≡ i * w
          → loop (x ∷ xs) i (front ++ (zeros w ++ rest))
            ≡ loop xs (i + 1) (front ++ (entry x ++ rest)))
      → (xs : List A) (i : ℕ) (front : Bytes) → length front ≡ i * w
      → loop xs i (front ++ zeros (length xs * w)) ≡ done (front ++ concat_map entry xs)
  fill_loop loop stop round [] i front h =
      let e : 0 * w ≡ 0 = grind arith in rw e (stop i (front ++ []))
  fill_loop loop stop round (x ∷ xs) i front h =
      let longer : length (front ++ entry x) ≡ (i + 1) * w =
        grind (arith, length-append front (entry x), sized x, h) in
      ap (λ z. loop (x ∷ xs) i (front ++ z)) (zeros_cons (length xs) w)
      ∙ (round x xs i front (zeros (length xs * w)) h
          ∙ (ap (loop xs (i + 1)) (sym (append_assoc front (entry x) (zeros (length xs * w))))
              ∙ (fill_loop loop stop round xs (i + 1) (front ++ entry x) longer
                  ∙ ap done (append_assoc front (entry x) (concat_map entry xs)))))

pub write_dyns_lem :
    (es : List DynEntry)
    → write_dyns es 0 (zeros (length es * 16)) ≡ done (concat_map entry_bytes es)
write_dyns_lem es =
    fill_loop 16 entry_bytes (λ e. refl) write_dyns (λ i b. unfold write_dyns in refl)
      write_dyn_round es 0 [] refl

pub write_syms_lem :
    (ds : List GenSym) → write_syms ds 0 (zeros (length ds * 24)) ≡ done (concat_map sym_bytes ds)
write_syms_lem ds =
    fill_loop 24 sym_bytes (λ e. refl) write_syms (λ i b. unfold write_syms in refl) write_sym_round
      ds 0 [] refl

pub write_phdrs_lem :
    (ps : List Phdr) → write_phdrs ps 0 (zeros (length ps * 56)) ≡ done (concat_map phdr_bytes ps)
write_phdrs_lem ps =
    fill_loop 56 phdr_bytes (λ e. refl) write_phdrs (λ i b. unfold write_phdrs in refl)
      write_phdr_round ps 0 [] refl

-- The zeros of the whole image, part by part.
pub zeros_total :
    (c i d y t : ℕ) (total : ℕ)
    → total ≡ 64 + c + i + d + y + t
    → zeros total ≡ zeros 64 ++ (zeros c ++ (zeros i ++ (zeros d ++ (zeros y ++ zeros t))))
zeros_total c i d y t total h =
    let e : total ≡ 64 + (c + (i + (d + (y + t)))) = omega arith in
    rw
      (
        e,
        zeros-add 64 (c + (i + (d + (y + t)))),
        zeros-add c (i + (d + (y + t))),
        zeros-add i (d + (y + t)),
        zeros-add d (y + t),
        zeros-add y t,
      )
      refl
