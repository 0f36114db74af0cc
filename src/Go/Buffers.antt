-- ===== src/Go/Buffers.antt =====
-- Writes into a byte slice: binary.LittleEndian.PutUint into b[off:], and copy.
use sec_compile_option.Base.{[], ap, arith, length, refl, suc, zero, ℕ, ◌%◌, ◌++◌, ◌/◌, ◌∷◌, ◌≡◌}
use sec_compile_option.Go.Run.{Run, done, out_of_fuel, panic}
use sec_compile_option.Go.Strings.{Bytes}

-- The low w bytes of a number, the least first.
abbrev pub put_le : ℕ → ℕ → Bytes
put_le zero n = []
put_le (suc w) n = (n % 256) ∷ put_le w (n / 256)

abbrev pub prepend : ℕ → Run Bytes → Run Bytes
prepend b (done bs) = done (b ∷ bs)
prepend b panic = panic
prepend b out_of_fuel = out_of_fuel

-- The bytes written over those from the offset on; a panic where the slice is too short.
unfoldable pub write_at : Bytes → ℕ → Bytes → Run Bytes
write_at buf zero [] = done buf
write_at [] zero (v ∷ vs) = panic
write_at (b ∷ buf) zero (v ∷ vs) = prepend v (write_at buf zero vs)
write_at [] (suc off) vs = panic
write_at (b ∷ buf) (suc off) vs = prepend b (write_at buf off vs)

abbrev pub put_u8 : Bytes → ℕ → ℕ → Run Bytes
put_u8 buf off v = write_at buf off (v ∷ [])

abbrev pub put_u16 : Bytes → ℕ → ℕ → Run Bytes
put_u16 buf off v = write_at buf off (put_le 2 v)

abbrev pub put_u32 : Bytes → ℕ → ℕ → Run Bytes
put_u32 buf off v = write_at buf off (put_le 4 v)

abbrev pub put_u64 : Bytes → ℕ → ℕ → Run Bytes
put_u64 buf off v = write_at buf off (put_le 8 v)

-- copy(buf, src): as many bytes as the shorter one has.
unfoldable pub copy : Bytes → Bytes → Bytes
copy [] src = []
copy (b ∷ buf) [] = b ∷ buf
copy (b ∷ buf) (v ∷ src) = v ∷ copy buf src

-- copy(buf[off:], src); the slice expression panics if it starts behind the end.
unfoldable pub copy_at : Bytes → ℕ → Bytes → Run Bytes
unfolding copy
copy_at buf zero src = done (copy buf src)
copy_at [] (suc off) src = panic
copy_at (b ∷ buf) (suc off) src = prepend b (copy_at buf off src)

write_here :
    (old new rest : Bytes)
    → length old ≡ length new
    → write_at (old ++ rest) 0 new ≡ done (new ++ rest)
unfolding write_at
write_here [] [] rest h = refl
write_here [] (v ∷ new) rest h = absurd (omega arith)
write_here (o ∷ old) [] rest h = absurd (omega arith)
write_here (o ∷ old) (v ∷ new) rest h = rw (write_here old new rest (omega arith)) refl

-- A write replaces as many bytes as it has, behind a part of the offset's length.
pub write_at-append :
    (front old new rest : Bytes) (off : ℕ)
    → length front ≡ off
    → length old ≡ length new
    → write_at (front ++ (old ++ rest)) off new ≡ done (front ++ (new ++ rest))
unfolding write_at
write_at-append [] old new rest zero f h = write_here old new rest h
write_at-append [] old new rest (suc off) f h = absurd (omega arith)
write_at-append (b ∷ front) old new rest zero f h = absurd (omega arith)
write_at-append (b ∷ front) old new rest (suc off) f h =
    rw (write_at-append front old new rest off (omega arith) h) refl

copy_here : (old new rest : Bytes) → length old ≡ length new → copy (old ++ rest) new ≡ new ++ rest
unfolding copy
copy_here [] [] [] h = refl
copy_here [] [] (r ∷ rest) h = refl
copy_here [] (v ∷ new) rest h = absurd (omega arith)
copy_here (o ∷ old) [] rest h = absurd (omega arith)
copy_here (o ∷ old) (v ∷ new) rest h = rw (copy_here old new rest (omega arith)) refl

pub copy_at-append :
    (front old new rest : Bytes) (off : ℕ)
    → length front ≡ off
    → length old ≡ length new
    → copy_at (front ++ (old ++ rest)) off new ≡ done (front ++ (new ++ rest))
unfolding copy_at
copy_at-append [] old new rest zero f h = ap done (copy_here old new rest h)
copy_at-append [] old new rest (suc off) f h = absurd (omega arith)
copy_at-append (b ∷ front) old new rest zero f h = absurd (omega arith)
copy_at-append (b ∷ front) old new rest (suc off) f h =
    rw (copy_at-append front old new rest off (omega arith) h) refl
