-- ===== src/Dyn/Entries.antt =====
-- `parseDynEntries` against an encoder of dynamic sections, for both classes and byte orders.
use native.Mathlib.Nat.{one-le-pow, pow-suc}
use sec_compile_option.Base.{
  All, List, [], ap, append-nil, append_assoc, arith, drop, drop-append, if◌then◌else◌, length,
  length-append, refl, suc, take, take-append, zero, ℕ, ◌%◌, ◌*◌, ◌++◌, ◌+◌, ◌/◌, ◌<◌, ◌==◌, ◌^◌,
  ◌∙◌, ◌∷◌, ◌≡◌,
}
use sec_compile_option.Dyn.{DynEntry, parse_dyn_entries, scan_entries, uint, uint_be, uint_le}
use sec_compile_option.Elf.{ByteOrder, Class, big, class32, class64, class_none, little}
use sec_compile_option.Go.Buffers.{put_le}
use sec_compile_option.Go.Strings.{Bytes}

-- A number as w bytes, the most significant first, and in either order.
abbrev pub put_be : ℕ → ℕ → Bytes
put_be zero n = []
put_be (suc w) n = put_be w (n / 256) ++ (n % 256) ∷ []

abbrev pub put : ByteOrder → ℕ → ℕ → Bytes
put little w n = put_le w n
put big w n = put_be w n

-- The two words of an entry, and the entries one behind the other.
abbrev pub put_entry : ByteOrder → ℕ → DynEntry → Bytes
put_entry bo w e = put bo w e.tag ++ put bo w e.val

abbrev pub put_entries : ByteOrder → ℕ → List DynEntry → Bytes
put_entries bo w [] = []
put_entries bo w (e ∷ es) = put_entry bo w e ++ put_entries bo w es

abbrev pub word_size : Class → ℕ
word_size class64 = 8
word_size _ = 4

-- The entry is no terminator, and both words fit in w bytes.
abbrev pub Fits : ℕ → DynEntry → Type 0
Fits w e = (0 < e.tag) × (e.tag < 256 ^ w) × (e.val < 256 ^ w)

pub uint_le-put_le : (w n : ℕ) → n < 256 ^ w → uint_le (put_le w n) ≡ n
uint_le-put_le zero n h = omega arith
uint_le-put_le (suc w) n h =
    let p = pow-suc 256 w in
    let small : n / 256 < 256 ^ w = omega (arith, p) in
    omega (arith, uint_le-put_le w (n / 256) small)

uint_be-append : (xs : Bytes) (acc b : ℕ) → uint_be acc (xs ++ b ∷ []) ≡ uint_be acc xs * 256 + b
uint_be-append [] acc b = refl
uint_be-append (x ∷ xs) acc b = uint_be-append xs (acc * 256 + x) b

uint_be-put_be : (w n : ℕ) → n < 256 ^ w → uint_be 0 (put_be w n) ≡ n
uint_be-put_be zero n h = omega arith
uint_be-put_be (suc w) n h =
    let p = pow-suc 256 w in
    let small : n / 256 < 256 ^ w = omega (arith, p) in
    uint_be-append (put_be w (n / 256)) 0 (n % 256)
    ∙ omega (arith, uint_be-put_be w (n / 256) small)

uint-put : (bo : ByteOrder) (w n : ℕ) → n < 256 ^ w → uint bo (put bo w n) ≡ n
uint-put little w n h = uint_le-put_le w n h
uint-put big w n h = uint_be-put_be w n h

length-put_le : (w n : ℕ) → length (put_le w n) ≡ w
length-put_le zero n = refl
length-put_le (suc w) n = ap suc (length-put_le w (n / 256))

length-put_be : (w n : ℕ) → length (put_be w n) ≡ w
length-put_be zero n = refl
length-put_be (suc w) n =
    omega (arith, length-append (put_be w (n / 256)) ((n % 256) ∷ []), length-put_be w (n / 256))

length-put : (bo : ByteOrder) (w n : ℕ) → length (put bo w n) ≡ w
length-put little w n = length-put_le w n
length-put big w n = length-put_be w n

module _ {ℓ} {A : Type ℓ} where
  pub take-append_of_length : (w : ℕ) (xs ys : List A) → length xs ≡ w → take w (xs ++ ys) ≡ xs
  take-append_of_length w xs ys h = rw (← h) (take-append xs ys)

  pub drop-append_of_length : (w : ℕ) (xs ys : List A) → length xs ≡ w → drop w (xs ++ ys) ≡ ys
  drop-append_of_length w xs ys h = rw (← h) (drop-append xs ys)

module _ (bo : ByteOrder) (w : ℕ) where
  -- What a round reads of a word, and what it leaves.
  take-put : (n : ℕ) (rest : Bytes) → take w (put bo w n ++ rest) ≡ put bo w n
  take-put n rest = take-append_of_length w (put bo w n) rest (length-put bo w n)

  drop-put : (n : ℕ) (rest : Bytes) → drop w (put bo w n ++ rest) ≡ rest
  drop-put n rest = drop-append_of_length w (put bo w n) rest (length-put bo w n)

  -- One round, over an entry whose words are written in front of the rest.
  scan_entries_round :
      (rounds : ℕ) (e : DynEntry) (rest : Bytes)
      → e.tag < 256 ^ w
      → e.val < 256 ^ w
      → scan_entries w bo (suc rounds) (put bo w e.tag ++ (put bo w e.val ++ rest))
        ≡ (if e.tag == 0 then [] else e ∷ scan_entries w bo rounds rest)
  unfolding scan_entries
  scan_entries_round rounds e rest ht hv = rw (
    take-put e.tag,
    drop-put e.tag,
    take-put e.val,
    drop-put e.val,
    uint-put bo w e.tag ht,
    uint-put bo w e.val hv,
  )

  length-put_entry : (e : DynEntry) → length (put_entry bo w e) ≡ w + w
  length-put_entry e = omega (
    arith,
    length-append (put bo w e.tag) (put bo w e.val),
    length-put bo w e.tag,
    length-put bo w e.val,
  )

  length-put_entries : (es : List DynEntry) → length (put_entries bo w es) ≡ length es * (w + w)
  length-put_entries [] = omega arith
  length-put_entries (e ∷ es) = grind (
    arith,
    length-append (put_entry bo w e) (put_entries bo w es),
    length-put_entry e,
    length-put_entries es,
  )

  -- Whole entries are read one by one, whatever stands behind them.
  scan_entries-append :
      (es : List DynEntry) (rounds k : ℕ) (rest : Bytes)
      → All (Fits w) es
      → rounds ≡ length es + k
      → scan_entries w bo rounds (put_entries bo w es ++ rest) ≡ es ++ scan_entries w bo k rest
  scan_entries-append [] rounds k rest h e = let q : rounds ≡ k = omega arith in rw q
  scan_entries-append (e ∷ es) rounds k rest (he, hes) q =
      let q' : rounds ≡ suc (length es + k) = omega arith in
      rw (q', append_assoc (put_entry bo w e), append_assoc (put bo w e.tag))
        (scan_entries_round (length es + k) e (put_entries bo w es ++ rest) he.1 he.2
          ∙ ground (arith, scan_entries-append es (length es + k) k rest hes refl))

  -- A terminator ends the table.
  scan_entries_null :
      (rounds v : ℕ) (rest : Bytes)
      → v < 256 ^ w
      → scan_entries w bo (suc rounds) (put_entry bo w (record { tag = 0; val = v }) ++ rest) ≡ []
  scan_entries_null rounds v rest h = rw (append_assoc (put bo w 0)) (
      scan_entries_round rounds (record { tag = 0; val = v }) rest (one-le-pow w 256 (omega arith))
        h)

  scan_terminated :
      (es : List DynEntry) (v k : ℕ) (rest : Bytes)
      → All (Fits w) es
      → v < 256 ^ w
      → scan_entries w bo
          (length es + suc k)
          (put_entries bo w es ++ (put_entry bo w (record { tag = 0; val = v }) ++ rest))
        ≡ es
  scan_terminated es v k rest h hv =
      scan_entries-append es (length es + suc k) (suc k) _ h refl
      ∙ rw (scan_entries_null k v rest hv) (append-nil es)

  length_terminated :
      (es : List DynEntry) (v : ℕ) (rest : Bytes)
      → length (put_entries bo w es ++ (put_entry bo w (record { tag = 0; val = v }) ++ rest))
        ≡ length es * (w + w) + (w + w + length rest)
  length_terminated es v rest =
      let null : DynEntry = record { tag = 0; val = v } in
      omega (
        arith,
        length-append (put_entries bo w es) (put_entry bo w null ++ rest),
        length-append (put_entry bo w null) rest,
        length-put_entries es,
        length-put_entry null,
      )

  scan_whole :
      (es : List DynEntry) (rest : Bytes)
      → All (Fits w) es
      → scan_entries w bo (length es) (put_entries bo w es ++ rest) ≡ es
  scan_whole es rest h =
      scan_entries-append es (length es) 0 rest h (omega arith)
      ∙ unfold scan_entries in append-nil es

  length_whole :
      (es : List DynEntry) (rest : Bytes)
      → length (put_entries bo w es ++ rest) ≡ length es * (w + w) + length rest
  length_whole es rest =
      omega (arith, length-append (put_entries bo w es) rest, length-put_entries es)

-- How many rounds the loop makes over n bytes.
rounds_of_16 : (n l r : ℕ) → n ≡ l * (8 + 8) + (8 + 8 + r) → n / 16 ≡ l + suc (r / 16)
rounds_of_16 n l r h = omega arith

rounds_of_8 : (n l r : ℕ) → n ≡ l * (4 + 4) + (4 + 4 + r) → n / 8 ≡ l + suc (r / 8)
rounds_of_8 n l r h = omega arith

whole_of_16 : (n l r : ℕ) → n ≡ l * (8 + 8) + r → r < 8 + 8 → n / 16 ≡ l
whole_of_16 n l r h small = omega arith

whole_of_8 : (n l r : ℕ) → n ≡ l * (4 + 4) + r → r < 4 + 4 → n / 8 ≡ l
whole_of_8 n l r h small = omega arith

-- The table that an encoder writes in the file's class and byte order, ended by DT_NULL with any
-- value and followed by anything, is parsed to its entries.
pub parse_dyn_entries-put :
    (c : Class) (bo : ByteOrder) (es : List DynEntry) (v : ℕ) (rest : Bytes)
    → All (Fits (word_size c)) es
    → v < 256 ^ word_size c
    → parse_dyn_entries
        (put_entries bo (word_size c) es
          ++ (put_entry bo (word_size c) (record { tag = 0; val = v }) ++ rest))
        c
        bo
      ≡ es
unfolding parse_dyn_entries
parse_dyn_entries-put class64 bo es v rest h hv =
    rw (rounds_of_16 _ (length es) (length rest) (length_terminated bo 8 es v rest))
      (scan_terminated bo 8 es v (length rest / 16) rest h hv)
parse_dyn_entries-put class32 bo es v rest h hv =
    rw (rounds_of_8 _ (length es) (length rest) (length_terminated bo 4 es v rest))
      (scan_terminated bo 4 es v (length rest / 8) rest h hv)
parse_dyn_entries-put class_none bo es v rest h hv =
    rw (rounds_of_8 _ (length es) (length rest) (length_terminated bo 4 es v rest))
      (scan_terminated bo 4 es v (length rest / 8) rest h hv)

-- A table with no terminator is read to the end of the segment; the bytes of an entry that is cut
-- off are ignored.
pub parse_dyn_entries-put_unterminated :
    (c : Class) (bo : ByteOrder) (es : List DynEntry) (rest : Bytes)
    → All (Fits (word_size c)) es
    → length rest < word_size c + word_size c
    → parse_dyn_entries (put_entries bo (word_size c) es ++ rest) c bo ≡ es
unfolding parse_dyn_entries
parse_dyn_entries-put_unterminated class64 bo es rest h small =
    rw (whole_of_16 _ (length es) (length rest) (length_whole bo 8 es rest) small)
      (scan_whole bo 8 es rest h)
parse_dyn_entries-put_unterminated class32 bo es rest h small =
    rw (whole_of_8 _ (length es) (length rest) (length_whole bo 4 es rest) small)
      (scan_whole bo 4 es rest h)
parse_dyn_entries-put_unterminated class_none bo es rest h small =
    rw (whole_of_8 _ (length es) (length rest) (length_whole bo 4 es rest) small)
      (scan_whole bo 4 es rest h)
