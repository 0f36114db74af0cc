-- ===== src/Go/Members.antt =====
-- Lists of strings: which strings they hold, repetitions, and what `sort_strings` keeps.
use sec_compile_option.Base.{
  Bool, Bool-cases, List, [], any, ap, arith, false, inl, inr, refl, true, ◌++◌, ◌||◌, ◌∙◌, ◌∷◌,
  ◌≡◌,
}
use sec_compile_option.Go.Sort.{insert_sorted, le_bytes, sort_strings}
use sec_compile_option.Go.Strings.{Bytes, eq_bytes, eq_bytes_iff}

abbrev pub member : Bytes → List Bytes → Bool
member x xs = any (λ m. eq_bytes m x) xs

-- No string stands twice.
abbrev pub IsDistinct : List Bytes → Type 0
IsDistinct [] = Unit
IsDistinct (x ∷ xs) = (member x xs ≡ false) × IsDistinct xs

-- Each string is at most the one behind it, the first at least `lo`.
abbrev pub IsSortedFrom : Bytes → List Bytes → Type 0
IsSortedFrom lo [] = Unit
IsSortedFrom lo (x ∷ xs) = (le_bytes lo x ≡ true) × IsSortedFrom x xs

abbrev pub IsSorted : List Bytes → Type 0
IsSorted [] = Unit
IsSorted (x ∷ xs) = IsSortedFrom x xs

pub member-append :
    (x : Bytes) (xs ys : List Bytes) → member x (xs ++ ys) ≡ (member x xs || member x ys)
member-append x [] ys = refl
member-append x (y ∷ xs) ys = ground (arith, member-append x xs ys)

pub eq_bytes_sym : (a b : Bytes) → eq_bytes a b ≡ false → eq_bytes b a ≡ false
eq_bytes_sym a b h = ground (arith, eq_bytes_iff a b, eq_bytes_iff b a)

member-insert_sorted :
    (x n : Bytes) (ms : List Bytes) → member x (insert_sorted n ms) ≡ (eq_bytes n x || member x ms)
unfolding insert_sorted
member-insert_sorted x n [] = refl
member-insert_sorted x n (m ∷ ms) = ground (arith, member-insert_sorted x n ms)

pub member-sort_strings : (x : Bytes) (ns : List Bytes) → member x (sort_strings ns) ≡ member x ns
unfolding sort_strings
member-sort_strings x [] = refl
member-sort_strings x (n ∷ ns) =
    member-insert_sorted x n (sort_strings ns)
    ∙ ap (λ b. eq_bytes n x || b) (member-sort_strings x ns)

insert_sorted-IsDistinct :
    (n : Bytes) (ms : List Bytes)
    → member n ms ≡ false
    → IsDistinct ms
    → IsDistinct (insert_sorted n ms)
unfolding insert_sorted
insert_sorted-IsDistinct n [] h d = (h, d)
insert_sorted-IsDistinct n (m ∷ ms) h (f, d) = elim (Bool-cases (le_bytes n m)) [
  | inl q ↦ rw q (h, (f, d))
  | inr q ↦
      let (a, b) : (eq_bytes m n ≡ false) × (member n ms ≡ false) = ground (arith, h) in
      let fresh = member-insert_sorted m n ms ∙ rw (eq_bytes_sym m n a, f) refl in
      rw q (fresh, insert_sorted-IsDistinct n ms b d)
]

pub sort_strings-IsDistinct : (ns : List Bytes) → IsDistinct ns → IsDistinct (sort_strings ns)
unfolding sort_strings
sort_strings-IsDistinct [] d = d
sort_strings-IsDistinct (n ∷ ns) (f, d) =
    insert_sorted-IsDistinct n (sort_strings ns) (member-sort_strings n ns ∙ f)
      (sort_strings-IsDistinct ns d)

le_bytes_total : (a b : Bytes) → le_bytes a b ≡ false → le_bytes b a ≡ true
unfolding le_bytes
le_bytes_total [] b h = absurd (cc)
le_bytes_total (x ∷ a) [] h = refl
le_bytes_total (x ∷ a) (y ∷ b) h = ground (arith, le_bytes_total a b)

insert_sorted-IsSortedFrom :
    (lo n : Bytes) (ms : List Bytes)
    → le_bytes lo n ≡ true
    → IsSortedFrom lo ms
    → IsSortedFrom lo (insert_sorted n ms)
unfolding insert_sorted
insert_sorted-IsSortedFrom lo n [] h s = (h, tt)
insert_sorted-IsSortedFrom lo n (m ∷ ms) h (a, s) = elim (Bool-cases (le_bytes n m)) [
  | inl q ↦ rw q (h, (q, s))
  | inr q ↦ rw q (a, insert_sorted-IsSortedFrom m n ms (le_bytes_total n m q) s)
]

insert_sorted-IsSorted : (n : Bytes) (ms : List Bytes) → IsSorted ms → IsSorted (insert_sorted n ms)
unfolding insert_sorted
insert_sorted-IsSorted n [] s = tt
insert_sorted-IsSorted n (m ∷ ms) s = elim (Bool-cases (le_bytes n m)) [
  | inl q ↦ rw q (q, s)
  | inr q ↦ rw q (insert_sorted-IsSortedFrom m n ms (le_bytes_total n m q) s)
]

pub sort_strings-IsSorted : (ns : List Bytes) → IsSorted (sort_strings ns)
unfolding sort_strings
sort_strings-IsSorted [] = tt
sort_strings-IsSorted (n ∷ ns) =
    insert_sorted-IsSorted n (sort_strings ns) (sort_strings-IsSorted ns)

-- A new string at the end.
pub IsDistinct-append :
    (xs : List Bytes) (n : Bytes) → IsDistinct xs → member n xs ≡ false → IsDistinct (xs ++ n ∷ [])
IsDistinct-append [] n d h = (refl, tt)
IsDistinct-append (x ∷ xs) n (f, d) h =
    let (a, b) : (eq_bytes x n ≡ false) × (member n xs ≡ false) = ground (arith, h) in
    (member-append x xs (n ∷ []) ∙ rw (f, eq_bytes_sym x n a) refl, IsDistinct-append xs n d b)
