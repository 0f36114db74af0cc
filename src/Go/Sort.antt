-- ===== src/Go/Sort.antt =====
-- sort.Strings: the order of Go strings, and a sort by insertion.
use sec_compile_option.Base.{Bool, List, [], false, if◌then◌else◌, ltb, true, ◌&&◌, ◌==◌, ◌||◌, ◌∷◌}
use sec_compile_option.Go.Strings.{Bytes}

-- a <= b, byte by byte.
unfoldable pub le_bytes : Bytes → Bytes → Bool
le_bytes [] b = true
le_bytes (x ∷ a) [] = false
le_bytes (x ∷ a) (y ∷ b) = ltb x y || (x == y && le_bytes a b)

unfoldable pub insert_sorted : Bytes → List Bytes → List Bytes
insert_sorted n [] = n ∷ []
insert_sorted n (m ∷ ms) = if le_bytes n m then n ∷ m ∷ ms else m ∷ insert_sorted n ms

unfoldable pub sort_strings : List Bytes → List Bytes
unfolding insert_sorted
sort_strings [] = []
sort_strings (n ∷ ns) = insert_sorted n (sort_strings ns)
