-- ===== src/Go/Maps.antt =====
-- A Go map with string keys as an association list; a missing key reads as the default.
use sec_compile_option.Base.{
  Bool, List, [], arith, false, if◌then◌else◌, refl, true, ◌||◌, ◌∷◌, ◌≡◌,
}
use sec_compile_option.Go.Strings.{Bytes, eq_bytes, eq_bytes_iff}

module _ {ℓ} {V : Type ℓ} where
  unfoldable pub lookup : Bytes → V → List (Bytes × V) → V
  lookup k d [] = d
  lookup k d ((j, v) ∷ m) = if eq_bytes j k then v else lookup k d m

  unfoldable pub insert : Bytes → V → List (Bytes × V) → List (Bytes × V)
  insert k v [] = (k, v) ∷ []
  insert k v ((j, w) ∷ m) = if eq_bytes j k then (j, v) ∷ m else (j, w) ∷ insert k v m

  unfoldable pub has_key : Bytes → List (Bytes × V) → Bool
  has_key k [] = false
  has_key k ((j, v) ∷ m) = if eq_bytes j k then true else has_key k m

module _ {ℓ} {V : Type ℓ} where
  pub lookup-insert :
      (k j : Bytes) (v d : V) (m : List (Bytes × V))
      → lookup j d (insert k v m) ≡ (if eq_bytes k j then v else lookup j d m)
  unfolding lookup insert
  lookup-insert k j v d [] = refl
  lookup-insert k j v d ((i, w) ∷ m) =
      ground (arith, eq_bytes_iff k j, eq_bytes_iff i k, eq_bytes_iff i j, lookup-insert k j v d m)

  pub has_key-insert :
      (k j : Bytes) (v : V) (m : List (Bytes × V))
      → has_key j (insert k v m) ≡ (eq_bytes k j || has_key j m)
  unfolding has_key insert
  has_key-insert k j v [] = ground arith
  has_key-insert k j v ((i, w) ∷ m) =
      ground (arith, eq_bytes_iff k j, eq_bytes_iff i k, eq_bytes_iff i j, has_key-insert k j v m)
