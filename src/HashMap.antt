-- ===== src/HashMap.antt =====
-- `std::collections::HashMap` with text keys, which src/extended.rs keeps its tables in. The order
-- of the list stands for the iteration order, which Rust leaves open: statements range over all
-- lists.
use pywire.Base.{
  ◌≡◌, Option, none, some, List, [], ◌∷◌, arith, String, str_eq, str_eq_iff, if◌then◌else◌,
  Bool-cases, inl, inr,
}

abbrev pub HashMap {ℓ} : Type ℓ → Type ℓ
HashMap V = List (String × V)

module _ {ℓ} {V : Type ℓ} where
  unfoldable pub lookup : String → HashMap V → Option V
  lookup k [] = none
  lookup k ((j, v) ∷ m) = if str_eq j k then some v else lookup k m

  unfoldable pub remove : String → HashMap V → HashMap V
  remove k [] = []
  remove k ((j, v) ∷ m) = let rest = remove k m in if str_eq j k then rest else (j, v) ∷ rest

  unfoldable pub insert : String → V → HashMap V → HashMap V
  unfolding remove
  insert k v m = (k, v) ∷ remove k m

  unfoldable pub keys : HashMap V → List String
  keys [] = []
  keys ((j, v) ∷ m) = j ∷ keys m

  pub lookup-remove :
      (k j : String) (m : HashMap V)
      → lookup j (remove k m) ≡ (if str_eq k j then none else lookup j m)
  unfolding lookup remove
  lookup-remove k j [] = ground arith
  lookup-remove k j ((i, v) ∷ m) =
      ground (arith, lookup-remove k j m, str_eq_iff i k, str_eq_iff i j, str_eq_iff k j)

  pub lookup-insert :
      (k j : String) (v : V) (m : HashMap V)
      → lookup j (insert k v m) ≡ (if str_eq k j then some v else lookup j m)
  unfolding lookup insert
  lookup-insert k j v m = ground (arith, lookup-remove k j m)

  -- No key stands twice.
  abbrev pub Distinct : HashMap V → Type ℓ
  Distinct [] = Unit
  Distinct ((j, v) ∷ m) = (lookup j m ≡ none) × Distinct m

  pub remove-Distinct : (k : String) (m : HashMap V) → Distinct m → Distinct (remove k m)
  unfolding remove
  remove-Distinct k [] h = tt
  remove-Distinct k ((j, v) ∷ m) h = elim (Bool-cases (str_eq j k)) [
    | inl e ↦ rw e (remove-Distinct k m h.1)
    | inr e ↦ rw e (ground (arith, lookup-remove k j m, h.0), remove-Distinct k m h.1)
  ]

  pub insert-Distinct : (k : String) (v : V) (m : HashMap V) → Distinct m → Distinct (insert k v m)
  unfolding insert
  insert-Distinct k v m h =
      (ground (arith, lookup-remove k k m, str_eq_iff k k), remove-Distinct k m h)
