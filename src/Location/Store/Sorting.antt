-- ===== src/Location/Store/Sorting.antt =====
-- The two sorts of the store, by insertion.
pub mod Order
pub mod Partial
use Prim.Native.Nat.{Ordering}
use bbn.Prelude.{
  ◌≡◌, refl, Bool, true, false, List, [], ◌∷◌, Option, none, some, if◌then◌else◌, arith, All,
  Bool-cases, inl, inr, keep,
}

module _ {A : Type 0} where
  -- `sort_unstable_by(|a, b| a.0.total_cmp(&b.0))`
  insert_sorted : (A → A → Bool) → A → List A → List A
  insert_sorted total_le x [] = x ∷ []
  insert_sorted total_le x (y ∷ ys) =
      if total_le x y then x ∷ y ∷ ys else y ∷ insert_sorted total_le x ys

  unfoldable pub sort : (A → A → Bool) → List A → List A
  unfolding insert_sorted
  sort total_le [] = []
  sort total_le (x ∷ xs) = insert_sorted total_le x (sort total_le xs)

  -- `sort_by(|a, b| partial_cmp(a, b).unwrap())`: `none` is the panic on two incomparable values.
  insert_partial : (A → A → Option Ordering) → A → List A → Option (List A)
  insert_partial cmp x [] = some (x ∷ [])
  insert_partial cmp x (y ∷ ys) = elim (cmp x y) [
    | none ↦ none
    | some Ordering.gt ↦ elim (insert_partial cmp x ys) [ none ↦ none | some r ↦ some (y ∷ r) ]
    | some _ ↦ some (x ∷ y ∷ ys)
  ]

  unfoldable pub sort_by_partial : (A → A → Option Ordering) → List A → Option (List A)
  unfolding insert_partial
  sort_by_partial cmp [] = some []
  sort_by_partial cmp (x ∷ xs) = elim (sort_by_partial cmp xs) [
    | none ↦ none
    | some r ↦ insert_partial cmp x r
  ]
