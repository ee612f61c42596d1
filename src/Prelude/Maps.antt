-- ===== src/Prelude/Maps.antt =====
-- Hash maps as association lists: the first pair with a key is its value.
use mathlib.Core.Path.{◌≡◌, refl, subst}
use mathlib.Core.Bool.{false}
use mathlib.Core.Logic.{inl, inr}
use mathlib.Core.List.{List, [], ◌∷◌}
use mathlib.Core.Option.{Option, none, some}
use native.Mathlib.Omega.{arith}
use bbn.Prelude.Tests.{if◌then◌else◌, Bool-cases}
use bbn.Prelude.Lists.{All}
use bbn.Prelude.Keys.{Eq, ◌==◌}

module _ {ℓ κ} {K : Type ℓ} {V : Type κ} ⦃e : Eq K⦄ where
  abbrev pub lookup : K → List (K × V) → Option V
  lookup k [] = none
  lookup k ((j, v) ∷ m) = if j == k then some v else lookup k m

  abbrev pub remove : K → List (K × V) → List (K × V)
  remove k [] = []
  remove k ((j, w) ∷ m) = if j == k then remove k m else (j, w) ∷ remove k m

  abbrev pub insert : K → V → List (K × V) → List (K × V)
  insert k v m = (k, v) ∷ remove k m

  pub lookup-remove :
      (k j : K) (m : List (K × V)) → lookup j (remove k m) ≡ (if k == j then none else lookup j m)
  lookup-remove k j [] = ground arith
  lookup-remove k j ((i, w) ∷ m) =
      ground (arith, e.beq_iff k j, e.beq_iff i k, e.beq_iff i j, lookup-remove k j m)

  pub lookup-insert :
      (k j : K) (v : V) (m : List (K × V))
      → lookup j (insert k v m) ≡ (if k == j then some v else lookup j m)
  lookup-insert k j v m = ground (arith, lookup-remove k j m)

  -- A key that is looked up in vain is not there.
  pub others_absent :
      (k : K) (m : List (K × V)) → lookup k m ≡ none → All (λ b. (b.0 == k) ≡ false) m
  others_absent k [] h = tt
  others_absent k ((j, w) ∷ m) h = elim (Bool-cases (j == k)) [
    | inl same ↦ absurd (ground arith)
    | inr other ↦ (other, others_absent k m (ground arith))
  ]

  pub lookup_absent :
      (k : K) (m : List (K × V)) → All (λ b. (b.0 == k) ≡ false) m → lookup k m ≡ none
  lookup_absent k [] h = refl
  lookup_absent k ((j, w) ∷ m) h = rw (h.0, lookup_absent k m h.1)

  -- No key stands twice, as in every hash map.
  abbrev pub IsDistinct : List (K × V) → Type 0
  IsDistinct [] = Unit
  IsDistinct ((k, v) ∷ m) = All (λ b. (b.0 == k) ≡ false) m × IsDistinct m

  module _ {ν} (P : K × V → Type ν) where
    pub All-lookup : (m : List (K × V)) {k : K} {v : V} → All P m → lookup k m ≡ some v → P (k, v)
    All-lookup [] h e' = cc
    All-lookup ((j, w) ∷ m) {k} {v} h found = elim (Bool-cases (j == k)) [
      | inl same ↦ subst P (ground (arith, (e.beq_iff j k).0 same)) h.0
      | inr other ↦ All-lookup m h.1 (ground arith)
    ]

    pub All-remove : (k : K) (m : List (K × V)) → All P m → All P (remove k m)
    All-remove k [] h = tt
    All-remove k ((j, w) ∷ m) h = ground (arith, All-remove k m)

    pub All-insert : (k : K) (v : V) (m : List (K × V)) → P (k, v) → All P m → All P (insert k v m)
    All-insert k v m p h = (p, All-remove k m h)

    -- What `remove` leaves has other keys.
    pub All-remove_other :
        (k : K) (m : List (K × V)) → All P m → All (λ b. ((b.0 == k) ≡ false) × P b) (remove k m)
    All-remove_other k [] h = tt
    All-remove_other k ((j, w) ∷ m) h = elim (Bool-cases (j == k)) [
      | inl same ↦ rw same (All-remove_other k m h.1)
      | inr other ↦ rw other ((other, h.0), All-remove_other k m h.1)
    ]

module _ {ℓ κ} {K : Type ℓ} {V : Type κ} ⦃e : Eq K⦄ where
  pub remove-IsDistinct : (k : K) (m : List (K × V)) → IsDistinct m → IsDistinct (remove k m)
  remove-IsDistinct k [] h = tt
  remove-IsDistinct k ((j, w) ∷ m) h = elim (Bool-cases (j == k)) [
    | inl same ↦ rw same (remove-IsDistinct k m h.1)
    | inr other ↦ rw other (All-remove (λ b. (b.0 == j) ≡ false) k m h.0, remove-IsDistinct k m h.1)
  ]

  -- What `remove` leaves does not have the key.
  pub remove_absent : (k : K) (m : List (K × V)) → All (λ b. (b.0 == k) ≡ false) (remove k m)
  remove_absent k [] = tt
  remove_absent k ((j, w) ∷ m) = elim (Bool-cases (j == k)) [
    | inl same ↦ rw same (remove_absent k m)
    | inr other ↦ rw other (other, remove_absent k m)
  ]

  pub insert-IsDistinct :
      (k : K) (v : V) (m : List (K × V)) → IsDistinct m → IsDistinct (insert k v m)
  insert-IsDistinct k v m h = (remove_absent k m, remove-IsDistinct k m h)
