-- ===== src/Location/Store/Sorting/Order.antt =====
-- What the sort by a total order guarantees.
use bbn.Prelude.{
  suc, ◌≡◌, refl, Bool, true, false, List, [], ◌∷◌, arith, All, All-imp, Bool-cases, inl, inr,
  length, ap, ◌∙◌,
}
use bbn.Location.Store.Sorting.{insert_sorted, sort}

module _ {A : Type 0} where
  module _ (le : A → A → Bool) where
    -- Each element is below all that follow it.
    abbrev pub IsSorted : List A → Type 0
    IsSorted [] = Unit
    IsSorted (x ∷ xs) = All (λ y. le x y ≡ true) xs × IsSorted xs

    All-insert_sorted :
        (P : A → Type 0) (x : A) (xs : List A) → P x → All P xs → All P (insert_sorted le x xs)
    unfolding insert_sorted
    All-insert_sorted P x [] p h = (p, tt)
    All-insert_sorted P x (y ∷ ys) p h = elim (Bool-cases (le x y)) [
      | inl below ↦ rw below (p, (h.0, h.1))
      | inr above ↦ rw above (h.0, All-insert_sorted P x ys p h.1)
    ]

    insert_sorted_lem :
        (P : A → Type 0) (x : A) (xs : List A) → All P (insert_sorted le x xs) → P x × All P xs
    unfolding insert_sorted
    insert_sorted_lem P x [] h = h
    insert_sorted_lem P x (y ∷ ys) h = elim (Bool-cases (le x y)) [
      | inl below ↦ rw below at h
      | inr above ↦
          let k : P y × All P (insert_sorted le x ys) = rw above at h in
          let r = insert_sorted_lem P x ys k.1 in (r.0, (k.0, r.1))
    ]

    pub All-sort : (P : A → Type 0) (xs : List A) → All P xs → All P (sort le xs)
    unfolding sort
    All-sort P [] h = tt
    All-sort P (x ∷ xs) h = All-insert_sorted P x (sort le xs) h.0 (All-sort P xs h.1)

    pub sort_lem : (P : A → Type 0) (xs : List A) → All P (sort le xs) → All P xs
    unfolding sort
    sort_lem P [] h = tt
    sort_lem P (x ∷ xs) h = let k = insert_sorted_lem P x (sort le xs) h in (k.0, sort_lem P xs k.1)

    length-insert_sorted : (x : A) (xs : List A) → length (insert_sorted le x xs) ≡ suc (length xs)
    unfolding insert_sorted
    length-insert_sorted x [] = refl
    length-insert_sorted x (y ∷ ys) = ground (arith, length-insert_sorted x ys)

    pub length-sort : (xs : List A) → length (sort le xs) ≡ length xs
    unfolding sort
    length-sort [] = refl
    length-sort (x ∷ xs) = length-insert_sorted x (sort le xs) ∙ ap suc (length-sort xs)

    module _ (total : (a b : A) → le a b ≡ false → le b a ≡ true)
        (trans : (a b c : A) → le a b ≡ true → le b c ≡ true → le a c ≡ true) where
      insert_sorted-IsSorted :
          (x : A) (xs : List A) → IsSorted xs → IsSorted (insert_sorted le x xs)
      unfolding insert_sorted
      insert_sorted-IsSorted x [] h = (tt, tt)
      insert_sorted-IsSorted x (y ∷ ys) h = elim (Bool-cases (le x y)) [
        | inl below ↦ rw below (
          (
            below,
            All-imp (λ z. le y z ≡ true) (λ z. le x z ≡ true) ys (λ z. trans x y z below) h.0,
          ),
          h,
        )
        | inr above ↦ rw above (
          All-insert_sorted (λ z. le y z ≡ true) x ys (total x y above) h.0,
          insert_sorted-IsSorted x ys h.1,
        )
      ]

      pub sort-IsSorted : (xs : List A) → IsSorted (sort le xs)
      unfolding sort
      sort-IsSorted [] = tt
      sort-IsSorted (x ∷ xs) = insert_sorted-IsSorted x (sort le xs) (sort-IsSorted xs)
