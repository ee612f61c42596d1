-- ===== src/Location/Store/Sorting/Partial.antt =====
-- What the sort by a partial comparison guarantees.
use Prim.Native.Nat.{Ordering}
use bbn.Prelude.{
  ◌≡◌, refl, sym, ◌≢◌, true, List, [], ◌∷◌, Option, none, some, arith, All, All-imp, ◌⊎◌,
  Option-cases, inl, inr, ◌↔◌,
}
use mathlib.Core.Path.{subst}
use bbn.Float.{is_le}
use bbn.Location.Store.Sorting.{insert_partial, sort_by_partial}
use bbn.Location.Store.Sorting.Order.{IsSorted}

is_gt_cases : (o : Option Ordering) → (o ≡ some Ordering.gt) ⊎ (o ≢ some Ordering.gt)
is_gt_cases none = inr (cc)
is_gt_cases (some Ordering.lt) = inr (cc)
is_gt_cases (some Ordering.eq) = inr (cc)
is_gt_cases (some Ordering.gt) = inl refl

module _ {A : Type 0} (cmp : A → A → Option Ordering) where
  -- The two ways in which an insertion before `y ∷ ys` succeeds.
  abbrev Inserted : A → A → List A → List A → Type 0
  Inserted x y ys r =
      ((r ≡ x ∷ y ∷ ys) × (is_le (cmp x y) ≡ true))
      ⊎ ((r' : List A) × (insert_partial cmp x ys ≡ some r')
          × (r ≡ y ∷ r')
          × (cmp x y ≡ some Ordering.gt))

  insert_partial-Inserted :
      (x y : A) (ys r : List A) → insert_partial cmp x (y ∷ ys) ≡ some r → Inserted x y ys r
  unfolding insert_partial
  insert_partial-Inserted x y ys r h = ground arith

  module _ (P : A → Type 0) where
    insert_partial_lem :
        (x : A) (xs r : List A) → insert_partial cmp x xs ≡ some r → (P x × All P xs) ↔ All P r
    unfolding insert_partial
    insert_partial_lem x [] r h =
        let e : x ∷ [] ≡ r = cc in (λ p. subst (All P) e p, λ p. subst (All P) (sym e) p)
    insert_partial_lem x (y ∷ ys) r h = elim (insert_partial-Inserted x y ys r h) [
      | inl (e, below) ↦
          (λ p. subst (All P) (sym e) (p.0, p.1), λ p. let q = subst (All P) e p in (q.0, q.1))
      | inr (r', e', e, above) ↦
          let (to, from) = insert_partial_lem x ys r' e' in
          (
            λ p. subst (All P) (sym e) (p.1.0, to (p.0, p.1.1)),
            λ p. let q = subst (All P) e p in let w = from q.1 in (w.0, (q.0, w.1)),
          )
    ]

    pub sort_by_partial_lem : (xs r : List A) → sort_by_partial cmp xs ≡ some r → All P xs ↔ All P r
    unfolding sort_by_partial
    sort_by_partial_lem [] r h =
        let e : [] ≡ r = cc in (λ p. subst (All P) e p, λ p. subst (All P) (sym e) p)
    sort_by_partial_lem (x ∷ xs) r h = elim (Option-cases (sort_by_partial cmp xs)) [
      | inl gone ↦ absurd (cc (rw (gone, sort_by_partial) at h))
      | inr (s, found) ↦
          let (to, from) = sort_by_partial_lem xs s found in
          let (into, out) = insert_partial_lem x s r (rw (found, sort_by_partial) at h) in
          (λ p. into (p.0, to p.1), λ p. let q = out p in (q.0, from q.1))
    ]

  module _ (IsFine : A → Type 0) (fine : (a b : A) → IsFine a → IsFine b → cmp a b ≢ none) where
    insert_partial_total :
        (x : A) (xs : List A)
        → IsFine x
        → All IsFine xs
        → (r : List A) × (insert_partial cmp x xs ≡ some r)
    unfolding insert_partial
    insert_partial_total x [] p h = (x ∷ [], refl)
    insert_partial_total x (y ∷ ys) p h =
        let (r, e) = insert_partial_total x ys p h.1 in
        let ne = fine x y p h.0 in
        elim (is_gt_cases (cmp x y)) [
          | inl above ↦ (y ∷ r, ground arith)
          | inr below ↦ (x ∷ y ∷ ys, ground arith)
        ]

    -- The sort does not panic.
    pub sort_by_partial_total :
        (xs : List A) → All IsFine xs → (r : List A) × (sort_by_partial cmp xs ≡ some r)
    unfolding sort_by_partial
    sort_by_partial_total [] h = ([], refl)
    sort_by_partial_total (x ∷ xs) h =
        let (s, e) = sort_by_partial_total xs h.1 in
        let (r, e') = insert_partial_total x s h.0 ((sort_by_partial_lem IsFine xs s e).0 h.1) in
        (r, rw (e, sort_by_partial) e')

  module _ (flip : (a b : A) → cmp a b ≡ some Ordering.gt → is_le (cmp b a) ≡ true)
      (trans : (a b c : A)
        → is_le (cmp a b) ≡ true
        → is_le (cmp b c) ≡ true
        → is_le (cmp a c) ≡ true) where
    insert_partial-IsSorted :
        (x : A) (xs r : List A)
        → insert_partial cmp x xs ≡ some r
        → IsSorted (λ a b. is_le (cmp a b)) xs
        → IsSorted (λ a b. is_le (cmp a b)) r
    unfolding insert_partial
    insert_partial-IsSorted x [] r h s =
        let e : x ∷ [] ≡ r = cc in subst (IsSorted (λ a b. is_le (cmp a b))) e (tt, tt)
    insert_partial-IsSorted x (y ∷ ys) r h s = elim (insert_partial-Inserted x y ys r h) [
      | inl (e, below) ↦ subst (IsSorted (λ a b. is_le (cmp a b))) (sym e) (
        (
          below,
          All-imp (λ z. is_le (cmp y z) ≡ true) (λ z. is_le (cmp x z) ≡ true) ys
              (λ z. trans x y z below) s.0,
        ),
        s,
      )
      | inr (r', e', e, above) ↦ subst (IsSorted (λ a b. is_le (cmp a b))) (sym e) (
        (insert_partial_lem (λ z. is_le (cmp y z) ≡ true) x ys r' e').0 (flip x y above, s.0),
        insert_partial-IsSorted x ys r' e' s.1,
      )
    ]

    pub sort_by_partial-IsSorted :
        (xs r : List A) → sort_by_partial cmp xs ≡ some r → IsSorted (λ a b. is_le (cmp a b)) r
    unfolding sort_by_partial
    sort_by_partial-IsSorted [] r h =
        let e : [] ≡ r = cc in subst (IsSorted (λ a b. is_le (cmp a b))) e tt
    sort_by_partial-IsSorted (x ∷ xs) r h = elim (Option-cases (sort_by_partial cmp xs)) [
      | inl gone ↦ absurd (cc (rw (gone, sort_by_partial) at h))
      | inr (s, found) ↦
          insert_partial-IsSorted x s r (rw (found, sort_by_partial) at h)
            (sort_by_partial-IsSorted xs s found)
    ]
