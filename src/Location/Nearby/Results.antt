-- ===== src/Location/Nearby/Results.antt =====
-- What `MemoryStore::nearby` returns.
use bbn.Prelude.{
  ℕ, suc, ◌-◌, ◌≤◌, ◌<◌, ◌≡◌, refl, sym, ap, leb, Bool, true, false, not, List, [], ◌∷◌, ◌++◌, map,
  some, if◌then◌else◌, arith, Bool-cases, Option-cases, inl, inr, ◌⊎◌, String, string_eq, eq_iff,
  ◌==◌, All, All-imp, All-append, All-append_left, All-take, eqb, contains, length, take, keep,
  length-append, length-take,
}
use mathlib.Core.Path.{subst}
use bbn.Float.{Float}
use bbn.Geo.{ShardKey, min_dist_to_shard, intersecting_shards}
use bbn.Geo.Grid.{IsNear, intersecting_shards-IsNear}
use bbn.Location.Store.{NearbyResult, MemoryStore, Hit}
use bbn.Location.Store.Valid.{IsValid}
use bbn.Location.Store.Sorting.Order.{IsSorted, All-sort, sort_lem, length-sort, sort-IsSorted}
use bbn.Location.Store.Sorting.Partial.{sort_by_partial_total}
use bbn.Location.Nearby.{
  traverse, sort_hits, extra_favs, select, ids_of, to_result, search, nearby, sorted_candidates,
}
use bbn.Location.Nearby.Evict.{IsEvicted, traverse-IsEvicted}
use bbn.Location.Nearby.Hits.{IsHit, traverse-IsHit, extra_favs-IsHit, IsHit-IsEvicted}

All-keep {ℓ κ} :
    {A : Type ℓ} (P : A → Type κ) (p : A → Bool) (xs : List A) → All P xs → All P (keep p xs)
All-keep P p [] h = tt
All-keep P p (x ∷ xs) h = ground (arith, All-keep P p xs h.1)

keep-All {ℓ} : {A : Type ℓ} (p : A → Bool) (xs : List A) → All (λ x. p x ≡ true) (keep p xs)
keep-All p [] = tt
keep-All p (x ∷ xs) = elim (Bool-cases (p x)) [
  | inl yes' ↦ rw yes' (yes', keep-All p xs)
  | inr no' ↦ rw no' (keep-All p xs)
]

take_nothing {ℓ} : {A : Type ℓ} (n : ℕ) (xs : List A) → n ≡ 0 → take n xs ≡ []
take_nothing n xs e = rw e refl

pub length-map {ℓ κ} :
    {A : Type ℓ} {B : Type κ} (g : A → B) (xs : List A) → length (map g xs) ≡ length xs
length-map g [] = refl
length-map g (x ∷ xs) = ap suc (length-map g xs)

pub All-map {ℓ κ ν} :
    {A : Type ℓ} {B : Type κ} (P : B → Type ν) (g : A → B) (xs : List A)
    → All (λ x. P (g x)) xs
    → All P (map g xs)
All-map P g [] h = tt
All-map P g (x ∷ xs) h = (h.0, All-map P g xs h.1)

module _ {f : Float} where
  abbrev hit_le : Hit f → Hit f → Bool
  hit_le a b = f.total_le a.0 b.0

  -- The order of the results.
  abbrev pub result_le : NearbyResult f → NearbyResult f → Bool
  result_le a b = f.total_le a.distance_m b.distance_m

  map-IsSorted : (rs : List (Hit f)) → IsSorted hit_le rs → IsSorted result_le (map to_result rs)
  map-IsSorted [] h = tt
  map-IsSorted (r ∷ rs) h =
      (All-map (λ b. result_le (to_result r) b ≡ true) to_result rs h.0, map-IsSorted rs h.1)

  select-IsSorted :
      (limit : ℕ) (always_include : List String) (rs : List (Hit f))
      → IsSorted hit_le (select limit always_include rs)
  unfolding select
  select-IsSorted limit always_include rs =
      sort-IsSorted hit_le (λ a b. f.total_le_total a.0 b.0) (λ a b c. f.total_le_trans a.0 b.0 c.0)
        _

  All-select :
      (P : Hit f → Type 0) (limit : ℕ) (always_include : List String) (rs : List (Hit f))
      → All P rs
      → All P (select limit always_include rs)
  unfolding select
  All-select P limit always_include rs h =
      All-sort hit_le P _
        (All-append P _ _ (All-keep P _ rs h) (All-take P _ _ (All-keep P _ rs h)))

  -- A hit of the user `u` is not selected only if there is none.
  pub select_favourite :
      (limit : ℕ) (always_include : List String) (u : String) (rs : List (Hit f))
      → contains always_include u ≡ true
      → All (λ r. (r.1.user_id == u) ≡ false) (select limit always_include rs)
      → All (λ r. (r.1.user_id == u) ≡ false) rs
  unfolding select
  select_favourite limit always_include u rs c h = kept rs (
      All-append_left (λ r. (r.1.user_id == u) ≡ false) _ _
        (sort_lem hit_le (λ r. (r.1.user_id == u) ≡ false) _ h))
    where
      kept :
          (rs : List (Hit f))
          → All
              (λ r. (r.1.user_id == u) ≡ false)
              (keep (λ r. contains always_include r.1.user_id) rs)
          → All (λ r. (r.1.user_id == u) ≡ false) rs
      kept [] k = tt
      kept (r ∷ rs) k = elim (Bool-cases (contains always_include r.1.user_id)) [
        | inl fav ↦
            let k' : All (λ r. (r.1.user_id == u) ≡ false)
                (r ∷ keep (λ r. contains always_include r.1.user_id) rs) =
              rw fav at k in
            (k'.0, kept rs k'.1)
        | inr other ↦ (
          elim (Bool-cases (r.1.user_id == u)) [
            | inl same ↦ absurd (ground (arith, (eq_iff r.1.user_id u).0 same, other, c))
            | inr differs ↦ differs
          ],
          kept rs (rw other at k),
        )
      ]

  length-select :
      (limit : ℕ) (always_include : List String) (rs : List (Hit f))
      → 0 < limit
      → (length (select limit always_include rs) ≤ limit)
        ⊎ All (λ r. contains always_include r.1.user_id ≡ true) (select limit always_include rs)
  unfolding select
  length-select limit always_include rs h =
      let favs = keep (λ r. contains always_include r.1.user_id) rs in
      let others = keep (λ r. not (contains always_include r.1.user_id)) rs in
      let free = if eqb limit 0 then length others else limit - length favs in
      elim (Bool-cases (leb (length favs) limit)) [
        | inl fit ↦ inl (
            ground (
              arith,
              length-sort hit_le (favs ++ take free others),
              length-append favs (take free others),
              length-take free others,
            ))
        | inr over ↦ inr (
            All-sort hit_le (λ r. contains always_include r.1.user_id ≡ true) _
              (All-append (λ r. contains always_include r.1.user_id ≡ true) favs _
                (keep-All (λ r. contains always_include r.1.user_id) rs)
                (rw (take_nothing free others (ground arith)) tt)))
      ]

module _ {f : Float} (self : MemoryStore f) (now : ℕ) (later : String → ℕ)
    (lat lon radius_m : f.Num) (limit : ℕ) (exclude_ids always_include : List String) where
  -- The distances of the candidate shards can be compared, so their sort does not panic.
  pub sorted_candidates_total :
      (candidates : List ShardKey) × (sorted_candidates f lat lon radius_m self.shard_m
        ≡ some candidates)
  unfolding sorted_candidates
  sorted_candidates_total =
      let dist = λ (key : ShardKey). min_dist_to_shard f lat lon key self.shard_m in
      sort_by_partial_total (λ a b. f.partial_cmp (dist a) (dist b))
        (IsNear f lat lon radius_m self.shard_m)
        (λ a b. f.comparable (dist a) (dist b) radius_m radius_m)
        (intersecting_shards f lat lon radius_m self.shard_m)
        (intersecting_shards-IsNear f lat lon radius_m self.shard_m)

  -- The results of the search, before they are turned into the response.
  abbrev pub Answers : List (NearbyResult f) → MemoryStore f → List ShardKey → Type 0
  Answers results self' candidates =
      (sorted_candidates f lat lon radius_m self.shard_m ≡ some candidates)
      × (results
          ≡ map to_result
              (search self now later lat lon radius_m limit exclude_ids always_include
                candidates).0)
      × (self'
          ≡ (search self now later lat lon radius_m limit exclude_ids always_include candidates).1)

  pub nearby-Answers :
      (results : List (NearbyResult f)) (self' : MemoryStore f)
      → nearby self now later lat lon radius_m limit exclude_ids always_include
        ≡ some (results, self')
      → (candidates : List ShardKey) × Answers results self' candidates
  unfolding nearby
  nearby-Answers results self' e =
      elim (Option-cases (sorted_candidates f lat lon radius_m self.shard_m)) [
        | inl none' ↦ absurd (ground arith)
        | inr (candidates, sorted) ↦ (candidates, (sorted, ground arith, ground arith))
      ]

  -- The search returns for every query: the `unwrap` of its sort finds no two distances that cannot
  -- be compared. The panic of `clamp` at bounds in the wrong order, which a shard size below 0 gives, is
  -- left out of the model.
  pub nearby_total :
      (results : List (NearbyResult f)) × (self' : MemoryStore f) × (nearby self now later lat lon
          radius_m limit exclude_ids always_include
        ≡ some (results, self'))
  unfolding nearby
  nearby_total =
      let (candidates, sorted) = sorted_candidates_total in
      let out =
        search self now later lat lon radius_m limit exclude_ids always_include candidates in
      (map to_result out.0, out.1, rw (sorted, nearby) refl)

  module _ (results : List (NearbyResult f)) (self' : MemoryStore f)
      (returned : nearby self now later lat lon radius_m limit exclude_ids always_include
        ≡ some (results, self')) where
    -- The results of the search are sorted by their distance.
    pub nearby-IsSorted : IsSorted result_le results
    unfolding search
    nearby-IsSorted =
        let (candidates, (_, same, _)) = nearby-Answers results self' returned in
        subst (IsSorted result_le) (sym same)
          (map-IsSorted _ (select-IsSorted limit always_include _))

    -- With a limit above 0 the search returns at most that many results, or favourites only.
    pub length-nearby :
        0 < limit
        → (length results ≤ limit)
          ⊎ All (λ r. contains always_include r.entry.user_id ≡ true) results
    unfolding search
    length-nearby h =
        let (candidates, (_, same, _)) = nearby-Answers results self' returned in
        let (found, self'') = traverse now lat lon radius_m limit exclude_ids candidates [] self in
        let sorted = sort_hits found in
        let extra =
          extra_favs lat lon radius_m exclude_ids later self'' (ids_of sorted) always_include in
        let hits = sort_hits (sorted ++ extra) in
        elim (length-select limit always_include hits h) [
          | inl few ↦
              inl (ground (arith, same, length-map to_result (select limit always_include hits)))
          | inr favs ↦ inr (
              subst (All (λ r. contains always_include r.entry.user_id ≡ true)) (sym same) (
                All-map (λ r. contains always_include r.entry.user_id ≡ true) to_result
                  (select limit always_include hits) favs))
        ]

    -- On a valid store every result is the store's entry of its user with its distance from the
    -- query; it is live at the time of the search, within the radius, and not excluded.
    pub nearby-IsHit :
        IsValid self
        → ((u : String) → now ≤ later u)
        → All
            (λ (r : NearbyResult f).
              IsHit now lat lon radius_m exclude_ids self (r.distance_m, r.entry))
            results
    unfolding search
    nearby-IsHit valid in_order =
        let (candidates, (_, same, _)) = nearby-Answers results self' returned in
        let out = traverse now lat lon radius_m limit exclude_ids candidates [] self in
        let sorted = sort_hits out.0 in
        let extra =
          extra_favs lat lon radius_m exclude_ids later out.1 (ids_of sorted) always_include in
        let Good = IsHit now lat lon radius_m exclude_ids self in
        let (evicted, hits) =
          traverse-IsHit now lat lon radius_m exclude_ids limit candidates self valid in
        let late =
          All-imp (IsHit now lat lon radius_m exclude_ids out.1) Good extra
            (λ r. IsHit-IsEvicted now lat lon radius_m exclude_ids self out.1 r evicted)
            (extra_favs-IsHit now lat lon radius_m exclude_ids out.1 later (ids_of sorted)
              always_include evicted.valid in_order) in
        subst (All (λ (r : NearbyResult f). Good (r.distance_m, r.entry))) (sym same) (
          All-map (λ (r : NearbyResult f). Good (r.distance_m, r.entry)) to_result _
            (All-select Good limit always_include _ (
              All-sort hit_le Good _
                (All-append Good sorted extra (All-sort hit_le Good out.0 hits) late))))

    -- On a valid store the search takes entries out of the shards that are stale at its time, and changes
    -- nothing else: no other entry, not the index, not the suppression map and not the settings. The
    -- store stays valid.
    pub nearby-IsEvicted : IsValid self → IsEvicted now self self'
    unfolding search
    nearby-IsEvicted valid =
        let (candidates, (_, _, kept)) = nearby-Answers results self' returned in
        subst (IsEvicted now self) (sym kept)
          (traverse-IsEvicted now lat lon radius_m exclude_ids limit candidates [] self valid)
