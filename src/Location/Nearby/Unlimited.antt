-- ===== src/Location/Nearby/Unlimited.antt =====
-- The search of `MemoryStore::nearby` without a limit.
use mathlib.Core.Path.{subst}
use bbn.Prelude.{
  ℕ, ◌-◌, ◌≡◌, refl, Bool, true, false, not, List, [], ◌∷◌, ◌++◌, some, arith, Bool-cases,
  Option-cases, inl, inr, String, string_eq, ◌==◌, All, All-append_left, All-append_right, ltb,
  contains, length, take, keep, ap,
}
use bbn.Prelude.Maps.{lookup}
use bbn.Float.{Float, le}
use bbn.Geo.{ShardKey, key_eq, haversine_distance, min_dist_to_shard, intersecting_shards}
use bbn.Location.Store.{LocationEntry, NearbyResult, MemoryStore, Hit, find_entry}
use bbn.Location.Store.Valid.{IsValid}
use bbn.Location.Store.Lookup.{find_entry-entry_in}
use bbn.Location.Store.Sorting.Order.{sort_lem}
use bbn.Location.Store.Sorting.Partial.{sort_by_partial_lem}
use bbn.Location.Nearby.{
  traverse, sort_hits, extra_favs, select, ids_of, search, nearby, sorted_candidates,
}
use bbn.Location.Nearby.Hits.{find_entry-own}
use bbn.Location.Nearby.Results.{nearby-Answers}
use bbn.Location.Nearby.Complete.{
  Misses, users_of, users_of-Misses, traverse-Misses, scan_hits-Misses, contains-All, All-contains,
}

take-length {ℓ} : {A : Type ℓ} (xs : List A) → take (length xs) xs ≡ xs
take-length [] = refl
take-length (x ∷ xs) = ap (λ r. x ∷ r) (take-length xs)

keep_lem {ℓ κ} :
    {A : Type ℓ} (P : A → Type κ) (p : A → Bool) (xs : List A)
    → All P (keep p xs)
    → All P (keep (λ x. not (p x)) xs)
    → All P xs
keep_lem P p [] h k = tt
keep_lem P p (x ∷ xs) h k = elim (Bool-cases (p x)) [
  | inl yes' ↦
      let h' : All P (x ∷ keep p xs) = rw yes' at h in (h'.0, keep_lem P p xs h'.1 (rw yes' at k))
  | inr no' ↦
      let k' : All P (x ∷ keep (λ x. not (p x)) xs) = rw no' at k in
      (k'.0, keep_lem P p xs (rw no' at h) k'.1)
]

sorted_candidates-contains :
    (f : Float) (lat lon radius_m shard_m : f.Num) (candidates : List ShardKey) (key : ShardKey)
    → sorted_candidates f lat lon radius_m shard_m ≡ some candidates
    → contains (intersecting_shards f lat lon radius_m shard_m) key ≡ true
    → contains candidates key ≡ true
unfolding sorted_candidates
sorted_candidates-contains f lat lon radius_m shard_m candidates key e h =
    elim (Bool-cases (contains candidates key)) [
      | inl there ↦ there
      | inr missing ↦
          let dist = λ (k : ShardKey). min_dist_to_shard f lat lon k shard_m in
          let gone =
            (sort_by_partial_lem (λ a b. f.partial_cmp (dist a) (dist b)) (λ k. (k == key) ≡ false)
                (intersecting_shards f lat lon radius_m shard_m) candidates e).1
              (contains-All candidates key missing) in
          absurd (
            ground
              (arith, All-contains (intersecting_shards f lat lon radius_m shard_m) key gone, h))
    ]

module _ {f : Float} where
  -- Without a limit nothing is left out.
  select_lem :
      (P : Hit f → Type 0) (always_include : List String) (rs : List (Hit f))
      → All P (select 0 always_include rs)
      → All P rs
  unfolding select
  select_lem P always_include rs h =
      let fav = λ (r : Hit f). contains always_include r.1.user_id in
      let favs = keep fav rs in
      let others = keep (λ r. not (fav r)) rs in
      let all' = sort_lem (λ a b. f.total_le a.0 b.0) P (favs ++ take (length others) others) h in
      keep_lem P fav rs (All-append_left P favs (take (length others) others) all') (
        subst (All P) (take-length others)
          (All-append_right P favs (take (length others) others) all'))

  -- On a valid store a search without a limit returns every user whose entry is within the radius
  -- and live, who is not excluded, and whose shard is one of those that `intersecting_shards` lists.
  pub nearby_unlimited :
      (self : MemoryStore f) (now : ℕ) (later : String → ℕ) (lat lon radius_m : f.Num)
      (exclude_ids always_include : List String) (results : List (NearbyResult f))
      (self' : MemoryStore f) (u : String) (key : ShardKey) (entry : LocationEntry f)
      → nearby self now later lat lon radius_m 0 exclude_ids always_include ≡ some (results, self')
      → IsValid self
      → find_entry self u ≡ some entry
      → le f (haversine_distance f lat lon entry.lat entry.lon) radius_m ≡ true
      → ltb self.ttl (now - entry.updated_at) ≡ false
      → contains exclude_ids u ≡ false
      → lookup u self.user_index ≡ some key
      → contains (intersecting_shards f lat lon radius_m self.shard_m) key ≡ true
      → contains (users_of results) u ≡ true
  unfolding search
  nearby_unlimited self now later lat lon radius_m exclude_ids always_include results self' u key
        entry returned valid stored near live allowed led listed =
      elim (Bool-cases (contains (users_of results) u)) [
        | inl there ↦ there
        | inr missing ↦
            let (candidates, (sorted_e, same, _)) =
              nearby-Answers self now later lat lon radius_m 0 exclude_ids always_include results
                self' returned in
            let out = traverse now lat lon radius_m 0 exclude_ids candidates [] self in
            let sorted = sort_hits out.0 in
            let extra =
              extra_favs lat lon radius_m exclude_ids later out.1 (ids_of sorted) always_include in
            let le' = λ (a b : Hit f). f.total_le a.0 b.0 in
            let hits =
              sort_lem le' (Misses u) (sorted ++ extra) (
                select_lem (Misses u) always_include _
                  (users_of-Misses u _ (rw same at missing))) in
            let found =
              sort_lem le' (Misses u) out.0 (All-append_left (Misses u) sorted extra hits) in
            elim (Option-cases (lookup key self.shards)) [
              | inl gone ↦ absurd (ground (arith, find_entry-entry_in self u, led, gone, stored))
              | inr (shard, there) ↦
                  let (_, rest) =
                    traverse-Misses lat lon radius_m exclude_ids now (Misses u) key shard candidates
                      [] self there found in
                  let here : lookup u shard ≡ some entry =
                    ground (arith, find_entry-entry_in self u, led, there, stored) in
                  absurd (
                    scan_hits-Misses lat lon radius_m exclude_ids self.ttl now u entry shard
                      (find_entry-own now lat lon radius_m exclude_ids self u entry valid stored)
                      here near allowed live
                      (rest (
                        sorted_candidates-contains f lat lon radius_m self.shard_m candidates key
                          sorted_e listed)))
            ]
      ]
