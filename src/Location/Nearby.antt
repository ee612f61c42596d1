-- ===== src/Location/Nearby.antt =====
-- The search of the in-memory store: `MemoryStore::nearby` of
-- services/location-service/src/store.rs. `none` is the panic of `partial_cmp(..).unwrap()` on two
-- incomparable distances.
pub mod Evict
pub mod Hits
pub mod Results
pub mod Complete
pub mod Unlimited
use bbn.Prelude.{
  ℕ, suc, zero, ◌+◌, ◌-◌, Bool, true, false, not, ◌&&◌, ◌||◌, List, [], ◌∷◌, ◌++◌, map,
  if◌then◌else◌, Option, none, some, leb, ltb, eqb, String, string_eq, contains, length, take,
  get_elem?, head?, keep,
}
use bbn.Prelude.Maps.{lookup, insert, remove}
use bbn.Float.{Float, le, lt}
use bbn.Geo.{ShardKey, key_eq, haversine_distance, min_dist_to_shard, intersecting_shards}
use bbn.Location.Store.{LocationEntry, NearbyResult, Shard, Shards, MemoryStore, Hit, get_user}
use bbn.Location.Store.Sorting.{sort, sort_by_partial}

module _ (f : Float) where
  -- Whether the next shard, if any, lies beyond the distance `nth_dist`.
  abbrev pub is_last : f.Num → f.Num → f.Num → Option ShardKey → f.Num → Bool
  is_last lat lon shard_m none nth_dist = true
  is_last lat lon shard_m (some next_key) nth_dist =
      lt f nth_dist (min_dist_to_shard f lat lon next_key shard_m)

  -- The early exit: the loop ends if `results` holds `limit` entries and the next shard lies beyond
  -- the last of them. An index out of range, which the test on the length rules out, ends it too.
  abbrev pub exits : f.Num → f.Num → f.Num → Option ShardKey → Option (Hit f) → Bool
  exits lat lon shard_m next none = true
  exits lat lon shard_m next (some (nth_dist, _)) = is_last lat lon shard_m next nth_dist

  -- The candidate shards, sorted by their minimum distance.
  unfoldable pub sorted_candidates : f.Num → f.Num → f.Num → f.Num → Option (List ShardKey)
  unfolding sort_by_partial
  sorted_candidates lat lon radius_m shard_m =
      sort_by_partial
        (λ a b.
          f.partial_cmp (min_dist_to_shard f lat lon a shard_m)
            (min_dist_to_shard f lat lon b shard_m))
        (intersecting_shards f lat lon radius_m shard_m)

module _ {f : Float} where
  abbrev pub sort_hits : List (Hit f) → List (Hit f)
  sort_hits = sort (λ a b. f.total_le a.0 b.0)

  module _ (self_ttl now : ℕ) (lat lon radius_m : f.Num) (exclude_ids : List String) where
    -- The entries of a shard that the scan keeps.
    abbrev pub scan_hits : Shard f → List (Hit f)
    scan_hits [] = []
    scan_hits ((user_id, entry) ∷ shard) =
        let rest = scan_hits shard in
        let d = haversine_distance f lat lon entry.lat entry.lon in
        if contains exclude_ids user_id
        then rest
        else if ltb self_ttl (now - entry.updated_at)
        then rest
        else if le f d radius_m
        then (d, entry) ∷ rest
        else rest

    -- The keys of a shard that the scan finds stale.
    abbrev pub scan_stale : Shard f → List String
    scan_stale [] = []
    scan_stale ((user_id, entry) ∷ shard) =
        let rest = scan_stale shard in
        if contains exclude_ids user_id
        then rest
        else if ltb self_ttl (now - entry.updated_at)
        then user_id ∷ rest
        else rest

  -- The eviction of the stale keys from a shard.
  abbrev pub evict : List String → Shard f → Shard f
  evict [] shard = shard
  evict (k ∷ keys) shard = evict keys (remove k shard)

  module _ (now : ℕ) (lat lon radius_m : f.Num) (limit : ℕ) (exclude_ids : List String) where
    -- The loop over the candidates: the results so far, and the store.
    unfoldable pub traverse :
        List ShardKey → List (Hit f) → MemoryStore f → List (Hit f) × MemoryStore f
    traverse [] results self = (results, self)
    traverse (key ∷ candidates) results self = elim (lookup key self.shards) [
      | none ↦ traverse candidates results self
      | some shard ↦
          let found = results ++ scan_hits self.ttl now lat lon radius_m exclude_ids shard in
          let stale = scan_stale self.ttl now lat lon radius_m exclude_ids shard in
          let self' = record self { shards = insert key (evict stale shard) self.shards } in
          let sorted = sort_hits found in
          let more = traverse candidates sorted self' in
          let rest = traverse candidates found self' in
          if ltb 0 limit && leb limit (length found)
          then (if exits f lat lon self.shard_m (head? candidates) (get_elem? sorted (limit - 1))
              then (sorted, self')
              else more)
          else rest
    ]

  module _ (lat lon radius_m : f.Num) (exclude_ids : List String) where
    -- The favourites that the traversal missed, fetched one by one. `later` is the time at which
    -- `get_user` reads the clock for a favourite.
    unfoldable pub extra_favs :
        (String → ℕ) → MemoryStore f → List String → List String → List (Hit f)
    extra_favs later self found_ids [] = []
    extra_favs later self found_ids (fav_id ∷ fav_ids) =
        let rest = extra_favs later self found_ids fav_ids in
        if contains found_ids fav_id || contains exclude_ids fav_id
        then rest
        else elim (get_user self (later fav_id) fav_id) [
          | none ↦ rest
          | some entry ↦
              let d = haversine_distance f lat lon entry.lat entry.lon in
              if le f d radius_m then (d, entry) ∷ rest else rest
        ]

  -- The reserved slots: favourites first, then the nearest others, as many as the limit leaves.
  unfoldable pub select : ℕ → List String → List (Hit f) → List (Hit f)
  select limit always_include results =
      let fav_results = keep (λ r. contains always_include r.1.user_id) results in
      let other_results = keep (λ r. not (contains always_include r.1.user_id)) results in
      let fav_count = length fav_results in
      let other_limit = if eqb limit 0 then length other_results else limit - fav_count in
      sort_hits (fav_results ++ take other_limit other_results)

  abbrev pub ids_of : List (Hit f) → List String
  ids_of = map (λ r. r.1.user_id)

  abbrev pub to_result : Hit f → NearbyResult f
  to_result r = record { entry = r.1; distance_m = r.0 }

  -- What `nearby` does after the sort of the candidates.
  unfoldable pub search :
      MemoryStore f
      → ℕ
      → (String → ℕ)
      → f.Num
      → f.Num
      → f.Num
      → ℕ
      → List String
      → List String
      → List ShardKey
      → List (Hit f) × MemoryStore f
  search self now later lat lon radius_m limit exclude_ids always_include candidates =
      let (results, self') = traverse now lat lon radius_m limit exclude_ids candidates [] self in
      let sorted = sort_hits results in
      let extra =
        extra_favs lat lon radius_m exclude_ids later self' (ids_of sorted) always_include in
      (select limit always_include (sort_hits (sorted ++ extra)), self')

  unfoldable pub nearby :
      MemoryStore f
      → ℕ
      → (String → ℕ)
      → f.Num
      → f.Num
      → f.Num
      → ℕ
      → List String
      → List String
      → Option (List (NearbyResult f) × MemoryStore f)
  unfolding search sorted_candidates
  nearby self now later lat lon radius_m limit exclude_ids always_include =
      elim (sorted_candidates f lat lon radius_m self.shard_m) [
        | none ↦ none
        | some candidates ↦
            let (results, self') =
              search self now later lat lon radius_m limit exclude_ids always_include candidates in
            some (map to_result results, self')
      ]
