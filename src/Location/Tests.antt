-- ===== src/Location/Tests.antt =====
-- Runs of the in-memory store over integer coordinates, and its theorems at concrete inputs.

use bbn.Prelude.{
  ℕ, ◌≤◌, ◌≡◌, refl, true, false, List, [], ◌∷◌, none, some, arith, All, contains, String,
  string_eq, if◌then◌else◌, length, ◌-◌, ◌⊎◌, ltb,
}
use bbn.Prelude.Maps.{lookup}
use bbn.Prelude.Int.{pos, ◌*ℤ◌, ◌+ℤ◌, ◌-ℤ◌}
use bbn.Float.{le}
use bbn.Float.Plane.{plane}
use bbn.Geo.{
  ShardKey, key_eq, intersecting_shards, haversine_distance, shard_for_coords, min_dist_to_shard,
}
use bbn.Location.Store.{
  LocationEntry, NearbyResult, MemoryStore, new, upsert, find_entry, get_user, sweep, is_suppressed,
  online_ids, skipped, written,
}
use bbn.Location.Store.Sorting.{sort, sort_by_partial}
use bbn.Location.Store.Sorting.Order.{IsSorted}
use bbn.Location.Store.Valid.{IsValid, new-IsValid, upsert-IsValid}
use bbn.Location.Store.Lookup.{IsWritten, upsert_lem}
use bbn.Location.Store.Sweep.{is_stale, find_entry-sweep}
use bbn.Location.Store.Slots.{
  Op, upsert_op, sweep_op, get_user_op, remove_op, online_ids_op, run, replay, StoreSettings,
}
use bbn.Location.Store.Refinement.{run-replay}
use bbn.Location.Nearby.{sorted_candidates, nearby, search, traverse, select, extra_favs}
use bbn.Location.Nearby.Evict.{IsEvicted}
use bbn.Location.Nearby.Hits.{IsHit}
use bbn.Location.Nearby.Results.{
  nearby_total, nearby-IsSorted, length-nearby, nearby-IsHit, nearby-IsEvicted, result_le,
}
use bbn.Location.Nearby.Complete.{users_of, nearby-favourite}
use bbn.Location.Nearby.Unlimited.{nearby_unlimited}

abbrev entry_at : String → ℕ → ℕ → LocationEntry plane
entry_at user_id x updated_at = record {
  user_id = user_id;
  lat = pos x;
  lon = pos 0;
  is_registered = true;
  sex = none;
  nickname = none;
  age = none;
  accuracy = "precise";
  updated_at = updated_at;
}

abbrev ann : LocationEntry plane
ann = entry_at "ann" 1 0

abbrev bob : LocationEntry plane
bob = entry_at "bob" 2 60

abbrev cid : LocationEntry plane
cid = entry_at "cid" 4 60

abbrev empty : MemoryStore plane
empty = new (pos 1) 100 10 (pos 1)

abbrev store : MemoryStore plane
store = (upsert (upsert (upsert empty 0 0 ann).0 60 60 bob).0 60 60 cid).0

store-IsValid : IsValid store
store-IsValid = upsert-IsValid (upsert (upsert empty 0 0 ann).0 60 60 bob).0 60 60 cid (
    upsert-IsValid (upsert empty 0 0 ann).0 60 60 bob
      (upsert-IsValid empty 0 0 ann (new-IsValid (pos 1) 100 10 (pos 1))))

-- The three users stand in three shards.
found_bob : find_entry store "bob" ≡ some bob
unfolding find_entry upsert new is_suppressed haversine_distance shard_for_coords
found_bob = refl

repeated : (upsert store 65 65 (entry_at "bob" 2 65)).1 ≡ skipped
unfolding upsert new is_suppressed haversine_distance ◌*ℤ◌ ◌+ℤ◌ ◌-ℤ◌
repeated = refl

-- Ann's entry is stale at 101.
swept_ann : find_entry (sweep store 101) "ann" ≡ none
unfolding find_entry upsert new is_suppressed sweep shard_for_coords
swept_ann = refl

online : online_ids store 101 ("ann" ∷ "bob" ∷ "dan" ∷ []) ≡ "bob" ∷ []
unfolding online_ids upsert new is_suppressed shard_for_coords
online = refl

-- What the search near the origin finds: with the limit 1, the favourite Bob, and not Ann, who is
-- nearer.
abbrev results : List (NearbyResult plane)
results = record { entry = bob; distance_m = pos 2 } ∷ []

abbrev key_at : ℕ → ShardKey
key_at x = record { lat_index = pos x; lon_index = pos 0 }

-- The store after the search: its shards are now in another order.
abbrev kept : MemoryStore plane
kept = record store {
  shards =
      (key_at 1, ("ann", ann) ∷ [])
      ∷ (key_at 4, ("cid", cid) ∷ [])
      ∷ (key_at 2, ("bob", bob) ∷ [])
      ∷ [];
}

returned :
    nearby store 61 (λ id. 62) (pos 0) (pos 0) (pos 3) 1 ("dan" ∷ []) ("bob" ∷ [])
    ≡ some (results, kept)
unfolding nearby search traverse select extra_favs upsert new is_suppressed shard_for_coords
    haversine_distance ◌*ℤ◌ ◌+ℤ◌ ◌-ℤ◌ sorted_candidates intersecting_shards get_user find_entry
    min_dist_to_shard sort sort_by_partial
returned = refl

nearby_total_example :
    (rs : List (NearbyResult plane)) × (s : MemoryStore plane) × (nearby store 61
        (λ id. 62)
        (pos 0)
        (pos 0)
        (pos 3)
        1
        ("dan" ∷ [])
        ("bob" ∷ [])
      ≡ some (rs, s))
nearby_total_example =
    nearby_total store 61 (λ id. 62) (pos 0) (pos 0) (pos 3) 1 ("dan" ∷ []) ("bob" ∷ [])

nearby-IsSorted_example : IsSorted result_le results
nearby-IsSorted_example =
    nearby-IsSorted store 61 (λ id. 62) (pos 0) (pos 0) (pos 3) 1 ("dan" ∷ []) ("bob" ∷ []) results
      kept returned

length-nearby_example :
    (length results ≤ 1) ⊎ All (λ r. contains ("bob" ∷ []) r.entry.user_id ≡ true) results
length-nearby_example =
    length-nearby store 61 (λ id. 62) (pos 0) (pos 0) (pos 3) 1 ("dan" ∷ []) ("bob" ∷ []) results
      kept returned (omega arith)

nearby-IsHit_example :
    All
      (λ (r : NearbyResult plane).
        IsHit 61 (pos 0) (pos 0) (pos 3) ("dan" ∷ []) store (r.distance_m, r.entry))
      results
nearby-IsHit_example =
    nearby-IsHit store 61 (λ id. 62) (pos 0) (pos 0) (pos 3) 1 ("dan" ∷ []) ("bob" ∷ []) results
      kept returned store-IsValid (omega arith)

nearby-IsEvicted_example : IsEvicted 61 store kept
nearby-IsEvicted_example =
    nearby-IsEvicted store 61 (λ id. 62) (pos 0) (pos 0) (pos 3) 1 ("dan" ∷ []) ("bob" ∷ []) results
      kept returned store-IsValid

near_bob : le plane (haversine_distance plane (pos 0) (pos 0) bob.lat bob.lon) (pos 3) ≡ true
unfolding haversine_distance ◌*ℤ◌ ◌+ℤ◌ ◌-ℤ◌
near_bob = refl

live_bob : ltb store.ttl (62 - bob.updated_at) ≡ false
unfolding upsert new is_suppressed
live_bob = refl

nearby-favourite_example : contains (users_of results) "bob" ≡ true
nearby-favourite_example =
    nearby-favourite store 61 (λ id. 62) (pos 0) (pos 0) (pos 3) 1 ("dan" ∷ []) ("bob" ∷ []) results
      kept returned store-IsValid "bob" bob found_bob near_bob refl (omega arith) live_bob refl

abbrev both : List (NearbyResult plane)
both = record { entry = ann; distance_m = pos 1 } ∷ record { entry = bob; distance_m = pos 2 } ∷ []

abbrev kept_both : MemoryStore plane
kept_both = record store {
  shards =
      (key_at 2, ("bob", bob) ∷ [])
      ∷ (key_at 1, ("ann", ann) ∷ [])
      ∷ (key_at 4, ("cid", cid) ∷ [])
      ∷ [];
}

returned_both : nearby store 61 (λ id. 62) (pos 0) (pos 0) (pos 3) 0 [] [] ≡ some (both, kept_both)
unfolding nearby search traverse select extra_favs upsert new is_suppressed shard_for_coords
    haversine_distance ◌*ℤ◌ ◌+ℤ◌ ◌-ℤ◌ sorted_candidates intersecting_shards get_user find_entry
    min_dist_to_shard sort sort_by_partial
returned_both = refl

led_bob : lookup "bob" store.user_index ≡ some (key_at 2)
unfolding upsert new is_suppressed shard_for_coords
led_bob = refl

listed_bob :
    contains (intersecting_shards plane (pos 0) (pos 0) (pos 3) store.shard_m) (key_at 2) ≡ true
unfolding upsert new is_suppressed intersecting_shards haversine_distance ◌*ℤ◌ ◌+ℤ◌ ◌-ℤ◌
listed_bob = refl

store_ttl : ltb store.ttl (61 - bob.updated_at) ≡ false
unfolding upsert new is_suppressed
store_ttl = refl

nearby_unlimited_example : contains (users_of both) "bob" ≡ true
nearby_unlimited_example =
    nearby_unlimited store 61 (λ id. 62) (pos 0) (pos 0) (pos 3) [] [] both kept_both "bob"
      (key_at 2) bob returned_both store-IsValid found_bob near_bob store_ttl refl led_bob
      listed_bob

abbrev bob_moved : LocationEntry plane
bob_moved = entry_at "bob" 4 65

upsert_lem_example :
    ((is_suppressed store 65 bob_moved ≡ true) × (upsert store 65 65 bob_moved ≡ (store, skipped)))
    ⊎ ((is_suppressed store 65 bob_moved ≡ false)
        × ((upsert store 65 65 bob_moved).1 ≡ written)
        × IsWritten store (upsert store 65 65 bob_moved).0 65 bob_moved)
upsert_lem_example = upsert_lem store 65 65 bob_moved

upsert-IsValid_example : IsValid (upsert store 65 65 (entry_at "bob" 4 65)).0
upsert-IsValid_example = upsert-IsValid store 65 65 (entry_at "bob" 4 65) store-IsValid

find_entry-sweep_example :
    find_entry (sweep store 101) "ann"
    ≡ (if is_stale store.ttl 101 (find_entry store "ann") then none else find_entry store "ann")
find_entry-sweep_example = find_entry-sweep store 101 "ann" store-IsValid

-- Ann writes twice within the interval, her entry grows stale, and Bob stays online.
abbrev ops : List (Op plane)
ops =
    upsert_op 0 0 ann
    ∷ upsert_op 5 5 ann
    ∷ upsert_op 60 60 bob
    ∷ sweep_op 101
    ∷ get_user_op 101 "ann"
    ∷ online_ids_op 101 ("ann" ∷ "bob" ∷ [])
    ∷ remove_op "bob"
    ∷ []

abbrev cfg : StoreSettings plane
cfg = record { ttl = 100; update_interval = 10; update_distance_m = pos 1 }

run-replay_example : run (new (pos 1) 100 10 (pos 1)) ops ≡ replay cfg (λ u. none) ops
run-replay_example = run-replay (pos 1) cfg ops
