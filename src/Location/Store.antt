-- ===== src/Location/Store.antt =====
-- The in-memory sharded location store: services/location-service/src/store.rs. An `Instant` is a
-- number of milliseconds, and each clock reading of an operation is an argument. A hash map is an
-- association list, in one of the orders in which it may be walked, and a hash set a list. Locks
-- are left out: an operation is one step. Of the orders that `sort_unstable_by` may leave among
-- equal distances the model takes the stable one.
pub mod Sorting
pub mod Invariant
pub mod Lookup
pub mod Valid
pub mod Sweep
pub mod Slots
pub mod Refinement
use Prim.Native.Nat.{Ordering}
use bbn.Prelude.{
  ℕ, suc, zero, ◌+◌, ◌-◌, ◌≡◌, Bool, true, false, not, ◌&&◌, ◌||◌, List, [], ◌∷◌, ◌++◌, map,
  if◌then◌else◌, Option, none, some, leb, ltb, eqb, String, string_eq, contains, length, take,
  get_elem?, head?, keep, ◌==◌, Eq,
}
use bbn.Prelude.Maps.{lookup, insert, remove}
use bbn.Prelude.Int.{ℤ}
use bbn.Float.{Float, le, lt}
use bbn.Geo.{
  ShardKey, key_eq, haversine_distance, shard_for_coords, min_dist_to_shard, intersecting_shards,
}
use Sorting.{sort, sort_by_partial}

pub record LocationEntry (f : Float) : Type 0 where
  pub user_id : String
  pub lat : f.Num
  pub lon : f.Num
  pub is_registered : Bool
  pub sex : Option String
  pub nickname : Option String
  pub age : Option ℤ
  pub accuracy : String
  pub updated_at : ℕ

pub record NearbyResult (f : Float) : Type 0 where
  pub entry : LocationEntry f
  pub distance_m : f.Num

pub data UpsertResult : Type 0 where
  written skipped : UpsertResult

abbrev pub Shard : Float → Type 0
Shard f = List (String × LocationEntry f)

abbrev pub Shards : Float → Type 0
Shards f = List (ShardKey × Shard f)

pub record MemoryStore (f : Float) : Type 0 where
  pub shards : Shards f
  pub user_index : List (String × ShardKey)
  pub suppression : List (String × (ℕ × f.Num × f.Num))
  pub shard_m : f.Num
  pub ttl : ℕ
  pub update_interval : ℕ
  pub update_distance_m : f.Num

-- A distance and the entry that it belongs to.
abbrev pub Hit : Float → Type 0
Hit f = f.Num × LocationEntry f

-- `set.insert(id)`
abbrev pub set_insert : List String → String → List String
set_insert ids id = if contains ids id then ids else ids ++ id ∷ []

module _ {f : Float} where
  -- `MemoryStore::new`
  unfoldable pub new : f.Num → ℕ → ℕ → f.Num → MemoryStore f
  new shard_m ttl update_interval update_distance_m = record {
    shards = [];
    user_index = [];
    suppression = [];
    shard_m = shard_m;
    ttl = ttl;
    update_interval = update_interval;
    update_distance_m = update_distance_m;
  }

  -- `shards.get(&key)`, then `shard.write().remove(user_id)` if the shard is there.
  abbrev pub remove_from_shard : ShardKey → String → Shards f → Shards f
  remove_from_shard key user_id shards = elim (lookup key shards) [
    | none ↦ shards
    | some shard ↦ insert key (remove user_id shard) shards
  ]

  -- The insertion into the shard of the key, which is created if it is missing.
  abbrev pub insert_into_shard : ShardKey → String → LocationEntry f → Shards f → Shards f
  insert_into_shard key user_id entry shards = elim (lookup key shards) [
    | none ↦ insert key (insert user_id entry []) shards
    | some shard ↦ insert key (insert user_id entry shard) shards
  ]

  -- The suppression check of `upsert`, at the time `now`.
  unfoldable pub is_suppressed : MemoryStore f → ℕ → LocationEntry f → Bool
  is_suppressed self now entry = elim (lookup entry.user_id self.suppression) [
    | none ↦ false
    | some (last_t, last_lat, last_lon) ↦
        let moved =
          le f self.update_distance_m
            (haversine_distance f last_lat last_lon entry.lat entry.lon) in
        not moved && ltb (now - last_t) self.update_interval
  ]

  -- The removal from the shard where the user was before.
  abbrev pub leave_old_shard : Option ShardKey → ShardKey → String → Shards f → Shards f
  leave_old_shard none new_key user_id shards = shards
  leave_old_shard (some old_key) new_key user_id shards =
      if old_key == new_key then shards else remove_from_shard old_key user_id shards

  -- `upsert`: `now` is the time of the suppression check, `written_at` that of the write.
  unfoldable pub upsert : MemoryStore f → ℕ → ℕ → LocationEntry f → MemoryStore f × UpsertResult
  upsert self now written_at entry =
      if is_suppressed self now entry
      then (self, skipped)
      else (let user_id = entry.user_id in
          let new_key = shard_for_coords f entry.lat entry.lon self.shard_m in
          let left = leave_old_shard (lookup user_id self.user_index) new_key user_id self.shards in
          (
            record self {
              shards = insert_into_shard new_key user_id entry left;
              user_index = insert user_id new_key self.user_index;
              suppression = insert user_id (written_at, entry.lat, entry.lon) self.suppression;
            },
            written,
          ))

  -- `remove`
  unfoldable pub remove_user : MemoryStore f → String → MemoryStore f
  remove_user self user_id = elim (lookup user_id self.user_index) [
    | none ↦ self
    | some key ↦ record self {
      shards = remove_from_shard key user_id self.shards;
      user_index = remove user_id self.user_index;
      suppression = remove user_id self.suppression;
    }
  ]

  -- The entry that the index leads to.
  unfoldable pub find_entry : MemoryStore f → String → Option (LocationEntry f)
  find_entry self user_id = elim (lookup user_id self.user_index) [
    | none ↦ none
    | some key ↦ elim (lookup key self.shards) [ none ↦ none | some shard ↦ lookup user_id shard ]
  ]

  unfoldable pub get_user : MemoryStore f → ℕ → String → Option (LocationEntry f)
  unfolding find_entry
  get_user self now user_id = elim (find_entry self user_id) [
    | none ↦ none
    | some entry ↦ if ltb self.ttl (now - entry.updated_at) then none else some entry
  ]

  -- the loop of `online_ids`
  online_from : MemoryStore f → ℕ → List String → List String → List String
  unfolding find_entry
  online_from self now online [] = online
  online_from self now online (user_id ∷ user_ids) =
      online_from self now
        (elim (find_entry self user_id) [
          | none ↦ online
          | some entry ↦
              if leb (now - entry.updated_at) self.ttl then set_insert online user_id else online
        ])
        user_ids

  unfoldable pub online_ids : MemoryStore f → ℕ → List String → List String
  unfolding online_from
  online_ids self now user_ids = online_from self now [] user_ids

  -- The users of a shard whose entries are older than the TTL.
  abbrev pub stale_keys : ℕ → ℕ → Shard f → List String
  stale_keys ttl now [] = []
  stale_keys ttl now ((user_id, entry) ∷ shard) =
      let rest = stale_keys ttl now shard in
      if ltb ttl (now - entry.updated_at) then user_id ∷ rest else rest

  -- the first loop of `sweep`
  abbrev pub stale_users : ℕ → ℕ → Shards f → List String
  stale_users ttl now [] = []
  stale_users ttl now ((key, shard) ∷ shards) =
      stale_keys ttl now shard ++ stale_users ttl now shards

  pub remove_users : MemoryStore f → List String → MemoryStore f
  unfolding remove_user
  remove_users self [] = self
  remove_users self (user_id ∷ user_ids) = remove_users (remove_user self user_id) user_ids

  abbrev pub empty_keys : Shards f → List ShardKey
  empty_keys [] = []
  empty_keys ((key, []) ∷ shards) = key ∷ empty_keys shards
  empty_keys ((key, _ ∷ _) ∷ shards) = empty_keys shards

  pub drop_shards : Shards f → List ShardKey → Shards f
  drop_shards shards [] = shards
  drop_shards shards (key ∷ keys) = drop_shards (remove key shards) keys

  unfoldable pub sweep : MemoryStore f → ℕ → MemoryStore f
  unfolding remove_users drop_shards
  sweep self now =
      let swept = remove_users self (stale_users self.ttl now self.shards) in
      record swept { shards = drop_shards swept.shards (empty_keys swept.shards) }
