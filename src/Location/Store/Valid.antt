-- ===== src/Location/Store/Valid.antt =====
-- Valid stores: what every operation keeps.
use bbn.Prelude.{
  ℕ, List, [], ◌∷◌, Option, none, some, Bool-cases, Option-cases, inl, inr, String, string_eq, ◌==◌,
  All, All-imp,
}
use bbn.Prelude.Maps.{
  lookup, insert, remove, IsDistinct, insert-IsDistinct, remove-IsDistinct, All-insert, All-lookup,
}
use bbn.Float.{Float}
use bbn.Geo.{ShardKey, key_eq, shard_for_coords}
use bbn.Location.Store.{
  LocationEntry, Shard, Shards, MemoryStore, remove_from_shard, insert_into_shard, leave_old_shard,
  is_suppressed, upsert, remove_user, remove_users, new,
}
use bbn.Location.Store.Invariant.{
  AreStored, IsIndexed, Without, upsert-IsIndexed, remove_from_shard-Without, unindex,
}

module _ {f : Float} where
  -- The keys of the outer map, and those of every shard, are distinct.
  abbrev pub AreDistinct : Shards f → Type 0
  AreDistinct shards = IsDistinct shards × All (λ s. IsDistinct s.1) shards

  -- Each entry stands under its own id in the shard to which the index leads, so a user has at
  -- most one entry in all the shards.
  pub record IsValid (self : MemoryStore f) : Type 0 where
    pub indexed : IsIndexed self
    pub distinct : AreDistinct self.shards

  abbrev pub HasDistinct : ShardKey × Shard f → Type 0
  HasDistinct s = IsDistinct s.1

  remove_from_shard-AreDistinct :
      (key : ShardKey) (user_id : String) (shards : Shards f)
      → AreDistinct shards
      → AreDistinct (remove_from_shard key user_id shards)
  remove_from_shard-AreDistinct key user_id shards h = elim (Option-cases (lookup key shards)) [
    | inl gone ↦ rw (gone, remove_from_shard) h
    | inr (shard, found) ↦
        rw (found, remove_from_shard)
          (
            insert-IsDistinct key (remove user_id shard) shards h.0,
            All-insert HasDistinct key (remove user_id shard) shards
                (remove-IsDistinct user_id shard (All-lookup HasDistinct shards h.1 found)) h.1,
          )
  ]

  insert_into_shard-AreDistinct :
      (key : ShardKey) (user_id : String) (entry : LocationEntry f) (shards : Shards f)
      → AreDistinct shards
      → AreDistinct (insert_into_shard key user_id entry shards)
  insert_into_shard-AreDistinct key user_id entry shards h =
      elim (Option-cases (lookup key shards)) [
        | inl gone ↦
            rw (gone, insert_into_shard)
              (
                insert-IsDistinct key (insert user_id entry []) shards h.0,
                All-insert HasDistinct key (insert user_id entry []) shards (tt, tt) h.1,
              )
        | inr (shard, found) ↦
            rw (found, insert_into_shard)
              (
                insert-IsDistinct key (insert user_id entry shard) shards h.0,
                All-insert HasDistinct key (insert user_id entry shard) shards
                    (insert-IsDistinct user_id entry shard
                      (All-lookup HasDistinct shards h.1 found))
                    h.1,
              )
      ]

  leave_old_shard-AreDistinct :
      (old : Option ShardKey) (key : ShardKey) (user_id : String) (shards : Shards f)
      → AreDistinct shards
      → AreDistinct (leave_old_shard old key user_id shards)
  leave_old_shard-AreDistinct none key user_id shards h = h
  leave_old_shard-AreDistinct (some old) key user_id shards h = elim (Bool-cases (old == key)) [
    | inl same ↦ rw same h
    | inr other ↦ rw other (remove_from_shard-AreDistinct old user_id shards h)
  ]

  -- A new store is valid.
  pub new-IsValid :
      (shard_m : f.Num) (ttl update_interval : ℕ) (update_distance_m : f.Num)
      → IsValid (new shard_m ttl update_interval update_distance_m)
  unfolding new
  new-IsValid shard_m ttl update_interval update_distance_m = record {
    indexed = tt;
    distinct = (tt, tt);
  }

  -- An upsert keeps a store valid, whether it is written or skipped.
  pub upsert-IsValid :
      (self : MemoryStore f) (now written_at : ℕ) (entry : LocationEntry f)
      → IsValid self
      → IsValid (upsert self now written_at entry).0
  unfolding upsert
  upsert-IsValid self now written_at entry h = record {
    indexed = upsert-IsIndexed self now written_at entry h.indexed;
    distinct = elim (Bool-cases (is_suppressed self now entry)) [
      | inl skips ↦ rw skips h.distinct
      | inr writes ↦
          let key = shard_for_coords f entry.lat entry.lon self.shard_m in
          let old = lookup entry.user_id self.user_index in
          rw writes (
            insert_into_shard-AreDistinct key entry.user_id entry _
              (leave_old_shard-AreDistinct old key entry.user_id self.shards h.distinct))
    ];
  }

  -- A removal keeps a store valid.
  pub remove_user-IsValid :
      (self : MemoryStore f) (user_id : String) → IsValid self → IsValid (remove_user self user_id)
  unfolding remove_user
  remove_user-IsValid self user_id h = elim (Option-cases (lookup user_id self.user_index)) [
    | inl gone ↦ rw (gone, remove_user) h
    | inr (key, found) ↦
        rw (found, remove_user)
          (record {
            indexed =
                All-imp (λ s. AreStored self.user_index s × Without user_id s)
                  (AreStored (remove user_id self.user_index))
                  (remove_from_shard key user_id self.shards)
                  (λ s p. unindex self.user_index user_id s p.0 p.1)
                  (remove_from_shard-Without self.user_index user_id key self.shards found
                    h.indexed);
            distinct = remove_from_shard-AreDistinct key user_id self.shards h.distinct;
          })
  ]

  pub remove_users-IsValid :
      (user_ids : List String) (self : MemoryStore f)
      → IsValid self
      → IsValid (remove_users self user_ids)
  unfolding remove_users
  remove_users-IsValid [] self h = h
  remove_users-IsValid (user_id ∷ user_ids) self h =
      remove_users-IsValid user_ids (remove_user self user_id) (remove_user-IsValid self user_id h)
