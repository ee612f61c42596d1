-- ===== src/Location/Store/Lookup.antt =====
-- The store as a map from users to entries: what `find_entry` reads after an operation.
use bbn.Prelude.{
  ◌≡◌, refl, [], Option, none, some, if◌then◌else◌, arith, Bool-cases, Option-cases, inl, inr,
  String, string_eq, eq_iff, ◌==◌, ◌∙◌, ◌≢◌, true, false, ◌⊎◌, ℕ,
}
use bbn.Prelude.Maps.{lookup, insert, remove, lookup-insert, lookup-remove}
use bbn.Float.{Float}
use bbn.Geo.{ShardKey, key_eq, key_beq_iff, shard_for_coords}
use bbn.Location.Store.{
  LocationEntry, Shards, MemoryStore, remove_from_shard, insert_into_shard, leave_old_shard,
  is_suppressed, written, skipped, upsert, remove_user, find_entry,
}

module _ {f : Float} where
  -- The entry of a user in the shard of a key.
  abbrev pub entry_in : Option ShardKey → String → Shards f → Option (LocationEntry f)
  entry_in none user_id shards = none
  entry_in (some key) user_id shards = elim (lookup key shards) [
    | none ↦ none
    | some shard ↦ lookup user_id shard
  ]

  pub find_entry-entry_in :
      (self : MemoryStore f) (user_id : String)
      → find_entry self user_id ≡ entry_in (lookup user_id self.user_index) user_id self.shards
  unfolding find_entry
  find_entry-entry_in self user_id = ground arith

  entry_in-remove_from_shard :
      (key : ShardKey) (user_id u : String) (o : Option ShardKey) (shards : Shards f)
      → user_id ≢ u
      → entry_in o u (remove_from_shard key user_id shards) ≡ entry_in o u shards
  entry_in-remove_from_shard key user_id u none shards ne = refl
  entry_in-remove_from_shard key user_id u (some k) shards ne =
      elim (Option-cases (lookup key shards)) [
        | inl gone ↦ rw (gone, remove_from_shard) refl
        | inr (shard, found) ↦ ground (
          arith,
          found,
          lookup-insert key k (remove user_id shard) shards,
          lookup-remove user_id u shard,
          key_beq_iff key k,
          eq_iff user_id u,
        )
      ]

  entry_in-insert_into_shard :
      (key : ShardKey) (user_id u : String) (entry : LocationEntry f) (o : Option ShardKey)
      (shards : Shards f)
      → user_id ≢ u
      → entry_in o u (insert_into_shard key user_id entry shards) ≡ entry_in o u shards
  entry_in-insert_into_shard key user_id u entry none shards ne = refl
  entry_in-insert_into_shard key user_id u entry (some k) shards ne =
      elim (Option-cases (lookup key shards)) [
        | inl gone ↦ ground (
          arith,
          gone,
          lookup-insert key k (insert user_id entry []) shards,
          key_beq_iff key k,
          eq_iff user_id u,
        )
        | inr (shard, found) ↦ ground (
          arith,
          found,
          lookup-insert key k (insert user_id entry shard) shards,
          lookup-remove user_id u shard,
          key_beq_iff key k,
          eq_iff user_id u,
        )
      ]

  entry_in-insert_into_shard_self :
      (key : ShardKey) (user_id : String) (entry : LocationEntry f) (shards : Shards f)
      → entry_in (some key) user_id (insert_into_shard key user_id entry shards) ≡ some entry
  entry_in-insert_into_shard_self key user_id entry shards =
      elim (Option-cases (lookup key shards)) [
        | inl gone ↦
            ground (arith, gone, (key_beq_iff key key).1 refl, (eq_iff user_id user_id).1 refl)
        | inr (shard, found) ↦
            ground (arith, found, (key_beq_iff key key).1 refl, (eq_iff user_id user_id).1 refl)
      ]

  entry_in-leave_old_shard :
      (old o : Option ShardKey) (key : ShardKey) (user_id u : String) (shards : Shards f)
      → user_id ≢ u
      → entry_in o u (leave_old_shard old key user_id shards) ≡ entry_in o u shards
  entry_in-leave_old_shard none o key user_id u shards ne = refl
  entry_in-leave_old_shard (some old) o key user_id u shards ne =
      ground (arith, entry_in-remove_from_shard old user_id u o shards ne)

  entry_in_stored :
      (self : MemoryStore f) (entry : LocationEntry f) (u : String)
      → (let user_id = entry.user_id in
          let key = shard_for_coords f entry.lat entry.lon self.shard_m in
          let left = leave_old_shard (lookup user_id self.user_index) key user_id self.shards in
          entry_in
            (lookup u (insert user_id key self.user_index))
            u
            (insert_into_shard key user_id entry left)
          ≡ (if user_id == u then some entry else find_entry self u))
  entry_in_stored self entry u = elim (Bool-cases (user_id == u)) [
    | inl same ↦ ground (
      arith,
      (eq_iff user_id u).0 same,
      lookup-insert user_id u key self.user_index,
      entry_in-insert_into_shard_self key user_id entry left,
    )
    | inr other ↦
        let ne : user_id ≢ u = λ e. cc ((eq_iff user_id u).1 e) in
        let old = lookup user_id self.user_index in
        let o = lookup u self.user_index in
        ground (
          arith,
          lookup-insert user_id u key self.user_index,
          entry_in-insert_into_shard key user_id u entry o left ne,
          entry_in-leave_old_shard old o key user_id u self.shards ne,
          find_entry-entry_in self u,
        )
  ]
    where
      user_id : String
      user_id = entry.user_id

      key : ShardKey
      key = shard_for_coords f entry.lat entry.lon self.shard_m

      left : Shards f
      left = leave_old_shard (lookup user_id self.user_index) key user_id self.shards

  -- What `find_entry` reads after an upsert.
  pub find_entry-upsert :
      (self : MemoryStore f) (now written_at : ℕ) (entry : LocationEntry f) (u : String)
      → find_entry (upsert self now written_at entry).0 u ≡ (
          if is_suppressed self now entry
          then find_entry self u
          else if entry.user_id == u
          then some entry
          else find_entry self u)
  unfolding upsert
  find_entry-upsert self now written_at entry u = elim (Bool-cases (is_suppressed self now entry)) [
    | inl skips ↦ rw skips refl
    | inr writes ↦ rw writes (find_entry-entry_in _ u ∙ entry_in_stored self entry u)
  ]

  -- The store after an upsert that is written: the entry and the trace of the entry's user are set, those
  -- of the other users and the settings are kept.
  pub record IsWritten (self self' : MemoryStore f) (written_at : ℕ) (entry : LocationEntry f)
      : Type 0 where
    pub entries :
        (u : String)
        → find_entry self' u ≡ (if entry.user_id == u then some entry else find_entry self u)
    pub traces :
        (u : String)
        → lookup u self'.suppression ≡ (
            if entry.user_id == u
            then some (written_at, entry.lat, entry.lon)
            else lookup u self.suppression)
    pub same_shard_m : self'.shard_m ≡ self.shard_m
    pub same_ttl : self'.ttl ≡ self.ttl
    pub same_interval : self'.update_interval ≡ self.update_interval
    pub same_distance : self'.update_distance_m ≡ self.update_distance_m

  -- An upsert that is suppressed answers `skipped` and leaves the whole store as it was. Any other upsert
  -- answers `written`, sets the entry of its user and the time and place of the user's last write, and
  -- keeps the entries and last writes of all other users and the settings.
  pub upsert_lem :
      (self : MemoryStore f) (now written_at : ℕ) (entry : LocationEntry f)
      → ((is_suppressed self now entry ≡ true)
          × (upsert self now written_at entry ≡ (self, skipped)))
        ⊎ ((is_suppressed self now entry ≡ false)
            × ((upsert self now written_at entry).1 ≡ written)
            × IsWritten self (upsert self now written_at entry).0 written_at entry)
  unfolding upsert
  upsert_lem self now written_at entry = elim (Bool-cases (is_suppressed self now entry)) [
    | inl skips ↦ inl (skips, rw (upsert, skips) refl)
    | inr writes ↦ inr (
      writes,
      rw (upsert, writes) refl,
      record {
        entries = λ u. find_entry-upsert self now written_at entry u ∙ rw writes refl;
        traces = λ u.
            rw (upsert, writes)
              (lookup-insert entry.user_id u (written_at, entry.lat, entry.lon) self.suppression);
        same_shard_m = rw (upsert, writes) refl;
        same_ttl = rw (upsert, writes) refl;
        same_interval = rw (upsert, writes) refl;
        same_distance = rw (upsert, writes) refl;
      },
    )
  ]

  -- `remove` deletes the user from the map, and no other.
  pub find_entry-remove_user :
      (self : MemoryStore f) (user_id u : String)
      → find_entry (remove_user self user_id) u ≡ (if user_id == u then none else find_entry self u)
  unfolding remove_user
  find_entry-remove_user self user_id u = elim (Bool-cases (user_id == u)) [
    | inl same ↦ elim (Option-cases (lookup user_id self.user_index)) [
      | inl gone ↦
          rw (gone, remove_user, same)
            (ground (arith, find_entry-entry_in self u, (eq_iff user_id u).0 same, gone))
      | inr (key, found) ↦
          rw (found, remove_user, same)
            (find_entry-entry_in _ u
              ∙ ground (arith, lookup-remove user_id u self.user_index, same))
    ]
    | inr other ↦
        let ne : user_id ≢ u = λ e. cc ((eq_iff user_id u).1 e) in
        elim (Option-cases (lookup user_id self.user_index)) [
          | inl gone ↦ rw (gone, remove_user, other)
          | inr (key, found) ↦
              rw (found, remove_user, other)
                (find_entry-entry_in _ u
                  ∙ ground (
                    arith,
                    lookup-remove user_id u self.user_index,
                    other,
                    entry_in-remove_from_shard key user_id u (lookup u self.user_index) self.shards
                        ne,
                    find_entry-entry_in self u,
                  ))
        ]
  ]
