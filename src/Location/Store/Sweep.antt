-- ===== src/Location/Store/Sweep.antt =====
-- The sweep of the in-memory store.
use bbn.Prelude.{
  ℕ, ◌-◌, ◌≡◌, refl, Bool, false, List, [], ◌∷◌, Option, none, some, if◌then◌else◌, arith,
  Bool-cases, Option-cases, inl, inr, String, string_eq, eq_iff, ◌==◌, All, All-imp, All-zip, ltb,
  contains, contains-append, ◌∙◌,
}
use bbn.Prelude.Maps.{lookup, remove, lookup-remove, IsDistinct, remove-IsDistinct, All-remove}
use bbn.Float.{Float}
use bbn.Geo.{ShardKey, key_eq, key_beq_iff}
use bbn.Location.Store.{
  LocationEntry, Shard, Shards, MemoryStore, remove_user, find_entry, remove_users, stale_keys,
  stale_users, empty_keys, drop_shards, sweep,
}
use bbn.Location.Store.Invariant.{AreStored, Without, away, absent}
use bbn.Location.Store.Lookup.{entry_in, find_entry-entry_in, find_entry-remove_user}
use bbn.Location.Store.Valid.{IsValid, AreDistinct, HasDistinct, remove_users-IsValid}

module _ {f : Float} where
  -- Whether there is an entry and it is older than the TTL.
  abbrev pub is_stale : ℕ → ℕ → Option (LocationEntry f) → Bool
  is_stale ttl now none = false
  is_stale ttl now (some entry) = ltb ttl (now - entry.updated_at)

  stale_keys_none :
      (ttl now : ℕ) (u : String) (shard : Shard f)
      → All (λ b. (b.0 == u) ≡ false) shard
      → contains (stale_keys ttl now shard) u ≡ false
  stale_keys_none ttl now u [] h = refl
  stale_keys_none ttl now u ((id, entry) ∷ shard) h =
      ground (arith, h.0, stale_keys_none ttl now u shard h.1)

  contains-stale_keys :
      (ttl now : ℕ) (u : String) (shard : Shard f)
      → IsDistinct shard
      → contains (stale_keys ttl now shard) u ≡ is_stale ttl now (lookup u shard)
  contains-stale_keys ttl now u [] h = refl
  contains-stale_keys ttl now u ((id, entry) ∷ shard) h = elim (Bool-cases (id == u)) [
    | inl same ↦
        let gone : All (λ b. (b.0 == u) ≡ false) shard = rw (← (eq_iff id u).0 same) h.0 in
        ground (arith, same, stale_keys_none ttl now u shard gone)
    | inr other ↦ ground (arith, other, contains-stale_keys ttl now u shard h.1)
  ]

  stale_users_none :
      (ttl now : ℕ) (u : String) (shards : Shards f)
      → All (Without u) shards
      → contains (stale_users ttl now shards) u ≡ false
  stale_users_none ttl now u [] h = refl
  stale_users_none ttl now u ((key, shard) ∷ shards) h =
      contains-append (stale_keys ttl now shard) (stale_users ttl now shards) u
      ∙ ground (arith, stale_keys_none ttl now u shard h.0, stale_users_none ttl now u shards h.1)

  pub contains-stale_users :
      (ttl now : ℕ) (u : String) (index : List (String × ShardKey)) (shards : Shards f)
      → All (AreStored index) shards
      → AreDistinct shards
      → contains (stale_users ttl now shards) u
        ≡ is_stale ttl now (entry_in (lookup u index) u shards)
  contains-stale_users ttl now u index [] h d = ground arith
  contains-stale_users ttl now u index ((key, shard) ∷ shards) h d =
      contains-append (stale_keys ttl now shard) (stale_users ttl now shards) u
      ∙ elim (Option-cases (lookup u index)) [
        | inl gone ↦ ground (
          arith,
          gone,
          stale_keys_none ttl now u shard (absent index u key shard gone h.0),
          stale_users_none ttl now u shards (
              All-imp (AreStored index) (Without u) shards (λ s p. absent index u s.0 s.1 gone p)
                h.1),
        )
        | inr (k, found) ↦ elim (Bool-cases (key == k)) [
          | inl same ↦
              let e = (key_beq_iff key k).0 same in
              let rest = stale_users_none ttl now u shards (
                All-imp (λ s. AreStored index s × ((s.0 == key) ≡ false)) (Without u) shards
                  (λ s p. away index u s.0 k s.1 found (rw (← e) p.1) p.0)
                  (All-zip (AreStored index) (λ s. (s.0 == key) ≡ false) shards h.1 d.0.0)) in
              ground (arith, found, same, rest, contains-stale_keys ttl now u shard d.1.0)
          | inr other ↦ ground (
            arith,
            found,
            other,
            stale_keys_none ttl now u shard (away index u key k shard found other h.0),
            contains-stale_users ttl now u index shards h.1 (d.0.1, d.1.1),
          )
        ]
      ]

  find_entry-remove_users :
      (user_ids : List String) (self : MemoryStore f) (u : String)
      → find_entry (remove_users self user_ids) u
        ≡ (if contains user_ids u then none else find_entry self u)
  unfolding remove_users
  find_entry-remove_users [] self u = refl
  find_entry-remove_users (user_id ∷ user_ids) self u = ground (
    arith,
    find_entry-remove_users user_ids (remove_user self user_id) u,
    find_entry-remove_user self user_id u,
  )

  -- A shard in which no user has an entry.
  abbrev IsEmptyShard : Shards f → ShardKey → Type 0
  IsEmptyShard shards key = (u : String) → entry_in (some key) u shards ≡ none

  empty_keys_other :
      (key : ShardKey) (shards : Shards f)
      → All (λ s. (s.0 == key) ≡ false) shards
      → All (λ k. (k == key) ≡ false) (empty_keys shards)
  empty_keys_other key [] h = tt
  empty_keys_other key ((k, []) ∷ shards) h = (h.0, empty_keys_other key shards h.1)
  empty_keys_other key ((k, _ ∷ _) ∷ shards) h = empty_keys_other key shards h.1

  empty_keys-IsEmptyShard :
      (shards : Shards f) → IsDistinct shards → All (IsEmptyShard shards) (empty_keys shards)
  empty_keys-IsEmptyShard [] h = tt
  empty_keys-IsEmptyShard ((key, []) ∷ shards) h = (
    λ u. ground (arith, (key_beq_iff key key).1 refl),
    All-imp (IsEmptyShard shards) (IsEmptyShard ((key, []) ∷ shards)) (empty_keys shards)
        (λ k p u. ground (arith, p u)) (empty_keys-IsEmptyShard shards h.1),
  )
  empty_keys-IsEmptyShard ((key, b ∷ bs) ∷ shards) h =
      All-imp (λ k. IsEmptyShard shards k × ((k == key) ≡ false))
        (IsEmptyShard ((key, b ∷ bs) ∷ shards)) (empty_keys shards)
        (λ k p u. ground (arith, p.0 u, p.1, key_beq_iff k key, key_beq_iff key k))
        (All-zip (IsEmptyShard shards) (λ k. (k == key) ≡ false) (empty_keys shards)
          (empty_keys-IsEmptyShard shards h.1) (empty_keys_other key shards h.0))

  entry_in-remove :
      (key : ShardKey) (shards : Shards f) (o : Option ShardKey) (u : String)
      → IsEmptyShard shards key
      → entry_in o u (remove key shards) ≡ entry_in o u shards
  entry_in-remove key shards none u h = refl
  entry_in-remove key shards (some k) u h =
      ground (arith, lookup-remove key k shards, key_beq_iff key k, h u)

  entry_in-drop_shards :
      (keys : List ShardKey) (shards : Shards f) (o : Option ShardKey) (u : String)
      → All (IsEmptyShard shards) keys
      → entry_in o u (drop_shards shards keys) ≡ entry_in o u shards
  unfolding drop_shards
  entry_in-drop_shards [] shards o u h = refl
  entry_in-drop_shards (key ∷ keys) shards o u h =
      entry_in-drop_shards keys (remove key shards) o u (
        All-imp (IsEmptyShard shards) (IsEmptyShard (remove key shards)) keys
          (λ k p v. entry_in-remove key shards (some k) v h.0 ∙ p v) h.1)
      ∙ entry_in-remove key shards o u h.0

  drop_shards-IsIndexed :
      (keys : List ShardKey) (index : List (String × ShardKey)) (shards : Shards f)
      → All (AreStored index) shards
      → All (AreStored index) (drop_shards shards keys)
  unfolding drop_shards
  drop_shards-IsIndexed [] index shards h = h
  drop_shards-IsIndexed (key ∷ keys) index shards h =
      drop_shards-IsIndexed keys index (remove key shards)
        (All-remove (AreStored index) key shards h)

  drop_shards-AreDistinct :
      (keys : List ShardKey) (shards : Shards f)
      → AreDistinct shards
      → AreDistinct (drop_shards shards keys)
  unfolding drop_shards
  drop_shards-AreDistinct [] shards h = h
  drop_shards-AreDistinct (key ∷ keys) shards h =
      drop_shards-AreDistinct keys (remove key shards)
        (remove-IsDistinct key shards h.0, All-remove HasDistinct key shards h.1)

  -- A sweep keeps a store valid.
  pub sweep-IsValid : (self : MemoryStore f) (now : ℕ) → IsValid self → IsValid (sweep self now)
  unfolding sweep
  sweep-IsValid self now h =
      let swept = remove_users self (stale_users self.ttl now self.shards) in
      let valid = remove_users-IsValid (stale_users self.ttl now self.shards) self h in
      record {
        indexed =
            drop_shards-IsIndexed (empty_keys swept.shards) swept.user_index swept.shards
              valid.indexed;
        distinct = drop_shards-AreDistinct (empty_keys swept.shards) swept.shards valid.distinct;
      }

  -- On a valid store a sweep deletes from the map exactly the users whose entries are older than the
  -- TTL at the time of the sweep, and leaves every other entry as it was.
  pub find_entry-sweep :
      (self : MemoryStore f) (now : ℕ) (u : String)
      → IsValid self
      → find_entry (sweep self now) u
        ≡ (if is_stale self.ttl now (find_entry self u) then none else find_entry self u)
  unfolding sweep
  find_entry-sweep self now u h =
      let users = stale_users self.ttl now self.shards in
      let swept = remove_users self users in
      let valid = remove_users-IsValid users self h in
      ground (
        arith,
        find_entry-entry_in (sweep self now) u,
        find_entry-entry_in swept u,
        find_entry-entry_in self u,
        entry_in-drop_shards (empty_keys swept.shards) swept.shards (lookup u swept.user_index) u
            (empty_keys-IsEmptyShard swept.shards valid.distinct.0),
        find_entry-remove_users users self u,
        contains-stale_users self.ttl now u self.user_index self.shards h.indexed h.distinct,
      )
