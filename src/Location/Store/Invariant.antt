-- ===== src/Location/Store/Invariant.antt =====
-- The invariant of the in-memory store: each entry stands in the shard to which the index leads.
use bbn.Prelude.{
  ℕ, ◌≡◌, refl, false, List, [], ◌∷◌, none, some, arith, All, All-imp, All-zip, Bool-cases,
  Option-cases, inl, inr, String, string_eq, eq_iff, ◌==◌, beq_refl,
}
use bbn.Prelude.Maps.{
  lookup, insert, remove, lookup-insert, lookup-remove, others_absent, All-lookup, All-remove,
  All-remove_other,
}
use bbn.Float.{Float}
use bbn.Geo.{ShardKey, key_eq, key_beq_iff, shard_for_coords}
use bbn.Location.Store.{
  LocationEntry, Shard, Shards, MemoryStore, remove_from_shard, insert_into_shard, leave_old_shard,
  is_suppressed, upsert,
}

module _ {f : Float} where
  -- An entry of the shard `key`: it is stored under its own id, and the index leads to the shard.
  abbrev pub IsStored : List (String × ShardKey) → ShardKey → String × LocationEntry f → Type 0
  IsStored index key b = (b.1.user_id ≡ b.0) × (lookup b.0 index ≡ some key)

  abbrev pub AreStored : List (String × ShardKey) → ShardKey × Shard f → Type 0
  AreStored index s = All (IsStored index s.0) s.1

  abbrev pub IsIndexed : MemoryStore f → Type 0
  IsIndexed self = All (AreStored self.user_index) self.shards

  -- The entries of a shard that is not the user's have other ids.
  abbrev pub Without : String → ShardKey × Shard f → Type 0
  Without user_id s = All (λ b. (b.0 == user_id) ≡ false) s.1

  pub away :
      (index : List (String × ShardKey)) (user_id : String) (key key' : ShardKey) (shard : Shard f)
      → lookup user_id index ≡ some key'
      → (key == key') ≡ false
      → All (IsStored index key) shard
      → All (λ b. (b.0 == user_id) ≡ false) shard
  away index user_id key key' [] e ne h = tt
  away index user_id key key' ((id, entry) ∷ shard) e ne h = (
    elim (Bool-cases (id == user_id)) [
      | inl same ↦ absurd (ground (arith, (eq_iff id user_id).0 same, key_beq_iff key key', h.0.1))
      | inr other ↦ other
    ],
    away index user_id key key' shard e ne h.1,
  )

  pub absent :
      (index : List (String × ShardKey)) (user_id : String) (key : ShardKey) (shard : Shard f)
      → lookup user_id index ≡ none
      → All (IsStored index key) shard
      → All (λ b. (b.0 == user_id) ≡ false) shard
  absent index user_id key [] e h = tt
  absent index user_id key ((id, entry) ∷ shard) e h = (
    elim (Bool-cases (id == user_id)) [
      | inl same ↦ absurd (ground (arith, (eq_iff id user_id).0 same, h.0.1))
      | inr other ↦ other
    ],
    absent index user_id key shard e h.1,
  )

  -- What a shard has to satisfy before the user is put into the shard `key`.
  abbrev IsReady : List (String × ShardKey) → String → ShardKey → ShardKey × Shard f → Type 0
  IsReady index user_id key s = AreStored index s × ((s.0 == key) ≡ false → Without user_id s)

  remove-Without :
      (index : List (String × ShardKey)) (user_id : String) (key : ShardKey) (shard : Shard f)
      → All (IsStored index key) shard
      → All (λ b. (b.0 == user_id) ≡ false) (remove user_id shard)
  remove-Without index user_id key shard h =
      All-imp (λ b. ((b.0 == user_id) ≡ false) × IsStored index key b)
        (λ b. (b.0 == user_id) ≡ false) (remove user_id shard) (λ b p. p.0)
        (All-remove_other (IsStored index key) user_id shard h)

  elsewhere :
      (index : List (String × ShardKey)) (user_id : String) (key : ShardKey) (shards : Shards f)
      → lookup user_id index ≡ some key
      → All (λ s. ((s.0 == key) ≡ false) × AreStored index s) shards
      → All (λ s. AreStored index s × Without user_id s) shards
  elsewhere index user_id key shards e =
      All-imp (λ s. ((s.0 == key) ≡ false) × AreStored index s)
        (λ s. AreStored index s × Without user_id s) shards
        (λ s p. (p.1, away index user_id s.0 key s.1 e p.0 p.1))

  pub remove_from_shard-Without :
      (index : List (String × ShardKey)) (user_id : String) (key : ShardKey) (shards : Shards f)
      → lookup user_id index ≡ some key
      → All (AreStored index) shards
      → All (λ s. AreStored index s × Without user_id s) (remove_from_shard key user_id shards)
  remove_from_shard-Without index user_id key shards e h = elim (Option-cases (lookup key shards)) [
    | inl gone ↦
        rw (gone, remove_from_shard)
          (elsewhere index user_id key shards e (
            All-zip (λ s. (s.0 == key) ≡ false) (AreStored index) shards
              (others_absent key shards gone) h))
    | inr (shard, found) ↦
        rw (found, remove_from_shard)
          (let stored = All-lookup (AreStored index) shards h found in
            (
              (
                All-remove (IsStored index key) user_id shard stored,
                remove-Without index user_id key shard stored,
              ),
              elsewhere index user_id key (remove key shards) e
                  (All-remove_other (AreStored index) key shards h),
            ))
  ]

  leave_old_shard-IsReady :
      (index : List (String × ShardKey)) (user_id : String) (key : ShardKey) (shards : Shards f)
      → All (AreStored index) shards
      → All (IsReady index user_id key) (leave_old_shard (lookup user_id index) key user_id shards)
  leave_old_shard-IsReady index user_id key shards h = elim (Option-cases (lookup user_id index)) [
    | inl gone ↦ rw gone (
        All-imp (AreStored index) (IsReady index user_id key) shards
          (λ s p. (p, λ _. absent index user_id s.0 s.1 gone p)) h)
    | inr (old, found) ↦ elim (Bool-cases (old == key)) [
      | inl same ↦
          rw (found, leave_old_shard, same)
            (All-imp (AreStored index) (IsReady index user_id key) shards
              (λ s p. (
                p,
                λ ne. away index user_id s.0 old s.1 found (rw ((key_beq_iff old key).0 same) ne) p,
              ))
              h)
      | inr differ ↦
          rw (found, leave_old_shard, differ)
            (All-imp (λ s. AreStored index s × Without user_id s) (IsReady index user_id key)
              (remove_from_shard old user_id shards) (λ s p. (p.0, λ _. p.1))
              (remove_from_shard-Without index user_id old shards found h))
    ]
  ]

  reindex :
      (index : List (String × ShardKey)) (user_id : String) (key : ShardKey)
      (s : ShardKey × Shard f)
      → AreStored index s
      → Without user_id s
      → AreStored (insert user_id key index) s
  reindex index user_id key s h w =
      All-imp (λ b. IsStored index s.0 b × ((b.0 == user_id) ≡ false))
        (IsStored (insert user_id key index) s.0) s.1
        (λ b p. (
          p.0.0,
          ground (
            arith,
            p.0.1,
            lookup-insert user_id b.0 key index,
            eq_iff user_id b.0,
            eq_iff b.0 user_id,
          ),
        ))
        (All-zip (IsStored index s.0) (λ b. (b.0 == user_id) ≡ false) s.1 h w)

  pub unindex :
      (index : List (String × ShardKey)) (user_id : String) (s : ShardKey × Shard f)
      → AreStored index s
      → Without user_id s
      → AreStored (remove user_id index) s
  unindex index user_id s h w =
      All-imp (λ b. IsStored index s.0 b × ((b.0 == user_id) ≡ false))
        (IsStored (remove user_id index) s.0) s.1
        (λ b p. (
          p.0.0,
          ground (
            arith,
            p.0.1,
            lookup-remove user_id b.0 index,
            eq_iff user_id b.0,
            eq_iff b.0 user_id,
          ),
        ))
        (All-zip (IsStored index s.0) (λ b. (b.0 == user_id) ≡ false) s.1 h w)

  insert_into_shard-AreStored :
      (index : List (String × ShardKey)) (user_id : String) (key : ShardKey)
      (entry : LocationEntry f) (shards : Shards f)
      → entry.user_id ≡ user_id
      → All (IsReady index user_id key) shards
      → All (AreStored (insert user_id key index)) (insert_into_shard key user_id entry shards)
  insert_into_shard-AreStored index user_id key entry shards own h =
      elim (Option-cases (lookup key shards)) [
        | inl gone ↦ rw (gone, insert_into_shard) (((own, here), tt), others)
        | inr (shard, found) ↦
            let stored = (All-lookup (IsReady index user_id key) shards h found).0 in
            rw (found, insert_into_shard)
              (
                (
                  (own, here),
                  reindex index user_id key (key, remove user_id shard)
                      (All-remove (IsStored index key) user_id shard stored)
                      (remove-Without index user_id key shard stored),
                ),
                others,
              )
      ]
    where
      here : lookup user_id (insert user_id key index) ≡ some key
      here = rw beq_refl

      others : All (AreStored (insert user_id key index)) (remove key shards)
      others =
          All-imp (λ s. ((s.0 == key) ≡ false) × IsReady index user_id key s)
            (AreStored (insert user_id key index)) (remove key shards)
            (λ s p. reindex index user_id key s p.1.0 (p.1.1 p.0))
            (All-remove_other (IsReady index user_id key) key shards h)

  pub upsert-IsIndexed :
      (self : MemoryStore f) (now written_at : ℕ) (entry : LocationEntry f)
      → IsIndexed self
      → IsIndexed (upsert self now written_at entry).0
  unfolding upsert
  upsert-IsIndexed self now written_at entry h = elim (Bool-cases (is_suppressed self now entry)) [
    | inl yes' ↦ rw yes' h
    | inr no' ↦ rw no' (
        let key = shard_for_coords f entry.lat entry.lon self.shard_m in
        insert_into_shard-AreStored self.user_index entry.user_id key entry
          (leave_old_shard (lookup entry.user_id self.user_index) key entry.user_id self.shards)
          refl (leave_old_shard-IsReady self.user_index entry.user_id key self.shards h))
  ]
