-- ===== src/Location/Nearby/Evict.antt =====
-- What the traversal of `MemoryStore::nearby` does to the store.
use bbn.Prelude.{
  ℕ, ◌-◌, ◌≡◌, refl, true, false, ◌&&◌, List, [], ◌∷◌, ◌++◌, none, some, if◌then◌else◌, arith,
  Bool-cases, Option-cases, inl, inr, ◌⊎◌, String, string_eq, eq_iff, ◌==◌, All, ltb, leb, contains,
  length, head?, get_elem?, ◌∙◌,
}
use bbn.Prelude.Maps.{
  lookup, insert, remove, lookup-insert, lookup-remove, IsDistinct, insert-IsDistinct,
  remove-IsDistinct, All-insert, All-lookup, All-remove,
}
use bbn.Float.{Float}
use bbn.Geo.{ShardKey, key_eq, key_beq_iff}
use bbn.Location.Store.{LocationEntry, Shard, MemoryStore, Hit, find_entry}
use bbn.Location.Store.Invariant.{AreStored, IsStored}
use bbn.Location.Store.Valid.{IsValid, HasDistinct}
use bbn.Location.Store.Lookup.{find_entry-entry_in}
use bbn.Location.Store.Sweep.{is_stale}
use bbn.Location.Nearby.{evict, scan_stale, scan_hits, traverse, sort_hits, exits}

module _ {f : Float} where
  lookup-evict :
      (keys : List String) (u : String) (shard : Shard f)
      → lookup u (evict keys shard) ≡ (if contains keys u then none else lookup u shard)
  lookup-evict [] u shard = refl
  lookup-evict (k ∷ keys) u shard =
      ground (arith, lookup-evict keys u (remove k shard), lookup-remove k u shard)

  All-evict :
      (P : String × LocationEntry f → Type 0) (keys : List String) (shard : Shard f)
      → All P shard
      → All P (evict keys shard)
  All-evict P [] shard h = h
  All-evict P (k ∷ keys) shard h = All-evict P keys (remove k shard) (All-remove P k shard h)

  evict-IsDistinct :
      (keys : List String) (shard : Shard f) → IsDistinct shard → IsDistinct (evict keys shard)
  evict-IsDistinct [] shard h = h
  evict-IsDistinct (k ∷ keys) shard h =
      evict-IsDistinct keys (remove k shard) (remove-IsDistinct k shard h)

  module _ (ttl now : ℕ) (exclude_ids : List String) where
    scan_stale_none :
        (lat lon radius_m : f.Num) (u : String) (shard : Shard f)
        → All (λ b. (b.0 == u) ≡ false) shard
        → contains (scan_stale ttl now lat lon radius_m exclude_ids shard) u ≡ false
    scan_stale_none lat lon radius_m u [] h = refl
    scan_stale_none lat lon radius_m u ((id, entry) ∷ shard) h =
        ground (arith, h.0, scan_stale_none lat lon radius_m u shard h.1)

    -- The keys that the scan collects have stale entries.
    contains-scan_stale :
        (lat lon radius_m : f.Num) (u : String) (shard : Shard f)
        → IsDistinct shard
        → contains (scan_stale ttl now lat lon radius_m exclude_ids shard) u ≡ true
        → is_stale ttl now (lookup u shard) ≡ true
    contains-scan_stale lat lon radius_m u [] h c = cc
    contains-scan_stale lat lon radius_m u ((id, entry) ∷ shard) h c = elim (Bool-cases (id == u)) [
      | inl same ↦
          let gone : All (λ b. (b.0 == u) ≡ false) shard = rw (← (eq_iff id u).0 same) h.0 in
          ground (arith, same, scan_stale_none lat lon radius_m u shard gone)
      | inr other ↦ ground (arith, other, contains-scan_stale lat lon radius_m u shard h.1)
    ]

  -- `self'` is `self` less some entries that are stale at the time `now`: the index, the suppression
  -- map and the settings are the same.
  pub record IsEvicted (now : ℕ) (self self' : MemoryStore f) : Type 0 where
    pub valid : IsValid self'
    pub same_index : self'.user_index ≡ self.user_index
    pub same_suppression : self'.suppression ≡ self.suppression
    pub same_interval : self'.update_interval ≡ self.update_interval
    pub same_distance : self'.update_distance_m ≡ self.update_distance_m
    pub same_ttl : self'.ttl ≡ self.ttl
    pub same_shard_m : self'.shard_m ≡ self.shard_m
    pub entries :
        (u : String)
        → (find_entry self' u ≡ find_entry self u)
          ⊎ ((find_entry self' u ≡ none) × (is_stale self.ttl now (find_entry self u) ≡ true))

  pub IsEvicted-refl : (now : ℕ) (self : MemoryStore f) → IsValid self → IsEvicted now self self
  IsEvicted-refl now self h = record {
    valid = h;
    same_index = refl;
    same_suppression = refl;
    same_interval = refl;
    same_distance = refl;
    same_ttl = refl;
    same_shard_m = refl;
    entries = λ u. inl refl;
  }

  pub IsEvicted-trans :
      (now : ℕ) (a b c : MemoryStore f) → IsEvicted now a b → IsEvicted now b c → IsEvicted now a c
  IsEvicted-trans now a b c h k = record {
    valid = k.valid;
    same_index = k.same_index ∙ h.same_index;
    same_suppression = k.same_suppression ∙ h.same_suppression;
    same_interval = k.same_interval ∙ h.same_interval;
    same_distance = k.same_distance ∙ h.same_distance;
    same_ttl = k.same_ttl ∙ h.same_ttl;
    same_shard_m = k.same_shard_m ∙ h.same_shard_m;
    entries = λ u. ground (arith, h.entries u, k.entries u, h.same_ttl);
  }

  module _ (now : ℕ) (lat lon radius_m : f.Num) (exclude_ids : List String) where
    -- The store after the scan of one shard.
    abbrev pub after_scan : MemoryStore f → ShardKey → Shard f → MemoryStore f
    after_scan self key shard = record self {
      shards =
          insert key (evict (scan_stale self.ttl now lat lon radius_m exclude_ids shard) shard)
            self.shards;
    }

    pub after_scan-IsEvicted :
        (self : MemoryStore f) (key : ShardKey) (shard : Shard f)
        → IsValid self
        → lookup key self.shards ≡ some shard
        → IsEvicted now self (after_scan self key shard)
    after_scan-IsEvicted self key shard h found =
        let stale = scan_stale self.ttl now lat lon radius_m exclude_ids shard in
        let distinct = All-lookup HasDistinct self.shards h.distinct.1 found in
        let stored = All-lookup (AreStored self.user_index) self.shards h.indexed found in
        record {
          valid = record {
            indexed =
                All-insert (AreStored self.user_index) key (evict stale shard) self.shards
                  (All-evict (IsStored self.user_index key) stale shard stored) h.indexed;
            distinct = (
              insert-IsDistinct key (evict stale shard) self.shards h.distinct.0,
              All-insert HasDistinct key (evict stale shard) self.shards
                  (evict-IsDistinct stale shard distinct) h.distinct.1,
            );
          };
          same_index = refl;
          same_suppression = refl;
          same_interval = refl;
          same_distance = refl;
          same_ttl = refl;
          same_shard_m = refl;
          entries = λ u. elim (Option-cases (lookup u self.user_index)) [
            | inl gone ↦ ground (
              arith,
              gone,
              find_entry-entry_in self u,
              find_entry-entry_in (after_scan self key shard) u,
            )
            | inr (k, led) ↦ ground (
              arith,
              led,
              find_entry-entry_in self u,
              find_entry-entry_in (after_scan self key shard) u,
              lookup-insert key k (evict stale shard) self.shards,
              key_beq_iff key k,
              lookup-evict stale u shard,
              contains-scan_stale self.ttl now exclude_ids lat lon radius_m u shard distinct,
            )
          ];
        }

    -- What holds at the start of the traversal, and is kept by the scan of a shard and by the sort,
    -- holds at its end.
    pub traverse_induct :
        (P : List (Hit f) → MemoryStore f → Type 0) (limit : ℕ)
        → ((results : List (Hit f)) (self : MemoryStore f)
            → P results self
            → P (sort_hits results) self)
        → ((key : ShardKey) (shard : Shard f) (results : List (Hit f)) (self : MemoryStore f)
            → lookup key self.shards ≡ some shard
            → P results self
            → P
                (results ++ scan_hits self.ttl now lat lon radius_m exclude_ids shard)
                (after_scan self key shard))
        → (candidates : List ShardKey) (results : List (Hit f)) (self : MemoryStore f)
        → P results self
        → (let out = traverse now lat lon radius_m limit exclude_ids candidates results self in
            P out.0 out.1)
    unfolding traverse
    traverse_induct P limit sorts scan [] results self h = h
    traverse_induct P limit sorts scan (key ∷ candidates) results self h =
        elim (Option-cases (lookup key self.shards)) [
          | inl gone ↦
              rw (gone, traverse) (traverse_induct P limit sorts scan candidates results self h)
          | inr (shard, found) ↦
              let found' = results ++ scan_hits self.ttl now lat lon radius_m exclude_ids shard in
              let self' = after_scan self key shard in
              let sorted = sort_hits found' in
              let step = scan key shard results self found h in
              let resort = sorts found' self' step in
              let more = traverse_induct P limit sorts scan candidates sorted self' resort in
              let rest = traverse_induct P limit sorts scan candidates found' self' step in
              elim (Bool-cases (ltb 0 limit && leb limit (length found'))) [
                | inl full ↦
                    elim (Bool-cases (
                      exits f lat lon self.shard_m (head? candidates)
                        (get_elem? sorted (limit - 1)))) [
                          | inl ends ↦ rw (found, traverse, full, ends) resort
                          | inr goes ↦ rw (found, traverse, full, goes) more
                        ]
                | inr open' ↦ rw (found, traverse, open') rest
              ]
        ]

    -- The traversal leaves a valid store, less some entries that are stale.
    pub traverse-IsEvicted :
        (limit : ℕ) (candidates : List ShardKey) (results : List (Hit f)) (self : MemoryStore f)
        → IsValid self
        → IsEvicted now self
            (traverse now lat lon radius_m limit exclude_ids candidates results self).1
    traverse-IsEvicted limit candidates results self h =
        traverse_induct (λ _ s. IsEvicted now self s) limit (λ _ _ p. p)
          (λ key shard _ s found p.
            IsEvicted-trans now self s (after_scan s key shard) p
              (after_scan-IsEvicted s key shard p.valid found))
          candidates results self (IsEvicted-refl now self h)
