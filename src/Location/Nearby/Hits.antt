-- ===== src/Location/Nearby/Hits.antt =====
-- The entries that `MemoryStore::nearby` finds.
use bbn.Prelude.{
  ℕ, ◌-◌, ◌≤◌, ◌≡◌, refl, true, false, ◌||◌, List, [], ◌∷◌, some, arith, Bool-cases, Option-cases,
  inl, inr, String, string_eq, eq_iff, ◌==◌, All, All-imp, All-zip, All-append, ltb, contains,
}
use bbn.Prelude.Maps.{lookup, IsDistinct, All-lookup}
use bbn.Float.{Float, le}
use bbn.Geo.{ShardKey, key_eq, haversine_distance}
use bbn.Location.Store.{LocationEntry, Shard, MemoryStore, Hit, find_entry, get_user}
use bbn.Location.Store.Invariant.{AreStored, IsStored}
use bbn.Location.Store.Valid.{IsValid, HasDistinct}
use bbn.Location.Store.Lookup.{find_entry-entry_in}
use bbn.Location.Store.Sorting.Order.{All-sort}
use bbn.Location.Nearby.{scan_hits, traverse, extra_favs}
use bbn.Location.Nearby.Evict.{
  IsEvicted, IsEvicted-refl, IsEvicted-trans, after_scan, after_scan-IsEvicted, traverse_induct,
}

pub lookup_distinct {ℓ} :
    {V : Type ℓ} (m : List (String × V)) → IsDistinct m → All (λ b. lookup b.0 m ≡ some b.1) m
lookup_distinct [] h = tt
lookup_distinct ((k, v) ∷ m) h = (
  ground (arith, (eq_iff k k).1 refl),
  All-imp (λ b. ((b.0 == k) ≡ false) × (lookup b.0 m ≡ some b.1))
      (λ b. lookup b.0 ((k, v) ∷ m) ≡ some b.1) m
      (λ b p. ground (arith, p.0, p.1, eq_iff b.0 k, eq_iff k b.0))
      (All-zip (λ b. (b.0 == k) ≡ false) (λ b. lookup b.0 m ≡ some b.1) m h.0
        (lookup_distinct m h.1)),
)

module _ {f : Float} (now : ℕ) (lat lon radius_m : f.Num) (exclude_ids : List String) where
  -- A hit is the store's entry of its user, with its distance; it is live, within the radius, and
  -- not excluded.
  pub record IsHit (self : MemoryStore f) (r : Hit f) : Type 0 where
    pub stored : find_entry self r.1.user_id ≡ some r.1
    pub measured : r.0 ≡ haversine_distance f lat lon r.1.lat r.1.lon
    pub within : le f r.0 radius_m ≡ true
    pub live : ltb self.ttl (now - r.1.updated_at) ≡ false
    pub allowed : contains exclude_ids r.1.user_id ≡ false

  -- An entry that stands under its own id, where the store finds it.
  abbrev IsOwn : MemoryStore f → String × LocationEntry f → Type 0
  IsOwn self b = (b.1.user_id ≡ b.0) × (find_entry self b.0 ≡ some b.1)

  shard-IsOwn :
      (self : MemoryStore f) (key : ShardKey) (shard : Shard f)
      → IsValid self
      → lookup key self.shards ≡ some shard
      → All (IsOwn self) shard
  shard-IsOwn self key shard h found =
      All-imp (λ b. IsStored self.user_index key b × (lookup b.0 shard ≡ some b.1)) (IsOwn self)
        shard (λ b p. (p.0.0, ground (arith, find_entry-entry_in self b.0, p.0.1, p.1, found)))
        (All-zip (IsStored self.user_index key) (λ b. lookup b.0 shard ≡ some b.1) shard
          (All-lookup (AreStored self.user_index) self.shards h.indexed found)
          (lookup_distinct shard (All-lookup HasDistinct self.shards h.distinct.1 found)))

  scan_hits-IsHit :
      (self : MemoryStore f) (shard : Shard f)
      → All (IsOwn self) shard
      → All (IsHit self) (scan_hits self.ttl now lat lon radius_m exclude_ids shard)
  scan_hits-IsHit self [] h = tt
  scan_hits-IsHit self ((id, entry) ∷ shard) h =
      let rest = scan_hits-IsHit self shard h.1 in
      let d = haversine_distance f lat lon entry.lat entry.lon in
      elim (Bool-cases (contains exclude_ids id)) [
        | inl excluded ↦ rw excluded rest
        | inr allowed ↦ elim (Bool-cases (ltb self.ttl (now - entry.updated_at))) [
          | inl stale ↦ rw (allowed, stale) rest
          | inr live ↦ elim (Bool-cases (le f d radius_m)) [
            | inl near ↦
                rw (allowed, live, near)
                  (
                    record {
                      stored = ground (arith, h.0.0, h.0.1);
                      measured = refl;
                      within = near;
                      live = live;
                      allowed = ground (arith, h.0.0, allowed);
                    },
                    rest,
                  )
            | inr far ↦ rw (allowed, live, far) rest
          ]
        ]
      ]

  -- A hit of what an eviction left is one of the store before it.
  pub IsHit-IsEvicted :
      (self self' : MemoryStore f) (r : Hit f)
      → IsEvicted now self self'
      → IsHit self' r
      → IsHit self r
  IsHit-IsEvicted self self' r e h = record {
    stored = ground (arith, e.entries r.1.user_id, h.stored);
    measured = h.measured;
    within = h.within;
    live = ground (arith, e.same_ttl, h.live);
    allowed = h.allowed;
  }

  -- What the traversal has found so far.
  abbrev Found : MemoryStore f → List (Hit f) → MemoryStore f → Type 0
  Found self results self' = IsEvicted now self self' × All (IsHit self) results

  pub traverse-IsHit :
      (limit : ℕ) (candidates : List ShardKey) (self : MemoryStore f)
      → IsValid self
      → (let out = traverse now lat lon radius_m limit exclude_ids candidates [] self in
          IsEvicted now self out.1 × All (IsHit self) out.0)
  traverse-IsHit limit candidates self h =
      traverse_induct now lat lon radius_m exclude_ids (Found self) limit
        (λ results _ p. (p.0, All-sort (λ a b. f.total_le a.0 b.0) (IsHit self) results p.1))
        (λ key shard results s found p. (
          IsEvicted-trans now self s (after_scan now lat lon radius_m exclude_ids s key shard) p.0
              (after_scan-IsEvicted now lat lon radius_m exclude_ids s key shard p.0.valid found),
          All-append (IsHit self) results (scan_hits s.ttl now lat lon radius_m exclude_ids shard)
              p.1
              (All-imp (IsHit s) (IsHit self)
                (scan_hits s.ttl now lat lon radius_m exclude_ids shard)
                (λ r. IsHit-IsEvicted self s r p.0)
                (scan_hits-IsHit s shard (shard-IsOwn s key shard p.0.valid found))),
        ))
        candidates [] self (IsEvicted-refl now self h, tt)

  pub find_entry-own :
      (self : MemoryStore f) (u : String) (entry : LocationEntry f)
      → IsValid self
      → find_entry self u ≡ some entry
      → entry.user_id ≡ u
  find_entry-own self u entry h e = elim (Option-cases (lookup u self.user_index)) [
    | inl gone ↦ absurd (ground (arith, find_entry-entry_in self u, gone, e))
    | inr (key, led) ↦ elim (Option-cases (lookup key self.shards)) [
      | inl gone ↦ absurd (ground (arith, find_entry-entry_in self u, led, gone, e))
      | inr (shard, found) ↦
          let here : lookup u shard ≡ some entry =
            ground (arith, find_entry-entry_in self u, led, found, e) in
          (All-lookup (IsStored self.user_index key) shard
            (All-lookup (AreStored self.user_index) self.shards h.indexed found) here).0
    ]
  ]

  -- What `get_user` returns at a later time is the store's entry, and it was live before.
  get_user-live :
      (self : MemoryStore f) (later : ℕ) (u : String) (entry : LocationEntry f)
      → now ≤ later
      → get_user self later u ≡ some entry
      → (find_entry self u ≡ some entry) × (ltb self.ttl (now - entry.updated_at) ≡ false)
  unfolding get_user
  get_user-live self later u entry le e = elim (Option-cases (find_entry self u)) [
    | inl gone ↦ absurd (ground arith)
    | inr (entry', found) ↦ (ground arith, ground arith)
  ]

  pub extra_favs-IsHit :
      (self : MemoryStore f) (later : String → ℕ) (found_ids fav_ids : List String)
      → IsValid self
      → ((u : String) → now ≤ later u)
      → All (IsHit self) (extra_favs lat lon radius_m exclude_ids later self found_ids fav_ids)
  unfolding extra_favs
  extra_favs-IsHit self later found_ids [] h le' = tt
  extra_favs-IsHit self later found_ids (u ∷ us) h le' =
      let rest = extra_favs-IsHit self later found_ids us h le' in
      elim (Bool-cases (contains found_ids u || contains exclude_ids u)) [
        | inl skipped ↦ rw (extra_favs, skipped) rest
        | inr taken ↦ elim (Option-cases (get_user self (later u) u)) [
          | inl gone ↦ rw (extra_favs, taken, gone) rest
          | inr (entry, got) ↦
              let (stored, live) = get_user-live self (later u) u entry (le' u) got in
              let own = find_entry-own self u entry h stored in
              let d = haversine_distance f lat lon entry.lat entry.lon in
              elim (Bool-cases (le f d radius_m)) [
                | inl near ↦
                    rw (extra_favs, taken, got, near)
                      (
                        record {
                          stored = ground (arith, own, stored);
                          measured = refl;
                          within = near;
                          live = live;
                          allowed = ground (arith, own, taken);
                        },
                        rest,
                      )
                | inr far ↦ rw (extra_favs, taken, got, far) rest
              ]
        ]
      ]
