-- ===== src/Location/Nearby/Complete.antt =====
-- The users that `MemoryStore::nearby` does not miss.
use mathlib.Core.Path.{subst}
use bbn.Prelude.{
  ℕ, ◌-◌, ◌≤◌, ◌≡◌, refl, true, false, List, [], ◌∷◌, ◌++◌, map, some, arith, Bool-cases,
  Option-cases, inl, inr, String, string_eq, eq_iff, ◌==◌, All, All-append_left, All-append_right,
  ltb, contains, Eq,
}
use bbn.Prelude.Maps.{lookup, lookup-insert}
use bbn.Float.{Float, le}
use bbn.Geo.{ShardKey, key_eq, key_beq_iff, haversine_distance}
use bbn.Location.Store.{LocationEntry, Shard, NearbyResult, MemoryStore, Hit, find_entry, get_user}
use bbn.Location.Store.Valid.{IsValid}
use bbn.Location.Store.Sorting.Order.{sort_lem}
use bbn.Location.Nearby.{
  traverse, sort_hits, extra_favs, ids_of, to_result, search, nearby, scan_hits, evict, scan_stale,
}
use bbn.Location.Nearby.Evict.{traverse-IsEvicted, after_scan}
use bbn.Location.Nearby.Hits.{find_entry-own}
use bbn.Location.Nearby.Results.{nearby-Answers, select_favourite}

-- A key that is not in a list differs from its elements.
pub contains-All {ℓ} :
    {A : Type ℓ} ⦃e : Eq A⦄ (xs : List A) (a : A)
    → contains xs a ≡ false
    → All (λ x. (x == a) ≡ false) xs
contains-All [] a h = tt
contains-All (x ∷ xs) a h = (ground arith, contains-All xs a (ground arith))

pub All-contains {ℓ} :
    {A : Type ℓ} ⦃e : Eq A⦄ (xs : List A) (a : A)
    → All (λ x. (x == a) ≡ false) xs
    → contains xs a ≡ false
All-contains [] a h = refl
All-contains (x ∷ xs) a h = ground (arith, h.0, All-contains xs a h.1)

module _ {f : Float} where
  -- The users of the results.
  abbrev pub users_of : List (NearbyResult f) → List String
  users_of = map (λ r. r.entry.user_id)

  -- No hit is the user's.
  abbrev pub Misses : String → Hit f → Type 0
  Misses u r = (r.1.user_id == u) ≡ false

  pub users_of-Misses :
      (u : String) (rs : List (Hit f))
      → contains (users_of (map to_result rs)) u ≡ false
      → All (Misses u) rs
  users_of-Misses u [] h = tt
  users_of-Misses u (r ∷ rs) h = (ground arith, users_of-Misses u rs (ground arith))

  ids_of-Misses :
      (u : String) (rs : List (Hit f)) → All (Misses u) rs → contains (ids_of rs) u ≡ false
  ids_of-Misses u [] h = refl
  ids_of-Misses u (r ∷ rs) h = ground (arith, h.0, ids_of-Misses u rs h.1)

  module _ (lat lon radius_m : f.Num) (exclude_ids : List String) where
    -- Only a hit is found for a favourite that is live, in range and allowed.
    extra_favs-Misses :
        (self : MemoryStore f) (later : String → ℕ) (u : String) (entry : LocationEntry f)
        (found_ids fav_ids : List String)
        → entry.user_id ≡ u
        → get_user self (later u) u ≡ some entry
        → le f (haversine_distance f lat lon entry.lat entry.lon) radius_m ≡ true
        → contains exclude_ids u ≡ false
        → contains found_ids u ≡ false
        → All (Misses u) (extra_favs lat lon radius_m exclude_ids later self found_ids fav_ids)
        → contains fav_ids u ≡ false
    unfolding extra_favs
    extra_favs-Misses self later u entry found_ids [] own got near allowed fresh h = refl
    extra_favs-Misses self later u entry found_ids (v ∷ vs) own got near allowed fresh h =
        elim (Bool-cases (v == u)) [
          | inl same ↦
              let e = (eq_iff v u).0 same in absurd (ground (arith, e, h, (eq_iff u u).1 refl))
          | inr other ↦
              let rest =
                extra_favs-Misses self later u entry found_ids vs own got near allowed fresh in
              ground (arith, other, rest)
        ]

    pub scan_hits-Misses :
        (ttl now : ℕ) (u : String) (entry : LocationEntry f) (shard : Shard f)
        → entry.user_id ≡ u
        → lookup u shard ≡ some entry
        → le f (haversine_distance f lat lon entry.lat entry.lon) radius_m ≡ true
        → contains exclude_ids u ≡ false
        → ltb ttl (now - entry.updated_at) ≡ false
        → ¬ All (Misses u) (scan_hits ttl now lat lon radius_m exclude_ids shard)
    scan_hits-Misses ttl now u entry [] own found near allowed live h = cc
    scan_hits-Misses ttl now u entry ((id, e) ∷ shard) own found near allowed live h =
        elim (Bool-cases (id == u)) [
          | inl same ↦ ground (arith, (eq_iff id u).0 same, (eq_iff u u).1 refl)
          | inr other ↦
              let rest =
                scan_hits-Misses ttl now u entry shard own (ground arith) near allowed live in
              ground (arith, rest)
        ]

    -- Without a limit the traversal scans every candidate shard.
    pub traverse-Misses :
        (now : ℕ) (P : Hit f → Type 0) (key : ShardKey) (shard : Shard f)
        (candidates : List ShardKey) (results : List (Hit f)) (self : MemoryStore f)
        → lookup key self.shards ≡ some shard
        → All P (traverse now lat lon radius_m 0 exclude_ids candidates results self).0
        → All P results
          × (contains candidates key ≡ true
              → All P (scan_hits self.ttl now lat lon radius_m exclude_ids shard))
    unfolding traverse
    traverse-Misses now P key shard [] results self found h = (h, λ c. cc)
    traverse-Misses now P key shard (k ∷ candidates) results self found h =
        elim (Option-cases (lookup k self.shards)) [
          | inl gone ↦
              let (kept, rest) =
                traverse-Misses now P key shard candidates results self found
                  (rw (gone, traverse) at h) in
              (kept, λ c. rest (ground (arith, c, gone, found, key_beq_iff k key)))
          | inr (shard', found') ↦
              let hits = scan_hits self.ttl now lat lon radius_m exclude_ids shard' in
              let self' = after_scan now lat lon radius_m exclude_ids self k shard' in
              let h' : All P
                  (traverse now lat lon radius_m 0 exclude_ids candidates (results ++ hits)
                    self').0 =
                rw (found', traverse) at h in
              elim (Bool-cases (k == key)) [
                | inl same ↦
                    let evicted =
                      evict (scan_stale self.ttl now lat lon radius_m exclude_ids shard') shard' in
                    let here : lookup key self'.shards ≡ some evicted =
                      ground (arith, same, lookup-insert k key evicted self.shards) in
                    let (kept, _) =
                      traverse-Misses now P key evicted candidates (results ++ hits) self' here
                        h' in
                    let e : shard' ≡ shard =
                      ground (arith, (key_beq_iff k key).0 same, found, found') in
                    (
                      All-append_left P results hits kept,
                      λ _.
                          subst (λ s. All P (scan_hits self.ttl now lat lon radius_m exclude_ids s))
                            e (All-append_right P results hits kept),
                    )
                | inr other ↦
                    let still : lookup key self'.shards ≡ some shard = ground (
                      arith,
                      other,
                      found,
                      lookup-insert k key
                          (evict (scan_stale self.ttl now lat lon radius_m exclude_ids shard')
                            shard')
                          self.shards,
                    ) in
                    let (kept, rest) =
                      traverse-Misses now P key shard candidates (results ++ hits) self' still h' in
                    (All-append_left P results hits kept, λ c. rest (ground (arith, c, other)))
              ]
        ]

module _ {f : Float} (self : MemoryStore f) (now : ℕ) (later : String → ℕ)
    (lat lon radius_m : f.Num) (limit : ℕ) (exclude_ids always_include : List String)
    (results : List (NearbyResult f)) (self' : MemoryStore f)
    (returned : nearby self now later lat lon radius_m limit exclude_ids always_include
      ≡ some (results, self'))
    (valid : IsValid self) (u : String) (entry : LocationEntry f)
    (stored : find_entry self u ≡ some entry)
    (near : le f (haversine_distance f lat lon entry.lat entry.lon) radius_m ≡ true)
    (allowed : contains exclude_ids u ≡ false) where
  -- On a valid store, a user of `always_include` whose entry is within the radius, still live when
  -- the favourites are fetched, and not excluded, is among the results, whatever the limit and
  -- whatever shards the search visited.
  pub nearby-favourite :
      now ≤ later u
      → ltb self.ttl (later u - entry.updated_at) ≡ false
      → contains always_include u ≡ true
      → contains (users_of results) u ≡ true
  unfolding search get_user
  nearby-favourite in_order live fav = elim (Bool-cases (contains (users_of results) u)) [
    | inl there ↦ there
    | inr missing ↦
        let (candidates, (_, same, _)) =
          nearby-Answers self now later lat lon radius_m limit exclude_ids always_include results
            self' returned in
        let out = traverse now lat lon radius_m limit exclude_ids candidates [] self in
        let sorted = sort_hits out.0 in
        let extra =
          extra_favs lat lon radius_m exclude_ids later out.1 (ids_of sorted) always_include in
        let evicted =
          traverse-IsEvicted now lat lon radius_m exclude_ids limit candidates [] self valid in
        let hits =
          sort_lem (λ a b. f.total_le a.0 b.0) (Misses u) (sorted ++ extra)
            (select_favourite limit always_include u _ fav
              (users_of-Misses u _ (rw same at missing))) in
        let fresh = ids_of-Misses u sorted (All-append_left (Misses u) sorted extra hits) in
        let own = find_entry-own now lat lon radius_m exclude_ids self u entry valid stored in
        let got : get_user out.1 (later u) u ≡ some entry =
          ground (arith, evicted.entries u, evicted.same_ttl, stored, live) in
        let gone =
          extra_favs-Misses lat lon radius_m exclude_ids out.1 later u entry (ids_of sorted)
            always_include own got near allowed fresh
            (All-append_right (Misses u) sorted extra hits) in
        absurd (ground arith)
  ]
