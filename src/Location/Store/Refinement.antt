-- ===== src/Location/Store/Refinement.antt =====
-- The refinement of the slots by the in-memory store of services/location-service/src/store.rs.
use bbn.Prelude.{
  ℕ, ◌-◌, ◌≡◌, refl, ap, ◌∙◌, sym, true, false, List, [], ◌∷◌, Option, none, some, if◌then◌else◌,
  arith, Bool-cases, Option-cases, inl, inr, String, string_eq, eq_iff, ◌==◌, leb, contains,
}
use bbn.Prelude.Maps.{lookup, lookup-insert, lookup-remove}
use bbn.Float.{Float}
use bbn.Location.Store.{
  LocationEntry, MemoryStore, written, skipped, new, is_suppressed, upsert, remove_user,
  remove_users, stale_users, find_entry, get_user, online_ids, online_from, sweep, set_insert,
}
use bbn.Location.Store.Lookup.{find_entry-entry_in, find_entry-upsert, find_entry-remove_user}
use bbn.Location.Store.Valid.{IsValid, new-IsValid, upsert-IsValid, remove_user-IsValid}
use bbn.Location.Store.Sweep.{is_stale, contains-stale_users, sweep-IsValid, find_entry-sweep}
use bbn.Location.Store.Slots.{
  Slot, Slots, StoreSettings, Op, upsert_op, remove_op, sweep_op, get_user_op, online_ids_op,
  upserted, found_user, are_online, step, run, entry_of, trace_of, is_refused, slots_online,
  set_slot, drop_stale, slots_step, replay,
}

module _ {f : Float} where
  -- The store stands for the slots.
  record Represents (cfg : StoreSettings f) (self : MemoryStore f) (slots : Slots f) : Type 0 where
    valid : IsValid self
    entries : (u : String) → find_entry self u ≡ entry_of (slots u)
    traces : (u : String) → lookup u self.suppression ≡ trace_of (slots u)
    same_ttl : self.ttl ≡ cfg.ttl
    same_interval : self.update_interval ≡ cfg.update_interval
    same_distance : self.update_distance_m ≡ cfg.update_distance_m

  -- A slot with no entry is no slot.
  no_slot : (slot : Option (Slot f)) → entry_of slot ≡ none → slot ≡ none
  no_slot none h = refl
  no_slot (some (written_at, entry)) h = cc

  is_suppressed-is_refused :
      (cfg : StoreSettings f) (self : MemoryStore f) (slots : Slots f) (now : ℕ)
      (entry : LocationEntry f)
      → Represents cfg self slots
      → is_suppressed self now entry ≡ is_refused cfg (slots entry.user_id) now entry
  unfolding is_suppressed
  is_suppressed-is_refused cfg self slots now entry r = elim (Option-cases (slots entry.user_id)) [
    | inl gone ↦ rw (r.traces entry.user_id, is_suppressed, gone) refl
    | inr (slot, found) ↦
        rw (r.traces entry.user_id, is_suppressed, found, r.same_interval, r.same_distance) refl
  ]

  suppression-remove_user :
      (cfg : StoreSettings f) (self : MemoryStore f) (slots : Slots f) (user_id u : String)
      → Represents cfg self slots
      → lookup u (remove_user self user_id).suppression
        ≡ (if user_id == u then none else lookup u self.suppression)
  unfolding remove_user find_entry
  suppression-remove_user cfg self slots user_id u r =
      elim (Option-cases (lookup user_id self.user_index)) [
        | inl gone ↦
            let slot =
              no_slot (slots user_id) (sym (r.entries user_id) ∙ rw (gone, find_entry) refl) in
            ground (arith, gone, r.traces user_id, slot, eq_iff user_id u)
        | inr (key, found) ↦ rw (found, remove_user) (lookup-remove user_id u self.suppression)
      ]

  find_entry-set_slot :
      (slots : Slots f) (user_id u : String) (slot : Option (Slot f))
      → entry_of (set_slot slots user_id slot u)
        ≡ (if user_id == u then entry_of slot else entry_of (slots u))
  find_entry-set_slot slots user_id u slot = ground arith

  remove_user-Represents :
      (cfg : StoreSettings f) (self : MemoryStore f) (slots : Slots f) (user_id : String)
      → Represents cfg self slots
      → Represents cfg (remove_user self user_id) (set_slot slots user_id none)
  unfolding remove_user
  remove_user-Represents cfg self slots user_id r = record {
    valid = remove_user-IsValid self user_id r.valid;
    entries = λ u. ground (arith, find_entry-remove_user self user_id u, r.entries u);
    traces = λ u. ground (arith, suppression-remove_user cfg self slots user_id u r, r.traces u);
    same_ttl = ground (arith, r.same_ttl);
    same_interval = ground (arith, r.same_interval);
    same_distance = ground (arith, r.same_distance);
  }

  upsert-Represents :
      (cfg : StoreSettings f) (self : MemoryStore f) (slots : Slots f) (now written_at : ℕ)
      (entry : LocationEntry f)
      → Represents cfg self slots
      → is_suppressed self now entry ≡ false
      → Represents cfg
          (upsert self now written_at entry).0
          (set_slot slots entry.user_id (some (written_at, entry)))
  unfolding upsert
  upsert-Represents cfg self slots now written_at entry r writes = record {
    valid = upsert-IsValid self now written_at entry r.valid;
    entries =
        λ u. ground (arith, find_entry-upsert self now written_at entry u, writes, r.entries u);
    traces = λ u. rw writes (
        ground (
          arith,
          lookup-insert entry.user_id u (written_at, entry.lat, entry.lon) self.suppression,
          r.traces u,
        ));
    same_ttl = rw writes r.same_ttl;
    same_interval = rw writes r.same_interval;
    same_distance = rw writes r.same_distance;
  }

  suppression-remove_users :
      (cfg : StoreSettings f) (user_ids : List String) (self : MemoryStore f) (slots : Slots f)
      (u : String)
      → Represents cfg self slots
      → lookup u (remove_users self user_ids).suppression
        ≡ (if contains user_ids u then none else lookup u self.suppression)
  unfolding remove_users
  suppression-remove_users cfg [] self slots u r = refl
  suppression-remove_users cfg (user_id ∷ user_ids) self slots u r = ground (
    arith,
    suppression-remove_users cfg user_ids (remove_user self user_id) (set_slot slots user_id none) u
        (remove_user-Represents cfg self slots user_id r),
    suppression-remove_user cfg self slots user_id u r,
  )

  remove_users-ttl :
      (user_ids : List String) (self : MemoryStore f) → (remove_users self user_ids).ttl ≡ self.ttl
  unfolding remove_users remove_user
  remove_users-ttl [] self = refl
  remove_users-ttl (user_id ∷ user_ids) self =
      remove_users-ttl user_ids (remove_user self user_id) ∙ ground arith

  remove_users-update_interval :
      (user_ids : List String) (self : MemoryStore f)
      → (remove_users self user_ids).update_interval ≡ self.update_interval
  unfolding remove_users remove_user
  remove_users-update_interval [] self = refl
  remove_users-update_interval (user_id ∷ user_ids) self =
      remove_users-update_interval user_ids (remove_user self user_id) ∙ ground arith

  remove_users-update_distance_m :
      (user_ids : List String) (self : MemoryStore f)
      → (remove_users self user_ids).update_distance_m ≡ self.update_distance_m
  unfolding remove_users remove_user
  remove_users-update_distance_m [] self = refl
  remove_users-update_distance_m (user_id ∷ user_ids) self =
      remove_users-update_distance_m user_ids (remove_user self user_id) ∙ ground arith

  sweep-Represents :
      (cfg : StoreSettings f) (self : MemoryStore f) (slots : Slots f) (now : ℕ)
      → Represents cfg self slots
      → Represents cfg (sweep self now) (drop_stale cfg.ttl now slots)
  unfolding sweep
  sweep-Represents cfg self slots now r =
      let users = stale_users self.ttl now self.shards in
      record {
        valid = sweep-IsValid self now r.valid;
        entries = λ u. ground (arith, find_entry-sweep self now u r.valid, r.entries u, r.same_ttl);
        traces = λ u. ground (
          arith,
          suppression-remove_users cfg users self slots u r,
          contains-stale_users self.ttl now u self.user_index self.shards r.valid.indexed
              r.valid.distinct,
          find_entry-entry_in self u,
          r.entries u,
          r.traces u,
          r.same_ttl,
        );
        same_ttl = remove_users-ttl users self ∙ r.same_ttl;
        same_interval = remove_users-update_interval users self ∙ r.same_interval;
        same_distance = remove_users-update_distance_m users self ∙ r.same_distance;
      }

  online_from-slots_online :
      (cfg : StoreSettings f) (self : MemoryStore f) (slots : Slots f) (now : ℕ)
      (online user_ids : List String)
      → Represents cfg self slots
      → online_from self now online user_ids ≡ slots_online cfg.ttl slots now online user_ids
  unfolding online_from
  online_from-slots_online cfg self slots now online [] r = refl
  online_from-slots_online cfg self slots now online (u ∷ us) r = elim (Option-cases (slots u)) [
    | inl gone ↦
        let e = r.entries u ∙ ap entry_of gone in
        rw (gone, e) (online_from-slots_online cfg self slots now online us r)
    | inr ((written_at, entry), found) ↦
        let e = r.entries u ∙ ap entry_of found in
        let live = leb (now - entry.updated_at) cfg.ttl in
        rw (found, e, r.same_ttl)
          (online_from-slots_online cfg self slots now
            (if live then set_insert online u else online) us r)
  ]

  get_user-entry_of :
      (cfg : StoreSettings f) (self : MemoryStore f) (slots : Slots f) (now : ℕ) (u : String)
      → Represents cfg self slots
      → get_user self now u
        ≡ (let entry = entry_of (slots u) in if is_stale cfg.ttl now entry then none else entry)
  unfolding get_user
  get_user-entry_of cfg self slots now u r = elim (Option-cases (slots u)) [
    | inl gone ↦ rw (gone, get_user, r.entries u ∙ ap entry_of gone) refl
    | inr (slot, found) ↦ rw (found, get_user, r.entries u ∙ ap entry_of found, r.same_ttl) refl
  ]

  upsert_skips :
      (self : MemoryStore f) (now written_at : ℕ) (entry : LocationEntry f)
      → is_suppressed self now entry ≡ true
      → upsert self now written_at entry ≡ (self, skipped)
  unfolding upsert
  upsert_skips self now written_at entry skips = rw (upsert, skips) refl

  upsert_writes :
      (self : MemoryStore f) (now written_at : ℕ) (entry : LocationEntry f)
      → is_suppressed self now entry ≡ false
      → (upsert self now written_at entry).1 ≡ written
  unfolding upsert
  upsert_writes self now written_at entry writes = rw (upsert, writes) refl

  step-Represents :
      (cfg : StoreSettings f) (self : MemoryStore f) (slots : Slots f) (op : Op f)
      → Represents cfg self slots
      → Represents cfg (step self op).0 (slots_step cfg slots op).0
        × ((step self op).1 ≡ (slots_step cfg slots op).1)
  unfolding step slots_step online_ids
  step-Represents cfg self slots (upsert_op now written_at entry) r =
      let same = is_suppressed-is_refused cfg self slots now entry r in
      elim (Bool-cases (is_suppressed self now entry)) [
        | inl skips ↦ rw (← same, skips, upsert_skips self now written_at entry skips) (r, refl)
        | inr writes ↦
            rw (← same, writes)
              (
                upsert-Represents cfg self slots now written_at entry r writes,
                ap upserted (upsert_writes self now written_at entry writes),
              )
      ]
  step-Represents cfg self slots (remove_op user_id) r =
      (remove_user-Represents cfg self slots user_id r, refl)
  step-Represents cfg self slots (sweep_op now) r = (sweep-Represents cfg self slots now r, refl)
  step-Represents cfg self slots (get_user_op now user_id) r =
      (r, ap found_user (get_user-entry_of cfg self slots now user_id r))
  step-Represents cfg self slots (online_ids_op now user_ids) r =
      (r, ap are_online (online_from-slots_online cfg self slots now [] user_ids r))

  run_lem :
      (cfg : StoreSettings f) (self : MemoryStore f) (slots : Slots f) (ops : List (Op f))
      → Represents cfg self slots
      → run self ops ≡ replay cfg slots ops
  unfolding run replay
  run_lem cfg self slots [] r = refl
  run_lem cfg self slots (op ∷ ops) r =
      let h = step-Represents cfg self slots op r in
      rw (h.1, run_lem cfg (step self op).0 (slots_step cfg slots op).0 ops h.0) refl

  -- For every sequence of writes, removals, sweeps and lookups that starts with a new store, the
  -- store answers as the map of one slot for each user does, on which a write sets the user's slot
  -- unless the last write is younger than the interval and nearer than the distance, a removal
  -- empties it, and a sweep empties the slots with an entry older than the TTL.
  pub run-replay :
      (shard_m : f.Num) (cfg : StoreSettings f) (ops : List (Op f))
      → run (new shard_m cfg.ttl cfg.update_interval cfg.update_distance_m) ops
        ≡ replay cfg (λ u. none) ops
  unfolding new find_entry
  run-replay shard_m cfg ops =
      run_lem cfg _ (λ u. none) ops
        (record {
          valid = new-IsValid shard_m cfg.ttl cfg.update_interval cfg.update_distance_m;
          entries = λ u. refl;
          traces = λ u. refl;
          same_ttl = refl;
          same_interval = refl;
          same_distance = refl;
        })
