-- ===== src/Location/Store/Slots.antt =====
-- The abstract view of the in-memory store: one slot for each user, with the user's entry and the
-- time when it was written. The store spreads a slot over a shard, the index and the suppression map.
-- An `Op` is a call of one of the store's methods, with its readings of the clock.
use bbn.Prelude.{
  ℕ, ◌-◌, Bool, false, not, ◌&&◌, List, [], ◌∷◌, Option, none, some, if◌then◌else◌, String,
  string_eq, ◌==◌, ltb, leb,
}
use bbn.Float.{Float, le}
use bbn.Geo.{haversine_distance}
use bbn.Location.Store.{
  LocationEntry, MemoryStore, UpsertResult, written, skipped, upsert, remove_user, get_user,
  online_ids, sweep, set_insert,
}
use bbn.Location.Store.Sweep.{is_stale}

abbrev pub Slot : Float → Type 0
Slot f = ℕ × LocationEntry f

abbrev pub Slots : Float → Type 0
Slots f = String → Option (Slot f)

pub record StoreSettings (f : Float) : Type 0 where
  pub ttl : ℕ
  pub update_interval : ℕ
  pub update_distance_m : f.Num

pub data Op (f : Float) : Type 0 where
  upsert_op : ℕ → ℕ → LocationEntry f → Op f
  remove_op : String → Op f
  sweep_op : ℕ → Op f
  get_user_op : ℕ → String → Op f
  online_ids_op : ℕ → List String → Op f

-- What a call returns.
pub data Reply (f : Float) : Type 0 where
  upserted : UpsertResult → Reply f
  done : Reply f
  found_user : Option (LocationEntry f) → Reply f
  are_online : List String → Reply f

module _ {f : Float} where
  -- A call on the store.
  unfoldable pub step : MemoryStore f → Op f → MemoryStore f × Reply f
  step self (upsert_op now written_at entry) =
      ((upsert self now written_at entry).0, upserted (upsert self now written_at entry).1)
  step self (remove_op user_id) = (remove_user self user_id, done)
  step self (sweep_op now) = (sweep self now, done)
  step self (get_user_op now user_id) = (self, found_user (get_user self now user_id))
  step self (online_ids_op now user_ids) = (self, are_online (online_ids self now user_ids))

  unfoldable pub run : MemoryStore f → List (Op f) → List (Reply f)
  unfolding step
  run self [] = []
  run self (op ∷ ops) = (step self op).1 ∷ run (step self op).0 ops

  abbrev pub entry_of : Option (Slot f) → Option (LocationEntry f)
  entry_of none = none
  entry_of (some (written_at, entry)) = some entry

  abbrev pub trace_of : Option (Slot f) → Option (ℕ × f.Num × f.Num)
  trace_of none = none
  trace_of (some (written_at, entry)) = some (written_at, entry.lat, entry.lon)

  -- A write is refused while the last one is younger than the interval, unless the user has moved.
  abbrev pub is_refused : StoreSettings f → Option (Slot f) → ℕ → LocationEntry f → Bool
  is_refused cfg none now entry = false
  is_refused cfg (some (written_at, last)) now entry =
      let moved =
        le f cfg.update_distance_m (haversine_distance f last.lat last.lon entry.lat entry.lon) in
      not moved && ltb (now - written_at) cfg.update_interval

  abbrev pub is_live : ℕ → ℕ → Option (Slot f) → Bool
  is_live ttl now none = false
  is_live ttl now (some (written_at, entry)) = leb (now - entry.updated_at) ttl

  abbrev pub slots_online : ℕ → Slots f → ℕ → List String → List String → List String
  slots_online ttl slots now online [] = online
  slots_online ttl slots now online (u ∷ us) =
      slots_online ttl slots now (if is_live ttl now (slots u) then set_insert online u else online)
        us

  abbrev pub set_slot : Slots f → String → Option (Slot f) → Slots f
  set_slot slots user_id slot = λ u. if user_id == u then slot else slots u

  abbrev pub drop_stale : ℕ → ℕ → Slots f → Slots f
  drop_stale ttl now slots = λ u. if is_stale ttl now (entry_of (slots u)) then none else slots u

  -- A call on the slots.
  unfoldable pub slots_step : StoreSettings f → Slots f → Op f → Slots f × Reply f
  slots_step cfg slots (upsert_op now written_at entry) =
      if is_refused cfg (slots entry.user_id) now entry
      then (slots, upserted skipped)
      else (set_slot slots entry.user_id (some (written_at, entry)), upserted written)
  slots_step cfg slots (remove_op user_id) = (set_slot slots user_id none, done)
  slots_step cfg slots (sweep_op now) = (drop_stale cfg.ttl now slots, done)
  slots_step cfg slots (get_user_op now user_id) =
      let entry = entry_of (slots user_id) in
      (slots, found_user (if is_stale cfg.ttl now entry then none else entry))
  slots_step cfg slots (online_ids_op now user_ids) =
      (slots, are_online (slots_online cfg.ttl slots now [] user_ids))

  unfoldable pub replay : StoreSettings f → Slots f → List (Op f) → List (Reply f)
  unfolding slots_step
  replay cfg slots [] = []
  replay cfg slots (op ∷ ops) =
      (slots_step cfg slots op).1 ∷ replay cfg (slots_step cfg slots op).0 ops
