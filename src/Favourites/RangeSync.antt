-- ===== src/Favourites/RangeSync.antt =====
-- `post_range_sync` of services/favourites-service/src/main.rs: after a user has moved, the flag
-- `withinRange` of each pair with the user is set again. The hash set of the other users is a list,
-- in one of the orders in which it may be walked. The two requests for radii of a pair, which the code
-- runs side by side, run one after the other. The results of the updates are not looked at.
use bbn.Prelude.{
  ℕ, ◌+◌, ◌%◌, ◌^◌, ◌*◌, Bool, ◌&&◌, ◌||◌, List, [], ◌∷◌, ◌++◌, map, Option, none, some,
  if◌then◌else◌, String, string_eq, ◌==◌, contains,
}
use bbn.Prelude.Int.{ℤ, pos, ◌-ℤ◌}
use bbn.Prelude.Maps.{lookup, insert}
use bbn.Float.{Float, le}
use bbn.Geo.{haversine_distance}
use bbn.Location.Store.{set_insert}
use bbn.Service.{
  bad_request, Refusal, refuse, Result, err, ok, DbError, Platform, ServiceClaims, unwrap_or,
  safe_object_id, internal, collected, filter_map,
}
use bbn.Messages.{HttpReply, is_unlimited}
use bbn.Favourites.{AppState, get_message_radius}

pub record RangeSyncFavDoc : Type 0 where
  pub owner_user_id : String
  pub favourite_user_id : String

pub record UserTier (p : Platform) : Type 0 where
  pub id : p.ObjectId
  pub tier : Option String

pub record LocationEntry (f : Float) : Type 0 where
  pub user_id : String
  pub lat : f.Num
  pub lon : f.Num

pub record VenuePosition (f : Float) (p : Platform) : Type 0 where
  pub id : p.ObjectId
  pub fixed_lat : f.Num
  pub fixed_lon : f.Num

pub record RangeSyncBody (f : Float) : Type 0 where
  pub user_id : Option String
  pub lat : Option f.Num
  pub lon : Option f.Num

-- `update_one` with `$set`: the pair, the flag, and the time, which is set only with the flag.
pub record RangeUpdate : Type 0 where
  pub owner_user_id : String
  pub favourite_user_id : String
  pub within_range : Bool
  pub within_range_at : Option ℤ

-- What the loop over the pairs carries: `updated`, a u32, and the service's state.
pub record Progress (f : Float) : Type 0 where
  pub updated : ℕ
  pub state : AppState f

-- What a synchronisation meets. The answers to the requests for radii, and the readings of the clock
-- before them, in seconds, are numbered, two for each pair; those before an update once for each pair.
pub record RangeCalls (f : Float) (p : Platform) : Type 0 where
  -- the documents whose owner or favourite is the user
  pub find_pairs : String → Result DbError (Option (List RangeSyncFavDoc))
  pub wall_now : ℤ
  -- the locations of the users that are newer than the cutoff
  pub find_locations : List String → ℤ → Result DbError (Option (List (LocationEntry f)))
  pub find_venues : List p.ObjectId → Result DbError (Option (List (VenuePosition f p)))
  -- the tier of the user's document
  pub find_tier : p.ObjectId → Result DbError (Option (Option String))
  pub find_tiers : List p.ObjectId → Result DbError (Option (List (UserTier p)))
  pub token_now : ℕ → ℕ
  pub message_radius : ℕ → String → String → HttpReply (Option f.Num)
  pub update_now : ℕ → ℤ

-- `radius == -1.0 || dist <= radius`
abbrev pub in_radius : (f : Float) → f.Num → f.Num → Bool
in_radius f dist radius = is_unlimited f radius || le f dist radius

-- The result of a `find` where an error counts as nothing found.
abbrev pub found_or_empty : {A : Type 0} → Result DbError (Option (List A)) → List A
found_or_empty (err _) = []
found_or_empty (ok found) = collected found

-- The ids of the other users of the pairs, each once.
pub other_ids : String → List String → List RangeSyncFavDoc → List String
other_ids user_id ids [] = ids
other_ids user_id ids (d ∷ docs) =
    other_ids user_id
      (set_insert ids (if d.owner_user_id == user_id then d.favourite_user_id else d.owner_user_id))
      docs

-- `location_ttl_ms`
abbrev pub location_ttl_ms : ℤ
location_ttl_ms = pos (10 * 60 * 1000)

-- The numbers of the two requests for the pair `i`.
abbrev pub first_call : ℕ → ℕ
first_call i = 2 * i

abbrev pub second_call : ℕ → ℕ
second_call i = 2 * i + 1

module _ {f : Float} {p : Platform} (service_secret : String) (calls : RangeCalls f p) where
  -- The users with no live location, who may be venues.
  abbrev pub venue_oids : List String → List (LocationEntry f) → List p.ObjectId
  venue_oids ids live_locs =
      filter_map
        (λ (id : String).
          if contains (map (λ (l : LocationEntry f). l.user_id) live_locs) id
          then none
          else safe_object_id p id)
        ids

  abbrev pub venue_entry : VenuePosition f p → LocationEntry f
  venue_entry v = record { user_id = p.to_hex v.id; lat = v.fixed_lat; lon = v.fixed_lon }

  -- The fixed positions of the venues; without an id the database is not asked.
  abbrev pub venue_locs : List p.ObjectId → List (LocationEntry f)
  venue_locs [] = []
  venue_locs (oid ∷ oids) = map venue_entry (found_or_empty (calls.find_venues (oid ∷ oids)))

  -- `tier_map`
  abbrev pub tier_map : List (String × String) → List (UserTier p) → List (String × String)
  tier_map m [] = m
  tier_map m (u ∷ users) = tier_map (insert (p.to_hex u.id) (unwrap_or "regular" u.tier) m) users

  -- The live locations and the fixed positions of the venues.
  abbrev pub other_locs_of : List String → List (LocationEntry f) → List (LocationEntry f)
  other_locs_of ids live_locs = live_locs ++ venue_locs (venue_oids ids live_locs)

  -- The tiers of the other users by their ids.
  abbrev pub other_tiers : List (LocationEntry f) → List (String × String)
  other_tiers other_locs = tier_map [] (
      found_or_empty (
        calls.find_tiers
          (filter_map (λ (l : LocationEntry f). safe_object_id p l.user_id) other_locs)))

  -- The tier of the user who has moved.
  abbrev pub own_tier : Result DbError (Option (Option String)) → String
  own_tier (err _) = "regular"
  own_tier (ok none) = "regular"
  own_tier (ok (some tier)) = unwrap_or "regular" tier

  -- `within_range` of the code
  unfoldable pub is_within : f.Num → f.Num → LocationEntry f → f.Num → f.Num → Bool
  is_within lat lon other_loc radius_a radius_b =
      let dist = haversine_distance f lat lon other_loc.lat other_loc.lon in
      in_radius f dist radius_a && in_radius f dist radius_b

  -- The radii of the two tiers, if both are known.
  unfoldable pub pair_radii : ℕ → AppState f → String → String → Option (f.Num × f.Num) × AppState f
  unfolding get_message_radius
  pair_radii i state user_tier other_tier =
      let (radius_a, state1) =
        get_message_radius p service_secret (calls.token_now (first_call i))
          (calls.message_radius (first_call i)) state user_tier in
      let (radius_b, state2) =
        get_message_radius p service_secret (calls.token_now (second_call i))
          (calls.message_radius (second_call i)) state1 other_tier in
      elim radius_a [
        | none ↦ (none, state2)
        | some a ↦ elim radius_b [ none ↦ (none, state2) | some b ↦ (some (a, b), state2) ]
      ]

  -- The two updates of a pair, one for each direction.
  abbrev pub pair_updates : ℕ → String → String → Bool → List RangeUpdate
  pair_updates i user_id other_id within =
      let at = if within then some (calls.update_now i) else none in
      record {
        owner_user_id = user_id;
        favourite_user_id = other_id;
        within_range = within;
        within_range_at = at;
      }
      ∷ record {
        owner_user_id = other_id;
        favourite_user_id = user_id;
        within_range = within;
        within_range_at = at;
      }
      ∷ []

  -- `updated += 1` for a pair with radii
  abbrev pub next_count : ℕ → Option (f.Num × f.Num) → ℕ
  next_count updated none = updated
  next_count updated (some ab) = (updated + 1) % 2 ^ 32

  -- The updates of a pair with radii.
  abbrev pub updates_of :
      ℕ → String → f.Num → f.Num → LocationEntry f → Option (f.Num × f.Num) → List RangeUpdate
  updates_of i user_id lat lon other_loc none = []
  updates_of i user_id lat lon other_loc (some (a, b)) =
      pair_updates i user_id other_loc.user_id (is_within lat lon other_loc a b)

  -- The loop over the pairs, from the pair `i` on, with the updates in their order. A pair with a
  -- radius that is not known is passed over.
  unfoldable pub sync_pairs :
      ℕ
      → Progress f
      → String
      → f.Num
      → f.Num
      → String
      → List (String × String)
      → List (LocationEntry f)
      → Progress f × List RangeUpdate
  unfolding pair_radii is_within
  sync_pairs i progress user_id lat lon user_tier tiers [] = (progress, [])
  sync_pairs i progress user_id lat lon user_tier tiers (other_loc ∷ other_locs) =
      let other_tier = unwrap_or "regular" (lookup other_loc.user_id tiers) in
      let (radii, state') = pair_radii i progress.state user_tier other_tier in
      let now_updates = updates_of i user_id lat lon other_loc radii in
      let (progress', rest) =
        sync_pairs (i + 1) (record { updated = next_count progress.updated radii; state = state' })
          user_id lat lon user_tier tiers other_locs in
      (progress', now_updates ++ rest)

  -- The part of `post_range_sync` from the locations of the others on.
  unfoldable pub sync_located :
      AppState f
      → String
      → p.ObjectId
      → f.Num
      → f.Num
      → List (LocationEntry f)
      → Result Refusal ℕ × AppState f × List RangeUpdate
  unfolding sync_pairs
  sync_located state user_id oid lat lon [] = (ok 0, state, [])
  sync_located state user_id oid lat lon (l ∷ ls) =
      let other_locs = l ∷ ls in
      let user_tier = own_tier (calls.find_tier oid) in
      let (progress, updates) =
        sync_pairs 0 (record { updated = 0; state = state }) user_id lat lon user_tier
          (other_tiers other_locs) other_locs in
      (ok progress.updated, progress.state, updates)

  -- The part from the pairs that are found on.
  unfoldable pub sync_found :
      AppState f
      → String
      → p.ObjectId
      → f.Num
      → f.Num
      → List RangeSyncFavDoc
      → Result Refusal ℕ × AppState f × List RangeUpdate
  unfolding sync_located other_ids
  sync_found state user_id oid lat lon [] = (ok 0, state, [])
  sync_found state user_id oid lat lon (d ∷ ds) =
      let others = other_ids user_id [] (d ∷ ds) in
      elim (calls.find_locations others (calls.wall_now -ℤ location_ttl_ms)) [
        | err _ ↦ (err internal, state, [])
        | ok found ↦ sync_located state user_id oid lat lon (other_locs_of others (collected found))
      ]

  -- `post_range_sync`: the answer has the count `updated`.
  unfoldable pub post_range_sync :
      AppState f
      → Result Refusal ServiceClaims
      → RangeSyncBody f
      → Result Refusal ℕ × AppState f × List RangeUpdate
  unfolding sync_found
  post_range_sync state (err r) body = (err r, state, [])
  post_range_sync state (ok svc) body =
      let missing = refuse bad_request "userId, lat, lon required." in
      elim body.user_id [
        | none ↦ (err missing, state, [])
        | some user_id ↦ elim body.lat [
          | none ↦ (err missing, state, [])
          | some lat ↦ elim body.lon [
            | none ↦ (err missing, state, [])
            | some lon ↦ elim (safe_object_id p user_id) [
              | none ↦ (ok 0, state, [])
              | some oid ↦ elim (calls.find_pairs user_id) [
                | err _ ↦ (err internal, state, [])
                | ok found ↦ sync_found state user_id oid lat lon (collected found)
              ]
            ]
          ]
        ]
      ]
