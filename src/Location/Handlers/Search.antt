-- ===== src/Location/Handlers/Search.antt =====
-- The handler `get_nearby` of services/location-service/src/main.rs. `none` is the panic of the search
-- of the store. `nearby_cache` is never written, so the favourites are always fetched.
use bbn.Prelude.{
  ℕ, Bool, true, List, [], ◌∷◌, ◌++◌, map, Option, none, some, if◌then◌else◌, String, string_eq,
  ◌==◌, ltb, contains,
}
use bbn.Prelude.Int.{ℤ, pos}
use bbn.Float.{Float, le}
use bbn.Geo.{haversine_distance}
use bbn.Location.Store.{NearbyResult, set_insert}
use bbn.Location.Nearby.{nearby}
use bbn.Service.{
  bad_request, Refusal, refuse, Result, err, ok, DbError, Platform, ServiceClaims, GatewayIdentity,
  collected,
}
use bbn.Service.TokenCache.{get}
use bbn.Messages.{HttpReply, unreachable, answered, is_success}
use bbn.Location.Handlers.{
  AppState, BlockCalls, RadiusCalls, get_blocked_ids, get_nearby_radius_m, is_user_role,
}

pub record NearbyQuery (f : Float) : Type 0 where
  pub lat : Option f.Num
  pub lon : Option f.Num

pub record VenueDoc (f : Float) (p : Platform) : Type 0 where
  pub id : p.ObjectId
  pub nickname : Option String
  pub fixed_lat : f.Num
  pub fixed_lon : f.Num

-- A user of the answer.
pub record NearbyUser (f : Float) : Type 0 where
  pub user_id : String
  pub lat : f.Num
  pub lon : f.Num
  pub is_registered : Bool
  pub sex : Option String
  pub nickname : Option String
  pub age : Option ℤ
  pub accuracy : String
  pub account_type : Option String
  pub distance_m : ℤ

-- What a search meets: the calls for the radius and for the two look-ups of blocks, the token's clock,
-- the favourite ids of a user, the two readings of the clock in the store, and the venues. In the
-- answer of `find_venues`, `none` stands for a cursor that fails.
pub record NearbyCalls (f : Float) (p : Platform) : Type 0 where
  pub radius : RadiusCalls f
  pub blocks : BlockCalls
  pub venue_blocks : BlockCalls
  pub token_now : ℕ
  pub favourite_ids : String → String → HttpReply (List String)
  pub search_now : ℕ
  pub later_now : String → ℕ
  pub find_venues : Result DbError (Option (List (VenueDoc f p)))

-- The ids of a reply; without one nobody is a favourite. `none` also stands for a body without an array.
abbrev pub ids_or_empty : HttpReply (List String) → List String
ids_or_empty unreachable = []
ids_or_empty (answered status none) = []
ids_or_empty (answered status (some ids)) = if is_success status then ids else []

-- `set.extend(ids)`
abbrev pub extend : List String → List String → List String
extend set [] = set
extend set (id ∷ ids) = extend (set_insert set id) ids

-- The venues that are found; an error counts as none.
abbrev pub found_venues : {A : Type 0} → Result DbError (Option (List A)) → List A
found_venues (err _) = []
found_venues (ok found) = collected found

module _ {f : Float} {p : Platform} (service_secret : String) (calls : NearbyCalls f p) where
  -- The radius of the identity, or that of the tier.
  unfoldable pub resolve_radius : AppState f → GatewayIdentity → f.Num × AppState f
  unfolding get_nearby_radius_m
  resolve_radius state identity =
      if ltb 0 identity.radii.nearby_m
      then (f.of_i64 (pos identity.radii.nearby_m), state)
      else get_nearby_radius_m p service_secret calls.radius state identity.tier

  -- The blocks of the caller, for the roles user and admin.
  unfoldable pub blocked_for : BlockCalls → AppState f → GatewayIdentity → List String × AppState f
  unfolding get_blocked_ids
  blocked_for block_calls state identity =
      if is_user_role identity.role
      then (let (ids, cache) = get_blocked_ids block_calls state.block_cache identity.sub in
          (ids, record state { block_cache = cache }))
      else ([], state)

  -- `fetch_favourite_ids`
  unfoldable pub fetch_favourite_ids : AppState f → String → String → List String × AppState f
  unfolding get
  fetch_favourite_ids state sub role =
      if is_user_role role
      then (let (svc_token, cache) =
            get p "location" service_secret state.svc_token_cache calls.token_now in
          let state' = record state { svc_token_cache = cache } in
          elim svc_token [
            | none ↦ ([], state')
            | some token ↦ (ids_or_empty (calls.favourite_ids token sub), state')
          ])
      else ([], state)

  abbrev pub user_of : NearbyResult f → NearbyUser f
  user_of r = record {
    user_id = r.entry.user_id;
    lat = r.entry.lat;
    lon = r.entry.lon;
    is_registered = r.entry.is_registered;
    sex = r.entry.sex;
    nickname = r.entry.nickname;
    age = r.entry.age;
    accuracy = r.entry.accuracy;
    account_type = none;
    distance_m = f.to_i64 (f.round r.distance_m);
  }

  -- The venues within the radius that are neither the caller nor blocked.
  abbrev pub venue_users :
      f.Num → f.Num → f.Num → String → List String → List (VenueDoc f p) → List (NearbyUser f)
  venue_users lat lon radius_m sub blocked [] = []
  venue_users lat lon radius_m sub blocked (v ∷ venues) =
      let rest = venue_users lat lon radius_m sub blocked venues in
      let venue_id = p.to_hex v.id in
      let dist = haversine_distance f lat lon v.fixed_lat v.fixed_lon in
      let user : NearbyUser f = record {
        user_id = venue_id;
        lat = v.fixed_lat;
        lon = v.fixed_lon;
        is_registered = true;
        sex = none;
        nickname = v.nickname;
        age = none;
        accuracy = "fixed";
        account_type = some "venue";
        distance_m = f.to_i64 (f.round dist);
      } in
      if venue_id == sub
      then rest
      else if contains blocked venue_id
      then rest
      else if le f dist radius_m
      then user ∷ rest
      else rest

  -- `get_nearby` for a position.
  unfoldable pub search_nearby :
      AppState f → GatewayIdentity → f.Num → f.Num → Option (List (NearbyUser f) × AppState f)
  unfolding resolve_radius blocked_for fetch_favourite_ids
  search_nearby state identity lat lon =
      let (radius_m, state1) = resolve_radius state identity in
      let (blocked, state2) = blocked_for calls.blocks state1 identity in
      let exclude_ids = extend (identity.sub ∷ []) blocked in
      let (fav_ids, state3) = fetch_favourite_ids state2 identity.sub identity.role in
      elim (nearby state3.store calls.search_now calls.later_now lat lon radius_m
        state3.nearby_limit exclude_ids fav_ids) [
          | none ↦ none
          | some (results, store) ↦
              let (blocked', state4) =
                blocked_for calls.venue_blocks (record state3 { store = store }) identity in
              some (
                map user_of results
                    ++ venue_users lat lon radius_m identity.sub blocked'
                        (found_venues calls.find_venues),
                state4,
              )
        ]

  -- `get_nearby`
  unfoldable pub get_nearby :
      AppState f
      → Result Refusal ServiceClaims
      → Result Refusal GatewayIdentity
      → NearbyQuery f
      → Option (Result Refusal (List (NearbyUser f)) × AppState f)
  unfolding search_nearby
  get_nearby state (err r) who q = some (err r, state)
  get_nearby state (ok svc) (err r) q = some (err r, state)
  get_nearby state (ok svc) (ok identity) q =
      let missing = refuse bad_request "lat and lon query params required." in
      elim q.lat [
        | none ↦ some (err missing, state)
        | some lat ↦ elim q.lon [
          | none ↦ some (err missing, state)
          | some lon ↦ elim (search_nearby state identity lat lon) [
            | none ↦ none
            | some (users, state') ↦ some (ok users, state')
          ]
        ]
      ]
