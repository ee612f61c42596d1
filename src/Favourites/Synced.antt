-- ===== src/Favourites/Synced.antt =====
-- What a synchronisation of the ranges writes.
use bbn.Prelude.{
  ℕ, ◌+◌, ◌≡◌, refl, ◌∙◌, ◌&&◌, List, [], ◌∷◌, Option, none, some, if◌then◌else◌, Option-cases, inl,
  inr, ◌⊎◌, String, string_eq, All, All-imp, All-append, Any, All-Any_head, All-Any_tail,
}
use bbn.Prelude.Maps.{lookup}
use bbn.Float.{Float}
use bbn.Geo.{haversine_distance}
use bbn.Prelude.Int.{◌-ℤ◌}
use bbn.Service.{Platform, unwrap_or, Result, err, ok, Refusal, ServiceClaims, collected}
use bbn.Service.Auth.Revocation.{Result-cases}
use bbn.Favourites.{AppState, radius_of, get_message_radius}
use bbn.Favourites.Radius.{IsCached, get_message_radius-IsCached}
use bbn.Favourites.RangeSync.{
  RangeCalls, RangeUpdate, LocationEntry, Progress, in_radius, first_call, second_call, is_within,
  pair_radii, updates_of, sync_pairs, RangeSyncBody, RangeSyncFavDoc, other_ids, location_ttl_ms,
  other_locs_of, other_tiers, own_tier, sync_located, sync_found, post_range_sync,
}

module _ {f : Float} {p : Platform} (service_secret : String) (calls : RangeCalls f p)
    (P : String → f.Num → Type 0) where
  -- The radii in the replies of the authority service have the property.
  abbrev pub IsAnswered : Type 0
  IsAnswered =
      (i : ℕ) (token tier : String) (r : f.Num)
      → radius_of (calls.message_radius i token tier) ≡ some r
      → P tier r

  -- The pair of an update, in one of its two directions.
  abbrev pub IsPair : RangeUpdate → String → String → Type 0
  IsPair u a b =
      ((u.owner_user_id ≡ a) × (u.favourite_user_id ≡ b))
      ⊎ ((u.owner_user_id ≡ b) × (u.favourite_user_id ≡ a))

  -- An update of a pair of the user and the one at a location: its flag is what their distance and the
  -- radii of both tiers give, and it has a time exactly if the flag is set.
  abbrev pub IsSynced :
      String
      → f.Num
      → f.Num
      → String
      → List (String × String)
      → RangeUpdate
      → LocationEntry f
      → Type 0
  IsSynced user_id lat lon user_tier tiers u loc =
      (a : f.Num) × (b : f.Num) × (i : ℕ) × P user_tier a
      × P (unwrap_or "regular" (lookup loc.user_id tiers)) b
      × IsPair u user_id loc.user_id
      × (let dist = haversine_distance f lat lon loc.lat loc.lon in
          u.within_range ≡ (in_radius f dist a && in_radius f dist b))
      × (u.within_range_at ≡ (if u.within_range then some (calls.update_now i) else none))

  pair_radii-IsCached :
      (i : ℕ) (state : AppState f) (user_tier other_tier : String)
      → IsCached P state
      → IsAnswered
      → IsCached P (pair_radii service_secret calls i state user_tier other_tier).1
        × ((a b : f.Num)
            → (pair_radii service_secret calls i state user_tier other_tier).0 ≡ some (a, b)
            → P user_tier a × P other_tier b)
  unfolding pair_radii
  pair_radii-IsCached i state user_tier other_tier cached answered =
      let now = calls.token_now (first_call i) in
      let replies = calls.message_radius (first_call i) in
      let now' = calls.token_now (second_call i) in
      let replies' = calls.message_radius (second_call i) in
      let state1 = (get_message_radius p service_secret now replies state user_tier).1 in
      let h =
        get_message_radius-IsCached p service_secret now replies P state user_tier cached
          (answered (first_call i)) in
      let k =
        get_message_radius-IsCached p service_secret now' replies' P state1 other_tier h.0
          (answered (second_call i)) in
      elim (Option-cases (get_message_radius p service_secret now replies state user_tier).0) [
        | inl gone ↦ rw (gone, pair_radii) (k.0, λ a b e. cc)
        | inr (a', found) ↦
            elim (Option-cases
              (get_message_radius p service_secret now' replies' state1 other_tier).0) [
                | inl gone ↦ rw (found, pair_radii, gone) (k.0, λ a b e. cc)
                | inr (b', found') ↦
                    rw (found, pair_radii, found')
                      (k.0, λ a b e. (h.1 a (found ∙ cc), k.1 b (found' ∙ cc)))
              ]
      ]

  updates_of-IsSynced :
      (i : ℕ) (user_id : String) (lat lon : f.Num) (user_tier : String)
      (tiers : List (String × String)) (loc : LocationEntry f) (radii : Option (f.Num × f.Num))
      → ((a b : f.Num)
          → radii ≡ some (a, b)
          → P user_tier a × P (unwrap_or "regular" (lookup loc.user_id tiers)) b)
      → All
          (λ u. IsSynced user_id lat lon user_tier tiers u loc)
          (updates_of service_secret calls i user_id lat lon loc radii)
  unfolding is_within
  updates_of-IsSynced i user_id lat lon user_tier tiers loc none known = tt
  updates_of-IsSynced i user_id lat lon user_tier tiers loc (some (a, b)) known =
      let (pa, pb) = known a b refl in
      (
        (a, b, i, pa, pb, inl (refl, refl), refl, refl),
        ((a, b, i, pa, pb, inr (refl, refl), refl, refl), tt),
      )

  sync_pairs_lem :
      (i : ℕ) (progress : Progress f) (user_id : String) (lat lon : f.Num) (user_tier : String)
      (tiers : List (String × String)) (locs : List (LocationEntry f))
      → IsCached P progress.state
      → IsAnswered
      → IsCached P
          (sync_pairs service_secret calls i progress user_id lat lon user_tier tiers locs).0.state
        × All
            (λ u. Any (IsSynced user_id lat lon user_tier tiers u) locs)
            (sync_pairs service_secret calls i progress user_id lat lon user_tier tiers locs).1
  unfolding sync_pairs
  sync_pairs_lem i progress user_id lat lon user_tier tiers [] cached answered = (cached, tt)
  sync_pairs_lem i progress user_id lat lon user_tier tiers (l ∷ ls) cached answered =
      let other_tier = unwrap_or "regular" (lookup l.user_id tiers) in
      let (cached', known) =
        pair_radii-IsCached i progress.state user_tier other_tier cached answered in
      let h = sync_pairs_lem (i + 1) _ user_id lat lon user_tier tiers ls cached' answered in
      let R = IsSynced user_id lat lon user_tier tiers in
      (
        h.0,
        All-append (λ u. Any (R u) (l ∷ ls)) _ _
            (All-Any_head R l ls _ (
              updates_of-IsSynced i user_id lat lon user_tier tiers l
                (pair_radii service_secret calls i progress.state user_tier other_tier).0 known))
            (All-Any_tail R l ls _ h.1),
      )

  -- An update for a body: its user is the body's, and the locations are the live ones and those of the
  -- venues among the others of the user's pairs.
  abbrev pub IsSyncedFor : RangeSyncBody f → RangeUpdate → Type 0
  IsSyncedFor body u =
      (user_id : String) × (lat : f.Num) × (lon : f.Num) × (oid : p.ObjectId) × (docs : Option
        (List RangeSyncFavDoc))
      × (found : Option (List (LocationEntry f))) × (body.user_id ≡ some user_id)
      × (body.lat ≡ some lat)
      × (body.lon ≡ some lon)
      × (p.from_str user_id ≡ some oid)
      × (calls.find_pairs user_id ≡ ok docs)
      × (calls.find_locations (other_ids user_id [] (collected docs))
            (calls.wall_now -ℤ location_ttl_ms)
          ≡ ok found)
      × (let others =
            other_locs_of service_secret calls (other_ids user_id [] (collected docs))
              (collected found) in
          Any
            (IsSynced user_id lat lon (own_tier service_secret calls (calls.find_tier oid))
              (other_tiers service_secret calls others) u)
            others)

  sync_located_lem :
      (state : AppState f) (user_id : String) (oid : p.ObjectId) (lat lon : f.Num)
      (locs : List (LocationEntry f))
      → IsCached P state
      → IsAnswered
      → IsCached P (sync_located service_secret calls state user_id oid lat lon locs).1
        × All
            (λ u.
              Any
                (IsSynced user_id lat lon
                  (own_tier service_secret calls (calls.find_tier oid))
                  (other_tiers service_secret calls locs)
                  u)
                locs)
            (sync_located service_secret calls state user_id oid lat lon locs).2
  unfolding sync_located
  sync_located_lem state user_id oid lat lon [] cached answered = (cached, tt)
  sync_located_lem state user_id oid lat lon (l ∷ ls) cached answered =
      sync_pairs_lem 0 (record { updated = 0; state = state }) user_id lat lon _ _ (l ∷ ls) cached
        answered

  sync_found_lem :
      (state : AppState f) (body : RangeSyncBody f) (user_id : String) (oid : p.ObjectId)
      (lat lon : f.Num) (docs : Option (List RangeSyncFavDoc))
      → body.user_id ≡ some user_id
      → body.lat ≡ some lat
      → body.lon ≡ some lon
      → p.from_str user_id ≡ some oid
      → calls.find_pairs user_id ≡ ok docs
      → IsCached P state
      → IsAnswered
      → IsCached P (sync_found service_secret calls state user_id oid lat lon (collected docs)).1
        × All
            (IsSyncedFor body)
            (sync_found service_secret calls state user_id oid lat lon (collected docs)).2
  unfolding sync_found
  sync_found_lem state body user_id oid lat lon none e1 e2 e3 e4 e5 cached answered = (cached, tt)
  sync_found_lem state body user_id oid lat lon (some []) e1 e2 e3 e4 e5 cached answered =
      (cached, tt)
  sync_found_lem state body user_id oid lat lon (some (d ∷ ds)) e1 e2 e3 e4 e5 cached answered =
      let ids = other_ids user_id [] (d ∷ ds) in
      elim (Result-cases (calls.find_locations ids (calls.wall_now -ℤ location_ttl_ms))) [
        | inl (e, fails) ↦ rw (fails, sync_found) (cached, tt)
        | inr (found, answer) ↦
            let others = other_locs_of service_secret calls ids (collected found) in
            let h = sync_located_lem state user_id oid lat lon others cached answered in
            rw (answer, sync_found)
              (
                h.0,
                All-imp _ (IsSyncedFor body) _
                    (λ u k.
                      (user_id, lat, lon, oid, some (d ∷ ds), found, e1, e2, e3, e4, e5, answer, k))
                    h.1,
              )
      ]

  -- Every update that a synchronisation gives to the database is of a pair of the body's user and of one
  -- whose position was found among the others of the user's pairs; its flag is what their distance and
  -- the message radii of their two tiers give, and it has a time exactly if the flag is set. Each radius
  -- was cached before for its tier or is from a reply for it, and so is each that is cached after.
  pub post_range_sync-IsSyncedFor :
      (state : AppState f) (svc : Result Refusal ServiceClaims) (body : RangeSyncBody f)
      → IsCached P state
      → IsAnswered
      → IsCached P (post_range_sync service_secret calls state svc body).1
        × All (IsSyncedFor body) (post_range_sync service_secret calls state svc body).2
  unfolding post_range_sync
  post_range_sync-IsSyncedFor state (err r) body cached answered = (cached, tt)
  post_range_sync-IsSyncedFor state (ok svc) body cached answered =
      elim (Option-cases body.user_id) [
        | inl gone ↦ rw (post_range_sync, gone) (cached, tt)
        | inr (user_id, e1) ↦ elim (Option-cases body.lat) [
          | inl gone ↦ rw (post_range_sync, e1, gone) (cached, tt)
          | inr (lat, e2) ↦ elim (Option-cases body.lon) [
            | inl gone ↦ rw (post_range_sync, e1, e2, gone) (cached, tt)
            | inr (lon, e3) ↦ elim (Option-cases (p.from_str user_id)) [
              | inl gone ↦ rw (post_range_sync, e1, e2, e3, gone) (cached, tt)
              | inr (oid, e4) ↦ elim (Result-cases (calls.find_pairs user_id)) [
                | inl (e, fails) ↦ rw (post_range_sync, e1, e2, e3, e4, fails) (cached, tt)
                | inr (docs, e5) ↦
                    rw (post_range_sync, e1, e2, e3, e4, e5)
                      (sync_found_lem state
                        (record { user_id = some user_id; lat = some lat; lon = some lon }) user_id
                        oid lat lon docs refl refl refl e4 e5 cached answered)
              ]
            ]
          ]
        ]
      ]
