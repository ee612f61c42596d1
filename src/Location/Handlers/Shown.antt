-- ===== src/Location/Handlers/Shown.antt =====
-- Whom a search shows.
use bbn.Prelude.{
  ℕ, ◌≤◌, ◌≡◌, refl, ap, ◌∙◌, true, false, List, [], ◌∷◌, ◌++◌, map, Option, none, some, arith,
  Bool-cases, Option-cases, inl, inr, String, string_eq, eq_iff, ◌==◌, contains, ltb, All,
  All-append, All-imp,
}
use bbn.Prelude.Maps.{lookup}
use bbn.Float.{Float, le}
use bbn.Geo.{haversine_distance}
use bbn.Location.Store.{NearbyResult, MemoryStore}
use bbn.Location.Store.Valid.{IsValid}
use bbn.Location.Nearby.{nearby}
use bbn.Location.Nearby.Hits.{IsHit}
use bbn.Location.Nearby.Results.{nearby-IsHit}
use bbn.Service.{ok, Platform, ServiceClaims, GatewayIdentity}
use bbn.Service.TokenCache.{get}
use bbn.Messages.{is_valid_tier}
use bbn.Location.Handlers.{
  AppState, BlockCalls, block_docs, get_blocked_ids, unexpired, get_nearby_radius_m, is_user_role,
}
use bbn.Location.Handlers.Search.{
  NearbyCalls, NearbyQuery, NearbyUser, VenueDoc, resolve_radius, blocked_for, fetch_favourite_ids,
  user_of, venue_users, extend, found_venues, search_nearby, get_nearby,
}
use bbn.Location.Handlers.Separated.{
  separates, contains-extend, IsKnown, get_blocked_ids-separates, get_blocked_ids-IsKnown,
}

-- The state with the same store and the same cached blocks.
abbrev IsKept : {f : Float} → AppState f → AppState f → Type 0
IsKept state state' = (state'.store ≡ state.store) × (state'.block_cache ≡ state.block_cache)

module _ {f : Float} {p : Platform} (service_secret : String) (calls : NearbyCalls f p) where
  get_nearby_radius_m-IsKept :
      (state : AppState f) (tier : String)
      → IsKept state (get_nearby_radius_m p service_secret calls.radius state tier).1
  unfolding get_nearby_radius_m
  get_nearby_radius_m-IsKept state tier =
      elim (Option-cases (unexpired (lookup tier state.tier_radius_cache) calls.radius.check_now)) [
        | inr (r, found) ↦ rw (get_nearby_radius_m, found) (refl, refl)
        | inl gone ↦ elim (Bool-cases (is_valid_tier tier)) [
          | inr bad ↦ rw (get_nearby_radius_m, gone, bad) (refl, refl)
          | inl good ↦
              elim (Option-cases
                (get p "location" service_secret state.svc_token_cache calls.radius.token_now).0) [
                  | inl none' ↦ rw (get_nearby_radius_m, gone, good, none') (refl, refl)
                  | inr (token, made) ↦ rw (get_nearby_radius_m, gone, good, made) (refl, refl)
                ]
        ]
      ]

  resolve_radius-IsKept :
      (state : AppState f) (identity : GatewayIdentity)
      → IsKept state (resolve_radius service_secret calls state identity).1
  unfolding resolve_radius
  resolve_radius-IsKept state identity = elim (Bool-cases (ltb 0 identity.radii.nearby_m)) [
    | inl given ↦ rw (resolve_radius, given) (refl, refl)
    | inr absent ↦ rw (resolve_radius, absent) (get_nearby_radius_m-IsKept state identity.tier)
  ]

  fetch_favourite_ids-IsKept :
      (state : AppState f) (sub role : String)
      → IsKept state (fetch_favourite_ids service_secret calls state sub role).1
  unfolding fetch_favourite_ids
  fetch_favourite_ids-IsKept state sub role = elim (Bool-cases (is_user_role role)) [
    | inr other ↦ rw (fetch_favourite_ids, other) (refl, refl)
    | inl user ↦
        elim (Option-cases
          (get p "location" service_secret state.svc_token_cache calls.token_now).0) [
            | inl none' ↦ rw (fetch_favourite_ids, user, none') (refl, refl)
            | inr (token, made) ↦ rw (fetch_favourite_ids, user, made) (refl, refl)
          ]
  ]

  -- Neither the caller nor one of the users `us`.
  abbrev pub IsOther : String → List String → NearbyUser f → Type 0
  IsOther sub us v = ((sub == v.user_id) ≡ false) × (contains us v.user_id ≡ false)

  contains-blocked :
      (blocked us : List String) (id : String)
      → All (λ u. contains blocked u ≡ true) us
      → contains blocked id ≡ false
      → contains us id ≡ false
  contains-blocked blocked [] id h miss = refl
  contains-blocked blocked (u ∷ us) id h miss =
      let rest = contains-blocked blocked us id h.1 miss in
      elim (Bool-cases (u == id)) [
        | inl same ↦ absurd (cc (rw ((eq_iff u id).0 same) at h.0))
        | inr differs ↦ ground (arith, differs, rest)
      ]

  venue_users-IsOther :
      (lat lon radius_m : f.Num) (sub : String) (us blocked : List String)
      (venues : List (VenueDoc f p))
      → All (λ u. contains blocked u ≡ true) us
      → All (IsOther sub us) (venue_users service_secret calls lat lon radius_m sub blocked venues)
  venue_users-IsOther lat lon radius_m sub us blocked [] h = tt
  venue_users-IsOther lat lon radius_m sub us blocked (v ∷ venues) h =
      let id = p.to_hex v.id in
      let rest = venue_users-IsOther lat lon radius_m sub us blocked venues h in
      elim (Bool-cases (id == sub)) [
        | inl own ↦ rw own rest
        | inr other ↦ elim (Bool-cases (contains blocked id)) [
          | inl hit ↦ rw (other, hit) rest
          | inr miss ↦
              let near = le f (haversine_distance f lat lon v.fixed_lat v.fixed_lon) radius_m in
              let caller : (sub == id) ≡ false =
                ground (arith, other, eq_iff sub id, eq_iff id sub) in
              elim (Bool-cases near) [
                | inl within ↦
                    rw (other, miss, within) ((caller, contains-blocked blocked us id h miss), rest)
                | inr far ↦ rw (other, miss, far) rest
              ]
        ]
      ]

  results-IsOther :
      (now : ℕ) (lat lon radius_m : f.Num) (self : MemoryStore f) (sub : String)
      (us blocked : List String) (results : List (NearbyResult f))
      → All (λ u. contains blocked u ≡ true) us
      → All
          (λ (r : NearbyResult f).
            IsHit now lat lon radius_m (extend (sub ∷ []) blocked) self (r.distance_m, r.entry))
          results
      → All (IsOther sub us) (map (user_of service_secret calls) results)
  results-IsOther now lat lon radius_m self sub us blocked [] h hits = tt
  results-IsOther now lat lon radius_m self sub us blocked (r ∷ rs) h hits =
      let id = r.entry.user_id in
      let e = contains-extend (sub ∷ []) blocked id in
      let allowed = hits.0.allowed in
      (
        (ground (arith, e, allowed), contains-blocked blocked us id h (ground (arith, e, allowed))),
        results-IsOther now lat lon radius_m self sub us blocked rs h hits.1,
      )

  blocked_for-user :
      (block_calls : BlockCalls) (state : AppState f) (identity : GatewayIdentity)
      → is_user_role identity.role ≡ true
      → blocked_for service_secret calls block_calls state identity ≡ (
          let out = get_blocked_ids block_calls state.block_cache identity.sub in
          (out.0, record state { block_cache = out.1 }))
  unfolding blocked_for
  blocked_for-user block_calls state identity user = rw (blocked_for, user) refl

  blocked_for-store :
      (block_calls : BlockCalls) (state : AppState f) (identity : GatewayIdentity)
      → (blocked_for service_secret calls block_calls state identity).1.store ≡ state.store
  unfolding blocked_for
  blocked_for-store block_calls state identity = elim (Bool-cases (is_user_role identity.role)) [
    | inl user ↦ rw (blocked_for, user) refl
    | inr other ↦ rw (blocked_for, other) refl
  ]

  -- The blocks of the caller are looked at, for the caller's role is user or admin, and a block of `u` is
  -- known: at the look before the search, in the list that is cached or else in the documents that the
  -- database gives; and the database gives a document of it at the look before the venues.
  abbrev pub IsSeparated : AppState f → GatewayIdentity → String → Type 0
  IsSeparated state identity u =
      (is_user_role identity.role ≡ true)
      × IsKnown (unexpired (lookup identity.sub state.block_cache) calls.blocks.check_now)
          (block_docs (calls.blocks.find_blocks identity.sub)) identity.sub u
      × (separates (block_docs (calls.venue_blocks.find_blocks identity.sub)) identity.sub u ≡ true)

  abbrev users_or :
      List (NearbyUser f) → Option (List (NearbyUser f) × AppState f) → List (NearbyUser f)
  users_or users none = users
  users_or users (some (users', state)) = users'

  module _ (state : AppState f) (identity : GatewayIdentity) (lat lon : f.Num) where
    abbrev state1 : AppState f
    state1 = (resolve_radius service_secret calls state identity).1

    abbrev radius : f.Num
    radius = (resolve_radius service_secret calls state identity).0

    abbrev blocks : List String × AppState f
    blocks = blocked_for service_secret calls calls.blocks state1 identity

    abbrev favs : List String × AppState f
    favs = fetch_favourite_ids service_secret calls blocks.1 identity.sub identity.role

    abbrev out : List String × List (String × (List String × ℕ))
    out = get_blocked_ids calls.blocks state.block_cache identity.sub

    blocks_lem :
        is_user_role identity.role ≡ true → blocks ≡ (out.0, record state1 { block_cache = out.1 })
    blocks_lem user =
        let kept = resolve_radius-IsKept state identity in
        blocked_for-user calls.blocks state1 identity user ∙ rw kept.1 refl

    blocked-u : (u : String) → IsSeparated state identity u → contains blocks.0 u ≡ true
    blocked-u u apart =
        rw (ap (λ (b : List String × AppState f). b.0) (blocks_lem apart.0))
          (get_blocked_ids-separates calls.blocks state.block_cache identity.sub u apart.1)

    favs-block_cache : is_user_role identity.role ≡ true → favs.1.block_cache ≡ out.1
    favs-block_cache user =
        (fetch_favourite_ids-IsKept blocks.1 identity.sub identity.role).1
        ∙ ap (λ (b : List String × AppState f). b.1.block_cache) (blocks_lem user)

    favs-store : favs.1.store ≡ state.store
    favs-store =
        (fetch_favourite_ids-IsKept blocks.1 identity.sub identity.role).0
        ∙ blocked_for-store calls.blocks state1 identity
        ∙ (resolve_radius-IsKept state identity).0

    venue_blocked-u :
        (store : MemoryStore f) (u : String)
        → IsSeparated state identity u
        → contains
            (blocked_for service_secret calls calls.venue_blocks
              (record favs.1 { store = store })
              identity).0
            u
          ≡ true
    venue_blocked-u store u apart =
        rw
          (
            blocked_for-user calls.venue_blocks (record favs.1 { store = store }) identity apart.0,
            favs-block_cache apart.0,
          )
          (get_blocked_ids-separates calls.venue_blocks out.1 identity.sub u (
            get_blocked_ids-IsKnown calls.blocks state.block_cache identity.sub u
              calls.venue_blocks.check_now
              (block_docs (calls.venue_blocks.find_blocks identity.sub)) apart.1 apart.2))

    search_nearby-IsOther :
        (us : List String) (users : List (NearbyUser f)) (state' : AppState f)
        → IsValid state.store
        → ((id : String) → calls.search_now ≤ calls.later_now id)
        → All (IsSeparated state identity) us
        → search_nearby service_secret calls state identity lat lon ≡ some (users, state')
        → All (IsOther identity.sub us) users
    unfolding search_nearby
    search_nearby-IsOther us users state' valid in_order apart returned =
        elim (Option-cases (
          nearby favs.1.store calls.search_now calls.later_now lat lon radius favs.1.nearby_limit
            (extend (identity.sub ∷ []) blocks.0) favs.0)) [
              | inl gone ↦ absurd (cc (rw (search_nearby, gone) at returned))
              | inr ((results, store), found) ↦
                  let exclude = extend (identity.sub ∷ []) blocks.0 in
                  let blocked' =
                    blocked_for service_secret calls calls.venue_blocks
                      (record favs.1 { store = store }) identity in
                  let shown =
                    map (user_of service_secret calls) results
                    ++ venue_users service_secret calls lat lon radius identity.sub blocked'.0
                        (found_venues calls.find_venues) in
                  let e : shown ≡ users =
                    ap (users_or shown) (rw (search_nearby, found) at returned) in
                  let hits =
                    nearby-IsHit favs.1.store calls.search_now calls.later_now lat lon radius
                      favs.1.nearby_limit exclude favs.0 results store found (rw favs-store valid)
                      in_order in
                  let hidden =
                    All-imp (IsSeparated state identity) (λ u. contains blocks.0 u ≡ true) us
                      blocked-u apart in
                  let hidden' =
                    All-imp (IsSeparated state identity) (λ u. contains blocked'.0 u ≡ true) us
                      (venue_blocked-u store) apart in
                  rw (← e) (
                    All-append (IsOther identity.sub us) _ _
                      (results-IsOther calls.search_now lat lon radius favs.1.store identity.sub us
                        blocks.0 results hidden hits)
                      (venue_users-IsOther lat lon radius identity.sub us blocked'.0
                        (found_venues calls.find_venues) hidden'))
            ]

  -- On a valid store, when the clock does not run backwards in the search, an answer of `get_nearby` never
  -- shows the caller, whatever the role and the blocks. Nor does it show, as a user or as a venue, any of
  -- the users `us`, each of whom a block that the handler comes to know separates from the caller, in
  -- either direction: the caller's role is user or admin; the list that is cached for the caller has the
  -- user or, if none is cached, the database gives a document of the block; and the database gives one
  -- if it is asked again for the venues. A block that is younger than the cached list, or whose search
  -- fails, is not covered.
  pub get_nearby-IsOther :
      (state : AppState f) (svc : ServiceClaims) (identity : GatewayIdentity) (q : NearbyQuery f)
      (us : List String) (users : List (NearbyUser f)) (state' : AppState f)
      → IsValid state.store
      → ((id : String) → calls.search_now ≤ calls.later_now id)
      → All (IsSeparated state identity) us
      → get_nearby service_secret calls state (ok svc) (ok identity) q ≡ some (ok users, state')
      → All (IsOther identity.sub us) users
  unfolding get_nearby
  get_nearby-IsOther state svc identity q us users state' valid in_order apart returned =
      elim (Option-cases q.lat) [
        | inl gone ↦ absurd (cc (rw (get_nearby, gone) at returned))
        | inr (lat, has_lat) ↦ elim (Option-cases q.lon) [
          | inl gone ↦ absurd (cc (rw (get_nearby, has_lat, gone) at returned))
          | inr (lon, has_lon) ↦
              elim (Option-cases (search_nearby service_secret calls state identity lat lon)) [
                | inl gone ↦ absurd (cc (rw (get_nearby, has_lat, has_lon, gone) at returned))
                | inr ((users', state2), found) ↦
                    let e : users' ≡ users =
                      cc (rw (get_nearby, has_lat, has_lon, found) at returned) in
                    rw (← e) (
                      search_nearby-IsOther state identity lat lon us users' state2 valid in_order
                        apart found)
              ]
        ]
      ]
