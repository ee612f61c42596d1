-- ===== src/Location/Handlers/Lookups.antt =====
-- The handlers `post_online_batch` and `get_user_location` of services/location-service/src/main.rs, and
-- what they answer after `put_location` and `delete_location`.
use bbn.Prelude.{
  ℕ, ◌-◌, ◌≤◌, ◌≡◌, refl, ◌∙◌, Bool, true, false, not, ◌&&◌, ◌||◌, List, [], ◌∷◌, Option, none,
  some, if◌then◌else◌, arith, Bool-cases, inl, inr, String, string_eq, eq_iff, ◌==◌, ltb,
}
use bbn.Text.{is_empty}
use bbn.Float.{Float}
use bbn.Location.Store.{
  LocationEntry, MemoryStore, get_user, online_ids, find_entry, upsert, is_suppressed,
}
use bbn.Location.Store.Lookup.{find_entry-upsert}
use bbn.Service.{
  forbidden, bad_request, not_found, Refusal, refuse, Result, err, ok, DbError, Platform,
  ServiceClaims, GatewayIdentity, filter_map,
}
use bbn.Service.Issue.{TokenProfile}
use bbn.Location.Handlers.{AppState}
use bbn.Location.Handlers.Push.{
  PutLocationBody, PutTimes, pushed_entry, push_location, put_location, is_between,
}
use bbn.Location.Handlers.Search.{VenueDoc, extend, found_venues}

abbrev pub not_authorised : Refusal
not_authorised = refuse forbidden "Not authorised."

-- `user_ids.iter().all(|id| !id.is_empty())`
abbrev pub all_full : List String → Bool
all_full [] = true
all_full (id ∷ ids) = not (is_empty id) && all_full ids

-- A position that `get_user_location` answers with.
pub record Position (f : Float) : Type 0 where
  pub lat : f.Num
  pub lon : f.Num

module _ {f : Float} (p : Platform) where
  -- `post_online_batch` at the time `now`: `find_venues` is given the ids that parse, and answers with
  -- those of venues, in one of the orders in which their set may be walked.
  unfoldable pub post_online_batch :
      (List p.ObjectId → Result DbError (Option (List p.ObjectId)))
      → AppState f
      → ℕ
      → Result Refusal ServiceClaims
      → List String
      → Result Refusal (List String)
  unfolding online_ids
  post_online_batch find_venues state now (err r) user_ids = err r
  post_online_batch find_venues state now (ok svc) user_ids =
      if not (svc.sub == "favourites")
      then err not_authorised
      else if not (all_full user_ids)
      then err (refuse bad_request "userIds must be a non-empty array of strings.")
      else ok (
          extend (online_ids state.store now user_ids) (
            filter_map (λ (oid : p.ObjectId). some (p.to_hex oid))
              (found_venues (find_venues (filter_map p.from_str user_ids)))))

  -- The fixed position of a venue, when the user has no live entry.
  abbrev pub venue_position :
      (p.ObjectId → Result DbError (Option (VenueDoc f p))) → String → Result Refusal (Position f)
  venue_position find_venue user_id = elim (p.from_str user_id) [
    | none ↦ err (refuse not_found "Location not found.")
    | some oid ↦ elim (find_venue oid) [
      | err _ ↦ err (refuse not_found "Location not found.")
      | ok none ↦ err (refuse not_found "Location not found.")
      | ok (some venue) ↦ ok (record { lat = venue.fixed_lat; lon = venue.fixed_lon })
    ]
  ]

  -- `get_user_location` at the time `now`
  unfoldable pub get_user_location :
      (p.ObjectId → Result DbError (Option (VenueDoc f p)))
      → AppState f
      → ℕ
      → Result Refusal ServiceClaims
      → String
      → Result Refusal (Position f)
  unfolding get_user
  get_user_location find_venue state now (err r) user_id = err r
  get_user_location find_venue state now (ok svc) user_id =
      if not (svc.sub == "messages")
      then err not_authorised
      else elim (get_user state.store now user_id) [
        | some entry ↦ ok (record { lat = entry.lat; lon = entry.lon })
        | none ↦ venue_position find_venue user_id
      ]

upsert-ttl :
    {f : Float} (self : MemoryStore f) (now written_at : ℕ) (entry : LocationEntry f)
    → (upsert self now written_at entry).0.ttl ≡ self.ttl
unfolding upsert
upsert-ttl self now written_at entry = elim (Bool-cases (is_suppressed self now entry)) [
  | inl skips ↦ rw (upsert, skips) refl
  | inr writes ↦ rw (upsert, writes) refl
]

get_user_location-entry :
    {f : Float} (p : Platform) (find_venue : p.ObjectId → Result DbError (Option (VenueDoc f p)))
    (state : AppState f) (now : ℕ) (reader : ServiceClaims) (u : String) (entry : LocationEntry f)
    → reader.sub ≡ "messages"
    → find_entry state.store u ≡ some entry
    → ltb state.store.ttl (now - entry.updated_at) ≡ false
    → get_user_location p find_venue state now (ok reader) u
      ≡ ok (record { lat = entry.lat; lon = entry.lon })
unfolding get_user_location get_user
get_user_location-entry p find_venue state now reader u entry name stored fresh =
    let reads : (reader.sub == "messages") ≡ true = (eq_iff reader.sub "messages").1 name in
    rw (reads, get_user, stored, fresh) refl

module _ {f : Float} (state : AppState f) (svc : ServiceClaims) (identity : GatewayIdentity)
    (times : PutTimes) where
  push_location-writes :
      (entry : LocationEntry f)
      → (push_location state identity entry times).0 ≡ ok false
      → is_suppressed state.store times.check_now entry ≡ false
  unfolding push_location upsert
  push_location-writes entry h =
      elim (Bool-cases (is_suppressed state.store times.check_now entry)) [
        | inl skips ↦ absurd (cc (rw (push_location, upsert, skips) at h))
        | inr writes ↦ writes
      ]

  -- The entry is in the store after a push that is not skipped, with the same TTL.
  push_location-find_entry :
      (entry : LocationEntry f)
      → entry.user_id ≡ identity.sub
      → (push_location state identity entry times).0 ≡ ok false
      → (find_entry (push_location state identity entry times).1.store identity.sub ≡ some entry)
        × ((push_location state identity entry times).1.store.ttl ≡ state.store.ttl)
  unfolding push_location
  push_location-find_entry entry own h =
      let e = find_entry-upsert state.store times.check_now times.write_now entry identity.sub in
      let writes = push_location-writes entry h in
      (
        e ∙ rw writes (ground (arith, (eq_iff entry.user_id identity.sub).1 own)),
        upsert-ttl state.store times.check_now times.write_now entry,
      )

  -- After a push that the service has accepted and not skipped, the messages service is answered with
  -- exactly the position of the push, for as long as the entry is not older than the TTL.
  pub put_location-get_user_location :
      (p : Platform) (find_venue : p.ObjectId → Result DbError (Option (VenueDoc f p)))
      (reader : ServiceClaims) (profile : TokenProfile) (body : PutLocationBody f) (lat lon : f.Num)
      (now : ℕ)
      → body.lat ≡ some lat
      → body.lon ≡ some lon
      → (put_location state (ok svc) (ok identity) profile body times).0 ≡ ok false
      → reader.sub ≡ "messages"
      → now - times.entry_now ≤ state.store.ttl
      → get_user_location p find_venue
          (put_location state (ok svc) (ok identity) profile body times).1
          now
          (ok reader)
          identity.sub
        ≡ ok (record { lat = lat; lon = lon })
  unfolding put_location
  put_location-get_user_location p find_venue reader profile body lat lon now has_lat has_lon h name
        live =
      let entry : LocationEntry f = pushed_entry identity profile times lat lon body.accuracy in
      elim (Bool-cases (not (is_between f 90 lat) || not (is_between f 180 lon))) [
        | inl outside ↦ absurd (cc (rw (put_location, has_lat, has_lon, outside) at h))
        | inr inside ↦ elim (Bool-cases (identity.account_type == "venue")) [
          | inl venue ↦ absurd (cc (rw (put_location, has_lat, has_lon, inside, venue) at h))
          | inr person ↦
              let h' = rw (put_location, has_lat, has_lon, inside, person) at h in
              let (stored, same) = push_location-find_entry entry refl h' in
              rw (put_location, has_lat, has_lon, inside, person)
                (get_user_location-entry p find_venue (push_location state identity entry times).1
                  now reader identity.sub entry name stored (rw same (ground (arith, live))))
        ]
      ]
