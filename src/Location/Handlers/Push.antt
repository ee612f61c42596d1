-- ===== src/Location/Handlers/Push.antt =====
-- The handlers `put_location` and `delete_location` of services/location-service/src/main.rs.
use bbn.Prelude.{
  ℕ, Bool, true, false, not, ◌&&◌, ◌||◌, Option, none, some, if◌then◌else◌, String, string_eq, ◌==◌,
}
use bbn.Prelude.Int.{ℤ}
use bbn.Float.{Float, le}
use bbn.Location.Store.{
  LocationEntry, UpsertResult, written, skipped, upsert, remove_user, get_user,
}
use bbn.Service.{
  bad_request, Refusal, refuse, Result, err, ok, ServiceClaims, GatewayIdentity, unwrap_or, as_i32,
}
use bbn.Service.Issue.{TokenProfile}
use bbn.Location.Handlers.{AppState, is_user_role}

pub record PutLocationBody (f : Float) : Type 0 where
  pub lat : Option f.Num
  pub lon : Option f.Num
  pub accuracy : Option String

-- The notification of the favourites service that a first push starts; the task runs on its own.
pub record RangeSyncNotice (f : Float) : Type 0 where
  pub user_id : String
  pub lat : f.Num
  pub lon : f.Num

-- The readings of the clock in `put_location`: in `get_user`, for the entry, and in `upsert` for the
-- suppression check and for the write.
pub record PutTimes : Type 0 where
  pub get_now : ℕ
  pub entry_now : ℕ
  pub check_now : ℕ
  pub write_now : ℕ

abbrev pub is_skipped : UpsertResult → Bool
is_skipped written = false
is_skipped skipped = true

abbrev pub is_none {ℓ} : {A : Type ℓ} → Option A → Bool
is_none none = true
is_none (some a) = false

abbrev pub age_i32 : Option ℕ → Option ℤ
age_i32 none = none
age_i32 (some a) = some (as_i32 a)

abbrev minus : (f : Float) → ℕ → f.Num
minus f n = f.sub (f.lit 0 0) (f.lit n 0)

-- `(-bound..=bound).contains(&x)`
abbrev pub is_between : (f : Float) → ℕ → f.Num → Bool
is_between f bound x = le f (minus f bound) x && le f x (f.lit bound 0)

abbrev pub bad_position : Refusal
bad_position = refuse bad_request "Valid lat and lon required."

module _ {f : Float} where
  -- The entry of a push.
  abbrev pub pushed_entry :
      GatewayIdentity → TokenProfile → PutTimes → f.Num → f.Num → Option String → LocationEntry f
  pushed_entry identity profile times lat lon accuracy = record {
    user_id = identity.sub;
    lat = lat;
    lon = lon;
    is_registered = is_user_role identity.role;
    sex = profile.sex;
    nickname = profile.nickname;
    age = age_i32 profile.age;
    accuracy = if unwrap_or "" accuracy == "ip" then "ip" else "gps";
    updated_at = times.entry_now;
  }

  -- `put_location` for a position: whether the write was skipped, the state, and the notification.
  unfoldable pub push_location :
      AppState f
      → GatewayIdentity
      → LocationEntry f
      → PutTimes
      → Result Refusal Bool × AppState f × Option (RangeSyncNotice f)
  unfolding get_user upsert
  push_location state identity entry times =
      let is_first_push = is_none (get_user state.store times.get_now identity.sub) in
      let (store, result) = upsert state.store times.check_now times.write_now entry in
      (
        ok (is_skipped result),
        record state { store = store },
        if is_user_role identity.role && is_first_push && not (is_skipped result)
            then some (record { user_id = identity.sub; lat = entry.lat; lon = entry.lon })
            else none,
      )

  -- `put_location`
  unfoldable pub put_location :
      AppState f
      → Result Refusal ServiceClaims
      → Result Refusal GatewayIdentity
      → TokenProfile
      → PutLocationBody f
      → PutTimes
      → Result Refusal Bool × AppState f × Option (RangeSyncNotice f)
  unfolding push_location
  put_location state (err r) who profile body times = (err r, state, none)
  put_location state (ok svc) (err r) profile body times = (err r, state, none)
  put_location state (ok svc) (ok identity) profile body times = elim body.lat [
    | none ↦ (err bad_position, state, none)
    | some lat ↦ elim body.lon [
      | none ↦ (err bad_position, state, none)
      | some lon ↦
          if not (is_between f 90 lat) || not (is_between f 180 lon)
          then (err bad_position, state, none)
          else if identity.account_type == "venue"
          then (err (refuse bad_request "Venue accounts have a fixed location."), state, none)
          else push_location state identity
              (pushed_entry identity profile times lat lon body.accuracy) times
    ]
  ]

  -- `delete_location`
  unfoldable pub delete_location :
      AppState f
      → Result Refusal ServiceClaims
      → Result Refusal GatewayIdentity
      → Result Refusal Unit × AppState f
  unfolding remove_user
  delete_location state (err r) who = (err r, state)
  delete_location state (ok svc) (err r) = (err r, state)
  delete_location state (ok svc) (ok identity) =
      (ok tt, record state { store = remove_user state.store identity.sub })
