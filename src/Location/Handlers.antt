-- ===== src/Location/Handlers.antt =====
-- The location service over the in-memory store, which is the default: the handlers and caches of
-- services/location-service/src/main.rs. An `Instant` is a number of milliseconds, and a handler is
-- given its readings of the clock and the answers of the database and of the other services. The first
-- arguments of a handler are what its extractors give. A hash set is a list.
pub mod Push
pub mod Search
pub mod Separated
pub mod Shown
pub mod Lookups
mod Tests
use bbn.Prelude.{
  ℕ, ◌+◌, ◌*◌, Bool, true, false, not, ◌&&◌, ◌||◌, List, [], ◌∷◌, ◌++◌, Option, none, some,
  if◌then◌else◌, String, string_eq, ◌==◌, ltb, contains,
}
use bbn.Prelude.Int.{ℤ, pos}
use bbn.Prelude.Maps.{lookup, insert}
use bbn.Text.{is_empty}
use bbn.Float.{Float, le}
use bbn.Location.Store.{
  LocationEntry, NearbyResult, MemoryStore, UpsertResult, written, skipped, set_insert, upsert,
  remove_user, get_user, online_ids,
}
use bbn.Service.{
  StatusCode, bad_request, forbidden, not_found, Refusal, refuse, Result, err, ok, DbError,
  Platform, ServiceClaims, GatewayIdentity, unwrap_or, as_i32, internal, collected,
}
use bbn.Service.TokenCache.{Cached, get}
use bbn.Service.Issue.{TokenProfile}
use bbn.Messages.{HttpReply, unreachable, answered, is_valid_tier, is_success}

pub record BlockDoc : Type 0 where
  pub blocker_user_id : String
  pub blocked_user_id : String

-- What the handlers share. `nearby_cache` is not here: no code writes it, so it is always empty.
pub record AppState (f : Float) : Type 0 where
  pub store : MemoryStore f
  pub nearby_limit : ℕ
  pub svc_token_cache : Cached
  pub block_cache : List (String × (List String × ℕ))
  pub tier_radius_cache : List (String × (f.Num × ℕ))

-- `BLOCK_CACHE_TTL` and `TIER_RADIUS_CACHE_TTL`
abbrev pub block_cache_ttl : ℕ
block_cache_ttl = 30000

abbrev pub tier_radius_cache_ttl : ℕ
tier_radius_cache_ttl = 300000

-- The value of a cache entry that has not expired.
abbrev pub unexpired {ℓ} : {A : Type ℓ} → Option (A × ℕ) → ℕ → Option A
unexpired none now = none
unexpired (some (a, expires_at)) now = if ltb now expires_at then some a else none

-- The readings of the clock and the search of `blocks` in a call of `get_blocked_ids`: the documents
-- whose blocker or blocked user is the caller.
pub record BlockCalls : Type 0 where
  pub check_now : ℕ
  pub write_now : ℕ
  pub find_blocks : String → Result DbError (Option (List BlockDoc))

-- The other user of each document.
pub other_users : String → List String → List BlockDoc → List String
other_users caller_id ids [] = ids
other_users caller_id ids (d ∷ docs) =
    other_users caller_id
      (set_insert ids
        (if d.blocker_user_id == caller_id then d.blocked_user_id else d.blocker_user_id))
      docs

-- The documents that are found; an error counts as none.
abbrev pub block_docs : Result DbError (Option (List BlockDoc)) → List BlockDoc
block_docs (err _) = []
block_docs (ok found) = collected found

-- `get_blocked_ids`
unfoldable pub get_blocked_ids :
    BlockCalls
    → List (String × (List String × ℕ))
    → String
    → List String × List (String × (List String × ℕ))
unfolding other_users
get_blocked_ids calls cache caller_id = elim (unexpired (lookup caller_id cache) calls.check_now) [
  | some ids ↦ (ids, cache)
  | none ↦
      let ids = other_users caller_id [] (block_docs (calls.find_blocks caller_id)) in
      (ids, insert caller_id (ids, calls.write_now + block_cache_ttl) cache)
]

-- The readings of the clock and the reply of the authority service in a call of `get_nearby_radius_m`.
pub record RadiusCalls (f : Float) : Type 0 where
  pub check_now : ℕ
  pub token_now : ℕ
  pub write_now : ℕ
  pub nearby_radius : String → String → HttpReply (Option f.Num)

-- The radius without the authority service.
abbrev pub fallback : (f : Float) → String → f.Num
fallback f tier =
    if tier == "premium"
    then f.lit 23000 0
    else if tier == "regular"
    then f.lit 1000 0
    else f.lit 500 0

-- The radius of a reply, or the fallback.
abbrev pub radius_or : {A : Type 0} → A → HttpReply (Option A) → A
radius_or other unreachable = other
radius_or other (answered status none) = other
radius_or other (answered status (some radius)) =
    if is_success status then unwrap_or other radius else other

module _ {f : Float} (p : Platform) (service_secret : String) where
  -- `get_nearby_radius_m`
  unfoldable pub get_nearby_radius_m : RadiusCalls f → AppState f → String → f.Num × AppState f
  unfolding get
  get_nearby_radius_m calls state tier =
      elim (unexpired (lookup tier state.tier_radius_cache) calls.check_now) [
        | some radius_m ↦ (radius_m, state)
        | none ↦
            if not (is_valid_tier tier)
            then (fallback f tier, state)
            else (let (svc_token, cache) =
                  get p "location" service_secret state.svc_token_cache calls.token_now in
                let state' = record state { svc_token_cache = cache } in
                elim svc_token [
                  | none ↦ (fallback f tier, state')
                  | some token ↦
                      let radius_m = radius_or (fallback f tier) (calls.nearby_radius token tier) in
                      let entry : f.Num × ℕ = (radius_m, calls.write_now + tier_radius_cache_ttl) in
                      (
                        radius_m,
                        record state' {
                          tier_radius_cache = insert tier entry state.tier_radius_cache;
                        },
                      )
                ])
      ]

-- `matches!(role, "user" | "admin")`
abbrev pub is_user_role : String → Bool
is_user_role role = role == "user" || role == "admin"
