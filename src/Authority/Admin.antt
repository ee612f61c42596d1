-- ===== src/Authority/Admin.antt =====
-- The handlers for administrators that change tiers and features:
-- services/authority-service/src/tiers.rs. A handler runs after its extractors: `admin` is the claims
-- that `AdminUser` gives. It takes the reply of its last database command, and returns its answer, the
-- state, and the commands that it sends.
pub mod Changes
pub mod Requests
use bbn.Prelude.{
  ℕ, Bool, true, false, not, List, [], ◌∷◌, Option, none, some, if◌then◌else◌, String, eqb,
}
use bbn.Prelude.Int.{ℤ, pos}
use bbn.Service.{
  StatusCode, unauthorized, bad_request, not_found, conflict, internal_server_error, Refusal,
  refuse, refuse_code, Result, err, ok, DbError, duplicate_key, other_error, Platform, UserClaims,
  UserTv, unwrap_or, as_i32, as_u32,
}
use bbn.Authority.Tiers.{AppState, FeatureDoc, valid_tier_name, is_known_tier}

pub record TierInput : Type 0 where
  pub name : Option String
  pub label : String
  pub cls : String
  pub rank : ℕ
  pub nearby_radius_m : ℕ
  pub message_radius_m : Option ℕ

pub record FeatureInput : Type 0 where
  pub name : Option String
  pub label : String
  pub description : String
  pub min_tier : String

-- The fields of a tier as they are stored: each number is an i32. The dates are left out.
pub record TierRow : Type 0 where
  pub label : String
  pub cls : String
  pub rank : ℤ
  pub nearby_radius_m : ℤ
  pub message_radius_m : Option ℤ

-- The commands to the database. `shift_ranks r` adds 1 to every rank from `r` on.
pub data Command : Type 0 where
  shift_ranks : ℤ → Command
  insert_tier : String → TierRow → Command
  update_tier : String → TierRow → Command
  delete_tier : String → Command
  insert_feature : FeatureDoc → Command
  update_feature : String → FeatureInput → Command
  delete_feature : String → Command

abbrev as_i32_option : Option ℕ → Option ℤ
as_i32_option none = none
as_i32_option (some n) = some (as_i32 n)

abbrev pub tier_row : TierInput → TierRow
tier_row body = record {
  label = body.label;
  cls = body.cls;
  rank = as_i32 body.rank;
  nearby_radius_m = as_i32 body.nearby_radius_m;
  message_radius_m = as_i32_option body.message_radius_m;
}

-- `user.as_ref().and_then(|u| u.get_i32("tokenVersion").ok()).unwrap_or(0) as u32`
abbrev pub stored_tv : Option UserTv → ℕ
stored_tv none = 0
stored_tv (some u) = as_u32 (unwrap_or (pos 0) u.token_version)

-- `check_admin_tv`; `none` is a pass.
unfoldable pub check_admin_tv : Platform → String → ℕ → Option Refusal
check_admin_tv p sub tv = elim (p.from_str sub) [
  | none ↦ some (refuse unauthorized "Invalid token.")
  | some oid ↦ elim (p.find_user oid) [
    | err _ ↦ some (refuse internal_server_error "Internal error.")
    | ok user ↦
        if not (eqb (stored_tv user) tv)
        then some (refuse_code unauthorized "Token revoked." "TOKEN_REVOKED")
        else none
  ]
]

-- What a handler returns.
abbrev pub Outcome : Type 0 → Type 0
Outcome A = Result Refusal A × AppState × List Command

abbrev bad_name : Refusal
bad_name =
    refuse bad_request
      "name must start with a lowercase letter and contain only [a-z0-9_], max 64 chars."

abbrev bad_min_tier : Refusal
bad_min_tier = refuse bad_request "minTier must be one of: guest, regular, premium, unrestricted."

abbrev db_error : Refusal
db_error = refuse internal_server_error "DB error."

-- The answer to an insertion.
abbrev inserted : {A : Type 0} → String → A → Result DbError Unit → Result Refusal A
inserted taken name (ok _) = ok name
inserted taken name (err duplicate_key) = err (refuse conflict taken)
inserted taken name (err other_error) = err db_error

-- The answer to an update or a deletion, by the count of the documents that it met.
abbrev changed : String → Result DbError ℕ → Result Refusal Unit
changed missing (err _) = err db_error
changed missing (ok n) = if eqb n 0 then err (refuse not_found missing) else ok tt

-- `*state.tiers_cache.write().await = None` after a success
abbrev clear_tiers : {A : Type 0} → Result Refusal A → AppState → AppState
clear_tiers (err _) state = state
clear_tiers (ok _) state = record state { tiers_cache = none }

abbrev clear_features : {A : Type 0} → Result Refusal A → AppState → AppState
clear_features (err _) state = state
clear_features (ok _) state = record state { features_cache = none }

module _ (p : Platform) (state : AppState) (admin : UserClaims) where
  -- `check_admin_tv(&state.db, &admin.0.sub, admin.0.tv.unwrap_or(0))`
  abbrev pub admin_refusal : Option Refusal
  admin_refusal = check_admin_tv p admin.sub (unwrap_or 0 admin.tv)

  unfoldable pub admin_create_tier : TierInput → Result DbError Unit → Outcome String
  unfolding check_admin_tv
  admin_create_tier body reply = elim admin_refusal [
    | some e ↦ (err e, state, [])
    | none ↦ elim body.name [
      | none ↦ (err (refuse bad_request "name is required."), state, [])
      | some name ↦
          if not (valid_tier_name name)
          then (err bad_name, state, [])
          else (let answer = inserted "A tier with that name already exists." name reply in
              (
                answer,
                clear_tiers answer state,
                shift_ranks (as_i32 body.rank) ∷ insert_tier name (tier_row body) ∷ [],
              ))
    ]
  ]

  unfoldable pub admin_update_tier : String → TierInput → Result DbError ℕ → Outcome Unit
  unfolding check_admin_tv
  admin_update_tier name body reply = elim admin_refusal [
    | some e ↦ (err e, state, [])
    | none ↦
        let answer = changed "Tier not found." reply in
        (answer, clear_tiers answer state, update_tier name (tier_row body) ∷ [])
  ]

  unfoldable pub admin_delete_tier : String → Result DbError ℕ → Outcome Unit
  unfolding check_admin_tv
  admin_delete_tier name reply = elim admin_refusal [
    | some e ↦ (err e, state, [])
    | none ↦
        let answer = changed "Tier not found." reply in
        (answer, clear_tiers answer state, delete_tier name ∷ [])
  ]

  unfoldable pub admin_create_feature : FeatureInput → Result DbError Unit → Outcome String
  unfolding check_admin_tv
  admin_create_feature body reply = elim admin_refusal [
    | some e ↦ (err e, state, [])
    | none ↦ elim body.name [
      | none ↦ (err (refuse bad_request "name is required."), state, [])
      | some name ↦
          if not (valid_tier_name name)
          then (err bad_name, state, [])
          else if not (is_known_tier body.min_tier)
          then (err bad_min_tier, state, [])
          else (let answer = inserted "A feature with that name already exists." name reply in
              (
                answer,
                clear_features answer state,
                insert_feature (record {
                  name = name;
                  label = body.label;
                  description = body.description;
                  min_tier = body.min_tier;
                })
                    ∷ [],
              ))
    ]
  ]

  unfoldable pub admin_update_feature : String → FeatureInput → Result DbError ℕ → Outcome Unit
  unfolding check_admin_tv
  admin_update_feature name body reply = elim admin_refusal [
    | some e ↦ (err e, state, [])
    | none ↦
        if not (is_known_tier body.min_tier)
        then (err bad_min_tier, state, [])
        else (let answer = changed "Feature not found." reply in
            (answer, clear_features answer state, update_feature name body ∷ []))
  ]

  unfoldable pub admin_delete_feature : String → Result DbError ℕ → Outcome Unit
  unfolding check_admin_tv
  admin_delete_feature name reply = elim admin_refusal [
    | some e ↦ (err e, state, [])
    | none ↦
        let answer = changed "Feature not found." reply in
        (answer, clear_features answer state, delete_feature name ∷ [])
  ]
