-- ===== src/Authority/Verify.antt =====
-- The identity endpoint: services/authority-service/src/verify.rs. The handler runs after the
-- extractor `ServiceToken`.
pub mod Soundness
use bbn.Prelude.{
  ℕ, Bool, true, false, not, ◌||◌, List, Option, none, some, if◌then◌else◌, String, string_eq, ◌==◌,
  eqb,
}
use bbn.Prelude.Int.{ℤ, pos}
use bbn.Service.{
  StatusCode, unauthorized, forbidden, internal_server_error, Refusal, refuse, refuse_code, Result,
  err, ok, Platform, UserClaims, UserTv, unwrap_or, safe_object_id, as_u32, is_registered_role,
}
use bbn.Authority.Tiers.{
  Features, Tiers, AppState, Loads, tiers_of, features_of, load_tiers, load_features, can,
  features_for_tier, required_tier, tier_entry,
}

pub record VerifyBody : Type 0 where
  pub token : String
  pub feature : Option String

pub record Radii : Type 0 where
  pub nearby_m : ℕ
  pub message_m : Option ℕ

pub record VerifyResponse : Type 0 where
  pub sub : String
  pub role : String
  pub account_type : String
  pub tier : String
  pub tv : ℕ
  pub features : List String
  pub radii : Radii

-- A refusal, or one that also names the caller's tier and the required one.
pub data VerifyRefusal : Type 0 where
  refused : Refusal → VerifyRefusal
  tier_required : String → String → VerifyRefusal

module _ (p : Platform) (jwt_secret : String) where
  abbrev token_revoked : VerifyRefusal
  token_revoked = refused (refuse_code unauthorized "Token revoked." "TOKEN_REVOKED")

  -- Step 2, the check of the token version: `none` is a pass. The projection of the user's document
  -- to `tokenVersion` is `UserTv`.
  unfoldable pub verify_tv : UserClaims → Option VerifyRefusal
  verify_tv claims =
      if is_registered_role claims.role
      then elim (safe_object_id p claims.sub) [
        | none ↦ some token_revoked
        | some oid ↦ elim (p.find_user oid) [
          | ok (some u) ↦
              if eqb (as_u32 (unwrap_or (pos 0) u.token_version)) (unwrap_or 0 claims.tv)
              then none
              else some token_revoked
          | ok none ↦ some token_revoked
          | err _ ↦ some (refused (refuse internal_server_error "Internal error."))
        ]
      ]
      else none

  -- Step 4, the check of the feature.
  unfoldable pub verify_feature : Option String → String → Features → Option VerifyRefusal
  unfolding can
  verify_feature none tier features = none
  verify_feature (some feature) tier features =
      if not (can tier feature features)
      then some (tier_required tier (required_tier feature features))
      else none

  -- Step 5, the radii of a tier.
  abbrev pub resolve_radii : Tiers → String → Radii
  resolve_radii tiers tier = elim (tier_entry tiers tier) [
    | none ↦ record { nearby_m = 500; message_m = none }
    | some t ↦ record { nearby_m = t.nearby_radius_m; message_m = t.message_radius_m }
  ]

  abbrev pub respond : UserClaims → Tiers → Features → VerifyResponse
  respond claims tiers features = record {
    sub = claims.sub;
    role = claims.role;
    account_type = claims.account_type;
    tier = unwrap_or "guest" claims.tier;
    tv = unwrap_or 0 claims.tv;
    features = features_for_tier (unwrap_or "guest" claims.tier) features;
    radii = resolve_radii tiers (unwrap_or "guest" claims.tier);
  }

  unfoldable pub authority_verify :
      AppState → Loads → VerifyBody → Result VerifyRefusal VerifyResponse × AppState
  unfolding verify_tv verify_feature features_for_tier load_tiers load_features
  authority_verify state loads body = elim (p.decode_user body.token jwt_secret) [
    | none ↦ (
      err (refused (refuse_code unauthorized "Token invalid or expired." "TOKEN_INVALID")),
      state,
    )
    | some claims ↦ elim (verify_tv claims) [
      | some r ↦ (err r, state)
      | none ↦
          let (tiers, state') = tiers_of state loads in
          let (features, state'') = features_of state' loads in
          elim (verify_feature body.feature (unwrap_or "guest" claims.tier) features) [
            | some r ↦ (err r, state'')
            | none ↦ (ok (respond claims tiers features), state'')
          ]
    ]
  ]
