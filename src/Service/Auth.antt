-- ===== src/Service/Auth.antt =====
-- The extractors of services/common/src/auth.rs, which run before a handler.
pub mod Revocation
use bbn.Prelude.{
  ℕ, Bool, true, false, not, List, [], Option, none, some, if◌then◌else◌, String, string_eq, ◌==◌,
  contains, eqb,
}
use bbn.Prelude.Int.{ℤ, pos, pos_part}
use bbn.Text.{is_empty, strip_prefix, trim, parse_u32}
use bbn.Service.{
  StatusCode, unauthorized, forbidden, internal_server_error, Refusal, refuse, refuse_code, Result,
  err, ok, Platform, ServiceClaims, UserClaims, UserTv, GatewayIdentity, GatewayRadii, Headers,
  unwrap_or, safe_object_id, is_registered_role,
}

-- `a.or_else(|| b)`
abbrev pub or_else {ℓ} : {A : Type ℓ} → Option A → Option A → Option A
or_else none b = b
or_else (some a) b = some a

-- The token of a header's value, without the prefix "Bearer ".
abbrev pub bearer : String → String
bearer raw =
    trim (unwrap_or raw (or_else (strip_prefix "Bearer " raw) (strip_prefix "bearer " raw)))

module _ (p : Platform) (secret : String) (headers : Headers) where
  -- `ServiceToken`; the secret is the one between services
  unfoldable pub service_token : Result Refusal ServiceClaims
  service_token =
      let token = bearer (unwrap_or "" (headers "x-service-token")) in
      if is_empty token
      then err (refuse unauthorized "No service token.")
      else elim (p.decode_service token secret) [
        | none ↦ err (refuse unauthorized "Service token invalid or expired.")
        | some claims ↦
            if claims.role == "service"
            then ok claims
            else err (refuse forbidden "Not a service token.")
      ]

  -- `AdminUser`
  unfoldable pub admin_user : Result Refusal UserClaims
  admin_user =
      let token = bearer (unwrap_or "" (headers "authorization")) in
      if is_empty token
      then err (refuse unauthorized "No token provided.")
      else elim (p.decode_user token secret) [
        | none ↦ err (refuse unauthorized "Token invalid or expired.")
        | some claims ↦
            if claims.role == "admin"
            then ok claims
            else err (refuse_code forbidden "Admin access required." "ADMIN_REQUIRED")
      ]

  abbrev pub revoked : Refusal
  revoked = refuse_code unauthorized "Token revoked." "TOKEN_REVOKED"

  -- The check of `tokenVersion` in `AuthToken`: `user.token_version.unwrap_or(0).max(0) as u32`
  -- against `claims.tv.unwrap_or(0)`.
  unfoldable pub check_tv : UserClaims → Result Refusal UserClaims
  check_tv claims = elim (safe_object_id p claims.sub) [
    | none ↦ err revoked
    | some oid ↦ elim (p.find_user oid) [
      | err _ ↦ err (refuse internal_server_error "Internal error.")
      | ok none ↦ err revoked
      | ok (some user) ↦
          let db_tv = pos_part (unwrap_or (pos 0) user.token_version) in
          if eqb db_tv (unwrap_or 0 claims.tv) then ok claims else err revoked
    ]
  ]

  -- `AuthToken`
  unfoldable pub auth_token : Result Refusal UserClaims
  unfolding check_tv
  auth_token =
      let token = bearer (unwrap_or "" (headers "authorization")) in
      if is_empty token
      then err (refuse_code unauthorized "No token provided." "NO_TOKEN")
      else elim (p.decode_user token secret) [
        | none ↦ err (refuse_code unauthorized "Token invalid or expired." "TOKEN_INVALID")
        | some claims ↦ if is_registered_role claims.role then check_tv claims else ok claims
      ]

  -- `RequireRegistered`
  unfoldable pub require_registered : Result Refusal UserClaims
  unfolding auth_token
  require_registered = elim auth_token [
    | err r ↦ err r
    | ok claims ↦
        if is_registered_role claims.role
        then ok claims
        else err (refuse_code forbidden "Registered account required." "REGISTERED_REQUIRED")
  ]

  abbrev pub parse_with {ℓ} : {A : Type ℓ} → (String → Option A) → String → Option A
  parse_with parse name = elim (headers name) [ none ↦ none | some s ↦ parse s ]

  -- `AuthedByGateway`
  unfoldable pub authed_by_gateway : Result Refusal GatewayIdentity
  unfolding auth_token
  authed_by_gateway = elim (headers "x-auth-sub") [
    | some sub ↦ ok (record {
      sub = sub;
      role = unwrap_or "user" (headers "x-auth-role");
      account_type = unwrap_or "user" (headers "x-auth-account-type");
      tier = unwrap_or "regular" (headers "x-auth-tier");
      tv = unwrap_or 0 (parse_with parse_u32 "x-auth-tv");
      features = unwrap_or [] (parse_with p.parse_features "x-auth-features");
      radii =
          unwrap_or (record { nearby_m = 0; message_m = none })
            (parse_with p.parse_radii "x-auth-radii");
    })
    | none ↦ elim auth_token [
      | err r ↦ err r
      | ok claims ↦ ok (record {
        sub = claims.sub;
        role = claims.role;
        account_type = claims.account_type;
        tier = unwrap_or "regular" claims.tier;
        tv = unwrap_or 0 claims.tv;
        features = [];
        radii = record { nearby_m = 0; message_m = none };
      })
    ]
  ]

  -- `RegisteredByGateway`
  unfoldable pub registered_by_gateway : Result Refusal GatewayIdentity
  unfolding authed_by_gateway
  registered_by_gateway = elim authed_by_gateway [
    | err r ↦ err r
    | ok identity ↦
        if is_registered_role identity.role
        then ok identity
        else err (refuse_code forbidden "Registered account required." "REGISTERED_REQUIRED")
  ]
