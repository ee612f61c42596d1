-- ===== src/Service/Auth/Revocation.antt =====
-- What an identity that the extractors of services/common/src/auth.rs accept guarantees.
use bbn.Prelude.{
  ◌≡◌, true, none, some, arith, String, Bool-cases, Option-cases, inl, inr, refl, ◌⊎◌,
}
use bbn.Prelude.Int.{pos, pos_part}
use bbn.Service.{
  Result, err, ok, Platform, UserClaims, UserTv, GatewayIdentity, Headers, unwrap_or,
  is_registered_role,
}
use bbn.Service.Auth.{bearer, check_tv, auth_token, authed_by_gateway, registered_by_gateway}

module _ {E A : Type 0} where
  pub Result-cases : (r : Result E A) → ((e : E) × (r ≡ err e)) ⊎ ((a : A) × (r ≡ ok a))
  Result-cases (err e) = inl (e, refl)
  Result-cases (ok a) = inr (a, refl)

module _ (p : Platform) (secret : String) (headers : Headers) where
  -- The token version of the claims is the one that the database holds for their user.
  abbrev pub IsCurrent : UserClaims → Type 0
  IsCurrent claims =
      (oid : p.ObjectId) × (user : UserTv) × (p.from_str claims.sub ≡ some oid)
      × (p.find_user oid ≡ ok (some user))
      × (pos_part (unwrap_or (pos 0) user.token_version) ≡ unwrap_or 0 claims.tv)

  check_tv-IsCurrent :
      (claims c : UserClaims)
      → check_tv p secret headers claims ≡ ok c
      → (claims ≡ c) × IsCurrent claims
  unfolding check_tv
  check_tv-IsCurrent claims c h = elim (Option-cases (p.from_str claims.sub)) [
    | inl gone ↦ absurd (cc (rw (gone, check_tv) at h))
    | inr (oid, parsed) ↦ elim (Result-cases (p.find_user oid)) [
      | inl (e, fails) ↦ absurd (cc (rw (parsed, check_tv, fails) at h))
      | inr (found, e) ↦ elim (Option-cases found) [
        | inl gone ↦ absurd (ground (arith, parsed, e, gone, h))
        | inr (user, u) ↦ (
          ground (arith, parsed, e, u, h),
          (oid, user, parsed, ground arith, ground (arith, parsed, e, u, h)),
        )
      ]
    ]
  ]

  auth_token_lem :
      (claims : UserClaims)
      → auth_token p secret headers ≡ ok claims
      → (p.decode_user (bearer (unwrap_or "" (headers "authorization"))) secret ≡ some claims)
        × (is_registered_role claims.role ≡ true → IsCurrent claims)
  unfolding auth_token
  auth_token_lem claims h =
      let token = bearer (unwrap_or "" (headers "authorization")) in
      elim (Option-cases (p.decode_user token secret)) [
        | inl gone ↦ absurd (ground (arith, gone, h))
        | inr (c, found) ↦ elim (Bool-cases (is_registered_role c.role)) [
          | inl registered ↦
              let checked : check_tv p secret headers c ≡ ok claims =
                ground (arith, found, registered, h) in
              let (same, current) = check_tv-IsCurrent c claims checked in
              (ground (arith, found, same), λ _. rw (← same) current)
          | inr other ↦
              let same : c ≡ claims = ground (arith, found, other, h) in
              (ground (arith, found, same), λ r. absurd (ground (arith, other, same, r)))
        ]
      ]

  -- `AuthToken` accepts only the claims of the request's token, and, for a registered role, only if
  -- their token version is the one in the database.
  pub auth_token-IsCurrent :
      (claims : UserClaims)
      → auth_token p secret headers ≡ ok claims
      → is_registered_role claims.role ≡ true
      → (p.decode_user (bearer (unwrap_or "" (headers "authorization"))) secret ≡ some claims)
        × IsCurrent claims
  auth_token-IsCurrent claims h registered =
      let (decoded, current) = auth_token_lem claims h in (decoded, current registered)

  -- An identity that the gateway vouches for, or that stands in a current token of the request.
  abbrev pub IsVouched : GatewayIdentity → Type 0
  IsVouched identity =
      (headers "x-auth-sub" ≡ some identity.sub)
      ⊎ ((claims : UserClaims) × (headers "x-auth-sub" ≡ none)
          × (p.decode_user (bearer (unwrap_or "" (headers "authorization"))) secret ≡ some claims)
          × (claims.sub ≡ identity.sub)
          × (claims.role ≡ identity.role)
          × IsCurrent claims)

  -- `RegisteredByGateway` accepts only registered roles; without the gateway's headers the identity is
  -- that of the request's token, whose token version is the one in the database.
  pub registered_by_gateway-IsVouched :
      (identity : GatewayIdentity)
      → registered_by_gateway p secret headers ≡ ok identity
      → (is_registered_role identity.role ≡ true) × IsVouched identity
  unfolding registered_by_gateway authed_by_gateway
  registered_by_gateway-IsVouched identity h = elim (Option-cases (headers "x-auth-sub")) [
    | inr (sub, given) ↦ (ground (arith, given, h), inl (ground (arith, given, h)))
    | inl absent ↦ elim (Result-cases (auth_token p secret headers)) [
      | inl (r, refused) ↦ absurd (ground (arith, absent, refused, h))
      | inr (claims, accepted) ↦
          let (decoded, current) = auth_token_lem claims accepted in
          let role : claims.role ≡ identity.role = ground (arith, absent, accepted, h) in
          let registered : is_registered_role identity.role ≡ true =
            ground (arith, absent, accepted, h) in
          (
            registered,
            inr (
              claims,
              absent,
              decoded,
              ground (arith, absent, accepted, h),
              role,
              current (rw role registered),
            ),
          )
    ]
  ]
