-- ===== src/Authority/Verify/Soundness.antt =====
-- What the gateway may rely on when services/authority-service/src/verify.rs answers with 200.
use mathlib.Core.Path.{subst}
use bbn.Prelude.{
  sym, ◌≡◌, refl, true, false, none, some, arith, String, string_eq, contains, Bool-cases,
  Option-cases, inl, inr, ◌∙◌, ◌⊎◌,
}
use bbn.Prelude.Int.{pos, negsuc}
use bbn.Prelude.Maps.{IsDistinct}
use bbn.Service.{ok, Platform, UserClaims, UserTv, unwrap_or, as_u32, is_registered_role}
use bbn.Service.Auth.Revocation.{Result-cases}
use bbn.Authority.Tiers.{
  FeatureDoc, Features, AppState, Loads, Cache, tiers_of, features_of, can, tier_entry,
  is_known_tier, nearby_radius, message_radius,
}
use bbn.Authority.Tiers.Caching.{load_features-IsDistinct}
use bbn.Authority.Tiers.Access.{contains-features_for_tier}
use bbn.Authority.Verify.{
  VerifyBody, VerifyResponse, verify_tv, verify_feature, authority_verify, respond, resolve_radii,
}

module _ (p : Platform) (jwt_secret : String) where
  -- The token version of the claims is the one that the database holds for their user.
  abbrev pub IsCurrent : UserClaims → Type 0
  IsCurrent claims =
      (oid : p.ObjectId) × (user : UserTv) × (p.from_str claims.sub ≡ some oid)
      × (p.find_user oid ≡ ok (some user))
      × (as_u32 (unwrap_or (pos 0) user.token_version) ≡ unwrap_or 0 claims.tv)

  verify_tv-IsCurrent :
      (claims : UserClaims)
      → verify_tv p jwt_secret claims ≡ none
      → is_registered_role claims.role ≡ true
      → IsCurrent claims
  unfolding verify_tv
  verify_tv-IsCurrent claims h registered = elim (Option-cases (p.from_str claims.sub)) [
    | inl gone ↦ absurd (ground (arith, gone, h, registered))
    | inr (oid, parsed) ↦ elim (Result-cases (p.find_user oid)) [
      | inl (e, fails) ↦ absurd (ground (arith, parsed, fails, h, registered))
      | inr (found, e) ↦ elim (Option-cases found) [
        | inl gone ↦ absurd (ground (arith, parsed, e, gone, h, registered))
        | inr (user, u) ↦
            (oid, user, parsed, ground arith, ground (arith, parsed, e, u, h, registered))
      ]
    ]
  ]

  verify_feature-can :
      (feature tier : String) (features : Features)
      → verify_feature p jwt_secret (some feature) tier features ≡ none
      → can tier feature features ≡ true
  unfolding verify_feature
  verify_feature-can feature tier features h = elim (Bool-cases (can tier feature features)) [
    | inl may ↦ may
    | inr may_not ↦ absurd (cc (rw (may_not, verify_feature) at h))
  ]

  -- What a successful answer rests on.
  abbrev pub IsGranted : AppState → Loads → VerifyBody → VerifyResponse → Type 0
  IsGranted state loads body response =
      (claims : UserClaims) × (p.decode_user body.token jwt_secret ≡ some claims)
      × ((is_registered_role claims.role ≡ false) ⊎ IsCurrent claims)
      × (response
          ≡ respond p jwt_secret claims (tiers_of state loads).0
              (features_of (tiers_of state loads).1 loads).0)
      × ((body.feature ≡ none)
          ⊎ ((feature : String) × (body.feature ≡ some feature)
              × (contains response.features feature ≡ true)))

  -- With a cache of distinct names, a successful answer describes the claims of a token that decodes;
  -- for a registered role its token version is the one in the database, and the feature that was asked
  -- for is among those of the answer.
  pub authority_verify-IsGranted :
      (state : AppState) (loads : Loads) (body : VerifyBody) (response : VerifyResponse)
      → ((c : Cache FeatureDoc) → state.features_cache ≡ some c → IsDistinct c.entries)
      → (authority_verify p jwt_secret state loads body).0 ≡ ok response
      → IsGranted state loads body response
  unfolding authority_verify verify_feature
  authority_verify-IsGranted state loads body response distinct h =
      let tiers = (tiers_of state loads).0 in
      let features = (features_of (tiers_of state loads).1 loads).0 in
      elim (Option-cases (p.decode_user body.token jwt_secret)) [
        | inl gone ↦ absurd (cc (rw (gone, authority_verify) at h))
        | inr (claims, decoded) ↦
            let tier = unwrap_or "guest" claims.tier in
            elim (Option-cases (verify_tv p jwt_secret claims)) [
              | inr (r, refused) ↦ absurd (cc (rw (decoded, authority_verify, refused) at h))
              | inl passes ↦
                  elim (Option-cases (verify_feature p jwt_secret body.feature tier features)) [
                    | inr (r, refused) ↦
                        absurd (cc (rw (decoded, authority_verify, passes, refused) at h))
                    | inl may ↦
                        let same : ok (respond p jwt_secret claims tiers features) ≡ ok response =
                          rw (decoded, authority_verify, passes, may) at h in
                        let same' : response ≡ respond p jwt_secret claims tiers features = cc in
                        let named =
                          load_features-IsDistinct state.features_cache loads.features_at
                            loads.features_written loads.features_reply distinct in
                        (
                          claims,
                          decoded,
                          elim (Bool-cases (is_registered_role claims.role)) [
                            | inl registered ↦ inr (verify_tv-IsCurrent claims passes registered)
                            | inr other ↦ inl other
                          ],
                          same',
                          elim (Option-cases body.feature) [
                            | inl unasked ↦ inl unasked
                            | inr (feature, asked) ↦ inr (
                              feature,
                              asked,
                              rw same' (
                                  contains-features_for_tier tier feature features named
                                  ∙ verify_feature-can feature tier features (rw asked at may)),
                            )
                          ],
                        )
                  ]
            ]
      ]

module _ (p : Platform) (jwt_secret : String) (state : AppState) (loads : Loads) where
  -- The radii of an answer are those that the endpoints for the radii give on the same caches and
  -- replies, with -1 for no radius.
  abbrev pub IsConsistent : VerifyResponse → Type 0
  IsConsistent response =
      ((nearby_radius state loads response.tier).0 ≡ ok response.radii.nearby_m)
      × ((message_radius state loads response.tier).0
          ≡ ok (elim response.radii.message_m [ none ↦ negsuc 0 | some r ↦ pos r ]))

  respond-IsConsistent :
      (claims : UserClaims) (features : Features)
      → is_known_tier (unwrap_or "guest" claims.tier) ≡ true
      → IsConsistent (respond p jwt_secret claims (tiers_of state loads).0 features)
  unfolding nearby_radius message_radius
  respond-IsConsistent claims features known =
      let tier = unwrap_or "guest" claims.tier in
      elim (Option-cases (tier_entry (tiers_of state loads).0 tier)) [
        | inl gone ↦ (
          rw (known, nearby_radius, resolve_radii, gone) refl,
          rw (known, message_radius, resolve_radii, gone) refl,
        )
        | inr (t, found) ↦ (
          rw (known, nearby_radius, resolve_radii, found) refl,
          rw (known, message_radius, resolve_radii, found) refl,
        )
      ]

  -- For the four known tiers the radii of a successful answer are those that the endpoints for the
  -- radii give on the same caches and replies, with -1 for no radius; the cached features have
  -- distinct names.
  pub authority_verify-IsConsistent :
      (body : VerifyBody) (response : VerifyResponse)
      → ((c : Cache FeatureDoc) → state.features_cache ≡ some c → IsDistinct c.entries)
      → (authority_verify p jwt_secret state loads body).0 ≡ ok response
      → is_known_tier response.tier ≡ true
      → IsConsistent response
  authority_verify-IsConsistent body response distinct h known =
      let (claims, _, _, same, _) =
        authority_verify-IsGranted p jwt_secret state loads body response distinct h in
      let features = (features_of (tiers_of state loads).1 loads).0 in
      subst IsConsistent (sym same) (respond-IsConsistent claims features (rw same at known))
