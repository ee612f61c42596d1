-- ===== src/Gateway/Identity.antt =====
-- What the gateway sends on behalf of a caller, and what a service reads of it.
use bbn.Prelude.{
  ℕ, ◌<◌, ◌^◌, ◌≡◌, refl, sym, ap, true, Option, none, some, Bool-cases, Option-cases, inl, inr,
  String, string_eq,
}
use bbn.Prelude.Maps.{lookup}
use bbn.Text.{is_empty}
use bbn.Text.Decimal.{u32_to_string, parse_u32-u32_to_string}
use bbn.Service.{ok, Platform, Headers, unwrap_or}
use bbn.Service.Auth.{authed_by_gateway, parse_with}
use bbn.Service.Auth.Revocation.{Result-cases}
use bbn.Service.TokenCache.{Cached, get}
use bbn.Messages.{is_success}
use bbn.Gateway.{
  Wire, VerifyResponse, VerifyReply, no_answer, verified, Outgoing, Method, Hosts, GatewayCalls,
  allowed, starts_with, any, auth_hdr, identity_headers, outgoing, all_header_values, proxy,
  guard_token, guard_result, authority_guard, verified_proxy,
}

module _ (w : Wire) (p : Platform) (service_secret : String) (hosts : Hosts)
    (calls : GatewayCalls w) where
  -- The authority service has given the identity for the caller's token and the feature.
  abbrev pub IsVerified : Headers → Option String → VerifyResponse → Type 0
  IsVerified headers feature id =
      (svc : String) × (status : ℕ) × (value : Option w.Value) × (calls.verify svc
          (guard_token w p service_secret hosts calls headers) feature
        ≡ verified status (some id) value)
      × (is_success status ≡ true)

  guard_result-verified :
      (reply : VerifyReply w) (id : VerifyResponse)
      → guard_result w p service_secret hosts calls reply ≡ ok id
      → (status : ℕ) × (value : Option w.Value) × (reply ≡ verified status (some id) value)
        × (is_success status ≡ true)
  guard_result-verified no_answer id h = cc
  guard_result-verified (verified status none value) id h = elim (Bool-cases (is_success status)) [
    | inl good ↦ absurd (cc (rw good at h))
    | inr bad ↦ absurd (cc (rw bad at h))
  ]
  guard_result-verified (verified status (some id') value) id h =
      elim (Bool-cases (is_success status)) [
        | inl good ↦
            let e : id' ≡ id = cc (rw good at h) in
            (status, value, ap (λ (i : VerifyResponse). verified status (some i) value) e, good)
        | inr bad ↦ absurd (cc (rw bad at h))
      ]

  pub authority_guard-IsVerified :
      (cache : Cached) (headers : Headers) (feature : Option String) (id : VerifyResponse)
      → (authority_guard w p service_secret hosts calls cache headers feature).0 ≡ ok id
      → IsVerified headers feature id
  unfolding authority_guard
  authority_guard-IsVerified cache headers feature id h =
      let token = guard_token w p service_secret hosts calls headers in
      elim (Bool-cases (is_empty token)) [
        | inl blank ↦ absurd (cc (rw (authority_guard, blank) at h))
        | inr full ↦ elim (Option-cases (get p "gateway" service_secret cache calls.guard_now).0) [
          | inl gone ↦ absurd (cc (rw (authority_guard, full, gone) at h))
          | inr (svc, made) ↦
              let (status, value, reply, good) =
                guard_result-verified (calls.verify svc token feature) id
                  (rw (authority_guard, full, made) at h) in
              (svc, status, value, reply, good)
        ]
      ]

  -- A request of the gateway to an internal service for an identity.
  abbrev pub IsSent :
      Method → String → String → Option String → Option VerifyResponse → Outgoing → Type 0
  IsSent method url auth body identity req =
      (token : String) × (req ≡ outgoing w token method url auth body identity)
      × (any (starts_with url) (allowed hosts) ≡ true)

  pub proxy-IsSent :
      (cache : Cached) (method : Method) (url auth : String) (body : Option String)
      (identity : Option VerifyResponse) (req : Outgoing)
      → (proxy w p service_secret hosts calls cache method url auth body identity).2 ≡ some req
      → IsSent method url auth body identity req
  unfolding proxy
  proxy-IsSent cache method url auth body identity req h =
      elim (Bool-cases (any (starts_with url) (allowed hosts))) [
        | inr foreign ↦ absurd (cc (rw (proxy, foreign) at h))
        | inl internal ↦
            elim (Option-cases (get p "gateway" service_secret cache calls.proxy_now).0) [
              | inl gone ↦ absurd (cc (rw (proxy, internal, gone) at h))
              | inr (token, made) ↦
                  let out = outgoing w token method url auth body identity in
                  elim (Bool-cases (all_header_values w out.headers)) [
                    | inr bad ↦ absurd (cc (rw (proxy, internal, made, bad) at h))
                    | inl good ↦
                        let e : out ≡ req = cc (rw (proxy, internal, made, good) at h) in
                        (token, sym e, internal)
                  ]
            ]
      ]

  pub verified_proxy-IsSent :
      (cache : Cached) (headers : Headers) (method : Method) (url : String)
      (body feature : Option String) (req : Outgoing)
      → (verified_proxy w p service_secret hosts calls cache headers method url body feature).2
        ≡ some req
      → (id : VerifyResponse) × IsVerified headers feature id
        × IsSent method url (auth_hdr headers) body (some id) req
  unfolding verified_proxy
  verified_proxy-IsSent cache headers method url body feature req h =
      elim (Result-cases (authority_guard w p service_secret hosts calls cache headers feature).0) [
        | inl (answer, fails) ↦ absurd (cc (rw (verified_proxy, fails) at h))
        | inr (id, passes) ↦ (
          id,
          authority_guard-IsVerified cache headers feature id passes,
          proxy-IsSent _ method url (auth_hdr headers) body (some id) req
              (rw (verified_proxy, passes) at h),
        )
      ]

  module _ (jwt_secret : String) (received : Headers) where
    -- The headers of a request, as the service that it goes to receives them.
    abbrev pub Arrives : Outgoing → Type 0
    Arrives req =
        (name value : String) → lookup name req.headers ≡ some value → received name ≡ some value

    -- The version is a u32, and the JSON of the features and of the radii is read back as it was printed.
    abbrev pub IsReadable : VerifyResponse → Type 0
    IsReadable id =
        (id.tv < 2 ^ 32)
        × (p.parse_features (unwrap_or "" (w.features_to_json id.features)) ≡ some id.features)
        × (p.parse_radii (unwrap_or "" (w.radii_to_json id.radii)) ≡ some id.radii)

    authed_by_gateway-outgoing :
        (token url auth : String) (method : Method) (body : Option String) (id : VerifyResponse)
        → Arrives (outgoing w token method url auth body (some id))
        → IsReadable id
        → authed_by_gateway p jwt_secret received ≡ ok id
    unfolding authed_by_gateway outgoing identity_headers
    authed_by_gateway-outgoing token url auth method body id arrives (tv, features, radii) =
        let sub' = arrives "x-auth-sub" id.sub refl in
        let role' = arrives "x-auth-role" id.role refl in
        let type' = arrives "x-auth-account-type" id.account_type refl in
        let tier' = arrives "x-auth-tier" id.tier refl in
        let tv' = arrives "x-auth-tv" (u32_to_string id.tv) refl in
        let f' = arrives "x-auth-features" (unwrap_or "" (w.features_to_json id.features)) refl in
        let r' = arrives "x-auth-radii" (unwrap_or "" (w.radii_to_json id.radii)) refl in
        let n = parse_u32-u32_to_string id.tv tv in
        rw
          (
            sub', authed_by_gateway, role', type', tier', parse_with, tv', f', r', n, features,
            radii,
          )
          refl

    -- If the headers of a request arrive as they were sent, and the version, the features and the radii
    -- of an identity that the authority service gives are read back as they were printed, then whenever
    -- the gateway sends a request for a caller, the service that receives it takes for its caller exactly
    -- the identity that the authority service has given for the caller's token and the feature of the
    -- route, and the request goes to a URL that starts with that of an internal service.
    pub verified_proxy-authed_by_gateway :
        (cache : Cached) (headers : Headers) (method : Method) (url : String)
        (body feature : Option String) (req : Outgoing)
        → (verified_proxy w p service_secret hosts calls cache headers method url body feature).2
          ≡ some req
        → Arrives req
        → ((id : VerifyResponse) → IsVerified headers feature id → IsReadable id)
        → (id : VerifyResponse) × IsVerified headers feature id
          × (authed_by_gateway p jwt_secret received ≡ ok id)
          × (req.url ≡ url)
          × (any (starts_with req.url) (allowed hosts) ≡ true)
    unfolding outgoing
    verified_proxy-authed_by_gateway cache headers method url body feature req h arrives readable =
        let (id, granted, sent) =
          verified_proxy-IsSent cache headers method url body feature req h in
        let (token, e, inside) = sent in
        (
          id,
          granted,
          authed_by_gateway-outgoing token url (auth_hdr headers) method body id (rw e at arrives)
              (readable id granted),
          ap (λ (r : Outgoing). r.url) e,
          rw e inside,
        )
