-- ===== src/Gateway.antt =====
-- The gateway: services/gateway/src/guards.rs and services/gateway/src/proxy.rs. A function here is
-- given the cache of the service token, and what the authority service and the internal services
-- answer; it returns its answer, the new cache, and the request that it sends. Names of headers are in
-- lower case, as they are compared without regard to case. JSON values are those of `serde_json`.
pub mod Identity
pub mod Routes
pub mod Serve
pub mod Access
pub mod Socket
pub mod Sound
pub mod Posts
mod Tests
use Prim.Native.String.{◌++◌}
use bbn.Prelude.{
  ℕ, Bool, true, false, ◌&&◌, not, List, [], ◌∷◌, Option, none, some, if◌then◌else◌, String,
  string_eq, ◌==◌,
}
use bbn.Prelude.Maps.{lookup}
use bbn.Text.{is_empty, trim, strip_prefix}
use bbn.Text.Decimal.{u32_to_string}
use bbn.Service.{
  StatusCode, unauthorized, forbidden, bad_gateway, too_many_requests, Refusal, refuse, refuse_code,
  Result, err, ok, Platform, GatewayIdentity, GatewayRadii, Headers, unwrap_or,
}
use bbn.Service.TokenCache.{Cached, get}
use bbn.Messages.{is_success}

-- `VerifyResponse` has the fields of `GatewayIdentity`, and its `Radii` those of `GatewayRadii`.
abbrev pub VerifyResponse : Type 0
VerifyResponse = GatewayIdentity

-- The code that the gateway calls and does not hold: JSON values and their printing, addresses, and
-- the test of reqwest that a text can be the value of a header.
pub record Wire : Type 1 where
  pub Value : Type 0
  pub empty_object : Value
  pub features_to_json : List String → Option String
  pub radii_to_json : GatewayRadii → Option String
  pub IpAddr : Type 0
  pub parse_ip : String → Option IpAddr
  pub localhost : IpAddr
  pub is_header_value : String → Bool

-- An answer of the gateway: its own refusal, or a status and a body that it passes on. The status of
-- an answer from a service is a valid one, so `from_u16` does not fail.
pub data Answer (w : Wire) : Type 0 where
  refused : Refusal → Answer w
  passed : ℕ → w.Value → Answer w

pub data Method : Type 0 where
  get_method post_method put_method patch_method delete_method : Method

-- A request as it goes out.
pub record Outgoing : Type 0 where
  pub method : Method
  pub url : String
  pub headers : List (String × String)
  pub body : Option String

-- What the authority service answers to a verification: no answer, or a status with the identity, if
-- the body is one, and the value, if it is JSON.
pub data VerifyReply (w : Wire) : Type 0 where
  no_answer : VerifyReply w
  verified : ℕ → Option VerifyResponse → Option w.Value → VerifyReply w

-- What an internal service answers: no answer, or a status with the value, if the body is JSON.
pub data ProxyReply (w : Wire) : Type 0 where
  no_reply : ProxyReply w
  replied : ℕ → Option w.Value → ProxyReply w

-- The base URLs of the internal services.
pub record Hosts : Type 0 where
  pub authority_url : String
  pub user_url : String
  pub loc_url : String
  pub msg_url : String
  pub fav_url : String
  pub blocks_url : String
  pub migration_url : String

-- What a request meets: the readings of the clock in seconds before each use of the token cache, the
-- answer of `/authority/verify`, given the service token, the token and the feature, and the answer of
-- the service that the request goes to.
pub record GatewayCalls (w : Wire) : Type 0 where
  pub guard_now : ℕ
  pub proxy_now : ℕ
  pub verify : String → String → Option String → VerifyReply w
  pub send : Outgoing → ProxyReply w

abbrev pub rate_limited : Refusal
rate_limited = refuse too_many_requests "Too many requests."

abbrev pub bad_gw : Refusal
bad_gw = refuse bad_gateway "Service unavailable."

abbrev pub auth_hdr : Headers → String
auth_hdr headers = unwrap_or "" (headers "authorization")

-- `url.starts_with(base)`
abbrev pub starts_with : String → String → Bool
starts_with url base = elim (strip_prefix base url) [ none ↦ false | some rest ↦ true ]

abbrev pub any {ℓ} : {A : Type ℓ} → (A → Bool) → List A → Bool
any test [] = false
any test (x ∷ xs) = if test x then true else any test xs

abbrev pub allowed : Hosts → List String
allowed hosts =
    hosts.authority_url ∷ hosts.user_url ∷ hosts.loc_url ∷ hosts.msg_url ∷ hosts.fav_url
    ∷ hosts.blocks_url ∷ hosts.migration_url ∷ []

-- `role_guard`
unfoldable pub role_guard : VerifyResponse → String → Option Refusal
role_guard identity required =
    if identity.role == required
    then none
    else if required == "admin"
    then some (refuse_code forbidden "Admin access required." "ADMIN_REQUIRED")
    else if required == "venue_manager"
    then some (refuse_code forbidden "Venue manager role required." "MANAGER_REQUIRED")
    else some (refuse_code forbidden "Insufficient role." "ROLE_REQUIRED")

module _ (w : Wire) where
  -- The `X-Auth-*` headers; a failed printing gives an empty value.
  unfoldable pub identity_headers : Option VerifyResponse → List (String × String)
  identity_headers none = []
  identity_headers (some id) =
      ("x-auth-sub", id.sub)
      ∷ ("x-auth-role", id.role)
      ∷ ("x-auth-account-type", id.account_type)
      ∷ ("x-auth-tier", id.tier)
      ∷ ("x-auth-tv", u32_to_string id.tv)
      ∷ ("x-auth-features", unwrap_or "" (w.features_to_json id.features))
      ∷ ("x-auth-radii", unwrap_or "" (w.radii_to_json id.radii))
      ∷ []

  -- The request that is built.
  unfoldable pub outgoing :
      String → Method → String → String → Option String → Option VerifyResponse → Outgoing
  outgoing token method url auth body identity = record {
    method = method;
    url = url;
    headers =
        ("x-service-token", token)
        ∷ ("authorization", auth)
        ∷ ("content-type", "application/json")
        ∷ identity_headers identity;
    body = body;
  }

  abbrev pub all_header_values : List (String × String) → Bool
  all_header_values [] = true
  all_header_values ((name, value) ∷ headers) = w.is_header_value value && all_header_values headers

  -- The answer to a reply.
  abbrev pub answer_of : ProxyReply w → Answer w
  answer_of no_reply = refused bad_gw
  answer_of (replied status none) = passed status w.empty_object
  answer_of (replied status (some value)) = passed status value

  module _ (p : Platform) (service_secret : String) (hosts : Hosts) (calls : GatewayCalls w) where
    -- `proxy`: a request with a value that no header can have is an error before it is sent.
    unfoldable pub proxy :
        Cached
        → Method
        → String
        → String
        → Option String
        → Option VerifyResponse
        → Answer w × Cached × Option Outgoing
    unfolding get
    proxy cache method url auth body identity =
        if any (starts_with url) (allowed hosts)
        then (let (svc_token, cache') = get p "gateway" service_secret cache calls.proxy_now in
            elim svc_token [
              | none ↦ (refused bad_gw, cache', none)
              | some token ↦
                  let req = outgoing token method url auth body identity in
                  if all_header_values req.headers
                  then (answer_of (calls.send req), cache', some req)
                  else (refused bad_gw, cache', none)
            ])
        else (refused bad_gw, cache, none)

    -- The result of the verification.
    abbrev pub guard_result : VerifyReply w → Result (Answer w) VerifyResponse
    guard_result no_answer = err (refused bad_gw)
    guard_result (verified status identity value) =
        if is_success status
        then elim identity [ none ↦ err (refused bad_gw) | some id ↦ ok id ]
        else err (passed status (unwrap_or w.empty_object value))

    -- The bearer token of a header; only the prefix "Bearer " is taken off.
    abbrev pub guard_token : Headers → String
    guard_token headers =
        let auth = auth_hdr headers in trim (unwrap_or auth (strip_prefix "Bearer " auth))

    -- `authority_guard`
    unfoldable pub authority_guard :
        Cached → Headers → Option String → Result (Answer w) VerifyResponse × Cached
    unfolding get
    authority_guard cache headers feature =
        let token = guard_token headers in
        if is_empty token
        then (err (refused (refuse unauthorized "No token provided.")), cache)
        else (let (svc_token, cache') = get p "gateway" service_secret cache calls.guard_now in
            elim svc_token [
              | none ↦ (err (refused bad_gw), cache')
              | some svc ↦ (guard_result (calls.verify svc token feature), cache')
            ])

    -- `verified_proxy`
    unfoldable pub verified_proxy :
        Cached
        → Headers
        → Method
        → String
        → Option String
        → Option String
        → Answer w × Cached × Option Outgoing
    unfolding authority_guard proxy
    verified_proxy cache headers method url body feature =
        let (result, cache') = authority_guard cache headers feature in
        elim result [
          | err answer ↦ (answer, cache', none)
          | ok identity ↦ proxy cache' method url (auth_hdr headers) body (some identity)
        ]
