-- ===== src/Gateway/Serve.antt =====
-- How a route is served: the limiters, the guards and the proxy, in the order of the handlers of
-- services/gateway/src/handlers.rs. The limiters of the code are shared; an operation is one step.
use bbn.Prelude.{
  ℕ, ◌+◌, Bool, true, false, List, [], ◌∷◌, Option, none, some, if◌then◌else◌, String, Eq,
}
use bbn.Text.{trim, before_char}
use bbn.Rate.{FixedWindow, check}
use bbn.Service.{err, ok, Platform, Headers}
use bbn.Service.TokenCache.{Cached}
use bbn.Gateway.{
  Wire, Answer, refused, Outgoing, Method, Hosts, GatewayCalls, rate_limited, auth_hdr, role_guard,
  proxy, authority_guard, verified_proxy,
}
use bbn.Gateway.Routes.{
  Limiter, guest_limiter, register_limiter, login_limiter, api_limiter, msg_limiter, public_access,
  verified_access, role_access, Plan, Route, route_plan,
}

-- The state that the handlers share.
pub record GatewayState (w : Wire) : Type 0 where
  pub lim_guest : FixedWindow w.IpAddr
  pub lim_register : FixedWindow w.IpAddr
  pub lim_login : FixedWindow w.IpAddr
  pub lim_api : FixedWindow w.IpAddr
  pub lim_msg : FixedWindow w.IpAddr
  pub svc_token_cache : Cached

-- `v.trim().parse().ok()` of a header's value
abbrev pub parse_addr : (w : Wire) → Option String → Option w.IpAddr
parse_addr w none = none
parse_addr w (some s) = w.parse_ip (trim s)

-- The first of the addresses of `x-forwarded-for`.
abbrev pub first_forwarded : Option String → Option String
first_forwarded none = none
first_forwarded (some s) = some (before_char 44 s)

-- `real_ip`
unfoldable pub real_ip : (w : Wire) → Headers → w.IpAddr
real_ip w headers = elim (parse_addr w (headers "cf-connecting-ip")) [
  | some ip ↦ ip
  | none ↦ elim (parse_addr w (first_forwarded (headers "x-forwarded-for"))) [
    | some ip ↦ ip
    | none ↦ w.localhost
  ]
]

module _ (w : Wire) ⦃e : Eq w.IpAddr⦄ where
  abbrev pub limiter : GatewayState w → Limiter → FixedWindow w.IpAddr
  limiter state guest_limiter = state.lim_guest
  limiter state register_limiter = state.lim_register
  limiter state login_limiter = state.lim_login
  limiter state api_limiter = state.lim_api
  limiter state msg_limiter = state.lim_msg

  abbrev pub set_limiter : GatewayState w → Limiter → FixedWindow w.IpAddr → GatewayState w
  set_limiter state guest_limiter lim = record state { lim_guest = lim }
  set_limiter state register_limiter lim = record state { lim_register = lim }
  set_limiter state login_limiter lim = record state { lim_login = lim }
  set_limiter state api_limiter lim = record state { lim_api = lim }
  set_limiter state msg_limiter lim = record state { lim_msg = lim }

  -- `check_lim`, at a time in milliseconds
  unfoldable pub check_lim : GatewayState w → ℕ → Limiter → w.IpAddr → GatewayState w × Bool
  unfolding check
  check_lim state now l ip =
      let (lim, may) = check (limiter state l) now ip in (set_limiter state l lim, may)

  -- The limiters of a handler, one after the other, up to one that refuses.
  unfoldable pub check_all :
      GatewayState w → (ℕ → ℕ) → ℕ → w.IpAddr → List Limiter → GatewayState w × Bool
  unfolding check_lim
  check_all state times i ip [] = (state, true)
  check_all state times i ip (l ∷ ls) =
      let (state', may) = check_lim state (times i) l ip in
      let rest = check_all state' times (i + 1) ip ls in if may then rest else (state', false)

  module _ (p : Platform) (service_secret : String) (hosts : Hosts) (calls : GatewayCalls w) where
    -- `admin_guard_then` and `manager_guard_then`: the role that is asked for.
    unfoldable pub guard_then :
        Cached
        → Headers
        → String
        → Method
        → String
        → Option String
        → Answer w × Cached × Option Outgoing
    unfolding authority_guard proxy role_guard
    guard_then cache headers required method url body =
        let (result, cache') = authority_guard w p service_secret hosts calls cache headers none in
        elim result [
          | err answer ↦ (answer, cache', none)
          | ok id ↦ elim (role_guard id required) [
            | some r ↦ (refused r, cache', none)
            | none ↦
                proxy w p service_secret hosts calls cache' method url (auth_hdr headers) body
                  (some id)
          ]
        ]

    -- What follows the limiters.
    unfoldable pub pass_on :
        Cached → Headers → Plan → Option String → Answer w × Cached × Option Outgoing
    unfolding guard_then verified_proxy proxy
    pass_on cache headers route body = elim route.access [
      | public_access ↦
          proxy w p service_secret hosts calls cache route.method route.url (auth_hdr headers) body
            none
      | verified_access feature ↦
          verified_proxy w p service_secret hosts calls cache headers route.method route.url body
            feature
      | role_access required ↦ guard_then cache headers required route.method route.url body
    ]

    -- The handler of a route. The body is passed on by the routes that have one; `times` are the
    -- readings of the limiters' clock.
    unfoldable pub serve :
        GatewayState w
        → (ℕ → ℕ)
        → Route
        → Headers
        → String
        → Answer w × GatewayState w × Option Outgoing
    unfolding check_all pass_on route_plan real_ip
    serve state times route headers body =
        let route' = route_plan hosts route in
        let (state', may) = check_all state times 0 (real_ip w headers) route'.limiters in
        if may
        then (let (answer, cache, req) =
              pass_on state'.svc_token_cache headers route'
                (if route'.has_body then some body else none) in
            (answer, record state' { svc_token_cache = cache }, req))
        else (refused rate_limited, state', none)
