-- ===== src/Gateway/Access.antt =====
-- Who may use a route of the gateway.
use bbn.Prelude.{
  ℕ, ◌≡◌, refl, true, Option, none, some, if◌then◌else◌, Bool-cases, Option-cases, inl, inr, ◌⊎◌,
  String, string_eq, eq_iff, ◌==◌, Eq,
}
use bbn.Service.{Platform, Headers}
use bbn.Service.Auth.Revocation.{Result-cases}
use bbn.Service.TokenCache.{Cached}
use bbn.Gateway.{
  Wire, VerifyResponse, Outgoing, Method, Hosts, GatewayCalls, auth_hdr, role_guard,
  authority_guard,
}
use bbn.Gateway.Identity.{
  IsVerified, IsSent, authority_guard-IsVerified, proxy-IsSent, verified_proxy-IsSent,
}
use bbn.Gateway.Routes.{
  Access, public_access, verified_access, role_access, Plan, Route, AdminRoute, ManagerRoute,
  admin_route, manager_route, admin_get_settings, admin_get_config, admin_loc_config,
  admin_tiers_list, admin_tiers_post, admin_features_list, admin_features_post, admin_put_setting,
  admin_patch_user, admin_patch_tier, admin_patch_role, admin_patch_venue_manager, admin_tiers_put,
  admin_tiers_delete, admin_features_put, admin_features_delete, admin_users, manager_venues_list,
  manager_venues_post, manager_venue_put, manager_venue_delete, route_plan, admin_plan,
  manager_plan,
}
use bbn.Gateway.Serve.{GatewayState, real_ip, check_all, guard_then, pass_on, serve}

pub role_guard-role :
    (identity : VerifyResponse) (required : String)
    → role_guard identity required ≡ none
    → identity.role ≡ required
unfolding role_guard
role_guard-role identity required h = elim (Bool-cases (identity.role == required)) [
  | inl same ↦ (eq_iff identity.role required).0 same
  | inr other ↦ elim (Bool-cases (required == "admin")) [
    | inl admin ↦ absurd (cc (rw (role_guard, other, admin) at h))
    | inr no_admin ↦ elim (Bool-cases (required == "venue_manager")) [
      | inl manager ↦ absurd (cc (rw (role_guard, other, no_admin, manager) at h))
      | inr no_manager ↦ absurd (cc (rw (role_guard, other, no_admin, no_manager) at h))
    ]
  ]
]

admin_plan-access :
    (hosts : Hosts) (r : AdminRoute) → (admin_plan hosts r).access ≡ role_access "admin"
unfolding admin_plan
admin_plan-access hosts admin_get_settings = refl
admin_plan-access hosts admin_get_config = refl
admin_plan-access hosts admin_loc_config = refl
admin_plan-access hosts admin_tiers_list = refl
admin_plan-access hosts admin_tiers_post = refl
admin_plan-access hosts admin_features_list = refl
admin_plan-access hosts admin_features_post = refl
admin_plan-access hosts (admin_put_setting x) = refl
admin_plan-access hosts (admin_patch_user x) = refl
admin_plan-access hosts (admin_patch_tier x) = refl
admin_plan-access hosts (admin_patch_role x) = refl
admin_plan-access hosts (admin_patch_venue_manager x) = refl
admin_plan-access hosts (admin_tiers_put x) = refl
admin_plan-access hosts (admin_tiers_delete x) = refl
admin_plan-access hosts (admin_features_put x) = refl
admin_plan-access hosts (admin_features_delete x) = refl
admin_plan-access hosts (admin_users x) = refl

manager_plan-access :
    (hosts : Hosts) (r : ManagerRoute) → (manager_plan hosts r).access ≡ role_access "venue_manager"
unfolding manager_plan
manager_plan-access hosts manager_venues_list = refl
manager_plan-access hosts manager_venues_post = refl
manager_plan-access hosts (manager_venue_put x) = refl
manager_plan-access hosts (manager_venue_delete x) = refl

-- The routes with a role, and their roles.
abbrev pub staff_route : AdminRoute ⊎ ManagerRoute → Route
staff_route (inl r) = admin_route r
staff_route (inr r) = manager_route r

abbrev pub staff_role : AdminRoute ⊎ ManagerRoute → String
staff_role (inl r) = "admin"
staff_role (inr r) = "venue_manager"

module _ (w : Wire) ⦃e : Eq w.IpAddr⦄ (p : Platform) (service_secret : String) (hosts : Hosts)
    (calls : GatewayCalls w) where
  -- The request is passed on for an identity that the authority service has given, with the role that
  -- is asked for where one is.
  abbrev pub IsGranted : Access → Headers → Method → String → Option String → Outgoing → Type 0
  IsGranted public_access headers method url body req =
      IsSent w p service_secret hosts calls method url (auth_hdr headers) body none req
  IsGranted (verified_access feature) headers method url body req =
      (id : VerifyResponse) × IsVerified w p service_secret hosts calls headers feature id
      × IsSent w p service_secret hosts calls method url (auth_hdr headers) body (some id) req
  IsGranted (role_access required) headers method url body req =
      (id : VerifyResponse) × IsVerified w p service_secret hosts calls headers none id
      × (id.role ≡ required)
      × IsSent w p service_secret hosts calls method url (auth_hdr headers) body (some id) req

  guard_then-IsGranted :
      (cache : Cached) (headers : Headers) (required : String) (method : Method) (url : String)
      (body : Option String) (req : Outgoing)
      → (guard_then w p service_secret hosts calls cache headers required method url body).2
        ≡ some req
      → IsGranted (role_access required) headers method url body req
  unfolding guard_then
  guard_then-IsGranted cache headers required method url body req h =
      elim (Result-cases (authority_guard w p service_secret hosts calls cache headers none).0) [
        | inl (answer, fails) ↦ absurd (cc (rw (guard_then, fails) at h))
        | inr (id, passes) ↦ elim (Option-cases (role_guard id required)) [
          | inr (r, refuses) ↦ absurd (cc (rw (guard_then, passes, refuses) at h))
          | inl admits ↦ (
            id,
            authority_guard-IsVerified w p service_secret hosts calls cache headers none id passes,
            role_guard-role id required admits,
            proxy-IsSent w p service_secret hosts calls _ method url (auth_hdr headers) body
                (some id) req (rw (guard_then, passes, admits) at h),
          )
        ]
      ]

  pass_on-IsGranted :
      (cache : Cached) (headers : Headers) (access : Access) (route : Plan) (body : Option String)
      (req : Outgoing)
      → route.access ≡ access
      → (pass_on w p service_secret hosts calls cache headers route body).2 ≡ some req
      → IsGranted access headers route.method route.url body req
  unfolding pass_on
  pass_on-IsGranted cache headers public_access route body req is h =
      proxy-IsSent w p service_secret hosts calls cache route.method route.url (auth_hdr headers)
        body none req (rw (pass_on, is) at h)
  pass_on-IsGranted cache headers (verified_access feature) route body req is h =
      verified_proxy-IsSent w p service_secret hosts calls cache headers route.method route.url body
        feature req (rw (pass_on, is) at h)
  pass_on-IsGranted cache headers (role_access required) route body req is h =
      guard_then-IsGranted cache headers required route.method route.url body req
        (rw (pass_on, is) at h)

  -- Whenever a route passes a request on, each of its limiters has admitted the caller's address, the
  -- request goes to the route's URL, which starts with that of an internal service, and it has the
  -- method of the route and, on a route that is not public, the headers of an identity that the
  -- authority service has given for the caller's token, with the feature or the role of the route.
  pub serve-IsGranted :
      (state : GatewayState w) (times : ℕ → ℕ) (route : Route) (headers : Headers) (body : String)
      (req : Outgoing)
      → (serve w p service_secret hosts calls state times route headers body).2 ≡ some req
      → (let plan = route_plan hosts route in
          ((check_all w state times 0 (real_ip w headers) plan.limiters).1 ≡ true)
          × IsGranted plan.access headers plan.method plan.url
              (if plan.has_body then some body else none)
              req)
  unfolding serve
  serve-IsGranted state times route headers body req h =
      let plan = route_plan hosts route in
      elim (Bool-cases (check_all w state times 0 (real_ip w headers) plan.limiters).1) [
        | inr full ↦ absurd (cc (rw (serve, full) at h))
        | inl admits ↦ (
          admits,
          pass_on-IsGranted _ headers plan.access plan (if plan.has_body then some body else none)
              req refl (rw (serve, admits) at h),
        )
      ]

  -- A request of an administrator's route is passed on only for an identity that the authority service
  -- has given with the role admin, and one of a manager's route only for one with the role
  -- venue_manager.
  pub serve-role :
      (state : GatewayState w) (times : ℕ → ℕ) (route : AdminRoute ⊎ ManagerRoute)
      (headers : Headers) (body : String) (req : Outgoing)
      → (serve w p service_secret hosts calls state times (staff_route route) headers body).2
        ≡ some req
      → (id : VerifyResponse) × IsVerified w p service_secret hosts calls headers none id
        × (id.role ≡ staff_role route)
  unfolding route_plan
  serve-role state times (inl r) headers body req h =
      let (admits, granted) = serve-IsGranted state times (admin_route r) headers body req h in
      let (id, verified, role, sent) = (rw (admin_plan-access hosts r) at granted) in
      (id, verified, role)
  serve-role state times (inr r) headers body req h =
      let (admits, granted) = serve-IsGranted state times (manager_route r) headers body req h in
      let (id, verified, role, sent) = (rw (manager_plan-access hosts r) at granted) in
      (id, verified, role)
