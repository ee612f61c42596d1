-- ===== src/Gateway/Tests.antt =====
-- The gateway and its theorems at concrete inputs. An address is its text, and the lists and radii are
-- printed to one text each.
use bbn.Prelude.{
  ◌≡◌, ◌≤◌, ◌+◌, ◌*◌, refl, true, [], ◌∷◌, Option, length, none, some, if◌then◌else◌, String,
  string_eq, ◌==◌, inl, arith,
}
use bbn.Prelude.Maps.{lookup}
use bbn.Text.Decimal.{u32_to_string, show_digits}
use bbn.Rate.{check, new, ws_check_send, ws_send_limit}
use bbn.Service.{Platform, GatewayIdentity, Headers, ok}
use bbn.Service.Auth.{authed_by_gateway}
use bbn.Service.TokenCache.{get}
use bbn.Service.Sample.{sample, ann}
use bbn.Gateway.{
  Wire, Outgoing, verified, replied, Hosts, GatewayCalls, get_method, verified_proxy,
  authority_guard, proxy, outgoing, identity_headers, allowed, starts_with, any, refused,
  rate_limited, role_guard,
}
use bbn.Gateway.Identity.{IsVerified, Arrives, IsReadable, verified_proxy-authed_by_gateway}
use bbn.Gateway.Routes.{
  users_route, users_get_me, route_plan, users_plan, admin_plan, admin_tiers_list,
}
use bbn.Gateway.Serve.{GatewayState, serve, check_all, check_lim, pass_on, real_ip, guard_then}
use bbn.Gateway.Socket.{
  Fields, text_frame, connect, receive, World, react, initially, afterwards, origin_ok,
  authenticate, action_of, on_action,
}
use bbn.Gateway.Sound.{IsSound, Reachable-IsSound}
use bbn.Gateway.Posts.{posts, react_all, react_all-posts_bound}
use bbn.Gateway.Access.{IsGranted, serve-IsGranted, serve-role}

abbrev wire : Wire
wire = record {
  Value = String;
  empty_object = "{}";
  features_to_json = λ fs. some "[]";
  radii_to_json = λ r. some "{}";
  IpAddr = String;
  parse_ip = λ s. some s;
  localhost = "127.0.0.1";
  is_header_value = λ s. true;
}

-- A platform that reads one list and one record of radii.
abbrev platform : Platform
platform = record sample {
  parse_features = λ s. some [];
  parse_radii = λ s. some (record { nearby_m = 0; message_m = none });
}

abbrev hosts : Hosts
hosts = record {
  authority_url = "http://authority";
  user_url = "http://users";
  loc_url = "http://location";
  msg_url = "http://messages";
  fav_url = "http://favourites";
  blocks_url = "http://blocks";
  migration_url = "http://migration";
}

-- Everybody is Ann, as an administrator.
abbrev boss : GatewayIdentity
boss = record ann { role = "admin" }

abbrev calls : GatewayCalls wire
calls = record {
  guard_now = 1;
  proxy_now = 1;
  verify = λ svc token feature. verified 200 (some boss) none;
  send = λ req. replied 200 (some "sent");
}

abbrev headers : Headers
headers name = if name == "authorization" then some "Bearer jwt" else none

abbrev req : Outgoing
req = outgoing wire "gateway" get_method "http://users/users/me" "Bearer jwt" none (some boss)

abbrev received : Headers
received name = lookup name req.headers

arrives : Arrives wire platform "s" hosts calls "j" received req
unfolding outgoing identity_headers
arrives name value h = h

printed : u32_to_string 4294967295 ≡ "4294967295"
unfolding u32_to_string show_digits
printed = refl

readable :
    (id : GatewayIdentity)
    → IsVerified wire platform "s" hosts calls headers none id
    → IsReadable wire platform "s" hosts calls "j" received id
unfolding show_digits
readable id (svc, status, value, reply, good) =
    let same : boss ≡ id = cc in rw (← same) ((omega arith), refl, refl)

verified_proxy-authed_by_gateway_example :
    (id : GatewayIdentity) × IsVerified wire platform "s" hosts calls headers none id
    × (authed_by_gateway platform "j" received ≡ ok id)
    × (req.url ≡ "http://users/users/me")
    × (any (starts_with req.url) (allowed hosts) ≡ true)
unfolding verified_proxy authority_guard proxy get outgoing identity_headers u32_to_string
    show_digits
verified_proxy-authed_by_gateway_example =
    verified_proxy-authed_by_gateway wire platform "s" hosts calls "j" received none headers
      get_method "http://users/users/me" none none req refl arrives readable

abbrev idle : GatewayState wire
idle = record {
  lim_guest = new 5 60000;
  lim_register = new 5 60000;
  lim_login = new 5 60000;
  lim_api = new 5 60000;
  lim_msg = new 5 60000;
  svc_token_cache = none;
}

-- The first request of a caller, and one of a caller who is over the limit.
served :
    (serve wire platform "s" hosts calls idle (λ i. 1000) (users_route users_get_me) headers "").2
    ≡ some req
unfolding serve check_all check_lim check pass_on route_plan users_plan verified_proxy
    authority_guard proxy get outgoing real_ip identity_headers
served = refl

limited :
    (serve wire platform "s" hosts calls
      (record idle { lim_api = new 0 60000 })
      (λ i. 1000)
      (users_route users_get_me)
      headers
      "").0
    ≡ refused rate_limited
unfolding serve check_all check_lim check pass_on route_plan users_plan verified_proxy
    authority_guard proxy get outgoing real_ip identity_headers
limited = refl

serve-IsGranted_example :
    ((check_all wire idle
        (λ i. 1000)
        0
        (real_ip wire headers)
        (route_plan hosts (users_route users_get_me)).limiters).1
      ≡ true)
    × IsGranted wire platform "s" hosts calls
        (route_plan hosts (users_route users_get_me)).access
        headers
        get_method
        (route_plan hosts (users_route users_get_me)).url
        none
        req
unfolding serve check_all check_lim check pass_on route_plan users_plan verified_proxy
    authority_guard proxy get outgoing real_ip identity_headers
serve-IsGranted_example =
    serve-IsGranted wire platform "s" hosts calls idle (λ i. 1000) (users_route users_get_me)
      headers "" req refl

abbrev admin_req : Outgoing
admin_req =
    outgoing wire "gateway" get_method "http://authority/admin/tiers" "Bearer jwt" none (some boss)

serve-role_example :
    (id : GatewayIdentity) × IsVerified wire platform "s" hosts calls headers none id
    × (id.role ≡ "admin")
unfolding serve check_all check_lim check pass_on route_plan admin_plan guard_then authority_guard
    role_guard proxy get outgoing real_ip identity_headers
serve-role_example =
    serve-role wire platform "s" hosts calls idle (λ i. 1000) (inl admin_tiers_list) headers ""
      admin_req refl

abbrev nothing : Fields
nothing = record { type_ = none; token = none; user_id = none; to_user_id = none; text = none }

abbrev reader : String → Option Fields
reader s =
    if s == "hello"
    then some (record nothing { type_ = some "auth"; token = some "jwt" })
    else if s == "hi bob"
    then some (record nothing { type_ = some "send"; to_user_id = some "bob"; text = some "hi" })
    else none

abbrev site : Headers
site name = if name == "origin" then some "https://bbn" else none

abbrev Sockets : Type 0
Sockets = World sample "s" ("https://bbn" ∷ []) reader

-- A socket that Ann opens, and its message to Bob.
abbrev opened : Sockets
opened =
    react sample "s" ("https://bbn" ∷ []) reader
      (record { sessions = []; buckets = []; tasks = [] })
      (connect 7 site (some (text_frame "hello")))

abbrev sent_one : Sockets
sent_one =
    react sample "s" ("https://bbn" ∷ []) reader opened (receive 7 1000 (text_frame "hi bob"))

one_task : length sent_one.tasks ≡ 1
unfolding react origin_ok authenticate action_of on_action ws_check_send
one_task = refl

Reachable-IsSound_example : IsSound sample "s" ("https://bbn" ∷ []) reader sent_one
Reachable-IsSound_example = Reachable-IsSound sample "s" ("https://bbn" ∷ []) reader (
    afterwards opened (receive 7 1000 (text_frame "hi bob")) (
      afterwards (record { sessions = []; buckets = []; tasks = [] })
        (connect 7 site (some (text_frame "hello"))) initially))

react_all-posts_bound_example :
    posts
      (react_all sample "s"
        ("https://bbn" ∷ [])
        reader
        opened
        (receive 7 1000 (text_frame "hi bob") ∷ receive 7 1001 (text_frame "hi bob") ∷ [])).tasks
      "ann"
    ≤ posts opened.tasks "ann" + 2 * ws_send_limit
unfolding react origin_ok authenticate action_of on_action ws_check_send
react_all-posts_bound_example =
    react_all-posts_bound sample "s" ("https://bbn" ∷ []) reader opened
      (receive 7 1000 (text_frame "hi bob") ∷ receive 7 1001 (text_frame "hi bob") ∷ []) "ann" 1000
      (omega arith) ((omega arith, omega arith), ((omega arith, omega arith), tt))
