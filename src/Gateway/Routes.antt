-- ===== src/Gateway/Routes.antt =====
-- The route handlers of services/gateway/src/handlers.rs, but the two health checks. Each handler is
-- one of three patterns, so a route stands for its plan: the limiters that it asks, who may use it, and
-- the request that it passes on. A query that is missing is empty.
use Prim.Native.String.{◌++◌}
use bbn.Prelude.{Bool, true, false, List, [], ◌∷◌, Option, none, some, String}
use bbn.Service.{unwrap_or}
use bbn.Gateway.{Hosts, Method, get_method, post_method, put_method, patch_method, delete_method}

pub data Limiter : Type 0 where
  guest_limiter register_limiter login_limiter api_limiter msg_limiter : Limiter

-- Everybody, the callers with an identity and a feature, where one is named, or those with a role.
pub data Access : Type 0 where
  public_access : Access
  verified_access : Option String → Access
  role_access : String → Access

pub record Plan : Type 0 where
  pub limiters : List Limiter
  pub access : Access
  pub method : Method
  pub url : String
  pub has_body : Bool

abbrev pub plan : List Limiter → Access → Method → String → Bool → Plan
plan limiters access method url has_body = record {
  limiters = limiters;
  access = access;
  method = method;
  url = url;
  has_body = has_body;
}

-- The public routes of authentication.
pub data AuthRoute : Type 0 where
  auth_guest auth_register_start auth_register_finish auth_login_start auth_login_finish : AuthRoute

unfoldable pub auth_plan : Hosts → AuthRoute → Plan
auth_plan hosts auth_guest =
    plan (guest_limiter ∷ []) public_access post_method (hosts.authority_url ++ "/auth/guest") true
auth_plan hosts auth_register_start =
    plan (register_limiter ∷ []) public_access post_method
      (hosts.authority_url ++ "/auth/register/start") true
auth_plan hosts auth_register_finish =
    plan (register_limiter ∷ []) public_access post_method
      (hosts.authority_url ++ "/auth/register/finish") true
auth_plan hosts auth_login_start =
    plan (login_limiter ∷ []) public_access post_method (hosts.authority_url ++ "/auth/login/start")
      true
auth_plan hosts auth_login_finish =
    plan (login_limiter ∷ []) public_access post_method
      (hosts.authority_url ++ "/auth/login/finish") true

-- The routes of the users service.
pub data UsersRoute : Type 0 where
  users_get_me users_put_me users_delete_me users_get_keys users_put_keys users_get_preferences
        users_put_preferences users_pw_change_start users_pw_change_finish :
      UsersRoute
  users_profile : String → UsersRoute
  users_search : Option String → UsersRoute

unfoldable pub users_plan : Hosts → UsersRoute → Plan
users_plan hosts users_get_me =
    plan (api_limiter ∷ []) (verified_access none) get_method (hosts.user_url ++ "/users/me") false
users_plan hosts users_put_me =
    plan (api_limiter ∷ []) (verified_access none) put_method (hosts.user_url ++ "/users/me") true
users_plan hosts users_delete_me =
    plan (api_limiter ∷ []) (verified_access none) delete_method (hosts.user_url ++ "/users/me")
      false
users_plan hosts users_get_keys =
    plan (api_limiter ∷ []) (verified_access none) get_method (hosts.user_url ++ "/users/me/keys")
      false
users_plan hosts users_put_keys =
    plan (api_limiter ∷ []) (verified_access none) put_method (hosts.user_url ++ "/users/me/keys")
      true
users_plan hosts users_get_preferences =
    plan (api_limiter ∷ []) (verified_access none) get_method
      (hosts.user_url ++ "/users/me/preferences") false
users_plan hosts users_put_preferences =
    plan (api_limiter ∷ []) (verified_access none) put_method
      (hosts.user_url ++ "/users/me/preferences") true
users_plan hosts users_pw_change_start =
    plan (api_limiter ∷ []) (verified_access none) post_method
      (hosts.user_url ++ "/users/me/password/start") true
users_plan hosts users_pw_change_finish =
    plan (api_limiter ∷ []) (verified_access none) post_method
      (hosts.user_url ++ "/users/me/password/finish") true
users_plan hosts (users_search q) =
    plan (api_limiter ∷ []) (verified_access none) get_method
      (hosts.user_url ++ ("/users/search?" ++ unwrap_or "" q)) false
users_plan hosts (users_profile uid) =
    plan (api_limiter ∷ []) (verified_access none) get_method
      (hosts.user_url ++ ("/users/" ++ (uid ++ "/profile"))) false

-- The routes of locations, messages and tiers.
pub data PeopleRoute : Type 0 where
  loc_put loc_delete msg_list : PeopleRoute
  msg_thread msg_send msg_delete tiers_nearby_radius tiers_msg_radius tiers_info :
      String → PeopleRoute
  loc_nearby : Option String → PeopleRoute

unfoldable pub people_plan : Hosts → PeopleRoute → Plan
people_plan hosts loc_put =
    plan (api_limiter ∷ []) (verified_access none) put_method (hosts.loc_url ++ "/location") true
people_plan hosts loc_delete =
    plan (api_limiter ∷ []) (verified_access none) delete_method (hosts.loc_url ++ "/location")
      false
people_plan hosts (loc_nearby q) =
    plan (api_limiter ∷ []) (verified_access none) get_method
      (hosts.loc_url ++ ("/location/nearby?" ++ unwrap_or "" q)) false
people_plan hosts msg_list =
    plan (api_limiter ∷ []) (verified_access (some "message_online")) get_method
      (hosts.msg_url ++ "/messages") false
people_plan hosts (msg_thread uid) =
    plan (api_limiter ∷ []) (verified_access (some "message_online")) get_method
      (hosts.msg_url ++ ("/messages/" ++ uid)) false
people_plan hosts (msg_send uid) =
    plan (api_limiter ∷ msg_limiter ∷ []) (verified_access (some "message_online")) post_method
      (hosts.msg_url ++ ("/messages/" ++ uid)) true
people_plan hosts (msg_delete id) =
    plan (api_limiter ∷ []) (verified_access (some "message_online")) delete_method
      (hosts.msg_url ++ ("/messages/" ++ id)) false
people_plan hosts (tiers_nearby_radius tier) =
    plan (api_limiter ∷ []) public_access get_method
      (hosts.authority_url ++ ("/tiers/radius/nearby/" ++ tier)) false
people_plan hosts (tiers_msg_radius tier) =
    plan (api_limiter ∷ []) public_access get_method
      (hosts.authority_url ++ ("/tiers/radius/message/" ++ tier)) false
people_plan hosts (tiers_info tier) =
    plan (api_limiter ∷ []) public_access get_method
      (hosts.authority_url ++ ("/tiers/" ++ (tier ++ "/info"))) false

-- The routes of favourites, blocks and notifications.
pub data PairRoute : Type 0 where
  fav_list blocks_list notif_list : PairRoute
  fav_is_mutual fav_add fav_remove blocks_add blocks_remove notif_delete : String → PairRoute

unfoldable pub pair_plan : Hosts → PairRoute → Plan
pair_plan hosts fav_list =
    plan (api_limiter ∷ []) (verified_access (some "manage_favourites")) get_method
      (hosts.fav_url ++ "/favourites") false
pair_plan hosts (fav_is_mutual uid) =
    plan (api_limiter ∷ []) (verified_access (some "manage_favourites")) get_method
      (hosts.fav_url ++ ("/favourites/is-mutual/" ++ uid)) false
pair_plan hosts (fav_add uid) =
    plan (api_limiter ∷ []) (verified_access (some "manage_favourites")) post_method
      (hosts.fav_url ++ ("/favourites/" ++ uid)) true
pair_plan hosts (fav_remove uid) =
    plan (api_limiter ∷ []) (verified_access (some "manage_favourites")) delete_method
      (hosts.fav_url ++ ("/favourites/" ++ uid)) false
pair_plan hosts blocks_list =
    plan (api_limiter ∷ []) (verified_access none) get_method (hosts.blocks_url ++ "/blocks") false
pair_plan hosts (blocks_add uid) =
    plan (api_limiter ∷ []) (verified_access none) post_method
      (hosts.blocks_url ++ ("/blocks/" ++ uid)) true
pair_plan hosts (blocks_remove uid) =
    plan (api_limiter ∷ []) (verified_access none) delete_method
      (hosts.blocks_url ++ ("/blocks/" ++ uid)) false
pair_plan hosts notif_list =
    plan (api_limiter ∷ []) (verified_access none) get_method (hosts.fav_url ++ "/notifications")
      false
pair_plan hosts (notif_delete id) =
    plan (api_limiter ∷ []) (verified_access none) delete_method
      (hosts.fav_url ++ ("/notifications/" ++ id)) false

-- The routes of the administrators.
pub data AdminRoute : Type 0 where
  admin_get_settings admin_get_config admin_loc_config admin_tiers_list admin_tiers_post
        admin_features_list admin_features_post :
      AdminRoute
  admin_put_setting admin_patch_user admin_patch_tier admin_patch_role admin_patch_venue_manager
        admin_tiers_put admin_tiers_delete admin_features_put admin_features_delete :
      String → AdminRoute
  admin_users : Option String → AdminRoute

unfoldable pub admin_plan : Hosts → AdminRoute → Plan
admin_plan hosts admin_get_settings =
    plan (api_limiter ∷ []) (role_access "admin") get_method (hosts.user_url ++ "/admin/settings")
      false
admin_plan hosts (admin_put_setting key) =
    plan (api_limiter ∷ []) (role_access "admin") put_method
      (hosts.user_url ++ ("/admin/settings/" ++ key)) true
admin_plan hosts (admin_users q) =
    plan (api_limiter ∷ []) (role_access "admin") get_method
      (hosts.user_url ++ ("/admin/users?" ++ unwrap_or "" q)) false
admin_plan hosts admin_get_config =
    plan (api_limiter ∷ []) (role_access "admin") get_method (hosts.user_url ++ "/admin/config")
      false
admin_plan hosts admin_loc_config =
    plan (api_limiter ∷ []) (role_access "admin") get_method (hosts.loc_url ++ "/admin/config")
      false
admin_plan hosts (admin_patch_user uid) =
    plan (api_limiter ∷ []) (role_access "admin") patch_method
      (hosts.user_url ++ ("/admin/users/" ++ uid)) true
admin_plan hosts (admin_patch_tier uid) =
    plan (api_limiter ∷ []) (role_access "admin") patch_method
      (hosts.user_url ++ ("/admin/users/" ++ (uid ++ "/tier"))) true
admin_plan hosts (admin_patch_role uid) =
    plan (api_limiter ∷ []) (role_access "admin") patch_method
      (hosts.user_url ++ ("/admin/users/" ++ (uid ++ "/role"))) true
admin_plan hosts (admin_patch_venue_manager uid) =
    plan (api_limiter ∷ []) (role_access "admin") patch_method
      (hosts.user_url ++ ("/admin/venues/" ++ (uid ++ "/manager"))) true
admin_plan hosts admin_tiers_list =
    plan (api_limiter ∷ []) (role_access "admin") get_method (hosts.authority_url ++ "/admin/tiers")
      false
admin_plan hosts admin_tiers_post =
    plan (api_limiter ∷ []) (role_access "admin") post_method
      (hosts.authority_url ++ "/admin/tiers") true
admin_plan hosts (admin_tiers_put name) =
    plan (api_limiter ∷ []) (role_access "admin") put_method
      (hosts.authority_url ++ ("/admin/tiers/" ++ name)) true
admin_plan hosts (admin_tiers_delete name) =
    plan (api_limiter ∷ []) (role_access "admin") delete_method
      (hosts.authority_url ++ ("/admin/tiers/" ++ name)) false
admin_plan hosts admin_features_list =
    plan (api_limiter ∷ []) (role_access "admin") get_method
      (hosts.authority_url ++ "/admin/features") false
admin_plan hosts admin_features_post =
    plan (api_limiter ∷ []) (role_access "admin") post_method
      (hosts.authority_url ++ "/admin/features") true
admin_plan hosts (admin_features_put name) =
    plan (api_limiter ∷ []) (role_access "admin") put_method
      (hosts.authority_url ++ ("/admin/features/" ++ name)) true
admin_plan hosts (admin_features_delete name) =
    plan (api_limiter ∷ []) (role_access "admin") delete_method
      (hosts.authority_url ++ ("/admin/features/" ++ name)) false

-- The routes of the managers of venues.
pub data ManagerRoute : Type 0 where
  manager_venues_list manager_venues_post : ManagerRoute
  manager_venue_put manager_venue_delete : String → ManagerRoute

unfoldable pub manager_plan : Hosts → ManagerRoute → Plan
manager_plan hosts manager_venues_list =
    plan (api_limiter ∷ []) (role_access "venue_manager") get_method
      (hosts.user_url ++ "/manager/venues") false
manager_plan hosts manager_venues_post =
    plan (api_limiter ∷ []) (role_access "venue_manager") post_method
      (hosts.user_url ++ "/manager/venues") true
manager_plan hosts (manager_venue_put uid) =
    plan (api_limiter ∷ []) (role_access "venue_manager") put_method
      (hosts.user_url ++ ("/manager/venues/" ++ uid)) true
manager_plan hosts (manager_venue_delete uid) =
    plan (api_limiter ∷ []) (role_access "venue_manager") delete_method
      (hosts.user_url ++ ("/manager/venues/" ++ uid)) false

-- A route of the gateway.
pub data Route : Type 0 where
  auth_route : AuthRoute → Route
  users_route : UsersRoute → Route
  people_route : PeopleRoute → Route
  pair_route : PairRoute → Route
  admin_route : AdminRoute → Route
  manager_route : ManagerRoute → Route

unfoldable pub route_plan : Hosts → Route → Plan
unfolding auth_plan users_plan people_plan pair_plan admin_plan manager_plan
route_plan hosts (auth_route r) = auth_plan hosts r
route_plan hosts (users_route r) = users_plan hosts r
route_plan hosts (people_route r) = people_plan hosts r
route_plan hosts (pair_route r) = pair_plan hosts r
route_plan hosts (admin_route r) = admin_plan hosts r
route_plan hosts (manager_route r) = manager_plan hosts r
