-- ===== src/Service/Tests.antt =====
-- The theorems on the shared code of the services at concrete inputs.
use bbn.Prelude.{◌≡◌, refl, true, none, some, if◌then◌else◌, string_eq, ◌==◌}
use bbn.Text.{trim, parse_u32}
use bbn.Service.{ok, err, refuse_code, forbidden, Platform, Headers, is_registered_role}
use bbn.Service.Issue.{
  UserTokenParams, user_claims, guest_claims, issue_user_token, issue_guest_token, decoded_user,
  decoded_guest, issue_guest_token-auth_token,
}
use bbn.Service.Sample.{sample, ann_claims, ann}
use bbn.Service.TokenCache.{get, IsIssued, IsUsable, get-IsUsable}
use bbn.Service.Auth.{
  auth_token, registered_by_gateway, authed_by_gateway, bearer, check_tv, service_token,
}
use bbn.Service.Auth.Revocation.{IsVouched, registered_by_gateway-IsVouched}

abbrev headers : Headers
headers name = if name == "authorization" then some "Bearer jwt " else none

trimmed : trim "  a b " ≡ "a b"
trimmed = refl

parsed : parse_u32 "4294967295" ≡ some 4294967295
parsed = refl

too_large : parse_u32 "4294967296" ≡ none
too_large = refl

without_prefix : bearer "Bearer jwt " ≡ "jwt"
without_prefix = refl

no_service_token : (service_token sample "s" headers) ≡ (service_token sample "s" (λ _. none))
unfolding service_token
no_service_token = refl

accepted : auth_token sample "secret" headers ≡ ok ann_claims
unfolding auth_token check_tv
accepted = refl

registered : registered_by_gateway sample "secret" headers ≡ ok ann
unfolding registered_by_gateway authed_by_gateway auth_token check_tv
registered = refl

reused : (get sample "messages" "secret" (some ("messages", 160)) 154).0 ≡ some "messages"
unfolding get
reused = refl

get-IsUsable_example :
    IsIssued sample "messages" "secret"
      (get sample "messages" "secret" (some ("messages", 160)) 154).1
    × IsUsable sample "messages" "secret" 154 "messages"
get-IsUsable_example =
    get-IsUsable sample "messages" "secret" (some ("messages", 160)) 154 "messages"
      (100, refl, refl) reused

registered_by_gateway-IsVouched_example :
    (is_registered_role ann.role ≡ true) × IsVouched sample "secret" headers ann
registered_by_gateway-IsVouched_example =
    registered_by_gateway-IsVouched sample "secret" headers ann registered

-- A platform whose tokens are the ids of guests.
abbrev guests : Platform
guests = record sample { decode_user = λ token secret. some (decoded_guest (guest_claims token 0)) }

abbrev guest_headers : Headers
guest_headers name = if name == "authorization" then some "Bearer g1" else none

issued : issue_guest_token (λ c secret. some c.sub) "g1" "s" 100 ≡ some "g1"
unfolding issue_guest_token
issued = refl

issue_guest_token-auth_token_example :
    (auth_token guests "s" guest_headers ≡ ok (decoded_guest (guest_claims "g1" 100)))
    × (registered_by_gateway guests "s" guest_headers
        ≡ err (refuse_code forbidden "Registered account required." "REGISTERED_REQUIRED"))
issue_guest_token-auth_token_example =
    issue_guest_token-auth_token guests (λ c secret. some c.sub) "s" "g1" "g1" 100 guest_headers
      issued (λ _. refl) refl refl refl

abbrev params : UserTokenParams
params = record {
  sub = "ann";
  nickname = "Ann";
  sex = "f";
  age = some 30;
  role = "user";
  tier = "premium";
  tv = 3;
  account_type = "user";
  ttl_secs = none;
}

-- A platform whose only token is that of Ann.
abbrev users : Platform
users = record sample { decode_user = λ token secret. some (decoded_user (user_claims params 100)) }

issued_user : issue_user_token (λ c secret. some "jwt") params "s" 100 ≡ some "jwt"
unfolding issue_user_token
issued_user = refl
