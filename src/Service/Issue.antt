-- ===== src/Service/Issue.antt =====
-- The tokens that are issued, and the profile in a token: services/common/src/auth.rs. `encode` is that
-- of `jsonwebtoken`, and the time is in seconds.
use bbn.Prelude.{ℕ, ◌+◌, ◌≡◌, refl, false, Option, none, some, String}
use bbn.Text.{is_empty}
use bbn.Service.{refuse_code, forbidden, err, ok, Platform, UserClaims, Headers, unwrap_or}
use bbn.Service.Auth.{bearer, auth_token, authed_by_gateway, registered_by_gateway}

abbrev pub user_token_expiry_secs : ℕ
user_token_expiry_secs = 604800

abbrev pub guest_token_expiry_secs : ℕ
guest_token_expiry_secs = 900

pub record IssuedUserClaims : Type 0 where
  pub sub : String
  pub nickname : String
  pub sex : String
  pub age : Option ℕ
  pub role : String
  pub tier : String
  pub tv : ℕ
  pub exp : ℕ
  pub iat : ℕ
  pub account_type : String

pub record IssuedGuestClaims : Type 0 where
  pub sub : String
  pub role : String
  pub tier : String
  pub account_type : String
  pub exp : ℕ
  pub iat : ℕ

pub record UserTokenParams : Type 0 where
  pub sub : String
  pub nickname : String
  pub sex : String
  pub age : Option ℕ
  pub role : String
  pub tier : String
  pub tv : ℕ
  pub account_type : String
  pub ttl_secs : Option ℕ

-- The claims that `issue_user_token` signs.
abbrev pub user_claims : UserTokenParams → ℕ → IssuedUserClaims
user_claims p now = record {
  sub = p.sub;
  nickname = p.nickname;
  sex = p.sex;
  age = p.age;
  role = p.role;
  tier = p.tier;
  tv = p.tv;
  exp = now + unwrap_or user_token_expiry_secs p.ttl_secs;
  iat = now;
  account_type = p.account_type;
}

-- The claims that `issue_guest_token` signs.
abbrev pub guest_claims : String → ℕ → IssuedGuestClaims
guest_claims guest_id now = record {
  sub = guest_id;
  role = "guest";
  tier = "guest";
  account_type = "guest";
  exp = now + guest_token_expiry_secs;
  iat = now;
}

unfoldable pub issue_user_token :
    (IssuedUserClaims → String → Option String) → UserTokenParams → String → ℕ → Option String
issue_user_token encode p secret now = encode (user_claims p now) secret

unfoldable pub issue_guest_token :
    (IssuedGuestClaims → String → Option String) → String → String → ℕ → Option String
issue_guest_token encode guest_id secret now = encode (guest_claims guest_id now) secret

pub record TokenProfile : Type 0 where
  pub sex : Option String
  pub nickname : Option String
  pub age : Option ℕ

-- `ProfileFromToken`: no check of the token's version
unfoldable pub profile_from_token : Platform → String → Headers → TokenProfile
profile_from_token p secret headers =
    elim (p.decode_user (bearer (unwrap_or "" (headers "authorization"))) secret) [
      | none ↦ record { sex = none; nickname = none; age = none }
      | some c ↦ record { sex = c.sex; nickname = c.nickname; age = c.age }
    ]

-- The claims of a user's token as they are decoded.
abbrev pub decoded_user : IssuedUserClaims → UserClaims
decoded_user c = record {
  sub = c.sub;
  role = c.role;
  tier = some c.tier;
  tv = some c.tv;
  nickname = some c.nickname;
  age = c.age;
  sex = some c.sex;
  account_type = c.account_type;
}

-- The claims of a guest's token as they are decoded.
abbrev pub decoded_guest : IssuedGuestClaims → UserClaims
decoded_guest c = record {
  sub = c.sub;
  role = c.role;
  tier = some c.tier;
  tv = none;
  nickname = none;
  age = none;
  sex = none;
  account_type = c.account_type;
}

-- If decoding gives back what was signed, a request with a guest's token and without the gateway's
-- headers is accepted as that guest by `AuthToken`, without a look at the database, and refused with
-- 403 by `RegisteredByGateway`.
pub issue_guest_token-auth_token :
    (p : Platform) (encode : IssuedGuestClaims → String → Option String)
    (secret guest_id token : String) (now : ℕ) (headers : Headers)
    → issue_guest_token encode guest_id secret now ≡ some token
    → (encode (guest_claims guest_id now) secret ≡ some token
        → p.decode_user token secret ≡ some (decoded_guest (guest_claims guest_id now)))
    → bearer (unwrap_or "" (headers "authorization")) ≡ token
    → is_empty token ≡ false
    → headers "x-auth-sub" ≡ none
    → (auth_token p secret headers ≡ ok (decoded_guest (guest_claims guest_id now)))
      × (registered_by_gateway p secret headers
          ≡ err (refuse_code forbidden "Registered account required." "REGISTERED_REQUIRED"))
unfolding issue_guest_token auth_token registered_by_gateway authed_by_gateway
issue_guest_token-auth_token p encode secret guest_id token now headers issued decodes carried full
      direct =
    let claims = decoded_guest (guest_claims guest_id now) in
    let decoded : p.decode_user token secret ≡ some claims = decodes issued in
    let accepted : auth_token p secret headers ≡ ok claims =
      rw (auth_token, carried, full, decoded) refl in
    (accepted, rw (registered_by_gateway, authed_by_gateway, direct, accepted) refl)

-- If decoding gives back what was signed, the profile that is read from a request with a user's token
-- is the one that the token was issued with.
pub issue_user_token-profile_from_token :
    (p : Platform) (encode : IssuedUserClaims → String → Option String) (params : UserTokenParams)
    (secret token : String) (now : ℕ) (headers : Headers)
    → issue_user_token encode params secret now ≡ some token
    → (encode (user_claims params now) secret ≡ some token
        → p.decode_user token secret ≡ some (decoded_user (user_claims params now)))
    → bearer (unwrap_or "" (headers "authorization")) ≡ token
    → profile_from_token p secret headers
      ≡ record { sex = some params.sex; nickname = some params.nickname; age = params.age }
unfolding issue_user_token profile_from_token
issue_user_token-profile_from_token p encode params secret token now headers issued decodes
      carried =
    rw (profile_from_token, carried, decodes issued) refl
