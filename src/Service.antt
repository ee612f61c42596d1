-- ===== src/Service.antt =====
-- What the services share: services/common/src/auth.rs, services/common/src/models.rs,
-- services/common/src/mongo.rs and services/common/src/service_token.rs.
pub mod Auth
pub mod TokenCache
pub mod Issue
pub mod Sample
mod Tests
use bbn.Prelude.{
  ℕ, Bool, true, false, not, ◌&&◌, ◌||◌, List, [], ◌∷◌, Option, none, some, if◌then◌else◌, String,
  string_eq, ◌==◌, ltb, ◌-◌, ◌^◌, ◌+◌,
}
use bbn.Prelude.Int.{ℤ, pos, negsuc}

-- The HTTP status codes that the handlers answer with.
pub data StatusCode : Type 0 where
  ok_200 created_201 bad_request unauthorized forbidden not_found conflict bad_gateway
        too_many_requests internal_server_error service_unavailable :
      StatusCode

-- An answer that is not a success: the status, and the fields `error` and `code` of its body.
pub record Refusal : Type 0 where
  pub status : StatusCode
  pub error : String
  pub code : Option String

pub data Result (E A : Type 0) : Type 0 where
  err : E → Result E A
  ok : A → Result E A

-- An error of the database, by whether its text has "E11000", the code of a duplicate key.
pub data DbError : Type 0 where
  duplicate_key other_error : DbError

abbrev pub refuse : StatusCode → String → Refusal
refuse status error = record { status = status; error = error; code = none }

abbrev pub refuse_code : StatusCode → String → String → Refusal
refuse_code status error code = record { status = status; error = error; code = some code }

abbrev pub unwrap_or {ℓ} : {A : Type ℓ} → A → Option A → A
unwrap_or a none = a
unwrap_or a (some x) = x

-- `n as i32` for a u32
abbrev pub as_i32 : ℕ → ℤ
as_i32 n = if ltb n (2 ^ 31) then pos n else negsuc (2 ^ 32 - 1 - n)

-- `z as u32` for an i32
abbrev pub as_u32 : ℤ → ℕ
as_u32 (pos n) = n
as_u32 (negsuc n) = 2 ^ 32 - 1 - n

-- `UserTv`
pub record UserTv : Type 0 where
  pub token_version : Option ℤ

pub record ServiceClaims : Type 0 where
  pub sub : String
  pub role : String

pub record UserClaims : Type 0 where
  pub sub : String
  pub role : String
  pub tier : Option String
  pub tv : Option ℕ
  pub nickname : Option String
  pub age : Option ℕ
  pub sex : Option String
  pub account_type : String

pub record GatewayRadii : Type 0 where
  pub nearby_m : ℕ
  pub message_m : Option ℕ

pub record GatewayIdentity : Type 0 where
  pub sub : String
  pub role : String
  pub account_type : String
  pub tier : String
  pub tv : ℕ
  pub features : List String
  pub radii : GatewayRadii

-- The code that the services call and do not hold: the `bson` object ids, `jsonwebtoken`, which also
-- checks the expiry at the time of the call, `serde_json`, and the collection `users`.
pub record Platform : Type 1 where
  pub ObjectId : Type 0
  pub from_str : String → Option ObjectId
  pub to_hex : ObjectId → String
  pub decode_service : String → String → Option ServiceClaims
  pub decode_user : String → String → Option UserClaims
  pub encode_service : String → ℕ → ℕ → String → Option String
  pub parse_features : String → Option (List String)
  pub parse_radii : String → Option GatewayRadii
  pub find_user : ObjectId → Result DbError (Option UserTv)

-- `safe_object_id`
abbrev pub safe_object_id : (p : Platform) → String → Option p.ObjectId
safe_object_id p id = p.from_str id

-- The value of a header, where the request has it and it is text.
abbrev pub Headers : Type 0
Headers = String → Option String

-- `matches!(role, "user" | "admin" | "venue_manager")`
abbrev pub is_registered_role : String → Bool
is_registered_role role = role == "user" || role == "admin" || role == "venue_manager"

abbrev pub internal : Refusal
internal = refuse internal_server_error "Internal error."

-- `cursor.try_collect().await.unwrap_or_default()`
abbrev pub collected {ℓ} : {A : Type ℓ} → Option (List A) → List A
collected xs = unwrap_or [] xs

-- `xs.iter().filter_map(g).collect()`
abbrev pub filter_map {ℓ κ} : {A : Type ℓ} → {B : Type κ} → (A → Option B) → List A → List B
filter_map g [] = []
filter_map g (x ∷ xs) = elim (g x) [ none ↦ filter_map g xs | some y ↦ y ∷ filter_map g xs ]
