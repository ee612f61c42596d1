-- ===== src/Service/Sample.antt =====
-- A small platform on which the tests of the services run: an object id is its text, the only valid
-- token is "jwt", whose user has the token version 3, and the only service token is "svc".
use bbn.Prelude.{none, some, if◌then◌else◌, String, string_eq, ◌==◌, []}
use bbn.Prelude.Int.{pos}
use bbn.Service.{Platform, ServiceClaims, UserClaims, ok, GatewayIdentity}

abbrev pub ann_claims : UserClaims
ann_claims = record {
  sub = "ann";
  role = "user";
  tier = some "premium";
  tv = some 3;
  nickname = none;
  age = none;
  sex = none;
  account_type = "user";
}

abbrev pub svc_claims : ServiceClaims
svc_claims = record { sub = "gateway"; role = "service" }

abbrev pub ann : GatewayIdentity
ann = record {
  sub = "ann";
  role = "user";
  account_type = "user";
  tier = "premium";
  tv = 3;
  features = [];
  radii = record { nearby_m = 0; message_m = none };
}

abbrev pub sample : Platform
sample = record {
  ObjectId = String;
  from_str = λ s. some s;
  to_hex = λ s. s;
  decode_service = λ token secret. if token == "svc" then some svc_claims else none;
  decode_user = λ token secret. if token == "jwt" then some ann_claims else none;
  encode_service = λ name exp iat secret. some name;
  parse_features = λ s. none;
  parse_radii = λ s. none;
  find_user = λ oid. ok (some (record { token_version = some (pos 3) }));
}
