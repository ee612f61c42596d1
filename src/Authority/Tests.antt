-- ===== src/Authority/Tests.antt =====
-- The theorems on the authority service at concrete inputs.
use bbn.Prelude.{
  ◌≤◌, ◌≡◌, refl, true, false, [], ◌∷◌, none, some, string_eq, arith, contains, ◌↔◌, ◌⊎◌, String,
  if◌then◌else◌, ◌==◌,
}
use bbn.Prelude.Maps.{IsDistinct}
use bbn.Service.{ok, err, Refusal, refuse_code, unauthorized, duplicate_key, as_i32, UserClaims}
use bbn.Service.Sample.{sample, ann_claims, svc_claims}
use bbn.Prelude.Int.{pos}
use bbn.Authority.Login.{
  LoginStartBody, auth_login_start, Opaque, UserForLogin, LoginCalls, LoginFinishBody,
  LoginSessions, valid_user_roles, valid_user_tiers, login_answer, finish_session,
  auth_login_finish,
}
use bbn.Authority.Steps.{auth_login_start-auth_login_finish}
use bbn.Authority.Session.{HasSession, auth_login_finish-HasSession}
use bbn.Service.Issue.{issue_user_token}
use bbn.Prelude.Maps.{lookup}
use bbn.Authority.Admin.{
  TierInput, FeatureInput, shift_ranks, insert_tier, tier_row, check_admin_tv, admin_refusal,
  admin_create_tier,
}
use bbn.Authority.Admin.Changes.{admin_create_tier_effect}
use bbn.Authority.Admin.Requests.{
  creates_tier, IsInvalid, IsSent, cleared, perform, IsCurrent, perform-IsCurrent,
}
use bbn.Authority.Tiers.{
  Tier, AppState, Loads, Cache, find_error, static_features, static_tiers, load_tiers,
  load_features, features_of, can, tier_rank, features_for_tier, tiers_check, allowed,
  valid_tier_name,
}
use bbn.Authority.Tiers.Caching.{load_features-IsDistinct}
use bbn.Authority.Tiers.Access.{tiers_check-features_for_tier}
use bbn.Authority.Verify.{VerifyBody, VerifyResponse, authority_verify, verify_tv, verify_feature}
use bbn.Authority.Verify.Soundness.{
  IsGranted, IsConsistent, authority_verify-IsGranted, authority_verify-IsConsistent,
}

abbrev loads : Loads
loads = record {
  tiers_at = 5;
  tiers_written = 6;
  tiers_reply = find_error;
  features_at = 7;
  features_written = 8;
  features_reply = find_error;
}

abbrev empty : AppState
empty = record { tiers_cache = none; features_cache = none }

abbrev body : VerifyBody
body = record { token = "jwt"; feature = some "message_radius" }

abbrev response : VerifyResponse
response = record {
  sub = "ann";
  role = "user";
  account_type = "user";
  tier = "premium";
  tv = 3;
  features =
      "see_map" ∷ "see_nearby" ∷ "message_online" ∷ "message_offline" ∷ "message_radius"
      ∷ "manage_favourites" ∷ [];
  radii = record { nearby_m = 23000; message_m = some 23000 };
}

verified : (authority_verify sample "secret" empty loads body).0 ≡ ok response
unfolding authority_verify verify_tv verify_feature load_tiers load_features can tier_rank
    features_for_tier
verified = refl

named : valid_tier_name "gold_2" ≡ true
unfolding valid_tier_name
named = refl

misnamed : valid_tier_name "2gold" ≡ false
unfolding valid_tier_name
misnamed = refl

abbrev cached : Cache Tier
cached = record { entries = static_tiers; expires_at = 60006 }

loaded : (load_tiers none 5 6 find_error).1 ≡ some cached
unfolding load_tiers
loaded = refl

distinct : IsDistinct static_features
unfolding load_features
distinct = load_features-IsDistinct none 0 0 find_error (λ c e. cc)

lower : tier_rank "regular" ≤ tier_rank "premium"
unfolding tier_rank
lower = omega arith

may : can "regular" "message_radius" static_features ≡ true
unfolding can tier_rank
may = refl

tiers_check-features_for_tier_example :
    ((tiers_check empty loads (some "guest") (some "see_map")).0 ≡ allowed)
    ↔ (contains (features_for_tier "guest" (features_of empty loads).0) "see_map" ≡ true)
tiers_check-features_for_tier_example =
    tiers_check-features_for_tier empty loads "guest" "see_map" (λ c e. cc)

authority_verify-IsGranted_example : IsGranted sample "secret" empty loads body response
authority_verify-IsGranted_example =
    authority_verify-IsGranted sample "secret" empty loads body response (λ c e. cc) verified

authority_verify-IsConsistent_example : IsConsistent sample "secret" empty loads response
authority_verify-IsConsistent_example =
    authority_verify-IsConsistent sample "secret" empty loads body response (λ c e. cc) verified
      refl

-- A token of an earlier version, and the current one.
abbrev old_admin : UserClaims
old_admin = record ann_claims { role = "admin"; tv = some 2 }

abbrev admin : UserClaims
admin = record ann_claims { role = "admin" }

abbrev gold : TierInput
gold = record {
  name = some "gold";
  label = "Gold";
  cls = "warning";
  rank = 2;
  nearby_radius_m = 30000;
  message_radius_m = none;
}

abbrev dark_mode : FeatureInput
dark_mode = record {
  name = some "dark_mode";
  label = "Dark Mode";
  description = "Dark colours.";
  min_tier = "guest";
}

abbrev token_revoked : Refusal
token_revoked = refuse_code unauthorized "Token revoked." "TOKEN_REVOKED"

refused : admin_refusal sample empty old_admin ≡ some token_revoked
unfolding check_admin_tv
refused = refl

perform-IsCurrent_example :
    ((perform sample empty admin (creates_tier gold (ok tt)) ≡ (empty, []))
      × ((¬ IsCurrent sample empty admin) ⊎ IsInvalid (creates_tier gold (ok tt))))
    ⊎ (IsCurrent sample empty admin
        × IsSent
            (creates_tier gold (ok tt))
            (perform sample empty admin (creates_tier gold (ok tt))).1
        × ((perform sample empty admin (creates_tier gold (ok tt))).0
            ≡ cleared (creates_tier gold (ok tt)) empty))
perform-IsCurrent_example = perform-IsCurrent sample empty admin (creates_tier gold (ok tt))

-- With the old token the same request does nothing.
stopped : perform sample empty old_admin (creates_tier gold (ok tt)) ≡ (empty, [])
unfolding admin_create_tier check_admin_tv
stopped = refl

created : (admin_create_tier sample empty admin gold (ok tt)).0 ≡ ok "gold"
unfolding admin_create_tier check_admin_tv valid_tier_name
created = refl

-- The insertion fails and the ranks were shifted all the same.
shifted_in_vain :
    (admin_create_tier sample empty admin gold (err duplicate_key)).2
    ≡ shift_ranks (pos 2) ∷ insert_tier "gold" (tier_row gold) ∷ []
unfolding admin_create_tier check_admin_tv valid_tier_name
shifted_in_vain = refl

admin_create_tier_effect_example :
    (admin_refusal sample empty admin ≡ none)
    × (gold.name ≡ some "gold")
    × (valid_tier_name "gold" ≡ true)
    × ((admin_create_tier sample empty admin gold (ok tt)).1 ≡ record empty { tiers_cache = none })
    × ((admin_create_tier sample empty admin gold (ok tt)).2
        ≡ shift_ranks (as_i32 gold.rank) ∷ insert_tier "gold" (tier_row gold) ∷ [])
admin_create_tier_effect_example =
    admin_create_tier_effect sample empty admin gold (ok tt) "gold" created

-- A protocol whose messages are plain texts.
abbrev plain : Opaque
plain = record {
  Bytes = String;
  decode = λ s. some s;
  encode = λ s. s;
  CredentialRequest = String;
  read_request = λ s. some s;
  PasswordFile = String;
  read_file = λ s. some s;
  ServerLogin = String;
  Randomness = Unit;
  start = λ r file request key. some ("secret", "challenge");
  CredentialFinalization = String;
  read_finalization = λ s. some s;
  finish = λ state answer. state == answer;
}

abbrev hash_of_ann : String
hash_of_ann = "aaaaaaaaaaaaaaaaaaaaaaaaaaaaaaaaaaaaaaaaaaaaaaaaaaaaaaaaaaaaaaaa"

abbrev ann_login : UserForLogin plain sample
ann_login = record {
  id = "ann";
  nickname = "Ann";
  sex = some "f";
  age = some (pos 30);
  tier = some "gold";
  role = some "admin";
  account_type = "user";
  token_version = none;
  opaque_record = "file";
}

abbrev login_calls : LoginCalls plain sample
login_calls = record {
  retain_now = 1000;
  created_now = 1000;
  token_now = 1;
  state_id = "state";
  randomness = tt;
  email_db_hash = λ hash pepper. hash;
  find_user = λ key. ok (if key == hash_of_ann then some ann_login else none);
  encode_token = λ claims secret. some "jwt";
  user_jwt_ttl_secs = 3600;
}

abbrev login_body : LoginFinishBody
login_body = record {
  email_hash = hash_of_ann;
  credential_finalization = "secret";
  state_token = "state";
  guest_id = none;
}

abbrev open_sessions : LoginSessions plain sample
open_sessions = ("state", record { state = "secret"; created = 500 }) ∷ []

logged_in :
    (auth_login_finish plain sample login_calls "p" "s" open_sessions (ok svc_claims) login_body).0
    ≡ ok (login_answer plain sample ann_login "jwt")
unfolding auth_login_finish finish_session issue_user_token
logged_in = refl

auth_login_finish-HasSession_example :
    HasSession plain sample login_calls "p" "s" login_body open_sessions
      (login_answer plain sample ann_login "jwt")
    × (contains valid_user_roles "admin" ≡ true)
    × (contains valid_user_tiers "regular" ≡ true)
    × (lookup "state"
          (auth_login_finish plain sample login_calls "p" "s" open_sessions
            (ok svc_claims)
            login_body).1
        ≡ none)
auth_login_finish-HasSession_example =
    auth_login_finish-HasSession plain sample login_calls "p" "s" login_body open_sessions
      (ok svc_claims) (login_answer plain sample ann_login "jwt") logged_in

-- A login that is started with another address and finished as Ann.
abbrev other_start : LoginStartBody
other_start = record {
  email_hash = "bbbbbbbbbbbbbbbbbbbbbbbbbbbbbbbbbbbbbbbbbbbbbbbbbbbbbbbbbbbbbbbb";
  credential_request = "hello";
}

auth_login_start-auth_login_finish_example :
    (auth_login_finish plain sample login_calls "p" "s"
      (auth_login_start plain sample login_calls "p" [] (ok svc_claims) other_start).1
      (ok svc_claims)
      login_body).0
    ≡ ok (login_answer plain sample ann_login "jwt")
unfolding auth_login_start issue_user_token
auth_login_start-auth_login_finish_example =
    auth_login_start-auth_login_finish plain sample login_calls "p" "s" login_body login_calls []
      svc_claims svc_claims other_start "challenge" "jwt" ann_login refl (omega arith)
      (λ session there.
        let e : record { state = "secret"; created = 1000 } ≡ session = cc in
        rw (← e) ("secret", "secret", refl, refl, refl, refl, refl))
      refl
