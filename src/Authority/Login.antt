-- ===== src/Authority/Login.antt =====
-- The login of services/authority-service/src/auth.rs: its sessions, `auth_login_start` and
-- `auth_login_finish`. The OPAQUE protocol, Base64 and the keyed hash are parameters; an `Instant` is a
-- number of milliseconds.
use Prim.Native.String.{len}
use bbn.Prelude.{
  ℕ, ◌-◌, Bool, not, ◌&&◌, ◌||◌, List, [], ◌∷◌, Option, none, some, if◌then◌else◌, String,
  string_eq, eqb, ltb, contains, keep,
}
use bbn.Prelude.Int.{ℤ, pos, pos_part}
use bbn.Prelude.Maps.{lookup, insert, remove}
use bbn.Text.{is_empty, all_chars, is_ascii_digit, in_range}
use bbn.Service.{
  internal, bad_request, unauthorized, Refusal, refuse, Result, err, ok, DbError, Platform,
  ServiceClaims, unwrap_or,
}
use bbn.Service.Issue.{IssuedUserClaims, UserTokenParams, issue_user_token}

-- The calls of the OPAQUE library and of Base64. The server's set-up and the random numbers of a start
-- are arguments of `start`.
pub record Opaque : Type 1 where
  pub Bytes : Type 0
  pub decode : String → Option Bytes
  pub encode : Bytes → String
  pub CredentialRequest : Type 0
  pub read_request : Bytes → Option CredentialRequest
  pub PasswordFile : Type 0
  pub read_file : Bytes → Option PasswordFile
  pub ServerLogin : Type 0
  pub Randomness : Type 0
  pub start :
      Randomness → Option PasswordFile → CredentialRequest → String → Option (ServerLogin × Bytes)
  pub CredentialFinalization : Type 0
  pub read_finalization : Bytes → Option CredentialFinalization
  -- whether `finish` gives no error
  pub finish : ServerLogin → CredentialFinalization → Bool

abbrev pub login_session_ttl : ℕ
login_session_ttl = 120000

abbrev pub is_valid_email_hash : String → Bool
is_valid_email_hash h =
    eqb (len h) 64 && all_chars (λ c. is_ascii_digit c || in_range 97 102 c || in_range 65 70 c) h

abbrev pub valid_user_tiers : List String
valid_user_tiers = "regular" ∷ "premium" ∷ "unrestricted" ∷ []

abbrev pub valid_user_roles : List String
valid_user_roles = "user" ∷ "admin" ∷ "venue_manager" ∷ []

-- The value, if it is one of the list, or else the default.
abbrev pub sanitize : List String → String → Option String → String
sanitize valid default_ none = default_
sanitize valid default_ (some t) = if contains valid t then t else default_

abbrev pub sanitize_tier : Option String → String
sanitize_tier = sanitize valid_user_tiers "regular"

abbrev pub sanitize_role : Option String → String
sanitize_role = sanitize valid_user_roles "user"

pub record LoginStartBody : Type 0 where
  pub email_hash : String
  pub credential_request : String

pub record LoginFinishBody : Type 0 where
  pub email_hash : String
  pub credential_finalization : String
  pub state_token : String
  pub guest_id : Option String

pub record LoginAnswer : Type 0 where
  pub token : String
  pub nickname : String
  pub sex : String
  pub tier : String
  pub role : String
  pub account_type : String

abbrev pub invalid_email_hash : Refusal
invalid_email_hash = refuse bad_request "Invalid emailHash."

abbrev pub invalid_credentials : Refusal
invalid_credentials = refuse unauthorized "Invalid credentials."

module _ (o : Opaque) (p : Platform) where
  pub record LoginSession : Type 0 where
    pub state : o.ServerLogin
    pub created : ℕ

  abbrev pub LoginSessions : Type 0
  LoginSessions = List (String × LoginSession)

  pub record UserForLogin : Type 0 where
    pub id : p.ObjectId
    pub nickname : String
    pub sex : Option String
    pub age : Option ℤ
    pub tier : Option String
    pub role : Option String
    pub account_type : String
    pub token_version : Option ℤ
    pub opaque_record : o.Bytes

  -- The clock, the random numbers, the keyed hash, the database and the signing of tokens. The reading
  -- of the clock is one for all sessions of a pass.
  pub record LoginCalls : Type 0 where
    pub retain_now : ℕ
    pub created_now : ℕ
    pub token_now : ℕ
    pub state_id : String
    pub randomness : o.Randomness
    pub email_db_hash : String → String → String
    pub find_user : String → Result DbError (Option UserForLogin)
    pub encode_token : IssuedUserClaims → String → Option String
    pub user_jwt_ttl_secs : ℕ

  -- `sessions.retain`
  abbrev pub is_live : ℕ → String × LoginSession → Bool
  is_live now s = ltb (now - s.1.created) login_session_ttl

  abbrev pub found_user : Result DbError (Option UserForLogin) → Option UserForLogin
  found_user (err _) = none
  found_user (ok user) = user

  abbrev pub file_of : Option UserForLogin → Option o.PasswordFile
  file_of none = none
  file_of (some user) = o.read_file user.opaque_record

  -- The answer is the credential response and the token of the session.
  unfoldable pub auth_login_start :
      LoginCalls
      → String
      → LoginSessions
      → Result Refusal ServiceClaims
      → LoginStartBody
      → Result Refusal (String × String) × LoginSessions
  auth_login_start calls pepper sessions (err r) body = (err r, sessions)
  auth_login_start calls pepper sessions (ok svc) body =
      if not (is_valid_email_hash body.email_hash)
      then (err invalid_email_hash, sessions)
      else elim (o.decode body.credential_request) [
        | none ↦ (err (refuse bad_request "Invalid credentialRequest."), sessions)
        | some req_bytes ↦ elim (o.read_request req_bytes) [
          | none ↦ (err (refuse bad_request "Malformed credentialRequest."), sessions)
          | some cred_request ↦
              let db_key = calls.email_db_hash body.email_hash pepper in
              let password_file = file_of (found_user (calls.find_user db_key)) in
              elim (o.start calls.randomness password_file cred_request db_key) [
                | none ↦ (err internal, sessions)
                | some (state, message) ↦ (
                  ok (o.encode message, calls.state_id),
                  insert calls.state_id (record { state = state; created = calls.created_now })
                      (keep (is_live calls.retain_now) sessions),
                )
              ]
        ]
      ]

  -- The token of a user who has logged in.
  abbrev pub login_params : LoginCalls → UserForLogin → UserTokenParams
  login_params calls user = record {
    sub = p.to_hex user.id;
    nickname = user.nickname;
    sex = unwrap_or "" user.sex;
    age = elim user.age [ none ↦ none | some a ↦ some (pos_part a) ];
    role = sanitize_role user.role;
    tier = sanitize_tier user.tier;
    tv = pos_part (unwrap_or (pos 0) user.token_version);
    account_type = user.account_type;
    ttl_secs = some calls.user_jwt_ttl_secs;
  }

  abbrev pub login_answer : UserForLogin → String → LoginAnswer
  login_answer user token = record {
    token = token;
    nickname = user.nickname;
    sex = unwrap_or "" user.sex;
    tier = sanitize_tier user.tier;
    role = sanitize_role user.role;
    account_type = user.account_type;
  }

  -- The guest whose location and session are deleted.
  abbrev pub old_guest : Option String → Option String
  old_guest none = none
  old_guest (some guest_id) = if is_empty guest_id then none else some guest_id

  -- The part after the session is taken out: the answer, and the guest who is deleted.
  unfoldable pub finish_session :
      LoginCalls
      → String
      → String
      → LoginSession
      → LoginFinishBody
      → Result Refusal LoginAnswer × Option String
  unfolding issue_user_token
  finish_session calls pepper jwt_secret session body =
      elim (o.decode body.credential_finalization) [
        | none ↦ (err (refuse bad_request "Invalid credentialFinalization."), none)
        | some fin_bytes ↦ elim (o.read_finalization fin_bytes) [
          | none ↦ (err (refuse bad_request "Malformed credentialFinalization."), none)
          | some finalization ↦
              if not (o.finish session.state finalization)
              then (err invalid_credentials, none)
              else elim (calls.find_user (calls.email_db_hash body.email_hash pepper)) [
                | err _ ↦ (err internal, none)
                | ok none ↦ (err invalid_credentials, none)
                | ok (some user) ↦
                    elim (issue_user_token calls.encode_token (login_params calls user) jwt_secret
                      calls.token_now) [
                        | none ↦ (err internal, old_guest body.guest_id)
                        | some token ↦ (ok (login_answer user token), old_guest body.guest_id)
                      ]
              ]
        ]
      ]

  unfoldable pub auth_login_finish :
      LoginCalls
      → String
      → String
      → LoginSessions
      → Result Refusal ServiceClaims
      → LoginFinishBody
      → Result Refusal LoginAnswer × LoginSessions × Option String
  unfolding finish_session
  auth_login_finish calls pepper jwt_secret sessions (err r) body = (err r, sessions, none)
  auth_login_finish calls pepper jwt_secret sessions (ok svc) body =
      if not (is_valid_email_hash body.email_hash)
      then (err invalid_email_hash, sessions, none)
      else let live = keep (is_live calls.retain_now) sessions in
        elim (lookup body.state_token live) [
          | none ↦ (err (refuse bad_request "Login session expired or not found."), live, none)
          | some session ↦
              let (answer, guest) = finish_session calls pepper jwt_secret session body in
              (answer, remove body.state_token live, guest)
        ]
