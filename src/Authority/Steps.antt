-- ===== src/Authority/Steps.antt =====
-- How the two steps of a login in services/authority-service/src/auth.rs meet.
use bbn.Prelude.{
  ℕ, ◌-◌, ◌<◌, ◌≡◌, refl, true, some, arith, Bool-cases, Option-cases, inl, inr, String, string_eq,
  eq_iff, ◌==◌, keep, ltb,
}
use bbn.Prelude.Maps.{lookup}
use bbn.Service.{Refusal, Result, ok, Platform, ServiceClaims}
use bbn.Service.Issue.{issue_user_token}
use bbn.Authority.Login.{
  Opaque, login_session_ttl, is_valid_email_hash, LoginStartBody, LoginFinishBody, LoginSession,
  LoginSessions, UserForLogin, LoginCalls, is_live, found_user, file_of, login_params, login_answer,
  auth_login_start, finish_session, auth_login_finish,
}

module _ (o : Opaque) (p : Platform) (calls : LoginCalls o p) (pepper : String)
    (sessions : LoginSessions o p) (svc : ServiceClaims) (body : LoginStartBody) where
  -- What a start leaves under its token, at each later pass that finds it young.
  abbrev pub IsOpened : String → Type 0
  IsOpened token =
      (session : LoginSession o p) × (lookup token
          (auth_login_start o p calls pepper sessions (ok svc) body).1
        ≡ some session)
      × ((now : ℕ)
          → now - calls.created_now < login_session_ttl
          → lookup token
              (keep (is_live o p now) (auth_login_start o p calls pepper sessions (ok svc) body).1)
            ≡ some session)

  pub auth_login_start-IsOpened :
      (message token : String)
      → (auth_login_start o p calls pepper sessions (ok svc) body).0 ≡ ok (message, token)
      → IsOpened token
  unfolding auth_login_start
  auth_login_start-IsOpened message token h =
      let db_key = calls.email_db_hash body.email_hash pepper in
      let file = file_of o p (found_user o p (calls.find_user db_key)) in
      elim (Bool-cases (is_valid_email_hash body.email_hash)) [
        | inr bad ↦ absurd (cc (rw (auth_login_start, bad) at h))
        | inl valid ↦ elim (Option-cases (o.decode body.credential_request)) [
          | inl bad ↦ absurd (cc (rw (auth_login_start, valid, bad) at h))
          | inr (bytes, decoded) ↦ elim (Option-cases (o.read_request bytes)) [
            | inl bad ↦ absurd (cc (rw (auth_login_start, valid, decoded, bad) at h))
            | inr (request, read) ↦
                elim (Option-cases (o.start calls.randomness file request db_key)) [
                  | inl bad ↦ absurd (cc (rw (auth_login_start, valid, decoded, read, bad) at h))
                  | inr ((state, reply), begun) ↦
                      let e : ◌≡◌ {A = Result Refusal (String × String)}
                          (ok (o.encode reply, calls.state_id)) (ok (message, token)) =
                        rw (auth_login_start, valid, decoded, read, begun) at h in
                      let same : calls.state_id ≡ token = cc in
                      let self : (calls.state_id == token) ≡ true =
                        (eq_iff calls.state_id token).1 same in
                      (
                        record { state = state; created = calls.created_now },
                        rw (auth_login_start, valid, decoded, read, begun, self) refl,
                        λ now young.
                            let fresh : ltb (now - calls.created_now) login_session_ttl ≡ true =
                              ground (arith, young) in
                            rw (auth_login_start, valid, decoded, read, begun, fresh, self) refl,
                      )
                ]
          ]
        ]
      ]

module _ (o : Opaque) (p : Platform) (calls : LoginCalls o p) (pepper jwt_secret : String)
    (body : LoginFinishBody) where
  -- The request proves the password of the session, and names the e-mail address of the user.
  abbrev pub Proves : LoginSession o p → UserForLogin o p → Type 0
  Proves session user =
      (bytes : o.Bytes) × (finalization : o.CredentialFinalization) × (o.decode
          body.credential_finalization
        ≡ some bytes)
      × (o.read_finalization bytes ≡ some finalization)
      × (o.finish session.state finalization ≡ true)
      × (is_valid_email_hash body.email_hash ≡ true)
      × (calls.find_user (calls.email_db_hash body.email_hash pepper) ≡ ok (some user))

  finish_session-answer :
      (session : LoginSession o p) (user : UserForLogin o p) (token : String)
      → Proves session user
      → issue_user_token calls.encode_token (login_params o p calls user) jwt_secret calls.token_now
        ≡ some token
      → (finish_session o p calls pepper jwt_secret session body).0
        ≡ ok (login_answer o p user token)
  unfolding finish_session
  finish_session-answer session user token (bytes, fin, decoded, read, right, valid, found) signed =
      rw (finish_session, decoded, read, right, found, signed) refl

  -- A login that was started is finished, for whichever user the second request names: when the
  -- second step comes within two minutes, with the token of the first one and a finalization that its
  -- session accepts, the answer is a token of the user whom the e-mail hash of the second request finds,
  -- whatever the e-mail hash of the first one was.
  pub auth_login_start-auth_login_finish :
      (starting : LoginCalls o p) (sessions : LoginSessions o p) (svc svc' : ServiceClaims)
      (started : LoginStartBody) (message token : String) (user : UserForLogin o p)
      → (auth_login_start o p starting pepper sessions (ok svc) started).0
        ≡ ok (message, body.state_token)
      → calls.retain_now - starting.created_now < login_session_ttl
      → ((session : LoginSession o p)
          → lookup body.state_token
              (auth_login_start o p starting pepper sessions (ok svc) started).1
            ≡ some session
          → Proves session user)
      → issue_user_token calls.encode_token (login_params o p calls user) jwt_secret calls.token_now
        ≡ some token
      → (auth_login_finish o p calls pepper jwt_secret
          (auth_login_start o p starting pepper sessions (ok svc) started).1
          (ok svc')
          body).0
        ≡ ok (login_answer o p user token)
  unfolding auth_login_finish
  auth_login_start-auth_login_finish starting sessions svc svc' started message token user opened
        young proves signed =
      let (session, there, stays) =
        auth_login_start-IsOpened o p starting pepper sessions svc started message body.state_token
          opened in
      let (bytes, fin, decoded, read, right, valid, found) = proves session there in
      rw (auth_login_finish, valid, stays calls.retain_now young)
        (finish_session-answer session user token (proves session there) signed)
