-- ===== src/Authority/Session.antt =====
-- What a login of services/authority-service/src/auth.rs rests on.
use mathlib.Core.Path.{subst}
use bbn.Prelude.{
  ap, ◌∙◌, sym, ◌-◌, ◌<◌, ◌≡◌, refl, Bool, true, List, [], ◌∷◌, Option, none, some, arith,
  Bool-cases, Option-cases, inl, inr, String, string_eq, eq_iff, ◌==◌, contains, keep, All,
}
use bbn.Prelude.Maps.{lookup, remove, lookup-remove, All-lookup}
use bbn.Service.{Refusal, Result, err, ok, Platform, ServiceClaims}
use bbn.Service.Auth.Revocation.{Result-cases}
use bbn.Service.Issue.{issue_user_token}
use bbn.Authority.Login.{
  Opaque, login_session_ttl, is_valid_email_hash, valid_user_tiers, valid_user_roles, sanitize,
  LoginFinishBody, LoginAnswer, LoginSession, LoginSessions, UserForLogin, LoginCalls, is_live,
  login_params, login_answer, finish_session, auth_login_finish,
}

All-keep {ℓ} :
    {A : Type ℓ} (test : A → Bool) (xs : List A) → All (λ x. test x ≡ true) (keep test xs)
All-keep test [] = tt
All-keep test (x ∷ xs) = elim (Bool-cases (test x)) [
  | inl passes ↦ rw passes (passes, All-keep test xs)
  | inr fails ↦ rw fails (All-keep test xs)
]

contains-sanitize :
    (valid : List String) (default_ : String) (value : Option String)
    → contains valid default_ ≡ true
    → contains valid (sanitize valid default_ value) ≡ true
contains-sanitize valid default_ none h = h
contains-sanitize valid default_ (some t) h = elim (Bool-cases (contains valid t)) [
  | inl known ↦ rw known known
  | inr unknown ↦ rw unknown h
]

module _ (o : Opaque) (p : Platform) (calls : LoginCalls o p) (pepper jwt_secret : String)
    (body : LoginFinishBody) where
  -- The session accepts the finalization, and the token is that of the user whose e-mail the request
  -- names.
  abbrev pub IsFinished : LoginSession o p → LoginAnswer → Type 0
  IsFinished session answer =
      (bytes : o.Bytes) × (finalization : o.CredentialFinalization) × (user : UserForLogin o p)
      × (o.decode body.credential_finalization ≡ some bytes)
      × (o.read_finalization bytes ≡ some finalization)
      × (o.finish session.state finalization ≡ true)
      × (calls.find_user (calls.email_db_hash body.email_hash pepper) ≡ ok (some user))
      × (issue_user_token calls.encode_token (login_params o p calls user) jwt_secret
            calls.token_now
          ≡ some answer.token)
      × (answer ≡ login_answer o p user answer.token)

  finish_session-IsFinished :
      (session : LoginSession o p) (answer : LoginAnswer)
      → (finish_session o p calls pepper jwt_secret session body).0 ≡ ok answer
      → IsFinished session answer
  unfolding finish_session
  finish_session-IsFinished session answer h =
      elim (Option-cases (o.decode body.credential_finalization)) [
        | inl bad ↦ absurd (cc (rw (finish_session, bad) at h))
        | inr (bytes, decoded) ↦ elim (Option-cases (o.read_finalization bytes)) [
          | inl bad ↦ absurd (cc (rw (finish_session, decoded, bad) at h))
          | inr (fin, read) ↦ elim (Bool-cases (o.finish session.state fin)) [
            | inr wrong ↦ absurd (cc (rw (finish_session, decoded, read, wrong) at h))
            | inl right ↦
                elim (Result-cases (calls.find_user (calls.email_db_hash body.email_hash pepper))) [
                  | inl (e, fails) ↦
                      absurd (cc (rw (finish_session, decoded, read, right, fails) at h))
                  | inr (found, reply) ↦ elim (Option-cases found) [
                    | inl gone ↦
                        absurd (cc (rw (finish_session, decoded, read, right, reply, gone) at h))
                    | inr (user, there) ↦
                        elim (Option-cases (
                          issue_user_token calls.encode_token (login_params o p calls user)
                            jwt_secret calls.token_now)) [
                              | inl failed ↦ absurd (
                                  cc (
                                    rw (finish_session, decoded, read, right, reply, there, failed)
                                      at h))
                              | inr (token, signed) ↦
                                  let same : ok (login_answer o p user token) ≡ ok answer =
                                    rw (finish_session, decoded, read, right, reply, there, signed)
                                      at h in
                                  let e : login_answer o p user token ≡ answer = cc in
                                  rw (← e) (
                                    bytes,
                                    fin,
                                    user,
                                    decoded,
                                    read,
                                    right,
                                    reply ∙ ap ok there,
                                    signed,
                                    refl,
                                  )
                            ]
                  ]
                ]
          ]
        ]
      ]

  -- The session of a login: it stands under the token of the request and is younger than its lifetime.
  abbrev pub HasSession : LoginSessions o p → LoginAnswer → Type 0
  HasSession sessions answer =
      (session : LoginSession o p) × (lookup body.state_token
          (keep (is_live o p calls.retain_now) sessions)
        ≡ some session)
      × (calls.retain_now - session.created < login_session_ttl)
      × IsFinished session answer

  -- A login that succeeds has a session under the token of the request that is younger than two
  -- minutes and whose state accepts the finalization; it signs a token for the user whom the request's
  -- hash of an e-mail address finds, with one of the three roles and one of the three tiers; and it
  -- leaves no session under that token, so the token cannot be used again.
  pub auth_login_finish-HasSession :
      (sessions : LoginSessions o p) (svc : Result Refusal ServiceClaims) (answer : LoginAnswer)
      → (auth_login_finish o p calls pepper jwt_secret sessions svc body).0 ≡ ok answer
      → HasSession sessions answer
        × (contains valid_user_roles answer.role ≡ true)
        × (contains valid_user_tiers answer.tier ≡ true)
        × (lookup body.state_token
              (auth_login_finish o p calls pepper jwt_secret sessions svc body).1
            ≡ none)
  unfolding auth_login_finish
  auth_login_finish-HasSession sessions (err r) answer h = cc
  auth_login_finish-HasSession sessions (ok svc) answer h =
      let live = keep (is_live o p calls.retain_now) sessions in
      elim (Bool-cases (is_valid_email_hash body.email_hash)) [
        | inr bad ↦ absurd (cc (rw (auth_login_finish, bad) at h))
        | inl valid ↦ elim (Option-cases (lookup body.state_token live)) [
          | inl gone ↦ absurd (cc (rw (auth_login_finish, valid, gone) at h))
          | inr (session, there) ↦
              let finished =
                finish_session-IsFinished session answer
                  (rw (auth_login_finish, valid, there) at h) in
              let young : is_live o p calls.retain_now (body.state_token, session) ≡ true =
                All-lookup (λ s. is_live o p calls.retain_now s ≡ true) live
                  (All-keep (is_live o p calls.retain_now) sessions) there in
              let user = finished.2 in
              let self : (body.state_token == body.state_token) ≡ true =
                (eq_iff body.state_token body.state_token).1 refl in
              let used_up : lookup body.state_token (remove body.state_token live) ≡ none =
                rw (lookup-remove body.state_token body.state_token live, self) refl in
              (
                (session, there, ground (arith, young), finished),
                subst (λ (a : LoginAnswer). contains valid_user_roles a.role ≡ true)
                    (sym finished.8) (contains-sanitize valid_user_roles "user" user.role refl),
                subst (λ (a : LoginAnswer). contains valid_user_tiers a.tier ≡ true)
                    (sym finished.8) (contains-sanitize valid_user_tiers "regular" user.tier refl),
                rw (auth_login_finish, valid, there) used_up,
              )
        ]
      ]
