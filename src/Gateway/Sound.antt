-- ===== src/Gateway/Sound.antt =====
-- What the sockets of messages start.
use bbn.Prelude.{
  ℕ, ◌≡◌, refl, true, List, Option, none, some, Bool-cases, Option-cases, inl, inr, String,
  string_eq, nat_eq, ◌==◌, All, All-append,
}
use bbn.Prelude.Maps.{lookup, All-lookup, All-remove, All-insert}
use bbn.Rate.{Buckets, ws_check_send}
use bbn.Service.{Platform, UserClaims, ok}
use bbn.Service.Auth.Revocation.{Result-cases}
use bbn.Location.Handlers.{is_user_role}
use bbn.Gateway.Socket.{
  origin_ok, Frame, text_frame, close_frame, other_frame, Fields, Session, Task, push_thread,
  post_message, send_error, Action, hang_up_now, pass_over, view_thread, send_text, authenticate,
  action_of, on_action, full, World, Event, connect, receive, hang_up, started, set_session, react,
  Reachable, initially, afterwards,
}

module _ (p : Platform) (jwt_secret : String) (cors_origins : List String)
    (read : String → Option Fields) where
  -- The session's token decodes to its user, who has the role user or admin.
  abbrev pub IsAuthentic : Session → Type 0
  IsAuthentic session =
      (claims : UserClaims) × (p.decode_user session.token jwt_secret ≡ some claims)
      × (is_user_role claims.role ≡ true)
      × (session.user_id ≡ claims.sub)

  authenticate-IsAuthentic :
      (first : Option Frame) (session : Session)
      → authenticate p jwt_secret cors_origins read first ≡ ok session
      → IsAuthentic session
  unfolding authenticate
  authenticate-IsAuthentic none session h = cc
  authenticate-IsAuthentic (some close_frame) session h = cc
  authenticate-IsAuthentic (some other_frame) session h = cc
  authenticate-IsAuthentic (some (text_frame raw)) session h = elim (Option-cases (read raw)) [
    | inl gone ↦ absurd (cc (rw (authenticate, gone) at h))
    | inr (msg, parsed) ↦ elim (Option-cases msg.type_) [
      | inl gone ↦ absurd (cc (rw (authenticate, parsed, gone) at h))
      | inr (t, typed) ↦ elim (Bool-cases (t == "auth")) [
        | inr other ↦ absurd (cc (rw (authenticate, parsed, typed, other) at h))
        | inl auth ↦ elim (Option-cases (full msg.token)) [
          | inl gone ↦ absurd (cc (rw (authenticate, parsed, typed, auth, gone) at h))
          | inr (token, carried) ↦ elim (Option-cases (p.decode_user token jwt_secret)) [
            | inl bad ↦ absurd (cc (rw (authenticate, parsed, typed, auth, carried, bad) at h))
            | inr (claims, decoded) ↦ elim (Bool-cases (is_user_role claims.role)) [
              | inr guest ↦
                  absurd (cc (rw (authenticate, parsed, typed, auth, carried, decoded, guest) at h))
              | inl user ↦
                  let made : Session = record {
                    token = token;
                    user_id = claims.sub;
                    viewing = none;
                  } in
                  let e : made ≡ session =
                    cc (rw (authenticate, parsed, typed, auth, carried, decoded, user) at h) in
                  rw (← e) (claims, decoded, user, refl)
            ]
          ]
        ]
      ]
    ]
  ]

  -- A task uses the token of the session that started it.
  abbrev pub HasToken : Session → Task → Type 0
  HasToken session (push_thread token uid) = token ≡ session.token
  HasToken session (post_message token to text viewing) = token ≡ session.token
  HasToken session send_error = Unit

  abbrev pub IsOwn : Session × Task → Type 0
  IsOwn t = IsAuthentic t.0 × HasToken t.0 t.1

  -- Every socket and every task rests on a token of a registered user.
  pub record IsSound (w : World p jwt_secret cors_origins read) : Type 0 where
    pub sessions : All (λ (s : ℕ × Session). IsAuthentic s.1) w.sessions
    pub tasks : All IsOwn w.tasks

  abbrev StaysAuthentic : Option Session → Type 0
  StaysAuthentic none = Unit
  StaysAuthentic (some session) = IsAuthentic session

  on_action-IsOwn :
      (session : Session) (buckets : Buckets String) (now : ℕ) (a : Action)
      → IsAuthentic session
      → StaysAuthentic (on_action p jwt_secret cors_origins read session buckets now a).0
        × All IsOwn (
            started p jwt_secret cors_origins read session
              (on_action p jwt_secret cors_origins read session buckets now a).2)
  unfolding on_action
  on_action-IsOwn session buckets now hang_up_now h = (tt, tt)
  on_action-IsOwn session buckets now pass_over h = (h, tt)
  on_action-IsOwn session buckets now (view_thread none) h = (h, tt)
  on_action-IsOwn session buckets now (view_thread (some uid)) h = (h, ((h, refl), tt))
  on_action-IsOwn session buckets now (send_text to text) h =
      elim (Bool-cases (ws_check_send buckets now session.user_id).1) [
        | inl may ↦ rw (on_action, may) (h, ((h, refl), tt))
        | inr full' ↦ rw (on_action, full') (h, ((h, tt), tt))
      ]

  set_session-IsAuthentic :
      (next : Option Session) (sessions : List (ℕ × Session)) (i : ℕ)
      → All (λ (s : ℕ × Session). IsAuthentic s.1) sessions
      → StaysAuthentic next
      → All
          (λ (s : ℕ × Session). IsAuthentic s.1)
          (set_session p jwt_secret cors_origins read i next sessions)
  set_session-IsAuthentic none sessions i h n =
      All-remove (λ (s : ℕ × Session). IsAuthentic s.1) i sessions h
  set_session-IsAuthentic (some session) sessions i h n =
      All-insert (λ (s : ℕ × Session). IsAuthentic s.1) i session sessions n h

  react-IsSound :
      (w : World p jwt_secret cors_origins read) (event : Event p jwt_secret cors_origins read)
      → IsSound w
      → IsSound (react p jwt_secret cors_origins read w event)
  unfolding react
  react-IsSound w (connect i headers first) s = elim (Bool-cases (origin_ok headers cors_origins)) [
    | inr foreign ↦ rw (react, foreign) s
    | inl allowed ↦ elim (Result-cases (authenticate p jwt_secret cors_origins read first)) [
      | inl (reason, refused) ↦ rw (react, allowed, refused) s
      | inr (session, passed) ↦
          rw (react, allowed, passed)
            record {
              sessions =
                  All-insert (λ (s : ℕ × Session). IsAuthentic s.1) i session w.sessions
                    (authenticate-IsAuthentic first session passed) s.sessions;
              tasks = s.tasks;
            }
    ]
  ]
  react-IsSound w (hang_up i) s = record {
    sessions = All-remove (λ (s : ℕ × Session). IsAuthentic s.1) i w.sessions s.sessions;
    tasks = s.tasks;
  }
  react-IsSound w (receive i now frame) s = elim (Option-cases (lookup i w.sessions)) [
    | inl gone ↦ rw (react, gone) s
    | inr (session, there) ↦
        let (next, buckets, tasks) =
          on_action p jwt_secret cors_origins read session w.buckets now
            (action_of p jwt_secret cors_origins read frame) in
        let own =
          on_action-IsOwn session w.buckets now (action_of p jwt_secret cors_origins read frame)
            (All-lookup (λ (s : ℕ × Session). IsAuthentic s.1) w.sessions s.sessions there) in
        rw (react, there)
          record {
            sessions = set_session-IsAuthentic next w.sessions i s.sessions own.0;
            tasks =
                All-append IsOwn (started p jwt_secret cors_origins read session tasks) w.tasks
                  own.1 s.tasks;
          }
  ]

  -- In each world that is reached every socket and every task has a token that decodes to a user of the
  -- role user or admin, and the task has the token of its session.
  pub Reachable-IsSound :
      {w : World p jwt_secret cors_origins read}
      → Reachable p jwt_secret cors_origins read w
      → IsSound w
  Reachable-IsSound initially = record { sessions = tt; tasks = tt }
  Reachable-IsSound (afterwards w event r) = react-IsSound w event (Reachable-IsSound r)
