-- ===== src/Gateway/Posts.antt =====
-- How many messages the message sockets of services/gateway/src/ws.rs post for a user.
use bbn.Prelude.{
  ℕ, suc, ◌+◌, ◌*◌, ◌^◌, ◌<◌, ◌≤◌, ◌≡◌, refl, Bool, true, false, ◌&&◌, List, [], ◌∷◌, ◌++◌, Option,
  none, some, if◌then◌else◌, arith, Bool-cases, Option-cases, inl, inr, String, string_eq, nat_eq,
  ◌==◌, length,
}
use bbn.Prelude.Maps.{lookup}
use bbn.Rate.{Buckets, ws_send_limit, ws_send_window, ws_check_send}
use bbn.Rate.Window.{times_of}
use bbn.Rate.Bound.{Within}
use bbn.Rate.Send.{sent, sent_bound, count}
use bbn.Service.{Platform}
use bbn.Service.Auth.Revocation.{Result-cases}
use bbn.Gateway.Socket.{
  origin_ok, Fields, Session, Task, push_thread, post_message, send_error, Action, hang_up_now,
  pass_over, view_thread, send_text, authenticate, action_of, on_action, World, Event, connect,
  receive, hang_up, started, react,
}

abbrev is_post : Task → Bool
is_post (post_message token to text viewing) = true
is_post (push_thread token uid) = false
is_post send_error = false

-- The posts of a user among the tasks.
abbrev pub posts : List (Session × Task) → String → ℕ
posts [] k = 0
posts ((session, task) ∷ tasks) k =
    let rest = posts tasks k in if is_post task && (session.user_id == k) then suc rest else rest

-- The send that an action is, with its time and user.
abbrev send_of : Session → ℕ → Action → List (ℕ × String)
send_of session now (send_text to text) = (now, session.user_id) ∷ []
send_of session now hang_up_now = []
send_of session now pass_over = []
send_of session now (view_thread uid) = []

module _ (p : Platform) (jwt_secret : String) (cors_origins : List String)
    (read : String → Option Fields) where
  abbrev pub react_all :
      World p jwt_secret cors_origins read
      → List (Event p jwt_secret cors_origins read)
      → World p jwt_secret cors_origins read
  react_all w [] = w
  react_all w (event ∷ events) = react_all (react p jwt_secret cors_origins read w event) events

  abbrev pub send_in :
      World p jwt_secret cors_origins read
      → Event p jwt_secret cors_origins read
      → List (ℕ × String)
  send_in w (connect i headers first) = []
  send_in w (hang_up i) = []
  send_in w (receive i now frame) = elim (lookup i w.sessions) [
    | none ↦ []
    | some session ↦ send_of session now (action_of p jwt_secret cors_origins read frame)
  ]

  -- The sends that are tried, whether they are accepted or not.
  abbrev pub attempts :
      World p jwt_secret cors_origins read
      → List (Event p jwt_secret cors_origins read)
      → List (ℕ × String)
  attempts w [] = []
  attempts w (event ∷ events) =
      send_in w event ++ attempts (react p jwt_secret cors_origins read w event) events

  on_action-posts :
      (session : Session) (buckets : Buckets String) (now : ℕ) (a : Action)
      (tasks : List (Session × Task)) (later : List (ℕ × String)) (k : String)
      → (let out = on_action p jwt_secret cors_origins read session buckets now a in
          posts (started p jwt_secret cors_origins read session out.2 ++ tasks) k
            + sent out.1 later k
          ≡ posts tasks k + sent buckets (send_of session now a ++ later) k)
  unfolding on_action
  on_action-posts session buckets now hang_up_now tasks later k = refl
  on_action-posts session buckets now pass_over tasks later k = refl
  on_action-posts session buckets now (view_thread none) tasks later k = refl
  on_action-posts session buckets now (view_thread (some uid)) tasks later k = refl
  on_action-posts session buckets now (send_text to text) tasks later k =
      elim (Bool-cases (ws_check_send buckets now session.user_id).1) [
        | inl may ↦ elim (Bool-cases (session.user_id == k)) [
          | inl same ↦ rw (on_action, may, same) (omega arith)
          | inr other ↦ rw (on_action, may, other) refl
        ]
        | inr full ↦ rw (on_action, full) refl
      ]

  react-posts :
      (w : World p jwt_secret cors_origins read) (event : Event p jwt_secret cors_origins read)
      (later : List (ℕ × String)) (k : String)
      → (let after = react p jwt_secret cors_origins read w event in
          posts after.tasks k + sent after.buckets later k
          ≡ posts w.tasks k + sent w.buckets (send_in w event ++ later) k)
  unfolding react
  react-posts w (hang_up i) later k = refl
  react-posts w (connect i headers first) later k =
      elim (Bool-cases (origin_ok headers cors_origins)) [
        | inr foreign ↦ rw (react, foreign) refl
        | inl allowed ↦ elim (Result-cases (authenticate p jwt_secret cors_origins read first)) [
          | inl (reason, refused) ↦ rw (react, allowed, refused) refl
          | inr (session, passed) ↦ rw (react, allowed, passed) refl
        ]
      ]
  react-posts w (receive i now frame) later k = elim (Option-cases (lookup i w.sessions)) [
    | inl gone ↦ rw (react, send_in, gone) refl
    | inr (session, there) ↦
        rw (react, send_in, there)
          (on_action-posts session w.buckets now (action_of p jwt_secret cors_origins read frame)
            w.tasks later k)
  ]

  -- Each send that is accepted is posted, and nothing else is.
  react_all-posts :
      (w : World p jwt_secret cors_origins read)
      (events : List (Event p jwt_secret cors_origins read)) (k : String)
      → posts (react_all w events).tasks k ≡ posts w.tasks k + sent w.buckets (attempts w events) k
  react_all-posts w [] k = omega arith
  react_all-posts w (event ∷ events) k =
      let after = react p jwt_secret cors_origins read w event in
      omega (arith, react_all-posts after events k, react-posts w event (attempts after events) k)

  -- Whatever the sockets read in any order, also several sockets of one user: when all tries of a user
  -- to send lie in ten seconds, the gateway posts at most twenty messages of the user, if the user's
  -- count and tries together stay below `2 ^ 32`.
  pub react_all-posts_bound :
      (w : World p jwt_secret cors_origins read)
      (events : List (Event p jwt_secret cors_origins read)) (k : String) (t : ℕ)
      → count (lookup k w.buckets) + length (times_of k (attempts w events)) < 2 ^ 32
      → Within t ws_send_window (times_of k (attempts w events))
      → posts (react_all w events).tasks k ≤ posts w.tasks k + 2 * ws_send_limit
  react_all-posts_bound w events k t small within =
      omega (
        arith,
        react_all-posts w events k,
        sent_bound w.buckets (attempts w events) k t small within,
      )
