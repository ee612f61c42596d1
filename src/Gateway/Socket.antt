-- ===== src/Gateway/Socket.antt =====
-- The socket of messages: `handle_msg_socket` of services/gateway/src/ws.rs. The sockets that are open
-- share the send buckets; an event is a frame that a socket reads, and the tasks that a frame starts are
-- what it leaves. The timers that push lists and threads are left out. JSON is read by a parameter.
use Prim.Native.String.{len}
use bbn.Prelude.{
  ℕ, Bool, false, not, List, [], ◌∷◌, ◌++◌, Option, none, some, if◌then◌else◌, String, string_eq,
  nat_eq, ◌==◌, leb, contains,
}
use bbn.Prelude.Maps.{lookup, insert, remove}
use bbn.Text.{is_empty}
use bbn.Rate.{Buckets, ws_check_send}
use bbn.Service.{Platform, Headers, Result, err, ok}
use bbn.Location.Handlers.{is_user_role}

-- `WS_MAX_BYTES`
abbrev pub ws_max_bytes : ℕ
ws_max_bytes = 4096

-- `origin_ok`
unfoldable pub origin_ok : Headers → List String → Bool
origin_ok headers allowed = elim (headers "origin") [ none ↦ false | some o ↦ contains allowed o ]

-- What a socket reads.
pub data Frame : Type 0 where
  text_frame : String → Frame
  close_frame other_frame : Frame

-- The members of a JSON text that the handler reads, where they are strings.
pub record Fields : Type 0 where
  pub type_ : Option String
  pub token : Option String
  pub user_id : Option String
  pub to_user_id : Option String
  pub text : Option String

-- The close frame of a refusal.
pub record WsClose : Type 0 where
  pub code : ℕ
  pub reason : String

abbrev pub ws_close : ℕ → String → WsClose
ws_close code reason = record { code = code; reason = reason }

-- A socket that has passed the authentication.
pub record Session : Type 0 where
  pub token : String
  pub user_id : String
  pub viewing : Option String

-- The tasks that a frame starts: the push of a thread, a message to the messages service with the thread
-- that is viewed, and the answer to a send over the limit.
pub data Task : Type 0 where
  push_thread : String → String → Task
  post_message : String → String → String → Option String → Task
  send_error : Task

-- `.filter(|s| !s.is_empty())`
abbrev pub full : Option String → Option String
full none = none
full (some s) = if is_empty s then none else some s

abbrev pub push_of : String → Option String → List Task
push_of token none = []
push_of token (some uid) = push_thread token uid ∷ []

-- What a frame asks for.
pub data Action : Type 0 where
  hang_up_now pass_over : Action
  view_thread : Option String → Action
  send_text : String → String → Action

module _ (p : Platform) (jwt_secret : String) (cors_origins : List String)
    (read : String → Option Fields) where
  -- The first frame: `none` is a timeout, the end of the stream or an error.
  unfoldable pub authenticate : Option Frame → Result WsClose Session
  authenticate none = err (ws_close 4001 "Auth timeout")
  authenticate (some close_frame) = err (ws_close 4001 "Auth timeout")
  authenticate (some other_frame) = err (ws_close 4001 "Auth timeout")
  authenticate (some (text_frame raw)) = elim (read raw) [
    | none ↦ err (ws_close 4001 "Bad auth")
    | some msg ↦ elim msg.type_ [
      | none ↦ err (ws_close 4001 "Auth required")
      | some t ↦
          if not (t == "auth") then err (ws_close 4001 "Auth required") else elim (full msg.token) [
            | none ↦ err (ws_close 4001 "Auth required")
            | some token ↦ elim (p.decode_user token jwt_secret) [
              | none ↦ err (ws_close 4001 "Invalid token")
              | some claims ↦
                  if not (is_user_role claims.role)
                  then err (ws_close 4003 "Registered account required")
                  else ok (record { token = token; user_id = claims.sub; viewing = none })
            ]
          ]
    ]
  ]

  -- The request of a JSON text. A send without a recipient or a text is passed over.
  abbrev pub request_of : Fields → Action
  request_of m = elim m.type_ [
    | none ↦ pass_over
    | some t ↦
        if t == "view"
        then view_thread (full m.user_id)
        else if t == "send"
        then elim m.to_user_id [
          | none ↦ pass_over
          | some to ↦ elim m.text [ none ↦ pass_over | some text ↦ send_text to text ]
        ]
        else pass_over
  ]

  -- What a frame asks for. A text of more than 4096 bytes is passed over.
  unfoldable pub action_of : Frame → Action
  action_of close_frame = hang_up_now
  action_of other_frame = pass_over
  action_of (text_frame raw) =
      if not (leb (len raw) ws_max_bytes)
      then pass_over
      else elim (read raw) [ none ↦ pass_over | some m ↦ request_of m ]

  -- What the handler does for it: the session, if it goes on, the buckets and the tasks.
  unfoldable pub on_action :
      Session → Buckets String → ℕ → Action → Option Session × Buckets String × List Task
  unfolding ws_check_send
  on_action session buckets now hang_up_now = (none, buckets, [])
  on_action session buckets now pass_over = (some session, buckets, [])
  on_action session buckets now (view_thread uid) =
      (some (record session { viewing = uid }), buckets, push_of session.token uid)
  on_action session buckets now (send_text to text) =
      let (buckets', may) = ws_check_send buckets now session.user_id in
      (
        some session,
        buckets',
        if may then post_message session.token to text session.viewing ∷ [] else send_error ∷ [],
      )

  -- The sockets that are open, by a number, the buckets, and the tasks that were started, each with the
  -- session that started it, newest first.
  pub record World : Type 0 where
    pub sessions : List (ℕ × Session)
    pub buckets : Buckets String
    pub tasks : List (Session × Task)

  pub data Event : Type 0 where
    -- a request for a socket with the first frame, and a frame of a socket at a time
    connect : ℕ → Headers → Option Frame → Event
    receive : ℕ → ℕ → Frame → Event
    -- the end of a socket's stream
    hang_up : ℕ → Event

  abbrev pub started : Session → List Task → List (Session × Task)
  started session [] = []
  started session (t ∷ ts) = (session, t) ∷ started session ts

  abbrev pub set_session : ℕ → Option Session → List (ℕ × Session) → List (ℕ × Session)
  set_session i none sessions = remove i sessions
  set_session i (some session) sessions = insert i session sessions

  -- What an event does.
  unfoldable pub react : World → Event → World
  unfolding origin_ok authenticate action_of on_action
  react w (connect i headers first) =
      if not (origin_ok headers cors_origins) then w else elim (authenticate first) [
        | err reason ↦ w
        | ok session ↦ record w { sessions = insert i session w.sessions }
      ]
  react w (hang_up i) = record w { sessions = remove i w.sessions }
  react w (receive i now frame) = elim (lookup i w.sessions) [
    | none ↦ w
    | some session ↦
        let (next, buckets, tasks) = on_action session w.buckets now (action_of frame) in
        record {
          sessions = set_session i next w.sessions;
          buckets = buckets;
          tasks = started session tasks ++ w.tasks;
        }
  ]

  -- The worlds that are reached from one with no socket.
  pub data Reachable : World → Type 0 where
    initially : Reachable (record { sessions = []; buckets = []; tasks = [] })
    afterwards : (w : World) → (event : Event) → Reachable w → Reachable (react w event)
