-- ===== src/Messages.antt =====
-- The messages service: services/messages-service/src/main.rs. A handler is a function of the
-- service's state, of the clock, and of what the database and the other services answer, which stand
-- in `Calls`. It returns its answer, the new state, and the document that it gives to the database.

pub mod Peers
pub mod Send
pub mod Deliver
pub mod Exact
pub mod Read
pub mod Threads
pub mod Inbox
mod Tests
use Prim.Native.Char.{Char}
use Prim.Native.Nat.{Ordering}
use Prim.Native.String.{len}
use bbn.Prelude.{
  ℕ, ◌+◌, Bool, true, false, not, ◌&&◌, ◌||◌, List, [], ◌∷◌, Option, none, some, if◌then◌else◌,
  String, string_eq, ◌==◌, leb, ltb, eqb,
}
use bbn.Prelude.Int.{ℤ, pos, ◌+ℤ◌}
use bbn.Text.{is_empty, trim, all_chars, is_ascii_alphanumeric, is_char}
use bbn.Float.{Float, le}
use bbn.Geo.{haversine_distance}
use bbn.Rate.{Buckets, check_user_rate}
use bbn.Service.{
  internal, StatusCode, unauthorized, bad_request, forbidden, not_found, too_many_requests,
  internal_server_error, service_unavailable, Refusal, refuse, Result, err, ok, DbError, Platform,
  ServiceClaims, GatewayIdentity, unwrap_or, safe_object_id,
}
use bbn.Service.TokenCache.{Cached, get}

pub record MsgSettings : Type 0 where
  pub user_rate_max : ℕ
  pub user_rate_window : ℕ
  pub message_ttl_ms : ℤ
  pub message_max_chars : ℕ

abbrev pub default_settings : MsgSettings
default_settings = record {
  user_rate_max = 10;
  user_rate_window = 10000;
  message_ttl_ms = pos 14400000;
  message_max_chars = 4096;
}

pub record AppState : Type 0 where
  pub settings : MsgSettings
  pub user_buckets : Buckets String
  pub svc_token_cache : Cached

-- A message as it is inserted.
pub record NewMessage : Type 0 where
  pub from_user_id : String
  pub to_user_id : String
  pub text : String
  pub sent_at : ℤ
  pub expires_at : ℤ

pub record PairStatus : Type 0 where
  pub is_mutual : Bool
  pub within_range : Option Bool

pub record Coords (f : Float) : Type 0 where
  pub lat : f.Num
  pub lon : f.Num

-- The outcome of a request to another service: an error, or a status and the body where it parses.
pub data HttpReply (A : Type 0) : Type 0 where
  unreachable : HttpReply A
  answered : ℕ → Option A → HttpReply A

-- What a send meets: the readings of the clock, the parser of the message's JSON, the database and
-- the other services.
pub record Calls (f : Float) (p : Platform) : Type 0 where
  -- `Instant::now()` in milliseconds, and the seconds, the two readings of the milliseconds
  pub rate_now : ℕ
  pub token_now : ℕ
  pub sent_now : ℤ
  pub expiry_now : ℤ
  -- `cipher.ivB64` and `cipher.cipherB64` of a JSON text, "" where a string is missing
  pub parse_cipher : String → Option (String × String)
  -- the tier of the user's document
  pub find_recipient : p.ObjectId → Result DbError (Option (Option String))
  -- whether one of the pairs of a blocker and a blocked user is in `blocks`
  pub find_block : List (String × String) → Result DbError Bool
  pub pair_status : String → String → String → HttpReply PairStatus
  pub location : String → String → HttpReply (Coords f)
  pub message_radius : String → String → HttpReply f.Num
  pub insert_one : NewMessage → Result DbError String

abbrev is_eq : Option Ordering → Bool
is_eq (some Ordering.eq) = true
is_eq (some Ordering.lt) = false
is_eq (some Ordering.gt) = false
is_eq none = false

-- `radius_m == -1.0`
abbrev pub is_unlimited : (f : Float) → f.Num → Bool
is_unlimited f radius_m = is_eq (f.partial_cmp radius_m (f.sub (f.lit 0 0) (f.lit 1 0)))

abbrev pub is_base64 : String → Bool
is_base64 s =
    not (is_empty s)
    && all_chars (λ c. is_ascii_alphanumeric c || is_char 43 c || is_char 47 c || is_char 61 c) s

abbrev cipher_valid : Option (String × String) → Bool
cipher_valid none = false
cipher_valid (some (iv_b64, cipher_b64)) = is_base64 iv_b64 && is_base64 cipher_b64

abbrev pub is_valid_tier : String → Bool
is_valid_tier t =
    not (is_empty t)
    && leb (len t) 64
    && all_chars (λ c. is_ascii_alphanumeric c || is_char 95 c || is_char 45 c) t

-- `status().is_success()`
abbrev pub is_success : ℕ → Bool
is_success status = leb 200 status && ltb status 300

abbrev pub unavailable : Refusal
unavailable = refuse service_unavailable "Service unavailable. Try again shortly."

abbrev pub tier_unavailable : Refusal
tier_unavailable = refuse service_unavailable "Tier service unavailable. Try again shortly."

-- The body of a reply, if its status passes the test and it parses.
abbrev pub body_if : {A : Type 0} → (ℕ → Bool) → Refusal → HttpReply A → Result Refusal A
body_if passes r unreachable = err r
body_if passes r (answered status none) = err r
body_if passes r (answered status (some a)) = if passes status then ok a else err r

module _ {f : Float} {p : Platform} (service_secret : String) (calls : Calls f p) where
  abbrev pub is_valid_ciphertext : String → Bool
  is_valid_ciphertext text = cipher_valid (calls.parse_cipher text)

  -- The validation of the text. The number in the second message is left out.
  unfoldable pub valid_text : ℕ → Option String → Result Refusal String
  valid_text max_chars none = err (refuse bad_request "text required.")
  valid_text max_chars (some t) =
      let text = trim t in
      if is_empty text
      then err (refuse bad_request "text required.")
      else if ltb max_chars (len text)
      then err (refuse bad_request "Message exceeds {} characters.")
      else if not (is_valid_ciphertext text)
      then err (refuse bad_request "Message must be a valid E2EE ciphertext envelope.")
      else ok text

  -- The block check, in both directions; `none` is a pass.
  unfoldable pub block_check : String → String → Option Refusal
  block_check from_id to_id = elim (calls.find_block ((from_id, to_id) ∷ (to_id, from_id) ∷ [])) [
    | ok true ↦ some (refuse forbidden "You cannot message this user.")
    | ok false ↦ none
    | err _ ↦ some internal
  ]

  -- The pair's status, which is asked for by the parsed ids.
  unfoldable pub pair_check : String → p.ObjectId → p.ObjectId → Result Refusal PairStatus
  pair_check svc_token from_oid to_oid =
      elim (body_if is_success unavailable
        (calls.pair_status svc_token (p.to_hex from_oid) (p.to_hex to_oid))) [
          | err r ↦ err r
          | ok pair ↦
              if pair.is_mutual
              then ok pair
              else err
                  (refuse forbidden "Both users must have each other as favourites to message.")
        ]

  -- The sender's location: without the status 200 the sender does not share it.
  unfoldable pub sender_location : String → p.ObjectId → Result Refusal (Coords f)
  sender_location svc_token from_oid = elim (calls.location svc_token (p.to_hex from_oid)) [
    | unreachable ↦ err internal
    | answered status body ↦
        if not (eqb status 200)
        then err (refuse forbidden "You must be sharing your location to send messages.")
        else elim body [ none ↦ err internal | some loc ↦ ok loc ]
  ]

  -- `radius_m == -1.0 || dist <= radius_m`
  abbrev pub reaches : f.Num → f.Num → Bool
  reaches dist radius_m = is_unlimited f radius_m || le f dist radius_m

  -- The check of the distance against the radii of both tiers; `none` is a pass.
  unfoldable pub radius_check : String → String → String → Coords f → Coords f → Option Refusal
  radius_check svc_token sender_tier recipient_tier from_loc to_loc =
      if not (is_valid_tier sender_tier) || not (is_valid_tier recipient_tier)
      then some (refuse bad_request "Invalid tier value.")
      else elim (body_if is_success tier_unavailable (calls.message_radius svc_token sender_tier)) [
        | err r ↦ some r
        | ok s_radius ↦
            elim (body_if is_success tier_unavailable
              (calls.message_radius svc_token recipient_tier)) [
                | err r ↦ some r
                | ok r_radius ↦
                    let dist =
                      haversine_distance f from_loc.lat from_loc.lon to_loc.lat to_loc.lon in
                    if not (reaches dist s_radius) || not (reaches dist r_radius)
                    then some (refuse forbidden "You are too far away to message this user.")
                    else none
              ]
      ]

  -- The recipient's location and the proximity; `none` is a pass. An offline recipient must have been
  -- within range when the favourites were last synchronised.
  unfoldable pub proximity_check :
      String → GatewayIdentity → Option String → PairStatus → Coords f → p.ObjectId → Option Refusal
  unfolding radius_check
  proximity_check svc_token identity recipient_tier pair from_loc to_oid =
      elim (calls.location svc_token (p.to_hex to_oid)) [
        | unreachable ↦ some internal
        | answered status body ↦
            if eqb status 200
            then elim body [
              | none ↦ some internal
              | some to_loc ↦
                  radius_check svc_token identity.tier (unwrap_or "regular" recipient_tier) from_loc
                    to_loc
            ]
            else elim pair.within_range [
              | some true ↦ none
              | some false ↦ some (refuse forbidden "Recipient is out of range.")
              | none ↦ some (refuse forbidden "Recipient is out of range.")
            ]
      ]

  -- The checks after that of the block, in their order; `none` is a pass.
  unfoldable pub peer_checks :
      Option String → GatewayIdentity → Option String → p.ObjectId → p.ObjectId → Option Refusal
  unfolding pair_check sender_location proximity_check
  peer_checks none identity recipient_tier from_oid to_oid = some internal
  peer_checks (some svc_token) identity recipient_tier from_oid to_oid =
      elim (pair_check svc_token from_oid to_oid) [
        | err r ↦ some r
        | ok pair ↦ elim (sender_location svc_token from_oid) [
          | err r ↦ some r
          | ok from_loc ↦ proximity_check svc_token identity recipient_tier pair from_loc to_oid
        ]
      ]

  -- The document of a new message: `now_ms() + message_ttl_ms` is its expiry.
  abbrev pub new_message : ℤ → String → String → String → NewMessage
  new_message ttl_ms from_id to_id text = record {
    from_user_id = from_id;
    to_user_id = to_id;
    text = text;
    sent_at = calls.sent_now;
    expires_at = calls.expiry_now +ℤ ttl_ms;
  }

  -- The insertion: the id and the expiry of the answer, and the document.
  abbrev pub insert_message :
      AppState → NewMessage → Result Refusal (String × ℤ) × AppState × Option NewMessage
  insert_message state doc = elim (calls.insert_one doc) [
    | err _ ↦ (err internal, state, some doc)
    | ok id ↦ (ok (id, doc.expires_at), state, some doc)
  ]

  -- `send_message` from the look-up of the recipient on.
  unfoldable pub deliver :
      AppState
      → GatewayIdentity
      → String
      → String
      → p.ObjectId
      → p.ObjectId
      → Result Refusal (String × ℤ) × AppState × Option NewMessage
  unfolding block_check peer_checks get
  deliver state identity to_id text from_oid to_oid =
      let from_id = identity.sub in
      let doc = new_message state.settings.message_ttl_ms from_id to_id text in
      elim (calls.find_recipient to_oid) [
        | err _ ↦ (err internal, state, none)
        | ok none ↦ (err (refuse not_found "Recipient not found."), state, none)
        | ok (some recipient_tier) ↦
            if from_id == to_id
            then insert_message state doc
            else elim (block_check from_id to_id) [
              | some r ↦ (err r, state, none)
              | none ↦
                  let (svc_token, cache) =
                    get p "messages" service_secret state.svc_token_cache calls.token_now in
                  let state' = record state { svc_token_cache = cache } in
                  elim (peer_checks svc_token identity recipient_tier from_oid to_oid) [
                    | some r ↦ (err r, state', none)
                    | none ↦ insert_message state' doc
                  ]
            ]
      ]

  -- `send_message`, after the two extractors: the identity is what they give.
  unfoldable pub send_message :
      AppState
      → Result Refusal ServiceClaims
      → Result Refusal GatewayIdentity
      → String
      → Option String
      → Result Refusal (String × ℤ) × AppState × Option NewMessage
  unfolding valid_text deliver check_user_rate
  send_message state (err r) who to_id body = (err r, state, none)
  send_message state (ok svc) (err r) to_id body = (err r, state, none)
  send_message state (ok svc) (ok identity) to_id body =
      let settings = state.settings in
      let (buckets, may) =
        check_user_rate state.user_buckets calls.rate_now identity.sub settings.user_rate_max
          settings.user_rate_window in
      let state' = record state { user_buckets = buckets } in
      if not may
      then (err (refuse too_many_requests "Message rate limit exceeded."), state', none)
      else elim (valid_text settings.message_max_chars body) [
        | err r ↦ (err r, state', none)
        | ok text ↦ elim (safe_object_id p identity.sub) [
          | none ↦ (err (refuse unauthorized "Invalid token subject."), state', none)
          | some from_oid ↦ elim (safe_object_id p to_id) [
            | none ↦ (err (refuse bad_request "Invalid userId."), state', none)
            | some to_oid ↦ deliver state' identity to_id text from_oid to_oid
          ]
        ]
      ]

-- A stored message's sender, where it has one.
pub record StoredMessage : Type 0 where
  pub from_user_id : Option String

-- `delete_message`: the answer, and whether the message is deleted by its id.
unfoldable pub delete_message :
    (p : Platform)
    → (p.ObjectId → Result DbError (Option StoredMessage))
    → (p.ObjectId → Result DbError Unit)
    → Result Refusal ServiceClaims
    → Result Refusal GatewayIdentity
    → String
    → Result Refusal Unit × Option p.ObjectId
delete_message p find_one delete_one (err r) who msg_id = (err r, none)
delete_message p find_one delete_one (ok svc) (err r) msg_id = (err r, none)
delete_message p find_one delete_one (ok svc) (ok identity) msg_id =
    elim (safe_object_id p msg_id) [
      | none ↦ (err (refuse bad_request "Invalid message id."), none)
      | some oid ↦ elim (find_one oid) [
        | err _ ↦ (err internal, none)
        | ok none ↦ (err (refuse not_found "Message not found."), none)
        | ok (some msg) ↦
            if unwrap_or "" msg.from_user_id == identity.sub
            then elim (delete_one oid) [
              | err _ ↦ (err internal, some oid)
              | ok _ ↦ (ok tt, some oid)
            ]
            else (err (refuse forbidden "Not your message."), none)
      ]
    ]
