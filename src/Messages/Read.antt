-- ===== src/Messages/Read.antt =====
-- The lists of messages: `get_messages` and `get_thread` of services/messages-service/src/main.rs. A
-- query is data, and the database that answers it is a parameter.
use bbn.Prelude.{Bool, true, false, List, [], ◌∷◌, Option, none, some, String, map}
use bbn.Prelude.Int.{ℤ}
use bbn.Service.{
  internal, bad_request, not_found, Refusal, refuse, Result, err, ok, DbError, Platform,
  ServiceClaims, GatewayIdentity, safe_object_id, collected,
}

pub record MessageDoc (p : Platform) : Type 0 where
  pub id : p.ObjectId
  pub from_user_id : String
  pub to_user_id : String
  pub text : String
  pub sent_at : Option ℤ
  pub expires_at : Option ℤ

-- A message of an answer.
pub record MessageView : Type 0 where
  pub id : String
  pub from_user_id : String
  pub to_user_id : String
  pub text : String
  pub sent_at : Option String
  pub expires_at : Option String

-- A query of `messages`: one of the alternatives of a sender and a recipient, where they are given, an
-- expiry after a date, and the order by `sentAt`.
pub record MessageQuery : Type 0 where
  pub any_of : List (Option String × Option String)
  pub expires_after : ℤ
  pub newest_first : Bool

-- The clock, the printer of dates and the database.
pub record ReadCalls (p : Platform) : Type 0 where
  pub now : ℤ
  pub to_rfc3339 : ℤ → Option String
  pub find_user : p.ObjectId → Result DbError Bool
  -- `none` is a cursor that fails
  pub find_messages : MessageQuery → Result DbError (Option (List (MessageDoc p)))

abbrev pub printed : (ℤ → Option String) → Option ℤ → Option String
printed to_rfc3339 none = none
printed to_rfc3339 (some d) = to_rfc3339 d

module _ {p : Platform} (calls : ReadCalls p) where
  abbrev pub msg_to_json : MessageDoc p → MessageView
  msg_to_json m = record {
    id = p.to_hex m.id;
    from_user_id = m.from_user_id;
    to_user_id = m.to_user_id;
    text = m.text;
    sent_at = printed calls.to_rfc3339 m.sent_at;
    expires_at = printed calls.to_rfc3339 m.expires_at;
  }

  -- The answer with the documents of a query.
  abbrev pub listed : MessageQuery → Result Refusal (List MessageView)
  listed query = elim (calls.find_messages query) [
    | err _ ↦ err internal
    | ok docs ↦ ok (map msg_to_json (collected docs))
  ]

  -- What a user has sent or received.
  abbrev pub own_messages : String → MessageQuery
  own_messages sub = record {
    any_of = (some sub, none) ∷ (none, some sub) ∷ [];
    expires_after = calls.now;
    newest_first = true;
  }

  -- What two users have sent each other.
  abbrev pub thread_of : String → String → MessageQuery
  thread_of me other_id = record {
    any_of = (some me, some other_id) ∷ (some other_id, some me) ∷ [];
    expires_after = calls.now;
    newest_first = false;
  }

  unfoldable pub get_messages :
      Result Refusal ServiceClaims
      → Result Refusal GatewayIdentity
      → Result Refusal (List MessageView)
  get_messages (err r) who = err r
  get_messages (ok svc) (err r) = err r
  get_messages (ok svc) (ok identity) = listed (own_messages identity.sub)

  unfoldable pub get_thread :
      Result Refusal ServiceClaims
      → Result Refusal GatewayIdentity
      → String
      → Result Refusal (List MessageView)
  get_thread (err r) who other_id = err r
  get_thread (ok svc) (err r) other_id = err r
  get_thread (ok svc) (ok identity) other_id = elim (safe_object_id p other_id) [
    | none ↦ err (refuse bad_request "Invalid userId.")
    | some other_oid ↦ elim (calls.find_user other_oid) [
      | err _ ↦ err internal
      | ok false ↦ err (refuse not_found "User not found.")
      | ok true ↦ listed (thread_of identity.sub other_id)
    ]
  ]
