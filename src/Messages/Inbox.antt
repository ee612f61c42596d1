-- ===== src/Messages/Inbox.antt =====
-- How sending and reading meet in services/messages-service/src/main.rs: what `send_message` inserts is
-- what `get_thread` and `get_messages` show to both users.
use bbn.Prelude.{◌≡◌, sym, ap, ◌∙◌, true, Option, some, inl, inr, ◌⊎◌, String}
use bbn.Prelude.Int.{ltb_ℤ}
use bbn.Float.{Float}
use bbn.Service.{Refusal, Result, ok, Platform, ServiceClaims, GatewayIdentity}
use bbn.Messages.{AppState, Calls, NewMessage, send_message}
use bbn.Messages.Send.{send_message-IsProper}
use bbn.Messages.Read.{ReadCalls, own_messages, get_messages, get_thread}
use bbn.Messages.Threads.{
  IsStored, Shows, stored_as, get_thread-Shows, listed-Shows, thread_of-selects,
  own_messages-selects,
}

-- The reader is one of the two users of a message, and the other is the other one.
abbrev pub IsParty : String → String → String → String → Type 0
IsParty sender recipient reader other_id =
    ((reader ≡ sender) × (other_id ≡ recipient)) ⊎ ((reader ≡ recipient) × (other_id ≡ sender))

module _ {f : Float} {p : Platform} (service_secret : String) (sending : Calls f p)
    (calls : ReadCalls p) where
  -- A message that was given to the database, and is stored under some id, is shown to the sender and to
  -- the recipient until it expires: in the thread with the other user, if that user still exists, and
  -- in the list of all messages.
  pub send_message-get_thread :
      (state : AppState) (svc : Result Refusal ServiceClaims) (svc' : ServiceClaims)
      (sender reader : GatewayIdentity) (to_id other_id : String) (body : Option String)
      (m : NewMessage) (id : p.ObjectId)
      → (send_message service_secret sending state svc (ok sender) to_id body).2 ≡ some m
      → IsStored calls (stored_as calls id m)
      → ltb_ℤ calls.now m.expires_at ≡ true
      → IsParty sender.sub to_id reader.sub other_id
      → ((oid : p.ObjectId) → p.from_str other_id ≡ some oid → calls.find_user oid ≡ ok true)
      → Shows calls (stored_as calls id m) (get_thread calls (ok svc') (ok reader) other_id)
        × Shows calls (stored_as calls id m) (get_messages calls (ok svc') (ok reader))
  unfolding get_messages
  send_message-get_thread state svc svc' sender reader to_id other_id body m id sent stored fresh
        party there =
      let (identity, from_oid, to_oid, e, parses, parses', sendable, doc, permitted) =
        send_message-IsProper service_secret sending state svc (ok sender) to_id body m sent in
      let stored_doc = stored_as calls id m in
      let same : sender ≡ identity = cc in
      let from : m.from_user_id ≡ sender.sub =
        ap (λ (d : NewMessage). d.from_user_id) doc
        ∙ sym (ap (λ (i : GatewayIdentity). i.sub) same) in
      let to : m.to_user_id ≡ to_id = ap (λ (d : NewMessage). d.to_user_id) doc in
      elim party [
        | inl (me, other) ↦ (
          get_thread-Shows calls svc' reader other_id to_oid stored_doc
              (ap p.from_str other ∙ parses') (there to_oid (ap p.from_str other ∙ parses')) stored
              (thread_of-selects calls reader.sub other_id stored_doc
                (inl (from ∙ sym me, to ∙ sym other), fresh)),
          listed-Shows calls (own_messages calls reader.sub) stored_doc stored
              (own_messages-selects calls reader.sub stored_doc (inl (from ∙ sym me)) fresh),
        )
        | inr (me, other) ↦
            let found : p.from_str other_id ≡ some from_oid =
              ap p.from_str (other ∙ ap (λ (i : GatewayIdentity). i.sub) same) ∙ parses in
            (
              get_thread-Shows calls svc' reader other_id from_oid stored_doc found
                  (there from_oid found) stored
                  (thread_of-selects calls reader.sub other_id stored_doc
                    (inr (from ∙ sym other, to ∙ sym me), fresh)),
              listed-Shows calls (own_messages calls reader.sub) stored_doc stored
                  (own_messages-selects calls reader.sub stored_doc (inr (to ∙ sym me)) fresh),
            )
      ]
