-- ===== src/Blocks/Send.antt =====
-- How a block and the sending of messages meet: services/blocks-service/src/main.rs writes the
-- collection that services/messages-service/src/main.rs searches.
use bbn.Prelude.{
  ◌≡◌, sym, ap, ◌∙◌, Bool, true, false, ◌&&◌, ◌||◌, List, [], ◌∷◌, Option, none, some, arith,
  Option-cases, inl, inr, ◌⊎◌, String, string_eq, eq_iff, ◌==◌,
}
use bbn.Prelude.Int.{ℤ}
use bbn.Float.{Float}
use bbn.Service.{Refusal, Result, ok, DbError, Platform, ServiceClaims, GatewayIdentity}
use bbn.Messages.{AppState, Calls, send_message}
use bbn.Messages.Send.{send_message-IsProper}
use bbn.Blocks.{NewBlock, post_block}
use bbn.Blocks.Post.{post_block-IsProper}

-- Whether the query for one of the pairs, a blocker and a blocked user, finds the document.
abbrev pub matches : NewBlock → List (String × String) → Bool
matches d [] = false
matches d ((blocker, blocked) ∷ pairs) =
    (blocker == d.blocker_user_id && blocked == d.blocked_user_id) || matches d pairs

matches-pair :
    (d : NewBlock) (a b : String)
    → ((a ≡ d.blocker_user_id) × (b ≡ d.blocked_user_id))
      ⊎ ((a ≡ d.blocked_user_id) × (b ≡ d.blocker_user_id))
    → matches d ((a, b) ∷ (b, a) ∷ []) ≡ true
matches-pair d a b between = ground (
  arith,
  eq_iff a d.blocker_user_id,
  eq_iff b d.blocked_user_id,
  eq_iff a d.blocked_user_id,
  eq_iff b d.blocker_user_id,
)

-- When a block has been given to the database, and the search for blocks finds it wherever it matches
-- the query, then no message is given to the database between the two ids of the block, in either
-- direction, where the sender's id and the id of the recipient are written as in the block, whatever
-- the other services answer. A recipient's id that is written in another way is not covered.
pub post_block-send_message :
    {f : Float} (p : Platform) (find_user : p.ObjectId → Result DbError Bool)
    (insert_one : NewBlock → Result DbError Unit) (now : ℤ)
    (svc svc' : Result Refusal ServiceClaims) (who : Result Refusal GatewayIdentity)
    (blocked_id : String) (reason : Option String) (d : NewBlock) (service_secret : String)
    (calls : Calls f p) (state : AppState) (sender : GatewayIdentity) (to_id : String)
    (body : Option String)
    → (post_block p find_user insert_one now svc who blocked_id reason).1 ≡ some d
    → ((pairs : List (String × String)) → matches d pairs ≡ true → calls.find_block pairs ≡ ok true)
    → ((sender.sub ≡ d.blocker_user_id) × (to_id ≡ d.blocked_user_id))
      ⊎ ((sender.sub ≡ d.blocked_user_id) × (to_id ≡ d.blocker_user_id))
    → (send_message service_secret calls state svc' (ok sender) to_id body).2 ≡ none
post_block-send_message {f} p find_user insert_one now svc svc' who blocked_id reason d
      service_secret calls state sender to_id body inserted found between =
    elim (Option-cases (send_message service_secret calls state svc' (ok sender) to_id body).2) [
      | inl refused ↦ refused
      | inr (m, sent) ↦
          let (blocker, oid, w, same, r, ne, from, exists) =
            post_block-IsProper p find_user insert_one now svc who blocked_id reason d inserted in
          let (identity, from_oid, to_oid, e, parses, parses', sendable, doc, permitted) =
            send_message-IsProper service_secret calls state svc' (ok sender) to_id body m sent in
          let same_sender : sender ≡ identity = cc in
          let hit =
            found ((sender.sub, to_id) ∷ (to_id, sender.sub) ∷ [])
              (matches-pair d sender.sub to_id between) in
          elim permitted [
            | inl to_self ↦ absurd (elim between [
              | inl (a, b) ↦
                  ne (sym a ∙ ap (λ (i : GatewayIdentity). i.sub) same_sender ∙ to_self ∙ b)
              | inr (a, b) ↦
                  ne (
                    sym b ∙ sym to_self ∙ sym (ap (λ (i : GatewayIdentity). i.sub) same_sender) ∙ a)
            ])
            | inr (free, peers) ↦ absurd (cc)
          ]
    ]
