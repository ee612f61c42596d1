-- ===== src/Messages/Threads.antt =====
-- What the lists of messages of services/messages-service/src/main.rs show.
use bbn.Prelude.{
  ◌≡◌, refl, ap, ◌∙◌, Bool, true, false, ◌&&◌, ◌||◌, List, [], ◌∷◌, Option, none, some, arith,
  Option-cases, Bool-cases, inl, inr, ◌⊎◌, String, string_eq, eq_iff, ◌==◌, map,
}
use bbn.Prelude.{All, All-imp, Any}
use bbn.Prelude.Int.{ℤ, ltb_ℤ}
use bbn.Service.{Refusal, Result, err, ok, Platform, ServiceClaims, GatewayIdentity}
use bbn.Service.Auth.Revocation.{Result-cases}
use bbn.Messages.{NewMessage}
use bbn.Messages.Read.{
  MessageDoc, MessageView, MessageQuery, ReadCalls, msg_to_json, listed, own_messages, thread_of,
  get_thread,
}

-- Whether a message meets a query: one of the pairs, and an expiry after the date.
abbrev pub is_at : Option String → String → Bool
is_at none id = true
is_at (some wanted) id = wanted == id

abbrev pub one_of : List (Option String × Option String) → String → String → Bool
one_of [] from to = false
one_of ((a, b) ∷ pairs) from to = (is_at a from && is_at b to) || one_of pairs from to

abbrev pub expires_after : ℤ → Option ℤ → Bool
expires_after now none = false
expires_after now (some date) = ltb_ℤ now date

abbrev pub selects : {p : Platform} → MessageQuery → MessageDoc p → Bool
selects query d =
    one_of query.any_of d.from_user_id d.to_user_id
    && expires_after query.expires_after d.expires_at

Any-map :
    {A B : Type 0} (g : A → B) (P : A → Type 0) (Q : B → Type 0)
    → ((x : A) → P x → Q (g x))
    → (xs : List A) → Any P xs
    → Any Q (map g xs)
Any-map g P Q h [] found = found
Any-map g P Q h (x ∷ xs) (inl here) = inl (h x here)
Any-map g P Q h (x ∷ xs) (inr there) = inr (Any-map g P Q h xs there)

module _ {p : Platform} (calls : ReadCalls p) where
  -- The document is in the collection: each query that selects it is answered with it.
  abbrev pub IsStored : MessageDoc p → Type 0
  IsStored d =
      (query : MessageQuery)
      → selects query d ≡ true
      → (docs : List (MessageDoc p)) × (calls.find_messages query ≡ ok (some docs))
        × Any (λ x. x ≡ d) docs

  -- The answer is a list with the message.
  abbrev pub Shows : MessageDoc p → Result Refusal (List MessageView) → Type 0
  Shows d out =
      (views : List MessageView) × (out ≡ ok views) × Any (λ v. v ≡ msg_to_json calls d) views

  pub listed-Shows :
      (query : MessageQuery) (d : MessageDoc p)
      → IsStored d
      → selects query d ≡ true
      → Shows d (listed calls query)
  listed-Shows query d stored hit =
      let (docs, found, there) = stored query hit in
      (
        map (msg_to_json calls) docs,
        rw (listed, found) refl,
        Any-map (msg_to_json calls) (λ x. x ≡ d) (λ v. v ≡ msg_to_json calls d)
            (λ x e. ap (msg_to_json calls) e) docs there,
      )

  pub get_thread-Shows :
      (svc : ServiceClaims) (identity : GatewayIdentity) (other_id : String) (oid : p.ObjectId)
      (d : MessageDoc p)
      → p.from_str other_id ≡ some oid
      → calls.find_user oid ≡ ok true
      → IsStored d
      → selects (thread_of calls identity.sub other_id) d ≡ true
      → Shows d (get_thread calls (ok svc) (ok identity) other_id)
  unfolding get_thread
  get_thread-Shows svc identity other_id oid d parses exists' stored hit =
      rw (get_thread, parses, exists') (listed-Shows _ d stored hit)

  -- The database answers a query with messages that it selects.
  abbrev pub FindsSelected : Type 0
  FindsSelected =
      (query : MessageQuery) (docs : List (MessageDoc p))
      → calls.find_messages query ≡ ok (some docs)
      → All (λ d. selects query d ≡ true) docs

  -- The answer is a list of stored messages that the query selects.
  abbrev ListsSelected : MessageQuery → List MessageView → Type 0
  ListsSelected query views =
      (docs : List (MessageDoc p)) × (views ≡ map (msg_to_json calls) docs)
      × All (λ d. selects query d ≡ true) docs

  listed-ListsSelected :
      (query : MessageQuery) (views : List MessageView)
      → FindsSelected
      → listed calls query ≡ ok views
      → ListsSelected query views
  listed-ListsSelected query views only h = elim (Result-cases (calls.find_messages query)) [
    | inl (e, fails) ↦ absurd (cc (rw (listed, fails) at h))
    | inr (found, answer) ↦ elim (Option-cases found) [
      | inl broken ↦ let e : ok [] ≡ ok views = rw (listed, answer, broken) at h in ([], cc, tt)
      | inr (docs, all) ↦
          let e : ok (map (msg_to_json calls) docs) ≡ ok views = rw (listed, answer, all) at h in
          (docs, cc, only query docs (answer ∙ ap ok all))
    ]
  ]

  -- The message goes from one of two users to the other and has not expired.
  abbrev pub IsOfThread : String → String → MessageDoc p → Type 0
  IsOfThread me other_id d =
      (((d.from_user_id ≡ me) × (d.to_user_id ≡ other_id))
        ⊎ ((d.from_user_id ≡ other_id) × (d.to_user_id ≡ me)))
      × (expires_after calls.now d.expires_at ≡ true)

  selects-IsOfThread :
      (me other_id : String) (d : MessageDoc p)
      → selects (thread_of calls me other_id) d ≡ true
      → IsOfThread me other_id d
  selects-IsOfThread me other_id d h = ground (
    arith,
    eq_iff me d.from_user_id,
    eq_iff other_id d.to_user_id,
    eq_iff other_id d.from_user_id,
    eq_iff me d.to_user_id,
  )

  pub thread_of-selects :
      (me other_id : String) (d : MessageDoc p)
      → IsOfThread me other_id d
      → selects (thread_of calls me other_id) d ≡ true
  thread_of-selects me other_id d h = ground (
    arith,
    eq_iff me d.from_user_id,
    eq_iff other_id d.to_user_id,
    eq_iff other_id d.from_user_id,
    eq_iff me d.to_user_id,
  )

  pub own_messages-selects :
      (me : String) (d : MessageDoc p)
      → (d.from_user_id ≡ me) ⊎ (d.to_user_id ≡ me)
      → expires_after calls.now d.expires_at ≡ true
      → selects (own_messages calls me) d ≡ true
  own_messages-selects me d mine unexpired =
      ground (arith, eq_iff me d.from_user_id, eq_iff me d.to_user_id)

  -- Where the database answers a query only with messages that it selects, a thread that is answered
  -- consists of messages that the caller, whom the gateway vouches for, and the other user have sent
  -- each other and that have not expired.
  pub get_thread-IsOfThread :
      (svc : Result Refusal ServiceClaims) (who : Result Refusal GatewayIdentity)
      (other_id : String) (views : List MessageView)
      → FindsSelected
      → get_thread calls svc who other_id ≡ ok views
      → (identity : GatewayIdentity) × (docs : List (MessageDoc p)) × (who ≡ ok identity)
        × (views ≡ map (msg_to_json calls) docs)
        × All (IsOfThread identity.sub other_id) docs
  unfolding get_thread
  get_thread-IsOfThread (err r) who other_id views only h = cc
  get_thread-IsOfThread (ok svc) (err r) other_id views only h = cc
  get_thread-IsOfThread (ok svc) (ok identity) other_id views only h =
      elim (Option-cases (p.from_str other_id)) [
        | inl bad ↦ absurd (cc (rw (get_thread, bad) at h))
        | inr (oid, parses) ↦ elim (Result-cases (calls.find_user oid)) [
          | inl (e, fails) ↦ absurd (cc (rw (get_thread, parses, fails) at h))
          | inr (exists', answer) ↦ elim (Bool-cases exists') [
            | inr gone ↦ absurd (cc (rw (get_thread, parses, answer, gone) at h))
            | inl there ↦
                let query = thread_of calls identity.sub other_id in
                let (docs, e, selected) =
                  listed-ListsSelected query views only
                    (rw (get_thread, parses, answer, there) at h) in
                (
                  identity,
                  docs,
                  refl,
                  e,
                  All-imp (λ d. selects query d ≡ true) (IsOfThread identity.sub other_id) docs
                      (λ d hit. selects-IsOfThread identity.sub other_id d hit) selected,
                )
          ]
        ]
      ]

  -- The document of a message that was inserted, with its id.
  abbrev pub stored_as : p.ObjectId → NewMessage → MessageDoc p
  stored_as id m = record {
    id = id;
    from_user_id = m.from_user_id;
    to_user_id = m.to_user_id;
    text = m.text;
    sent_at = some m.sent_at;
    expires_at = some m.expires_at;
  }
