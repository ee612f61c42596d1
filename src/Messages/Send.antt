-- ===== src/Messages/Send.antt =====
-- What holds of every message that `send_message` inserts.
use mathlib.Core.Path.{subst}
use bbn.Prelude.{
  sym, ℕ, ◌≤◌, ◌≡◌, refl, true, false, [], ◌∷◌, Option, none, some, arith, String, string_eq,
  eq_iff, ◌==◌, ltb, Bool-cases, Option-cases, inl, inr, ◌⊎◌,
}
use Prim.Native.String.{len}
use bbn.Text.{trim, is_empty}
use bbn.Float.{Float}
use bbn.Rate.{check_user_rate}
use bbn.Service.{
  Refusal, Result, err, ok, Platform, ServiceClaims, GatewayIdentity, unwrap_or, DbError,
}
use bbn.Service.TokenCache.{get}
use bbn.Service.Auth.Revocation.{Result-cases}
use bbn.Messages.{
  AppState, Calls, NewMessage, valid_text, is_valid_ciphertext, block_check, peer_checks,
  insert_message, new_message, deliver, send_message, StoredMessage, delete_message,
}
use bbn.Messages.Peers.{ArePeers, peer_checks-ArePeers}

module _ {f : Float} {p : Platform} (service_secret : String) (calls : Calls f p) where
  -- A text that `send_message` lets through.
  abbrev pub IsSendable : ℕ → String → Type 0
  IsSendable max_chars text =
      (is_empty text ≡ false)
      × (len text ≤ max_chars)
      × (is_valid_ciphertext service_secret calls text ≡ true)

  valid_text-IsSendable :
      (max_chars : ℕ) (body : Option String) (text : String)
      → valid_text service_secret calls max_chars body ≡ ok text
      → IsSendable max_chars text
  unfolding valid_text
  valid_text-IsSendable max_chars none text h = cc
  valid_text-IsSendable max_chars (some t) text h =
      let s = trim t in
      elim (Bool-cases (is_empty s)) [
        | inl blank ↦ absurd (cc (rw (blank, valid_text) at h))
        | inr full ↦ elim (Bool-cases (ltb max_chars (len s))) [
          | inl long ↦ absurd (cc (rw (full, valid_text, long) at h))
          | inr fits ↦ elim (Bool-cases (is_valid_ciphertext service_secret calls s)) [
            | inl cipher ↦
                let same : ok s ≡ ok text = rw (full, valid_text, fits, cipher) at h in
                let e : s ≡ text = cc in
                (
                  rw e at full,
                  (let k : ltb max_chars (len text) ≡ false = rw e at fits in ground arith),
                  rw e at cipher,
                )
            | inr plain ↦ absurd (cc (rw (full, valid_text, fits, plain) at h))
          ]
        ]
      ]

  -- No block stands between the two users, in either direction.
  abbrev pub AreUnblocked : String → String → Type 0
  AreUnblocked from_id to_id =
      calls.find_block ((from_id, to_id) ∷ (to_id, from_id) ∷ []) ≡ ok false

  pub block_check-AreUnblocked :
      (from_id to_id : String)
      → block_check service_secret calls from_id to_id ≡ none
      → AreUnblocked from_id to_id
  unfolding block_check
  block_check-AreUnblocked from_id to_id h =
      elim (Result-cases (calls.find_block ((from_id, to_id) ∷ (to_id, from_id) ∷ []))) [
        | inl (e, fails) ↦ absurd (cc (rw (fails, block_check) at h))
        | inr (found, answer) ↦ elim (Bool-cases found) [
          | inl blocked ↦ absurd (cc (rw (answer, block_check, blocked) at h))
          | inr free ↦ ground (arith, answer, free)
        ]
      ]

  insert_message-doc :
      (state : AppState) (doc d : NewMessage)
      → (insert_message service_secret calls state doc).2 ≡ some d
      → d ≡ doc
  insert_message-doc state doc d h = elim (Result-cases (calls.insert_one doc)) [
    | inl (e, fails) ↦ ground (arith, fails, h)
    | inr (id, done) ↦ ground (arith, done, h)
  ]

  -- A message to oneself, or one to a user whom no block separates from the sender, who is a mutual
  -- favourite, and who is close.
  abbrev pub IsPermitted : GatewayIdentity → String → p.ObjectId → p.ObjectId → Type 0
  IsPermitted identity to_id from_oid to_oid =
      (identity.sub ≡ to_id)
      ⊎ (AreUnblocked identity.sub to_id
          × ((svc_token : String) × (recipient_tier : Option String) × (calls.find_recipient to_oid
                ≡ ok (some recipient_tier))
              × ArePeers service_secret calls svc_token identity recipient_tier from_oid to_oid))

  deliver-IsPermitted :
      (state : AppState) (identity : GatewayIdentity) (to_id text : String)
      (from_oid to_oid : p.ObjectId) (d : NewMessage)
      → (deliver service_secret calls state identity to_id text from_oid to_oid).2 ≡ some d
      → (d ≡ new_message service_secret calls state.settings.message_ttl_ms identity.sub to_id text)
        × IsPermitted identity to_id from_oid to_oid
  unfolding deliver peer_checks
  deliver-IsPermitted state identity to_id text from_oid to_oid d h =
      let doc =
        new_message service_secret calls state.settings.message_ttl_ms identity.sub to_id text in
      elim (Result-cases (calls.find_recipient to_oid)) [
        | inl (e, fails) ↦ absurd (cc (rw (fails, deliver) at h))
        | inr (found, answer) ↦ elim (Option-cases found) [
          | inl gone ↦ absurd (cc (rw (answer, deliver, gone) at h))
          | inr (tier, exists') ↦ elim (Bool-cases (identity.sub == to_id)) [
            | inl self ↦ (
              insert_message-doc state doc d (rw (answer, deliver, exists', self) at h),
              inl ((eq_iff identity.sub to_id).0 self),
            )
            | inr other ↦
                elim (Option-cases (block_check service_secret calls identity.sub to_id)) [
                  | inr (r, blocked) ↦
                      absurd (cc (rw (answer, deliver, exists', other, blocked) at h))
                  | inl free ↦
                      let out =
                        get p "messages" service_secret state.svc_token_cache calls.token_now in
                      elim (Option-cases
                        (peer_checks service_secret calls out.0 identity tier from_oid to_oid)) [
                          | inr (r, refused) ↦
                              absurd (cc (rw (answer, deliver, exists', other, free, refused) at h))
                          | inl passes ↦ elim (Option-cases out.0) [
                            | inl no_token ↦ absurd (cc (rw (no_token, peer_checks) at passes))
                            | inr (svc_token, made) ↦ (
                              insert_message-doc (record state { svc_token_cache = out.1 }) doc d
                                  (rw (answer, deliver, exists', other, free, passes) at h),
                              inr (
                                block_check-AreUnblocked identity.sub to_id free,
                                (
                                  svc_token,
                                  tier,
                                  ground (arith, answer, exists'),
                                  peer_checks-ArePeers service_secret calls svc_token identity tier
                                      from_oid to_oid (rw made at passes),
                                ),
                              ),
                            )
                          ]
                        ]
                ]
          ]
        ]
      ]

  -- What a message that is inserted satisfies.
  abbrev pub IsProper : AppState → Result Refusal GatewayIdentity → String → NewMessage → Type 0
  IsProper state who to_id d =
      (identity : GatewayIdentity) × (from_oid : p.ObjectId) × (to_oid : p.ObjectId) × (who
        ≡ ok identity)
      × (p.from_str identity.sub ≡ some from_oid)
      × (p.from_str to_id ≡ some to_oid)
      × IsSendable state.settings.message_max_chars d.text
      × (d
          ≡ new_message service_secret calls state.settings.message_ttl_ms identity.sub to_id
              d.text)
      × IsPermitted identity to_id from_oid to_oid

  -- Every message that `send_message` gives to the database comes from the identity that the gateway
  -- vouches for and goes to the user of the path; its text is a ciphertext within the limit, it expires
  -- after the configured time, and it is permitted: the sender writes to themselves, or no block is
  -- found for the two ids, the two are mutual favourites, the sender shares a location, and the two
  -- are close.
  pub send_message-IsProper :
      (state : AppState) (svc : Result Refusal ServiceClaims) (who : Result Refusal GatewayIdentity)
      (to_id : String) (body : Option String) (d : NewMessage)
      → (send_message service_secret calls state svc who to_id body).2 ≡ some d
      → IsProper state who to_id d
  unfolding send_message
  send_message-IsProper state (err r) who to_id body d h = cc
  send_message-IsProper state (ok svc) (err r) to_id body d h = cc
  send_message-IsProper state (ok svc) (ok identity) to_id body d h =
      let settings = state.settings in
      let rate =
        check_user_rate state.user_buckets calls.rate_now identity.sub settings.user_rate_max
          settings.user_rate_window in
      let state' = record state { user_buckets = rate.0 } in
      elim (Bool-cases rate.1) [
        | inr over ↦ absurd (cc (rw (over, send_message) at h))
        | inl may ↦
            elim (Result-cases (valid_text service_secret calls settings.message_max_chars body)) [
              | inl (r, bad) ↦ absurd (cc (rw (may, send_message, bad) at h))
              | inr (text, good) ↦ elim (Option-cases (p.from_str identity.sub)) [
                | inl gone ↦ absurd (cc (rw (may, send_message, good, gone) at h))
                | inr (from_oid, from_e) ↦ elim (Option-cases (p.from_str to_id)) [
                  | inl gone ↦ absurd (cc (rw (may, send_message, good, from_e, gone) at h))
                  | inr (to_oid, to_e) ↦
                      let (made, permitted) =
                        deliver-IsPermitted state' identity to_id text from_oid to_oid d
                          (rw (may, send_message, good, from_e, to_e) at h) in
                      let e : d.text ≡ text = ground (arith, made) in
                      (
                        identity,
                        from_oid,
                        to_oid,
                        refl,
                        from_e,
                        to_e,
                        rw e (valid_text-IsSendable settings.message_max_chars body text good),
                        subst
                            (λ t.
                              d
                              ≡ new_message service_secret calls settings.message_ttl_ms
                                  identity.sub to_id t)
                            (sym e) made,
                        permitted,
                      )
                ]
              ]
            ]
      ]

-- `delete_message` gives a message to the database for deletion only if the identity that the gateway
-- vouches for is its sender.
pub delete_message-sender :
    (p : Platform) (find_one : p.ObjectId → Result DbError (Option StoredMessage))
    (delete_one : p.ObjectId → Result DbError Unit) (svc : Result Refusal ServiceClaims)
    (who : Result Refusal GatewayIdentity) (msg_id : String) (oid : p.ObjectId)
    → (delete_message p find_one delete_one svc who msg_id).1 ≡ some oid
    → (identity : GatewayIdentity) × (msg : StoredMessage) × (who ≡ ok identity)
      × (p.from_str msg_id ≡ some oid)
      × (find_one oid ≡ ok (some msg))
      × (unwrap_or "" msg.from_user_id ≡ identity.sub)
unfolding delete_message
delete_message-sender p find_one delete_one (err r) who msg_id oid h = cc
delete_message-sender p find_one delete_one (ok svc) (err r) msg_id oid h = cc
delete_message-sender p find_one delete_one (ok svc) (ok identity) msg_id oid h =
    elim (Option-cases (p.from_str msg_id)) [
      | inl gone ↦ absurd (cc (rw (gone, delete_message) at h))
      | inr (id, parsed) ↦ elim (Result-cases (find_one id)) [
        | inl (e, fails) ↦ absurd (cc (rw (parsed, delete_message, fails) at h))
        | inr (found, answer) ↦ elim (Option-cases found) [
          | inl gone ↦ absurd (cc (rw (parsed, delete_message, answer, gone) at h))
          | inr (msg, there) ↦ elim (Bool-cases (unwrap_or "" msg.from_user_id == identity.sub)) [
            | inr other ↦ absurd (cc (rw (parsed, delete_message, answer, there, other) at h))
            | inl own ↦ elim (Result-cases (delete_one id)) [
              | inl (e, fails) ↦
                  let k : some id ≡ some oid =
                    rw (parsed, delete_message, answer, there, own, fails) at h in
                  let same : id ≡ oid = cc in
                  (
                    identity,
                    msg,
                    refl,
                    ground (arith, parsed, same),
                    ground (arith, answer, there, same),
                    (eq_iff _ _).0 own,
                  )
              | inr (done, deleted) ↦
                  let k : some id ≡ some oid =
                    rw (parsed, delete_message, answer, there, own, deleted) at h in
                  let same : id ≡ oid = cc in
                  (
                    identity,
                    msg,
                    refl,
                    ground (arith, parsed, same),
                    ground (arith, answer, there, same),
                    (eq_iff _ _).0 own,
                  )
            ]
          ]
        ]
      ]
    ]
