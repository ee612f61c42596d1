-- ===== src/Messages/Exact.antt =====
-- Exactly when `send_message` of services/messages-service/src/main.rs delivers a message.
use Prim.Native.String.{len}
use bbn.Prelude.{
  ℕ, ◌≡◌, refl, sym, ap, ◌∙◌, true, false, Option, none, some, arith, inl, inr, ◌↔◌, String,
  string_eq, eq_iff, ◌==◌, eqb, ltb, Bool-cases, Option-cases,
}
use bbn.Text.{trim, is_empty}
use bbn.Float.{Float}
use bbn.Rate.{check_user_rate}
use bbn.Service.{ok, Platform, ServiceClaims, GatewayIdentity, unwrap_or}
use bbn.Service.TokenCache.{get}
use bbn.Service.Auth.Revocation.{Result-cases}
use bbn.Messages.{
  AppState, Calls, PairStatus, Coords, NewMessage, is_valid_tier, is_valid_ciphertext, valid_text,
  block_check, pair_check, sender_location, radius_check, proximity_check, peer_checks,
  insert_message, new_message, deliver, send_message,
}
use bbn.Messages.Peers.{
  radius_check-AreWithin, pair_check-mutual, sender_location-Answers, HttpReply-cases,
}
use bbn.Messages.Send.{IsSendable, block_check-AreUnblocked}
use bbn.Messages.Deliver.{
  AreInReach, AreMutualInReach, MayReach, IsDelivered, send_message-IsDelivered,
}

module _ {f : Float} {p : Platform} (service_secret : String) (calls : Calls f p)
    (svc_token : String) (identity : GatewayIdentity) (recipient_tier : Option String)
    (from_oid to_oid : p.ObjectId) where
  radius_check-tiers :
      (from_loc to_loc : Coords f)
      → radius_check service_secret calls svc_token identity.tier
          (unwrap_or "regular" recipient_tier)
          from_loc
          to_loc
        ≡ none
      → (is_valid_tier identity.tier ≡ true)
        × (is_valid_tier (unwrap_or "regular" recipient_tier) ≡ true)
  unfolding radius_check
  radius_check-tiers from_loc to_loc h = elim (Bool-cases (is_valid_tier identity.tier)) [
    | inr bad ↦ absurd (cc (rw (bad, radius_check) at h))
    | inl good ↦ elim (Bool-cases (is_valid_tier (unwrap_or "regular" recipient_tier))) [
      | inr bad ↦ absurd (cc (rw (good, radius_check, bad) at h))
      | inl good' ↦ (good, good')
    ]
  ]

  proximity_check-AreInReach :
      (pair : PairStatus) (from_loc : Coords f)
      → proximity_check service_secret calls svc_token identity recipient_tier pair from_loc to_oid
        ≡ none
      → AreInReach service_secret calls svc_token identity recipient_tier from_oid to_oid pair
          from_loc
  unfolding proximity_check
  proximity_check-AreInReach pair from_loc h =
      elim (HttpReply-cases (calls.location svc_token (p.to_hex to_oid))) [
        | inl gone ↦ absurd (cc (rw (gone, proximity_check) at h))
        | inr (status, body, replied) ↦ elim (Bool-cases (eqb status 200)) [
          | inl online ↦ elim (Option-cases body) [
            | inl empty ↦ absurd (cc (rw (replied, proximity_check, online, empty) at h))
            | inr (to_loc, parsed) ↦
                let passes = rw (replied, proximity_check, online, parsed) at h in
                let (good, good') = radius_check-tiers from_loc to_loc passes in
                inl (
                  to_loc,
                  (status, ground (arith, replied, parsed), online),
                  good,
                  good',
                  radius_check-AreWithin service_secret calls svc_token identity recipient_tier
                      from_oid to_oid from_loc to_loc passes,
                )
          ]
          | inr offline ↦ elim (Option-cases pair.within_range) [
            | inl unknown ↦ absurd (cc (rw (replied, proximity_check, offline, unknown) at h))
            | inr (within, known) ↦ elim (Bool-cases within) [
              | inl yes' ↦ inr (status, body, replied, offline, ground (arith, known, yes'))
              | inr no' ↦
                  let k : pair.within_range ≡ some false = ground (arith, known, no') in
                  absurd (cc (rw (replied, proximity_check, offline, k) at h))
            ]
          ]
        ]
      ]

  peer_checks-AreMutualInReach :
      peer_checks service_secret calls (some svc_token) identity recipient_tier from_oid to_oid
        ≡ none
      → AreMutualInReach service_secret calls svc_token identity recipient_tier from_oid to_oid
  unfolding peer_checks
  peer_checks-AreMutualInReach h =
      elim (Result-cases (pair_check service_secret calls svc_token from_oid to_oid)) [
        | inl (r, refused) ↦ absurd (cc (rw (refused, peer_checks) at h))
        | inr (pair, paired) ↦
            elim (Result-cases (sender_location service_secret calls svc_token from_oid)) [
              | inl (r, refused) ↦ absurd (cc (rw (paired, peer_checks, refused) at h))
              | inr (from_loc, located) ↦
                  let (answer, mutual') =
                    pair_check-mutual service_secret calls svc_token identity recipient_tier
                      from_oid to_oid pair paired in
                  (
                    pair,
                    from_loc,
                    answer,
                    mutual',
                    sender_location-Answers service_secret calls svc_token identity recipient_tier
                        from_oid to_oid from_loc located,
                    proximity_check-AreInReach pair from_loc
                        (rw (paired, peer_checks, located) at h),
                  )
            ]
      ]

module _ {f : Float} {p : Platform} (service_secret : String) (calls : Calls f p) where
  insert_message-inserted :
      (state : AppState) (doc m : NewMessage) (id : String)
      → IsDelivered service_secret calls m id (insert_message service_secret calls state doc)
      → (m ≡ doc) × (calls.insert_one m ≡ ok id)
  insert_message-inserted state doc m id (answered', given) =
      elim (Result-cases (calls.insert_one doc)) [
        | inl (e, fails) ↦ absurd (cc (rw (insert_message, fails) at answered'))
        | inr (id', done) ↦
            let k : some doc ≡ some m = rw (insert_message, done) at given in
            let k' : ok (id', doc.expires_at) ≡ ok (id, m.expires_at) =
              rw (insert_message, done) at answered' in
            let same : doc ≡ m = cc in
            let same' : id' ≡ id = cc in (sym same, rw (← same) (done ∙ ap ok same'))
      ]

  valid_text-trim :
      (max_chars : ℕ) (body : Option String) (text : String)
      → valid_text service_secret calls max_chars body ≡ ok text
      → (raw : String) × (body ≡ some raw)
        × (text ≡ trim raw)
        × IsSendable service_secret calls max_chars (trim raw)
  unfolding valid_text
  valid_text-trim max_chars none text h = cc
  valid_text-trim max_chars (some raw) text h = elim (Bool-cases (is_empty (trim raw))) [
    | inl blank ↦ absurd (cc (rw (blank, valid_text) at h))
    | inr full ↦ elim (Bool-cases (ltb max_chars (len (trim raw)))) [
      | inl long ↦ absurd (cc (rw (full, valid_text, long) at h))
      | inr fits ↦ elim (Bool-cases (is_valid_ciphertext service_secret calls (trim raw))) [
        | inr plain ↦ absurd (cc (rw (full, valid_text, fits, plain) at h))
        | inl cipher ↦
            let k : ok (trim raw) ≡ ok text = rw (full, valid_text, fits, cipher) at h in
            let same : trim raw ≡ text = cc in
            (raw, refl, sym same, (full, ground (arith, fits), cipher))
      ]
    ]
  ]

  -- What the part of the handler after the text rests on.
  abbrev MayDeliver :
      AppState
      → GatewayIdentity
      → String
      → String
      → p.ObjectId
      → p.ObjectId
      → NewMessage
      → String
      → Type 0
  MayDeliver state identity to_id text from_oid to_oid m id =
      (recipient_tier : Option String) × (calls.find_recipient to_oid ≡ ok (some recipient_tier))
      × MayReach service_secret calls state.svc_token_cache identity to_id recipient_tier from_oid
          to_oid
      × (m ≡ new_message service_secret calls state.settings.message_ttl_ms identity.sub to_id text)
      × (calls.insert_one m ≡ ok id)

  deliver-MayDeliver :
      (state : AppState) (identity : GatewayIdentity) (to_id text : String)
      (from_oid to_oid : p.ObjectId) (m : NewMessage) (id : String)
      → IsDelivered service_secret calls m id
          (deliver service_secret calls state identity to_id text from_oid to_oid)
      → MayDeliver state identity to_id text from_oid to_oid m id
  unfolding deliver
  deliver-MayDeliver state identity to_id text from_oid to_oid m id h =
      let doc =
        new_message service_secret calls state.settings.message_ttl_ms identity.sub to_id text in
      elim (Result-cases (calls.find_recipient to_oid)) [
        | inl (e, fails) ↦ absurd (cc (rw (deliver, fails) at h.1))
        | inr (found, answer) ↦ elim (Option-cases found) [
          | inl gone ↦ absurd (cc (rw (deliver, answer, gone) at h.1))
          | inr (tier, there) ↦ elim (Bool-cases (identity.sub == to_id)) [
            | inl self ↦
                let (same, inserted) =
                  insert_message-inserted state doc m id (rw (deliver, answer, there, self) at h) in
                (
                  tier,
                  answer ∙ ap ok there,
                  inl ((eq_iff identity.sub to_id).0 self),
                  same,
                  inserted,
                )
            | inr other ↦
                elim (Option-cases (block_check service_secret calls identity.sub to_id)) [
                  | inr (r, blocked) ↦
                      absurd (cc (rw (deliver, answer, there, other, blocked) at h.1))
                  | inl free ↦
                      let out =
                        get p "messages" service_secret state.svc_token_cache calls.token_now in
                      elim (Option-cases
                        (peer_checks service_secret calls out.0 identity tier from_oid to_oid)) [
                          | inr (r, refused) ↦
                              absurd (cc (rw (deliver, answer, there, other, free, refused) at h.1))
                          | inl passes ↦ elim (Option-cases out.0) [
                            | inl no_token ↦ absurd (cc (rw (no_token, peer_checks) at passes))
                            | inr (token, made) ↦
                                let (same, inserted) =
                                  insert_message-inserted (record state { svc_token_cache = out.1 })
                                    doc m id
                                    (rw (deliver, answer, there, other, free, passes) at h) in
                                (
                                  tier,
                                  answer ∙ ap ok there,
                                  inr (
                                    other,
                                    block_check-AreUnblocked service_secret calls identity.sub to_id
                                        free,
                                    (
                                      token,
                                      made,
                                      peer_checks-AreMutualInReach service_secret calls token
                                          identity tier from_oid to_oid (rw made at passes),
                                    ),
                                  ),
                                  same,
                                  inserted,
                                )
                          ]
                        ]
                ]
          ]
        ]
      ]

  -- The sender is below the rate limit, the text is sendable, both ids are valid, and the rest holds.
  abbrev pub MaySend :
      AppState → GatewayIdentity → String → Option String → NewMessage → String → Type 0
  MaySend state identity to_id body m id =
      (raw : String) × (from_oid : p.ObjectId) × (to_oid : p.ObjectId) × (body ≡ some raw)
      × ((check_user_rate state.user_buckets calls.rate_now identity.sub
            state.settings.user_rate_max state.settings.user_rate_window).1
          ≡ true)
      × IsSendable service_secret calls state.settings.message_max_chars (trim raw)
      × (p.from_str identity.sub ≡ some from_oid)
      × (p.from_str to_id ≡ some to_oid)
      × MayDeliver state identity to_id (trim raw) from_oid to_oid m id

  send_message-MaySend :
      (state : AppState) (svc : ServiceClaims) (identity : GatewayIdentity) (to_id : String)
      (body : Option String) (m : NewMessage) (id : String)
      → IsDelivered service_secret calls m id
          (send_message service_secret calls state (ok svc) (ok identity) to_id body)
      → MaySend state identity to_id body m id
  unfolding send_message
  send_message-MaySend state svc identity to_id body m id h =
      let settings = state.settings in
      let rate =
        check_user_rate state.user_buckets calls.rate_now identity.sub settings.user_rate_max
          settings.user_rate_window in
      elim (Bool-cases rate.1) [
        | inr over ↦ absurd (cc (rw (over, send_message) at h.1))
        | inl may ↦
            elim (Result-cases (valid_text service_secret calls settings.message_max_chars body)) [
              | inl (r, bad) ↦ absurd (cc (rw (may, send_message, bad) at h.1))
              | inr (text, good) ↦ elim (Option-cases (p.from_str identity.sub)) [
                | inl gone ↦ absurd (cc (rw (may, send_message, good, gone) at h.1))
                | inr (from_oid, from_e) ↦ elim (Option-cases (p.from_str to_id)) [
                  | inl gone ↦ absurd (cc (rw (may, send_message, good, from_e, gone) at h.1))
                  | inr (to_oid, to_e) ↦
                      let (raw, given, same, sendable) =
                        valid_text-trim settings.message_max_chars body text good in
                      let rest =
                        deliver-MayDeliver (record state { user_buckets = rate.0 }) identity to_id
                          text from_oid to_oid m id
                          (rw (may, send_message, good, from_e, to_e) at h) in
                      (raw, from_oid, to_oid, given, may, sendable, from_e, to_e, rw same at rest)
                ]
              ]
            ]
      ]

  -- A message is delivered, which means that the answer is its id and expiry and that it was given to the
  -- database, if and only if it may be: the sender is below the rate limit; the text is, trimmed, not
  -- empty, not too long and a ciphertext; both ids are valid and the recipient exists; the sender writes
  -- to themselves, or no block is found for the two ids as they are written, the two are mutual
  -- favourites, the sender shares a location, and the recipient shares one within the radii of both tiers
  -- or shares none and was last seen within range; the message is from the sender to the recipient with
  -- the trimmed text and the configured lifetime; and the database takes it.
  pub send_message-IsDelivered_iff :
      (state : AppState) (svc : ServiceClaims) (identity : GatewayIdentity) (to_id : String)
      (body : Option String) (m : NewMessage) (id : String)
      → IsDelivered service_secret calls m id
          (send_message service_secret calls state (ok svc) (ok identity) to_id body)
        ↔ MaySend state identity to_id body m id
  send_message-IsDelivered_iff state svc identity to_id body m id = (
    send_message-MaySend state svc identity to_id body m id,
    λ may.
        let (raw, from_oid, to_oid, given, below, sendable, parses, parses', rest) = may in
        let (tier, there, reach, same, inserted) = rest in
        let done =
          send_message-IsDelivered service_secret calls state svc identity to_id raw id from_oid
            to_oid tier below sendable parses parses' there reach (rw same at inserted) in
        rw (given, same) done,
  )
