-- ===== src/Messages/Deliver.antt =====
-- When a message is delivered: the checks of services/messages-service/src/main.rs pass.
use Prim.Native.String.{len}
use bbn.Prelude.{
  ℕ, ◌≡◌, refl, Bool, true, false, not, ◌||◌, Option, none, some, arith, inl, inr, ◌⊎◌, String,
  string_eq, eq_iff, ◌==◌, eqb, ltb,
}
use bbn.Prelude.Int.{ℤ}
use bbn.Text.{trim}
use bbn.Float.{Float}
use bbn.Rate.{check_user_rate}
use bbn.Service.{Refusal, Result, ok, Platform, ServiceClaims, GatewayIdentity, unwrap_or}
use bbn.Service.TokenCache.{Cached, get}
use bbn.Messages.{
  AppState, Calls, PairStatus, Coords, NewMessage, answered, is_success, body_if, unavailable,
  tier_unavailable, is_valid_tier, valid_text, block_check, pair_check, sender_location,
  radius_check, proximity_check, peer_checks, insert_message, new_message, deliver, send_message,
}
use bbn.Messages.Peers.{Answers, AreWithin}
use bbn.Messages.Send.{IsSendable, AreUnblocked}

body_if-ok :
    {A : Type 0} (passes : ℕ → Bool) (r : Refusal) (status : ℕ) (a : A)
    → passes status ≡ true
    → body_if passes r (answered status (some a)) ≡ ok a
body_if-ok passes r status a h = ground (arith, h)

module _ {f : Float} {p : Platform} (service_secret : String) (calls : Calls f p)
    (svc_token : String) (identity : GatewayIdentity) (recipient_tier : Option String)
    (from_oid to_oid : p.ObjectId) where
  radius_check_passes :
      (from_loc to_loc : Coords f)
      → is_valid_tier identity.tier ≡ true
      → is_valid_tier (unwrap_or "regular" recipient_tier) ≡ true
      → AreWithin service_secret calls svc_token identity recipient_tier from_oid to_oid from_loc
          to_loc
      → radius_check service_secret calls svc_token identity.tier
          (unwrap_or "regular" recipient_tier)
          from_loc
          to_loc
        ≡ none
  unfolding radius_check
  radius_check_passes from_loc to_loc v v' (s, r, (st, e, g), (st', e', g'), close, close') =
      let rt = unwrap_or "regular" recipient_tier in
      let good : (not (is_valid_tier identity.tier) || not (is_valid_tier rt)) ≡ false =
        rw (v, v') refl in
      let s_ok : body_if is_success tier_unavailable (calls.message_radius svc_token identity.tier)
          ≡ ok s =
        rw e (body_if-ok is_success tier_unavailable st s g) in
      let r_ok : body_if is_success tier_unavailable (calls.message_radius svc_token rt) ≡ ok r =
        rw e' (body_if-ok is_success tier_unavailable st' r g') in
      rw (good, radius_check, s_ok, r_ok, close, close') refl

  -- The recipient shares a location and both tiers are valid and reach over the distance, or the
  -- recipient shares none and the pair was last seen within range.
  abbrev pub AreInReach : PairStatus → Coords f → Type 0
  AreInReach pair from_loc =
      ((to_loc : Coords f) × Answers (λ status. eqb status 200)
          (calls.location svc_token (p.to_hex to_oid)) to_loc
        × (is_valid_tier identity.tier ≡ true)
        × (is_valid_tier (unwrap_or "regular" recipient_tier) ≡ true)
        × AreWithin service_secret calls svc_token identity recipient_tier from_oid to_oid from_loc
            to_loc)
      ⊎ ((status : ℕ) × (body : Option (Coords f)) × (calls.location svc_token (p.to_hex to_oid)
            ≡ answered status body)
          × (eqb status 200 ≡ false)
          × (pair.within_range ≡ some true))

  proximity_check_passes :
      (pair : PairStatus) (from_loc : Coords f)
      → AreInReach pair from_loc
      → proximity_check service_secret calls svc_token identity recipient_tier pair from_loc to_oid
        ≡ none
  unfolding proximity_check
  proximity_check_passes pair from_loc (inl (to_loc, (status, e, online), v, v', within)) =
      rw (e, proximity_check, online) (radius_check_passes from_loc to_loc v v' within)
  proximity_check_passes pair from_loc (inr (status, body, e, offline, near)) =
      rw (e, proximity_check, offline, near) refl

  -- The two users are mutual favourites, the sender shares a location, and the recipient is in reach.
  abbrev pub AreMutualInReach : Type 0
  AreMutualInReach =
      (pair : PairStatus) × (from_loc : Coords f) × Answers is_success
        (calls.pair_status svc_token (p.to_hex from_oid) (p.to_hex to_oid)) pair
      × (pair.is_mutual ≡ true)
      × Answers (λ status. eqb status 200) (calls.location svc_token (p.to_hex from_oid)) from_loc
      × AreInReach pair from_loc

  peer_checks_pass :
      AreMutualInReach
      → peer_checks service_secret calls (some svc_token) identity recipient_tier from_oid to_oid
        ≡ none
  unfolding peer_checks pair_check sender_location
  peer_checks_pass (pair, from_loc, (st, e, g), both, (st', e', g'), near) =
      let answer : body_if is_success unavailable
            (calls.pair_status svc_token (p.to_hex from_oid) (p.to_hex to_oid))
          ≡ ok pair =
        rw e (body_if-ok is_success unavailable st pair g) in
      rw (peer_checks, answer, both, e', g') (proximity_check_passes pair from_loc near)

module _ {f : Float} {p : Platform} (service_secret : String) (calls : Calls f p) where
  -- A message to oneself, or one to a user whom no block separates from the sender, who is a mutual
  -- favourite and in reach, when there is a service token.
  abbrev pub MayReach :
      Cached → GatewayIdentity → String → Option String → p.ObjectId → p.ObjectId → Type 0
  MayReach cache identity to_id recipient_tier from_oid to_oid =
      (identity.sub ≡ to_id)
      ⊎ (((identity.sub == to_id) ≡ false)
          × AreUnblocked service_secret calls identity.sub to_id
          × ((token : String) × ((get p "messages" service_secret cache calls.token_now).0
                ≡ some token)
              × AreMutualInReach service_secret calls token identity recipient_tier from_oid
                  to_oid))

  -- The answer and the document of a message that is delivered.
  abbrev pub IsDelivered :
      NewMessage → String → Result Refusal (String × ℤ) × AppState × Option NewMessage → Type 0
  IsDelivered doc id out = (out.0 ≡ ok (id, doc.expires_at)) × (out.2 ≡ some doc)

  insert_message-IsDelivered :
      (state : AppState) (doc : NewMessage) (id : String)
      → calls.insert_one doc ≡ ok id
      → IsDelivered doc id (insert_message service_secret calls state doc)
  insert_message-IsDelivered state doc id h = rw (insert_message, h) (refl, refl)

  deliver-IsDelivered :
      (state : AppState) (identity : GatewayIdentity) (to_id text id : String)
      (from_oid to_oid : p.ObjectId) (recipient_tier : Option String)
      → calls.find_recipient to_oid ≡ ok (some recipient_tier)
      → MayReach state.svc_token_cache identity to_id recipient_tier from_oid to_oid
      → calls.insert_one
          (new_message service_secret calls state.settings.message_ttl_ms identity.sub to_id text)
        ≡ ok id
      → IsDelivered
          (new_message service_secret calls state.settings.message_ttl_ms identity.sub to_id text)
          id
          (deliver service_secret calls state identity to_id text from_oid to_oid)
  unfolding deliver block_check
  deliver-IsDelivered state identity to_id text id from_oid to_oid recipient_tier exists' (inl own)
        inserted =
      let self : (identity.sub == to_id) ≡ true = (eq_iff identity.sub to_id).1 own in
      rw (deliver, exists', self) (insert_message-IsDelivered state _ id inserted)
  deliver-IsDelivered state identity to_id text id from_oid to_oid recipient_tier exists'
        (inr (other, free, (token, made, near))) inserted =
      let passes =
        peer_checks_pass service_secret calls token identity recipient_tier from_oid to_oid near in
      rw (deliver, exists', other, free, made, passes) (insert_message-IsDelivered _ _ id inserted)

  -- A message is delivered whenever it may be: the sender is below the rate limit, the text is sendable,
  -- both ids are valid, the recipient exists, the sender writes to themselves or may reach the recipient,
  -- and the database takes the document. Then the answer is the id and the expiry, and the document is
  -- the message with the trimmed text.
  pub send_message-IsDelivered :
      (state : AppState) (svc : ServiceClaims) (identity : GatewayIdentity) (to_id raw id : String)
      (from_oid to_oid : p.ObjectId) (recipient_tier : Option String)
      → (check_user_rate state.user_buckets calls.rate_now identity.sub state.settings.user_rate_max
          state.settings.user_rate_window).1
        ≡ true
      → IsSendable service_secret calls state.settings.message_max_chars (trim raw)
      → p.from_str identity.sub ≡ some from_oid
      → p.from_str to_id ≡ some to_oid
      → calls.find_recipient to_oid ≡ ok (some recipient_tier)
      → MayReach state.svc_token_cache identity to_id recipient_tier from_oid to_oid
      → calls.insert_one (
          new_message service_secret calls state.settings.message_ttl_ms identity.sub to_id
            (trim raw))
        ≡ ok id
      → IsDelivered
          (new_message service_secret calls state.settings.message_ttl_ms identity.sub to_id
            (trim raw))
          id
          (send_message service_secret calls state (ok svc) (ok identity) to_id (some raw))
  unfolding send_message valid_text
  send_message-IsDelivered state svc identity to_id raw id from_oid to_oid recipient_tier may
        sendable parses parses' exists' reach inserted =
      let (full, fits, cipher) = sendable in
      let short : ltb state.settings.message_max_chars (len (trim raw)) ≡ false =
        ground (arith, fits) in
      let text : valid_text service_secret calls state.settings.message_max_chars (some raw)
          ≡ ok (trim raw) =
        rw (full, valid_text, short, cipher) refl in
      rw (send_message, may, text, parses, parses')
        (deliver-IsDelivered _ identity to_id (trim raw) id from_oid to_oid recipient_tier exists'
          reach inserted)
