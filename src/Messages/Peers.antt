-- ===== src/Messages/Peers.antt =====
-- What the checks between the two users guarantee when they pass.
use bbn.Prelude.{
  ℕ, ◌≡◌, refl, Bool, true, false, not, ◌||◌, Option, none, some, arith, String, Bool-cases,
  Option-cases, inl, inr, ◌⊎◌, eqb,
}
use bbn.Float.{Float}
use bbn.Geo.{haversine_distance}
use bbn.Service.{Refusal, ok, Platform, GatewayIdentity, unwrap_or}
use bbn.Service.Auth.Revocation.{Result-cases}
use bbn.Messages.{
  Calls, PairStatus, Coords, HttpReply, unreachable, answered, is_success, body_if,
  tier_unavailable, pair_check, sender_location, radius_check, proximity_check, peer_checks,
  reaches, is_valid_tier, unavailable,
}

-- A reply whose status passes the test and whose body parses.
abbrev pub Answers : {A : Type 0} → (ℕ → Bool) → HttpReply A → A → Type 0
Answers passes reply a = (status : ℕ) × (reply ≡ answered status (some a)) × (passes status ≡ true)

body_if-Answers :
    {A : Type 0} (passes : ℕ → Bool) (r : Refusal) (reply : HttpReply A) (a : A)
    → body_if passes r reply ≡ ok a
    → Answers passes reply a
body_if-Answers passes r unreachable a h = cc
body_if-Answers passes r (answered status none) a h = cc
body_if-Answers passes r (answered status (some b)) a h = elim (Bool-cases (passes status)) [
  | inl yes' ↦ (status, ground arith, yes')
  | inr no' ↦ absurd (ground arith)
]

pub HttpReply-cases :
    {A : Type 0} (reply : HttpReply A)
    → (reply ≡ unreachable) ⊎ ((status : ℕ) × (body : Option A) × (reply ≡ answered status body))
HttpReply-cases unreachable = inl refl
HttpReply-cases (answered status body) = inr (status, body, refl)

module _ {f : Float} {p : Platform} (service_secret : String) (calls : Calls f p)
    (svc_token : String) (identity : GatewayIdentity) (recipient_tier : Option String)
    (from_oid to_oid : p.ObjectId) where
  -- Each of the two users is within the other's radius, by the locations that are asked for at the
  -- time of the send.
  abbrev pub AreWithin : Coords f → Coords f → Type 0
  AreWithin from_loc to_loc =
      (s_radius : f.Num) × (r_radius : f.Num) × Answers is_success
        (calls.message_radius svc_token identity.tier) s_radius
      × Answers is_success (calls.message_radius svc_token (unwrap_or "regular" recipient_tier))
          r_radius
      × (reaches service_secret calls
            (haversine_distance f from_loc.lat from_loc.lon to_loc.lat to_loc.lon) s_radius
          ≡ true)
      × (reaches service_secret calls
            (haversine_distance f from_loc.lat from_loc.lon to_loc.lat to_loc.lon) r_radius
          ≡ true)

  pub radius_check-AreWithin :
      (from_loc to_loc : Coords f)
      → radius_check service_secret calls svc_token identity.tier
          (unwrap_or "regular" recipient_tier)
          from_loc
          to_loc
        ≡ none
      → AreWithin from_loc to_loc
  unfolding radius_check
  radius_check-AreWithin from_loc to_loc h =
      let rt = unwrap_or "regular" recipient_tier in
      let s_reply =
        body_if is_success tier_unavailable (calls.message_radius svc_token identity.tier) in
      let r_reply = body_if is_success tier_unavailable (calls.message_radius svc_token rt) in
      elim (Bool-cases (not (is_valid_tier identity.tier) || not (is_valid_tier rt))) [
        | inl bad ↦ absurd (cc (rw (bad, radius_check) at h))
        | inr good ↦ elim (Result-cases s_reply) [
          | inl (r, refused) ↦ absurd (cc (rw (good, radius_check, refused) at h))
          | inr (s_radius, s_ok) ↦ elim (Result-cases r_reply) [
            | inl (r, refused) ↦ absurd (cc (rw (good, radius_check, s_ok, refused) at h))
            | inr (r_radius, r_ok) ↦
                let dist = haversine_distance f from_loc.lat from_loc.lon to_loc.lat to_loc.lon in
                let sender = reaches service_secret calls dist s_radius in
                let recipient = reaches service_secret calls dist r_radius in
                elim (Bool-cases (not sender || not recipient)) [
                  | inl far ↦ absurd (cc (rw (good, radius_check, s_ok, r_ok, far) at h))
                  | inr close ↦ (
                    s_radius,
                    r_radius,
                    body_if-Answers is_success tier_unavailable _ s_radius s_ok,
                    body_if-Answers is_success tier_unavailable _ r_radius r_ok,
                    ground arith,
                    ground arith,
                  )
                ]
          ]
        ]
      ]

  -- The recipient is online and the two are within each other's radius, or the recipient is not
  -- online and the favourites service stored that the pair is within range.
  abbrev pub AreClose : PairStatus → Coords f → Type 0
  AreClose pair from_loc =
      ((to_loc : Coords f) × Answers (λ status. eqb status 200)
          (calls.location svc_token (p.to_hex to_oid)) to_loc
        × AreWithin from_loc to_loc)
      ⊎ (pair.within_range ≡ some true)

  proximity_check-AreClose :
      (pair : PairStatus) (from_loc : Coords f)
      → proximity_check service_secret calls svc_token identity recipient_tier pair from_loc to_oid
        ≡ none
      → AreClose pair from_loc
  unfolding proximity_check
  proximity_check-AreClose pair from_loc h =
      elim (HttpReply-cases (calls.location svc_token (p.to_hex to_oid))) [
        | inl gone ↦ absurd (cc (rw (gone, proximity_check) at h))
        | inr (status, body, replied) ↦ elim (Bool-cases (eqb status 200)) [
          | inl online ↦ elim (Option-cases body) [
            | inl empty ↦ absurd (cc (rw (replied, proximity_check, online, empty) at h))
            | inr (to_loc, parsed) ↦ inl (
              to_loc,
              (status, ground (arith, replied, parsed), online),
              radius_check-AreWithin from_loc to_loc
                  (rw (replied, proximity_check, online, parsed) at h),
            )
          ]
          | inr offline ↦ elim (Option-cases pair.within_range) [
            | inl unknown ↦ absurd (cc (rw (replied, proximity_check, offline, unknown) at h))
            | inr (within, known) ↦ elim (Bool-cases within) [
              | inl yes' ↦ inr (ground (arith, known, yes'))
              | inr no' ↦
                  let k : pair.within_range ≡ some false = ground (arith, known, no') in
                  absurd (cc (rw (replied, proximity_check, offline, k) at h))
            ]
          ]
        ]
      ]

  -- The two users are mutual favourites, the sender shares a location, and they are close.
  abbrev pub ArePeers : Type 0
  ArePeers =
      (pair : PairStatus) × (from_loc : Coords f) × Answers is_success
        (calls.pair_status svc_token (p.to_hex from_oid) (p.to_hex to_oid)) pair
      × (pair.is_mutual ≡ true)
      × Answers (λ status. eqb status 200) (calls.location svc_token (p.to_hex from_oid)) from_loc
      × AreClose pair from_loc

  pub pair_check-mutual :
      (pair : PairStatus)
      → pair_check service_secret calls svc_token from_oid to_oid ≡ ok pair
      → Answers is_success (calls.pair_status svc_token (p.to_hex from_oid) (p.to_hex to_oid)) pair
        × (pair.is_mutual ≡ true)
  unfolding pair_check
  pair_check-mutual pair h =
      let reply =
        body_if is_success unavailable
          (calls.pair_status svc_token (p.to_hex from_oid) (p.to_hex to_oid)) in
      elim (Result-cases reply) [
        | inl (r, refused) ↦ absurd (cc (rw (refused, pair_check) at h))
        | inr (q, answer) ↦ elim (Bool-cases q.is_mutual) [
          | inl mutual' ↦
              let same : q ≡ pair = ground (arith, answer, mutual', h) in
              (
                body_if-Answers is_success unavailable _ pair (rw same at answer),
                rw same at mutual',
              )
          | inr one_way ↦ absurd (cc (rw (answer, pair_check, one_way) at h))
        ]
      ]

  pub sender_location-Answers :
      (from_loc : Coords f)
      → sender_location service_secret calls svc_token from_oid ≡ ok from_loc
      → Answers (λ status. eqb status 200) (calls.location svc_token (p.to_hex from_oid)) from_loc
  unfolding sender_location
  sender_location-Answers from_loc h =
      elim (HttpReply-cases (calls.location svc_token (p.to_hex from_oid))) [
        | inl gone ↦ absurd (cc (rw (gone, sender_location) at h))
        | inr (status, body, replied) ↦ elim (Bool-cases (eqb status 200)) [
          | inl shared ↦ elim (Option-cases body) [
            | inl empty ↦ absurd (cc (rw (replied, sender_location, shared, empty) at h))
            | inr (loc, parsed) ↦
                let found : ok loc ≡ ok from_loc =
                  rw (replied, sender_location, shared, parsed) at h in
                (status, ground (arith, replied, parsed, found), shared)
          ]
          | inr hidden ↦ absurd (cc (rw (replied, sender_location, hidden) at h))
        ]
      ]

  pub peer_checks-ArePeers :
      peer_checks service_secret calls (some svc_token) identity recipient_tier from_oid to_oid
        ≡ none
      → ArePeers
  unfolding peer_checks
  peer_checks-ArePeers h =
      elim (Result-cases (pair_check service_secret calls svc_token from_oid to_oid)) [
        | inl (r, refused) ↦ absurd (cc (rw (refused, peer_checks) at h))
        | inr (pair, paired) ↦
            elim (Result-cases (sender_location service_secret calls svc_token from_oid)) [
              | inl (r, refused) ↦ absurd (cc (rw (paired, peer_checks, refused) at h))
              | inr (from_loc, located) ↦
                  let (answer, mutual') = pair_check-mutual pair paired in
                  (
                    pair,
                    from_loc,
                    answer,
                    mutual',
                    sender_location-Answers from_loc located,
                    proximity_check-AreClose pair from_loc (rw (paired, peer_checks, located) at h),
                  )
            ]
      ]
