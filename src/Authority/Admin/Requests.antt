-- ===== src/Authority/Admin/Requests.antt =====
-- The six handlers of services/authority-service/src/tiers.rs that change tiers or features, as one
-- machine: who may run them, what they send, and when the caches are cleared.
use bbn.Prelude.{
  ℕ, zero, suc, ◌≡◌, refl, true, false, List, [], ◌∷◌, Option, none, some, arith, String,
  Bool-cases, Option-cases, inl, inr, ◌⊎◌, eqb,
}
use bbn.Service.{
  Refusal, Result, err, ok, DbError, duplicate_key, other_error, Platform, UserClaims, UserTv,
  unwrap_or, as_i32,
}
use bbn.Service.Auth.Revocation.{Result-cases}
use bbn.Authority.Tiers.{AppState, FeatureDoc, valid_tier_name, is_known_tier}
use bbn.Authority.Admin.{
  TierInput, FeatureInput, Command, shift_ranks, insert_tier, update_tier, delete_tier,
  insert_feature, update_feature, delete_feature, tier_row, stored_tv, check_admin_tv,
  admin_refusal, admin_create_tier, admin_update_tier, admin_delete_tier, admin_create_feature,
  admin_update_feature, admin_delete_feature,
}

-- A request to one of the handlers, with the reply of the database to its last command.
pub data Request : Type 0 where
  creates_tier : TierInput → Result DbError Unit → Request
  updates_tier : String → TierInput → Result DbError ℕ → Request
  deletes_tier : String → Result DbError ℕ → Request
  creates_feature : FeatureInput → Result DbError Unit → Request
  updates_feature : String → FeatureInput → Result DbError ℕ → Request
  deletes_feature : String → Result DbError ℕ → Request

-- The feature that is stored under a name.
abbrev pub feature_row : String → FeatureInput → FeatureDoc
feature_row name body = record {
  name = name;
  label = body.label;
  description = body.description;
  min_tier = body.min_tier;
}

-- A name that is missing or not valid.
abbrev HasBadName : Option String → Type 0
HasBadName none = Unit
HasBadName (some name) = valid_tier_name name ≡ false

-- The input of the request is not valid.
abbrev pub IsInvalid : Request → Type 0
IsInvalid (creates_tier body reply) = HasBadName body.name
IsInvalid (updates_tier name body reply) = ⊥
IsInvalid (deletes_tier name reply) = ⊥
IsInvalid (creates_feature body reply) =
    HasBadName body.name ⊎ (is_known_tier body.min_tier ≡ false)
IsInvalid (updates_feature name body reply) = is_known_tier body.min_tier ≡ false
IsInvalid (deletes_feature name reply) = ⊥

-- The commands of a request with a valid input.
abbrev pub IsSent : Request → List Command → Type 0
IsSent (creates_tier body reply) commands =
    (name : String) × (body.name ≡ some name)
    × (valid_tier_name name ≡ true)
    × (commands ≡ shift_ranks (as_i32 body.rank) ∷ insert_tier name (tier_row body) ∷ [])
IsSent (updates_tier name body reply) commands = commands ≡ update_tier name (tier_row body) ∷ []
IsSent (deletes_tier name reply) commands = commands ≡ delete_tier name ∷ []
IsSent (creates_feature body reply) commands =
    (name : String) × (body.name ≡ some name)
    × (valid_tier_name name ≡ true)
    × (is_known_tier body.min_tier ≡ true)
    × (commands ≡ insert_feature (feature_row name body) ∷ [])
IsSent (updates_feature name body reply) commands =
    (is_known_tier body.min_tier ≡ true) × (commands ≡ update_feature name body ∷ [])
IsSent (deletes_feature name reply) commands = commands ≡ delete_feature name ∷ []

-- A cache is cleared when the database has inserted, or has met a document.
abbrev pub cleared : Request → AppState → AppState
cleared (creates_tier body (ok _)) state = record state { tiers_cache = none }
cleared (creates_tier body (err _)) state = state
cleared (updates_tier name body (ok (suc n))) state = record state { tiers_cache = none }
cleared (updates_tier name body (ok zero)) state = state
cleared (updates_tier name body (err _)) state = state
cleared (deletes_tier name (ok (suc n))) state = record state { tiers_cache = none }
cleared (deletes_tier name (ok zero)) state = state
cleared (deletes_tier name (err _)) state = state
cleared (creates_feature body (ok _)) state = record state { features_cache = none }
cleared (creates_feature body (err _)) state = state
cleared (updates_feature name body (ok (suc n))) state = record state { features_cache = none }
cleared (updates_feature name body (ok zero)) state = state
cleared (updates_feature name body (err _)) state = state
cleared (deletes_feature name (ok (suc n))) state = record state { features_cache = none }
cleared (deletes_feature name (ok zero)) state = state
cleared (deletes_feature name (err _)) state = state

met : (n : ℕ) → eqb (suc n) 0 ≡ false
met n = ground arith

module _ (p : Platform) (state : AppState) (admin : UserClaims) where
  -- What a request does: the state and the commands.
  abbrev pub perform : Request → AppState × List Command
  perform (creates_tier body reply) =
      let out = admin_create_tier p state admin body reply in (out.1, out.2)
  perform (updates_tier name body reply) =
      let out = admin_update_tier p state admin name body reply in (out.1, out.2)
  perform (deletes_tier name reply) =
      let out = admin_delete_tier p state admin name reply in (out.1, out.2)
  perform (creates_feature body reply) =
      let out = admin_create_feature p state admin body reply in (out.1, out.2)
  perform (updates_feature name body reply) =
      let out = admin_update_feature p state admin name body reply in (out.1, out.2)
  perform (deletes_feature name reply) =
      let out = admin_delete_feature p state admin name reply in (out.1, out.2)

  -- The administrator's id parses, the database answers, and the version that it holds, 0 where it holds
  -- none or no such user, is that of the token.
  abbrev pub IsCurrent : Type 0
  IsCurrent =
      (oid : p.ObjectId) × (user : Option UserTv) × (p.from_str admin.sub ≡ some oid)
      × (p.find_user oid ≡ ok user)
      × (stored_tv user ≡ unwrap_or 0 admin.tv)

  admin_refusal-IsCurrent : admin_refusal p state admin ≡ none → IsCurrent
  unfolding check_admin_tv
  admin_refusal-IsCurrent h = elim (Option-cases (p.from_str admin.sub)) [
    | inl bad ↦ absurd (cc (rw (check_admin_tv, bad) at h))
    | inr (oid, parses) ↦ elim (Result-cases (p.find_user oid)) [
      | inl (e, fails) ↦ absurd (cc (rw (check_admin_tv, parses, fails) at h))
      | inr (user, found) ↦ elim (Bool-cases (eqb (stored_tv user) (unwrap_or 0 admin.tv))) [
        | inr old ↦ absurd (cc (rw (check_admin_tv, parses, found, old) at h))
        | inl same ↦ (oid, user, parses, found, ground (arith, same))
      ]
    ]
  ]

  IsCurrent-admin_refusal : IsCurrent → admin_refusal p state admin ≡ none
  unfolding check_admin_tv
  IsCurrent-admin_refusal (oid, user, parses, found, same) =
      let e : eqb (stored_tv user) (unwrap_or 0 admin.tv) ≡ true = ground (arith, same) in
      rw (check_admin_tv, parses, found, e) refl

  abbrev Sends : Request → Type 0
  Sends r = IsSent r (perform r).1 × ((perform r).0 ≡ cleared r state)

  perform-refused :
      (r : Request) (e : Refusal) → admin_refusal p state admin ≡ some e → perform r ≡ (state, [])
  unfolding admin_create_tier admin_update_tier admin_delete_tier admin_create_feature
      admin_update_feature admin_delete_feature
  perform-refused (creates_tier body reply) e h = rw (admin_create_tier, h) refl
  perform-refused (updates_tier name body reply) e h = rw (admin_update_tier, h) refl
  perform-refused (deletes_tier name reply) e h = rw (admin_delete_tier, h) refl
  perform-refused (creates_feature body reply) e h = rw (admin_create_feature, h) refl
  perform-refused (updates_feature name body reply) e h = rw (admin_update_feature, h) refl
  perform-refused (deletes_feature name reply) e h = rw (admin_delete_feature, h) refl

  creates_tier-Sends :
      (body : TierInput) (reply : Result DbError Unit) (name : String)
      → admin_refusal p state admin ≡ none
      → body.name ≡ some name
      → valid_tier_name name ≡ true
      → Sends (creates_tier body reply)
  unfolding admin_create_tier
  creates_tier-Sends body (ok done) name h named good =
      rw (admin_create_tier, h, named, good) ((name, refl, good, refl), refl)
  creates_tier-Sends body (err duplicate_key) name h named good =
      rw (admin_create_tier, h, named, good) ((name, refl, good, refl), refl)
  creates_tier-Sends body (err other_error) name h named good =
      rw (admin_create_tier, h, named, good) ((name, refl, good, refl), refl)

  updates_tier-Sends :
      (name : String) (body : TierInput) (reply : Result DbError ℕ)
      → admin_refusal p state admin ≡ none
      → Sends (updates_tier name body reply)
  unfolding admin_update_tier
  updates_tier-Sends name body (ok zero) h = rw (admin_update_tier, h) (refl, refl)
  updates_tier-Sends name body (ok (suc n)) h = rw (admin_update_tier, h, met n) (refl, refl)
  updates_tier-Sends name body (err e) h = rw (admin_update_tier, h) (refl, refl)

  deletes_tier-Sends :
      (name : String) (reply : Result DbError ℕ)
      → admin_refusal p state admin ≡ none
      → Sends (deletes_tier name reply)
  unfolding admin_delete_tier
  deletes_tier-Sends name (ok zero) h = rw (admin_delete_tier, h) (refl, refl)
  deletes_tier-Sends name (ok (suc n)) h = rw (admin_delete_tier, h, met n) (refl, refl)
  deletes_tier-Sends name (err e) h = rw (admin_delete_tier, h) (refl, refl)

  creates_feature-Sends :
      (body : FeatureInput) (reply : Result DbError Unit) (name : String)
      → admin_refusal p state admin ≡ none
      → body.name ≡ some name
      → valid_tier_name name ≡ true
      → is_known_tier body.min_tier ≡ true
      → Sends (creates_feature body reply)
  unfolding admin_create_feature
  creates_feature-Sends body (ok done) name h named good known =
      rw (admin_create_feature, h, named, good, known) ((name, refl, good, refl, refl), refl)
  creates_feature-Sends body (err duplicate_key) name h named good known =
      rw (admin_create_feature, h, named, good, known) ((name, refl, good, refl, refl), refl)
  creates_feature-Sends body (err other_error) name h named good known =
      rw (admin_create_feature, h, named, good, known) ((name, refl, good, refl, refl), refl)

  updates_feature-Sends :
      (name : String) (body : FeatureInput) (reply : Result DbError ℕ)
      → admin_refusal p state admin ≡ none
      → is_known_tier body.min_tier ≡ true
      → Sends (updates_feature name body reply)
  unfolding admin_update_feature
  updates_feature-Sends name body (ok zero) h known =
      rw (admin_update_feature, h, known) ((refl, refl), refl)
  updates_feature-Sends name body (ok (suc n)) h known =
      rw (admin_update_feature, h, known, met n) ((refl, refl), refl)
  updates_feature-Sends name body (err e) h known =
      rw (admin_update_feature, h, known) ((refl, refl), refl)

  deletes_feature-Sends :
      (name : String) (reply : Result DbError ℕ)
      → admin_refusal p state admin ≡ none
      → Sends (deletes_feature name reply)
  unfolding admin_delete_feature
  deletes_feature-Sends name (ok zero) h = rw (admin_delete_feature, h) (refl, refl)
  deletes_feature-Sends name (ok (suc n)) h = rw (admin_delete_feature, h, met n) (refl, refl)
  deletes_feature-Sends name (err e) h = rw (admin_delete_feature, h) (refl, refl)

  -- A request that passes the check of the version is invalid and does nothing, or is sent.
  abbrev Passes : Request → Type 0
  Passes r = ((perform r ≡ (state, [])) × IsInvalid r) ⊎ Sends r

  creates_tier-Passes :
      (body : TierInput) (reply : Result DbError Unit)
      → admin_refusal p state admin ≡ none
      → Passes (creates_tier body reply)
  unfolding admin_create_tier
  creates_tier-Passes body reply h = elim (Option-cases body.name) [
    | inl unnamed ↦ inl (rw (admin_create_tier, h, unnamed) refl, rw unnamed tt)
    | inr (name, named) ↦ elim (Bool-cases (valid_tier_name name)) [
      | inr bad ↦ inl (rw (admin_create_tier, h, named, bad) refl, rw named bad)
      | inl good ↦ inr (creates_tier-Sends body reply name h named good)
    ]
  ]

  creates_feature-Passes :
      (body : FeatureInput) (reply : Result DbError Unit)
      → admin_refusal p state admin ≡ none
      → Passes (creates_feature body reply)
  unfolding admin_create_feature
  creates_feature-Passes body reply h = elim (Option-cases body.name) [
    | inl unnamed ↦ inl (rw (admin_create_feature, h, unnamed) refl, inl (rw unnamed tt))
    | inr (name, named) ↦ elim (Bool-cases (valid_tier_name name)) [
      | inr bad ↦ inl (rw (admin_create_feature, h, named, bad) refl, inl (rw named bad))
      | inl good ↦ elim (Bool-cases (is_known_tier body.min_tier)) [
        | inr strange ↦ inl (rw (admin_create_feature, h, named, good, strange) refl, inr strange)
        | inl known ↦ inr (creates_feature-Sends body reply name h named good known)
      ]
    ]
  ]

  perform-Passes : (r : Request) → admin_refusal p state admin ≡ none → Passes r
  unfolding admin_update_feature
  perform-Passes (creates_tier body reply) h = creates_tier-Passes body reply h
  perform-Passes (updates_tier name body reply) h = inr (updates_tier-Sends name body reply h)
  perform-Passes (deletes_tier name reply) h = inr (deletes_tier-Sends name reply h)
  perform-Passes (creates_feature body reply) h = creates_feature-Passes body reply h
  perform-Passes (updates_feature name body reply) h =
      elim (Bool-cases (is_known_tier body.min_tier)) [
        | inr strange ↦ inl (rw (admin_update_feature, h, strange) refl, strange)
        | inl known ↦ inr (updates_feature-Sends name body reply h known)
      ]
  perform-Passes (deletes_feature name reply) h = inr (deletes_feature-Sends name reply h)

  -- Whether a request is sent is decided by the token and the input alone: either nothing is sent and the
  -- caches are kept, and then the token is not current or the input is not valid; or the token is current,
  -- the input is valid, exactly the commands of the request are sent, and the cache of its kind is
  -- cleared if the database has inserted or met a document. A token is current when its version is the
  -- one that the database holds for the administrator, where a user who is missing counts as version 0.
  pub perform-IsCurrent :
      (r : Request)
      → ((perform r ≡ (state, [])) × ((¬ IsCurrent) ⊎ IsInvalid r))
        ⊎ (IsCurrent × IsSent r (perform r).1 × ((perform r).0 ≡ cleared r state))
  perform-IsCurrent r = elim (Option-cases (admin_refusal p state admin)) [
    | inr (e, refused) ↦
        inl (perform-refused r e refused, inl (λ current. cc (IsCurrent-admin_refusal current)))
    | inl passes ↦ elim (perform-Passes r passes) [
      | inl (nothing, invalid) ↦ inl (nothing, inr invalid)
      | inr (sent, caches) ↦ inr (admin_refusal-IsCurrent passes, sent, caches)
    ]
  ]
