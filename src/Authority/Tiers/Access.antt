-- ===== src/Authority/Tiers/Access.antt =====
-- Who may use a feature: `can`, `features_for_tier` and `tiers_check` of
-- services/authority-service/src/tiers.rs.
use bbn.Prelude.{
  ◌≤◌, ◌≡◌, refl, true, false, [], ◌∷◌, some, arith, leb, String, string_eq, eq_iff, ◌==◌, contains,
  Bool-cases, Option-cases, inl, inr, All, ◌↔◌, ◌∙◌, sym,
}
use bbn.Prelude.Maps.{lookup, IsDistinct}
use bbn.Authority.Tiers.{
  FeatureDoc, Features, AppState, Loads, Cache, features_of, tier_rank, can, features_for_tier,
  tiers_check, allowed,
}
use bbn.Authority.Tiers.Caching.{load_features-IsDistinct}

contains-features_for_tier_absent :
    (tier feature : String) (features : Features)
    → All (λ b. (b.0 == feature) ≡ false) features
    → contains (features_for_tier tier features) feature ≡ false
unfolding features_for_tier
contains-features_for_tier_absent tier feature [] h = refl
contains-features_for_tier_absent tier feature ((k, f) ∷ features) h =
    let rest = contains-features_for_tier_absent tier feature features h.1 in
    elim (Bool-cases (leb (tier_rank f.min_tier) (tier_rank tier))) [
      | inl high ↦ rw (high, features_for_tier) (ground (arith, h.0, rest))
      | inr low ↦ rw (low, features_for_tier) rest
    ]

-- A tier may use a feature exactly if `features_for_tier` lists it.
pub contains-features_for_tier :
    (tier feature : String) (features : Features)
    → IsDistinct features
    → contains (features_for_tier tier features) feature ≡ can tier feature features
unfolding features_for_tier can
contains-features_for_tier tier feature [] h = refl
contains-features_for_tier tier feature ((k, f) ∷ features) h = elim (Bool-cases (k == feature)) [
  | inl same ↦
      let gone : All (λ b. (b.0 == feature) ≡ false) features =
        rw (← (eq_iff k feature).0 same) h.0 in
      let rest = contains-features_for_tier_absent tier feature features gone in
      elim (Bool-cases (leb (tier_rank f.min_tier) (tier_rank tier))) [
        | inl high ↦ rw (high, features_for_tier, same, can) (sym high)
        | inr low ↦ rw (low, features_for_tier, same, can) (rest ∙ sym low)
      ]
  | inr other ↦
      let rest = contains-features_for_tier tier feature features h.1 in
      elim (Bool-cases (leb (tier_rank f.min_tier) (tier_rank tier))) [
        | inl high ↦ rw (high, features_for_tier, other, can) rest
        | inr low ↦ rw (low, features_for_tier, other, can) rest
      ]
]

-- A tier may use whatever a tier of lower rank may.
pub can_mono :
    (low high feature : String) (features : Features)
    → tier_rank low ≤ tier_rank high
    → can low feature features ≡ true
    → can high feature features ≡ true
unfolding can
can_mono low high feature features le h = elim (Option-cases (lookup feature features)) [
  | inl gone ↦ absurd (ground (arith, gone, h))
  | inr (f, found) ↦ ground arith
]

-- With a cache of distinct names, `tiers_check` allows a feature exactly if the features that
-- `features_for_tier` gives the tier have it; both load the features in the same way.
pub tiers_check-features_for_tier :
    (state : AppState) (loads : Loads) (tier feature : String)
    → ((c : Cache FeatureDoc) → state.features_cache ≡ some c → IsDistinct c.entries)
    → ((tiers_check state loads (some tier) (some feature)).0 ≡ allowed)
      ↔ (contains (features_for_tier tier (features_of state loads).0) feature ≡ true)
unfolding tiers_check
tiers_check-features_for_tier state loads tier feature h =
    let features = (features_of state loads).0 in
    let distinct =
      load_features-IsDistinct state.features_cache loads.features_at loads.features_written
        loads.features_reply h in
    let agree = contains-features_for_tier tier feature features distinct in
    elim (Bool-cases (can tier feature features)) [
      | inl may ↦ (λ _. agree ∙ may, λ _. rw (may, tiers_check) refl)
      | inr not' ↦ (λ e. absurd (cc (rw (not', tiers_check) at e)), λ e. absurd (cc))
    ]
