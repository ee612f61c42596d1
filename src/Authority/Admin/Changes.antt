-- ===== src/Authority/Admin/Changes.antt =====
-- When the handlers for administrators change something: services/authority-service/src/tiers.rs.
use bbn.Prelude.{
  ◌≡◌, refl, true, [], ◌∷◌, none, some, arith, String, Bool-cases, Option-cases, inl, inr,
}
use bbn.Service.{Result, ok, DbError, duplicate_key, other_error, Platform, UserClaims, as_i32}
use bbn.Service.Auth.Revocation.{Result-cases}
use bbn.Authority.Tiers.{AppState, valid_tier_name}
use bbn.Authority.Admin.{
  TierInput, shift_ranks, insert_tier, tier_row, admin_refusal, admin_create_tier,
}

module _ (p : Platform) (state : AppState) (admin : UserClaims) where
  -- A tier that is created has a valid name; the ranks from its own on were shifted before it was
  -- inserted, and the cache of the tiers is cleared.
  pub admin_create_tier_effect :
      (body : TierInput) (reply : Result DbError Unit) (name : String)
      → (admin_create_tier p state admin body reply).0 ≡ ok name
      → (admin_refusal p state admin ≡ none)
        × (body.name ≡ some name)
        × (valid_tier_name name ≡ true)
        × ((admin_create_tier p state admin body reply).1 ≡ record state { tiers_cache = none })
        × ((admin_create_tier p state admin body reply).2
            ≡ shift_ranks (as_i32 body.rank) ∷ insert_tier name (tier_row body) ∷ [])
  unfolding admin_create_tier
  admin_create_tier_effect body reply name h = elim (Option-cases (admin_refusal p state admin)) [
    | inr (e, refused) ↦ absurd (cc (rw (refused, admin_create_tier) at h))
    | inl passes ↦ elim (Option-cases body.name) [
      | inl unnamed ↦ absurd (cc (rw (passes, admin_create_tier, unnamed) at h))
      | inr (n, named) ↦ elim (Bool-cases (valid_tier_name n)) [
        | inr bad ↦ absurd (cc (rw (passes, admin_create_tier, named, bad) at h))
        | inl good ↦ elim (Result-cases reply) [
          | inl (duplicate_key, fails) ↦
              absurd (cc (rw (passes, admin_create_tier, named, good, fails) at h))
          | inl (other_error, fails) ↦
              absurd (cc (rw (passes, admin_create_tier, named, good, fails) at h))
          | inr (done, replied) ↦
              let same : ok n ≡ ok name =
                rw (passes, admin_create_tier, named, good, replied) at h in
              let e : n ≡ name = cc in
              (
                passes,
                ground (arith, named, e),
                rw e at good,
                rw (passes, admin_create_tier, named, good, replied) refl,
                rw (passes, admin_create_tier, named, good) (rw e refl),
              )
        ]
      ]
    ]
  ]
