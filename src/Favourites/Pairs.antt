-- ===== src/Favourites/Pairs.antt =====
-- The answers on a pair of favourites.
use bbn.Prelude.{
  ◌≡◌, refl, ap, Bool, false, ◌&&◌, some, arith, inl, inr, string_eq, eq_iff, ◌==◌, ◌≢◌,
}
use bbn.Service.{Result, err, ok, Refusal, ServiceClaims, GatewayIdentity}
use bbn.Service.Auth.Revocation.{Result-cases}
use bbn.Favourites.{FindPair, PairView, is_some, get_is_mutual, get_pair_status}

-- The flag `mutual` of an answer.
abbrev pub mutual_of : Result Refusal PairView → Result Refusal Bool
mutual_of (err r) = err r
mutual_of (ok view) = ok view.is_mutual

and_comm : (a b : Bool) → (a && b) ≡ (b && a)
and_comm a b = ground arith

-- For two users the page's answer to either of them, and the answer to the messages service for either
-- of them as the sender, are the same flag or the same error.
pub get_is_mutual-get_pair_status :
    (find_one : FindPair) (svc : ServiceClaims) (a b : GatewayIdentity)
    → a.sub ≢ b.sub
    → (get_is_mutual find_one (ok svc) (ok a) b.sub ≡ get_is_mutual find_one (ok svc) (ok b) a.sub)
      × (get_is_mutual find_one (ok svc) (ok a) b.sub
          ≡ mutual_of (get_pair_status find_one (ok svc) (some a.sub) (some b.sub)))
      × (get_is_mutual find_one (ok svc) (ok a) b.sub
          ≡ mutual_of (get_pair_status find_one (ok svc) (some b.sub) (some a.sub)))
unfolding get_is_mutual get_pair_status
get_is_mutual-get_pair_status find_one svc a b ne =
    let ab : (a.sub == b.sub) ≡ false = ground (arith, eq_iff a.sub b.sub) in
    let ba : (b.sub == a.sub) ≡ false = ground (arith, eq_iff b.sub a.sub) in
    elim (Result-cases (find_one a.sub b.sub)) [
      | inl (e, fails) ↦ elim (Result-cases (find_one b.sub a.sub)) [
        | inl (e', fails') ↦ rw (ab, ba, get_pair_status, fails, fails') (refl, refl, refl)
        | inr (their, found') ↦ rw (ab, ba, get_pair_status, found', fails) (refl, refl, refl)
      ]
      | inr (my, found) ↦ elim (Result-cases (find_one b.sub a.sub)) [
        | inl (e', fails') ↦ rw (ab, ba, get_pair_status, found, fails') (refl, refl, refl)
        | inr (their, found') ↦
            rw (ab, ba, get_pair_status, found, found', found)
              (
                ap ok (and_comm (is_some my) (is_some their)),
                refl,
                ap ok (and_comm (is_some my) (is_some their)),
              )
      ]
    ]
