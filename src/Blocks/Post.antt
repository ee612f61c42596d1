-- ===== src/Blocks/Post.antt =====
-- What `post_block` gives to the database.
use bbn.Prelude.{
  ◌≡◌, refl, Bool, true, Option, some, arith, Bool-cases, Option-cases, inl, inr, String, string_eq,
  eq_iff, ◌==◌, contains, ◌≢◌,
}
use bbn.Prelude.Int.{ℤ}
use bbn.Service.{
  Refusal, Result, err, ok, DbError, duplicate_key, other_error, Platform, ServiceClaims,
  GatewayIdentity, unwrap_or,
}
use bbn.Service.Auth.Revocation.{Result-cases}
use bbn.Blocks.{NewBlock, valid_reasons, post_block, insert_block}

module _ (p : Platform) (find_user : p.ObjectId → Result DbError Bool)
    (insert_one : NewBlock → Result DbError Unit) (now : ℤ) where
  -- The document of a block that a registered user asks for, of another user who exists.
  abbrev pub IsProper : Result Refusal GatewayIdentity → String → Option String → NewBlock → Type 0
  IsProper who blocked_id reason d =
      (identity : GatewayIdentity) × (oid : p.ObjectId) × (who ≡ ok identity)
      × (d ≡ record {
        blocker_user_id = identity.sub;
        blocked_user_id = blocked_id;
        reason = unwrap_or "" reason;
        created_at = now;
      })
      × (contains valid_reasons d.reason ≡ true)
      × (d.blocker_user_id ≢ d.blocked_user_id)
      × (p.from_str d.blocked_user_id ≡ some oid)
      × (find_user oid ≡ ok true)

  insert_block-doc : (doc d : NewBlock) → (insert_block insert_one doc).1 ≡ some d → d ≡ doc
  insert_block-doc doc d h = elim (Result-cases (insert_one doc)) [
    | inl (duplicate_key, fails) ↦ cc (rw (fails, insert_block) at h)
    | inl (other_error, fails) ↦ cc (rw (fails, insert_block) at h)
    | inr (u, done) ↦ cc (rw (done, insert_block) at h)
  ]

  -- Every document that `post_block` gives to the database has the id of the identity that the gateway
  -- vouches for as the blocker, and the id of the path as the blocked, which is not written as the
  -- caller's id and parses to that of a user in the database; it has one of the five reasons, and the time
  -- of the request. Two spellings of one id are not compared.
  pub post_block-IsProper :
      (svc : Result Refusal ServiceClaims) (who : Result Refusal GatewayIdentity)
      (blocked_id : String) (reason : Option String) (d : NewBlock)
      → (post_block p find_user insert_one now svc who blocked_id reason).1 ≡ some d
      → IsProper who blocked_id reason d
  unfolding post_block
  post_block-IsProper (err r) who blocked_id reason d h = cc
  post_block-IsProper (ok svc) (err r) blocked_id reason d h = cc
  post_block-IsProper (ok svc) (ok identity) blocked_id reason d h =
      elim (Bool-cases (identity.sub == blocked_id)) [
        | inl self ↦ absurd (cc (rw (self, post_block) at h))
        | inr other ↦ elim (Bool-cases (contains valid_reasons (unwrap_or "" reason))) [
          | inr bad ↦ absurd (cc (rw (other, post_block, bad) at h))
          | inl good ↦ elim (Option-cases (p.from_str blocked_id)) [
            | inl gone ↦ absurd (cc (rw (other, post_block, good, gone) at h))
            | inr (oid, parses) ↦ elim (Result-cases (find_user oid)) [
              | inl (e, fails) ↦ absurd (cc (rw (other, post_block, good, parses, fails) at h))
              | inr (exists', answer) ↦ elim (Bool-cases exists') [
                | inr absent ↦
                    absurd (cc (rw (other, post_block, good, parses, answer, absent) at h))
                | inl present ↦
                    let e =
                      insert_block-doc doc d
                        (rw (other, post_block, good, parses, answer, present) at h) in
                    (
                      identity,
                      oid,
                      refl,
                      e,
                      rw e good,
                      rw e (λ same. cc ((eq_iff identity.sub blocked_id).1 same)),
                      rw e parses,
                      ground (arith, answer, present),
                    )
              ]
            ]
          ]
        ]
      ]
    where
      doc : NewBlock
      doc = record {
        blocker_user_id = identity.sub;
        blocked_user_id = blocked_id;
        reason = unwrap_or "" reason;
        created_at = now;
      }
