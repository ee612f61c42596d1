-- ===== src/Blocks.antt =====
-- The blocks service: services/blocks-service/src/main.rs. A handler is a function of what the
-- database answers; it returns its answer and, where it writes, the document that it gives to the
-- database. The first two arguments of a handler are what its two extractors give. In the answer of
-- `find`, `none` stands for a cursor that fails.
pub mod Post
pub mod Send
mod Tests
use bbn.Prelude.{
  Bool, true, false, List, [], ◌∷◌, Option, none, some, if◌then◌else◌, String, string_eq, ◌==◌,
  contains, ℕ, zero, suc,
}
use bbn.Prelude.Int.{ℤ}
use bbn.Prelude.Maps.{lookup, insert}
use bbn.Service.{
  internal, collected, filter_map, StatusCode, ok_200, created_201, bad_request, not_found,
  conflict, internal_server_error, Refusal, refuse, Result, err, ok, DbError, duplicate_key,
  other_error, Platform, ServiceClaims, GatewayIdentity, unwrap_or, safe_object_id,
}

-- The text after this in the code's refusal of a reason lists the reasons.
abbrev pub valid_reasons : List String
valid_reasons = "spam" ∷ "harassment" ∷ "inappropriate_content" ∷ "fake_profile" ∷ "other" ∷ []

-- A document of `blocks` as it is inserted.
pub record NewBlock : Type 0 where
  pub blocker_user_id : String
  pub blocked_user_id : String
  pub reason : String
  pub created_at : ℤ

-- A document of `blocks` as it is read: each field where it is there and has its type.
pub record StoredBlock : Type 0 where
  pub blocked_user_id : Option String
  pub reason : Option String
  pub created_at : Option String

pub record UserProjection (p : Platform) : Type 0 where
  pub id : p.ObjectId
  pub nickname : Option String
  pub sex : Option String

-- An element of the answer of `get_blocks`.
pub record BlockView : Type 0 where
  pub user_id : String
  pub nickname : String
  pub sex : Option String
  pub reason : String
  pub created_at : Option String

-- The insertion.
abbrev pub insert_block :
    (NewBlock → Result DbError Unit) → NewBlock → Result Refusal StatusCode × Option NewBlock
insert_block insert_one doc = elim (insert_one doc) [
  | ok _ ↦ (ok created_201, some doc)
  | err duplicate_key ↦ (err (refuse conflict "User is already blocked."), some doc)
  | err other_error ↦ (err internal, some doc)
]

module _ (p : Platform) where
  -- The object ids of the blocked users, where they parse.
  abbrev pub blocked_oids : List StoredBlock → List p.ObjectId
  blocked_oids entries =
      filter_map
        (λ (e : StoredBlock). elim e.blocked_user_id [
          | none ↦ none
          | some id ↦ safe_object_id p id
        ])
        entries

  -- `user_map`: a later user with the same id takes the place of an earlier one.
  abbrev pub user_map :
      List (String × UserProjection p) → List (UserProjection p) → List (String × UserProjection p)
  user_map m [] = m
  user_map m (u ∷ users) = user_map (insert (p.to_hex u.id) u m) users

  -- One entry of the answer; an entry with no blocked user or no reason is left out.
  abbrev pub block_view : List (String × UserProjection p) → StoredBlock → Option BlockView
  block_view users e = elim e.blocked_user_id [
    | none ↦ none
    | some blocked_id ↦ elim e.reason [
      | none ↦ none
      | some reason ↦ some (elim (lookup blocked_id users) [
        | none ↦ record {
          user_id = blocked_id;
          nickname = blocked_id;
          sex = none;
          reason = reason;
          created_at = e.created_at;
        }
        | some profile ↦ record {
          user_id = blocked_id;
          nickname = unwrap_or blocked_id profile.nickname;
          sex = profile.sex;
          reason = reason;
          created_at = e.created_at;
        }
      ])
    ]
  ]

  -- The users of the blocks; an error of the database counts as no user.
  abbrev pub users_of : Result DbError (Option (List (UserProjection p))) → List (UserProjection p)
  users_of (err _) = []
  users_of (ok found) = collected found

  -- The answer for the blocks that are found. Without a block the users are not asked for.
  abbrev pub blocks_of :
      (List p.ObjectId → Result DbError (Option (List (UserProjection p))))
      → List StoredBlock
      → List BlockView
  blocks_of find_users [] = []
  blocks_of find_users (e ∷ es) =
      let users = users_of (find_users (blocked_oids (e ∷ es))) in
      filter_map (block_view (user_map [] users)) (e ∷ es)

  -- `get_blocks`: `find_blocks` is given the blocker, newest block first, and `find_users` the ids.
  unfoldable pub get_blocks :
      (String → Result DbError (Option (List StoredBlock)))
      → (List p.ObjectId → Result DbError (Option (List (UserProjection p))))
      → Result Refusal ServiceClaims
      → Result Refusal GatewayIdentity
      → Result Refusal (List BlockView)
  get_blocks find_blocks find_users (err r) who = err r
  get_blocks find_blocks find_users (ok svc) (err r) = err r
  get_blocks find_blocks find_users (ok svc) (ok identity) = elim (find_blocks identity.sub) [
    | err _ ↦ err internal
    | ok found ↦ ok (blocks_of find_users (collected found))
  ]

  -- `post_block`: `find_user` tells whether the user is there, and `now` is the time of the insertion.
  unfoldable pub post_block :
      (p.ObjectId → Result DbError Bool)
      → (NewBlock → Result DbError Unit)
      → ℤ
      → Result Refusal ServiceClaims
      → Result Refusal GatewayIdentity
      → String
      → Option String
      → Result Refusal StatusCode × Option NewBlock
  post_block find_user insert_one now (err r) who blocked_id reason = (err r, none)
  post_block find_user insert_one now (ok svc) (err r) blocked_id reason = (err r, none)
  post_block find_user insert_one now (ok svc) (ok identity) blocked_id body_reason =
      if identity.sub == blocked_id
      then (err (refuse bad_request "Cannot block yourself."), none)
      else (let reason = unwrap_or "" body_reason in
          if contains valid_reasons reason
          then elim (safe_object_id p blocked_id) [
            | none ↦ (err (refuse bad_request "Invalid user id."), none)
            | some oid ↦ elim (find_user oid) [
              | err _ ↦ (err internal, none)
              | ok false ↦ (err (refuse not_found "User not found."), none)
              | ok true ↦
                  let doc : NewBlock = record {
                    blocker_user_id = identity.sub;
                    blocked_user_id = blocked_id;
                    reason = reason;
                    created_at = now;
                  } in
                  insert_block insert_one doc
            ]
          ]
          else (err (refuse bad_request "reason must be one of: {}."), none))

-- `delete_block`: `delete_one` is given the blocker and the blocked user, and answers with
-- `deleted_count`. The command is the pair.
unfoldable pub delete_block :
    (String → String → Result DbError ℕ)
    → Result Refusal ServiceClaims
    → Result Refusal GatewayIdentity
    → String
    → Result Refusal StatusCode × Option (String × String)
delete_block delete_one (err r) who blocked_id = (err r, none)
delete_block delete_one (ok svc) (err r) blocked_id = (err r, none)
delete_block delete_one (ok svc) (ok identity) blocked_id =
    elim (delete_one identity.sub blocked_id) [
      | err _ ↦ (err internal, some (identity.sub, blocked_id))
      | ok zero ↦ (err (refuse not_found "Block not found."), some (identity.sub, blocked_id))
      | ok (suc n) ↦ (ok ok_200, some (identity.sub, blocked_id))
    ]
