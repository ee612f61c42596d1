-- ===== src/Favourites.antt =====
-- The favourites service: services/favourites-service/src/main.rs. A handler is a function of what the
-- database and the other services answer, and returns its answer with the commands that it gives to
-- the database. The first arguments of a handler are what its extractors give. In the answer of a
-- `find`, `none` stands for a cursor that fails.
pub mod Pairs
pub mod RangeSync
pub mod Radius
pub mod Listing
pub mod Synced
mod Tests
use Prim.Native.Nat.{Ordering}
use bbn.Prelude.{
  ℕ, zero, suc, Bool, true, false, ◌&&◌, not, List, [], ◌∷◌, map, Option, none, some, if◌then◌else◌,
  String, string_eq, ◌==◌,
}
use bbn.Prelude.Int.{ℤ}
use bbn.Prelude.Maps.{lookup, insert}
use bbn.Text.{is_empty}
use bbn.Float.{Float}
use bbn.Service.{
  StatusCode, ok_200, created_201, bad_request, not_found, conflict, Refusal, refuse, Result, err,
  ok, DbError, duplicate_key, other_error, Platform, ServiceClaims, GatewayIdentity, Headers,
  unwrap_or, safe_object_id, internal, collected,
}
use bbn.Service.TokenCache.{Cached, get}
use bbn.Messages.{HttpReply, unreachable, answered, is_valid_tier, is_success}

pub record FavouriteDoc : Type 0 where
  pub favourite_user_id : String
  pub added_at : Option String
  pub within_range : Option Bool
  pub within_range_at : Option String

-- The state that the handlers share.
pub record AppState (f : Float) : Type 0 where
  pub svc_token_cache : Cached
  pub radius_cache : List (String × f.Num)

-- The radius of a reply: a success whose body is JSON and has a number in `radiusM`.
abbrev pub radius_of : {A : Type 0} → HttpReply (Option A) → Option A
radius_of unreachable = none
radius_of (answered status none) = none
radius_of (answered status (some radius)) = if is_success status then radius else none

module _ {f : Float} (p : Platform) (service_secret : String) (now : ℕ)
    (message_radius : String → String → HttpReply (Option f.Num)) where
  -- `get_message_radius`: `message_radius` is the endpoint of the authority service, given the token
  -- and the tier, and `now` the time in seconds.
  unfoldable pub get_message_radius : AppState f → String → Option f.Num × AppState f
  unfolding get
  get_message_radius state tier = elim (lookup tier state.radius_cache) [
    | some r ↦ (some r, state)
    | none ↦
        if not (is_valid_tier tier)
        then (none, state)
        else (let (svc_token, cache) =
              get p "favourites" service_secret state.svc_token_cache now in
            let state' = record state { svc_token_cache = cache } in
            elim svc_token [
              | none ↦ (none, state')
              | some token ↦ elim (radius_of (message_radius token tier)) [
                | none ↦ (none, state')
                | some radius_m ↦ (
                  some radius_m,
                  record state' { radius_cache = insert tier radius_m state.radius_cache },
                )
              ]
            ])
  ]

-- `get_favourite_ids`: `find` is given the owner.
unfoldable pub get_favourite_ids :
    (String → Result DbError (Option (List FavouriteDoc)))
    → Result Refusal ServiceClaims
    → Headers
    → Result Refusal (List String)
get_favourite_ids find (err r) headers = err r
get_favourite_ids find (ok svc) headers =
    let user_id = unwrap_or "" (headers "x-user-id") in
    if is_empty user_id
    then err (refuse bad_request "X-User-Id required.")
    else elim (find user_id) [
      | err _ ↦ err internal
      | ok found ↦ ok (map (λ (d : FavouriteDoc). d.favourite_user_id) (collected found))
    ]

-- A document of `favourites` as it is inserted.
pub record NewFavourite : Type 0 where
  pub owner_user_id : String
  pub favourite_user_id : String
  pub added_at : ℤ

-- The document of `notifications` that takes the place of one with the same recipient, sender and type.
pub record NewNotification : Type 0 where
  pub recipient_user_id : String
  pub from_user_id : String
  pub from_nickname : String
  pub from_sex : Option String
  pub type_ : String
  pub created_at : ℤ

-- The fields of an owner that a notification shows.
pub record Owner : Type 0 where
  pub nickname : Option String
  pub sex : Option String

-- What `post_favourite` meets: whether a user is there, the insertion, the owner's document, and the
-- two readings of the clock.
pub record FavouriteCalls (p : Platform) : Type 0 where
  pub find_user : p.ObjectId → Result DbError Bool
  pub insert_one : NewFavourite → Result DbError Unit
  pub find_owner : p.ObjectId → Result DbError (Option Owner)
  pub added_now : ℤ
  pub created_now : ℤ

module _ (p : Platform) (calls : FavouriteCalls p) where
  -- The notification that is written, if the owner is found; an error of the write changes nothing.
  unfoldable pub notification : String → String → Option NewNotification
  notification owner_id favourite_user_id = elim (safe_object_id p owner_id) [
    | none ↦ none
    | some owner_oid ↦ elim (calls.find_owner owner_oid) [
      | err _ ↦ none
      | ok none ↦ none
      | ok (some owner) ↦ some (record {
        recipient_user_id = favourite_user_id;
        from_user_id = owner_id;
        from_nickname = unwrap_or "" owner.nickname;
        from_sex = owner.sex;
        type_ = "new_favourite";
        created_at = calls.created_now;
      })
    ]
  ]

  -- The insertion and, when it succeeds, the notification.
  unfoldable pub insert_favourite :
      NewFavourite → Result Refusal StatusCode × Option NewFavourite × Option NewNotification
  unfolding notification
  insert_favourite doc = elim (calls.insert_one doc) [
    | err duplicate_key ↦ (err (refuse conflict "Already in favourites."), some doc, none)
    | err other_error ↦ (err internal, some doc, none)
    | ok _ ↦ (ok created_201, some doc, notification doc.owner_user_id doc.favourite_user_id)
  ]

  -- `post_favourite`: the answer, the document inserted, and the notification.
  unfoldable pub post_favourite :
      Result Refusal ServiceClaims
      → Result Refusal GatewayIdentity
      → String
      → Result Refusal StatusCode × Option NewFavourite × Option NewNotification
  unfolding insert_favourite
  post_favourite (err r) who favourite_user_id = (err r, none, none)
  post_favourite (ok svc) (err r) favourite_user_id = (err r, none, none)
  post_favourite (ok svc) (ok identity) favourite_user_id =
      if identity.sub == favourite_user_id
      then (err (refuse bad_request "Cannot favourite yourself."), none, none)
      else elim (safe_object_id p favourite_user_id) [
        | none ↦ (err (refuse bad_request "Invalid user id."), none, none)
        | some oid ↦ elim (calls.find_user oid) [
          | err _ ↦ (err internal, none, none)
          | ok false ↦ (err (refuse not_found "User not found."), none, none)
          | ok true ↦ insert_favourite (record {
            owner_user_id = identity.sub;
            favourite_user_id = favourite_user_id;
            added_at = calls.added_now;
          })
        ]
      ]

-- A document of a pair: `withinRange`, where it is there and a Boolean.
abbrev pub PairDoc : Type 0
PairDoc = Option Bool

-- The answer of `get_pair_status`.
pub record PairView : Type 0 where
  pub is_mutual : Bool
  pub within_range : Option Bool

abbrev pub is_some {ℓ} : {A : Type ℓ} → Option A → Bool
is_some none = false
is_some (some a) = true

-- The read of a pair, by its owner and its favourite.
abbrev pub FindPair : Type 0
FindPair = String → String → Result DbError (Option PairDoc)

-- `get_is_mutual`: the two reads are independent.
unfoldable pub get_is_mutual :
    FindPair
    → Result Refusal ServiceClaims
    → Result Refusal GatewayIdentity
    → String
    → Result Refusal Bool
get_is_mutual find_one (err r) who user_id = err r
get_is_mutual find_one (ok svc) (err r) user_id = err r
get_is_mutual find_one (ok svc) (ok identity) user_id =
    if identity.sub == user_id then ok false else elim (find_one identity.sub user_id) [
      | err _ ↦ err internal
      | ok my ↦ elim (find_one user_id identity.sub) [
        | err _ ↦ err internal
        | ok their ↦ ok (is_some my && is_some their)
      ]
    ]

-- `sender_doc.and_then(|d| d.get_bool("withinRange").ok())`
abbrev pub within_of : Option PairDoc → Option Bool
within_of none = none
within_of (some doc) = doc

-- `get_pair_status`
unfoldable pub get_pair_status :
    FindPair
    → Result Refusal ServiceClaims
    → Option String
    → Option String
    → Result Refusal PairView
get_pair_status find_one (err r) sender recipient = err r
get_pair_status find_one (ok svc) none recipient =
    err (refuse bad_request "sender and recipient query params required.")
get_pair_status find_one (ok svc) (some sender) none =
    err (refuse bad_request "sender and recipient query params required.")
get_pair_status find_one (ok svc) (some sender) (some recipient) =
    elim (find_one sender recipient) [
      | err _ ↦ err internal
      | ok sender_doc ↦ elim (find_one recipient sender) [
        | err _ ↦ err internal
        | ok recip_doc ↦ ok (record {
          is_mutual = is_some sender_doc && is_some recip_doc;
          within_range = within_of sender_doc;
        })
      ]
    ]

-- `delete_favourite`: `delete_one` is given the owner and the favourite, and answers with
-- `deleted_count`. The command is the pair.
unfoldable pub delete_favourite :
    (String → String → Result DbError ℕ)
    → Result Refusal ServiceClaims
    → Result Refusal GatewayIdentity
    → String
    → Result Refusal StatusCode × Option (String × String)
delete_favourite delete_one (err r) who favourite_user_id = (err r, none)
delete_favourite delete_one (ok svc) (err r) favourite_user_id = (err r, none)
delete_favourite delete_one (ok svc) (ok identity) favourite_user_id =
    elim (delete_one identity.sub favourite_user_id) [
      | err _ ↦ (err internal, some (identity.sub, favourite_user_id))
      | ok zero ↦
          (err (refuse not_found "Favourite not found."), some (identity.sub, favourite_user_id))
      | ok (suc n) ↦ (ok ok_200, some (identity.sub, favourite_user_id))
    ]
