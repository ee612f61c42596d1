-- ===== src/Favourites/Listing.antt =====
-- `get_favourites`, `get_notifications` and `delete_notification` of
-- services/favourites-service/src/main.rs. A date is its RFC 3339 text, where it has one.
use bbn.Prelude.{
  ℕ, zero, suc, Bool, true, ◌||◌, List, [], ◌∷◌, map, Option, none, some, if◌then◌else◌, String,
  string_eq, ◌==◌, contains,
}
use bbn.Prelude.Maps.{lookup, insert}
use bbn.Float.{Float}
use bbn.Service.{
  StatusCode, ok_200, bad_request, not_found, Refusal, refuse, Result, err, ok, DbError, Platform,
  ServiceClaims, GatewayIdentity, unwrap_or, safe_object_id, internal, collected, filter_map,
}
use bbn.Service.TokenCache.{Cached, get}
use bbn.Messages.{HttpReply, unreachable, answered}
use bbn.Favourites.{FavouriteDoc, AppState}

pub record UserProfile (p : Platform) : Type 0 where
  pub id : p.ObjectId
  pub nickname : Option String
  pub sex : Option String
  pub account_type : String
  pub can_receive_messages : Option Bool

-- An element of the answer of `get_favourites`.
pub record FavouriteView : Type 0 where
  pub user_id : String
  pub nickname : String
  pub sex : Option String
  pub account_type : String
  pub online : Bool
  pub added_at : Option String
  pub within_range : Option Bool
  pub within_range_at : Option String
  pub can_receive_messages : Option Bool

-- What `get_favourites` meets: the favourites of an owner, newest first, the users of some ids, the
-- time in seconds, and the ids that the location service finds online, [] where the body has no array.
pub record ListingCalls (p : Platform) : Type 0 where
  pub find_favourites : String → Result DbError (Option (List FavouriteDoc))
  pub find_users : List p.ObjectId → Result DbError (Option (List (UserProfile p)))
  pub token_now : ℕ
  pub online_batch : String → List String → HttpReply (List String)

-- The array of a reply, whatever its status; an error counts as nobody online.
abbrev pub online_of : HttpReply (List String) → List String
online_of unreachable = []
online_of (answered status none) = []
online_of (answered status (some ids)) = ids

module _ (p : Platform) (service_secret : String) (calls : ListingCalls p) where
  -- The users that are found; an error counts as none.
  abbrev pub profiles_of : Result DbError (Option (List (UserProfile p))) → List (UserProfile p)
  profiles_of (err _) = []
  profiles_of (ok found) = collected found

  -- `user_map`: a later user with the same id takes the place of an earlier one.
  abbrev pub profile_map :
      List (String × UserProfile p) → List (UserProfile p) → List (String × UserProfile p)
  profile_map m [] = m
  profile_map m (u ∷ users) = profile_map (insert (p.to_hex u.id) u m) users

  -- A favourite and the user, if the user is found. A venue is always online.
  abbrev pub favourite_view :
      List (String × UserProfile p) → List String → FavouriteDoc → Option FavouriteView
  favourite_view users online e = elim (lookup e.favourite_user_id users) [
    | none ↦ none
    | some u ↦
        let is_venue = u.account_type == "venue" in
        some (record {
          user_id = e.favourite_user_id;
          nickname = unwrap_or e.favourite_user_id u.nickname;
          sex = u.sex;
          account_type = u.account_type;
          online = is_venue || contains online e.favourite_user_id;
          added_at = e.added_at;
          within_range = e.within_range;
          within_range_at = e.within_range_at;
          can_receive_messages =
              if is_venue then some (unwrap_or true u.can_receive_messages) else none;
        })
  ]

  -- The ids that are online, and the new cache; without a token nobody is.
  unfoldable pub online_set : Cached → List String → List String × Cached
  unfolding get
  online_set cache ids =
      let (svc_token, cache') = get p "favourites" service_secret cache calls.token_now in
      elim svc_token [
        | none ↦ ([], cache')
        | some token ↦ (online_of (calls.online_batch token ids), cache')
      ]

  -- The answer for the favourites that are found.
  unfoldable pub list_favourites :
      {f : Float} → AppState f → List FavouriteDoc → List FavouriteView × AppState f
  unfolding online_set
  list_favourites state [] = ([], state)
  list_favourites state (e ∷ es) =
      let entries = e ∷ es in
      let ids = map (λ (e : FavouriteDoc). e.favourite_user_id) entries in
      let users =
        profile_map [] (profiles_of (calls.find_users (filter_map (safe_object_id p) ids))) in
      let (online, cache) = online_set state.svc_token_cache ids in
      (filter_map (favourite_view users online) entries, record state { svc_token_cache = cache })

  -- `get_favourites`
  unfoldable pub get_favourites :
      {f : Float}
      → AppState f
      → Result Refusal ServiceClaims
      → Result Refusal GatewayIdentity
      → Result Refusal (List FavouriteView) × AppState f
  unfolding list_favourites
  get_favourites state (err r) who = (err r, state)
  get_favourites state (ok svc) (err r) = (err r, state)
  get_favourites state (ok svc) (ok identity) = elim (calls.find_favourites identity.sub) [
    | err _ ↦ (err internal, state)
    | ok found ↦ let (views, state') = list_favourites state (collected found) in (ok views, state')
  ]

pub record NotificationDoc (p : Platform) : Type 0 where
  pub id : p.ObjectId
  pub from_user_id : String
  pub from_nickname : Option String
  pub from_sex : Option String
  pub type_ : String
  pub created_at : Option String

-- An element of the answer of `get_notifications`.
pub record NotificationView : Type 0 where
  pub id : String
  pub from_user_id : String
  pub from_nickname : Option String
  pub from_sex : Option String
  pub type_ : String
  pub created_at : Option String
  pub already_fav : Bool

module _ (p : Platform) where
  -- The senders that are favourites already; `find` is given the owner and the senders, and answers
  -- with the field `favouriteUserId` of each document, where it is a string.
  abbrev pub already_fav_ids :
      (String → List String → Result DbError (Option (List (Option String))))
      → String
      → List String
      → List String
  already_fav_ids find owner [] = []
  already_fav_ids find owner (s ∷ ss) = elim (find owner (s ∷ ss)) [
    | err _ ↦ []
    | ok found ↦ filter_map (λ (x : Option String). x) (collected found)
  ]

  abbrev pub notification_view : List String → NotificationDoc p → NotificationView
  notification_view favs n = record {
    id = p.to_hex n.id;
    from_user_id = n.from_user_id;
    from_nickname = n.from_nickname;
    from_sex = n.from_sex;
    type_ = n.type_;
    created_at = n.created_at;
    already_fav = contains favs n.from_user_id;
  }

  -- `get_notifications`: `find_items` is given the recipient and the limit.
  unfoldable pub get_notifications :
      (String → ℕ → Result DbError (Option (List (NotificationDoc p))))
      → (String → List String → Result DbError (Option (List (Option String))))
      → Result Refusal ServiceClaims
      → Result Refusal GatewayIdentity
      → Result Refusal (List NotificationView)
  get_notifications find_items find_favs (err r) who = err r
  get_notifications find_items find_favs (ok svc) (err r) = err r
  get_notifications find_items find_favs (ok svc) (ok identity) =
      elim (find_items identity.sub 20) [
        | err _ ↦ err internal
        | ok found ↦
            let items = collected found in
            let senders = map (λ (n : NotificationDoc p). n.from_user_id) items in
            let favs = already_fav_ids find_favs identity.sub senders in
            ok (map (notification_view favs) items)
      ]

  -- `delete_notification`: `delete_one` is given the notification and the recipient, and answers with
  -- `deleted_count`. The command is the two.
  unfoldable pub delete_notification :
      (p.ObjectId → String → Result DbError ℕ)
      → Result Refusal ServiceClaims
      → Result Refusal GatewayIdentity
      → String
      → Result Refusal StatusCode × Option (p.ObjectId × String)
  delete_notification delete_one (err r) who notif_id = (err r, none)
  delete_notification delete_one (ok svc) (err r) notif_id = (err r, none)
  delete_notification delete_one (ok svc) (ok identity) notif_id =
      elim (safe_object_id p notif_id) [
        | none ↦ (err (refuse bad_request "Invalid notification id."), none)
        | some oid ↦ elim (delete_one oid identity.sub) [
          | err _ ↦ (err internal, some (oid, identity.sub))
          | ok zero ↦ (err (refuse not_found "Notification not found."), some (oid, identity.sub))
          | ok (suc n) ↦ (ok ok_200, some (oid, identity.sub))
        ]
      ]
