-- ===== src/Authority/Tiers.antt =====
-- Tiers and features: services/authority-service/src/tiers.rs, without the handlers for
-- administrators. A hash map is an association list, whose order stands for the order of a walk. The
-- reply of the database to `find` is an argument, as is the time, in milliseconds. A handler runs after
-- the extractor `ServiceToken`.
pub mod Caching
pub mod Access
use Prim.Native.String.{len}
use bbn.Prelude.{
  ℕ, ◌+◌, Bool, true, false, not, ◌&&◌, ◌||◌, List, [], ◌∷◌, map, Option, none, some, if◌then◌else◌,
  String, string_eq, ◌==◌, leb, ltb,
}
use bbn.Prelude.Int.{ℤ, pos, negsuc}
use bbn.Prelude.Maps.{lookup, insert}
use bbn.Text.{is_empty, all_chars, first_char, is_ascii_lowercase, is_ascii_digit, is_char}
use bbn.Service.{StatusCode, bad_request, not_found, forbidden, Refusal, refuse, Result, err, ok}
use bbn.Service.Auth.{or_else}

pub record FeatureDoc : Type 0 where
  pub name : String
  pub label : String
  pub description : String
  pub min_tier : String

pub record Tier : Type 0 where
  pub name : String
  pub label : String
  pub cls : String
  pub rank : ℕ
  pub nearby_radius_m : ℕ
  pub message_radius_m : Option ℕ

abbrev pub Features : Type 0
Features = List (String × FeatureDoc)

abbrev pub Tiers : Type 0
Tiers = List (String × Tier)

abbrev feature : String → String → String → String → String × FeatureDoc
feature name label description min_tier =
    (name, record { name = name; label = label; description = description; min_tier = min_tier })

abbrev pub static_features : Features
static_features =
    feature "see_map" "See Map" "Can access the map view." "guest"
    ∷ feature "see_nearby" "See Nearby Users" "Can see other users on the map." "guest"
    ∷ feature "message_online" "Message Online" "Can send messages to online users." "regular"
    ∷ feature "message_offline" "Message Offline" "Can send messages to offline users." "regular"
    ∷ feature "message_radius" "Message Radius" "Has an extended message radius." "regular"
    ∷ feature "manage_favourites" "Manage Favourites" "Can add and remove users from favourites."
        "regular"
    ∷ []

abbrev tier : String → String → String → ℕ → ℕ → Option ℕ → String × Tier
tier name label cls rank nearby message = (
  name,
  record {
    name = name;
    label = label;
    cls = cls;
    rank = rank;
    nearby_radius_m = nearby;
    message_radius_m = message;
  },
)

abbrev pub static_tiers : Tiers
static_tiers =
    tier "guest" "Guest" "secondary" 0 500 none
    ∷ tier "regular" "Regular" "primary" 1 1000 (some 1000)
    ∷ tier "premium" "Premium" "warning" 2 23000 (some 23000)
    ∷ tier "unrestricted" "Unrestricted" "warning" 3 9700000 (some 9700000)
    ∷ []

-- The reply to `find`: an error, an error while the cursor is read, or the documents.
pub data FindReply (A : Type 0) : Type 0 where
  find_error : FindReply A
  collect_error : FindReply A
  docs : List A → FindReply A

pub record Cache (A : Type 0) : Type 0 where
  pub entries : List (String × A)
  pub expires_at : ℕ

module _ {A : Type 0} where
  -- `docs.into_iter().map(|d| (d.name.clone(), d)).collect()` into a hash map
  abbrev pub by_name_from : (A → String) → List (String × A) → List A → List (String × A)
  by_name_from name m [] = m
  by_name_from name m (d ∷ ds) = by_name_from name (insert (name d) d m) ds

  -- What the reply gives, with the static entries where it is an error or empty.
  abbrev pub read_reply : (A → String) → List (String × A) → FindReply A → List (String × A)
  read_reply name statics find_error = statics
  read_reply name statics collect_error = statics
  read_reply name statics (docs []) = statics
  read_reply name statics (docs (d ∷ ds)) = by_name_from name [] (d ∷ ds)

  -- The entries of a cache that has not expired.
  abbrev pub unexpired : Option (Cache A) → ℕ → Option (List (String × A))
  unexpired none now = none
  unexpired (some c) now = if ltb now c.expires_at then some c.entries else none

  -- The body that `load_features` and `load_tiers` share, with the time of the read of the cache and
  -- that of the write.
  abbrev pub load_cached :
      (A → String)
      → List (String × A)
      → Option (Cache A)
      → ℕ
      → ℕ
      → FindReply A
      → List (String × A) × Option (Cache A)
  load_cached name statics cache now written_at reply = elim (unexpired cache now) [
    | some entries ↦ (entries, cache)
    | none ↦
        let entries = read_reply name statics reply in
        (entries, some (record { entries = entries; expires_at = written_at + 60000 }))
  ]

unfoldable pub load_features :
    Option (Cache FeatureDoc) → ℕ → ℕ → FindReply FeatureDoc → Features × Option (Cache FeatureDoc)
load_features = load_cached (λ f. f.name) static_features

unfoldable pub load_tiers :
    Option (Cache Tier) → ℕ → ℕ → FindReply Tier → Tiers × Option (Cache Tier)
load_tiers = load_cached (λ t. t.name) static_tiers

-- The caches of the service's state.
pub record AppState : Type 0 where
  pub tiers_cache : Option (Cache Tier)
  pub features_cache : Option (Cache FeatureDoc)

-- What a handler meets when it loads: for each of the two loads the time of the read of the cache,
-- that of its write, and the reply of the database.
pub record Loads : Type 0 where
  pub tiers_at : ℕ
  pub tiers_written : ℕ
  pub tiers_reply : FindReply Tier
  pub features_at : ℕ
  pub features_written : ℕ
  pub features_reply : FindReply FeatureDoc

-- `load_tiers(&state.tiers_cache, &state.db)`
abbrev pub tiers_of : AppState → Loads → Tiers × AppState
tiers_of state loads =
    let (tiers, cache) =
      load_tiers state.tiers_cache loads.tiers_at loads.tiers_written loads.tiers_reply in
    (tiers, record state { tiers_cache = cache })

-- `load_features(&state.features_cache, &state.db)`
abbrev pub features_of : AppState → Loads → Features × AppState
features_of state loads =
    let (features, cache) =
      load_features state.features_cache loads.features_at loads.features_written
        loads.features_reply in
    (features, record state { features_cache = cache })

unfoldable pub tier_rank : String → ℕ
tier_rank tier =
    if tier == "guest"
    then 0
    else if tier == "regular"
    then 1
    else if tier == "premium"
    then 2
    else if tier == "unrestricted"
    then 3
    else 0

abbrev pub is_known_tier : String → Bool
is_known_tier tier =
    tier == "guest" || tier == "regular" || tier == "premium" || tier == "unrestricted"

unfoldable pub can : String → String → Features → Bool
can tier feature features = elim (lookup feature features) [
  | none ↦ false
  | some f ↦ leb (tier_rank f.min_tier) (tier_rank tier)
]

unfoldable pub features_for_tier : String → Features → List String
features_for_tier tier [] = []
features_for_tier tier ((k, f) ∷ features) =
    let rest = features_for_tier tier features in
    if leb (tier_rank f.min_tier) (tier_rank tier) then k ∷ rest else rest

-- The body of a refusal of a feature: the tier that it needs, or "unknown".
abbrev pub required_tier : String → Features → String
required_tier feature features = elim (lookup feature features) [
  | none ↦ "unknown"
  | some f ↦ f.min_tier
]

-- The answers of `tiers_check`.
pub data CheckAnswer : Type 0 where
  allowed : CheckAnswer
  tier_and_feature_required : CheckAnswer
  -- your tier, and the required one
  tier_required : String → String → CheckAnswer

unfoldable pub tiers_check :
    AppState → Loads → Option String → Option String → CheckAnswer × AppState
unfolding can load_features
tiers_check state loads none feature = (tier_and_feature_required, state)
tiers_check state loads (some tier) none = (tier_and_feature_required, state)
tiers_check state loads (some tier) (some feature) =
    let (features, state') = features_of state loads in
    if not (can tier feature features)
    then (tier_required tier (required_tier feature features), state')
    else (allowed, state')

-- The entry of the tier in the loaded tiers, or the static one.
abbrev pub tier_entry : Tiers → String → Option Tier
tier_entry tiers tier = or_else (lookup tier tiers) (lookup tier static_tiers)

abbrev pub nearby_of : Option Tier → ℕ
nearby_of none = 500
nearby_of (some t) = t.nearby_radius_m

-- -1 where the tier has no radius
abbrev pub message_of : Option Tier → ℤ
message_of none = negsuc 0
message_of (some t) = elim t.message_radius_m [ none ↦ negsuc 0 | some r ↦ pos r ]

unfoldable pub nearby_radius : AppState → Loads → String → Result Refusal ℕ × AppState
unfolding load_tiers
nearby_radius state loads tier =
    if not (is_known_tier tier)
    then (err (refuse bad_request "Unknown tier."), state)
    else (let (tiers, state') = tiers_of state loads in
        (ok (nearby_of (tier_entry tiers tier)), state'))

unfoldable pub message_radius : AppState → Loads → String → Result Refusal ℤ × AppState
unfolding load_tiers
message_radius state loads tier =
    if not (is_known_tier tier)
    then (err (refuse bad_request "Unknown tier."), state)
    else (let (tiers, state') = tiers_of state loads in
        (ok (message_of (tier_entry tiers tier)), state'))

-- The answer of `tier_info`.
pub record TierInfo : Type 0 where
  pub tier : Tier
  pub features : List String

unfoldable pub tier_info : AppState → Loads → String → Result Refusal TierInfo × AppState
unfolding load_tiers load_features features_for_tier
tier_info state loads name =
    let (tiers, state') = tiers_of state loads in
    elim (lookup name tiers) [
      | none ↦ (err (refuse not_found "Unknown tier."), state')
      | some t ↦
          let (features, state'') = features_of state' loads in
          (ok (record { tier = t; features = features_for_tier t.name features }), state'')
    ]

-- `tiers_info`: the label and the class of each tier
unfoldable pub tiers_info : AppState → Loads → List (String × (String × String)) × AppState
unfolding load_tiers
tiers_info state loads =
    let (tiers, state') = tiers_of state loads in
    (map (λ b. (b.1.name, (b.1.label, b.1.cls))) tiers, state')

unfoldable pub valid_tier_name : String → Bool
valid_tier_name s =
    not (is_empty s)
    && leb (len s) 64
    && elim (first_char s) [ none ↦ false | some c ↦ is_ascii_lowercase c ]
    && all_chars (λ c. is_ascii_lowercase c || is_ascii_digit c || is_char 95 c) s
