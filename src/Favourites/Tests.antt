-- ===== src/Favourites/Tests.antt =====
-- The favourites service and its theorems at concrete inputs.
use bbn.Prelude.{
  ◌≡◌, refl, Bool, true, false, [], ◌∷◌, none, some, String, string_eq, ◌≢◌, All, eq_iff,
}
use bbn.Prelude.Int.{pos, ◌+ℤ◌, ◌-ℤ◌, ◌*ℤ◌}
use bbn.Float.Plane.{plane}
use bbn.Geo.{haversine_distance}
use bbn.Service.{ok, err, refuse, conflict, duplicate_key, created_201, GatewayIdentity}
use bbn.Service.Sample.{sample, ann, svc_claims}
use bbn.Service.TokenCache.{get}
use bbn.Messages.{answered}
use bbn.Favourites.{
  AppState, FavouriteCalls, NewFavourite, NewNotification, FindPair, post_favourite,
  insert_favourite, notification, get_is_mutual, get_pair_status, get_message_radius,
}
use bbn.Favourites.Pairs.{mutual_of, get_is_mutual-get_pair_status}
use bbn.Favourites.Radius.{IsCached}
use bbn.Favourites.RangeSync.{
  RangeCalls, RangeSyncBody, RangeUpdate, post_range_sync, sync_found, sync_located, sync_pairs,
  pair_radii, is_within,
}
use bbn.Favourites.Synced.{IsAnswered, IsSyncedFor, post_range_sync-IsSyncedFor}

abbrev bob : GatewayIdentity
bob = record ann { sub = "bob" }

-- Ann has Bob as a favourite, and Bob has her.
abbrev pairs : FindPair
pairs a b = ok (some (some true))

not_true : ◌≡◌ {A = Bool} false true → ⊥
not_true h = cc

distinct : ann.sub ≢ bob.sub
distinct h = not_true ((eq_iff "ann" "bob").1 h)

get_is_mutual-get_pair_status_example :
    (get_is_mutual pairs (ok svc_claims) (ok ann) "bob"
      ≡ get_is_mutual pairs (ok svc_claims) (ok bob) "ann")
    × (get_is_mutual pairs (ok svc_claims) (ok ann) "bob"
        ≡ mutual_of (get_pair_status pairs (ok svc_claims) (some "ann") (some "bob")))
    × (get_is_mutual pairs (ok svc_claims) (ok ann) "bob"
        ≡ mutual_of (get_pair_status pairs (ok svc_claims) (some "bob") (some "ann")))
get_is_mutual-get_pair_status_example =
    get_is_mutual-get_pair_status pairs svc_claims ann bob distinct

both_ways : get_is_mutual pairs (ok svc_claims) (ok ann) "bob" ≡ ok true
unfolding get_is_mutual
both_ways = refl

abbrev favourite_calls : FavouriteCalls sample
favourite_calls = record {
  find_user = λ oid. ok true;
  insert_one = λ doc. ok tt;
  find_owner = λ oid. ok (some (record { nickname = some "Ann"; sex = none }));
  added_now = pos 5;
  created_now = pos 6;
}

abbrev ann_to_bob : NewFavourite
ann_to_bob = record { owner_user_id = "ann"; favourite_user_id = "bob"; added_at = pos 5 }

abbrev told_bob : NewNotification
told_bob = record {
  recipient_user_id = "bob";
  from_user_id = "ann";
  from_nickname = "Ann";
  from_sex = none;
  type_ = "new_favourite";
  created_at = pos 6;
}

added :
    post_favourite sample favourite_calls (ok svc_claims) (ok ann) "bob"
    ≡ (ok created_201, some ann_to_bob, some told_bob)
unfolding post_favourite insert_favourite notification
added = refl

-- The second insertion fails, and nobody is told.
added_twice :
    post_favourite sample
      (record favourite_calls { insert_one = λ doc. err duplicate_key })
      (ok svc_claims)
      (ok ann)
      "bob"
    ≡ (err (refuse conflict "Already in favourites."), some ann_to_bob, none)
unfolding post_favourite insert_favourite notification
added_twice = refl

-- Bob is at 2, and each radius is 5.
abbrev calls : RangeCalls plane sample
calls = record {
  find_pairs = λ id. ok (some (record { owner_user_id = "ann"; favourite_user_id = "bob" } ∷ []));
  wall_now = pos 1000000;
  find_locations =
      λ ids cutoff. ok (some (record { user_id = "bob"; lat = pos 0; lon = pos 2 } ∷ []));
  find_venues = λ oids. ok none;
  find_tier = λ oid. ok none;
  find_tiers = λ oids. ok none;
  token_now = λ i. 1;
  message_radius = λ i token tier. answered 200 (some (some (pos 5)));
  update_now = λ i. pos 9;
}

abbrev body : RangeSyncBody plane
body = record { user_id = some "ann"; lat = some (pos 0); lon = some (pos 0) }

abbrev idle : AppState plane
idle = record { svc_token_cache = none; radius_cache = [] }

abbrev flag : String → String → RangeUpdate
flag a b = record {
  owner_user_id = a;
  favourite_user_id = b;
  within_range = true;
  within_range_at = some (pos 9);
}

synced :
    (post_range_sync "s" calls idle (ok svc_claims) body).2
    ≡ flag "ann" "bob" ∷ flag "bob" "ann" ∷ []
unfolding post_range_sync sync_found sync_located sync_pairs pair_radii is_within get_message_radius
    get haversine_distance ◌*ℤ◌ ◌+ℤ◌ ◌-ℤ◌
synced = refl

answers : IsAnswered "s" calls (λ tier r. r ≡ pos 5)
answers i token tier r h = cc

post_range_sync-IsSyncedFor_example :
    IsCached (λ tier r. r ≡ pos 5) (post_range_sync "s" calls idle (ok svc_claims) body).1
    × All
        (IsSyncedFor "s" calls (λ tier r. r ≡ pos 5) body)
        (post_range_sync "s" calls idle (ok svc_claims) body).2
post_range_sync-IsSyncedFor_example =
    post_range_sync-IsSyncedFor "s" calls (λ tier r. r ≡ pos 5) idle (ok svc_claims) body tt answers
