-- ===== src/Location/Handlers/Tests.antt =====
-- The handlers of the location service and their theorems at concrete inputs.
use bbn.Prelude.{◌≡◌, refl, true, [], ◌∷◌, none, some, arith, string_eq, All}
use bbn.Prelude.Int.{pos, ◌+ℤ◌, ◌-ℤ◌, ◌*ℤ◌}
use bbn.Float.Plane.{plane}
use bbn.Geo.{haversine_distance, shard_for_coords, intersecting_shards, min_dist_to_shard}
use bbn.Location.Store.{MemoryStore, get_user, find_entry, new, upsert, is_suppressed}
use bbn.Location.Store.Valid.{IsValid, new-IsValid, upsert-IsValid}
use bbn.Location.Nearby.{nearby, search, sorted_candidates, select, traverse, extra_favs}
use bbn.Location.Store.Sorting.{sort, sort_by_partial}
use bbn.Service.{ok, err, ServiceClaims}
use bbn.Service.Sample.{sample, ann, svc_claims}
use bbn.Service.TokenCache.{get}
use bbn.Service.Issue.{TokenProfile}
use bbn.Messages.{answered}
use bbn.Location.Handlers.{AppState, BlockCalls, get_nearby_radius_m, get_blocked_ids}
use bbn.Location.Handlers.Push.{
  PutLocationBody, PutTimes, pushed_entry, push_location, put_location,
}
use bbn.Location.Handlers.Search.{
  NearbyCalls, NearbyQuery, get_nearby, NearbyUser, search_nearby, resolve_radius, blocked_for,
  fetch_favourite_ids,
}
use bbn.Location.Handlers.Shown.{IsSeparated, IsOther, get_nearby-IsOther}
use bbn.Location.Handlers.Lookups.{
  get_user_location, put_location-get_user_location, post_online_batch, not_authorised,
}

abbrev idle : AppState plane
idle = record {
  store = new (pos 1) 100 10 (pos 1);
  nearby_limit = 200;
  svc_token_cache = none;
  block_cache = [];
  tier_radius_cache = [];
}

abbrev times : PutTimes
times = record { get_now = 0; entry_now = 0; check_now = 0; write_now = 0 }

abbrev profile : TokenProfile
profile = record { sex = none; nickname = some "Ann"; age = some 30 }

abbrev body : PutLocationBody plane
body = record { lat = some (pos 1); lon = some (pos 0); accuracy = none }

abbrev reader : ServiceClaims
reader = record { sub = "messages"; role = "service" }

-- Ann's first push is written, and the favourites service is told.
pushed :
    (put_location idle (ok svc_claims) (ok ann) profile body times).2
    ≡ some (record { user_id = "ann"; lat = pos 1; lon = pos 0 })
unfolding put_location push_location upsert new is_suppressed get_user ◌-ℤ◌
pushed = refl

put_location-get_user_location_example :
    get_user_location sample
      (λ oid. ok none)
      (put_location idle (ok svc_claims) (ok ann) profile body times).1
      90
      (ok reader)
      "ann"
    ≡ ok (record { lat = pos 1; lon = pos 0 })
unfolding put_location push_location upsert new is_suppressed ◌-ℤ◌
put_location-get_user_location_example =
    put_location-get_user_location idle svc_claims ann times sample (λ oid. ok none) reader profile
      body (pos 1) (pos 0) 90 refl refl refl refl (omega arith)

-- Only the favourites service may ask who is online.
refused_batch :
    post_online_batch sample (λ oids. ok none) idle 0 (ok reader) ("ann" ∷ []) ≡ err not_authorised
unfolding post_online_batch
refused_batch = refl

-- Bob and Cid are near, and Bob has blocked Ann.
abbrev crowd : MemoryStore plane
crowd =
    (upsert
      (upsert (new (pos 1) 100 10 (pos 1)) 0 0
        (pushed_entry (record ann { sub = "bob" }) profile times (pos 2) (pos 0) none)).0
      0 0 (pushed_entry (record ann { sub = "cid" }) profile times (pos 3) (pos 0) none)).0

abbrev crowded : AppState plane
crowded = record idle { store = crowd }

abbrev blocks : BlockCalls
blocks = record {
  check_now = 0;
  write_now = 0;
  find_blocks = λ id. ok (some (record { blocker_user_id = "bob"; blocked_user_id = "ann" } ∷ []));
}

abbrev calls : NearbyCalls plane sample
calls = record {
  radius = record {
    check_now = 0;
    token_now = 0;
    write_now = 0;
    nearby_radius = λ token tier. answered 200 (some (some (pos 9)));
  };
  blocks = blocks;
  venue_blocks = blocks;
  token_now = 0;
  favourite_ids = λ token sub. answered 200 (some []);
  search_now = 0;
  later_now = λ id. 0;
  find_venues =
      ok (some (record { id = "bob"; nickname = none; fixed_lat = pos 0; fixed_lon = pos 0 } ∷ []));
}

abbrev query : NearbyQuery plane
query = record { lat = some (pos 0); lon = some (pos 0) }

abbrev cid_shown : NearbyUser plane
cid_shown = record {
  user_id = "cid";
  lat = pos 3;
  lon = pos 0;
  is_registered = true;
  sex = none;
  nickname = some "Ann";
  age = some (pos 30);
  accuracy = "gps";
  account_type = none;
  distance_m = pos 3;
}

abbrev after : AppState plane
after = record crowded {
  svc_token_cache = some ("location", 60);
  block_cache = ("ann", ("bob" ∷ [], 30000)) ∷ [];
  tier_radius_cache = ("premium", (pos 9, 300000)) ∷ [];
}

answer :
    get_nearby "s" calls crowded (ok svc_claims) (ok ann) query ≡ some (ok (cid_shown ∷ []), after)
unfolding get_nearby search_nearby resolve_radius get_nearby_radius_m blocked_for get_blocked_ids
    fetch_favourite_ids nearby search sorted_candidates select traverse extra_favs sort
    sort_by_partial get upsert is_suppressed new intersecting_shards shard_for_coords
    min_dist_to_shard haversine_distance get_user find_entry ◌*ℤ◌ ◌+ℤ◌ ◌-ℤ◌
answer = refl

crowd-IsValid : IsValid crowd
crowd-IsValid =
    upsert-IsValid _ 0 0 _
      (upsert-IsValid (new (pos 1) 100 10 (pos 1)) 0 0 _ (new-IsValid (pos 1) 100 10 (pos 1)))

apart : IsSeparated "s" calls crowded ann "bob"
apart = (refl, refl, refl)

get_nearby-IsOther_example : All (IsOther "s" calls "ann" ("bob" ∷ [])) (cid_shown ∷ [])
get_nearby-IsOther_example =
    get_nearby-IsOther "s" calls crowded svc_claims ann query ("bob" ∷ []) (cid_shown ∷ []) after
      crowd-IsValid (λ id. omega arith) (apart, tt) answer
