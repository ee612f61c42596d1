-- ===== src/Messages/Tests.antt =====
-- The theorems on the messages service at concrete inputs.
use bbn.Prelude.{
  ◌≡◌, ◌↔◌, refl, inl, inr, arith, true, false, [], ◌∷◌, List, All, map, Bool-cases, Option, none,
  some, if◌then◌else◌, String, string_eq, ◌==◌,
}
use bbn.Prelude.Int.{pos, ◌+ℤ◌, ◌-ℤ◌, ◌*ℤ◌}
use bbn.Float.Plane.{plane}
use bbn.Geo.{haversine_distance}
use bbn.Rate.{check_user_rate}
use bbn.Service.{Result, err, ok, Refusal, refuse, forbidden, DbError, unwrap_or, GatewayIdentity}
use bbn.Service.TokenCache.{get}
use bbn.Service.Sample.{sample, ann, svc_claims}
use bbn.Messages.{
  AppState, default_settings, Calls, NewMessage, answered, send_message, valid_text, deliver,
  block_check, peer_checks, pair_check, sender_location, proximity_check, radius_check,
  StoredMessage, delete_message,
}
use bbn.Messages.Deliver.{AreMutualInReach, IsDelivered}
use bbn.Messages.Exact.{MaySend, send_message-IsDelivered_iff}
use bbn.Messages.Read.{MessageDoc, ReadCalls, get_thread, get_messages, msg_to_json}
use bbn.Messages.Threads.{
  IsStored, Shows, FindsSelected, IsOfThread, selects, get_thread-IsOfThread,
}
use bbn.Messages.Inbox.{send_message-get_thread}
use bbn.Messages.Send.{IsProper, send_message-IsProper, delete_message-sender}

-- Ann and Bob are mutual favourites, online and 2 apart, within the radius 5.
abbrev calls : Calls plane sample
calls = record {
  rate_now = 1000;
  token_now = 1;
  sent_now = pos 1000;
  expiry_now = pos 1001;
  parse_cipher = λ text. some ("aXY=", "Y2lwaGVy");
  find_recipient = λ oid. ok (some (some "premium"));
  find_block = λ pairs. ok false;
  pair_status =
      λ token from to. answered 200 (some (record { is_mutual = true; within_range = none }));
  location = λ token id.
      answered 200 (some (record { lat = pos 0; lon = if id == "ann" then pos 0 else pos 2 }));
  message_radius = λ token tier. answered 200 (some (pos 5));
  insert_one = λ doc. ok "m1";
}

abbrev idle : AppState
idle = record { settings = default_settings; user_buckets = []; svc_token_cache = none }

abbrev message : NewMessage
message = record {
  from_user_id = "ann";
  to_user_id = "bob";
  text = "hello";
  sent_at = pos 1000;
  expires_at = pos 14401001;
}

sent :
    (send_message "s" calls idle (ok svc_claims) (ok ann) "bob" (some " hello ")).2 ≡ some message
unfolding send_message valid_text deliver block_check peer_checks pair_check sender_location
    proximity_check radius_check get check_user_rate haversine_distance ◌*ℤ◌ ◌+ℤ◌ ◌-ℤ◌
sent = refl

-- A block makes the send fail before any request to another service.
blocked :
    (send_message "s"
      (record calls { find_block = λ pairs. ok true })
      idle
      (ok svc_claims)
      (ok ann)
      "bob"
      (some "hello")).0
    ≡ err (refuse forbidden "You cannot message this user.")
unfolding send_message valid_text deliver block_check peer_checks get check_user_rate
blocked = refl

send_message-IsProper_example : IsProper "s" calls idle (ok ann) "bob" message
send_message-IsProper_example =
    send_message-IsProper "s" calls idle (ok svc_claims) (ok ann) "bob" (some " hello ") message
      sent

abbrev find_one : String → Result DbError (Option StoredMessage)
find_one id = ok (some (record { from_user_id = some "ann" }))

deleted : (delete_message sample find_one (λ id. ok tt) (ok svc_claims) (ok ann) "m1").1 ≡ some "m1"
unfolding delete_message
deleted = refl

delete_message-sender_example :
    (identity : GatewayIdentity) × (msg : StoredMessage) × (◌≡◌ {A = Result Refusal GatewayIdentity}
      (ok ann)
      (ok identity))
    × (sample.from_str "m1" ≡ some "m1")
    × (find_one "m1" ≡ ok (some msg))
    × (unwrap_or "" msg.from_user_id ≡ identity.sub)
delete_message-sender_example =
    delete_message-sender sample find_one (λ id. ok tt) (ok svc_claims) (ok ann) "m1" "m1" deleted

below_limit : (check_user_rate idle.user_buckets 1000 "ann" 10 10000).1 ≡ true
unfolding check_user_rate
below_limit = refl

made : (get sample "messages" "s" none 1).0 ≡ some "messages"
unfolding get
made = refl

near : AreMutualInReach "s" calls "messages" ann (some "premium") "ann" "bob"
unfolding haversine_distance ◌*ℤ◌ ◌+ℤ◌ ◌-ℤ◌
near = (
  record { is_mutual = true; within_range = none },
  record { lat = pos 0; lon = pos 0 },
  (200, refl, refl),
  refl,
  (200, refl, refl),
  inl (
    record { lat = pos 0; lon = pos 2 },
    (200, refl, refl),
    refl,
    refl,
    (pos 5, pos 5, (200, refl, refl), (200, refl, refl), refl, refl),
  ),
)

may_send : MaySend "s" calls idle ann "bob" (some " hello ") message "m1"
unfolding ◌+ℤ◌
may_send = (
  " hello ",
  "ann",
  "bob",
  refl,
  below_limit,
  (refl, omega arith, refl),
  refl,
  refl,
  (some "premium", refl, inr (refl, refl, ("messages", made, near)), refl, refl),
)

send_message-IsDelivered_iff_example :
    IsDelivered "s" calls message "m1"
      (send_message "s" calls idle (ok svc_claims) (ok ann) "bob" (some " hello "))
    ↔ MaySend "s" calls idle ann "bob" (some " hello ") message "m1"
send_message-IsDelivered_iff_example =
    send_message-IsDelivered_iff "s" calls idle svc_claims ann "bob" (some " hello ") message "m1"

-- A collection with the message of Ann.
abbrev row : MessageDoc sample
row = record {
  id = "m1";
  from_user_id = "ann";
  to_user_id = "bob";
  text = "hello";
  sent_at = some (pos 1000);
  expires_at = some (pos 14401001);
}

abbrev reading : ReadCalls sample
reading = record {
  now = pos 2000;
  to_rfc3339 = λ date. some "date";
  find_user = λ oid. ok true;
  find_messages = λ query. ok (some (if selects query row then row ∷ [] else []));
}

row-IsStored : IsStored reading row
row-IsStored query hit = (row ∷ [], rw hit refl, inl refl)

abbrev bob : GatewayIdentity
bob = record ann { sub = "bob" }

send_message-get_thread_example :
    Shows reading row (get_thread reading (ok svc_claims) (ok bob) "ann")
    × Shows reading row (get_messages reading (ok svc_claims) (ok bob))
send_message-get_thread_example =
    send_message-get_thread "s" calls reading idle (ok svc_claims) svc_claims ann bob "bob" "ann"
      (some " hello ") message "m1" sent row-IsStored refl (inr (refl, refl)) (λ oid e. refl)

reading-FindsSelected : FindsSelected reading
reading-FindsSelected query docs found = elim (Bool-cases (selects query row)) [
  | inl hit ↦ let e : (row ∷ []) ≡ docs = cc (rw hit at found) in rw (← e) (hit, tt)
  | inr miss ↦ let e : [] ≡ docs = cc (rw miss at found) in rw (← e) tt
]

thread_read : get_thread reading (ok svc_claims) (ok bob) "ann" ≡ ok (msg_to_json reading row ∷ [])
unfolding get_thread
thread_read = refl

get_thread-IsOfThread_example :
    (identity : GatewayIdentity) × (docs : List (MessageDoc sample)) × (◌≡◌
      {A = Result Refusal GatewayIdentity}
      (ok bob)
      (ok identity))
    × ((msg_to_json reading row ∷ []) ≡ map (msg_to_json reading) docs)
    × All (IsOfThread reading identity.sub "ann") docs
get_thread-IsOfThread_example =
    get_thread-IsOfThread reading (ok svc_claims) (ok bob) "ann" (msg_to_json reading row ∷ [])
      reading-FindsSelected thread_read
