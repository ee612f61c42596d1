-- ===== src/Blocks/Tests.antt =====
-- The handlers of the blocks service and their theorems at concrete inputs.
use bbn.Prelude.{
  ◌≡◌, refl, true, [], ◌∷◌, none, some, if◌then◌else◌, String, string_eq, ◌==◌, inr, List,
}
use bbn.Prelude.Int.{pos}
use bbn.Float.Plane.{plane}
use bbn.Service.{
  err, ok, refuse, bad_request, conflict, not_found, duplicate_key, created_201, GatewayIdentity,
}
use bbn.Service.Sample.{sample, ann, svc_claims}
use bbn.Messages.{Calls, answered, AppState, default_settings, send_message}
use bbn.Blocks.{NewBlock, post_block, delete_block, get_blocks, StoredBlock, BlockView}
use bbn.Blocks.Post.{IsProper, post_block-IsProper}
use bbn.Blocks.Send.{matches, post_block-send_message}

abbrev ann_blocks_bob : NewBlock
ann_blocks_bob = record {
  blocker_user_id = "ann";
  blocked_user_id = "bob";
  reason = "spam";
  created_at = pos 7;
}

blocked :
    post_block sample
      (λ oid. ok true)
      (λ d. ok tt)
      (pos 7)
      (ok svc_claims)
      (ok ann)
      "bob"
      (some "spam")
    ≡ (ok created_201, some ann_blocks_bob)
unfolding post_block
blocked = refl

blocked_twice :
    post_block sample
      (λ oid. ok true)
      (λ d. err duplicate_key)
      (pos 7)
      (ok svc_claims)
      (ok ann)
      "bob"
      (some "spam")
    ≡ (err (refuse conflict "User is already blocked."), some ann_blocks_bob)
unfolding post_block
blocked_twice = refl

no_reason :
    post_block sample (λ oid. ok true) (λ d. ok tt) (pos 7) (ok svc_claims) (ok ann) "bob" none
    ≡ (err (refuse bad_request "reason must be one of: {}."), none)
unfolding post_block
no_reason = refl

self_block :
    post_block sample
      (λ oid. ok true)
      (λ d. ok tt)
      (pos 7)
      (ok svc_claims)
      (ok ann)
      "ann"
      (some "spam")
    ≡ (err (refuse bad_request "Cannot block yourself."), none)
unfolding post_block
self_block = refl

deleted_nothing :
    delete_block (λ a b. ok 0) (ok svc_claims) (ok ann) "bob"
    ≡ (err (refuse not_found "Block not found."), some ("ann", "bob"))
unfolding delete_block
deleted_nothing = refl

-- An entry with no reason is left out, and a user who is not found goes by the id.
abbrev bob_entry : StoredBlock
bob_entry = record { blocked_user_id = some "bob"; reason = some "spam"; created_at = none }

abbrev cid_entry : StoredBlock
cid_entry = record { blocked_user_id = some "cid"; reason = none; created_at = none }

abbrev bob_view : BlockView
bob_view = record {
  user_id = "bob";
  nickname = "bob";
  sex = none;
  reason = "spam";
  created_at = none;
}

listed :
    get_blocks sample
      (λ id. ok (some (bob_entry ∷ cid_entry ∷ [])))
      (λ oids. ok none)
      (ok svc_claims)
      (ok ann)
    ≡ ok (bob_view ∷ [])
unfolding get_blocks
listed = refl

post_block-IsProper_example :
    IsProper sample
      (λ oid. ok true)
      (λ d. ok tt)
      (pos 7)
      (ok ann)
      "bob"
      (some "spam")
      ann_blocks_bob
unfolding post_block
post_block-IsProper_example =
    post_block-IsProper sample (λ oid. ok true) (λ d. ok tt) (pos 7) (ok svc_claims) (ok ann) "bob"
      (some "spam") ann_blocks_bob refl

abbrev idle : AppState
idle = record { settings = default_settings; user_buckets = []; svc_token_cache = none }

-- The database after Ann has blocked Bob.
abbrev calls : Calls plane sample
calls = record {
  rate_now = 1000;
  token_now = 1;
  sent_now = pos 1000;
  expiry_now = pos 1001;
  parse_cipher = λ text. some ("aXY=", "Y2lwaGVy");
  find_recipient = λ oid. ok (some (some "premium"));
  find_block = λ pairs. ok (matches ann_blocks_bob pairs);
  pair_status =
      λ token from to. answered 200 (some (record { is_mutual = true; within_range = none }));
  location = λ token id.
      answered 200 (some (record { lat = pos 0; lon = if id == "ann" then pos 0 else pos 2 }));
  message_radius = λ token tier. answered 200 (some (pos 5));
  insert_one = λ doc. ok "m1";
}

abbrev bob : GatewayIdentity
bob = record ann { sub = "bob" }

found :
    (pairs : List (String × String))
    → matches ann_blocks_bob pairs ≡ true
    → calls.find_block pairs ≡ ok true
found pairs h = rw h refl

post_block-send_message_example :
    (send_message "s" calls idle (ok svc_claims) (ok bob) "ann" (some "hello")).2 ≡ none
unfolding post_block
post_block-send_message_example =
    post_block-send_message sample (λ oid. ok true) (λ d. ok tt) (pos 7) (ok svc_claims)
      (ok svc_claims) (ok ann) "bob" (some "spam") ann_blocks_bob "s" calls idle bob "ann"
      (some "hello") refl found (inr (refl, refl))
