-- ===== src/Rate/Send.antt =====
-- The limit on the sends of a user over the WebSocket: `ws_check_send`.
use bbn.Prelude.{
  ℕ, ◌+◌, ◌-◌, ◌*◌, ◌^◌, ◌≤◌, ◌<◌, ◌≡◌, refl, Bool, List, [], ◌∷◌, Option, none, some, leb,
  if◌then◌else◌, arith, Eq, ◌==◌, suc, length, ◌&&◌,
}
use bbn.Prelude.Maps.{lookup, lookup-insert}
use bbn.Rate.{
  Bucket, Buckets, incr_u32, or_insert, reset, ws_send_limit, ws_send_window, ws_check_send,
}
use bbn.Rate.Window.{times_of}
use bbn.Rate.Bound.{Within}

-- A send of one user by itself.
abbrev send_tick : Option Bucket → ℕ → Bucket × Bool
send_tick o now =
    let (n, start) = reset (or_insert o now) ws_send_window now in
    ((incr_u32 n, start), leb (incr_u32 n) ws_send_limit)

abbrev sends : Option Bucket → List ℕ → ℕ
sends o [] = 0
sends o (now ∷ times) =
    let (entry, ok) = send_tick o now in
    let rest = sends (some entry) times in if ok then suc rest else rest

abbrev pub count : Option Bucket → ℕ
count none = 0
count (some (n, start)) = n

sends_covering :
    (times : List ℕ) (t n start : ℕ)
    → n + length times < 2 ^ 32
    → t ≤ start
    → Within t ws_send_window times
    → sends (some (n, start)) times ≤ ws_send_limit - n
sends_covering [] t n start h s w = omega arith
sends_covering (now ∷ times) t n start h s w = ground (arith, sends_covering times t (n + 1) start)

sends_lem :
    (times : List ℕ) (t n start : ℕ)
    → n + length times < 2 ^ 32
    → Within t ws_send_window times
    → sends (some (n, start)) times ≤ ws_send_limit - n + ws_send_limit
sends_lem [] t n start h w = omega arith
sends_lem (now ∷ times) t n start h w =
    ground (arith, sends_lem times t (n + 1) start, sends_covering times t 1 now)

sends_bound :
    (times : List ℕ) (t : ℕ) (o : Option Bucket)
    → count o + length times < 2 ^ 32
    → Within t ws_send_window times
    → sends o times ≤ 2 * ws_send_limit
sends_bound [] t o h w = omega arith
sends_bound times t (some (n, start)) h w = omega (arith, sends_lem times t n start h w)
sends_bound (now ∷ times) t none h w = ground (arith, sends_covering times t 1 now)

module _ {K : Type 0} ⦃e : Eq K⦄ where
  -- How many sends of the user `k` are accepted, among sends of all users.
  abbrev pub sent : Buckets K → List (ℕ × K) → K → ℕ
  sent b [] k = 0
  sent b ((now, user_id) ∷ requests) k =
      let (b', ok) = ws_check_send b now user_id in
      let rest = sent b' requests k in if ok && (user_id == k) then suc rest else rest

  sent-sends :
      (requests : List (ℕ × K)) (b : Buckets K) (k : K)
      → sent b requests k ≡ sends (lookup k b) (times_of k requests)
  unfolding ws_check_send
  sent-sends [] b k = refl
  sent-sends ((now, user_id) ∷ requests) b k =
      let entry = (send_tick (lookup user_id b) now).0 in
      ground (
        arith,
        sent-sends requests (ws_check_send b now user_id).0 k,
        lookup-insert user_id k entry b,
        e.beq_iff user_id k,
      )

  -- In a span of ten seconds at most twenty sends of a user are accepted, whatever the other users
  -- do, if the user's count and sends together stay below `2 ^ 32`.
  pub sent_bound :
      (b : Buckets K) (requests : List (ℕ × K)) (k : K) (t : ℕ)
      → count (lookup k b) + length (times_of k requests) < 2 ^ 32
      → Within t ws_send_window (times_of k requests)
      → sent b requests k ≤ 2 * ws_send_limit
  sent_bound b requests k t h w =
      rw sent-sends (sends_bound (times_of k requests) t (lookup k b) h w)
