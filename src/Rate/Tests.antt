-- ===== src/Rate/Tests.antt =====
-- Runs of the rate limiters, and their theorems at concrete inputs.
use Prim.Native.Nat.{min}
use bbn.Prelude.{
  ℕ, ◌*◌, ◌≤◌, ◌≡◌, refl, true, false, List, [], ◌∷◌, arith, length, String, string_eq,
}
use bbn.Rate.{FixedWindow, new, check, ws_send_limit, ws_check_send}
use bbn.Rate.Window.{accepted}
use bbn.Rate.Bound.{accepted_bound, accepted_exact}
use bbn.Rate.Send.{sent, sent_bound}

-- Two requests of one address and one of another, within a minute.
abbrev requests : List (ℕ × String)
requests = (1000, "a") ∷ (2000, "b") ∷ (3000, "a") ∷ (4000, "a") ∷ []

abbrev limiter : FixedWindow String
limiter = new 2 60000

-- A limiter whose window for "a" is about to end.
abbrev busy : FixedWindow String
busy = record limiter { buckets = ("a", (1, 0)) ∷ [] }

accepted_two : accepted limiter requests "a" ≡ 2
unfolding check
accepted_two = refl

refused : (check (record limiter { buckets = ("a", (2, 0)) ∷ [] }) 59999 "a").1 ≡ false
unfolding check
refused = refl

renewed : (check (record limiter { buckets = ("a", (2, 0)) ∷ [] }) 60000 "a").1 ≡ true
unfolding check
renewed = refl

eleventh_send : (ws_check_send {K = String} (("u", (10, 0)) ∷ []) 9999 "u").1 ≡ false
unfolding ws_check_send
eleventh_send = refl

accepted_bound_example : accepted busy requests "a" ≤ 2 * 2
accepted_bound_example =
    accepted_bound busy requests "a" 1000 (omega arith) (omega arith) (omega arith)

accepted_exact_example :
    accepted limiter requests "a" ≡ min (length {A = ℕ} (1000 ∷ 3000 ∷ 4000 ∷ [])) 2
accepted_exact_example =
    accepted_exact limiter requests "a" 1000 (3000 ∷ 4000 ∷ []) (omega arith) refl refl
      (omega arith)

sent_bound_example : sent [] requests "a" ≤ 2 * ws_send_limit
sent_bound_example = sent_bound [] requests "a" 1000 (omega arith) (omega arith)
