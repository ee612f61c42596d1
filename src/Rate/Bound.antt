-- ===== src/Rate/Bound.antt =====
-- How many requests a limiter lets through in a span as long as its window.
use bbn.Prelude.{
  ℕ, ◌+◌, ◌-◌, ◌*◌, ◌^◌, ◌≤◌, ◌<◌, ◌≡◌, List, [], ◌∷◌, Option, none, some, arith, Eq, ◌==◌, All,
  inl, inr, Bool-cases, length,
}
use Prim.Native.Nat.{min}
use bbn.Prelude.Maps.{lookup}
use bbn.Rate.{Bucket, Buckets, FixedWindow, check, check_user_rate}
use bbn.Rate.Window.{tick, ticks, accepted, times_of, accepted-ticks, lookup-check}

-- The times lie in the span of length `w` that begins at `t`.
abbrev pub Within : ℕ → ℕ → List ℕ → Type 0
Within t w = All (λ now. (t ≤ now) × (now < t + w))

-- A bucket that no limiter of this size would have left behind is ruled out.
abbrev pub IsBounded : ℕ → Option Bucket → Type 0
IsBounded max none = Unit
IsBounded max (some (n, start)) = n ≤ max

module _ (max window t : ℕ) (small : max < 2 ^ 32) where
  -- A bucket whose window covers the span lets through what is left of its limit.
  ticks_covering :
      (times : List ℕ) (n start : ℕ)
      → n ≤ max
      → t ≤ start
      → Within t window times
      → ticks max window (some (n, start)) times ≡ min (length times) (max - n)
  ticks_covering [] n start h s w = omega arith
  ticks_covering (now ∷ times) n start h s w =
      ground (arith, ticks_covering times n start, ticks_covering times (n + 1) start)

  ticks_absent :
      (now : ℕ) (times : List ℕ)
      → t ≤ now
      → Within t window times
      → ticks max window none (now ∷ times) ≡ min (length (now ∷ times)) max
  ticks_absent now times s w =
      ground (arith, ticks_covering times 0 now, ticks_covering times 1 now)

  ticks_lem :
      (times : List ℕ) (n start : ℕ)
      → n ≤ max
      → Within t window times
      → ticks max window (some (n, start)) times ≤ max - n + max
  ticks_lem [] n start h w = omega arith
  ticks_lem (now ∷ times) n start h w = ground (
    arith,
    ticks_lem times n start,
    ticks_lem times (n + 1) start,
    ticks_covering times 0 now,
    ticks_covering times 1 now,
  )

  ticks_bound :
      (times : List ℕ) (o : Option Bucket)
      → IsBounded max o
      → Within t window times
      → ticks max window o times ≤ 2 * max
  ticks_bound [] o h w = omega arith
  ticks_bound times (some (n, start)) h w = omega (arith, ticks_lem times n start h w)
  ticks_bound (now ∷ times) none h w = omega (arith, ticks_absent now times w.0.0 w.1)

tick-IsBounded :
    (max window : ℕ) (o : Option Bucket) (now : ℕ)
    → max < 2 ^ 32
    → IsBounded max o
    → (tick max window o now).0.0 ≤ max
tick-IsBounded max window none now small h = ground arith
tick-IsBounded max window (some (n, start)) now small h = ground arith

module _ {K : Type 0} ⦃e : Eq K⦄ where
  -- `check_user_rate` of the messages service and `FixedWindow::check` of the gateway take the
  -- same decision and leave the same buckets, under the same limit and window.
  pub check_user_rate-check :
      (b : Buckets K) (now : ℕ) (k : K) (max window : ℕ)
      → (let (b', ok) = check_user_rate b now k max window in
          check (record { max = max; window = window; buckets = b }) now k
          ≡ (record { max = max; window = window; buckets = b' }, ok))
  unfolding check check_user_rate
  check_user_rate-check b now k max window = ground arith

  -- No count exceeds the limit after a request, if the limit is a u32 and no count did before.
  pub check-IsBounded :
      (self : FixedWindow K) (now : ℕ) (ip k : K)
      → self.max < 2 ^ 32
      → ((j : K) → IsBounded self.max (lookup j self.buckets))
      → IsBounded self.max (lookup k (check self now ip).0.buckets)
  unfolding check
  check-IsBounded self now ip k small h =
      rw (lookup-check self now ip k) (elim (Bool-cases (ip == k)) [
        | inl same ↦
            rw same (tick-IsBounded self.max self.window (lookup ip self.buckets) now small (h ip))
        | inr other ↦ rw other (h k)
      ])

  -- Among the requests that reach a limiter in a span no longer than its window, at most twice the
  -- limit are accepted for each key, whatever the other keys do, if the limit is a u32 and the
  -- key's count does not exceed it at the start.
  pub accepted_bound :
      (self : FixedWindow K) (requests : List (ℕ × K)) (k : K) (t : ℕ)
      → self.max < 2 ^ 32
      → IsBounded self.max (lookup k self.buckets)
      → Within t self.window (times_of k requests)
      → accepted self requests k ≤ 2 * self.max
  accepted_bound self requests k t small h w =
      rw accepted-ticks
        (ticks_bound self.max self.window t small (times_of k requests) (lookup k self.buckets) h w)

  -- A key that the limiter has not seen has exactly its first `max` requests accepted, among those
  -- within one window of the first, whatever the other keys do.
  pub accepted_exact :
      (self : FixedWindow K) (requests : List (ℕ × K)) (k : K) (now : ℕ) (times : List ℕ)
      → self.max < 2 ^ 32
      → lookup k self.buckets ≡ none
      → times_of k requests ≡ now ∷ times
      → Within now self.window times
      → accepted self requests k ≡ min (length (now ∷ times)) self.max
  accepted_exact self requests k now times small absent first w =
      rw (accepted-ticks, absent, first)
        (ticks_absent self.max self.window now small now times (omega arith) w)
