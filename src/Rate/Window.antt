-- ===== src/Rate/Window.antt =====
-- One key of a limiter by itself: its bucket, and what a run of requests does to it.
use bbn.Prelude.{
  ℕ, ◌≡◌, refl, Bool, true, false, List, [], ◌∷◌, Option, some, leb, if◌then◌else◌, arith, Eq, ◌==◌,
  suc, ◌&&◌,
}
use bbn.Prelude.Maps.{lookup, lookup-insert}
use bbn.Rate.{Bucket, FixedWindow, incr_u32, or_insert, reset, check}

-- What a request does to the bucket of its key, under a limit and a window length.
abbrev pub tick : ℕ → ℕ → Option Bucket → ℕ → Bucket × Bool
tick max window o now =
    let (n, start) = reset (or_insert o now) window now in
    if leb max n then ((n, start), false) else ((incr_u32 n, start), true)

-- How many requests at the given times are accepted.
abbrev pub ticks : ℕ → ℕ → Option Bucket → List ℕ → ℕ
ticks max window o [] = 0
ticks max window o (now ∷ times) =
    let (entry, ok) = tick max window o now in
    let rest = ticks max window (some entry) times in if ok then suc rest else rest

module _ {K : Type 0} ⦃e : Eq K⦄ where
  -- How many requests of the key `k` are accepted, among requests of all keys.
  abbrev pub accepted : FixedWindow K → List (ℕ × K) → K → ℕ
  accepted self [] k = 0
  accepted self ((now, ip) ∷ requests) k =
      let (self', ok) = check self now ip in
      let rest = accepted self' requests k in if ok && (ip == k) then suc rest else rest

  -- The times of the requests of one key.
  abbrev pub times_of : K → List (ℕ × K) → List ℕ
  times_of k [] = []
  times_of k ((now, ip) ∷ requests) =
      if ip == k then now ∷ times_of k requests else times_of k requests

  check_result :
      (self : FixedWindow K) (now : ℕ) (ip : K)
      → (check self now ip).1 ≡ (tick self.max self.window (lookup ip self.buckets) now).1
  unfolding check
  check_result self now ip = ground arith

  check_limits :
      (self : FixedWindow K) (now : ℕ) (ip : K)
      → ((check self now ip).0.max ≡ self.max) × ((check self now ip).0.window ≡ self.window)
  unfolding check
  check_limits self now ip = ground arith

  pub lookup-check :
      (self : FixedWindow K) (now : ℕ) (ip k : K)
      → lookup k (check self now ip).0.buckets ≡ (
          if ip == k
          then some (tick self.max self.window (lookup ip self.buckets) now).0
          else lookup k self.buckets)
  unfolding check
  lookup-check self now ip k =
      let b = reset (or_insert (lookup ip self.buckets) now) self.window now in
      ground (
        arith,
        lookup-insert ip k b self.buckets,
        lookup-insert ip k (incr_u32 b.0, b.1) self.buckets,
      )

  pub accepted-ticks :
      (requests : List (ℕ × K)) (self : FixedWindow K) (k : K)
      → accepted self requests k
        ≡ ticks self.max self.window (lookup k self.buckets) (times_of k requests)
  accepted-ticks [] self k = refl
  accepted-ticks ((now, ip) ∷ requests) self k = ground (
    arith,
    accepted-ticks requests (check self now ip).0 k,
    check_limits self now ip,
    check_result self now ip,
    lookup-check self now ip k,
    e.beq_iff ip k,
  )
