-- ===== src/Rate.antt =====
-- The rate limiters: services/gateway/src/rate.rs, and `check_user_rate` of
-- services/messages-service/src/main.rs. An `Instant` is a number of milliseconds, and
-- `duration_since` stops at 0 like `-`. The clock's reading is an argument. A key is an `IpAddr` or
-- a user id. A count is a u32, so an increment wraps around at `2 ^ 32`.
pub mod Window
pub mod Bound
pub mod Send
mod Tests
use bbn.Prelude.{
  ℕ, ◌+◌, ◌-◌, ◌%◌, ◌^◌, Bool, true, false, List, [], ◌∷◌, Option, none, some, leb, if◌then◌else◌,
  Eq,
}
use bbn.Prelude.Maps.{lookup, insert}

-- A count and the start of its window.
abbrev pub Bucket : Type 0
Bucket = ℕ × ℕ

abbrev pub Buckets : Type 0 → Type 0
Buckets K = List (K × Bucket)

-- `n += 1` on a u32.
abbrev pub incr_u32 : ℕ → ℕ
incr_u32 n = (n + 1) % 2 ^ 32

pub record FixedWindow (K : Type 0) : Type 0 where
  pub max : ℕ
  pub window : ℕ
  pub buckets : Buckets K

abbrev pub ws_send_limit : ℕ
ws_send_limit = 10

abbrev pub ws_send_window : ℕ
ws_send_window = 10000

-- `or_insert((0, now))`
abbrev pub or_insert : Option Bucket → ℕ → Bucket
or_insert none now = (0, now)
or_insert (some entry) now = entry

-- `if now.duration_since(entry.1) >= window { *entry = (0, now); }`
abbrev pub reset : Bucket → ℕ → ℕ → Bucket
reset entry window now = if leb window (now - entry.1) then (0, now) else entry

-- `FixedWindow::new`
abbrev pub new : {K : Type 0} → ℕ → ℕ → FixedWindow K
new max window = record { max = max; window = window; buckets = [] }

module _ {K : Type 0} ⦃e : Eq K⦄ where
  -- `FixedWindow::check`
  unfoldable pub check : FixedWindow K → ℕ → K → FixedWindow K × Bool
  check self now ip =
      let (n, start) = reset (or_insert (lookup ip self.buckets) now) self.window now in
      if leb self.max n
      then (record self { buckets = insert ip (n, start) self.buckets }, false)
      else (record self { buckets = insert ip (incr_u32 n, start) self.buckets }, true)

  -- `check_user_rate`
  unfoldable pub check_user_rate : Buckets K → ℕ → K → ℕ → ℕ → Buckets K × Bool
  check_user_rate b now user_id max window =
      let (n, start) = reset (or_insert (lookup user_id b) now) window now in
      if leb max n
      then (insert user_id (n, start) b, false)
      else (insert user_id (incr_u32 n, start) b, true)

  -- `ws_check_send`: a refused send counts too.
  unfoldable pub ws_check_send : Buckets K → ℕ → K → Buckets K × Bool
  ws_check_send b now user_id =
      let (n, start) = reset (or_insert (lookup user_id b) now) ws_send_window now in
      (insert user_id (incr_u32 n, start) b, leb (incr_u32 n) ws_send_limit)
