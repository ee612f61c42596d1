-- ===== src/Float.antt =====
-- The 64-bit floats of Rust's standard library, which the repository calls and does not implement.
-- They are a parameter: a type with the operations that the services use, and the laws of IEEE 754
-- comparison on which the proofs rest. No law of rounded arithmetic is assumed. `clamp` is total here:
-- its panic at bounds that are in the wrong order or not numbers is left out.
pub mod Plane
use Prim.Native.Nat.{Ordering}
use bbn.Prelude.{ℕ, ◌≡◌, ◌≢◌, Bool, true, false, Option, none, some}
use bbn.Prelude.Int.{ℤ}

-- `<=`, `<` and `>=` in terms of `partial_cmp`: false where a side is not a number.
abbrev pub is_le : Option Ordering → Bool
is_le none = false
is_le (some Ordering.lt) = true
is_le (some Ordering.eq) = true
is_le (some Ordering.gt) = false

abbrev pub is_lt : Option Ordering → Bool
is_lt none = false
is_lt (some Ordering.lt) = true
is_lt (some Ordering.eq) = false
is_lt (some Ordering.gt) = false

pub record Float : Type 1 where
  pub Num : Type 0
  -- `m / 10 ^ k`, a decimal literal
  pub lit : ℕ → ℕ → Num
  pub pi : Num
  pub of_i64 : ℤ → Num
  -- `x as i64`
  pub to_i64 : Num → ℤ
  pub add : Num → Num → Num
  pub sub : Num → Num → Num
  pub mul : Num → Num → Num
  pub div : Num → Num → Num
  pub powi : Num → ℕ → Num
  pub sin : Num → Num
  pub cos : Num → Num
  pub sqrt : Num → Num
  pub atan2 : Num → Num → Num
  pub to_radians : Num → Num
  pub abs : Num → Num
  pub max : Num → Num → Num
  pub floor : Num → Num
  pub round : Num → Num
  pub clamp : Num → Num → Num → Num
  pub partial_cmp : Num → Num → Option Ordering
  -- `a.total_cmp(&b)` is not `Greater`
  pub total_le : Num → Num → Bool
  -- A float below or above some float is a number, and two numbers are comparable.
  pub comparable :
      (a b x y : Num)
      → is_le (partial_cmp a x) ≡ true
      → is_le (partial_cmp b y) ≡ true
      → partial_cmp a b ≢ none
  pub ge_of_gt : (a b : Num) → partial_cmp a b ≡ some Ordering.gt → is_le (partial_cmp b a) ≡ true
  pub le_trans :
      (a b c : Num)
      → is_le (partial_cmp a b) ≡ true
      → is_le (partial_cmp b c) ≡ true
      → is_le (partial_cmp a c) ≡ true
  pub lt_le_trans :
      (a b c : Num)
      → is_lt (partial_cmp a b) ≡ true
      → is_le (partial_cmp b c) ≡ true
      → is_lt (partial_cmp a c) ≡ true
  pub total_le_of_lt : (a b : Num) → is_lt (partial_cmp a b) ≡ true → total_le a b ≡ true
  pub total_le_trans :
      (a b c : Num) → total_le a b ≡ true → total_le b c ≡ true → total_le a c ≡ true
  pub total_le_total : (a b : Num) → total_le a b ≡ false → total_le b a ≡ true

module _ (f : Float) where
  open f use {Num, partial_cmp}

  -- `a <= b`
  abbrev pub le : Num → Num → Bool
  le a b = is_le (partial_cmp a b)

  -- `a < b`
  abbrev pub lt : Num → Num → Bool
  lt a b = is_lt (partial_cmp a b)
