-- ===== src/Float/Plane.antt =====
-- Floats that run: integers, with operations that turn the great-circle distance into the sum of
-- the two differences. Every literal is 1. They show that the laws can be met.
use Prim.Native.Nat.{compare, Ordering, ◌+◌}
use bbn.Prelude.{◌≡◌, ◌≢◌, true, false, Option, some, none, arith, if◌then◌else◌}
use bbn.Prelude.Int.{ℤ, pos, pos_part, neg_part, leb_ℤ, ◌+ℤ◌, ◌-ℤ◌, ◌*ℤ◌}
use bbn.Float.{Float, is_le, is_lt}

abbrev cmp : ℤ → ℤ → Option Ordering
cmp a b = some (compare (pos_part a + neg_part b) (pos_part b + neg_part a))

abbrev abs_ℤ : ℤ → ℤ
abs_ℤ a = pos (pos_part a + neg_part a)

abbrev max_ℤ : ℤ → ℤ → ℤ
max_ℤ a b = if leb_ℤ a b then b else a

abbrev min_ℤ : ℤ → ℤ → ℤ
min_ℤ a b = if leb_ℤ a b then a else b

pub cmp_comparable :
    (a b x y : ℤ) → is_le (cmp a x) ≡ true → is_le (cmp b y) ≡ true → cmp a b ≢ none
cmp_comparable a b x y h k = cc

pub cmp_ge : (a b : ℤ) → cmp a b ≡ some Ordering.gt → is_le (cmp b a) ≡ true
cmp_ge a b h = ground arith

pub cmp_trans :
    (a b c : ℤ) → is_le (cmp a b) ≡ true → is_le (cmp b c) ≡ true → is_le (cmp a c) ≡ true
cmp_trans a b c h k = ground arith

pub cmp_lt_trans :
    (a b c : ℤ) → is_lt (cmp a b) ≡ true → is_le (cmp b c) ≡ true → is_lt (cmp a c) ≡ true
cmp_lt_trans a b c h k = ground arith

pub cmp_le_of_lt : (a b : ℤ) → is_lt (cmp a b) ≡ true → leb_ℤ a b ≡ true
cmp_le_of_lt a b h = ground arith

pub leb_trans : (a b c : ℤ) → leb_ℤ a b ≡ true → leb_ℤ b c ≡ true → leb_ℤ a c ≡ true
leb_trans a b c h k = ground arith

pub leb_total : (a b : ℤ) → leb_ℤ a b ≡ false → leb_ℤ b a ≡ true
leb_total a b h = ground arith

abbrev pub plane : Float
plane = record {
  Num = ℤ;
  lit = λ m k. pos 1;
  pi = pos 1;
  of_i64 = λ a. a;
  to_i64 = λ a. a;
  add = ◌+ℤ◌;
  sub = ◌-ℤ◌;
  mul = ◌*ℤ◌;
  div = λ a b. a;
  powi = λ a n. abs_ℤ a;
  sin = λ a. a;
  cos = λ a. pos 1;
  sqrt = λ a. a;
  atan2 = λ a b. a;
  to_radians = λ a. a;
  abs = abs_ℤ;
  max = max_ℤ;
  floor = λ a. a;
  round = λ a. a;
  clamp = λ x lo hi. max_ℤ lo (min_ℤ x hi);
  partial_cmp = cmp;
  total_le = leb_ℤ;
  comparable = cmp_comparable;
  ge_of_gt = cmp_ge;
  le_trans = cmp_trans;
  lt_le_trans = cmp_lt_trans;
  total_le_of_lt = cmp_le_of_lt;
  total_le_trans = leb_trans;
  total_le_total = leb_total;
}
