-- ===== src/Geo.antt =====
-- The distance and the grid: services/common/src/geo.rs and services/common/src/shard.rs.
-- A `ShardKey` is the pair of its `lat_index` and `lon_index`, as in the source's tuple struct.
pub mod Grid
use bbn.Prelude.{
  ℕ, suc, zero, ◌+◌, ◌-◌, ◌≡◌, Bool, true, false, ◌&&◌, List, [], ◌∷◌, ◌++◌, if◌then◌else◌, arith,
  ◌↔◌, Eq,
}
use bbn.Prelude.Int.{ℤ, pos, pos_part, neg_part, leb_ℤ, eqb_ℤ, eqb_ℤ_iff, ◌+ℤ◌, ◌-ℤ◌}
use bbn.Float.{Float, le}

pub record ShardKey : Type 0 where
  pub lat_index : ℤ
  pub lon_index : ℤ

abbrev pub key_beq : ShardKey → ShardKey → Bool
key_beq a b = eqb_ℤ a.lat_index b.lat_index && eqb_ℤ a.lon_index b.lon_index

pub key_beq_iff : (a b : ShardKey) → (key_beq a b ≡ true) ↔ (a ≡ b)
key_beq_iff a b =
    ground (arith, eqb_ℤ_iff a.lat_index b.lat_index, eqb_ℤ_iff a.lon_index b.lon_index)

instance abbrev pub key_eq : Eq ShardKey
key_eq = record { beq = key_beq; beq_iff = key_beq_iff }

-- `n` integers from `a` on.
abbrev pub up : ℕ → ℤ → List ℤ
up zero a = []
up (suc n) a = a ∷ up n (a +ℤ pos 1)

-- `a..=b`
abbrev pub range_inclusive : ℤ → ℤ → List ℤ
range_inclusive a b = if leb_ℤ a b then up (pos_part (b -ℤ a) + 1) a else []

-- the inner loop, over the columns
visit_row : (ℤ → List ShardKey) → List ℤ → List ShardKey
visit_row body [] = []
visit_row body (col ∷ cols) = body col ++ visit_row body cols

-- the outer loop, over the rows
visit_rows : (ℤ → ℤ → List ShardKey) → List ℤ → List ℤ → List ShardKey
unfolding visit_row
visit_rows body [] cols = []
visit_rows body (row ∷ rows) cols = visit_row (body row) cols ++ visit_rows body rows cols

module _ (f : Float) where
  open f use {
    Num, lit, pi, of_i64, to_i64, add, sub, mul, div, powi, sin, cos, sqrt, atan2, to_radians, abs,
    max, floor, clamp,
  }

  abbrev pub earth_radius_m : Num
  earth_radius_m = lit 6371000 0

  abbrev pub metres_per_deg_lat : Num
  metres_per_deg_lat = lit 111320 0

  -- the closure `to_rad`
  abbrev pub to_rad : Num → Num
  to_rad deg = div (mul deg pi) (lit 180 0)

  unfoldable pub haversine_distance : Num → Num → Num → Num → Num
  haversine_distance lat1 lon1 lat2 lon2 =
      let d_lat = to_rad (sub lat2 lat1) in
      let d_lon = to_rad (sub lon2 lon1) in
      let a =
        add (powi (sin (div d_lat (lit 2 0))) 2) (
          mul (mul (cos (to_rad lat1)) (cos (to_rad lat2))) (powi (sin (div d_lon (lit 2 0))) 2)) in
      mul (mul earth_radius_m (lit 2 0)) (atan2 (sqrt a) (sqrt (sub (lit 1 0) a)))

  -- `METRES_PER_DEG_LAT * lat.to_radians().cos().abs().max(1e-9)`
  abbrev pub metres_per_deg_lon : Num → Num
  metres_per_deg_lon lat = mul metres_per_deg_lat (max (abs (cos (to_radians lat))) (lit 1 9))

  unfoldable pub shard_for_coords : Num → Num → Num → ShardKey
  shard_for_coords lat lon shard_m =
      let cell_lat = div shard_m metres_per_deg_lat in
      let cell_lon = div shard_m (metres_per_deg_lon lat) in
      record {
        lat_index = to_i64 (floor (div lat cell_lat));
        lon_index = to_i64 (floor (div lon cell_lon));
      }

  unfoldable pub min_dist_to_shard : Num → Num → ShardKey → Num → Num
  unfolding haversine_distance
  min_dist_to_shard lat lon key shard_m =
      let cell_lat = div shard_m metres_per_deg_lat in
      let cell_lon = div shard_m (metres_per_deg_lon lat) in
      let s_lat_min = mul (of_i64 key.lat_index) cell_lat in
      let s_lat_max = add s_lat_min cell_lat in
      let s_lon_min = mul (of_i64 key.lon_index) cell_lon in
      let s_lon_max = add s_lon_min cell_lon in
      let nearest_lat = clamp lat s_lat_min s_lat_max in
      let nearest_lon = clamp lon s_lon_min s_lon_max in
      haversine_distance lat lon nearest_lat nearest_lon

  -- the body of the two loops of `intersecting_shards`
  visit : Num → Num → Num → Num → Num → ℤ → ℤ → List ShardKey
  visit lat lon radius_m cell_lat cell_lon row col =
      let s_lat_min = mul (of_i64 row) cell_lat in
      let s_lat_max = add s_lat_min cell_lat in
      let s_lon_min = mul (of_i64 col) cell_lon in
      let s_lon_max = add s_lon_min cell_lon in
      let nearest_lat = clamp lat s_lat_min s_lat_max in
      let nearest_lon = clamp lon s_lon_min s_lon_max in
      let min_dist = haversine_distance lat lon nearest_lat nearest_lon in
      if le f min_dist radius_m then record { lat_index = row; lon_index = col } ∷ [] else []

  unfoldable pub intersecting_shards : Num → Num → Num → Num → List ShardKey
  unfolding visit visit_rows haversine_distance
  intersecting_shards lat lon radius_m shard_m =
      let cell_lat = div shard_m metres_per_deg_lat in
      let cell_lon = div shard_m (metres_per_deg_lon lat) in
      let lat_delta = div radius_m metres_per_deg_lat in
      let lon_delta = div radius_m (metres_per_deg_lon lat) in
      let row_min = to_i64 (floor (div (sub lat lat_delta) cell_lat)) in
      let row_max = to_i64 (floor (div (add lat lat_delta) cell_lat)) in
      let col_min = to_i64 (floor (div (sub lon lon_delta) cell_lon)) in
      let col_max = to_i64 (floor (div (add lon lon_delta) cell_lon)) in
      visit_rows (visit lat lon radius_m cell_lat cell_lon) (range_inclusive row_min row_max)
        (range_inclusive col_min col_max)
