-- ===== src/Geo/Grid.antt =====
-- What the enumeration of the shards around a point guarantees: `intersecting_shards` of
-- services/common/src/shard.rs.
use bbn.Prelude.{◌≡◌, true, List, [], ◌∷◌, All, All-append, Bool-cases, inl, inr}
use bbn.Prelude.Int.{ℤ}
use bbn.Float.{Float, le}
use bbn.Geo.{
  ShardKey, visit_row, visit_rows, visit, min_dist_to_shard, intersecting_shards, range_inclusive,
  metres_per_deg_lat, metres_per_deg_lon,
}

module _ (P : ShardKey → Type 0) where
  All-visit_row :
      (body : ℤ → List ShardKey) (cols : List ℤ)
      → ((col : ℤ) → All P (body col))
      → All P (visit_row body cols)
  unfolding visit_row
  All-visit_row body [] h = tt
  All-visit_row body (col ∷ cols) h =
      All-append P (body col) (visit_row body cols) (h col) (All-visit_row body cols h)

  All-visit_rows :
      (body : ℤ → ℤ → List ShardKey) (rows cols : List ℤ)
      → ((row col : ℤ) → All P (body row col))
      → All P (visit_rows body rows cols)
  unfolding visit_rows
  All-visit_rows body [] cols h = tt
  All-visit_rows body (row ∷ rows) cols h =
      All-append P (visit_row (body row) cols) (visit_rows body rows cols)
        (All-visit_row (body row) cols (h row)) (All-visit_rows body rows cols h)

module _ (f : Float) where
  -- A shard within the radius, by the distance that the search computes for it.
  abbrev pub IsNear : f.Num → f.Num → f.Num → f.Num → ShardKey → Type 0
  IsNear lat lon radius_m shard_m key =
      le f (min_dist_to_shard f lat lon key shard_m) radius_m ≡ true

  visit-IsNear :
      (lat lon radius_m shard_m : f.Num) (row col : ℤ)
      → All (IsNear lat lon radius_m shard_m) (
          visit f lat lon radius_m
            (f.div shard_m (metres_per_deg_lat f))
            (f.div shard_m (metres_per_deg_lon f lat))
            row
            col)
  unfolding visit min_dist_to_shard
  visit-IsNear lat lon radius_m shard_m row col =
      elim (Bool-cases (
        le f (min_dist_to_shard f lat lon (record { lat_index = row; lon_index = col }) shard_m)
          radius_m)) [ inl near ↦ rw near (near, tt) | inr far ↦ rw far tt ]

  -- Every shard that `intersecting_shards` lists has a minimum distance, as `min_dist_to_shard`
  -- computes it, of at most the radius.
  pub intersecting_shards-IsNear :
      (lat lon radius_m shard_m : f.Num)
      → All (IsNear lat lon radius_m shard_m) (intersecting_shards f lat lon radius_m shard_m)
  unfolding intersecting_shards
  intersecting_shards-IsNear lat lon radius_m shard_m =
      let cell_lat = f.div shard_m (metres_per_deg_lat f) in
      let cell_lon = f.div shard_m (metres_per_deg_lon f lat) in
      let lat_delta = f.div radius_m (metres_per_deg_lat f) in
      let lon_delta = f.div radius_m (metres_per_deg_lon f lat) in
      let rows =
        range_inclusive (f.to_i64 (f.floor (f.div (f.sub lat lat_delta) cell_lat)))
          (f.to_i64 (f.floor (f.div (f.add lat lat_delta) cell_lat))) in
      let cols =
        range_inclusive (f.to_i64 (f.floor (f.div (f.sub lon lon_delta) cell_lon)))
          (f.to_i64 (f.floor (f.div (f.add lon lon_delta) cell_lon))) in
      All-visit_rows (IsNear lat lon radius_m shard_m) (visit f lat lon radius_m cell_lat cell_lon)
        rows cols (visit-IsNear lat lon radius_m shard_m)
