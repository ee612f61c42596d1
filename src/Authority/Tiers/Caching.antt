-- ===== src/Authority/Tiers/Caching.antt =====
-- The caches of services/authority-service/src/tiers.rs.
use mathlib.Core.Path.{subst}
use bbn.Prelude.{
  sym, ℕ, ◌<◌, ◌≡◌, refl, true, false, List, [], ◌∷◌, Option, none, some, arith, ltb, String,
  string_eq, Bool-cases, inl, inr,
}
use bbn.Prelude.Maps.{insert, IsDistinct, insert-IsDistinct}
use bbn.Authority.Tiers.{
  FeatureDoc, Tier, static_features, static_tiers, FindReply, find_error, collect_error, docs,
  Cache, read_reply, by_name_from, load_cached, load_features, load_tiers,
}

module _ {A : Type 0} (name : A → String) where
  by_name_from-IsDistinct :
      (m : List (String × A)) (ds : List A) → IsDistinct m → IsDistinct (by_name_from name m ds)
  by_name_from-IsDistinct m [] h = h
  by_name_from-IsDistinct m (d ∷ ds) h =
      by_name_from-IsDistinct (insert (name d) d m) ds (insert-IsDistinct (name d) d m h)

  module _ (statics : List (String × A)) (static_distinct : IsDistinct statics) where
    read_reply-IsDistinct : (reply : FindReply A) → IsDistinct (read_reply name statics reply)
    read_reply-IsDistinct find_error = static_distinct
    read_reply-IsDistinct collect_error = static_distinct
    read_reply-IsDistinct (docs []) = static_distinct
    read_reply-IsDistinct (docs (d ∷ ds)) = by_name_from-IsDistinct [] (d ∷ ds) tt

    -- The cached entries have distinct names, as in every hash map.
    abbrev pub IsDistinctCache : Option (Cache A) → Type 0
    IsDistinctCache none = Unit
    IsDistinctCache (some c) = IsDistinct c.entries

    fresh_entries :
        (c : Cache A) (now written_at : ℕ) (reply : FindReply A)
        → ltb now c.expires_at ≡ true
        → (load_cached name statics (some c) now written_at reply).0 ≡ c.entries
    fresh_entries c now written_at reply e = ground arith

    old_entries :
        (c : Cache A) (now written_at : ℕ) (reply : FindReply A)
        → ltb now c.expires_at ≡ false
        → (load_cached name statics (some c) now written_at reply).0 ≡ read_reply name statics reply
    old_entries c now written_at reply e = ground arith

    load_cached-IsDistinct :
        (cache : Option (Cache A)) (now written_at : ℕ) (reply : FindReply A)
        → IsDistinctCache cache
        → IsDistinct (load_cached name statics cache now written_at reply).0
    load_cached-IsDistinct none now written_at reply h = read_reply-IsDistinct reply
    load_cached-IsDistinct (some c) now written_at reply h =
        elim (Bool-cases (ltb now c.expires_at)) [
          | inl fresh ↦ subst IsDistinct (sym (fresh_entries c now written_at reply fresh)) h
          | inr old ↦
              subst IsDistinct (sym (old_entries c now written_at reply old))
                (read_reply-IsDistinct reply)
        ]

  load_cached_again :
      (statics : List (String × A)) (cache : Option (Cache A)) (now written_at later w : ℕ)
      (reply r : FindReply A) (c : Cache A)
      → (load_cached name statics cache now written_at reply).1 ≡ some c
      → later < c.expires_at
      → load_cached name statics (some c) later w r
        ≡ ((load_cached name statics cache now written_at reply).0, some c)
  load_cached_again statics none now written_at later w reply r c e lt = ground arith
  load_cached_again statics (some c') now written_at later w reply r c e lt =
      elim (Bool-cases (ltb now c'.expires_at)) [
        | inl fresh ↦ ground (arith, fresh)
        | inr old ↦ ground (arith, old)
      ]

-- Until the cache that a load leaves expires, every load gives the tiers that that load gave, whatever
-- the database replies meanwhile, and leaves the cache as it is.
pub load_tiers_again :
    (cache : Option (Cache Tier)) (now written_at later w : ℕ) (reply r : FindReply Tier)
    (c : Cache Tier)
    → (load_tiers cache now written_at reply).1 ≡ some c
    → later < c.expires_at
    → load_tiers (some c) later w r ≡ ((load_tiers cache now written_at reply).0, some c)
unfolding load_tiers
load_tiers_again cache now written_at later w reply r c e lt =
    load_cached_again (λ t. t.name) static_tiers cache now written_at later w reply r c e lt

-- The loaded features have distinct names, if those of the cache do.
pub load_features-IsDistinct :
    (cache : Option (Cache FeatureDoc)) (now written_at : ℕ) (reply : FindReply FeatureDoc)
    → ((c : Cache FeatureDoc) → cache ≡ some c → IsDistinct c.entries)
    → IsDistinct (load_features cache now written_at reply).0
unfolding load_features
load_features-IsDistinct cache now written_at reply h =
    load_cached-IsDistinct (λ f. f.name) static_features statics cache now written_at reply
      (known cache h)
  where
    statics : IsDistinct static_features
    statics = (
      (refl, (refl, (refl, (refl, (refl, tt))))),
      (
        (refl, (refl, (refl, (refl, tt)))),
        ((refl, (refl, (refl, tt))), ((refl, (refl, tt)), ((refl, tt), (tt, tt)))),
      ),
    )

    known :
        (cache : Option (Cache FeatureDoc))
        → ((c : Cache FeatureDoc) → cache ≡ some c → IsDistinct c.entries)
        → IsDistinctCache (λ f. f.name) static_features statics cache
    known none h = tt
    known (some c) h = h c refl
