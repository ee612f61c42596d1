-- ===== src/Favourites/Radius.antt =====
-- The permanent cache of radii in the favourites service.
use bbn.Prelude.{ℕ, ◌≡◌, Option, some, Bool-cases, Option-cases, inl, inr, String, string_eq, All}
use bbn.Prelude.Maps.{lookup, All-lookup, All-insert}
use bbn.Float.{Float}
use bbn.Service.{Platform}
use bbn.Service.TokenCache.{get}
use bbn.Messages.{HttpReply, is_valid_tier}
use bbn.Favourites.{AppState, radius_of, get_message_radius}

module _ {f : Float} where
  -- Every radius of the cache has the property for its tier.
  abbrev pub IsCached : (String → f.Num → Type 0) → AppState f → Type 0
  IsCached P state = All (λ b. P b.0 b.1) state.radius_cache

  -- A radius that `get_message_radius` returns has every property that the cached radii and those of
  -- the replies have, and so have the radii that are cached after it.
  pub get_message_radius-IsCached :
      (p : Platform) (service_secret : String) (now : ℕ)
      (message_radius : String → String → HttpReply (Option f.Num)) (P : String → f.Num → Type 0)
      (state : AppState f) (tier : String)
      → IsCached P state
      → ((token tier' : String) (r : f.Num)
          → radius_of (message_radius token tier') ≡ some r
          → P tier' r)
      → IsCached P (get_message_radius p service_secret now message_radius state tier).1
        × ((r : f.Num)
            → (get_message_radius p service_secret now message_radius state tier).0 ≡ some r
            → P tier r)
  unfolding get_message_radius
  get_message_radius-IsCached p service_secret now message_radius P state tier cached replies =
      elim (Option-cases (lookup tier state.radius_cache)) [
        | inr (r, found) ↦
            rw (found, get_message_radius)
              (
                cached,
                λ r' e.
                    let same : r ≡ r' = cc in
                    rw same at (All-lookup (λ b. P b.0 b.1) state.radius_cache cached found),
              )
        | inl gone ↦ elim (Bool-cases (is_valid_tier tier)) [
          | inr bad ↦ rw (gone, get_message_radius, bad) (cached, λ r' e. cc)
          | inl good ↦
              elim (Option-cases (get p "favourites" service_secret state.svc_token_cache now).0) [
                | inl fails ↦ rw (gone, get_message_radius, good, fails) (cached, λ r' e. cc)
                | inr (token, made) ↦ elim (Option-cases (radius_of (message_radius token tier))) [
                  | inl silent ↦
                      rw (gone, get_message_radius, good, made, silent) (cached, λ r' e. cc)
                  | inr (r, answer) ↦
                      rw (gone, get_message_radius, good, made, answer)
                        (
                          All-insert (λ b. P b.0 b.1) tier r state.radius_cache
                              (replies token tier r answer) cached,
                          λ r' e.
                              let same : r ≡ r' = cc in rw same at (replies token tier r answer),
                        )
                ]
              ]
        ]
      ]
