-- ===== src/Service/TokenCache.antt =====
-- The cache of the token between services: services/common/src/service_token.rs.
use bbn.Prelude.{
  ℕ, ◌+◌, ◌<◌, ◌≡◌, Option, none, some, if◌then◌else◌, arith, ltb, String, Bool-cases, Option-cases,
  inl, inr, refl, ◌∙◌,
}
use bbn.Service.{Platform}

abbrev pub Cached : Type 0
Cached = Option (String × ℕ)

-- Whether the cached token may still be used: it expires more than 5 seconds after `now`.
abbrev fresh_token : Cached → ℕ → Option String
fresh_token none now = none
fresh_token (some (token, expiry)) now = if ltb (now + 5) expiry then some token else none

-- `ServiceTokenCache::get` at the time `now`, in seconds; `none` is the error of `encode`. `encode`
-- is given the subject, the expiry, the time of issue and the secret.
unfoldable pub get : Platform → String → String → Cached → ℕ → Option String × Cached
get p service_name secret cache now = elim (fresh_token cache now) [
  | some token ↦ (some token, cache)
  | none ↦
      let exp = now + 60 in
      elim (p.encode_service service_name exp now secret) [
        | none ↦ (none, cache)
        | some token ↦ (some token, some (token, exp))
      ]
]

module _ (p : Platform) (service_name secret : String) where
  -- A cached token is one that was encoded for the service, to expire 60 seconds after its issue.
  abbrev pub IsIssued : Cached → Type 0
  IsIssued none = Unit
  IsIssued (some (token, expiry)) =
      (iat : ℕ) × (expiry ≡ iat + 60)
      × (p.encode_service service_name expiry iat secret ≡ some token)

  -- A token of the service that expires more than 5 seconds after `now`.
  abbrev pub IsUsable : ℕ → String → Type 0
  IsUsable now token =
      (expiry : ℕ) × (iat : ℕ) × (p.encode_service service_name expiry iat secret ≡ some token)
      × (now + 5 < expiry)

  get_lem :
      (cache : Cached) (now : ℕ)
      → IsIssued cache
      → IsIssued (get p service_name secret cache now).1
        × ((token : String)
            → (get p service_name secret cache now).0 ≡ some token
            → IsUsable now token)
  unfolding get
  get_lem none now h = elim (Option-cases (p.encode_service service_name (now + 60) now secret)) [
    | inl fails ↦ rw (fails, get) (tt, λ t e. cc)
    | inr (new', made) ↦
        rw (made, get) ((now, refl, made), λ t e. (now + 60, now, made ∙ e, omega arith))
  ]
  get_lem (some (token, expiry)) now (iat, due, issued) = elim (Bool-cases (ltb (now + 5) expiry)) [
    | inl fresh ↦
        rw (fresh, get) ((iat, due, issued), λ t e. (expiry, iat, issued ∙ e, ground arith))
    | inr stale ↦ elim (Option-cases (p.encode_service service_name (now + 60) now secret)) [
      | inl fails ↦ rw (stale, get, fails) ((iat, due, issued), λ t e. cc)
      | inr (new', made) ↦
          rw (stale, get, made) ((now, refl, made), λ t e. (now + 60, now, made ∙ e, omega arith))
    ]
  ]

  -- `get` keeps a cache of issued tokens, and the token that it returns, from the cache or new, is the
  -- service's and does not expire in the next 5 seconds.
  pub get-IsUsable :
      (cache : Cached) (now : ℕ) (token : String)
      → IsIssued cache
      → (get p service_name secret cache now).0 ≡ some token
      → IsIssued (get p service_name secret cache now).1 × IsUsable now token
  get-IsUsable cache now token h e =
      let (issued, usable) = get_lem cache now h in (issued, usable token e)
