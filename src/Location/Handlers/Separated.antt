-- ===== src/Location/Handlers/Separated.antt =====
-- The blocks between two users in the cached lists of services/location-service/src/main.rs.
use bbn.Prelude.{
  ℕ, ◌≡◌, refl, Bool, true, false, ◌&&◌, ◌||◌, List, [], ◌∷◌, Option, none, some, if◌then◌else◌,
  arith, Bool-cases, Option-cases, inl, inr, String, string_eq, eq_iff, ◌==◌, contains,
  contains-append, ltb,
}
use bbn.Prelude.Maps.{lookup}
use bbn.Location.Store.{set_insert}
use bbn.Location.Handlers.{
  BlockDoc, BlockCalls, block_docs, other_users, get_blocked_ids, unexpired,
}
use bbn.Location.Handlers.Search.{extend}

-- Whether a document has the two users, in either order.
abbrev pub separates : List BlockDoc → String → String → Bool
separates [] a b = false
separates (d ∷ docs) a b =
    (d.blocker_user_id == a && d.blocked_user_id == b)
    || (d.blocker_user_id == b && d.blocked_user_id == a)
    || separates docs a b

contains-set_insert :
    (ids : List String) (id u : String)
    → contains (set_insert ids id) u ≡ (contains ids u || id == u)
contains-set_insert ids id u = elim (Bool-cases (contains ids id)) [
  | inl there ↦ elim (Bool-cases (id == u)) [
    | inl same ↦ ground (arith, there, same, (eq_iff id u).0 same)
    | inr differs ↦ ground (arith, there, differs)
  ]
  | inr absent ↦ ground (arith, absent, contains-append ids (id ∷ []) u)
]

pub contains-extend :
    (set ids : List String) (u : String)
    → contains (extend set ids) u ≡ (contains set u || contains ids u)
contains-extend set [] u = ground arith
contains-extend set (id ∷ ids) u =
    ground (arith, contains-extend (set_insert set id) ids u, contains-set_insert set id u)

contains-other_users_kept :
    (a u : String) (ids : List String) (docs : List BlockDoc)
    → contains ids u ≡ true
    → contains (other_users a ids docs) u ≡ true
unfolding other_users
contains-other_users_kept a u ids [] h = h
contains-other_users_kept a u ids (d ∷ docs) h =
    let other = if d.blocker_user_id == a then d.blocked_user_id else d.blocker_user_id in
    contains-other_users_kept a u (set_insert ids other) docs
      (ground (arith, contains-set_insert ids other u, h))

contains-other_users :
    (a u : String) (ids : List String) (docs : List BlockDoc)
    → separates docs a u ≡ true
    → contains (other_users a ids docs) u ≡ true
unfolding other_users
contains-other_users a u ids [] h = cc
contains-other_users a u ids (d ∷ docs) h =
    let other = if d.blocker_user_id == a then d.blocked_user_id else d.blocker_user_id in
    elim (Bool-cases (other == u)) [
      | inl hit ↦
          contains-other_users_kept a u (set_insert ids other) docs
            (ground (arith, contains-set_insert ids other u, hit))
      | inr miss ↦ contains-other_users a u (set_insert ids other) docs (
          ground (
            arith,
            h,
            miss,
            eq_iff d.blocker_user_id a,
            eq_iff d.blocked_user_id u,
            eq_iff d.blocker_user_id u,
            eq_iff d.blocked_user_id a,
          ))
    ]

-- The block is known: the list that is cached has the user, or none is cached and a document separates
-- the two.
abbrev pub IsKnown : Option (List String) → List BlockDoc → String → String → Type 0
IsKnown none docs a u = separates docs a u ≡ true
IsKnown (some ids) docs a u = contains ids u ≡ true

-- The blocked users that are found have every user whose block is known.
pub get_blocked_ids-separates :
    (calls : BlockCalls) (cache : List (String × (List String × ℕ))) (a u : String)
    → IsKnown (unexpired (lookup a cache) calls.check_now) (block_docs (calls.find_blocks a)) a u
    → contains (get_blocked_ids calls cache a).0 u ≡ true
unfolding get_blocked_ids
get_blocked_ids-separates calls cache a u known =
    elim (Option-cases (unexpired (lookup a cache) calls.check_now)) [
      | inl gone ↦
          rw (get_blocked_ids, gone)
            (contains-other_users a u [] (block_docs (calls.find_blocks a)) (rw gone at known))
      | inr (ids, found) ↦ rw (get_blocked_ids, found) (rw found at known)
    ]

-- A row of a cache has one value at all times.
unexpired_once :
    {A : Type 0} (row : Option (A × ℕ)) (now later : ℕ) (a b : A)
    → unexpired row now ≡ some a
    → unexpired row later ≡ some b
    → a ≡ b
unexpired_once none now later a b h k = cc
unexpired_once (some (c, expires_at)) now later a b h k = elim (Bool-cases (ltb now expires_at)) [
  | inr old ↦ absurd (cc (rw old at h))
  | inl fresh ↦ elim (Bool-cases (ltb later expires_at)) [
    | inr old ↦ absurd (cc (rw old at k))
    | inl fresh' ↦
        let e : some c ≡ some a = rw fresh at h in let e' : some c ≡ some b = rw fresh' at k in cc
  ]
]

-- After that the block is known at each later look that finds a document where it asks for one.
pub get_blocked_ids-IsKnown :
    (calls : BlockCalls) (cache : List (String × (List String × ℕ))) (a u : String) (later : ℕ)
    (docs : List BlockDoc)
    → IsKnown (unexpired (lookup a cache) calls.check_now) (block_docs (calls.find_blocks a)) a u
    → separates docs a u ≡ true
    → IsKnown (unexpired (lookup a (get_blocked_ids calls cache a).1) later) docs a u
unfolding get_blocked_ids
get_blocked_ids-IsKnown calls cache a u later docs known apart =
    elim (Option-cases (unexpired (lookup a (get_blocked_ids calls cache a).1) later)) [
      | inl gone' ↦ rw gone' apart
      | inr (ids, again) ↦
          rw again (elim (Option-cases (unexpired (lookup a cache) calls.check_now)) [
            | inl gone ↦
                let found = other_users a [] (block_docs (calls.find_blocks a)) in
                let self : (a == a) ≡ true = (eq_iff a a).1 refl in
                let k = rw (get_blocked_ids, gone, self) at again in
                let e : found ≡ ids = ground (arith, k) in
                rw e at (
                  contains-other_users a u [] (block_docs (calls.find_blocks a)) (rw gone at known))
            | inr (ids', there) ↦
                let k : unexpired (lookup a cache) later ≡ some ids =
                  rw (get_blocked_ids, there) at again in
                let e : ids' ≡ ids =
                  unexpired_once (lookup a cache) calls.check_now later ids' ids there k in
                let k' : contains ids' u ≡ true = rw there at known in rw e at k'
          ])
    ]
