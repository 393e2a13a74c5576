-- ===== src/Assign.antt =====
-- internal/assign/assign.go: feed ownership by rendezvous hashing. The hash of the xxhash package
-- is a parameter, a function of the bytes written to the digest.
pub mod Owner
pub mod Fleet
use rss2msg.Prelude.{
  ℕ, Str, Bool, true, false, List, [], ◌∷◌, ◌++◌, ◌&&◌, ◌||◌, not, Option, none, some, ltb, ◌==◌,
  str_eq, str_lt, if◌then◌else◌,
}

-- The variables of the loop of `Owner`.
pub record Best : Type 0 where
  pub best : Str
  pub best_score : ℕ
  pub found : Bool

-- `for _, m := range members { if m == self { inSet = true } }`
unfoldable pub in_set : Str → List Str → Bool
in_set self [] = false
in_set self (m ∷ ms) = str_eq m self || in_set self ms

-- `o, ok := Owner(f, members); ok && o == self`
abbrev pub is_owner : Str → Option Str → Bool
is_owner self none = false
is_owner self (some o) = str_eq o self

module _ (sum64 : Str → ℕ) where
  unfoldable pub score : Str → Str → ℕ
  score member feed_url = sum64 (member ++ (0 ∷ []) ++ feed_url)

  unfoldable pub owner_step : Str → Best → Str → Best
  owner_step feed_url b m =
      let s = score m feed_url in
      if not b.found || ltb b.best_score s || s == b.best_score && str_lt b.best m
      then record { best = m; best_score = s; found = true }
      else b

  unfoldable pub owner_loop : Str → Best → List Str → Best
  unfolding owner_step
  owner_loop feed_url b [] = b
  owner_loop feed_url b (m ∷ ms) = owner_loop feed_url (owner_step feed_url b m) ms

  -- `none` is the answer `("", false)` of an empty member list.
  unfoldable pub owner : Str → List Str → Option Str
  unfolding owner_loop
  owner feed_url members =
      let b = owner_loop feed_url (record { best = []; best_score = 0; found = false }) members in
      if b.found then some b.best else none

  unfoldable pub owned_loop : Str → List Str → List Str → List Str
  owned_loop self [] members = []
  owned_loop self (f ∷ fs) members =
      if is_owner self (owner f members)
      then f ∷ owned_loop self fs members
      else owned_loop self fs members

  unfoldable pub owned : Str → List Str → List Str → List Str
  unfolding in_set owned_loop
  owned self feeds members = if in_set self members then owned_loop self feeds members else []
