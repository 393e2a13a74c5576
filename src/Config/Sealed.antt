-- ===== src/Config/Sealed.antt =====
-- What the accepted credentials of a feed sink keep out.
use mathlib.Core.Path.{subst}
use rss2msg.Prelude.{
  Str, ◌≢◌, ◌++◌, All, All-mem, ◌≡◌, refl, ◌∙◌, sym, lit, Bool, true, false, not, ◌||◌, ◌&&◌,
  Option, none, some, List, [], ◌∷◌, is_empty, Bool-cases, Option-cases, inl, inr,
}
use rss2msg.Http.{Request}
use rss2msg.HttpAuth.{BasicCred, NamedSecret, Auth, key_header, authenticate}
use rss2msg.HttpAuth.Accepts.{Presents, authenticate_iff}
use rss2msg.Config.{if-none}
use rss2msg.Config.FeedAuth.{
  FeedAuthConfig, has_methods, AuthFault, then_fault, secret_missing_in, user_incomplete_in,
  validate_feed_auth, effective_auth, to_feed_surface_auth, check_auth,
}

-- A block that passes has no credential with a part that is empty, and is disabled if, as a surface's
-- own, it has no methods.
passed :
    (a : FeedAuthConfig) (is_override : Bool)
    → validate_feed_auth a is_override ≡ none
    → (user_incomplete_in a.basic_users ≡ false)
      × (secret_missing_in a.bearer_tokens ≡ false)
      × (secret_missing_in a.api_keys ≡ false)
      × ((is_override && (not a.disabled && not (has_methods a))) ≡ false)
unfolding validate_feed_auth
passed a is_override h =
    let (_, h1) = if-none _ _ _ h in
    let (override, h2) = if-none _ _ _ h1 in
    let (users, h3) = if-none _ _ _ h2 in
    let (tokens, h4) = if-none _ _ _ h3 in
    let (keys, _) = if-none _ _ _ h4 in (users, tokens, keys, override)

then_fault-none : (a b : Option AuthFault) → then_fault a b ≡ none → (a ≡ none) × (b ≡ none)
then_fault-none none b h = (refl, h)
then_fault-none (some f) b h = absurd (cc)

nonempty : (s : Str) → is_empty s ≡ false → s ≢ []
nonempty [] h e = cc
nonempty (x ∷ s) h e = cc

secrets_given : (cs : List NamedSecret) → secret_missing_in cs ≡ false → All (λ c. c.secret ≢ []) cs
secrets_given [] h = tt
secrets_given (c ∷ cs) h = elim (Bool-cases (is_empty c.secret)) [
  | inl e ↦ absurd (cc (rw e at h))
  | inr e ↦ (nonempty c.secret e, secrets_given cs (rw e at h))
]

abbrev IsComplete : BasicCred → Type 0
IsComplete c = (c.username ≢ []) × (c.password ≢ [])

users-IsComplete : (cs : List BasicCred) → user_incomplete_in cs ≡ false → All IsComplete cs
users-IsComplete [] h = tt
users-IsComplete (c ∷ cs) h = elim (Bool-cases (is_empty c.username)) [
  | inl e ↦ absurd (cc (rw e at h))
  | inr e ↦ elim (Bool-cases (is_empty c.password)) [
    | inl q ↦ absurd (cc (rw (e, q) at h))
    | inr q ↦
        let whole : IsComplete c = (nonempty c.username e, nonempty c.password q) in
        (whole, users-IsComplete cs (rw (e, q) at h))
  ]
]

-- No credential that is accepted has a part that is empty.
pub record IsSealed (a : Auth) : Type 0 where
  pub users : All IsComplete a.basic_users
  pub tokens : All (λ c. c.secret ≢ []) a.bearer_tokens
  pub keys : All (λ c. c.secret ≢ []) a.api_keys

-- A request carries something in a place where a credential is read.
pub data Carries (a : Auth) (r : Request) : Type 0 where
  token : (t : Str) → t ≢ [] → r.header (lit "Authorization") ≡ lit "Bearer " ++ t → Carries a r
  user :
      (name password : Str)
      → name ≢ []
      → password ≢ []
      → r.basic_auth ≡ some (name, password)
      → Carries a r
  key : r.header (key_header a) ≢ [] → Carries a r

abbrev auth_of : FeedAuthConfig → Auth
auth_of b = record {
  basic_users = b.basic_users;
  bearer_tokens = b.bearer_tokens;
  api_keys = b.api_keys;
  api_key_header = b.api_key_header;
}

sealed :
    (b : FeedAuthConfig) (is_override : Bool)
    → validate_feed_auth b is_override ≡ none
    → IsSealed (auth_of b)
sealed b is_override h =
    let (users, tokens, keys, _) = passed b is_override h in
    record {
      users = users-IsComplete b.basic_users users;
      tokens = secrets_given b.bearer_tokens tokens;
      keys = secrets_given b.api_keys keys;
    }

effective :
    (default : FeedAuthConfig) (own : Option FeedAuthConfig)
    → check_auth default own ≡ none
    → IsSealed (auth_of (effective_auth default own))
unfolding check_auth
effective default none h = sealed default false (then_fault-none _ _ h).0
effective default (some own) h =
    sealed own true (then_fault-none (validate_feed_auth default false) _ h).1

made_of : (b : FeedAuthConfig) (a : Auth) → to_feed_surface_auth b ≡ some a → auth_of b ≡ a
unfolding to_feed_surface_auth
made_of b a h = elim (Bool-cases (b.disabled || not (has_methods b))) [
  | inl e ↦ absurd (cc (rw e at h))
  | inr e ↦ let same : some (auth_of b) ≡ some a = rw e at h in cc
]

Presents-Carries : (a : Auth) (r : Request) → IsSealed a → Presents a r → Carries a r
Presents-Carries a r s (Presents.token c m e) =
    Carries.token c.secret (All-mem (λ d. d.secret ≢ []) a.bearer_tokens s.tokens m) e
Presents-Carries a r s (Presents.user c m e) =
    let whole = All-mem IsComplete a.basic_users s.users m in
    Carries.user c.username c.password whole.0 whole.1 e
Presents-Carries a r s (Presents.key c m e q) =
    Carries.key
      (λ none_there. All-mem (λ d. d.secret ≢ []) a.api_keys s.keys m (sym e ∙ none_there))

-- The credentials of a surface whose configuration is accepted have no part that is empty: no
-- username and no password, no token and no key. So a request that passes carries a token, a username
-- with a password, or a key, that is not empty.
pub accepted-IsSealed :
    (default : FeedAuthConfig) (own : Option FeedAuthConfig) (a : Auth)
    → check_auth default own ≡ none
    → to_feed_surface_auth (effective_auth default own) ≡ some a
    → IsSealed a × ((r : Request) → authenticate a r ≢ none → Carries a r)
accepted-IsSealed default own a accepted made =
    let s : IsSealed a =
      subst IsSealed (made_of (effective_auth default own) a made)
        (effective default own accepted) in
    (
      s,
      λ r passes. elim (Option-cases (authenticate a r)) [
        | inl e ↦ absurd (passes e)
        | inr (name, e) ↦ Presents-Carries a r s ((authenticate_iff a r).0 (rw e refl))
      ],
    )

-- A surface with a block of its own is public only where the block says so.
public_asked :
    (default own : FeedAuthConfig)
    → check_auth default (some own) ≡ none
    → to_feed_surface_auth (effective_auth default (some own)) ≡ none
    → own.disabled ≡ true
unfolding check_auth to_feed_surface_auth
public_asked default own accepted public =
    let (_, _, _, override) =
      passed own true (then_fault-none (validate_feed_auth default false) _ accepted).1 in
    elim (Bool-cases own.disabled) [
      | inl e ↦ e
      | inr d ↦ elim (Bool-cases (has_methods own)) [
        | inl m ↦ absurd (cc (rw (d, m) at public))
        | inr m ↦ absurd (cc (rw (d, m) at override))
      ]
    ]
