-- ===== src/HttpAuth/Accepts.antt =====
-- Which requests internal/httpauth/httpauth.go lets pass.
use mathlib.Core.Path.{subst}
use rss2msg.Prelude.{
  ◌≡◌, refl, ap, sym, ◌∙◌, ◌↔◌, ◌⊎◌, inl, inr, Str, lit, false, ◌&&◌, Option, none, some, List, [],
  ◌∷◌, ◌++◌, Memᴰ, is_empty, is_none, str_eq, str_eq_iff, arith, Bool-cases,
}
use rss2msg.Http.{Request}
use rss2msg.HttpAuth.{
  BasicCred, NamedSecret, Auth, key_header, cut_prefix, find_secret, find_user, by_token, by_user,
  by_key, or_try, authenticate,
}

-- One of the configured credentials is in the request, where its method reads it.
pub data Presents (a : Auth) (r : Request) : Type 0 where
  token :
      (c : NamedSecret)
      → Memᴰ c a.bearer_tokens
      → r.header (lit "Authorization") ≡ lit "Bearer " ++ c.secret
      → Presents a r
  user :
      (c : BasicCred)
      → Memᴰ c a.basic_users
      → r.basic_auth ≡ some (c.username, c.password)
      → Presents a r
  key :
      (c : NamedSecret)
      → Memᴰ c a.api_keys
      → r.header (key_header a) ≡ c.secret
      → is_empty c.secret ≡ false
      → Presents a r

abbrev Passes : Option Str → Type 0
Passes o = is_none o ≡ false

pub cut_prefix-append : (p s : Str) → cut_prefix p (p ++ s) ≡ some s
unfolding cut_prefix
cut_prefix-append [] s = refl
cut_prefix-append (c ∷ p) s = ground (arith, cut_prefix-append p s)

pub cut_prefix-some : (p s t : Str) → cut_prefix p s ≡ some t → s ≡ p ++ t
unfolding cut_prefix
cut_prefix-some [] s t h = cc
cut_prefix-some (c ∷ p) [] t h = absurd (cc)
cut_prefix-some (c ∷ p) (d ∷ s) t h = ground (arith, cut_prefix-some p s t)

pub prefix_inj : (p a b : Str) → p ++ a ≡ p ++ b → a ≡ b
prefix_inj p a b h =
    some-inj (sym (cut_prefix-append p a) ∙ ap (cut_prefix p) h ∙ cut_prefix-append p b)
  where
    some-inj : some a ≡ some b → a ≡ b
    some-inj e = cc

find_secret-mem :
    (got : Str) (cs : List NamedSecret)
    → Passes (find_secret got cs)
    → (c : NamedSecret) × Memᴰ c cs × (got ≡ c.secret)
unfolding find_secret
find_secret-mem got [] h = absurd (cc)
find_secret-mem got (c ∷ cs) h = elim (Bool-cases (str_eq got c.secret)) [
  | inl e ↦ (c, Memᴰ.head refl, (str_eq_iff got c.secret).0 e)
  | inr e ↦ let (d, m, q) = find_secret-mem got cs (rw e at h) in (d, Memᴰ.tail m, q)
]

mem-find_secret :
    (c : NamedSecret) (cs : List NamedSecret) → Memᴰ c cs → Passes (find_secret c.secret cs)
unfolding find_secret
mem-find_secret c [] m = elim m [ ]
mem-find_secret c (d ∷ cs) (Memᴰ.head e) =
    rw ((str_eq_iff c.secret d.secret).1 (ap (λ x. x.secret) e)) refl
mem-find_secret c (d ∷ cs) (Memᴰ.tail m) = elim (Bool-cases (str_eq c.secret d.secret)) [
  | inl e ↦ rw e refl
  | inr e ↦ rw e (mem-find_secret c cs m)
]

abbrev UserIn : Str → Str → List BasicCred → Type 0
UserIn u pw cs = (c : BasicCred) × Memᴰ c cs × (u ≡ c.username) × (pw ≡ c.password)

later : (u pw : Str) (c : BasicCred) {cs : List BasicCred} → UserIn u pw cs → UserIn u pw (c ∷ cs)
later u pw c (d, m, q, p) = (d, Memᴰ.tail m, q, p)

find_user-mem : (u pw : Str) (cs : List BasicCred) → Passes (find_user u pw cs) → UserIn u pw cs
unfolding find_user
find_user-mem u pw [] h = absurd (cc)
find_user-mem u pw (c ∷ cs) h = elim (Bool-cases (str_eq u c.username)) [
  | inl e ↦ elim (Bool-cases (str_eq pw c.password)) [
    | inl q ↦ (c, Memᴰ.head refl, (str_eq_iff u c.username).0 e, (str_eq_iff pw c.password).0 q)
    | inr q ↦ later u pw c (find_user-mem u pw cs (rw (e, q) at h))
  ]
  | inr e ↦ later u pw c (find_user-mem u pw cs (rw e at h))
]

mem-find_user :
    (c : BasicCred) (cs : List BasicCred) → Memᴰ c cs → Passes (find_user c.username c.password cs)
unfolding find_user
mem-find_user c [] m = elim m [ ]
mem-find_user c (d ∷ cs) (Memᴰ.head e) =
    rw
      (
        (str_eq_iff c.username d.username).1 (ap (λ x. x.username) e),
        (str_eq_iff c.password d.password).1 (ap (λ x. x.password) e),
      )
      refl
mem-find_user c (d ∷ cs) (Memᴰ.tail m) =
    elim (Bool-cases (str_eq c.username d.username && str_eq c.password d.password)) [
      | inl e ↦ rw e refl
      | inr e ↦ rw e (mem-find_user c cs m)
    ]

or_try-Passes : (a b : Option Str) → Passes (or_try a b) → Passes a ⊎ Passes b
or_try-Passes none b h = inr h
or_try-Passes (some x) b h = inl refl

Passes-or_try : (a b : Option Str) → Passes a ⊎ Passes b → Passes (or_try a b)
Passes-or_try (some x) b h = refl
Passes-or_try none b (inl h) = absurd (cc)
Passes-or_try none b (inr h) = h

module _ (a : Auth) (r : Request) where
  by_token-Presents :
      (o : Option Str)
      → cut_prefix (lit "Bearer ") (r.header (lit "Authorization")) ≡ o
      → Passes (by_token o a.bearer_tokens)
      → Presents a r
  by_token-Presents none e h = absurd (cc)
  by_token-Presents (some t) e h =
      let (c, m, q) = find_secret-mem t a.bearer_tokens h in
      Presents.token c m (
        cut_prefix-some (lit "Bearer ") (r.header (lit "Authorization")) t e
        ∙ ap (λ x. lit "Bearer " ++ x) q)

  by_user-Presents :
      (o : Option (Str × Str)) → r.basic_auth ≡ o → Passes (by_user o a.basic_users) → Presents a r
  by_user-Presents none e h = absurd (cc)
  by_user-Presents (some (u, pw)) e h =
      let (c, m, q, p) = find_user-mem u pw a.basic_users h in
      Presents.user c m (e ∙ rw (q, p) refl)

  by_key-Presents : Passes (by_key (r.header (key_header a)) a.api_keys) → Presents a r
  by_key-Presents h = elim (Bool-cases (is_empty (r.header (key_header a)))) [
    | inl e ↦ absurd (cc (rw e at h))
    | inr e ↦
        let (c, m, q) = find_secret-mem (r.header (key_header a)) a.api_keys (rw e at h) in
        Presents.key c m q (rw q at e)
  ]

  -- A request passes exactly if it presents one of the configured credentials: a bearer token in the
  -- Authorization header, a username with its password, or a key that is not empty in the header of
  -- keys.
  pub authenticate_iff : (is_none (authenticate a r) ≡ false) ↔ Presents a r
  unfolding authenticate
  authenticate_iff = (to, from)
    where
      token_found : Option Str
      token_found =
          by_token (cut_prefix (lit "Bearer ") (r.header (lit "Authorization"))) a.bearer_tokens

      user_found : Option Str
      user_found = by_user r.basic_auth a.basic_users

      key_found : Option Str
      key_found = by_key (r.header (key_header a)) a.api_keys

      to : Passes (authenticate a r) → Presents a r
      to h = elim (or_try-Passes token_found (or_try user_found key_found) h) [
        | inl t ↦ by_token-Presents _ refl t
        | inr rest ↦ elim (or_try-Passes user_found key_found rest) [
          | inl u ↦ by_user-Presents _ refl u
          | inr k ↦ by_key-Presents k
        ]
      ]

      from : Presents a r → Passes (authenticate a r)
      from (Presents.token c m e) =
          let bearer : cut_prefix (lit "Bearer ") (r.header (lit "Authorization")) ≡ some c.secret =
            ap (cut_prefix (lit "Bearer ")) e ∙ cut_prefix-append (lit "Bearer ") c.secret in
          Passes-or_try token_found (or_try user_found key_found) (
            inl (
              subst (λ o. Passes (by_token o a.bearer_tokens)) (sym bearer)
                (mem-find_secret c a.bearer_tokens m)))
      from (Presents.user c m e) =
          Passes-or_try token_found (or_try user_found key_found) (
            inr (Passes-or_try user_found key_found (inl (rw e (mem-find_user c a.basic_users m)))))
      from (Presents.key c m e q) = Passes-or_try token_found (or_try user_found key_found) (
          inr (
            Passes-or_try user_found key_found
              (inr (rw e (rw q (mem-find_secret c a.api_keys m))))))
