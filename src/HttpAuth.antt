-- ===== src/HttpAuth.antt =====
-- internal/httpauth/httpauth.go, and the nil-safe calls of it in internal/sink/feed/auth.go. That the
-- comparison takes constant time is not modelled.
pub mod Accepts
use rss2msg.Prelude.{
  Str, lit, Bool, true, false, ◌&&◌, Option, none, some, List, [], ◌∷◌, ◌==◌, is_empty, str_eq,
  if◌then◌else◌,
}
use rss2msg.Http.{Request, Reply, set_header, http_error}

pub record BasicCred : Type 0 where
  pub name : Str
  pub username : Str
  pub password : Str

pub record NamedSecret : Type 0 where
  pub name : Str
  pub secret : Str

pub record Auth : Type 0 where
  pub basic_users : List BasicCred
  pub bearer_tokens : List NamedSecret
  pub api_keys : List NamedSecret
  pub api_key_header : Str

-- `Empty` of an Auth that is not nil
unfoldable pub empty : Auth → Bool
empty a = no_users a.basic_users && (no_secrets a.bearer_tokens && no_secrets a.api_keys)
  where
    no_users : List BasicCred → Bool
    no_users [] = true
    no_users (c ∷ cs) = false

    no_secrets : List NamedSecret → Bool
    no_secrets [] = true
    no_secrets (c ∷ cs) = false

abbrev default_api_key_header : Str
default_api_key_header = lit "X-API-Key"

-- The method apiKeyHeader.
abbrev pub key_header : Auth → Str
key_header a = if is_empty a.api_key_header then default_api_key_header else a.api_key_header

-- strings.HasPrefix, and what follows the prefix.
unfoldable pub cut_prefix : Str → Str → Option Str
cut_prefix [] s = some s
cut_prefix (p ∷ ps) [] = none
cut_prefix (p ∷ ps) (c ∷ s) = let rest = cut_prefix ps s in if p == c then rest else none

-- ctEqual
abbrev ct_equal : Str → Str → Bool
ct_equal a b = str_eq a b

unfoldable pub find_secret : Str → List NamedSecret → Option Str
find_secret got [] = none
find_secret got (c ∷ cs) =
    let rest = find_secret got cs in if ct_equal got c.secret then some c.name else rest

unfoldable pub find_user : Str → Str → List BasicCred → Option Str
find_user u pw [] = none
find_user u pw (c ∷ cs) =
    let rest = find_user u pw cs in
    let user_ok = ct_equal u c.username in
    let pass_ok = ct_equal pw c.password in if user_ok && pass_ok then some c.name else rest

abbrev pub by_token : Option Str → List NamedSecret → Option Str
by_token none cs = none
by_token (some tok) cs = find_secret tok cs

abbrev pub by_user : Option (Str × Str) → List BasicCred → Option Str
by_user none cs = none
by_user (some (u, pw)) cs = find_user u pw cs

abbrev pub by_key : Str → List NamedSecret → Option Str
by_key key cs = if is_empty key then none else find_secret key cs

abbrev pub or_try : Option Str → Option Str → Option Str
or_try none rest = rest
or_try (some name) rest = some name

-- `Authenticate`: the name of the credential that matched, `none` for ("", false).
unfoldable pub authenticate : Auth → Request → Option Str
unfolding find_secret find_user cut_prefix
authenticate a r =
    or_try (by_token (cut_prefix (lit "Bearer ") (r.header (lit "Authorization"))) a.bearer_tokens)
      (or_try (by_user r.basic_auth a.basic_users) (by_key (r.header (key_header a)) a.api_keys))

unfoldable fail_reason : Auth → Request → Str
fail_reason a r =
    if is_empty (r.header (lit "Authorization")) && is_empty (r.header (key_header a))
    then lit "no_credentials"
    else lit "bad_token"

abbrev challenge : List BasicCred → Str
challenge [] = lit "Bearer realm=\"rss2msg\""
challenge (c ∷ cs) = lit "Basic realm=\"rss2msg\""

unfoldable pub write_challenge : Auth → Reply → Reply
write_challenge a w =
    http_error (lit "unauthorized") 401
      (set_header (lit "WWW-Authenticate") (challenge a.basic_users) w)

-- `authenticate` of the feed sink: the surface of a nil Auth is public.
abbrev pub authenticate_surface : Option Auth → Request → Option Str
authenticate_surface none r = some []
authenticate_surface (some a) r = authenticate a r
