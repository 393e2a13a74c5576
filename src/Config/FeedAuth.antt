-- ===== src/Config/FeedAuth.antt =====
-- validateFeedAuth in internal/config/validate.go with EffectiveAuth of internal/config/config.go, and
-- toFeedSurfaceAuth in cmd/rss2msg/wire.go, which makes the credentials of a surface from an accepted
-- block. The credentials of a block have the fields of those in package httpauth.
use rss2msg.Prelude.{
  Str, Bool, true, false, not, ◌||◌, ◌&&◌, Option, none, some, List, [], ◌∷◌, is_empty,
  if◌then◌else◌,
}
use rss2msg.Prelude.Bytes.{has_byte}
use rss2msg.SinkGraph.{mem_str}
use rss2msg.HttpAuth.{BasicCred, NamedSecret, Auth}

pub record FeedAuthConfig : Type 0 where
  pub disabled : Bool
  pub basic_users : List BasicCred
  pub bearer_tokens : List NamedSecret
  pub api_keys : List NamedSecret
  pub api_key_header : Str

abbrev has_any {ℓ} : {A : Type ℓ} → List A → Bool
has_any [] = false
has_any (x ∷ xs) = true

-- `HasMethods`
abbrev pub has_methods : FeedAuthConfig → Bool
has_methods a = has_any a.basic_users || (has_any a.bearer_tokens || has_any a.api_keys)

pub data AuthFault : Type 0 where
  disabled_with_methods no_methods user_incomplete token_missing key_missing : AuthFault
  duplicate_user duplicate_token duplicate_key : Str → AuthFault
  header_invalid header_without_keys : AuthFault

-- The loop of firstDupFeedName over what is left, with the names seen.
unfoldable dup_loop : List Str → List Str → Str
unfolding mem_str
dup_loop seen [] = []
dup_loop seen (n ∷ ns) =
    let skipped = dup_loop seen ns in
    let rest = dup_loop (n ∷ seen) ns in
    if is_empty n then skipped else if mem_str n seen then n else rest

-- `firstDupFeedName`
unfoldable first_dup_feed_name : List Str → Str
unfolding dup_loop
first_dup_feed_name names = dup_loop [] names

abbrev user_names : List BasicCred → List Str
user_names [] = []
user_names (c ∷ cs) = c.name ∷ user_names cs

abbrev secret_names : List NamedSecret → List Str
secret_names [] = []
secret_names (c ∷ cs) = c.name ∷ secret_names cs

abbrev pub user_incomplete_in : List BasicCred → Bool
user_incomplete_in [] = false
user_incomplete_in (c ∷ cs) = (is_empty c.username || is_empty c.password) || user_incomplete_in cs

abbrev pub secret_missing_in : List NamedSecret → Bool
secret_missing_in [] = false
secret_missing_in (c ∷ cs) = is_empty c.secret || secret_missing_in cs

-- strings.ContainsAny(h, " \t:")
abbrev bad_header : Str → Bool
bad_header h = has_byte 32 h || (has_byte 9 h || has_byte 58 h)

abbrev duplicate : (Str → AuthFault) → Str → Option AuthFault → Option AuthFault
duplicate fault dup rest = if is_empty dup then rest else some (fault dup)

unfoldable pub validate_feed_auth : FeedAuthConfig → Bool → Option AuthFault
unfolding first_dup_feed_name has_byte
validate_feed_auth a is_override =
    if a.disabled && has_methods a
    then some disabled_with_methods
    else if is_override && (not a.disabled && not (has_methods a))
    then some no_methods
    else if user_incomplete_in a.basic_users
    then some user_incomplete
    else if secret_missing_in a.bearer_tokens
    then some token_missing
    else if secret_missing_in a.api_keys
    then some key_missing
    else duplicate duplicate_user (first_dup_feed_name (user_names a.basic_users)) (
        duplicate duplicate_token (first_dup_feed_name (secret_names a.bearer_tokens)) (
          duplicate duplicate_key (first_dup_feed_name (secret_names a.api_keys)) (
            if is_empty a.api_key_header
            then none
            else if bad_header a.api_key_header
            then some header_invalid
            else if has_any a.api_keys
            then none
            else some header_without_keys)))

-- `EffectiveAuth`: the surface's own block, or that of the sink.
abbrev pub effective_auth : FeedAuthConfig → Option FeedAuthConfig → FeedAuthConfig
effective_auth default none = default
effective_auth default (some own) = own

unfoldable pub to_feed_surface_auth : FeedAuthConfig → Option Auth
to_feed_surface_auth a =
    if a.disabled || not (has_methods a)
    then none
    else some (record {
      basic_users = a.basic_users;
      bearer_tokens = a.bearer_tokens;
      api_keys = a.api_keys;
      api_key_header = a.api_key_header;
    })

abbrev pub then_fault : Option AuthFault → Option AuthFault → Option AuthFault
then_fault (some f) others = some f
then_fault none others = others

abbrev check_own : Option FeedAuthConfig → Option AuthFault
check_own none = none
check_own (some own) = validate_feed_auth own true

-- The checks of a feed sink on its own block and on that of one surface.
unfoldable pub check_auth : FeedAuthConfig → Option FeedAuthConfig → Option AuthFault
unfolding validate_feed_auth
check_auth default own = then_fault (validate_feed_auth default false) (check_own own)
