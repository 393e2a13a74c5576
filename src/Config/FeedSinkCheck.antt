-- ===== src/Config/FeedSinkCheck.antt =====
-- The checks of internal/config/validate.go on a feed sink. What net/url and package net find is a
-- parameter.
use rss2msg.Prelude.{
  ℕ, Str, lit, Bool, true, false, not, ◌||◌, ◌&&◌, Option, none, some, List, [], ◌∷◌, ◌++◌,
  is_empty, is_none, length, leb, ltb, str_eq, ◌==◌, if◌then◌else◌,
}
use rss2msg.Prelude.Int.{ℤ, pos, ltb_ℤ}
use rss2msg.SinkGraph.{mem_str}
use rss2msg.Errors.{Result}
use rss2msg.Config.{Check, fails, warns, run_groups}
use rss2msg.Config.ProxyEntry.{validate_trusted_proxy_entry}
use rss2msg.Config.Tls.{TlsConfig, tls_configured, half_pair}
use rss2msg.Config.State.{blank}
use rss2msg.Config.Coordination.{Url}
use rss2msg.Config.FeedAuth.{FeedAuthConfig, AuthFault, validate_feed_auth}

-- `Enabled` is a pointer in the code: `none` where it is not set.
pub record SurfaceConfig : Type 0 where
  pub enabled : Option Bool
  pub path : Str
  pub auth : Option FeedAuthConfig

pub record FeedSinkConfig : Type 0 where
  pub listen : Str
  pub max_items : ℤ
  pub rss : SurfaceConfig
  pub atom : SurfaceConfig
  pub mcp : SurfaceConfig
  pub link : Str
  pub public_url : Str
  pub trusted_proxies : List Str
  pub tls_cert : Str
  pub tls_key : Str
  pub http3 : Bool
  pub auth : FeedAuthConfig
  pub store_driver : Str
  pub sqlite_path : Str
  pub postgres_dsn : Str
  pub postgres_table : Str
  pub postgres_tls : TlsConfig

pub data FeedSinkFault : Type 0 where
  listen_required negative_max_items path_without_slash path_collides : FeedSinkFault
  no_surface not_absolute bad_proxy tls_pair http3_without_tls : FeedSinkFault
  auth : AuthFault → FeedSinkFault
  unknown_store sqlite_path_required dsn_required bad_table tls_disabled : FeedSinkFault

pub data FeedSinkWarning : Type 0 where
  partial_feeds : FeedSinkWarning

-- `On` and `PathOr`
abbrev is_on : SurfaceConfig → Bool → Bool
is_on s default = elim s.enabled [ none ↦ default | some b ↦ b ]

abbrev path_or : SurfaceConfig → Str → Str
path_or s default = if is_empty s.path then default else s.path

abbrev Checks : Type 0
Checks = List (Check FeedSinkFault FeedSinkWarning)

abbrev pub starts_with_slash : Str → Bool
starts_with_slash [] = false
starts_with_slash (c ∷ s) = c == 47

-- The pass of the loop over the surfaces for one of them, with the paths of those before.
abbrev surface_checks : Bool → Str → List Str → Checks
surface_checks on path taken =
    fails (on && not (starts_with_slash path)) path_without_slash
    ∷ fails (on && mem_str path taken) path_collides
    ∷ []

abbrev add_path : Bool → Str → List Str → List Str
add_path on path taken = if on then path ∷ taken else taken

abbrev letter_or_underscore : ℕ → Bool
letter_or_underscore c = c == 95 || ((leb 97 c && leb c 122) || (leb 65 c && leb c 90))

unfoldable identifier_rest : Str → Bool
identifier_rest [] = true
identifier_rest (c ∷ s) = (letter_or_underscore c || (leb 48 c && leb c 57)) && identifier_rest s

abbrev identifier_bytes : Str → Bool
identifier_bytes [] = false
identifier_bytes (c ∷ s) = letter_or_underscore c && identifier_rest s

-- `isValidPGIdentifier`
unfoldable pub is_valid_pg_identifier : Str → Bool
unfolding identifier_rest
is_valid_pg_identifier s = if is_empty s || ltb 63 (length s) then false else identifier_bytes s

abbrev store_of : FeedSinkConfig → Str
store_of f = if is_empty f.store_driver then lit "memory" else f.store_driver

-- A block of a surface, where there is one.
abbrev auth_check : Option AuthFault → Checks
auth_check none = []
auth_check (some fault) = fails true (auth fault) ∷ []

abbrev own_auth : Option FeedAuthConfig → Checks
own_auth none = []
own_auth (some a) = auth_check (validate_feed_auth a true)

module _ (ssl_disabled : Str → Bool) (parse_url : Str → Option Url) where
  abbrev is_absolute : Option Url → Bool
  is_absolute none = false
  is_absolute (some u) = not (is_empty u.scheme) && not (is_empty u.host)

  abbrev not_url : Str → Bool
  not_url raw = not (is_empty raw) && not (is_absolute (parse_url raw))

  abbrev pub surface_group : FeedSinkConfig → Checks
  surface_group f =
      let rss_path = path_or f.rss (lit "/rss") in
      let atom_path = path_or f.atom (lit "/atom") in
      let mcp_path = path_or f.mcp (lit "/mcp") in
      let rss = is_on f.rss true in
      let atom = is_on f.atom true in
      let mcp = is_on f.mcp false in
      let taken = add_path rss rss_path [] in
      fails (blank f.listen) listen_required
      ∷ fails (ltb_ℤ f.max_items (pos 0)) negative_max_items
      ∷ (surface_checks rss rss_path []
          ++ (surface_checks atom atom_path taken
              ++ (surface_checks mcp mcp_path (add_path atom atom_path taken)
                  ++ (fails (not (rss || (atom || mcp))) no_surface ∷ []))))

  abbrev store_group : FeedSinkConfig → Str → Checks
  store_group f coordination =
      let sqlite = str_eq (store_of f) (lit "sqlite") in
      let postgres = str_eq (store_of f) (lit "postgres") in
      fails (not (str_eq (store_of f) (lit "memory") || (sqlite || postgres))) unknown_store
      ∷ fails (sqlite && blank f.sqlite_path) sqlite_path_required
      ∷ fails (postgres && blank f.postgres_dsn) dsn_required
      ∷ fails
          (postgres
            && (not (is_empty f.postgres_table) && not (is_valid_pg_identifier f.postgres_table)))
          bad_table
      ∷ fails (postgres && (tls_configured f.postgres_tls && ssl_disabled f.postgres_dsn))
          tls_disabled
      ∷ fails (postgres && half_pair f.postgres_tls.cert_file f.postgres_tls.key_file) tls_pair
      ∷ warns
          (not postgres
            && (not (is_empty coordination) && not (str_eq coordination (lit "memory"))))
          partial_feeds
      ∷ []

  module _ {Ip Network : Type 0} (parse_ip : Str → Option Ip)
      (parse_cidr : Str → Result Network) where
    abbrev proxy_checks : List Str → Checks
    proxy_checks [] = []
    proxy_checks (e ∷ es) =
        fails (not (is_none (validate_trusted_proxy_entry parse_ip parse_cidr e))) bad_proxy
        ∷ proxy_checks es

    abbrev address_group : FeedSinkConfig → Checks
    address_group f =
        fails (not_url f.link) not_absolute
        ∷ fails (not_url f.public_url) not_absolute
        ∷ (proxy_checks f.trusted_proxies
            ++ (fails (half_pair f.tls_cert f.tls_key) tls_pair
                ∷ fails (f.http3 && (is_empty f.tls_cert || is_empty f.tls_key)) http3_without_tls
                ∷ []))

    -- The second argument is the driver of the coordinator.
    unfoldable pub check_feed_sink :
        FeedSinkConfig → Str → List FeedSinkWarning × Option FeedSinkFault
    unfolding run_groups mem_str validate_feed_auth validate_trusted_proxy_entry
        is_valid_pg_identifier
    check_feed_sink f coordination = run_groups (
        surface_group f
        ∷ address_group f
        ∷ auth_check (validate_feed_auth f.auth false)
        ∷ own_auth f.rss.auth
        ∷ own_auth f.atom.auth
        ∷ own_auth f.mcp.auth
        ∷ store_group f coordination
        ∷ [])
