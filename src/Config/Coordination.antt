-- ===== src/Config/Coordination.antt =====
-- The checks of internal/config/validate.go on the coordinator and on assignment. What net/url finds
-- in a URL and strconv.Atoi in a number is a parameter.
use rss2msg.Prelude.{
  Str, lit, Bool, true, false, not, ◌||◌, ◌&&◌, Option, none, some, List, [], ◌∷◌, is_empty, str_eq,
  ◌==◌, if◌then◌else◌,
}
use rss2msg.Prelude.Int.{ℤ, pos, ltb_ℤ, leb_ℤ}
use rss2msg.Model.Space.{trim_space}
use rss2msg.SinkGraph.{mem_str}
use rss2msg.Config.{Check, fails, warns, run_groups}
use rss2msg.Config.Tls.{TlsConfig, tls_configured, half_pair}
use rss2msg.Config.State.{StateConfig, blank}

pub record RedisConfig : Type 0 where
  pub mode : Str
  pub url : Str
  pub master_name : Str
  pub sentinel_addrs : List Str
  pub cluster_addrs : List Str
  pub lock_ttl : ℤ
  pub renewal_interval : ℤ
  pub tls : TlsConfig

pub record AssignmentConfig : Type 0 where
  pub enabled : Bool
  pub strategy : Str
  pub heartbeat_interval : ℤ
  pub member_ttl : ℤ
  pub rebalance_grace : ℤ

pub record CoordinationConfig : Type 0 where
  pub driver : Str
  pub postgres_dsn : Str
  pub postgres_tls : TlsConfig
  pub redis : RedisConfig
  pub dynamodb_table : Str
  pub dynamodb_lease : ℤ
  pub cosmosdb_endpoint : Str
  pub connection_string : Str
  pub cosmosdb_database : Str
  pub cosmosdb_lease : ℤ
  pub assignment : AssignmentConfig

pub data CoordFault : Type 0 where
  unsupported_driver dsn_required tls_disabled tls_pair unsupported_mode : CoordFault
  sentinel_set cluster_set url_set url_required url_unparsable : CoordFault
  master_required addrs_required lock_ttl_short renewal_too_long tls_without_rediss : CoordFault
  table_required lease_short endpoint_or_connection endpoint_and_connection : CoordFault
  database_required unsupported_strategy negative_duration member_ttl_short : CoordFault
  negative_deliver_timeout : CoordFault

pub data CoordWarning : Type 0 where
  assignment_without_effect sqlite_with_instances : CoordWarning

-- `knownCoordinationDrivers`
abbrev known_drivers : List Str
known_drivers =
    [] ∷ lit "memory" ∷ lit "postgres" ∷ lit "redis" ∷ lit "dynamodb" ∷ lit "cosmosdb" ∷ []

abbrev pub Checks : Type 0
Checks = List (Check CoordFault CoordWarning)

-- A test made only for one driver, or one mode.
abbrev pub when : Bool → Checks → Checks
when true cs = cs
when false cs = []

abbrev pub or_else : ℤ → ℤ → ℤ
or_else d default = if leb_ℤ d (pos 0) && leb_ℤ (pos 0) d then default else d

abbrev pub is_zero : ℤ → Bool
is_zero d = leb_ℤ d (pos 0) && leb_ℤ (pos 0) d

abbrev pub one_second : ℤ
one_second = pos 1_000_000_000

abbrev pub ten_seconds : ℤ
ten_seconds = pos 10_000_000_000

abbrev pub half_minute : ℤ
half_minute = pos 30_000_000_000

-- Set, and below a second.
abbrev pub below_second : ℤ → Bool
below_second d = not (is_zero d) && ltb_ℤ d one_second

pub record Url : Type 0 where
  pub scheme : Str
  pub host : Str
  pub path : Str

abbrev db_index : Str → Str
db_index [] = []
db_index (c ∷ p) = if c == 47 then p else c ∷ p

abbrev valid_index : Option ℤ → Bool
valid_index none = false
valid_index (some n) = not (ltb_ℤ n (pos 0))

abbrev is_rediss : Option Url → Bool
is_rediss none = false
is_rediss (some u) = str_eq u.scheme (lit "rediss")

abbrev mode_of : RedisConfig → Str
mode_of r = if is_empty r.mode then lit "single" else r.mode

abbrev no_addrs : List Str → Bool
no_addrs [] = true
no_addrs (a ∷ rest) = false

abbrev sentinel_checks : RedisConfig → Checks
sentinel_checks r =
    fails (not (blank r.url)) url_set
    ∷ fails (not (no_addrs r.cluster_addrs)) cluster_set
    ∷ fails (blank r.master_name) master_required
    ∷ fails (no_addrs r.sentinel_addrs) addrs_required
    ∷ []

abbrev cluster_checks : RedisConfig → Checks
cluster_checks r =
    fails (not (blank r.url)) url_set
    ∷ fails (not (is_empty r.master_name) || not (no_addrs r.sentinel_addrs)) sentinel_set
    ∷ fails (no_addrs r.cluster_addrs) addrs_required
    ∷ []

abbrev pub lease_checks : RedisConfig → Checks
lease_checks r =
    fails (below_second r.lock_ttl) lock_ttl_short
    ∷ fails
        (not (is_zero r.renewal_interval)
          && leb_ℤ (or_else r.lock_ttl half_minute) r.renewal_interval)
        renewal_too_long
    ∷ []

abbrev dynamodb_checks : CoordinationConfig → Checks
dynamodb_checks c =
    fails (blank c.dynamodb_table) table_required
    ∷ fails (below_second c.dynamodb_lease) lease_short
    ∷ []

abbrev cosmosdb_checks : CoordinationConfig → Checks
cosmosdb_checks c =
    fails (blank c.cosmosdb_endpoint && blank c.connection_string) endpoint_or_connection
    ∷ fails (not (blank c.cosmosdb_endpoint) && not (blank c.connection_string))
        endpoint_and_connection
    ∷ fails (blank c.cosmosdb_database) database_required
    ∷ fails (below_second c.cosmosdb_lease) lease_short
    ∷ []

abbrev pub assignment_checks : Str → AssignmentConfig → Checks
assignment_checks driver a =
    fails (not (is_empty a.strategy) && not (str_eq a.strategy (lit "rendezvous")))
      unsupported_strategy
    ∷ fails
        (ltb_ℤ a.heartbeat_interval (pos 0)
          || (ltb_ℤ a.member_ttl (pos 0) || ltb_ℤ a.rebalance_grace (pos 0)))
        negative_duration
    ∷ fails (leb_ℤ (or_else a.member_ttl half_minute) (or_else a.heartbeat_interval ten_seconds))
        member_ttl_short
    ∷ warns (is_empty driver || str_eq driver (lit "memory")) assignment_without_effect
    ∷ []

-- A coordinator for several instances.
abbrev for_instances : Str → Bool
for_instances driver =
    str_eq driver (lit "redis")
    || (str_eq driver (lit "postgres")
        || (str_eq driver (lit "dynamodb") || str_eq driver (lit "cosmosdb")))

module _ (ssl_disabled : Str → Bool) where
  -- The DSN of the coordinator, or that of the state store.
  abbrev dsn_of : CoordinationConfig → StateConfig → Str
  dsn_of c s = if blank c.postgres_dsn then trim_space s.postgres_dsn else trim_space c.postgres_dsn

  abbrev postgres_checks : CoordinationConfig → StateConfig → Checks
  postgres_checks c s =
      fails (is_empty (dsn_of c s)) dsn_required
      ∷ fails (tls_configured c.postgres_tls && ssl_disabled (dsn_of c s)) tls_disabled
      ∷ fails (half_pair c.postgres_tls.cert_file c.postgres_tls.key_file) tls_pair
      ∷ []

  module _ (parse_url : Str → Option Url) (atoi : Str → Option ℤ) where
    -- `redisparseURL`: the URL passes its tests.
    abbrev redis_url_ok : Option Url → Bool
    redis_url_ok none = false
    redis_url_ok (some u) =
        (str_eq u.scheme (lit "redis") || str_eq u.scheme (lit "rediss"))
        && (not (is_empty u.host)
            && (is_empty (db_index u.path) || valid_index (atoi (db_index u.path))))

    abbrev single_checks : RedisConfig → Checks
    single_checks r =
        fails (not (is_empty r.master_name) || not (no_addrs r.sentinel_addrs)) sentinel_set
        ∷ fails (not (no_addrs r.cluster_addrs)) cluster_set
        ∷ fails (blank r.url) url_required
        ∷ fails (not (redis_url_ok (parse_url (trim_space r.url)))) url_unparsable
        ∷ []

    -- The switch on the mode.
    abbrev pub mode_checks : RedisConfig → Checks
    mode_checks r =
        let mode = mode_of r in
        if str_eq mode (lit "single")
        then single_checks r
        else if str_eq mode (lit "sentinel")
        then sentinel_checks r
        else if str_eq mode (lit "cluster")
        then cluster_checks r
        else fails true unsupported_mode ∷ []

    abbrev redis_tls_checks : RedisConfig → Checks
    redis_tls_checks r =
        fails
          (tls_configured r.tls
            && (str_eq (mode_of r) (lit "single")
                && not (is_rediss (parse_url (trim_space r.url)))))
          tls_without_rediss
        ∷ fails (half_pair r.tls.cert_file r.tls.key_file) tls_pair
        ∷ []

    abbrev pub coordination_checks : CoordinationConfig → StateConfig → ℤ → List Checks
    coordination_checks c s deliver_timeout =
        (fails (not (mem_str c.driver known_drivers)) unsupported_driver ∷ [])
        ∷ when (str_eq c.driver (lit "postgres")) (postgres_checks c s)
        ∷ when (str_eq c.driver (lit "redis")) (mode_checks c.redis)
        ∷ when (str_eq c.driver (lit "redis")) (lease_checks c.redis)
        ∷ when (str_eq c.driver (lit "redis")) (redis_tls_checks c.redis)
        ∷ when (str_eq c.driver (lit "dynamodb")) (dynamodb_checks c)
        ∷ when (str_eq c.driver (lit "cosmosdb")) (cosmosdb_checks c)
        ∷ when c.assignment.enabled (assignment_checks c.driver c.assignment)
        ∷ (fails (ltb_ℤ deliver_timeout (pos 0)) negative_deliver_timeout
            ∷ warns (str_eq s.driver (lit "sqlite") && for_instances c.driver) sqlite_with_instances
            ∷ [])
        ∷ []

    -- From the coordinator's driver to the warning on a local store.
    unfoldable pub check_coordination :
        CoordinationConfig → StateConfig → ℤ → List CoordWarning × Option CoordFault
    unfolding run_groups mem_str
    check_coordination c s deliver_timeout = run_groups (coordination_checks c s deliver_timeout)
