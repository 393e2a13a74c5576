-- ===== src/Tests/Settings.antt =====
-- Accepted settings: of a coordinator on Redis, of a feed sink's credentials, of an admin API.
use rss2msg.Prelude.{
  ◌≢◌, ◌≡◌, refl, ◌⊎◌, Str, lit, Bool, true, false, Option, none, some, [], ◌∷◌, Memᴰ, str_eq,
}
use rss2msg.Prelude.Int.{ℤ, pos, ltb_ℤ, leb_ℤ}
use rss2msg.Model.Space.{trim_space}
use rss2msg.Http.{Request}
use rss2msg.HttpAuth.{Auth, BasicCred, NamedSecret, authenticate}
use rss2msg.Redis.{resolved}
use rss2msg.Config.{run_checks}
use rss2msg.Config.Tls.{TlsConfig}
use rss2msg.Config.State.{StateConfig}
use rss2msg.Config.Coordination.{
  RedisConfig, CoordinationConfig, Url, one_second, check_coordination,
}
use rss2msg.Config.Timing.{accepted-renews}
use rss2msg.Config.FeedAuth.{FeedAuthConfig, effective_auth, to_feed_surface_auth, check_auth}
use rss2msg.Config.Sealed.{IsSealed, Carries, accepted-IsSealed}
use rss2msg.Config.Services.{ServicesConfig, fully_open, check_services}
use rss2msg.Config.Guarded.{Guarded, admin-Guarded}

abbrev no_tls : TlsConfig
no_tls = record {
  ca_file = [];
  cert_file = [];
  key_file = [];
  server_name = [];
  insecure_skip_verify = false;
}

abbrev sqlite : StateConfig
sqlite = record {
  driver = lit "sqlite";
  item_ttl = pos 0;
  sqlite_path = lit "db";
  sqlite_cleanup = pos 0;
  postgres_dsn = [];
  postgres_tls = no_tls;
  postgres_cleanup = pos 0;
  dynamodb_table = [];
  ttl_attribute = [];
  cosmosdb_endpoint = [];
  connection_string = [];
  cosmosdb_database = [];
}

abbrev redis : RedisConfig
redis = record {
  mode = [];
  url = lit "r";
  master_name = [];
  sentinel_addrs = [];
  cluster_addrs = [];
  lock_ttl = pos 2_000_000_000;
  renewal_interval = pos 0;
  tls = no_tls;
}

abbrev on_redis : CoordinationConfig
on_redis = record {
  driver = lit "redis";
  postgres_dsn = [];
  postgres_tls = no_tls;
  redis = redis;
  dynamodb_table = [];
  dynamodb_lease = pos 0;
  cosmosdb_endpoint = [];
  connection_string = [];
  cosmosdb_database = [];
  cosmosdb_lease = pos 0;
  assignment = record {
    enabled = false;
    strategy = [];
    heartbeat_interval = pos 0;
    member_ttl = pos 0;
    rebalance_grace = pos 0;
  };
}

abbrev enabled_tls : Str → Bool
enabled_tls dsn = false

abbrev redis_url : Str → Option Url
redis_url s = some (record { scheme = lit "redis"; host = lit "h"; path = [] })

abbrev no_number : Str → Option ℤ
no_number s = none

redis_accepted :
    (check_coordination enabled_tls redis_url no_number on_redis sqlite (pos 0)).1 ≡ none
unfolding check_coordination trim_space str_eq run_checks
redis_accepted = refl

accepted-renews_example :
    let o = resolved (pos 2_000_000_000) (pos 0) (pos 0) in
    (leb_ℤ one_second o.lock_ttl ≡ true)
    × (ltb_ℤ (pos 0) o.renewal_interval ≡ true)
    × (ltb_ℤ o.renewal_interval o.lock_ttl ≡ true)
accepted-renews_example =
    accepted-renews enabled_tls redis_url no_number on_redis sqlite (pos 0) (pos 0) redis_accepted
      refl

abbrev with_all : FeedAuthConfig
with_all = record {
  disabled = false;
  basic_users = record { name = []; username = lit "u"; password = lit "p" } ∷ [];
  bearer_tokens = record { name = []; secret = lit "s" } ∷ [];
  api_keys = record { name = []; secret = lit "k" } ∷ [];
  api_key_header = [];
}

abbrev all_auth : Auth
all_auth = record {
  basic_users = with_all.basic_users;
  bearer_tokens = with_all.bearer_tokens;
  api_keys = with_all.api_keys;
  api_key_header = [];
}

auth_accepted : check_auth with_all none ≡ none
unfolding check_auth
auth_accepted = refl

auth_made : to_feed_surface_auth (effective_auth with_all none) ≡ some all_auth
unfolding to_feed_surface_auth
auth_made = refl

-- A password that is empty is refused, and a key that is empty.
no_password :
    let u : BasicCred = record { name = []; username = lit "u"; password = [] } in
    check_auth (record with_all { basic_users = u ∷ [] }) none ≢ none
unfolding check_auth
no_password e = cc

no_key :
    let k : NamedSecret = record { name = []; secret = [] } in
    check_auth (record with_all { api_keys = k ∷ [] }) none ≢ none
unfolding check_auth
no_key e = cc

accepted-IsSealed_example :
    IsSealed all_auth × ((r : Request) → authenticate all_auth r ≢ none → Carries all_auth r)
accepted-IsSealed_example = accepted-IsSealed with_all none all_auth auth_accepted auth_made

abbrev services : ServicesConfig
services = record {
  health = record {
    enabled = false;
    listen = [];
    liveness_path = [];
    readiness_path = [];
    startup_path = [];
  };
  admin = record {
    enabled = true;
    listen = lit ":1";
    tls_enabled = false;
    cert_file = [];
    key_file = [];
    client_ca_file = [];
    auth_enabled = false;
    has_credentials = false;
    allowed_origins = [];
  };
  prometheus_enabled = false;
  prometheus_listen = [];
  metrics_enabled = true;
  graphite_enabled = false;
  graphite_address = [];
  graphite_interval = pos 0;
  cloudwatch = record {
    enabled = false;
    logs_enabled = false;
    log_group = [];
    level = [];
    batch_interval = pos 0;
    metrics_enabled = false;
    interval = pos 0;
  };
}

services_accepted : (check_services redis_url services).1 ≡ none
unfolding check_services trim_space run_checks
services_accepted = refl

admin-Guarded_example :
    Guarded services.admin ⊎ Memᴰ fully_open (check_services redis_url services).0
admin-Guarded_example = admin-Guarded redis_url services services_accepted refl
