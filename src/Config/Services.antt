-- ===== src/Config/Services.antt =====
-- The checks of internal/config/validate.go on the health probes, the admin API, and the telemetry
-- that Graphite and CloudWatch get. What net/url finds in a URL is a parameter.
use rss2msg.Prelude.{
  Str, lit, Bool, true, false, not, ◌||◌, ◌&&◌, Option, none, some, List, [], ◌∷◌, is_empty, str_eq,
}
use rss2msg.Prelude.Bytes.{to_lower}
use rss2msg.Prelude.Int.{ℤ, pos, ltb_ℤ}
use rss2msg.SinkGraph.{mem_str}
use rss2msg.Model.Space.{trim_space}
use rss2msg.Config.{Check, fails, warns, run_groups}
use rss2msg.Config.State.{blank}
use rss2msg.Config.Coordination.{Url}
use rss2msg.Config.FeedSinkCheck.{starts_with_slash}

pub record HealthConfig : Type 0 where
  pub enabled : Bool
  pub listen : Str
  pub liveness_path : Str
  pub readiness_path : Str
  pub startup_path : Str

-- `has_credentials` is what HasCredentials answers.
pub record AdminConfig : Type 0 where
  pub enabled : Bool
  pub listen : Str
  pub tls_enabled : Bool
  pub cert_file : Str
  pub key_file : Str
  pub client_ca_file : Str
  pub auth_enabled : Bool
  pub has_credentials : Bool
  pub allowed_origins : List Str

pub record CloudWatchConfig : Type 0 where
  pub enabled : Bool
  pub logs_enabled : Bool
  pub log_group : Str
  pub level : Str
  pub batch_interval : ℤ
  pub metrics_enabled : Bool
  pub interval : ℤ

pub record ServicesConfig : Type 0 where
  pub health : HealthConfig
  pub admin : AdminConfig
  pub prometheus_enabled : Bool
  pub prometheus_listen : Str
  pub metrics_enabled : Bool
  pub graphite_enabled : Bool
  pub graphite_address : Str
  pub graphite_interval : ℤ
  pub cloudwatch : CloudWatchConfig

pub data ServiceFault : Type 0 where
  health_listen path_without_slash paths_not_distinct : ServiceFault
  admin_listen cert_required client_ca_without_tls no_credentials bad_origin : ServiceFault
  address_required negative_interval log_group_required unknown_level : ServiceFault
  negative_batch_interval : ServiceFault

pub data ServiceWarning : Type 0 where
  same_listen fully_open any_origin metrics_off nothing_enabled : ServiceWarning

abbrev pub Checks : Type 0
Checks = List (Check ServiceFault ServiceWarning)

abbrev pub only_if : Bool → Checks → Checks
only_if true cs = cs
only_if false cs = []

-- The probes have three paths.
abbrev pub health_checks : ServicesConfig → Checks
health_checks c =
    let h = c.health in
    fails (blank h.listen) health_listen
    ∷ fails (not (starts_with_slash h.liveness_path)) path_without_slash
    ∷ fails (not (starts_with_slash h.readiness_path)) path_without_slash
    ∷ fails (not (starts_with_slash h.startup_path)) path_without_slash
    ∷ fails (mem_str h.readiness_path (h.liveness_path ∷ [])) paths_not_distinct
    ∷ fails (mem_str h.startup_path (h.readiness_path ∷ h.liveness_path ∷ [])) paths_not_distinct
    ∷ warns (c.prometheus_enabled && str_eq h.listen c.prometheus_listen) same_listen
    ∷ []

-- A client certificate is asked for.
abbrev pub mtls : AdminConfig → Bool
mtls a = a.tls_enabled && not (blank a.client_ca_file)

module _ (parse_url : Str → Option Url) where
  abbrev is_origin : Option Url → Bool
  is_origin none = false
  is_origin (some u) = not (is_empty u.scheme) && not (is_empty u.host)

  abbrev origin_checks : List Str → Checks
  origin_checks [] = []
  origin_checks (o ∷ os) =
      let any = str_eq o (lit "*") in
      warns any any_origin
      ∷ fails (not any && not (is_origin (parse_url o))) bad_origin
      ∷ origin_checks os

  -- `validateAdmin`, of an API that is enabled
  abbrev pub admin_checks : ServicesConfig → Checks
  admin_checks c =
      let a = c.admin in
      fails (blank a.listen) admin_listen
      ∷ fails (a.tls_enabled && (blank a.cert_file || blank a.key_file)) cert_required
      ∷ fails (not a.tls_enabled && not (blank a.client_ca_file)) client_ca_without_tls
      ∷ fails (a.auth_enabled && not a.has_credentials) no_credentials
      ∷ warns (not a.auth_enabled && not (mtls a)) fully_open
      ∷ warns (c.health.enabled && str_eq a.listen c.health.listen) same_listen
      ∷ warns (c.prometheus_enabled && str_eq a.listen c.prometheus_listen) same_listen
      ∷ origin_checks a.allowed_origins

-- `knownZerologLevels`
abbrev known_levels : List Str
known_levels =
    lit "trace"
    ∷ lit "debug"
    ∷ lit "info"
    ∷ lit "warn"
    ∷ lit "error"
    ∷ lit "fatal"
    ∷ lit "panic"
    ∷ lit "disabled"
    ∷ []

abbrev bad_level : Str → Bool
bad_level level = not (blank level) && not (mem_str (to_lower (trim_space level)) known_levels)

abbrev pub graphite_checks : ServicesConfig → Checks
graphite_checks c =
    fails (blank c.graphite_address) address_required
    ∷ fails (ltb_ℤ c.graphite_interval (pos 0)) negative_interval
    ∷ warns (not c.metrics_enabled) metrics_off
    ∷ []

abbrev pub cloudwatch_checks : ServicesConfig → Checks
cloudwatch_checks c =
    let w = c.cloudwatch in
    fails (w.logs_enabled && blank w.log_group) log_group_required
    ∷ fails (w.logs_enabled && bad_level w.level) unknown_level
    ∷ fails (w.logs_enabled && ltb_ℤ w.batch_interval (pos 0)) negative_batch_interval
    ∷ fails (w.metrics_enabled && ltb_ℤ w.interval (pos 0)) negative_interval
    ∷ warns (w.metrics_enabled && not c.metrics_enabled) metrics_off
    ∷ warns (not w.logs_enabled && not w.metrics_enabled) nothing_enabled
    ∷ []

module _ (parse_url : Str → Option Url) where
  -- From the health probes to CloudWatch.
  unfoldable pub check_services : ServicesConfig → List ServiceWarning × Option ServiceFault
  unfolding run_groups mem_str to_lower
  check_services c = run_groups (
      only_if c.health.enabled (health_checks c)
      ∷ only_if c.admin.enabled (admin_checks parse_url c)
      ∷ only_if c.graphite_enabled (graphite_checks c)
      ∷ only_if c.cloudwatch.enabled (cloudwatch_checks c)
      ∷ [])
