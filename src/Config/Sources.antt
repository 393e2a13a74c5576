-- ===== src/Config/Sources.antt =====
-- The checks of internal/config/validate.go on the feed sources, on the TLS of the sinks, and on the
-- schema registry of a Kafka sink. The syntax of label selectors, the canonical form of a header's
-- name and the look for a file are parameters.
use rss2msg.Prelude.{
  Str, lit, Bool, true, not, ◌&&◌, Option, none, some, List, [], ◌∷◌, ◌++◌, is_empty, if◌then◌else◌,
}
use rss2msg.Prelude.Int.{ℤ, pos, ltb_ℤ}
use rss2msg.SinkGraph.{mem_str}
use rss2msg.FeedCheck.{reserved}
use rss2msg.Config.{Check, fails, run_checks}
use rss2msg.Config.Tls.{half_pair, differ}
use rss2msg.Config.State.{blank}
use rss2msg.Config.Coordination.{below_second}
use rss2msg.Config.FeedSinkCheck.{is_valid_pg_identifier}

-- The settings of a feed source, by its type; `typed` is any other type.
pub data SourceSettings : Type 0 where
  static : SourceSettings
  -- path
  file : Str → SourceSettings
  -- dsn, table, query
  postgres : Str → Str → Str → SourceSettings
  -- url, cert_file, key_file, timeout, the names of headers
  http : Str → Str → Str → ℤ → List Str → SourceSettings
  -- label_selector, resync_interval
  kubernetes : Str → ℤ → SourceSettings
  typed : Str → SourceSettings

pub data SourceFault : Type 0 where
  path_required dsn_required table_and_query invalid_table url_required pair : SourceFault
  negative_timeout reserved_header invalid_selector resync_short type_required : SourceFault
  unsupported_type interval_short : SourceFault

abbrev Checks : Type 0
Checks = List (Check SourceFault Str)

-- `validSQLIdentifier`, which has the text of isValidPGIdentifier.
abbrev valid_sql_identifier : Str → Bool
valid_sql_identifier s = is_valid_pg_identifier s

module _ (canonical : Str → Str) (selector_ok : Str → Bool) where
  abbrev header_checks : List Str → Checks
  header_checks [] = []
  header_checks (h ∷ hs) =
      fails (mem_str (canonical h) (reserved canonical)) reserved_header ∷ header_checks hs

  -- The switch on the type.
  abbrev source_checks : SourceSettings → Checks
  source_checks static = []
  source_checks (file path) = fails (blank path) path_required ∷ []
  source_checks (postgres dsn table query) =
      fails (blank dsn) dsn_required
      ∷ fails (not (is_empty table) && not (is_empty query)) table_and_query
      ∷ fails (not (is_empty table) && not (valid_sql_identifier table)) invalid_table
      ∷ []
  source_checks (http url cert_file key_file timeout headers) =
      fails (blank url) url_required
      ∷ fails (half_pair cert_file key_file) pair
      ∷ fails (ltb_ℤ timeout (pos 0)) negative_timeout
      ∷ header_checks headers
  source_checks (kubernetes selector resync) =
      fails (not (is_empty selector) && not (selector_ok selector)) invalid_selector
      ∷ fails (below_second resync) resync_short
      ∷ []
  source_checks (typed name) =
      fails (is_empty name) type_required ∷ fails true unsupported_type ∷ []

  -- The body of the loop over the feed sources, with the interval of the source.
  unfoldable pub check_source : SourceSettings → ℤ → Option SourceFault
  unfolding run_checks mem_str
  check_source s interval =
      (run_checks (source_checks s ++ (fails (below_second interval) interval_short ∷ []))).1

pub record SchemaRegistry : Type 0 where
  pub url : Str
  pub format : Str
  pub schema_file : Str
  pub username : Str
  pub password : Str
  pub cert_file : Str
  pub key_file : Str

pub data RegistryFault : Type 0 where
  format_without_url format_required format_invalid file_missing basic_pair tls_pair : RegistryFault

module _ (file_exists : Str → Bool) where
  abbrev registry_checks : SchemaRegistry → List (Check RegistryFault Str)
  registry_checks r =
      let known = mem_str r.format (lit "json" ∷ lit "avro" ∷ lit "protobuf" ∷ []) in
      fails (is_empty r.format) format_required
      ∷ fails (not known) format_invalid
      ∷ fails (not (is_empty r.schema_file) && not (file_exists r.schema_file)) file_missing
      ∷ fails (differ (is_empty r.username) (is_empty r.password)) basic_pair
      ∷ fails (half_pair r.cert_file r.key_file) tls_pair
      ∷ []

  -- The pass of the loop over the sinks for a Kafka sink.
  unfoldable check_registry : SchemaRegistry → Option RegistryFault
  unfolding run_checks mem_str
  check_registry r =
      if is_empty r.url
      then (if is_empty r.format then none else some format_without_url)
      else (run_checks (registry_checks r)).1

-- The drivers with a block of TLS for the client.
abbrev tls_drivers : List Str
tls_drivers =
    lit "postgres"
    ∷ lit "kafka"
    ∷ lit "amqp091"
    ∷ lit "amqp10"
    ∷ lit "rabbitmq_stream"
    ∷ lit "http"
    ∷ lit "nats"
    ∷ lit "grpc"
    ∷ []

-- A driver's block has only one of the two files.
unfoldable sink_tls_fails : Str → Str → Str → Bool
unfolding mem_str
sink_tls_fails driver cert_file key_file =
    mem_str driver tls_drivers && half_pair cert_file key_file
