-- ===== src/Config/SinkDrivers.antt =====
-- The checks of internal/config/validate.go on the settings of each sink's driver, but for those of
-- the feed sink and of a composite. What net/url finds in a URL is a parameter.
use rss2msg.Prelude.{
  ℕ, ◌+◌, Str, lit, Bool, true, false, not, ◌||◌, ◌&&◌, Option, none, some, List, [], ◌∷◌, ◌++◌,
  is_empty, str_eq, ltb,
}
use rss2msg.Prelude.Bytes.{to_lower, starts_with}
use rss2msg.Prelude.Int.{ℤ, pos, ltb_ℤ}
use rss2msg.SinkGraph.{mem_str}
use rss2msg.Model.Space.{trim_space}
use rss2msg.Config.{Check, fails, run_checks}
use rss2msg.Config.Tls.{differ}
use rss2msg.Config.State.{blank}
use rss2msg.Config.Coordination.{Url, is_zero}

-- The settings of a driver, as far as they are checked.
pub data DriverConfig : Type 0 where
  -- queue_url, message_group
  sqs : Str → Str → DriverConfig
  -- topic_arn, message_group
  sns : Str → Str → DriverConfig
  -- table, ttl_attribute, item_ttl
  dynamodb : Str → Str → ℤ → DriverConfig
  -- project_id, topic_id, ordering_key
  gcp_pubsub : Str → Str → Str → DriverConfig
  -- target, format
  stdout : Str → Str → DriverConfig
  -- url, method, http3, success_codes
  http : Str → Str → Bool → List ℤ → DriverConfig
  -- target, timeout, the keys of metadata
  grpc : Str → ℤ → List Str → DriverConfig
  -- url, exchange_type, declare, exchange
  amqp091 : Str → Str → Bool → Str → DriverConfig
  -- url, target
  amqp10 : Str → Str → DriverConfig
  -- stream, uris, url
  rabbitmq_stream : Str → List Str → Str → DriverConfig
  -- connection_string, namespace, queue, topic
  azureservicebus : Str → Str → Str → Str → DriverConfig
  -- endpoint, connection_string, database, throughput
  cosmosdb : Str → Str → Str → ℤ → DriverConfig
  -- pubsub_name, topic
  dapr_pubsub : Str → Str → DriverConfig
  -- url, subject, username, password, token, creds_file
  nats : Str → Str → Str → Str → Str → Str → DriverConfig
  -- a driver without checks of its own
  unchecked : DriverConfig

pub data DriverFault : Type 0 where
  required : Str → DriverFault
  unknown_group group_needs_fifo ttl_without_attribute unknown_key unknown_target : DriverFault
  unknown_format invalid_url http3_needs_https unknown_method code_out_of_range : DriverFault
  negative_timeout empty_metadata_key reserved_metadata_key unknown_exchange_type : DriverFault
  declare_without_exchange one_required exclusive negative_throughput : DriverFault
  password_pair two_credentials : DriverFault

abbrev Checks : Type 0
Checks = List (Check DriverFault Str)

-- A setting that must not be blank.
abbrev need : Str → Str → Check DriverFault Str
need name value = fails (blank value) (required name)

-- `knownSQSMessageGroups` and `knownGCPPubSubOrderingKeys`
abbrev known_keys : List Str
known_keys = lit "feed_url" ∷ lit "item_id" ∷ lit "sink" ∷ []

abbrev known_exchange_types : List Str
known_exchange_types = lit "direct" ∷ lit "topic" ∷ lit "fanout" ∷ lit "headers" ∷ []

abbrev set_and_unknown : Str → List Str → Bool
set_and_unknown s known = not (is_empty s) && not (mem_str s known)

unfoldable ends_with : Str → Str → Bool
ends_with suffix [] = is_empty suffix
ends_with suffix (c ∷ s) = str_eq suffix (c ∷ s) || ends_with suffix s

abbrev fifo_checks : Str → Str → Checks
fifo_checks address group =
    fails (set_and_unknown group known_keys) unknown_group
    ∷ fails (not (is_empty group) && not (ends_with (lit ".fifo") address)) group_needs_fifo
    ∷ []

-- Neither of two settings, or both.
abbrev one_of : Str → Str → Checks
one_of a b =
    fails (blank a && blank b) one_required ∷ fails (not (blank a) && not (blank b)) exclusive ∷ []

unfoldable out_of_range : List ℤ → Bool
out_of_range [] = false
out_of_range (c ∷ cs) = (ltb_ℤ c (pos 100) || ltb_ℤ (pos 599) c) || out_of_range cs

abbrev metadata_checks : List Str → Checks
metadata_checks [] = []
metadata_checks (k ∷ ks) =
    let l = to_lower (trim_space k) in
    fails (is_empty l) empty_metadata_key
    ∷ fails
        (starts_with (lit ":") l || (starts_with (lit "grpc-") l || str_eq l (lit "content-type")))
        reserved_metadata_key
    ∷ metadata_checks ks

abbrev count : Bool → ℕ
count true = 1
count false = 0

abbrev no_uris : List Str → Bool
no_uris [] = true
no_uris (u ∷ us) = false

module _ (parse_url : Str → Option Url) where
  abbrev is_http_url : Option Url → Bool
  is_http_url none = false
  is_http_url (some u) =
      (str_eq u.scheme (lit "http") || str_eq u.scheme (lit "https")) && not (is_empty u.host)

  abbrev is_https : Option Url → Bool
  is_https none = false
  is_https (some u) = str_eq u.scheme (lit "https")

  -- The switch on the driver.
  unfoldable driver_checks : DriverConfig → Checks
  unfolding to_lower starts_with mem_str ends_with out_of_range
  driver_checks (sqs queue_url group) =
      need (lit "sqs.queue_url") queue_url ∷ fifo_checks queue_url group
  driver_checks (sns topic_arn group) =
      need (lit "sns.topic_arn") topic_arn ∷ fifo_checks topic_arn group
  driver_checks (dynamodb table ttl_attribute item_ttl) =
      need (lit "dynamodb.table") table
      ∷ fails (blank ttl_attribute && not (is_zero item_ttl)) ttl_without_attribute
      ∷ []
  driver_checks (gcp_pubsub project_id topic_id ordering_key) =
      need (lit "gcp_pubsub.project_id") project_id
      ∷ need (lit "gcp_pubsub.topic_id") topic_id
      ∷ fails (set_and_unknown ordering_key known_keys) unknown_key
      ∷ []
  driver_checks (stdout target format) =
      fails (set_and_unknown target (lit "stdout" ∷ lit "stderr" ∷ [])) unknown_target
      ∷ fails (set_and_unknown format (lit "json" ∷ lit "pretty" ∷ [])) unknown_format
      ∷ []
  driver_checks (http url method http3 success_codes) =
      let u = parse_url (trim_space url) in
      need (lit "http.url") url
      ∷ fails (not (is_http_url u)) invalid_url
      ∷ fails (http3 && not (is_https u)) http3_needs_https
      ∷ fails (set_and_unknown method (lit "POST" ∷ lit "PUT" ∷ [])) unknown_method
      ∷ fails (out_of_range success_codes) code_out_of_range
      ∷ []
  driver_checks (grpc target timeout metadata) =
      need (lit "grpc.target") target
      ∷ fails (ltb_ℤ timeout (pos 0)) negative_timeout
      ∷ metadata_checks metadata
  driver_checks (amqp091 url exchange_type declare exchange) =
      need (lit "amqp091.url") url
      ∷ fails (set_and_unknown exchange_type known_exchange_types) unknown_exchange_type
      ∷ fails (declare && blank exchange) declare_without_exchange
      ∷ []
  driver_checks (amqp10 url target) =
      need (lit "amqp10.url") url ∷ need (lit "amqp10.target") target ∷ []
  driver_checks (rabbitmq_stream stream uris url) =
      need (lit "rabbitmq_stream.stream") stream
      ∷ fails (no_uris uris && blank url) (required (lit "rabbitmq_stream.uris"))
      ∷ []
  driver_checks (azureservicebus connection_string namespace queue topic) =
      one_of connection_string namespace ++ one_of queue topic
  driver_checks (cosmosdb endpoint connection_string database throughput) =
      one_of endpoint connection_string
      ++ (need (lit "cosmosdb.database") database
          ∷ fails (ltb_ℤ throughput (pos 0)) negative_throughput
          ∷ [])
  driver_checks (dapr_pubsub pubsub_name topic) =
      need (lit "dapr_pubsub.pubsub_name") pubsub_name ∷ need (lit "dapr_pubsub.topic") topic ∷ []
  driver_checks (nats url subject username password token creds_file) =
      need (lit "nats.url") url
      ∷ need (lit "nats.subject") subject
      ∷ fails (differ (blank username) (blank password)) password_pair
      ∷ fails
          (ltb 1 (
            count (not (blank token))
            + (count (not (blank username)) + count (not (blank creds_file)))))
          two_credentials
      ∷ []
  driver_checks unchecked = []

  unfoldable pub check_driver : DriverConfig → Option DriverFault
  unfolding run_checks driver_checks
  check_driver d = (run_checks (driver_checks d)).1
