-- ===== src/Config/State.antt =====
-- The checks of internal/config/validate.go on the state store and its retention.
use rss2msg.Prelude.{Str, lit, Bool, not, ◌&&◌, Option, List, [], ◌∷◌, ◌++◌, is_empty, str_eq}
use rss2msg.Prelude.Int.{ℤ, pos, ltb_ℤ, leb_ℤ}
use rss2msg.Model.Space.{trim_space}
use rss2msg.SinkGraph.{mem_str}
use rss2msg.Config.{Check, fails, warns, run_groups}
use rss2msg.Config.Tls.{TlsConfig, tls_configured, half_pair}

-- The settings of the state store, with those of each driver side by side.
pub record StateConfig : Type 0 where
  pub driver : Str
  pub item_ttl : ℤ
  pub sqlite_path : Str
  pub sqlite_cleanup : ℤ
  pub postgres_dsn : Str
  pub postgres_tls : TlsConfig
  pub postgres_cleanup : ℤ
  pub dynamodb_table : Str
  pub ttl_attribute : Str
  pub cosmosdb_endpoint : Str
  pub connection_string : Str
  pub cosmosdb_database : Str

pub data StateFault : Type 0 where
  unsupported_driver dsn_required tls_disabled tls_pair path_required table_required : StateFault
  endpoint_or_connection endpoint_and_connection database_required : StateFault
  negative_item_ttl negative_cleanup cleanup_without_ttl ttl_attribute_required : StateFault

pub data StateWarning : Type 0 where
  short_item_ttl : StateWarning

-- `knownStateDrivers`
abbrev known_state_drivers : List Str
known_state_drivers = lit "postgres" ∷ lit "sqlite" ∷ lit "dynamodb" ∷ lit "cosmosdb" ∷ []

abbrev pub blank : Str → Bool
blank s = is_empty (trim_space s)

abbrev hour : ℤ
hour = pos 3_600_000_000_000

-- The pass of the loop over the drivers with a sweep that is not skipped.
abbrev cleanup_checks : Bool → ℤ → ℤ → List (Check StateFault StateWarning)
cleanup_checks active interval item_ttl =
    fails (active && ltb_ℤ interval (pos 0)) negative_cleanup
    ∷ fails
        (active && (ltb_ℤ (pos 0) interval && (leb_ℤ item_ttl (pos 0) && leb_ℤ (pos 0) item_ttl)))
        cleanup_without_ttl
    ∷ []

module _ (ssl_disabled : Str → Bool) where
  abbrev driver_checks : StateConfig → List (Check StateFault StateWarning)
  driver_checks s =
      let postgres = str_eq s.driver (lit "postgres") in
      let sqlite = str_eq s.driver (lit "sqlite") in
      let dynamodb = str_eq s.driver (lit "dynamodb") in
      let cosmosdb = str_eq s.driver (lit "cosmosdb") in
      fails (not (mem_str s.driver known_state_drivers)) unsupported_driver
      ∷ fails (postgres && blank s.postgres_dsn) dsn_required
      ∷ fails
          (postgres && (tls_configured s.postgres_tls && ssl_disabled (trim_space s.postgres_dsn)))
          tls_disabled
      ∷ fails (postgres && half_pair s.postgres_tls.cert_file s.postgres_tls.key_file) tls_pair
      ∷ fails (sqlite && blank s.sqlite_path) path_required
      ∷ fails (dynamodb && blank s.dynamodb_table) table_required
      ∷ fails (cosmosdb && (blank s.cosmosdb_endpoint && blank s.connection_string))
          endpoint_or_connection
      ∷ fails (cosmosdb && (not (blank s.cosmosdb_endpoint) && not (blank s.connection_string)))
          endpoint_and_connection
      ∷ fails (cosmosdb && blank s.cosmosdb_database) database_required
      ∷ []

  abbrev retention_checks : StateConfig → List (Check StateFault StateWarning)
  retention_checks s =
      fails (ltb_ℤ s.item_ttl (pos 0)) negative_item_ttl
      ∷ (cleanup_checks (str_eq s.driver (lit "sqlite")) s.sqlite_cleanup s.item_ttl
          ++ (cleanup_checks (str_eq s.driver (lit "postgres")) s.postgres_cleanup s.item_ttl
              ++ (fails
                    (str_eq s.driver (lit "dynamodb")
                      && (ltb_ℤ (pos 0) s.item_ttl && blank s.ttl_attribute))
                    ttl_attribute_required
                  ∷ warns (ltb_ℤ (pos 0) s.item_ttl && ltb_ℤ s.item_ttl hour) short_item_ttl
                  ∷ [])))

  unfoldable pub check_state : StateConfig → List StateWarning × Option StateFault
  unfolding run_groups mem_str
  check_state s = run_groups (driver_checks s ∷ retention_checks s ∷ [])
