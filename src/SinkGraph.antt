-- ===== src/SinkGraph.antt =====
-- The sinks that a configuration declares: the checks of internal/config/validate.go on their names,
-- dead letters and composite children, and what cmd/rss2msg/wire.go links. The checks of each
-- driver's own settings are left out.
pub mod Cycle
pub mod Checked
use rss2msg.Prelude.{
  ℕ, zero, suc, ◌+◌, Str, lit, Bool, true, false, not, ◌&&◌, ◌||◌, Option, none, some, List, [],
  ◌∷◌, ◌++◌, length, is_empty, is_none, str_eq, if◌then◌else◌,
}
use rss2msg.Prelude.Int.{ℤ, pos, ltb_ℤ}
use rss2msg.Prelude.Map.{lookup, insert}
use rss2msg.Errors.{Err, other}
use rss2msg.Model.Space.{trim_space}
use rss2msg.Source.{FeedConfig, RetryConfig}

-- The fields of `config.SinkConfig` that these checks read.
pub record SinkConfig : Type 0 where
  pub name : Str
  pub driver : Str
  pub dead_letter : Str
  pub children : List Str

abbrev pub composite_driver : Str
composite_driver = lit "composite"

abbrev pub is_composite : SinkConfig → Bool
is_composite s = str_eq s.driver composite_driver

unfoldable pub mem_str : Str → List Str → Bool
mem_str x [] = false
mem_str x (y ∷ ys) = str_eq y x || mem_str x ys

-- `knownSinkDrivers`
abbrev known_sink_drivers : List Str
known_sink_drivers =
    lit "postgres"
    ∷ lit "kafka"
    ∷ lit "amqp091"
    ∷ lit "amqp10"
    ∷ lit "rabbitmq_stream"
    ∷ lit "sqs"
    ∷ lit "sns"
    ∷ lit "dynamodb"
    ∷ lit "stdout"
    ∷ lit "http"
    ∷ lit "grpc"
    ∷ lit "feed"
    ∷ lit "composite"
    ∷ lit "gcp_pubsub"
    ∷ lit "azureservicebus"
    ∷ lit "cosmosdb"
    ∷ lit "dapr_pubsub"
    ∷ lit "nats"
    ∷ []

-- What is wrong with a sink.
pub data Fault : Type 0 where
  name_required duplicate_name unknown_driver : Str → Fault
  dead_letter_on_composite dead_letter_self dead_letter_unknown dead_letter_feed : Str → Fault
  no_children : Str → Fault
  child_self child_unknown child_duplicate : Str → Str → Fault
  cyclic : Str → Str → Fault

-- The first loop over the sinks; `names` is what it has collected.
unfoldable pub check_names : List SinkConfig → List Str → Option Fault
unfolding mem_str
check_names [] names = none
check_names (s ∷ ss) names =
    let rest = check_names ss (s.name ∷ names) in
    if is_empty (trim_space s.name)
    then some (name_required s.name)
    else if mem_str s.name names
    then some (duplicate_name s.name)
    else if mem_str s.driver known_sink_drivers
    then rest
    else some (unknown_driver s.driver)

unfoldable pub sink_names : List SinkConfig → List Str
sink_names [] = []
sink_names (s ∷ ss) = s.name ∷ sink_names ss

-- `sinkDrivers`
unfoldable pub sink_drivers : List SinkConfig → List (Str × Str) → List (Str × Str)
sink_drivers [] m = m
sink_drivers (s ∷ ss) m = sink_drivers ss (insert s.name s.driver m)

-- `compositeChildren`
unfoldable pub composite_children : List SinkConfig → List (Str × List Str) → List (Str × List Str)
composite_children [] m = m
composite_children (s ∷ ss) m =
    composite_children ss (if is_composite s then insert s.name s.children m else m)

abbrev pub or_no_children : Option (List Str) → List Str
or_no_children none = []
or_no_children (some cs) = cs

-- What the depth-first search finds: nothing, or the path to a node that is on the stack, its end
-- first. The search has fuel, and `exhausted` says that there was not enough.
pub data Found : Type 0 where
  clear exhausted : Found
  cycle : List Str → Found

abbrev pub go_on : Found → Found → Found
go_on clear rest = rest
go_on exhausted rest = exhausted
go_on (cycle p) rest = cycle p

-- The loop over the children of the node at the end of `path`; `dfs` is the recursive call.
unfoldable pub walk : List (Str × List Str) → (Str → Found) → List Str → List Str → Found
unfolding mem_str
walk m dfs path [] = clear
walk m dfs path (c ∷ cs) =
    let rest = walk m dfs path cs in
    if is_none (lookup c m)
    then rest
    else if mem_str c path
    then cycle (c ∷ path)
    else go_on (dfs c) rest

unfoldable pub dfs : List (Str × List Str) → ℕ → Str → List Str → Found
unfolding walk
dfs m zero n path = exhausted
dfs m (suc fuel) n path =
    walk m (λ c. dfs m fuel c (n ∷ path)) (n ∷ path) (or_no_children (lookup n m))

-- strings.Join(path, " -> ") of a path with its end first.
unfoldable pub join_path : List Str → Str
join_path [] = []
join_path (c ∷ []) = c
join_path (c ∷ d ∷ ps) = join_path (d ∷ ps) ++ (lit " -> " ++ c)

abbrev pub cycle_text : Found → Str
cycle_text clear = []
cycle_text exhausted = lit " -> "
cycle_text (cycle p) = join_path p

-- `compositeCycle`
unfoldable pub composite_cycle : Str → List (Str × List Str) → Str
unfolding dfs join_path
composite_cycle start m = cycle_text (dfs m (suc (length m)) start [])

-- The loop over the children of a composite.
unfoldable pub check_children : Str → List Str → List Str → List Str → Option Fault
unfolding mem_str
check_children name names [] seen = none
check_children name names (c ∷ cs) seen =
    let rest = check_children name names cs (c ∷ seen) in
    if str_eq c name
    then some (child_self name c)
    else if not (mem_str c names)
    then some (child_unknown name c)
    else if mem_str c seen
    then some (child_duplicate name c)
    else rest

-- The checks of a composite's own case.
unfoldable pub check_composite : List Str → List (Str × List Str) → SinkConfig → Option Fault
unfolding check_children composite_cycle
check_composite names m s =
    if is_none_list s.children
    then some (no_children s.name)
    else or_else_cycle (check_children s.name names s.children [])
  where
    is_none_list : List Str → Bool
    is_none_list [] = true
    is_none_list (c ∷ cs) = false

    or_else_cycle : Option Fault → Option Fault
    or_else_cycle (some f) = some f
    or_else_cycle none =
        let path = composite_cycle s.name m in
        if is_empty path then none else some (cyclic s.name path)

-- The checks of one sink's dead letter.
unfoldable pub check_dead_letter : List Str → List (Str × Str) → SinkConfig → Option Fault
unfolding mem_str
check_dead_letter names drivers s =
    if is_empty s.dead_letter
    then none
    else if is_composite s
    then some (dead_letter_on_composite s.name)
    else if str_eq s.dead_letter s.name
    then some (dead_letter_self s.name)
    else if not (mem_str s.dead_letter names)
    then some (dead_letter_unknown s.dead_letter)
    else if is_feed (lookup s.dead_letter drivers)
    then some (dead_letter_feed s.dead_letter)
    else none
  where
    is_feed : Option Str → Bool
    is_feed none = false
    is_feed (some d) = str_eq d (lit "feed")

abbrev pub first_fault : Option Fault → Option Fault → Option Fault
first_fault (some f) rest = some f
first_fault none rest = rest

-- The second loop over the sinks.
unfoldable pub check_links :
    List Str → List (Str × Str) → List (Str × List Str) → List SinkConfig → Option Fault
unfolding check_dead_letter check_composite
check_links names drivers m [] = none
check_links names drivers m (s ∷ ss) = first_fault (check_dead_letter names drivers s) (
    first_fault (if is_composite s then check_composite names m s else none)
      (check_links names drivers m ss))

unfoldable pub check_sinks : List SinkConfig → Option Fault
unfolding check_names check_links sink_names sink_drivers composite_children
check_sinks ss =
    first_fault (check_names ss [])
      (check_links (sink_names ss) (sink_drivers ss []) (composite_children ss []) ss)

-- `ResolveFeedSinks`
unfoldable pub resolve_feed_sinks : FeedConfig → List Str
resolve_feed_sinks f = elim f.sinks [ [] ↦ lit "default" ∷ [] | s ∷ ss ↦ s ∷ ss ]

-- `validateRetry`; the faults in the order of its returns.
pub data RetryFault : Type 0 where
  negative_attempts negative_base negative_max max_below_base : RetryFault

unfoldable pub validate_retry : RetryConfig → Option RetryFault
validate_retry r =
    if ltb_ℤ r.max_attempts (pos 0)
    then some negative_attempts
    else if ltb_ℤ r.base_delay (pos 0)
    then some negative_base
    else if ltb_ℤ r.max_delay (pos 0)
    then some negative_max
    else if ltb_ℤ (pos 0) r.max_delay
        && ltb_ℤ (pos 0) r.base_delay
        && ltb_ℤ r.max_delay r.base_delay
    then some max_below_base
    else none
