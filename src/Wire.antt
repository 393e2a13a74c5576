-- ===== src/Wire.antt =====
-- cmd/rss2msg/wire.go: `wrapSink` and `linkComposites`, which turn the declared sinks into
-- publishers. The source links pointers in a registry; here the publisher of a name is unfolded, to a
-- depth that is given as fuel, and `none` says that the depth was not enough or a name is unknown.
pub mod Finite
pub mod Checked
pub mod Linked
pub mod Follow
pub mod Endless
use rss2msg.Prelude.{
  ℕ, zero, suc, Str, lit, Bool, true, false, Option, none, some, List, [], ◌∷◌, is_empty, str_eq,
  if◌then◌else◌,
}
use rss2msg.Prelude.Int.{ℤ, pos}
use rss2msg.Retry.{Config}
use rss2msg.SinkGraph.{SinkConfig, is_composite}
use rss2msg.Sink.{
  Publisher, leaf, composite, Branches, no_branch, branch, RetryingPublisher, with_retry,
  DeadLetter, no_dlq, dlq_to,
}

-- `findSink`, and whether the registry has the name: every declared sink is built and added.
unfoldable pub find_sink : Str → List SinkConfig → Option SinkConfig
find_sink name [] = none
find_sink name (s ∷ ss) = if str_eq s.name name then some s else find_sink name ss

-- `retry.Config{MaxAttempts: 1}`
abbrev pass_through : Config
pass_through = record {
  max_attempts = pos 1;
  base_delay = pos 0;
  max_delay = pos 0;
  retryable = none;
}

abbrev with_dead_letter : Config → ℤ → Publisher → Option Publisher → Option RetryingPublisher
with_dead_letter retry timeout primary none = none
with_dead_letter retry timeout primary (some d) = some (with_retry primary (dlq_to d) retry timeout)

abbrev pub add_branch : Str → Option RetryingPublisher → Option Branches → Option Branches
add_branch child none bs = none
add_branch child (some r) none = none
add_branch child (some r) (some bs) = some (branch child r bs)

abbrev pub as_composite : Str → Option Branches → Option Publisher
as_composite name none = none
as_composite name (some bs) = some (composite name bs)

-- `cfg.Retry` and `cfg.Runtime.DeliverTimeout`.
module _ (sinks : List SinkConfig) (retry : Config) (timeout : ℤ) where
  -- A dead letter that is not in the registry is nil.
  abbrev wrap_leaf : (Str → Option Publisher) → SinkConfig → Publisher → Option RetryingPublisher
  wrap_leaf get s primary =
      if is_empty s.dead_letter
      then some (with_retry primary no_dlq retry timeout)
      else elim (find_sink s.dead_letter sinks) [
        | none ↦ some (with_retry primary no_dlq retry timeout)
        | some d ↦ with_dead_letter retry timeout primary (get s.dead_letter)
      ]

  abbrev pub wrap_found :
      (Str → Option Publisher) → Option SinkConfig → Option Publisher → Option RetryingPublisher
  wrap_found get none primary = none
  wrap_found get (some s) none = none
  wrap_found get (some s) (some primary) =
      if is_composite s
      then some (with_retry primary no_dlq pass_through timeout)
      else wrap_leaf get s primary

  -- `wrapSink`, with the registry as `get`.
  unfoldable pub wrap_sink : (Str → Option Publisher) → Str → Option RetryingPublisher
  unfolding find_sink
  wrap_sink get name = wrap_found get (find_sink name sinks) (get name)

  -- The loop over the children of one composite.
  unfoldable pub link_branches : (Str → Option Publisher) → List Str → Option Branches
  unfolding wrap_sink
  link_branches get [] = some no_branch
  link_branches get (c ∷ cs) = add_branch c (wrap_sink get c) (link_branches get cs)

  abbrev pub build : (Str → Option Publisher) → Str → Option SinkConfig → Option Publisher
  build get name none = none
  build get name (some s) =
      if is_composite s then as_composite name (link_branches get s.children) else some (leaf name)

  -- `linkComposites` over the registry, seen from one name.
  unfoldable pub link : ℕ → Str → Option Publisher
  unfolding find_sink link_branches
  link zero name = none
  link (suc fuel) name = build (link fuel) name (find_sink name sinks)
