-- ===== src/Source.antt =====
-- internal/feedsource: the feeds that several sources contribute, merged by URL (aggregator.go and
-- snapshot.go), and the configuration of one feed (internal/config/config.go).
pub mod Merge
pub mod Stale
pub mod Spec
use rss2msg.Prelude.{
  Str, lit, quoted, Bool, true, false, ◌||◌, Option, none, some, List, [], ◌∷◌, ◌++◌, str_eq,
  if◌then◌else◌,
}
use rss2msg.Prelude.Int.{ℤ}
use rss2msg.Prelude.Map.{lookup, insert}
use rss2msg.Errors.{Err, wrap, Result, ok, err}

-- `config.RetryConfig`
pub record RetryConfig : Type 0 where
  pub max_attempts : ℤ
  pub base_delay : ℤ
  pub max_delay : ℤ

-- `config.FeedConfig` and its `FeedHTTPConfig`; the headers in the order of their names.
pub record FeedConfig : Type 0 where
  pub url : Str
  pub interval : ℤ
  pub sinks : List Str
  pub timeout : ℤ
  pub headers : List (Str × Str)
  pub retry : RetryConfig

-- What one source answered: its name, and the feeds or an error.
abbrev pub Answer : Type 0
Answer = Str × Result (List FeedConfig)

-- `_, dup := seen[fc.URL]`
unfoldable pub is_dup : Str → List FeedConfig → Bool
is_dup url [] = false
is_dup url (fc ∷ merged) = str_eq fc.url url || is_dup url merged

-- The inner loop of both merges; `seen` is the set of the URLs of `merged`.
unfoldable pub add_feeds : List FeedConfig → List FeedConfig → List FeedConfig
unfolding is_dup
add_feeds merged [] = merged
add_feeds merged (fc ∷ fcs) =
    add_feeds (if is_dup fc.url merged then merged else merged ++ fc ∷ []) fcs

-- `lastGood`, by source name.
abbrev pub LastGood : Type 0
LastGood = List (Str × List FeedConfig)

abbrev pub or_nil : Option (List FeedConfig) → List FeedConfig
or_nil none = []
or_nil (some fs) = fs

-- The feeds that a source contributes, and what is remembered of it.
unfoldable pub contribution : Str → Result (List FeedConfig) → LastGood → List FeedConfig × LastGood
contribution name (err e) good = (or_nil (lookup name good), good)
contribution name (ok fs) good = (fs, insert name fs good)

-- The merging loop of `Desired`, over the answers in source order.
unfoldable pub desired_loop : List FeedConfig → List Answer → LastGood → List FeedConfig × LastGood
unfolding add_feeds contribution
desired_loop merged [] good = (merged, good)
desired_loop merged ((name, r) ∷ rs) good =
    let (fs, good') = contribution name r good in desired_loop (add_feeds merged fs) rs good'

unfoldable pub desired : List Answer → LastGood → List FeedConfig × LastGood
unfolding desired_loop
desired answers good = desired_loop [] answers good

-- `Snapshot`: the first error ends it.
unfoldable pub snapshot_loop : List FeedConfig → List Answer → Result (List FeedConfig)
unfolding add_feeds
snapshot_loop merged [] = ok merged
snapshot_loop merged ((name, err e) ∷ rs) =
    err (wrap (lit "feed source " ++ (quoted name ++ lit ": ")) e)
snapshot_loop merged ((name, ok fs) ∷ rs) = snapshot_loop (add_feeds merged fs) rs

unfoldable pub snapshot : List Answer → Result (List FeedConfig)
unfolding snapshot_loop
snapshot answers = snapshot_loop [] answers
