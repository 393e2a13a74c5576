-- ===== src/FeedCheck.antt =====
-- internal/config/validate.go: the checks on the declared feeds and on the default retry policy of
-- a fetch. How a header's name is put in canonical form is a parameter.
pub mod Accepted
use rss2msg.Prelude.{
  ℕ, suc, Str, lit, Bool, true, false, not, ◌||◌, ◌&&◌, Option, none, some, List, [], ◌∷◌, is_empty,
  str_eq, if◌then◌else◌,
}
use rss2msg.Prelude.Int.{ℤ, pos, ltb_ℤ, leb_ℤ}
use rss2msg.Model.Space.{trim_space}
use rss2msg.Source.{FeedConfig, RetryConfig}
use rss2msg.SinkGraph.{mem_str, RetryFault, validate_retry}

-- What is wrong; the number is that of the feed.
pub data FeedFault : Type 0 where
  default_retry : RetryFault → FeedFault
  heartbeat_interval no_feeds : FeedFault
  url_required interval_too_short no_default_sink : ℕ → FeedFault
  unknown_sink reserved_header : ℕ → Str → FeedFault
  feed_retry : ℕ → RetryFault → FeedFault

-- time.Second
abbrev pub second : ℤ
second = pos 1_000_000_000

abbrev pub default_sink : Str
default_sink = lit "default"

unfoldable pub check_sink_names : ℕ → List Str → List Str → Option FeedFault
unfolding mem_str
check_sink_names i names [] = none
check_sink_names i names (s ∷ ss) =
    let rest = check_sink_names i names ss in
    if mem_str s names then rest else some (unknown_sink i s)

abbrev pub then_check : Option FeedFault → Option FeedFault → Option FeedFault
then_check (some f) rest = some f
then_check none rest = rest

abbrev pub retry_fault : ℕ → Option RetryFault → Option FeedFault
retry_fault i none = none
retry_fault i (some f) = some (feed_retry i f)

abbrev pub default_retry_fault : Option RetryFault → Option FeedFault
default_retry_fault none = none
default_retry_fault (some f) = some (default_retry f)

-- `len(f.Sinks) == 0`, with no sink of the default name.
abbrev pub lacks_default : List Str → List Str → Bool
lacks_default names [] = not (mem_str default_sink names)
lacks_default names (s ∷ ss) = false

abbrev pub is_nil {ℓ} : {A : Type ℓ} → List A → Bool
is_nil [] = true
is_nil (x ∷ xs) = false

module _ (canonical : Str → Str) where
  -- `reservedHeaders`
  abbrev pub reserved : List Str
  reserved = canonical (lit "If-Modified-Since") ∷ canonical (lit "If-None-Match") ∷ []

  unfoldable pub check_headers : ℕ → List (Str × Str) → Option FeedFault
  unfolding mem_str
  check_headers i [] = none
  check_headers i ((h, v) ∷ hs) =
      let rest = check_headers i hs in
      if mem_str (canonical h) reserved then some (reserved_header i h) else rest

  -- The body of the loop over the feeds.
  unfoldable pub check_feed : List Str → ℕ → FeedConfig → Option FeedFault
  unfolding check_sink_names check_headers validate_retry mem_str
  check_feed names i f =
      if is_empty (trim_space f.url)
      then some (url_required i)
      else if ltb_ℤ f.interval second
      then some (interval_too_short i)
      else if lacks_default names f.sinks
      then some (no_default_sink i)
      else then_check (check_sink_names i names f.sinks)
          (then_check (check_headers i f.headers) (retry_fault i (validate_retry f.retry)))

  unfoldable pub check_feeds_from : List Str → ℕ → List FeedConfig → Option FeedFault
  unfolding check_feed
  check_feeds_from names i [] = none
  check_feeds_from names i (f ∷ fs) =
      then_check (check_feed names i f) (check_feeds_from names (suc i) fs)

  -- From the default retry policy to the end of the loop over the feeds; `names` are the declared
  -- sinks, and `has_sources` says whether any feed source is declared.
  unfoldable pub check_feeds :
      List Str → RetryConfig → Bool → ℤ → Bool → List FeedConfig → Option FeedFault
  unfolding check_feeds_from validate_retry
  check_feeds names retry heartbeat_enabled heartbeat_interval' has_sources feeds =
      then_check (default_retry_fault (validate_retry retry)) (
        if heartbeat_enabled && leb_ℤ heartbeat_interval' (pos 0)
        then some heartbeat_interval
        else if is_nil feeds && not has_sources
        then some no_feeds
        else check_feeds_from names 0 feeds)
