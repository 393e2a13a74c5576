-- ===== src/Tests/Sources.antt =====
-- Two sources that share a URL, and the reconciles of what they contribute.
use rss2msg.Prelude.{ℕ, ◌≡◌, refl, Str, lit, true, false, Option, none, some, List, [], ◌∷◌, str_eq}
use rss2msg.Prelude.Int.{pos}
use rss2msg.Prelude.Map.{lookup}
use rss2msg.Errors.{Err, ok}
use rss2msg.Source.{FeedConfig, Answer, desired, snapshot}
use rss2msg.Source.Merge.{find, DistinctUrls, contributions, desired_first_wins}
use rss2msg.Schedule.Serve.{in_force, serve_tracks}
use rss2msg.Schedule.{
  Event, changes, poll_now, serve, serve_step, Running, Feeds, reconcile, aborted, applied,
}
use rss2msg.Schedule.Reconcile.{config_of, wanted, reconcile_exact, reconcile_undisturbed}
use rss2msg.Tests.Fixtures.{url, feed_config}

abbrev hourly : FeedConfig
hourly = feed_config url (pos 60)

abbrev daily : FeedConfig
daily = feed_config url (pos 1440)

abbrev other_feed : FeedConfig
other_feed = feed_config (lit "v") (pos 60)

abbrev answers : List Answer
answers = (lit "static", ok (hourly ∷ [])) ∷ (lit "poll", ok (daily ∷ other_feed ∷ [])) ∷ []

merged : (desired answers []).0 ≡ hourly ∷ other_feed ∷ []
unfolding desired str_eq
merged = refl

desired_first_wins_example :
    DistinctUrls (desired answers []).0
    × (find url (desired answers []).0 ≡ find url (contributions answers []))
desired_first_wins_example = desired_first_wins answers [] url

snapshot_merged : snapshot answers ≡ ok (hourly ∷ other_feed ∷ [])
unfolding snapshot str_eq
snapshot_merged = refl

abbrev builds : FeedConfig → Option Err
builds fc = none

-- `url` runs as it is wanted, `w` is not wanted any more, and `v` is new.
abbrev before : Feeds
before = record {
  running =
      (url, record { cfg = hourly; serial = 0; poked = false })
      ∷ (lit "w", record { cfg = feed_config (lit "w") (pos 60); serial = 1; poked = false })
      ∷ [];
  started = 2;
}

abbrev after : Feeds
after = record {
  running =
      (url, record { cfg = hourly; serial = 0; poked = false })
      ∷ (lit "v", record { cfg = other_feed; serial = 2; poked = false })
      ∷ [];
  started = 3;
}

reconciled : reconcile builds (ok (hourly ∷ other_feed ∷ [])) before ≡ (applied 1 1 0, after)
unfolding reconcile str_eq rss2msg.Prelude.Map.insert lookup rss2msg.Schedule.feed_config_discrete
    native.Mathlib.Decide.ℕ_discrete rss2msg.Prelude.Map.filter_keys
reconciled = refl

reconcile_exact_example :
    config_of (lookup (lit "v") after.running)
    ≡ lookup (lit "v") (wanted (hourly ∷ other_feed ∷ []))
reconcile_exact_example =
    reconcile_exact builds (hourly ∷ other_feed ∷ []) before after 1 1 0 reconciled (lit "v")

url_runs : lookup url before.running ≡ some (record { cfg = hourly; serial = 0; poked = false })
unfolding lookup str_eq
url_runs = refl

url_wanted : lookup url (wanted (hourly ∷ other_feed ∷ [])) ≡ some hourly
unfolding lookup str_eq rss2msg.Schedule.by_url rss2msg.Prelude.Map.insert
url_wanted = refl

reconcile_undisturbed_example :
    lookup url after.running ≡ some (record { cfg = hourly; serial = 0; poked = false })
reconcile_undisturbed_example =
    reconcile_undisturbed builds (hourly ∷ other_feed ∷ []) before after 1 1 0 reconciled url
      (record { cfg = hourly; serial = 0; poked = false }) url_runs url_wanted

-- A feed with no interval aborts.
abbrev bad : List FeedConfig
bad = other_feed ∷ feed_config (lit "z") (pos 0) ∷ []

-- A first list, a poll on demand, and a list that aborts.
abbrev day : List Event
day = changes builds (ok (hourly ∷ other_feed ∷ [])) ∷ poll_now url ∷ changes builds (ok bad) ∷ []

abbrev nothing : Feeds
nothing = record { running = []; started = 0 }

still_running : in_force day nothing [] ≡ hourly ∷ other_feed ∷ []
unfolding in_force reconcile serve_step str_eq rss2msg.Prelude.Map.insert lookup
    rss2msg.Prelude.Map.filter_keys rss2msg.Schedule.feed_config_discrete
    native.Mathlib.Decide.ℕ_discrete
still_running = refl

serve_tracks_example :
    config_of (lookup url (serve day nothing).running)
    ≡ lookup url (wanted (in_force day nothing []))
serve_tracks_example = serve_tracks day nothing url refl
