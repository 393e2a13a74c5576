-- ===== src/Tests/Poll.antt =====
-- Polls of one feed, with a sink that fails.

use rss2msg.Prelude.{◌≡◌, length, refl, lit, true, List, [], ◌∷◌, ◌++◌, All, str_eq}
use rss2msg.Errors.{ok}
use rss2msg.Retry.{root, run, normalise}
use rss2msg.World.{World, Event, acquired, released}
use rss2msg.Feed.{sort_items}
use rss2msg.Pipeline.{run_once, process}
use rss2msg.Pipeline.Publishing.{Recorded}
use rss2msg.Pipeline.Committed.{run_once-Recorded}
use rss2msg.Pipeline.Lease.{is_took, run_once_releases}
use rss2msg.Pipeline.Unmodified.{unmodified_next}
use rss2msg.Tests.Fixtures.{url, fetched_once, not_new, env, pipeline, dropping, digest, start}

-- Everything is delivered or captured, so both items are recorded.
both_recorded : length (run_once digest env pipeline root url 9 start).1.db.seen_items ≡ 2
unfolding run_once run normalise rss2msg.Pipeline.record_meta rss2msg.Pipeline.publish_changes
    rss2msg.Sink.deliver str_eq rss2msg.Model.identity_key
both_recorded = refl

run_once-Recorded_example :
    Recorded pipeline url url (lit "g") start (run_once digest env pipeline root url 9 start).1
run_once-Recorded_example = run_once-Recorded digest env pipeline root url 9 url (lit "g") start

run_once_releases_example :
    (mid : List Event) × ((run_once digest env pipeline root url 9 start).1.trace
      ≡ released url ∷ (mid ++ (acquired url ∷ [])))
    × All (λ e. is_took e ≡ true) mid
run_once_releases_example = run_once_releases digest env pipeline root url 9 start refl

-- The sink `bad` drops both items, and they are not recorded.
dropped_unrecorded :
    (process digest env dropping root url 9 fetched_once start).1.db.seen_items ≡ []
unfolding process run normalise rss2msg.Pipeline.record_meta rss2msg.Pipeline.publish_changes
    rss2msg.Sink.deliver
dropped_unrecorded = refl

unmodified_next_example :
    let w' = (process digest env dropping root url 9 fetched_once start).1 in
    let (r, w'') = run_once digest env dropping root url 10 w' in
    (r ≡ ok []) × (w''.db ≡ w'.db) × (w''.trace ≡ released url ∷ acquired url ∷ w'.trace)
unmodified_next_example =
    unmodified_next digest env dropping root url fetched_once not_new start 9 10 refl (λ n. refl)
      (λ n. refl) (λ n. refl) (λ n. refl)
