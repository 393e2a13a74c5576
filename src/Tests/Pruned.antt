-- ===== src/Tests/Pruned.antt =====
-- A prune without a body, where retention is off.
use rss2msg.Prelude.{◌≡◌, refl, false, none, some, Str, [], ◌∷◌}
use rss2msg.Prelude.Int.{ℤ, pos}
use rss2msg.Errors.{Result, ok, err, other}
use rss2msg.State.{ItemState, get_item, older, prune_items_before, prune_feed_meta_before}
use rss2msg.Cleanup.{run_cleanup}
use rss2msg.Admin.{PruneRequest, pruned, handle_prune}
use rss2msg.Admin.Prune.{prune_forgets}
use rss2msg.Tests.Storage.{two_rows}

abbrev unread : Str → Result ℤ
unread s = err (other s)

abbrev no_ages : PruneRequest
no_ages = record { items_older_than = []; feed_meta_older_than = [] }

-- Both items are gone ten seconds later.
both_removed :
    handle_prune unread (pos 0) none none no_ages 20_000_000_000 two_rows
    ≡ ((200, pruned 2 0), record { seen_items = []; feed_meta = [] })
unfolding handle_prune prune_items_before prune_feed_meta_before
both_removed = refl

prune_forgets_example :
    let (answer, db') = handle_prune unread (pos 0) none none no_ages 20_000_000_000 two_rows in
    ((run_cleanup
        (pos 60_000_000_000)
        (pos 0)
        (record { now = 20_000_000_000; items_fault = none; meta_fault = none } ∷ [])
        two_rows).1
      ≡ two_rows)
    × (answer.0 ≡ 200)
    × ((f i : Str) (s : ItemState)
        → get_item none db' f i ≡ ok (some s)
        → older s.last_seen_at 20_000_000_000 ≡ false)
prune_forgets_example =
    prune_forgets unread 20_000_000_000 two_rows (pos 60_000_000_000)
      (record { now = 20_000_000_000; items_fault = none; meta_fault = none } ∷ [])
