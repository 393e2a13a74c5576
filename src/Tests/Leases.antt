-- ===== src/Tests/Leases.antt =====
-- Two instances that compete for the lease of one feed, and their heartbeats.

use rss2msg.Prelude.{◌+◌, ◌≡◌, ◌≢◌, refl, ◌↔◌, Str, none, some, [], ◌∷◌, Memᴰ, arith}
use rss2msg.Prelude.Int.{pos}
use rss2msg.Prelude.Map.{lookup}
use rss2msg.Errors.{ok}
use rss2msg.Source.{FeedConfig}
use rss2msg.Coord.{Coordinator, Lease, Table, unix_milli, lock_key, try_acquire}
use rss2msg.Coord.Held.{acquires, Steps, stop, step}
use rss2msg.Coord.Exclusion.{lease_exclusive}
use rss2msg.Assign.{owner}
use rss2msg.Ownership.{OwnerProvider, new_owner_provider, heartbeat, owned_feeds}
use rss2msg.Ownership.Partition.{feeds_of, heartbeat-owned_feeds}
use rss2msg.Tests.Fixtures.{sum64, member_a, member_b, url, feed_config}

abbrev plain_hash : Str → Str
plain_hash s = s

-- One second.
abbrev first : Coordinator
first = record { owner = member_a; lease_duration = 1_000_000_000; held = some []; next = 0 }

abbrev second : Coordinator
second = record first { owner = member_b }

abbrev first_lease : Lease
first_lease = record { key = lock_key plain_hash url; owner = member_a; serial = 0 }

first_wins : (try_acquire plain_hash none none url 5_000_000 first []).0 ≡ ok (some first_lease)
unfolding try_acquire lookup
first_wins = refl

abbrev taken : Table
taken = (try_acquire plain_hash none none url 5_000_000 first []).1.1

abbrev tried : Table
tried = (try_acquire plain_hash none none url 6_000_000 second taken).1.1

tries : Steps plain_hash member_a (unix_milli (5_000_000 + 1_000_000_000)) taken tried
tries = step (acquires none none url 6_000_000 second taken (omega arith)) stop

lease_exclusive_example :
    (try_acquire plain_hash none none url 7_000_000 second tried).0 ≢ ok (some first_lease)
lease_exclusive_example =
    lease_exclusive plain_hash none none none none url 5_000_000 7_000_000 first second [] tried
      first_lease first_lease first_wins tries (omega arith)

abbrev provider : OwnerProvider
provider = new_owner_provider member_b (pos 0)

abbrev feed : FeedConfig
feed = feed_config url (pos 60)

heartbeat-owned_feeds_example :
    Memᴰ feed (
      feeds_of (
        owned_feeds sum64
          (heartbeat sum64 (ok (member_b ∷ member_a ∷ [])) (ok (feed ∷ [])) provider).1
          (ok (feed ∷ []))))
    ↔ (Memᴰ feed (feed ∷ [])
        × (owner sum64 feed.url (member_b ∷ member_a ∷ []) ≡ some provider.self))
heartbeat-owned_feeds_example =
    heartbeat-owned_feeds sum64 provider (member_b ∷ member_a ∷ []) (ok (feed ∷ [])) (feed ∷ [])
      feed
