-- ===== src/Tests/Reclaim.antt =====
-- A lease of internal/coord/cosmosdb that two instances try to reclaim.
use rss2msg.Prelude.{◌+◌, ◌≡◌, refl, Str, none, some, [], ◌∷◌, Memᴰ, str_eq}
use rss2msg.Errors.{ok}
use rss2msg.Cosmos.Server.{Container}
use rss2msg.Cosmos.Leases.{
  Lease, Coordinator, finished, replacing, lock_key, try_create, try_read, try_replace,
}
use rss2msg.Cosmos.Steps.{Pending, Steps, stop, step, replaces}
use rss2msg.Cosmos.Runs.{Run, starts, run_create, run_read}
use rss2msg.Cosmos.Exclusion.{Wins, by_replace, leased, replaced_exclusive}
use rss2msg.Tests.Fixtures.{member_a, member_b, url}

abbrev same_text : Str → Str
same_text s = s

abbrev key : Str
key = lock_key same_text url

-- One second.
abbrev first : Coordinator
first = record { owner = member_a; lease_duration = 1_000_000_000; held = some [] }

abbrev second : Coordinator
second = record first { owner = member_b }

abbrev no_docs : Container
no_docs = record { docs = []; next_etag = 0 }

abbrev created : Container
created = (try_create same_text none none url 0 first no_docs).1.1

-- The first lease has expired when both instances read it.
abbrev on_way : Pending
on_way = (key, 0) ∷ []

expired_read : try_read same_text none url 2_000_000_000 created ≡ replacing 0
unfolding try_create try_read rss2msg.Cosmos.Server.create_item rss2msg.Cosmos.Server.read_item
    rss2msg.Prelude.Map.lookup rss2msg.Cosmos.Server.put rss2msg.Prelude.Map.insert str_eq lock_key
expired_read = refl

reclaiming : Run same_text on_way created
reclaiming =
    run_read none url 2_000_000_000 0 (run_create none none url 0 first starts) expired_read

abbrev second_lease : Lease
second_lease = record { key = key; owner = member_b; etag = 1 }

second_wins :
    (try_replace same_text none none url 0 2_000_000_000 second created).0
    ≡ finished (ok (some second_lease))
unfolding try_create try_replace rss2msg.Cosmos.Server.create_item
    rss2msg.Cosmos.Server.replace_item rss2msg.Prelude.Map.lookup rss2msg.Cosmos.Server.put
    rss2msg.Prelude.Map.insert str_eq lock_key
second_wins = refl

abbrev reclaimed : Container
reclaimed = (try_replace same_text none none url 0 2_000_000_000 second created).1.1

-- The first instance comes with the etag of the lease that has expired.
abbrev come_late : Container
come_late = (try_replace same_text none none url 0 2_000_000_000 first reclaimed).1.1

late : Steps same_text key (leased 2_000_000_000 second created) on_way reclaimed on_way come_late
late = step (replaces none none url 0 2_000_000_000 first on_way reclaimed (Memᴰ.head refl)) stop

replaced_exclusive_example :
    ¬ Wins same_text url 2_500_000_000 first on_way come_late second_lease come_late
replaced_exclusive_example =
    replaced_exclusive same_text url 2_000_000_000 2_500_000_000 second first on_way on_way created
      reclaimed come_late come_late second_lease second_lease reclaiming
      (by_replace none none 0 (Memᴰ.head refl) second_wins) late
