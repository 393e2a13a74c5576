-- ===== src/Tests/Redis.antt =====
-- Two instances on one Redis server: a lease that is extended, and heartbeats.
use rss2msg.Prelude.{
  ◌+◌, ◌≡◌, ◌≢◌, refl, ◌↔◌, ◌⊎◌, Str, lit, true, false, none, some, List, [], ◌∷◌, Memᴰ, arith, ltb,
  str_eq, Bool,
}
use rss2msg.Prelude.Int.{pos}
use rss2msg.Prelude.Map.{lookup, insert, DistinctKeys}
use rss2msg.Errors.{ok}
use rss2msg.HttpAuth.{cut_prefix}
use rss2msg.Redis.{Db, Lease, Coordinator, resolved, millis, lock_key, try_acquire, renew}
use rss2msg.Redis.Steps.{acquires, extends, Steps, stop, step}
use rss2msg.Redis.Exclusion.{renewed_exclusive}
use rss2msg.Redis.Membership.{member_key, heartbeat, single, cluster}
use rss2msg.Redis.Members.{Alive, heartbeat_iff}
use rss2msg.Tests.Fixtures.{member_a, member_b, url}

abbrev plain_hash : Str → Str
plain_hash s = s

-- One second, in milliseconds on the server.
abbrev one : Coordinator
one = record {
  opts = resolved (pos 1_000_000_000) (pos 0) (pos 0);
  held = some [];
  closing = false;
  closed = false;
  next = 0;
}

abbrev token : Str
token = lit "token"

abbrev lease : Lease
lease = record { key = lock_key plain_hash url; token = token; serial = 0 }

wins : (try_acquire plain_hash none none token url 5 one []).0 ≡ ok (some lease)
unfolding try_acquire lookup
wins = refl

abbrev set : Db
set = (try_acquire plain_hash none none token url 5 one []).1.1

abbrev tried : Db
tried = (try_acquire plain_hash none none (lit "other") url 900 one set).1.1

abbrev extended : Db
extended = (renew none 1000 one lease tried).1

runs :
    Steps plain_hash
      (lock_key plain_hash url)
      token
      (5 + millis one.opts.lock_ttl)
      set
      (1000 + millis one.opts.lock_ttl)
      extended
unfolding resolved
runs =
    step (acquires none none (lit "other") url 900 one set (omega arith))
      (step (extends 1000 one lease tried refl refl (omega arith)) stop)

in_time : ltb 1500 (1000 + millis one.opts.lock_ttl) ≡ true
unfolding resolved
in_time = refl

renewed_exclusive_example :
    (try_acquire plain_hash none none (lit "other") url 1500 one extended).0 ≢ ok (some lease)
renewed_exclusive_example =
    renewed_exclusive plain_hash none none none none token (lit "other") url 5 1500
      (1000 + millis one.opts.lock_ttl) one one [] extended lease lease wins runs
      (let e = in_time in ground (arith, e))

abbrev members : Db
members = (member_key member_b, record { value = lit "1"; expires_at = 50 }) ∷ []

distinct : DistinctKeys members
unfolding lookup
distinct = (refl, tt)

-- The node that is scanned has only the key of this instance.
abbrev on_node : Str → Bool
on_node k = str_eq k (member_key member_a)

heartbeat_iff_example :
    (ids : List Str) × ((heartbeat cluster on_node none none 20 member_a 30 members).0 ≡ ok ids)
    × ((id : Str)
        → Memᴰ id ids ↔ (
            ((cluster ≡ cluster) → on_node (member_key id) ≡ true)
            × ((id ≡ member_a) ⊎ Alive 20 id members)))
heartbeat_iff_example = heartbeat_iff cluster on_node 20 member_a 30 members refl distinct

-- A single server lists both instances, a cluster misses the one whose key is on another node.
single_lists :
    (heartbeat single on_node none none 20 member_a 30 members).0 ≡ ok (member_b ∷ member_a ∷ [])
unfolding heartbeat insert str_eq cut_prefix
single_lists = refl

cluster_misses : (heartbeat cluster on_node none none 20 member_a 30 members).0 ≡ ok (member_a ∷ [])
unfolding heartbeat insert str_eq cut_prefix
cluster_misses = refl
