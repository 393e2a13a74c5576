-- ===== src/Cosmos/Leases.antt =====
-- internal/coord/cosmosdb/cosmosdb.go: the lease of a feed as a document of a container. Between its
-- requests an attempt waits, and others may write: it is three functions, one for each request. The
-- clock is an argument, and a document is read as it was written. An instant and a duration are
-- nanoseconds; the container has milliseconds.
use rss2msg.Prelude.{
  ℕ, ◌+◌, Str, lit, Bool, false, ◌||◌, Option, none, some, List, [], ◌∷◌, ◌++◌, ltb, ◌==◌,
  if◌then◌else◌,
}
use rss2msg.Prelude.Int.{ℤ, pos, pos_part, leb_ℤ}
use rss2msg.Errors.{Err, wrap, Result, ok, err}
use rss2msg.Model.{Time}
use rss2msg.Coord.{unix_milli}
use rss2msg.Cosmos.Server.{
  LeaseDoc, Container, Failure, Reply, conflict, not_found, is_status, lost_race, create_item,
  read_item, replace_item, delete_item, answer, refused,
}

-- The `lease` struct; its etag tells one lease from another.
pub record Lease : Type 0 where
  pub key : Str
  pub owner : Str
  pub etag : ℕ

-- `held` is `none` after Close.
pub record Coordinator : Type 0 where
  pub owner : Str
  pub lease_duration : ℕ
  pub held : Option (List Lease)

-- 60 s
abbrev default_lease_duration : ℕ
default_lease_duration = 60_000_000_000

-- newWithContainer, with an owner token in place.
unfoldable new_with_container : ℤ → Str → Coordinator
new_with_container lease_duration owner = record {
  owner = owner;
  lease_duration =
      if leb_ℤ lease_duration (pos 0) then default_lease_duration else pos_part lease_duration;
  held = some [];
}

abbrev delete_error : Option Failure → Option Err
delete_error none = none
delete_error (some f) =
    if lost_race f then none else some (wrap (lit "coord/cosmosdb: DeleteItem: ") f.reason)

unfoldable pub conditional_delete : Option Failure → Lease → Container → Option Err × Container
unfolding delete_item
conditional_delete fault l t =
    let (e, t') = delete_item fault l.etag l.key t in (delete_error e, t')

-- What `TryAcquire` returns: the lease that its release function closes over, if it won one.
abbrev pub Won : Type 0
Won = Result (Option Lease)

-- How a request of an attempt ends: with the result, or on the way to reading the document or to
-- replacing the version that was read.
pub data Next : Type 0 where
  finished : Won → Next
  reading : Next
  replacing : ℕ → Next

-- `recordHeld`
abbrev pub record_held :
    Option Failure
    → Lease
    → Option (List Lease)
    → Coordinator
    → Container
    → Next × (Coordinator × Container)
record_held fault l none c t = (finished (ok none), (c, (conditional_delete fault l t).1))
record_held fault l (some ls) c t = (finished (ok (some l)), (record c { held = some (l ∷ ls) }, t))

abbrev pub after_create :
    Option Failure → Str → Reply ℕ → Coordinator → Container → Next × (Coordinator × Container)
after_create fault key (refused f) c t =
    if is_status f conflict
    then (reading, (c, t))
    else (finished (err (wrap (lit "coord/cosmosdb: CreateItem: ") f.reason)), (c, t))
after_create fault key (answer etag) c t =
    record_held fault (record { key = key; owner = c.owner; etag = etag }) c.held c t

abbrev pub after_replace :
    Option Failure → Str → Reply ℕ → Coordinator → Container → Next × (Coordinator × Container)
after_replace fault key (refused f) c t =
    if lost_race f
    then (finished (ok none), (c, t))
    else (finished (err (wrap (lit "coord/cosmosdb: ReplaceItem: ") f.reason)), (c, t))
after_replace fault key (answer etag) c t =
    record_held fault (record { key = key; owner = c.owner; etag = etag }) c.held c t

-- After the read of `tryReclaim`: a lease that has not expired stays with its owner.
abbrev pub after_read : ℕ → Reply LeaseDoc → Next
after_read now (refused f) =
    if is_status f not_found
    then finished (ok none)
    else finished (err (wrap (lit "coord/cosmosdb: ReadItem: ") f.reason))
after_read now (answer cur) =
    if ltb now cur.lease_expiry then finished (ok none) else replacing cur.etag

module _ (sha256_hex : Str → Str) where
  unfoldable pub lock_key : Str → Str
  lock_key feed_url = lit "rss2msg:coord:" ++ sha256_hex feed_url

  abbrev expiry_from : Time → Coordinator → ℕ
  expiry_from now c = unix_milli (now + c.lease_duration)

  -- `TryAcquire` up to its first answer. The second fault is that of the delete of a closed
  -- coordinator, as below.
  unfoldable pub try_create :
      Option Failure
      → Option Failure
      → Str
      → Time
      → Coordinator
      → Container
      → Next × (Coordinator × Container)
  unfolding create_item conditional_delete lock_key
  try_create fault on_delete feed_url now c t =
      let key = lock_key feed_url in
      let (r, t') = create_item fault key c.owner (expiry_from now c) t in
      after_create on_delete key r c t'

  -- `tryReclaim` up to its first answer.
  unfoldable pub try_read : Option Failure → Str → Time → Container → Next
  unfolding read_item lock_key
  try_read fault feed_url now t =
      after_read (unix_milli now) (read_item fault (lock_key feed_url) t)

  -- The rest of `tryReclaim`, with the etag that was read.
  unfoldable pub try_replace :
      Option Failure
      → Option Failure
      → Str
      → ℕ
      → Time
      → Coordinator
      → Container
      → Next × (Coordinator × Container)
  unfolding replace_item conditional_delete lock_key
  try_replace fault on_delete feed_url etag now c t =
      let key = lock_key feed_url in
      let (r, t') = replace_item fault etag key c.owner (expiry_from now c) t in
      after_replace on_delete key r c t'

unfoldable pub is_held : ℕ → List Lease → Bool
is_held n [] = false
is_held n (l ∷ ls) = l.etag == n || is_held n ls

unfoldable pub without : ℕ → List Lease → List Lease
without n [] = []
without n (l ∷ ls) = let rest = without n ls in if l.etag == n then rest else l ∷ rest

abbrev pub release_held :
    Option Failure
    → Lease
    → Option (List Lease)
    → Coordinator
    → Container
    → Option Err × (Coordinator × Container)
release_held fault l none c t = (none, (c, t))
release_held fault l (some ls) c t =
    let (e, t') = conditional_delete fault l t in
    if is_held l.etag ls
    then (e, (record c { held = some (without l.etag ls) }, t'))
    else (none, (c, t))

-- The release function of a lease.
unfoldable pub release :
    Option Failure → Lease → Coordinator → Container → Option Err × (Coordinator × Container)
unfolding conditional_delete is_held without
release fault l c t = release_held fault l c.held c t

-- The loop of Close over what was held, each with what its delete meets; errors are ignored.
unfoldable pub delete_all : (ℕ → Option Failure) → List Lease → Container → Container
unfolding conditional_delete
delete_all faults [] t = t
delete_all faults (l ∷ ls) t = delete_all faults ls (conditional_delete (faults l.etag) l t).1

abbrev pub close_held :
    (ℕ → Option Failure) → Option (List Lease) → Coordinator → Container → Coordinator × Container
close_held faults none c t = (c, t)
close_held faults (some ls) c t = (record c { held = none }, delete_all faults ls t)

unfoldable pub close : (ℕ → Option Failure) → Coordinator → Container → Coordinator × Container
unfolding delete_all
close faults c t = close_held faults c.held c t
