-- ===== src/Coord.antt =====
-- internal/coord/dynamodb/dynamodb.go: the lease of a feed as a row of a DynamoDB table that is
-- written and deleted under a condition. What the client reports beside the condition (nil, or an
-- error under which the table stays as it is) is an argument, and so is the clock. An instant and a
-- duration are nanoseconds; the table has milliseconds.
pub mod Held
pub mod Exclusion
use rss2msg.Prelude.{
  ℕ, suc, ◌+◌, ◌/◌, Str, lit, Bool, true, false, not, ◌||◌, Option, none, some, List, [], ◌∷◌, ◌++◌,
  ltb, ◌==◌, str_eq, if◌then◌else◌,
}
use rss2msg.Prelude.Map.{lookup, insert, filter_keys}
use rss2msg.Errors.{Err, wrap, Result, ok, err}
use rss2msg.Model.{Time}

pub record Row : Type 0 where
  pub owner : Str
  pub lease_expiry : ℕ

-- The lock table, by partition key.
abbrev pub Table : Type 0
Table = List (Str × Row)

-- The `lease` struct; the serial number tells one allocation from another.
pub record Lease : Type 0 where
  pub key : Str
  pub owner : Str
  pub serial : ℕ

-- `held` is `none` after Close.
pub record Coordinator : Type 0 where
  pub owner : Str
  pub lease_duration : ℕ
  pub held : Option (List Lease)
  pub next : ℕ

-- 60 s
abbrev default_lease_duration : ℕ
default_lease_duration = 60_000_000_000

-- newWithClient, with an owner token in place.
unfoldable new_with_client : ℕ → Str → Coordinator
new_with_client lease_duration owner = record {
  owner = owner;
  lease_duration = if lease_duration == 0 then default_lease_duration else lease_duration;
  held = some [];
  next = 0;
}

abbrev pub unix_milli : Time → ℕ
unix_milli t = t / 1_000_000

-- What a conditional write reports.
pub data Write : Type 0 where
  written condition_failed : Write
  failed : Err → Write

-- "attribute_not_exists(#pk) OR #exp < :now"
abbrev pub may_take : ℕ → Option Row → Bool
may_take now none = true
may_take now (some r) = ltb r.lease_expiry now

-- "#owner = :me"
abbrev pub is_mine : Str → Option Row → Bool
is_mine me none = false
is_mine me (some r) = str_eq r.owner me

-- The PutItem call.
unfoldable pub put_item : Option Err → Str → Row → ℕ → Table → Write × Table
put_item (some e) key row now t = (failed e, t)
put_item none key row now t =
    if may_take now (lookup key t) then (written, insert key row t) else (condition_failed, t)

-- The DeleteItem call.
unfoldable pub delete_item : Option Err → Str → Str → Table → Write × Table
delete_item (some e) key me t = (failed e, t)
delete_item none key me t =
    if is_mine me (lookup key t)
    then (written, filter_keys (λ k. not (str_eq k key)) t)
    else (condition_failed, t)

abbrev delete_error : Write → Option Err
delete_error written = none
delete_error condition_failed = none
delete_error (failed e) = some (wrap (lit "coord/dynamodb: DeleteItem: ") e)

unfoldable pub conditional_delete : Option Err → Lease → Table → Option Err × Table
unfolding delete_item
conditional_delete fault l t =
    let (w, t') = delete_item fault l.key l.owner t in (delete_error w, t')

-- What `TryAcquire` returns: the lease that its release function closes over, if it won one.
abbrev Won : Type 0
Won = Result (Option Lease)

-- After the write: a coordinator that was closed in the meantime gives the lease back.
abbrev keep_lease :
    Option Err → Lease → Option (List Lease) → Coordinator → Table → Won × (Coordinator × Table)
keep_lease fault l none c t = (ok none, (c, (conditional_delete fault l t).1))
keep_lease fault l (some ls) c t =
    (ok (some l), (record c { held = some (l ∷ ls); next = suc c.next }, t))

abbrev pub after_put :
    Option Err → Lease → Write → Coordinator → Table → Won × (Coordinator × Table)
after_put fault l (failed e) c t = (err (wrap (lit "coord/dynamodb: PutItem: ") e), (c, t))
after_put fault l condition_failed c t = (ok none, (c, t))
after_put fault l written c t = keep_lease fault l c.held c t

module _ (sha256_hex : Str → Str) where
  unfoldable pub lock_key : Str → Str
  lock_key feed_url = lit "rss2msg:coord:" ++ sha256_hex feed_url

  -- The second fault is that of the DeleteItem of a closed coordinator.
  unfoldable pub try_acquire :
      Option Err → Option Err → Str → Time → Coordinator → Table → Won × (Coordinator × Table)
  unfolding put_item conditional_delete lock_key
  try_acquire fault on_delete feed_url now c t =
      let key = lock_key feed_url in
      let row : Row = record {
        owner = c.owner;
        lease_expiry = unix_milli (now + c.lease_duration);
      } in
      let l : Lease = record { key = key; owner = c.owner; serial = c.next } in
      let (w, t') = put_item fault key row (unix_milli now) t in after_put on_delete l w c t'

unfoldable pub is_held : ℕ → List Lease → Bool
is_held n [] = false
is_held n (l ∷ ls) = l.serial == n || is_held n ls

unfoldable pub without : ℕ → List Lease → List Lease
without n [] = []
without n (l ∷ ls) = let rest = without n ls in if l.serial == n then rest else l ∷ rest

abbrev pub release_held :
    Option Err
    → Lease
    → Option (List Lease)
    → Coordinator
    → Table
    → Option Err × (Coordinator × Table)
release_held fault l none c t = (none, (c, t))
release_held fault l (some ls) c t =
    let (e, t') = conditional_delete fault l t in
    if is_held l.serial ls
    then (e, (record c { held = some (without l.serial ls) }, t'))
    else (none, (c, t))

-- The release function of a lease.
unfoldable pub release :
    Option Err → Lease → Coordinator → Table → Option Err × (Coordinator × Table)
unfolding conditional_delete is_held without
release fault l c t = release_held fault l c.held c t

-- The loop of Close over what was held; errors are ignored.
unfoldable pub delete_all : List (Option Err × Lease) → Table → Table
unfolding conditional_delete
delete_all [] t = t
delete_all ((fault, l) ∷ ls) t = delete_all ls (conditional_delete fault l t).1

-- The leases that are held, each with what its DeleteItem meets.
abbrev pub with_faults : (ℕ → Option Err) → List Lease → List (Option Err × Lease)
with_faults faults [] = []
with_faults faults (l ∷ ls) = (faults l.serial, l) ∷ with_faults faults ls

abbrev pub close_held :
    (ℕ → Option Err) → Option (List Lease) → Coordinator → Table → Coordinator × Table
close_held faults none c t = (c, t)
close_held faults (some ls) c t = (record c { held = none }, delete_all (with_faults faults ls) t)

unfoldable pub close : (ℕ → Option Err) → Coordinator → Table → Coordinator × Table
unfolding delete_all
close faults c t = close_held faults c.held c t
