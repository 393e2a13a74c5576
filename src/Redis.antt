-- ===== src/Redis.antt =====
-- internal/coord/redis/redis.go: the lease of a feed as a key with a time to live, extended while its
-- holder works. What the client reports beside the answer (nil, or an error under which the server
-- did nothing) is an argument, and so are the clock of the server, in milliseconds, and the tokens.
-- Building the client, its TLS settings and log lines are left out.
pub mod Held
pub mod Steps
pub mod Exclusion
pub mod Membership
pub mod Members
use rss2msg.Prelude.{
  ℕ, suc, ◌+◌, ◌/◌, Str, lit, Bool, true, false, not, ◌||◌, Option, none, some, List, [], ◌∷◌, ◌++◌,
  ltb, ◌==◌, str_eq, if◌then◌else◌,
}
use rss2msg.Prelude.Int.{ℤ, pos, pos_part, ltb_ℤ, leb_ℤ}
use rss2msg.Prelude.Map.{lookup, insert, filter_keys}
use rss2msg.Errors.{Err, wrap, Result, ok, err}

-- What the server holds under a key.
pub record Entry : Type 0 where
  pub value : Str
  pub expires_at : ℕ

abbrev pub Db : Type 0
Db = List (Str × Entry)

-- A key whose time is over is gone.
abbrev pub live : ℕ → Option Entry → Option Str
live now none = none
live now (some e) = if ltb now e.expires_at then some e.value else none

-- GET
abbrev pub get : ℕ → Str → Db → Option Str
get now key db = live now (lookup key db)

abbrev pub is_value : Str → Option Str → Bool
is_value v none = false
is_value v (some w) = str_eq w v

abbrev set_if : Bool → Str → Entry → Db → Result Bool × Db
set_if true key e db = (ok true, insert key e db)
set_if false key e db = (ok false, db)

abbrev pub is_free : Option Str → Bool
is_free none = true
is_free (some v) = false

-- The call of SetNX.
unfoldable pub set_nx : Option Err → ℕ → Str → Str → ℕ → Db → Result Bool × Db
unfolding lookup insert
set_nx (some e) now key token ttl db = (err e, db)
set_nx none now key token ttl db =
    set_if (is_free (get now key db)) key (record { value = token; expires_at = now + ttl }) db

-- renewScript, with its answer.
unfoldable pub renew_script : ℕ → Str → Str → ℕ → Db → ℕ × Db
unfolding lookup insert
renew_script now key token ttl db =
    if is_value token (get now key db)
    then (1, insert key (record { value = token; expires_at = now + ttl }) db)
    else (0, db)

-- releaseScript, with its answer.
unfoldable pub release_script : ℕ → Str → Str → Db → ℕ × Db
unfolding lookup filter_keys
release_script now key token db =
    if is_value token (get now key db)
    then (1, filter_keys (λ k. not (str_eq k key)) db)
    else (0, db)

pub record ResolvedOptions : Type 0 where
  pub lock_ttl : ℤ
  pub renewal_interval : ℤ
  pub member_ttl : ℤ

-- 30 s
abbrev pub half_minute : ℤ
half_minute = pos 30_000_000_000

-- A third of a duration, as Go divides: towards 0.
abbrev third : ℤ → ℤ
third d = pos (pos_part d / 3)

abbrev or_default : ℤ → ℤ → ℤ
or_default d default = if leb_ℤ d (pos 0) then default else d

-- `resolved`; a third of the lock's time is taken of a positive one.
unfoldable pub resolved : ℤ → ℤ → ℤ → ResolvedOptions
resolved lock_ttl renewal_interval member_ttl =
    let ttl = or_default lock_ttl half_minute in
    record {
      lock_ttl = ttl;
      renewal_interval = or_default renewal_interval (third ttl);
      member_ttl = or_default member_ttl half_minute;
    }

-- The `lease` struct; the serial number tells one allocation from another.
pub record Lease : Type 0 where
  pub key : Str
  pub token : Str
  pub serial : ℕ

-- `held` is `none` after Close; `closing` and `closed` are its other two marks.
pub record Coordinator : Type 0 where
  pub opts : ResolvedOptions
  pub held : Option (List Lease)
  pub closing : Bool
  pub closed : Bool
  pub next : ℕ

-- New, with a client that has answered the ping.
unfoldable new : ResolvedOptions → Coordinator
new opts = record { opts = opts; held = some []; closing = false; closed = false; next = 0 }

-- The time to live that is sent to the server.
abbrev pub millis : ℤ → ℕ
millis d = pos_part d / 1_000_000

abbrev delete_once : Option Err → ℕ → Lease → Db → Db
delete_once (some e) now l db = db
delete_once none now l db = (release_script now l.key l.token db).1

-- `casDelete`; an error is logged only.
unfoldable pub cas_delete : Option Err → Bool → ℕ → Lease → Db → Db
unfolding release_script
cas_delete fault true now l db = db
cas_delete fault false now l db = delete_once fault now l db

-- What `TryAcquire` returns: the lease that its release function closes over, if it won one.
abbrev Won : Type 0
Won = Result (Option Lease)

-- After the key is set: a coordinator that is closing gives it back.
abbrev pub keep_lease :
    Option Err
    → ℕ
    → Lease
    → Option (List Lease)
    → Bool
    → Coordinator
    → Db
    → Won × (Coordinator × Db)
keep_lease fault now l none closing c db = (ok none, (c, cas_delete fault c.closed now l db))
keep_lease fault now l (some ls) true c db = (ok none, (c, cas_delete fault c.closed now l db))
keep_lease fault now l (some ls) false c db =
    (ok (some l), (record c { held = some (l ∷ ls); next = suc c.next }, db))

abbrev pub after_set :
    Option Err → ℕ → Lease → Result Bool → Coordinator → Db → Won × (Coordinator × Db)
after_set fault now l (err e) c db = (err (wrap (lit "coord/redis: SET NX EX: ") e), (c, db))
after_set fault now l (ok false) c db = (ok none, (c, db))
after_set fault now l (ok true) c db = keep_lease fault now l c.held c.closing c db

module _ (sha256_hex : Str → Str) where
  unfoldable pub lock_key : Str → Str
  lock_key feed_url = lit "rss2msg:coord:" ++ sha256_hex feed_url

  -- The second fault is that of the delete of a closing coordinator.
  unfoldable pub try_acquire :
      Option Err → Option Err → Str → Str → ℕ → Coordinator → Db → Won × (Coordinator × Db)
  unfolding set_nx cas_delete lock_key
  try_acquire fault on_delete token feed_url now c db =
      let key = lock_key feed_url in
      let l : Lease = record { key = key; token = token; serial = c.next } in
      let (set, db') = set_nx fault now key token (millis c.opts.lock_ttl) db in
      after_set on_delete now l set c db'

-- How a tick of the renewal loop ends; the loop goes on after the first only.
pub data Tick : Type 0 where
  renewed lock_lost : Tick
  renew_failed : Err → Tick

abbrev answered : ℕ → Tick
answered n = if n == 0 then lock_lost else renewed

-- One tick of renewLoop.
unfoldable pub renew : Option Err → ℕ → Coordinator → Lease → Db → Tick × Db
unfolding renew_script
renew (some e) now c l db = (renew_failed e, db)
renew none now c l db =
    let (n, db') = renew_script now l.key l.token (millis c.opts.lock_ttl) db in (answered n, db')

unfoldable pub is_held : ℕ → List Lease → Bool
is_held n [] = false
is_held n (l ∷ ls) = l.serial == n || is_held n ls

unfoldable pub without : ℕ → List Lease → List Lease
without n [] = []
without n (l ∷ ls) = let rest = without n ls in if l.serial == n then rest else l ∷ rest

abbrev pub release_held :
    Option Err → ℕ → Lease → Option (List Lease) → Coordinator → Db → Coordinator × Db
release_held fault now l none c db = (c, db)
release_held fault now l (some ls) c db =
    if is_held l.serial ls
    then (record c { held = some (without l.serial ls) }, cas_delete fault c.closed now l db)
    else (c, db)

-- The release function of a lease; it returns nil.
unfoldable pub release : Option Err → ℕ → Lease → Coordinator → Db → Coordinator × Db
unfolding cas_delete is_held without
release fault now l c db = release_held fault now l c.held c db

-- The loop of Close over what was held, each with what its delete meets.
unfoldable pub delete_all : (ℕ → Option Err) → ℕ → List Lease → Db → Db
unfolding cas_delete
delete_all faults now [] db = db
delete_all faults now (l ∷ ls) db =
    delete_all faults now ls (cas_delete (faults l.serial) false now l db)

abbrev pub close_held :
    (ℕ → Option Err) → ℕ → Option (List Lease) → Coordinator → Db → Coordinator × Db
close_held faults now none c db = (c, db)
close_held faults now (some ls) c db =
    (record c { held = none; closing = true; closed = true }, delete_all faults now ls db)

unfoldable pub close : (ℕ → Option Err) → ℕ → Coordinator → Db → Coordinator × Db
unfolding delete_all
close faults now c db = close_held faults now c.held c db
