-- ===== src/Redis/Exclusion.antt =====
-- Why two instances do not hold the lease of one feed at a time (internal/coord/redis).
use rss2msg.Prelude.{
  ℕ, ◌+◌, ◌≤◌, ◌<◌, ◌≡◌, ◌≢◌, refl, ◌∙◌, ap, Str, Bool, true, false, Option, none, some, List,
  arith, str_eq_refl, Bool-cases, inl, inr,
}
use rss2msg.Prelude.Map.{lookup-insert}
use rss2msg.Errors.{Err, Result, ok, err}
use rss2msg.Redis.{
  Db, live, get, is_free, set_nx, Lease, Coordinator, millis, after_set, lock_key, try_acquire,
}
use rss2msg.Redis.Held.{Holds, set_nx-Holds}
use rss2msg.Redis.Steps.{Steps, Steps-Holds}

set_nx-won :
    (fault : Option Err) (now : ℕ) (key token : Str) (ttl : ℕ) (db : Db)
    → (set_nx fault now key token ttl db).0 ≡ ok true
    → Holds key token (now + ttl) (set_nx fault now key token ttl db).1
unfolding set_nx
set_nx-won (some e) now key token ttl db h = absurd (cc)
set_nx-won none now key token ttl db h = elim (Bool-cases (is_free (get now key db))) [
  | inl p ↦ rw p (lookup-insert key key _ db ∙ rw (str_eq_refl key) refl)
  | inr p ↦ absurd (cc (rw p at h))
]

module _ (sha256_hex : Str → Str) where
  won-Holds :
      (fault on_delete : Option Err) (token feed_url : Str) (now : ℕ) (c : Coordinator) (db : Db)
      (l : Lease)
      → (try_acquire sha256_hex fault on_delete token feed_url now c db).0 ≡ ok (some l)
      → Holds
          (lock_key sha256_hex feed_url)
          token
          (now + millis c.opts.lock_ttl)
          (try_acquire sha256_hex fault on_delete token feed_url now c db).1.1
  unfolding try_acquire
  won-Holds fault on_delete token feed_url now c db l h =
      let key = lock_key sha256_hex feed_url in
      let p = set_nx fault now key token (millis c.opts.lock_ttl) db in
      after p.0 p.1 (set_nx-won fault now key token (millis c.opts.lock_ttl) db) c.held c.closing h
    where
      fresh : Lease
      fresh = record { key = lock_key sha256_hex feed_url; token = token; serial = c.next }

      until : ℕ
      until = now + millis c.opts.lock_ttl

      after :
          (r : Result Bool) (db' : Db)
          → (r ≡ ok true → Holds (lock_key sha256_hex feed_url) token until db')
          → (held : Option (List Lease)) (closing : Bool)
          → (after_set on_delete now fresh r (record c { held = held; closing = closing }) db').0
            ≡ ok (some l)
          → Holds
              (lock_key sha256_hex feed_url)
              token
              until
              (after_set on_delete now fresh r
                (record c { held = held; closing = closing })
                db').1.1
      after (err e) db' q held closing k = absurd (cc)
      after (ok false) db' q held closing k = absurd (cc)
      after (ok true) db' q none closing k = absurd (cc)
      after (ok true) db' q (some ls) true k = absurd (cc)
      after (ok true) db' q (some ls) false k = q refl

  -- A lease that was won, and that its holder extends while it has not expired, excludes every
  -- instance until the last extension expires: after any attempts of any instances, and any
  -- extensions, releases and closes of the others, with requests that may fail, no attempt at the
  -- feed's lease wins it.
  pub renewed_exclusive :
      (fault on_delete later_fault later_delete : Option Err) (token later_token feed_url : Str)
      (now later until : ℕ) (c other : Coordinator) (db db' : Db) (l m : Lease)
      → (try_acquire sha256_hex fault on_delete token feed_url now c db).0 ≡ ok (some l)
      → Steps sha256_hex
          (lock_key sha256_hex feed_url)
          token
          (now + millis c.opts.lock_ttl)
          (try_acquire sha256_hex fault on_delete token feed_url now c db).1.1
          until
          db'
      → later < until
      → (try_acquire sha256_hex later_fault later_delete later_token feed_url later other db').0
        ≢ ok (some m)
  unfolding try_acquire
  renewed_exclusive fault on_delete later_fault later_delete token later_token feed_url now later
        until c other db db' l m won steps lt h =
      let key = lock_key sha256_hex feed_url in
      let p = set_nx later_fault later key later_token (millis other.opts.lock_ttl) db' in
      let held =
        Steps-Holds sha256_hex steps (won-Holds fault on_delete token feed_url now c db l won) in
      let (_, elsewhere) =
        set_nx-Holds key token until later_fault later key later_token (millis other.opts.lock_ttl)
          db' lt held in
      after p.0 p.1 (λ w. absurd (cc (elsewhere w, str_eq_refl key))) other.held other.closing h
    where
      fresh : Lease
      fresh = record {
        key = lock_key sha256_hex feed_url;
        token = later_token;
        serial = other.next;
      }

      after :
          (r : Result Bool) (u : Db)
          → r ≢ ok true
          → (hs : Option (List Lease)) (closing : Bool)
          → (after_set later_delete later fresh r
              (record other { held = hs; closing = closing })
              u).0
            ≢ ok (some m)
      after (err e) u q hs closing k = absurd (cc)
      after (ok false) u q hs closing k = absurd (cc)
      after (ok true) u q hs closing k = absurd (q refl)

  -- An expired key does not exclude: an open coordinator whose request succeeds wins the lease.
  pub expired_won :
      (on_delete : Option Err) (token feed_url a : Str) (now until : ℕ) (c : Coordinator) (db : Db)
      (ls : List Lease)
      → Holds (lock_key sha256_hex feed_url) a until db
      → until ≤ now
      → c.held ≡ some ls
      → c.closing ≡ false
      → (l : Lease) × ((try_acquire sha256_hex none on_delete token feed_url now c db).0
          ≡ ok (some l))
        × (l.token ≡ token)
  unfolding try_acquire set_nx
  expired_won on_delete token feed_url a now until c db ls h le opened active =
      let key = lock_key sha256_hex feed_url in
      let l : Lease = record { key = key; token = token; serial = c.next } in
      let gone : get now key db ≡ none = ap (live now) h ∙ (ground arith) in
      (l, rw (gone, opened, active) refl, refl)
