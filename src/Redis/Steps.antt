-- ===== src/Redis/Steps.antt =====
-- How the lease of a feed lasts while its holder extends it and others run (internal/coord/redis).
use rss2msg.Prelude.{
  ℕ, ◌+◌, ◌<◌, ◌≡◌, ◌≢◌, refl, Str, Bool, true, false, Option, none, some, List, All, str_eq,
  Bool-cases, inl, inr,
}
use rss2msg.Errors.{Err, Result, ok, err}
use rss2msg.Redis.{
  Db, set_nx, Lease, Coordinator, millis, after_set, lock_key, try_acquire, renew, is_held,
  release_held, release, close_held, close,
}
use rss2msg.Redis.Held.{
  Holds, set_nx-Holds, renew_script-Holds, extend-Holds, cas_delete-Holds, delete_all-Holds,
}

-- The leases that a coordinator holds are not those of the token.
abbrev HeldByOthers : Str → Option (List Lease) → Type 0
HeldByOthers a none = Unit {0}
HeldByOthers a (some ls) = All (λ l. l.token ≢ a) ls

module _ (sha256_hex : Str → Str) where
  -- What may happen to the server while the token `a` holds the key `k`, from its expiry `until` to
  -- another: any coordinator tries for any feed, the holder extends its lease in time, and the others
  -- extend and release their leases and close.
  pub data Step (k a : Str) (until : ℕ) : Db → ℕ → Db → Type 0 where
    acquires :
        (fault on_delete : Option Err) (token feed_url : Str) (now : ℕ) (c : Coordinator) (db : Db)
        → now < until
        → Step k a until db until
            (try_acquire sha256_hex fault on_delete token feed_url now c db).1.1
    extends :
        (now : ℕ) (c : Coordinator) (l : Lease) (db : Db)
        → l.key ≡ k
        → l.token ≡ a
        → now < until
        → Step k a until db (now + millis c.opts.lock_ttl) (renew none now c l db).1
    renews :
        (fault : Option Err) (now : ℕ) (c : Coordinator) (l : Lease) (db : Db)
        → l.token ≢ a
        → Step k a until db until (renew fault now c l db).1
    releases :
        (fault : Option Err) (now : ℕ) (l : Lease) (c : Coordinator) (db : Db)
        → l.token ≢ a
        → Step k a until db until (release fault now l c db).1
    closes :
        (faults : ℕ → Option Err) (now : ℕ) (c : Coordinator) (db : Db)
        → HeldByOthers a c.held
        → Step k a until db until (close faults now c db).1

  pub data Steps (k a : Str) : ℕ → Db → ℕ → Db → Type 0 where
    stop : {until : ℕ} {db : Db} → Steps k a until db until db
    step : {t u v : ℕ} {x y z : Db} → Step k a t x u y → Steps k a u y v z → Steps k a t x v z

  acquire-Holds :
      (k a : Str) (until : ℕ) (fault on_delete : Option Err) (token feed_url : Str) (now : ℕ)
      (c : Coordinator) (db : Db)
      → now < until
      → Holds k a until db
      → Holds k a until (try_acquire sha256_hex fault on_delete token feed_url now c db).1.1
  unfolding try_acquire
  acquire-Holds k a until fault on_delete token feed_url now c db lt h =
      let key = lock_key sha256_hex feed_url in
      let p = set_nx fault now key token (millis c.opts.lock_ttl) db in
      let (kept, elsewhere) =
        set_nx-Holds k a until fault now key token (millis c.opts.lock_ttl) db lt h in
      after p.0 p.1 kept elsewhere c.held c.closing
    where
      l : Lease
      l = record { key = lock_key sha256_hex feed_url; token = token; serial = c.next }

      after :
          (r : Result Bool) (db' : Db)
          → Holds k a until db'
          → (r ≡ ok true → str_eq (lock_key sha256_hex feed_url) k ≡ false)
          → (held : Option (List Lease)) (closing : Bool)
          → Holds k a until
              (after_set on_delete now l r (record c { held = held; closing = closing }) db').1.1
      after (err e) db' q other held closing = q
      after (ok false) db' q other held closing = q
      after (ok true) db' q other none closing =
          cas_delete-Holds k a until on_delete c.closed now l db' (λ e. other refl) q
      after (ok true) db' q other (some ls) true =
          cas_delete-Holds k a until on_delete c.closed now l db' (λ e. other refl) q
      after (ok true) db' q other (some ls) false = q

  renew-Holds :
      (k a : Str) (until : ℕ) (fault : Option Err) (now : ℕ) (c : Coordinator) (l : Lease) (db : Db)
      → l.token ≢ a
      → Holds k a until db
      → Holds k a until (renew fault now c l db).1
  unfolding renew
  renew-Holds k a until (some e) now c l db o h = h
  renew-Holds k a until none now c l db o h =
      renew_script-Holds k a until now l.key l.token (millis c.opts.lock_ttl) db (λ e. absurd (o e))
        h

  release-Holds :
      (k a : Str) (until : ℕ) (fault : Option Err) (now : ℕ) (l : Lease)
      (held : Option (List Lease)) (c : Coordinator) (db : Db)
      → l.token ≢ a
      → Holds k a until db
      → Holds k a until (release_held fault now l held c db).1
  release-Holds k a until fault now l none c db o h = h
  release-Holds k a until fault now l (some ls) c db o h = elim (Bool-cases (is_held l.serial ls)) [
    | inl e ↦ rw e (cas_delete-Holds k a until fault c.closed now l db (λ q. absurd (o q)) h)
    | inr e ↦ rw e h
  ]

  close-Holds :
      (k a : Str) (until : ℕ) (faults : ℕ → Option Err) (now : ℕ) (held : Option (List Lease))
      (c : Coordinator) (db : Db)
      → HeldByOthers a held
      → Holds k a until db
      → Holds k a until (close_held faults now held c db).1
  close-Holds k a until faults now none c db o h = h
  close-Holds k a until faults now (some ls) c db o h =
      delete_all-Holds k a until faults now ls db o h

  Step-Holds : {k a : Str} {t u : ℕ} {x y : Db} → Step k a t x u y → Holds k a t x → Holds k a u y
  unfolding release close
  Step-Holds {k} {a} {t} (acquires fault on_delete token feed_url now c db lt) h =
      acquire-Holds k a t fault on_delete token feed_url now c db lt h
  Step-Holds {k} {a} {t} (extends now c l db e q lt) h =
      rw (← e, ← q) (extend-Holds t now c l db lt (rw (e, q) h)).1
  Step-Holds {k} {a} {t} (renews fault now c l db o) h = renew-Holds k a t fault now c l db o h
  Step-Holds {k} {a} {t} (releases fault now l c db o) h =
      release-Holds k a t fault now l c.held c db o h
  Step-Holds {k} {a} {t} (closes faults now c db o) h = close-Holds k a t faults now c.held c db o h

  pub Steps-Holds :
      {k a : Str} {t u : ℕ} {x y : Db} → Steps k a t x u y → Holds k a t x → Holds k a u y
  Steps-Holds stop h = h
  Steps-Holds (step s ss) h = Steps-Holds ss (Step-Holds s h)
