-- ===== src/Coord/Exclusion.antt =====
-- Why two instances do not hold the lease of one feed at a time (internal/coord/dynamodb).
use rss2msg.Prelude.{
  ℕ, ◌+◌, ◌≤◌, ◌≡◌, ◌≢◌, refl, ◌∙◌, ap, Str, true, not, Option, none, some, List, ◌∷◌, arith,
  str_eq, str_eq_refl, Bool-cases, inl, inr,
}
use rss2msg.Prelude.Map.{lookup, lookup-insert, lookup-filter_keys}
use rss2msg.Errors.{Err, ok}
use rss2msg.Model.{Time}
use rss2msg.Coord.{
  Row, Table, Lease, Coordinator, Write, written, condition_failed, failed, unix_milli, may_take,
  is_mine, put_item, delete_item, conditional_delete, after_put, lock_key, try_acquire, is_held,
  release_held, release,
}
use rss2msg.Coord.Held.{Holds, put-Holds, Steps, Steps-Holds}

module _ (sha256_hex : Str → Str) where
  put-written :
      (fault : Option Err) (key : Str) (row : Row) (now : ℕ) (t : Table)
      → (put_item fault key row now t).0 ≡ written
      → lookup key (put_item fault key row now t).1 ≡ some row
  unfolding put_item
  put-written (some e) key row now t h = absurd (cc)
  put-written none key row now t h = elim (Bool-cases (may_take now (lookup key t))) [
    | inl p ↦ rw p (lookup-insert key key row t ∙ rw (str_eq_refl key))
    | inr p ↦ absurd (cc (rw p at h))
  ]

  won-Holds :
      (fault on_delete : Option Err) (feed_url : Str) (now : Time) (c : Coordinator) (t : Table)
      (l : Lease)
      → (try_acquire sha256_hex fault on_delete feed_url now c t).0 ≡ ok (some l)
      → Holds
          (lock_key sha256_hex feed_url)
          c.owner
          (unix_milli (now + c.lease_duration))
          (try_acquire sha256_hex fault on_delete feed_url now c t).1.1
  unfolding try_acquire
  won-Holds fault on_delete feed_url now c t l h =
      let key = lock_key sha256_hex feed_url in
      let row : Row = record {
        owner = c.owner;
        lease_expiry = unix_milli (now + c.lease_duration);
      } in
      let p = put_item fault key row (unix_milli now) t in
      after p.0 p.1 (put-written fault key row (unix_milli now) t) c.held h
    where
      fresh : Lease
      fresh = record { key = lock_key sha256_hex feed_url; owner = c.owner; serial = c.next }

      after :
          (w : Write) (t' : Table)
          → (w ≡ written
              → Holds
                  (lock_key sha256_hex feed_url)
                  c.owner
                  (unix_milli (now + c.lease_duration))
                  t')
          → (held : Option (List Lease))
          → (after_put on_delete fresh w (record c { held = held }) t').0 ≡ ok (some l)
          → Holds
              (lock_key sha256_hex feed_url)
              c.owner
              (unix_milli (now + c.lease_duration))
              (after_put on_delete fresh w (record c { held = held }) t').1.1
      after (failed e) t' q held k = absurd (cc)
      after condition_failed t' q held k = absurd (cc)
      after written t' q none k = absurd (cc)
      after written t' q (some ls) k = q refl

  refused :
      (k a : Str) (until : ℕ) (fault : Option Err) (row : Row) (now : ℕ) (t : Table)
      → now ≤ until
      → Holds k a until t
      → (put_item fault k row now t).0 ≢ written
  refused k a until fault row now t le h w =
      cc ((put-Holds k a until fault k row now t le h).1 w, str_eq_refl k)

  -- A lease that was won and is not given back excludes every instance, its holder too, until it
  -- expires: after any attempts of any instances, and any releases and closes of the others, with
  -- requests that may fail, no attempt at the feed's lease wins it. The clocks that the attempts read
  -- show no later millisecond than its expiry.
  pub lease_exclusive :
      (fault on_delete later_fault later_delete : Option Err) (feed_url : Str) (now later : Time)
      (c other : Coordinator) (t u : Table) (l m : Lease)
      → (try_acquire sha256_hex fault on_delete feed_url now c t).0 ≡ ok (some l)
      → Steps sha256_hex c.owner
          (unix_milli (now + c.lease_duration))
          (try_acquire sha256_hex fault on_delete feed_url now c t).1.1
          u
      → unix_milli later ≤ unix_milli (now + c.lease_duration)
      → (try_acquire sha256_hex later_fault later_delete feed_url later other u).0 ≢ ok (some m)
  unfolding try_acquire
  lease_exclusive fault on_delete later_fault later_delete feed_url now later c other t u l m won
        steps le h =
      let key = lock_key sha256_hex feed_url in
      let row : Row = record {
        owner = other.owner;
        lease_expiry = unix_milli (later + other.lease_duration);
      } in
      after (put_item later_fault key row (unix_milli later) u).0
        (put_item later_fault key row (unix_milli later) u).1
        (refused key c.owner (unix_milli (now + c.lease_duration)) later_fault row
          (unix_milli later) u le
          (Steps-Holds sha256_hex key steps (won-Holds fault on_delete feed_url now c t l won)))
        h
    where
      fresh : Lease
      fresh = record {
        key = lock_key sha256_hex feed_url;
        owner = other.owner;
        serial = other.next;
      }

      after :
          (w : Write) (t' : Table)
          → w ≢ written
          → (after_put later_delete fresh w other t').0 ≢ ok (some m)
      after (failed e) t' q k = absurd (cc)
      after condition_failed t' q k = absurd (cc)
      after written t' q k = absurd (q refl)

  free_won :
      (later_delete : Option Err) (feed_url : Str) (later : Time) (other : Coordinator) (u : Table)
      (ls : List Lease)
      → lookup (lock_key sha256_hex feed_url) u ≡ none
      → other.held ≡ some ls
      → (m : Lease) × ((try_acquire sha256_hex none later_delete feed_url later other u).0
          ≡ ok (some m))
  unfolding try_acquire put_item
  free_won later_delete feed_url later other u ls free opened =
      let m : Lease = record {
        key = lock_key sha256_hex feed_url;
        owner = other.owner;
        serial = other.next;
      } in
      (m, rw (free, opened))

  deleted :
      (l : Lease) (until : ℕ) (t : Table)
      → Holds l.key l.owner until t
      → lookup l.key (conditional_delete none l t).1 ≡ none
  unfolding conditional_delete delete_item
  deleted l until t h =
      let mine : is_mine l.owner (lookup l.key t) ≡ true =
        ap (is_mine l.owner) h ∙ str_eq_refl l.owner in
      rw mine (lookup-filter_keys (λ j. not (str_eq j l.key)) l.key t ∙ rw (str_eq_refl l.key))

  -- A lease that its holder releases can be won at once, by any instance that is open, if the
  -- requests succeed.
  pub released_free :
      (now later : Time) (on_delete later_delete : Option Err) (feed_url : Str)
      (c other : Coordinator) (t : Table) (l : Lease) (ls : List Lease)
      → (try_acquire sha256_hex none on_delete feed_url now c t).0 ≡ ok (some l)
      → other.held ≡ some ls
      → let (c', t') = (try_acquire sha256_hex none on_delete feed_url now c t).1 in
        let t'' = (release none l c' t').1.1 in
        (m : Lease) × ((try_acquire sha256_hex none later_delete feed_url later other t'').0
          ≡ ok (some m))
  released_free now later on_delete later_delete feed_url c other t l ls won opened =
      free_won later_delete feed_url later other _ ls
        (unfold release in
          unfold try_acquire in
          after p.0 p.1 (put-written none key row (unix_milli now) t) c.held
            (unfold try_acquire in won))
        opened
    where
      key : Str
      key = lock_key sha256_hex feed_url

      row : Row
      row = record { owner = c.owner; lease_expiry = unix_milli (now + c.lease_duration) }

      p : Write × Table
      p = put_item none key row (unix_milli now) t

      fresh : Lease
      fresh = record { key = key; owner = c.owner; serial = c.next }

      after :
          (w : Write) (t' : Table)
          → (w ≡ written → Holds key c.owner row.lease_expiry t')
          → (held : Option (List Lease))
          → (after_put on_delete fresh w (record c { held = held }) t').0 ≡ ok (some l)
          → let (c', u) = (after_put on_delete fresh w (record c { held = held }) t').1 in
            lookup key (release_held none l c'.held c' u).1.1 ≡ none
      after (failed e) t' q held k = absurd (cc)
      after condition_failed t' q held k = absurd (cc)
      after written t' q none k = absurd (cc)
      after written t' q (some hs) k =
          rw (← fresh_is k) (rw (held_first hs) (deleted fresh row.lease_expiry t' (q refl)))
        where
          fresh_is : ok (some fresh) ≡ ok (some l) → fresh ≡ l
          fresh_is e = cc

          held_first : (hs : List Lease) → is_held fresh.serial (fresh ∷ hs) ≡ true
          held_first hs = unfold is_held in ground arith
