-- ===== src/Cosmos/Exclusion.antt =====
-- Why two instances do not hold the lease of one feed at a time (internal/coord/cosmosdb).
use rss2msg.Prelude.{
  ℕ, ◌+◌, ◌≡◌, ◌∙◌, refl, ap, Str, Option, none, some, List, [], ◌∷◌, All-mem, Memᴰ, arith,
  str_eq_refl, Bool-cases, inl, inr,
}
use rss2msg.Prelude.Map.{lookup, lookup-insert}
use rss2msg.Errors.{ok}
use rss2msg.Model.{Time}
use rss2msg.Coord.{unix_milli}
use rss2msg.Cosmos.Server.{
  LeaseDoc, Container, Failure, Reply, answer, refused, put, create_if, create_item, refusal,
  replace_if, replace_item, is_status, lost_race,
}
use rss2msg.Cosmos.Leases.{
  Lease, Coordinator, finished, after_create, after_replace, lock_key, try_create, try_replace,
}
use rss2msg.Cosmos.Held.{Holds, NamesOther, create-Holds, replace-Holds}
use rss2msg.Cosmos.Steps.{Pending, ReadByNone, Steps, Steps-keep}
use rss2msg.Cosmos.Fresh.{PendingFresh}
use rss2msg.Cosmos.Runs.{Run, Run-Fresh}

put-there :
    (key owner : Str) (expiry : ℕ) (t : Container)
    → Holds key
        (record { owner = owner; lease_expiry = expiry; etag = t.next_etag })
        (put key owner expiry t)
unfolding put
put-there key owner expiry t =
    lookup-insert key key (record { owner = owner; lease_expiry = expiry; etag = t.next_etag })
      t.docs
    ∙ rw (str_eq_refl key)

create-there :
    (fault : Option Failure) (key owner : Str) (expiry n : ℕ) (t : Container)
    → (create_item fault key owner expiry t).0 ≡ answer n
    → Holds key
        (record { owner = owner; lease_expiry = expiry; etag = t.next_etag })
        (create_item fault key owner expiry t).1
unfolding create_item
create-there (some f) key owner expiry n t h = absurd (cc)
create-there none key owner expiry n t h = split (lookup key t.docs) h
  where
    split :
        (x : Option LeaseDoc)
        → (create_if x key owner expiry t).0 ≡ answer n
        → Holds key
            (record { owner = owner; lease_expiry = expiry; etag = t.next_etag })
            (create_if x key owner expiry t).1
    split none q = put-there key owner expiry t
    split (some d) q = absurd (cc)

replace-there :
    (fault : Option Failure) (etag : ℕ) (key owner : Str) (expiry n : ℕ) (t : Container)
    → (replace_item fault etag key owner expiry t).0 ≡ answer n
    → Holds key
        (record { owner = owner; lease_expiry = expiry; etag = t.next_etag })
        (replace_item fault etag key owner expiry t).1
unfolding replace_item
replace-there (some f) etag key owner expiry n t h = absurd (cc)
replace-there none etag key owner expiry n t h = split (refusal etag (lookup key t.docs)) h
  where
    split :
        (x : Option ℕ)
        → (replace_if x key owner expiry t).0 ≡ answer n
        → Holds key
            (record { owner = owner; lease_expiry = expiry; etag = t.next_etag })
            (replace_if x key owner expiry t).1
    split none q = put-there key owner expiry t
    split (some d) q = absurd (cc)

-- A request that ends in a lease was answered, and the attempt does nothing more.
created :
    (on_delete : Option Failure) (key : Str) (r : Reply ℕ) (held : Option (List Lease))
    (c : Coordinator) (t : Container) (l : Lease)
    → (after_create on_delete key r (record c { held = held }) t).0 ≡ finished (ok (some l))
    → (n : ℕ) × (r ≡ answer n)
      × ((after_create on_delete key r (record c { held = held }) t).1.1 ≡ t)
created on_delete key (refused f) held c t l h = elim (Bool-cases (is_status f 409)) [
  | inl e ↦ absurd (cc (rw e at h))
  | inr e ↦ absurd (cc (rw e at h))
]
created on_delete key (answer n) none c t l h = absurd (cc)
created on_delete key (answer n) (some ls) c t l h = (n, refl, refl)

replaced :
    (on_delete : Option Failure) (key : Str) (r : Reply ℕ) (held : Option (List Lease))
    (c : Coordinator) (t : Container) (l : Lease)
    → (after_replace on_delete key r (record c { held = held }) t).0 ≡ finished (ok (some l))
    → (n : ℕ) × (r ≡ answer n)
      × ((after_replace on_delete key r (record c { held = held }) t).1.1 ≡ t)
replaced on_delete key (refused f) held c t l h = elim (Bool-cases (lost_race f)) [
  | inl e ↦ absurd (cc (rw e at h))
  | inr e ↦ absurd (cc (rw e at h))
]
replaced on_delete key (answer n) none c t l h = absurd (cc)
replaced on_delete key (answer n) (some ls) c t l h = (n, refl, refl)

-- The document of a lease that is won at an instant.
abbrev pub leased : Time → Coordinator → Container → LeaseDoc
leased now c t = record {
  owner = c.owner;
  lease_expiry = unix_milli (now + c.lease_duration);
  etag = t.next_etag;
}

later_etags :
    (k : Str) (now : Time) (c : Coordinator) (ps : Pending) (t : Container)
    → PendingFresh ps t
    → ReadByNone k (leased now c t) ps
later_etags k now c [] t h = tt
later_etags k now c (p ∷ ps) t h =
    let other : NamesOther k (leased now c t) p.0 p.1 = λ same e. ground (arith, h.0, e) in
    (other, later_etags k now c ps t h.1)

module _ (sha256_hex : Str → Str) where
  -- An attempt at a feed wins a lease: its first request creates the document, or it replaces the
  -- version that it has read.
  pub data Wins (feed_url : Str) (now : Time) (c : Coordinator) (ps : Pending) (t : Container)
      (l : Lease) : Container → Type 0 where
    by_create :
        (fault on_delete : Option Failure)
        → (try_create sha256_hex fault on_delete feed_url now c t).0 ≡ finished (ok (some l))
        → Wins feed_url now c ps t l (try_create sha256_hex fault on_delete feed_url now c t).1.1
    by_replace :
        (fault on_delete : Option Failure) (etag : ℕ)
        → Memᴰ (lock_key sha256_hex feed_url, etag) ps
        → (try_replace sha256_hex fault on_delete feed_url etag now c t).0 ≡ finished (ok (some l))
        → Wins feed_url now c ps t l
            (try_replace sha256_hex fault on_delete feed_url etag now c t).1.1

  won-Holds :
      (feed_url : Str) (now : Time) (c : Coordinator) (ps : Pending) (t u : Container) (l : Lease)
      → Wins feed_url now c ps t l u
      → Holds (lock_key sha256_hex feed_url) (leased now c t) u
  unfolding try_create try_replace
  won-Holds feed_url now c ps t u l (by_create fault on_delete h) =
      let key = lock_key sha256_hex feed_url in
      let r = create_item fault key c.owner (unix_milli (now + c.lease_duration)) t in
      let (n, answered, still) = created on_delete key r.0 c.held c r.1 l h in
      ap (λ x. lookup key x.docs) still
      ∙ create-there fault key c.owner (unix_milli (now + c.lease_duration)) n t answered
  won-Holds feed_url now c ps t u l (by_replace fault on_delete etag m h) =
      let key = lock_key sha256_hex feed_url in
      let r = replace_item fault etag key c.owner (unix_milli (now + c.lease_duration)) t in
      let (n, answered, still) = replaced on_delete key r.0 c.held c r.1 l h in
      ap (λ x. lookup key x.docs) still
      ∙ replace-there fault etag key c.owner (unix_milli (now + c.lease_duration)) n t answered

  held_unwon :
      (feed_url : Str) (d : LeaseDoc) (now : Time) (c : Coordinator) (ps : Pending)
      (t u : Container) (l : Lease)
      → ReadByNone (lock_key sha256_hex feed_url) d ps
      → Holds (lock_key sha256_hex feed_url) d t
      → ¬ Wins feed_url now c ps t l u
  unfolding try_create try_replace
  held_unwon feed_url d now c ps t u l r h (by_create fault on_delete w) =
      let key = lock_key sha256_hex feed_url in
      let expiry = unix_milli (now + c.lease_duration) in
      let q = create_item fault key c.owner expiry t in
      let (n, answered, still) = created on_delete key q.0 c.held c q.1 l w in
      (create-Holds key d fault key c.owner expiry t h).1 n answered refl
  held_unwon feed_url d now c ps t u l r h (by_replace fault on_delete etag m w) =
      let key = lock_key sha256_hex feed_url in
      let expiry = unix_milli (now + c.lease_duration) in
      let q = replace_item fault etag key c.owner expiry t in
      let (n, answered, still) = replaced on_delete key q.0 c.held c q.1 l w in
      (replace-Holds key d fault etag key c.owner expiry t
          (All-mem (λ p. NamesOther key d p.0 p.1) ps r m) h).1
        n answered refl

  -- A lease that was won and is not given back excludes every instance, its holder too, until it
  -- expires, although an attempt reads the document in one request and replaces it in another. In any
  -- run of any coordinators from an empty container, after a lease of a feed is won, no attempt at
  -- the feed wins a lease for as long as the attempts read the document by clocks that show an earlier
  -- millisecond than its expiry and only other leases are released. An attempt that has read an
  -- expired lease before this one was won does not win either. Requests may fail.
  pub replaced_exclusive :
      (feed_url : Str) (now later : Time) (c other : Coordinator) (ps qs : Pending)
      (t u v w : Container) (l m : Lease)
      → Run sha256_hex ps t
      → Wins feed_url now c ps t l u
      → Steps sha256_hex (lock_key sha256_hex feed_url) (leased now c t) ps u qs v
      → ¬ Wins feed_url later other qs v m w
  replaced_exclusive feed_url now later c other ps qs t u v w l m run won steps =
      let key = lock_key sha256_hex feed_url in
      let fresh = later_etags key now c ps t (Run-Fresh sha256_hex run).0 in
      let (r, h) = Steps-keep sha256_hex steps fresh (won-Holds feed_url now c ps t u l won) in
      held_unwon feed_url (leased now c t) later other qs v w m r h
