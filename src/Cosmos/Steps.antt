-- ===== src/Cosmos/Steps.antt =====
-- How the lease of a feed lasts while others try for it (internal/coord/cosmosdb). The attempts that
-- are on the way to a replacement stand in a list, with the key and the etag that each has read.
use rss2msg.Prelude.{
  ℕ, ◌+◌, ◌<◌, ◌≡◌, ◌≢◌, ◌∙◌, refl, ap, sym, Str, true, Option, none, some, List, ◌∷◌, All, All-mem,
  Memᴰ, arith, ltb, Bool-cases, inl, inr,
}
use rss2msg.Prelude.Map.{lookup}
use rss2msg.Model.{Time}
use rss2msg.Coord.{unix_milli}
use rss2msg.Cosmos.Server.{
  LeaseDoc, Container, Failure, Reply, answer, refused, create_item, read_item, replace_item,
  is_status, lost_race, found,
}
use rss2msg.Cosmos.Leases.{
  Lease, Coordinator, replacing, after_create, after_read, after_replace, lock_key, try_create,
  try_read, try_replace, is_held, release_held, release, close_held, close,
}
use rss2msg.Cosmos.Held.{
  Holds, NamesOther, create-Holds, replace-Holds, delete-Holds, delete_all-Holds,
}

-- The leases that a coordinator holds are not that of the document.
abbrev HeldByOthers : Str → LeaseDoc → Option (List Lease) → Type 0
HeldByOthers k d none = Unit {0}
HeldByOthers k d (some ls) = All (λ l. NamesOther k d l.key l.etag) ls

abbrev pub Pending : Type 0
Pending = List (Str × ℕ)

-- No attempt on its way has read the version of the document.
abbrev pub ReadByNone : Str → LeaseDoc → Pending → Type 0
ReadByNone k d ps = All (λ p. NamesOther k d p.0 p.1) ps

module _ (sha256_hex : Str → Str) where
  -- What may happen until the lease of the document expires, while it is not given back: requests of
  -- any attempts for any feeds, with reads by clocks that show an earlier millisecond than its expiry,
  -- and releases and closes of other leases.
  pub data Step (k : Str) (d : LeaseDoc) : Pending → Container → Pending → Container → Type 0 where
    creates :
        (fault on_delete : Option Failure) (feed_url : Str) (now : Time) (c : Coordinator)
        (ps : Pending) (t : Container)
        → Step k d ps t ps (try_create sha256_hex fault on_delete feed_url now c t).1.1
    reads :
        (fault : Option Failure) (feed_url : Str) (now : Time) (etag : ℕ) (ps : Pending)
        (t : Container)
        → unix_milli now < d.lease_expiry
        → try_read sha256_hex fault feed_url now t ≡ replacing etag
        → Step k d ps t ((lock_key sha256_hex feed_url, etag) ∷ ps) t
    replaces :
        (fault on_delete : Option Failure) (feed_url : Str) (etag : ℕ) (now : Time)
        (c : Coordinator) (ps : Pending) (t : Container)
        → Memᴰ (lock_key sha256_hex feed_url, etag) ps
        → Step k d ps t ps (try_replace sha256_hex fault on_delete feed_url etag now c t).1.1
    releases :
        (fault : Option Failure) (l : Lease) (c : Coordinator) (ps : Pending) (t : Container)
        → NamesOther k d l.key l.etag
        → Step k d ps t ps (release fault l c t).1.1
    closes :
        (faults : ℕ → Option Failure) (c : Coordinator) (ps : Pending) (t : Container)
        → HeldByOthers k d c.held
        → Step k d ps t ps (close faults c t).1

  pub data Steps (k : Str) (d : LeaseDoc) : Pending → Container → Pending → Container → Type 0 where
    stop : {ps : Pending} {t : Container} → Steps k d ps t ps t
    step :
        {ps qs rs : Pending} {t u v : Container}
        → Step k d ps t qs u
        → Steps k d qs u rs v
        → Steps k d ps t rs v

  -- A lease that is won under another key, and given back by a closed coordinator, changes nothing.
  after_create-Holds :
      (k : Str) (d : LeaseDoc) (on_delete : Option Failure) (key : Str) (r : Reply ℕ)
      (held : Option (List Lease)) (c : Coordinator) (t : Container)
      → ((n : ℕ) → r ≡ answer n → key ≢ k)
      → Holds k d t
      → Holds k d (after_create on_delete key r (record c { held = held }) t).1.1
  after_create-Holds k d on_delete key (refused f) held c t other h =
      elim (Bool-cases (is_status f 409)) [ inl e ↦ rw e h | inr e ↦ rw e h ]
  after_create-Holds k d on_delete key (answer n) none c t other h =
      delete-Holds k d on_delete (record { key = key; owner = c.owner; etag = n }) t
        (λ same. absurd (other n refl same)) h
  after_create-Holds k d on_delete key (answer n) (some ls) c t other h = h

  after_replace-Holds :
      (k : Str) (d : LeaseDoc) (on_delete : Option Failure) (key : Str) (r : Reply ℕ)
      (held : Option (List Lease)) (c : Coordinator) (t : Container)
      → ((n : ℕ) → r ≡ answer n → key ≢ k)
      → Holds k d t
      → Holds k d (after_replace on_delete key r (record c { held = held }) t).1.1
  after_replace-Holds k d on_delete key (refused f) held c t other h =
      elim (Bool-cases (lost_race f)) [ inl e ↦ rw e h | inr e ↦ rw e h ]
  after_replace-Holds k d on_delete key (answer n) none c t other h =
      delete-Holds k d on_delete (record { key = key; owner = c.owner; etag = n }) t
        (λ same. absurd (other n refl same)) h
  after_replace-Holds k d on_delete key (answer n) (some ls) c t other h = h

  pub create_step :
      (k : Str) (d : LeaseDoc) (fault on_delete : Option Failure) (feed_url : Str) (now : Time)
      (c : Coordinator) (t : Container)
      → Holds k d t
      → Holds k d (try_create sha256_hex fault on_delete feed_url now c t).1.1
  unfolding try_create
  create_step k d fault on_delete feed_url now c t h =
      let key = lock_key sha256_hex feed_url in
      let expiry = unix_milli (now + c.lease_duration) in
      let (kept, other) = create-Holds k d fault key c.owner expiry t h in
      after_create-Holds k d on_delete key (create_item fault key c.owner expiry t).0 c.held c _
        other kept

  pub replace_step :
      (k : Str) (d : LeaseDoc) (fault on_delete : Option Failure) (feed_url : Str) (etag : ℕ)
      (now : Time) (c : Coordinator) (t : Container)
      → NamesOther k d (lock_key sha256_hex feed_url) etag
      → Holds k d t
      → Holds k d (try_replace sha256_hex fault on_delete feed_url etag now c t).1.1
  unfolding try_replace
  replace_step k d fault on_delete feed_url etag now c t names h =
      let key = lock_key sha256_hex feed_url in
      let expiry = unix_milli (now + c.lease_duration) in
      let (kept, other) = replace-Holds k d fault etag key c.owner expiry t names h in
      after_replace-Holds k d on_delete key (replace_item fault etag key c.owner expiry t).0 c.held
        c _ other kept

  refused_ends : (now : ℕ) (f : Failure) (etag : ℕ) → after_read now (refused f) ≢ replacing etag
  refused_ends now f etag h = elim (Bool-cases (is_status f 404)) [
    | inl e ↦ absurd (cc (rw e at h))
    | inr e ↦ absurd (cc (rw e at h))
  ]

  live_ends :
      (now : ℕ) (d : LeaseDoc) (etag : ℕ)
      → now < d.lease_expiry
      → after_read now (answer d) ≢ replacing etag
  live_ends now d etag lt h =
      let live : ltb now d.lease_expiry ≡ true = ground arith in absurd (cc (rw live at h))

  -- A live lease is not on the way to be replaced.
  read_other :
      (k : Str) (d : LeaseDoc) (fault : Option Failure) (feed_url : Str) (now : Time) (etag : ℕ)
      (t : Container)
      → unix_milli now < d.lease_expiry
      → try_read sha256_hex fault feed_url now t ≡ replacing etag
      → Holds k d t
      → NamesOther k d (lock_key sha256_hex feed_url) etag
  unfolding try_read read_item
  read_other k d (some f) feed_url now etag t lt h holds same =
      absurd (refused_ends (unix_milli now) f etag h)
  read_other k d none feed_url now etag t lt h holds same =
      let there : lookup (lock_key sha256_hex feed_url) t.docs ≡ some d =
        ap (λ j. lookup j t.docs) same ∙ holds in
      absurd (
        live_ends (unix_milli now) d etag lt
          (sym (ap (λ x. after_read (unix_milli now) (found x)) there) ∙ h))

  release-Holds :
      (k : Str) (d : LeaseDoc) (fault : Option Failure) (l : Lease) (held : Option (List Lease))
      (c : Coordinator) (t : Container)
      → NamesOther k d l.key l.etag
      → Holds k d t
      → Holds k d (release_held fault l held c t).1.1
  release-Holds k d fault l none c t o h = h
  release-Holds k d fault l (some ls) c t o h = elim (Bool-cases (is_held l.etag ls)) [
    | inl e ↦ rw e (delete-Holds k d fault l t o h)
    | inr e ↦ rw e h
  ]

  close-Holds :
      (k : Str) (d : LeaseDoc) (faults : ℕ → Option Failure) (held : Option (List Lease))
      (c : Coordinator) (t : Container)
      → HeldByOthers k d held
      → Holds k d t
      → Holds k d (close_held faults held c t).1
  close-Holds k d faults none c t o h = h
  close-Holds k d faults (some ls) c t o h = delete_all-Holds k d faults ls t o h

  Step-keeps :
      {k : Str} {d : LeaseDoc} {ps qs : Pending} {t u : Container}
      → Step k d ps t qs u
      → ReadByNone k d ps
      → Holds k d t
      → ReadByNone k d qs × Holds k d u
  unfolding release close
  Step-keeps {k} {d} (creates fault on_delete feed_url now c ps t) r h =
      (r, create_step k d fault on_delete feed_url now c t h)
  Step-keeps {k} {d} (reads fault feed_url now etag ps t lt e) r h =
      let more : ReadByNone k d ((lock_key sha256_hex feed_url, etag) ∷ ps) =
        (read_other k d fault feed_url now etag t lt e h, r) in
      (more, h)
  Step-keeps {k} {d} (replaces fault on_delete feed_url etag now c ps t m) r h = (
    r,
    replace_step k d fault on_delete feed_url etag now c t
        (All-mem (λ p. NamesOther k d p.0 p.1) ps r m) h,
  )
  Step-keeps {k} {d} (releases fault l c ps t o) r h = (r, release-Holds k d fault l c.held c t o h)
  Step-keeps {k} {d} (closes faults c ps t o) r h = (r, close-Holds k d faults c.held c t o h)

  pub Steps-keep :
      {k : Str} {d : LeaseDoc} {ps qs : Pending} {t u : Container}
      → Steps k d ps t qs u
      → ReadByNone k d ps
      → Holds k d t
      → ReadByNone k d qs × Holds k d u
  Steps-keep stop r h = (r, h)
  Steps-keep (step s ss) r h = let (r', h') = Step-keeps s r h in Steps-keep ss r' h'
