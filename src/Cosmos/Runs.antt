-- ===== src/Cosmos/Runs.antt =====
-- The runs of any coordinators over one container (internal/coord/cosmosdb).
use rss2msg.Prelude.{
  ℕ, ◌+◌, ◌<◌, ◌≡◌, refl, Str, Option, none, some, [], ◌∷◌, arith, ltb, Bool-cases, inl, inr,
}
use rss2msg.Prelude.Map.{lookup}
use rss2msg.Model.{Time}
use rss2msg.Coord.{unix_milli}
use rss2msg.Cosmos.Server.{
  LeaseDoc, Container, Failure, create_item, found, read_item, replace_item, is_status,
}
use rss2msg.Cosmos.Leases.{
  Lease, Coordinator, replacing, after_read, lock_key, try_create, try_read, try_replace, release,
  close,
}
use rss2msg.Cosmos.Steps.{Pending}
use rss2msg.Cosmos.Fresh.{
  DocsFresh, PendingFresh, Advances, trans-Advances, create-Advances, replace-Advances,
  after_create-Advances, after_replace-Advances, release-Advances, close-Advances,
}

module _ (sha256_hex : Str → Str) where
  -- The states that are reached from an empty container, with the replacements on their way.
  pub data Run : Pending → Container → Type 0 where
    starts : Run [] (record { docs = []; next_etag = 0 })
    run_create :
        {ps : Pending} {t : Container} (fault on_delete : Option Failure) (feed_url : Str)
        (now : Time) (c : Coordinator)
        → Run ps t
        → Run ps (try_create sha256_hex fault on_delete feed_url now c t).1.1
    run_read :
        {ps : Pending} {t : Container} (fault : Option Failure) (feed_url : Str) (now : Time)
        (etag : ℕ)
        → Run ps t
        → try_read sha256_hex fault feed_url now t ≡ replacing etag
        → Run ((lock_key sha256_hex feed_url, etag) ∷ ps) t
    run_replace :
        {ps : Pending} {t : Container} (fault on_delete : Option Failure) (feed_url : Str)
        (etag : ℕ) (now : Time) (c : Coordinator)
        → Run ps t
        → Run ps (try_replace sha256_hex fault on_delete feed_url etag now c t).1.1
    run_release :
        {ps : Pending} {t : Container} (fault : Option Failure) (l : Lease) (c : Coordinator)
        → Run ps t
        → Run ps (release fault l c t).1.1
    run_close :
        {ps : Pending} {t : Container} (faults : ℕ → Option Failure) (c : Coordinator)
        → Run ps t
        → Run ps (close faults c t).1

  -- The etags that attempts have read, and those of the documents, are given out.
  abbrev Fresh : Pending → Container → Type 0
  Fresh ps t = PendingFresh ps t × DocsFresh t

  advanced : (ps : Pending) (t u : Container) → Advances t u → PendingFresh ps t → PendingFresh ps u
  advanced [] t u a h = tt
  advanced (p ∷ ps) t u a h =
      let head : p.1 < u.next_etag = ground (arith, a.0, h.0) in (head, advanced ps t u a h.1)

  keeps-Fresh : (ps : Pending) (t u : Container) → Advances t u → Fresh ps t → Fresh ps u
  keeps-Fresh ps t u a h = (advanced ps t u a h.0, a.1 h.1)

  create_run :
      (fault on_delete : Option Failure) (feed_url : Str) (now : Time) (c : Coordinator)
      (t : Container)
      → Advances t (try_create sha256_hex fault on_delete feed_url now c t).1.1
  unfolding try_create
  create_run fault on_delete feed_url now c t =
      let key = lock_key sha256_hex feed_url in
      let expiry = unix_milli (now + c.lease_duration) in
      trans-Advances t _ _ (create-Advances fault key c.owner expiry t)
        (after_create-Advances on_delete key (create_item fault key c.owner expiry t).0 c.held c _)

  replace_run :
      (fault on_delete : Option Failure) (feed_url : Str) (etag : ℕ) (now : Time) (c : Coordinator)
      (t : Container)
      → Advances t (try_replace sha256_hex fault on_delete feed_url etag now c t).1.1
  unfolding try_replace
  replace_run fault on_delete feed_url etag now c t =
      let key = lock_key sha256_hex feed_url in
      let expiry = unix_milli (now + c.lease_duration) in
      trans-Advances t _ _ (replace-Advances fault etag key c.owner expiry t) (
        after_replace-Advances on_delete key (replace_item fault etag key c.owner expiry t).0 c.held
          c _)

  -- An etag that is read is that of a document.
  read_found :
      (now : ℕ) (x : Option LeaseDoc) (etag : ℕ)
      → after_read now (found x) ≡ replacing etag
      → (d : LeaseDoc) × (x ≡ some d) × (d.etag ≡ etag)
  read_found now none etag h = absurd (cc)
  read_found now (some d) etag h = elim (Bool-cases (ltb now d.lease_expiry)) [
    | inl e ↦ absurd (cc (rw e at h))
    | inr e ↦ let same : d.etag ≡ etag = cc (rw e at h) in (d, refl, same)
  ]

  read_run :
      (fault : Option Failure) (feed_url : Str) (now : Time) (etag : ℕ) (t : Container)
      → try_read sha256_hex fault feed_url now t ≡ replacing etag
      → DocsFresh t
      → etag < t.next_etag
  unfolding try_read read_item
  read_run (some f) feed_url now etag t h fresh = elim (Bool-cases (is_status f 404)) [
    | inl e ↦ absurd (cc (rw e at h))
    | inr e ↦ absurd (cc (rw e at h))
  ]
  read_run none feed_url now etag t h fresh =
      let (d, there, same) =
        read_found (unix_milli now) (lookup (lock_key sha256_hex feed_url) t.docs) etag h in
      rw (← same) (fresh (lock_key sha256_hex feed_url) d there)

  -- Every etag that is in use in a run has been given out by the server.
  pub Run-Fresh : {ps : Pending} {t : Container} → Run ps t → Fresh ps t
  unfolding release close
  Run-Fresh starts = (tt, λ k d there. absurd (unfold lookup in cc))
  Run-Fresh (run_create fault on_delete feed_url now c r) =
      keeps-Fresh _ _ _ (create_run fault on_delete feed_url now c _) (Run-Fresh r)
  Run-Fresh {ps} {t} (run_read fault feed_url now etag r e) =
      let (pending, docs) = Run-Fresh r in
      let more : PendingFresh ps t = (read_run fault feed_url now etag t e docs, pending) in
      (more, docs)
  Run-Fresh (run_replace fault on_delete feed_url etag now c r) =
      keeps-Fresh _ _ _ (replace_run fault on_delete feed_url etag now c _) (Run-Fresh r)
  Run-Fresh (run_release fault l c r) =
      keeps-Fresh _ _ _ (release-Advances fault l c.held c _) (Run-Fresh r)
  Run-Fresh (run_close faults c r) =
      keeps-Fresh _ _ _ (close-Advances faults c.held c _) (Run-Fresh r)
