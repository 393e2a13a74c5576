-- ===== src/Pipeline/Committed.antt =====
-- What one poll of cmd/rss2msg/pipeline.go may record as seen.
use rss2msg.Prelude.{
  ◌≡◌, refl, ◌∙◌, ap, inl, inr, Str, Bool, true, false, Option, none, some, List, [], ◌∷◌, Memᴰ,
}
use rss2msg.Errors.{Err, Result, ok, err, Result-cases}
use rss2msg.Model.{Time, Change}
use rss2msg.Retry.{Ctx, run}
use rss2msg.Retry.Keeps.{run-keeps}
use rss2msg.State.{Db, FeedMeta, select_item, upsert_feed_meta, get_feed_meta}
use rss2msg.World.{
  FeedItem, ParsedFeed, FetchRequest, FetchResult, Env, World, acquired, released, tick, log_event,
}
use rss2msg.Feed.{Digest, classify, detect_loop, detect}
use rss2msg.Pipeline.{
  Pipeline, no_result, fetch_once, fetch_clock, record_meta, publish_changes, process, after_detect,
  fetched, after_meta, after_acquire, meta_or_zero, poll, run_once,
}
use rss2msg.Pipeline.Publishing.{Recorded, KeptByAll-mono, publish_changes-Recorded}

seen_items-upsert_feed_meta :
    (fault : Option Err) (now : Time) (db : Db) (f : Str) (m : FeedMeta)
    → (upsert_feed_meta fault now db f m).1.seen_items ≡ db.seen_items
unfolding upsert_feed_meta
seen_items-upsert_feed_meta none now db f m = refl
seen_items-upsert_feed_meta (some e) now db f m = refl

seen_items-record_meta :
    (env : Env) (f : Str) (res : FetchResult) (w : World)
    → (record_meta env f res w).db.seen_items ≡ w.db.seen_items
unfolding record_meta
seen_items-record_meta env f res w =
    seen_items-upsert_feed_meta (env.db_fault w.ticks) (env.now w.ticks) w.db f _

module _ (dig : Digest) (env : Env) where
  db-classify :
      (f t : Str) (at : Time) (it : FeedItem) (w : World)
      → (classify dig env f t at it w).1.db ≡ w.db
  unfolding classify
  db-classify f t at it w = refl

  db-detect_loop :
      (f t : Str) (at : Time) (its : List FeedItem) (w : World)
      → (detect_loop dig env f t at its w).1.db ≡ w.db
  unfolding detect_loop
  db-detect_loop f t at [] w = refl
  db-detect_loop f t at (it ∷ its) w = elim (Result-cases (classify dig env f t at it w).0) [
    | inl (e, p) ↦ rw (p, detect_loop) refl
    | inr (c, p) ↦ rw (p, detect_loop) (db-detect_loop f t at its (tick w))
  ]

  pub db-detect :
      (f : Str) (feed : Option ParsedFeed) (at : Time) (w : World)
      → (detect dig env f feed at w).1.db ≡ w.db
  unfolding detect
  db-detect f none at w = refl
  db-detect f (some d) at w = db-detect_loop f d.title at _ w

  trace-detect_loop :
      (f t : Str) (at : Time) (its : List FeedItem) (w : World)
      → (detect_loop dig env f t at its w).1.trace ≡ w.trace
  unfolding detect_loop
  trace-detect_loop f t at [] w = refl
  trace-detect_loop f t at (it ∷ its) w = elim (Result-cases (classify dig env f t at it w).0) [
    | inl (e, p) ↦ rw (p, detect_loop) refl
    | inr (c, p) ↦ rw (p, detect_loop) (trace-detect_loop f t at its (tick w))
  ]

  pub trace-detect :
      (f : Str) (feed : Option ParsedFeed) (at : Time) (w : World)
      → (detect dig env f feed at w).1.trace ≡ w.trace
  unfolding detect
  trace-detect f none at w = refl
  trace-detect f (some d) at w = trace-detect_loop f d.title at _ w

module _ (dig : Digest) (env : Env) (p : Pipeline) (ctx : Ctx) (feed_url : Str) (at : Time)
    (f i : Str) where
  abbrev R : World → World → Type 0
  R = Recorded p feed_url f i

  -- Steps that leave the table of items alone may stand before the publishing loop.
  R-after : (v w w' : World) → v.db.seen_items ≡ w.db.seen_items → R v w' → R w w'
  R-after v w w' e (inl h) = inl (h ∙ ap (select_item f i) e)
  R-after v w w' e (inr h) = inr h

  after_detect-R :
      (r : Result (List Change)) (v w : World)
      → v.db.seen_items ≡ w.db.seen_items
      → R w (after_detect dig env p ctx feed_url at (r, v)).1
  after_detect-R (err x) v w e = inl (ap (select_item f i) e)
  after_detect-R (ok cs) v w e =
      R-after v w (publish_changes env p ctx feed_url cs v) e
        (publish_changes-Recorded env ctx p feed_url f i cs v)

  process-R : (res : FetchResult) (w : World) → R w (process dig env p ctx feed_url at res w).1
  process-R res w =
      let v = record_meta env feed_url res w in
      let d = detect dig env feed_url res.feed at v in
      unfold process in
      after_detect-R d.0 d.1 w (
        ap (λ db. db.seen_items) (db-detect dig env feed_url res.feed at v)
        ∙ seen_items-record_meta env feed_url res w)

  fetched-R :
      (e : Option Err) (not_modified : Bool) (res : FetchResult) (v w : World)
      → v.db.seen_items ≡ w.db.seen_items
      → R w (fetched dig env p ctx feed_url at e not_modified res v).1
  fetched-R (some x) m res v w e = inl (ap (select_item f i) e)
  fetched-R none true res v w e = inl (ap (select_item f i) e)
  fetched-R none false res v w e =
      R-after v w (process dig env p ctx feed_url at res v).1 e (process-R res v)

  fetch_keeps_db :
      (req : FetchRequest) (w : World)
      → (run (fetch_clock env) ctx p.fetch_retry (fetch_once env req) (w, no_result)).1.0.db ≡ w.db
  fetch_keeps_db req w =
      run-keeps (fetch_clock env) ctx (fetch_once env req) (λ s. s.0.db ≡ w.db)
        (λ s q. unfold fetch_once in q) (λ n s q. q) (λ d s q. q) p.fetch_retry (w, no_result) refl

  after_meta-R :
      (m : Result (Option FeedMeta)) (w : World) → R w (after_meta dig env p ctx feed_url at m w).1
  after_meta-R (err e) w = inl refl
  after_meta-R (ok m) w =
      let meta = meta_or_zero m in
      let req : FetchRequest = record {
        url = feed_url;
        etag = meta.etag;
        last_modified = meta.last_modified;
      } in
      let s = run (fetch_clock env) ctx p.fetch_retry (fetch_once env req) (w, no_result) in
      fetched-R s.0.err s.1.1.not_modified s.1.1 s.1.0 w
        (ap (λ db. db.seen_items) (fetch_keeps_db req w))

  poll-R : (w : World) → R w (poll dig env p ctx feed_url at w).1
  poll-R w =
      unfold poll in after_meta-R (get_feed_meta (env.db_fault w.ticks) w.db feed_url) (tick w)

  after_acquire-R :
      (a : Result Bool) (w : World) → R w (after_acquire dig env p ctx feed_url at a w).1
  after_acquire-R (err e) w = inl refl
  after_acquire-R (ok false) w = inl refl
  after_acquire-R (ok true) w = released-R (poll-R (log_event (acquired feed_url) w))
    where
      v : World
      v = (poll dig env p ctx feed_url at (log_event (acquired feed_url) w)).1

      released-R : R (log_event (acquired feed_url) w) v → R w (log_event (released feed_url) v)
      released-R (inl h) = inl h
      released-R (inr (c, a, b, s, k)) = inr (
        c,
        a,
        b,
        s,
        KeptByAll-mono p.sinks c v (log_event (released feed_url) v) (λ ev m. Memᴰ.tail m) k,
      )

-- Nothing is recorded as seen before it is delivered: after a poll the stored state of an item is
-- what it was, or it is the version that one change of this feed carries, and every sink of the
-- pipeline, or the dead-letter sink beside it, has that change.
pub run_once-Recorded :
    (dig : Digest) (env : Env) (p : Pipeline) (ctx : Ctx) (feed_url : Str) (at : Time) (f i : Str)
    (w : World)
    → Recorded p feed_url f i w (run_once dig env p ctx feed_url at w).1
run_once-Recorded dig env p ctx feed_url at f i w =
    unfold run_once in
    after_acquire-R dig env p ctx feed_url at f i (env.try_acquire feed_url w.ticks) w
