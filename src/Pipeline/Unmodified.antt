-- ===== src/Pipeline/Unmodified.antt =====
-- Two polls of cmd/rss2msg/pipeline.go in a row, where the feed's server honours the validators
-- that the first one stored.
use rss2msg.Prelude.{
  ℕ, suc, ◌≡◌, refl, ◌∙◌, ap, Str, true, Option, none, some, List, [], ◌∷◌, str_eq_refl, Bool-cases,
  inl, inr,
}
use rss2msg.Errors.{Err, Result, ok, err}
use rss2msg.Model.{Time, Change}
use rss2msg.Retry.{Ctx}
use rss2msg.Retry.Keeps.{run_at_once}
use rss2msg.State.{Db, select_meta, get_feed_meta, upsert_item}
use rss2msg.State.Items.{get-upsert_feed_meta}
use rss2msg.World.{FetchRequest, FetchResult, Env, World, acquired, released, tick, log_event}
use rss2msg.Feed.{Digest, detect}
use rss2msg.Pipeline.{
  Pipeline, no_result, fetch_once, fetch_clock, deliver_all, record_item, publish_change,
  publish_changes, record_meta, process, after_detect, fetched, after_meta, after_acquire,
  with_release, poll, run_once,
}
use rss2msg.Pipeline.Publishing.{db-deliver_all}
use rss2msg.Pipeline.Committed.{db-detect}

module _ (env : Env) (p : Pipeline) (ctx : Ctx) (feed_url : Str) where
  feed_meta-record_item :
      (c : Change) (w : World) → (record_item env feed_url c w).db.feed_meta ≡ w.db.feed_meta
  feed_meta-record_item c w = unfold record_item in kept (env.db_fault w.ticks)
    where
      kept :
          (fault : Option Err)
          → (upsert_item fault w.db feed_url c.item_id c.content_hash c.detected_at).1.feed_meta
            ≡ w.db.feed_meta
      kept none = unfold upsert_item in refl
      kept (some e) = unfold upsert_item in refl

  feed_meta-publish_changes :
      (cs : List Change) (w : World)
      → (publish_changes env p ctx feed_url cs w).db.feed_meta ≡ w.db.feed_meta
  unfolding publish_changes
  feed_meta-publish_changes [] w = refl
  feed_meta-publish_changes (c ∷ cs) w =
      feed_meta-publish_changes cs (publish_change env p ctx feed_url c w) ∙ one
    where
      delivered : (deliver_all env p.sinks ctx c w).1.db.feed_meta ≡ w.db.feed_meta
      delivered = ap (λ (d : Db). d.feed_meta) (db-deliver_all env ctx p.sinks c w)

      one : (publish_change env p ctx feed_url c w).db.feed_meta ≡ w.db.feed_meta
      one = elim (Bool-cases (deliver_all env p.sinks ctx c w).0) [
        | inl e ↦ rw e (feed_meta-record_item c (deliver_all env p.sinks ctx c w).1 ∙ delivered)
        | inr e ↦ rw e delivered
      ]

module _ (dig : Digest) (env : Env) (p : Pipeline) (ctx : Ctx) (feed_url : Str) (at : Time) where
  feed_meta-after_detect :
      (r : Result (List Change)) (v : World)
      → (after_detect dig env p ctx feed_url at (r, v)).1.db.feed_meta ≡ v.db.feed_meta
  feed_meta-after_detect (err e) v = refl
  feed_meta-after_detect (ok cs) v = feed_meta-publish_changes env p ctx feed_url cs v

  feed_meta-process :
      (res : FetchResult) (w : World)
      → (process dig env p ctx feed_url at res w).1.db.feed_meta
        ≡ (record_meta env feed_url res w).db.feed_meta
  feed_meta-process res w =
      let v = record_meta env feed_url res w in
      let d = detect dig env feed_url res.feed at v in
      unfold process in
      (feed_meta-after_detect d.0 d.1
        ∙ ap (λ (b : Db). b.feed_meta) (db-detect dig env feed_url res.feed at v))

  meta-record_meta :
      (res : FetchResult) (w : World)
      → env.db_fault w.ticks ≡ none
      → get_feed_meta none (record_meta env feed_url res w).db feed_url
        ≡ ok (some (record { etag = res.etag; last_modified = res.last_modified }))
  meta-record_meta res w h =
      unfold record_meta in
      rw h (
        rw
          (get-upsert_feed_meta w.db feed_url feed_url (env.now w.ticks)
            (record { etag = res.etag; last_modified = res.last_modified })).0
          (rw (str_eq_refl feed_url)))

  -- Whatever becomes of its changes, a fetched feed leaves its validators in the store.
  stored_validators :
      (res : FetchResult) (w : World)
      → env.db_fault w.ticks ≡ none
      → get_feed_meta none (process dig env p ctx feed_url at res w).1.db feed_url
        ≡ ok (some (record { etag = res.etag; last_modified = res.last_modified }))
  unfolding get_feed_meta
  stored_validators res w h =
      ap (λ ms. ok (select_meta feed_url ms)) (feed_meta-process res w) ∙ meta-record_meta res w h

  abbrev pub conditional : FetchResult → FetchRequest
  conditional res = record { url = feed_url; etag = res.etag; last_modified = res.last_modified }

  -- A poll whose conditional request is answered "not modified" at once.
  unmodified_poll :
      (res not_new : FetchResult) (w : World)
      → not_new.not_modified ≡ true
      → env.db_fault w.ticks ≡ none
      → env.ctx_err ctx (suc w.ticks) ≡ none
      → env.fetch (conditional res) (suc w.ticks) ≡ (not_new, none)
      → get_feed_meta none w.db feed_url
        ≡ ok (some (record { etag = res.etag; last_modified = res.last_modified }))
      → poll dig env p ctx feed_url at w ≡ (ok [], tick (tick w))
  unmodified_poll res not_new w old fine alive answer stored =
      unfold poll in
      (ap (λ x. after_meta dig env p ctx feed_url at (get_feed_meta x w.db feed_url) (tick w)) fine
        ∙ ap (λ m. after_meta dig env p ctx feed_url at m (tick w)) stored
        ∙ ap (λ r. fetched dig env p ctx feed_url at r.0.err r.1.1.not_modified r.1.1 r.1.0)
            (run_at_once (fetch_clock env) ctx (fetch_once env (conditional res)) p.fetch_retry
              (tick w, no_result) (tick (tick w), not_new) alive (unfold fetch_once in rw answer))
        ∙ ap (λ b. fetched dig env p ctx feed_url at none b not_new (tick (tick w))) old)

  unmodified_run :
      (res not_new : FetchResult) (w : World)
      → not_new.not_modified ≡ true
      → ((n : ℕ) → env.db_fault n ≡ none)
      → ((n : ℕ) → env.ctx_err ctx n ≡ none)
      → ((n : ℕ) → env.try_acquire feed_url n ≡ ok true)
      → ((n : ℕ) → env.fetch (conditional res) n ≡ (not_new, none))
      → get_feed_meta none w.db feed_url
        ≡ ok (some (record { etag = res.etag; last_modified = res.last_modified }))
      → run_once dig env p ctx feed_url at w
        ≡ with_release dig env p ctx feed_url at
            (ok [], tick (tick (log_event (acquired feed_url) w)))
  unmodified_run res not_new w old fine alive granted answer stored =
      let leased = log_event (acquired feed_url) w in
      unfold run_once in
      (ap (λ a. after_acquire dig env p ctx feed_url at a w) (granted w.ticks)
        ∙ ap (with_release dig env p ctx feed_url at) (
            unmodified_poll res not_new leased old (fine leased.ticks) (alive (suc leased.ticks))
              (answer (suc leased.ticks)) stored))

module _ (dig : Digest) (env : Env) (p : Pipeline) (ctx : Ctx) (feed_url : Str) where
  -- A poll stores the feed's validators whether or not its changes were delivered. So where the
  -- feed's server then answers "not modified" to them, the next poll publishes nothing and leaves
  -- the store as it is, also for an item that the first poll dropped and did not record.
  pub unmodified_next :
      (res not_new : FetchResult) (w : World) (at next : Time)
      → not_new.not_modified ≡ true
      → ((n : ℕ) → env.db_fault n ≡ none)
      → ((n : ℕ) → env.ctx_err ctx n ≡ none)
      → ((n : ℕ) → env.try_acquire feed_url n ≡ ok true)
      → ((n : ℕ) → env.fetch (conditional dig env p ctx feed_url at res) n ≡ (not_new, none))
      → let w' = (process dig env p ctx feed_url at res w).1 in
        let (r, w'') = run_once dig env p ctx feed_url next w' in
        (r ≡ ok [])
        × (w''.db ≡ w'.db)
        × (w''.trace ≡ released feed_url ∷ acquired feed_url ∷ w'.trace)
  unmodified_next res not_new w at next old fine alive granted answer =
      let w' = (process dig env p ctx feed_url at res w).1 in
      let e =
        unmodified_run dig env p ctx feed_url next res not_new w' old fine alive granted answer
          (stored_validators dig env p ctx feed_url at res w (fine w.ticks)) in
      (ap (λ r. r.0) e, ap (λ r. r.1.db) e, ap (λ r. r.1.trace) e)
