-- ===== src/Pipeline/Lease.antt =====
-- The lease around one poll of cmd/rss2msg/pipeline.go.
use rss2msg.Prelude.{
  suc, ◌≡◌, refl, ap, Str, Bool, true, false, inl, inr, Option, none, some, List, [], ◌∷◌, ◌++◌,
  All, Bool-cases,
}
use rss2msg.Errors.{Err, Result, ok, err}
use rss2msg.Model.{Time, Change}
use rss2msg.Retry.{Ctx, run}
use rss2msg.Retry.Keeps.{run-keeps}
use rss2msg.State.{FeedMeta, get_feed_meta}
use rss2msg.World.{
  FetchRequest, FetchResult, Env, World, Event, took, acquired, released, tick, log_event,
}
use rss2msg.Sink.{RetryingPublisher, deliver}
use rss2msg.Sink.Keeps.{deliver-keeps}
use rss2msg.Feed.{Digest, detect}
use rss2msg.Pipeline.Committed.{trace-detect}
use rss2msg.Pipeline.{
  Pipeline, no_result, fetch_once, fetch_clock, deliver_all, publish_change, publish_changes,
  record_meta, process, after_detect, fetched, after_meta, after_acquire, meta_or_zero, poll,
  run_once,
}

-- The answers under which the poll is skipped: a coordinator error, or another holder.
pub data Skips : Result Bool → Type 0 where
  failed : (e : Err) → Skips (err e)
  held : Skips (ok false)

module _ (dig : Digest) (env : Env) (p : Pipeline) (ctx : Ctx) (feed_url : Str) (at : Time) where
  skip :
      (a : Result Bool) (w : World)
      → Skips a
      → after_acquire dig env p ctx feed_url at a w ≡ (ok [], record w { ticks = suc w.ticks })
  skip (err e) w (failed x) = refl
  skip (ok false) w held = refl
  skip (ok true) w s = elim s [ ]

  -- Without the lease the poll does nothing: no error, no change, no request to the feed or to a
  -- sink, and the store stays as it is.
  run_once-Skips :
      (w : World)
      → Skips (env.try_acquire feed_url w.ticks)
      → run_once dig env p ctx feed_url at w ≡ (ok [], record w { ticks = suc w.ticks })
  unfolding run_once
  run_once-Skips w s = skip (env.try_acquire feed_url w.ticks) w s

-- What every delivery adds to, the whole poll behind the lease adds to.
module _ (Q : List Event → Type 0)
    (took_keeps : (n : Str) (c : Change) (t : List Event) → Q t → Q (took n c ∷ t)) (dig : Digest)
    (env : Env) (p : Pipeline) (ctx : Ctx) (feed_url : Str) (at : Time) where
  deliver_all-keeps :
      (bs : List (Str × RetryingPublisher)) (c : Change) (w : World)
      → Q w.trace
      → Q (deliver_all env bs ctx c w).1.trace
  unfolding deliver_all
  deliver_all-keeps [] c w q = q
  deliver_all-keeps ((n, r) ∷ bs) c w q = deliver_all-keeps bs c (deliver env r ctx c w).1 (
      deliver-keeps (λ v. Q v.trace) (λ v h. h) (λ m d v h. took_keeps m d v.trace h) env r ctx c w
        q)

  publish_change-keeps :
      (c : Change) (w : World) → Q w.trace → Q (publish_change env p ctx feed_url c w).trace
  unfolding publish_change
  publish_change-keeps c w q = elim (Bool-cases (deliver_all env p.sinks ctx c w).0) [
    | inl e ↦ rw e (deliver_all-keeps p.sinks c w q)
    | inr e ↦ rw e (deliver_all-keeps p.sinks c w q)
  ]

  publish_changes-keeps :
      (cs : List Change) (w : World) → Q w.trace → Q (publish_changes env p ctx feed_url cs w).trace
  unfolding publish_changes
  publish_changes-keeps [] w q = q
  publish_changes-keeps (c ∷ cs) w q =
      publish_changes-keeps cs (publish_change env p ctx feed_url c w) (publish_change-keeps c w q)

  after_detect-keeps :
      (r : Result (List Change)) (v : World)
      → Q v.trace
      → Q (after_detect dig env p ctx feed_url at (r, v)).1.trace
  after_detect-keeps (err e) v q = q
  after_detect-keeps (ok cs) v q = publish_changes-keeps cs v q

  fetched-keeps :
      (e : Option Err) (not_modified : Bool) (res : FetchResult) (v : World)
      → Q v.trace
      → Q (fetched dig env p ctx feed_url at e not_modified res v).1.trace
  fetched-keeps (some x) m res v q = q
  fetched-keeps none true res v q = q
  fetched-keeps none false res v q =
      let u = record_meta env feed_url res v in
      let d = detect dig env feed_url res.feed at u in
      unfold process in
      after_detect-keeps d.0 d.1
        (rw (trace-detect dig env feed_url res.feed at u) (unfold record_meta in q))

  after_meta-keeps :
      (m : Result (Option FeedMeta)) (w : World)
      → Q w.trace
      → Q (after_meta dig env p ctx feed_url at m w).1.trace
  after_meta-keeps (err e) w q = q
  after_meta-keeps (ok m) w q =
      let meta = meta_or_zero m in
      let req : FetchRequest = record {
        url = feed_url;
        etag = meta.etag;
        last_modified = meta.last_modified;
      } in
      let s = run (fetch_clock env) ctx p.fetch_retry (fetch_once env req) (w, no_result) in
      fetched-keeps s.0.err s.1.1.not_modified s.1.1 s.1.0 (
        run-keeps (fetch_clock env) ctx (fetch_once env req) (λ t. Q t.0.trace)
          (λ t h. unfold fetch_once in h) (λ n t h. h) (λ d t h. h) p.fetch_retry (w, no_result) q)

  poll-keeps : (w : World) → Q w.trace → Q (poll dig env p ctx feed_url at w).1.trace
  poll-keeps w q =
      unfold poll in
      after_meta-keeps (get_feed_meta (env.db_fault w.ticks) w.db feed_url) (tick w) q

abbrev pub is_took : Event → Bool
is_took (took n c) = true
is_took (acquired f) = false
is_took (released f) = false

-- `t` is `base` with events of sinks before it.
abbrev Since : List Event → List Event → Type 0
Since base t = (mid : List Event) × (t ≡ mid ++ base) × All (λ e. is_took e ≡ true) mid

module _ (dig : Digest) (env : Env) (p : Pipeline) (ctx : Ctx) (feed_url : Str) (at : Time) where
  released_last :
      (a : Result Bool) (w : World)
      → a ≡ ok true
      → (mid : List Event) × ((after_acquire dig env p ctx feed_url at a w).1.trace
          ≡ released feed_url ∷ (mid ++ (acquired feed_url ∷ w.trace)))
        × All (λ e. is_took e ≡ true) mid
  released_last (ok false) w e = absurd (cc)
  released_last (err x) w e = absurd (cc)
  released_last (ok true) w e =
      let (mid, q, h) =
        poll-keeps (Since (acquired feed_url ∷ w.trace))
          (λ n c t k. (took n c ∷ k.0, ap (λ u. took n c ∷ u) k.1, (refl, k.2))) dig env p ctx
          feed_url at (log_event (acquired feed_url) w) ([], refl, tt) in
      (mid, ap (λ u. released feed_url ∷ u) q, h)

  -- A lease that was won is given back once, as the last step of the poll, however the poll ends;
  -- all that happens in between is that sinks take changes.
  pub run_once_releases :
      (w : World)
      → env.try_acquire feed_url w.ticks ≡ ok true
      → (mid : List Event) × ((run_once dig env p ctx feed_url at w).1.trace
          ≡ released feed_url ∷ (mid ++ (acquired feed_url ∷ w.trace)))
        × All (λ e. is_took e ≡ true) mid
  unfolding run_once
  run_once_releases w e = released_last (env.try_acquire feed_url w.ticks) w e
