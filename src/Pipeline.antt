-- ===== src/Pipeline.antt =====
-- cmd/rss2msg/pipeline.go: one poll of one feed, from the lease to the recorded state. Spans, logs
-- and metrics are left out.
pub mod Lease
pub mod Publishing
pub mod Committed
pub mod Unmodified
use rss2msg.Prelude.{
  ℕ, suc, Str, Bool, true, false, ◌&&◌, Option, none, some, List, [], ◌∷◌, if◌then◌else◌,
}
use rss2msg.Errors.{Err, Result, ok, err}
use rss2msg.Model.{Time, Change}
use rss2msg.Retry
use rss2msg.Retry.{Ctx, Clock, Config, run}
use rss2msg.State.{FeedMeta, get_feed_meta, upsert_feed_meta, upsert_item}
use rss2msg.World.{
  FetchRequest, FetchResult, Env, World, acquired, released, tick, log_event, clock,
}
use rss2msg.Sink.{BranchState, success, dlq, dropped, RetryingPublisher, deliver}
use rss2msg.Feed.{Digest, detect}

-- The `pipeline` struct: the sink branches under their names, and the retry policy of a fetch.
pub record Pipeline : Type 0 where
  pub sinks : List (Str × RetryingPublisher)
  pub fetch_retry : Config

abbrev no_meta : FeedMeta
no_meta = record { etag = []; last_modified = 0 }

abbrev pub no_result : FetchResult
no_result = record { status = 0; not_modified = false; etag = []; last_modified = 0; feed = none }

-- The closure that `retry.Do` calls: it overwrites `res` on every attempt.
unfoldable pub fetch_once :
    Env → FetchRequest → World × FetchResult → Option Err × (World × FetchResult)
fetch_once env req (w, res) = let (res', e) = env.fetch req w.ticks in (e, (tick w, res'))

-- The clock of the retried closure, whose state has `res` beside the world.
abbrev pub fetch_clock : Env → Clock (World × FetchResult)
fetch_clock env = record {
  ctx_err = λ c s. env.ctx_err c s.0.ticks;
  int64n = λ n s. (env.int64n n s.0.ticks, (tick s.0, s.1));
  select_done = λ c d s. (env.select_done c d s.0.ticks, (tick s.0, s.1));
}

-- A branch that was neither delivered nor captured clears `allOK`.
abbrev pub is_ok : BranchState → Bool
is_ok success = true
is_ok dlq = true
is_ok dropped = false

-- `for _, b := range p.sinks`; the answer is `allOK`.
unfoldable pub deliver_all :
    Env → List (Str × RetryingPublisher) → Ctx → Change → World → Bool × World
deliver_all env [] ctx c w = (true, w)
deliver_all env ((n, r) ∷ bs) ctx c w =
    let (res, w') = deliver env r ctx c w in
    let (rest, w'') = deliver_all env bs ctx c w' in (is_ok res.state && rest, w'')

-- UpsertItem; an error is logged and otherwise ignored.
unfoldable pub record_item : Env → Str → Change → World → World
unfolding upsert_item
record_item env feed_url c w =
    let (e, db) =
      upsert_item (env.db_fault w.ticks) w.db feed_url c.item_id c.content_hash c.detected_at in
    record w { ticks = suc w.ticks; db = db }

unfoldable pub publish_change : Env → Pipeline → Ctx → Str → Change → World → World
unfolding deliver_all record_item
publish_change env p ctx feed_url c w =
    let (all_ok, w') = deliver_all env p.sinks ctx c w in
    if all_ok then record_item env feed_url c w' else w'

-- `for _, c := range changes`
unfoldable pub publish_changes : Env → Pipeline → Ctx → Str → List Change → World → World
unfolding publish_change
publish_changes env p ctx feed_url [] w = w
publish_changes env p ctx feed_url (c ∷ cs) w =
    publish_changes env p ctx feed_url cs (publish_change env p ctx feed_url c w)

-- UpsertFeedMeta; an error is logged and otherwise ignored.
unfoldable pub record_meta : Env → Str → FetchResult → World → World
unfolding upsert_feed_meta
record_meta env feed_url res w =
    let (e, db) =
      upsert_feed_meta (env.db_fault w.ticks) (env.now w.ticks) w.db feed_url
        (record { etag = res.etag; last_modified = res.last_modified }) in
    record w { ticks = suc w.ticks; db = db }

abbrev pub meta_or_zero : Option FeedMeta → FeedMeta
meta_or_zero none = no_meta
meta_or_zero (some m) = m

module _ (dig : Digest) (env : Env) (p : Pipeline) (ctx : Ctx) (feed_url : Str) (at : Time) where
  abbrev pub Answer : Type 0
  Answer = Result (List Change) × World

  abbrev pub after_detect : Result (List Change) × World → Answer
  after_detect (err e, w) = (err e, w)
  after_detect (ok cs, w) = (ok cs, publish_changes env p ctx feed_url cs w)

  -- From the fetched feed to the end, with `res` as the last attempt left it.
  unfoldable pub process : FetchResult → World → Answer
  unfolding detect
  process res w =
      let w' = record_meta env feed_url res w in
      after_detect (detect dig env feed_url res.feed at w')

  -- `if rr.Err != nil { … }`, then `if res.NotModified { … }`.
  abbrev pub fetched : Option Err → Bool → FetchResult → World → Answer
  fetched (some e) not_modified res w = (err e, w)
  fetched none true res w = (ok [], w)
  fetched none false res w = process res w

  abbrev after_fetch : Retry.Result × (World × FetchResult) → Answer
  after_fetch (r, (w, res)) = fetched r.err res.not_modified res w

  abbrev pub after_meta : Result (Option FeedMeta) → World → Answer
  after_meta (err e) w = (err e, w)
  after_meta (ok m) w =
      let meta = meta_or_zero m in
      let req : FetchRequest = record {
        url = feed_url;
        etag = meta.etag;
        last_modified = meta.last_modified;
      } in
      after_fetch (run (fetch_clock env) ctx p.fetch_retry (fetch_once env req) (w, no_result))

  -- The body of `RunOnce` behind the lease.
  unfoldable pub poll : World → Answer
  unfolding get_feed_meta process fetch_once
  poll w = after_meta (get_feed_meta (env.db_fault w.ticks) w.db feed_url) (tick w)

  abbrev pub with_release : Answer → Answer
  with_release (r, w) = (r, log_event (released feed_url) w)

  -- A coordinator error and a lease that another instance holds both skip the poll.
  abbrev pub after_acquire : Result Bool → World → Answer
  after_acquire (err e) w = (ok [], tick w)
  after_acquire (ok false) w = (ok [], tick w)
  after_acquire (ok true) w = with_release (poll (log_event (acquired feed_url) w))

  -- `RunOnce`
  unfoldable pub run_once : World → Answer
  unfolding poll
  run_once w = after_acquire (env.try_acquire feed_url w.ticks) w
