-- ===== src/Sink/Keeps.antt =====
-- What one answer of a sink keeps, every delivery of internal/sink keeps, through retries, dead
-- letters and composites.
use rss2msg.Prelude.{ℕ, Str, Option, none, some, Memᴰ, ◌≡◌, refl}
use rss2msg.Prelude.Int.{ℤ}
use rss2msg.Errors.{Err}
use rss2msg.Model.{Change}
use rss2msg.Retry.{Ctx, Config, run}
use rss2msg.Retry.Keeps.{run-keeps}
use rss2msg.World.{Env, World, Event, took, tick, log_event, clock}
use rss2msg.Sink.{
  Publish, envelope, bounded, hand_over, dlq_result, deliver_with, Publisher, leaf, composite,
  Branches, no_branch, branch, RetryingPublisher, with_retry, DeadLetter, no_dlq, dlq_to, name,
  publish, publish_all, deliver, dead_letter, leaf_result,
}

pub dlq_result-world : (e : Err) (n : ℕ) (r : Option Err × World) → (dlq_result e n r).1 ≡ r.1
dlq_result-world e n (none, w) = refl
dlq_result-world e n (some d, w) = refl

module _ (P : World → Type 0) (tick_keeps : (w : World) → P w → P (tick w))
    (took_keeps : (n : Str) (c : Change) (w : World) → P w → P (log_event (took n c) w)) where
  abbrev Keeping : Publish → Type 0
  Keeping f = (ctx : Ctx) (c : Change) (w : World) → P w → P (f ctx c w).1

  abbrev KeepingIf : Option Publish → Type 0
  KeepingIf none = Unit {0}
  KeepingIf (some f) = Keeping f

  hand_over-keeps :
      (sink : Str) (dead : Option Publish) (ctx : Ctx) (c : Change) (n : ℕ) (r : Option Err)
      (w : World)
      → KeepingIf dead
      → P w
      → P (hand_over sink dead ctx c n r w).1
  unfolding hand_over
  hand_over-keeps sink dead ctx c n none w h q = q
  hand_over-keeps sink none ctx c n (some e) w h q = q
  hand_over-keeps sink (some f) ctx c n (some e) w h q =
      rw dlq_result-world (h ctx (envelope sink e n c) w q)

  deliver_with-keeps :
      (env : Env) (sink : Str) (primary : Publish) (dead : Option Publish) (cfg : Config)
      (timeout : ℤ) (ctx : Ctx) (c : Change) (w : World)
      → Keeping primary
      → KeepingIf dead
      → P w
      → P (deliver_with env sink primary dead cfg timeout ctx c w).1
  unfolding deliver_with
  deliver_with-keeps env sink primary dead cfg timeout ctx c w h k q =
      let ctx' = bounded timeout ctx w in
      let (r, w') = run (clock env) ctx' cfg (primary ctx' c) w in
      hand_over-keeps sink dead ctx' c r.attempts r.err w' k (
        run-keeps (clock env) ctx' (primary ctx' c) P (λ v p. h ctx' c v p)
          (λ n v p. tick_keeps v p) (λ d v p. tick_keeps v p) cfg w q)

  leaf_result-keeps :
      (n : Str) (c : Change) (r : Option Err) (w : World) → P w → P (leaf_result n c r w).1
  leaf_result-keeps n c none w q = took_keeps n c w q
  leaf_result-keeps n c (some e) w q = tick_keeps w q

  mutual
    unfolding publish

    publish-keeps : (env : Env) (p : Publisher) → Keeping (publish env p)
    publish-keeps env (leaf n) ctx c w q = leaf_result-keeps n c (env.publish n c w.ticks) w q
    publish-keeps env (composite n bs) ctx c w q = publish_all-keeps env bs ctx c w q

    publish_all-keeps :
        (env : Env) (bs : Branches) (ctx : Ctx) (c : Change) (w : World)
        → P w
        → P (publish_all env bs ctx c w).1
    publish_all-keeps env no_branch ctx c w q = q
    publish_all-keeps env (branch child r bs) ctx c w q =
        publish_all-keeps env bs ctx c (deliver env r ctx c w).1 (deliver-keeps env r ctx c w q)

    pub deliver-keeps :
        (env : Env) (r : RetryingPublisher) (ctx : Ctx) (c : Change) (w : World)
        → P w
        → P (deliver env r ctx c w).1
    deliver-keeps env (with_retry p d cfg timeout) ctx c w q =
        deliver_with-keeps env (name p) (publish env p) (dead_letter env d) cfg timeout ctx c w
          (publish-keeps env p) (dead_letter-keeps env d) q

    dead_letter-keeps : (env : Env) (d : DeadLetter) → KeepingIf (dead_letter env d)
    dead_letter-keeps env no_dlq = tt
    dead_letter-keeps env (dlq_to p) = publish-keeps env p

-- Publishing forgets no event.
pub publish_all-Grows :
    (env : Env) (bs : Branches) (ctx : Ctx) (c : Change) (w : World) (ev : Event)
    → Memᴰ ev w.trace
    → Memᴰ ev (publish_all env bs ctx c w).1.trace
publish_all-Grows env bs ctx c w ev m =
    publish_all-keeps (λ v. Memᴰ ev v.trace) (λ v q. q) (λ n d v q. Memᴰ.tail q) env bs ctx c w m

pub deliver-Grows :
    (env : Env) (r : RetryingPublisher) (ctx : Ctx) (c : Change) (w : World) (ev : Event)
    → Memᴰ ev w.trace
    → Memᴰ ev (deliver env r ctx c w).1.trace
deliver-Grows env r ctx c w ev m =
    deliver-keeps (λ v. Memᴰ ev v.trace) (λ v q. q) (λ n d v q. Memᴰ.tail q) env r ctx c w m

-- Publishing does not touch the state store.
pub db-deliver :
    (env : Env) (r : RetryingPublisher) (ctx : Ctx) (c : Change) (w : World)
    → (deliver env r ctx c w).1.db ≡ w.db
db-deliver env r ctx c w =
    deliver-keeps (λ v. v.db ≡ w.db) (λ v q. q) (λ n d v q. q) env r ctx c w refl
