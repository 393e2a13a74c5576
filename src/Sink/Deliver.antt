-- ===== src/Sink/Deliver.antt =====
-- What `Deliver` of internal/sink/retrywrap.go reports, on each of its ways out.
use mathlib.Core.List.{append-nil}
use rss2msg.Prelude.{
  ap, ℕ, zero, suc, ◌≤◌, ◌≡◌, ◌≢◌, refl, inl, inr, Str, Option, none, some, [], ◌∷◌, ◌++◌, length,
  length-take-le, take, leb, arith, Bool-cases,
}
use rss2msg.Prelude.Int.{ℤ}
use rss2msg.Errors.{Err, error_text}
use rss2msg.Model.{Change}
use rss2msg.Retry
use rss2msg.Retry.{Ctx, Config, run}
use rss2msg.Retry.Runs.{Succeeded, run-Succeeded}
use rss2msg.World.{Env, World, clock}
use rss2msg.Sink.{
  success, dlq, truncate, dlq_error_max_bytes, Publish, envelope, dlq_result, bounded, hand_over,
  deliver_with,
}

truncate-prefix : (s : Str) (n : ℕ) → (rest : Str) × (truncate s n ++ rest ≡ s)
unfolding truncate
truncate-prefix s n = elim (Bool-cases (leb (length s) n)) [
  | inl e ↦ ([], rw e (append-nil s))
  | inr e ↦ rw e (cut n s)
]
  where
    cut : (n : ℕ) (s : Str) → (rest : Str) × (take n s ++ rest ≡ s)
    cut zero s = (s, refl)
    cut (suc n) [] = ([], refl)
    cut (suc n) (x ∷ s) = let (rest, e) = cut n s in (rest, ap (λ t. x ∷ t) e)

length-truncate-le : (s : Str) (n : ℕ) → length (truncate s n) ≤ n
unfolding truncate
length-truncate-le s n = ground (arith, length-take-le n s)

dlq_result-ne-success :
    (e : Err) (n : ℕ) (r : Option Err × World) → (dlq_result e n r).0.state ≢ success
dlq_result-ne-success e n (none, w) h = cc
dlq_result-ne-success e n (some d, w) h = cc

dlq_result-dlq :
    (e : Err) (n : ℕ) (r : Option Err × World)
    → (dlq_result e n r).0.state ≡ dlq
    → r ≡ (none, (dlq_result e n r).1)
dlq_result-dlq e n (none, w) h = refl
dlq_result-dlq e n (some d, w) h = absurd (cc)

-- The dead-letter envelope is the change itself, but for the three DLQ fields: the name of the sink
-- that failed, the attempts made, and at most 1024 bytes from the front of the error's text.
envelope_lem :
    (sink : Str) (e : Err) (n : ℕ) (c : Change)
    → let c' = envelope sink e n c in
      (record c' {
        dlq_from_sink = c.dlq_from_sink;
        dlq_error = c.dlq_error;
        dlq_attempts = c.dlq_attempts;
      }
        ≡ c)
      × (c'.dlq_from_sink ≡ sink)
      × (c'.dlq_attempts ≡ n)
      × (length c'.dlq_error ≤ 1024)
      × ((rest : Str) × (c'.dlq_error ++ rest ≡ error_text e))
unfolding envelope
envelope_lem sink e n c = (
  refl,
  refl,
  refl,
  length-truncate-le (error_text e) dlq_error_max_bytes,
  truncate-prefix (error_text e) dlq_error_max_bytes,
)

hand_over-success :
    (sink : Str) (dead : Option Publish) (ctx : Ctx) (c : Change) (n : ℕ) (r : Option Err)
    (w : World)
    → (hand_over sink dead ctx c n r w).0.state ≡ success
    → (r ≡ none) × ((hand_over sink dead ctx c n r w).1 ≡ w)
unfolding hand_over
hand_over-success sink dead ctx c n none w h = (refl, refl)
hand_over-success sink none ctx c n (some e) w h = absurd (cc)
hand_over-success sink (some f) ctx c n (some e) w h =
    absurd (dlq_result-ne-success e n (f ctx (envelope sink e n c) w) h)

-- The hand-over to a dead-letter sink that took the envelope of the change.
pub record Captured (sink : Str) (dead : Option Publish) (ctx : Ctx) (c : Change) (n : ℕ)
    (r : Option Err) (w w' : World) : Type 0 where
  pub send : Publish
  pub present : dead ≡ some send
  pub e : Err
  pub failed : r ≡ some e
  pub sent : send ctx (envelope sink e n c) w ≡ (none, w')

hand_over-dlq :
    (sink : Str) (dead : Option Publish) (ctx : Ctx) (c : Change) (n : ℕ) (r : Option Err)
    (w : World)
    → (hand_over sink dead ctx c n r w).0.state ≡ dlq
    → Captured sink dead ctx c n r w (hand_over sink dead ctx c n r w).1
unfolding hand_over
hand_over-dlq sink dead ctx c n none w h = absurd (cc)
hand_over-dlq sink none ctx c n (some e) w h = absurd (cc)
hand_over-dlq sink (some f) ctx c n (some e) w h = record {
  send = f;
  present = refl;
  e = e;
  failed = refl;
  sent = dlq_result-dlq e n (f ctx (envelope sink e n c) w) h;
}

module _ (env : Env) (sink : Str) (primary : Publish) (dead : Option Publish) (cfg : Config)
    (timeout : ℤ) (ctx : Ctx) (c : Change) (w : World) where
  abbrev ctx_of_delivery : Ctx
  ctx_of_delivery = bounded timeout ctx w

  -- The retries of the primary sink, within the delivery's context.
  abbrev attempt : Retry.Result × World
  attempt = run (clock env) ctx_of_delivery cfg (primary ctx_of_delivery c) w

  -- `Deliver` reports success only after a last call of the primary that returned nil, in the state
  -- that this call left: nothing more is done.
  pub deliver-success :
      (deliver_with env sink primary dead cfg timeout ctx c w).0.state ≡ success
      → Succeeded
          (clock env)
          ctx_of_delivery
          (primary ctx_of_delivery c)
          (deliver_with env sink primary dead cfg timeout ctx c w).1
  unfolding deliver_with hand_over
  deliver-success h =
      let (r, e) =
        hand_over-success sink dead ctx_of_delivery c attempt.0.attempts attempt.0.err attempt.1
          h in
      rw e (run-Succeeded (clock env) ctx_of_delivery (primary ctx_of_delivery c) cfg w r)

  -- `Deliver` reports a capture only if the retries failed, there is a dead-letter sink, and one
  -- call of it, made with the envelope of the change and the last error, returned nil.
  pub deliver-dlq :
      (deliver_with env sink primary dead cfg timeout ctx c w).0.state ≡ dlq
      → Captured sink dead ctx_of_delivery c attempt.0.attempts attempt.0.err attempt.1
          (deliver_with env sink primary dead cfg timeout ctx c w).1
  unfolding deliver_with
  deliver-dlq h =
      hand_over-dlq sink dead ctx_of_delivery c attempt.0.attempts attempt.0.err attempt.1 h
