-- ===== src/Tests/Delivery.antt =====
-- Retries, dead letters and composites on small inputs.
use rss2msg.Prelude.{
  ℕ, suc, ◌-◌, ◌*◌, ◌^◌, ◌≡◌, refl, Str, lit, false, Option, none, some, [], arith, if◌then◌else◌,
  ◌==◌,
}
use rss2msg.Prelude.Int.{pos, ltb_ℤ}
use rss2msg.Errors.{Err}
use rss2msg.Model.{Time}
use rss2msg.Model.Hash.{Item, HasNoNul, norm, hash_input_inj}
use rss2msg.Retry.{Clock, root, normalise, ceiling, run}
use rss2msg.Retry.Delay.{ceiling_exact}
use rss2msg.Sink.{success, dlq, deliver_with, publish}
use rss2msg.Sink.Delivered.{Delivered}
use rss2msg.Sink.NoLoss.{publish-Delivered}
use rss2msg.Tests.Fixtures.{change, down, env, three_times, good_sink, bad_sink, fan_out, start}

ceiling_exact_example :
    ceiling three_times 2
    ≡ (if ltb_ℤ (pos 1000) (pos (100 * 2 ^ (2 - 1))) then pos 1000 else pos (100 * 2 ^ (2 - 1)))
ceiling_exact_example = ceiling_exact three_times 2 100 1000 refl refl (omega arith) (omega arith)

-- A clock over a counter of calls, and a function that always fails.
abbrev counter : Clock ℕ
counter = record {
  ctx_err = λ c n. none;
  int64n = λ d n. (0, n);
  select_done = λ c d n. (false, n);
}

abbrev fails : ℕ → Option Err × ℕ
fails n = (some down, suc n)

fails_thrice : run counter root three_times fails 0 ≡ (record { attempts = 3; err = some down }, 3)
unfolding run normalise
fails_thrice = refl

-- The second call succeeds.
abbrev second : ℕ → Option Err × ℕ
second n = (if n == 1 then none else some down, suc n)

second_succeeds : (run counter root three_times second 0).0.err ≡ none
unfolding run normalise
second_succeeds = refl

good_delivers :
    (deliver_with env
      (lit "good")
      (publish env good_sink)
      none
      three_times
      (pos 0)
      root
      change
      start).0.state
    ≡ success
unfolding deliver_with publish run normalise
good_delivers = refl

bad_captured :
    (deliver_with env
      (lit "bad")
      (publish env bad_sink)
      (some (publish env good_sink))
      three_times
      (pos 50)
      root
      change
      start).0.state
    ≡ dlq
unfolding deliver_with publish run normalise
bad_captured = refl

fan_out-none : (publish env fan_out root change start).0 ≡ none
unfolding publish run normalise
fan_out-none = refl

publish-Delivered_example : Delivered fan_out change (publish env fan_out root change start).1.trace
publish-Delivered_example = publish-Delivered env fan_out root change start fan_out-none

abbrev page : Item
page = record { title = lit "a  b"; link = lit "l"; body = []; author = lit "x"; updated = 3 }

abbrev clock_text : Time → Str
clock_text t = lit "z"

page-HasNoNul : HasNoNul page
page-HasNoNul = record { title = omega arith; link = omega arith; body = tt; author = omega arith }

hash_input_inj_example :
    (norm (lit "a  b") ≡ norm (lit "a  b"))
    × (norm (lit "l") ≡ norm (lit "l"))
    × (norm [] ≡ norm [])
    × (norm (lit "x") ≡ norm (lit "x"))
    × (norm (lit "z") ≡ norm (lit "z"))
hash_input_inj_example =
    hash_input_inj clock_text (λ t. omega arith) page page page-HasNoNul page-HasNoNul refl
