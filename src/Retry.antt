-- ===== src/Retry.antt =====
-- internal/retry/retry.go. The state `S` is whatever the retried function acts on; the clock, the
-- context and the random source of Go's runtime are a `Clock` over it.
pub mod Delay
pub mod Runs
pub mod Keeps
use rss2msg.Prelude.{
  ℕ, zero, suc, ◌+◌, ◌-◌, Bool, true, false, not, ◌||◌, Option, none, some, ◌==◌, if◌then◌else◌,
}
use rss2msg.Prelude.Int.{ℤ, pos, pos_part, ltb_ℤ, leb_ℤ, shl, scale}
use rss2msg.Errors.{Err, join}

-- A derived context names the timeout that it was given, and the tick at which it was made.
pub data Ctx : Type 0 where
  root : Ctx
  with_timeout : Ctx → ℤ → ℕ → Ctx

-- `ctx_err` is ctx.Err(); `int64n d` is rand.Int64N(d); `select_done c d` waits for the first of
-- `<-ctx.Done()` (then the answer is true) and `<-time.After(d)`.
pub record Clock (S : Type 0) : Type 0 where
  pub ctx_err : Ctx → S → Option Err
  pub int64n : ℕ → S → ℕ × S
  pub select_done : Ctx → ℤ → S → Bool × S

pub record Config : Type 0 where
  pub max_attempts : ℤ
  pub base_delay : ℤ
  pub max_delay : ℤ
  pub retryable : Option (Err → Bool)

pub record Result : Type 0 where
  pub attempts : ℕ
  pub err : Option Err

-- `100 * time.Millisecond`
abbrev default_delay : ℤ
default_delay = pos 100_000_000

-- The three defaults at the head of `Do`.
unfoldable pub normalise : Config → Config
normalise cfg =
    let attempts = if ltb_ℤ cfg.max_attempts (pos 1) then pos 1 else cfg.max_attempts in
    let base = if leb_ℤ cfg.base_delay (pos 0) then default_delay else cfg.base_delay in
    let cap =
      if leb_ℤ cfg.max_delay (pos 0) || ltb_ℤ cfg.max_delay base
      then scale 10 base
      else cfg.max_delay in
    record cfg { max_attempts = attempts; base_delay = base; max_delay = cap }

-- The exclusive upper bound of the jitter, before `attempt + 1`.
unfoldable pub ceiling : Config → ℕ → ℤ
ceiling cfg attempt =
    let d = shl cfg.base_delay (attempt - 1) in
    if leb_ℤ d (pos 0) || ltb_ℤ cfg.max_delay d then cfg.max_delay else d

-- errors.Join drops a nil error.
abbrev join_last : Option Err → Err → Err
join_last none e = e
join_last (some last) e = join last e

abbrev join_ctx : Err → Option Err → Err
join_ctx last none = last
join_ctx last (some e) = join last e

-- `cfg.Retryable != nil && !cfg.Retryable(err)`
abbrev pub is_permanent : Option (Err → Bool) → Err → Bool
is_permanent none e = false
is_permanent (some p) e = not (p e)

module _ {S : Type 0} (clock : Clock S) where
  -- rand.Int64N panics unless its argument is positive, which the test excludes.
  unfoldable pub delay_for : Config → ℕ → S → ℤ × S
  unfolding ceiling
  delay_for cfg attempt s =
      let d = ceiling cfg attempt in
      if leb_ℤ d (pos 0)
      then (pos 0, s)
      else let (r, s') = clock.int64n (pos_part d) s in (pos r, s')

module _ {S : Type 0} (clock : Clock S) (ctx : Ctx) (cfg : Config) (fn : S → Option Err × S) where
  -- After a failed attempt: wait, unless it was the last one, and hand over to the next round.
  unfoldable pub after_failure : ℕ → Err → (Option Err → S → Result × S) → S → Result × S
  unfolding delay_for
  after_failure attempt e next s =
      if is_permanent cfg.retryable e
      then (record { attempts = attempt; err = some e }, s)
      else if attempt == pos_part cfg.max_attempts
      then (record { attempts = pos_part cfg.max_attempts; err = some e }, s)
      else let (d, s') = delay_for clock cfg attempt s in
        let (done, s'') = clock.select_done ctx d s' in
        if done
        then (record { attempts = attempt; err = some (join_ctx e (clock.ctx_err ctx s'')) }, s'')
        else next (some e) s''

  abbrev after_call : ℕ → (Option Err → S → Result × S) → Option Err → S → Result × S
  after_call attempt next none s = (record { attempts = attempt; err = none }, s)
  after_call attempt next (some e) s = after_failure attempt e next s

  abbrev round : ℕ → (Option Err → S → Result × S) → Option Err → Option Err → S → Result × S
  round attempt next last (some e) s =
      (record { attempts = attempt - 1; err = some (join_last last e) }, s)
  round attempt next last none s = let (r, s') = fn s in after_call attempt next r s'

  -- The loop, by the rounds that are left.
  unfoldable pub loop : ℕ → ℕ → Option Err → S → Result × S
  unfolding after_failure
  loop zero attempt last s = (record { attempts = pos_part cfg.max_attempts; err = last }, s)
  loop (suc n) attempt last s = round attempt (loop n (suc attempt)) last (clock.ctx_err ctx s) s

module _ {S : Type 0} (clock : Clock S) (ctx : Ctx) (cfg : Config) (fn : S → Option Err × S) where
  -- `Do` (`do` is a reserved word here).
  unfoldable pub run : S → Result × S
  unfolding loop
  run s = let c = normalise cfg in loop clock ctx c fn (pos_part c.max_attempts) 1 none s
