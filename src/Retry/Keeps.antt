-- ===== src/Retry/Keeps.antt =====
-- What a whole run of `Do` of internal/retry preserves.
use rss2msg.Prelude.{
  ℕ, zero, suc, ◌-◌, ◌≡◌, Bool, inl, inr, Option, none, some, arith, ◌==◌, Bool-cases, Option-cases,
}
use rss2msg.Prelude.Int.{ℤ, pos, pos_part, leb_ℤ}
use rss2msg.Errors.{Err}
use rss2msg.Retry.{
  Ctx, Clock, Config, Result, ceiling, is_permanent, normalise, delay_for, after_failure, loop, run,
}
use rss2msg.Retry.Delay.{normalise_floor}

-- What one call and one wait keep, a whole run keeps.
module _ {S : Type 0} (clock : Clock S) (ctx : Ctx) (fn : S → Option Err × S) (P : S → Type 0)
    (fn_keeps : (s : S) → P s → P (fn s).1)
    (int64n_keeps : (n : ℕ) (s : S) → P s → P (clock.int64n n s).1)
    (select_keeps : (d : ℤ) (s : S) → P s → P (clock.select_done ctx d s).1) where
  delay_for-keeps : (cfg : Config) (attempt : ℕ) (s : S) → P s → P (delay_for clock cfg attempt s).1
  unfolding delay_for
  delay_for-keeps cfg attempt s h = elim (Bool-cases (leb_ℤ (ceiling cfg attempt) (pos 0))) [
    | inl e ↦ rw e h
    | inr e ↦ rw e (int64n_keeps (pos_part (ceiling cfg attempt)) s h)
  ]

  after_failure-keeps :
      (cfg : Config) (attempt : ℕ) (e : Err) (next : Option Err → S → Result × S) (s : S)
      → ((s' : S) → P s' → P (next (some e) s').1)
      → P s
      → P (after_failure clock ctx cfg fn attempt e next s).1
  unfolding after_failure
  after_failure-keeps cfg attempt e next s later h =
      elim (Bool-cases (is_permanent cfg.retryable e)) [
        | inl p ↦ rw p h
        | inr p ↦ rw p (elim (Bool-cases (attempt == pos_part cfg.max_attempts)) [
          | inl q ↦ rw q h
          | inr q ↦
              rw q (elim (Bool-cases done) [ inl r ↦ rw r waited | inr r ↦ rw r (later _ waited) ])
        ])
      ]
    where
      delay : ℤ
      delay = (delay_for clock cfg attempt s).0

      waiting : S
      waiting = (delay_for clock cfg attempt s).1

      done : Bool
      done = (clock.select_done ctx delay waiting).0

      waited : P (clock.select_done ctx delay waiting).1
      waited = select_keeps delay waiting (delay_for-keeps cfg attempt s h)

  loop-keeps :
      (cfg : Config) (n attempt : ℕ) (last : Option Err) (s : S)
      → P s
      → P (loop clock ctx cfg fn n attempt last s).1
  unfolding loop
  loop-keeps cfg zero attempt last s h = h
  loop-keeps cfg (suc n) attempt last s h = elim (Option-cases (clock.ctx_err ctx s)) [
    | inr (c, p) ↦ rw p h
    | inl p ↦ rw p (elim (Option-cases (fn s).0) [
      | inl q ↦ rw q (fn_keeps s h)
      | inr (x, q) ↦ rw q (
          after_failure-keeps cfg attempt x (loop clock ctx cfg fn n (suc attempt)) (fn s).1
            (loop-keeps cfg n (suc attempt) (some x)) (fn_keeps s h))
    ])
  ]

  pub run-keeps : (cfg : Config) (s : S) → P s → P (run clock ctx cfg fn s).1
  unfolding run
  run-keeps cfg s h = let c = normalise cfg in loop-keeps c (pos_part c.max_attempts) 1 none s h

-- A first call that returns nil ends the run.
pub run_at_once :
    {S : Type 0} (clock : Clock S) (ctx : Ctx) (fn : S → Option Err × S) (cfg : Config) (s s' : S)
    → clock.ctx_err ctx s ≡ none
    → fn s ≡ (none, s')
    → run clock ctx cfg fn s ≡ (record { attempts = 1; err = none }, s')
unfolding run
run_at_once clock ctx fn cfg s s' alive e =
    let c = normalise cfg in
    let some_round : pos_part c.max_attempts ≡ suc (pos_part c.max_attempts - 1) =
      omega (arith, normalise_floor cfg) in
    rw some_round (rw (loop, alive) (rw e))
