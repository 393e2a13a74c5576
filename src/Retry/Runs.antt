-- ===== src/Retry/Runs.antt =====
-- How often `Do` of internal/retry calls the function, and when it gives up.
use rss2msg.Prelude.{
  ℕ, zero, suc, ◌+◌, ◌≤◌, ◌≡◌, refl, Bool, true, ◌⊎◌, inl, inr, Option, none, some, arith, ◌==◌,
  ◌≢◌, Bool-cases, Option-cases,
}
use rss2msg.Prelude.Int.{ℤ, pos_part}
use rss2msg.Errors.{Err}
use rss2msg.Retry.{
  Ctx, Clock, Config, Result, is_permanent, after_call, normalise, delay_for, after_failure, loop,
  run,
}
use rss2msg.Retry.Delay.{normalise_floor}

module _ {S : Type 0} (clock : Clock S) (ctx : Ctx) (fn : S → Option Err × S) (calls : S → ℕ)
    (fn_counts : (s : S) → calls (fn s).1 ≡ suc (calls s))
    (int64n_keeps : (n : ℕ) (s : S) → calls (clock.int64n n s).1 ≡ calls s)
    (select_keeps : (d : _) (s : S) → calls (clock.select_done ctx d s).1 ≡ calls s) where
  delay_for-calls :
      (cfg : Config) (attempt : ℕ) (s : S) → calls (delay_for clock cfg attempt s).1 ≡ calls s
  unfolding delay_for
  delay_for-calls cfg attempt s = grind (arith, int64n_keeps)

  loop-calls :
      (cfg : Config) (n attempt : ℕ) (last : Option Err) (s : S)
      → 1 ≤ attempt
      → attempt + n ≡ suc (pos_part cfg.max_attempts)
      → calls (loop clock ctx cfg fn n attempt last s).1 + attempt
        ≡ calls s + suc (loop clock ctx cfg fn n attempt last s).0.attempts
  unfolding loop
  loop-calls cfg zero attempt last s h k = omega arith
  loop-calls cfg (suc n) attempt last s h k =
      grind (arith, fn_counts, delay_for-calls, select_keeps, loop-calls cfg n)

  -- `Do` reports as `Attempts` how often it called the function.
  pub run-calls :
      (cfg : Config) (s : S)
      → calls (run clock ctx cfg fn s).1 ≡ calls s + (run clock ctx cfg fn s).0.attempts
  unfolding run
  run-calls cfg s =
      let c = normalise cfg in omega (arith, loop-calls c (pos_part c.max_attempts) 1 none s)

module _ {S : Type 0} (clock : Clock S) (ctx : Ctx) (fn : S → Option Err × S) where
  loop-attempts-le :
      (cfg : Config) (n attempt : ℕ) (last : Option Err) (s : S)
      → attempt + n ≡ suc (pos_part cfg.max_attempts)
      → (loop clock ctx cfg fn n attempt last s).0.attempts ≤ pos_part cfg.max_attempts
  unfolding loop
  loop-attempts-le cfg zero attempt last s k = omega arith
  loop-attempts-le cfg (suc n) attempt last s k = grind (arith, loop-attempts-le cfg n)

  -- `Do` never makes more than the configured attempts, where fewer than one counts as one.
  run-attempts-le :
      (cfg : Config) (s : S)
      → (run clock ctx cfg fn s).0.attempts ≤ pos_part (normalise cfg).max_attempts
  unfolding run
  run-attempts-le cfg s =
      let c = normalise cfg in loop-attempts-le c (pos_part c.max_attempts) 1 none s (omega arith)

  -- The last call of the function, of a run that ended well.
  pub record Succeeded (final : S) : Type 0 where
    pub before : S
    pub ready : clock.ctx_err ctx before ≡ none
    pub called : fn before ≡ (none, final)

  after_failure-Succeeded :
      (cfg : Config) (attempt : ℕ) (e : Err) (next : Option Err → S → Result × S) (s : S)
      → ((s' : S) → (next (some e) s').0.err ≡ none → Succeeded (next (some e) s').1)
      → (after_failure clock ctx cfg fn attempt e next s).0.err ≡ none
      → Succeeded (after_failure clock ctx cfg fn attempt e next s).1
  unfolding after_failure
  after_failure-Succeeded cfg attempt e next s later =
      elim (Bool-cases (is_permanent cfg.retryable e)) [
        | inl p ↦ rw p (λ h. absurd (cc))
        | inr p ↦ rw p (elim (Bool-cases (attempt == pos_part cfg.max_attempts)) [
          | inl q ↦ rw q (λ h. absurd (cc))
          | inr q ↦ rw q (elim (Bool-cases done) [
            | inl r ↦ rw r (λ h. absurd (cc))
            | inr r ↦ rw r (later waited)
          ])
        ])
      ]
    where
      done : Bool
      done = let (d, s') = delay_for clock cfg attempt s in (clock.select_done ctx d s').0

      waited : S
      waited = let (d, s') = delay_for clock cfg attempt s in (clock.select_done ctx d s').1

  after_call-Succeeded :
      (cfg : Config) (attempt : ℕ) (next : Option Err → S → Result × S) (s : S)
      → ((e : Err) (s' : S) → (next (some e) s').0.err ≡ none → Succeeded (next (some e) s').1)
      → clock.ctx_err ctx s ≡ none
      → (r : Option Err) (s' : S) → fn s ≡ (r, s')
      → (after_call clock ctx cfg fn attempt next r s').0.err ≡ none
      → Succeeded (after_call clock ctx cfg fn attempt next r s').1
  after_call-Succeeded cfg attempt next s later ready none s' e h = record {
    before = s;
    ready = ready;
    called = e;
  }
  after_call-Succeeded cfg attempt next s later ready (some x) s' e h =
      after_failure-Succeeded cfg attempt x next s' (later x) h

  loop-Succeeded :
      (cfg : Config) (n attempt : ℕ) (last : Option Err) (s : S)
      → (n ≡ 0 → last ≢ none)
      → (loop clock ctx cfg fn n attempt last s).0.err ≡ none
      → Succeeded (loop clock ctx cfg fn n attempt last s).1
  unfolding loop
  loop-Succeeded cfg zero attempt last s h e = absurd (h refl e)
  loop-Succeeded cfg (suc n) attempt last s h e =
      let again =
        λ (x : Err) (s' : S). loop-Succeeded cfg n (suc attempt) (some x) s' (λ _ k. absurd (cc)) in
      elim (Option-cases (clock.ctx_err ctx s)) [
        | inr (c, p) ↦ absurd (ground arith)
        | inl p ↦ rw p (
            after_call-Succeeded cfg attempt (loop clock ctx cfg fn n (suc attempt)) s again p
              (fn s).0 (fn s).1 refl (rw p at e))
      ]

  -- `Do` returns no error only if the last call of the function, made while the context was alive,
  -- returned none; the state is then the one which that call left.
  pub run-Succeeded :
      (cfg : Config) (s : S)
      → (run clock ctx cfg fn s).0.err ≡ none
      → Succeeded (run clock ctx cfg fn s).1
  unfolding run
  run-Succeeded cfg s =
      let c = normalise cfg in
      loop-Succeeded c (pos_part c.max_attempts) 1 none s
        (λ z _. absurd (omega (arith, normalise_floor cfg)))

module _ {S : Type 0} (clock : Clock S) (ctx : Ctx) (fn : S → Option Err × S)
    (done_means : (d : ℤ) (s : S)
      → (clock.select_done ctx d s).0 ≡ true
      → clock.ctx_err ctx (clock.select_done ctx d s).1 ≢ none) where
  -- Why a run ended with an error: the attempts are used up, the context is done, or the error is
  -- one that the policy does not retry.
  abbrev GaveUp : Config → Result × S → Type 0
  GaveUp cfg r =
      (e : Err)
      → r.0.err ≡ some e
      → (r.0.attempts ≡ pos_part cfg.max_attempts)
        ⊎ (clock.ctx_err ctx r.1 ≢ none)
        ⊎ (is_permanent cfg.retryable e ≡ true)
