-- ===== src/Retry/Delay.antt =====
-- The backoff bound of internal/retry: never above the cap, and exact where int64 does not wrap.
use native.Mathlib.Nat.{one-le-pow}
use rss2msg.Prelude.{◌%◌, ℕ, ◌-◌, ◌*◌, ◌^◌, ◌≤◌, ◌<◌, ◌≡◌, arith, if◌then◌else◌}
use rss2msg.Prelude.Int.{pos, ◌≤ℤ◌, pos_part, shl, int64_span, ltb_ℤ, int64_half}
use rss2msg.Retry.{Config, normalise, ceiling}

-- `Do` works with at least one attempt and a positive base delay, whatever it was given.
pub normalise_floor :
    (cfg : Config)
    → (1 ≤ pos_part (normalise cfg).max_attempts) × (pos 1 ≤ℤ (normalise cfg).base_delay)
unfolding normalise
normalise_floor cfg = ground arith

-- The jitter's bound never passes the cap, whatever the shift does to the sign of an int64.
ceiling-le : (cfg : Config) (attempt : ℕ) → ceiling cfg attempt ≤ℤ cfg.max_delay
unfolding ceiling
ceiling-le cfg attempt = ground arith

shl_exact : (b k : ℕ) → b * 2 ^ k < int64_half → shl (pos b) k ≡ pos (b * 2 ^ k)
shl_exact b k fits =
    let small : b ≤ b * 2 ^ k = grind (arith, one-le-pow k 2) in
    let whole : b % int64_span ≡ b = omega arith in rw whole (ground arith)

-- As long as base * 2^(attempt-1) fits an int64 the bound is that product, or the cap if it is less.
pub ceiling_exact :
    (cfg : Config) (attempt b top : ℕ)
    → cfg.base_delay ≡ pos b
    → cfg.max_delay ≡ pos top
    → 0 < b
    → b * 2 ^ (attempt - 1) < int64_half
    → ceiling cfg attempt ≡ (
        if ltb_ℤ (pos top) (pos (b * 2 ^ (attempt - 1)))
        then pos top
        else pos (b * 2 ^ (attempt - 1)))
unfolding ceiling
ceiling_exact cfg attempt b top eb ec h fits =
    let positive : 0 < b * 2 ^ (attempt - 1) = grind (arith, one-le-pow (attempt - 1) 2) in
    rw (eb, ec) (rw (shl_exact b (attempt - 1) fits) (ground arith))
