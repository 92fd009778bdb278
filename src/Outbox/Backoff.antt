-- ===== src/Outbox/Backoff.antt =====
-- What the delays of `compute_backoff_secs` and the clamped settings come to.
use Prim.Native.Nat.{min}
use native.Mathlib.Nat.{pow-le-pow_right}
use hrm_grag.Outbox.{compute_backoff_secs}
use hrm_grag.Prelude.{arith, ℕ, ◌*◌, ◌^◌, ◌≡◌, ◌≤◌}
use hrm_grag.Prelude.Int.{i64_max, max_zero, pos, pred_clamp_30, ℤ, ◌≤ℤ◌}

-- The saturating product never shows: for every limit in the range of i64 the delay is the exact
-- min(base * 2 ^ exponent, limit), where a negative base or limit counts as 0.
pub backoff-exact :
    (retries base limit : ℤ)
    → limit ≤ℤ pos i64_max
    → compute_backoff_secs retries base limit
      ≡ min (max_zero base * 2 ^ pred_clamp_30 retries) (max_zero limit)
unfolding compute_backoff_secs
backoff-exact retries base limit h = ground arith

exponent-le : (r s : ℤ) → r ≤ℤ s → pred_clamp_30 r ≤ pred_clamp_30 s
exponent-le r s h = ground arith

mul-le-mul : (b x y : ℕ) → x ≤ y → b * x ≤ b * y
mul-le-mul b x y h = grind arith

-- A row that has failed more often never waits less.
pub backoff_mono :
    (r s base limit : ℤ)
    → r ≤ℤ s
    → compute_backoff_secs r base limit ≤ compute_backoff_secs s base limit
unfolding compute_backoff_secs
backoff_mono r s base limit h =
    let wider : 2 ^ pred_clamp_30 r ≤ 2 ^ pred_clamp_30 s =
      pow-le-pow_right (omega arith) (exponent-le r s h) in
    ground (arith, mul-le-mul (max_zero base) (2 ^ pred_clamp_30 r) (2 ^ pred_clamp_30 s) wider)
