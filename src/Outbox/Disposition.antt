-- ===== src/Outbox/Disposition.antt =====
-- When a failed row is tried again, and when it is given up.
use hrm_grag.Outbox.{
  FailureDisposition, OutboxBackoffConfig, compute_backoff_secs, dead, disposition_after_failure,
  retryable,
}
use hrm_grag.Prelude.{Bool, arith, count, false, true, ℕ, ◌+◌, ◌<◌, ◌≡◌, ◌≤◌, ◌⊎◌}
use hrm_grag.Prelude.Int.{i32_max, max_zero, pos, saturating_inc_i32, ℤ}

-- What a disposition has to be for a row that had failed `count` times.
abbrev pub IsRight : ℕ → ℕ → Bool → OutboxBackoffConfig → FailureDisposition → Type 0
IsRight count limit permanent b (retryable n delay) =
    (permanent ≡ false)
    × (count + 1 < limit)
    × (n ≡ pos (count + 1))
    × (delay ≤ max_zero b.max_backoff_secs)
    × (delay ≡ compute_backoff_secs (pos (count + 1)) b.base_backoff_secs b.max_backoff_secs)
IsRight count limit permanent b (dead n) =
    ((permanent ≡ true) ⊎ (limit ≤ count + 1)) × (n ≡ pos (count + 1))

backoff-le : (retries base limit : ℤ) → compute_backoff_secs retries base limit ≤ max_zero limit
unfolding compute_backoff_secs
backoff-le retries base limit = ground arith

inc-in_range : (count : ℕ) → count < i32_max → saturating_inc_i32 (pos count) ≡ pos (count + 1)
inc-in_range count h = ground arith

-- A row that had failed `count` times is retried exactly if its error was not permanent and one
-- more failure stays below the limit. It then carries one more failure, and its delay is the
-- backoff for that count and at most the configured maximum. Otherwise it is dead.
pub disposition-IsRight :
    (count limit : ℕ) (permanent : Bool) (b : OutboxBackoffConfig)
    → count < i32_max
    → IsRight count limit permanent b
        (disposition_after_failure (pos count) (pos limit) permanent b)
unfolding disposition_after_failure
disposition-IsRight count limit permanent b h =
    rw (inc-in_range count h)
      (ground (arith, backoff-le (pos (count + 1)) b.base_backoff_secs b.max_backoff_secs))
