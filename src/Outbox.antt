-- ===== src/Outbox.antt =====
-- gmrag_api/src/outbox/mod.rs: retry backoff, the disposition of a failed row, and the clamped
-- settings that the outbox processors share. Delays and counts below 0 are possible inputs
-- (i32, i64); a delay that comes out is at least 0 and so a number.
pub mod Backoff
pub mod Disposition
pub mod Checks
pub mod Table
pub mod Run
pub mod RunMode
pub mod Marks
pub mod Unseen
pub mod Termination
use Prim.Native.Nat.{min}
use hrm_grag.Prelude.{Bool, Option, if◌then◌else◌, leb, none, some, ℕ, ◌*◌, ◌==◌, ◌^◌, ◌||◌}
use hrm_grag.Prelude.Int.{
  i32_max, i64_max, leb_ℤ, max_zero, pos, pred_clamp_30, saturating_inc_i32, ℤ,
}
use hrm_grag.Prelude.Text.{Text, parse_signed, parse_unsigned}

pub record OutboxBackoffConfig : Type 0 where
  pub base_backoff_secs : ℤ
  pub max_backoff_secs : ℤ
  pub claim_lease_secs : ℤ

-- `OutboxBackoffConfig::default`
abbrev pub default_backoff : OutboxBackoffConfig
default_backoff = record {
  base_backoff_secs = pos 2;
  max_backoff_secs = pos 300;
  claim_lease_secs = pos 120;
}

pub data FailureDisposition : Type 0 where
  retryable : ℤ → ℕ → FailureDisposition
  dead : ℤ → FailureDisposition

-- `i64::saturating_mul` of numbers that are at least 0.
abbrev pub saturating_mul_i64 : ℕ → ℕ → ℕ
saturating_mul_i64 a b = min (a * b) i64_max

-- The exponent is at most 30, so the checked shift of 1 is the power of two.
unfoldable pub compute_backoff_secs : ℤ → ℤ → ℤ → ℕ
compute_backoff_secs retry_count_after_fail base_backoff_secs max_backoff_secs =
    let base = max_zero base_backoff_secs in
    let max = max_zero max_backoff_secs in
    if base == 0 || max == 0
    then 0
    else (let multiplier = 2 ^ pred_clamp_30 retry_count_after_fail in
        min (saturating_mul_i64 base multiplier) max)

unfoldable pub disposition_after_failure : ℤ → ℤ → Bool → OutboxBackoffConfig → FailureDisposition
disposition_after_failure current_retry_count max_retries permanent_error backoff =
    let next_retry_count = saturating_inc_i32 current_retry_count in
    if permanent_error || leb_ℤ max_retries next_retry_count
    then dead next_retry_count
    else retryable next_retry_count
        (compute_backoff_secs next_retry_count backoff.base_backoff_secs backoff.max_backoff_secs)

-- `clamp` on i64 and i32.
abbrev pub clamp_ℤ : ℤ → ℤ → ℤ → ℤ
clamp_ℤ min max value = if leb_ℤ min value then (if leb_ℤ value max then value else max) else min

abbrev pub clamp : ℕ → ℕ → ℕ → ℕ
clamp min max value = if leb min value then (if leb value max then value else max) else min

abbrev pub unwrap_or {ℓ} : {A : Type ℓ} → A → Option A → A
unwrap_or d none = d
unwrap_or d (some a) = a

abbrev and_then {ℓ κ} : {A : Type ℓ} {B : Type κ} → (A → Option B) → Option A → Option B
and_then f none = none
and_then f (some a) = f a

-- The first argument is the variable's value, if it is set.
unfoldable pub parse_env_i64 : Option Text → ℤ → ℤ → ℤ → ℤ
parse_env_i64 var default min max =
    clamp_ℤ min max (unwrap_or default (and_then (parse_signed i64_max) var))

unfoldable pub parse_env_i32 : Option Text → ℤ → ℤ → ℤ → ℤ
parse_env_i32 var default min max =
    clamp_ℤ min max (unwrap_or default (and_then (parse_signed i32_max) var))

abbrev pub u64_max : ℕ
u64_max = 18446744073709551615

unfoldable pub parse_env_u64 : Option Text → ℕ → ℕ → ℕ → ℕ
parse_env_u64 var default min max =
    clamp min max (unwrap_or default (and_then (parse_unsigned u64_max) var))
