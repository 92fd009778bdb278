-- ===== src/Outbox/Checks.antt =====
-- Examples for gmrag_api/src/outbox/mod.rs.
use Prim.Native.Nat.{min}
use hrm_grag.Outbox.{
  compute_backoff_secs, default_backoff, disposition_after_failure, parse_env_i64, retryable,
}
use hrm_grag.Outbox.Backoff.{backoff-exact, backoff_mono}
use hrm_grag.Outbox.Disposition.{IsRight, disposition-IsRight}
use hrm_grag.Prelude.{arith, false, refl, some, ◌*◌, ◌^◌, ◌≡◌, ◌≤◌}
use hrm_grag.Prelude.Int.{pos}
use hrm_grag.Prelude.Text.{codes, parse_signed}

disposition-IsRight_example :
    IsRight 1 5 false default_backoff
      (disposition_after_failure (pos 1) (pos 5) false default_backoff)
disposition-IsRight_example = disposition-IsRight 1 5 false default_backoff (omega arith)

second_failure :
    disposition_after_failure (pos 1) (pos 5) false default_backoff ≡ retryable (pos 2) 4
unfolding disposition_after_failure compute_backoff_secs
second_failure = refl

backoff-exact_example : compute_backoff_secs (pos 4) (pos 5) (pos 300) ≡ min (5 * 2 ^ 3) 300
backoff-exact_example = backoff-exact (pos 4) (pos 5) (pos 300) (omega arith)

backoff_mono_example :
    compute_backoff_secs (pos 2) (pos 5) (pos 300) ≤ compute_backoff_secs (pos 9) (pos 5) (pos 300)
backoff_mono_example = backoff_mono (pos 2) (pos 9) (pos 5) (pos 300) (omega arith)

negative_setting : parse_env_i64 (some (codes "-7")) (pos 2) (pos 0) (pos 3600) ≡ pos 0
unfolding parse_env_i64 parse_signed
negative_setting = refl
