-- ===== src/Ingestion/Outcomes.antt =====
-- What `finish_job_failure` decides and writes for a job whose lease its worker holds.
use Prim.Native.Nat.{min}
use hrm_grag.Db.{World, arrive, finish, ok, rollback}
use hrm_grag.Db.Atomic.{effect, settle, settled}
use hrm_grag.Db.Kept.{ok-answer, some-pair}
use hrm_grag.Ingestion.Effects.{failure-Acts}
use hrm_grag.Ingestion.Queue.{backoff, dispose, disposition_of, failure_body, finish_job_failure}
use hrm_grag.Ingestion.Statements.{
  fail_document, first, has_id, is_live, kill_job, killed_row, requeue_document, requeue_job,
  requeued_row, select_attempts,
}
use hrm_grag.Ingestion.Tables.{
  ClaimedJob, IngestionWorkerConfig, Job, JobFailure, Tables, dead, queued,
}
use hrm_grag.Outbox.{FailureDisposition, dead as disposed_dead, retryable}
use hrm_grag.Outbox.Disposition.{IsRight, disposition-IsRight}
use hrm_grag.Prelude.{
  All, Bool, Option, String, ap, arith, false, leb, none, not, refl, select, some, suc, sym, true,
  ℕ, ◌+◌, ◌<◌, ◌||◌, ◌∙◌, ◌≡◌, ◌≤◌,
}
use hrm_grag.Prelude.Int.{i32_max}
use hrm_grag.Updates.{update_where-All}

-- The row that the code leaves: a dead one is finished; a queued one has lost its worker and its
-- token and is due within the longest backoff.
abbrev pub IsSettled : IngestionWorkerConfig → ℕ → Bool → Job → Type 0
IsSettled config t true j = (j.status ≡ dead) × (j.completed_at ≡ some t)
IsSettled config t false j =
    (j.status ≡ queued)
    × (j.claim_token ≡ none)
    × (t ≤ j.available_at)
    × (j.available_at ≤ t + config.max_backoff_secs)

-- Dead, if the failure is not retryable or the attempts are used up.
abbrev pub is_final : JobFailure → IngestionWorkerConfig → ℕ → ℕ → Bool
is_final failure config attempts limit =
    not failure.retryable || leb (min limit config.max_attempts) attempts

module _ (job : ClaimedJob) (failure : JobFailure) (config : IngestionWorkerConfig) (t : ℕ) where
  disposed :
      (n limit : ℕ) (x : FailureDisposition) (s : Tables) (o : Option Bool) (s' : Tables)
      → IsRight n (min limit config.max_attempts) (not failure.retryable) (backoff config) x
      → settled s (effect (dispose job failure t x) s) ≡ some (o, s')
      → (o ≡ some (is_final failure config (suc n) limit))
        × All
            (λ j.
              has_id job.id j ≡ true → IsSettled config t (is_final failure config (suc n) limit) j)
            s'.jobs
  unfolding effect requeue_job requeue_document kill_job fail_document
  disposed n limit (retryable m delay) s o s' r h =
      let final : is_final failure config (suc n) limit ≡ false = ground arith in
      let written = some-pair h in
      rw (final, ← written.0, ← written.1)
        (
          refl,
          update_where-All (IsSettled config t false) (has_id job.id) (requeued_row failure delay t)
              s.jobs (λ j. (refl, refl, omega arith, omega arith)),
        )
  disposed n limit (disposed_dead m) s o s' r h =
      let final : is_final failure config (suc n) limit ≡ true = ground arith in
      let written = some-pair h in
      rw (final, ← written.0, ← written.1)
        (
          refl,
          update_where-All (IsSettled config t true) (has_id job.id) (killed_row _ _ t) s.jobs
              (λ j. (refl, refl)),
        )

held_row :
    (job : ClaimedJob) (worker : String) (failure : JobFailure) (config : IngestionWorkerConfig)
    (n limit t : ℕ) (s : Tables)
    → first (select (is_live job worker t) s.jobs) ≡ some (n, limit)
    → settle (failure_body job worker failure config) t s
      ≡ settled s (effect (dispose job failure t (disposition_of failure config n limit)) s)
unfolding settle effect select_attempts
held_row job worker failure config n limit t s held =
    ap
      (λ (o : Option (ℕ × ℕ)). settled s (
        effect
          (elim o [
            | none ↦ finish (rollback none)
            | some (k, m) ↦ dispose job failure t (disposition_of failure config k m)
          ])
          s))
      held

module _ (job : ClaimedJob) (worker : String) (failure : JobFailure)
    (config : IngestionWorkerConfig) where
  -- A failure that is recorded for a live lease, on a row with `n + 1` attempts: the job is dead
  -- exactly if the failure is not retryable or the attempts have reached the smaller limit, the
  -- answer says which, and the row is finished or queued again within the longest backoff.
  pub failure-IsSettled :
      (n limit : ℕ) (o : Option Bool) (w : World Tables)
      → n < i32_max
      → first (select (is_live job worker (arrive w).now) w.db.jobs) ≡ some (suc n, limit)
      → (finish_job_failure job worker failure config w).0 ≡ ok o
      → (o ≡ some (is_final failure config (suc n) limit))
        × All
            (λ j.
              has_id job.id j ≡ true
              → IsSettled config (arrive w).now (is_final failure config (suc n) limit) j)
            (finish_job_failure job worker failure config w).1.db.jobs
  failure-IsSettled n limit o w lt held h =
      let t = (arrive w).now in
      let answered = ok-answer _ _ w o (failure-Acts w job worker failure config) h in
      disposed job failure config t n limit (disposition_of failure config (suc n) limit) w.db o _
        (disposition-IsRight n (min limit config.max_attempts) (not failure.retryable)
          (backoff config) lt)
        (sym (held_row job worker failure config (suc n) limit t w.db held) ∙ answered)
