-- ===== src/Ingestion/Queue.antt =====
-- The operations of gmrag_api/src/ingestion/jobs.rs: each is one transaction or one statement on
-- its own. `rows_affected` of an INSERT or UPDATE is the statement's answer.
use Prim.Native.Nat.{min}
use hrm_grag.Db.{
  Body, M, Update, answer, autocommit, commit, finish, rollback, transaction, ◌>>=◌, ◌>>◌,
}
use hrm_grag.Ingestion.Claims.{claim, insert_document, insert_job, uploaded_document}
use hrm_grag.Ingestion.Statements.{
  complete_document, complete_job, extend, fail_document, fail_orphans, kill_job, reopen_document,
  requeue_document, requeue_job, select_attempts, set_stage,
}
use hrm_grag.Ingestion.Tables.{
  ClaimedJob, IngestionWorkerConfig, JobFailure, RequeueEligibility, Stage, Tables, failed_only,
}
use hrm_grag.Outbox.{
  FailureDisposition, OutboxBackoffConfig, dead, disposition_after_failure, parse_env_i32,
  parse_env_i64, retryable,
}
use hrm_grag.Prelude.{
  Bool, List, Option, String, false, if◌then◌else◌, none, not, some, suc, true, zero, ℕ, ◌==◌,
}
use hrm_grag.Prelude.Int.{max_zero, negsuc, pos, ℤ}
use hrm_grag.Prelude.Text.{Text, codes}

-- `IngestionWorkerConfig::from_env`: each setting is clamped to 1 at least, and so a number.
unfoldable pub worker_config_from_env : (String → Option Text) → IngestionWorkerConfig
worker_config_from_env env = record {
  batch_size = max_zero (parse_env_i64 (env "INGESTION_JOB_BATCH_SIZE") (pos 1) (pos 1) (pos 32));
  max_attempts =
      max_zero (parse_env_i32 (env "INGESTION_JOB_MAX_ATTEMPTS") (pos 5) (pos 1) (pos 100));
  lease_secs =
      max_zero (parse_env_i64 (env "INGESTION_JOB_LEASE_SECS") (pos 300) (pos 10) (pos 86400));
  base_backoff_secs =
      max_zero (parse_env_i64 (env "INGESTION_JOB_BASE_BACKOFF_SECS") (pos 5) (pos 1) (pos 3600));
  max_backoff_secs =
      max_zero (parse_env_i64 (env "INGESTION_JOB_MAX_BACKOFF_SECS") (pos 300) (pos 1) (pos 86400));
}

-- `IngestionWorkerConfig::backoff`
abbrev pub backoff : IngestionWorkerConfig → OutboxBackoffConfig
backoff config = record {
  base_backoff_secs = pos config.base_backoff_secs;
  max_backoff_secs = pos config.max_backoff_secs;
  claim_lease_secs = pos config.lease_secs;
}

-- `locked` says which rows other transactions hold when this one runs.
abbrev pub claim_body :
    (ℕ → Bool) → String → IngestionWorkerConfig → Option ℕ → ℕ → Body Tables (List ClaimedJob)
claim_body locked worker config document_id t = do
  rows ← claim locked document_id worker config.batch_size config.lease_secs t
  finish (commit rows)

unfoldable pub claim_jobs_filtered :
    (ℕ → Bool) → String → IngestionWorkerConfig → Option ℕ → M Tables (List ClaimedJob)
claim_jobs_filtered locked worker config document_id =
    transaction (claim_body locked worker config document_id)

unfoldable pub claim_jobs : (ℕ → Bool) → String → IngestionWorkerConfig → M Tables (List ClaimedJob)
unfolding claim_jobs_filtered
claim_jobs locked worker config = claim_jobs_filtered locked worker config none

unfoldable pub claim_document_job :
    (ℕ → Bool) → String → IngestionWorkerConfig → ℕ → M Tables (List ClaimedJob)
unfolding claim_jobs_filtered
claim_document_job locked worker config document_id =
    claim_jobs_filtered locked worker config (some document_id)

unfoldable pub extend_lease : ClaimedJob → String → ℕ → M Tables Bool
extend_lease job worker lease_secs =
    answer (λ updated. updated == 1) (autocommit (extend job worker lease_secs))

unfoldable pub set_stage_for_owner : ClaimedJob → String → Stage → M Tables Bool
set_stage_for_owner job worker stage =
    answer (λ changed. changed == 1) (autocommit (set_stage job worker stage))

abbrev pub complete_body : ClaimedJob → String → ℕ → Body Tables Bool
complete_body job worker t = do
  claimed ← complete_job job worker t
  if not (claimed == 1)
      then finish (rollback false)
      else do complete_document job; finish (commit true)

unfoldable pub complete_job_and_document : ClaimedJob → String → M Tables Bool
complete_job_and_document job worker = transaction (complete_body job worker)

-- `attempt_count.saturating_sub(1)` on an i32 that is at least 0.
abbrev pub previous : ℕ → ℤ
previous zero = negsuc 0
previous (suc n) = pos n

abbrev pub max_attempts_code : String
max_attempts_code = "INGESTION_MAX_ATTEMPTS_EXCEEDED"

abbrev pub max_attempts_message : Text
max_attempts_message = codes "Ingestion could not be completed after the configured retry limit"

-- The answer says whether the job is dead; `none` that the lease was lost.
abbrev pub dispose : ClaimedJob → JobFailure → ℕ → FailureDisposition → Body Tables (Option Bool)
dispose job failure t (retryable n delay) = do
  requeue_job job failure delay t
  requeue_document job
  finish (commit (some false))
dispose job failure t (dead n) = do
  let code = if failure.retryable then max_attempts_code else failure.code
  let message = if failure.retryable then max_attempts_message else failure.message
  kill_job job code message t
  fail_document job code message t
  finish (commit (some true))

-- The disposition that the code asks for, from the row's counters.
abbrev pub disposition_of : JobFailure → IngestionWorkerConfig → ℕ → ℕ → FailureDisposition
disposition_of failure config attempt_count max_attempts =
    disposition_after_failure (previous attempt_count) (pos (min max_attempts config.max_attempts))
      (not failure.retryable) (backoff config)

abbrev pub failure_body :
    ClaimedJob → String → JobFailure → IngestionWorkerConfig → ℕ → Body Tables (Option Bool)
failure_body job worker failure config t = do
  current ← select_attempts job worker t
  elim current [
    | none ↦ finish (rollback none)
    | some (attempt_count, max_attempts) ↦
        dispose job failure t (disposition_of failure config attempt_count max_attempts)
  ]

unfoldable pub finish_job_failure :
    ClaimedJob → String → JobFailure → IngestionWorkerConfig → M Tables (Option Bool)
finish_job_failure job worker failure config = transaction (failure_body job worker failure config)

-- `enqueue_job_tx` is a statement of its caller's transaction.
unfoldable pub enqueue_job_tx : ℕ → ℕ → ℕ → ℕ → Update Tables ℕ
enqueue_job_tx document_id workspace_id max_attempts t =
    insert_job document_id workspace_id max_attempts t

-- The transaction of an upload: the document's row and its job.
abbrev pub upload_body : ℕ → ℕ → ℕ → ℕ → Body Tables ℕ
upload_body document_id workspace_id max_attempts t = do
  insert_document (uploaded_document document_id workspace_id)
  id ← enqueue_job_tx document_id workspace_id max_attempts t
  finish (commit id)

unfoldable pub upload_document : ℕ → ℕ → ℕ → M Tables ℕ
unfolding enqueue_job_tx insert_document
upload_document document_id workspace_id max_attempts =
    transaction (upload_body document_id workspace_id max_attempts)

abbrev pub requeue_body : ℕ → ℕ → ℕ → RequeueEligibility → ℕ → Body Tables Bool
requeue_body document_id workspace_id max_attempts eligibility t = do
  changed ← reopen_document document_id workspace_id eligibility
  if not (changed == 1)
      then finish (rollback false)
      else do enqueue_job_tx document_id workspace_id max_attempts t; finish (commit true)

unfoldable pub requeue_document_for_reingest : ℕ → ℕ → ℕ → RequeueEligibility → M Tables Bool
unfolding enqueue_job_tx
requeue_document_for_reingest document_id workspace_id max_attempts eligibility =
    transaction (requeue_body document_id workspace_id max_attempts eligibility)

unfoldable pub retry_failed_document : ℕ → ℕ → ℕ → M Tables Bool
unfolding requeue_document_for_reingest
retry_failed_document document_id workspace_id max_attempts =
    requeue_document_for_reingest document_id workspace_id max_attempts failed_only

unfoldable pub recover_legacy_processing_documents : M Tables ℕ
recover_legacy_processing_documents = autocommit fail_orphans
