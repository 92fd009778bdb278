-- ===== src/Ingestion/Statements.antt =====
-- What each SQL statement of gmrag_api/src/ingestion/jobs.rs selects and writes. A comparison
-- with NULL holds of no row. `t` is the transaction's CURRENT_TIMESTAMP.
use text.Mathlib.Text.{◌==◌ as str_eq}
use hrm_grag.Db.{Update}
use hrm_grag.Ingestion.Tables.{
  ClaimedJob, Document, Job, JobFailure, RequeueEligibility, Stage, Tables, active_count, dead,
  doc_completed, doc_failed, doc_processing, is_doc_processing, is_eligible, is_processing, queued,
  stage_done, stage_failed, stage_queued, succeeded,
}
use hrm_grag.Prelude.{
  Bool, List, Option, String, [], any, count, holds, ltb, none, not, select, some, take,
  update_where, ℕ, ◌&&◌, ◌+◌, ◌==◌, ◌∷◌,
}
use hrm_grag.Prelude.Text.{Text, codes, is_control}

-- WHERE id = $1 AND status = 'PROCESSING' AND claimed_by = $2 AND claim_token = $3
abbrev pub is_held : ClaimedJob → String → Job → Bool
is_held job worker j =
    j.id == job.id
    && is_processing j.status
    && holds (λ w. str_eq w worker) j.claimed_by
    && holds (λ k. k == job.claim_token) j.claim_token

-- ... AND lease_expires_at > CURRENT_TIMESTAMP
abbrev pub is_live : ClaimedJob → String → ℕ → Job → Bool
is_live job worker t j = is_held job worker j && holds (λ l. ltb t l) j.lease_expires_at

abbrev pub is_document : ℕ → ℕ → Document → Bool
is_document id workspace_id d = d.id == id && d.workspace_id == workspace_id

-- `sanitize_message`
unfoldable pub sanitize_message : Text → Text
sanitize_message message = take 240 (select (λ c. not (is_control c)) message)

abbrev pub renewed_row : ℕ → ℕ → Job → Job
renewed_row lease t j = record j { lease_expires_at = some (t + lease); updated_at = t }

-- `extend_lease`
unfoldable pub extend : ClaimedJob → String → ℕ → ℕ → Update Tables ℕ
extend job worker lease t s = some (
  count (is_held job worker) s.jobs,
  record s { jobs = update_where (is_held job worker) (renewed_row lease t) s.jobs },
)

abbrev pub staged_document : Stage → Document → Document
staged_document stage d = record d { processing_stage = stage }

-- `set_stage_for_owner`
abbrev pub is_owned_document : ClaimedJob → String → ℕ → List Job → Document → Bool
is_owned_document job worker t jobs d =
    is_document job.document_id job.workspace_id d && any (is_live job worker t) jobs

unfoldable pub set_stage : ClaimedJob → String → Stage → ℕ → Update Tables ℕ
set_stage job worker stage t s =
    let p = is_owned_document job worker t s.jobs in
    some (
      count p s.documents,
      record s { documents = update_where p (staged_document stage) s.documents },
    )

abbrev pub succeeded_row : ℕ → Job → Job
succeeded_row t j = record j {
  status = succeeded;
  lease_expires_at = none;
  completed_at = some t;
  failure_code = none;
  failure_message = none;
  updated_at = t;
}

-- `complete_job_and_document`: the job's row, then the document's.
unfoldable pub complete_job : ClaimedJob → String → ℕ → Update Tables ℕ
complete_job job worker t s = some (
  count (is_live job worker t) s.jobs,
  record s { jobs = update_where (is_live job worker t) (succeeded_row t) s.jobs },
)

abbrev pub completed_document : Document → Document
completed_document d = record d {
  status = doc_completed;
  processing_stage = stage_done;
  failure_code = none;
  failure_message = none;
  failed_at = none;
}

unfoldable pub complete_document : ClaimedJob → Update Tables ℕ
complete_document job s =
    let p = is_document job.document_id job.workspace_id in
    some
      (count p s.documents, record s { documents = update_where p completed_document s.documents })

abbrev pub first : List Job → Option (ℕ × ℕ)
first [] = none
first (j ∷ js) = some (j.attempt_count, j.max_attempts)

abbrev pub has_id : ℕ → Job → Bool
has_id id j = j.id == id

-- `finish_job_failure`: SELECT attempt_count, max_attempts ... FOR UPDATE
unfoldable pub select_attempts : ClaimedJob → String → ℕ → Update Tables (Option (ℕ × ℕ))
select_attempts job worker t s = some (first (select (is_live job worker t) s.jobs), s)

abbrev pub requeued_row : JobFailure → ℕ → ℕ → Job → Job
requeued_row failure delay t j = record j {
  status = queued;
  available_at = t + delay;
  lease_expires_at = none;
  claimed_by = none;
  claim_token = none;
  failure_code = some failure.code;
  failure_message = some (sanitize_message failure.message);
  updated_at = t;
}

unfoldable pub requeue_job : ClaimedJob → JobFailure → ℕ → ℕ → Update Tables ℕ
unfolding sanitize_message
requeue_job job failure delay t s =
    let p = has_id job.id in
    some (count p s.jobs, record s { jobs = update_where p (requeued_row failure delay t) s.jobs })

abbrev pub waiting_document : Document → Document
waiting_document d = record d { status = doc_processing; processing_stage = stage_queued }

unfoldable pub requeue_document : ClaimedJob → Update Tables ℕ
requeue_document job s =
    let p = is_document job.document_id job.workspace_id in
    some (count p s.documents, record s { documents = update_where p waiting_document s.documents })

abbrev pub killed_row : String → Text → ℕ → Job → Job
killed_row code message t j = record j {
  status = dead;
  lease_expires_at = none;
  completed_at = some t;
  failure_code = some code;
  failure_message = some (sanitize_message message);
  updated_at = t;
}

unfoldable pub kill_job : ClaimedJob → String → Text → ℕ → Update Tables ℕ
unfolding sanitize_message
kill_job job code message t s =
    let p = has_id job.id in
    some (count p s.jobs, record s { jobs = update_where p (killed_row code message t) s.jobs })

abbrev pub failed_document : String → Text → ℕ → Document → Document
failed_document code message t d = record d {
  status = doc_failed;
  processing_stage = stage_failed;
  failure_code = some code;
  failure_message = some (sanitize_message message);
  failed_at = some t;
}

unfoldable pub fail_document : ClaimedJob → String → Text → ℕ → Update Tables ℕ
unfolding sanitize_message
fail_document job code message t s =
    let p = is_document job.document_id job.workspace_id in
    some (
      count p s.documents,
      record s { documents = update_where p (failed_document code message t) s.documents },
    )

abbrev pub reopened_document : Document → Document
reopened_document d = record d {
  status = doc_processing;
  processing_stage = stage_queued;
  failure_code = none;
  failure_message = none;
  failed_at = none;
}

-- `requeue_document_for_reingest`: the two literals differ in the statuses that they accept.
abbrev pub is_reopenable : ℕ → ℕ → RequeueEligibility → List Job → Document → Bool
is_reopenable document_id workspace_id eligibility jobs d =
    is_document document_id workspace_id d
    && is_eligible eligibility d.status
    && active_count document_id jobs == 0

unfoldable pub reopen_document : ℕ → ℕ → RequeueEligibility → Update Tables ℕ
reopen_document document_id workspace_id eligibility s =
    let p = is_reopenable document_id workspace_id eligibility s.jobs in
    some
      (count p s.documents, record s { documents = update_where p reopened_document s.documents })

abbrev pub orphaned_document : ℕ → Document → Document
orphaned_document t d = record d {
  status = doc_failed;
  processing_stage = stage_failed;
  failure_code = some "INGESTION_JOB_MISSING";
  failure_message =
      some (codes "No durable ingestion job exists for this legacy processing document");
  failed_at = some t;
}

-- `recover_legacy_processing_documents`
abbrev pub is_orphan : List Job → Document → Bool
is_orphan jobs d = is_doc_processing d.status && active_count d.id jobs == 0

unfoldable pub fail_orphans : ℕ → Update Tables ℕ
fail_orphans t s =
    let p = is_orphan s.jobs in
    some (
      count p s.documents,
      record s { documents = update_where p (orphaned_document t) s.documents },
    )
