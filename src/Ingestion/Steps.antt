-- ===== src/Ingestion/Steps.antt =====
-- The queue as uploads, workers and operators drive it: any operation of the file, and the transaction
-- of an upload around `enqueue_job_tx`, by anybody, with any handle, at any time, failing or not. A worker may hold a handle for as long as it likes.
use hrm_grag.Db.{World}
use hrm_grag.Ingestion.Queue.{
  claim_jobs_filtered, complete_job_and_document, extend_lease, finish_job_failure,
  recover_legacy_processing_documents, requeue_document_for_reingest, set_stage_for_owner,
  upload_document,
}
use hrm_grag.Ingestion.Tables.{
  ClaimedJob, IngestionWorkerConfig, JobFailure, RequeueEligibility, Stage, Tables,
}
use hrm_grag.Prelude.{Bool, Option, String, ℕ, ◌≡◌}

pub data Step (s : Tables) : Tables → Type 0 where
  claims :
      (locked : ℕ → Bool) (worker : String) (config : IngestionWorkerConfig) (d : Option ℕ)
      (w : World Tables)
      → w.db ≡ s
      → Step s (claim_jobs_filtered locked worker config d w).1.db
  extends :
      (job : ClaimedJob) (worker : String) (lease : ℕ) (w : World Tables)
      → w.db ≡ s
      → Step s (extend_lease job worker lease w).1.db
  sets_stage :
      (job : ClaimedJob) (worker : String) (stage : Stage) (w : World Tables)
      → w.db ≡ s
      → Step s (set_stage_for_owner job worker stage w).1.db
  completes :
      (job : ClaimedJob) (worker : String) (w : World Tables)
      → w.db ≡ s
      → Step s (complete_job_and_document job worker w).1.db
  fails :
      (job : ClaimedJob) (worker : String) (failure : JobFailure) (config : IngestionWorkerConfig)
      (w : World Tables)
      → w.db ≡ s
      → Step s (finish_job_failure job worker failure config w).1.db
  requeues :
      (document_id workspace_id limit : ℕ) (eligibility : RequeueEligibility) (w : World Tables)
      → w.db ≡ s
      → Step s (requeue_document_for_reingest document_id workspace_id limit eligibility w).1.db
  uploads :
      (document_id workspace_id limit : ℕ) (w : World Tables)
      → w.db ≡ s
      → Step s (upload_document document_id workspace_id limit w).1.db
  recovers : (w : World Tables) → w.db ≡ s → Step s (recover_legacy_processing_documents w).1.db

pub data Reach (s : Tables) : Tables → Type 0 where
  here : Reach s s
  next : {t u : Tables} → Reach s t → Step t u → Reach s u
