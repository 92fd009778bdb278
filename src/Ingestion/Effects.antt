-- ===== src/Ingestion/Effects.antt =====
-- Each operation of the queue is atomic: `Acts m f w` of the effect that its transaction or its
-- statement has.
use hrm_grag.Db.{Update, World}
use hrm_grag.Db.Atomic.{Acts, autocommit-Acts, settle, transaction-Acts}
use hrm_grag.Db.Kept.{map-Acts}
use hrm_grag.Ingestion.Queue.{
  claim_body, claim_jobs_filtered, complete_body, complete_job_and_document, extend_lease,
  failure_body, finish_job_failure, recover_legacy_processing_documents, requeue_body,
  requeue_document_for_reingest, set_stage_for_owner, upload_body, upload_document,
}
use hrm_grag.Ingestion.Statements.{extend, fail_orphans, set_stage}
use hrm_grag.Ingestion.Tables.{
  ClaimedJob, IngestionWorkerConfig, JobFailure, RequeueEligibility, Stage, Tables,
}
use hrm_grag.Prelude.{Bool, Option, String, none, some, ℕ, ◌==◌}

abbrev pub extended : ClaimedJob → String → ℕ → ℕ → Update Tables Bool
extended job worker lease t s = elim (extend job worker lease t s) [
  | none ↦ none
  | some (n, s') ↦ some (n == 1, s')
]

abbrev pub staged : ClaimedJob → String → Stage → ℕ → Update Tables Bool
staged job worker stage t s = elim (set_stage job worker stage t s) [
  | none ↦ none
  | some (n, s') ↦ some (n == 1, s')
]

module _ (w : World Tables) where
  pub claim-Acts :
      (locked : ℕ → Bool) (worker : String) (config : IngestionWorkerConfig) (d : Option ℕ)
      → Acts
          (claim_jobs_filtered locked worker config d)
          (settle (claim_body locked worker config d))
          w
  unfolding claim_jobs_filtered
  claim-Acts locked worker config d = transaction-Acts (claim_body locked worker config d) w

  pub extend-Acts :
      (job : ClaimedJob) (worker : String) (lease : ℕ)
      → Acts (extend_lease job worker lease) (extended job worker lease) w
  unfolding extend_lease
  extend-Acts job worker lease =
      map-Acts _ _ (extend job worker lease) w (autocommit-Acts (extend job worker lease) w)

  pub set_stage-Acts :
      (job : ClaimedJob) (worker : String) (stage : Stage)
      → Acts (set_stage_for_owner job worker stage) (staged job worker stage) w
  unfolding set_stage_for_owner
  set_stage-Acts job worker stage =
      map-Acts _ _ (set_stage job worker stage) w (autocommit-Acts (set_stage job worker stage) w)

  pub complete-Acts :
      (job : ClaimedJob) (worker : String)
      → Acts (complete_job_and_document job worker) (settle (complete_body job worker)) w
  unfolding complete_job_and_document
  complete-Acts job worker = transaction-Acts (complete_body job worker) w

  pub failure-Acts :
      (job : ClaimedJob) (worker : String) (failure : JobFailure) (config : IngestionWorkerConfig)
      → Acts
          (finish_job_failure job worker failure config)
          (settle (failure_body job worker failure config))
          w
  unfolding finish_job_failure
  failure-Acts job worker failure config =
      transaction-Acts (failure_body job worker failure config) w

  pub requeue-Acts :
      (d ws limit : ℕ) (e : RequeueEligibility)
      → Acts (requeue_document_for_reingest d ws limit e) (settle (requeue_body d ws limit e)) w
  unfolding requeue_document_for_reingest
  requeue-Acts d ws limit e = transaction-Acts (requeue_body d ws limit e) w

  pub upload-Acts :
      (d ws limit : ℕ) → Acts (upload_document d ws limit) (settle (upload_body d ws limit)) w
  unfolding upload_document
  upload-Acts d ws limit = transaction-Acts (upload_body d ws limit) w

  pub recover-Acts : Acts recover_legacy_processing_documents fail_orphans w
  unfolding recover_legacy_processing_documents
  recover-Acts = autocommit-Acts fail_orphans w
