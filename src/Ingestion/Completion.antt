-- ===== src/Ingestion/Completion.antt =====
-- What a worker that holds a live lease is told, and what a failed call leaves behind.
use hrm_grag.Db.{World, arrive, ok}
use hrm_grag.Db.Atomic.{effect, settle}
use hrm_grag.Db.Kept.{ok-answer}
use hrm_grag.Ingestion.Effects.{complete-Acts}
use hrm_grag.Ingestion.Handles.{claim-IsGranted}
use hrm_grag.Ingestion.Queue.{claim_jobs_filtered, complete_body, complete_job_and_document}
use hrm_grag.Ingestion.Soundness.{IsSound}
use hrm_grag.Ingestion.Statements.{
  complete_document, complete_job, completed_document, is_document, is_live, succeeded_row,
}
use hrm_grag.Ingestion.Tables.{ClaimedJob, IngestionWorkerConfig, Tables}
use hrm_grag.Prelude.{
  All, Bool, List, Option, String, arith, count, false, some, true, update_where, ℕ, ◌+◌, ◌<◌, ◌≡◌,
  ◌≢◌,
}
use hrm_grag.Updates.{All-of_All}

live_complete :
    (job : ClaimedJob) (worker : String) (t : ℕ) (s : Tables)
    → count (is_live job worker t) s.jobs ≡ 1
    → settle (complete_body job worker) t s
      ≡ some (
        true,
        record s {
          jobs = update_where (is_live job worker t) (succeeded_row t) s.jobs;
          documents =
              update_where
                (is_document job.document_id job.workspace_id)
                completed_document
                s.documents;
        },
      )
unfolding settle effect complete_job complete_document
live_complete job worker t s one = ground (arith, one)

module _ (locked : ℕ → Bool) (worker : String) (config : IngestionWorkerConfig) (d : Option ℕ) where
  -- A worker that completes a job it has just claimed, before its lease ends, is never told that
  -- the lease is lost, as long as nothing else has written the tables: the call succeeds or the
  -- database fails.
  pub claimed_job_completes :
      (w : World Tables) (rows : List ClaimedJob) (w' : World Tables)
      → IsSound w.db
      → (claim_jobs_filtered locked worker config d w).0 ≡ ok rows
      → w'.db ≡ (claim_jobs_filtered locked worker config d w).1.db
      → (arrive w').now < (arrive w).now + config.lease_secs
      → All (λ h. (complete_job_and_document h worker w').0 ≢ ok false) rows
  claimed_job_completes w rows w' p claimed same before_end =
      let live =
        (claim-IsGranted locked worker config d w rows p claimed).2 (arrive w').now before_end in
      All-of_All _ _ rows
        (λ h one e.
          let done = live_complete h worker (arrive w').now w'.db (rw same one) in
          let lost = ok-answer _ _ w' false (complete-Acts w' h worker) e in cc)
        live
