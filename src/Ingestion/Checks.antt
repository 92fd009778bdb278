-- ===== src/Ingestion/Checks.antt =====
-- A run of the ingestion queue: a failed document is queued again, worker `a` claims its job and
-- lets the lease run out, and worker `b` takes the job over.
use hrm_grag.Db.{
  World, arrive, autocommit, err, ok, quiet, run, statement, transaction, unavailable,
}
use hrm_grag.Ingestion.Claims.{
  candidates, claim, claim_handles, claim_rows, insert_job, new_job, order_candidates,
}
use hrm_grag.Ingestion.Completion.{claimed_job_completes}
use hrm_grag.Ingestion.Exclusive.{Reach-IsSound}
use hrm_grag.Ingestion.Handles.{IsGranted, claim-IsGranted}
use hrm_grag.Ingestion.Outcomes.{IsSettled, failure-IsSettled, is_final}
use hrm_grag.Ingestion.Queue.{
  claim_jobs_filtered, complete_job_and_document, enqueue_job_tx, extend_lease, finish_job_failure,
  recover_legacy_processing_documents, requeue_document_for_reingest,
}
use hrm_grag.Ingestion.Requeue.{recovered, requeue_once}
use hrm_grag.Ingestion.Soundness.{IsSound}
use hrm_grag.Ingestion.Statements.{
  fail_orphans, has_id, is_orphan, reopen_document, requeue_document, requeue_job, sanitize_message,
  select_attempts,
}
use hrm_grag.Ingestion.Steps.{Reach, claims, here, next, requeues}
use hrm_grag.Ingestion.Tables.{
  ClaimedJob, Document, IngestionWorkerConfig, JobFailure, Tables, active_count, doc_failed,
  doc_processing, failed_only, failed_or_completed, is_doc_processing, stage_failed,
}
use hrm_grag.Ingestion.Takeover.{reclaimed_worker_is_fenced}
use hrm_grag.Outbox.{compute_backoff_secs, disposition_after_failure}
use hrm_grag.Prelude.{
  All, Bool, [], arith, count, false, leb, none, refl, select, some, true, ℕ, ◌+◌, ◌∷◌, ◌≡◌, ◌≢◌,
  ◌⊎◌,
}
use hrm_grag.Prelude.Text.{codes, is_control}

abbrev document : Document
document = record {
  id = 7;
  workspace_id = 3;
  status = doc_failed;
  processing_stage = stage_failed;
  failure_code = none;
  failure_message = none;
  failed_at = none;
}

abbrev tables : Tables
tables = record { jobs = []; documents = document ∷ []; next_uuid = 100 }

abbrev start : World Tables
start = record { db = tables; now = 1000; env = [] }

abbrev config : IngestionWorkerConfig
config = record {
  batch_size = 2;
  max_attempts = 5;
  lease_secs = 300;
  base_backoff_secs = 5;
  max_backoff_secs = 300;
}

abbrev free : ℕ → Bool
free id = false

abbrev handle : ℕ → ℕ → ClaimedJob
handle attempts token = record {
  id = 100;
  document_id = 7;
  workspace_id = 3;
  attempt_count = attempts;
  max_attempts = 5;
  claim_token = token;
}

abbrev queued_world : World Tables
queued_world = (requeue_document_for_reingest 7 3 5 failed_only start).1

abbrev claimed_world : World Tables
claimed_world = (claim_jobs_filtered free "a" config none queued_world).1

abbrev late_world : World Tables
late_world = record claimed_world { now = 1400 }

abbrev taken_world : World Tables
taken_world = (claim_jobs_filtered free "b" config none late_world).1

abbrev failure : JobFailure
failure = record { code = "PARSE_FAILED"; message = codes "no text"; retryable = true }

tables-IsSound : IsSound tables
tables-IsSound = record { keys = λ i. omega arith; drawn_ids = tt; single = λ d. omega arith }

queue-Reach : Reach tables claimed_world.db
queue-Reach =
    next (next here (requeues 7 3 5 failed_only start refl))
      (claims free "a" config none queued_world refl)

first_claim : (claim_jobs_filtered free "a" config none queued_world).0 ≡ ok (handle 1 101 ∷ [])
unfolding claim_jobs_filtered requeue_document_for_reingest transaction run statement claim
    candidates order_candidates claim_rows claim_handles reopen_document enqueue_job_tx insert_job
first_claim = refl

second_claim : (claim_jobs_filtered free "b" config none late_world).0 ≡ ok (handle 2 102 ∷ [])
unfolding claim_jobs_filtered requeue_document_for_reingest transaction run statement claim
    candidates order_candidates claim_rows claim_handles reopen_document enqueue_job_tx insert_job
second_claim = refl

Reach-IsSound_example : IsSound claimed_world.db
Reach-IsSound_example = Reach-IsSound tables-IsSound queue-Reach

claimed-IsSound : IsSound claimed_world.db
claimed-IsSound = Reach-IsSound tables-IsSound queue-Reach

queued-IsSound : IsSound queued_world.db
queued-IsSound = Reach-IsSound tables-IsSound (next here (requeues 7 3 5 failed_only start refl))

reclaimed_worker_is_fenced_example :
    ((complete_job_and_document (handle 1 101) "a" taken_world).0 ≢ ok true)
    × ((complete_job_and_document (handle 1 101) "a" taken_world).1.db ≡ taken_world.db)
    × ((x : Bool)
        → (finish_job_failure (handle 1 101) "a" failure config taken_world).0 ≢ ok (some x))
    × ((finish_job_failure (handle 1 101) "a" failure config taken_world).1.db ≡ taken_world.db)
    × ((extend_lease (handle 1 101) "a" 300 taken_world).0 ≢ ok true)
    × ((extend_lease (handle 1 101) "a" 300 taken_world).1.db ≡ taken_world.db)
unfolding claim_jobs_filtered requeue_document_for_reingest transaction run statement claim
    candidates order_candidates claim_rows claim_handles reopen_document enqueue_job_tx insert_job
reclaimed_worker_is_fenced_example =
    reclaimed_worker_is_fenced free "b" config none (handle 1 101) "a" failure config 300 late_world
      (handle 2 102 ∷ []) taken_world claimed-IsSound (omega arith) second_claim refl here

claim-IsGranted_example :
    IsGranted "a" config
      (arrive queued_world).now
      queued_world.db
      (handle 1 101 ∷ [])
      claimed_world.db
claim-IsGranted_example =
    claim-IsGranted free "a" config none queued_world (handle 1 101 ∷ []) queued-IsSound first_claim

failed_run :
    (finish_job_failure (handle 1 101) "a" failure config claimed_world).0 ≡ ok (some false)
unfolding claim_jobs_filtered requeue_document_for_reingest transaction run statement claim
    candidates order_candidates claim_rows claim_handles reopen_document enqueue_job_tx insert_job
    finish_job_failure select_attempts disposition_after_failure compute_backoff_secs requeue_job
    requeue_document sanitize_message is_control
failed_run = refl

failure-IsSettled_example :
    (some false ≡ some (is_final failure config 1 5))
    × All
        (λ j.
          has_id 100 j ≡ true
          → IsSettled config (arrive claimed_world).now (is_final failure config 1 5) j)
        (finish_job_failure (handle 1 101) "a" failure config claimed_world).1.db.jobs
unfolding claim_jobs_filtered requeue_document_for_reingest transaction run statement claim
    candidates order_candidates claim_rows claim_handles reopen_document enqueue_job_tx insert_job
failure-IsSettled_example =
    failure-IsSettled (handle 1 101) "a" failure config 0 5 (some false) claimed_world (omega arith)
      refl failed_run

claimed_job_completes_example :
    All (λ h. (complete_job_and_document h "a" claimed_world).0 ≢ ok false) (handle 1 101 ∷ [])
unfolding claim_jobs_filtered requeue_document_for_reingest transaction run statement claim
    candidates order_candidates claim_rows claim_handles reopen_document enqueue_job_tx insert_job
claimed_job_completes_example =
    claimed_job_completes free "a" config none queued_world (handle 1 101 ∷ []) claimed_world
      queued-IsSound first_claim refl (omega arith)

-- The commit of the second transaction fails.
abbrev broken : World Tables
broken = record start {
  env = quiet ∷ quiet ∷ quiet ∷ record { elapsed = 1; fails = true; lands = false } ∷ [];
}

broken_run : (requeue_document_for_reingest 7 3 5 failed_only broken).0 ≡ err unavailable
unfolding requeue_document_for_reingest transaction run statement reopen_document enqueue_job_tx
    insert_job
broken_run = refl

requeue_run : (requeue_document_for_reingest 7 3 5 failed_only start).0 ≡ ok true
unfolding requeue_document_for_reingest transaction run statement reopen_document enqueue_job_tx
    insert_job
requeue_run = refl

requeue_once_example :
    (((requeue_document_for_reingest 7 3 9 failed_or_completed queued_world).0 ≡ ok false)
      ⊎ ((requeue_document_for_reingest 7 3 9 failed_or_completed queued_world).0
          ≡ err unavailable))
    × ((requeue_document_for_reingest 7 3 9 failed_or_completed queued_world).1.db
        ≡ queued_world.db)
requeue_once_example =
    requeue_once 7 3 5 3 9 failed_only failed_or_completed start queued_world requeue_run refl

abbrev legacy : World Tables
legacy = record start {
  db = record tables {
    jobs = new_job 0 50 8 3 5 ∷ [];
    documents =
        record document { status = doc_processing }
        ∷ record document { id = 8; status = doc_processing }
        ∷ [];
  };
}

legacy_run : (recover_legacy_processing_documents legacy).0 ≡ ok 1
unfolding recover_legacy_processing_documents autocommit statement fail_orphans
legacy_run = refl

recovered_example :
    let s' = (recover_legacy_processing_documents legacy).1.db in
    (count (is_orphan s'.jobs) s'.documents ≡ 0)
    × (select (λ d. leb 1 (active_count d.id legacy.db.jobs)) s'.documents
        ≡ select (λ d. leb 1 (active_count d.id legacy.db.jobs)) legacy.db.documents)
    × (2 ≡ count (λ d. is_doc_processing d.status) s'.documents + 1)
    × (s'.jobs ≡ legacy.db.jobs)
recovered_example = recovered 1 legacy legacy_run
