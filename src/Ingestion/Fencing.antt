-- ===== src/Ingestion/Fencing.antt =====
-- The claim token fences off a worker whose lease was taken over: its handle matches no row, no
-- operation revives it, and what the worker still calls has no effect.
use hrm_grag.Db.{World, ok}
use hrm_grag.Db.Atomic.{effect, settle}
use hrm_grag.Db.Kept.{idle_of-Acts}
use hrm_grag.Ingestion.Claims.{
  claim, claim_rows, insert_document, insert_job, is_candidate, new_job, next_token,
}
use hrm_grag.Ingestion.Effects.{complete-Acts, extend-Acts, extended, failure-Acts}
use hrm_grag.Ingestion.Invariants.{reach-P}
use hrm_grag.Ingestion.Queue.{
  complete_body, complete_job_and_document, extend_lease, failure_body, finish_job_failure,
}
use hrm_grag.Ingestion.Statements.{
  complete_document, complete_job, extend, fail_document, fail_orphans, has_id, is_held, is_live,
  kill_job, killed_row, renewed_row, reopen_document, requeue_document, requeue_job, requeued_row,
  select_attempts, set_stage, succeeded_row,
}
use hrm_grag.Ingestion.Statementwise.{
  DisposalsKeep, DisposalsKeep-failure, StatementsKeep, StatementsKeep-IsInductive, moved,
}
use hrm_grag.Ingestion.Steps.{Reach}
use hrm_grag.Ingestion.Tables.{
  ClaimedJob, Document, IngestionWorkerConfig, Job, JobFailure, Tables, active_count, is_processing,
}
use hrm_grag.Prelude.{
  All, All-append, Bool, Bool-cases, List, String, [], arith, count, false, holds, inl, inr, none,
  refl, some, suc, true, update_where, ℕ, ◌&&◌, ◌++◌, ◌<◌, ◌==◌, ◌∷◌, ◌≡◌, ◌≢◌,
}
use hrm_grag.Updates.{All-of_All, All-update, count_none, select-none, update_where-none}

-- The row that a handle was made for, as long as it is claimed under the handle's token.
abbrev pub is_current : ClaimedJob → Job → Bool
is_current job j =
    j.id == job.id && is_processing j.status && holds (λ k. k == job.claim_token) j.claim_token

-- No row is claimed under the handle, and its token was drawn before.
pub record IsStale (job : ClaimedJob) (s : Tables) : Type 0 where
  pub drawn : job.claim_token < s.next_uuid
  pub unheld : All (λ j. is_current job j ≡ false) s.jobs

claim_rows-stale :
    (job : ClaimedJob) (ids : List ℕ) (worker : String) (lease t token : ℕ) (js : List Job)
    → job.claim_token < token
    → All (λ j. is_current job j ≡ false) js
    → All (λ j. is_current job j ≡ false) (claim_rows ids worker lease t token js)
unfolding claim_rows
claim_rows-stale job ids worker lease t token [] lt h = tt
claim_rows-stale job ids worker lease t token (j ∷ js) lt h = (
  elim (Bool-cases (is_candidate ids t j)) [ inl e ↦ rw e (ground arith) | inr e ↦ rw e h.0 ],
  claim_rows-stale job ids worker lease t (next_token ids t token j) js (ground arith) h.1,
)

-- An update that takes no row back into a claim.
update-stale :
    (job : ClaimedJob) (p : Job → Bool) (f : Job → Job) (js : List Job)
    → ((j : Job) → is_current job j ≡ false → is_current job (f j) ≡ false)
    → All (λ j. is_current job j ≡ false) js
    → All (λ j. is_current job j ≡ false) (update_where p f js)
update-stale job p f js keep h = All-update (λ j. is_current job j ≡ false) p f js (λ j _. keep j) h

-- What a successful INSERT wrote.
pub insert_job-inv :
    (d ws limit t : ℕ) (s : Tables) (a : ℕ) (s' : Tables)
    → insert_job d ws limit t s ≡ some (a, s')
    → (active_count d s.jobs ≡ 0)
      × (s' ≡ record s {
        jobs = s.jobs ++ new_job t s.next_uuid d ws limit ∷ [];
        next_uuid = suc s.next_uuid;
      })
unfolding insert_job
insert_job-inv d ws limit t s a s' h = (ground arith, ground arith)

pub insert_document-inv :
    (document : Document) (s : Tables) (u : Unit {0}) (s' : Tables)
    → insert_document document s ≡ some (u, s')
    → s' ≡ record s { documents = s.documents ++ document ∷ [] }
unfolding insert_document
insert_document-inv document s u s' h = ground arith

module _ (job : ClaimedJob) where
  -- A statement that leaves `ingestion_jobs` alone.
  documents_only :
      {s : Tables} {ds : List Document} → IsStale job s → IsStale job (record s { documents = ds })
  documents_only p = record { drawn = p.drawn; unheld = p.unheld }

  rows_only :
      {s : Tables} (p : Job → Bool) (f : Job → Job)
      → ((j : Job) → is_current job j ≡ false → is_current job (f j) ≡ false)
      → IsStale job s
      → IsStale job (record s { jobs = update_where p f s.jobs })
  rows_only {s} p f keep h = record {
    drawn = h.drawn;
    unheld = update-stale job p f s.jobs keep h.unheld;
  }

  IsStale-disposals : DisposalsKeep (IsStale job)
  unfolding requeue_job requeue_document kill_job fail_document
  IsStale-disposals = record {
    requeue_job_keeps = λ k failure delay t s a s' h p.
        moved (IsStale job) h
          (rows_only (has_id k.id) (requeued_row failure delay t) (λ j e. ground arith) p);
    requeue_document_keeps = λ k s a s' h p. moved (IsStale job) h (documents_only p);
    kill_keeps = λ k code message t s a s' h p.
        moved (IsStale job) h
          (rows_only (has_id k.id) (killed_row code message t) (λ j e. ground arith) p);
    fail_keeps = λ k code message t s a s' h p. moved (IsStale job) h (documents_only p);
  }

  IsStale-statements : StatementsKeep (IsStale job)
  unfolding claim extend set_stage complete_job complete_document reopen_document fail_orphans
  IsStale-statements = record {
    claim_keeps = λ locked d worker limit lease t s a s' h p. moved (IsStale job) h (record {
      drawn = omega (arith, p.drawn);
      unheld = claim_rows-stale job _ worker lease t s.next_uuid s.jobs p.drawn p.unheld;
    });
    extend_keeps = λ k worker lease t s a s' h p.
        moved (IsStale job) h (rows_only (is_held k worker) (renewed_row lease t) (λ j e. e) p);
    stage_keeps = λ k worker stage t s a s' h p. moved (IsStale job) h (documents_only p);
    complete_job_keeps = λ k worker t s a s' h p.
        moved (IsStale job) h
          (rows_only (is_live k worker t) (succeeded_row t) (λ j e. ground arith) p);
    complete_document_keeps = λ k s a s' h p. moved (IsStale job) h (documents_only p);
    failure_keeps = DisposalsKeep-failure (IsStale job) IsStale-disposals;
    reopen_keeps = λ d ws e s a s' h p. moved (IsStale job) h (documents_only p);
    insert_keeps = λ d ws limit t s a s' h p. rw (insert_job-inv d ws limit t s a s' h).1 (record {
      drawn = omega (arith, p.drawn);
      unheld = All-append (λ j. is_current job j ≡ false) s.jobs _ p.unheld (ground arith, tt);
    });
    document_keeps = λ d s a s' h p. rw (insert_document-inv d s a s' h) (documents_only p);
    orphans_keep = λ t s a s' h p. moved (IsStale job) h (documents_only p);
  }

  -- Whatever the workers and operators do, a stale handle stays stale.
  pub Reach-IsStale : {s s' : Tables} → IsStale job s → Reach s s' → IsStale job s'
  Reach-IsStale =
      reach-P (IsStale job) (StatementsKeep-IsInductive (IsStale job) IsStale-statements)

  held_none : (worker : String) (s : Tables) → IsStale job s → count (is_held job worker) s.jobs ≡ 0
  held_none worker s p = count_none (is_held job worker) s.jobs (
      All-of_All (λ j. is_current job j ≡ false) (λ j. is_held job worker j ≡ false) s.jobs
        (λ j e. ground arith) p.unheld)

  live_none :
      (worker : String) (t : ℕ) (s : Tables)
      → IsStale job s
      → count (is_live job worker t) s.jobs ≡ 0
  live_none worker t s p = count_none (is_live job worker t) s.jobs (
      All-of_All (λ j. is_current job j ≡ false) (λ j. is_live job worker t j ≡ false) s.jobs
        (λ j e. ground arith) p.unheld)

module _ (job : ClaimedJob) (worker : String) where
  stale_complete :
      (t : ℕ) (s : Tables) → IsStale job s → settle (complete_body job worker) t s ≡ some (false, s)
  unfolding settle effect complete_job
  stale_complete t s p = ground (arith, live_none job worker t s p)

  stale-failure :
      (failure : JobFailure) (config : IngestionWorkerConfig) (t : ℕ) (s : Tables)
      → IsStale job s
      → settle (failure_body job worker failure config) t s ≡ some (none, s)
  unfolding settle effect select_attempts
  stale-failure failure config t s p =
      ground (arith, select-none (is_live job worker t) s.jobs (live_none job worker t s p))

  stale-extend :
      (lease t : ℕ) (s : Tables) → IsStale job s → extended job worker lease t s ≡ some (false, s)
  unfolding extend
  stale-extend lease t s p =
      rw
        (
          held_none job worker s p,
          update_where-none (is_held job worker) (renewed_row lease t) s.jobs
              (held_none job worker s p),
        )
        refl

  -- A worker that holds a stale handle can neither extend the lease, nor complete the job, nor
  -- write a failure: each call fails or says that the lease is lost, and the tables stay as they
  -- are.
  pub stale_worker_is_fenced :
      (failure : JobFailure) (config : IngestionWorkerConfig) (lease : ℕ) (w : World Tables)
      → IsStale job w.db
      → ((complete_job_and_document job worker w).0 ≢ ok true)
        × ((complete_job_and_document job worker w).1.db ≡ w.db)
        × ((x : Bool) → (finish_job_failure job worker failure config w).0 ≢ ok (some x))
        × ((finish_job_failure job worker failure config w).1.db ≡ w.db)
        × ((extend_lease job worker lease w).0 ≢ ok true)
        × ((extend_lease job worker lease w).1.db ≡ w.db)
  stale_worker_is_fenced failure config lease w p =
      let complete =
        idle_of-Acts _ _ w false true (complete-Acts w job worker) (λ t. stale_complete t w.db p)
          (ground arith) in
      let fail = λ (x : Bool).
        idle_of-Acts _ _ w none (some x) (failure-Acts w job worker failure config)
          (λ t. stale-failure failure config t w.db p) (ground arith) in
      let renew =
        idle_of-Acts _ _ w false true (extend-Acts w job worker lease)
          (λ t. stale-extend lease t w.db p) (ground arith) in
      (complete.0, complete.1, (λ x. (fail x).0), (fail true).1, renew.0, renew.1)
