-- ===== src/Ingestion/Takeover.antt =====
-- A job whose lease ran out and that another claim took over: the old handle is stale at once, so
-- its worker is fenced off for good.
use hrm_grag.Db.{World, arrive, ok}
use hrm_grag.Db.Atomic.{effect, settle}
use hrm_grag.Db.Kept.{ok-answer, some-pair}
use hrm_grag.Ingestion.Claims.{candidates, claim, claim_handles, claim_rows, is_candidate}
use hrm_grag.Ingestion.Effects.{claim-Acts}
use hrm_grag.Ingestion.Fencing.{IsStale, Reach-IsStale, is_current, stale_worker_is_fenced}
use hrm_grag.Ingestion.Queue.{
  claim_body, claim_jobs_filtered, complete_job_and_document, extend_lease, finish_job_failure,
}
use hrm_grag.Ingestion.Soundness.{IsSound, claim_rows-ids}
use hrm_grag.Ingestion.Statements.{has_id}
use hrm_grag.Ingestion.Steps.{Reach}
use hrm_grag.Ingestion.Tables.{ClaimedJob, IngestionWorkerConfig, Job, JobFailure, Tables}
use hrm_grag.Prelude.{
  All, Bool, Bool-cases, List, Option, String, [], any, arith, count, false, inl, inr, some, suc,
  true, ℕ, ◌<◌, ◌==◌, ◌∷◌, ◌≡◌, ◌≢◌, ◌≤◌,
}
use hrm_grag.Updates.{All-of_All, none_counted}

-- A row that a claim did not take, with another row's id, is not the handle's.
others_stale :
    (job : ClaimedJob) (js : List Job)
    → count (has_id job.id) js ≡ 0
    → All (λ j. is_current job j ≡ false) js
others_stale job js none_has =
    All-of_All (λ j. has_id job.id j ≡ false) (λ j. is_current job j ≡ false) js
      (λ j no. ground arith) (none_counted (has_id job.id) js none_has)

module _ (job : ClaimedJob) (ids : List ℕ) (worker : String) (lease t : ℕ) where
  handles-ids :
      (token : ℕ) (js : List Job)
      → any (λ (h : ClaimedJob). h.id == job.id) (claim_handles ids t token js) ≡ true
      → 1 ≤ count (has_id job.id) js
  unfolding claim_handles
  handles-ids token [] h = ground (arith, h)
  handles-ids token (j ∷ js) h = elim (Bool-cases (is_candidate ids t j)) [
    | inl e ↦ elim (Bool-cases (j.id == job.id)) [
      | inl same ↦ ground arith
      | inr other ↦ ground (arith, handles-ids (suc token) js (ground arith))
    ]
    | inr e ↦ ground (arith, handles-ids token js (ground arith))
  ]

  reclaimed-stale :
      (token : ℕ) (js : List Job)
      → job.claim_token < token
      → count (has_id job.id) js ≤ 1
      → any (λ (h : ClaimedJob). h.id == job.id) (claim_handles ids t token js) ≡ true
      → All (λ j. is_current job j ≡ false) (claim_rows ids worker lease t token js)
  unfolding claim_handles claim_rows
  reclaimed-stale token [] lt u h = tt
  reclaimed-stale token (j ∷ js) lt u h = elim (Bool-cases (is_candidate ids t j)) [
    | inl e ↦ rw e (
      ground arith,
      elim (Bool-cases (j.id == job.id)) [
        | inl same ↦
            others_stale job _
              (ground (arith, claim_rows-ids ids worker lease t job.id (suc token) js))
        | inr other ↦ reclaimed-stale (suc token) js (omega arith) (ground arith) (ground arith)
      ],
    )
    | inr e ↦ elim (Bool-cases (j.id == job.id)) [
      | inl same ↦ ground (arith, handles-ids token js (ground arith))
      | inr other ↦ rw e (ground arith, reclaimed-stale token js lt (ground arith) (ground arith))
    ]
  ]

module _ (locked : ℕ → Bool) (worker : String) (config : IngestionWorkerConfig) (d : Option ℕ)
    (job : ClaimedJob) where
  claimed-IsStale :
      (t : ℕ) (s : Tables) (rows : List ClaimedJob) (s' : Tables)
      → IsSound s
      → job.claim_token < s.next_uuid
      → settle (claim_body locked worker config d) t s ≡ some (rows, s')
      → any (λ (h : ClaimedJob). h.id == job.id) rows ≡ true
      → IsStale job s'
  unfolding settle effect claim
  claimed-IsStale t s rows s' p lt h taken =
      let ids = candidates locked d config.batch_size t s.jobs in
      let written = some-pair h in
      rw (← written.1) (record {
        drawn = omega (arith, lt);
        unheld =
            reclaimed-stale job ids worker config.lease_secs t s.next_uuid s.jobs lt (p.keys job.id)
              (rw (written.0) taken);
      })

  -- Once another claim has taken a job over, the worker that held it before can never again
  -- extend the lease, complete the job or write a failure, whatever the queue does in between:
  -- each such call fails or says that the lease is lost, and it changes nothing.
  pub reclaimed_worker_is_fenced :
      (holder : String) (failure : JobFailure) (config' : IngestionWorkerConfig) (lease : ℕ)
      (w : World Tables) (rows : List ClaimedJob) (w' : World Tables)
      → IsSound w.db
      → job.claim_token < w.db.next_uuid
      → (claim_jobs_filtered locked worker config d w).0 ≡ ok rows
      → any (λ (h : ClaimedJob). h.id == job.id) rows ≡ true
      → Reach (claim_jobs_filtered locked worker config d w).1.db w'.db
      → ((complete_job_and_document job holder w').0 ≢ ok true)
        × ((complete_job_and_document job holder w').1.db ≡ w'.db)
        × ((x : Bool) → (finish_job_failure job holder failure config' w').0 ≢ ok (some x))
        × ((finish_job_failure job holder failure config' w').1.db ≡ w'.db)
        × ((extend_lease job holder lease w').0 ≢ ok true)
        × ((extend_lease job holder lease w').1.db ≡ w'.db)
  reclaimed_worker_is_fenced holder failure config' lease w rows w' p lt h taken later =
      let stale =
        claimed-IsStale (arrive w).now w.db rows _ p lt
          (ok-answer _ _ w rows (claim-Acts w locked worker config d) h) taken in
      stale_worker_is_fenced job holder failure config' lease w' (Reach-IsStale job stale later)
