-- ===== src/Ingestion/Exclusive.antt =====
-- Every operation keeps the keys of `ingestion_jobs`: the failure of a job touches the row whose
-- lease its worker holds, so that it revives no finished row.
use hrm_grag.Db.{End, finish, rollback}
use hrm_grag.Db.Atomic.{effect}
use hrm_grag.Ingestion.Claims.{claim, insert_job, new_job}
use hrm_grag.Ingestion.Fencing.{insert_document-inv, insert_job-inv}
use hrm_grag.Ingestion.Invariants.{reach-P}
use hrm_grag.Ingestion.Queue.{dispose, disposition_of, failure_body}
use hrm_grag.Ingestion.Soundness.{
  IsSound, IsSound-documents, IsSound-rows, all, claim_rows-active, claim_rows-drawn,
  claim_rows-ids, drawn-fresh,
}
use hrm_grag.Ingestion.Statements.{
  complete_document, complete_job, extend, fail_document, fail_orphans, first, has_id, is_held,
  is_live, kill_job, killed_row, renewed_row, reopen_document, requeue_document, requeue_job,
  requeued_row, select_attempts, set_stage, succeeded_row,
}
use hrm_grag.Ingestion.Statementwise.{StatementsKeep, StatementsKeep-IsInductive, moved}
use hrm_grag.Ingestion.Steps.{Reach}
use hrm_grag.Ingestion.Tables.{
  ClaimedJob, IngestionWorkerConfig, Job, JobFailure, Tables, active_for, is_active,
}
use hrm_grag.Outbox.{FailureDisposition, dead, retryable}
use hrm_grag.Prelude.{
  All, All-append, Bool, Bool-cases, List, Option, String, [], arith, count, count-append, false,
  inl, inr, none, refl, select, some, suc, true, ℕ, ◌++◌, ◌<◌, ◌∷◌, ◌≡◌, ◌≤◌,
}
use hrm_grag.Updates.{All-of_All, count_none, none_counted, select-none}

-- A row that one worker holds is the only one with its id, so every row with that id is active.
live-active :
    (job : ClaimedJob) (worker : String) (t : ℕ) (x : ℕ × ℕ) (js : List Job)
    → count (has_id job.id) js ≤ 1
    → first (select (is_live job worker t) js) ≡ some x
    → All (λ j. has_id job.id j ≡ true → is_active j.status ≡ true) js
live-active job worker t x [] u h = tt
live-active job worker t x (j ∷ js) u h = elim (Bool-cases (is_live job worker t j)) [
  | inl e ↦ (
    (λ _. ground arith),
    All-of_All (λ j. has_id job.id j ≡ false)
        (λ j. has_id job.id j ≡ true → is_active j.status ≡ true) js (λ j no yes. cc)
        (none_counted (has_id job.id) js (ground arith)),
  )
  | inr e ↦ (
    (λ same. ground (arith, select-none (is_live job worker t) js (no_live (ground arith)))),
    live-active job worker t x js (ground arith) (ground arith),
  )
]
  where
    no_live : count (has_id job.id) js ≡ 0 → count (is_live job worker t) js ≡ 0
    no_live z = count_none (is_live job worker t) js (
        All-of_All (λ j. has_id job.id j ≡ false) (λ j. is_live job worker t j ≡ false) js
          (λ j no. ground arith) (none_counted (has_id job.id) js z))

module _ (job : ClaimedJob) (failure : JobFailure) (t : ℕ) where
  dispose-IsSound :
      (x : FailureDisposition) (s : Tables) (a : End (Option Bool)) (s' : Tables)
      → All (λ j. has_id job.id j ≡ true → is_active j.status ≡ true) s.jobs
      → effect (dispose job failure t x) s ≡ some (a, s')
      → IsSound s
      → IsSound s'
  unfolding effect requeue_job requeue_document kill_job fail_document
  dispose-IsSound (retryable n delay) s a s' act h p = moved IsSound h (
      IsSound-rows (has_id job.id) (requeued_row failure delay t) (λ j. refl)
        (λ d.
          All-of_All (λ j. has_id job.id j ≡ true → is_active j.status ≡ true) _ s.jobs
            (λ j up yes was. ground (arith, up yes)) act)
        p)
  dispose-IsSound (dead n) s a s' act h p = moved IsSound h (
      IsSound-rows (has_id job.id) (killed_row _ _ t) (λ j. refl)
        (λ d. all s.jobs (λ j yes was. ground arith)) p)

  chosen-IsSound :
      (worker : String) (config : IngestionWorkerConfig) (s : Tables) (a : End (Option Bool))
      (s' : Tables)
      → effect (failure_body job worker failure config t) s ≡ some (a, s')
      → IsSound s
      → IsSound s'
  unfolding effect select_attempts
  chosen-IsSound worker config s a s' h p = go (first (select (is_live job worker t) s.jobs)) refl h
    where
      go :
          (o : Option (ℕ × ℕ))
          → first (select (is_live job worker t) s.jobs) ≡ o
          → effect
              (elim o [
                | none ↦ finish (rollback none)
                | some (n, limit) ↦ dispose job failure t (disposition_of failure config n limit)
              ])
              s
            ≡ some (a, s')
          → IsSound s'
      go none e h = moved IsSound h p
      go (some x) e h =
          dispose-IsSound (disposition_of failure config x.0 x.1) s a s'
            (live-active job worker t x s.jobs (p.keys job.id) e) h p

one_more :
    (q : Job → Bool) (js : List Job) (j : Job)
    → count q js ≤ 1
    → (q j ≡ true → count q js ≡ 0)
    → count q (js ++ j ∷ []) ≤ 1
one_more q js j le only =
    rw (count-append q js (j ∷ []))
      (elim (Bool-cases (q j)) [ inl e ↦ ground (arith, only e) | inr e ↦ ground arith ])

module _ (d ws limit t : ℕ) where
  insert-IsSound :
      (s : Tables) (a : ℕ) (s' : Tables)
      → insert_job d ws limit t s ≡ some (a, s')
      → IsSound s
      → IsSound s'
  insert-IsSound s a s' h p =
      let inserted = insert_job-inv d ws limit t s a s' h in
      rw inserted.1 (record {
        keys = λ i. one_more (has_id i) s.jobs (new_job t s.next_uuid d ws limit) (p.keys i) λ e.
            let same : s.next_uuid ≡ i = ground arith in
            rw (← same) (drawn-fresh s.next_uuid s.jobs p.drawn_ids);
        drawn_ids =
            All-append (λ j. j.id < suc s.next_uuid) s.jobs _
              (All-of_All (λ j. j.id < s.next_uuid) (λ j. j.id < suc s.next_uuid) s.jobs
                (λ j lt. omega arith) p.drawn_ids)
              (omega arith, tt);
        single = λ k.
            one_more (active_for k) s.jobs (new_job t s.next_uuid d ws limit) (p.single k)
              λ e. let same : d ≡ k = ground arith in rw (← same) inserted.0;
      })

IsSound-statements : StatementsKeep IsSound
unfolding claim extend set_stage complete_job complete_document reopen_document fail_orphans
IsSound-statements = record {
  claim_keeps = λ locked d worker limit lease t s a s' h p. moved IsSound h (record {
    keys = λ i. rw (claim_rows-ids _ worker lease t i s.next_uuid s.jobs) (p.keys i);
    drawn_ids =
        All-of_All (λ j. j.id < s.next_uuid) _ _ (λ j lt. omega arith)
          (claim_rows-drawn _ worker lease t s.next_uuid s.next_uuid s.jobs p.drawn_ids);
    single = λ d. rw (claim_rows-active _ worker lease t d s.next_uuid s.jobs) (p.single d);
  });
  extend_keeps = λ k worker lease t s a s' h p. moved IsSound h (
      IsSound-rows (is_held k worker) (renewed_row lease t) (λ j. refl)
        (λ d. all s.jobs (λ j yes was. was)) p);
  stage_keeps = λ k worker stage t s a s' h p. moved IsSound h (IsSound-documents p);
  complete_job_keeps = λ k worker t s a s' h p. moved IsSound h (
      IsSound-rows (is_live k worker t) (succeeded_row t) (λ j. refl)
        (λ d. all s.jobs (λ j yes was. ground arith)) p);
  complete_document_keeps = λ k s a s' h p. moved IsSound h (IsSound-documents p);
  failure_keeps = λ job worker failure config t s a s' h p.
      chosen-IsSound job failure t worker config s a s' h p;
  reopen_keeps = λ d ws e s a s' h p. moved IsSound h (IsSound-documents p);
  insert_keeps = insert-IsSound;
  document_keeps = λ d s a s' h p. rw (insert_document-inv d s a s' h) (IsSound-documents p);
  orphans_keep = λ t s a s' h p. moved IsSound h (IsSound-documents p);
}

-- Whatever the workers and operators do, job ids stay unique and drawn from the supply, and no
-- document has two active jobs.
pub Reach-IsSound : {s s' : Tables} → IsSound s → Reach s s' → IsSound s'
Reach-IsSound = reach-P IsSound (StatementsKeep-IsInductive IsSound IsSound-statements)
