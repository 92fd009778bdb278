-- ===== src/Ingestion/Requeue.antt =====
-- What the calls of operators come to: a document is queued once, and a restart leaves no
-- processing document without a job.
use hrm_grag.Db.{World, arrive, err, ok, unavailable}
use hrm_grag.Db.Atomic.{effect, settle}
use hrm_grag.Db.Kept.{idle_answer, ok-answer, some-pair}
use hrm_grag.Ingestion.Claims.{insert_job, new_job}
use hrm_grag.Ingestion.Effects.{recover-Acts, requeue-Acts}
use hrm_grag.Ingestion.Queue.{
  enqueue_job_tx, recover_legacy_processing_documents, requeue_body, requeue_document_for_reingest,
}
use hrm_grag.Ingestion.Statements.{
  fail_orphans, is_orphan, is_reopenable, orphaned_document, reopen_document,
}
use hrm_grag.Ingestion.Tables.{
  Document, Job, RequeueEligibility, Tables, active_count, active_for, is_doc_processing,
}
use hrm_grag.Prelude.{
  Bool, List, [], arith, count, count-append, false, leb, refl, select, some, true, update_where, ℕ,
  ◌+◌, ◌∷◌, ◌≡◌, ◌≤◌, ◌⊎◌,
}

requeued-active :
    (d ws limit t : ℕ) (e : RequeueEligibility) (s s' : Tables)
    → settle (requeue_body d ws limit e) t s ≡ some (true, s')
    → 1 ≤ active_count d s'.jobs
unfolding settle effect enqueue_job_tx insert_job reopen_document
requeued-active d ws limit t e s s' h =
    ground (arith, count-append (active_for d) s.jobs (new_job t s.next_uuid d ws limit ∷ []))

none_reopenable :
    (d ws : ℕ) (e : RequeueEligibility) (js : List Job) (ds : List Document)
    → 1 ≤ active_count d js
    → count (is_reopenable d ws e js) ds ≡ 0
none_reopenable d ws e js [] h = refl
none_reopenable d ws e js (x ∷ ds) h = ground (arith, none_reopenable d ws e js ds h)

active-refused :
    (d ws limit t : ℕ) (e : RequeueEligibility) (s : Tables)
    → 1 ≤ active_count d s.jobs
    → settle (requeue_body d ws limit e) t s ≡ some (false, s)
unfolding settle effect reopen_document
active-refused d ws limit t e s h = ground (arith, none_reopenable d ws e s.jobs s.documents h)

-- Whoever asks again right after a document was queued gets the answer `false`, unless the
-- connection fails, under either eligibility and with any limit; nothing changes then.
pub requeue_once :
    (d ws limit ws' limit' : ℕ) (e e' : RequeueEligibility) (w w' : World Tables)
    → (requeue_document_for_reingest d ws limit e w).0 ≡ ok true
    → w'.db ≡ (requeue_document_for_reingest d ws limit e w).1.db
    → (((requeue_document_for_reingest d ws' limit' e' w').0 ≡ ok false)
        ⊎ ((requeue_document_for_reingest d ws' limit' e' w').0 ≡ err unavailable))
      × ((requeue_document_for_reingest d ws' limit' e' w').1.db ≡ w'.db)
requeue_once d ws limit ws' limit' e e' w w' h same =
    let active =
      requeued-active d ws limit (arrive w).now e w.db _
        (ok-answer _ _ w true (requeue-Acts w d ws limit e) h) in
    idle_answer _ _ w' false (requeue-Acts w' d ws' limit' e')
      (λ t. active-refused d ws' limit' t e' w'.db (rw same active))

orphans-failed :
    (t : ℕ) (js : List Job) (p : Document → Bool) (ds : List Document)
    → ((x : Document) → p x ≡ is_orphan js x)
    → count (is_orphan js) (update_where p (orphaned_document t) ds) ≡ 0
orphans-failed t js p [] h = refl
orphans-failed t js p (x ∷ ds) h = ground (arith, h x, orphans-failed t js p ds h)

has_active : List Job → Document → Bool
has_active js d = leb 1 (active_count d.id js)

active-kept :
    (t : ℕ) (js : List Job) (ds : List Document)
    → select (has_active js) (update_where (is_orphan js) (orphaned_document t) ds)
      ≡ select (has_active js) ds
unfolding has_active
active-kept t js [] = refl
active-kept t js (x ∷ ds) = ground (arith, active-kept t js ds)

settled-kept :
    (t : ℕ) (js : List Job) (ds : List Document)
    → count (λ d. is_doc_processing d.status) ds
      ≡ count
          (λ d. is_doc_processing d.status)
          (update_where (is_orphan js) (orphaned_document t) ds)
        + count (is_orphan js) ds
settled-kept t js [] = refl
settled-kept t js (x ∷ ds) = ground (arith, settled-kept t js ds)

-- After a recovery that answers, every document that is still processing has an active job; the
-- documents that had one are as they were; the answer is the number of documents that are no
-- longer processing; and no job has changed.
pub recovered :
    (n : ℕ) (w : World Tables)
    → (recover_legacy_processing_documents w).0 ≡ ok n
    → let s = w.db in
      let s' = (recover_legacy_processing_documents w).1.db in
      (count (is_orphan s'.jobs) s'.documents ≡ 0)
      × (select (λ d. leb 1 (active_count d.id s.jobs)) s'.documents
          ≡ select (λ d. leb 1 (active_count d.id s.jobs)) s.documents)
      × (count (λ d. is_doc_processing d.status) s.documents
          ≡ count (λ d. is_doc_processing d.status) s'.documents + n)
      × (s'.jobs ≡ s.jobs)
unfolding fail_orphans has_active
recovered n w h =
    let answered = some-pair (ok-answer _ _ w n (recover-Acts w) h) in
    rw (← answered.1, ← answered.0)
      (
        orphans-failed (arrive w).now w.db.jobs (is_orphan w.db.jobs) w.db.documents (λ x. refl),
        active-kept (arrive w).now w.db.jobs w.db.documents,
        settled-kept (arrive w).now w.db.jobs w.db.documents,
        refl,
      )
