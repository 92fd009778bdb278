-- ===== src/Ingestion/Statementwise.antt =====
-- A property that every single statement keeps is kept by every operation.
use hrm_grag.Db.{Body, End, Update, commit, finish, rollback, then_do}
use hrm_grag.Db.Atomic.{effect, settle, settled}
use hrm_grag.Ingestion.Claims.{claim, insert_document, insert_job, uploaded_document}
use hrm_grag.Ingestion.Invariants.{IsInductive, Keeps}
use hrm_grag.Ingestion.Queue.{
  claim_body, complete_body, dispose, disposition_of, enqueue_job_tx, failure_body, requeue_body,
  upload_body,
}
use hrm_grag.Ingestion.Statements.{
  complete_document, complete_job, extend, fail_document, fail_orphans, kill_job, reopen_document,
  requeue_document, requeue_job, select_attempts, set_stage,
}
use hrm_grag.Ingestion.Tables.{
  ClaimedJob, Document, IngestionWorkerConfig, JobFailure, RequeueEligibility, Stage, Tables,
}
use hrm_grag.Outbox.{FailureDisposition, dead, retryable}
use hrm_grag.Prelude.{
  Bool, Option, String, false, if◌then◌else◌, none, not, refl, some, true, ℕ, ◌==◌, ◌≡◌,
}
use hrm_grag.Prelude.Text.{Text}

pub record StatementsKeep {ℓ} (P : Tables → Type ℓ) : Type ℓ where
  pub claim_keeps :
      (locked : ℕ → Bool) (d : Option ℕ) (worker : String) (limit lease t : ℕ)
      → Keeps P (claim locked d worker limit lease t)
  pub extend_keeps :
      (job : ClaimedJob) (worker : String) (lease t : ℕ) → Keeps P (extend job worker lease t)
  pub stage_keeps :
      (job : ClaimedJob) (worker : String) (stage : Stage) (t : ℕ)
      → Keeps P (set_stage job worker stage t)
  pub complete_job_keeps :
      (job : ClaimedJob) (worker : String) (t : ℕ) → Keeps P (complete_job job worker t)
  pub complete_document_keeps : (job : ClaimedJob) → Keeps P (complete_document job)
  pub failure_keeps :
      (job : ClaimedJob) (worker : String) (failure : JobFailure) (config : IngestionWorkerConfig)
      (t : ℕ)
      → Keeps P (effect (failure_body job worker failure config t))
  pub reopen_keeps : (d ws : ℕ) (e : RequeueEligibility) → Keeps P (reopen_document d ws e)
  pub insert_keeps : (d ws limit t : ℕ) → Keeps P (insert_job d ws limit t)
  pub document_keeps : (document : Document) → Keeps P (insert_document document)
  pub orphans_keep : (t : ℕ) → Keeps P (fail_orphans t)

-- The statements of `finish_job_failure`, where the property does not need the row's lease.
pub record DisposalsKeep {ℓ} (P : Tables → Type ℓ) : Type ℓ where
  pub requeue_job_keeps :
      (job : ClaimedJob) (failure : JobFailure) (delay t : ℕ)
      → Keeps P (requeue_job job failure delay t)
  pub requeue_document_keeps : (job : ClaimedJob) → Keeps P (requeue_document job)
  pub kill_keeps :
      (job : ClaimedJob) (code : String) (message : Text) (t : ℕ)
      → Keeps P (kill_job job code message t)
  pub fail_keeps :
      (job : ClaimedJob) (code : String) (message : Text) (t : ℕ)
      → Keeps P (fail_document job code message t)

module _ {ℓ} (P : Tables → Type ℓ) where
  pub moved :
      {A : Type 0} {a b : A} {x y : Tables}
      → ◌≡◌ {A = Option (A × Tables)} (some (a, x)) (some (b, y))
      → P x
      → P y
  moved h p = rw (snd h) at p
    where
      snd :
          {A : Type 0} {a b : A} {x y : Tables}
          → ◌≡◌ {A = Option (A × Tables)} (some (a, x)) (some (b, y))
          → x ≡ y
      snd e = cc

  finish-Keeps : {A : Type 0} (z : End A) → Keeps P (effect (finish z))
  unfolding effect
  finish-Keeps z s a s' h p = moved h p

  then-Keeps :
      {A B : Type 0} (f : Update Tables B) (k : B → Body Tables A)
      → Keeps P f
      → ((b : B) → Keeps P (effect (k b)))
      → Keeps P (effect (then_do f k))
  unfolding effect
  then-Keeps {A} {B} f k kf rest s a s' h p = go (f s) refl h
    where
      go :
          (o : Option (B × Tables))
          → f s ≡ o
          → ◌≡◌ {A = Option (End A × Tables)}
              (elim o [ none ↦ none | some (b, s1) ↦ effect (k b) s1 ])
              (some (a, s'))
          → P s'
      go none e h = cc
      go (some (b, s1)) e h = rest b s1 a s' h (kf s b s1 e p)

  if-Keeps :
      {A : Type 0} (c : Bool) (x y : Body Tables A)
      → Keeps P (effect x)
      → Keeps P (effect y)
      → Keeps P (effect (if c then x else y))
  if-Keeps true x y kx ky = kx
  if-Keeps false x y kx ky = ky

  -- A rollback restores what was there before.
  settle-Keeps :
      {A : Type 0} (body : ℕ → Body Tables A) (t : ℕ)
      → Keeps P (effect (body t))
      → Keeps P (settle body t)
  unfolding settle
  settle-Keeps {A} body t k s a s' h p = go (effect (body t) s) refl h
    where
      go : (o : Option (End A × Tables)) → effect (body t) s ≡ o → settled s o ≡ some (a, s') → P s'
      go none e h = cc
      go (some (commit x, s1)) e h = moved h (k s (commit x) s1 e p)
      go (some (rollback x, s1)) e h = moved h p

module _ {ℓ} (P : Tables → Type ℓ) (k : DisposalsKeep P) where
  dispose-Keeps :
      (job : ClaimedJob) (failure : JobFailure) (t : ℕ) (x : FailureDisposition)
      → Keeps P (effect (dispose job failure t x))
  dispose-Keeps job failure t (retryable n delay) =
      then-Keeps P _ _ (k.requeue_job_keeps job failure delay t)
        λ _. then-Keeps P _ _ (k.requeue_document_keeps job) λ _. finish-Keeps P _
  dispose-Keeps job failure t (dead n) =
      then-Keeps P _ _ (k.kill_keeps job _ _ t)
        λ _. then-Keeps P _ _ (k.fail_keeps job _ _ t) λ _. finish-Keeps P _

  select-Keeps :
      (job : ClaimedJob) (worker : String) (t : ℕ) → Keeps P (select_attempts job worker t)
  unfolding select_attempts
  select-Keeps job worker t s a s' h p = moved P h p

  chosen-Keeps :
      (job : ClaimedJob) (failure : JobFailure) (config : IngestionWorkerConfig) (t : ℕ)
      (x : Option (ℕ × ℕ))
      → Keeps P (
          effect (elim x [
            | none ↦ finish (rollback none)
            | some (n, limit) ↦ dispose job failure t (disposition_of failure config n limit)
          ]))
  chosen-Keeps job failure config t none = finish-Keeps P _
  chosen-Keeps job failure config t (some (n, limit)) =
      dispose-Keeps job failure t (disposition_of failure config n limit)

  pub DisposalsKeep-failure :
      (job : ClaimedJob) (worker : String) (failure : JobFailure) (config : IngestionWorkerConfig)
      (t : ℕ)
      → Keeps P (effect (failure_body job worker failure config t))
  DisposalsKeep-failure job worker failure config t =
      then-Keeps P _ _ (select-Keeps job worker t) (chosen-Keeps job failure config t)

module _ {ℓ} (P : Tables → Type ℓ) (k : StatementsKeep P) where
  answer-Keeps :
      {A B : Type 0} (h : A → B) (f : Update Tables A)
      → Keeps P f
      → Keeps P (λ s. elim (f s) [ none ↦ none | some (a, s') ↦ some (h a, s') ])
  answer-Keeps {A} {B} h f kf s b s' e p = go (f s) refl e
    where
      go :
          (o : Option (A × Tables))
          → f s ≡ o
          → ◌≡◌ {A = Option (B × Tables)}
              (elim o [ none ↦ none | some (a, s1) ↦ some (h a, s1) ])
              (some (b, s'))
          → P s'
      go none e h = cc
      go (some (a, s1)) e h = moved P h (kf s a s1 e p)

  pub StatementsKeep-IsInductive : IsInductive P
  unfolding enqueue_job_tx
  StatementsKeep-IsInductive = record {
    by_claim = λ locked worker config d t. settle-Keeps P (claim_body locked worker config d) t (
        then-Keeps P _ _ (k.claim_keeps locked d worker config.batch_size config.lease_secs t)
          λ _. finish-Keeps P _);
    by_extend = λ job worker lease t.
        answer-Keeps (λ n. n == 1) (extend job worker lease t) (k.extend_keeps job worker lease t);
    by_stage = λ job worker stage t.
        answer-Keeps (λ n. n == 1) (set_stage job worker stage t)
          (k.stage_keeps job worker stage t);
    by_complete = λ job worker t. settle-Keeps P (complete_body job worker) t (
        then-Keeps P _ _ (k.complete_job_keeps job worker t) λ n.
          if-Keeps P (not (n == 1)) _ _ (finish-Keeps P _)
            (then-Keeps P _ _ (k.complete_document_keeps job) λ _. finish-Keeps P _));
    by_failure = λ job worker failure config t.
        settle-Keeps P (failure_body job worker failure config) t
          (k.failure_keeps job worker failure config t);
    by_requeue = λ d ws limit e t. settle-Keeps P (requeue_body d ws limit e) t (
        then-Keeps P _ _ (k.reopen_keeps d ws e) λ n.
          if-Keeps P (not (n == 1)) _ _ (finish-Keeps P _)
            (then-Keeps P _ _ (k.insert_keeps d ws limit t) λ _. finish-Keeps P _));
    by_upload = λ d ws limit t. settle-Keeps P (upload_body d ws limit) t (
        then-Keeps P _ _ (k.document_keeps (uploaded_document d ws))
          λ _. then-Keeps P _ _ (k.insert_keeps d ws limit t) λ _. finish-Keeps P _);
    by_recover = k.orphans_keep;
  }
