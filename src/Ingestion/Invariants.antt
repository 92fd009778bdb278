-- ===== src/Ingestion/Invariants.antt =====
-- A property of the tables that the effect of every operation keeps holds in every state that
-- the queue reaches.
use hrm_grag.Db.{M, Update, World}
use hrm_grag.Db.Atomic.{Acts, settle}
use hrm_grag.Db.Kept.{keep_of-Acts}
use hrm_grag.Ingestion.Effects.{
  claim-Acts, complete-Acts, extend-Acts, extended, failure-Acts, recover-Acts, requeue-Acts,
  set_stage-Acts, staged, upload-Acts,
}
use hrm_grag.Ingestion.Queue.{claim_body, complete_body, failure_body, requeue_body, upload_body}
use hrm_grag.Ingestion.Statements.{fail_orphans}
use hrm_grag.Ingestion.Steps.{
  Reach, Step, claims, completes, extends, fails, here, next, recovers, requeues, sets_stage,
  uploads,
}
use hrm_grag.Ingestion.Tables.{
  ClaimedJob, IngestionWorkerConfig, JobFailure, RequeueEligibility, Stage, Tables,
}
use hrm_grag.Prelude.{Bool, Option, String, some, ℕ, ◌≡◌}

-- A statement's writes keep a property.
abbrev pub Keeps {ℓ} : {A : Type 0} → (Tables → Type ℓ) → Update Tables A → Type ℓ
Keeps {A} P f = (s : Tables) (a : A) (s' : Tables) → f s ≡ some (a, s') → P s → P s'

-- The effects, one field for each kind of step.
pub record IsInductive {ℓ} (P : Tables → Type ℓ) : Type ℓ where
  pub by_claim :
      (locked : ℕ → Bool) (worker : String) (config : IngestionWorkerConfig) (d : Option ℕ) (t : ℕ)
      → Keeps P (settle (claim_body locked worker config d) t)
  pub by_extend :
      (job : ClaimedJob) (worker : String) (lease t : ℕ) → Keeps P (extended job worker lease t)
  pub by_stage :
      (job : ClaimedJob) (worker : String) (stage : Stage) (t : ℕ)
      → Keeps P (staged job worker stage t)
  pub by_complete :
      (job : ClaimedJob) (worker : String) (t : ℕ) → Keeps P (settle (complete_body job worker) t)
  pub by_failure :
      (job : ClaimedJob) (worker : String) (failure : JobFailure) (config : IngestionWorkerConfig)
      (t : ℕ)
      → Keeps P (settle (failure_body job worker failure config) t)
  pub by_requeue :
      (d ws limit : ℕ) (e : RequeueEligibility) (t : ℕ)
      → Keeps P (settle (requeue_body d ws limit e) t)
  pub by_upload : (d ws limit t : ℕ) → Keeps P (settle (upload_body d ws limit) t)
  pub by_recover : (t : ℕ) → Keeps P (fail_orphans t)

module _ {ℓ} (P : Tables → Type ℓ) where
  kept :
      {A : Type 0} (m : M Tables A) (f : ℕ → Update Tables A) (s : Tables) (w : World Tables)
      → Acts m f w
      → ((t : ℕ) → Keeps P (f t))
      → w.db ≡ s
      → P s
      → P (m w).1.db
  kept m f s w acts keeps e p =
      let p' : P w.db = rw e p in keep_of-Acts P m f w acts (λ t a s' h. keeps t w.db a s' h p') p'

  pub step-P : IsInductive P → {s s' : Tables} → Step s s' → P s → P s'
  step-P i {s} (claims locked worker config d w e) p =
      kept _ _ s w (claim-Acts w locked worker config d) (i.by_claim locked worker config d) e p
  step-P i {s} (extends job worker lease w e) p =
      kept _ _ s w (extend-Acts w job worker lease) (i.by_extend job worker lease) e p
  step-P i {s} (sets_stage job worker stage w e) p =
      kept _ _ s w (set_stage-Acts w job worker stage) (i.by_stage job worker stage) e p
  step-P i {s} (completes job worker w e) p =
      kept _ _ s w (complete-Acts w job worker) (i.by_complete job worker) e p
  step-P i {s} (fails job worker failure config w e) p =
      kept _ _ s w (failure-Acts w job worker failure config)
        (i.by_failure job worker failure config) e p
  step-P i {s} (requeues d ws limit el w e) p =
      kept _ _ s w (requeue-Acts w d ws limit el) (i.by_requeue d ws limit el) e p
  step-P i {s} (uploads d ws limit w e) p =
      kept _ _ s w (upload-Acts w d ws limit) (i.by_upload d ws limit) e p
  step-P i {s} (recovers w e) p = kept _ _ s w (recover-Acts w) i.by_recover e p

  pub reach-P : IsInductive P → {s s' : Tables} → P s → Reach s s' → P s'
  reach-P i p here = p
  reach-P i p (next r st) = step-P i st (reach-P i p r)
