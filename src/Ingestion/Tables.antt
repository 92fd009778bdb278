-- ===== src/Ingestion/Tables.antt =====
-- The rows that gmrag_api/src/ingestion/jobs.rs reads and writes: the tables `ingestion_jobs` and
-- `documents` (the columns that this file touches). UUIDs are numbers, and `next_uuid` stands for
-- gen_random_uuid(), which never repeats a value. Times are seconds.
use hrm_grag.Prelude.{Bool, List, Option, String, count, false, if◌then◌else◌, true, ℕ, ◌==◌}
use hrm_grag.Prelude.Text.{Text}

pub data JobStatus : Type 0 where
  queued processing succeeded dead : JobStatus

pub data DocumentStatus : Type 0 where
  doc_processing doc_completed doc_failed : DocumentStatus

pub data Stage : Type 0 where
  stage_queued stage_parsing stage_embedding stage_graph_extraction : Stage
  stage_saving stage_indexing stage_done stage_failed : Stage

pub record Job : Type 0 where
  pub id : ℕ
  pub document_id : ℕ
  pub workspace_id : ℕ
  pub status : JobStatus
  pub attempt_count : ℕ
  pub max_attempts : ℕ
  pub available_at : ℕ
  pub lease_expires_at : Option ℕ
  pub claimed_by : Option String
  pub claim_token : Option ℕ
  pub failure_code : Option String
  pub failure_message : Option Text
  pub created_at : ℕ
  pub updated_at : ℕ
  pub started_at : Option ℕ
  pub completed_at : Option ℕ

pub record Document : Type 0 where
  pub id : ℕ
  pub workspace_id : ℕ
  pub status : DocumentStatus
  pub processing_stage : Stage
  pub failure_code : Option String
  pub failure_message : Option Text
  pub failed_at : Option ℕ

pub record Tables : Type 0 where
  pub jobs : List Job
  pub documents : List Document
  pub next_uuid : ℕ

-- What a worker holds of a job that it has claimed.
pub record ClaimedJob : Type 0 where
  pub id : ℕ
  pub document_id : ℕ
  pub workspace_id : ℕ
  pub attempt_count : ℕ
  pub max_attempts : ℕ
  pub claim_token : ℕ

pub record IngestionWorkerConfig : Type 0 where
  pub batch_size : ℕ
  pub max_attempts : ℕ
  pub lease_secs : ℕ
  pub base_backoff_secs : ℕ
  pub max_backoff_secs : ℕ

pub record JobFailure : Type 0 where
  pub code : String
  pub message : Text
  pub retryable : Bool

pub data RequeueEligibility : Type 0 where
  failed_only failed_or_completed : RequeueEligibility

abbrev pub is_queued : JobStatus → Bool
is_queued queued = true
is_queued _ = false

abbrev pub is_processing : JobStatus → Bool
is_processing processing = true
is_processing _ = false

-- `status IN ('QUEUED', 'PROCESSING')`
abbrev pub is_active : JobStatus → Bool
is_active queued = true
is_active processing = true
is_active _ = false

abbrev pub is_doc_processing : DocumentStatus → Bool
is_doc_processing doc_processing = true
is_doc_processing _ = false

-- The statuses from which `RequeueEligibility` lets a document be queued again.
abbrev pub is_eligible : RequeueEligibility → DocumentStatus → Bool
is_eligible failed_only doc_failed = true
is_eligible failed_or_completed doc_failed = true
is_eligible failed_or_completed doc_completed = true
is_eligible _ _ = false

-- How many active jobs a document has.
abbrev pub active_for : ℕ → Job → Bool
active_for d j = if j.document_id == d then is_active j.status else false

abbrev pub active_count : ℕ → List Job → ℕ
active_count d = count (active_for d)
