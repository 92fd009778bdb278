-- ===== src/Ingestion/Claims.antt =====
-- The INSERT of a job and the claim, from gmrag_api/src/ingestion/jobs.rs. A comparison with NULL
-- holds of no row. `t` is the transaction's CURRENT_TIMESTAMP.
use hrm_grag.Db.{Update}
use hrm_grag.Ingestion.Tables.{
  ClaimedJob, Document, Job, Tables, active_count, doc_processing, is_processing, is_queued,
  processing, queued, stage_queued,
}
use hrm_grag.Prelude.{
  Bool, List, Option, String, [], any, holds, if◌then◌else◌, leb, length, ltb, map, none, not,
  select, some, suc, take, true, ℕ, ◌&&◌, ◌++◌, ◌+◌, ◌==◌, ◌||◌, ◌∷◌,
}

-- `enqueue_job_tx`: the columns that the INSERT leaves out have their defaults.
abbrev pub new_job : ℕ → ℕ → ℕ → ℕ → ℕ → Job
new_job t id document_id workspace_id max_attempts = record {
  id = id;
  document_id = document_id;
  workspace_id = workspace_id;
  status = queued;
  attempt_count = 0;
  max_attempts = max_attempts;
  available_at = t;
  lease_expires_at = none;
  claimed_by = none;
  claim_token = none;
  failure_code = none;
  failure_message = none;
  created_at = t;
  updated_at = t;
  started_at = none;
  completed_at = none;
}

-- The partial unique index allows one active job per document, `document_id` refers to a
-- document, and `max_attempts` is positive: otherwise the INSERT is refused.
unfoldable pub insert_job : ℕ → ℕ → ℕ → ℕ → Update Tables ℕ
insert_job document_id workspace_id max_attempts t s =
    let id = s.next_uuid in
    if active_count document_id s.jobs == 0
      && any (λ (d : Document). d.id == document_id) s.documents
      && ltb 0 max_attempts
    then some (
      id,
      record s {
        jobs = s.jobs ++ new_job t id document_id workspace_id max_attempts ∷ [];
        next_uuid = suc id;
      },
    )
    else none

-- The row of an upload. Its id is its primary key.
abbrev pub uploaded_document : ℕ → ℕ → Document
uploaded_document document_id workspace_id = record {
  id = document_id;
  workspace_id = workspace_id;
  status = doc_processing;
  processing_stage = stage_queued;
  failure_code = none;
  failure_message = none;
  failed_at = none;
}

unfoldable pub insert_document : Document → Update Tables Unit
insert_document document s =
    if any (λ (d : Document). d.id == document.id) s.documents
    then none
    else some (tt, record s { documents = s.documents ++ document ∷ [] })

-- The status test of a claim: a queued job that is due, or one whose lease has run out.
abbrev pub is_claimable : ℕ → Job → Bool
is_claimable t j =
    (is_queued j.status && leb j.available_at t)
    || (is_processing j.status && holds (λ l. ltb l t) j.lease_expires_at)

abbrev pub is_wanted : Option ℕ → Job → Bool
is_wanted none j = true
is_wanted (some d) j = j.document_id == d

-- ORDER BY available_at, created_at
abbrev before : Job → Job → Bool
before a b =
    ltb a.available_at b.available_at
    || (a.available_at == b.available_at && leb a.created_at b.created_at)

insert_sorted : Job → List Job → List Job
insert_sorted j [] = j ∷ []
insert_sorted j (k ∷ ks) =
    let rest = insert_sorted j ks in if before j k then j ∷ k ∷ ks else k ∷ rest

unfoldable pub order_candidates : List Job → List Job
unfolding insert_sorted
order_candidates [] = []
order_candidates (j ∷ js) = insert_sorted j (order_candidates js)

-- The CTE: rows that another transaction has locked are skipped.
unfoldable pub candidates : (ℕ → Bool) → Option ℕ → ℕ → ℕ → List Job → List ℕ
unfolding order_candidates
candidates locked wanted limit t jobs =
    map (λ (j : Job). j.id)
      (take limit (
        order_candidates
          (select (λ (j : Job). is_wanted wanted j && is_claimable t j && not (locked j.id)) jobs)))

abbrev pub is_candidate : List ℕ → ℕ → Job → Bool
is_candidate ids t j = any (λ (i : ℕ). i == j.id) ids && is_claimable t j

abbrev coalesce : {A : Type 0} → Option A → A → Option A
coalesce none a = some a
coalesce (some b) a = some b

abbrev pub claimed_row : String → ℕ → ℕ → ℕ → Job → Job
claimed_row worker lease t token j = record j {
  status = processing;
  claimed_by = some worker;
  claim_token = some token;
  lease_expires_at = some (t + lease);
  attempt_count = j.attempt_count + 1;
  started_at = coalesce j.started_at t;
  updated_at = t;
}

abbrev pub handle_of : ℕ → Job → ClaimedJob
handle_of token j = record {
  id = j.id;
  document_id = j.document_id;
  workspace_id = j.workspace_id;
  attempt_count = j.attempt_count + 1;
  max_attempts = j.max_attempts;
  claim_token = token;
}

-- The token for the next row, once this one has been seen.
abbrev pub next_token : List ℕ → ℕ → ℕ → Job → ℕ
next_token ids t token j = if is_candidate ids t j then suc token else token

-- The UPDATE of a claim, with a new token for each row.
unfoldable pub claim_rows : List ℕ → String → ℕ → ℕ → ℕ → List Job → List Job
claim_rows ids worker lease t token [] = []
claim_rows ids worker lease t token (j ∷ js) =
    (if is_candidate ids t j then claimed_row worker lease t token j else j)
    ∷ claim_rows ids worker lease t (next_token ids t token j) js

-- Its RETURNING clause.
unfoldable pub claim_handles : List ℕ → ℕ → ℕ → List Job → List ClaimedJob
claim_handles ids t token [] = []
claim_handles ids t token (j ∷ js) =
    let rest = claim_handles ids t (next_token ids t token j) js in
    if is_candidate ids t j then handle_of token j ∷ rest else rest

-- `claim_jobs_filtered`: the CTE and the UPDATE are one statement.
unfoldable pub claim : (ℕ → Bool) → Option ℕ → String → ℕ → ℕ → ℕ → Update Tables (List ClaimedJob)
unfolding candidates claim_rows claim_handles
claim locked wanted worker limit lease t s =
    let ids = candidates locked wanted limit t s.jobs in
    let rows = claim_handles ids t s.next_uuid s.jobs in
    some (
      rows,
      record s {
        jobs = claim_rows ids worker lease t s.next_uuid s.jobs;
        next_uuid = s.next_uuid + length rows;
      },
    )
