-- ===== src/Outbox/Table.antt =====
-- The table of an outbox and its statements, as gmrag_api/src/retrieval/outbox.rs and
-- gmrag_api/src/storage/outbox.rs write them: the two files have the same SQL over
-- `qdrant_outbox` and `storage_outbox`. `Value` is the type of the payloads. Times are seconds.
use hrm_grag.Db.{M, Update, autocommit, commit, finish, then_do, transaction}
use hrm_grag.Outbox.{
  FailureDisposition, OutboxBackoffConfig, dead, disposition_after_failure, retryable,
}
use hrm_grag.Prelude.{
  Bool, List, Option, [], any, count, false, if◌then◌else◌, leb, ltb, none, not, select, some,
  sort_by, suc, take, true, update_where, ℕ, ◌&&◌, ◌++◌, ◌+◌, ◌==◌, ◌∷◌,
}
use hrm_grag.Prelude.Int.{leb_ℤ, max_zero, pos, ℤ}
use hrm_grag.Prelude.Text.{Text}

pub record ProcessorConfig : Type 0 where
  pub batch_size : ℤ
  pub max_retries : ℤ
  pub backoff : OutboxBackoffConfig

pub data RowStatus : Type 0 where
  row_pending row_failed row_processed row_dead : RowStatus

pub data RowOutcome : Type 0 where
  processed_row failed_row dead_row : RowOutcome

-- `len()` counts bytes of UTF-8, `chars()` code points.
abbrev pub utf8_len : Text → ℕ
utf8_len [] = 0
utf8_len (c ∷ s) =
    (if ltb c 0x80 then 1 else if ltb c 0x800 then 2 else if ltb c 0x10000 then 3 else 4)
    + utf8_len s

unfoldable pub truncate_error_message : Text → Text
truncate_error_message message = if leb (utf8_len message) 200 then message else take 200 message

module _ (Value : Type 0) where
  pub record Row : Type 0 where
    pub id : ℕ
    pub event_type : Text
    pub payload : Value
    pub status : RowStatus
    pub retry_count : ℤ
    pub next_attempt_at : ℕ
    pub error_message : Option Text
    pub created_at : ℕ
    pub updated_at : ℕ

  pub record Outbox : Type 0 where
    pub rows : List Row
    pub next_uuid : ℕ

  -- `enqueue_event_tx`, for an event type by its stored name.
  unfoldable pub enqueue_event : Text → Value → ℕ → Update Outbox ℕ
  enqueue_event event_type payload t s = some (
    s.next_uuid,
    record s {
      rows =
          s.rows
          ++ (record {
            id = s.next_uuid;
            event_type = event_type;
            payload = payload;
            status = row_pending;
            retry_count = pos 0;
            next_attempt_at = t;
            error_message = none;
            created_at = t;
            updated_at = t;
          })
            ∷ [];
      next_uuid = suc s.next_uuid;
    },
  )

  abbrev pub in_transaction : {A : Type 0} → (ℕ → Update Outbox A) → M Outbox A
  in_transaction f = transaction (λ t. then_do (f t) (λ a. finish (commit a)))

  abbrev pub is_waiting : RowStatus → Bool
  is_waiting row_pending = true
  is_waiting row_failed = true
  is_waiting _ = false

  abbrev pub is_due : ℤ → ℕ → List ℕ → Row → Bool
  is_due max_retries t exclude_ids r =
      is_waiting r.status
      && not (leb_ℤ max_retries r.retry_count)
      && leb r.next_attempt_at t
      && not (any (λ i. i == r.id) exclude_ids)

  -- The rows of the CTE. A negative limit or lease does not occur:
  -- the settings are clamped.
  unfoldable pub due_rows : (ℕ → Bool) → ProcessorConfig → List ℕ → ℕ → List Row → List Row
  due_rows locked config exclude_ids t rows = take (max_zero config.batch_size) (
      sort_by (λ (r : Row). r.created_at)
        (select (λ (r : Row). is_due config.max_retries t exclude_ids r && not (locked r.id)) rows))

  unfoldable pub claim_rows : (ℕ → Bool) → ProcessorConfig → List ℕ → ℕ → Update Outbox (List Row)
  unfolding due_rows
  claim_rows locked config exclude_ids t s =
      let claimed = due_rows locked config exclude_ids t s.rows in
      let until = t + max_zero config.backoff.claim_lease_secs in
      some (
        claimed,
        record s {
          rows =
              update_where (λ (r : Row). any (λ (c : Row). c.id == r.id) claimed)
                (λ r. record r { next_attempt_at = until; updated_at = t }) s.rows;
        },
      )

  unfoldable pub claim_outbox_batch : (ℕ → Bool) → ProcessorConfig → List ℕ → M Outbox (List Row)
  claim_outbox_batch locked config exclude_ids =
      in_transaction (claim_rows locked config exclude_ids)

  abbrev pub has_id : ℕ → Row → Bool
  has_id id r = r.id == id

  abbrev pub processed_at : ℕ → Row → Row
  processed_at t r = record r { status = row_processed; error_message = none; updated_at = t }

  unfoldable pub mark_outbox_row_processed : ℕ → M Outbox Unit
  mark_outbox_row_processed id =
      autocommit
        (λ t s. some (tt, record s { rows = update_where (has_id id) (processed_at t) s.rows }))

  abbrev pub failed_at : ℤ → Text → ℕ → ℕ → Row → Row
  failed_at count message delay t r = record r {
    status = row_failed;
    retry_count = count;
    error_message = some message;
    next_attempt_at = t + delay;
    updated_at = t;
  }

  abbrev pub dead_at : ℤ → Text → ℕ → Row → Row
  dead_at count message t r = record r {
    status = row_dead;
    retry_count = count;
    error_message = some message;
    updated_at = t;
  }

  abbrev pub written_failure : FailureDisposition → Text → ℕ → Row → Row
  written_failure (retryable count delay) message t = failed_at count message delay t
  written_failure (dead count) message t = dead_at count message t

  abbrev pub outcome_of : FailureDisposition → RowOutcome
  outcome_of (retryable count delay) = failed_row
  outcome_of (dead count) = dead_row

  unfoldable pub mark_outbox_row_failure :
      ℕ → ℤ → Text → Bool → ProcessorConfig → M Outbox RowOutcome
  unfolding truncate_error_message
  mark_outbox_row_failure id retry_count error_message permanent_error config =
      let message = truncate_error_message error_message in
      let disposition =
        disposition_after_failure retry_count config.max_retries permanent_error config.backoff in
      autocommit (λ t s. some (
        outcome_of disposition,
        record s { rows = update_where (has_id id) (written_failure disposition message t) s.rows },
      ))

  abbrev pub is_dead : Row → Bool
  is_dead r = elim r.status [ row_dead ↦ true | _ ↦ false ]

  unfoldable pub count_dead_rows : M Outbox ℕ
  count_dead_rows = autocommit (λ t s. some (count is_dead s.rows, s))
