-- ===== src/Outbox/Run.antt =====
-- The run over an outbox, as gmrag_api/src/retrieval/outbox.rs and
-- gmrag_api/src/storage/outbox.rs write it: batches are claimed, each row is tried once, and its
-- outcome is written. What one row asks for is a parameter, with the state outside the database.
-- A run is taken without rows that others enqueue while it goes on; each would be one more row to try.
use hrm_grag.Db.{M, Result, SqlError, World, answer, err, ok}
use hrm_grag.Outbox.Table.{
  Outbox, ProcessorConfig, Row, RowOutcome, claim_outbox_batch, count_dead_rows, dead_row,
  failed_row, mark_outbox_row_failure, mark_outbox_row_processed, processed_row,
}
use hrm_grag.Prelude.{
  Bool, List, Option, [], false, length, map, none, some, suc, true, zero, ℕ, ◌++◌, ◌+◌, ◌∷◌,
}
use hrm_grag.Prelude.Text.{Text}

pub record RunResult : Type 0 where
  pub batches : ℕ
  pub fetched_rows : ℕ
  pub processed_rows : ℕ
  pub failed_rows : ℕ
  pub dead_rows : ℕ
  pub skipped_max_retry_rows : ℕ

abbrev pub default_result : RunResult
default_result = record {
  batches = 0;
  fetched_rows = 0;
  processed_rows = 0;
  failed_rows = 0;
  dead_rows = 0;
  skipped_max_retry_rows = 0;
}

abbrev pub count_outcome : RowOutcome → RunResult → RunResult
count_outcome processed_row r = record r { processed_rows = r.processed_rows + 1 }
count_outcome failed_row r = record r { failed_rows = r.failed_rows + 1 }
count_outcome dead_row r = record r { dead_rows = r.dead_rows + 1 }

-- What a row came to before it is marked: it can never work, it is done, or it failed this time.
pub data Attempt : Type 0 where
  poison refused : Text → Attempt
  deleted : Attempt

module _ (Value : Type 0) (Outside : Type 0)
    (attempt : Row Value → Outside → Attempt × Outside) where
  abbrev pub mark : ProcessorConfig → Row Value → Attempt → M (Outbox Value) RowOutcome
  mark config row (poison message) =
      mark_outbox_row_failure Value row.id row.retry_count message true config
  mark config row deleted = answer (λ u. processed_row) (mark_outbox_row_processed Value row.id)
  mark config row (refused message) =
      mark_outbox_row_failure Value row.id row.retry_count message false config

  -- The database and what lies outside of it.
  abbrev pub State : Type 0
  State = World (Outbox Value) × Outside

  -- One row is tried, and its outcome is written.
  unfoldable pub process_row :
      ProcessorConfig → Row Value → State → Result SqlError RowOutcome × State
  unfolding mark_outbox_row_processed mark_outbox_row_failure
  process_row config row (w, outside) =
      let (a, outside') = attempt row outside in
      let (r, w') = mark config row a w in (r, (w', outside'))

  -- The rows of one batch: an error ends the run.
  unfoldable pub process_rows :
      ProcessorConfig → List (Row Value) → RunResult → State → Result SqlError RunResult × State
  unfolding process_row
  process_rows config [] result state = (ok result, state)
  process_rows config (row ∷ rows) result state =
      let (r, state') = process_row config row state in
      elim r [
        | err e ↦ (err e, state')
        | ok outcome ↦ process_rows config rows (count_outcome outcome result) state'
      ]

  abbrev finish_run : RunResult → State → Result SqlError RunResult × State
  finish_run result (w, outside) =
      let (r, w') = count_dead_rows Value w in
      elim r [
        | err e ↦ (err e, (w', outside))
        | ok n ↦ (ok (record result { skipped_max_retry_rows = n }), (w', outside))
      ]

  -- The loop, on fuel: `none` if it runs out. `stop_requested` is asked
  -- before each batch, `locked` says which rows other workers hold at that time.
  unfoldable pub process_until :
      ℕ
      → (ℕ → Bool)
      → (ℕ → ℕ → Bool)
      → ProcessorConfig
      → List ℕ
      → RunResult
      → State
      → Option (Result SqlError RunResult × State)
  unfolding process_rows count_dead_rows claim_outbox_batch
  process_until zero stop_requested locked config seen_ids result state = none
  process_until (suc fuel) stop_requested locked config seen_ids result (w, outside) =
      let (r, w') = claim_outbox_batch Value (locked fuel) config seen_ids w in
      elim (stop_requested fuel) [
        | true ↦ some (finish_run result (w, outside))
        | false ↦ elim r [
          | err e ↦ some (err e, (w', outside))
          | ok [] ↦ some (finish_run result (w', outside))
          | ok (row ∷ rows) ↦
              let counted = record result {
                batches = result.batches + 1;
                fetched_rows = result.fetched_rows + length (row ∷ rows);
              } in
              let (q, state') = process_rows config (row ∷ rows) counted (w', outside) in
              elim q [
                | err e ↦ some (err e, state')
                | ok result' ↦
                    process_until fuel stop_requested locked config
                      (map (λ (x : Row Value). x.id) (row ∷ rows) ++ seen_ids) result' state'
              ]
        ]
      ]
