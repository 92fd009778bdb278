-- ===== src/Outbox/Marks.antt =====
-- What one row of an outbox comes to.
use hrm_grag.Db.{World, arrive, ok}
use hrm_grag.Db.Atomic.{autocommit-Acts}
use hrm_grag.Db.Kept.{map-Acts, ok-answer, some-pair}
use hrm_grag.Outbox.{
  FailureDisposition, OutboxBackoffConfig, dead, disposition_after_failure, retryable,
}
use hrm_grag.Outbox.Disposition.{IsRight, disposition-IsRight}
use hrm_grag.Outbox.Run.{Attempt, deleted, mark, poison, refused}
use hrm_grag.Outbox.Table.{
  Outbox, ProcessorConfig, Row, RowOutcome, dead_row, failed_row, has_id, mark_outbox_row_failure,
  mark_outbox_row_processed, outcome_of, processed_at, processed_row, row_dead, row_failed,
  row_processed, truncate_error_message, written_failure,
}
use hrm_grag.Prelude.{
  All, Bool, count, false, inl, inr, is_some, none, refl, true, ℕ, ◌+◌, ◌<◌, ◌≡◌, ◌≤◌, ◌⊎◌,
}
use hrm_grag.Prelude.Int.{i32_max, pos, ℤ}
use hrm_grag.Prelude.Text.{Text}
use hrm_grag.Updates.{update_where-All}

-- The row that an outcome leaves.
abbrev pub IsMarked : RowOutcome → {Value : Type 0} → Row Value → Type 0
IsMarked processed_row r = (r.status ≡ row_processed) × (r.error_message ≡ none)
IsMarked failed_row r = (r.status ≡ row_failed) × (is_some r.error_message ≡ true)
IsMarked dead_row r = (r.status ≡ row_dead) × (is_some r.error_message ≡ true)

-- The outcome of a refusal, for a row that had failed `count` times.
abbrev pub IsRefused : ℕ → ℕ → RowOutcome → Type 0
IsRefused count limit o =
    (o ≡ failed_row) × (count + 1 < limit) ⊎ (o ≡ dead_row) × (limit ≤ count + 1)

-- The outcome that a try deserves.
abbrev pub IsJust : ℕ → ℕ → Attempt → RowOutcome → Type 0
IsJust count limit deleted o = o ≡ processed_row
IsJust count limit (poison message) o = o ≡ dead_row
IsJust count limit (refused message) o = IsRefused count limit o

module _ (Value : Type 0) (Outside : Type 0) (attempt : Row Value → Outside → Attempt × Outside)
    (config : ProcessorConfig) where
  written-IsMarked :
      (d : FailureDisposition) (message : Text) (t : ℕ) (r : Row Value)
      → IsMarked (outcome_of Value d) (written_failure Value d message t r)
  written-IsMarked (retryable n delay) message t r = (refl, refl)
  written-IsMarked (dead n) message t r = (refl, refl)

  failure-IsMarked :
      (id : ℕ) (count : ℤ) (message : Text) (permanent : Bool) (w : World (Outbox Value))
      (o : RowOutcome)
      → (mark_outbox_row_failure Value id count message permanent config w).0 ≡ ok o
      → All
          (λ r. has_id Value id r ≡ true → IsMarked o r)
          (mark_outbox_row_failure Value id count message permanent config w).1.db.rows
  unfolding mark_outbox_row_failure
  failure-IsMarked id count message permanent w o h =
      let answered = some-pair (ok-answer _ _ w o (autocommit-Acts _ w) h) in
      rw (← answered.1) (
        rw (← answered.0) (
          update_where-All _ (has_id Value id) _ w.db.rows (λ r.
            written-IsMarked
              (disposition_after_failure count config.max_retries permanent config.backoff)
              (truncate_error_message message) (arrive w).now r)))

  pub mark-IsMarked :
      (row : Row Value) (a : Attempt) (w : World (Outbox Value)) (o : RowOutcome)
      → (mark Value Outside attempt config row a w).0 ≡ ok o
      → All
          (λ r. has_id Value row.id r ≡ true → IsMarked o r)
          (mark Value Outside attempt config row a w).1.db.rows
  unfolding mark_outbox_row_processed
  mark-IsMarked row (poison message) w o h = failure-IsMarked row.id row.retry_count _ true w o h
  mark-IsMarked row (refused e) w o h = failure-IsMarked row.id row.retry_count _ false w o h
  mark-IsMarked row deleted w o h =
      let answered = some-pair (ok-answer _ _ w o (map-Acts _ _ _ w (autocommit-Acts _ w)) h) in
      rw (← answered.1) (
        rw (← answered.0) (
          update_where-All (IsMarked processed_row) (has_id Value row.id)
            (processed_at Value (arrive w).now) w.db.rows (λ r. (refl, refl))))

  permanent-dead :
      (count : ℤ)
      → outcome_of Value (disposition_after_failure count config.max_retries true config.backoff)
        ≡ dead_row
  unfolding disposition_after_failure
  permanent-dead count = refl

  refusal-IsRefused :
      (count limit : ℕ) (b : OutboxBackoffConfig) (d : FailureDisposition)
      → IsRight count limit false b d
      → IsRefused count limit (outcome_of Value d)
  refusal-IsRefused count limit b (retryable n delay) h = inl (refl, h.1)
  refusal-IsRefused count limit b (dead n) h = elim h.0 [
    | inl contrary ↦ cc
    | inr last ↦ inr (refl, last)
  ]

  -- What an outcome says of the try: done exactly if the deletion was accepted, and given up exactly if
  -- the row can never work or this was its last try.
  pub mark-IsJust :
      (row : Row Value) (a : Attempt) (w : World (Outbox Value)) (o : RowOutcome) (count limit : ℕ)
      → row.retry_count ≡ pos count
      → config.max_retries ≡ pos limit
      → count < i32_max
      → (mark Value Outside attempt config row a w).0 ≡ ok o
      → IsJust count limit a o
  unfolding mark_outbox_row_failure mark_outbox_row_processed
  mark-IsJust row (poison message) w o count limit q q' bound h =
      rw (← (some-pair (ok-answer _ _ w o (autocommit-Acts _ w) h)).0)
        (permanent-dead row.retry_count)
  mark-IsJust row (refused message) w o count limit q q' bound h =
      rw (← (some-pair (ok-answer _ _ w o (autocommit-Acts _ w) h)).0, q, q')
        (refusal-IsRefused count limit config.backoff _
          (disposition-IsRight count limit false config.backoff bound))
  mark-IsJust row deleted w o count limit q q' bound h =
      rw (← (some-pair (ok-answer _ _ w o (map-Acts _ _ _ w (autocommit-Acts _ w)) h)).0) refl
