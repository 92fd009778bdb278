-- ===== src/Outbox/Termination.antt =====
-- The loop of an outbox run comes to an end: no row is taken twice, so fuel for each row that has
-- not been seen is enough.
use hrm_grag.Db.{World, ok}
use hrm_grag.Db.Kept.{Result-cases}
use hrm_grag.Outbox.Run.{
  Attempt, RunResult, State, count_outcome, mark, poison, process_row, process_rows, process_until,
  refused,
}
use hrm_grag.Outbox.Table.{Outbox, ProcessorConfig, Row, claim_outbox_batch}
use hrm_grag.Outbox.Unseen.{
  claim-All, claim-row_ids, failure-row_ids, processed-row_ids, row_ids, unseen, unseen_decreases,
}
use hrm_grag.Prelude.{
  Bool, Bool-cases, List, [], arith, false, inl, inr, length, map, none, refl, suc, true, zero, ℕ,
  ◌++◌, ◌+◌, ◌<◌, ◌∙◌, ◌∷◌, ◌≡◌, ◌≢◌,
}

module _ (Value : Type 0) (Outside : Type 0) (attempt : Row Value → Outside → Attempt × Outside)
    (config : ProcessorConfig) where
  mark-row_ids :
      (row : Row Value) (a : Attempt) (w : World (Outbox Value))
      → row_ids (mark Value Outside attempt config row a w).1.db ≡ row_ids w.db
  mark-row_ids row (poison message) w =
      failure-row_ids Value row.id row.retry_count message true config w
  mark-row_ids row (refused message) w =
      failure-row_ids Value row.id row.retry_count message false config w
  mark-row_ids row hrm_grag.Outbox.Run.deleted w = processed-row_ids Value row.id w

  process_rows-row_ids :
      (rows : List (Row Value)) (result : RunResult) (w : World (Outbox Value)) (outside : Outside)
      → row_ids (process_rows Value Outside attempt config rows result (w, outside)).1.0.db
        ≡ row_ids w.db
  unfolding process_rows process_row
  process_rows-row_ids [] result w outside = refl
  process_rows-row_ids (row ∷ rows) result w outside =
      elim (Result-cases (process_row Value Outside attempt config row (w, outside)).0) [
        | inl (e, q) ↦ rw (q, process_rows) (mark-row_ids row (attempt row outside).0 w)
        | inr (o, q) ↦
            rw (q, process_rows)
              (process_rows-row_ids rows (count_outcome o result) _ _
                ∙ mark-row_ids row (attempt row outside).0 w)
      ]

  abbrev Ends :
      ℕ → (ℕ → Bool) → (ℕ → ℕ → Bool) → List ℕ → RunResult → State Value Outside attempt → Type 0
  Ends fuel stop_requested locked seen result state =
      process_until Value Outside attempt fuel stop_requested locked config seen result state ≢ none

  -- One batch leaves fewer ids unseen.
  batch-Ends :
      (fuel : ℕ) (stop_requested : ℕ → Bool) (locked : ℕ → ℕ → Bool) (seen : List ℕ)
      (result : RunResult) (w : World (Outbox Value)) (outside : Outside) (rows : List (Row Value))
      → ((seen' : List ℕ) (result' : RunResult) (w' : World (Outbox Value)) (outside' : Outside)
          → unseen seen' (row_ids w'.db) < unseen seen (row_ids w.db)
          → Ends fuel stop_requested locked seen' result' (w', outside'))
      → stop_requested fuel ≡ false
      → (claim_outbox_batch Value (locked fuel) config seen w).0 ≡ ok rows
      → Ends (suc fuel) stop_requested locked seen result (w, outside)
  unfolding process_until claim_outbox_batch
  batch-Ends fuel stop_requested locked seen result w outside [] later e q =
      rw (e, q, process_until) (λ n. cc)
  batch-Ends fuel stop_requested locked seen result w outside (row ∷ rows) later e q =
      let w' = (claim_outbox_batch Value (locked fuel) config seen w).1 in
      let counted = record result {
        batches = result.batches + 1;
        fetched_rows = result.fetched_rows + length (row ∷ rows);
      } in
      let more = map (λ (x : Row Value). x.id) rows in
      let all = claim-All Value (locked fuel) config seen w (row ∷ rows) q in
      elim (Result-cases
        (process_rows Value Outside attempt config (row ∷ rows) counted (w', outside)).0) [
          | inl (x, p) ↦ rw (e, q, p, process_until) (λ n. cc)
          | inr (r, p) ↦
              rw (e, q, p, process_until)
                (later (row.id ∷ more ++ seen) r _ _ (
                  rw
                    (
                      process_rows-row_ids (row ∷ rows) counted w' outside,
                      claim-row_ids Value (locked fuel) config seen w,
                    )
                    (unseen_decreases row.id more seen (row_ids w.db) all.0.1 all.0.0)))
        ]

  pub process_until_ends :
      (fuel : ℕ) (stop_requested : ℕ → Bool) (locked : ℕ → ℕ → Bool) (seen : List ℕ)
      (result : RunResult) (w : World (Outbox Value)) (outside : Outside)
      → unseen seen (row_ids w.db) < fuel
      → process_until Value Outside attempt fuel stop_requested locked config seen result
          (w, outside)
        ≢ none
  unfolding process_until claim_outbox_batch
  process_until_ends zero stop_requested locked seen result w outside h = ground arith
  process_until_ends (suc fuel) stop_requested locked seen result w outside h =
      elim (Bool-cases (stop_requested fuel)) [
        | inl e ↦ rw (e, process_until) (λ n. cc)
        | inr e ↦ elim (Result-cases (claim_outbox_batch Value (locked fuel) config seen w).0) [
          | inl (x, q) ↦ rw (e, q, process_until) (λ n. cc)
          | inr (rows, q) ↦
              batch-Ends fuel stop_requested locked seen result w outside rows
                (λ seen' result' w' outside' less.
                  process_until_ends fuel stop_requested locked seen' result' w' outside'
                    (omega arith))
                e q
        ]
      ]
