-- ===== src/AuthzOutbox/Completion.antt =====
-- The run over the outbox of tuples comes to an end.
use hrm_grag.Authz.{Client}
use hrm_grag.AuthzOutbox.Config.{AuthzOutboxProcessorConfig}
use hrm_grag.AuthzOutbox.Ids.{process_rows-row_ids, row_ids}
use hrm_grag.AuthzOutbox.Processor.{
  AuthzOutboxRunResult, State, process_authz_outbox, process_rows, process_until, unprocessed,
}
use hrm_grag.AuthzOutbox.Rows.{Codec, Row, Tables, open_rows, select_batch}
use hrm_grag.Db.{World, ok}
use hrm_grag.Db.Atomic.{autocommit-Acts}
use hrm_grag.Db.Kept.{Result-cases, keep_of-Acts, ok-answer, some_answer, some_written}
use hrm_grag.Outbox.Unseen.{keyed, unseen, unseen_decreases, unseen_none}
use hrm_grag.Prelude.{
  All, List, [], any, arith, inl, inr, length, map, none, not, refl, some, suc, true, zero, ℕ, ◌++◌,
  ◌+◌, ◌<◌, ◌==◌, ◌∷◌, ◌≡◌, ◌≢◌,
}
use hrm_grag.Prelude.Int.{max_zero}
use hrm_grag.Prelude.Text.{Uuid}
use hrm_grag.Updates.{All-of_All, All-select, All-take, sort_by-All}

module _ (codec : Codec) (config : AuthzOutboxProcessorConfig) where
  batch-row_ids :
      (w : World (Tables codec))
      → row_ids codec (select_batch codec config w).1.db ≡ row_ids codec w.db
  unfolding select_batch
  batch-row_ids w =
      keep_of-Acts (λ d. row_ids codec d ≡ row_ids codec w.db) _ _ w
        (autocommit-Acts (λ t d. some (open_rows codec config d.rows, d)) w)
        (λ t o d h. some_written (λ d'. row_ids codec d' ≡ row_ids codec w.db) h refl) refl

  -- A row of a batch stands in the table.
  open_rows-All :
      (rows : List (Row codec))
      → All
          (λ r. any (λ i. i == r.id) (map (λ (x : Row codec). x.id) rows) ≡ true)
          (open_rows codec config rows)
  unfolding open_rows
  open_rows-All rows = All-take _ (max_zero config.batch_size) _ (
      sort_by-All _ (λ (r : Row codec). r.created_at) _
        (All-of_All _ _ _ (λ r h. h.0)
          (All-select _ _ rows (keyed (λ (x : Row codec). x.id) rows))))

  batch-All :
      (w : World (Tables codec)) (batch : List (Row codec))
      → (select_batch codec config w).0 ≡ ok batch
      → All (λ r. any (λ i. i == r.id) (row_ids codec w.db) ≡ true) batch
  unfolding select_batch
  batch-All w batch h =
      some_answer (All _)
        (ok-answer _ _ w batch (autocommit-Acts (λ t d. some (open_rows codec config d.rows, d)) w)
          h)
        (open_rows-All w.db.rows)

module _ (codec : Codec) (client : Client) (uuid : Uuid) (config : AuthzOutboxProcessorConfig) where
  abbrev Ends :
      ℕ → List ℕ → AuthzOutboxRunResult codec client uuid → State codec client uuid → Type 0
  Ends fuel processed_ids result state =
      process_until codec client uuid fuel config processed_ids result state ≢ none

  -- One batch leaves fewer ids unseen.
  batch-Ends :
      (fuel : ℕ) (seen : List ℕ) (result : AuthzOutboxRunResult codec client uuid)
      (w : World (Tables codec)) (s : client.Store) (batch rows : List (Row codec))
      → ((seen' : List ℕ) (result' : AuthzOutboxRunResult codec client uuid)
            (w' : World (Tables codec)) (s' : client.Store)
          → unseen seen' (row_ids codec w'.db) < unseen seen (row_ids codec w.db)
          → Ends fuel seen' result' (w', s'))
      → (select_batch codec config w).0 ≡ ok batch
      → unprocessed codec client uuid seen batch ≡ rows
      → All
          (λ r.
            (any (λ i. i == r.id) (row_ids codec w.db) ≡ true)
            × (not (any (λ j. j == r.id) seen) ≡ true))
          rows
      → Ends (suc fuel) seen result (w, s)
  unfolding process_until
  batch-Ends fuel seen result w s batch [] later q p all = rw (q, p, process_until) (λ n. cc)
  batch-Ends fuel seen result w s batch (row ∷ rows) later q p all =
      let w' = (select_batch codec config w).1 in
      let counted = record result {
        batches = result.batches + 1;
        fetched_rows = result.fetched_rows + length (row ∷ rows);
      } in
      let more = map (λ (x : Row codec). x.id) rows in
      elim (Result-cases (process_rows codec client uuid (row ∷ rows) counted (w', s)).0) [
        | inl (e, r) ↦ rw (q, p, r, process_until) (λ n. cc)
        | inr (o, r) ↦
            rw (q, p, r, process_until)
              (later (row.id ∷ more ++ seen) o _ _ (
                rw
                  (
                    process_rows-row_ids codec client uuid (row ∷ rows) counted w' s,
                    batch-row_ids codec config w,
                  )
                  (unseen_decreases row.id more seen (row_ids codec w.db) (ground (arith, all.0.1))
                    all.0.0)))
      ]

  run-Ends :
      (fuel : ℕ) (seen : List ℕ) (result : AuthzOutboxRunResult codec client uuid)
      (w : World (Tables codec)) (s : client.Store)
      → unseen seen (row_ids codec w.db) < fuel
      → Ends fuel seen result (w, s)
  unfolding process_until
  run-Ends zero seen result w s h = ground arith
  run-Ends (suc fuel) seen result w s h = elim (Result-cases (select_batch codec config w).0) [
    | inl (x, q) ↦ rw (q, process_until) (λ n. cc)
    | inr (batch, q) ↦
        batch-Ends fuel seen result w s batch (unprocessed codec client uuid seen batch)
          (λ seen' result' w' s' less. run-Ends fuel seen' result' w' s' (omega arith)) q refl
          (All-select _ (λ (r : Row codec). not (any (λ j. j == r.id) seen)) batch
            (batch-All codec config w batch q))
  ]

  -- The loop ends, whatever OpenFGA and the database answer: with more fuel than there are rows it
  -- does not run out, even where no row ever leaves the queue.
  pub authz_run_ends :
      (fuel : ℕ) (w : World (Tables codec)) (s : client.Store)
      → length w.db.rows < fuel
      → process_authz_outbox codec client uuid fuel config (w, s) ≢ none
  unfolding process_authz_outbox
  authz_run_ends fuel w s h =
      run-Ends fuel [] _ w s (unseen_none (λ (r : Row codec). r.id) fuel w.db.rows h)
