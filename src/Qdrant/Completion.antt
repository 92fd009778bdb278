-- ===== src/Qdrant/Completion.antt =====
-- The run over the Qdrant outbox comes to an end.
use hrm_grag.Db.{World}
use hrm_grag.Outbox.Run.{default_result}
use hrm_grag.Outbox.Termination.{process_until_ends}
use hrm_grag.Outbox.Unseen.{unseen_none}
use hrm_grag.Prelude.{Bool, [], length, none, ℕ, ◌<◌, ◌≢◌}
use hrm_grag.Qdrant.Config.{QdrantOutboxProcessorConfig}
use hrm_grag.Qdrant.Processor.{Client, attempt_row, process_qdrant_outbox_until}
use hrm_grag.Qdrant.Rows.{Codec, Outbox, Row}

module _ (codec : Codec) (client : Client) (config : QdrantOutboxProcessorConfig) where
  -- The loop ends, whatever the client and the database answer and whenever it is asked to stop:
  -- with more fuel than there are rows it does not run out, even where no row ever leaves the queue.
  pub qdrant_run_ends :
      (fuel : ℕ) (stop_requested : ℕ → Bool) (locked : ℕ → ℕ → Bool) (w : World (Outbox codec))
      (points : client.Points)
      → length w.db.rows < fuel
      → process_qdrant_outbox_until codec client fuel stop_requested locked config (w, points)
        ≢ none
  unfolding process_qdrant_outbox_until
  qdrant_run_ends fuel stop_requested locked w points h =
      process_until_ends codec.Value client.Points (attempt_row codec client) config fuel
        stop_requested locked [] default_result w points
        (unseen_none (λ (r : Row codec). r.id) fuel w.db.rows h)
