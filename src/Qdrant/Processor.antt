-- ===== src/Qdrant/Processor.antt =====
-- The run of gmrag_api/src/retrieval/outbox.rs: batches are claimed, each row is tried once, and
-- its outcome is written. The retrieval client is a parameter: what its deletions do to the stored
-- points, and the errors that they return.
use hrm_grag.Outbox.Run
use hrm_grag.Db.{Result, SqlError, err, ok}
use hrm_grag.Outbox.Run.{
  Attempt, RunResult, default_result, deleted, poison, process_row, process_until, refused,
}
use hrm_grag.Outbox.Table.{RowOutcome}
use hrm_grag.Prelude.{Bool, List, Option, [], false, none, some, ℕ}
use hrm_grag.Prelude.Text.{codes}
use hrm_grag.Qdrant.Config.{
  QdrantOutboxEventType, QdrantOutboxProcessorConfig, delete_by_document, delete_by_workspace,
  delete_by_workspaces, parse,
}
use hrm_grag.Qdrant.Rows.{Codec, RetrievalError, Row, sanitize_error_message}

pub record Client : Type 1 where
  pub Points : Type 0
  pub delete_points_by_document : ℕ → ℕ → Points → Result RetrievalError Unit × Points
  pub delete_points_by_workspace : ℕ → Points → Result RetrievalError Unit × Points
  pub delete_points_by_workspaces : List ℕ → Points → Result RetrievalError Unit × Points

module _ (codec : Codec) (client : Client) where
  abbrev pub attempted : Result RetrievalError Unit × client.Points → Attempt × client.Points
  attempted (ok u, points) = (deleted, points)
  attempted (err e, points) = (refused (sanitize_error_message e), points)

  abbrev delete_document : Option (ℕ × ℕ) → client.Points → Attempt × client.Points
  delete_document none points = (poison (codes "invalid_payload"), points)
  delete_document (some (workspace_id, document_id)) points =
      attempted (client.delete_points_by_document workspace_id document_id points)

  abbrev delete_workspace : Option ℕ → client.Points → Attempt × client.Points
  delete_workspace none points = (poison (codes "invalid_payload"), points)
  delete_workspace (some workspace_id) points =
      attempted (client.delete_points_by_workspace workspace_id points)

  abbrev delete_workspaces : Option (List ℕ) → client.Points → Attempt × client.Points
  delete_workspaces none points = (poison (codes "invalid_payload"), points)
  delete_workspaces (some workspace_ids) points =
      attempted (client.delete_points_by_workspaces workspace_ids points)

  abbrev pub attempt :
      Option QdrantOutboxEventType → codec.Value → client.Points → Attempt × client.Points
  attempt none payload points = (poison (codes "unsupported_event_type"), points)
  attempt (some delete_by_document) payload points =
      delete_document (codec.decode_document payload) points
  attempt (some delete_by_workspace) payload points =
      delete_workspace (codec.decode_workspace payload) points
  attempt (some delete_by_workspaces) payload points =
      delete_workspaces (codec.decode_workspaces payload) points

  -- What a row asks of the client.
  abbrev pub attempt_row : Row codec → client.Points → Attempt × client.Points
  attempt_row row points = attempt (parse row.event_type) row.payload points

  abbrev pub State : Type 0
  State = Run.State codec.Value client.Points attempt_row

  unfoldable pub process_single_row :
      QdrantOutboxProcessorConfig → Row codec → State → Result SqlError RowOutcome × State
  unfolding parse sanitize_error_message process_row
  process_single_row = process_row codec.Value client.Points attempt_row

  -- `process_qdrant_outbox_until`
  unfoldable pub process_qdrant_outbox_until :
      ℕ
      → (ℕ → Bool)
      → (ℕ → ℕ → Bool)
      → QdrantOutboxProcessorConfig
      → State
      → Option (Result SqlError RunResult × State)
  unfolding process_until parse sanitize_error_message
  process_qdrant_outbox_until fuel stop_requested locked config state =
      process_until codec.Value client.Points attempt_row fuel stop_requested locked config []
        default_result state

  unfoldable pub process_qdrant_outbox :
      ℕ
      → (ℕ → ℕ → Bool)
      → QdrantOutboxProcessorConfig
      → State
      → Option (Result SqlError RunResult × State)
  unfolding process_qdrant_outbox_until
  process_qdrant_outbox fuel locked config state =
      process_qdrant_outbox_until fuel (λ k. false) locked config state
