-- ===== src/Qdrant/Rows.antt =====
-- The table `qdrant_outbox` of gmrag_api/src/retrieval/outbox.rs, and what is put into it. A row's
-- payload is a JSON value, of which only its decoding is used.
use hrm_grag.Outbox.Table
use hrm_grag.Db.{M, Update}
use hrm_grag.Outbox.Table.{claim_outbox_batch, enqueue_event, in_transaction}
use hrm_grag.Prelude.{Bool, List, Option, ℕ, ◌++◌}
use hrm_grag.Prelude.Text.{Text, codes, show_u64}
use hrm_grag.Qdrant.Config.{
  QdrantOutboxProcessorConfig, as_str, delete_by_document, delete_by_workspace,
  delete_by_workspaces,
}

-- What serde_json does with the payloads.
pub record Codec : Type 1 where
  pub Value : Type 0
  pub encode_document : ℕ → ℕ → Value
  pub encode_workspace : ℕ → Value
  pub encode_workspaces : List ℕ → Value
  pub decode_document : Value → Option (ℕ × ℕ)
  pub decode_workspace : Value → Option ℕ
  pub decode_workspaces : Value → Option (List ℕ)

-- `RetrievalError`, as far as its message goes into the row.
pub data RetrievalError : Type 0 where
  http empty_tenant_workspace_list database invalid_point_id invalid_embedding : RetrievalError
  timeout api : ℕ → RetrievalError

unfoldable pub sanitize_error_message : RetrievalError → Text
unfolding show_u64
sanitize_error_message http = codes "qdrant_http_error"
sanitize_error_message (timeout secs) = codes "qdrant_delete_timeout_" ++ show_u64 secs ++ codes "s"
sanitize_error_message (api status) = codes "qdrant_status_" ++ show_u64 status
sanitize_error_message empty_tenant_workspace_list = codes "empty_tenant_workspace_list"
sanitize_error_message database = codes "qdrant_database_error"
sanitize_error_message invalid_point_id = codes "invalid_point_id"
sanitize_error_message invalid_embedding = codes "invalid_embedding"

module _ (codec : Codec) where
  abbrev pub Row : Type 0
  Row = Table.Row codec.Value

  abbrev pub Outbox : Type 0
  Outbox = Table.Outbox codec.Value

  -- The three `enqueue_delete_by_..._tx`, and each in a transaction of its own.
  abbrev pub enqueue_document_tx : ℕ → ℕ → ℕ → Update Outbox ℕ
  enqueue_document_tx workspace_id document_id =
      enqueue_event codec.Value (as_str delete_by_document)
        (codec.encode_document workspace_id document_id)

  abbrev pub enqueue_workspace_tx : ℕ → ℕ → Update Outbox ℕ
  enqueue_workspace_tx workspace_id =
      enqueue_event codec.Value (as_str delete_by_workspace) (codec.encode_workspace workspace_id)

  abbrev pub enqueue_workspaces_tx : List ℕ → ℕ → Update Outbox ℕ
  enqueue_workspaces_tx workspace_ids =
      enqueue_event codec.Value (as_str delete_by_workspaces)
        (codec.encode_workspaces workspace_ids)

  unfoldable pub enqueue_delete_by_document : ℕ → ℕ → M Outbox ℕ
  enqueue_delete_by_document workspace_id document_id =
      in_transaction codec.Value (enqueue_document_tx workspace_id document_id)

  unfoldable pub enqueue_delete_by_workspace : ℕ → M Outbox ℕ
  enqueue_delete_by_workspace workspace_id =
      in_transaction codec.Value (enqueue_workspace_tx workspace_id)

  unfoldable pub enqueue_delete_by_workspaces : List ℕ → M Outbox ℕ
  enqueue_delete_by_workspaces workspace_ids =
      in_transaction codec.Value (enqueue_workspaces_tx workspace_ids)

  -- `claim_qdrant_outbox_batch`
  abbrev pub claim_qdrant_outbox_batch :
      (ℕ → Bool) → QdrantOutboxProcessorConfig → List ℕ → M Outbox (List Row)
  claim_qdrant_outbox_batch = claim_outbox_batch codec.Value
