-- ===== src/Qdrant/Config.antt =====
-- The event types, the settings and the command line of gmrag_api/src/retrieval/outbox.rs.
use hrm_grag.Outbox.{parse_env_i32, parse_env_i64, parse_env_u64}
use hrm_grag.Outbox.RunMode.{RunMode, apply_args}
use hrm_grag.Outbox.Table.{ProcessorConfig}
use hrm_grag.Prelude.{List, Option, String, false, if◌then◌else◌, none, some}
use hrm_grag.Prelude.Int.{pos}
use hrm_grag.Prelude.Text.{Text, codes, text_eq, to_ascii_lowercase, trim}

pub data QdrantOutboxEventType : Type 0 where
  delete_by_document delete_by_workspace delete_by_workspaces : QdrantOutboxEventType

abbrev pub as_str : QdrantOutboxEventType → Text
as_str delete_by_document = codes "delete_by_document"
as_str delete_by_workspace = codes "delete_by_workspace"
as_str delete_by_workspaces = codes "delete_by_workspaces"

unfoldable pub parse : Text → Option QdrantOutboxEventType
parse raw =
    let name = to_ascii_lowercase (trim raw) in
    if text_eq name (codes "delete_by_document")
    then some delete_by_document
    else if text_eq name (codes "delete_by_workspace")
    then some delete_by_workspace
    else if text_eq name (codes "delete_by_workspaces")
    then some delete_by_workspaces
    else none

abbrev pub QdrantOutboxProcessorConfig : Type 0
QdrantOutboxProcessorConfig = ProcessorConfig

-- `QdrantOutboxProcessorConfig::default`
abbrev pub default_config : QdrantOutboxProcessorConfig
default_config = record {
  batch_size = pos 50;
  max_retries = pos 5;
  backoff = record {
    base_backoff_secs = pos 2;
    max_backoff_secs = pos 300;
    claim_lease_secs = pos 120;
  };
}

-- `QdrantOutboxProcessorConfig::from_env`
unfoldable pub config_from_env : (String → Option Text) → QdrantOutboxProcessorConfig
config_from_env env = record {
  batch_size = parse_env_i64 (env "QDRANT_OUTBOX_BATCH_SIZE") (pos 50) (pos 1) (pos 500);
  max_retries = parse_env_i32 (env "QDRANT_OUTBOX_MAX_RETRIES") (pos 5) (pos 1) (pos 100);
  backoff = record {
    base_backoff_secs =
        parse_env_i64 (env "QDRANT_OUTBOX_BASE_BACKOFF_SECS") (pos 2) (pos 0) (pos 3600);
    max_backoff_secs =
        parse_env_i64 (env "QDRANT_OUTBOX_MAX_BACKOFF_SECS") (pos 300) (pos 0) (pos 86400);
    claim_lease_secs =
        parse_env_i64 (env "QDRANT_OUTBOX_CLAIM_LEASE_SECS") (pos 120) (pos 10) (pos 3600);
  };
}

abbrev pub QdrantOutboxRunMode : Type 0
QdrantOutboxRunMode = RunMode

unfoldable pub from_args_and_env : (String → Option Text) → List Text → QdrantOutboxRunMode
unfolding apply_args
from_args_and_env env args = apply_args args (record {
  loop_mode = false;
  interval_secs = parse_env_u64 (env "QDRANT_OUTBOX_POLL_INTERVAL_SECS") 30 1 86400;
})
