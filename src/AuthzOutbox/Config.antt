-- ===== src/AuthzOutbox/Config.antt =====
-- The settings and the command line of gmrag_api/src/auth/outbox.rs.
use hrm_grag.Outbox.{parse_env_i32, parse_env_i64, parse_env_u64}
use hrm_grag.Outbox.RunMode.{RunMode, apply_args}
use hrm_grag.Prelude.{
  Bool, List, Option, String, [], false, if◌then◌else◌, map, none, some, ◌==◌, ◌||◌, ◌∷◌,
}
use hrm_grag.Prelude.Int.{pos, ℤ}
use hrm_grag.Prelude.Text.{Text, codes, contains, text_eq, to_ascii_lowercase, trim}

pub data AuthzOutboxEventType : Type 0 where
  tuple_write tuple_delete workspace_role_sync : AuthzOutboxEventType

abbrev pub as_str : AuthzOutboxEventType → Text
as_str tuple_write = codes "tuple_write"
as_str tuple_delete = codes "tuple_delete"
as_str workspace_role_sync = codes "workspace_role_sync"

abbrev pub is_one_of : List String → Text → Bool
is_one_of [] name = false
is_one_of (s ∷ ss) name = text_eq name (codes s) || is_one_of ss name

abbrev pub contains_one_of : List String → Text → Bool
contains_one_of [] name = false
contains_one_of (s ∷ ss) name = contains (codes s) name || contains_one_of ss name

-- The names that are known, and for others the words in them.
unfoldable pub parse : Text → Option AuthzOutboxEventType
parse raw =
    let name = map (λ c. if c == b'-' then b'_' else c) (to_ascii_lowercase (trim raw)) in
    if is_one_of
      ("tuple_write" ∷ "write_tuple" ∷ "create_tuple" ∷ "grant_tuple" ∷ "document_workspace_write"
        ∷ "document_explicit_viewer_grant" ∷ "workspace_tenant_write" ∷ "workspace_member_write"
        ∷ "tenant_owner_write" ∷ "tenant_platform_write" ∷ [])
      name
    then some tuple_write
    else if is_one_of
        ("tuple_delete" ∷ "delete_tuple" ∷ "remove_tuple" ∷ "revoke_tuple"
          ∷ "document_workspace_delete" ∷ "document_explicit_viewer_revoke"
          ∷ "workspace_tenant_delete" ∷ "workspace_member_delete" ∷ "tenant_owner_delete"
          ∷ "tenant_platform_delete" ∷ [])
        name
    then some tuple_delete
    else if text_eq name (codes "workspace_role_sync")
    then some workspace_role_sync
    else if contains_one_of ("delete" ∷ "remove" ∷ "revoke" ∷ []) name
    then some tuple_delete
    else if contains_one_of ("write" ∷ "create" ∷ "grant" ∷ "backfill" ∷ []) name
    then some tuple_write
    else none

pub record AuthzOutboxProcessorConfig : Type 0 where
  pub batch_size : ℤ
  pub max_retries : ℤ

-- `AuthzOutboxProcessorConfig::default`
abbrev pub default_config : AuthzOutboxProcessorConfig
default_config = record { batch_size = pos 50; max_retries = pos 5 }

-- `AuthzOutboxProcessorConfig::from_env`
unfoldable pub config_from_env : (String → Option Text) → AuthzOutboxProcessorConfig
config_from_env env = record {
  batch_size = parse_env_i64 (env "AUTHZ_OUTBOX_BATCH_SIZE") (pos 50) (pos 1) (pos 500);
  max_retries = parse_env_i32 (env "AUTHZ_OUTBOX_MAX_RETRIES") (pos 5) (pos 1) (pos 100);
}

abbrev pub AuthzOutboxRunMode : Type 0
AuthzOutboxRunMode = RunMode

unfoldable pub from_args_and_env : (String → Option Text) → List Text → AuthzOutboxRunMode
from_args_and_env env args = apply_args args (record {
  loop_mode = false;
  interval_secs = parse_env_u64 (env "AUTHZ_OUTBOX_POLL_INTERVAL_SECS") 30 1 86400;
})
