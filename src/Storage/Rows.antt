-- ===== src/Storage/Rows.antt =====
-- The table `storage_outbox` of gmrag_api/src/storage/outbox.rs: its payloads, what is put into it,
-- and the tests that a payload has to pass. JSON decoding is a parameter.
use hrm_grag.Outbox.Table
use hrm_grag.Db.{M, Update}
use hrm_grag.Outbox.Table.{
  RowOutcome, claim_outbox_batch, count_dead_rows, enqueue_event, in_transaction,
  mark_outbox_row_failure, mark_outbox_row_processed,
}
use hrm_grag.Prelude.{Bool, List, Option, if◌then◌else◌, is_empty, none, not, some, ℕ, ◌||◌}
use hrm_grag.Prelude.Int.{ℤ}
use hrm_grag.Prelude.Text.{Text, codes, contains, starts_with, trim}
use hrm_grag.Storage.Client.{StorageError, object_not_found, operation_failed}
use hrm_grag.Storage.Settings.{StorageOutboxProcessorConfig, as_str, delete_object, delete_prefix}

pub record DeleteObjectPayload : Type 0 where
  pub object_key : Text
  pub bucket : Text
  pub workspace_id : ℕ
  pub document_id : ℕ

pub record DeletePrefixPayload : Type 0 where
  pub prefix : Text
  pub bucket : Text
  pub tenant_id : Option ℕ
  pub workspace_id : Option ℕ

-- What serde_json does with the payloads.
pub record Codec : Type 1 where
  pub Value : Type 0
  pub encode_object : DeleteObjectPayload → Value
  pub encode_prefix : DeletePrefixPayload → Value
  pub decode_object : Value → Option DeleteObjectPayload
  pub decode_prefix : Value → Option DeletePrefixPayload

-- `none` is `Ok(())`, a text the reason of the `Err`.
unfoldable pub validate_bucket : Text → Option Text
validate_bucket bucket = if is_empty (trim bucket) then some (codes "empty_bucket") else none

-- A leading slash, a step upwards or a backslash.
unfoldable pub is_escaping : Text → Bool
is_escaping key =
    starts_with (codes "/") key || contains (codes "..") key || contains (codes "\\") key

unfoldable pub validate_object_key : Text → Option Text
validate_object_key object_key =
    let key = trim object_key in
    if is_empty key
    then some (codes "empty_object_key")
    else if is_escaping key
    then some (codes "invalid_object_key")
    else none

unfoldable pub validate_prefix : Text → Option Text
validate_prefix raw =
    let prefix = trim raw in
    if is_empty prefix
    then some (codes "empty_prefix")
    else if is_escaping prefix
    then some (codes "invalid_prefix")
    else if not (starts_with (codes "tenants/") prefix)
    then some (codes "prefix_not_tenant_scoped")
    else none

unfoldable pub sanitize_error_message : StorageError → Text
sanitize_error_message (object_not_found key) = codes "object_not_found"
sanitize_error_message (operation_failed message) =
    if contains (codes "timeout") message || contains (codes "Timeout") message
    then codes "storage_timeout"
    else if contains (codes "connect") message || contains (codes "Connection") message
    then codes "storage_connection_error"
    else codes "storage_operation_failed"

module _ (codec : Codec) where
  abbrev pub Row : Type 0
  Row = Table.Row codec.Value

  abbrev pub Outbox : Type 0
  Outbox = Table.Outbox codec.Value

  -- The two `enqueue_delete_..._tx`, and each in a transaction of its own.
  abbrev pub enqueue_delete_object_tx : DeleteObjectPayload → ℕ → Update Outbox ℕ
  enqueue_delete_object_tx payload =
      enqueue_event codec.Value (as_str delete_object) (codec.encode_object payload)

  abbrev pub enqueue_delete_prefix_tx : DeletePrefixPayload → ℕ → Update Outbox ℕ
  enqueue_delete_prefix_tx payload =
      enqueue_event codec.Value (as_str delete_prefix) (codec.encode_prefix payload)

  unfoldable pub enqueue_delete_object : DeleteObjectPayload → M Outbox ℕ
  enqueue_delete_object payload = in_transaction codec.Value (enqueue_delete_object_tx payload)

  unfoldable pub enqueue_delete_prefix : DeletePrefixPayload → M Outbox ℕ
  enqueue_delete_prefix payload = in_transaction codec.Value (enqueue_delete_prefix_tx payload)

  -- `claim_storage_outbox_batch`
  abbrev pub claim_storage_outbox_batch :
      (ℕ → Bool) → StorageOutboxProcessorConfig → List ℕ → M Outbox (List Row)
  claim_storage_outbox_batch = claim_outbox_batch codec.Value

  abbrev pub mark_storage_row_processed : ℕ → M Outbox Unit
  mark_storage_row_processed = mark_outbox_row_processed codec.Value

  abbrev pub mark_storage_row_failure :
      ℕ → ℤ → Text → Bool → StorageOutboxProcessorConfig → M Outbox RowOutcome
  mark_storage_row_failure = mark_outbox_row_failure codec.Value

  abbrev pub count_dead_storage_rows : M Outbox ℕ
  count_dead_storage_rows = count_dead_rows codec.Value
