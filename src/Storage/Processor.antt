-- ===== src/Storage/Processor.antt =====
-- The run of gmrag_api/src/storage/outbox.rs over the client of mod.rs.
use hrm_grag.Outbox.Run
use hrm_grag.Db.{Result, SqlError, err, ok}
use hrm_grag.Outbox.Run.{
  Attempt, RunResult, default_result, poison, process_row, process_until, refused,
}
use hrm_grag.Outbox.Table.{RowOutcome}
use hrm_grag.Prelude.{Bool, Option, [], false, none, some, true, ℕ, ◌++◌}
use hrm_grag.Prelude.Text.{Text, Uuid, codes}
use hrm_grag.Storage.Cleanup.{
  PrefixCleanupReport, StorageCleanupError, cleanup_prefix_in_bucket, show_cleanup_error,
  storage_error,
}
use hrm_grag.Storage.Client.{
  Call, S3, StorageError, delete_object_in_bucket, object_not_found, operation_failed,
}
use hrm_grag.Storage.Listing.{Paging}
use hrm_grag.Storage.Rows.{
  Codec, DeleteObjectPayload, DeletePrefixPayload, Row, sanitize_error_message, validate_bucket,
  validate_object_key, validate_prefix,
}
use hrm_grag.Storage.Settings.{
  StorageOutboxEventType, StorageOutboxProcessorConfig, delete_object, delete_prefix, parse,
}

module _ (s3 : S3) where
  -- A missing object has been deleted already.
  abbrev pub ignore_missing :
      Result StorageError Unit × s3.Objects → Result StorageError Unit × s3.Objects
  ignore_missing (ok u, o) = (ok u, o)
  ignore_missing (err (object_not_found key), o) = (ok tt, o)
  ignore_missing (err (operation_failed message), o) = (err (operation_failed message), o)

  unfoldable pub execute_delete_object : DeleteObjectPayload → Call s3 Unit
  unfolding delete_object_in_bucket
  execute_delete_object payload o =
      ignore_missing (delete_object_in_bucket s3 payload.bucket payload.object_key o)

module _ (s3 : S3) (paging : Paging s3) (show_sql : SqlError → Text) (uuid : Uuid) where
  abbrev pub storage_error_of :
      Result StorageCleanupError PrefixCleanupReport × s3.Objects
      → Result StorageError Unit × s3.Objects
  storage_error_of (ok report, o) = (ok tt, o)
  storage_error_of (err (storage_error e), o) = (err e, o)
  storage_error_of (err other, o) = (
    err (
        operation_failed
          (codes "storage prefix cleanup failed: " ++ show_cleanup_error show_sql uuid other)),
    o,
  )

  unfoldable pub execute_delete_prefix : DeletePrefixPayload → Call s3 Unit
  unfolding cleanup_prefix_in_bucket
  execute_delete_prefix payload o =
      storage_error_of (cleanup_prefix_in_bucket s3 paging payload.bucket payload.prefix true o)

module _ (codec : Codec) (s3 : S3) (paging : Paging s3) (show_sql : SqlError → Text)
    (uuid : Uuid) where
  abbrev pub attempted : Result StorageError Unit × s3.Objects → Attempt × s3.Objects
  attempted (ok u, o) = (Run.deleted, o)
  attempted (err e, o) = (refused (sanitize_error_message e), o)

  -- The first test that fails makes the row poison.
  abbrev pub valid_then :
      Option Text
      → Option Text
      → (s3.Objects → Attempt × s3.Objects)
      → s3.Objects
      → Attempt × s3.Objects
  valid_then (some reason) _ act o = (poison reason, o)
  valid_then none (some reason) act o = (poison reason, o)
  valid_then none none act o = act o

  abbrev pub try_object : Option DeleteObjectPayload → s3.Objects → Attempt × s3.Objects
  try_object none o = (poison (codes "invalid_payload"), o)
  try_object (some payload) o =
      valid_then (validate_bucket payload.bucket) (validate_object_key payload.object_key)
        (λ o'. attempted (execute_delete_object s3 payload o')) o

  abbrev pub try_prefix : Option DeletePrefixPayload → s3.Objects → Attempt × s3.Objects
  try_prefix none o = (poison (codes "invalid_payload"), o)
  try_prefix (some payload) o =
      valid_then (validate_bucket payload.bucket) (validate_prefix payload.prefix)
        (λ o'. attempted (execute_delete_prefix s3 paging show_sql uuid payload o')) o

  abbrev pub attempt :
      Option StorageOutboxEventType → codec.Value → s3.Objects → Attempt × s3.Objects
  attempt none payload o = (poison (codes "unsupported_event_type"), o)
  attempt (some delete_object) payload o = try_object (codec.decode_object payload) o
  attempt (some delete_prefix) payload o = try_prefix (codec.decode_prefix payload) o

  abbrev pub attempt_row : Row codec → s3.Objects → Attempt × s3.Objects
  attempt_row row o = attempt (parse row.event_type) row.payload o

  abbrev pub State : Type 0
  State = Run.State codec.Value s3.Objects attempt_row

  unfoldable pub process_single_row :
      StorageOutboxProcessorConfig → Row codec → State → Result SqlError RowOutcome × State
  unfolding parse sanitize_error_message process_row execute_delete_object execute_delete_prefix
      validate_bucket validate_object_key validate_prefix
  process_single_row = process_row codec.Value s3.Objects attempt_row

  unfoldable pub process_storage_outbox :
      ℕ
      → (ℕ → ℕ → Bool)
      → StorageOutboxProcessorConfig
      → State
      → Option (Result SqlError RunResult × State)
  unfolding process_until parse sanitize_error_message execute_delete_object execute_delete_prefix
      validate_bucket validate_object_key validate_prefix
  process_storage_outbox fuel locked config state =
      process_until codec.Value s3.Objects attempt_row fuel (λ k. false) locked config []
        default_result state
