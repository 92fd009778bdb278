-- ===== src/Storage/Safety.antt =====
-- What the storage outbox deletes: nothing but what a valid row asks for.
use hrm_grag.Db.{Result, SqlError, World, err, ok}
use hrm_grag.Outbox.Run.{Attempt, process_row}
use hrm_grag.Prelude.{
  Bool, List, Option, [], any, arith, false, is_empty, none, refl, some, true, ℕ, ◌∙◌, ◌∷◌, ◌≡◌,
}
use hrm_grag.Prelude.Text.{Text, Uuid, codes, starts_with, text_eq, trim}
use hrm_grag.Storage.Cleanup.{
  PrefixCleanupReport, StorageCleanupError, build_delete_candidate_keys, cleanup_prefix_in_bucket,
  database_error, delete_keys, delete_listed, prefix_report, storage_error,
  workspace_tenant_not_found,
}
use hrm_grag.Storage.Client.{
  S3, StorageError, delete_object_in_bucket, object_not_found, operation_failed,
}
use hrm_grag.Storage.Deletion.{IsListing, Laws, any-All, batch_only, list-IsListing, single_only}
use hrm_grag.Storage.Listing.{Paging, list_objects_in_bucket}
use hrm_grag.Storage.Processor.{
  attempt, attempted, execute_delete_object, execute_delete_prefix, ignore_missing,
  process_single_row, storage_error_of, try_object, try_prefix, valid_then,
}
use hrm_grag.Storage.Rows.{
  Codec, DeleteObjectPayload, DeletePrefixPayload, Outbox, Row, is_escaping, validate_bucket,
  validate_object_key, validate_prefix,
}
use hrm_grag.Storage.Settings.{
  StorageOutboxEventType, StorageOutboxProcessorConfig, delete_object, delete_prefix, parse,
}

-- A prefix that is accepted lies, but for space around it, below `tenants/`.
abbrev pub IsTenantPrefix : Text → Type 0
IsTenantPrefix prefix =
    (starts_with (codes "tenants/") (trim prefix) ≡ true) × (is_escaping (trim prefix) ≡ false)

abbrev pub IsPlainKey : Text → Type 0
IsPlainKey key = (is_empty (trim key) ≡ false) × (is_escaping (trim key) ≡ false)

validate_prefix-IsTenantPrefix : (p : Text) → validate_prefix p ≡ none → IsTenantPrefix p
unfolding validate_prefix
validate_prefix-IsTenantPrefix p h = ground (arith, h)

validate_object_key-IsPlainKey : (p : Text) → validate_object_key p ≡ none → IsPlainKey p
unfolding validate_object_key
validate_object_key-IsPlainKey p h = ground (arith, h)

module _ (codec : Codec) where
  -- What a row asks to be deleted from a bucket: its key, or what lies below its prefix.
  abbrev pub Asks : Option StorageOutboxEventType → codec.Value → Text → Text → Type 0
  Asks none v b k = ⊥
  Asks (some delete_object) v b k =
      (p : DeleteObjectPayload) × (codec.decode_object v ≡ some p)
      × (b ≡ p.bucket)
      × (k ≡ p.object_key)
      × IsPlainKey p.object_key
  Asks (some delete_prefix) v b k =
      (p : DeletePrefixPayload) × (codec.decode_prefix v ≡ some p)
      × (b ≡ p.bucket)
      × (starts_with p.prefix k ≡ true)
      × IsTenantPrefix p.prefix

module _ (s3 : S3) (laws : Laws s3) (paging : Paging s3) (b k : Text) where
  prefix_report_state :
      (prefix : Text) (keys : List Text) (r : Result StorageError ℕ × s3.Objects)
      → (prefix_report s3 paging prefix keys r).1 ≡ r.1
  prefix_report_state prefix keys (err e, o) = refl
  prefix_report_state prefix keys (ok n, o) = refl

  -- What a batch deletion of candidate keys removes.
  pub keys_only :
      (bucket : Text) (keys : List Text) (allow : Bool) (o : s3.Objects)
      → laws.has b k o ≡ true
      → laws.has b k (delete_keys s3 paging bucket (build_delete_candidate_keys keys allow) o).1
        ≡ false
      → (b ≡ bucket) × (any (text_eq k) keys ≡ true) × (allow ≡ true)
  unfolding build_delete_candidate_keys
  keys_only bucket keys false o h gone = cc
  keys_only bucket [] true o h gone = cc
  keys_only bucket (key ∷ keys) true o h gone =
      let only = batch_only s3 laws b k bucket (key ∷ keys) o h gone in (only.0, only.1, refl)

  listed_only :
      (bucket prefix : Text) (o : s3.Objects) (r : Result StorageError (List Text) × s3.Objects)
      → IsListing s3 laws b k (λ key. starts_with prefix key ≡ true) o (some r)
      → laws.has b k o ≡ true
      → laws.has b k (delete_listed s3 paging bucket prefix true r).1 ≡ false
      → (b ≡ bucket) × (starts_with prefix k ≡ true)
  listed_only bucket prefix o (err e, o') l h gone = cc
  listed_only bucket prefix o (ok keys, o') l h gone =
      let only = keys_only bucket keys true o' (l.0 ∙ h) (
        rw
          (prefix_report_state prefix keys
            (delete_keys s3 paging bucket (build_delete_candidate_keys keys true) o'))
          at gone) in
      (only.0, any-All (λ key. starts_with prefix key ≡ true) k keys l.1 only.1)

  pub cleanup_only :
      (bucket prefix : Text) (o : s3.Objects)
      → laws.has b k o ≡ true
      → laws.has b k (cleanup_prefix_in_bucket s3 paging bucket prefix true o).1 ≡ false
      → (b ≡ bucket) × (starts_with prefix k ≡ true)
  unfolding cleanup_prefix_in_bucket
  cleanup_only bucket prefix o h gone =
      listed_only bucket prefix o (list_objects_in_bucket s3 paging bucket (some prefix) o)
        (list-IsListing s3 laws b k (λ key. starts_with prefix key ≡ true) bucket (some prefix)
          (laws.list_below bucket prefix) paging o)
        h gone

  ignore_missing_state : (r : Result StorageError Unit × s3.Objects) → (ignore_missing s3 r).1 ≡ r.1
  ignore_missing_state (ok u, o) = refl
  ignore_missing_state (err (object_not_found key), o) = refl
  ignore_missing_state (err (operation_failed message), o) = refl

  object_only :
      (p : DeleteObjectPayload) (o : s3.Objects)
      → laws.has b k o ≡ true
      → laws.has b k (execute_delete_object s3 p o).1 ≡ false
      → (b ≡ p.bucket) × (k ≡ p.object_key)
  unfolding execute_delete_object
  object_only p o h gone =
      single_only s3 laws b k p.bucket p.object_key o h
        (rw (ignore_missing_state (delete_object_in_bucket s3 p.bucket p.object_key o)) at gone)

module _ (codec : Codec) (s3 : S3) (laws : Laws s3) (paging : Paging s3)
    (show_sql : SqlError → Text) (uuid : Uuid) (b k : Text) where
  storage_error_of_state :
      (r : Result StorageCleanupError PrefixCleanupReport × s3.Objects)
      → (storage_error_of s3 paging show_sql uuid r).1 ≡ r.1
  storage_error_of_state (ok report, o) = refl
  storage_error_of_state (err (storage_error e), o) = refl
  storage_error_of_state (err (database_error e), o) = refl
  storage_error_of_state (err (workspace_tenant_not_found id), o) = refl

  attempted_state :
      (r : Result StorageError Unit × s3.Objects)
      → (attempted codec s3 paging show_sql uuid r).1 ≡ r.1
  attempted_state (ok u, o) = refl
  attempted_state (err e, o) = refl

  -- A row whose payload fails a test changes nothing.
  valid_then_only :
      (P : Type 0) (v w : Option Text) (act : s3.Objects → Attempt × s3.Objects) (o : s3.Objects)
      → laws.has b k o ≡ true
      → laws.has b k (valid_then codec s3 paging show_sql uuid v w act o).1 ≡ false
      → (w ≡ none → laws.has b k (act o).1 ≡ false → P)
      → P
  valid_then_only P (some reason) w act o h gone allowed = cc
  valid_then_only P none (some reason) act o h gone allowed = cc
  valid_then_only P none none act o h gone allowed = allowed refl gone

  try_object_only :
      (v : codec.Value) (x : Option DeleteObjectPayload) (o : s3.Objects)
      → codec.decode_object v ≡ x
      → laws.has b k o ≡ true
      → laws.has b k (try_object codec s3 paging show_sql uuid x o).1 ≡ false
      → Asks codec (some delete_object) v b k
  try_object_only v none o q h gone = cc
  try_object_only v (some p) o q h gone =
      valid_then_only (Asks codec (some delete_object) v b k) (validate_bucket p.bucket)
        (validate_object_key p.object_key)
        (λ o'. attempted codec s3 paging show_sql uuid (execute_delete_object s3 p o')) o h gone
        (λ valid lost.
          let only =
            object_only s3 laws paging b k p o h
              (rw (attempted_state (execute_delete_object s3 p o)) at lost) in
          (p, q, only.0, only.1, validate_object_key-IsPlainKey p.object_key valid))

  try_prefix_only :
      (v : codec.Value) (x : Option DeletePrefixPayload) (o : s3.Objects)
      → codec.decode_prefix v ≡ x
      → laws.has b k o ≡ true
      → laws.has b k (try_prefix codec s3 paging show_sql uuid x o).1 ≡ false
      → Asks codec (some delete_prefix) v b k
  unfolding execute_delete_prefix
  try_prefix_only v none o q h gone = cc
  try_prefix_only v (some p) o q h gone =
      valid_then_only (Asks codec (some delete_prefix) v b k) (validate_bucket p.bucket)
        (validate_prefix p.prefix)
        (λ o'.
          attempted codec s3 paging show_sql uuid
            (execute_delete_prefix s3 paging show_sql uuid p o'))
        o h gone
        (λ valid lost.
          let only = cleanup_only s3 laws paging b k p.bucket p.prefix o h (
            rw
              (storage_error_of_state (cleanup_prefix_in_bucket s3 paging p.bucket p.prefix true o))
              at
              (rw (attempted_state (execute_delete_prefix s3 paging show_sql uuid p o)) at lost)) in
          (p, q, only.0, only.1, validate_prefix-IsTenantPrefix p.prefix valid))

  attempt_only :
      (e : Option StorageOutboxEventType) (v : codec.Value) (o : s3.Objects)
      → laws.has b k o ≡ true
      → laws.has b k (attempt codec s3 paging show_sql uuid e v o).1 ≡ false
      → Asks codec e v b k
  attempt_only none v o h gone = cc
  attempt_only (some delete_object) v o h gone =
      try_object_only v (codec.decode_object v) o refl h gone
  attempt_only (some delete_prefix) v o h gone =
      try_prefix_only v (codec.decode_prefix v) o refl h gone

  -- An object that a row's processing removes is one that the row asks for: the row's event type is
  -- known and its payload can be read, the bucket is the payload's, and the key is the payload's,
  -- not empty and without a step upwards, or lies below the payload's prefix, which but for space
  -- around it lies below `tenants/`. S3 is assumed to remove only what a request names.
  pub processed-Asks :
      (config : StorageOutboxProcessorConfig) (row : Row codec) (w : World (Outbox codec))
      (o : s3.Objects)
      → laws.has b k o ≡ true
      → laws.has b k (process_single_row codec s3 paging show_sql uuid config row (w, o)).1.1
        ≡ false
      → Asks codec (parse row.event_type) row.payload b k
  unfolding process_single_row process_row
  processed-Asks config row w o h gone = attempt_only (parse row.event_type) row.payload o h gone
