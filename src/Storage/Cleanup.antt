-- ===== src/Storage/Cleanup.antt =====
-- gmrag_api/src/storage/cleanup.rs: objects below a prefix, and objects that no document names.
-- The bucket of the client's configuration is an argument.
use hrm_grag.Db.{M, Result, SqlError, World, autocommit, err, ok}
use hrm_grag.Prelude.{
  Bool, List, Option, [], any, count, false, if◌then◌else◌, length, none, not, select, some, true,
  update_where, ℕ, ◌&&◌, ◌++◌, ◌+◌, ◌==◌, ◌∷◌,
}
use hrm_grag.Prelude.Text.{Text, Uuid, codes, text_eq}
use hrm_grag.Storage.Client.{
  Call, S3, StorageError, delete_objects_in_bucket, object_not_found, operation_failed,
}
use hrm_grag.Storage.Listing.{Paging, list_objects_in_bucket}

pub data DocumentStatus : Type 0 where
  processing completed failed : DocumentStatus

pub record Document : Type 0 where
  pub id : ℕ
  pub workspace_id : ℕ
  pub object_key : Text
  pub status : DocumentStatus
  pub stage_done : Bool

pub record Workspace : Type 0 where
  pub id : ℕ
  pub tenant_id : ℕ

pub record Tables : Type 0 where
  pub documents : List Document
  pub workspaces : List Workspace

pub data StorageCleanupError : Type 0 where
  database_error : SqlError → StorageCleanupError
  storage_error : StorageError → StorageCleanupError
  workspace_tenant_not_found : ℕ → StorageCleanupError

-- `Display`, where `show_sql` prints a database error.
abbrev pub show_storage_error : StorageError → Text
show_storage_error (object_not_found object_key) = codes "Object not found: " ++ object_key
show_storage_error (operation_failed message) = message

abbrev pub show_cleanup_error : (SqlError → Text) → Uuid → StorageCleanupError → Text
show_cleanup_error show_sql uuid (database_error e) = codes "database error: " ++ show_sql e
show_cleanup_error show_sql uuid (storage_error e) = codes "storage error: " ++ show_storage_error e
show_cleanup_error show_sql uuid (workspace_tenant_not_found id) =
    codes "workspace tenant_id not found for workspace " ++ uuid.to_string id

pub record StorageCleanupReport : Type 0 where
  pub checked_documents : ℕ
  pub missing_document_objects : List Document
  pub marked_failed_documents : ℕ
  pub listed_objects : ℕ
  pub orphan_object_keys : List Text
  pub deleted_orphan_objects : ℕ

pub record PrefixCleanupReport : Type 0 where
  pub prefix : Text
  pub listed_objects : ℕ
  pub object_keys : List Text
  pub deleted_objects : ℕ

pub record StorageCleanupOptions : Type 0 where
  pub allow_delete : Bool
  pub delete_orphans : Bool
  pub mark_missing_documents_failed : Bool

abbrev pub default_options : StorageCleanupOptions
default_options = record {
  allow_delete = false;
  delete_orphans = false;
  mark_missing_documents_failed = false;
}

unfoldable pub build_workspace_prefix : Uuid → ℕ → ℕ → Text
build_workspace_prefix uuid tenant_id workspace_id =
    codes "tenants/"
    ++ (uuid.to_string tenant_id
        ++ (codes "/workspaces/" ++ (uuid.to_string workspace_id ++ codes "/")))

unfoldable pub build_tenant_prefix : Uuid → ℕ → Text
build_tenant_prefix uuid tenant_id = codes "tenants/" ++ uuid.to_string tenant_id ++ codes "/"

abbrev tenant_of : ℕ → List Workspace → Option ℕ
tenant_of workspace_id [] = none
tenant_of workspace_id (w ∷ ws) =
    let rest = tenant_of workspace_id ws in if w.id == workspace_id then some w.tenant_id else rest

abbrev found_prefix :
    Uuid
    → ℕ
    → Result SqlError (Option ℕ) × World Tables
    → Result StorageCleanupError Text × World Tables
found_prefix uuid workspace_id (err e, w) = (err (database_error e), w)
found_prefix uuid workspace_id (ok none, w) = (err (workspace_tenant_not_found workspace_id), w)
found_prefix uuid workspace_id (ok (some tenant_id), w) =
    (ok (build_workspace_prefix uuid tenant_id workspace_id), w)

unfoldable pub resolve_workspace_prefix :
    Uuid → ℕ → Option ℕ → World Tables → Result StorageCleanupError Text × World Tables
unfolding build_workspace_prefix
resolve_workspace_prefix uuid workspace_id (some tenant_id) w =
    (ok (build_workspace_prefix uuid tenant_id workspace_id), w)
resolve_workspace_prefix uuid workspace_id none w =
    found_prefix uuid workspace_id
      (autocommit (λ t s. some (tenant_of workspace_id s.workspaces, s)) w)

unfoldable pub find_orphan_object_keys : List Document → List Text → List Text
find_orphan_object_keys rows =
    select (λ key. not (any (λ (d : Document). text_eq key d.object_key) rows))

unfoldable pub build_delete_candidate_keys : List Text → Bool → List Text
build_delete_candidate_keys object_keys allow_delete = if allow_delete then object_keys else []

abbrev pub is_marked : Document → Document → Bool
is_marked missing d =
    d.id == missing.id
    && d.workspace_id == missing.workspace_id
    && elim d.status [ processing ↦ true | _ ↦ false ]

-- One UPDATE for each missing object, and the number of rows that they hit.
unfoldable pub mark_missing_documents_as_failed : List Document → ℕ → M Tables ℕ
mark_missing_documents_as_failed [] marked w = (ok marked, w)
mark_missing_documents_as_failed (missing ∷ later) marked w =
    let (r, w') =
      autocommit {A = ℕ}
        (λ t s. some (
          count (is_marked missing) s.documents,
          record s {
            documents =
                update_where (is_marked missing)
                  (λ d. record d { status = failed; stage_done = true }) s.documents;
          },
        ))
        w in
    elim r [ err e ↦ (err e, w') | ok n ↦ mark_missing_documents_as_failed later (marked + n) w' ]

module _ (s3 : S3) (paging : Paging s3) where
  -- `delete_objects_in_bucket`, where there is a key.
  abbrev pub delete_keys : Text → List Text → Call s3 ℕ
  delete_keys bucket [] o = (ok 0, o)
  delete_keys bucket (key ∷ keys) o = delete_objects_in_bucket s3 bucket (key ∷ keys) o

  abbrev pub prefix_report :
      Text
      → List Text
      → Result StorageError ℕ × s3.Objects
      → Result StorageCleanupError PrefixCleanupReport × s3.Objects
  prefix_report prefix keys (err e, o) = (err (storage_error e), o)
  prefix_report prefix keys (ok n, o) = (
    ok (record {
      prefix = prefix;
      listed_objects = length keys;
      object_keys = keys;
      deleted_objects = n;
    }),
    o,
  )

  abbrev pub delete_listed :
      Text
      → Text
      → Bool
      → Result StorageError (List Text) × s3.Objects
      → Result StorageCleanupError PrefixCleanupReport × s3.Objects
  delete_listed bucket prefix allow_delete (err e, o) = (err (storage_error e), o)
  delete_listed bucket prefix allow_delete (ok keys, o) =
      prefix_report prefix keys
        (delete_keys bucket (build_delete_candidate_keys keys allow_delete) o)

  unfoldable pub cleanup_prefix_in_bucket :
      Text → Text → Bool → s3.Objects → Result StorageCleanupError PrefixCleanupReport × s3.Objects
  unfolding build_delete_candidate_keys delete_objects_in_bucket list_objects_in_bucket
  cleanup_prefix_in_bucket bucket prefix allow_delete o =
      delete_listed bucket prefix allow_delete
        (list_objects_in_bucket s3 paging bucket (some prefix) o)
