-- ===== src/Storage/Orphans.antt =====
-- `scan_documents_and_orphans` of gmrag_api/src/storage/cleanup.rs: documents without an object, and
-- objects without a document.
use hrm_grag.Db.{M, Result, SqlError, World, autocommit, err, ok}
use hrm_grag.Prelude.{Bool, List, [], false, if◌then◌else◌, length, none, some, true, ℕ, ◌&&◌, ◌∷◌}
use hrm_grag.Prelude.Text.{Text}
use hrm_grag.Storage.Cleanup.{
  Document, StorageCleanupError, StorageCleanupOptions, StorageCleanupReport, Tables,
  build_delete_candidate_keys, database_error, delete_keys, find_orphan_object_keys,
  mark_missing_documents_as_failed, storage_error,
}
use hrm_grag.Storage.Client.{Call, S3, StorageError, delete_objects_in_bucket, object_exists}
use hrm_grag.Storage.Listing.{Paging, list_objects_in_bucket}

-- A point of the scan at which others may have acted since its last request.
pub data Point : Type 0 where
  before_lookups before_marks before_listing before_deletion : Point

module _ (s3 : S3) (paging : Paging s3) where
  -- The loop over the documents: those whose object is missing.
  unfoldable pub missing_objects : Text → List Document → Call s3 (List Document)
  unfolding object_exists
  missing_objects bucket [] o = (ok [], o)
  missing_objects bucket (d ∷ ds) o =
      let (r, o') = object_exists s3 bucket d.object_key o in
      elim r [
        | err e ↦ (err e, o')
        | ok exists ↦
            let (q, o'') = missing_objects bucket ds o' in
            elim q [
              | err e ↦ (err e, o'')
              | ok missing ↦ (ok (if exists then missing else d ∷ missing), o'')
            ]
      ]

  abbrev pub State : Type 0
  State = World Tables × s3.Objects

  abbrev pub scan_report :
      List Document
      → List Document
      → ℕ
      → List Text
      → World Tables
      → Result StorageError ℕ × s3.Objects
      → Result StorageCleanupError StorageCleanupReport × State
  scan_report rows missing marked keys w (err e, o) = (err (storage_error e), (w, o))
  scan_report rows missing marked keys w (ok n, o) = (
    ok (record {
      checked_documents = length rows;
      missing_document_objects = missing;
      marked_failed_documents = marked;
      listed_objects = length keys;
      orphan_object_keys = find_orphan_object_keys rows keys;
      deleted_orphan_objects = n;
    }),
    (w, o),
  )

  module _ (others : Point → State → State) where
    -- After the listing.
    abbrev pub delete_orphans :
        Text
        → StorageCleanupOptions
        → List Document
        → List Document
        → ℕ
        → World Tables
        → Result StorageError (List Text) × s3.Objects
        → Result StorageCleanupError StorageCleanupReport × State
    delete_orphans bucket options rows missing marked w (err e, o) = (err (storage_error e), (w, o))
    delete_orphans bucket options rows missing marked w (ok keys, o) =
        let (w', o') = others before_deletion (w, o) in
        scan_report rows missing marked keys w' (
          delete_keys s3 paging bucket
            (build_delete_candidate_keys (find_orphan_object_keys rows keys)
              (options.allow_delete && options.delete_orphans))
            o')

    -- After the documents have been marked.
    abbrev pub list_orphans :
        Text
        → StorageCleanupOptions
        → List Document
        → List Document
        → s3.Objects
        → Result SqlError ℕ × World Tables
        → Result StorageCleanupError StorageCleanupReport × State
    list_orphans bucket options rows missing o (err e, w) = (err (database_error e), (w, o))
    list_orphans bucket options rows missing o (ok marked, w) =
        let (w', o') = others before_listing (w, o) in
        delete_orphans bucket options rows missing marked w'
          (list_objects_in_bucket s3 paging bucket none o')

    abbrev pub mark_missing : Bool → List Document → M Tables ℕ
    mark_missing true missing = mark_missing_documents_as_failed missing 0
    mark_missing false missing = λ w. (ok 0, w)

    -- After the objects of all documents have been looked up.
    abbrev pub after_lookup :
        Text
        → StorageCleanupOptions
        → List Document
        → World Tables
        → Result StorageError (List Document) × s3.Objects
        → Result StorageCleanupError StorageCleanupReport × State
    after_lookup bucket options rows w (err e, o) = (err (storage_error e), (w, o))
    after_lookup bucket options rows w (ok missing, o) =
        let (w', o') = others before_marks (w, o) in
        list_orphans bucket options rows missing o'
          (mark_missing options.mark_missing_documents_failed missing w')

    abbrev pub after_select :
        Text
        → StorageCleanupOptions
        → s3.Objects
        → Result SqlError (List Document) × World Tables
        → Result StorageCleanupError StorageCleanupReport × State
    after_select bucket options o (err e, w) = (err (database_error e), (w, o))
    after_select bucket options o (ok rows, w) =
        let (w', o') = others before_lookups (w, o) in
        after_lookup bucket options rows w' (missing_objects bucket rows o')

    -- What others do meanwhile is a parameter.
    unfoldable pub scan_documents_and_orphans :
        Text
        → StorageCleanupOptions
        → State
        → Result StorageCleanupError StorageCleanupReport × State
    unfolding missing_objects mark_missing_documents_as_failed list_objects_in_bucket
        find_orphan_object_keys build_delete_candidate_keys delete_objects_in_bucket
    scan_documents_and_orphans bucket options (w, o) =
        after_select bucket options o (autocommit (λ t s. some (s.documents, s)) w)
