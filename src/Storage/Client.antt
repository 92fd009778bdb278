-- ===== src/Storage/Client.antt =====
-- The client of gmrag_api/src/storage/mod.rs over the S3 SDK, which is a parameter: what its
-- requests do to the stored objects, and what they answer.
use hrm_grag.Db.{Result, err, ok}
use hrm_grag.Outbox.{unwrap_or}
use hrm_grag.Prelude.{
  Bool, List, Option, [], false, holds, if◌then◌else◌, none, some, suc, true, zero, ℕ, ◌++◌, ◌+◌,
  ◌||◌, ◌∷◌,
}
use hrm_grag.Prelude.Text.{Text, Uuid, codes, text_eq}

-- A page of a listing, as far as it is read: an object may come without a key.
pub record Page : Type 0 where
  pub contents : List (Option Text)
  pub is_truncated : Option Bool
  pub next_continuation_token : Option Text

pub record DeleteError : Type 0 where
  pub code : Option Text
  pub message : Option Text

pub record DeleteResponse : Type 0 where
  pub errors : List DeleteError
  pub deleted : ℕ

-- `aws_sdk_s3`: each request names the bucket. `service_code` is the code of a service error.
pub record S3 : Type 1 where
  pub Objects : Type 0
  pub SdkError : Type 0
  pub service_code : SdkError → Option Text
  pub show_error : SdkError → Text
  pub head_bucket : Text → Objects → Result SdkError Unit × Objects
  pub put_object :
      Text → Text → List ℕ → Option Text → Objects → Result SdkError (Option Text) × Objects
  pub get_object : Text → Text → Objects → Result SdkError (Result Text (List ℕ)) × Objects
  pub delete_object : Text → Text → Objects → Result SdkError Unit × Objects
  pub head_object : Text → Text → Objects → Result SdkError Unit × Objects
  pub list_objects_v2 : Text → Option Text → Option Text → Objects → Result SdkError Page × Objects
  pub delete_objects : Text → List Text → Objects → Result SdkError DeleteResponse × Objects

pub data StorageError : Type 0 where
  object_not_found operation_failed : Text → StorageError

-- `matches!(code, "NoSuchKey" | "NotFound" | "404")`
unfoldable pub is_missing_code : Text → Bool
unfolding text_eq
is_missing_code code =
    text_eq code (codes "NoSuchKey")
    || text_eq code (codes "NotFound")
    || text_eq code (codes "404")

-- `chunks(size + 1)`: what still fits into the chunk before, and the later chunks.
abbrev pub pieces : ℕ → ℕ → List Text → List Text × List (List Text)
pieces size room [] = ([], [])
pieces size zero (x ∷ xs) = let (h, t) = pieces size size xs in ([], (x ∷ h) ∷ t)
pieces size (suc room) (x ∷ xs) = let (h, t) = pieces size room xs in (x ∷ h, t)

-- `object_keys.chunks(1000)`
unfoldable pub chunks_1000 : List Text → List (List Text)
chunks_1000 keys = (pieces 999 0 keys).1

abbrev pub keys_of : List (Option Text) → List Text
keys_of [] = []
keys_of (none ∷ objects) = keys_of objects
keys_of (some key ∷ objects) = key ∷ keys_of objects

unfoldable pub build_original_document_object_key : Uuid → ℕ → ℕ → ℕ → Text
build_original_document_object_key uuid tenant_id workspace_id document_id =
    codes "tenants/"
    ++ (uuid.to_string tenant_id
        ++ (codes "/workspaces/"
            ++ (uuid.to_string workspace_id
                ++ (codes "/documents/" ++ (uuid.to_string document_id ++ codes "/original.pdf")))))

module _ (s3 : S3) where
  abbrev pub Call : Type 0 → Type 0
  Call A = s3.Objects → Result StorageError A × s3.Objects

  unfoldable pub is_not_found_error : s3.SdkError → Bool
  unfolding is_missing_code
  is_not_found_error e = holds is_missing_code (s3.service_code e)

  unfoldable pub map_s3_error : s3.SdkError → Text → Text → StorageError
  unfolding is_not_found_error
  map_s3_error e object_key operation =
      if is_not_found_error e
      then object_not_found object_key
      else operation_failed (
          codes "S3 "
          ++ operation
          ++ codes " failed for object_key="
          ++ object_key
          ++ codes ": "
          ++ s3.show_error e)

  -- The answer of a request, with its error mapped.
  abbrev pub map_err :
      {A : Type 0}
      → (s3.SdkError → StorageError)
      → Result s3.SdkError A × s3.Objects
      → Result StorageError A × s3.Objects
  map_err f (ok a, o) = (ok a, o)
  map_err f (err e, o) = (err (f e), o)

  unfoldable pub readiness_probe : Text → Call Unit
  readiness_probe bucket o =
      map_err
        (λ e.
          operation_failed
            (codes "S3 head_bucket failed for bucket=" ++ bucket ++ codes ": " ++ s3.show_error e))
        (s3.head_bucket bucket o)

  unfoldable pub put_original_document : Text → Text → List ℕ → Option Text → Call (Option Text)
  put_original_document bucket object_key bytes content_type o =
      map_err
        (λ e. operation_failed (
          codes "S3 put_object failed for bucket="
          ++ bucket
          ++ codes " object_key="
          ++ object_key
          ++ codes ": "
          ++ s3.show_error e))
        (s3.put_object bucket object_key bytes content_type o)

  -- The body is read after the response has come, and that can fail too.
  abbrev body_of :
      Text
      → Text
      → Result StorageError (Result Text (List ℕ)) × s3.Objects
      → Result StorageError (List ℕ) × s3.Objects
  body_of bucket object_key (err e, o) = (err e, o)
  body_of bucket object_key (ok (ok bytes), o) = (ok bytes, o)
  body_of bucket object_key (ok (err message), o) = (
    err (
        operation_failed (
          codes "S3 get_object body read failed for bucket="
          ++ bucket
          ++ codes " object_key="
          ++ object_key
          ++ codes ": "
          ++ message)),
    o,
  )

  unfoldable pub get_original_document : Text → Text → Call (List ℕ)
  unfolding map_s3_error
  get_original_document bucket object_key o = body_of bucket object_key (
      map_err (λ e. map_s3_error e object_key (codes "get_object"))
        (s3.get_object bucket object_key o))

  unfoldable pub delete_object_in_bucket : Text → Text → Call Unit
  unfolding map_s3_error
  delete_object_in_bucket bucket object_key o =
      map_err (λ e. map_s3_error e object_key (codes "delete_object"))
        (s3.delete_object bucket object_key o)

  abbrev pub exists_of :
      Text → Text → Result s3.SdkError Unit × s3.Objects → Result StorageError Bool × s3.Objects
  exists_of bucket object_key (ok u, o) = (ok true, o)
  exists_of bucket object_key (err e, o) = if is_not_found_error e then (ok false, o) else (
    err (
        operation_failed (
          codes "S3 head_object failed for bucket="
          ++ bucket
          ++ codes " object_key="
          ++ object_key
          ++ codes ": "
          ++ s3.show_error e)),
    o,
  )

  unfoldable pub object_exists : Text → Text → Call Bool
  unfolding is_not_found_error
  object_exists bucket object_key o =
      exists_of bucket object_key (s3.head_object bucket object_key o)

  list_failure : Text → Option Text → s3.SdkError → StorageError
  list_failure bucket prefix e = operation_failed (
      codes "S3 list_objects_v2 failed for bucket="
      ++ bucket
      ++ codes " prefix="
      ++ unwrap_or [] prefix
      ++ codes ": "
      ++ s3.show_error e)

  -- The loop of `list_objects_in_bucket` over the pages, on fuel: `none` if it runs out. Of an
  -- object only its key is kept, since nothing reads its size.
  unfoldable pub list_pages :
      ℕ
      → Text
      → Option Text
      → Option Text
      → List Text
      → s3.Objects
      → Option (Result StorageError (List Text) × s3.Objects)
  unfolding list_failure
  list_pages zero bucket prefix token keys o = none
  list_pages (suc fuel) bucket prefix token keys o =
      let (r, o') = s3.list_objects_v2 bucket prefix token o in
      elim r [
        | err e ↦ some (err (list_failure bucket prefix e), o')
        | ok page ↦
            let keys' = keys ++ keys_of page.contents in
            elim (unwrap_or false page.is_truncated) [
              | false ↦ some (ok keys', o')
              | true ↦ elim page.next_continuation_token [
                | none ↦ some (ok keys', o')
                | some next ↦ list_pages fuel bucket prefix (some next) keys' o'
              ]
            ]
      ]

  abbrev pub is_ignored : DeleteError → Bool
  is_ignored e = holds is_missing_code e.code

  -- The first error of a response that is not about a missing object.
  abbrev pub first_error : List DeleteError → Option DeleteError
  first_error [] = none
  first_error (e ∷ errors) = let rest = first_error errors in if is_ignored e then rest else some e

  abbrev response_failure : DeleteError → StorageError
  response_failure e = operation_failed (
      codes "S3 delete_objects returned error code="
      ++ unwrap_or (codes "unknown") e.code
      ++ codes " message="
      ++ unwrap_or (codes "unknown") e.message)

  -- The loop over the chunks; an `ObjectIdentifier` with a key and a `Delete` with objects can
  -- always be built.
  unfoldable pub delete_chunks : Text → List (List Text) → ℕ → Call ℕ
  unfolding is_missing_code
  delete_chunks bucket [] deleted_count o = (ok deleted_count, o)
  delete_chunks bucket (chunk ∷ later) deleted_count o =
      let (r, o') = s3.delete_objects bucket chunk o in
      elim r [
        | err e ↦ (
          err (
              operation_failed (
                codes "S3 delete_objects failed for bucket="
                ++ bucket
                ++ codes ": "
                ++ s3.show_error e)),
          o',
        )
        | ok response ↦ elim (first_error response.errors) [
          | some e ↦ (err (response_failure e), o')
          | none ↦ delete_chunks bucket later (deleted_count + response.deleted) o'
        ]
      ]

  -- No key at all makes no chunk, as the early return has it.
  unfoldable pub delete_objects_in_bucket : Text → List Text → Call ℕ
  unfolding delete_chunks chunks_1000
  delete_objects_in_bucket bucket object_keys = delete_chunks bucket (chunks_1000 object_keys) 0
