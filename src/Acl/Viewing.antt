-- ===== src/Acl/Viewing.antt =====
-- Which documents a user sees: by a list, and one by one.
use hrm_grag.Acl.{
  AclError, Document, DocumentAccessMode, DocumentAclRow, Reader, Tables, authz_error,
  database_error, format_user, invalid_access_mode, invalid_object_format, invalid_object_id,
  parse_mode, restricted, workspace_default,
}
use hrm_grag.Authz.{AuthzError, Client, document_object}
use hrm_grag.Db.{Result, SqlError, World, autocommit, err, ok}
use hrm_grag.Hrm.{Relation, bypass_viewer, explicit_viewer}
use hrm_grag.Prelude.{
  Bool, List, Option, [], any, false, if◌then◌else◌, is_empty, none, select, some, true, ℕ, ◌&&◌,
  ◌++◌, ◌==◌, ◌∷◌,
}
use hrm_grag.Prelude.Text.{Text, Uuid, codes, strip_prefix}

-- The loop over the rows: the first mode that is unknown ends it.
abbrev pub acl_rows : List Document → Result AclError (List DocumentAclRow)
acl_rows [] = ok []
acl_rows (d ∷ ds) =
    let rest = acl_rows ds in
    elim (parse_mode d.access_mode) [
      | none ↦ err (invalid_access_mode d.id d.access_mode)
      | some mode ↦ elim rest [
        | err e ↦ err e
        | ok rows ↦ ok (record { document_id = d.id; access_mode = mode } ∷ rows)
      ]
    ]

abbrev rows_of : Result SqlError (List Document) → Result AclError (List DocumentAclRow)
rows_of (err e) = err (database_error e)
rows_of (ok ds) = acl_rows ds

unfoldable pub fetch_workspace_document_acl_rows :
    ℕ → World Tables → Result AclError (List DocumentAclRow) × World Tables
unfolding parse_mode
fetch_workspace_document_acl_rows workspace_id w =
    let (r, w') =
      autocommit
        (λ t s. some (select (λ (d : Document). d.workspace_id == workspace_id) s.documents, s))
        w in
    (rows_of r, w')

unfoldable pub fetch_completed_workspace_document_acl_rows :
    ℕ → World Tables → Result AclError (List DocumentAclRow) × World Tables
unfolding parse_mode
fetch_completed_workspace_document_acl_rows workspace_id w =
    let (r, w') =
      autocommit
        (λ t s.
          some (
            select (λ (d : Document). d.workspace_id == workspace_id && d.completed) s.documents,
            s,
          ))
        w in
    (rows_of r, w')

abbrev id_of : Text → Option ℕ → Result AclError ℕ
id_of raw_object none = err (invalid_object_id raw_object)
id_of raw_object (some id) = ok id

abbrev stripped : Uuid → Text → Option Text → Result AclError ℕ
stripped uuid raw_object none = err (invalid_object_format raw_object)
stripped uuid raw_object (some raw_id) = id_of raw_object (uuid.parse_str raw_id)

unfoldable pub parse_document_object : Uuid → Text → Result AclError ℕ
unfolding strip_prefix
parse_document_object uuid raw_object =
    stripped uuid raw_object (strip_prefix (codes "document:") raw_object)

-- `collect::<Result<..>>`
abbrev pub parse_all : Uuid → List Text → Result AclError (List ℕ)
parse_all uuid [] = ok []
parse_all uuid (raw ∷ raws) =
    let rest = parse_all uuid raws in
    elim (parse_document_object uuid raw) [
      | err e ↦ err e
      | ok id ↦ elim rest [ err e ↦ err e | ok ids ↦ ok (id ∷ ids) ]
    ]

module _ (client : Client) (reader : Reader client) (uuid : Uuid) where
  abbrev listed : Result AuthzError (List Text) → Result AclError (List ℕ)
  listed (err e) = err (authz_error e)
  listed (ok raws) = parse_all uuid raws

  unfoldable pub list_document_relation_ids :
      Text → Relation → client.Store → Result AclError (List ℕ)
  unfolding parse_document_object
  list_document_relation_ids user_id relation s =
      listed (reader.list_objects (format_user user_id) relation (codes "document") s)

  abbrev pub joined : Result AclError (List ℕ) → Result AclError (List ℕ) → Result AclError (List ℕ)
  joined (err e) b = err e
  joined (ok ids) (err e) = err e
  joined (ok ids) (ok more) = ok (ids ++ more)

  unfoldable pub collect_viewable_restricted_document_ids :
      Text → client.Store → Result AclError (List ℕ)
  unfolding list_document_relation_ids
  collect_viewable_restricted_document_ids user_id s =
      joined (list_document_relation_ids user_id explicit_viewer s)
        (list_document_relation_ids user_id bypass_viewer s)

  abbrev pub row_ids : Bool → List DocumentAclRow → List ℕ
  row_ids as_restricted [] = []
  row_ids as_restricted (d ∷ ds) =
      let rest = row_ids as_restricted ds in
      elim d.access_mode [
        | workspace_default ↦ if as_restricted then rest else d.document_id ∷ rest
        | restricted ↦ if as_restricted then d.document_id ∷ rest else rest
      ]

  abbrev pub visible_of : List ℕ → List ℕ → Result AclError (List ℕ) → Result AclError (List ℕ)
  visible_of visible_ids restricted_ids (err e) = err e
  visible_of visible_ids restricted_ids (ok ids) =
      ok (visible_ids ++ select (λ id. any (λ r. r == id) restricted_ids) ids)

  -- OpenFGA is asked only if there is a restricted document.
  unfoldable pub collect_viewable_document_ids :
      Text → List DocumentAclRow → client.Store → Result AclError (List ℕ)
  unfolding collect_viewable_restricted_document_ids
  collect_viewable_document_ids user_id documents s =
      let visible_ids = row_ids false documents in
      let restricted_ids = row_ids true documents in
      let allowed = collect_viewable_restricted_document_ids user_id s in
      if is_empty restricted_ids
      then ok visible_ids
      else visible_of visible_ids restricted_ids allowed

  abbrev pub second_check : Result AuthzError Bool → Result AclError Bool
  second_check (err e) = err (authz_error e)
  second_check (ok b) = ok b

  abbrev pub first_check : Result AuthzError Bool → Result AuthzError Bool → Result AclError Bool
  first_check (err e) second = err (authz_error e)
  first_check (ok true) second = ok true
  first_check (ok false) second = second_check second

  unfoldable pub can_user_view_document :
      Text → ℕ → DocumentAccessMode → client.Store → Result AclError Bool
  can_user_view_document user_id document_id workspace_default s = ok true
  can_user_view_document user_id document_id restricted s =
      let user = format_user user_id in
      let object = document_object document_id in
      first_check (reader.check_fga user explicit_viewer object s)
        (reader.check_fga user bypass_viewer object s)
