-- ===== src/Acl.antt =====
-- gmrag_api/src/auth/document_acl.rs: who may see a document. The database and OpenFGA change in
-- turns, so an operation goes from a state of both to a result and the state after it. What
-- OpenFGA answers to questions is a parameter; a question changes nothing.
pub mod Viewing
pub mod Change
pub mod Permissions
pub mod Replace
pub mod Revocation
pub mod Listing
pub mod Steps
pub mod Writes
pub mod Reset
pub mod Agreement
mod Viewers
mod Checks
use hrm_grag.Authz.{
  AuthzError, Client, Object, TupleKey, document_object, object_text, relation_str,
}
use hrm_grag.Db.{
  End, Result, SqlError, Update, World, arrive, commit, err, faulty, landing, ok, rollback,
  statement, unavailable,
}
use hrm_grag.Hrm.{Relation, explicit_viewer}
use hrm_grag.Prelude.{Bool, List, Option, false, if◌then◌else◌, none, some, true, ℕ, ◌++◌}
use hrm_grag.Prelude.Text.{Text, Uuid, codes, text_eq}

pub data DocumentAccessMode : Type 0 where
  workspace_default restricted : DocumentAccessMode

unfoldable pub parse_mode : Text → Option DocumentAccessMode
parse_mode raw =
    if text_eq raw (codes "workspace_default")
    then some workspace_default
    else if text_eq raw (codes "restricted")
    then some restricted
    else none

abbrev pub mode_str : DocumentAccessMode → Text
mode_str workspace_default = codes "workspace_default"
mode_str restricted = codes "restricted"

abbrev pub is_restricted : DocumentAccessMode → Bool
is_restricted workspace_default = false
is_restricted restricted = true

pub record DocumentAclRow : Type 0 where
  pub document_id : ℕ
  pub access_mode : DocumentAccessMode

-- `DocumentAclError` and `DocumentPermissionsUpdateError`; `protocol` is the `sqlx::Error` that the
-- code makes of a mode that it does not know.
pub data AclError : Type 0 where
  database_error : SqlError → AclError
  protocol : Text → AclError
  authz_error : AuthzError → AclError
  invalid_access_mode : ℕ → Text → AclError
  invalid_object_format invalid_object_id user_not_workspace_member : Text → AclError

-- The columns that are read or written here; `done` is status COMPLETED at stage DONE.
pub record Document : Type 0 where
  pub id : ℕ
  pub workspace_id : ℕ
  pub access_mode : Text
  pub completed : Bool

pub record Share : Type 0 where
  pub document_id : ℕ
  pub user_id : Text

pub record Member : Type 0 where
  pub workspace_id : ℕ
  pub user_id : Text

-- The audit of one replacement.
pub record PermissionsAudit : Type 0 where
  pub previous_mode : DocumentAccessMode
  pub requested_mode : DocumentAccessMode
  pub applied_mode : DocumentAccessMode
  pub granted_requested : ℕ
  pub granted_applied : ℕ
  pub revoked_requested : ℕ
  pub revoked_applied : ℕ
  pub completed : Bool
  pub failed_stage : Option Text

pub data AuditEvent : Type 0 where
  access_mode_changed : Text → ℕ → ℕ → DocumentAccessMode → DocumentAccessMode → ℕ → AuditEvent
  permissions_updated : Text → ℕ → ℕ → PermissionsAudit → AuditEvent

-- `recovery` has the tuples that `enqueue_tuple_write` puts into the outbox.
pub record Tables : Type 0 where
  pub documents : List Document
  pub shares : List Share
  pub members : List Member
  pub audit : List AuditEvent
  pub recovery : List TupleKey

-- Questions to OpenFGA: `check_fga` and `list_objects`.
pub record Reader (client : Client) : Type 0 where
  pub check_fga : Text → Relation → Object → client.Store → Result AuthzError Bool
  pub list_objects : Text → Relation → Text → client.Store → Result AuthzError (List Text)

abbrev pub format_user : Text → Text
format_user user_id = codes "user:" ++ user_id

abbrev pub explicit_viewer_tuple : Uuid → ℕ → Text → TupleKey
explicit_viewer_tuple uuid document_id user_id = record {
  user = format_user user_id;
  relation = relation_str explicit_viewer;
  object = object_text uuid (document_object document_id);
}

module _ (client : Client) where
  abbrev pub State : Type 0
  State = World Tables × client.Store

  abbrev pub Op : Type 0 → Type 0
  Op A = State → Result AclError A × State

  abbrev pub next :
      {A B : Type 0} → Result AclError A × State → (A → Op B) → Result AclError B × State
  next (err e, st) k = (err e, st)
  next (ok a, st) k = k a st

  -- One operation and then, if it has worked, another: the code's `?`.
  abbrev pub try_then : {A B : Type 0} → Op A → (A → Op B) → Op B
  try_then f k st = next (f st) k

  abbrev pub answer_of :
      {A : Type 0} → Result SqlError A × World Tables → client.Store → Result AclError A × State
  answer_of (err e, w) s = (err (database_error e), (w, s))
  answer_of (ok a, w) s = (ok a, (w, s))

  -- A statement, in the transaction that is open or on its own.
  unfoldable pub sql : {A : Type 0} → Update Tables A → Op A
  unfolding statement
  sql f (w, s) = answer_of (statement f w) s

  abbrev pub reply_of :
      World Tables → Result AuthzError Unit × client.Store → Result AclError Unit × State
  reply_of w (err e, s) = (err (authz_error e), (w, s))
  reply_of w (ok u, s) = (ok u, (w, s))

  -- A request to OpenFGA.
  abbrev pub fga : (client.Store → Result AuthzError Unit × client.Store) → Op Unit
  fga f (w, s) = reply_of w (f s)

  abbrev asked : {A : Type 0} → Result AuthzError A → Op A
  asked (err e) st = (err (authz_error e), st)
  asked (ok a) st = (ok a, st)

  -- A question to it.
  abbrev pub ask : {A : Type 0} → (client.Store → Result AuthzError A) → Op A
  ask f (w, s) = asked (f s) (w, s)

  abbrev pub return_op : {A : Type 0} → A → Op A
  return_op a st = (ok a, st)

  abbrev pub fail_op : {A : Type 0} → AclError → Op A
  fail_op e st = (err e, st)

  -- The end of a transaction; one that is dropped has rolled back. Of a COMMIT that fails nobody
  -- knows whether it took effect.
  abbrev pub close :
      {A : Type 0} → Tables → Result AclError (End A) × State → Result AclError A × State
  close saved (err e, (w, s)) = (err e, (record w { db = saved }, s))
  close saved (ok (rollback a), (w, s)) = (ok a, (record w { db = saved }, s))
  close saved (ok (commit a), (w, s)) =
      let w' = arrive w in
      if faulty w
      then (
        err (database_error unavailable),
        (if landing w then w' else record w' { db = saved }, s),
      )
      else (ok a, (w', s))

  -- `pool.begin()`, what is done until its end, and that.
  unfoldable pub in_transaction : {A : Type 0} → Op (End A) → Op A
  in_transaction body (w, s) =
      let w' = arrive w in
      if faulty w then (err (database_error unavailable), (w', s)) else close w'.db (body (w', s))
