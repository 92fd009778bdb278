-- ===== src/Acl/Reset.antt =====
-- What `set_document_access_mode` leaves in the database and in OpenFGA.
use hrm_grag.Acl.{AclError, AuditEvent, DocumentAccessMode, Op, Tables, mode_str, sql, try_then}
use hrm_grag.Acl.Change.{found_mode, mode_of, select_mode}
use hrm_grag.Acl.Writes.{kept_shares, taken_back, with_event, with_mode, with_shares}
use hrm_grag.Authz.{Client, Laws, TupleKey, same_key}
use hrm_grag.Db.{End, Result, commit, err, ok, rollback}
use hrm_grag.Prelude.{Option, any, length, none, not, some, ℕ, ◌&&◌, ◌+◌, ◌≡◌, ◌⊎◌}
use hrm_grag.Prelude.Text.{Text, Uuid}

module _ (client : Client) (laws : Laws client) (uuid : Uuid) (document_id workspace_id : ℕ)
    (mode : DocumentAccessMode) (actor : Text) where
  -- The mode is set, exactly the tuples that it takes back are gone, the shares follow, and one
  -- event is in the audit.
  abbrev pub HasMode : Tables → client.Store → Tables → client.Store → Type 0
  HasMode before s after s' =
      (mode_of document_id workspace_id after.documents ≡ some (mode_str mode))
      × (after.shares ≡ kept_shares document_id workspace_id mode before.shares)
      × (length after.audit ≡ length before.audit + 1)
      × ((k : TupleKey)
          → laws.stored s' k
            ≡ laws.stored s k
              && not (
                  any (λ t. same_key t k)
                    (taken_back document_id workspace_id uuid mode before.shares)))

  -- By the answer. An error leaves the tables alone, or comes from a COMMIT that took effect. A
  -- document that is not there leaves them alone, and OpenFGA is not asked either.
  abbrev pub IsApplied :
      Tables → client.Store → Tables → client.Store → Result AclError (Option Unit) → Type 0
  IsApplied before s after s' (err e) = (after ≡ before) ⊎ HasMode before s after s'
  IsApplied before s after s' (ok none) =
      (mode_of document_id workspace_id before.documents ≡ none) × (after ≡ before) × (s' ≡ s)
  IsApplied before s after s' (ok (some u)) = HasMode before s after s'

  abbrev written : AuditEvent → Tables → Tables
  written event t = with_event client laws uuid document_id workspace_id mode actor event (
      with_shares client laws uuid document_id workspace_id mode actor
        (with_mode client laws uuid document_id workspace_id mode actor t))

  abbrev tables_of : End (Option Unit) → Tables → Tables → Tables
  tables_of (commit o) before t = t
  tables_of (rollback o) before t = before

  abbrev answer_of_end : End (Option (Unit {0})) → Option (Unit {0})
  answer_of_end (commit o) = o
  answer_of_end (rollback o) = o

  abbrev body : Op client (End (Option Unit))
  body =
      try_then client (sql client (select_mode document_id workspace_id))
        (found_mode client uuid document_id workspace_id mode actor)
