-- ===== src/Acl/Replace.antt =====
-- `replace_document_permissions` itself: its transaction, and what it does after it.
use hrm_grag.Acl.{
  AclError, DocumentAccessMode, Op, PermissionsAudit, Reader, State, Tables, explicit_viewer_tuple,
  fail_op, fga, format_user, in_transaction, parse_mode, permissions_updated, protocol, return_op,
  sql, try_then,
}
use hrm_grag.Acl.Change.{
  delete_share, insert_audit, insert_share, select_mode, share_user_ids, update_mode,
}
use hrm_grag.Acl.Permissions.{
  GrantPlan, Prepared, absent, has_user, insert_recovery, new_audit, planned, same_mode,
  settled_already, to_grant_of, unique_user_ids, validate_grant_targets,
}
use hrm_grag.Authz.{Client, TupleKey, delete_tuples_fga_first, document_object, write_tuple}
use hrm_grag.Db.{End, Result, Update, commit, err, ok, rollback}
use hrm_grag.Hrm.{explicit_viewer}
use hrm_grag.Prelude.{
  Bool, List, Option, [], false, if◌then◌else◌, is_empty, none, not, select, some, true, ℕ, ◌&&◌,
  ◌+◌, ◌||◌, ◌∷◌,
}
use hrm_grag.Prelude.Text.{Text, Uuid, codes, text_eq}

-- The order of `ORDER BY user_id`, which is the database's collation, is a parameter.
module _ (client : Client) (uuid : Uuid) (reader : Reader client)
    (by_collation : List Text → List Text) (document_id workspace_id : ℕ) (actor : Text) where
  -- An error of it is only logged.
  abbrev pub write_permissions_audit_if_mutated :
      PermissionsAudit → Bool → State client → State client
  write_permissions_audit_if_mutated audit mutated st =
      if mutated
      then (sql client (insert_audit (permissions_updated actor workspace_id document_id audit))
          st).1
      else st

  -- What every error after the transaction does before it is returned.
  abbrev pub staged :
      {A B : Type 0}
      → Text
      → PermissionsAudit
      → Bool
      → Result AclError A × State client
      → (A → Op client B)
      → Result AclError B × State client
  staged stage audit mutated (err e, st) k = (
    err e,
    write_permissions_audit_if_mutated (record audit { failed_stage = some stage }) mutated st,
  )
  staged stage audit mutated (ok a, st) k = k a st

  abbrev pub revoke_shares :
      List Text → PermissionsAudit → Bool → Op client (PermissionsAudit × Bool)
  revoke_shares [] audit mutated st = (ok (audit, mutated), st)
  revoke_shares (user_id ∷ user_ids) audit mutated st =
      staged (codes "revoke") audit mutated
        (fga client
          (delete_tuples_fga_first client (explicit_viewer_tuple uuid document_id user_id ∷ [])) st)
        (λ u st'.
          staged (codes "revoke") audit true (sql client (delete_share document_id user_id) st')
            (λ u'.
              revoke_shares user_ids (record audit { revoked_applied = audit.revoked_applied + 1 })
                true))

  abbrev pub share_row : GrantPlan → Op client Bool
  share_row grant =
      if grant.insert_sql_row
      then sql client (insert_share document_id grant.user_id)
      else return_op client false

  -- A write that OpenFGA refuses is put into the outbox, if that works.
  abbrev pub or_enqueued :
      {A : Type 0} → TupleKey → Result AclError A × State client → Result AclError A × State client
  or_enqueued tuple (ok a, st) = (ok a, st)
  or_enqueued tuple (err e, st) = (err e, (sql client (insert_recovery tuple) st).1)

  abbrev pub grant_shares :
      List GrantPlan → PermissionsAudit → Bool → Op client (PermissionsAudit × Bool)
  grant_shares [] audit mutated st = (ok (audit, mutated), st)
  grant_shares (grant ∷ grants) audit mutated st =
      staged (codes "grant") audit mutated (share_row grant st) (λ inserted st'.
        staged (codes "grant") audit (mutated || inserted)
          (or_enqueued (explicit_viewer_tuple uuid document_id grant.user_id) (
            fga client
              (write_tuple client uuid (format_user grant.user_id) explicit_viewer
                (document_object document_id))
              st'))
          (λ u.
            grant_shares grants (record audit { granted_applied = audit.granted_applied + 1 })
              true))

  -- The end: the audit says that all is done.
  abbrev pub finish : PermissionsAudit × Bool → Op client (Option Unit)
  finish (audit, mutated) st = (
    ok (some tt),
    write_permissions_audit_if_mutated (record audit { completed = true }) mutated st,
  )

  abbrev pub mode_changed : PermissionsAudit → Bool
  mode_changed audit = not (same_mode audit.previous_mode audit.requested_mode)

  abbrev pub applied : PermissionsAudit → PermissionsAudit
  applied audit =
      if mode_changed audit then record audit { applied_mode = audit.requested_mode } else audit

  abbrev pub after_commit : Prepared → Op client (Option Unit)
  after_commit absent st = (ok none, st)
  after_commit settled_already st = (ok (some tt), st)
  after_commit (planned audit to_revoke to_grant) st =
      try_then client (revoke_shares to_revoke (applied audit) (mode_changed audit))
        (λ a. try_then client (grant_shares to_grant a.0 a.1) finish) st

  -- The end of the transaction: whether there is anything to do, and the new mode.
  abbrev pub set_and_commit :
      PermissionsAudit → List Text → List GrantPlan → Op client (End Prepared)
  set_and_commit audit to_revoke to_grant =
      if not (mode_changed audit) && is_empty to_revoke && is_empty to_grant
      then return_op client (rollback settled_already)
      else try_then client
          (if mode_changed audit
            then sql client (update_mode document_id workspace_id audit.requested_mode)
            else return_op client tt)
          (λ u. return_op client (commit (planned audit to_revoke to_grant)))

  abbrev pub to_revoke_of : List Text → List Text → List Text
  to_revoke_of targets current = select (λ user_id. not (has_user targets user_id)) current

  -- From the users on that have a share.
  abbrev pub prepare_plan :
      DocumentAccessMode → DocumentAccessMode → List Text → List Text → Op client (End Prepared)
  prepare_plan previous_mode requested_mode targets current =
      try_then client
        (to_grant_of client uuid reader document_id workspace_id requested_mode current targets)
        (λ to_grant.
          try_then client
            (validate_grant_targets client uuid reader document_id workspace_id to_grant)
            (λ u.
              set_and_commit
                (new_audit previous_mode requested_mode (to_revoke_of targets current) to_grant)
                (to_revoke_of targets current) to_grant))

  abbrev pub select_ordered_shares : Update Tables (List Text)
  select_ordered_shares s = some (by_collation (share_user_ids document_id s.shares), s)

  -- After the document has been looked up.
  abbrev pub prepare : DocumentAccessMode → List Text → Option Text → Op client (End Prepared)
  prepare requested_mode targets none = return_op client (rollback absent)
  prepare requested_mode targets (some current_raw) = elim (parse_mode current_raw) [
    | none ↦ fail_op client (protocol current_raw)
    | some previous_mode ↦
        try_then client (sql client select_ordered_shares)
          (prepare_plan previous_mode requested_mode targets)
  ]

  -- `none` is a document that is not in the workspace.
  unfoldable pub replace_document_permissions :
      DocumentAccessMode → List Text → Op client (Option Unit)
  unfolding parse_mode delete_tuples_fga_first sql in_transaction unique_user_ids text_eq
  replace_document_permissions requested_mode authorized_user_ids =
      let targets = unique_user_ids authorized_user_ids in
      try_then client
        (in_transaction client (
          try_then client (sql client (select_mode document_id workspace_id))
            (prepare requested_mode targets)))
        after_commit
