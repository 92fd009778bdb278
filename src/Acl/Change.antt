-- ===== src/Acl/Change.antt =====
-- Changes of who may see a document: its mode, and single grants.
use hrm_grag.Acl.{
  AclError, AuditEvent, Document, DocumentAccessMode, Op, Reader, Share, State, Tables,
  access_mode_changed, ask, explicit_viewer_tuple, fail_op, fga, format_user, in_transaction,
  invalid_access_mode, mode_str, parse_mode, restricted, return_op, sql, try_then,
  workspace_default,
}
use hrm_grag.Authz.{Client, delete_tuple, delete_tuples_fga_first, document_object, write_tuple}
use hrm_grag.Db.{End, Result, Update, commit, err, ok, rollback}
use hrm_grag.Hrm.{explicit_viewer, workspace}
use hrm_grag.Prelude.{
  Bool, List, Option, [], any, false, if◌then◌else◌, length, map, none, not, select, some, true,
  update_where, ℕ, ◌&&◌, ◌++◌, ◌+◌, ◌==◌, ◌∷◌,
}
use hrm_grag.Prelude.Text.{Text, Uuid, codes, text_eq}

abbrev pub is_document : ℕ → ℕ → Document → Bool
is_document document_id workspace_id d = d.id == document_id && d.workspace_id == workspace_id

abbrev pub mode_of : ℕ → ℕ → List Document → Option Text
mode_of document_id workspace_id [] = none
mode_of document_id workspace_id (d ∷ ds) =
    let rest = mode_of document_id workspace_id ds in
    if is_document document_id workspace_id d then some d.access_mode else rest

abbrev pub share_user_ids : ℕ → List Share → List Text
share_user_ids document_id [] = []
share_user_ids document_id (s ∷ ss) =
    let rest = share_user_ids document_id ss in
    if s.document_id == document_id then s.user_id ∷ rest else rest

abbrev pub is_share : ℕ → Text → Share → Bool
is_share document_id user_id s = s.document_id == document_id && text_eq s.user_id user_id

-- SELECT ... FOR UPDATE of the mode.
abbrev pub select_mode : ℕ → ℕ → Update Tables (Option Text)
select_mode document_id workspace_id s = some (mode_of document_id workspace_id s.documents, s)

abbrev pub select_shares : ℕ → Update Tables (List Text)
select_shares document_id s = some (share_user_ids document_id s.shares, s)

abbrev pub update_mode : ℕ → ℕ → DocumentAccessMode → Update Tables Unit
update_mode document_id workspace_id mode s = some (
  tt,
  record s {
    documents =
        update_where (is_document document_id workspace_id)
          (λ d. record d { access_mode = mode_str mode }) s.documents;
  },
)

abbrev pub delete_shares : ℕ → Update Tables Unit
delete_shares document_id s =
    some (
      tt,
      record s { shares = select (λ (x : Share). not (x.document_id == document_id)) s.shares },
    )

abbrev pub delete_share : ℕ → Text → Update Tables Unit
delete_share document_id user_id s =
    some (tt, record s { shares = select (λ x. not (is_share document_id user_id x)) s.shares })

-- ON CONFLICT DO NOTHING; the answer is whether a row was inserted.
abbrev pub insert_share : ℕ → Text → Update Tables Bool
insert_share document_id user_id s =
    let row : Share = record { document_id = document_id; user_id = user_id } in
    some (
      not (any (is_share document_id user_id) s.shares),
      record s {
        shares =
            if any (is_share document_id user_id) s.shares then s.shares else s.shares ++ row ∷ [];
      },
    )

abbrev pub insert_audit : AuditEvent → Update Tables Unit
insert_audit event s = some (tt, record s { audit = s.audit ++ event ∷ [] })

module _ (client : Client) (uuid : Uuid) where
  -- `if access_mode == WorkspaceDefault`
  abbrev pub share_rows : ℕ → DocumentAccessMode → Op client Unit
  share_rows document_id workspace_default = sql client (delete_shares document_id)
  share_rows document_id restricted = return_op client tt

  -- What follows the reading of the shares, the last write first.
  abbrev pub record_event : AuditEvent → Op client (End (Option Unit))
  record_event event =
      try_then client (sql client (insert_audit event)) (λ u. return_op client (commit (some tt)))

  abbrev pub clean_shares : ℕ → DocumentAccessMode → AuditEvent → Op client (End (Option Unit))
  clean_shares document_id access_mode event =
      try_then client (share_rows document_id access_mode) (λ u. record_event event)

  abbrev pub set_mode : ℕ → ℕ → DocumentAccessMode → AuditEvent → Op client (End (Option Unit))
  set_mode document_id workspace_id access_mode event =
      try_then client (sql client (update_mode document_id workspace_id access_mode))
        (λ u. clean_shares document_id access_mode event)

  abbrev pub apply_mode :
      ℕ
      → ℕ
      → DocumentAccessMode
      → Text
      → DocumentAccessMode
      → List Text
      → Op client (End (Option Unit))
  apply_mode document_id workspace_id access_mode actor previous_mode user_ids =
      try_then client
        (fga client
          (delete_tuples_fga_first client (map (explicit_viewer_tuple uuid document_id) user_ids)))
        (λ u. set_mode document_id workspace_id access_mode (
          access_mode_changed actor workspace_id document_id previous_mode access_mode
            (length user_ids)))

  abbrev pub shares_to_clean : ℕ → DocumentAccessMode → Op client (List Text)
  shares_to_clean document_id workspace_default = sql client (select_shares document_id)
  shares_to_clean document_id restricted = return_op client []

  -- After the document has been looked up.
  abbrev pub found_mode :
      ℕ → ℕ → DocumentAccessMode → Text → Option Text → Op client (End (Option Unit))
  found_mode document_id workspace_id access_mode actor none = return_op client (rollback none)
  found_mode document_id workspace_id access_mode actor (some current_raw) =
      elim (parse_mode current_raw) [
        | none ↦ fail_op client (invalid_access_mode document_id current_raw)
        | some previous_mode ↦
            try_then client (shares_to_clean document_id access_mode)
              (apply_mode document_id workspace_id access_mode actor previous_mode)
      ]

  -- `none` is a document that is not in the workspace.
  unfoldable pub set_document_access_mode :
      ℕ → ℕ → DocumentAccessMode → Text → Op client (Option Unit)
  unfolding parse_mode delete_tuples_fga_first sql
  set_document_access_mode document_id workspace_id access_mode actor = in_transaction client (
      try_then client (sql client (select_mode document_id workspace_id))
        (found_mode document_id workspace_id access_mode actor))

  -- A write that OpenFGA refuses takes the row back, if that works.
  abbrev take_back :
      ℕ → Text → Result AclError Unit × State client → Result AclError Unit × State client
  take_back document_id user_id (ok u, st) = (ok u, st)
  take_back document_id user_id (err e, st) =
      (err e, (sql client (delete_share document_id user_id) st).1)

  unfoldable pub grant_document_explicit_viewer : ℕ → Text → Op client Unit
  unfolding sql
  grant_document_explicit_viewer document_id user_id =
      try_then client (sql client (insert_share document_id user_id)) (λ inserted st.
        take_back document_id user_id (
          fga client
            (write_tuple client uuid (format_user user_id) explicit_viewer
              (document_object document_id))
            st))

  unfoldable pub revoke_document_explicit_viewer : ℕ → Text → Op client Unit
  unfolding sql
  revoke_document_explicit_viewer document_id user_id =
      try_then client
        (fga client (
          delete_tuple client uuid (format_user user_id) explicit_viewer
            (document_object document_id)))
        (λ u. sql client (delete_share document_id user_id))

  abbrev pub workspace_user : ℕ → Text
  workspace_user workspace_id = codes "workspace:" ++ uuid.to_string workspace_id

  abbrev pub ensure_document_workspace_relation : ℕ → ℕ → Op client Unit
  ensure_document_workspace_relation workspace_id document_id = fga client (
      write_tuple client uuid (workspace_user workspace_id) workspace (document_object document_id))

  abbrev pub remove_document_workspace_relation : ℕ → ℕ → Op client Unit
  remove_document_workspace_relation workspace_id document_id = fga client (
      delete_tuple client uuid (workspace_user workspace_id) workspace
        (document_object document_id))

  module _ (reader : Reader client) where
    -- The loop over the documents: how many relations were written, and how many were there.
    unfoldable pub backfill_rows : List Document → ℕ → ℕ → Op client (ℕ × ℕ)
    backfill_rows [] inserted existing st = (ok (inserted, existing), st)
    backfill_rows (d ∷ ds) inserted existing st =
        try_then client
          (ask client
            (reader.check_fga (workspace_user d.workspace_id) workspace (document_object d.id)))
          (λ there. elim there [
            | true ↦ backfill_rows ds inserted (existing + 1)
            | false ↦
                try_then client (ensure_document_workspace_relation d.workspace_id d.id)
                  (λ u. backfill_rows ds (inserted + 1) existing)
          ])
          st

    -- The answer: all documents, and the two numbers.
    unfoldable pub backfill_document_workspace_relations : Op client (ℕ × ℕ × ℕ)
    unfolding backfill_rows sql
    backfill_document_workspace_relations =
        try_then client (sql client (λ s. some (s.documents, s))) (λ rows.
          try_then client (backfill_rows rows 0 0) (λ n. return_op client (length rows, n.0, n.1)))
