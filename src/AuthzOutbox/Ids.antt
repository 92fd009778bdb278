-- ===== src/AuthzOutbox/Ids.antt =====
-- The processing of a row keeps the ids of all rows of gmrag_api/src/auth/outbox.rs.
use hrm_grag.Authz.{AuthzError, Client, TupleKey}
use hrm_grag.AuthzOutbox.Config.{
  AuthzOutboxEventType, parse, tuple_delete, tuple_write, workspace_role_sync,
}
use hrm_grag.AuthzOutbox.Processor.{
  AuthzOutboxRunResult, State, change_tuple, count_row, fail_row, finish_row, mark_with,
  process_event, process_rows, process_single_row, process_workspace_role_sync_row, read_role,
  sanitize_error_message, sync_payload, sync_read, sync_role,
}
use hrm_grag.AuthzOutbox.Role.{from_sql}
use hrm_grag.AuthzOutbox.Rows.{
  Codec, Row, Tables, mark_authz_outbox_processed, mark_outbox_row_failed, member_role_of,
  parse_tuple_payload,
}
use hrm_grag.Db.{M, Result, SqlError, World, err, ok}
use hrm_grag.Db.Atomic.{autocommit-Acts}
use hrm_grag.Db.Kept.{Result-cases, keep_of-Acts, some_written}
use hrm_grag.Outbox.Run.{mark}
use hrm_grag.Outbox.Unseen.{keys-update}
use hrm_grag.Prelude.{
  Bool, List, Option, Option-cases, [], false, inl, inr, map, none, refl, some, true, ℕ, ◌∙◌, ◌∷◌,
  ◌≡◌,
}
use hrm_grag.Prelude.Int.{ℤ}
use hrm_grag.Prelude.Text.{Text, Uuid, codes}

module _ (codec : Codec) where
  abbrev pub row_ids : Tables codec → List ℕ
  row_ids d = map (λ (r : Row codec). r.id) d.rows

  processed-row_ids :
      (id : ℕ) (w : World (Tables codec))
      → row_ids (mark_authz_outbox_processed codec id w).1.db ≡ row_ids w.db
  unfolding mark_authz_outbox_processed
  processed-row_ids id w =
      keep_of-Acts (λ d. row_ids d ≡ row_ids w.db) _ _ w (autocommit-Acts _ w)
        (λ t o d h.
          some_written (λ d'. row_ids d' ≡ row_ids w.db) h
            (keys-update (λ (r : Row codec). r.id) _ _ w.db.rows (λ r. refl)))
        refl

  failed-row_ids :
      (id : ℕ) (retries : ℤ) (message : Text) (w : World (Tables codec))
      → row_ids (mark_outbox_row_failed codec id retries message w).1.db ≡ row_ids w.db
  unfolding mark_outbox_row_failed
  failed-row_ids id retries message w =
      keep_of-Acts (λ d. row_ids d ≡ row_ids w.db) _ _ w (autocommit-Acts _ w)
        (λ t o d h.
          some_written (λ d'. row_ids d' ≡ row_ids w.db) h
            (keys-update (λ (r : Row codec). r.id) _ _ w.db.rows (λ r. refl)))
        refl

module _ (codec : Codec) (client : Client) (uuid : Uuid) where
  mark_with-row_ids :
      (mark : M (Tables codec) Unit) (answered : Bool) (w : World (Tables codec)) (s : client.Store)
      → row_ids codec (mark_with codec client uuid mark answered (w, s)).1.0.db
        ≡ row_ids codec (mark w).1.db
  mark_with-row_ids mark answered w s = elim (Result-cases (mark w).0) [
    | inl (e, q) ↦ rw (q, mark_with) refl
    | inr (u, q) ↦ rw (q, mark_with) refl
  ]

  -- An operation on the database and OpenFGA that keeps the ids.
  abbrev Keeps : World (Tables codec) → Result SqlError Bool × State codec client uuid → Type 0
  Keeps w r = row_ids codec r.1.0.db ≡ row_ids codec w.db

  fail_row-Keeps :
      (row : Row codec) (message : Text) (w : World (Tables codec)) (s : client.Store)
      → Keeps w (fail_row codec client uuid row message (w, s))
  fail_row-Keeps row message w s =
      mark_with-row_ids (mark_outbox_row_failed codec row.id row.retry_count message) false w s
      ∙ failed-row_ids codec row.id row.retry_count message w

  finish_row-Keeps :
      (row : Row codec) (w : World (Tables codec)) (r : Result AuthzError Unit × client.Store)
      → Keeps w (finish_row codec client uuid row w r)
  finish_row-Keeps row w (ok u, s) =
      mark_with-row_ids (mark_authz_outbox_processed codec row.id) true w s
      ∙ processed-row_ids codec row.id w
  finish_row-Keeps row w (err e, s) = fail_row-Keeps row (sanitize_error_message e) w s

  sync_role-Keeps :
      (row : Row codec) (workspace_id : ℕ) (user_id : Text) (role : Option Text)
      (w : World (Tables codec)) (s : client.Store)
      → Keeps w (sync_role codec client uuid row workspace_id user_id role (w, s))
  sync_role-Keeps row workspace_id user_id none w s = finish_row-Keeps row w _
  sync_role-Keeps row workspace_id user_id (some role) w s = elim (Option-cases (from_sql role)) [
    | inl q ↦ rw (q, sync_role) (fail_row-Keeps row (codes "invalid_workspace_member_role") w s)
    | inr (r, q) ↦ rw (q, sync_role) (finish_row-Keeps row w _)
  ]

  sync_read-Keeps :
      (row : Row codec) (workspace_id : ℕ) (user_id : Text)
      (found : Result SqlError (Option Text) × World (Tables codec)) (s : client.Store)
      → Keeps found.1 (sync_read codec client uuid row workspace_id user_id found s)
  sync_read-Keeps row workspace_id user_id (err e, w) s = refl
  sync_read-Keeps row workspace_id user_id (ok role, w) s =
      sync_role-Keeps row workspace_id user_id role w s

  read_role-row_ids :
      (workspace_id : ℕ) (user_id : Text) (w : World (Tables codec))
      → row_ids codec (read_role codec client uuid workspace_id user_id w).1.db ≡ row_ids codec w.db
  read_role-row_ids workspace_id user_id w =
      keep_of-Acts (λ d. row_ids codec d ≡ row_ids codec w.db) _ _ w
        (autocommit-Acts (λ t d. some (member_role_of codec workspace_id user_id d.members, d)) w)
        (λ t o d h. some_written (λ d'. row_ids codec d' ≡ row_ids codec w.db) h refl) refl

  sync_payload-Keeps :
      (row : Row codec) (payload : Option (ℕ × Text)) (w : World (Tables codec)) (s : client.Store)
      → Keeps w (sync_payload codec client uuid row payload (w, s))
  sync_payload-Keeps row none w s =
      fail_row-Keeps row (codes "invalid_workspace_role_sync_payload") w s
  sync_payload-Keeps row (some (workspace_id, user_id)) w s =
      sync_read-Keeps row workspace_id user_id (read_role codec client uuid workspace_id user_id w)
        s
      ∙ read_role-row_ids workspace_id user_id w

  role_sync-Keeps :
      (row : Row codec) (w : World (Tables codec)) (s : client.Store)
      → Keeps w (process_workspace_role_sync_row codec client uuid row (w, s))
  unfolding process_workspace_role_sync_row
  role_sync-Keeps row w s = sync_payload-Keeps row (codec.decode_role_sync row.payload) w s

  change_tuple-Keeps :
      (event : AuthzOutboxEventType) (row : Row codec) (t : Option TupleKey)
      (w : World (Tables codec)) (s : client.Store)
      → Keeps w (change_tuple codec client uuid event row t (w, s))
  change_tuple-Keeps event row none w s = fail_row-Keeps row (codes "invalid_payload") w s
  change_tuple-Keeps tuple_write row (some t) w s = finish_row-Keeps row w _
  change_tuple-Keeps tuple_delete row (some t) w s = finish_row-Keeps row w _
  change_tuple-Keeps workspace_role_sync row (some t) w s = role_sync-Keeps row w s

  process_event-Keeps :
      (event : Option AuthzOutboxEventType) (row : Row codec) (w : World (Tables codec))
      (s : client.Store)
      → Keeps w (process_event codec client uuid event row (w, s))
  process_event-Keeps none row w s = fail_row-Keeps row (codes "unsupported_event_type") w s
  process_event-Keeps (some workspace_role_sync) row w s = role_sync-Keeps row w s
  process_event-Keeps (some tuple_write) row w s =
      change_tuple-Keeps tuple_write row (parse_tuple_payload codec row.payload) w s
  process_event-Keeps (some tuple_delete) row w s =
      change_tuple-Keeps tuple_delete row (parse_tuple_payload codec row.payload) w s

  pub process_rows-row_ids :
      (rows : List (Row codec)) (result : AuthzOutboxRunResult codec client uuid)
      (w : World (Tables codec)) (s : client.Store)
      → row_ids codec (process_rows codec client uuid rows result (w, s)).1.0.db
        ≡ row_ids codec w.db
  unfolding process_rows process_single_row
  process_rows-row_ids [] result w s = refl
  process_rows-row_ids (row ∷ rows) result w s =
      let kept = process_event-Keeps (parse row.event_type) row w s in
      elim (Result-cases (process_single_row codec client uuid row (w, s)).0) [
        | inl (e, q) ↦ rw (q, process_rows) kept
        | inr (o, q) ↦
            rw (q, process_rows)
              (process_rows-row_ids rows (count_row codec client uuid o result) _ _ ∙ kept)
      ]
