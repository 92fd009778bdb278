-- ===== src/AuthzOutbox/Processor.antt =====
-- What a row of gmrag_api/src/auth/outbox.rs asks of OpenFGA, and the run over the rows. `true` is a
-- processed row and `false` a failed one.
use hrm_grag.Authz.{
  AuthzError, Call, Client, TupleKey, http_failure, object_text, open_fga, relation_str,
  says_missing, says_there, workspace_object,
}
use hrm_grag.AuthzOutbox.Config.{
  AuthzOutboxEventType, AuthzOutboxProcessorConfig, parse, tuple_delete, tuple_write,
  workspace_role_sync,
}
use hrm_grag.AuthzOutbox.Role.{
  WorkspaceMemberRole, admin_role, as_fga_relation, from_sql, member_role,
}
use hrm_grag.AuthzOutbox.Rows.{
  Codec, Row, Tables, count_exhausted_failures, mark_authz_outbox_processed, mark_outbox_row_failed,
  member_role_of, parse_tuple_payload, select_batch,
}
use hrm_grag.Db.{M, Result, SqlError, World, autocommit, err, ok}
use hrm_grag.Hrm.{Relation, admin, member}
use hrm_grag.Outbox.Run.{mark}
use hrm_grag.Prelude.{
  Bool, List, Option, [], any, false, if◌then◌else◌, length, map, none, not, select, some, suc,
  true, zero, ℕ, ◌++◌, ◌+◌, ◌==◌, ◌∷◌,
}
use hrm_grag.Prelude.Text.{Text, Uuid, codes, show_u64}

unfoldable pub sanitize_error_message : AuthzError → Text
unfolding show_u64
sanitize_error_message http_failure = codes "openfga_http_error"
sanitize_error_message (open_fga status body) = codes "openfga_status_" ++ show_u64 status

-- The error says that the tuple is as it should be already.
unfoldable pub is_idempotent_outcome : AuthzOutboxEventType → AuthzError → Bool
is_idempotent_outcome event_type http_failure = false
is_idempotent_outcome tuple_write (open_fga status body) = says_there body
is_idempotent_outcome tuple_delete (open_fga status body) = says_missing body
is_idempotent_outcome workspace_role_sync (open_fga status body) = false

abbrev pub forgive : AuthzOutboxEventType → Result AuthzError Unit → Result AuthzError Unit
forgive event_type (ok u) = ok u
forgive event_type (err e) = if is_idempotent_outcome event_type e then ok tt else err e

abbrev pub workspace_role_tuple : Uuid → ℕ → Text → Relation → TupleKey
workspace_role_tuple uuid workspace_id user_id relation = record {
  user = codes "user:" ++ user_id;
  relation = relation_str relation;
  object = object_text uuid (workspace_object workspace_id);
}

abbrev pub opposite_relation : WorkspaceMemberRole → Relation
opposite_relation admin_role = member
opposite_relation member_role = admin

module _ (client : Client) where
  unfoldable pub write_tuple_idempotently : TupleKey → Call client
  unfolding is_idempotent_outcome
  write_tuple_idempotently t s =
      let (r, s') = client.write_tuples (t ∷ []) [] s in (forgive tuple_write r, s')

  unfoldable pub delete_tuple_idempotently : TupleKey → Call client
  unfolding is_idempotent_outcome
  delete_tuple_idempotently t s =
      let (r, s') = client.write_tuples [] (t ∷ []) s in (forgive tuple_delete r, s')

  -- One call, and if it has worked another.
  abbrev pub and_then_call : Call client → Call client → Call client
  and_then_call f g s = let (r, s') = f s in elim r [ err e ↦ (err e, s') | ok u ↦ g s' ]

  unfoldable pub sync_existing_workspace_role : Uuid → ℕ → Text → WorkspaceMemberRole → Call client
  unfolding write_tuple_idempotently delete_tuple_idempotently
  sync_existing_workspace_role uuid workspace_id user_id role =
      let tuple = workspace_role_tuple uuid workspace_id user_id in
      and_then_call (delete_tuple_idempotently (tuple (opposite_relation role)))
        (write_tuple_idempotently (tuple (as_fga_relation role)))

  unfoldable pub delete_workspace_role_tuples : Uuid → ℕ → Text → Call client
  unfolding delete_tuple_idempotently
  delete_workspace_role_tuples uuid workspace_id user_id =
      let tuple = workspace_role_tuple uuid workspace_id user_id in
      and_then_call (delete_tuple_idempotently (tuple admin))
        (delete_tuple_idempotently (tuple member))

module _ (codec : Codec) (client : Client) (uuid : Uuid) where
  -- The database and OpenFGA.
  abbrev pub State : Type 0
  State = World (Tables codec) × client.Store

  -- The row is marked, and the answer is `answered`.
  abbrev pub mark_with : M (Tables codec) Unit → Bool → State → Result SqlError Bool × State
  mark_with mark answered (w, s) =
      let (r, w') = mark w in elim r [ err e ↦ (err e, (w', s)) | ok u ↦ (ok answered, (w', s)) ]

  abbrev pub fail_row : Row codec → Text → State → Result SqlError Bool × State
  fail_row row message =
      mark_with (mark_outbox_row_failed codec row.id row.retry_count message) false

  abbrev pub finish_row :
      Row codec
      → World (Tables codec)
      → Result AuthzError Unit × client.Store
      → Result SqlError Bool × State
  finish_row row w (ok u, s) = mark_with (mark_authz_outbox_processed codec row.id) true (w, s)
  finish_row row w (err e, s) = fail_row row (sanitize_error_message e) (w, s)

  -- The role in SQL, read and understood, decides.
  abbrev pub sync_role : Row codec → ℕ → Text → Option Text → State → Result SqlError Bool × State
  sync_role row workspace_id user_id none (w, s) =
      finish_row row w (delete_workspace_role_tuples client uuid workspace_id user_id s)
  sync_role row workspace_id user_id (some role) (w, s) = elim (from_sql role) [
    | none ↦ fail_row row (codes "invalid_workspace_member_role") (w, s)
    | some r ↦ finish_row row w (sync_existing_workspace_role client uuid workspace_id user_id r s)
  ]

  abbrev pub sync_read :
      Row codec
      → ℕ
      → Text
      → Result SqlError (Option Text) × World (Tables codec)
      → client.Store
      → Result SqlError Bool × State
  sync_read row workspace_id user_id (err e, w) s = (err e, (w, s))
  sync_read row workspace_id user_id (ok role, w) s = sync_role row workspace_id user_id role (w, s)

  abbrev pub read_role : ℕ → Text → M (Tables codec) (Option Text)
  read_role workspace_id user_id =
      autocommit (λ t s. some (member_role_of codec workspace_id user_id s.members, s))

  abbrev pub sync_payload : Row codec → Option (ℕ × Text) → State → Result SqlError Bool × State
  sync_payload row none (w, s) = fail_row row (codes "invalid_workspace_role_sync_payload") (w, s)
  sync_payload row (some (workspace_id, user_id)) (w, s) =
      sync_read row workspace_id user_id (read_role workspace_id user_id w) s

  unfoldable pub process_workspace_role_sync_row : Row codec → State → Result SqlError Bool × State
  unfolding from_sql sync_existing_workspace_role delete_workspace_role_tuples
      mark_outbox_row_failed mark_authz_outbox_processed sanitize_error_message
  process_workspace_role_sync_row row state =
      sync_payload row (codec.decode_role_sync row.payload) state

  abbrev pub change_tuple :
      AuthzOutboxEventType → Row codec → Option TupleKey → State → Result SqlError Bool × State
  change_tuple event_type row none state = fail_row row (codes "invalid_payload") state
  change_tuple tuple_write row (some t) (w, s) =
      finish_row row w (write_tuple_idempotently client t s)
  change_tuple tuple_delete row (some t) (w, s) =
      finish_row row w (delete_tuple_idempotently client t s)
  change_tuple workspace_role_sync row (some t) state = process_workspace_role_sync_row row state

  abbrev pub process_event :
      Option AuthzOutboxEventType → Row codec → State → Result SqlError Bool × State
  process_event none row state = fail_row row (codes "unsupported_event_type") state
  process_event (some workspace_role_sync) row state = process_workspace_role_sync_row row state
  process_event (some tuple_write) row state =
      change_tuple tuple_write row (parse_tuple_payload codec row.payload) state
  process_event (some tuple_delete) row state =
      change_tuple tuple_delete row (parse_tuple_payload codec row.payload) state

  unfoldable pub process_single_row : Row codec → State → Result SqlError Bool × State
  unfolding parse process_workspace_role_sync_row write_tuple_idempotently delete_tuple_idempotently
      mark_outbox_row_failed mark_authz_outbox_processed sanitize_error_message
  process_single_row row state = process_event (parse row.event_type) row state

  pub record AuthzOutboxRunResult : Type 0 where
    pub batches : ℕ
    pub fetched_rows : ℕ
    pub processed_rows : ℕ
    pub failed_rows : ℕ
    pub skipped_max_retry_rows : ℕ

  abbrev pub count_row : Bool → AuthzOutboxRunResult → AuthzOutboxRunResult
  count_row true r = record r { processed_rows = r.processed_rows + 1 }
  count_row false r = record r { failed_rows = r.failed_rows + 1 }

  -- The rows of one batch: an error ends the run.
  unfoldable pub process_rows :
      List (Row codec) → AuthzOutboxRunResult → State → Result SqlError AuthzOutboxRunResult × State
  unfolding process_single_row
  process_rows [] result state = (ok result, state)
  process_rows (row ∷ rows) result state =
      let (r, state') = process_single_row row state in
      elim r [
        | err e ↦ (err e, state')
        | ok done ↦ process_rows rows (count_row done result) state'
      ]

  abbrev finish_run :
      AuthzOutboxProcessorConfig
      → AuthzOutboxRunResult
      → State
      → Result SqlError AuthzOutboxRunResult × State
  finish_run config result (w, s) =
      let (r, w') = count_exhausted_failures codec config.max_retries w in
      elim r [
        | err e ↦ (err e, (w', s))
        | ok n ↦ (ok (record result { skipped_max_retry_rows = n }), (w', s))
      ]

  -- `rows.retain(..)`
  abbrev pub unprocessed : List ℕ → List (Row codec) → List (Row codec)
  unprocessed processed_ids = select (λ r. not (any (λ i. i == r.id) processed_ids))

  -- The loop, on fuel: `none` if it runs out.
  unfoldable pub process_until :
      ℕ
      → AuthzOutboxProcessorConfig
      → List ℕ
      → AuthzOutboxRunResult
      → State
      → Option (Result SqlError AuthzOutboxRunResult × State)
  unfolding process_rows select_batch count_exhausted_failures
  process_until zero config processed_ids result state = none
  process_until (suc fuel) config processed_ids result (w, s) =
      let (r, w') = select_batch codec config w in
      elim r [
        | err e ↦ some (err e, (w', s))
        | ok batch ↦ elim (unprocessed processed_ids batch) [
          | [] ↦ some (finish_run config result (w', s))
          | row ∷ rows ↦
              let counted = record result {
                batches = result.batches + 1;
                fetched_rows = result.fetched_rows + length (row ∷ rows);
              } in
              let (q, state') = process_rows (row ∷ rows) counted (w', s) in
              elim q [
                | err e ↦ some (err e, state')
                | ok result' ↦
                    process_until fuel config
                      (map (λ (x : Row codec). x.id) (row ∷ rows) ++ processed_ids) result' state'
              ]
        ]
      ]

  unfoldable pub process_authz_outbox :
      ℕ → AuthzOutboxProcessorConfig → State → Option (Result SqlError AuthzOutboxRunResult × State)
  unfolding process_until
  process_authz_outbox fuel config state =
      process_until fuel config []
        (record {
          batches = 0;
          fetched_rows = 0;
          processed_rows = 0;
          failed_rows = 0;
          skipped_max_retry_rows = 0;
        })
        state
