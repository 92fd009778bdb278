-- ===== src/AuthzOutbox/Rows.antt =====
-- The table `authz_outbox` of gmrag_api/src/auth/outbox.rs and its statements. A row's payload is a
-- JSON value, of which only its decoding is used.
use hrm_grag.Authz.{TupleKey}
use hrm_grag.AuthzOutbox.Config.{
  AuthzOutboxEventType, AuthzOutboxProcessorConfig, as_str, tuple_delete, tuple_write,
  workspace_role_sync,
}
use hrm_grag.Db.{M, Update, autocommit}
use hrm_grag.Outbox.Table.{utf8_len}
use hrm_grag.Prelude.{
  Bool, List, Option, [], count, false, if◌then◌else◌, leb, none, not, select, some, sort_by, suc,
  take, true, update_where, ℕ, ◌&&◌, ◌++◌, ◌==◌, ◌∷◌,
}
use hrm_grag.Prelude.Int.{leb_ℤ, max_zero, pos, saturating_inc_i32, ℤ}
use hrm_grag.Prelude.Text.{Text, codes, text_eq}

-- What serde_json does with the payloads, where `inner` is the value at the key `tuple`.
pub record Codec : Type 1 where
  pub Value : Type 0
  pub encode_tuple : TupleKey → Value
  pub encode_role_sync : ℕ → Text → Value
  pub decode_tuple : Value → Option TupleKey
  pub decode_role_sync : Value → Option (ℕ × Text)
  pub inner : Value → Option Value

pub data RowStatus : Type 0 where
  row_pending row_failed row_processed : RowStatus

pub record Member : Type 0 where
  pub workspace_id : ℕ
  pub user_id : Text
  pub role : Text

-- With `...` at the end of a message that is cut.
unfoldable pub truncate_error_message : Text → Text
truncate_error_message message =
    if leb (utf8_len message) 200 then message else take 200 message ++ codes "..."

module _ (codec : Codec) where
  pub record Row : Type 0 where
    pub id : ℕ
    pub event_type : Text
    pub payload : codec.Value
    pub status : RowStatus
    pub retry_count : ℤ
    pub error_message : Option Text
    pub created_at : ℕ
    pub updated_at : ℕ

  pub record Tables : Type 0 where
    pub rows : List Row
    pub next_uuid : ℕ
    pub members : List Member

  unfoldable pub insert_event : AuthzOutboxEventType → codec.Value → ℕ → Update Tables ℕ
  insert_event event_type payload t s = some (
    s.next_uuid,
    record s {
      rows =
          s.rows
          ++ (record {
            id = s.next_uuid;
            event_type = as_str event_type;
            payload = payload;
            status = row_pending;
            retry_count = pos 0;
            error_message = none;
            created_at = t;
            updated_at = t;
          })
            ∷ [];
      next_uuid = suc s.next_uuid;
    },
  )

  unfoldable pub enqueue_tuple_event : AuthzOutboxEventType → TupleKey → M Tables ℕ
  unfolding insert_event
  enqueue_tuple_event event_type tuple =
      autocommit (insert_event event_type (codec.encode_tuple tuple))

  abbrev pub enqueue_tuple_write : TupleKey → M Tables ℕ
  enqueue_tuple_write = enqueue_tuple_event tuple_write

  abbrev pub enqueue_tuple_delete : TupleKey → M Tables ℕ
  enqueue_tuple_delete = enqueue_tuple_event tuple_delete

  -- `enqueue_workspace_role_sync_tx`, and on its own.
  abbrev pub enqueue_workspace_role_sync_tx : ℕ → Text → ℕ → Update Tables ℕ
  enqueue_workspace_role_sync_tx workspace_id user_id =
      insert_event workspace_role_sync (codec.encode_role_sync workspace_id user_id)

  unfoldable pub enqueue_workspace_role_sync : ℕ → Text → M Tables ℕ
  enqueue_workspace_role_sync workspace_id user_id =
      autocommit (enqueue_workspace_role_sync_tx workspace_id user_id)

  abbrev pub is_open : ℤ → Row → Bool
  is_open max_retries r = elim r.status [
    | row_pending ↦ true
    | row_failed ↦ not (leb_ℤ max_retries r.retry_count)
    | row_processed ↦ false
  ]

  -- The rows of one batch; nothing is claimed.
  unfoldable pub open_rows : AuthzOutboxProcessorConfig → List Row → List Row
  open_rows config rows =
      take (max_zero config.batch_size)
        (sort_by (λ (r : Row). r.created_at) (select (is_open config.max_retries) rows))

  unfoldable pub select_batch : AuthzOutboxProcessorConfig → M Tables (List Row)
  unfolding open_rows
  select_batch config = autocommit (λ t s. some (open_rows config s.rows, s))

  abbrev pub has_id : ℕ → Row → Bool
  has_id id r = r.id == id

  abbrev pub processed_at : ℕ → Row → Row
  processed_at t r = record r { status = row_processed; error_message = none; updated_at = t }

  unfoldable pub mark_authz_outbox_processed : ℕ → M Tables Unit
  mark_authz_outbox_processed id =
      autocommit
        (λ t s. some (tt, record s { rows = update_where (has_id id) (processed_at t) s.rows }))

  abbrev pub failed_at : ℤ → Text → ℕ → Row → Row
  failed_at count message t r = record r {
    status = row_failed;
    retry_count = count;
    error_message = some message;
    updated_at = t;
  }

  unfoldable pub mark_outbox_row_failed : ℕ → ℤ → Text → M Tables Unit
  unfolding truncate_error_message
  mark_outbox_row_failed id retry_count error_message =
      let message = truncate_error_message error_message in
      autocommit (λ t s. some (
        tt,
        record s {
          rows =
              update_where (has_id id) (failed_at (saturating_inc_i32 retry_count) message t)
                s.rows;
        },
      ))

  abbrev pub is_exhausted : ℤ → Row → Bool
  is_exhausted max_retries r = elim r.status [
    | row_failed ↦ leb_ℤ max_retries r.retry_count
    | _ ↦ false
  ]

  unfoldable pub count_exhausted_failures : ℤ → M Tables ℕ
  count_exhausted_failures max_retries =
      autocommit (λ t s. some (count (is_exhausted max_retries) s.rows, s))

  abbrev pub member_role_of : ℕ → Text → List Member → Option Text
  member_role_of workspace_id user_id [] = none
  member_role_of workspace_id user_id (m ∷ ms) =
      let rest = member_role_of workspace_id user_id ms in
      if m.workspace_id == workspace_id && text_eq m.user_id user_id then some m.role else rest

  abbrev tuple_at_key : Option codec.Value → Option TupleKey
  tuple_at_key none = none
  tuple_at_key (some value) = codec.decode_tuple value

  abbrev tuple_or : Option TupleKey → codec.Value → Option TupleKey
  tuple_or (some tuple) payload = some tuple
  tuple_or none payload = tuple_at_key (codec.inner payload)

  -- `none` is `invalid_payload`.
  abbrev pub parse_tuple_payload : codec.Value → Option TupleKey
  parse_tuple_payload payload = tuple_or (codec.decode_tuple payload) payload
