-- ===== src/Acl/Permissions.antt =====
-- `replace_document_permissions`: who may see a document, declared as a whole.
use hrm_grag.Acl.{
  DocumentAccessMode, Member, Op, PermissionsAudit, Reader, Tables, ask, fail_op, format_user,
  restricted, return_op, sql, try_then, user_not_workspace_member, workspace_default,
}
use hrm_grag.Authz.{Client, TupleKey, document_object, workspace_object}
use hrm_grag.Db.{Update}
use hrm_grag.Hrm.{explicit_viewer, member}
use hrm_grag.Prelude.{
  Bool, List, [], any, false, if◌then◌else◌, is_empty, length, map, none, some, true, ℕ, ◌&&◌, ◌++◌,
  ◌==◌, ◌∷◌,
}
use hrm_grag.Prelude.Text.{Text, Uuid, text_eq}

-- `unique_user_ids`, from the users that have been seen.
abbrev pub has_user : List Text → Text → Bool
has_user users user_id = any (λ u. text_eq u user_id) users

abbrev pub unseen_user_ids : List Text → List Text → List Text
unseen_user_ids seen [] = []
unseen_user_ids seen (user_id ∷ user_ids) =
    let skipped = unseen_user_ids seen user_ids in
    let kept = unseen_user_ids (user_id ∷ seen) user_ids in
    if has_user seen user_id then skipped else user_id ∷ kept

unfoldable pub unique_user_ids : List Text → List Text
unfolding text_eq
unique_user_ids user_ids = unseen_user_ids [] user_ids

pub record GrantPlan : Type 0 where
  pub user_id : Text
  pub insert_sql_row : Bool

-- How the transaction ends: the document is not there, nothing is to be done, or a plan.
pub data Prepared : Type 0 where
  absent settled_already : Prepared
  planned : PermissionsAudit → List Text → List GrantPlan → Prepared

abbrev pub same_mode : DocumentAccessMode → DocumentAccessMode → Bool
same_mode workspace_default workspace_default = true
same_mode workspace_default restricted = false
same_mode restricted workspace_default = false
same_mode restricted restricted = true

abbrev pub member_ids : ℕ → List Text → List Member → List Text
member_ids workspace_id user_ids [] = []
member_ids workspace_id user_ids (m ∷ ms) =
    let rest = member_ids workspace_id user_ids ms in
    if m.workspace_id == workspace_id && has_user user_ids m.user_id then m.user_id ∷ rest else rest

-- WHERE workspace_id = $1 AND user_id = ANY($2)
abbrev pub select_members : ℕ → List Text → Update Tables (List Text)
select_members workspace_id user_ids s = some (member_ids workspace_id user_ids s.members, s)

-- The row that `enqueue_tuple_write` inserts.
abbrev pub insert_recovery : TupleKey → Update Tables Unit
insert_recovery tuple s = some (tt, record s { recovery = s.recovery ++ tuple ∷ [] })

abbrev pub new_audit :
    DocumentAccessMode → DocumentAccessMode → List Text → List GrantPlan → PermissionsAudit
new_audit previous_mode requested_mode to_revoke to_grant = record {
  previous_mode = previous_mode;
  requested_mode = requested_mode;
  applied_mode = previous_mode;
  granted_requested = length to_grant;
  granted_applied = 0;
  revoked_requested = length to_revoke;
  revoked_applied = 0;
  completed = false;
  failed_stage = none;
}

module _ (client : Client) (uuid : Uuid) (reader : Reader client)
    (document_id workspace_id : ℕ) where
  -- The loop over the targets of a restricted document.
  abbrev pub plan_grants : List Text → List Text → Op client (List GrantPlan)
  plan_grants current [] = return_op client []
  plan_grants current (user_id ∷ user_ids) =
      let rest = plan_grants current user_ids in
      if has_user current user_id
      then try_then client
          (ask client
            (reader.check_fga (format_user user_id) explicit_viewer (document_object document_id)))
          (λ has_explicit_viewer. try_then client rest (λ plans. return_op client (
            if has_explicit_viewer
            then plans
            else record { user_id = user_id; insert_sql_row = false } ∷ plans)))
      else try_then client rest
          (λ plans. return_op client (record { user_id = user_id; insert_sql_row = true } ∷ plans))

  abbrev pub to_grant_of : DocumentAccessMode → List Text → List Text → Op client (List GrantPlan)
  to_grant_of workspace_default current user_ids = return_op client []
  to_grant_of restricted current user_ids = plan_grants current user_ids

  -- The loop of `validate_grant_targets`.
  abbrev pub check_targets : List Text → List GrantPlan → Op client Unit
  check_targets members [] = return_op client tt
  check_targets members (grant ∷ grants) =
      let rest = check_targets members grants in
      if has_user members grant.user_id
      then try_then client
          (ask client
            (reader.check_fga (format_user grant.user_id) member (workspace_object workspace_id)))
          (λ is_member.
            if is_member then rest else fail_op client (user_not_workspace_member grant.user_id))
      else fail_op client (user_not_workspace_member grant.user_id)

  abbrev pub validate_grant_targets : List GrantPlan → Op client Unit
  validate_grant_targets grants =
      if is_empty grants
      then return_op client tt
      else try_then client
          (sql client
            (select_members workspace_id (map (λ (grant : GrantPlan). grant.user_id) grants)))
          (λ members. check_targets members grants)
