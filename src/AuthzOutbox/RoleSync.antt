-- ===== src/AuthzOutbox/RoleSync.antt =====
-- A role event that is processed leaves OpenFGA as the role in SQL says.
use hrm_grag.Authz.{
  AuthzError, Call, Client, Configured, Laws, TupleKey, http_failure, open_fga, same_key,
}
use hrm_grag.Authz.Deletion.{same_key_refl}
use hrm_grag.AuthzOutbox.Config.{AuthzOutboxEventType, tuple_delete, tuple_write}
use hrm_grag.AuthzOutbox.Processor.{
  and_then_call, delete_tuple_idempotently, delete_workspace_role_tuples, forgive,
  is_idempotent_outcome, sync_existing_workspace_role, workspace_role_tuple,
  write_tuple_idempotently,
}
use hrm_grag.AuthzOutbox.Role.{WorkspaceMemberRole, admin_role, is_admin, member_role}
use hrm_grag.Db.{err, ok}
use hrm_grag.Db.Kept.{Result-cases}
use hrm_grag.Hrm.{Relation, admin, member}
use hrm_grag.Prelude.{
  Bool, Bool-cases, [], ap, arith, false, inl, inr, not, sym, true, ℕ, ◌∙◌, ◌∷◌, ◌≡◌,
}
use hrm_grag.Prelude.Text.{Text, Uuid, text_eq}

forgiven :
    (event_type : AuthzOutboxEventType) (e : AuthzError)
    → forgive event_type (err e) ≡ ok tt
    → is_idempotent_outcome event_type e ≡ true
forgiven event_type e h = elim (Bool-cases (is_idempotent_outcome event_type e)) [
  | inl said ↦ said
  | inr unsaid ↦ let contrary : err e ≡ ok tt = rw unsaid at h in cc
]

module _ (client : Client) (laws : Laws client) where
  -- A deletion that counts as done has left the tuple out, and such a write has left it in.
  missing_after :
      (configured : Configured client) (t : TupleKey) (s : client.Store) (e : AuthzError)
      → (client.write_tuples [] (t ∷ []) s).0 ≡ err e
      → is_idempotent_outcome tuple_delete e ≡ true
      → laws.stored (client.write_tuples [] (t ∷ []) s).1 t ≡ false
  unfolding is_idempotent_outcome
  missing_after configured t s http_failure q said = cc
  missing_after configured t s (open_fga status body) q said =
      laws.missing t s status body q (configured.only_missing t s status body q said)

  there_after :
      (t : TupleKey) (s : client.Store) (e : AuthzError)
      → (client.write_tuples (t ∷ []) [] s).0 ≡ err e
      → is_idempotent_outcome tuple_write e ≡ true
      → laws.stored (client.write_tuples (t ∷ []) [] s).1 t ≡ true
  unfolding is_idempotent_outcome
  there_after t s http_failure q said = cc
  there_after t s (open_fga status body) q said = laws.there t s status body q said

  deleted_tuple :
      (configured : Configured client) (t : TupleKey) (s : client.Store)
      → (delete_tuple_idempotently client t s).0 ≡ ok tt
      → laws.stored (delete_tuple_idempotently client t s).1 t ≡ false
  unfolding delete_tuple_idempotently
  deleted_tuple configured t s h = elim (Result-cases (client.write_tuples [] (t ∷ []) s).0) [
    | inr (u, q) ↦ laws.done [] (t ∷ []) s t q ∙ ground (arith, same_key_refl t)
    | inl (e, q) ↦
        missing_after configured t s e q
          (forgiven tuple_delete e (ap (forgive tuple_delete) (sym q) ∙ h))
  ]

  written_tuple :
      (t : TupleKey) (s : client.Store)
      → (write_tuple_idempotently client t s).0 ≡ ok tt
      → laws.stored (write_tuple_idempotently client t s).1 t ≡ true
  unfolding write_tuple_idempotently
  written_tuple t s h = elim (Result-cases (client.write_tuples (t ∷ []) [] s).0) [
    | inr (u, q) ↦ laws.done (t ∷ []) [] s t q ∙ ground (arith, same_key_refl t)
    | inl (e, q) ↦
        there_after t s e q (forgiven tuple_write e (ap (forgive tuple_write) (sym q) ∙ h))
  ]

  kept_by_delete :
      (t k : TupleKey) (s : client.Store)
      → same_key t k ≡ false
      → laws.stored (delete_tuple_idempotently client t s).1 k ≡ laws.stored s k
  unfolding delete_tuple_idempotently
  kept_by_delete t k s apart = laws.untouched [] (t ∷ []) s k (ground (arith, apart))

  kept_by_write :
      (t k : TupleKey) (s : client.Store)
      → same_key t k ≡ false
      → laws.stored (write_tuple_idempotently client t s).1 k ≡ laws.stored s k
  unfolding write_tuple_idempotently
  kept_by_write t k s apart = laws.untouched (t ∷ []) [] s k (ground (arith, apart))

  -- Two calls that both worked, and what they leave.
  and_then_ok :
      (P : client.Store → Type 0) (f g : Call client) (s : client.Store)
      → (and_then_call client f g s).0 ≡ ok tt
      → ((f s).0 ≡ ok tt → (g (f s).1).0 ≡ ok tt → P (g (f s).1).1)
      → P (and_then_call client f g s).1
  and_then_ok P f g s h both = elim (Result-cases (f s).0) [
    | inl (e, q) ↦ let contrary : err e ≡ ok tt = rw (q, and_then_call) at h in cc
    | inr (u, q) ↦ rw (q, and_then_call) (both q (rw (q, and_then_call) at h))
  ]

  module _ (uuid : Uuid) (workspace_id : ℕ) (user_id : Text) where
    abbrev tuple : Relation → TupleKey
    tuple = workspace_role_tuple uuid workspace_id user_id

    -- The user's relations to the workspace, and nothing else.
    abbrev pub IsHeld : Bool → Bool → client.Store → client.Store → Type 0
    IsHeld as_admin as_member s s' =
        (laws.stored s' (tuple admin) ≡ as_admin)
        × (laws.stored s' (tuple member) ≡ as_member)
        × ((k : TupleKey)
            → same_key (tuple admin) k ≡ false
            → same_key (tuple member) k ≡ false
            → laws.stored s' k ≡ laws.stored s k)

    apart :
        (same_key (tuple admin) (tuple member) ≡ false)
        × (same_key (tuple member) (tuple admin) ≡ false)
    unfolding text_eq
    apart = (ground arith, ground arith)

    pub existing-IsHeld :
        (configured : Configured client) (role : WorkspaceMemberRole) (s : client.Store)
        → (sync_existing_workspace_role client uuid workspace_id user_id role s).0 ≡ ok tt
        → IsHeld
            (is_admin role)
            (not (is_admin role))
            s
            (sync_existing_workspace_role client uuid workspace_id user_id role s).1
    unfolding sync_existing_workspace_role
    existing-IsHeld configured admin_role s h =
        and_then_ok (IsHeld true false s) (delete_tuple_idempotently client (tuple member))
          (write_tuple_idempotently client (tuple admin)) s h
          (λ first second. (
            written_tuple (tuple admin) _ second,
            kept_by_write (tuple admin) (tuple member) _ apart.0
                ∙ deleted_tuple configured (tuple member) s first,
            λ k a m. kept_by_write (tuple admin) k _ a ∙ kept_by_delete (tuple member) k s m,
          ))
    existing-IsHeld configured member_role s h =
        and_then_ok (IsHeld false true s) (delete_tuple_idempotently client (tuple admin))
          (write_tuple_idempotently client (tuple member)) s h
          (λ first second. (
            kept_by_write (tuple member) (tuple admin) _ apart.1
                ∙ deleted_tuple configured (tuple admin) s first,
            written_tuple (tuple member) _ second,
            λ k a m. kept_by_write (tuple member) k _ m ∙ kept_by_delete (tuple admin) k s a,
          ))

    pub removed-IsHeld :
        (configured : Configured client) (s : client.Store)
        → (delete_workspace_role_tuples client uuid workspace_id user_id s).0 ≡ ok tt
        → IsHeld false false s (delete_workspace_role_tuples client uuid workspace_id user_id s).1
    unfolding delete_workspace_role_tuples
    removed-IsHeld configured s h =
        and_then_ok (IsHeld false false s) (delete_tuple_idempotently client (tuple admin))
          (delete_tuple_idempotently client (tuple member)) s h
          (λ first second. (
            kept_by_delete (tuple member) (tuple admin) _ apart.1
                ∙ deleted_tuple configured (tuple admin) s first,
            deleted_tuple configured (tuple member) _ second,
            λ k a m. kept_by_delete (tuple member) k _ m ∙ kept_by_delete (tuple admin) k s a,
          ))
