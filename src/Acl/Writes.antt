-- ===== src/Acl/Writes.antt =====
-- The writes of `set_document_access_mode`, where all of them have worked.
use hrm_grag.Acl.{
  AclError, AuditEvent, Document, DocumentAccessMode, Share, State, Tables, access_mode_changed,
  explicit_viewer_tuple, fga, mode_str, restricted, return_op, sql, workspace_default,
}
use hrm_grag.Acl.Change.{
  apply_mode, clean_shares, delete_shares, insert_audit, is_document, mode_of, record_event,
  select_shares, set_mode, share_rows, share_user_ids, shares_to_clean, update_mode,
}
use hrm_grag.Acl.Steps.{fga-ok, sql-total, try_then-ok}
use hrm_grag.Authz.{Client, Laws, TupleKey, delete_tuples_fga_first}
use hrm_grag.Db.{End, Result, commit, ok}
use hrm_grag.Db.Atomic.{ok-injective}
use hrm_grag.Prelude.{
  Bool-cases, List, Option, [], ap, inl, inr, length, map, none, not, refl, select, some, sym,
  update_where, ℕ, ◌++◌, ◌==◌, ◌∙◌, ◌∷◌, ◌≡◌,
}
use hrm_grag.Prelude.Text.{Text, Uuid}

module _ (document_id workspace_id : ℕ) where
  -- The tuples that a mode takes back, and the shares that it keeps.
  abbrev pub taken_back : Uuid → DocumentAccessMode → List Share → List TupleKey
  taken_back uuid workspace_default shares =
      map (explicit_viewer_tuple uuid document_id) (share_user_ids document_id shares)
  taken_back uuid restricted shares = []

  abbrev pub kept_shares : DocumentAccessMode → List Share → List Share
  kept_shares workspace_default shares =
      select (λ (x : Share). not (x.document_id == document_id)) shares
  kept_shares restricted shares = shares

  pub mode_of-update :
      (mode : DocumentAccessMode) (raw : Text) (ds : List Document)
      → mode_of document_id workspace_id ds ≡ some raw
      → mode_of document_id workspace_id (
          update_where
            (is_document document_id workspace_id)
            (λ d. record d { access_mode = mode_str mode })
            ds)
        ≡ some (mode_str mode)
  mode_of-update mode raw [] h = let contrary : none ≡ some raw = h in cc
  mode_of-update mode raw (d ∷ ds) h = elim (Bool-cases (is_document document_id workspace_id d)) [
    | inl q ↦ rw q (rw q refl)
    | inr q ↦ rw q (rw q (mode_of-update mode raw ds (rw q at h)))
  ]

module _ (client : Client) (laws : Laws client) (uuid : Uuid) (document_id workspace_id : ℕ)
    (mode : DocumentAccessMode) (actor : Text) where
  -- The tables that the writes of one change make of those before.
  abbrev pub with_mode : Tables → Tables
  with_mode t = record t {
    documents =
        update_where (is_document document_id workspace_id)
          (λ d. record d { access_mode = mode_str mode }) t.documents;
  }

  abbrev pub with_shares : Tables → Tables
  with_shares t = record t { shares = kept_shares document_id workspace_id mode t.shares }

  abbrev pub with_event : AuditEvent → Tables → Tables
  with_event event t = record t { audit = t.audit ++ event ∷ [] }

  -- A run that has committed these tables and left OpenFGA as it was.
  abbrev pub Committed :
      Result AclError (End (Option Unit)) × State client → Tables → client.Store → Type 0
  Committed x t s = (x.0 ≡ ok (commit (some tt))) × (x.1.0.db ≡ t) × (x.1.1 ≡ s)

  -- The deletion of the shares, if the mode asks for it.
  shares-ok :
      (m : DocumentAccessMode) (st : State client)
      → (share_rows client uuid document_id m st).0 ≡ ok tt
      → ((share_rows client uuid document_id m st).1.0.db
          ≡ record st.0.db { shares = kept_shares document_id workspace_id m st.0.db.shares })
        × ((share_rows client uuid document_id m st).1.1 ≡ st.1)
  shares-ok workspace_default st h =
      let (q, same, e) = sql-total client (delete_shares document_id) st tt tt _ refl h in (q, same)
  shares-ok restricted st h = (refl, refl)

  record_event-ok :
      (event : AuditEvent) (st : State client) (b : End (Option Unit))
      → (record_event client uuid event st).0 ≡ ok b
      → Committed (record_event client uuid event st) (with_event event st.0.db) st.1
  record_event-ok event st b h =
      let (u, f, e) =
        try_then-ok client (sql client (insert_audit event))
          (λ u. return_op client (commit (some tt))) st b h in
      let (q, same, c) = sql-total client (insert_audit event) st u tt _ refl f in
      rw e (refl, q, same)

  clean_shares-ok :
      (event : AuditEvent) (st : State client) (b : End (Option Unit))
      → (clean_shares client uuid document_id mode event st).0 ≡ ok b
      → Committed
          (clean_shares client uuid document_id mode event st)
          (with_event event (with_shares st.0.db))
          st.1
  clean_shares-ok event st b h =
      let (u, f, e) =
        try_then-ok client (share_rows client uuid document_id mode)
          (λ u. record_event client uuid event) st b h in
      let st' = (share_rows client uuid document_id mode st).1 in
      let (r, q', same') = record_event-ok event st' b (ap (λ x. x.0) (sym e) ∙ h) in
      let (q, same) = shares-ok mode st f in rw e (r, q' ∙ ap (with_event event) q, same' ∙ same)

  set_mode-ok :
      (event : AuditEvent) (st : State client) (b : End (Option Unit))
      → (set_mode client uuid document_id workspace_id mode event st).0 ≡ ok b
      → Committed
          (set_mode client uuid document_id workspace_id mode event st)
          (with_event event (with_shares (with_mode st.0.db)))
          st.1
  set_mode-ok event st b h =
      let (u, f, e) =
        try_then-ok client (sql client (update_mode document_id workspace_id mode))
          (λ u. clean_shares client uuid document_id mode event) st b h in
      let st' = (sql client (update_mode document_id workspace_id mode) st).1 in
      let (r, q', same') = clean_shares-ok event st' b (ap (λ x. x.0) (sym e) ∙ h) in
      let (q, same, c) =
        sql-total client (update_mode document_id workspace_id mode) st u tt _ refl f in
      rw e (r, q' ∙ ap (λ t. with_event event (with_shares t)) q, same' ∙ same)

  pub apply_mode-ok :
      (previous : DocumentAccessMode) (user_ids : List Text) (st : State client)
      (b : End (Option Unit))
      → (apply_mode client uuid document_id workspace_id mode actor previous user_ids st).0 ≡ ok b
      → ((delete_tuples_fga_first client
            (map (explicit_viewer_tuple uuid document_id) user_ids)
            st.1).0
          ≡ ok tt)
        × Committed
            (apply_mode client uuid document_id workspace_id mode actor previous user_ids st)
            (with_event
              (access_mode_changed actor workspace_id document_id previous mode (length user_ids))
              (with_shares (with_mode st.0.db)))
            (delete_tuples_fga_first client
              (map (explicit_viewer_tuple uuid document_id) user_ids)
              st.1).1
  apply_mode-ok previous user_ids st b h =
      let requests =
        delete_tuples_fga_first client (map (explicit_viewer_tuple uuid document_id) user_ids) in
      let event =
        access_mode_changed actor workspace_id document_id previous mode (length user_ids) in
      let (u, f, e) =
        try_then-ok client (fga client requests)
          (λ u. set_mode client uuid document_id workspace_id mode event) st b h in
      let st' = (fga client requests st).1 in
      let (r, q', same') = set_mode-ok event st' b (ap (λ x. x.0) (sym e) ∙ h) in
      let (d, m) = fga-ok client requests st f in
      (
        d,
        rw e (
          r,
          q' ∙ ap (λ x. with_event event (with_shares (with_mode x.0.db))) m,
          same' ∙ ap (λ x. x.1) m,
        ),
      )

  -- The users whose tuples go are those of the shares before the change.
  pub shares_to_clean-ok :
      (m : DocumentAccessMode) (st : State client) (ids : List Text)
      → (shares_to_clean client uuid document_id m st).0 ≡ ok ids
      → (map (explicit_viewer_tuple uuid document_id) ids
          ≡ taken_back document_id workspace_id uuid m st.0.db.shares)
        × ((shares_to_clean client uuid document_id m st).1.0.db ≡ st.0.db)
        × ((shares_to_clean client uuid document_id m st).1.1 ≡ st.1)
  shares_to_clean-ok workspace_default st ids h =
      let (q, same, e) = sql-total client (select_shares document_id) st ids _ _ refl h in
      (ap (map (explicit_viewer_tuple uuid document_id)) e, q, same)
  shares_to_clean-ok restricted st ids h =
      (ap (map (explicit_viewer_tuple uuid document_id)) (sym (ok-injective h)), refl, refl)
