-- ===== src/Acl/Agreement.antt =====
-- The list of the documents that a user sees, and the check of a single one, agree.
use hrm_grag.Acl.{
  AclError, DocumentAccessMode, DocumentAclRow, Reader, format_user, is_restricted, restricted,
  workspace_default,
}
use hrm_grag.Acl.Listing.{Agrees, Answers, IsUuid, IsWhole, restricted-Agrees}
use hrm_grag.Acl.Viewing.{
  can_user_view_document, collect_viewable_document_ids, collect_viewable_restricted_document_ids,
  row_ids,
}
use hrm_grag.Authz.{Client}
use hrm_grag.Db.{err, ok}
use hrm_grag.Db.Atomic.{ok-injective}
use hrm_grag.Db.Kept.{Result-cases}
use hrm_grag.Prelude.{
  ==_iff, All, Bool, Bool-cases, List, [], any, ap, arith, false, if◌then◌else◌, inl, inr, is_empty,
  not, refl, select, sym, true, ℕ, ◌++◌, ◌==◌, ◌∙◌, ◌∷◌, ◌≡◌, ◌⊎◌,
}
use hrm_grag.Prelude.Text.{Text, Uuid}
use hrm_grag.Updates.{any-append, any-is_empty, any-select}

mode_cases : (m : DocumentAccessMode) → (m ≡ workspace_default) ⊎ (m ≡ restricted)
mode_cases workspace_default = inl refl
mode_cases restricted = inr refl

module _ (client : Client) (reader : Reader client) (uuid : Uuid)
    (answers : Answers client reader uuid) where
  -- A row of another document leaves this one out of both lists of rows.
  row_ids-other :
      (id : ℕ) (r : Bool) (ds : List DocumentAclRow)
      → All (λ (d : DocumentAclRow). d.document_id == id ≡ false) ds
      → any (λ i. i == id) (row_ids client reader uuid r ds) ≡ false
  row_ids-other id r [] n = refl
  row_ids-other id r (d ∷ ds) n =
      let rest = row_ids-other id r ds n.1 in
      elim (mode_cases d.access_mode) [
        | inl q ↦ rw (q, row_ids) (ground (arith, rest, n.0))
        | inr q ↦ rw (q, row_ids) (ground (arith, rest, n.0))
      ]

  -- Of the one row of a document, its mode says which list it is in.
  row_ids-here :
      (r : Bool) (front : List DocumentAclRow) (d : DocumentAclRow) (back : List DocumentAclRow)
      → All (λ (o : DocumentAclRow). o.document_id == d.document_id ≡ false) front
      → All (λ (o : DocumentAclRow). o.document_id == d.document_id ≡ false) back
      → any (λ i. i == d.document_id) (row_ids client reader uuid r (front ++ d ∷ back))
        ≡ (if is_restricted d.access_mode then r else not r)
  row_ids-here r [] d back n m =
      let rest = row_ids-other d.document_id r back m in
      let here : d.document_id == d.document_id ≡ true =
        (==_iff d.document_id d.document_id).1 refl in
      elim (mode_cases d.access_mode) [
        | inl q ↦ rw (q, row_ids) (ground (arith, rest, here))
        | inr q ↦ rw (q, row_ids) (ground (arith, rest, here))
      ]
  row_ids-here r (o ∷ front) d back n m =
      let rest = row_ids-here r front d back n.1 m in
      elim (mode_cases o.access_mode) [
        | inl q ↦ rw (q, row_ids) (ground (arith, rest, n.0))
        | inr q ↦ rw (q, row_ids) (ground (arith, rest, n.0))
      ]

  abbrev chosen : List ℕ → List ℕ → List ℕ
  chosen restricted_ids ids = select (λ id. any (λ r. r == id) restricted_ids) ids

  -- What a list of the visible documents is made of.
  collected :
      (user_id : Text) (documents : List DocumentAclRow) (s : client.Store) (ids : List ℕ)
      → collect_viewable_document_ids client reader uuid user_id documents s ≡ ok ids
      → (is_empty (row_ids client reader uuid true documents) ≡ true)
          × (ids ≡ row_ids client reader uuid false documents)
        ⊎ (more : List ℕ) × (collect_viewable_restricted_document_ids client reader uuid user_id s
            ≡ ok more)
          × (ids
              ≡ row_ids client reader uuid false documents
                ++ chosen (row_ids client reader uuid true documents) more)
  unfolding collect_viewable_document_ids
  collected user_id documents s ids h =
      elim (Bool-cases (is_empty (row_ids client reader uuid true documents))) [
        | inl q ↦ inl (q, sym (ok-injective (rw (q, collect_viewable_document_ids) at h)))
        | inr q ↦
            elim (Result-cases
              (collect_viewable_restricted_document_ids client reader uuid user_id s)) [
                | inl (x, e) ↦
                    let contrary : err x ≡ ok ids = rw (q, e, collect_viewable_document_ids) at h in
                    cc
                | inr (more, e) ↦
                    inr
                      (more, e, sym (ok-injective (rw (q, e, collect_viewable_document_ids) at h)))
              ]
      ]

  viewable-Agrees :
      (user_id : Text) (front : List DocumentAclRow) (d : DocumentAclRow)
      (back : List DocumentAclRow) (s : client.Store) (ids : List ℕ) (b : Bool)
      → All (λ (o : DocumentAclRow). o.document_id == d.document_id ≡ false) front
      → All (λ (o : DocumentAclRow). o.document_id == d.document_id ≡ false) back
      → IsUuid d.document_id
      → collect_viewable_document_ids client reader uuid user_id (front ++ d ∷ back) s ≡ ok ids
      → can_user_view_document client reader uuid user_id d.document_id d.access_mode s ≡ ok b
      → Agrees
          (IsWhole client reader uuid (format_user user_id) s)
          (any (λ i. i == d.document_id) ids)
          b
  unfolding can_user_view_document
  viewable-Agrees user_id front d back s ids b n m v h checked =
      let open_ids = row_ids-here false front d back n m in
      let closed_ids = row_ids-here true front d back n m in
      elim (mode_cases d.access_mode) [
        | inl q ↦
            let allowed : true ≡ b = ok-injective {E = AclError} (
              sym (ap (λ m. can_user_view_document client reader uuid user_id d.document_id m s) q)
              ∙ checked) in
            let listed = open_ids ∙ ap (λ m. if is_restricted m then false else not false) q in
            elim (collected user_id (front ++ d ∷ back) s ids h) [
              | inl c ↦ rw (c.1, listed, ← allowed) (λ l. refl, λ w y. refl)
              | inr (more, c, e) ↦
                  rw (e, any-append d.document_id, listed, ← allowed) (λ l. refl, λ w y. refl)
            ]
        | inr q ↦
            let unlisted = open_ids ∙ ap (λ m. if is_restricted m then false else not false) q in
            let listed = closed_ids ∙ ap (λ m. if is_restricted m then true else not true) q in
            elim (collected user_id (front ++ d ∷ back) s ids h) [
              | inl c ↦ let contrary = any-is_empty d.document_id _ listed in cc
              | inr (more, c, e) ↦
                  rw
                    (
                      e,
                      any-append d.document_id,
                      unlisted,
                      any-select d.document_id
                          (λ id.
                            any (λ r. r == id)
                              (row_ids client reader uuid true (front ++ d ∷ back)))
                          more listed,
                    )
                    (restricted-Agrees client reader uuid answers user_id s more d.document_id b v c
                      (sym (
                          ap
                            (λ m.
                              can_user_view_document client reader uuid user_id d.document_id m s)
                            q)
                        ∙ checked))
            ]
      ]

  -- If UUID text is read back, and OpenFGA lists only objects that its checks allow: of a
  -- document with exactly one row, the list of visible documents has it only if the check of
  -- that document alone allows it, where both answer.
  pub viewable_allowed :
      (user_id : Text) (front : List DocumentAclRow) (d : DocumentAclRow)
      (back : List DocumentAclRow) (s : client.Store) (ids : List ℕ) (b : Bool)
      → All (λ (o : DocumentAclRow). o.document_id == d.document_id ≡ false) front
      → All (λ (o : DocumentAclRow). o.document_id == d.document_id ≡ false) back
      → IsUuid d.document_id
      → collect_viewable_document_ids client reader uuid user_id (front ++ d ∷ back) s ≡ ok ids
      → can_user_view_document client reader uuid user_id d.document_id d.access_mode s ≡ ok b
      → any (λ i. i == d.document_id) ids ≡ true
      → b ≡ true
  viewable_allowed user_id front d back s ids b n m v h checked =
      (viewable-Agrees user_id front d back s ids b n m v h checked).0

  -- If UUID text is read back, and OpenFGA lists only objects that its checks allow, and its
  -- lists for this user are not cut off at its limit of results or its deadline: of a document with
  -- exactly one row, the list of visible documents has it exactly if the check of that document
  -- alone allows it, where both answer.
  pub viewable_agree :
      (user_id : Text) (front : List DocumentAclRow) (d : DocumentAclRow)
      (back : List DocumentAclRow) (s : client.Store) (ids : List ℕ) (b : Bool)
      → All (λ (o : DocumentAclRow). o.document_id == d.document_id ≡ false) front
      → All (λ (o : DocumentAclRow). o.document_id == d.document_id ≡ false) back
      → IsUuid d.document_id
      → IsWhole client reader uuid (format_user user_id) s
      → collect_viewable_document_ids client reader uuid user_id (front ++ d ∷ back) s ≡ ok ids
      → can_user_view_document client reader uuid user_id d.document_id d.access_mode s ≡ ok b
      → any (λ i. i == d.document_id) ids ≡ b
  viewable_agree user_id front d back s ids b n m v whole h checked =
      let (there, back_again) = viewable-Agrees user_id front d back s ids b n m v h checked in
      ground (arith, there, back_again whole)
