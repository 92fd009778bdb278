-- ===== src/Qdrant/Marks.antt =====
-- What one row of the Qdrant outbox comes to.
use hrm_grag.Db.{Result, World, err, ok}
use hrm_grag.Outbox.Marks.{IsJust, IsMarked, IsRefused, mark-IsJust, mark-IsMarked}
use hrm_grag.Outbox.Run.{process_row}
use hrm_grag.Outbox.Table.{RowOutcome, dead_row, has_id, processed_row}
use hrm_grag.Prelude.{
  All, List, Option, Option-cases, ap, count, inl, inr, none, refl, some, sym, true, ℕ, ◌<◌, ◌≡◌,
  ◌⊎◌,
}
use hrm_grag.Prelude.Int.{i32_max, pos}
use hrm_grag.Qdrant.Config.{
  QdrantOutboxEventType, QdrantOutboxProcessorConfig, delete_by_document, delete_by_workspace,
  delete_by_workspaces, parse,
}
use hrm_grag.Qdrant.Processor.{Client, attempt, attempt_row, attempted, process_single_row}
use hrm_grag.Qdrant.Rows.{Codec, Outbox, RetrievalError, Row}

module _ (codec : Codec) (client : Client) where
  abbrev pub Deletion : Type 0
  Deletion = client.Points → Result RetrievalError Unit × client.Points

  abbrev of_document : Option (ℕ × ℕ) → Option Deletion
  of_document none = none
  of_document (some (workspace_id, document_id)) =
      some (client.delete_points_by_document workspace_id document_id)

  abbrev of_workspace : Option ℕ → Option Deletion
  of_workspace none = none
  of_workspace (some workspace_id) = some (client.delete_points_by_workspace workspace_id)

  abbrev of_workspaces : Option (List ℕ) → Option Deletion
  of_workspaces none = none
  of_workspaces (some workspace_ids) = some (client.delete_points_by_workspaces workspace_ids)

  -- The deletion that an event and its payload name, or none if they cannot be read.
  abbrev pub named_deletion : Option QdrantOutboxEventType → codec.Value → Option Deletion
  named_deletion none payload = none
  named_deletion (some delete_by_document) payload = of_document (codec.decode_document payload)
  named_deletion (some delete_by_workspace) payload = of_workspace (codec.decode_workspace payload)
  named_deletion (some delete_by_workspaces) payload =
      of_workspaces (codec.decode_workspaces payload)

  -- What becomes of a row that had failed `count` times, and of the points.
  abbrev pub IsHandled :
      ℕ → ℕ → Option Deletion → client.Points → client.Points → RowOutcome → Type 0
  IsHandled count limit none points points' o = (o ≡ dead_row) × (points' ≡ points)
  IsHandled count limit (some deletion) points points' o =
      (points' ≡ (deletion points).1)
      × (((deletion points).0 ≡ ok tt) × (o ≡ processed_row)
          ⊎ (e : RetrievalError) × ((deletion points).0 ≡ err e) × IsRefused count limit o)

  attempted-IsHandled :
      (count limit : ℕ) (deletion : Deletion) (points : client.Points) (o : RowOutcome)
      (r : Result RetrievalError Unit × client.Points)
      → deletion points ≡ r
      → IsJust count limit (attempted codec client r).0 o
      → IsHandled count limit (some deletion) points (attempted codec client r).1 o
  attempted-IsHandled count limit deletion points o (ok u, points') q h =
      (ap (λ x. x.1) (sym q), inl (ap (λ x. x.0) q, h))
  attempted-IsHandled count limit deletion points o (err e, points') q h =
      (ap (λ x. x.1) (sym q), inr (e, ap (λ x. x.0) q, h))

  attempt-IsHandled :
      (count limit : ℕ) (event : Option QdrantOutboxEventType) (payload : codec.Value)
      (points : client.Points) (o : RowOutcome)
      → IsJust count limit (attempt codec client event payload points).0 o
      → IsHandled count limit
          (named_deletion event payload)
          points
          (attempt codec client event payload points).1
          o
  attempt-IsHandled count limit none payload points o h = (h, refl)
  attempt-IsHandled count limit (some delete_by_document) payload points o h =
      elim (Option-cases (codec.decode_document payload)) [
        | inl q ↦ rw q ((rw q at h), refl)
        | inr ((workspace_id, document_id), q) ↦ rw q (
            attempted-IsHandled count limit
              (client.delete_points_by_document workspace_id document_id) points o _ refl
              (rw q at h))
      ]
  attempt-IsHandled count limit (some delete_by_workspace) payload points o h =
      elim (Option-cases (codec.decode_workspace payload)) [
        | inl q ↦ rw q ((rw q at h), refl)
        | inr (workspace_id, q) ↦ rw q (
            attempted-IsHandled count limit (client.delete_points_by_workspace workspace_id) points
              o _ refl (rw q at h))
      ]
  attempt-IsHandled count limit (some delete_by_workspaces) payload points o h =
      elim (Option-cases (codec.decode_workspaces payload)) [
        | inl q ↦ rw q ((rw q at h), refl)
        | inr (workspace_ids, q) ↦ rw q (
            attempted-IsHandled count limit (client.delete_points_by_workspaces workspace_ids)
              points o _ refl (rw q at h))
      ]

  -- A row that had failed `count` times is tried, and its outcome is written. If its event and
  -- payload cannot be read, it is dead and no point is touched. Else the deletion that they name
  -- is done; the row is processed exactly if it was accepted, and a refusal leaves it failed as
  -- long as one more failure stays below the limit, and dead otherwise. The row in the table
  -- says so: it is processed without an error, failed with a message, or dead with one.
  pub process-IsHandled :
      (config : QdrantOutboxProcessorConfig) (row : Row codec) (w : World (Outbox codec))
      (points : client.Points) (o : RowOutcome) (count limit : ℕ)
      → row.retry_count ≡ pos count
      → config.max_retries ≡ pos limit
      → count < i32_max
      → (process_single_row codec client config row (w, points)).0 ≡ ok o
      → IsHandled count limit
          (named_deletion (parse row.event_type) row.payload)
          points
          (process_single_row codec client config row (w, points)).1.1
          o
        × All
            (λ r. has_id codec.Value row.id r ≡ true → IsMarked o r)
            (process_single_row codec client config row (w, points)).1.0.db.rows
  unfolding process_single_row process_row
  process-IsHandled config row w points o count limit q q' bound h = (
    attempt-IsHandled count limit (parse row.event_type) row.payload points o (
        mark-IsJust codec.Value client.Points (attempt_row codec client) config row
          (attempt_row codec client row points).0 w o count limit q q' bound h),
    mark-IsMarked codec.Value client.Points (attempt_row codec client) config row
        (attempt_row codec client row points).0 w o h,
  )
