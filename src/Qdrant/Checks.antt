-- ===== src/Qdrant/Checks.antt =====
-- Examples for gmrag_api/src/retrieval/outbox.rs.
use hrm_grag.Db.{World, autocommit, err, ok, statement}
use hrm_grag.Outbox.{disposition_after_failure}
use hrm_grag.Outbox.Marks.{IsMarked}
use hrm_grag.Outbox.Run.{process_row}
use hrm_grag.Outbox.Table.{
  dead_row, failed_row, has_id, mark_outbox_row_failure, mark_outbox_row_processed, processed_row,
  row_pending,
}
use hrm_grag.Prelude.{
  All, List, [], arith, false, none, not, refl, select, some, true, ℕ, ◌==◌, ◌∷◌, ◌≡◌, ◌≢◌,
}
use hrm_grag.Prelude.Int.{pos}
use hrm_grag.Prelude.Text.{
  Text, codes, is_whitespace, text_eq, to_ascii_lowercase, trim, trim_end, trim_start,
}
use hrm_grag.Qdrant.Completion.{qdrant_run_ends}
use hrm_grag.Qdrant.Config.{default_config, parse}
use hrm_grag.Qdrant.Marks.{IsHandled, named_deletion, process-IsHandled}
use hrm_grag.Qdrant.Processor.{Client, process_qdrant_outbox_until, process_single_row}
use hrm_grag.Qdrant.Rows.{Codec, Outbox, Row, timeout}

abbrev codec : Codec
codec = record {
  Value = List ℕ;
  encode_document = λ w d. w ∷ d ∷ [];
  encode_workspace = λ w. w ∷ [];
  encode_workspaces = λ ws. ws;
  decode_document = λ v. elim v [ [] ↦ none | w ∷ r ↦ elim r [ [] ↦ none | d ∷ r' ↦ some (w, d) ] ];
  decode_workspace = λ v. elim v [ [] ↦ none | w ∷ r ↦ some w ];
  decode_workspaces = λ v. some v;
}

-- The points are the documents that have any.
abbrev client : Client
client = record {
  Points = List ℕ;
  delete_points_by_document = λ w d points. (ok tt, select (λ p. not (p == d)) points);
  delete_points_by_workspace = λ w points. (ok tt, []);
  delete_points_by_workspaces = λ ws points. (ok tt, []);
}

abbrev row : Text → Row codec
row event = record {
  id = 1;
  event_type = event;
  payload = 3 ∷ 7 ∷ [];
  status = row_pending;
  retry_count = pos 0;
  next_attempt_at = 0;
  error_message = none;
  created_at = 0;
  updated_at = 0;
}

abbrev world : Text → World (Outbox codec)
world event = record { db = record { rows = row event ∷ []; next_uuid = 2 }; now = 10; env = [] }

abbrev delete_event : Text
delete_event = codes " DELETE_by_document"

processed_run :
    (process_single_row codec client default_config
      (row delete_event)
      (world delete_event, 7 ∷ 8 ∷ [])).0
    ≡ ok processed_row
unfolding process_single_row process_row parse trim trim_start trim_end is_whitespace
    to_ascii_lowercase text_eq mark_outbox_row_processed autocommit statement
processed_run = refl

unknown : parse (codes "drop") ≡ none
unfolding parse trim trim_start trim_end is_whitespace to_ascii_lowercase text_eq
unknown = refl

dead_run :
    (process_single_row codec client default_config
      (row (codes "drop"))
      (world (codes "drop"), 7 ∷ [])).0
    ≡ ok dead_row
unfolding process_single_row process_row parse trim trim_start trim_end is_whitespace
    to_ascii_lowercase text_eq mark_outbox_row_failure disposition_after_failure autocommit
    statement
dead_run = refl

-- A server that takes too long.
abbrev down : Client
down = record client { delete_points_by_document = λ w d points. (err (timeout 5), points) }

failed_run :
    (process_single_row codec down default_config
      (row delete_event)
      (world delete_event, 7 ∷ 8 ∷ [])).0
    ≡ ok failed_row
unfolding process_single_row process_row parse trim trim_start trim_end is_whitespace
    to_ascii_lowercase text_eq mark_outbox_row_failure disposition_after_failure autocommit
    statement
failed_run = refl

process-IsHandled_example :
    IsHandled codec down 0 5
      (named_deletion codec down (parse delete_event) (3 ∷ 7 ∷ []))
      (7 ∷ 8 ∷ [])
      (process_single_row codec down default_config
        (row delete_event)
        (world delete_event, 7 ∷ 8 ∷ [])).1.1
      failed_row
    × All
        (λ r. has_id codec.Value 1 r ≡ true → IsMarked failed_row r)
        (process_single_row codec down default_config
          (row delete_event)
          (world delete_event, 7 ∷ 8 ∷ [])).1.0.db.rows
process-IsHandled_example =
    process-IsHandled codec down default_config (row delete_event) (world delete_event) (7 ∷ 8 ∷ [])
      failed_row 0 5 refl refl (omega arith) failed_run

qdrant_run_ends_example :
    process_qdrant_outbox_until codec client 2
      (λ k. false)
      (λ k id. false)
      default_config
      (world delete_event, 7 ∷ [])
    ≢ none
qdrant_run_ends_example =
    qdrant_run_ends codec client default_config 2 (λ k. false) (λ k id. false) (world delete_event)
      (7 ∷ []) (omega arith)
