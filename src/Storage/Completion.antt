-- ===== src/Storage/Completion.antt =====
-- The run over the storage outbox comes to an end.
use hrm_grag.Db.{SqlError, World}
use hrm_grag.Outbox.Run.{default_result}
use hrm_grag.Outbox.Termination.{process_until_ends}
use hrm_grag.Outbox.Unseen.{unseen_none}
use hrm_grag.Prelude.{Bool, [], false, length, none, ℕ, ◌<◌, ◌≢◌}
use hrm_grag.Prelude.Text.{Text, Uuid}
use hrm_grag.Storage.Client.{S3}
use hrm_grag.Storage.Listing.{Paging}
use hrm_grag.Storage.Processor.{attempt_row, process_storage_outbox}
use hrm_grag.Storage.Rows.{Codec, Outbox, Row}
use hrm_grag.Storage.Settings.{StorageOutboxProcessorConfig}

module _ (codec : Codec) (s3 : S3) (paging : Paging s3) (show_sql : SqlError → Text) (uuid : Uuid)
    (config : StorageOutboxProcessorConfig) where
  -- The loop ends, whatever S3 and the database answer: with more fuel than there are rows it does
  -- not run out, even where no row ever leaves the queue. A truncated listing is assumed to have
  -- less left on each page.
  pub storage_run_ends :
      (fuel : ℕ) (locked : ℕ → ℕ → Bool) (w : World (Outbox codec)) (o : s3.Objects)
      → length w.db.rows < fuel
      → process_storage_outbox codec s3 paging show_sql uuid fuel locked config (w, o) ≢ none
  unfolding process_storage_outbox
  storage_run_ends fuel locked w o h =
      process_until_ends codec.Value s3.Objects (attempt_row codec s3 paging show_sql uuid) config
        fuel (λ k. false) locked [] default_result w o
        (unseen_none (λ (r : Row codec). r.id) fuel w.db.rows h)
