-- ===== src/Storage/Scan.antt =====
-- What a scan for orphans deletes.
use hrm_grag.Db.{World}
use hrm_grag.Prelude.{List, any, false, true, ◌≡◌}
use hrm_grag.Prelude.Text.{Text, text_eq}
use hrm_grag.Storage.Cleanup.{Document, StorageCleanupOptions, Tables}
use hrm_grag.Storage.Client.{S3}
use hrm_grag.Storage.Deletion.{Laws}
use hrm_grag.Storage.Listing.{Paging}
use hrm_grag.Storage.Orphans.{Point, State, delete_orphans}

module _ (s3 : S3) (laws : Laws s3) (paging : Paging s3) (b k : Text) where
  abbrev pub IsUnnamed : List Document → Text → Type 0
  IsUnnamed rows key = any (λ (d : Document). text_eq key d.object_key) rows ≡ false

  abbrev pub IsRemovable : Text → StorageCleanupOptions → List Document → Type 0
  IsRemovable bucket options rows =
      (b ≡ bucket)
      × (options.allow_delete ≡ true)
      × (options.delete_orphans ≡ true)
      × IsUnnamed rows k

  -- What others do meanwhile removes no object: they add some, and write the tables as they like.
  abbrev pub OnlyAdds : (Point → State s3 paging → State s3 paging) → Type 0
  OnlyAdds others =
      (p : Point) (w : World Tables) (o : s3.Objects)
      → laws.has b k o ≡ true
      → laws.has b k (others p (w, o)).1 ≡ true
