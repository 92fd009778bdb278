-- ===== src/Storage/Listing.antt =====
-- The listing of gmrag_api/src/storage/mod.rs comes to an end, and so is a total function.
use hrm_grag.Db.{ok}
use hrm_grag.Db.Kept.{Result-cases}
use hrm_grag.Outbox.{unwrap_or}
use hrm_grag.Prelude.{
  Bool-cases, List, Option, Option-cases, [], arith, false, inl, inr, none, refl, some, suc, zero,
  ℕ, ◌<◌, ◌≡◌, ◌≢◌,
}
use hrm_grag.Prelude.Text.{Text}
use hrm_grag.Storage.Client.{Call, Page, S3, list_pages}

-- What the documentation of S3 promises of a truncated listing: a continuation token leads on to
-- what remains, and something less remains. `remaining` says how much.
pub record Paging (s3 : S3) : Type 0 where
  pub remaining : Text → Option Text → Option Text → s3.Objects → ℕ
  pub progress :
      (bucket : Text) (prefix token : Option Text) (o : s3.Objects) (page : Page) (next : Text)
      → (s3.list_objects_v2 bucket prefix token o).0 ≡ ok page
      → page.next_continuation_token ≡ some next
      → remaining bucket prefix (some next) (s3.list_objects_v2 bucket prefix token o).1
        < remaining bucket prefix token o

-- The value of an `Option` that is not `none`.
abbrev pub value_of {ℓ} : {A : Type ℓ} → (o : Option A) → o ≢ none → A
value_of none h = elim (h refl) [ ]
value_of (some a) h = a

module _ (s3 : S3) (paging : Paging s3) where
  -- The loop over the pages of a listing ends: fuel for what remains is enough.
  pub list_pages_ends :
      (fuel : ℕ) (bucket : Text) (prefix token : Option Text) (keys : List Text) (o : s3.Objects)
      → paging.remaining bucket prefix token o < fuel
      → list_pages s3 fuel bucket prefix token keys o ≢ none
  unfolding list_pages
  list_pages_ends zero bucket prefix token keys o h = ground arith
  list_pages_ends (suc fuel) bucket prefix token keys o h =
      elim (Result-cases (s3.list_objects_v2 bucket prefix token o).0) [
        | inl (e, q) ↦ rw (q, list_pages) (λ n. cc)
        | inr (page, q) ↦ elim (Bool-cases (unwrap_or false page.is_truncated)) [
          | inr last ↦ rw (q, last, list_pages) (λ n. cc)
          | inl more ↦ elim (Option-cases page.next_continuation_token) [
            | inl stop ↦ rw (q, more, stop, list_pages) (λ n. cc)
            | inr (next, go) ↦
                rw (q, more, go, list_pages)
                  (list_pages_ends fuel bucket prefix (some next) _ _
                    (omega (arith, paging.progress bucket prefix token o page next q go)))
          ]
        ]
      ]

  -- `list_objects_in_bucket`
  unfoldable pub list_objects_in_bucket : Text → Option Text → Call s3 (List Text)
  unfolding list_pages
  list_objects_in_bucket bucket prefix o =
      let fuel = suc (paging.remaining bucket prefix none o) in
      value_of (list_pages s3 fuel bucket prefix none [] o)
        (list_pages_ends fuel bucket prefix none [] o (omega arith))
