-- ===== src/Storage/Deletion.antt =====
-- Which objects the client of gmrag_api/src/storage/mod.rs deletes, under what S3 documents of its
-- requests.
use hrm_grag.Db.{Result, err, ok}
use hrm_grag.Db.Kept.{Result-cases}
use hrm_grag.Outbox.{unwrap_or}
use hrm_grag.Prelude.{
  All, All-append, Bool, Bool-cases, List, Option, Option-cases, [], any, ap, arith, false, inl,
  inr, length, none, refl, some, suc, true, zero, ℕ, ◌++◌, ◌+◌, ◌||◌, ◌∙◌, ◌∷◌, ◌≡◌, ◌≢◌, ◌≤◌,
}
use hrm_grag.Prelude.Text.{Text, starts_with, text_eq, text_eq_iff}
use hrm_grag.Storage.Client.{
  Page, S3, StorageError, chunks_1000, delete_chunks, delete_object_in_bucket,
  delete_objects_in_bucket, first_error, keys_of, list_pages, map_err, pieces,
}
use hrm_grag.Storage.Listing.{Paging, list_objects_in_bucket, list_pages_ends, value_of}

-- A request alone does what it says: reading changes nothing, a listing stays below its prefix, and
-- a deletion removes nothing but the keys that it names, from the bucket that it names.
pub record Laws (s3 : S3) : Type 0 where
  pub has : Text → Text → s3.Objects → Bool
  pub head_keeps :
      (b k bucket key : Text) (o : s3.Objects) → has b k (s3.head_object bucket key o).1 ≡ has b k o
  pub list_keeps :
      (b k bucket : Text) (prefix token : Option Text) (o : s3.Objects)
      → has b k (s3.list_objects_v2 bucket prefix token o).1 ≡ has b k o
  pub list_below :
      (bucket prefix : Text) (token : Option Text) (o : s3.Objects) (page : Page)
      → (s3.list_objects_v2 bucket (some prefix) token o).0 ≡ ok page
      → All (λ key. starts_with prefix key ≡ true) (keys_of page.contents)
  pub delete_only :
      (b k bucket key : Text) (o : s3.Objects)
      → has b k o ≡ true
      → has b k (s3.delete_object bucket key o).1 ≡ false
      → (b ≡ bucket) × (k ≡ key)
  pub delete_named :
      (b k bucket : Text) (keys : List Text) (o : s3.Objects)
      → has b k o ≡ true
      → has b k (s3.delete_objects bucket keys o).1 ≡ false
      → (b ≡ bucket) × (any (text_eq k) keys ≡ true)

abbrev concat : List (List Text) → List Text
concat [] = []
concat (c ∷ cs) = c ++ concat cs

concat-pieces :
    (room : ℕ) (xs : List Text) → (pieces 999 room xs).0 ++ concat (pieces 999 room xs).1 ≡ xs
concat-pieces room [] = refl
concat-pieces zero (x ∷ xs) = ap (λ l. x ∷ l) (concat-pieces 999 xs)
concat-pieces (suc room) (x ∷ xs) = ap (λ l. x ∷ l) (concat-pieces room xs)

-- The first piece has the room that was left, and the later ones are not longer than the size.
pieces-le :
    (room : ℕ) (xs : List Text)
    → (length (pieces 999 room xs).0 ≤ room) × All (λ c. length c ≤ 1000) (pieces 999 room xs).1
pieces-le room [] = (omega arith, tt)
pieces-le zero (x ∷ xs) = (omega arith, (omega (arith, (pieces-le 999 xs).0), (pieces-le 999 xs).1))
pieces-le (suc room) (x ∷ xs) = (omega (arith, (pieces-le room xs).0), (pieces-le room xs).1)

-- The requests of a batch deletion name every key once, in order, and none names more than 1000.
pub chunks_exact :
    (keys : List Text)
    → (concat (chunks_1000 keys) ≡ keys) × All (λ c. length c ≤ 1000) (chunks_1000 keys)
unfolding chunks_1000
chunks_exact [] = (refl, tt)
chunks_exact (x ∷ xs) = (concat-pieces 0 (x ∷ xs), (pieces-le 0 (x ∷ xs)).1)

any-append :
    (k : Text) (xs ys : List Text)
    → any (text_eq k) (xs ++ ys) ≡ any (text_eq k) xs || any (text_eq k) ys
any-append k [] ys = refl
any-append k (x ∷ xs) ys = ground (arith, any-append k xs ys)

pub any-All :
    (P : Text → Type 0) (k : Text) (keys : List Text)
    → All P keys
    → any (text_eq k) keys ≡ true
    → P k
any-All P k [] h a = cc
any-All P k (x ∷ xs) h a = elim (Bool-cases (text_eq k x)) [
  | inl e ↦ rw ((text_eq_iff k x).0 e) h.0
  | inr e ↦ any-All P k xs h.1 (ground (arith, a, e))
]

module _ (s3 : S3) (laws : Laws s3) (b k : Text) where
  -- The chunks that are sent.
  chunks_only :
      (bucket : Text) (chunks : List (List Text)) (n : ℕ) (o : s3.Objects)
      → laws.has b k o ≡ true
      → laws.has b k (delete_chunks s3 bucket chunks n o).1 ≡ false
      → (b ≡ bucket) × (any (text_eq k) (concat chunks) ≡ true)
  unfolding delete_chunks
  chunks_only bucket [] n o h gone = cc
  chunks_only bucket (chunk ∷ later) n o h gone =
      let o' = (s3.delete_objects bucket chunk o).1 in
      let sent : laws.has b k o' ≡ false
          → (b ≡ bucket) × (any (text_eq k) (chunk ++ concat later) ≡ true) =
        λ g. (
          (laws.delete_named b k bucket chunk o h g).0,
          ground (
            arith,
            any-append k chunk (concat later),
            (laws.delete_named b k bucket chunk o h g).1,
          ),
        ) in
      elim (Result-cases (s3.delete_objects bucket chunk o).0) [
        | inl (e, q) ↦ sent (rw (q, delete_chunks) at gone)
        | inr (response, q) ↦ elim (Option-cases (first_error s3 response.errors)) [
          | inr (e, f) ↦ sent (rw (q, f, delete_chunks) at gone)
          | inl f ↦ elim (Bool-cases (laws.has b k o')) [
            | inr g ↦ sent g
            | inl g ↦
                let rest =
                  chunks_only bucket later (n + response.deleted) o' g
                    (rw (q, f, delete_chunks) at gone) in
                (rest.0, ground (arith, any-append k chunk (concat later), rest.1))
          ]
        ]
      ]

  map_err_state :
      {A : Type 0} (f : s3.SdkError → StorageError) (r : Result s3.SdkError A × s3.Objects)
      → (map_err s3 f r).1 ≡ r.1
  map_err_state f (ok a, o) = refl
  map_err_state f (err e, o) = refl

  pub batch_only :
      (bucket : Text) (keys : List Text) (o : s3.Objects)
      → laws.has b k o ≡ true
      → laws.has b k (delete_objects_in_bucket s3 bucket keys o).1 ≡ false
      → (b ≡ bucket) × (any (text_eq k) keys ≡ true)
  unfolding delete_objects_in_bucket
  batch_only bucket keys o h gone =
      rw (chunks_exact keys).0 at (chunks_only bucket (chunks_1000 keys) 0 o h gone)

  pub single_only :
      (bucket key : Text) (o : s3.Objects)
      → laws.has b k o ≡ true
      → laws.has b k (delete_object_in_bucket s3 bucket key o).1 ≡ false
      → (b ≡ bucket) × (k ≡ key)
  unfolding delete_object_in_bucket
  single_only bucket key o h gone =
      laws.delete_only b k bucket key o h
        (rw (map_err_state _ (s3.delete_object bucket key o)) at gone)

-- A listing that came to an end has changed nothing, and its keys have what every page's keys have.
module _ (s3 : S3) (laws : Laws s3) (b k : Text) (P : Text → Type 0) where
  abbrev pub IsListing : s3.Objects → Option (Result StorageError (List Text) × s3.Objects) → Type 0
  IsListing o none = Unit
  IsListing o (some (err e, o')) = laws.has b k o' ≡ laws.has b k o
  IsListing o (some (ok keys, o')) = (laws.has b k o' ≡ laws.has b k o) × All P keys

  module _ (bucket : Text) (prefix : Option Text)
      (paged : (token : Option Text) (o : s3.Objects) (page : Page)
        → (s3.list_objects_v2 bucket prefix token o).0 ≡ ok page
        → All P (keys_of page.contents)) where
    pages-IsListing :
        (fuel : ℕ) (token : Option Text) (keys : List Text) (o o' : s3.Objects)
        → laws.has b k o' ≡ laws.has b k o
        → All P keys
        → IsListing o (list_pages s3 fuel bucket prefix token keys o')
    unfolding list_pages
    pages-IsListing zero token keys o o' same all = tt
    pages-IsListing (suc fuel) token keys o o' same all =
        let same' = laws.list_keeps b k bucket prefix token o' ∙ same in
        elim (Result-cases (s3.list_objects_v2 bucket prefix token o').0) [
          | inl (e, q) ↦ rw (q, list_pages) same'
          | inr (page, q) ↦
              let all' = All-append P keys (keys_of page.contents) all (paged token o' page q) in
              elim (Bool-cases (unwrap_or false page.is_truncated)) [
                | inr last ↦ rw (q, last, list_pages) (same', all')
                | inl more ↦ elim (Option-cases page.next_continuation_token) [
                  | inl stop ↦ rw (q, more, stop, list_pages) (same', all')
                  | inr (next, go) ↦
                      rw (q, more, go, list_pages)
                        (pages-IsListing fuel (some next) _ o _ same' all')
                ]
              ]
        ]

    value-IsListing :
        (o : s3.Objects) (l : Option (Result StorageError (List Text) × s3.Objects)) (h : l ≢ none)
        → IsListing o l
        → IsListing o (some (value_of l h))
    value-IsListing o none h = elim (h refl) [ ]
    value-IsListing o (some r) h = λ p. p

    pub list-IsListing :
        (paging : Paging s3) (o : s3.Objects)
        → IsListing o (some (list_objects_in_bucket s3 paging bucket prefix o))
    unfolding list_objects_in_bucket
    list-IsListing paging o =
        let fuel = suc (paging.remaining bucket prefix none o) in
        value-IsListing o (list_pages s3 fuel bucket prefix none [] o)
          (list_pages_ends s3 paging fuel bucket prefix none [] o (omega arith))
          (pages-IsListing fuel none [] o o refl tt)
