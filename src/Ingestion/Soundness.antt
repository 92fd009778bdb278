-- ===== src/Ingestion/Soundness.antt =====
-- The keys of `ingestion_jobs` and its partial unique index, as an invariant of the queue: ids are
-- unique, and a document has one active job at most.
use hrm_grag.Ingestion.Claims.{claim_rows, is_candidate, next_token}
use hrm_grag.Ingestion.Statements.{has_id}
use hrm_grag.Ingestion.Tables.{Document, Job, Tables, active_count, active_for}
use hrm_grag.Prelude.{
  All, Bool, Bool-cases, List, String, [], ap, arith, count, inl, inr, refl, true, update_where, ℕ,
  ◌<◌, ◌==◌, ◌∷◌, ◌≡◌, ◌≤◌,
}
use hrm_grag.Updates.{All-update, count-update_id}

-- A claim keeps ids, and it takes active rows only.
module _ (ids : List ℕ) (worker : String) (lease t : ℕ) where
  pub claim_rows-ids :
      (i token : ℕ) (js : List Job)
      → count (has_id i) (claim_rows ids worker lease t token js) ≡ count (has_id i) js
  unfolding claim_rows
  claim_rows-ids i token [] = refl
  claim_rows-ids i token (j ∷ js) = ground (arith, claim_rows-ids i (next_token ids t token j) js)

  pub claim_rows-active :
      (d token : ℕ) (js : List Job)
      → active_count d (claim_rows ids worker lease t token js) ≡ active_count d js
  unfolding claim_rows
  claim_rows-active d token [] = refl
  claim_rows-active d token (j ∷ js) =
      ground (arith, claim_rows-active d (next_token ids t token j) js)

  pub claim_rows-drawn :
      (bound token : ℕ) (js : List Job)
      → All (λ j. j.id < bound) js
      → All (λ j. j.id < bound) (claim_rows ids worker lease t token js)
  unfolding claim_rows
  claim_rows-drawn bound token [] h = tt
  claim_rows-drawn bound token (j ∷ js) h = (
    elim (Bool-cases (is_candidate ids t j)) [ inl e ↦ rw e h.0 | inr e ↦ rw e h.0 ],
    claim_rows-drawn bound (next_token ids t token j) js h.1,
  )

-- Ids and tokens come from one supply; `is_live` rows are active.
pub record IsSound (s : Tables) : Type 0 where
  pub keys : (i : ℕ) → count (has_id i) s.jobs ≤ 1
  pub drawn_ids : All (λ j. j.id < s.next_uuid) s.jobs
  pub single : (d : ℕ) → active_count d s.jobs ≤ 1

pub drawn-fresh : (n : ℕ) (js : List Job) → All (λ j. j.id < n) js → count (has_id n) js ≡ 0
drawn-fresh n [] h = refl
drawn-fresh n (j ∷ js) h = ground (arith, drawn-fresh n js h.1)

-- An update that keeps ids and documents, and makes no row active that was not.
update-active-le :
    (d : ℕ) (p : Job → Bool) (f : Job → Job) (js : List Job)
    → All (λ j. p j ≡ true → active_for d (f j) ≡ true → active_for d j ≡ true) js
    → active_count d (update_where p f js) ≤ active_count d js
update-active-le d p f [] h = omega arith
update-active-le d p f (j ∷ js) h = ground (arith, h.0, update-active-le d p f js h.1)

pub all {ℓ} : {P : Job → Type ℓ} (js : List Job) → ((j : Job) → P j) → All P js
all [] h = tt
all (j ∷ js) h = (h j, all js h)

pub IsSound-rows :
    {s : Tables} {ds : List Document} (p : Job → Bool) (f : Job → Job)
    → ((j : Job) → (f j).id ≡ j.id)
    → ((d : ℕ) → All (λ j. p j ≡ true → active_for d (f j) ≡ true → active_for d j ≡ true) s.jobs)
    → IsSound s
    → IsSound (record s { jobs = update_where p f s.jobs; documents = ds })
IsSound-rows {s} p f same h a = record {
  keys =
      λ i. rw (count-update_id (has_id i) p f s.jobs (λ j. ap (λ n. n == i) (same j))) (a.keys i);
  drawn_ids =
      All-update (λ j. j.id < s.next_uuid) p f s.jobs (λ j _ lt. rw (same j) lt) a.drawn_ids;
  single = λ d. let le = update-active-le d p f s.jobs (h d) in let one = a.single d in omega arith;
}

pub IsSound-documents :
    {s : Tables} {ds : List Document} → IsSound s → IsSound (record s { documents = ds })
IsSound-documents a = record { keys = a.keys; drawn_ids = a.drawn_ids; single = a.single }
