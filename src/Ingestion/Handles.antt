-- ===== src/Ingestion/Handles.antt =====
-- What a claim returns: handles with new tokens, each of which its worker may use until the lease
-- ends, and at most as many as the batch allows.
use hrm_grag.Db.{World, arrive, ok}
use hrm_grag.Db.Atomic.{effect, settle}
use hrm_grag.Db.Kept.{ok-answer}
use hrm_grag.Ingestion.Claims.{
  candidates, claim, claim_handles, claim_rows, is_candidate, next_token,
}
use hrm_grag.Ingestion.Effects.{claim-Acts}
use hrm_grag.Ingestion.Queue.{claim_body, claim_jobs_filtered}
use hrm_grag.Ingestion.Soundness.{IsSound, all, claim_rows-ids}
use hrm_grag.Ingestion.Statements.{has_id, is_live}
use hrm_grag.Ingestion.Tables.{ClaimedJob, IngestionWorkerConfig, Job, Tables}
use hrm_grag.Prelude.{
  All, Bool, Bool-cases, List, Option, String, [], any, ap, arith, count, eq_iff, inl, inr, length,
  length-take-le, map, refl, some, str_eq, suc, true, ℕ, ◌+◌, ◌<◌, ◌∷◌, ◌≡◌, ◌≤◌,
}
use hrm_grag.Updates.{All-of_All, count-le-count}

str_eq-same : (w : String) → str_eq w w ≡ true
str_eq-same w = (eq_iff w w).1 refl

module _ (ids : List ℕ) (worker : String) (lease t : ℕ) where
  -- Handles carry tokens from the supply.
  pub handles-fresh :
      (bound token : ℕ) (js : List Job)
      → token + count (is_candidate ids t) js ≤ bound
      → All (λ h. (token ≤ h.claim_token) × (h.claim_token < bound)) (claim_handles ids t token js)
  unfolding claim_handles
  handles-fresh bound token [] le = tt
  handles-fresh bound token (j ∷ js) le = elim (Bool-cases (is_candidate ids t j)) [
    | inl e ↦ rw e (
      (omega arith, ground arith),
      All-of_All (λ h. (suc token ≤ h.claim_token) × (h.claim_token < bound)) _ _
          (λ h r. (omega (arith, r.0), r.1)) (handles-fresh bound (suc token) js (ground arith)),
    )
    | inr e ↦ rw e (handles-fresh bound token js (ground arith))
  ]

  -- Each handle matches a row, for its worker, until the lease ends.
  pub handles-live :
      (t' token : ℕ) (js : List Job)
      → t' < t + lease
      → All
          (λ h. any (is_live h worker t') (claim_rows ids worker lease t token js) ≡ true)
          (claim_handles ids t token js)
  unfolding claim_handles claim_rows
  handles-live t' token [] lt = tt
  handles-live t' token (j ∷ js) lt = elim (Bool-cases (is_candidate ids t j)) [
    | inl e ↦ rw e (
      ground (arith, str_eq-same worker),
      All-of_All
          (λ h. any (is_live h worker t') (claim_rows ids worker lease t (suc token) js) ≡ true) _ _
          (λ h r. ground (arith, r)) (handles-live t' (suc token) js lt),
    )
    | inr e ↦ rw e (
        All-of_All (λ h. any (is_live h worker t') (claim_rows ids worker lease t token js) ≡ true)
          _ _ (λ h r. ground (arith, r)) (handles-live t' token js lt))
  ]

  pub handles-count :
      (token : ℕ) (js : List Job)
      → length (claim_handles ids t token js) ≡ count (is_candidate ids t) js
  unfolding claim_handles
  handles-count token [] = refl
  handles-count token (j ∷ js) = ground (arith, handles-count (next_token ids t token j) js)

no_candidates : (t : ℕ) (js : List Job) → count (is_candidate [] t) js ≡ 0
no_candidates t [] = refl
no_candidates t (j ∷ js) = omega (arith, no_candidates t js)

candidates-split :
    (i : ℕ) (ids : List ℕ) (t : ℕ) (js : List Job)
    → count (is_candidate (i ∷ ids) t) js ≤ count (has_id i) js + count (is_candidate ids t) js
candidates-split i ids t [] = omega arith
candidates-split i ids t (j ∷ js) = ground (arith, candidates-split i ids t js)

candidates-le :
    (ids : List ℕ) (t : ℕ) (js : List Job)
    → ((i : ℕ) → count (has_id i) js ≤ 1)
    → count (is_candidate ids t) js ≤ length ids
candidates-le [] t js u = omega (arith, no_candidates t js)
candidates-le (i ∷ ids) t js u =
    omega (arith, candidates-split i ids t js, candidates-le ids t js u, u i)

length-map : {A B : Type 0} (f : A → B) (xs : List A) → length (map f xs) ≡ length xs
length-map f [] = refl
length-map f (x ∷ xs) = ap suc (length-map f xs)

any-count : {A : Type 0} (p : A → Bool) (xs : List A) → any p xs ≡ true → 1 ≤ count p xs
any-count p [] h = ground (arith, h)
any-count p (x ∷ xs) h = elim (Bool-cases (p x)) [
  | inl e ↦ ground arith
  | inr e ↦ ground (arith, any-count p xs (ground arith))
]

candidates-limit :
    (locked : ℕ → Bool) (d : Option ℕ) (limit t : ℕ) (js : List Job)
    → length (candidates locked d limit t js) ≤ limit
unfolding candidates
candidates-limit locked d limit t js = rw (length-map _ _) (length-take-le limit _)

-- What the handles of a claim at time `t` come to, for `s` and `s'` the tables before and after.
abbrev pub IsGranted :
    String → IngestionWorkerConfig → ℕ → Tables → List ClaimedJob → Tables → Type 0
IsGranted worker config t s rows s' =
    (length rows ≤ config.batch_size)
    × All (λ h. (s.next_uuid ≤ h.claim_token) × (h.claim_token < s'.next_uuid)) rows
    × ((t' : ℕ)
        → t' < t + config.lease_secs
        → All (λ h. count (is_live h worker t') s'.jobs ≡ 1) rows)

module _ (locked : ℕ → Bool) (worker : String) (config : IngestionWorkerConfig) (d : Option ℕ)
    (t : ℕ) where
  effect-IsGranted :
      (s : Tables) (rows : List ClaimedJob) (s' : Tables)
      → IsSound s
      → settle (claim_body locked worker config d) t s ≡ some (rows, s')
      → IsGranted worker config t s rows s'
  unfolding settle effect claim candidates
  effect-IsGranted s rows s' p h =
      let ids = candidates locked d config.batch_size t s.jobs in
      let handles = claim_handles ids t s.next_uuid s.jobs in
      let jobs' = claim_rows ids worker config.lease_secs t s.next_uuid s.jobs in
      let answered : rows ≡ handles = cc in
      let written : s' ≡ record s { jobs = jobs'; next_uuid = s.next_uuid + length handles } = cc in
      let counted = handles-count ids worker config.lease_secs t s.next_uuid s.jobs in
      rw (answered, written)
        (
          omega (
            arith,
            counted,
            candidates-le ids t s.jobs p.keys,
            candidates-limit locked d config.batch_size t s.jobs,
          ),
          handles-fresh ids worker config.lease_secs t _ s.next_uuid s.jobs
              (omega (arith, counted)),
          λ t' lt.
              All-of_All (λ h. any (is_live h worker t') jobs' ≡ true)
                (λ h. count (is_live h worker t') jobs' ≡ 1) handles
                (λ h live. omega (
                  arith,
                  any-count (is_live h worker t') jobs' live,
                  count-le-count (is_live h worker t') (has_id h.id) jobs'
                      (all jobs' (λ j yes. ground arith)),
                  claim_rows-ids ids worker config.lease_secs t h.id s.next_uuid s.jobs,
                  p.keys h.id,
                ))
                (handles-live ids worker config.lease_secs t t' s.next_uuid s.jobs lt),
        )

module _ (locked : ℕ → Bool) (worker : String) (config : IngestionWorkerConfig) (d : Option ℕ) where
  -- A claim that answers: at most `batch_size` handles, each with a token that was never used
  -- before, and until the lease ends each handle is that of exactly one row, for its worker.
  pub claim-IsGranted :
      (w : World Tables) (rows : List ClaimedJob)
      → IsSound w.db
      → (claim_jobs_filtered locked worker config d w).0 ≡ ok rows
      → IsGranted worker config
          (arrive w).now
          w.db
          rows
          (claim_jobs_filtered locked worker config d w).1.db
  claim-IsGranted w rows p h =
      effect-IsGranted locked worker config d (arrive w).now w.db rows _ p
        (ok-answer _ _ w rows (claim-Acts w locked worker config d) h)
