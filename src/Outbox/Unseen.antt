-- ===== src/Outbox/Unseen.antt =====
-- The ids of an outbox's rows: every statement keeps them, and a claim takes only rows whose id has
-- not been seen.
use hrm_grag.Db.{World, answer, arrive, commit, finish, ok, then_do, transaction}
use hrm_grag.Db.Atomic.{Acts, autocommit-Acts, effect, settle, transaction-Acts}
use hrm_grag.Db.Kept.{keep_of-Acts, map-Acts, ok-answer, some_answer, some_written}
use hrm_grag.Outbox.{FailureDisposition, disposition_after_failure}
use hrm_grag.Outbox.Table.{
  Outbox, ProcessorConfig, Row, RowOutcome, claim_outbox_batch, claim_rows, due_rows,
  mark_outbox_row_failure, mark_outbox_row_processed, processed_row, written_failure,
}
use hrm_grag.Prelude.{
  ==_iff, All, Bool, Bool-cases, List, [], any, ap, arith, count, count-le-length, false, inl, inr,
  length, map, not, refl, suc, true, update_where, ℕ, ◌++◌, ◌<◌, ◌==◌, ◌∷◌, ◌≡◌,
}
use hrm_grag.Prelude.Int.{max_zero, ℤ}
use hrm_grag.Prelude.Text.{Text}
use hrm_grag.Updates.{All-of_All, All-select, All-take, any-any, count-lt-count, sort_by-All}

module _ {A : Type 0} (key : A → ℕ) where
  pub keys-update :
      (p : A → Bool) (f : A → A) (xs : List A)
      → ((x : A) → key (f x) ≡ key x)
      → map key (update_where p f xs) ≡ map key xs
  keys-update p f [] h = refl
  keys-update p f (x ∷ xs) h = elim (Bool-cases (p x)) [
    | inl e ↦ rw (e, h x, keys-update p f xs h) refl
    | inr e ↦ rw (e, keys-update p f xs h) refl
  ]

  pub keyed : (xs : List A) → All (λ x. any (λ i. i == key x) (map key xs) ≡ true) xs
  keyed [] = tt
  keyed (x ∷ xs) = (
    ground arith,
    All-of_All (λ y. any (λ i. i == key y) (map key xs) ≡ true)
        (λ y. any (λ i. i == key y) (map key (x ∷ xs)) ≡ true) xs (λ y h. ground (arith, h))
        (keyed xs),
  )

length-map : {A B : Type 0} (f : A → B) (xs : List A) → length (map f xs) ≡ length xs
length-map f [] = refl
length-map f (x ∷ xs) = ap suc (length-map f xs)

-- How many of the ids have not been seen.
abbrev pub unseen : List ℕ → List ℕ → ℕ
unseen seen ids = count (λ i. not (any (λ j. j == i) seen)) ids

any-append : (p : ℕ → Bool) (xs ys : List ℕ) → any p ys ≡ true → any p (xs ++ ys) ≡ true
any-append p [] ys h = h
any-append p (x ∷ xs) ys h = ground (arith, any-append p xs ys h)

pub unseen_none :
    {A : Type 0} (key : A → ℕ) (fuel : ℕ) (xs : List A)
    → length xs < fuel
    → unseen [] (map key xs) < fuel
unseen_none key fuel xs h =
    omega (arith, count-le-length (λ i. not (any (λ j. j == i) [])) (map key xs), length-map key xs)

pub unseen_decreases :
    (a : ℕ) (more seen ids : List ℕ)
    → any (λ j. j == a) seen ≡ false
    → any (λ i. i == a) ids ≡ true
    → unseen (a ∷ more ++ seen) ids < unseen seen ids
unseen_decreases a more seen ids fresh known =
    count-lt-count _ _ ids (λ i h. ground (arith, any-append (λ j. j == i) more seen))
      (any-any (λ i. i == a) _ ids
        (λ i h. let same : i ≡ a = (==_iff i a).0 h in rw same (ground (arith, fresh))) known)

module _ (Value : Type 0) (locked : ℕ → Bool) (config : ProcessorConfig) where
  -- A row that is claimed stands in the table and has not been seen.
  due_rows-All :
      (seen : List ℕ) (t : ℕ) (rows : List (Row Value))
      → All
          (λ r.
            (any (λ i. i == r.id) (map (λ (x : Row Value). x.id) rows) ≡ true)
            × (any (λ j. j == r.id) seen ≡ false))
          (due_rows Value locked config seen t rows)
  unfolding due_rows
  due_rows-All seen t rows = All-take _ (max_zero config.batch_size) _ (
      sort_by-All _ (λ (r : Row Value). r.created_at) _
        (All-of_All _ _ _ (λ r h. (h.0, ground (arith, h.1)))
          (All-select _ _ rows (keyed (λ (x : Row Value). x.id) rows))))

abbrev pub row_ids : {Value : Type 0} → Outbox Value → List ℕ
row_ids {Value} s = map (λ (r : Row Value). r.id) s.rows

module _ (Value : Type 0) where
  written_failure-id :
      (d : FailureDisposition) (message : Text) (t : ℕ) (r : Row Value)
      → (written_failure Value d message t r).id ≡ r.id
  written_failure-id (hrm_grag.Outbox.retryable n delay) message t r = refl
  written_failure-id (hrm_grag.Outbox.dead n) message t r = refl

  pub failure-row_ids :
      (id : ℕ) (retries : ℤ) (message : Text) (permanent : Bool) (config : ProcessorConfig)
      (w : World (Outbox Value))
      → row_ids (mark_outbox_row_failure Value id retries message permanent config w).1.db
        ≡ row_ids w.db
  unfolding mark_outbox_row_failure
  failure-row_ids id retries message permanent config w =
      keep_of-Acts (λ s. row_ids s ≡ row_ids w.db) _ _ w (autocommit-Acts _ w)
        (λ t o s h.
          some_written (λ s'. row_ids s' ≡ row_ids w.db) h
            (keys-update (λ (r : Row Value). r.id) _ _ w.db.rows
              (written_failure-id
                (disposition_after_failure retries config.max_retries permanent config.backoff) _
                t)))
        refl

  pub processed-row_ids :
      (id : ℕ) (w : World (Outbox Value))
      → row_ids
          (answer {B = RowOutcome} (λ u. processed_row) (mark_outbox_row_processed Value id) w).1.db
        ≡ row_ids w.db
  unfolding mark_outbox_row_processed
  processed-row_ids id w =
      keep_of-Acts (λ s. row_ids s ≡ row_ids w.db) _ _ w (map-Acts _ _ _ w (autocommit-Acts _ w))
        (λ t o s h.
          some_written (λ s'. row_ids s' ≡ row_ids w.db) h
            (keys-update (λ (r : Row Value). r.id) _ _ w.db.rows (λ r. refl)))
        refl

  -- A claim is one function of the table.
  pub claim-Acts :
      (locked : ℕ → Bool) (config : ProcessorConfig) (seen : List ℕ) (w : World (Outbox Value))
      → Acts (claim_outbox_batch Value locked config seen) (claim_rows Value locked config seen) w
  unfolding claim_outbox_batch claim_rows transaction settle effect
  claim-Acts locked config seen w =
      transaction-Acts
        (λ t. then_do (claim_rows Value locked config seen t) (λ a. finish (commit a))) w

  pub claim-row_ids :
      (locked : ℕ → Bool) (config : ProcessorConfig) (seen : List ℕ) (w : World (Outbox Value))
      → row_ids (claim_outbox_batch Value locked config seen w).1.db ≡ row_ids w.db
  unfolding claim_rows
  claim-row_ids locked config seen w =
      keep_of-Acts (λ s. row_ids s ≡ row_ids w.db) _ _ w (claim-Acts locked config seen w)
        (λ t o s h.
          some_written (λ s'. row_ids s' ≡ row_ids w.db) h
            (keys-update (λ (r : Row Value). r.id) _ _ w.db.rows (λ r. refl)))
        refl

  pub claim-All :
      (locked : ℕ → Bool) (config : ProcessorConfig) (seen : List ℕ) (w : World (Outbox Value))
      (rows : List (Row Value))
      → (claim_outbox_batch Value locked config seen w).0 ≡ ok rows
      → All
          (λ r. (any (λ i. i == r.id) (row_ids w.db) ≡ true) × (any (λ j. j == r.id) seen ≡ false))
          rows
  unfolding claim_rows
  claim-All locked config seen w rows h =
      some_answer (All _) (ok-answer _ _ w rows (claim-Acts locked config seen w) h)
        (due_rows-All Value locked config seen (arrive w).now w.db.rows)
