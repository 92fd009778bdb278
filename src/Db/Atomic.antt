-- ===== src/Db/Atomic.antt =====
-- What a database operation promises: it leaves the tables as they were and fails, or it acts as one
-- function of the tables at one moment, though its answer may be lost.
use hrm_grag.Db.{
  Body, End, M, Result, SqlError, Update, World, arrive, autocommit, commit, end_of, err, faulty,
  finish, landing, lost, ok, rollback, run, statement, then_do, transaction, unavailable, violation,
  write_back,
}
use hrm_grag.Prelude.{
  Bool, Bool-cases, Option, arith, false, inl, inr, none, refl, some, sym, true, ℕ, ◌∙◌, ◌≡◌, ◌≤◌,
  ◌⊎◌,
}

-- Why a run fails: the connection or the server did, or a constraint refused it.
abbrev pub IsCause : {A S : Type 0} → SqlError → Option (A × S) → Type 0
IsCause e o = (e ≡ unavailable) ⊎ (o ≡ none)

-- How a run ended, against what a function made of the tables: it failed and they are as
-- they were, or it wrote what the function says and answered, or its answer was lost.
pub data Settled {S A : Type 0} (x : Result SqlError A × World S) (before : S) (o : Option (A × S))
    : Type 0 where
  unchanged : (e : SqlError) → x.0 ≡ err e → x.1.db ≡ before → IsCause e o → Settled x before o
  done : (a : A) (s : S) → o ≡ some (a, s) → x.0 ≡ ok a → x.1.db ≡ s → Settled x before o
  in_doubt :
      (a : A) (s : S) → o ≡ some (a, s) → x.0 ≡ err unavailable → x.1.db ≡ s → Settled x before o

-- The outcome of `m` on `w`, against what `f` computes from the tables at a time `t`.
pub record Acts {S A : Type 0} (m : M S A) (f : ℕ → Update S A) (w : World S) : Type 0 where
  pub time : ℕ
  pub on_arrival : time ≡ (arrive w).now
  pub not_before : w.now ≤ time
  pub outcome : Settled (m w) w.db (f time w.db)

-- A run inside a transaction, where a failure may leave the tables half written.
pub data Ran {S A : Type 0} (x : Result SqlError A × World S) (o : Option (A × S)) : Type 0 where
  failed : (e : SqlError) → x.0 ≡ err e → IsCause e o → Ran x o
  ran : (a : A) (s : S) → o ≡ some (a, s) → x.0 ≡ ok a → x.1.db ≡ s → Ran x o

-- What a body computes from the tables when nothing fails.
unfoldable pub effect : {S A : Type 0} → Body S A → Update S (End A)
effect (finish z) s = some (z, s)
effect (then_do f k) s = elim (f s) [ none ↦ none | some (b, s') ↦ effect (k b) s' ]

-- What a transaction makes of its body: a rollback keeps the answer and drops the writes.
abbrev pub settled : {S A : Type 0} → S → Option (End A × S) → Option (A × S)
settled s none = none
settled s (some (commit a, s')) = some (a, s')
settled s (some (rollback a, s')) = some (a, s)

unfoldable pub settle : {S A : Type 0} → (ℕ → Body S A) → ℕ → Update S A
unfolding effect
settle body t s = settled s (effect (body t) s)

pub ok-injective : {E A : Type 0} {a b : A} → ◌≡◌ {A = Result E A} (ok a) (ok b) → a ≡ b
ok-injective h = cc

pub err-injective : {E A : Type 0} {a b : E} → ◌≡◌ {A = Result E A} (err a) (err b) → a ≡ b
err-injective h = cc

module _ {S A : Type 0} where
  write_back-Ran : (o : Option (A × S)) (w : World S) → Ran (write_back o w) o
  write_back-Ran none w = failed violation refl (inr refl)
  write_back-Ran (some (a, s)) w = ran a s refl refl refl

  statement-Ran : (f : Update S A) (w : World S) → Ran (statement f w) (f w.db)
  unfolding statement
  statement-Ran f w = elim (Bool-cases (faulty w)) [
    | inl e ↦ rw e (failed unavailable refl (inl refl))
    | inr e ↦ rw e (write_back-Ran (f w.db) (arrive w))
  ]

module _ {S A B : Type 0} (k : B → Body S A) where
  -- The step of the induction, from a statement's outcome to the rest of the body.
  continue-Ran :
      (x : Result SqlError B × World S) (o : Option (B × S))
      → Ran x o
      → ((b : B) (w : World S) → Ran (run (k b) w) (effect (k b) w.db))
      → Ran {A = End A}
          (elim x.0 [ ok b ↦ run (k b) x.1 | err e ↦ (err e, x.1) ])
          (elim o [ none ↦ none | some (b, s) ↦ effect (k b) s ])
  continue-Ran (err e, w) o (failed e' h c) rest =
      let same : e' ≡ e = err-injective (sym h) in
      failed e refl (elim c [ inl u ↦ inl (sym same ∙ u) | inr n ↦ inr (rw n refl) ])
  continue-Ran (err e, w) o (ran b s fo h hs) rest = cc
  continue-Ran (ok b, w) o (failed e h c) rest = cc
  continue-Ran (ok b, w) o (ran b' s fo h hs) rest = rw fo (rw (← hs, ← ok-injective h) (rest b w))

run-Ran : {S A : Type 0} (b : Body S A) (w : World S) → Ran (run b w) (effect b w.db)
unfolding run effect
run-Ran (finish z) w = ran z w.db refl refl refl
run-Ran (then_do f k) w =
    continue-Ran k (statement f w) (f w.db) (statement-Ran f w) (λ b w'. run-Ran (k b) w')

module _ {S A : Type 0} where
  write_back-Settled : (o : Option (A × S)) (w : World S) → Settled (write_back o w) w.db o
  write_back-Settled none w = unchanged violation refl refl (inr refl)
  write_back-Settled (some (a, s)) w = done a s refl refl refl

  lost-Settled :
      (landed : Bool) (o : Option (A × S)) (w : World S)
      → Settled (err unavailable, lost landed o w) w.db o
  lost-Settled landed none w = unchanged unavailable refl refl (inl refl)
  lost-Settled true (some (a, s)) w = in_doubt a s refl refl refl
  lost-Settled false (some (a, s)) w = unchanged unavailable refl refl (inl refl)

  -- A single statement is atomic.
  pub autocommit-Acts : (f : ℕ → Update S A) (w : World S) → Acts (autocommit f) f w
  unfolding autocommit
  autocommit-Acts f w = record {
    time = (arrive w).now;
    on_arrival = refl;
    not_before = omega arith;
    outcome = elim (Bool-cases (faulty w)) [
      | inl e ↦ rw e (lost-Settled (landing w) (f (arrive w).now w.db) (arrive w))
      | inr e ↦ rw e (write_back-Settled (f (arrive w).now w.db) (arrive w))
    ];
  }

  end_of-Settled :
      (saved : S) (x : Result SqlError (End A) × World S) (o : Option (End A × S))
      → Ran x o
      → Settled (end_of saved x) saved (settled saved o)
  end_of-Settled saved (err e, w) o (failed e' h c) =
      let same : e' ≡ e = err-injective (sym h) in
      unchanged e refl refl (elim c [ inl u ↦ inl (sym same ∙ u) | inr n ↦ inr (rw n refl) ])
  end_of-Settled saved (err e, w) o (ran z s fo h hs) = cc
  end_of-Settled saved (ok z, w) o (failed e h c) = cc
  end_of-Settled saved (ok (commit a), w) o (ran z s fo h hs) =
      rw (fo, ← ok-injective h)
        (elim (Bool-cases (faulty w)) [
          | inl e ↦ elim (Bool-cases (landing w)) [
            | inl l ↦ rw (e, l) (in_doubt a s refl refl hs)
            | inr l ↦ rw (e, l) (unchanged unavailable refl refl (inl refl))
          ]
          | inr e ↦ rw e (done a s refl refl hs)
        ])
  end_of-Settled saved (ok (rollback a), w) o (ran z s fo h hs) =
      rw (fo, ← ok-injective h)
        (elim (Bool-cases (faulty w)) [
          | inl e ↦ rw e (unchanged unavailable refl refl (inl refl))
          | inr e ↦ rw e (done a saved refl refl refl)
        ])

  -- A transaction is atomic: nothing of its body remains, or all of it.
  pub transaction-Acts :
      (body : ℕ → Body S A) (w : World S) → Acts (transaction body) (settle body) w
  unfolding transaction settle
  transaction-Acts body w = record {
    time = (arrive w).now;
    on_arrival = refl;
    not_before = omega arith;
    outcome = elim (Bool-cases (faulty w)) [
      | inl e ↦ rw e (unchanged unavailable refl refl (inl refl))
      | inr e ↦ rw e (
          end_of-Settled w.db (run (body (arrive w).now) (arrive w))
            (effect (body (arrive w).now) w.db) (run-Ran (body (arrive w).now) (arrive w)))
    ];
  }
