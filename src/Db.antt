-- ===== src/Db.antt =====
-- The PostgreSQL connection as the program uses it: statements that may fail, transactions that
-- commit or roll back, and CURRENT_TIMESTAMP. A state holds the tables, the clock, and what the
-- environment does at each coming round trip (time that passes, a failure). A list that has run
-- out stands for round trips at which nothing happens. A failed round trip says nothing of what the
-- server did: a statement on its own, or a COMMIT, may have been carried out all the same.
-- Transactions are taken one at a time, and times are whole seconds.
pub mod Atomic
pub mod Kept
use hrm_grag.Prelude.{Bool, List, Option, [], false, if◌then◌else◌, none, some, ℕ, ◌+◌, ◌∷◌}

pub data Result (E A : Type 0) : Type 0 where
  ok : A → Result E A
  err : E → Result E A

-- `sqlx::Error`: the connection or the server failed, or a constraint refused the statement.
pub data SqlError : Type 0 where
  unavailable violation : SqlError

pub record Event : Type 0 where
  pub elapsed : ℕ
  pub fails : Bool
  -- A failure that comes after the server has done what it was asked.
  pub lands : Bool

pub record World (S : Type 0) : Type 0 where
  pub db : S
  pub now : ℕ
  pub env : List Event

abbrev pub M : Type 0 → Type 0 → Type 0
M S A = World S → Result SqlError A × World S

abbrev pub quiet : Event
quiet = record { elapsed = 0; fails = false; lands = false }

abbrev pub next_event : List Event → Event
next_event [] = quiet
next_event (e ∷ es) = e

abbrev pub later_events : List Event → List Event
later_events [] = []
later_events (e ∷ es) = es

-- The state after the next round trip, before its statement has written anything.
abbrev pub arrive : {S : Type 0} → World S → World S
arrive w = record w { now = w.now + (next_event w.env).elapsed; env = later_events w.env }

abbrev pub faulty : {S : Type 0} → World S → Bool
faulty w = (next_event w.env).fails

abbrev pub landing : {S : Type 0} → World S → Bool
landing w = (next_event w.env).lands

-- A statement: what it answers and writes, or `none` where a constraint refuses it.
abbrev pub Update : Type 0 → Type 0 → Type 0
Update S A = S → Option (A × S)

-- The answer, computed from what a statement answered.
abbrev pub answer : {S A B : Type 0} → (A → B) → M S A → M S B
answer f m w = let (r, w') = m w in elim r [ ok a ↦ (ok (f a), w') | err e ↦ (err e, w') ]

abbrev write_back : {S A : Type 0} → Option (A × S) → World S → Result SqlError A × World S
write_back none w = (err violation, w)
write_back (some (a, s)) w = (ok a, record w { db = s })

-- The state after a reply that was lost.
abbrev pub lost : {S A : Type 0} → Bool → Option (A × S) → World S → World S
lost landed none w = w
lost landed (some (a, s)) w = if landed then record w { db = s } else w

unfoldable pub statement : {S A : Type 0} → Update S A → M S A
statement f w =
    let w' = arrive w in
    if faulty w then (err unavailable, lost (landing w) (f w'.db) w') else write_back (f w'.db) w'

-- A statement on its own, at its CURRENT_TIMESTAMP.
unfoldable pub autocommit : {S A : Type 0} → (ℕ → Update S A) → M S A
unfolding statement
autocommit f w = statement (f (arrive w).now) w

pub data End (A : Type 0) : Type 0 where
  commit rollback : A → End A

-- What a transaction does before it ends: statements, each with what follows its answer. A `do`
-- block writes one.
pub data Body (S A : Type 0) : Type 1 where
  finish : End A → Body S A
  then_do : {B : Type 0} → Update S B → (B → Body S A) → Body S A

infixl 5 ◌>>=◌ ◌>>◌
abbrev pub ◌>>=◌ : {S A B : Type 0} → Update S B → (B → Body S A) → Body S A
f >>= k = then_do f k

abbrev pub ◌>>◌ : {S A B : Type 0} → Update S B → Body S A → Body S A
f >> b = then_do f (λ _. b)

-- A statement that fails ends the body: the code returns its error by `?`.
unfoldable pub run : {S A : Type 0} → Body S A → M S (End A)
run (finish z) w = (ok z, w)
run (then_do f k) w =
    let (r, w') = statement f w in elim r [ ok b ↦ run (k b) w' | err e ↦ (err e, w') ]

abbrev end_of : {S A : Type 0} → S → Result SqlError (End A) × World S → Result SqlError A × World S
end_of saved (err e, w) = (err e, record w { db = saved })
end_of saved (ok (commit a), w) =
    if faulty w
    then (err unavailable, if landing w then arrive w else record (arrive w) { db = saved })
    else (ok a, arrive w)
end_of saved (ok (rollback a), w) =
    if faulty w
    then (err unavailable, record (arrive w) { db = saved })
    else (ok a, record (arrive w) { db = saved })

-- `pool.begin()`, the body at the transaction's CURRENT_TIMESTAMP, and its end. A transaction
-- that an early error return drops has rolled back.
unfoldable pub transaction : {S A : Type 0} → (ℕ → Body S A) → M S A
unfolding run
transaction body w =
    let w' = arrive w in
    if faulty w then (err unavailable, w') else end_of w'.db (run (body w'.now) w')
