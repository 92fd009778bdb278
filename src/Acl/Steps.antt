-- ===== src/Acl/Steps.antt =====
-- What an operation that has answered without an error has done, step by step.
use hrm_grag.Acl.{
  AclError, Op, State, Tables, authz_error, close, database_error, fga, in_transaction, sql,
  try_then,
}
use hrm_grag.Authz.{AuthzError, Client}
use hrm_grag.Db.{
  End, Result, Update, arrive, commit, err, faulty, landing, ok, rollback, unavailable, violation,
}
use hrm_grag.Db.Atomic.{ok-injective}
use hrm_grag.Db.Kept.{Result-cases}
use hrm_grag.Prelude.{
  Bool-cases, Option, Option-cases, ap, inl, inr, refl, some, sym, ◌∙◌, ◌≡◌, ◌⊎◌,
}

module _ (client : Client) where
  pub try_then-ok :
      {A B : Type 0} (f : Op client A) (k : A → Op client B) (st : State client) (b : B)
      → (try_then client f k st).0 ≡ ok b
      → (a : A) × ((f st).0 ≡ ok a) × (try_then client f k st ≡ k a (f st).1)
  try_then-ok f k st b h = elim (Result-cases (f st).0) [
    | inl (e, q) ↦ let contrary : err e ≡ ok b = rw q at h in cc
    | inr (a, q) ↦ (a, q, rw q refl)
  ]

  pub fga-ok :
      (f : client.Store → Result AuthzError Unit × client.Store) (st : State client)
      → (fga client f st).0 ≡ ok tt
      → ((f st.1).0 ≡ ok tt) × ((fga client f st).1 ≡ (st.0, (f st.1).1))
  fga-ok f st h = elim (Result-cases (f st.1).0) [
    | inl (e, q) ↦ let contrary : err (authz_error e) ≡ ok tt = rw q at h in cc
    | inr (u, q) ↦ (rw q refl, rw q refl)
  ]

  pub sql-ok :
      {A : Type 0} (f : Update Tables A) (st : State client) (a : A)
      → (sql client f st).0 ≡ ok a
      → (f st.0.db ≡ some (a, (sql client f st).1.0.db)) × ((sql client f st).1.1 ≡ st.1)
  unfolding sql
  sql-ok f st a h = elim (Bool-cases (faulty st.0)) [
    | inl q ↦ let contrary : err (database_error unavailable) ≡ ok a = rw (q, sql) at h in cc
    | inr q ↦ elim (Option-cases (f st.0.db)) [
      | inl e ↦ let contrary : err (database_error violation) ≡ ok a = rw (q, e, sql) at h in cc
      | inr (p, e) ↦
          let same : p.0 ≡ a = ok-injective (rw (q, e, sql) at h) in
          (rw (q, e, sql) (rw (← same) refl), rw (q, e, sql) refl)
    ]
  ]

  pub sql-total :
      {A : Type 0} (f : Update Tables A) (st : State client) (a b : A) (t : Tables)
      → f st.0.db ≡ some (b, t)
      → (sql client f st).0 ≡ ok a
      → ((sql client f st).1.0.db ≡ t) × ((sql client f st).1.1 ≡ st.1) × (a ≡ b)
  sql-total {A} f st a b t e h =
      let (q, same) = sql-ok f st a h in
      let pairs : ◌≡◌ {A = Option (A × Tables)} (some (a, (sql client f st).1.0.db)) (some (b, t)) =
        sym q ∙ e in
      (cc, same, cc)

  close-err :
      {A : Type 0} (saved : Tables) (x : Result AclError (End A) × State client) (e : AclError)
      → (close client saved x).0 ≡ err e
      → ((close client saved x).1.0.db ≡ saved)
        ⊎ (a : A) × (x.0 ≡ ok (commit a))
          × ((close client saved x).1.0.db ≡ x.1.0.db)
          × ((close client saved x).1.1 ≡ x.1.1)
  close-err saved (err e', (w, s)) e h = inl refl
  close-err saved (ok (rollback a), (w, s)) e h = inl refl
  close-err saved (ok (commit a), (w, s)) e h = elim (Bool-cases (faulty w)) [
    | inl q ↦ elim (Bool-cases (landing w)) [
      | inl l ↦ rw (q, l) (inr (a, refl, refl, refl))
      | inr l ↦ rw (q, l) (inl refl)
    ]
    | inr q ↦ let contrary : ok a ≡ err e = rw q at h in cc
  ]

  -- A transaction that has answered has committed, or has rolled back and changed nothing.
  close-ok :
      {A : Type 0} (saved : Tables) (x : Result AclError (End A) × State client) (a : A)
      → (close client saved x).0 ≡ ok a
      → (x.0 ≡ ok (commit a))
          × ((close client saved x).1.0.db ≡ x.1.0.db)
          × ((close client saved x).1.1 ≡ x.1.1)
        ⊎ (x.0 ≡ ok (rollback a))
          × ((close client saved x).1.0.db ≡ saved)
          × ((close client saved x).1.1 ≡ x.1.1)
  close-ok saved (err e, (w, s)) a h = let contrary : err e ≡ ok a = h in cc
  close-ok saved (ok (rollback b), (w, s)) a h =
      inr (ap (λ c. ok (rollback c)) (ok-injective {E = AclError} {a = b} {b = a} h), refl, refl)
  close-ok saved (ok (commit b), (w, s)) a h = elim (Bool-cases (faulty w)) [
    | inl q ↦ let contrary : err (database_error unavailable) ≡ ok a = rw q at h in cc
    | inr q ↦
        let same : b ≡ a = ok-injective (rw q at h) in
        inl (ap (λ c. ok (commit c)) same, rw q refl, rw q refl)
  ]

  -- A transaction that fails leaves the tables as they were, or its COMMIT took effect.
  pub in_transaction-err :
      {A : Type 0} (body : Op client (End A)) (st : State client) (e : AclError)
      → (in_transaction client body st).0 ≡ err e
      → ((in_transaction client body st).1.0.db ≡ st.0.db)
        ⊎ (a : A) × ((body (arrive st.0, st.1)).0 ≡ ok (commit a))
          × ((in_transaction client body st).1.0.db ≡ (body (arrive st.0, st.1)).1.0.db)
          × ((in_transaction client body st).1.1 ≡ (body (arrive st.0, st.1)).1.1)
  unfolding in_transaction
  in_transaction-err body st e h = elim (Bool-cases (faulty st.0)) [
    | inl q ↦ rw (q, in_transaction) (inl refl)
    | inr q ↦
        rw (q, in_transaction)
          (close-err st.0.db (body (arrive st.0, st.1)) e (rw (q, in_transaction) at h))
  ]

  pub in_transaction-ok :
      {A : Type 0} (body : Op client (End A)) (st : State client) (a : A)
      → (in_transaction client body st).0 ≡ ok a
      → ((body (arrive st.0, st.1)).0 ≡ ok (commit a))
          × ((in_transaction client body st).1.0.db ≡ (body (arrive st.0, st.1)).1.0.db)
          × ((in_transaction client body st).1.1 ≡ (body (arrive st.0, st.1)).1.1)
        ⊎ ((body (arrive st.0, st.1)).0 ≡ ok (rollback a))
          × ((in_transaction client body st).1.0.db ≡ st.0.db)
          × ((in_transaction client body st).1.1 ≡ (body (arrive st.0, st.1)).1.1)
  unfolding in_transaction
  in_transaction-ok body st a h = elim (Bool-cases (faulty st.0)) [
    | inl q ↦
        let contrary : err (database_error unavailable) ≡ ok a = rw (q, in_transaction) at h in cc
    | inr q ↦
        rw (q, in_transaction)
          (close-ok st.0.db (body (arrive st.0, st.1)) a (rw (q, in_transaction) at h))
  ]
