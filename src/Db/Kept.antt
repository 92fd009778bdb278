-- ===== src/Db/Kept.antt =====
-- What follows for an operation that is atomic: its answers, its failures, and the invariants
-- that it keeps.
use hrm_grag.Db.{M, Result, SqlError, Update, World, answer, arrive, err, ok, unavailable}
use hrm_grag.Db.Atomic.{Acts, Settled, done, err-injective, in_doubt, ok-injective, unchanged}
use hrm_grag.Prelude.{Option, ap, inl, inr, none, refl, some, sym, ℕ, ◌∙◌, ◌≡◌, ◌≢◌, ◌⊎◌}

module _ {S A : Type 0} where
  pub Acts-eq :
      (m : M S A) (f g : ℕ → Update S A) (w : World S)
      → ((t : ℕ) (s : S) → f t s ≡ g t s)
      → Acts m f w
      → Acts m g w
  Acts-eq m f g w e a = record {
    time = a.time;
    on_arrival = a.on_arrival;
    not_before = a.not_before;
    outcome = rw (e a.time w.db) at a.outcome;
  }

  -- What an operation answers, its function gives at the moment at which the first round trip
  -- arrives.
  pub ok-answer :
      (m : M S A) (f : ℕ → Update S A) (w : World S) (x : A)
      → Acts m f w
      → (m w).0 ≡ ok x
      → f (arrive w).now w.db ≡ some (x, (m w).1.db)
  ok-answer m f w x a h = rw (← a.on_arrival) (elim a.outcome [
    | unchanged e h' same c ↦ cc
    | done x' s fx h' hs ↦ rw (hs, ← ok-injective (sym h' ∙ h)) fx
    | in_doubt x' s fx h' hs ↦ cc
  ])

module _ {ℓ} {S A : Type 0} (P : S → Type ℓ) where
  -- What each written state has, the operation keeps.
  pub keep_of-Acts :
      (m : M S A) (f : ℕ → Update S A) (w : World S)
      → Acts m f w
      → ((t : ℕ) (a : A) (s : S) → f t w.db ≡ some (a, s) → P s)
      → P w.db
      → P (m w).1.db
  keep_of-Acts m f w a written p = elim a.outcome [
    | unchanged e h same c ↦ rw same p
    | done x s fx h hs ↦ rw hs (written a.time x s fx)
    | in_doubt x s fx h hs ↦ rw hs (written a.time x s fx)
  ]

module _ {S A B : Type 0} (h : A → B) where
  map-Settled :
      (x : Result SqlError A × World S) (before : S) (o : Option (A × S))
      → Settled x before o
      → Settled {A = B}
          (elim x.0 [ ok a ↦ (ok (h a), x.1) | err e ↦ (err e, x.1) ])
          before
          (elim o [ none ↦ none | some (a, s) ↦ some (h a, s) ])
  map-Settled (err e, w) before o (unchanged e' p same c) =
      let q : e' ≡ e = err-injective (sym p) in
      unchanged e refl same (elim c [ inl u ↦ inl (sym q ∙ u) | inr n ↦ inr (rw n refl) ])
  map-Settled (err e, w) before o (done a s fo p hs) = cc
  map-Settled (err e, w) before o (in_doubt a s fo p hs) =
      rw fo (in_doubt (h a) s refl (ap (λ x. err x) (err-injective p)) hs)
  map-Settled (ok a, w) before o (unchanged e' p same c) = cc
  map-Settled (ok a, w) before o (in_doubt a' s fo p hs) = cc
  map-Settled (ok a, w) before o (done a' s fo p hs) =
      rw fo (done (h a') s refl (rw (ok-injective p)) hs)

  -- An answer computed from the statement's answer.
  pub map-Acts :
      (m : M S A) (f : ℕ → Update S A) (w : World S)
      → Acts m f w
      → Acts (answer h m) (λ t s. elim (f t s) [ none ↦ none | some (a, s') ↦ some (h a, s') ]) w
  map-Acts m f w a = record {
    time = a.time;
    on_arrival = a.on_arrival;
    not_before = a.not_before;
    outcome = map-Settled (m w) w.db (f a.time w.db) a.outcome;
  }

pub some-pair :
    {S A : Type 0} {x y : A} {s t : S}
    → ◌≡◌ {A = Option (A × S)} (some (x, s)) (some (y, t))
    → (x ≡ y) × (s ≡ t)
some-pair h = (cc, cc)

-- What an answer, or a state that was written, is.
module _ {ℓ} {S A : Type 0} {x a : A} {y s : S} where
  pub some_answer :
      (P : A → Type ℓ) → ◌≡◌ {A = Option (A × S)} (some (x, y)) (some (a, s)) → P x → P a
  some_answer P h p = rw (← (some-pair h).0) p

  pub some_written :
      (P : S → Type ℓ) → ◌≡◌ {A = Option (A × S)} (some (x, y)) (some (a, s)) → P y → P s
  some_written P h p = rw (← (some-pair h).1) p

pub Result-cases :
    {E A : Type 0} (r : Result E A) → ((e : E) × (r ≡ err e)) ⊎ ((a : A) × (r ≡ ok a))
Result-cases (err e) = inl (e, refl)
Result-cases (ok a) = inr (a, refl)

module _ {S A : Type 0} where
  -- An operation whose function answers `x` and changes nothing answers that, unless the connection
  -- fails, and changes nothing.
  pub idle_answer :
      (m : M S A) (f : ℕ → Update S A) (w : World S) (x : A)
      → Acts m f w
      → ((t : ℕ) → f t w.db ≡ some (x, w.db))
      → (((m w).0 ≡ ok x) ⊎ ((m w).0 ≡ err unavailable)) × ((m w).1.db ≡ w.db)
  idle_answer m f w x a idle = elim a.outcome [
    | unchanged e h same c ↦ (
      inr (
          h ∙ elim c [
            | inl u ↦ ap (λ y. err y) u
            | inr n ↦
                let contrary : ◌≡◌ {A = Option (A × S)} (some (x, w.db)) none =
                  sym (idle a.time) ∙ n in
                cc
          ]),
      same,
    )
    | done x' s fx h hs ↦
        let same = some-pair (sym (idle a.time) ∙ fx) in
        (inl (h ∙ ap (λ y. ok y) (sym same.0)), hs ∙ sym same.1)
    | in_doubt x' s fx h hs ↦
        let same = some-pair (sym (idle a.time) ∙ fx) in (inr h, hs ∙ sym same.1)
  ]

  -- An operation whose function answers `x` and changes nothing answers nothing else, and changes
  -- nothing whether or not it fails.
  pub idle_of-Acts :
      (m : M S A) (f : ℕ → Update S A) (w : World S) (x y : A)
      → Acts m f w
      → ((t : ℕ) → f t w.db ≡ some (x, w.db))
      → x ≢ y
      → ((m w).0 ≢ ok y) × ((m w).1.db ≡ w.db)
  idle_of-Acts m f w x y a idle ne = elim a.outcome [
    | unchanged e h same c ↦ ((λ h'. cc), same)
    | done x' s fx h hs ↦
        let same = some-pair (sym (idle a.time) ∙ fx) in
        ((λ h'. ne (same.0 ∙ ok-injective (sym h ∙ h'))), hs ∙ sym same.1)
    | in_doubt x' s fx h hs ↦
        let same = some-pair (sym (idle a.time) ∙ fx) in ((λ h'. cc), hs ∙ sym same.1)
  ]
