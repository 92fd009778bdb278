-- ===== src/Updates.antt =====
-- Laws of `update_where` and of counting rows by a test, for the tables of every component.
use hrm_grag.Prelude.{
  ==_iff, All, Bool, Bool-cases, List, [], any, arith, count, false, inl, inr, insert_by, is_empty,
  leb, not, refl, select, sort_by, suc, take, true, update_where, zero, ℕ, ◌&&◌, ◌++◌, ◌+◌, ◌<◌,
  ◌==◌, ◌||◌, ◌∷◌, ◌≡◌, ◌≤◌,
}

module _ {A : Type 0} where
  -- An update moves the rows that it hits from one side of a test to the other.
  pub count-update :
      (q p : A → Bool) (f : A → A) (xs : List A)
      → count q (update_where p f xs) + count (λ x. p x && q x) xs
        ≡ count q xs + count (λ x. p x && q (f x)) xs
  count-update q p f [] = refl
  count-update q p f (x ∷ xs) = ground (arith, count-update q p f xs)

  pub All-update {ℓ} :
      (P : A → Type ℓ) (p : A → Bool) (f : A → A) (xs : List A)
      → ((x : A) → p x ≡ true → P x → P (f x))
      → All P xs
      → All P (update_where p f xs)
  All-update P p f [] h a = tt
  All-update P p f (x ∷ xs) h a = elim (Bool-cases (p x)) [
    | inl e ↦ (rw e (h x e a.0), All-update P p f xs h a.1)
    | inr e ↦ (rw e a.0, All-update P p f xs h a.1)
  ]

  pub count_none : (q : A → Bool) (xs : List A) → All (λ x. q x ≡ false) xs → count q xs ≡ 0
  count_none q [] h = refl
  count_none q (x ∷ xs) h = ground (arith, count_none q xs h.1)

  pub none_counted : (q : A → Bool) (xs : List A) → count q xs ≡ 0 → All (λ x. q x ≡ false) xs
  none_counted q [] h = tt
  none_counted q (x ∷ xs) h = (ground arith, none_counted q xs (ground arith))

  pub count-le-count :
      (q r : A → Bool) (xs : List A)
      → All (λ x. q x ≡ true → r x ≡ true) xs
      → count q xs ≤ count r xs
  count-le-count q r [] h = omega arith
  count-le-count q r (x ∷ xs) h = ground (arith, h.0, count-le-count q r xs h.1)

  pub update_where-none :
      (p : A → Bool) (f : A → A) (xs : List A) → count p xs ≡ 0 → update_where p f xs ≡ xs
  update_where-none p f [] h = refl
  update_where-none p f (x ∷ xs) h = ground (arith, update_where-none p f xs)

  pub count-update_id :
      (q p : A → Bool) (f : A → A) (xs : List A)
      → ((x : A) → q (f x) ≡ q x)
      → count q (update_where p f xs) ≡ count q xs
  count-update_id q p f [] h = refl
  count-update_id q p f (x ∷ xs) h = ground (arith, h x, count-update_id q p f xs h)

  pub All-of_All {ℓ κ} :
      (P : A → Type ℓ) (Q : A → Type κ) (xs : List A) → ((x : A) → P x → Q x) → All P xs → All Q xs
  All-of_All P Q [] h a = tt
  All-of_All P Q (x ∷ xs) h a = (h x a.0, All-of_All P Q xs h a.1)

  pub select-none : (q : A → Bool) (xs : List A) → count q xs ≡ 0 → select q xs ≡ []
  select-none q [] h = refl
  select-none q (x ∷ xs) h = ground (arith, select-none q xs)

  -- After an update, the rows that the test picks have been rewritten.
  pub update_where-All {ℓ} :
      (P : A → Type ℓ) (p : A → Bool) (f : A → A) (xs : List A)
      → ((x : A) → P (f x))
      → All (λ x. p x ≡ true → P x) (update_where p f xs)
  update_where-All P p f [] h = tt
  update_where-All P p f (x ∷ xs) h = elim (Bool-cases (p x)) [
    | inl e ↦ (rw e (λ _. h x), update_where-All P p f xs h)
    | inr e ↦ (rw e (λ yes. cc), update_where-All P p f xs h)
  ]

  pub All-every {ℓ} : (P : A → Type ℓ) (xs : List A) → ((x : A) → P x) → All P xs
  All-every P [] h = tt
  All-every P (x ∷ xs) h = (h x, All-every P xs h)

  pub All-select {ℓ} :
      (P : A → Type ℓ) (q : A → Bool) (xs : List A)
      → All P xs
      → All (λ x. P x × (q x ≡ true)) (select q xs)
  All-select P q [] h = tt
  All-select P q (x ∷ xs) h = elim (Bool-cases (q x)) [
    | inl e ↦ rw e ((h.0, e), All-select P q xs h.1)
    | inr e ↦ rw e (All-select P q xs h.1)
  ]

  pub All-take {ℓ} : (P : A → Type ℓ) (n : ℕ) (xs : List A) → All P xs → All P (take n xs)
  All-take P zero xs h = tt
  All-take P (suc n) [] h = tt
  All-take P (suc n) (x ∷ xs) h = (h.0, All-take P n xs h.1)

  pub any-any :
      (p q : A → Bool) (xs : List A)
      → ((x : A) → p x ≡ true → q x ≡ true)
      → any p xs ≡ true
      → any q xs ≡ true
  any-any p q [] h a = cc
  any-any p q (x ∷ xs) h a = elim (Bool-cases (p x)) [
    | inl e ↦ rw (h x e) refl
    | inr e ↦ ground (arith, any-any p q xs h (rw e at a))
  ]

  pub count-lt-count :
      (q r : A → Bool) (xs : List A)
      → ((x : A) → q x ≡ true → r x ≡ true)
      → any (λ x. r x && not (q x)) xs ≡ true
      → count q xs < count r xs
  count-lt-count q r [] h a = cc
  count-lt-count q r (x ∷ xs) h a = elim (Bool-cases (any (λ y. r y && not (q y)) xs)) [
    | inl e ↦ ground (arith, h x, count-lt-count q r xs h e)
    | inr e ↦ ground (arith, h x, a, count-le-count q r xs (All-every _ xs h))
  ]

  insert_by-All {ℓ} :
      (P : A → Type ℓ) (key : A → ℕ) (x : A) (xs : List A)
      → P x
      → All P xs
      → All P (insert_by key x xs)
  insert_by-All P key x [] p h = (p, tt)
  insert_by-All P key x (y ∷ ys) p h = elim (Bool-cases (leb (key x) (key y))) [
    | inl e ↦ rw e (p, h)
    | inr e ↦ rw e (h.0, insert_by-All P key x ys p h.1)
  ]

  pub sort_by-All {ℓ} :
      (P : A → Type ℓ) (key : A → ℕ) (xs : List A) → All P xs → All P (sort_by key xs)
  sort_by-All P key [] h = tt
  sort_by-All P key (x ∷ xs) h =
      insert_by-All P key x (sort_by key xs) h.0 (sort_by-All P key xs h.1)

-- Membership of a number in a list.

pub any-append :
    (id : ℕ) (xs ys : List ℕ)
    → any (λ i. i == id) (xs ++ ys) ≡ any (λ i. i == id) xs || any (λ i. i == id) ys
any-append id [] ys = refl
any-append id (x ∷ xs) ys = ground (arith, any-append id xs ys)

pub any-select :
    (id : ℕ) (p : ℕ → Bool) (xs : List ℕ)
    → p id ≡ true
    → any (λ i. i == id) (select p xs) ≡ any (λ i. i == id) xs
any-select id p [] h = refl
any-select id p (x ∷ xs) h = elim (Bool-cases (x == id)) [
  | inl e ↦ let same : x ≡ id = (==_iff x id).0 e in rw (same, h) (ground arith)
  | inr e ↦ ground (arith, e, any-select id p xs h)
]

pub any-is_empty : (id : ℕ) (xs : List ℕ) → any (λ i. i == id) xs ≡ true → is_empty xs ≡ false
any-is_empty id [] h = absurd (ground (arith, h))
any-is_empty id (x ∷ xs) h = refl
