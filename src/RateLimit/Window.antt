-- ===== src/RateLimit/Window.antt =====
-- What the sliding windows of gmrag_api/src/rate_limit.rs guarantee, over any sequence of calls
-- for any keys. The lock orders the calls, and the clock is read under it.
use hrm_grag.Prelude.{
  Bool, Bool-cases, List, [], ap, arith, count, count-append, count-le-length, false, if◌then◌else◌,
  inl, inr, leb, length, ltb, refl, sym, true, ℕ, ◌&&◌, ◌++◌, ◌+◌, ◌<◌, ◌∙◌, ◌∷◌, ◌≡◌, ◌≤◌,
}
use hrm_grag.Prelude.Text.{Text, text_eq, text_eq_iff}
use hrm_grag.RateLimit.{SlidingWindowRateLimiter, allow, entry, expire, new_limiter, set_entry}

-- A call for a key at an instant.
pub record Call : Type 0 where
  pub scope_key : Text
  pub now : ℕ

-- The instants at which the calls for a key were let through.
unfoldable pub admitted : Text → List Call → SlidingWindowRateLimiter → List ℕ
admitted key [] limiter = []
admitted key (c ∷ cs) limiter =
    let (passed, limiter') = allow c.scope_key c.now limiter in
    let rest = admitted key cs limiter' in
    if passed && text_eq c.scope_key key then c.now ∷ rest else rest

-- The clock does not go back.
abbrev pub IsOrdered : ℕ → List Call → Type 0
IsOrdered last [] = Unit
IsOrdered last (c ∷ cs) = (last ≤ c.now) × IsOrdered c.now cs

abbrev pub is_within : ℕ → ℕ → ℕ → Bool
is_within start window at = leb start at && ltb at (start + window)

text_eq-congr : (k c key : Text) → text_eq k c ≡ true → text_eq k key ≡ text_eq c key
text_eq-congr k c key e = ap (λ x. text_eq x key) ((text_eq_iff k c).0 e)

text_eq-same : (k : Text) → text_eq k k ≡ true
text_eq-same k = (text_eq_iff k k).1 refl

entry-set_same :
    (key : Text) (q : List ℕ) (m : List (Text × List ℕ)) → entry key (set_entry key q m) ≡ q
unfolding entry set_entry
entry-set_same key q [] = ground (arith, text_eq-same key)
entry-set_same key q ((k, old) ∷ m) = ground (arith, entry-set_same key q m)

entry-set_other :
    (c key : Text) (q : List ℕ) (m : List (Text × List ℕ))
    → text_eq c key ≡ false
    → entry key (set_entry c q m) ≡ entry key m
unfolding entry set_entry
entry-set_other c key q [] h = ground (arith, h)
entry-set_other c key q ((k, old) ∷ m) h = elim (Bool-cases (text_eq k c)) [
  | inl e ↦ ground (arith, text_eq-congr k c key e)
  | inr e ↦ ground (arith, entry-set_other c key q m h)
]

-- What expires had left every window that is still open.
expire-open :
    (window now start : ℕ) (q : List ℕ)
    → 0 < window
    → now < start + window
    → count (leb start) (expire window now q) ≡ count (leb start) q
unfolding expire
expire-open window now start [] pos_window h = refl
expire-open window now start (s ∷ q) pos_window h =
    ground (arith, expire-open window now start q pos_window h)

-- The counts after a call at `now` that passed.
abbrev counted : (ℕ → ℕ → Bool) → ℕ → (ℕ → ℕ) → ℕ → ℕ
counted p now f start = f start + (if p start now then 1 else 0)

-- `f` counts what was admitted inside a window so far, `g` what was admitted from its start on,
-- for a queue `q` and calls up to `last`.
record IsTracked (limit window last : ℕ) (q : List ℕ) (f g : ℕ → ℕ) : Type 0 where
  below : (start : ℕ) → f start ≤ g start
  bounded : (start : ℕ) → f start ≤ limit
  tracked : (start : ℕ) → last < start + window → g start ≡ count (leb start) q

module _ (limit window last now : ℕ) (q : List ℕ) (f g : ℕ → ℕ) where
  IsTracked-expire :
      0 < window
      → last ≤ now
      → IsTracked limit window last q f g
      → IsTracked limit window now (expire window now q) f g
  IsTracked-expire pos_window later i = record {
    below = i.below;
    bounded = i.bounded;
    tracked = λ start h.
        omega (arith, i.tracked start (omega arith), expire-open window now start q pos_window h);
  }

  IsTracked-push :
      length q < limit
      → IsTracked limit window now q f g
      → IsTracked limit window now
          (q ++ now ∷ [])
          (counted (λ s. is_within s window) now f)
          (counted leb now g)
  IsTracked-push room i = record {
    below = λ start. ground (arith, i.below start);
    bounded = λ start.
        ground
          (arith, i.below start, i.bounded start, i.tracked start, count-le-length (leb start) q);
    tracked = λ start h. ground (arith, i.tracked start h, count-append (leb start) q (now ∷ []));
  }

  IsTracked-later :
      last ≤ now → IsTracked limit window last q f g → IsTracked limit window now q f g
  IsTracked-later later i = record {
    below = i.below;
    bounded = i.bounded;
    tracked = λ start h. i.tracked start (omega arith);
  }

entry-set_eq :
    (c key : Text) (q : List ℕ) (m : List (Text × List ℕ))
    → text_eq c key ≡ true
    → entry key (set_entry c q m) ≡ q
entry-set_eq c key q m h =
    ap (λ x. entry x (set_entry c q m)) (sym ((text_eq_iff c key).0 h)) ∙ entry-set_same c q m

within_limit :
    (key : Text) (cs : List Call) (limiter : SlidingWindowRateLimiter) (last : ℕ) (f g : ℕ → ℕ)
    → 0 < limiter.window
    → IsOrdered last cs
    → IsTracked limiter.max_requests limiter.window last (entry key limiter.state) f g
    → (start : ℕ)
    → f start + count (is_within start limiter.window) (admitted key cs limiter)
      ≤ limiter.max_requests
unfolding admitted allow
within_limit key [] limiter last f g pos_window ordered i start = omega (arith, i.bounded start)
within_limit key (c ∷ cs) limiter last f g pos_window ordered i start =
    let limit = limiter.max_requests in
    let window = limiter.window in
    let queue = expire window c.now (entry c.scope_key limiter.state) in
    let next = (allow c.scope_key c.now limiter).1 in
    elim (Bool-cases (text_eq c.scope_key key)) [
      | inr other ↦ ground (
        arith,
        other,
        within_limit key cs next c.now f g pos_window ordered.1
            (rw (entry-set_other c.scope_key key _ limiter.state other)
              (IsTracked-later limit window last c.now (entry key limiter.state) f g ordered.0 i))
            start,
      )
      | inl same ↦
          let expired : IsTracked limit window c.now queue f g =
            IsTracked-expire limit window last c.now (entry c.scope_key limiter.state) f g
              pos_window ordered.0
              (rw (ap (λ x. entry x limiter.state) ((text_eq_iff c.scope_key key).0 same)) i) in
          elim (Bool-cases (leb limit (length queue))) [
            | inl full ↦ ground (
              arith,
              same,
              full,
              within_limit key cs next c.now f g pos_window ordered.1
                  (rw (entry-set_eq c.scope_key key _ limiter.state same, full) expired) start,
            )
            | inr room ↦ ground (
              arith,
              same,
              room,
              within_limit key cs next c.now (counted (λ s. is_within s window) c.now f)
                  (counted leb c.now g) pos_window ordered.1
                  (rw (entry-set_eq c.scope_key key _ limiter.state same, room)
                    (IsTracked-push limit window last c.now queue f g (ground arith) expired))
                  start,
            )
          ]
    ]

-- For every key, however the calls of all keys interleave: no more than `max_requests` of its
-- calls are let through within any window of time. The window has a length, and the clock does
-- not go back.
pub window_limit :
    (max_requests window : ℕ) (key : Text) (calls : List Call) (start : ℕ)
    → 0 < window
    → IsOrdered 0 calls
    → count (is_within start window) (admitted key calls (new_limiter max_requests window))
      ≤ max_requests
unfolding entry
window_limit max_requests window key calls start pos_window ordered =
    let limited =
      within_limit key calls (new_limiter max_requests window) 0 (λ s. 0) (λ s. 0) pos_window
        ordered
        (record { below = λ s. omega arith; bounded = λ s. omega arith; tracked = λ s h. refl })
        start in
    omega (arith, limited)
