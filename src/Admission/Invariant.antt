-- ===== src/Admission/Invariant.antt =====
-- What holds of all requests together, however their steps interleave.
use hrm_grag.Admission.{
  ChatAdmission, Phase, Reach, Shared, Signal, Step, System, admitted, advance, advances, after,
  arrives, arriving, begin, busy, counted, drop_permit, go_on, gone, leave, queueing, rejected,
  time_up,
}
use hrm_grag.Prelude.{
  Bool, List, Option, arith, count, count-append, false, if◌then◌else◌, leb, none, not, refl, some,
  true, ℕ, ◌++◌, ◌+◌, ◌<◌, ◌∷◌, ◌≡◌, ◌≤◌, ◌⊎◌,
}
use hrm_grag.Updates.{All-every, count-le-count}

abbrev pub is_admitted : Phase → Bool
is_admitted admitted = true
is_admitted _ = false

-- Those whose guard is alive.
abbrev pub is_counted : Phase → Bool
is_counted (counted previous) = true
is_counted queueing = true
is_counted _ = false

-- Those that found room in the queue.
abbrev pub has_room : ℕ → Phase → Bool
has_room depth (counted previous) = not (leb depth previous)
has_room depth queueing = true
has_room depth _ = false

pub record IsSound (c : ChatAdmission) (s : System) : Type 0 where
  pub permits_kept : s.shared.permits + count is_admitted s.requests ≡ c.concurrency
  pub waiting_exact : s.shared.waiting ≡ count is_counted s.requests
  pub queue_bounded : count (has_room c.queue_depth) s.requests ≤ c.queue_depth

-- What one step does to the counts.
abbrev one : Bool → ℕ
one b = if b then 1 else 0

abbrev pub IsBalanced : ChatAdmission → Shared → Phase → Shared → Phase → Type 0
IsBalanced c s p s' p' =
    (s'.permits + one (is_admitted p') ≡ s.permits + one (is_admitted p))
    × (one (is_counted p) ≤ s.waiting
        → s'.waiting + one (is_counted p) ≡ s.waiting + one (is_counted p'))
    × ((one (has_room c.queue_depth p') ≤ one (has_room c.queue_depth p))
        ⊎ (s.waiting < c.queue_depth))

abbrev Balances : ChatAdmission → Shared → Phase → Option (Shared × Phase) → Type 0
Balances c s p none = Unit
Balances c s p (some (s', p')) = IsBalanced c s p s' p'

advance-Balances :
    (c : ChatAdmission) (signal : Signal) (s : Shared) (p : Phase)
    → Balances c s p (advance c signal s p)
unfolding advance
advance-Balances c go_on s arriving = ground arith
advance-Balances c go_on s busy = ground arith
advance-Balances c go_on s (counted previous) = ground arith
advance-Balances c go_on s queueing = ground arith
advance-Balances c go_on s admitted = tt
advance-Balances c go_on s gone = tt
advance-Balances c go_on s (rejected r) = tt
advance-Balances c time_up s arriving = tt
advance-Balances c time_up s busy = tt
advance-Balances c time_up s (counted previous) = tt
advance-Balances c time_up s queueing = ground arith
advance-Balances c time_up s admitted = tt
advance-Balances c time_up s gone = tt
advance-Balances c time_up s (rejected r) = tt
advance-Balances c leave s arriving = tt
advance-Balances c leave s busy = tt
advance-Balances c leave s (counted previous) = tt
advance-Balances c leave s queueing = ground arith
advance-Balances c leave s admitted = tt
advance-Balances c leave s gone = tt
advance-Balances c leave s (rejected r) = tt
advance-Balances c drop_permit s arriving = tt
advance-Balances c drop_permit s busy = tt
advance-Balances c drop_permit s (counted previous) = tt
advance-Balances c drop_permit s queueing = tt
advance-Balances c drop_permit s admitted = ground arith
advance-Balances c drop_permit s gone = tt
advance-Balances c drop_permit s (rejected r) = tt

room_counted : (depth : ℕ) (p : Phase) → has_room depth p ≡ true → is_counted p ≡ true
room_counted depth (counted previous) h = refl
room_counted depth queueing h = refl
room_counted depth arriving h = cc
room_counted depth busy h = cc
room_counted depth admitted h = cc
room_counted depth gone h = cc
room_counted depth (rejected r) h = cc

module _ (c : ChatAdmission) where
  advances-IsSound :
      (front back : List Phase) (s s' : Shared) (p p' : Phase)
      → IsBalanced c s p s' p'
      → IsSound c (record { shared = s; requests = front ++ (p ∷ back) })
      → IsSound c (record { shared = s'; requests = front ++ (p' ∷ back) })
  advances-IsSound front back s s' p p' b sound = record {
    permits_kept = ground (
      arith,
      sound.permits_kept,
      b.0,
      count-append is_admitted front (p ∷ back),
      count-append is_admitted front (p' ∷ back),
    );
    waiting_exact = ground (
      arith,
      sound.waiting_exact,
      b.1,
      count-append is_counted front (p ∷ back),
      count-append is_counted front (p' ∷ back),
    );
    queue_bounded = ground (
      arith,
      sound.queue_bounded,
      sound.waiting_exact,
      b.2,
      count-append (has_room c.queue_depth) front (p ∷ back),
      count-append (has_room c.queue_depth) front (p' ∷ back),
      count-le-count (has_room c.queue_depth) is_counted (front ++ (p ∷ back))
          (All-every _ (front ++ (p ∷ back)) (room_counted c.queue_depth)),
    );
  }

  step-IsSound : (s s' : System) → Step c s s' → IsSound c s → IsSound c s'
  step-IsSound _ _ (arrives s) sound = record {
    permits_kept = ground (arith, sound.permits_kept);
    waiting_exact = ground (arith, sound.waiting_exact);
    queue_bounded = ground (arith, sound.queue_bounded);
  }
  step-IsSound _ _ (advances front back t t' p p' signal h) sound =
      advances-IsSound front back t t' p p' (rw h at (advance-Balances c signal t p)) sound

  -- However the steps of all requests interleave, and wherever clients leave: the free permits and
  -- the admitted requests add up to the concurrency, the counter is the number of requests that have
  -- counted themselves and not yet ended, and those that found room are at most the queue's depth.
  pub admission-IsSound : (s : System) → Reach c s → IsSound c s
  admission-IsSound _ begin = record {
    permits_kept = omega arith;
    waiting_exact = refl;
    queue_bounded = omega arith;
  }
  admission-IsSound _ (after s s' r step) = step-IsSound s s' step (admission-IsSound s r)

  -- The next step of a request that waits lets it in.
  abbrev pub IsLetIn : Shared → Type 0
  IsLetIn s = (s' : Shared) × (advance c go_on s queueing ≡ some (s', admitted))
