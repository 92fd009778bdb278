-- ===== src/Admission/Checks.antt =====
-- Examples for gmrag_api/src/admission.rs.
use hrm_grag.Admission.{
  ChatAdmission, Phase, Reach, Shared, System, admitted, advance, advances, after, arrives,
  arriving, begin, busy, counted, go_on, new_admission, queueing, start,
}
use hrm_grag.Admission.Invariant.{IsSound, admission-IsSound}
use hrm_grag.Prelude.{List, [], none, refl, ℕ, ◌∷◌, ◌≡◌}

-- One permit, one place in the queue: the second request waits.
abbrev config : ChatAdmission
config = new_admission 1 1 15

abbrev state : ℕ → ℕ → List Phase → System
state permits waiting requests = record {
  shared = record { permits = permits; waiting = waiting };
  requests = requests;
}

first_in : Reach config (state 0 0 (admitted ∷ []))
unfolding advance
first_in = after _ _ (after _ _ begin (arrives (start config))) (
    advances [] [] (record { permits = 1; waiting = 0 }) (record { permits = 0; waiting = 0 })
      arriving admitted go_on refl)

second_waits : Reach config (state 0 1 (queueing ∷ admitted ∷ []))
unfolding advance
second_waits =
    let shared : Shared = record { permits = 0; waiting = 0 } in
    let shared' : Shared = record { permits = 0; waiting = 1 } in
    after _ _
      (after _ _
        (after _ _ (after _ _ first_in (arrives (state 0 0 (admitted ∷ []))))
          (advances [] (admitted ∷ []) shared shared arriving busy go_on refl))
        (advances [] (admitted ∷ []) shared shared' busy (counted 0) go_on refl))
      (advances [] (admitted ∷ []) shared' shared' (counted 0) queueing go_on refl)

blocked : advance config go_on (record { permits = 0; waiting = 1 }) queueing ≡ none
unfolding advance
blocked = refl

admission-IsSound_example : IsSound config (state 0 1 (queueing ∷ admitted ∷ []))
admission-IsSound_example =
    admission-IsSound config (state 0 1 (queueing ∷ admitted ∷ [])) second_waits
