-- ===== src/Admission.antt =====
-- gmrag_api/src/admission.rs: how many chats run at once, and how many wait. Requests run
-- `acquire` concurrently over a semaphore and an atomic counter; what one of them does between two
-- points at which others can act is one step. Durations are whole seconds, and the counter does
-- not wrap around.
pub mod Invariant
pub mod Checks
use hrm_grag.Outbox.{clamp, u64_max, unwrap_or}
use hrm_grag.Prelude.{
  List, Option, String, [], if◌then◌else◌, leb, none, some, ℕ, ◌++◌, ◌+◌, ◌-◌, ◌∷◌, ◌≡◌,
}
use hrm_grag.Prelude.Text.{Text, codes, parse_unsigned, trim}

pub data AdmissionRejection : Type 0 where
  queue_full wait_timeout : AdmissionRejection

abbrev pub as_str : AdmissionRejection → Text
as_str queue_full = codes "queue_full"
as_str wait_timeout = codes "wait_timeout"

-- The semaphore is in `Shared`, with the number of its permits here.
pub record ChatAdmission : Type 0 where
  pub concurrency : ℕ
  pub queue_depth : ℕ
  pub wait_timeout_secs : ℕ

-- `ChatAdmission::new`
abbrev pub new_admission : ℕ → ℕ → ℕ → ChatAdmission
new_admission concurrency queue_depth wait_secs = record {
  concurrency = if leb 1 concurrency then concurrency else 1;
  queue_depth = queue_depth;
  wait_timeout_secs = wait_secs;
}

abbrev pub default_admission : ChatAdmission
default_admission = new_admission 10 20 15

abbrev parsed : Option Text → ℕ → ℕ
parsed none default = default
parsed (some value) default = unwrap_or default (parse_unsigned u64_max (trim value))

-- `parse_usize_env` and `parse_u64_env`, where usize has 64 bits.
unfoldable pub parse_number_env : Option Text → ℕ → ℕ
unfolding parse_unsigned trim
parse_number_env var default = parsed var default

-- `ChatAdmission::from_env`
unfoldable pub admission_from_env : (String → Option Text) → ChatAdmission
unfolding parse_number_env
admission_from_env env =
    let concurrency = parse_number_env (env "GMRAG_CHAT_CONCURRENCY") 10 in
    new_admission (if leb 1 concurrency then concurrency else 1)
      (parse_number_env (env "GMRAG_CHAT_QUEUE_DEPTH") 20)
      (clamp 1 120 (parse_number_env (env "GMRAG_CHAT_QUEUE_WAIT_SECS") 15))

abbrev pub retry_after_secs : ChatAdmission → ℕ
retry_after_secs c = if leb 1 c.wait_timeout_secs then c.wait_timeout_secs else 1

-- The permits that are left, and the counter of those who wait.
pub record Shared : Type 0 where
  pub permits : ℕ
  pub waiting : ℕ

-- Where a request stands in `acquire`, with what it has read of the counter: before it has asked
-- for a permit, after there was none, after it has counted itself, in the queue, and at the end.
-- A permit that was given is held until the request is over.
pub data Phase : Type 0 where
  arriving busy queueing admitted gone : Phase
  counted : ℕ → Phase
  rejected : AdmissionRejection → Phase

-- What happens to a request: its code runs on, its time is up, its client leaves while it waits,
-- or its permit is dropped.
pub data Signal : Type 0 where
  go_on time_up leave drop_permit : Signal

-- The guard is dropped.
abbrev pub uncount : Shared → Shared
uncount s = record s { waiting = s.waiting - 1 }

-- One step of `acquire`, or `none` where it does not take such a step: for a permit it waits.
unfoldable pub advance : ChatAdmission → Signal → Shared → Phase → Option (Shared × Phase)
advance c go_on s arriving =
    if leb 1 s.permits
    then some (record s { permits = s.permits - 1 }, admitted)
    else some (s, busy)
advance c go_on s busy = some (record s { waiting = s.waiting + 1 }, counted s.waiting)
advance c go_on s (counted previous) =
    if leb c.queue_depth previous then some (uncount s, rejected queue_full) else some (s, queueing)
advance c go_on s queueing =
    if leb 1 s.permits
    then some (uncount (record s { permits = s.permits - 1 }), admitted)
    else none
advance c time_up s queueing = some (uncount s, rejected wait_timeout)
advance c leave s queueing = some (uncount s, gone)
advance c drop_permit s admitted = some (record s { permits = s.permits + 1 }, gone)
advance c _ s _ = none

pub record System : Type 0 where
  pub shared : Shared
  pub requests : List Phase

abbrev pub start : ChatAdmission → System
start c = record { shared = record { permits = c.concurrency; waiting = 0 }; requests = [] }

-- A request arrives, or one of them takes a step.
pub data Step (c : ChatAdmission) : System → System → Type 0 where
  arrives : (s : System) → Step c s (record s { requests = arriving ∷ s.requests })
  advances :
      (front back : List Phase) (s s' : Shared) (p p' : Phase) (signal : Signal)
      → advance c signal s p ≡ some (s', p')
      → Step c
          (record { shared = s; requests = front ++ (p ∷ back) })
          (record { shared = s'; requests = front ++ (p' ∷ back) })

pub data Reach (c : ChatAdmission) : System → Type 0 where
  begin : Reach c (start c)
  after : (s s' : System) → Reach c s → Step c s s' → Reach c s'
