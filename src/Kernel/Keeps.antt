-- ===== src/Kernel/Keeps.antt =====
-- What every operation of the kernel does to the store, whatever it returns, with a rule for each of
-- the store's operations that the kernel calls.
pub mod Rules
pub mod Calls
pub mod Queue
pub mod Steps
pub mod Approvals
pub mod Endings
pub mod Created
pub mod Submitted
use rebuno.Prelude.{arith, refl, string_eq, ◌≡◌}
use rebuno.Action.{Action, ◌>>=◌}
use rebuno.Action.Always.{Always, Preorder}
use rebuno.Domain.Records.{Step}
use rebuno.Memstore.Dispatches.Locked.{QueueInv}
use rebuno.Memstore.Events.Growth.{LogsGrow, LogsGrow-chain, LogsGrow-of_eq, OnlyEvents}
use rebuno.Memstore.Events.Log.{IsNumbered}
use rebuno.Memstore.Executions.Ending.{KeepsEndings, KeepsEndings-chain, KeepsEndings-of_eq}
use rebuno.Memstore.Executions.Session.{SessionInv, SessionInv-of_eq}
use rebuno.Memstore.Steps.Outcome.{KeepsOutcomes, KeepsOutcomes-preorder}
use rebuno.Memstore.Store.{Store}
use rebuno.Prelude.Dict.{IsKeyed}

-- The steps of the store stand under their identifiers.
abbrev pub StepsKeyed : Store → Type 0
StepsKeyed s = IsKeyed ⦃e = string_eq⦄ (λ (step : Step). step.step_id) s.steps

-- From s to t: settled steps and ended executions stay as they are, logs only grow, and the invariants of steps, sessions, logs and the queue carry over.
pub record Keeps (s t : Store) : Type 0 where
  pub outcomes : KeepsOutcomes s t
  pub endings : KeepsEndings s t
  pub logs : LogsGrow s t
  pub sessions : SessionInv s → SessionInv t
  pub numbered : IsNumbered s → IsNumbered t
  pub queue : QueueInv s → QueueInv t
  pub keyed : StepsKeyed s → StepsKeyed t

-- The parts of the store that Keeps speaks of are the same.
pub record SameCore (s t : Store) : Type 0 where
  pub executions : t.executions ≡ s.executions
  pub steps : t.steps ≡ s.steps
  pub events : t.events ≡ s.events
  pub dispatches : t.dispatches ≡ s.dispatches

IsNumbered-of_eq : (s t : Store) → t.events ≡ s.events → IsNumbered s → IsNumbered t
IsNumbered-of_eq s t q h id = rw q (h id)

KeepsOutcomes-of_eq : (s t : Store) → t.steps ≡ s.steps → KeepsOutcomes s t
KeepsOutcomes-of_eq s t q = record { kept = λ id step p h. (step, rw q p, ground arith) }

QueueInv-of_eq : (s t : Store) → t.dispatches ≡ s.dispatches → QueueInv s → QueueInv t
QueueInv-of_eq s t q h = record {
  queued = rw q h.queued;
  locked = λ id d p. h.locked id d (rw (← q) p);
}

pub Keeps-of_SameCore : (s t : Store) → SameCore s t → Keeps s t
Keeps-of_SameCore s t q = record {
  outcomes = KeepsOutcomes-of_eq s t q.steps;
  endings = KeepsEndings-of_eq s t q.executions;
  logs = LogsGrow-of_eq s t q.events;
  sessions = SessionInv-of_eq s t q.executions;
  numbered = IsNumbered-of_eq s t q.events;
  queue = QueueInv-of_eq s t q.dispatches;
  keyed = λ h. rw q.steps h;
}

pub Keeps-preorder : Preorder Keeps
Keeps-preorder = record {
  same = λ s.
      Keeps-of_SameCore s s
        (record { executions = refl; steps = refl; events = refl; dispatches = refl });
  chain = λ s t u p q. record {
    outcomes = KeepsOutcomes-preorder.chain s t u p.outcomes q.outcomes;
    endings = KeepsEndings-chain s t u p.endings q.endings;
    logs = LogsGrow-chain s t u p.logs q.logs;
    sessions = λ h. q.sessions (p.sessions h);
    numbered = λ h. q.numbered (p.numbered h);
    queue = λ h. q.queue (p.queue h);
    keyed = λ h. q.keyed (p.keyed h);
  };
}

-- A write to the dispatches alone.
pub Keeps-of_queue :
    (s t : Store)
    → t.executions ≡ s.executions
    → t.steps ≡ s.steps
    → t.events ≡ s.events
    → (QueueInv s → QueueInv t)
    → Keeps s t
Keeps-of_queue s t e st ev q = record {
  outcomes = KeepsOutcomes-of_eq s t st;
  endings = KeepsEndings-of_eq s t e;
  logs = LogsGrow-of_eq s t ev;
  sessions = SessionInv-of_eq s t e;
  numbered = IsNumbered-of_eq s t ev;
  queue = q;
  keyed = λ h. rw st h;
}

-- A write to the executions alone.
pub Keeps-of_executions :
    (s t : Store)
    → t.steps ≡ s.steps
    → t.events ≡ s.events
    → t.dispatches ≡ s.dispatches
    → KeepsEndings s t
    → (SessionInv s → SessionInv t)
    → Keeps s t
Keeps-of_executions s t st ev d ends sess = record {
  outcomes = KeepsOutcomes-of_eq s t st;
  endings = ends;
  logs = LogsGrow-of_eq s t ev;
  sessions = sess;
  numbered = IsNumbered-of_eq s t ev;
  queue = QueueInv-of_eq s t d;
  keyed = λ h. rw st h;
}

-- A write to the events alone.
pub Keeps-of_events :
    (s t : Store) → OnlyEvents s t → LogsGrow s t → (IsNumbered s → IsNumbered t) → Keeps s t
Keeps-of_events s t only grow counted = record {
  outcomes = KeepsOutcomes-of_eq s t only.steps;
  endings = KeepsEndings-of_eq s t only.executions;
  logs = grow;
  sessions = SessionInv-of_eq s t only.executions;
  numbered = counted;
  queue = QueueInv-of_eq s t only.dispatches;
  keyed = λ h. rw only.steps h;
}

-- Every run of the action keeps what Keeps says.
abbrev pub Keeping : {A : Type 0} → Action Store A → Type 0
Keeping m = Always Keeps m
