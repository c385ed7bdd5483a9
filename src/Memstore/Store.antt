-- ===== src/Memstore/Store.antt =====
-- The Store of internal/store/memstore/store.go. Each map is an association list. The mutexes and
-- channels serialise the calls and hold no data, so they are left out; API keys are too. `issued`
-- counts the UUIDs that uuid.NewV7 has handed out.
use Prim.Native.String.{compare}
use text.Mathlib.Text.{is_lt}
use rebuno.Prelude.{
  Bool, Eq, List, String, [], arith, eq_iff, string_eq, true, ℕ, ℕ_eq, ◌&&◌, ◌==◌, ◌↔◌, ◌≡◌,
}
use rebuno.Domain.Json.{RawMessage}
use rebuno.Domain.Records.{
  Agent, Approval, Dispatch, Event, Execution, Resource, ResourceCheckpoint, Step, StepKind, Uuid,
}
use rebuno.Prelude.Dict.{Dict}

-- counterKey of steps.go
pub record CounterKey : Type 0 where
  pub dispatch_id : Uuid
  pub kind : StepKind
  pub target : String
  pub args_hash : String

abbrev counter_key_beq : CounterKey → CounterKey → Bool
counter_key_beq a b =
    (a.dispatch_id == b.dispatch_id)
    && ((a.kind == b.kind) && ((a.target == b.target) && (a.args_hash == b.args_hash)))

pub counter_key_beq_iff : (a b : CounterKey) → (counter_key_beq a b ≡ true) ↔ (a ≡ b)
counter_key_beq_iff a b =
    ground (arith, eq_iff a.kind b.kind, eq_iff a.target b.target, eq_iff a.args_hash b.args_hash)

instance abbrev pub counter_key_eq : Eq CounterKey
counter_key_eq = record { beq = counter_key_beq; beq_iff = counter_key_beq_iff }

pub record Store : Type 0 where
  pub agents : Dict String Agent
  pub executions : Dict Uuid Execution
  pub states : Dict Uuid RawMessage
  pub events : Dict Uuid (List Event)
  pub steps : Dict String Step
  pub approvals : Dict Uuid Approval
  pub dispatches : Dict Uuid Dispatch
  pub counters : Dict CounterKey ℕ
  pub resources : List Resource
  pub checkpoints : List ResourceCheckpoint
  pub issued : ℕ

-- NewStore
abbrev pub new_store : Store
new_store = record {
  agents = [];
  executions = [];
  states = [];
  events = [];
  steps = [];
  approvals = [];
  dispatches = [];
  counters = [];
  resources = [];
  checkpoints = [];
  issued = 0;
}

-- out[i].StepID < out[j].StepID
abbrev pub step_id_less : String → String → Bool
step_id_less a b = is_lt (compare a b)
