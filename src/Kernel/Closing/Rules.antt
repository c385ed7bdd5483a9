-- ===== src/Kernel/Closing/Rules.antt =====
-- The ways to chain actions, and the calls of the store, leave no more executions open.
use rebuno.Prelude.{
  Bool, List, Option, String, arith, if◌then◌else◌, inl, inr, none, refl, some, ◌≡◌,
}
use rebuno.Action.{
  Action, Result, caught, for_each, of_result, pure, raise, reads, refuse_if, ◌>>=◌,
}
use rebuno.Action.Always.{
  Always-bind, Always-caught, Always-for_each, Always-if, Always-of_result, Always-pure,
  Always-raise, Always-reads, Always-refuse_if,
}
use rebuno.Context.{Context}
use rebuno.Domain.Json.{RawMessage}
use rebuno.Domain.Records.{Approval, Dispatch, Err, EventRecord, Resource, Step, Uuid}
use rebuno.Domain.Status.{ExecutionStatus}
use rebuno.Kernel.Closing.{Closes-preorder, Closing, open_count-insert}
use rebuno.Kernel.Env.{Env, new_uuid}
use rebuno.Memstore.Approvals.{update_approval}
use rebuno.Memstore.Dispatches.{enqueue, retire}
use rebuno.Memstore.Events.{append, append_batch}
use rebuno.Memstore.Events.Growth.{append-OnlyEvents, append_batch-OnlyEvents}
use rebuno.Memstore.Executions.{set_execution_parent, update_execution_status, with_status}
use rebuno.Memstore.Executions.Session.{parent_effect, update_effect}
use rebuno.Memstore.Resources.{put_resource}
use rebuno.Memstore.Steps.{upsert}
use rebuno.Memstore.Store.{Store}

module _ {A : Type 0} where
  pub pure-Closing : (a : A) → Closing (pure a)
  pure-Closing = Always-pure Closes-preorder

  pub raise-Closing : (e : Err) → Closing (raise {A = A} e)
  raise-Closing = Always-raise Closes-preorder

  pub reads-Closing : (f : Store → Result A) → Closing (reads f)
  reads-Closing = Always-reads Closes-preorder

  pub of_result-Closing : (r : Result A) → Closing (of_result r)
  of_result-Closing = Always-of_result Closes-preorder

  pub caught-Closing : (m : Action Store A) → Closing m → Closing (caught m)
  caught-Closing = Always-caught Closes-preorder

  pub if-Closing :
      (b : Bool) (m n : Action Store A) → Closing m → Closing n → Closing (if b then m else n)
  if-Closing = Always-if Closes-preorder

  pub option-Closing :
      {B : Type 0} (o : Option B) (m : Action Store A) (f : B → Action Store A)
      → Closing m
      → ((b : B) → Closing (f b))
      → Closing (elim o [ none ↦ m | some b ↦ f b ])
  option-Closing none m f hm hf = hm
  option-Closing (some b) m f hm hf = hf b

pub refuse_if-Closing : (b : Bool) (e : Err) → Closing (refuse_if b e)
refuse_if-Closing = Always-refuse_if Closes-preorder

pub for_each-Closing :
    {A : Type 0} (f : A → Action Store (Unit {0})) (xs : List A)
    → ((a : A) → Closing (f a))
    → Closing (for_each f xs)
for_each-Closing = Always-for_each Closes-preorder

pub bind-Closing :
    {A B : Type 0} (m : Action Store A) (f : A → Action Store B)
    → Closing m
    → ((a : A) → Closing (f a))
    → Closing (m >>= f)
bind-Closing = Always-bind Closes-preorder

same-Closing :
    {A : Type 0} (m : Action Store A)
    → ((s : Store) → (m s).1.executions ≡ s.executions)
    → Closing m
same-Closing m same = record { at = λ s. record { fewer = rw (same s) (omega arith) } }

pub append-Closing :
    (ctx : Context) (id : Uuid) (type : String) (payload : RawMessage)
    → Closing (append ctx id type payload)
append-Closing ctx id type payload =
    same-Closing _ (λ s. ((append-OnlyEvents ctx id type payload).at s).executions)

pub append_batch-Closing :
    (ctx : Context) (id : Uuid) (rs : List EventRecord) → Closing (append_batch ctx id rs)
append_batch-Closing ctx id rs =
    same-Closing _ (λ s. ((append_batch-OnlyEvents ctx id rs).at s).executions)

pub upsert-Closing : (step : Step) → Closing (upsert step)
unfolding upsert
upsert-Closing step = same-Closing _ (λ s. refl)

pub update_approval-Closing : (a : Approval) → Closing (update_approval a)
unfolding update_approval
update_approval-Closing a = same-Closing _ (λ s. ground arith)

pub put_resource-Closing : (r : Resource) → Closing (put_resource r)
unfolding put_resource
put_resource-Closing r = same-Closing _ (λ s. ground arith)

pub new_uuid-Closing : (env : Env) → Closing (new_uuid env)
unfolding new_uuid
new_uuid-Closing env = same-Closing _ (λ s. refl)

pub retire-Closing : (ctx : Context) (id : Uuid) → Closing (retire ctx id)
unfolding retire
retire-Closing ctx id = same-Closing _ (λ s. ground arith)

pub enqueue-Closing : (ctx : Context) (d : Dispatch) → Closing (enqueue ctx d)
unfolding enqueue
enqueue-Closing ctx d = same-Closing _ (λ s. refl)

pub update_status-Closing :
    (ctx : Context) (id : Uuid) (status : ExecutionStatus) (output : RawMessage) (reason : String)
    → Closing (update_execution_status ctx id status output reason)
update_status-Closing ctx id status output reason = record {
  at = λ s. elim (update_effect ctx id status output reason s) [
    | inl same ↦ rw same (Closes-preorder.same s)
    | inr (e, p, live, free, t) ↦
        let q = open_count-insert id e (with_status ctx status output reason e) s.executions p in
        rw t (record { fewer = ground arith })
  ];
}

pub set_parent-Closing : (id parent : Uuid) → Closing (set_execution_parent id parent)
set_parent-Closing id parent = record {
  at = λ s. elim (parent_effect id parent s) [
    | inl same ↦ rw same (Closes-preorder.same s)
    | inr (e, p, t) ↦
        let q =
          open_count-insert id e (record e { parent_execution_id = some parent }) s.executions p in
        rw t (record { fewer = ground arith })
  ];
}

-- How the operations on the way of a cancellation are put together.
pub ruleset closing = (
  pure-Closing, raise-Closing, reads-Closing, of_result-Closing, caught-Closing, if-Closing,
  option-Closing, refuse_if-Closing, for_each-Closing, bind-Closing, append-Closing,
  append_batch-Closing, upsert-Closing, update_approval-Closing, put_resource-Closing,
  new_uuid-Closing, retire-Closing, enqueue-Closing, update_status-Closing, set_parent-Closing,
)
