-- ===== src/Kernel/Fenced.antt =====
-- An execution that is suspended or has ended answers to no worker.
use rebuno.Prelude.{
  Bool, Option, String, ap, arith, false, if◌then◌else◌, none, refl, some, string_eq, subst, sym,
  true, ℕ_eq, ◌∙◌, ◌≡◌,
}
use rebuno.Action.{Action, Result, err, ok, pure}
use rebuno.Action.Laws.{bind_ok_inversion, reads-inversion, refuse_if-inversion}
use rebuno.Auth.{Role}
use rebuno.Context.{Context}
use rebuno.Domain.Json.{RawMessage, empty, is_empty}
use rebuno.Domain.Records.{Execution, Lease, Time, Uuid, lease_superseded}
use rebuno.Domain.Status.{ExecutionStatus, is_terminal}
use rebuno.Kernel.Env.{Env, release_dispatches, renew_authorized_lease}
use rebuno.Kernel.Keeps.{Keeping, Keeps}
use rebuno.Kernel.Keeps.Calls.{append-Keeping, set_execution_state-Keeping, update_status-Keeping}
use rebuno.Kernel.Keeps.Rules.{if-Keeping, pure-Keeping}
use rebuno.Kernel.Keeps.Steps.{release_dispatches-Keeping, renew_authorized_lease-Keeping}
use rebuno.Kernel.Released.{release_dispatches-fences}
use rebuno.Kernel.Replay.{authorized-inversion}
use rebuno.Kernel.Suspend.{block, suspend}
use rebuno.Kernel.Terminal.{complete_tx, finish_tx, has_state}
use rebuno.Memstore.Dispatches.{renew_lease}
use rebuno.Memstore.Dispatches.Locked.{QueueInv}
use rebuno.Memstore.Executions.{update_execution_status, with_status}
use rebuno.Memstore.Store.{Store}
use rebuno.Prelude.Dict.{lookup, lookup-insert_self}

abbrev pub NoLease : Uuid → Store → Type 0
NoLease id s = (lease : Lease) (at : Time) → (renew_lease id lease at s).0 ≡ err lease_superseded

-- What a run left behind, of what Keeps says.
ran-Keeps :
    {A : Type 0} (m : Action Store A) (r : Result A) (s t : Store)
    → Keeping m
    → m s ≡ (r, t)
    → Keeps s t
ran-Keeps m r s t k run = subst (Keeps s) (ap (λ (x : Result _ × Store). x.1) run) (k.at s)

module _ (env : Env) (ctx : Context) (id : Uuid) where
  released-NoLease :
      (s t : Store) → QueueInv s → release_dispatches env ctx id s ≡ (ok tt, t) → NoLease id t
  released-NoLease s t q run =
      let (u, run', fenced) = release_dispatches-fences env ctx id s q.queued in
      let same : u ≡ t = ap (λ (x : Result (Unit {0}) × Store). x.1) (sym run' ∙ run) in
      subst (NoLease id) same fenced

  finish_tx-NoLease :
      (status : ExecutionStatus) (output : RawMessage) (reason : String) (s t : Store)
      → QueueInv s
      → finish_tx env ctx id status output reason s ≡ (ok tt, t)
      → NoLease id t
  unfolding finish_tx
  finish_tx-NoLease status output reason s t q run =
      let (u, s1, r, q1) =
        bind_ok_inversion (update_execution_status ctx id status output reason) _ s tt t run in
      let k = ran-Keeps _ _ s s1 (update_status-Keeping ctx id status output reason) r in
      released-NoLease s1 t (k.queue q) q1

  block-NoLease : (s t : Store) → QueueInv s → block env ctx id s ≡ (ok true, t) → NoLease id t
  unfolding block pure
  block-NoLease s t q run =
      let (ev, s1, r1, q1) = bind_ok_inversion _ _ s true t run in
      let (u, s2, r2, q2) =
        bind_ok_inversion (update_execution_status ctx id ExecutionStatus.blocked empty "") _ s1
          true t q1 in
      let (v, s3, r3, q3) = bind_ok_inversion (release_dispatches env ctx id) _ s2 true t q2 in
      let k1 = ran-Keeps _ _ s s1 (append-Keeping ctx id _ _) r1 in
      let k2 = ran-Keeps _ _ s1 s2 (update_status-Keeping ctx id _ _ _) r2 in
      let same : s3 ≡ t = ap (λ (x : Result Bool × Store). x.1) q3 in
      subst (NoLease id) same (released-NoLease s2 s3 (k2.queue (k1.queue q)) r3)

  awaited-NoLease :
      (waiting : Bool) (s t : Store)
      → QueueInv s
      → (if waiting then block env ctx id else pure false) s ≡ (ok true, t)
      → NoLease id t
  unfolding pure
  awaited-NoLease true s t h p = block-NoLease s t h p
  awaited-NoLease false s t h p = cc

  updated-ended :
      (status : ExecutionStatus) (output : RawMessage) (reason : String) (s t : Store)
      → update_execution_status ctx id status output reason s ≡ (ok tt, t)
      → (e : Execution) × (lookup id t.executions ≡ some (with_status ctx status output reason e))
  unfolding update_execution_status
  updated-ended status output reason s t run = go (lookup id s.executions) refl
    where
      go :
          (o : Option Execution)
          → lookup id s.executions ≡ o
          → (e : Execution) × (lookup id t.executions
              ≡ some (with_status ctx status output reason e))
      go none p = absurd (ground arith)
      go (some e) p = (
        e,
        ground (arith, lookup-insert_self id (with_status ctx status output reason e) s.executions),
      )

  -- finish_tx ends the execution with the status and the output given.
  finish_tx-ended :
      (status : ExecutionStatus) (output : RawMessage) (reason : String) (s t : Store)
      → is_terminal status ≡ true
      → finish_tx env ctx id status output reason s ≡ (ok tt, t)
      → (f : Execution) × (lookup id t.executions ≡ some f)
        × (f.status ≡ status)
        × (is_empty output ≡ false → f.output ≡ output)
  unfolding finish_tx
  finish_tx-ended status output reason s t final run =
      let (u, s1, r, q1) =
        bind_ok_inversion (update_execution_status ctx id status output reason) _ s tt t run in
      let (e, p) = updated-ended status output reason s s1 r in
      let k = ran-Keeps _ _ s1 t (release_dispatches-Keeping env ctx id) q1 in
      let (f, pf, o) = k.endings.kept id _ p final in (f, pf, o.status, λ some_output. ground arith)

-- When Suspend, on a well-formed queue, answers that it has blocked an execution, every worker on it is fenced off: no lease on any of its dispatches renews.
pub suspend-fences :
    (env : Env) (ctx : Context) (id : Uuid) (lease : Lease) (s t : Store)
    → QueueInv s
    → suspend env ctx id lease s ≡ (ok true, t)
    → NoLease id t
unfolding suspend pure
suspend-fences env ctx id lease s t q run =
    let (v, q1) = refuse_if-inversion s t true _ _ _ run in
    let (exec, q2) = authorized-inversion env ctx id Role.write _ s t true q1 in
    let (w, q3) = refuse_if-inversion s t true _ _ _ q2 in
    let (u, s1, r1, q4) =
      bind_ok_inversion (renew_authorized_lease env ctx id lease) _ s true t q3 in
    let (waiting, e, q5) = reads-inversion s1 t true _ _ q4 in
    let k = ran-Keeps _ _ s s1 (renew_authorized_lease-Keeping env ctx id lease) r1 in
    awaited-NoLease env ctx id waiting s1 t (k.queue q) q5

-- When the locked part of CompleteExecution succeeds on a well-formed queue, the execution has completed, with the output of the call unless that is empty, and no lease on any of its dispatches renews.
pub complete-fences :
    (env : Env) (ctx : Context) (id : Uuid) (lease : Lease) (output state : RawMessage)
    (s t : Store) (exec : Execution)
    → QueueInv s
    → complete_tx env ctx id lease output state s ≡ (ok exec, t)
    → NoLease id t
      × ((f : Execution) × (lookup id t.executions ≡ some f)
          × (f.status ≡ ExecutionStatus.completed)
          × (is_empty output ≡ false → f.output ≡ output))
unfolding complete_tx pure
complete-fences env ctx id lease output state s t exec q run =
    let (e0, q2) = authorized-inversion env ctx id Role.write _ s t exec run in
    let (w, q3) = refuse_if-inversion s t exec _ _ _ q2 in
    let (u, s1, r1, q4) =
      bind_ok_inversion (renew_authorized_lease env ctx id lease) _ s exec t q3 in
    let (ev, s2, r2, q5) = bind_ok_inversion _ _ s1 exec t q4 in
    let (v, s3, r3, q6) = bind_ok_inversion _ _ s2 exec t q5 in
    let (x, s4, r4, q7) =
      bind_ok_inversion (finish_tx env ctx id ExecutionStatus.completed output "") _ s3 exec t q6 in
    let k1 = ran-Keeps _ _ s s1 (renew_authorized_lease-Keeping env ctx id lease) r1 in
    let k2 = ran-Keeps _ _ s1 s2 (append-Keeping ctx id _ _) r2 in
    let k3 =
      ran-Keeps _ _ s2 s3
        (if-Keeping (has_state state) _ _ (set_execution_state-Keeping id state) (pure-Keeping tt))
        r3 in
    let same : s4 ≡ t = ap (λ (y : Result Execution × Store). y.1) q7 in
    let done = finish_tx-ended env ctx id ExecutionStatus.completed output "" s3 s4 refl r4 in
    (
      subst (NoLease id) same
          (finish_tx-NoLease env ctx id _ output "" s3 s4 (k3.queue (k2.queue (k1.queue q))) r4),
      subst
          (λ st.
            (f : Execution) × (lookup id st.executions ≡ some f)
            × (f.status ≡ ExecutionStatus.completed)
            × (is_empty output ≡ false → f.output ≡ output))
          same done,
    )
