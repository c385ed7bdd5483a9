-- ===== src/Kernel/Closing/Enough.antt =====
-- The fuel of cancelExecution is enough: a cancellation goes down to another execution only after it
-- has ended one, and ended executions are passed over.
use rebuno.Prelude.{
  Bool-cases, List, Option-cases, String, [], ap, arith, inl, inr, length, min, none, refl, some,
  string_eq, subst, suc, zero, ℕ, ℕ_eq, ◌+◌, ◌<◌, ◌∙◌, ◌∷◌, ◌≡◌, ◌≤◌,
}
use rebuno.Action.{Action, Result, caught, err, for_each, ok, proceed, pure, reads, ◌>>=◌, ◌>>◌}
use rebuno.Action.Laws.{bind_ok_inversion, reads-inversion, refuse_if-inversion}
use rebuno.Context.{Context}
use rebuno.Domain.Json.{empty}
use rebuno.Domain.Records.{Execution, Uuid}
use rebuno.Domain.Status.{ExecutionStatus, is_terminal}
use rebuno.Kernel.Closing.{Closing, open_count, open_count-insert, open_executions}
use rebuno.Kernel.Closing.Handlers.{
  cancel_child-Closing, cancel_from-Closing, cancel_step-Closing, expire_pending-Closing,
  release_dispatches-Closing, release_session-Closing, settle_parent_step-Closing,
}
use rebuno.Kernel.Closing.Rules.{
  append-Closing, caught-Closing, closing, option-Closing, pure-Closing, reads-Closing,
}
use rebuno.Kernel.Env.{Env, release_dispatches}
use rebuno.Kernel.Execution.{release_session, settle_parent_step}
use rebuno.Kernel.Terminal.{
  after_terminal, cancel_child, cancel_execution, cancel_from, cancel_step, cancel_tx,
  expire_pending,
}
use rebuno.Memstore.Approvals.{list_pending_approvals_by_execution}
use rebuno.Memstore.Executions.{get_execution, update_execution_status, with_status}
use rebuno.Memstore.Steps.{list_by_execution}
use rebuno.Memstore.Store.{Store}
use rebuno.Prelude.Dict.{lookup, values}

module _ {A B : Type 0} where
  -- Chains that go on the same way from every state with no more open executions run the same.
  bind-same :
      (m : Action Store A) (f g : A → Action Store B) (s : Store)
      → Closing m
      → ((a : A) (t : Store) → open_executions t ≤ open_executions s → f a t ≡ g a t)
      → (m >>= f) s ≡ (m >>= g) s
  unfolding ◌>>=◌
  bind-same m f g s closes same = go (m s).0 (m s).1 ((closes.at s).fewer)
    where
      go :
          (r : Result A) (t : Store)
          → open_executions t ≤ open_executions s
          → proceed r f t ≡ proceed r g t
      go (ok a) t fewer = same a t fewer
      go (err e) t fewer = refl

  bind-first :
      (m n : Action Store A) (f : A → Action Store B) (s : Store)
      → m s ≡ n s
      → (m >>= f) s ≡ (n >>= f) s
  unfolding ◌>>=◌
  bind-first m n f s same = ap (λ (r : Result A × Store). proceed r.0 f r.1) same

ran-fewer :
    {A : Type 0} (m : Action Store A) (s t : Store) (a : A)
    → m s ≡ (ok a, t)
    → Closing m
    → open_executions t ≤ open_executions s
ran-fewer m s t a ran closes =
    let fewer = (closes.at s).fewer in
    subst (λ (r : Result _ × Store). open_executions r.1 ≤ open_executions s) ran fewer

module _ (env : Env) (ctx : Context) where
  -- The execution that is cancelled was open.
  update-strict :
      (id : Uuid) (reason : String) (s t : Store)
      → update_execution_status ctx id ExecutionStatus.cancelled empty reason s ≡ (ok tt, t)
      → open_executions t < open_executions s
  unfolding update_execution_status
  update-strict id reason s t ran = elim (Option-cases (lookup id s.executions)) [
    | inl missing ↦ ground arith
    | inr (e, found) ↦
        let q =
          open_count-insert id e (with_status ctx ExecutionStatus.cancelled empty reason e)
            s.executions found in
        ground arith
  ]

  -- What cancelExecution does in its transaction once the status is set.
  abbrev after_update : Uuid → Execution → Action Store Execution
  after_update id exec = do
    release_dispatches env ctx id
    waiting ← reads (λ s. ok (list_pending_approvals_by_execution id s))
    for_each (expire_pending env ctx id) waiting
    steps ← reads (λ s. ok (list_by_execution id s))
    for_each (cancel_step env ctx id) steps
    pure exec

  after_update-Closing : (id : Uuid) (exec : Execution) → Closing (after_update id exec)
  after_update-Closing id exec =
      search
        (
          closing,
          release_dispatches-Closing env ctx,
          expire_pending-Closing env ctx,
          cancel_step-Closing env ctx,
        )
        depth 9

  cancel_tx-strict :
      (id : Uuid) (reason : String) (s t : Store) (exec : Execution)
      → cancel_tx env ctx id reason s ≡ (ok exec, t)
      → open_executions t < open_executions s
  unfolding cancel_tx
  cancel_tx-strict id reason s t exec ran =
      let (e, r0, run1) = reads-inversion s t exec (get_execution id) _ ran in
      let (_, run2) = refuse_if-inversion s t exec _ _ _ run1 in
      let (ev, s1, r1, run3) = bind_ok_inversion _ _ s exec t run2 in
      let (_, s2, r2, run4) = bind_ok_inversion _ _ s1 exec t run3 in
      let strict = update-strict id reason s1 s2 r2 in
      let logged = ran-fewer _ s s1 ev r1 (append-Closing ctx id _ _) in
      let left = ran-fewer (after_update id e) s2 t exec run4 (after_update-Closing id e) in
      omega (arith, strict, logged, left)

  module _ (f g : Uuid → String → Action Store (Unit {0})) (n : ℕ)
      (closes : (id : Uuid) (reason : String) → Closing (f id reason))
      (same : (id : Uuid) (reason : String) (s : Store)
        → open_executions s < n
        → f id reason s ≡ g id reason s) where
    cancel_child-same :
        (c : Execution) (s : Store)
        → open_executions s < n
        → cancel_child env ctx f c s ≡ cancel_child env ctx g c s
    unfolding ◌>>=◌ caught
    cancel_child-same c s few = elim (Bool-cases (is_terminal c.status)) [
      | inl ended ↦ rw ended refl
      | inr unended ↦ rw unended (rw (same c.id "parent_agent_terminal" s few) refl)
    ]

    children-same :
        (cs : List Execution) (s : Store)
        → open_executions s < n
        → for_each (cancel_child env ctx f) cs s ≡ for_each (cancel_child env ctx g) cs s
    unfolding for_each
    children-same [] s few = refl
    children-same (c ∷ cs) s few =
        bind-same (cancel_child env ctx f c) _ _ s (cancel_child-Closing env ctx f closes c)
          (λ _ t le. children-same cs t (omega (arith, few, le)))
        ∙ bind-first (cancel_child env ctx f c) (cancel_child env ctx g c) _ s
            (cancel_child-same c s few)

    after_terminal-same :
        (exec : Execution) (s : Store)
        → open_executions s < n
        → after_terminal env ctx f exec s ≡ after_terminal env ctx g exec s
    unfolding after_terminal
    after_terminal-same exec s few =
        bind-same (release_session env ctx exec.session) _ _ s
          (release_session-Closing env ctx exec.session)
          (λ _ t le. bind-same _ _ _ t settled (λ _ u le1.
            bind-same _ _ _ u (reads-Closing _)
              (λ children v le2. children-same children v (omega (arith, few, le, le1, le2)))))
      where
        settled : Closing (
            caught (elim exec.spawned_by [
              | none ↦ pure tt
              | some _ ↦ settle_parent_step env ctx exec.id
            ]))
        settled = caught-Closing _ (
            option-Closing exec.spawned_by _ _ (pure-Closing tt)
              (λ _. settle_parent_step-Closing env ctx exec.id))

  -- A cancellation with more fuel than there are open executions runs the same with any other amount of such fuel.
  cancel_from-enough :
      (n m : ℕ) (id : Uuid) (reason : String) (s : Store)
      → open_executions s < n
      → open_executions s < m
      → cancel_from env ctx n id reason s ≡ cancel_from env ctx m id reason s
  unfolding cancel_from ◌>>=◌
  cancel_from-enough zero m id reason s h k = absurd (omega (arith, h))
  cancel_from-enough (suc n) zero id reason s h k = absurd (omega (arith, k))
  cancel_from-enough (suc n) (suc m) id reason s h k =
      go (cancel_tx env ctx id reason s).0 (cancel_tx env ctx id reason s).1 refl
        (cancel_from-enough n m)
    where
      go :
          (r : Result Execution) (t : Store)
          → cancel_tx env ctx id reason s ≡ (r, t)
          → ((id : Uuid) (reason : String) (u : Store)
              → open_executions u < n
              → open_executions u < m
              → cancel_from env ctx n id reason u ≡ cancel_from env ctx m id reason u)
          → proceed r (after_terminal env ctx (cancel_from env ctx n)) t
            ≡ proceed r (after_terminal env ctx (cancel_from env ctx m)) t
      go (err e) t ran same = refl
      go (ok exec) t ran same =
          let strict = cancel_tx-strict id reason s t exec ran in
          after_terminal-same (cancel_from env ctx n) (cancel_from env ctx m) (min n m)
            (cancel_from-Closing env ctx n) (λ i w u few. same i w u (ground arith) (ground arith))
            exec t (ground arith)

  open_count-length : (es : List Execution) → open_count es ≤ length es
  unfolding open_count
  open_count-length [] = omega arith
  open_count-length (e ∷ es) = ground (arith, open_count-length es)

  -- cancelExecution ends: the fuel of the model, one more than there are executions, is never used up, neither by the cancellation nor by those of subagents below it, whose errors are only logged; any larger amount leads to the same result and the same store.
  pub cancel_execution-ends :
      (id : Uuid) (reason : String) (s : Store) (more : ℕ)
      → cancel_execution env ctx id reason s
        ≡ cancel_from env ctx (suc (length (values s.executions)) + more) id reason s
  unfolding cancel_execution ◌>>=◌ reads
  cancel_execution-ends id reason s more =
      let bound = open_count-length (values s.executions) in
      cancel_from-enough (suc (length (values s.executions)))
        (suc (length (values s.executions)) + more) id reason s (ground arith) (ground arith)
