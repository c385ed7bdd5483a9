-- ===== src/Kernel/Retried.antt =====
-- SubmitStep refuses to repeat an effect that may already have happened.
use rebuno.Prelude.{
  Bool, Bool-cases, String, any, any-filter, any-sort, ap, arith, eq_iff, false, if◌then◌else◌, inl,
  inr, none, refl, some, string_eq, subst, sym, true, ℕ, ℕ_eq, ◌&&◌, ◌+◌, ◌==◌, ◌∙◌, ◌≡◌,
}
use rebuno.Action.{Action, Result, caught, err, of_result, ok, or_raise, pure, reads, ◌>>◌}
use rebuno.Action.Laws.{bind_ok_inversion, reads-inversion, refuse_if-inversion}
use rebuno.Auth.{Role, authorize}
use rebuno.Context.{Context}
use rebuno.Domain.Json.{RawMessage, member}
use rebuno.Domain.Records.{Execution, Lease, Step, StepDecision, Time, Uuid, not_found, validation}
use rebuno.Domain.Status.{StepStatus, is_blocked, is_terminal}
use rebuno.Kernel.AtMostOnce.{decide_new-denied}
use rebuno.Kernel.Env.{Env, authorized_execution}
use rebuno.Kernel.Policy.{Services, SubmitStepRequest, indeterminate_retry, is_indeterminate}
use rebuno.Kernel.Step.{indeterminate_error, no_decision, step_error}
use rebuno.Kernel.Submit.{
  decide_found, decide_new, decide_submitted, defaulted, occurrence_key, submit_fenced, submit_step,
}
use rebuno.Memstore.Dispatches.{renew_lease}
use rebuno.Memstore.Executions.{get_execution}
use rebuno.Memstore.Steps.{dispatch_occurrence, get_step, list_by_execution}
use rebuno.Memstore.Store.{CounterKey, Store, counter_key_eq}
use rebuno.Prelude.Dict.{Dict, any-lookup, lookup, values}

-- The step is a failed attempt of unknown outcome at what a request asks for.
pub record IsUnknown (exec_id : Uuid) (req : SubmitStepRequest) (old : Step) : Type 0 where
  pub execution : old.execution_id ≡ exec_id
  pub kind : old.kind ≡ req.kind
  pub target : old.target ≡ req.target
  pub failed : old.status ≡ StepStatus.failed
  pub unknown : old.error ≡ indeterminate_error

is_indeterminate-IsUnknown :
    (exec_id : Uuid) (req : SubmitStepRequest) (old : Step)
    → IsUnknown exec_id req old
    → is_indeterminate req old.args_hash old ≡ true
unfolding step_error member
is_indeterminate-IsUnknown exec_id req old h =
    let known : ((step_error old.error).0 == "indeterminate") ≡ true =
      ap (λ (e : RawMessage). (step_error e).0 == "indeterminate") h.unknown in
    rw h.failed (
      ground (
        arith,
        known,
        h.kind,
        h.target,
        eq_iff old.kind req.kind,
        eq_iff old.target req.target,
        eq_iff old.args_hash old.args_hash,
      ))

indeterminate_retry-IsUnknown :
    (exec_id : Uuid) (req : SubmitStepRequest) (id : String) (old : Step) (s : Store)
    → lookup id s.steps ≡ some old
    → IsUnknown exec_id req old
    → indeterminate_retry exec_id req old.args_hash s ≡ true
unfolding indeterminate_retry list_by_execution
indeterminate_retry-IsUnknown exec_id req id old s stored h =
    any-sort (is_indeterminate req old.args_hash) _ _
    ∙ any-filter (is_indeterminate req old.args_hash)
        (λ (step : Step). step.execution_id == exec_id) (values s.steps)
    ∙ elim (Bool-cases (any test (values s.steps))) [
      | inl so ↦ so
      | inr not_so ↦
          let missed = any-lookup test s.steps id old not_so stored in
          let hit = is_indeterminate-IsUnknown exec_id req old h in
          let own : (old.execution_id == exec_id) ≡ true =
            (ℕ_eq.beq_iff old.execution_id exec_id).1 h.execution in
          absurd (ground arith)
    ]
  where
    test : Step → Bool
    test step = step.execution_id == exec_id && is_indeterminate req old.args_hash step

module _ (env : Env) (ctx : Context) (services : Services) where
  authorized-stored :
      (exec found : Execution) (need : Role) (s t : Store)
      → lookup exec.id s.executions ≡ some exec
      → authorized_execution env ctx exec.id need s ≡ (ok found, t)
      → (found ≡ exec) × (t ≡ s)
  unfolding authorized_execution get_execution of_result or_raise pure
  authorized-stored exec found need s t stored run =
      let (e, q, run1) = reads-inversion s t found (get_execution exec.id) _ run in
      let (u, s1, r, q1) =
        bind_ok_inversion (of_result (authorize env.access ctx need e.agent_id)) _ s found t run1 in
      let same : e ≡ exec = ground arith in (ground arith, ground arith)

  renew_lease-rest :
      (id : Uuid) (lease : Lease) (now : Time) (s : Store)
      → ((renew_lease id lease now s).1.steps ≡ s.steps)
        × ((renew_lease id lease now s).1.counters ≡ s.counters)
  unfolding renew_lease
  renew_lease-rest id lease now s = ground arith

  -- The step is new, so the kernel decides on it.
  decide_submitted-denied :
      (exec : Execution) (req : SubmitStepRequest) (hash : String) (step : Step) (s t : Store)
      (done : StepDecision × Bool)
      → is_blocked exec.status ≡ false
      → lookup step.step_id s.steps ≡ none
      → req.idempotency ≡ "at_most_once"
      → indeterminate_retry exec.id req hash s ≡ true
      → decide_submitted env ctx services exec req hash step s ≡ (ok done, t)
      → done.0.decision ≡ "denied"
  unfolding decide_submitted caught reads get_step or_raise
  decide_submitted-denied exec req hash step s t done unblocked new idem retry run =
      let (found, s1, r, q) =
        bind_ok_inversion (caught (reads (get_step step.step_id))) _ s done t run in
      let state : s1 ≡ s = ground arith in
      let missing : found ≡ err not_found = ground arith in
      let ran : decide_new env ctx services exec req hash step s ≡ (ok done, t) =
        ap
          (λ c.
            (if c
                then pure (record no_decision { decision = "execution_blocked" }, false)
                else decide_new env ctx services exec req hash step)
              s)
          (sym unblocked)
        ∙ ap (λ (f : Result Step). decide_found env ctx services exec req hash step f s)
            (sym missing)
        ∙ ap (λ (x : Store). decide_found env ctx services exec req hash step found x) (sym state)
        ∙ q in
      decide_new-denied env ctx services exec req hash step s t done.0 done.1 idem retry ran

  -- The end of SubmitStep keeps the decision.
  with_id-decision :
      (recorded : Bool) (m : Action Store (Unit {0})) (d dec : StepDecision) (id : String)
      (s t : Store)
      → (if recorded then m >> pure (record d { step_id = id }) else pure d) s ≡ (ok dec, t)
      → dec.decision ≡ d.decision
  unfolding pure
  with_id-decision true m d dec id s t run =
      let (u, s1, r, q) = bind_ok_inversion m _ s dec t run in ground arith
  with_id-decision false m d dec id s t run = ground arith

  submit_fenced-denied :
      (exec : Execution) (req : SubmitStepRequest) (hash : String) (s t : Store)
      (dec : StepDecision)
      → is_blocked exec.status ≡ false
      → services.args_hash req.args ≡ some hash
      → lookup
          (services.step_id exec.id req.kind req.target hash
            (dispatch_occurrence (occurrence_key env ctx services req hash) s))
          s.steps
        ≡ none
      → req.idempotency ≡ "at_most_once"
      → indeterminate_retry exec.id req hash s ≡ true
      → submit_fenced env ctx services exec req s ≡ (ok dec, t)
      → dec.decision ≡ "denied"
  unfolding submit_fenced of_result or_raise pure
  submit_fenced-denied exec req hash s t dec unblocked hashed new idem retry run =
      let (own, s1, r, q) =
        bind_ok_inversion (of_result (or_raise validation (services.args_hash req.args))) _ s dec t
          run in
      let hashes : hash ≡ own = ground arith in
      let stores : s ≡ s1 = ground arith in
      let (n, counted, q2) = reads-inversion s1 t dec _ _ q in
      let (done, s3, r3, q3) = bind_ok_inversion _ _ s1 dec t q2 in
      let id = services.step_id exec.id req.kind req.target in
      let key = occurrence_key env ctx services req in
      let new_own =
        subst (λ h. lookup (id h (dispatch_occurrence (key h) s)) s.steps ≡ none) hashes new in
      let new_now =
        subst (λ (x : Store). lookup (id own (dispatch_occurrence (key own) x)) x.steps ≡ none)
          stores new_own in
      let occurrence : dispatch_occurrence (key own) s1 ≡ n = ground arith in
      with_id-decision done.1 _ done.0 dec (id own n) s3 t q3
      ∙ decide_submitted-denied exec req own _ s1 s3 done unblocked
          (subst (λ k. lookup (id own k) s1.steps ≡ none) occurrence new_now) idem
          (subst (λ (x : Store). indeterminate_retry exec.id req own x ≡ true) stores
            (subst (λ h. indeterminate_retry exec.id req h s ≡ true) hashes retry))
          r3

  -- What is left of SubmitStep when the execution is not over.
  fence_and_submit : Execution → SubmitStepRequest → Action Store StepDecision
  fence_and_submit exec req =
      renew_lease exec.id req.lease ctx.now
      >> submit_fenced env ctx services exec (defaulted env ctx services req)

  fence_and_submit-denied :
      (exec : Execution) (req : SubmitStepRequest) (old_id : String) (old : Step) (s t : Store)
      (dec : StepDecision)
      → is_blocked exec.status ≡ false
      → lookup old_id s.steps ≡ some old
      → IsUnknown exec.id req old
      → services.args_hash req.args ≡ some old.args_hash
      → req.idempotency ≡ "at_most_once"
      → lookup
          (services.step_id exec.id req.kind req.target old.args_hash
            (dispatch_occurrence (occurrence_key env ctx services req old.args_hash) s))
          s.steps
        ≡ none
      → fence_and_submit exec req s ≡ (ok dec, t)
      → dec.decision ≡ "denied"
  unfolding fence_and_submit dispatch_occurrence
  fence_and_submit-denied exec req old_id old s t dec unblocked found unknown hashed idem new run =
      let (u, s1, r, q) = bind_ok_inversion (renew_lease exec.id req.lease ctx.now) _ s dec t run in
      let (steps, counters) = renew_lease-rest exec.id req.lease ctx.now s in
      let after : (renew_lease exec.id req.lease ctx.now s).1 ≡ s1 =
        ap (λ (x : Result (Unit {0}) × Store). x.1) r in
      let steps1 : s1.steps ≡ s.steps = ap (λ (x : Store). x.steps) (sym after) ∙ steps in
      let counters1 : s1.counters ≡ s.counters =
        ap (λ (x : Store). x.counters) (sym after) ∙ counters in
      let given = defaulted env ctx services req in
      let known : IsUnknown exec.id given old = record {
        execution = unknown.execution;
        kind = unknown.kind;
        target = unknown.target;
        failed = unknown.failed;
        unknown = unknown.unknown;
      } in
      let key = occurrence_key env ctx services req old.args_hash in
      let counted : dispatch_occurrence key s ≡ dispatch_occurrence key s1 =
        ap (λ (m : Dict CounterKey ℕ). elim (lookup key m) [ none ↦ 0 | some n ↦ n + 1 ])
          (sym counters1) in
      let id = services.step_id exec.id req.kind req.target old.args_hash in
      let fresh : lookup (id (dispatch_occurrence key s1)) s1.steps ≡ none =
        subst (λ n. lookup (id n) s1.steps ≡ none) counted (rw steps1 new) in
      submit_fenced-denied exec given old.args_hash s1 t dec unblocked hashed fresh (rw idem refl)
        (indeterminate_retry-IsUnknown exec.id given old_id old s1 (rw steps1 found) known) q

-- Suppose that a step of the store failed because its outcome is unknown, and that SubmitStep is called for the same effect, which is of the same execution, kind, target and hash of the arguments, and is declared at_most_once. If the execution is neither blocked nor over and the attempt is not yet recorded under an identifier of its own, then a call that answers is a denial, whatever the policy.
pub indeterminate_retry_denied :
    (env : Env) (ctx : Context) (services : Services) (exec : Execution) (req : SubmitStepRequest)
    (old_id : String) (old : Step) (s t : Store) (dec : StepDecision)
    → lookup exec.id s.executions ≡ some exec
    → is_terminal exec.status ≡ false
    → is_blocked exec.status ≡ false
    → lookup old_id s.steps ≡ some old
    → IsUnknown exec.id req old
    → services.args_hash req.args ≡ some old.args_hash
    → req.idempotency ≡ "at_most_once"
    → lookup
        (services.step_id exec.id req.kind req.target old.args_hash
          (dispatch_occurrence (occurrence_key env ctx services req old.args_hash) s))
        s.steps
      ≡ none
    → submit_step env ctx services exec.id req s ≡ (ok dec, t)
    → dec.decision ≡ "denied"
unfolding submit_step fence_and_submit
indeterminate_retry_denied env ctx services exec req old_id old s t dec stored not_over unblocked
      found unknown hashed idem new run =
    let (valid, q1) = refuse_if-inversion s t dec _ _ _ run in
    let (own, s1, r1, q2) =
      bind_ok_inversion (authorized_execution env ctx exec.id Role.write) _ s dec t q1 in
    let (same, state) = authorized-stored env ctx services exec own Role.write s s1 stored r1 in
    let goes_on : Execution → Action Store StepDecision = λ e.
      if is_terminal e.status
      then pure (record no_decision { decision = "execution_terminal" })
      else (renew_lease exec.id req.lease ctx.now
          >> submit_fenced env ctx services e (defaulted env ctx services req)) in
    let ran : fence_and_submit env ctx services exec req s ≡ (ok dec, t) =
      ap
        (λ c.
          (if c
              then pure (record no_decision { decision = "execution_terminal" })
              else fence_and_submit env ctx services exec req)
            s)
        (sym not_over)
      ∙ ap (λ e. goes_on e s) (sym same)
      ∙ ap (λ x. goes_on own x) (sym state)
      ∙ q2 in
    fence_and_submit-denied env ctx services exec req old_id old s t dec unblocked found unknown
      hashed idem new ran
