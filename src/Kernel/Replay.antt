-- ===== src/Kernel/Replay.antt =====
-- The outcome of a step is recorded once: later calls give back what was recorded.
use rebuno.Prelude.{
  Bool, List, String, ap, arith, eq_iff, false, if◌then◌else◌, inl, inr, refl, some, string_eq,
  subst, sym, true, ℕ, ℕ_eq, ◌==◌, ◌∙◌, ◌≡◌, ◌⊎◌,
}
use rebuno.Action.{Action, Result, err, ok, or_raise, pure, refuse_if, ◌>>=◌}
use rebuno.Action.Laws.{bind_ok_inversion, reads-inversion, refuse_if-inversion}
use rebuno.Auth.{Role}
use rebuno.Context.{Context}
use rebuno.Domain.Json.{RawMessage}
use rebuno.Domain.Records.{Event, EventRecord, Execution, Lease, Step, StepDecision, Uuid}
use rebuno.Domain.Status.{is_settled, is_terminal}
use rebuno.Kernel.Env.{Env, authorized_execution}
use rebuno.Kernel.Keeps.{Keeps, StepsKeyed}
use rebuno.Kernel.Keeps.Rules.{bind-Keeping}
use rebuno.Kernel.Keeps.Steps.{record_captures-Keeping, settle_effect-Keeping}
use rebuno.Kernel.Reach.{Reach, Reach-Keeps}
use rebuno.Kernel.Resource.{ResourceCapture, ResourceCaptureFailure}
use rebuno.Kernel.Step.{
  CompleteStepRequest, complete_step, completed_event, completed_step, decide, no_decision,
  settle_step, settle_step_recorded, succeed,
}
use rebuno.Memstore.Events.Growth.{append-OnlyEvents}
use rebuno.Memstore.Steps.{check_lease, get_step, merged, upsert}
use rebuno.Memstore.Steps.Outcome.{SameOutcome, lookup-upsert, merged-fresh}
use rebuno.Memstore.Store.{Store}
use rebuno.Prelude.Dict.{IsKeyed-lookup, lookup}

-- Authorization only reads the store.
pub authorized_execution-reads :
    (env : Env) (ctx : Context) (id : Uuid) (need : Role) (s : Store)
    → (authorized_execution env ctx id need s).1 ≡ s
unfolding authorized_execution ◌>>=◌
authorized_execution-reads env ctx id need s = ground arith

check_lease-reads : (id : Uuid) (lease : Lease) (s : Store) → (check_lease id lease s).1 ≡ s
unfolding check_lease
check_lease-reads id lease s = ground arith

module _ (env : Env) (ctx : Context) where
  -- A step that settle_step writes to an unsettled one has its outcome afterwards.
  pub settle_step-SameOutcome :
      (step old : Step) (outcome : EventRecord) (cs : List ResourceCapture)
      (fs : List ResourceCaptureFailure) (s t : Store)
      → is_settled step.status ≡ true
      → lookup step.step_id s.steps ≡ some old
      → is_settled old.status ≡ false
      → settle_step env ctx step outcome cs fs s ≡ (ok tt, t)
      → (final : Step) × (lookup step.step_id t.steps ≡ some final) × SameOutcome step final
  unfolding settle_step
  settle_step-SameOutcome step old outcome cs fs s t h p live run =
      let (ev, s1, r1, q1) = bind_ok_inversion _ _ s tt t run in
      let (u, s2, r2, q2) = bind_ok_inversion (upsert step) _ s1 tt t q1 in
      let same : s1.steps ≡ s.steps =
        ap (λ (x : Result Event × Store). x.1.steps) (sym r1)
        ∙ ((append-OnlyEvents ctx step.execution_id outcome.type outcome.payload).at s).steps in
      let found : lookup step.step_id s1.steps ≡ some old = rw same p in
      let written : lookup step.step_id s2.steps ≡ some (merged (some old) step) =
        ap (λ (x : Result (Unit {0}) × Store). lookup step.step_id x.1.steps) (sym r2)
        ∙ ground (arith, lookup-upsert step s1 step.step_id, eq_iff step.step_id step.step_id) in
      let outcome_now = merged-fresh old step live in
      let after = subst (Keeps s2) (ap (λ (x : Result (Unit {0}) × Store). x.1) q2) (
        (bind-Keeping _ _ (settle_effect-Keeping step)
            (λ _. record_captures-Keeping ctx step.execution_id ev.event_seq cs fs)).at
          s2) in
      let (final, pf, o) =
        after.outcomes.kept step.step_id (merged (some old) step) written
          (rw outcome_now.status h) in
      (final, pf, ground arith)

  settle_step_recorded-SameOutcome :
      (lease : Lease) (step old : Step) (outcome : EventRecord) (cs : List ResourceCapture)
      (fs : List ResourceCaptureFailure) (s t : Store)
      → is_settled step.status ≡ true
      → lookup step.step_id s.steps ≡ some old
      → is_settled old.status ≡ false
      → settle_step_recorded env ctx lease step outcome cs fs s ≡ (ok tt, t)
      → (final : Step) × (lookup step.step_id t.steps ≡ some final) × SameOutcome step final
  unfolding settle_step_recorded
  settle_step_recorded-SameOutcome lease step old outcome cs fs s t h p live run =
      let (exec, s1, r1, q1) = bind_ok_inversion _ _ s tt t run in
      let (u, s2, r2, q2) = bind_ok_inversion (check_lease step.execution_id lease) _ s1 tt t q1 in
      let e1 : s1 ≡ s =
        ap (λ (x : Result Execution × Store). x.1) (sym r1)
        ∙ authorized_execution-reads env ctx step.execution_id Role.write s in
      let e2 : s2 ≡ s1 =
        ap (λ (x : Result (Unit {0}) × Store). x.1) (sym r2)
        ∙ check_lease-reads step.execution_id lease s1 in
      settle_step-SameOutcome step old outcome cs fs s2 t h (rw (e2 ∙ e1) p) live q2

  get_step-found :
      (id : String) (step : Step) (s : Store)
      → get_step id s ≡ ok step
      → lookup id s.steps ≡ some step
  unfolding get_step or_raise
  get_step-found id step s h = ground arith

  -- The authorization of a call that gets past it left the store alone.
  pub authorized-inversion :
      {B : Type 0} (id : Uuid) (need : Role) (f : Execution → Action Store B) (s t : Store) (b : B)
      → (authorized_execution env ctx id need >>= f) s ≡ (ok b, t)
      → (exec : Execution) × (f exec s ≡ (ok b, t))
  authorized-inversion id need f s t b run =
      let (exec, s1, r, q) = bind_ok_inversion (authorized_execution env ctx id need) f s b t run in
      let e : s1 ≡ s =
        ap (λ (x : Result Execution × Store). x.1) (sym r)
        ∙ authorized_execution-reads env ctx id need s in
      (exec, ap (f exec) (sym e) ∙ q)

  -- The decision that a call answers.
  abbrev answer : Result StepDecision × Store → String
  answer (ok dec, s) = dec.decision
  answer (err e, s) = ""

  decides_one : (a b c : String) → (b == c) ≡ false → a ≡ b → a ≡ c → ⊥
  decides_one a b c n p q = let e : (b == c) ≡ true = (eq_iff b c).1 (sym p ∙ q) in cc

  -- The end of a call of CompleteStep that records.
  records-inversion :
      (parse_usage : RawMessage → ℕ × ℕ) (req : CompleteStepRequest) (terminal settled : Bool)
      (step : Step) (s t : Store) (dec : StepDecision)
      → is_settled step.status ≡ settled
      → dec.decision ≡ "recorded"
      → (if terminal
            then pure (decide env ctx "execution_terminal")
            else if settled
            then pure (record no_decision { decision = "replay"; result = step.result })
            else succeed env ctx parse_usage req step)
          s
        ≡ (ok dec, t)
      → (is_settled step.status ≡ false)
        × (settle_step_recorded env ctx req.lease
              (completed_step env ctx parse_usage req.result step)
              (completed_event env ctx parse_usage req.result step)
              req.captures
              req.capture_failures
              s
            ≡ (ok tt, t))
  unfolding pure
  records-inversion parse_usage req true settled step s t dec e h run =
      absurd (decides_one dec.decision "recorded" "execution_terminal" refl h (sym (ap answer run)))
  records-inversion parse_usage req false true step s t dec e h run =
      absurd (decides_one dec.decision "recorded" "replay" refl h (sym (ap answer run)))
  records-inversion parse_usage req false false step s t dec e h run =
      let (v, q) = refuse_if-inversion s t dec _ _ _ run in
      let (u, s1, r, q1) = bind_ok_inversion _ _ s dec t q in (e, r ∙ ground arith)

  -- A call of CompleteStep that records went all the way.
  recorded-inversion :
      (parse_usage : RawMessage → ℕ × ℕ) (id : String) (req : CompleteStepRequest) (s t : Store)
      (dec : StepDecision)
      → dec.decision ≡ "recorded"
      → complete_step env ctx parse_usage id req s ≡ (ok dec, t)
      → (step : Step) × (lookup id s.steps ≡ some step)
        × (is_settled step.status ≡ false)
        × (settle_step_recorded env ctx req.lease
              (completed_step env ctx parse_usage req.result step)
              (completed_event env ctx parse_usage req.result step)
              req.captures
              req.capture_failures
              s
            ≡ (ok tt, t))
  unfolding complete_step
  recorded-inversion parse_usage id req s t dec h run =
      let (v, q1) = refuse_if-inversion s t dec _ _ _ run in
      let (step, found, q2) = reads-inversion s t dec (get_step id) _ q1 in
      let (exec, q3) = authorized-inversion step.execution_id Role.write _ s t dec q2 in
      let (live, ran) =
        records-inversion parse_usage req (is_terminal exec.status) (is_settled step.status) step s
          t dec refl h q3 in
      (step, get_step-found id step s found, live, ran)

  -- CompleteStep of a step that has settled never writes, and replays the step's result if it decides.
  complete_step-settled :
      (parse_usage : RawMessage → ℕ × ℕ) (id : String) (req : CompleteStepRequest) (step : Step)
      (s : Store)
      → lookup id s.steps ≡ some step
      → is_settled step.status ≡ true
      → ((complete_step env ctx parse_usage id req s).1 ≡ s)
        × ((dec : StepDecision)
            → (complete_step env ctx parse_usage id req s).0 ≡ ok dec
            → (dec ≡ record no_decision { decision = "execution_terminal" })
              ⊎ (dec ≡ record no_decision { decision = "replay"; result = step.result }))
  unfolding complete_step authorized_execution get_step ◌>>=◌ refuse_if pure
  complete_step-settled parse_usage id req step s p h = (ground arith, λ dec q. ground arith)

-- In a store whose steps stand under their identifiers, CompleteStep records the outcome of a step at most once: after a call that answers `recorded`, whatever modelled operations of the kernel but the clean-up run next, another call for the step changes nothing, and answers, if it is let in, with the first call's result as a replay or that the execution has ended.
pub complete_step_once :
    (env : Env) (ctx : Context) (parse_usage : RawMessage → ℕ × ℕ) (id : String)
    (req : CompleteStepRequest) (s t u : Store) (dec : StepDecision)
    → StepsKeyed s
    → complete_step env ctx parse_usage id req s ≡ (ok dec, t)
    → dec.decision ≡ "recorded"
    → Reach env t u
    → (ctx' : Context) (req' : CompleteStepRequest)
    → ((complete_step env ctx' parse_usage id req' u).1 ≡ u)
      × ((dec' : StepDecision)
          → (complete_step env ctx' parse_usage id req' u).0 ≡ ok dec'
          → (dec' ≡ record no_decision { decision = "execution_terminal" })
            ⊎ (dec' ≡ record no_decision { decision = "replay"; result = req.result }))
complete_step_once env ctx parse_usage id req s t u dec keyed run h r ctx' req' =
    let (step, p, live, ran) = recorded-inversion env ctx parse_usage id req s t dec h run in
    let under : step.step_id ≡ id =
      IsKeyed-lookup ⦃e = string_eq⦄ (λ (x : Step). x.step_id) id step s.steps keyed p in
    let done = completed_step env ctx parse_usage req.result step in
    let (final, pf, o) =
      settle_step_recorded-SameOutcome env ctx req.lease done step _ req.captures
        req.capture_failures s t (ground arith) (ground arith) live ran in
    let (last, pl, ol) =
      (Reach-Keeps env r).outcomes.kept id final (ground arith) (ground (arith, o.status)) in
    let (same, answers) =
      complete_step-settled env ctx' parse_usage id req' last u pl
        (ground (arith, o.status, ol.status)) in
    (same, λ dec' q. elim (answers dec' q) [ inl e ↦ inl e | inr e ↦ inr (ground arith) ])
