-- ===== src/Kernel/AtMostOnce.antt =====
-- An effect that must not happen twice is not run again when its first attempt was cut off.
use rebuno.Prelude.{Bool, String, arith, eq_iff, if◌then◌else◌, string_eq, subst, true, ℕ_eq, ◌≡◌}
use rebuno.Action.{Action, ok, pure, reads, ◌>>=◌}
use rebuno.Action.Laws.{bind_ok_inversion, reads-inversion, refuse_if-inversion}
use rebuno.Context.{Context}
use rebuno.Domain.Records.{Execution, Lease, Step, StepDecision}
use rebuno.Kernel.Decision.{decide_step, deny_step}
use rebuno.Kernel.Env.{Env}
use rebuno.Kernel.Policy.{Services, SubmitStepRequest, budgeted, indeterminate_retry, retry_refused}
use rebuno.Kernel.Submit.{decide_new, decide_within_budget, record_step_decision}
use rebuno.Memstore.Store.{Store}

module _ (env : Env) (ctx : Context) (services : Services) where
  denied_at_once :
      (lease : Lease) (step : Step) (s t : Store) (dec : StepDecision)
      → deny_step env ctx lease retry_refused step s ≡ (ok dec, t)
      → dec.decision ≡ "denied"
  unfolding deny_step pure
  denied_at_once lease step s t dec run =
      let (u, s1, r, q) = bind_ok_inversion _ _ s dec t run in ground arith

  refused_retry :
      (exec : Execution) (lease : Lease) (step : Step) (s t : Store) (dec : StepDecision)
      (done : Bool)
      → record_step_decision env ctx services exec lease retry_refused step s ≡ (ok (dec, done), t)
      → dec.decision ≡ "denied"
  unfolding record_step_decision decide_within_budget budgeted decide_step pure
  refused_retry exec lease step s t dec done run =
      let (pol, e, q) =
        reads-inversion s t (dec, done) (λ x. ok (budgeted exec x retry_refused)) _ run in
      let same : pol ≡ retry_refused = ground arith in
      let finish : StepDecision → Action Store (StepDecision × Bool) = λ d. pure (d, true) in
      let q' : (deny_step env ctx lease retry_refused step >>= finish) s ≡ (ok (dec, done), t) =
        subst (λ p. (decide_step env ctx lease p step >>= finish) s ≡ (ok (dec, done), t)) same q in
      let (d, s1, r, q1) =
        bind_ok_inversion (deny_step env ctx lease retry_refused step) finish s (dec, done) t q' in
      let first = denied_at_once lease step s s1 d r in ground arith

-- A retry of an effect that ended in an unknown outcome is denied.
pub decide_new-denied :
    (env : Env) (ctx : Context) (services : Services) (exec : Execution) (req : SubmitStepRequest)
    (hash : String) (step : Step) (s t : Store) (dec : StepDecision) (done : Bool)
    → req.idempotency ≡ "at_most_once"
    → indeterminate_retry exec.id req hash s ≡ true
    → decide_new env ctx services exec req hash step s ≡ (ok (dec, done), t)
    → dec.decision ≡ "denied"
unfolding decide_new
decide_new-denied env ctx services exec req hash step s t dec done idem retry run =
    let (rs, e0, q0) = reads-inversion s t (dec, done) _ _ run in
    let (v, q1) = refuse_if-inversion s t (dec, done) _ _ _ q0 in
    let (b, e2, q2) = reads-inversion s t (dec, done) _ _ q1 in
    let yes_b : b ≡ true = ground (arith, eq_iff req.idempotency "at_most_once") in
    refused_retry env ctx services exec req.lease step s t dec done (
      subst
        (λ c.
          (if c
              then record_step_decision env ctx services exec req.lease retry_refused step
              else (reads (services.evaluate exec req) >>= λ pol.
                  record_step_decision env ctx services exec req.lease pol step))
            s
          ≡ (ok (dec, done), t))
        yes_b q2)
