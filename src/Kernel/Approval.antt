-- ===== src/Kernel/Approval.antt =====
-- internal/kernel/approval.go and the approval sweep of internal/kernel/lifecycle.go.
pub mod Decided
use rebuno.Prelude.{
  Bool, List, Option, String, [], contains, if◌then◌else◌, ltb, none, not, some, string_eq, ℕ_eq,
  ◌==◌, ◌||◌, ◌∷◌,
}
use rebuno.Action.{Action, Result, err, of_result, ok, pure, reads, refuse_if, ◌>>=◌, ◌>>◌}
use rebuno.Auth.{Role, caller_identity, caller_matches, has_scope}
use rebuno.Context.{Context}
use rebuno.Domain.Json.{RawMessage}
use rebuno.Domain.Payload.{
  approval_payload, event_approval_denied, event_approval_expired, event_approval_granted,
  event_step_allowed, event_step_denied, reason_error, step_denied_payload, step_payload,
}
use rebuno.Domain.Records.{
  Approval, EventRecord, Step, Uuid, allows_approver, conflict, forbidden, unauthorized,
}
use rebuno.Domain.Status.{ApprovalStatus, StepStatus, is_awaiting_approval, is_undecided}
use rebuno.Kernel.Env.{Env, authorized_execution}
use rebuno.Kernel.Suspend.{resume_if_idle}
use rebuno.Memstore.Approvals.{get_approval, update_approval}
use rebuno.Memstore.Events.{append_batch}
use rebuno.Memstore.Steps.{get_step, upsert}
use rebuno.Memstore.Store.{Store}
use rebuno.Prelude.Dict.{lookup}

-- GrantApprovalRequest and DenyApprovalRequest
pub record DecisionRequest : Type 0 where
  pub decided_by : String
  pub rationale : String

abbrev delegate_scope : String
delegate_scope = "approvals:delegate"

abbrev named_decider : Context → String → String → Result (String × String)
named_decider ctx caller named =
    if named == ""
    then ok (caller, "")
    else if has_scope ctx delegate_scope
    then ok (named, caller)
    else err forbidden

-- approvalDecider
unfoldable pub approval_decider : Context → String → Result (String × String)
approval_decider ctx named =
    let caller = caller_identity ctx in
    if caller == "" then err unauthorized else named_decider ctx caller named

-- approverMatcher
unfoldable pub approver_matcher : Context → String → String → List String → Bool
approver_matcher ctx decided_by asserted_by approvers =
    if not (asserted_by == "") then contains approvers decided_by else caller_matches ctx approvers

-- GetApproval with its error dropped: a missing approval is the zero value, whose status is "".
abbrev pub current : Uuid → Store → Option Approval
current id s = lookup id s.approvals

abbrev pub decided : Context → ApprovalStatus → String → String → String → Approval → Approval
decided ctx status decided_by asserted_by rationale a = record a {
  status = status;
  decided_by = decided_by;
  asserted_by = asserted_by;
  decided_at = some ctx.now;
  rationale = rationale;
}

abbrev granted_events : Approval → Step → List EventRecord
granted_events a step =
    record {
      type = event_approval_granted;
      payload =
          approval_payload a.id a.step_id a.execution_id ApprovalStatus.granted a.decided_by
            a.asserted_by a.rationale;
    }
    ∷ record {
      type = event_step_allowed;
      payload = step_payload a.step_id step.kind step.target "";
    }
    ∷ []

abbrev pub refused_events :
    String
    → ApprovalStatus
    → Approval
    → String
    → String
    → String
    → Step
    → RawMessage
    → List EventRecord
refused_events type status a decided_by asserted_by rationale step error =
    record {
      type = type;
      payload =
          approval_payload a.id a.step_id a.execution_id status decided_by asserted_by rationale;
    }
    ∷ record {
      type = event_step_denied;
      payload = step_denied_payload a.step_id step.kind step.target "" error;
    }
    ∷ []

abbrev pub denied_step : Context → RawMessage → Step → Step
denied_step ctx error step = record step {
  status = StepStatus.denied;
  error = error;
  completed_at = some ctx.now;
}

module _ (env : Env) (ctx : Context) where
  -- the transaction of GrantApproval, for the decided approval
  unfoldable pub grant_tx : Approval → Action Store (Unit {0})
  grant_tx a = do
    step ← reads (get_step a.step_id)
    refuse_if (not (is_awaiting_approval step.status)) conflict
    append_batch ctx a.execution_id (granted_events a step)
    upsert (record step { status = StepStatus.allowed })
    update_approval a
    resume_if_idle env ctx a.execution_id

  -- the transaction of DenyApproval
  unfoldable pub deny_tx : RawMessage → Approval → Action Store (Unit {0})
  deny_tx error a = do
    step ← reads (get_step a.step_id)
    refuse_if (not (is_awaiting_approval step.status)) conflict
    append_batch ctx a.execution_id (
        refused_events event_approval_denied ApprovalStatus.denied a a.decided_by a.asserted_by
          a.rationale step error)
    update_approval a
    upsert (denied_step ctx error step)
    resume_if_idle env ctx a.execution_id

  -- the transaction of expireApproval
  unfoldable pub expire_tx : Approval → Action Store (Unit {0})
  expire_tx a = do
    step ← reads (get_step a.step_id)
    refuse_if (not (is_awaiting_approval step.status)) conflict
    append_batch ctx a.execution_id (
        refused_events event_approval_expired ApprovalStatus.expired a "" "" "timeout" step
          (reason_error "approval_timeout"))
    upsert (denied_step ctx (reason_error "approval_timeout") step)
    update_approval a
    resume_if_idle env ctx a.execution_id

  -- what GrantApproval and DenyApproval check before they write: the deciding principals
  unfoldable pub decision_guard : Uuid → DecisionRequest → Action Store (String × String)
  decision_guard id req = do
    who ← of_result (approval_decider ctx req.decided_by)
    a ← reads (get_approval id)
    authorized_execution env ctx a.execution_id Role.approve
    refuse_if (not (is_undecided a.status)) conflict
    refuse_if (not (allows_approver a (approver_matcher ctx who.0 who.1))) forbidden
    pure who

  -- GrantApproval
  unfoldable pub grant_approval : Uuid → DecisionRequest → Action Store (Unit {0})
  grant_approval id req = do
    who ← decision_guard id req
    a ← reads (get_approval id)
    grant_tx (decided ctx ApprovalStatus.granted who.0 who.1 req.rationale a)

  -- DenyApproval
  unfoldable pub deny_approval : Uuid → DecisionRequest → Action Store (Unit {0})
  deny_approval id req = do
    who ← decision_guard id req
    a ← reads (get_approval id)
    deny_tx (reason_error (if req.rationale == "" then "approval_denied" else req.rationale))
        (decided ctx ApprovalStatus.denied who.0 who.1 req.rationale a)

  -- expireApproval: GetApproval's error is dropped, and a missing approval is not pending
  unfoldable pub expire_approval : Uuid → Action Store (Unit {0})
  expire_approval id = do
    found ← reads (λ s. ok (current id s))
    elim found [
      | none ↦ pure tt
      | some a ↦
          if not (is_undecided a.status) || ltb ctx.now a.timeout_at
          then pure tt
          else expire_tx (record a {
            status = ApprovalStatus.expired;
            decided_at = some ctx.now;
            rationale = "timeout";
          })
    ]
