-- ===== src/Domain/Payload.antt =====
-- The event types of internal/domain/event.go, the reasons of internal/domain/errors.go that the
-- kernel records, and the payloads of internal/payload/payload.go. A payload map is a JSON object.
use rebuno.Prelude.{String, ltb, not, string_eq, ℕ, ℕ_eq, ◌==◌, ◌||◌}
use rebuno.Domain.Json.{
  RawMessage, embedded, end, field, field_if, is_empty, json, num, obj, str, uuid, marshalled,
}
use rebuno.Domain.Records.{StepKind, Uuid}
use rebuno.Domain.Status.{ApprovalStatus, DispatchStatus, ExecutionStatus}

abbrev pub event_execution_created : String
event_execution_created = "execution.created"

abbrev pub event_execution_started : String
event_execution_started = "execution.started"

abbrev pub event_execution_completed : String
event_execution_completed = "execution.completed"

abbrev pub event_execution_failed : String
event_execution_failed = "execution.failed"

abbrev pub event_execution_cancelled : String
event_execution_cancelled = "execution.cancelled"

abbrev pub event_execution_blocked : String
event_execution_blocked = "execution.blocked"

abbrev pub event_execution_resumed : String
event_execution_resumed = "execution.resumed"

abbrev pub event_step_proposed : String
event_step_proposed = "step.proposed"

abbrev pub event_step_awaiting_approval : String
event_step_awaiting_approval = "step.awaiting_approval"

abbrev pub event_step_rate_limited : String
event_step_rate_limited = "step.rate_limited"

abbrev pub event_approval_requested : String
event_approval_requested = "approval.requested"

abbrev pub event_step_allowed : String
event_step_allowed = "step.allowed"

abbrev pub event_step_denied : String
event_step_denied = "step.denied"

abbrev pub event_step_executing : String
event_step_executing = "step.executing"

abbrev pub event_step_succeeded : String
event_step_succeeded = "step.succeeded"

abbrev pub event_step_failed : String
event_step_failed = "step.failed"

abbrev pub event_step_cancelled : String
event_step_cancelled = "step.cancelled"

abbrev pub event_approval_granted : String
event_approval_granted = "approval.granted"

abbrev pub event_approval_denied : String
event_approval_denied = "approval.denied"

abbrev pub event_approval_expired : String
event_approval_expired = "approval.expired"

abbrev pub event_resource_checkpointed : String
event_resource_checkpointed = "resource.checkpointed"

abbrev pub event_resource_checkpoint_failed : String
event_resource_checkpoint_failed = "resource.checkpoint_failed"

abbrev pub event_dispatch_queued : String
event_dispatch_queued = "dispatch.queued"

abbrev pub event_dispatch_failed : String
event_dispatch_failed = "dispatch.failed"

abbrev pub event_dispatch_acked : String
event_dispatch_acked = "dispatch.acked"

abbrev pub event_dispatch_discarded : String
event_dispatch_discarded = "dispatch.discarded"

abbrev pub execution_status_text : ExecutionStatus → String
execution_status_text ExecutionStatus.pending = "pending"
execution_status_text ExecutionStatus.running = "running"
execution_status_text ExecutionStatus.blocked = "blocked"
execution_status_text ExecutionStatus.completed = "completed"
execution_status_text ExecutionStatus.failed = "failed"
execution_status_text ExecutionStatus.cancelled = "cancelled"

abbrev pub approval_status_text : ApprovalStatus → String
approval_status_text ApprovalStatus.pending = "pending"
approval_status_text ApprovalStatus.granted = "granted"
approval_status_text ApprovalStatus.denied = "denied"
approval_status_text ApprovalStatus.expired = "expired"

abbrev pub dispatch_status_text : DispatchStatus → String
dispatch_status_text DispatchStatus.pending = "pending"
dispatch_status_text DispatchStatus.in_flight = "in_flight"
dispatch_status_text DispatchStatus.acked = "acked"
dispatch_status_text DispatchStatus.failed = "failed"
dispatch_status_text DispatchStatus.exhausted = "exhausted"

unfoldable pub step_payload : String → StepKind → String → String → RawMessage
step_payload step_id kind target rule_id = json (
    obj (
      field "step_id" (str step_id) (
        field "step_type" (str kind) (
          field "target" (str target)
            (field_if (not (rule_id == "")) "rule_id" (str rule_id) end)))))

unfoldable pub step_decided_payload : String → StepKind → String → String → String → RawMessage
step_decided_payload step_id kind target rule_id reason = json (
    obj (
      field "step_id" (str step_id) (
        field "step_type" (str kind) (
          field "target" (str target) (
            field_if (not (rule_id == "")) "rule_id" (str rule_id)
              (field_if (not (reason == "")) "reason" (str reason) end))))))

unfoldable pub step_result_payload : String → StepKind → String → ℕ → ℕ → RawMessage
step_result_payload step_id kind target input output = json (
    obj (
      field "step_id" (str step_id) (
        field "step_type" (str kind) (
          field "target" (str target) (
            field_if (ltb 0 input || ltb 0 output) "usage"
              (obj (field "input_tokens" (num input) (field "output_tokens" (num output) end)))
              end)))))

unfoldable pub step_error_payload : String → StepKind → String → RawMessage → RawMessage
step_error_payload step_id kind target error = marshalled error (
    field "step_id" (str step_id) (
      field "step_type" (str kind) (
        field "target" (str target)
          (field_if (not (is_empty error)) "error" (embedded error) end))))

unfoldable pub step_denied_payload : String → StepKind → String → String → RawMessage → RawMessage
step_denied_payload step_id kind target rule_id error = marshalled error (
    field "step_id" (str step_id) (
      field "step_type" (str kind) (
        field_if (not (target == "")) "target" (str target) (
          field_if (not (rule_id == "")) "rule_id" (str rule_id)
            (field_if (not (is_empty error)) "error" (embedded error) end)))))

unfoldable pub execution_payload : Uuid → ExecutionStatus → RawMessage → String → RawMessage
execution_payload id status output reason = marshalled output (
    field "execution_id" (uuid id) (
      field "status" (str (execution_status_text status)) (
        field_if (not (is_empty output)) "output" (embedded output)
          (field_if (not (reason == "")) "reason" (str reason) end))))

unfoldable pub approval_payload :
    Uuid → String → Uuid → ApprovalStatus → String → String → String → RawMessage
approval_payload id step_id execution_id status decided_by asserted_by rationale = json (
    obj (
      field "approval_id" (uuid id) (
        field "step_id" (str step_id) (
          field "execution_id" (uuid execution_id) (
            field "status" (str (approval_status_text status)) (
              field_if (not (decided_by == "")) "decided_by" (str decided_by) (
                field_if (not (asserted_by == "")) "asserted_by" (str asserted_by)
                  (field_if (not (rationale == "")) "rationale" (str rationale) end))))))))

unfoldable pub dispatch_payload : Uuid → Uuid → DispatchStatus → ℕ → RawMessage
dispatch_payload id execution_id status attempt = json (
    obj (
      field "dispatch_id" (uuid id) (
        field "execution_id" (uuid execution_id) (
          field "status" (str (dispatch_status_text status)) (field "attempt" (num attempt) end)))))

-- json.Marshal of {"reason": reason}
unfoldable pub reason_error : String → RawMessage
reason_error reason = json (obj (field "reason" (str reason) end))
