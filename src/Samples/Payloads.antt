-- ===== src/Samples/Payloads.antt =====
-- Payloads on concrete values, with their optional members present and absent.
use rebuno.Prelude.{refl, ◌≡◌}
use rebuno.Domain.Json.{empty, end, field, json, member, num, obj, str, uuid}
use rebuno.Domain.Payload.{
  approval_payload, dispatch_payload, execution_payload, reason_error, step_decided_payload,
  step_denied_payload, step_error_payload, step_payload, step_result_payload,
}
use rebuno.Domain.Status.{ApprovalStatus, DispatchStatus, ExecutionStatus}
use rebuno.Kernel.Step.{step_error}

step_payload-plain :
    step_payload "s" "tool_call" "pay" ""
    ≡ json (
        obj (
          field "step_id"
            (str "s")
            (field "step_type" (str "tool_call") (field "target" (str "pay") end))))
unfolding step_payload
step_payload-plain = refl

step_decided_payload-reason :
    step_decided_payload "s" "tool_call" "pay" "" "why"
    ≡ json (
        obj (
          field "step_id" (str "s") (
            field "step_type"
              (str "tool_call")
              (field "target" (str "pay") (field "reason" (str "why") end)))))
unfolding step_decided_payload
step_decided_payload-reason = refl

step_result_payload-no_usage :
    step_result_payload "s" "tool_call" "pay" 0 0 ≡ step_payload "s" "tool_call" "pay" ""
unfolding step_result_payload step_payload
step_result_payload-no_usage = refl

step_error_payload-empty :
    step_error_payload "s" "tool_call" "pay" empty ≡ step_payload "s" "tool_call" "pay" ""
unfolding step_error_payload step_payload
step_error_payload-empty = refl

step_denied_payload-rule :
    step_denied_payload "s" "tool_call" "" "r" empty
    ≡ json (
        obj (
          field "step_id"
            (str "s")
            (field "step_type" (str "tool_call") (field "rule_id" (str "r") end))))
unfolding step_denied_payload
step_denied_payload-rule = refl

execution_payload-reason :
    execution_payload 1 ExecutionStatus.failed empty "why"
    ≡ json (
        obj (
          field "execution_id"
            (uuid 1)
            (field "status" (str "failed") (field "reason" (str "why") end))))
unfolding execution_payload
execution_payload-reason = refl

approval_payload-undecided :
    approval_payload 7 "s" 1 ApprovalStatus.pending "" "" ""
    ≡ json (
        obj (
          field "approval_id" (uuid 7) (
            field "step_id"
              (str "s")
              (field "execution_id" (uuid 1) (field "status" (str "pending") end)))))
unfolding approval_payload
approval_payload-undecided = refl

dispatch_payload-queued :
    dispatch_payload 5 1 DispatchStatus.pending 0
    ≡ json (
        obj (
          field "dispatch_id" (uuid 5) (
            field "execution_id"
              (uuid 1)
              (field "status" (str "pending") (field "attempt" (num 0) end)))))
unfolding dispatch_payload
dispatch_payload-queued = refl

reason_error-timeout : step_error (reason_error "timeout") ≡ ("timeout", "")
unfolding reason_error step_error member
reason_error-timeout = refl
