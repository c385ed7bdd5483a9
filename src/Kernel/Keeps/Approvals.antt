-- ===== src/Kernel/Keeps/Approvals.antt =====
-- The operations on approvals keep what Keeps says.
use rebuno.Context.{Context}
use rebuno.Domain.Json.{RawMessage}
use rebuno.Domain.Records.{Approval, Uuid}
use rebuno.Kernel.Approval.{
  DecisionRequest, decision_guard, deny_approval, deny_tx, expire_approval, expire_tx,
  grant_approval, grant_tx,
}
use rebuno.Kernel.Env.{Env}
use rebuno.Kernel.Keeps.{Keeping}
use rebuno.Kernel.Keeps.Calls.{keeping}
use rebuno.Kernel.Keeps.Rules.{bind-Keeping, option-Keeping}
use rebuno.Kernel.Keeps.Steps.{authorized_execution-Keeping, resume_if_idle-Keeping}

module _ (env : Env) (ctx : Context) where
  grant_tx-Keeping : (a : Approval) → Keeping (grant_tx env ctx a)
  unfolding grant_tx
  grant_tx-Keeping a = search (keeping, resume_if_idle-Keeping env ctx) depth 8

  deny_tx-Keeping : (error : RawMessage) (a : Approval) → Keeping (deny_tx env ctx error a)
  unfolding deny_tx
  deny_tx-Keeping error a = search (keeping, resume_if_idle-Keeping env ctx) depth 8

  expire_tx-Keeping : (a : Approval) → Keeping (expire_tx env ctx a)
  unfolding expire_tx
  expire_tx-Keeping a = search (keeping, resume_if_idle-Keeping env ctx) depth 8

  decision_guard-Keeping :
      (id : Uuid) (req : DecisionRequest) → Keeping (decision_guard env ctx id req)
  unfolding decision_guard
  decision_guard-Keeping id req = search (keeping, authorized_execution-Keeping env ctx) depth 8

  pub grant_approval-Keeping :
      (id : Uuid) (req : DecisionRequest) → Keeping (grant_approval env ctx id req)
  unfolding grant_approval
  grant_approval-Keeping id req = search (keeping, decision_guard-Keeping, grant_tx-Keeping)

  pub deny_approval-Keeping :
      (id : Uuid) (req : DecisionRequest) → Keeping (deny_approval env ctx id req)
  unfolding deny_approval
  deny_approval-Keeping id req = search (keeping, decision_guard-Keeping, deny_tx-Keeping)

  pub expire_approval-Keeping : (id : Uuid) → Keeping (expire_approval env ctx id)
  unfolding expire_approval
  expire_approval-Keeping id =
      bind-Keeping _ _ (search keeping) λ found.
        option-Keeping found _ _ (search keeping) (λ a. search (keeping, expire_tx-Keeping))
