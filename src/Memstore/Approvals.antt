-- ===== src/Memstore/Approvals.antt =====
-- internal/store/memstore/approvals.go
use rebuno.Prelude.{
  Bool, List, filter, if◌then◌else◌, leb, ltb, none, some, sort, string_eq, ℕ_eq, ◌&&◌, ◌==◌,
}
use rebuno.Action.{Action, Result, err, ok, or_raise}
use rebuno.Context.{Context}
use rebuno.Domain.Records.{Approval, Time, Uuid, not_found}
use rebuno.Domain.Status.{is_undecided}
use rebuno.Memstore.Store.{Store}
use rebuno.Prelude.Dict.{insert, lookup, values}

-- createApprovalLocked
unfoldable pub create_approval : Context → Approval → Action Store (Unit {0})
create_approval ctx a s =
    let a' : Approval = record a {
      created_at = if a.created_at == 0 then ctx.now else a.created_at;
    } in
    (ok tt, record s { approvals = insert a.id a' s.approvals })

-- getApprovalLocked
unfoldable pub get_approval : Uuid → Store → Result Approval
get_approval id s = or_raise not_found (lookup id s.approvals)

-- UpdateApproval
unfoldable pub update_approval : Approval → Action Store (Unit {0})
update_approval a s = elim (lookup a.id s.approvals) [
  | none ↦ (err not_found, s)
  | some _ ↦ (ok tt, record s { approvals = insert a.id a s.approvals })
]

abbrev created_first : Approval → Approval → Bool
created_first a b = ltb a.created_at b.created_at

-- ListPendingApprovals
unfoldable pub list_pending_approvals : Store → List Approval
list_pending_approvals s =
    sort created_first (filter (λ a. is_undecided a.status) (values s.approvals))

-- ListPendingApprovalsByExecution
unfoldable pub list_pending_approvals_by_execution : Uuid → Store → List Approval
list_pending_approvals_by_execution exec_id s =
    sort created_first
      (filter (λ a. is_undecided a.status && a.execution_id == exec_id) (values s.approvals))

-- ListExpiredApprovals
unfoldable pub list_expired_approvals : Time → Store → List Approval
list_expired_approvals now s =
    filter (λ a. is_undecided a.status && leb a.timeout_at now) (values s.approvals)
