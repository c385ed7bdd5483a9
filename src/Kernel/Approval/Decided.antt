-- ===== src/Kernel/Approval/Decided.antt =====
-- An approval is decided once, and by an approver.
use rebuno.Prelude.{
  String, ap, arith, false, inl, inr, refl, some, string_eq, sym, true, ℕ_eq, ◌∙◌, ◌≡◌, ◌⊎◌,
}
use rebuno.Action.{Action, Result, err, ok, pure, reads, refuse_if, ◌>>=◌}
use rebuno.Action.Laws.{bind-err, bind_ok_inversion}
use rebuno.Context.{Context}
use rebuno.Domain.Records.{Approval, Err, Uuid, allows_approver}
use rebuno.Domain.Status.{is_undecided}
use rebuno.Kernel.Approval.{
  DecisionRequest, approval_decider, approver_matcher, decision_guard, deny_approval,
  grant_approval,
}
use rebuno.Kernel.Env.{Env, authorized_execution}
use rebuno.Memstore.Approvals.{get_approval}
use rebuno.Memstore.Store.{Store}
use rebuno.Prelude.Dict.{lookup}

module _ (env : Env) (ctx : Context) (id : Uuid) (req : DecisionRequest) (s : Store) where
  -- The guard only reads the store, and lets a decision through only for a pending approval.
  decision_guard-reads : (decision_guard env ctx id req s).1 ≡ s
  unfolding decision_guard authorized_execution ◌>>=◌ refuse_if pure reads
  decision_guard-reads = ground arith

  decision_guard-passed :
      (who : String × String) (t : Store)
      → decision_guard env ctx id req s ≡ (ok who, t)
      → (a : Approval) × (lookup id s.approvals ≡ some a)
        × (is_undecided a.status ≡ true)
        × (approval_decider ctx req.decided_by ≡ ok who)
        × (allows_approver a (approver_matcher ctx who.0 who.1) ≡ true)
  unfolding decision_guard authorized_execution ◌>>=◌ refuse_if pure reads get_approval
  decision_guard-passed who t h = ground arith

  -- What follows the guard runs only if the guard lets it.
  guarded :
      {B : Type 0} (f : String × String → Action Store B) (a : Approval)
      → lookup id s.approvals ≡ some a
      → is_undecided a.status ≡ false
      → (e : Err) × ((decision_guard env ctx id req >>= f) s ≡ (err e, s))
  guarded f a p h = go (decision_guard env ctx id req s).0 (decision_guard env ctx id req s).1 refl
    where
      go :
          (r : Result (String × String)) (t : Store)
          → decision_guard env ctx id req s ≡ (r, t)
          → (e : Err) × ((decision_guard env ctx id req >>= f) s ≡ (err e, s))
      go (ok who) t q =
          let (b, pb, undecided, w, m) = decision_guard-passed who t q in absurd (ground arith)
      go (err e) t q =
          let same : t ≡ s =
            ap (λ (x : Result (String × String) × Store). x.1) (sym q) ∙ decision_guard-reads in
          (e, bind-err (decision_guard env ctx id req) f s e t q ∙ ap (λ x. (err e, x)) same)

-- An approval that is granted, denied or expired stays so: granting or denying it, by anyone, is an error and changes nothing.
pub decided_approval_stands :
    (env : Env) (ctx : Context) (id : Uuid) (req : DecisionRequest) (s : Store) (a : Approval)
    → lookup id s.approvals ≡ some a
    → is_undecided a.status ≡ false
    → ((e : Err) × (grant_approval env ctx id req s ≡ (err e, s)))
      × ((e : Err) × (deny_approval env ctx id req s ≡ (err e, s)))
unfolding grant_approval deny_approval
decided_approval_stands env ctx id req s a p h =
    (guarded env ctx id req s _ a p h, guarded env ctx id req s _ a p h)

-- A decision that GrantApproval or DenyApproval accepts was on a pending approval, in the name of a decider that the request may use, who is one of the approvers if the approval names any.
pub decision_by_approver :
    (env : Env) (ctx : Context) (id : Uuid) (req : DecisionRequest) (s t : Store)
    → (grant_approval env ctx id req s ≡ (ok tt, t)) ⊎ (deny_approval env ctx id req s ≡ (ok tt, t))
    → (a : Approval) × (who : String × String) × (lookup id s.approvals ≡ some a)
      × (is_undecided a.status ≡ true)
      × (approval_decider ctx req.decided_by ≡ ok who)
      × (allows_approver a (approver_matcher ctx who.0 who.1) ≡ true)
unfolding grant_approval deny_approval
decision_by_approver env ctx id req s t (inl run) =
    let (who, s1, r, q) = bind_ok_inversion (decision_guard env ctx id req) _ s tt t run in
    let (a, p, u, w, m) = decision_guard-passed env ctx id req s who s1 r in (a, who, p, u, w, m)
decision_by_approver env ctx id req s t (inr run) =
    let (who, s1, r, q) = bind_ok_inversion (decision_guard env ctx id req) _ s tt t run in
    let (a, p, u, w, m) = decision_guard-passed env ctx id req s who s1 r in (a, who, p, u, w, m)
