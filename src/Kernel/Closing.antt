-- ===== src/Kernel/Closing.antt =====
-- The number of executions that have not ended: no operation on the way of a cancellation raises it.
pub mod Rules
pub mod Handlers
pub mod Enough
use rebuno.Prelude.{
  List, [], arith, if◌then◌else◌, some, string_eq, suc, ℕ, ℕ_eq, ◌+◌, ◌∷◌, ◌≡◌, ◌≤◌,
}
use rebuno.Action.{Action}
use rebuno.Action.Always.{Always, Preorder}
use rebuno.Domain.Records.{Execution, Uuid}
use rebuno.Domain.Status.{is_terminal}
use rebuno.Memstore.Store.{Store}
use rebuno.Prelude.Dict.{Dict, insert, lookup, values}

unfoldable pub open_count : List Execution → ℕ
open_count [] = 0
open_count (e ∷ es) = let rest = open_count es in if is_terminal e.status then rest else suc rest

abbrev pub open_executions : Store → ℕ
open_executions s = open_count (values s.executions)

pub record Closes (s t : Store) : Type 0 where
  pub fewer : open_executions t ≤ open_executions s

pub Closes-preorder : Preorder Closes
Closes-preorder = record {
  same = λ s. record { fewer = omega arith };
  chain = λ s t u p q. record { fewer = omega (arith, p.fewer, q.fewer) };
}

-- Every run of the action leaves no more executions that have not ended.
abbrev pub Closing : {A : Type 0} → Action Store A → Type 0
Closing m = Always Closes m

abbrev pub weight : Execution → ℕ
weight e = if is_terminal e.status then 0 else 1

-- A write to an execution that is there.
pub open_count-insert :
    (id : Uuid) (old new : Execution) (m : Dict Uuid Execution)
    → lookup id m ≡ some old
    → open_count (values (insert id new m)) + weight old ≡ open_count (values m) + weight new
unfolding open_count values insert lookup
open_count-insert id old new [] found = cc
open_count-insert id old new ((k, e) ∷ m) found =
    ground (arith, ℕ_eq.beq_iff k id, open_count-insert id old new m)
