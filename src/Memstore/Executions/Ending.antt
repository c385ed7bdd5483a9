-- ===== src/Memstore/Executions/Ending.antt =====
-- How an execution ended stands, whatever is written afterwards.
use rebuno.Prelude.{
  Bool-cases, String, ap, arith, inl, inr, refl, some, string_eq, true, ℕ_eq, ◌==◌, ◌∙◌, ◌≡◌,
}
use rebuno.Context.{Context}
use rebuno.Domain.Json.{RawMessage}
use rebuno.Domain.Records.{Execution, Uuid}
use rebuno.Domain.Status.{ExecutionStatus, is_terminal}
use rebuno.Memstore.Executions.{
  create_execution, created, set_execution_parent, update_execution_status, with_status,
}
use rebuno.Memstore.Executions.Session.{create_effect, parent_effect, update_effect}
use rebuno.Memstore.Store.{Store}
use rebuno.Prelude.Dict.{insert, lookup, lookup-insert}

-- The execution f still has the ending of e.
pub record SameEnding (e f : Execution) : Type 0 where
  pub status : f.status ≡ e.status
  pub output : f.output ≡ e.output
  pub failure_reason : f.failure_reason ≡ e.failure_reason

pub record KeepsEndings (s t : Store) : Type 0 where
  pub kept :
      (id : Uuid) (e : Execution)
      → lookup id s.executions ≡ some e
      → is_terminal e.status ≡ true
      → (f : Execution) × (lookup id t.executions ≡ some f) × SameEnding e f

SameEnding-refl : (e : Execution) → SameEnding e e
SameEnding-refl e = ground arith

pub KeepsEndings-of_eq : (s t : Store) → t.executions ≡ s.executions → KeepsEndings s t
KeepsEndings-of_eq s t q = record { kept = λ id e p h. (e, rw q p, SameEnding-refl e) }

pub KeepsEndings-chain : (s t u : Store) → KeepsEndings s t → KeepsEndings t u → KeepsEndings s u
KeepsEndings-chain s t u st tu = record {
  kept = λ id e p h.
      let (f, pf, ef) = st.kept id e p h in
      let (g, pg, eg) = tu.kept id f pf (rw ef.status h) in (g, pg, ground arith);
}

-- A write under id that changes no ending.
put-KeepsEndings :
    (id : Uuid) (f : Execution) (s t : Store)
    → t.executions ≡ insert id f s.executions
    → ((e : Execution)
        → lookup id s.executions ≡ some e
        → is_terminal e.status ≡ true
        → SameEnding e f)
    → KeepsEndings s t
put-KeepsEndings id f s t q ends = record {
  kept = λ j e p h.
      let there = ap (lookup j) q ∙ lookup-insert id j f s.executions in
      elim (Bool-cases (id == j)) [
        | inl same ↦
            let ij : id ≡ j = (ℕ_eq.beq_iff id j).0 same in (f, ground arith, ends e (rw ij p) h)
        | inr other ↦ (e, ground arith, SameEnding-refl e)
      ];
}

pub update-KeepsEndings :
    (ctx : Context) (id : Uuid) (status : ExecutionStatus) (output : RawMessage) (reason : String)
    (s : Store)
    → KeepsEndings s (update_execution_status ctx id status output reason s).1
update-KeepsEndings ctx id status output reason s =
    elim (update_effect ctx id status output reason s) [
      | inl same ↦ rw same (KeepsEndings-of_eq s s refl)
      | inr (e, p, live, free, t) ↦
          rw t (put-KeepsEndings id (with_status ctx status output reason e) s _ refl (λ f q h. cc))
    ]

pub set_execution_parent-KeepsEndings :
    (id parent : Uuid) (s : Store) → KeepsEndings s (set_execution_parent id parent s).1
set_execution_parent-KeepsEndings id parent s = elim (parent_effect id parent s) [
  | inl same ↦ rw same (KeepsEndings-of_eq s s refl)
  | inr (e, p, t) ↦ rw t (
      put-KeepsEndings id (record e { parent_execution_id = some parent }) s _ refl
        (λ f q h. ground arith))
]

pub create-KeepsEndings :
    (ctx : Context) (exec : Execution) (s : Store) → KeepsEndings s (create_execution ctx exec s).1
create-KeepsEndings ctx exec s = elim (create_effect ctx exec s) [
  | inl same ↦ rw same (KeepsEndings-of_eq s s refl)
  | inr (new, t) ↦ rw t (put-KeepsEndings exec.id (created ctx exec) s _ refl (λ f q h. cc))
]
