-- ===== src/Kernel/Retention.antt =====
-- The stores that the kernel's operations lead to when Cleanup of internal/kernel/lifecycle.go runs
-- between them: what stands, until the clean-up deletes it.
use rebuno.Prelude.{
  Bool-cases, List, String, arith, inl, inr, none, refl, some, string_eq, true, ℕ_eq, ◌++◌, ◌-◌,
  ◌==◌, ◌≡◌, ◌⊎◌,
}
use rebuno.Action.{modify, pure}
use rebuno.Context.{Context}
use rebuno.Domain.Records.{Event, Execution, Step, Time, Uuid}
use rebuno.Domain.Status.{is_settled, is_terminal}
use rebuno.Kernel.Env.{Env}
use rebuno.Kernel.Reach.{KernelStep, KernelStep-Keeps, Reach, start, then_step}
use rebuno.Kernel.Sweeps.{cleanup}
use rebuno.Memstore.Cleanup.{delete_executions_created_before}
use rebuno.Memstore.Events.{log}
use rebuno.Memstore.Executions.Ending.{SameEnding}
use rebuno.Memstore.Retained.{cleanup-executions, cleanup-steps, is_swept}
use rebuno.Memstore.Steps.Outcome.{SameOutcome}
use rebuno.Memstore.Store.{Store}
use rebuno.Prelude.Dict.{lookup}

-- One operation of the kernel, or its clean-up.
pub data LifeStep (env : Env) : Store → Store → Type 0 where
  operates : {s t : Store} → KernelStep env s t → LifeStep env s t
  cleans : (retain : Time) (ctx : Context) (s : Store) → LifeStep env s (cleanup retain ctx s).1

pub data LifeReach (env : Env) (s : Store) : Store → Type 0 where
  begin : LifeReach env s s
  and_then : {t u : Store} → LifeReach env s t → LifeStep env t u → LifeReach env s u

pub Reach-lives : (env : Env) {s t : Store} → Reach env s t → LifeReach env s t
Reach-lives env start = begin
Reach-lives env (then_step r k) = and_then (Reach-lives env r) (operates k)

-- The clean-up of a store leaves it alone, or deletes.
cleanup_effect :
    (retain : Time) (ctx : Context) (s : Store)
    → ((cleanup retain ctx s).1 ≡ s)
      ⊎ ((cleanup retain ctx s).1 ≡ delete_executions_created_before (ctx.now - retain) s)
unfolding cleanup pure modify
cleanup_effect retain ctx s = elim (Bool-cases (retain == 0)) [
  | inl forever ↦ inl (rw forever refl)
  | inr limited ↦ inr (rw limited refl)
]

-- P holds in t, or P held until a clean-up on the way to t, which did Q.
unfoldable pub Until :
    (env : Env) (P : Store → Type 0) (Q : Time → Store → Store → Type 0) → Store → Store → Type 0
Until env P Q s t =
    P t
    ⊎ ((retain : Time) × (ctx : Context) × (u : Store) × LifeReach env s u
        × P u
        × Q (ctx.now - retain) u (cleanup retain ctx u).1
        × LifeReach env (cleanup retain ctx u).1 t)

module _ (env : Env) where
  -- What operations keep stands until a clean-up ends it.
  LifeReach-Until :
      (P : Store → Type 0) (Q : Time → Store → Store → Type 0) (s t : Store)
      → ((u v : Store) → KernelStep env u v → P u → P v)
      → ((retain : Time) (ctx : Context) (u : Store)
          → P u
          → P (delete_executions_created_before (ctx.now - retain) u)
            ⊎ Q (ctx.now - retain) u (delete_executions_created_before (ctx.now - retain) u))
      → P s
      → LifeReach env s t
      → Until env P Q s t
  unfolding Until
  LifeReach-Until P Q s _ operate clean h begin = inl h
  LifeReach-Until P Q s _ operate clean h (and_then {t} {u} r (operates k)) =
      elim (LifeReach-Until P Q s t operate clean h r) [
        | inl holds ↦ inl (operate t u k holds)
        | inr (retain, ctx, v, before, held, ended, after) ↦
            inr (retain, ctx, v, before, held, ended, and_then after (operates k))
      ]
  LifeReach-Until P Q s _ operate clean h (and_then {t} r (cleans retain ctx _)) =
      elim (LifeReach-Until P Q s t operate clean h r) [
        | inl holds ↦ elim (cleanup_effect retain ctx t) [
          | inl same ↦ inl (rw same holds)
          | inr swept ↦ elim (clean retain ctx t holds) [
            | inl stays ↦ inl (rw swept stays)
            | inr ended ↦ inr (retain, ctx, t, r, holds, rw swept ended, begin)
          ]
        ]
        | inr (old_retain, old_ctx, v, before, held, ended, after) ↦
            inr (old_retain, old_ctx, v, before, held, ended, and_then after (cleans retain ctx t))
      ]

-- Once a step has settled, any further modelled operations of the kernel, its clean-up included, leave its status, its result, its error, its completion time and its usage as they are; or a clean-up deletes the step on the way, which until then was so, and whose execution was one that the clean-up deletes.
pub settled_step_stands :
    (env : Env) (s t : Store)
    → LifeReach env s t
    → (id : String) (step : Step) → lookup id s.steps ≡ some step
    → is_settled step.status ≡ true
    → Until env
        (λ u. (step' : Step) × (lookup id u.steps ≡ some step') × SameOutcome step step')
        (λ before u v.
          (step' : Step) × (lookup id u.steps ≡ some step')
          × (is_swept before u step'.execution_id ≡ true)
          × (lookup id v.steps ≡ none))
        s
        t
settled_step_stands env s t r id step stored settled =
    LifeReach-Until env _ _ s t
      (λ u v k (a, p, o).
        let (b, q, o') = (KernelStep-Keeps env k).outcomes.kept id a p (ground (arith, o.status)) in
        (b, q, ground arith))
      (λ retain ctx u (a, p, o). elim (cleanup-steps (ctx.now - retain) u id a p) [
        | inl kept ↦ inl (a, kept, o)
        | inr (swept, gone) ↦ inr (a, p, swept, gone)
      ])
      (step, stored, ground arith) r

-- Once an execution has ended, any further modelled operations of the kernel, its clean-up included, leave its status, its output and its failure reason as they are; or a clean-up deletes the execution on the way, which until then was so, and which was one that the clean-up deletes.
pub ended_execution_stands :
    (env : Env) (s t : Store)
    → LifeReach env s t
    → (id : Uuid) (e : Execution) → lookup id s.executions ≡ some e
    → is_terminal e.status ≡ true
    → Until env
        (λ u. (f : Execution) × (lookup id u.executions ≡ some f) × SameEnding e f)
        (λ before u v. (is_swept before u id ≡ true) × (lookup id v.executions ≡ none))
        s
        t
ended_execution_stands env s t r id e stored ended =
    LifeReach-Until env _ _ s t
      (λ u v k (f, p, o).
        let (g, q, o') = (KernelStep-Keeps env k).endings.kept id f p (ground (arith, o.status)) in
        (g, q, ground arith))
      (λ retain ctx u (f, p, o). elim (cleanup-executions (ctx.now - retain) u id f p) [
        | inl (left, kept, (parent, fork, same)) ↦ inl (left, kept, ground arith)
        | inr gone ↦ inr gone
      ])
      (e, stored, ground arith) r

-- What a reader that stopped at the end of the log s gets of the log of t.
module _ (s : Store) (id : Uuid) where
  Extends : Store → Type 0
  Extends u = (rest : List Event) × (log u id ≡ log s id ++ rest)
