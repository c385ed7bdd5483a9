-- ===== src/Memstore/Steps/Outcome.antt =====
-- The first outcome of a step stands, whatever is written afterwards.
use rebuno.Prelude.{
  Bool-cases, Option, String, arith, eq_iff, false, if◌then◌else◌, inl, inr, none, refl, some,
  string_eq, true, ℕ_eq, ◌==◌, ◌≡◌,
}
use rebuno.Action.Always.{Always, Preorder}
use rebuno.Domain.Records.{Step}
use rebuno.Domain.Status.{is_settled}
use rebuno.Memstore.Steps.{merged, upsert}
use rebuno.Memstore.Store.{Store}
use rebuno.Prelude.Dict.{lookup, lookup-insert}

-- The step t still has the settled outcome of s.
pub record SameOutcome (s t : Step) : Type 0 where
  pub status : t.status ≡ s.status
  pub result : t.result ≡ s.result
  pub error : t.error ≡ s.error
  pub completed_at : t.completed_at ≡ s.completed_at
  pub usage_input : t.usage_input ≡ s.usage_input
  pub usage_output : t.usage_output ≡ s.usage_output

pub record KeepsOutcomes (s t : Store) : Type 0 where
  pub kept :
      (id : String) (step : Step)
      → lookup id s.steps ≡ some step
      → is_settled step.status ≡ true
      → (step' : Step) × (lookup id t.steps ≡ some step') × SameOutcome step step'

merged-SameOutcome :
    (old new : Step) → is_settled old.status ≡ true → SameOutcome old (merged (some old) new)
merged-SameOutcome old new h = rw h (ground arith)

pub merged-step_id : (old : Option Step) (new : Step) → (merged old new).step_id ≡ new.step_id
merged-step_id none new = refl
merged-step_id (some old) new = ground arith

-- A step that has not settled takes the outcome that is written.
pub merged-fresh :
    (old new : Step) → is_settled old.status ≡ false → SameOutcome new (merged (some old) new)
merged-fresh old new h = rw h (ground arith)

SameOutcome-refl : (s : Step) → SameOutcome s s
SameOutcome-refl s = ground arith

pub KeepsOutcomes-preorder : Preorder KeepsOutcomes
KeepsOutcomes-preorder = record {
  same = λ s. record { kept = λ id step p q. (step, p, SameOutcome-refl step) };
  chain = λ s t u st tu. record {
    kept = λ id step p q.
        let (a, pa, oa) = st.kept id step p q in
        let (b, pb, ob) = tu.kept id a pa (rw oa.status q) in (b, pb, ground arith);
  };
}

-- The step under an identifier after an upsert.
pub lookup-upsert :
    (step : Step) (s : Store) (id : String)
    → lookup id (upsert step s).1.steps ≡ (
        if step.step_id == id
        then some (merged (lookup step.step_id s.steps) step)
        else lookup id s.steps)
unfolding upsert
lookup-upsert step s id =
    lookup-insert step.step_id id (merged (lookup step.step_id s.steps) step) s.steps

-- Whatever step an upsert writes, a step that has settled keeps its status, result, error, completion time and usage.
pub upsert-KeepsOutcomes : (step : Step) → Always KeepsOutcomes (upsert step)
upsert-KeepsOutcomes step = record {
  at = λ s. record {
    kept = λ id old p q. elim (Bool-cases (step.step_id == id)) [
      | inl same ↦
          let e : step.step_id ≡ id = (eq_iff step.step_id id).0 same in
          (
            merged (some old) step,
            ground (arith, lookup-upsert step s id),
            merged-SameOutcome old step q,
          )
      | inr other ↦ (old, ground (arith, lookup-upsert step s id), SameOutcome-refl old)
    ];
  };
}
