-- ===== src/Policy/Denied.antt =====
-- What an allowance of the rule engine rests on, and how it fails closed.
use rebuno.Prelude.{
  List, Option-cases, String, arith, false, find, find-narrowed, find-passes, inl, inr, refl, some,
  string_eq, texts_differ, true, ℕ_eq, ◌==◌, ◌∙◌, ◌∷◌, ◌≡◌, ◌⊎◌,
}
use rebuno.Action.{Result, err, ok}
use rebuno.Action.Laws.{Result-cases}
use rebuno.Domain.Policy.{PolicyInput, plain_result}
use rebuno.Domain.Records.{Err, Step, Time, step_kind_local}
use rebuno.Policy.{Config, GoLibrary, HistoryClause, Rule, RuleEngine}
use rebuno.Policy.Build.{new_rule_engine}
use rebuno.Policy.Compile.{pass}
use rebuno.Policy.Engine.{evaluate, read_history, read_since, with_now}
use rebuno.Policy.First.{clauses_hold, decides, evaluate-eq-first}
use rebuno.Policy.Matching.{matches}
use rebuno.Policy.Validated.{new_rule_engine-inversion}

module _ (lib : GoLibrary) where
  -- An engine made of a configuration whose default is not to allow lets a step that is not local through only for a rule: the first rule of its list that decides the step is one whose history clauses hold, and its decision is to allow or to ask the judge.
  pub allowed-has_rule :
      (cfg : Config) (engine : RuleEngine) (clock : Time) (given : PolicyInput)
      → new_rule_engine lib cfg ≡ pass engine
      → (cfg.default_action == "allow") ≡ false
      → (given.step_kind == step_kind_local) ≡ false
      → (evaluate lib engine clock given).decision ≡ "allow"
      → (rule : Rule) × (find (decides lib engine (with_now clock given)) engine.rules ≡ some rule)
        × (clauses_hold lib engine (with_now clock given) rule.history ≡ ok true)
        × ((rule.outcome.decision ≡ "allow") ⊎ (rule.outcome.decision ≡ "judge"))
  allowed-has_rule cfg engine clock given made strict remote lets_through =
      let input = with_now clock given in
      let q = evaluate-eq-first lib engine clock given in
      let (compiled, _, _, default) = new_rule_engine-inversion lib cfg engine made in
      elim (Option-cases (find (decides lib engine input) engine.rules)) [
        | inl nothing ↦ absurd (texts_differ "deny" "allow" refl (ground arith))
        | inr (rule, found) ↦
            let passes = find-passes (decides lib engine input) engine.rules rule found in
            elim (Result-cases (clauses_hold lib engine input rule.history)) [
              | inl (e, r) ↦ absurd (texts_differ "deny" "allow" refl (ground arith))
              | inr (holds, r) ↦ (
                rule,
                found,
                ground arith,
                ground (arith, string_eq.beq_iff rule.outcome.decision "judge"),
              )
            ]
      ]

  -- If the history cannot be read, and the first rule of an engine whose condition matches a step has history clauses, the engine denies the step in that rule's name and says that the history is unavailable.
  pub unread_history-denies :
      (engine : RuleEngine) (clock : Time) (given : PolicyInput)
      (read_from : String → Time → Result (List Step)) (rule : Rule) (c : HistoryClause)
      (cs : List HistoryClause)
      → given.history ≡ some read_from
      → ((scope : String) (since : Time) → (e : Err) × (read_from scope since ≡ err e))
      → find (λ r. matches lib r.when (with_now clock given) given.args) engine.rules ≡ some rule
      → rule.history ≡ c ∷ cs
      → evaluate lib engine clock given
        ≡ record (plain_result "deny" "history_unavailable" rule.id) { policy_hash = engine.hash }
  unread_history-denies engine clock given read_from rule c cs has unread_at found clauses =
      let input = with_now clock given in
      let (e, r) = read_fails in
      let refused : clauses_hold lib engine input rule.history ≡ err e = ground arith in
      let p = λ (x : Rule). matches lib x.when input given.args in
      let passes = find-passes p engine.rules rule found in
      let decided : decides lib engine input rule ≡ true = ground arith in
      let first =
        find-narrowed p (decides lib engine input) engine.rules rule narrower found decided in
      evaluate-eq-first lib engine clock given ∙ ground arith
    where
      read_fails : (e : Err) × (read_history engine (with_now clock given) c.scope ≡ err e)
      read_fails =
          let (e, q) = unread_at c.scope (read_since engine (with_now clock given) c.scope) in
          (e, ground arith)

      narrower :
          (x : Rule)
          → decides lib engine (with_now clock given) x ≡ true
          → matches lib x.when (with_now clock given) given.args ≡ true
      narrower x h = ground arith
