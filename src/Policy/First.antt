-- ===== src/Policy/First.antt =====
-- The rule that decides a step, without the cache of the history.
use rebuno.Prelude.{
  Bool, Bool-cases, List, Option-cases, String, [], ap, arith, false, find, if◌then◌else◌, inl, inr,
  none, not, refl, some, string_eq, true, ℕ_eq, ◌&&◌, ◌∷◌, ◌≡◌,
}
use rebuno.Action.{Result, err, ok, pure, ◌>>=◌}
use rebuno.Action.Laws.{Result-cases}
use rebuno.Domain.Policy.{PolicyInput, PolicyResult}
use rebuno.Domain.Records.{Step, Time}
use rebuno.Policy.{GoLibrary, HistoryClause, Rule, RuleEngine}
use rebuno.Policy.Clause.{match_clause}
use rebuno.Policy.Engine.{
  cached, evaluate, evaluate_rules, history_unavailable, load, match_all, no_rule_matched,
  read_history, rule_result, with_now,
}
use rebuno.Policy.Matching.{matches}
use rebuno.Prelude.Dict.{Dict, lookup, lookup-insert}

module _ (lib : GoLibrary) (engine : RuleEngine) (input : PolicyInput) where
  -- The clauses in order, each on the steps that its scope reads.
  abbrev pub clauses_hold : List HistoryClause → Result Bool
  clauses_hold [] = ok true
  clauses_hold (c ∷ cs) = elim (read_history engine input c.scope) [
    | err e ↦ err e
    | ok steps ↦ if match_clause lib c input steps then clauses_hold cs else ok false
  ]

  abbrev undecided : Result Bool → Bool
  undecided (ok false) = true
  undecided _ = false

  -- The condition matches and no clause fails; a read that fails decides too.
  abbrev pub decides : Rule → Bool
  decides rule =
      matches lib rule.when input input.args && not (undecided (clauses_hold rule.history))

  abbrev pub outcome_of : Rule → PolicyResult
  outcome_of rule = elim (clauses_hold rule.history) [
    | err e ↦ history_unavailable lib engine input rule
    | ok holds ↦ rule_result lib engine input rule
  ]

  -- What is kept of a scope is what a read of it answers.
  abbrev IsLoaded : Dict String (List Step) → Type 0
  IsLoaded loaded =
      (scope : String) (found : List Step)
      → lookup scope loaded ≡ some found
      → read_history engine input scope ≡ ok found

  empty-IsLoaded : IsLoaded []
  unfolding lookup
  empty-IsLoaded scope found p = cc

  cached_lem :
      (scope : String) (loaded : Dict String (List Step)) (answer : Result (List Step))
      → answer ≡ read_history engine input scope
      → IsLoaded loaded
      → ((cached scope answer loaded).0 ≡ answer) × IsLoaded ((cached scope answer loaded).1)
  cached_lem scope loaded (err e) q h = (refl, h)
  cached_lem scope loaded (ok found) q h = (
    refl,
    λ other kept p.
        let r = lookup-insert scope other found loaded in
        ground (arith, r, string_eq.beq_iff scope other, h other kept),
  )

  load_lem :
      (scope : String) (loaded : Dict String (List Step))
      → IsLoaded loaded
      → ((load engine input scope loaded).0 ≡ read_history engine input scope)
        × IsLoaded ((load engine input scope loaded).1)
  unfolding load
  load_lem scope loaded h = elim (Option-cases (lookup scope loaded)) [
    | inl missing ↦
        let kept = cached_lem scope loaded (read_history engine input scope) refl h in ground arith
    | inr (found, p) ↦ ground (arith, h scope found p)
  ]

  match_all_lem :
      (clauses : List HistoryClause) (loaded : Dict String (List Step))
      → IsLoaded loaded
      → ((match_all lib engine input clauses loaded).0 ≡ clauses_hold clauses)
        × IsLoaded ((match_all lib engine input clauses loaded).1)
  unfolding match_all ◌>>=◌ pure
  match_all_lem [] loaded h = (refl, h)
  match_all_lem (c ∷ cs) loaded h =
      let (answer, kept) = load_lem c.scope loaded h in
      let rest = match_all_lem cs (load engine input c.scope loaded).1 kept in
      elim (Result-cases (read_history engine input c.scope)) [
        | inl (e, q) ↦ ground arith
        | inr (found, q) ↦ elim (Bool-cases (match_clause lib c input found)) [
          | inl so ↦ ground arith
          | inr not_so ↦ ground arith
        ]
      ]

  pub evaluate_rules-eq-find :
      (rules : List Rule) (loaded : Dict String (List Step))
      → IsLoaded loaded
      → evaluate_rules lib engine input rules loaded ≡ elim (find decides rules) [
        | none ↦ no_rule_matched lib engine input
        | some rule ↦ outcome_of rule
      ]
  unfolding evaluate_rules find
  evaluate_rules-eq-find [] loaded h = refl
  evaluate_rules-eq-find (rule ∷ rules) loaded h =
      let (answer, kept) = match_all_lem rule.history loaded h in
      let now = evaluate_rules-eq-find rules loaded h in
      let later =
        evaluate_rules-eq-find rules (match_all lib engine input rule.history loaded).1 kept in
      elim (Bool-cases (matches lib rule.when input input.args)) [
        | inr not_so ↦ ground arith
        | inl so ↦ elim (Result-cases (clauses_hold rule.history)) [
          | inl (e, q) ↦ ground arith
          | inr (holds, q) ↦ elim (Bool-cases holds) [
            | inl all ↦ ground arith
            | inr not_all ↦ ground arith
          ]
        ]
      ]

-- A rule engine answers as the first rule of its list that decides the step says, where a rule decides if its condition matches and its history clauses, read without a cache and in order, all hold or one cannot be read: a denial if a read failed, and else the rule's own result, by the judge where the rule asks for one. If no rule decides, the answer is an allowance for a local step and the default result for every other. The hash of the policy is in every answer.
pub evaluate-eq-first :
    (lib : GoLibrary) (engine : RuleEngine) (clock : Time) (given : PolicyInput)
    → let input = with_now clock given in
      evaluate lib engine clock given
      ≡ record (elim (find (decides lib engine input) engine.rules) [
        | none ↦ no_rule_matched lib engine input
        | some rule ↦ outcome_of lib engine input rule
      ]) { policy_hash = engine.hash }
unfolding evaluate
evaluate-eq-first lib engine clock given =
    let input = with_now clock given in
    ap (λ (res : PolicyResult). record res { policy_hash = engine.hash })
      (evaluate_rules-eq-find lib engine input engine.rules [] (empty-IsLoaded lib engine input))
