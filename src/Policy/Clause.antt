-- ===== src/Policy/Clause.antt =====
-- internal/policy/engine.go, matchClause: a condition on the number of earlier steps, on the sum of
-- an argument of theirs, or on the number of its values.
use rebuno.Prelude.{
  Bool, List, Option, String, [], contains, false, if◌then◌else◌, leb, length, ltb, none, not, some,
  string_eq, true, ℕ, ℕ_eq, ◌&&◌, ◌+◌, ◌-◌, ◌==◌, ◌||◌, ◌∷◌,
}
use rebuno.Domain.Json.{RawMessage}
use rebuno.Domain.Policy.{Float, PolicyInput}
use rebuno.Domain.Records.{Step, Time}
use rebuno.Domain.Status.{is_succeeded}
use rebuno.Policy.{GoLibrary, HistoryClause, window, ℤ}
use rebuno.Policy.Arguments.{
  arg_string, lookup_argument, match_arguments, numeric_argument, unmarshal_object,
}
use rebuno.Policy.Matching.{matches}

pub record Tally : Type 0 where
  pub count : ℕ
  pub total : Float
  pub values_seen : List String

abbrev no_steps : Tally
no_steps = record { count = 0; total = 0; values_seen = [] }

-- the input that matchClause makes of an earlier step
abbrev pub prior_input : Step → PolicyInput
prior_input s = record {
  agent_id = "";
  subject = "";
  subject_groups = [];
  target = s.target;
  args = s.args;
  step_kind = s.kind;
  now = 0;
  history = none;
}

-- the step started before the window of the clause, or never
abbrev pub outside_window : ℤ → Time → Option Time → Bool
outside_window within now started =
    ltb 0 (window within) && elim started [ none ↦ true | some t ↦ ltb t (now - window within) ]

abbrev pub add_value : List String → String → List String
add_value seen value = if contains seen value then seen else value ∷ seen

module _ (lib : GoLibrary) where
  -- the text of an argument of a step, where there is one
  abbrev argument_text : RawMessage → String → Option String
  argument_text args key = elim (unmarshal_object args) [
    | none ↦ none
    | some fields ↦ elim (lookup_argument fields key) [
      | none ↦ none
      | some v ↦ some (arg_string lib v)
    ]
  ]

  -- add: none where it reports false
  unfoldable pub add : HistoryClause → Tally → RawMessage → Option Tally
  add c tally args =
      let counted = record tally { count = tally.count + 1 } in
      if not (c.sum == "")
      then elim (numeric_argument lib args c.sum) [
        | none ↦ none
        | some n ↦ some (record counted { total = lib.float_add tally.total n })
      ]
      else if not (c.distinct == "")
      then elim (argument_text args c.distinct) [
        | none ↦ some counted
        | some text ↦ some (record counted { values_seen = add_value tally.values_seen text })
      ]
      else some counted

  module _ (c : HistoryClause) (input : PolicyInput) where
    -- what the loop asks of a step in the window
    abbrev pub clause_matches : Step → Bool
    clause_matches s =
        matches lib c.condition (prior_input s) input.args
        && not (
            ltb 0 (length c.result)
            && (not (is_succeeded s.status)
                || not (match_arguments lib c.result s.result input.args)))

    abbrev pub counts : Step → Bool
    counts s = not (outside_window c.within input.now s.started_at) && clause_matches s

    abbrev add_or_stop : Bool → RawMessage → Option Tally → Option Tally
    add_or_stop counted args none = none
    add_or_stop counted args (some tally) = if counted then add c tally args else some tally

    -- the loop over the steps; none where it returns false
    unfoldable pub tally_steps : List Step → (tally : Option Tally) → Option Tally
    tally_steps [] tally = tally
    tally_steps (s ∷ steps) tally = tally_steps steps (add_or_stop (counts s) s.args tally)

    -- the step being decided counts where the clause asks for no result
    abbrev counts_current : Bool
    counts_current = leb (length c.result) 0 && matches lib c.condition input input.args

    abbrev value_of : Tally → Float
    value_of tally =
        if not (c.sum == "")
        then tally.total
        else lib.float_of_count
            (if not (c.distinct == "") then length tally.values_seen else tally.count)

    abbrev below_least : Option Float → Float → Bool
    below_least none value = false
    below_least (some least) value = lib.float_less value least

    abbrev within_most : Option Float → Float → Bool
    within_most none value = true
    within_most (some most) value = lib.float_at_most value most

    abbrev within_bounds : Option Tally → Bool
    within_bounds none = false
    within_bounds (some tally) =
        let value = value_of tally in
        not (below_least c.at_least value) && within_most c.at_most value

    -- matchClause
    unfoldable pub match_clause : List Step → Bool
    match_clause steps =
        within_bounds (add_or_stop counts_current input.args (tally_steps steps (some no_steps)))
