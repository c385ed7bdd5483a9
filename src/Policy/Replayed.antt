-- ===== src/Policy/Replayed.antt =====
-- internal/policy/tester.go: the cases that past executions make.
use rebuno.Prelude.{
  Bool, List, Option, Option-cases, String, [], ap, arith, false, find, if◌then◌else◌, inl, inr,
  map, none, not, refl, some, string_eq, ℕ_eq, ◌==◌, ◌||◌, ◌∙◌, ◌∷◌, ◌≡◌,
}
use rebuno.Domain.Json.{Json, RawMessage, json, null, obj, str}
use rebuno.Domain.Payload.{event_step_allowed, event_step_awaiting_approval, event_step_denied}
use rebuno.Domain.Records.{Event, Step, Time}
use rebuno.Policy.Arguments.{find_member, unmarshal_object}
use rebuno.Policy.Tester.{Case}
use rebuno.Prelude.Dict.{Dict, insert, lookup, lookup-insert}

pub record Recorded : Type 0 where
  pub decision : String
  pub rule_id : String
  pub at : Time

-- IsDecisionEvent
abbrev pub is_decision_event : String → Bool
is_decision_event type =
    type == event_step_allowed
    || (type == event_step_denied || type == event_step_awaiting_approval)

-- decisionForEvent
abbrev pub decision_for_event : String → String
decision_for_event type =
    if type == event_step_allowed
    then "allow"
    else if type == event_step_awaiting_approval
    then "require_approval"
    else "deny"

-- json.Unmarshal into a struct of texts: the text of a member, none where its value is no text
abbrev text_field : Option Json → Option String
text_field none = some ""
text_field (some (str s)) = some s
text_field (some null) = some ""
text_field _ = none

abbrev recorded_as : Event → Option String → Option String → Option (String × Recorded)
recorded_as e (some step_id) (some rule_id) =
    if step_id == "" || rule_id == "__indeterminate_retry"
    then none
    else some (
      step_id,
      record { decision = decision_for_event e.type; rule_id = rule_id; at = e.occurred_at },
    )
recorded_as e _ _ = none

-- recordedDecision
unfoldable pub recorded_decision : Event → Option (String × Recorded)
unfolding find_member
recorded_decision e =
    if not (is_decision_event e.type) then none else elim (unmarshal_object e.payload) [
      | none ↦ none
      | some fields ↦
          recorded_as e (text_field (find_member fields "step_id"))
            (text_field (find_member fields "rule_id"))
    ]

abbrev remember : Option (String × Recorded) → Dict String Recorded → Dict String Recorded
remember none seen = seen
remember (some (id, rec)) seen = elim (lookup id seen) [ some _ ↦ seen | none ↦ insert id rec seen ]

-- the first loop of ReplayCases
unfoldable pub recorded_decisions :
    List Event → (seen : Dict String Recorded) → Dict String Recorded
unfolding recorded_decision
recorded_decisions [] seen = seen
recorded_decisions (e ∷ events) seen =
    recorded_decisions events (remember (recorded_decision e) seen)

abbrev decided_from : Option Recorded → Recorded
decided_from none = record { decision = ""; rule_id = ""; at = 0 }
decided_from (some rec) = rec

abbrev decided_as : Dict String Recorded → String → Recorded
decided_as seen id = decided_from (lookup id seen)

-- the arguments of a step, as the map that a case has
abbrev case_args : RawMessage → RawMessage
case_args args = elim (unmarshal_object args) [ none ↦ json null | some fields ↦ json (obj fields) ]

abbrev replay_case : Dict String Recorded → List Step → Step → Case
replay_case seen steps s = record {
  name = "";
  agent_id = "";
  subject = "";
  subject_groups = [];
  kind = s.kind;
  target = s.target;
  args = case_args s.args;
  expect = (decided_as seen s.step_id).decision;
  expect_rule = "";
  history = [];
  execution_id = s.execution_id;
  step_id = s.step_id;
  was_rule = (decided_as seen s.step_id).rule_id;
  allowed_steps = some steps;
  decided_at = (decided_as seen s.step_id).at;
}

-- ReplayCases
unfoldable pub replay_cases : List Step → List Event → List Step → List Case
replay_cases steps events earlier = map (replay_case (recorded_decisions events []) earlier) steps

-- A decision of the step that the event records.
abbrev records_step : String → Event → Bool
records_step id e = elim (recorded_decision e) [ none ↦ false | some d ↦ d.0 == id ]

abbrev recorded_of : Option Event → Option Recorded
recorded_of none = none
recorded_of (some e) = elim (recorded_decision e) [ none ↦ none | some d ↦ some d.1 ]

recorded_decisions-first :
    (id : String) (events : List Event) (seen : Dict String Recorded)
    → lookup id (recorded_decisions events seen) ≡ elim (lookup id seen) [
      | some rec ↦ some rec
      | none ↦ recorded_of (find (records_step id) events)
    ]
unfolding recorded_decisions find
recorded_decisions-first id [] seen = elim (Option-cases (lookup id seen)) [
  | inl missing ↦ rw missing refl
  | inr (rec, found) ↦ rw found refl
]
recorded_decisions-first id (e ∷ events) seen =
    let rest = recorded_decisions-first id events (remember (recorded_decision e) seen) in
    elim (Option-cases (recorded_decision e)) [
      | inl nothing ↦ ground arith
      | inr ((other, rec), recorded) ↦ elim (Option-cases (lookup other seen)) [
        | inr (old, known) ↦ ground (arith, string_eq.beq_iff other id)
        | inl new ↦
            let q = lookup-insert other id rec seen in ground (arith, string_eq.beq_iff other id)
      ]
    ]

abbrev pub decision_recorded : Case → String × String × Time
decision_recorded c = (c.expect, c.was_rule, c.decided_at)

abbrev no_decision : String × String × Time
no_decision = ("", "", 0)

-- What the first event that records a decision of the step says.
abbrev pub first_decision : List Event → Step → String × String × Time
first_decision events s = elim (recorded_of (find (records_step s.step_id) events)) [
  | none ↦ no_decision
  | some rec ↦ (rec.decision, rec.rule_id, rec.at)
]

-- A replayed case expects what the first event that records a decision of its step says, its rule and its time included, whatever later events say, such as the grant of an approval; a step without such an event expects nothing.
pub replay_cases-first :
    (steps : List Step) (events : List Event) (earlier : List Step)
    → map decision_recorded (replay_cases steps events earlier) ≡ map (first_decision events) steps
unfolding replay_cases lookup
replay_cases-first [] events earlier = refl
replay_cases-first (s ∷ steps) events earlier =
    let first = recorded_decisions-first s.step_id events [] in
    let rest = replay_cases-first steps events earlier in
    ap
      (λ (l : List (String × String × Time)).
        decision_recorded (replay_case (recorded_decisions events []) earlier s) ∷ l)
      rest
    ∙ ap (λ (d : String × String × Time). d ∷ map (first_decision events) steps)
        (ap (λ (o : Option Recorded). as_recorded (decided_from o)) first
          ∙ split (recorded_of (find (records_step s.step_id) events)))
  where
    as_recorded : Recorded → String × String × Time
    as_recorded r = (r.decision, r.rule_id, r.at)

    split :
        (o : Option Recorded)
        → as_recorded (decided_from o)
          ≡ elim o [ none ↦ no_decision | some rec ↦ (rec.decision, rec.rule_id, rec.at) ]
    split none = refl
    split (some rec) = refl
