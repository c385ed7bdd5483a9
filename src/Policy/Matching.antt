-- ===== src/Policy/Matching.antt =====
-- internal/policy/engine.go, matches: a condition on what a step is and who submits it.
use rebuno.Prelude.{
  Bool, Option, String, any, contains, false, if◌then◌else◌, length, ltb, none, not, some,
  string_eq, ℕ_eq, ◌&&◌, ◌==◌,
}
use rebuno.Auth.{match_principal}
use rebuno.Domain.Json.{RawMessage}
use rebuno.Domain.Policy.{PolicyInput}
use rebuno.Kernel.Approval.{current}
use rebuno.Policy.{Condition, GoLibrary}
use rebuno.Policy.Arguments.{match_arguments}

module _ (lib : GoLibrary) where
  abbrev rx_refuses : Option String → String → Bool
  rx_refuses none target = false
  rx_refuses (some rx) target = not (lib.regexp_matches rx target)

  -- matches
  unfoldable pub matches : Condition → PolicyInput → (current : RawMessage) → Bool
  matches cond input current =
      if rx_refuses cond.target_rx input.target
      then false
      else if ltb 0 (length cond.targets_rx)
          && not (any (λ rx. lib.regexp_matches rx input.target) cond.targets_rx)
      then false
      else if not (cond.agent_id == "") && not (cond.agent_id == input.agent_id)
      then false
      else if ltb 0 (length cond.agent_ids) && not (contains cond.agent_ids input.agent_id)
      then false
      else if ltb 0 (length cond.subjects)
          && not (match_principal cond.subjects input.subject input.subject_groups)
      then false
      else if not (cond.step_kind == "") && not (cond.step_kind == input.step_kind)
      then false
      else not (
          ltb 0 (length cond.arguments)
          && not (match_arguments lib cond.arguments input.args current))
