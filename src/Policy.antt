-- ===== src/Policy.antt =====
-- internal/policy/engine.go: the rules of a policy, and what the engine takes from Go's library.
-- A compiled regular expression is the text that it was compiled from.
pub mod Arguments
pub mod Glob
pub mod Compile
pub mod Build
pub mod Matching
pub mod Clause
pub mod Engine
pub mod First
pub mod Validated
pub mod Denied
pub mod Window
pub mod Cache
pub mod Cached
pub mod Resolver
pub mod Resolved
pub mod Tester
pub mod Replayed
pub mod Fuel
use rebuno.Prelude.{Bool, List, Option, String, false, true, ℕ, ◌⊎◌}
use rebuno.Domain.Json.{Json}
use rebuno.Domain.Policy.{Float, JudgeConfig, PolicyInput, PolicyResult}
use rebuno.Domain.Records.{Uuid}
use rebuno.Prelude.Dict.{Dict}

-- json.Compact, the text of a UUID, regexp.Compile and MatchString, path.Match on an empty name,
-- strings.Contains, strconv.ParseFloat and the operations on float64 values.
pub record GoLibrary : Type 0 where
  pub compact : Json → String
  pub uuid_text : Uuid → String
  pub regexp_compiles : String → Bool
  pub regexp_matches : (pattern text : String) → Bool
  pub path_match_accepts : String → Bool
  pub text_contains : (text part : String) → Bool
  pub parse_float : String → Option Float
  pub float_add : Float → Float → Float
  pub float_less : Float → Float → Bool
  pub float_at_most : Float → Float → Bool
  pub float_of_count : ℕ → Float
  pub format_float : Float → String

-- The only constraint that the zero value of a field makes is none.
pub record ArgPredicate : Type 0 where
  pub equals : String
  pub equals_arg : String
  pub includes : String
  pub one_of : List String
  pub regex : String
  pub rx : Option String

-- A condition without its history, which a rule and a clause hold beside it.
pub record Condition : Type 0 where
  pub target : String
  pub targets : List String
  pub agent_id : String
  pub agent_ids : List String
  pub subjects : List String
  pub step_kind : String
  pub arguments : Dict String ArgPredicate
  pub target_rx : Option String
  pub targets_rx : List String

-- time.Duration
pub data ℤ : Type 0 where
  pos : ℕ → ℤ
  negsuc : ℕ → ℤ

-- Of the history inside a clause the engine reads the length.
pub record HistoryClause : Type 0 where
  pub condition : Condition
  pub history_length : ℕ
  pub scope : String
  pub within : ℤ
  pub result : Dict String ArgPredicate
  pub sum : String
  pub distinct : String
  pub at_least : Option Float
  pub at_most : Option Float

pub record Rule : Type 0 where
  pub id : String
  pub when : Condition
  pub history : List HistoryClause
  pub outcome : PolicyResult

pub record Config : Type 0 where
  pub default_action : String
  pub rules : List Rule

-- w > 0, as a window of that length
abbrev pub window : ℤ → ℕ
window (pos n) = n
window (negsuc n) = 0

abbrev pub is_negative : ℤ → Bool
is_negative (pos n) = false
is_negative (negsuc n) = true

-- The judge's service: the probabilities that it answers, or the text of the error.
pub record Judge : Type 0 where
  pub ask : PolicyInput → JudgeConfig → String ⊎ Dict String Float

-- The widest window of each scope; zero reads the whole scope.
pub record RuleEngine : Type 0 where
  pub rules : List Rule
  pub default_result : PolicyResult
  pub hash : String
  pub judge : Option Judge
  pub lookback : Dict String ℤ
