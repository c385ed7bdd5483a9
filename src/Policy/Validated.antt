-- ===== src/Policy/Validated.antt =====
-- What NewRuleEngine has checked of the rules that it returns.
use rebuno.Prelude.{
  All, All-weaken, Bool, List, String, [], ap, arith, contains, false, map, none, not, refl,
  string_eq, subst, sym, true, ℕ_eq, ◌&&◌, ◌==◌, ◌||◌, ◌∷◌, ◌≡◌,
}
use rebuno.Policy.{Condition, Config, GoLibrary, HistoryClause, Rule, RuleEngine, ℤ}
use rebuno.Policy.Build.{compile_clauses, compile_rules, default_result_of, new_rule_engine}
use rebuno.Policy.Compile.{
  Checked, ConfigError, check_rule, check_rules, checks_of, compile_condition, fail, fail_if,
  final_decisions, first_failure, float_one, is_no_judge, judge_without_decision, known_decisions,
  one_of, pass, threshold_outside, ◌>>=◌,
}
use rebuno.Prelude.Dict.{Dict}

pub checked_inversion :
    {A B : Type 0} (m : Checked A) (f : A → Checked B) (b : B)
    → m >>= f ≡ pass b
    → (a : A) × (m ≡ pass a) × (f a ≡ pass b)
unfolding ◌>>=◌
checked_inversion (pass a) f b h = (a, refl, h)
checked_inversion (fail e) f b h = cc

module _ (lib : GoLibrary) where
  abbrev engine_of : Config → List Rule × Dict String ℤ → RuleEngine
  engine_of cfg compiled = record {
    rules = compiled.0;
    default_result = default_result_of cfg.default_action;
    hash = "";
    judge = none;
    lookback = compiled.1;
  }

  -- A configuration that yields an engine passed the checks, and its rules compiled.
  pub new_rule_engine-inversion :
      (cfg : Config) (engine : RuleEngine)
      → new_rule_engine lib cfg ≡ pass engine
      → (compiled : List Rule × Dict String ℤ) × (check_rules lib cfg.rules [] ≡ pass tt)
        × (compile_rules lib cfg.rules [] ≡ pass compiled)
        × (engine ≡ engine_of cfg compiled)
  unfolding new_rule_engine
  new_rule_engine-inversion cfg engine h =
      let (u, _, h1) =
        checked_inversion (one_of "default_action" cfg.default_action ("allow" ∷ "deny" ∷ []))
          (λ x. check_rules lib cfg.rules [] >>= λ y. finish) engine h in
      let (v, p, h2) = checked_inversion (check_rules lib cfg.rules []) (λ y. finish) engine h1 in
      let (compiled, q, h3) =
        checked_inversion (compile_rules lib cfg.rules []) (λ z. pass (engine_of cfg z)) engine
          h2 in
      (compiled, p, q, cc)
    where
      finish : Checked RuleEngine
      finish = compile_rules lib cfg.rules [] >>= λ z. pass (engine_of cfg z)

fail_if-inversion : (b : Bool) (e : ConfigError) → fail_if b e ≡ pass tt → b ≡ false
unfolding fail_if
fail_if-inversion true e h = cc
fail_if-inversion false e h = refl

-- The value is one of those that are valid, or empty.
abbrev pub IsOneOf : List String → String → Type 0
IsOneOf valid value = (value == "" || contains valid value) ≡ true

one_of-inversion :
    (name value : String) (valid : List String)
    → one_of name value valid ≡ pass tt
    → IsOneOf valid value
unfolding one_of
one_of-inversion name value valid h =
    let q = fail_if-inversion (not (value == "" || contains valid value)) _ h in ground arith

one_or_other : (a b : Bool) → (not a && not b) ≡ false → (a || b) ≡ true
one_or_other true b h = refl
one_or_other false b h = ground arith

-- No identifier stands in the list twice.
abbrev pub AreDistinct : List String → Type 0
AreDistinct [] = Unit
AreDistinct (id ∷ ids) = (contains ids id ≡ false) × AreDistinct ids

first_failure-All :
    (checks : List (Checked (Unit {0})))
    → first_failure checks ≡ pass tt
    → All (λ m. m ≡ pass tt) checks
unfolding first_failure
first_failure-All [] h = tt
first_failure-All (m ∷ ms) h =
    let (u, p, q) = checked_inversion m (λ _. first_failure ms) tt h in (p, first_failure-All ms q)

module _ (lib : GoLibrary) where
  -- What the first loop of NewRuleEngine asks of a rule by itself.
  pub record IsValidRule (rule : Rule) : Type 0 where
    pub has_id : (rule.id == "") ≡ false
    pub has_decision : (rule.outcome.decision == "") ≡ false
    pub decision : IsOneOf known_decisions rule.outcome.decision
    pub fallback : IsOneOf final_decisions rule.outcome.judge.fallback
    pub on_exceed : IsOneOf ("deny" ∷ "require_approval" ∷ []) rule.outcome.budget.on_exceed
    pub judge : (is_no_judge rule.outcome.judge || rule.outcome.decision == "judge") ≡ true
    pub threshold :
        (lib.float_less rule.outcome.judge.threshold 0
          || lib.float_less float_one rule.outcome.judge.threshold)
        ≡ false

  check_rule-inversion :
      (seen : List String) (r : Rule)
      → check_rule lib seen r ≡ pass tt
      → IsValidRule r × (contains seen r.id ≡ false)
  unfolding check_rule
  check_rule-inversion seen r h =
      let (p0, (p1, (p2, (p3, (_, (_, (_, (p7, (p8, (p9, (p10, _))))))))))) =
        first_failure-All (checks_of lib seen r) h in
      (
        record {
          has_id = fail_if-inversion (r.id == "") _ p0;
          has_decision = fail_if-inversion (r.outcome.decision == "") _ p2;
          decision = one_of-inversion "decision" _ known_decisions p3;
          on_exceed = one_of-inversion "on_exceed" _ ("deny" ∷ "require_approval" ∷ []) p7;
          fallback = one_of-inversion "fallback" _ final_decisions p8;
          judge =
              one_or_other (is_no_judge r.outcome.judge) (r.outcome.decision == "judge")
                (fail_if-inversion _ (judge_without_decision r.outcome.decision) p9);
          threshold = fail_if-inversion _ threshold_outside p10;
        },
        fail_if-inversion (contains seen r.id) _ p1,
      )

  abbrev pub rule_id : Rule → String
  rule_id r = r.id

  -- What the first loop has seen is not an identifier of what follows.
  check_rules-inversion :
      (rules : List Rule) (seen : List String)
      → check_rules lib rules seen ≡ pass tt
      → All (λ r. IsValidRule r × (contains seen r.id ≡ false)) rules
        × AreDistinct (map rule_id rules)
  unfolding check_rules contains
  check_rules-inversion [] seen h = (tt, tt)
  check_rules-inversion (r ∷ rules) seen h =
      let (u, p, q) =
        checked_inversion (check_rule lib seen r) (λ _. check_rules lib rules (r.id ∷ seen)) tt h in
      let (valid, new) = check_rule-inversion seen r p in
      let (every, distinct) = check_rules-inversion rules (r.id ∷ seen) q in
      (((valid, new), All-weaken _ _ rules earlier every), (unseen rules every, distinct))
    where
      earlier :
          (x : Rule)
          → IsValidRule x × (contains (r.id ∷ seen) x.id ≡ false)
          → IsValidRule x × (contains seen x.id ≡ false)
      earlier x (valid, absent) = (valid, ground arith)

      unseen :
          (others : List Rule)
          → All (λ x. IsValidRule x × (contains (r.id ∷ seen) x.id ≡ false)) others
          → contains (map rule_id others) r.id ≡ false
      unseen [] every = refl
      unseen (x ∷ xs) ((valid, absent), every) =
          ground (arith, unseen xs every, string_eq.beq_iff x.id r.id, string_eq.beq_iff r.id x.id)

  -- The second loop changes no rule's identifier and no rule's outcome.
  abbrev Same : List Rule → List Rule × Dict String ℤ → Type 0
  Same rules compiled =
      (map rule_id compiled.0 ≡ map rule_id rules)
      × (All IsValidRule rules → All IsValidRule compiled.0)

  compile_rules-Same :
      (rules : List Rule) (lookback : Dict String ℤ) (compiled : List Rule × Dict String ℤ)
      → compile_rules lib rules lookback ≡ pass compiled
      → Same rules compiled
  unfolding compile_rules
  compile_rules-Same [] lookback compiled h =
      let e : ([], lookback) ≡ compiled = cc in subst (Same []) e (refl, λ valid. valid)
  compile_rules-Same (r ∷ rules) lookback compiled run =
      let (when, _, run1) =
        checked_inversion (compile_condition lib r.when false) after compiled run in
      let (clauses, _, run2) =
        checked_inversion (compile_clauses lib r.history lookback) (then_rules when) compiled
          run1 in
      let (rest, q, run3) =
        checked_inversion (compile_rules lib rules clauses.1) (done when clauses) compiled run2 in
      let (ids, valid) = compile_rules-Same rules clauses.1 rest q in
      let e : (record r { when = when; history = clauses.0 } ∷ rest.0, rest.1) ≡ compiled = cc in
      subst (Same (r ∷ rules)) e (
        ap (λ (l : List String). r.id ∷ l) ids,
        λ every. (same_valid when clauses.0 every.0, valid every.1),
      )
    where
      done :
          Condition
          → List HistoryClause × Dict String ℤ
          → List Rule × Dict String ℤ
          → Checked (List Rule × Dict String ℤ)
      done when clauses t = pass (record r { when = when; history = clauses.0 } ∷ t.0, t.1)

      then_rules :
          Condition → List HistoryClause × Dict String ℤ → Checked (List Rule × Dict String ℤ)
      then_rules when clauses = compile_rules lib rules clauses.1 >>= done when clauses

      after : Condition → Checked (List Rule × Dict String ℤ)
      after when = compile_clauses lib r.history lookback >>= then_rules when

      same_valid :
          (when : Condition) (history : List HistoryClause)
          → IsValidRule r
          → IsValidRule (record r { when = when; history = history })
      same_valid when history v = record {
        has_id = v.has_id;
        has_decision = v.has_decision;
        decision = v.decision;
        fallback = v.fallback;
        on_exceed = v.on_exceed;
        judge = v.judge;
        threshold = v.threshold;
      }

  -- Every rule of an engine that NewRuleEngine returns has an identifier and a known decision, sets a judge only to have the judge decide, has a threshold from 0 to 1 and known values of fallback and on_exceed; no identifier is there twice; and the identifiers are those of the configuration, in order.
  pub new_rule_engine-valid :
      (cfg : Config) (engine : RuleEngine)
      → new_rule_engine lib cfg ≡ pass engine
      → All IsValidRule engine.rules
        × AreDistinct (map rule_id engine.rules)
        × (map rule_id engine.rules ≡ map rule_id cfg.rules)
  new_rule_engine-valid cfg engine made =
      let (compiled, checked, run, made_of) = new_rule_engine-inversion lib cfg engine made in
      let (passed, distinct) = check_rules-inversion cfg.rules [] checked in
      let (ids, valid) = compile_rules-Same cfg.rules [] compiled run in
      let every = All-weaken _ IsValidRule cfg.rules (λ r both. both.0) passed in
      subst
        (λ (e : RuleEngine).
          All IsValidRule e.rules
          × AreDistinct (map rule_id e.rules)
          × (map rule_id e.rules ≡ map rule_id cfg.rules))
        (sym made_of) (valid every, subst AreDistinct (sym ids) distinct, ids)
