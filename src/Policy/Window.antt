-- ===== src/Policy/Window.antt =====
-- The windows that NewRuleEngine computes for the scopes of the history.
use rebuno.Prelude.{
  All, All-weaken, Bool, Bool-cases, List, Option, String, [], ap, arith, false, filter, inl, inr,
  ltb, ltb→lt, none, not, refl, some, string_eq, subst, sym, true, ℕ_eq, ◌-◌, ◌<◌, ◌==◌, ◌∙◌, ◌∷◌,
  ◌≡◌, ◌≤◌, ◌⊎◌,
}
use rebuno.Domain.Policy.{PolicyInput}
use rebuno.Domain.Records.{Step, Time}
use rebuno.Policy.{Condition, Config, GoLibrary, HistoryClause, Rule, RuleEngine, window, ℤ}
use rebuno.Policy.Build.{
  compile_clauses, compile_history_clause, compile_rules, new_rule_engine, widen, widened,
}
use rebuno.Policy.Clause.{Tally, counts, match_clause, outside_window, tally_steps}
use rebuno.Policy.Compile.{Checked, compile_condition, pass, ◌>>=◌}
use rebuno.Policy.Engine.{read_since}
use rebuno.Policy.Validated.{checked_inversion, new_rule_engine-inversion}
use rebuno.Prelude.Dict.{Dict, lookup, lookup-insert, lookup-insert_self}

-- The window of the scope of a clause reads the whole scope, or at least the clause's own window.
abbrev pub IsCovered : (lookback : Dict String ℤ) → HistoryClause → Type 0
IsCovered lookback c =
    (w : ℤ) × (lookup c.scope lookback ≡ some w)
    × ((window w ≡ 0) ⊎ ((0 < window c.within) × (window c.within ≤ window w)))

widen-IsCovered :
    (h c : HistoryClause) (lookback : Dict String ℤ)
    → IsCovered lookback c
    → IsCovered (widen h lookback) c
widen-IsCovered h c lookback (w, p, covered) =
    let q = lookup-insert h.scope c.scope (widened (lookup h.scope lookback) h.within) lookback in
    elim (Bool-cases (h.scope == c.scope)) [
      | inl same ↦
          let e : h.scope ≡ c.scope = (string_eq.beq_iff h.scope c.scope).0 same in
          let r : lookup h.scope lookback ≡ some w = rw e p in
          (widened (some w) h.within, ground arith, ground arith)
      | inr other ↦ (w, ground arith, covered)
    ]

own-IsCovered : (h : HistoryClause) (lookback : Dict String ℤ) → IsCovered (widen h lookback) h
own-IsCovered h lookback = (
  widened (lookup h.scope lookback) h.within,
  lookup-insert_self h.scope _ lookback,
  own (lookup h.scope lookback),
)
  where
    own :
        (old : Option ℤ)
        → (window (widened old h.within) ≡ 0)
          ⊎ ((0 < window h.within) × (window h.within ≤ window (widened old h.within)))
    own none = ground arith
    own (some prev) = ground arith

module _ (lib : GoLibrary) where
  -- The clauses that are compiled are covered, and so is what was covered before.
  abbrev Covers : Dict String ℤ → List HistoryClause × Dict String ℤ → Type 0
  Covers before compiled =
      All (IsCovered compiled.1) compiled.0
      × ((c : HistoryClause) → IsCovered before c → IsCovered compiled.1 c)

  compile_clauses-Covers :
      (hs : List HistoryClause) (lookback : Dict String ℤ)
      (compiled : List HistoryClause × Dict String ℤ)
      → compile_clauses lib hs lookback ≡ pass compiled
      → Covers lookback compiled
  unfolding compile_clauses
  compile_clauses-Covers [] lookback compiled h =
      let e : ([], lookback) ≡ compiled = cc in subst (Covers lookback) e (tt, λ c k. k)
  compile_clauses-Covers (h ∷ hs) lookback compiled run =
      let (own, _, run1) = checked_inversion (compile_history_clause lib h) after compiled run in
      let (rest, q, run2) =
        checked_inversion (compile_clauses lib hs (widen own lookback)) (λ r. pass (own ∷ r.0, r.1))
          compiled run1 in
      let (every, keeps) = compile_clauses-Covers hs (widen own lookback) rest q in
      let e : (own ∷ rest.0, rest.1) ≡ compiled = cc in
      subst (Covers lookback) e (
        (keeps own (own-IsCovered own lookback), every),
        λ c k. keeps c (widen-IsCovered own c lookback k),
      )
    where
      after : HistoryClause → Checked (List HistoryClause × Dict String ℤ)
      after c = compile_clauses lib hs (widen c lookback) >>= λ r. pass (c ∷ r.0, r.1)

  abbrev RulesCovered : Dict String ℤ → List Rule → Type 0
  RulesCovered lookback rules = All (λ r. All (IsCovered lookback) r.history) rules

  abbrev CoversRules : Dict String ℤ → List Rule × Dict String ℤ → Type 0
  CoversRules before compiled =
      RulesCovered compiled.1 compiled.0
      × ((c : HistoryClause) → IsCovered before c → IsCovered compiled.1 c)

  compile_rules-CoversRules :
      (rules : List Rule) (lookback : Dict String ℤ) (compiled : List Rule × Dict String ℤ)
      → compile_rules lib rules lookback ≡ pass compiled
      → CoversRules lookback compiled
  unfolding compile_rules
  compile_rules-CoversRules [] lookback compiled h =
      let e : ([], lookback) ≡ compiled = cc in subst (CoversRules lookback) e (tt, λ c k. k)
  compile_rules-CoversRules (r ∷ rules) lookback compiled run =
      let (when, _, run1) =
        checked_inversion (compile_condition lib r.when false) after compiled run in
      let (clauses, p, run2) =
        checked_inversion (compile_clauses lib r.history lookback) (then_rules when) compiled
          run1 in
      let (rest, q, run3) =
        checked_inversion (compile_rules lib rules clauses.1)
          (λ t. pass (record r { when = when; history = clauses.0 } ∷ t.0, t.1)) compiled run2 in
      let (own, earlier) = compile_clauses-Covers r.history lookback clauses p in
      let (every, keeps) = compile_rules-CoversRules rules clauses.1 rest q in
      let e : (record r { when = when; history = clauses.0 } ∷ rest.0, rest.1) ≡ compiled = cc in
      subst (CoversRules lookback) e (
        (All-weaken (IsCovered clauses.1) (IsCovered rest.1) clauses.0 keeps own, every),
        λ c k. keeps c (earlier c k),
      )
    where
      then_rules :
          Condition → List HistoryClause × Dict String ℤ → Checked (List Rule × Dict String ℤ)
      then_rules when clauses = compile_rules lib rules clauses.1 >>= λ t.
          pass (record r { when = when; history = clauses.0 } ∷ t.0, t.1)

      after : Condition → Checked (List Rule × Dict String ℤ)
      after when = compile_clauses lib r.history lookback >>= then_rules when

  new_rule_engine-RulesCovered :
      (cfg : Config) (engine : RuleEngine)
      → new_rule_engine lib cfg ≡ pass engine
      → RulesCovered engine.lookback engine.rules
  new_rule_engine-RulesCovered cfg engine made =
      let (compiled, _, run, made_of) = new_rule_engine-inversion lib cfg engine made in
      let (every, _) = compile_rules-CoversRules cfg.rules [] compiled run in
      subst (λ (e : RuleEngine). RulesCovered e.lookback e.rules) (sym made_of) every

  abbrev pub not_before : Time → Step → Bool
  not_before since s = elim s.started_at [ none ↦ false | some t ↦ not (ltb t since) ]

  abbrev IsStarted : Step → Type 0
  IsStarted s = (t : Time) × (s.started_at ≡ some t)

  module _ (c : HistoryClause) (input : PolicyInput) (since : Time) where
    abbrev IsEarly : Type 0
    IsEarly = (since ≡ 0) ⊎ ((0 < window c.within) × (since ≤ input.now - window c.within))

    -- A step that is not read is outside the window of the clause.
    dropped-counts :
        (s : Step)
        → IsEarly
        → IsStarted s
        → not_before since s ≡ false
        → counts lib c input s ≡ false
    dropped-counts s early (t, p) dropped =
        let q : ltb t since ≡ true = ground arith in
        let lt : t < since = ltb→lt t since q in
        let r : outside_window c.within input.now s.started_at ≡ true = ground arith in ground arith

    tally_steps-narrowed :
        (steps : List Step) (tally : Option Tally)
        → IsEarly
        → All IsStarted steps
        → tally_steps lib c input (filter (not_before since) steps) tally
          ≡ tally_steps lib c input steps tally
    unfolding tally_steps filter
    tally_steps-narrowed [] tally early started = refl
    tally_steps-narrowed (s ∷ rest) tally early started = elim (Bool-cases (not_before since s)) [
      | inl kept ↦ rw kept (tally_steps-narrowed rest _ early started.1)
      | inr dropped ↦ rw dropped (
          rw (dropped-counts s early started.0 dropped) (
            tally_steps-narrowed rest tally early started.1
            ∙ ap (tally_steps lib c input rest) (unchanged tally)))
    ]
      where
        unchanged :
            (given : Option Tally) → given ≡ elim given [ none ↦ none | some seen ↦ some seen ]
        unchanged none = refl
        unchanged (some seen) = refl

  -- The narrowing of the reads changes no decision: for every history clause of every rule of an engine that NewRuleEngine made, matchClause says the same of the steps that started at or after the time from which the engine reads the clause's scope as of all the steps, where every step has started.
  pub narrowed_history-same :
      (cfg : Config) (engine : RuleEngine) (input : PolicyInput) (steps : List Step)
      → new_rule_engine lib cfg ≡ pass engine
      → All IsStarted steps
      → All
          (λ rule.
            All
              (λ c.
                match_clause lib c input
                  (filter (not_before (read_since engine input c.scope)) steps)
                ≡ match_clause lib c input steps)
              rule.history)
          engine.rules
  unfolding match_clause
  narrowed_history-same cfg engine input steps made started =
      All-weaken _ _ engine.rules (λ rule covered. All-weaken _ _ rule.history same covered)
        (new_rule_engine-RulesCovered cfg engine made)
    where
      reads_early :
          (c : HistoryClause)
          → IsCovered engine.lookback c
          → IsEarly c input (read_since engine input c.scope)
      reads_early c (w, p, covered) = ground arith

      same :
          (c : HistoryClause)
          → IsCovered engine.lookback c
          → match_clause lib c input (filter (not_before (read_since engine input c.scope)) steps)
            ≡ match_clause lib c input steps
      same c covered = rw (
          tally_steps-narrowed c input (read_since engine input c.scope) steps _
            (reads_early c covered) started)
