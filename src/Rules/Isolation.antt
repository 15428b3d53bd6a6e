-- ===== src/Rules/Isolation.antt =====
-- What `evaluate` and `load_rules` leave alone, and what they may not keep.
use telemetry_backend.Prelude.{
  ℕ, ◌≡◌, ◌≢◌, refl, String, Bool, Option, none, some, List, [], ◌∷◌, arith, string_eq, pair_eq,
  ==_iff, if◌then◌else◌, not, is_none, if_both, ◌∙◌,
}
use telemetry_backend.Prelude.Dict
use telemetry_backend.Prelude.Dict.{Dict}
use telemetry_backend.Prelude.Float.{Float}
use telemetry_backend.Model.{TelemetryEvent}
use telemetry_backend.Rules.{
  RuleState, Action, AlertRule, Rule, AlertRuleEngine, StateKey, Round, host_key, record_transition,
  evaluate_rule, evaluate_all, evaluate, load_rules, has_rule,
}

get-keep_keys :
    (p : StateKey → Bool) (k : StateKey) (d : Dict StateKey RuleState)
    → Dict.get k (Dict.keep_keys p d) ≡ (if p k then Dict.get k d else none)
unfolding Dict.get Dict.keep_keys
get-keep_keys p k [] = ground arith
get-keep_keys p k ((j, s) ∷ d) = ground (arith, get-keep_keys p k d, ==_iff j k)

-- After `load_rules`, a state is kept unchanged exactly if its rule is still among the rules that
-- were loaded; every other state is gone, so a deleted rule leaves nothing behind.
pub get-load_rules :
    {F : Type 0} (rows : List (AlertRule F)) (e : AlertRuleEngine F) (rule_id host : String)
    → Dict.get (rule_id, host) (load_rules rows e).states ≡ (
        if is_none (Dict.get rule_id (load_rules rows e).rules)
        then none
        else Dict.get (rule_id, host) e.states)
unfolding load_rules
get-load_rules rows e rule_id host =
    ground (arith, get-keep_keys (has_rule (load_rules rows e).rules) (rule_id, host) e.states)

module _ {F : Type 0} ⦃fl : Float F⦄ where
  module _ (uuid : ℕ → String) (event : TelemetryEvent F) (k : StateKey)
      (other : k.1 ≢ host_key event) where
    abbrev Same : Round F → Round F → Type 0
    Same r r' = Dict.get k r'.engine.states ≡ Dict.get k r.engine.states

    get-put_other :
        (rule_id : String) (s : RuleState) (d : Dict StateKey RuleState)
        → Dict.get k (Dict.put (rule_id, host_key event) s d) ≡ Dict.get k d
    get-put_other rule_id s d = ground (
      arith,
      Dict.get-put (rule_id, host_key event) k s d,
      ==_iff rule_id k.0,
      ==_iff (host_key event) k.1,
    )

    record_transition-Same :
        (rule : Rule F) (old : RuleState) (a : Option Action) (s : RuleState) (r : Round F)
        → Same r (record_transition uuid rule event old a s r)
    unfolding record_transition
    record_transition-Same rule old none s r = get-put_other rule.id s r.engine.states
    record_transition-Same rule old (some Action.created) s r =
        get-put_other rule.id s r.engine.states
    record_transition-Same rule old (some Action.resolved) s r =
        get-put_other rule.id s r.engine.states

    evaluate_rule-Same : (rule : Rule F) (r : Round F) → Same r (evaluate_rule uuid event rule r)
    unfolding evaluate_rule
    evaluate_rule-Same rule r =
        if_both (Same r) (not rule.enabled) r _ (λ _. refl)
          (λ _. record_transition-Same rule _ _ _ r)

    evaluate_all-Same :
        (rules : List (Rule F)) (r : Round F) → Same r (evaluate_all uuid event rules r)
    unfolding evaluate_all
    evaluate_all-Same [] r = refl
    evaluate_all-Same (rule ∷ rules) r =
        evaluate_all-Same rules (evaluate_rule uuid event rule r) ∙ evaluate_rule-Same rule r

  -- An event of one host changes no rule state of another host: neither its pending duration, nor its
  -- cooldown, nor its open alert.
  pub get-evaluate_other :
      (uuid : ℕ → String) (event : TelemetryEvent F) (drawn : ℕ) (e : AlertRuleEngine F)
      (rule_id host : String)
      → host ≢ host_key event
      → Dict.get (rule_id, host) (evaluate uuid event drawn e).engine.states
        ≡ Dict.get (rule_id, host) e.states
  unfolding evaluate
  get-evaluate_other uuid event drawn e rule_id host other =
      evaluate_all-Same uuid event (rule_id, host) other (Dict.values e.rules)
        (record { engine = e; drawn = drawn; transitions = [] })
