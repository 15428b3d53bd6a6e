-- ===== src/Rules/Conservation.antt =====
-- The counters `fires` and `resolutions` of `evaluate` against the alerts that are open and the
-- transitions that are returned.
use telemetry_backend.Prelude.{
  ℕ, ◌+◌, ◌≡◌, refl, String, Option, none, some, List, [], ◌∷◌, arith, length, length-append,
  string_eq, pair_eq, not, if_both,
}
use telemetry_backend.Prelude.Dict
use telemetry_backend.Prelude.Dict.{Dict}
use telemetry_backend.Prelude.Float.{Float}
use telemetry_backend.Model.{TelemetryEvent, metric_value}
use telemetry_backend.Rules.{
  RuleState, Action, Rule, AlertRuleEngine, StateKey, Round, observe, state_at, record_transition,
  evaluate_rule, evaluate_all, evaluate, host_key,
}

abbrev is_open : RuleState → ℕ
is_open s = elim s.active_alert_id [ none ↦ 0 | some _ ↦ 1 ]

-- the number of states with an open alert
abbrev pub open_alerts : Dict StateKey RuleState → ℕ
open_alerts [] = 0
open_alerts ((k, s) ∷ d) = is_open s + open_alerts d

open_alerts-put :
    (k : StateKey) (s : RuleState) (d : Dict StateKey RuleState)
    → open_alerts (Dict.put k s d) + is_open (state_at k d) ≡ open_alerts d + is_open s
unfolding Dict.put Dict.get
open_alerts-put k s [] = omega arith
open_alerts-put k s ((j, t) ∷ d) = ground (arith, open_alerts-put k s d)

abbrev created_by : Option Action → ℕ
created_by none = 0
created_by (some Action.created) = 1
created_by (some Action.resolved) = 0

abbrev resolved_by : Option Action → ℕ
resolved_by none = 0
resolved_by (some Action.created) = 0
resolved_by (some Action.resolved) = 1

module _ {F : Type 0} ⦃fl : Float F⦄ where
  observe-is_open :
      (rule : Rule F) (now : ℕ) (value : F) (alert_id : String) (s : RuleState)
      → is_open (observe rule now value alert_id s).0
          + resolved_by (observe rule now value alert_id s).1
        ≡ is_open s + created_by (observe rule now value alert_id s).1
  unfolding observe
  observe-is_open rule now value alert_id s = ground arith

  -- what a round may change: alerts open, counters and transitions go together
  pub record Balance (r r' : Round F) : Type 0 where
    pub opened :
        open_alerts r'.engine.states + r'.engine.resolutions + r.engine.fires
        ≡ open_alerts r.engine.states + r.engine.resolutions + r'.engine.fires
    pub reported :
        length r'.transitions + r.engine.fires + r.engine.resolutions
        ≡ length r.transitions + r'.engine.fires + r'.engine.resolutions

  record_transition-Balance :
      (uuid : ℕ → String) (rule : Rule F) (event : TelemetryEvent F) (old : RuleState)
      (action : Option Action) (s : RuleState) (r : Round F)
      → is_open s + resolved_by action
        ≡ is_open (state_at (rule.id, host_key event) r.engine.states) + created_by action
      → Balance r (record_transition uuid rule event old action s r)
  unfolding record_transition
  record_transition-Balance uuid rule event old none s r h = record {
    opened = omega (arith, open_alerts-put (rule.id, host_key event) s r.engine.states);
    reported = omega arith;
  }
  record_transition-Balance uuid rule event old (some Action.created) s r h = record {
    opened = omega (arith, open_alerts-put (rule.id, host_key event) s r.engine.states);
    reported = omega (arith, length-append {0});
  }
  record_transition-Balance uuid rule event old (some Action.resolved) s r h = record {
    opened = omega (arith, open_alerts-put (rule.id, host_key event) s r.engine.states);
    reported = omega (arith, length-append {0});
  }

  evaluate_rule-Balance :
      (uuid : ℕ → String) (event : TelemetryEvent F) (rule : Rule F) (r : Round F)
      → Balance r (evaluate_rule uuid event rule r)
  unfolding evaluate_rule
  evaluate_rule-Balance uuid event rule r =
      if_both (Balance r) (not rule.enabled) r _ (λ off. record { opened = refl; reported = refl })
        (λ on.
          record_transition-Balance uuid rule event
            (state_at (rule.id, host_key event) r.engine.states) _ _ r
            (observe-is_open rule event.timestamp (metric_value event rule.metric) (uuid r.drawn)
              (state_at (rule.id, host_key event) r.engine.states)))

  evaluate_all-Balance :
      (uuid : ℕ → String) (event : TelemetryEvent F) (rules : List (Rule F)) (r : Round F)
      → Balance r (evaluate_all uuid event rules r)
  unfolding evaluate_all
  evaluate_all-Balance uuid event [] r = record { opened = refl; reported = refl }
  evaluate_all-Balance uuid event (rule ∷ rules) r =
      let now = evaluate_rule-Balance uuid event rule r in
      let later = evaluate_all-Balance uuid event rules (evaluate_rule uuid event rule r) in
      record {
        opened = omega (arith, now.opened, later.opened);
        reported = omega (arith, now.reported, later.reported);
      }

  -- After `evaluate` on any event, the alerts that were opened (the rise of `fires`) less those that
  -- were resolved (the rise of `resolutions`) are the change in the number of rule states with an
  -- open alert, and each of them is one returned transition.
  pub evaluate_balance :
      (uuid : ℕ → String) (event : TelemetryEvent F) (drawn : ℕ) (e : AlertRuleEngine F)
      → (open_alerts (evaluate uuid event drawn e).engine.states
            + (evaluate uuid event drawn e).engine.resolutions
            + e.fires
          ≡ open_alerts e.states + e.resolutions + (evaluate uuid event drawn e).engine.fires)
        × (length (evaluate uuid event drawn e).transitions + e.fires + e.resolutions
            ≡ (evaluate uuid event drawn e).engine.fires
              + (evaluate uuid event drawn e).engine.resolutions)
  unfolding evaluate
  evaluate_balance uuid event drawn e =
      let b =
        evaluate_all-Balance uuid event (Dict.values e.rules)
          (record { engine = e; drawn = drawn; transitions = [] }) in
      (b.opened, omega (arith, b.reported))
