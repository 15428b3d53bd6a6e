-- ===== src/Rules.antt =====
-- app/services/alert_rule_engine.py: threshold rules with a sustained duration, a cooldown and one
-- open alert for each rule and host. `uuid n` is the n-th identifier that `uuid4().hex` returns, and
-- `drawn` counts the identifiers drawn so far; locks are not modelled (each method holds its lock).
pub mod Conservation
pub mod Isolation
pub mod Alternation
pub mod Hydration
use telemetry_backend.Prelude.{
  ℕ, ◌+◌, String, Bool, true, false, ◌&&◌, Option, none, some, List, [], ◌∷◌, ◌++◌, ◌==◌,
  if◌then◌else◌, or_text, is_none, concat, not, keep, string_eq, pair_eq,
}
use telemetry_backend.Prelude.Dict
use telemetry_backend.Prelude.Dict.{Dict}
use telemetry_backend.Prelude.Float.{Float}
use telemetry_backend.Model.{
  Severity, Metric, metric_name, metric_of, metric_value, TelemetryEvent, Alert,
}

-- a row of the table `alert_rules`
pub record AlertRule (F : Type 0) : Type 0 where
  pub id : String
  pub name : String
  pub metric : String
  pub operator : String
  pub threshold : F
  pub duration_seconds : F
  pub cooldown_seconds : F
  pub severity : Severity
  pub enabled : Bool

-- the entries of `_rules`: the metric is known
pub record Rule (F : Type 0) : Type 0 where
  pub id : String
  pub name : String
  pub metric : Metric
  pub operator : String
  pub threshold : F
  pub duration_seconds : F
  pub cooldown_seconds : F
  pub severity : Severity
  pub enabled : Bool

pub record RuleState : Type 0 where
  pub condition_since : Option ℕ
  pub last_fired_at : Option ℕ
  pub active_alert_id : Option String

abbrev pub idle : RuleState
idle = record { condition_since = none; last_fired_at = none; active_alert_id = none }

pub data Action : Type 0 where
  created resolved : Action

pub record RuleTransition (F : Type 0) : Type 0 where
  pub alert : Alert F
  pub action : Action

abbrev pub StateKey : Type 0
StateKey = String × String

pub record AlertRuleEngine (F : Type 0) : Type 0 where
  pub rules : Dict String (Rule F)
  pub states : Dict StateKey RuleState
  pub evaluations : ℕ
  pub fires : ℕ
  pub resolutions : ℕ

abbrev pub init : {F : Type 0} → AlertRuleEngine F
init = record { rules = []; states = []; evaluations = 0; fires = 0; resolutions = 0 }

-- the dict literal of `load_rules` and `upsert_rule`
unfoldable pub rule_of_row : {F : Type 0} → AlertRule F → Metric → Rule F
rule_of_row r m = record {
  id = r.id;
  name = r.name;
  metric = m;
  operator = r.operator;
  threshold = r.threshold;
  duration_seconds = r.duration_seconds;
  cooldown_seconds = r.cooldown_seconds;
  severity = r.severity;
  enabled = r.enabled;
}

-- the dict comprehension of `load_rules`: a row with an unknown metric is left out
unfoldable pub rules_of_rows :
    {F : Type 0} → Dict String (Rule F) → List (AlertRule F) → Dict String (Rule F)
rules_of_rows acc [] = acc
rules_of_rows acc (r ∷ rows) =
    rules_of_rows
      (elim (metric_of r.metric) [ none ↦ acc | some m ↦ Dict.put r.id (rule_of_row r m) acc ]) rows

abbrev pub has_rule : {F : Type 0} → Dict String (Rule F) → StateKey → Bool
has_rule rules k = not (is_none (Dict.get k.0 rules))

unfoldable pub load_rules :
    {F : Type 0} → List (AlertRule F) → AlertRuleEngine F → AlertRuleEngine F
unfolding rules_of_rows
load_rules rows e =
    let rules = rules_of_rows [] rows in
    record e { rules = rules; states = Dict.keep_keys (has_rule rules) e.states }

abbrev pub hydrated : {F : Type 0} → Alert F → RuleState
hydrated a = record {
  condition_since = some a.timestamp;
  last_fired_at = some a.timestamp;
  active_alert_id = some a.id;
}

unfoldable hydrate_one : {F : Type 0} → Alert F → AlertRuleEngine F → AlertRuleEngine F
hydrate_one a e =
    let rule_id = or_text a.rule_id "" in
    if (a.source == "rule") && not (rule_id == "")
    then record e { states = Dict.put (rule_id, or_text a.host_id "system") (hydrated a) e.states }
    else e

unfoldable pub hydrate_active_alerts :
    {F : Type 0} → List (Alert F) → AlertRuleEngine F → AlertRuleEngine F
unfolding hydrate_one
hydrate_active_alerts [] e = e
hydrate_active_alerts (a ∷ alerts) e = hydrate_active_alerts alerts (hydrate_one a e)

-- the rule's metric is one of the seven: `AlertRuleCreate` admits no other
unfoldable pub upsert_rule :
    {F : Type 0} → AlertRule F → Metric → AlertRuleEngine F → AlertRuleEngine F
upsert_rule r m e = record e {
  rules = Dict.put r.id (rule_of_row r m) e.rules;
  states = Dict.keep_keys (λ k. not (k.0 == r.id)) e.states;
}

unfoldable pub remove_rule : {F : Type 0} → String → AlertRuleEngine F → AlertRuleEngine F
remove_rule rule_id e = record e {
  rules = Dict.remove rule_id e.rules;
  states = Dict.keep_keys (λ k. not (k.0 == rule_id)) e.states;
}

unfoldable pub reset : {F : Type 0} → AlertRuleEngine F → AlertRuleEngine F
reset e = record e { states = [] }

abbrev since_or : ℕ → Option ℕ → ℕ
since_or now none = now
since_or now (some since) = since

-- the branch `else`: an open alert is resolved
unfoldable pub while_normal : RuleState → RuleState × Option Action
while_normal s =
    let normal : RuleState = record s { condition_since = none } in
    elim s.active_alert_id [
      | none ↦ (normal, none)
      | some _ ↦ (record normal { active_alert_id = none }, some resolved)
    ]

-- the engine, the identifiers drawn and the transitions so far
pub record Round (F : Type 0) : Type 0 where
  pub engine : AlertRuleEngine F
  pub drawn : ℕ
  pub transitions : List (RuleTransition F)

-- states.setdefault(key, RuleState())
abbrev pub state_at : StateKey → Dict StateKey RuleState → RuleState
state_at k d = elim (Dict.get k d) [ none ↦ idle | some s ↦ s ]

abbrev pub host_key : {F : Type 0} → TelemetryEvent F → String
host_key event = or_text event.host_id "system"

module _ {F : Type 0} ⦃fl : Float F⦄ where
  -- `_matches`: an unknown operator never matches
  unfoldable pub matches : F → String → F → Bool
  matches value operator threshold =
      if operator == ">"
      then fl.lt threshold value
      else if operator == ">="
      then fl.le threshold value
      else if operator == "<"
      then fl.lt value threshold
      else if operator == "<="
      then fl.le value threshold
      else false

  cooldown_met : Rule F → ℕ → Option ℕ → Bool
  cooldown_met rule now none = true
  cooldown_met rule now (some fired) = fl.le rule.cooldown_seconds (fl.elapsed now fired)

  -- the branch `if condition_met`: the new state, and whether an alert is created
  unfoldable pub while_met : Rule F → ℕ → String → RuleState → RuleState × Option Action
  unfolding cooldown_met
  while_met rule now alert_id s =
      let since = since_or now s.condition_since in
      let waiting : RuleState = record s { condition_since = some since } in
      let duration_met = fl.le rule.duration_seconds (fl.elapsed now since) in
      if is_none s.active_alert_id && (duration_met && cooldown_met rule now s.last_fired_at)
      then (
        record waiting { active_alert_id = some alert_id; last_fired_at = some now },
        some created,
      )
      else (waiting, none)

  -- what one event does to the state of one rule and host
  unfoldable pub observe : Rule F → ℕ → F → String → RuleState → RuleState × Option Action
  unfolding while_met while_normal
  observe rule now value alert_id s =
      if matches value rule.operator rule.threshold
      then while_met rule now alert_id s
      else while_normal s

  created_alert : Rule F → TelemetryEvent F → String → Alert F
  created_alert rule event alert_id =
      let value = metric_value event rule.metric in
      record {
        id = alert_id;
        timestamp = event.timestamp;
        metric = metric_name rule.metric;
        value = value;
        baseline = rule.threshold;
        severity = rule.severity;
        message = concat (
            rule.name
            ∷ ": "
            ∷ metric_name rule.metric
            ∷ " "
            ∷ rule.operator
            ∷ " "
            ∷ fl.text rule.threshold
            ∷ " (observed "
            ∷ fl.text2 value
            ∷ ")"
            ∷ []);
        resolved = false;
        resolved_at = none;
        acknowledged = false;
        host_id = event.host_id;
        service_id = none;
        source = "rule";
        rule_id = some rule.id;
        incident_id = none;
      }

  resolved_alert : Rule F → TelemetryEvent F → String → Alert F
  unfolding created_alert
  resolved_alert rule event alert_id =
      let base = created_alert rule event alert_id in
      let value = metric_value event rule.metric in
      record base {
        message = concat (
            rule.name
            ∷ ": "
            ∷ metric_name rule.metric
            ∷ " returned to normal (observed "
            ∷ fl.text2 value
            ∷ ")"
            ∷ []);
        resolved = true;
        resolved_at = some event.timestamp;
      }

  -- the state is written back, and the alert of the transition is recorded
  unfoldable pub record_transition :
      (ℕ → String)
      → Rule F
      → TelemetryEvent F
      → RuleState
      → Option Action
      → RuleState
      → Round F
      → Round F
  unfolding created_alert resolved_alert
  record_transition uuid rule event old none s r = record r {
    engine = record (r.engine) {
      states = Dict.put (rule.id, host_key event) s r.engine.states;
      evaluations = r.engine.evaluations + 1;
    };
  }
  record_transition uuid rule event old (some created) s r = record {
    engine = record (r.engine) {
      states = Dict.put (rule.id, host_key event) s r.engine.states;
      evaluations = r.engine.evaluations + 1;
      fires = r.engine.fires + 1;
    };
    drawn = r.drawn + 1;
    transitions =
        r.transitions
        ++ (record { alert = created_alert rule event (uuid r.drawn); action = created }) ∷ [];
  }
  record_transition uuid rule event old (some resolved) s r = record r {
    engine = record (r.engine) {
      states = Dict.put (rule.id, host_key event) s r.engine.states;
      evaluations = r.engine.evaluations + 1;
      resolutions = r.engine.resolutions + 1;
    };
    transitions =
        r.transitions
        ++ (record {
          alert = resolved_alert rule event (or_text old.active_alert_id "");
          action = resolved;
        })
          ∷ [];
  }

  -- the body of the loop of `evaluate`
  unfoldable pub evaluate_rule : (ℕ → String) → TelemetryEvent F → Rule F → Round F → Round F
  evaluate_rule uuid event rule r =
      if not rule.enabled
      then r
      else let old = state_at (rule.id, host_key event) r.engine.states in
        let (s, action) =
          observe rule event.timestamp (metric_value event rule.metric) (uuid r.drawn) old in
        record_transition uuid rule event old action s r

  unfoldable pub evaluate_all : (ℕ → String) → TelemetryEvent F → List (Rule F) → Round F → Round F
  evaluate_all uuid event [] r = r
  evaluate_all uuid event (rule ∷ rules) r =
      evaluate_all uuid event rules (evaluate_rule uuid event rule r)

  unfoldable pub evaluate : (ℕ → String) → TelemetryEvent F → ℕ → AlertRuleEngine F → Round F
  evaluate uuid event drawn e =
      evaluate_all uuid event (Dict.values e.rules)
        (record { engine = e; drawn = drawn; transitions = [] })
