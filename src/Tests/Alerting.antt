-- ===== src/Tests/Alerting.antt =====
-- Tests of the rules, the anomaly windows and the incidents.
use telemetry_backend.Prelude.{
  ℕ, ◌+◌, ◌≡◌, refl, String, false, none, some, List, [], ◌∷◌, string_eq, pair_eq, length, is_none,
  map, All, arith, ◌≢◌, ==_iff,
}
use telemetry_backend.Prelude.Dict
use telemetry_backend.Model.{Alert, Severity, metrics}
use telemetry_backend.Rules.{evaluate}
use telemetry_backend.Rules.Conservation.{open_alerts, evaluate_balance}
use telemetry_backend.Rules.Alternation.{
  Sample, Alternates, Spaced, history, history-Alternates, history-Spaced,
}
use telemetry_backend.Rules.Isolation.{get-evaluate_other}
use telemetry_backend.Anomalies.{update}
use telemetry_backend.Anomalies.Windows.{Bounded, update-Bounded}
use telemetry_backend.Incidents.{
  IncidentEngine, IncidentState, init, opened, on_alert_created, on_alert_resolved,
}
use telemetry_backend.Incidents.Links.{Inv}
use telemetry_backend.Incidents.Lifecycle.{IsSettled}
use telemetry_backend.Incidents.Storage.{Incident, Database, restored, hydrate}
use telemetry_backend.Incidents.History.{
  Reach, here, next, alert_created, alert_resolved, Reach-Inv,
}
use telemetry_backend.Incidents.Escalation.{Takes, on_alert_created-Takes}
use telemetry_backend.Incidents.Storage.{linked, hydrate_rows}
use telemetry_backend.Persistence.Alerts.{AlertRecord}
use telemetry_backend.Tests.Samples.{
  whole, ids, counters, hot, hot_rule, open_state, rule_engine, detector, alert_at, first_alert,
}

abbrev samples : List (Sample ℕ)
samples = (100, 95, "a") ∷ (110, 20, "b") ∷ (120, 95, "c") ∷ (170, 96, "d") ∷ (180, 10, "e") ∷ []

evaluate_balance_example :
    (open_alerts (evaluate ids hot 0 rule_engine).engine.states
        + (evaluate ids hot 0 rule_engine).engine.resolutions
        + rule_engine.fires
      ≡ open_alerts rule_engine.states
        + rule_engine.resolutions
        + (evaluate ids hot 0 rule_engine).engine.fires)
    × (length (evaluate ids hot 0 rule_engine).transitions
          + rule_engine.fires
          + rule_engine.resolutions
        ≡ (evaluate ids hot 0 rule_engine).engine.fires
          + (evaluate ids hot 0 rule_engine).engine.resolutions)
evaluate_balance_example = evaluate_balance ids hot 0 rule_engine

history-Alternates_example :
    Alternates (is_none open_state.active_alert_id) (history hot_rule open_state samples)
history-Alternates_example = history-Alternates hot_rule open_state samples

history-Spaced_example :
    Spaced hot_rule open_state.last_fired_at (history hot_rule open_state samples)
history-Spaced_example = history-Spaced hot_rule open_state samples

abbrev other_host : String
other_host = "db-1"

elsewhere : other_host ≢ "web-1"
elsewhere e = absurd (ground (arith, (==_iff other_host "web-1").1 e))

get-evaluate_other_example :
    Dict.get ("cpu-high", other_host) (evaluate ids hot 0 rule_engine).engine.states
    ≡ Dict.get ("cpu-high", other_host) rule_engine.states
get-evaluate_other_example =
    get-evaluate_other ids hot 0 rule_engine "cpu-high" other_host elsewhere

detector-Bounded : Bounded 3 detector
detector-Bounded = (omega arith, (omega arith, tt))

update-Bounded_example :
    Bounded detector.window_size (update hot detector).0
    × (map (λ r. r.metric) (update hot detector).1 ≡ metrics)
update-Bounded_example = update-Bounded hot detector detector-Bounded

abbrev one_incident : IncidentEngine
one_incident = (on_alert_created ids first_alert 0 (init none) counters).engine

abbrev severe_alert : Alert ℕ
severe_alert = alert_at "alert-2" 60 Severity.critical

abbrev open_row : Incident
open_row = record {
  id = "id";
  host_id = some "web-1";
  service_id = none;
  title = "CPU";
  status = opened;
  severity = Severity.warning;
  first_seen_at = 100;
  last_seen_at = 100;
  resolved_at = none;
  created_at = 100;
  updated_at = 100;
}

abbrev alert_row : AlertRecord ℕ
alert_row = record {
  id = "alert-1";
  host_id = some "web-1";
  service_id = none;
  metric = "cpu";
  value = 95;
  baseline = 90;
  severity = Severity.warning;
  message = "CPU";
  status = "active";
  acknowledged = false;
  source = "rule";
  rule_id = some "cpu-high";
  timestamp = 100;
  resolved_at = none;
}

abbrev stored_incident : Database ℕ
stored_incident = record {
  incidents = ("id", open_row) ∷ [];
  incident_alerts = record { incident_id = "id"; alert_id = "alert-1"; added_at = 100 } ∷ [];
  alert_records = ("alert-1", alert_row) ∷ [];
}

rows_agree : All (λ row. IsSettled (restored stored_incident row)) (open_row ∷ [])
unfolding restored linked
rows_agree = ((refl, refl), tt)

abbrev start_engine : IncidentEngine
start_engine = hydrate (λ rows. rows) stored_incident (init none)

unused_id : Dict.get (ids 1) start_engine.incidents ≡ none
unfolding hydrate hydrate_rows Dict.get Dict.put
unused_id = refl

reached :
    Reach ℕ start_engine
      (on_alert_resolved first_alert 1
        (on_alert_created ids severe_alert 1 start_engine counters).engine
        counters).engine
reached =
    next (next here (alert_created ids 1 severe_alert counters unused_id))
      (alert_resolved 1 first_alert counters)

Reach-Inv_example :
    Inv
      (on_alert_resolved first_alert 1
        (on_alert_created ids severe_alert 1 start_engine counters).engine
        counters).engine
Reach-Inv_example = Reach-Inv none (λ rows. rows) stored_incident rows_agree reached

on_alert_created-Takes_example :
    (i : IncidentState) × ((on_alert_created ids severe_alert 1 one_incident counters).incident
      ≡ some i)
    × Takes severe_alert i
    × (Dict.get i.id (on_alert_created ids severe_alert 1 one_incident counters).engine.incidents
        ≡ some i)
    × (Dict.get severe_alert.id
          (on_alert_created ids severe_alert 1 one_incident counters).engine.alert_to_incident
        ≡ some i.id)
on_alert_created-Takes_example = on_alert_created-Takes severe_alert ids 1 one_incident counters
