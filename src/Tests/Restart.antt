-- ===== src/Tests/Restart.antt =====
-- Tests of the restart: what is written to the database, and what a new process restores.
use telemetry_backend.Prelude.{
  ℕ, ◌≡◌, ◌≢◌, ◌↔◌, refl, String, true, false, ◌||◌, Option, none, some, List, [], ◌∷◌, string_eq,
  pair_eq, option_eq, ◌==◌, ==_iff, elem, All, arith,
}
use telemetry_backend.Prelude.Dict
use telemetry_backend.Prelude.Dict.{Dict}
use telemetry_backend.Model.{Severity}
use telemetry_backend.Rules.{hydrated}
use telemetry_backend.Rules.Hydration.{state_key}
use telemetry_backend.Persistence.{Worker}
use telemetry_backend.Persistence.Alerts.{AlertRecord}
use telemetry_backend.Incidents
use telemetry_backend.Incidents.{IncidentState, IncidentEngine, IncidentPersistenceEvent, Status}
use telemetry_backend.Incidents.Evidence.{highest, highest-critical}
use telemetry_backend.Incidents.Storage.{
  Incident, IncidentAlert, Database, persist, hydrate, linked, has_link, active_among,
}
use telemetry_backend.Incidents.Storage.Restore.{hydrate-persist}
use telemetry_backend.Incidents.Storage.Blocked.{
  Writer, Step, enqueued, passed, next_item, run, missing_alert_blocks,
}
use telemetry_backend.Runtime.{Runtime}
use telemetry_backend.Runtime.Events.{rule_key}
use telemetry_backend.Runtime.Synthetic.{
  SyntheticCheck, SyntheticCheckRun, process_synthetic_check_result,
}
use telemetry_backend.Runtime.Restart.{load_state, alert_of_row, incident_by_alert, restored_key}
use telemetry_backend.Runtime.Restart.RuleAlerts.{load_state-rule}
use telemetry_backend.Runtime.Restart.SyntheticAlert.{recovery_after_restart}
use telemetry_backend.Tests.Samples.{
  whole, counters, surroundings, manager_with, dispatcher_of, hot_row,
}

abbrev alert_row : String → String → String → Option String → AlertRecord ℕ
alert_row id source metric rule_id = record {
  id = id;
  host_id = some "web-1";
  service_id = none;
  metric = metric;
  value = 95;
  baseline = 80;
  severity = Severity.critical;
  message = "high";
  status = "active";
  acknowledged = false;
  source = source;
  rule_id = rule_id;
  timestamp = 100;
  resolved_at = none;
}

abbrev rule_row : AlertRecord ℕ
rule_row = alert_row "alert-1" "rule" "cpu" (some "cpu-high")

abbrev check_row : AlertRecord ℕ
check_row = alert_row "alert-2" "synthetic" "synthetic:check-1" none

abbrev stored : Database ℕ
stored = record {
  incidents = [];
  incident_alerts = [];
  alert_records = ("alert-1", rule_row) ∷ ("alert-2", check_row) ∷ [];
}

abbrev incident : IncidentState
incident = record {
  id = "incident-1";
  host_id = some "web-1";
  service_id = none;
  title = "Correlated incident on web-1";
  status = Status.opened;
  severity = Severity.critical;
  first_seen_at = 100;
  last_seen_at = 100;
  alert_ids = "alert-1" ∷ [];
  active_alert_ids = "alert-1" ∷ [];
  resolved_at = none;
}

abbrev event_for : String → IncidentPersistenceEvent
event_for alert_id = record { incident = incident; alert_id = some alert_id }

abbrev stored_after : Database ℕ
stored_after = record stored {
  incidents =
      (
        "incident-1",
        record {
          id = "incident-1";
          host_id = some "web-1";
          service_id = none;
          title = "Correlated incident on web-1";
          status = Status.opened;
          severity = Severity.critical;
          first_seen_at = 100;
          last_seen_at = 100;
          resolved_at = none;
          created_at = 7;
          updated_at = 7;
        },
      )
      ∷ [];
  incident_alerts = record { incident_id = "incident-1"; alert_id = "alert-1"; added_at = 7 } ∷ [];
}

written : persist 7 (event_for "alert-1") stored ≡ some stored_after
unfolding persist Dict.get Dict.put has_link Incidents.Storage.row_after
written = refl

abbrev in_order : {A : Type 0} → List A → List A
in_order rows = rows

same_incidents : (P : Incident → Type 0) (rows : List Incident) → All P (in_order rows) ↔ All P rows
same_incidents P rows = (λ h. h, λ (h : All P rows). h)

abbrev engine : IncidentEngine
engine = Incidents.init none

hydrate-persist_example :
    let i = (event_for "alert-1").incident in
    let ids = linked i.id stored_after.incident_alerts [] in
    (Dict.get i.id (hydrate in_order stored_after engine).incidents
      ≡ some (record i { alert_ids = ids; active_alert_ids = active_among ids stored_after }))
    × ((a : String)
        → elem a ids
          ≡ (has_link i.id a stored.incident_alerts || ((event_for "alert-1").alert_id == some a)))
hydrate-persist_example =
    hydrate-persist in_order same_incidents 7 (event_for "alert-1") stored stored_after tt written
      engine

abbrev worker : Worker IncidentPersistenceEvent
worker = record {
  queue = record { maxsize = 5; items = event_for "alert-9" ∷ event_for "alert-1" ∷ [] };
  retry = none;
  stopping = false;
  running = true;
  dropped_events = 0;
  persisted_events = 0;
}

abbrev writer : Writer ℕ
writer = record { worker = worker; database = stored; metrics = counters }

abbrev steps : List (Step ℕ)
steps = passed true 1 ∷ enqueued (event_for "alert-2") ∷ passed true 2 ∷ []

first_item : next_item writer.worker ≡ some (event_for "alert-9")
unfolding next_item
first_item = refl

not_stored : Dict.get "alert-9" stored.alert_records ≡ none
unfolding Dict.get
not_stored = refl

missing_alert_blocks_example :
    let after = run steps writer in
    (after.database.incidents ≡ writer.database.incidents)
    × (after.database.incident_alerts ≡ writer.database.incident_alerts)
    × (after.worker.persisted_events ≡ writer.worker.persisted_events)
missing_alert_blocks_example =
    missing_alert_blocks (event_for "alert-9") "alert-9" steps writer first_item refl not_stored
      (tt, (tt, (tt, tt)))

highest-critical_example :
    (highest Severity.info (rule_row ∷ ((record check_row { severity = Severity.info }) ∷ []))
      ≡ Severity.critical)
    ↔ All
        (λ r. r.severity ≡ Severity.critical)
        (rule_row ∷ ((record check_row { severity = Severity.info }) ∷ []))
highest-critical_example =
    highest-critical Severity.info rule_row ((record check_row { severity = Severity.info }) ∷ [])

abbrev fresh : Runtime ℕ String
fresh = record (manager_with (dispatcher_of true [])) { alerts = []; active_alerts = [] }

abbrev check : SyntheticCheck
check = record { id = "check-1"; name = "home page"; service_id = none; expected_status = 200 }

abbrev good_run : SyntheticCheckRun ℕ
good_run = record {
  check_id = "check-1";
  checked_at = 200;
  duration_ms = 12;
  status_code = some 200;
  success = true;
  error = none;
  consecutive_failures = 0;
}

apart :
    (restored_key check_row ≢ restored_key rule_row)
    × (state_key (alert_of_row (incident_by_alert [] []) check_row)
        ≢ state_key (alert_of_row (incident_by_alert [] []) rule_row))
unfolding restored_key alert_of_row incident_by_alert
apart = (
  λ e. absurd (ground (arith, (==_iff (restored_key check_row) (restored_key rule_row)).1 e)),
  λ e. absurd (
      ground (
        arith,
        (==_iff (state_key (alert_of_row (incident_by_alert [] []) check_row))
              (state_key (alert_of_row (incident_by_alert [] []) rule_row))).1
            e,
      )),
)

load_state-rule_example :
    let a = alert_of_row (incident_by_alert stored.incident_alerts []) rule_row in
    let started = load_state in_order (hot_row ∷ []) stored fresh in
    (Dict.get (rule_key a) started.active_alerts ≡ some a)
    × (Dict.get (state_key a) started.rules.states ≡ some (hydrated a))
load_state-rule_example =
    load_state-rule in_order (hot_row ∷ []) stored fresh [] rule_row (check_row ∷ []) refl refl refl
      (apart, tt)

recovery_after_restart_example :
    let started = load_state in_order (hot_row ∷ []) stored fresh in
    let after = (process_synthetic_check_result surroundings 3 check good_run started).1 in
    (after.alerts ≡ started.alerts) × (after.active_alerts ≡ started.active_alerts)
recovery_after_restart_example =
    recovery_after_restart surroundings 3 check good_run in_order (hot_row ∷ []) stored fresh refl
      refl
