-- ===== src/Runtime/Restart.antt =====
-- app/services/telemetry_manager.py: `reload_alert_rules`, what `start` loads from the database, and what
-- `reset` clears under the lock. `ordered` stands for the order that the database gives to the rows of a
-- query, `rows` for the rows of `alert_rules` in the order of their names. A query that fails leaves
-- what was loaded before it; that case, `_rule_count`, the start and the end of the tasks and workers,
-- and the rows that `reset` deletes are not modelled.
pub mod RuleAlerts
pub mod SyntheticAlert
use telemetry_backend.Prelude.{
  ℕ, ◌+◌, String, Bool, true, false, not, ◌&&◌, Option, none, some, List, [], ◌∷◌, ◌++◌, string_eq,
  ◌==◌, if◌then◌else◌, keep, or_text, concat, push_bounded, is_none,
}
use telemetry_backend.Prelude.Dict
use telemetry_backend.Prelude.Dict.{Dict}
use telemetry_backend.Prelude.Float.{Float}
use telemetry_backend.Model.{Alert}
use telemetry_backend.Rules.{AlertRule, load_rules, hydrate_active_alerts}
use telemetry_backend.Rules
use telemetry_backend.Anomalies
use telemetry_backend.Incidents
use telemetry_backend.Incidents.Storage.{Database, IncidentAlert}
use telemetry_backend.Persistence.Alerts.{AlertRecord}
use telemetry_backend.Runtime.{Runtime, open_alert}

-- is the optional text there and not empty?
abbrev pub is_text : Option String → Bool
is_text o = not (or_text o "" == "")

-- dict(db.execute(select(IncidentAlert.alert_id, IncidentAlert.incident_id)).all())
unfoldable pub incident_by_alert : List IncidentAlert → Dict String String → Dict String String
incident_by_alert [] d = d
incident_by_alert (l ∷ links) d = incident_by_alert links (Dict.put l.alert_id l.incident_id d)

-- any([]) is false
abbrev pub is_empty {ℓ} : {A : Type ℓ} → List A → Bool
is_empty [] = true
is_empty (x ∷ xs) = false

module _ {F : Type 0} where
  -- the alert of a row; `resolved` and `resolved_at` have their defaults
  unfoldable pub alert_of_row : Dict String String → AlertRecord F → Alert F
  alert_of_row incidents row = record {
    id = row.id;
    timestamp = row.timestamp;
    metric = row.metric;
    value = row.value;
    baseline = row.baseline;
    severity = row.severity;
    message = row.message;
    resolved = false;
    resolved_at = none;
    acknowledged = row.acknowledged;
    host_id = row.host_id;
    service_id = row.service_id;
    source = row.source;
    rule_id = row.rule_id;
    incident_id = Dict.get row.id incidents;
  }

  abbrev pub is_rule_row : AlertRecord F → Bool
  is_rule_row row = (row.source == "rule") && is_text row.rule_id

  unfoldable pub restored_key : AlertRecord F → String
  restored_key row =
      if is_rule_row row
      then concat ("rule:" ∷ or_text row.rule_id "None" ∷ ":" ∷ or_text row.host_id "system" ∷ [])
      else concat ("anomaly:" ∷ or_text row.host_id "system" ∷ ":" ∷ row.metric ∷ [])

  -- the rows that the query of `start` selects
  abbrev pub active_rows :
      (List (AlertRecord F) → List (AlertRecord F)) → Database F → List (AlertRecord F)
  active_rows ordered db =
      ordered (keep (λ row. row.status == "active") (Dict.values db.alert_records))

  -- hydrated_rule_alerts
  unfoldable pub rule_alerts : Dict String String → List (AlertRecord F) → List (Alert F)
  rule_alerts incidents [] = []
  rule_alerts incidents (row ∷ rows) =
      let rest = rule_alerts incidents rows in
      if is_rule_row row then alert_of_row incidents row ∷ rest else rest

module _ {F P : Type 0} where
  unfoldable pub reload_alert_rules : List (AlertRule F) → Runtime F P → Runtime F P
  reload_alert_rules rows s = record s {
    rules =
        hydrate_active_alerts
          (keep (λ a. (a.source == "rule") && (not a.resolved && is_text a.rule_id)) s.alerts)
          (load_rules rows s.rules);
  }

  -- the loop over the active rows
  unfoldable pub restore_rows :
      Dict String String → List (AlertRecord F) → Runtime F P → Runtime F P
  restore_rows incidents [] s = s
  restore_rows incidents (row ∷ rows) s =
      restore_rows incidents rows (open_alert (restored_key row) (alert_of_row incidents row) s)

  unfoldable pub restore_alerts :
      Dict String String → List (AlertRecord F) → Runtime F P → Runtime F P
  unfolding restore_rows
  restore_alerts incidents rows s =
      let restored = restore_rows incidents rows s in
      record restored { rules = hydrate_active_alerts (rule_alerts incidents rows) restored.rules }

  -- the `with` block of `start`
  unfoldable pub load_state :
      (List (AlertRecord F) → List (AlertRecord F))
      → List (AlertRule F)
      → Database F
      → Runtime F P
      → Runtime F P
  unfolding restore_alerts reload_alert_rules
  load_state ordered rows db s =
      let reloaded = reload_alert_rules rows s in
      if is_empty reloaded.alerts
      then restore_alerts (incident_by_alert db.incident_alerts []) (active_rows ordered db)
          reloaded
      else reloaded

  -- the assignments under the lock in `reset`
  unfoldable pub reset_state : ⦃fl : Float F⦄ → Runtime F P → Runtime F P
  reset_state s = record s {
    history = [];
    current = none;
    current_by_host = [];
    events_generated = 0;
    events_ingested = 0;
    alerts = [];
    active_alerts = [];
    detector = Anomalies.reset s.detector;
    rules = Rules.reset s.rules;
    incidents = Incidents.init none;
  }
