-- ===== src/Runtime/Events.antt =====
-- `process_event`, `_apply_rule_transition` and `_process_anomaly_results`.
use telemetry_backend.Prelude.{
  ◌+◌, String, Bool, true, false, Option, none, some, List, [], ◌∷◌, ◌++◌, string_eq, ◌==◌,
  if◌then◌else◌, push_bounded, or_text, concat,
}
use telemetry_backend.Prelude.Dict
use telemetry_backend.Prelude.Float.{Float}
use telemetry_backend.Model.{Alert, TelemetryEvent, Metric, metric_name}
use telemetry_backend.Metrics.{Metrics, set_gauge}
use telemetry_backend.Rules.{Action, RuleTransition, evaluate}
use telemetry_backend.Anomalies.{AnomalyResult}
use telemetry_backend.Anomalies
use telemetry_backend.Incidents.{IncidentState}
use telemetry_backend.Persistence
use telemetry_backend.Notifications.{ok}
use telemetry_backend.Runtime.{
  Runtime, Env, Message, or_else, count, open_alert, update_active, close_alert, broadcast,
}
use telemetry_backend.Runtime.Exec.{Exec, ◌>>=◌, ◌>>◌, pure, modify}
use telemetry_backend.Runtime.Actions.{
  notify_alert, incident_created, incident_resolved, persist_alert, notify_new_incident,
  notify_resolved_incident, update_persistence_metrics,
}

-- f"rule:{alert.rule_id}:{alert.host_id or 'system'}"
abbrev pub rule_key : {F : Type 0} → Alert F → String
rule_key a = concat ("rule:" ∷ or_text a.rule_id "None" ∷ ":" ∷ or_text a.host_id "system" ∷ [])

-- f"anomaly:{host_key}:{metric}"
abbrev pub anomaly_key : {F : Type 0} → TelemetryEvent F → Metric → String
anomaly_key event metric =
    concat ("anomaly:" ∷ or_text event.host_id "system" ∷ ":" ∷ metric_name metric ∷ [])

abbrev pub incident_id_of : Option IncidentState → Option String
incident_id_of none = none
incident_id_of (some i) = some i.id

abbrev action_text : Action → String
action_text Action.created = "created"
action_text Action.resolved = "resolved"

module _ {F : Type 0} where
  abbrev pub alerts_of : List (Alert F × Action) → List (Alert F)
  alerts_of [] = []
  alerts_of ((a, _) ∷ rest) = a ∷ alerts_of rest

  abbrev pub resolve_with : Alert F → Alert F → Alert F
  resolve_with existing a = record existing {
    value = a.value;
    message = a.message;
    resolved = true;
    resolved_at = a.resolved_at;
  }

module _ {F P : Type 0} where
  abbrev pub broadcast_alerts : List (Alert F) → Runtime F P → Runtime F P
  broadcast_alerts [] s = s
  broadcast_alerts (a ∷ alerts) s = broadcast_alerts alerts (broadcast (Message.alert a) s)

  abbrev pub broadcast_incidents : List (Alert F × Action) → Runtime F P → Runtime F P
  broadcast_incidents [] s = s
  broadcast_incidents ((a, action) ∷ events) s = broadcast_incidents events (
      broadcast
        (Message.system "incident_updated"
          (concat ("Incident state changed for alert " ∷ a.id ∷ ": " ∷ action_text action ∷ [])))
        s)

module _ {F P : Type 0} (env : Env F P) where
  -- The steps after a new alert was recorded, in `_apply_rule_transition` and
  -- `_process_anomaly_results`: the incident, the notifications, the queue for the database. The
  -- alert that is returned names its incident.
  unfoldable pub announce_created : String → Option String → Alert F → Exec (Runtime F P) (Alert F)
  announce_created key host_id a = do
    modify (count "alert_created_total")
    incident ← incident_created env a
    let named : Alert F = record a { incident_id = incident_id_of incident }
    modify (update_active key named)
    notify_alert env named "created"
    notify_new_incident env incident
    modify (persist_alert named host_id)
    pure named

  -- The steps after an alert was closed.
  unfoldable pub announce_resolved : Option String → Alert F → Exec (Runtime F P) (Unit {0})
  announce_resolved host_id a = do
    modify (count "alert_resolved_total")
    incident ← incident_resolved env a
    notify_alert env a "resolved"
    notify_resolved_incident env incident
    modify (persist_alert a host_id)

  -- the rest of `_apply_rule_transition`, with the alert that was active under the key
  unfoldable pub close_rule_alert : Alert F → Option (Alert F) → Exec (Runtime F P) (Alert F)
  close_rule_alert a none s = (ok a, s)
  close_rule_alert a (some existing) s =
      let closed = resolve_with existing a in
      (do announce_resolved (or_else existing.host_id s.persistence_host_id) closed; pure closed)
        (close_alert (rule_key a) closed s)

  unfoldable pub apply_rule_transition : RuleTransition F → Exec (Runtime F P) (Alert F)
  unfolding close_rule_alert
  apply_rule_transition t s = elim t.action [
    | Action.created ↦
        announce_created (rule_key t.alert) t.alert.host_id t.alert
          (open_alert (rule_key t.alert) t.alert s)
    | Action.resolved ↦ close_rule_alert t.alert (Dict.get (rule_key t.alert) s.active_alerts) s
  ]

  -- the loop over the transitions: the alerts to broadcast, and the incident events
  unfoldable pub apply_transitions :
      List (RuleTransition F) → Exec (Runtime F P) (List (Alert F × Action))
  apply_transitions [] = pure []
  apply_transitions (t ∷ ts) = do
    a ← apply_rule_transition t
    rest ← apply_transitions ts
    pure ((a, t.action) ∷ rest)

module _ {F P : Type 0} ⦃fl : Float F⦄ (env : Env F P) where
  anomaly_alert : TelemetryEvent F → Option String → String → AnomalyResult F → Alert F
  anomaly_alert event persistence_host_id id r = record {
    id = id;
    timestamp = event.timestamp;
    metric = metric_name r.metric;
    value = r.value;
    baseline = r.baseline;
    severity = r.severity;
    message = concat (
        metric_name r.metric
        ∷ " anomaly detected: "
        ∷ fl.text r.value
        ∷ " (baseline: "
        ∷ fl.text r.baseline
        ∷ ", z-score: "
        ∷ fl.text r.z_score
        ∷ ")"
        ∷ []);
    resolved = false;
    resolved_at = none;
    acknowledged = false;
    host_id = or_else event.host_id persistence_host_id;
    service_id = none;
    source = "anomaly";
    rule_id = none;
    incident_id = none;
  }

  -- the branch `if result.is_anomaly`, with the alert that is active under the key
  unfoldable pub on_anomaly :
      TelemetryEvent F → AnomalyResult F → Option (Alert F) → Exec (Runtime F P) (List (Alert F))
  unfolding anomaly_alert
  on_anomaly event r none s =
      let key = anomaly_key event r.metric in
      let a = anomaly_alert event s.persistence_host_id (env.uuid s.drawn) r in
      (do
        named ← announce_created env key (or_else event.host_id s.persistence_host_id) a
        pure (named ∷ []))
        (open_alert key a (record s { drawn = s.drawn + 1 }))
  on_anomaly event r (some existing) s =
      (ok [], update_active (anomaly_key event r.metric) (record existing { value = r.value }) s)

  -- the branch `else`
  unfoldable pub on_normal :
      TelemetryEvent F → AnomalyResult F → Option (Alert F) → Exec (Runtime F P) (List (Alert F))
  on_normal event r none s = (ok [], s)
  on_normal event r (some existing) s =
      let closed : Alert F = record existing { resolved = true; resolved_at = some env.now } in
      (do
        announce_resolved env
            (or_else existing.host_id (or_else event.host_id s.persistence_host_id)) closed
        pure (closed ∷ []))
        (close_alert (anomaly_key event r.metric) closed s)

  -- the body of the loop of `_process_anomaly_results`: the alerts to broadcast
  unfoldable pub process_result :
      TelemetryEvent F → AnomalyResult F → Exec (Runtime F P) (List (Alert F))
  unfolding on_anomaly on_normal
  process_result event r s =
      let existing = Dict.get (anomaly_key event r.metric) s.active_alerts in
      if r.is_anomaly then on_anomaly event r existing s else on_normal event r existing s

  unfoldable pub process_results :
      TelemetryEvent F → List (AnomalyResult F) → Exec (Runtime F P) (List (Alert F))
  process_results event [] = pure []
  process_results event (r ∷ rs) = do
    here ← process_result event r
    rest ← process_results event rs
    pure (here ++ rest)

  -- the assignments at the beginning of `process_event`
  unfoldable pub receive : TelemetryEvent F → Bool → Runtime F P → Runtime F P
  receive event persist s =
      let generated = event.source == "synthetic" in
      let host = or_text event.host_id "" in
      let (w, m) = enqueue_event persist s.persistence in
      record s {
        current = some event;
        history = push_bounded s.max_history_size event s.history;
        current_by_host =
            if host == "" then s.current_by_host else Dict.put host event s.current_by_host;
        events_generated = if generated then s.events_generated + 1 else s.events_generated;
        events_ingested = if generated then s.events_ingested else s.events_ingested + 1;
        persistence = w;
        metrics = m;
      }
    where
      enqueue_event :
          Bool
          → Option (Persistence.Worker (TelemetryEvent F))
          → Option (Persistence.Worker (TelemetryEvent F)) × Metrics
      enqueue_event true (some w) =
          let (w', m) =
            Persistence.enqueue "telemetry_persistence_dropped_total" event w s.metrics in
          (some w', m)
      enqueue_event _ w = (w, s.metrics)

  -- anomaly detection and rule evaluation, which write their own state
  unfoldable pub detect : TelemetryEvent F → Exec (Runtime F P) (List (AnomalyResult F))
  detect event s =
      let (d, rs) = Anomalies.update event s.detector in (ok rs, record s { detector = d })

  unfoldable pub evaluate_rules : TelemetryEvent F → Exec (Runtime F P) (List (RuleTransition F))
  evaluate_rules event s =
      let r = evaluate env.uuid event s.drawn s.rules in
      (ok r.transitions, record s { rules = r.engine; drawn = r.drawn })

  -- `process_event`
  unfoldable pub process_event : TelemetryEvent F → Bool → Exec (Runtime F P) (Unit {0})
  process_event event persist = do
    modify (receive event persist)
    results ← detect event
    anomalies ← process_results event results
    transitions ← evaluate_rules event
    changes ← apply_transitions env transitions
    modify (broadcast (Message.telemetry event))
    modify (broadcast_alerts (anomalies ++ alerts_of changes))
    modify (broadcast_incidents changes)
    modify (
        count (
          if event.source == "synthetic"
          then "telemetry_generated_total"
          else "telemetry_ingested_total"))
    modify
        (λ s. record s { metrics = set_gauge "websocket_clients" env.connected_clients s.metrics })
    modify (update_persistence_metrics env)
