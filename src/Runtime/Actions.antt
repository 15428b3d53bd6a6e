-- ===== src/Runtime/Actions.antt =====
-- The steps that the handlers share: incidents, notifications and the persistence of alerts.
use telemetry_backend.Prelude.{
  ℕ, ◌+◌, String, Option, none, some, string_eq, ◌==◌, if◌then◌else◌, length, nat_eq, not, count_if,
}
use telemetry_backend.Model.{Alert, severity_value}
use telemetry_backend.Prelude.Dict
use telemetry_backend.Prelude.Queue.{qsize}
use telemetry_backend.Persistence.{Worker}
use telemetry_backend.Metrics.{Metrics, set_gauge}
use telemetry_backend.Incidents.{
  IncidentState, resolved, status_eq, on_alert_created, on_alert_resolved,
}
use telemetry_backend.Persistence.Alerts.{AlertPersistence, enqueue_alert}
use telemetry_backend.Notifications
use telemetry_backend.Notifications.{Result, ok, raised, alert_event, incident_event}
use telemetry_backend.Runtime.{Runtime, Env}
use telemetry_backend.Runtime.Exec.{Exec, pure}

-- the properties `…_persistence_queue`: 0 without a writer
depth : {A : Type 0} → Option (Worker A) → ℕ
depth none = 0
depth (some w) = qsize w.queue

module _ {F P : Type 0} where
  -- if self._alert_persistence is not None: self._alert_persistence.enqueue(alert, host_id)
  unfoldable pub persist_alert : Alert F → Option String → Runtime F P → Runtime F P
  persist_alert a host_id s =
      let (w, m) = queued s.alert_persistence in record s { alert_persistence = w; metrics = m }
    where
      queued : Option (AlertPersistence F) → Option (AlertPersistence F) × Metrics
      queued none = (none, s.metrics)
      queued (some w) = let (w', m) = enqueue_alert a host_id w s.metrics in (some w', m)

module _ {F P : Type 0} (env : Env F P) where
  -- a call of the dispatcher, with its own identifiers
  unfoldable pub notify : String → String → P → String → Exec (Runtime F P) (Unit {0})
  notify event_type event_id payload severity s =
      let (r, d, m) =
        Notifications.enqueue (env.job_uuid s.notified) 0 event_type event_id payload severity
          s.dispatcher s.metrics in
      (r, record s { dispatcher = d; metrics = m; notified = s.notified + 1 })

  -- notification_dispatcher.enqueue_alert(alert, action)
  unfoldable pub notify_alert : Alert F → String → Exec (Runtime F P) (Unit {0})
  unfolding notify
  notify_alert a action =
      notify (alert_event action) a.id (env.alert_payload action a) (severity_value a.severity)

  -- notification_dispatcher.enqueue_incident(incident, action)
  unfoldable pub notify_incident : IncidentState → String → Exec (Runtime F P) (Unit {0})
  unfolding notify
  notify_incident i action =
      notify (incident_event action) i.id (env.incident_payload action i)
        (severity_value i.severity)

  -- self._incident_engine.on_alert_created(alert)
  unfoldable pub incident_created : Alert F → Exec (Runtime F P) (Option IncidentState)
  incident_created a s =
      let c = on_alert_created env.uuid a s.drawn s.incidents s.metrics in
      (ok c.incident, record s { incidents = c.engine; metrics = c.metrics; drawn = c.drawn })

  -- self._incident_engine.on_alert_resolved(alert)
  unfoldable pub incident_resolved : Alert F → Exec (Runtime F P) (Option IncidentState)
  incident_resolved a s =
      let c = on_alert_resolved a s.drawn s.incidents s.metrics in
      (ok c.incident, record s { incidents = c.engine; metrics = c.metrics; drawn = c.drawn })

  -- if len(incident.alert_ids) == 1: enqueue_incident(incident, "created")
  unfoldable pub notify_new_incident : Option IncidentState → Exec (Runtime F P) (Unit {0})
  unfolding notify_incident
  notify_new_incident none = pure tt
  notify_new_incident (some i) =
      if length i.alert_ids == 1 then notify_incident i "created" else pure tt

  -- if incident is not None and incident.status == "resolved": enqueue_incident(incident, "resolved")
  unfoldable pub notify_resolved_incident : Option IncidentState → Exec (Runtime F P) (Unit {0})
  unfolding notify_incident
  notify_resolved_incident none = pure tt
  notify_resolved_incident (some i) =
      if status_eq i.status resolved then notify_incident i "resolved" else pure tt

  -- `_update_persistence_metrics`
  unfoldable pub update_persistence_metrics : Runtime F P → Runtime F P
  unfolding depth
  update_persistence_metrics s =
      let still_open =
        count_if (λ i. not (status_eq i.status resolved)) (Dict.values s.incidents.incidents) in
      let m1 = set_gauge "websocket_clients" env.connected_clients s.metrics in
      let m2 = set_gauge "telemetry_persistence_queue_depth" (depth s.persistence) m1 in
      let m3 = set_gauge "alert_persistence_queue_depth" (depth s.alert_persistence) m2 in
      let m4 = set_gauge "incident_persistence_queue_depth" (depth s.incidents.persistence) m3 in
      let m5 = set_gauge "event_bus_queue_depth" env.event_bus_queue m4 in
      let m6 = set_gauge "notification_queue_depth" (qsize s.dispatcher.queue) m5 in
      record s { metrics = set_gauge "open_incidents" still_open m6 }
