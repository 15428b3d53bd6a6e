-- ===== src/Runtime.antt =====
-- app/services/telemetry_manager.py: the state of TelemetryManager and the alert lifecycle of its
-- handlers. A handler is an action on the state that may raise (`Exec`); what was written before a
-- raise stays written. The lock of the manager makes each handler one step. An alert object that is
-- in `_alerts` and in `_active_alerts` is one object: `write_alert` changes it in both.
pub mod Exec
pub mod Actions
pub mod Events
pub mod Ensures
pub mod Consistency
pub mod Failure
pub mod Event
pub mod Transitions
pub mod Synthetic
pub mod Outage
pub mod Queries
pub mod History
pub mod Acknowledge
pub mod Restart
use telemetry_backend.Prelude.{
  ℕ, ◌+◌, String, Bool, true, false, not, Option, none, some, List, [], ◌∷◌, ◌++◌, map, string_eq,
  ◌==◌, if◌then◌else◌, push_bounded, or_text,
}
use telemetry_backend.Prelude.Dict
use telemetry_backend.Prelude.Dict.{Dict}
use telemetry_backend.Model.{Alert, TelemetryEvent}
use telemetry_backend.Metrics.{Metrics, increment}
use telemetry_backend.Rules.{AlertRuleEngine}
use telemetry_backend.Incidents.{IncidentEngine, IncidentState}
use telemetry_backend.Anomalies.{AnomalyDetector}
use telemetry_backend.Persistence.{Worker}
use telemetry_backend.Persistence.Alerts.{AlertPersistence}
use telemetry_backend.Notifications.{NotificationDispatcher}

-- what is sent to the clients: `_broadcast_telemetry`, `_broadcast_alert`, `_broadcast_system`
pub data Message (F : Type 0) : Type 0 where
  telemetry : TelemetryEvent F → Message F
  alert : Alert F → Message F
  system : String → String → Message F

-- The attributes that the handlers below read or write. The generator, the rate, the task and its stop
-- event, the settings of the constructor and the manager's sockets are left out; the writer of the
-- incidents is the one of the engine, which `_ensure_persistence` gives to both.
pub record Runtime (F P : Type 0) : Type 0 where
  pub source_mode : String
  pub current : Option (TelemetryEvent F)
  pub current_by_host : Dict String (TelemetryEvent F)
  pub history : List (TelemetryEvent F)
  pub max_history_size : ℕ
  pub events_generated : ℕ
  pub events_ingested : ℕ
  pub alerts : List (Alert F)
  pub active_alerts : Dict String (Alert F)
  pub detector : AnomalyDetector F
  pub rules : AlertRuleEngine F
  pub incidents : IncidentEngine
  pub persistence : Option (Worker (TelemetryEvent F))
  pub alert_persistence : Option (AlertPersistence F)
  pub persistence_host_id : Option String
  pub dispatcher : NotificationDispatcher P
  pub metrics : Metrics
  -- identifiers drawn from `uuid4`, and notifications made, so far
  pub drawn : ℕ
  pub notified : ℕ
  -- the messages that were broadcast, the latest last
  pub sent : List (Message F)

-- what the handlers take from outside: identifiers, the payloads of notifications, and the present
pub record Env (F P : Type 0) : Type 0 where
  pub uuid : ℕ → String
  -- the identifiers that one call of the dispatcher draws for its jobs
  pub job_uuid : ℕ → ℕ → String
  pub alert_payload : String → Alert F → P
  pub incident_payload : String → IncidentState → P
  pub now : ℕ
  -- len of the WebSocket manager, and the depth of the queue of the event bus
  pub connected_clients : ℕ
  pub event_bus_queue : ℕ

-- `deque(maxlen=500)` of `_alerts`
abbrev pub max_alerts : ℕ
max_alerts = 500

-- x or y, on optional texts: an empty text is false
abbrev pub or_else : Option String → Option String → Option String
or_else none y = y
or_else (some s) y = if s == "" then y else some s

-- a change of an alert object, seen through `_alerts`
abbrev pub write_alert : {F : Type 0} → Alert F → List (Alert F) → List (Alert F)
write_alert a = map (λ b. if b.id == a.id then a else b)

module _ {F P : Type 0} where
  unfoldable pub count : String → Runtime F P → Runtime F P
  count name s = record s { metrics = increment name 1 s.metrics }

  -- self._alerts.append(alert); self._active_alerts[key] = alert
  unfoldable pub open_alert : String → Alert F → Runtime F P → Runtime F P
  open_alert key a s = record s {
    alerts = push_bounded max_alerts a s.alerts;
    active_alerts = Dict.put key a s.active_alerts;
  }

  -- an assignment to fields of the alert that is active under the key
  unfoldable pub update_active : String → Alert F → Runtime F P → Runtime F P
  update_active key a s = record s {
    alerts = write_alert a s.alerts;
    active_alerts = Dict.put key a s.active_alerts;
  }

  -- self._active_alerts.pop(key), followed by assignments to fields of the alert
  unfoldable pub close_alert : String → Alert F → Runtime F P → Runtime F P
  close_alert key a s = record s {
    alerts = write_alert a s.alerts;
    active_alerts = Dict.remove key s.active_alerts;
  }

  -- `_broadcast_…`: to the local clients (the copy for peer processes is not modelled)
  unfoldable pub broadcast : Message F → Runtime F P → Runtime F P
  broadcast m s = record s { sent = s.sent ++ m ∷ [] }
