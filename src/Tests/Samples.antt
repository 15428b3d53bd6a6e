-- ===== src/Tests/Samples.antt =====
-- Sample data of the tests: a host that sends CPU readings, one rule, one channel. Readings are
-- natural numbers, and instants count seconds.
use telemetry_backend.Prelude.{
  ℕ, zero, suc, ◌+◌, ◌-◌, ◌*◌, ◌/◌, String, Bool, true, false, none, some, List, [], ◌∷◌, ltb, leb,
  concat,
}
use telemetry_backend.Prelude.Float.{Float}
use telemetry_backend.Model.{Severity, Metric, TelemetryEvent, Alert}
use telemetry_backend.Metrics
use telemetry_backend.Metrics.{Metrics}
use telemetry_backend.Rules.{AlertRule, AlertRuleEngine, Rule, RuleState}
use telemetry_backend.Anomalies.{AnomalyDetector}
use telemetry_backend.Incidents
use telemetry_backend.Incidents.{IncidentEngine}
use telemetry_backend.Notifications.{
  WebhookChannel, NotificationJob, NotificationDispatcher, NotificationDelivery,
}
use telemetry_backend.Runtime.{Runtime, Env}

-- the reading of a numeral; of a square root the tests need no more than its type
instance pub whole : Float ℕ
whole = record {
  lt = ltb;
  le = leb;
  is_zero = λ n. leb n 0;
  of_nat = λ n. n;
  add = λ a b. a + b;
  sub = λ a b. a - b;
  mul = λ a b. a * b;
  div = λ a b. a / b;
  sqrt = λ n. n;
  abs = λ n. n;
  round2 = λ n. n;
  elapsed = λ a b. a - b;
  text = numeral;
  text1 = numeral;
  text2 = numeral;
  show = numeral;
}
  where
    numeral : ℕ → String
    numeral zero = ""
    numeral (suc n) = concat ("I" ∷ numeral n ∷ [])

-- new identifiers
abbrev pub ids : ℕ → String
ids zero = "id"
ids (suc n) = concat ("id'" ∷ ids n ∷ [])

abbrev pub job_ids : ℕ → ℕ → String
job_ids n k = concat ("job" ∷ ids n ∷ ids k ∷ [])

abbrev pub counters : Metrics
counters = Metrics.init

abbrev pub reading : ℕ → ℕ → String → TelemetryEvent ℕ
reading timestamp cpu host = record {
  timestamp = timestamp;
  sequence = timestamp;
  cpu = cpu;
  memory = 10;
  temperature = 20;
  network_mbps = 1;
  requests_per_second = 5;
  error_rate = 0;
  latency_ms = 3;
  host_id = some host;
  source = "agent";
  agent_version = none;
}

abbrev pub hot : TelemetryEvent ℕ
hot = reading 100 95 "web-1"

abbrev pub hot_row : AlertRule ℕ
hot_row = record {
  id = "cpu-high";
  name = "CPU";
  metric = "cpu";
  operator = ">";
  threshold = 90;
  duration_seconds = 0;
  cooldown_seconds = 60;
  severity = Severity.critical;
  enabled = true;
}

abbrev pub hot_rule : Rule ℕ
hot_rule = record {
  id = "cpu-high";
  name = "CPU";
  metric = Metric.cpu;
  operator = ">";
  threshold = 90;
  duration_seconds = 0;
  cooldown_seconds = 60;
  severity = Severity.critical;
  enabled = true;
}

abbrev pub open_state : RuleState
open_state = record {
  condition_since = some 40;
  last_fired_at = some 40;
  active_alert_id = some "alert-0";
}

-- the rule is open for one host and unknown to another
abbrev pub rule_engine : AlertRuleEngine ℕ
rule_engine = record {
  rules = ("cpu-high", hot_rule) ∷ [];
  states = (("cpu-high", "db-1"), open_state) ∷ (("gone", "db-1"), open_state) ∷ [];
  evaluations = 7;
  fires = 3;
  resolutions = 1;
}

abbrev pub detector : AnomalyDetector ℕ
detector = record {
  threshold = 3;
  window_size = 3;
  min_history = 2;
  history = (("web-1", "cpu"), 10 ∷ 11 ∷ 12 ∷ []) ∷ (("db-1", "cpu"), 50 ∷ []) ∷ [];
}

abbrev pub alert_at : String → ℕ → Severity → Alert ℕ
alert_at id timestamp severity = record {
  id = id;
  timestamp = timestamp;
  metric = "cpu";
  value = 95;
  baseline = 90;
  severity = severity;
  message = "CPU";
  resolved = false;
  resolved_at = none;
  acknowledged = false;
  host_id = some "web-1";
  service_id = none;
  source = "rule";
  rule_id = some "cpu-high";
  incident_id = none;
}

abbrev pub first_alert : Alert ℕ
first_alert = alert_at "alert-1" 100 Severity.warning

abbrev pub channel : WebhookChannel
channel = record {
  id = "ops";
  name = "Operations";
  url = "https://hooks.example/ops";
  event_types = "alert.created" ∷ "incident.created" ∷ [];
  min_severity = "WARNING";
  enabled = true;
}

abbrev pub job : NotificationJob String
job = record {
  delivery_id = "delivery-1";
  channel_id = "ops";
  url = "https://hooks.example/ops";
  event_type = "alert.created";
  event_id = "alert-1";
  payload = "{}";
}

abbrev pub dispatcher_of : Bool → List (NotificationJob String) → NotificationDispatcher String
dispatcher_of enabled items = record {
  enabled = enabled;
  max_attempts = 3;
  queue = record { maxsize = 1; items = items };
  channels = ("ops", channel) ∷ [];
  dropped_jobs = 0;
}

abbrev pub delivery_with : String → NotificationDelivery
delivery_with status = record {
  id = "delivery-1";
  channel_id = "ops";
  target_url = "https://hooks.example/ops";
  event_type = "alert.created";
  event_id = "alert-1";
  status = status;
  attempts = 2;
  last_status_code = some 503;
  last_error = none;
  payload_sha256 = "00";
  payload = "{}";
  delivered_at = none;
}

abbrev pub surroundings : Env ℕ String
surroundings = record {
  uuid = ids;
  job_uuid = job_ids;
  alert_payload = λ action a. action;
  incident_payload = λ action i. action;
  now = 200;
  connected_clients = 2;
  event_bus_queue = 0;
}

-- a manager whose notifications are off, or on with a full queue
abbrev pub manager_with : NotificationDispatcher String → Runtime ℕ String
manager_with d = record {
  source_mode = "agent";
  current = none;
  current_by_host = [];
  history = hot ∷ [];
  max_history_size = 1;
  events_generated = 0;
  events_ingested = 1;
  alerts = first_alert ∷ [];
  active_alerts = ("rule:cpu-high:web-1", first_alert) ∷ [];
  detector = detector;
  rules = rule_engine;
  incidents = Incidents.init none;
  persistence = none;
  alert_persistence = none;
  persistence_host_id = none;
  dispatcher = d;
  metrics = counters;
  drawn = 0;
  notified = 0;
  sent = [];
}
