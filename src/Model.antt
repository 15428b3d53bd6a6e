-- ===== src/Model.antt =====
-- The data that the services exchange: app/models/telemetry.py (TelemetryEvent),
-- app/models/alerts.py (Severity, Alert) and the metric names of app/models/observability.py.
-- Instants are numbers of microseconds; a float is a value of the type F.
use telemetry_backend.Prelude.{
  ℕ, String, Bool, Option, none, some, List, [], ◌∷◌, ◌==◌, if◌then◌else◌, string_eq,
}

pub data Severity : Type 0 where
  info warning critical : Severity

-- Severity.value
abbrev pub severity_value : Severity → String
severity_value info = "INFO"
severity_value warning = "WARNING"
severity_value critical = "CRITICAL"

pub data Metric : Type 0 where
  cpu memory temperature network_mbps requests_per_second error_rate latency_ms : Metric

abbrev pub metric_name : Metric → String
metric_name cpu = "cpu"
metric_name memory = "memory"
metric_name temperature = "temperature"
metric_name network_mbps = "network_mbps"
metric_name requests_per_second = "requests_per_second"
metric_name error_rate = "error_rate"
metric_name latency_ms = "latency_ms"

-- ALERT_RULE_METRICS and METRICS_TO_MONITOR, which list the same seven names in the same order
abbrev pub metrics : List Metric
metrics =
    cpu ∷ memory ∷ temperature ∷ network_mbps ∷ requests_per_second ∷ error_rate ∷ latency_ms ∷ []

find_metric : String → List Metric → Option Metric
find_metric s [] = none
find_metric s (m ∷ ms) = let rest = find_metric s ms in if metric_name m == s then some m else rest

-- `s in ALERT_RULE_METRICS`, with the metric that the name stands for
unfoldable pub metric_of : String → Option Metric
unfolding find_metric
metric_of s = find_metric s metrics

pub record TelemetryEvent (F : Type 0) : Type 0 where
  pub timestamp : ℕ
  pub sequence : ℕ
  pub cpu : F
  pub memory : F
  pub temperature : F
  pub network_mbps : F
  pub requests_per_second : F
  pub error_rate : F
  pub latency_ms : F
  pub host_id : Option String
  pub source : String
  pub agent_version : Option String

-- getattr(event, metric)
abbrev pub metric_value : {F : Type 0} → TelemetryEvent F → Metric → F
metric_value e Metric.cpu = e.cpu
metric_value e Metric.memory = e.memory
metric_value e Metric.temperature = e.temperature
metric_value e Metric.network_mbps = e.network_mbps
metric_value e Metric.requests_per_second = e.requests_per_second
metric_value e Metric.error_rate = e.error_rate
metric_value e Metric.latency_ms = e.latency_ms

pub record Alert (F : Type 0) : Type 0 where
  pub id : String
  pub timestamp : ℕ
  pub metric : String
  pub value : F
  pub baseline : F
  pub severity : Severity
  pub message : String
  pub resolved : Bool
  pub resolved_at : Option ℕ
  pub acknowledged : Bool
  pub host_id : Option String
  pub service_id : Option String
  pub source : String
  pub rule_id : Option String
  pub incident_id : Option String
