-- ===== src/Metrics.antt =====
-- app/services/platform_metrics.py: process-wide counters and gauges. The one instance of the program
-- is a value that the operations take and return. Amounts are natural numbers (the services that are
-- modelled add nothing else), and the uptime of a snapshot is left out.
use telemetry_backend.Prelude.{
  ℕ, ◌+◌, ◌≡◌, String, none, some, List, [], ◌∷◌, arith, string_eq, ◌==◌, ==_iff, if◌then◌else◌,
  map,
}
use telemetry_backend.Prelude.Dict
use telemetry_backend.Prelude.Dict.{Dict}

pub record Metrics : Type 0 where
  pub counters : Dict String ℕ
  pub gauges : Dict String ℕ

-- `_COUNTER_NAMES`
abbrev pub counter_names : List String
counter_names =
    "telemetry_generated_total" ∷ "telemetry_ingested_total" ∷ "telemetry_ingestion_batches_total"
    ∷ "telemetry_ingestion_rejected_total" ∷ "telemetry_ingestion_deduplicated_total"
    ∷ "telemetry_persisted_total" ∷ "telemetry_persistence_dropped_total"
    ∷ "alert_persistence_dropped_total" ∷ "alert_created_total" ∷ "alert_resolved_total"
    ∷ "incident_created_total" ∷ "incident_resolved_total" ∷ "incident_persistence_dropped_total"
    ∷ "synthetic_checks_total" ∷ "synthetic_check_success_total" ∷ "synthetic_check_failure_total"
    ∷ "audit_events_total" ∷ "auth_rate_limited_total" ∷ "ingestion_rate_limited_total"
    ∷ "notification_enqueued_total" ∷ "notification_dropped_total" ∷ "notification_delivered_total"
    ∷ "notification_failed_total" ∷ "notification_retry_total" ∷ "websocket_connections_total"
    ∷ "http_requests_total" ∷ "http_4xx_total" ∷ "http_5xx_total"
    ∷ "http_request_duration_seconds_sum" ∷ "http_request_duration_seconds_count"
    ∷ "telemetry_retention_runs_total" ∷ "telemetry_retention_deleted_total"
    ∷ "telemetry_retention_errors_total" ∷ "event_bus_published_total" ∷ "event_bus_received_total"
    ∷ "event_bus_dropped_total" ∷ "event_bus_connection_errors_total"
    ∷ "event_bus_publish_errors_total" ∷ "event_bus_listener_errors_total"
    ∷ "event_bus_invalid_messages_total" ∷ "event_bus_callback_errors_total" ∷ []

-- `_GAUGE_NAMES`
abbrev pub gauge_names : List String
gauge_names =
    "websocket_clients" ∷ "telemetry_persistence_queue_depth" ∷ "alert_persistence_queue_depth"
    ∷ "incident_persistence_queue_depth" ∷ "open_incidents" ∷ "event_bus_queue_depth"
    ∷ "event_bus_publisher_connected" ∷ "event_bus_listener_connected" ∷ "notification_queue_depth"
    ∷ "synthetic_active_checks" ∷ []

unfoldable pub init : Metrics
init = record { counters = map (λ n. (n, 0)) counter_names; gauges = map (λ n. (n, 0)) gauge_names }

-- self._counters.get(name, 0)
unfoldable pub counter : String → Metrics → ℕ
counter name m = elim (Dict.get name m.counters) [ none ↦ 0 | some n ↦ n ]

unfoldable pub increment : String → ℕ → Metrics → Metrics
increment name amount m = record m { counters = Dict.put name (counter name m + amount) m.counters }

unfoldable pub set_gauge : String → ℕ → Metrics → Metrics
set_gauge name value m = record m { gauges = Dict.put name value m.gauges }

pub counter-increment :
    (name other : String) (amount : ℕ) (m : Metrics)
    → counter other (increment name amount m)
      ≡ (if name == other then counter other m + amount else counter other m)
unfolding counter increment
counter-increment name other amount m =
    ground (arith, Dict.get-put name other (counter name m + amount) m.counters, ==_iff name other)

pub counter-set_gauge :
    (name other : String) (value : ℕ) (m : Metrics)
    → counter other (set_gauge name value m) ≡ counter other m
unfolding counter set_gauge
counter-set_gauge name other value m = ground arith
