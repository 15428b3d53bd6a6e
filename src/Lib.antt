-- ===== src/Lib.antt =====
-- A telemetry platform: hosts send readings, rules and a detector of anomalies raise alerts, alerts are
-- correlated to incidents, and both are stored and sent to webhooks. This library models the services
-- of the backend and proves what makes each of them correct.
--
-- How the parts interact. `ingest_telemetry` (app/api/ingestion.py) stores a batch and hands each new
-- event to `TelemetryManager.process_event` (app/services/telemetry_manager.py). That handler, under one
-- lock, asks the detector and the rule engine for alerts, moves them through `_alerts` and
-- `_active_alerts`, informs the incident engine, queues notifications, and queues rows for the
-- background writers. The dispatcher and the writers take from their queues in tasks of their own. A
-- new process restores its alerts and incidents from those rows. What clients see goes over the
-- WebSocket manager, and over the event bus to the clients of other processes. The agent is the program
-- on a host that posts the batches.
--
-- Files, and the code each is about:
--   Prelude           Boolean tests, lists, dict, bounded queues, the arithmetic of floats
--   Model             app/models/telemetry.py, app/models/alerts.py
--   Rules             app/services/alert_rule_engine.py
--   Anomalies         app/services/anomaly_detector.py
--   Incidents         app/services/incident_engine.py, the class IncidentEngine
--   Notifications     app/services/notification_dispatcher.py; Delivery is the loop of `_deliver`
--   Persistence       the queue and worker of app/services/telemetry_persistence.py, of
--                     app/services/alert_persistence.py (Alerts has its rows) and of the incidents
--   Tables, Ingestion app/services/telemetry_ingestion.py, app/api/ingestion.py
--   Retention         app/services/telemetry_retention.py
--   RateLimit         app/core/rate_limit.py
--   WsTokens          app/core/ws_tokens.py
--   Metrics           app/services/platform_metrics.py
--   Runtime           app/services/telemetry_manager.py: the event handlers in Events, their shared
--                     steps in Actions, Queries, and app/services/synthetic_monitor.py in Synthetic
--   Runtime.Restart   what its `start` restores from the database, and what its `reset` clears
--   Incidents.Storage `_persist` of IncidentPersistence and `hydrate` of IncidentEngine; Blocked is the
--                     worker over the database, Incidents.Evidence is about app/api/incidents.py
--   Topology          app/api/topology.py: the search for cycles, and the requests in Requests
--   Accounts          app/api/users.py; Api is what the routes share, with app/services/audit.py
--   ApiKeys           app/services/api_key_service.py, app/api/api_keys.py
--   TelemetryApi      app/api/telemetry.py: the history, and the range and buckets of a series
--   Slo               app/services/slo_service.py
--   EventBus          app/services/postgres_event_bus.py
--   Websockets        app/services/websocket_manager.py
--   Agent             agent/telemetry_agent.py
--   Tests             sample data, and each theorem at a concrete input
--
-- How state is modelled. Each service is a record, and a method is a function from the record (and the
-- metrics, where it counts) to the new one. The lock of a service makes a method one step; where no
-- lock orders two parties, as the SELECT and the INSERT of an ingestion, what the other party did is an
-- argument. A method that may raise returns a result, and keeps what it wrote before. A dict is an
-- association list in insertion order, a set a list without repetitions. Instants are natural
-- numbers: nanoseconds in RateLimit, microseconds where the incidents correlate.
--
-- Outside code is a parameter: identifiers of `uuid4`, floats (`Float`), answers of HTTP requests, the
-- success of transactions, payloads and digests. Nothing is assumed of them but in hypotheses.
--
-- Fuel: `fill` takes at most the batch size from a queue, and `attempts_from` and `attempts` make at
-- most the configured number of attempts, as the loops of the source do; `drain` is given a number of
-- passes, and Persistence.Drain shows how many are enough; `search` is given two more than the lengths
-- of the adjacency sets, and Topology.Search shows that this is enough.
--
-- Not modelled: the login, statistics and other SQL queries that only read, the timeline of an
-- incident, generated readings, the start and stop of tasks and threads, their pauses and
-- cancellation, bounds of pydantic fields, and logging.
pub mod Prelude
pub mod Model
pub mod Rules
pub mod Metrics
pub mod RateLimit
pub mod WsTokens
pub mod Persistence
pub mod Tables
pub mod Incidents
pub mod Anomalies
pub mod Notifications
pub mod Runtime
pub mod Retention
pub mod Api
pub mod Slo
pub mod TelemetryApi
pub mod Accounts
pub mod ApiKeys
pub mod Topology
pub mod Websockets
pub mod Agent
pub mod EventBus
pub mod Tests
pub mod Ingestion
