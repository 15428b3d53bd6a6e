-- ===== src/Tests/Storage.antt =====
-- Tests of the limiter, the tokens, the writers and the ingestion.
use telemetry_backend.Prelude.{
  ℕ, ◌+◌, ◌-◌, ◌*◌, min, ◌≡◌, ◌≤◌, refl, String, true, false, ◌||◌, none, some, List, [], ◌∷◌, ◌++◌,
  string_eq, ◌==◌, if◌then◌else◌, length, All, ltb, arith,
}
use telemetry_backend.Prelude.Dict
use telemetry_backend.Prelude.Dict.{Dict}
use telemetry_backend.Prelude.Queue.{Fits}
use telemetry_backend.Model.{TelemetryEvent}
use telemetry_backend.RateLimit.{SlidingWindowRateLimiter, events_of, second}
use telemetry_backend.RateLimit.Window
use telemetry_backend.RateLimit.Window.{
  Call, requested, cleared, other_requested, other_cleared, Later, last_of, recent,
  requests_within_limit,
}
use telemetry_backend.WsTokens.{WebSocketTokenRegistry, register, consume}
use telemetry_backend.WsTokens.History
use telemetry_backend.WsTokens.History.{registered, consumed, calls, consume-register}
use telemetry_backend.Persistence.{Worker}
use telemetry_backend.Persistence.Order.{
  Step, started, offer, pass, stop, pending, run, fresh, run-fresh-Kept,
}
use telemetry_backend.Persistence.Alerts.{
  AlertPersistenceEvent, AlertRecord, persist, acknowledged_of, get-persist,
}
use telemetry_backend.Tables.{TelemetryRecord, row_of, has_row}
use telemetry_backend.Ingestion.{
  IngestTelemetryEvent, IngestTelemetryBatch, Host, any_sequence, persist_batch,
}
use telemetry_backend.Ingestion.Once.{Once}
use telemetry_backend.Ingestion.Idempotence.{persist_batch_complete, persist_batch-Once}
use telemetry_backend.Retention.{TelemetryRetentionService, run_once, cutoff_at}
use telemetry_backend.Retention.Batches.{expired, current, run_once-delete_batches}
use telemetry_backend.Tests.Samples.{counters, reading, first_alert}

abbrev quiet : SlidingWindowRateLimiter
quiet = record { events = [] }

abbrev requests : List Call
requests =
    requested 5
    ∷ other_requested 6 "other" 1 1
    ∷ requested 6
    ∷ cleared
    ∷ requested 7
    ∷ other_cleared "other"
    ∷ []

-- a stand-in for the rounded number of seconds
abbrev one_second : ℕ → ℕ → ℕ → ℕ
one_second oldest window now = 1

unused : events_of "ip" quiet ≡ []
unfolding Dict.get
unused = refl

forwards : Later "ip" 4 requests
forwards = (omega arith, (refl, (omega arith, (omega arith, (refl, tt)))))

requests_within_limit_example :
    recent (last_of 4 requests) (1 * second) (Window.run one_second "ip" 2 1 requests (quiet, [])).1
    ≤ 2
requests_within_limit_example =
    requests_within_limit one_second "ip" 2 1 4 requests quiet unused forwards

abbrev tokens : WebSocketTokenRegistry
tokens = record { ttl_seconds = 60; issued = ("old", 5) ∷ [] }

abbrev meanwhile : List History.Call
meanwhile = registered 12 "other" 80 ∷ consumed 13 14 "old" ∷ []

tokens-Distinct : Dict.Distinct tokens.issued
unfolding Dict.get
tokens-Distinct = (refl, tt)

consume-register_example :
    let issued = calls meanwhile (register 10 "token" 70 tokens) in
    let used = consume 20 21 "token" issued in
    (used.1 ≡ ltb 20 70) × ((consume 30 31 "token" (calls meanwhile used.0)).1 ≡ false)
consume-register_example =
    consume-register 10 20 21 30 31 70 "token" meanwhile meanwhile tokens tokens-Distinct
      (refl, (refl, tt)) (omega arith, (omega arith, tt)) (refl, (refl, tt))

abbrev steps : List (Step ℕ)
steps = started ∷ offer 1 ∷ offer 2 ∷ offer 3 ∷ pass none ∷ pass (some 2) ∷ stop ∷ []

run-fresh-Kept_example :
    ((run "dropped" 2 counters (fresh "dropped" 2 counters 2) steps).written
        ++ pending (run "dropped" 2 counters (fresh "dropped" 2 counters 2) steps).worker
      ≡ (run "dropped" 2 counters (fresh "dropped" 2 counters 2) steps).accepted)
    × (length (run "dropped" 2 counters (fresh "dropped" 2 counters 2) steps).accepted
          + (run "dropped" 2 counters (fresh "dropped" 2 counters 2) steps).worker.dropped_events
        ≡ (run "dropped" 2 counters (fresh "dropped" 2 counters 2) steps).offered)
    × Fits (run "dropped" 2 counters (fresh "dropped" 2 counters 2) steps).worker.queue
run-fresh-Kept_example = run-fresh-Kept "dropped" 2 counters 2 steps

abbrev worker : Worker ℕ
worker = record {
  queue = record { maxsize = 5; items = 3 ∷ 4 ∷ [] };
  retry = some (1 ∷ 2 ∷ []);
  stopping = false;
  running = true;
  dropped_events = 0;
  persisted_events = 0;
}

abbrev event : AlertPersistenceEvent ℕ
event = record { alert = first_alert; host_id = some "web-1" }

abbrev alerts : Dict String (AlertRecord ℕ)
alerts = persist (record { alert = record first_alert { acknowledged = true }; host_id = none }) []

get-persist_example :
    ((if event.alert.id == "alert-2" then none else Dict.get "alert-2" (persist event alerts))
      ≡ (if event.alert.id == "alert-2" then none else Dict.get "alert-2" alerts))
    × (acknowledged_of (Dict.get event.alert.id (persist event alerts))
        ≡ (acknowledged_of (Dict.get event.alert.id alerts) || event.alert.acknowledged))
get-persist_example = get-persist event "alert-2" alerts

abbrev stored : List (TelemetryRecord ℕ)
stored = row_of "web-1" (reading 1 95 "web-1") ∷ []

abbrev item : ℕ → IngestTelemetryEvent ℕ
item n = record {
  timestamp = n;
  sequence = n;
  cpu = 95;
  memory = 10;
  temperature = 20;
  network_mbps = 1;
  requests_per_second = 5;
  error_rate = 0;
  latency_ms = 3;
}

abbrev batch : IngestTelemetryBatch ℕ
batch = record { events = item 1 ∷ item 2 ∷ item 2 ∷ []; agent_version = some "1.0" }

abbrev host : Host
host = record { id = "web-1"; is_active = true; last_seen_at = none; agent_version = none }

nothing_seen : (s : ℕ) → has_row {F = ℕ} host.id s [] ≡ true → has_row host.id s stored ≡ true
unfolding has_row
nothing_seen s h = absurd (ground arith)

asked : any_sequence 2 batch.events ≡ true
asked = refl

persist_batch_complete_example :
    has_row host.id 2 (persist_batch [] stored host batch counters).table ≡ true
persist_batch_complete_example =
    persist_batch_complete [] stored host batch counters 2 (nothing_seen 2) asked

persist_batch-Once_example :
    let after = persist_batch [] stored host batch counters in
    Once (λ (e : TelemetryEvent ℕ). e.sequence) after.accepted
    × All (λ e. has_row host.id e.sequence stored ≡ false) after.accepted
    × All (λ e. has_row host.id e.sequence after.table ≡ true) after.accepted
persist_batch-Once_example = persist_batch-Once [] stored host batch counters

abbrev retention : TelemetryRetentionService
retention = record {
  enabled = true;
  retention_hours = 1;
  batch_size = 2;
  max_batches_per_run = 1;
  last_run_at = none;
  last_deleted = 0;
}

abbrev old_rows : List (TelemetryRecord ℕ)
old_rows =
    row_of "web-1" (reading 1 90 "web-1")
    ∷ row_of "web-1" (reading 2 90 "web-1")
    ∷ row_of "web-1" (reading 3 90 "web-1")
    ∷ row_of "web-1" (reading 9_000_000_000 90 "web-1")
    ∷ []

run_once-delete_batches_example :
    (expired
        (cutoff_at 7_200_000_000 retention)
        (run_once 7_200_000_000 old_rows retention counters).0.1
      ≡ expired (cutoff_at 7_200_000_000 retention) old_rows
        - retention.max_batches_per_run * retention.batch_size)
    × ((run_once 7_200_000_000 old_rows retention counters).0.0
        ≡ min
            (expired (cutoff_at 7_200_000_000 retention) old_rows)
            (retention.max_batches_per_run * retention.batch_size))
    × (current
          (cutoff_at 7_200_000_000 retention)
          (run_once 7_200_000_000 old_rows retention counters).0.1
        ≡ current (cutoff_at 7_200_000_000 retention) old_rows)
    × ((run_once 7_200_000_000 old_rows retention counters).1.last_deleted
        ≡ (run_once 7_200_000_000 old_rows retention counters).0.0)
run_once-delete_batches_example =
    run_once-delete_batches 7_200_000_000 old_rows retention counters refl (omega arith)
