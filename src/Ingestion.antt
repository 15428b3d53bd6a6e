-- ===== src/Ingestion.antt =====
-- app/services/telemetry_ingestion.py: `persist_batch`, and the handler of app/api/ingestion.py up to
-- the events that it hands to the runtime. `snapshot` is the table as the SELECT sees it and `table`
-- the table when the INSERT runs: other requests may have inserted in between.
pub mod Idempotence
pub mod Once
use telemetry_backend.Prelude.{
  leb, ◌&&◌, ℕ, ◌-◌, ◌+◌, String, Bool, true, false, not, Option, none, some, List, [], ◌∷◌, ◌++◌,
  map, nat_eq, string_eq, ◌==◌, if◌then◌else◌, keep, elem, length, max, or_text,
}
use telemetry_backend.Model.{TelemetryEvent}
use telemetry_backend.Metrics.{Metrics, increment}
use telemetry_backend.Tables.{TelemetryRecord, row_of, has_row, insert_ignore}

pub record IngestTelemetryEvent (F : Type 0) : Type 0 where
  pub timestamp : ℕ
  pub sequence : ℕ
  pub cpu : F
  pub memory : F
  pub temperature : F
  pub network_mbps : F
  pub requests_per_second : F
  pub error_rate : F
  pub latency_ms : F

pub record IngestTelemetryBatch (F : Type 0) : Type 0 where
  pub events : List (IngestTelemetryEvent F)
  pub agent_version : Option String

-- the bounds of `IngestTelemetryBatch.events`, on the number of events
abbrev pub is_admitted : ℕ → Bool
is_admitted n = leb 1 n && leb n 250

pub record Host : Type 0 where
  pub id : String
  pub is_active : Bool
  pub last_seen_at : Option ℕ
  pub agent_version : Option String

pub record Persisted (F : Type 0) : Type 0 where
  pub table : List (TelemetryRecord F)
  pub host : Host
  pub metrics : Metrics
  pub accepted : List (TelemetryEvent F)

module _ {F : Type 0} where
  abbrev pub any_sequence : ℕ → List (IngestTelemetryEvent F) → Bool
  any_sequence s [] = false
  any_sequence s (i ∷ items) = if i.sequence == s then true else any_sequence s items

  -- `by_sequence` after `setdefault` of each item, as its values: each key is its item's sequence
  pub by_sequence :
      List (IngestTelemetryEvent F) → List (IngestTelemetryEvent F) → List (IngestTelemetryEvent F)
  by_sequence acc [] = acc
  by_sequence acc (i ∷ items) =
      by_sequence (if any_sequence i.sequence acc then acc else acc ++ i ∷ []) items

  unfoldable pub event_of : String → Option String → IngestTelemetryEvent F → TelemetryEvent F
  event_of host_id agent_version i = record {
    timestamp = i.timestamp;
    sequence = i.sequence;
    cpu = i.cpu;
    memory = i.memory;
    temperature = i.temperature;
    network_mbps = i.network_mbps;
    requests_per_second = i.requests_per_second;
    error_rate = i.error_rate;
    latency_ms = i.latency_ms;
    host_id = some host_id;
    source = "agent";
    agent_version = agent_version;
  }

  -- max(event.timestamp for event in events), for a first event
  abbrev latest : ℕ → List (TelemetryEvent F) → ℕ
  latest t [] = t
  latest t (e ∷ events) = latest (max t e.timestamp) events

  -- the update of the host when some event was accepted
  pub touch_host : Option String → List (TelemetryEvent F) → Host → Host
  touch_host agent_version [] host = host
  touch_host agent_version (e ∷ events) host = record host {
    last_seen_at = some (latest e.timestamp events);
    agent_version = if or_text agent_version "" == "" then host.agent_version else agent_version;
  }

  -- the list comprehension `candidates`
  unfoldable pub candidates :
      String → List (TelemetryRecord F) → IngestTelemetryBatch F → List (IngestTelemetryEvent F)
  unfolding by_sequence
  candidates host_id snapshot payload =
      keep (λ i. not (has_row host_id i.sequence snapshot)) (by_sequence [] payload.events)

  unfoldable pub persist_batch :
      List (TelemetryRecord F)
      → List (TelemetryRecord F)
      → Host
      → IngestTelemetryBatch F
      → Metrics
      → Persisted F
  unfolding touch_host
  persist_batch snapshot table host payload m =
      let counted = increment "telemetry_ingestion_batches_total" 1 m in
      elim (candidates host.id snapshot payload) [
        | [] ↦ record { table = table; host = host; metrics = counted; accepted = [] }
        | item ∷ items ↦
            let events = map (event_of host.id payload.agent_version) (item ∷ items) in
            let (table', inserted) = insert_ignore table (map (row_of host.id) events) in
            let accepted = keep (λ e. elem e.sequence inserted) events in
            record {
              table = table';
              host = touch_host payload.agent_version accepted host;
              metrics = counted;
              accepted = accepted;
            }
      ]

-- what the endpoint answers: HTTP 401, or the counts of the response
pub data Reply : Type 0 where
  unauthorized : Reply
  accepted_reply : String → ℕ → ℕ → ℕ → ℕ → Reply

pub record Ingested (F : Type 0) : Type 0 where
  pub reply : Reply
  pub table : List (TelemetryRecord F)
  pub host : Option Host
  pub metrics : Metrics
  -- the events that are handed to `process_event`, in order
  pub processed : List (TelemetryEvent F)

module _ {F : Type 0} where
  abbrev max_sequence : ℕ → List (IngestTelemetryEvent F) → ℕ
  max_sequence s [] = s
  max_sequence s (i ∷ items) = max_sequence (max s i.sequence) items

  -- `ingest_telemetry` for the host of the caller's key; `last_used_at` of the key is left out, and so
  -- is what the runtime does with the processed events
  unfoldable pub ingest_telemetry :
      List (TelemetryRecord F)
      → List (TelemetryRecord F)
      → Option Host
      → IngestTelemetryBatch F
      → Metrics
      → Ingested F
  ingest_telemetry snapshot table none payload m = record {
    reply = unauthorized;
    table = table;
    host = none;
    metrics = increment "telemetry_ingestion_rejected_total" 1 m;
    processed = [];
  }
  ingest_telemetry snapshot table (some host) payload m =
      if not host.is_active
      then record {
        reply = unauthorized;
        table = table;
        host = some host;
        metrics = increment "telemetry_ingestion_rejected_total" 1 m;
        processed = [];
      }
      else let p = persist_batch snapshot table host payload m in
        let received = length payload.events in
        let deduplicated = received - length p.accepted in
        record {
          reply =
              accepted_reply p.host.id received (length p.accepted) deduplicated
                (max_sequence 0 payload.events);
          table = p.table;
          host = some p.host;
          metrics =
              if deduplicated == 0
              then p.metrics
              else increment "telemetry_ingestion_deduplicated_total" deduplicated p.metrics;
          processed = p.accepted;
        }
