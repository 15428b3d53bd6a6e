-- ===== src/TelemetryApi.antt =====
-- app/api/telemetry.py: the range of a query, `get_telemetry_history`, and `get_telemetry_series` up to its
-- statement with the bucket of a row. An instant is a number of microseconds in UTC, which is what
-- `normalize` makes of a datetime. `latest_first` stands for the order by timestamp and sequence that the
-- database gives to rows; `now` is the clock. The averages of the series are computed by the database.
pub mod Stored
pub mod History
pub mod Buckets
use mathlib.Core.List.{reverse}
use telemetry_backend.Prelude.{
  ℕ, ◌+◌, ◌-◌, ◌*◌, ◌/◌, String, Bool, true, false, not, ◌&&◌, Option, none, some, List, [], ◌∷◌,
  ◌++◌, map, string_eq, ◌==◌, if◌then◌else◌, keep, take, ltb, leb, is_none, or_text,
}
use telemetry_backend.Model.{TelemetryEvent}
use telemetry_backend.Tables.{TelemetryRecord}
use telemetry_backend.Api.{Reply, replied, http_error}
use telemetry_backend.Runtime.{Runtime, or_else}
use telemetry_backend.Runtime.Queries.{get_current, get_history}

abbrev pub Range : Type 0
Range = Option ℕ × Option ℕ

unfoldable pub normalize_range : Option ℕ → Option ℕ → Reply Range
normalize_range (some start) (some end) =
    if leb end start
    then http_error 422 "start must be earlier than end"
    else replied (some start, some end)
normalize_range (some start) none = replied (some start, none)
normalize_range none end = replied (none, end)

-- start is None or timestamp >= start
abbrev pub from_start : Option ℕ → ℕ → Bool
from_start none t = true
from_start (some start) t = leb start t

-- end is None or timestamp < end
abbrev pub before_end : Option ℕ → ℕ → Bool
before_end none t = true
before_end (some end) t = ltb t end

abbrev pub in_range : Range → ℕ → Bool
in_range r t = from_start r.0 t && before_end r.1 t

module _ {F : Type 0} where
  unfoldable pub to_event : TelemetryRecord F → TelemetryEvent F
  to_event r = record {
    timestamp = r.timestamp;
    sequence = r.sequence;
    cpu = r.cpu;
    memory = r.memory;
    temperature = r.temperature;
    network_mbps = r.network_mbps;
    requests_per_second = r.requests_per_second;
    error_rate = r.error_rate;
    latency_ms = r.latency_ms;
    host_id = some r.host_id;
    source = r.source;
    agent_version = r.agent_version;
  }

  -- the conditions that `_apply_range` adds
  abbrev pub apply_range : String → Range → List (TelemetryRecord F) → List (TelemetryRecord F)
  apply_range host_id r = keep (λ row. (row.host_id == host_id) && in_range r row.timestamp)

  abbrev pub or_if_empty :
      List (TelemetryEvent F) → List (TelemetryEvent F) → List (TelemetryEvent F)
  or_if_empty [] other = other
  or_if_empty (x ∷ xs) other = x ∷ xs

  -- the rows of the statement with its limit, the oldest first
  abbrev pub stored_events :
      (List (TelemetryRecord F) → List (TelemetryRecord F))
      → ℕ
      → String
      → Range
      → List (TelemetryRecord F)
      → List (TelemetryEvent F)
  stored_events latest_first limit host_id r table =
      map to_event (reverse (take limit (latest_first (apply_range host_id r table))))

module _ {F P : Type 0} (latest_first : List (TelemetryRecord F) → List (TelemetryRecord F)) where
  -- the branch with a host: the database, or the memory if it has nothing
  unfoldable pub history_of_host :
      ℕ → String → Range → List (TelemetryRecord F) → Runtime F P → List (TelemetryEvent F)
  history_of_host limit host_id r table s =
      or_if_empty (stored_events latest_first limit host_id r table)
        (keep (λ e. in_range r e.timestamp) (get_history limit (some host_id) s))

  -- after `_normalize_range`
  unfoldable pub history_in_range :
      ℕ → Option String → Range → List (TelemetryRecord F) → Runtime F P → List (TelemetryEvent F)
  unfolding history_of_host
  history_in_range limit host_id r table s =
      if is_none r.0 && is_none r.1 && is_none s.persistence_host_id && is_none host_id
      then get_history limit none s
      else elim (or_else host_id s.persistence_host_id) [
        | none ↦ get_history limit host_id s
        | some target ↦ history_of_host limit target r table s
      ]

  -- the events of the response; `limit` is between 1 and 5000
  unfoldable pub get_telemetry_history :
      ℕ
      → Option String
      → Option ℕ
      → Option ℕ
      → List (TelemetryRecord F)
      → Runtime F P
      → Reply (List (TelemetryEvent F))
  unfolding history_in_range
  get_telemetry_history limit host_id start end table s = elim (normalize_range start end) [
    | replied r ↦ replied (history_in_range limit host_id r table s)
    | http_error code detail ↦ http_error code detail
    | Reply.unhandled x ↦ Reply.unhandled x
  ]

-- a day and a second, in microseconds
abbrev pub day : ℕ
day = 86_400_000_000

abbrev pub second : ℕ
second = 1_000_000

abbrev default_to : ℕ → Option ℕ → ℕ
default_to x none = x
default_to x (some y) = y

-- ceil(duration_seconds / bucket_seconds), for a positive bucket
abbrev pub point_count : ℕ → ℕ → ℕ → ℕ
point_count start end bucket_seconds =
    (end - start + (bucket_seconds * second - 1)) / (bucket_seconds * second)

-- the number of the bucket in which the statement counts a row
abbrev pub bucket : ℕ → ℕ → ℕ
bucket bucket_seconds timestamp = timestamp / (bucket_seconds * second)

-- the range of the statement, or the error
unfoldable pub checked_range : ℕ → ℕ → ℕ → Reply (ℕ × ℕ)
checked_range start end bucket_seconds =
    if leb end start
    then http_error 422 "time range must be positive"
    else if ltb 5000 (point_count start end bucket_seconds)
    then http_error 422
        "bucket_seconds is too small for the requested time range; maximum 5000 points"
    else replied (start, end)

-- the host of the series, as the handler looks for it
abbrev pub series_host : {F P : Type 0} → Option String → Runtime F P → Option String
series_host host_id s = elim (or_else host_id s.persistence_host_id) [
  | some target ↦ some target
  | none ↦ elim s.current [ none ↦ none | some e ↦ e.host_id ]
]

-- the host and the range of the statement
unfoldable pub get_telemetry_series :
    {F P : Type 0}
    → ℕ
    → Option String
    → Option ℕ
    → Option ℕ
    → ℕ
    → Runtime F P
    → Reply (String × ℕ × ℕ)
unfolding normalize_range checked_range
get_telemetry_series now host_id start end bucket_seconds s = elim (normalize_range start end) [
  | http_error code detail ↦ http_error code detail
  | Reply.unhandled x ↦ Reply.unhandled x
  | replied r ↦
      let range_end = default_to now r.1 in
      elim (checked_range (default_to (range_end - day) r.0) range_end bucket_seconds) [
        | http_error code detail ↦ http_error code detail
        | Reply.unhandled x ↦ Reply.unhandled x
        | replied (range_start, e) ↦ elim (series_host host_id s) [
          | none ↦ http_error 503 "No telemetry host is configured"
          | some target ↦ replied (target, range_start, e)
        ]
      ]
]
