-- ===== src/EventBus.antt =====
-- app/services/postgres_event_bus.py: the fan-out of messages to peer processes. `dumps` and `loads`
-- stand for the functions of `json`, `encoded_size` for the length of a text in UTF-8, and the channel of
-- PostgreSQL for an argument: whether a connection or a notification succeeds. A pass of the
-- publisher's loop is two steps, since `publish` runs in another thread between them. Connections that
-- are closed, the pauses before a new connection and the start of the threads are not modelled.
pub mod Delivery
pub mod Conservation
use telemetry_backend.Prelude.{
  ℕ, ◌+◌, String, Bool, true, false, not, ◌||◌, Option, none, some, List, [], ◌∷◌, ◌++◌, string_eq,
  nat_eq, ◌==◌, if◌then◌else◌, ltb,
}
use telemetry_backend.Prelude.Queue.{Queue, put_nowait, get_nowait, qsize}
use telemetry_backend.Metrics.{Metrics, increment, set_gauge}

-- the dict that `publish` encodes
pub record Envelope : Type 0 where
  pub v : ℕ
  pub origin : String
  pub message : String

-- What `json.loads` gives: an exception, a value that is no dict, or what `get` gives for the three
-- keys, `none` for a version, an origin or a message that is missing or of another type.
pub data Loaded : Type 0 where
  invalid : Loaded
  not_dict : Loaded
  dict : Option ℕ → Option String → Option String → Loaded

abbrev pub max_notify_payload_bytes : ℕ
max_notify_payload_bytes = 7900

pub record PostgresEventBus : Type 0 where
  pub origin : String
  pub enabled : Bool
  pub queue : Queue String
  -- the payload that the publisher took and did not finish
  pub in_flight : Option String
  pub connected : Bool
  -- is the callback set, and its loop there and not closed?
  pub has_callback : Bool
  pub metrics : Metrics

abbrev counted : String → PostgresEventBus → PostgresEventBus
counted name b = record b { metrics = increment name 1 b.metrics }

abbrev gauged : String → ℕ → PostgresEventBus → PostgresEventBus
gauged name value b = record b { metrics = set_gauge name value b.metrics }

abbrev pub envelope_of : (Envelope → String) → String → PostgresEventBus → String
envelope_of dumps message b = dumps (record { v = 1; origin = b.origin; message = message })

module _ (dumps : Envelope → String) (encoded_size : String → ℕ) where
  unfoldable pub publish : String → PostgresEventBus → Bool × PostgresEventBus
  publish message b =
      if not b.enabled
      then (false, b)
      else if ltb max_notify_payload_bytes (encoded_size (envelope_of dumps message b))
      then (false, counted "event_bus_dropped_total" b)
      else elim (put_nowait (envelope_of dumps message b) b.queue) [
        | none ↦ (false, counted "event_bus_dropped_total" b)
        | some q ↦ (true, gauged "event_bus_queue_depth" (qsize q) (record b { queue = q }))
      ]

-- the first half of a pass: the connection, if there is none, and `self._queue.get`
unfoldable pub take_payload : Bool → PostgresEventBus → PostgresEventBus
take_payload connects b =
    if b.connected || connects
    then elim (get_nowait b.queue) [
      | none ↦ record (gauge_connection b) { connected = true }
      | some (payload, q) ↦ record (gauge_connection b) {
        connected = true;
        queue = q;
        in_flight = some payload;
      }
    ]
    else gauged "event_bus_publisher_connected" 0 (counted "event_bus_connection_errors_total" b)
  where
    gauge_connection : PostgresEventBus → PostgresEventBus
    gauge_connection b = if b.connected then b else gauged "event_bus_publisher_connected" 1 b

-- self._queue.put_nowait(payload), after the notification failed
unfoldable pub give_back : String → PostgresEventBus → PostgresEventBus
give_back payload b = elim (put_nowait payload b.queue) [
  | none ↦ counted "event_bus_dropped_total" b
  | some q ↦ record b { queue = q }
]

-- the second half: the notification, and what follows it
unfoldable pub notify : Bool → PostgresEventBus → PostgresEventBus
unfolding give_back
notify succeeds b = elim b.in_flight [
  | none ↦ b
  | some payload ↦
      let idle = record b { in_flight = none } in
      let after =
        if succeeds
        then counted "event_bus_published_total" idle
        else record (give_back payload (counted "event_bus_publish_errors_total" idle)) {
          connected = false;
        } in
      gauged "event_bus_queue_depth" (qsize after.queue) after
]

-- what `_handle_notification` does: nothing, the callback with a message, or an exception that it does
-- not catch
pub data Handled : Type 0 where
  ignored : Handled
  called : String → Handled
  attribute_error : Handled

unfoldable pub handle_dict :
    Option ℕ → Option String → Option String → PostgresEventBus → Handled × PostgresEventBus
handle_dict none origin message b = (ignored, b)
handle_dict (some v) origin none b = (ignored, b)
handle_dict (some v) origin (some message) b =
    if not (v == 1) || is_own origin
    then (ignored, b)
    else if message == ""
    then (ignored, b)
    else (if b.has_callback then called message else ignored, counted "event_bus_received_total" b)
  where
    is_own : Option String → Bool
    is_own none = false
    is_own (some o) = o == b.origin

-- `_handle_notification`
unfoldable pub handle_notification :
    (String → Loaded) → String → PostgresEventBus → Handled × PostgresEventBus
unfolding handle_dict
handle_notification loads payload b = elim (loads payload) [
  | invalid ↦ (ignored, counted "event_bus_invalid_messages_total" b)
  | not_dict ↦ (attribute_error, b)
  | dict v origin message ↦ handle_dict v origin message b
]
