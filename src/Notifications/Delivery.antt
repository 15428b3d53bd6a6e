-- ===== src/Notifications/Delivery.antt =====
-- `_deliver`, `_ensure_delivery_row` and `_set_delivery_state` of
-- app/services/notification_dispatcher.py. What the HTTP client answers to the n-th attempt is an
-- argument; `dumps` stands for `json.dumps` and `sha256` for the digest of hashlib; the headers and
-- the signature of a request are not modelled. The table has the rows of one database, by id.
pub mod Attempts
use telemetry_backend.Prelude.{
  ℕ, zero, suc, ◌+◌, ◌-◌, ◌^◌, String, Bool, true, false, not, ◌&&◌, ◌||◌, Option, none, some, List,
  [], ◌∷◌, ◌++◌, string_eq, ◌==◌, nat_eq, if◌then◌else◌, ltb, leb, find, min,
}
use telemetry_backend.Prelude.Dict
use telemetry_backend.Metrics.{Metrics, increment}
use telemetry_backend.Notifications.{NotificationJob, NotificationDelivery, Table}

-- one attempt: a response with its status, or an exception with its text
pub data Response : Type 0 where
  status : ℕ → Response
  exception : String → Response

-- _RETRYABLE_STATUS
abbrev pub retryable_status : ℕ → Bool
retryable_status s = if s == 408 then true else if s == 425 then true else s == 429

-- `should_retry`
abbrev pub should_retry : Option ℕ → Bool
should_retry none = true
should_retry (some s) = if retryable_status s then true else leb 500 s

abbrev pub is_success : ℕ → Bool
is_success s = leb 200 s && ltb s 300

-- `_set_delivery_state`, on the row
unfoldable pub set_delivery_state :
    String → ℕ → Option ℕ → Option String → Option ℕ → NotificationDelivery → NotificationDelivery
set_delivery_state state attempts code error delivered_at row = record row {
  status = state;
  attempts = attempts;
  last_status_code = code;
  last_error = error;
  delivered_at = elim delivered_at [ none ↦ row.delivered_at | some t ↦ some t ];
}

-- the text of `last_error` for a response that is no success
abbrev error_text : (ℕ → String) → Response → Option String → Option String
error_text http_error (status s) before = some (http_error s)
error_text http_error (exception text) before = some text

-- `last_status` after a response: an exception leaves it as it was
abbrev pub last_after : Response → Option ℕ → Option ℕ
last_after (status s) before = some s
last_after (exception text) before = before

abbrev pub succeeded : Response → Bool
succeeded (status s) = is_success s
succeeded (exception text) = false

-- the row, the metrics and the seconds slept between the attempts
pub record Sent : Type 0 where
  pub row : NotificationDelivery
  pub metrics : Metrics
  pub slept : List ℕ
  pub posts : ℕ

-- an attempt that is repeated: the counter, and the sleep
abbrev retried : ℕ → NotificationDelivery → Sent → Sent
retried attempt delivering s = record s {
  row = delivering;
  metrics = increment "notification_retry_total" 1 s.metrics;
  slept = s.slept ++ min (2 ^ (attempt - 1)) 4 ∷ [];
  posts = s.posts + 1;
}

-- The loop of `_deliver` from the attempt `attempt` on, with `left` attempts left: `answer n` is what
-- the n-th attempt gets and `now n` the instant after it.
unfoldable pub attempts_from :
    (ℕ → String) → (ℕ → Response) → (ℕ → ℕ) → ℕ → ℕ → ℕ → Option ℕ → Option String → Sent → Sent
attempts_from http_error answer now previous zero attempt last_status last_error s = s
attempts_from http_error answer now previous (suc left) attempt last_status last_error s =
    let total = previous + attempt in
    let delivering = set_delivery_state "delivering" total last_status last_error none s.row in
    let r = answer attempt in
    let code = last_after r last_status in
    let error = error_text http_error r last_error in
    elim (succeeded r) [
      | true ↦ record s {
        row = set_delivery_state "delivered" total code none (some (now attempt)) delivering;
        metrics = increment "notification_delivered_total" 1 s.metrics;
        posts = s.posts + 1;
      }
      | false ↦ elim (not (should_retry code) || (left == 0)) [
        | true ↦ record s {
          row = set_delivery_state "failed" total code error none delivering;
          metrics = increment "notification_failed_total" 1 s.metrics;
          posts = s.posts + 1;
        }
        | false ↦
            attempts_from http_error answer now previous left (attempt + 1) code error
              (retried attempt delivering s)
      ]
    ]

-- same channel, event type and event
abbrev pub same_event : String → String → String → NotificationDelivery → Bool
same_event channel_id event_type event_id row =
    (row.channel_id == channel_id) && ((row.event_type == event_type) && (row.event_id == event_id))

module _ {P : Type 0} where
  abbrev pub pending_row : NotificationJob P → String → String → NotificationDelivery
  pending_row job body hash = record {
    id = job.delivery_id;
    channel_id = job.channel_id;
    target_url = job.url;
    event_type = job.event_type;
    event_id = job.event_id;
    status = "pending";
    attempts = 0;
    last_status_code = none;
    last_error = none;
    payload_sha256 = hash;
    payload = body;
    delivered_at = none;
  }

  -- `_ensure_delivery_row` where no other process writes the table meanwhile (the handler of
  -- `IntegrityError` is for that case): the row's id, and the table
  unfoldable pub ensure_delivery_row : NotificationJob P → String → String → Table → String × Table
  ensure_delivery_row job body hash db = elim (Dict.get job.delivery_id db) [
    | some row ↦ (row.id, db)
    | none ↦ elim (find (same_event job.channel_id job.event_type job.event_id) (Dict.values db)) [
      | some row ↦ (row.id, db)
      | none ↦ (job.delivery_id, Dict.put job.delivery_id (pending_row job body hash) db)
    ]
  ]

  -- `_deliver` with an open client: the table, the metrics and the number of posts
  unfoldable pub deliver :
      (P → String)
      → (String → String)
      → (ℕ → String)
      → (ℕ → Response)
      → (ℕ → ℕ)
      → ℕ
      → NotificationJob P
      → Table
      → Metrics
      → Table × Metrics × ℕ
  unfolding ensure_delivery_row
  deliver dumps sha256 http_error answer now max_attempts job db m =
      let body = dumps job.payload in
      let (delivery_id, db') = ensure_delivery_row job body (sha256 body) db in
      elim (Dict.get delivery_id db') [
        | none ↦ (db', m, 0)
        | some stored ↦
            if stored.status == "delivered"
            then (db', m, 0)
            else let s =
                attempts_from http_error answer now stored.attempts max_attempts 1 none none
                  (record { row = stored; metrics = m; slept = []; posts = 0 }) in
              (Dict.put delivery_id s.row db', s.metrics, s.posts)
      ]
