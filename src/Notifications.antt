-- ===== src/Notifications.antt =====
-- app/services/notification_dispatcher.py, the queue of webhook jobs: channels, `enqueue_alert`,
-- `enqueue_incident`, `enqueue_test`, `_queue_job`, `retry_delivery` and `_restore_pending_jobs`.
-- A payload is a value of a type P; `loads` stands for `json.loads` (`none`: JSONDecodeError). An
-- operation that may raise returns what it has changed by then beside the error.
pub mod Delivery
pub mod Selection
pub mod Overflow
use telemetry_backend.Prelude.{
  ℕ, ◌+◌, String, Bool, true, false, not, ◌&&◌, Option, none, some, List, [], ◌∷◌, ◌++◌, string_eq,
  ◌==◌, if◌then◌else◌, ltb, elem, is_none, concat, take, keep,
}
use telemetry_backend.Prelude.Dict
use telemetry_backend.Prelude.Dict.{Dict}
use telemetry_backend.Prelude.Queue.{Queue, put_nowait, qsize}
use telemetry_backend.Metrics.{Metrics, increment, set_gauge}

pub record WebhookChannel : Type 0 where
  pub id : String
  pub name : String
  pub url : String
  pub event_types : List String
  pub min_severity : String
  pub enabled : Bool

pub record NotificationJob (P : Type 0) : Type 0 where
  pub delivery_id : String
  pub channel_id : String
  pub url : String
  pub event_type : String
  pub event_id : String
  pub payload : P

pub record NotificationDispatcher (P : Type 0) : Type 0 where
  pub enabled : Bool
  pub max_attempts : ℕ
  pub queue : Queue (NotificationJob P)
  pub channels : Dict String WebhookChannel
  pub dropped_jobs : ℕ

-- a row of the table `notification_deliveries`
pub record NotificationDelivery : Type 0 where
  pub id : String
  pub channel_id : String
  pub target_url : String
  pub event_type : String
  pub event_id : String
  pub status : String
  pub attempts : ℕ
  pub last_status_code : Option ℕ
  pub last_error : Option String
  pub payload_sha256 : String
  pub payload : String
  pub delivered_at : Option ℕ

pub data Error : Type 0 where
  key_error name_error runtime_error : Error

pub data Result (A : Type 0) : Type 0 where
  ok : A → Result A
  raised : Error → Result A

-- the dispatcher and the metrics after an operation, and its result
abbrev pub Outcome : Type 0 → Type 0 → Type 0
Outcome P A = Result A × NotificationDispatcher P × Metrics

-- _SEVERITY_RANK.get(severity, default)
unfoldable pub rank_or : String → ℕ → ℕ
rank_or severity default =
    if severity == "INFO"
    then 1
    else if severity == "WARNING"
    then 2
    else if severity == "CRITICAL"
    then 3
    else default

-- the comprehension of `reload`, over the rows in the order of their names; the items of
-- `event_types` are those of the row's comma-separated text
unfoldable pub reload :
    {P : Type 0} → List WebhookChannel → NotificationDispatcher P → NotificationDispatcher P
reload rows d =
    if not d.enabled then record d { channels = [] } else record d { channels = collect [] rows }
  where
    collect : Dict String WebhookChannel → List WebhookChannel → Dict String WebhookChannel
    collect acc [] = acc
    collect acc (row ∷ rest) = collect (if row.enabled then Dict.put row.id row acc else acc) rest

-- the two tests of the loop of `_enqueue`
abbrev pub wants : String → String → WebhookChannel → Bool
wants event_type severity channel =
    elem event_type channel.event_types
    && not (ltb (rank_or severity 1) (rank_or channel.min_severity 2))

-- f"alert.{action}" and f"incident.{action}"
abbrev pub alert_event : String → String
alert_event action = concat ("alert." ∷ action ∷ [])

abbrev pub incident_event : String → String
incident_event action = concat ("incident." ∷ action ∷ [])

abbrev pub Table : Type 0
Table = Dict String NotificationDelivery

abbrev marked_full : NotificationDelivery → NotificationDelivery
marked_full row = record row { status = "failed"; last_error = some "Notification queue is full" }

-- the second transaction of `retry_delivery`, after the queue refused the job
unfoldable pub give_back : String → Table → Table
give_back delivery_id db = elim (Dict.get delivery_id db) [
  | none ↦ db
  | some current ↦ Dict.put delivery_id (marked_full current) db
]

abbrev unfinished : NotificationDelivery → Bool
unfinished row = if row.status == "pending" then true else row.status == "delivering"

module _ {P : Type 0} where
  -- On a full queue the warning names `delivery_id`, which the method does not define: the call raises
  -- NameError after the drop was counted, and does not return False.
  unfoldable pub queue_job : NotificationJob P → NotificationDispatcher P → Metrics → Outcome P Bool
  queue_job job d m = elim (put_nowait job d.queue) [
    | some q ↦ (
      ok true,
      record d { queue = q },
      set_gauge "notification_queue_depth" (qsize q) (increment "notification_enqueued_total" 1 m),
    )
    | none ↦ (
      raised name_error,
      record d { dropped_jobs = d.dropped_jobs + 1 },
      increment "notification_dropped_total" 1 m,
    )
  ]

  abbrev pub job_for : String → String → String → P → WebhookChannel → NotificationJob P
  job_for delivery_id event_type event_id payload channel = record {
    delivery_id = delivery_id;
    channel_id = channel.id;
    url = channel.url;
    event_type = event_type;
    event_id = event_id;
    payload = payload;
  }

  -- the loop of `_enqueue`; `uuid n` is the n-th identifier of `uuid4().hex`
  unfoldable pub enqueue_channels :
      (ℕ → String)
      → String
      → String
      → P
      → String
      → ℕ
      → List WebhookChannel
      → NotificationDispatcher P
      → Metrics
      → Outcome P (Unit {0})
  enqueue_channels uuid event_type event_id payload severity drawn [] d m = (ok tt, d, m)
  enqueue_channels uuid event_type event_id payload severity drawn (channel ∷ channels) d m =
      elim (wants event_type severity channel) [
        | false ↦ enqueue_channels uuid event_type event_id payload severity drawn channels d m
        | true ↦
            let (r, d', m') =
              queue_job (job_for (uuid drawn) event_type event_id payload channel) d m in
            elim r [
              | raised e ↦ (raised e, d', m')
              | ok _ ↦
                  enqueue_channels uuid event_type event_id payload severity (drawn + 1) channels d'
                    m'
            ]
      ]

  -- `_enqueue`
  unfoldable pub enqueue :
      (ℕ → String)
      → ℕ
      → String
      → String
      → P
      → String
      → NotificationDispatcher P
      → Metrics
      → Outcome P (Unit {0})
  unfolding enqueue_channels
  enqueue uuid drawn event_type event_id payload severity d m =
      if not d.enabled
      then (ok tt, d, m)
      else enqueue_channels uuid event_type event_id payload severity drawn (Dict.values d.channels)
          d m

  unfoldable pub enqueue_test :
      P → String → String → String → NotificationDispatcher P → Metrics → Outcome P String
  enqueue_test payload delivery_id event_id channel_id d m = elim (Dict.get channel_id d.channels) [
    | none ↦ (raised key_error, d, m)
    | some channel ↦
        let (r, d', m') =
          queue_job (job_for delivery_id "notification.test" event_id payload channel) d m in
        elim r [
          | raised e ↦ (raised e, d', m')
          | ok queued ↦ if queued then (ok delivery_id, d', m') else (raised runtime_error, d', m')
        ]
  ]

  abbrev pub job_of_row : P → NotificationDelivery → NotificationJob P
  job_of_row payload row = record {
    delivery_id = row.id;
    channel_id = row.channel_id;
    url = row.target_url;
    event_type = row.event_type;
    event_id = row.event_id;
    payload = payload;
  }

  unfoldable pub retry_delivery :
      (String → Option P)
      → String
      → Table
      → NotificationDispatcher P
      → Metrics
      → Outcome P Bool × Table
  unfolding give_back
  retry_delivery loads delivery_id db d m =
      let refused : Outcome P Bool × Table = ((ok false, d, m), db) in
      if not d.enabled then refused else elim (Dict.get delivery_id db) [
        | none ↦ refused
        | some row ↦
            if not (row.status == "failed")
            then refused
            else elim (Dict.get row.channel_id d.channels) [
              | none ↦ refused
              | some _ ↦ elim (loads row.payload) [
                | none ↦ refused
                | some payload ↦
                    let pending : NotificationDelivery = record row {
                      status = "pending";
                      last_error = none;
                      last_status_code = none;
                    } in
                    let db' = Dict.put delivery_id pending db in
                    let (r, d', m') = queue_job (job_of_row payload pending) d m in
                    elim r [
                      | raised e ↦ ((raised e, d', m'), db')
                      | ok queued ↦
                          if queued
                          then ((ok true, d', m'), db')
                          else ((ok false, d', m'), give_back delivery_id db')
                    ]
              ]
            ]
      ]

  -- The loop of `_restore_pending_jobs`, over the first 500 pending or delivering rows in the order of
  -- their creation. An error is logged and ends the loop.
  unfoldable pub restore_rows :
      (String → Option P)
      → List NotificationDelivery
      → NotificationDispatcher P
      → Metrics
      → NotificationDispatcher P × Metrics
  restore_rows loads [] d m = (d, m)
  restore_rows loads (row ∷ rows) d m = elim (Dict.get row.channel_id d.channels) [
    | none ↦ restore_rows loads rows d m
    | some _ ↦ elim (loads row.payload) [
      | none ↦ restore_rows loads rows d m
      | some payload ↦
          let (r, d', m') = queue_job (job_of_row payload row) d m in
          elim r [ raised e ↦ (d', m') | ok _ ↦ restore_rows loads rows d' m' ]
    ]
  ]

  unfoldable pub restore_pending_jobs :
      (String → Option P)
      → List NotificationDelivery
      → NotificationDispatcher P
      → Metrics
      → NotificationDispatcher P × Metrics
  unfolding restore_rows
  restore_pending_jobs loads rows d m =
      if not d.enabled then (d, m) else restore_rows loads (take 500 (keep unfinished rows)) d m
