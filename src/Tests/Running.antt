-- ===== src/Tests/Running.antt =====
-- Tests of the notifications and of the manager.
use telemetry_backend.Prelude.{
  ℕ, ◌+◌, ◌≡◌, ◌≤◌, refl, String, true, false, Option, none, some, List, [], ◌∷◌, ◌++◌, ◌⊎◌, All,
  if◌then◌else◌, suc, nat_eq, ◌==◌, string_eq, length, leb, arith, inr,
}
use telemetry_backend.Prelude.Dict
use telemetry_backend.Model.{Alert, severity_value}
use telemetry_backend.Metrics.{increment}
use telemetry_backend.Rules.{RuleTransition, Action}
use telemetry_backend.Notifications.{
  NotificationDispatcher, NotificationDelivery, Table, ok, raised, name_error, retry_delivery,
  enqueue, rank_or,
}
use telemetry_backend.Notifications.Overflow.{retry_delivery_stuck}
use telemetry_backend.Notifications.Selection.{jobs_from, enqueue_selection}
use telemetry_backend.Notifications.Delivery.{Response, status, exception, deliver}
use telemetry_backend.Notifications.Delivery.Attempts.{ending, deliver-ending}
use telemetry_backend.Runtime.{Runtime, max_alerts}
use telemetry_backend.Runtime.Consistency.{IsOpen}
use telemetry_backend.Runtime.Events.{rule_key, process_event, apply_rule_transition}
use telemetry_backend.Runtime.Event.{process_event-Bounded, process_event_returns}
use telemetry_backend.Runtime.Failure.{some_wants, created_transition_lost}
use telemetry_backend.Runtime.Synthetic
use telemetry_backend.Runtime.Synthetic.{SyntheticCheck, SyntheticMonitor, Answer}
use telemetry_backend.Runtime.Outage.{
  has_alert, trailing, Happening, ran, meanwhile, Apart, counted_failures, run_all, run_all-Tracks,
}
use telemetry_backend.Persistence.{create}
use telemetry_backend.Tests.Samples.{
  whole, ids, counters, hot, first_alert, channel, job, dispatcher_of, delivery_with, surroundings,
  manager_with,
}

abbrev full_dispatcher : NotificationDispatcher String
full_dispatcher = dispatcher_of true (job ∷ [])

abbrev free_dispatcher : NotificationDispatcher String
free_dispatcher = dispatcher_of true []

abbrev failed_row : NotificationDelivery
failed_row = delivery_with "failed"

abbrev deliveries : Table
deliveries = ("delivery-1", failed_row) ∷ []

abbrev empty : String
empty = "{}"

abbrev loads : String → Option String
loads text = some text

failed_known : Dict.get "delivery-1" deliveries ≡ some failed_row
unfolding Dict.get
failed_known = refl

channel_known : Dict.get failed_row.channel_id full_dispatcher.channels ≡ some channel
unfolding Dict.get
channel_known = refl

retry_delivery_stuck_example :
    ((retry_delivery loads "delivery-1" deliveries full_dispatcher counters).0.0
      ≡ raised name_error)
    × ((retry_delivery loads "delivery-1" deliveries full_dispatcher counters).0.1.queue
        ≡ full_dispatcher.queue)
    × ((stuck : NotificationDelivery) × (Dict.get "delivery-1"
            (retry_delivery loads "delivery-1" deliveries full_dispatcher counters).1
          ≡ some stuck)
        × (stuck.status ≡ "pending"))
    × ((retry_delivery loads "delivery-1"
          (retry_delivery loads "delivery-1" deliveries full_dispatcher counters).1
          full_dispatcher
          counters).0.0
        ≡ ok false)
retry_delivery_stuck_example =
    retry_delivery_stuck loads "delivery-1" deliveries full_dispatcher counters failed_row channel
      "{}" refl refl failed_known refl channel_known refl

room :
    (free_dispatcher.queue.maxsize ≡ 0)
    ⊎ (length free_dispatcher.queue.items
          + length (
              jobs_from ids "alert.created" "alert-1" empty "CRITICAL" 0
                (Dict.values free_dispatcher.channels))
        ≤ free_dispatcher.queue.maxsize)
unfolding rank_or
room = inr (omega arith)

enqueue_selection_example :
    ((enqueue ids 0 "alert.created" "alert-1" empty "CRITICAL" free_dispatcher counters).0 ≡ ok tt)
    × ((enqueue ids 0 "alert.created" "alert-1" empty "CRITICAL" free_dispatcher
          counters).1.queue.items
        ≡ free_dispatcher.queue.items
          ++ jobs_from ids "alert.created" "alert-1" empty "CRITICAL" 0
              (Dict.values free_dispatcher.channels))
    × ((enqueue ids 0 "alert.created" "alert-1" empty "CRITICAL" free_dispatcher
          counters).1.dropped_jobs
        ≡ free_dispatcher.dropped_jobs)
enqueue_selection_example =
    enqueue_selection ids "alert.created" "alert-1" empty "CRITICAL" 0 free_dispatcher counters refl
      room

-- the first attempt is answered 503, the second one raises, the third one is answered 204
abbrev answers : ℕ → Response
answers n = if n == 1 then status 503 else if n == 2 then exception "timeout" else status 204

abbrev itself : String → String
itself s = s

abbrev http_error : ℕ → String
http_error n = "HTTP error"

abbrev clock : ℕ → ℕ
clock n = 1000 + n

abbrev retrying_row : NotificationDelivery
retrying_row = delivery_with "pending"

abbrev pending_deliveries : Table
pending_deliveries = ("delivery-1", retrying_row) ∷ []

pending_known : Dict.get job.delivery_id pending_deliveries ≡ some retrying_row
unfolding Dict.get
pending_known = refl

deliver-ending_example :
    (row : NotificationDelivery) × (Dict.get job.delivery_id
        (deliver itself itself http_error answers clock (suc 2) job pending_deliveries counters).0
      ≡ some row)
    × (row.status ≡ (ending answers (suc 2) 1).0)
    × (row.attempts ≡ retrying_row.attempts + (ending answers (suc 2) 1).1)
    × ((deliver itself itself http_error answers clock (suc 2) job pending_deliveries counters).2
        ≡ (ending answers (suc 2) 1).1)
    × (1 ≤ (ending answers (suc 2) 1).1)
    × ((ending answers (suc 2) 1).1 ≤ suc 2)
deliver-ending_example =
    deliver-ending itself itself http_error answers clock 2 job pending_deliveries counters
      retrying_row pending_known refl refl

abbrev silent : Runtime ℕ String
silent = manager_with (dispatcher_of false [])

abbrev blocked : Runtime ℕ String
blocked = manager_with full_dispatcher

-- the same with a writer of the alerts that has room
abbrev lossy : Runtime ℕ String
lossy = record blocked { alert_persistence = some (record (create 5) { running = true }) }

only_open : Dict.Each IsOpen blocked.active_alerts
only_open = (refl, tt)

history_fits : length blocked.history ≤ blocked.max_history_size
history_fits = omega arith

alerts_fit : length blocked.alerts ≤ max_alerts
alerts_fit = omega arith

process_event-Bounded_example :
    let s' = (process_event surroundings hot true blocked).1 in
    (length s'.history ≤ s'.max_history_size)
    × (length s'.alerts ≤ max_alerts)
    × Dict.Each IsOpen s'.active_alerts
process_event-Bounded_example =
    process_event-Bounded surroundings hot true blocked only_open history_fits alerts_fit

process_event_returns_example :
    ((process_event surroundings hot true silent).0 ≡ ok tt)
    × ((process_event surroundings hot true silent).1.dispatcher.enabled ≡ false)
process_event_returns_example =
    process_event_returns surroundings hot true silent only_open history_fits alerts_fit refl

abbrev opening : RuleTransition ℕ
opening = record { alert = first_alert; action = Action.created }

wanted :
    some_wants "alert.created"
      (severity_value opening.alert.severity)
      (Dict.values lossy.dispatcher.channels)
    ≡ true
unfolding rank_or
wanted = refl

created_transition_lost_example :
    ((apply_rule_transition surroundings opening lossy).0 ≡ raised name_error)
    × ((apply_rule_transition surroundings opening lossy).1.alert_persistence
        ≡ lossy.alert_persistence)
    × ((a : Alert ℕ) × (Dict.get
            (rule_key opening.alert)
            (apply_rule_transition surroundings opening lossy).1.active_alerts
          ≡ some a)
        × (a.id ≡ opening.alert.id))
created_transition_lost_example =
    created_transition_lost surroundings opening lossy refl refl refl wanted

abbrev website : SyntheticCheck
website = record { id = "website"; name = "Website"; service_id = none; expected_status = 200 }

-- the monitor of a process that has made no run yet
abbrev new_monitor : SyntheticMonitor ℕ String
new_monitor = record { consecutive_failures = []; manager = silent }

-- a heartbeat of something else
abbrev bumped : SyntheticMonitor ℕ String → SyntheticMonitor ℕ String
bumped m = record m {
  manager = record m.manager { metrics = increment "http_requests_total" 1 m.manager.metrics };
}

abbrev outage : List (Happening ℕ String)
outage =
    ran 300 12 (Synthetic.status 200)
    ∷ ran 360 12 (Synthetic.status 500)
    ∷ meanwhile bumped
    ∷ ran 420 12 (Synthetic.failure "timeout")
    ∷ []

outage-Apart : All (Apart website) outage
outage-Apart = (tt, (tt, ((λ m. (refl, refl)), (tt, tt))))

uncounted : counted_failures surroundings 2 website none new_monitor ≡ 0
unfolding Dict.get
uncounted = refl

unseen : has_alert website new_monitor.manager ≡ leb 2 0
unfolding Dict.get
unseen = refl

run_all-Tracks_example :
    has_alert website (run_all surroundings 2 website none outage new_monitor).manager
    ≡ leb 2 (trailing website 0 outage)
run_all-Tracks_example =
    run_all-Tracks surroundings 2 website none outage 0 new_monitor (omega arith) outage-Apart
      uncounted unseen
