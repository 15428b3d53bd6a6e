-- ===== src/Notifications/Overflow.antt =====
-- What a full queue does to the callers.
use telemetry_backend.Prelude.{
  ◌+◌, ◌≡◌, refl, String, true, false, Option, none, some, arith, string_eq, ◌==◌,
}
use telemetry_backend.Prelude.Dict
use telemetry_backend.Prelude.Queue.{full, put_nowait}
use telemetry_backend.Metrics.{Metrics, increment}
use telemetry_backend.Notifications.{
  WebhookChannel, NotificationJob, NotificationDispatcher, NotificationDelivery, Table, ok, raised,
  name_error, queue_job, retry_delivery, job_of_row,
}

abbrev requeued : NotificationDelivery → NotificationDelivery
requeued row = record row { status = "pending"; last_error = none; last_status_code = none }

module _ {P : Type 0} where
  -- On a full queue a job is dropped and counted, and the call raises NameError: the warning names a
  -- variable that the method does not have. So `False`, which the callers test, is never returned.
  pub queue_job-full :
      (job : NotificationJob P) (d : NotificationDispatcher P) (m : Metrics)
      → full d.queue ≡ true
      → queue_job job d m ≡ (
        raised name_error,
        record d { dropped_jobs = d.dropped_jobs + 1 },
        increment "notification_dropped_total" 1 m,
      )
  unfolding queue_job put_nowait
  queue_job-full job d m h = ground arith

  retry_delivery-full :
      (loads : String → Option P) (id : String) (db : Table) (d : NotificationDispatcher P)
      (m : Metrics) (row : NotificationDelivery) (channel : WebhookChannel) (payload : P)
      → d.enabled ≡ true
      → full d.queue ≡ true
      → Dict.get id db ≡ some row
      → (row.status == "failed") ≡ true
      → Dict.get row.channel_id d.channels ≡ some channel
      → loads row.payload ≡ some payload
      → ((retry_delivery loads id db d m).0.0 ≡ raised name_error)
        × ((retry_delivery loads id db d m).0.1.queue ≡ d.queue)
        × ((retry_delivery loads id db d m).1 ≡ Dict.put id (requeued row) db)
  unfolding retry_delivery
  retry_delivery-full loads id db d m row channel payload on no_room found failed known loaded =
      let q = queue_job-full (job_of_row payload (requeued row)) d m no_room in
      (ground arith, ground arith, ground arith)

  retry_delivery_pending :
      (loads : String → Option P) (id : String) (db : Table) (d : NotificationDispatcher P)
      (m : Metrics) (row : NotificationDelivery)
      → Dict.get id db ≡ some row
      → (row.status == "failed") ≡ false
      → (retry_delivery loads id db d m).0.0 ≡ ok false
  unfolding retry_delivery
  retry_delivery_pending loads id db d m row found other = ground arith

  -- A failed delivery that is retried while the queue is full, with its channel known and its payload
  -- readable, is left "pending" without a job: the call raises NameError and leaves the queue as it was,
  -- and the transaction that would set the row back to "failed" is never reached. A second retry is
  -- then refused, since the row is no longer "failed".
  pub retry_delivery_stuck :
      (loads : String → Option P) (id : String) (db : Table) (d : NotificationDispatcher P)
      (m : Metrics) (row : NotificationDelivery) (channel : WebhookChannel) (payload : P)
      → d.enabled ≡ true
      → full d.queue ≡ true
      → Dict.get id db ≡ some row
      → row.status ≡ "failed"
      → Dict.get row.channel_id d.channels ≡ some channel
      → loads row.payload ≡ some payload
      → ((retry_delivery loads id db d m).0.0 ≡ raised name_error)
        × ((retry_delivery loads id db d m).0.1.queue ≡ d.queue)
        × ((stuck : NotificationDelivery) × (Dict.get id (retry_delivery loads id db d m).1
              ≡ some stuck)
            × (stuck.status ≡ "pending"))
        × ((retry_delivery loads id (retry_delivery loads id db d m).1 d m).0.0 ≡ ok false)
  retry_delivery_stuck loads id db d m row channel payload on no_room found failed known loaded =
      let (raises, same, left) =
        retry_delivery-full loads id db d m row channel payload on no_room found (rw failed) known
          loaded in
      let e = Dict.get-put_self id (requeued row) db in
      (
        raises,
        same,
        (requeued row, rw left e, refl),
        rw left (
            retry_delivery_pending loads id (Dict.put id (requeued row) db) d m (requeued row) e
              refl),
      )
