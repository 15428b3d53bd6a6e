-- ===== src/Notifications/Selection.antt =====
-- Which channels get a job for an event.
use mathlib.Core.List.{append-nil, append_assoc}
use telemetry_backend.Prelude.{
  ℕ, ◌+◌, ◌≤◌, ◌≡◌, refl, sym, ◌∙◌, ap, String, true, false, List, [], ◌∷◌, ◌++◌, arith, string_eq,
  length, length-append, Bool-cases, inl, inr, ◌⊎◌,
}
use telemetry_backend.Prelude.Dict
use telemetry_backend.Prelude.Queue.{full, put_nowait}
use telemetry_backend.Metrics.{Metrics}
use telemetry_backend.Notifications.{
  WebhookChannel, NotificationJob, NotificationDispatcher, ok, Result, wants, job_for, queue_job,
  enqueue_channels, enqueue,
}

module _ {P : Type 0} (uuid : ℕ → String) (event_type event_id : String) (payload : P)
    (severity : String) where
  -- one job for each channel that wants the event, in the order of the channels, each with a new
  -- identifier
  abbrev pub jobs_from : ℕ → List WebhookChannel → List (NotificationJob P)
  jobs_from drawn [] = []
  jobs_from drawn (c ∷ channels) =
      let here = job_for (uuid drawn) event_type event_id payload c in
      elim (wants event_type severity c) [
        | true ↦ here ∷ jobs_from (drawn + 1) channels
        | false ↦ jobs_from drawn channels
      ]

  abbrev Room : List WebhookChannel → ℕ → NotificationDispatcher P → Type 0
  Room channels drawn d =
      (d.queue.maxsize ≡ 0)
      ⊎ (length d.queue.items + length (jobs_from drawn channels) ≤ d.queue.maxsize)

  record Queued (jobs : List (NotificationJob P)) (d : NotificationDispatcher P)
      (out : Result (Unit {0}) × NotificationDispatcher P × Metrics) : Type 0 where
    returned : out.0 ≡ ok tt
    items : out.1.queue.items ≡ d.queue.items ++ jobs
    dropped : out.1.dropped_jobs ≡ d.dropped_jobs
    channels_kept : out.1.channels ≡ d.channels

  queue_job_room :
      (job : NotificationJob P) (d : NotificationDispatcher P) (m : Metrics)
      → full d.queue ≡ false
      → ((queue_job job d m).0 ≡ ok true)
        × ((queue_job job d m).1
            ≡ record d { queue = record (d.queue) { items = d.queue.items ++ job ∷ [] } })
  unfolding queue_job put_nowait
  queue_job_room job d m h = (ground arith, ground arith)

  module _ (drawn : ℕ) (c : WebhookChannel) (channels : List WebhookChannel) where
    jobs-wanted :
        wants event_type severity c ≡ true
        → jobs_from drawn (c ∷ channels)
          ≡ job_for (uuid drawn) event_type event_id payload c ∷ jobs_from (drawn + 1) channels
    jobs-wanted h = ground arith

    jobs-unwanted :
        wants event_type severity c ≡ false
        → jobs_from drawn (c ∷ channels) ≡ jobs_from drawn channels
    jobs-unwanted h = ground arith

    module _ (d : NotificationDispatcher P) (m : Metrics) where
      abbrev job : NotificationJob P
      job = job_for (uuid drawn) event_type event_id payload c

      channels-wanted :
          wants event_type severity c ≡ true
          → full d.queue ≡ false
          → enqueue_channels uuid event_type event_id payload severity drawn (c ∷ channels) d m
            ≡ enqueue_channels uuid event_type event_id payload severity
                (drawn + 1)
                channels
                (queue_job job d m).1
                (queue_job job d m).2
      unfolding enqueue_channels
      channels-wanted h room = let (queued, _) = queue_job_room job d m room in ground arith

      channels-unwanted :
          wants event_type severity c ≡ false
          → enqueue_channels uuid event_type event_id payload severity drawn (c ∷ channels) d m
            ≡ enqueue_channels uuid event_type event_id payload severity drawn channels d m
      unfolding enqueue_channels
      channels-unwanted h = ground arith

  enqueue_channels-Queued :
      (drawn : ℕ) (channels : List WebhookChannel) (d : NotificationDispatcher P) (m : Metrics)
      → Room channels drawn d
      → Queued
          (jobs_from drawn channels)
          d
          (enqueue_channels uuid event_type event_id payload severity drawn channels d m)
  unfolding enqueue_channels
  enqueue_channels-Queued drawn [] d m room = record {
    returned = refl;
    items = sym (append-nil _);
    dropped = refl;
    channels_kept = refl;
  }
  enqueue_channels-Queued drawn (c ∷ channels) d m room =
      elim (Bool-cases (wants event_type severity c)) [
        | inl yes_ ↦
            let job = job_for (uuid drawn) event_type event_id payload c in
            let jobs = jobs-wanted drawn c channels yes_ in
            let size = ap (length {A = NotificationJob P}) jobs in
            let free : full d.queue ≡ false = ground (arith, size) in
            let (_, kept) = queue_job_room job d m free in
            let ih =
              enqueue_channels-Queued (drawn + 1) channels
                (record d { queue = record (d.queue) { items = d.queue.items ++ job ∷ [] } })
                (queue_job job d m).2
                (ground (arith, size, length-append d.queue.items (job ∷ []))) in
            rw (jobs, channels-wanted drawn c channels d m yes_ free, kept)
              (record {
                returned = ih.returned;
                items =
                    ih.items
                    ∙ append_assoc d.queue.items (job ∷ []) (jobs_from (drawn + 1) channels);
                dropped = ih.dropped;
                channels_kept = ih.channels_kept;
              })
        | inr no_ ↦
            let jobs = jobs-unwanted drawn c channels no_ in
            rw (jobs, channels-unwanted drawn c channels d m no_)
              (enqueue_channels-Queued drawn channels d m
                (ground (arith, ap (length {A = NotificationJob P}) jobs)))
      ]

  enqueue_enabled :
      (drawn : ℕ) (d : NotificationDispatcher P) (m : Metrics)
      → d.enabled ≡ true
      → enqueue uuid drawn event_type event_id payload severity d m
        ≡ enqueue_channels uuid event_type event_id payload severity drawn
            (Dict.values d.channels)
            d
            m
  unfolding enqueue
  enqueue_enabled drawn d m on = ground arith

  -- While the queue has room for them, or is not bounded, `_enqueue` returns and puts exactly one job
  -- behind the queue for each channel whose event types hold the event's and whose minimal severity
  -- the event reaches, in the order of the channels; nothing is dropped.
  pub enqueue_selection :
      (drawn : ℕ) (d : NotificationDispatcher P) (m : Metrics)
      → d.enabled ≡ true
      → (d.queue.maxsize ≡ 0)
        ⊎ (length d.queue.items + length (jobs_from drawn (Dict.values d.channels))
            ≤ d.queue.maxsize)
      → ((enqueue uuid drawn event_type event_id payload severity d m).0 ≡ ok tt)
        × ((enqueue uuid drawn event_type event_id payload severity d m).1.queue.items
            ≡ d.queue.items ++ jobs_from drawn (Dict.values d.channels))
        × ((enqueue uuid drawn event_type event_id payload severity d m).1.dropped_jobs
            ≡ d.dropped_jobs)
  enqueue_selection drawn d m on room =
      let q = enqueue_channels-Queued drawn (Dict.values d.channels) d m room in
      let e = enqueue_enabled drawn d m on in (rw e q.returned, rw e q.items, rw e q.dropped)
