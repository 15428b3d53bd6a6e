-- ===== src/Persistence.antt =====
-- The background writers of app/services/telemetry_persistence.py, alert_persistence.py and the class
-- IncidentPersistence of incident_engine.py: a bounded queue that never blocks the caller, and one
-- worker that writes batches and keeps a batch that failed. The two writers without batches take one
-- item at a time, which is the batch size 1. A turn of a worker that runs is one pass of its loop, with what
-- the database does as an argument: `none` if the transaction raises, otherwise the number that is
-- added to `persisted_events`. Cancelling a worker that does not drain in time is not modelled.
pub mod Order
pub mod Drain
pub mod Alerts
use telemetry_backend.Prelude.{
  ℕ, zero, suc, ◌+◌, ◌-◌, String, Bool, true, false, ◌&&◌, Option, none, some, List, [], ◌∷◌, ◌++◌,
  if◌then◌else◌,
}
use telemetry_backend.Prelude.Queue.{Queue, put_nowait, get_nowait, is_empty}
use telemetry_backend.Metrics.{Metrics, increment}

pub record Worker {ℓ} (A : Type ℓ) : Type ℓ where
  pub queue : Queue A
  pub retry : Option (List A)
  pub stopping : Bool
  pub running : Bool
  pub dropped_events : ℕ
  pub persisted_events : ℕ

abbrev pub create {ℓ} : {A : Type ℓ} → ℕ → Worker A
create max_queue_size = record {
  queue = record { maxsize = max_queue_size; items = [] };
  retry = none;
  stopping = false;
  running = false;
  dropped_events = 0;
  persisted_events = 0;
}

-- what one pass of the worker's loop did
pub data Turn {ℓ} (A : Type ℓ) : Type ℓ where
  finished waited : Turn A
  wrote : List A → Turn A
  failed : List A → Turn A

module _ {ℓ} {A : Type ℓ} where
  unfoldable pub start : Worker A → Worker A
  start w = if w.running then w else record w { stopping = false; running = true }

  -- the first statement of `stop`; what follows waits for the worker, if its task is there
  abbrev pub request_stop : Worker A → Worker A
  request_stop w = record w { stopping = true }

  -- `enqueue`, with the name of the counter of drops
  unfoldable pub enqueue : String → A → Worker A → Metrics → Worker A × Metrics
  enqueue dropped x w m = elim (put_nowait x w.queue) [
    | none ↦ (record w { dropped_events = w.dropped_events + 1 }, increment dropped 1 m)
    | some q ↦ (record w { queue = q }, m)
  ]

  -- while len(batch) < batch_size: batch.append(self._queue.get_nowait()), for `room` items more
  unfoldable pub fill : ℕ → Queue A → List A → List A × Queue A
  fill zero q batch = (batch, q)
  fill (suc room) q batch = elim (get_nowait q) [
    | none ↦ (batch, q)
    | some (x, rest) ↦ fill room rest (batch ++ x ∷ [])
  ]

  -- the transaction, and `retry_batch` if it raised
  unfoldable pub write : Option ℕ → List A → Worker A → Worker A × Turn A
  write none batch w = (record w { retry = some batch }, failed batch)
  write (some n) batch w =
      (record w { retry = none; persisted_events = w.persisted_events + n }, wrote batch)

  -- a pass of the loop of `_worker`
  unfoldable pub loop_pass : ℕ → Option ℕ → Worker A → Worker A × Turn A
  unfolding fill write
  loop_pass batch_size db w = elim w.retry [
    | some batch ↦ write db batch w
    | none ↦
        if w.stopping && is_empty w.queue
        then (record w { running = false }, finished)
        else elim (get_nowait w.queue) [
          | none ↦ (w, waited)
          | some (x, rest) ↦
              let (batch, q) = fill (batch_size - 1) rest (x ∷ []) in
              write db batch (record w { queue = q })
        ]
  ]

  -- `running` says that the task is there and has not ended: without it nothing makes a pass
  unfoldable pub worker_turn : ℕ → Option ℕ → Worker A → Worker A × Turn A
  unfolding loop_pass
  worker_turn batch_size db w = if w.running then loop_pass batch_size db w else (w, finished)
