-- ===== src/Incidents/Storage/Blocked.antt =====
-- app/services/incident_engine.py: the worker of IncidentPersistence over the database, together with the
-- other threads: calls of `enqueue`, and the writer of the alert rows.
use telemetry_backend.Prelude.{
  ℕ, ◌≡◌, refl, ◌≢◌, String, Bool, not, Option, none, some, List, [], ◌∷◌, string_eq, ==_iff,
  if◌then◌else◌, arith, All, ◌∙◌, if_both,
}
use telemetry_backend.Prelude.Queue.{put_nowait, get_nowait}
use telemetry_backend.Prelude.Dict
use telemetry_backend.Metrics.{Metrics}
use telemetry_backend.Persistence.{enqueue, worker_turn, loop_pass, fill, write}
use telemetry_backend.Persistence.Alerts.{AlertRecord}
use telemetry_backend.Incidents.{IncidentPersistenceEvent, IncidentPersistence}
use telemetry_backend.Incidents.Storage.{Database, persist, link_alert}

pub record Writer (F : Type 0) : Type 0 where
  pub worker : IncidentPersistence
  pub database : Database F
  pub metrics : Metrics

-- a call of `enqueue`, a pass of the loop of `_worker` (if its task runs) at a time, with what the database does with its
-- transaction, and an alert row that is written
pub data Step (F : Type 0) : Type 0 where
  enqueued : IncidentPersistenceEvent → Step F
  passed : Bool → ℕ → Step F
  alert_written : AlertRecord F → Step F

-- the item of the next pass
unfoldable pub next_item : IncidentPersistence → Option IncidentPersistenceEvent
next_item w = elim w.retry [
  | none ↦ elim w.queue.items [ [] ↦ none | x ∷ rest ↦ some x ]
  | some batch ↦ elim batch [ [] ↦ none | x ∷ rest ↦ some x ]
]

module _ (event : IncidentPersistenceEvent) where
  turn-next :
      (w : IncidentPersistence)
      → next_item w ≡ some event
      → (next_item (worker_turn 1 none w).0 ≡ some event)
        × ((worker_turn 1 none w).0.persisted_events ≡ w.persisted_events)
  unfolding next_item worker_turn loop_pass fill write get_nowait
  turn-next w e = (ground (arith, e), ground (arith, e))

  enqueue-next :
      (x : IncidentPersistenceEvent) (w : IncidentPersistence) (m : Metrics)
      → next_item w ≡ some event
      → (next_item (enqueue "incident_persistence_dropped_total" x w m).0 ≡ some event)
        × ((enqueue "incident_persistence_dropped_total" x w m).0.persisted_events
            ≡ w.persisted_events)
  unfolding next_item enqueue put_nowait
  enqueue-next x w m e = (ground (arith, e), ground (arith, e))

module _ {F : Type 0} where
  abbrev attempted : Bool → ℕ → Option IncidentPersistenceEvent → Database F → Option (Database F)
  attempted takes now none db = some db
  attempted takes now (some item) db = if takes then persist now item db else none

  unfoldable pub pass : Bool → ℕ → Writer F → Writer F
  pass takes now s =
      if not s.worker.running
      then s
      else elim (attempted takes now (next_item s.worker) s.database) [
        | none ↦ record s { worker = (worker_turn 1 none s.worker).0 }
        | some db ↦ record s { worker = (worker_turn 1 (some 1) s.worker).0; database = db }
      ]

  unfoldable pub step : Step F → Writer F → Writer F
  unfolding pass
  step (enqueued event) s =
      let (w, m) = enqueue "incident_persistence_dropped_total" event s.worker s.metrics in
      record s { worker = w; metrics = m }
  step (passed takes now) s = pass takes now s
  step (alert_written row) s = record s {
    database = record s.database { alert_records = Dict.put row.id row s.database.alert_records };
  }

  unfoldable pub run : List (Step F) → Writer F → Writer F
  unfolding step
  run [] s = s
  run (x ∷ steps) s = run steps (step x s)

  -- a step that does not write the row of the alert
  abbrev pub Without : String → Step F → Type 0
  Without id (enqueued event) = Unit {0}
  Without id (passed takes now) = Unit {0}
  Without id (alert_written row) = row.id ≢ id

  -- the worker is at an event whose alert has no row
  record Stuck (event : IncidentPersistenceEvent) (id : String) (s : Writer F) : Type 0 where
    next : next_item s.worker ≡ some event
    refers : event.alert_id ≡ some id
    absent : Dict.get id s.database.alert_records ≡ none

  -- what stays as it is
  record Same (s t : Writer F) : Type 0 where
    incidents : t.database.incidents ≡ s.database.incidents
    links : t.database.incident_alerts ≡ s.database.incident_alerts
    written : t.worker.persisted_events ≡ s.worker.persisted_events

  module _ (event : IncidentPersistenceEvent) (id : String) where
    persist_absent :
        (now : ℕ) (db : Database F)
        → event.alert_id ≡ some id
        → Dict.get id db.alert_records ≡ none
        → persist now event db ≡ none
    unfolding persist link_alert
    persist_absent now db r a = ground (arith, r, a)

    attempted_absent :
        (takes : Bool) (now : ℕ) (s : Writer F)
        → Stuck event id s
        → attempted takes now (next_item s.worker) s.database ≡ none
    attempted_absent takes now s h =
        rw h.next (ground (arith, persist_absent now s.database h.refers h.absent))

    pass-none :
        (takes : Bool) (now : ℕ) (s : Writer F)
        → Stuck event id s
        → pass takes now s ≡ (
            if not s.worker.running
            then s
            else record s { worker = (worker_turn 1 none s.worker).0 })
    unfolding pass
    pass-none takes now s h = ground (arith, attempted_absent takes now s h)

    step-Stuck :
        (x : Step F) (s : Writer F)
        → Without id x
        → Stuck event id s
        → Stuck event id (step x s) × Same s (step x s)
    unfolding step
    step-Stuck (enqueued x) s ok h =
        let (n, p) = enqueue-next event x s.worker s.metrics h.next in
        (
          record { next = n; refers = h.refers; absent = h.absent },
          record { incidents = refl; links = refl; written = p },
        )
    step-Stuck (passed takes now) s ok h =
        let (n, p) = turn-next event s.worker h.next in
        rw (pass-none takes now s h) (
          if_both (λ t. Stuck event id t × Same s t) (not s.worker.running) s
            (record s { worker = (worker_turn 1 none s.worker).0 })
            (λ _. (h, record { incidents = refl; links = refl; written = refl }))
            (λ _. (
              record { next = n; refers = h.refers; absent = h.absent },
              record { incidents = refl; links = refl; written = p },
            )))
    step-Stuck (alert_written row) s ok h = (
      record {
        next = h.next;
        refers = h.refers;
        absent =
            rw (Dict.get-put row.id id row s.database.alert_records)
              (ground (arith, ==_iff row.id id, ok, h.absent));
      },
      record { incidents = refl; links = refl; written = refl },
    )

    run-Same :
        (steps : List (Step F)) (s : Writer F)
        → All (Without id) steps
        → Stuck event id s
        → Same s (run steps s)
    unfolding run
    run-Same [] s ok h = record { incidents = refl; links = refl; written = refl }
    run-Same (x ∷ steps) s (ok, oks) h =
        let (h', one) = step-Stuck x s ok h in
        let rest = run-Same steps (step x s) oks h' in
        record {
          incidents = rest.incidents ∙ one.incidents;
          links = rest.links ∙ one.links;
          written = rest.written ∙ one.written;
        }

  -- If the event that the worker takes next refers to an alert that has no row, then no steps that leave
  -- that row unwritten, whatever the database does and whatever is enqueued meanwhile, add or change an
  -- incident, link an alert, or count a written event: all events behind it wait for good.
  pub missing_alert_blocks :
      (event : IncidentPersistenceEvent) (id : String) (steps : List (Step F)) (s : Writer F)
      → next_item s.worker ≡ some event
      → event.alert_id ≡ some id
      → Dict.get id s.database.alert_records ≡ none
      → All (Without id) steps
      → let after = run steps s in
        (after.database.incidents ≡ s.database.incidents)
        × (after.database.incident_alerts ≡ s.database.incident_alerts)
        × (after.worker.persisted_events ≡ s.worker.persisted_events)
  missing_alert_blocks event id steps s n r a ok =
      let h = run-Same event id steps s ok (record { next = n; refers = r; absent = a }) in
      (h.incidents, h.links, h.written)
