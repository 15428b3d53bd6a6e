-- ===== src/Persistence/Order.antt =====
-- Nothing that was accepted is lost, duplicated or reordered, and what is not accepted is counted.
use mathlib.Core.List.{append_assoc, append-nil}
use telemetry_backend.Prelude.{
  ℕ, zero, suc, ◌+◌, ◌-◌, ◌≤◌, ◌≡◌, refl, sym, ap, ◌∙◌, String, Bool, true, false, Option, none,
  some, List, [], ◌∷◌, ◌++◌, length, length-append, arith, inr, if_both,
}
use telemetry_backend.Prelude.Queue.{put_nowait, get_nowait, Fits}
use telemetry_backend.Metrics.{Metrics}
use telemetry_backend.Persistence.{
  Worker, create, Turn, finished, waited, wrote, failed, start, request_stop, enqueue, fill, write,
  loop_pass, worker_turn,
}

-- what can happen to a writer: `start` is called, a caller offers an item, the worker makes a pass if
-- it runs, `stop` is called
pub data Step {ℓ} (A : Type ℓ) : Type ℓ where
  started : Step A
  offer : A → Step A
  pass : Option ℕ → Step A
  stop : Step A

-- the batch that waits for a retry, then the queue
abbrev pub pending {ℓ} : {A : Type ℓ} → Worker A → List A
pending w = elim w.retry [ none ↦ w.queue.items | some batch ↦ batch ++ w.queue.items ]

abbrev pub written_by {ℓ} : {A : Type ℓ} → Turn A → List A
written_by finished = []
written_by waited = []
written_by (wrote batch) = batch
written_by (failed _) = []

-- A writer with its history: the items offered and not dropped, and the items written, in order, and
-- the number of the items offered.
pub record Trace {ℓ} (A : Type ℓ) : Type ℓ where
  pub worker : Worker A
  pub accepted : List A
  pub written : List A
  pub offered : ℕ

-- `x` alone if the queue has room for it
abbrev accepted_of {ℓ} : {A : Type ℓ} → A → Worker A → List A
accepted_of x w = elim (put_nowait x w.queue) [ none ↦ [] | some _ ↦ x ∷ [] ]

module _ {ℓ} {A : Type ℓ} (dropped : String) (batch_size : ℕ) (m : Metrics) where
  pub step : Trace A → Step A → Trace A
  step t started = record t { worker = start t.worker }
  step t (offer x) = record t {
    worker = (enqueue dropped x t.worker m).0;
    accepted = t.accepted ++ accepted_of x t.worker;
    offered = t.offered + 1;
  }
  step t (pass db) =
      let (w, turn) = worker_turn batch_size db t.worker in
      record t { worker = w; written = t.written ++ written_by turn }
  step t stop = record t { worker = request_stop t.worker }

  pub run : Trace A → List (Step A) → Trace A
  run t [] = t
  run t (s ∷ steps) = run (step t s) steps

module _ {ℓ} {A : Type ℓ} where
  fill-items :
      (room maxsize : ℕ) (xs batch : List A)
      → (fill room (record { maxsize = maxsize; items = xs }) batch).0
          ++ (fill room (record { maxsize = maxsize; items = xs }) batch).1.items
        ≡ batch ++ xs
  unfolding fill get_nowait
  fill-items zero maxsize xs batch = refl
  fill-items (suc room) maxsize [] batch = refl
  fill-items (suc room) maxsize (x ∷ xs) batch =
      fill-items room maxsize xs (batch ++ x ∷ []) ∙ append_assoc batch (x ∷ []) xs

  pub fill-size :
      (room maxsize : ℕ) (xs batch : List A)
      → (length (fill room (record { maxsize = maxsize; items = xs }) batch).1.items ≤ length xs)
        × ((fill room (record { maxsize = maxsize; items = xs }) batch).1.maxsize ≡ maxsize)
  unfolding fill get_nowait
  fill-size zero maxsize xs batch = (omega arith, refl)
  fill-size (suc room) maxsize [] batch = (omega arith, refl)
  fill-size (suc room) maxsize (x ∷ xs) batch =
      let (le, same) = fill-size room maxsize xs (batch ++ x ∷ []) in (omega (arith, le), same)

  write-pending :
      (db : Option ℕ) (batch : List A) (w : Worker A)
      → written_by (write db batch w).1 ++ pending (write db batch w).0 ≡ batch ++ w.queue.items
  unfolding write
  write-pending none batch w = refl
  write-pending (some n) batch w = refl

  write-keeps :
      (db : Option ℕ) (batch : List A) (w : Worker A)
      → ((write db batch w).0.queue ≡ w.queue)
        × ((write db batch w).0.dropped_events ≡ w.dropped_events)
  unfolding write
  write-keeps none batch w = (refl, refl)
  write-keeps (some n) batch w = (refl, refl)

  -- what one pass writes, followed by what is then pending, was pending before
  loop_pass-pending :
      (batch_size : ℕ) (db : Option ℕ) (w : Worker A)
      → written_by (loop_pass batch_size db w).1 ++ pending (loop_pass batch_size db w).0
        ≡ pending w
  unfolding loop_pass get_nowait
  loop_pass-pending batch_size db w = go w.retry w.queue.items w.stopping
    where
      at : Option (List A) → List A → Bool → Worker A
      at retry xs stopping = record w {
        retry = retry;
        queue = record { maxsize = w.queue.maxsize; items = xs };
        stopping = stopping;
      }

      go :
          (retry : Option (List A)) (xs : List A) (stopping : Bool)
          → written_by (loop_pass batch_size db (at retry xs stopping)).1
              ++ pending (loop_pass batch_size db (at retry xs stopping)).0
            ≡ pending (at retry xs stopping)
      go (some batch) xs stopping = write-pending db batch (at (some batch) xs stopping)
      go none [] true = refl
      go none [] false = refl
      go none (x ∷ xs) true =
          write-pending db _ _ ∙ fill-items (batch_size - 1) w.queue.maxsize xs (x ∷ [])
      go none (x ∷ xs) false =
          write-pending db _ _ ∙ fill-items (batch_size - 1) w.queue.maxsize xs (x ∷ [])

  -- a pass drops nothing and lets the queue shrink only
  record Quiet (w w' : Worker A) : Type 0 where
    dropped : w'.dropped_events ≡ w.dropped_events
    maxsize : w'.queue.maxsize ≡ w.queue.maxsize
    size : length w'.queue.items ≤ length w.queue.items

  write-Quiet : (db : Option ℕ) (batch : List A) (w : Worker A) → Quiet w (write db batch w).0
  unfolding write
  write-Quiet none batch w = record { dropped = refl; maxsize = refl; size = omega arith }
  write-Quiet (some n) batch w = record { dropped = refl; maxsize = refl; size = omega arith }

  loop_pass-Quiet :
      (batch_size : ℕ) (db : Option ℕ) (w : Worker A) → Quiet w (loop_pass batch_size db w).0
  unfolding loop_pass get_nowait
  loop_pass-Quiet batch_size db w = go w.retry w.queue.items w.stopping
    where
      at : Option (List A) → List A → Bool → Worker A
      at retry xs stopping = record w {
        retry = retry;
        queue = record { maxsize = w.queue.maxsize; items = xs };
        stopping = stopping;
      }

      filled :
          (x : A) (xs : List A) (stopping : Bool)
          → Quiet
              (at none (x ∷ xs) stopping)
              (write db
                (fill
                  (batch_size - 1)
                  (record { maxsize = w.queue.maxsize; items = xs })
                  (x ∷ [])).0
                (record (at none (x ∷ xs) stopping) {
                  queue =
                      (fill
                        (batch_size - 1)
                        (record { maxsize = w.queue.maxsize; items = xs })
                        (x ∷ [])).1;
                })).0
      filled x xs stopping =
          let (le, same) = fill-size (batch_size - 1) w.queue.maxsize xs (x ∷ []) in
          let q =
            write-Quiet db
              (fill (batch_size - 1) (record { maxsize = w.queue.maxsize; items = xs }) (x ∷ [])).0
              (record (at none (x ∷ xs) stopping) {
                queue =
                    (fill (batch_size - 1) (record { maxsize = w.queue.maxsize; items = xs })
                      (x ∷ [])).1;
              }) in
          record {
            dropped = q.dropped;
            maxsize = q.maxsize ∙ same;
            size = omega (arith, q.size, le);
          }

      go :
          (retry : Option (List A)) (xs : List A) (stopping : Bool)
          → Quiet (at retry xs stopping) (loop_pass batch_size db (at retry xs stopping)).0
      go (some batch) xs stopping = write-Quiet db batch (at (some batch) xs stopping)
      go none [] true = record { dropped = refl; maxsize = refl; size = omega arith }
      go none [] false = record { dropped = refl; maxsize = refl; size = omega arith }
      go none (x ∷ xs) true = filled x xs true
      go none (x ∷ xs) false = filled x xs false

  worker_turn-pending :
      (batch_size : ℕ) (db : Option ℕ) (w : Worker A)
      → written_by (worker_turn batch_size db w).1 ++ pending (worker_turn batch_size db w).0
        ≡ pending w
  unfolding worker_turn
  worker_turn-pending batch_size db w =
      if_both (λ p. written_by p.1 ++ pending p.0 ≡ pending w) w.running (loop_pass batch_size db w)
        (w, finished) (λ _. loop_pass-pending batch_size db w) (λ _. refl)

  worker_turn-Quiet :
      (batch_size : ℕ) (db : Option ℕ) (w : Worker A) → Quiet w (worker_turn batch_size db w).0
  unfolding worker_turn
  worker_turn-Quiet batch_size db w =
      if_both (λ p. Quiet w p.0) w.running (loop_pass batch_size db w) (w, finished)
        (λ _. loop_pass-Quiet batch_size db w)
        (λ _. record { dropped = refl; maxsize = refl; size = omega arith })

  -- the history of a writer and its state agree
  pub record Kept (t : Trace A) : Type ℓ where
    pub order : t.written ++ pending t.worker ≡ t.accepted
    pub counted : length t.accepted + t.worker.dropped_events ≡ t.offered
    pub fits : Fits t.worker.queue

  enqueue-pending :
      (dropped : String) (x : A) (w : Worker A) (m : Metrics)
      → pending (enqueue dropped x w m).0 ≡ pending w ++ accepted_of x w
  unfolding enqueue put_nowait
  enqueue-pending dropped x w m = go w.retry
    where
      go :
          (retry : Option (List A))
          → pending (enqueue dropped x (record w { retry = retry }) m).0
            ≡ pending (record w { retry = retry }) ++ accepted_of x w
      go none = ground (arith, append-nil w.queue.items)
      go (some batch) =
          ground
            (arith, append-nil (batch ++ w.queue.items), append_assoc batch w.queue.items (x ∷ []))

  enqueue-counted :
      (dropped : String) (x : A) (w : Worker A) (m : Metrics)
      → length (accepted_of x w) + (enqueue dropped x w m).0.dropped_events ≡ w.dropped_events + 1
  unfolding enqueue put_nowait
  enqueue-counted dropped x w m = ground arith

  enqueue-Fits :
      (dropped : String) (x : A) (w : Worker A) (m : Metrics)
      → Fits w.queue
      → Fits (enqueue dropped x w m).0.queue
  unfolding enqueue put_nowait
  enqueue-Fits dropped x w m h = ground (arith, length-append w.queue.items (x ∷ []))

module _ {ℓ} {A : Type ℓ} (w : Worker A) where
  start-pending : pending (start w) ≡ pending w
  unfolding start
  start-pending =
      if_both (λ v. pending v ≡ pending w) w.running w
        (record w { stopping = false; running = true }) (λ _. refl) (λ _. refl)

  start-Quiet :
      ((start w).dropped_events ≡ w.dropped_events)
      × ((start w).queue.maxsize ≡ w.queue.maxsize)
      × (length (start w).queue.items ≤ length w.queue.items)
  unfolding start
  start-Quiet = ground arith

module _ {ℓ} {A : Type ℓ} (dropped : String) (batch_size : ℕ) (m : Metrics) where
  step-Kept : (t : Trace A) (s : Step A) → Kept t → Kept (step dropped batch_size m t s)
  unfolding step
  step-Kept t started k = record {
    order = ap (◌++◌ t.written) (start-pending t.worker) ∙ k.order;
    counted = omega (arith, k.counted, start-Quiet t.worker);
    fits = omega (arith, start-Quiet t.worker, k.fits);
  }
  step-Kept t (offer x) k = record {
    order =
        ap (◌++◌ t.written) (enqueue-pending dropped x t.worker m)
        ∙ sym (append_assoc t.written (pending t.worker) (accepted_of x t.worker))
        ∙ ap (λ l. l ++ accepted_of x t.worker) k.order;
    counted = omega (
      arith,
      k.counted,
      length-append t.accepted (accepted_of x t.worker),
      enqueue-counted dropped x t.worker m,
    );
    fits = enqueue-Fits dropped x t.worker m k.fits;
  }
  step-Kept t (pass db) k =
      let q = worker_turn-Quiet batch_size db t.worker in
      record {
        order =
            append_assoc t.written _ _
            ∙ ap (◌++◌ t.written) (worker_turn-pending batch_size db t.worker)
            ∙ k.order;
        counted = omega (arith, k.counted, q.dropped);
        fits = omega (arith, q.maxsize, q.size, k.fits);
      }
  step-Kept t stop k = record { order = k.order; counted = k.counted; fits = k.fits }

  run-Kept :
      (t : Trace A) (steps : List (Step A)) → Kept t → Kept (run dropped batch_size m t steps)
  unfolding run
  run-Kept t [] k = k
  run-Kept t (s ∷ steps) k = run-Kept (step dropped batch_size m t s) steps (step-Kept t s k)

  abbrev pub fresh : ℕ → Trace A
  fresh max_queue_size = record {
    worker = create max_queue_size;
    accepted = [];
    written = [];
    offered = 0;
  }

  -- For a new writer of any queue size and batch size, whatever the order of starts, offers,
  -- passes (the failing transactions among them) and stops: the items written, followed by the batch kept for a
  -- retry and the queue, are the accepted items in the order in which they were offered, each once;
  -- accepted and dropped items together are all that were offered; and a bounded queue never holds
  -- more than its bound.
  pub run-fresh-Kept :
      (max_queue_size : ℕ) (steps : List (Step A))
      → ((run dropped batch_size m (fresh max_queue_size) steps).written
            ++ pending (run dropped batch_size m (fresh max_queue_size) steps).worker
          ≡ (run dropped batch_size m (fresh max_queue_size) steps).accepted)
        × (length (run dropped batch_size m (fresh max_queue_size) steps).accepted
              + (run dropped batch_size m (fresh max_queue_size) steps).worker.dropped_events
            ≡ (run dropped batch_size m (fresh max_queue_size) steps).offered)
        × Fits (run dropped batch_size m (fresh max_queue_size) steps).worker.queue
  run-fresh-Kept max_queue_size steps =
      let k =
        run-Kept (fresh max_queue_size) steps
          (record { order = refl; counted = omega arith; fits = inr (omega arith) }) in
      (k.order, k.counted, k.fits)
