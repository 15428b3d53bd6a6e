-- ===== src/Persistence/Drain.antt =====
-- A writer that is asked to stop writes what it holds and ends, if the database works.
use telemetry_backend.Prelude.{ℕ, zero, suc, ◌<◌, ◌≡◌, true, false, none, some, [], length, ◌⊎◌}
use telemetry_backend.Persistence.{Worker, worker_turn}
use telemetry_backend.Persistence.Order.{pending}

-- the passes that the worker's state calls for: one for a batch kept for a retry, and at most one for
-- each item of the queue
abbrev pub work {ℓ} : {A : Type ℓ} → Worker A → ℕ
work w = elim w.retry [ none ↦ length w.queue.items | some _ ↦ suc (length w.queue.items) ]

module _ {ℓ} {A : Type ℓ} (batch_size n : ℕ) where
  -- passes in which every transaction succeeds
  pub drain : ℕ → Worker A → Worker A
  drain zero w = w
  drain (suc k) w = drain k (worker_turn batch_size (some n) w).0

  -- a stopping worker ends, or runs on with less to do
  Progress : Worker A → Worker A → Type ℓ
  Progress w w' =
      ((w'.stopping ≡ true) × (w'.running ≡ true) × (work w' < work w))
      ⊎ ((w'.running ≡ false) × (pending w' ≡ []))

  -- the worker ended with nothing pending
  abbrev Ended : Worker A → Type ℓ
  Ended w = (w.running ≡ false) × (pending w ≡ [])
