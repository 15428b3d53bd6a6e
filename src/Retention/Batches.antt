-- ===== src/Retention/Batches.antt =====
-- What a run of the retention deletes.
use telemetry_backend.Prelude.{
  ℕ, zero, suc, ◌-◌, ◌*◌, ◌≤◌, ◌≡◌, refl, true, not, List, [], ◌∷◌, nat_eq, ◌==◌, if◌then◌else◌,
  min, count_if, keep, arith, some,
}
use telemetry_backend.Metrics.{Metrics, increment}
use telemetry_backend.Tables.{TelemetryRecord}
use telemetry_backend.Retention.{
  TelemetryRetentionService, is_expired, delete_batch, delete_batches, run_once, cutoff_at,
}

module _ {F : Type 0} (cutoff : ℕ) where
  -- the number of expired rows, and the rows that are to stay
  abbrev pub expired : List (TelemetryRecord F) → ℕ
  expired table = count_if (is_expired cutoff) table

  abbrev pub current : List (TelemetryRecord F) → List (TelemetryRecord F)
  current table = keep (λ r. not (is_expired cutoff r)) table

  delete_batch-expired :
      (room : ℕ) (table : List (TelemetryRecord F))
      → (expired (delete_batch cutoff room table).0 ≡ expired table - room)
        × ((delete_batch cutoff room table).1 ≡ min (expired table) room)
  unfolding delete_batch
  delete_batch-expired zero table = (omega arith, omega arith)
  delete_batch-expired (suc room) [] = (omega arith, omega arith)
  delete_batch-expired (suc room) (r ∷ table) =
      let (a, b) = delete_batch-expired room table in
      let (c, d) = delete_batch-expired (suc room) table in
      (ground (arith, a, c), ground (arith, b, d))

  delete_batch-current :
      (room : ℕ) (table : List (TelemetryRecord F))
      → current (delete_batch cutoff room table).0 ≡ current table
  unfolding delete_batch
  delete_batch-current zero table = refl
  delete_batch-current (suc room) [] = refl
  delete_batch-current (suc room) (r ∷ table) =
      ground (arith, delete_batch-current room table, delete_batch-current (suc room) table)

  delete_batches-expired :
      (batch_size batches : ℕ) (table : List (TelemetryRecord F))
      → 1 ≤ batch_size
      → (expired (delete_batches cutoff batch_size batches table).0
          ≡ expired table - batches * batch_size)
        × ((delete_batches cutoff batch_size batches table).1
            ≡ min (expired table) (batches * batch_size))
        × (current (delete_batches cutoff batch_size batches table).0 ≡ current table)
  unfolding delete_batches
  delete_batches-expired batch_size zero table positive = (omega arith, omega arith, refl)
  delete_batches-expired batch_size (suc batches) table positive =
      let (a, b) = delete_batch-expired batch_size table in
      let c = delete_batch-current batch_size table in
      let (x, y, z) =
        delete_batches-expired batch_size batches (delete_batch cutoff batch_size table).0
          positive in
      (ground (arith, a, b, x), ground (arith, a, b, y), ground (arith, c, z))

abbrev counted : ℕ → Metrics → Metrics
counted deleted m =
    let m' = increment "telemetry_retention_runs_total" 1 m in
    if deleted == 0 then m' else increment "telemetry_retention_deleted_total" deleted m'

module _ {F : Type 0} where
  run_once_enabled :
      (now : ℕ) (table : List (TelemetryRecord F)) (s : TelemetryRetentionService) (m : Metrics)
      → s.enabled ≡ true
      → run_once now table s m ≡ (
          let (left, deleted) =
            delete_batches (cutoff_at now s) s.batch_size s.max_batches_per_run table in
          (
            (deleted, left),
            record s { last_run_at = some now; last_deleted = deleted },
            counted deleted m,
          ))
  unfolding run_once
  run_once_enabled now table s m on = ground arith

  -- A run of an enabled service, with batches of at least one row, deletes as many expired rows as there
  -- are, but no more than its batches hold, reports their number, and keeps every row that is not
  -- expired, in the order of the table.
  pub run_once-delete_batches :
      (now : ℕ) (table : List (TelemetryRecord F)) (s : TelemetryRetentionService) (m : Metrics)
      → s.enabled ≡ true
      → 1 ≤ s.batch_size
      → (expired (cutoff_at now s) (run_once now table s m).0.1
          ≡ expired (cutoff_at now s) table - s.max_batches_per_run * s.batch_size)
        × ((run_once now table s m).0.0
            ≡ min (expired (cutoff_at now s) table) (s.max_batches_per_run * s.batch_size))
        × (current (cutoff_at now s) (run_once now table s m).0.1 ≡ current (cutoff_at now s) table)
        × ((run_once now table s m).1.last_deleted ≡ (run_once now table s m).0.0)
  run_once-delete_batches now table s m on positive =
      let (a, b, c) =
        delete_batches-expired (cutoff_at now s) s.batch_size s.max_batches_per_run table
          positive in
      let e = run_once_enabled now table s m on in (rw e a, rw e b, rw e c, rw e refl)
