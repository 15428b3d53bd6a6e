-- ===== src/Retention.antt =====
-- app/services/telemetry_retention.py: `run_once` and `_delete_batch`. The table is the list of its
-- rows in the order of the SELECT, by timestamp and id; instants are microseconds. That a transaction raises is
-- not modelled, and neither is the task that repeats the run.
pub mod Batches
use telemetry_backend.Prelude.{
  ℕ, zero, suc, ◌+◌, ◌-◌, ◌*◌, Option, some, Bool, true, false, not, List, [], ◌∷◌, ltb, nat_eq,
  ◌==◌, if◌then◌else◌,
}
use telemetry_backend.Metrics.{Metrics, increment}
use telemetry_backend.Tables.{TelemetryRecord}

pub record TelemetryRetentionService : Type 0 where
  pub enabled : Bool
  pub retention_hours : ℕ
  pub batch_size : ℕ
  pub max_batches_per_run : ℕ
  pub last_run_at : Option ℕ
  pub last_deleted : ℕ

abbrev pub hour : ℕ
hour = 3_600_000_000

-- before the year 1970 there is no row, so a cutoff that is earlier may read 0
abbrev pub cutoff_at : ℕ → TelemetryRetentionService → ℕ
cutoff_at now s = now - s.retention_hours * hour

module _ {F : Type 0} where
  abbrev pub is_expired : ℕ → TelemetryRecord F → Bool
  is_expired cutoff r = ltb r.timestamp cutoff

  -- `_delete_batch`: the first `batch_size` rows that are expired go; the rows left and their number
  unfoldable pub delete_batch : ℕ → ℕ → List (TelemetryRecord F) → List (TelemetryRecord F) × ℕ
  delete_batch cutoff zero table = (table, 0)
  delete_batch cutoff (suc room) [] = ([], 0)
  delete_batch cutoff (suc room) (r ∷ table) = elim (is_expired cutoff r) [
    | true ↦ let (rest, n) = delete_batch cutoff room table in (rest, n + 1)
    | false ↦ let (rest, n) = delete_batch cutoff (suc room) table in (r ∷ rest, n)
  ]

  -- the loop of `run_once`, for at most `batches` batches
  unfoldable pub delete_batches :
      ℕ → ℕ → ℕ → List (TelemetryRecord F) → List (TelemetryRecord F) × ℕ
  delete_batches cutoff batch_size zero table = (table, 0)
  delete_batches cutoff batch_size (suc batches) table =
      let (left, n) = delete_batch cutoff batch_size table in
      let (rest, more) = delete_batches cutoff batch_size batches left in
      if n == 0 then (left, 0) else if ltb n batch_size then (left, n) else (rest, n + more)

  unfoldable pub run_once :
      ℕ
      → List (TelemetryRecord F)
      → TelemetryRetentionService
      → Metrics
      → (ℕ × List (TelemetryRecord F)) × TelemetryRetentionService × Metrics
  unfolding delete_batches
  run_once now table s m =
      if not s.enabled
      then ((0, table), s, m)
      else let (left, deleted) =
          delete_batches (cutoff_at now s) s.batch_size s.max_batches_per_run table in
        let m' = increment "telemetry_retention_runs_total" 1 m in
        (
          (deleted, left),
          record s { last_run_at = some now; last_deleted = deleted },
          if deleted == 0 then m' else increment "telemetry_retention_deleted_total" deleted m',
        )
