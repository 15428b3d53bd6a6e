-- ===== src/Tables.antt =====
-- The table `telemetry_records` (TelemetryRecord of app/models/db.py) with its unique constraint
-- `uq_telemetry_host_sequence`, and `INSERT … ON CONFLICT DO NOTHING RETURNING sequence` on it: a row
-- whose host and sequence are there already is passed over.
use telemetry_backend.Prelude.{
  ℕ, ◌+◌, ◌≡◌, refl, String, Bool, true, false, ◌&&◌, Option, List, [], ◌∷◌, ◌++◌, string_eq,
  nat_eq, ◌==◌, ==_iff, ==_refl, if◌then◌else◌, arith, length, length-append, elem, All, if_both,
}
use telemetry_backend.Model.{TelemetryEvent}

pub record TelemetryRecord (F : Type 0) : Type 0 where
  pub host_id : String
  pub timestamp : ℕ
  pub sequence : ℕ
  pub cpu : F
  pub memory : F
  pub temperature : F
  pub network_mbps : F
  pub requests_per_second : F
  pub error_rate : F
  pub latency_ms : F
  pub source : String
  pub agent_version : Option String

unfoldable pub row_of : {F : Type 0} → String → TelemetryEvent F → TelemetryRecord F
row_of host_id e = record {
  host_id = host_id;
  timestamp = e.timestamp;
  sequence = e.sequence;
  cpu = e.cpu;
  memory = e.memory;
  temperature = e.temperature;
  network_mbps = e.network_mbps;
  requests_per_second = e.requests_per_second;
  error_rate = e.error_rate;
  latency_ms = e.latency_ms;
  source = e.source;
  agent_version = e.agent_version;
}

module _ {F : Type 0} where
  abbrev pub same_key : String → ℕ → TelemetryRecord F → Bool
  same_key host_id sequence r = (r.host_id == host_id) && (r.sequence == sequence)

  unfoldable pub has_row : String → ℕ → List (TelemetryRecord F) → Bool
  has_row host_id sequence [] = false
  has_row host_id sequence (r ∷ table) =
      let rest = has_row host_id sequence table in
      if same_key host_id sequence r then true else rest

  -- the table afterwards, and the sequences of the rows that were inserted
  unfoldable pub insert_ignore :
      List (TelemetryRecord F) → List (TelemetryRecord F) → List (TelemetryRecord F) × List ℕ
  insert_ignore table [] = (table, [])
  insert_ignore table (r ∷ rows) =
      let known = has_row r.host_id r.sequence table in
      let (table', inserted) = insert_ignore (if known then table else table ++ r ∷ []) rows in
      (table', if known then inserted else r.sequence ∷ inserted)

  pub has_row-append :
      (h : String) (s : ℕ) (table : List (TelemetryRecord F)) (r : TelemetryRecord F)
      → has_row h s (table ++ r ∷ []) ≡ (if has_row h s table then true else same_key h s r)
  unfolding has_row
  has_row-append h s [] r = ground arith
  has_row-append h s (t ∷ table) r = ground (arith, has_row-append h s table r)

  -- no two rows have the same host and sequence
  abbrev pub Unique : List (TelemetryRecord F) → Type 0
  Unique [] = Unit {0}
  Unique (r ∷ table) = (has_row r.host_id r.sequence table ≡ false) × Unique table

  Unique-append :
      (table : List (TelemetryRecord F)) (r : TelemetryRecord F)
      → Unique table
      → has_row r.host_id r.sequence table ≡ false
      → Unique (table ++ r ∷ [])
  unfolding has_row
  Unique-append [] r u h = (refl, tt)
  Unique-append (t ∷ table) r u h = (
    ground (
      arith,
      has_row-append t.host_id t.sequence table r,
      u.0,
      ==_iff r.host_id t.host_id,
      ==_iff t.host_id r.host_id,
    ),
    Unique-append table r u.1 (ground arith),
  )

  -- If no two rows of the table have one host and one sequence, then the insertion leaves none, whatever
  -- the rows: those that would conflict are skipped.
  pub insert_ignore-Unique :
      (table rows : List (TelemetryRecord F)) → Unique table → Unique (insert_ignore table rows).0
  unfolding insert_ignore
  insert_ignore-Unique table [] u = u
  insert_ignore-Unique table (r ∷ rows) u =
      if_both (λ t. Unique (insert_ignore t rows).0) (has_row r.host_id r.sequence table) table
        (table ++ r ∷ []) (λ _. insert_ignore-Unique table rows u)
        (λ new. insert_ignore-Unique (table ++ r ∷ []) rows (Unique-append table r u new))

  -- Exactly the rows that are counted are added.
  pub length-insert_ignore :
      (table rows : List (TelemetryRecord F))
      → length (insert_ignore table rows).0 ≡ length table + length (insert_ignore table rows).1
  unfolding insert_ignore
  length-insert_ignore table [] = omega arith
  length-insert_ignore table (r ∷ rows) = ground (
    arith,
    length-append table (r ∷ []),
    length-insert_ignore table rows,
    length-insert_ignore (table ++ r ∷ []) rows,
  )

  -- A row that is there stays there.
  pub has_row-insert_ignore :
      (h : String) (s : ℕ) (table rows : List (TelemetryRecord F))
      → has_row h s table ≡ true
      → has_row h s (insert_ignore table rows).0 ≡ true
  unfolding insert_ignore
  has_row-insert_ignore h s table [] e = e
  has_row-insert_ignore h s table (r ∷ rows) e = ground (
    arith,
    has_row-append h s table r,
    has_row-insert_ignore h s table rows,
    has_row-insert_ignore h s (table ++ r ∷ []) rows,
  )

  -- Every offered row is there afterwards.
  pub has_row-insert_ignore_rows :
      (h : String) (s : ℕ) (table rows : List (TelemetryRecord F))
      → has_row h s rows ≡ true
      → has_row h s (insert_ignore table rows).0 ≡ true
  unfolding insert_ignore has_row
  has_row-insert_ignore_rows h s table [] e = absurd (ground arith)
  has_row-insert_ignore_rows h s table (r ∷ rows) e = ground (
    arith,
    has_row-append h s table r,
    ==_iff r.host_id h,
    ==_iff r.sequence s,
    ==_refl r.host_id,
    ==_refl r.sequence,
    has_row-insert_ignore h s table rows,
    has_row-insert_ignore h s (table ++ r ∷ []) rows,
    has_row-insert_ignore_rows h s table rows,
    has_row-insert_ignore_rows h s (table ++ r ∷ []) rows,
  )

  -- A sequence is returned only for a row that was not there, if all rows are of one host.
  pub inserted_new :
      (h : String) (s : ℕ) (table rows : List (TelemetryRecord F))
      → All (λ r. r.host_id ≡ h) rows
      → elem s (insert_ignore table rows).1 ≡ true
      → has_row h s table ≡ false
  unfolding insert_ignore
  inserted_new h s table [] same e = absurd (ground arith)
  inserted_new h s table (r ∷ rows) (one, same) e = ground (
    arith,
    has_row-append h s table r,
    ==_iff s r.sequence,
    inserted_new h s table rows same,
    inserted_new h s (table ++ r ∷ []) rows same,
  )

  -- Rows that are all there already change nothing.
  pub insert_ignore_known :
      (table rows : List (TelemetryRecord F))
      → All (λ r. has_row r.host_id r.sequence table ≡ true) rows
      → insert_ignore table rows ≡ (table, [])
  unfolding insert_ignore
  insert_ignore_known table [] h = refl
  insert_ignore_known table (r ∷ rows) h = ground (arith, h.0, insert_ignore_known table rows h.1)
