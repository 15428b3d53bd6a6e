-- ===== src/Ingestion/Idempotence.antt =====
-- Each host and sequence is accepted once, whatever is sent again and whatever other requests insert.
use telemetry_backend.Prelude.{
  ℕ, ◌≡◌, refl, ap, ◌∙◌, String, Bool, true, false, not, Option, List, [], ◌∷◌, ◌++◌, map, nat_eq,
  string_eq, ◌==◌, ==_iff, ==_refl, if◌then◌else◌, keep, elem, All, arith, if_both,
}
use telemetry_backend.Model.{TelemetryEvent}
use telemetry_backend.Metrics.{Metrics}
use telemetry_backend.Tables.{
  TelemetryRecord, row_of, has_row, insert_ignore, has_row-insert_ignore,
  has_row-insert_ignore_rows, inserted_new, insert_ignore_known,
}
use telemetry_backend.Ingestion.{
  IngestTelemetryEvent, IngestTelemetryBatch, Host, any_sequence, by_sequence, event_of, candidates,
  persist_batch,
}
use telemetry_backend.Ingestion.Once.{Once, Once-keep, Once-map, sequence_of, by_sequence-Once}

module _ {F : Type 0} where
  any_sequence-append :
      (s : ℕ) (xs : List (IngestTelemetryEvent F)) (i : IngestTelemetryEvent F)
      → any_sequence s (xs ++ i ∷ []) ≡ (if any_sequence s xs then true else i.sequence == s)
  any_sequence-append s [] i = ground arith
  any_sequence-append s (x ∷ xs) i = ground (arith, any_sequence-append s xs i)

  -- `setdefault` loses no sequence and adds none
  any_sequence-by_sequence :
      (s : ℕ) (acc items : List (IngestTelemetryEvent F))
      → any_sequence s (by_sequence acc items)
        ≡ (if any_sequence s acc then true else any_sequence s items)
  unfolding by_sequence
  any_sequence-by_sequence s acc [] = ground arith
  any_sequence-by_sequence s acc (i ∷ items) = ground (
    arith,
    any_sequence-by_sequence s acc items,
    any_sequence-by_sequence s (acc ++ i ∷ []) items,
    any_sequence-append s acc i,
    ==_iff i.sequence s,
  )

  any_sequence-keep :
      (host_id : String) (table : List (TelemetryRecord F)) (s : ℕ)
      (items : List (IngestTelemetryEvent F))
      → any_sequence s (keep (λ i. not (has_row host_id i.sequence table)) items)
        ≡ (if has_row host_id s table then false else any_sequence s items)
  any_sequence-keep host_id table s [] = ground arith
  any_sequence-keep host_id table s (i ∷ items) =
      ground (arith, any_sequence-keep host_id table s items, ==_iff i.sequence s)

  module _ (host_id : String) (version : Option String) where
    abbrev rows : List (IngestTelemetryEvent F) → List (TelemetryRecord F)
    rows items = map (row_of host_id) (map (event_of host_id version) items)

    has_row-rows :
        (s : ℕ) (items : List (IngestTelemetryEvent F))
        → has_row host_id s (rows items) ≡ any_sequence s items
    unfolding has_row row_of event_of
    has_row-rows s [] = refl
    has_row-rows s (i ∷ items) = ground (arith, has_row-rows s items, ==_refl host_id)

    rows-host :
        (items : List (IngestTelemetryEvent F)) → All (λ r. r.host_id ≡ host_id) (rows items)
    unfolding row_of
    rows-host [] = tt
    rows-host (i ∷ items) = (refl, rows-host items)

    -- all rows are known if all their sequences are
    rows-known :
        (table : List (TelemetryRecord F)) (items : List (IngestTelemetryEvent F))
        → ((s : ℕ) → any_sequence s items ≡ true → has_row host_id s table ≡ true)
        → All (λ r. has_row r.host_id r.sequence table ≡ true) (rows items)
    unfolding row_of event_of
    rows-known table [] h = tt
    rows-known table (i ∷ items) h = (
      h i.sequence (ground (arith, ==_refl i.sequence)),
      rows-known table items (λ s e. h s (ground arith)),
    )

  abbrev stored :
      String
      → Option String
      → List (TelemetryRecord F)
      → List (IngestTelemetryEvent F)
      → List (TelemetryRecord F) × List ℕ
  stored host_id version table items = insert_ignore table (rows host_id version items)

  module _ (snapshot table : List (TelemetryRecord F)) (host : Host)
      (payload : IngestTelemetryBatch F) (m : Metrics) where
    abbrev new_items : List (IngestTelemetryEvent F)
    new_items = candidates host.id snapshot payload

    -- the early return is what the rest would do with no candidate
    table-persist_batch :
        (persist_batch snapshot table host payload m).table
        ≡ (stored host.id payload.agent_version table new_items).0
    unfolding persist_batch
    table-persist_batch = ground (arith, insert_ignore_known table [] tt)

    accepted-persist_batch :
        (persist_batch snapshot table host payload m).accepted
        ≡ keep
            (λ e. elem e.sequence (stored host.id payload.agent_version table new_items).1)
            (map (event_of host.id payload.agent_version) new_items)
    unfolding persist_batch
    accepted-persist_batch = ground (arith, insert_ignore_known table [] tt)

    any_sequence-candidates :
        (s : ℕ)
        → any_sequence s new_items
          ≡ (if has_row host.id s snapshot then false else any_sequence s payload.events)
    unfolding candidates
    any_sequence-candidates s =
        any_sequence-keep host.id snapshot s (by_sequence [] payload.events)
        ∙ ap (λ b. if has_row host.id s snapshot then false else b)
            (any_sequence-by_sequence s [] payload.events)

  -- After a batch was accepted, every sequence of it is in the table, whether it was new, a repetition
  -- or inserted by another request meanwhile, provided that no row was deleted between the SELECT and
  -- the INSERT.
  pub persist_batch_complete :
      (snapshot table : List (TelemetryRecord F)) (host : Host) (payload : IngestTelemetryBatch F)
      (m : Metrics) (s : ℕ)
      → (has_row host.id s snapshot ≡ true → has_row host.id s table ≡ true)
      → any_sequence s payload.events ≡ true
      → has_row host.id s (persist_batch snapshot table host payload m).table ≡ true
  persist_batch_complete snapshot table host payload m s grows e =
      let items = candidates host.id snapshot payload in
      let offered = rows host.id payload.agent_version items in
      rw (table-persist_batch snapshot table host payload m) (
        ground (
          arith,
          any_sequence-candidates snapshot table host payload m s,
          has_row-rows host.id payload.agent_version s items,
          has_row-insert_ignore host.id s table offered,
          has_row-insert_ignore_rows host.id s table offered,
        ))

  keep-new :
      (p q : TelemetryEvent F → Bool) (events : List (TelemetryEvent F))
      → ((e : TelemetryEvent F) → p e ≡ true → q e ≡ false)
      → All (λ e. q e ≡ false) (keep p events)
  keep-new p q [] h = tt
  keep-new p q (e ∷ events) h =
      if_both (All (λ x. q x ≡ false)) (p e) (e ∷ keep p events) (keep p events)
        (λ yes_. (h e yes_, keep-new p q events h)) (λ _. keep-new p q events h)

  -- what holds of the sequences of some items holds of the sequences of their events
  keep-events :
      (host_id : String) (version : Option String) (p : TelemetryEvent F → Bool) (Q : ℕ → Type 0)
      (items : List (IngestTelemetryEvent F))
      → ((s : ℕ) → any_sequence s items ≡ true → Q s)
      → All (λ e. Q e.sequence) (keep p (map (event_of host_id version) items))
  unfolding event_of
  keep-events host_id version p Q [] h = tt
  keep-events host_id version p Q (i ∷ items) h =
      let rest = keep-events host_id version p Q items (λ s e. h s (ground arith)) in
      if_both (All (λ e. Q e.sequence)) (p (event_of host_id version i))
        (event_of host_id version i ∷ keep p (map (event_of host_id version) items))
        (keep p (map (event_of host_id version) items))
        (λ _. (h i.sequence (ground (arith, ==_refl i.sequence)), rest)) (λ _. rest)

  accepted-stored :
      (snapshot table : List (TelemetryRecord F)) (host : Host) (payload : IngestTelemetryBatch F)
      (m : Metrics)
      → All
          (λ e.
            has_row host.id e.sequence (persist_batch snapshot table host payload m).table ≡ true)
          (persist_batch snapshot table host payload m).accepted
  accepted-stored snapshot table host payload m =
      let items = candidates host.id snapshot payload in
      let offered = rows host.id payload.agent_version items in
      rw (accepted-persist_batch snapshot table host payload m) (
        keep-events host.id payload.agent_version _
          (λ s. has_row host.id s (persist_batch snapshot table host payload m).table ≡ true) items
          (λ s e. rw (table-persist_batch snapshot table host payload m) (
            ground (
              arith,
              has_row-rows host.id payload.agent_version s items,
              has_row-insert_ignore_rows host.id s table offered,
            ))))

  accepted-Once :
      (snapshot table : List (TelemetryRecord F)) (host : Host) (payload : IngestTelemetryBatch F)
      (m : Metrics)
      → Once
          (λ (e : TelemetryEvent F). e.sequence)
          (persist_batch snapshot table host payload m).accepted
  unfolding candidates event_of
  accepted-Once snapshot table host payload m =
      rw (accepted-persist_batch snapshot table host payload m) (
        Once-keep (λ (e : TelemetryEvent F). e.sequence) _ _
          (Once-map sequence_of (λ (e : TelemetryEvent F). e.sequence)
            (event_of host.id payload.agent_version) (λ i. refl) _
            (Once-keep sequence_of _ _ (by_sequence-Once [] payload.events tt))))

  -- The events that a batch has accepted, which are those that are handed to the alerting pipeline, have
  -- different sequences; the table held no row of the host with one of these sequences when the INSERT
  -- ran; and it holds one for each of them afterwards. So as long as no row is deleted, no event is
  -- processed twice, also if it stands twice in a batch.
  pub persist_batch-Once :
      (snapshot table : List (TelemetryRecord F)) (host : Host) (payload : IngestTelemetryBatch F)
      (m : Metrics)
      → let after = persist_batch snapshot table host payload m in
        Once (λ (e : TelemetryEvent F). e.sequence) after.accepted
        × All (λ e. has_row host.id e.sequence table ≡ false) after.accepted
        × All (λ e. has_row host.id e.sequence after.table ≡ true) after.accepted
  persist_batch-Once snapshot table host payload m =
      let items = candidates host.id snapshot payload in
      (
        accepted-Once snapshot table host payload m,
        rw (accepted-persist_batch snapshot table host payload m) (
            keep-new _ _ (map (event_of host.id payload.agent_version) items) (λ e.
              inserted_new host.id e.sequence table (rows host.id payload.agent_version items)
                (rows-host host.id payload.agent_version items))),
        accepted-stored snapshot table host payload m,
      )

  keep_none : (events : List (TelemetryEvent F)) → keep (λ e. elem e.sequence []) events ≡ []
  keep_none [] = refl
  keep_none (e ∷ events) = keep_none events

  -- A batch that is sent again after it was accepted, which an agent does when the answer was lost,
  -- accepts nothing and leaves the table as it is, whatever its SELECT sees.
  pub persist_batch_again :
      (snapshot snapshot' table : List (TelemetryRecord F)) (host host' : Host)
      (payload : IngestTelemetryBatch F) (m m' : Metrics)
      → host'.id ≡ host.id
      → ((s : ℕ) → has_row host.id s snapshot ≡ true → has_row host.id s table ≡ true)
      → ((persist_batch snapshot'
            (persist_batch snapshot table host payload m).table
            host'
            payload
            m').table
          ≡ (persist_batch snapshot table host payload m).table)
        × ((persist_batch snapshot'
              (persist_batch snapshot table host payload m).table
              host'
              payload
              m').accepted
            ≡ [])
  persist_batch_again snapshot snapshot' table host host' payload m m' same grows =
      let t = (persist_batch snapshot table host payload m).table in
      let items = candidates host'.id snapshot' payload in
      let known : insert_ignore t (rows host'.id payload.agent_version items) ≡ (t, []) =
        insert_ignore_known t (rows host'.id payload.agent_version items) (
          rows-known host'.id payload.agent_version t items (λ s e. rw same (
            persist_batch_complete snapshot table host payload m s (grows s)
              (ground (arith, any_sequence-candidates snapshot' t host' payload m' s))))) in
      (
        table-persist_batch snapshot' t host' payload m' ∙ ap (λ p. p.0) known,
        accepted-persist_batch snapshot' t host' payload m'
            ∙ ap
                (λ p.
                  keep (λ e. elem e.sequence p.1)
                    (map (event_of host'.id payload.agent_version) items))
                known
            ∙ keep_none (map (event_of host'.id payload.agent_version) items),
      )
