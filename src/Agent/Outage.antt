-- ===== src/Agent/Outage.antt =====
-- What an outage of the server does to the agent.
use telemetry_backend.Prelude.{
  ℕ, ◌+◌, ◌≤◌, ◌≡◌, refl, ◌∙◌, ap, true, false, List, [], ◌∷◌, ◌++◌, map, nat_eq, if◌then◌else◌,
  leb, length, arith, Bool-cases, inl, inr, length-append,
}
use mathlib.Core.List.{append-nil, append_assoc}
use telemetry_backend.Ingestion.{is_admitted}
use telemetry_backend.Agent.{
  Answer, status, transport_error, left_over, attempts, flush, Agent, create, settle, buffered,
  pass, run,
}
use telemetry_backend.Agent.Delivery.{run-on}

abbrev pub offline : ℕ → Answer
offline n = transport_error

-- what the server answers to a batch of that many events: 422 if `IngestTelemetryBatch` refuses it
abbrev pub online : ℕ → ℕ → Answer
online size n = status (if is_admitted size then 200 else 422)

module _ {A : Type 0} where
  flush-offline : (events : List A) → (flush offline events).0 ≡ left_over events
  unfolding flush attempts
  flush-offline events = refl

  settle-left_over :
      (before : List A) (x : A) (a : Agent A)
      → settle (left_over (before ++ x ∷ [])) a ≡ record a { pending = before ++ x ∷ [] }
  unfolding settle
  settle-left_over [] x a = refl
  settle-left_over (y ∷ before) x a = refl

  pass-offline : (x : A) (a : Agent A) → pass x offline a ≡ buffered x a
  unfolding pass
  pass-offline x a = elim (Bool-cases (leb a.batch_size (length (buffered x a).pending))) [
    | inl full ↦
        ground
          (arith, flush-offline (buffered x a).pending, settle-left_over a.pending x (buffered x a))
    | inr room ↦ ground arith
  ]

  unreachable_for : List A → List (A × (ℕ → Answer))
  unreachable_for samples = map (λ x. (x, offline)) samples

  run-offline :
      (samples : List A) (a : Agent A)
      → a.stopped ≡ false
      → run (unreachable_for samples) a ≡ record a { pending = a.pending ++ samples }
  unfolding run unreachable_for
  run-offline [] a on = rw (append-nil a.pending) refl
  run-offline (x ∷ samples) a on =
      run-on x offline (unreachable_for samples) a on
      ∙ ap (run (unreachable_for samples)) (pass-offline x a)
      ∙ run-offline samples (buffered x a) on
      ∙ rw (append_assoc a.pending (x ∷ []) samples) refl

  refused :
      (x : A) (a : Agent A)
      → 250 ≤ length a.pending
      → a.batch_size ≤ 250
      → pass x (online (length a.pending + 1)) a ≡ record (buffered x a) { stopped = true }
  unfolding pass flush attempts settle
  refused x a many small = ground (arith, length-append a.pending (x ∷ []))

  -- After an outage in which the agent, of an admissible batch size, collected 250 samples or more, the
  -- first batch that reaches the server is refused and ends the loop, with nothing delivered: the buffer
  -- is sent as one batch, which is larger than the server admits.
  pub outage_ends_agent :
      (batch_size : ℕ) (samples : List A) (x : A)
      → batch_size ≤ 250
      → 250 ≤ length samples
      → let a = run (map (λ y. (y, offline)) samples) (create batch_size) in
        ((pass x (online (length samples + 1)) a).stopped ≡ true)
        × ((pass x (online (length samples + 1)) a).delivered ≡ [])
  unfolding unreachable_for
  outage_ends_agent batch_size samples x small many =
      let e = run-offline samples (create batch_size) refl in
      let r = refused x (record (create batch_size) { pending = samples }) many small in
      rw (e, r) (refl, refl)
