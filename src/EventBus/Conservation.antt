-- ===== src/EventBus/Conservation.antt =====
-- What becomes of the payloads that were accepted, over any interleaving of the threads.
use telemetry_backend.Prelude.{
  ℕ, ◌+◌, ◌≡◌, String, Bool, not, ◌&&◌, none, some, List, [], ◌∷◌, ◌++◌, string_eq, if◌then◌else◌,
  count_if, arith, Bool-cases, Option-cases, inl, inr, is_none,
}
use telemetry_backend.Prelude.Queue.{full, put_nowait, get_nowait}
use telemetry_backend.EventBus.{
  Envelope, PostgresEventBus, envelope_of, publish, take_payload, notify, give_back,
}

-- one step of a thread; the publisher takes no payload while it has one
pub data Step : Type 0 where
  offer : String → Step
  take_turn : Bool → Step
  finish : Bool → Step

-- The bus, with the payloads that were accepted, that were published, and that did not fit into the
-- queue again.
pub record Trace : Type 0 where
  pub bus : PostgresEventBus
  pub accepted : List String
  pub published : List String
  pub lost : List String

abbrev pub started : PostgresEventBus → Trace
started b = record { bus = b; accepted = []; published = []; lost = [] }

abbrev pub in_flight_list : PostgresEventBus → List String
in_flight_list b = elim b.in_flight [ none ↦ [] | some p ↦ p ∷ [] ]

module _ (dumps : Envelope → String) (encoded_size : String → ℕ) where
  unfoldable pub step : Step → Trace → Trace
  step (offer message) t =
      let (taken, b) = publish dumps encoded_size message t.bus in
      record t {
        bus = b;
        accepted = if taken then envelope_of dumps message t.bus ∷ t.accepted else t.accepted;
      }
  step (take_turn connects) t =
      if is_none t.bus.in_flight then record t { bus = take_payload connects t.bus } else t
  step (finish succeeds) t = record t {
    bus = notify succeeds t.bus;
    published = if succeeds then in_flight_list t.bus ++ t.published else t.published;
    lost = if not succeeds && full t.bus.queue then in_flight_list t.bus ++ t.lost else t.lost;
  }

  unfoldable pub run : List Step → Trace → Trace
  unfolding step
  run [] t = t
  run (s ∷ steps) t = run steps (step s t)

  module _ (p : String → Bool) where
    -- the payloads of a kind, wherever they are
    abbrev spread : Trace → ℕ
    spread t =
        count_if p t.published
        + count_if p t.bus.queue.items
        + count_if p (in_flight_list t.bus)
        + count_if p t.lost

    count_if-append : (xs ys : List String) → count_if p (xs ++ ys) ≡ count_if p xs + count_if p ys
    count_if-append [] ys = omega arith
    count_if-append (x ∷ xs) ys = omega (arith, count_if-append xs ys)

    offer-spread :
        (message : String) (t : Trace)
        → count_if p t.accepted ≡ spread t
        → count_if p (step (offer message) t).accepted ≡ spread (step (offer message) t)
    unfolding step publish put_nowait
    offer-spread message t h =
        ground (arith, h, count_if-append t.bus.queue.items (envelope_of dumps message t.bus ∷ []))

    take-spread :
        (connects : Bool) (t : Trace)
        → count_if p t.accepted ≡ spread t
        → count_if p (step (take_turn connects) t).accepted ≡ spread (step (take_turn connects) t)
    unfolding step take_payload get_nowait
    take-spread connects t h = ground (arith, h)

    finish-spread :
        (succeeds : Bool) (t : Trace)
        → count_if p t.accepted ≡ spread t
        → count_if p (step (finish succeeds) t).accepted ≡ spread (step (finish succeeds) t)
    unfolding step notify give_back put_nowait
    finish-spread succeeds t h = elim (Option-cases t.bus.in_flight) [
      | inl e ↦ ground (arith, h)
      | inr (x, e) ↦ elim (Bool-cases succeeds) [
        | inl s ↦ ground (arith, h)
        | inr s ↦ elim (Bool-cases (full t.bus.queue)) [
          | inl f ↦ ground (arith, h)
          | inr f ↦ ground (arith, h, count_if-append t.bus.queue.items (x ∷ []))
        ]
      ]
    ]

    step-spread :
        (s : Step) (t : Trace)
        → count_if p t.accepted ≡ spread t
        → count_if p (step s t).accepted ≡ spread (step s t)
    step-spread (offer message) t h = offer-spread message t h
    step-spread (take_turn connects) t h = take-spread connects t h
    step-spread (finish succeeds) t h = finish-spread succeeds t h

    run-spread :
        (steps : List Step) (t : Trace)
        → count_if p t.accepted ≡ spread t
        → count_if p (run steps t).accepted ≡ spread (run steps t)
    unfolding run
    run-spread [] t h = h
    run-spread (s ∷ steps) t h = run-spread steps (step s t) (step-spread s t h)

  -- From a bus with an empty queue and no payload in hand, through any interleaving of calls of
  -- `publish` with the two halves of the publisher's passes, and whichever connections and
  -- notifications fail: of each kind p of payload, as many were accepted as were published, wait in the
  -- queue, are in the publisher's hand, and did not fit into the queue again after a failure. So no
  -- accepted payload is published twice or lost otherwise.
  pub run-conserved :
      (p : String → Bool) (steps : List Step) (b : PostgresEventBus)
      → b.queue.items ≡ []
      → b.in_flight ≡ none
      → let after = run steps (started b) in
        count_if p after.accepted
        ≡ count_if p after.published
          + count_if p after.bus.queue.items
          + count_if p (in_flight_list after.bus)
          + count_if p after.lost
  run-conserved p steps b q f = run-spread p steps (started b) (ground (arith, q, f))
