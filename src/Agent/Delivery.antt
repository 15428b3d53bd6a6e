-- ===== src/Agent/Delivery.antt =====
-- No sample is lost while the loop runs, and what ends the loop.
use telemetry_backend.Prelude.{ℕ, ◌≡◌, false, List, [], ◌∷◌, ◌++◌, map, nat_eq, arith, ◌⊎◌}
use telemetry_backend.Agent.{Answer, Flushed, left_over, rejected, status_error, Agent, pass, run}

module _ {A : Type 0} where
  -- A flush leaves nothing, or leaves all, or raises.
  Leaves : List A → Flushed A → Type 0
  Leaves events f =
      ((f ≡ left_over []) ⊎ (f ≡ left_over events)) ⊎ ((f ≡ rejected) ⊎ (f ≡ status_error))

  -- delivered, then pending
  abbrev kept : Agent A → List A
  kept a = a.delivered ++ a.pending

  samples : List (A × (ℕ → Answer)) → List A
  samples passes = map (λ p. p.0) passes

  pub run-on :
      (sample : A) (answer : ℕ → Answer) (passes : List (A × (ℕ → Answer))) (a : Agent A)
      → a.stopped ≡ false
      → run ((sample, answer) ∷ passes) a ≡ run passes (pass sample answer a)
  unfolding run
  run-on sample answer passes a h = ground arith
