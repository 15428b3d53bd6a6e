-- ===== src/Slo/Counts.antt =====
-- What the counts of an evaluation are.
use telemetry_backend.Prelude.{
  ℕ, ◌+◌, ◌≤◌, ◌≡◌, Bool, some, List, [], ◌∷◌, keep, count_if, length, arith, Option-cases, inl,
  inr,
}
use telemetry_backend.Prelude.Float.{Float}
use telemetry_backend.Model.{metric_of}
use telemetry_backend.Tables.{TelemetryRecord}
use telemetry_backend.Slo.{Slo, SloStatus, in_window, is_good, evaluate, metric_column}

count_if-le : {A : Type 0} (p : A → Bool) (xs : List A) → count_if p xs ≤ length xs
count_if-le p [] = omega arith
count_if-le p (x ∷ xs) = ground (arith, count_if-le p xs)

module _ {F : Type 0} ⦃fl : Float F⦄ (round4 : F → F) where
  -- An evaluation that succeeds counts the rows of the host within the window, and each of them is good
  -- or bad.
  pub evaluate-counts :
      (slo : Slo F) (now : ℕ) (table : List (TelemetryRecord F)) (s : SloStatus F)
      → evaluate round4 slo now table ≡ some s
      → (s.total_samples ≡ length (keep (in_window round4 slo now) table))
        × (s.good_samples + s.bad_samples ≡ s.total_samples)
  unfolding evaluate
  evaluate-counts slo now table s e = elim (Option-cases (metric_of slo.metric)) [
    | inl n ↦ absurd (ground (arith, e, n))
    | inr (m, found) ↦ elim (Option-cases (is_good round4 slo.operator slo.threshold)) [
      | inl n ↦ absurd (ground (arith, e, found, n))
      | inr (good, same) ↦
          let rows = keep (in_window round4 slo now) table in
          (
            ground (arith, e, found, same),
            ground (arith, e, found, same, count_if-le (λ r. good (metric_column m r)) rows),
          )
    ]
  ]
