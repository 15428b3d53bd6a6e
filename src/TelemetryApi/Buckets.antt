-- ===== src/TelemetryApi/Buckets.antt =====
-- How many points a series has.
use native.Mathlib.Nat.{
  div-lt_iff_lt-mul, le-div_iff_mul-le, lt-div-mul-add, div-mul-le_self, mul-add-div_right,
  div-eq_of_lt, div-eq_of_lt-le, mod-lt, div-add-mod, mul_comm, add-mul,
}
use mathlib.Core.Path.{subst}
use telemetry_backend.Prelude.{sym, ℕ, ◌+◌, ◌-◌, ◌*◌, ◌/◌, ◌%◌, ◌≤◌, ◌<◌, ◌≡◌, ◌≢◌, ◌∙◌, ap, arith}
use telemetry_backend.Api.{replied}
use telemetry_backend.TelemetryApi.{point_count, bucket, checked_range, second}

-- over any width of the buckets
module _ (w : ℕ) (pos : 0 < w) where
  distribute : (q c : ℕ) → (q + c + 1) * w ≡ q * w + c * w + w
  distribute q c = omega arith

  div_span : (s e t : ℕ) → s ≤ t → t < e → (s / w ≤ t / w) × (t / w ≤ s / w + (e - s + (w - 1)) / w)
  div_span s e t from before =
      let q = s / w in
      let c = (e - s + (w - 1)) / w in
      let below : t < (q + c + 1) * w = omega (
        arith,
        distribute q c,
        lt-div-mul-add {a = s} {b = w} pos,
        lt-div-mul-add {a = e - s + (w - 1)} {b = w} pos,
        from,
        before,
        pos,
      ) in
      (
        (le-div_iff_mul-le pos).1 (omega (arith, div-mul-le_self s w, from)),
        omega (arith, (div-lt_iff_lt-mul pos).1 below),
      )

  -- a range of n widths that begins inside a bucket
  span_points : (s n : ℕ) → (s + n * w - s + (w - 1)) / w ≡ n
  span_points s n =
      let small : (w - 1) / w ≡ 0 = div-eq_of_lt (omega (arith, pos)) in
      let same : s + n * w - s + (w - 1) ≡ n * w + (w - 1) = omega arith in
      ap (λ (x : ℕ). x / w) same ∙ omega (arith, mul-add-div_right pos n (w - 1), small)

  span_last : (s n : ℕ) → s % w ≢ 0 → (s + n * w - 1) / w ≡ s / w + n
  span_last s n off =
      div-eq_of_lt-le w
        (omega (arith, div-add-mod s w, mul_comm w (s / w), add-mul (s / w) n w, off))
        (omega (
          arith,
          div-add-mod s w,
          mul_comm w (s / w),
          mod-lt s pos,
          distribute (s / w) n,
          off,
          pos,
        ))

checked_range-parts :
    (start end bucket_seconds s e : ℕ)
    → checked_range start end bucket_seconds ≡ replied (s, e)
    → (s ≡ start) × (e ≡ end) × (start < end) × (point_count start end bucket_seconds ≤ 5000)
unfolding checked_range
checked_range-parts start end bucket_seconds s e h =
    (ground (arith, h), ground (arith, h), ground (arith, h), ground (arith, h))

-- A row that the statement of an accepted query reads counts in one of the 5001 buckets from that of
-- the beginning of the range on: a series has at most 5001 points.
pub checked_range-bucket :
    (start end bucket_seconds s e t : ℕ)
    → 0 < bucket_seconds
    → checked_range start end bucket_seconds ≡ replied (s, e)
    → s ≤ t
    → t < e
    → (bucket bucket_seconds s ≤ bucket bucket_seconds t)
      × (bucket bucket_seconds t ≤ bucket bucket_seconds s + 5000)
checked_range-bucket start end bucket_seconds s e t pos h from before =
    let (s_start, e_end, _, points) = checked_range-parts start end bucket_seconds s e h in
    let w = bucket_seconds * second in
    let (low, high) =
      div_span w (omega (arith, pos)) start end t (omega (arith, s_start, from))
        (omega (arith, e_end, before)) in
    (
      subst (λ (x : ℕ). x / w ≤ t / w) (sym s_start) low,
      subst (λ (x : ℕ). t / w ≤ x / w + 5000) (sym s_start) (omega (arith, high, points)),
    )

-- A range of 5000 widths of a bucket that begins inside a bucket is accepted, although its first and its
-- last instant are 5000 buckets apart: such a series has 5001 points where the code means to admit 5000.
pub checked_range-exceeds :
    (start bucket_seconds : ℕ)
    → 0 < bucket_seconds
    → start % (bucket_seconds * second) ≢ 0
    → let end = start + 5000 * (bucket_seconds * second) in
      (checked_range start end bucket_seconds ≡ replied (start, end))
      × (bucket bucket_seconds (end - 1) ≡ bucket bucket_seconds start + 5000)
unfolding checked_range
checked_range-exceeds start bucket_seconds pos off =
    let w = bucket_seconds * second in
    let wide : 0 < w = omega (arith, pos) in
    (ground (arith, span_points w wide start 5000, wide), span_last w wide start 5000 off)
