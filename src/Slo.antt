-- ===== src/Slo.antt =====
-- app/services/slo_service.py: SLOService.evaluate. Instants are microseconds; the sums of the statement are
-- counts over the rows of the window. `round4` stands for `round(x, 4)`; the arithmetic is that of Float.
pub mod Counts
use telemetry_backend.Prelude.{
  ℕ, ◌-◌, ◌*◌, String, Bool, true, false, not, ◌&&◌, Option, none, some, List, [], ◌∷◌, string_eq,
  ◌==◌, if◌then◌else◌, keep, count_if, length, ltb, leb, nat_eq,
}
use telemetry_backend.Prelude.Float.{Float}
use telemetry_backend.Model.{Metric, metric_of}
use telemetry_backend.Tables.{TelemetryRecord}

pub record Slo (F : Type 0) : Type 0 where
  pub id : String
  pub host_id : String
  pub metric : String
  pub operator : String
  pub threshold : F
  pub objective_percent : F
  pub window_hours : ℕ

-- the entries of the result that are computed
pub record SloStatus (F : Type 0) : Type 0 where
  pub window_start : ℕ
  pub window_end : ℕ
  pub total_samples : ℕ
  pub good_samples : ℕ
  pub bad_samples : ℕ
  pub sli_percent : F
  pub error_budget_percent : F
  pub error_budget_remaining_percent : F
  pub compliant : Bool

-- METRIC_COLUMNS
abbrev pub metric_column : {F : Type 0} → Metric → TelemetryRecord F → F
metric_column Metric.cpu r = r.cpu
metric_column Metric.memory r = r.memory
metric_column Metric.temperature r = r.temperature
metric_column Metric.network_mbps r = r.network_mbps
metric_column Metric.requests_per_second r = r.requests_per_second
metric_column Metric.error_rate r = r.error_rate
metric_column Metric.latency_ms r = r.latency_ms

-- an hour, in microseconds
abbrev pub hour : ℕ
hour = 3_600_000_000

module _ {F : Type 0} ⦃fl : Float F⦄ (round4 : F → F) where
  -- the comparison of a value with the threshold; `none` for an operator that is not supported
  unfoldable pub is_good : String → F → Option (F → Bool)
  is_good operator threshold =
      if operator == ">"
      then some (λ x. fl.lt threshold x)
      else if operator == ">="
      then some (λ x. fl.le threshold x)
      else if operator == "<"
      then some (λ x. fl.lt x threshold)
      else if operator == "<="
      then some (λ x. fl.le x threshold)
      else none

  abbrev pub in_window : Slo F → ℕ → TelemetryRecord F → Bool
  in_window slo now r =
      (r.host_id == slo.host_id)
      && (leb (now - slo.window_hours * hour) r.timestamp && ltb r.timestamp now)

  -- max(a, b) and min(a, b)
  abbrev fmax : F → F → F
  fmax a b = if fl.lt a b then b else a

  abbrev fmin : F → F → F
  fmin a b = if fl.lt b a then b else a

  abbrev hundred : F
  hundred = fl.of_nat 100

  abbrev zero_f : F
  zero_f = fl.of_nat 0

  abbrev sli : ℕ → ℕ → F
  sli total good =
      if total == 0 then hundred else fl.mul (fl.div (fl.of_nat good) (fl.of_nat total)) hundred

  abbrev allowed_bad : Slo F → ℕ → F
  allowed_bad slo total =
      fl.mul (fl.of_nat total) (fmax zero_f (fl.div (fl.sub hundred slo.objective_percent) hundred))

  abbrev remaining_budget : Slo F → ℕ → ℕ → F
  remaining_budget slo total bad =
      let allowed = allowed_bad slo total in
      if fl.le allowed zero_f
      then (if bad == 0 then hundred else zero_f)
      else fmax zero_f
          (fmin hundred (fl.mul (fl.div (fl.sub allowed (fl.of_nat bad)) allowed) hundred))

  abbrev status_of : Slo F → ℕ → ℕ → ℕ → SloStatus F
  status_of slo now total good = record {
    window_start = now - slo.window_hours * hour;
    window_end = now;
    total_samples = total;
    good_samples = good;
    bad_samples = total - good;
    sli_percent = round4 (sli total good);
    error_budget_percent = round4 (fl.sub hundred slo.objective_percent);
    error_budget_remaining_percent = round4 (remaining_budget slo total (total - good));
    compliant = fl.le slo.objective_percent (sli total good);
  }

  -- `none` stands for the ValueError
  unfoldable pub evaluate : Slo F → ℕ → List (TelemetryRecord F) → Option (SloStatus F)
  unfolding is_good
  evaluate slo now table = elim (metric_of slo.metric) [
    | none ↦ none
    | some m ↦ elim (is_good slo.operator slo.threshold) [
      | none ↦ none
      | some good ↦
          let rows = keep (in_window slo now) table in
          some (status_of slo now (length rows) (count_if (λ r. good (metric_column m r)) rows))
    ]
  ]
