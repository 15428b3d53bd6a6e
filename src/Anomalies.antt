-- ===== src/Anomalies.antt =====
-- app/services/anomaly_detector.py: a rolling z-score for each host and metric, over the arithmetic of
-- `Float`.
pub mod Windows
use telemetry_backend.Prelude.{
  ℕ, zero, suc, String, Bool, true, false, Option, none, some, List, [], ◌∷◌, ◌++◌, string_eq,
  pair_eq, ◌==◌, if◌then◌else◌, ltb, length, push_bounded, or_text,
}
use telemetry_backend.Prelude.Dict
use telemetry_backend.Prelude.Dict.{Dict}
use telemetry_backend.Prelude.Float.{Float}
use telemetry_backend.Model.{Severity, Metric, metrics, metric_name, metric_value, TelemetryEvent}

pub record AnomalyResult (F : Type 0) : Type 0 where
  pub metric : Metric
  pub value : F
  pub baseline : F
  pub z_score : F
  pub is_anomaly : Bool
  pub severity : Severity

abbrev pub HistoryKey : Type 0
HistoryKey = String × String

pub record AnomalyDetector (F : Type 0) : Type 0 where
  pub threshold : F
  pub window_size : ℕ
  pub min_history : ℕ
  pub history : Dict HistoryKey (List F)

module _ {F : Type 0} ⦃fl : Float F⦄ where
  abbrev pub create : F → AnomalyDetector F
  create threshold = record {
    threshold = threshold;
    window_size = 100;
    min_history = 30;
    history = [];
  }

  sum_from : F → List F → F
  sum_from acc [] = acc
  sum_from acc (x ∷ xs) = sum_from (fl.add acc x) xs

  -- sum(history) / len(history)
  mean : List F → F
  unfolding sum_from
  mean xs = fl.div (sum_from (fl.of_nat 0) xs) (fl.of_nat (length xs))

  squares : F → List F → List F
  squares m [] = []
  squares m (x ∷ xs) = fl.mul (fl.sub x m) (fl.sub x m) ∷ squares m xs

  std_dev : List F → F
  unfolding mean squares
  std_dev xs = fl.sqrt (mean (squares (mean xs) xs))

  abbrev normal : Metric → F → F → AnomalyResult F
  normal metric value baseline = record {
    metric = metric;
    value = value;
    baseline = baseline;
    z_score = fl.of_nat 0;
    is_anomaly = false;
    severity = Severity.info;
  }

  -- the result for one metric, from the window that ends with its value
  unfoldable pub assess : F → ℕ → Metric → F → List F → AnomalyResult F
  unfolding mean std_dev
  assess threshold min_history metric value history =
      if ltb (length history) min_history
      then normal metric value value
      else let deviation = std_dev history in
        if fl.is_zero deviation
        then normal metric value (fl.round2 (mean history))
        else let z = fl.div (fl.sub value (mean history)) deviation in
          let anomalous = fl.lt threshold (fl.abs z) in
          record {
            metric = metric;
            value = value;
            baseline = fl.round2 (mean history);
            z_score = fl.round2 z;
            is_anomaly = anomalous;
            severity =
                if anomalous
                then if fl.lt (fl.mul threshold (fl.of_nat 2)) (fl.abs z)
                  then Severity.critical
                  else Severity.warning
                else Severity.info;
          }

  -- self._history.setdefault(key, deque(maxlen=self.window_size))
  abbrev pub window : HistoryKey → AnomalyDetector F → List F
  window key d = elim (Dict.get key d.history) [ none ↦ [] | some h ↦ h ]

  abbrev pub host_key : TelemetryEvent F → String
  host_key event = or_text event.host_id "system"

  -- the body of the loop of `update`
  unfoldable pub update_metric :
      TelemetryEvent F → Metric → AnomalyDetector F → AnomalyDetector F × AnomalyResult F
  unfolding assess
  update_metric event metric d =
      let value = metric_value event metric in
      let key : HistoryKey = (host_key event, metric_name metric) in
      let history = push_bounded d.window_size value (window key d) in
      (
        record d { history = Dict.put key history d.history },
        assess d.threshold d.min_history metric value history,
      )

  unfoldable pub update_metrics :
      TelemetryEvent F
      → List Metric
      → AnomalyDetector F
      → AnomalyDetector F × List (AnomalyResult F)
  update_metrics event [] d = (d, [])
  update_metrics event (metric ∷ rest) d =
      let (d', r) = update_metric event metric d in
      let (d'', rs) = update_metrics event rest d' in (d'', r ∷ rs)

  unfoldable pub update :
      TelemetryEvent F → AnomalyDetector F → AnomalyDetector F × List (AnomalyResult F)
  unfolding update_metrics
  update event d = update_metrics event metrics d

  abbrev pub reset : AnomalyDetector F → AnomalyDetector F
  reset d = record d { history = [] }
