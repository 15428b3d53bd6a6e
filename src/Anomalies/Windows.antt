-- ===== src/Anomalies/Windows.antt =====
-- The windows stay bounded and apart, and no anomaly is reported without enough history.
use telemetry_backend.Prelude.{
  ℕ, ◌≤◌, ◌≡◌, ◌≢◌, refl, ◌∙◌, String, Bool, true, false, List, [], ◌∷◌, string_eq, pair_eq, ==_iff,
  if◌then◌else◌, leb, not, length, push_bounded, push_bounded-le, arith, map,
}
use telemetry_backend.Prelude.Dict
use telemetry_backend.Prelude.Float.{Float}
use telemetry_backend.Model.{Metric, metrics, metric_name, metric_value, TelemetryEvent, Severity}
use telemetry_backend.Anomalies.{
  AnomalyDetector, HistoryKey, assess, window, host_key, update_metric, update_metrics, update,
}

abbrev pub is_info : Severity → Bool
is_info Severity.info = true
is_info _ = false

module _ {F : Type 0} ⦃fl : Float F⦄ where
  -- every window of the detector fits
  abbrev pub Bounded : ℕ → AnomalyDetector F → Type 0
  Bounded n d = Dict.Each (λ _ h. length h ≤ n) d.history

  -- A result is an anomaly only if the window holds the history that is asked for; its severity is
  -- above INFO exactly if it is an anomaly; and it reports the metric and the value it was given.
  pub assess_sound :
      (threshold : F) (min_history : ℕ) (metric : Metric) (value : F) (history : List F)
      → ((if (assess threshold min_history metric value history).is_anomaly
            then leb min_history (length history)
            else true)
          ≡ true)
        × ((assess threshold min_history metric value history).is_anomaly
            ≡ not (is_info (assess threshold min_history metric value history).severity))
        × ((assess threshold min_history metric value history).metric ≡ metric)
        × ((assess threshold min_history metric value history).value ≡ value)
  unfolding assess
  assess_sound threshold min_history metric value history =
      (ground arith, ground arith, ground arith, ground arith)

  update_metric-Bounded :
      (event : TelemetryEvent F) (metric : Metric) (d : AnomalyDetector F)
      → Bounded d.window_size d
      → Bounded d.window_size (update_metric event metric d).0
        × ((update_metric event metric d).0.window_size ≡ d.window_size)
        × ((update_metric event metric d).1.metric ≡ metric)
  unfolding update_metric
  update_metric-Bounded event metric d h =
      let key : HistoryKey = (host_key event, metric_name metric) in
      let value = metric_value event metric in
      (
        Dict.Each-put (λ _ xs. length xs ≤ d.window_size) key _ d.history h
            (push_bounded-le d.window_size value (window key d)),
        refl,
        (assess_sound d.threshold d.min_history metric value
            (push_bounded d.window_size value (window key d))).2,
      )

  update_metrics-Bounded :
      (event : TelemetryEvent F) (ms : List Metric) (d : AnomalyDetector F)
      → Bounded d.window_size d
      → Bounded d.window_size (update_metrics event ms d).0
        × ((update_metrics event ms d).0.window_size ≡ d.window_size)
        × (map (λ r. r.metric) (update_metrics event ms d).1 ≡ ms)
  unfolding update_metrics
  update_metrics-Bounded event [] d h = (h, refl, refl)
  update_metrics-Bounded event (m ∷ ms) d h =
      let (bounded, size, metric) = update_metric-Bounded event m d h in
      let (bounded', size', rest) =
        update_metrics-Bounded event ms (update_metric event m d).0 (rw size bounded) in
      (rw size at bounded', size' ∙ size, cc)

  -- If no window holds more than the window size, none does after an event; and one result is returned
  -- for each of the seven metrics, in their order.
  pub update-Bounded :
      (event : TelemetryEvent F) (d : AnomalyDetector F)
      → Bounded d.window_size d
      → Bounded d.window_size (update event d).0
        × (map (λ r. r.metric) (update event d).1 ≡ metrics)
  unfolding update
  update-Bounded event d h = let (b, _, m) = update_metrics-Bounded event metrics d h in (b, m)

  get-update_metrics :
      (event : TelemetryEvent F) (ms : List Metric) (d : AnomalyDetector F) (k : HistoryKey)
      → k.0 ≢ host_key event
      → Dict.get k (update_metrics event ms d).0.history ≡ Dict.get k d.history
  unfolding update_metrics update_metric
  get-update_metrics event [] d k other = refl
  get-update_metrics event (m ∷ ms) d k other =
      get-update_metrics event ms (update_metric event m d).0 k other
      ∙ ground (
        arith,
        Dict.get-put (host_key event, metric_name m) k
            (push_bounded d.window_size (metric_value event m)
              (window (host_key event, metric_name m) d))
            d.history,
        ==_iff (host_key event) k.0,
      )

  -- An event leaves the windows of every other host as they were.
  pub get-update_other :
      (event : TelemetryEvent F) (d : AnomalyDetector F) (host metric : String)
      → host ≢ host_key event
      → Dict.get (host, metric) (update event d).0.history ≡ Dict.get (host, metric) d.history
  unfolding update
  get-update_other event d host metric other =
      get-update_metrics event metrics d (host, metric) other
