-- ===== src/Runtime/Synthetic.antt =====
-- app/services/synthetic_monitor.py: the bookkeeping of `run_once` after the request was made, and
-- `process_synthetic_check_result` of app/services/telemetry_manager.py. The request, its URL check
-- and the row that is stored are outside; `previous_row` is the count in the latest stored row.
use telemetry_backend.Prelude.{
  ℕ, ◌+◌, String, Bool, true, false, Option, none, some, [], ◌∷◌, string_eq, ◌==◌, if◌then◌else◌,
  or_text, concat, leb, nat_eq,
}
use telemetry_backend.Prelude.Dict
use telemetry_backend.Prelude.Dict.{Dict}
use telemetry_backend.Prelude.Float.{Float}
use telemetry_backend.Model.{Alert, critical}
use telemetry_backend.Metrics.{increment}
use telemetry_backend.Runtime.{
  Runtime, Env, Message, count, open_alert, update_active, close_alert, broadcast,
}
use telemetry_backend.Runtime.Exec.{Exec, ◌>>=◌, ◌>>◌, pure, modify}
use telemetry_backend.Runtime.Actions.{
  incident_created, incident_resolved, persist_alert, update_persistence_metrics,
}
use telemetry_backend.Runtime.Events.{incident_id_of}

-- the columns of a check that the handlers read, and the columns of a run
pub record SyntheticCheck : Type 0 where
  pub id : String
  pub name : String
  pub service_id : Option String
  pub expected_status : ℕ

pub record SyntheticCheckRun (F : Type 0) : Type 0 where
  pub check_id : String
  pub checked_at : ℕ
  pub duration_ms : F
  pub status_code : Option ℕ
  pub success : Bool
  pub error : Option String
  pub consecutive_failures : ℕ

-- what the request ended with: a status, or the text of an exception
pub data Answer : Type 0 where
  status : ℕ → Answer
  failure : String → Answer

abbrev pub synthetic_key : String → String
synthetic_key check_id = concat ("synthetic:" ∷ check_id ∷ [])

abbrev or_zero : Option ℕ → ℕ
or_zero none = 0
or_zero (some n) = n

-- the texts of a status, with the text of a number
abbrev status_text : (ℕ → String) → Option ℕ → String
status_text show none = "request error"
status_text show (some code) = concat ("HTTP " ∷ show code ∷ [])

-- f"HTTP {run.status_code}", where no status reads "None"
abbrev http_text : (ℕ → String) → Option ℕ → String
http_text show none = "HTTP None"
http_text show (some code) = concat ("HTTP " ∷ show code ∷ [])

module _ {F : Type 0} ⦃fl : Float F⦄ where
  synthetic_alert : SyntheticCheck → SyntheticCheckRun F → String → Alert F
  synthetic_alert check run id = record {
    id = id;
    timestamp = run.checked_at;
    metric = synthetic_key check.id;
    value = fl.of_nat (or_zero run.status_code);
    baseline = fl.of_nat check.expected_status;
    severity = critical;
    message = concat (
        check.name
        ∷ " failed "
        ∷ fl.show run.consecutive_failures
        ∷ " consecutive checks: "
        ∷ status_text fl.show run.status_code
        ∷ " ("
        ∷ or_text run.error (concat (fl.text1 run.duration_ms ∷ " ms" ∷ []))
        ∷ ")"
        ∷ []);
    resolved = false;
    resolved_at = none;
    acknowledged = false;
    host_id = none;
    service_id = check.service_id;
    source = "synthetic";
    rule_id = none;
    incident_id = none;
  }

  recovered : SyntheticCheck → SyntheticCheckRun F → Alert F → Alert F
  recovered check run existing = record existing {
    value = run.duration_ms;
    message = concat (
        check.name
        ∷ " recovered: "
        ∷ http_text fl.show run.status_code
        ∷ ", "
        ∷ fl.text1 run.duration_ms
        ∷ " ms"
        ∷ []);
    resolved = true;
    resolved_at = some run.checked_at;
  }

  still_failing : SyntheticCheck → SyntheticCheckRun F → Alert F → Alert F
  still_failing check run existing = record existing {
    value = fl.of_nat (or_zero run.status_code);
    message = concat (
        check.name
        ∷ " still failing ("
        ∷ fl.show run.consecutive_failures
        ∷ " consecutive checks): "
        ∷ or_text run.error (http_text fl.show run.status_code)
        ∷ []);
  }

module _ {F P : Type 0} ⦃fl : Float F⦄ (env : Env F P) where
  -- the three branches that change something, with the alert that is active under the key
  unfoldable pub on_recovery :
      SyntheticCheck → SyntheticCheckRun F → Option (Alert F) → Exec (Runtime F P) (Unit {0})
  unfolding recovered
  on_recovery check run none = pure tt
  on_recovery check run (some existing) = do
    let closed = recovered check run existing
    modify (close_alert (synthetic_key check.id) closed)
    modify (count "alert_resolved_total")
    incident_resolved env closed
    modify (persist_alert closed closed.host_id)
    modify (broadcast (Message.alert closed))

  unfoldable pub on_failure :
      SyntheticCheck → SyntheticCheckRun F → Option (Alert F) → Exec (Runtime F P) (Unit {0})
  unfolding synthetic_alert still_failing
  on_failure check run none s =
      let key = synthetic_key check.id in
      let a = synthetic_alert check run (env.uuid s.drawn) in
      (do
        modify (open_alert key a)
        modify (count "alert_created_total")
        incident ← incident_created env a
        let named : Alert F = record a { incident_id = incident_id_of incident }
        modify (update_active key named)
        modify (persist_alert named none)
        modify (broadcast (Message.alert named)))
        (record s { drawn = s.drawn + 1 })
  on_failure check run (some existing) s =
      let changed = still_failing check run existing in
      (do
        modify (update_active (synthetic_key check.id) changed)
        modify (broadcast (Message.alert changed)))
        s

  unfoldable pub process_synthetic_check_result :
      ℕ → SyntheticCheck → SyntheticCheckRun F → Exec (Runtime F P) (Unit {0})
  unfolding on_recovery on_failure
  process_synthetic_check_result failure_threshold check run s =
      let existing = Dict.get (synthetic_key check.id) s.active_alerts in
      let finish : Exec (Runtime F P) (Unit {0}) = modify (update_persistence_metrics env) in
      if run.success
      then (on_recovery check run existing >> finish) s
      else if leb failure_threshold run.consecutive_failures
      then (on_failure check run existing >> finish) s
      else finish s

-- the monitor, with the manager that it reports to
pub record SyntheticMonitor (F P : Type 0) : Type 0 where
  pub consecutive_failures : Dict String ℕ
  pub manager : Runtime F P

-- self._consecutive_failures.get(check.id), or the count of the latest stored run, or 0
abbrev pub previous_failures : Option ℕ → Option ℕ → ℕ
previous_failures (some n) previous_row = n
previous_failures none previous_row = or_zero previous_row

abbrev pub succeeded : SyntheticCheck → Answer → Bool
succeeded check (status code) = code == check.expected_status
succeeded check (failure text) = false

status_code_of : Answer → Option ℕ
status_code_of (status code) = some code
status_code_of (failure text) = none

error_of : (ℕ → String) → SyntheticCheck → Answer → Option String
error_of show check (status code) =
    if code == check.expected_status
    then none
    else some
        (concat ("Expected HTTP " ∷ show check.expected_status ∷ ", received " ∷ show code ∷ []))
error_of show check (failure text) = some text

module _ {F P : Type 0} ⦃fl : Float F⦄ (env : Env F P) (failure_threshold : ℕ) where
  -- `run_once` from the answer of the request to the call of the manager, whose result comes last
  unfoldable pub run_once :
      SyntheticCheck → Option ℕ → ℕ → F → Answer → SyntheticMonitor F P → SyntheticMonitor F P
  unfolding status_code_of error_of
  run_once check previous_row checked_at duration_ms answer monitor =
      let previous =
        previous_failures (Dict.get check.id monitor.consecutive_failures) previous_row in
      let success = succeeded check answer in
      let consecutive_failures = if success then 0 else previous + 1 in
      let run : SyntheticCheckRun F = record {
        check_id = check.id;
        checked_at = checked_at;
        duration_ms = duration_ms;
        status_code = status_code_of answer;
        success = success;
        error = error_of fl.show check answer;
        consecutive_failures = consecutive_failures;
      } in
      let s = monitor.manager in
      let m = increment "synthetic_checks_total" 1 s.metrics in
      let m' =
        increment
          (if success then "synthetic_check_success_total" else "synthetic_check_failure_total") 1
          m in
      record {
        consecutive_failures = Dict.put check.id consecutive_failures monitor.consecutive_failures;
        manager =
            (process_synthetic_check_result env failure_threshold check run
              (record s { metrics = m' })).1;
      }
