-- ===== src/Runtime/Outage.antt =====
-- The alert of a synthetic check stands for a run of failures.
use telemetry_backend.Prelude.{
  ℕ, ◌+◌, ◌≤◌, ◌≡◌, ◌∙◌, refl, ap, All, Bool, true, false, not, Option, none, some, List, [], ◌∷◌,
  string_eq, if◌then◌else◌, leb, arith, is_none,
}
use telemetry_backend.Prelude.Dict
use telemetry_backend.Prelude.Float.{Float}
use telemetry_backend.Model.{Alert}
use telemetry_backend.Runtime.{
  Runtime, Env, count, open_alert, update_active, close_alert, broadcast,
}
use telemetry_backend.Runtime.Actions.{
  incident_created, incident_resolved, persist_alert, update_persistence_metrics,
}
use telemetry_backend.Runtime.Synthetic.{
  SyntheticCheck, SyntheticCheckRun, SyntheticMonitor, Answer, synthetic_key, previous_failures,
  on_recovery, on_failure, process_synthetic_check_result, succeeded, run_once,
}

-- is an alert active for the check?
abbrev pub has_alert : {F P : Type 0} → SyntheticCheck → Runtime F P → Bool
has_alert check s = not (is_none (Dict.get (synthetic_key check.id) s.active_alerts))

module _ {F P : Type 0} ⦃fl : Float F⦄ (env : Env F P) where
  on_recovery-has_alert :
      (check : SyntheticCheck) (run : SyntheticCheckRun F) (o : Option (Alert F)) (s : Runtime F P)
      → Dict.get (synthetic_key check.id) s.active_alerts ≡ o
      → has_alert check (on_recovery env check run o s).1 ≡ false
  unfolding on_recovery close_alert count incident_resolved persist_alert broadcast
  on_recovery-has_alert check run none s e = rw e refl
  on_recovery-has_alert check run (some a) s e =
      rw (Dict.get-remove_self (synthetic_key check.id) s.active_alerts) refl

  on_failure-has_alert :
      (check : SyntheticCheck) (run : SyntheticCheckRun F) (o : Option (Alert F)) (s : Runtime F P)
      → has_alert check (on_failure env check run o s).1 ≡ true
  unfolding on_failure open_alert update_active count incident_created persist_alert broadcast
  on_failure-has_alert check run none s =
      rw
        (Dict.get-put_self (synthetic_key check.id) _
          (Dict.put (synthetic_key check.id) _ s.active_alerts))
        refl
  on_failure-has_alert check run (some a) s =
      rw (Dict.get-put_self (synthetic_key check.id) _ s.active_alerts) refl

  -- one result decides, except below the threshold
  process_result-has_alert :
      (failure_threshold : ℕ) (check : SyntheticCheck) (run : SyntheticCheckRun F) (s : Runtime F P)
      → has_alert check (process_synthetic_check_result env failure_threshold check run s).1 ≡ (
          if run.success
          then false
          else if leb failure_threshold run.consecutive_failures
          then true
          else has_alert check s)
  unfolding process_synthetic_check_result update_persistence_metrics
  process_result-has_alert failure_threshold check run s =
      let o = Dict.get (synthetic_key check.id) s.active_alerts in
      ground (arith, on_recovery-has_alert check run o s refl, on_failure-has_alert check run o s)

branches :
    (failure_threshold : ℕ) (success : Bool) (previous k : ℕ) (before : Bool)
    → previous ≡ k
    → 1 ≤ failure_threshold
    → before ≡ leb failure_threshold k
    → (if success
        then false
        else if leb failure_threshold (if success then 0 else previous + 1)
        then true
        else before)
      ≡ leb failure_threshold (if success then 0 else k + 1)
branches failure_threshold success previous k before same positive shown = ground arith

-- What happens in one process: the check runs, at an instant with a duration and an answer, or anything
-- else happens to the monitor and its manager.
pub data Happening (F P : Type 0) : Type 0 where
  ran : ℕ → F → Answer → Happening F P
  meanwhile : (SyntheticMonitor F P → SyntheticMonitor F P) → Happening F P

module _ {F P : Type 0} (check : SyntheticCheck) where
  -- what else happens leaves the counter of the check alone, and neither opens nor closes its alert
  abbrev pub Apart : Happening F P → Type 0
  Apart (ran _ _ _) = Unit {0}
  Apart (meanwhile f) =
      (m : SyntheticMonitor F P)
      → (Dict.get check.id (f m).consecutive_failures ≡ Dict.get check.id m.consecutive_failures)
        × (has_alert check (f m).manager ≡ has_alert check m.manager)

  -- the failures since the last success, when there were `k` before
  abbrev pub trailing : ℕ → List (Happening F P) → ℕ
  trailing k [] = k
  trailing k (ran _ _ a ∷ hs) = trailing (if succeeded check a then 0 else k + 1) hs
  trailing k (meanwhile _ ∷ hs) = trailing k hs

module _ {F P : Type 0} ⦃fl : Float F⦄ (env : Env F P) (failure_threshold : ℕ)
    (check : SyntheticCheck) (previous_row : Option ℕ) where
  abbrev pub run_all : List (Happening F P) → SyntheticMonitor F P → SyntheticMonitor F P
  run_all [] monitor = monitor
  run_all (ran checked_at duration_ms a ∷ hs) monitor =
      run_all hs
        (run_once env failure_threshold check previous_row checked_at duration_ms a monitor)
  run_all (meanwhile f ∷ hs) monitor = run_all hs (f monitor)

  -- the failures that the next run takes as the previous ones
  abbrev pub counted_failures : SyntheticMonitor F P → ℕ
  counted_failures monitor =
      previous_failures (Dict.get check.id monitor.consecutive_failures) previous_row

  run_once-Tracks :
      (checked_at : ℕ) (duration_ms : F) (a : Answer) (k : ℕ) (monitor : SyntheticMonitor F P)
      → 1 ≤ failure_threshold
      → counted_failures monitor ≡ k
      → has_alert check monitor.manager ≡ leb failure_threshold k
      → let after =
          run_once env failure_threshold check previous_row checked_at duration_ms a monitor in
        let k' = if succeeded check a then 0 else k + 1 in
        (counted_failures after ≡ k') × (has_alert check after.manager ≡ leb failure_threshold k')
  unfolding run_once
  run_once-Tracks checked_at duration_ms a k monitor positive counted shown = (
    ap (λ o. previous_failures o previous_row)
          (Dict.get-put_self check.id
            (if succeeded check a then 0 else counted_failures monitor + 1)
            monitor.consecutive_failures)
        ∙ ap (λ n. if succeeded check a then 0 else n + 1) counted,
    process_result-has_alert env failure_threshold check _ _
        ∙ branches failure_threshold (succeeded check a) (counted_failures monitor) k
            (has_alert check monitor.manager) counted positive shown,
  )

  -- Within one process, however often a check runs and whatever its requests end with: an alert of the
  -- check is active exactly if the check failed at least `failure_threshold` times since its last
  -- success. The conditions: the threshold is not 0; it holds at the beginning for the `k` failures that
  -- the monitor has counted or, before the first run of the process, the latest stored row (in a new
  -- process without rows, k is 0 and no alert is active); and what else happens, which is no restart and no
  -- reset, leaves the counter of the check alone and does not open or close its alert.
  pub run_all-Tracks :
      (hs : List (Happening F P)) (k : ℕ) (monitor : SyntheticMonitor F P)
      → 1 ≤ failure_threshold
      → All (Apart check) hs
      → counted_failures monitor ≡ k
      → has_alert check monitor.manager ≡ leb failure_threshold k
      → has_alert check (run_all hs monitor).manager ≡ leb failure_threshold (trailing check k hs)
  run_all-Tracks [] k monitor positive apart counted shown = shown
  run_all-Tracks (ran checked_at duration_ms a ∷ hs) k monitor positive apart counted shown =
      let (counted', shown') =
        run_once-Tracks checked_at duration_ms a k monitor positive counted shown in
      run_all-Tracks hs (if succeeded check a then 0 else k + 1) _ positive apart.1 counted' shown'
  run_all-Tracks (meanwhile f ∷ hs) k monitor positive apart counted shown =
      let (same, still) = apart.0 monitor in
      run_all-Tracks hs k (f monitor) positive apart.1
        (ap (λ o. previous_failures o previous_row) same ∙ counted) (still ∙ shown)
