-- ===== src/Runtime/Restart/SyntheticAlert.antt =====
-- The alert of a synthetic check after a restart.
use telemetry_backend.Prelude.{
  ℕ, ◌≡◌, refl, ◌≢◌, ◌∙◌, String, true, none, List, [], ◌∷◌, string_eq, ==_iff, if◌then◌else◌,
  arith, Bool-cases, inl, inr, or_text, concat,
}
use mathlib.Core.Path.{subst}
use telemetry_backend.Prelude.Texts.{append-differ, first_code}
use telemetry_backend.Prelude.Dict
use telemetry_backend.Prelude.Dict.{Dict}
use telemetry_backend.Prelude.Float.{Float}
use telemetry_backend.Rules.{AlertRule}
use telemetry_backend.Persistence.Alerts.{AlertRecord}
use telemetry_backend.Incidents.Storage.{Database}
use telemetry_backend.Runtime.{Runtime, Env, open_alert}
use telemetry_backend.Runtime.Actions.{update_persistence_metrics}
use telemetry_backend.Runtime.Synthetic.{
  SyntheticCheck, SyntheticCheckRun, synthetic_key, on_recovery, process_synthetic_check_result,
}
use telemetry_backend.Runtime.Restart.{
  is_rule_row, alert_of_row, restored_key, restore_rows, restore_alerts, reload_alert_rules,
  load_state, active_rows, incident_by_alert,
}

-- no row is restored under the key of a check
restored_key-synthetic :
    {F : Type 0} (row : AlertRecord F) (id : String) → restored_key row ≢ synthetic_key id
unfolding restored_key first_code
restored_key-synthetic row id e =
    let rule =
      concat ("rule:" ∷ or_text row.rule_id "None" ∷ ":" ∷ or_text row.host_id "system" ∷ []) in
    let anomaly = concat ("anomaly:" ∷ or_text row.host_id "system" ∷ ":" ∷ row.metric ∷ []) in
    elim (Bool-cases (is_rule_row row)) [
      | inl t ↦
          append-differ "rule:" "synthetic:" _ _ (omega arith) (omega arith) (omega arith)
            (subst (λ b. (if b then rule else anomaly) ≡ synthetic_key id) t e)
      | inr f ↦
          append-differ "anomaly:" "synthetic:" _ _ (omega arith) (omega arith) (omega arith)
            (subst (λ b. (if b then rule else anomaly) ≡ synthetic_key id) f e)
    ]

module _ {F P : Type 0} where
  restore_rows-get :
      (incidents : Dict String String) (rows : List (AlertRecord F)) (id : String) (s : Runtime F P)
      → Dict.get (synthetic_key id) (restore_rows incidents rows s).active_alerts
        ≡ Dict.get (synthetic_key id) s.active_alerts
  unfolding restore_rows open_alert
  restore_rows-get incidents [] id s = refl
  restore_rows-get incidents (row ∷ rows) id s =
      restore_rows-get incidents rows id
        (open_alert (restored_key row) (alert_of_row incidents row) s)
      ∙ ground (
        arith,
        Dict.get-put (restored_key row) (synthetic_key id) (alert_of_row incidents row)
            s.active_alerts,
        ==_iff (restored_key row) (synthetic_key id),
        restored_key-synthetic row id,
      )

  restore_alerts-get :
      (incidents : Dict String String) (rows : List (AlertRecord F)) (id : String) (s : Runtime F P)
      → Dict.get (synthetic_key id) (restore_alerts incidents rows s).active_alerts
        ≡ Dict.get (synthetic_key id) s.active_alerts
  unfolding restore_alerts
  restore_alerts-get incidents rows id s = restore_rows-get incidents rows id s

  load_state-get :
      (ordered : List (AlertRecord F) → List (AlertRecord F)) (rows : List (AlertRule F))
      (db : Database F) (id : String) (s : Runtime F P)
      → Dict.get (synthetic_key id) (load_state ordered rows db s).active_alerts
        ≡ Dict.get (synthetic_key id) s.active_alerts
  unfolding load_state reload_alert_rules
  load_state-get ordered rows db id s = ground (
    arith,
    restore_alerts-get (incident_by_alert db.incident_alerts []) (active_rows ordered db) id
        (reload_alert_rules rows s),
  )

  recovered_nothing :
      ⦃fl : Float F⦄ (env : Env F P) (failure_threshold : ℕ) (check : SyntheticCheck)
      (run : SyntheticCheckRun F) (s : Runtime F P)
      → Dict.get (synthetic_key check.id) s.active_alerts ≡ none
      → run.success ≡ true
      → let after = (process_synthetic_check_result env failure_threshold check run s).1 in
        (after.alerts ≡ s.alerts) × (after.active_alerts ≡ s.active_alerts)
  unfolding process_synthetic_check_result on_recovery update_persistence_metrics
  recovered_nothing env failure_threshold check run s e success = rw (success, e) (refl, refl)

  -- Whatever alerts the database holds as active, a start of a process without alerts restores none of
  -- them under the key of a synthetic check: a successful run of any check after it changes no alert, open
  -- or listed, so an alert that its failures raised before the restart stays open.
  pub recovery_after_restart :
      ⦃fl : Float F⦄ (env : Env F P) (failure_threshold : ℕ) (check : SyntheticCheck)
      (run : SyntheticCheckRun F) (ordered : List (AlertRecord F) → List (AlertRecord F))
      (rows : List (AlertRule F)) (db : Database F) (s : Runtime F P)
      → s.active_alerts ≡ []
      → run.success ≡ true
      → let started = load_state ordered rows db s in
        let after = (process_synthetic_check_result env failure_threshold check run started).1 in
        (after.alerts ≡ started.alerts) × (after.active_alerts ≡ started.active_alerts)
  unfolding Dict.get
  recovery_after_restart env failure_threshold check run ordered rows db s none_active success =
      recovered_nothing env failure_threshold check run (load_state ordered rows db s)
        (load_state-get ordered rows db check.id s ∙ rw none_active refl) success
