-- ===== src/Runtime/Restart/RuleAlerts.antt =====
-- The alert of a rule after a restart.
use telemetry_backend.Prelude.{
  ◌≡◌, refl, ◌≢◌, ◌∙◌, String, true, some, List, [], ◌∷◌, ◌++◌, string_eq, pair_eq, ==_iff, arith,
  or_text, All, if_both,
}
use mathlib.Core.Path.{subst}
use telemetry_backend.Prelude.Dict
use telemetry_backend.Prelude.Dict.{Dict}
use telemetry_backend.Rules.{AlertRule, hydrated}
use telemetry_backend.Rules.Hydration.{state_key, hydrate-get}
use telemetry_backend.Persistence.Alerts.{AlertRecord}
use telemetry_backend.Incidents.Storage.{Database}
use telemetry_backend.Runtime.{Runtime, open_alert}
use telemetry_backend.Runtime.Events.{rule_key}
use telemetry_backend.Runtime.Restart.{
  is_rule_row, alert_of_row, restored_key, restore_rows, restore_alerts, reload_alert_rules,
  load_state, active_rows, incident_by_alert, rule_alerts,
}

module _ {F : Type 0} (incidents : Dict String String) where
  rule_alerts-append :
      (xs ys : List (AlertRecord F))
      → rule_alerts incidents (xs ++ ys) ≡ rule_alerts incidents xs ++ rule_alerts incidents ys
  unfolding rule_alerts
  rule_alerts-append [] ys = refl
  rule_alerts-append (x ∷ xs) ys = ground (arith, rule_alerts-append xs ys)

  -- the alert that is restored for a row stands under another key, and for another rule or host
  abbrev pub Apart : AlertRecord F → AlertRecord F → Type 0
  Apart row r =
      (restored_key r ≢ restored_key row)
      × (state_key (alert_of_row incidents r) ≢ state_key (alert_of_row incidents row))

  rule_alerts-Apart :
      (row : AlertRecord F) (rows : List (AlertRecord F))
      → All (Apart row) rows
      → All (λ b. state_key b ≢ state_key (alert_of_row incidents row)) (rule_alerts incidents rows)
  unfolding rule_alerts
  rule_alerts-Apart row [] h = tt
  rule_alerts-Apart row (r ∷ rows) (d, h) =
      if_both (All (λ b. state_key b ≢ state_key (alert_of_row incidents row))) (is_rule_row r)
        (alert_of_row incidents r ∷ rule_alerts incidents rows) (rule_alerts incidents rows)
        (λ _. (d.1, rule_alerts-Apart row rows h)) (λ _. rule_alerts-Apart row rows h)

module _ {F P : Type 0} (incidents : Dict String String) where
  restore_rows-other :
      (row : AlertRecord F) (rows : List (AlertRecord F)) (s : Runtime F P)
      → All (Apart incidents row) rows
      → Dict.get (restored_key row) (restore_rows incidents rows s).active_alerts
        ≡ Dict.get (restored_key row) s.active_alerts
  unfolding restore_rows open_alert
  restore_rows-other row [] s h = refl
  restore_rows-other row (r ∷ rows) s (d, h) =
      restore_rows-other row rows (open_alert (restored_key r) (alert_of_row incidents r) s) h
      ∙ ground (
        arith,
        Dict.get-put (restored_key r) (restored_key row) (alert_of_row incidents r) s.active_alerts,
        ==_iff (restored_key r) (restored_key row),
        d.0,
      )

  restore_rows-get :
      (before : List (AlertRecord F)) (row : AlertRecord F) (after : List (AlertRecord F))
      (s : Runtime F P)
      → All (Apart incidents row) after
      → Dict.get (restored_key row) (restore_rows incidents (before ++ row ∷ after) s).active_alerts
        ≡ some (alert_of_row incidents row)
  unfolding restore_rows open_alert
  restore_rows-get [] row after s h =
      restore_rows-other row after (open_alert (restored_key row) (alert_of_row incidents row) s) h
      ∙ Dict.get-put_self (restored_key row) (alert_of_row incidents row) s.active_alerts
  restore_rows-get (r ∷ before) row after s h =
      restore_rows-get before row after (open_alert (restored_key r) (alert_of_row incidents r) s) h

restored_key-rule :
    {F : Type 0} (incidents : Dict String String) (row : AlertRecord F)
    → is_rule_row row ≡ true
    → restored_key row ≡ rule_key (alert_of_row incidents row)
unfolding restored_key alert_of_row
restored_key-rule incidents row h = rw h refl

is_rule_row-parts :
    {F : Type 0} (row : AlertRecord F)
    → is_rule_row row ≡ true
    → (row.source ≡ "rule") × (or_text row.rule_id "" ≢ "")
is_rule_row-parts row h = (
  ground (arith, h, ==_iff row.source "rule"),
  λ e. absurd (ground (arith, h, e, ==_iff (or_text row.rule_id "") "")),
)

rule_alerts-split :
    {F : Type 0} (incidents : Dict String String) (before : List (AlertRecord F))
    (row : AlertRecord F) (after : List (AlertRecord F))
    → is_rule_row row ≡ true
    → rule_alerts incidents (before ++ row ∷ after)
      ≡ rule_alerts incidents before ++ alert_of_row incidents row ∷ rule_alerts incidents after
unfolding rule_alerts
rule_alerts-split incidents before row after h =
    rule_alerts-append incidents before (row ∷ after) ∙ rw h refl

module _ {F P : Type 0} where
  restore_alerts-rule :
      (incidents : Dict String String) (before : List (AlertRecord F)) (row : AlertRecord F)
      (after : List (AlertRecord F)) (s : Runtime F P)
      → is_rule_row row ≡ true
      → All (Apart incidents row) after
      → let a = alert_of_row incidents row in
        let restored = restore_alerts incidents (before ++ row ∷ after) s in
        (Dict.get (rule_key a) restored.active_alerts ≡ some a)
        × (Dict.get (state_key a) restored.rules.states ≡ some (hydrated a))
  unfolding restore_alerts alert_of_row
  restore_alerts-rule incidents before row after s rule h =
      let a = alert_of_row incidents row in
      let rows = before ++ row ∷ after in
      let (source, rule_id) = is_rule_row-parts row rule in
      (
        subst (λ k. Dict.get k (restore_rows incidents rows s).active_alerts ≡ some a)
            (restored_key-rule incidents row rule)
            (restore_rows-get incidents before row after s h),
        rw (rule_alerts-split incidents before row after rule) (
            hydrate-get (rule_alerts incidents before) a (rule_alerts incidents after)
              (restore_rows incidents rows s).rules source rule_id
              (rule_alerts-Apart incidents row after h)),
      )

  load_state-empty :
      (ordered : List (AlertRecord F) → List (AlertRecord F)) (rows : List (AlertRule F))
      (db : Database F) (s : Runtime F P)
      → s.alerts ≡ []
      → load_state ordered rows db s
        ≡ restore_alerts
            (incident_by_alert db.incident_alerts [])
            (active_rows ordered db)
            (reload_alert_rules rows s)
  unfolding load_state reload_alert_rules
  load_state-empty ordered rows db s e = rw e refl

  -- A start of a process without alerts restores the alert of each active row of a rule, unless a later
  -- row stands for the same rule and host: the alert is active under the key that the handlers look
  -- up for its rule and host, its fields are those of the row, and the engine of the rules knows it as
  -- the one that is open for them.
  pub load_state-rule :
      (ordered : List (AlertRecord F) → List (AlertRecord F)) (rows : List (AlertRule F))
      (db : Database F) (s : Runtime F P) (before : List (AlertRecord F)) (row : AlertRecord F)
      (after : List (AlertRecord F))
      → s.alerts ≡ []
      → active_rows ordered db ≡ before ++ row ∷ after
      → is_rule_row row ≡ true
      → All (Apart (incident_by_alert db.incident_alerts []) row) after
      → let a = alert_of_row (incident_by_alert db.incident_alerts []) row in
        let started = load_state ordered rows db s in
        (Dict.get (rule_key a) started.active_alerts ≡ some a)
        × (Dict.get (state_key a) started.rules.states ≡ some (hydrated a))
  load_state-rule ordered rows db s before row after e split rule h =
      rw (load_state-empty ordered rows db s e, split)
        (restore_alerts-rule (incident_by_alert db.incident_alerts []) before row after
          (reload_alert_rules rows s) rule h)
