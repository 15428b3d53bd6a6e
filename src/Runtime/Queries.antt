-- ===== src/Runtime/Queries.antt =====
-- `get_current`, `get_history`, `get_alerts` and `acknowledge_alert` of the manager.
use telemetry_backend.Prelude.{
  ℕ, String, Bool, true, false, Option, none, some, List, ◌++◌, map, string_eq, ◌==◌, option_eq,
  if◌then◌else◌, keep, find, take_last, min, max,
}
use telemetry_backend.Prelude.Dict
use telemetry_backend.Model.{Alert, TelemetryEvent}
use telemetry_backend.Runtime.{Runtime, write_alert}
use telemetry_backend.Runtime.Actions.{persist_alert}

module _ {F P : Type 0} where
  unfoldable pub get_current : Option String → Runtime F P → Option (TelemetryEvent F)
  get_current none s = s.current
  get_current (some host_id) s = Dict.get host_id s.current_by_host

  -- `limit` is not negative: the routes admit only positive limits
  unfoldable pub get_history : ℕ → Option String → Runtime F P → List (TelemetryEvent F)
  get_history limit none s = take_last (max 1 (min limit s.max_history_size)) s.history
  get_history limit (some host_id) s =
      take_last (max 1 (min limit s.max_history_size))
        (keep (λ e. e.host_id == some host_id) s.history)

  unfoldable pub get_alerts : Bool → Runtime F P → List (Alert F)
  get_alerts active_only s =
      let active = Dict.values s.active_alerts in
      if active_only then active else active ++ keep (λ a. a.resolved) s.alerts

  -- the alert that `acknowledge_alert` finds
  abbrev pub alert_of : String → Runtime F P → Option (Alert F)
  alert_of alert_id s = elim (find (λ a. a.id == alert_id) s.alerts) [
    | some a ↦ some a
    | none ↦ find (λ a. a.id == alert_id) (Dict.values s.active_alerts)
  ]

  -- the object is changed wherever it stands
  abbrev pub write_everywhere : Alert F → Runtime F P → Runtime F P
  write_everywhere a s = record s {
    alerts = write_alert a s.alerts;
    active_alerts =
        map (λ entry. (entry.0, if entry.1.id == a.id then a else entry.1)) s.active_alerts;
  }

  unfoldable pub acknowledge_alert : String → Runtime F P → Bool × Runtime F P
  acknowledge_alert alert_id s = elim (alert_of alert_id s) [
    | none ↦ (false, s)
    | some a ↦
        if a.acknowledged
        then (true, s)
        else let known : Alert F = record a { acknowledged = true } in
          (true, persist_alert known known.host_id (write_everywhere known s))
  ]
