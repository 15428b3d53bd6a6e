-- ===== src/Incidents/Escalation.antt =====
-- Which incident takes a new alert, and how its severity and its times move.
use telemetry_backend.Prelude.{
  ℕ, ◌+◌, ◌≤◌, ◌≡◌, refl, String, Bool, true, false, some, List, [], ◌∷◌, arith, string_eq,
  option_eq, Option-cases, inl, inr, ==_iff, if-some, find, elem,
}
use mathlib.Core.Path.{subst}
use telemetry_backend.Prelude.Dict
use telemetry_backend.Prelude.Sets.{elem-add_self}
use telemetry_backend.Model.{Alert}
use telemetry_backend.Metrics.{Metrics}
use telemetry_backend.Incidents.{
  opened, resolved, status_eq, severity_rank, correlation_window, IncidentState, IncidentEngine,
  candidate, correlates, new_incident, correlate, with_alert, attach, on_alert_created,
}

-- What the engine guarantees of the incident that takes a new alert: it lists the alert, also among its
-- active ones, has its host and service, is open, at least as severe as the alert, and was seen no
-- earlier than the alert.
pub record Takes {F : Type 0} (alert : Alert F) (i : IncidentState) : Type 0 where
  pub listed : elem alert.id i.alert_ids ≡ true
  pub active : elem alert.id i.active_alert_ids ≡ true
  pub host : i.host_id ≡ alert.host_id
  pub service : i.service_id ≡ alert.service_id
  pub is_open : i.status ≡ opened
  pub severe : severity_rank alert.severity ≤ severity_rank i.severity
  pub seen : alert.timestamp ≤ i.last_seen_at

find-passes :
    (p : IncidentState → Bool) (is : List IncidentState) (i : IncidentState)
    → find p is ≡ some i
    → p i ≡ true
find-passes p [] i h = absurd (ground arith)
find-passes p (x ∷ is) i h = elim (if-some (p x) x (find p is) i h) [
  | inl (here, same) ↦ subst (λ y. p y ≡ true) same here
  | inr (_, later) ↦ find-passes p is i later
]

module _ {F : Type 0} (alert : Alert F) where
  correlate-Takes :
      (i : IncidentState)
      → correlates alert i ≡ true
      → Takes alert (with_alert alert (correlate alert i))
        × (severity_rank i.severity ≤ severity_rank (correlate alert i).severity)
        × (i.last_seen_at ≤ (correlate alert i).last_seen_at)
  unfolding correlate
  correlate-Takes i c = (
    record {
      listed = elem-add_self alert.id _;
      active = elem-add_self alert.id _;
      host = ground (arith, ==_iff i.host_id alert.host_id);
      service = ground (arith, ==_iff i.service_id alert.service_id);
      is_open = ground arith;
      severe = ground arith;
      seen = omega arith;
    },
    ground arith,
    omega arith,
  )

  -- A created alert is always taken in: the call returns an incident that lists the alert, also among
  -- its active ones, has its host and service, is open, at least as severe as the alert and seen no
  -- earlier; this incident is stored under its id, and the alert's entry of the index names it.
  pub on_alert_created-Takes :
      (uuid : ℕ → String) (drawn : ℕ) (e : IncidentEngine) (m : Metrics)
      → (i : IncidentState) × ((on_alert_created uuid alert drawn e m).incident ≡ some i)
        × Takes alert i
        × (Dict.get i.id (on_alert_created uuid alert drawn e m).engine.incidents ≡ some i)
        × (Dict.get alert.id (on_alert_created uuid alert drawn e m).engine.alert_to_incident
            ≡ some i.id)
  unfolding on_alert_created attach candidate correlate
  on_alert_created-Takes uuid drawn e m = elim (Option-cases (candidate alert e.incidents)) [
    | inl new ↦
        let i = new_incident (uuid drawn) alert in
        (
          with_alert alert i,
          rw (new, on_alert_created),
          record {
            listed = elem-add_self alert.id [];
            active = elem-add_self alert.id [];
            host = refl;
            service = refl;
            is_open = refl;
            severe = omega arith;
            seen = omega arith;
          },
          rw (new, on_alert_created) (Dict.get-put_self i.id (with_alert alert i) e.incidents),
          rw (new, on_alert_created) (Dict.get-put_self alert.id i.id e.alert_to_incident),
        )
    | inr (old, found) ↦
        let i = correlate alert old in
        let (takes, _, _) =
          correlate-Takes old
            (find-passes (correlates alert) (Dict.values e.incidents) old found) in
        (
          with_alert alert i,
          rw (found, on_alert_created),
          takes,
          rw (found, on_alert_created) (Dict.get-put_self i.id (with_alert alert i) e.incidents),
          rw (found, on_alert_created) (Dict.get-put_self alert.id i.id e.alert_to_incident),
        )
  ]

  -- If an incident that is there takes the alert, it is returned under its id and with the alert among
  -- its active ones; it was not resolved and was last seen within five minutes of the alert, before or
  -- after it; and neither its severity nor its last-seen time went down.
  pub on_alert_created_known :
      (uuid : ℕ → String) (drawn : ℕ) (e : IncidentEngine) (m : Metrics) (old : IncidentState)
      → candidate alert e.incidents ≡ some old
      → (i : IncidentState) × ((on_alert_created uuid alert drawn e m).incident ≡ some i)
        × (i.id ≡ old.id)
        × (elem alert.id i.active_alert_ids ≡ true)
        × (status_eq old.status resolved ≡ false)
        × (alert.timestamp ≤ old.last_seen_at + correlation_window)
        × (old.last_seen_at ≤ alert.timestamp + correlation_window)
        × (severity_rank old.severity ≤ severity_rank i.severity)
        × (old.last_seen_at ≤ i.last_seen_at)
  unfolding on_alert_created attach candidate
  on_alert_created_known uuid drawn e m old found =
      let c = find-passes (correlates alert) (Dict.values e.incidents) old found in
      let (takes, up, later) = correlate-Takes old c in
      (
        with_alert alert (correlate alert old),
        rw (found, on_alert_created),
        unfold correlate in refl,
        elem-add_self alert.id _,
        ground arith,
        ground arith,
        ground arith,
        up,
        later,
      )
