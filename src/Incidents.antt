-- ===== src/Incidents.antt =====
-- app/services/incident_engine.py: IncidentState and IncidentEngine. The sets of alert ids are lists
-- without repetition, an incident that is changed in place is put back under its id, and what is
-- handed to the persistence queue is the incident as it is at that moment (`snapshot` copies it).
-- `uuid n` is the n-th identifier that `uuid4()` returns, `drawn` counts those drawn so far.
pub mod Lifecycle
pub mod Links
pub mod Escalation
pub mod Storage
pub mod Evidence
pub mod History
use telemetry_backend.Prelude.{
  ℕ, ◌+◌, ◌*◌, String, Bool, true, false, not, ◌&&◌, ◌||◌, Option, none, some, List, [], ◌∷◌, ◌++◌,
  string_eq, option_eq, ◌==◌, if◌then◌else◌, ltb, leb, max, elem, find, keep, or_text, is_none,
  concat,
}
use telemetry_backend.Prelude.Sets.{add, discard, is_empty_set}
use telemetry_backend.Prelude.Dict
use telemetry_backend.Prelude.Dict.{Dict}
use telemetry_backend.Model.{Severity, Alert, severity_value}
use telemetry_backend.Metrics.{Metrics, increment}
use telemetry_backend.Persistence.{Worker, enqueue}

-- the values of `IncidentState.status`
pub data Status : Type 0 where
  opened acknowledged resolved : Status

abbrev pub status_eq : Status → Status → Bool
status_eq opened opened = true
status_eq acknowledged acknowledged = true
status_eq resolved resolved = true
status_eq _ _ = false

-- SEVERITY_RANK
abbrev pub severity_rank : Severity → ℕ
severity_rank Severity.info = 1
severity_rank Severity.warning = 2
severity_rank Severity.critical = 3

-- CORRELATION_WINDOW: five minutes, in microseconds
abbrev pub correlation_window : ℕ
correlation_window = 300_000_000

pub record IncidentState : Type 0 where
  pub id : String
  pub host_id : Option String
  pub service_id : Option String
  pub title : String
  pub status : Status
  pub severity : Severity
  pub first_seen_at : ℕ
  pub last_seen_at : ℕ
  pub alert_ids : List String
  pub active_alert_ids : List String
  pub resolved_at : Option ℕ

pub record IncidentPersistenceEvent : Type 0 where
  pub incident : IncidentState
  pub alert_id : Option String

abbrev pub IncidentPersistence : Type 0
IncidentPersistence = Worker IncidentPersistenceEvent

pub record IncidentEngine : Type 0 where
  pub incidents : Dict String IncidentState
  pub alert_to_incident : Dict String String
  pub persistence : Option IncidentPersistence

abbrev pub init : Option IncidentPersistence → IncidentEngine
init persistence = record { incidents = []; alert_to_incident = []; persistence = persistence }

-- `if self._persistence is not None: self._persistence.enqueue(...)`
unfoldable pub persist_event :
    IncidentPersistenceEvent
    → Option IncidentPersistence
    → Metrics
    → Option IncidentPersistence × Metrics
persist_event event none m = (none, m)
persist_event event (some w) m =
    let (w', m') = enqueue "incident_persistence_dropped_total" event w m in (some w', m')

-- the engine, the metrics and the incident that an operation returns
pub record Changed : Type 0 where
  pub engine : IncidentEngine
  pub metrics : Metrics
  pub drawn : ℕ
  pub incident : Option IncidentState

module _ {F : Type 0} where
  -- the tests of the loop of `_candidate`
  abbrev pub correlates : Alert F → IncidentState → Bool
  correlates alert incident =
      (incident.host_id == alert.host_id)
      && (incident.service_id == alert.service_id)
      && (not (status_eq incident.status resolved)
          && (leb alert.timestamp (incident.last_seen_at + correlation_window)
              && leb incident.last_seen_at (alert.timestamp + correlation_window)))

  unfoldable pub candidate : Alert F → Dict String IncidentState → Option IncidentState
  candidate alert incidents = find (correlates alert) (Dict.values incidents)

  abbrev pub new_incident : String → Alert F → IncidentState
  new_incident id alert = record {
    id = id;
    host_id = alert.host_id;
    service_id = alert.service_id;
    title = concat (
        "Correlated incident on " ∷ or_text alert.service_id (or_text alert.host_id "system") ∷ []);
    status = opened;
    severity = alert.severity;
    first_seen_at = alert.timestamp;
    last_seen_at = alert.timestamp;
    alert_ids = [];
    active_alert_ids = [];
    resolved_at = none;
  }

  -- the branch `else` of `on_alert_created`: an open or acknowledged incident takes the alert in
  unfoldable pub correlate : Alert F → IncidentState → IncidentState
  correlate alert incident = record incident {
    severity =
        if ltb (severity_rank incident.severity) (severity_rank alert.severity)
        then alert.severity
        else incident.severity;
    status = if status_eq incident.status acknowledged then opened else incident.status;
    last_seen_at = max incident.last_seen_at alert.timestamp;
  }

  abbrev pub with_alert : Alert F → IncidentState → IncidentState
  with_alert alert incident = record incident {
    alert_ids = add alert.id incident.alert_ids;
    active_alert_ids = add alert.id incident.active_alert_ids;
  }

  -- what follows the choice of the incident in `on_alert_created`
  unfoldable pub attach : Alert F → IncidentState → ℕ → IncidentEngine → Metrics → Changed
  unfolding persist_event
  attach alert incident drawn e m =
      let (p, m') =
        persist_event (record { incident = with_alert alert incident; alert_id = some alert.id })
          e.persistence m in
      record {
        engine = record {
          incidents = Dict.put incident.id (with_alert alert incident) e.incidents;
          alert_to_incident = Dict.put alert.id incident.id e.alert_to_incident;
          persistence = p;
        };
        metrics = m';
        drawn = drawn;
        incident = some (with_alert alert incident);
      }

  unfoldable pub on_alert_created : (ℕ → String) → Alert F → ℕ → IncidentEngine → Metrics → Changed
  on_alert_created uuid alert drawn e m = elim (candidate alert e.incidents) [
    | none ↦
        attach alert (new_incident (uuid drawn) alert) (drawn + 1) e
          (increment "incident_created_total" 1 m)
    | some incident ↦ attach alert (correlate alert incident) drawn e m
  ]

  -- the incident after one of its alerts was resolved
  unfoldable pub settle : Alert F → IncidentState → IncidentState
  settle alert incident =
      let active = discard alert.id incident.active_alert_ids in
      if is_empty_set active && not (status_eq incident.status resolved)
      then record incident {
        active_alert_ids = active;
        last_seen_at = alert.timestamp;
        status = resolved;
        resolved_at = elim alert.resolved_at [ none ↦ some alert.timestamp | some t ↦ some t ];
      }
      else record incident { active_alert_ids = active; last_seen_at = alert.timestamp }

  abbrev now_resolved : Alert F → IncidentState → Bool
  now_resolved alert incident =
      is_empty_set (discard alert.id incident.active_alert_ids)
      && not (status_eq incident.status resolved)

  unfoldable pub on_alert_resolved : Alert F → ℕ → IncidentEngine → Metrics → Changed
  unfolding persist_event
  on_alert_resolved alert drawn e m =
      let unchanged : Changed = record {
        engine = e;
        metrics = m;
        drawn = drawn;
        incident = none;
      } in
      elim (Dict.get alert.id e.alert_to_incident) [
        | none ↦ unchanged
        | some incident_id ↦ elim (Dict.get incident_id e.incidents) [
          | none ↦ unchanged
          | some incident ↦
              let incident' = settle alert incident in
              let counted =
                if now_resolved alert incident
                then increment "incident_resolved_total" 1 m
                else m in
              let (p, m') =
                persist_event (record { incident = incident'; alert_id = none }) e.persistence
                  counted in
              record {
                engine = record e {
                  incidents = Dict.put incident_id incident' e.incidents;
                  persistence = p;
                };
                metrics = m';
                drawn = drawn;
                incident = some incident';
              }
        ]
      ]

unfoldable pub acknowledge : String → ℕ → IncidentEngine → Metrics → Changed
unfolding persist_event
acknowledge incident_id drawn e m =
    let unchanged : Changed = record { engine = e; metrics = m; drawn = drawn; incident = none } in
    elim (Dict.get incident_id e.incidents) [
      | none ↦ unchanged
      | some incident ↦
          if status_eq incident.status resolved
          then unchanged
          else let incident' : IncidentState = record incident { status = acknowledged } in
            let (p, m') =
              persist_event (record { incident = incident'; alert_id = none }) e.persistence m in
            record {
              engine = record e {
                incidents = Dict.put incident_id incident' e.incidents;
                persistence = p;
              };
              metrics = m';
              drawn = drawn;
              incident = some incident';
            }
    ]

abbrev keep_values : (IncidentState → Bool) → Dict String IncidentState → Dict String IncidentState
keep_values p = keep (λ entry. p entry.1)

unfoldable pub clear_host : String → IncidentEngine → IncidentEngine
clear_host host_id e =
    let left = keep_values (λ item. not (item.host_id == some host_id)) e.incidents in
    record e {
      incidents = left;
      alert_to_incident = keep (λ entry. not (is_none (Dict.get entry.1 left))) e.alert_to_incident;
    }
