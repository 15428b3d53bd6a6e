-- ===== src/Incidents/Storage.antt =====
-- app/services/incident_engine.py: `_persist` of IncidentPersistence and `hydrate` of IncidentEngine, and
-- the rows of app/models/db.py that they write and read. A table with a primary key is a dict. `ordered`
-- stands for the order in which the database returns the rows of an `order_by`; `now` is the clock.
pub mod Restore
pub mod Blocked
use telemetry_backend.Prelude.{
  ℕ, String, Bool, true, false, ◌&&◌, Option, none, some, List, [], ◌∷◌, ◌++◌, string_eq, ◌==◌,
  if◌then◌else◌, elem, keep, is_none, map,
}
use telemetry_backend.Prelude.Sets.{add}
use telemetry_backend.Prelude.Dict
use telemetry_backend.Prelude.Dict.{Dict}
use telemetry_backend.Model.{Severity}
use telemetry_backend.Persistence.Alerts.{AlertRecord}
use telemetry_backend.Incidents.{Status, IncidentState, IncidentEngine, IncidentPersistenceEvent}

pub record Incident : Type 0 where
  pub id : String
  pub host_id : Option String
  pub service_id : Option String
  pub title : String
  pub status : Status
  pub severity : Severity
  pub first_seen_at : ℕ
  pub last_seen_at : ℕ
  pub resolved_at : Option ℕ
  pub created_at : ℕ
  pub updated_at : ℕ

pub record IncidentAlert : Type 0 where
  pub incident_id : String
  pub alert_id : String
  pub added_at : ℕ

pub record Database (F : Type 0) : Type 0 where
  pub incidents : Dict String Incident
  pub incident_alerts : List IncidentAlert
  pub alert_records : Dict String (AlertRecord F)

-- the row that is added or changed
unfoldable pub row_after : ℕ → IncidentState → Option Incident → Incident
row_after now incident existing = record {
  id = incident.id;
  host_id = incident.host_id;
  service_id = incident.service_id;
  title = incident.title;
  status = incident.status;
  severity = incident.severity;
  first_seen_at = incident.first_seen_at;
  last_seen_at = incident.last_seen_at;
  resolved_at = incident.resolved_at;
  created_at = elim existing [ none ↦ now | some row ↦ row.created_at ];
  updated_at = now;
}

abbrev pub is_link : String → String → IncidentAlert → Bool
is_link incident_id alert_id l = (l.incident_id == incident_id) && (l.alert_id == alert_id)

unfoldable pub has_link : String → String → List IncidentAlert → Bool
has_link i a [] = false
has_link i a (l ∷ links) = let rest = has_link i a links in if is_link i a l then true else rest

-- state.alert_ids, after the loop over the links of the incident
unfoldable pub linked : String → List IncidentAlert → List String → List String
linked i [] ids = ids
linked i (l ∷ links) ids = linked i links (if l.incident_id == i then add l.alert_id ids else ids)

-- self._alert_to_incident, after that loop
unfoldable pub mapped : String → List IncidentAlert → Dict String String → Dict String String
mapped i [] d = d
mapped i (l ∷ links) d = mapped i links (if l.incident_id == i then Dict.put l.alert_id i d else d)

module _ {F : Type 0} where
  -- the second half of the transaction; `none` stands for the RuntimeError
  unfoldable pub link_alert : ℕ → String → Option String → Database F → Option (Database F)
  link_alert now incident_id none db = some db
  link_alert now incident_id (some alert_id) db =
      if is_none (Dict.get alert_id db.alert_records)
      then none
      else if has_link incident_id alert_id db.incident_alerts
      then some db
      else some (record db {
        incident_alerts =
            db.incident_alerts
            ++ record { incident_id = incident_id; alert_id = alert_id; added_at = now } ∷ [];
      })

  -- `_persist`, if the database takes the transaction
  unfoldable pub persist : ℕ → IncidentPersistenceEvent → Database F → Option (Database F)
  unfolding link_alert
  persist now event db =
      let incident = event.incident in
      link_alert now incident.id event.alert_id (record db {
        incidents =
            Dict.put incident.id (row_after now incident (Dict.get incident.id db.incidents))
              db.incidents;
      })

  -- AlertRecord.id.in_(alert_ids), AlertRecord.status == "active"
  abbrev pub active_among : List String → Database F → List String
  active_among ids db =
      map (λ (a : AlertRecord F). a.id)
        (keep (λ a. elem a.id ids && (a.status == "active")) (Dict.values db.alert_records))

  unfoldable pub restored : Database F → Incident → IncidentState
  unfolding linked
  restored db row = record {
    id = row.id;
    host_id = row.host_id;
    service_id = row.service_id;
    title = row.title;
    status = row.status;
    severity = row.severity;
    first_seen_at = row.first_seen_at;
    last_seen_at = row.last_seen_at;
    alert_ids = linked row.id db.incident_alerts [];
    active_alert_ids = active_among (linked row.id db.incident_alerts []) db;
    resolved_at = row.resolved_at;
  }

  -- the loop of `hydrate`
  unfoldable pub hydrate_rows : Database F → List Incident → IncidentEngine → IncidentEngine
  unfolding restored mapped
  hydrate_rows db [] e = e
  hydrate_rows db (row ∷ rows) e = hydrate_rows db rows (record e {
    incidents = Dict.put row.id (restored db row) e.incidents;
    alert_to_incident = mapped row.id db.incident_alerts e.alert_to_incident;
  })

  unfoldable pub hydrate :
      (List Incident → List Incident) → Database F → IncidentEngine → IncidentEngine
  unfolding hydrate_rows
  hydrate ordered db e = hydrate_rows db (ordered (Dict.values db.incidents)) e
