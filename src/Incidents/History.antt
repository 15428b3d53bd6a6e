-- ===== src/Incidents/History.antt =====
-- The invariant of the engine over its life: `hydrate` at the start, and then the operations that the
-- program calls.
use telemetry_backend.Prelude.{
  ◌≡◌, refl, ap, ℕ, String, true, false, not, Option, none, List, [], ◌∷◌, string_eq, ◌==◌, ==_iff,
  ==_refl, elem, keep, map, All, arith, inl, inr, Bool-cases, ◌&&◌,
}
use telemetry_backend.Prelude.Sets.{add, elem-add}
use telemetry_backend.Prelude.Dict
use telemetry_backend.Prelude.Dict.{Dict}
use telemetry_backend.Model.{Alert}
use telemetry_backend.Metrics.{Metrics}
use telemetry_backend.Persistence.Alerts.{AlertRecord}
use telemetry_backend.Incidents.{
  IncidentState, IncidentEngine, init, IncidentPersistence, on_alert_created, on_alert_resolved,
  acknowledge, clear_host,
}
use telemetry_backend.Incidents.Lifecycle.{IsSettled}
use telemetry_backend.Incidents.Links.{
  Inv, Entry, IsListed, IsListed-put, on_alert_created-Inv, on_alert_resolved-Inv, acknowledge-Inv,
  clear_host-Inv,
}
use telemetry_backend.Incidents.Storage.{
  Incident, IncidentAlert, Database, linked, mapped, restored, hydrate_rows, hydrate,
}

elem-linked :
    (i a : String) (links : List IncidentAlert) (ids : List String)
    → elem a ids ≡ true
    → elem a (linked i links ids) ≡ true
unfolding linked
elem-linked i a [] ids h = h
elem-linked i a (l ∷ links) ids h = elim (Bool-cases (l.incident_id == i)) [
  | inl here ↦
      rw here
        (elem-linked i a links (add l.alert_id ids) (ground (arith, elem-add a l.alert_id ids)))
  | inr there ↦ rw there (elem-linked i a links ids h)
]

-- the index after the loop over the links of an incident
mapped-Each :
    (P : String → String → Type 0) (i : String) (links : List IncidentAlert) (ids : List String)
    (d : Dict String String)
    → Dict.Each P d
    → ((a : String) → elem a (linked i links ids) ≡ true → P a i)
    → Dict.Each P (mapped i links d)
unfolding linked mapped
mapped-Each P i [] ids d h all = h
mapped-Each P i (l ∷ links) ids d h all = elim (Bool-cases (l.incident_id == i)) [
  | inl here ↦
      let all' = rw here at all in
      rw here (
        mapped-Each P i links (add l.alert_id ids) (Dict.put l.alert_id i d)
          (Dict.Each-put P l.alert_id i d h (
            all' l.alert_id (
              elem-linked i l.alert_id links (add l.alert_id ids)
                (ground (arith, elem-add l.alert_id l.alert_id ids, ==_refl l.alert_id)))))
          all')
  | inr there ↦ rw there (mapped-Each P i links ids d h (rw there at all))
]

module _ {F : Type 0} (db : Database F) where
  elem-active :
      (a : String) (ids : List String) (rows : List (AlertRecord F))
      → (elem a (
            map
              (λ (r : AlertRecord F). r.id)
              (keep (λ r. elem r.id ids && (r.status == "active")) rows))
          && not (elem a ids))
        ≡ false
  elem-active a ids [] = refl
  elem-active a ids (r ∷ rows) = elim (Bool-cases (a == r.id)) [
    | inl here ↦
        let same = (==_iff a r.id).0 here in
        ground (arith, elem-active a ids rows, ap (λ x. elem x ids) same)
    | inr there ↦ ground (arith, elem-active a ids rows)
  ]

  -- an incident of the engine lists the alerts that the links give it
  abbrev Lists : String → IncidentState → Type 0
  Lists k i = i.alert_ids ≡ linked k db.incident_alerts []

  hydrate_rows-Inv :
      (rows : List Incident) (e : IncidentEngine)
      → All (λ row. IsSettled (restored db row)) rows
      → Dict.Each Lists e.incidents
      → Inv e
      → Inv (hydrate_rows db rows e)
  unfolding hydrate_rows
  hydrate_rows-Inv [] e settled lists v = v
  hydrate_rows-Inv (row ∷ rows) e settled lists v =
      let i = restored db row in
      let d = Dict.put row.id i e.incidents in
      hydrate_rows-Inv rows _ settled.1
        (Dict.Each-put Lists row.id i e.incidents lists (unfold restored in refl))
        (record {
          distinct = Dict.Distinct-put row.id i e.incidents v.distinct;
          settled = Dict.Each-put (λ _ x. IsSettled x) row.id i e.incidents v.settled settled.0;
          entries = Dict.Each-put Entry row.id i e.incidents v.entries (
            unfold restored in refl,
            λ a.
                unfold restored in
                elem-active a (linked row.id db.incident_alerts []) (Dict.values db.alert_records),
          );
          linked =
              mapped-Each (IsListed d) row.id db.incident_alerts [] e.alert_to_incident
                (Dict.Each-map (IsListed e.incidents) (IsListed d) e.alert_to_incident
                  (λ a id. IsListed-put row.id i e.incidents a id (λ old found there.
                    unfold restored in
                    rw (Dict.Each-get Lists row.id e.incidents old lists found) at there))
                  v.linked)
                (λ a there. (i, Dict.get-put_self row.id i e.incidents, unfold restored in there));
        })

-- What the program does to an engine after the start, over alerts with values of a type F. A new
-- identifier is not in use: `uuid4` does not repeat. `hydrate` is no step, since only the start of the
-- process calls it.
pub data Step (F : Type 0) (e : IncidentEngine) : IncidentEngine → Type 0 where
  alert_created :
      (uuid : ℕ → String) (drawn : ℕ) (alert : Alert F) (m : Metrics)
      → Dict.get (uuid drawn) e.incidents ≡ none
      → Step F e (on_alert_created uuid alert drawn e m).engine
  alert_resolved :
      (drawn : ℕ) (alert : Alert F) (m : Metrics)
      → Step F e (on_alert_resolved alert drawn e m).engine
  acknowledged_by :
      (drawn : ℕ) (incident_id : String) (m : Metrics)
      → Step F e (acknowledge incident_id drawn e m).engine
  host_cleared : (host_id : String) → Step F e (clear_host host_id e)

pub data Reach (F : Type 0) (e : IncidentEngine) : IncidentEngine → Type 0 where
  here : Reach F e e
  next : {e' e'' : IncidentEngine} → Reach F e e' → Step F e' e'' → Reach F e e''

Step-Inv : {F : Type 0} {e e' : IncidentEngine} → Step F e e' → Inv e → Inv e'
Step-Inv {e = e} (alert_created uuid drawn alert m fresh) v =
    on_alert_created-Inv alert uuid drawn e m fresh v
Step-Inv {e = e} (alert_resolved drawn alert m) v = on_alert_resolved-Inv alert drawn e m v
Step-Inv {e = e} (acknowledged_by drawn incident_id m) v = acknowledge-Inv incident_id drawn e m v
Step-Inv {e = e} (host_cleared host_id) v = clear_host-Inv host_id e v

-- From the engine that `hydrate` builds at the start, after any sequence of created and resolved
-- alerts, acknowledgements and cleared hosts: each incident stands under its own id, is resolved
-- exactly if none of its alerts is active and exactly then has the instant of its resolution, counts
-- every active alert among its alerts, and every alert of the index belongs to an incident that is
-- there and lists it. The condition on the database is that each incident row agrees with the rows of
-- its alerts: it is resolved exactly if none of them is active, and exactly then has the instant of its
-- resolution (a database without incidents meets it). Two writers fill these tables, so a process that
-- ends between their transactions can leave rows that do not.
pub Reach-Inv :
    {F : Type 0} (persistence : Option IncidentPersistence)
    (ordered : List Incident → List Incident) (db : Database F) {e : IncidentEngine}
    → All (λ row. IsSettled (restored db row)) (ordered (Dict.values db.incidents))
    → Reach F (hydrate ordered db (init persistence)) e
    → Inv e
unfolding hydrate
Reach-Inv persistence ordered db settled here =
    hydrate_rows-Inv db (ordered (Dict.values db.incidents)) (init persistence) settled tt
      (record { distinct = tt; settled = tt; entries = tt; linked = tt })
Reach-Inv persistence ordered db settled (next r s) =
    Step-Inv s (Reach-Inv persistence ordered db settled r)
