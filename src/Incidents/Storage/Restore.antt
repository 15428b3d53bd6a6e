-- ===== src/Incidents/Storage/Restore.antt =====
-- What `hydrate` restores of an incident that `_persist` wrote.
use telemetry_backend.Prelude.{
  ℕ, ◌≡◌, refl, ◌∙◌, String, true, false, ◌||◌, Option, none, some, List, [], ◌∷◌, ◌++◌, string_eq,
  ◌==◌, ==_iff, if◌then◌else◌, elem, arith, All, ◌⊎◌, inl, inr, ◌↔◌, sym, Bool-cases, option_eq,
  if_both, if-some,
}
use mathlib.Core.Path.{subst}
use telemetry_backend.Prelude.Sets.{add, elem-add}
use telemetry_backend.Prelude.Dict
use telemetry_backend.Prelude.Dict.{Dict}
use telemetry_backend.Incidents.{IncidentEngine, IncidentPersistenceEvent}
use telemetry_backend.Incidents.Storage.{
  Incident, IncidentAlert, Database, row_after, has_link, is_link, link_alert, persist, linked,
  mapped, active_among, restored, hydrate_rows, hydrate,
}

-- one row for each primary key, under it
abbrev pub IsTable : Dict String Incident → Type 0
IsTable [] = Unit {0}
IsTable ((k, row) ∷ d) = (k ≡ row.id) × (Dict.get k d ≡ none) × IsTable d

IsTable-put :
    (k : String) (row : Incident) (d : Dict String Incident)
    → IsTable d
    → k ≡ row.id
    → IsTable (Dict.put k row d)
unfolding Dict.put Dict.get
IsTable-put k row [] t e = (e, refl, tt)
IsTable-put k row ((j, old) ∷ d) (same, fresh, t) e =
    if_both IsTable (j == k) ((j, row) ∷ d) ((j, old) ∷ Dict.put k row d)
      (λ here. ((==_iff j k).0 here ∙ e, fresh, t))
      (λ other. (
        same,
        rw (Dict.get-put k j row d) (ground (arith, fresh, other, ==_iff k j, ==_iff j k)),
        IsTable-put k row d t e,
      ))

absent_rows :
    (i : String) (d : Dict String Incident)
    → IsTable d
    → Dict.get i d ≡ none
    → All (λ row. (row.id == i) ≡ false) (Dict.values d)
unfolding Dict.get
absent_rows i [] t e = tt
absent_rows i ((k, row) ∷ d) (same, fresh, t) e =
    (rw (sym same) (ground arith), absent_rows i d t (ground arith))

-- the rows with a primary key are the row that is found under it
get-All :
    (i : String) (r : Incident) (d : Dict String Incident)
    → IsTable d
    → Dict.get i d ≡ some r
    → All (λ row. (row.id == i) ≡ true → row ≡ r) (Dict.values d)
unfolding Dict.get
get-All i r [] t e = tt
get-All i r ((k, row) ∷ d) (same, fresh, t) e = elim (if-some (k == i) row (Dict.get i d) r e) [
  | inl (here, found) ↦ (
    λ _. found,
    later d (absent_rows i d t (subst (λ j. Dict.get j d ≡ none) ((==_iff k i).0 here) fresh)),
  )
  | inr (other, found) ↦
      (λ here. absurd (ground (arith, same, other, here, ==_iff k i)), get-All i r d t found)
]
  where
    later :
        (d : Dict String Incident)
        → All (λ row. (row.id == i) ≡ false) (Dict.values d)
        → All (λ row. (row.id == i) ≡ true → row ≡ r) (Dict.values d)
    later [] h = tt
    later (x ∷ d) (h, hs) = (λ t. absurd (ground (arith, h, t)), later d hs)

no_rows :
    (i : String) (r : Incident) (d : Dict String Incident)
    → IsTable d
    → Dict.get i d ≡ some r
    → All (λ row. (row.id == i) ≡ false) (Dict.values d)
    → ⊥
unfolding Dict.get
no_rows i r [] t e h = absurd (ground arith)
no_rows i r ((k, row) ∷ d) (same, fresh, t) e (h, hs) =
    elim (if-some (k == i) row (Dict.get i d) r e) [
      | inl (here, found) ↦ absurd (ground (arith, same, here, h, ==_iff k i))
      | inr (other, found) ↦ no_rows i r d t found hs
    ]

-- the set of alerts has those of the links
elem-linked :
    (a i : String) (links : List IncidentAlert) (ids : List String)
    → elem a (linked i links ids) ≡ (elem a ids || has_link i a links)
unfolding linked has_link
elem-linked a i [] ids = ground arith
elem-linked a i (l ∷ links) ids =
    elem-linked a i links (if l.incident_id == i then add l.alert_id ids else ids)
    ∙ ground (arith, elem-add a l.alert_id ids, ==_iff a l.alert_id, ==_iff l.alert_id a)

has_link-append :
    (i a : String) (links : List IncidentAlert) (l : IncidentAlert)
    → has_link i a (links ++ l ∷ []) ≡ (has_link i a links || is_link i a l)
unfolding has_link
has_link-append i a [] l = ground arith
has_link-append i a (k ∷ links) l = ground (arith, has_link-append i a links l)

module _ {F : Type 0} (db : Database F) where
  -- the loop leaves the state that the row of an incident gives, unless no row is its
  hydrate_rows-get :
      (i : String) (r : Incident) (rows : List Incident) (e : IncidentEngine)
      → All (λ row. (row.id == i) ≡ true → row ≡ r) rows
      → (Dict.get i (hydrate_rows db rows e).incidents ≡ some (restored db r))
        ⊎ ((Dict.get i (hydrate_rows db rows e).incidents ≡ Dict.get i e.incidents)
            × All (λ row. (row.id == i) ≡ false) rows)
  unfolding hydrate_rows
  hydrate_rows-get i r [] e h = inr (refl, tt)
  hydrate_rows-get i r (row ∷ rows) e (h, hs) =
      let e' : IncidentEngine = record e {
        incidents = Dict.put row.id (restored db row) e.incidents;
        alert_to_incident = mapped row.id db.incident_alerts e.alert_to_incident;
      } in
      elim (hydrate_rows-get i r rows e' hs) [
        | inl found ↦ inl found
        | inr (kept, none_later) ↦ elim (Bool-cases (row.id == i)) [
          | inl same ↦
              inl
                (kept ∙ rw (Dict.get-put row.id i (restored db row) e.incidents, same, h same) refl)
          | inr other ↦ inr (
            kept ∙ rw (Dict.get-put row.id i (restored db row) e.incidents, other) refl,
            (other, none_later),
          )
        ]
      ]

  hydrate-get :
      (ordered : List Incident → List Incident)
      → ((P : Incident → Type 0) (rows : List Incident) → All P (ordered rows) ↔ All P rows)
      → IsTable db.incidents
      → (e : IncidentEngine) (i : String) (r : Incident) → Dict.get i db.incidents ≡ some r
      → Dict.get i (hydrate ordered db e).incidents ≡ some (restored db r)
  unfolding hydrate
  hydrate-get ordered same t e i r found =
      let rows = Dict.values db.incidents in
      elim (hydrate_rows-get i r (ordered rows) e (
        (same (λ row. (row.id == i) ≡ true → row ≡ r) rows).1 (get-All i r db.incidents t found))) [
          | inl here ↦ here
          | inr (_, absent) ↦ absurd (
              no_rows i r db.incidents t found
                ((same (λ row. (row.id == i) ≡ false) rows).0 absent))
        ]

-- what the transaction of `_persist` leaves
record Written {F : Type 0} (incidents : Dict String Incident) (i : String) (alert : Option String)
    (db db' : Database F) : Type 0 where
  rows : db'.incidents ≡ incidents
  links :
      (a : String)
      → has_link i a db'.incident_alerts ≡ (has_link i a db.incident_alerts || (alert == some a))

link_alert-Written :
    {F : Type 0} (now : ℕ) (i : String) (alert : Option String) (db db' : Database F)
    → link_alert now i alert db ≡ some db'
    → Written db.incidents i alert db db'
unfolding link_alert
link_alert-Written now i none db db' e = record {
  rows = ground (arith, e);
  links = λ a. ground (arith, e);
}
link_alert-Written now i (some x) db db' e = record {
  rows = ground (arith, e);
  links = λ a. ground (
    arith,
    e,
    ==_iff x a,
    ==_iff i i,
    has_link-append i a db.incident_alerts
        (record { incident_id = i; alert_id = x; added_at = now }),
  );
}

-- If the database holds one row for each key and `_persist` succeeds for an event, then `hydrate` restores
-- from the tables, in whatever order they come, the incident of that event: each field is as in the
-- event, except the two sets of alerts, of which one has exactly the alerts that were linked before and the
-- one of the event, and the other those of them whose rows are active.
pub hydrate-persist :
    {F : Type 0} (ordered : List Incident → List Incident)
    → ((P : Incident → Type 0) (rows : List Incident) → All P (ordered rows) ↔ All P rows)
    → (now : ℕ) (event : IncidentPersistenceEvent) (db db' : Database F) → IsTable db.incidents
    → persist now event db ≡ some db'
    → (e : IncidentEngine)
    → let i = event.incident in
      let ids = linked i.id db'.incident_alerts [] in
      (Dict.get i.id (hydrate ordered db' e).incidents
        ≡ some (record i { alert_ids = ids; active_alert_ids = active_among ids db' }))
      × ((a : String)
          → elem a ids ≡ (has_link i.id a db.incident_alerts || (event.alert_id == some a)))
unfolding persist restored row_after
hydrate-persist ordered same now event db db' t done e =
    let i = event.incident in
    let row = row_after now i (Dict.get i.id db.incidents) in
    let w =
      link_alert-Written now i.id event.alert_id
        (record db { incidents = Dict.put i.id row db.incidents }) db' done in
    (
      hydrate-get db' ordered same
          (subst IsTable (sym w.rows) (IsTable-put i.id row db.incidents t refl)) e i.id row
          (rw w.rows (Dict.get-put_self i.id row db.incidents)),
      λ a. elem-linked a i.id db'.incident_alerts [] ∙ ground (arith, w.links a),
    )
