-- ===== src/Incidents/Lifecycle.antt =====
-- The life of an incident: open while one of its alerts is, resolved when none is.
use telemetry_backend.Prelude.{
  ℕ, ◌+◌, ◌≡◌, refl, String, true, false, not, none, some, List, [], ◌∷◌, string_eq, ◌==◌, is_none,
  arith, Option-cases, inl, inr, Bool-cases, option_eq,
}
use telemetry_backend.Prelude.Dict
use telemetry_backend.Prelude.Dict.{Dict}
use telemetry_backend.Model.{Alert}
use telemetry_backend.Metrics.{Metrics}
use telemetry_backend.Incidents.{
  resolved, status_eq, IncidentState, IncidentEngine, add, discard, correlates, candidate,
  new_incident, correlate, with_alert, attach, on_alert_created, is_empty_set, settle,
  on_alert_resolved, acknowledge, clear_host,
}

-- An incident is resolved exactly if none of its alerts is active, and exactly then it has the
-- instant of its resolution.
abbrev pub IsSettled : IncidentState → Type 0
IsSettled i =
    (is_empty_set i.active_alert_ids ≡ status_eq i.status resolved)
    × (is_none i.resolved_at ≡ not (status_eq i.status resolved))

abbrev pub AllSettled : Dict String IncidentState → Type 0
AllSettled = Dict.Each (λ _ i. IsSettled i)

add-nonempty : (a : String) (s : List String) → is_empty_set (add a s) ≡ false
add-nonempty a [] = refl
add-nonempty a (b ∷ s) = ground arith

module _ {F : Type 0} (alert : Alert F) where
  with_alert-IsSettled :
      (i : IncidentState)
      → status_eq i.status resolved ≡ false
      → i.resolved_at ≡ none
      → IsSettled (with_alert alert i)
  with_alert-IsSettled i open_ none_ = ground (arith, add-nonempty alert.id i.active_alert_ids)

  correlate-open :
      (i : IncidentState)
      → IsSettled i
      → correlates alert i ≡ true
      → (status_eq (correlate alert i).status resolved ≡ false)
        × ((correlate alert i).resolved_at ≡ none)
  unfolding correlate
  correlate-open i h c = ground arith

  settle-IsSettled : (i : IncidentState) → IsSettled i → IsSettled (settle alert i)
  unfolding settle
  settle-IsSettled i h = ground arith

  settle-resolved :
      (i : IncidentState)
      → IsSettled i
      → status_eq (settle alert i).status resolved
        ≡ is_empty_set (discard alert.id i.active_alert_ids)
  unfolding settle
  settle-resolved i h = ground arith

  attach-AllSettled :
      (i : IncidentState) (drawn : ℕ) (e : IncidentEngine) (m : Metrics)
      → AllSettled e.incidents
      → status_eq i.status resolved ≡ false
      → i.resolved_at ≡ none
      → AllSettled (attach alert i drawn e m).engine.incidents
  unfolding attach
  attach-AllSettled i drawn e m h open_ none_ =
      Dict.Each-put (λ _ x. IsSettled x) i.id (with_alert alert i) e.incidents h
        (with_alert-IsSettled i open_ none_)

  pub on_alert_created-AllSettled :
      (uuid : ℕ → String) (drawn : ℕ) (e : IncidentEngine) (m : Metrics)
      → AllSettled e.incidents
      → AllSettled (on_alert_created uuid alert drawn e m).engine.incidents
  unfolding on_alert_created candidate
  on_alert_created-AllSettled uuid drawn e m h = elim (Option-cases (candidate alert e.incidents)) [
    | inl new ↦
        rw (new, on_alert_created)
          (attach-AllSettled (new_incident (uuid drawn) alert) (drawn + 1) e _ h refl refl)
    | inr (i, old) ↦
        rw (old, on_alert_created)
          (let (_, settled, c) =
              Dict.Each-find (λ _ x. IsSettled x) (correlates alert) e.incidents i h old in
            let (open_, none_) = correlate-open i settled c in
            attach-AllSettled (correlate alert i) drawn e m h open_ none_)
  ]

  pub on_alert_resolved-AllSettled :
      (drawn : ℕ) (e : IncidentEngine) (m : Metrics)
      → AllSettled e.incidents
      → AllSettled (on_alert_resolved alert drawn e m).engine.incidents
  unfolding on_alert_resolved
  on_alert_resolved-AllSettled drawn e m h =
      elim (Option-cases (Dict.get alert.id e.alert_to_incident)) [
        | inl missing ↦ rw (missing, on_alert_resolved) h
        | inr (incident_id, linked) ↦ elim (Option-cases (Dict.get incident_id e.incidents)) [
          | inl gone ↦ rw (linked, gone, on_alert_resolved) h
          | inr (i, found) ↦
              rw (linked, found, on_alert_resolved)
                (Dict.Each-put (λ _ x. IsSettled x) incident_id (settle alert i) e.incidents h
                  (settle-IsSettled i
                    (Dict.Each-get (λ _ x. IsSettled x) incident_id e.incidents i h found)))
        ]
      ]

pub acknowledge-AllSettled :
    (incident_id : String) (drawn : ℕ) (e : IncidentEngine) (m : Metrics)
    → AllSettled e.incidents
    → AllSettled (acknowledge incident_id drawn e m).engine.incidents
unfolding acknowledge
acknowledge-AllSettled incident_id drawn e m h =
    elim (Option-cases (Dict.get incident_id e.incidents)) [
      | inl gone ↦ rw (gone, acknowledge) h
      | inr (i, found) ↦ elim (Bool-cases (status_eq i.status resolved)) [
        | inl closed ↦ rw (found, acknowledge) (rw closed h)
        | inr open_ ↦
            rw (found, acknowledge)
              (rw open_ (
                Dict.Each-put (λ _ x. IsSettled x) incident_id _ e.incidents h
                  (let s = Dict.Each-get (λ _ x. IsSettled x) incident_id e.incidents i h found in
                    ground arith)))
      ]
    ]

pub clear_host-AllSettled :
    (host_id : String) (e : IncidentEngine)
    → AllSettled e.incidents
    → AllSettled (clear_host host_id e).incidents
unfolding clear_host
clear_host-AllSettled host_id e h =
    Dict.Each-keep (λ _ i. IsSettled i) (λ entry. not (entry.1.host_id == some host_id)) e.incidents
      h
