-- ===== src/Incidents/Links.antt =====
-- The invariant of the engine, and that each operation on alerts and hosts keeps it: the incidents
-- stand under their ids, are settled (Lifecycle), and the alert index points to incidents that list the
-- alert.
use mathlib.Core.Path.{subst}
use telemetry_backend.Prelude.{
  ℕ, ◌+◌, ◌≡◌, refl, sym, ◌∙◌, ap, String, true, false, not, none, some, [], ◌∷◌, string_eq, ◌==◌,
  ==_iff, ==_refl, elem, keep, is_none, arith, Option-cases, inl, inr, Bool-cases, some_inj,
  if_both, ◌&&◌, option_eq,
}
use telemetry_backend.Prelude.Sets.{discard, elem-add, elem-discard}
use telemetry_backend.Prelude.Dict
use telemetry_backend.Prelude.Dict.{Dict}
use telemetry_backend.Model.{Alert}
use telemetry_backend.Metrics.{Metrics}
use telemetry_backend.Incidents.{
  resolved, status_eq, IncidentState, IncidentEngine, candidate, correlates, new_incident,
  correlate, with_alert, attach, on_alert_created, settle, on_alert_resolved, acknowledge,
  clear_host,
}
use telemetry_backend.Incidents.Lifecycle.{
  AllSettled, on_alert_created-AllSettled, on_alert_resolved-AllSettled, acknowledge-AllSettled,
  clear_host-AllSettled,
}

-- the incident that the index gives for an alert is there, and lists the alert
abbrev pub IsListed : Dict String IncidentState → String → String → Type 0
IsListed incidents alert_id incident_id =
    (i : IncidentState) × (Dict.get incident_id incidents ≡ some i)
    × (elem alert_id i.alert_ids ≡ true)

-- every active alert of an incident is one of its alerts
abbrev pub IsMember : IncidentState → Type 0
IsMember i = (a : String) → (elem a i.active_alert_ids && not (elem a i.alert_ids)) ≡ false

abbrev pub Entry : String → IncidentState → Type 0
Entry k i = (i.id ≡ k) × IsMember i

pub record Inv (e : IncidentEngine) : Type 0 where
  pub distinct : Dict.Distinct e.incidents
  pub settled : AllSettled e.incidents
  pub entries : Dict.Each Entry e.incidents
  pub linked : Dict.Each (IsListed e.incidents) e.alert_to_incident

-- An incident that keeps its alerts may replace the one under its key.
pub IsListed-put :
    (k : String) (i : IncidentState) (d : Dict String IncidentState) (a incident_id : String)
    → ((old : IncidentState)
        → Dict.get k d ≡ some old
        → elem a old.alert_ids ≡ true
        → elem a i.alert_ids ≡ true)
    → IsListed d a incident_id
    → IsListed (Dict.put k i d) a incident_id
IsListed-put k i d a incident_id keeps (old, found, member) = elim (Bool-cases (k == incident_id)) [
  | inl here ↦
      let same = (==_iff k incident_id).0 here in
      (i, Dict.get-put k incident_id i d ∙ rw here, keeps old (rw same found) member)
  | inr there ↦ (old, Dict.get-put k incident_id i d ∙ rw there found, member)
]

-- One incident is replaced by one that keeps its alerts, its id and the membership of its active ones.
replace-Inv :
    (k : String) (old i : IncidentState) (e e' : IncidentEngine)
    → Dict.get k e.incidents ≡ some old
    → AllSettled (Dict.put k i e.incidents)
    → Entry k i
    → ((a : String) → elem a old.alert_ids ≡ true → elem a i.alert_ids ≡ true)
    → Inv e
    → e'.incidents ≡ Dict.put k i e.incidents
    → e'.alert_to_incident ≡ e.alert_to_incident
    → Inv e'
replace-Inv k old i e e' found settled entry keeps v incidents index = record {
  distinct = rw incidents (Dict.Distinct-put k i e.incidents v.distinct);
  settled = rw incidents settled;
  entries = rw incidents (Dict.Each-put Entry k i e.incidents v.entries entry);
  linked =
      rw (incidents, index)
        (Dict.Each-map (IsListed e.incidents) (IsListed (Dict.put k i e.incidents))
          e.alert_to_incident
          (λ a id. IsListed-put k i e.incidents a id (λ o there.
            subst (λ x. elem a x.alert_ids ≡ true → elem a i.alert_ids ≡ true)
              (some_inj old o (sym found ∙ there)) (keeps a)))
          v.linked);
}

module _ {F : Type 0} (alert : Alert F) where
  with_alert-IsMember : (i : IncidentState) → IsMember i → IsMember (with_alert alert i)
  with_alert-IsMember i h a =
      ground (arith, h a, elem-add a alert.id i.alert_ids, elem-add a alert.id i.active_alert_ids)

  -- the incident is new, or one that is there with the same alerts
  attach-Inv :
      (i : IncidentState) (drawn : ℕ) (e : IncidentEngine) (m : Metrics)
      → AllSettled (attach alert i drawn e m).engine.incidents
      → IsMember i
      → ((old : IncidentState) → Dict.get i.id e.incidents ≡ some old → old.alert_ids ≡ i.alert_ids)
      → Inv e
      → Inv (attach alert i drawn e m).engine
  unfolding attach
  attach-Inv i drawn e m settled member same v = record {
    distinct = Dict.Distinct-put i.id (with_alert alert i) e.incidents v.distinct;
    settled = settled;
    entries =
        Dict.Each-put Entry i.id (with_alert alert i) e.incidents v.entries
          (refl, with_alert-IsMember i member);
    linked =
        Dict.Each-put (IsListed (Dict.put i.id (with_alert alert i) e.incidents)) alert.id i.id
          e.alert_to_incident
          (Dict.Each-map (IsListed e.incidents)
            (IsListed (Dict.put i.id (with_alert alert i) e.incidents)) e.alert_to_incident
            (λ a id. IsListed-put i.id (with_alert alert i) e.incidents a id (λ old there known.
              let k : elem a i.alert_ids ≡ true = rw (same old there) at known in
              elem-add a alert.id i.alert_ids ∙ ground (arith, k)))
            v.linked)
          (
            with_alert alert i,
            Dict.get-put_self i.id (with_alert alert i) e.incidents,
            elem-add alert.id alert.id i.alert_ids ∙ ground (arith, ==_refl alert.id),
          );
  }

  correlate-parts :
      (i : IncidentState)
      → ((correlate alert i).id ≡ i.id)
        × ((correlate alert i).alert_ids ≡ i.alert_ids)
        × ((correlate alert i).active_alert_ids ≡ i.active_alert_ids)
  unfolding correlate
  correlate-parts i = (refl, refl, refl)

  settle-parts :
      (i : IncidentState)
      → ((settle alert i).id ≡ i.id)
        × ((settle alert i).alert_ids ≡ i.alert_ids)
        × ((settle alert i).active_alert_ids ≡ discard alert.id i.active_alert_ids)
  unfolding settle
  settle-parts i = (ground arith, ground arith, ground arith)

  pub on_alert_created-Inv :
      (uuid : ℕ → String) (drawn : ℕ) (e : IncidentEngine) (m : Metrics)
      → Dict.get (uuid drawn) e.incidents ≡ none
      → Inv e
      → Inv (on_alert_created uuid alert drawn e m).engine
  unfolding on_alert_created candidate
  on_alert_created-Inv uuid drawn e m fresh v =
      let settled = on_alert_created-AllSettled alert uuid drawn e m v.settled in
      elim (Option-cases (candidate alert e.incidents)) [
        | inl new ↦
            rw (new, on_alert_created)
              (attach-Inv (new_incident (uuid drawn) alert) (drawn + 1) e _
                (rw (new, on_alert_created) at settled) (λ a. refl)
                (λ old there. absurd (ground arith)) v)
        | inr (i, old) ↦
            rw (old, on_alert_created)
              (let (k, found, _) = Dict.get-find (correlates alert) e.incidents i v.distinct old in
                let (id, member) = Dict.Each-get Entry k e.incidents i v.entries found in
                let (same_id, same_alerts, same_active) = correlate-parts i in
                attach-Inv (correlate alert i) drawn e m (rw (old, on_alert_created) at settled)
                  (λ a. rw (same_alerts, same_active) (member a))
                  (λ o there.
                    ap (λ x. x.alert_ids)
                      (some_inj o i (
                        sym there
                        ∙ subst (λ x. Dict.get x e.incidents ≡ some i) (sym (same_id ∙ id)) found))
                    ∙ sym same_alerts)
                  v)
      ]

  pub on_alert_resolved-Inv :
      (drawn : ℕ) (e : IncidentEngine) (m : Metrics)
      → Inv e
      → Inv (on_alert_resolved alert drawn e m).engine
  unfolding on_alert_resolved
  on_alert_resolved-Inv drawn e m v =
      let settled = on_alert_resolved-AllSettled alert drawn e m v.settled in
      elim (Option-cases (Dict.get alert.id e.alert_to_incident)) [
        | inl missing ↦ rw (missing, on_alert_resolved) v
        | inr (incident_id, linked) ↦ elim (Option-cases (Dict.get incident_id e.incidents)) [
          | inl gone ↦ rw (linked, gone, on_alert_resolved) v
          | inr (i, found) ↦
              rw (linked, found, on_alert_resolved)
                (let (id, member) = Dict.Each-get Entry incident_id e.incidents i v.entries found in
                  let (same_id, same_alerts, same_active) = settle-parts i in
                  replace-Inv incident_id i (settle alert i) e _ found
                    (rw (linked, found, on_alert_resolved) at settled)
                    (
                      same_id ∙ id,
                      λ a.
                          rw (same_alerts, same_active)
                            (ground (arith, member a, elem-discard a alert.id i.active_alert_ids)),
                    )
                    (λ a h. rw same_alerts h) v refl refl)
        ]
      ]

pub acknowledge-Inv :
    (incident_id : String) (drawn : ℕ) (e : IncidentEngine) (m : Metrics)
    → Inv e
    → Inv (acknowledge incident_id drawn e m).engine
unfolding acknowledge
acknowledge-Inv incident_id drawn e m v =
    let settled = acknowledge-AllSettled incident_id drawn e m v.settled in
    elim (Option-cases (Dict.get incident_id e.incidents)) [
      | inl gone ↦ rw (gone, acknowledge) v
      | inr (i, found) ↦ elim (Bool-cases (status_eq i.status resolved)) [
        | inl closed ↦ rw (found, acknowledge) (rw closed v)
        | inr open_ ↦
            rw (found, acknowledge)
              (rw open_ (
                let (id, member) = Dict.Each-get Entry incident_id e.incidents i v.entries found in
                replace-Inv incident_id i _ e _ found
                  (rw open_ at (rw (found, acknowledge) at settled)) (id, member) (λ a h. h) v refl
                  refl))
      ]
    ]

linked-left :
    (left : Dict String IncidentState) (d : Dict String IncidentState) (index : Dict String String)
    → ((id : String) (i : IncidentState) → Dict.get id left ≡ some i → Dict.get id d ≡ some i)
    → Dict.Each (IsListed d) index
    → Dict.Each (IsListed left) (keep (λ entry. not (is_none (Dict.get entry.1 left))) index)
linked-left left d [] smaller h = tt
linked-left left d ((a, id) ∷ index) smaller h =
    if_both (Dict.Each (IsListed left)) (not (is_none (Dict.get id left)))
      ((a, id) ∷ keep (λ entry. not (is_none (Dict.get entry.1 left))) index)
      (keep (λ entry. not (is_none (Dict.get entry.1 left))) index)
      (λ there. elim (Option-cases (Dict.get id left)) [
        | inl gone ↦ absurd (ground arith)
        | inr (i, found) ↦
            let (old, found', member) = h.0 in
            (
              (
                i,
                found,
                subst (λ x. elem a x.alert_ids ≡ true)
                    (some_inj old i (sym found' ∙ smaller id i found)) member,
              ),
              linked-left left d index smaller h.1,
            )
      ])
      (λ _. linked-left left d index smaller h.1)

pub clear_host-Inv : (host_id : String) (e : IncidentEngine) → Inv e → Inv (clear_host host_id e)
unfolding clear_host
clear_host-Inv host_id e v =
    let stays = λ (entry : String × IncidentState). not (entry.1.host_id == some host_id) in
    record {
      distinct = Dict.Distinct-keep stays e.incidents v.distinct;
      settled = unfold clear_host in clear_host-AllSettled host_id e v.settled;
      entries = Dict.Each-keep Entry stays e.incidents v.entries;
      linked =
          linked-left (keep stays e.incidents) e.incidents e.alert_to_incident
            (λ id i. Dict.get-keep stays id i e.incidents v.distinct) v.linked;
    }
