-- ===== src/Runtime/Transitions.antt =====
-- The invariant over whole handlers: rule transitions, anomaly results, and `process_event`.
use telemetry_backend.Prelude.{
  All-append, ℕ, ◌+◌, ◌≡◌, refl, String, Bool, true, false, not, Option, none, some, List, [], ◌∷◌,
  string_eq, All, push_bounded-le, if_both,
}
use telemetry_backend.Prelude.Dict
use telemetry_backend.Prelude.Float.{Float}
use telemetry_backend.Model.{Alert, TelemetryEvent, metric_value}
use telemetry_backend.Rules.{
  Action, Rule, RuleState, RuleTransition, Round, evaluate, evaluate_all, evaluate_rule,
  record_transition, observe, state_at, host_key, AlertRuleEngine,
}
use telemetry_backend.Anomalies.{AnomalyResult}
use telemetry_backend.Runtime.{Runtime, Env, count, update_active, or_else}
use telemetry_backend.Runtime.Exec.{Exec, ◌>>=◌}
use telemetry_backend.Runtime.Ensures.{Post, bind-Post}
use telemetry_backend.Runtime.Actions.{
  notify_alert, incident_created, incident_resolved, notify_new_incident, notify_resolved_incident,
}
use telemetry_backend.Runtime.Events.{
  rule_key, announce_created, announce_resolved, apply_rule_transition, apply_transitions,
  process_result, process_results, close_rule_alert, resolve_with, on_anomaly, on_normal,
  anomaly_key, receive, incident_id_of,
}
use telemetry_backend.Runtime.Consistency.{
  Inv, IsOpen, Anything, count-Inv, open_alert-Inv, update_active-Inv, close_alert-Inv,
  persist_alert-Inv, notify_alert-Post, notify_new-Post, notify_resolved-Post,
  incident_created-Post, incident_resolved-Post,
}

-- a transition that opens an alert carries an open one
abbrev pub Opens : {F : Type 0} → RuleTransition F → Type 0
Opens t = elim t.action [ Action.created ↦ t.alert.resolved ≡ false | Action.resolved ↦ Unit {0} ]

module _ {E F P : Type 0} (env : Env F P) where
  -- an action followed by others, where nothing is said of the values
  pub next :
      {A B : Type 0} (m : Exec (Runtime F P) A) (f : A → Exec (Runtime F P) B) (s : Runtime F P)
      → Post E (Inv E F P) Anything (m s)
      → ((a : A) (s' : Runtime F P) → Inv E F P s' → Post E (Inv E F P) Anything (f a s'))
      → Post E (Inv E F P) Anything ((m >>= f) s)
  next m f s h after = bind-Post E (Inv E F P) Anything Anything m f s h (λ a s' q _. after a s' q)

  announce_created-Post :
      (key : String) (host_id : Option String) (a : Alert F) (s : Runtime F P)
      → IsOpen key a
      → Inv E F P s
      → Post E (Inv E F P) Anything (announce_created env key host_id a s)
  unfolding announce_created
  announce_created-Post key host_id a s o h =
      let s1 = count "alert_created_total" s in
      next (incident_created env a) _ s1 (incident_created-Post env a s1 (count-Inv _ s h))
        (λ i s2 h2.
          let named : Alert F = record a { incident_id = incident_id_of i } in
          next (notify_alert env named "created") _ (update_active key named s2)
            (notify_alert-Post env named "created" _ (update_active-Inv key named s2 o h2))
            (λ _ s3 h3.
              next (notify_new_incident env i) _ s3 (notify_new-Post env i s3 h3)
                (λ _ s4 h4. (persist_alert-Inv named host_id s4 h4, tt))))

  announce_resolved-Post :
      (host_id : Option String) (a : Alert F) (s : Runtime F P)
      → Inv E F P s
      → Post E (Inv E F P) Anything (announce_resolved env host_id a s)
  unfolding announce_resolved
  announce_resolved-Post host_id a s h =
      let s1 = count "alert_resolved_total" s in
      next (incident_resolved env a) _ s1 (incident_resolved-Post env a s1 (count-Inv _ s h))
        (λ i s2 h2.
          next (notify_alert env a "resolved") _ s2 (notify_alert-Post env a "resolved" s2 h2)
            (λ _ s3 h3.
              next (notify_resolved_incident env i) _ s3 (notify_resolved-Post env i s3 h3)
                (λ _ s4 h4. (persist_alert-Inv a host_id s4 h4, tt))))

  close_rule_alert-Post :
      (a : Alert F) (existing : Option (Alert F)) (s : Runtime F P)
      → Inv E F P s
      → Post E (Inv E F P) Anything (close_rule_alert env a existing s)
  unfolding close_rule_alert
  close_rule_alert-Post a none s h = (h, tt)
  close_rule_alert-Post a (some existing) s h =
      let closed = resolve_with existing a in
      next (announce_resolved env (or_else existing.host_id s.persistence_host_id) closed) _ _
        (announce_resolved-Post _ closed _ (close_alert-Inv (rule_key a) closed s h))
        (λ _ s' h'. (h', tt))

  apply_rule_transition-Post :
      (t : RuleTransition F) (s : Runtime F P)
      → Opens t
      → Inv E F P s
      → Post E (Inv E F P) Anything (apply_rule_transition env t s)
  unfolding apply_rule_transition
  apply_rule_transition-Post t s o h = by_action t.action o
    where
      by_action :
          (x : Action)
          → Opens (record { alert = t.alert; action = x })
          → Post E
              (Inv E F P)
              Anything
              (apply_rule_transition env (record { alert = t.alert; action = x }) s)
      by_action Action.created o' =
          announce_created-Post (rule_key t.alert) t.alert.host_id t.alert _ o'
            (open_alert-Inv (rule_key t.alert) t.alert s o' h)
      by_action Action.resolved _ =
          close_rule_alert-Post t.alert (Dict.get (rule_key t.alert) s.active_alerts) s h

  pub apply_transitions-Post :
      (ts : List (RuleTransition F)) (s : Runtime F P)
      → All Opens ts
      → Inv E F P s
      → Post E (Inv E F P) Anything (apply_transitions env ts s)
  unfolding apply_transitions
  apply_transitions-Post [] s o h = (h, tt)
  apply_transitions-Post (t ∷ ts) s o h =
      next (apply_rule_transition env t) _ s (apply_rule_transition-Post t s o.0 h) (λ a s1 h1.
        next (apply_transitions env ts) _ s1 (apply_transitions-Post ts s1 o.1 h1)
          (λ _ s2 h2. (h2, tt)))

-- the engine of the rules opens only alerts that are not resolved
module _ {F : Type 0} ⦃fl : Float F⦄ (uuid : ℕ → String) (event : TelemetryEvent F) where
  record_transition-Opens :
      (rule : Rule F) (old s : RuleState) (x : Option Action) (r : Round F)
      → All Opens r.transitions
      → All Opens (record_transition uuid rule event old x s r).transitions
  unfolding record_transition
  record_transition-Opens rule old s none r h = h
  record_transition-Opens rule old s (some Action.created) r h =
      All-append Opens r.transitions _ h (refl, tt)
  record_transition-Opens rule old s (some Action.resolved) r h =
      All-append Opens r.transitions _ h (tt, tt)

  evaluate_rule-Opens :
      (rule : Rule F) (r : Round F)
      → All Opens r.transitions
      → All Opens (evaluate_rule uuid event rule r).transitions
  unfolding evaluate_rule
  evaluate_rule-Opens rule r h =
      let old = state_at (rule.id, host_key event) r.engine.states in
      let seen = observe rule event.timestamp (metric_value event rule.metric) (uuid r.drawn) old in
      if_both (λ x. All Opens x.transitions) (not rule.enabled) r
        (record_transition uuid rule event old seen.1 seen.0 r) (λ _. h)
        (λ _. record_transition-Opens rule old seen.0 seen.1 r h)

  evaluate_all-Opens :
      (rules : List (Rule F)) (r : Round F)
      → All Opens r.transitions
      → All Opens (evaluate_all uuid event rules r).transitions
  unfolding evaluate_all
  evaluate_all-Opens [] r h = h
  evaluate_all-Opens (rule ∷ rules) r h =
      evaluate_all-Opens rules (evaluate_rule uuid event rule r) (evaluate_rule-Opens rule r h)

  pub evaluate-Opens :
      (drawn : ℕ) (e : AlertRuleEngine F) → All Opens (evaluate uuid event drawn e).transitions
  unfolding evaluate
  evaluate-Opens drawn e = evaluate_all-Opens (Dict.values e.rules) _ tt

module _ {E F P : Type 0} ⦃fl : Float F⦄ (env : Env F P) (event : TelemetryEvent F) where
  drew : (s : Runtime F P) → Inv E F P s → Inv E F P (record s { drawn = s.drawn + 1 })
  drew s h = record {
    open_alerts = h.open_alerts;
    history_fits = h.history_fits;
    alerts_fit = h.alerts_fit;
    quiet = h.quiet;
  }

  on_anomaly-Post :
      (r : AnomalyResult F) (o : Option (Alert F)) (s : Runtime F P)
      → ((a : Alert F) → o ≡ some a → IsOpen "" a)
      → Inv E F P s
      → Post E (Inv E F P) Anything (on_anomaly env event r o s)
  unfolding on_anomaly
  on_anomaly-Post r none s o h =
      next {E = E} env (announce_created env (anomaly_key event r.metric) _ _) _ _
        (announce_created-Post env _ _ _ _ refl (open_alert-Inv _ _ _ refl (drew s h)))
        (λ _ s' h'. (h', tt))
  on_anomaly-Post r (some existing) s o h = (update_active-Inv _ _ s (o existing refl) h, tt)

  on_normal-Post :
      (r : AnomalyResult F) (o : Option (Alert F)) (s : Runtime F P)
      → Inv E F P s
      → Post E (Inv E F P) Anything (on_normal env event r o s)
  unfolding on_normal
  on_normal-Post r none s h = (h, tt)
  on_normal-Post r (some existing) s h =
      let closed : Alert F = record existing { resolved = true; resolved_at = some env.now } in
      next {E = E} env (announce_resolved env _ closed) _ _
        (announce_resolved-Post env _ closed _ (close_alert-Inv _ closed s h)) (λ _ s' h'. (h', tt))

  process_result-Post :
      (r : AnomalyResult F) (s : Runtime F P)
      → Inv E F P s
      → Post E (Inv E F P) Anything (process_result env event r s)
  unfolding process_result
  process_result-Post r s h =
      let existing = Dict.get (anomaly_key event r.metric) s.active_alerts in
      if_both (Post E (Inv E F P) Anything) r.is_anomaly _ _
        (λ _.
          on_anomaly-Post r existing s
            (λ a found. Dict.Each-get IsOpen _ s.active_alerts a h.open_alerts found) h)
        (λ _. on_normal-Post r existing s h)

  pub process_results-Post :
      (rs : List (AnomalyResult F)) (s : Runtime F P)
      → Inv E F P s
      → Post E (Inv E F P) Anything (process_results env event rs s)
  unfolding process_results
  process_results-Post [] s h = (h, tt)
  process_results-Post (r ∷ rs) s h =
      next {E = E} env (process_result env event r) _ s (process_result-Post r s h) (λ a s1 h1.
        next {E = E} env (process_results env event rs) _ s1 (process_results-Post rs s1 h1)
          (λ _ s2 h2. (h2, tt)))

  pub receive-Inv :
      (persist : Bool) (s : Runtime F P)
      → Inv E F P s
      → Inv E F P (receive {P = P} env event persist s)
  unfolding receive
  receive-Inv persist s h = record {
    open_alerts = h.open_alerts;
    history_fits = push_bounded-le s.max_history_size event s.history;
    alerts_fit = h.alerts_fit;
    quiet = h.quiet;
  }
