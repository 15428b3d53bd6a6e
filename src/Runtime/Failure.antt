-- ===== src/Runtime/Failure.antt =====
-- What a full notification queue does to the alert handlers.
use telemetry_backend.Prelude.{
  ℕ, ◌≡◌, refl, ap, String, Bool, true, not, Option, some, List, [], ◌∷◌, string_eq, arith, find,
  Bool-cases, inl, inr, is_none,
}
use telemetry_backend.Prelude.Dict
use telemetry_backend.Prelude.Queue.{full}
use telemetry_backend.Model.{Alert, severity_value}
use telemetry_backend.Metrics.{Metrics}
use telemetry_backend.Rules.{RuleTransition, Action}
use telemetry_backend.Notifications
use telemetry_backend.Notifications.{
  WebhookChannel, NotificationDispatcher, Result, ok, raised, name_error, Error, enqueue_channels,
  wants, alert_event, job_for,
}
use telemetry_backend.Notifications.Overflow.{queue_job-full}
use telemetry_backend.Runtime.{Runtime, Env, open_alert, update_active, count}
use telemetry_backend.Runtime.Exec.{Exec, ◌>>=◌, resume}
use telemetry_backend.Runtime.Actions.{notify, notify_alert, incident_created}
use telemetry_backend.Runtime.Events.{
  rule_key, announce_created, apply_rule_transition, incident_id_of,
}
use telemetry_backend.Incidents.{on_alert_created}

-- does a channel want the event?
abbrev pub some_wants : String → String → List WebhookChannel → Bool
some_wants event_type severity channels = not (is_none (find (wants event_type severity) channels))

module _ {P : Type 0} (uuid : ℕ → String) (event_type event_id : String) (payload : P)
    (severity : String) where
  enqueue_channels-full :
      (drawn : ℕ) (channels : List WebhookChannel) (d : NotificationDispatcher P) (m : Metrics)
      → full d.queue ≡ true
      → some_wants event_type severity channels ≡ true
      → (enqueue_channels uuid event_type event_id payload severity drawn channels d m).0
        ≡ raised name_error
  unfolding enqueue_channels
  enqueue_channels-full drawn [] d m no_room wanted = absurd (ground arith)
  enqueue_channels-full drawn (c ∷ channels) d m no_room wanted =
      elim (Bool-cases (wants event_type severity c)) [
        | inl yes_ ↦
            ground (
              arith,
              queue_job-full (job_for (uuid drawn) event_type event_id payload c) d m no_room,
            )
        | inr no_ ↦
            let ih = enqueue_channels-full drawn channels d m no_room (ground arith) in ground arith
      ]

  enqueue-full :
      (drawn : ℕ) (d : NotificationDispatcher P) (m : Metrics)
      → d.enabled ≡ true
      → full d.queue ≡ true
      → some_wants event_type severity (Dict.values d.channels) ≡ true
      → (Notifications.enqueue uuid drawn event_type event_id payload severity d m).0
        ≡ raised name_error
  unfolding Notifications.enqueue
  enqueue-full drawn d m on no_room wanted =
      let e = enqueue_channels-full drawn (Dict.values d.channels) d m no_room wanted in
      ground arith

bind_raised :
    {S V W : Type 0} (error : Error) (action : Exec S V) (rest : V → Exec S W) (s : S)
    → (action s).0 ≡ raised error
    → (action >>= rest) s ≡ (raised error, (action s).1)
bind_raised error action rest s h = ap (λ r. resume rest (r, (action s).1)) h

module _ {F P : Type 0} (env : Env F P) where
  notify_alert-full :
      (a : Alert F) (action : String) (s : Runtime F P)
      → s.dispatcher.enabled ≡ true
      → full s.dispatcher.queue ≡ true
      → some_wants
          (alert_event action)
          (severity_value a.severity)
          (Dict.values s.dispatcher.channels)
        ≡ true
      → (notify_alert env a action s).0 ≡ raised name_error
  unfolding notify_alert notify
  notify_alert-full a action s on no_room wanted =
      enqueue-full _ _ _ _ _ 0 s.dispatcher s.metrics on no_room wanted

  apply_created :
      (t : RuleTransition F) (s : Runtime F P)
      → t.action ≡ Action.created
      → apply_rule_transition env t s
        ≡ announce_created env
            (rule_key t.alert)
            t.alert.host_id
            t.alert
            (open_alert (rule_key t.alert) t.alert s)
  unfolding apply_rule_transition
  apply_created t s opens = rw opens refl

  abbrev numbered : Alert F → Runtime F P → Alert F
  numbered a s = record a {
    incident_id =
        incident_id_of
          (on_alert_created env.uuid a s.drawn s.incidents
            (count "alert_created_total" s).metrics).incident;
  }

  -- the state in which the notification is made
  abbrev before_notice : String → Alert F → Runtime F P → Runtime F P
  before_notice key a s =
      update_active key (numbered a s) (incident_created env a (count "alert_created_total" s)).1

  announce_created-full :
      (key : String) (host_id : Option String) (a : Alert F) (s : Runtime F P)
      → s.dispatcher.enabled ≡ true
      → full s.dispatcher.queue ≡ true
      → some_wants "alert.created" (severity_value a.severity) (Dict.values s.dispatcher.channels)
        ≡ true
      → announce_created env key host_id a s
        ≡ (raised name_error, (notify_alert env (numbered a s) "created" (before_notice key a s)).1)
  unfolding announce_created incident_created count update_active
  announce_created-full key host_id a s on no_room wanted =
      bind_raised name_error (notify_alert env (numbered a s) "created") _ (before_notice key a s)
        (notify_alert-full (numbered a s) "created" (before_notice key a s) on no_room wanted)

  announce_created_lost :
      (key : String) (host_id : Option String) (a : Alert F) (s : Runtime F P)
      → s.dispatcher.enabled ≡ true
      → full s.dispatcher.queue ≡ true
      → some_wants "alert.created" (severity_value a.severity) (Dict.values s.dispatcher.channels)
        ≡ true
      → let after = announce_created env key host_id a s in
        (after.0 ≡ raised name_error)
        × (after.1.alert_persistence ≡ s.alert_persistence)
        × ((b : Alert F) × (Dict.get key after.1.active_alerts ≡ some b) × (b.id ≡ a.id))
  unfolding notify_alert notify incident_created count update_active
  announce_created_lost key host_id a s on no_room wanted =
      rw (announce_created-full key host_id a s on no_room wanted)
        (refl, refl, (numbered a s, Dict.get-put_self key (numbered a s) s.active_alerts, refl))

  -- When a rule opens an alert while notifications are on, their queue is full and a channel wants the
  -- alert, the handler raises NameError: the alert stays among the active ones, but this call hands
  -- nothing to the writer of the alerts, whose state is as before.
  pub created_transition_lost :
      (t : RuleTransition F) (s : Runtime F P)
      → t.action ≡ Action.created
      → s.dispatcher.enabled ≡ true
      → full s.dispatcher.queue ≡ true
      → some_wants "alert.created"
          (severity_value t.alert.severity)
          (Dict.values s.dispatcher.channels)
        ≡ true
      → ((apply_rule_transition env t s).0 ≡ raised name_error)
        × ((apply_rule_transition env t s).1.alert_persistence ≡ s.alert_persistence)
        × ((a : Alert F) × (Dict.get
                (rule_key t.alert)
                (apply_rule_transition env t s).1.active_alerts
              ≡ some a)
            × (a.id ≡ t.alert.id))
  unfolding open_alert
  created_transition_lost t s opens on no_room wanted = rw (apply_created t s opens) (
      announce_created_lost (rule_key t.alert) t.alert.host_id t.alert
        (open_alert (rule_key t.alert) t.alert s) on no_room wanted)
