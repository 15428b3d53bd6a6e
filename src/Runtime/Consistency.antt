-- ===== src/Runtime/Consistency.antt =====
-- The invariant of the handlers: bounded buffers, and only open alerts among the active ones.
use telemetry_backend.Prelude.{
  ℕ, ◌≤◌, ◌≡◌, refl, String, false, Option, none, some, List, [], ◌∷◌, string_eq, ◌==◌, length,
  arith, ◌⊎◌, inl, inr, push_bounded-le, if_both, nat_eq,
}
use telemetry_backend.Prelude.Dict
use telemetry_backend.Prelude.Dict.{Dict}
use telemetry_backend.Model.{Alert}
use telemetry_backend.Incidents.{IncidentState, status_eq, resolved}
use telemetry_backend.Metrics.{Metrics}
use telemetry_backend.Notifications
use telemetry_backend.Notifications.{Result, ok, raised, NotificationDispatcher, Outcome}
use telemetry_backend.Runtime.{
  Runtime, Env, max_alerts, write_alert, count, open_alert, update_active, close_alert,
}
use telemetry_backend.Runtime.Exec.{pure}
use telemetry_backend.Runtime.Ensures.{Returns, Post}
use telemetry_backend.Runtime.Actions.{
  notify, notify_alert, notify_incident, incident_created, incident_resolved, persist_alert,
  notify_new_incident, notify_resolved_incident,
}

abbrev pub IsOpen : {F : Type 0} → String → Alert F → Type 0
IsOpen _ a = a.resolved ≡ false

-- `E` is what may be assumed when a handler raises; it cannot raise while notifications are off
pub record Inv (E F P : Type 0) (s : Runtime F P) : Type 0 where
  pub open_alerts : Dict.Each IsOpen s.active_alerts
  pub history_fits : length s.history ≤ s.max_history_size
  pub alerts_fit : length s.alerts ≤ max_alerts
  pub quiet : E ⊎ (s.dispatcher.enabled ≡ false)

abbrev pub Anything : {A : Type 0} → A → Type 0
Anything _ = Unit {0}

length-write_alert :
    {F : Type 0} (a : Alert F) (bs : List (Alert F)) → length (write_alert a bs) ≡ length bs
length-write_alert a [] = refl
length-write_alert a (b ∷ bs) = omega (arith, length-write_alert a bs)

module _ {E F P : Type 0} where
  pub count-Inv : (name : String) (s : Runtime F P) → Inv E F P s → Inv E F P (count name s)
  unfolding count
  count-Inv name s h = record {
    open_alerts = h.open_alerts;
    history_fits = h.history_fits;
    alerts_fit = h.alerts_fit;
    quiet = h.quiet;
  }

  pub open_alert-Inv :
      (key : String) (a : Alert F) (s : Runtime F P)
      → IsOpen key a
      → Inv E F P s
      → Inv E F P (open_alert key a s)
  unfolding open_alert
  open_alert-Inv key a s o h = record {
    open_alerts = Dict.Each-put IsOpen key a s.active_alerts h.open_alerts o;
    history_fits = h.history_fits;
    alerts_fit = push_bounded-le max_alerts a s.alerts;
    quiet = h.quiet;
  }

  pub update_active-Inv :
      (key : String) (a : Alert F) (s : Runtime F P)
      → IsOpen key a
      → Inv E F P s
      → Inv E F P (update_active key a s)
  unfolding update_active
  update_active-Inv key a s o h = record {
    open_alerts = Dict.Each-put IsOpen key a s.active_alerts h.open_alerts o;
    history_fits = h.history_fits;
    alerts_fit = omega (arith, length-write_alert a s.alerts, h.alerts_fit);
    quiet = h.quiet;
  }

  pub close_alert-Inv :
      (key : String) (a : Alert F) (s : Runtime F P) → Inv E F P s → Inv E F P (close_alert key a s)
  unfolding close_alert
  close_alert-Inv key a s h = record {
    open_alerts = Dict.Each-remove IsOpen key s.active_alerts h.open_alerts;
    history_fits = h.history_fits;
    alerts_fit = omega (arith, length-write_alert a s.alerts, h.alerts_fit);
    quiet = h.quiet;
  }

-- `_enqueue` does nothing while notifications are off
enqueue_off :
    {P : Type 0} (uuid : ℕ → String) (event_type event_id : String) (payload : P)
    (severity : String) (d : NotificationDispatcher P) (m : Metrics)
    → d.enabled ≡ false
    → Notifications.enqueue uuid 0 event_type event_id payload severity d m ≡ (ok tt, d, m)
unfolding Notifications.enqueue
enqueue_off uuid event_type event_id payload severity d m off = ground arith

anyway : {E A : Type 0} → E → (r : Result A) → Returns E Anything r
anyway e (ok a) = tt
anyway e (raised x) = e

module _ {E F P : Type 0} (env : Env F P) where
  -- with notifications on, a raise says `E`; with notifications off there is none
  notify-Post :
      (event_type event_id : String) (payload : P) (severity : String) (s : Runtime F P)
      → Inv E F P s
      → Post E (Inv E F P) Anything (notify env event_type event_id payload severity s)
  unfolding notify
  notify-Post event_type event_id payload severity s h = elim h.quiet [
    | inl e ↦ (
      record {
        open_alerts = h.open_alerts;
        history_fits = h.history_fits;
        alerts_fit = h.alerts_fit;
        quiet = inl e;
      },
      anyway e _,
    )
    | inr off ↦
        let same =
          enqueue_off (env.job_uuid s.notified) event_type event_id payload severity s.dispatcher
            s.metrics off in
        rw same (
          record {
            open_alerts = h.open_alerts;
            history_fits = h.history_fits;
            alerts_fit = h.alerts_fit;
            quiet = inr off;
          },
          tt,
        )
  ]

  pub notify_alert-Post :
      (a : Alert F) (action : String) (s : Runtime F P)
      → Inv E F P s
      → Post E (Inv E F P) Anything (notify_alert env a action s)
  unfolding notify_alert
  notify_alert-Post a action s h = notify-Post _ _ _ _ s h

  pub notify_new-Post :
      (i : Option IncidentState) (s : Runtime F P)
      → Inv E F P s
      → Post E (Inv E F P) Anything (notify_new_incident env i s)
  unfolding notify_new_incident notify_incident
  notify_new-Post none s h = (h, tt)
  notify_new-Post (some i) s h =
      if_both (λ m. Post E (Inv E F P) Anything (m s)) (length i.alert_ids == 1) _ (pure tt)
        (λ _. notify-Post _ _ _ _ s h) (λ _. (h, tt))

  pub notify_resolved-Post :
      (i : Option IncidentState) (s : Runtime F P)
      → Inv E F P s
      → Post E (Inv E F P) Anything (notify_resolved_incident env i s)
  unfolding notify_resolved_incident notify_incident
  notify_resolved-Post none s h = (h, tt)
  notify_resolved-Post (some i) s h =
      if_both (λ m. Post E (Inv E F P) Anything (m s)) (status_eq i.status resolved) _ (pure tt)
        (λ _. notify-Post _ _ _ _ s h) (λ _. (h, tt))

  pub incident_created-Post :
      (a : Alert F) (s : Runtime F P)
      → Inv E F P s
      → Post E (Inv E F P) Anything (incident_created env a s)
  unfolding incident_created
  incident_created-Post a s h = (
    record {
      open_alerts = h.open_alerts;
      history_fits = h.history_fits;
      alerts_fit = h.alerts_fit;
      quiet = h.quiet;
    },
    tt,
  )

  pub incident_resolved-Post :
      (a : Alert F) (s : Runtime F P)
      → Inv E F P s
      → Post E (Inv E F P) Anything (incident_resolved env a s)
  unfolding incident_resolved
  incident_resolved-Post a s h = (
    record {
      open_alerts = h.open_alerts;
      history_fits = h.history_fits;
      alerts_fit = h.alerts_fit;
      quiet = h.quiet;
    },
    tt,
  )

module _ {E F P : Type 0} where
  pub persist_alert-Inv :
      (a : Alert F) (host_id : Option String) (s : Runtime F P)
      → Inv E F P s
      → Inv E F P (persist_alert a host_id s)
  unfolding persist_alert
  persist_alert-Inv a host_id s h = record {
    open_alerts = h.open_alerts;
    history_fits = h.history_fits;
    alerts_fit = h.alerts_fit;
    quiet = h.quiet;
  }
