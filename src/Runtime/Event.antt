-- ===== src/Runtime/Event.antt =====
-- `process_event` as a whole: what it keeps, and that it returns while notifications are off.
use telemetry_backend.Prelude.{
  ◌≤◌, ◌≡◌, refl, Bool, false, List, [], ◌∷◌, ◌++◌, string_eq, length, inl, inr,
}
use telemetry_backend.Prelude.Dict
use telemetry_backend.Prelude.Float.{Float}
use telemetry_backend.Model.{Alert, TelemetryEvent}
use telemetry_backend.Rules.{Action}
use telemetry_backend.Notifications.{Result, ok, raised}
use telemetry_backend.Runtime.{Runtime, Env, Message, max_alerts, broadcast}
use telemetry_backend.Runtime.Ensures.{Returns, Post}
use telemetry_backend.Runtime.Actions.{update_persistence_metrics}
use telemetry_backend.Runtime.Events.{
  apply_transitions, process_results, detect, evaluate_rules, process_event, broadcast_alerts,
  broadcast_incidents, alerts_of,
}
use telemetry_backend.Runtime.Consistency.{Inv, IsOpen, Anything, count-Inv}
use telemetry_backend.Runtime.Transitions.{
  next, apply_transitions-Post, process_results-Post, receive-Inv, evaluate-Opens,
}

module _ {E F P : Type 0} where
  broadcast-Inv : (m : Message F) (s : Runtime F P) → Inv E F P s → Inv E F P (broadcast m s)
  unfolding broadcast
  broadcast-Inv m s h = record {
    open_alerts = h.open_alerts;
    history_fits = h.history_fits;
    alerts_fit = h.alerts_fit;
    quiet = h.quiet;
  }

  broadcast_alerts-Inv :
      (alerts : List (Alert F)) (s : Runtime F P)
      → Inv E F P s
      → Inv E F P (broadcast_alerts alerts s)
  broadcast_alerts-Inv [] s h = h
  broadcast_alerts-Inv (a ∷ alerts) s h =
      broadcast_alerts-Inv alerts _ (broadcast-Inv (Message.alert a) s h)

  broadcast_incidents-Inv :
      (events : List (Alert F × Action)) (s : Runtime F P)
      → Inv E F P s
      → Inv E F P (broadcast_incidents events s)
  broadcast_incidents-Inv [] s h = h
  broadcast_incidents-Inv ((a, action) ∷ events) s h =
      broadcast_incidents-Inv events _ (broadcast-Inv _ s h)

module _ {E F P : Type 0} ⦃fl : Float F⦄ (env : Env F P) where
  process_event-Post :
      (event : TelemetryEvent F) (persist : Bool) (s : Runtime F P)
      → Inv E F P s
      → Post E (Inv E F P) Anything (process_event env event persist s)
  unfolding process_event detect evaluate_rules update_persistence_metrics
  process_event-Post event persist s h =
      let h0 = receive-Inv env event persist s h in
      next {E = E} env (process_results env event _) _ _
        (process_results-Post env event _ _ (record {
          open_alerts = h0.open_alerts;
          history_fits = h0.history_fits;
          alerts_fit = h0.alerts_fit;
          quiet = h0.quiet;
        }))
        (λ anomalies s1 h1.
          next {E = E} env (apply_transitions env _) _ _
            (apply_transitions-Post env _ _ (evaluate-Opens env.uuid event s1.drawn s1.rules)
              (record {
                open_alerts = h1.open_alerts;
                history_fits = h1.history_fits;
                alerts_fit = h1.alerts_fit;
                quiet = h1.quiet;
              }))
            (λ changes s2 h2.
              let h3 = count-Inv _ _ (
                broadcast_incidents-Inv changes _ (
                  broadcast_alerts-Inv (anomalies ++ alerts_of changes) _
                    (broadcast-Inv (Message.telemetry event) s2 h2))) in
              (
                record {
                  open_alerts = h3.open_alerts;
                  history_fits = h3.history_fits;
                  alerts_fit = h3.alerts_fit;
                  quiet = h3.quiet;
                },
                tt,
              )))

returned : (r : Result (Unit {0})) → Returns ⊥ Anything r → r ≡ ok tt
returned (ok a) h = refl
returned (raised e) h = absurd h

module _ {F P : Type 0} ⦃fl : Float F⦄ (env : Env F P) where
  -- If the buffers of the history and of the alerts are within their bounds and no active alert is
  -- resolved, that still holds after an event, also when the handler raises.
  pub process_event-Bounded :
      (event : TelemetryEvent F) (persist : Bool) (s : Runtime F P)
      → Dict.Each IsOpen s.active_alerts
      → length s.history ≤ s.max_history_size
      → length s.alerts ≤ max_alerts
      → let s' = (process_event env event persist s).1 in
        (length s'.history ≤ s'.max_history_size)
        × (length s'.alerts ≤ max_alerts)
        × Dict.Each IsOpen s'.active_alerts
  process_event-Bounded event persist s opened history alerts =
      let (h, _) = process_event-Post {E = Unit {0}} env event persist s (record {
        open_alerts = opened;
        history_fits = history;
        alerts_fit = alerts;
        quiet = inl tt;
      }) in
      (h.history_fits, h.alerts_fit, h.open_alerts)

  -- While notifications are off, in a state within its bounds whose active alerts are not resolved,
  -- the handler of an event returns, and they are still off.
  pub process_event_returns :
      (event : TelemetryEvent F) (persist : Bool) (s : Runtime F P)
      → Dict.Each IsOpen s.active_alerts
      → length s.history ≤ s.max_history_size
      → length s.alerts ≤ max_alerts
      → s.dispatcher.enabled ≡ false
      → ((process_event env event persist s).0 ≡ ok tt)
        × ((process_event env event persist s).1.dispatcher.enabled ≡ false)
  process_event_returns event persist s opened history alerts off =
      let (h, r) = process_event-Post {E = ⊥} env event persist s (record {
        open_alerts = opened;
        history_fits = history;
        alerts_fit = alerts;
        quiet = inr off;
      }) in
      (returned _ r, elim h.quiet [ inl e ↦ absurd e | inr still_off ↦ still_off ])
