-- ===== src/Runtime/Acknowledge.antt =====
-- `acknowledge_alert` called twice.
use mathlib.Core.Path.{subst, sym}
use telemetry_backend.Prelude.{
  ◌≡◌, refl, String, Bool, true, false, none, some, List, [], ◌∷◌, map, arith, string_eq, ◌==◌,
  ==_iff, ==_refl, if◌then◌else◌, find, is_none, Bool-cases, Option-cases, inl, inr, if-some,
}
use telemetry_backend.Prelude.Dict
use telemetry_backend.Prelude.Dict.{Dict}
use telemetry_backend.Model.{Alert}
use telemetry_backend.Runtime.{Runtime, write_alert}
use telemetry_backend.Runtime.Actions.{persist_alert}
use telemetry_backend.Runtime.Queries.{alert_of, write_everywhere, acknowledge_alert}

module _ {F : Type 0} where
  abbrev named : String → Alert F → Bool
  named id a = a.id == id

  find-named :
      (id : String) (bs : List (Alert F)) (a : Alert F) → find (named id) bs ≡ some a → a.id ≡ id
  find-named id [] a h = absurd (ground arith)
  find-named id (b ∷ bs) a h = elim (if-some (named id b) b (find (named id) bs) a h) [
    | inl (here, same) ↦ ground (arith, ==_iff a.id id, same, here)
    | inr (_, later) ↦ find-named id bs a later
  ]

  find-write_alert :
      (a : Alert F) (bs : List (Alert F))
      → find (named a.id) (write_alert a bs)
        ≡ (if is_none (find (named a.id) bs) then none else some a)
  find-write_alert a [] = refl
  find-write_alert a (b ∷ bs) = ground (arith, find-write_alert a bs, ==_refl a.id)

  find-values :
      (a : Alert F) (d : Dict String (Alert F))
      → find
          (named a.id)
          (Dict.values (map (λ entry. (entry.0, if entry.1.id == a.id then a else entry.1)) d))
        ≡ (if is_none (find (named a.id) (Dict.values d)) then none else some a)
  find-values a [] = refl
  find-values a ((k, b) ∷ d) = ground (arith, find-values a d, ==_refl a.id)

abbrev known : {F : Type 0} → Alert F → Alert F
known a = record a { acknowledged = true }

module _ {F P : Type 0} where
  -- the state after an alert was acknowledged
  abbrev noted : Alert F → Runtime F P → Runtime F P
  noted a s = persist_alert (known a) a.host_id (write_everywhere (known a) s)

  alert_of-named :
      (id : String) (s : Runtime F P) (a : Alert F) → alert_of id s ≡ some a → a.id ≡ id
  alert_of-named id s a h = elim (Option-cases (find (named id) s.alerts)) [
    | inl none_ ↦ find-named id (Dict.values s.active_alerts) a (ground arith)
    | inr (b, some_) ↦ find-named id s.alerts a (ground arith)
  ]

  alert_of-noted :
      (a : Alert F) (s : Runtime F P)
      → alert_of a.id s ≡ some a
      → alert_of a.id (noted a s) ≡ some (known a)
  unfolding persist_alert
  alert_of-noted a s h =
      ground (arith, find-write_alert (known a) s.alerts, find-values (known a) s.active_alerts)

  acknowledge_known :
      (id : String) (s : Runtime F P) (a : Alert F)
      → alert_of id s ≡ some a
      → a.acknowledged ≡ true
      → acknowledge_alert id s ≡ (true, s)
  unfolding acknowledge_alert
  acknowledge_known id s a found h = ground arith

  acknowledge_new :
      (id : String) (s : Runtime F P) (a : Alert F)
      → alert_of id s ≡ some a
      → a.acknowledged ≡ false
      → acknowledge_alert id s ≡ (true, noted a s)
  unfolding acknowledge_alert
  acknowledge_new id s a found h = ground arith

  acknowledge_unknown :
      (id : String) (s : Runtime F P) → alert_of id s ≡ none → acknowledge_alert id s ≡ (false, s)
  unfolding acknowledge_alert
  acknowledge_unknown id s missing = ground arith

  -- If an acknowledgement returns true, the alert is found acknowledged afterwards, and to acknowledge it
  -- again returns true and changes nothing: the alert is not queued for the database a second time.
  pub acknowledge_alert_again :
      (alert_id : String) (s : Runtime F P)
      → (acknowledge_alert alert_id s).0 ≡ true
      → (acknowledge_alert alert_id (acknowledge_alert alert_id s).1
          ≡ (true, (acknowledge_alert alert_id s).1))
        × ((a : Alert F) × (alert_of alert_id (acknowledge_alert alert_id s).1 ≡ some a)
            × (a.acknowledged ≡ true))
  acknowledge_alert_again alert_id s done = elim (Option-cases (alert_of alert_id s)) [
    | inl missing ↦ absurd (ground (arith, acknowledge_unknown alert_id s missing))
    | inr (a, found) ↦ elim (Bool-cases a.acknowledged) [
      | inl yes_ ↦
          let e = acknowledge_known alert_id s a found yes_ in
          (rw (e, e) refl, (a, rw e found, yes_))
      | inr no_ ↦
          let e = acknowledge_new alert_id s a found no_ in
          let later = again a (alert_of-named alert_id s a found) found in
          (
            rw e (acknowledge_known alert_id (noted a s) (known a) later refl),
            (known a, rw e later, refl),
          )
    ]
  ]
    where
      again :
          (a : Alert F)
          → a.id ≡ alert_id
          → alert_of alert_id s ≡ some a
          → alert_of alert_id (noted a s) ≡ some (known a)
      again a same found =
          subst (λ x. alert_of x (noted a s) ≡ some (known a)) same
            (alert_of-noted a s (subst (λ x. alert_of x s ≡ some a) (sym same) found))
