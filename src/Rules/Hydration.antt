-- ===== src/Rules/Hydration.antt =====
-- `hydrate_active_alerts` of app/services/alert_rule_engine.py: which state it leaves for a rule and a host.
use telemetry_backend.Prelude.{
  ◌≡◌, refl, ◌≢◌, ◌∙◌, some, List, [], ◌∷◌, ◌++◌, string_eq, pair_eq, ==_iff, arith, or_text, All,
}
use telemetry_backend.Prelude.Dict
use telemetry_backend.Model.{Alert}
use telemetry_backend.Rules.{
  AlertRuleEngine, StateKey, hydrated, hydrate_one, hydrate_active_alerts,
}

module _ {F : Type 0} where
  abbrev pub state_key : Alert F → StateKey
  state_key a = (or_text a.rule_id "", or_text a.host_id "system")

  pub hydrate_active_alerts-append :
      (xs bs : List (Alert F)) (e : AlertRuleEngine F)
      → hydrate_active_alerts (xs ++ bs) e ≡ hydrate_active_alerts bs (hydrate_active_alerts xs e)
  unfolding hydrate_active_alerts
  hydrate_active_alerts-append [] bs e = refl
  hydrate_active_alerts-append (a ∷ xs) bs e = hydrate_active_alerts-append xs bs (hydrate_one a e)

  hydrate_one-other :
      (a : Alert F) (k : StateKey) (e : AlertRuleEngine F)
      → state_key a ≢ k
      → Dict.get k (hydrate_one a e).states ≡ Dict.get k e.states
  unfolding hydrate_one
  hydrate_one-other a k e d =
      ground (arith, Dict.get-put (state_key a) k (hydrated a) e.states, ==_iff (state_key a) k, d)

  hydrate-other :
      (xs : List (Alert F)) (k : StateKey) (e : AlertRuleEngine F)
      → All (λ a. state_key a ≢ k) xs
      → Dict.get k (hydrate_active_alerts xs e).states ≡ Dict.get k e.states
  unfolding hydrate_active_alerts
  hydrate-other [] k e h = refl
  hydrate-other (a ∷ xs) k e (d, h) =
      hydrate-other xs k (hydrate_one a e) h ∙ hydrate_one-other a k e d

  hydrate_one-own :
      (a : Alert F) (e : AlertRuleEngine F)
      → a.source ≡ "rule"
      → or_text a.rule_id "" ≢ ""
      → Dict.get (state_key a) (hydrate_one a e).states ≡ some (hydrated a)
  unfolding hydrate_one
  hydrate_one-own a e s r = ground (
    arith,
    Dict.get-put_self (state_key a) (hydrated a) e.states,
    ==_iff a.source "rule",
    ==_iff (or_text a.rule_id "") "",
    s,
    r,
  )

  -- the state of a rule and a host is that of the last alert for them
  pub hydrate-get :
      (xs : List (Alert F)) (a : Alert F) (bs : List (Alert F)) (e : AlertRuleEngine F)
      → a.source ≡ "rule"
      → or_text a.rule_id "" ≢ ""
      → All (λ b. state_key b ≢ state_key a) bs
      → Dict.get (state_key a) (hydrate_active_alerts (xs ++ a ∷ bs) e).states ≡ some (hydrated a)
  unfolding hydrate_active_alerts
  hydrate-get xs a bs e s r h = rw (hydrate_active_alerts-append xs (a ∷ bs) e) (
      hydrate-other bs (state_key a) (hydrate_one a (hydrate_active_alerts xs e)) h
      ∙ hydrate_one-own a (hydrate_active_alerts xs e) s r)
