-- ===== src/Rules/Alternation.antt =====
-- One rule and one host over a history of observations: deduplication and the cooldown.
use telemetry_backend.Prelude.{
  ℕ, ◌≡◌, String, Bool, true, false, Option, none, some, List, [], ◌∷◌, arith, is_none,
}
use telemetry_backend.Prelude.Float.{Float}
use telemetry_backend.Rules.{RuleState, Action, Rule, observe}

-- a sample: the instant, the value, and the identifier that is drawn if an alert is created
abbrev pub Sample : Type 0 → Type 0
Sample F = ℕ × F × String

-- what a history reports: the instants and the actions
abbrev pub Report : Type 0
Report = List (ℕ × Action)

-- Whether the transitions are created, resolved, created, …, the first of them created exactly if no
-- alert is open at the start.
abbrev pub Alternates : Bool → Report → Type 0
Alternates quiet [] = Unit {0}
Alternates true ((_, Action.created) ∷ rest) = Alternates false rest
Alternates true ((_, Action.resolved) ∷ rest) = ⊥
Alternates false ((_, Action.resolved) ∷ rest) = Alternates true rest
Alternates false ((_, Action.created) ∷ rest) = ⊥

abbrev note : ℕ → Option Action → Report → Report
note now none rest = rest
note now (some a) rest = (now, a) ∷ rest

module _ {F : Type 0} ⦃fl : Float F⦄ where
  abbrev Cooled : Rule F → ℕ → Option ℕ → Type 0
  Cooled rule now none = Unit {0}
  Cooled rule now (some fired) = fl.le rule.cooldown_seconds (fl.elapsed now fired) ≡ true

  -- each alert is created no earlier than the cooldown after the one before it
  abbrev pub Spaced : Rule F → Option ℕ → Report → Type 0
  Spaced rule last [] = Unit {0}
  Spaced rule last ((now, Action.created) ∷ rest) =
      Cooled rule now last × Spaced rule (some now) rest
  Spaced rule last ((now, Action.resolved) ∷ rest) = Spaced rule last rest

  -- the transitions that `observe` reports over a history
  pub history : Rule F → RuleState → List (Sample F) → Report
  history rule s [] = []
  history rule s ((now, value, alert_id) ∷ samples) =
      let (s', action) = observe rule now value alert_id s in
      note now action (history rule s' samples)

  Alternates-note :
      (rule : Rule F) (now : ℕ) (value : F) (alert_id : String) (s : RuleState) (rest : Report)
      → Alternates (is_none (observe rule now value alert_id s).0.active_alert_id) rest
      → Alternates (is_none s.active_alert_id) (note now (observe rule now value alert_id s).1 rest)
  unfolding observe
  Alternates-note rule now value alert_id s rest h = ground arith

  -- Whatever the samples, their order and their instants, the transitions of one rule and host
  -- alternate: no alert is created while one is open, and none is resolved that was not created.
  pub history-Alternates :
      (rule : Rule F) (s : RuleState) (samples : List (Sample F))
      → Alternates (is_none s.active_alert_id) (history rule s samples)
  unfolding history
  history-Alternates rule s [] = tt
  history-Alternates rule s ((now, value, alert_id) ∷ samples) =
      Alternates-note rule now value alert_id s _
        (history-Alternates rule (observe rule now value alert_id s).0 samples)

  Spaced-note :
      (rule : Rule F) (now : ℕ) (value : F) (alert_id : String) (s : RuleState) (rest : Report)
      → Spaced rule (observe rule now value alert_id s).0.last_fired_at rest
      → Spaced rule s.last_fired_at (note now (observe rule now value alert_id s).1 rest)
  unfolding observe
  Spaced-note rule now value alert_id s rest h = ground arith

  -- Whatever the samples, an alert of one rule and host is created only if the rule's cooldown has
  -- passed since the alert before it was created, the last one of the initial state included.
  pub history-Spaced :
      (rule : Rule F) (s : RuleState) (samples : List (Sample F))
      → Spaced rule s.last_fired_at (history rule s samples)
  unfolding history
  history-Spaced rule s [] = tt
  history-Spaced rule s ((now, value, alert_id) ∷ samples) =
      Spaced-note rule now value alert_id s _
        (history-Spaced rule (observe rule now value alert_id s).0 samples)
