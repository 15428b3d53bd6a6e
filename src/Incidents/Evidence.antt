-- ===== src/Incidents/Evidence.antt =====
-- app/api/incidents.py: the severity that `get_incident_evidence` reports as the highest, which is the
-- greatest of the texts. The timeline and the other findings are not modelled.
use Prim.Native.Nat.{lt, eq, gt}
use Prim.Native.String.{compare}
use telemetry_backend.Prelude.{
  ◌≡◌, refl, ◌↔◌, String, Bool, true, false, List, [], ◌∷◌, if◌then◌else◌, arith, All,
}
use telemetry_backend.Model.{Severity, severity_value}
use telemetry_backend.Persistence.Alerts.{AlertRecord}

-- a < b, for two texts
abbrev text_ltb : String → String → Bool
text_ltb a b = elim (compare a b) [ lt ↦ true | eq ↦ false | gt ↦ false ]

-- the greater of two, the first if they are equal
abbrev later_text : Severity → Severity → Severity
later_text a b = if text_ltb (severity_value a) (severity_value b) then b else a

module _ {F : Type 0} where
  unfoldable greatest : Severity → List (AlertRecord F) → Severity
  greatest m [] = m
  greatest m (row ∷ rows) = greatest (later_text m row.severity) rows

  -- max((row.severity for row in alert_rows), default=incident.severity)
  unfoldable pub highest : Severity → List (AlertRecord F) → Severity
  unfolding greatest
  highest default [] = default
  highest default (row ∷ rows) = greatest row.severity rows

later_text-critical :
    (a b : Severity)
    → later_text a b ≡ Severity.critical
    → (a ≡ Severity.critical) × (b ≡ Severity.critical)
later_text-critical Severity.info Severity.info e = (e, e)
later_text-critical Severity.info Severity.warning e = absurd (ground arith)
later_text-critical Severity.info Severity.critical e = absurd (ground arith)
later_text-critical Severity.warning Severity.info e = absurd (ground arith)
later_text-critical Severity.warning Severity.warning e = absurd (ground arith)
later_text-critical Severity.warning Severity.critical e = absurd (ground arith)
later_text-critical Severity.critical Severity.info e = absurd (ground arith)
later_text-critical Severity.critical Severity.warning e = absurd (ground arith)
later_text-critical Severity.critical Severity.critical e = (refl, refl)

module _ {F : Type 0} where
  greatest-critical :
      (m : Severity) (rows : List (AlertRecord F))
      → greatest m rows ≡ Severity.critical
      → (m ≡ Severity.critical) × All (λ row. row.severity ≡ Severity.critical) rows
  unfolding greatest
  greatest-critical m [] e = (e, tt)
  greatest-critical m (row ∷ rows) e =
      let (both, rest) = greatest-critical (later_text m row.severity) rows e in
      let (here, there) = later_text-critical m row.severity both in (here, (there, rest))

  greatest_all :
      (rows : List (AlertRecord F))
      → All (λ row. row.severity ≡ Severity.critical) rows
      → greatest Severity.critical rows ≡ Severity.critical
  unfolding greatest
  greatest_all [] h = refl
  greatest_all (row ∷ rows) (here, h) = rw here (greatest_all rows h)

  -- The severity that the evidence of an incident calls the highest is critical exactly if all of its
  -- alerts are critical: with one that is not, a less severe one is reported.
  pub highest-critical :
      (default : Severity) (row : AlertRecord F) (rows : List (AlertRecord F))
      → (highest default (row ∷ rows) ≡ Severity.critical)
        ↔ All (λ r. r.severity ≡ Severity.critical) (row ∷ rows)
  unfolding highest
  highest-critical default row rows = (
    λ e. greatest-critical row.severity rows e,
    λ (h : All (λ (r : AlertRecord F). r.severity ≡ Severity.critical) (row ∷ rows)).
        rw h.0 (greatest_all rows h.1),
  )
