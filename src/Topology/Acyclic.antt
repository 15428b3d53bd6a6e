-- ===== src/Topology/Acyclic.antt =====
-- Graphs without cycles.
use telemetry_backend.Prelude.{
  ◌≡◌, refl, sym, String, Bool, true, List, [], ◌∷◌, ◌++◌, string_eq, ◌==◌, ==_iff, ◌&&◌, arith,
  ◌⊎◌, inl, inr, keep, Bool-cases,
}
use mathlib.Core.Path.{subst}
use telemetry_backend.Topology.{ServiceDependency}
use telemetry_backend.Topology.Graph.{has_edge, Leads, here, step}

-- a row from u to v, and a way back
abbrev pub Cycle : List ServiceDependency → Type 0
Cycle rows = (u v : String) × (has_edge rows u v ≡ true) × Leads rows v u

-- the rows of the first table are among those of the second one
abbrev pub Within : List ServiceDependency → List ServiceDependency → Type 0
Within rows rows' = (u v : String) → has_edge rows u v ≡ true → has_edge rows' u v ≡ true

pub wider_path :
    {rows rows' : List ServiceDependency}
    → Within rows rows'
    → {u v : String} → Leads rows u v
    → Leads rows' u v
wider_path h here = here
wider_path h (step {v} {w} p edge) = step (wider_path h p) (h v w edge)

pub weakened : (rows rows' : List ServiceDependency) → Within rows rows' → Cycle rows → Cycle rows'
weakened rows rows' h (u, v, edge, back) = (u, v, h u v edge, wider_path h back)

pub has_edge-append :
    (r : ServiceDependency) (rows : List ServiceDependency) (u v : String)
    → has_edge (rows ++ r ∷ []) u v ≡ has_edge (r ∷ rows) u v
has_edge-append r [] u v = refl
has_edge-append r (q ∷ rows) u v = ground (arith, has_edge-append r rows u v)

pub has_edge-keep :
    (p : ServiceDependency → Bool) (rows : List ServiceDependency) → Within (keep p rows) rows
has_edge-keep p [] u v h = h
has_edge-keep p (r ∷ rows) u v h = ground (arith, has_edge-keep p rows u v)

append-path :
    {rows : List ServiceDependency} {u v w : String}
    → Leads rows u v
    → Leads rows v w
    → Leads rows u w
append-path p here = p
append-path p (step q edge) = step (append-path p q) edge

module _ (r : ServiceDependency) (rows : List ServiceDependency) where
  -- an edge of the larger table is the new one or an old one
  edge-cases :
      (u v : String)
      → has_edge (r ∷ rows) u v ≡ true
      → ((r.source_service_id ≡ u) × (r.target_service_id ≡ v)) ⊎ (has_edge rows u v ≡ true)
  edge-cases u v h = elim (Bool-cases ((r.source_service_id == u) && (r.target_service_id == v))) [
    | inl new ↦
        inl (
          ground (arith, ==_iff r.source_service_id u),
          ground (arith, ==_iff r.target_service_id v),
        )
    | inr old ↦ inr (ground arith)
  ]

  -- a path that uses the new edge passes from its source to its target
  path-cases :
      {a b : String}
      → Leads (r ∷ rows) a b
      → Leads rows a b
        ⊎ (Leads (r ∷ rows) a r.source_service_id × Leads (r ∷ rows) r.target_service_id b)
  path-cases here = inl here
  path-cases {a} (step {v} {w} p edge) = elim (path-cases p) [
    | inr (out, back) ↦ inr (out, step back edge)
    | inl old ↦ elim (edge-cases v w edge) [
      | inr e ↦ inl (step old e)
      | inl (from, to) ↦ inr (
        subst (λ x. Leads (r ∷ rows) a x) (sym from) p,
        subst (λ x. Leads (r ∷ rows) r.target_service_id x) to here,
      )
    ]
  ]

  -- A new edge with no way back from its target keeps the graph without cycles.
  pub Cycle-cons :
      ¬ Cycle rows → ¬ Leads (r ∷ rows) r.target_service_id r.source_service_id → ¬ Cycle (r ∷ rows)
  Cycle-cons none_before no_way (u, v, edge, back) = elim (path-cases back) [
    | inr (out, in_) ↦ no_way (append-path (step in_ edge) out)
    | inl old ↦ elim (edge-cases u v edge) [
      | inr e ↦ none_before (u, v, e, old)
      | inl (from, to) ↦ no_way (
          subst (λ x. Leads (r ∷ rows) r.target_service_id x) (sym from)
            (subst (λ x. Leads (r ∷ rows) x u) (sym to) back))
    ]
  ]
