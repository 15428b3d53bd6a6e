-- ===== src/Topology/Graph.antt =====
-- The graph of the dependency rows, and the adjacency sets as its representation.
use telemetry_backend.Prelude.{
  ◌≡◌, refl, ◌∙◌, String, Bool, true, false, List, [], ◌∷◌, string_eq, ◌==◌, ==_iff, if◌then◌else◌,
  elem, ◌&&◌, arith,
}
use telemetry_backend.Prelude.Dict
use telemetry_backend.Prelude.Dict.{Dict}
use telemetry_backend.Prelude.Sets.{add, elem-add}
use telemetry_backend.Topology.{ServiceDependency, targets, link, adjacency_of}

-- is there a row from u to v?
abbrev pub has_edge : List ServiceDependency → String → String → Bool
has_edge [] u v = false
has_edge (r ∷ rows) u v =
    if (r.source_service_id == u) && (r.target_service_id == v) then true else has_edge rows u v

pub data Leads (rows : List ServiceDependency) (u : String) : String → Type 0 where
  here : Leads rows u u
  step : {v w : String} → Leads rows u v → has_edge rows v w ≡ true → Leads rows u w

pub targets-link :
    (s t u v : String) (d : Dict String (List String))
    → elem v (targets u (link s t d))
      ≡ (if (s == u) && (t == v) then true else elem v (targets u d))
targets-link s t u v d = ground (
  arith,
  Dict.get-put s u (add t (targets s d)) d,
  elem-add v t (targets s d),
  ==_iff s u,
  ==_iff t v,
  ==_iff v t,
)

-- The sets hold exactly the rows.
elem-targets :
    (rows : List ServiceDependency) (d : Dict String (List String)) (u v : String)
    → elem v (targets u (adjacency_of rows d))
      ≡ (if has_edge rows u v then true else elem v (targets u d))
unfolding adjacency_of
elem-targets [] d u v = refl
elem-targets (r ∷ rows) d u v = ground (
  arith,
  elem-targets rows (link r.source_service_id r.target_service_id d) u v,
  targets-link r.source_service_id r.target_service_id u v d,
)

pub elem-targets_fresh :
    (rows : List ServiceDependency) (u v : String)
    → elem v (targets u (adjacency_of rows [])) ≡ has_edge rows u v
unfolding Dict.get
elem-targets_fresh rows u v = elem-targets rows [] u v ∙ ground arith
