-- ===== src/Topology/Invariant.antt =====
-- What every request keeps of the registry.
use telemetry_backend.Prelude.{
  ◌≡◌, refl, String, Bool, true, false, not, none, List, [], ◌∷◌, ◌++◌, string_eq, ◌==◌, ==_iff,
  arith, inl, inr, keep, Bool-cases, Option-cases, is_none, All, All-keep, All-append, find, ◌⊎◌,
  if_both,
}
use mathlib.Core.Path.{subst, sym, ◌∙◌}
use telemetry_backend.Prelude.Dict
use telemetry_backend.Prelude.Dict.{Dict}
use telemetry_backend.Topology.{
  Service, ServiceDependency, Registry, Verdict, cycle, no_cycle, out_of_fuel, would_create_cycle,
}
use telemetry_backend.Topology.Search.{would_create_cycle-decides}
use telemetry_backend.Topology.Acyclic.{Cycle, Cycle-cons, weakened, has_edge-append, has_edge-keep}
use telemetry_backend.Topology.Requests.{
  ServiceCreate, ServiceUpdate, ServiceDependencyCreate, audited, create_service, update_service,
  updated, delete_service, touches, is_row, name_taken, new_service, refusal, dependency_id,
  new_dependency, add_dependency, delete_dependency,
}

-- is it the id of a service?
abbrev pub has : String → Dict String Service → Bool
has k services = not (is_none (Dict.get k services))

-- both ends of a dependency are services
abbrev pub Known : Dict String Service → ServiceDependency → Type 0
Known services r =
    (has r.source_service_id services ≡ true) × (has r.target_service_id services ≡ true)

pub record Inv (s : Registry) : Type 0 where
  pub acyclic : ¬ Cycle s.dependencies
  pub known : All (Known s.services) s.dependencies

Known-put :
    (k : String) (v : Service) (services : Dict String Service) (rows : List ServiceDependency)
    → All (Known services) rows
    → All (Known (Dict.put k v services)) rows
Known-put k v services [] h = tt
Known-put k v services (r ∷ rows) h = (
  (
    ground (arith, h.0.0, Dict.get-put k r.source_service_id v services),
    ground (arith, h.0.1, Dict.get-put k r.target_service_id v services),
  ),
  Known-put k v services rows h.1,
)

Known-remove :
    (k : String) (services : Dict String Service) (rows : List ServiceDependency)
    → All (Known services) rows
    → All (Known (Dict.remove k services)) (keep (λ r. not (touches k r)) rows)
Known-remove k services [] h = tt
Known-remove k services (r ∷ rows) h =
    if_both (All (Known (Dict.remove k services))) (not (touches k r))
      (r ∷ keep (λ r. not (touches k r)) rows) (keep (λ r. not (touches k r)) rows)
      (λ apart. (
        (
          ground (
            arith,
            h.0.0,
            Dict.get-remove k r.source_service_id services,
            ==_iff k r.source_service_id,
            ==_iff r.source_service_id k,
          ),
          ground (
            arith,
            h.0.1,
            Dict.get-remove k r.target_service_id services,
            ==_iff k r.target_service_id,
            ==_iff r.target_service_id k,
          ),
        ),
        Known-remove k services rows h.1,
      ))
      (λ _. Known-remove k services rows h.1)

Inv-audited :
    (actor action resource_type resource_id : String) (s : Registry)
    → Inv s
    → Inv (audited actor action resource_type resource_id s)
Inv-audited actor action resource_type resource_id s h = record {
  acyclic = h.acyclic;
  known = h.known;
}

module _ (s : Registry) (h : Inv s) where
  create_service-cases :
      (id actor : String) (payload : ServiceCreate)
      → ((create_service id actor payload s).1 ≡ s)
        ⊎ ((v : Service) × ((create_service id actor payload s).1
              ≡ audited actor "service.created" "service" id
                  (record s { services = Dict.put id v s.services })))
  unfolding create_service
  create_service-cases id actor payload = elim (Bool-cases (name_taken payload.name none s)) [
    | inl taken ↦ inl (ground arith)
    | inr free ↦ inr (new_service id actor payload, ground arith)
  ]

  pub Inv-create_service :
      (id actor : String) (payload : ServiceCreate) → Inv (create_service id actor payload s).1
  Inv-create_service id actor payload = elim (create_service-cases id actor payload) [
    | inl same ↦ subst Inv (sym same) h
    | inr (v, e) ↦
        subst Inv (sym e)
          (record { acyclic = h.acyclic; known = Known-put id v s.services s.dependencies h.known })
  ]

  -- the registry is as it was, or one service is another
  update_service-cases :
      (normalize : String → String) (service_id actor : String) (payload : ServiceUpdate)
      → ((update_service normalize service_id actor payload s).1 ≡ s)
        ⊎ ((v : Service) × ((update_service normalize service_id actor payload s).1
              ≡ audited actor "service.updated" "service" service_id
                  (record s { services = Dict.put service_id v s.services })))
  unfolding update_service
  update_service-cases normalize service_id actor payload =
      elim (Option-cases (Dict.get service_id s.services)) [
        | inl missing ↦ inl (ground arith)
        | inr (service, found) ↦ elim (Option-cases (refusal normalize service_id payload s)) [
          | inl passed ↦ inr (updated normalize payload service, ground arith)
          | inr (reply, refused) ↦ inl (ground arith)
        ]
      ]

  pub Inv-update_service :
      (normalize : String → String) (service_id actor : String) (payload : ServiceUpdate)
      → Inv (update_service normalize service_id actor payload s).1
  Inv-update_service normalize service_id actor payload =
      elim (update_service-cases normalize service_id actor payload) [
        | inl same ↦ subst Inv (sym same) h
        | inr (v, e) ↦ subst Inv (sym e) (record {
          acyclic = h.acyclic;
          known = Known-put service_id v s.services s.dependencies h.known;
        })
      ]

  delete_service-cases :
      (service_id actor : String)
      → ((delete_service service_id actor s).1 ≡ s)
        ⊎ ((delete_service service_id actor s).1
            ≡ audited actor "service.deleted" "service" service_id (record s {
              services = Dict.remove service_id s.services;
              dependencies = keep (λ r. not (touches service_id r)) s.dependencies;
            }))
  unfolding delete_service
  delete_service-cases service_id actor = elim (Option-cases (Dict.get service_id s.services)) [
    | inl missing ↦ inl (ground arith)
    | inr (service, found) ↦ inr (ground arith)
  ]

  pub Inv-delete_service : (service_id actor : String) → Inv (delete_service service_id actor s).1
  Inv-delete_service service_id actor = elim (delete_service-cases service_id actor) [
    | inl same ↦ subst Inv (sym same) h
    | inr e ↦ subst Inv (sym e) (record {
      acyclic = λ c. h.acyclic (weakened _ s.dependencies (has_edge-keep _ s.dependencies) c);
      known = Known-remove service_id s.services s.dependencies h.known;
    })
  ]

  delete_dependency-cases :
      (service_id target actor : String)
      → ((delete_dependency service_id target actor s).1 ≡ s)
        ⊎ ((delete_dependency service_id target actor s).1
            ≡ audited actor "service_dependency.deleted" "service_dependency"
                (dependency_id service_id target)
                (record s {
                  dependencies = keep (λ r. not (is_row service_id target r)) s.dependencies;
                }))
  unfolding delete_dependency
  delete_dependency-cases service_id target actor =
      elim (Bool-cases (is_none (find (is_row service_id target) s.dependencies))) [
        | inl missing ↦ inl (ground arith)
        | inr there ↦ inr (ground arith)
      ]

  pub Inv-delete_dependency :
      (service_id target actor : String) → Inv (delete_dependency service_id target actor s).1
  Inv-delete_dependency service_id target actor =
      elim (delete_dependency-cases service_id target actor) [
        | inl same ↦ subst Inv (sym same) h
        | inr e ↦ subst Inv (sym e) (record {
          acyclic = λ c. h.acyclic (weakened _ s.dependencies (has_edge-keep _ s.dependencies) c);
          known = All-keep (Known s.services) _ s.dependencies h.known;
        })
      ]

  module _ (strip : String → String) (service_id actor : String)
      (payload : ServiceDependencyCreate) where
    abbrev new : ServiceDependency
    new = new_dependency strip service_id payload

    -- A dependency is added only after the search found no way back.
    add_dependency-cases :
        ((add_dependency strip service_id actor payload s).1 ≡ s)
        ⊎ ((would_create_cycle service_id payload.target_service_id s.dependencies ≡ no_cycle)
            × Known s.services new
            × ((add_dependency strip service_id actor payload s).1
                ≡ audited actor "service_dependency.created" "service_dependency"
                    (dependency_id service_id payload.target_service_id)
                    (record s { dependencies = s.dependencies ++ new ∷ [] })))
    unfolding add_dependency
    add_dependency-cases = elim (Bool-cases (is_none (Dict.get service_id s.services))) [
      | inl missing ↦ inl (ground arith)
      | inr source ↦ elim (Bool-cases (is_none (Dict.get payload.target_service_id s.services))) [
        | inl missing ↦ inl (ground arith)
        | inr target ↦ elim (Bool-cases (service_id == payload.target_service_id)) [
          | inl same ↦ inl (ground arith)
          | inr apart ↦
              elim (Bool-cases
                (is_none (find (is_row service_id payload.target_service_id) s.dependencies))) [
                  | inr there ↦ inl (ground arith)
                  | inl free ↦ by_verdict _ refl source target apart free
                ]
        ]
      ]
    ]
      where
        by_verdict :
            (v : Verdict)
            → would_create_cycle service_id payload.target_service_id s.dependencies ≡ v
            → is_none (Dict.get service_id s.services) ≡ false
            → is_none (Dict.get payload.target_service_id s.services) ≡ false
            → (service_id == payload.target_service_id) ≡ false
            → is_none (find (is_row service_id payload.target_service_id) s.dependencies) ≡ true
            → ((add_dependency strip service_id actor payload s).1 ≡ s)
              ⊎ ((would_create_cycle service_id payload.target_service_id s.dependencies ≡ no_cycle)
                  × Known s.services new
                  × ((add_dependency strip service_id actor payload s).1
                      ≡ audited actor "service_dependency.created" "service_dependency"
                          (dependency_id service_id payload.target_service_id)
                          (record s { dependencies = s.dependencies ++ new ∷ [] })))
        by_verdict cycle e source target apart free = inl (ground arith)
        by_verdict out_of_fuel e source target apart free = inl (ground arith)
        by_verdict no_cycle e source target apart free =
            inr (e, (ground arith, ground arith), ground arith)

    pub Inv-add_dependency : Inv (add_dependency strip service_id actor payload s).1
    Inv-add_dependency = elim add_dependency-cases [
      | inl same ↦ subst Inv (sym same) h
      | inr (searched, ends, e) ↦
          elim (would_create_cycle-decides service_id payload.target_service_id s.dependencies new
            refl refl) [
              | inl (found, _) ↦ cc
              | inr (_, no_way) ↦ subst Inv (sym e) (record {
                acyclic = λ c. Cycle-cons new s.dependencies h.acyclic no_way (
                    weakened _ (new ∷ s.dependencies)
                      (λ u v edge. sym (has_edge-append new s.dependencies u v) ∙ edge) c);
                known = All-append (Known s.services) s.dependencies (new ∷ []) h.known (ends, tt);
              })
            ]
    ]
