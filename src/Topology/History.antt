-- ===== src/Topology/History.antt =====
-- The registry over any sequence of requests.
use telemetry_backend.Prelude.{String, List, [], ◌∷◌, All, arith}
use telemetry_backend.Metrics.{Metrics}
use telemetry_backend.Metrics
use telemetry_backend.Topology.{Registry}
use telemetry_backend.Topology.Acyclic.{Cycle}
use telemetry_backend.Topology.Requests.{
  ServiceCreate, ServiceUpdate, ServiceDependencyCreate, create_service, update_service,
  delete_service, add_dependency, delete_dependency,
}
use telemetry_backend.Topology.Invariant.{
  Inv, Known, Inv-create_service, Inv-update_service, Inv-delete_service, Inv-add_dependency,
  Inv-delete_dependency,
}

-- a request that writes; `strip` and `normalize` are the methods of Python's texts
pub data Request : Type 0 where
  post_service : String → String → ServiceCreate → Request
  patch_service : String → String → ServiceUpdate → Request
  remove_service : String → String → Request
  post_dependency : String → String → ServiceDependencyCreate → Request
  remove_dependency : String → String → String → Request

module _ (strip normalize : String → String) where
  unfoldable pub handle : Request → Registry → Registry
  handle (post_service id actor payload) s = (create_service id actor payload s).1
  handle (patch_service id actor payload) s = (update_service normalize id actor payload s).1
  handle (remove_service id actor) s = (delete_service id actor s).1
  handle (post_dependency id actor payload) s = (add_dependency strip id actor payload s).1
  handle (remove_dependency id target actor) s = (delete_dependency id target actor s).1

  unfoldable pub handle_all : List Request → Registry → Registry
  unfolding handle
  handle_all [] s = s
  handle_all (r ∷ requests) s = handle_all requests (handle r s)

  Inv-handle : (r : Request) (s : Registry) → Inv s → Inv (handle r s)
  unfolding handle
  Inv-handle (post_service id actor payload) s h = Inv-create_service s h id actor payload
  Inv-handle (patch_service id actor payload) s h =
      Inv-update_service s h normalize id actor payload
  Inv-handle (remove_service id actor) s h = Inv-delete_service s h id actor
  Inv-handle (post_dependency id actor payload) s h = Inv-add_dependency s h strip id actor payload
  Inv-handle (remove_dependency id target actor) s h = Inv-delete_dependency s h id target actor

  Inv-handle_all : (requests : List Request) (s : Registry) → Inv s → Inv (handle_all requests s)
  unfolding handle_all
  Inv-handle_all [] s h = h
  Inv-handle_all (r ∷ requests) s h = Inv-handle_all requests (handle r s) (Inv-handle r s h)

  abbrev pub empty : Registry
  empty = record { services = []; dependencies = []; audit = []; metrics = Metrics.init }

  -- Whatever requests are handled one after another from an empty registry, the dependencies form no
  -- cycle, and both ends of each are registered services.
  pub handle_all-acyclic :
      (requests : List Request)
      → (¬ Cycle (handle_all requests empty).dependencies)
        × All (Known (handle_all requests empty).services) (handle_all requests empty).dependencies
  handle_all-acyclic requests =
      let h =
        Inv-handle_all requests empty
          (record { acyclic = λ c. absurd (ground arith); known = tt }) in
      (h.acyclic, h.known)
