-- ===== src/Topology.antt =====
-- app/api/topology.py: the services, their dependencies, and the search for dependency cycles. The
-- tables are a dict of services by id and the list of the dependency rows; `normalize` stands for
-- `" ".join(value.strip().split())`. A request runs as one step.
pub mod Graph
pub mod Search
pub mod Acyclic
pub mod Requests
pub mod Invariant
pub mod History
use telemetry_backend.Prelude.{
  ℕ, zero, suc, ◌+◌, String, Bool, true, false, not, ◌&&◌, Option, none, some, List, [], ◌∷◌, ◌++◌,
  string_eq, ◌==◌, if◌then◌else◌, elem, keep, find, concat, is_none, length, or_text,
}
use telemetry_backend.Prelude.Dict
use telemetry_backend.Prelude.Dict.{Dict}
use telemetry_backend.Prelude.Sets.{add}
use telemetry_backend.Metrics.{Metrics}
use telemetry_backend.Api.{Reply, replied, http_error, AuditLog, add_audit_log}

pub record Service : Type 0 where
  pub id : String
  pub name : String
  pub environment : String
  pub description : Option String
  pub created_by : Option String

pub record ServiceDependency : Type 0 where
  pub source_service_id : String
  pub target_service_id : String
  pub relationship : String
  pub criticality : String

-- the tables `services` and `service_dependencies`, and what every handler writes besides
pub record Registry : Type 0 where
  pub services : Dict String Service
  pub dependencies : List ServiceDependency
  pub audit : List AuditLog
  pub metrics : Metrics

-- adjacency.get(key, ())
abbrev pub targets : String → Dict String (List String) → List String
targets key d = elim (Dict.get key d) [ none ↦ [] | some ts ↦ ts ]

-- adjacency.setdefault(source, set()).add(target)
abbrev pub link : String → String → Dict String (List String) → Dict String (List String)
link source target d = Dict.put source (add target (targets source d)) d

unfoldable pub adjacency_of :
    List ServiceDependency → Dict String (List String) → Dict String (List String)
adjacency_of [] d = d
adjacency_of (r ∷ rows) d = adjacency_of rows (link r.source_service_id r.target_service_id d)

-- stack.extend(xs), of a stack with its top first
abbrev pub extend : List String → List String → List String
extend [] stack = stack
extend (x ∷ xs) stack = extend xs (x ∷ stack)

pub data Verdict : Type 0 where
  cycle no_cycle out_of_fuel : Verdict

-- the loop `while stack`
unfoldable pub search : Dict String (List String) → String → ℕ → List String → List String → Verdict
search adjacency source zero stack visited = out_of_fuel
search adjacency source (suc fuel) [] visited = no_cycle
search adjacency source (suc fuel) (current ∷ stack) visited = elim (current == source) [
  | true ↦ cycle
  | false ↦
      let seen = elem current visited in
      search adjacency source fuel
        (if seen then stack else extend (targets current adjacency) stack)
        (if seen then visited else current ∷ visited)
]

-- one pass for the start and for each entry of the sets, and the last test of the loop
abbrev pub enough : Dict String (List String) → ℕ
enough [] = 2
enough ((k, ts) ∷ d) = length ts + enough d

-- `_would_create_cycle`
unfoldable pub would_create_cycle : String → String → List ServiceDependency → Verdict
unfolding adjacency_of search
would_create_cycle source target rows =
    let adjacency = link source target (adjacency_of rows []) in
    search adjacency source (enough adjacency) (target ∷ []) []
