-- ===== src/Topology/Requests.antt =====
-- The handlers of app/api/topology.py that write. A handler that raises writes nothing: its transaction
-- is rolled back.
use telemetry_backend.Prelude.{
  String, Bool, true, false, not, ◌&&◌, Option, none, some, List, [], ◌∷◌, ◌++◌, string_eq, ◌==◌,
  if◌then◌else◌, keep, find, concat, is_none,
}
use telemetry_backend.Prelude.Dict
use telemetry_backend.Prelude.Dict.{Dict}
use telemetry_backend.Api.{Reply, replied, http_error, unhandled, add_audit_log}
use telemetry_backend.Topology.{
  Service, ServiceDependency, Registry, cycle, no_cycle, out_of_fuel, would_create_cycle,
}

pub record ServiceCreate : Type 0 where
  pub name : String
  pub environment : String
  pub description : Option String

-- `none` for a field that is not set, `some none` for a field that is set to null
pub record ServiceUpdate : Type 0 where
  pub name : Option (Option String)
  pub environment : Option (Option String)
  pub description : Option (Option String)

pub record ServiceDependencyCreate : Type 0 where
  pub target_service_id : String
  pub relationship : String
  pub criticality : String

-- add_audit_log(db, …) and db.commit()
abbrev pub audited : String → String → String → String → Registry → Registry
audited actor action resource_type resource_id s =
    let (log, m) =
      add_audit_log actor action resource_type (some resource_id) (s.audit, s.metrics) in
    record s { audit = log; metrics = m }

abbrev pub is_self : Option String → String → Bool
is_self none id = false
is_self (some own) id = id == own

-- a service of that name, other than the one with the given id
abbrev pub name_taken : String → Option String → Registry → Bool
name_taken name self s =
    not (is_none (find (λ o. (o.name == name) && not (is_self self o.id)) (Dict.values s.services)))

abbrev pub new_service : String → String → ServiceCreate → Service
new_service id actor payload = record {
  id = id;
  name = payload.name;
  environment = payload.environment;
  description = payload.description;
  created_by = some actor;
}

-- the payload's texts are those that its validator normalized
unfoldable pub create_service :
    String → String → ServiceCreate → Registry → Reply Service × Registry
create_service id actor payload s =
    if name_taken payload.name none s
    then (http_error 409 "A service with this name already exists", s)
    else let service = new_service id actor payload in
      (
        replied service,
        audited actor "service.created" "service" id
            (record s { services = Dict.put id service s.services }),
      )

-- the new text of a field: that it is null raises AttributeError, that it is blank is refused
pub data Field : Type 0 where
  unset null blank : Field
  text : String → Field

abbrev pub field_of : (String → String) → Option (Option String) → Field
field_of normalize none = unset
field_of normalize (some none) = null
field_of normalize (some (some value)) =
    if normalize value == "" then blank else text (normalize value)

abbrev with_name : Field → Service → Service
with_name (text name) service = record service { name = name }
with_name _ service = service

abbrev with_environment : Field → Service → Service
with_environment (text environment) service = record service { environment = environment }
with_environment _ service = service

abbrev with_description : Option (Option String) → Service → Service
with_description none service = service
with_description (some description) service = record service { description = description }

-- the checks of the two texts, in their order: the reply if one of them fails
abbrev name_check : Field → String → Registry → Option (Reply Service)
name_check unset service_id s = none
name_check null service_id s = some (unhandled "AttributeError")
name_check blank service_id s = some (http_error 422 "Service name must not be blank")
name_check (text name) service_id s =
    if name_taken name (some service_id) s
    then some (http_error 409 "A service with this name already exists")
    else none

abbrev environment_check : Field → Option (Reply Service)
environment_check null = some (unhandled "AttributeError")
environment_check blank = some (http_error 422 "Service environment must not be blank")
environment_check _ = none

abbrev first_of : Option (Reply Service) → Option (Reply Service) → Option (Reply Service)
first_of none o = o
first_of (some r) o = some r

-- why an update is refused, if it is
abbrev pub refusal : (String → String) → String → ServiceUpdate → Registry → Option (Reply Service)
refusal normalize service_id payload s =
    first_of (name_check (field_of normalize payload.name) service_id s)
      (environment_check (field_of normalize payload.environment))

-- setattr of each value that is set
abbrev pub updated : (String → String) → ServiceUpdate → Service → Service
updated normalize payload service = with_description payload.description (
    with_environment (field_of normalize payload.environment)
      (with_name (field_of normalize payload.name) service))

unfoldable pub update_service :
    (String → String) → String → String → ServiceUpdate → Registry → Reply Service × Registry
update_service normalize service_id actor payload s = elim (Dict.get service_id s.services) [
  | none ↦ (http_error 404 "Service not found", s)
  | some service ↦ elim (refusal normalize service_id payload s) [
    | some refused ↦ (refused, s)
    | none ↦
        let changed = updated normalize payload service in
        (
          replied changed,
          audited actor "service.updated" "service" service_id
              (record s { services = Dict.put service_id changed s.services }),
        )
  ]
]

abbrev pub touches : String → ServiceDependency → Bool
touches id r = if r.source_service_id == id then true else r.target_service_id == id

-- the rows that name the service go with it (`ondelete="CASCADE"`)
unfoldable pub delete_service : String → String → Registry → Reply (Unit {0}) × Registry
delete_service service_id actor s = elim (Dict.get service_id s.services) [
  | none ↦ (http_error 404 "Service not found", s)
  | some service ↦ (
    replied tt,
    audited actor "service.deleted" "service" service_id (record s {
      services = Dict.remove service_id s.services;
      dependencies = keep (λ r. not (touches service_id r)) s.dependencies;
    }),
  )
]

abbrev pub is_row : String → String → ServiceDependency → Bool
is_row source target r = (r.source_service_id == source) && (r.target_service_id == target)

abbrev pub dependency_id : String → String → String
dependency_id source target = concat (source ∷ "->" ∷ target ∷ [])

abbrev pub new_dependency : (String → String) → String → ServiceDependencyCreate → ServiceDependency
new_dependency strip service_id payload = record {
  source_service_id = service_id;
  target_service_id = payload.target_service_id;
  relationship = strip payload.relationship;
  criticality = payload.criticality;
}

-- `strip` stands for `str.strip`
unfoldable pub add_dependency :
    (String → String)
    → String
    → String
    → ServiceDependencyCreate
    → Registry
    → Reply ServiceDependency × Registry
add_dependency strip service_id actor payload s =
    let target = payload.target_service_id in
    if is_none (Dict.get service_id s.services)
    then (http_error 404 "Source service not found", s)
    else if is_none (Dict.get target s.services)
    then (http_error 404 "Target service not found", s)
    else if service_id == target
    then (http_error 422 "A service cannot depend on itself", s)
    else if not (is_none (find (is_row service_id target) s.dependencies))
    then (http_error 409 "Dependency already exists", s)
    else elim (would_create_cycle service_id target s.dependencies) [
      | cycle ↦ (http_error 422 "Dependency would create a cycle", s)
      | out_of_fuel ↦ (unhandled "out of fuel", s)
      | no_cycle ↦
          let dependency = new_dependency strip service_id payload in
          (
            replied dependency,
            audited actor "service_dependency.created" "service_dependency"
                (dependency_id service_id target)
                (record s { dependencies = s.dependencies ++ dependency ∷ [] }),
          )
    ]

unfoldable pub delete_dependency : String → String → String → Registry → Reply (Unit {0}) × Registry
delete_dependency service_id target actor s =
    if is_none (find (is_row service_id target) s.dependencies)
    then (http_error 404 "Dependency not found", s)
    else (
      replied tt,
      audited actor "service_dependency.deleted" "service_dependency"
          (dependency_id service_id target)
          (record s { dependencies = keep (λ r. not (is_row service_id target r)) s.dependencies }),
    )

unfoldable pub list_dependencies : String → Registry → Reply (List ServiceDependency)
list_dependencies service_id s =
    if is_none (Dict.get service_id s.services)
    then http_error 404 "Service not found"
    else replied (keep (λ r. r.source_service_id == service_id) s.dependencies)
