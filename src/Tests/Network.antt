-- ===== src/Tests/Network.antt =====
-- Tests of the topology, the users, the agent, the event bus, the sockets and the telemetry routes.
use telemetry_backend.Prelude.{
  ℕ, zero, suc, ◌+◌, ◌-◌, ◌*◌, ◌≡◌, ◌≢◌, ◌≤◌, ◌⊎◌, refl, String, true, false, none, some, List, [],
  ◌∷◌, string_eq, nat_eq, option_eq, ◌==◌, ==_iff, length, All, count_if, elem, map, arith,
}
use telemetry_backend.Model.{TelemetryEvent}
use telemetry_backend.Api.{replied, http_error}
use telemetry_backend.Topology.{ServiceDependency, cycle, no_cycle, would_create_cycle}
use telemetry_backend.Topology.Graph.{Leads}
use telemetry_backend.Topology.Acyclic.{Cycle}
use telemetry_backend.Topology.Invariant.{Known}
use telemetry_backend.Topology.Search.{would_create_cycle-decides}
use telemetry_backend.Topology.History
use telemetry_backend.Topology.History.{handle_all-acyclic}
use telemetry_backend.Accounts.{User, Directory, active_admins}
use telemetry_backend.Accounts.Admins
use telemetry_backend.Accounts.Admins.{handle_all-admins}
use telemetry_backend.ApiKeys.{ApiKey, KeyStore, authenticate_api_key, has_hash}
use telemetry_backend.ApiKeys.Revocation
use telemetry_backend.ApiKeys.Revocation.{Dead, authenticate_revoked}
use telemetry_backend.Agent.{Answer, transport_error, create, pass}
use telemetry_backend.Agent
use telemetry_backend.Agent.Outage.{offline, online, outage_ends_agent}
use telemetry_backend.EventBus.{Envelope, Loaded, dict, PostgresEventBus}
use telemetry_backend.EventBus.Conservation.{
  Step, offer, take_turn, finish, started, in_flight_list, run, run-conserved,
}
use telemetry_backend.Websockets.Broadcast
use telemetry_backend.Websockets.Broadcast.{Server, run-stays}
use telemetry_backend.TelemetryApi.{
  apply_range, bucket, checked_range, get_telemetry_history, second,
}
use telemetry_backend.TelemetryApi.History.{Backwards, get_telemetry_history_of_host}
use telemetry_backend.TelemetryApi.Stored.{Asked, Returned}
use telemetry_backend.TelemetryApi.Buckets.{checked_range-exceeds}
use telemetry_backend.Tables.{TelemetryRecord, row_of}
use telemetry_backend.Tests.Samples.{counters, reading, manager_with, dispatcher_of}

abbrev same_text : String → String
same_text s = s

abbrev row : String → String → ServiceDependency
row source target = record {
  source_service_id = source;
  target_service_id = target;
  relationship = "calls";
  criticality = "high";
}

abbrev chain : List ServiceDependency
chain = row "b" "c" ∷ row "c" "a" ∷ []

abbrev service : String → History.Request
service name =
    History.post_service name "admin"
      (record { name = name; environment = "production"; description = none })

abbrev dependency : String → String → History.Request
dependency source target =
    History.post_dependency source "admin"
      (record { target_service_id = target; relationship = "calls"; criticality = "high" })

abbrev requests : List History.Request
requests = service "a" ∷ service "b" ∷ dependency "a" "b" ∷ dependency "b" "a" ∷ []

would_create_cycle-decides_example :
    ((would_create_cycle "a" "b" chain ≡ cycle) × Leads (row "a" "b" ∷ chain) "b" "a")
    ⊎ ((would_create_cycle "a" "b" chain ≡ no_cycle) × ¬ Leads (row "a" "b" ∷ chain) "b" "a")
would_create_cycle-decides_example =
    would_create_cycle-decides "a" "b" chain (row "a" "b") refl refl

handle_all-acyclic_example :
    (¬ Cycle
      (History.handle_all same_text same_text requests
        (History.empty same_text same_text)).dependencies)
    × All
        (Known
          (History.handle_all same_text same_text requests
            (History.empty same_text same_text)).services)
        (History.handle_all same_text same_text requests
          (History.empty same_text same_text)).dependencies
handle_all-acyclic_example = handle_all-acyclic same_text same_text requests

abbrev root : User
root = record {
  id = "u1";
  email = "root@example.org";
  password_hash = "hash";
  role = "admin";
  is_active = true;
}

abbrev directory : Directory
directory = record { users = ("u1", root) ∷ []; audit = []; metrics = counters }

abbrev changes : List Admins.Request
changes =
    Admins.create "u2" "u1"
      (record { email = "ops@example.org"; password = "password"; role = "operator" })
    ∷ Admins.update "u2" "u1"
        (record { role = some (some "viewer"); is_active = none; password = none })
    ∷ []

has_admin : 1 ≤ active_admins directory
has_admin = omega arith

handle_all-admins_example :
    1 ≤ active_admins (Admins.handle_all same_text same_text changes directory)
handle_all-admins_example = handle_all-admins same_text same_text changes directory has_admin

abbrev passes : List (ℕ × (ℕ → Answer))
passes = (7, offline) ∷ (8, online 2) ∷ (9, offline) ∷ []

abbrev numbers : ℕ → List ℕ
numbers zero = []
numbers (suc n) = n ∷ numbers n

many : 250 ≤ length (numbers 250)
many = omega arith

outage_ends_agent_example :
    let a = Agent.run (map (λ y. (y, offline)) (numbers 250)) (create 20) in
    ((pass 0 (online (length (numbers 250) + 1)) a).stopped ≡ true)
    × ((pass 0 (online (length (numbers 250) + 1)) a).delivered ≡ [])
outage_ends_agent_example = outage_ends_agent 20 (numbers 250) 0 (omega arith) many

abbrev bus : String → PostgresEventBus
bus origin = record {
  origin = origin;
  enabled = true;
  queue = record { maxsize = 2; items = [] };
  in_flight = none;
  connected = false;
  has_callback = true;
  metrics = counters;
}

-- what the tests need of json: the text of one envelope, and what is read from it
abbrev dumps : Envelope → String
dumps e = e.message

abbrev loads : String → Loaded
loads text = dict (some 1) (some "p") (some text)

abbrev size : String → ℕ
size text = 100

abbrev turns : List Step
turns =
    offer "one" ∷ take_turn true ∷ offer "two" ∷ finish false ∷ take_turn true ∷ finish true ∷ []

run-conserved_example :
    let after = run dumps size turns (started (bus "p")) in
    count_if (λ s. s == "one") after.accepted
    ≡ count_if (λ s. s == "one") after.published
      + count_if (λ s. s == "one") after.bus.queue.items
      + count_if (λ s. s == "one") (in_flight_list after.bus)
      + count_if (λ s. s == "one") after.lost
run-conserved_example = run-conserved dumps size (λ s. s == "one") turns (bus "p") refl refl

abbrev sockets : Server
sockets = record { manager = record { clients = 1 ∷ 2 ∷ []; metrics = counters }; copies = [] }

abbrev happenings : List Broadcast.Step
happenings =
    Broadcast.copied
    ∷ Broadcast.registered 3
    ∷ Broadcast.finished (λ c. c == 1)
    ∷ Broadcast.unregistered 2
    ∷ []

run-stays_example : elem 1 (Broadcast.run happenings sockets).manager.clients ≡ true
run-stays_example = run-stays 1 happenings sockets (tt, (tt, (refl, (refl, tt)))) refl

abbrev table : List (TelemetryRecord ℕ)
table = row_of "web-1" (reading 5 90 "web-1") ∷ row_of "web-2" (reading 6 10 "web-2") ∷ []

abbrev by_time : List (TelemetryRecord ℕ) → List (TelemetryRecord ℕ)
by_time rows = rows

named : ◌≢◌ {A = String} "web-1" ""
named e = absurd (ground (arith, (==_iff {A = String} "web-1" "").1 e))

get_telemetry_history_of_host_example :
    ((get_telemetry_history by_time 10
          (some "web-1")
          (some 1)
          (some 9)
          table
          (manager_with (dispatcher_of true []))
        ≡ http_error 422 "start must be earlier than end")
      × Backwards (some 1) (some 9))
    ⊎ (events : List (TelemetryEvent ℕ)) × (get_telemetry_history by_time 10
          (some "web-1")
          (some 1)
          (some 9)
          table
          (manager_with (dispatcher_of true []))
        ≡ replied events)
      × (¬ Backwards (some 1) (some 9))
      × All (Asked "web-1" ((some 1), (some 9))) events
      × (length events ≤ 10)
      × ((apply_range "web-1" ((some 1), (some 9)) table ≡ [])
          ⊎ Returned 10 (apply_range "web-1" ((some 1), (some 9)) table) events)
get_telemetry_history_of_host_example =
    get_telemetry_history_of_host by_time (λ Q rows h. h) (λ p rows. refl) 10 "web-1" (some 1)
      (some 9) table (manager_with (dispatcher_of true [])) (omega arith) named

checked_range-exceeds_example :
    let end = 30 + 5000 * (1 * second) in
    (checked_range 30 end 1 ≡ replied (30, end)) × (bucket 1 (end - 1) ≡ bucket 1 30 + 5000)
checked_range-exceeds_example = checked_range-exceeds 30 1 (omega arith) (omega arith)

abbrev revoked_key : ApiKey
revoked_key = record {
  id = "key-1";
  host_id = "web-1";
  name = "agent";
  key_hash = "secret";
  created_by = some "u1";
  last_used_at = some 3;
  revoked_at = some 5;
}

abbrev keys : KeyStore
keys = record {
  hosts =
      (
        "web-1",
        record { id = "web-1"; is_active = true; last_seen_at = none; agent_version = none },
      )
      ∷ [];
  keys = revoked_key ∷ [];
  audit = [];
  metrics = counters;
}

abbrev attempts : List Revocation.Request
attempts =
    Revocation.authenticate (some "secret") 6
    ∷ Revocation.create "key-2" "web-1" "agent" "other" "u1"
    ∷ []

secret_named : ◌≢◌ {A = String} "secret" ""
secret_named e = absurd (ground (arith, (==_iff {A = String} "secret" "").1 e))

stored : has_hash "secret" keys.keys ≡ true
unfolding has_hash
stored = refl

authenticate_revoked_example :
    authenticate_api_key same_text (some "secret") 9 (Revocation.handle_all same_text attempts keys)
    ≡ (http_error 401 "Invalid telemetry API key", Revocation.handle_all same_text attempts keys)
authenticate_revoked_example =
    authenticate_revoked same_text "secret" attempts 9 keys secret_named stored ((λ e. refl), tt)
