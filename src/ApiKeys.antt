-- ===== src/ApiKeys.antt =====
-- app/services/api_key_service.py and the handlers of app/api/api_keys.py that write. The secret of a new
-- key and its id come from outside; `hash_api_key` stands for the digest. The column `key_hash` is unique,
-- and a handler that raises writes nothing. Prefixes of secrets and the list of keys are not modelled.
pub mod Revocation
use telemetry_backend.Prelude.{
  ℕ, String, Bool, true, false, not, ◌&&◌, ◌||◌, Option, none, some, List, [], ◌∷◌, ◌++◌, map,
  string_eq, ◌==◌, if◌then◌else◌, find, is_none,
}
use telemetry_backend.Prelude.Dict
use telemetry_backend.Prelude.Dict.{Dict}
use telemetry_backend.Metrics.{Metrics}
use telemetry_backend.Api.{Reply, replied, http_error, unhandled, AuditLog, add_audit_log}
use telemetry_backend.Ingestion.{Host}

pub record ApiKey : Type 0 where
  pub id : String
  pub host_id : String
  pub name : String
  pub key_hash : String
  pub created_by : Option String
  pub last_used_at : Option ℕ
  pub revoked_at : Option ℕ

pub record KeyStore : Type 0 where
  pub hosts : Dict String Host
  pub keys : List ApiKey
  pub audit : List AuditLog
  pub metrics : Metrics

-- an assignment to the row with that id
abbrev pub update_row : String → (ApiKey → ApiKey) → List ApiKey → List ApiKey
update_row id f = map (λ k. if k.id == id then f k else k)

unfoldable pub has_hash : String → List ApiKey → Bool
has_hash h [] = false
has_hash h (k ∷ keys) = let rest = has_hash h keys in if k.key_hash == h then true else rest

abbrev pub host_is_active : String → KeyStore → Bool
host_is_active host_id s = elim (Dict.get host_id s.hosts) [ none ↦ false | some h ↦ h.is_active ]

abbrev audited : String → String → String → KeyStore → KeyStore
audited actor action id s =
    let (log, m) = add_audit_log actor action "api_key" (some id) (s.audit, s.metrics) in
    record s { audit = log; metrics = m }

abbrev pub with_use : ℕ → ApiKey → ApiKey
with_use now k = record k { last_used_at = some now }

abbrev pub with_revocation : ℕ → ApiKey → ApiKey
with_revocation now k = record k { revoked_at = some now }

-- the conditions of the select
abbrev pub is_usable : String → ApiKey → Bool
is_usable h k = (k.key_hash == h) && is_none k.revoked_at

module _ (hash_api_key : String → String) where
  unfoldable pub authenticate_api_key : Option String → ℕ → KeyStore → Reply ApiKey × KeyStore
  authenticate_api_key none now s = (http_error 401 "Telemetry API key required", s)
  authenticate_api_key (some secret) now s =
      if secret == ""
      then (http_error 401 "Telemetry API key required", s)
      else elim (find (is_usable (hash_api_key secret)) s.keys) [
        | none ↦ (http_error 401 "Invalid telemetry API key", s)
        | some k ↦
            if not (host_is_active k.host_id s)
            then (http_error 401 "Telemetry host is inactive", s)
            else (
              replied (with_use now k),
              record s { keys = update_row k.id (with_use now) s.keys },
            )
      ]

  abbrev new_key : String → String → String → String → String → ApiKey
  new_key id host_id name secret actor = record {
    id = id;
    host_id = host_id;
    name = name;
    key_hash = hash_api_key secret;
    created_by = some actor;
    last_used_at = none;
    revoked_at = none;
  }

  -- the id, the host, the name, the secret and the administrator
  unfoldable pub create_api_key :
      String → String → String → String → String → KeyStore → Reply ApiKey × KeyStore
  create_api_key id host_id name secret actor s = elim (Dict.get host_id s.hosts) [
    | none ↦ (http_error 404 "Host not found", s)
    | some host ↦
        if not host.is_active
        then (http_error 400 "Cannot create a key for an inactive host", s)
        else if has_hash (hash_api_key secret) s.keys
            || not (is_none (find (λ k. k.id == id) s.keys))
        then (unhandled "IntegrityError", s)
        else (
          replied (new_key id host_id name secret actor),
          audited actor "api_key.created" id
              (record s { keys = s.keys ++ new_key id host_id name secret actor ∷ [] }),
        )
  ]

unfoldable pub revoke_api_key : String → ℕ → String → KeyStore → Reply ApiKey × KeyStore
revoke_api_key key_id now actor s = elim (find (λ k. k.id == key_id) s.keys) [
  | none ↦ (http_error 404 "API key not found", s)
  | some k ↦
      if is_none k.revoked_at
      then (
        replied (with_revocation now k),
        audited actor "api_key.revoked" key_id
            (record s { keys = update_row key_id (with_revocation now) s.keys }),
      )
      else (replied k, s)
]
