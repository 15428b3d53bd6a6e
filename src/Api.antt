-- ===== src/Api.antt =====
-- What the HTTP handlers of app/api share: a reply, and the audit log of app/services/audit.py.
use telemetry_backend.Prelude.{ℕ, String, Option, some, List, [], ◌∷◌, ◌++◌}
use telemetry_backend.Metrics.{Metrics, increment}

-- a value, `HTTPException(status_code, detail)`, or an exception that no handler catches
pub data Reply (A : Type 0) : Type 0 where
  replied : A → Reply A
  http_error : ℕ → String → Reply A
  unhandled : String → Reply A

-- the columns of a row of `audit_logs` that the handlers choose
pub record AuditLog : Type 0 where
  pub actor_user_id : Option String
  pub action : String
  pub resource_type : String
  pub resource_id : Option String
  pub outcome : String

-- `add_audit_log` with the outcome "success": the log, the latest entry last, and the metrics
unfoldable pub add_audit_log :
    String → String → String → Option String → List AuditLog × Metrics → List AuditLog × Metrics
add_audit_log actor_user_id action resource_type resource_id (log, m) =
    let event : AuditLog = record {
      actor_user_id = some actor_user_id;
      action = action;
      resource_type = resource_type;
      resource_id = resource_id;
      outcome = "success";
    } in
    (log ++ event ∷ [], increment "audit_events_total" 1 m)
