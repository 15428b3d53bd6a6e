-- ===== src/Persistence/Alerts.antt =====
-- AlertPersistence of app/services/alert_persistence.py: `enqueue` copies the alert, and `_persist`
-- inserts or updates its row. The table is a dict by primary key.
use telemetry_backend.Prelude.{
  ℕ, ◌≡◌, refl, String, Bool, false, ◌||◌, Option, none, some, [], ◌∷◌, string_eq, arith,
  if◌then◌else◌, ◌==◌, ==_iff,
}
use telemetry_backend.Prelude.Dict
use telemetry_backend.Prelude.Dict.{Dict}
use telemetry_backend.Model.{Severity, Alert}
use telemetry_backend.Metrics.{Metrics}
use telemetry_backend.Persistence.{Worker, enqueue}

pub record AlertPersistenceEvent (F : Type 0) : Type 0 where
  pub alert : Alert F
  pub host_id : Option String

-- a row of the table `alert_records`
pub record AlertRecord (F : Type 0) : Type 0 where
  pub id : String
  pub host_id : Option String
  pub service_id : Option String
  pub metric : String
  pub value : F
  pub baseline : F
  pub severity : Severity
  pub message : String
  pub status : String
  pub acknowledged : Bool
  pub source : String
  pub rule_id : Option String
  pub timestamp : ℕ
  pub resolved_at : Option ℕ

abbrev pub AlertPersistence : Type 0 → Type 0
AlertPersistence F = Worker (AlertPersistenceEvent F)

unfoldable pub enqueue_alert :
    {F : Type 0}
    → Alert F
    → Option String
    → AlertPersistence F
    → Metrics
    → AlertPersistence F × Metrics
enqueue_alert alert host_id w m =
    enqueue "alert_persistence_dropped_total" (record { alert = alert; host_id = host_id }) w m

abbrev pub status_of : {F : Type 0} → Alert F → String
status_of a = if a.resolved then "resolved" else "active"

new_row : {F : Type 0} → AlertPersistenceEvent F → AlertRecord F
new_row item =
    let a = item.alert in
    record {
      id = a.id;
      host_id = item.host_id;
      service_id = a.service_id;
      metric = a.metric;
      value = a.value;
      baseline = a.baseline;
      severity = a.severity;
      message = a.message;
      status = status_of a;
      acknowledged = a.acknowledged;
      source = a.source;
      rule_id = a.rule_id;
      timestamp = a.timestamp;
      resolved_at = a.resolved_at;
    }

updated_row : {F : Type 0} → AlertPersistenceEvent F → AlertRecord F → AlertRecord F
updated_row item row =
    let a = item.alert in
    record row {
      service_id = a.service_id;
      value = a.value;
      baseline = a.baseline;
      severity = a.severity;
      message = a.message;
      status = status_of a;
      acknowledged = row.acknowledged || a.acknowledged;
      source = a.source;
      rule_id = a.rule_id;
      resolved_at = a.resolved_at;
    }

-- the row that is inserted or updated
row_after : {F : Type 0} → AlertPersistenceEvent F → Option (AlertRecord F) → AlertRecord F
unfolding new_row updated_row
row_after item none = new_row item
row_after item (some row) = updated_row item row

-- the transaction of `_persist`
unfoldable pub persist :
    {F : Type 0}
    → AlertPersistenceEvent F
    → Dict String (AlertRecord F)
    → Dict String (AlertRecord F)
unfolding row_after
persist item db = Dict.put item.alert.id (row_after item (Dict.get item.alert.id db)) db

abbrev pub acknowledged_of : {F : Type 0} → Option (AlertRecord F) → Bool
acknowledged_of none = false
acknowledged_of (some row) = row.acknowledged

row_after-acknowledged :
    {F : Type 0} (item : AlertPersistenceEvent F) (old : Option (AlertRecord F))
    → (row_after item old).acknowledged ≡ (acknowledged_of old || item.alert.acknowledged)
unfolding row_after
row_after-acknowledged item none = refl
row_after-acknowledged item (some row) = refl

-- A write of one alert leaves every other row as it was, and whatever arrives for an alert, in
-- whatever order, its row is acknowledged afterwards exactly if it was before or the event says so:
-- a late event with an older copy never takes an acknowledgement back.
pub get-persist :
    {F : Type 0} (item : AlertPersistenceEvent F) (id : String) (db : Dict String (AlertRecord F))
    → ((if item.alert.id == id then none else Dict.get id (persist item db))
        ≡ (if item.alert.id == id then none else Dict.get id db))
      × (acknowledged_of (Dict.get item.alert.id (persist item db))
          ≡ (acknowledged_of (Dict.get item.alert.id db) || item.alert.acknowledged))
unfolding persist
get-persist item id db =
    let row = row_after item (Dict.get item.alert.id db) in
    (
      ground (arith, Dict.get-put item.alert.id id row db, ==_iff item.alert.id id),
      rw (Dict.get-put_self item.alert.id row db)
          (row_after-acknowledged item (Dict.get item.alert.id db)),
    )

row_after-twice :
    {F : Type 0} (item : AlertPersistenceEvent F) (old : Option (AlertRecord F))
    → row_after item (some (row_after item old)) ≡ row_after item old
unfolding row_after
row_after-twice item none = ground arith
row_after-twice item (some row) = ground arith

put-put_self :
    {V : Type 0} (k : String) (v : V) (db : Dict String V)
    → Dict.put k v (Dict.put k v db) ≡ Dict.put k v db
unfolding Dict.put
put-put_self k v [] = ground (arith, ==_iff k k)
put-put_self k v ((j, w) ∷ db) = ground (arith, put-put_self k v db)

-- A write that is repeated, because the worker saw a failure after the commit, changes nothing more.
pub persist_idem :
    {F : Type 0} (item : AlertPersistenceEvent F) (db : Dict String (AlertRecord F))
    → persist item (persist item db) ≡ persist item db
unfolding persist
persist_idem item db =
    let row = row_after item (Dict.get item.alert.id db) in
    rw (Dict.get-put_self item.alert.id row db, row_after-twice item (Dict.get item.alert.id db))
      (put-put_self item.alert.id row db)
