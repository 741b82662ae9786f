-- ===== src/Store/Operations.antt =====
-- src/state.rs, the reconciliation of operations with the resources that they act on:
-- `operations_requiring_reconciliation`, `mark_operation_reconciliation_desired` and
-- `record_operation_reconciliation`.
pub mod Laws
use coterie.Prelude.{
  ℕ, ◌+◌, Bool, true, false, ◌&&◌, ◌||◌, Option, none, some, List, String, str_eq, ◌==◌, is_none,
  is_some, if◌then◌else◌,
}
use coterie.Json.{Json, null, text, object, end, member, get}
use coterie.Sql.{select_all, select_first, order_by, count_where, update_where}
use coterie.Store.Records.{
  OperationRecord, ExternalResourceState, desired, unknown, resource_eq, resource_str,
  ResourceTransitionOutcome, applied, unchanged, stale,
}
use coterie.Store.Event.{NewEvent, EventKind}
use coterie.Store.Tx.{operation_incomplete, ok, err, Env, Db, Tx, ◌>>=◌, ◌>>◌, return}
use coterie.Store.ClaimTask.{◌+++◌}
use coterie.Store.Events.{append_event}
use coterie.Store.Rows.{operation, sql_eq}
use coterie.Store.Transitions.{opt_str_eq}

abbrev pub opt_resource_eq : Option ExternalResourceState → Option ExternalResourceState → Bool
opt_resource_eq none none = true
opt_resource_eq (some a) (some b) = resource_eq a b
opt_resource_eq _ _ = false

-- The `WHERE` clause of `operations_requiring_reconciliation`.
unfoldable pub requires_reconciliation : ℕ → OperationRecord → Bool
requires_reconciliation run_id o =
    o.run_id == run_id
    && (opt_resource_eq o.reconciliation_state (some desired)
        || (opt_resource_eq o.reconciliation_state (some unknown)
            && ((str_eq o.kind "agent.spawn" || str_eq o.kind "workspace.integrate")
                || is_none o.reconciled_at)))

unfoldable pub operations_requiring_reconciliation : Db → ℕ → List OperationRecord
operations_requiring_reconciliation db run_id =
    order_by (λ o. o.created_at)
      (order_by (λ o. o.id) (select_all (requires_reconciliation run_id) db.operations))

-- `json_extract(result_json, '$.key')`.
abbrev pub result_field : String → OperationRecord → Option Json
result_field key o = elim o.result [ none ↦ none | some j ↦ get key j ]

unfoldable pub foreground_launch_operation_for_session : Db → ℕ → ℕ → Option OperationRecord
foreground_launch_operation_for_session db run_id session_id =
    select_first
      (λ o.
        (o.run_id == run_id && str_eq o.kind "agent.launch_foreground")
        && (sql_eq (result_field "session_id" o) (some (Json.ident session_id))
            && sql_eq (result_field "already_active" o) (some (Json.flag false))))
      db.operations

abbrev pub opt_state_json : Option ExternalResourceState → Json
opt_state_json none = null
opt_state_json (some s) = text (resource_str s)

abbrev pub opt_error_json : Option String → Json
opt_error_json none = null
opt_error_json (some s) = text s

abbrev pub reconciliation_event :
    Env
    → OperationRecord
    → Option ExternalResourceState
    → ExternalResourceState
    → Option String
    → ℕ
    → NewEvent
reconciliation_event env o previous_state state error created_at = record {
  run_id = o.run_id;
  kind = EventKind.operation_reconciliation_changed;
  actor = "reconciler";
  subject = env.display o.id;
  project_id = none;
  agent_id = o.actor_agent_id;
  task_id = none;
  operation_id = some o.id;
  correlation_id = none;
  causation_id = none;
  data_ = object (
      member "error" (opt_error_json error) (
        member "previous_state" (opt_state_json previous_state)
          (member "state" (text (resource_str state)) end)));
  summary =
      "Operation "
      +++ (env.display o.id +++ (" reconciliation changed to " +++ (resource_str state +++ ".")));
  created_at = created_at;
}

unfoldable pub append_operation_reconciliation_event :
    Env
    → OperationRecord
    → Option ExternalResourceState
    → ExternalResourceState
    → Option String
    → ℕ
    → Tx (Unit {0})
append_operation_reconciliation_event env o previous_state state error created_at =
    append_event env (reconciliation_event env o previous_state state error created_at) >>= λ e.
    return tt

abbrev pub is_unreconciled : ℕ → OperationRecord → Bool
is_unreconciled id o = o.id == id && is_none o.reconciliation_state

abbrev pub desired_marked : ℕ → Db → Db
desired_marked id db = record db {
  operations =
      update_where (is_unreconciled id)
        (λ o. record o {
          reconciliation_state = some desired;
          reconciliation_error = none;
          reconciled_at = none;
        })
        db.operations;
}

-- The state of an operation that may be missing.
abbrev pub state_of : Option OperationRecord → Option ExternalResourceState
state_of none = none
state_of (some o) = o.reconciliation_state

-- The event of an operation that has been marked.
unfoldable pub announce_desired : Env → ℕ → Tx (Unit {0})
announce_desired env id db = elim (operation db id) [
  | none ↦ err (operation_incomplete id "external reconciliation intent disappeared")
  | some o ↦ append_operation_reconciliation_event env o none desired none o.created_at db
]

unfoldable pub mark_operation_reconciliation_desired : Env → ℕ → Tx (Unit {0})
unfolding announce_desired
mark_operation_reconciliation_desired env id db =
    if count_where (is_unreconciled id) db.operations == 1
    then announce_desired env id (desired_marked id db)
    else if opt_resource_eq (state_of (operation db id)) (some desired)
    then ok (tt, db)
    else err (operation_incomplete id "missing external reconciliation intent")

abbrev pub is_reconciled : ℕ → OperationRecord → Bool
is_reconciled id o = o.id == id && is_some o.reconciliation_state

abbrev pub reconciled : ℕ → ExternalResourceState → Option String → ℕ → Db → Db
reconciled id state error reconciled_at db = record db {
  operations =
      update_where (is_reconciled id)
        (λ o. record o {
          reconciliation_state = some state;
          reconciliation_attempt_count = o.reconciliation_attempt_count + 1;
          reconciliation_error = error;
          reconciled_at = some reconciled_at;
        })
        db.operations;
}

-- The state and the error of the operation are those of the report.
unfoldable pub same_report : OperationRecord → ExternalResourceState → Option String → Bool
same_report o state error =
    opt_resource_eq o.reconciliation_state (some state) && opt_str_eq o.reconciliation_error error

-- `record_operation_reconciliation` of an operation with an external resource.
unfoldable pub record_report :
    Env → OperationRecord → ExternalResourceState → Option String → ℕ → Tx ResourceTransitionOutcome
unfolding same_report append_operation_reconciliation_event
record_report env o state error at db =
    let after : Db = reconciled o.id state error at db in
    if same_report o state error
    then ok (unchanged, after)
    else elim (append_operation_reconciliation_event env o o.reconciliation_state state error at
        after) [ ok (u, db') ↦ ok (applied, db') | err e ↦ err e ]

-- `redact` is `redaction::text`, which reads the secrets from the environment.
abbrev pub redacted : (String → String) → Option String → Option String
redacted redact none = none
redacted redact (some s) = some (redact s)

unfoldable pub record_operation_reconciliation :
    (String → String)
    → Env
    → ℕ
    → ExternalResourceState
    → Option String
    → ℕ
    → Tx ResourceTransitionOutcome
unfolding record_report
record_operation_reconciliation redact env id state error at db = elim (operation db id) [
  | none ↦ ok (stale, db)
  | some o ↦
      if is_none o.reconciliation_state
      then ok (stale, db)
      else record_report env o state (redacted redact error) at db
]
