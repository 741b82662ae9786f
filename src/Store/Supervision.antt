-- ===== src/Store/Supervision.antt =====
-- src/state/supervision.rs: deadlines, the idleness of a run and the events of supervision. Times
-- are not negative. `i64` arithmetic that saturates is bounded by `maximum`.
pub mod Launch
pub mod Crashes
pub mod Shutdown
pub mod Controls
pub mod Frame
pub mod Laws
pub mod Keeps
pub mod Reach
use coterie.Prelude.{
  ℕ, ◌+◌, ◌*◌, ◌/◌, ◌-◌, ◌^◌, min, max, Bool, true, false, not, ◌&&◌, ◌||◌, Option, none, some,
  String, str_eq, ◌==◌, if◌then◌else◌,
}
use coterie.Json.{Json, num, object, end, member}
use coterie.Sql.{exists_where, max_where}
use coterie.Lifecycle.{LifecycleState, lifecycle_eq, starting, running, exited}
use coterie.Store.Records.{SessionRecord, OperationRecord, desired, observed, unknown, resource_eq}
use coterie.Store.Control.{SessionScope, ControlPhase, SessionControl, completed}
use coterie.Store.Event.{NewEvent, EventKind, EventRecord}
use coterie.Store.Tx.{Result, ok, err, Env, Db, Tx, ◌>>=◌, return}
use coterie.Store.Events.{append_event}
use coterie.Store.Rows.{session_scope_is_current, event_field, sql_eq}
use coterie.Store.Operations.{opt_resource_eq}

-- `i64::MAX`.
abbrev pub maximum : ℕ
maximum = 2 ^ 63 - 1

abbrev pub saturating_add : ℕ → ℕ → ℕ
saturating_add a b = min (a + b) maximum

abbrev pub saturating_mul : ℕ → ℕ → ℕ
saturating_mul a b = min (a * b) maximum

unfoldable pub job_warning_window : ℕ → ℕ
job_warning_window timeout_seconds = min (max (timeout_seconds / 10) 1) 300

abbrev pub new_supervision_event :
    ℕ → EventKind → String → Option ℕ → Option ℕ → Json → String → ℕ → NewEvent
new_supervision_event run_id kind subject agent_id operation_id data_ summary now_ms = record {
  run_id = run_id;
  kind = kind;
  actor = "supervisor";
  subject = subject;
  project_id = none;
  agent_id = agent_id;
  task_id = none;
  operation_id = operation_id;
  correlation_id = none;
  causation_id = none;
  data_ = data_;
  summary = summary;
  created_at = now_ms / 1000;
}

unfoldable pub supervision_event :
    Env → ℕ → EventKind → String → Option ℕ → Option ℕ → Json → String → ℕ → Tx (Unit {0})
supervision_event env run_id kind subject agent_id operation_id data_ summary now_ms =
    append_event env
      (new_supervision_event run_id kind subject agent_id operation_id data_ summary now_ms)
    >>= λ e. return tt

-- The warning of this generation of the session is in the log.
unfoldable pub is_warned : Env → SessionScope → EventRecord → Bool
is_warned env s e =
    e.run_id == s.run_id
    && (str_eq e.event_type "session.deadline_approaching"
        && (str_eq e.subject (env.display s.session_id)
            && sql_eq (event_field "generation" e) (some (num s.generation))))

unfoldable pub announce_deadline : Env → SessionScope → ℕ → ℕ → Tx (Unit {0})
unfolding supervision_event
announce_deadline env s deadline_at now_ms =
    supervision_event env s.run_id EventKind.session_deadline_approaching (env.display s.session_id)
      (some s.agent_id) none
      (object (member "deadline_at" (num deadline_at) (member "generation" (num s.generation) end)))
      "Background job deadline is approaching; complete pending review and commit handoff before the worker exits."
      now_ms

unfoldable pub warn_job_deadline : Env → SessionScope → ℕ → ℕ → Tx (Unit {0})
unfolding is_warned announce_deadline
warn_job_deadline env s deadline_at now_ms db =
    if not (session_scope_is_current db s)
    then ok (tt, db)
    else if exists_where (is_warned env s) db.events
    then ok (tt, db)
    else announce_deadline env s deadline_at now_ms db

-- The derived `PartialEq` with `Completed`.
abbrev pub is_completed : ControlPhase → Bool
is_completed completed = true
is_completed _ = false

abbrev pub is_unfinished_session : ℕ → SessionRecord → Bool
is_unfinished_session run_id r =
    r.run_id == run_id
    && (not (lifecycle_eq r.state exited) || not (resource_eq r.reconciliation_state observed))

-- The states of an agent whose process may be alive.
abbrev pub is_possibly_alive : LifecycleState → Bool
is_possibly_alive s =
    lifecycle_eq s starting || (lifecycle_eq s running || lifecycle_eq s LifecycleState.unknown)

abbrev pub is_unsettled_operation : ℕ → OperationRecord → Bool
is_unsettled_operation run_id o =
    o.run_id == run_id
    && (str_eq o.status "pending"
        || (opt_resource_eq o.reconciliation_state (some desired)
            || opt_resource_eq o.reconciliation_state (some unknown)))

-- The conditions of `idle_shutdown_cursor`.
unfoldable pub is_idle : Db → ℕ → Bool
is_idle db run_id =
    exists_where (λ r. r.id == run_id && str_eq r.status "active") db.runs
    && (not (exists_where (λ r. r.run_id == run_id) db.shutdowns)
        && (not (exists_where (is_unfinished_session run_id) db.sessions)
            && (not (exists_where (λ a. a.run_id == run_id && is_possibly_alive a.state) db.agents)
                && (not (exists_where (is_unsettled_operation run_id) db.operations)
                    && (not (
                          exists_where (λ c. c.scope.run_id == run_id && not (is_completed c.phase))
                            db.controls)
                        && not (
                            exists_where
                              (λ w.
                                w.run_id == run_id
                                && (resource_eq w.state desired || resource_eq w.state unknown))
                              db.workspaces))))))

unfoldable pub idle_shutdown_cursor : Db → ℕ → Option ℕ
unfolding is_idle
idle_shutdown_cursor db run_id =
    if is_idle db run_id
    then some (max_where (λ e. e.run_id == run_id) (λ e. e.sequence) db.events)
    else none
