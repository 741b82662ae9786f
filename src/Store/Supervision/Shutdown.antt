-- ===== src/Store/Supervision/Shutdown.antt =====
-- src/state/supervision.rs, the shutdown of a run: `begin_run_shutdown`, `drain_assignment`,
-- `set_shutdown_phase` and `complete_shutdown_operation`.
pub mod Rounds
pub mod Draining
pub mod Frame
pub mod Steps
pub mod Laws
use coterie.Prelude.{
  ℕ, ◌/◌, Bool, true, false, not, ◌&&◌, ◌||◌, Option, none, some, List, [], ◌∷◌, ◌++◌, String,
  str_eq, leb, ltb, ◌==◌, is_some, is_none, if◌then◌else◌,
}
use coterie.Json.{Json, num, text, object, end, member}
use coterie.Sql.{select_all, order_by, exists_where, update_where}
use coterie.Store.Records.{
  RunRecord, AgentRecord, AssignmentRecord, OperationRecord, desired, observed,
}
use coterie.Store.Control.{
  ShutdownPhase, interrupting, terminating, reconciling, timed_out, completed, RunShutdown,
}
use coterie.Store.Event.{NewEvent, EventKind}
use coterie.Store.Tx.{
  StoreError, database, operation_conflict, run_not_active, Result, ok, err, Env, Db, Tx, ◌>>=◌,
  ◌>>◌, return,
}
use coterie.Store.Keys.{has_run, has_operation}
use coterie.Store.ClaimTask.{◌+++◌}
use coterie.Store.Events.{append_event}
use coterie.Store.Mutate.{insert_operation}
use coterie.Store.Rows.{run, operation, active_assignment_for_agent}
use coterie.Store.Operations.{record_operation_reconciliation}
use coterie.Store.Supervision.{saturating_add, supervision_event}
use coterie.Store.Supervision.Launch.{run_shutdown}

-- The derived `PartialEq` and `Serialize`.
unfoldable pub shutdown_phase_eq : ShutdownPhase → ShutdownPhase → Bool
shutdown_phase_eq interrupting interrupting = true
shutdown_phase_eq terminating terminating = true
shutdown_phase_eq reconciling reconciling = true
shutdown_phase_eq timed_out timed_out = true
shutdown_phase_eq completed completed = true
shutdown_phase_eq _ _ = false

unfoldable pub shutdown_phase_str : ShutdownPhase → String
shutdown_phase_str interrupting = "interrupting"
shutdown_phase_str terminating = "terminating"
shutdown_phase_str reconciling = "reconciling"
shutdown_phase_str timed_out = "timed_out"
shutdown_phase_str completed = "completed"

-- The constraints of the table `run_shutdowns`.
unfoldable pub shutdown_admitted : Db → RunShutdown → Bool
shutdown_admitted db s =
    not (exists_where (λ r. r.run_id == s.run_id) db.shutdowns)
    && (not (exists_where (λ r. r.operation_id == s.operation_id) db.shutdowns)
        && ((leb s.requested_at_ms s.interrupt_until_ms && ltb s.interrupt_until_ms s.deadline_ms)
            && (has_run db s.run_id && has_operation db s.run_id s.operation_id)))

unfoldable pub insert_shutdown : RunShutdown → Tx (Unit {0})
unfolding shutdown_admitted
insert_shutdown s db =
    if shutdown_admitted db s
    then ok (tt, record db { shutdowns = db.shutdowns ++ s ∷ [] })
    else err database

abbrev pub drained : ℕ → Db → Db
drained assignment_id db = record db {
  assignments =
      update_where (λ a. a.id == assignment_id && is_none a.completed_at)
        (λ a. record a { state = "draining" }) db.assignments;
}

abbrev pub draining_event : Env → AssignmentRecord → ℕ → NewEvent
draining_event env a now_ms = record {
  run_id = a.run_id;
  kind = EventKind.assignment_lifecycle_changed;
  actor = "supervisor";
  subject = env.display a.id;
  project_id = none;
  agent_id = some a.agent_id;
  task_id = some a.task_id;
  operation_id = none;
  correlation_id = none;
  causation_id = none;
  data_ = object (
      member "generation" (num a.generation)
        (member "previous_state" (text a.state) (member "state" (text "draining") end)));
  summary =
      "Draining assignment " +++ (env.display a.id +++ " while preserving its task and workspace.");
  created_at = now_ms / 1000;
}

unfoldable pub drain_assignment : Env → AssignmentRecord → ℕ → Tx (Unit {0})
drain_assignment env a now_ms db =
    if str_eq a.state "draining"
    then ok (tt, db)
    else (append_event env (draining_event env a now_ms) >>= λ e. return tt) (drained a.id db)

unfoldable pub agents_of : Db → ℕ → List AgentRecord
agents_of db run_id = order_by (λ a. a.created_at) (select_all (λ a. a.run_id == run_id) db.agents)

-- One round of the loop of `begin_run_shutdown`.
unfoldable pub drain_agent : Env → ℕ → ℕ → AgentRecord → Tx (Unit {0})
unfolding drain_assignment
drain_agent env run_id now_ms agent db = elim (active_assignment_for_agent db run_id agent.id) [
  | none ↦ ok (tt, db)
  | some a ↦ drain_assignment env a now_ms db
]

unfoldable pub drain_agents : Env → ℕ → ℕ → List AgentRecord → Tx (Unit {0})
drain_agents env run_id now_ms [] = return tt
drain_agents env run_id now_ms (a ∷ rest) =
    drain_agent env run_id now_ms a >> drain_agents env run_id now_ms rest

abbrev pub stop_operation : ℕ → ℕ → ℕ → OperationRecord
stop_operation run_id operation_id now_ms = record {
  id = operation_id;
  run_id = run_id;
  kind = "run.stop";
  actor_agent_id = none;
  status = "pending";
  request = object end;
  result = none;
  attempt_count = 1;
  reconciliation_state = some desired;
  reconciliation_attempt_count = 0;
  reconciliation_error = none;
  reconciled_at = none;
  created_at = now_ms / 1000;
  updated_at = now_ms / 1000;
  request_fingerprint = none;
}

abbrev pub shutdown_row : ℕ → ℕ → ℕ → ℕ → ℕ → RunShutdown
shutdown_row run_id operation_id now_ms grace_ms timeout_ms = record {
  run_id = run_id;
  operation_id = operation_id;
  phase = interrupting;
  requested_at_ms = now_ms;
  interrupt_until_ms = saturating_add now_ms grace_ms;
  deadline_ms = saturating_add now_ms timeout_ms;
}

-- The event of a new shutdown.
unfoldable pub announce_shutdown : Env → ℕ → ℕ → ℕ → Tx (Unit {0})
announce_shutdown env run_id operation_id now_ms =
    supervision_event env run_id EventKind.run_shutdown_changed (env.display run_id) none
      (some operation_id) (object (member "phase" (text "interrupting") end))
      "Stopping new launches and draining assignments." now_ms

-- The writes of a new shutdown.
unfoldable pub perform_shutdown : Env → ℕ → ℕ → ℕ → ℕ → ℕ → Tx (Unit {0})
unfolding insert_shutdown announce_shutdown drain_agents agents_of
perform_shutdown env run_id operation_id now_ms grace_ms timeout_ms =
    insert_operation (stop_operation run_id operation_id now_ms)
    >> insert_shutdown (shutdown_row run_id operation_id now_ms grace_ms timeout_ms)
    >> announce_shutdown env run_id operation_id now_ms
    >> (λ db. drain_agents env run_id now_ms (agents_of db run_id) db)

-- `is_some_and(|run| run.status == "active")`
abbrev pub is_active : Option RunRecord → Bool
is_active none = false
is_active (some r) = str_eq r.status "active"

unfoldable pub begin_run_shutdown : Env → ℕ → ℕ → ℕ → ℕ → ℕ → Tx (Unit {0})
unfolding perform_shutdown
begin_run_shutdown env run_id operation_id now_ms grace_ms timeout_ms db =
    elim (run_shutdown db run_id) [
      | some s ↦
          if s.operation_id == operation_id
          then ok (tt, db)
          else err (operation_conflict operation_id)
      | none ↦
          if is_some (operation db operation_id)
          then err (operation_conflict operation_id)
          else if not (is_active (run db run_id))
          then err (run_not_active run_id)
          else perform_shutdown env run_id operation_id now_ms grace_ms timeout_ms db
    ]

abbrev pub phase_set : ℕ → ShutdownPhase → Db → Db
phase_set run_id phase db = record db {
  shutdowns = update_where (λ r. r.run_id == run_id) (λ r. record r { phase = phase }) db.shutdowns;
}

-- The event of a change of phase.
unfoldable pub announce_change : Env → RunShutdown → ℕ → ShutdownPhase → ℕ → Tx (Unit {0})
announce_change env s run_id phase now_ms =
    supervision_event env run_id EventKind.run_shutdown_changed (env.display run_id) none
      (some s.operation_id)
      (object (
        member "phase" (text (shutdown_phase_str phase))
          (member "previous_phase" (text (shutdown_phase_str s.phase)) end)))
      "Shutdown phase changed." now_ms

-- `set_shutdown_phase` of a shutdown that was found.
unfoldable pub change_phase : Env → RunShutdown → ℕ → ShutdownPhase → ℕ → Tx (Unit {0})
unfolding announce_change
change_phase env s run_id phase now_ms db =
    if shutdown_phase_eq s.phase phase || shutdown_phase_eq s.phase completed
    then ok (tt, db)
    else announce_change env s run_id phase now_ms (phase_set run_id phase db)

unfoldable pub set_shutdown_phase : Env → ℕ → ShutdownPhase → ℕ → Tx (Unit {0})
unfolding change_phase
set_shutdown_phase env run_id phase now_ms db = elim (run_shutdown db run_id) [
  | none ↦ ok (tt, db)
  | some s ↦ change_phase env s run_id phase now_ms db
]

abbrev pub operation_completed : ℕ → Json → ℕ → Db → Db
operation_completed id response now_ms db = record db {
  operations =
      update_where (λ o. o.id == id)
        (λ o. record o { status = "completed"; result = some response; updated_at = now_ms / 1000 })
        db.operations;
}

-- The operation of the shutdown is completed and its reconciliation recorded.
unfoldable pub finish_operation : (String → String) → Env → ℕ → Json → ℕ → Tx (Unit {0})
finish_operation redact env id response now_ms db =
    (record_operation_reconciliation redact env id observed none (now_ms / 1000) >>= λ o. return tt)
      (operation_completed id response now_ms db)

unfoldable pub complete_shutdown_operation : (String → String) → Env → ℕ → Json → ℕ → Tx (Unit {0})
unfolding finish_operation
complete_shutdown_operation redact env run_id response now_ms db = elim (run_shutdown db run_id) [
  | none ↦ err (run_not_active run_id)
  | some s ↦
      (set_shutdown_phase env run_id completed now_ms
          >> finish_operation redact env s.operation_id response now_ms)
        db
]
