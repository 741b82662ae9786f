-- ===== src/Store/Supervision/Controls.antt =====
-- src/state/supervision.rs, the phased end of a session: `session_controls`,
-- `request_session_control`, `set_control_phase` and `mark_control_delivered`.
pub mod Laws
use coterie.Prelude.{
  ℕ, ◌/◌, Bool, true, false, not, ◌&&◌, ◌||◌, Option, none, some, List, [], ◌∷◌, ◌++◌, String, leb,
  ltb, ◌==◌, if◌then◌else◌,
}
use coterie.Json.{num, text, object, end, member}
use coterie.Sql.{select_all, order_by, exists_where, update_where}
use coterie.Store.Control.{
  ControlPhase, interrupt, terminate, kill, timed_out, completed, ControlReason, shutdown,
  startup_timeout, execution_timeout, SessionScope, SessionControl,
}
use coterie.Store.Event.{EventKind}
use coterie.Store.Tx.{StoreError, database, Result, ok, err, Env, Db, Tx, ◌>>◌}
use coterie.Store.Keys.{has_session}
use coterie.Store.Rows.{session_scope_is_current, active_assignment_for_agent}
use coterie.Store.Supervision.{saturating_add, supervision_event}
use coterie.Store.Supervision.Shutdown.{drain_assignment}

-- The derived `PartialEq` and `Serialize`.
unfoldable pub control_phase_eq : ControlPhase → ControlPhase → Bool
control_phase_eq interrupt interrupt = true
control_phase_eq terminate terminate = true
control_phase_eq kill kill = true
control_phase_eq timed_out timed_out = true
control_phase_eq completed completed = true
control_phase_eq _ _ = false

unfoldable pub control_phase_str : ControlPhase → String
control_phase_str interrupt = "interrupt"
control_phase_str terminate = "terminate"
control_phase_str kill = "kill"
control_phase_str timed_out = "timed_out"
control_phase_str completed = "completed"

unfoldable pub control_reason_str : ControlReason → String
control_reason_str shutdown = "shutdown"
control_reason_str startup_timeout = "startup_timeout"
control_reason_str execution_timeout = "execution_timeout"

unfoldable pub session_controls : Db → ℕ → List SessionControl
session_controls db run_id =
    order_by (λ c. c.scope.session_id) (select_all (λ c. c.scope.run_id == run_id) db.controls)

abbrev pub control_row : SessionScope → ControlReason → ℕ → ℕ → ℕ → SessionControl
control_row s reason now_ms grace_ms timeout_ms = record {
  scope = s;
  reason = reason;
  phase = interrupt;
  delivered = false;
  requested_at_ms = now_ms;
  interrupt_until_ms = saturating_add now_ms grace_ms;
  kill_at_ms = saturating_add now_ms (timeout_ms / 2);
  deadline_ms = saturating_add now_ms timeout_ms;
}

abbrev pub is_controlled : SessionScope → SessionControl → Bool
is_controlled s c = c.scope.session_id == s.session_id

-- The check on the times of `session_controls`. `INSERT OR IGNORE` ignores a row that fails it.
abbrev pub control_checked : SessionControl → Bool
control_checked c =
    leb c.requested_at_ms c.interrupt_until_ms
    && (leb c.interrupt_until_ms c.kill_at_ms && ltb c.kill_at_ms c.deadline_ms)

-- The row is a new one, so that the `INSERT OR IGNORE` changes a row.
unfoldable pub is_new_control : Db → SessionControl → Bool
is_new_control db c = not (exists_where (is_controlled c.scope) db.controls) && control_checked c

-- The active assignment of the session's agent is drained.
unfoldable pub drain_owner : Env → SessionScope → ℕ → Tx (Unit {0})
drain_owner env s now_ms db = elim (active_assignment_for_agent db s.run_id s.agent_id) [
  | none ↦ ok (tt, db)
  | some a ↦ drain_assignment env a now_ms db
]

-- The events of a new control.
unfoldable pub announce_control : Env → SessionScope → ControlReason → ℕ → Tx (Unit {0})
unfolding drain_owner
announce_control env s reason now_ms =
    drain_owner env s now_ms
    >> supervision_event env s.run_id EventKind.session_control_changed (env.display s.session_id)
        (some s.agent_id) none
        (object (
          member "generation" (num s.generation) (
            member "phase" (text (control_phase_str interrupt))
              (member "reason" (text (control_reason_str reason)) end))))
        "Requested bounded session shutdown." now_ms

unfoldable pub request_session_control :
    Env → SessionScope → ControlReason → ℕ → ℕ → ℕ → Tx (Unit {0})
unfolding is_new_control announce_control
request_session_control env s reason now_ms grace_ms timeout_ms db =
    let row = control_row s reason now_ms grace_ms timeout_ms in
    if not (session_scope_is_current db s)
    then ok (tt, db)
    else if not (is_new_control db row)
    then ok (tt, db)
    else if has_session db s.run_id s.agent_id s.session_id
    then announce_control env s reason now_ms (record db { controls = db.controls ++ row ∷ [] })
    else err database

abbrev pub control_phase_set : SessionScope → ControlPhase → Db → Db
control_phase_set s phase db = record db {
  controls =
      update_where (is_controlled s) (λ c. record c { phase = phase; delivered = false })
        db.controls;
}

-- The event of a change of phase.
unfoldable pub announce_phase : Env → SessionControl → ControlPhase → ℕ → Tx (Unit {0})
announce_phase env c phase now_ms =
    supervision_event env c.scope.run_id EventKind.session_control_changed
      (env.display c.scope.session_id) (some c.scope.agent_id) none
      (object (
        member "generation" (num c.scope.generation) (
          member "phase" (text (control_phase_str phase)) (
            member "previous_phase" (text (control_phase_str c.phase))
              (member "reason" (text (control_reason_str c.reason)) end)))))
      "Session control phase changed." now_ms

unfoldable pub set_control_phase : Env → SessionControl → ControlPhase → ℕ → Tx (Unit {0})
unfolding announce_phase
set_control_phase env c phase now_ms db =
    if not (session_scope_is_current db c.scope) || control_phase_eq phase c.phase
    then ok (tt, db)
    else announce_phase env c phase now_ms (control_phase_set c.scope phase db)

abbrev pub marked_delivered : SessionControl → Db → Db
marked_delivered c db = record db {
  controls =
      update_where (λ r. is_controlled c.scope r && control_phase_eq r.phase c.phase)
        (λ r. record r { delivered = true }) db.controls;
}

unfoldable pub mark_control_delivered : SessionControl → Tx (Unit {0})
mark_control_delivered c db =
    if session_scope_is_current db c.scope then ok (tt, marked_delivered c db) else ok (tt, db)
