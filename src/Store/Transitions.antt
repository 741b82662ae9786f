-- ===== src/Store/Transitions.antt =====
-- src/state.rs, the lifecycle actions of a task: `apply_task_transition` and the release of the
-- claim and assignment of a task in progress.
use coterie.Prelude.{
  ℕ, Bool, true, false, not, ◌&&◌, Option, none, some, String, str_eq, ◌==◌, is_none, if◌then◌else◌,
}
use coterie.Json.{Json}
use coterie.Tasks.{
  TaskStatus, in_progress, submitted, TaskTransition, reopen, submit, close, cancel, status_eq,
  transition_eq, transition,
}
use coterie.Sql.{count_where, update_where}
use coterie.Store.Records.{
  TaskRecord, ClaimRecord, AssignmentRecord, WorkspaceRecord, OperatorClosureOverride,
  TaskTransitionMutation, TaskTransitionResult, transitioned, rejected, task_not_found,
  invalid_status, acceptance_not_met,
}
use coterie.Store.Tx.{corrupt_task_state, Result, ok, err, Db, Tx}
use coterie.Store.Rows.{task, workspace, latest_assignment_for_task}

-- `text.trim().is_empty()` is a parameter: the Unicode notion of white space is the standard
-- library's.
abbrev pub Blank : Type 0
Blank = String → Bool

-- The state that an assignment gets with the action; `none` where the source refuses.
unfoldable pub assignment_state : TaskTransition → Option String
assignment_state reopen = some "released"
assignment_state submit = some "completed"
assignment_state cancel = some "canceled"
assignment_state close = none

abbrev pub coalesce : Option String → Option String → Option String
coalesce none old = old
coalesce (some new) old = some new

abbrev pub owns_assignment : TaskTransitionMutation → AssignmentRecord → Bool
owns_assignment m a = a.task_id == m.task_id && (a.run_id == m.run_id && is_none a.completed_at)

abbrev pub owns_claim : TaskTransitionMutation → ClaimRecord → Bool
owns_claim m c = c.task_id == m.task_id && (c.run_id == m.run_id && is_none c.released_at)

-- The tables after the two `UPDATE`s of `release_task_ownership`.
abbrev pub release_rows : TaskTransitionMutation → String → Db → Db
release_rows m state db = record db {
  assignments =
      update_where (owns_assignment m)
        (λ a. record a {
          state = state;
          summary = coalesce m.summary a.summary;
          completed_at = some m.transitioned_at;
        })
        db.assignments;
  claims =
      update_where (owns_claim m)
        (λ c. record c { state = "released"; released_at = some m.transitioned_at }) db.claims;
}

unfoldable pub release_task_ownership : TaskTransitionMutation → Tx (Unit {0})
unfolding assignment_state
release_task_ownership m db = elim (assignment_state m.transition) [
  | none ↦ err (corrupt_task_state m.task_id "an in-progress task cannot close directly")
  | some state ↦
      if count_where (owns_assignment m) db.assignments == 1
        && count_where (owns_claim m) db.claims == 1
      then ok (tt, release_rows m state db)
      else err (corrupt_task_state m.task_id "expected one active assignment and claim")
]

abbrev pub opt_str_eq : Option String → Option String → Bool
opt_str_eq none none = true
opt_str_eq none (some b) = false
opt_str_eq (some a) none = false
opt_str_eq (some a) (some b) = str_eq a b

-- The latest assignment of the task is the one in the evidence, and is completed.
unfoldable pub evidence_assignment : OperatorClosureOverride → Option AssignmentRecord → Bool
evidence_assignment e none = false
evidence_assignment e (some a) = a.id == e.assignment_id && str_eq a.state "completed"

-- The workspace in the evidence is an unintegrated worktree with the commits in the evidence.
unfoldable pub evidence_workspace : OperatorClosureOverride → ℕ → ℕ → Option WorkspaceRecord → Bool
evidence_workspace e run_id project_id none = false
evidence_workspace e run_id project_id (some w) =
    w.run_id == run_id
    && (w.project_id == project_id
        && (str_eq w.kind "worktree"
            && (is_none w.target_commit
                && (opt_str_eq w.base_commit (some e.base_commit)
                    && opt_str_eq w.result_commit (some e.result_commit)))))

unfoldable pub override_valid :
    Blank → TaskTransitionMutation → OperatorClosureOverride → TaskRecord → Db → Bool
unfolding evidence_assignment evidence_workspace
override_valid blank m e t db =
    is_none m.actor_agent_id
    && (transition_eq m.transition close
        && (status_eq t.status submitted
            && (e.project_id == t.project_id
                && (not (blank e.reason)
                    && (not (blank e.validation_summary)
                        && (evidence_assignment e (latest_assignment_for_task db m.run_id t.id)
                            && evidence_workspace e m.run_id t.project_id
                                (workspace db e.assignment_id)))))))

abbrev unintegrated : Option WorkspaceRecord → Bool
unintegrated none = false
unintegrated (some w) = str_eq w.kind "worktree" && is_none w.target_commit

-- The latest assignment of the task has a worktree with no target commit.
unfoldable pub awaits_integration : Db → ℕ → ℕ → Bool
awaits_integration db run_id task_id = elim (latest_assignment_for_task db run_id task_id) [
  | none ↦ false
  | some a ↦ unintegrated (workspace db a.id)
]

-- Whether the two acceptance rules of `apply_task_transition` let the action pass.
unfoldable pub accepted : Blank → TaskTransitionMutation → TaskRecord → Db → Bool
unfolding override_valid awaits_integration
accepted blank m t db = elim m.operator_override [
  | some e ↦ override_valid blank m e t db
  | none ↦ not (
      transition_eq m.transition close
      && (status_eq t.status submitted && awaits_integration db m.run_id m.task_id))
]

abbrev or_else : Option Json → Option Json → Option Json
or_else none b = b
or_else (some a) b = some a

-- The result document that the action leaves on the task.
unfoldable pub next_result : TaskTransition → Option Json → Option Json → Option Json
next_result reopen new old = none
next_result submit new old = new
next_result close new old = or_else new old
next_result cancel new old = old

-- The tables after the last `UPDATE tasks`.
abbrev pub set_status : TaskTransitionMutation → TaskRecord → TaskStatus → Db → Db
set_status m t status db = record db {
  tasks =
      update_where (λ r. r.id == m.task_id && r.run_id == m.run_id)
        (λ r. record r {
          status = status;
          result = next_result m.transition m.result t.result;
          updated_at = m.transitioned_at;
        })
        db.tasks;
}

abbrev pub finish_transition :
    TaskTransitionMutation
    → TaskRecord
    → TaskStatus
    → Result (Unit {0} × Db)
    → Result (TaskTransitionResult × Db)
finish_transition m t status (ok (u, db)) =
    ok (transitioned t.status status, set_status m t status db)
finish_transition m t status (err e) = err e

-- The tail of `apply_task_transition`, after its checks.
unfoldable pub perform : TaskTransitionMutation → TaskRecord → TaskStatus → Tx TaskTransitionResult
perform m t status db =
    finish_transition m t status
      (if status_eq t.status in_progress then release_task_ownership m db else ok (tt, db))

-- The checks of `apply_task_transition` on the task that it found.
unfoldable pub transition_found :
    Blank → TaskTransitionMutation → TaskRecord → Tx TaskTransitionResult
transition_found blank m t db = elim (transition t.status m.transition) [
  | none ↦ ok (rejected (invalid_status t.status), db)
  | some status ↦
      if accepted blank m t db then perform m t status db else ok (rejected acceptance_not_met, db)
]

abbrev pub of_run : ℕ → Option TaskRecord → Option TaskRecord
of_run run_id none = none
of_run run_id (some t) = if t.run_id == run_id then some t else none

unfoldable pub apply_task_transition : Blank → TaskTransitionMutation → Tx TaskTransitionResult
apply_task_transition blank m db = elim (of_run m.run_id (task db m.task_id)) [
  | none ↦ ok (rejected task_not_found, db)
  | some t ↦ transition_found blank m t db
]
