-- ===== src/Store/TransitionTask.antt =====
-- src/state.rs, a lifecycle action as one mutation: `transition_task_with_fingerprint`.
pub mod Laws
use coterie.Prelude.{ℕ, Bool, true, false, Option, none, some, String, str_eq, ◌==◌, if◌then◌else◌}
use coterie.Json.{Json, Members, null, num, ident, text, object, end, member}
use coterie.Tasks.{TaskStatus, in_progress, status_eq, status_str, TaskTransition, transition_str}
use coterie.Store.Records.{
  TaskRecord, ClaimRecord, AssignmentRecord, Mutation, MutationOutcome, OperatorClosureOverride,
  TaskTransitionMutation, TaskTransitionResult, transitioned, rejected,
}
use coterie.Store.Event.{
  EventKind, EventRecord, NewEvent, task_lifecycle_changed, assignment_lifecycle_changed,
  claim_released,
}
use coterie.Store.Tx.{
  StoreError, panicked, corrupt_task_state, Result, ok, err, Env, Db, Tx, ◌>>=◌, ◌>>◌, return, read,
}
use coterie.Store.Rows.{task, active_claim_for_task, active_assignment_for_task}
use coterie.Store.Events.{append_event}
use coterie.Store.Transitions.{Blank, assignment_state, apply_task_transition}
use coterie.Store.Mutate.{Codec, mutate_with_fingerprint}
use coterie.Store.ClaimTask.{mutation_actor, or_corrupt, ◌+++◌}

-- `serde_json::to_value(evidence)`.
abbrev pub evidence_json : OperatorClosureOverride → Json
evidence_json e = object (
    member "assignment_id" (ident e.assignment_id) (
      member "base_commit" (text e.base_commit) (
        member "project_id" (ident e.project_id) (
          member "reason" (text e.reason) (
            member "result_commit" (text e.result_commit) (
              member "target_commit" (text e.target_commit) (
                member "target_reference" (text e.target_reference)
                  (member "validation_summary" (text e.validation_summary) end))))))))

-- A new member goes to the end.
unfoldable pub set_member : String → Json → Members → Members
set_member k v end = member k v end
set_member k v (member j w r) = if str_eq j k then member k v r else member j w (set_member k v r)

-- `document[k] = v`: null becomes an object, and any other value that is no object panics.
unfoldable pub index_set : String → Json → Json → Option Json
unfolding set_member
index_set k v (object m) = some (object (set_member k v m))
index_set k v null = some (object (member k v end))
index_set k v _ = none

abbrev pub or_object : Option Json → Json
or_object none = object end
or_object (some j) = j

abbrev pub with_result : TaskTransitionMutation → Option Json → Option TaskTransitionMutation
with_result m none = none
with_result m (some j) = some (record m { result = some j })

-- The evidence of an override is recorded in the result; `none` is the panic.
unfoldable pub prepare : TaskTransitionMutation → Option TaskTransitionMutation
unfolding index_set
prepare m = elim m.operator_override [
  | none ↦ some m
  | some e ↦ with_result m (index_set "operator_override" (evidence_json e) (or_object m.result))
]

abbrev opt_json : Option Json → Json
opt_json none = null
opt_json (some j) = j

abbrev opt_text : Option String → Json
opt_text none = null
opt_text (some s) = text s

abbrev pub transition_mutation : TaskTransitionMutation → Mutation
transition_mutation m = record {
  id = m.operation_id;
  run_id = m.run_id;
  kind = "task." +++ transition_str m.transition;
  actor_agent_id = m.actor_agent_id;
  request = object (
      member "result" (opt_json m.result) (
        member "summary" (opt_text m.summary) (
          member "task_id" (ident m.task_id)
            (member "transition" (text (transition_str m.transition)) end))));
  created_at = m.transitioned_at;
}

-- The parts that the events of an action share.
abbrev transition_event :
    Env
    → TaskTransitionMutation
    → TaskRecord
    → EventKind
    → String
    → Option ℕ
    → Option ℕ
    → Json
    → String
    → NewEvent
transition_event env m t kind subject agent_id cause data_ summary = record {
  run_id = m.run_id;
  kind = kind;
  actor = mutation_actor env m.actor_agent_id;
  subject = subject;
  project_id = some t.project_id;
  agent_id = agent_id;
  task_id = some m.task_id;
  operation_id = some m.operation_id;
  correlation_id = cause;
  causation_id = cause;
  data_ = data_;
  summary = summary;
  created_at = m.transitioned_at;
}

abbrev with_override : Option OperatorClosureOverride → Members → Members
with_override none m = m
with_override (some e) m = set_member "operator_override" (evidence_json e) m

abbrev pub status_event :
    Env → TaskTransitionMutation → TaskRecord → TaskStatus → TaskStatus → NewEvent
status_event env m t previous status =
    transition_event env m t task_lifecycle_changed (env.display m.task_id) m.actor_agent_id none
      (object (
        with_override m.operator_override (
          member "previous_status" (text (status_str previous)) (
            member "status" (text (status_str status))
              (member "transition" (text (transition_str m.transition)) end)))))
      ("Task "
        +++ env.display m.task_id
        +++ " changed from "
        +++ status_str previous
        +++ " to "
        +++ status_str status
        +++ ".")

abbrev pub assignment_event :
    Env → TaskTransitionMutation → TaskRecord → ℕ → AssignmentRecord → String → NewEvent
assignment_event env m t cause a state =
    transition_event env m t assignment_lifecycle_changed (env.display a.id) (some a.agent_id)
      (some cause)
      (object (member "previous_state" (text a.state) (member "state" (text state) end)))
      ("Assignment " +++ env.display a.id +++ " changed to " +++ state +++ ".")

abbrev pub release_event : Env → TaskTransitionMutation → TaskRecord → ℕ → ClaimRecord → NewEvent
release_event env m t cause c =
    transition_event env m t claim_released (env.display m.task_id) (some c.agent_id) (some cause)
      (object (member "claim_id" (num c.id) end))
      ("Released the claim on task " +++ env.display m.task_id +++ ".")

-- `Option::ok_or_else(…)?`, and `unreachable!` for the state of a closed assignment.
abbrev pub or_throw : {A : Type 0} → StoreError → Option A → Tx A
or_throw e none db = err e
or_throw e (some a) db = ok (a, db)

-- The events of a released assignment and claim.
unfoldable pub ownership_events :
    Env
    → TaskTransitionMutation
    → TaskRecord
    → ℕ
    → Option AssignmentRecord
    → Option ClaimRecord
    → Tx (Unit {0})
ownership_events env m t cause active_assignment active_claim = do
  a ←
      or_throw (corrupt_task_state m.task_id "the transitioned task had no active assignment")
        active_assignment
  c ←
      or_throw (corrupt_task_state m.task_id "the transitioned task had no active claim")
        active_claim
  state ← or_throw panicked (assignment_state m.transition)
  _ ← append_event env (assignment_event env m t cause a state)
  _ ← append_event env (release_event env m t cause c)
  return tt

-- Only a task that was in progress had an owner.
abbrev pub if_owned : TaskStatus → Tx (Unit {0}) → Tx (Unit {0})
if_owned in_progress events = events
if_owned _ events = return tt

unfoldable pub transition_events :
    Env
    → TaskTransitionMutation
    → Option AssignmentRecord
    → Option ClaimRecord
    → TaskTransitionResult
    → Tx (Unit {0})
unfolding ownership_events
transition_events env m active_assignment active_claim (rejected _) = return tt
transition_events env m active_assignment active_claim (transitioned previous status) = do
  found ← read (λ db. task db m.task_id)
  t ← or_corrupt m.task_id "the transitioned task disappeared" found
  event ← append_event env (status_event env m t previous status)
  if_owned previous (ownership_events env m t event.id active_assignment active_claim)

unfoldable pub transition_body : Blank → Env → TaskTransitionMutation → Tx TaskTransitionResult
transition_body blank env m = do
  active_claim ← read (λ db. active_claim_for_task db m.run_id m.task_id)
  active_assignment ← read (λ db. active_assignment_for_task db m.run_id m.task_id)
  result ← apply_task_transition blank m
  transition_events env m active_assignment active_claim result
  return result

abbrev pub run_prepared :
    Codec TaskTransitionResult
    → Blank
    → Env
    → Option String
    → Option TaskTransitionMutation
    → Tx (MutationOutcome TaskTransitionResult)
run_prepared codec blank env fingerprint none db = err panicked
run_prepared codec blank env fingerprint (some m) db =
    mutate_with_fingerprint codec (transition_mutation m) fingerprint (transition_body blank env m)
      db

unfoldable pub transition_task_with_fingerprint :
    Codec TaskTransitionResult
    → Blank
    → Env
    → TaskTransitionMutation
    → Option String
    → Tx (MutationOutcome TaskTransitionResult)
transition_task_with_fingerprint codec blank env m fingerprint =
    run_prepared codec blank env fingerprint (prepare m)
