-- ===== src/Tests/Opened.antt =====
-- One name whose `unfolding` line opens the definitions of the store, for tests by evaluation.
use coterie.Sql.{
  select_first, select_all, exists_where, count_where, update_where, max_where, order_by,
  select_latest,
}
use coterie.Json.{get_member, get, keys_within, json_eq, members_within}
use coterie.Tasks.{
  status_eq, transition_eq, status_str, transition_str, parse_status, can_transition_to, transition,
  is_ready,
}
use coterie.Lifecycle.{lifecycle_eq, lifecycle_str, is_terminal, allows}
use coterie.Store.Event.{event_kind_str}
use coterie.Store.Records.{resource_eq, resource_str}
use coterie.Store.Tx.{run_transaction}
use coterie.Store.Keys.{
  has_run, has_project, has_agent, has_session, has_task, has_operation, has_claim, has_assignment,
  has_event,
}
use coterie.Store.Events.{
  event_admitted, insert_event, next_sequence, event_record, append_event, page_of, events_after,
}
use coterie.Store.Rows.{
  run, agent, session, session_credential, task, operation, claim, assignment, workspace,
  active_claim_for_task, active_assignment_for_agent, active_assignment_for_task,
  latest_assignment_for_task, event_field, sql_eq, is_recovered, session_scope_is_current,
  assignment_session_matches, assignment_scope_is_current,
}
use coterie.Store.Claims.{
  is_claimed, is_blocked, is_busy, claimable, claim_rejection, claim_admitted, insert_claim,
  assignment_admitted, agent_owns, session_owns, owner_matches, insert_assignment, next_claim_id,
  take_ownership, compare_and_set_claim,
}
use coterie.Store.Transitions.{
  assignment_state, release_task_ownership, evidence_assignment, evidence_workspace, override_valid,
  awaits_integration, accepted, next_result, perform, transition_found, apply_task_transition,
}
use coterie.Store.Mutate.{
  operation_admitted, insert_operation, same_request, same_mutation, replay,
  mutate_with_fingerprint, mutate,
}
use coterie.Store.ClaimTask.{
  mutation_actor, is_continued, task_recoveries, pending_recovery, link_continuation,
  append_task_claim_events, claim_body, claim_task,
}
use coterie.Store.TransitionTask.{
  set_member, index_set, prepare, ownership_events, transition_events, transition_body,
  transition_task_with_fingerprint,
}

unfoldable pub opened : Unit {0}
unfolding select_first select_all exists_where count_where update_where max_where order_by
    select_latest get_member get keys_within json_eq members_within status_eq transition_eq
    status_str transition_str parse_status can_transition_to transition is_ready lifecycle_eq
    lifecycle_str is_terminal allows event_kind_str resource_eq resource_str run_transaction has_run
    has_project has_agent has_session has_task has_operation has_claim has_assignment has_event
    event_admitted insert_event next_sequence event_record append_event page_of events_after run
    agent session session_credential task operation claim assignment workspace active_claim_for_task
    active_assignment_for_agent active_assignment_for_task latest_assignment_for_task event_field
    sql_eq is_recovered session_scope_is_current assignment_session_matches
    assignment_scope_is_current is_claimed is_blocked is_busy claimable claim_rejection
    claim_admitted insert_claim assignment_admitted agent_owns session_owns owner_matches
    insert_assignment next_claim_id take_ownership compare_and_set_claim assignment_state
    release_task_ownership evidence_assignment evidence_workspace override_valid awaits_integration
    accepted next_result perform transition_found apply_task_transition operation_admitted
    insert_operation same_request same_mutation replay mutate_with_fingerprint mutate mutation_actor
    is_continued task_recoveries pending_recovery link_continuation append_task_claim_events
    claim_body claim_task set_member index_set prepare ownership_events transition_events
    transition_body transition_task_with_fingerprint
opened = tt
