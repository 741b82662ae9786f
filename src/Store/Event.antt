-- ===== src/Store/Event.antt =====
-- The event stream's types in src/state.rs: `EventKind`, `EventRecord` and `NewEvent`.
use coterie.Prelude.{ℕ, Option, String}
use coterie.Json.{Json}

pub data EventKind : Type 0 where
  run_started run_stopped run_recovered run_shutdown_changed : EventKind
  session_control_changed session_deadline_approaching session_restart_limited : EventKind
  project_attached agent_created agent_lifecycle_changed session_started : EventKind
  session_lifecycle_changed session_reconciliation_changed : EventKind
  operation_reconciliation_changed task_created task_claimed task_lifecycle_changed : EventKind
  task_resubmitted task_recovered assignment_continued assignment_created : EventKind
  assignment_session_associated assignment_lifecycle_changed claim_released : EventKind
  message_sent message_acknowledged workspace_desired : EventKind
  workspace_reconciliation_changed workspace_integration_desired workspace_integrated : EventKind

unfoldable pub event_kind_str : EventKind → String
event_kind_str run_started = "run.started"
event_kind_str run_stopped = "run.stopped"
event_kind_str run_recovered = "run.recovered"
event_kind_str run_shutdown_changed = "run.shutdown_changed"
event_kind_str session_control_changed = "session.control_changed"
event_kind_str session_deadline_approaching = "session.deadline_approaching"
event_kind_str session_restart_limited = "session.restart_limited"
event_kind_str project_attached = "project.attached"
event_kind_str agent_created = "agent.created"
event_kind_str agent_lifecycle_changed = "agent.lifecycle_changed"
event_kind_str session_started = "session.started"
event_kind_str session_lifecycle_changed = "session.lifecycle_changed"
event_kind_str session_reconciliation_changed = "session.reconciliation_changed"
event_kind_str operation_reconciliation_changed = "operation.reconciliation_changed"
event_kind_str task_created = "task.created"
event_kind_str task_claimed = "task.claimed"
event_kind_str task_lifecycle_changed = "task.lifecycle_changed"
event_kind_str task_resubmitted = "task.resubmitted"
event_kind_str task_recovered = "task.recovered"
event_kind_str assignment_continued = "assignment.continued"
event_kind_str assignment_created = "assignment.created"
event_kind_str assignment_session_associated = "assignment.session_associated"
event_kind_str assignment_lifecycle_changed = "assignment.lifecycle_changed"
event_kind_str claim_released = "claim.released"
event_kind_str message_sent = "message.sent"
event_kind_str message_acknowledged = "message.acknowledged"
event_kind_str workspace_desired = "workspace.desired"
event_kind_str workspace_reconciliation_changed = "workspace.reconciliation_changed"
event_kind_str workspace_integration_desired = "workspace.integration_desired"
event_kind_str workspace_integrated = "workspace.integrated"

pub record EventRecord : Type 0 where
  pub id : ℕ
  pub run_id : ℕ
  pub sequence : ℕ
  pub event_type : String
  pub actor : String
  pub subject : String
  pub project_id : Option ℕ
  pub agent_id : Option ℕ
  pub task_id : Option ℕ
  pub operation_id : Option ℕ
  pub correlation_id : Option ℕ
  pub causation_id : Option ℕ
  pub payload : Json
  pub summary : String
  pub created_at : ℕ

pub record NewEvent : Type 0 where
  pub run_id : ℕ
  pub kind : EventKind
  pub actor : String
  pub subject : String
  pub project_id : Option ℕ
  pub agent_id : Option ℕ
  pub task_id : Option ℕ
  pub operation_id : Option ℕ
  pub correlation_id : Option ℕ
  pub causation_id : Option ℕ
  pub data_ : Json
  pub summary : String
  pub created_at : ℕ
