-- ===== src/Store/Rows.antt =====
-- src/state.rs, the row lookups of the repositories: agents, sessions, tasks, claims, assignments,
-- workspaces, and the currency of a session's scope.
use coterie.Prelude.{
  ℕ, Bool, true, false, not, ◌&&◌, Option, none, some, String, str_eq, ◌==◌, is_none,
}
use coterie.Json.{Json, ident, json_eq, get}
use coterie.Sql.{select_first, select_latest, exists_where}
use coterie.Store.Records.{
  RunRecord, AgentRecord, SessionRecord, SessionCredentialRecord, TaskRecord, OperationRecord,
  ClaimRecord, AssignmentRecord, WorkspaceRecord,
}
use coterie.Store.Event.{EventRecord}
use coterie.Store.Control.{SessionScope, AssignmentScope}
use coterie.Store.Tx.{Db}

module _ (db : Db) where
  unfoldable pub run : ℕ → Option RunRecord
  run id = select_first (λ r. r.id == id) db.runs

  unfoldable pub agent : ℕ → Option AgentRecord
  agent id = select_first (λ r. r.id == id) db.agents

  unfoldable pub session : ℕ → Option SessionRecord
  session id = select_first (λ r. r.id == id) db.sessions

  unfoldable pub session_credential : ℕ → Option SessionCredentialRecord
  session_credential id = select_first (λ r. r.session_id == id) db.credentials

  unfoldable pub task : ℕ → Option TaskRecord
  task id = select_first (λ r. r.id == id) db.tasks

  unfoldable pub operation : ℕ → Option OperationRecord
  operation id = select_first (λ r. r.id == id) db.operations

  unfoldable pub claim : ℕ → Option ClaimRecord
  claim id = select_first (λ r. r.id == id) db.claims

  unfoldable pub assignment : ℕ → Option AssignmentRecord
  assignment id = select_first (λ r. r.id == id) db.assignments

  unfoldable pub workspace : ℕ → Option WorkspaceRecord
  workspace id = select_first (λ r. r.assignment_id == id) db.workspaces

  unfoldable pub active_claim_for_task : ℕ → ℕ → Option ClaimRecord
  active_claim_for_task run_id task_id =
      select_first (λ r. r.run_id == run_id && (r.task_id == task_id && is_none r.released_at))
        db.claims

  unfoldable pub active_assignment_for_agent : ℕ → ℕ → Option AssignmentRecord
  active_assignment_for_agent run_id agent_id =
      select_first (λ r. r.run_id == run_id && (r.agent_id == agent_id && is_none r.completed_at))
        db.assignments

  unfoldable pub active_assignment_for_task : ℕ → ℕ → Option AssignmentRecord
  active_assignment_for_task run_id task_id =
      select_first (λ r. r.run_id == run_id && (r.task_id == task_id && is_none r.completed_at))
        db.assignments

  unfoldable pub latest_assignment_for_task : ℕ → ℕ → Option AssignmentRecord
  latest_assignment_for_task run_id task_id =
      select_latest (λ r. r.run_id == run_id && r.task_id == task_id) (λ r. r.created_at)
        db.assignments

-- `json_extract(payload_json, '$.data.key')` of an event.
unfoldable pub event_field : String → EventRecord → Option Json
event_field key e = elim (get "data" e.payload) [ none ↦ none | some d ↦ get key d ]

-- SQL's `=` on two extracted values: NULL equals nothing.
unfoldable pub sql_eq : Option Json → Option Json → Bool
sql_eq (some a) (some b) = json_eq a b
sql_eq _ _ = false

-- `EXISTS (SELECT 1 FROM events WHERE run_id = … AND event_type = 'task.recovered' AND
-- json_extract(payload_json, '$.data.key') = id)`.
unfoldable pub is_recovered : Db → ℕ → String → ℕ → Bool
is_recovered db run_id key id =
    exists_where
      (λ e.
        e.run_id == run_id
        && (str_eq e.event_type "task.recovered" && sql_eq (event_field key e) (some (ident id))))
      db.events

unfoldable pub session_scope_is_current : Db → SessionScope → Bool
session_scope_is_current db s =
    exists_where
      (λ r.
        (r.id == s.session_id && (r.run_id == s.run_id && r.agent_id == s.agent_id))
        && (r.generation == s.generation
            && (exists_where
                  (λ a.
                    a.id == r.agent_id && (a.run_id == r.run_id && a.generation == s.generation))
                  db.agents
                && (exists_where (λ x. x.id == r.run_id && str_eq x.status "active") db.runs
                    && not (is_recovered db s.run_id "session_id" s.session_id)))))
      db.sessions

-- The session of the assignment, if it has one, is of its run, agent and generation.
unfoldable pub assignment_session_matches : Db → AssignmentRecord → Bool
assignment_session_matches db r = elim r.session_id [
  | none ↦ true
  | some id ↦
      exists_where
        (λ x.
          x.id == id
          && (x.run_id == r.run_id && (x.agent_id == r.agent_id && x.generation == r.generation)))
        db.sessions
]

unfoldable pub assignment_scope_is_current : Db → AssignmentScope → Bool
assignment_scope_is_current db s =
    exists_where
      (λ r.
        (r.id == s.assignment_id && (r.run_id == s.run_id && r.generation == s.generation))
        && (exists_where
              (λ a. a.id == r.agent_id && (a.run_id == r.run_id && a.generation == s.generation))
              db.agents
            && (exists_where (λ x. x.id == r.run_id && str_eq x.status "active") db.runs
                && (assignment_session_matches db r
                    && not (is_recovered db s.run_id "assignment_id" s.assignment_id)))))
      db.assignments
