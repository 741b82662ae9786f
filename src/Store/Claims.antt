-- ===== src/Store/Claims.antt =====
-- src/state.rs, the claim of a task: `compare_and_set_claim`, `claim_rejection` and the inserts of
-- the claim and its assignment.
use coterie.Prelude.{
  ℕ, ◌+◌, Bool, true, false, not, ◌&&◌, Option, none, some, [], ◌∷◌, ◌++◌, ◌==◌, is_none,
  if◌then◌else◌,
}
use coterie.Tasks.{open_, in_progress, closed, status_eq}
use coterie.Sql.{select_first, exists_where, count_where, update_where, max_where}
use coterie.Store.Records.{
  AgentRecord, SessionRecord, TaskRecord, ClaimRecord, AssignmentRecord, ClaimTaskMutation,
  ClaimRejection, ClaimTaskResult, claimed, rejected, task_not_found, task_not_open, blocked,
  already_claimed, agent_not_found, agent_busy,
}
use coterie.Store.Tx.{database, stale_assignment, ok, err, Db, Tx, ◌>>◌, return}
use coterie.Store.Keys.{has_task, has_agent, has_session, has_operation, has_claim, nullable}
use coterie.Store.Rows.{agent, session}

-- `EXISTS (SELECT 1 FROM claims … released_at IS NULL)`.
unfoldable pub is_claimed : Db → ℕ → ℕ → Bool
is_claimed db run_id task_id =
    exists_where (λ c. c.task_id == task_id && (c.run_id == run_id && is_none c.released_at))
      db.claims

-- Some dependency of the task is not closed.
unfoldable pub is_blocked : Db → ℕ → ℕ → Bool
is_blocked db run_id task_id =
    exists_where
      (λ edge.
        (edge.task_id == task_id && edge.run_id == run_id)
        && exists_where
            (λ d.
              (d.id == edge.dependency_task_id && d.run_id == edge.run_id)
              && not (status_eq d.status closed))
            db.tasks)
      db.dependencies

unfoldable pub is_busy : Db → ℕ → ℕ → Bool
is_busy db run_id agent_id =
    exists_where (λ a. a.agent_id == agent_id && (a.run_id == run_id && is_none a.completed_at))
      db.assignments

-- The `WHERE` clause of the compare-and-set.
unfoldable pub claimable : Db → ClaimTaskMutation → TaskRecord → Bool
claimable db c r =
    (r.id == c.task_id && r.run_id == c.run_id)
    && (status_eq r.status open_
        && (not (is_claimed db r.run_id r.id)
            && (not (is_blocked db r.run_id r.id) && not (is_busy db r.run_id c.agent_id))))

unfoldable pub claim_rejection : Db → ClaimTaskMutation → ClaimRejection
claim_rejection db c =
    if is_claimed db c.run_id c.task_id
    then already_claimed
    else elim (select_first (λ r. r.id == c.task_id && r.run_id == c.run_id) db.tasks) [
      | none ↦ task_not_found
      | some r ↦
          if not (status_eq r.status open_)
          then task_not_open
          else if is_blocked db c.run_id c.task_id
          then blocked
          else if is_busy db c.run_id c.agent_id
          then agent_busy
          else task_not_open
    ]

-- The constraints of the table `claims`.
unfoldable pub claim_admitted : Db → ClaimRecord → Bool
claim_admitted db c =
    not (exists_where (λ r. r.id == c.id) db.claims)
    && (not (exists_where (λ r. r.operation_id == c.operation_id) db.claims)
        && (not (
              is_none c.released_at
              && exists_where (λ r. r.task_id == c.task_id && is_none r.released_at) db.claims)
            && (has_task db c.run_id c.task_id
                && (has_agent db c.run_id c.agent_id && has_operation db c.run_id c.operation_id))))

unfoldable pub insert_claim : ClaimRecord → Tx (Unit {0})
insert_claim c db =
    if claim_admitted db c
    then ok (tt, record db { claims = db.claims ++ c ∷ [] })
    else err database

-- The constraints of the table `assignments`.
unfoldable pub assignment_admitted : Db → AssignmentRecord → Bool
assignment_admitted db a =
    not (exists_where (λ r. r.id == a.id) db.assignments)
    && (not (exists_where (λ r. r.claim_id == a.claim_id) db.assignments)
        && (not (
              is_none a.completed_at
              && exists_where (λ r. r.agent_id == a.agent_id && is_none r.completed_at)
                  db.assignments)
            && (has_task db a.run_id a.task_id
                && (has_agent db a.run_id a.agent_id
                    && (nullable (has_session db a.run_id a.agent_id) a.session_id
                        && has_claim db a.run_id a.claim_id)))))

unfoldable pub agent_owns : AssignmentRecord → Option AgentRecord → Bool
agent_owns a none = false
agent_owns a (some r) = r.run_id == a.run_id && r.generation == a.generation

unfoldable pub session_owns : AssignmentRecord → Option SessionRecord → Bool
session_owns a none = false
session_owns a (some r) =
    r.run_id == a.run_id && (r.agent_id == a.agent_id && r.generation == a.generation)

-- The agent, and the session if there is one, are of the assignment's generation.
unfoldable pub owner_matches : Db → AssignmentRecord → Bool
unfolding agent_owns session_owns
owner_matches db a =
    agent_owns a (agent db a.agent_id)
    && elim a.session_id [ none ↦ true | some id ↦ session_owns a (session db id) ]

unfoldable pub insert_assignment : AssignmentRecord → Tx (Unit {0})
insert_assignment a db =
    if owner_matches db a
    then (if assignment_admitted db a
        then ok (tt, record db { assignments = db.assignments ++ a ∷ [] })
        else err database)
    else err (stale_assignment a.id)

-- `INTEGER PRIMARY KEY`: the row number that SQLite gives to the next claim.
unfoldable pub next_claim_id : Db → ℕ
next_claim_id db = max_where (λ r. true) (λ r. r.id) db.claims + 1

abbrev pub claim_row : ClaimTaskMutation → ℕ → ClaimRecord
claim_row c id = record {
  id = id;
  run_id = c.run_id;
  task_id = c.task_id;
  agent_id = c.agent_id;
  operation_id = c.operation_id;
  state = "active";
  claimed_at = c.claimed_at;
  released_at = none;
}

abbrev pub assignment_row : ClaimTaskMutation → ℕ → ℕ → AssignmentRecord
assignment_row c claim_id generation = record {
  id = c.assignment_id;
  run_id = c.run_id;
  task_id = c.task_id;
  agent_id = c.agent_id;
  session_id = none;
  claim_id = claim_id;
  generation = generation;
  state = "active";
  summary = none;
  created_at = c.claimed_at;
  completed_at = none;
}

-- The tables after the compare-and-set `UPDATE`.
abbrev pub mark_in_progress : ClaimTaskMutation → Db → Db
mark_in_progress c db = record db {
  tasks =
      update_where (claimable db c)
        (λ r. record r { status = in_progress; updated_at = c.claimed_at }) db.tasks;
}

-- The inserts that follow a successful `UPDATE`.
unfoldable pub take_ownership : ClaimTaskMutation → ℕ → Tx ClaimTaskResult
take_ownership c generation db =
    let claim_id = next_claim_id db in
    (insert_claim (claim_row c claim_id)
        >> (insert_assignment (assignment_row c claim_id generation)
            >> return (claimed claim_id c.assignment_id)))
      db

unfoldable pub compare_and_set_claim : ClaimTaskMutation → Tx ClaimTaskResult
compare_and_set_claim c db =
    elim (select_first (λ a. a.id == c.agent_id && a.run_id == c.run_id) db.agents) [
      | none ↦ ok (rejected agent_not_found, db)
      | some a ↦
          if count_where (claimable db c) db.tasks == 0
          then ok (rejected (claim_rejection db c), db)
          else take_ownership c a.generation (mark_in_progress c db)
    ]
