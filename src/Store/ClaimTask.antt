-- ===== src/Store/ClaimTask.antt =====
-- src/state.rs and src/state/recovery.rs, the claim of a task as one mutation: `claim_task`,
-- `append_task_claim_events` and `link_continuation`.
pub mod Laws
use Prim.Native.String
use coterie.Prelude.{
  ℕ, Bool, true, false, not, ◌&&◌, Option, none, some, List, [], ◌∷◌, ◌++◌, reverse, String, str_eq,
  ◌==◌, if◌then◌else◌,
}
use coterie.Json.{Json, null, num, ident, text, object, end, member, get}
use coterie.Sql.{select_first, select_all, exists_where, order_by}
use coterie.Tasks.{open_, in_progress, status_str}
use coterie.Store.Records.{
  AgentRecord, TaskRecord, Mutation, MutationOutcome, ClaimTaskMutation, ClaimTaskResult, claimed,
  rejected,
}
use coterie.Store.Event.{
  EventKind, EventRecord, NewEvent, task_lifecycle_changed, task_claimed, assignment_created,
  assignment_continued,
}
use coterie.Store.Tx.{
  StoreError, encode_json, corrupt_task_state, Result, ok, err, Env, Recovery, Db, Tx, ◌>>=◌, ◌>>◌,
  return, read, throw,
}
use coterie.Store.Rows.{agent, task, event_field, sql_eq}
use coterie.Store.Events.{append_event}
use coterie.Store.Claims.{compare_and_set_claim}
use coterie.Store.Mutate.{Codec, mutate}

infixr 65 ◌+++◌
abbrev pub ◌+++◌ : String → String → String
a +++ b = String.◌++◌ a b

unfoldable pub mutation_actor : Env → Option ℕ → String
mutation_actor env none = "operator"
mutation_actor env (some id) = env.display id

-- Some assignment continues the recovered one of this event.
unfoldable pub is_continued : Db → ℕ → EventRecord → Bool
is_continued db run_id source =
    exists_where
      (λ e.
        e.run_id == run_id
        && (str_eq e.event_type "assignment.continued"
            && sql_eq (event_field "previous_assignment_id" e)
                (event_field "assignment_id" source)))
      db.events

abbrev parsed : Env → Option Json → Option Recovery
parsed env none = none
parsed env (some d) = env.parse_recovery d

-- `task_recoveries`, each with whether it is continued; `none` where a stored document does not
-- parse.
recoveries_of : Env → Db → ℕ → List EventRecord → Option (List (Recovery × Bool))
recoveries_of env db run_id [] = some []
recoveries_of env db run_id (e ∷ es) =
    let rest = recoveries_of env db run_id es in
    elim (parsed env (get "data" e.payload)) [
      | none ↦ none
      | some r ↦ elim rest [ none ↦ none | some rs ↦ some ((r, is_continued db run_id e) ∷ rs) ]
    ]

unfoldable pub task_recoveries : Env → Db → ℕ → Option (List (Recovery × Bool))
unfolding recoveries_of
task_recoveries env db run_id = recoveries_of env db run_id (
    order_by (λ e. e.sequence)
      (select_all (λ e. e.run_id == run_id && str_eq e.event_type "task.recovered") db.events))

-- The latest recovery of the task that nothing continues yet.
unfoldable pub pending_recovery : Env → ℕ → ℕ → Tx (Option Recovery)
pending_recovery env run_id task_id db = elim (task_recoveries env db run_id) [
  | none ↦ err encode_json
  | some rs ↦ ok (
    elim (select_first (λ p. p.0.task_id == task_id && not p.1) (reverse rs)) [
      | none ↦ none
      | some p ↦ some p.0
    ],
    db,
  )
]

-- The event that links the new assignment to the preserved one.
abbrev pub continuation_event : Env → ClaimTaskMutation → Recovery → NewEvent
continuation_event env c source = record {
  run_id = c.run_id;
  kind = assignment_continued;
  actor = mutation_actor env c.actor_agent_id;
  subject = env.display c.assignment_id;
  project_id = some source.project_id;
  agent_id = some c.agent_id;
  task_id = some c.task_id;
  operation_id = some c.operation_id;
  correlation_id = none;
  causation_id = none;
  data_ = object (member "previous_assignment_id" (ident source.assignment_id) end);
  summary =
      "Assignment "
      +++ env.display c.assignment_id
      +++ " continues preserved assignment "
      +++ env.display source.assignment_id
      +++ ".";
  created_at = c.claimed_at;
}

abbrev link_to : Env → ClaimTaskMutation → Option Recovery → Tx (Unit {0})
link_to env c none db = ok (tt, db)
link_to env c (some source) db =
    (append_event env (continuation_event env c source) >>= λ _. return tt) db

unfoldable pub link_continuation : Env → ClaimTaskMutation → Tx (Unit {0})
link_continuation env c = do source ← pending_recovery env c.run_id c.task_id; link_to env c source

-- The parts that the three events of a claim share.
abbrev claim_event :
    Env → ClaimTaskMutation → TaskRecord → EventKind → String → Option ℕ → Json → String → NewEvent
claim_event env c t kind subject cause data_ summary = record {
  run_id = c.run_id;
  kind = kind;
  actor = mutation_actor env c.actor_agent_id;
  subject = subject;
  project_id = some t.project_id;
  agent_id = some c.agent_id;
  task_id = some c.task_id;
  operation_id = some c.operation_id;
  correlation_id = cause;
  causation_id = cause;
  data_ = data_;
  summary = summary;
  created_at = c.claimed_at;
}

abbrev lifecycle_event : Env → ClaimTaskMutation → TaskRecord → NewEvent
lifecycle_event env c t =
    claim_event env c t task_lifecycle_changed (env.display c.task_id) none
      (object (
        member "previous_status" (text (status_str open_)) (
          member "status" (text (status_str in_progress))
            (member "transition" (text "claim") end))))
      ("Task " +++ env.display c.task_id +++ " changed from open to in_progress.")

abbrev claimed_event : Env → ClaimTaskMutation → TaskRecord → ℕ → ℕ → ℕ → NewEvent
claimed_event env c t claim_id assignment_id cause =
    claim_event env c t task_claimed (env.display c.task_id) (some cause)
      (object (member "assignment_id" (ident assignment_id) (member "claim_id" (num claim_id) end)))
      ("Agent " +++ env.display c.agent_id +++ " claimed task " +++ env.display c.task_id +++ ".")

abbrev generation_json : Option AgentRecord → Json
generation_json none = null
generation_json (some a) = num a.generation

abbrev created_event :
    Env → ClaimTaskMutation → TaskRecord → ℕ → ℕ → ℕ → Option AgentRecord → NewEvent
created_event env c t claim_id assignment_id cause owner =
    claim_event env c t assignment_created (env.display assignment_id) (some cause)
      (object (
        member "claim_id" (num claim_id)
          (member "generation" (generation_json owner) (member "state" (text "active") end))))
      ("Created assignment " +++ env.display assignment_id +++ ".")

abbrev pub or_corrupt : ℕ → String → Option TaskRecord → Tx TaskRecord
or_corrupt id reason none db = err (corrupt_task_state id reason)
or_corrupt id reason (some t) db = ok (t, db)

unfoldable pub append_task_claim_events : Env → ClaimTaskMutation → ClaimTaskResult → Tx (Unit {0})
append_task_claim_events env c (rejected _) = return tt
append_task_claim_events env c (claimed claim_id assignment_id) = do
  found ← read (λ db. task db c.task_id)
  t ← or_corrupt c.task_id "the claimed task disappeared" found
  first ← append_event env (lifecycle_event env c t)
  _ ← append_event env (claimed_event env c t claim_id assignment_id first.id)
  owner ← read (λ db. agent db c.agent_id)
  _ ← append_event env (created_event env c t claim_id assignment_id first.id owner)
  link_continuation env c

-- The mutation that `claim_task` runs: only the caller's intent is part of the request.
abbrev pub claim_mutation : ClaimTaskMutation → Mutation
claim_mutation c = record {
  id = c.operation_id;
  run_id = c.run_id;
  kind = "task.claim";
  actor_agent_id = c.actor_agent_id;
  request = object (member "agent_id" (ident c.agent_id) (member "task_id" (ident c.task_id) end));
  created_at = c.claimed_at;
}

unfoldable pub claim_body : Env → ClaimTaskMutation → Tx ClaimTaskResult
claim_body env c = do
  result ← compare_and_set_claim c
  append_task_claim_events env c result
  return result

unfoldable pub claim_task :
    Codec ClaimTaskResult → Env → ClaimTaskMutation → Tx (MutationOutcome ClaimTaskResult)
claim_task codec env c = mutate codec (claim_mutation c) (claim_body env c)
