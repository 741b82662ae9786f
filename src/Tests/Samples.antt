-- ===== src/Tests/Samples.antt =====
-- A small store of one run: two tasks, the second of which waits for the first, and two agents.
use coterie.Prelude.{
  ℕ, ◌+◌, ◌≡◌, refl, Option, none, some, [], ◌∷◌, true, String, str_eq, if◌then◌else◌,
}
use coterie.Json.{Json, num, ident, text, object, end, member}
use coterie.Tasks.{open_}
use coterie.Lifecycle.{LifecycleState}
use coterie.Store.Records.{
  AgentRecord, TaskRecord, ClaimTaskMutation, ClaimTaskResult, claimed, rejected, ClaimRejection,
  task_not_found, task_not_open, blocked, already_claimed, agent_not_found, agent_busy,
}
use coterie.Store.Tx.{Env, Db, empty_db}
use coterie.Store.Mutate.{Codec}

-- Event identifiers are counted from 1000, and every event is short.
abbrev pub sample_env : Env
sample_env = record {
  event_id = λ n. 1000 + n;
  event_size = λ e. 200;
  display = λ id. "id";
  parse_recovery = λ j. none;
}

abbrev pub sample_task : ℕ → TaskRecord
sample_task id = record {
  id = id;
  run_id = 1;
  project_id = 2;
  group_id = none;
  title = "Title";
  description = "Text";
  status = open_;
  result = none;
  created_at = 10;
  updated_at = 10;
}

abbrev pub sample_agent : ℕ → AgentRecord
sample_agent id = record {
  id = id;
  run_id = 1;
  role = "worker";
  generation = 0;
  state = LifecycleState.running;
  created_at = 10;
}

abbrev pub sample_store : Db
sample_store = record empty_db {
  runs = record { id = 1; status = "active"; created_at = 5; stopped_at = none } ∷ [];
  projects = record { id = 2; run_id = 1; alias = "main"; is_primary = true; attached_at = 5 } ∷ [];
  agents = sample_agent 20 ∷ sample_agent 21 ∷ [];
  tasks = sample_task 30 ∷ sample_task 31 ∷ [];
  dependencies = record { run_id = 1; task_id = 31; dependency_task_id = 30; created_at = 10 } ∷ [];
}

abbrev pub sample_claim : ClaimTaskMutation
sample_claim = record {
  operation_id = 40;
  run_id = 1;
  actor_agent_id = none;
  task_id = 30;
  agent_id = 20;
  assignment_id = 50;
  claimed_at = 100;
}

abbrev pub encode_rejection : ClaimRejection → String
encode_rejection task_not_found = "task_not_found"
encode_rejection task_not_open = "task_not_open"
encode_rejection blocked = "blocked"
encode_rejection already_claimed = "already_claimed"
encode_rejection agent_not_found = "agent_not_found"
encode_rejection agent_busy = "agent_busy"

abbrev pub decode_rejection : String → Option ClaimTaskResult
decode_rejection s =
    if str_eq s "task_not_found"
    then some (rejected task_not_found)
    else if str_eq s "task_not_open"
    then some (rejected task_not_open)
    else if str_eq s "blocked"
    then some (rejected blocked)
    else if str_eq s "already_claimed"
    then some (rejected already_claimed)
    else if str_eq s "agent_not_found"
    then some (rejected agent_not_found)
    else if str_eq s "agent_busy"
    then some (rejected agent_busy)
    else none

-- `{"reason": …, "status": …}`
abbrev pub encode_claim : ClaimTaskResult → Json
encode_claim (claimed claim_id assignment_id) = object (
    member "reason"
      (object (member "assignment_id" (ident assignment_id) (member "claim_id" (num claim_id) end)))
      (member "status" (text "claimed") end))
encode_claim (rejected r) =
    object (member "reason" (text (encode_rejection r)) (member "status" (text "rejected") end))

abbrev pub decode_reason : Json → Option ClaimTaskResult
decode_reason (object (member a (ident assignment_id) (member b (num claim_id) end))) =
    some (claimed claim_id assignment_id)
decode_reason (text s) = decode_rejection s
decode_reason _ = none

abbrev pub decode_claim : Json → Option ClaimTaskResult
decode_claim (object (member k v r)) = decode_reason v
decode_claim _ = none

pub decode_claim-encode_claim : (r : ClaimTaskResult) → decode_claim (encode_claim r) ≡ some r
decode_claim-encode_claim (claimed claim_id assignment_id) = refl
decode_claim-encode_claim (rejected task_not_found) = refl
decode_claim-encode_claim (rejected task_not_open) = refl
decode_claim-encode_claim (rejected blocked) = refl
decode_claim-encode_claim (rejected already_claimed) = refl
decode_claim-encode_claim (rejected agent_not_found) = refl
decode_claim-encode_claim (rejected agent_busy) = refl

unfoldable pub claim_codec : Codec ClaimTaskResult
claim_codec = record {
  encode = encode_claim;
  decode = decode_claim;
  decode-encode = decode_claim-encode_claim;
}
