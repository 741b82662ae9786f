-- ===== src/Store/Records.antt =====
-- The records and outcome types of src/state.rs. Identifiers are numbers; `i64` values (times in
-- Unix seconds, generations, cursors, row numbers) are the numbers that they count; paths and
-- digests are the numbers of their byte strings.
use coterie.Prelude.{ℕ, Bool, true, false, Option, String}
use coterie.Json.{Json}
use coterie.Tasks.{TaskStatus, TaskTransition}
use coterie.Lifecycle.{LifecycleState}

pub data SessionProcessOwner : Type 0 where
  supervisor foreground : SessionProcessOwner

pub data ExternalResourceState : Type 0 where
  desired observed lost unknown : ExternalResourceState

-- The derived `PartialEq`.
unfoldable pub resource_eq : ExternalResourceState → ExternalResourceState → Bool
resource_eq desired desired = true
resource_eq observed observed = true
resource_eq lost lost = true
resource_eq unknown unknown = true
resource_eq _ _ = false

unfoldable pub resource_str : ExternalResourceState → String
resource_str desired = "desired"
resource_str observed = "observed"
resource_str lost = "lost"
resource_str unknown = "unknown"

pub data SessionTransitionOutcome : Type 0 where
  applied unchanged stale : SessionTransitionOutcome

pub data ResourceTransitionOutcome : Type 0 where
  applied unchanged stale : ResourceTransitionOutcome

pub record RunRecord : Type 0 where
  pub id : ℕ
  pub status : String
  pub created_at : ℕ
  pub stopped_at : Option ℕ

pub record AgentRecord : Type 0 where
  pub id : ℕ
  pub run_id : ℕ
  pub role : String
  pub generation : ℕ
  pub state : LifecycleState
  pub created_at : ℕ

pub record SessionRecord : Type 0 where
  pub id : ℕ
  pub run_id : ℕ
  pub agent_id : ℕ
  pub generation : ℕ
  pub provider : String
  pub provider_session_id : Option String
  pub reconciliation_state : ExternalResourceState
  pub state : LifecycleState
  pub transcript_path : ℕ
  pub created_at : ℕ
  pub ended_at : Option ℕ
  pub reconciled_at : Option ℕ
  pub process_owner : SessionProcessOwner

pub record SessionCredentialRecord : Type 0 where
  pub session_id : ℕ
  pub run_id : ℕ
  pub agent_id : ℕ
  pub generation : ℕ
  pub token_verifier : ℕ
  pub created_at : ℕ
  pub revoked_at : Option ℕ

pub record TaskRecord : Type 0 where
  pub id : ℕ
  pub run_id : ℕ
  pub project_id : ℕ
  pub group_id : Option ℕ
  pub title : String
  pub description : String
  pub status : TaskStatus
  pub result : Option Json
  pub created_at : ℕ
  pub updated_at : ℕ

pub record DependencyRecord : Type 0 where
  pub run_id : ℕ
  pub task_id : ℕ
  pub dependency_task_id : ℕ
  pub created_at : ℕ

-- `request_fingerprint` is the column that `mutate_with_fingerprint` keeps beside the record.
pub record OperationRecord : Type 0 where
  pub id : ℕ
  pub run_id : ℕ
  pub kind : String
  pub actor_agent_id : Option ℕ
  pub status : String
  pub request : Json
  pub result : Option Json
  pub attempt_count : ℕ
  pub reconciliation_state : Option ExternalResourceState
  pub reconciliation_attempt_count : ℕ
  pub reconciliation_error : Option String
  pub reconciled_at : Option ℕ
  pub created_at : ℕ
  pub updated_at : ℕ
  pub request_fingerprint : Option String

pub record Mutation : Type 0 where
  pub id : ℕ
  pub run_id : ℕ
  pub kind : String
  pub actor_agent_id : Option ℕ
  pub request : Json
  pub created_at : ℕ

pub data MutationOutcome {ℓ} (T : Type ℓ) : Type ℓ where
  applied replayed : T → MutationOutcome T

pub record ClaimTaskMutation : Type 0 where
  pub operation_id : ℕ
  pub run_id : ℕ
  pub actor_agent_id : Option ℕ
  pub task_id : ℕ
  pub agent_id : ℕ
  pub assignment_id : ℕ
  pub claimed_at : ℕ

pub record OperatorClosureOverride : Type 0 where
  pub assignment_id : ℕ
  pub project_id : ℕ
  pub base_commit : String
  pub result_commit : String
  pub target_reference : String
  pub target_commit : String
  pub reason : String
  pub validation_summary : String

pub record TaskTransitionMutation : Type 0 where
  pub operation_id : ℕ
  pub run_id : ℕ
  pub actor_agent_id : Option ℕ
  pub task_id : ℕ
  pub transition : TaskTransition
  pub result : Option Json
  pub operator_override : Option OperatorClosureOverride
  pub summary : Option String
  pub transitioned_at : ℕ

pub data TaskTransitionRejection : Type 0 where
  task_not_found : TaskTransitionRejection
  invalid_status : TaskStatus → TaskTransitionRejection
  acceptance_not_met : TaskTransitionRejection

pub data TaskTransitionResult : Type 0 where
  transitioned : TaskStatus → TaskStatus → TaskTransitionResult
  rejected : TaskTransitionRejection → TaskTransitionResult

pub data ClaimRejection : Type 0 where
  task_not_found task_not_open blocked already_claimed agent_not_found agent_busy : ClaimRejection

pub data ClaimTaskResult : Type 0 where
  claimed : ℕ → ℕ → ClaimTaskResult
  rejected : ClaimRejection → ClaimTaskResult

pub record ClaimRecord : Type 0 where
  pub id : ℕ
  pub run_id : ℕ
  pub task_id : ℕ
  pub agent_id : ℕ
  pub operation_id : ℕ
  pub state : String
  pub claimed_at : ℕ
  pub released_at : Option ℕ

pub record AssignmentRecord : Type 0 where
  pub id : ℕ
  pub run_id : ℕ
  pub task_id : ℕ
  pub agent_id : ℕ
  pub session_id : Option ℕ
  pub claim_id : ℕ
  pub generation : ℕ
  pub state : String
  pub summary : Option String
  pub created_at : ℕ
  pub completed_at : Option ℕ

pub record MessageRecord : Type 0 where
  pub id : ℕ
  pub run_id : ℕ
  pub sender_agent_id : Option ℕ
  pub recipient_agent_id : ℕ
  pub sequence : ℕ
  pub body : String
  pub created_at : ℕ
  pub acknowledged_at : Option ℕ

pub record AcknowledgeMessagesMutation : Type 0 where
  pub operation_id : ℕ
  pub run_id : ℕ
  pub agent_id : ℕ
  pub through : ℕ
  pub acknowledged_at : ℕ

pub data AcknowledgeMessagesResult : Type 0 where
  acknowledged : ℕ → ℕ → AcknowledgeMessagesResult
  cursor_not_found : ℕ → AcknowledgeMessagesResult

pub record WorkspaceRecord : Type 0 where
  pub assignment_id : ℕ
  pub generation : ℕ
  pub run_id : ℕ
  pub project_id : ℕ
  pub kind : String
  pub path : ℕ
  pub state : ExternalResourceState
  pub base_commit : Option String
  pub result_commit : Option String
  pub target_commit : Option String
  pub created_at : ℕ
  pub reconciled_at : Option ℕ

-- `ProjectRecord`, less its paths and identity document.
pub record ProjectRecord : Type 0 where
  pub id : ℕ
  pub run_id : ℕ
  pub alias : String
  pub is_primary : Bool
  pub attached_at : ℕ
