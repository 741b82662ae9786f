-- ===== src/Store/Messages.antt =====
-- src/state.rs, the acknowledgement of messages: `apply_message_acknowledgement` and
-- `acknowledge_messages`, with the trigger of src/state/migrations/0004_durable_messages.sql.
pub mod Laws
use coterie.Prelude.{
  ℕ, Bool, true, false, ◌&&◌, ◌||◌, max, none, some, List, ltb, leb, ◌==◌, is_none, is_some,
  if◌then◌else◌, String,
}
use coterie.Json.{Json, num, ident, object, end, member}
use coterie.Sql.{exists_where, count_where, update_where, max_where}
use coterie.Store.Records.{
  MessageRecord, AcknowledgeMessagesMutation, AcknowledgeMessagesResult, acknowledged,
  cursor_not_found, Mutation, MutationOutcome,
}
use coterie.Store.Event.{NewEvent, message_acknowledged}
use coterie.Store.Tx.{StoreError, database, Result, ok, err, Env, Db, Tx, ◌>>=◌, ◌>>◌, return}
use coterie.Store.Events.{append_event}
use coterie.Store.Mutate.{Codec, mutate}
use coterie.Store.ClaimTask.{◌+++◌}

abbrev pub to_agent : AcknowledgeMessagesMutation → MessageRecord → Bool
to_agent a m = m.run_id == a.run_id && m.recipient_agent_id == a.agent_id

abbrev pub was_acknowledged : AcknowledgeMessagesMutation → MessageRecord → Bool
was_acknowledged a m = to_agent a m && is_some m.acknowledged_at

-- The `WHERE` clause of the `UPDATE`.
abbrev pub is_covered : AcknowledgeMessagesMutation → MessageRecord → Bool
is_covered a m = to_agent a m && (leb m.sequence a.through && is_none m.acknowledged_at)

-- The trigger `message_acknowledgements_are_final` on a row that the `UPDATE` would change.
abbrev pub is_refused : AcknowledgeMessagesMutation → MessageRecord → Bool
is_refused a m = is_covered a m && ltb a.acknowledged_at m.created_at

abbrev pub set_acknowledged : AcknowledgeMessagesMutation → List MessageRecord → List MessageRecord
set_acknowledged a messages =
    update_where (is_covered a) (λ m. record m { acknowledged_at = some a.acknowledged_at })
      messages

unfoldable pub apply_message_acknowledgement :
    AcknowledgeMessagesMutation → Tx AcknowledgeMessagesResult
apply_message_acknowledgement a db =
    let highest_cursor = max_where (to_agent a) (λ m. m.sequence) db.messages in
    let acknowledged_through = max_where (was_acknowledged a) (λ m. m.sequence) db.messages in
    if leb a.through 0 || ltb highest_cursor a.through
    then ok (cursor_not_found highest_cursor, db)
    else if exists_where (is_refused a) db.messages
    then err database
    else ok (
      acknowledged (max acknowledged_through a.through) (count_where (is_covered a) db.messages),
      record db { messages = set_acknowledged a db.messages },
    )

abbrev pub acknowledge_mutation : AcknowledgeMessagesMutation → Mutation
acknowledge_mutation a = record {
  id = a.operation_id;
  run_id = a.run_id;
  kind = "message.acknowledge";
  actor_agent_id = some a.agent_id;
  request = object (member "agent_id" (ident a.agent_id) (member "through" (num a.through) end));
  created_at = a.acknowledged_at;
}

-- The text of a number in the summary of the event is a parameter.
abbrev pub acknowledge_event : Env → (ℕ → String) → AcknowledgeMessagesMutation → ℕ → ℕ → NewEvent
acknowledge_event env decimal a through count = record {
  run_id = a.run_id;
  kind = message_acknowledged;
  actor = env.display a.agent_id;
  subject = env.display a.agent_id;
  project_id = none;
  agent_id = some a.agent_id;
  task_id = none;
  operation_id = some a.operation_id;
  correlation_id = none;
  causation_id = none;
  data_ =
      object
        (member "acknowledged_count" (num count) (member "acknowledged_through" (num through) end));
  summary =
      "Acknowledged "
      +++ decimal count
      +++ " message(s) through cursor "
      +++ decimal through
      +++ ".";
  created_at = a.acknowledged_at;
}

-- No event is written where nothing was acknowledged.
unfoldable pub acknowledge_events :
    Env → (ℕ → String) → AcknowledgeMessagesMutation → AcknowledgeMessagesResult → Tx (Unit {0})
acknowledge_events env decimal a (cursor_not_found highest) db = ok (tt, db)
acknowledge_events env decimal a (acknowledged through count) db =
    if ltb 0 count
    then (append_event env (acknowledge_event env decimal a through count) >>= λ e. return tt) db
    else ok (tt, db)

unfoldable pub acknowledge_body :
    Env → (ℕ → String) → AcknowledgeMessagesMutation → Tx AcknowledgeMessagesResult
acknowledge_body env decimal a = do
  result ← apply_message_acknowledgement a
  acknowledge_events env decimal a result
  return result

unfoldable pub acknowledge_messages :
    Codec AcknowledgeMessagesResult
    → Env
    → (ℕ → String)
    → AcknowledgeMessagesMutation
    → Tx (MutationOutcome AcknowledgeMessagesResult)
acknowledge_messages codec env decimal a =
    mutate codec (acknowledge_mutation a) (acknowledge_body env decimal a)
