-- ===== src/Tests/Messages.antt =====
-- Two messages to one agent, of which the first is acknowledged.
use coterie.Prelude.{ℕ, ◌≡◌, refl, none, [], ◌∷◌}
use coterie.Sql.{count_where}
use coterie.Tests.Opened.{opened}
use coterie.Tests.Samples.{sample_store}
use coterie.Store.Records.{MessageRecord, AcknowledgeMessagesMutation, acknowledged}
use coterie.Store.Tx.{Db, ok, run_transaction}
use coterie.Store.Messages.{is_covered, apply_message_acknowledgement}
use coterie.Store.Messages.Laws.{apply_message_acknowledgement_again}

abbrev sample_message : ℕ → ℕ → MessageRecord
sample_message id sequence = record {
  id = id;
  run_id = 1;
  sender_agent_id = none;
  recipient_agent_id = 20;
  sequence = sequence;
  body = "Hello";
  created_at = 30;
  acknowledged_at = none;
}

abbrev sample_acknowledgement : AcknowledgeMessagesMutation
sample_acknowledgement = record {
  operation_id = 42;
  run_id = 1;
  agent_id = 20;
  through = 1;
  acknowledged_at = 60;
}

received_store : Db
received_store = record sample_store { messages = sample_message 70 1 ∷ sample_message 71 2 ∷ [] }

read_store : Db
unfolding run_transaction received_store
read_store =
    (run_transaction (apply_message_acknowledgement sample_acknowledgement) received_store).1

read_runs :
    apply_message_acknowledgement sample_acknowledgement received_store
    ≡ ok (acknowledged 1 1, read_store)
unfolding read_store received_store opened apply_message_acknowledgement
read_runs = refl

apply_message_acknowledgement_again_example :
    (count_where (is_covered sample_acknowledgement) read_store.messages ≡ 0)
    × (apply_message_acknowledgement
          (record sample_acknowledgement { acknowledged_at = 90 })
          read_store
        ≡ ok (acknowledged 1 0, read_store))
apply_message_acknowledgement_again_example =
    apply_message_acknowledgement_again sample_acknowledgement 90 received_store {through = 1}
      {count = 1} {db' = read_store} read_runs
