-- ===== src/Tests/Sessions.antt =====
-- A session of the sample store from its launch to its end, and the agent's next generation.
use coterie.Prelude.{ℕ, ◌≡◌, refl, none, [], ◌∷◌, true, arith}
use coterie.Lifecycle.{LifecycleState}
use coterie.Tests.Samples.{sample_store}
use coterie.Tests.Opened.{opened}
use coterie.Store.Records.{
  SessionRecord, SessionCredentialRecord, SessionProcessOwner, ExternalResourceState,
  SessionTransitionOutcome,
}
use coterie.Store.Control.{SessionScope}
use coterie.Store.Tx.{Db, ok, run_transaction}
use coterie.Store.Sessions.{
  insert_session, session_admitted, record_session_lifecycle, if_current, observe_session,
  observe_agent, observe_lifecycle, foreground_exit, owner_eq, can_restart, start_agent_generation,
  record_session_launch_observation, observe_launch, record_session_reconciliation_state,
}
use coterie.Store.Sessions.Reach.{Reach, here, after, generation_started, session_inserted}
use coterie.Store.Sessions.Fencing.{start_agent_generation_fences}
use coterie.Store.Sessions.Ending.{record_session_lifecycle-active_session_credential}
use coterie.Store.Credentials.{
  activate_session_credential, revoke_credentials, insert_session_credential, credential_admitted,
  active_session_credential, is_live,
}

abbrev sample_session : ℕ → ℕ → SessionRecord
sample_session id generation = record {
  id = id;
  run_id = 1;
  agent_id = 20;
  generation = generation;
  provider = "provider";
  provider_session_id = none;
  reconciliation_state = ExternalResourceState.desired;
  state = LifecycleState.starting;
  transcript_path = 7;
  created_at = 20;
  ended_at = none;
  reconciled_at = none;
  process_owner = SessionProcessOwner.supervisor;
}

abbrev pub scope_at : ℕ → ℕ → SessionScope
scope_at id generation = record {
  run_id = 1;
  agent_id = 20;
  session_id = id;
  generation = generation;
}

abbrev sample_credential : ℕ → ℕ → SessionCredentialRecord
sample_credential id generation = record {
  session_id = id;
  run_id = 1;
  agent_id = 20;
  generation = generation;
  token_verifier = 900;
  created_at = 30;
  revoked_at = none;
}

-- Agent 20 is running in session 60.
abbrev pub running_store : Db
running_store = record sample_store {
  sessions =
      record (sample_session 60 0) {
        state = LifecycleState.running;
        reconciliation_state = ExternalResourceState.observed;
      }
      ∷ [];
}

unfoldable unlocked : Unit {0}
unfolding opened insert_session session_admitted record_session_lifecycle if_current observe_session
    observe_agent observe_lifecycle foreground_exit owner_eq can_restart start_agent_generation
    record_session_launch_observation observe_launch record_session_reconciliation_state
    activate_session_credential revoke_credentials insert_session_credential credential_admitted
    active_session_credential is_live
unlocked = tt

unfoldable credentialed_store : Db
unfolding run_transaction
credentialed_store =
    (run_transaction (activate_session_credential (sample_credential 60 0)) running_store).1

unfoldable ended_store : Db
unfolding run_transaction
ended_store =
    (run_transaction (record_session_lifecycle (scope_at 60 0) LifecycleState.exited 40)
      credentialed_store).1

unfoldable restarted_store : Db
unfolding run_transaction
restarted_store = (run_transaction (start_agent_generation 1 20 0 1) ended_store).1

unfoldable relaunched_store : Db
unfolding run_transaction
relaunched_store = (run_transaction (insert_session (sample_session 61 1)) restarted_store).1

end_runs :
    record_session_lifecycle (scope_at 60 0) LifecycleState.exited 40 credentialed_store
    ≡ ok (SessionTransitionOutcome.applied, ended_store)
unfolding ended_store credentialed_store unlocked
end_runs = refl

restart_runs : start_agent_generation 1 20 0 1 ended_store ≡ ok (true, restarted_store)
unfolding restarted_store ended_store credentialed_store unlocked
restart_runs = refl

relaunch_runs : insert_session (sample_session 61 1) restarted_store ≡ ok (tt, relaunched_store)
unfolding relaunched_store restarted_store ended_store credentialed_store unlocked
relaunch_runs = refl

relaunched : Reach restarted_store relaunched_store
relaunched = after (session_inserted (sample_session 61 1) relaunch_runs) here

ended_relaunched : Reach ended_store relaunched_store
ended_relaunched = after (generation_started 1 20 0 1 true restart_runs) relaunched

start_agent_generation_fences_example :
    (record_session_launch_observation (scope_at 60 0) "p" 50 relaunched_store
      ≡ ok (SessionTransitionOutcome.stale, relaunched_store))
    × (record_session_reconciliation_state
          (scope_at 60 0)
          ExternalResourceState.lost
          50
          relaunched_store
        ≡ ok (SessionTransitionOutcome.stale, relaunched_store))
    × (record_session_lifecycle (scope_at 60 0) LifecycleState.lost 50 relaunched_store
        ≡ ok (SessionTransitionOutcome.stale, relaunched_store))
unfolding opened ended_store credentialed_store unlocked
start_agent_generation_fences_example =
    start_agent_generation_fences 1 20 0 1 ended_store restarted_store relaunched_store
      (scope_at 60 0) "p" ExternalResourceState.lost LifecycleState.lost 50 (ground arith)
      restart_runs relaunched refl (omega arith)

record_session_lifecycle-active_session_credential_example :
    active_session_credential relaunched_store 1 20 60 ≡ none
unfolding credentialed_store unlocked
record_session_lifecycle-active_session_credential_example =
    record_session_lifecycle-active_session_credential (scope_at 60 0) LifecycleState.exited 40 1 20
      credentialed_store ended_store relaunched_store (ground arith) refl end_runs ended_relaunched
