-- ===== src/Store/Sessions/Reach.antt =====
-- src/state.rs, src/state/supervision.rs and src/state/run_recovery.rs: sequences of the operations
-- that write runs, agents, sessions and credentials.
use coterie.Prelude.{ℕ, ◌≡◌, String, Bool}
use coterie.Lifecycle.{LifecycleState}
use coterie.Store.Records.{
  RunRecord, AgentRecord, SessionRecord, SessionCredentialRecord, ExternalResourceState,
  SessionTransitionOutcome,
}
use coterie.Store.Control.{SessionScope}
use coterie.Store.Tx.{ok, Env, Db}
use coterie.Store.Sessions.{
  insert_run, mark_run_active, stop_run, insert_agent, start_agent_generation, insert_session,
  record_session_launch_observation, record_session_reconciliation_state, record_session_lifecycle,
}
use coterie.Store.Supervision.Crashes.{quarantine_unstarted_agent}
use coterie.Store.Credentials.{activate_session_credential, replace_desired_session_credential}

-- One operation that returned; one that failed leaves the tables alone.
pub data SessionStep (db db' : Db) : Type 0 where
  run_inserted : (r : RunRecord) → insert_run r db ≡ ok (tt, db') → SessionStep db db'
  run_reactivated : (id : ℕ) → mark_run_active id db ≡ ok (tt, db') → SessionStep db db'
  run_stopped : (id at : ℕ) → stop_run id at db ≡ ok (tt, db') → SessionStep db db'
  spawn_given_up :
      (env : Env) (run_id agent_id operation_id now : ℕ)
      → quarantine_unstarted_agent env run_id agent_id operation_id now db ≡ ok (tt, db')
      → SessionStep db db'
  agent_inserted : (a : AgentRecord) → insert_agent a db ≡ ok (tt, db') → SessionStep db db'
  generation_started :
      (run_id agent_id current next : ℕ) (b : Bool)
      → start_agent_generation run_id agent_id current next db ≡ ok (b, db')
      → SessionStep db db'
  session_inserted : (s : SessionRecord) → insert_session s db ≡ ok (tt, db') → SessionStep db db'
  launch_recorded :
      (s : SessionScope) (id : String) (at : ℕ) (o : SessionTransitionOutcome)
      → record_session_launch_observation s id at db ≡ ok (o, db')
      → SessionStep db db'
  reconciliation_recorded :
      (s : SessionScope) (state : ExternalResourceState) (at : ℕ) (o : SessionTransitionOutcome)
      → record_session_reconciliation_state s state at db ≡ ok (o, db')
      → SessionStep db db'
  lifecycle_recorded :
      (s : SessionScope) (next : LifecycleState) (at : ℕ) (o : SessionTransitionOutcome)
      → record_session_lifecycle s next at db ≡ ok (o, db')
      → SessionStep db db'
  credential_activated :
      (c : SessionCredentialRecord)
      → activate_session_credential c db ≡ ok (tt, db')
      → SessionStep db db'
  credential_replaced :
      (c : SessionCredentialRecord)
      → replace_desired_session_credential c db ≡ ok (tt, db')
      → SessionStep db db'

-- Any number of operations.
pub data Reach : Db → Db → Type 0 where
  here : {db : Db} → Reach db db
  after : {db db' db'' : Db} → SessionStep db db' → Reach db' db'' → Reach db db''

-- What every operation keeps, every sequence of operations keeps.
pub reach_keeps :
    (P : Db → Type 0) {db db' : Db}
    → ((x y : Db) → SessionStep x y → P x → P y)
    → Reach db db'
    → P db
    → P db'
reach_keeps P keep here p = p
reach_keeps P keep (after {db} {db'} step rest) p = reach_keeps P keep rest (keep db db' step p)
