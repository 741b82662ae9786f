-- ===== src/Store/Sessions/Shapes.antt =====
-- src/state.rs: what an operation on sessions does to the table `agents`.
pub mod Moves
use coterie.Prelude.{
  ◌≡◌, ◌≤◌, refl, Bool, true, false, ◌&&◌, ℕ, String, List, [], ◌∷◌, ◌++◌, ◌==◌, arith, ap, ◌∙◌,
  Bool-cases, inl, inr, some, ◌||◌,
}
use coterie.Lifecycle.{LifecycleState, starting, quarantined, allows}
use coterie.Sql.{select_first, exists_where, update_where}
use coterie.Store.Records.{
  AgentRecord, SessionRecord, SessionCredentialRecord, SessionTransitionOutcome,
  ExternalResourceState, observed, resource_eq,
}
use coterie.Store.Control.{SessionScope}
use coterie.Store.Rows.{session}
use coterie.Store.Transitions.{opt_str_eq}
use coterie.Store.Tx.{ok, Db, Tx}
use coterie.Store.Sessions.{
  observe_launch, observe_reconciliation, start_agent_generation, can_restart, foreground_exit,
  ended_at, record_session_lifecycle, record_session_launch_observation,
  record_session_reconciliation_state, insert_run, mark_run_active, stop_run, insert_agent,
  session_admitted, insert_session, is_generation, in_scope, if_current,
}
use coterie.Store.Sessions.Steps.{
  refuse, restart, restart_step, outdated, current, current_step, same, old, alive, ended,
  lifecycle_step,
}
use coterie.Store.Supervision.Crashes.Frame.{UnstartedStep, left_alone, given_up, unstarted_step}
use coterie.Store.Sessions.Reach.{
  SessionStep, run_inserted, run_reactivated, spawn_given_up, run_stopped, agent_inserted,
  generation_started, session_inserted, launch_recorded, reconciliation_recorded,
  lifecycle_recorded, credential_activated, credential_replaced,
}
use coterie.Store.Credentials.Steps.{activate_step}
use coterie.Store.Credentials.{
  revoke_credentials, insert_session_credential, activate_session_credential,
  replace_desired_session_credential,
}

-- The agents stay, are joined by a new one, or take generations that are no older.
pub data AgentsStep (xs ys : List AgentRecord) : Type 0 where
  agents_kept : ys ≡ xs → AgentsStep xs ys
  agent_added :
      (a : AgentRecord)
      → exists_where (λ r. r.id == a.id) xs ≡ false
      → ys ≡ xs ++ a ∷ []
      → AgentsStep xs ys
  agents_moved :
      (p : AgentRecord → Bool) (f : AgentRecord → AgentRecord)
      → ((a : AgentRecord) → (f a).id ≡ a.id)
      → ((a : AgentRecord) → p a ≡ true → a.generation ≤ (f a).generation)
      → ys ≡ update_where p f xs
      → AgentsStep xs ys

insert_agent_step :
    (a : AgentRecord) (db db' : Db)
    → insert_agent a db ≡ ok (tt, db')
    → AgentsStep db.agents db'.agents
unfolding insert_agent
insert_agent_step a db db' h = elim (Bool-cases (exists_where (λ r. r.id == a.id) db.agents)) [
  | inl taken ↦ absurd (ground (arith, taken))
  | inr fresh ↦ agent_added a fresh (ground (arith, fresh))
]

lifecycle_recorded_agents :
    (s : SessionScope) (next : LifecycleState) (at : ℕ) (db db' : Db) {o : SessionTransitionOutcome}
    → record_session_lifecycle s next at db ≡ ok (o, db')
    → AgentsStep db.agents db'.agents
lifecycle_recorded_agents s next at db db' h = elim (lifecycle_step s next at db h) [
  | same e _ ↦ agents_kept (ap (λ d. d.agents) e)
  | old e _ ↦ agents_kept (ap (λ d. d.agents) e)
  | alive r _ _ _ _ _ e ↦
      agents_moved (is_generation s.run_id s.agent_id s.generation) (λ a. record a { state = next })
        (λ a. refl) (λ a _. omega arith) (ap (λ d. d.agents) e)
  | ended r _ _ _ _ _ e ↦
      agents_moved (is_generation s.run_id s.agent_id s.generation) (λ a. record a { state = next })
        (λ a. refl) (λ a _. omega arith) (ap (λ d. d.agents) e)
]

current_agents :
    (s : SessionScope) (observe : SessionRecord → Tx SessionTransitionOutcome) (db db' : Db)
    {o : SessionTransitionOutcome}
    → ((r : SessionRecord) → observe r db ≡ ok (o, db') → db'.agents ≡ db.agents)
    → if_current s observe db ≡ ok (o, db')
    → AgentsStep db.agents db'.agents
current_agents s observe db db' quiet h = elim (current_step s observe db h) [
  | outdated _ e ↦ agents_kept (ap (λ d. d.agents) e)
  | current r _ _ run ↦ agents_kept (quiet r run)
]

revoke_credentials_rest :
    (run_id agent_id at : ℕ) (db db' : Db)
    → revoke_credentials run_id agent_id at db ≡ ok (tt, db')
    → (db'.sessions ≡ db.sessions) × (db'.agents ≡ db.agents)
unfolding revoke_credentials
revoke_credentials_rest run_id agent_id at db db' h = (ground arith, ground arith)

insert_credential_rest :
    (c : SessionCredentialRecord) (db db' : Db)
    → insert_session_credential c db ≡ ok (tt, db')
    → (db'.sessions ≡ db.sessions) × (db'.agents ≡ db.agents)
unfolding insert_session_credential
insert_credential_rest c db db' h = (ground arith, ground arith)

pub activate_agents :
    (c : SessionCredentialRecord) (db db' : Db)
    → activate_session_credential c db ≡ ok (tt, db')
    → (db'.agents ≡ db.agents) × (db'.sessions ≡ db.sessions)
activate_agents c db db' h =
    let (_, _, mid, first, second) = activate_step c db h in
    let (sessions, agents) =
      revoke_credentials_rest c.run_id c.agent_id c.created_at db mid first in
    let (sessions', agents') = insert_credential_rest c mid db' second in
    (agents' ∙ agents, sessions' ∙ sessions)

pub replace_agents :
    (c : SessionCredentialRecord) (db db' : Db)
    → replace_desired_session_credential c db ≡ ok (tt, db')
    → (db'.agents ≡ db.agents) × (db'.sessions ≡ db.sessions)
unfolding replace_desired_session_credential
replace_agents c db db' h = (ground arith, ground arith)

generation_started_agents :
    (run_id agent_id cur next : ℕ) (db db' : Db) {b : Bool}
    → start_agent_generation run_id agent_id cur next db ≡ ok (b, db')
    → AgentsStep db.agents db'.agents
unfolding can_restart
generation_started_agents run_id agent_id cur next db db' h =
    elim (restart_step run_id agent_id cur next db h) [
      | refuse _ e ↦ agents_kept (ap (λ d. d.agents) e)
      | restart a _ pass e ↦
          agents_moved (is_generation run_id agent_id cur)
            (λ r. record r { generation = next; state = starting }) (λ r. refl)
            (λ r hit. ground (arith, pass, hit)) (ap (λ d. d.agents) e)
    ]

unstarted_agents :
    (run_id agent_id : ℕ) (db db' : Db)
    → UnstartedStep run_id agent_id db db'
    → AgentsStep db.agents db'.agents
unstarted_agents run_id agent_id db db' (left_alone e) = agents_kept (ap (λ d. d.agents) e)
unstarted_agents run_id agent_id db db' (given_up a logs) =
    agents_moved (is_generation run_id agent_id a.generation)
      (λ r. record r { state = quarantined }) (λ r. refl) (λ r _. omega arith) logs.agents

pub agents_step : {db db' : Db} → SessionStep db db' → AgentsStep db.agents db'.agents
unfolding insert_run mark_run_active stop_run insert_session record_session_launch_observation
    record_session_reconciliation_state
agents_step {db} {db'} (run_inserted r h) = agents_kept (ground (arith, h))
agents_step {db} {db'} (run_reactivated id h) = agents_kept (ground (arith, h))
agents_step {db} {db'} (run_stopped id at h) = agents_kept (ground arith)
agents_step {db} {db'} (spawn_given_up env r a o n h) =
    unstarted_agents r a db db' (unstarted_step env r a o n db db' h)
agents_step {db} {db'} (agent_inserted a h) = insert_agent_step a db db' h
agents_step {db} {db'} (generation_started r a c n b h) = generation_started_agents r a c n db db' h
agents_step {db} {db'} (session_inserted s h) = agents_kept (ground arith)
agents_step {db} {db'} (launch_recorded s id at o h) =
    current_agents s (observe_launch s id at) db db' (λ r run. ground (arith, run)) h
agents_step {db} {db'} (reconciliation_recorded s state at o h) =
    current_agents s (observe_reconciliation s state at) db db' (λ r run. ground (arith, run)) h
agents_step {db} {db'} (lifecycle_recorded s next at o h) =
    lifecycle_recorded_agents s next at db db' h
agents_step {db} {db'} (credential_activated c h) = agents_kept (activate_agents c db db' h).0
agents_step {db} {db'} (credential_replaced c h) = agents_kept (replace_agents c db db' h).0
