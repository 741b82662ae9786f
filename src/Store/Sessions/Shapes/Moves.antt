-- ===== src/Store/Sessions/Shapes/Moves.antt =====
-- What an operation on sessions does to the table `sessions`. (src/state.rs)
use coterie.Prelude.{
  ◌≡◌, refl, Bool, true, false, ◌&&◌, ℕ, String, List, [], ◌∷◌, ◌++◌, ◌==◌, arith, ap, Bool-cases,
  inl, inr, some, ◌||◌,
}
use coterie.Lifecycle.{LifecycleState, allows}
use coterie.Sql.{select_first, exists_where, update_where}
use coterie.Store.Records.{
  SessionRecord, SessionTransitionOutcome, ExternalResourceState, observed, resource_eq,
}
use coterie.Store.Control.{SessionScope}
use coterie.Store.Rows.{session}
use coterie.Store.Transitions.{opt_str_eq}
use coterie.Store.Tx.{ok, Db, Tx}
use coterie.Store.Sessions.{
  observe_launch, observe_reconciliation, foreground_exit, ended_at, record_session_lifecycle,
  record_session_launch_observation, record_session_reconciliation_state, insert_run,
  mark_run_active, stop_run, insert_agent, session_admitted, insert_session, in_scope, if_current,
}
use coterie.Store.Sessions.Steps.{
  refuse, restart, restart_step, outdated, current, current_step, same, old, alive, ended,
  lifecycle_step,
}
use coterie.Store.Supervision.Crashes.Frame.{left_alone, given_up, unstarted_step}
use coterie.Store.Sessions.Reach.{
  SessionStep, run_inserted, run_reactivated, spawn_given_up, run_stopped, agent_inserted,
  generation_started, session_inserted, launch_recorded, reconciliation_recorded,
  lifecycle_recorded, credential_activated, credential_replaced,
}
use coterie.Store.Sessions.Shapes.{activate_agents, replace_agents}

-- The sessions stay, are joined by a new one, have fields changed that leave their states alone, or
-- make a move that their states allow.
pub data SessionsStep (xs ys : List SessionRecord) : Type 0 where
  sessions_kept : ys ≡ xs → SessionsStep xs ys
  session_added :
      (s : SessionRecord)
      → exists_where (λ r. r.id == s.id) xs ≡ false
      → ys ≡ xs ++ s ∷ []
      → SessionsStep xs ys
  sessions_marked :
      (p : SessionRecord → Bool) (f : SessionRecord → SessionRecord)
      → ((r : SessionRecord)
          → ((f r).id ≡ r.id) × ((f r).state ≡ r.state) × ((f r).ended_at ≡ r.ended_at))
      → ys ≡ update_where p f xs
      → SessionsStep xs ys
  sessions_moved :
      (s : SessionScope) (next : LifecycleState) (at : ℕ) (r : SessionRecord)
      → select_first (λ x. x.id == s.session_id) xs ≡ some r
      → (allows r.state next || foreground_exit r next) ≡ true
      → ys
        ≡ update_where (in_scope s) (λ x. record x { state = next; ended_at = ended_at next at }) xs
      → SessionsStep xs ys

insert_session_step :
    (s : SessionRecord) (db db' : Db)
    → insert_session s db ≡ ok (tt, db')
    → SessionsStep db.sessions db'.sessions
unfolding insert_session session_admitted
insert_session_step s db db' h = elim (Bool-cases (session_admitted db s)) [
  | inr bad ↦ absurd (ground (arith, bad))
  | inl good ↦ session_added s (ground (arith, good)) (ground (arith, good))
]

lifecycle_recorded_sessions :
    (s : SessionScope) (next : LifecycleState) (at : ℕ) (db db' : Db) {o : SessionTransitionOutcome}
    → record_session_lifecycle s next at db ≡ ok (o, db')
    → SessionsStep db.sessions db'.sessions
unfolding session
lifecycle_recorded_sessions s next at db db' h = elim (lifecycle_step s next at db h) [
  | same e _ ↦ sessions_kept (ap (λ d. d.sessions) e)
  | old e _ ↦ sessions_kept (ap (λ d. d.sessions) e)
  | alive r found _ move _ _ e ↦ sessions_moved s next at r found move (ap (λ d. d.sessions) e)
  | ended r found _ move _ _ e ↦ sessions_moved s next at r found move (ap (λ d. d.sessions) e)
]

current_sessions :
    (s : SessionScope) (observe : SessionRecord → Tx SessionTransitionOutcome) (db db' : Db)
    {o : SessionTransitionOutcome}
    → ((r : SessionRecord) → observe r db ≡ ok (o, db') → SessionsStep db.sessions db'.sessions)
    → if_current s observe db ≡ ok (o, db')
    → SessionsStep db.sessions db'.sessions
current_sessions s observe db db' marks h = elim (current_step s observe db h) [
  | outdated _ e ↦ sessions_kept (ap (λ d. d.sessions) e)
  | current r _ _ run ↦ marks r run
]

observe_launch_sessions :
    (s : SessionScope) (id : String) (at : ℕ) (r : SessionRecord) (db db' : Db)
    {o : SessionTransitionOutcome}
    → observe_launch s id at r db ≡ ok (o, db')
    → SessionsStep db.sessions db'.sessions
unfolding observe_launch
observe_launch_sessions s id at r db db' h =
    elim (Bool-cases
      (resource_eq r.reconciliation_state observed && opt_str_eq r.provider_session_id (some id))) [
        | inl done ↦ sessions_kept (ground (arith, done))
        | inr new ↦
            sessions_marked (in_scope s)
              (λ x. record x {
                provider_session_id = some id;
                reconciliation_state = observed;
                reconciled_at = some at;
              })
              (λ x. (refl, refl, refl)) (ground (arith, new))
      ]

observe_reconciliation_sessions :
    (s : SessionScope) (state : ExternalResourceState) (at : ℕ) (r : SessionRecord) (db db' : Db)
    {o : SessionTransitionOutcome}
    → observe_reconciliation s state at r db ≡ ok (o, db')
    → SessionsStep db.sessions db'.sessions
unfolding observe_reconciliation
observe_reconciliation_sessions s state at r db db' h =
    elim (Bool-cases (resource_eq r.reconciliation_state state)) [
      | inl done ↦ sessions_kept (ground (arith, done))
      | inr new ↦
          sessions_marked (in_scope s)
            (λ x. record x { reconciliation_state = state; reconciled_at = some at })
            (λ x. (refl, refl, refl)) (ground (arith, new))
    ]

pub sessions_step : {db db' : Db} → SessionStep db db' → SessionsStep db.sessions db'.sessions
unfolding insert_run mark_run_active stop_run insert_agent record_session_launch_observation
    record_session_reconciliation_state
sessions_step {db} {db'} (run_inserted r h) = sessions_kept (ground (arith, h))
sessions_step {db} {db'} (run_reactivated id h) = sessions_kept (ground (arith, h))
sessions_step {db} {db'} (run_stopped id at h) = sessions_kept (ground arith)
sessions_step {db} {db'} (spawn_given_up env r a o n h) =
    elim (unstarted_step env r a o n db db' h) [
      | left_alone e ↦ sessions_kept (ap (λ d. d.sessions) e)
      | given_up _ logs ↦ sessions_kept logs.sessions
    ]
sessions_step {db} {db'} (agent_inserted a h) = sessions_kept (ground arith)
sessions_step {db} {db'} (generation_started r a c n b h) = elim (restart_step r a c n db h) [
  | refuse _ e ↦ sessions_kept (ap (λ d. d.sessions) e)
  | restart _ _ _ e ↦ sessions_kept (ap (λ d. d.sessions) e)
]
sessions_step {db} {db'} (session_inserted s h) = insert_session_step s db db' h
sessions_step {db} {db'} (launch_recorded s id at o h) =
    current_sessions s (observe_launch s id at) db db'
      (λ r run. observe_launch_sessions s id at r db db' run) h
sessions_step {db} {db'} (reconciliation_recorded s state at o h) =
    current_sessions s (observe_reconciliation s state at) db db'
      (λ r run. observe_reconciliation_sessions s state at r db db' run) h
sessions_step {db} {db'} (lifecycle_recorded s next at o h) =
    lifecycle_recorded_sessions s next at db db' h
sessions_step {db} {db'} (credential_activated c h) = sessions_kept (activate_agents c db db' h).1
sessions_step {db} {db'} (credential_replaced c h) = sessions_kept (replace_agents c db db' h).1
