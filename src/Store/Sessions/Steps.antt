-- ===== src/Store/Sessions/Steps.antt =====
-- The inversion of the operations on agents and sessions when they return. (src/state.rs)
use coterie.Prelude.{
  ℕ, ◌≡◌, Bool, true, false, ◌&&◌, ◌||◌, some, ◌==◌, arith, Bool-cases, Option-cases, inl, inr,
}
use coterie.Lifecycle.{LifecycleState, starting, lifecycle_eq, is_terminal, allows}
use coterie.Sql.{update_where}
use coterie.Store.Records.{
  AgentRecord, SessionRecord, SessionTransitionOutcome, applied, unchanged, stale,
}
use coterie.Store.Control.{SessionScope}
use coterie.Store.Tx.{ok, Db, Tx}
use coterie.Store.Rows.{agent, session, session_scope_is_current}
use coterie.Store.Sessions.{
  can_restart, is_generation, start_agent_generation, if_current, foreground_exit,
  is_live_credential, revoke, can_revoke, lifecycle_observed, observe_lifecycle, observe_agent,
  observe_session, record_session_lifecycle,
}

-- The tables after a restart.
abbrev pub restarted : ℕ → ℕ → ℕ → ℕ → Db → Db
restarted run_id agent_id current_generation next_generation db = record db {
  agents =
      update_where (is_generation run_id agent_id current_generation)
        (λ r. record r { generation = next_generation; state = starting }) db.agents;
}

pub data RestartStep (run_id agent_id current next : ℕ) (db : Db) (b : Bool) (db' : Db)
    : Type 0 where
  refuse : b ≡ false → db' ≡ db → RestartStep run_id agent_id current next db b db'
  restart :
      (a : AgentRecord)
      → agent db agent_id ≡ some a
      → can_restart run_id current next a ≡ true
      → db' ≡ restarted run_id agent_id current next db
      → RestartStep run_id agent_id current next db b db'

pub restart_step :
    (run_id agent_id current next : ℕ) (db : Db) {b : Bool} {db' : Db}
    → start_agent_generation run_id agent_id current next db ≡ ok (b, db')
    → RestartStep run_id agent_id current next db b db'
unfolding start_agent_generation
restart_step run_id agent_id current next db h = elim (Option-cases (agent db agent_id)) [
  | inl e ↦ refuse (ground (arith, e)) (ground (arith, e))
  | inr (a, e) ↦ elim (Bool-cases (can_restart run_id current next a)) [
    | inl pass ↦ restart a e pass (ground (arith, e, pass))
    | inr fail ↦ refuse (ground (arith, e, fail)) (ground (arith, e, fail))
  ]
]

-- An observation leaves the tables alone, or is made of the session of a current scope.
pub data CurrentStep (s : SessionScope) (observe : SessionRecord → Tx SessionTransitionOutcome)
    (db : Db) (o : SessionTransitionOutcome) (db' : Db) : Type 0 where
  outdated : o ≡ stale → db' ≡ db → CurrentStep s observe db o db'
  current :
      (r : SessionRecord)
      → session db s.session_id ≡ some r
      → session_scope_is_current db s ≡ true
      → observe r db ≡ ok (o, db')
      → CurrentStep s observe db o db'

pub current_step :
    (s : SessionScope) (observe : SessionRecord → Tx SessionTransitionOutcome) (db : Db)
    {o : SessionTransitionOutcome} {db' : Db}
    → if_current s observe db ≡ ok (o, db')
    → CurrentStep s observe db o db'
unfolding if_current
current_step s observe db h = elim (Option-cases (session db s.session_id)) [
  | inl e ↦ outdated (ground (arith, e)) (ground (arith, e))
  | inr (r, e) ↦ elim (Bool-cases (session_scope_is_current db s)) [
    | inl pass ↦ current r e pass (ground (arith, e, pass))
    | inr fail ↦ outdated (ground (arith, e, fail)) (ground (arith, e, fail))
  ]
]

-- An observation of a state changes nothing, or is an allowed move of the session and its agent.
pub data LifecycleStep (s : SessionScope) (next : LifecycleState) (at : ℕ) (db : Db)
    (o : SessionTransitionOutcome) (db' : Db) : Type 0 where
  same : db' ≡ db → o ≡ unchanged → LifecycleStep s next at db o db'
  old : db' ≡ db → o ≡ stale → LifecycleStep s next at db o db'
  alive :
      (r : SessionRecord)
      → session db s.session_id ≡ some r
      → session_scope_is_current db s ≡ true
      → (allows r.state next || foreground_exit r next) ≡ true
      → is_terminal next ≡ false
      → o ≡ applied
      → db' ≡ lifecycle_observed s next at db
      → LifecycleStep s next at db o db'
  ended :
      (r : SessionRecord)
      → session db s.session_id ≡ some r
      → session_scope_is_current db s ≡ true
      → (allows r.state next || foreground_exit r next) ≡ true
      → is_terminal next ≡ true
      → o ≡ applied
      → db' ≡ record (lifecycle_observed s next at db) {
        credentials = revoke (is_live_credential s.session_id) at db.credentials;
      }
      → LifecycleStep s next at db o db'

move_step :
    (s : SessionScope) (next : LifecycleState) (at : ℕ) (r : SessionRecord) (db : Db)
    {o : SessionTransitionOutcome} {db' : Db}
    → session db s.session_id ≡ some r
    → session_scope_is_current db s ≡ true
    → (allows r.state next || foreground_exit r next) ≡ true
    → observe_lifecycle s next at db ≡ ok (o, db')
    → LifecycleStep s next at db o db'
unfolding observe_lifecycle
move_step s next at r db {o} {db'} e c move h = elim (Bool-cases (is_terminal next)) [
  | inr t ↦ alive r e c move t (ground (arith, t)) (ground (arith, t))
  | inl t ↦ elim (Bool-cases (can_revoke (is_live_credential s.session_id) at db.credentials)) [
    | inl pass ↦ ended r e c move t (ground (arith, t, pass)) (ground (arith, t, pass))
    | inr fail ↦ absurd (ground (arith, t, fail))
  ]
]

agent_step :
    (s : SessionScope) (next : LifecycleState) (at : ℕ) (r : SessionRecord) (a : AgentRecord)
    (db : Db) {o : SessionTransitionOutcome} {db' : Db}
    → session db s.session_id ≡ some r
    → session_scope_is_current db s ≡ true
    → observe_agent s next at r a db ≡ ok (o, db')
    → LifecycleStep s next at db o db'
unfolding observe_agent
agent_step s next at r a db {o} {db'} e c h =
    elim (Bool-cases (a.run_id == s.run_id && a.generation == s.generation)) [
      | inr other ↦ old (ground (arith, other)) (ground (arith, other))
      | inl here ↦ elim (Bool-cases (lifecycle_eq a.state r.state)) [
        | inr apart ↦ absurd (ground (arith, here, apart))
        | inl agree ↦ elim (Bool-cases (lifecycle_eq r.state next)) [
          | inl eq ↦ same (ground (arith, here, agree, eq)) (ground (arith, here, agree, eq))
          | inr ne ↦ elim (Bool-cases (allows r.state next || foreground_exit r next)) [
            | inr bad ↦ absurd (ground (arith, here, agree, ne, bad))
            | inl move ↦ move_step s next at r db e c move (ground (arith, here, agree, ne, move))
          ]
        ]
      ]
    ]

agents_step :
    (s : SessionScope) (next : LifecycleState) (at : ℕ) (r : SessionRecord) (db : Db)
    {o : SessionTransitionOutcome} {db' : Db}
    → session db s.session_id ≡ some r
    → session_scope_is_current db s ≡ true
    → observe_session s next at r db ≡ ok (o, db')
    → LifecycleStep s next at db o db'
unfolding observe_session
agents_step s next at r db e c h = elim (Option-cases (agent db s.agent_id)) [
  | inl none_here ↦ old (ground (arith, none_here)) (ground (arith, none_here))
  | inr (a, found) ↦ agent_step s next at r a db e c (ground (arith, found))
]

pub lifecycle_step :
    (s : SessionScope) (next : LifecycleState) (at : ℕ) (db : Db) {o : SessionTransitionOutcome}
    {db' : Db}
    → record_session_lifecycle s next at db ≡ ok (o, db')
    → LifecycleStep s next at db o db'
unfolding record_session_lifecycle
lifecycle_step s next at db h = elim (current_step s (observe_session s next at) db h) [
  | outdated a b ↦ old b a
  | current r e c run ↦ agents_step s next at r db e c run
]
