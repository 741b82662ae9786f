-- ===== src/Store/Sessions.antt =====
-- src/state.rs, runs, agents and their sessions: `insert_run`, `stop_run`, `insert_agent`,
-- `start_agent_generation`, `insert_session` and the three `record_session_*` observations.
pub mod Steps
pub mod Reach
pub mod Shapes
pub mod Ending
pub mod Fencing
use coterie.Prelude.{
  ℕ, Bool, true, false, not, ◌&&◌, ◌||◌, Option, none, some, List, [], ◌∷◌, ◌++◌, String, str_eq,
  ltb, leb, ◌==◌, is_none, if◌then◌else◌,
}
use coterie.Lifecycle.{LifecycleState, starting, exited, lost, lifecycle_eq, is_terminal, allows}
use coterie.Sql.{exists_where, count_where, update_where, select_latest}
use coterie.Store.Records.{
  RunRecord, AgentRecord, SessionRecord, SessionCredentialRecord, SessionProcessOwner, supervisor,
  foreground, ExternalResourceState, observed, resource_eq, SessionTransitionOutcome, applied,
  unchanged, stale,
}
use coterie.Store.Control.{SessionScope}
use coterie.Store.Tx.{
  StoreError, database, run_not_active, invalid_session_transition, inconsistent_session_lifecycle,
  Result, ok, err, Db, Tx,
}
use coterie.Store.Keys.{has_run, has_agent}
use coterie.Store.Rows.{agent, session, session_scope_is_current}
use coterie.Store.Transitions.{opt_str_eq}

abbrev pub is_active_run : ℕ → RunRecord → Bool
is_active_run id r = r.id == id && (str_eq r.status "active" && is_none r.stopped_at)

unfoldable pub stop_run : ℕ → ℕ → Tx (Unit {0})
stop_run id stopped_at db =
    if count_where (is_active_run id) db.runs == 1
    then ok (
      tt,
      record db {
        runs =
            update_where (is_active_run id)
              (λ r. record r { status = "stopped"; stopped_at = some stopped_at }) db.runs;
      },
    )
    else err (run_not_active id)

unfoldable pub insert_run : RunRecord → Tx (Unit {0})
insert_run r db =
    if exists_where (λ x. x.id == r.id) db.runs
    then err database
    else ok (tt, record db { runs = db.runs ++ r ∷ [] })

-- The statement on `runs` with which the recovery of a run makes it active again.
unfoldable pub mark_run_active : ℕ → Tx (Unit {0})
mark_run_active id db = ok (
  tt,
  record db {
    runs =
        update_where (λ r. r.id == id) (λ r. record r { status = "active"; stopped_at = none })
          db.runs;
  },
)

unfoldable pub insert_agent : AgentRecord → Tx (Unit {0})
insert_agent a db =
    if not (exists_where (λ r. r.id == a.id) db.agents) && has_run db a.run_id
    then ok (tt, record db { agents = db.agents ++ a ∷ [] })
    else err database

abbrev pub is_generation : ℕ → ℕ → ℕ → AgentRecord → Bool
is_generation run_id agent_id generation a =
    a.id == agent_id && (a.run_id == run_id && a.generation == generation)

-- The agent may be replaced: it is of the run and the generation, and its process has ended.
unfoldable pub can_restart : ℕ → ℕ → ℕ → AgentRecord → Bool
can_restart run_id current_generation next_generation a =
    a.run_id == run_id
    && (a.generation == current_generation
        && (is_terminal a.state && ltb current_generation next_generation))

unfoldable pub start_agent_generation : ℕ → ℕ → ℕ → ℕ → Tx Bool
unfolding can_restart
start_agent_generation run_id agent_id current_generation next_generation db =
    elim (agent db agent_id) [
      | none ↦ ok (false, db)
      | some a ↦
          if can_restart run_id current_generation next_generation a
          then ok (
            count_where (is_generation run_id agent_id current_generation) db.agents == 1,
            record db {
              agents =
                  update_where (is_generation run_id agent_id current_generation)
                    (λ r. record r { generation = next_generation; state = starting }) db.agents;
            },
          )
          else ok (false, db)
    ]

-- The constraints of the table `sessions`: its keys and its foreign key.
unfoldable pub session_admitted : Db → SessionRecord → Bool
session_admitted db s =
    not (exists_where (λ r. r.id == s.id) db.sessions)
    && (not
          (exists_where (λ r. r.agent_id == s.agent_id && r.generation == s.generation) db.sessions)
        && has_agent db s.run_id s.agent_id)

unfoldable pub insert_session : SessionRecord → Tx (Unit {0})
insert_session s db =
    if session_admitted db s
    then ok (tt, record db { sessions = db.sessions ++ s ∷ [] })
    else err database

unfoldable pub latest_session_for_agent : Db → ℕ → ℕ → Option SessionRecord
latest_session_for_agent db run_id agent_id =
    select_latest (λ r. r.run_id == run_id && r.agent_id == agent_id) (λ r. r.generation)
      db.sessions

-- The key of a scope in the updates of `sessions`.
abbrev pub in_scope : SessionScope → SessionRecord → Bool
in_scope s r =
    r.id == s.session_id
    && (r.run_id == s.run_id && (r.agent_id == s.agent_id && r.generation == s.generation))

abbrev pub update_session : SessionScope → (SessionRecord → SessionRecord) → Db → Db
update_session s f db = record db { sessions = update_where (in_scope s) f db.sessions }

-- `observe` on the scope's session, if the scope is current; `stale` otherwise.
unfoldable pub if_current :
    SessionScope → (SessionRecord → Tx SessionTransitionOutcome) → Tx SessionTransitionOutcome
if_current s observe db = elim (session db s.session_id) [
  | none ↦ ok (stale, db)
  | some r ↦ if session_scope_is_current db s then observe r db else ok (stale, db)
]

abbrev pub launch_observed : SessionScope → String → ℕ → Db → Db
launch_observed s provider_session_id observed_at db =
    update_session s
      (λ r. record r {
        provider_session_id = some provider_session_id;
        reconciliation_state = observed;
        reconciled_at = some observed_at;
      })
      db

-- The checks of `record_session_launch_observation` on the scope's session.
unfoldable pub observe_launch :
    SessionScope → String → ℕ → SessionRecord → Tx SessionTransitionOutcome
observe_launch s provider_session_id observed_at r db =
    if resource_eq r.reconciliation_state observed
      && opt_str_eq r.provider_session_id (some provider_session_id)
    then ok (unchanged, db)
    else ok (applied, launch_observed s provider_session_id observed_at db)

unfoldable pub record_session_launch_observation :
    SessionScope → String → ℕ → Tx SessionTransitionOutcome
unfolding if_current observe_launch
record_session_launch_observation s provider_session_id observed_at =
    if_current s (observe_launch s provider_session_id observed_at)

abbrev pub reconciliation_observed : SessionScope → ExternalResourceState → ℕ → Db → Db
reconciliation_observed s state reconciled_at =
    update_session s
      (λ r. record r { reconciliation_state = state; reconciled_at = some reconciled_at })

unfoldable pub observe_reconciliation :
    SessionScope → ExternalResourceState → ℕ → SessionRecord → Tx SessionTransitionOutcome
observe_reconciliation s state reconciled_at r db =
    if resource_eq r.reconciliation_state state
    then ok (unchanged, db)
    else ok (applied, reconciliation_observed s state reconciled_at db)

unfoldable pub record_session_reconciliation_state :
    SessionScope → ExternalResourceState → ℕ → Tx SessionTransitionOutcome
unfolding if_current observe_reconciliation
record_session_reconciliation_state s state reconciled_at =
    if_current s (observe_reconciliation s state reconciled_at)

-- The derived `PartialEq`.
unfoldable pub owner_eq : SessionProcessOwner → SessionProcessOwner → Bool
owner_eq supervisor supervisor = true
owner_eq foreground foreground = true
owner_eq _ _ = false

-- A wrapper reports the exit of a process that recovery had recorded as lost.
unfoldable pub foreground_exit : SessionRecord → LifecycleState → Bool
foreground_exit r next =
    owner_eq r.process_owner foreground && (lifecycle_eq r.state lost && lifecycle_eq next exited)

-- The rows of `session_credentials` that the end of a session revokes.
abbrev pub is_live_credential : ℕ → SessionCredentialRecord → Bool
is_live_credential session_id c = c.session_id == session_id && is_none c.revoked_at

-- The update of the credentials, and whether it meets the check `revoked_at >= created_at`.
abbrev pub revoke :
    (SessionCredentialRecord → Bool)
    → ℕ
    → List SessionCredentialRecord
    → List SessionCredentialRecord
revoke p at = update_where p λ c. record c { revoked_at = some at }

abbrev pub can_revoke : (SessionCredentialRecord → Bool) → ℕ → List SessionCredentialRecord → Bool
can_revoke p at cs = not (exists_where (λ c. p c && ltb at c.created_at) cs)

-- `observed.is_terminal().then_some(observed_at)`
abbrev pub ended_at : LifecycleState → ℕ → Option ℕ
ended_at next at = if is_terminal next then some at else none

-- The tables after the updates of a session and its agent.
abbrev pub lifecycle_observed : SessionScope → LifecycleState → ℕ → Db → Db
lifecycle_observed s next at db = record db {
  sessions =
      update_where (in_scope s) (λ r. record r { state = next; ended_at = ended_at next at })
        db.sessions;
  agents =
      update_where (is_generation s.run_id s.agent_id s.generation) (λ a. record a { state = next })
        db.agents;
}

unfoldable pub observe_lifecycle : SessionScope → LifecycleState → ℕ → Tx SessionTransitionOutcome
observe_lifecycle s next at db =
    let credentials = revoke (is_live_credential s.session_id) at db.credentials in
    if is_terminal next
    then (if can_revoke (is_live_credential s.session_id) at db.credentials
        then ok (applied, record (lifecycle_observed s next at db) { credentials = credentials })
        else err database)
    else ok (applied, lifecycle_observed s next at db)

-- The checks of `record_session_lifecycle` on the scope's session and its agent.
unfoldable pub observe_agent :
    SessionScope → LifecycleState → ℕ → SessionRecord → AgentRecord → Tx SessionTransitionOutcome
unfolding observe_lifecycle foreground_exit
observe_agent s next at r a db =
    if not (a.run_id == s.run_id && a.generation == s.generation)
    then ok (stale, db)
    else if not (lifecycle_eq a.state r.state)
    then err (inconsistent_session_lifecycle r.id a.id)
    else if lifecycle_eq r.state next
    then ok (unchanged, db)
    else if not (allows r.state next || foreground_exit r next)
    then err (invalid_session_transition r.id r.state next)
    else observe_lifecycle s next at db

-- `record_session_lifecycle` on the session of a current scope.
unfoldable pub observe_session :
    SessionScope → LifecycleState → ℕ → SessionRecord → Tx SessionTransitionOutcome
unfolding observe_agent
observe_session s next at r db = elim (agent db s.agent_id) [
  | none ↦ ok (stale, db)
  | some a ↦ observe_agent s next at r a db
]

unfoldable pub record_session_lifecycle :
    SessionScope → LifecycleState → ℕ → Tx SessionTransitionOutcome
unfolding if_current observe_session
record_session_lifecycle s next at = if_current s (observe_session s next at)
