-- ===== src/Store/Supervision/Crashes/Frame.antt =====
-- src/state/supervision.rs: what `quarantine_unstarted_agent` does to the tables.
use coterie.Prelude.{ℕ, ◌≡◌, arith, Bool-cases, Option-cases, inl, inr}
use coterie.Store.Records.{AgentRecord}
use coterie.Store.Event.{EventKind}
use coterie.Store.Tx.{ok, Env, Db}
use coterie.Store.Rows.{agent}
use coterie.Store.Events.Frame.{Logs, OnlyLogs}
use coterie.Store.Supervision.Frame.{supervision_event-OnlyLogs}
use coterie.Store.Supervision.Crashes.{
  is_unstarted, announce_unstarted, agent_quarantined, quarantine_unstarted_agent,
}

-- The agent is left alone, or quarantined, with an event of it.
pub data UnstartedStep (run_id agent_id : ℕ) (db db' : Db) : Type 0 where
  left_alone : db' ≡ db → UnstartedStep run_id agent_id db db'
  given_up :
      (a : AgentRecord)
      → Logs (agent_quarantined run_id agent_id a db) db'
      → UnstartedStep run_id agent_id db db'

announce_unstarted-OnlyLogs :
    (env : Env) (run_id : ℕ) (a : AgentRecord) (agent_id operation_id now : ℕ)
    → OnlyLogs (announce_unstarted env run_id a agent_id operation_id now)
unfolding announce_unstarted
announce_unstarted-OnlyLogs env run_id a agent_id operation_id now d u d' e =
    supervision_event-OnlyLogs env run_id EventKind.agent_lifecycle_changed _ _ _ _ _ _ d u d' e

pub unstarted_step :
    (env : Env) (run_id agent_id operation_id now : ℕ) (db db' : Db)
    → quarantine_unstarted_agent env run_id agent_id operation_id now db ≡ ok (tt, db')
    → UnstartedStep run_id agent_id db db'
unfolding quarantine_unstarted_agent
unstarted_step env run_id agent_id operation_id now db db' h =
    elim (Option-cases (agent db agent_id)) [
      | inl e ↦ left_alone (ground (arith, h, e))
      | inr (a, e) ↦ elim (Bool-cases (is_unstarted db run_id agent_id a)) [
        | inr started ↦ left_alone (ground (arith, h, e, started))
        | inl idle ↦ given_up a (
            announce_unstarted-OnlyLogs env run_id a agent_id operation_id now
              (agent_quarantined run_id agent_id a db) tt db' (ground (arith, h, e, idle)))
      ]
    ]
