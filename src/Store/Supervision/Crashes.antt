-- ===== src/Store/Supervision/Crashes.antt =====
-- src/state/supervision.rs, processes that fail: `record_session_failure`, `agent_quarantine_until`
-- and `quarantine_unstarted_agent`.
pub mod Frame
use coterie.Prelude.{
  ℕ, ◌+◌, max, Bool, true, false, not, ◌&&◌, Option, none, some, List, [], ◌∷◌, ◌++◌, ltb, leb,
  ◌==◌, is_some, is_none, if◌then◌else◌,
}
use coterie.Config.{SupervisionPolicy}
use coterie.Json.{num, text, object, end, member}
use coterie.Lifecycle.{LifecycleState, lifecycle_eq}
use coterie.Sql.{exists_where, count_where, update_where}
use coterie.Store.Records.{AgentRecord}
use coterie.Store.Control.{SessionScope, SessionFailure}
use coterie.Store.Event.{EventKind}
use coterie.Store.Tx.{database, ok, err, Env, Db, Tx, ◌>>◌, return}
use coterie.Store.Keys.{has_session}
use coterie.Store.Rows.{agent, session_scope_is_current}
use coterie.Store.Sessions.{latest_session_for_agent, is_generation}
use coterie.Store.Supervision.{saturating_add, saturating_mul, supervision_event}

-- A failure whose quarantine has not expired.
abbrev pub is_quarantining : ℕ → ℕ → ℕ → SessionFailure → Bool
is_quarantining run_id agent_id now f =
    (f.run_id == run_id && f.agent_id == agent_id)
    && elim f.quarantine_until [ none ↦ false | some until ↦ ltb now until ]

-- `SELECT max(quarantine_until) …`, which is NULL where no row is.
unfoldable pub latest_quarantine : (SessionFailure → Bool) → List SessionFailure → Option ℕ
latest_quarantine p [] = none
latest_quarantine p (f ∷ fs) =
    let rest = latest_quarantine p fs in
    if p f
    then elim f.quarantine_until [
      | none ↦ rest
      | some u ↦ elim rest [ none ↦ some u | some v ↦ some (max u v) ]
    ]
    else rest

unfoldable pub agent_quarantine_until : Db → ℕ → ℕ → ℕ → Option ℕ
unfolding latest_quarantine
agent_quarantine_until db run_id agent_id now =
    latest_quarantine (is_quarantining run_id agent_id now) db.failures

-- The failures of an agent in the restart window. `failed_at > now.saturating_sub(window)` is
-- written with the addition on the other side.
unfoldable pub recent_failures : Db → ℕ → ℕ → ℕ → SupervisionPolicy → ℕ
recent_failures db run_id agent_id now policy =
    count_where
      (λ f.
        f.run_id == run_id
        && (f.agent_id == agent_id && ltb now (f.failed_at + policy.restart_window_seconds)))
      db.failures

abbrev pub failure_row : SessionScope → ℕ → SessionFailure
failure_row s now = record {
  session_id = s.session_id;
  run_id = s.run_id;
  agent_id = s.agent_id;
  failed_at = now;
  quarantine_until = none;
}

abbrev pub failure_quarantined : SessionScope → ℕ → Db → Db
failure_quarantined s until db = record db {
  failures =
      update_where (λ f. f.session_id == s.session_id)
        (λ f. record f { quarantine_until = some until }) db.failures;
}

-- The event of an agent whose sessions keep failing.
unfoldable pub announce_crashes : Env → SessionScope → ℕ → SupervisionPolicy → ℕ → Tx (Unit {0})
announce_crashes env s now policy failures =
    supervision_event env s.run_id EventKind.session_restart_limited (env.display s.session_id)
      (some s.agent_id) none
      (object (
        member "failures" (num failures) (
          member "generation" (num s.generation) (
            member "quarantine_until" (num (saturating_add now policy.restart_window_seconds)) (
              member "reason" (text "process_failures")
                (member "window_seconds" (num policy.restart_window_seconds) end))))))
      "Quarantined a crash loop; foreground replacement is blocked until the restart window expires."
      (saturating_mul now 1000)

-- A failure that was inserted quarantines the agent if its window is full.
unfoldable pub count_failure : Env → SessionScope → ℕ → SupervisionPolicy → Tx Bool
unfolding recent_failures announce_crashes
count_failure env s now policy db =
    let failures = recent_failures db s.run_id s.agent_id now policy in
    if leb policy.max_launch_attempts failures
    then (announce_crashes env s now policy failures >> return true)
        (failure_quarantined s (saturating_add now policy.restart_window_seconds) db)
    else ok (false, db)

unfoldable pub record_session_failure : Env → SessionScope → ℕ → SupervisionPolicy → Tx Bool
unfolding count_failure agent_quarantine_until
record_session_failure env s now policy db =
    if not (session_scope_is_current db s)
    then ok (false, db)
    else if exists_where (λ f. f.session_id == s.session_id) db.failures
    then ok (is_some (agent_quarantine_until db s.run_id s.agent_id now), db)
    else if has_session db s.run_id s.agent_id s.session_id
    then count_failure env s now policy
        (record db { failures = db.failures ++ failure_row s now ∷ [] })
    else err database

-- The agent of a spawn that never had a session.
unfoldable pub is_unstarted : Db → ℕ → ℕ → AgentRecord → Bool
is_unstarted db run_id agent_id a =
    a.run_id == run_id
    && (lifecycle_eq a.state LifecycleState.starting
        && is_none (latest_session_for_agent db run_id agent_id))

-- The event of a launch that is given up.
unfoldable pub announce_unstarted : Env → ℕ → AgentRecord → ℕ → ℕ → ℕ → Tx (Unit {0})
announce_unstarted env run_id a agent_id operation_id now =
    supervision_event env run_id EventKind.agent_lifecycle_changed (env.display agent_id)
      (some agent_id) (some operation_id)
      (object (
        member "generation" (num a.generation) (
          member "previous_state" (text "starting") (
            member "reason" (text "preflight_failures")
              (member "state" (text "quarantined") end)))))
      "Quarantined a launch after repeated preflight failures; no provider session was created."
      (saturating_mul now 1000)

abbrev pub agent_quarantined : ℕ → ℕ → AgentRecord → Db → Db
agent_quarantined run_id agent_id a db = record db {
  agents =
      update_where (is_generation run_id agent_id a.generation)
        (λ r. record r { state = LifecycleState.quarantined }) db.agents;
}

unfoldable pub quarantine_unstarted_agent : Env → ℕ → ℕ → ℕ → ℕ → Tx (Unit {0})
unfolding is_unstarted announce_unstarted
quarantine_unstarted_agent env run_id agent_id operation_id now db = elim (agent db agent_id) [
  | none ↦ ok (tt, db)
  | some a ↦
      if is_unstarted db run_id agent_id a
      then announce_unstarted env run_id a agent_id operation_id now
          (agent_quarantined run_id agent_id a db)
      else ok (tt, db)
]
