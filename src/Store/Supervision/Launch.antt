-- ===== src/Store/Supervision/Launch.antt =====
-- src/state/supervision.rs, the admission of launches: `admit_session_launch`,
-- `fail_session_launch` and `session_launch_is_retryable`.
pub mod Laws
pub mod Failures
use coterie.Prelude.{
  ℕ, ◌+◌, ◌^◌, min, max, Bool, true, false, not, ◌&&◌, ◌||◌, Option, none, some, List, [], ◌∷◌,
  ◌++◌, ltb, leb, ◌==◌, is_some, is_none, if◌then◌else◌,
}
use coterie.Config.{SupervisionPolicy}
use coterie.Json.{num, text, object, end, member}
use coterie.Lifecycle.{LifecycleState, lifecycle_eq}
use coterie.Sql.{select_first, exists_where, count_where, update_where}
use coterie.Store.Records.{AgentRecord}
use coterie.Store.Control.{SessionScope, LaunchAttempt, SessionFailure, RunShutdown}
use coterie.Store.Event.{EventKind}
use coterie.Store.Tx.{database, ok, err, Env, Db, Tx, ◌>>◌, return}
use coterie.Store.Keys.{has_session}
use coterie.Store.Rows.{agent, session_scope_is_current}
use coterie.Store.Sessions.{latest_session_for_agent, is_generation}
use coterie.Store.Supervision.{saturating_add, saturating_mul, supervision_event}

pub data LaunchAdmission : Type 0 where
  allowed : LaunchAdmission
  backoff : ℕ → LaunchAdmission
  quarantined unknown : LaunchAdmission

unfoldable pub run_shutdown : Db → ℕ → Option RunShutdown
run_shutdown db run_id = select_first (λ r. r.run_id == run_id) db.shutdowns

unfoldable pub launch_attempt : Db → ℕ → Option LaunchAttempt
launch_attempt db session_id =
    select_first (λ r. r.scope.session_id == session_id) db.launch_attempts

-- The window and the attempts of an admission, or the refusal.
pub data LaunchPlan : Type 0 where
  refused : LaunchAdmission → LaunchPlan
  counted : (window attempts : ℕ) → LaunchPlan

-- The decision from the session's row. `now.saturating_sub(window) >= restart_window_seconds` is
-- written with the addition on the other side.
unfoldable pub plan_launch : Option LaunchAttempt → ℕ → SupervisionPolicy → LaunchPlan
plan_launch none now policy = counted now 0
plan_launch (some r) now policy =
    if r.quarantined
    then refused quarantined
    else if r.in_flight
    then refused unknown
    else if ltb now r.next_attempt_at
    then refused (backoff r.next_attempt_at)
    else if leb (r.window_started_at + policy.restart_window_seconds) now
    then counted now 0
    else if leb policy.max_launch_attempts r.attempts
    then refused quarantined
    else counted r.window_started_at r.attempts

-- The delay before the next attempt: it doubles with each attempt, twenty times at most.
unfoldable pub launch_delay : SupervisionPolicy → ℕ → ℕ
launch_delay policy attempts = saturating_mul policy.restart_backoff_seconds (2 ^ min attempts 20)

-- The columns that the upsert writes.
abbrev pub launched : ℕ → ℕ → ℕ → LaunchAttempt → LaunchAttempt
launched window attempts next r = record r {
  window_started_at = window;
  attempts = attempts + 1;
  next_attempt_at = next;
  in_flight = true;
}

abbrev pub launch_row : SessionScope → ℕ → ℕ → ℕ → LaunchAttempt
launch_row s window attempts next = record {
  scope = s;
  window_started_at = window;
  attempts = attempts + 1;
  next_attempt_at = next;
  in_flight = true;
  quarantined = false;
}

-- `INSERT … ON CONFLICT(session_id) DO UPDATE`.
unfoldable pub upsert_launch : SessionScope → ℕ → ℕ → ℕ → Tx (Unit {0})
upsert_launch s window attempts next db =
    if exists_where (λ r. r.scope.session_id == s.session_id) db.launch_attempts
    then ok (
      tt,
      record db {
        launch_attempts =
            update_where (λ r. r.scope.session_id == s.session_id) (launched window attempts next)
              db.launch_attempts;
      },
    )
    else if has_session db s.run_id s.agent_id s.session_id
    then ok (
      tt,
      record db { launch_attempts = db.launch_attempts ++ launch_row s window attempts next ∷ [] },
    )
    else err database

abbrev pub perform_launch : SessionScope → ℕ → SupervisionPolicy → LaunchPlan → Tx LaunchAdmission
perform_launch s now policy (refused a) db = ok (a, db)
perform_launch s now policy (counted window attempts) db =
    (upsert_launch s window attempts (saturating_add now (launch_delay policy attempts))
        >> return allowed)
      db

unfoldable pub admit_session_launch : SessionScope → ℕ → SupervisionPolicy → Tx LaunchAdmission
unfolding plan_launch launch_delay upsert_launch
admit_session_launch s now policy db =
    if not (session_scope_is_current db s) || is_some (run_shutdown db s.run_id)
    then ok (unknown, db)
    else perform_launch s now policy (plan_launch (launch_attempt db s.session_id) now policy) db

abbrev pub launch_failed : SessionScope → SupervisionPolicy → Db → Db
launch_failed s policy db = record db {
  launch_attempts =
      update_where (λ r. r.scope.session_id == s.session_id)
        (λ r. record r {
          in_flight = false;
          quarantined = leb policy.max_launch_attempts r.attempts;
        })
        db.launch_attempts;
}

-- The event of a session whose attempts are used up.
unfoldable pub announce_limit : Env → SessionScope → ℕ → SupervisionPolicy → Tx (Unit {0})
announce_limit env s now policy =
    supervision_event env s.run_id EventKind.session_restart_limited (env.display s.session_id)
      (some s.agent_id) none
      (object (
        member "attempts" (num policy.max_launch_attempts) (
          member "generation" (num s.generation) (
            member "reason" (text "launch_failures")
              (member "window_seconds" (num policy.restart_window_seconds) end)))))
      "Quarantined the session after repeated launch failures; inspect its task and workspace before recovery."
      (saturating_mul now 1000)

abbrev pub settle_failure : Env → SessionScope → ℕ → SupervisionPolicy → Bool → Tx Bool
settle_failure env s now policy true = announce_limit env s now policy >> return true
settle_failure env s now policy false = return false

unfoldable pub fail_session_launch : Env → SessionScope → ℕ → SupervisionPolicy → Tx Bool
unfolding announce_limit
fail_session_launch env s now policy db =
    let after : Db = launch_failed s policy db in
    if not (session_scope_is_current db s)
    then ok (false, db)
    else elim (launch_attempt after s.session_id) [
      | none ↦ err database
      | some r ↦ settle_failure env s now policy r.quarantined after
    ]

unfoldable pub session_launch_is_retryable : Db → SessionScope → Bool
session_launch_is_retryable db s =
    session_scope_is_current db s && elim (launch_attempt db s.session_id) [
      | none ↦ false
      | some r ↦ not r.in_flight && not r.quarantined
    ]
