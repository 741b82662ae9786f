-- ===== src/Supervisor/Idle.antt =====
-- src/supervisor/idle.rs: the timer of the idle shutdown. An `Instant` is the number of its
-- nanoseconds.
pub mod Laws
pub mod Begin
use coterie.Prelude.{
  ℕ, ◌-◌, ◌/◌, ◌^◌, Bool, true, false, Option, none, some, ltb, leb, ◌==◌, if◌then◌else◌,
}
use coterie.Config.{SupervisionPolicy}
use coterie.Json.{num, text, object, end, member}
use coterie.Store.Event.{NewEvent, EventKind}
use coterie.Store.Tx.{Result, ok, Env, Db, Tx, ◌>>=◌, ◌>>◌, return, run_transaction}
use coterie.Store.Events.{append_event}
use coterie.Store.Supervision.{idle_shutdown_cursor}
use coterie.Store.Supervision.Shutdown.{begin_run_shutdown}

pub record IdleShutdown : Type 0 where
  pub policy : SupervisionPolicy
  pub observed : Option (ℕ × ℕ)

abbrev pub new : SupervisionPolicy → IdleShutdown
new policy = record { policy = policy; observed = none }

-- `now.duration_since(since).as_secs()`, which is zero where `since` is later.
abbrev pub seconds_since : ℕ → ℕ → ℕ
seconds_since now since = (now - since) / 10 ^ 9

-- `get_or_insert`, and the reset to a cursor that has moved.
unfoldable pub observe : Option (ℕ × ℕ) → ℕ → ℕ → ℕ × ℕ
observe none cursor now = (cursor, now)
observe (some (previous, since)) cursor now =
    if previous == cursor then (previous, since) else (cursor, now)

-- The answer, and the timer afterwards.
unfoldable pub due : IdleShutdown → Option ℕ → ℕ → Bool × IdleShutdown
unfolding observe
due idle none now = (false, record idle { observed = none })
due idle (some cursor) now =
    if ltb 0 idle.policy.idle_timeout_seconds
    then (
      leb idle.policy.idle_timeout_seconds (seconds_since now (observe idle.observed cursor now).1),
      record idle { observed = some (observe idle.observed cursor now) },
    )
    else (false, record idle { observed = none })

abbrev pub idle_event : Env → IdleShutdown → ℕ → ℕ → ℕ → NewEvent
idle_event env idle run_id operation_id now_ms = record {
  run_id = run_id;
  kind = EventKind.run_shutdown_changed;
  actor = "supervisor";
  subject = env.display run_id;
  project_id = none;
  agent_id = none;
  task_id = none;
  operation_id = some operation_id;
  correlation_id = none;
  causation_id = none;
  data_ = object (
      member "idle_timeout_seconds" (num idle.policy.idle_timeout_seconds)
        (member "reason" (text "idle_timeout") end));
  summary = "Stopping the run after its configured idle period.";
  created_at = now_ms / 1000;
}

-- The writes of a shutdown that is due.
unfoldable pub begin_idle_shutdown : Env → IdleShutdown → ℕ → ℕ → ℕ → Tx Bool
begin_idle_shutdown env idle run_id operation_id now_ms =
    begin_run_shutdown env run_id operation_id now_ms idle.policy.interrupt_grace_ms
      idle.policy.shutdown_timeout_ms
    >> (append_event env (idle_event env idle run_id operation_id now_ms) >>= λ e. return true)

-- The transaction of a shutdown that is due, beside the timer.
abbrev begin_now : Env → IdleShutdown → ℕ → ℕ → ℕ → Db → Result Bool × IdleShutdown × Db
begin_now env idle run_id operation_id now_ms db =
    let outcome = run_transaction (begin_idle_shutdown env idle run_id operation_id now_ms) db in
    (outcome.0, idle, outcome.1)

-- The result, the timer and the tables afterwards: the timer moves even if the transaction fails.
-- `operation_id` is the identifier that would be generated, and `now_ms` the system clock.
unfoldable pub begin_if_due :
    Env → IdleShutdown → ℕ → ℕ → ℕ → ℕ → Db → Result Bool × IdleShutdown × Db
unfolding due begin_idle_shutdown run_transaction
begin_if_due env idle run_id operation_id now now_ms db =
    if idle.policy.idle_timeout_seconds == 0
    then (ok false, idle, db)
    else let answer = due idle (idle_shutdown_cursor db run_id) now in
      if answer.0
      then begin_now env answer.1 run_id operation_id now_ms db
      else (ok false, answer.1, db)
