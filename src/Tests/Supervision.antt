-- ===== src/Tests/Supervision.antt =====
-- Supervision of the sample session: launches, controls, deadlines and reports.
use coterie.Prelude.{
  ◌≡◌, ◌≤◌, ◌-◌, ◌↔◌, ◌⊎◌, ◌/◌, max, not, refl, some, [], ◌∷◌, true, false, leb, arith, ◌&&◌, ◌||◌,
}
use coterie.Config.{compiled_supervision}
use coterie.Sql.{exists_where, select_first}
use coterie.Tests.Samples.{sample_env, sample_store}
use coterie.Tests.Opened.{opened}
use coterie.Tests.Sessions.{running_store, scope_at}
use coterie.Store.Records.{ExternalResourceState, ResourceTransitionOutcome, OperationRecord}
use coterie.Store.Control.{
  RunShutdown, ShutdownPhase, ControlReason, ControlPhase, SessionControl, LaunchAttempt,
}
use coterie.Store.Tx.{err, operation_conflict, Db, ok, run_transaction}
use coterie.Store.Rows.{operation}
use coterie.Store.Operations.{
  reconciled, record_operation_reconciliation, record_report, same_report,
  append_operation_reconciliation_event, operations_requiring_reconciliation,
}
use coterie.Store.Operations.Laws.{record_operation_reconciliation_again}
use coterie.Store.Events.{events_after}
use coterie.Store.Supervision.{
  saturating_add, is_warned, warn_job_deadline, announce_deadline, supervision_event, is_idle,
  idle_shutdown_cursor,
}
use coterie.Store.Supervision.Laws.{warn_job_deadline_again, idle_shutdown_cursor_settled}
use coterie.Store.Supervision.Launch.{
  LaunchAdmission, launch_attempt, run_shutdown, plan_launch, launch_delay, upsert_launch,
  admit_session_launch, fail_session_launch, announce_limit, session_launch_is_retryable,
}
use coterie.Store.Supervision.Launch.Laws.{can_launch, admit_session_launch_bounds}
use coterie.Store.Supervision.Launch.Failures.{fail_session_launch-admit_session_launch}
use coterie.Store.Supervision.Shutdown.{
  drain_assignment, stop_operation, shutdown_row, insert_shutdown, shutdown_admitted,
  announce_shutdown, drain_agents, drain_agent, agents_of, perform_shutdown, begin_run_shutdown,
  shutdown_phase_eq, shutdown_phase_str, change_phase, announce_change, set_shutdown_phase,
}
use coterie.Store.Supervision.Shutdown.Laws.{Continues, begin_run_shutdown_again}
use coterie.Store.Supervision.Reach.{goes, stays, shutdown_moved}
use coterie.Store.Supervision.Controls.{
  control_phase_eq, control_phase_str, control_reason_str, control_row, is_controlled,
  is_new_control, drain_owner, announce_control, request_session_control, announce_phase,
  set_control_phase, mark_control_delivered,
}
use coterie.Store.Supervision.Controls.Laws.{
  request_session_control_iff, set_control_phase-mark_control_delivered,
}

unfoldable freed : Unit {0}
unfolding opened insert_shutdown shutdown_admitted announce_shutdown drain_agents drain_agent
    agents_of perform_shutdown begin_run_shutdown shutdown_phase_eq shutdown_phase_str change_phase
    announce_change set_shutdown_phase record_operation_reconciliation record_report same_report
    append_operation_reconciliation_event is_warned warn_job_deadline announce_deadline
    supervision_event is_idle idle_shutdown_cursor launch_attempt run_shutdown plan_launch
    launch_delay upsert_launch admit_session_launch fail_session_launch announce_limit
    session_launch_is_retryable drain_assignment control_phase_eq control_phase_str
    control_reason_str is_new_control drain_owner announce_control request_session_control
    announce_phase set_control_phase mark_control_delivered
freed = tt

unfoldable launched_store : Db
unfolding run_transaction
launched_store =
    (run_transaction (admit_session_launch (scope_at 60 0) 100 compiled_supervision)
      running_store).1

launch_runs :
    admit_session_launch (scope_at 60 0) 100 compiled_supervision running_store
    ≡ ok (LaunchAdmission.allowed, launched_store)
unfolding launched_store freed
launch_runs = refl

admit_session_launch_bounds_example :
    (can_launch (launch_attempt running_store 60) 100 ≡ true)
    × ((r : LaunchAttempt) × (launch_attempt launched_store 60 ≡ some r)
        × (r.attempts ≡ 1)
        × (r.window_started_at ≡ 100)
        × (r.attempts ≤ max 1 3)
        × (r.next_attempt_at
            ≡ saturating_add 100 (launch_delay compiled_supervision (r.attempts - 1)))
        × (r.in_flight ≡ true)
        × (r.quarantined ≡ false))
    × (admit_session_launch (scope_at 60 0) 101 compiled_supervision launched_store
        ≡ ok (LaunchAdmission.unknown, launched_store))
unfolding launch_attempt select_first
admit_session_launch_bounds_example =
    admit_session_launch_bounds (scope_at 60 0) 100 101 compiled_supervision compiled_supervision
      running_store launched_store launch_runs

unfoldable failed_store : Db
unfolding run_transaction
failed_store =
    (run_transaction (fail_session_launch sample_env (scope_at 60 0) 100 compiled_supervision)
      launched_store).1

fail_runs :
    fail_session_launch sample_env (scope_at 60 0) 100 compiled_supervision launched_store
    ≡ ok (false, failed_store)
unfolding failed_store launched_store freed
fail_runs = refl

abbrev attempted_row : LaunchAttempt
attempted_row = record {
  scope = scope_at 60 0;
  window_started_at = 100;
  attempts = 1;
  next_attempt_at = 101;
  in_flight = true;
  quarantined = false;
}

fail_session_launch-admit_session_launch_example :
    (false ≡ leb 3 1)
    × (session_launch_is_retryable failed_store (scope_at 60 0) ≡ true)
    × ((admit_session_launch (scope_at 60 0) 100 compiled_supervision failed_store
          ≡ ok (LaunchAdmission.backoff 101, failed_store))
        ⊎ ((false ≡ false) × (101 ≤ 100)))
unfolding launched_store freed
fail_session_launch-admit_session_launch_example =
    fail_session_launch-admit_session_launch sample_env (scope_at 60 0) 100 100 compiled_supervision
      compiled_supervision launched_store failed_store false attempted_row refl refl refl fail_runs

unfoldable warned_store : Db
unfolding run_transaction
warned_store =
    (run_transaction (warn_job_deadline sample_env (scope_at 60 0) 3620 3300000) running_store).1

warn_runs :
    warn_job_deadline sample_env (scope_at 60 0) 3620 3300000 running_store ≡ ok (tt, warned_store)
unfolding warned_store freed
warn_runs = refl

warn_job_deadline_again_example :
    (exists_where (is_warned sample_env (scope_at 60 0)) warned_store.events ≡ true)
    × (warn_job_deadline sample_env (scope_at 60 0) 3620 3310000 warned_store
        ≡ ok (tt, warned_store))
unfolding freed
warn_job_deadline_again_example =
    warn_job_deadline_again sample_env (scope_at 60 0) 3620 3300000 3620 3310000 running_store
      warned_store refl warn_runs

-- The run without its agents, which may be alive.
abbrev idle_store : Db
idle_store = record sample_store { agents = [] }

idle_shutdown_cursor_settled_example :
    (operations_requiring_reconciliation idle_store 1 ≡ [])
    × (events_after sample_env 1 0 10 idle_store ≡ [])
unfolding freed
idle_shutdown_cursor_settled_example =
    idle_shutdown_cursor_settled sample_env 1 10 0 idle_store refl

-- A grace of three seconds is valid configuration, and more than half of the timeout of five.
unresponsive : Db
unfolding run_transaction
unresponsive =
    (run_transaction
      (request_session_control sample_env (scope_at 60 0) ControlReason.shutdown 1000 3000 5000)
      running_store).1

request_session_control_iff_example :
    ((exists_where (is_controlled (scope_at 60 0)) unresponsive.controls ≡ true)
      ↔ (3000 ≤ 5000 / 2))
    × ((3000 ≤ 5000 / 2) ⊎ (unresponsive ≡ running_store))
unfolding unresponsive freed
request_session_control_iff_example =
    request_session_control_iff sample_env (scope_at 60 0) ControlReason.shutdown 1000 3000 5000
      running_store unresponsive refl refl (omega arith) (omega arith) refl

abbrev sample_control : SessionControl
sample_control = control_row (scope_at 60 0) ControlReason.shutdown 1000 250 5000

abbrev controlled_store : Db
controlled_store = record running_store { controls = sample_control ∷ [] }

unfoldable terminated_store : Db
unfolding run_transaction
terminated_store =
    (run_transaction (set_control_phase sample_env sample_control ControlPhase.terminate 1300)
      controlled_store).1

terminate_runs :
    set_control_phase sample_env sample_control ControlPhase.terminate 1300 controlled_store
    ≡ ok (tt, terminated_store)
unfolding terminated_store freed
terminate_runs = refl

set_control_phase-mark_control_delivered_example :
    exists_where
      (λ r.
        is_controlled (scope_at 60 0) r
        && (r.delivered || not (control_phase_eq r.phase ControlPhase.terminate)))
      terminated_store.controls
    ≡ false
unfolding terminated_store freed
set_control_phase-mark_control_delivered_example =
    set_control_phase-mark_control_delivered sample_env sample_control ControlPhase.terminate 1300
      controlled_store terminated_store terminated_store refl refl terminate_runs refl

abbrev stop_pending : OperationRecord
stop_pending = stop_operation 1 70 1000

abbrev stopping_store : Db
stopping_store = record running_store { operations = stop_pending ∷ [] }

unfoldable stopped_store : Db
unfolding run_transaction
stopped_store =
    (run_transaction
      (record_operation_reconciliation (λ s. "[redacted]") sample_env 70
        ExternalResourceState.unknown (some "no answer") 9)
      stopping_store).1

report_runs :
    record_operation_reconciliation
      (λ s. "[redacted]")
      sample_env
      70
      ExternalResourceState.unknown
      (some "no answer")
      9
      stopping_store
    ≡ ok (ResourceTransitionOutcome.applied, stopped_store)
unfolding stopped_store freed
report_runs = refl

record_operation_reconciliation_again_example :
    (operation stopped_store 70
      ≡ some (record stop_pending {
        reconciliation_state = some ExternalResourceState.unknown;
        reconciliation_attempt_count = 1;
        reconciliation_error = some "[redacted]";
        reconciled_at = some 9;
      }))
    × (record_operation_reconciliation
          (λ s. "[redacted]")
          sample_env
          70
          ExternalResourceState.unknown
          (some "no answer")
          10
          stopped_store
        ≡ ok (
          ResourceTransitionOutcome.unchanged,
          reconciled 70 ExternalResourceState.unknown (some "[redacted]") 10 stopped_store,
        ))
unfolding opened
record_operation_reconciliation_again_example =
    record_operation_reconciliation_again (λ s. "[redacted]") sample_env 70
      ExternalResourceState.unknown (some "no answer") 9 10 stopping_store stopped_store
      ResourceTransitionOutcome.applied stop_pending refl refl report_runs

unfoldable closing_store : Db
unfolding run_transaction
closing_store = (run_transaction (begin_run_shutdown sample_env 1 70 1000 250 5000) running_store).1

closing_runs :
    begin_run_shutdown sample_env 1 70 1000 250 5000 running_store ≡ ok (tt, closing_store)
unfolding closing_store freed
closing_runs = refl

abbrev closing : RunShutdown
closing = shutdown_row 1 70 1000 250 5000

closing_found : run_shutdown closing_store 1 ≡ some closing
unfolding closing_store freed
closing_found = refl

unfoldable moved_store : Db
unfolding run_transaction
moved_store =
    (run_transaction (set_shutdown_phase sample_env 1 ShutdownPhase.terminating 1300)
      closing_store).1

moved_runs :
    set_shutdown_phase sample_env 1 ShutdownPhase.terminating 1300 closing_store
    ≡ ok (tt, moved_store)
unfolding moved_store closing_store freed
moved_runs = refl

begin_run_shutdown_again_example :
    ((s' : RunShutdown) × (run_shutdown moved_store 1 ≡ some s') × Continues closing s')
    × (begin_run_shutdown sample_env 1 70 2000 250 5000 moved_store ≡ ok (tt, moved_store))
    × (begin_run_shutdown sample_env 1 71 2000 250 5000 moved_store ≡ err (operation_conflict 71))
    × (admit_session_launch (scope_at 60 0) 3 compiled_supervision moved_store
        ≡ ok (LaunchAdmission.unknown, moved_store))
begin_run_shutdown_again_example =
    begin_run_shutdown_again (λ x. x) sample_env 1 71 2000 250 5000 3 (scope_at 60 0)
      compiled_supervision closing closing_store moved_store closing_found
      (goes (shutdown_moved 1 ShutdownPhase.terminating 1300 moved_runs) stays) refl refl
