-- ===== src/Store/Control.antt =====
-- The supervision records of src/state/supervision.rs.
use coterie.Prelude.{ℕ, Bool, Option}

pub data ShutdownPhase : Type 0 where
  interrupting terminating reconciling timed_out completed : ShutdownPhase

pub data ControlPhase : Type 0 where
  interrupt terminate kill timed_out completed : ControlPhase

pub data ControlReason : Type 0 where
  shutdown startup_timeout execution_timeout : ControlReason

-- `SessionScope` of src/auth.rs.
pub record SessionScope : Type 0 where
  pub run_id : ℕ
  pub agent_id : ℕ
  pub session_id : ℕ
  pub generation : ℕ

pub record AssignmentScope : Type 0 where
  pub run_id : ℕ
  pub assignment_id : ℕ
  pub generation : ℕ

pub record RunShutdown : Type 0 where
  pub run_id : ℕ
  pub operation_id : ℕ
  pub phase : ShutdownPhase
  pub requested_at_ms : ℕ
  pub interrupt_until_ms : ℕ
  pub deadline_ms : ℕ

pub record SessionControl : Type 0 where
  pub scope : SessionScope
  pub reason : ControlReason
  pub phase : ControlPhase
  pub delivered : Bool
  pub requested_at_ms : ℕ
  pub interrupt_until_ms : ℕ
  pub kill_at_ms : ℕ
  pub deadline_ms : ℕ

-- A row of `session_launch_attempts`.
pub record LaunchAttempt : Type 0 where
  pub scope : SessionScope
  pub window_started_at : ℕ
  pub attempts : ℕ
  pub next_attempt_at : ℕ
  pub in_flight : Bool
  pub quarantined : Bool

-- A row of `session_failures`.
pub record SessionFailure : Type 0 where
  pub session_id : ℕ
  pub run_id : ℕ
  pub agent_id : ℕ
  pub failed_at : ℕ
  pub quarantine_until : Option ℕ
