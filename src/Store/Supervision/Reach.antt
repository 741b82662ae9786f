-- ===== src/Store/Supervision/Reach.antt =====
-- Sequences of the operations of supervision and sessions. (src/state/supervision.rs and
-- src/state.rs)
use coterie.Prelude.{ℕ, ◌≡◌, String, Option, Bool}
use coterie.Config.{SupervisionPolicy}
use coterie.Json.{Json}
use coterie.Store.Records.{ExternalResourceState, ResourceTransitionOutcome}
use coterie.Store.Control.{SessionScope, ControlReason, ControlPhase, ShutdownPhase, SessionControl}
use coterie.Store.Tx.{ok, Env, Db}
use coterie.Store.Sessions.Reach.{SessionStep}
use coterie.Store.Operations.{record_operation_reconciliation}
use coterie.Store.Supervision.{warn_job_deadline}
use coterie.Store.Supervision.Keeps.{keep_shutdowns, warn-Keeps, admit-Keeps, fail-Keeps}
use coterie.Store.Supervision.Keeps.Controls.{request-Keeps, set_control-Keeps, delivered-Keeps}
use coterie.Store.Supervision.Keeps.Reports.{reconciliation-Keeps, failure-Keeps}
use coterie.Store.Supervision.Launch.{LaunchAdmission, admit_session_launch, fail_session_launch}
use coterie.Store.Supervision.Crashes.{record_session_failure}
use coterie.Store.Supervision.Controls.{
  request_session_control, set_control_phase, mark_control_delivered,
}
use coterie.Store.Supervision.Shutdown.{
  begin_run_shutdown, set_shutdown_phase, complete_shutdown_operation,
}
use coterie.Store.Supervision.Shutdown.Steps.{
  ShutdownsStep, shutdowns_kept, begin_step, set_phase_step, complete_step,
}

-- One operation that returned; one that failed leaves the tables alone.
pub data SupervisionStep (redact : String → String) (env : Env) (db db' : Db) : Type 0 where
  session_operation : SessionStep db db' → SupervisionStep redact env db db'
  deadline_warned :
      (s : SessionScope) (deadline_at now_ms : ℕ)
      → warn_job_deadline env s deadline_at now_ms db ≡ ok (tt, db')
      → SupervisionStep redact env db db'
  launch_admitted :
      (s : SessionScope) (now : ℕ) (policy : SupervisionPolicy) (a : LaunchAdmission)
      → admit_session_launch s now policy db ≡ ok (a, db')
      → SupervisionStep redact env db db'
  launch_reported :
      (s : SessionScope) (now : ℕ) (policy : SupervisionPolicy) (b : Bool)
      → fail_session_launch env s now policy db ≡ ok (b, db')
      → SupervisionStep redact env db db'
  failure_recorded :
      (s : SessionScope) (now : ℕ) (policy : SupervisionPolicy) (b : Bool)
      → record_session_failure env s now policy db ≡ ok (b, db')
      → SupervisionStep redact env db db'
  control_requested :
      (s : SessionScope) (reason : ControlReason) (now_ms grace_ms timeout_ms : ℕ)
      → request_session_control env s reason now_ms grace_ms timeout_ms db ≡ ok (tt, db')
      → SupervisionStep redact env db db'
  control_moved :
      (c : SessionControl) (phase : ControlPhase) (now_ms : ℕ)
      → set_control_phase env c phase now_ms db ≡ ok (tt, db')
      → SupervisionStep redact env db db'
  control_confirmed :
      (c : SessionControl)
      → mark_control_delivered c db ≡ ok (tt, db')
      → SupervisionStep redact env db db'
  operation_reported :
      (id : ℕ) (state : ExternalResourceState) (error : Option String) (at : ℕ)
      (o : ResourceTransitionOutcome)
      → record_operation_reconciliation redact env id state error at db ≡ ok (o, db')
      → SupervisionStep redact env db db'
  shutdown_begun :
      (run_id id now_ms grace_ms timeout_ms : ℕ)
      → begin_run_shutdown env run_id id now_ms grace_ms timeout_ms db ≡ ok (tt, db')
      → SupervisionStep redact env db db'
  shutdown_moved :
      (run_id : ℕ) (phase : ShutdownPhase) (now_ms : ℕ)
      → set_shutdown_phase env run_id phase now_ms db ≡ ok (tt, db')
      → SupervisionStep redact env db db'
  shutdown_completed :
      (run_id : ℕ) (response : Json) (now_ms : ℕ)
      → complete_shutdown_operation redact env run_id response now_ms db ≡ ok (tt, db')
      → SupervisionStep redact env db db'

-- Any number of operations.
pub data Course (redact : String → String) (env : Env) : Db → Db → Type 0 where
  stays : {db : Db} → Course redact env db db
  goes :
      {db db' db'' : Db}
      → SupervisionStep redact env db db'
      → Course redact env db' db''
      → Course redact env db db''

pub shutdowns_step :
    (redact : String → String) (env : Env) {db db' : Db}
    → SupervisionStep redact env db db'
    → ShutdownsStep db.shutdowns db'.shutdowns
shutdowns_step redact env (session_operation step) = shutdowns_kept (keep_shutdowns step)
shutdowns_step redact env {db} {db'} (deadline_warned s d n h) =
    shutdowns_kept (warn-Keeps env s d n db tt db' h)
shutdowns_step redact env {db} {db'} (launch_admitted s n p a h) =
    shutdowns_kept (admit-Keeps s n p db a db' h)
shutdowns_step redact env {db} {db'} (launch_reported s n p b h) =
    shutdowns_kept (fail-Keeps env s n p db b db' h)
shutdowns_step redact env {db} {db'} (failure_recorded s n p b h) =
    shutdowns_kept (failure-Keeps env s n p db b db' h)
shutdowns_step redact env {db} {db'} (control_requested s r n g t h) =
    shutdowns_kept (request-Keeps env s r n g t db tt db' h)
shutdowns_step redact env {db} {db'} (control_moved c p n h) =
    shutdowns_kept (set_control-Keeps env c p n db tt db' h)
shutdowns_step redact env {db} {db'} (control_confirmed c h) =
    shutdowns_kept (delivered-Keeps c db tt db' h)
shutdowns_step redact env {db} {db'} (operation_reported id s e a o h) =
    shutdowns_kept (reconciliation-Keeps redact env id s e a db o db' h)
shutdowns_step redact env {db} {db'} (shutdown_begun r i n g t h) =
    begin_step env r i n g t db db' h
shutdowns_step redact env {db} {db'} (shutdown_moved r p n h) = set_phase_step env r p n db db' h
shutdowns_step redact env {db} {db'} (shutdown_completed r response n h) =
    complete_step redact env r response n db db' h
