-- ===== src/Store/Supervision/Keeps.antt =====
-- The operations on runs, sessions, warnings and launches, and the table `run_shutdowns`.
-- (src/state.rs and src/state/supervision.rs)
pub mod Controls
pub mod Reports
use coterie.Prelude.{
  ℕ, ◌≡◌, ◌∙◌, ap, String, Option, Bool, true, not, ◌||◌, is_some, is_none, leb, [], ◌∷◌, ◌++◌,
  ◌==◌, arith, Bool-cases, Option-cases, inl, inr,
}
use coterie.Config.{SupervisionPolicy}
use coterie.Sql.{exists_where}
use coterie.Lifecycle.{LifecycleState}
use coterie.Store.Records.{
  SessionRecord, SessionCredentialRecord, SessionTransitionOutcome, ExternalResourceState,
  AgentRecord, OperationRecord, ResourceTransitionOutcome,
}
use coterie.Store.Control.{SessionScope, ControlReason, ControlPhase, SessionControl}
use coterie.Store.Tx.{ok, Env, Db, Tx, ◌>>◌, return, then-eq-ok}
use coterie.Store.Keys.{has_session}
use coterie.Store.Rows.{session_scope_is_current, agent, operation, active_assignment_for_agent}
use coterie.Store.Event.{EventKind}
use coterie.Store.Supervision.Controls.Laws.{announce_phase-OnlyLogs}
use coterie.Store.Events.Frame.{OnlyLogs}
use coterie.Store.Sessions.{
  insert_run, mark_run_active, stop_run, insert_agent, insert_session, observe_launch,
  observe_reconciliation, if_current, record_session_launch_observation,
  record_session_reconciliation_state, record_session_lifecycle, start_agent_generation,
}
use coterie.Store.Sessions.Steps.{
  refuse, restart, restart_step, outdated, current, current_step, same, old, alive, ended,
  lifecycle_step,
}
use coterie.Store.Supervision.Crashes.Frame.{left_alone, given_up, unstarted_step}
use coterie.Store.Sessions.Reach.{
  SessionStep, run_inserted, run_reactivated, spawn_given_up, run_stopped, agent_inserted,
  generation_started, session_inserted, launch_recorded, reconciliation_recorded,
  lifecycle_recorded, credential_activated, credential_replaced,
}
use coterie.Store.Credentials.{
  revoke_credentials, insert_session_credential, activate_session_credential,
  replace_desired_session_credential,
}
use coterie.Store.Credentials.Steps.{activate_step}
use coterie.Store.Operations.{
  record_report, same_report, record_operation_reconciliation,
  append_operation_reconciliation_event, reconciled, redacted,
}
use coterie.Store.Operations.Laws.{append_operation_reconciliation_event-OnlyLogs}
use coterie.Store.Supervision.{saturating_add, is_warned, announce_deadline, warn_job_deadline}
use coterie.Store.Supervision.Frame.{supervision_event-OnlyLogs}
use coterie.Store.Supervision.Launch.{
  LaunchAdmission, LaunchPlan, refused, counted, launch_delay, upsert_launch, perform_launch,
  plan_launch, launch_attempt, run_shutdown, admit_session_launch, launch_failed, settle_failure,
  fail_session_launch,
}
use coterie.Store.Supervision.Crashes.{
  recent_failures, announce_crashes, count_failure, failure_row, failure_quarantined,
  record_session_failure, is_unstarted, announce_unstarted, agent_quarantined,
  quarantine_unstarted_agent,
}
use coterie.Store.Supervision.Launch.Failures.{settled}
use coterie.Store.Supervision.Shutdown.Frame.{drain_assignment-controls}
use coterie.Store.Supervision.Controls.{
  control_row, is_new_control, control_phase_eq, control_phase_set, announce_control, drain_owner,
  request_session_control, set_control_phase, mark_control_delivered,
}

-- The transaction leaves the shutdowns alone when it returns.
abbrev pub Keeps : {A : Type 0} → Tx A → Type 0
Keeps {A} m = (db : Db) (a : A) (db' : Db) → m db ≡ ok (a, db') → db'.shutdowns ≡ db.shutdowns

pub OnlyLogs-Keeps : {A : Type 0} (m : Tx A) → OnlyLogs m → Keeps m
OnlyLogs-Keeps m logs db a db' h = (logs db a db' h).shutdowns

pub then-Keeps : {B : Type 0} (m : Tx (Unit {0})) (k : Tx B) → Keeps m → Keeps k → Keeps (m >> k)
then-Keeps m k hm hk db b db' h =
    let (mid, first, second) = then-eq-ok m k db h in hk mid b db' second ∙ hm db tt mid first

if_current-Keeps :
    (s : SessionScope) (observe : SessionRecord → Tx SessionTransitionOutcome)
    → ((r : SessionRecord) → Keeps (observe r))
    → Keeps (if_current s observe)
if_current-Keeps s observe keep db o db' h = elim (current_step s observe db h) [
  | outdated _ e ↦ ap (λ (d : Db). d.shutdowns) e
  | current r _ _ run ↦ keep r db o db' run
]

activate-Keeps : (c : SessionCredentialRecord) → Keeps (activate_session_credential c)
unfolding revoke_credentials insert_session_credential
activate-Keeps c db u db' h =
    let (_, _, mid, first, second) = activate_step c db h in
    let one : mid.shutdowns ≡ db.shutdowns = ground (arith, first) in
    let two : db'.shutdowns ≡ mid.shutdowns = ground (arith, second) in two ∙ one

lifecycle-Keeps :
    (s : SessionScope) (next : LifecycleState) (at : ℕ) → Keeps (record_session_lifecycle s next at)
lifecycle-Keeps s next at db o db' h = elim (lifecycle_step s next at db h) [
  | same e _ ↦ ap (λ (d : Db). d.shutdowns) e
  | old e _ ↦ ap (λ (d : Db). d.shutdowns) e
  | alive _ _ _ _ _ _ e ↦ ap (λ (d : Db). d.shutdowns) e
  | ended _ _ _ _ _ _ e ↦ ap (λ (d : Db). d.shutdowns) e
]

restart-Keeps :
    (run_id agent_id cur next : ℕ) → Keeps (start_agent_generation run_id agent_id cur next)
restart-Keeps run_id agent_id cur next db b db' h =
    elim (restart_step run_id agent_id cur next db h) [
      | refuse _ e ↦ ap (λ (d : Db). d.shutdowns) e
      | restart _ _ _ e ↦ ap (λ (d : Db). d.shutdowns) e
    ]

pub keep_shutdowns : {db db' : Db} → SessionStep db db' → db'.shutdowns ≡ db.shutdowns
unfolding insert_run mark_run_active stop_run insert_agent insert_session
    replace_desired_session_credential observe_launch observe_reconciliation
    record_session_launch_observation record_session_reconciliation_state
keep_shutdowns {db} {db'} (run_inserted r h) = ground (arith, h)
keep_shutdowns {db} {db'} (run_reactivated id h) = ground (arith, h)
keep_shutdowns {db} {db'} (run_stopped id at h) = ground (arith, h)
keep_shutdowns {db} {db'} (spawn_given_up env r a o n h) =
    elim (unstarted_step env r a o n db db' h) [
      | left_alone e ↦ ap (λ (d : Db). d.shutdowns) e
      | given_up _ logs ↦ logs.shutdowns
    ]
keep_shutdowns {db} {db'} (agent_inserted a h) = ground (arith, h)
keep_shutdowns {db} {db'} (generation_started r a c n b h) = restart-Keeps r a c n db b db' h
keep_shutdowns {db} {db'} (session_inserted s h) = ground (arith, h)
keep_shutdowns {db} {db'} (launch_recorded s id at o h) =
    if_current-Keeps s (observe_launch s id at) (λ r d o d' run. ground (arith, run)) db o db' h
keep_shutdowns {db} {db'} (reconciliation_recorded s state at o h) =
    if_current-Keeps s (observe_reconciliation s state at) (λ r d o d' run. ground (arith, run)) db
      o db' h
keep_shutdowns {db} {db'} (lifecycle_recorded s next at o h) = lifecycle-Keeps s next at db o db' h
keep_shutdowns {db} {db'} (credential_activated c h) = activate-Keeps c db tt db' h
keep_shutdowns {db} {db'} (credential_replaced c h) = ground (arith, h)

announce_deadline-Keeps :
    (env : Env) (s : SessionScope) (deadline_at now_ms : ℕ)
    → Keeps (announce_deadline env s deadline_at now_ms)
unfolding announce_deadline
announce_deadline-Keeps env s deadline_at now_ms db u db' h =
    (supervision_event-OnlyLogs env s.run_id EventKind.session_deadline_approaching _ _ _ _ _ now_ms
      db u db' h).shutdowns

pub warn-Keeps :
    (env : Env) (s : SessionScope) (deadline_at now_ms : ℕ)
    → Keeps (warn_job_deadline env s deadline_at now_ms)
unfolding warn_job_deadline
warn-Keeps env s deadline_at now_ms db u db' h =
    elim (Bool-cases
      (not (session_scope_is_current db s) || exists_where (is_warned env s) db.events)) [
        | inl done ↦ ground (arith, h, done)
        | inr due ↦
            announce_deadline-Keeps env s deadline_at now_ms db u db' (ground (arith, h, due))
      ]

upsert-Keeps :
    (s : SessionScope) (window attempts next : ℕ) → Keeps (upsert_launch s window attempts next)
unfolding upsert_launch
upsert-Keeps s window attempts next db u db' h =
    elim (Bool-cases (exists_where (λ r. r.scope.session_id == s.session_id) db.launch_attempts)) [
      | inl old_one ↦ ground (arith, h, old_one)
      | inr new_one ↦ ground (arith, h, new_one)
    ]

perform-Keeps :
    (s : SessionScope) (now : ℕ) (policy : SupervisionPolicy) (plan : LaunchPlan)
    → Keeps (perform_launch s now policy plan)
perform-Keeps s now policy (refused a) db b db' h = ground (arith, h)
perform-Keeps s now policy (counted window attempts) db b db' h =
    then-Keeps (upsert_launch s window attempts (saturating_add now (launch_delay policy attempts)))
      (return LaunchAdmission.allowed)
      (upsert-Keeps s window attempts (saturating_add now (launch_delay policy attempts)))
      (λ d x d' e. ground (arith, e)) db b db' h

pub admit-Keeps :
    (s : SessionScope) (now : ℕ) (policy : SupervisionPolicy)
    → Keeps (admit_session_launch s now policy)
unfolding admit_session_launch
admit-Keeps s now policy db a db' h =
    elim (Bool-cases (not (session_scope_is_current db s) || is_some (run_shutdown db s.run_id))) [
      | inl closed ↦ ground (arith, h, closed)
      | inr open_yet ↦
          perform-Keeps s now policy (plan_launch (launch_attempt db s.session_id) now policy) db a
            db' (ground (arith, h, open_yet))
    ]

fail_found :
    (env : Env) (s : SessionScope) (now : ℕ) (policy : SupervisionPolicy) (db db' : Db) (b : Bool)
    → session_scope_is_current db s ≡ true
    → fail_session_launch env s now policy db ≡ ok (b, db')
    → (q : Bool) × (settle_failure env s now policy q (launch_failed s policy db) ≡ ok (b, db'))
unfolding fail_session_launch
fail_found env s now policy db db' b cur h =
    elim (Option-cases (launch_attempt (launch_failed s policy db) s.session_id)) [
      | inl e ↦ absurd (ground (arith, h, cur, e))
      | inr (r, e) ↦ (r.quarantined, ground (arith, h, cur, e))
    ]

pub fail-Keeps :
    (env : Env) (s : SessionScope) (now : ℕ) (policy : SupervisionPolicy)
    → Keeps (fail_session_launch env s now policy)
unfolding fail_session_launch
fail-Keeps env s now policy db b db' h = elim (Bool-cases (session_scope_is_current db s)) [
  | inr over ↦ ground (arith, h, over)
  | inl cur ↦
      let (q, run) = fail_found env s now policy db db' b cur h in
      (settled env s now policy q (launch_failed s policy db) db' b run).2
]
