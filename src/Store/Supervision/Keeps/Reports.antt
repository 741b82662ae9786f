-- ===== src/Store/Supervision/Keeps/Reports.antt =====
-- The reports of reconciliation and of crashes, and the table `run_shutdowns`. (src/state.rs and
-- src/state/supervision.rs)
use coterie.Prelude.{
  ℕ, String, Option, true, not, ◌||◌, is_none, leb, [], ◌∷◌, ◌++◌, ◌==◌, arith, Bool-cases,
  Option-cases, inl, inr,
}
use coterie.Config.{SupervisionPolicy}
use coterie.Sql.{exists_where}
use coterie.Store.Records.{ExternalResourceState, OperationRecord, ResourceTransitionOutcome}
use coterie.Store.Control.{SessionScope}
use coterie.Store.Tx.{Env, return}
use coterie.Store.Keys.{has_session}
use coterie.Store.Rows.{session_scope_is_current, operation}
use coterie.Store.Event.{EventKind}
use coterie.Store.Operations.{
  record_report, same_report, record_operation_reconciliation,
  append_operation_reconciliation_event, reconciled, redacted,
}
use coterie.Store.Operations.Laws.{append_operation_reconciliation_event-OnlyLogs}
use coterie.Store.Supervision.{saturating_add}
use coterie.Store.Supervision.Frame.{supervision_event-OnlyLogs}
use coterie.Store.Supervision.Crashes.{
  recent_failures, announce_crashes, count_failure, failure_row, failure_quarantined,
  record_session_failure,
}
use coterie.Store.Supervision.Keeps.{Keeps, OnlyLogs-Keeps, then-Keeps}

report-Keeps :
    (env : Env) (o : OperationRecord) (state : ExternalResourceState) (error : Option String)
    (at : ℕ)
    → Keeps (record_report env o state error at)
unfolding record_report
report-Keeps env o state error at db outcome db' h = elim (Bool-cases (same_report o state error)) [
  | inl same_one ↦ ground (arith, h, same_one)
  | inr new ↦
      then-Keeps (append_operation_reconciliation_event env o o.reconciliation_state state error at)
        (return ResourceTransitionOutcome.applied)
        (OnlyLogs-Keeps _ (
          append_operation_reconciliation_event-OnlyLogs env o o.reconciliation_state state error
            at))
        (λ d x d' e. ground (arith, e)) (reconciled o.id state error at db) outcome db'
        (ground (arith, h, new))
]

pub reconciliation-Keeps :
    (redact : String → String) (env : Env) (id : ℕ) (state : ExternalResourceState)
    (error : Option String) (at : ℕ)
    → Keeps (record_operation_reconciliation redact env id state error at)
unfolding record_operation_reconciliation
reconciliation-Keeps redact env id state error at db outcome db' h =
    elim (Option-cases (operation db id)) [
      | inl e ↦ ground (arith, h, e)
      | inr (o, e) ↦ elim (Bool-cases (is_none o.reconciliation_state)) [
        | inl local ↦ ground (arith, h, e, local)
        | inr known ↦
            report-Keeps env o state (redacted redact error) at db outcome db'
              (ground (arith, h, e, known))
      ]
    ]

announce_crashes-Keeps :
    (env : Env) (s : SessionScope) (now : ℕ) (policy : SupervisionPolicy) (failures : ℕ)
    → Keeps (announce_crashes env s now policy failures)
unfolding announce_crashes
announce_crashes-Keeps env s now policy failures d u d' e =
    (supervision_event-OnlyLogs env s.run_id EventKind.session_restart_limited _ _ _ _ _ _ d u d'
      e).shutdowns

count-Keeps :
    (env : Env) (s : SessionScope) (now : ℕ) (policy : SupervisionPolicy)
    → Keeps (count_failure env s now policy)
unfolding count_failure
count-Keeps env s now policy db b db' h =
    let failures = recent_failures db s.run_id s.agent_id now policy in
    elim (Bool-cases (leb policy.max_launch_attempts failures)) [
      | inr few ↦ ground (arith, h, few)
      | inl full ↦
          then-Keeps (announce_crashes env s now policy failures) (return true)
            (announce_crashes-Keeps env s now policy failures) (λ d x d' e. ground (arith, e))
            (failure_quarantined s (saturating_add now policy.restart_window_seconds) db) b db'
            (ground (arith, h, full))
    ]

pub failure-Keeps :
    (env : Env) (s : SessionScope) (now : ℕ) (policy : SupervisionPolicy)
    → Keeps (record_session_failure env s now policy)
unfolding record_session_failure
failure-Keeps env s now policy db b db' h =
    elim (Bool-cases (
      not (session_scope_is_current db s)
      || exists_where (λ f. f.session_id == s.session_id) db.failures)) [
        | inl skip ↦ ground (arith, h, skip)
        | inr new ↦ elim (Bool-cases (has_session db s.run_id s.agent_id s.session_id)) [
          | inr gone ↦ absurd (ground (arith, h, new, gone))
          | inl there ↦
              count-Keeps env s now policy
                (record db { failures = db.failures ++ failure_row s now ∷ [] }) b db'
                (ground (arith, h, new, there))
        ]
      ]
