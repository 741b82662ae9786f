-- ===== src/Store/Operations/Laws.antt =====
-- src/state.rs: a report on an operation that is made again.
use coterie.Prelude.{
  ℕ, ◌+◌, ◌≡◌, ◌∙◌, refl, sym, ap, true, false, Option, some, none, String, str_eq, ◌==◌, is_none,
  arith, eq_iff, Bool-cases, inl, inr,
}
use coterie.Sql.Laws.{select_first-update_where, select_first_test}
use coterie.Store.Records.{
  OperationRecord, ExternalResourceState, resource_eq, ResourceTransitionOutcome, unchanged,
}
use coterie.Store.Tx.{ok, Env, Db, return, then-eq-ok}
use coterie.Store.Rows.{operation}
use coterie.Store.Transitions.{opt_str_eq}
use coterie.Store.Events.{append_event}
use coterie.Store.Events.Frame.{OnlyLogs, append_event-OnlyLogs, bind-OnlyLogs, return-OnlyLogs}
use coterie.Store.Operations.{
  reconciliation_event, append_operation_reconciliation_event, is_reconciled, reconciled,
  same_report, record_report, redacted, record_operation_reconciliation,
}

pub append_operation_reconciliation_event-OnlyLogs :
    (env : Env) (o : OperationRecord) (previous : Option ExternalResourceState)
    (state : ExternalResourceState) (error : Option String) (at : ℕ)
    → OnlyLogs (append_operation_reconciliation_event env o previous state error at)
unfolding append_operation_reconciliation_event
append_operation_reconciliation_event-OnlyLogs env o previous state error at =
    bind-OnlyLogs (append_event env (reconciliation_event env o previous state error at))
      (λ e. return tt) (append_event-OnlyLogs env _) (λ e. return-OnlyLogs tt)

-- A report writes the operations' columns whatever it finds.
report_operations :
    (env : Env) (o : OperationRecord) (state : ExternalResourceState) (error : Option String)
    (at : ℕ) (db db' : Db) (outcome : ResourceTransitionOutcome)
    → record_report env o state error at db ≡ ok (outcome, db')
    → db'.operations ≡ (reconciled o.id state error at db).operations
unfolding record_report
report_operations env o state error at db db' outcome h =
    elim (Bool-cases (same_report o state error)) [
      | inl same ↦ ground (arith, h, same)
      | inr new ↦
          let (mid, first, second) =
            then-eq-ok
              (append_operation_reconciliation_event env o o.reconciliation_state state error at)
              (return ResourceTransitionOutcome.applied) (reconciled o.id state error at db)
              {b = outcome} {db'' = db'} (ground (arith, h, new)) in
          let same : db' ≡ mid = ground (arith, second) in
          ap (λ (d : Db). d.operations) same
          ∙ (append_operation_reconciliation_event-OnlyLogs env o o.reconciliation_state state error
              at (reconciled o.id state error at db) tt mid first).operations
    ]

-- The operation after a report.
abbrev reported : ExternalResourceState → Option String → ℕ → OperationRecord → OperationRecord
reported state error at o = record o {
  reconciliation_state = some state;
  reconciliation_attempt_count = o.reconciliation_attempt_count + 1;
  reconciliation_error = error;
  reconciled_at = some at;
}

operation-reported :
    (env : Env) (o : OperationRecord) (id : ℕ) (state : ExternalResourceState)
    (error : Option String) (at : ℕ) (db db' : Db) (outcome : ResourceTransitionOutcome)
    → operation db id ≡ some o
    → is_none o.reconciliation_state ≡ false
    → record_report env o state error at db ≡ ok (outcome, db')
    → operation db' id ≡ some (reported state error at o)
unfolding operation
operation-reported env o id state error at db db' outcome found known h =
    let here = select_first_test (λ r. r.id == id) db.operations o found in
    rw (report_operations env o state error at db db' outcome h) (
      select_first-update_where (λ r. r.id == id) (is_reconciled o.id) (reported state error at)
        db.operations (λ r. refl)
      ∙ rw found (ground (arith, known, here)))

str_eq_same : (s : String) → str_eq s s ≡ true
str_eq_same s = (eq_iff s s).1 refl

resource_eq_same : (r : ExternalResourceState) → resource_eq r r ≡ true
unfolding resource_eq
resource_eq_same r = ground arith

opt_str_eq_same : (o : Option String) → opt_str_eq o o ≡ true
opt_str_eq_same none = refl
opt_str_eq_same (some s) = str_eq_same s

reported-same_report :
    (state : ExternalResourceState) (error : Option String) (at : ℕ) (o : OperationRecord)
    → same_report (reported state error at o) state error ≡ true
unfolding same_report
reported-same_report state error at o =
    ground (arith, resource_eq_same state, opt_str_eq_same error)

module _ (redact : String → String) (env : Env) (id : ℕ) (state : ExternalResourceState)
    (error : Option String) where
  record_found :
      (at : ℕ) (db : Db) (o : OperationRecord)
      → operation db id ≡ some o
      → is_none o.reconciliation_state ≡ false
      → record_operation_reconciliation redact env id state error at db
        ≡ record_report env o state (redacted redact error) at db
  unfolding record_operation_reconciliation
  record_found at db o found known = ground (arith, found, known)

-- A report that was recorded is what the operation carries, with one more attempt; the same report
-- again answers that nothing changed, writes no event, and counts one more attempt.
pub record_operation_reconciliation_again :
    (redact : String → String) (env : Env) (id : ℕ) (state : ExternalResourceState)
    (error : Option String) (at later : ℕ) (db db' : Db) (outcome : ResourceTransitionOutcome)
    (o : OperationRecord)
    → operation db id ≡ some o
    → is_none o.reconciliation_state ≡ false
    → record_operation_reconciliation redact env id state error at db ≡ ok (outcome, db')
    → (operation db' id
        ≡ some (record o {
          reconciliation_state = some state;
          reconciliation_attempt_count = o.reconciliation_attempt_count + 1;
          reconciliation_error = redacted redact error;
          reconciled_at = some at;
        }))
      × (record_operation_reconciliation redact env id state error later db'
          ≡ ok (unchanged, reconciled o.id state (redacted redact error) later db'))
unfolding record_report
record_operation_reconciliation_again redact env id state error at later db db' outcome o found
      known h =
    let run = sym (record_found redact env id state error at db o found known) ∙ h in
    let there =
      operation-reported env o id state (redacted redact error) at db db' outcome found known run in
    let again = reported state (redacted redact error) at o in
    (
      there,
      record_found redact env id state error later db' again there refl
          ∙ rw (reported-same_report state (redacted redact error) at o) refl,
    )
