-- ===== src/Store/Supervision/Shutdown/Steps.antt =====
-- src/state/supervision.rs: what an operation does to the table `run_shutdowns`.
use coterie.Prelude.{
  ℕ, ◌/◌, ◌≡◌, ◌∙◌, sym, ap, subst, String, some, none, false, not, ◌||◌, is_some, List, [], ◌∷◌,
  ◌++◌, ◌==◌, arith, Bool-cases, Option-cases, inl, inr,
}
use coterie.Json.{Json}
use coterie.Sql.{select_first, update_where}
use coterie.Store.Records.{AgentRecord, observed}
use coterie.Store.Control.{ShutdownPhase, completed, RunShutdown}
use coterie.Store.Event.{EventKind}
use coterie.Store.Tx.{ok, Env, Db, ◌>>◌, return, then-eq-ok, bind-eq-ok}
use coterie.Store.Mutate.{operation_admitted, insert_operation}
use coterie.Store.Rows.{run, operation, active_assignment_for_agent}
use coterie.Store.Operations.{record_operation_reconciliation}
use coterie.Store.Supervision.Frame.{supervision_event-OnlyLogs}
use coterie.Store.Supervision.Launch.{run_shutdown}
use coterie.Store.Supervision.Keeps.{Keeps, then-Keeps}
use coterie.Store.Supervision.Keeps.Reports.{reconciliation-Keeps}
use coterie.Store.Supervision.Shutdown.{
  shutdown_phase_eq, shutdown_admitted, insert_shutdown, drain_agent, drain_agents, agents_of,
  stop_operation, shutdown_row, perform_shutdown, is_active, begin_run_shutdown, phase_set,
  change_phase, announce_shutdown, announce_change, set_shutdown_phase, operation_completed,
  finish_operation, complete_shutdown_operation,
}
use coterie.Store.Supervision.Shutdown.Frame.{drain_assignment-controls}

-- The shutdowns stay, are joined by one of a run that had none, or one that is not completed changes
-- its phase.
pub data ShutdownsStep (xs ys : List RunShutdown) : Type 0 where
  shutdowns_kept : ys ≡ xs → ShutdownsStep xs ys
  shutdown_added :
      (s : RunShutdown)
      → select_first (λ r. r.run_id == s.run_id) xs ≡ none
      → ys ≡ xs ++ s ∷ []
      → ShutdownsStep xs ys
  phase_changed :
      (run_id : ℕ) (phase : ShutdownPhase) (s : RunShutdown)
      → select_first (λ r. r.run_id == run_id) xs ≡ some s
      → shutdown_phase_eq s.phase completed ≡ false
      → ys ≡ update_where (λ r. r.run_id == run_id) (λ r. record r { phase = phase }) xs
      → ShutdownsStep xs ys

drain_agent-Keeps :
    (env : Env) (run_id now_ms : ℕ) (a : AgentRecord) → Keeps (drain_agent env run_id now_ms a)
unfolding drain_agent
drain_agent-Keeps env run_id now_ms a db u db' h =
    elim (Option-cases (active_assignment_for_agent db run_id a.id)) [
      | inl e ↦ ground (arith, h, e)
      | inr (x, e) ↦ (drain_assignment-controls env x now_ms db db' (ground (arith, h, e))).1
    ]

drain_agents-Keeps :
    (env : Env) (run_id now_ms : ℕ) (agents : List AgentRecord)
    → Keeps (drain_agents env run_id now_ms agents)
unfolding drain_agents
drain_agents-Keeps env run_id now_ms [] db u db' h = ground (arith, h)
drain_agents-Keeps env run_id now_ms (a ∷ rest) db u db' h =
    then-Keeps (drain_agent env run_id now_ms a) (drain_agents env run_id now_ms rest)
      (drain_agent-Keeps env run_id now_ms a) (drain_agents-Keeps env run_id now_ms rest) db u db' h

insert_operation-Keeps :
    (run_id id now_ms : ℕ) → Keeps (insert_operation (stop_operation run_id id now_ms))
unfolding insert_operation
insert_operation-Keeps run_id id now_ms db u db' h =
    elim (Bool-cases (operation_admitted db (stop_operation run_id id now_ms))) [
      | inl pass ↦ ground (arith, h, pass)
      | inr fail ↦ absurd (ground (arith, h, fail))
    ]

insert_shutdown_adds :
    (s : RunShutdown) (db db' : Db)
    → insert_shutdown s db ≡ ok (tt, db')
    → db'.shutdowns ≡ db.shutdowns ++ s ∷ []
unfolding insert_shutdown
insert_shutdown_adds s db db' h = elim (Bool-cases (shutdown_admitted db s)) [
  | inl pass ↦ ground (arith, h, pass)
  | inr fail ↦ absurd (ground (arith, h, fail))
]

announce_shutdown-Keeps :
    (env : Env) (run_id id now_ms : ℕ) → Keeps (announce_shutdown env run_id id now_ms)
unfolding announce_shutdown
announce_shutdown-Keeps env run_id id now_ms d u d' e =
    (supervision_event-OnlyLogs env run_id EventKind.run_shutdown_changed _ _ _ _ _ _ d u d'
      e).shutdowns

announce_change-Keeps :
    (env : Env) (s : RunShutdown) (run_id : ℕ) (phase : ShutdownPhase) (now_ms : ℕ)
    → Keeps (announce_change env s run_id phase now_ms)
unfolding announce_change
announce_change-Keeps env s run_id phase now_ms d u d' e =
    (supervision_event-OnlyLogs env run_id EventKind.run_shutdown_changed _ _ _ _ _ _ d u d'
      e).shutdowns

pub perform_adds :
    (env : Env) (run_id id now_ms grace_ms timeout_ms : ℕ) (db db' : Db)
    → perform_shutdown env run_id id now_ms grace_ms timeout_ms db ≡ ok (tt, db')
    → db'.shutdowns ≡ db.shutdowns ++ shutdown_row run_id id now_ms grace_ms timeout_ms ∷ []
unfolding perform_shutdown
perform_adds env run_id id now_ms grace_ms timeout_ms db db' h =
    let row = shutdown_row run_id id now_ms grace_ms timeout_ms in
    let (c, h2, h3) =
      then-eq-ok
        (insert_operation (stop_operation run_id id now_ms)
          >> insert_shutdown row
          >> announce_shutdown env run_id id now_ms)
        (λ x. drain_agents env run_id now_ms (agents_of x run_id) x) db h in
    let (b, h1, h4) =
      then-eq-ok (insert_operation (stop_operation run_id id now_ms) >> insert_shutdown row)
        (announce_shutdown env run_id id now_ms) db h2 in
    let (a, h0, h5) =
      then-eq-ok (insert_operation (stop_operation run_id id now_ms)) (insert_shutdown row) db h1 in
    drain_agents-Keeps env run_id now_ms (agents_of c run_id) c tt db' h3
    ∙ announce_shutdown-Keeps env run_id id now_ms b tt c h4
    ∙ insert_shutdown_adds row a b h5
    ∙ ap (λ xs. xs ++ row ∷ []) (insert_operation-Keeps run_id id now_ms db tt a h0)

pub begin_step :
    (env : Env) (run_id id now_ms grace_ms timeout_ms : ℕ) (db db' : Db)
    → begin_run_shutdown env run_id id now_ms grace_ms timeout_ms db ≡ ok (tt, db')
    → ShutdownsStep db.shutdowns db'.shutdowns
unfolding begin_run_shutdown run_shutdown
begin_step env run_id id now_ms grace_ms timeout_ms db db' h =
    elim (Option-cases (run_shutdown db run_id)) [
      | inr (s, e) ↦ shutdowns_kept (ground (arith, h, e))
      | inl e ↦ elim (Bool-cases (is_some (operation db id) || not (is_active (run db run_id)))) [
        | inl bad ↦ absurd (ground (arith, h, e, bad))
        | inr fine ↦ shutdown_added (shutdown_row run_id id now_ms grace_ms timeout_ms) e (
            perform_adds env run_id id now_ms grace_ms timeout_ms db db'
              (ground (arith, h, e, fine)))
      ]
    ]

pub set_phase_step :
    (env : Env) (run_id : ℕ) (phase : ShutdownPhase) (now_ms : ℕ) (db db' : Db)
    → set_shutdown_phase env run_id phase now_ms db ≡ ok (tt, db')
    → ShutdownsStep db.shutdowns db'.shutdowns
unfolding set_shutdown_phase run_shutdown change_phase
set_phase_step env run_id phase now_ms db db' h = elim (Option-cases (run_shutdown db run_id)) [
  | inl e ↦ shutdowns_kept (ground (arith, h, e))
  | inr (s, e) ↦
      elim (Bool-cases (shutdown_phase_eq s.phase phase || shutdown_phase_eq s.phase completed)) [
        | inl skip ↦ shutdowns_kept (ground (arith, h, e, skip))
        | inr new ↦ phase_changed run_id phase s e (ground (arith, new)) (
            announce_change-Keeps env s run_id phase now_ms (phase_set run_id phase db) tt db'
              (ground (arith, h, e, new)))
      ]
]

finish-Keeps :
    (redact : String → String) (env : Env) (id : ℕ) (response : Json) (now_ms : ℕ)
    → Keeps (finish_operation redact env id response now_ms)
unfolding finish_operation
finish-Keeps redact env id response now_ms db u db' h =
    let after : Db = operation_completed id response now_ms db in
    let (o, mid, first, second) =
      bind-eq-ok (record_operation_reconciliation redact env id observed none (now_ms / 1000))
        (λ x. return tt) after h in
    let same : db' ≡ mid = ground (arith, second) in
    ap (λ (d : Db). d.shutdowns) same
    ∙ reconciliation-Keeps redact env id observed none (now_ms / 1000) after o mid first

pub complete_step :
    (redact : String → String) (env : Env) (run_id : ℕ) (response : Json) (now_ms : ℕ) (db db' : Db)
    → complete_shutdown_operation redact env run_id response now_ms db ≡ ok (tt, db')
    → ShutdownsStep db.shutdowns db'.shutdowns
unfolding complete_shutdown_operation
complete_step redact env run_id response now_ms db db' h =
    elim (Option-cases (run_shutdown db run_id)) [
      | inl e ↦ absurd (ground (arith, h, e))
      | inr (s, e) ↦
          let (mid, first, second) =
            then-eq-ok (set_shutdown_phase env run_id completed now_ms)
              (finish_operation redact env s.operation_id response now_ms) db
              (ground (arith, h, e)) in
          subst (ShutdownsStep db.shutdowns)
            (sym (finish-Keeps redact env s.operation_id response now_ms mid tt db' second))
            (set_phase_step env run_id completed now_ms db mid first)
    ]
