-- ===== src/Store/Supervision/Shutdown/Frame.antt =====
-- Draining an assignment, and the tables beside it. (src/state/supervision.rs)
use coterie.Prelude.{ℕ, ◌≡◌, ◌∙◌, refl, str_eq, arith, subst, if◌then◌else◌, Bool-cases, inl, inr}
use coterie.Store.Records.{AssignmentRecord}
use coterie.Store.Tx.{ok, Env, Db, return}
use coterie.Store.Events.{append_event}
use coterie.Store.Events.Frame.{
  Logs, Logs-refl, append_event-OnlyLogs, bind-OnlyLogs, return-OnlyLogs,
}
use coterie.Store.Supervision.Shutdown.{drained, draining_event, drain_assignment}

-- The assignment is left alone, or set to draining and logged.
pub drain_step :
    (env : Env) (a : AssignmentRecord) (now_ms : ℕ) (db db' : Db)
    → drain_assignment env a now_ms db ≡ ok (tt, db')
    → (mid : Db) × (Logs mid db')
      × (mid ≡ (if str_eq a.state "draining" then db else drained a.id db))
unfolding drain_assignment
drain_step env a now_ms db db' h = elim (Bool-cases (str_eq a.state "draining")) [
  | inl done ↦ (db, subst (Logs db) (ground (arith, h, done)) (Logs-refl db), rw done refl)
  | inr open_yet ↦ (
    drained a.id db,
    bind-OnlyLogs (append_event env (draining_event env a now_ms)) (λ e. return tt)
        (append_event-OnlyLogs env _) (λ e. return-OnlyLogs tt) (drained a.id db) tt db'
        (ground (arith, h, open_yet)),
    rw open_yet refl,
  )
]

pub drain_assignment-controls :
    (env : Env) (a : AssignmentRecord) (now_ms : ℕ) (db db' : Db)
    → drain_assignment env a now_ms db ≡ ok (tt, db')
    → (db'.controls ≡ db.controls) × (db'.shutdowns ≡ db.shutdowns)
drain_assignment-controls env a now_ms db db' h =
    let (mid, logs, e) = drain_step env a now_ms db db' h in
    (logs.controls ∙ ground (arith, e), logs.shutdowns ∙ ground (arith, e))
