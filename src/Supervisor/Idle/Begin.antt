-- ===== src/Supervisor/Idle/Begin.antt =====
-- src/supervisor/idle.rs: the shutdown that an idle run begins.
use coterie.Prelude.{
  ℕ, ◌≡◌, ◌∙◌, refl, ap, subst, true, not, ◌||◌, is_some, Option, some, none, [], ◌∷◌, ◌++◌, ◌==◌,
  arith, Bool-cases, inl, inr,
}
use coterie.Sql.Laws.{select_first-append, select_first_one}
use coterie.Sql.Exists.{select_first-none}
use coterie.Store.Tx.{Result, ok, err, Env, Db, Tx, ◌>>=◌, return, run_transaction, then-eq-ok}
use coterie.Store.Events.{append_event}
use coterie.Store.Events.Frame.{append_event-OnlyLogs, bind-OnlyLogs, return-OnlyLogs}
use coterie.Store.Rows.{run, operation}
use coterie.Store.Supervision.{is_idle, idle_shutdown_cursor}
use coterie.Store.Supervision.Launch.{run_shutdown}
use coterie.Store.Supervision.Shutdown.{shutdown_row, is_active, begin_run_shutdown}
use coterie.Store.Supervision.Shutdown.Steps.{perform_adds}
use coterie.Supervisor.Idle.Laws.{due-policy}
use coterie.Supervisor.Idle.{
  IdleShutdown, due, idle_event, begin_idle_shutdown, begin_now, begin_if_due,
}

transaction_ok :
    {A : Type 0} (m : Tx A) (db : Db) (a : A)
    → (run_transaction m db).0 ≡ ok a
    → m db ≡ ok (a, (run_transaction m db).1)
unfolding run_transaction
transaction_ok {A} m db a h = go (m db) h
  where
    go :
        (r : Result (A × Db))
        → (elim r as (λ x. Result A × Db) [ ok (b, d) ↦ (ok b, d) | err e ↦ (err e, db) ]).0 ≡ ok a
        → r
          ≡ ok (
            a,
            (elim r as (λ x. Result A × Db) [ ok (b, d) ↦ (ok b, d) | err e ↦ (err e, db) ]).1,
          )
    go (ok (b, d)) e = ground (arith, e)
    go (err x) e = absurd (ground (arith, e))

-- A run with an idle cursor has no shutdown.
idle_unstopped :
    (db : Db) (run_id : ℕ)
    → is_some (idle_shutdown_cursor db run_id) ≡ true
    → (is_idle db run_id ≡ true) × (run_shutdown db run_id ≡ none)
unfolding idle_shutdown_cursor run_shutdown is_idle
idle_unstopped db run_id h = elim (Bool-cases (is_idle db run_id)) [
  | inr busy ↦ absurd (ground (arith, h, busy))
  | inl idle ↦ (idle, select_first-none _ db.shutdowns (ground (arith, idle)))
]

-- A first shutdown that begins adds its row.
begin_adds :
    (env : Env) (run_id id now_ms grace_ms timeout_ms : ℕ) (db db' : Db)
    → run_shutdown db run_id ≡ none
    → begin_run_shutdown env run_id id now_ms grace_ms timeout_ms db ≡ ok (tt, db')
    → db'.shutdowns ≡ db.shutdowns ++ shutdown_row run_id id now_ms grace_ms timeout_ms ∷ []
unfolding begin_run_shutdown
begin_adds env run_id id now_ms grace_ms timeout_ms db db' e h =
    elim (Bool-cases (is_some (operation db id) || not (is_active (run db run_id)))) [
      | inl bad ↦ absurd (ground (arith, h, e, bad))
      | inr fine ↦
          perform_adds env run_id id now_ms grace_ms timeout_ms db db' (ground (arith, h, e, fine))
    ]

begun_row :
    (env : Env) (idle : IdleShutdown) (run_id id now_ms : ℕ) (db db' : Db)
    → run_shutdown db run_id ≡ none
    → begin_idle_shutdown env idle run_id id now_ms db ≡ ok (true, db')
    → run_shutdown db' run_id
      ≡ some (
          shutdown_row run_id id now_ms idle.policy.interrupt_grace_ms
            idle.policy.shutdown_timeout_ms)
unfolding begin_idle_shutdown run_shutdown
begun_row env idle run_id id now_ms db db' e h =
    let row =
      shutdown_row run_id id now_ms idle.policy.interrupt_grace_ms
        idle.policy.shutdown_timeout_ms in
    let log = append_event env (idle_event env idle run_id id now_ms) in
    let (mid, first, second) =
      then-eq-ok
        (begin_run_shutdown env run_id id now_ms idle.policy.interrupt_grace_ms
          idle.policy.shutdown_timeout_ms)
        (log >>= λ x. return true) db h in
    let logs =
      bind-OnlyLogs log (λ x. return true) (append_event-OnlyLogs env _) (λ x. return-OnlyLogs true)
        mid true db' second in
    rw (logs.shutdowns, begin_adds env run_id id now_ms _ _ db mid e first)
      (select_first-append _ db.shutdowns (row ∷ []) e ∙ select_first_one _ row (ground arith))

due_cursor :
    (idle : IdleShutdown) (cursor : Option ℕ) (now : ℕ)
    → (due idle cursor now).0 ≡ true
    → is_some cursor ≡ true
unfolding due
due_cursor idle none now h = absurd (ground (arith, h))
due_cursor idle (some c) now h = refl

due-policies :
    (idle : IdleShutdown) (cursor : Option ℕ) (now : ℕ)
    → (due idle cursor now).1.policy ≡ idle.policy
unfolding due
due-policies idle none now = refl
due-policies idle (some c) now = due-policy idle c now

-- What a timer that begins a shutdown has done.
began :
    (env : Env) (idle idle' : IdleShutdown) (run_id id now now_ms : ℕ) (db db' : Db)
    → begin_if_due env idle run_id id now now_ms db ≡ (ok true, idle', db')
    → ((due idle (idle_shutdown_cursor db run_id) now).0 ≡ true)
      × (begin_now env (due idle (idle_shutdown_cursor db run_id) now).1 run_id id now_ms db
          ≡ (ok true, idle', db'))
unfolding begin_if_due
began env idle idle' run_id id now now_ms db db' h =
    elim (Bool-cases (idle.policy.idle_timeout_seconds == 0)) [
      | inl off ↦ absurd (ground (arith, h, off))
      | inr on ↦ elim (Bool-cases (due idle (idle_shutdown_cursor db run_id) now).0) [
        | inr early ↦ absurd (ground (arith, h, on, early))
        | inl late ↦ (late, ground (arith, h, on, late))
      ]
    ]

-- If the idle timer begins a shutdown, the run was idle, its cursor was due, and its shutdown is the
-- new one, with the deadlines of the policy.
pub begin_if_due_begins :
    (env : Env) (idle idle' : IdleShutdown) (run_id id now now_ms : ℕ) (db db' : Db)
    → begin_if_due env idle run_id id now now_ms db ≡ (ok true, idle', db')
    → (is_idle db run_id ≡ true)
      × ((due idle (idle_shutdown_cursor db run_id) now).0 ≡ true)
      × (run_shutdown db' run_id
          ≡ some (
              shutdown_row run_id id now_ms idle.policy.interrupt_grace_ms
                idle.policy.shutdown_timeout_ms))
begin_if_due_begins env idle idle' run_id id now now_ms db db' h =
    let cursor = idle_shutdown_cursor db run_id in
    let timer = (due idle cursor now).1 in
    let (late, e) = began env idle idle' run_id id now now_ms db db' h in
    let (idles, unstopped) = idle_unstopped db run_id (due_cursor idle cursor now late) in
    let writes = begin_idle_shutdown env timer run_id id now_ms in
    let same : (run_transaction writes db).1 ≡ db' = ap (λ x. x.2) e in
    let row =
      begun_row env timer run_id id now_ms db (run_transaction writes db).1 unstopped
        (transaction_ok writes db true (ap (λ x. x.0) e)) in
    (
      idles,
      late,
      subst
          (λ p.
            run_shutdown db' run_id
            ≡ some (shutdown_row run_id id now_ms p.interrupt_grace_ms p.shutdown_timeout_ms))
          (due-policies idle cursor now)
          (subst
            (λ d.
              run_shutdown d run_id
              ≡ some (
                  shutdown_row run_id id now_ms timer.policy.interrupt_grace_ms
                    timer.policy.shutdown_timeout_ms))
            same row),
    )
