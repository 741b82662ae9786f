-- ===== src/Store/Supervision/Shutdown/Draining.antt =====
-- The assignments of a run whose shutdown begins. (`begin_run_shutdown`, `drain_assignment` of
-- src/state/supervision.rs)
use coterie.Prelude.{
  ℕ, ◌≡◌, ◌≤◌, ◌∙◌, refl, true, false, not, ◌&&◌, ◌||◌, none, ◌==◌, is_some, arith, Bool-cases, inl,
  inr,
}
use coterie.Sql.{exists_where, count_where}
use coterie.Sql.Order.{exists_where-order_by, exists_where-select_all}
use coterie.Store.Event.{EventKind}
use coterie.Store.Control.{RunShutdown}
use coterie.Store.Tx.{ok, Env, Db, ◌>>◌, then-eq-ok}
use coterie.Store.Rows.{operation, run}
use coterie.Store.Mutate.{insert_operation, operation_admitted}
use coterie.Store.Supervision.Frame.{supervision_event-OnlyLogs}
use coterie.Store.Supervision.Launch.{run_shutdown}
use coterie.Store.Supervision.Shutdown.{
  drain_agents, agents_of, insert_shutdown, shutdown_admitted, stop_operation, shutdown_row,
  announce_shutdown, perform_shutdown, is_active, begin_run_shutdown,
}
use coterie.Store.Supervision.Shutdown.Rounds.{
  is_open_of, is_undrained_of, drain_agents_all, drain_agents-count_where,
}

-- The rows that the loop of a shutdown reads.
abbrev HasRows : Db → Db → Type 0
HasRows db db' = (db'.assignments ≡ db.assignments) × (db'.agents ≡ db.agents)

insert_operation_rows :
    (run_id id now_ms : ℕ) (db db' : Db)
    → insert_operation (stop_operation run_id id now_ms) db ≡ ok (tt, db')
    → HasRows db db'
unfolding insert_operation
insert_operation_rows run_id id now_ms db db' h =
    elim (Bool-cases (operation_admitted db (stop_operation run_id id now_ms))) [
      | inl pass ↦ (ground (arith, h, pass), ground (arith, h, pass))
      | inr fail ↦ absurd (ground (arith, h, fail))
    ]

insert_shutdown_rows :
    (s : RunShutdown) (db db' : Db) → insert_shutdown s db ≡ ok (tt, db') → HasRows db db'
unfolding insert_shutdown
insert_shutdown_rows s db db' h = elim (Bool-cases (shutdown_admitted db s)) [
  | inl pass ↦ (ground (arith, h, pass), ground (arith, h, pass))
  | inr fail ↦ absurd (ground (arith, h, fail))
]

announce_shutdown_rows :
    (env : Env) (run_id id now_ms : ℕ) (db db' : Db)
    → announce_shutdown env run_id id now_ms db ≡ ok (tt, db')
    → HasRows db db'
unfolding announce_shutdown
announce_shutdown_rows env run_id id now_ms db db' h =
    let logs =
      supervision_event-OnlyLogs env run_id EventKind.run_shutdown_changed _ _ _ _ _ _ db tt db'
        h in
    (logs.assignments, logs.agents)

-- The tables in which the loop of a new shutdown runs.
perform_rows :
    (env : Env) (run_id id now_ms grace_ms timeout_ms : ℕ) (db db' : Db)
    → perform_shutdown env run_id id now_ms grace_ms timeout_ms db ≡ ok (tt, db')
    → (c : Db) × HasRows db c
      × (drain_agents env run_id now_ms (agents_of c run_id) c ≡ ok (tt, db'))
unfolding perform_shutdown
perform_rows env run_id id now_ms grace_ms timeout_ms db db' h =
    let row = shutdown_row run_id id now_ms grace_ms timeout_ms in
    let (c, h2, h3) =
      then-eq-ok
        (insert_operation (stop_operation run_id id now_ms)
          >> insert_shutdown row
          >> announce_shutdown env run_id id now_ms)
        (λ x. drain_agents env run_id now_ms (agents_of x run_id) x) db h in
    let (b, h1, h4) =
      then-eq-ok (insert_operation (stop_operation run_id id now_ms) >> insert_shutdown row)
        (announce_shutdown env run_id id now_ms) db h2 in
    let (a, h0, h5) =
      then-eq-ok (insert_operation (stop_operation run_id id now_ms)) (insert_shutdown row) db h1 in
    let (w0, g0) = insert_operation_rows run_id id now_ms db a h0 in
    let (w1, g1) = insert_shutdown_rows row a b h5 in
    let (w2, g2) = announce_shutdown_rows env run_id id now_ms b c h4 in
    (c, (w2 ∙ w1 ∙ w0, g2 ∙ g1 ∙ g0), h3)

agents_of_exists :
    (db : Db) (run_id agent_id : ℕ)
    → exists_where (λ a. a.run_id == run_id && a.id == agent_id) db.agents ≡ true
    → exists_where (λ a. a.id == agent_id) (agents_of db run_id) ≡ true
unfolding agents_of
agents_of_exists db run_id agent_id h =
    exists_where-order_by (λ a. a.id == agent_id) _ _
    ∙ exists_where-select_all (λ a. a.run_id == run_id) (λ a. a.id == agent_id) db.agents
    ∙ h

-- A shutdown that begins leaves no open assignment of an agent of the run that is not draining, and
-- completes none: the agent has as many open assignments as before. (The run had no shutdown, the
-- agent is one of the run, and at most one of its assignments is open.)
pub begin_run_shutdown_drains :
    (env : Env) (run_id id now_ms grace_ms timeout_ms agent_id : ℕ) (db db' : Db)
    → run_shutdown db run_id ≡ none
    → exists_where (λ a. a.run_id == run_id && a.id == agent_id) db.agents ≡ true
    → count_where (is_open_of run_id agent_id) db.assignments ≤ 1
    → begin_run_shutdown env run_id id now_ms grace_ms timeout_ms db ≡ ok (tt, db')
    → (exists_where (is_undrained_of run_id agent_id) db'.assignments ≡ false)
      × (count_where (is_open_of run_id agent_id) db'.assignments
          ≡ count_where (is_open_of run_id agent_id) db.assignments)
unfolding begin_run_shutdown
begin_run_shutdown_drains env run_id id now_ms grace_ms timeout_ms agent_id db db' fresh here one
      h =
    elim (Bool-cases (is_some (operation db id) || not (is_active (run db run_id)))) [
      | inl bad ↦ absurd (ground (arith, h, fresh, bad))
      | inr fine ↦
          let (c, (rows, agents), loop) =
            perform_rows env run_id id now_ms grace_ms timeout_ms db db'
              (ground (arith, h, fresh, fine)) in
          (
            drain_agents_all env run_id now_ms agent_id (agents_of c run_id) c db' loop
                (agents_of_exists c run_id agent_id (rw agents here)) (rw rows one),
            drain_agents-count_where env run_id now_ms agent_id (agents_of c run_id) c db' loop
                ∙ rw rows refl,
          )
    ]
