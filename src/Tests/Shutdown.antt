-- ===== src/Tests/Shutdown.antt =====
-- The shutdown of a run whose agent works on a task.
use coterie.Prelude.{◌≡◌, refl, none, some, [], ◌∷◌, false, arith}
use coterie.Sql.{exists_where, select_first, count_where}
use coterie.Tests.Samples.{sample_env}
use coterie.Tests.Opened.{opened}
use coterie.Tests.Sessions.{running_store}
use coterie.Store.Tx.{Db, ok, run_transaction}
use coterie.Store.Supervision.{supervision_event}
use coterie.Store.Supervision.Launch.{run_shutdown}
use coterie.Store.Supervision.Shutdown.{
  insert_shutdown, shutdown_admitted, announce_shutdown, drain_assignment, drain_agents,
  drain_agent, agents_of, perform_shutdown, begin_run_shutdown,
}
use coterie.Store.Supervision.Shutdown.Rounds.{is_open_of, is_undrained_of}
use coterie.Store.Supervision.Shutdown.Draining.{begin_run_shutdown_drains}

abbrev working_store : Db
working_store = record running_store {
  assignments =
      record {
        id = 50;
        run_id = 1;
        task_id = 30;
        agent_id = 20;
        session_id = some 60;
        claim_id = 80;
        generation = 0;
        state = "active";
        summary = none;
        created_at = 10;
        completed_at = none;
      }
      ∷ [];
}

unfoldable drained_store : Db
unfolding run_transaction
drained_store = (run_transaction (begin_run_shutdown sample_env 1 70 1000 250 5000) working_store).1

drain_runs : begin_run_shutdown sample_env 1 70 1000 250 5000 working_store ≡ ok (tt, drained_store)
unfolding drained_store opened begin_run_shutdown perform_shutdown insert_shutdown shutdown_admitted
    announce_shutdown drain_agents drain_agent drain_assignment agents_of run_shutdown
    supervision_event
drain_runs = refl

begin_run_shutdown_drains_example :
    (exists_where (is_undrained_of 1 20) drained_store.assignments ≡ false)
    × (count_where (is_open_of 1 20) drained_store.assignments ≡ 1)
unfolding count_where exists_where run_shutdown select_first
begin_run_shutdown_drains_example =
    begin_run_shutdown_drains sample_env 1 70 1000 250 5000 20 working_store drained_store refl refl
      (omega arith) drain_runs
