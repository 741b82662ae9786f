-- ===== src/Tests/Idle.antt =====
-- The idle timer, and the shutdown that it begins.
use coterie.Prelude.{◌≡◌, refl, some, none, List, [], ◌∷◌, true, false, Bool, Option, ℕ}
use coterie.Config.{compiled_supervision, SupervisionPolicy}
use coterie.Tests.Samples.{sample_env, sample_store}
use coterie.Tests.Opened.{opened}
use coterie.Store.Tx.{Result, run_transaction, Db}
use coterie.Store.Supervision.{supervision_event, is_idle, idle_shutdown_cursor}
use coterie.Store.Supervision.Launch.{run_shutdown}
use coterie.Store.Supervision.Shutdown.{
  insert_shutdown, shutdown_admitted, announce_shutdown, drain_agents, agents_of, perform_shutdown,
  begin_run_shutdown, shutdown_row,
}
use coterie.Supervisor.Idle.{IdleShutdown, observe, due, begin_idle_shutdown, begin_if_due}
use coterie.Supervisor.Idle.Laws.{after_history, quiet_since, due_iff}
use coterie.Supervisor.Idle.Begin.{begin_if_due_begins}

abbrev hasty_policy : SupervisionPolicy
hasty_policy = record compiled_supervision { idle_timeout_seconds = 60 }

abbrev history : List (Option ℕ × ℕ)
history = (some 4, 59000000000) ∷ (some 4, 1000000000) ∷ (none, 500000000) ∷ []

-- Sixty seconds after the cursor was first seen again, and not one second earlier.
due_iff_example : (due (after_history hasty_policy history) (some 4) 61000000000).0 ≡ true
unfolding quiet_since
due_iff_example = due_iff hasty_policy history 4 61000000000

due_early : (due (after_history hasty_policy history) (some 4) 60000000000).0 ≡ false
unfolding due observe after_history
due_early = refl

abbrev idle_store : Db
idle_store = record sample_store { agents = [] }

abbrev waiting : IdleShutdown
waiting = record { policy = hasty_policy; observed = some (0, 1000000000) }

unfoldable begun : Result Bool × IdleShutdown × Db
begun = begin_if_due sample_env waiting 1 70 61000000000 5000 idle_store

begin_if_due_begins_example :
    (is_idle idle_store 1 ≡ true)
    × ((due waiting (idle_shutdown_cursor idle_store 1) 61000000000).0 ≡ true)
    × (run_shutdown begun.2 1 ≡ some (shutdown_row 1 70 5000 250 5000))
unfolding begun opened begin_if_due begin_idle_shutdown due observe is_idle idle_shutdown_cursor
    run_shutdown insert_shutdown shutdown_admitted announce_shutdown drain_agents agents_of
    perform_shutdown begin_run_shutdown run_transaction supervision_event
begin_if_due_begins_example =
    begin_if_due_begins sample_env waiting begun.1 1 70 61000000000 5000 idle_store begun.2 refl
