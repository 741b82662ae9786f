-- ===== src/Store/Ready.antt =====
-- src/state.rs, which tasks can be claimed: `task_readiness` and `ready_tasks`.
pub mod Laws
use coterie.Prelude.{
  ℕ, Bool, true, false, not, ◌&&◌, Option, none, some, List, [], ◌∷◌, map, ◌==◌, is_none,
}
use coterie.Tasks.{open_, closed, status_eq, TaskReadiness}
use coterie.Sql.{select_first, select_all, exists_where, order_by}
use coterie.Store.Records.{TaskRecord, DependencyRecord}
use coterie.Store.Tx.{Db}
use coterie.Store.Rows.{task}
use coterie.Store.Claims.{is_claimed, is_blocked}

-- The edges of `task_readiness`: the dependencies that are not closed.
unfoldable pub unresolved : Db → ℕ → DependencyRecord → Bool
unresolved db id edge =
    edge.task_id == id
    && exists_where
        (λ d.
          (d.id == edge.dependency_task_id && d.run_id == edge.run_id)
          && not (status_eq d.status closed))
        db.tasks

unfoldable pub task_readiness : Db → ℕ → Option TaskReadiness
unfolding unresolved
task_readiness db id = elim (task db id) [
  | none ↦ none
  | some t ↦ some (record {
    status = t.status;
    unresolved_dependencies =
        order_by (λ d. d)
          (map (λ edge. edge.dependency_task_id) (select_all (unresolved db id) db.dependencies));
    has_active_claim = exists_where (λ c. c.task_id == id && is_none c.released_at) db.claims;
  })
]

-- The `WHERE` clause of `ready_tasks`.
unfoldable pub ready_row : Db → ℕ → TaskRecord → Bool
ready_row db run t =
    t.run_id == run
    && (status_eq t.status open_
        && (not (is_claimed db t.run_id t.id) && not (is_blocked db t.run_id t.id)))

-- `ORDER BY created_at, id`
unfoldable pub ready_tasks : Db → ℕ → List TaskRecord
unfolding ready_row
ready_tasks db run =
    order_by (λ t. t.created_at) (order_by (λ t. t.id) (select_all (ready_row db run) db.tasks))
