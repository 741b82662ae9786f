-- ===== src/Store/Ready/Laws.antt =====
-- Claims against the tasks that `ready_tasks` lists. (`compare_and_set_claim`, `ready_tasks` of
-- src/state.rs)
use coterie.Prelude.{
  ℕ, ◌<◌, ◌≡◌, ◌↔◌, ap, ◌∙◌, Bool, true, false, not, ◌&&◌, ◌==◌, is_some, arith, Bool-cases,
  Option-cases, inl, inr,
}
use coterie.Sql.{select_first, exists_where, count_where}
use coterie.Sql.Order.{exists_where-order_by, exists_where-select_all, count_where-exists}
use coterie.Store.Records.{TaskRecord, ClaimTaskMutation, ClaimTaskResult, claimed, rejected}
use coterie.Store.Tx.{ok, Db}
use coterie.Store.Claims.{is_busy, claimable, compare_and_set_claim}
use coterie.Store.Ownership.Claim.{take_ownership_tables}
use coterie.Store.Ready.{ready_row, ready_tasks}

-- The task is in the list of `ready_tasks`.
unfoldable pub is_listed : Db → ℕ → ℕ → Bool
is_listed db run id = exists_where (λ t. t.id == id) (ready_tasks db run)

-- The agent is one of the run and has no active assignment.
unfoldable pub is_idle : Db → ℕ → ℕ → Bool
is_idle db run id =
    is_some (select_first (λ a. a.id == id && a.run_id == run) db.agents) && not (is_busy db run id)

abbrev pub is_claimed_result : ClaimTaskResult → Bool
is_claimed_result (claimed claim_id assignment_id) = true
is_claimed_result (rejected r) = false

is_listed_rows :
    (db : Db) (run id : ℕ)
    → is_listed db run id ≡ exists_where (λ t. ready_row db run t && t.id == id) db.tasks
unfolding is_listed ready_tasks
is_listed_rows db run id =
    exists_where-order_by _ _ _
    ∙ exists_where-order_by _ _ _
    ∙ exists_where-select_all (ready_row db run) (λ t. t.id == id) db.tasks

claimable_row :
    (db : Db) (c : ClaimTaskMutation) (t : TaskRecord)
    → claimable db c t
      ≡ ((ready_row db c.run_id t && t.id == c.task_id) && not (is_busy db c.run_id c.agent_id))
unfolding claimable ready_row
claimable_row db c t = elim (Bool-cases (t.run_id == c.run_id)) [
  | inl same ↦
      let e : t.run_id ≡ c.run_id = ground arith in
      ground (arith, same, ap (λ n. is_busy db n c.agent_id) e)
  | inr other ↦ ground (arith, other)
]

claimable_iff :
    (db : Db) (c : ClaimTaskMutation)
    → (0 < count_where (claimable db c) db.tasks)
      ↔ ((is_listed db c.run_id c.task_id && not (is_busy db c.run_id c.agent_id)) ≡ true)
claimable_iff db c = rw (is_listed_rows db c.run_id c.task_id) (
    count_where-exists (claimable db c) (λ t. ready_row db c.run_id t && t.id == c.task_id)
      (not (is_busy db c.run_id c.agent_id)) db.tasks (claimable_row db c))

-- A claim that returns succeeds just if its task is in the list of `ready_tasks` and its agent is an
-- agent of the run with no active assignment; if it is refused, no table changes.
pub compare_and_set_claim_iff :
    (c : ClaimTaskMutation) (db : Db) {r : ClaimTaskResult} {db' : Db}
    → compare_and_set_claim c db ≡ ok (r, db')
    → ((is_claimed_result r ≡ true)
        ↔ ((is_listed db c.run_id c.task_id && is_idle db c.run_id c.agent_id) ≡ true))
      × (is_claimed_result r ≡ false → db' ≡ db)
unfolding compare_and_set_claim is_idle
compare_and_set_claim_iff c db {r} {db'} h =
    elim (Option-cases (select_first (λ a. a.id == c.agent_id && a.run_id == c.run_id) db.agents)) [
      | inl missing ↦ ground (arith, missing)
      | inr (a, found) ↦ elim (Bool-cases (count_where (claimable db c) db.tasks == 0)) [
        | inl zero_rows ↦ ground (arith, found, zero_rows, claimable_iff db c)
        | inr some_rows ↦
            let (p, q) =
              take_ownership_tables c a.generation db {r = r} {db' = db'}
                (ground (arith, found, some_rows)) in
            ground (arith, p, found, some_rows, claimable_iff db c)
      ]
    ]
