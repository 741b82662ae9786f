-- ===== src/Store/Ownership.antt =====
-- The ownership invariant of the task tables: a task in progress has one active claim and one
-- active assignment, and any other task has none. (src/state.rs)
pub mod Claim
pub mod Steps
pub mod Counts
pub mod Release
pub mod Transport
use coterie.Prelude.{
  ℕ, ◌≤◌, ◌≡◌, Bool, ◌&&◌, Option, none, some, List, ◌==◌, is_none, if◌then◌else◌,
}
use coterie.Tasks.{in_progress, status_eq}
use coterie.Sql.{select_first, count_where}
use coterie.Store.Records.{TaskRecord, ClaimRecord, AssignmentRecord}
use coterie.Store.Tx.{Db}

abbrev pub held_row : Option TaskRecord → ℕ
held_row none = 0
held_row (some t) = if status_eq t.status in_progress then 1 else 0

-- How many active claims the task should have: one if it is in progress.
unfoldable pub owners : Db → ℕ → ℕ → ℕ
unfolding status_eq
owners db run id = held_row (select_first (λ r. r.id == id && r.run_id == run) db.tasks)

unfoldable pub active_claims : Db → ℕ → ℕ → ℕ
active_claims db run id =
    count_where (λ c. c.task_id == id && (c.run_id == run && is_none c.released_at)) db.claims

unfoldable pub active_assignments : Db → ℕ → ℕ → ℕ
active_assignments db run id =
    count_where (λ a. a.task_id == id && (a.run_id == run && is_none a.completed_at)) db.assignments

-- The primary key of the table `tasks`.
abbrev pub IsKeyed : Db → Type 0
IsKeyed db = (id : ℕ) → count_where (λ r. r.id == id) db.tasks ≤ 1

pub record IsOwned (db : Db) : Type 0 where
  pub keyed : IsKeyed db
  pub claims : (run id : ℕ) → active_claims db run id ≡ owners db run id
  pub assignments : (run id : ℕ) → active_assignments db run id ≡ owners db run id
