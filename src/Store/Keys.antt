-- ===== src/Store/Keys.antt =====
-- The referenced keys of src/state/migrations: what a foreign key looks up.
use coterie.Prelude.{ℕ, Bool, true, ◌&&◌, Option, none, some, ◌==◌}
use coterie.Sql.{exists_where}
use coterie.Store.Tx.{Db}

module _ (db : Db) where
  unfoldable pub has_run : ℕ → Bool
  has_run run = exists_where (λ r. r.id == run) db.runs

  unfoldable pub has_project : ℕ → ℕ → Bool
  has_project run id = exists_where (λ r. r.run_id == run && r.id == id) db.projects

  unfoldable pub has_agent : ℕ → ℕ → Bool
  has_agent run id = exists_where (λ r. r.run_id == run && r.id == id) db.agents

  unfoldable pub has_session : ℕ → ℕ → ℕ → Bool
  has_session run agent id =
      exists_where (λ r. r.run_id == run && (r.agent_id == agent && r.id == id)) db.sessions

  unfoldable pub has_task : ℕ → ℕ → Bool
  has_task run id = exists_where (λ r. r.run_id == run && r.id == id) db.tasks

  unfoldable pub has_operation : ℕ → ℕ → Bool
  has_operation run id = exists_where (λ r. r.run_id == run && r.id == id) db.operations

  unfoldable pub has_claim : ℕ → ℕ → Bool
  has_claim run id = exists_where (λ r. r.run_id == run && r.id == id) db.claims

  unfoldable pub has_assignment : ℕ → ℕ → Bool
  has_assignment run id = exists_where (λ r. r.run_id == run && r.id == id) db.assignments

  unfoldable pub has_event : ℕ → ℕ → Bool
  has_event run id = exists_where (λ r. r.run_id == run && r.id == id) db.events

-- A foreign key with a NULL column is not checked.
abbrev pub nullable : (ℕ → Bool) → Option ℕ → Bool
nullable fk none = true
nullable fk (some id) = fk id
