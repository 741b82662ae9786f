-- ===== src/Store/Ownership/Counts.antt =====
-- The counts of the owners of a task across the `UPDATE`s of `release_task_ownership` and
-- `apply_task_transition`. (src/state.rs)
use coterie.Prelude.{
  ℕ, ◌≡◌, ◌∙◌, refl, ap, Bool, true, false, ◌&&◌, some, String, ◌==◌, is_none, if◌then◌else◌, arith,
  Option-cases, inl, inr,
}
use mathlib.Core.Option
use coterie.Tasks.{
  TaskStatus, in_progress, TaskTransition, reopen, submit, close, cancel, status_eq, transition,
}
use coterie.Sql.{select_first}
use coterie.Sql.Laws.{
  select_first-update_where, count_where-update_where, count_where_congr, count_where-false,
  select_first_test, select_first_narrow,
}
use coterie.Store.Records.{TaskRecord, ClaimRecord, AssignmentRecord, TaskTransitionMutation}
use coterie.Store.Tx.{Db}
use coterie.Store.Rows.{task}
use coterie.Store.Transitions.{
  assignment_state, owns_assignment, owns_claim, release_rows, next_result, set_status, coalesce,
}
use coterie.Store.Ownership.{held_row, owners, active_claims, active_assignments, IsKeyed}

-- No action leads into progress.
pub transition-in_progress :
    (s s' : TaskStatus) (a : TaskTransition)
    → transition s a ≡ some s'
    → status_eq s' in_progress ≡ false
unfolding transition status_eq
transition-in_progress s s' a h = ground arith

-- An action that leaves progress has a state for the assignment.
pub leaving_state :
    (s s' : TaskStatus) (a : TaskTransition)
    → status_eq s in_progress ≡ true
    → transition s a ≡ some s'
    → (state : String) × (assignment_state a ≡ some state)
unfolding transition status_eq assignment_state
leaving_state s s' reopen h k = ("released", refl)
leaving_state s s' submit h k = ("completed", refl)
leaving_state s s' cancel h k = ("canceled", refl)
leaving_state s s' close h k = absurd (ground arith)

abbrev pub of_key : ℕ → ℕ → TaskRecord → Bool
of_key run id r = r.id == id && r.run_id == run

module _ (m : TaskTransitionMutation) (t : TaskRecord) (s : TaskStatus) (db : Db) where
  abbrev pub written : TaskRecord → TaskRecord
  written r = record r {
    status = s;
    result = next_result m.transition m.result t.result;
    updated_at = m.transitioned_at;
  }

  pub updated :
      (run id : ℕ)
      → select_first (of_key run id) (set_status m t s db).tasks
        ≡ Option.map
            (λ r. if r.id == m.task_id && r.run_id == m.run_id then written r else r)
            (select_first (of_key run id) db.tasks)
  updated run id =
      select_first-update_where (of_key run id) (λ r. r.id == m.task_id && r.run_id == m.run_id)
        written db.tasks (λ r. refl)

  pub owners-set_status_other :
      (run id : ℕ)
      → (m.task_id == id && m.run_id == run) ≡ false
      → owners (set_status m t s db) run id ≡ owners db run id
  unfolding owners
  owners-set_status_other run id ne = elim (Option-cases (select_first (of_key run id) db.tasks)) [
    | inl e ↦ let u = updated run id in ground (arith, u, e)
    | inr (x, e) ↦
        let u = updated run id in
        let k = select_first_test (of_key run id) db.tasks x e in ground (arith, u, e, k)
  ]

  module _ (f : task db m.task_id ≡ some t) (n : t.run_id ≡ m.run_id) where
    pub found : select_first (of_key m.run_id m.task_id) db.tasks ≡ some t
    unfolding task
    found =
        select_first_narrow (λ r. r.id == m.task_id) (of_key m.run_id m.task_id) db.tasks t
          (λ r h. ground arith) f
          (ground (arith, select_first_test (λ (r : TaskRecord). r.id == m.task_id) db.tasks t f))

    pub owners_before : owners db m.run_id m.task_id ≡ held_row (some t)
    unfolding owners
    owners_before = ap held_row found

    pub owners-set_status_self :
        status_eq s in_progress ≡ false → owners (set_status m t s db) m.run_id m.task_id ≡ 0
    unfolding owners
    owners-set_status_self h =
        let u = updated m.run_id m.task_id in
        let k = select_first_test (of_key m.run_id m.task_id) db.tasks t found in
        ground (arith, u, found, k)

  pub IsKeyed-set_status : IsKeyed db → IsKeyed (set_status m t s db)
  IsKeyed-set_status keyed id = omega (
    arith,
    keyed id,
    count_where-update_where (λ r. r.id == id) (λ r. r.id == m.task_id && r.run_id == m.run_id)
        written db.tasks,
    count_where_congr
        (λ r. (if r.id == m.task_id && r.run_id == m.run_id then written r else r).id == id)
        (λ r. r.id == id) db.tasks (λ r. ground arith),
  )

module _ (m : TaskTransitionMutation) (state : String) (db : Db) where
  abbrev pub released_claim : ClaimRecord → ClaimRecord
  released_claim c = record c { state = "released"; released_at = some m.transitioned_at }

  abbrev pub released_assignment : AssignmentRecord → AssignmentRecord
  released_assignment a = record a {
    state = state;
    summary = coalesce m.summary a.summary;
    completed_at = some m.transitioned_at;
  }

  abbrev pub claims_test : ℕ → ℕ → ClaimRecord → Bool
  claims_test run id c = c.task_id == id && (c.run_id == run && is_none c.released_at)

  abbrev pub assignments_test : ℕ → ℕ → AssignmentRecord → Bool
  assignments_test run id a = a.task_id == id && (a.run_id == run && is_none a.completed_at)

  pub active_claims-release_self : active_claims (release_rows m state db) m.run_id m.task_id ≡ 0
  unfolding active_claims
  active_claims-release_self =
      count_where-update_where (claims_test m.run_id m.task_id) (owns_claim m) released_claim
        db.claims
      ∙ count_where-false
          (λ c. claims_test m.run_id m.task_id (if owns_claim m c then released_claim c else c))
          db.claims (λ c. ground arith)

  pub active_claims-release_other :
      (run id : ℕ)
      → (m.task_id == id && m.run_id == run) ≡ false
      → active_claims (release_rows m state db) run id ≡ active_claims db run id
  unfolding active_claims
  active_claims-release_other run id ne =
      count_where-update_where (claims_test run id) (owns_claim m) released_claim db.claims
      ∙ count_where_congr (λ c. claims_test run id (if owns_claim m c then released_claim c else c))
          (claims_test run id) db.claims (λ c. ground arith)

  pub active_assignments-release_self :
      active_assignments (release_rows m state db) m.run_id m.task_id ≡ 0
  unfolding active_assignments
  active_assignments-release_self =
      count_where-update_where (assignments_test m.run_id m.task_id) (owns_assignment m)
        released_assignment db.assignments
      ∙ count_where-false
          (λ a.
            assignments_test m.run_id m.task_id
              (if owns_assignment m a then released_assignment a else a))
          db.assignments (λ a. ground arith)

  pub active_assignments-release_other :
      (run id : ℕ)
      → (m.task_id == id && m.run_id == run) ≡ false
      → active_assignments (release_rows m state db) run id ≡ active_assignments db run id
  unfolding active_assignments
  active_assignments-release_other run id ne =
      count_where-update_where (assignments_test run id) (owns_assignment m) released_assignment
        db.assignments
      ∙ count_where_congr
          (λ a. assignments_test run id (if owns_assignment m a then released_assignment a else a))
          (assignments_test run id) db.assignments (λ a. ground arith)

-- The two writes touch different tables.
module _ (m : TaskTransitionMutation) (t : TaskRecord) (s : TaskStatus) (db : Db) (run id : ℕ) where
  pub active_claims-set_status :
      active_claims (set_status m t s db) run id ≡ active_claims db run id
  unfolding active_claims
  active_claims-set_status = refl

  pub active_assignments-set_status :
      active_assignments (set_status m t s db) run id ≡ active_assignments db run id
  unfolding active_assignments
  active_assignments-set_status = refl

  pub owners-release_rows :
      (state : String)
      → owners (set_status m t s (release_rows m state db)) run id
        ≡ owners (set_status m t s db) run id
  unfolding owners
  owners-release_rows state = refl
