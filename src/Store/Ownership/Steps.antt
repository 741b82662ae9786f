-- ===== src/Store/Ownership/Steps.antt =====
-- What a lifecycle action does to the tables when it returns: the inversion of
-- `apply_task_transition` of src/state.rs.
use coterie.Prelude.{
  ◌≡◌, refl, true, false, some, String, ◌==◌, if◌then◌else◌, arith, Bool-cases, Option-cases, inl,
  inr,
}
use coterie.Tasks.{TaskStatus, in_progress, status_eq, transition}
use coterie.Store.Records.{TaskRecord, TaskTransitionMutation, TaskTransitionResult, transitioned}
use coterie.Store.Tx.{Result, ok, err, Db}
use coterie.Store.Rows.{task}
use coterie.Store.Transitions.{
  Blank, assignment_state, release_rows, release_task_ownership, accepted, set_status,
  finish_transition, perform, transition_found, apply_task_transition,
}

-- The tables after an action that was performed.
pub data PerformStep (m : TaskTransitionMutation) (t : TaskRecord) (s : TaskStatus) (db db' : Db)
    : Type 0 where
  release :
      (state : String)
      → status_eq t.status in_progress ≡ true
      → db' ≡ set_status m t s (release_rows m state db)
      → PerformStep m t s db db'
  keep :
      status_eq t.status in_progress ≡ false → db' ≡ set_status m t s db → PerformStep m t s db db'

pub data TransitionStep (m : TaskTransitionMutation) (db : Db) (r : TaskTransitionResult) (db' : Db)
    : Type 0 where
  refuse : db' ≡ db → TransitionStep m db r db'
  act :
      (t : TaskRecord) (s : TaskStatus)
      → task db m.task_id ≡ some t
      → t.run_id ≡ m.run_id
      → transition t.status m.transition ≡ some s
      → r ≡ transitioned t.status s
      → PerformStep m t s db db'
      → TransitionStep m db r db'

release_tables :
    (m : TaskTransitionMutation) (db : Db) {u : Unit {0}} {db' : Db}
    → release_task_ownership m db ≡ ok (u, db')
    → (state : String) × (db' ≡ release_rows m state db)
unfolding release_task_ownership
release_tables m db h = elim (Option-cases (assignment_state m.transition)) [
  | inl e ↦ absurd (ground (arith, e))
  | inr (state, e) ↦ (state, ground (arith, e))
]

finish_tables :
    (m : TaskTransitionMutation) (t : TaskRecord) (s : TaskStatus) (x : Result (Unit {0} × Db))
    {r : TaskTransitionResult} {db' : Db}
    → finish_transition m t s x ≡ ok (r, db')
    → (db1 : Db) × (x ≡ ok (tt, db1)) × (r ≡ transitioned t.status s) × (db' ≡ set_status m t s db1)
finish_tables m t s (ok (u, db1)) h = (db1, refl, ground arith, ground arith)
finish_tables m t s (err e) h = cc

perform_step :
    (m : TaskTransitionMutation) (t : TaskRecord) (s : TaskStatus) (db : Db)
    {r : TaskTransitionResult} {db' : Db}
    → perform m t s db ≡ ok (r, db')
    → (r ≡ transitioned t.status s) × PerformStep m t s db db'
unfolding perform
perform_step m t s db h =
    let (db1, e, p, q) =
      finish_tables m t s
        (if status_eq t.status in_progress then release_task_ownership m db else ok (tt, db)) h in
    elim (Bool-cases (status_eq t.status in_progress)) [
      | inl held ↦
          let (state, e1) = release_tables m db {u = tt} {db' = db1} (ground (arith, e, held)) in
          (p, release state held (ground (arith, q, e1)))
      | inr unheld ↦ (p, keep unheld (ground (arith, q, e, unheld)))
    ]

found_step :
    (blank : Blank) (m : TaskTransitionMutation) (t : TaskRecord) (db : Db)
    {r : TaskTransitionResult} {db' : Db}
    → task db m.task_id ≡ some t
    → t.run_id ≡ m.run_id
    → transition_found blank m t db ≡ ok (r, db')
    → TransitionStep m db r db'
unfolding transition_found
found_step blank m t db f n h = elim (Option-cases (transition t.status m.transition)) [
  | inl e ↦ refuse (ground (arith, e))
  | inr (s, e) ↦ elim (Bool-cases (accepted blank m t db)) [
    | inl yes_ ↦ let (p, q) = perform_step m t s db (ground (arith, e, yes_)) in act t s f n e p q
    | inr no_ ↦ refuse (ground (arith, e, no_))
  ]
]

pub transition_step :
    (blank : Blank) (m : TaskTransitionMutation) (db : Db) {r : TaskTransitionResult} {db' : Db}
    → apply_task_transition blank m db ≡ ok (r, db')
    → TransitionStep m db r db'
unfolding apply_task_transition
transition_step blank m db h = elim (Option-cases (task db m.task_id)) [
  | inl e ↦ refuse (ground (arith, e))
  | inr (t, e) ↦ elim (Bool-cases (t.run_id == m.run_id)) [
    | inl same ↦ found_step blank m t db e (ground arith) (ground (arith, e, same))
    | inr other ↦ refuse (ground (arith, e, other))
  ]
]
