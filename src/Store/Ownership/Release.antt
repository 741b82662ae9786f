-- ===== src/Store/Ownership/Release.antt =====
-- A lifecycle action under the ownership invariant, and the corrupt states that
-- `release_task_ownership` guards against. (`apply_task_transition` of src/state.rs)
use coterie.Prelude.{
  ℕ, ◌≡◌, true, false, ◌&&◌, some, String, ◌==◌, arith, Bool-cases, Option-cases, inl, inr,
}
use coterie.Tasks.{TaskStatus, in_progress, status_eq, transition}
use coterie.Store.Records.{
  TaskRecord, TaskTransitionMutation, TaskTransitionResult, transitioned, rejected, task_not_found,
  invalid_status, acceptance_not_met,
}
use coterie.Store.Tx.{ok, Db}
use coterie.Store.Rows.{task}
use coterie.Store.Transitions.{
  Blank, release_rows, release_task_ownership, accepted, set_status, perform, transition_found,
  apply_task_transition,
}
use coterie.Store.Ownership.{owners, active_claims, active_assignments, IsKeyed, IsOwned}
use coterie.Store.Ownership.Steps.{PerformStep, release, keep, refuse, act, transition_step}
use coterie.Store.Ownership.Counts.{
  transition-in_progress, leaving_state, owners-set_status_other, owners_before,
  owners-set_status_self, IsKeyed-set_status, active_claims-release_self,
  active_claims-release_other, active_assignments-release_self, active_assignments-release_other,
  active_claims-set_status, active_assignments-set_status, owners-release_rows,
}

module _ (m : TaskTransitionMutation) (t : TaskRecord) (s : TaskStatus) (db : Db) (v : IsOwned db)
    (f : task db m.task_id ≡ some t) (n : t.run_id ≡ m.run_id)
    (moves : transition t.status m.transition ≡ some s) where
  not_held : status_eq s in_progress ≡ false
  not_held = transition-in_progress t.status s m.transition moves

  -- Both counts agree with the owners, once they do at the task of the action and stay elsewhere.
  ownership_cases :
      (db' : Db)
      → IsKeyed db'
      → ((run id : ℕ)
          → (m.task_id == id && m.run_id == run) ≡ false
          → (active_claims db' run id ≡ owners db' run id)
            × (active_assignments db' run id ≡ owners db' run id))
      → (active_claims db' m.run_id m.task_id ≡ owners db' m.run_id m.task_id)
        × (active_assignments db' m.run_id m.task_id ≡ owners db' m.run_id m.task_id)
      → IsOwned db'
  ownership_cases db' k other self = record {
    keyed = k;
    claims = λ run id. (both run id).0;
    assignments = λ run id. (both run id).1;
  }
    where
      both :
          (run id : ℕ)
          → (active_claims db' run id ≡ owners db' run id)
            × (active_assignments db' run id ≡ owners db' run id)
      both run id = elim (Bool-cases (m.task_id == id && m.run_id == run)) [
        | inl same ↦
            let i : m.task_id ≡ id = ground arith in
            let r : m.run_id ≡ run = ground arith in rw (← i, ← r) self
        | inr ne ↦ other run id ne
      ]

  -- The action released the claim and the assignment of a task in progress.
  module _ (state : String) where
    abbrev released_db : Db
    released_db = release_rows m state db

    release-IsOwned : IsOwned (set_status m t s released_db)
    release-IsOwned =
        ownership_cases (set_status m t s released_db) (IsKeyed-set_status m t s db v.keyed)
          (λ run id ne.
            let o = owners-release_rows m t s db run id state in
            let o' = owners-set_status_other m t s db run id ne in
            (
              ground (
                arith,
                v.claims run id,
                o,
                o',
                active_claims-set_status m t s released_db run id,
                active_claims-release_other m state db run id ne,
              ),
              ground (
                arith,
                v.assignments run id,
                o,
                o',
                active_assignments-set_status m t s released_db run id,
                active_assignments-release_other m state db run id ne,
              ),
            ))
          (let o = owners-release_rows m t s db m.run_id m.task_id state in
            let o' = owners-set_status_self m t s db f n not_held in
            (
              ground (
                arith,
                o,
                o',
                active_claims-set_status m t s released_db m.run_id m.task_id,
                active_claims-release_self m state db,
              ),
              ground (
                arith,
                o,
                o',
                active_assignments-set_status m t s released_db m.run_id m.task_id,
                active_assignments-release_self m state db,
              ),
            ))

  -- The task was not in progress, and had nothing to release.
  keep-IsOwned : status_eq t.status in_progress ≡ false → IsOwned (set_status m t s db)
  keep-IsOwned unheld =
      ownership_cases (set_status m t s db) (IsKeyed-set_status m t s db v.keyed)
        (λ run id ne.
          let o = owners-set_status_other m t s db run id ne in
          (
            ground (arith, v.claims run id, o, active_claims-set_status m t s db run id),
            ground (arith, v.assignments run id, o, active_assignments-set_status m t s db run id),
          ))
        (let o = owners-set_status_self m t s db f n not_held in
          let o' = owners_before m t s db f n in
          (
            ground (
              arith,
              o,
              o',
              v.claims m.run_id m.task_id,
              active_claims-set_status m t s db m.run_id m.task_id,
            ),
            ground (
              arith,
              o,
              o',
              v.assignments m.run_id m.task_id,
              active_assignments-set_status m t s db m.run_id m.task_id,
            ),
          ))

  perform-IsOwned : {db' : Db} → PerformStep m t s db db' → IsOwned db'
  perform-IsOwned (release state held e) = rw e (release-IsOwned state)
  perform-IsOwned (keep unheld e) = rw e (keep-IsOwned unheld)

  -- What `release_task_ownership` requires holds: it is called with one assignment and one claim.
  release_returns :
      status_eq t.status in_progress ≡ true
      → (db' : Db) × (release_task_ownership m db ≡ ok (tt, db'))
  unfolding release_task_ownership active_claims active_assignments
  release_returns held =
      let (state, e) = leaving_state t.status s m.transition held moves in
      let o = owners_before m t s db f n in
      (
        release_rows m state db,
        ground (arith, e, o, v.claims m.run_id m.task_id, v.assignments m.run_id m.task_id),
      )

  perform_returns : (r : TaskTransitionResult) × (db' : Db) × (perform m t s db ≡ ok (r, db'))
  unfolding perform
  perform_returns = elim (Bool-cases (status_eq t.status in_progress)) [
    | inl held ↦
        let (db', e) = release_returns held in
        (transitioned t.status s, set_status m t s db', ground (arith, held, e))
    | inr unheld ↦ (transitioned t.status s, set_status m t s db, ground (arith, unheld))
  ]

-- A lifecycle action, whatever it answers, leaves every task in progress with exactly one active
-- claim and one active assignment, and every other task with none.
pub apply_task_transition-IsOwned :
    (blank : Blank) (m : TaskTransitionMutation) (db : Db) {r : TaskTransitionResult} {db' : Db}
    → IsOwned db
    → apply_task_transition blank m db ≡ ok (r, db')
    → IsOwned db'
apply_task_transition-IsOwned blank m db v h = elim (transition_step blank m db h) [
  | refuse e ↦ rw e v
  | act t s f n moves _ p ↦ perform-IsOwned m t s db v f n moves p
]

-- Under the ownership invariant a lifecycle action returns an answer: the corrupt states that
-- `release_task_ownership` reports do not arise.
pub apply_task_transition_returns :
    (blank : Blank) (m : TaskTransitionMutation) (db : Db)
    → IsOwned db
    → (r : TaskTransitionResult) × (db' : Db) × (apply_task_transition blank m db ≡ ok (r, db'))
unfolding apply_task_transition transition_found
apply_task_transition_returns blank m db v = elim (Option-cases (task db m.task_id)) [
  | inl e ↦ (rejected task_not_found, db, ground (arith, e))
  | inr (t, e) ↦ elim (Bool-cases (t.run_id == m.run_id)) [
    | inl same ↦ elim (Option-cases (transition t.status m.transition)) [
      | inl e' ↦ (rejected (invalid_status t.status), db, ground (arith, e, same, e'))
      | inr (s, e') ↦ elim (Bool-cases (accepted blank m t db)) [
        | inl pass ↦
            let (r, db', p) = perform_returns m t s db v e (ground arith) e' in
            (r, db', ground (arith, e, same, e', pass, p))
        | inr fail ↦ (rejected acceptance_not_met, db, ground (arith, e, same, e', fail))
      ]
    ]
    | inr other ↦ (rejected task_not_found, db, ground (arith, e, other))
  ]
]
