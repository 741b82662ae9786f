-- ===== src/Store/Ownership/Claim.antt =====
-- A claim under the ownership invariant. (`compare_and_set_claim` of src/state.rs)
use coterie.Prelude.{
  ℕ, ◌+◌, ◌≤◌, ◌<◌, ◌≡◌, refl, Bool, true, false, ◌&&◌, some, [], ◌∷◌, ◌++◌, ◌==◌, is_none,
  if◌then◌else◌, arith, Bool-cases, Option-cases, inl, inr,
}
use mathlib.Core.Option
use coterie.Tasks.{open_, in_progress, status_eq}
use coterie.Sql.{select_first, count_where}
use coterie.Sql.Laws.{
  select_first-update_where, count_where-update_where, count_where_congr, count_where-append,
  select_first_of_count, select_first_unique, count_where_mono, select_first_test,
}
use coterie.Store.Records.{
  TaskRecord, ClaimRecord, AssignmentRecord, ClaimTaskMutation, ClaimTaskResult, claimed,
}
use coterie.Store.Tx.{ok, Db, ◌>>◌, return, then-eq-ok}
use coterie.Store.Claims.{
  claimable, claim_row, assignment_row, mark_in_progress, next_claim_id, take_ownership,
  compare_and_set_claim, insert_claim, insert_assignment,
}
use coterie.Store.Ownership.{owners, active_claims, active_assignments, IsKeyed, IsOwned}

-- The tables after a successful claim.
abbrev pub claimed_db : ClaimTaskMutation → ℕ → Db → Db
claimed_db c generation db = record db {
  tasks = (mark_in_progress c db).tasks;
  claims = db.claims ++ claim_row c (next_claim_id db) ∷ [];
  assignments = db.assignments ++ assignment_row c (next_claim_id db) generation ∷ [];
}

-- A claim that returns leaves the tables alone, or takes the task.
pub data ClaimStep (c : ClaimTaskMutation) (db : Db) (r : ClaimTaskResult) (db' : Db) : Type 0 where
  refuse : db' ≡ db → ClaimStep c db r db'
  take :
      (generation : ℕ)
      → 0 < count_where (claimable db c) db.tasks
      → r ≡ claimed (next_claim_id db) c.assignment_id
      → db' ≡ claimed_db c generation db
      → ClaimStep c db r db'

insert_claim_tables :
    (c : ClaimRecord) (db : Db) {u : Unit {0}} {db' : Db}
    → insert_claim c db ≡ ok (u, db')
    → db' ≡ record db { claims = db.claims ++ c ∷ [] }
unfolding insert_claim
insert_claim_tables c db h = ground arith

insert_assignment_tables :
    (a : AssignmentRecord) (db : Db) {u : Unit {0}} {db' : Db}
    → insert_assignment a db ≡ ok (u, db')
    → db' ≡ record db { assignments = db.assignments ++ a ∷ [] }
unfolding insert_assignment
insert_assignment_tables a db h = ground arith

pub take_ownership_tables :
    (c : ClaimTaskMutation) (generation : ℕ) (db : Db) {r : ClaimTaskResult} {db' : Db}
    → take_ownership c generation (mark_in_progress c db) ≡ ok (r, db')
    → (r ≡ claimed (next_claim_id db) c.assignment_id) × (db' ≡ claimed_db c generation db)
unfolding take_ownership next_claim_id
take_ownership_tables c generation db h =
    let (db1, e1, h1) =
      then-eq-ok (insert_claim (claim_row c (next_claim_id db)))
        (insert_assignment (assignment_row c (next_claim_id db) generation)
          >> return (claimed (next_claim_id db) c.assignment_id))
        (mark_in_progress c db) h in
    let (db2, e2, h2) =
      then-eq-ok (insert_assignment (assignment_row c (next_claim_id db) generation))
        (return (claimed (next_claim_id db) c.assignment_id)) db1 h1 in
    let c1 = insert_claim_tables (claim_row c (next_claim_id db)) (mark_in_progress c db) e1 in
    let a1 = insert_assignment_tables (assignment_row c (next_claim_id db) generation) db1 e2 in
    (ground (arith, h2), ground (arith, h2, c1, a1))

pub claim_step :
    (c : ClaimTaskMutation) (db : Db) {r : ClaimTaskResult} {db' : Db}
    → compare_and_set_claim c db ≡ ok (r, db')
    → ClaimStep c db r db'
unfolding compare_and_set_claim
claim_step c db h =
    elim (Option-cases (select_first (λ a. a.id == c.agent_id && a.run_id == c.run_id) db.agents)) [
      | inl missing ↦ refuse (ground (arith, missing))
      | inr (a, found) ↦ elim (Bool-cases (count_where (claimable db c) db.tasks == 0)) [
        | inl zero_rows ↦ refuse (ground (arith, found, zero_rows))
        | inr some_rows ↦
            let (p, q) =
              take_ownership_tables c a.generation db (ground (arith, found, some_rows)) in
            take a.generation (ground (arith, some_rows)) p q
      ]
    ]

abbrev of_key : ℕ → ℕ → TaskRecord → Bool
of_key run id r = r.id == id && r.run_id == run

module _ (c : ClaimTaskMutation) (db : Db) (keyed : IsKeyed db) where
  -- What the claim adds to the owners of a task.
  abbrev gain : ℕ → ℕ → ℕ
  gain run id = if c.task_id == id && c.run_id == run then 1 else 0

  one_row : (run id : ℕ) → count_where (of_key run id) db.tasks ≤ 1
  one_row run id = omega (
    arith,
    keyed id,
    count_where_mono (λ r. r.id == id) (of_key run id) db.tasks (λ r h. ground arith),
  )

  claimable_key : (r : TaskRecord) → claimable db c r ≡ true → of_key c.run_id c.task_id r ≡ true
  unfolding claimable
  claimable_key r h = ground arith

  claimable_open : (r : TaskRecord) → claimable db c r ≡ true → status_eq r.status open_ ≡ true
  unfolding claimable
  claimable_open r h = ground arith

  module _ (pos : 0 < count_where (claimable db c) db.tasks) where
    -- The row that the key of the claim finds is claimable.
    found_claimable :
        (t : TaskRecord)
        → select_first (of_key c.run_id c.task_id) db.tasks ≡ some t
        → claimable db c t ≡ true
    found_claimable t e =
        select_first_unique (of_key c.run_id c.task_id) (claimable db c) db.tasks t claimable_key
          (one_row c.run_id c.task_id) pos e

    found : (t : TaskRecord) × (select_first (of_key c.run_id c.task_id) db.tasks ≡ some t)
    found = select_first_of_count (of_key c.run_id c.task_id) db.tasks (
        omega (
          arith,
          count_where_mono (of_key c.run_id c.task_id) (claimable db c) db.tasks claimable_key,
        ))

    updated :
        (run id : ℕ)
        → select_first (of_key run id) (mark_in_progress c db).tasks
          ≡ Option.map
              (λ r.
                if claimable db c r
                then record r { status = in_progress; updated_at = c.claimed_at }
                else r)
              (select_first (of_key run id) db.tasks)
    updated run id =
        select_first-update_where (of_key run id) (claimable db c)
          (λ r. record r { status = in_progress; updated_at = c.claimed_at }) db.tasks (λ r. refl)

    owners-claimed_self :
        (generation : ℕ)
        → (owners (claimed_db c generation db) c.run_id c.task_id ≡ 1)
          × (owners db c.run_id c.task_id ≡ 0)
    unfolding owners
    owners-claimed_self generation =
        let (t, e) = found in
        let k = found_claimable t e in
        let u = updated c.run_id c.task_id in
        (ground (arith, u, e, k), ground (arith, e, claimable_open t k))

    owners-claimed_other :
        (generation run id : ℕ)
        → (c.task_id == id && c.run_id == run) ≡ false
        → owners (claimed_db c generation db) run id ≡ owners db run id
    unfolding owners
    owners-claimed_other generation run id ne =
        elim (Option-cases (select_first (of_key run id) db.tasks)) [
          | inl e ↦ let u = updated run id in ground (arith, u, e)
          | inr (t, e) ↦
              let u = updated run id in
              let k = select_first_test (of_key run id) db.tasks t e in
              ground (arith, u, e, k, claimable_key t)
        ]

    owners-claimed :
        (generation run id : ℕ)
        → owners (claimed_db c generation db) run id ≡ owners db run id + gain run id
    owners-claimed generation run id = elim (Bool-cases (c.task_id == id && c.run_id == run)) [
      | inl same ↦
          let i : c.task_id ≡ id = ground arith in
          let r : c.run_id ≡ run = ground arith in
          let (after, before) = owners-claimed_self generation in
          rw (← i, ← r) (ground (arith, after, before))
      | inr other ↦ ground (arith, other, owners-claimed_other generation run id other)
    ]

  active_claims-claimed :
      (generation run id : ℕ)
      → active_claims (claimed_db c generation db) run id ≡ active_claims db run id + gain run id
  unfolding active_claims count_where
  active_claims-claimed generation run id = ground (
    arith,
    count_where-append
        (λ (x : ClaimRecord). x.task_id == id && (x.run_id == run && is_none x.released_at))
        db.claims (claim_row c (next_claim_id db) ∷ []),
  )

  active_assignments-claimed :
      (generation run id : ℕ)
      → active_assignments (claimed_db c generation db) run id
        ≡ active_assignments db run id + gain run id
  unfolding active_assignments count_where
  active_assignments-claimed generation run id = ground (
    arith,
    count_where-append
        (λ (x : AssignmentRecord). x.task_id == id && (x.run_id == run && is_none x.completed_at))
        db.assignments (assignment_row c (next_claim_id db) generation ∷ []),
  )

  IsKeyed-claimed : (generation : ℕ) → IsKeyed (claimed_db c generation db)
  IsKeyed-claimed generation id = omega (
    arith,
    keyed id,
    count_where-update_where (λ r. r.id == id) (claimable db c)
        (λ r. record r { status = in_progress; updated_at = c.claimed_at }) db.tasks,
    count_where_congr
        (λ r.
          (if claimable db c r
            then record r { status = in_progress; updated_at = c.claimed_at }
            else r).id
          == id)
        (λ r. r.id == id) db.tasks (λ r. ground arith),
  )

-- A claim, accepted or refused, leaves every task in progress with exactly one active claim and
-- one active assignment, and every other task with none.
pub compare_and_set_claim-IsOwned :
    (c : ClaimTaskMutation) (db : Db) {r : ClaimTaskResult} {db' : Db}
    → IsOwned db
    → compare_and_set_claim c db ≡ ok (r, db')
    → IsOwned db'
compare_and_set_claim-IsOwned c db v h = elim (claim_step c db h) [
  | refuse e ↦ rw e v
  | take generation pos p e ↦ rw e (record {
    keyed = IsKeyed-claimed c db v.keyed generation;
    claims = λ run id. omega (
      arith,
      v.claims run id,
      owners-claimed c db v.keyed pos generation run id,
      active_claims-claimed c db v.keyed generation run id,
    );
    assignments = λ run id. omega (
      arith,
      v.assignments run id,
      owners-claimed c db v.keyed pos generation run id,
      active_assignments-claimed c db v.keyed generation run id,
    );
  })
]
