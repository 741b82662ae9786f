-- ===== src/Store/TransitionTask/Laws.antt =====
-- A lifecycle action as one mutation: the ownership invariant, and the retry.
-- (`transition_task_with_fingerprint` of src/state.rs)
use coterie.Prelude.{
  ℕ, ◌≡◌, ◌∙◌, refl, ap, Option, none, some, String, arith, Option-cases, inl, inr,
}
use coterie.Json.{Json}
use coterie.Tasks.{TaskStatus, open_, in_progress, submitted, closed, canceled}
use coterie.Store.Records.{
  TaskRecord, ClaimRecord, AssignmentRecord, MutationOutcome, applied, replayed,
  TaskTransitionMutation, TaskTransitionResult, transitioned, rejected,
}
use coterie.Store.Tx.{
  StoreError, panicked, corrupt_task_state, ok, Env, Db, Tx, ◌>>◌, return, bind-eq-ok, then-eq-ok,
}
use coterie.Store.Rows.{task, active_claim_for_task, active_assignment_for_task}
use coterie.Store.Events.Frame.{
  Logs, OnlyLogs, bind-OnlyLogs, return-OnlyLogs, read-OnlyLogs, append_event-OnlyLogs,
}
use coterie.Store.Transitions.{Blank, assignment_state, apply_task_transition}
use coterie.Store.Ownership.{IsOwned}
use coterie.Store.Ownership.Steps.{release, keep, refuse, act, transition_step}
use coterie.Store.Ownership.Release.{apply_task_transition-IsOwned}
use coterie.Store.Ownership.Transport.{IsOwned-tables, Logs-IsOwned}
use coterie.Store.Mutate.{Codec}
use coterie.Store.Mutate.Invariant.{mutate_keeps}
use coterie.Store.Mutate.Replay.{KeepsOperations, mutate_replay}
use coterie.Store.ClaimTask.Laws.{or_corrupt-OnlyLogs}
use coterie.Store.TransitionTask.{
  prepare, with_result, index_set, evidence_json, or_object, transition_mutation, status_event,
  assignment_event, release_event, or_throw, ownership_events, if_owned, transition_events,
  transition_body, transition_task_with_fingerprint,
}

or_throw-OnlyLogs : {A : Type 0} (e : StoreError) (o : Option A) → OnlyLogs (or_throw e o)
or_throw-OnlyLogs e none db a db' h = cc
or_throw-OnlyLogs e (some x) db a db' h = ground arith

ownership_events-OnlyLogs :
    (env : Env) (m : TaskTransitionMutation) (t : TaskRecord) (cause : ℕ)
    (a : Option AssignmentRecord) (c : Option ClaimRecord)
    → OnlyLogs (ownership_events env m t cause a c)
unfolding ownership_events
ownership_events-OnlyLogs env m t cause active_assignment active_claim =
    bind-OnlyLogs _ _
      (or_throw-OnlyLogs
        (corrupt_task_state m.task_id "the transitioned task had no active assignment")
        active_assignment)
      λ a.
        bind-OnlyLogs _ _
          (or_throw-OnlyLogs
            (corrupt_task_state m.task_id "the transitioned task had no active claim") active_claim)
          λ c.
            bind-OnlyLogs _ _ (or_throw-OnlyLogs panicked (assignment_state m.transition)) λ state.
              bind-OnlyLogs _ _ (append_event-OnlyLogs env (assignment_event env m t cause a state))
                λ _.
                  bind-OnlyLogs _ _ (append_event-OnlyLogs env (release_event env m t cause c))
                    λ _. return-OnlyLogs tt

if_owned-OnlyLogs :
    (s : TaskStatus) (events : Tx (Unit {0})) → OnlyLogs events → OnlyLogs (if_owned s events)
if_owned-OnlyLogs in_progress events h = h
if_owned-OnlyLogs open_ events h = return-OnlyLogs tt
if_owned-OnlyLogs submitted events h = return-OnlyLogs tt
if_owned-OnlyLogs closed events h = return-OnlyLogs tt
if_owned-OnlyLogs canceled events h = return-OnlyLogs tt

transition_events-OnlyLogs :
    (env : Env) (m : TaskTransitionMutation) (a : Option AssignmentRecord) (c : Option ClaimRecord)
    (r : TaskTransitionResult)
    → OnlyLogs (transition_events env m a c r)
unfolding transition_events
transition_events-OnlyLogs env m a c (rejected x) = return-OnlyLogs tt
transition_events-OnlyLogs env m a c (transitioned previous status) =
    bind-OnlyLogs _ _ (read-OnlyLogs (λ db. task db m.task_id)) λ found.
      bind-OnlyLogs _ _ (or_corrupt-OnlyLogs m.task_id "the transitioned task disappeared" found)
        λ t.
          bind-OnlyLogs _ _ (append_event-OnlyLogs env (status_event env m t previous status))
            λ event.
              if_owned-OnlyLogs previous (ownership_events env m t event.id a c)
                (ownership_events-OnlyLogs env m t event.id a c)

-- The body of the mutation: the action, then events.
pub transition_body_parts :
    (blank : Blank) (env : Env) (m : TaskTransitionMutation) (db : Db) {r : TaskTransitionResult}
    {db' : Db}
    → transition_body blank env m db ≡ ok (r, db')
    → (db1 : Db) × (apply_task_transition blank m db ≡ ok (r, db1)) × Logs db1 db'
unfolding transition_body
transition_body_parts blank env m db {r} {db'} h =
    let c = active_claim_for_task db m.run_id m.task_id in
    let a = active_assignment_for_task db m.run_id m.task_id in
    let (r1, db1, e, k) =
      bind-eq-ok (apply_task_transition blank m) (λ x. transition_events env m a c x >> return x) db
        h in
    let (db2, e2, k2) = then-eq-ok (transition_events env m a c r1) (return r1) db1 k in
    (
      db1,
      ground (arith, e, k2),
      ground (arith, k2, transition_events-OnlyLogs env m a c r1 db1 tt db2 e2),
    )

transition_body-KeepsOperations :
    (blank : Blank) (env : Env) (m : TaskTransitionMutation)
    → KeepsOperations (transition_body blank env m)
transition_body-KeepsOperations blank env m db r db' h =
    let (db1, e, l) = transition_body_parts blank env m db h in
    elim (transition_step blank m db e) [
      | refuse p ↦ l.operations ∙ ap (λ (d : Db). d.operations) p
      | act t s f n moves q (release state held p) ↦ l.operations ∙ ap (λ (d : Db). d.operations) p
      | act t s f n moves q (keep unheld p) ↦ l.operations ∙ ap (λ (d : Db). d.operations) p
    ]

abbrev retimed : ℕ → TaskTransitionMutation → TaskTransitionMutation
retimed later m = record m { transitioned_at = later }

with_result-retimed :
    (m : TaskTransitionMutation) (later : ℕ) (o : Option Json) (p : TaskTransitionMutation)
    → with_result m o ≡ some p
    → with_result (retimed later m) o ≡ some (retimed later p)
with_result-retimed m later none p e = cc
with_result-retimed m later (some j) p e = ground arith

-- The preparation does not read the time.
prepare-retimed :
    (m : TaskTransitionMutation) (later : ℕ) (p : TaskTransitionMutation)
    → prepare m ≡ some p
    → prepare (retimed later m) ≡ some (retimed later p)
unfolding prepare
prepare-retimed m later p e = elim (Option-cases m.operator_override) [
  | inl none_given ↦ ground (arith, none_given)
  | inr (v, given) ↦ ground (
    arith,
    given,
    with_result-retimed m later
        (index_set "operator_override" (evidence_json v) (or_object m.result)) p,
  )
]

module _ (codec : Codec TaskTransitionResult) (blank : Blank) (env : Env) where
  -- A lifecycle action, new or replayed, performed or refused, leaves every task in progress with
  -- exactly one active claim and one active assignment, and every other task with none.
  pub transition_task-IsOwned :
      (m : TaskTransitionMutation) (fingerprint : Option String) (db : Db)
      {o : MutationOutcome TaskTransitionResult} {db' : Db}
      → IsOwned db
      → transition_task_with_fingerprint codec blank env m fingerprint db ≡ ok (o, db')
      → IsOwned db'
  unfolding transition_task_with_fingerprint
  transition_task-IsOwned m fingerprint db {o} {db'} v h = elim (Option-cases (prepare m)) [
    | inl e ↦ absurd (ground (arith, e))
    | inr (p, e) ↦
        mutate_keeps codec IsOwned (λ d ops w. IsOwned-tables refl refl refl w)
          (transition_body blank env p)
          (λ d r d' w x.
            let (d1, y, l) = transition_body_parts blank env p d x in
            Logs-IsOwned l (apply_task_transition-IsOwned blank p d w y))
          (transition_mutation p) fingerprint db {o = o} {db' = db'} v (ground (arith, e))
  ]

  -- The retry of an applied action, at whatever time, gets the recorded answer and changes nothing.
  pub transition_task_replay :
      (m : TaskTransitionMutation) (later : ℕ) (fingerprint : Option String) (db : Db)
      {r : TaskTransitionResult} {db' : Db}
      → transition_task_with_fingerprint codec blank env m fingerprint db ≡ ok (applied r, db')
      → transition_task_with_fingerprint codec blank env
          (record m { transitioned_at = later })
          fingerprint
          db'
        ≡ ok (replayed r, db')
  unfolding transition_task_with_fingerprint
  transition_task_replay m later fingerprint db {r} {db'} h = elim (Option-cases (prepare m)) [
    | inl e ↦ absurd (ground (arith, e))
    | inr (p, e) ↦
        let k =
          mutate_replay codec (transition_mutation p) (transition_mutation (retimed later p))
            fingerprint (transition_body blank env p) (transition_body blank env (retimed later p))
            db {r = r} {db' = db'} (transition_body-KeepsOperations blank env p) (ground arith)
            (ground (arith, e)) in
        ground (arith, prepare-retimed m later p e, k)
  ]
