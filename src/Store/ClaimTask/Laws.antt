-- ===== src/Store/ClaimTask/Laws.antt =====
-- The claim of a task as one mutation: the ownership invariant, and the retry. (`claim_task` of
-- src/state.rs)
use coterie.Prelude.{ℕ, ◌≡◌, ◌∙◌, refl, ap, Option, none, some, String, arith}
use coterie.Store.Records.{
  TaskRecord, MutationOutcome, applied, replayed, ClaimTaskMutation, ClaimTaskResult, claimed,
  rejected,
}
use coterie.Store.Tx.{ok, Env, Recovery, Db, ◌>>◌, return, bind-eq-ok, then-eq-ok}
use coterie.Store.Rows.{agent, task}
use coterie.Store.Events.{append_event}
use coterie.Store.Events.Frame.{
  Logs, OnlyLogs, bind-OnlyLogs, return-OnlyLogs, read-OnlyLogs, append_event-OnlyLogs,
}
use coterie.Store.Claims.{compare_and_set_claim}
use coterie.Store.Ownership.{IsOwned}
use coterie.Store.Ownership.Claim.{refuse, take, claim_step, compare_and_set_claim-IsOwned}
use coterie.Store.Ownership.Transport.{IsOwned-tables, Logs-IsOwned}
use coterie.Store.Mutate.{Codec, mutate}
use coterie.Store.Mutate.Invariant.{mutate_keeps}
use coterie.Store.Mutate.Replay.{KeepsOperations, SameIntent, mutate_replay}
use coterie.Store.ClaimTask.{
  pending_recovery, continuation_event, link_to, link_continuation, lifecycle_event, claimed_event,
  created_event, or_corrupt, append_task_claim_events, claim_mutation, claim_body, claim_task,
}

pub or_corrupt-OnlyLogs :
    (id : ℕ) (reason : String) (t : Option TaskRecord) → OnlyLogs (or_corrupt id reason t)
or_corrupt-OnlyLogs id reason none db a db' h = cc
or_corrupt-OnlyLogs id reason (some t) db a db' h = ground arith

pending_recovery-OnlyLogs :
    (env : Env) (run_id task_id : ℕ) → OnlyLogs (pending_recovery env run_id task_id)
unfolding pending_recovery
pending_recovery-OnlyLogs env run_id task_id db a db' h = ground arith

link_to-OnlyLogs :
    (env : Env) (c : ClaimTaskMutation) (r : Option Recovery) → OnlyLogs (link_to env c r)
link_to-OnlyLogs env c none = return-OnlyLogs tt
link_to-OnlyLogs env c (some source) =
    bind-OnlyLogs (append_event env (continuation_event env c source)) (λ _. return tt)
      (append_event-OnlyLogs env (continuation_event env c source)) (λ _. return-OnlyLogs tt)

link_continuation-OnlyLogs :
    (env : Env) (c : ClaimTaskMutation) → OnlyLogs (link_continuation env c)
unfolding link_continuation
link_continuation-OnlyLogs env c =
    bind-OnlyLogs (pending_recovery env c.run_id c.task_id) (link_to env c)
      (pending_recovery-OnlyLogs env c.run_id c.task_id) (link_to-OnlyLogs env c)

claim_events-OnlyLogs :
    (env : Env) (c : ClaimTaskMutation) (r : ClaimTaskResult)
    → OnlyLogs (append_task_claim_events env c r)
unfolding append_task_claim_events
claim_events-OnlyLogs env c (rejected x) = return-OnlyLogs tt
claim_events-OnlyLogs env c (claimed claim_id assignment_id) =
    bind-OnlyLogs _ _ (read-OnlyLogs (λ db. task db c.task_id)) λ found.
      bind-OnlyLogs _ _ (or_corrupt-OnlyLogs c.task_id "the claimed task disappeared" found) λ t.
        bind-OnlyLogs _ _ (append_event-OnlyLogs env (lifecycle_event env c t)) λ first.
          bind-OnlyLogs _ _
            (append_event-OnlyLogs env (claimed_event env c t claim_id assignment_id first.id))
            λ _. bind-OnlyLogs _ _ (read-OnlyLogs (λ db. agent db c.agent_id)) λ owner.
              bind-OnlyLogs _ _
                (append_event-OnlyLogs env
                  (created_event env c t claim_id assignment_id first.id owner))
                λ _. link_continuation-OnlyLogs env c

-- The body of `claim_task`: the compare-and-set, then events.
pub claim_body_parts :
    (env : Env) (c : ClaimTaskMutation) (db : Db) {r : ClaimTaskResult} {db' : Db}
    → claim_body env c db ≡ ok (r, db')
    → (db1 : Db) × (compare_and_set_claim c db ≡ ok (r, db1)) × Logs db1 db'
unfolding claim_body
claim_body_parts env c db {r} {db'} h =
    let (r1, db1, e, k) =
      bind-eq-ok (compare_and_set_claim c) (λ x. append_task_claim_events env c x >> return x) db
        h in
    let (db2, e2, k2) = then-eq-ok (append_task_claim_events env c r1) (return r1) db1 k in
    (db1, ground (arith, e, k2), ground (arith, k2, claim_events-OnlyLogs env c r1 db1 tt db2 e2))

claim_body-KeepsOperations :
    (env : Env) (c : ClaimTaskMutation) → KeepsOperations (claim_body env c)
claim_body-KeepsOperations env c db r db' h =
    let (db1, e, l) = claim_body_parts env c db h in
    elim (claim_step c db e) [
      | refuse p ↦ l.operations ∙ ap (λ (d : Db). d.operations) p
      | take g pos q p ↦ l.operations ∙ ap (λ (d : Db). d.operations) p
    ]

-- The claim of a task, new or replayed, accepted or refused, leaves every task in progress with
-- exactly one active claim and one active assignment, and every other task with none.
pub claim_task-IsOwned :
    (codec : Codec ClaimTaskResult) (env : Env) (c : ClaimTaskMutation) (db : Db)
    {o : MutationOutcome ClaimTaskResult} {db' : Db}
    → IsOwned db
    → claim_task codec env c db ≡ ok (o, db')
    → IsOwned db'
unfolding claim_task mutate
claim_task-IsOwned codec env c db v h =
    mutate_keeps codec IsOwned (λ d ops w. IsOwned-tables refl refl refl w) (claim_body env c)
      (λ d r d' w e.
        let (d1, p, l) = claim_body_parts env c d e in
        Logs-IsOwned l (compare_and_set_claim-IsOwned c d w p))
      (claim_mutation c) none db v h

-- The caller repeats a claim: a retry may bring a new assignment identifier and time.
pub record SameClaim (c c' : ClaimTaskMutation) : Type 0 where
  pub operation_id : c'.operation_id ≡ c.operation_id
  pub run_id : c'.run_id ≡ c.run_id
  pub actor_agent_id : c'.actor_agent_id ≡ c.actor_agent_id
  pub task_id : c'.task_id ≡ c.task_id
  pub agent_id : c'.agent_id ≡ c.agent_id

SameClaim-SameIntent :
    (c c' : ClaimTaskMutation) → SameClaim c c' → SameIntent (claim_mutation c) (claim_mutation c')
SameClaim-SameIntent c c' s = ground arith

-- A claim that was applied is never applied again: its retry, with another assignment identifier
-- and another time, gets the recorded answer, and the store stays as it is.
pub claim_task_replay :
    (codec : Codec ClaimTaskResult) (env : Env) (c c' : ClaimTaskMutation) (db : Db)
    {r : ClaimTaskResult} {db' : Db}
    → SameClaim c c'
    → claim_task codec env c db ≡ ok (applied r, db')
    → claim_task codec env c' db' ≡ ok (replayed r, db')
unfolding claim_task mutate
claim_task_replay codec env c c' db s h =
    mutate_replay codec (claim_mutation c) (claim_mutation c') none (claim_body env c)
      (claim_body env c') db (claim_body-KeepsOperations env c) (SameClaim-SameIntent c c' s) h
