-- ===== src/Tests/Claims.antt =====
-- Claims of the sample store.
use coterie.Prelude.{◌≡◌, refl, arith}
use coterie.Tests.Opened.{opened}
use coterie.Tests.Samples.{sample_env, sample_store, sample_claim, claim_codec}
use coterie.Store.Records.{claimed, applied, replayed}
use coterie.Store.Tx.{Db, ok, run_transaction}
use coterie.Store.ClaimTask.{claim_task}
use coterie.Store.Ownership.{owners, active_claims, active_assignments, IsOwned}
use coterie.Store.ClaimTask.Laws.{claim_task_replay, claim_task-IsOwned}

unfoldable pub claimed_store : Db
unfolding run_transaction
claimed_store = (run_transaction (claim_task claim_codec sample_env sample_claim) sample_store).1

claim_runs :
    claim_task claim_codec sample_env sample_claim sample_store
    ≡ ok (applied (claimed 1 50), claimed_store)
unfolding claimed_store opened claim_codec
claim_runs = refl

-- The initial store: nothing is owned.
sample_store-IsOwned : IsOwned sample_store
unfolding opened owners active_claims active_assignments
sample_store-IsOwned = record {
  keyed = λ id. ground arith;
  claims = λ run id. ground arith;
  assignments = λ run id. ground arith;
}

claim_task_replay_example :
    claim_task claim_codec sample_env
      (record sample_claim { assignment_id = 51; claimed_at = 200 })
      claimed_store
    ≡ ok (replayed (claimed 1 50), claimed_store)
claim_task_replay_example =
    claim_task_replay claim_codec sample_env sample_claim
      (record sample_claim { assignment_id = 51; claimed_at = 200 }) sample_store
      (record {
        operation_id = refl;
        run_id = refl;
        actor_agent_id = refl;
        task_id = refl;
        agent_id = refl;
      })
      claim_runs

claim_task-IsOwned_example : IsOwned claimed_store
claim_task-IsOwned_example =
    claim_task-IsOwned claim_codec sample_env sample_claim sample_store sample_store-IsOwned
      claim_runs

pub claimed_store-IsOwned : IsOwned claimed_store
claimed_store-IsOwned =
    claim_task-IsOwned claim_codec sample_env sample_claim sample_store sample_store-IsOwned
      claim_runs
