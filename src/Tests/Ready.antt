-- ===== src/Tests/Ready.antt =====
-- The claim of a ready task of the sample store.
use coterie.Prelude.{◌≡◌, ◌↔◌, refl, true, false, ◌&&◌, [], ◌∷◌}
use coterie.Tests.Opened.{opened}
use coterie.Tests.Samples.{sample_store, sample_claim}
use coterie.Store.Records.{claimed}
use coterie.Store.Tx.{Db, ok, run_transaction}
use coterie.Store.Claims.{compare_and_set_claim}
use coterie.Store.Mutate.{pending_row}
use coterie.Store.ClaimTask.{claim_mutation}
use coterie.Store.Ready.Laws.{is_listed, is_idle, is_claimed_result, compare_and_set_claim_iff}

-- The store with the row of the operation, as `mutate` leaves it to `compare_and_set_claim`.
started_store : Db
started_store = record sample_store { operations = pending_row (claim_mutation sample_claim) ∷ [] }

taken_store : Db
unfolding run_transaction started_store
taken_store = (run_transaction (compare_and_set_claim sample_claim) started_store).1

take_runs : compare_and_set_claim sample_claim started_store ≡ ok (claimed 1 50, taken_store)
unfolding taken_store started_store opened
take_runs = refl

compare_and_set_claim_iff_example :
    ((is_claimed_result (claimed 1 50) ≡ true)
      ↔ ((is_listed started_store 1 30 && is_idle started_store 1 20) ≡ true))
    × (is_claimed_result (claimed 1 50) ≡ false → taken_store ≡ started_store)
compare_and_set_claim_iff_example =
    compare_and_set_claim_iff sample_claim started_store {r = claimed 1 50} {db' = taken_store}
      take_runs
