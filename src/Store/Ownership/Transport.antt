-- ===== src/Store/Ownership/Transport.antt =====
-- The ownership invariant and the tables that it reads. (src/state.rs)
use coterie.Prelude.{◌≡◌}
use coterie.Store.Tx.{Db}
use coterie.Store.Events.Frame.{Logs}
use coterie.Store.Ownership.{owners, active_claims, active_assignments, IsOwned}

pub IsOwned-tables :
    {db db' : Db}
    → db'.tasks ≡ db.tasks
    → db'.claims ≡ db.claims
    → db'.assignments ≡ db.assignments
    → IsOwned db
    → IsOwned db'
unfolding owners active_claims active_assignments
IsOwned-tables t c a v = record {
  keyed = λ id. rw t (v.keyed id);
  claims = λ run id. rw (t, c) (v.claims run id);
  assignments = λ run id. rw (t, a) (v.assignments run id);
}

pub Logs-IsOwned : {db db' : Db} → Logs db db' → IsOwned db → IsOwned db'
Logs-IsOwned l v = IsOwned-tables l.tasks l.claims l.assignments v
