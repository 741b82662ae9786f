-- ===== src/Store/Mutate.antt =====
-- src/state.rs, idempotent mutations: `insert_operation`, `mutate_with_fingerprint` and `mutate`.
pub mod Replay
pub mod Invariant
use coterie.Prelude.{
  ℕ, ◌≡◌, Bool, true, false, not, ◌&&◌, ◌||◌, Option, none, some, List, [], ◌∷◌, ◌++◌, String,
  str_eq, ◌==◌, opt_eq, if◌then◌else◌,
}
use coterie.Json.{Json, json_eq}
use coterie.Sql.{exists_where, update_where}
use coterie.Store.Records.{OperationRecord, Mutation, MutationOutcome, applied, replayed}
use coterie.Store.Tx.{
  StoreError, database, encode_json, operation_conflict, operation_incomplete,
  missing_operation_result, Result, ok, err, Db, Tx, ◌>>=◌, ◌>>◌, return,
}
use coterie.Store.Keys.{has_run, has_agent, nullable}
use coterie.Store.Rows.{operation}
use coterie.Store.Transitions.{opt_str_eq}

-- The derived `Serialize` and `Deserialize` of a result type: what is written reads back.
pub record Codec (T : Type 0) : Type 0 where
  pub encode : T → Json
  pub decode : Json → Option T
  pub decode-encode : (t : T) → decode (encode t) ≡ some t

unfoldable pub operation_admitted : Db → OperationRecord → Bool
operation_admitted db o =
    not (exists_where (λ r. r.id == o.id) db.operations)
    && (has_run db o.run_id && nullable (has_agent db o.run_id) o.actor_agent_id)

unfoldable pub insert_operation : OperationRecord → Tx (Unit {0})
insert_operation o db =
    if operation_admitted db o
    then ok (tt, record db { operations = db.operations ++ o ∷ [] })
    else err database

-- The pending row of a new mutation. `insert_operation` writes no fingerprint.
abbrev pub pending_row : Mutation → OperationRecord
pending_row m = record {
  id = m.id;
  run_id = m.run_id;
  kind = m.kind;
  actor_agent_id = m.actor_agent_id;
  status = "pending";
  request = m.request;
  result = none;
  attempt_count = 1;
  reconciliation_state = none;
  reconciliation_attempt_count = 0;
  reconciliation_error = none;
  reconciled_at = none;
  created_at = m.created_at;
  updated_at = m.created_at;
  request_fingerprint = none;
}

abbrev pub set_fingerprint : ℕ → Option String → Db → Db
set_fingerprint id fingerprint db = record db {
  operations =
      update_where (λ r. r.id == id) (λ r. record r { request_fingerprint = fingerprint })
        db.operations;
}

abbrev pub set_succeeded : Mutation → Json → Db → Db
set_succeeded m encoded db = record db {
  operations =
      update_where (λ r. r.id == m.id)
        (λ r. record r { status = "succeeded"; result = some encoded; updated_at = m.created_at })
        db.operations;
}

-- Fingerprints identify the request where the stored operation has one.
unfoldable pub same_request : OperationRecord → Mutation → Option String → Bool
same_request o m fingerprint = elim o.request_fingerprint [
  | some stored ↦ opt_str_eq fingerprint (some stored)
  | none ↦ json_eq o.request m.request
]

-- The operation is bound to this run, kind, actor and request.
unfoldable pub same_mutation : OperationRecord → Mutation → Option String → Bool
unfolding same_request
same_mutation o m fingerprint =
    o.run_id == m.run_id
    && (str_eq o.kind m.kind
        && (opt_eq o.actor_agent_id m.actor_agent_id && same_request o m fingerprint))

module _ {T : Type 0} (codec : Codec T) where
  abbrev decoded : Option T → Db → Result (MutationOutcome T × Db)
  decoded none db = err encode_json
  decoded (some r) db = ok (replayed r, db)

  abbrev stored_result : ℕ → Option Json → Db → Result (MutationOutcome T × Db)
  stored_result id none db = err (missing_operation_result id)
  stored_result id (some encoded) db = decoded (codec.decode encoded) db

  -- The answer to a mutation whose identifier is taken.
  unfoldable pub replay : OperationRecord → Mutation → Option String → Tx (MutationOutcome T)
  unfolding same_mutation
  replay o m fingerprint db =
      if not (same_mutation o m fingerprint)
      then err (operation_conflict m.id)
      else if not (str_eq o.status "succeeded")
      then err (operation_incomplete m.id o.status)
      else stored_result m.id o.result db

  -- The last `UPDATE`, after `apply` has returned.
  abbrev completed : Mutation → Result (T × Db) → Result (MutationOutcome T × Db)
  completed m (ok (r, db)) = ok (applied r, set_succeeded m (codec.encode r) db)
  completed m (err e) = err e

  abbrev applied_to :
      Mutation → Option String → Tx T → Result (Unit {0} × Db) → Result (MutationOutcome T × Db)
  applied_to m fingerprint apply (ok (u, db)) =
      completed m (apply (set_fingerprint m.id fingerprint db))
  applied_to m fingerprint apply (err e) = err e

  unfoldable pub mutate_with_fingerprint : Mutation → Option String → Tx T → Tx (MutationOutcome T)
  mutate_with_fingerprint m fingerprint apply db = elim (operation db m.id) [
    | some existing ↦ replay existing m fingerprint db
    | none ↦ applied_to m fingerprint apply (insert_operation (pending_row m) db)
  ]

  unfoldable pub mutate : Mutation → Tx T → Tx (MutationOutcome T)
  unfolding mutate_with_fingerprint
  mutate m apply = mutate_with_fingerprint m none apply
