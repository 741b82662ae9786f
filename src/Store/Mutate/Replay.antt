-- ===== src/Store/Mutate/Replay.antt =====
-- A mutation that is called again. (`mutate_with_fingerprint` of src/state.rs)
use coterie.Prelude.{
  ℕ, ◌≡◌, ◌≢◌, refl, ◌∙◌, ap, Bool, true, false, Option, none, some, List, [], ◌∷◌, String, ◌==◌,
  ==_refl, opt_eq, arith, Option-cases, inl, inr,
}
use text.Mathlib.TextPositions.{eq_refl}
use coterie.Json.{Json}
use coterie.Json.Laws.{json_eq_refl}
use coterie.Sql.{select_first, update_where}
use coterie.Sql.Laws.{select_first-update_where, select_first-append, select_first_test}
use coterie.Store.Records.{OperationRecord, Mutation, applied, replayed}
use coterie.Store.Tx.{Result, operation_conflict, ok, err, Db, Tx}
use coterie.Store.Rows.{operation}
use coterie.Store.Mutate.{
  Codec, insert_operation, pending_row, set_fingerprint, set_succeeded, same_mutation, replay,
  decoded, completed, applied_to, mutate_with_fingerprint,
}

-- `apply` leaves the operations alone.
abbrev pub KeepsOperations : {T : Type 0} → Tx T → Type 0
KeepsOperations {T} apply =
    (db : Db) (r : T) (db' : Db) → apply db ≡ ok (r, db') → db'.operations ≡ db.operations

-- The row that a completed mutation leaves.
abbrev pub done_row : Mutation → Option String → Json → OperationRecord
done_row m fingerprint encoded = record (pending_row m) {
  status = "succeeded";
  result = some encoded;
  request_fingerprint = fingerprint;
}

-- The row in a table to which the new operation was added.
inserted_row :
    (m : Mutation) (db : Db) {u : Unit {0}} {db' : Db}
    → operation db m.id ≡ none
    → insert_operation (pending_row m) db ≡ ok (u, db')
    → operation db' m.id ≡ some (pending_row m)
unfolding operation insert_operation select_first
inserted_row m db e h = ground (
  arith,
  select_first-append (λ (r : OperationRecord). r.id == m.id) db.operations (pending_row m ∷ []) e,
)

-- The row of an operation after an update of it.
updated_row :
    (id : ℕ) (f : OperationRecord → OperationRecord) (rows : List OperationRecord)
    (o : OperationRecord)
    → ((r : OperationRecord) → (f r).id ≡ r.id)
    → select_first (λ r. r.id == id) rows ≡ some o
    → select_first (λ r. r.id == id) (update_where (λ r. r.id == id) f rows) ≡ some (f o)
updated_row id f rows o h e =
    select_first-update_where (λ r. r.id == id) (λ r. r.id == id) f rows
      (λ r. ap (λ n. n == id) (h r))
    ∙ ground (arith, e, select_first_test (λ (r : OperationRecord). r.id == id) rows o e)

-- The caller asks again for the same mutation; the times may differ.
pub record SameIntent (m m' : Mutation) : Type 0 where
  pub id : m'.id ≡ m.id
  pub run_id : m'.run_id ≡ m.run_id
  pub kind : m'.kind ≡ m.kind
  pub actor_agent_id : m'.actor_agent_id ≡ m.actor_agent_id
  pub request : m'.request ≡ m.request

opt_eq_refl : (o : Option ℕ) → opt_eq o o ≡ true
opt_eq_refl none = refl
opt_eq_refl (some n) = ==_refl n

done_row-same_mutation :
    (m m' : Mutation) (fingerprint : Option String) (encoded : Json)
    → SameIntent m m'
    → same_mutation (done_row m fingerprint encoded) m' fingerprint ≡ true
unfolding same_mutation
done_row-same_mutation m m' none encoded v =
    rw (v.run_id, v.kind, v.actor_agent_id, v.request)
      (ground (arith, eq_refl m.kind, opt_eq_refl m.actor_agent_id, json_eq_refl m.request))
done_row-same_mutation m m' (some text) encoded v =
    rw (v.run_id, v.kind, v.actor_agent_id)
      (ground (arith, eq_refl m.kind, opt_eq_refl m.actor_agent_id, eq_refl text))

module _ {T : Type 0} (codec : Codec T) where
  completed_tables :
      (m : Mutation) (x : Result (T × Db)) {r : T} {db' : Db}
      → completed codec m x ≡ ok (applied r, db')
      → (db1 : Db) × (x ≡ ok (r, db1)) × (db' ≡ set_succeeded m (codec.encode r) db1)
  completed_tables m (ok (r, db1)) h = (db1, ground arith, ground arith)
  completed_tables m (err e) h = cc

  applied_tables :
      (m : Mutation) (fingerprint : Option String) (apply : Tx T) (x : Result (Unit {0} × Db))
      {r : T} {db' : Db}
      → applied_to codec m fingerprint apply x ≡ ok (applied r, db')
      → (db1 db2 : Db) × (x ≡ ok (tt, db1))
        × (apply (set_fingerprint m.id fingerprint db1) ≡ ok (r, db2))
        × (db' ≡ set_succeeded m (codec.encode r) db2)
  applied_tables m fingerprint apply (ok (u, db1)) h =
      let (db2, e, k) = completed_tables m (apply (set_fingerprint m.id fingerprint db1)) h in
      (db1, db2, refl, e, k)
  applied_tables m fingerprint apply (err e) h = cc

  not_replayed :
      (x : Option T) (db : Db) {r : T} {db' : Db} → decoded codec x db ≢ ok (applied r, db')
  not_replayed none db h = cc
  not_replayed (some r) db h = cc

  replay-ne-applied :
      (o : OperationRecord) (m : Mutation) (fingerprint : Option String) (db : Db) {r : T}
      {db' : Db}
      → replay codec o m fingerprint db ≢ ok (applied r, db')
  unfolding replay
  replay-ne-applied o m fingerprint db h = elim (Option-cases o.result) [
    | inl e ↦ ground (arith, e)
    | inr (encoded, e) ↦ ground (arith, e, not_replayed (codec.decode encoded) db)
  ]

  -- A mutation that was applied leaves its row with the result.
  pub applied_row :
      (m : Mutation) (fingerprint : Option String) (apply : Tx T) (db : Db) {r : T} {db' : Db}
      → KeepsOperations apply
      → mutate_with_fingerprint codec m fingerprint apply db ≡ ok (applied r, db')
      → operation db' m.id ≡ some (done_row m fingerprint (codec.encode r))
  unfolding mutate_with_fingerprint operation
  applied_row m fingerprint apply db {r} {db'} keep h = elim (Option-cases (operation db m.id)) [
    | inl free ↦
        let (db1, db2, e1, e2, e3) =
          applied_tables m fingerprint apply (insert_operation (pending_row m) db) {r = r}
            {db' = db'} (ground (arith, free)) in
        let by_id : OperationRecord → Bool = λ o. o.id == m.id in
        let row1 = inserted_row m db free e1 in
        let row2 =
          updated_row m.id (λ o. record o { request_fingerprint = fingerprint }) db1.operations
            (pending_row m) (λ o. refl) row1 in
        let kept = keep (set_fingerprint m.id fingerprint db1) r db2 e2 in
        let row3 =
          updated_row m.id
            (λ o. record o {
              status = "succeeded";
              result = some (codec.encode r);
              updated_at = m.created_at;
            })
            db2.operations (record (pending_row m) { request_fingerprint = fingerprint })
            (λ o. refl) (ap (select_first by_id) kept ∙ row2) in
        rw e3 row3
    | inr (o, taken) ↦
        absurd (replay-ne-applied o m fingerprint db {r = r} {db' = db'} (ground (arith, taken)))
  ]

  -- A mutation that was applied is not applied again: whoever asks for it once more, with any body
  -- and at any time, gets the stored result and changes nothing.
  pub mutate_replay :
      (m m' : Mutation) (fingerprint : Option String) (apply apply' : Tx T) (db : Db) {r : T}
      {db' : Db}
      → KeepsOperations apply
      → SameIntent m m'
      → mutate_with_fingerprint codec m fingerprint apply db ≡ ok (applied r, db')
      → mutate_with_fingerprint codec m' fingerprint apply' db' ≡ ok (replayed r, db')
  unfolding mutate_with_fingerprint replay
  mutate_replay m m' fingerprint apply apply' db {r} {db'} keep v h = ground (
    arith,
    v.id,
    ap (operation db') v.id ∙ applied_row m fingerprint apply db keep h,
    done_row-same_mutation m m' fingerprint (codec.encode r) v,
    codec.decode-encode r,
  )

  -- An identifier that is bound to another run, kind, actor or request is refused, and nothing
  -- changes.
  pub mutate_conflict :
      (m : Mutation) (fingerprint : Option String) (apply : Tx T) (db : Db) (o : OperationRecord)
      → operation db m.id ≡ some o
      → same_mutation o m fingerprint ≡ false
      → mutate_with_fingerprint codec m fingerprint apply db ≡ err (operation_conflict m.id)
  unfolding mutate_with_fingerprint replay
  mutate_conflict m fingerprint apply db o e d = ground (arith, e, d)
