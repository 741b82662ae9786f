-- ===== src/Store/Mutate/Invariant.antt =====
-- Predicates on the tables across a mutation. (`mutate_with_fingerprint` of src/state.rs)
use coterie.Prelude.{◌≡◌, refl, Option, none, some, List, String, arith, Option-cases, inl, inr}
use coterie.Store.Records.{OperationRecord, Mutation, MutationOutcome}
use coterie.Store.Tx.{Result, ok, err, Db, Tx}
use coterie.Store.Rows.{operation}
use coterie.Store.Mutate.{
  Codec, insert_operation, pending_row, set_fingerprint, set_succeeded, replay, decoded, completed,
  applied_to, mutate_with_fingerprint,
}

insert_tables :
    (o : OperationRecord) (db : Db) {u : Unit {0}} {db' : Db}
    → insert_operation o db ≡ ok (u, db')
    → (rows : List OperationRecord) × (db' ≡ record db { operations = rows })
unfolding insert_operation
insert_tables o db {u} {db'} h = (db'.operations, ground arith)

module _ {T : Type 0} (codec : Codec T) where
  decoded_unchanged :
      (x : Option T) (db : Db) {o : MutationOutcome T} {db' : Db}
      → decoded codec x db ≡ ok (o, db')
      → db' ≡ db
  decoded_unchanged none db h = cc
  decoded_unchanged (some r) db h = ground arith

  -- A replay changes nothing, whatever it answers.
  pub replay_unchanged :
      (e : OperationRecord) (m : Mutation) (fingerprint : Option String) (db : Db)
      {o : MutationOutcome T} {db' : Db}
      → replay codec e m fingerprint db ≡ ok (o, db')
      → db' ≡ db
  unfolding replay
  replay_unchanged e m fingerprint db {o} {db'} h = elim (Option-cases e.result) [
    | inl p ↦ absurd (ground (arith, p))
    | inr (encoded, p) ↦
        ground (arith, p, decoded_unchanged (codec.decode encoded) db {o = o} {db' = db'})
  ]

  module _ {ℓ} (P : Db → Type ℓ)
      (rows : (db : Db) (ops : List OperationRecord) → P db → P (record db { operations = ops }))
      (apply : Tx T)
      (keeps : (db : Db) (r : T) (db' : Db) → P db → apply db ≡ ok (r, db') → P db') where
    completed_keeps :
        (m : Mutation) (x : Result (T × Db)) {o : MutationOutcome T} {db' : Db}
        → ((r : T) (db1 : Db) → x ≡ ok (r, db1) → P db1)
        → completed codec m x ≡ ok (o, db')
        → P db'
    completed_keeps m (ok (r, db1)) {o} {db'} hx h =
        let e : db' ≡ set_succeeded m (codec.encode r) db1 = ground arith in
        rw e (rows db1 _ (hx r db1 refl))
    completed_keeps m (err e) hx h = cc

    applied_keeps :
        (m : Mutation) (fingerprint : Option String) (x : Result (Unit {0} × Db))
        {o : MutationOutcome T} {db' : Db}
        → ((db1 : Db) → x ≡ ok (tt, db1) → P db1)
        → applied_to codec m fingerprint apply x ≡ ok (o, db')
        → P db'
    applied_keeps m fingerprint (ok (u, db1)) hx h =
        completed_keeps m (apply (set_fingerprint m.id fingerprint db1))
          (λ r db2 e.
            keeps (set_fingerprint m.id fingerprint db1) r db2 (rows db1 _ (hx db1 refl)) e)
          h
    applied_keeps m fingerprint (err e) hx h = cc

    pub mutate_keeps :
        (m : Mutation) (fingerprint : Option String) (db : Db) {o : MutationOutcome T} {db' : Db}
        → P db
        → mutate_with_fingerprint codec m fingerprint apply db ≡ ok (o, db')
        → P db'
    unfolding mutate_with_fingerprint
    mutate_keeps m fingerprint db {o} {db'} p h = elim (Option-cases (operation db m.id)) [
      | inl free ↦
          applied_keeps m fingerprint (insert_operation (pending_row m) db) {o = o} {db' = db'}
            (λ db1 e. let (ops, q) = insert_tables (pending_row m) db e in rw q (rows db ops p))
            (ground (arith, free))
      | inr (e, taken) ↦
          rw (replay_unchanged e m fingerprint db {o = o} {db' = db'} (ground (arith, taken))) p
    ]
