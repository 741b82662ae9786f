-- ===== src/Store/Messages/Laws.antt =====
-- Acknowledging messages up to a cursor, and doing it again. (src/state.rs)
use coterie.Prelude.{ℕ, ◌≡◌, refl, false, max, List, [], ◌∷◌, ltb, leb, arith}
use coterie.Sql.{exists_where, count_where, update_where, max_where}
use coterie.Store.Records.{MessageRecord, AcknowledgeMessagesMutation, acknowledged}
use coterie.Store.Tx.{ok, Db}
use coterie.Store.Messages.{
  to_agent, was_acknowledged, is_covered, is_refused, set_acknowledged,
  apply_message_acknowledgement,
}

abbrev again : AcknowledgeMessagesMutation → ℕ → AcknowledgeMessagesMutation
again a later = record a { acknowledged_at = later }

module _ (a : AcknowledgeMessagesMutation) (later : ℕ) where
  highest_kept :
      (ms : List MessageRecord)
      → max_where (to_agent a) (λ m. m.sequence) (set_acknowledged a ms)
        ≡ max_where (to_agent a) (λ m. m.sequence) ms
  unfolding max_where update_where
  highest_kept [] = refl
  highest_kept (m ∷ ms) = ground (arith, highest_kept ms)

  none_covered :
      (ms : List MessageRecord)
      → count_where (is_covered (again a later)) (set_acknowledged a ms) ≡ 0
  unfolding count_where update_where
  none_covered [] = refl
  none_covered (m ∷ ms) = ground (arith, none_covered ms)

  none_refused :
      (ms : List MessageRecord)
      → exists_where (is_refused (again a later)) (set_acknowledged a ms) ≡ false
  unfolding exists_where update_where
  none_refused [] = refl
  none_refused (m ∷ ms) = ground (arith, none_refused ms)

  acknowledged_kept :
      (ms : List MessageRecord)
      → set_acknowledged (again a later) (set_acknowledged a ms) ≡ set_acknowledged a ms
  unfolding update_where
  acknowledged_kept [] = refl
  acknowledged_kept (m ∷ ms) = ground (arith, acknowledged_kept ms)

  cursor_kept :
      (ms : List MessageRecord)
      → max (max_where (was_acknowledged a) (λ m. m.sequence) (set_acknowledged a ms)) a.through
        ≡ max (max_where (was_acknowledged a) (λ m. m.sequence) ms) a.through
  unfolding max_where update_where
  cursor_kept [] = refl
  cursor_kept (m ∷ ms) = ground (arith, cursor_kept ms)

-- What an acknowledgement that was performed has done.
acknowledged_parts :
    (a : AcknowledgeMessagesMutation) (db : Db) {through count : ℕ} {db' : Db}
    → apply_message_acknowledgement a db ≡ ok (acknowledged through count, db')
    → (leb a.through 0 ≡ false)
      × (ltb (max_where (to_agent a) (λ m. m.sequence) db.messages) a.through ≡ false)
      × (through ≡ max (max_where (was_acknowledged a) (λ m. m.sequence) db.messages) a.through)
      × (db' ≡ record db { messages = set_acknowledged a db.messages })
unfolding apply_message_acknowledgement
acknowledged_parts a db {through} {count} {db'} h = ground arith

-- An acknowledgement that was performed leaves no message up to its cursor pending, and doing it
-- again, at whatever time, answers the same cursor, acknowledges nothing and changes nothing.
pub apply_message_acknowledgement_again :
    (a : AcknowledgeMessagesMutation) (later : ℕ) (db : Db) {through count : ℕ} {db' : Db}
    → apply_message_acknowledgement a db ≡ ok (acknowledged through count, db')
    → (count_where (is_covered a) db'.messages ≡ 0)
      × (apply_message_acknowledgement (record a { acknowledged_at = later }) db'
          ≡ ok (acknowledged through 0, db'))
unfolding apply_message_acknowledgement
apply_message_acknowledgement_again a later db {through} {count} {db'} h =
    let (p, q, t, e) = acknowledged_parts a db {through = through} {count = count} {db' = db'} h in
    rw (e, t)
      (
        none_covered a a.acknowledged_at db.messages,
        rw
            (
              highest_kept a later db.messages,
              p,
              q,
              none_refused a later db.messages,
              cursor_kept a later db.messages,
              none_covered a later db.messages,
              acknowledged_kept a later db.messages,
            )
            refl,
      )
