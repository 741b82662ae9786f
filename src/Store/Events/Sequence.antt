-- ===== src/Store/Events/Sequence.antt =====
-- The numbers of the events of a run. (`append_event` of src/state.rs)
use coterie.Prelude.{
  ℕ, suc, ◌+◌, ◌≡◌, refl, ap, ◌∙◌, Bool, true, ◌&&◌, List, [], ◌∷◌, ◌++◌, ◌==◌, max, length, arith,
  Bool-cases, inl, inr,
}
use coterie.Sql.{max_where, select_all}
use coterie.Sql.Order.{select_all-append, max_where-select_all}
use coterie.Store.Event.{EventRecord, NewEvent}
use coterie.Store.Tx.{ok, Env, Db}
use coterie.Store.Events.{insert_event, next_sequence, event_record, append_event}

-- The events of a run, in the order of the log.
abbrev pub log_of : ℕ → List EventRecord → List EventRecord
log_of run events = select_all (λ r. r.run_id == run) events

-- The events are numbered one by one after `n`.
unfoldable pub consecutive : ℕ → List EventRecord → Bool
consecutive n [] = true
consecutive n (e ∷ es) = e.sequence == suc n && consecutive (suc n) es

-- The events of each run are numbered 1, 2, … in the order of the log.
unfoldable pub IsNumbered : List EventRecord → Type 0
IsNumbered events = (run : ℕ) → consecutive 0 (log_of run events) ≡ true

consecutive-append :
    (n : ℕ) (es : List EventRecord) (e : EventRecord)
    → consecutive n es ≡ true
    → e.sequence ≡ suc (n + length es)
    → consecutive n (es ++ e ∷ []) ≡ true
unfolding consecutive
consecutive-append n [] e h k = ground (arith, k)
consecutive-append n (x ∷ es) e h k =
    ground (arith, consecutive-append (suc n) es e (ground arith) (omega (arith, k)))

consecutive-max :
    (n : ℕ) (es : List EventRecord)
    → consecutive n es ≡ true
    → max n (max_where (λ r. true) (λ r. r.sequence) es) ≡ n + length es
unfolding consecutive max_where
consecutive-max n [] h = omega arith
consecutive-max n (e ∷ es) h =
    let s : e.sequence ≡ suc n = ground arith in
    omega (arith, s, consecutive-max (suc n) es (ground arith))

-- The number that `append_event` takes is the next one.
next_sequence-IsNumbered :
    (run : ℕ) (events : List EventRecord)
    → IsNumbered events
    → next_sequence run events ≡ suc (length (log_of run events))
unfolding IsNumbered next_sequence
next_sequence-IsNumbered run events v = omega (
  arith,
  max_where-select_all (λ r. r.run_id == run) (λ r. r.sequence) events,
  consecutive-max 0 (log_of run events) (v run),
)

append_event_parts :
    (env : Env) (e : NewEvent) (db : Db) {event : EventRecord} {db' : Db}
    → append_event env e db ≡ ok (event, db')
    → (event ≡ event_record env db e) × (db'.events ≡ db.events ++ event ∷ [])
unfolding append_event insert_event
append_event_parts env e db {event} {db'} h = ground arith

append_nil : (es : List EventRecord) → es ++ [] ≡ es
append_nil [] = refl
append_nil (e ∷ es) = ap (λ l. e ∷ l) (append_nil es)

IsNumbered-append :
    (events : List EventRecord) (e : EventRecord)
    → IsNumbered events
    → e.sequence ≡ suc (length (log_of e.run_id events))
    → IsNumbered (events ++ e ∷ [])
unfolding IsNumbered
IsNumbered-append events e v k run = elim (Bool-cases (e.run_id == run)) [
  | inl same ↦
      let r : e.run_id ≡ run = ground arith in
      rw (select_all-append (λ r. r.run_id == run) events e, same)
        (consecutive-append 0 (log_of run events) e (v run)
          (omega (arith, k, ap (λ n. length (log_of n events)) r)))
  | inr other ↦
      rw (select_all-append (λ r. r.run_id == run) events e, other, append_nil (log_of run events))
        (v run)
]

-- An append that returns puts the event at the end of the log with the number after those of its
-- run, so that, if the events of every run were numbered from 1 without gaps, they are so again.
pub append_event-IsNumbered :
    (env : Env) (e : NewEvent) (db : Db) {event : EventRecord} {db' : Db}
    → IsNumbered db.events
    → append_event env e db ≡ ok (event, db')
    → (db'.events ≡ db.events ++ event ∷ [])
      × (event.sequence ≡ suc (length (log_of e.run_id db.events)))
      × IsNumbered db'.events
unfolding event_record
append_event-IsNumbered env e db {event} {db'} v h =
    let (p, q) = append_event_parts env e db {event = event} {db' = db'} h in
    let n = next_sequence-IsNumbered e.run_id db.events v in
    let s : event.sequence ≡ suc (length (log_of e.run_id db.events)) =
      ap (λ (x : EventRecord). x.sequence) p ∙ n in
    let r : event.run_id ≡ e.run_id = ap (λ (x : EventRecord). x.run_id) p in
    (q, s, rw q (IsNumbered-append db.events event v (rw r s)))
