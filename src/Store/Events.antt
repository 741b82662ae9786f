-- ===== src/Store/Events.antt =====
-- src/state.rs, the event table: `insert_event`, `append_event`, `events_after`.
pub mod Frame
pub mod Sequence
pub mod Pages
use coterie.Prelude.{
  ℕ, suc, ◌+◌, ◌*◌, Bool, true, false, not, ◌&&◌, ◌||◌, Option, none, some, List, [], ◌∷◌, ◌++◌,
  String, str_eq, ltb, leb, ◌==◌, if◌then◌else◌, take,
}
use coterie.Json.{Json, num, object, end, member}
use coterie.Sql.{exists_where, max_where, select_all, order_by}
use coterie.Store.Event.{EventKind, event_kind_str, EventRecord, NewEvent}
use coterie.Store.Tx.{StoreError, database, event_too_large, Result, ok, err, Env, Db, Tx}
use coterie.Store.Keys.{
  has_run, has_project, has_agent, has_task, has_operation, has_event, nullable,
}

abbrev pub maximum_event_page_length : ℕ
maximum_event_page_length = 900 * 1024

-- The constraints of the table `events`: its keys, the check on the sequence, its foreign keys.
unfoldable pub event_admitted : Db → EventRecord → Bool
event_admitted db e =
    not (exists_where (λ r. r.id == e.id) db.events)
    && (not (exists_where (λ r. r.run_id == e.run_id && r.sequence == e.sequence) db.events)
        && (ltb 0 e.sequence
            && (has_run db e.run_id
                && (nullable (has_project db e.run_id) e.project_id
                    && (nullable (has_agent db e.run_id) e.agent_id
                        && (nullable (has_task db e.run_id) e.task_id
                            && (nullable (has_operation db e.run_id) e.operation_id
                                && (nullable (has_event db e.run_id) e.correlation_id
                                    && nullable (has_event db e.run_id) e.causation_id))))))))

unfoldable pub insert_event : Env → EventRecord → Tx (Unit {0})
insert_event env e db =
    if ltb maximum_event_page_length (env.event_size e)
    then err (event_too_large e.id)
    else if event_admitted db e
    then ok (tt, record db { events = db.events ++ e ∷ [] })
    else err database

-- The next sequence number of a run.
unfoldable pub next_sequence : ℕ → List EventRecord → ℕ
next_sequence run events = max_where (λ r. r.run_id == run) (λ r. r.sequence) events + 1

-- The record that `append_event` builds for a new event.
unfoldable pub event_record : Env → Db → NewEvent → EventRecord
event_record env db e = record {
  id = env.event_id db.generated;
  run_id = e.run_id;
  sequence = next_sequence e.run_id db.events;
  event_type = event_kind_str e.kind;
  actor = e.actor;
  subject = e.subject;
  project_id = e.project_id;
  agent_id = e.agent_id;
  task_id = e.task_id;
  operation_id = e.operation_id;
  correlation_id = e.correlation_id;
  causation_id = e.causation_id;
  payload = object (member "data" e.data_ (member "schema_version" (num 1) end));
  summary = e.summary;
  created_at = e.created_at;
}

unfoldable pub append_event : Env → NewEvent → Tx EventRecord
append_event env e db =
    let event = event_record env db e in
    elim (insert_event env event (record db { generated = suc db.generated })) [
      | ok (u, db') ↦ ok (event, db')
      | err x ↦ err x
    ]

-- The loop of `events_after` over the rows that its query returns: a page ends before the record
-- that would take it over the limit, unless the page is empty.
unfoldable pub page_of : Env → ℕ → Bool → List EventRecord → List EventRecord
page_of env size started [] = []
page_of env size started (e ∷ es) =
    let rest = page_of env (size + env.event_size e) true es in
    if started && ltb maximum_event_page_length (size + env.event_size e) then [] else e ∷ rest

unfoldable pub events_after : Env → ℕ → ℕ → ℕ → Db → List EventRecord
unfolding page_of
events_after env run after limit db = page_of env 0 false (
    take limit (
      order_by (λ r. r.sequence)
        (select_all (λ r. r.run_id == run && ltb after r.sequence) db.events)))
