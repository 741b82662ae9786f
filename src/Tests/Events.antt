-- ===== src/Tests/Events.antt =====
-- The log of the sample run after one claim.
use coterie.Prelude.{ℕ, suc, ◌≡◌, ◌≤◌, ◌<◌, refl, ◌++◌, [], ◌∷◌, take, drop, length}
use coterie.Sql.{select_all}
use coterie.Json.{object, end}
use coterie.Tests.Opened.{opened}
use coterie.Tests.Samples.{sample_env, sample_store}
use coterie.Store.Event.{EventRecord, NewEvent, task_created}
use coterie.Store.Tx.{Db, ok}
use coterie.Store.Events.{append_event, event_record, events_after}
use coterie.Store.Events.Sequence.{log_of, consecutive, IsNumbered, append_event-IsNumbered}
use coterie.Store.Events.Pages.{events_after_page}
use mathlib.Core.Option.{none}

abbrev sample_event : NewEvent
sample_event = record {
  run_id = 1;
  kind = task_created;
  actor = "operator";
  subject = "task";
  project_id = none;
  agent_id = none;
  task_id = none;
  operation_id = none;
  correlation_id = none;
  causation_id = none;
  data_ = object end;
  summary = "Created.";
  created_at = 11;
}

empty_log-IsNumbered : IsNumbered []
unfolding IsNumbered consecutive select_all
empty_log-IsNumbered run = refl

logged_event : EventRecord
unfolding event_record
logged_event = event_record sample_env sample_store sample_event

logged_store : Db
logged_store = record sample_store { generated = 1; events = logged_event ∷ [] }

append_runs : append_event sample_env sample_event sample_store ≡ ok (logged_event, logged_store)
unfolding logged_event logged_store opened
append_runs = refl

append_event-IsNumbered_example :
    (logged_store.events ≡ sample_store.events ++ logged_event ∷ [])
    × (logged_event.sequence ≡ suc (length (log_of 1 sample_store.events)))
    × IsNumbered logged_store.events
append_event-IsNumbered_example =
    append_event-IsNumbered sample_env sample_event sample_store {event = logged_event}
      {db' = logged_store} empty_log-IsNumbered append_runs

logged_store-IsNumbered : IsNumbered logged_store.events
logged_store-IsNumbered =
    (append_event-IsNumbered sample_env sample_event sample_store {event = logged_event}
      {db' = logged_store} empty_log-IsNumbered append_runs).2

events_after_page_example :
    (m : ℕ) × (m ≤ 5)
    × (events_after sample_env 1 0 5 logged_store ≡ take m (drop 0 (log_of 1 logged_store.events)))
    × (0 < 5 → 0 < length (log_of 1 logged_store.events) → 0 < m)
events_after_page_example = events_after_page sample_env 1 0 5 logged_store logged_store-IsNumbered
