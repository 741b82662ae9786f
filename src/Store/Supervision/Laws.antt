-- ===== src/Store/Supervision/Laws.antt =====
-- The warning of a deadline and the idle cursor. (src/state/supervision.rs)
use coterie.Prelude.{
  ℕ, zero, suc, take, ◌≡◌, ◌∙◌, sym, refl, subst, eq_iff, true, false, ◌||◌, ◌==◌, some, none, [],
  ◌∷◌, ◌++◌, String, str_eq, arith, Bool-cases, inl, inr,
}
use coterie.Json.{num, object, member, end, json_eq, get, get_member}
use coterie.Sql.{exists_where, order_by, max_where}
use coterie.Sql.Exists.{exists_where-append, exists_where_antitone}
use coterie.Store.Control.{SessionScope}
use coterie.Store.Event.{EventKind, EventRecord, event_kind_str}
use coterie.Store.Tx.{ok, Env, Db}
use coterie.Store.Events.{event_record, events_after, page_of}
use coterie.Store.Events.Frame.{Logs}
use coterie.Store.Operations.{operations_requiring_reconciliation, requires_reconciliation}
use coterie.Sql.Order.{select_all_none, max_where_exceeded}
use coterie.Store.Rows.{session_scope_is_current, event_field, sql_eq}
use coterie.Store.Supervision.{
  is_warned, warn_job_deadline, announce_deadline, idle_shutdown_cursor, is_idle,
  is_unsettled_operation, new_supervision_event,
}
use coterie.Store.Supervision.Frame.{
  supervision_event_log, supervision_event-OnlyLogs, session_scope_is_current-append,
}

str_eq_self : (s : String) → str_eq s s ≡ true
str_eq_self s = (eq_iff s s).1 refl

-- The event of a warning.
abbrev warning : Env → Db → SessionScope → ℕ → ℕ → EventRecord
warning env db s deadline_at now_ms = event_record env db (
    new_supervision_event s.run_id EventKind.session_deadline_approaching (env.display s.session_id)
      (some s.agent_id) none
      (object (member "deadline_at" (num deadline_at) (member "generation" (num s.generation) end)))
      "Background job deadline is approaching; complete pending review and commit handoff before the worker exits."
      now_ms)

warning-is_warned :
    (env : Env) (db : Db) (s : SessionScope) (deadline_at now_ms : ℕ)
    → is_warned env s (warning env db s deadline_at now_ms) ≡ true
unfolding is_warned event_record event_kind_str event_field get get_member sql_eq json_eq
warning-is_warned env db s deadline_at now_ms =
    ground (arith, str_eq_self (env.display s.session_id))

module _ (env : Env) (s : SessionScope) (db db' : Db) (deadline_at now_ms : ℕ) where
  announced_log :
      announce_deadline env s deadline_at now_ms db ≡ ok (tt, db')
      → db'.events ≡ db.events ++ warning env db s deadline_at now_ms ∷ []
  unfolding announce_deadline
  announced_log h =
      supervision_event_log env s.run_id EventKind.session_deadline_approaching _ _ _ _ _ now_ms db
        db' h

  announced-Logs : announce_deadline env s deadline_at now_ms db ≡ ok (tt, db') → Logs db db'
  unfolding announce_deadline
  announced-Logs h =
      supervision_event-OnlyLogs env s.run_id EventKind.session_deadline_approaching _ _ _ _ _
        now_ms db tt db' h

module _ (env : Env) (s : SessionScope) (db db' : Db) (deadline_at now_ms : ℕ) where
  warn_again :
      session_scope_is_current db s ≡ true
      → exists_where (is_warned env s) db.events ≡ true
      → warn_job_deadline env s deadline_at now_ms db ≡ ok (tt, db)
  unfolding warn_job_deadline
  warn_again cur already = ground (arith, cur, already)

  warn_first :
      session_scope_is_current db s ≡ true
      → exists_where (is_warned env s) db.events ≡ false
      → warn_job_deadline env s deadline_at now_ms db ≡ ok (tt, db')
      → db'.events ≡ db.events ++ warning env db s deadline_at now_ms ∷ []
  unfolding warn_job_deadline
  warn_first cur first h =
      announced_log env s db db' deadline_at now_ms (ground (arith, cur, first, h))

  warn_same :
      session_scope_is_current db s ≡ true
      → exists_where (is_warned env s) db.events ≡ true
      → warn_job_deadline env s deadline_at now_ms db ≡ ok (tt, db')
      → db ≡ db'
  unfolding warn_job_deadline
  warn_same cur already h = ground (arith, cur, already, h)

  found_last :
      (exists_where (is_warned env s) db.events
        || exists_where (is_warned env s) (warning env db s deadline_at now_ms ∷ []))
      ≡ true
  unfolding exists_where
  found_last = ground (arith, warning-is_warned env db s deadline_at now_ms)

  warned_scope :
      session_scope_is_current db s ≡ true
      → warn_job_deadline env s deadline_at now_ms db ≡ ok (tt, db')
      → session_scope_is_current db' s ≡ true
  unfolding warn_job_deadline event_record event_kind_str
  warned_scope cur h = elim (Bool-cases (exists_where (is_warned env s) db.events)) [
    | inl already ↦ subst (λ d. session_scope_is_current d s ≡ true) (warn_same cur already h) cur
    | inr first ↦
        session_scope_is_current-append s db db' (warning env db s deadline_at now_ms)
          (announced-Logs env s db db' deadline_at now_ms (ground (arith, cur, first, h)))
          (warn_first cur first h) refl
        ∙ cur
  ]

  -- The warning that was appended is found by the next search.
  warned_row :
      session_scope_is_current db s ≡ true
      → warn_job_deadline env s deadline_at now_ms db ≡ ok (tt, db')
      → exists_where (is_warned env s) db'.events ≡ true
  warned_row cur h = elim (Bool-cases (exists_where (is_warned env s) db.events)) [
    | inl already ↦ rw (sym (warn_same cur already h)) already
    | inr first ↦ rw (warn_first cur first h) (
        exists_where-append (is_warned env s) db.events (warning env db s deadline_at now_ms ∷ [])
        ∙ found_last)
  ]

-- A generation of a session is warned once: after a warning that returned, a further one, at any time
-- and of any deadline, changes nothing.
pub warn_job_deadline_again :
    (env : Env) (s : SessionScope) (deadline_at now_ms deadline_at' later_ms : ℕ) (db db' : Db)
    → session_scope_is_current db s ≡ true
    → warn_job_deadline env s deadline_at now_ms db ≡ ok (tt, db')
    → (exists_where (is_warned env s) db'.events ≡ true)
      × (warn_job_deadline env s deadline_at' later_ms db' ≡ ok (tt, db'))
warn_job_deadline_again env s deadline_at now_ms deadline_at' later_ms db db' cur h =
    let found = warned_row env s db db' deadline_at now_ms cur h in
    let still = warned_scope env s db db' deadline_at now_ms cur h in
    (found, warn_again env s db' db' deadline_at' later_ms still found)

settled_operations :
    (run_id : ℕ) (db : Db)
    → exists_where (is_unsettled_operation run_id) db.operations ≡ false
    → operations_requiring_reconciliation db run_id ≡ []
unfolding operations_requiring_reconciliation requires_reconciliation order_by
settled_operations run_id db none_left =
    rw
      (select_all_none (requires_reconciliation run_id) db.operations (
        exists_where_antitone (is_unsettled_operation run_id) (requires_reconciliation run_id)
          db.operations (λ o hit. ground (arith, hit)) none_left))
      refl

take_nothing : {A : Type 0} (n : ℕ) → take {A = A} n [] ≡ []
take_nothing zero = refl
take_nothing (suc n) = refl

no_later_events :
    (env : Env) (run_id limit : ℕ) (db : Db)
    → events_after env run_id
        (max_where (λ e. e.run_id == run_id) (λ e. e.sequence) db.events)
        limit
        db
      ≡ []
unfolding events_after page_of order_by
no_later_events env run_id limit db =
    rw
      (
        select_all_none _ db.events (
            max_where_exceeded (λ e. e.run_id == run_id) (λ e. e.sequence)
              (max_where (λ e. e.run_id == run_id) (λ e. e.sequence) db.events) db.events
              (omega arith)),
        take_nothing {A = EventRecord} limit,
      )
      refl

idle_facts :
    (run_id cursor : ℕ) (db : Db)
    → idle_shutdown_cursor db run_id ≡ some cursor
    → (exists_where (is_unsettled_operation run_id) db.operations ≡ false)
      × (max_where (λ e. e.run_id == run_id) (λ e. e.sequence) db.events ≡ cursor)
unfolding idle_shutdown_cursor is_idle
idle_facts run_id cursor db h = elim (Bool-cases (is_idle db run_id)) [
  | inr busy ↦ absurd (ground (arith, h, busy))
  | inl idle ↦ (ground (arith, idle), ground (arith, h, idle))
]

-- Nothing of the run is left to reconcile or to read where its idle cursor exists: no operation
-- requires reconciliation, and no event follows the cursor.
pub idle_shutdown_cursor_settled :
    (env : Env) (run_id limit cursor : ℕ) (db : Db)
    → idle_shutdown_cursor db run_id ≡ some cursor
    → (operations_requiring_reconciliation db run_id ≡ [])
      × (events_after env run_id cursor limit db ≡ [])
idle_shutdown_cursor_settled env run_id limit cursor db h =
    let (none_left, last) = idle_facts run_id cursor db h in
    (
      settled_operations run_id db none_left,
      subst (λ c. events_after env run_id c limit db ≡ []) last
          (no_later_events env run_id limit db),
    )
