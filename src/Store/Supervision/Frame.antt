-- ===== src/Store/Supervision/Frame.antt =====
-- src/state/supervision.rs: the transactions that only write events.
use coterie.Prelude.{
  ℕ, ◌≡◌, ◌∙◌, ap, refl, String, str_eq, Option, some, false, ◌&&◌, ◌==◌, [], ◌∷◌, ◌++◌, arith,
}
use coterie.Json.{Json}
use coterie.Sql.Exists.{exists_where-append_one}
use coterie.Store.Control.{SessionScope}
use coterie.Store.Rows.{session_scope_is_current, is_recovered, event_field, sql_eq}
use coterie.Store.Event.{EventKind, NewEvent, EventRecord}
use coterie.Store.Tx.{ok, Env, Db, return, bind-eq-ok}
use coterie.Store.Events.{insert_event, event_record, append_event}
use coterie.Store.Events.Frame.{
  Logs, OnlyLogs, append_event-OnlyLogs, bind-OnlyLogs, return-OnlyLogs,
}
use coterie.Store.Supervision.{new_supervision_event, supervision_event}

pub supervision_event-OnlyLogs :
    (env : Env) (run_id : ℕ) (kind : EventKind) (subject : String)
    (agent_id operation_id : Option ℕ) (data_ : Json) (summary : String) (now_ms : ℕ)
    → OnlyLogs
        (supervision_event env run_id kind subject agent_id operation_id data_ summary now_ms)
unfolding supervision_event
supervision_event-OnlyLogs env run_id kind subject agent_id operation_id data_ summary now_ms =
    bind-OnlyLogs
      (append_event env
        (new_supervision_event run_id kind subject agent_id operation_id data_ summary now_ms))
      (λ e. return tt) (append_event-OnlyLogs env _) (λ e. return-OnlyLogs tt)

-- An event that was appended is the last of the log.
pub append_event_log :
    (env : Env) (e : NewEvent) (db : Db) {r : EventRecord} {db' : Db}
    → append_event env e db ≡ ok (r, db')
    → (db'.events ≡ db.events ++ r ∷ []) × (r ≡ event_record env db e)
unfolding append_event insert_event
append_event_log env e db {r} {db'} h = (ground arith, ground arith)

pub supervision_event_log :
    (env : Env) (run_id : ℕ) (kind : EventKind) (subject : String)
    (agent_id operation_id : Option ℕ) (data_ : Json) (summary : String) (now_ms : ℕ) (db db' : Db)
    → supervision_event env run_id kind subject agent_id operation_id data_ summary now_ms db
      ≡ ok (tt, db')
    → db'.events
      ≡ db.events
        ++ event_record env db
            (new_supervision_event run_id kind subject agent_id operation_id data_ summary now_ms)
          ∷ []
unfolding supervision_event
supervision_event_log env run_id kind subject agent_id operation_id data_ summary now_ms db db' h =
    let (r, mid, first, second) = bind-eq-ok (append_event env _) (λ e. return tt) db h in
    let (log, row) = append_event_log env _ db first in
    ground (arith, second) ∙ log ∙ ap (λ x. db.events ++ x ∷ []) row

-- An event of another kind than a recovery leaves the current scopes current.
pub session_scope_is_current-append :
    (s : SessionScope) (db db' : Db) (r : EventRecord)
    → Logs db db'
    → db'.events ≡ db.events ++ r ∷ []
    → str_eq r.event_type "task.recovered" ≡ false
    → session_scope_is_current db' s ≡ session_scope_is_current db s
unfolding session_scope_is_current is_recovered
session_scope_is_current-append s db db' r logs log other =
    rw
      (
        logs.sessions,
        logs.agents,
        logs.runs,
        log,
        exists_where-append_one
            (λ e.
              e.run_id == s.run_id
              && (str_eq e.event_type "task.recovered"
                  && sql_eq (event_field "session_id" e) (some (Json.ident s.session_id))))
            db.events r (ground (arith, other)),
      )
      refl
