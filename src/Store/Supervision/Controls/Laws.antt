-- ===== src/Store/Supervision/Controls/Laws.antt =====
-- src/state/supervision.rs: when a session gets a control, and which phase a delivery confirms.
use coterie.Prelude.{
  ℕ, ◌+◌, ◌/◌, ◌≡◌, ◌≤◌, ◌<◌, ◌↔◌, ◌⊎◌, ◌∙◌, Bool, true, false, not, ◌&&◌, ◌||◌, [], ◌∷◌, ◌++◌,
  arith, Bool-cases, Option-cases, inl, inr, if◌then◌else◌,
}
use coterie.Sql.{exists_where}
use coterie.Sql.Exists.{exists_where-append, exists_where-update_where, exists_where_never}
use coterie.Store.Control.{ControlPhase, ControlReason, SessionScope, SessionControl}
use coterie.Store.Tx.{ok, Env, Db, then-eq-ok}
use coterie.Store.Keys.{has_session}
use coterie.Store.Rows.{session_scope_is_current, active_assignment_for_agent}
use coterie.Store.Events.Frame.{OnlyLogs}
use coterie.Store.Supervision.{maximum, saturating_add}
use coterie.Store.Supervision.Frame.{supervision_event-OnlyLogs}
use coterie.Store.Supervision.Shutdown.Frame.{drain_assignment-controls}
use coterie.Store.Supervision.Controls.{
  control_phase_eq, control_row, is_controlled, control_checked, is_new_control, drain_owner,
  announce_control, request_session_control, control_phase_set, announce_phase, set_control_phase,
  marked_delivered, mark_control_delivered,
}

fits_add :
    (now_ms add_ms timeout_ms : ℕ)
    → now_ms + timeout_ms ≤ maximum
    → add_ms ≤ timeout_ms
    → saturating_add now_ms add_ms ≡ now_ms + add_ms
fits_add now_ms add_ms timeout_ms fits short = omega arith

half_lt : (n : ℕ) → 0 < n → n / 2 < n
half_lt n h = omega arith

-- The times of a new control meet the check just if the grace is at most half of the timeout.
control_checked_iff :
    (s : SessionScope) (reason : ControlReason) (now_ms grace_ms timeout_ms : ℕ)
    → now_ms + timeout_ms ≤ maximum
    → grace_ms ≤ timeout_ms
    → (control_checked (control_row s reason now_ms grace_ms timeout_ms) ≡ true)
      ↔ ((grace_ms ≤ timeout_ms / 2) × (0 < timeout_ms))
control_checked_iff s reason now_ms grace_ms timeout_ms fits short = ground (
  arith,
  fits_add now_ms grace_ms timeout_ms fits short,
  fits_add now_ms (timeout_ms / 2) timeout_ms fits (omega arith),
  fits_add now_ms timeout_ms timeout_ms fits (omega arith),
  half_lt timeout_ms,
)

drain_owner-controls :
    (env : Env) (s : SessionScope) (now_ms : ℕ) (db db' : Db)
    → drain_owner env s now_ms db ≡ ok (tt, db')
    → db'.controls ≡ db.controls
unfolding drain_owner
drain_owner-controls env s now_ms db db' h =
    elim (Option-cases (active_assignment_for_agent db s.run_id s.agent_id)) [
      | inl e ↦ ground (arith, h, e)
      | inr (a, e) ↦ (drain_assignment-controls env a now_ms db db' (ground (arith, h, e))).0
    ]

announce_control-controls :
    (env : Env) (s : SessionScope) (reason : ControlReason) (now_ms : ℕ) (db db' : Db)
    → announce_control env s reason now_ms db ≡ ok (tt, db')
    → db'.controls ≡ db.controls
unfolding announce_control
announce_control-controls env s reason now_ms db db' h =
    let (mid, first, second) = then-eq-ok (drain_owner env s now_ms) _ db h in
    (supervision_event-OnlyLogs env _ _ _ _ _ _ _ _ mid tt db' second).controls
    ∙ drain_owner-controls env s now_ms db mid first

module _ (env : Env) (s : SessionScope) (reason : ControlReason) (now_ms grace_ms timeout_ms : ℕ)
    (db db' : Db) where
  abbrev row : SessionControl
  row = control_row s reason now_ms grace_ms timeout_ms

  -- A row that fails the check on its times is ignored.
  ignored :
      session_scope_is_current db s ≡ true
      → control_checked row ≡ false
      → request_session_control env s reason now_ms grace_ms timeout_ms db ≡ ok (tt, db')
      → db' ≡ db
  unfolding request_session_control is_new_control
  ignored cur bad h = ground (arith, h, cur, bad)

  inserted :
      session_scope_is_current db s ≡ true
      → is_new_control db row ≡ true
      → request_session_control env s reason now_ms grace_ms timeout_ms db ≡ ok (tt, db')
      → db'.controls ≡ db.controls ++ row ∷ []
  unfolding request_session_control
  inserted cur new h = elim (Bool-cases (has_session db s.run_id s.agent_id s.session_id)) [
    | inr gone ↦ absurd (ground (arith, h, cur, new, gone))
    | inl here ↦
        announce_control-controls env s reason now_ms
          (record db { controls = db.controls ++ row ∷ [] }) db' (ground (arith, h, cur, new, here))
  ]

  inserted_exists :
      db'.controls ≡ db.controls ++ row ∷ [] → exists_where (is_controlled s) db'.controls ≡ true
  unfolding exists_where
  inserted_exists e =
      rw e (exists_where-append (is_controlled s) db.controls (row ∷ []) ∙ ground arith)

-- A session under a current scope that has no control yet gets one by a request just if the grace is
-- at most half of the timeout; if it is more, the request returns and changes nothing.
pub request_session_control_iff :
    (env : Env) (s : SessionScope) (reason : ControlReason) (now_ms grace_ms timeout_ms : ℕ)
    (db db' : Db)
    → session_scope_is_current db s ≡ true
    → exists_where (is_controlled s) db.controls ≡ false
    → now_ms + timeout_ms ≤ maximum
    → grace_ms < timeout_ms
    → request_session_control env s reason now_ms grace_ms timeout_ms db ≡ ok (tt, db')
    → ((exists_where (is_controlled s) db'.controls ≡ true) ↔ (grace_ms ≤ timeout_ms / 2))
      × ((grace_ms ≤ timeout_ms / 2) ⊎ (db' ≡ db))
unfolding is_new_control
request_session_control_iff env s reason now_ms grace_ms timeout_ms db db' cur new fits short h =
    elim (Bool-cases (control_checked (control_row s reason now_ms grace_ms timeout_ms))) [
      | inr bad ↦
          let same = ignored env s reason now_ms grace_ms timeout_ms db db' cur bad h in
          let late = control_checked_iff s reason now_ms grace_ms timeout_ms fits (omega arith) in
          (ground (arith, same, new, late, bad), inr same)
      | inl good ↦
          let here = inserted_exists env s reason now_ms grace_ms timeout_ms db db' (
            inserted env s reason now_ms grace_ms timeout_ms db db' cur (ground (arith, new, good))
              h) in
          let early = control_checked_iff s reason now_ms grace_ms timeout_ms fits (omega arith) in
          (ground (arith, here, early, good), inl (ground (arith, early, good)))
    ]

pub announce_phase-OnlyLogs :
    (env : Env) (c : SessionControl) (phase : ControlPhase) (now_ms : ℕ)
    → OnlyLogs (announce_phase env c phase now_ms)
unfolding announce_phase
announce_phase-OnlyLogs env c phase now_ms =
    supervision_event-OnlyLogs env c.scope.run_id _ _ _ _ _ _ now_ms

set_controls :
    (env : Env) (c : SessionControl) (phase : ControlPhase) (now_ms : ℕ) (db db' : Db)
    → session_scope_is_current db c.scope ≡ true
    → control_phase_eq phase c.phase ≡ false
    → set_control_phase env c phase now_ms db ≡ ok (tt, db')
    → db'.controls ≡ (control_phase_set c.scope phase db).controls
unfolding set_control_phase
set_controls env c phase now_ms db db' cur new h =
    (announce_phase-OnlyLogs env c phase now_ms (control_phase_set c.scope phase db) tt db'
      (ground (arith, h, cur, new))).controls

module _ (c : SessionControl) (db db' : Db) where
  marked_controls :
      session_scope_is_current db c.scope ≡ true
      → mark_control_delivered c db ≡ ok (tt, db')
      → db'.controls ≡ (marked_delivered c db).controls
  unfolding mark_control_delivered
  marked_controls cur h = ground (arith, h, cur)

  unmarked_controls :
      session_scope_is_current db c.scope ≡ false
      → mark_control_delivered c db ≡ ok (tt, db')
      → db'.controls ≡ db.controls
  unfolding mark_control_delivered
  unmarked_controls cur h = ground (arith, h, cur)

control_phase_eq_self : (p : ControlPhase) → control_phase_eq p p ≡ true
unfolding control_phase_eq
control_phase_eq_self p = ground arith

module _ (c : SessionControl) (phase : ControlPhase) (r : SessionControl) where
  -- The row after the change of phase.
  abbrev changed_row : SessionControl
  changed_row = if is_controlled c.scope r then record r { phase = phase; delivered = false } else r

  -- The test of a row of the session whose new phase is delivered, or not the new phase.
  abbrev is_wrong : SessionControl → Bool
  is_wrong x = is_controlled c.scope x && (x.delivered || not (control_phase_eq x.phase phase))

  unmarked_apart : is_wrong changed_row ≡ false
  unmarked_apart = ground (arith, control_phase_eq_self phase)

  marked_apart :
      control_phase_eq phase c.phase ≡ false
      → is_wrong (
          if is_controlled c.scope changed_row && control_phase_eq changed_row.phase c.phase
          then record changed_row { delivered = true }
          else changed_row)
        ≡ false
  marked_apart new = ground (arith, new, control_phase_eq_self phase)

-- After the phase of a control has changed, confirming the delivery of the old phase's signal leaves
-- the new phase undelivered.
pub set_control_phase-mark_control_delivered :
    (env : Env) (c : SessionControl) (phase : ControlPhase) (now_ms : ℕ) (db db' db'' : Db)
    → session_scope_is_current db c.scope ≡ true
    → control_phase_eq phase c.phase ≡ false
    → set_control_phase env c phase now_ms db ≡ ok (tt, db')
    → mark_control_delivered c db' ≡ ok (tt, db'')
    → exists_where
        (λ r. is_controlled c.scope r && (r.delivered || not (control_phase_eq r.phase phase)))
        db''.controls
      ≡ false
set_control_phase-mark_control_delivered env c phase now_ms db db' db'' cur new h k =
    let set = set_controls env c phase now_ms db db' cur new h in
    elim (Bool-cases (session_scope_is_current db' c.scope)) [
      | inl still ↦
          rw (marked_controls c db' db'' still k, set)
            (exists_where-update_where _
                (λ r. is_controlled c.scope r && control_phase_eq r.phase c.phase) _
                (control_phase_set c.scope phase db).controls
              ∙ exists_where-update_where _ (is_controlled c.scope) _ db.controls
              ∙ exists_where_never _ db.controls (λ r. marked_apart c phase r new))
      | inr over ↦
          rw (unmarked_controls c db' db'' over k, set)
            (exists_where-update_where _ (is_controlled c.scope) _ db.controls
              ∙ exists_where_never _ db.controls (λ r. unmarked_apart c phase r))
    ]
