-- ===== src/Store/Supervision/Keeps/Controls.antt =====
-- The operations on controls, and the table `run_shutdowns`. (src/state/supervision.rs)
use coterie.Prelude.{ℕ, not, ◌||◌, [], ◌∷◌, ◌++◌, arith, Bool-cases, Option-cases, inl, inr}
use coterie.Store.Control.{SessionScope, ControlReason, ControlPhase, SessionControl}
use coterie.Store.Tx.{Env}
use coterie.Store.Keys.{has_session}
use coterie.Store.Rows.{session_scope_is_current, active_assignment_for_agent}
use coterie.Store.Event.{EventKind}
use coterie.Store.Supervision.Controls.Laws.{announce_phase-OnlyLogs}
use coterie.Store.Supervision.Frame.{supervision_event-OnlyLogs}
use coterie.Store.Supervision.Shutdown.Frame.{drain_assignment-controls}
use coterie.Store.Supervision.Controls.{
  control_row, is_new_control, control_phase_eq, control_phase_set, announce_control, drain_owner,
  request_session_control, set_control_phase, mark_control_delivered,
}
use coterie.Store.Supervision.Keeps.{Keeps, then-Keeps}

drain_owner-Keeps : (env : Env) (s : SessionScope) (now_ms : ℕ) → Keeps (drain_owner env s now_ms)
unfolding drain_owner
drain_owner-Keeps env s now_ms db u db' h =
    elim (Option-cases (active_assignment_for_agent db s.run_id s.agent_id)) [
      | inl e ↦ ground (arith, h, e)
      | inr (a, e) ↦ (drain_assignment-controls env a now_ms db db' (ground (arith, h, e))).1
    ]

announce_control-Keeps :
    (env : Env) (s : SessionScope) (reason : ControlReason) (now_ms : ℕ)
    → Keeps (announce_control env s reason now_ms)
unfolding announce_control
announce_control-Keeps env s reason now_ms =
    then-Keeps (drain_owner env s now_ms) _ (drain_owner-Keeps env s now_ms) (λ d x d' e.
      (supervision_event-OnlyLogs env s.run_id EventKind.session_control_changed _ _ _ _ _ now_ms d
        x d' e).shutdowns)

pub request-Keeps :
    (env : Env) (s : SessionScope) (reason : ControlReason) (now_ms grace_ms timeout_ms : ℕ)
    → Keeps (request_session_control env s reason now_ms grace_ms timeout_ms)
unfolding request_session_control
request-Keeps env s reason now_ms grace_ms timeout_ms db u db' h =
    let row = control_row s reason now_ms grace_ms timeout_ms in
    elim (Bool-cases (not (session_scope_is_current db s) || not (is_new_control db row))) [
      | inl skip ↦ ground (arith, h, skip)
      | inr new ↦ elim (Bool-cases (has_session db s.run_id s.agent_id s.session_id)) [
        | inr gone ↦ absurd (ground (arith, h, new, gone))
        | inl there ↦
            announce_control-Keeps env s reason now_ms
              (record db { controls = db.controls ++ row ∷ [] }) u db'
              (ground (arith, h, new, there))
      ]
    ]

pub set_control-Keeps :
    (env : Env) (c : SessionControl) (phase : ControlPhase) (now_ms : ℕ)
    → Keeps (set_control_phase env c phase now_ms)
unfolding set_control_phase
set_control-Keeps env c phase now_ms db u db' h =
    elim (Bool-cases
      (not (session_scope_is_current db c.scope) || control_phase_eq phase c.phase)) [
        | inl skip ↦ ground (arith, h, skip)
        | inr new ↦
            (announce_phase-OnlyLogs env c phase now_ms (control_phase_set c.scope phase db) u db'
              (ground (arith, h, new))).shutdowns
      ]

pub delivered-Keeps : (c : SessionControl) → Keeps (mark_control_delivered c)
unfolding mark_control_delivered
delivered-Keeps c db u db' h = elim (Bool-cases (session_scope_is_current db c.scope)) [
  | inl cur ↦ ground (arith, h, cur)
  | inr over ↦ ground (arith, h, over)
]
