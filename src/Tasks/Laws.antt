-- ===== src/Tasks/Laws.antt =====
-- The lifecycle of src/tasks.rs: its actions against its table of moves, and its terminal states.
use coterie.Prelude.{◌≡◌, ◌↔◌, ◌⊎◌, inl, inr, refl, true, false, some, String, arith, eq_iff}
use coterie.Tasks.{
  TaskStatus, open_, in_progress, submitted, closed, canceled, TaskTransition, reopen, submit,
  close, cancel, status_eq, status_str, parse_status, can_transition_to, transition,
}

pub status_eq_iff : (s t : TaskStatus) → (status_eq s t ≡ true) ↔ (s ≡ t)
unfolding status_eq
status_eq_iff s t = ground arith

-- A move of the table that is no claim is made by an action.
move_action :
    (s t : TaskStatus)
    → can_transition_to s t ≡ true
    → ((s ≡ open_) × (t ≡ in_progress)) ⊎ ((a : TaskTransition) × (transition s a ≡ some t))
unfolding can_transition_to transition
move_action open_ in_progress h = inl (refl, refl)
move_action open_ canceled h = inr (cancel, refl)
move_action in_progress open_ h = inr (reopen, refl)
move_action in_progress submitted h = inr (submit, refl)
move_action in_progress canceled h = inr (cancel, refl)
move_action submitted open_ h = inr (reopen, refl)
move_action submitted closed h = inr (close, refl)
move_action submitted canceled h = inr (cancel, refl)
move_action _ _ h = cc

action_move :
    (s t : TaskStatus)
    → ((s ≡ open_) × (t ≡ in_progress)) ⊎ ((a : TaskTransition) × (transition s a ≡ some t))
    → can_transition_to s t ≡ true
unfolding can_transition_to transition
action_move s t (inl (p, q)) = rw (p, q)
action_move s t (inr (a, e)) = ground arith

-- `can_transition_to` allows exactly the claim, which moves an open task to in progress, and the
-- moves that some lifecycle action makes.
pub can_transition_to_iff :
    (s t : TaskStatus)
    → (can_transition_to s t ≡ true)
      ↔ (((s ≡ open_) × (t ≡ in_progress)) ⊎ ((a : TaskTransition) × (transition s a ≡ some t)))
can_transition_to_iff s t = (move_action s t, action_move s t)

-- Closed and canceled tasks are the ones that no move leaves.
pub terminal_iff :
    (s : TaskStatus)
    → ((t : TaskStatus) → can_transition_to s t ≡ false) ↔ ((s ≡ closed) ⊎ (s ≡ canceled))
unfolding can_transition_to
terminal_iff open_ = ((λ h. cc (h canceled)), λ e. ground arith)
terminal_iff in_progress = ((λ h. cc (h canceled)), λ e. ground arith)
terminal_iff submitted = ((λ h. cc (h canceled)), λ e. ground arith)
terminal_iff closed = ((λ h. inl refl), λ e t. refl)
terminal_iff canceled = ((λ h. inr refl), λ e t. refl)

-- The text that is stored for a status reads back as that status.
pub parse_status-status_str : (s : TaskStatus) → parse_status (status_str s) ≡ some s
unfolding parse_status status_str
parse_status-status_str open_ = refl
parse_status-status_str in_progress = refl
parse_status-status_str submitted = refl
parse_status-status_str closed = refl
parse_status-status_str canceled = refl

-- A text that reads as a status is the text that is stored for it.
pub parse_status_sound :
    (text : String) (s : TaskStatus) → parse_status text ≡ some s → text ≡ status_str s
unfolding parse_status status_str
parse_status_sound text s h = ground (
  arith,
  eq_iff text "open",
  eq_iff text "in_progress",
  eq_iff text "submitted",
  eq_iff text "closed",
  eq_iff text "canceled",
)
