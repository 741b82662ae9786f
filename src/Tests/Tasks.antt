-- ===== src/Tests/Tasks.antt =====
-- The task and process lifecycles at concrete states.
use coterie.Prelude.{◌≡◌, refl, ◌↔◌, ◌⊎◌, true, false, some}
use coterie.Tasks.{
  TaskStatus, status_str, TaskTransition, open_, in_progress, submitted, closed, canceled,
  parse_status, can_transition_to, transition,
}
use coterie.Tasks.Laws.{
  can_transition_to_iff, terminal_iff, parse_status-status_str, parse_status_sound,
}
use coterie.Lifecycle.{exited, lost, lifecycle_eq, allows, is_terminal}
use coterie.Lifecycle.Laws.{allows-is_terminal}

can_transition_to_iff_example : (can_transition_to submitted closed ≡ true) ↔ (
    ((submitted ≡ open_) × (closed ≡ in_progress))
    ⊎ ((a : TaskTransition) × (transition submitted a ≡ some closed)))
can_transition_to_iff_example = can_transition_to_iff submitted closed

terminal_iff_example :
    ((t : TaskStatus) → can_transition_to closed t ≡ false)
    ↔ ((closed ≡ closed) ⊎ (closed ≡ canceled))
terminal_iff_example = terminal_iff closed

parse_status-status_str_example : parse_status (status_str in_progress) ≡ some in_progress
parse_status-status_str_example = parse_status-status_str in_progress

parse_status_sound_example : "open" ≡ status_str open_
unfolding parse_status
parse_status_sound_example = parse_status_sound "open" open_ refl

allows-is_terminal_example : allows lost exited ≡ false
unfolding is_terminal lifecycle_eq
allows-is_terminal_example = allows-is_terminal lost exited
