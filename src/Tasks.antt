-- ===== src/Tasks.antt =====
-- src/tasks.rs: the task lifecycle and the facts from which readiness is derived.
-- Identifiers are numbers, here and in every other module.
pub mod Laws
use coterie.Prelude.{
  ℕ, Bool, true, false, not, ◌&&◌, Option, none, some, List, [], ◌∷◌, String, str_eq, if◌then◌else◌,
}

pub data TaskStatus : Type 0 where
  open_ in_progress submitted closed canceled : TaskStatus

pub data TaskTransition : Type 0 where
  reopen submit close cancel : TaskTransition

unfoldable pub status_eq : TaskStatus → TaskStatus → Bool
status_eq open_ open_ = true
status_eq in_progress in_progress = true
status_eq submitted submitted = true
status_eq closed closed = true
status_eq canceled canceled = true
status_eq _ _ = false

-- `TaskTransition` derives `PartialEq`.
unfoldable pub transition_eq : TaskTransition → TaskTransition → Bool
transition_eq reopen reopen = true
transition_eq submit submit = true
transition_eq close close = true
transition_eq cancel cancel = true
transition_eq _ _ = false

unfoldable pub status_str : TaskStatus → String
status_str open_ = "open"
status_str in_progress = "in_progress"
status_str submitted = "submitted"
status_str closed = "closed"
status_str canceled = "canceled"

unfoldable pub transition_str : TaskTransition → String
transition_str reopen = "reopen"
transition_str submit = "submit"
transition_str close = "close"
transition_str cancel = "cancel"

-- `FromStr for TaskStatus`: `none` is `ParseTaskStatusError`.
unfoldable pub parse_status : String → Option TaskStatus
parse_status s =
    if str_eq s "open"
    then some open_
    else if str_eq s "in_progress"
    then some in_progress
    else if str_eq s "submitted"
    then some submitted
    else if str_eq s "closed"
    then some closed
    else if str_eq s "canceled"
    then some canceled
    else none

unfoldable pub can_transition_to : TaskStatus → TaskStatus → Bool
can_transition_to open_ in_progress = true
can_transition_to open_ canceled = true
can_transition_to in_progress open_ = true
can_transition_to in_progress submitted = true
can_transition_to in_progress canceled = true
can_transition_to submitted open_ = true
can_transition_to submitted closed = true
can_transition_to submitted canceled = true
can_transition_to _ _ = false

unfoldable pub transition : TaskStatus → TaskTransition → Option TaskStatus
transition in_progress reopen = some open_
transition submitted reopen = some open_
transition in_progress submit = some submitted
transition submitted close = some closed
transition open_ cancel = some canceled
transition in_progress cancel = some canceled
transition submitted cancel = some canceled
transition _ _ = none

pub record TaskReadiness : Type 0 where
  pub status : TaskStatus
  pub unresolved_dependencies : List ℕ
  pub has_active_claim : Bool

abbrev pub is_empty : List ℕ → Bool
is_empty [] = true
is_empty (x ∷ xs) = false

unfoldable pub is_ready : TaskReadiness → Bool
unfolding status_eq
is_ready r =
    status_eq r.status open_ && is_empty r.unresolved_dependencies && not r.has_active_claim
