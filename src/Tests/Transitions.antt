-- ===== src/Tests/Transitions.antt =====
-- Lifecycle actions on the claimed sample task.
use coterie.Prelude.{◌≡◌, refl, Option, none, some, str_eq}
use coterie.Json.{Json, num, text, object, end, member}
use coterie.Tasks.{TaskStatus, in_progress, submitted, submit, status_str, parse_status}
use coterie.Tasks.Laws.{parse_status-status_str}
use coterie.Tests.Opened.{opened}
use coterie.Tests.Samples.{sample_env, claim_codec}
use coterie.Tests.Claims.{claimed_store, claimed_store-IsOwned}
use coterie.Store.Records.{
  TaskTransitionMutation, TaskTransitionResult, transitioned, rejected, task_not_found,
  invalid_status, acceptance_not_met, applied, replayed,
}
use coterie.Store.Tx.{Db, ok, run_transaction}
use coterie.Store.Transitions.{Blank, apply_task_transition}
use coterie.Store.TransitionTask.{transition_task_with_fingerprint}
use coterie.Store.Mutate.{Codec}
use coterie.Store.Ownership.{IsOwned}
use coterie.Store.Ownership.Release.{apply_task_transition_returns}
use coterie.Store.TransitionTask.Laws.{transition_task-IsOwned, transition_task_replay}

-- White space is counted as the empty text only.
abbrev sample_blank : Blank
sample_blank s = str_eq s ""

abbrev sample_submit : TaskTransitionMutation
sample_submit = record {
  operation_id = 41;
  run_id = 1;
  actor_agent_id = some 20;
  task_id = 30;
  transition = submit;
  result = some (text "done");
  operator_override = none;
  summary = none;
  transitioned_at = 150;
}

abbrev encode_transition : TaskTransitionResult → Json
encode_transition (transitioned s t) =
    object (member "previous" (text (status_str s)) (member "status" (text (status_str t)) end))
encode_transition (rejected task_not_found) = text "task_not_found"
encode_transition (rejected (invalid_status s)) = object (member "actual" (text (status_str s)) end)
encode_transition (rejected acceptance_not_met) = num 0

abbrev transitioned_of : Option TaskStatus → Option TaskStatus → Option TaskTransitionResult
transitioned_of (some s) (some t) = some (transitioned s t)
transitioned_of _ _ = none

abbrev invalid_of : Option TaskStatus → Option TaskTransitionResult
invalid_of (some s) = some (rejected (invalid_status s))
invalid_of none = none

abbrev decode_transition : Json → Option TaskTransitionResult
decode_transition (object (member a (text s) (member b (text t) end))) =
    transitioned_of (parse_status s) (parse_status t)
decode_transition (object (member a (text s) end)) = invalid_of (parse_status s)
decode_transition (text s) = some (rejected task_not_found)
decode_transition (num n) = some (rejected acceptance_not_met)
decode_transition _ = none

decode_transition-encode_transition :
    (r : TaskTransitionResult) → decode_transition (encode_transition r) ≡ some r
decode_transition-encode_transition (transitioned s t) =
    rw (parse_status-status_str s, parse_status-status_str t) refl
decode_transition-encode_transition (rejected task_not_found) = refl
decode_transition-encode_transition (rejected (invalid_status s)) =
    rw (parse_status-status_str s) refl
decode_transition-encode_transition (rejected acceptance_not_met) = refl

unfoldable transition_codec : Codec TaskTransitionResult
transition_codec = record {
  encode = encode_transition;
  decode = decode_transition;
  decode-encode = decode_transition-encode_transition;
}

submitted_store : Db
unfolding run_transaction
submitted_store =
    (run_transaction
      (transition_task_with_fingerprint transition_codec sample_blank sample_env sample_submit none)
      claimed_store).1

submit_runs :
    transition_task_with_fingerprint transition_codec sample_blank sample_env sample_submit none
      claimed_store
    ≡ ok (applied (transitioned in_progress submitted), submitted_store)
unfolding submitted_store claimed_store opened claim_codec transition_codec
submit_runs = refl

transition_task_replay_example :
    transition_task_with_fingerprint transition_codec sample_blank sample_env
      (record sample_submit { transitioned_at = 400 })
      none
      submitted_store
    ≡ ok (replayed (transitioned in_progress submitted), submitted_store)
transition_task_replay_example =
    transition_task_replay transition_codec sample_blank sample_env sample_submit 400 none
      claimed_store submit_runs

transition_task-IsOwned_example : IsOwned submitted_store
transition_task-IsOwned_example =
    transition_task-IsOwned transition_codec sample_blank sample_env sample_submit none
      claimed_store claimed_store-IsOwned submit_runs

apply_task_transition_returns_example :
    (r : TaskTransitionResult) × (db' : Db) × (apply_task_transition sample_blank sample_submit
        claimed_store
      ≡ ok (r, db'))
apply_task_transition_returns_example =
    apply_task_transition_returns sample_blank sample_submit claimed_store claimed_store-IsOwned
