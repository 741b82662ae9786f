-- ===== src/Tests/Config.antt =====
-- Configurations of supervision and of limits.
use coterie.Prelude.{◌≡◌, ◌≤◌, ◌<◌, refl, none, some, [], true, arith}
use coterie.Policy.{RunLimits, limits_intersect}
use coterie.Config.{
  ConfigLayer, SupervisionPolicy, compiled_supervision, SupervisionOverrides, pos, ok,
  record_origin, insert_origin, positive_bound, resolve_supervision, LimitOverrides, apply_limits,
}
use coterie.Config.Laws.{
  IsBounded, allows_limit, resolve_supervision-IsBounded, apply_limits_bounds,
}

defaults-IsBounded : IsBounded compiled_supervision
defaults-IsBounded = ground arith

abbrev slow_grace : SupervisionOverrides
slow_grace = record {
  restart_window_seconds = none;
  max_launch_attempts = none;
  restart_backoff_seconds = none;
  startup_timeout_seconds = none;
  job_timeout_seconds = none;
  interrupt_grace_ms = some (pos 3000);
  shutdown_timeout_ms = none;
  idle_timeout_seconds = none;
}

abbrev slow_policy : SupervisionPolicy
slow_policy = record compiled_supervision { interrupt_grace_ms = 3000 }

resolve_runs :
    resolve_supervision compiled_supervision slow_grace []
    ≡ ok (slow_policy, record_origin "supervision.interrupt_grace_ms" ConfigLayer.global [])
unfolding resolve_supervision positive_bound insert_origin
resolve_runs = refl

resolve_supervision-IsBounded_example : IsBounded slow_policy × (3000 < 5000)
resolve_supervision-IsBounded_example =
    resolve_supervision-IsBounded compiled_supervision slow_grace []
      (record_origin "supervision.interrupt_grace_ms" ConfigLayer.global []) slow_policy
      defaults-IsBounded resolve_runs

abbrev compiled_limits : RunLimits
compiled_limits = record {
  max_concurrent_agents = 8;
  max_agents_per_run = 16;
  max_spawns_per_minute = 8;
}

abbrev fewer_agents : LimitOverrides
fewer_agents = record {
  max_concurrent_agents = some 4;
  max_agents_per_run = none;
  max_spawns_per_minute = none;
}

abbrev reduced_limits : RunLimits
reduced_limits = record compiled_limits { max_concurrent_agents = 4 }

apply_runs :
    apply_limits compiled_limits fewer_agents (some compiled_limits) ConfigLayer.project []
    ≡ ok (reduced_limits, record_origin "limits.max_concurrent_agents" ConfigLayer.project [])
unfolding apply_limits limits_intersect insert_origin
apply_runs = refl

apply_limits_bounds_example :
    ((4 ≤ 8) × (16 ≤ 16) × (8 ≤ 8))
    × (allows_limit (some 4) 4 ≡ true)
    × (allows_limit none 16 ≡ true)
    × (allows_limit none 8 ≡ true)
apply_limits_bounds_example =
    apply_limits_bounds compiled_limits fewer_agents compiled_limits ConfigLayer.project []
      (record_origin "limits.max_concurrent_agents" ConfigLayer.project []) reduced_limits
      apply_runs
