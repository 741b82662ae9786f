-- ===== src/Config.antt =====
-- src/config/resolver.rs, `resolve_supervision` and `apply_limits`, with their inputs of
-- src/config/input.rs and the origins of src/config/provenance.rs.
pub mod Laws
use coterie.Prelude.{
  ℕ, ◌-◌, ◌^◌, ◌/◌, Bool, true, false, not, ◌&&◌, ◌||◌, Option, none, some, List, [], ◌∷◌, String,
  str_eq, leb, ltb, ◌==◌, if◌then◌else◌,
}
use coterie.Policy.{RunLimits, limits_intersect}

-- The integers, as inputs before their bounds are checked.
pub data ℤ : Type 0 where
  pos negsuc : ℕ → ℤ

pub data ConfigLayer : Type 0 where
  compiled builtin global project operator : ConfigLayer

pub record ConfigSource : Type 0 where
  pub layer : ConfigLayer
  pub file : Option ℕ
  pub field : String

pub record ValueProvenance : Type 0 where
  pub source : ConfigSource
  pub selected_by : Option ConfigSource

-- A `BTreeMap` as an association list.
abbrev pub Provenance : Type 0
Provenance = List (String × ValueProvenance)

unfoldable pub insert_origin : String → ValueProvenance → Provenance → Provenance
insert_origin k v [] = (k, v) ∷ []
insert_origin k v ((j, w) ∷ rest) =
    let tail = insert_origin k v rest in if str_eq j k then (k, v) ∷ rest else (j, w) ∷ tail

abbrev pub direct : ConfigLayer → String → ValueProvenance
direct layer field = record {
  source = record { layer = layer; file = none; field = field };
  selected_by = none;
}

-- `provenance::record`.
abbrev pub record_origin : String → ConfigLayer → Provenance → Provenance
record_origin field layer = insert_origin field (direct layer field)

-- `ConfigError::Invalid`, whose path is added by the loader.
pub data ConfigError : Type 0 where
  invalid : ConfigLayer → String → String → ConfigError

pub data Checked (A : Type 0) : Type 0 where
  ok : A → Checked A
  err : ConfigError → Checked A

module _ {A B : Type 0} where
  infixl 5 ◌>>=◌
  abbrev pub ◌>>=◌ : Checked A → (A → Checked B) → Checked B
  ok a >>= f = f a
  err e >>= f = err e

pub record SupervisionPolicy : Type 0 where
  pub restart_window_seconds : ℕ
  pub max_launch_attempts : ℕ
  pub restart_backoff_seconds : ℕ
  pub startup_timeout_seconds : ℕ
  pub job_timeout_seconds : ℕ
  pub interrupt_grace_ms : ℕ
  pub shutdown_timeout_ms : ℕ
  pub idle_timeout_seconds : ℕ

pub record SupervisionOverrides : Type 0 where
  pub restart_window_seconds : Option ℤ
  pub max_launch_attempts : Option ℤ
  pub restart_backoff_seconds : Option ℤ
  pub startup_timeout_seconds : Option ℤ
  pub job_timeout_seconds : Option ℤ
  pub interrupt_grace_ms : Option ℤ
  pub shutdown_timeout_ms : Option ℤ
  pub idle_timeout_seconds : Option ℤ

-- `i64::MAX / 1_000`.
abbrev pub largest_bound : ℕ
largest_bound = (2 ^ 63 - 1) / 1000

-- A value that `value <= 0 || value > i64::MAX / 1_000` does not refuse.
unfoldable pub positive_bound : ℤ → Option ℕ
positive_bound (negsuc n) = none
positive_bound (pos n) = if ltb 0 n && leb n largest_bound then some n else none

-- A value of `0..=i64::MAX / 1_000`.
unfoldable pub nonnegative_bound : ℤ → Option ℕ
nonnegative_bound (negsuc n) = none
nonnegative_bound (pos n) = if leb n largest_bound then some n else none

-- The policy and the origins so far.
abbrev pub Resolving : Type 0
Resolving = SupervisionPolicy × Provenance

-- The macro `apply!`: a value that is given is checked, assigned and recorded.
unfoldable pub apply_bound :
    (ℤ → Option ℕ)
    → String
    → String
    → (ℕ → SupervisionPolicy → SupervisionPolicy)
    → Option ℤ
    → Resolving
    → Checked Resolving
apply_bound bound reason field set none r = ok r
apply_bound bound reason field set (some value) (policy, origins) = elim (bound value) [
  | none ↦ err (invalid global field reason)
  | some n ↦ ok (set n policy, record_origin field global origins)
]

abbrev pub apply_positive :
    String → (ℕ → SupervisionPolicy → SupervisionPolicy) → Option ℤ → Resolving → Checked Resolving
apply_positive =
    apply_bound positive_bound "supervision bounds must be positive and fit millisecond arithmetic"

-- The applications in their order.
abbrev pub overrides : SupervisionOverrides → List (Resolving → Checked Resolving)
overrides input =
    apply_positive "supervision.restart_window_seconds"
      (λ n p. record p { restart_window_seconds = n }) input.restart_window_seconds
    ∷ apply_positive "supervision.max_launch_attempts" (λ n p. record p { max_launch_attempts = n })
        input.max_launch_attempts
    ∷ apply_positive "supervision.restart_backoff_seconds"
        (λ n p. record p { restart_backoff_seconds = n }) input.restart_backoff_seconds
    ∷ apply_positive "supervision.startup_timeout_seconds"
        (λ n p. record p { startup_timeout_seconds = n }) input.startup_timeout_seconds
    ∷ apply_positive "supervision.job_timeout_seconds" (λ n p. record p { job_timeout_seconds = n })
        input.job_timeout_seconds
    ∷ apply_positive "supervision.interrupt_grace_ms" (λ n p. record p { interrupt_grace_ms = n })
        input.interrupt_grace_ms
    ∷ apply_positive "supervision.shutdown_timeout_ms" (λ n p. record p { shutdown_timeout_ms = n })
        input.shutdown_timeout_ms
    ∷ apply_bound nonnegative_bound
        "idle timeout must be nonnegative and fit millisecond arithmetic"
        "supervision.idle_timeout_seconds" (λ n p. record p { idle_timeout_seconds = n })
        input.idle_timeout_seconds
    ∷ []

-- Statements that each end the function by an error or go on.
unfoldable pub apply_all : List (Resolving → Checked Resolving) → Resolving → Checked Resolving
apply_all [] r = ok r
apply_all (f ∷ fs) r = f r >>= apply_all fs

-- The last check.
unfoldable pub check_grace : Resolving → Checked Resolving
check_grace (policy, origins) =
    if leb policy.shutdown_timeout_ms policy.interrupt_grace_ms
    then err (
        invalid global "supervision.interrupt_grace_ms"
          "interrupt grace must be shorter than the overall shutdown timeout")
    else ok (policy, origins)

-- The policy, and the provenance that the caller's `&mut` refers to afterwards.
unfoldable pub resolve_supervision :
    SupervisionPolicy → SupervisionOverrides → Provenance → Checked Resolving
unfolding apply_bound apply_all check_grace
resolve_supervision policy input origins =
    apply_all (overrides input) (policy, origins) >>= check_grace

pub record LimitOverrides : Type 0 where
  pub max_concurrent_agents : Option ℕ
  pub max_agents_per_run : Option ℕ
  pub max_spawns_per_minute : Option ℕ

abbrev pub unwrap_or : Option ℕ → ℕ → ℕ
unwrap_or none d = d
unwrap_or (some n) d = n

unfoldable pub requested_limits : RunLimits → LimitOverrides → RunLimits
requested_limits effective input = record {
  max_concurrent_agents = unwrap_or input.max_concurrent_agents effective.max_concurrent_agents;
  max_agents_per_run = unwrap_or input.max_agents_per_run effective.max_agents_per_run;
  max_spawns_per_minute = unwrap_or input.max_spawns_per_minute effective.max_spawns_per_minute;
}

-- `ceiling.map_or(requested, |ceiling| requested.intersect(ceiling))`
unfoldable pub bounded_limits : Option RunLimits → RunLimits → RunLimits
bounded_limits none requested = requested
bounded_limits (some ceiling) requested = limits_intersect requested ceiling

-- The macro `apply!` of `apply_limits`: a value that is given is neither zero nor reduced.
unfoldable pub apply_limit : ConfigLayer → String → Option ℕ → ℕ → Provenance → Checked Provenance
apply_limit layer field none bounded origins = ok origins
apply_limit layer field (some value) bounded origins =
    if value == 0 || not (value == bounded)
    then err
        (invalid layer field "limit must be positive and cannot exceed trusted operator policy")
    else ok (record_origin field layer origins)

unfoldable pub apply_limits :
    RunLimits
    → LimitOverrides
    → Option RunLimits
    → ConfigLayer
    → Provenance
    → Checked (RunLimits × Provenance)
unfolding requested_limits bounded_limits apply_limit
apply_limits effective input ceiling layer origins =
    let bounded = bounded_limits ceiling (requested_limits effective input) in
    apply_limit layer "limits.max_concurrent_agents" input.max_concurrent_agents
      bounded.max_concurrent_agents origins
    >>= apply_limit layer "limits.max_agents_per_run" input.max_agents_per_run
        bounded.max_agents_per_run
    >>= apply_limit layer "limits.max_spawns_per_minute" input.max_spawns_per_minute
        bounded.max_spawns_per_minute
    >>= λ origins. ok (bounded, origins)

-- The defaults of `compiled_defaults`.
abbrev pub compiled_supervision : SupervisionPolicy
compiled_supervision = record {
  restart_window_seconds = 60;
  max_launch_attempts = 3;
  restart_backoff_seconds = 1;
  startup_timeout_seconds = 30;
  job_timeout_seconds = 3600;
  interrupt_grace_ms = 250;
  shutdown_timeout_ms = 5000;
  idle_timeout_seconds = 60;
}
