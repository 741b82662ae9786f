-- ===== src/Config/Laws.antt =====
-- src/config/resolver.rs: the bounds of resolved policies.
use coterie.Prelude.{
  ℕ, String, refl, subst, ◌≡◌, ◌≤◌, ◌<◌, Bool, true, ◌&&◌, List, [], ◌∷◌, Option, none, some, arith,
  ltb, leb, Option-cases, Bool-cases, ◌==◌, inl, inr,
}
use coterie.Policy.{RunLimits, limits_intersect}
use coterie.Config.{
  ℤ, pos, negsuc, ConfigLayer, global, record_origin, Provenance, Checked, ok, err, ◌>>=◌,
  SupervisionPolicy, SupervisionOverrides, largest_bound, positive_bound, nonnegative_bound,
  Resolving, apply_bound, apply_positive, overrides, apply_all, check_grace, resolve_supervision,
  LimitOverrides, requested_limits, bounded_limits, apply_limits,
}

-- What the resolution keeps of each positive field.
pub record IsBounded (p : SupervisionPolicy) : Type 0 where
  pub window : (0 < p.restart_window_seconds) × (p.restart_window_seconds ≤ largest_bound)
  pub attempts : (0 < p.max_launch_attempts) × (p.max_launch_attempts ≤ largest_bound)
  pub backoff : (0 < p.restart_backoff_seconds) × (p.restart_backoff_seconds ≤ largest_bound)
  pub startup : (0 < p.startup_timeout_seconds) × (p.startup_timeout_seconds ≤ largest_bound)
  pub job : (0 < p.job_timeout_seconds) × (p.job_timeout_seconds ≤ largest_bound)
  pub grace : (0 < p.interrupt_grace_ms) × (p.interrupt_grace_ms ≤ largest_bound)
  pub shutdown : (0 < p.shutdown_timeout_ms) × (p.shutdown_timeout_ms ≤ largest_bound)
  pub idle : p.idle_timeout_seconds ≤ largest_bound

positive_bound_lem : (z : ℤ) (n : ℕ) → positive_bound z ≡ some n → (0 < n) × (n ≤ largest_bound)
unfolding positive_bound
positive_bound_lem (negsuc m) n h = absurd (ground (arith, h))
positive_bound_lem (pos m) n h = ground (arith, h)

nonnegative_bound_lem : (z : ℤ) (n : ℕ) → nonnegative_bound z ≡ some n → n ≤ largest_bound
unfolding nonnegative_bound
nonnegative_bound_lem (negsuc m) n h = absurd (ground (arith, h))
nonnegative_bound_lem (pos m) n h = ground (arith, h)

checked_ok : {A : Type 0} {x y : A} → ok x ≡ ok y → x ≡ y
checked_ok h = ground (arith, h)

module _ {A B : Type 0} where
  checked-bind :
      (m : Checked A) (f : A → Checked B) {b : B}
      → (m >>= f) ≡ ok b
      → (a : A) × (m ≡ ok a) × (f a ≡ ok b)
  checked-bind (ok a) f h = (a, refl, h)
  checked-bind (err e) f h = absurd (ground (arith, h))

-- What holds of the policy before the statement holds of it afterwards.
abbrev Keeps : (SupervisionPolicy → Type 0) → (Resolving → Checked Resolving) → Type 0
Keeps P f = (r r' : Resolving) → P r.0 → f r ≡ ok r' → P r'.0

module _ (P : SupervisionPolicy → Type 0) where
  apply_bound-Keeps :
      (bound : ℤ → Option ℕ) (reason field : String)
      (set : ℕ → SupervisionPolicy → SupervisionPolicy) (value : Option ℤ)
      → ((z : ℤ) (n : ℕ) (p : SupervisionPolicy) → bound z ≡ some n → P p → P (set n p))
      → Keeps P (apply_bound bound reason field set value)
  unfolding apply_bound
  apply_bound-Keeps bound reason field set none keep r r' p h =
      subst (λ (x : Resolving). P x.0) (checked_ok h) p
  apply_bound-Keeps bound reason field set (some z) keep r r' p h = elim (Option-cases (bound z)) [
    | inl e ↦ absurd (ground (arith, h, e))
    | inr (n, e) ↦
        subst (λ (x : Resolving). P x.0)
          (checked_ok {x = (set n r.0, record_origin field global r.1)} {y = r'}
            (ground (arith, h, e)))
          (keep z n r.0 e p)
  ]

  apply_positive-Keeps :
      (field : String) (set : ℕ → SupervisionPolicy → SupervisionPolicy) (value : Option ℤ)
      → ((n : ℕ) (p : SupervisionPolicy) → 0 < n → n ≤ largest_bound → P p → P (set n p))
      → Keeps P (apply_positive field set value)
  apply_positive-Keeps field set value keep =
      apply_bound-Keeps positive_bound _ field set value
        (λ z n p e v. let (low, high) = positive_bound_lem z n e in keep n p low high v)

  AllKeep : List (Resolving → Checked Resolving) → Type 0
  AllKeep [] = Unit
  AllKeep (f ∷ fs) = Keeps P f × AllKeep fs

  apply_all-Keeps :
      (fs : List (Resolving → Checked Resolving)) → AllKeep fs → Keeps P (apply_all fs)
  unfolding apply_all AllKeep
  apply_all-Keeps [] k r r' p h = subst (λ (x : Resolving). P x.0) (checked_ok h) p
  apply_all-Keeps (f ∷ fs) (kf, kfs) r r' p h =
      let (mid, e, rest) = checked-bind (f r) (apply_all fs) h in
      apply_all-Keeps fs kfs mid r' (kf r mid p e) rest

overrides-AllKeep : (input : SupervisionOverrides) → AllKeep IsBounded (overrides input)
unfolding AllKeep
overrides-AllKeep input = (
  apply_positive-Keeps IsBounded _ (λ n p. record p { restart_window_seconds = n }) _
      (λ n p low high v. ground (arith, low, high, v)),
  (
    apply_positive-Keeps IsBounded _ (λ n p. record p { max_launch_attempts = n }) _
        (λ n p low high v. ground (arith, low, high, v)),
    (
      apply_positive-Keeps IsBounded _ (λ n p. record p { restart_backoff_seconds = n }) _
          (λ n p low high v. ground (arith, low, high, v)),
      (
        apply_positive-Keeps IsBounded _ (λ n p. record p { startup_timeout_seconds = n }) _
            (λ n p low high v. ground (arith, low, high, v)),
        (
          apply_positive-Keeps IsBounded _ (λ n p. record p { job_timeout_seconds = n }) _
              (λ n p low high v. ground (arith, low, high, v)),
          (
            apply_positive-Keeps IsBounded _ (λ n p. record p { interrupt_grace_ms = n }) _
                (λ n p low high v. ground (arith, low, high, v)),
            (
              apply_positive-Keeps IsBounded _ (λ n p. record p { shutdown_timeout_ms = n }) _
                  (λ n p low high v. ground (arith, low, high, v)),
              (
                apply_bound-Keeps IsBounded nonnegative_bound _ _
                    (λ n p. record p { idle_timeout_seconds = n }) _
                    (λ z n p e v. ground (arith, nonnegative_bound_lem z n e, v)),
                tt,
              ),
            ),
          ),
        ),
      ),
    ),
  ),
)

check_grace-IsBounded :
    (r : Resolving) (policy : SupervisionPolicy) (origins : Provenance)
    → IsBounded r.0
    → check_grace r ≡ ok (policy, origins)
    → IsBounded policy × (policy.interrupt_grace_ms < policy.shutdown_timeout_ms)
unfolding check_grace
check_grace-IsBounded r policy origins v h =
    elim (Bool-cases (leb r.0.shutdown_timeout_ms r.0.interrupt_grace_ms)) [
      | inl late ↦ absurd (ground (arith, h, late))
      | inr early ↦
          let same : r.0 ≡ policy = ground (arith, h, early) in
          (subst IsBounded same v, ground (arith, same, early))
    ]

-- A resolution that succeeds on bounded defaults gives a policy of positive bounds that fit
-- millisecond arithmetic, whose grace is shorter than its timeout.
pub resolve_supervision-IsBounded :
    (defaults : SupervisionPolicy) (input : SupervisionOverrides) (origins origins' : Provenance)
    (policy : SupervisionPolicy)
    → IsBounded defaults
    → resolve_supervision defaults input origins ≡ ok (policy, origins')
    → IsBounded policy × (policy.interrupt_grace_ms < policy.shutdown_timeout_ms)
unfolding resolve_supervision
resolve_supervision-IsBounded defaults input origins origins' policy v h =
    let (mid, e, rest) =
      checked-bind (apply_all (overrides input) (defaults, origins)) check_grace h in
    check_grace-IsBounded mid policy origins'
      (apply_all-Keeps IsBounded (overrides input) (overrides-AllKeep input) (defaults, origins) mid
        v e)
      rest

-- A limit that was given is positive and applied as given.
abbrev pub allows_limit : Option ℕ → ℕ → Bool
allows_limit none n = true
allows_limit (some value) n = ltb 0 value && n == value

-- Limits that are applied are within the ceiling, and each limit that was given is positive and
-- applied as given.
pub apply_limits_bounds :
    (effective : RunLimits) (input : LimitOverrides) (ceiling : RunLimits) (layer : ConfigLayer)
    (origins origins' : Provenance) (limits : RunLimits)
    → apply_limits effective input (some ceiling) layer origins ≡ ok (limits, origins')
    → ((limits.max_concurrent_agents ≤ ceiling.max_concurrent_agents)
        × (limits.max_agents_per_run ≤ ceiling.max_agents_per_run)
        × (limits.max_spawns_per_minute ≤ ceiling.max_spawns_per_minute))
      × (allows_limit input.max_concurrent_agents limits.max_concurrent_agents ≡ true)
      × (allows_limit input.max_agents_per_run limits.max_agents_per_run ≡ true)
      × (allows_limit input.max_spawns_per_minute limits.max_spawns_per_minute ≡ true)
unfolding apply_limits requested_limits bounded_limits limits_intersect
apply_limits_bounds effective input ceiling layer origins origins' limits h = ground (arith, h)
