-- ===== src/Lifecycle.antt =====
-- src/providers.rs, `LifecycleState`: what is known of a provider process.
use coterie.Prelude.{Bool, true, false, ◌&&◌, ◌||◌, String}
pub mod Laws

pub data LifecycleState : Type 0 where
  starting running exited lost unknown quarantined : LifecycleState

-- The derived `PartialEq`.
unfoldable pub lifecycle_eq : LifecycleState → LifecycleState → Bool
lifecycle_eq starting starting = true
lifecycle_eq running running = true
lifecycle_eq exited exited = true
lifecycle_eq lost lost = true
lifecycle_eq unknown unknown = true
lifecycle_eq quarantined quarantined = true
lifecycle_eq _ _ = false

unfoldable pub lifecycle_str : LifecycleState → String
lifecycle_str starting = "starting"
lifecycle_str running = "running"
lifecycle_str exited = "exited"
lifecycle_str lost = "lost"
lifecycle_str unknown = "unknown"
lifecycle_str quarantined = "quarantined"

unfoldable pub is_terminal : LifecycleState → Bool
is_terminal exited = true
is_terminal lost = true
is_terminal quarantined = true
is_terminal _ = false

-- The two `matches!` of `allows`.
abbrev is_live : LifecycleState → Bool
is_live starting = true
is_live running = true
is_live unknown = true
is_live _ = false

abbrev is_later : LifecycleState → Bool
is_later starting = false
is_later _ = true

unfoldable pub allows : LifecycleState → LifecycleState → Bool
unfolding lifecycle_eq
allows s next = lifecycle_eq s next || (is_live s && is_later next)
