-- ===== src/Lifecycle/Laws.antt =====
-- The observations that `LifecycleState::allows` accepts. (src/providers.rs)
use coterie.Prelude.{◌≡◌, ◌↔◌, true, not, ◌&&◌, ◌||◌, arith}
use coterie.Lifecycle.{LifecycleState, starting, lifecycle_eq, is_terminal, allows}

pub lifecycle_eq_iff : (s t : LifecycleState) → (lifecycle_eq s t ≡ true) ↔ (s ≡ t)
unfolding lifecycle_eq
lifecycle_eq_iff s t = ground arith

-- The table of observations accepts a state again, and besides that just a move from a state that is
-- not terminal to a state other than `starting`.
pub allows-is_terminal :
    (s next : LifecycleState)
    → allows s next
      ≡ (lifecycle_eq s next || (not (is_terminal s) && not (lifecycle_eq next starting)))
unfolding allows is_terminal lifecycle_eq
allows-is_terminal s next = ground arith
