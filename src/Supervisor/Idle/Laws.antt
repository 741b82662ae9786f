-- ===== src/Supervisor/Idle/Laws.antt =====
-- When the idle timer is due. (src/supervisor/idle.rs)
use coterie.Prelude.{
  ℕ, ◌≡◌, ◌<◌, ◌∙◌, refl, ap, Bool, false, Option, none, some, List, [], ◌∷◌, ◌&&◌, ltb, leb, ◌==◌,
  arith, Bool-cases, inl, inr, if◌then◌else◌,
}
use coterie.Config.{SupervisionPolicy}
use coterie.Supervisor.Idle.{IdleShutdown, new, seconds_since, observe, due}

-- The timer after a history of observations, the latest first.
unfoldable pub after_history : SupervisionPolicy → List (Option ℕ × ℕ) → IdleShutdown
after_history policy [] = new policy
after_history policy ((cursor, now) ∷ earlier) = (due (after_history policy earlier) cursor now).1

-- When the unbroken series of observations of a cursor at the end of a history began.
unfoldable pub quiet_since : ℕ → List (Option ℕ × ℕ) → ℕ → ℕ
quiet_since c [] now = now
quiet_since c ((none, t) ∷ earlier) now = now
quiet_since c ((some d, t) ∷ earlier) now =
    let before = quiet_since c earlier t in if d == c then before else now

-- What the timer remembers of a history.
abbrev remembered : List (Option ℕ × ℕ) → Option (ℕ × ℕ)
remembered [] = none
remembered ((none, t) ∷ earlier) = none
remembered ((some c, t) ∷ earlier) = some (c, quiet_since c earlier t)

observe-remembered :
    (history : List (Option ℕ × ℕ)) (c now : ℕ)
    → observe (remembered history) c now ≡ (c, quiet_since c history now)
unfolding observe quiet_since
observe-remembered [] c now = refl
observe-remembered ((none, t) ∷ earlier) c now = refl
observe-remembered ((some d, t) ∷ earlier) c now = elim (Bool-cases (d == c)) [
  | inr other ↦ rw other refl
  | inl same ↦ let e : d ≡ c = ground (arith, same) in rw same (rw e refl)
]

module _ (idle : IdleShutdown) (c now : ℕ) where
  due_on :
      0 < idle.policy.idle_timeout_seconds
      → due idle (some c) now ≡ (
        leb idle.policy.idle_timeout_seconds (seconds_since now (observe idle.observed c now).1),
        record idle { observed = some (observe idle.observed c now) },
      )
  unfolding due
  due_on on = ground (arith, on)

  due_off :
      idle.policy.idle_timeout_seconds ≡ 0
      → due idle (some c) now ≡ (false, record idle { observed = none })
  unfolding due
  due_off off = ground (arith, off)

  pub due-policy : (due idle (some c) now).1.policy ≡ idle.policy
  unfolding due
  due-policy = elim (Bool-cases (ltb 0 idle.policy.idle_timeout_seconds)) [
    | inl on ↦ rw on refl
    | inr off ↦ rw off refl
  ]

module _ (policy : SupervisionPolicy) where
  after_history_policy :
      (history : List (Option ℕ × ℕ)) → (after_history policy history).policy ≡ policy
  unfolding after_history due
  after_history_policy [] = refl
  after_history_policy ((none, t) ∷ earlier) = after_history_policy earlier
  after_history_policy ((some c, t) ∷ earlier) =
      due-policy (after_history policy earlier) c t ∙ after_history_policy earlier

  enabled :
      (history : List (Option ℕ × ℕ))
      → 0 < policy.idle_timeout_seconds
      → 0 < (after_history policy history).policy.idle_timeout_seconds
  enabled history on = rw (after_history_policy history) on

  after_history_observed :
      (history : List (Option ℕ × ℕ))
      → 0 < policy.idle_timeout_seconds
      → (after_history policy history).observed ≡ remembered history
  unfolding after_history due
  after_history_observed [] on = refl
  after_history_observed ((none, t) ∷ earlier) on = refl
  after_history_observed ((some c, t) ∷ earlier) on =
      ap (λ (x : Bool × IdleShutdown). x.1.observed)
        (due_on (after_history policy earlier) c t (enabled earlier on))
      ∙ ap (λ o. some (observe o c t)) (after_history_observed earlier on)
      ∙ ap some (observe-remembered earlier c t)

-- The timer is due just if it is enabled and the cursor has been the same, without a break, for at
-- least the timeout.
pub due_iff :
    (policy : SupervisionPolicy) (history : List (Option ℕ × ℕ)) (c now : ℕ)
    → (due (after_history policy history) (some c) now).0 ≡ (
        ltb 0 policy.idle_timeout_seconds
        && leb policy.idle_timeout_seconds (seconds_since now (quiet_since c history now)))
due_iff policy history c now = elim (Bool-cases (ltb 0 policy.idle_timeout_seconds)) [
  | inr off ↦
      ap (λ (x : Bool × IdleShutdown). x.0)
        (due_off (after_history policy history) c now
          (rw (after_history_policy policy history) (ground (arith, off))))
      ∙ rw off refl
  | inl on ↦
      let idle = after_history policy history in
      ap (λ (x : Bool × IdleShutdown). x.0)
        (due_on idle c now (enabled policy history (ground (arith, on))))
      ∙ rw
          (
            after_history_policy policy history,
            after_history_observed policy history (ground (arith, on)),
            observe-remembered history c now,
            on,
          )
          refl
]
