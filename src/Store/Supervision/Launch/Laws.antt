-- ===== src/Store/Supervision/Launch/Laws.antt =====
-- src/state/supervision.rs: what an admitted and a failed launch leave.
use coterie.Prelude.{
  ℕ, ◌+◌, ◌-◌, Bool, leb, ◌&&◌, ap, if◌then◌else◌, ◌≡◌, ◌≤◌, ◌∙◌, sym, refl, subst, ◌≢◌, true,
  false, not, ◌||◌, ◌==◌, Option, some, none, is_some, [], ◌∷◌, ◌++◌, max, arith, Bool-cases,
  Option-cases, inl, inr,
}
use coterie.Config.{SupervisionPolicy}
use coterie.Sql.{select_first, update_where}
use coterie.Sql.Laws.{select_first-update_own, select_first_one, select_first-append}
use coterie.Sql.Exists.{exists_where-some, exists_where-none}
use coterie.Store.Control.{SessionScope, LaunchAttempt}
use coterie.Store.Tx.{ok, Db, return, then-eq-ok}
use coterie.Store.Keys.{has_session}
use coterie.Store.Rows.{session_scope_is_current, is_recovered}
use coterie.Store.Supervision.{saturating_add}
use coterie.Store.Supervision.Launch.{
  LaunchAdmission, allowed, unknown, run_shutdown, launch_attempt, LaunchPlan, refused, counted,
  plan_launch, launch_delay, launched, launch_row, upsert_launch, perform_launch,
  admit_session_launch,
}

-- The columns of a row in flight.
pub record InFlight (r : LaunchAttempt) (window attempts next : ℕ) : Type 0 where
  pub window_started_at : r.window_started_at ≡ window
  pub attempts_ : r.attempts ≡ attempts + 1
  pub next_attempt_at : r.next_attempt_at ≡ next
  pub in_flight : r.in_flight ≡ true
  pub quarantined_ : r.quarantined ≡ false

module _ (s : SessionScope) (window attempts next : ℕ) (db db' : Db) where
  new_row :
      select_first (λ r. r.scope.session_id == s.session_id) db.launch_attempts ≡ none
      → upsert_launch s window attempts next db ≡ ok (tt, db')
      → (r : LaunchAttempt) × (launch_attempt db' s.session_id ≡ some r)
        × (db' ≡ record db { launch_attempts = db'.launch_attempts })
        × InFlight r window attempts next
  unfolding upsert_launch launch_attempt
  new_row e h =
      let none_there = exists_where-none _ db.launch_attempts e in
      elim (Bool-cases (has_session db s.run_id s.agent_id s.session_id)) [
        | inr gone ↦ absurd (ground (arith, h, none_there, gone))
        | inl here ↦
            let same : db'.launch_attempts
                ≡ db.launch_attempts ++ launch_row s window attempts next ∷ [] =
              ground (arith, h, none_there, here) in
            (
              launch_row s window attempts next,
              rw same (
                  select_first-append _ db.launch_attempts (launch_row s window attempts next ∷ [])
                    e
                  ∙ select_first_one _ (launch_row s window attempts next) (ground arith)),
              ground (arith, h, none_there, here),
              record {
                window_started_at = refl;
                attempts_ = refl;
                next_attempt_at = refl;
                in_flight = refl;
                quarantined_ = refl;
              },
            )
      ]

  old_row :
      (r : LaunchAttempt)
      → select_first (λ r. r.scope.session_id == s.session_id) db.launch_attempts ≡ some r
      → r.quarantined ≡ false
      → upsert_launch s window attempts next db ≡ ok (tt, db')
      → (r : LaunchAttempt) × (launch_attempt db' s.session_id ≡ some r)
        × (db' ≡ record db { launch_attempts = db'.launch_attempts })
        × InFlight r window attempts next
  unfolding upsert_launch launch_attempt
  old_row r e free h =
      let there = exists_where-some _ db.launch_attempts r e in
      let same : db'.launch_attempts
          ≡ update_where (λ x. x.scope.session_id == s.session_id) (launched window attempts next)
              db.launch_attempts =
        ground (arith, h, there) in
      (
        launched window attempts next r,
        rw same (
            select_first-update_own (λ x. x.scope.session_id == s.session_id)
              (launched window attempts next) db.launch_attempts r (λ x. refl) e),
        ground (arith, h, there),
        ground (arith, free),
      )

upsert_row :
    (s : SessionScope) (window attempts next : ℕ) (db db' : Db)
    → ((r : LaunchAttempt) → launch_attempt db s.session_id ≡ some r → r.quarantined ≡ false)
    → upsert_launch s window attempts next db ≡ ok (tt, db')
    → (r : LaunchAttempt) × (launch_attempt db' s.session_id ≡ some r)
      × (db' ≡ record db { launch_attempts = db'.launch_attempts })
      × InFlight r window attempts next
unfolding upsert_launch launch_attempt
upsert_row s window attempts next db db' free h =
    elim (Option-cases
      (select_first (λ r. r.scope.session_id == s.session_id) db.launch_attempts)) [
        | inl e ↦ new_row s window attempts next db db' e h
        | inr (r, e) ↦ old_row s window attempts next db db' r e (free r e) h
      ]

-- A plan that counts starts from a row that is not quarantined, and counts at most the attempts that
-- the policy allows.
plan_counted :
    (o : Option LaunchAttempt) (now : ℕ) (policy : SupervisionPolicy) (window attempts : ℕ)
    → plan_launch o now policy ≡ counted window attempts
    → (attempts + 1 ≤ max 1 policy.max_launch_attempts)
      × ((r : LaunchAttempt) → o ≡ some r → r.quarantined ≡ false)
unfolding plan_launch
plan_counted none now policy window attempts h =
    (ground (arith, h), λ r e. absurd (ground (arith, e)))
plan_counted (some x) now policy window attempts h =
    (ground (arith, h), λ r e. ground (arith, h, e))

never_refused :
    (o : Option LaunchAttempt) (now : ℕ) (policy : SupervisionPolicy)
    → plan_launch o now policy ≢ refused allowed
unfolding plan_launch
never_refused none now policy h = absurd (ground (arith, h))
never_refused (some r) now policy h = absurd (ground (arith, h))

plan_again :
    (r : LaunchAttempt) (now : ℕ) (policy : SupervisionPolicy)
    → r.quarantined ≡ false
    → r.in_flight ≡ true
    → plan_launch (some r) now policy ≡ refused unknown
unfolding plan_launch
plan_again r now policy free busy = ground (arith, free, busy)

-- What an admission that is allowed leaves: the row of one more launch in flight.
pub data Admitted (s : SessionScope) (now : ℕ) (policy : SupervisionPolicy) (db db' : Db)
    : Type 0 where
  admitted :
      (window attempts : ℕ) (r : LaunchAttempt)
      → plan_launch (launch_attempt db s.session_id) now policy ≡ counted window attempts
      → launch_attempt db' s.session_id ≡ some r
      → db' ≡ record db { launch_attempts = db'.launch_attempts }
      → InFlight r window attempts (saturating_add now (launch_delay policy attempts))
      → Admitted s now policy db db'

performed :
    (s : SessionScope) (now : ℕ) (policy : SupervisionPolicy) (plan : LaunchPlan) (db db' : Db)
    → plan_launch (launch_attempt db s.session_id) now policy ≡ plan
    → perform_launch s now policy plan db ≡ ok (allowed, db')
    → Admitted s now policy db db'
performed s now policy (refused a) db db' e h =
    absurd (never_refused (launch_attempt db s.session_id) now policy (ground (arith, e, h)))
performed s now policy (counted window attempts) db db' e h =
    let next = saturating_add now (launch_delay policy attempts) in
    let (mid, first, second) =
      then-eq-ok (upsert_launch s window attempts next) (return allowed) db h in
    let (r, found, rest, row) =
      upsert_row s window attempts next db mid
        (plan_counted (launch_attempt db s.session_id) now policy window attempts e).1 first in
    let same : mid ≡ db' = ground (arith, second) in
    subst (Admitted s now policy db) same (admitted window attempts r e found rest row)

module _ (s : SessionScope) (now : ℕ) (policy : SupervisionPolicy) (db db' : Db) where
  -- An admission that is allowed was made for a current scope of a run that is not shutting down.
  admit_step :
      admit_session_launch s now policy db ≡ ok (allowed, db')
      → (session_scope_is_current db s ≡ true)
        × (is_some (run_shutdown db s.run_id) ≡ false)
        × Admitted s now policy db db'
  unfolding admit_session_launch
  admit_step h =
      elim (Bool-cases
        (not (session_scope_is_current db s) || is_some (run_shutdown db s.run_id))) [
          | inl closed ↦ absurd (ground (arith, h, closed))
          | inr open_yet ↦ (
            ground (arith, open_yet),
            ground (arith, open_yet),
            performed s now policy (plan_launch (launch_attempt db s.session_id) now policy) db db'
                refl (ground (arith, h, open_yet)),
          )
        ]

  pub admit_refused :
      (a : LaunchAdmission)
      → session_scope_is_current db s ≡ true
      → is_some (run_shutdown db s.run_id) ≡ false
      → plan_launch (launch_attempt db s.session_id) now policy ≡ refused a
      → admit_session_launch s now policy db ≡ ok (a, db)
  unfolding admit_session_launch
  admit_refused a cur going e = rw (cur, going, e) refl

scope_kept :
    (s : SessionScope) (db db' : Db)
    → db' ≡ record db { launch_attempts = db'.launch_attempts }
    → session_scope_is_current db s ≡ true
    → session_scope_is_current db' s ≡ true
unfolding session_scope_is_current is_recovered
scope_kept s db db' rest cur = subst (λ d. session_scope_is_current d s ≡ true) (sym rest) cur

shutdown_kept :
    (s : SessionScope) (db db' : Db)
    → db' ≡ record db { launch_attempts = db'.launch_attempts }
    → is_some (run_shutdown db s.run_id) ≡ false
    → is_some (run_shutdown db' s.run_id) ≡ false
unfolding run_shutdown
shutdown_kept s db db' rest going =
    subst (λ d. is_some (run_shutdown d s.run_id) ≡ false) (sym rest) going

-- What an admission that counts a launch makes of the session's row, by its own description.
abbrev pub is_new_window : Option LaunchAttempt → ℕ → SupervisionPolicy → Bool
is_new_window none now policy = true
is_new_window (some r) now policy = leb (r.window_started_at + policy.restart_window_seconds) now

abbrev pub attempts_before : Option LaunchAttempt → ℕ
attempts_before none = 0
attempts_before (some r) = r.attempts

abbrev pub window_before : Option LaunchAttempt → ℕ
window_before none = 0
window_before (some r) = r.window_started_at

-- A session may be launched if it has no row, or one that is neither in flight nor quarantined and
-- whose delay has passed.
abbrev pub can_launch : Option LaunchAttempt → ℕ → Bool
can_launch none now = true
can_launch (some r) now = not r.quarantined && (not r.in_flight && leb r.next_attempt_at now)

plan_described :
    (o : Option LaunchAttempt) (now : ℕ) (policy : SupervisionPolicy) (window attempts : ℕ)
    → plan_launch o now policy ≡ counted window attempts
    → (can_launch o now ≡ true)
      × (attempts ≡ (if is_new_window o now policy then 0 else attempts_before o))
      × (window ≡ (if is_new_window o now policy then now else window_before o))
unfolding plan_launch
plan_described none now policy window attempts h = ground (arith, h)
plan_described (some r) now policy window attempts h = ground (arith, h)

-- An admission that is allowed found no launch in flight, no quarantine and no delay that runs. It
-- counts one more launch in the session's window, or the first one of a new window where the old one
-- has passed, at most as many as the policy allows, sets the next delay, and puts the launch in
-- flight. A further admission on the tables that it leaves, at any time and under any policy, is
-- refused as unknown and changes nothing.
pub admit_session_launch_bounds :
    (s : SessionScope) (now later : ℕ) (policy policy' : SupervisionPolicy) (db db' : Db)
    → admit_session_launch s now policy db ≡ ok (allowed, db')
    → (can_launch (launch_attempt db s.session_id) now ≡ true)
      × ((r : LaunchAttempt) × (launch_attempt db' s.session_id ≡ some r)
          × (r.attempts
              ≡ (if is_new_window (launch_attempt db s.session_id) now policy
                  then 0
                  else attempts_before (launch_attempt db s.session_id))
                + 1)
          × (r.window_started_at ≡ (
              if is_new_window (launch_attempt db s.session_id) now policy
              then now
              else window_before (launch_attempt db s.session_id)))
          × (r.attempts ≤ max 1 policy.max_launch_attempts)
          × (r.next_attempt_at ≡ saturating_add now (launch_delay policy (r.attempts - 1)))
          × (r.in_flight ≡ true)
          × (r.quarantined ≡ false))
      × (admit_session_launch s later policy' db' ≡ ok (unknown, db'))
admit_session_launch_bounds s now later policy policy' db db' h =
    let (cur, going, step) = admit_step s now policy db db' h in
    elim step [
      | admitted window attempts r plan found rest row ↦
          let (few, _) =
            plan_counted (launch_attempt db s.session_id) now policy window attempts plan in
          let (free, count, start) =
            plan_described (launch_attempt db s.session_id) now policy window attempts plan in
          let before : attempts ≡ r.attempts - 1 = omega (arith, row.attempts_) in
          (
            free,
            (
              r,
              found,
              row.attempts_ ∙ ap (λ n. n + 1) count,
              row.window_started_at ∙ start,
              omega (arith, row.attempts_, few),
              row.next_attempt_at ∙ ap (λ n. saturating_add now (launch_delay policy n)) before,
              row.in_flight,
              row.quarantined_,
            ),
            admit_refused s later policy' db' db' unknown (scope_kept s db db' rest cur)
                (shutdown_kept s db db' rest going)
                (rw found (plan_again r later policy' row.quarantined_ row.in_flight)),
          )
    ]
