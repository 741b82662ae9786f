-- ===== src/Store/Supervision/Launch/Failures.antt =====
-- src/state/supervision.rs: what a launch that failed leaves.
use coterie.Prelude.{
  ℕ, ◌≡◌, ◌≤◌, ◌⊎◌, inl, inr, Bool-cases, ltb, ◌∙◌, refl, sym, ap, subst, Bool, true, false, not,
  ◌==◌, some, none, leb, arith, if◌then◌else◌,
}
use coterie.Config.{SupervisionPolicy}
use coterie.Sql.Laws.{select_first-update_own}
use coterie.Store.Control.{SessionScope, LaunchAttempt}
use coterie.Store.Event.{EventKind, event_kind_str}
use coterie.Store.Events.{event_record}
use coterie.Store.Tx.{ok, Env, Db, return, then-eq-ok}
use coterie.Store.Rows.{session_scope_is_current, is_recovered}
use coterie.Store.Supervision.Frame.{
  supervision_event-OnlyLogs, supervision_event_log, session_scope_is_current-append,
}
use coterie.Store.Supervision.Launch.{
  backoff, quarantined, run_shutdown, launch_attempt, refused, plan_launch, admit_session_launch,
  launch_failed, announce_limit, settle_failure, fail_session_launch, session_launch_is_retryable,
}
use coterie.Store.Supervision.Launch.Laws.{admit_refused}

failed_found :
    (s : SessionScope) (policy : SupervisionPolicy) (db : Db) (r : LaunchAttempt)
    → launch_attempt db s.session_id ≡ some r
    → launch_attempt (launch_failed s policy db) s.session_id
      ≡ some
          (record r { in_flight = false; quarantined = leb policy.max_launch_attempts r.attempts })
unfolding launch_attempt
failed_found s policy db r found =
    select_first-update_own (λ x. x.scope.session_id == s.session_id) _ db.launch_attempts r
      (λ x. refl) found

failed_scope :
    (s : SessionScope) (policy : SupervisionPolicy) (db : Db)
    → session_scope_is_current (launch_failed s policy db) s ≡ session_scope_is_current db s
unfolding session_scope_is_current is_recovered
failed_scope s policy db = refl

announced :
    (env : Env) (s : SessionScope) (now : ℕ) (policy : SupervisionPolicy) (db db' : Db)
    → announce_limit env s now policy db ≡ ok (tt, db')
    → (session_scope_is_current db' s ≡ session_scope_is_current db s)
      × (db'.shutdowns ≡ db.shutdowns)
      × (db'.launch_attempts ≡ db.launch_attempts)
unfolding announce_limit event_record event_kind_str
announced env s now policy db db' h =
    let logs =
      supervision_event-OnlyLogs env s.run_id EventKind.session_restart_limited _ _ _ _ _ _ db tt
        db' h in
    let log =
      supervision_event_log env s.run_id EventKind.session_restart_limited _ _ _ _ _ _ db db' h in
    (session_scope_is_current-append s db db' _ logs log refl, logs.shutdowns, logs.launch_attempts)

pub settled :
    (env : Env) (s : SessionScope) (now : ℕ) (policy : SupervisionPolicy) (q : Bool) (db db' : Db)
    (b : Bool)
    → settle_failure env s now policy q db ≡ ok (b, db')
    → (b ≡ q)
      × (session_scope_is_current db' s ≡ session_scope_is_current db s)
      × (db'.shutdowns ≡ db.shutdowns)
      × (db'.launch_attempts ≡ db.launch_attempts)
settled env s now policy true db db' b h =
    let (mid, first, second) = then-eq-ok (announce_limit env s now policy) (return true) db h in
    let (scope, shutdowns, rows) = announced env s now policy db mid first in
    let same : mid ≡ db' = ground (arith, second) in
    (
      ground (arith, second),
      subst (λ d. session_scope_is_current d s ≡ session_scope_is_current db s) same scope,
      ap (λ (d : Db). d.shutdowns) (sym same) ∙ shutdowns,
      ap (λ (d : Db). d.launch_attempts) (sym same) ∙ rows,
    )
settled env s now policy false db db' b h =
    let same : db ≡ db' = ground (arith, h) in
    (
      ground (arith, h),
      ap (λ d. session_scope_is_current d s) (sym same),
      ap (λ (d : Db). d.shutdowns) (sym same),
      ap (λ (d : Db). d.launch_attempts) (sym same),
    )

-- The plan of a session whose launch has failed.
plan_failed :
    (r : LaunchAttempt) (later : ℕ) (policy policy' : SupervisionPolicy) (b : Bool)
    → b ≡ leb policy.max_launch_attempts r.attempts
    → (plan_launch
          (some (record r {
            in_flight = false;
            quarantined = leb policy.max_launch_attempts r.attempts;
          }))
          later
          policy'
        ≡ refused (if b then quarantined else backoff r.next_attempt_at))
      ⊎ ((b ≡ false) × (r.next_attempt_at ≤ later))
unfolding plan_launch
plan_failed r later policy policy' true same = inl (ground (arith, same))
plan_failed r later policy policy' false same = elim (Bool-cases (ltb later r.next_attempt_at)) [
  | inl early ↦ inl (ground (arith, same, early))
  | inr late ↦ inr (refl, ground (arith, late))
]

-- The row after a failure that was reported.
failed_row :
    (env : Env) (s : SessionScope) (now : ℕ) (policy : SupervisionPolicy) (db db' : Db) (b : Bool)
    (r : LaunchAttempt)
    → session_scope_is_current db s ≡ true
    → launch_attempt db s.session_id ≡ some r
    → fail_session_launch env s now policy db ≡ ok (b, db')
    → (b ≡ leb policy.max_launch_attempts r.attempts)
      × (session_scope_is_current db' s ≡ true)
      × (run_shutdown db' s.run_id ≡ run_shutdown db s.run_id)
      × (launch_attempt db' s.session_id
          ≡ some (record r {
            in_flight = false;
            quarantined = leb policy.max_launch_attempts r.attempts;
          }))
unfolding fail_session_launch run_shutdown launch_attempt
failed_row env s now policy db db' b r cur found h =
    let after : Db = launch_failed s policy db in
    let here = failed_found s policy db r found in
    let (same, scope, shutdowns, rows) =
      settled env s now policy (leb policy.max_launch_attempts r.attempts) after db' b
        (ground (arith, h, cur, here)) in
    (same, scope ∙ failed_scope s policy db ∙ cur, rw shutdowns refl, rw rows here)

-- A reported failure quarantines the session just if its attempts are used up, and ends the flight: a
-- session that is not quarantined may be retried, and its admission is put off until the delay has
-- passed; one that is quarantined is refused at any time, under any policy. (The scope is current and
-- the run is not shutting down.)
pub fail_session_launch-admit_session_launch :
    (env : Env) (s : SessionScope) (now later : ℕ) (policy policy' : SupervisionPolicy)
    (db db' : Db) (b : Bool) (r : LaunchAttempt)
    → session_scope_is_current db s ≡ true
    → run_shutdown db s.run_id ≡ none
    → launch_attempt db s.session_id ≡ some r
    → fail_session_launch env s now policy db ≡ ok (b, db')
    → (b ≡ leb policy.max_launch_attempts r.attempts)
      × (session_launch_is_retryable db' s ≡ not b)
      × ((admit_session_launch s later policy' db'
            ≡ ok ((if b then quarantined else backoff r.next_attempt_at), db'))
          ⊎ ((b ≡ false) × (r.next_attempt_at ≤ later)))
unfolding session_launch_is_retryable
fail_session_launch-admit_session_launch env s now later policy policy' db db' b r cur going found
      h =
    let (same, cur', going', found') = failed_row env s now policy db db' b r cur found h in
    (
      same,
      rw (cur', found', same) refl,
      elim (plan_failed r later policy policy' b same) [
        | inr late ↦ inr late
        | inl plan ↦ inl (
            admit_refused s later policy' db' db'
              (if b then quarantined else backoff r.next_attempt_at) cur' (rw (going', going) refl)
              (rw found' plan))
      ],
    )
