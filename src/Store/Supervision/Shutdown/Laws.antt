-- ===== src/Store/Supervision/Shutdown/Laws.antt =====
-- src/state/supervision.rs: a shutdown that has begun.
use coterie.Prelude.{
  ℕ, ◌≡◌, ◌⊎◌, ◌∙◌, refl, ap, subst, String, some, Bool, true, false, not, ◌||◌, List, [], ◌∷◌,
  ◌++◌, ◌==◌, arith, Bool-cases, inl, inr, if◌then◌else◌,
}
use mathlib.Core.Option
use coterie.Config.{SupervisionPolicy}
use coterie.Sql.{select_first, update_where}
use coterie.Sql.Laws.{select_first-update_where, select_first_test}
use coterie.Store.Control.{ShutdownPhase, completed, RunShutdown, SessionScope}
use coterie.Store.Tx.{ok, err, operation_conflict, Env, Db}
use coterie.Store.Rows.{session_scope_is_current}
use coterie.Store.Supervision.Launch.{unknown, run_shutdown, admit_session_launch}
use coterie.Store.Supervision.Reach.{Course, stays, goes, shutdowns_step}
use coterie.Store.Supervision.Shutdown.{shutdown_phase_eq, begin_run_shutdown}
use coterie.Store.Supervision.Shutdown.Steps.{
  ShutdownsStep, shutdowns_kept, shutdown_added, phase_changed,
}

-- What a shutdown keeps: all but its phase, and its phase too once it is completed.
pub record Continues (s s' : RunShutdown) : Type 0 where
  pub operation_id : s'.operation_id ≡ s.operation_id
  pub requested_at_ms : s'.requested_at_ms ≡ s.requested_at_ms
  pub interrupt_until_ms : s'.interrupt_until_ms ≡ s.interrupt_until_ms
  pub deadline_ms : s'.deadline_ms ≡ s.deadline_ms
  pub final : (shutdown_phase_eq s.phase completed ≡ false) ⊎ (s'.phase ≡ completed)

final_self : (p : ShutdownPhase) → (shutdown_phase_eq p completed ≡ false) ⊎ (p ≡ completed)
unfolding shutdown_phase_eq
final_self p = ground arith

final_then :
    (p q r : ShutdownPhase)
    → (shutdown_phase_eq p completed ≡ false) ⊎ (q ≡ completed)
    → (shutdown_phase_eq q completed ≡ false) ⊎ (r ≡ completed)
    → (shutdown_phase_eq p completed ≡ false) ⊎ (r ≡ completed)
unfolding shutdown_phase_eq
final_then p q r a b = ground (arith, a, b)

Continues-refl : (s : RunShutdown) → Continues s s
Continues-refl s = record {
  operation_id = refl;
  requested_at_ms = refl;
  interrupt_until_ms = refl;
  deadline_ms = refl;
  final = final_self s.phase;
}

Continues-trans : {a b c : RunShutdown} → Continues a b → Continues b c → Continues a c
Continues-trans {a} {b} {c} p q = record {
  operation_id = q.operation_id ∙ p.operation_id;
  requested_at_ms = q.requested_at_ms ∙ p.requested_at_ms;
  interrupt_until_ms = q.interrupt_until_ms ∙ p.interrupt_until_ms;
  deadline_ms = q.deadline_ms ∙ p.deadline_ms;
  final = final_then a.phase b.phase c.phase p.final q.final;
}

-- The shutdown of the run that the next tables hold.
abbrev Continued : ℕ → RunShutdown → List RunShutdown → Type 0
Continued run_id s ys =
    (s' : RunShutdown) × (select_first (λ r. r.run_id == run_id) ys ≡ some s') × Continues s s'

select_first-append_found :
    {A : Type 0} (p : A → Bool) (xs ys : List A) (a : A)
    → select_first p xs ≡ some a
    → select_first p (xs ++ ys) ≡ some a
unfolding select_first
select_first-append_found p [] ys a e = absurd (ground (arith, e))
select_first-append_found p (x ∷ xs) ys a e = ground (arith, e, select_first-append_found p xs ys a)

module _ (run_id : ℕ) where
  moved_row :
      (other : ℕ) (phase : ShutdownPhase) (s found : RunShutdown) (xs : List RunShutdown)
      → select_first (λ r. r.run_id == run_id) xs ≡ some s
      → select_first (λ r. r.run_id == other) xs ≡ some found
      → shutdown_phase_eq found.phase completed ≡ false
      → Continues s (if s.run_id == other then record s { phase = phase } else s)
  moved_row other phase s found xs e f live = elim (Bool-cases (s.run_id == other)) [
    | inr apart ↦ rw apart (Continues-refl s)
    | inl this ↦
        let key = select_first_test (λ r. r.run_id == run_id) xs s e in
        let same : other ≡ run_id = ground (arith, this, key) in
        let own : found ≡ s =
          ground
            (arith, e, subst (λ i. select_first (λ r. r.run_id == i) xs ≡ some found) same f) in
        rw this (record {
          operation_id = refl;
          requested_at_ms = refl;
          interrupt_until_ms = refl;
          deadline_ms = refl;
          final = inl (subst (λ x. shutdown_phase_eq x.phase completed ≡ false) own live);
        })
  ]

  phase_row :
      (other : ℕ) (phase : ShutdownPhase) (s found : RunShutdown) (xs : List RunShutdown)
      → select_first (λ r. r.run_id == run_id) xs ≡ some s
      → select_first (λ r. r.run_id == other) xs ≡ some found
      → shutdown_phase_eq found.phase completed ≡ false
      → Continued run_id s
          (update_where (λ r. r.run_id == other) (λ r. record r { phase = phase }) xs)
  phase_row other phase s found xs e f live = (
    if s.run_id == other then record s { phase = phase } else s,
    select_first-update_where (λ r. r.run_id == run_id) (λ r. r.run_id == other) _ xs (λ r. refl)
        ∙ ap (Option.map (λ r. if r.run_id == other then record r { phase = phase } else r)) e,
    moved_row other phase s found xs e f live,
  )

  continue_step :
      (s : RunShutdown) {xs ys : List RunShutdown}
      → select_first (λ r. r.run_id == run_id) xs ≡ some s
      → ShutdownsStep xs ys
      → Continued run_id s ys
  continue_step s e (shutdowns_kept same) = (s, rw same e, Continues-refl s)
  continue_step s {xs} e (shutdown_added t _ same) =
      (s, rw same (select_first-append_found _ xs (t ∷ []) s e), Continues-refl s)
  continue_step s {xs} e (phase_changed other phase found f live same) =
      rw same (phase_row other phase s found xs e f live)

  pub continue_through :
      (redact : String → String) (env : Env) (s : RunShutdown) {db db' : Db}
      → run_shutdown db run_id ≡ some s
      → Course redact env db db'
      → (s' : RunShutdown) × (run_shutdown db' run_id ≡ some s') × Continues s s'
  unfolding run_shutdown
  continue_through redact env s e stays = (s, e, Continues-refl s)
  continue_through redact env s e (goes step rest) =
      let (t, f, on) = continue_step s e (shutdowns_step redact env step) in
      let (u, g, then_on) = continue_through redact env t f rest in
      (u, g, Continues-trans on then_on)

module _ (env : Env) (run_id id now_ms grace_ms timeout_ms : ℕ) (t : RunShutdown) (db : Db) where
  begin_same :
      run_shutdown db run_id ≡ some t
      → (t.operation_id == id) ≡ true
      → begin_run_shutdown env run_id id now_ms grace_ms timeout_ms db ≡ ok (tt, db)
  unfolding begin_run_shutdown
  begin_same f own = ground (arith, f, own)

  begin_other :
      run_shutdown db run_id ≡ some t
      → (t.operation_id == id) ≡ false
      → begin_run_shutdown env run_id id now_ms grace_ms timeout_ms db ≡ err (operation_conflict id)
  unfolding begin_run_shutdown
  begin_other f apart = ground (arith, f, apart)

or_true : (b : Bool) → (b || true) ≡ true
or_true b = ground arith

admit_closed :
    (scope : SessionScope) (launch_at : ℕ) (policy : SupervisionPolicy) (t : RunShutdown) (db : Db)
    → run_shutdown db scope.run_id ≡ some t
    → admit_session_launch scope launch_at policy db ≡ ok (unknown, db)
unfolding admit_session_launch
admit_closed scope launch_at policy t db f =
    rw (f, or_true (not (session_scope_is_current db scope))) refl

-- Once a run is shutting down, whatever operations of supervision and of sessions follow: its
-- operation and its deadlines are those that it began with, and its completion is final; to begin
-- again under the same operation changes nothing, and under another one is a conflict; and no launch
-- of the run is admitted. (The recovery of a run, which deletes its shutdown, is not among the
-- operations.)
pub begin_run_shutdown_again :
    (redact : String → String) (env : Env) (run_id other now_ms grace_ms timeout_ms launch_at : ℕ)
    (scope : SessionScope) (policy : SupervisionPolicy) (s : RunShutdown) (db db' : Db)
    → run_shutdown db run_id ≡ some s
    → Course redact env db db'
    → scope.run_id ≡ run_id
    → (other == s.operation_id) ≡ false
    → ((s' : RunShutdown) × (run_shutdown db' run_id ≡ some s') × Continues s s')
      × (begin_run_shutdown env run_id s.operation_id now_ms grace_ms timeout_ms db' ≡ ok (tt, db'))
      × (begin_run_shutdown env run_id other now_ms grace_ms timeout_ms db'
          ≡ err (operation_conflict other))
      × (admit_session_launch scope launch_at policy db' ≡ ok (unknown, db'))
begin_run_shutdown_again redact env run_id other now_ms grace_ms timeout_ms launch_at scope policy s
      db db' e course here apart =
    let (t, f, on) = continue_through run_id redact env s e course in
    (
      (t, f, on),
      begin_same env run_id s.operation_id now_ms grace_ms timeout_ms t db' f (ground (arith, on)),
      begin_other env run_id other now_ms grace_ms timeout_ms t db' f (ground (arith, on, apart)),
      admit_closed scope launch_at policy t db' (rw here f),
    )
