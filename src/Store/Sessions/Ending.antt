-- ===== src/Store/Sessions/Ending.antt =====
-- A session whose end is recorded, and its credential. (src/state.rs)
use coterie.Prelude.{
  ℕ, subst, ◌≡◌, ◌≤◌, refl, Bool, true, false, none, some, not, ◌&&◌, ◌||◌, List, [], ◌∷◌, ◌++◌,
  ◌==◌, arith, ◌∙◌, Bool-cases, inl, inr, is_some, is_none,
}
use coterie.Lifecycle.{LifecycleState, is_terminal, allows, lifecycle_eq}
use coterie.Sql.{select_first, exists_where, update_where, count_where}
use coterie.Sql.Laws.{select_first_test}
use coterie.Sql.Exists.{
  exists_where-update_where, exists_where_antitone, exists_where-append_one,
  exists_where-update_where_same, exists_where-update_where_keeps, exists_where_mono,
  exists_where-select_first, select_first-none, exists_where_never, exists_where_unique,
}
use coterie.Store.Records.{SessionRecord, SessionCredentialRecord, applied}
use coterie.Store.Control.{SessionScope}
use coterie.Store.Tx.{ok, Db}
use coterie.Store.Rows.{session_scope_is_current}
use coterie.Store.Sessions.{in_scope, foreground_exit, ended_at, record_session_lifecycle}
use coterie.Store.Sessions.Steps.{same, old, alive, ended, lifecycle_step}
use coterie.Store.Sessions.Shapes.Moves.{
  SessionsStep, sessions_kept, session_added, sessions_marked, sessions_moved, sessions_step,
}
use coterie.Store.Sessions.Reach.{Reach, reach_keeps}
use coterie.Store.Credentials.{is_live, is_session_of, active_session_credential}

abbrev has_ended : SessionRecord → Bool
has_ended r = is_terminal r.state && is_some r.ended_at

-- The session exists and has ended.
abbrev IsEnded : ℕ → List SessionRecord → Type 0
IsEnded id sessions =
    (exists_where (λ r. r.id == id) sessions ≡ true)
    × (exists_where (λ r. r.id == id && not (has_ended r)) sessions ≡ false)

-- A terminal state is left for a terminal state only.
terminal_stays :
    (r : SessionRecord) (next : LifecycleState)
    → is_terminal r.state ≡ true
    → (allows r.state next || foreground_exit r next) ≡ true
    → is_terminal next ≡ true
unfolding is_terminal allows foreground_exit lifecycle_eq
terminal_stays r next t move = ground (arith, t, move)

module _ (id : ℕ) where
  IsEnded-session_added :
      (xs : List SessionRecord) (s : SessionRecord)
      → exists_where (λ r. r.id == s.id) xs ≡ false
      → IsEnded id xs
      → IsEnded id (xs ++ s ∷ [])
  IsEnded-session_added xs s fresh (known, over) = elim (Bool-cases (s.id == id)) [
    | inl this ↦ absurd (
        ground (
          arith,
          known,
          exists_where_antitone (λ r. r.id == s.id) (λ r. r.id == id) xs
              (λ r hit. ground (arith, this, hit)) fresh,
        ))
    | inr other ↦ (
      exists_where-append_one _ xs s other ∙ known,
      exists_where-append_one _ xs s (ground (arith, other)) ∙ over,
    )
  ]

  -- Of the session's rows, each that is updated is left ended.
  IsEnded-update_where :
      (p : SessionRecord → Bool) (f : SessionRecord → SessionRecord) (xs : List SessionRecord)
      → ((r : SessionRecord) → (f r).id ≡ r.id)
      → ((r : SessionRecord)
          → (r.id == id) ≡ true
          → p r ≡ true
          → has_ended r ≡ true
          → has_ended (f r) ≡ true)
      → IsEnded id xs
      → IsEnded id (update_where p f xs)
  IsEnded-update_where p f xs keep stays (known, over) = (
    exists_where-update_where_same (λ r. r.id == id) p f xs (λ r. ground (arith, keep r)) ∙ known,
    exists_where-update_where_keeps (λ r. r.id == id && not (has_ended r)) p f xs
        (λ r hit. ground (arith, keep r, stays r, hit)) over,
  )

  -- The row that the key of an ended session finds has ended.
  found_ended :
      (r : SessionRecord) (xs : List SessionRecord)
      → select_first (λ x. x.id == id) xs ≡ some r
      → IsEnded id xs
      → has_ended r ≡ true
  found_ended r xs found (known, over) = elim (Bool-cases (has_ended r)) [
    | inl dead ↦ dead
    | inr living ↦ absurd (
        ground (
          arith,
          over,
          exists_where-select_first (λ x. x.id == id) (λ x. x.id == id && not (has_ended x)) xs r
              found (ground (arith, living, select_first_test (λ x. x.id == id) xs r found)),
        ))
  ]

  moved_terminal :
      (s : SessionScope) (next : LifecycleState) (r : SessionRecord) (xs : List SessionRecord)
      → s.session_id ≡ id
      → select_first (λ x. x.id == s.session_id) xs ≡ some r
      → (allows r.state next || foreground_exit r next) ≡ true
      → IsEnded id xs
      → is_terminal next ≡ true
  moved_terminal s next r xs this found move h =
      terminal_stays r next
        (ground (
          arith,
          found_ended r xs (subst (λ i. select_first (λ x. x.id == i) xs ≡ some r) this found) h,
        ))
        move

  -- The row that a move starts from is one of the session's, so it is ended.
  IsEnded-sessions_moved :
      (s : SessionScope) (next : LifecycleState) (at : ℕ) (r : SessionRecord)
      (xs : List SessionRecord)
      → select_first (λ x. x.id == s.session_id) xs ≡ some r
      → (allows r.state next || foreground_exit r next) ≡ true
      → IsEnded id xs
      → IsEnded id (
          update_where
            (in_scope s)
            (λ x. record x { state = next; ended_at = ended_at next at })
            xs)
  IsEnded-sessions_moved s next at r xs found move h =
      IsEnded-update_where (in_scope s) _ xs (λ x. refl)
        (λ x this hit dead.
          ground (arith, moved_terminal s next r xs (ground (arith, this, hit)) found move h))
        h

  IsEnded-SessionsStep :
      {xs ys : List SessionRecord} → SessionsStep xs ys → IsEnded id xs → IsEnded id ys
  IsEnded-SessionsStep (sessions_kept e) h = rw e h
  IsEnded-SessionsStep {xs} (session_added s fresh e) h = rw e (IsEnded-session_added xs s fresh h)
  IsEnded-SessionsStep {xs} (sessions_marked p f keep e) h =
      rw e (
        IsEnded-update_where p f xs (λ r. (keep r).0) (λ r _ _ dead. ground (arith, keep r, dead))
          h)
  IsEnded-SessionsStep {xs} (sessions_moved s next at r found move e) h =
      rw e (IsEnded-sessions_moved s next at r xs found move h)

  IsEnded-Reach : {db db' : Db} → Reach db db' → IsEnded id db.sessions → IsEnded id db'.sessions
  IsEnded-Reach reach =
      reach_keeps (λ db. IsEnded id db.sessions)
        (λ x y step. IsEnded-SessionsStep (sessions_step {db = x} {db' = y} step)) reach

  ended-is_live :
      (run_id agent_id : ℕ) (db : Db) (c : SessionCredentialRecord)
      → IsEnded id db.sessions
      → is_live db run_id agent_id id c ≡ false
  unfolding is_live
  ended-is_live run_id agent_id db c (known, over) = ground (
    arith,
    λ (this : (c.session_id == id) ≡ true).
        exists_where_antitone _ (λ r. is_session_of c r && is_none r.ended_at) db.sessions
          (λ r hit. ground (arith, hit, this)) over,
  )

  -- No credential of an ended session is live.
  IsEnded-active_session_credential :
      (run_id agent_id : ℕ) (db : Db)
      → IsEnded id db.sessions
      → active_session_credential db run_id agent_id id ≡ none
  unfolding active_session_credential
  IsEnded-active_session_credential run_id agent_id db h =
      select_first-none _ db.credentials
        (exists_where_never _ db.credentials (λ c. ended-is_live run_id agent_id db c h))

-- The scope of a current session finds the rows of its key.
scope_in_scope :
    (db : Db) (s : SessionScope)
    → session_scope_is_current db s ≡ true
    → exists_where (in_scope s) db.sessions ≡ true
unfolding session_scope_is_current
scope_in_scope db s h =
    exists_where_mono (in_scope s) _ db.sessions (λ r hit. ground (arith, hit)) h

-- The state that a terminal observation leaves.
module _ (s : SessionScope) (next : LifecycleState) (at : ℕ) (xs : List SessionRecord) where
  moved_IsEnded :
      is_terminal next ≡ true
      → count_where (λ r. r.id == s.session_id) xs ≤ 1
      → exists_where (in_scope s) xs ≡ true
      → IsEnded s.session_id (
          update_where
            (in_scope s)
            (λ x. record x { state = next; ended_at = ended_at next at })
            xs)
  moved_IsEnded t key here = (
    exists_where-update_where_same (λ r. r.id == s.session_id) (in_scope s) _ xs (λ r. ground arith)
        ∙ exists_where_mono (λ r. r.id == s.session_id) (in_scope s) xs
            (λ r hit. ground (arith, hit)) here,
    exists_where-update_where _ (in_scope s) _ xs
        ∙ exists_where_antitone (λ r. r.id == s.session_id && not (in_scope s r)) _ xs
            (λ r hit. ground (arith, t, hit))
            (exists_where_unique (λ r. r.id == s.session_id) (in_scope s) xs
              (λ r hit. ground (arith, hit)) key here),
  )

recorded_IsEnded :
    (s : SessionScope) (next : LifecycleState) (at : ℕ) (db db' : Db)
    → count_where (λ r. r.id == s.session_id) db.sessions ≤ 1
    → is_terminal next ≡ true
    → record_session_lifecycle s next at db ≡ ok (applied, db')
    → IsEnded s.session_id db'.sessions
recorded_IsEnded s next at db db' key t h = elim (lifecycle_step s next at db h) [
  | same _ bad ↦ absurd (ground (arith, bad))
  | old _ bad ↦ absurd (ground (arith, bad))
  | alive _ _ _ _ living _ _ ↦ absurd (ground (arith, t, living))
  | ended r _ cur _ _ _ e ↦
      rw e (moved_IsEnded s next at db.sessions t key (scope_in_scope db s cur))
]

-- Once a terminal state of a session has been recorded, no credential of the session is active,
-- whatever operations that write runs, agents, sessions and credentials follow. (The identifiers of
-- sessions are a key.)
pub record_session_lifecycle-active_session_credential :
    (s : SessionScope) (next : LifecycleState) (at run_id agent_id : ℕ) (db db' db'' : Db)
    → count_where (λ r. r.id == s.session_id) db.sessions ≤ 1
    → is_terminal next ≡ true
    → record_session_lifecycle s next at db ≡ ok (applied, db')
    → Reach db' db''
    → active_session_credential db'' run_id agent_id s.session_id ≡ none
record_session_lifecycle-active_session_credential s next at run_id agent_id db db' db'' key t h
      reach =
    IsEnded-active_session_credential s.session_id run_id agent_id db''
      (IsEnded-Reach s.session_id reach (recorded_IsEnded s next at db db' key t h))
