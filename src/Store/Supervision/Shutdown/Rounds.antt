-- ===== src/Store/Supervision/Shutdown/Rounds.antt =====
-- The rounds of the loop that drains the assignments of a run. (`begin_run_shutdown`,
-- `drain_assignment` of src/state/supervision.rs)
use coterie.Prelude.{
  ℕ, ◌≡◌, ◌≤◌, ◌∙◌, refl, sym, subst, Bool, true, false, not, ◌&&◌, none, some, List, [], ◌∷◌,
  str_eq, ◌==◌, is_none, arith, Bool-cases, Option-cases, inl, inr, if◌then◌else◌,
}
use coterie.Sql.{select_first, exists_where, count_where}
use coterie.Sql.Laws.{
  count_where_zero, count_where-none, select_first_unique, count_where-update_where,
  count_where_congr,
}
use coterie.Sql.Exists.{
  exists_where-update_where, exists_where_antitone, exists_where-update_where_keeps,
}
use coterie.Store.Records.{AgentRecord, AssignmentRecord}
use coterie.Store.Tx.{ok, Env, Db, then-eq-ok}
use coterie.Store.Rows.{active_assignment_for_agent}
use coterie.Store.Supervision.Shutdown.{drained, drain_agent, drain_agents}
use coterie.Store.Supervision.Shutdown.Frame.{drain_step}

-- An assignment of an agent that is not completed, and one that is not draining either.
abbrev pub is_open_of : ℕ → ℕ → AssignmentRecord → Bool
is_open_of run_id agent_id r =
    r.run_id == run_id && (r.agent_id == agent_id && is_none r.completed_at)

abbrev pub is_undrained_of : ℕ → ℕ → AssignmentRecord → Bool
is_undrained_of run_id agent_id r = is_open_of run_id agent_id r && not (str_eq r.state "draining")

-- Where at most one row meets a test, a narrower test that its row does not meet finds nothing.
none_beside {ℓ} :
    {A : Type ℓ} (p q : A → Bool) (rs : List A) (a : A)
    → ((r : A) → q r ≡ true → p r ≡ true)
    → count_where p rs ≤ 1
    → select_first p rs ≡ some a
    → q a ≡ false
    → exists_where q rs ≡ false
none_beside p q rs a sub one found miss = elim (Bool-cases (count_where q rs == 0)) [
  | inl zero ↦ count_where_zero q rs (ground (arith, zero))
  | inr more ↦
      absurd
        (ground (arith, miss, select_first_unique p q rs a sub one (ground (arith, more)) found))
]

-- A round of the loop leaves the assignments alone, or drains the one that it found.
data DrainStep (run_id agent_id : ℕ) (db db' : Db) : Type 0 where
  found_none :
      active_assignment_for_agent db run_id agent_id ≡ none
      → db'.assignments ≡ db.assignments
      → DrainStep run_id agent_id db db'
  was_draining :
      (a : AssignmentRecord)
      → active_assignment_for_agent db run_id agent_id ≡ some a
      → str_eq a.state "draining" ≡ true
      → db'.assignments ≡ db.assignments
      → DrainStep run_id agent_id db db'
  now_draining :
      (a : AssignmentRecord)
      → active_assignment_for_agent db run_id agent_id ≡ some a
      → db'.assignments ≡ (drained a.id db).assignments
      → DrainStep run_id agent_id db db'

drain_agent_step :
    (env : Env) (run_id now_ms : ℕ) (x : AgentRecord) (db db' : Db)
    → drain_agent env run_id now_ms x db ≡ ok (tt, db')
    → DrainStep run_id x.id db db'
unfolding drain_agent
drain_agent_step env run_id now_ms x db db' h =
    elim (Option-cases (active_assignment_for_agent db run_id x.id)) [
      | inl e ↦ found_none e (ground (arith, h, e))
      | inr (a, e) ↦
          let (mid, logs, same) = drain_step env a now_ms db db' (ground (arith, h, e)) in
          elim (Bool-cases (str_eq a.state "draining")) [
            | inl done ↦ was_draining a e done (logs.assignments ∙ ground (arith, same, done))
            | inr new ↦ now_draining a e (logs.assignments ∙ ground (arith, same, new))
          ]
    ]

module _ (run_id agent_id : ℕ) where
  -- At most one assignment of the agent is open, and none of them is undrained.
  abbrev IsSingle : Db → Type 0
  IsSingle db = count_where (is_open_of run_id agent_id) db.assignments ≤ 1

  abbrev IsDrained : Db → Type 0
  IsDrained db = exists_where (is_undrained_of run_id agent_id) db.assignments ≡ false

  drained_count :
      (id : ℕ) (db : Db)
      → count_where (is_open_of run_id agent_id) (drained id db).assignments
        ≡ count_where (is_open_of run_id agent_id) db.assignments
  drained_count id db =
      count_where-update_where (is_open_of run_id agent_id) _ _ db.assignments
      ∙ count_where_congr _ (is_open_of run_id agent_id) db.assignments (λ r. ground arith)

  -- An assignment that the update of another one leaves undrained was undrained, and is not that one.
  undrained_after :
      (id : ℕ) (r : AssignmentRecord)
      → is_undrained_of run_id agent_id
          (if r.id == id && is_none r.completed_at then record r { state = "draining" } else r)
        ≡ true
      → (is_undrained_of run_id agent_id r && not (r.id == id)) ≡ true
  undrained_after id r hit =
      let after : Bool → Type 0 = λ b.
        is_undrained_of run_id agent_id (if b then record r { state = "draining" } else r) ≡ true in
      elim (Bool-cases (r.id == id && is_none r.completed_at)) [
        | inl own ↦ absurd (ground (arith, subst after own hit))
        | inr other ↦ ground (arith, subst after other hit, other)
      ]

  drained-IsDrained : (id : ℕ) (db : Db) → IsDrained db → IsDrained (drained id db)
  drained-IsDrained id db none_left =
      exists_where-update_where_keeps (is_undrained_of run_id agent_id) _ _ db.assignments
        (λ r hit. ground (arith, undrained_after id r hit)) none_left

  DrainStep-count_where :
      (x : ℕ) (db db' : Db)
      → DrainStep run_id x db db'
      → count_where (is_open_of run_id agent_id) db'.assignments
        ≡ count_where (is_open_of run_id agent_id) db.assignments
  DrainStep-count_where x db db' (found_none _ e) = rw e refl
  DrainStep-count_where x db db' (was_draining _ _ _ e) = rw e refl
  DrainStep-count_where x db db' (now_draining a _ e) = rw e (drained_count a.id db)

  DrainStep-IsDrained :
      (x : ℕ) (db db' : Db) → DrainStep run_id x db db' → IsDrained db → IsDrained db'
  DrainStep-IsDrained x db db' (found_none _ e) over = rw e over
  DrainStep-IsDrained x db db' (was_draining _ _ _ e) over = rw e over
  DrainStep-IsDrained x db db' (now_draining a _ e) over = rw e (drained-IsDrained a.id db over)

  -- The round of the agent drains its open assignment.
  own_round : (db db' : Db) → DrainStep run_id agent_id db db' → IsSingle db → IsDrained db'
  unfolding active_assignment_for_agent
  own_round db db' (found_none none_open e) one = rw e (
      exists_where_antitone (is_open_of run_id agent_id) (is_undrained_of run_id agent_id)
        db.assignments (λ r hit. ground (arith, hit))
        (count_where_zero _ db.assignments (count_where-none _ db.assignments none_open)))
  own_round db db' (was_draining a found done e) one = rw e (
      none_beside (is_open_of run_id agent_id) (is_undrained_of run_id agent_id) db.assignments a
        (λ r hit. ground (arith, hit)) one found (ground (arith, done)))
  own_round db db' (now_draining a found e) one = rw e (
      exists_where-update_where (is_undrained_of run_id agent_id) _ _ db.assignments
      ∙ exists_where_antitone (λ r. is_undrained_of run_id agent_id r && not (r.id == a.id)) _
          db.assignments (λ r hit. undrained_after a.id r hit)
          (none_beside (is_open_of run_id agent_id)
            (λ r. is_undrained_of run_id agent_id r && not (r.id == a.id)) db.assignments a
            (λ r hit. ground (arith, hit)) one found (ground arith)))

module _ (env : Env) (run_id now_ms agent_id : ℕ) where
  -- The loop keeps the assignments of an agent drained, and drains those of its agents.
  drain_agents-IsDrained :
      (agents : List AgentRecord) (db db' : Db)
      → drain_agents env run_id now_ms agents db ≡ ok (tt, db')
      → IsDrained run_id agent_id db
      → IsDrained run_id agent_id db'
  unfolding drain_agents
  drain_agents-IsDrained [] db db' h over =
      let same : db ≡ db' = ground (arith, h) in subst (IsDrained run_id agent_id) same over
  drain_agents-IsDrained (x ∷ rest) db db' h over =
      let (mid, first, second) =
        then-eq-ok (drain_agent env run_id now_ms x) (drain_agents env run_id now_ms rest) db h in
      drain_agents-IsDrained rest mid db' second (
        DrainStep-IsDrained run_id agent_id x.id db mid
          (drain_agent_step env run_id now_ms x db mid first) over)

  pub drain_agents_all :
      (agents : List AgentRecord) (db db' : Db)
      → drain_agents env run_id now_ms agents db ≡ ok (tt, db')
      → exists_where (λ x. x.id == agent_id) agents ≡ true
      → IsSingle run_id agent_id db
      → IsDrained run_id agent_id db'
  unfolding drain_agents exists_where
  drain_agents_all [] db db' h here one = absurd (ground (arith, here))
  drain_agents_all (x ∷ rest) db db' h here one =
      let (mid, first, second) =
        then-eq-ok (drain_agent env run_id now_ms x) (drain_agents env run_id now_ms rest) db h in
      let step = drain_agent_step env run_id now_ms x db mid first in
      elim (Bool-cases (x.id == agent_id)) [
        | inr other ↦
            drain_agents_all rest mid db' second (ground (arith, here, other)) (
              subst (λ n. n ≤ 1) (sym (DrainStep-count_where run_id agent_id x.id db mid step)) one)
        | inl same ↦
            let e : x.id ≡ agent_id = ground (arith, same) in
            drain_agents-IsDrained rest mid db' second
              (own_round run_id agent_id db mid (subst (λ i. DrainStep run_id i db mid) e step) one)
      ]

  pub drain_agents-count_where :
      (agents : List AgentRecord) (db db' : Db)
      → drain_agents env run_id now_ms agents db ≡ ok (tt, db')
      → count_where (is_open_of run_id agent_id) db'.assignments
        ≡ count_where (is_open_of run_id agent_id) db.assignments
  unfolding drain_agents
  drain_agents-count_where [] db db' h = ground (arith, h)
  drain_agents-count_where (x ∷ rest) db db' h =
      let (mid, first, second) =
        then-eq-ok (drain_agent env run_id now_ms x) (drain_agents env run_id now_ms rest) db h in
      drain_agents-count_where rest mid db' second
      ∙ DrainStep-count_where run_id agent_id x.id db mid
          (drain_agent_step env run_id now_ms x db mid first)
