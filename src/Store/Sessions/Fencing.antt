-- ===== src/Store/Sessions/Fencing.antt =====
-- The scopes of a generation that was replaced. (src/state.rs)
use coterie.Prelude.{
  ℕ, String, ◌<◌, ◌≡◌, ◌≤◌, Bool, true, false, some, not, ◌&&◌, List, [], ◌∷◌, ◌++◌, ◌==◌, leb,
  arith, ◌∙◌, Bool-cases, Option-cases, inl, inr,
}
use coterie.Lifecycle.{LifecycleState, starting}
use coterie.Sql.{select_first, exists_where, update_where, count_where}
use coterie.Sql.Laws.{select_first_test}
use coterie.Sql.Exists.{
  exists_where-update_where, exists_where_antitone, exists_where-append_one,
  exists_where-update_where_same, exists_where-update_where_keeps, exists_where_mono,
  exists_where_witness, exists_where-select_first, exists_where_unique,
}
use coterie.Store.Records.{
  AgentRecord, SessionRecord, SessionTransitionOutcome, ExternalResourceState, stale,
}
use coterie.Store.Control.{SessionScope}
use coterie.Store.Tx.{ok, Db, Tx}
use coterie.Store.Rows.{session_scope_is_current, session, agent}
use coterie.Store.Sessions.Steps.{restart_step, refuse, restart}
use coterie.Store.Sessions.Shapes.{AgentsStep, agents_kept, agent_added, agents_moved, agents_step}
use coterie.Store.Sessions.{
  observe_launch, observe_reconciliation, observe_session, record_session_launch_observation,
  record_session_reconciliation_state, record_session_lifecycle, if_current, can_restart,
  start_agent_generation, is_generation,
}
use coterie.Store.Sessions.Reach.{Reach, reach_keeps}

-- The agent exists, and is in a generation after `g`.
abbrev pub IsBeyond : ℕ → ℕ → List AgentRecord → Type 0
IsBeyond id g agents =
    (exists_where (λ a. a.id == id) agents ≡ true)
    × (exists_where (λ a. a.id == id && leb a.generation g) agents ≡ false)

module _ (id g : ℕ) where
  IsBeyond-agent_added :
      (xs : List AgentRecord) (a : AgentRecord)
      → exists_where (λ r. r.id == a.id) xs ≡ false
      → IsBeyond id g xs
      → IsBeyond id g (xs ++ a ∷ [])
  IsBeyond-agent_added xs a fresh (known, newer) = elim (Bool-cases (a.id == id)) [
    | inl same ↦ absurd (
        ground (
          arith,
          known,
          exists_where_antitone (λ r. r.id == a.id) (λ r. r.id == id) xs
              (λ r hit. ground (arith, same, hit)) fresh,
        ))
    | inr other ↦ (
      exists_where-append_one _ xs a other ∙ known,
      exists_where-append_one _ xs a (ground (arith, other)) ∙ newer,
    )
  ]

  IsBeyond-update_where :
      (p : AgentRecord → Bool) (f : AgentRecord → AgentRecord) (xs : List AgentRecord)
      → ((a : AgentRecord) → (f a).id ≡ a.id)
      → ((a : AgentRecord) → p a ≡ true → a.generation ≤ (f a).generation)
      → IsBeyond id g xs
      → IsBeyond id g (update_where p f xs)
  IsBeyond-update_where p f xs keep up (known, newer) = (
    exists_where-update_where_same (λ a. a.id == id) p f xs (λ r. ground (arith, keep r)) ∙ known,
    exists_where-update_where_keeps (λ a. a.id == id && leb a.generation g) p f xs
        (λ r hit. ground (arith, keep r, up r)) newer,
  )

  IsBeyond-AgentsStep :
      {xs ys : List AgentRecord} → AgentsStep xs ys → IsBeyond id g xs → IsBeyond id g ys
  IsBeyond-AgentsStep (agents_kept e) h = rw e h
  IsBeyond-AgentsStep {xs} (agent_added a fresh e) h = rw e (IsBeyond-agent_added xs a fresh h)
  IsBeyond-AgentsStep {xs} (agents_moved p f keep up e) h =
      rw e (IsBeyond-update_where p f xs keep up h)

  pub IsBeyond-Reach :
      {db db' : Db} → Reach db db' → IsBeyond id g db.agents → IsBeyond id g db'.agents
  IsBeyond-Reach reach =
      reach_keeps (λ db. IsBeyond id g db.agents)
        (λ x y step. IsBeyond-AgentsStep (agents_step {db = x} {db' = y} step)) reach

-- The agent of a current scope is in the scope's generation.
scope_agent :
    (db : Db) (s : SessionScope)
    → session_scope_is_current db s ≡ true
    → exists_where (λ a. a.id == s.agent_id && a.generation == s.generation) db.agents ≡ true
unfolding session_scope_is_current
scope_agent db s h =
    let (r, hit) = exists_where_witness _ db.sessions h in
    exists_where_mono (λ a. a.id == s.agent_id && a.generation == s.generation)
      (λ a. a.id == r.agent_id && (a.run_id == r.run_id && a.generation == s.generation)) db.agents
      (λ a found. ground (arith, hit, found)) (ground (arith, hit))

-- A scope of an older generation than its agent's is not current.
scope_outdated :
    (db : Db) (s : SessionScope) (g : ℕ)
    → s.generation ≤ g
    → IsBeyond s.agent_id g db.agents
    → session_scope_is_current db s ≡ false
scope_outdated db s g old (known, newer) = elim (Bool-cases (session_scope_is_current db s)) [
  | inr no_more ↦ no_more
  | inl cur ↦ absurd (
      ground (
        arith,
        scope_agent db s cur,
        exists_where_antitone (λ a. a.id == s.agent_id && leb a.generation g)
            (λ a. a.id == s.agent_id && a.generation == s.generation) db.agents
            (λ a hit. ground (arith, hit, old)) newer,
      ))
]

if_current_outdated :
    (s : SessionScope) (observe : SessionRecord → Tx SessionTransitionOutcome) (db : Db)
    → session_scope_is_current db s ≡ false
    → if_current s observe db ≡ ok (stale, db)
unfolding if_current
if_current_outdated s observe db out = elim (Option-cases (session db s.session_id)) [
  | inl e ↦ ground (arith, e)
  | inr (r, e) ↦ ground (arith, e, out)
]

module _ (run_id agent_id cur next : ℕ) (xs : List AgentRecord) where
  restarted_known :
      exists_where (λ a. a.id == agent_id) xs ≡ true
      → exists_where
          (λ a. a.id == agent_id)
          (update_where
            (is_generation run_id agent_id cur)
            (λ r. record r { generation = next; state = starting })
            xs)
        ≡ true
  restarted_known known =
      exists_where-update_where_same (λ a. a.id == agent_id) (is_generation run_id agent_id cur) _
        xs (λ r. ground arith)
      ∙ known

  -- The row of an agent's only key is the row that the restart updates.
  restarted_newer :
      (a : AgentRecord)
      → count_where (λ r. r.id == agent_id) xs ≤ 1
      → select_first (λ r. r.id == agent_id) xs ≡ some a
      → is_generation run_id agent_id cur a ≡ true
      → cur < next
      → exists_where
          (λ r. r.id == agent_id && leb r.generation cur)
          (update_where
            (is_generation run_id agent_id cur)
            (λ r. record r { generation = next; state = starting })
            xs)
        ≡ false
  restarted_newer a key found hit up =
      exists_where-update_where _ (is_generation run_id agent_id cur) _ xs
      ∙ exists_where_antitone (λ r. r.id == agent_id && not (is_generation run_id agent_id cur r)) _
          xs (λ r old. ground (arith, old, up))
          (exists_where_unique (λ r. r.id == agent_id) (is_generation run_id agent_id cur) xs
            (λ r same. ground (arith, same)) key
            (exists_where-select_first (λ r. r.id == agent_id) (is_generation run_id agent_id cur)
              xs a found hit))

-- A restart leaves its agent beyond the generation that it ends.
restart_IsBeyond :
    (run_id agent_id cur next : ℕ) (db db' : Db)
    → count_where (λ a. a.id == agent_id) db.agents ≤ 1
    → start_agent_generation run_id agent_id cur next db ≡ ok (true, db')
    → IsBeyond agent_id cur db'.agents
unfolding can_restart agent
restart_IsBeyond run_id agent_id cur next db db' key h =
    elim (restart_step run_id agent_id cur next db h) [
      | refuse f _ ↦ absurd (ground (arith, f))
      | restart a found pass e ↦
          let same = select_first_test (λ r. r.id == agent_id) db.agents a found in
          let hit : is_generation run_id agent_id cur a ≡ true = ground (arith, same, pass) in
          rw e (
            restarted_known run_id agent_id cur next db.agents (
                exists_where-select_first (λ r. r.id == agent_id) (λ r. r.id == agent_id) db.agents
                  a found same),
            restarted_newer run_id agent_id cur next db.agents a key found hit
                (ground (arith, pass)),
          )
    ]

module _ (run_id agent_id cur next : ℕ) (db db' db'' : Db) (s : SessionScope) where
  restarted_outdated :
      count_where (λ a. a.id == agent_id) db.agents ≤ 1
      → start_agent_generation run_id agent_id cur next db ≡ ok (true, db')
      → Reach db' db''
      → s.agent_id ≡ agent_id
      → s.generation ≤ cur
      → session_scope_is_current db'' s ≡ false
  restarted_outdated key h reach agent_here old = scope_outdated db'' s cur old (
      rw agent_here (
        IsBeyond-Reach agent_id cur reach (restart_IsBeyond run_id agent_id cur next db db' key h)))

-- Once an agent has been moved to a newer generation, whatever operations on sessions follow, the
-- three observations of a scope of the old generation or an earlier one report that it is stale and
-- change nothing. (The identifiers of agents are a key.)
pub start_agent_generation_fences :
    (run_id agent_id cur next : ℕ) (db db' db'' : Db) (s : SessionScope) (provider_id : String)
    (state : ExternalResourceState) (observed_state : LifecycleState) (at : ℕ)
    → count_where (λ a. a.id == agent_id) db.agents ≤ 1
    → start_agent_generation run_id agent_id cur next db ≡ ok (true, db')
    → Reach db' db''
    → s.agent_id ≡ agent_id
    → s.generation ≤ cur
    → (record_session_launch_observation s provider_id at db'' ≡ ok (stale, db''))
      × (record_session_reconciliation_state s state at db'' ≡ ok (stale, db''))
      × (record_session_lifecycle s observed_state at db'' ≡ ok (stale, db''))
unfolding record_session_launch_observation record_session_reconciliation_state
    record_session_lifecycle
start_agent_generation_fences r a cur next db db' db'' s id state observed_state at key h reach e
      old =
    let out = restarted_outdated r a cur next db db' db'' s key h reach e old in
    (
      if_current_outdated s (observe_launch s id at) db'' out,
      if_current_outdated s (observe_reconciliation s state at) db'' out,
      if_current_outdated s (observe_session s observed_state at) db'' out,
    )
