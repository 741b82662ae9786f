-- ===== src/Store/Tx.antt =====
-- A SQLite transaction of src/state.rs as a state and exception monad over the tables: an error
-- drops the transaction, so the tables of its start remain.
use coterie.Prelude.{ℕ, ◌≡◌, refl, Bool, true, false, Option, List, [], String}
use coterie.Json.{Json}
use coterie.Lifecycle.{LifecycleState}
use coterie.Store.Records.{
  RunRecord, ProjectRecord, AgentRecord, SessionRecord, SessionCredentialRecord, TaskRecord,
  DependencyRecord, OperationRecord, ClaimRecord, AssignmentRecord, MessageRecord, WorkspaceRecord,
}
use coterie.Store.Event.{EventRecord}
use coterie.Store.Control.{RunShutdown, SessionControl, LaunchAttempt, SessionFailure}

-- `StoreError`, less the variants of the parts that are not modelled. `database` is SQLite's
-- refusal of a statement: a key, a uniqueness index, a foreign key, a trigger. `panicked` is a panic
-- of the calling thread, which drops the transaction too.
pub data StoreError : Type 0 where
  database : StoreError
  panicked : StoreError
  encode_json : StoreError
  workspace_path_reserved : ℕ → StoreError
  event_too_large : ℕ → StoreError
  modified_migration : ℕ → String → StoreError
  unsupported_schema : ℕ → ℕ → StoreError
  noncontiguous_migrations : ℕ → ℕ → StoreError
  pending_migrations : ℕ → StoreError
  operation_conflict : ℕ → StoreError
  operation_incomplete : ℕ → String → StoreError
  missing_operation_result : ℕ → StoreError
  corrupt_task_state : ℕ → String → StoreError
  corrupt_assignment_state : ℕ → String → StoreError
  stale_assignment : ℕ → StoreError
  workspace_result_conflict : ℕ → String → String → StoreError
  workspace_target_conflict : ℕ → String → String → StoreError
  resubmission_conflict : ℕ → String → StoreError
  run_not_active : ℕ → StoreError
  credential_already_revoked : ℕ → StoreError
  invalid_session_transition : ℕ → LifecycleState → LifecycleState → StoreError
  inconsistent_session_lifecycle : ℕ → ℕ → StoreError

pub data Result {ℓ} (A : Type ℓ) : Type ℓ where
  ok : A → Result A
  err : StoreError → Result A

-- The fields of `RecoverySummary` that the store reads back from a `task.recovered` event.
pub record Recovery : Type 0 where
  pub task_id : ℕ
  pub assignment_id : ℕ
  pub project_id : ℕ

-- What the store takes from the crates that it is built on.
pub record Env : Type 0 where
  -- The identifier of the n-th call of `EventId::generate`.
  pub event_id : ℕ → ℕ
  -- The length of an event as JSON (`serde_json::to_vec`).
  pub event_size : EventRecord → ℕ
  -- The canonical text of an identifier.
  pub display : ℕ → String
  -- The derived `Deserialize` of `RecoverySummary`.
  pub parse_recovery : Json → Option Recovery

-- The tables, rows in rowid order, and how many event identifiers have been generated.
pub record Db : Type 0 where
  pub runs : List RunRecord
  pub projects : List ProjectRecord
  pub agents : List AgentRecord
  pub sessions : List SessionRecord
  pub credentials : List SessionCredentialRecord
  pub tasks : List TaskRecord
  pub dependencies : List DependencyRecord
  pub operations : List OperationRecord
  pub claims : List ClaimRecord
  pub assignments : List AssignmentRecord
  pub messages : List MessageRecord
  pub workspaces : List WorkspaceRecord
  pub events : List EventRecord
  pub shutdowns : List RunShutdown
  pub controls : List SessionControl
  pub launch_attempts : List LaunchAttempt
  pub failures : List SessionFailure
  pub generated : ℕ

abbrev pub empty_db : Db
empty_db = record {
  runs = [];
  projects = [];
  agents = [];
  sessions = [];
  credentials = [];
  tasks = [];
  dependencies = [];
  operations = [];
  claims = [];
  assignments = [];
  messages = [];
  workspaces = [];
  events = [];
  shutdowns = [];
  controls = [];
  launch_attempts = [];
  failures = [];
  generated = 0;
}

abbrev pub Tx : Type 0 → Type 0
Tx A = Db → Result (A × Db)

module _ {A B : Type 0} where
  infixl 5 ◌>>=◌
  abbrev pub ◌>>=◌ : Tx A → (A → Tx B) → Tx B
  ◌>>=◌ m f db = elim (m db) [ ok (a, db') ↦ f a db' | err e ↦ err e ]

  -- Inversion of a successful chain.
  pub bind-eq-ok :
      (m : Tx A) (f : A → Tx B) (db : Db) {b : B} {db'' : Db}
      → (m >>= f) db ≡ ok (b, db'')
      → (a : A) × (db' : Db) × (m db ≡ ok (a, db')) × (f a db' ≡ ok (b, db''))
  bind-eq-ok m f db h = go (m db) refl h
    where
      go :
          (r : Result (A × Db)) {b : B} {db'' : Db}
          → m db ≡ r
          → ◌≡◌ {A = Result (B × Db)}
              (elim r [ ok (a, db') ↦ f a db' | err e ↦ err e ])
              (ok (b, db''))
          → (a : A) × (db' : Db) × (m db ≡ ok (a, db')) × (f a db' ≡ ok (b, db''))
      go (ok (a, db')) e k = (a, db', e, k)
      go (err x) e k = cc

module _ {B : Type 0} where
  infixl 5 ◌>>◌
  abbrev pub ◌>>◌ : Tx (Unit {0}) → Tx B → Tx B
  ◌>>◌ m k db = elim (m db) [ ok (u, db') ↦ k db' | err e ↦ err e ]

  pub then-eq-ok :
      (m : Tx (Unit {0})) (k : Tx B) (db : Db) {b : B} {db'' : Db}
      → (m >> k) db ≡ ok (b, db'')
      → (db' : Db) × (m db ≡ ok (tt, db')) × (k db' ≡ ok (b, db''))
  then-eq-ok m k db h = go (m db) refl h
    where
      go :
          (r : Result (Unit {0} × Db)) {b : B} {db'' : Db}
          → m db ≡ r
          → ◌≡◌ {A = Result (B × Db)}
              (elim r [ ok (u, db') ↦ k db' | err e ↦ err e ])
              (ok (b, db''))
          → (db' : Db) × (m db ≡ ok (tt, db')) × (k db' ≡ ok (b, db''))
      go (ok (u, db')) e h = (db', e, h)
      go (err x) e h = cc

module _ {A : Type 0} where
  abbrev pub return : A → Tx A
  return a db = ok (a, db)

  abbrev pub read : (Db → A) → Tx A
  read f db = ok (f db, db)

  abbrev pub throw : StoreError → Tx A
  throw e db = err e

  -- `connection.transaction()?` … `commit()?`: the caller's result, and the tables afterwards.
  unfoldable pub run_transaction : Tx A → Db → Result A × Db
  run_transaction m db = elim (m db) [ ok (a, db') ↦ (ok a, db') | err e ↦ (err e, db) ]

-- An insert that SQLite refuses when a constraint of its table fails.
abbrev pub require : Bool → StoreError → Tx (Unit {0})
require true e db = ok (tt, db)
require false e db = err e
