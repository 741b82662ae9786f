-- ===== src/Store/Events/Frame.antt =====
-- The transactions that only write events, and the other tables. (src/state.rs)
use coterie.Prelude.{◌≡◌, ◌∙◌, arith}
use coterie.Store.Event.{NewEvent}
use coterie.Store.Tx.{ok, Env, Db, Tx, ◌>>=◌, ◌>>◌, return, read, bind-eq-ok, then-eq-ok}
use coterie.Store.Events.{insert_event, append_event}

-- The tables of the work and its operations are the same.
pub record Logs (db db' : Db) : Type 0 where
  pub runs : db'.runs ≡ db.runs
  pub agents : db'.agents ≡ db.agents
  pub sessions : db'.sessions ≡ db.sessions
  pub tasks : db'.tasks ≡ db.tasks
  pub dependencies : db'.dependencies ≡ db.dependencies
  pub operations : db'.operations ≡ db.operations
  pub claims : db'.claims ≡ db.claims
  pub assignments : db'.assignments ≡ db.assignments
  pub messages : db'.messages ≡ db.messages
  pub workspaces : db'.workspaces ≡ db.workspaces
  pub failures : db'.failures ≡ db.failures
  pub launch_attempts : db'.launch_attempts ≡ db.launch_attempts
  pub controls : db'.controls ≡ db.controls
  pub shutdowns : db'.shutdowns ≡ db.shutdowns
  pub credentials : db'.credentials ≡ db.credentials

pub Logs-refl : (db : Db) → Logs db db
Logs-refl db = ground arith

pub Logs-trans : {a b c : Db} → Logs a b → Logs b c → Logs a c
Logs-trans l k = record {
  runs = k.runs ∙ l.runs;
  agents = k.agents ∙ l.agents;
  sessions = k.sessions ∙ l.sessions;
  tasks = k.tasks ∙ l.tasks;
  dependencies = k.dependencies ∙ l.dependencies;
  operations = k.operations ∙ l.operations;
  claims = k.claims ∙ l.claims;
  assignments = k.assignments ∙ l.assignments;
  messages = k.messages ∙ l.messages;
  workspaces = k.workspaces ∙ l.workspaces;
  failures = k.failures ∙ l.failures;
  launch_attempts = k.launch_attempts ∙ l.launch_attempts;
  controls = k.controls ∙ l.controls;
  shutdowns = k.shutdowns ∙ l.shutdowns;
  credentials = k.credentials ∙ l.credentials;
}

-- Every successful run of the transaction only writes events.
abbrev pub OnlyLogs : {A : Type 0} → Tx A → Type 0
OnlyLogs {A} m = (db : Db) (a : A) (db' : Db) → m db ≡ ok (a, db') → Logs db db'

module _ {A B : Type 0} where
  pub bind-OnlyLogs :
      (m : Tx A) (f : A → Tx B) → OnlyLogs m → ((a : A) → OnlyLogs (f a)) → OnlyLogs (m >>= f)
  bind-OnlyLogs m f hm hf db b db'' h =
      let (a, db', e, k) = bind-eq-ok m f db h in Logs-trans (hm db a db' e) (hf a db' b db'' k)

module _ {B : Type 0} where
  pub then-OnlyLogs : (m : Tx (Unit {0})) (k : Tx B) → OnlyLogs m → OnlyLogs k → OnlyLogs (m >> k)
  then-OnlyLogs m k hm hk db b db'' h =
      let (db', e, e') = then-eq-ok m k db h in Logs-trans (hm db tt db' e) (hk db' b db'' e')

module _ {A : Type 0} where
  pub return-OnlyLogs : (a : A) → OnlyLogs (return a)
  return-OnlyLogs a db b db' h = ground arith

  pub read-OnlyLogs : (f : Db → A) → OnlyLogs (read f)
  read-OnlyLogs f db b db' h = ground arith

pub append_event-OnlyLogs : (env : Env) (e : NewEvent) → OnlyLogs (append_event env e)
unfolding append_event insert_event
append_event-OnlyLogs env e db r db' h = ground arith
