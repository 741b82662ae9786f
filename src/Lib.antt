-- ===== src/Lib.antt =====
-- Coterie, a supervisor of coding agents: the state that a run keeps and the decisions on it.
--
-- A run has agents, tasks with dependencies, claims and assignments that tie a task to an agent,
-- and a log of events. All of it is kept in an SQLite store (src/state.rs and src/state/), which
-- the supervisor changes by transactions. Requests carry an operation identifier, by which a
-- retry is recognised. src/tasks.rs and src/providers.rs hold the lifecycles of tasks and of provider
-- processes, on which the store relies.
--
--   Prelude: names of the libraries, Boolean tests on numbers and texts, lemmas on lists.
--   Tasks: src/tasks.rs, whole.
--   Lifecycle: `LifecycleState` of src/providers.rs.
--   Sql: the queries that the store's statements use, on a table as the list of its rows in the
--   order of insertion: `SELECT … LIMIT 1`, `EXISTS`, `COUNT`, `UPDATE … WHERE`, `MAX`, `ORDER BY`.
--   Json: JSON documents, with numbers, identifiers and texts as separate constructors.
--   Store: src/state.rs. Records, Event and Control are its rows; Tx the transactions
--   (`Store::transaction`); Keys the foreign keys of src/state/migrations/0001_initial.sql; Events
--   the event log; Rows the reads; Claims `compare_and_set_claim`; Transitions
--   `apply_task_transition`; Mutate `mutate_with_fingerprint`; ClaimTask `claim_task`;
--   TransitionTask `transition_task_with_fingerprint`; Ready `ready_tasks`; Messages
--   `acknowledge_messages`; Sessions the agents, their generations and sessions; Credentials
--   `activate_session_credential` and its like; Operations the reports on external resources;
--   Supervision src/state/supervision.rs. Ownership states the invariant of tasks, claims and
--   assignments.
--   Config: `resolve_supervision` and `apply_limits` of src/config/resolver.rs.
--   Supervisor: the idle timer of src/supervisor/idle.rs, whose clock is a parameter.
--   Redaction: src/redaction.rs. A text is a list of bytes. Prefixes and Stable are lemmas, Scan
--   is the relation that the loop of `drain` computes, Laws the results.
--   Auth: the text of a token in src/auth.rs, as bytes of ASCII.
--   Protocol: `write_frame` and `read_frame` of src/protocol.rs.
--   Policy: src/config/policy.rs.
--   Tests: concrete inputs.
--
-- An operation of the store is a function from the tables to an error or an answer with the new
-- tables. A statement that a constraint refuses is the error `database`; `run_transaction` keeps
-- the old tables on an error. Identifiers and times are numbers. The generation of identifiers, the
-- size of a serialized event, the text of an identifier, the reading of a recovery document and the
-- test for a blank text are parameters (`Env`, `Blank`), and so is the serialization of an answer
-- (`Codec`), with the hypothesis that what is written reads back.
--
-- The loops over tables and bytes are recursion on lists. The loop of the redactor's `drain` runs
-- on fuel, one unit for each pending byte: each step takes at least one byte if no secret is
-- empty, which `Redactor::add` ensures.
--
-- Not modelled: the supervisor's threads, sockets and processes, git workspaces, the loading of
-- configuration files, the command line, the MCP server, transcripts and diagnostics, which are
-- input and output around the store; SQLite itself, the durability of its files and the
-- interleaving of connections, since every operation of the store runs in an immediate
-- transaction.
pub mod Auth
pub mod Config
pub mod Json
pub mod Lifecycle
pub mod Policy
pub mod Prelude
pub mod Protocol
pub mod Redaction
pub mod Sql
pub mod Store
pub mod Supervisor
pub mod Tasks
pub mod Tests
