-- ===== src/Store/Credentials.antt =====
-- src/state.rs, the credentials of sessions: `activate_session_credential`,
-- `replace_desired_session_credential` and `active_session_credential`.
pub mod Steps
pub mod Laws
use coterie.Prelude.{
  ℕ, Bool, true, false, not, ◌&&◌, Option, none, some, List, [], ◌∷◌, ◌++◌, str_eq, ltb, ◌==◌,
  is_none, is_some, if◌then◌else◌,
}
use coterie.Sql.{select_first, exists_where, count_where, update_where}
use coterie.Store.Records.{SessionRecord, SessionCredentialRecord, desired, resource_eq}
use coterie.Store.Control.{SessionScope}
use coterie.Store.Tx.{
  StoreError, database, credential_already_revoked, inconsistent_session_lifecycle, Result, ok, err,
  Db, Tx, ◌>>=◌, ◌>>◌,
}
use coterie.Store.Rows.{session_scope_is_current}
use coterie.Store.Sessions.{revoke, can_revoke}

abbrev pub scope_of : SessionCredentialRecord → SessionScope
scope_of c = record {
  run_id = c.run_id;
  agent_id = c.agent_id;
  session_id = c.session_id;
  generation = c.generation;
}

-- The unrevoked credentials of an agent.
abbrev pub is_active_of : ℕ → ℕ → SessionCredentialRecord → Bool
is_active_of run_id agent_id c =
    c.run_id == run_id && (c.agent_id == agent_id && is_none c.revoked_at)

-- The session that a credential refers to.
abbrev pub is_session_of : SessionCredentialRecord → SessionRecord → Bool
is_session_of c r =
    r.run_id == c.run_id
    && (r.agent_id == c.agent_id && (r.id == c.session_id && r.generation == c.generation))

-- The constraints of the table `session_credentials` on a new unrevoked row.
unfoldable pub credential_admitted : Db → SessionCredentialRecord → Bool
credential_admitted db c =
    not (exists_where (λ r. r.session_id == c.session_id) db.credentials)
    && (not (exists_where (is_active_of c.run_id c.agent_id) db.credentials)
        && exists_where (is_session_of c) db.sessions)

unfoldable pub insert_session_credential : SessionCredentialRecord → Tx (Unit {0})
unfolding credential_admitted
insert_session_credential c db =
    if credential_admitted db c
    then ok (tt, record db { credentials = db.credentials ++ record c { revoked_at = none } ∷ [] })
    else err database

-- The `UPDATE` that revokes the agent's credentials.
unfoldable pub revoke_credentials : ℕ → ℕ → ℕ → Tx (Unit {0})
revoke_credentials run_id agent_id at db =
    if can_revoke (is_active_of run_id agent_id) at db.credentials
    then ok
        (tt, record db { credentials = revoke (is_active_of run_id agent_id) at db.credentials })
    else err database

unfoldable pub activate_session_credential : SessionCredentialRecord → Tx (Unit {0})
unfolding revoke_credentials insert_session_credential
activate_session_credential c db =
    if is_some c.revoked_at
    then err (credential_already_revoked c.session_id)
    else if not (session_scope_is_current db (scope_of c))
    then err (inconsistent_session_lifecycle c.session_id c.agent_id)
    else (revoke_credentials c.run_id c.agent_id c.created_at >> insert_session_credential c) db

-- The `WHERE` clause of the rotation: the credential is live and its session is still desired.
unfoldable pub is_rotated : Db → SessionCredentialRecord → SessionCredentialRecord → Bool
is_rotated db c r =
    (r.session_id == c.session_id && (r.run_id == c.run_id && r.agent_id == c.agent_id))
    && (r.generation == c.generation
        && (is_none r.revoked_at
            && exists_where
                (λ s. s.id == r.session_id && resource_eq s.reconciliation_state desired)
                db.sessions))

unfoldable pub replace_desired_session_credential : SessionCredentialRecord → Tx (Unit {0})
unfolding is_rotated
replace_desired_session_credential c db =
    if is_some c.revoked_at
    then err (credential_already_revoked c.session_id)
    else if count_where (is_rotated db c) db.credentials == 1
    then ok (
      tt,
      record db {
        credentials =
            update_where (is_rotated db c)
              (λ r. record r { token_verifier = c.token_verifier; created_at = c.created_at })
              db.credentials;
      },
    )
    else err (inconsistent_session_lifecycle c.session_id c.agent_id)

-- The joins and the `WHERE` clause of `active_session_credential`.
unfoldable pub is_live : Db → ℕ → ℕ → ℕ → SessionCredentialRecord → Bool
is_live db run_id agent_id session_id c =
    (c.run_id == run_id && (c.agent_id == agent_id && c.session_id == session_id))
    && (is_none c.revoked_at
        && (exists_where (λ r. is_session_of c r && is_none r.ended_at) db.sessions
            && (exists_where
                  (λ a.
                    a.run_id == c.run_id && (a.id == c.agent_id && a.generation == c.generation))
                  db.agents
                && exists_where (λ r. r.id == c.run_id && str_eq r.status "active") db.runs)))

unfoldable pub active_session_credential : Db → ℕ → ℕ → ℕ → Option SessionCredentialRecord
unfolding is_live
active_session_credential db run_id agent_id session_id =
    select_first (is_live db run_id agent_id session_id) db.credentials
