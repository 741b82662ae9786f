-- ===== src/Store/Credentials/Laws.antt =====
-- src/state.rs: what `activate_session_credential` leaves.
use coterie.Prelude.{none, List, [], ◌∷◌, ◌++◌}
use coterie.Store.Records.{SessionCredentialRecord}
use coterie.Store.Sessions.{revoke}
use coterie.Store.Credentials.{is_active_of}

-- The row that an activation inserts.
abbrev activated : SessionCredentialRecord → SessionCredentialRecord
activated c = record c { revoked_at = none }

-- The table after an activation.
abbrev activated_table :
    SessionCredentialRecord → List SessionCredentialRecord → List SessionCredentialRecord
activated_table c cs = revoke (is_active_of c.run_id c.agent_id) c.created_at cs ++ activated c ∷ []
