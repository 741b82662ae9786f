-- ===== src/Store/Credentials/Steps.antt =====
-- src/state.rs, `activate_session_credential` when it returns.
use coterie.Prelude.{◌≡◌, true, false, is_some, refl, sym, ◌∙◌, arith, Bool-cases, inl, inr}
use coterie.Store.Records.{SessionCredentialRecord}
use coterie.Store.Tx.{ok, Db, ◌>>◌, then-eq-ok}
use coterie.Store.Rows.{session_scope_is_current}
use coterie.Store.Credentials.{
  scope_of, revoke_credentials, insert_session_credential, activate_session_credential,
}

module _ (c : SessionCredentialRecord) (db : Db) where
  activate_run :
      is_some c.revoked_at ≡ false
      → session_scope_is_current db (scope_of c) ≡ true
      → activate_session_credential c db
        ≡ (revoke_credentials c.run_id c.agent_id c.created_at >> insert_session_credential c) db
  unfolding activate_session_credential
  activate_run fresh pass = rw (fresh, pass) refl

  activate_guards :
      {db' : Db}
      → activate_session_credential c db ≡ ok (tt, db')
      → (is_some c.revoked_at ≡ false)
        × (session_scope_is_current db (scope_of c) ≡ true)
        × ((revoke_credentials c.run_id c.agent_id c.created_at >> insert_session_credential c) db
            ≡ ok (tt, db'))
  unfolding activate_session_credential
  activate_guards {db'} h = elim (Bool-cases (is_some c.revoked_at)) [
    | inl spent ↦ absurd (ground (arith, spent))
    | inr fresh ↦ elim (Bool-cases (session_scope_is_current db (scope_of c))) [
      | inl pass ↦ (fresh, pass, sym (activate_run fresh pass) ∙ h)
      | inr fail ↦ absurd (ground (arith, fresh, fail))
    ]
  ]

  -- The guards passed, the old credentials were revoked, and the new one was inserted.
  pub activate_step :
      {db' : Db}
      → activate_session_credential c db ≡ ok (tt, db')
      → (is_some c.revoked_at ≡ false)
        × (session_scope_is_current db (scope_of c) ≡ true)
        × (mid : Db) × (revoke_credentials c.run_id c.agent_id c.created_at db ≡ ok (tt, mid))
        × (insert_session_credential c mid ≡ ok (tt, db'))
  activate_step h =
      let (fresh, pass, run) = activate_guards h in
      let (mid, first, second) =
        then-eq-ok (revoke_credentials c.run_id c.agent_id c.created_at)
          (insert_session_credential c) db run in
      (fresh, pass, mid, first, second)
