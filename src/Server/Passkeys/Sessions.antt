-- ===== src/Server/Passkeys/Sessions.antt =====
-- The pending registrations and logins and the login sessions of cmd/mygrokd/passkeys.go. The
-- random identifier of a new session is the argument `id`.
use mygrok.Base.{ℕ, ◌+◌, not, [], Option, none, some, Bytes, ◌==◌, ltb, if◌then◌else◌, keep}
use mygrok.Base.Dict.{lookup, insert, erase}
use mygrok.Server.Passkeys.{
  WebAuthn, AuthSession, Pending, PasskeyStore, pk_session_ttl, pk_pending_ttl,
}

module _ (W : WebAuthn) where
  open W use {SessionData}

  unfoldable pub issue_registration :
      PasskeyStore W → SessionData → Bytes → Bytes → ℕ → PasskeyStore W
  issue_registration s d invite_token id now =
      let p : Pending W = record {
        session_data = d;
        expires = now + pk_pending_ttl;
        return_url = [];
        invite_token = invite_token;
      } in
      record s { reg_sessions = insert id p s.reg_sessions }

  unfoldable pub consume_registration :
      PasskeyStore W → Bytes → ℕ → PasskeyStore W × Option (SessionData × Bytes)
  consume_registration s id now = (
    record s { reg_sessions = erase id s.reg_sessions },
    elim (lookup id s.reg_sessions) [
      | none ↦ none
      | some p ↦ if ltb p.expires now then none else some (p.session_data, p.invite_token)
    ],
  )

  unfoldable pub issue_login : PasskeyStore W → SessionData → Bytes → Bytes → ℕ → PasskeyStore W
  issue_login s d return_url id now =
      let p : Pending W = record {
        session_data = d;
        expires = now + pk_pending_ttl;
        return_url = return_url;
        invite_token = [];
      } in
      record s { login_sessions = insert id p s.login_sessions }

  unfoldable pub consume_login :
      PasskeyStore W → Bytes → ℕ → PasskeyStore W × Option (SessionData × Bytes)
  consume_login s id now = (
    record s { login_sessions = erase id s.login_sessions },
    elim (lookup id s.login_sessions) [
      | none ↦ none
      | some p ↦ if ltb p.expires now then none else some (p.session_data, p.return_url)
    ],
  )

  unfoldable pub issue_auth_session : PasskeyStore W → Bytes → Bytes → ℕ → PasskeyStore W
  issue_auth_session s user_id id now =
      let e : AuthSession = record { user_id = user_id; expires = now + pk_session_ttl } in
      record s { auth_sessions = insert id e s.auth_sessions }

  -- The empty text is no user; an entry that is out of date is dropped.
  unfoldable pub session_user : PasskeyStore W → Bytes → ℕ → PasskeyStore W × Bytes
  session_user s id now = if id == [] then (s, []) else elim (lookup id s.auth_sessions) [
    | none ↦ (record s { auth_sessions = erase id s.auth_sessions }, [])
    | some e ↦
        if ltb e.expires now
        then (record s { auth_sessions = erase id s.auth_sessions }, [])
        else (s, e.user_id)
  ]

  unfoldable pub revoke_session : PasskeyStore W → Bytes → PasskeyStore W
  revoke_session s id = record s { auth_sessions = erase id s.auth_sessions }

  unfoldable pub revoke_user_sessions : PasskeyStore W → Bytes → PasskeyStore W
  revoke_user_sessions s user_id = record s {
    auth_sessions =
        keep (λ (p : Bytes × AuthSession). not (p.1.user_id == user_id)) s.auth_sessions;
  }

  unfoldable revoke_all_sessions : PasskeyStore W → PasskeyStore W
  revoke_all_sessions s = record s { auth_sessions = [] }
