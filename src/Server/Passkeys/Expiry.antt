-- ===== src/Server/Passkeys/Expiry.antt =====
-- The end of sessions: by time, by use, by logout and with their user.
use mygrok.Base.{
  ℕ, ◌+◌, ◌≡◌, false, not, [], ◌∷◌, none, some, Bytes, ◌==◌, eq_iff, eq_refl, ltb, if◌then◌else◌,
  keep, arith, Option-cases, inl, inr,
}
use mygrok.Base.Dict.{Dict, lookup, insert, lookup-insert, lookup-erase}
use mygrok.Server.Passkeys.{
  WebAuthn, AuthSession, Pending, PasskeyStore, pk_session_ttl, pk_pending_ttl,
}
use mygrok.Server.Passkeys.Sessions.{
  issue_registration, consume_registration, issue_login, consume_login, issue_auth_session,
  session_user, revoke_session, revoke_user_sessions,
}

lookup-keep_others :
    (user_id id : Bytes) (m : Dict AuthSession) (e : AuthSession)
    → lookup id (keep (λ (p : Bytes × AuthSession). not (p.1.user_id == user_id)) m) ≡ some e
    → (e.user_id == user_id) ≡ false
unfolding lookup
lookup-keep_others user_id id [] e h = cc
lookup-keep_others user_id id ((j, d) ∷ m) e h = ground (arith, lookup-keep_others user_id id m e)

module _ {W : WebAuthn} where
  -- A new session names its user for 24 hours, the last instant included, and nobody afterwards;
  -- other sessions are untouched.
  pub session_user-issue :
      (s : PasskeyStore W) (user_id id other : Bytes) (now later : ℕ)
      → (id == []) ≡ false
      → (session_user W (issue_auth_session W s user_id id now) other later).1 ≡ (
          if id == other
          then if ltb (now + pk_session_ttl) later then [] else user_id
          else (session_user W s other later).1)
  unfolding session_user issue_auth_session
  session_user-issue s user_id id other now later h =
      let e : AuthSession = record { user_id = user_id; expires = now + pk_session_ttl } in
      ground (arith, lookup-insert id other e s.auth_sessions, eq_iff id other)

  -- A logged-out session names nobody; other sessions are untouched.
  session_user-revoke :
      (s : PasskeyStore W) (id other : Bytes) (now : ℕ)
      → (session_user W (revoke_session W s id) other now).1
        ≡ (if id == other then [] else (session_user W s other now).1)
  unfolding session_user revoke_session
  session_user-revoke s id other now = ground (arith, lookup-erase id other s.auth_sessions)

  -- After the sessions of a user are revoked no session identifier names that user.
  pub session_user-revoke_user :
      (s : PasskeyStore W) (user_id id : Bytes) (now : ℕ)
      → (user_id == []) ≡ false
      → ((session_user W (revoke_user_sessions W s user_id) id now).1 == user_id) ≡ false
  unfolding session_user revoke_user_sessions
  session_user-revoke_user s user_id id now h =
      let left = keep (λ (p : Bytes × AuthSession). not (p.1.user_id == user_id)) s.auth_sessions in
      elim (Option-cases (lookup id left)) [
        | inl p ↦ ground (arith, eq_iff [] user_id, eq_iff user_id [])
        | inr (e, p) ↦ ground (
          arith,
          lookup-keep_others user_id id s.auth_sessions e p,
          eq_iff [] user_id,
          eq_iff user_id [],
        )
      ]

  -- A pending registration can be used once, and within five minutes of its issue.
  consume_registration-issue :
      (s : PasskeyStore W) (d : W.SessionData) (token id : Bytes) (now later again : ℕ)
      → let r = consume_registration W (issue_registration W s d token id now) id later in
        (r.1 ≡ (if ltb (now + pk_pending_ttl) later then none else some (d, token)))
        × ((consume_registration W r.0 id again).1 ≡ none)
  unfolding consume_registration issue_registration
  consume_registration-issue s d token id now later again =
      let p : Pending W = record {
        session_data = d;
        expires = now + pk_pending_ttl;
        return_url = [];
        invite_token = token;
      } in
      (
        ground (arith, lookup-insert id id p s.reg_sessions, eq_refl id),
        ground (arith, lookup-erase id id (insert id p s.reg_sessions), eq_refl id),
      )

  -- So can a pending login.
  consume_login-issue :
      (s : PasskeyStore W) (d : W.SessionData) (url id : Bytes) (now later again : ℕ)
      → let r = consume_login W (issue_login W s d url id now) id later in
        (r.1 ≡ (if ltb (now + pk_pending_ttl) later then none else some (d, url)))
        × ((consume_login W r.0 id again).1 ≡ none)
  unfolding consume_login issue_login
  consume_login-issue s d url id now later again =
      let p : Pending W = record {
        session_data = d;
        expires = now + pk_pending_ttl;
        return_url = url;
        invite_token = [];
      } in
      (
        ground (arith, lookup-insert id id p s.login_sessions, eq_refl id),
        ground (arith, lookup-erase id id (insert id p s.login_sessions), eq_refl id),
      )
