-- ===== src/Server/Manage/Login.antt =====
-- The login of visitors, of cmd/mygrokd/auth.go: `safeReturnURL`, `serveAuth`, `serveAuthBegin`,
-- `serveAuthFinish` and `serveAuthLogout`.
use mygrok.Base.{
  false, not, ◌&&◌, ◌||◌, [], ◌∷◌, Option, none, some, Bytes, codes, ◌==◌, if◌then◌else◌,
  trim_space, to_lower, has_prefix, has_suffix,
}
use mygrok.Server.Acl.{Net}
use mygrok.Server.Headers.{read_cookie_from_headers}
use mygrok.Server.Passkeys.{WebAuthn, PasskeyStore}
use mygrok.Server.Passkeys.Store.{
  has_credentials, credential_user_id, user_by_id, update_credential,
}
use mygrok.Server.Passkeys.Sessions.{issue_login, consume_login, issue_auth_session, revoke_session}
use mygrok.Server.Admin.{GoLib, Flags, Url}
use mygrok.Server.Manage.{
  Host, Request, Moment, Reply, no_credentials, begin_failed, no_pending, bad_request, not_verified,
  failed, shown, challenge, signed_in, done,
}
use mygrok.Server.Manage.Ceremony.{Ceremony, PkUser}

-- The last test of `safeReturnURL`, on an absolute URL.
unfoldable pub url_under : Option Url → Bytes → Bytes
url_under none public_host = codes "/"
url_under (some u) public_host =
    let host = to_lower u.hostname in
    let base = to_lower public_host in
    if not (u.scheme == codes "https")
    then codes "/"
    else if (host == base) || has_suffix host (b'.' ∷ base)
    then u.text
    else codes "/"

unfoldable pub safe_return_url : GoLib → Bytes → Bytes → Bytes
safe_return_url G text public_host =
    let raw = trim_space text in
    if raw == []
    then []
    else if has_prefix raw (codes "//") || has_prefix raw (47 ∷ 92 ∷ [])
    then codes "/"
    else if has_prefix raw (codes "/")
    then raw
    else url_under (G.parse_url raw) public_host

unfoldable pub query_return : GoLib → Flags → Request → Bytes
query_return G cfg req = elim (G.parse_query req.raw_query) [
  | none ↦ []
  | some q ↦ safe_return_url G (q (codes "return")) cfg.public_host
]

-- The user whom a credential and a user handle name.
unfoldable pub identify : (W : WebAuthn) → PasskeyStore W → Bytes → Bytes → Option (PkUser W)
identify W s raw_id handle =
    let uid = credential_user_id W s raw_id in
    if uid == [] then none else elim (user_by_id W s uid) [
      | none ↦ none
      | some u ↦ if not (handle == []) && not (handle == u.0) then none else some u
    ]

module _ {N : Net} {W : WebAuthn} where
  -- The end of a login whose credential was verified.
  unfoldable pub sign_in : Host N W → W.Credential → Bytes → Moment → Host N W × Reply
  sign_in h cred return_url t =
      let updated = update_credential W h.passkeys cred t.now (t.io 0) in
      let uid = credential_user_id W updated (W.raw_id cred) in
      (
        record h { passkeys = issue_auth_session W updated uid (t.random 0) t.now },
        signed_in (t.random 0) return_url,
      )

module _ {N : Net} {W : WebAuthn} (G : GoLib) (C : Ceremony W) (cfg : Flags) where
  unfoldable pub serve_auth_begin : Host N W → Request → Moment → Host N W × Reply
  serve_auth_begin h req t =
      if not (has_credentials W h.passkeys)
      then (h, failed no_credentials)
      else elim C.begin_login [
        | none ↦ (h, failed begin_failed)
        | some (sess, options) ↦ (
          record h {
            passkeys = issue_login W h.passkeys sess (query_return G cfg req) (t.random 0) t.now;
          },
          challenge options,
        )
      ]

  unfoldable pub finish_with :
      Host N W → W.SessionData → Bytes → Request → Moment → Host N W × Reply
  finish_with h sess stored req t =
      if not (C.parses req.raw req.left)
      then (h, failed bad_request)
      else elim (C.finish_login (identify W h.passkeys) sess req.raw req.left) [
        | none ↦ (h, failed not_verified)
        | some cred ↦ sign_in h cred (safe_return_url G stored cfg.public_host) t
      ]

  unfoldable pub serve_auth_finish : Host N W → Request → Moment → Host N W × Reply
  serve_auth_finish h req t =
      let sid = read_cookie_from_headers req.raw (codes "mygrok_pk_login") in
      let (pks, pending) = consume_login W h.passkeys sid t.now in
      let h' : Host N W = record h { passkeys = pks } in
      elim pending [
        | none ↦ (h', failed no_pending)
        | some (sess, stored) ↦ finish_with h' sess stored req t
      ]

module _ {N : Net} {W : WebAuthn} where
  unfoldable pub serve_auth : Host N W → Host N W × Reply
  serve_auth h =
      if has_credentials W h.passkeys then (h, shown false) else (h, failed no_credentials)

  unfoldable pub serve_auth_logout : Host N W → Request → Host N W × Reply
  serve_auth_logout h req =
      let sid = read_cookie_from_headers req.raw (codes "mygrok_pk") in
      if sid == []
      then (h, done)
      else (record h { passkeys = revoke_session W h.passkeys sid }, done)
