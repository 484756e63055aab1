-- ===== src/Server/Manage/Redeem.antt =====
-- The use of an invite, of cmd/mygrokd/auth.go: `serveInvite`, `serveInviteBegin` and
-- `serveInviteFinish`.
use mygrok.Base.{
  false, [], ◌∷◌, ◌++◌, Option, none, some, Bytes, codes, ◌==◌, if◌then◌else◌, drop, has_prefix,
  cut,
}
use mygrok.Base.Error.{ok, err}
use mygrok.Server.Acl.{Net}
use mygrok.Server.Headers.{read_cookie_from_headers}
use mygrok.Server.Passkeys.{WebAuthn, UserRecord, PasskeyStore}
use mygrok.Server.Passkeys.Store.{save, add_credential, delete_user}
use mygrok.Server.Passkeys.Sessions.{issue_registration, consume_registration, issue_auth_session}
use mygrok.Server.Invites.{Invite, lookup_invite, mark_consumed}
use mygrok.Server.Manage.{
  Host, Request, Moment, Reply, in_passkeys, in_invites, begin_failed, no_pending, mismatch, shown,
  failed, challenge, signed_in, invalid_link, gone, used, wrong_method, not_found,
}
use mygrok.Server.Manage.Ceremony.{Ceremony, PkUser}
use mygrok.Server.Manage.Account.{credential_of}

-- The token and the stage of a path.
unfoldable pub invite_path : Bytes → Bytes × Bytes
invite_path path =
    let rest = if has_prefix path (codes "/invite/") then drop 8 path else path in
    elim (cut b'/' rest) [ none ↦ (rest, []) | some (token, stage) ↦ (token, stage) ]

-- The user of the ceremony, who is not in the store; an id that does not decode has no handle.
unfoldable pub invitee : (W : WebAuthn) → Bytes → Bytes → PkUser W
invitee W id name = (elim (W.decode id) as (λ _. Bytes) [ none ↦ [] | some d ↦ d ], name, [])

-- The test of the text that the begin of the ceremony left: the id of the user to be.
unfoldable pub stashed : Invite → Bytes → Option Bytes
stashed rec stash = elim (cut b'|' stash) [
  | none ↦ none
  | some (token, id) ↦ if token == rec.token then some id else none
]

module _ {W : WebAuthn} (C : Ceremony W) where
  -- The user joins the store.
  unfoldable pub join_user :
      PasskeyStore W → Invite → Bytes → W.SessionData → Moment → PasskeyStore W
  join_user s rec user_id sess t =
      let user : UserRecord = record { id = user_id; name = rec.name; created = C.expires sess } in
      (save W (record s { users = s.users ++ user ∷ [] }) (t.io 0)).0

module _ {N : Net} {W : WebAuthn} (C : Ceremony W) where
  -- `t.random 1` is the id of the user to be.
  unfoldable pub serve_invite_begin : Host N W → Invite → Moment → Host N W × Reply
  serve_invite_begin h rec t =
      elim (C.begin_registration (some (invitee W (t.random 1) rec.name))) [
        | none ↦ (h, failed begin_failed)
        | some (sess, options) ↦
            let stash = rec.token ++ b'|' ∷ t.random 1 in
            (
              record h { passkeys = issue_registration W h.passkeys sess stash (t.random 0) t.now },
              challenge options,
            )
      ]

  -- The commit: the user, the credential, the invite and a session, in this order.
  unfoldable pub commit_invite :
      Host N W → Invite → Bytes → W.SessionData → Bytes × W.Credential → Moment → Host N W × Reply
  commit_invite h rec user_id sess (label, cred) t =
      let s = join_user C h.passkeys rec user_id sess t in
      let (added, e) = add_credential W s user_id label cred t.now (t.io 1) in
      let undone = (delete_user W added user_id (t.io 2)).0 in
      let (invites, u) = mark_consumed h.invites rec.token user_id t.now (t.io 2) in
      let entered = issue_auth_session W added user_id (t.random 0) t.now in
      elim e [
        | some p ↦ (record h { passkeys = undone }, failed (in_passkeys p))
        | none ↦ elim u [
          | some p ↦ (record h { passkeys = added; invites = invites }, failed (in_invites p))
          | none ↦ (record h { passkeys = entered; invites = invites }, signed_in (t.random 0) [])
        ]
      ]

  unfoldable pub finish_invite :
      Host N W → Invite → W.SessionData → Bytes → Request → Moment → Host N W × Reply
  finish_invite h rec sess id req t =
      elim (credential_of C (some (invitee W id rec.name)) sess req) [
        | err p ↦ (h, failed p)
        | ok c ↦ commit_invite h rec id sess c t
      ]

  unfoldable pub serve_invite_finish : Host N W → Invite → Request → Moment → Host N W × Reply
  serve_invite_finish h rec req t =
      let sid = read_cookie_from_headers req.raw (codes "mygrok_pk_reg") in
      let (pks, pending) = consume_registration W h.passkeys sid t.now in
      let h' : Host N W = record h { passkeys = pks } in
      elim pending [
        | none ↦ (h', failed no_pending)
        | some (sess, stash) ↦ elim (stashed rec stash) [
          | none ↦ (h', failed mismatch)
          | some id ↦ finish_invite h' rec sess id req t
        ]
      ]

  unfoldable pub serve_stage : Host N W → Invite → Bytes → Request → Moment → Host N W × Reply
  serve_stage h rec stage req t =
      let begun = serve_invite_begin h rec t in
      let finished = serve_invite_finish h rec req t in
      if stage == []
      then (h, if req.method == codes "GET" then shown false else wrong_method)
      else if stage == codes "begin"
      then begun
      else if stage == codes "finish"
      then finished
      else (h, not_found)

  unfoldable pub serve_invite : Host N W → Request → Moment → Host N W × Reply
  serve_invite h req t =
      let (token, stage) = invite_path req.path in
      if token == [] then (h, invalid_link) else elim (lookup_invite h.invites token t.now) [
        | none ↦ (h, gone)
        | some rec ↦ if rec.consumed then (h, used) else serve_stage h rec stage req t
      ]
