-- ===== src/Server/System/Requests.antt =====
-- The use of an invite, of cmd/mygrokd/auth.go, and any request to the management host, of
-- `serveAdmin` in admin.go, as calls on the tables.
use mygrok.Base.{
  ℕ, ◌≡◌, refl, inl, inr, true, not, ◌&&◌, [], none, some, Bytes, codes, ◌==◌, arith, Option-cases,
}
use mygrok.Base.Error.{Result-cases}
use mygrok.Server.Disk.{Io}
use mygrok.Server.Acl.{Net}
use mygrok.Server.Headers.{read_cookie_from_headers}
use mygrok.Server.Passkeys.{WebAuthn, PasskeyStore}
use mygrok.Server.Passkeys.Store.{has_user, add_credential, save}
use mygrok.Server.Passkeys.Sessions.{consume_registration}
use mygrok.Server.Admin.{GoLib, Flags, same_origin_post}
use mygrok.Server.Invites.{Invite, lookup_invite, mark_consumed}
use mygrok.Server.Manage.{Host, Request, Moment, cross_site}
use mygrok.Server.Manage.Ceremony.{Ceremony}
use mygrok.Server.Manage.Account.{credential_of}
use mygrok.Server.Manage.Redeem.{
  invite_path, invitee, stashed, join_user, commit_invite, finish_invite, serve_invite_begin,
  serve_invite_finish, serve_stage, serve_invite,
}
use mygrok.Server.Manage.Dispatch.{
  AdminPage, Page, ips, tunnel_ips, passkeys, passkeys_begin, passkeys_finish, passkeys_delete,
  users, users_delete, invites, invites_create, locks, grants, install, favicon, admin_home, invite,
  home, auth, auth_begin, auth_finish, auth_logout, account, register_begin, register_finish,
  credentials_delete, download, admin_page, request_of, page_of, serve_admin_page, serve_page,
  serve_admin,
}
use mygrok.Server.System.Admins.{
  serve_admin_ips-Does, serve_admin_tunnel_ips-Does, serve_admin_locks-Does,
  serve_admin_grants-Does, serve_admin_users_delete-Does, serve_admin_users-Does,
  serve_admin_passkey_delete-Does, serve_admin_invites-Does, serve_admin_invites_create-Does,
}
use mygrok.Server.System.Visitors.{
  serve_auth_finish-Does, serve_auth_begin-Does, serve_auth-Does, serve_auth_logout-Does,
  serve_account-Does, serve_account_register_begin-Does, serve_account_register_finish-Does,
  serve_account_credential_delete-Does, serve_admin_passkeys-Does, serve_admin_passkey_begin-Does,
  serve_admin_passkey_finish-Does,
}
use mygrok.Server.System.{
  Calls, and_then, on_store, on_invites, Does, one, stop, last, before, branch, deletes, adds,
  begins, consumes, joins, welcomes, uses,
}

-- A credential is added to a known user only.
add_credential-known :
    {W : WebAuthn} (s : PasskeyStore W) (uid label : Bytes) (c : W.Credential) (now : ℕ) (io : Io)
    → (add_credential W s uid label c now io).1 ≡ none
    → has_user uid (add_credential W s uid label c now io).0.users ≡ true
unfolding add_credential save
add_credential-known s uid label c now io e = ground arith

module _ {N : Net} {W : WebAuthn} {C : Ceremony W} {Fresh : Bytes → Type 0} where
  serve_invite_begin-Does :
      (h : Host N W) (rec : Invite) (t : Moment)
      → Fresh (t.random 1)
      → Does C Fresh h (serve_invite_begin C h rec t)
  unfolding serve_invite_begin
  serve_invite_begin-Does h rec t fresh =
      elim (Option-cases (C.begin_registration (some (invitee W (t.random 1) rec.name)))) [
        | inl p ↦ rw (p, serve_invite_begin) (stop _)
        | inr ((sess, options), p) ↦
            rw (p, serve_invite_begin)
              (last (on_store _ (begins _ _ _ _ (inr (rec.token, t.random 1, refl, fresh)))))
      ]

  -- The commit on the store that the consumption of the pending registration has left.
  commit_invite-Does :
      (h : Host N W) (rec : Invite) (sid id stash : Bytes) (sess : W.SessionData)
      (c : Bytes × W.Credential) (t : Moment)
      → (consume_registration W h.passkeys sid t.now).1 ≡ some (sess, stash)
      → stashed rec stash ≡ some id
      → Does C Fresh h (
          commit_invite C
            (record h { passkeys = (consume_registration W h.passkeys sid t.now).0 })
            rec
            id
            sess
            c
            t)
  unfolding commit_invite
  commit_invite-Does h rec sid id stash sess (label, cred) t p q =
      let s = join_user C (consume_registration W h.passkeys sid t.now).0 rec id sess t in
      let added = (add_credential W s id label cred t.now (t.io 1)).0 in
      let first : Calls C Fresh h (record h { passkeys = added }) =
        and_then (one (on_store _ (joins rec sid id stash sess t.now t p q)))
          (on_store _ (adds _ _ _ _ _)) in
      elim (Option-cases (add_credential W s id label cred t.now (t.io 1)).1) [
        | inr (d, e) ↦ rw (e, commit_invite) (before first (last (on_store _ (deletes _ _))))
        | inl e ↦ elim (Option-cases (mark_consumed h.invites rec.token id t.now (t.io 2)).1) [
          | inr (d, u) ↦
              rw (e, commit_invite)
                (rw (u, commit_invite) (before first (last (on_invites _ (uses _ _ _ _)))))
          | inl u ↦
              rw (e, commit_invite)
                (rw (u, commit_invite)
                  (record {
                    calls = and_then (and_then first (on_invites _ (uses _ _ _ _))) (
                        on_store _ (
                          welcomes id _ _ (add_credential-known s id label cred t.now (t.io 1) e)));
                  }))
        ]
      ]

  serve_invite_finish-Does :
      (h : Host N W) (rec : Invite) (req : Request) (t : Moment)
      → Does C Fresh h (serve_invite_finish C h rec req t)
  unfolding serve_invite_finish finish_invite
  serve_invite_finish-Does h rec req t =
      let sid = read_cookie_from_headers req.raw (codes "mygrok_pk_reg") in
      let first = one (on_store _ (consumes sid t.now)) in
      elim (Option-cases (consume_registration W h.passkeys sid t.now).1) [
        | inl p ↦ rw (p, serve_invite_finish) (before first (stop _))
        | inr ((sess, stash), p) ↦ elim (Option-cases (stashed rec stash)) [
          | inl q ↦
              rw (p, serve_invite_finish) (rw (q, serve_invite_finish) (before first (stop _)))
          | inr (id, q) ↦
              elim (Result-cases (credential_of C (some (invitee W id rec.name)) sess req)) [
                | inl (d, r) ↦
                    rw (p, serve_invite_finish)
                      (rw (q, serve_invite_finish) (rw (r, finish_invite) (before first (stop _))))
                | inr (c, r) ↦
                    rw (p, serve_invite_finish)
                      (rw (q, serve_invite_finish)
                        (rw (r, finish_invite)
                          (commit_invite-Does h rec sid id stash sess c t p q)))
              ]
        ]
      ]

  serve_invite-Does :
      (h : Host N W) (req : Request) (t : Moment)
      → Fresh (t.random 1)
      → Does C Fresh h (serve_invite C h req t)
  unfolding serve_invite serve_stage
  serve_invite-Does h req t fresh =
      let token = (invite_path req.path).0 in
      let stage = (invite_path req.path).1 in
      branch (token == []) (λ e. stop _)
        (λ e. elim (Option-cases (lookup_invite h.invites token t.now)) [
          | inl p ↦ rw p (stop _)
          | inr (rec, p) ↦ rw p (
              branch rec.consumed (λ k. stop _)
                (λ k.
                  branch (stage == []) (λ a. stop _)
                    (λ a.
                      branch (stage == codes "begin") (λ b. serve_invite_begin-Does h rec t fresh)
                        (λ b.
                          branch (stage == codes "finish")
                            (λ c. serve_invite_finish-Does h rec req t) (λ c. stop _)))))
        ])

module _ {N : Net} {W : WebAuthn} {C : Ceremony W} {Fresh : Bytes → Type 0} (G : GoLib)
    (cfg : Flags) where
  serve_admin_page-Does :
      (p : AdminPage) (h : Host N W) (req : Request) (t : Moment)
      → Fresh (t.random 1)
      → Does C Fresh h (serve_admin_page G C cfg p h req t)
  unfolding serve_admin_page
  serve_admin_page-Does ips h req t f = serve_admin_ips-Does G cfg h req t
  serve_admin_page-Does (tunnel_ips sub) h req t f = serve_admin_tunnel_ips-Does G cfg h sub req t
  serve_admin_page-Does passkeys h req t f = serve_admin_passkeys-Does G cfg h req t
  serve_admin_page-Does passkeys_begin h req t f = serve_admin_passkey_begin-Does G cfg h req t f
  serve_admin_page-Does passkeys_finish h req t f = serve_admin_passkey_finish-Does G cfg h req t f
  serve_admin_page-Does passkeys_delete h req t f = serve_admin_passkey_delete-Does G cfg h req t
  serve_admin_page-Does users h req t f = serve_admin_users-Does G cfg h req t
  serve_admin_page-Does users_delete h req t f = serve_admin_users_delete-Does G cfg h req t
  serve_admin_page-Does invites h req t f = serve_admin_invites-Does G cfg h req t
  serve_admin_page-Does invites_create h req t f = serve_admin_invites_create-Does G cfg h req t
  serve_admin_page-Does locks h req t f = serve_admin_locks-Does G cfg h req t
  serve_admin_page-Does grants h req t f = serve_admin_grants-Does G cfg h req t

  serve_page-Does :
      (p : Page) (h : Host N W) (req : Request) (t : Moment)
      → Fresh (t.random 1)
      → Does C Fresh h (serve_page G C cfg p h req t)
  unfolding serve_page
  serve_page-Does install h req t f = stop _
  serve_page-Does favicon h req t f = stop _
  serve_page-Does (download name) h req t f = stop _
  serve_page-Does admin_home h req t f = stop _
  serve_page-Does (admin_page p) h req t f = serve_admin_page-Does p h req t f
  serve_page-Does invite h req t f = serve_invite-Does h req t f
  serve_page-Does auth h req t f = serve_auth-Does h
  serve_page-Does auth_begin h req t f = serve_auth_begin-Does G cfg h req t
  serve_page-Does auth_finish h req t f = serve_auth_finish-Does G cfg h req t
  serve_page-Does auth_logout h req t f = serve_auth_logout-Does h req
  serve_page-Does account h req t f = serve_account-Does h req t
  serve_page-Does register_begin h req t f = serve_account_register_begin-Does h req t
  serve_page-Does register_finish h req t f = serve_account_register_finish-Does h req t
  serve_page-Does credentials_delete h req t f = serve_account_credential_delete-Does G h req t
  serve_page-Does home h req t f = stop _

  -- Any request to the management host.
  pub serve_admin-Calls :
      (h : Host N W) (raw left : Bytes) (t : Moment)
      → Fresh (t.random 1)
      → Calls C Fresh h (serve_admin G C cfg h raw left t).0
  unfolding serve_admin
  serve_admin-Calls h raw left t f =
      let req = request_of raw left in
      let served =
        branch {C = C} {Fresh = Fresh}
          ((req.method == codes "POST") && not (same_origin_post G raw cfg.public_host))
          (λ e. stop cross_site) (λ e. serve_page-Does (page_of req.path) h req t f) in
      served.calls
