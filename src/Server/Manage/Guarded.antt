-- ===== src/Server/Manage/Guarded.antt =====
-- What a request to the management host can change without being an admin's.
use mygrok.Base.{
  ◌≡◌, refl, Bool, true, not, ◌&&◌, Bytes, codes, ◌==◌, ◌⊎◌, arith, Bool-cases, inl, inr,
}
use mygrok.Server.Registry.{Registry}
use mygrok.Server.Acl.{Net, Acl}
use mygrok.Server.Locks.{Locks}
use mygrok.Server.Passkeys.{WebAuthn}
use mygrok.Server.Admin.{GoLib, Flags, admin_auth_ok, same_origin_post}
use mygrok.Server.Manage.{Host, Request, Moment, Reply, unauthorized, cross_site}
use mygrok.Server.Manage.Ceremony.{Ceremony}
use mygrok.Server.Manage.Account.{
  begin_for, register, finish_registration, delete_own, serve_account, serve_admin_passkeys,
  serve_admin_passkey_begin, serve_admin_passkey_finish, serve_account_register_begin,
  serve_account_register_finish, serve_account_credential_delete,
}
use mygrok.Server.Manage.Login.{
  serve_auth, serve_auth_begin, serve_auth_finish, serve_auth_logout, finish_with, sign_in,
}
use mygrok.Server.Manage.Rules.{magic_key, serve_admin_ips, serve_admin_tunnel_ips}
use mygrok.Server.Manage.People.{
  serve_admin_locks, serve_admin_grants, serve_admin_users_delete, serve_admin_users,
  serve_admin_passkey_delete, serve_admin_invites, serve_admin_invites_create,
}
use mygrok.Server.Manage.Dispatch.{
  AdminPage, Page, ips, tunnel_ips, passkeys, passkeys_begin, passkeys_finish, passkeys_delete,
  users, users_delete, invites, invites_create, locks, grants, install, favicon, admin_home, invite,
  home, auth, auth_begin, auth_finish, auth_logout, account, register_begin, register_finish,
  credentials_delete, download, admin_page, request_of, page_of, serve_admin_page, serve_page,
  serve_admin,
}
use mygrok.Server.Manage.Redeem.{
  commit_invite, finish_invite, serve_invite_begin, serve_invite_finish, serve_stage, serve_invite,
}

module _ {N : Net} {W : WebAuthn} where
  -- The live tunnels, the address rules and the passkey lists.
  abbrev pub policy : Host N W → Registry × Acl N × Locks
  policy h = (h.registry, h.acl, h.locks)

  policy-serve_auth : (h : Host N W) → policy (serve_auth h).0 ≡ policy h
  unfolding serve_auth
  policy-serve_auth h = ground arith

  policy-serve_auth_logout :
      (h : Host N W) (req : Request) → policy (serve_auth_logout h req).0 ≡ policy h
  unfolding serve_auth_logout
  policy-serve_auth_logout h req = ground arith

  policy-serve_account :
      (h : Host N W) (req : Request) (t : Moment) → policy (serve_account h req t).0 ≡ policy h
  unfolding serve_account
  policy-serve_account h req t = ground arith

module _ {N : Net} {W : WebAuthn} (G : GoLib) (C : Ceremony W) (cfg : Flags) where
  policy-serve_auth_begin :
      (h : Host N W) (req : Request) (t : Moment)
      → policy (serve_auth_begin G C cfg h req t).0 ≡ policy h
  unfolding serve_auth_begin
  policy-serve_auth_begin h req t = ground arith

  policy-serve_auth_finish :
      (h : Host N W) (req : Request) (t : Moment)
      → policy (serve_auth_finish G C cfg h req t).0 ≡ policy h
  unfolding serve_auth_finish finish_with sign_in
  policy-serve_auth_finish h req t = ground arith

module _ {N : Net} {W : WebAuthn} (C : Ceremony W) where
  policy-serve_invite :
      (h : Host N W) (req : Request) (t : Moment) → policy (serve_invite C h req t).0 ≡ policy h
  unfolding serve_invite serve_stage serve_invite_begin serve_invite_finish finish_invite
      commit_invite
  policy-serve_invite h req t = ground arith

  policy-serve_account_register_begin :
      (h : Host N W) (req : Request) (t : Moment)
      → policy (serve_account_register_begin C h req t).0 ≡ policy h
  unfolding serve_account_register_begin begin_for
  policy-serve_account_register_begin h req t = ground arith

  policy-serve_account_register_finish :
      (h : Host N W) (req : Request) (t : Moment)
      → policy (serve_account_register_finish C h req t).0 ≡ policy h
  unfolding serve_account_register_finish finish_registration register
  policy-serve_account_register_finish h req t = ground arith

module _ {N : Net} {W : WebAuthn} (G : GoLib) where
  policy-serve_account_credential_delete :
      (h : Host N W) (req : Request) (t : Moment)
      → policy (serve_account_credential_delete G h req t).0 ≡ policy h
  unfolding serve_account_credential_delete delete_own
  policy-serve_account_credential_delete h req t = ground arith

module _ {N : Net} {W : WebAuthn} (G : GoLib) (C : Ceremony W) (cfg : Flags) where
  -- Neither a session nor the password nor the key of a magic link makes it an admin's request.
  abbrev pub stranger : Host N W → Request → Moment → Bool
  stranger h req t = not (admin_auth_ok G cfg h.admin req.raw t.now).1 && not (magic_key G cfg req)

  -- The answer to a stranger, with the sessions that the test left.
  abbrev pub refused : Host N W → Request → Moment → Host N W × Reply
  refused h req t =
      (record h { admin = (admin_auth_ok G cfg h.admin req.raw t.now).0 }, unauthorized)

  serve_admin_page-refused :
      (p : AdminPage) (h : Host N W) (req : Request) (t : Moment)
      → stranger h req t ≡ true
      → serve_admin_page G C cfg p h req t ≡ refused h req t
  unfolding serve_admin_page serve_admin_ips serve_admin_tunnel_ips serve_admin_passkeys
      serve_admin_passkey_begin serve_admin_passkey_finish serve_admin_passkey_delete
      serve_admin_users serve_admin_users_delete serve_admin_invites serve_admin_invites_create
      serve_admin_locks serve_admin_grants
  serve_admin_page-refused ips h req t e = ground arith
  serve_admin_page-refused (tunnel_ips sub) h req t e = ground arith
  serve_admin_page-refused passkeys h req t e = ground arith
  serve_admin_page-refused passkeys_begin h req t e = ground arith
  serve_admin_page-refused passkeys_finish h req t e = ground arith
  serve_admin_page-refused passkeys_delete h req t e = ground arith
  serve_admin_page-refused users h req t e = ground arith
  serve_admin_page-refused users_delete h req t e = ground arith
  serve_admin_page-refused invites h req t e = ground arith
  serve_admin_page-refused invites_create h req t e = ground arith
  serve_admin_page-refused locks h req t e = ground arith
  serve_admin_page-refused grants h req t e = ground arith

  policy-serve_page :
      (p : Page) (h : Host N W) (req : Request) (t : Moment)
      → stranger h req t ≡ true
      → policy (serve_page G C cfg p h req t).0 ≡ policy h
  unfolding serve_page
  policy-serve_page install h req t e = refl
  policy-serve_page favicon h req t e = refl
  policy-serve_page (download name) h req t e = refl
  policy-serve_page admin_home h req t e = refl
  policy-serve_page (admin_page p) h req t e = rw (serve_admin_page-refused p h req t e) refl
  policy-serve_page invite h req t e = policy-serve_invite C h req t
  policy-serve_page auth h req t e = policy-serve_auth h
  policy-serve_page auth_begin h req t e = policy-serve_auth_begin G C cfg h req t
  policy-serve_page auth_finish h req t e = policy-serve_auth_finish G C cfg h req t
  policy-serve_page auth_logout h req t e = policy-serve_auth_logout h req
  policy-serve_page account h req t e = policy-serve_account h req t
  policy-serve_page register_begin h req t e = policy-serve_account_register_begin C h req t
  policy-serve_page register_finish h req t e = policy-serve_account_register_finish C h req t
  policy-serve_page credentials_delete h req t e = policy-serve_account_credential_delete G h req t
  policy-serve_page home h req t e = refl

  -- Whatever a request to the management host asks for, if it shows neither an admin session nor
  -- the token, as a password or as the key of a magic link, then the live tunnels, the address
  -- rules and the passkey lists stay as they are.
  pub policy-serve_admin :
      (h : Host N W) (raw left : Bytes) (t : Moment)
      → stranger h (request_of raw left) t ≡ true
      → policy (serve_admin G C cfg h raw left t).0 ≡ policy h
  unfolding serve_admin
  policy-serve_admin h raw left t e =
      let req = request_of raw left in
      ground (arith, policy-serve_page (page_of req.path) h req t e)

  -- A request for an admin page that shows neither an admin session nor the token is answered with
  -- a refusal, and nothing changes but the admin sessions, of which the one out of date is dropped.
  pub serve_admin-refused :
      (h : Host N W) (raw left : Bytes) (t : Moment) {p : AdminPage}
      → page_of (request_of raw left).path ≡ admin_page p
      → stranger h (request_of raw left) t ≡ true
      → (serve_admin G C cfg h raw left t ≡ (h, cross_site))
        ⊎ (serve_admin G C cfg h raw left t ≡ refused h (request_of raw left) t)
  unfolding serve_admin serve_page
  serve_admin-refused h raw left t {p} e out =
      let req = request_of raw left in
      elim (Bool-cases
        ((req.method == codes "POST") && not (same_origin_post G raw cfg.public_host))) [
          | inl c ↦ inl (ground arith)
          | inr c ↦ inr (rw (c, e) (serve_admin_page-refused p h req t out))
        ]
