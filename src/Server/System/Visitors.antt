-- ===== src/Server/System/Visitors.antt =====
-- The handlers for visitors and users, of cmd/mygrokd/auth.go, as calls on the tables.
use mygrok.Base.{
  ℕ, refl, not, [], Option, none, some, Bytes, codes, ◌==◌, leb, length, Bool-cases, Option-cases,
  inl, inr,
}
use mygrok.Base.Error.{Result, ok, err, Result-cases}
use mygrok.Server.Acl.{Net}
use mygrok.Server.Headers.{read_cookie_from_headers}
use mygrok.Server.Passkeys.{WebAuthn, UserRecord, legacy_user_name}
use mygrok.Server.Passkeys.Store.{find_user_by_name, user_by_id, has_credentials, list_credentials}
use mygrok.Server.Passkeys.Sessions.{consume_registration, consume_login, session_user}
use mygrok.Server.Admin.{GoLib, Flags, FormError, read_post_form}
use mygrok.Server.Manage.{Host, Request, Moment, Reply}
use mygrok.Server.Manage.Ceremony.{Ceremony, PkUser}
use mygrok.Server.Manage.Login.{
  identify, sign_in, finish_with, serve_auth, serve_auth_begin, serve_auth_finish,
  serve_auth_logout,
}
use mygrok.Server.Manage.Account.{
  begin_for, register, finish_registration, delete_own, current_session_user, credential_of,
  admin_passkey_owner_id, user_owns_credential, serve_account, serve_admin_passkeys,
  serve_admin_passkey_begin, serve_admin_passkey_finish, serve_account_register_begin,
  serve_account_register_finish, serve_account_credential_delete,
}
use mygrok.Server.System.{
  Calls, nothing, and_then, on_store, Does, one, stop, last, before, branch, gate, checks, creates,
  adds, drops, updates, begins, consumes, begins_login, consumes_login, enters, reads, leaves,
}

module _ {N : Net} {W : WebAuthn} {C : Ceremony W} {Fresh : Bytes → Type 0} where
  sign_in-Does :
      (h : Host N W) (cred : W.Credential) (url : Bytes) (t : Moment)
      → Does C Fresh h (sign_in h cred url t)
  unfolding sign_in
  sign_in-Does h cred url t = record {
    calls = and_then (one (on_store _ (updates cred t.now (t.io 0)))) (on_store _ (enters _ _ _));
  }

  finish_with-Does :
      (G : GoLib) (cfg : Flags) (h : Host N W) (sess : W.SessionData) (stored : Bytes)
      (req : Request) (t : Moment)
      → Does C Fresh h (finish_with G C cfg h sess stored req t)
  unfolding finish_with
  finish_with-Does G cfg h sess stored req t =
      branch (not (C.parses req.raw req.left)) (λ e. stop _)
        (λ e. elim (Option-cases (C.finish_login (identify W h.passkeys) sess req.raw req.left)) [
          | inl p ↦ rw (p, finish_with) (stop _)
          | inr (cred, p) ↦ rw (p, finish_with) (sign_in-Does h cred _ t)
        ])

  pub serve_auth_finish-Does :
      (G : GoLib) (cfg : Flags) (h : Host N W) (req : Request) (t : Moment)
      → Does C Fresh h (serve_auth_finish G C cfg h req t)
  unfolding serve_auth_finish
  serve_auth_finish-Does G cfg h req t =
      let sid = read_cookie_from_headers req.raw (codes "mygrok_pk_login") in
      let first = one (on_store _ (consumes_login sid t.now)) in
      elim (Option-cases (consume_login W h.passkeys sid t.now).1) [
        | inl p ↦ rw (p, serve_auth_finish) (before first (stop _))
        | inr ((sess, stored), p) ↦
            rw (p, serve_auth_finish) (before first (finish_with-Does G cfg _ sess stored req t))
      ]

  pub serve_auth_begin-Does :
      (G : GoLib) (cfg : Flags) (h : Host N W) (req : Request) (t : Moment)
      → Does C Fresh h (serve_auth_begin G C cfg h req t)
  unfolding serve_auth_begin
  serve_auth_begin-Does G cfg h req t =
      branch (not (has_credentials W h.passkeys)) (λ e. stop _)
        (λ e. elim (Option-cases C.begin_login) [
          | inl p ↦ rw (p, serve_auth_begin) (stop _)
          | inr ((sess, options), p) ↦
              rw (p, serve_auth_begin) (last (on_store _ (begins_login _ _ _ _)))
        ])

  pub serve_auth-Does : (h : Host N W) → Does C Fresh h (serve_auth h)
  unfolding serve_auth
  serve_auth-Does h = branch (has_credentials W h.passkeys) (λ e. stop _) (λ e. stop _)

  pub serve_auth_logout-Does :
      (h : Host N W) (req : Request) → Does C Fresh h (serve_auth_logout h req)
  unfolding serve_auth_logout
  serve_auth_logout-Does h req =
      branch (read_cookie_from_headers req.raw (codes "mygrok_pk") == []) (λ e. stop _)
        (λ e. last (on_store _ (leaves _)))

  current-Calls :
      (h : Host N W) (raw : Bytes) (now : ℕ)
      → Calls C Fresh h (record h { passkeys = (current_session_user h.passkeys raw now).0 })
  unfolding current_session_user
  current-Calls h raw now =
      let sid = read_cookie_from_headers raw (codes "mygrok_pk") in
      elim (Bool-cases (sid == [])) [
        | inl p ↦ rw p nothing
        | inr p ↦ elim (Bool-cases ((session_user W h.passkeys sid now).1 == [])) [
          | inl q ↦ rw (p, q) (one (on_store _ (reads sid now)))
          | inr q ↦ rw (p, q) (one (on_store _ (reads sid now)))
        ]
      ]

  begin_for-Does :
      (h : Host N W) (user : Option (PkUser W)) (t : Moment) → Does C Fresh h (begin_for C h user t)
  unfolding begin_for
  begin_for-Does h user t = elim (Option-cases (C.begin_registration user)) [
    | inl p ↦ rw (p, begin_for) (stop _)
    | inr ((sess, options), p) ↦ rw (p, begin_for) (last (on_store _ (begins _ _ _ _ (inl refl))))
  ]

  register-Does :
      (h : Host N W) (uid : Bytes) (c : Bytes × W.Credential) (t : Moment)
      → Does C Fresh h (register C h uid c t)
  unfolding register
  register-Does h uid (label, cred) t = last (on_store _ (adds _ _ _ _ _))

  finish_registration-Does :
      (h : Host N W) (uid : Bytes) (req : Request) (t : Moment)
      → Does C Fresh h (finish_registration C h uid req t)
  unfolding finish_registration
  finish_registration-Does h uid req t =
      let sid = read_cookie_from_headers req.raw (codes "mygrok_pk_reg") in
      let pks = (consume_registration W h.passkeys sid t.now).0 in
      let first = one (on_store _ (consumes sid t.now)) in
      elim (Option-cases (consume_registration W h.passkeys sid t.now).1) [
        | inl p ↦ rw (p, finish_registration) (before first (stop _))
        | inr ((sess, token), p) ↦
            elim (Result-cases (credential_of C (user_by_id W pks uid) sess req)) [
              | inl (d, q) ↦
                  rw (p, finish_registration) (rw (q, finish_registration) (before first (stop _)))
              | inr (c, q) ↦
                  rw (p, finish_registration)
                    (rw (q, finish_registration) (before first (register-Does _ uid c t)))
            ]
      ]

  -- A handler of signed-in users, with and without a user.
  as_user-Does :
      {h h' : Host N W} (who : Option UserRecord) (r : Reply)
      (handler : UserRecord → Host N W × Reply)
      → Calls C Fresh h h'
      → ((u : UserRecord) → Does C Fresh h' (handler u))
      → Does C Fresh h (elim who [ none ↦ (h', r) | some u ↦ handler u ])
  as_user-Does none r handler first f = before first (stop r)
  as_user-Does (some u) r handler first f = before first (f u)

  pub serve_account-Does :
      (h : Host N W) (req : Request) (t : Moment) → Does C Fresh h (serve_account h req t)
  unfolding serve_account
  serve_account-Does h req t =
      as_user-Does (current_session_user h.passkeys req.raw t.now).1 _ _
        (current-Calls h req.raw t.now) (λ u. stop _)

  begin_own-Does :
      (h : Host N W) (u : UserRecord) (t : Moment) (r : Reply)
      → Does C Fresh h (elim (user_by_id W h.passkeys u.id) [
        | none ↦ (h, r)
        | some user ↦ begin_for C h (some user) t
      ])
  begin_own-Does h u t r = elim (Option-cases (user_by_id W h.passkeys u.id)) [
    | inl q ↦ rw q (stop _)
    | inr (user, q) ↦ rw q (begin_for-Does h (some user) t)
  ]

  pub serve_account_register_begin-Does :
      (h : Host N W) (req : Request) (t : Moment)
      → Does C Fresh h (serve_account_register_begin C h req t)
  unfolding serve_account_register_begin begin_for
  serve_account_register_begin-Does h req t =
      as_user-Does (current_session_user h.passkeys req.raw t.now).1 _ _
        (current-Calls h req.raw t.now) (λ u. begin_own-Does _ u t _)

  pub serve_account_register_finish-Does :
      (h : Host N W) (req : Request) (t : Moment)
      → Does C Fresh h (serve_account_register_finish C h req t)
  unfolding serve_account_register_finish
  serve_account_register_finish-Does h req t =
      as_user-Does (current_session_user h.passkeys req.raw t.now).1 _ _
        (current-Calls h req.raw t.now) (λ u. finish_registration-Does _ u.id req t)

  delete_own-Does :
      (h : Host N W) (u : UserRecord) (id : Bytes) (t : Moment)
      → Does C Fresh h (delete_own h u id t)
  unfolding delete_own
  delete_own-Does h u id t =
      branch (id == []) (λ e. stop _)
        (λ e.
          branch (not (user_owns_credential h.passkeys u.id id)) (λ f. stop _)
            (λ f.
              branch (leb (length (list_credentials W h.passkeys u.id)) 1) (λ k. stop _)
                (λ k. last (on_store _ (drops id (t.io 0))))))

  delete_form-Does :
      (h : Host N W) (u : UserRecord) (form : Result FormError (Bytes → Bytes)) (t : Moment)
      (r : Reply)
      → Does C Fresh h (elim form [ err e ↦ (h, r) | ok f ↦ delete_own h u (f (codes "id")) t ])
  delete_form-Does h u (err e) t r = stop r
  delete_form-Does h u (ok f) t r = delete_own-Does h u (f (codes "id")) t

  pub serve_account_credential_delete-Does :
      (G : GoLib) (h : Host N W) (req : Request) (t : Moment)
      → Does C Fresh h (serve_account_credential_delete G h req t)
  unfolding serve_account_credential_delete
  serve_account_credential_delete-Does G h req t =
      as_user-Does (current_session_user h.passkeys req.raw t.now).1 _ _
        (current-Calls h req.raw t.now)
        (λ u. delete_form-Does _ u (read_post_form G req.raw req.left) t _)

  owner-Calls :
      (h : Host N W) (t : Moment)
      → Fresh (t.random 1)
      → Calls C Fresh h (record h { passkeys = (admin_passkey_owner_id h.passkeys t).0 })
  unfolding admin_passkey_owner_id
  owner-Calls h t fresh = elim (Option-cases (find_user_by_name W h.passkeys legacy_user_name)) [
    | inl p ↦ rw (p, admin_passkey_owner_id) (one (on_store _ (creates _ _ _ _ fresh)))
    | inr (u, p) ↦ rw (p, admin_passkey_owner_id) nothing
  ]

  pub serve_admin_passkeys-Does :
      (G : GoLib) (cfg : Flags) (h : Host N W) (req : Request) (t : Moment)
      → Does C Fresh h (serve_admin_passkeys G cfg h req t)
  unfolding serve_admin_passkeys
  serve_admin_passkeys-Does G cfg h req t = gate (checks G cfg req.raw t.now) _ _ (stop _)

  pub serve_admin_passkey_begin-Does :
      (G : GoLib) (cfg : Flags) (h : Host N W) (req : Request) (t : Moment)
      → Fresh (t.random 1)
      → Does C Fresh h (serve_admin_passkey_begin C G cfg h req t)
  unfolding serve_admin_passkey_begin begin_for
  serve_admin_passkey_begin-Does G cfg h req t fresh =
      gate (checks G cfg req.raw t.now) _ _ (before (owner-Calls _ t fresh) (begin_for-Does _ _ t))

  pub serve_admin_passkey_finish-Does :
      (G : GoLib) (cfg : Flags) (h : Host N W) (req : Request) (t : Moment)
      → Fresh (t.random 1)
      → Does C Fresh h (serve_admin_passkey_finish C G cfg h req t)
  unfolding serve_admin_passkey_finish
  serve_admin_passkey_finish-Does G cfg h req t fresh =
      gate (checks G cfg req.raw t.now) _ _
        (before (owner-Calls _ t fresh) (finish_registration-Does _ _ req t))
