-- ===== src/Server/Manage/Account.antt =====
-- Registration of credentials by signed-in users and by the admin, and the account page, of
-- cmd/mygrokd/auth.go.
use mygrok.Base.{
  ℕ, Bool, not, ◌||◌, [], Option, none, some, Bytes, codes, ◌==◌, leb, if◌then◌else◌, trim_space,
  length, contains,
}
use mygrok.Base.Error.{Result, ok, err}
use mygrok.Server.Acl.{Net}
use mygrok.Server.Headers.{read_cookie_from_headers}
use mygrok.Server.Passkeys.{WebAuthn, UserRecord, PasskeyStore, legacy_user_name}
use mygrok.Server.Passkeys.Store.{
  find_user, find_user_by_name, create_user, user_by_id, list_credentials, add_credential,
  delete_credential, has_credential,
}
use mygrok.Server.Passkeys.Sessions.{issue_registration, consume_registration, session_user}
use mygrok.Server.Admin.{GoLib, Flags, wants_json, read_post_form}
use mygrok.Server.Manage.{
  Host, Request, Moment, Problem, Reply, in_passkeys, no_session, user_gone, begin_failed,
  no_pending, last_passkey, redirect, shown, failed, challenge, done, as_admin,
}
use mygrok.Server.Manage.Ceremony.{Ceremony, PkUser}

-- The pages that ask the visitor to sign in first: the query is that of url.QueryEscape("/account").
abbrev pub to_login : Reply
to_login = redirect (codes "/auth?return=%2Faccount")

unfoldable pub passkey_label : Bytes → Bytes
passkey_label label = if trim_space label == [] then codes "passkey" else trim_space label

module _ {W : WebAuthn} where
  unfoldable pub current_session_user :
      PasskeyStore W → Bytes → ℕ → PasskeyStore W × Option UserRecord
  current_session_user s raw now =
      let sid = read_cookie_from_headers raw (codes "mygrok_pk") in
      let (s', uid) = session_user W s sid now in
      if sid == [] then (s, none) else if uid == [] then (s', none) else (s', find_user W s' uid)

  unfoldable pub user_owns_credential : PasskeyStore W → Bytes → Bytes → Bool
  user_owns_credential s user_id cred_id = has_credential W cred_id (list_credentials W s user_id)

  -- The owner of the credentials that the admin registers, made if there is none.
  unfoldable pub admin_passkey_owner_id : PasskeyStore W → Moment → PasskeyStore W × Bytes
  admin_passkey_owner_id s t =
      let (s', u) = create_user W s legacy_user_name (t.random 1) t.now (t.io 1) in
      elim (find_user_by_name W s legacy_user_name) [
        | some known ↦ (s, known.id)
        | none ↦ (s', u.id)
      ]

module _ {N : Net} {W : WebAuthn} where
  -- A handler of a signed-in user.
  abbrev pub as_user :
      Host N W
      → Request
      → Moment
      → Reply
      → (Host N W → UserRecord → Host N W × Reply)
      → Host N W × Reply
  as_user h req t refusal handler =
      let (pks, who) = current_session_user h.passkeys req.raw t.now in
      let h' : Host N W = record h { passkeys = pks } in
      elim who [ none ↦ (h', refusal) | some u ↦ handler h' u ]

  unfoldable pub serve_account : Host N W → Request → Moment → Host N W × Reply
  serve_account h req t = as_user h req t to_login (λ h' u. (h', shown (wants_json req.raw)))

module _ {W : WebAuthn} (C : Ceremony W) where
  -- The credential of a ceremony, from the body of the request.
  unfoldable pub credential_of :
      Option (PkUser W) → W.SessionData → Request → Result Problem (Bytes × W.Credential)
  credential_of user sess req = elim (C.read_body req.raw req.left) [
    | err e ↦ err e
    | ok (label, body) ↦ elim (C.create_credential user sess body) [
      | err e ↦ err e
      | ok cred ↦ ok (passkey_label label, cred)
    ]
  ]

module _ {N : Net} {W : WebAuthn} (C : Ceremony W) where
  unfoldable pub begin_for : Host N W → Option (PkUser W) → Moment → Host N W × Reply
  begin_for h user t = elim (C.begin_registration user) [
    | none ↦ (h, failed begin_failed)
    | some (sess, options) ↦ (
      record h { passkeys = issue_registration W h.passkeys sess [] (t.random 0) t.now },
      challenge options,
    )
  ]

  unfoldable pub register : Host N W → Bytes → Bytes × W.Credential → Moment → Host N W × Reply
  register h user_id (label, cred) t =
      let (s, e) = add_credential W h.passkeys user_id label cred t.now (t.io 0) in
      (record h { passkeys = s }, elim e [ none ↦ done | some p ↦ failed (in_passkeys p) ])

  unfoldable pub finish_registration : Host N W → Bytes → Request → Moment → Host N W × Reply
  finish_registration h user_id req t =
      let sid = read_cookie_from_headers req.raw (codes "mygrok_pk_reg") in
      let (pks, pending) = consume_registration W h.passkeys sid t.now in
      let h' : Host N W = record h { passkeys = pks } in
      elim pending [
        | none ↦ (h', failed no_pending)
        | some (sess, token) ↦ elim (credential_of C (user_by_id W pks user_id) sess req) [
          | err p ↦ (h', failed p)
          | ok c ↦ register h' user_id c t
        ]
      ]

  unfoldable pub serve_account_register_begin : Host N W → Request → Moment → Host N W × Reply
  unfolding begin_for
  serve_account_register_begin h req t = as_user h req t (failed no_session) (λ h' u.
      elim (user_by_id W h'.passkeys u.id) [
        | none ↦ (h', failed user_gone)
        | some user ↦ begin_for h' (some user) t
      ])

  unfoldable pub serve_account_register_finish : Host N W → Request → Moment → Host N W × Reply
  serve_account_register_finish h req t =
      as_user h req t (failed no_session) (λ h' u. finish_registration h' u.id req t)

  module _ (G : GoLib) (cfg : Flags) where
    unfoldable pub serve_admin_passkey_begin : Host N W → Request → Moment → Host N W × Reply
    unfolding begin_for
    serve_admin_passkey_begin h req t = as_admin G cfg h req t (λ h'.
        let (s, uid) = admin_passkey_owner_id h'.passkeys t in
        begin_for (record h' { passkeys = s }) (user_by_id W s uid) t)

    unfoldable pub serve_admin_passkey_finish : Host N W → Request → Moment → Host N W × Reply
    serve_admin_passkey_finish h req t = as_admin G cfg h req t (λ h'.
        let (s, uid) = admin_passkey_owner_id h'.passkeys t in
        finish_registration (record h' { passkeys = s }) uid req t)

module _ {N : Net} {W : WebAuthn} (G : GoLib) (cfg : Flags) where
  -- The query may ask for JSON as well.
  unfoldable pub serve_admin_passkeys : Host N W → Request → Moment → Host N W × Reply
  serve_admin_passkeys h req t =
      as_admin G cfg h req t
        (λ h'. (h', shown (wants_json req.raw || contains req.raw (codes "format=json"))))

module _ {N : Net} {W : WebAuthn} where
  -- The deletion that a signed-in user asks for.
  unfoldable pub delete_own : Host N W → UserRecord → Bytes → Moment → Host N W × Reply
  delete_own h u id t =
      if id == []
      then (h, redirect (codes "/account"))
      else if not (user_owns_credential h.passkeys u.id id)
      then (h, redirect (codes "/account"))
      else if leb (length (list_credentials W h.passkeys u.id)) 1
      then (h, failed last_passkey)
      else (
        record h { passkeys = (delete_credential W h.passkeys id (t.io 0)).0 },
        redirect (codes "/account"),
      )

module _ {N : Net} {W : WebAuthn} (G : GoLib) where
  unfoldable pub serve_account_credential_delete : Host N W → Request → Moment → Host N W × Reply
  serve_account_credential_delete h req t = as_user h req t to_login (λ h' u.
      elim (read_post_form G req.raw req.left) [
        | err e ↦ (h', redirect (codes "/account"))
        | ok form ↦ delete_own h' u (form (codes "id")) t
      ])
