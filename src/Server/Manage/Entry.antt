-- ===== src/Server/Manage/Entry.antt =====
-- The sessions that a login starts, `serveAuthFinish` of cmd/mygrokd/auth.go.
use mygrok.Base.{
  ℕ, ◌≡◌, refl, ◌∙◌, sym, subst, true, false, ◌||◌, List, [], ◌∷◌, Option, some, Bytes, codes, ◌==◌,
  arith, eq_refl, inl, inr, Option-cases, Bool-cases, hex_encode,
}
use mygrok.Server.Disk.{Io}
use mygrok.Server.Acl.{Net}
use mygrok.Server.Headers.{read_cookie_from_headers}
use mygrok.Server.Passkeys.{WebAuthn, StoredCredential, PasskeyStore}
use mygrok.Server.Passkeys.Store.{
  save, owner_of, replace_credential, update_credential, credential_user_id, user_by_id,
}
use mygrok.Server.Passkeys.Sessions.{consume_login, issue_auth_session, session_user}
use mygrok.Server.Passkeys.Expiry.{session_user-issue}
use mygrok.Server.Admin.{GoLib, Flags}
use mygrok.Server.Manage.{Host, Request, Moment, signed_in}
use mygrok.Server.Manage.Ceremony.{Ceremony, PkUser}
use mygrok.Server.Manage.Login.{safe_return_url, identify, sign_in, finish_with, serve_auth_finish}
use mygrok.Server.Manage.Returning.{IsSafeReturn, safe_return_url-IsSafeReturn}

module _ {W : WebAuthn} where
  -- What go-webauthn documents of a login: the credential that it returns is one for which it asked
  -- who its user is, with the user handle of the browser's answer, and was told. `handle_of` reads
  -- that handle from the request.
  abbrev pub Asks : Ceremony W → (Bytes → Bytes → Bytes) → Type 0
  Asks C handle_of =
      (who : Bytes → Bytes → Option (PkUser W)) (sess : W.SessionData) (raw left : Bytes)
      (cred : W.Credential)
      → C.finish_login who sess raw left ≡ some cred
      → (u : PkUser W) × (who (W.raw_id cred) (handle_of raw left) ≡ some u)

  owner_of-replace :
      (id other : Bytes) (c : W.Credential) (now : ℕ) (cs : List (StoredCredential W))
      → owner_of W other (replace_credential W id c now cs) ≡ owner_of W other cs
  unfolding owner_of replace_credential
  owner_of-replace id other c now [] = refl
  owner_of-replace id other c now (d ∷ cs) = ground (arith, owner_of-replace id other c now cs)

  -- The use of a credential does not change its owner.
  credential_user_id-update :
      (s : PasskeyStore W) (c : W.Credential) (now : ℕ) (io : Io) (raw : Bytes)
      → credential_user_id W (update_credential W s c now io) raw ≡ credential_user_id W s raw
  unfolding credential_user_id update_credential save
  credential_user_id-update s c now io raw =
      ground
        (arith, owner_of-replace (hex_encode (W.raw_id c)) (hex_encode raw) c now s.credentials)

  identify_known :
      (s : PasskeyStore W) (raw_id handle : Bytes) {u : PkUser W}
      → identify W s raw_id handle ≡ some u
      → ((credential_user_id W s raw_id == []) ≡ false)
        × (user_by_id W s (credential_user_id W s raw_id) ≡ some u)
        × (((handle == []) || (handle == u.0)) ≡ true)
  unfolding identify
  identify_known s raw_id handle e = (ground arith, ground arith, ground arith)

  session_entered :
      (s : PasskeyStore W) (uid sid : Bytes) (now : ℕ)
      → (sid == []) ≡ false
      → (session_user W (issue_auth_session W s uid sid now) sid now).1 ≡ uid
  session_entered s uid sid now e =
      ground (arith, session_user-issue s uid sid sid now now e, eq_refl sid)

  consume_login_kept :
      (s : PasskeyStore W) (sid uid raw : Bytes) (now : ℕ)
      → (credential_user_id W (consume_login W s sid now).0 raw ≡ credential_user_id W s raw)
        × (user_by_id W (consume_login W s sid now).0 uid ≡ user_by_id W s uid)
  unfolding consume_login credential_user_id user_by_id
  consume_login_kept s sid uid raw now = (refl, refl)

module _ {N : Net} {W : WebAuthn} where
  -- Why a login has started a session: a login was pending, the library returned a credential for
  -- the browser's answer to it, the session names the owner of that credential, who is a user of the
  -- store and the one whom the user handle of the answer names, if it has one, and the visitor goes
  -- to a page of this site.
  pub record IsEntered (G : GoLib) (C : Ceremony W) (handle_of : Bytes → Bytes → Bytes)
      (cfg : Flags) (h h' : Host N W) (req : Request) (t : Moment) (url : Bytes) : Type 0 where
    pub pending : W.SessionData × Bytes
    pub begun :
        (consume_login W h.passkeys
          (read_cookie_from_headers req.raw (codes "mygrok_pk_login"))
          t.now).1
        ≡ some pending
    pub credential : W.Credential
    pub asked : Bytes → Bytes → Option (PkUser W)
    pub verified : C.finish_login asked pending.0 req.raw req.left ≡ some credential
    pub user : PkUser W
    pub handled :
        ((handle_of req.raw req.left == []) || (handle_of req.raw req.left == user.0)) ≡ true
    pub uid : Bytes
    pub owner : credential_user_id W h.passkeys (W.raw_id credential) ≡ uid
    pub named : (uid == []) ≡ false
    pub known : user_by_id W h.passkeys uid ≡ some user
    pub session : (session_user W h'.passkeys (t.random 0) t.now).1 ≡ uid
    pub page : IsSafeReturn G cfg.public_host url

  sign_in_signed :
      (h : Host N W) (cred : W.Credential) (url : Bytes) (t : Moment)
      → (t.random 0 == []) ≡ false
      → ((session_user W (sign_in h cred url t).0.passkeys (t.random 0) t.now).1
          ≡ credential_user_id W h.passkeys (W.raw_id cred))
        × ((sign_in h cred url t).1 ≡ signed_in (t.random 0) url)
  unfolding sign_in
  sign_in_signed h cred url t e =
      let updated = update_credential W h.passkeys cred t.now (t.io 0) in
      let uid = credential_user_id W updated (W.raw_id cred) in
      (
        session_entered updated uid (t.random 0) t.now e
            ∙ credential_user_id-update h.passkeys cred t.now (t.io 0) (W.raw_id cred),
        refl,
      )

module _ {N : Net} {W : WebAuthn} (G : GoLib) (C : Ceremony W) (cfg : Flags) where
  finish_with_signed :
      (h : Host N W) (sess : W.SessionData) (stored : Bytes) (req : Request) (t : Moment)
      {sid url : Bytes}
      → (finish_with G C cfg h sess stored req t).1 ≡ signed_in sid url
      → (cred : W.Credential) × (C.finish_login (identify W h.passkeys) sess req.raw req.left
          ≡ some cred)
        × (finish_with G C cfg h sess stored req t
            ≡ sign_in h cred (safe_return_url G stored cfg.public_host) t)
  unfolding finish_with
  finish_with_signed h sess stored req t e = elim (Bool-cases (C.parses req.raw req.left)) [
    | inr p ↦ absurd (ground arith)
    | inl p ↦ elim (Option-cases (C.finish_login (identify W h.passkeys) sess req.raw req.left)) [
      | inl q ↦ absurd (ground arith)
      | inr (cred, q) ↦ (cred, q, ground (arith, p, q))
    ]
  ]

  -- Where the end of a login signs the visitor in, a login of that browser was pending, and the new
  -- session names the owner of the credential that the library returned for this request and the
  -- pending login. The owner is a user of the store, and the one whom the user handle of the request
  -- names, if it has one; the page to go to is one that the server allows. The library asks who the
  -- user of the credential is, with that handle, and the session has an identifier.
  pub serve_auth_finish-IsEntered :
      (handle_of : Bytes → Bytes → Bytes) (h : Host N W) (req : Request) (t : Moment)
      {sid url : Bytes}
      → Asks C handle_of
      → (t.random 0 == []) ≡ false
      → (serve_auth_finish G C cfg h req t).1 ≡ signed_in sid url
      → IsEntered G C handle_of cfg h (serve_auth_finish G C cfg h req t).0 req t url
  unfolding serve_auth_finish
  serve_auth_finish-IsEntered handle_of h req t {sid} {url} asks some_id e =
      let cookie = read_cookie_from_headers req.raw (codes "mygrok_pk_login") in
      let pks = (consume_login W h.passkeys cookie t.now).0 in
      let h' : Host N W = record h { passkeys = pks } in
      elim (Option-cases (consume_login W h.passkeys cookie t.now).1) [
        | inl p ↦ absurd (ground arith)
        | inr ((sess, stored), p) ↦
            let (cred, q, whole) =
              finish_with_signed h' sess stored req t {sid = sid} {url = url} (ground (arith, p)) in
            let page = safe_return_url G stored cfg.public_host in
            let (session, answer) = sign_in_signed h' cred page t some_id in
            let (u, told) = asks (identify W pks) sess req.raw req.left cred q in
            let (named, known, handled) =
              identify_known pks (W.raw_id cred) (handle_of req.raw req.left) told in
            let uid = credential_user_id W pks (W.raw_id cred) in
            let (same_owner, same_user) =
              consume_login_kept h.passkeys cookie uid (W.raw_id cred) t.now in
            record {
              pending = (sess, stored);
              begun = p;
              credential = cred;
              asked = identify W pks;
              verified = q;
              user = u;
              handled = handled;
              uid = uid;
              owner = sym same_owner;
              named = named;
              known = sym same_user ∙ known;
              session = rw (p, serve_auth_finish) (rw whole session);
              page =
                  subst (IsSafeReturn G cfg.public_host) (ground (arith, e, p, whole, answer))
                    (safe_return_url-IsSafeReturn G stored cfg.public_host);
            }
      ]
