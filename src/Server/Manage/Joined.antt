-- ===== src/Server/Manage/Joined.antt =====
-- What the use of an invite leaves, `serveInviteFinish` of cmd/mygrokd/auth.go.
use mygrok.Base.{
  ℕ, ◌≡◌, refl, ap, eq_iff, cut, Option, true, false, [], ◌∷◌, ◌++◌, some, Bytes, ◌==◌, ◌∙◌, sym,
  subst, arith, codes, inl, inr, Option-cases, Bool-cases, hex_encode,
}
use mygrok.Base.Error.{ok, Result-cases}
use mygrok.Base.Pieces.{cut_back}
use mygrok.Base.Dict.{lookup}
use mygrok.Server.Disk.{working}
use mygrok.Server.Acl.{Net}
use mygrok.Server.Passkeys.{WebAuthn}
use mygrok.Server.Passkeys.Store.{has_user, has_credential, credential_user_id}
use mygrok.Server.Headers.{read_cookie_from_headers}
use mygrok.Server.Passkeys.Sessions.{consume_registration}
use mygrok.Server.Invites.{Invite, already_used, lookup_invite}
use mygrok.Server.Invites.Once.{mark_consumed_used}
use mygrok.Server.Manage.{Host, Request, Moment, signed_in, failed, in_invites}
use mygrok.Server.Manage.Ceremony.{Ceremony, PkUser}
use mygrok.Server.Manage.Account.{credential_of}
use mygrok.Server.Manage.Redeem.{
  invite_path, invitee, stashed, join_user, commit_invite, finish_invite, serve_invite_finish,
  serve_invite_begin, serve_stage, serve_invite,
}
use mygrok.Server.Manage.Committed.{
  IsCommitted, add_credential_added, add_credential_new, mark_consumed_kept, join_user_joined,
  commit_invite-IsCommitted,
}

module _ {N : Net} {W : WebAuthn} where
  -- Why a request with an invite has started a session: the registration that the browser's cookie
  -- names was pending for this invite and a user id, the library made a credential from the body of
  -- the request for that registration and that user, and this user and this credential were
  -- committed.
  pub record IsJoined (C : Ceremony W) (h h' : Host N W) (rec : Invite) (req : Request) (t : Moment)
      : Type 0 where
    pub user_id : Bytes
    pub session_data : W.SessionData
    pub pending :
        (consume_registration W h.passkeys
          (read_cookie_from_headers req.raw (codes "mygrok_pk_reg"))
          t.now).1
        ≡ some (session_data, rec.token ++ b'|' ∷ user_id)
    pub label : Bytes
    pub body : Bytes
    pub parsed : C.read_body req.raw req.left ≡ ok (label, body)
    pub credential : W.Credential
    pub created :
        C.create_credential (some (invitee W user_id rec.name)) session_data body ≡ ok credential
    pub committed : IsCommitted h h' rec user_id (t.random 0) credential t.now

module _ {W : WebAuthn} (C : Ceremony W) where
  stashed_text :
      (rec : Invite) (stash : Bytes) {id : Bytes}
      → stashed rec stash ≡ some id
      → stash ≡ rec.token ++ b'|' ∷ id
  unfolding stashed
  stashed_text rec stash {id} e = elim (Option-cases (cut b'|' stash)) [
    | inl p ↦ absurd (ground arith)
    | inr ((token, uid), p) ↦
        let (back, free) = cut_back b'|' stash p in ground (arith, back, eq_iff token rec.token)
  ]

  -- The credential of a request is the one that the library made from its body.
  credential_of_made :
      (user : Option (PkUser W)) (sess : W.SessionData) (req : Request) {label : Bytes}
      {cred : W.Credential}
      → credential_of C user sess req ≡ ok (label, cred)
      → (text : Bytes) × (body : Bytes) × (C.read_body req.raw req.left ≡ ok (text, body))
        × (C.create_credential user sess body ≡ ok cred)
  unfolding credential_of
  credential_of_made user sess req e = elim (Result-cases (C.read_body req.raw req.left)) [
    | inl (p, q) ↦ absurd (ground arith)
    | inr ((text, body), q) ↦ elim (Result-cases (C.create_credential user sess body)) [
      | inl (p, r) ↦ absurd (ground arith)
      | inr (cred, r) ↦ (text, body, q, ground arith)
    ]
  ]

module _ {N : Net} {W : WebAuthn} (C : Ceremony W) where
  finish_invite-IsCommitted :
      (h : Host N W) (rec : Invite) (sess : W.SessionData) (id : Bytes) (req : Request) (t : Moment)
      {sid url : Bytes}
      → (t.random 0 == []) ≡ false
      → (finish_invite C h rec sess id req t).1 ≡ signed_in sid url
      → (label : Bytes) × (cred : W.Credential) × (credential_of C
            (some (invitee W id rec.name))
            sess
            req
          ≡ ok (label, cred))
        × IsCommitted h (finish_invite C h rec sess id req t).0 rec id (t.random 0) cred t.now
  unfolding finish_invite
  finish_invite-IsCommitted h rec sess id req t {sid} {url} named e =
      elim (Result-cases (credential_of C (some (invitee W id rec.name)) sess req)) [
        | inl (p, q) ↦ absurd (ground arith)
        | inr ((label, cred), q) ↦ (
          label,
          cred,
          q,
          rw (q, finish_invite)
              (commit_invite-IsCommitted C h rec id sess label cred t {sid = sid} {url = url} named
                (ground (arith, q))),
        )
      ]

  consume_registration_kept :
      (h : Host N W) (id : Bytes) (now : ℕ) {h' : Host N W} {rec : Invite} {uid sid : Bytes}
      {cred : W.Credential}
      → IsCommitted
          (record h { passkeys = (consume_registration W h.passkeys id now).0 })
          h'
          rec
          uid
          sid
          cred
          now
      → IsCommitted h h' rec uid sid cred now
  unfolding consume_registration
  consume_registration_kept h id now c = record {
    user = c.user;
    users = c.users;
    user_named = c.user_named;
    new = c.new;
    owner = c.owner;
    session = c.session;
    invite = c.invite;
    held = c.held;
    used_up = c.used_up;
    used_by = c.used_by;
  }

  serve_invite_finish-IsJoined :
      (h : Host N W) (rec : Invite) (req : Request) (t : Moment) {sid url : Bytes}
      → (t.random 0 == []) ≡ false
      → (serve_invite_finish C h rec req t).1 ≡ signed_in sid url
      → IsJoined C h (serve_invite_finish C h rec req t).0 rec req t
  unfolding serve_invite_finish
  serve_invite_finish-IsJoined h rec req t {sid} {url} named e =
      let cookie = read_cookie_from_headers req.raw (codes "mygrok_pk_reg") in
      let pks = (consume_registration W h.passkeys cookie t.now).0 in
      let h' : Host N W = record h { passkeys = pks } in
      elim (Option-cases (consume_registration W h.passkeys cookie t.now).1) [
        | inl p ↦ absurd (ground arith)
        | inr ((sess, stash), p) ↦ elim (Option-cases (stashed rec stash)) [
          | inl q ↦ absurd (ground arith)
          | inr (id, q) ↦
              let (label, cred, made, done) =
                finish_invite-IsCommitted h' rec sess id req t {sid = sid} {url = url} named
                  (ground (arith, p, q)) in
              let (text, body, parsed, created) =
                credential_of_made C (some (invitee W id rec.name)) sess req made in
              record {
                user_id = id;
                session_data = sess;
                pending = p ∙ ap (λ s. some (sess, s)) (stashed_text C rec stash q);
                label = text;
                body = body;
                parsed = parsed;
                credential = cred;
                created = created;
                committed =
                    rw (p, q, serve_invite_finish) (consume_registration_kept h cookie t.now done);
              }
        ]
      ]

  -- Only the last stage signs in.
  serve_stage_signed :
      (h : Host N W) (rec : Invite) (stage : Bytes) (req : Request) (t : Moment) {sid url : Bytes}
      → (serve_stage C h rec stage req t).1 ≡ signed_in sid url
      → (serve_stage C h rec stage req t ≡ serve_invite_finish C h rec req t)
        × ((serve_invite_finish C h rec req t).1 ≡ signed_in sid url)
  unfolding serve_stage serve_invite_begin
  serve_stage_signed h rec stage req t e = ground arith

  -- Where a request to an invite page signs the visitor in, its token led to an invite that had not
  -- run out and had not been used. A registration of that browser was pending for this invite and an
  -- id; from the body of the request and that registration the library made a credential, which
  -- nobody in the store owned before. Now a user with that id and the name of the invite has joined
  -- the store and is the only one to do so, owns this credential and is named by the new session, and
  -- the invite is marked as used by that user. The session has an identifier.
  pub serve_invite-IsJoined :
      (h : Host N W) (req : Request) (t : Moment) {sid url : Bytes}
      → (t.random 0 == []) ≡ false
      → (serve_invite C h req t).1 ≡ signed_in sid url
      → (rec : Invite) × (lookup_invite h.invites (invite_path req.path).0 t.now ≡ some rec)
        × (rec.consumed ≡ false)
        × IsJoined C h (serve_invite C h req t).0 rec req t
  unfolding serve_invite
  serve_invite-IsJoined h req t {sid} {url} named e =
      let (token, stage) = invite_path req.path in
      elim (Bool-cases (token == [])) [
        | inl n ↦ absurd (ground arith)
        | inr n ↦ elim (Option-cases (lookup_invite h.invites token t.now)) [
          | inl p ↦ absurd (ground arith)
          | inr (rec, p) ↦ elim (Bool-cases rec.consumed) [
            | inl q ↦ absurd (ground arith)
            | inr q ↦
                let (last, answer) =
                  serve_stage_signed h rec stage req t {sid = sid} {url = url}
                    (ground (arith, n, p, q)) in
                let whole : serve_invite C h req t ≡ serve_invite_finish C h rec req t =
                  ground (arith, n, p, q, last) in
                (
                  rec,
                  p,
                  q,
                  subst (λ r. IsJoined C h r.0 rec req t) (sym whole)
                      (serve_invite_finish-IsJoined h rec req t {sid = sid} {url = url} named
                        answer),
                )
          ]
        ]
      ]

  -- Where the invite has been used while the credential of a second visitor was on its way, the
  -- second visitor is told so and gets no session, the invites stay as they are, and yet the visitor
  -- stays in the store as a user who owns the credential. The credential is a new one, and the file
  -- with it is written without an error.
  pub commit_invite_late :
      (h : Host N W) (rec held : Invite) (user_id : Bytes) (sess : W.SessionData) (label : Bytes)
      (cred : W.Credential) (t : Moment)
      → lookup rec.token h.invites.by_token ≡ some held
      → held.consumed ≡ true
      → has_credential W (hex_encode (W.raw_id cred)) h.passkeys.credentials ≡ false
      → t.io 1 ≡ working
      → let r = commit_invite C h rec user_id sess (label, cred) t in
        (r.1 ≡ failed (in_invites already_used))
        × (r.0.passkeys.auth_sessions ≡ h.passkeys.auth_sessions)
        × (has_user user_id r.0.passkeys.users ≡ true)
        × (credential_user_id W r.0.passkeys (W.raw_id cred) ≡ user_id)
        × (r.0.invites ≡ h.invites)
  unfolding commit_invite
  commit_invite_late h rec held user_id sess label cred t live used new disk =
      let s = join_user C h.passkeys rec user_id sess t in
      let (known, same, sessions, users) = join_user_joined C h.passkeys rec user_id sess t in
      let (free, kept) =
        add_credential_new s user_id label cred t.now (t.io 1) known (ground (arith, same)) disk in
      let (known', owner, fresh, us) =
        add_credential_added s user_id label cred t.now (t.io 1) free in
      rw
        (
          free,
          mark_consumed_used h.invites rec.token user_id t.now (t.io 2) live used,
          commit_invite,
        )
        (
          refl,
          kept ∙ sessions,
          known',
          owner,
          mark_consumed_kept h.invites rec.token user_id t.now (t.io 2) live used,
        )
