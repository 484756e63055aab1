-- ===== src/Server/Manage/Committed.antt =====
-- What the commit of `serveInviteFinish` of cmd/mygrokd/auth.go leaves in the stores.
use mygrok.Base.{
  ℕ, ◌≡◌, refl, ap, true, false, List, [], ◌∷◌, ◌++◌, none, some, Bytes, ◌==◌, ◌∙◌, sym, arith,
  if◌then◌else◌, any-append, eq_refl, inl, inr, Option-cases, Bool-cases, hex_encode,
}
use mygrok.Base.Dict.{lookup, lookup-insert}
use mygrok.Server.Disk.{Io, working, save_file}
use mygrok.Server.Acl.{Net}
use mygrok.Server.Passkeys.{WebAuthn, UserRecord, StoredCredential, PasskeyStore}
use mygrok.Server.Passkeys.Store.{
  save, has_user, has_credential, add_credential, owner_of, credential_user_id,
}
use mygrok.Server.Passkeys.Sessions.{issue_auth_session, session_user}
use mygrok.Server.Passkeys.Expiry.{session_user-issue}
use mygrok.Server.Invites.{Invite, InviteStore, save as save_invites, mark_consumed}
use mygrok.Server.Manage.{Host, Moment, signed_in}
use mygrok.Server.Manage.Ceremony.{Ceremony}
use mygrok.Server.Manage.Redeem.{join_user, commit_invite}

owner_of-append :
    {W : WebAuthn} (id : Bytes) (cs : List (StoredCredential W)) (c : StoredCredential W)
    → has_credential W id cs ≡ false
    → owner_of W id (cs ++ c ∷ []) ≡ (if c.id == id then c.user_id else [])
unfolding owner_of
owner_of-append id [] c e = refl
owner_of-append id (d ∷ cs) c e = ground (arith, owner_of-append id cs c)

-- The credential that was added is the user's, and the user is known.
pub add_credential_added :
    {W : WebAuthn} (s : PasskeyStore W) (user_id label : Bytes) (c : W.Credential) (now : ℕ)
    (io : Io)
    → (add_credential W s user_id label c now io).1 ≡ none
    → (has_user user_id (add_credential W s user_id label c now io).0.users ≡ true)
      × (credential_user_id W (add_credential W s user_id label c now io).0 (W.raw_id c) ≡ user_id)
      × (has_credential W (hex_encode (W.raw_id c)) s.credentials ≡ false)
      × ((add_credential W s user_id label c now io).0.users ≡ s.users)
unfolding add_credential credential_user_id save
add_credential_added {W} s user_id label c now io e =
    let id = hex_encode (W.raw_id c) in
    let stored : StoredCredential W = record {
      id = id;
      user_id = user_id;
      label = label;
      created = now;
      last_used = 0;
      credential = c;
    } in
    (
      ground arith,
      ground (arith, owner_of-append id s.credentials stored, eq_refl id),
      ground arith,
      ground arith,
    )

pub add_credential_new :
    {W : WebAuthn} (s : PasskeyStore W) (user_id label : Bytes) (c : W.Credential) (now : ℕ)
    (io : Io)
    → has_user user_id s.users ≡ true
    → has_credential W (hex_encode (W.raw_id c)) s.credentials ≡ false
    → io ≡ working
    → ((add_credential W s user_id label c now io).1 ≡ none)
      × ((add_credential W s user_id label c now io).0.auth_sessions ≡ s.auth_sessions)
unfolding add_credential save save_file
add_credential_new s user_id label c now io known new e = rw e (ground arith, ground arith)

-- An invite that was used stays as it is.
pub mark_consumed_kept :
    (s : InviteStore) (token user_id : Bytes) (now : ℕ) (io : Io) {rec : Invite}
    → lookup token s.by_token ≡ some rec
    → rec.consumed ≡ true
    → (mark_consumed s token user_id now io).0 ≡ s
unfolding mark_consumed
mark_consumed_kept s token user_id now io live used = rw (live, mark_consumed) (rw used refl)

mark_consumed_marked :
    (s : InviteStore) (token user_id : Bytes) (now : ℕ) (io : Io)
    → (mark_consumed s token user_id now io).1 ≡ none
    → (rec : Invite) × (lookup token (mark_consumed s token user_id now io).0.by_token ≡ some rec)
      × (rec.consumed ≡ true)
      × (rec.user_id ≡ user_id)
unfolding mark_consumed save_invites
mark_consumed_marked s token user_id now io e = elim (Option-cases (lookup token s.by_token)) [
  | inl p ↦ absurd (ground arith)
  | inr (rec, p) ↦ elim (Bool-cases rec.consumed) [
    | inl q ↦ absurd (ground arith)
    | inr q ↦
        let used : Invite = record rec { consumed = true; consumed_at = now; user_id = user_id } in
        (used, ground (arith, lookup-insert token token used s.by_token, eq_refl token), refl, refl)
  ]
]

session_joined :
    {W : WebAuthn} (s : PasskeyStore W) (user_id sid : Bytes) (c : W.Credential) (now : ℕ)
    → (sid == []) ≡ false
    → let s' = issue_auth_session W s user_id sid now in
      (s'.users ≡ s.users)
      × (credential_user_id W s' (W.raw_id c) ≡ credential_user_id W s (W.raw_id c))
      × ((session_user W s' sid now).1 ≡ user_id)
unfolding issue_auth_session credential_user_id
session_joined s user_id sid c now e =
    (refl, refl, ground (arith, session_user-issue s user_id sid sid now now e, eq_refl sid))

module _ {N : Net} {W : WebAuthn} where
  -- What the commit changes: a user with the name of the invite has joined the store, owns the
  -- credential, which nobody owned, and is named by the session, and the invite is marked as used by
  -- the user.
  pub record IsCommitted (h h' : Host N W) (rec : Invite) (user_id sid : Bytes)
      (cred : W.Credential) (now : ℕ) : Type 0 where
    pub user : UserRecord
    pub users : h'.passkeys.users ≡ h.passkeys.users ++ user ∷ []
    pub user_named : (user.id ≡ user_id) × (user.name ≡ rec.name)
    pub new : has_credential W (hex_encode (W.raw_id cred)) h.passkeys.credentials ≡ false
    pub owner : credential_user_id W h'.passkeys (W.raw_id cred) ≡ user_id
    pub session : (session_user W h'.passkeys sid now).1 ≡ user_id
    pub invite : Invite
    pub held : lookup rec.token h'.invites.by_token ≡ some invite
    pub used_up : invite.consumed ≡ true
    pub used_by : invite.user_id ≡ user_id

module _ {W : WebAuthn} (C : Ceremony W) where
  pub join_user_joined :
      (s : PasskeyStore W) (rec : Invite) (user_id : Bytes) (sess : W.SessionData) (t : Moment)
      → let s' = join_user C s rec user_id sess t in
        (has_user user_id s'.users ≡ true)
        × (s'.credentials ≡ s.credentials)
        × (s'.auth_sessions ≡ s.auth_sessions)
        × (s'.users
            ≡ s.users ++ record { id = user_id; name = rec.name; created = C.expires sess } ∷ [])
  unfolding join_user save
  join_user_joined s rec user_id sess t =
      let user : UserRecord = record { id = user_id; name = rec.name; created = C.expires sess } in
      (
        ground (arith, any-append (λ u. u.id == user_id) s.users (user ∷ []), eq_refl user_id),
        refl,
        refl,
        refl,
      )

module _ {N : Net} {W : WebAuthn} (C : Ceremony W) where
  pub commit_invite-IsCommitted :
      (h : Host N W) (rec : Invite) (user_id : Bytes) (sess : W.SessionData) (label : Bytes)
      (cred : W.Credential) (t : Moment) {sid url : Bytes}
      → (t.random 0 == []) ≡ false
      → (commit_invite C h rec user_id sess (label, cred) t).1 ≡ signed_in sid url
      → IsCommitted h
          (commit_invite C h rec user_id sess (label, cred) t).0
          rec
          user_id
          (t.random 0)
          cred
          t.now
  unfolding commit_invite
  commit_invite-IsCommitted h rec user_id sess label cred t {sid} {url} named e =
      let s = join_user C h.passkeys rec user_id sess t in
      elim (Option-cases (add_credential W s user_id label cred t.now (t.io 1)).1) [
        | inr (p, q) ↦ absurd (ground arith)
        | inl q ↦ elim (Option-cases (mark_consumed h.invites rec.token user_id t.now (t.io 2)).1) [
          | inr (p, r) ↦ absurd (ground arith)
          | inl r ↦
              let added = (add_credential W s user_id label cred t.now (t.io 1)).0 in
              let (known, owner, new, same) =
                add_credential_added s user_id label cred t.now (t.io 1) q in
              let (has, kept, sessions, users) = join_user_joined C h.passkeys rec user_id sess t in
              let (inv, held, used_up, used_by) =
                mark_consumed_marked h.invites rec.token user_id t.now (t.io 2) r in
              let (us, cs, ss) = session_joined added user_id (t.random 0) cred t.now named in
              rw (q, r, commit_invite)
                (record {
                  user = record { id = user_id; name = rec.name; created = C.expires sess };
                  users = us ∙ same ∙ users;
                  user_named = (refl, refl);
                  new = ap (has_credential W (hex_encode (W.raw_id cred))) (sym kept) ∙ new;
                  owner = cs ∙ owner;
                  session = ss;
                  invite = inv;
                  held = held;
                  used_up = used_up;
                  used_by = used_by;
                })
        ]
      ]
