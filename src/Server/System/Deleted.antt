-- ===== src/Server/System/Deleted.antt =====
-- What follows the deletion of a user by an admin, `serveAdminUsersDelete` of cmd/mygrokd/auth.go,
-- for as long as the server of cmd/mygrokd runs.
use mygrok.Base.{
  ℕ, ◌≡◌, refl, Bool, true, false, not, List, [], ◌∷◌, none, Bytes, codes, ◌==◌, eq_iff, any, keep,
  arith, member, Option-cases, inl, inr, hex_encode,
}
use mygrok.Base.Error.{ok}
use mygrok.Base.Pieces.{lacks}
use mygrok.Base.Dict.{Dict, lookup}
use mygrok.Server.Disk.{Io}
use mygrok.Server.Acl.{Net}
use mygrok.Server.Locks.{Locks, save, allows_user, strip_user, revoke_user_across_tunnels}
use mygrok.Server.Passkeys.{WebAuthn, UserRecord, AuthSession, Pending, PasskeyStore}
use mygrok.Server.Passkeys.Store.{
  has_user, find_user, find_id, delete_user, credential_user_id, save as save_store,
}
use mygrok.Server.Passkeys.Sessions.{session_user, revoke_user_sessions}
use mygrok.Server.Admin.{GoLib, Flags, admin_auth_ok, read_post_form}
use mygrok.Server.Manage.{Host, Request, Moment}
use mygrok.Server.Manage.Ceremony.{Ceremony}
use mygrok.Server.Manage.People.{remove_user, serve_admin_users_delete}
use mygrok.Server.System.Gone.{holds, holds-lookup, is_for, Other, owner_of-other, IsForgotten}
use mygrok.Server.System.Permanent.{listed, IsGone, Calls-IsGone}
use mygrok.Server.System.Connections.{Run, Run-Calls}

any-keep_rest {ℓ} :
    {A : Type ℓ} (p : A → Bool) (xs : List A) → any p (keep (λ x. not (p x)) xs) ≡ false
any-keep_rest p [] = refl
any-keep_rest p (x ∷ xs) = ground (arith, any-keep_rest p xs)

listed-strip_user_own :
    (uid : Bytes) (m : Dict (List Bytes)) → listed uid (strip_user uid m).0 ≡ false
unfolding strip_user
listed-strip_user_own uid [] = refl
listed-strip_user_own uid ((sub, set) ∷ m) =
    ground (arith, listed-strip_user_own uid m, any-keep_rest (λ v. v == uid) set)

revoke_user_across_tunnels-listed :
    (l : Locks) (uid : Bytes) (io : Io)
    → listed uid (revoke_user_across_tunnels l uid io).0.allowed ≡ false
unfolding revoke_user_across_tunnels save
revoke_user_across_tunnels-listed l uid io = ground (arith, listed-strip_user_own uid l.allowed)

find_id-missing :
    (id : Bytes) (us : List UserRecord) → has_user id us ≡ false → find_id id us ≡ none
unfolding find_id
find_id-missing id [] e = refl
find_id-missing id (u ∷ us) e = ground (arith, find_id-missing id us)

allows_user-unlisted :
    (l : Locks) (sub uid : Bytes) → listed uid l.allowed ≡ false → allows_user l sub uid ≡ false
unfolding allows_user
allows_user-unlisted l sub uid e = elim (Option-cases (lookup sub l.allowed)) [
  | inl p ↦ ground arith
  | inr (set, p) ↦ ground (arith, holds-lookup (member uid) sub l.allowed e p)
]

module _ {W : WebAuthn} where
  -- No pending registration is for a new user with the id.
  abbrev pub unawaited : Bytes → PasskeyStore W → Bool
  unawaited uid s = not (holds (λ (p : Pending W). is_for uid p.invite_token) s.reg_sessions)

  session_user-other :
      (s : PasskeyStore W) (uid sid : Bytes) (now : ℕ)
      → (uid == []) ≡ false
      → IsForgotten uid s
      → ((session_user W s sid now).1 == uid) ≡ false
  unfolding session_user
  session_user-other s uid sid now n v = elim (Option-cases (lookup sid s.auth_sessions)) [
    | inl e ↦ ground (arith, eq_iff [] uid, eq_iff uid [])
    | inr (a, e) ↦
        let other =
          holds-lookup (λ (k : AuthSession). k.user_id == uid) sid s.auth_sessions v.session e in
        ground (arith, eq_iff [] uid, eq_iff uid [], other)
  ]

module _ {N : Net} {W : WebAuthn} where
  -- The user is on no list, has no session, owns no credential and is not known.
  pub record IsDeleted (uid : Bytes) (h : Host N W) : Type 0 where
    pub barred : (sub : Bytes) → allows_user h.locks sub uid ≡ false
    pub signed_out :
        (sid : Bytes) (now : ℕ) → ((session_user W h.passkeys sid now).1 == uid) ≡ false
    pub keyless : (raw : Bytes) → (credential_user_id W h.passkeys raw == uid) ≡ false
    pub unknown : find_user W h.passkeys uid ≡ none

  IsGone-IsDeleted :
      (uid : Bytes) (h : Host N W) → (uid == []) ≡ false → IsGone uid h → IsDeleted uid h
  unfolding credential_user_id find_user
  IsGone-IsDeleted uid h n v = record {
    barred = λ sub. allows_user-unlisted h.locks sub uid v.unlisted;
    signed_out = λ sid now. session_user-other h.passkeys uid sid now n v.forgotten;
    keyless =
        λ raw. owner_of-other uid (hex_encode raw) h.passkeys.credentials n v.forgotten.credential;
    unknown = find_id-missing uid h.passkeys.users v.forgotten.user;
  }

  remove_user-IsGone :
      (h : Host N W) (uid : Bytes) (t : Moment)
      → has_user uid h.passkeys.users ≡ true
      → unawaited uid h.passkeys ≡ true
      → IsGone uid (remove_user h uid t)
  unfolding remove_user revoke_user_sessions delete_user save_store
  remove_user-IsGone h uid t known calm = rw known (record {
    forgotten = record {
      user = any-keep_rest (λ u. u.id == uid) h.passkeys.users;
      credential = any-keep_rest (λ c. c.user_id == uid) h.passkeys.credentials;
      session =
          any-keep_rest (λ (e : Bytes × AuthSession). e.1.user_id == uid) h.passkeys.auth_sessions;
      pending = ground (arith, calm);
    };
    unlisted = revoke_user_across_tunnels-listed h.locks uid (t.io 0);
  })

module _ {N : Net} {W : WebAuthn} (G : GoLib) (C : Ceremony W) (cfg : Flags) where
  -- When an admin deletes a user whom the store knows, then the user is on no list, has no session,
  -- owns no credential and is not known after the deletion, and so it stays whatever requests and
  -- connections the server handles afterwards, one after another, whoever makes them. No invite was
  -- waiting to be used under the id of that user, the id has no `|`, and every new id is another one.
  pub serve_admin_users_delete-IsDeleted :
      (h : Host N W) (req : Request) (t : Moment) {form : Bytes → Bytes} {k : Host N W}
      → (admin_auth_ok G cfg h.admin req.raw t.now).1 ≡ true
      → read_post_form G req.raw req.left ≡ ok form
      → (form (codes "user_id") == []) ≡ false
      → lacks b'|' (form (codes "user_id")) ≡ true
      → has_user (form (codes "user_id")) h.passkeys.users ≡ true
      → unawaited (form (codes "user_id")) h.passkeys ≡ true
      → Run G C cfg (Other (form (codes "user_id"))) (serve_admin_users_delete G cfg h req t).0 k
      → IsDeleted (form (codes "user_id")) k
  unfolding serve_admin_users_delete
  serve_admin_users_delete-IsDeleted h req t {form} {k} admin read named free known calm run =
      let uid = form (codes "user_id") in
      let h' : Host N W = record h { admin = (admin_auth_ok G cfg h.admin req.raw t.now).0 } in
      let start : IsGone uid (serve_admin_users_delete G cfg h req t).0 =
        unfold serve_admin_users_delete in
        rw (admin, read, named) (remove_user-IsGone h' uid t known calm) in
      IsGone-IsDeleted uid k named
        (Calls-IsGone C uid named free (Run-Calls G C cfg (Other uid) run) start)
