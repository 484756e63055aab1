-- ===== src/Server/Manage/Removal.antt =====
-- What the removals of users and credentials leave, of cmd/mygrokd/auth.go.
use mygrok.Base.{ℕ, ◌≡◌, true, false, not, ◌&&◌, [], none, Bytes, codes, ◌==◌, arith, if◌then◌else◌}
use mygrok.Base.Error.{ok}
use mygrok.Base.Dict.{keys}
use mygrok.Base.Keys.{distinct}
use mygrok.Server.Disk.{Io}
use mygrok.Server.Acl.{Net}
use mygrok.Server.Locks.{allows_user}
use mygrok.Server.Locks.Access.{allows_user-revoke_across}
use mygrok.Server.Passkeys.{WebAuthn, PasskeyStore}
use mygrok.Server.Passkeys.Store.{save, find_user, delete_user, has_user, list_credentials}
use mygrok.Server.Passkeys.Sessions.{session_user, revoke_user_sessions}
use mygrok.Server.Passkeys.Expiry.{session_user-revoke_user}
use mygrok.Server.Passkeys.Deletion.{find_user-delete}
use mygrok.Server.Admin.{GoLib, Flags, admin_auth_ok, read_post_form}
use mygrok.Server.Manage.{Host, Request, Moment}
use mygrok.Server.Manage.People.{remove_user, serve_admin_users_delete}

session_user-delete :
    {W : WebAuthn} (s : PasskeyStore W) (uid sid : Bytes) (now : ℕ) (io : Io)
    → (session_user W (delete_user W s uid io).0 sid now).1 ≡ (session_user W s sid now).1
unfolding delete_user session_user save
session_user-delete s uid sid now io = ground arith

module _ {N : Net} {W : WebAuthn} where
  -- From `h` to `h'` the user is off every list, no session names the user, the store does not know
  -- the user and has no credential of the user; the other users are where they were.
  pub record IsRemoved (h h' : Host N W) (uid : Bytes) : Type 0 where
    pub lists :
        (sub v : Bytes) → allows_user h'.locks sub v ≡ (not (uid == v) && allows_user h.locks sub v)
    pub unnamed : (sid : Bytes) (now : ℕ) → ((session_user W h'.passkeys sid now).1 == uid) ≡ false
    pub found :
        (v : Bytes)
        → find_user W h'.passkeys v ≡ (if uid == v then none else find_user W h.passkeys v)
    pub no_credential : list_credentials W h'.passkeys uid ≡ []

  remove_user-IsRemoved :
      (h : Host N W) (uid : Bytes) (t : Moment)
      → (uid == []) ≡ false
      → has_user uid h.passkeys.users ≡ true
      → distinct (keys h.locks.allowed) ≡ true
      → IsRemoved h (remove_user h uid t) uid
  unfolding remove_user revoke_user_sessions find_user
  remove_user-IsRemoved h uid t e known once =
      let ended = revoke_user_sessions W h.passkeys uid in
      record {
        lists = λ sub v. allows_user-revoke_across h.locks uid (t.io 0) sub v once;
        unnamed = λ sid now.
            rw (session_user-delete ended uid sid now (t.io 1))
              (session_user-revoke_user h.passkeys uid sid now e);
        found = λ v. (find_user-delete ended uid v (t.io 1) e known).0;
        no_credential = (find_user-delete ended uid uid (t.io 1) e known).1;
      }

module _ {N : Net} {W : WebAuthn} (G : GoLib) (cfg : Flags) where
  -- When an admin deletes a user whom the store knows, the user is off every list, has no session
  -- and no credential, and is not known any more, and every other user stays on the same lists and
  -- is found as before. The map of the lists has no key twice.
  pub serve_admin_users_delete-IsRemoved :
      (h : Host N W) (req : Request) (t : Moment) {form : Bytes → Bytes}
      → (admin_auth_ok G cfg h.admin req.raw t.now).1 ≡ true
      → read_post_form G req.raw req.left ≡ ok form
      → (form (codes "user_id") == []) ≡ false
      → has_user (form (codes "user_id")) h.passkeys.users ≡ true
      → distinct (keys h.locks.allowed) ≡ true
      → IsRemoved h (serve_admin_users_delete G cfg h req t).0 (form (codes "user_id"))
  unfolding serve_admin_users_delete
  serve_admin_users_delete-IsRemoved h req t {form} admin read named known once =
      let h' : Host N W = record h { admin = (admin_auth_ok G cfg h.admin req.raw t.now).0 } in
      let done = remove_user-IsRemoved h' (form (codes "user_id")) t named known once in
      rw (admin, read, named)
        (record {
          lists = done.lists;
          unnamed = done.unnamed;
          found = done.found;
          no_credential = done.no_credential;
        })
