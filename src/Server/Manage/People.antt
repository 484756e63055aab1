-- ===== src/Server/Manage/People.antt =====
-- The handlers of cmd/mygrokd/auth.go for lists, users and invites: `serveAdminLocks`,
-- `serveAdminGrants`, `serveAdminUsers`, `serveAdminUsersDelete`, `serveAdminPasskeyDelete`,
-- `serveAdminInvites`, `applyInviteMutation` and `serveAdminInvitesCreate`.
use mygrok.Base.{
  ℕ, suc, true, not, List, [], ◌∷◌, ◌++◌, Option, none, some, Bytes, codes, ◌==◌, if◌then◌else◌,
  trim_space,
}
use mygrok.Base.Error.{Result, ok, err}
use mygrok.Base.Dict.{Dict, lookup, insert}
use mygrok.Server.Disk.{Io}
use mygrok.Server.Names.{looks_like_subdomain}
use mygrok.Server.Acl.{Net}
use mygrok.Server.Locks.{
  Locks, LocksError, without_user, grant, revoke, unlock, revoke_user_across_tunnels,
}
use mygrok.Server.Passkeys.{WebAuthn, UserRecord}
use mygrok.Server.Passkeys.Store.{list_users, find_user, delete_user, delete_credential}
use mygrok.Server.Passkeys.Sessions.{revoke_user_sessions}
use mygrok.Server.Invites.{Invite, InviteError, issue as issue_invite, delete_invite}
use mygrok.Server.Admin.{GoLib, Flags, wants_json, read_post_form}
use mygrok.Server.Manage.{
  Host, Request, Moment, Problem, Reply, in_form, in_locks, in_invites, unknown_op, name_required,
  invalid_subdomain, unknown_user, redirect, mutated, shown, failed, done, as_admin,
}

-- The grants of "lock" to the listed users, each with its own write.
unfoldable pub grant_all : Locks → Bytes → List UserRecord → (ℕ → Io) → ℕ → Locks
grant_all l sub [] io n = l
grant_all l sub (u ∷ us) io n = grant_all (grant l sub u.id (io n)).0 sub us io (suc n)

drop_empty : Bytes → Dict (List Bytes) → Dict (List Bytes)
drop_empty sub m = elim (lookup sub m) [ none ↦ m | some set ↦ insert sub (without_user [] set) m ]

-- `delete(locks.allowed[sub], "")`
unfoldable pub drop_empty_user : Locks → Bytes → Locks
unfolding drop_empty
drop_empty_user l sub = record l { allowed = drop_empty sub l.allowed }

-- "lock": with no user, the grant to nobody.
unfoldable pub lock_users : Locks → Bytes → List UserRecord → (ℕ → Io) → Locks
unfolding drop_empty_user
lock_users l sub [] io = drop_empty_user (grant l sub [] (io 0)).0 sub
lock_users l sub (u ∷ us) io = grant_all l sub (u ∷ us) io 0

invite_problem : Result InviteError Invite → Option Problem
invite_problem (err e) = some (in_invites e)
invite_problem (ok rec) = none

module _ {N : Net} {W : WebAuthn} where
  unfoldable pub lock_all : Host N W → Bytes → Moment → Locks
  lock_all h sub t = lock_users h.locks sub (list_users W h.passkeys) t.io

  unfoldable pub locks_form : Host N W → (Bytes → Bytes) → Moment → Host N W × Reply
  locks_form h form t =
      let sub = form (codes "sub") in
      let op = form (codes "op") in
      let page = redirect (codes "/admin/ips/" ++ sub) in
      if not (looks_like_subdomain sub)
      then (h, redirect (codes "/admin/ips"))
      else if op == codes "lock"
      then (record h { locks = lock_all h sub t }, page)
      else if op == codes "unlock"
      then (record h { locks = (unlock h.locks sub (t.io 0)).0 }, page)
      else (h, page)

  -- The end of a grant or a revocation.
  granted_reply : Host N W → Request → Bytes → Locks × Option LocksError → Host N W × Reply
  granted_reply h req sub (l, some e) = (record h { locks = l }, failed (in_locks e))
  granted_reply h req sub (l, none) = (
    record h { locks = l },
    if wants_json req.raw then mutated true none else redirect (codes "/admin/ips/" ++ sub),
  )

  unfoldable pub grants_form : Host N W → (Bytes → Bytes) → Request → Moment → Host N W × Reply
  unfolding granted_reply
  grants_form h form req t =
      let sub = form (codes "sub") in
      let uid = form (codes "user_id") in
      let op = form (codes "op") in
      if not (looks_like_subdomain sub)
      then (h, failed invalid_subdomain)
      else elim (find_user W h.passkeys uid) [
        | none ↦ (h, failed unknown_user)
        | some u ↦
            if op == codes "grant"
            then granted_reply h req sub (grant h.locks sub uid (t.io 0))
            else if op == codes "revoke"
            then granted_reply h req sub (revoke h.locks sub uid (t.io 0))
            else (h, failed (unknown_op op))
      ]

  -- A user goes: first from the lists, then the sessions, then the store.
  unfoldable pub remove_user : Host N W → Bytes → Moment → Host N W
  remove_user h uid t =
      let l = (revoke_user_across_tunnels h.locks uid (t.io 0)).0 in
      let ended = revoke_user_sessions W h.passkeys uid in
      record h { locks = l; passkeys = (delete_user W ended uid (t.io 1)).0 }

  -- The name is trimmed here and again by `Issue`.
  unfoldable pub create_invite : Host N W → (Bytes → Bytes) → Moment → Host N W × Option Problem
  unfolding invite_problem
  create_invite h form t =
      let name = trim_space (form (codes "name")) in
      let (s, r) = issue_invite h.invites name (t.random 0) t.now t.now (t.io 0) in
      if name == [] then (h, some name_required) else (record h { invites = s }, invite_problem r)

  unfoldable pub invite_form : Host N W → (Bytes → Bytes) → Moment → Host N W × Option Problem
  invite_form h form t =
      let op = form (codes "op") in
      let (s, e) = delete_invite h.invites (form (codes "token")) (t.io 0) in
      if op == codes "create"
      then create_invite h form t
      else if op == codes "revoke"
      then (record h { invites = s }, elim e [ none ↦ none | some p ↦ some (in_invites p) ])
      else (h, some (unknown_op op))

  created_reply : Host N W × Option Problem → Host N W × Reply
  created_reply (h, none) = (h, done)
  created_reply (h, some p) = (h, failed p)

module _ {N : Net} {W : WebAuthn} (G : GoLib) (cfg : Flags) where
  unfoldable pub serve_admin_locks : Host N W → Request → Moment → Host N W × Reply
  serve_admin_locks h req t = as_admin G cfg h req t (λ h'.
      elim (read_post_form G req.raw req.left) [
        | err e ↦ (h', redirect (codes "/admin/ips"))
        | ok form ↦ locks_form h' form t
      ])

  unfoldable pub serve_admin_grants : Host N W → Request → Moment → Host N W × Reply
  serve_admin_grants h req t = as_admin G cfg h req t (λ h'.
      elim (read_post_form G req.raw req.left) [
        | err e ↦ (h', failed (in_form e))
        | ok form ↦ grants_form h' form req t
      ])

  unfoldable pub serve_admin_users_delete : Host N W → Request → Moment → Host N W × Reply
  serve_admin_users_delete h req t = as_admin G cfg h req t (λ h'.
      elim (read_post_form G req.raw req.left) [
        | err e ↦ (h', redirect (codes "/admin/users"))
        | ok form ↦
            if form (codes "user_id") == [] then (h', redirect (codes "/admin/users")) else (
              remove_user h' (form (codes "user_id")) t,
              if wants_json req.raw then done else redirect (codes "/admin/users"),
            )
      ])

  unfoldable pub serve_admin_users : Host N W → Request → Moment → Host N W × Reply
  serve_admin_users h req t = as_admin G cfg h req t (λ h'. (h', shown (wants_json req.raw)))

  unfoldable pub serve_admin_passkey_delete : Host N W → Request → Moment → Host N W × Reply
  serve_admin_passkey_delete h req t = as_admin G cfg h req t (λ h'.
      elim (read_post_form G req.raw req.left) [
        | err e ↦ (h', redirect (codes "/admin/passkeys"))
        | ok form ↦ if form (codes "id") == [] then (h', redirect (codes "/admin/passkeys")) else (
          record h' { passkeys = (delete_credential W h'.passkeys (form (codes "id")) (t.io 0)).0 },
          redirect (codes "/admin/passkeys"),
        )
      ])

  unfoldable pub apply_invite_mutation : Host N W → Request → Moment → Host N W × Option Problem
  apply_invite_mutation h req t = elim (read_post_form G req.raw req.left) [
    | err e ↦ (h, some (in_form e))
    | ok form ↦ invite_form h form t
  ]

  mutate_invites : Host N W → Request → Moment → Host N W × Reply
  mutate_invites h req t =
      let (h', problem) = apply_invite_mutation h req t in
      if req.method == codes "POST"
      then (h', mutated (wants_json req.raw) problem)
      else (h, shown (wants_json req.raw))

  unfoldable pub serve_admin_invites : Host N W → Request → Moment → Host N W × Reply
  unfolding mutate_invites
  serve_admin_invites h req t = as_admin G cfg h req t (λ h'. mutate_invites h' req t)

  unfoldable pub serve_admin_invites_create : Host N W → Request → Moment → Host N W × Reply
  unfolding created_reply
  serve_admin_invites_create h req t = as_admin G cfg h req t (λ h'.
      elim (read_post_form G req.raw req.left) [
        | err e ↦ (h', failed (in_form e))
        | ok form ↦ created_reply (create_invite h' form t)
      ])
