-- ===== src/Server/System/Admins.antt =====
-- The handlers for admins, of cmd/mygrokd/admin.go and auth.go, as calls on the tables.
use mygrok.Base.{
  ℕ, suc, ◌≡◌, sym, ◌∙◌, true, not, List, [], ◌∷◌, some, Bytes, codes, ◌==◌, eq_refl, arith,
  trim_space, Bool-cases, Option-cases, inl, inr,
}
use mygrok.Base.Error.{Result-cases}
use mygrok.Server.Disk.{Io}
use mygrok.Server.Acl.{Net}
use mygrok.Server.Acl.Sound.{adds, removes}
use mygrok.Server.Locks.{grant, revoke}
use mygrok.Server.Passkeys.{WebAuthn, UserRecord, PasskeyStore}
use mygrok.Server.Passkeys.Store.{has_user, list_users, find_user, find_id, sort_users}
use mygrok.Server.Admin.{GoLib, Flags, admin_auth_ok, read_post_form}
use mygrok.Server.Names.{looks_like_subdomain}
use mygrok.Server.Manage.{Host, Request, Moment}
use mygrok.Server.Manage.Ceremony.{Ceremony}
use mygrok.Server.Manage.Rules.{
  acl_form, apply_acl_mutation, magic_key, serve_admin_ips, serve_admin_tunnel_ips,
}
use mygrok.Server.Manage.People.{
  grant_all, lock_users, lock_all, locks_form, grants_form, remove_user, serve_admin_locks,
  serve_admin_grants, serve_admin_users_delete, serve_admin_users, serve_admin_passkey_delete,
  create_invite, invite_form, apply_invite_mutation, serve_admin_invites,
  serve_admin_invites_create,
}
use mygrok.Server.Manage.Locking.{has_user-sort_users}
use mygrok.Server.System.{
  Calls, nothing, and_then, on_rules, on_lists, on_store, on_invites, on_admins, Does, one, stop,
  last, branch, gate, Calls-append, grants, grants_nobody, revokes, unlocks, strips, tidies,
  deletes, drops, ends, checks, starts, invites, withdraws,
}

find_id-has_user :
    (id : Bytes) (us : List UserRecord) {u : UserRecord}
    → find_id id us ≡ some u
    → has_user id us ≡ true
unfolding find_id
find_id-has_user id [] e = cc
find_id-has_user id (v ∷ us) {u} e = ground (arith, find_id-has_user id us {u = u})

pub find_user-has_user :
    {W : WebAuthn} (s : PasskeyStore W) (uid : Bytes) {u : UserRecord}
    → find_user W s uid ≡ some u
    → has_user uid s.users ≡ true
unfolding find_user
find_user-has_user s uid e = find_id-has_user uid s.users e

module _ {N : Net} {W : WebAuthn} {C : Ceremony W} {Fresh : Bytes → Type 0} where
  acl_form-Calls :
      (G : GoLib) (h : Host N W) (scope : Bytes) (form : Bytes → Bytes) (t : Moment)
      → Calls C Fresh h (record h { acl = (acl_form G h.acl scope form t).0 })
  unfolding acl_form
  acl_form-Calls G h scope form t = elim (Bool-cases (form (codes "op") == codes "add")) [
    | inl e ↦ rw e (one (on_rules _ (adds _ _ _ _ _)))
    | inr e ↦ elim (Bool-cases (form (codes "op") == codes "remove")) [
      | inl f ↦ rw (e, f) (one (on_rules _ (removes _ _ _ _)))
      | inr f ↦ rw (e, f) nothing
    ]
  ]

  apply_acl_mutation-Calls :
      (G : GoLib) (h : Host N W) (scope : Bytes) (req : Request) (t : Moment)
      → Calls C Fresh h (record h { acl = (apply_acl_mutation G h.acl scope req t).0 })
  unfolding apply_acl_mutation
  apply_acl_mutation-Calls G h scope req t =
      elim (Result-cases (read_post_form G req.raw req.left)) [
        | inl (e, p) ↦ rw (p, apply_acl_mutation) nothing
        | inr (form, p) ↦ rw (p, apply_acl_mutation) (acl_form-Calls G h scope form t)
      ]

  pub serve_admin_ips-Does :
      (G : GoLib) (cfg : Flags) (h : Host N W) (req : Request) (t : Moment)
      → Does C Fresh h (serve_admin_ips G cfg h req t)
  unfolding serve_admin_ips
  serve_admin_ips-Does G cfg h req t =
      branch (magic_key G cfg req) (λ e. last (on_admins _ (starts _ _ _)))
        (λ e. gate (checks G cfg req.raw t.now) _ _ (
          branch (req.method == codes "POST")
            (λ p. record { calls = apply_acl_mutation-Calls G _ (codes "global") req t })
            (λ p. stop _)))

  pub serve_admin_tunnel_ips-Does :
      (G : GoLib) (cfg : Flags) (h : Host N W) (sub : Bytes) (req : Request) (t : Moment)
      → Does C Fresh h (serve_admin_tunnel_ips G cfg h sub req t)
  unfolding serve_admin_tunnel_ips
  serve_admin_tunnel_ips-Does G cfg h sub req t = gate (checks G cfg req.raw t.now) _ _ (
      branch (not (looks_like_subdomain sub)) (λ e. stop _)
        (λ e.
          branch (req.method == codes "POST")
            (λ p. record { calls = apply_acl_mutation-Calls G _ sub req t }) (λ p. stop _)))

  -- The grants of a lock are to known users.
  grant_all-Calls :
      (h : Host N W) (sub : Bytes) (us : List UserRecord) (io : ℕ → Io) (n : ℕ)
      → ((v : Bytes) → has_user v us ≡ true → has_user v h.passkeys.users ≡ true)
      → Calls C Fresh h (record h { locks = grant_all h.locks sub us io n })
  unfolding grant_all
  grant_all-Calls h sub [] io n known = nothing
  grant_all-Calls h sub (u ∷ us) io n known =
      let h' : Host N W = record h { locks = (grant h.locks sub u.id (io n)).0 } in
      Calls-append
        (one (on_lists _ (grants sub u.id (io n) (known u.id (ground (arith, eq_refl u.id))))))
        (grant_all-Calls h' sub us io (suc n) (λ v m. known v (ground arith)))

  lock_users-Calls :
      (h : Host N W) (sub : Bytes) (us : List UserRecord) (io : ℕ → Io)
      → ((v : Bytes) → has_user v us ≡ true → has_user v h.passkeys.users ≡ true)
      → Calls C Fresh h (record h { locks = lock_users h.locks sub us io })
  unfolding lock_users
  lock_users-Calls h sub [] io known =
      and_then (one (on_lists _ (grants_nobody sub (io 0)))) (on_lists _ (tidies sub))
  lock_users-Calls h sub (u ∷ us) io known = grant_all-Calls h sub (u ∷ us) io 0 known

  locks_form-Does :
      (h : Host N W) (form : Bytes → Bytes) (t : Moment) → Does C Fresh h (locks_form h form t)
  unfolding locks_form lock_all list_users
  locks_form-Does h form t =
      branch (not (looks_like_subdomain (form (codes "sub")))) (λ e. stop _)
        (λ e.
          branch (form (codes "op") == codes "lock")
            (λ p. record {
              calls =
                  lock_users-Calls h (form (codes "sub")) (sort_users h.passkeys.users) t.io
                    (λ v m. sym (has_user-sort_users v h.passkeys.users) ∙ m);
            })
            (λ p.
              branch (form (codes "op") == codes "unlock") (λ q. last (on_lists _ (unlocks _ _)))
                (λ q. stop _)))

  grants_form-Does :
      (h : Host N W) (form : Bytes → Bytes) (req : Request) (t : Moment)
      → Does C Fresh h (grants_form h form req t)
  unfolding grants_form
  grants_form-Does h form req t =
      let sub = form (codes "sub") in
      let uid = form (codes "user_id") in
      branch (not (looks_like_subdomain sub)) (λ e. stop _)
        (λ e. elim (Option-cases (find_user W h.passkeys uid)) [
          | inl p ↦ rw (p, grants_form) (stop _)
          | inr (u, p) ↦
              let known = find_user-has_user h.passkeys uid p in
              rw (p, grants_form)
                (branch (form (codes "op") == codes "grant")
                  (λ q. elim (Option-cases (grant h.locks sub uid (t.io 0)).1) [
                    | inl r ↦ rw r (last (on_lists _ (grants _ _ _ known)))
                    | inr (d, r) ↦ rw r (last (on_lists _ (grants _ _ _ known)))
                  ])
                  (λ q.
                    branch (form (codes "op") == codes "revoke")
                      (λ k. elim (Option-cases (revoke h.locks sub uid (t.io 0)).1) [
                        | inl r ↦ rw r (last (on_lists _ (revokes _ _ _)))
                        | inr (d, r) ↦ rw r (last (on_lists _ (revokes _ _ _)))
                      ])
                      (λ k. stop _)))
        ])

  remove_user-Calls :
      (h : Host N W) (uid : Bytes) (t : Moment) → Calls C Fresh h (remove_user h uid t)
  unfolding remove_user
  remove_user-Calls h uid t =
      and_then (and_then (one (on_lists _ (strips uid (t.io 0)))) (on_store _ (ends uid)))
        (on_store _ (deletes uid (t.io 1)))

  pub serve_admin_locks-Does :
      (G : GoLib) (cfg : Flags) (h : Host N W) (req : Request) (t : Moment)
      → Does C Fresh h (serve_admin_locks G cfg h req t)
  unfolding serve_admin_locks
  serve_admin_locks-Does G cfg h req t = elim (Result-cases (read_post_form G req.raw req.left)) [
    | inl (e, p) ↦ rw (p, serve_admin_locks) (gate (checks G cfg req.raw t.now) _ _ (stop _))
    | inr (form, p) ↦
        rw (p, serve_admin_locks) (gate (checks G cfg req.raw t.now) _ _ (locks_form-Does _ form t))
  ]

  pub serve_admin_grants-Does :
      (G : GoLib) (cfg : Flags) (h : Host N W) (req : Request) (t : Moment)
      → Does C Fresh h (serve_admin_grants G cfg h req t)
  unfolding serve_admin_grants
  serve_admin_grants-Does G cfg h req t = elim (Result-cases (read_post_form G req.raw req.left)) [
    | inl (e, p) ↦ rw (p, serve_admin_grants) (gate (checks G cfg req.raw t.now) _ _ (stop _))
    | inr (form, p) ↦
        rw (p, serve_admin_grants)
          (gate (checks G cfg req.raw t.now) _ _ (grants_form-Does _ form req t))
  ]

  pub serve_admin_users_delete-Does :
      (G : GoLib) (cfg : Flags) (h : Host N W) (req : Request) (t : Moment)
      → Does C Fresh h (serve_admin_users_delete G cfg h req t)
  unfolding serve_admin_users_delete
  serve_admin_users_delete-Does G cfg h req t =
      elim (Result-cases (read_post_form G req.raw req.left)) [
        | inl (e, p) ↦
            rw (p, serve_admin_users_delete) (gate (checks G cfg req.raw t.now) _ _ (stop _))
        | inr (form, p) ↦
            rw (p, serve_admin_users_delete)
              (gate (checks G cfg req.raw t.now) _ _ (
                branch (form (codes "user_id") == []) (λ e. stop _)
                  (λ e. record { calls = remove_user-Calls _ (form (codes "user_id")) t })))
      ]

  pub serve_admin_users-Does :
      (G : GoLib) (cfg : Flags) (h : Host N W) (req : Request) (t : Moment)
      → Does C Fresh h (serve_admin_users G cfg h req t)
  unfolding serve_admin_users
  serve_admin_users-Does G cfg h req t = gate (checks G cfg req.raw t.now) _ _ (stop _)

  pub serve_admin_passkey_delete-Does :
      (G : GoLib) (cfg : Flags) (h : Host N W) (req : Request) (t : Moment)
      → Does C Fresh h (serve_admin_passkey_delete G cfg h req t)
  unfolding serve_admin_passkey_delete
  serve_admin_passkey_delete-Does G cfg h req t =
      elim (Result-cases (read_post_form G req.raw req.left)) [
        | inl (e, p) ↦
            rw (p, serve_admin_passkey_delete) (gate (checks G cfg req.raw t.now) _ _ (stop _))
        | inr (form, p) ↦
            rw (p, serve_admin_passkey_delete)
              (gate (checks G cfg req.raw t.now) _ _ (
                branch (form (codes "id") == []) (λ e. stop _)
                  (λ e. last (on_store _ (drops (form (codes "id")) (t.io 0))))))
      ]

  create_invite-Calls :
      (h : Host N W) (form : Bytes → Bytes) (t : Moment)
      → Calls C Fresh h (create_invite h form t).0
  unfolding create_invite
  create_invite-Calls h form t = elim (Bool-cases (trim_space (form (codes "name")) == [])) [
    | inl q ↦ rw q nothing
    | inr q ↦ rw q (one (on_invites _ (invites _ _ _ _ _)))
  ]

  invite_form-Calls :
      (h : Host N W) (form : Bytes → Bytes) (t : Moment) → Calls C Fresh h (invite_form h form t).0
  unfolding invite_form
  invite_form-Calls h form t = elim (Bool-cases (form (codes "op") == codes "create")) [
    | inl p ↦ rw p (create_invite-Calls h form t)
    | inr p ↦ elim (Bool-cases (form (codes "op") == codes "revoke")) [
      | inl q ↦ rw (p, q) (one (on_invites _ (withdraws _ _)))
      | inr q ↦ rw (p, q) nothing
    ]
  ]

  pub serve_admin_invites-Does :
      (G : GoLib) (cfg : Flags) (h : Host N W) (req : Request) (t : Moment)
      → Does C Fresh h (serve_admin_invites G cfg h req t)
  unfolding serve_admin_invites apply_invite_mutation
  serve_admin_invites-Does G cfg h req t = elim (Result-cases (read_post_form G req.raw req.left)) [
    | inl (e, p) ↦
        rw (p, serve_admin_invites, apply_invite_mutation)
          (gate (checks G cfg req.raw t.now) _ _
            (branch (req.method == codes "POST") (λ q. stop _) (λ q. stop _)))
    | inr (form, p) ↦
        rw (p, serve_admin_invites, apply_invite_mutation)
          (gate (checks G cfg req.raw t.now) _ _ (
            branch (req.method == codes "POST") (λ q. record { calls = invite_form-Calls _ form t })
              (λ q. stop _)))
  ]

  pub serve_admin_invites_create-Does :
      (G : GoLib) (cfg : Flags) (h : Host N W) (req : Request) (t : Moment)
      → Does C Fresh h (serve_admin_invites_create G cfg h req t)
  unfolding serve_admin_invites_create
  serve_admin_invites_create-Does G cfg h req t =
      elim (Result-cases (read_post_form G req.raw req.left)) [
        | inl (e, p) ↦
            rw (p, serve_admin_invites_create) (gate (checks G cfg req.raw t.now) _ _ (stop _))
        | inr (form, p) ↦
            let h' : Host N W = record h {
              admin = (admin_auth_ok G cfg h.admin req.raw t.now).0;
            } in
            let made = create_invite-Calls h' form t in
            elim (Option-cases (create_invite h' form t).1) [
              | inl q ↦
                  rw (p, serve_admin_invites_create)
                    (rw q (gate (checks G cfg req.raw t.now) _ _ (record { calls = made })))
              | inr (d, q) ↦
                  rw (p, serve_admin_invites_create)
                    (rw q (gate (checks G cfg req.raw t.now) _ _ (record { calls = made })))
            ]
      ]
