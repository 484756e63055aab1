-- ===== src/Server/Manage/Locking.antt =====
-- The button that locks a tunnel, `serveAdminLocks` of cmd/mygrokd/auth.go.
use mygrok.Base.{
  ℕ, suc, ◌≡◌, refl, Bool, true, false, not, ◌&&◌, ◌||◌, List, [], ◌∷◌, Bytes, ◌==◌, arith, all,
  inl, inr, Option-cases, eq_iff, eq_refl,
}
use mygrok.Base.Dict.{lookup, lookup-insert}
use mygrok.Server.Disk.{Io}
use mygrok.Server.Names.{looks_like_subdomain}
use mygrok.Server.Acl.{Net}
use mygrok.Server.Locks.{Locks, grant, allows_user, is_locked, without_user}
use mygrok.Server.Locks.Access.{allows_user-grant, member-without_user, grant_refused}
use mygrok.Server.Passkeys.{WebAuthn, UserRecord}
use mygrok.Server.Passkeys.Store.{has_user, sort_users, insert_user, list_users}
use mygrok.Server.Manage.{Host, Moment}
use mygrok.Server.Manage.People.{grant_all, drop_empty_user, lock_users, lock_all}

-- Whether there is no user; whether all have an id.
abbrev pub nobody : List UserRecord → Bool
nobody [] = true
nobody (u ∷ us) = false

abbrev pub named : List UserRecord → Bool
named = all (λ u. not (u.id == []))

allows_user-grant_all :
    (l : Locks) (sub : Bytes) (us : List UserRecord) (io : ℕ → Io) (n : ℕ) (s v : Bytes)
    → looks_like_subdomain sub ≡ true
    → named us ≡ true
    → (allows_user (grant_all l sub us io n) s v
        ≡ (((sub == s) && has_user v us) || allows_user l s v))
      × (is_locked (grant_all l sub us io n) s ≡ (((sub == s) && not (nobody us)) || is_locked l s))
unfolding grant_all
allows_user-grant_all l sub [] io n s v valid ids = (ground arith, ground arith)
allows_user-grant_all l sub (u ∷ us) io n s v valid ids =
    let present : (u.id == []) ≡ false = ground arith in
    let (in_rest, locked_rest) =
      allows_user-grant_all (grant l sub u.id (io n)).0 sub us io (suc n) s v valid
        (ground arith) in
    let (now, locked_now) = allows_user-grant l sub u.id (io n) s v valid present in
    (ground (arith, in_rest, now), ground (arith, locked_rest, locked_now))

sorted_insert :
    (u : UserRecord) (v : Bytes) (us : List UserRecord)
    → (has_user v (insert_user u us) ≡ ((u.id == v) || has_user v us))
      × (named (insert_user u us) ≡ (not (u.id == []) && named us))
      × (nobody (insert_user u us) ≡ false)
unfolding insert_user
sorted_insert u v [] = (refl, refl, refl)
sorted_insert u v (w ∷ us) =
    let (h, n, b) = sorted_insert u v us in (ground (arith, h), ground (arith, n), ground arith)

sorted :
    (v : Bytes) (us : List UserRecord)
    → (has_user v (sort_users us) ≡ has_user v us)
      × (named (sort_users us) ≡ named us)
      × (nobody (sort_users us) ≡ nobody us)
unfolding sort_users
sorted v [] = (refl, refl, refl)
sorted v (u ∷ us) =
    let (h, n, b) = sorted v us in
    let (h', n', b') = sorted_insert u v (sort_users us) in
    (ground (arith, h, h'), ground (arith, n, n'), b')

pub has_user-sort_users :
    (v : Bytes) (us : List UserRecord) → has_user v (sort_users us) ≡ has_user v us
has_user-sort_users v us = (sorted v us).0

-- The removal of the empty user id changes nothing for a user with an id.
drop_empty_user_kept :
    (l : Locks) (sub s v : Bytes)
    → (v == []) ≡ false
    → (allows_user (drop_empty_user l sub) s v ≡ allows_user l s v)
      × (is_locked (drop_empty_user l sub) s ≡ is_locked l s)
unfolding drop_empty_user allows_user is_locked
drop_empty_user_kept l sub s v e = elim (Option-cases (lookup sub l.allowed)) [
  | inl p ↦ (ground arith, ground arith)
  | inr (set, p) ↦
      let new = without_user [] set in
      (
        ground (
          arith,
          lookup-insert sub s new l.allowed,
          member-without_user [] v set,
          eq_iff sub s,
          eq_iff [] v,
          eq_iff v [],
        ),
        ground (arith, lookup-insert sub s new l.allowed, eq_iff sub s),
      )
]

lock_none :
    (l : Locks) (sub : Bytes) (io : Io) (s v : Bytes)
    → (v == []) ≡ false
    → let l' = drop_empty_user (grant l sub [] io).0 sub in
      (allows_user l' s v ≡ allows_user l s v) × (is_locked l' s ≡ is_locked l s)
lock_none l sub io s v e =
    let (same, _) = grant_refused l sub [] io (ground (arith, eq_refl [])) in
    rw same (drop_empty_user_kept l sub s v e)

lock_users_lem :
    (l : Locks) (sub : Bytes) (us : List UserRecord) (io : ℕ → Io) (s v : Bytes)
    → looks_like_subdomain sub ≡ true
    → named us ≡ true
    → (v == []) ≡ false
    → (allows_user (lock_users l sub us io) s v
        ≡ (((sub == s) && has_user v us) || allows_user l s v))
      × (is_locked (lock_users l sub us io) s ≡ (((sub == s) && not (nobody us)) || is_locked l s))
unfolding lock_users
lock_users_lem l sub [] io s v valid ids e =
    let (a, b) = lock_none l sub (io 0) s v e in (ground (arith, a), ground (arith, b))
lock_users_lem l sub (u ∷ us) io s v valid ids e =
    allows_user-grant_all l sub (u ∷ us) io 0 s v valid ids

-- Locking a tunnel lets in every user that there is and changes nothing else; if there is no user at
-- all it does not lock the tunnel. The subdomain is valid and every user has an id.
pub is_locked-lock_all :
    {N : Net} {W : WebAuthn} (h : Host N W) (sub : Bytes) (t : Moment) (s v : Bytes)
    → looks_like_subdomain sub ≡ true
    → named h.passkeys.users ≡ true
    → (v == []) ≡ false
    → (allows_user (lock_all h sub t) s v
        ≡ (((sub == s) && has_user v h.passkeys.users) || allows_user h.locks s v))
      × (is_locked (lock_all h sub t) s
          ≡ (((sub == s) && not (nobody h.passkeys.users)) || is_locked h.locks s))
unfolding lock_all list_users
is_locked-lock_all h sub t s v valid ids e =
    let users = h.passkeys.users in
    let (known, fine, some_one) = sorted v users in
    let (a, b) =
      lock_users_lem h.locks sub (sort_users users) t.io s v valid (ground (arith, fine)) e in
    (ground (arith, a, known), ground (arith, b, some_one))
