-- ===== src/Server/Views/Shown.antt =====
-- Whether what the management host shows is what decides about a visitor.
use mygrok.Base.{
  ◌≡◌, refl, ap, ◌∙◌, Bool, true, false, not, ◌&&◌, ◌||◌, List, [], ◌∷◌, Bytes, ◌==◌, eq_iff, any,
  keep, All, member, arith, Option-cases, inl, inr,
}
use mygrok.Base.Order.{member-sort, member-keep, member-keys}
use mygrok.Base.Dict.{lookup, keys}
use mygrok.Base.Sort.{sort}
use mygrok.Server.Registry.{Registry}
use mygrok.Server.Acl.{Net, Acl}
use mygrok.Server.Locks.{Locks, is_locked, allows_user, allowed_users, locked_subdomains}
use mygrok.Server.Locks.Access.{lets_in}
use mygrok.Server.Passkeys.{WebAuthn, UserRecord, PasskeyStore}
use mygrok.Server.Passkeys.Store.{has_user, list_users, sort_users}
use mygrok.Server.Manage.Locking.{has_user-sort_users}
use mygrok.Server.Views.{
  AllowedUser, UserRow, tunnels_of, user_row, user_rows, users_view, name_users, tunnel_page,
  tunnel_view,
}

member-allowed_users :
    (l : Locks) (sub uid : Bytes) → member uid (allowed_users l sub) ≡ allows_user l sub uid
unfolding allowed_users allows_user
member-allowed_users l sub uid = elim (Option-cases (lookup sub l.allowed)) [
  | inl p ↦ ground arith
  | inr (set, p) ↦ ground (arith, member-sort uid set)
]

member-tunnels_of :
    (l : Locks) (uid sub : Bytes) → member sub (tunnels_of l uid) ≡ allows_user l sub uid
unfolding tunnels_of locked_subdomains
member-tunnels_of l uid sub =
    let kept = member-keep (λ s. allows_user l s uid) sub (sort (keys l.allowed)) in
    elim (Option-cases (lookup sub l.allowed)) [
      | inl p ↦
          let out : allows_user l sub uid ≡ false = unfold allows_user in ground arith in
          ground (arith, kept, out)
      | inr (set, p) ↦
          ground (arith, kept, p, member-sort sub (keys l.allowed), member-keys sub l.allowed)
    ]

-- The ids of users.
abbrev pub ids : List AllowedUser → List Bytes
ids [] = []
ids (u ∷ us) = u.id ∷ ids us

ids-name_users :
    {W : WebAuthn} (s : PasskeyStore W) (missing : Bytes → Bytes) (uids : List Bytes)
    → ids (name_users W s missing uids) ≡ uids
unfolding name_users
ids-name_users s missing [] = refl
ids-name_users s missing (uid ∷ uids) = ap (λ us. uid ∷ us) (ids-name_users s missing uids)

has_user-keep :
    (p : Bytes → Bool) (uid : Bytes) (us : List UserRecord)
    → has_user uid (keep (λ u. p u.id) us) ≡ (p uid && has_user uid us)
has_user-keep p uid [] = ground arith
has_user-keep p uid (u ∷ us) = ground (arith, has_user-keep p uid us, eq_iff u.id uid)

is_locked-allows_user :
    (l : Locks) (sub uid : Bytes) → (is_locked l sub || not (allows_user l sub uid)) ≡ true
unfolding is_locked allows_user
is_locked-allows_user l sub uid = ground arith

-- The page of a tunnel and the JSON answer list exactly the users on the list of that tunnel, and say
-- that it is locked exactly if it has a list. So where they say that it is locked, they list exactly
-- the users whom the gate lets in, and where they say that it is not, the gate lets everybody in and
-- they list nobody. The form of the page offers exactly the other users whom the store knows.
pub tunnel_page-lists :
    {N : Net} {W : WebAuthn} (a : Acl N) (r : Registry) (l : Locks) (s : PasskeyStore W)
    (sub uid : Bytes)
    → let page = tunnel_page W r l s sub in
      let answer = tunnel_view N W a r l s sub in
      (member uid (ids page.listed) ≡ allows_user l sub uid)
      × (member uid (ids answer.allowed_users) ≡ allows_user l sub uid)
      × (lets_in l sub uid ≡ (not page.locked || member uid (ids page.listed)))
      × (lets_in l sub uid ≡ (not answer.require_passkey || member uid (ids answer.allowed_users)))
      × ((page.locked || not (member uid (ids page.listed))) ≡ true)
      × (has_user uid page.offered ≡ (has_user uid s.users && not (allows_user l sub uid)))
unfolding tunnel_page tunnel_view list_users
tunnel_page-lists a r l s sub uid =
    let granted = member-allowed_users l sub uid in
    let named = ids-name_users s (λ v. v) (allowed_users l sub) in
    let unnamed = ids-name_users s (λ v. []) (allowed_users l sub) in
    let left = has_user-keep (λ v. not (member v (allowed_users l sub))) uid (sort_users s.users) in
    (
      rw named granted,
      rw unnamed granted,
      rw named (rw granted refl),
      rw unnamed (rw granted refl),
      rw named (rw granted (is_locked-allows_user l sub uid)),
      ground (arith, left, granted, has_user-sort_users uid s.users),
    )

-- Some user of the answer has the id.
abbrev pub has_row : Bytes → List UserRow → Bool
has_row uid = any (λ row. row.id == uid)

module _ {W : WebAuthn} where
  user_rows-tunnels :
      (s : PasskeyStore W) (l : Locks) (us : List UserRecord)
      → All
          (λ row. (sub : Bytes) → member sub row.tunnels ≡ allows_user l sub row.id)
          (user_rows W s l us)
  unfolding user_rows user_row
  user_rows-tunnels s l [] = tt
  user_rows-tunnels s l (u ∷ us) = (λ sub. member-tunnels_of l u.id sub, user_rows-tunnels s l us)

  has_row-user_rows :
      (s : PasskeyStore W) (l : Locks) (uid : Bytes) (us : List UserRecord)
      → has_row uid (user_rows W s l us) ≡ has_user uid us
  unfolding user_rows user_row
  has_row-user_rows s l uid [] = refl
  has_row-user_rows s l uid (u ∷ us) = ground (arith, has_row-user_rows s l uid us)

  -- The list of users has exactly the users whom the store knows, each with exactly the tunnels whose
  -- gate lets the user in.
  pub users_view-lists :
      (s : PasskeyStore W) (l : Locks)
      → ((uid : Bytes) → has_row uid (users_view W s l) ≡ has_user uid s.users)
        × All
            (λ row. (sub : Bytes) → member sub row.tunnels ≡ allows_user l sub row.id)
            (users_view W s l)
  unfolding users_view list_users
  users_view-lists s l = (
    λ uid. has_row-user_rows s l uid (sort_users s.users) ∙ has_user-sort_users uid s.users,
    user_rows-tunnels s l (sort_users s.users),
  )
