-- ===== src/Server/Locks/Access.antt =====
-- Who may pass the gate of which tunnel, after each change of the lists.
use mygrok.Base.{
  ◌≡◌, refl, ap, ◌∙◌, Bool, true, false, not, ◌&&◌, ◌||◌, List, [], ◌∷◌, Option, none, some, Bytes,
  sym, ◌==◌, eq_iff, eq_refl, if◌then◌else◌, member, any, any-append, arith, Option-cases, inl, inr,
  ◌≢◌,
}
use mygrok.Base.Dict.{Dict, lookup, keys, lookup-insert, lookup-erase}
use mygrok.Base.Keys.{distinct, lookup_absent}
use mygrok.Server.Disk.{Io}
use mygrok.Server.Names.{looks_like_subdomain}
use mygrok.Server.Locks.{
  Locks, is_empty, with_user, without_user, granted, shrink, save, is_locked, allows_user, grant,
  revoke, strip_user, revoke_user_across_tunnels,
}

member-with_user :
    (u v : Bytes) (set : List Bytes) → member v (with_user u set) ≡ ((u == v) || member v set)
member-with_user u v set = ground (arith, any-append (λ j. j == v) set (u ∷ []), eq_iff u v)

pub member-without_user :
    (u v : Bytes) (set : List Bytes)
    → member v (without_user u set) ≡ (not (u == v) && member v set)
member-without_user u v [] = ground arith
member-without_user u v (w ∷ set) =
    ground (arith, member-without_user u v set, eq_iff w u, eq_iff w v, eq_iff u v)

-- A grant with a valid subdomain and a user locks the tunnel, lets the user in, and changes nothing
-- for another user or another tunnel; this holds in memory even if the file cannot be written.
pub allows_user-grant :
    (l : Locks) (sub user_id : Bytes) (io : Io) (s v : Bytes)
    → looks_like_subdomain sub ≡ true
    → (user_id == []) ≡ false
    → (allows_user (grant l sub user_id io).0 s v
        ≡ (if (sub == s) && (user_id == v) then true else allows_user l s v))
      × (is_locked (grant l sub user_id io).0 s ≡ ((sub == s) || is_locked l s))
unfolding allows_user is_locked grant save
allows_user-grant l sub user_id io s v valid present =
    let set = granted (lookup sub l.allowed) user_id in
    let known : member v set
        ≡ ((user_id == v) || elim (lookup sub l.allowed) [ none ↦ false | some us ↦ member v us ]) =
      elim (Option-cases (lookup sub l.allowed)) [
        | inl e ↦ rw e (member-with_user user_id v [])
        | inr (us, e) ↦ rw e (member-with_user user_id v us)
      ] in
    (
      ground (arith, lookup-insert sub s set l.allowed, known, eq_iff sub s),
      ground (arith, lookup-insert sub s set l.allowed, eq_iff sub s),
    )

-- A grant to a text that is no subdomain, or to no user, is refused and changes nothing.
pub grant_refused :
    (l : Locks) (sub user_id : Bytes) (io : Io)
    → (not (looks_like_subdomain sub) || (user_id == [])) ≡ true
    → ((grant l sub user_id io).0 ≡ l) × ((grant l sub user_id io).1 ≢ none)
unfolding grant
grant_refused l sub user_id io h = ground arith

lookup-shrink :
    (sub s : Bytes) (set : List Bytes) (m : Dict (List Bytes))
    → lookup s (shrink sub set m)
      ≡ (if sub == s then if is_empty set then none else some set else lookup s m)
lookup-shrink sub s set m = ground (arith, lookup-insert sub s set m, lookup-erase sub s m)

is_empty-member : (set : List Bytes) (v : Bytes) → is_empty set ≡ true → member v set ≡ false
is_empty-member [] v e = refl
is_empty-member (u ∷ set) v e = cc

revoke_found :
    (l : Locks) (sub user_id : Bytes) (io : Io) {set : List Bytes}
    → lookup sub l.allowed ≡ some set
    → member user_id set ≡ true
    → (revoke l sub user_id io).0.allowed ≡ shrink sub (without_user user_id set) l.allowed
unfolding revoke save
revoke_found l sub user_id io p q = rw (p, revoke) (rw (q, revoke))

abbrev admits : Option (List Bytes) → Bytes → Bool
admits none v = false
admits (some set) v = member v set

pub allows_user-admits :
    (l : Locks) (s v : Bytes) → allows_user l s v ≡ admits (lookup s l.allowed) v
unfolding allows_user
allows_user-admits l s v = ground arith

pub is_locked-lookup :
    (l : Locks) (s : Bytes)
    → is_locked l s ≡ elim (lookup s l.allowed) [ none ↦ false | some set ↦ true ]
unfolding is_locked
is_locked-lookup l s = refl

allows_found :
    (l : Locks) (sub user_id : Bytes)
    → allows_user l sub user_id ≡ true
    → (set : List Bytes) × (lookup sub l.allowed ≡ some set) × (member user_id set ≡ true)
unfolding allows_user
allows_found l sub user_id h = elim (Option-cases (lookup sub l.allowed)) [
  | inl e ↦ absurd (ground arith)
  | inr (set, e) ↦ (set, e, ground arith)
]

-- The list of a tunnel after a revocation.
lookup-revoke :
    (l : Locks) (sub user_id : Bytes) (io : Io) {set : List Bytes} (s : Bytes)
    → lookup sub l.allowed ≡ some set
    → member user_id set ≡ true
    → lookup s (revoke l sub user_id io).0.allowed ≡ (
        if sub == s
        then if is_empty (without_user user_id set) then none else some (without_user user_id set)
        else lookup s l.allowed)
lookup-revoke l sub user_id io {set} s p q =
    ap (lookup s) (revoke_found l sub user_id io p q)
    ∙ lookup-shrink sub s (without_user user_id set) l.allowed

-- The users on the list of a tunnel.
abbrev pub users_on : Locks → Bytes → List Bytes
users_on l sub = elim (lookup sub l.allowed) [ none ↦ [] | some set ↦ set ]

-- The gate of a tunnel, which stands while there are passkeys, lets a user pass: the tunnel has no
-- list, or the user is on it.
abbrev pub lets_in : Locks → Bytes → Bytes → Bool
lets_in l s v = not (is_locked l s) || allows_user l s v

is_empty-without_user :
    (u : Bytes) (set : List Bytes)
    → is_empty (without_user u set) ≡ not (any (λ v. not (v == u)) set)
is_empty-without_user u [] = refl
is_empty-without_user u (v ∷ set) = ground (arith, is_empty-without_user u set)

-- A revocation of a user who is on the list of a tunnel takes that user, and nobody else, off that
-- list, and changes no other list. The tunnel stays locked exactly if another user is on its list,
-- and then the gate lets the others on it in and the revoked user not; with the last user the list
-- goes, and the gate lets everybody in. At every other tunnel the gate lets in whom it let in before.
pub allows_user-revoke :
    (l : Locks) (sub user_id : Bytes) (io : Io) (s v : Bytes)
    → allows_user l sub user_id ≡ true
    → let after = (revoke l sub user_id io).0 in
      let others = any (λ u. not (u == user_id)) (users_on l sub) in
      (allows_user after s v ≡ (if (sub == s) && (user_id == v) then false else allows_user l s v))
      × (is_locked after s ≡ (if sub == s then others else is_locked l s))
      × (lets_in after s v ≡ (
          if sub == s
          then not others || (not (user_id == v) && allows_user l s v)
          else lets_in l s v))
allows_user-revoke l sub user_id io s v h =
    let (set, p, q) = allows_found l sub user_id h in
    let after = (revoke l sub user_id io).0 in
    let others = any (λ u. not (u == user_id)) (users_on l sub) in
    let left : is_empty (without_user user_id set) ≡ not others =
      is_empty-without_user user_id set
      ∙ ap (λ o. not (any (λ u. not (u == user_id)) (elim o [ none ↦ [] | some us ↦ us ])))
          (sym p) in
    let listed : allows_user after s v
        ≡ (if (sub == s) && (user_id == v) then false else allows_user l s v) =
      ground (
        arith,
        allows_user-admits after s v,
        allows_user-admits l s v,
        lookup-revoke l sub user_id io s p q,
        p,
        member-without_user user_id v set,
        is_empty-member (without_user user_id set) v,
        eq_iff sub s,
        eq_iff user_id v,
      ) in
    let locked : is_locked after s ≡ (if sub == s then others else is_locked l s) = ground (
      arith,
      is_locked-lookup after s,
      is_locked-lookup l s,
      lookup-revoke l sub user_id io s p q,
      left,
    ) in
    (listed, locked, ground (arith, listed, locked))

is_empty_of_no_member :
    (set : List Bytes) → ((v : Bytes) → member v set ≡ false) → is_empty set ≡ true
is_empty_of_no_member [] f = refl
is_empty_of_no_member (u ∷ set) f = absurd (ground (arith, f u, eq_refl u))

-- The revocation of the last user of a tunnel unlocks it: the gate then lets everybody through.
is_locked-revoke_last :
    (l : Locks) (sub user_id : Bytes) (io : Io)
    → allows_user l sub user_id ≡ true
    → ((v : Bytes) → allows_user l sub v ≡ true → v ≡ user_id)
    → is_locked (revoke l sub user_id io).0 sub ≡ false
is_locked-revoke_last l sub user_id io h only =
    let (set, p, q) = allows_found l sub user_id h in
    let none_left : is_empty (without_user user_id set) ≡ true =
      is_empty_of_no_member (without_user user_id set) (λ v. ground (
        arith,
        member-without_user user_id v set,
        only v,
        p,
        allows_user-admits l sub v,
        eq_iff user_id v,
      )) in
    ground (
      arith,
      is_locked-lookup (revoke l sub user_id io).0 sub,
      lookup-revoke l sub user_id io sub p q,
      eq_refl sub,
      none_left,
    )

-- The loop over all tunnels, as it shows for one of them.
lookup-strip_user :
    (u : Bytes) (m : Dict (List Bytes)) (s : Bytes)
    → distinct (keys m) ≡ true
    → lookup s (strip_user u m).0 ≡ elim (lookup s m) [
      | none ↦ none
      | some set ↦
          if member u set
          then if is_empty (without_user u set) then none else some (without_user u set)
          else some set
    ]
unfolding lookup strip_user keys
lookup-strip_user u [] s d = refl
lookup-strip_user u ((k, set) ∷ m) s d =
    ground (arith, lookup-strip_user u m s, lookup_absent s m, eq_iff k s)

revoke_across-allowed :
    (l : Locks) (user_id : Bytes) (io : Io)
    → (revoke_user_across_tunnels l user_id io).0.allowed ≡ (strip_user user_id l.allowed).0
unfolding revoke_user_across_tunnels save
revoke_across-allowed l user_id io = ground arith

-- Deleting a user's grants shuts that user out of every tunnel, and keeps every other user's.
pub allows_user-revoke_across :
    (l : Locks) (user_id : Bytes) (io : Io) (s v : Bytes)
    → distinct (keys l.allowed) ≡ true
    → allows_user (revoke_user_across_tunnels l user_id io).0 s v
      ≡ (not (user_id == v) && allows_user l s v)
allows_user-revoke_across l user_id io s v d = elim (Option-cases (lookup s l.allowed)) [
  | inl p ↦ ground (
    arith,
    allows_user-admits (revoke_user_across_tunnels l user_id io).0 s v,
    allows_user-admits l s v,
    revoke_across-allowed l user_id io,
    lookup-strip_user user_id l.allowed s d,
    p,
  )
  | inr (set, p) ↦ ground (
    arith,
    allows_user-admits (revoke_user_across_tunnels l user_id io).0 s v,
    allows_user-admits l s v,
    revoke_across-allowed l user_id io,
    lookup-strip_user user_id l.allowed s d,
    p,
    member-without_user user_id v set,
    is_empty-member (without_user user_id set) v,
    eq_iff user_id v,
  )
]
