-- ===== src/Server/Locks/Occupied.antt =====
-- The users of a locked tunnel, over sequences of calls of `tunnelLocks`.
use mygrok.Base.{
  ◌≡◌, refl, true, false, List, [], ◌∷◌, Option, none, some, Bytes, ◌==◌, eq_refl, member, arith,
  Option-cases, inl, inr, Bool-cases,
}
use mygrok.Base.Dict.{Dict, lookup, insert, erase, keys}
use mygrok.Base.Keys.{distinct, distinct-keys-insert, distinct-keys-erase}
use mygrok.Server.Disk.{Io}
use mygrok.Server.Names.{looks_like_subdomain}
use mygrok.Server.Locks.{
  Locks, is_empty, without_user, granted, shrink, save, new_tunnel_locks, is_locked, allows_user,
  grant, revoke, unlock, strip_user, revoke_user_across_tunnels,
}
use mygrok.Server.Locks.Access.{allows_user-admits, is_locked-lookup}

abbrev pub Occupied : Dict (List Bytes) → Type 0
Occupied [] = Unit
Occupied ((sub, set) ∷ m) = (is_empty set ≡ false) × Occupied m

-- Each subdomain has one list, and no list is empty.
pub record IsOccupied (m : Dict (List Bytes)) : Type 0 where
  pub once : distinct (keys m) ≡ true
  pub occupied : Occupied m

Occupied-insert :
    (k : Bytes) (set : List Bytes) (m : Dict (List Bytes))
    → is_empty set ≡ false
    → Occupied m
    → Occupied (insert k set m)
unfolding insert
Occupied-insert k set [] e h = (e, tt)
Occupied-insert k set ((j, us) ∷ m) e h = elim (Bool-cases (j == k)) [
  | inl p ↦ rw p (e, h.1)
  | inr p ↦ rw p (h.0, Occupied-insert k set m e h.1)
]

Occupied-erase : (k : Bytes) (m : Dict (List Bytes)) → Occupied m → Occupied (erase k m)
unfolding erase
Occupied-erase k [] h = tt
Occupied-erase k ((j, us) ∷ m) h = elim (Bool-cases (j == k)) [
  | inl p ↦ rw p (Occupied-erase k m h.1)
  | inr p ↦ rw p (h.0, Occupied-erase k m h.1)
]

insert-IsOccupied :
    (k : Bytes) (set : List Bytes) (m : Dict (List Bytes))
    → is_empty set ≡ false
    → IsOccupied m
    → IsOccupied (insert k set m)
insert-IsOccupied k set m e v = record {
  once = distinct-keys-insert k set m v.once;
  occupied = Occupied-insert k set m e v.occupied;
}

erase-IsOccupied : (k : Bytes) (m : Dict (List Bytes)) → IsOccupied m → IsOccupied (erase k m)
erase-IsOccupied k m v = record {
  once = distinct-keys-erase k m v.once;
  occupied = Occupied-erase k m v.occupied;
}

shrink-IsOccupied :
    (k : Bytes) (set : List Bytes) (m : Dict (List Bytes))
    → IsOccupied m
    → IsOccupied (shrink k set m)
shrink-IsOccupied k set m v = elim (Bool-cases (is_empty set)) [
  | inl e ↦ rw e (erase-IsOccupied k m v)
  | inr e ↦ rw e (insert-IsOccupied k set m e v)
]

granted-present : (o : Option (List Bytes)) (u : Bytes) → is_empty (granted o u) ≡ false
granted-present none u = refl
granted-present (some []) u = refl
granted-present (some (w ∷ set)) u = ground arith

pub keys-strip_user :
    (u k : Bytes) (m : Dict (List Bytes))
    → member k (keys m) ≡ false
    → member k (keys (strip_user u m).0) ≡ false
unfolding keys strip_user
keys-strip_user u k [] e = refl
keys-strip_user u k ((j, set) ∷ m) e = ground (arith, keys-strip_user u k m)

strip_user-IsOccupied :
    (u : Bytes) (m : Dict (List Bytes)) → IsOccupied m → IsOccupied (strip_user u m).0
unfolding keys strip_user
strip_user-IsOccupied u [] v = record { once = refl; occupied = tt }
strip_user-IsOccupied u ((j, set) ∷ m) v =
    let fresh = keys-strip_user u j m (ground (arith, v.once)) in
    let rest =
      strip_user-IsOccupied u m
        (record { once = ground (arith, v.once); occupied = v.occupied.1 }) in
    elim (Bool-cases (member u set)) [
      | inr p ↦ rw p (record {
        once = ground (arith, fresh, rest.once);
        occupied = (v.occupied.0, rest.occupied);
      })
      | inl p ↦ elim (Bool-cases (is_empty (without_user u set))) [
        | inl q ↦ rw (p, q) rest
        | inr q ↦
            rw (p, q)
              (record { once = ground (arith, fresh, rest.once); occupied = (q, rest.occupied) })
      ]
    ]

-- The calls that change the lists.
pub data Step (l : Locks) : Locks → Type 0 where
  grants : (sub user_id : Bytes) (io : Io) → Step l (grant l sub user_id io).0
  revokes : (sub user_id : Bytes) (io : Io) → Step l (revoke l sub user_id io).0
  unlocks : (sub : Bytes) (io : Io) → Step l (unlock l sub io).0
  deletes : (user_id : Bytes) (io : Io) → Step l (revoke_user_across_tunnels l user_id io).0

pub data Reach (l : Locks) : Locks → Type 0 where
  here : Reach l l
  next : {m n : Locks} → Reach l m → Step m n → Reach l n

Step-IsOccupied : {l m : Locks} → Step l m → IsOccupied l.allowed → IsOccupied m.allowed
unfolding grant revoke unlock revoke_user_across_tunnels save
Step-IsOccupied {l} (grants sub user_id io) v = elim (Bool-cases (looks_like_subdomain sub)) [
  | inr p ↦ rw p v
  | inl p ↦ elim (Bool-cases (user_id == [])) [
    | inl q ↦ rw (p, q) v
    | inr q ↦
        rw (p, q)
          (insert-IsOccupied sub (granted (lookup sub l.allowed) user_id) l.allowed
            (granted-present (lookup sub l.allowed) user_id) v)
  ]
]
Step-IsOccupied {l} (revokes sub user_id io) v = elim (Option-cases (lookup sub l.allowed)) [
  | inl p ↦ rw (p, revoke) v
  | inr (set, p) ↦ elim (Bool-cases (member user_id set)) [
    | inl q ↦
        rw (p, revoke)
          (rw (q, revoke) (shrink-IsOccupied sub (without_user user_id set) l.allowed v))
    | inr q ↦ rw (p, revoke) (rw (q, revoke) v)
  ]
]
Step-IsOccupied {l} (unlocks sub io) v = elim (Option-cases (lookup sub l.allowed)) [
  | inl p ↦ rw (p, unlock) v
  | inr (set, p) ↦ rw (p, unlock) (erase-IsOccupied sub l.allowed v)
]
Step-IsOccupied {l} (deletes user_id io) v =
    elim (Bool-cases (is_empty (strip_user user_id l.allowed).1)) [
      | inl p ↦ rw p (strip_user-IsOccupied user_id l.allowed v)
      | inr p ↦ rw p (strip_user-IsOccupied user_id l.allowed v)
    ]

Reach-IsOccupied : {l m : Locks} → IsOccupied l.allowed → Reach l m → IsOccupied m.allowed
Reach-IsOccupied v here = v
Reach-IsOccupied v (next path step) = Step-IsOccupied step (Reach-IsOccupied v path)

first : (set : List Bytes) → is_empty set ≡ false → (v : Bytes) × (member v set ≡ true)
first [] e = cc
first (u ∷ set) e = (u, ground (arith, eq_refl u))

occupant :
    (m : Dict (List Bytes)) (s : Bytes) (set : List Bytes)
    → Occupied m
    → lookup s m ≡ some set
    → is_empty set ≡ false
unfolding lookup
occupant [] s set h e = cc
occupant ((j, us) ∷ m) s set h e = ground (arith, occupant m s set h.1, h.0)

-- On a server that started with no file, whatever grants, revocations, unlocks and deletions follow,
-- a locked tunnel has a user who may enter it.
Reach-occupant :
    (path : Bytes) (io : Io) {l : Locks} (s : Bytes)
    → Reach (new_tunnel_locks path none io) l
    → is_locked l s ≡ true
    → (v : Bytes) × (allows_user l s v ≡ true)
Reach-occupant path io {l} s r h =
    let start : IsOccupied (new_tunnel_locks path none io).allowed =
      unfold new_tunnel_locks keys in record { once = refl; occupied = tt } in
    elim (Option-cases (lookup s l.allowed)) [
      | inl p ↦ absurd (ground (arith, is_locked-lookup l s))
      | inr (set, p) ↦
          let (v, q) = first set (occupant l.allowed s set (Reach-IsOccupied start r).occupied p) in
          (v, ground (arith, allows_user-admits l s v))
    ]
