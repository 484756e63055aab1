-- ===== src/Server/System/Permanent.antt =====
-- The server of cmd/mygrokd after a user has been deleted.
use mygrok.Base.{
  ◌≡◌, refl, Bool, true, false, List, [], ◌∷◌, Bytes, ◌==◌, eq_refl, any-append, arith, member,
  Bool-cases, Option-cases, inl, inr,
}
use mygrok.Base.Pieces.{lacks}
use mygrok.Base.Dict.{Dict, lookup, insert}
use mygrok.Server.Acl.{Net}
use mygrok.Server.Names.{looks_like_subdomain}
use mygrok.Server.Locks.{
  Locks, is_empty, without_user, with_user, granted, shrink, save, grant, revoke, unlock,
  strip_user, revoke_user_across_tunnels,
}
use mygrok.Server.Passkeys.{WebAuthn, UserRecord}
use mygrok.Server.Passkeys.Store.{has_user}
use mygrok.Server.Manage.{Host}
use mygrok.Server.Manage.Ceremony.{Ceremony}
use mygrok.Server.Manage.People.{drop_empty_user}
use mygrok.Server.System.{
  ListCall, grants, grants_nobody, revokes, unlocks, strips, tidies, Call, on_tunnels, on_rules,
  on_lists, on_store, on_invites, on_admins, Calls, nothing, and_then,
}
use mygrok.Server.System.Gone.{
  holds, holds-insert, holds-erase, holds-lookup, known_other, Other, IsForgotten,
  StoreCall-IsForgotten,
}

-- Some list has the user.
abbrev pub listed : Bytes → Dict (List Bytes) → Bool
listed uid = holds (member uid)

member-with_user :
    (uid v : Bytes) (set : List Bytes)
    → member uid set ≡ false
    → (v == uid) ≡ false
    → member uid (with_user v set) ≡ false
member-with_user uid v set e f = ground (arith, any-append (λ j. j == uid) set (v ∷ []))

member-without_user :
    (uid v : Bytes) (set : List Bytes)
    → member uid set ≡ false
    → member uid (without_user v set) ≡ false
member-without_user uid v [] e = refl
member-without_user uid v (w ∷ set) e = ground (arith, member-without_user uid v set)

listed-shrink :
    (uid sub : Bytes) (set : List Bytes) (m : Dict (List Bytes))
    → listed uid m ≡ false
    → member uid set ≡ false
    → listed uid (shrink sub set m) ≡ false
listed-shrink uid sub set m e f = elim (Bool-cases (is_empty set)) [
  | inl p ↦ rw p (holds-erase (member uid) sub m e)
  | inr p ↦ rw p (holds-insert (member uid) sub set m e f)
]

listed-strip_user :
    (uid v : Bytes) (m : Dict (List Bytes))
    → listed uid m ≡ false
    → listed uid (strip_user v m).0 ≡ false
unfolding strip_user
listed-strip_user uid v [] e = refl
listed-strip_user uid v ((sub, set) ∷ m) e =
    ground (arith, listed-strip_user uid v m, member-without_user uid v set)

listed-grant :
    (uid sub v : Bytes) (m : Dict (List Bytes))
    → listed uid m ≡ false
    → (v == uid) ≡ false
    → listed uid (insert sub (granted (lookup sub m) v) m) ≡ false
listed-grant uid sub v m e f = elim (Option-cases (lookup sub m)) [
  | inl p ↦
      rw p (holds-insert (member uid) sub (with_user v []) m e (member-with_user uid v [] refl f))
  | inr (set, p) ↦ rw p (
      holds-insert (member uid) sub (with_user v set) m e
        (member-with_user uid v set (holds-lookup (member uid) sub m e p) f))
]

pub ListCall-listed :
    (uid : Bytes) (us : List UserRecord) {l l' : Locks}
    → (uid == []) ≡ false
    → has_user uid us ≡ false
    → ListCall us l l'
    → listed uid l.allowed ≡ false
    → listed uid l'.allowed ≡ false
unfolding grant revoke unlock revoke_user_across_tunnels drop_empty_user save
ListCall-listed uid us {l} n h (grants sub v io k) e =
    elim (Bool-cases (looks_like_subdomain sub)) [
      | inr p ↦ rw p e
      | inl p ↦ elim (Bool-cases (v == [])) [
        | inl q ↦ rw (p, q) e
        | inr q ↦ rw (p, q) (listed-grant uid sub v l.allowed e (known_other uid v us h k))
      ]
    ]
ListCall-listed uid us {l} n h (grants_nobody sub io) e =
    elim (Bool-cases (looks_like_subdomain sub)) [ inr p ↦ rw p e | inl p ↦ rw (p, eq_refl []) e ]
ListCall-listed uid us {l} n h (revokes sub v io) e = elim (Option-cases (lookup sub l.allowed)) [
  | inl p ↦ rw (p, revoke) e
  | inr (set, p) ↦ elim (Bool-cases (member v set)) [
    | inl q ↦
        rw (p, revoke)
          (rw (q, revoke)
            (listed-shrink uid sub (without_user v set) l.allowed e
              (member-without_user uid v set (holds-lookup (member uid) sub l.allowed e p))))
    | inr q ↦ rw (p, revoke) (rw (q, revoke) e)
  ]
]
ListCall-listed uid us {l} n h (unlocks sub io) e = elim (Option-cases (lookup sub l.allowed)) [
  | inl p ↦ rw (p, unlock) e
  | inr (set, p) ↦ rw (p, unlock) (holds-erase (member uid) sub l.allowed e)
]
ListCall-listed uid us {l} n h (strips v io) e =
    elim (Bool-cases (is_empty (strip_user v l.allowed).1)) [
      | inl p ↦ rw p (listed-strip_user uid v l.allowed e)
      | inr p ↦ rw p (listed-strip_user uid v l.allowed e)
    ]
ListCall-listed uid us {l} n h (tidies sub) e = elim (Option-cases (lookup sub l.allowed)) [
  | inl p ↦ ground arith
  | inr (set, p) ↦
      let smaller = member-without_user uid [] set (holds-lookup (member uid) sub l.allowed e p) in
      ground (arith, holds-insert (member uid) sub (without_user [] set) l.allowed e smaller)
]

module _ {N : Net} {W : WebAuthn} where
  -- Nothing on the server names the user.
  pub record IsGone (uid : Bytes) (h : Host N W) : Type 0 where
    pub forgotten : IsForgotten uid h.passkeys
    pub unlisted : listed uid h.locks.allowed ≡ false

  pub Call-IsGone :
      (C : Ceremony W) (uid : Bytes) {h k : Host N W}
      → (uid == []) ≡ false
      → lacks b'|' uid ≡ true
      → Call C (Other uid) h k
      → IsGone uid h
      → IsGone uid k
  Call-IsGone C uid n f (on_tunnels r c) v = record {
    forgotten = v.forgotten;
    unlisted = v.unlisted;
  }
  Call-IsGone C uid n f (on_rules a c) v = record { forgotten = v.forgotten; unlisted = v.unlisted }
  Call-IsGone C uid {h} n f (on_lists l c) v = record {
    forgotten = v.forgotten;
    unlisted = ListCall-listed uid h.passkeys.users n v.forgotten.user c v.unlisted;
  }
  Call-IsGone C uid n f (on_store s c) v = record {
    forgotten = StoreCall-IsForgotten C uid n f c v.forgotten;
    unlisted = v.unlisted;
  }
  Call-IsGone C uid n f (on_invites i c) v = record {
    forgotten = v.forgotten;
    unlisted = v.unlisted;
  }
  Call-IsGone C uid n f (on_admins a c) v = record {
    forgotten = v.forgotten;
    unlisted = v.unlisted;
  }

  pub Calls-IsGone :
      (C : Ceremony W) (uid : Bytes) {h k : Host N W}
      → (uid == []) ≡ false
      → lacks b'|' uid ≡ true
      → Calls C (Other uid) h k
      → IsGone uid h
      → IsGone uid k
  Calls-IsGone C uid n f nothing v = v
  Calls-IsGone C uid n f (and_then p c) v = Call-IsGone C uid n f c (Calls-IsGone C uid n f p v)
