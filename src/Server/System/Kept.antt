-- ===== src/Server/System/Kept.antt =====
-- What holds of the server of cmd/mygrokd at all times.
use mygrok.Base.{
  ℕ, ◌≡◌, refl, true, List, [], ◌∷◌, Bytes, ◌==◌, ltb, arith, member, Bool-cases, Option-cases, inl,
  inr,
}
use mygrok.Base.Dict.{Dict, lookup, keys}
use mygrok.Base.Keys.{distinct, distinct-keys-insert, distinct-keys-erase}
use mygrok.Server.Registry.Invariant.{IsConsistent}
use mygrok.Server.Registry.Reach.{Step-IsConsistent}
use mygrok.Server.Acl.{Net}
use mygrok.Server.Acl.Restart.{NetLaws, IsSound}
use mygrok.Server.Acl.Sound.{Step-IsSound}
use mygrok.Server.Locks.{
  Locks, is_empty, without_user, granted, shrink, save, grant, revoke, unlock, strip_user,
  revoke_user_across_tunnels,
}
use mygrok.Server.Locks.Occupied.{keys-strip_user}
use mygrok.Server.Passkeys.{WebAuthn, UserRecord, PasskeyStore}
use mygrok.Server.Passkeys.Store.{save as save_store}
use mygrok.Server.Passkeys.Sessions.{
  issue_registration, consume_registration, issue_login, consume_login, issue_auth_session,
  session_user, revoke_session, revoke_user_sessions,
}
use mygrok.Server.Passkeys.Owners as Owners
use mygrok.Server.Passkeys.Owners.{IsOwned, Owned-more, Step-IsOwned}
use mygrok.Server.Admin.{GoLib, Flags}
use mygrok.Server.Manage.{Host}
use mygrok.Server.Manage.Ceremony.{Ceremony}
use mygrok.Server.Manage.People.{drop_empty_user}
use mygrok.Server.Manage.Redeem.{join_user}
use mygrok.Server.System.{
  StoreCall, creates, deletes, adds, drops, updates, begins, consumes, joins, begins_login,
  consumes_login, enters, welcomes, reads, leaves, ends, ListCall, grants, grants_nobody, revokes,
  unlocks, strips, tidies, Call, on_tunnels, on_rules, on_lists, on_store, on_invites, on_admins,
  Calls, nothing, and_then,
}
use mygrok.Server.System.Connections.{Run, Run-Calls}

-- The lists after an empty user id has been taken off, or a list has shrunk, are those of one map.
distinct-keys-shrink :
    (sub : Bytes) (set : List Bytes) (m : Dict (List Bytes))
    → distinct (keys m) ≡ true
    → distinct (keys (shrink sub set m)) ≡ true
distinct-keys-shrink sub set m d = elim (Bool-cases (is_empty set)) [
  | inl p ↦ rw p (distinct-keys-erase sub m d)
  | inr p ↦ rw p (distinct-keys-insert sub set m d)
]

distinct-keys-strip_user :
    (uid : Bytes) (m : Dict (List Bytes))
    → distinct (keys m) ≡ true
    → distinct (keys (strip_user uid m).0) ≡ true
unfolding keys strip_user
distinct-keys-strip_user uid [] d = refl
distinct-keys-strip_user uid ((sub, set) ∷ m) d =
    ground (arith, distinct-keys-strip_user uid m, keys-strip_user uid sub m)

ListCall-distinct :
    {us : List UserRecord} {l l' : Locks}
    → ListCall us l l'
    → distinct (keys l.allowed) ≡ true
    → distinct (keys l'.allowed) ≡ true
unfolding grant revoke unlock revoke_user_across_tunnels drop_empty_user save
ListCall-distinct {us} {l} (grants sub v io k) d =
    ground (arith, distinct-keys-insert sub (granted (lookup sub l.allowed) v) l.allowed d)
ListCall-distinct {us} {l} (grants_nobody sub io) d =
    ground (arith, distinct-keys-insert sub (granted (lookup sub l.allowed) []) l.allowed d)
ListCall-distinct {us} {l} (revokes sub v io) d = elim (Option-cases (lookup sub l.allowed)) [
  | inl p ↦ rw (p, revoke) d
  | inr (set, p) ↦ elim (Bool-cases (member v set)) [
    | inl q ↦
        rw (p, revoke) (rw (q, revoke) (distinct-keys-shrink sub (without_user v set) l.allowed d))
    | inr q ↦ rw (p, revoke) (rw (q, revoke) d)
  ]
]
ListCall-distinct {us} {l} (unlocks sub io) d = ground (arith, distinct-keys-erase sub l.allowed d)
ListCall-distinct {us} {l} (strips v io) d = ground (arith, distinct-keys-strip_user v l.allowed d)
ListCall-distinct {us} {l} (tidies sub) d = elim (Option-cases (lookup sub l.allowed)) [
  | inl p ↦ ground arith
  | inr (set, p) ↦ ground (arith, distinct-keys-insert sub (without_user [] set) l.allowed d)
]

module _ {W : WebAuthn} where
  reads-IsOwned :
      (s : PasskeyStore W) (sid : Bytes) (now : ℕ)
      → IsOwned s
      → IsOwned (session_user W s sid now).0
  unfolding session_user
  reads-IsOwned s sid now v = elim (Bool-cases (sid == [])) [
    | inl p ↦ rw p v
    | inr p ↦ elim (Option-cases (lookup sid s.auth_sessions)) [
      | inl q ↦ rw (p, q) (record { owned = v.owned; once = v.once })
      | inr (e, q) ↦ elim (Bool-cases (ltb e.expires now)) [
        | inl k ↦ rw (p, q) (rw k (record { owned = v.owned; once = v.once }))
        | inr k ↦ rw (p, q) (rw k v)
      ]
    ]
  ]

  StoreCall-IsOwned :
      {C : Ceremony W} {Fresh : Bytes → Type 0} {s s' : PasskeyStore W}
      → StoreCall C Fresh s s'
      → IsOwned s
      → IsOwned s'
  unfolding issue_registration consume_registration issue_login consume_login issue_auth_session
      session_user revoke_session revoke_user_sessions join_user save_store
  StoreCall-IsOwned (creates name id now io f) v = Step-IsOwned (Owners.creates name id now io) v
  StoreCall-IsOwned (deletes uid io) v = Step-IsOwned (Owners.deletes uid io) v
  StoreCall-IsOwned (adds uid label c now io) v = Step-IsOwned (Owners.adds uid label c now io) v
  StoreCall-IsOwned (drops id io) v = Step-IsOwned (Owners.drops id io) v
  StoreCall-IsOwned (updates c now io) v = Step-IsOwned (Owners.updates c now io) v
  StoreCall-IsOwned (begins d stash sid now f) v = record { owned = v.owned; once = v.once }
  StoreCall-IsOwned (consumes sid now) v = record { owned = v.owned; once = v.once }
  StoreCall-IsOwned {s = s} (joins rec sid id stash d now t p q) v = record {
    owned = Owned-more s.users _ s.credentials v.owned;
    once = v.once;
  }
  StoreCall-IsOwned (begins_login d url sid now) v = record { owned = v.owned; once = v.once }
  StoreCall-IsOwned (consumes_login sid now) v = record { owned = v.owned; once = v.once }
  StoreCall-IsOwned (enters raw sid now) v = record { owned = v.owned; once = v.once }
  StoreCall-IsOwned (welcomes id sid now k) v = record { owned = v.owned; once = v.once }
  StoreCall-IsOwned {s = s} (reads sid now) v = reads-IsOwned s sid now v
  StoreCall-IsOwned (leaves sid) v = record { owned = v.owned; once = v.once }
  StoreCall-IsOwned (ends id) v = record { owned = v.owned; once = v.once }

-- The maps of the tunnel table agree, the rules parse and have one bucket for each subdomain, every
-- subdomain has one passkey list, and every credential has a known owner and an id of its own.
pub record IsKept {N : Net} {W : WebAuthn} (h : Host N W) : Type 0 where
  pub tunnels : IsConsistent h.registry
  pub rules : IsSound h.acl
  pub lists : distinct (keys h.locks.allowed) ≡ true
  pub owners : IsOwned h.passkeys

module _ {N : Net} {W : WebAuthn} (laws : NetLaws N) where
  Call-IsKept :
      {C : Ceremony W} {Fresh : Bytes → Type 0} {h k : Host N W}
      → Call C Fresh h k
      → IsKept h
      → IsKept k
  Call-IsKept (on_tunnels r c) v = record {
    tunnels = Step-IsConsistent c v.tunnels;
    rules = v.rules;
    lists = v.lists;
    owners = v.owners;
  }
  Call-IsKept (on_rules a c) v = record {
    tunnels = v.tunnels;
    rules = Step-IsSound laws c v.rules;
    lists = v.lists;
    owners = v.owners;
  }
  Call-IsKept (on_lists l c) v = record {
    tunnels = v.tunnels;
    rules = v.rules;
    lists = ListCall-distinct c v.lists;
    owners = v.owners;
  }
  Call-IsKept (on_store s c) v = record {
    tunnels = v.tunnels;
    rules = v.rules;
    lists = v.lists;
    owners = StoreCall-IsOwned c v.owners;
  }
  Call-IsKept (on_invites i c) v = record {
    tunnels = v.tunnels;
    rules = v.rules;
    lists = v.lists;
    owners = v.owners;
  }
  Call-IsKept (on_admins a c) v = record {
    tunnels = v.tunnels;
    rules = v.rules;
    lists = v.lists;
    owners = v.owners;
  }

  Calls-IsKept :
      {C : Ceremony W} {Fresh : Bytes → Type 0} {h k : Host N W}
      → Calls C Fresh h k
      → IsKept h
      → IsKept k
  Calls-IsKept nothing v = v
  Calls-IsKept (and_then p c) v = Call-IsKept c (Calls-IsKept p v)

  pub Run-IsKept :
      (G : GoLib) (C : Ceremony W) (flags : Flags) (Fresh : Bytes → Type 0) {h k : Host N W}
      → Run G C flags Fresh h k
      → IsKept h
      → IsKept k
  Run-IsKept G C flags Fresh run v = Calls-IsKept (Run-Calls G C flags Fresh run) v
