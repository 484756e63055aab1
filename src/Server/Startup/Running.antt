-- ===== src/Server/Startup/Running.antt =====
-- A server of cmd/mygrokd from its first start on.
use mygrok.Base.{◌≡◌, refl, sym, subst, true, [], none, Bytes, arith}
use mygrok.Base.Error.{ok}
use mygrok.Base.Dict.{keys}
use mygrok.Base.Keys.{distinct}
use mygrok.Server.Registry.{new_registry}
use mygrok.Server.Registry.Invariant.{IsConsistent, new_registry-IsConsistent}
use mygrok.Server.Acl.{Net, Acl, no_rules}
use mygrok.Server.Acl.Load.{load}
use mygrok.Server.Acl.Restart.{NetLaws, IsSound}
use mygrok.Server.Locks.{Locks, new_tunnel_locks}
use mygrok.Server.Passkeys.{WebAuthn}
use mygrok.Server.Passkeys.Owners.{IsOwned}
use mygrok.Server.Passkeys.Store.{new_passkey_store}
use mygrok.Server.Admin.{GoLib, Flags}
use mygrok.Server.Manage.{Host}
use mygrok.Server.Manage.Ceremony.{Ceremony}
use mygrok.Server.System.Connections.{Run}
use mygrok.Server.System.Kept.{IsKept, Run-IsKept}
use mygrok.Server.Startup.{Options, Machine, open_rules, open_others, Started, start}
use mygrok.Server.Startup.Ready.{start-parts}

module _ {W : WebAuthn} (o : Options) (m : Machine W) where
  new_lists :
      m.locks_file ≡ none → (new_tunnel_locks o.tunnel_locks_path m.locks_file m.io).allowed ≡ []
  unfolding new_tunnel_locks
  new_lists e = rw e refl

  new_store-IsOwned :
      m.passkey_file ≡ none
      → IsOwned (new_passkey_store W o.passkeys_path m.passkey_file m.now m.io)
  unfolding new_passkey_store
  new_store-IsOwned e = rw e (record { owned = tt; once = refl })

module _ {N : Net} {W : WebAuthn} (o : Options) (m : Machine W) where
  open_rules-IsSound : {a : Acl N} → m.acl_file ≡ none → open_rules o m ≡ ok a → IsSound a
  unfolding open_rules load
  open_rules-IsSound {a} absent p =
      let fresh : a
          ≡ record { path = o.ip_list_path; global = no_rules N; tunnels = []; disk = none } =
        ground (arith, absent) in
      subst IsSound (sym fresh)
        (record { global = (tt, tt); tunnels = tt; once = unfold keys in refl })

  opened :
      (public_host : Bytes) (a : Acl N) {h : Host N W}
      → open_others o m public_host a ≡ ok h
      → (h.registry ≡ new_registry)
        × (h.acl ≡ a)
        × (h.locks ≡ new_tunnel_locks o.tunnel_locks_path m.locks_file m.io)
        × (h.passkeys ≡ new_passkey_store W o.passkeys_path m.passkey_file m.now m.io)
  unfolding open_others
  opened public_host a q = (ground arith, ground arith, ground arith, ground arith)

  -- A server that starts where there are no files keeps its tables in order whatever requests and
  -- connections it handles, one after another: the maps of the tunnel table agree, the rules parse
  -- and have one bucket for each subdomain, every subdomain has one passkey list, and every
  -- credential has an id of its own and a known owner.
  pub start-Run-IsKept :
      (laws : NetLaws N) (G : GoLib) (C : Ceremony W) (flags : Flags) {s : Started N W}
      {h : Host N W}
      → start o m ≡ ok s
      → m.acl_file ≡ none
      → m.passkey_file ≡ none
      → m.locks_file ≡ none
      → Run G C flags (λ id. Unit) s.host h
      → IsKept h
  start-Run-IsKept laws G C flags {s} {h} e no_rules no_keys no_lists run =
      let (_, _, _, c) = start-parts o m e in
      let (a, p, q) = c.rules in
      let (r, x, l, k) = opened _ a q in
      let first : IsKept s.host = record {
        tunnels = subst IsConsistent (sym r) new_registry-IsConsistent;
        rules = subst IsSound (sym x) (open_rules-IsSound no_rules p);
        lists =
            subst (λ (t : Locks). distinct (keys t.allowed) ≡ true) (sym l)
              (rw (new_lists o m no_lists) (unfold keys in refl));
        owners = subst IsOwned (sym k) (new_store-IsOwned o m no_keys);
      } in
      Run-IsKept laws G C flags (λ id. Unit) run first
