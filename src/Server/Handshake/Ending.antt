-- ===== src/Server/Handshake/Ending.antt =====
-- The LAN records and the table of tunnels from the claim of a tunnel to its end, in
-- `handleTunnelConn` of cmd/mygrokd/main.go.
use mygrok.Base.{
  ℕ, ◌≡◌, ◌≢◌, refl, ap, Bool, true, false, not, ◌&&◌, [], Option, none, some, Bytes, ◌==◌,
  if◌then◌else◌, eq_iff, eq_refl, ◌⊎◌, arith,
}
use mygrok.Base.Error.{ok}
use mygrok.Base.Dict.{lookup, lookup-insert, lookup-erase}
use mygrok.Server.Registry.{Tunnel, Registry, Claimed, claim, get, release}
use mygrok.Server.Registry.Takeover.{get-claim, release-claim_stale}
use mygrok.Server.Lan.{Provider, LanManager, upsert_a, delete_a}
use mygrok.Server.Handshake.{lan_name}
use mygrok.Server.Handshake.Session.{
  Listeners, Hub, drop_preempted, publish, offer, answer, open_tunnel, held_name, replaced,
  close_tunnel,
}

release_gone :
    (r : Registry) (sub : Bytes) (sess : ℕ) {t : Tunnel}
    → get r sub ≡ some t
    → t.session ≡ sess
    → (get (release r sub sess) sub ≡ none) × (replaced r sub sess ≡ false)
unfolding get release replaced
release_gone r sub sess e own =
    (ground (arith, lookup-erase sub sub r.tunnels, eq_refl sub), ground arith)

module _ {P : Provider} where
  -- The address that is published for a name.
  abbrev pub record_of : Option (LanManager P) → Bytes → Option Bytes
  record_of none name = none
  record_of (some lm) name = lookup name lm.active

  pub lookup-delete_a :
      (lm : LanManager P) (name other : Bytes)
      → lookup other (delete_a P lm name).0.active
        ≡ (if name == other then none else lookup other lm.active)
  unfolding delete_a
  lookup-delete_a lm name other = ground (arith, lookup-erase name other lm.active)

  -- A write that succeeds is remembered, and one that fails changes nothing.
  lookup-upsert_a :
      (lm : LanManager P) (name ip other : Bytes)
      → lookup other (upsert_a P lm name ip).0.active ≡ elim (upsert_a P lm name ip).1 [
        | none ↦ if name == other then some ip else lookup other lm.active
        | some e ↦ lookup other lm.active
      ]
  unfolding upsert_a
  lookup-upsert_a lm name ip other = ground (arith, lookup-insert name other ip lm.active)

  publish-active :
      (lm : LanManager P) (cert : Option (Bytes × Bytes)) (t : Tunnel)
      → (t.lan_hostname == []) ≡ false
      → t.lan_hostname ≡ lan_name lm.public_host t.subdomain
      → lookup t.lan_hostname (publish lm cert t).0.active
        ≡ elim (publish lm cert t).1 [ none ↦ none | some c ↦ some t.lan_ip ]
  unfolding publish
  publish-active lm cert t n e =
      let name = lan_name lm.public_host t.subdomain in
      let up = (upsert_a P lm t.lan_hostname t.lan_ip).0 in
      ground (
        arith,
        lookup-upsert_a lm t.lan_hostname t.lan_ip t.lan_hostname,
        lookup-delete_a up name t.lan_hostname,
        eq_refl t.lan_hostname,
        eq_refl name,
        eq_iff name t.lan_hostname,
      )

  drop_preempted_host :
      (lm : LanManager P) (old : Option Tunnel) (t : Tunnel)
      → (drop_preempted lm old t).public_host ≡ lm.public_host
  unfolding drop_preempted delete_a
  drop_preempted_host lm none t = refl
  drop_preempted_host lm (some old) t = ground arith

  -- Once a tunnel with a LAN name is up, the client has been told the name exactly if the record
  -- for its address is published, and otherwise no record of the name is left; this holds whether
  -- the tunnel is new or taken over, and however the calls of the DNS provider end.
  pub open_tunnel-record_of :
      (on : Listeners) (hub : Hub P) (c : Claimed) (cert : Option (Bytes × Bytes)) (t : Tunnel)
      {lm : LanManager P}
      → hub.lan ≡ some lm
      → (t.lan_hostname == []) ≡ false
      → t.lan_hostname ≡ lan_name lm.public_host t.subdomain
      → record_of (open_tunnel on hub c cert t).0.lan t.lan_hostname
        ≡ elim (open_tunnel on hub c cert t).1.lan [ none ↦ none | some told ↦ some t.lan_ip ]
  unfolding open_tunnel offer answer
  open_tunnel-record_of on hub c cert t {lm} e n name =
      let lm' = drop_preempted lm c.preempted t in
      rw e (
        ground (
          arith,
          publish-active lm' cert t n (ground (arith, drop_preempted_host lm c.preempted t)),
        ))

  kept_lan :
      (l : Option (LanManager P)) (name : Bytes) (taken : Bool)
      → taken ≡ true
      → elim l [
        | none ↦ none
        | some lm ↦ some (if not (name == []) && not taken then (delete_a P lm name).0 else lm)
      ]
        ≡ l
  kept_lan none name taken e = refl
  kept_lan (some lm) name taken e = ground arith

  -- The end of a session that another one has replaced changes nothing: neither the tunnel of the
  -- new session nor its LAN record goes.
  pub close_tunnel_stale :
      (hub : Hub P) (t : Tunnel) {c : Claimed} (stale : ℕ) (name : Bytes)
      → claim hub.registry t ≡ ok c
      → t.session ≢ stale
      → let after : Hub P = record hub { registry = c.registry } in
        close_tunnel after t.subdomain stale name ≡ after
  unfolding close_tunnel replaced
  close_tunnel_stale hub t {c} stale name e other =
      let taken : replaced c.registry t.subdomain stale ≡ true =
        ground (arith, get-claim hub.registry t t.subdomain e, eq_refl t.subdomain) in
      rw (release-claim_stale hub.registry t stale e other) (
        ap (λ l. record hub { registry = c.registry; lan = l })
          (kept_lan hub.lan name (replaced c.registry t.subdomain stale) taken))

  record_of_closed :
      (l : Option (LanManager P)) (drop : Bool) (name other : Bytes)
      → record_of
          (elim l [ none ↦ none | some lm ↦ some (if drop then (delete_a P lm name).0 else lm) ])
          other
        ≡ (if drop && (name == other) then none else record_of l other)
  record_of_closed none drop name other = ground arith
  record_of_closed (some lm) drop name other = ground (arith, lookup-delete_a lm name other)

  -- The name that is held is the tunnel's, or the record is gone.
  held_name_told :
      (on : Listeners) (hub : Hub P) (c : Claimed) (cert : Option (Bytes × Bytes)) (t : Tunnel)
      → ((open_tunnel on hub c cert t).1.lan ≡ none)
        ⊎ (held_name (open_tunnel on hub c cert t).1 ≡ t.lan_hostname)
  unfolding open_tunnel answer held_name
  held_name_told on hub c cert t = ground arith

  open_tunnel-registry :
      (on : Listeners) (hub : Hub P) (c : Claimed) (cert : Option (Bytes × Bytes)) (t : Tunnel)
      → (open_tunnel on hub c cert t).0.registry ≡ c.registry
  unfolding open_tunnel
  open_tunnel-registry on hub c cert t = refl

  -- When a session that holds a tunnel ends, the tunnel is gone and the manager remembers no record of
  -- its LAN name, whatever became of the record at the start.
  pub close_tunnel-open_tunnel :
      (on : Listeners) (hub : Hub P) (c : Claimed) (cert : Option (Bytes × Bytes)) (t : Tunnel)
      {lm : LanManager P}
      → claim hub.registry t ≡ ok c
      → hub.lan ≡ some lm
      → (t.lan_hostname == []) ≡ false
      → t.lan_hostname ≡ lan_name lm.public_host t.subdomain
      → let (up, resp) = open_tunnel on hub c cert t in
        let down = close_tunnel up t.subdomain t.session (held_name resp) in
        (get down.registry t.subdomain ≡ none) × (record_of down.lan t.lan_hostname ≡ none)
  unfolding close_tunnel
  close_tunnel-open_tunnel on hub c cert t {lm} made e n name =
      let (up, resp) = open_tunnel on hub c cert t in
      let live : get up.registry t.subdomain ≡ some t = ground (
        arith,
        open_tunnel-registry on hub c cert t,
        get-claim hub.registry t t.subdomain made,
        eq_refl t.subdomain,
      ) in
      let (gone, mine) = release_gone up.registry t.subdomain t.session live refl in
      let held = held_name resp in
      let drop = not (held == []) && not (replaced up.registry t.subdomain t.session) in
      (
        gone,
        ground (
          arith,
          record_of_closed up.lan drop held t.lan_hostname,
          open_tunnel-record_of on hub c cert t e n name,
          held_name_told on hub c cert t,
          mine,
          n,
          eq_refl t.lan_hostname,
        ),
      )
