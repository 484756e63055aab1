-- ===== src/Server/Handshake/Withdrawn.antt =====
-- The zone of the DNS provider from the start of a tunnel with a LAN name to its end, through
-- `UpsertA` and `DeleteA` of cmd/mygrokd/lan.go as `handleTunnelConn` of main.go calls them.
use mygrok.Base.{
  ℕ, ◌≡◌, refl, sym, ap, ◌∙◌, subst, Bool, false, not, ◌&&◌, ◌||◌, [], Option, none, some, Bytes,
  ◌==◌, if◌then◌else◌, eq_iff, eq_refl, ◌⊎◌, inl, inr, arith, Bool-cases, Option-cases,
}
use mygrok.Base.Error.{ok}
use mygrok.Base.Dict.{lookup, lookup-insert}
use mygrok.Server.Registry.{Tunnel, Claimed, claim, get}
use mygrok.Server.Lan.{Provider, Addr, LanManager, relative_name, upsert_a, delete_a}
use mygrok.Server.Handshake.{lan_name}
use mygrok.Server.Handshake.Session.{
  Listeners, Hub, drop_preempted, publish, offer, open_tunnel, held_name, replaced, close_tunnel,
}
use mygrok.Server.Handshake.Ending.{record_of, lookup-delete_a, close_tunnel-open_tunnel}

abbrev pub is_at : Option Bytes → Bytes → Bool
is_at none ip = false
is_at (some held) ip = held == ip

-- What a provider documents of the A records of its zone, `find` being what the zone answers for a
-- name: a record that was set is the only one of its name, and one that is to go goes if it has
-- the address given. This one carries out every deletion.
pub record IsServing (P : Provider) (find : P.Zone → Bytes → Option Bytes) : Type 0 where
  pub sets :
      (z : P.Zone) (name ip : Bytes) {z' : P.Zone}
      → P.set_record z name ip ≡ some z'
      → (m : Bytes) → find z' m ≡ (if name == m then some ip else find z m)
  pub deletes :
      (z : P.Zone) (name ip : Bytes)
      → (z' : P.Zone) × (P.delete_record z name ip ≡ some z')
        × ((m : Bytes)
            → find z' m ≡ (if (name == m) && is_at (find z m) ip then none else find z m))

module _ {P : Provider} (find : P.Zone → Bytes → Option Bytes) where
  -- What the zone answers for a host name.
  abbrev pub published : LanManager P → Bytes → Option Bytes
  published lm name = find lm.zone (relative_name P lm name)

  abbrev pub published_by : Option (LanManager P) → Bytes → Option Bytes
  published_by none name = none
  published_by (some lm) name = published lm name

  -- The zone has no record of a name but the one that the manager remembers.
  pub data IsTracked (lm : LanManager P) (name : Bytes) : Type 0 where
    unknown : lookup name lm.active ≡ none → published lm name ≡ none → IsTracked lm name
    known :
        {ip : Bytes} {a : Addr}
        → lookup name lm.active ≡ some ip
        → P.parse_addr ip ≡ some a
        → (published lm name ≡ none) ⊎ (published lm name ≡ some ip)
        → IsTracked lm name

  module _ (laws : IsServing P find) where
    delete_a-published :
        (lm : LanManager P) (other name : Bytes)
        → (published (delete_a P lm other).0 name ≡ published lm name)
          ⊎ (published (delete_a P lm other).0 name ≡ none)
    unfolding delete_a relative_name
    delete_a-published lm other name = elim (Option-cases (lookup other lm.active)) [
      | inl p ↦ rw (p, delete_a) (inl refl)
      | inr (ip, p) ↦ elim (Option-cases (P.parse_addr ip)) [
        | inl q ↦ rw (p, delete_a) (rw (q, delete_a) (inl refl))
        | inr (a, q) ↦
            let (z, done, law) = laws.deletes lm.zone (relative_name P lm other) ip in
            let now = law (relative_name P lm name) in
            rw (p, delete_a) (rw (q, delete_a) (rw (done, delete_a) (ground (arith, now))))
      ]
    ]

    delete_a_own :
        (lm : LanManager P) (name : Bytes) {ip : Bytes} {a : Addr}
        → lookup name lm.active ≡ some ip
        → P.parse_addr ip ≡ some a
        → (published lm name ≡ none) ⊎ (published lm name ≡ some ip)
        → published (delete_a P lm name).0 name ≡ none
    unfolding delete_a relative_name
    delete_a_own lm name {ip} p q held =
        let (z, done, law) = laws.deletes lm.zone (relative_name P lm name) ip in
        let now = law (relative_name P lm name) in
        rw (p, delete_a)
          (rw (q, delete_a)
            (rw (done, delete_a)
              (ground (arith, now, held, eq_refl ip, eq_refl (relative_name P lm name)))))

    delete_a-IsTracked :
        (lm : LanManager P) (other name : Bytes)
        → IsTracked lm name
        → IsTracked (delete_a P lm other).0 name
    delete_a-IsTracked lm other name (unknown p q) =
        unknown (ground (arith, lookup-delete_a lm other name, p))
          (ground (arith, delete_a-published lm other name, q))
    delete_a-IsTracked lm other name (known {ip} p q held) = elim (Bool-cases (other == name)) [
      | inl e ↦
          let same : other ≡ name = (eq_iff other name).0 e in
          unknown (ground (arith, lookup-delete_a lm other name, e)) (
            subst (λ o. published (delete_a P lm o).0 name ≡ none) (sym same)
              (delete_a_own lm name p q held))
      | inr e ↦
          known {ip = ip} (ground (arith, lookup-delete_a lm other name, e, p)) q
            (ground (arith, delete_a-published lm other name, held))
    ]

    upsert_a-IsTracked :
        (lm : LanManager P) (name ip : Bytes)
        → IsTracked lm name
        → IsTracked (upsert_a P lm name ip).0 name
    unfolding upsert_a relative_name
    upsert_a-IsTracked lm name ip h = elim (Option-cases (P.parse_addr ip)) [
      | inl p ↦ rw (p, upsert_a) h
      | inr (a, p) ↦ elim (Bool-cases a.is4) [
        | inr q ↦ rw (p, upsert_a) (rw (q, upsert_a) h)
        | inl q ↦ elim (Option-cases (P.set_record lm.zone (relative_name P lm name) ip)) [
          | inl r ↦ rw (p, upsert_a) (rw (q, upsert_a) (rw (r, upsert_a) h))
          | inr (z, r) ↦
              let now =
                laws.sets lm.zone (relative_name P lm name) ip r (relative_name P lm name) in
              rw (p, upsert_a)
                (rw (q, upsert_a)
                  (rw (r, upsert_a)
                    (known {ip = ip}
                      (ground (arith, lookup-insert name name ip lm.active, eq_refl name)) p
                      (inr (ground (arith, now, eq_refl (relative_name P lm name)))))))
        ]
      ]
    ]

    drop_preempted-IsTracked :
        (lm : LanManager P) (old : Option Tunnel) (t : Tunnel) (name : Bytes)
        → IsTracked lm name
        → IsTracked (drop_preempted lm old t) name
    unfolding drop_preempted
    drop_preempted-IsTracked lm none t name h = h
    drop_preempted-IsTracked lm (some old) t name h =
        elim (Bool-cases (
          not (old.lan_hostname == [])
          && ((t.lan_hostname == []) || not (old.lan_ip == t.lan_ip)))) [
            | inl p ↦ rw p (delete_a-IsTracked lm old.lan_hostname name h)
            | inr p ↦ rw p h
          ]

    publish-IsTracked :
        (lm : LanManager P) (cert : Option (Bytes × Bytes)) (t : Tunnel)
        → IsTracked lm t.lan_hostname
        → IsTracked (publish lm cert t).0 t.lan_hostname
    unfolding publish
    publish-IsTracked lm cert t h =
        let up = (upsert_a P lm t.lan_hostname t.lan_ip).0 in
        let set = upsert_a-IsTracked lm t.lan_hostname t.lan_ip h in
        let down = delete_a-IsTracked up (lan_name lm.public_host t.subdomain) t.lan_hostname set in
        elim (Bool-cases (t.lan_hostname == [])) [
          | inl n ↦ rw (n, publish) h
          | inr n ↦ elim (Option-cases (upsert_a P lm t.lan_hostname t.lan_ip).1) [
            | inr (d, p) ↦ rw (n, publish) (rw (p, publish) down)
            | inl p ↦ elim (Option-cases cert) [
              | inl q ↦ rw (n, publish) (rw (p, publish) (rw (q, publish) down))
              | inr (c, q) ↦ rw (n, publish) (rw (p, publish) (rw (q, publish) set))
            ]
          ]
        ]

    -- A name that is tracked and has no entry has no record.
    untracked :
        (lm : LanManager P) (name : Bytes)
        → IsTracked lm name
        → lookup name lm.active ≡ none
        → published lm name ≡ none
    untracked lm name (unknown p q) e = q
    untracked lm name (known p q held) e = absurd (ground (arith, p, e))

    offer-IsTracked :
        (lm : LanManager P) (c : Claimed) (cert : Option (Bytes × Bytes)) (t : Tunnel)
        → IsTracked lm t.lan_hostname
        → (up : LanManager P) × ((offer (some lm) c cert t).0 ≡ some up)
          × IsTracked up t.lan_hostname
    unfolding offer
    offer-IsTracked lm c cert t h =
        let lm' = drop_preempted lm c.preempted t in
        (
          (publish lm' cert t).0,
          refl,
          publish-IsTracked lm' cert t (drop_preempted-IsTracked lm c.preempted t t.lan_hostname h),
        )

    open_tunnel-lan :
        (on : Listeners) (hub : Hub P) (c : Claimed) (cert : Option (Bytes × Bytes)) (t : Tunnel)
        → (open_tunnel on hub c cert t).0.lan ≡ (offer hub.lan c cert t).0
    unfolding open_tunnel
    open_tunnel-lan on hub c cert t = refl

    close_tunnel-lan :
        (hub : Hub P) (sub : Bytes) (sess : ℕ) (held name : Bytes) {lm : LanManager P}
        → hub.lan ≡ some lm
        → IsTracked lm name
        → (end : LanManager P) × ((close_tunnel hub sub sess held).lan ≡ some end)
          × IsTracked end name
    unfolding close_tunnel
    close_tunnel-lan hub sub sess held name {lm} e h =
        elim (Bool-cases (not (held == []) && not (replaced hub.registry sub sess))) [
          | inl p ↦ ((delete_a P lm held).0, rw (e, p) refl, delete_a-IsTracked lm held name h)
          | inr p ↦ (lm, rw (e, p) refl, h)
        ]

    -- When a session that holds a tunnel ends, the tunnel is gone, the manager remembers no record of
    -- its LAN name, and the zone of the DNS provider has none, whatever became of the record at the
    -- start and whatever the tunnel was that this one replaced. The provider carries out every
    -- deletion, and at the start its zone has no record of the name but the one that the manager
    -- remembers.
    pub close_tunnel-published :
        (on : Listeners) (hub : Hub P) (c : Claimed) (cert : Option (Bytes × Bytes)) (t : Tunnel)
        {lm : LanManager P}
        → claim hub.registry t ≡ ok c
        → hub.lan ≡ some lm
        → (t.lan_hostname == []) ≡ false
        → t.lan_hostname ≡ lan_name lm.public_host t.subdomain
        → IsTracked lm t.lan_hostname
        → let (up, resp) = open_tunnel on hub c cert t in
          let down = close_tunnel up t.subdomain t.session (held_name resp) in
          (get down.registry t.subdomain ≡ none)
          × (record_of down.lan t.lan_hostname ≡ none)
          × (published_by down.lan t.lan_hostname ≡ none)
    close_tunnel-published on hub c cert t {lm} made e n name h =
        let (up, resp) = open_tunnel on hub c cert t in
        let (gone, forgotten) = close_tunnel-open_tunnel on hub c cert t made e n name in
        let (lm', is_up, tracked) = offer-IsTracked lm c cert t h in
        let live : up.lan ≡ some lm' =
          open_tunnel-lan on hub c cert t ∙ ap (λ l. (offer l c cert t).0) e ∙ is_up in
        let (end, is_end, left) =
          close_tunnel-lan up t.subdomain t.session (held_name resp) t.lan_hostname live tracked in
        (
          gone,
          forgotten,
          rw is_end (
              untracked end t.lan_hostname left
                (ap (λ l. record_of l t.lan_hostname) (sym is_end) ∙ forgotten)),
        )
