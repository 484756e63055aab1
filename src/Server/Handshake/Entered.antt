-- ===== src/Server/Handshake/Entered.antt =====
-- What a client that got its tunnel has shown.
use mygrok.Base.{
  ◌≡◌, refl, true, false, ◌||◌, List, [], some, Bytes, codes, ◌==◌, eq_refl, member, to_lower,
  trim_space, has_suffix, arith, Option-cases, Bool-cases, inl, inr,
}
use mygrok.Base.Error.{ok, Result-cases}
use mygrok.Server.Names.{valid_subdomain, reserved, normalize_hostnames}
use mygrok.Server.Names.Labels.{IsLabel, valid_subdomain-IsLabel}
use mygrok.Server.Names.Hosts.{IsNormal, normalize_hostnames-IsNormal}
use mygrok.Server.Registry.{Tunnel, Registry, Claimed, claim, get}
use mygrok.Server.Registry.Takeover.{get-claim}
use mygrok.Server.Handshake.{
  Hello, Settings, Wire, lan_request, entrant, enter_claim, enter_hosts, enter,
}

-- A tunnel of the table that a client has entered.
pub record IsEntered (cfg : Settings) (hello : Hello) (wire : Wire) (r : Registry) (c : Claimed)
    : Type 0 where
  pub tunnel : Tunnel
  pub authentic : (hello.auth == cfg.auth_token) ≡ true
  pub named : tunnel.subdomain ≡ to_lower (trim_space hello.subdomain)
  pub label : IsLabel tunnel.subdomain
  pub free : member tunnel.subdomain reserved ≡ false
  pub normal : IsNormal (to_lower cfg.public_host) [] hello.hostnames tunnel.hostnames
  pub private : ((tunnel.lan_hostname == []) || cfg.is_rfc1918 tunnel.lan_ip) ≡ true
  pub session : tunnel.session ≡ wire.session
  pub claimed : claim r tunnel ≡ ok c
  pub live : get c.registry tunnel.subdomain ≡ some tunnel

lan_request_private :
    (cfg : Settings) (sub lan_ip : Bytes) {l : Bytes × Bytes}
    → lan_request cfg sub lan_ip ≡ ok l
    → ((l.1 == []) || cfg.is_rfc1918 l.0) ≡ true
unfolding lan_request ◌==◌
lan_request_private cfg sub lan_ip {l} e = elim (Option-cases cfg.lan) [
  | inl p ↦ ground arith
  | inr (lan_host, p) ↦ elim (Bool-cases (lan_ip == [])) [
    | inl q ↦ ground arith
    | inr q ↦ elim (Bool-cases (cfg.is_rfc1918 lan_ip)) [
      | inr n ↦ absurd (ground arith)
      | inl n ↦ elim (Bool-cases (has_suffix sub (codes "-lan"))) [
        | inl k ↦ absurd (ground arith)
        | inr k ↦ ground arith
      ]
    ]
  ]
]

enter_guards :
    (cfg : Settings) (hello : Hello) (wire : Wire) (r : Registry) {c : Claimed}
    → enter cfg hello wire r ≡ ok c
    → let sub = to_lower (trim_space hello.subdomain) in
      ((hello.auth == cfg.auth_token) ≡ true)
      × (valid_subdomain sub ≡ true)
      × (member sub reserved ≡ false)
      × (enter_hosts cfg hello wire r sub ≡ ok c)
unfolding enter
enter_guards cfg hello wire r e = (ground arith, ground arith, ground arith, ground arith)

enter_hosts_parts :
    (cfg : Settings) (hello : Hello) (wire : Wire) (r : Registry) (sub : Bytes) {c : Claimed}
    → enter_hosts cfg hello wire r sub ≡ ok c
    → (hs : List Bytes) × (l : Bytes × Bytes) × (normalize_hostnames hello.hostnames cfg.public_host
        ≡ ok hs)
      × (lan_request cfg sub hello.lan_ip ≡ ok l)
      × (enter_claim hello wire r sub hs l ≡ ok c)
unfolding enter_hosts
enter_hosts_parts cfg hello wire r sub e =
    elim (Result-cases (normalize_hostnames hello.hostnames cfg.public_host)) [
      | inl (d, p) ↦ absurd (ground arith)
      | inr (hs, p) ↦ elim (Result-cases (lan_request cfg sub hello.lan_ip)) [
        | inl (d, q) ↦ absurd (ground arith)
        | inr (l, q) ↦ (hs, l, p, q, ground arith)
      ]
    ]

enter_claim_made :
    (hello : Hello) (wire : Wire) (r : Registry) (sub : Bytes) (hs : List Bytes) (l : Bytes × Bytes)
    {c : Claimed}
    → enter_claim hello wire r sub hs l ≡ ok c
    → claim r (entrant hello wire sub hs l) ≡ ok c
unfolding enter_claim
enter_claim_made hello wire r sub hs (lan_ip, lan_hostname) e =
    elim (Result-cases (claim r (entrant hello wire sub hs (lan_ip, lan_hostname)))) [
      | inl (d, p) ↦ absurd (ground arith)
      | inr (a, p) ↦ ground arith
    ]

-- A client whose hello is accepted has shown the token, and its tunnel is live under its session: a
-- subdomain that is a DNS label and not reserved, custom hosts in normal form outside the zone, and
-- a LAN host name only together with a private address.
pub enter-IsEntered :
    (cfg : Settings) (hello : Hello) (wire : Wire) (r : Registry) {c : Claimed}
    → enter cfg hello wire r ≡ ok c
    → IsEntered cfg hello wire r c
enter-IsEntered cfg hello wire r {c} e =
    let sub = to_lower (trim_space hello.subdomain) in
    let (auth, valid, free, rest) = enter_guards cfg hello wire r e in
    let (hs, l, normal, lan, made) = enter_hosts_parts cfg hello wire r sub rest in
    let t = entrant hello wire sub hs l in
    let done = enter_claim_made hello wire r sub hs l made in
    record {
      tunnel = t;
      authentic = auth;
      named = refl;
      label = (valid_subdomain-IsLabel sub).0 valid;
      free = free;
      normal = normalize_hostnames-IsNormal hello.hostnames cfg.public_host normal;
      private = lan_request_private cfg sub hello.lan_ip lan;
      session = refl;
      claimed = done;
      live = ground (arith, get-claim r t sub done, eq_refl sub);
    }
