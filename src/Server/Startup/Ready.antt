-- ===== src/Server/Startup/Ready.antt =====
-- What a server that has started has checked, and what then holds for as long as it runs.
use mygrok.Base.{
  ◌≡◌, refl, Bool, true, false, not, ◌&&◌, ◌||◌, List, [], Option, none, some, Bytes, codes, ◌==◌,
  arith, has_prefix, all, to_lower, trim_space, Bool-cases, inl, inr,
}
use mygrok.Base.Dots.{trim_dots, trim_dots_idem}
use mygrok.Base.Error.{ok, Result-cases}
use mygrok.Server.Acl.{Net, Acl}
use mygrok.Server.Passkeys.{WebAuthn}
use mygrok.Server.Startup.{
  Options, Machine, has_dns, or_env, public_host_of, build_dns_provider, cert_domains_of, lan_host,
  setup_tls, open_https, open_rules, open_others, Started, start_checked, start,
}
use mygrok.Server.Startup.Certificates.{present, check_domains-plain}

-- No name asks for a wildcard.
abbrev pub plain : Option (List Bytes) → Bool
plain none = true
plain (some ds) = all (λ d. not (has_prefix d (codes "*."))) ds

module _ {N : Net} {W : WebAuthn} (o : Options) (m : Machine W) where
  pub record IsChecked (s : Started N W) (auth_token public_host : Bytes) : Type 0 where
    token : s.auth_token ≡ auth_token
    name : s.public_host ≡ public_host
    pub rules : (a : Acl N) × (open_rules o m ≡ ok a) × (open_others o m public_host a ≡ ok s.host)
    https : open_https o m public_host (has_dns s.dns) ≡ ok s.domains
    direct : lan_host o.lan_enabled (has_dns s.dns) public_host ≡ ok s.lan

  start_checked-IsChecked :
      (auth_token public_host : Bytes) {s : Started N W}
      → start_checked o m auth_token public_host ≡ ok s
      → IsChecked s auth_token public_host
  unfolding start_checked
  start_checked-IsChecked auth_token public_host {s} e =
      elim (Result-cases (open_rules {N = N} o m)) [
        | inl (d, p) ↦ absurd (ground arith)
        | inr (a, p) ↦ elim (Result-cases (open_others o m public_host a)) [
          | inl (d, q) ↦ absurd (ground arith)
          | inr (h, q) ↦ elim (Result-cases (build_dns_provider m.getenv o.dns_provider)) [
            | inl (d, u) ↦ absurd (ground arith)
            | inr (dns, u) ↦
                elim (Result-cases (lan_host o.lan_enabled (has_dns dns) public_host)) [
                  | inl (d, v) ↦ absurd (ground arith)
                  | inr (lan, v) ↦ elim (Result-cases (open_https o m public_host (has_dns dns))) [
                    | inl (d, w) ↦ absurd (ground arith)
                    | inr (domains, w) ↦ record {
                      token = ground arith;
                      name = ground arith;
                      rules = (a, p, ground arith);
                      https = ground arith;
                      direct = ground arith;
                    }
                  ]
                ]
          ]
        ]
      ]

-- What the flags have been checked for. Without a DNS provider there is no wildcard and no LAN
-- zone.
pub record IsReady {N : Net} {W : WebAuthn} (o : Options) (s : Started N W) : Type 0 where
  pub guarded : (s.auth_token == []) ≡ false
  pub hosted : (s.public_host == []) ≡ false
  pub undotted : trim_dots s.public_host ≡ s.public_host
  pub listening : ((o.http_addr == []) && (o.https_addr == [])) ≡ false
  pub wildcards : (has_dns s.dns || plain s.domains) ≡ true
  pub direct : (has_dns s.dns || not (present s.lan)) ≡ true

module _ {W : WebAuthn} (o : Options) (m : Machine W) where
  open_https-plain :
      (public_host : Bytes) (dns : Bool) {d : Option (List Bytes)}
      → open_https o m public_host dns ≡ ok d
      → (dns || plain d) ≡ true
  unfolding open_https setup_tls
  open_https-plain public_host true e = refl
  open_https-plain public_host false {d} e = elim (Bool-cases (o.https_addr == [])) [
    | inl p ↦ ground arith
    | inr p ↦ elim (Result-cases (setup_tls o.cert_domains public_host false m.makes_cert_dir)) [
      | inl (b, q) ↦ absurd (ground arith)
      | inr (ds, q) ↦
          let free =
            check_domains-plain m.makes_cert_dir (cert_domains_of o.cert_domains public_host false)
              q in
          ground arith
    ]
  ]

  lan_host-dns :
      (dns : Bool) (public_host : Bytes) {l : Option Bytes}
      → lan_host o.lan_enabled dns public_host ≡ ok l
      → (dns || not (present l)) ≡ true
  unfolding lan_host
  lan_host-dns dns public_host e = ground arith

module _ {N : Net} {W : WebAuthn} (o : Options) (m : Machine W) where
  pub start-parts :
      {s : Started N W}
      → start o m ≡ ok s
      → let token = or_env o.auth_token (m.getenv (codes "MYGROK_AUTHTOKEN")) in
        let host = public_host_of m.getenv o.public_host in
        ((token == []) ≡ false)
        × ((host == []) ≡ false)
        × (((o.http_addr == []) && (o.https_addr == [])) ≡ false)
        × IsChecked o m s token host
  unfolding start
  start-parts {s} e =
      let token = or_env o.auth_token (m.getenv (codes "MYGROK_AUTHTOKEN")) in
      let host = public_host_of m.getenv o.public_host in
      (
        ground arith,
        ground arith,
        ground arith,
        start_checked-IsChecked o m token host (ground arith),
      )

  -- A server that starts has a token and a public host with no dot at an end, listens somewhere, and
  -- asks for a wildcard certificate and writes LAN records only with a DNS provider.
  pub start-IsReady : {s : Started N W} → start o m ≡ ok s → IsReady o s
  unfolding public_host_of
  start-IsReady {s} e =
      let (t, h, l, c) = start-parts e in
      let host = public_host_of m.getenv o.public_host in
      record {
        guarded = rw c.token t;
        hosted = rw c.name h;
        undotted = rw c.name (
            trim_dots_idem (
              to_lower
                (trim_space (or_env o.public_host (m.getenv (codes "MYGROK_PUBLIC_HOST"))))));
        listening = l;
        wildcards = open_https-plain o m host (has_dns s.dns) c.https;
        direct = lan_host-dns o m (has_dns s.dns) host c.direct;
      }
