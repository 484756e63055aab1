-- ===== src/Server/Startup.antt =====
-- The start of the server: `main` and `setupTLS` of cmd/mygrokd/main.go up to the listeners, with
-- `buildDNSProvider` and `defaultCertDomains` of dnsprovider.go. What ends in `log.Fatal` is an
-- error. certmagic and the providers' clients are left out, but for the decision that the server
-- makes for them; the environment and the disk are the record `Machine`.
pub mod Certificates
pub mod Ready
pub mod Running
use mygrok.Base.{
  ℕ, Bool, true, false, not, ◌&&◌, ◌||◌, List, [], ◌∷◌, ◌++◌, Option, none, some, Bytes, codes,
  ◌==◌, eqb, if◌then◌else◌, to_lower, trim_space, has_prefix, has_suffix, split, member,
}
use mygrok.Base.Dots.{trim_dots}
use mygrok.Base.Error.{Result, ok, err, ◌>>=◌}
use mygrok.Server.Disk.{Io}
use mygrok.Server.Names.{subdomain_of, is_management_host}
use mygrok.Server.Registry.{Registry, new_registry, get, host_known}
use mygrok.Server.Acl.{Net, Acl, AclFile, AclError}
use mygrok.Server.Acl.Load.{load}
use mygrok.Server.Locks.{LocksFile, new_tunnel_locks}
use mygrok.Server.Passkeys.{WebAuthn, PasskeyFile}
use mygrok.Server.Passkeys.Store.{new_passkey_store}
use mygrok.Server.Invites.{Invite, new_invite_store}
use mygrok.Server.Lan.{trim_suffix}
use mygrok.Server.Manage.{Host}

-- The flags that the start reads.
pub record Options : Type 0 where
  pub auth_token : Bytes
  pub public_host : Bytes
  pub http_addr : Bytes
  pub https_addr : Bytes
  pub dns_provider : Bytes
  pub cert_domains : Bytes
  pub lan_enabled : Bool
  pub ip_list_path : Bytes
  pub passkeys_path : Bytes
  pub tunnel_locks_path : Bytes
  pub invites_path : Bytes

-- The environment, the clock and the disk; `none` is a file that does not exist, and `readable`
-- says whether the file at a path can be read and parsed where it exists. `builds_web_authn` is
-- webauthn.New on the public host, and `makes_cert_dir` is os.MkdirAll.
pub record Machine (W : WebAuthn) : Type 0 where
  pub getenv : Bytes → Bytes
  pub now : ℕ
  pub io : Io
  pub readable : Bytes → Bool
  pub acl_file : Option AclFile
  pub passkey_file : Option (PasskeyFile W)
  pub locks_file : Option LocksFile
  pub invites_file : Option (List Invite)
  pub builds_web_authn : Bytes → Bool
  pub makes_cert_dir : Bool

pub data StartError : Type 0 where
  no_auth_token no_public_host no_listener no_web_authn lan_needs_dns : StartError
  no_cert_domains no_cert_dir : StartError
  bad_file token_not_set unknown_provider needs_wildcard : Bytes → StartError
  bad_rules : AclError → StartError

pub data DnsProvider : Type 0 where
  route53 : DnsProvider
  cloudflare digitalocean : Bytes → DnsProvider

-- A flag, or the environment where it is empty.
abbrev pub or_env : Bytes → Bytes → Bytes
or_env flag env = if flag == [] then env else flag

unfoldable pub public_host_of : (Bytes → Bytes) → Bytes → Bytes
public_host_of getenv flag =
    trim_dots (to_lower (trim_space (or_env flag (getenv (codes "MYGROK_PUBLIC_HOST")))))

unfoldable pub with_token :
    (Bytes → Bytes) → Bytes → (Bytes → DnsProvider) → Result StartError (Option DnsProvider)
with_token getenv var provider =
    let token = getenv var in
    if token == [] then err (token_not_set var) else ok (some (provider token))

unfoldable pub build_dns_provider : (Bytes → Bytes) → Bytes → Result StartError (Option DnsProvider)
unfolding with_token
build_dns_provider getenv name =
    let n = to_lower (trim_space name) in
    if (n == []) || ((n == codes "none") || (n == codes "off"))
    then ok none
    else if (n == codes "route53") || (n == codes "aws")
    then ok (some route53)
    else if n == codes "cloudflare"
    then with_token getenv (codes "CLOUDFLARE_API_TOKEN") cloudflare
    else if n == codes "digitalocean"
    then with_token getenv (codes "DO_AUTH_TOKEN") digitalocean
    else err (unknown_provider name)

abbrev pub has_dns : Option DnsProvider → Bool
has_dns none = false
has_dns (some p) = true

unfoldable pub default_cert_domains : Bytes → Bool → List Bytes
default_cert_domains public_host dns =
    if dns
    then (codes "*." ++ public_host) ∷ public_host ∷ []
    else (codes "tunnel." ++ public_host) ∷ []

-- The loop over `--cert-domains`.
unfoldable pub trimmed_domains : List Bytes → List Bytes
trimmed_domains [] = []
trimmed_domains (d ∷ ds) =
    let rest = trimmed_domains ds in if trim_space d == [] then rest else trim_space d ∷ rest

unfoldable pub cert_domains_of : Bytes → Bytes → Bool → List Bytes
unfolding default_cert_domains trimmed_domains
cert_domains_of flag public_host dns =
    if flag == [] then default_cert_domains public_host dns else trimmed_domains (split b',' flag)

-- The loop that refuses a wildcard without a DNS provider.
unfoldable pub refuse_wildcard : Bool → List Bytes → Option Bytes
refuse_wildcard dns [] = none
refuse_wildcard dns (d ∷ ds) =
    let rest = refuse_wildcard dns ds in
    if has_prefix d (codes "*.") && not dns then some d else rest

unfoldable pub check_domains : Bool → Bool → List Bytes → Result StartError (List Bytes)
unfolding refuse_wildcard
check_domains dns makes_cert_dir [] = err no_cert_domains
check_domains dns makes_cert_dir (d ∷ ds) = elim (refuse_wildcard dns (d ∷ ds)) [
  | some w ↦ err (needs_wildcard w)
  | none ↦ if makes_cert_dir then ok (d ∷ ds) else err no_cert_dir
]

-- `setupTLS`: the names to get certificates for.
unfoldable pub setup_tls : Bytes → Bytes → Bool → Bool → Result StartError (List Bytes)
unfolding cert_domains_of check_domains
setup_tls flag public_host dns makes_cert_dir =
    check_domains dns makes_cert_dir (cert_domains_of flag public_host dns)

-- `DecisionFunc`: whether a certificate is ordered for a name that a client has sent.
unfoldable pub may_issue : Bytes → Bool → Registry → Bytes → Bool
may_issue public_host has_wildcard r name =
    let n = to_lower name in
    let sub = subdomain_of n public_host in
    if has_wildcard && ((n == public_host) || has_suffix n (b'.' ∷ public_host))
    then true
    else if is_management_host n public_host || (n == public_host)
    then true
    else if not (sub == []) && (elim (get r sub) [ none ↦ false | some t ↦ true ])
    then true
    else host_known r n

-- The address of the LAN manager's zone, where LAN-direct is on.
unfoldable pub lan_host : Bool → Bool → Bytes → Result StartError (Option Bytes)
lan_host lan_enabled dns public_host =
    if lan_enabled
    then if dns
      then ok (some (to_lower (trim_suffix public_host (codes "."))))
      else err lan_needs_dns
    else ok none

-- What the listeners share; `domains` is `none` where there is no HTTPS listener.
pub record Started (N : Net) (W : WebAuthn) : Type 0 where
  pub host : Host N W
  pub auth_token : Bytes
  pub public_host : Bytes
  pub dns : Option DnsProvider
  pub lan : Option Bytes
  pub domains : Option (List Bytes)

module _ {W : WebAuthn} (o : Options) (m : Machine W) where
  unfoldable pub open_https : Bytes → Bool → Result StartError (Option (List Bytes))
  unfolding setup_tls
  open_https public_host dns =
      if o.https_addr == []
      then ok none
      else elim (setup_tls o.cert_domains public_host dns m.makes_cert_dir) [
        | err e ↦ err e
        | ok domains ↦ ok (some domains)
      ]

module _ {N : Net} {W : WebAuthn} (o : Options) (m : Machine W) where
  unfoldable pub open_rules : Result StartError (Acl N)
  open_rules =
      if not (m.readable o.ip_list_path)
      then err (bad_file o.ip_list_path)
      else elim (load N o.ip_list_path m.acl_file m.io) [ err e ↦ err (bad_rules e) | ok a ↦ ok a ]

  -- The tables, opened in the order of `main`.
  unfoldable pub open_others : Bytes → Acl N → Result StartError (Host N W)
  open_others public_host acl =
      if not (m.readable o.passkeys_path)
      then err (bad_file o.passkeys_path)
      else if not (m.builds_web_authn public_host)
      then err no_web_authn
      else if not (m.readable o.tunnel_locks_path)
      then err (bad_file o.tunnel_locks_path)
      else if not (m.readable o.invites_path)
      then err (bad_file o.invites_path)
      else ok (record {
        registry = new_registry;
        acl = acl;
        locks = new_tunnel_locks o.tunnel_locks_path m.locks_file m.io;
        passkeys = new_passkey_store W o.passkeys_path m.passkey_file m.now m.io;
        invites = new_invite_store o.invites_path m.invites_file;
        admin = [];
      })

  unfoldable pub start_checked : Bytes → Bytes → Result StartError (Started N W)
  unfolding open_rules open_others open_https build_dns_provider lan_host
  start_checked auth_token public_host = do
    acl ← open_rules
    host ← open_others public_host acl
    dns ← build_dns_provider m.getenv o.dns_provider
    lan ← lan_host o.lan_enabled (has_dns dns) public_host
    domains ← open_https o m public_host (has_dns dns)
    ok (record {
      host = host;
      auth_token = auth_token;
      public_host = public_host;
      dns = dns;
      lan = lan;
      domains = domains;
    })

  -- `main`
  unfoldable pub start : Result StartError (Started N W)
  start =
      let auth_token = or_env o.auth_token (m.getenv (codes "MYGROK_AUTHTOKEN")) in
      let public_host = public_host_of m.getenv o.public_host in
      if auth_token == []
      then err no_auth_token
      else if public_host == []
      then err no_public_host
      else if (o.http_addr == []) && (o.https_addr == [])
      then err no_listener
      else start_checked auth_token public_host
