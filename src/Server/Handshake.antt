-- ===== src/Server/Handshake.antt =====
-- The entry of a client: `handleTunnelConn` of cmd/mygrokd/main.go from the hello, once it is read,
-- to the claim. The test of a private address (package netip), the bytes that wait after the hello
-- and whether yamux starts are arguments. A session is a number.
pub mod Entered
pub mod Session
pub mod Ending
pub mod Withdrawn
use mygrok.Base.{
  ℕ, Bool, true, false, not, ◌||◌, List, [], ◌++◌, Option, none, some, Bytes, codes, ◌==◌, eqb,
  if◌then◌else◌, member, to_lower, trim_space, has_suffix,
}
use mygrok.Base.Error.{Result, ok, err}
use mygrok.Server.Names.{HostError, valid_subdomain, reserved, normalize_hostnames}
use mygrok.Server.Registry.{Tunnel, Registry, ClaimError, Claimed, claim}

-- The fields of `proto.Hello` that the server reads.
pub record Hello : Type 0 where
  pub auth : Bytes
  pub subdomain : Bytes
  pub client_id : Bytes
  pub hostnames : List Bytes
  pub lan_ip : Bytes

-- The flags, and the public host of the LAN manager if there is one.
pub record Settings : Type 0 where
  pub auth_token : Bytes
  pub public_host : Bytes
  pub lan : Option Bytes
  pub is_rfc1918 : Bytes → Bool

-- What the connection brings along.
pub record Wire : Type 0 where
  pub buffered : ℕ
  pub yamux_starts : Bool
  pub session : ℕ
  pub public_ip : Bytes
  pub now : ℕ

pub data HelloError : Type 0 where
  bad_auth bad_subdomain unexpected_bytes no_session lan_ip_not_private lan_suffix : HelloError
  bad_hostnames : HostError → HelloError
  refused : ClaimError → HelloError

-- `LANHostname`
unfoldable pub lan_name : Bytes → Bytes → Bytes
lan_name lan_host sub = sub ++ (codes "-lan." ++ lan_host)

-- The LAN address and host name of the tunnel, both empty where the client asks for none.
unfoldable pub lan_request : Settings → Bytes → Bytes → Result HelloError (Bytes × Bytes)
lan_request cfg sub lan_ip = elim cfg.lan [
  | none ↦ ok ([], [])
  | some lan_host ↦
      if lan_ip == []
      then ok ([], [])
      else if not (cfg.is_rfc1918 lan_ip)
      then err lan_ip_not_private
      else if has_suffix sub (codes "-lan")
      then err lan_suffix
      else ok (lan_ip, lan_name lan_host sub)
]

-- The tunnel to be claimed, with the LAN address and host name.
abbrev pub entrant : Hello → Wire → Bytes → List Bytes → Bytes × Bytes → Tunnel
entrant hello wire sub hostnames lan = record {
  subdomain = sub;
  session = wire.session;
  client_id = hello.client_id;
  hostnames = hostnames;
  created = wire.now;
  public_ip = wire.public_ip;
  lan_ip = lan.0;
  lan_hostname = lan.1;
}

unfoldable pub enter_claim :
    Hello → Wire → Registry → Bytes → List Bytes → Bytes × Bytes → Result HelloError Claimed
enter_claim hello wire r sub hostnames lan = elim (claim r (entrant hello wire sub hostnames lan)) [
  | err e ↦ err (refused e)
  | ok c ↦ ok c
]

unfoldable pub enter_hosts : Settings → Hello → Wire → Registry → Bytes → Result HelloError Claimed
enter_hosts cfg hello wire r sub = elim (normalize_hostnames hello.hostnames cfg.public_host) [
  | err e ↦ err (bad_hostnames e)
  | ok hostnames ↦ elim (lan_request cfg sub hello.lan_ip) [
    | err e ↦ err e
    | ok lan ↦ enter_claim hello wire r sub hostnames lan
  ]
]

-- The handler up to the claim.
unfoldable pub enter : Settings → Hello → Wire → Registry → Result HelloError Claimed
enter cfg hello wire r =
    let sub = to_lower (trim_space hello.subdomain) in
    if not (hello.auth == cfg.auth_token)
    then err bad_auth
    else if not (valid_subdomain sub) || member sub reserved
    then err bad_subdomain
    else if not (eqb wire.buffered 0)
    then err unexpected_bytes
    else if not wire.yamux_starts
    then err no_session
    else enter_hosts cfg hello wire r sub
