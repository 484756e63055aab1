-- ===== src/Server/Public.antt =====
-- A public connection, from its headers to the tunnel: `handlePublicConn` of cmd/mygrokd/main.go.
-- The answer is a value. What the other end and the libraries decide is a field of `World`; the
-- copying of bodies after the headers, and the pages' text, are left out.
pub mod Admitted
pub mod Changes
use mygrok.Base.{
  ℕ, Bool, true, false, not, ◌&&◌, ◌||◌, [], ◌++◌, Option, none, some, Bytes, codes, ◌==◌,
  if◌then◌else◌, to_lower, contains,
}
use mygrok.Base.Error.{Result, ok, err}
use mygrok.Server.Names.{strip_port, subdomain_of, is_management_host}
use mygrok.Server.Registry.{Registry, Tunnel, get, lookup_host, release}
use mygrok.Server.Acl.{Net, Acl, check}
use mygrok.Server.Locks.{Locks, is_locked, allows_user}
use mygrok.Server.Passkeys.{WebAuthn, PasskeyStore}
use mygrok.Server.Passkeys.Store.{has_credentials}
use mygrok.Server.Passkeys.Sessions.{session_user}
use mygrok.Server.Headers.{
  Headers, read_headers_and_host, inject_client_ip, parse_request_line,
  read_pk_session_from_cookies,
}

-- The flags of the server.
pub record Config : Type 0 where
  pub public_host : Bytes
  pub https_addr : Bytes

-- A connection: the bytes that it sends, its address without the port, and its listener.
pub record Conn : Type 0 where
  pub input : Bytes
  pub client_ip : Bytes
  pub is_tls : Bool

-- The clock, url.QueryEscape, and whether a session opens a stream and takes the headers.
pub record World : Type 0 where
  pub now : ℕ
  pub query_escape : Bytes → Bytes
  pub opens : ℕ → Bool
  pub writes : ℕ → Bool

-- What the server keeps.
pub record Site (N : Net) (W : WebAuthn) : Type 0 where
  pub registry : Registry
  pub acl : Acl N
  pub locks : Locks
  pub passkeys : PasskeyStore W

pub data Answer : Type 0 where
  bad_request management favicon dropped : Answer
  redirect_https redirect_lan redirect_login forbidden offline no_tunnel : Bytes → Answer
  evicted : Bytes → ℕ → Answer
  forwarded : ℕ → Bytes → Bytes → Answer

-- The subdomain and the tunnel that the host names.
unfoldable pub locate : Config → Registry → Bytes → Bytes → Bytes × Option Tunnel
locate cfg r host host_no_port =
    let sub = subdomain_of host cfg.public_host in
    if sub == []
    then elim (lookup_host r host_no_port) [ none ↦ (sub, none) | some t ↦ (t.subdomain, some t) ]
    else (sub, get r sub)

-- Where a visitor on the client's own network is sent.
unfoldable pub lan_redirect : Config → Conn → Headers → Bytes → Bytes → Option Tunnel → Option Bytes
lan_redirect cfg conn h host_no_port sub none = none
lan_redirect cfg conn h host_no_port sub (some t) =
    let uri = (parse_request_line h.raw).1 in
    let is_public_host =
      not (sub == []) && (host_no_port == (sub ++ (codes "." ++ cfg.public_host))) in
    if not (t.lan_hostname == []) && (not (t.public_ip == []) && (conn.client_ip == t.public_ip))
    then if conn.is_tls && (is_public_host && not (contains uri (codes "nolan=1")))
      then some (codes "https://" ++ (t.lan_hostname ++ uri))
      else none
    else none

login_url : Config → World → Conn → Headers → Bytes
login_url cfg world conn h =
    let scheme = if conn.is_tls then codes "https" else codes "http" in
    let return_url = scheme ++ (codes "://" ++ (h.host ++ (parse_request_line h.raw).1)) in
    codes "https://tunnel."
    ++ (cfg.public_host ++ (codes "/auth?return=" ++ world.query_escape return_url))

no_tunnel_answer : Headers → Bytes → Bytes → Answer
no_tunnel_answer h host_no_port sub =
    let path = (parse_request_line h.raw).1 in
    if (path == codes "/favicon.ico") || (path == codes "/favicon.svg")
    then favicon
    else if sub == []
    then no_tunnel host_no_port
    else offline sub

module _ {N : Net} {W : WebAuthn} (cfg : Config) (world : World) where
  -- Where a visitor without the passkey of a locked tunnel is sent.
  unfoldable pub passkey_gate : Site N W → Conn → Headers → Bytes → PasskeyStore W × Option Bytes
  unfolding login_url
  passkey_gate site conn h sub =
      let (pks, user_id) =
        session_user W site.passkeys (read_pk_session_from_cookies h.raw) world.now in
      if not (sub == []) && (is_locked site.locks sub && has_credentials W site.passkeys)
      then if (user_id == []) || not (allows_user site.locks sub user_id)
        then (pks, some (login_url cfg world conn h))
        else (pks, none)
      else (site.passkeys, none)

  -- The end of the handler, past the gate.
  unfoldable pub deliver :
      Site N W → Conn → Headers → Bytes → Bytes → Option Tunnel → Site N W × Answer
  unfolding no_tunnel_answer
  deliver site conn h host_no_port sub none = (site, no_tunnel_answer h host_no_port sub)
  deliver site conn h host_no_port sub (some t) =
      if world.opens t.session
      then if world.writes t.session
        then (site, forwarded t.session (inject_client_ip h.raw conn.client_ip) h.left)
        else (site, dropped)
      else (record site { registry = release site.registry sub t.session }, evicted sub t.session)

  -- The handler from the address check on.
  unfoldable pub guarded :
      Site N W → Conn → Headers → Bytes → Bytes → Option Tunnel → Site N W × Answer
  guarded site conn h host_no_port sub t =
      let (pks, stop) = passkey_gate site conn h sub in
      let site' : Site N W = record site { passkeys = pks } in
      if not (check N site.acl sub (N.parse_ip conn.client_ip))
      then (site, forbidden conn.client_ip)
      else elim stop [
        | some url ↦ (site', redirect_login url)
        | none ↦ deliver site' conn h host_no_port sub t
      ]

  unfoldable pub route : Site N W → Conn → Headers → Bytes → Site N W × Answer
  route site conn h host_no_port =
      let (sub, t) = locate cfg site.registry h.host host_no_port in
      elim (lan_redirect cfg conn h host_no_port sub t) [
        | some url ↦ (site, redirect_lan url)
        | none ↦ guarded site conn h host_no_port sub t
      ]

  unfoldable pub handle_public_conn : Site N W → Conn → Site N W × Answer
  handle_public_conn site conn = elim (read_headers_and_host conn.input) [
    | err e ↦ (site, bad_request)
    | ok h ↦
        let host_no_port = to_lower (strip_port h.host) in
        if is_management_host host_no_port cfg.public_host
        then if not (cfg.https_addr == []) && not conn.is_tls
          then (
            site,
            redirect_https (codes "https://" ++ (host_no_port ++ (parse_request_line h.raw).1)),
          )
          else (site, management)
        else route site conn h host_no_port
  ]
