-- ===== src/Server/System/Connections.antt =====
-- A public connection, of `handlePublicConn` in cmd/mygrokd/main.go, as calls on the tables; and the
-- steps of the server, each the whole of one connection.
use mygrok.Base.{
  ℕ, ◌≡◌, not, ◌&&◌, ◌||◌, [], Option, none, some, Bytes, ◌==◌, to_lower, Bool-cases, Option-cases,
  inl, inr,
}
use mygrok.Base.Error.{ok, Result-cases}
use mygrok.Server.Names.{strip_port, is_management_host}
use mygrok.Server.Registry.{Tunnel, Claimed, release}
use mygrok.Server.Registry.Reach.{claims, releases}
use mygrok.Server.Acl.{Net, check}
use mygrok.Server.Locks.{is_locked, allows_user}
use mygrok.Server.Passkeys.{WebAuthn}
use mygrok.Server.Passkeys.Store.{has_credentials}
use mygrok.Server.Passkeys.Sessions.{session_user}
use mygrok.Server.Headers.{Headers, read_headers_and_host, read_pk_session_from_cookies}
use mygrok.Server.Public.{
  Config, Conn, World, Site, Answer, locate, lan_redirect, passkey_gate, deliver, guarded, route,
  handle_public_conn,
}
use mygrok.Server.Admin.{GoLib, Flags}
use mygrok.Server.Handshake.{Hello, Settings, Wire, enter}
use mygrok.Server.Handshake.Entered.{enter-IsEntered}
use mygrok.Server.Manage.{Host, Moment}
use mygrok.Server.Manage.Ceremony.{Ceremony}
use mygrok.Server.Manage.Dispatch.{serve_admin}
use mygrok.Server.System.{Calls, nothing, on_tunnels, on_store, reads, one, Calls-append}
use mygrok.Server.System.Requests.{serve_admin-Calls}

module _ {N : Net} {W : WebAuthn} where
  -- What a public connection sees of the server.
  abbrev pub site_of : Host N W → Site N W
  site_of h = record { registry = h.registry; acl = h.acl; locks = h.locks; passkeys = h.passkeys }

  abbrev pub with_site : Host N W → Site N W → Host N W
  with_site h s = record h {
    registry = s.registry;
    acl = s.acl;
    locks = s.locks;
    passkeys = s.passkeys;
  }

module _ {N : Net} {W : WebAuthn} (C : Ceremony W) (Fresh : Bytes → Type 0) (cfg : Config)
    (world : World) where
  record Leaves (h : Host N W) (a : Site N W × Answer) : Type 0 where
    calls : Calls C Fresh h (with_site h a.0)

  deliver-Leaves :
      (h : Host N W) (conn : Conn) (hs : Headers) (hnp sub : Bytes) (t : Option Tunnel)
      → Leaves h (deliver cfg world (site_of h) conn hs hnp sub t)
  unfolding deliver
  deliver-Leaves h conn hs hnp sub none = record { calls = nothing }
  deliver-Leaves h conn hs hnp sub (some t) = elim (Bool-cases (world.opens t.session)) [
    | inl p ↦ elim (Bool-cases (world.writes t.session)) [
      | inl q ↦ rw (p, q) (record { calls = nothing })
      | inr q ↦ rw (p, q) (record { calls = nothing })
    ]
    | inr p ↦ rw p (record { calls = one (on_tunnels _ (releases sub t.session)) })
  ]

  passkey_gate-Calls :
      (h : Host N W) (conn : Conn) (hs : Headers) (sub : Bytes)
      → Calls C Fresh h (record h { passkeys = (passkey_gate cfg world (site_of h) conn hs sub).0 })
  unfolding passkey_gate
  passkey_gate-Calls h conn hs sub =
      let sid = read_pk_session_from_cookies hs.raw in
      let user = (session_user W h.passkeys sid world.now).1 in
      elim (Bool-cases
        (not (sub == []) && (is_locked h.locks sub && has_credentials W h.passkeys))) [
          | inr p ↦ rw p nothing
          | inl p ↦ elim (Bool-cases ((user == []) || not (allows_user h.locks sub user))) [
            | inl q ↦ rw (p, q) (one (on_store _ (reads sid world.now)))
            | inr q ↦ rw (p, q) (one (on_store _ (reads sid world.now)))
          ]
        ]

  guarded-Leaves :
      (h : Host N W) (conn : Conn) (hs : Headers) (hnp sub : Bytes) (t : Option Tunnel)
      → Leaves h (guarded cfg world (site_of h) conn hs hnp sub t)
  unfolding guarded
  guarded-Leaves h conn hs hnp sub t =
      let first = passkey_gate-Calls h conn hs sub in
      let h' : Host N W = record h {
        passkeys = (passkey_gate cfg world (site_of h) conn hs sub).0;
      } in
      elim (Bool-cases (check N h.acl sub (N.parse_ip conn.client_ip))) [
        | inr p ↦ rw p (record { calls = nothing })
        | inl p ↦ elim (Option-cases (passkey_gate cfg world (site_of h) conn hs sub).1) [
          | inr (url, q) ↦ rw (p, q) (record { calls = first })
          | inl q ↦
              rw (p, q)
                (record { calls = Calls-append first (deliver-Leaves h' conn hs hnp sub t).calls })
        ]
      ]

  route-Leaves :
      (h : Host N W) (conn : Conn) (hs : Headers) (hnp : Bytes)
      → Leaves h (route cfg world (site_of h) conn hs hnp)
  unfolding route
  route-Leaves h conn hs hnp =
      let sub = (locate cfg h.registry hs.host hnp).0 in
      let t = (locate cfg h.registry hs.host hnp).1 in
      elim (Option-cases (lan_redirect cfg conn hs hnp sub t)) [
        | inr (url, q) ↦ rw (q, route) (record { calls = nothing })
        | inl q ↦ rw (q, route) (guarded-Leaves h conn hs hnp sub t)
      ]

  handle_public_conn-Calls :
      (h : Host N W) (conn : Conn)
      → Calls C Fresh h (with_site h (handle_public_conn cfg world (site_of h) conn).0)
  unfolding handle_public_conn
  handle_public_conn-Calls h conn = elim (Result-cases (read_headers_and_host conn.input)) [
    | inl (d, p) ↦ rw (p, handle_public_conn) nothing
    | inr (hs, p) ↦
        let host = to_lower (strip_port hs.host) in
        elim (Bool-cases (is_management_host host cfg.public_host)) [
          | inr m ↦
              rw (p, handle_public_conn)
                (rw (m, handle_public_conn) (route-Leaves h conn hs host).calls)
          | inl m ↦ elim (Bool-cases (not (cfg.https_addr == []) && not conn.is_tls)) [
            | inl q ↦ rw (p, handle_public_conn) (rw (m, q) nothing)
            | inr q ↦ rw (p, handle_public_conn) (rw (m, q) nothing)
          ]
        ]
  ]

-- One step of the server: a request to the management host, a public connection, a client that gets
-- its tunnel, or the end of a tunnel.
pub data Act {N : Net} {W : WebAuthn} (G : GoLib) (C : Ceremony W) (flags : Flags)
    (Fresh : Bytes → Type 0) (h : Host N W) : Host N W → Type 0 where
  manages :
      (raw left : Bytes) (t : Moment)
      → Fresh (t.random 1)
      → Act G C flags Fresh h (serve_admin G C flags h raw left t).0
  visits :
      (cfg : Config) (world : World) (conn : Conn)
      → Act G C flags Fresh h (with_site h (handle_public_conn cfg world (site_of h) conn).0)
  connects :
      (cfg : Settings) (hello : Hello) (wire : Wire) (c : Claimed)
      → enter cfg hello wire h.registry ≡ ok c
      → Act G C flags Fresh h (record h { registry = c.registry })
  disconnects :
      (sub : Bytes) (sess : ℕ)
      → Act G C flags Fresh h (record h { registry = release h.registry sub sess })

-- Steps one after another.
pub data Run {N : Net} {W : WebAuthn} (G : GoLib) (C : Ceremony W) (flags : Flags)
    (Fresh : Bytes → Type 0) (h : Host N W) : Host N W → Type 0 where
  idle : Run G C flags Fresh h h
  acts :
      {k m : Host N W} → Run G C flags Fresh h k → Act G C flags Fresh k m → Run G C flags Fresh h m

module _ {N : Net} {W : WebAuthn} (G : GoLib) (C : Ceremony W) (flags : Flags)
    (Fresh : Bytes → Type 0) where
  Act-Calls : {h k : Host N W} → Act G C flags Fresh h k → Calls C Fresh h k
  Act-Calls {h} (manages raw left t f) = serve_admin-Calls G flags h raw left t f
  Act-Calls {h} (visits cfg world conn) = handle_public_conn-Calls C Fresh cfg world h conn
  Act-Calls {h} (connects cfg hello wire c e) =
      let entered = enter-IsEntered cfg hello wire h.registry e in
      one (on_tunnels c.registry (claims entered.tunnel c entered.claimed))
  Act-Calls {h} (disconnects sub sess) = one (on_tunnels _ (releases sub sess))

  pub Run-Calls : {h k : Host N W} → Run G C flags Fresh h k → Calls C Fresh h k
  Run-Calls idle = nothing
  Run-Calls (acts p a) = Calls-append (Run-Calls p) (Act-Calls a)
