-- ===== src/Server/Public/Admitted.antt =====
-- The requests that `handlePublicConn` forwards.
use mygrok.Base.{
  ℕ, ◌≡◌, refl, Bool, true, not, ◌&&◌, ◌||◌, [], Option, none, some, Bytes, ◌==◌, to_lower, arith,
  Bool-cases, Option-cases, inl, inr,
}
use mygrok.Base.Error.{Result, ok, err}
use mygrok.Server.Names.{strip_port, is_management_host}
use mygrok.Server.Registry.{Tunnel}
use mygrok.Server.Acl.{Net, check}
use mygrok.Server.Locks.{is_locked, allows_user}
use mygrok.Server.Passkeys.{WebAuthn}
use mygrok.Server.Passkeys.Store.{has_credentials}
use mygrok.Server.Passkeys.Sessions.{session_user}
use mygrok.Server.Headers.{
  Headers, ReadError, read_headers_and_host, inject_client_ip, read_pk_session_from_cookies,
}
use mygrok.Server.Public.{
  Config, Conn, World, Site, forwarded, locate, lan_redirect, no_tunnel_answer, passkey_gate,
  deliver, guarded, route, handle_public_conn,
}

module _ {N : Net} {W : WebAuthn} (cfg : Config) (world : World) where
  -- The tunnel asks for a passkey.
  abbrev pub asks : Site N W → Bytes → Bool
  asks site sub = not (sub == []) && (is_locked site.locks sub && has_credentials W site.passkeys)

  -- The login session of the request names a user whom the tunnel allows.
  abbrev pub shows : Site N W → Headers → Bytes → Bool
  shows site h sub =
      let user_id =
        (session_user W site.passkeys (read_pk_session_from_cookies h.raw) world.now).1 in
      not (user_id == []) && allows_user site.locks sub user_id

  -- Why a request has reached the session: the headers were read, the host names a live tunnel of
  -- that session, the address rules let the visitor pass, and so do the passkeys of a locked tunnel.
  pub record IsAdmitted (site : Site N W) (conn : Conn) (sess : ℕ) (raw left : Bytes) : Type 0 where
    pub headers : Headers
    pub tunnel : Tunnel
    pub sub : Bytes
    pub read : read_headers_and_host conn.input ≡ ok headers
    pub located :
        locate cfg site.registry headers.host (to_lower (strip_port headers.host))
        ≡ (sub, some tunnel)
    pub same_session : tunnel.session ≡ sess
    pub permitted : check N site.acl sub (N.parse_ip conn.client_ip) ≡ true
    pub unlocked : (not (asks site sub) || shows site headers sub) ≡ true
    pub sent : inject_client_ip headers.raw conn.client_ip ≡ raw
    pub rest : headers.left ≡ left

  -- A gate that lets the request pass.
  passkey_gate-shows :
      (site : Site N W) (conn : Conn) (h : Headers) (sub : Bytes)
      → (passkey_gate cfg world site conn h sub).1 ≡ none
      → (not (asks site sub) || shows site h sub) ≡ true
  unfolding passkey_gate
  passkey_gate-shows site conn h sub e = ground arith

  -- The end of the handler forwards only what a live tunnel takes.
  deliver-forwarded :
      (site : Site N W) (conn : Conn) (h : Headers) (hnp sub : Bytes) (t : Option Tunnel) {sess : ℕ}
      {raw left : Bytes}
      → (deliver cfg world site conn h hnp sub t).1 ≡ forwarded sess raw left
      → (u : Tunnel) × (t ≡ some u)
        × (u.session ≡ sess)
        × (inject_client_ip h.raw conn.client_ip ≡ raw)
        × (h.left ≡ left)
  unfolding deliver no_tunnel_answer
  deliver-forwarded site conn h hnp sub none e = absurd (ground arith)
  deliver-forwarded site conn h hnp sub (some u) e =
      (u, refl, ground arith, ground arith, ground arith)

  guarded-forwarded :
      (site : Site N W) (conn : Conn) (h : Headers) (hnp sub : Bytes) (t : Option Tunnel) {sess : ℕ}
      {raw left : Bytes}
      → (guarded cfg world site conn h hnp sub t).1 ≡ forwarded sess raw left
      → (check N site.acl sub (N.parse_ip conn.client_ip) ≡ true)
        × ((passkey_gate cfg world site conn h sub).1 ≡ none)
        × ((deliver cfg world
              (record site { passkeys = (passkey_gate cfg world site conn h sub).0 })
              conn
              h
              hnp
              sub
              t).1
            ≡ forwarded sess raw left)
  unfolding guarded
  guarded-forwarded site conn h hnp sub t {sess} {raw} {left} e =
      elim (Bool-cases (check N site.acl sub (N.parse_ip conn.client_ip))) [
        | inr p ↦ absurd (ground arith)
        | inl p ↦ elim (Option-cases (passkey_gate cfg world site conn h sub).1) [
          | inr (url, q) ↦ absurd (ground arith)
          | inl q ↦ (p, q, ground arith)
        ]
      ]

  route-IsAdmitted :
      (site : Site N W) (conn : Conn) (h : Headers) {sess : ℕ} {raw left : Bytes}
      → read_headers_and_host conn.input ≡ ok h
      → (route cfg world site conn h (to_lower (strip_port h.host))).1 ≡ forwarded sess raw left
      → IsAdmitted site conn sess raw left
  unfolding route
  route-IsAdmitted site conn h {sess} {raw} {left} r e =
      let hnp = to_lower (strip_port h.host) in
      let sub = (locate cfg site.registry h.host hnp).0 in
      let t = (locate cfg site.registry h.host hnp).1 in
      elim (Option-cases (lan_redirect cfg conn h hnp sub t)) [
        | inr (url, p) ↦ absurd (ground arith)
        | inl p ↦
            let (fine, open_gate, sent) =
              guarded-forwarded site conn h hnp sub t {sess = sess} {raw = raw} {left = left}
                (ground arith) in
            let (u, live, same, inj, rest) =
              deliver-forwarded
                (record site { passkeys = (passkey_gate cfg world site conn h sub).0 }) conn h hnp
                sub t {sess = sess} {raw = raw} {left = left} sent in
            record {
              headers = h;
              tunnel = u;
              sub = sub;
              read = r;
              located = ground arith;
              same_session = same;
              permitted = fine;
              unlocked = passkey_gate-shows site conn h sub open_gate;
              sent = inj;
              rest = rest;
            }
      ]

  -- A request reaches a session only if its host names a live tunnel of that session, the address
  -- rules of the tunnel let the visitor pass and, where the tunnel is locked and any passkey exists,
  -- the request's login session names a user on the tunnel's list. The session gets the headers with
  -- the client's address put in, and the bytes that follow them.
  pub handle_public_conn-IsAdmitted :
      (site : Site N W) (conn : Conn) {sess : ℕ} {raw left : Bytes}
      → (handle_public_conn cfg world site conn).1 ≡ forwarded sess raw left
      → IsAdmitted site conn sess raw left
  unfolding handle_public_conn
  handle_public_conn-IsAdmitted site conn {sess} {raw} {left} e =
      go (read_headers_and_host conn.input) refl
    where
      go :
          (r : Result ReadError Headers)
          → read_headers_and_host conn.input ≡ r
          → IsAdmitted site conn sess raw left
      go (err d) p = absurd (ground arith)
      go (ok h) p =
          elim (Bool-cases (is_management_host (to_lower (strip_port h.host)) cfg.public_host)) [
            | inl m ↦ absurd (ground arith)
            | inr m ↦ route-IsAdmitted site conn h p (ground arith)
          ]
