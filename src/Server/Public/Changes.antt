-- ===== src/Server/Public/Changes.antt =====
-- What `handlePublicConn` changes on the server.
use mygrok.Base.{
  ℕ, ◌≡◌, refl, sym, subst, Option, none, some, Bytes, to_lower, arith, Bool-cases, Option-cases,
  inl, inr, ◌⊎◌,
}
use mygrok.Base.Error.{Result, ok, err}
use mygrok.Server.Names.{strip_port, is_management_host}
use mygrok.Server.Registry.{Tunnel, release}
use mygrok.Server.Registry.Invariant.{IsConsistent, release-IsConsistent}
use mygrok.Server.Acl.{Net, check}
use mygrok.Server.Passkeys.{WebAuthn}
use mygrok.Server.Headers.{Headers, ReadError, read_headers_and_host}
use mygrok.Server.Public.{
  Config, Conn, World, Site, Answer, locate, lan_redirect, passkey_gate, deliver, guarded, route,
  handle_public_conn,
}

module _ {N : Net} {W : WebAuthn} (cfg : Config) (world : World) where
  -- What a request may change: the table may lose a tunnel whose session is dead, and expired login
  -- sessions are dropped.
  abbrev Keeps : Site N W → Site N W → Type 0
  Keeps s t =
      (t.acl ≡ s.acl)
      × (t.locks ≡ s.locks)
      × ((t.registry ≡ s.registry)
          ⊎ ((sub : Bytes) × (sess : ℕ) × (t.registry ≡ release s.registry sub sess)))

  deliver-Keeps :
      (site : Site N W) (conn : Conn) (h : Headers) (hnp sub : Bytes) (t : Option Tunnel)
      → Keeps site (deliver cfg world site conn h hnp sub t).0
  unfolding deliver
  deliver-Keeps site conn h hnp sub none = (refl, refl, inl refl)
  deliver-Keeps site conn h hnp sub (some t) = elim (Bool-cases (world.opens t.session)) [
    | inl p ↦ (ground arith, ground arith, inl (ground arith))
    | inr p ↦ (ground arith, ground arith, inr (sub, t.session, ground arith))
  ]

  guarded-Keeps :
      (site : Site N W) (conn : Conn) (h : Headers) (hnp sub : Bytes) (t : Option Tunnel)
      → Keeps site (guarded cfg world site conn h hnp sub t).0
  unfolding guarded
  guarded-Keeps site conn h hnp sub t =
      elim (Bool-cases (check N site.acl sub (N.parse_ip conn.client_ip))) [
        | inr p ↦ rw p (refl, refl, inl refl)
        | inl p ↦ elim (Option-cases (passkey_gate cfg world site conn h sub).1) [
          | inr (url, q) ↦ rw (p, q) (refl, refl, inl refl)
          | inl q ↦
              rw (p, q)
                (deliver-Keeps
                  (record site { passkeys = (passkey_gate cfg world site conn h sub).0 }) conn h hnp
                  sub t)
        ]
      ]

  route-Keeps :
      (site : Site N W) (conn : Conn) (h : Headers) (hnp : Bytes)
      → Keeps site (route cfg world site conn h hnp).0
  unfolding route
  route-Keeps site conn h hnp =
      let sub = (locate cfg site.registry h.host hnp).0 in
      let t = (locate cfg site.registry h.host hnp).1 in
      elim (Option-cases (lan_redirect cfg conn h hnp sub t)) [
        | inr (url, q) ↦ rw (q, route) (refl, refl, inl refl)
        | inl q ↦ rw (q, route) (guarded-Keeps site conn h hnp sub t)
      ]

  Handled : (site : Site N W) (conn : Conn) → Result ReadError Headers → Site N W × Answer → Type 0
  Handled site conn (err d) r = r.0 ≡ site
  Handled site conn (ok h) r =
      (r.0 ≡ site) ⊎ (r ≡ route cfg world site conn h (to_lower (strip_port h.host)))

  handle_public_conn-Handled :
      (site : Site N W) (conn : Conn) (r : Result ReadError Headers)
      → read_headers_and_host conn.input ≡ r
      → Handled site conn r (handle_public_conn cfg world site conn)
  unfolding handle_public_conn Handled
  handle_public_conn-Handled site conn (err d) p = ground arith
  handle_public_conn-Handled site conn (ok h) p =
      elim (Bool-cases (is_management_host (to_lower (strip_port h.host)) cfg.public_host)) [
        | inl m ↦ inl (ground arith)
        | inr m ↦ inr (ground arith)
      ]

  Handled-Keeps :
      (site : Site N W) (conn : Conn) (r : Result ReadError Headers) (a : Site N W × Answer)
      → Handled site conn r a
      → Keeps site a.0
  unfolding Handled
  Handled-Keeps site conn (err d) a e = subst (Keeps site) (sym e) (refl, refl, inl refl)
  Handled-Keeps site conn (ok h) a (inl e) = subst (Keeps site) (sym e) (refl, refl, inl refl)
  Handled-Keeps site conn (ok h) a (inr e) =
      subst (λ (b : Site N W × Answer). Keeps site b.0) (sym e)
        (route-Keeps site conn h (to_lower (strip_port h.host)))

  -- Whatever a public request asks for, the address rules and the passkey lists stay as they are,
  -- and the two maps of the tunnel table still agree.
  pub handle_public_conn-IsConsistent :
      (site : Site N W) (conn : Conn)
      → IsConsistent site.registry
      → let after = (handle_public_conn cfg world site conn).0 in
        (after.acl ≡ site.acl) × (after.locks ≡ site.locks) × IsConsistent after.registry
  handle_public_conn-IsConsistent site conn v =
      let (a, l, r) =
        Handled-Keeps site conn _ (handle_public_conn cfg world site conn)
          (handle_public_conn-Handled site conn (read_headers_and_host conn.input) refl) in
      (
        a,
        l,
        elim r [
          | inl e ↦ subst IsConsistent (sym e) v
          | inr (sub, sess, e) ↦
              subst IsConsistent (sym e) (release-IsConsistent site.registry sub sess v)
        ],
      )
