-- ===== src/Server/Registry/Routes.antt =====
-- Which tunnel serves a custom host, before and after a claim or a release.
use mygrok.Base.{
  ℕ, ◌≡◌, sym, ap, ◌∙◌, inl, inr, true, false, Option, none, some, Bytes, ◌==◌, eq_iff, eq_refl,
  if◌then◌else◌, member, arith, Bool-cases, Option-cases,
}
use mygrok.Base.Error.{ok}
use mygrok.Base.Dict.{
  Dict, lookup, insert, erase, insert_all, erase_all, lookup-insert, lookup-erase,
  lookup-insert_all,
}
use mygrok.Server.Registry.{
  Tunnel, Registry, Claimed, install, claim, release, lookup_host, host_known, get,
}
use mygrok.Server.Registry.Invariant.{
  IsConsistent, claim-Accepted, release_own, erase_left, erase_kept,
}

-- The answer, unless it is the tunnel of this subdomain.
abbrev pub without : Bytes → Option Tunnel → Option Tunnel
without sub none = none
without sub (some u) = if u.subdomain == sub then none else some u

-- The table leads a custom host to a live tunnel whenever it knows the host, so a request for a
-- host that may get a certificate always has a tunnel.
pub host_known-lookup_host :
    (r : Registry) (h : Bytes)
    → IsConsistent r
    → host_known r h ≡ true
    → (t : Tunnel) × (lookup_host r h ≡ some t) × (member h t.hostnames ≡ true)
host_known-lookup_host r h v known = elim (Option-cases (lookup h r.custom_hosts)) [
  | inl e ↦ unfold host_known in absurd (ground arith)
  | inr (s, e) ↦ let (t, p, m) = v.owned h s e in (t, unfold lookup_host in ground arith, m)
]

-- A lookup through custom hosts `owners` that keep what leads to other subdomains than `sub`.
through :
    (r : Registry) (v : IsConsistent r) (sub h : Bytes) (owners : Dict Bytes)
    (tunnels : Dict Tunnel)
    → ((s : Bytes)
        → lookup h owners ≡ some s
        → (lookup h r.custom_hosts ≡ some s) × ((sub == s) ≡ false))
    → ((s : Bytes)
        → lookup h r.custom_hosts ≡ some s
        → (sub == s) ≡ false
        → lookup h owners ≡ some s)
    → ((s : Bytes) → (sub == s) ≡ false → lookup s tunnels ≡ lookup s r.tunnels)
    → lookup_host (record { tunnels = tunnels; custom_hosts = owners }) h
      ≡ without sub (lookup_host r h)
unfolding lookup_host
through r v sub h owners tunnels left kept same = elim (Option-cases (lookup h r.custom_hosts)) [
  | inl e ↦ elim (Option-cases (lookup h owners)) [
    | inl d ↦ ground arith
    | inr (s, d) ↦ ground (arith, left s d)
  ]
  | inr (s, e) ↦
      let (u, p, m) = v.owned h s e in
      let n = v.named s u p in
      elim (Bool-cases (sub == s)) [
        | inl self ↦ elim (Option-cases (lookup h owners)) [
          | inl d ↦ ground (arith, eq_iff sub s, eq_iff u.subdomain sub)
          | inr (s', d) ↦ ground (arith, left s' d)
        ]
        | inr other ↦
            ground (arith, kept s e other, same s other, eq_iff sub s, eq_iff u.subdomain sub)
      ]
]

install_routes :
    (r : Registry) (v : IsConsistent r) (t : Tunnel) (owners : Dict Bytes) (old : Option Tunnel)
    → ((h s : Bytes)
        → lookup h owners ≡ some s
        → (lookup h r.custom_hosts ≡ some s) × ((t.subdomain == s) ≡ false))
    → ((h s : Bytes)
        → lookup h r.custom_hosts ≡ some s
        → (t.subdomain == s) ≡ false
        → lookup h owners ≡ some s)
    → (h : Bytes)
    → lookup_host (install r t owners old).registry h
      ≡ (if member h t.hostnames then some t else without t.subdomain (lookup_host r h))
unfolding install
install_routes r v t owners old left kept h = elim (Bool-cases (member h t.hostnames)) [
  | inl m ↦
      unfold lookup_host in
      ground (
        arith,
        lookup-insert_all t.hostnames h t.subdomain owners,
        lookup-insert t.subdomain t.subdomain t r.tunnels,
        eq_refl t.subdomain,
      )
  | inr m ↦
      let e : lookup h (insert_all t.hostnames t.subdomain owners) ≡ lookup h owners =
        ground (arith, lookup-insert_all t.hostnames h t.subdomain owners) in
      rw m (
        through r v t.subdomain h (insert_all t.hostnames t.subdomain owners)
          (insert t.subdomain t r.tunnels) (λ s d. left h s (sym e ∙ d)) (λ s d o. e ∙ kept h s d o)
          (λ s o. ground (arith, lookup-insert t.subdomain s t r.tunnels)))
]

-- After a claim a custom host leads to the new tunnel if that asked for it, to no tunnel if it led
-- to the one replaced, and where it led before otherwise.
pub lookup_host-claim :
    (r : Registry) (t : Tunnel) {c : Claimed} (h : Bytes)
    → IsConsistent r
    → claim r t ≡ ok c
    → lookup_host c.registry h
      ≡ (if member h t.hostnames then some t else without t.subdomain (lookup_host r h))
lookup_host-claim r t {c} h v e =
    let (_, how) = claim-Accepted r t e in
    elim how [
      | inl (absent, p) ↦
          ap (λ (d : Claimed). lookup_host d.registry h) p
          ∙ install_routes r v t r.custom_hosts none
              (λ k s was.
                let (u, q, _) = v.owned k s was in
                (was, ground (arith, eq_iff t.subdomain s, absent, q)))
              (λ k s was _. was) h
      | inr (old, live, _, _, p) ↦
          ap (λ (d : Claimed). lookup_host d.registry h) p
          ∙ install_routes r v t (erase_all old.hostnames r.custom_hosts) (some old)
              (erase_left r v t.subdomain old live) (erase_kept r v t.subdomain old live) h
    ]

-- A release by the session that holds the subdomain removes its tunnel and every custom host that
-- led to it, and nothing else.
pub release_routes :
    (r : Registry) (sub : Bytes) (sess : ℕ) {t : Tunnel} (s h : Bytes)
    → IsConsistent r
    → get r sub ≡ some t
    → t.session ≡ sess
    → (get (release r sub sess) s ≡ (if sub == s then none else get r s))
      × (lookup_host (release r sub sess) h ≡ without sub (lookup_host r h))
release_routes r sub sess {t} s h v live own =
    let live' : lookup sub r.tunnels ≡ some t = unfold get in live in
    let gone = release_own r sub sess live' (ground arith) in
    (
      unfold get in rw gone (lookup-erase sub s r.tunnels),
      rw gone (
          through r v sub h (erase_all t.hostnames r.custom_hosts) (erase sub r.tunnels)
            (λ k d. erase_left r v sub t live' h k d) (λ k d o. erase_kept r v sub t live' h k d o)
            (λ k o. ground (arith, lookup-erase sub k r.tunnels))),
    )
