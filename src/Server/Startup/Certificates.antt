-- ===== src/Server/Startup/Certificates.antt =====
-- The names that a certificate is ordered for: `DecisionFunc` and the wildcard test of `setupTLS`.
use mygrok.Base.{
  ◌≡◌, refl, Bool, true, false, not, ◌||◌, List, [], ◌∷◌, Option, none, some, Bytes, codes, ◌==◌,
  eq_refl, arith, to_lower, has_prefix, all, Bool-cases, Option-cases, inl, inr,
}
use mygrok.Base.Error.{ok}
use mygrok.Base.Dict.{lookup}
use mygrok.Server.Names.{subdomain_of, is_management_host}
use mygrok.Server.Registry.{Registry, get, host_known, lookup_host}
use mygrok.Server.Registry.Invariant.{IsConsistent}
use mygrok.Server.Registry.Routes.{host_known-lookup_host}
use mygrok.Server.Public.{Config, locate}
use mygrok.Server.Startup.{refuse_wildcard, check_domains, may_issue}

-- The public host itself or the management host.
abbrev pub is_own : Bytes → Bytes → Bool
is_own public_host n = is_management_host n public_host || (n == public_host)

abbrev pub present {ℓ} : {A : Type ℓ} → Option A → Bool
present none = false
present (some x) = true

host_known_present :
    (r : Registry) (h : Bytes) → IsConsistent r → host_known r h ≡ present (lookup_host r h)
host_known_present r h v = elim (Bool-cases (host_known r h)) [
  | inl p ↦ let (t, q, m) = host_known-lookup_host r h v p in ground (arith, q, p)
  | inr p ↦ elim (Option-cases (lookup h r.custom_hosts)) [
    | inl q ↦ unfold host_known lookup_host in ground arith
    | inr (s, q) ↦ unfold host_known in absurd (ground arith)
  ]
]

-- Without a DNS provider a certificate is ordered for the public host, the management host and
-- exactly the names that lead a visitor to a live tunnel. The two maps of the tunnel table agree,
-- and no custom host lies under the public host.
pub may_issue-locate :
    (cfg : Config) (r : Registry) (name : Bytes)
    → IsConsistent r
    → ((h s : Bytes) → lookup h r.custom_hosts ≡ some s → subdomain_of h cfg.public_host ≡ [])
    → let n = to_lower name in
      may_issue cfg.public_host false r name
      ≡ (is_own cfg.public_host n || present (locate cfg r n n).1)
may_issue-locate cfg r name v outside =
    let n = to_lower name in
    let sub = subdomain_of n cfg.public_host in
    elim (Bool-cases (sub == [])) [
      | inl p ↦ elim (Option-cases (lookup_host r n)) [
        | inl q ↦ unfold may_issue locate in ground (arith, host_known_present r n v)
        | inr (t, q) ↦ unfold may_issue locate in ground (arith, host_known_present r n v)
      ]
      | inr p ↦ elim (Option-cases (lookup n r.custom_hosts)) [
        | inr (s, q) ↦ absurd (ground (arith, outside n s q, eq_refl []))
        | inl q ↦ elim (Option-cases (get r sub)) [
          | inl k ↦ unfold may_issue locate host_known in ground arith
          | inr (t, k) ↦ unfold may_issue locate host_known in ground arith
        ]
      ]
    ]

refuse_wildcard-none :
    (ds : List Bytes)
    → refuse_wildcard false ds ≡ none
    → all (λ d. not (has_prefix d (codes "*."))) ds ≡ true
unfolding refuse_wildcard
refuse_wildcard-none [] e = refl
refuse_wildcard-none (d ∷ ds) e = ground (arith, refuse_wildcard-none ds)

pub check_domains-plain :
    (makes : Bool) (ds : List Bytes) {out : List Bytes}
    → check_domains false makes ds ≡ ok out
    → all (λ d. not (has_prefix d (codes "*."))) out ≡ true
unfolding check_domains
check_domains-plain makes [] e = absurd (ground arith)
check_domains-plain makes (d ∷ ds) e = elim (Option-cases (refuse_wildcard false (d ∷ ds))) [
  | inr (w, p) ↦ absurd (ground arith)
  | inl p ↦ let plain = refuse_wildcard-none (d ∷ ds) p in ground arith
]
