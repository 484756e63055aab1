-- ===== src/Server/Registry/Invariant.antt =====
-- The agreement of the two maps of `registry`, and its fate under `claim` and `release`.
use mygrok.Base.{
  ℕ, ◌≡◌, sym, ap, ◌∙◌, ◌⊎◌, inl, inr, true, false, List, [], ◌∷◌, Option, none, some, Bytes, ◌==◌,
  eq_iff, eq→path, eqb, member, arith, Bool-cases, Option-cases, subst,
}
use mygrok.Base.Error.{ok}
use mygrok.Base.Dict.{
  Dict, lookup, insert, erase, insert_all, erase_all, lookup-insert, lookup-erase,
  lookup-insert_all, lookup-erase_all,
}
use mygrok.Server.Registry.{
  Tunnel, Registry, new_registry, Claimed, find_conflict, install, claim, release,
}

pub record IsConsistent (r : Registry) : Type 0 where
  -- a custom host leads to a live tunnel that asked for it
  pub owned :
      (h s : Bytes)
      → lookup h r.custom_hosts ≡ some s
      → (t : Tunnel) × (lookup s r.tunnels ≡ some t) × (member h t.hostnames ≡ true)
  -- every host that a live tunnel asked for leads to it
  pub routed :
      (s : Bytes) (t : Tunnel)
      → lookup s r.tunnels ≡ some t
      → (h : Bytes) → member h t.hostnames ≡ true
      → lookup h r.custom_hosts ≡ some s
  pub named : (s : Bytes) (t : Tunnel) → lookup s r.tunnels ≡ some t → t.subdomain ≡ s

pub new_registry-IsConsistent : IsConsistent new_registry
unfolding new_registry lookup
new_registry-IsConsistent = record {
  owned = λ h s e. cc;
  routed = λ s t e h m. cc;
  named = λ s t e. cc;
}

-- No name that was asked for is owned by another subdomain.
pub find_conflict-none :
    (sub : Bytes) (owners : Dict Bytes) (hs : List Bytes) (h owner : Bytes)
    → find_conflict sub owners hs ≡ none
    → member h hs ≡ true
    → lookup h owners ≡ some owner
    → owner ≡ sub
unfolding find_conflict
find_conflict-none sub owners [] h owner e m l = cc
find_conflict-none sub owners (k ∷ hs) h owner e m l =
    ground (arith, find_conflict-none sub owners hs h owner, eq_iff k h, eq_iff owner sub)

-- Registering `t` over custom hosts from which every entry of its subdomain is gone.
module _ (r : Registry) (t : Tunnel) (owners : Dict Bytes) (old : Option Tunnel)
    (v : IsConsistent r)
    -- an entry that is left is an entry of another subdomain
    (left : (h s : Bytes)
      → lookup h owners ≡ some s
      → (lookup h r.custom_hosts ≡ some s) × ((t.subdomain == s) ≡ false))
    -- and no entry of another subdomain is lost
    (kept : (h s : Bytes)
      → lookup h r.custom_hosts ≡ some s
      → (t.subdomain == s) ≡ false
      → lookup h owners ≡ some s)
    (free : (h s : Bytes)
      → member h t.hostnames ≡ true
      → lookup h r.custom_hosts ≡ some s
      → s ≡ t.subdomain) where
  install_owned :
      (h s : Bytes)
      → lookup h (insert_all t.hostnames t.subdomain owners) ≡ some s
      → (u : Tunnel) × (lookup s (insert t.subdomain t r.tunnels) ≡ some u)
        × (member h u.hostnames ≡ true)
  install_owned h s e = elim (Bool-cases (member h t.hostnames)) [
    | inl m ↦ (
      t,
      ground (
        arith,
        e,
        lookup-insert_all t.hostnames h t.subdomain owners,
        lookup-insert t.subdomain s t r.tunnels,
        eq_iff t.subdomain s,
      ),
      m,
    )
    | inr m ↦
        let e' : lookup h owners ≡ some s =
          ground (arith, lookup-insert_all t.hostnames h t.subdomain owners) in
        let (was, other) = left h s e' in
        let (u, p, q) = v.owned h s was in
        (u, ground (arith, lookup-insert t.subdomain s t r.tunnels), q)
  ]

  install_routed :
      (s : Bytes) (u : Tunnel)
      → lookup s (insert t.subdomain t r.tunnels) ≡ some u
      → (h : Bytes) → member h u.hostnames ≡ true
      → lookup h (insert_all t.hostnames t.subdomain owners) ≡ some s
  install_routed s u e h m = elim (Bool-cases (t.subdomain == s)) [
    | inl self ↦
        let p : some t ≡ some u = ground (arith, lookup-insert t.subdomain s t r.tunnels) in
        let q : member h t.hostnames ≡ true = cc in
        rw (lookup-insert_all t.hostnames h t.subdomain owners, q) (ap some (eq→path _ _ self))
    | inr other ↦
        let p : lookup s r.tunnels ≡ some u =
          ground (arith, lookup-insert t.subdomain s t r.tunnels) in
        let was = v.routed s u p h m in
        ground (
          arith,
          lookup-insert_all t.hostnames h t.subdomain owners,
          kept h s was other,
          free h s,
          eq_iff t.subdomain s,
        )
  ]

  install-IsConsistent : IsConsistent (install r t owners old).registry
  unfolding install
  install-IsConsistent = record {
    owned = install_owned;
    routed = install_routed;
    named = λ s u e.
        ground (arith, lookup-insert t.subdomain s t r.tunnels, eq_iff t.subdomain s, v.named s u);
  }

-- A registered tunnel's hosts may be dropped: nothing else leads to its subdomain.
module _ (r : Registry) (v : IsConsistent r) (sub : Bytes) (old : Tunnel)
    (live : lookup sub r.tunnels ≡ some old) where
  pub erase_left :
      (h s : Bytes)
      → lookup h (erase_all old.hostnames r.custom_hosts) ≡ some s
      → (lookup h r.custom_hosts ≡ some s) × ((sub == s) ≡ false)
  erase_left h s e =
      let was : lookup h r.custom_hosts ≡ some s =
        ground (arith, lookup-erase_all old.hostnames h r.custom_hosts) in
      let gone : member h old.hostnames ≡ false =
        ground (arith, lookup-erase_all old.hostnames h r.custom_hosts) in
      let (u, p, q) = v.owned h s was in (was, ground (arith, eq_iff sub s, live, p, q, gone))

  pub erase_kept :
      (h s : Bytes)
      → lookup h r.custom_hosts ≡ some s
      → (sub == s) ≡ false
      → lookup h (erase_all old.hostnames r.custom_hosts) ≡ some s
  erase_kept h s was other = elim (Bool-cases (member h old.hostnames)) [
    | inl m ↦ ground (arith, v.routed sub old live h m, eq_iff sub s)
    | inr m ↦ ground (arith, lookup-erase_all old.hostnames h r.custom_hosts)
  ]

-- The ways in which a claim succeeds.
abbrev pub Accepted : Registry → Tunnel → Claimed → Type 0
Accepted r t c =
    ((lookup t.subdomain r.tunnels ≡ none) × (c ≡ install r t r.custom_hosts none))
    ⊎ ((old : Tunnel) × (lookup t.subdomain r.tunnels ≡ some old)
        × (old.client_id ≡ t.client_id)
        × ((t.client_id == []) ≡ false)
        × (c ≡ install r t (erase_all old.hostnames r.custom_hosts) (some old)))

pub claim-Accepted :
    (r : Registry) (t : Tunnel) {c : Claimed}
    → claim r t ≡ ok c
    → (find_conflict t.subdomain r.custom_hosts t.hostnames ≡ none) × Accepted r t c
unfolding claim
claim-Accepted r t e = (
  ground arith,
  elim (Option-cases (lookup t.subdomain r.tunnels)) [
    | inl p ↦ inl (p, ground arith)
    | inr (old, p) ↦
        inr (old, p, ground (arith, eq_iff old.client_id t.client_id), ground arith, ground arith)
  ],
)

-- A claim that succeeds keeps the two maps consistent.
pub claim-IsConsistent :
    (r : Registry) (t : Tunnel) {c : Claimed}
    → IsConsistent r
    → claim r t ≡ ok c
    → IsConsistent c.registry
claim-IsConsistent r t {c} v e =
    let (clear, how) = claim-Accepted r t e in
    let free =
      λ (h s : Bytes) (m : member h t.hostnames ≡ true) (l : lookup h r.custom_hosts ≡ some s).
        find_conflict-none t.subdomain r.custom_hosts t.hostnames h s clear m l in
    elim how [
      | inl (absent, p) ↦
          subst (λ (d : Claimed). IsConsistent d.registry) (sym p)
            (install-IsConsistent r t r.custom_hosts none v
              (λ h s was.
                let (u, q, _) = v.owned h s was in
                (was, ground (arith, eq_iff t.subdomain s, absent, q)))
              (λ h s was _. was) free)
      | inr (old, live, _, _, p) ↦
          subst (λ (d : Claimed). IsConsistent d.registry) (sym p)
            (install-IsConsistent r t (erase_all old.hostnames r.custom_hosts) (some old) v
              (erase_left r v t.subdomain old live) (erase_kept r v t.subdomain old live) free)
    ]

pub release_absent :
    (r : Registry) (sub : Bytes) (sess : ℕ) → lookup sub r.tunnels ≡ none → release r sub sess ≡ r
unfolding release
release_absent r sub sess e = rw (e, release)

pub release_stale :
    (r : Registry) (sub : Bytes) (sess : ℕ) {t : Tunnel}
    → lookup sub r.tunnels ≡ some t
    → eqb t.session sess ≡ false
    → release r sub sess ≡ r
unfolding release
release_stale r sub sess e other = ground arith

pub release_own :
    (r : Registry) (sub : Bytes) (sess : ℕ) {t : Tunnel}
    → lookup sub r.tunnels ≡ some t
    → eqb t.session sess ≡ true
    → release r sub sess ≡ record {
      tunnels = erase sub r.tunnels;
      custom_hosts = erase_all t.hostnames r.custom_hosts;
    }
unfolding release
release_own r sub sess e same = ground arith

-- So does a release, whoever calls it.
pub release-IsConsistent :
    (r : Registry) (sub : Bytes) (sess : ℕ) → IsConsistent r → IsConsistent (release r sub sess)
release-IsConsistent r sub sess v = elim (Option-cases (lookup sub r.tunnels)) [
  | inl absent ↦ rw (release_absent r sub sess absent) v
  | inr (old, live) ↦ elim (Bool-cases (eqb old.session sess)) [
    | inl same ↦ rw (release_own r sub sess live same) (record {
      owned = λ h s e.
          let (was, other) = erase_left r v sub old live h s e in
          let (u, p, q) = v.owned h s was in (u, lookup-erase sub s r.tunnels ∙ rw other p, q);
      routed = λ s u e h m.
          let p : ((sub == s) ≡ false) × (lookup s r.tunnels ≡ some u) =
            ground (arith, lookup-erase sub s r.tunnels) in
          erase_kept r v sub old live h s (v.routed s u p.1 h m) p.0;
      named = λ s u e. v.named s u (ground (arith, lookup-erase sub s r.tunnels));
    })
    | inr other ↦ rw (release_stale r sub sess live other) v
  ]
]
