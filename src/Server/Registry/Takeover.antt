-- ===== src/Server/Registry/Takeover.antt =====
-- Who may claim a subdomain, and what a takeover leaves for the session that it replaced.
use mygrok.Base.{
  ℕ, ◌≡◌, refl, ◌≢◌, ◌⊎◌, ◌↔◌, inl, inr, true, List, [], ◌∷◌, none, some, Bytes, ◌==◌, eq_iff,
  eq_refl, if◌then◌else◌, member, arith, Option-cases,
}
use mygrok.Base.Error.{ok}
use mygrok.Base.Dict.{Dict, lookup, erase_all, lookup-insert}
use mygrok.Server.Registry.{Tunnel, Registry, Claimed, find_conflict, install, claim, release, get}
use mygrok.Server.Registry.Invariant.{find_conflict-none, claim-Accepted, release_stale}

-- No requested name belongs to another subdomain.
abbrev pub Unowned : Registry → Tunnel → Type 0
Unowned r t =
    (h owner : Bytes)
    → member h t.hostnames ≡ true
    → lookup h r.custom_hosts ≡ some owner
    → owner ≡ t.subdomain

-- The subdomain is free, or its tunnel has the same client id, which is not empty.
abbrev pub Available : Registry → Tunnel → Type 0
Available r t =
    (get r t.subdomain ≡ none)
    ⊎ ((old : Tunnel) × (get r t.subdomain ≡ some old)
        × (old.client_id ≡ t.client_id)
        × (t.client_id ≢ []))

find_conflict_clear :
    (sub : Bytes) (owners : Dict Bytes) (hs : List Bytes)
    → ((h owner : Bytes) → member h hs ≡ true → lookup h owners ≡ some owner → owner ≡ sub)
    → find_conflict sub owners hs ≡ none
unfolding find_conflict
find_conflict_clear sub owners [] f = refl
find_conflict_clear sub owners (k ∷ hs) f =
    let rest = find_conflict_clear sub owners hs (λ h owner m l. f h owner (ground arith) l) in
    elim (Option-cases (lookup k owners)) [
      | inl e ↦ ground arith
      | inr (owner, e) ↦ ground (arith, eq_refl k, f k owner, eq_iff owner sub)
    ]

claim-Available :
    (r : Registry) (t : Tunnel) → Unowned r t → Available r t → (c : Claimed) × (claim r t ≡ ok c)
claim-Available r t clear (inl free) = (
  install r t r.custom_hosts none,
  unfold claim get in
      ground (arith, find_conflict_clear t.subdomain r.custom_hosts t.hostnames clear),
)
claim-Available r t clear (inr (old, live, same, named)) = (
  install r t (erase_all old.hostnames r.custom_hosts) (some old),
  unfold claim get in
      ground (
        arith,
        find_conflict_clear t.subdomain r.custom_hosts t.hostnames clear,
        eq_iff old.client_id t.client_id,
        eq_iff t.client_id [],
      ),
)

-- A claim succeeds exactly if no requested name belongs to another subdomain, and the subdomain is
-- free or held by the same client id, which is not empty.
pub claim_iff :
    (r : Registry) (t : Tunnel)
    → ((c : Claimed) × (claim r t ≡ ok c)) ↔ (Unowned r t × Available r t)
claim_iff r t = (
  λ p.
      let (clear, how) = claim-Accepted r t p.1 in
      (
        λ h owner m l. find_conflict-none t.subdomain r.custom_hosts t.hostnames h owner clear m l,
        elim how [
          | inl (free, _) ↦ inl (unfold get in free)
          | inr (old, live, same, named, _) ↦
              inr (old, unfold get in live, same, ground (arith, eq_iff t.client_id []))
        ],
      ),
  λ p. claim-Available r t p.0 p.1,
)

-- The table after a claim, subdomain by subdomain.
pub get-claim :
    (r : Registry) (t : Tunnel) {c : Claimed} (s : Bytes)
    → claim r t ≡ ok c
    → get c.registry s ≡ (if t.subdomain == s then some t else get r s)
get-claim r t {c} s e =
    let (_, how) = claim-Accepted r t e in
    elim how [
      | inl (_, p) ↦ unfold get install in rw p (lookup-insert t.subdomain s t r.tunnels)
      | inr (_, _, _, _, p) ↦ unfold get install in rw p (lookup-insert t.subdomain s t r.tunnels)
    ]

-- A claim that succeeds closes the session of the tunnel that it replaces and no other, and returns
-- that tunnel.
claim_preempts :
    (r : Registry) (t : Tunnel) {c : Claimed}
    → claim r t ≡ ok c
    → (c.preempted ≡ get r t.subdomain)
      × (c.closing ≡ elim (get r t.subdomain) [ none ↦ none | some old ↦ some old.session ])
claim_preempts r t {c} e =
    let (_, how) = claim-Accepted r t e in
    elim how [
      | inl (free, p) ↦ unfold get install in (ground arith, ground arith)
      | inr (old, live, _, _, p) ↦ unfold get install in (ground arith, ground arith)
    ]

-- After a takeover the release of the session that it replaced changes nothing.
pub release-claim_stale :
    (r : Registry) (t : Tunnel) {c : Claimed} (stale : ℕ)
    → claim r t ≡ ok c
    → t.session ≢ stale
    → release c.registry t.subdomain stale ≡ c.registry
release-claim_stale r t {c} stale e other =
    release_stale c.registry t.subdomain stale {t = t}
      (unfold get in ground (arith, get-claim r t t.subdomain e, eq_refl t.subdomain))
      (ground arith)
